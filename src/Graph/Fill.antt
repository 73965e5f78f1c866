-- ===== src/Graph/Fill.antt =====
-- The scatter loop of RebuildCsr (src/common/graph.cpp): every slot of a row receives its entry, in
-- edge order, and no write of another row disturbs it.
use mathlib.Core.Path.{fun_ext}
use mathlib.Core.List.{append-nil, append_assoc}
use cuda_edge_elimination.Base.{
  ℕ, suc, ◌+◌, ◌≤◌, ◌<◌, ◌≡◌, ◌≢◌, refl, sym, ◌∙◌, ◌⊎◌, inl, inr, List, [], ◌∷◌, ◌++◌, true, ltb,
  ◌==◌, ==_iff, if◌then◌else◌, get_or, length, length-set, length-append, get_or-set_self,
  get_or-set_ne, arith, Bool-cases, subst, ltb→lt, get_or-append_left, get_or-append_last,
}
use cuda_edge_elimination.Types.{Edge}
use cuda_edge_elimination.Graph.{Slot, Filling, blank_slot, minus_one, read_slot, place, fill}
use cuda_edge_elimination.Graph.Offsets.{edge_slots, incident, InRange}

abbrev pub read : Filling → ℕ → Slot
read s i = read_slot s.neighbors s.csr_edge_ids s.csr_weights i

read-place_self :
    (from to id weight i total : ℕ) (s : Filling)
    → get_or s.cursor from 0 ≡ i
    → i < total
    → length s.neighbors ≡ total
    → length s.csr_edge_ids ≡ total
    → length s.csr_weights ≡ total
    → read (place from to id weight s) i ≡ record { neighbor = to; edge_id = id; weight = weight }
unfolding place
read-place_self from to id weight i total s e lt hn hi hw = rw e (
    ground (
      arith,
      get_or-set_self s.neighbors i to minus_one,
      get_or-set_self s.csr_edge_ids i id minus_one,
      get_or-set_self s.csr_weights i weight 0,
    ))

read-place_ne :
    (from to id weight i : ℕ) (s : Filling)
    → get_or s.cursor from 0 ≢ i
    → read (place from to id weight s) i ≡ read s i
unfolding place
read-place_ne from to id weight i s ne =
    let slot = get_or s.cursor from 0 in
    ground (
      arith,
      get_or-set_ne s.neighbors slot i to minus_one ne,
      get_or-set_ne s.csr_edge_ids slot i id minus_one ne,
      get_or-set_ne s.csr_weights slot i weight 0 ne,
    )

-- `start w` and `start (w + 1)` delimit the row of `w`; `have w` is what stands in it so far.
module _ (n total : ℕ) (start : ℕ → ℕ) (mono : (i j : ℕ) → i ≤ j → j ≤ n → start i ≤ start j)
    (within : start n ≤ total) where
  pub record Progress (have : ℕ → List Slot) (s : Filling) : Type 0 where
    pub cursors : length s.cursor ≡ suc n
    pub size_neighbors : length s.neighbors ≡ total
    pub size_ids : length s.csr_edge_ids ≡ total
    pub size_weights : length s.csr_weights ≡ total
    pub cursor_eq : (w : ℕ) → w < n → get_or s.cursor w 0 ≡ start w + length (have w)
    pub slot_eq :
        (w k : ℕ)
        → w < n
        → k < length (have w)
        → read s (start w + k) ≡ get_or (have w) k blank_slot

  abbrev push : (ℕ → List Slot) → ℕ → Slot → ℕ → List Slot
  push have from a w = if from == w then have w ++ a ∷ [] else have w

  -- Every row has room for what it holds.
  abbrev pub Room : (ℕ → List Slot) → Type 0
  Room have = (w : ℕ) → w < n → start w + length (have w) ≤ start (suc w)

  -- Two rows do not overlap.
  apart :
      (w from : ℕ)
      → w < n
      → from < n
      → w ≢ from
      → (start (suc w) ≤ start from) ⊎ (start (suc from) ≤ start w)
  apart w from hw hf ne = elim (Bool-cases (ltb w from)) [
    | inl lt ↦ inl (mono (suc w) from (ltb→lt w from lt) (omega arith))
    | inr ge ↦ inr (mono (suc from) w (ground arith) (omega arith))
  ]

  module _ (have : ℕ → List Slot) (s : Filling) (from to id weight : ℕ) (hf : from < n)
      (v : Progress have s) where
    abbrev new : Slot
    new = record { neighbor = to; edge_id = id; weight = weight }

    push_self : (w : ℕ) → from ≡ w → push have from new w ≡ have w ++ new ∷ []
    push_self w e = rw ((==_iff from w).1 e)

    push_other : (w : ℕ) → from ≢ w → push have from new w ≡ have w
    push_other w ne = ground arith

    place_cursor :
        (w : ℕ)
        → w < n
        → get_or (place from to id weight s).cursor w 0 ≡ start w + length (push have from new w)
    unfolding place
    place_cursor w lt =
        let slot = get_or s.cursor from 0 in
        ground (
          arith,
          get_or-set_self s.cursor from (slot + 1) 0,
          get_or-set_ne s.cursor from w (slot + 1) 0,
          v.cursors,
          v.cursor_eq w lt,
          length-append (have w) (new ∷ []),
        )

    place_self :
        (k : ℕ)
        → start from + length (have from) < total
        → k < length (have from ++ new ∷ [])
        → read (place from to id weight s) (start from + k)
          ≡ get_or (have from ++ new ∷ []) k blank_slot
    place_self k fits hk =
        let at = v.cursor_eq from hf in
        elim (Bool-cases (k == length (have from))) [
          | inl last ↦
              let e : k ≡ length (have from) = (==_iff k (length (have from))).0 last in
              rw (e, get_or-append_last (have from) new blank_slot)
                (read-place_self from to id weight (start from + length (have from)) total s at fits
                  v.size_neighbors v.size_ids v.size_weights)
          | inr earlier ↦
              let less : k < length (have from) =
                ground (arith, length-append (have from) (new ∷ [])) in
              read-place_ne from to id weight (start from + k) s (omega arith)
              ∙ v.slot_eq from k hf less
              ∙ sym (get_or-append_left (have from) (new ∷ []) k blank_slot less)
        ]

    place_other :
        (w k : ℕ)
        → w < n
        → w ≢ from
        → start from + length (have from) < start (suc from)
        → start w + length (have w) ≤ start (suc w)
        → k < length (have w)
        → read (place from to id weight s) (start w + k) ≡ get_or (have w) k blank_slot
    place_other w k lt ne fits room hk =
        read-place_ne from to id weight (start w + k) s
          (omega (arith, v.cursor_eq from hf, apart w from lt hf ne))
        ∙ v.slot_eq w k lt hk

    place_slot :
        Room (push have from new)
        → (w k : ℕ) → w < n
        → k < length (push have from new w)
        → read (place from to id weight s) (start w + k)
          ≡ get_or (push have from new w) k blank_slot
    place_slot room w k lt hk =
        let room_from = rw (push_self from refl) at (room from hf) in
        let fits : start from + length (have from) < start (suc from) =
          omega (arith, length-append (have from) (new ∷ [])) in
        let below = mono (suc from) n (omega arith) (omega arith) in
        elim (Bool-cases (from == w)) [
          | inl hit ↦
              let e : from ≡ w = (==_iff from w).0 hit in
              let hk' : k < length (have from ++ new ∷ []) =
                subst (λ x. k < length (have x ++ new ∷ [])) (sym e) (rw (push_self w e) at hk) in
              rw (push_self w e) (
                subst
                  (λ x.
                    read (place from to id weight s) (start x + k)
                    ≡ get_or (have x ++ new ∷ []) k blank_slot)
                  e (place_self k (omega arith) hk'))
          | inr miss ↦
              let ne : from ≢ w = ground arith in
              rw (push_other w ne) (
                place_other w k lt (λ e. ne (sym e)) fits (rw (push_other w ne) at (room w lt))
                  (rw (push_other w ne) at hk))
        ]

    place-Progress :
        Room (push have from new) → Progress (push have from new) (place from to id weight s)
    unfolding place
    place-Progress room = record {
      cursors = length-set s.cursor from _ ∙ v.cursors;
      size_neighbors = length-set s.neighbors (get_or s.cursor from 0) to ∙ v.size_neighbors;
      size_ids = length-set s.csr_edge_ids (get_or s.cursor from 0) id ∙ v.size_ids;
      size_weights = length-set s.csr_weights (get_or s.cursor from 0) weight ∙ v.size_weights;
      cursor_eq = place_cursor;
      slot_eq = place_slot room;
    }

  -- What an edge adds to every row.
  abbrev push_edge : (ℕ → List Slot) → ℕ → Edge → ℕ → List Slot
  push_edge have id e w = have w ++ edge_slots id e w

  abbrev slot_u : ℕ → Edge → Slot
  slot_u id e = record { neighbor = e.v; edge_id = id; weight = e.weight }

  abbrev slot_v : ℕ → Edge → Slot
  slot_v id e = record { neighbor = e.u; edge_id = id; weight = e.weight }

  push-push_edge :
      (have : ℕ → List Slot) (id : ℕ) (e : Edge) (w : ℕ)
      → e.active ≡ true
      → push (push have e.u (slot_u id e)) e.v (slot_v id e) w ≡ push_edge have id e w
  unfolding edge_slots
  push-push_edge have id e w on =
      ground
        (arith, append_assoc (have w) (slot_u id e ∷ []) (slot_v id e ∷ []), append-nil (have w))

  length-push_le :
      (have : ℕ → List Slot) (from : ℕ) (a : Slot) (w : ℕ)
      → length (have w) ≤ length (push have from a w)
  length-push_le have from a w = ground (arith, length-append (have w) (a ∷ []))

  abbrev fill_edge : ℕ → Filling → Edge → Filling
  fill_edge id s e = if e.active then place e.v e.u id e.weight (place e.u e.v id e.weight s) else s

  fill_edge-Progress :
      (have : ℕ → List Slot) (id : ℕ) (e : Edge) (s : Filling)
      → e.u < n
      → e.v < n
      → Progress have s
      → Room (push_edge have id e)
      → Progress (push_edge have id e) (fill_edge id s e)
  unfolding edge_slots
  fill_edge-Progress have id e s hu hv p room = elim (Bool-cases e.active) [
    | inl on ↦
        let same : push (push have e.u (slot_u id e)) e.v (slot_v id e) ≡ push_edge have id e =
          fun_ext (λ w. push-push_edge have id e w on) in
        let room_both = subst Room (sym same) room in
        let first = place-Progress have s e.u e.v id e.weight hu p (λ w lt. omega (
          arith,
          room_both w lt,
          length-push_le (push have e.u (slot_u id e)) e.v (slot_v id e) w,
        )) in
        let both =
          place-Progress (push have e.u (slot_u id e)) (place e.u e.v id e.weight s) e.v e.u id
            e.weight hv first room_both in
        subst (λ h. Progress h (fill_edge id s e)) same (rw on both)
    | inr off ↦
        let same : have ≡ push_edge have id e =
          fun_ext (λ w. ground (arith, append-nil (have w))) in
        subst (λ h. Progress h (fill_edge id s e)) same (rw off p)
  ]

  pub fill-Progress :
      (have : ℕ → List Slot) (id : ℕ) (es : List Edge) (s : Filling)
      → InRange n es
      → Progress have s
      → Room (λ w. have w ++ incident id es w)
      → Progress (λ w. have w ++ incident id es w) (fill id s es)
  unfolding fill incident
  fill-Progress have id [] s h p room =
      let same : have ≡ (λ w. have w ++ []) = fun_ext (λ w. sym (append-nil (have w))) in
      subst (λ x. Progress x s) same p
  fill-Progress have id (e ∷ es) s (hu, hv, _, h) p room =
      let same : (λ w. (have w ++ edge_slots id e w) ++ incident (suc id) es w)
          ≡ (λ w. have w ++ incident id (e ∷ es) w) =
        fun_ext (λ w. append_assoc (have w) (edge_slots id e w) (incident (suc id) es w)) in
      let room' = subst Room (sym same) room in
      let now = fill_edge-Progress have id e s hu hv p (λ w lt. omega (
        arith,
        room' w lt,
        length-append (have w ++ edge_slots id e w) (incident (suc id) es w),
      )) in
      subst (λ x. Progress x (fill (suc id) (fill_edge id s e) es)) same
        (fill-Progress (push_edge have id e) (suc id) es (fill_edge id s e) h now room')
