-- ===== src/Commit/Degrees.antt =====
-- The degree guard of the commit (src/cpu/elimination_commit.cpp).
use Prim.Native.Nat.{min}
use cuda_edge_elimination.Base.{
  ℕ, zero, suc, ◌+◌, ◌-◌, ◌<◌, ◌≤◌, ◌≡◌, ◌≢◌, refl, sym, ap, ◌∙◌, inl, inr, List, [], ◌∷◌, true,
  false, arith, some, subst, Bool-cases, ◌==◌, if◌then◌else◌, leb, ◌||◌, get_or, length, length-set,
  get_or-set_self, get_or-set_ne, length-append, ℕ_discrete,
}
use cuda_edge_elimination.Base.Int.{ℤ, pos, negsuc}
use cuda_edge_elimination.Types.{Edge, Candidate}
use cuda_edge_elimination.Graph.Offsets.{incident, edge_slots, InRange, length-edge_slots}
use cuda_edge_elimination.Jv.{edge_at}
use cuda_edge_elimination.Commit.{switch_off, deactivate_at, deactivate, lower, select}
use cuda_edge_elimination.Commit.Edges.{
  SameEnds, SameEnds-deactivate_at, SameEnds-edge_at, SameEnds-sym, edge_at-InRange, Named,
}

-- The number of active edges at a vertex.
abbrev pub valence_of : Edge → ℕ → ℕ
valence_of e w = if e.active then (if e.u == w then 1 else 0) + (if e.v == w then 1 else 0) else 0

abbrev pub valence : List Edge → ℕ → ℕ
valence [] w = 0
valence (e ∷ es) w = valence_of e w + valence es w

pub length-incident : (id : ℕ) (es : List Edge) (w : ℕ) → length (incident id es w) ≡ valence es w
unfolding incident
length-incident id [] w = refl
length-incident id (e ∷ es) w = omega (
  arith,
  length-append (edge_slots id e w) (incident (suc id) es w),
  length-edge_slots id e w,
  length-incident (suc id) es w,
)

-- What the edge with this id takes from the valence of `w` at most.
abbrev loss : Edge → ℕ → ℕ
loss e w = (if e.u == w then 1 else 0) + (if e.v == w then 1 else 0)

valence-deactivate_at :
    (es : List Edge) (id : ℤ) (e : Edge) (w : ℕ)
    → edge_at es id ≡ some e
    → valence es w ≤ valence (deactivate_at es id) w + loss e w
unfolding deactivate_at switch_off
valence-deactivate_at es (negsuc i) e w at = absurd (cc)
valence-deactivate_at [] (pos i) e w at = absurd (cc)
valence-deactivate_at (x ∷ es) (pos zero) e w at =
    let same : x ≡ e = cc in
    subst (λ y. valence_of x w + valence es w ≤ 0 + valence es w + loss y w) same (ground arith)
valence-deactivate_at (x ∷ es) (pos (suc i)) e w at =
    omega (arith, valence-deactivate_at es (pos i) e w at)

length-lower : (degrees : List ℕ) (i : ℕ) → length (lower degrees i) ≡ length degrees
unfolding lower
length-lower degrees i = length-set degrees i (get_or degrees i 0 - 1)

get_or-lower :
    (degrees : List ℕ) (i w : ℕ)
    → i < length degrees
    → get_or (lower degrees i) w 0 ≡ get_or degrees w 0 - (if i == w then 1 else 0)
unfolding lower
get_or-lower degrees i w h = ground (
  arith,
  get_or-set_self degrees i (get_or degrees i 0 - 1) 0,
  get_or-set_ne degrees i w (get_or degrees i 0 - 1) 0,
)

abbrev pub Counts : ℕ → List ℕ → List Edge → Type 0
Counts n degrees es = (w : ℕ) → w < n → get_or degrees w 0 ≤ valence es w

-- Lowering both counters of an edge with more than two at each end keeps them at two or more.
lower_both :
    (n : ℕ) (degrees : List ℕ) (u v w : ℕ)
    → length degrees ≡ n
    → u < n
    → v < n
    → u ≢ v
    → 2 < get_or degrees u 0
    → 2 < get_or degrees v 0
    → (min 2 (get_or degrees w 0) ≤ get_or (lower (lower degrees u) v) w 0)
      × (get_or (lower (lower degrees u) v) w 0
            + ((if u == w then 1 else 0) + (if v == w then 1 else 0))
          ≡ get_or degrees w 0)
lower_both n degrees u v w size hu hv ne two_u two_v =
    let first = get_or-lower degrees u w (omega arith) in
    let second = get_or-lower (lower degrees u) v w (omega (arith, length-lower degrees u)) in
    elim (ℕ_discrete u w) [
      | yes at_u ↦
          let here : get_or degrees u 0 ≡ get_or degrees w 0 = ap (λ x. get_or degrees x 0) at_u in
          let not_v : v ≢ w = λ at_v. ne (at_u ∙ sym at_v) in ground arith
      | no not_u ↦ elim (ℕ_discrete v w) [
        | yes at_v ↦
            let here : get_or degrees v 0 ≡ get_or degrees w 0 =
              ap (λ x. get_or degrees x 0) at_v in
            ground arith
        | no not_v ↦ ground arith
      ]
    ]

abbrev lowered : List ℕ → Edge → List ℕ
lowered degrees e = lower (lower degrees e.u) e.v

select_skip :
    (es : List Edge) (degrees : List ℕ) (c : Candidate) (cs : List Candidate) (e : Edge)
    → edge_at es c.edge_id ≡ some e
    → (leb (get_or degrees e.u 0) 2 || leb (get_or degrees e.v 0) 2) ≡ true
    → select es degrees (c ∷ cs) ≡ select es degrees cs
unfolding select
select_skip es degrees c cs e at low = rw (at, low)

select_take :
    (es : List Edge) (degrees : List ℕ) (c : Candidate) (cs : List Candidate) (e : Edge)
    → edge_at es c.edge_id ≡ some e
    → (leb (get_or degrees e.u 0) 2 || leb (get_or degrees e.v 0) 2) ≡ false
    → select es degrees (c ∷ cs) ≡ c ∷ select es (lowered degrees e) cs
unfolding select
select_take es degrees c cs e at high = rw (at, high)

module _ (n : ℕ) (es : List Edge) (in_range : InRange n es) where
  -- Every vertex keeps two of the edges that the counters still grant it, or all of fewer.
  abbrev pub Keeps : List ℕ → List Edge → List Candidate → Type 0
  Keeps degrees now cs =
      (w : ℕ)
      → w < n
      → min 2 (get_or degrees w 0) ≤ valence (deactivate now (select es degrees cs)) w

  select-Keeps_take :
      (degrees : List ℕ) (now : List Edge) (c : Candidate) (cs : List Candidate) (e : Edge)
      → length degrees ≡ n
      → Counts n degrees now
      → SameEnds es now
      → edge_at es c.edge_id ≡ some e
      → (leb (get_or degrees e.u 0) 2 || leb (get_or degrees e.v 0) 2) ≡ false
      → Keeps (lowered degrees e) (deactivate_at now c.edge_id) cs
      → Keeps degrees now (c ∷ cs)
  unfolding deactivate
  select-Keeps_take degrees now c cs e size counts same at high rest w lt =
      let (hu, hv, ne) = edge_at-InRange n es c.edge_id e at in_range in
      let (bound, _) = lower_both n degrees e.u e.v w size hu hv ne (ground arith) (ground arith) in
      rw (select_take es degrees c cs e at high) (let after = rest w lt in omega arith)

  Counts-lowered :
      (degrees : List ℕ) (now : List Edge) (c : Candidate) (e : Edge)
      → length degrees ≡ n
      → Counts n degrees now
      → SameEnds es now
      → edge_at es c.edge_id ≡ some e
      → (leb (get_or degrees e.u 0) 2 || leb (get_or degrees e.v 0) 2) ≡ false
      → Counts n (lowered degrees e) (deactivate_at now c.edge_id)
  Counts-lowered degrees now c e size counts same at high w lt =
      let (hu, hv, ne) = edge_at-InRange n es c.edge_id e at in_range in
      let (_, total) = lower_both n degrees e.u e.v w size hu hv ne (ground arith) (ground arith) in
      let (f, at', u_eq, v_eq) =
        SameEnds-edge_at now es c.edge_id e (SameEnds-sym es now same) at in
      let drop = valence-deactivate_at now c.edge_id f w at' in
      let before = counts w lt in
      let same_loss : loss f w ≡ loss e w = rw (u_eq, v_eq) refl in omega arith

  pub select-Keeps :
      (degrees : List ℕ) (now : List Edge) (cs : List Candidate)
      → length degrees ≡ n
      → Counts n degrees now
      → SameEnds es now
      → Named es cs
      → Keeps degrees now cs
  unfolding select deactivate
  select-Keeps degrees now [] size counts same named =
      λ w lt. let bound = counts w lt in omega arith
  select-Keeps degrees now (c ∷ cs) size counts same ((e, at), named) =
      elim (Bool-cases (leb (get_or degrees e.u 0) 2 || leb (get_or degrees e.v 0) 2)) [
        | inl low ↦ λ w lt.
            rw (select_skip es degrees c cs e at low)
              (select-Keeps degrees now cs size counts same named w lt)
        | inr high ↦ select-Keeps_take degrees now c cs e size counts same at high (
            select-Keeps (lowered degrees e) (deactivate_at now c.edge_id) cs
              (length-lower (lower degrees e.u) e.v ∙ length-lower degrees e.u ∙ size)
              (Counts-lowered degrees now c e size counts same at high)
              (SameEnds-deactivate_at es now c.edge_id same) named)
      ]
