-- ===== src/Graph/Offsets.antt =====
-- The counting and prefix-sum loops of RebuildCsr (src/common/graph.cpp), against the slots that a
-- vertex is due: row_offsets delimits exactly that many.
use cuda_edge_elimination.Base.{
  ℕ, zero, suc, ◌+◌, ◌≤◌, ◌<◌, ◌≡◌, ◌≢◌, refl, ap, ◌∙◌, List, [], ◌∷◌, ◌++◌, ◌==◌, if◌then◌else◌,
  get_or, length, length-set, length-append, length-replicate, replicate, get_or-set_self,
  get_or-set_ne, get_or-replicate, arith,
}
use native.Mathlib.Nat.{add-zero}
use cuda_edge_elimination.Types.{Edge}
use cuda_edge_elimination.Graph.{Slot, bump, count_degrees, prefix_sums, offsets_of}

-- The slots that an edge contributes to the row of `w`, and those of all edges, in edge order.
unfoldable pub edge_slots : ℕ → Edge → ℕ → List Slot
edge_slots id e w =
    if e.active
    then (if e.u == w then record { neighbor = e.v; edge_id = id; weight = e.weight } ∷ [] else [])
      ++ (if e.v == w then record { neighbor = e.u; edge_id = id; weight = e.weight } ∷ [] else [])
    else []

unfoldable pub incident : ℕ → List Edge → ℕ → List Slot
incident id [] w = []
incident id (e ∷ es) w = edge_slots id e w ++ incident (suc id) es w

-- Every edge joins two different vertices of the graph.
abbrev pub InRange : ℕ → List Edge → Type 0
InRange n [] = Unit {0}
InRange n (e ∷ es) = (e.u < n) × (e.v < n) × (e.u ≢ e.v) × InRange n es

length-bump : (xs : List ℕ) (i : ℕ) → length (bump xs i) ≡ length xs
unfolding bump
length-bump xs i = length-set xs i (get_or xs i 0 + 1)

get_or-bump :
    (xs : List ℕ) (i j : ℕ)
    → i < length xs
    → get_or (bump xs i) j 0 ≡ get_or xs j 0 + (if i == j then 1 else 0)
unfolding bump
get_or-bump xs i j h =
    ground (
      arith,
      get_or-set_self xs i (get_or xs i 0 + 1) 0,
      get_or-set_ne xs i j (get_or xs i 0 + 1) 0,
    )

abbrev count_edge : List ℕ → Edge → List ℕ
count_edge offsets e = if e.active then bump (bump offsets (e.u + 1)) (e.v + 1) else offsets

length-count_edge : (offsets : List ℕ) (e : Edge) → length (count_edge offsets e) ≡ length offsets
length-count_edge offsets e =
    ground (arith, length-bump offsets (e.u + 1), length-bump (bump offsets (e.u + 1)) (e.v + 1))

pub length-edge_slots :
    (id : ℕ) (e : Edge) (w : ℕ)
    → length (edge_slots id e w)
      ≡ (if e.active then (if e.u == w then 1 else 0) + (if e.v == w then 1 else 0) else 0)
unfolding edge_slots
length-edge_slots id e w = ground arith

get_or-count_edge :
    (n id : ℕ) (offsets : List ℕ) (e : Edge) (w : ℕ)
    → length offsets ≡ suc n
    → e.u < n
    → e.v < n
    → get_or (count_edge offsets e) (suc w) 0
      ≡ get_or offsets (suc w) 0 + length (edge_slots id e w)
get_or-count_edge n id offsets e w size hu hv = rw (length-edge_slots id e w) (
    ground (
      arith,
      length-bump offsets (e.u + 1),
      get_or-bump offsets (e.u + 1) (suc w),
      get_or-bump (bump offsets (e.u + 1)) (e.v + 1) (suc w),
    ))

get_or-count_degrees :
    (n id : ℕ) (offsets : List ℕ) (es : List Edge) (w : ℕ)
    → length offsets ≡ suc n
    → InRange n es
    → get_or (count_degrees offsets es) (suc w) 0
      ≡ get_or offsets (suc w) 0 + length (incident id es w)
unfolding count_degrees incident
get_or-count_degrees n id offsets [] w size h = omega arith
get_or-count_degrees n id offsets (e ∷ es) w size (hu, hv, _, h) =
    let now = get_or-count_edge n id offsets e w size hu hv in
    let rest =
      get_or-count_degrees n (suc id) (count_edge offsets e) es w
        (length-count_edge offsets e ∙ size) h in
    omega (arith, length-append (edge_slots id e w) (incident (suc id) es w))

length-count_degrees :
    (offsets : List ℕ) (es : List Edge) → length (count_degrees offsets es) ≡ length offsets
unfolding count_degrees
length-count_degrees offsets [] = refl
length-count_degrees offsets (e ∷ es) =
    length-count_degrees (count_edge offsets e) es ∙ length-count_edge offsets e

length-prefix_sums : (before : ℕ) (xs : List ℕ) → length (prefix_sums before xs) ≡ length xs
unfolding prefix_sums
length-prefix_sums before [] = refl
length-prefix_sums before (x ∷ xs) = ap suc (length-prefix_sums (before + x) xs)

get_or-prefix_sums :
    (before : ℕ) (xs : List ℕ) (i : ℕ)
    → suc i < length xs
    → get_or (prefix_sums before xs) (suc i) 0
      ≡ get_or (prefix_sums before xs) i 0 + get_or xs (suc i) 0
unfolding prefix_sums
get_or-prefix_sums before [] i h = absurd (omega arith)
get_or-prefix_sums before (x ∷ []) i h = absurd (omega arith)
get_or-prefix_sums before (x ∷ y ∷ xs) zero h = refl
get_or-prefix_sums before (x ∷ y ∷ xs) (suc i) h =
    get_or-prefix_sums (before + x) (y ∷ xs) i (omega arith)

pub length-offsets_of : (n : ℕ) (es : List Edge) → length (offsets_of n es) ≡ suc n
unfolding offsets_of
length-offsets_of n es =
    length-prefix_sums 0 (count_degrees (replicate (suc n) 0) es)
    ∙ length-count_degrees (replicate (suc n) 0) es
    ∙ length-replicate (suc n) 0

module _ (n : ℕ) (es : List Edge) (h : InRange n es) where
  abbrev pub offset : ℕ → ℕ
  offset w = get_or (offsets_of n es) w 0

  -- A row is as long as the list of slots that its vertex is due.
  pub offset_next : (w : ℕ) → w < n → offset (suc w) ≡ offset w + length (incident 0 es w)
  unfolding offsets_of
  offset_next w lt =
      let zeros : List ℕ = replicate (suc n) 0 in
      let size : length zeros ≡ suc n = length-replicate (suc n) 0 in
      let blank : get_or zeros (suc w) 0 ≡ 0 = get_or-replicate (suc n) (suc w) 0 in
      let next =
        get_or-prefix_sums 0 (count_degrees zeros es) w
          (omega (arith, length-count_degrees zeros es)) in
      let due = get_or-count_degrees n 0 zeros es w size h in omega arith

  pub offset_mono : (k w : ℕ) → w + k ≤ n → offset w ≤ offset (w + k)
  offset_mono zero w le = rw (add-zero w) (omega arith)
  offset_mono (suc k) w le =
      let e : w + suc k ≡ suc (w + k) = omega arith in
      rw e (omega (arith, offset_next (w + k) (omega arith), offset_mono k w (omega arith)))
