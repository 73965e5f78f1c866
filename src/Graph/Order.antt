-- ===== src/Graph/Order.antt =====
-- The edge order that GraphSnapshot::Load leaves behind (src/common/graph.cpp): it is canonical for
-- RebuildCsr, and it makes every row strictly ascending.
use cuda_edge_elimination.Base.{
  ℕ, suc, ◌+◌, ◌-◌, ◌<◌, ◌≤◌, ◌≡◌, ◌≢◌, refl, ◌⊎◌, inl, inr, List, [], ◌∷◌, true, false, arith,
  ◌==◌, leb, if◌then◌else◌, Bool-cases, length,
}
use cuda_edge_elimination.Types.{Edge}
use cuda_edge_elimination.Graph.{Slot, canonical_sorted, all_ordered, is_sorted}
use cuda_edge_elimination.Graph.Offsets.{edge_slots, incident, InRange}

abbrev pub Before : Edge → Edge → Type 0
Before e f = (e.u < f.u) ⊎ ((e.u ≡ f.u) × (e.v < f.v))

abbrev pub BeforeAll : Edge → List Edge → Type 0
BeforeAll e [] = Unit {0}
BeforeAll e (f ∷ fs) = Before e f × BeforeAll e fs

-- Edges with u < v, strictly ascending in (u, v): sorted, and without duplicates.
abbrev pub SortedEdges : List Edge → Type 0
SortedEdges [] = Unit {0}
SortedEdges (e ∷ es) = (e.u < e.v) × BeforeAll e es × SortedEdges es

SortedEdges-all_ordered : (es : List Edge) → SortedEdges es → all_ordered es ≡ true
unfolding all_ordered
SortedEdges-all_ordered [] h = refl
SortedEdges-all_ordered (e ∷ es) (lt, _, h) = ground (arith, SortedEdges-all_ordered es h)

SortedEdges-is_sorted : (es : List Edge) → SortedEdges es → is_sorted es ≡ true
unfolding is_sorted
SortedEdges-is_sorted [] h = refl
SortedEdges-is_sorted (a ∷ []) h = refl
SortedEdges-is_sorted (a ∷ b ∷ es) (lt, (first, _), h) =
    let rest = SortedEdges-is_sorted (b ∷ es) h in ground arith

pub SortedEdges-canonical_sorted : (es : List Edge) → SortedEdges es → canonical_sorted es ≡ true
unfolding canonical_sorted
SortedEdges-canonical_sorted es h =
    ground (arith, SortedEdges-all_ordered es h, SortedEdges-is_sorted es h)

-- Strictly ascending neighbours from `lo` on, below `n` and other than `w`.
abbrev pub Within : ℕ → ℕ → ℕ → List Slot → Type 0
Within lo n w [] = Unit {0}
Within lo n w (s ∷ slots) =
    (lo ≤ s.neighbor) × (s.neighbor < n) × (s.neighbor ≢ w) × Within (suc s.neighbor) n w slots

-- Every neighbour that these edges give `w` is at least `lo`.
abbrev Clear : ℕ → ℕ → List Edge → Type 0
Clear lo w [] = Unit {0}
Clear lo w (e ∷ es) = (e.u ≡ w → lo ≤ e.v) × (e.v ≡ w → lo ≤ e.u) × Clear lo w es

Clear-zero : (w : ℕ) (es : List Edge) → Clear 0 w es
Clear-zero w [] = tt
Clear-zero w (e ∷ es) = (λ _. omega arith, λ _. omega arith, Clear-zero w es)

Clear-after_u :
    (w : ℕ) (e : Edge) (es : List Edge)
    → e.u ≡ w
    → e.u < e.v
    → BeforeAll e es
    → SortedEdges es
    → Clear (suc e.v) w es
Clear-after_u w e [] at lt h s = tt
Clear-after_u w e (f ∷ fs) at lt (first, h) (lt', _, s) =
    (λ fu. omega arith, λ fv. omega arith, Clear-after_u w e fs at lt h s)

Clear-after_v :
    (w : ℕ) (e : Edge) (es : List Edge)
    → e.v ≡ w
    → e.u < e.v
    → BeforeAll e es
    → SortedEdges es
    → Clear (suc e.u) w es
Clear-after_v w e [] at lt h s = tt
Clear-after_v w e (f ∷ fs) at lt (first, h) (lt', _, s) =
    (λ fu. omega arith, λ fv. omega arith, Clear-after_v w e fs at lt h s)

incident-Within_from :
    (lo n w id : ℕ) (es : List Edge)
    → SortedEdges es
    → InRange n es
    → Clear lo w es
    → Within lo n w (incident id es w)
unfolding incident edge_slots
incident-Within_from lo n w id [] s r c = tt
incident-Within_from lo n w id (e ∷ es) (lt, before, s) (hu, hv, _, r) (cu, cv, c) =
    let skip = incident-Within_from lo n w (suc id) es s r c in
    elim (Bool-cases e.active) [
      | inr off ↦ rw off skip
      | inl on ↦ elim (Bool-cases (e.u == w)) [
        | inl at_u ↦
            let at : e.u ≡ w = ground arith in
            let not_v : (e.v == w) ≡ false = ground arith in
            rw (on, at_u, not_v)
              (
                cu at,
                hv,
                omega arith,
                incident-Within_from (suc e.v) n w (suc id) es s r
                    (Clear-after_u w e es at lt before s),
              )
        | inr not_u ↦ elim (Bool-cases (e.v == w)) [
          | inl at_v ↦
              let at : e.v ≡ w = ground arith in
              rw (on, not_u, at_v)
                (
                  cv at,
                  hu,
                  omega arith,
                  incident-Within_from (suc e.u) n w (suc id) es s r
                      (Clear-after_v w e es at lt before s),
                )
          | inr not_v ↦ rw (on, not_u, not_v) skip
        ]
      ]
    ]

-- The row that a vertex is due is strictly ascending and stays below the dimension.
pub incident-Within :
    (n w id : ℕ) (es : List Edge) → SortedEdges es → InRange n es → Within 0 n w (incident id es w)
incident-Within n w id es s r = incident-Within_from 0 n w id es s r (Clear-zero w es)

length-Within_from :
    (lo n w : ℕ) (slots : List Slot)
    → w < n
    → lo ≤ n
    → Within lo n w slots
    → length slots + (if leb lo w then 1 else 0) ≤ n - lo
length-Within_from lo n w [] lt le h = ground arith
length-Within_from lo n w (s ∷ slots) lt le (from, below, other, h) =
    let rest = length-Within_from (suc s.neighbor) n w slots lt below h in ground arith

-- A vertex has fewer neighbours than the graph has vertices.
pub length-Within : (n w : ℕ) (slots : List Slot) → w < n → Within 0 n w slots → length slots < n
length-Within n w slots lt h =
    let bound = length-Within_from 0 n w slots lt (omega arith) h in ground arith
