-- ===== src/Protection/Walked.antt =====
-- CheckProtectedTour (src/common/tour.cpp) against the cost and the edges of the specification.
use cuda_edge_elimination.Base.{
  ℕ, ◌+◌, ◌<◌, ◌≡◌, sym, ◌∙◌, inl, inr, List, [], ◌∷◌, ◌++◌, true, arith, Bool-cases, subst, ltb,
  ℕ_discrete, ◌⊎◌, if◌then◌else◌,
}
use cuda_edge_elimination.Base.Outcome.{ok, Outcome-cases}
use cuda_edge_elimination.Distance.{FloatOps}
use cuda_edge_elimination.Graph.{GraphSnapshot, distance, has_active_edge}
use cuda_edge_elimination.Graph.Rows.{IsWellFormed}
use cuda_edge_elimination.Graph.Metric.{metric, metric_of}
use cuda_edge_elimination.Graph.Edges.{Adjacent, Adjacent-comm}
use cuda_edge_elimination.Graph.Membership.{has_active_edge_iff}
use cuda_edge_elimination.Tours.{path_cost, tour_cost, AlongPath, Along}
use cuda_edge_elimination.Protection.{
  Walk, ProtectedTourCheck, minmax, visit, walk, walk_start, check_protected_tour,
}

distance-below :
    (fp : FloatOps) (g : GraphSnapshot) (u v d : ℕ)
    → distance fp g u v ≡ ok d
    → (u < g.dimension) × (v < g.dimension)
unfolding distance
distance-below fp g u v d h = ground arith

module _ (fp : FloatOps) (g : GraphSnapshot) (wf : IsWellFormed g) where
  -- One step adds the distance, and leaves the count alone only if the edge is active.
  Stepped : Walk → ℕ → ℕ → Walk → Type 0
  Stepped w from to w' =
      (w'.cost ≡ w.cost + metric fp g from to)
      × (w'.missing_edges ≡ 0 → (w.missing_edges ≡ 0) × Adjacent g.edges from to)

  active_ends :
      (from to : ℕ)
      → from < g.dimension
      → to < g.dimension
      → has_active_edge g (minmax from to).low (minmax from to).high ≡ true
      → Adjacent g.edges from to
  active_ends from to hu hv h = elim (Bool-cases (ltb to from)) [
    | inl turned ↦
        let found : has_active_edge g to from ≡ true = ground arith in
        Adjacent-comm g.edges to from ((has_active_edge_iff g to from wf hv hu).0 found)
    | inr straight ↦
        let found : has_active_edge g from to ≡ true = ground arith in
        (has_active_edge_iff g from to wf hu hv).0 found
  ]

  visit-Stepped :
      (w : Walk) (from to : ℕ) (w' : Walk) → visit fp g w from to ≡ ok w' → Stepped w from to w'
  unfolding visit Stepped
  visit-Stepped w from to w' h = elim (Outcome-cases (distance fp g from to)) [
    | inr (x, bad) ↦ absurd (ground arith)
    | inl (d, d_eq) ↦
        let (hu, hv) = distance-below fp g from to d d_eq in
        let m = metric_of fp g from to d d_eq in
        let cost : w'.cost ≡ w.cost + d = ground arith in
        let count : w'.missing_edges
            ≡ w.missing_edges
              + (if has_active_edge g (minmax from to).low (minmax from to).high then 0 else 1) =
          ground arith in
        (omega arith, λ none. (omega arith, active_ends from to hu hv (ground arith)))
  ]

  Walked : ℕ → List ℕ → Walk → Walk → Type 0
  Walked first l w w' =
      (w'.cost ≡ w.cost + path_cost (metric fp g) (l ++ first ∷ []))
      × (w'.missing_edges ≡ 0
          → (w.missing_edges ≡ 0) × AlongPath (Adjacent g.edges) (l ++ first ∷ []))

  walk-Walked :
      (first : ℕ) (l : List ℕ) (w w' : Walk) → walk fp g first l w ≡ ok w' → Walked first l w w'
  unfolding walk Walked Stepped
  walk-Walked first [] w w' h =
      let same : w ≡ w' = cc in
      subst (λ z. (z.cost ≡ w.cost + 0) × (z.missing_edges ≡ 0 → (w.missing_edges ≡ 0) × Unit {0}))
        same (omega arith, λ none. (none, tt))
  walk-Walked first (x ∷ []) w w' h =
      let (cost, count) = visit-Stepped w x first w' h in
      (omega arith, λ none. let (before, next) = count none in (before, (next, tt)))
  walk-Walked first (x ∷ y ∷ rest) w w' h = elim (Outcome-cases (visit fp g w x y)) [
    | inr (e, bad) ↦ absurd (ground arith)
    | inl (w'', done) ↦
        let (cost, count) = visit-Stepped w x y w'' done in
        let (cost', count') = walk-Walked first (y ∷ rest) w'' w' (ground arith) in
        (
          omega arith,
          λ none.
              let (before, later) = count' none in
              let (start, next) = count before in (start, (next, later)),
        )
  ]

-- When CheckProtectedTour returns on a consistent snapshot, its cost is that of the tour in the
-- metric of the snapshot, and if it reports no missing edge every step of the tour is an active edge.
pub check_protected_tour_lem :
    (fp : FloatOps) (g : GraphSnapshot) (tour : List ℕ) (result : ProtectedTourCheck)
    → IsWellFormed g
    → check_protected_tour fp g tour ≡ ok result
    → (result.cost ≡ tour_cost (metric fp g) tour)
      × ((¬ (result.missing_edges ≡ 0)) ⊎ Along (Adjacent g.edges) tour)
unfolding check_protected_tour Walked
check_protected_tour_lem fp g [] result wf h = absurd (ground arith)
check_protected_tour_lem fp g (x ∷ rest) result wf h =
    elim (Outcome-cases (walk fp g x (x ∷ rest) (walk_start fp g))) [
      | inr (e, bad) ↦ absurd (ground arith)
      | inl (w, done) ↦
          let (cost, count) = walk-Walked fp g wf x (x ∷ rest) (walk_start fp g) w done in
          let same_cost : result.cost ≡ w.cost = ground arith in
          let same_count : result.missing_edges ≡ w.missing_edges = ground arith in
          (
            omega arith,
            elim (ℕ_discrete result.missing_edges 0) [
              | yes none ↦ inr (count (sym same_count ∙ none)).1
              | no some ↦ inl some
            ],
          )
    ]
