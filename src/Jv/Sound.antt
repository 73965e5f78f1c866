-- ===== src/Jv/Sound.antt =====
-- VerifyJvCandidate (src/cpu/jv_elimination.cpp) and the tours of the active graph.
use cuda_edge_elimination.Base.{
  ℕ, zero, suc, ◌<◌, ◌≡◌, ◌≢◌, refl, sym, ◌∙◌, ◌⊎◌, inl, inr, List, [], ◌∷◌, true, arith, some,
  get_elem?, subst, length,
}
use cuda_edge_elimination.Base.Int.{ℤ, pos, negsuc}
use cuda_edge_elimination.Base.Outcome.{ok, Outcome-cases}
use cuda_edge_elimination.Types.{Edge, Candidate}
use cuda_edge_elimination.Distance.{FloatOps}
use cuda_edge_elimination.Distance.Rounding.{FloatLaws}
use cuda_edge_elimination.Graph.{GraphSnapshot, distance, degree}
use cuda_edge_elimination.Graph.Metric.{metric, metric_of, metric_comm, WeightsMatch}
use cuda_edge_elimination.Graph.Offsets.{InRange, incident}
use cuda_edge_elimination.Graph.Order.{incident-Within, length-Within}
use cuda_edge_elimination.Graph.Rows.{IsWellFormed}
use cuda_edge_elimination.Graph.Edges.{HasSlot, Adjacent, Adjacent-comm, incident-HasSlot}
use cuda_edge_elimination.Tours.{IsOptimal, Along, Uses}
use cuda_edge_elimination.Tours.Crossing.{not-Uses, Gains}
use cuda_edge_elimination.Jv.{
  edge_at, is_jv, eligible, verify_edge, verify_jv_candidate, is_jv_witness, degree_unless,
}
use cuda_edge_elimination.Jv.Witness.{IsWitness, witness_at-IsWitness, AllGain-HasSlot}

pub get_elem?-InRange :
    (n : ℕ) (es : List Edge) (i : ℕ) (e : Edge)
    → get_elem? es i ≡ some e
    → InRange n es
    → (e.u < n) × (e.v < n)
get_elem?-InRange n [] i e h r = absurd (cc)
get_elem?-InRange n (x ∷ es) zero e h (hu, hv, _, _) =
    let same : x ≡ e = cc in subst (λ y. (y.u < n) × (y.v < n)) same (hu, hv)
get_elem?-InRange n (x ∷ es) (suc i) e h (_, _, _, r) = get_elem?-InRange n es i e h r

module _ (fp : FloatOps) (g : GraphSnapshot) where
  get_elem?-WeightsMatch :
      (es : List Edge) (i : ℕ) (e : Edge)
      → get_elem? es i ≡ some e
      → WeightsMatch fp g es
      → distance fp g e.u e.v ≡ ok e.weight
  get_elem?-WeightsMatch [] i e h w = absurd (cc)
  get_elem?-WeightsMatch (x ∷ es) zero e h (d, _) =
      let same : x ≡ e = cc in subst (λ y. distance fp g y.u y.v ≡ ok y.weight) same d
  get_elem?-WeightsMatch (x ∷ es) (suc i) e h (_, w) = get_elem?-WeightsMatch es i e h w

  -- An eligible edge is active, and its first end has at least three active edges.
  eligible-true :
      (edge : Edge)
      → eligible fp g edge ≡ ok true
      → (edge.active ≡ true) × (du : ℕ) × (degree g edge.u ≡ ok du) × (2 < du)
  unfolding eligible degree_unless
  eligible-true edge h = elim (Outcome-cases (degree g edge.u)) [
    | inr (e, bad) ↦ ground arith
    | inl (du, du_eq) ↦ (ground arith, du, du_eq, ground arith)
  ]

  IsWitness-pos :
      (edge : Edge) (witness : ℤ)
      → is_jv_witness fp g edge witness ≡ ok true
      → (c : ℕ) × (witness ≡ pos c) × IsWitness fp g edge c
  unfolding is_jv_witness
  IsWitness-pos edge (pos c) h = (c, refl, witness_at-IsWitness fp g edge c h)
  IsWitness-pos edge (negsuc c) h = absurd (cc)

  verify_edge-true :
      (edge : Edge) (witness : ℤ)
      → verify_edge fp g edge witness ≡ ok true
      → (eligible fp g edge ≡ ok true) × (is_jv_witness fp g edge witness ≡ ok true)
  unfolding verify_edge
  verify_edge-true edge witness h = ground arith

  verify_true :
      (candidate : Candidate) (edge : Edge)
      → edge_at g.edges candidate.edge_id ≡ some edge
      → verify_jv_candidate fp g candidate ≡ ok true
      → (is_jv candidate.method ≡ true) × (verify_edge fp g edge candidate.witness ≡ ok true)
  unfolding verify_jv_candidate
  verify_true candidate edge at h = ground arith

  edge_at-ends :
      (id : ℤ) (edge : Edge)
      → edge_at g.edges id ≡ some edge
      → IsWellFormed g
      → WeightsMatch fp g g.edges
      → (edge.u < g.dimension)
        × (edge.v < g.dimension)
        × (distance fp g edge.u edge.v ≡ ok edge.weight)
  edge_at-ends (pos i) edge at wf weights =
      let (hu, hv) = get_elem?-InRange g.dimension g.edges i edge at wf.in_range in
      (hu, hv, get_elem?-WeightsMatch g.edges i edge at weights)
  edge_at-ends (negsuc i) edge at wf weights = absurd (cc)

  -- Three active edges at one vertex need a graph of more than three vertices.
  eligible_large :
      (edge : Edge)
      → eligible fp g edge ≡ ok true
      → edge.u < g.dimension
      → IsWellFormed g
      → 3 < g.dimension
  eligible_large edge h hu wf =
      let (_, du, du_eq, three) = eligible-true edge h in
      let due = sym du_eq ∙ wf.degrees edge.u hu in
      let same : du ≡ length (incident 0 g.edges edge.u) = cc in
      let bound =
        length-Within g.dimension edge.u (incident 0 g.edges edge.u) hu
          (incident-Within g.dimension edge.u 0 g.edges wf.sorted wf.in_range) in
      omega arith

  module _ (laws : FloatLaws fp) (wf : IsWellFormed g) (weights : WeightsMatch fp g g.edges) where
    -- Every neighbour of an accepted witness gains in the sense of the exchange argument.
    witness-Gains :
        (edge : Edge) (c : ℕ)
        → IsWitness fp g edge c
        → distance fp g edge.u edge.v ≡ ok edge.weight
        → (w : ℕ) → Adjacent g.edges c w ⊎ Adjacent g.edges w c
        → w ≢ edge.u
        → w ≢ edge.v
        → Gains (metric fp g) edge.u edge.v c w
    witness-Gains edge c is d w adjacent nu nv =
        let next : Adjacent g.edges c w = elim adjacent [
          | inl h ↦ h
          | inr h ↦ Adjacent-comm g.edges w c h
        ] in
        let slot =
          subst (λ slots. HasSlot slots w (metric fp g c w)) (sym (wf.rows c is.below))
            (incident-HasSlot fp g laws 0 g.edges c w weights next) in
        let (first, second) =
          AllGain-HasSlot fp g edge _ _ _ w (metric fp g c w) is.gains slot nu nv in
        let cab = metric_of fp g edge.u edge.v edge.weight d in
        let turned = metric_comm fp g laws edge.v c in
        (omega arith, omega (arith, metric_comm fp g laws edge.v c))

    -- An edge that VerifyJvCandidate accepts is on no optimal tour. The snapshot is consistent, its
    -- stored weights are the distances, the operations on doubles satisfy FloatLaws, and the tour is
    -- optimal among all tours of the vertices and runs along active edges.
    pub verify_jv_candidate-not-Uses :
        (candidate : Candidate) (edge : Edge)
        → edge_at g.edges candidate.edge_id ≡ some edge
        → verify_jv_candidate fp g candidate ≡ ok true
        → (t : List ℕ) → IsOptimal (metric fp g) g.dimension t
        → Along (Adjacent g.edges) t
        → ¬ Uses t edge.u edge.v
    verify_jv_candidate-not-Uses candidate edge at h t optimal along =
        let (_, accepted) = verify_true candidate edge at h in
        let (fit, found) = verify_edge-true edge candidate.witness accepted in
        let (c, _, is) = IsWitness-pos edge candidate.witness found in
        let (hu, hv, d) = edge_at-ends candidate.edge_id edge at wf weights in
        not-Uses (metric fp g) (metric_comm fp g laws) (Adjacent g.edges) edge.u edge.v c
          g.dimension (witness-Gains edge c is d) (eligible_large edge fit hu wf) is.below is.not_u
          is.not_v t optimal along
