-- ===== src/Jv/Witness.antt =====
-- IsJvWitness (src/cpu/jv_elimination.cpp) against the gains of 2-exchanges.
use cuda_edge_elimination.Base.{
  ℕ, ◌+◌, ◌<◌, ◌≡◌, ◌≢◌, refl, sym, ◌∙◌, ◌⊎◌, ◌↔◌, inl, inr, List, [], ◌∷◌, true, arith, subst,
  ℕ_discrete,
}
use cuda_edge_elimination.Base.Int.{pos}
use cuda_edge_elimination.Base.Outcome.{ok, Outcome-cases}
use cuda_edge_elimination.Types.{Edge}
use cuda_edge_elimination.Distance.{FloatOps}
use cuda_edge_elimination.Graph.{GraphSnapshot, Slot, distance, row}
use cuda_edge_elimination.Graph.Metric.{metric, metric_of}
use cuda_edge_elimination.Graph.Edges.{HasSlot}
use cuda_edge_elimination.Jv.{incompatible, all_incompatible, witness_at, is_jv_witness}

module _ (fp : FloatOps) (g : GraphSnapshot) where
  -- Both exchanges with the neighbour `w`, to which the stored weight is `x`, gain.
  abbrev pub SlotGains : Edge → ℕ → ℕ → ℕ → ℕ → Type 0
  SlotGains edge cac cbc w x =
      (cac + metric fp g w edge.v < edge.weight + x)
      × (metric fp g edge.u w + cbc < edge.weight + x)

  incompatible-true :
      (edge : Edge) (cac cbc : ℕ) (s : Slot)
      → incompatible fp g edge cac cbc s ≡ ok true
      → s.neighbor ≢ edge.u
      → s.neighbor ≢ edge.v
      → SlotGains edge cac cbc s.neighbor s.weight
  unfolding incompatible
  incompatible-true edge cac cbc s h nu nv =
      elim (Outcome-cases (distance fp g s.neighbor edge.v)) [
        | inr (e, bad) ↦ ground arith
        | inl (dv, dv_eq) ↦ elim (Outcome-cases (distance fp g edge.u s.neighbor)) [
          | inr (e, bad) ↦ ground arith
          | inl (ud, ud_eq) ↦
              let m = metric_of fp g s.neighbor edge.v dv dv_eq in
              let m' = metric_of fp g edge.u s.neighbor ud ud_eq in ground arith
        ]
      ]

  all_incompatible_cons :
      (edge : Edge) (cac cbc : ℕ) (s : Slot) (slots : List Slot)
      → all_incompatible fp g edge cac cbc (s ∷ slots) ≡ ok true
      → (incompatible fp g edge cac cbc s ≡ ok true)
        × (all_incompatible fp g edge cac cbc slots ≡ ok true)
  unfolding all_incompatible
  all_incompatible_cons edge cac cbc s slots h = ground arith

  -- Every neighbour other than the ends of the edge gains.
  abbrev pub AllGain : Edge → ℕ → ℕ → List Slot → Type 0
  AllGain edge cac cbc [] = Unit {0}
  AllGain edge cac cbc (s ∷ slots) =
      ((s.neighbor ≡ edge.u) ⊎ (s.neighbor ≡ edge.v) ⊎ SlotGains edge cac cbc s.neighbor s.weight)
      × AllGain edge cac cbc slots

  all_incompatible-AllGain :
      (edge : Edge) (cac cbc : ℕ) (slots : List Slot)
      → all_incompatible fp g edge cac cbc slots ≡ ok true
      → AllGain edge cac cbc slots
  all_incompatible-AllGain edge cac cbc [] h = tt
  all_incompatible-AllGain edge cac cbc (s ∷ slots) h =
      let (now, later) = all_incompatible_cons edge cac cbc s slots h in
      (
        elim (ℕ_discrete s.neighbor edge.u) [
          | yes is_u ↦ inl is_u
          | no not_u ↦ elim (ℕ_discrete s.neighbor edge.v) [
            | yes is_v ↦ inr (inl is_v)
            | no not_v ↦ inr (inr (incompatible-true edge cac cbc s now not_u not_v))
          ]
        ],
        all_incompatible-AllGain edge cac cbc slots later,
      )

  pub AllGain-HasSlot :
      (edge : Edge) (cac cbc : ℕ) (slots : List Slot) (w x : ℕ)
      → AllGain edge cac cbc slots
      → HasSlot slots w x
      → w ≢ edge.u
      → w ≢ edge.v
      → SlotGains edge cac cbc w x
  AllGain-HasSlot edge cac cbc [] w x h has nu nv = elim has [ ]
  AllGain-HasSlot edge cac cbc (s ∷ slots) w x (first, rest) (inl (e, e')) nu nv = elim first [
    | inl is_u ↦ absurd (nu (sym e ∙ is_u))
    | inr (inl is_v) ↦ absurd (nv (sym e ∙ is_v))
    | inr (inr gains) ↦
        subst (λ y. SlotGains edge cac cbc y x) e
          (subst (SlotGains edge cac cbc s.neighbor) e' gains)
  ]
  AllGain-HasSlot edge cac cbc (s ∷ slots) w x (first, rest) (inr has) nu nv =
      AllGain-HasSlot edge cac cbc slots w x rest has nu nv

  -- Distance returns a value for every two vertices.
  abbrev pub Total : Type 0
  Total = (u v : ℕ) → u < g.dimension → v < g.dimension → (d : ℕ) × (distance fp g u v ≡ ok d)

  abbrev pub NeighborsBelow : List Slot → Type 0
  NeighborsBelow [] = Unit {0}
  NeighborsBelow (s ∷ slots) = (s.neighbor < g.dimension) × NeighborsBelow slots

  incompatible_gains :
      (edge : Edge) (cac cbc : ℕ) (s : Slot) (dv ud : ℕ)
      → distance fp g s.neighbor edge.v ≡ ok dv
      → distance fp g edge.u s.neighbor ≡ ok ud
      → (s.neighbor ≡ edge.u) ⊎ (s.neighbor ≡ edge.v) ⊎ SlotGains edge cac cbc s.neighbor s.weight
      → incompatible fp g edge cac cbc s ≡ ok true
  unfolding incompatible
  incompatible_gains edge cac cbc s dv ud dv_eq ud_eq h =
      let m = metric_of fp g s.neighbor edge.v dv dv_eq in
      let m' = metric_of fp g edge.u s.neighbor ud ud_eq in ground arith

  AllGain-all_incompatible :
      Total
      → (edge : Edge) (cac cbc : ℕ) (slots : List Slot) → edge.u < g.dimension
      → edge.v < g.dimension
      → NeighborsBelow slots
      → AllGain edge cac cbc slots
      → all_incompatible fp g edge cac cbc slots ≡ ok true
  unfolding all_incompatible
  AllGain-all_incompatible total edge cac cbc [] hu hv below h = refl
  AllGain-all_incompatible total edge cac cbc (s ∷ slots) hu hv (lt, below) (first, rest) =
      let (dv, dv_eq) = total s.neighbor edge.v lt hv in
      let (ud, ud_eq) = total edge.u s.neighbor hu lt in
      rw (
        incompatible_gains edge cac cbc s dv ud dv_eq ud_eq first,
        AllGain-all_incompatible total edge cac cbc slots hu hv below rest,
      )

  -- What the verifier's loop establishes of an accepted witness.
  pub record IsWitness (edge : Edge) (c : ℕ) : Type 0 where
    pub below : c < g.dimension
    pub not_u : c ≢ edge.u
    pub not_v : c ≢ edge.v
    pub gains : AllGain edge (metric fp g edge.u c) (metric fp g edge.v c) (row g c)

  -- The guard and the distances to the ends, of an accepted witness.
  witness_at_parts :
      (edge : Edge) (c : ℕ)
      → witness_at fp g edge c ≡ ok true
      → (c < g.dimension)
        × (c ≢ edge.u)
        × (c ≢ edge.v)
        × (all_incompatible fp g edge (metric fp g edge.u c) (metric fp g edge.v c) (row g c)
            ≡ ok true)
  unfolding witness_at
  witness_at_parts edge c h = elim (Outcome-cases (distance fp g edge.u c)) [
    | inr (e, bad) ↦ ground arith
    | inl (cac, cac_eq) ↦ elim (Outcome-cases (distance fp g edge.v c)) [
      | inr (e, bad) ↦ ground arith
      | inl (cbc, cbc_eq) ↦
          let m = metric_of fp g edge.u c cac cac_eq in
          let m' = metric_of fp g edge.v c cbc cbc_eq in
          (ground arith, ground arith, ground arith, rw (m, m') (ground arith))
    ]
  ]

  pub witness_at-IsWitness :
      (edge : Edge) (c : ℕ) → witness_at fp g edge c ≡ ok true → IsWitness edge c
  witness_at-IsWitness edge c h =
      let (below, not_u, not_v, all) = witness_at_parts edge c h in
      record {
        below = below;
        not_u = not_u;
        not_v = not_v;
        gains = all_incompatible-AllGain edge _ _ (row g c) all;
      }

  IsWitness-witness_at :
      Total
      → (edge : Edge) (c : ℕ) → edge.u < g.dimension
      → edge.v < g.dimension
      → NeighborsBelow (row g c)
      → IsWitness edge c
      → witness_at fp g edge c ≡ ok true
  unfolding witness_at
  IsWitness-witness_at total edge c hu hv below w =
      let (cac, cac_eq) = total edge.u c hu w.below in
      let (cbc, cbc_eq) = total edge.v c hv w.below in
      let m = metric_of fp g edge.u c cac cac_eq in
      let m' = metric_of fp g edge.v c cbc cbc_eq in
      let gains = rw (m, m') at w.gains in
      let all = AllGain-all_incompatible total edge cac cbc (row g c) hu hv below gains in
      let not_u = w.not_u in let not_v = w.not_v in let lt = w.below in ground arith

  -- IsJvWitness accepts the vertex c for an edge exactly when c is a vertex other than the edge's
  -- ends and, for every neighbour w of c in its compressed row other than the ends, both 2-exchanges
  -- of the edge with {c, w} gain. It asks that no distance throws, that the edge's ends are vertices,
  -- and that the row of c names vertices only.
  pub is_jv_witness_iff :
      (edge : Edge) (c : ℕ)
      → Total
      → edge.u < g.dimension
      → edge.v < g.dimension
      → NeighborsBelow (row g c)
      → (is_jv_witness fp g edge (pos c) ≡ ok true) ↔ IsWitness edge c
  unfolding is_jv_witness
  is_jv_witness_iff edge c total hu hv below =
      (λ h. witness_at-IsWitness edge c h, λ w. IsWitness-witness_at total edge c hu hv below w)
