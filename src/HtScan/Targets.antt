-- ===== src/HtScan/Targets.antt =====
-- SelectHtTargetEdgeIds (src/cpu/ht_scan.cpp): what is selected, and in which order.
pub mod Order
use cuda_edge_elimination.Base.{
  ℕ, zero, suc, ◌+◌, ◌≡◌, ◌<◌, ◌↔◌, refl, inl, inr, ◌⊎◌, List, [], ◌∷◌, Bool, true, false, arith,
  Bool-cases, some, subst, get_elem?, ltb, ◌==◌, ◌||◌, ◌&&◌, ◌≢◌, sym,
}
use cuda_edge_elimination.Base.Outcome.{ok, Outcome-cases}
use cuda_edge_elimination.Types.{Edge}
use cuda_edge_elimination.Commit.{edge_or}
use cuda_edge_elimination.Graph.{GraphSnapshot, degree}
use cuda_edge_elimination.HtScan.{
  TargetOrder, canonical, weight_descending, is_target, collect_targets, target_less, insert_target,
  sort_targets, select_ht_target_edge_ids, degree_above_two,
}
use cuda_edge_elimination.HtScan.Targets.Order.{
  Lists, sort_targets-Lists, Ordered, Unrepeated, sort_targets-IsSorted, IsSorted-Ordered,
}

-- The edge is active and both of its ends have more than two active edges.
abbrev pub Eligible : GraphSnapshot → Edge → Type 0
Eligible g e =
    (e.active ≡ true)
    × ((du : ℕ) × (degree g e.u ≡ ok du) × (2 < du))
    × ((dv : ℕ) × (degree g e.v ≡ ok dv) × (2 < dv))

is_target-true : (g : GraphSnapshot) (e : Edge) → is_target g e ≡ ok true → Eligible g e
unfolding is_target degree_above_two
is_target-true g e h = elim (Bool-cases e.active) [
  | inr off ↦ absurd (ground arith)
  | inl on ↦ elim (Outcome-cases (degree g e.u)) [
    | inr (x, bad) ↦ absurd (ground arith)
    | inl (du, at_u) ↦ elim (Outcome-cases (degree g e.v)) [
      | inr (x, bad) ↦ absurd (ground arith)
      | inl (dv, at_v) ↦ (on, (du, at_u, ground arith), (dv, at_v, ground arith))
    ]
  ]
]

is_target_iff :
    (g : GraphSnapshot) (e : Edge) (b : Bool) → is_target g e ≡ ok b → (b ≡ true) ↔ Eligible g e
unfolding is_target degree_above_two
is_target_iff g e b h = (
  λ yes'. is_target-true g e (subst (λ x. is_target g e ≡ ok x) yes' h),
  λ (on, (du, at_u, two), (dv, at_v, two')). ground arith,
)

-- The ids from `id` on whose edge is eligible.
abbrev Picked : GraphSnapshot → ℕ → List Edge → ℕ → Type 0
Picked g id es i = (k : ℕ) × (e : Edge) × (i ≡ id + k) × (get_elem? es k ≡ some e) × Eligible g e

Picked-split :
    (g : GraphSnapshot) (id : ℕ) (e : Edge) (es : List Edge) (i : ℕ)
    → Picked g id (e ∷ es) i
    → ((id ≡ i) × Eligible g e) ⊎ Picked g (suc id) es i
Picked-split g id e es i (zero, e', at, there, fit) =
    let same : e' ≡ e = cc in inl (omega arith, subst (Eligible g) same fit)
Picked-split g id e es i (suc k, e', at, there, fit) = inr (k, e', omega arith, there, fit)

collect_targets-Lists :
    (g : GraphSnapshot) (id : ℕ) (es : List Edge) (out : List ℕ) (i : ℕ)
    → collect_targets g id es ≡ ok out
    → Lists out i ↔ Picked g id es i
unfolding collect_targets
collect_targets-Lists g id [] out i h =
    let same : [] ≡ out = cc in
    subst (λ o. Lists o i ↔ Picked g id [] i) same
      (λ m. absurd m, λ (k, e, at, none_there, _). absurd (ground arith))
collect_targets-Lists g id (e ∷ es) out i h = elim (Outcome-cases (is_target g e)) [
  | inr (x, bad) ↦ absurd (ground arith)
  | inl (wanted, is) ↦ elim (Outcome-cases (collect_targets g (suc id) es)) [
    | inr (x, bad) ↦ absurd (ground arith)
    | inl (rest, later) ↦
        let (f, back) = collect_targets-Lists g (suc id) es rest i later in
        let (good, bad) = is_target_iff g e wanted is in
        let out_of : Picked g (suc id) es i → Picked g id (e ∷ es) i =
          λ (k, e', at, there, fit). (suc k, e', omega arith, there, fit) in
        elim (Bool-cases wanted) [
          | inl take_it ↦
              let same : id ∷ rest ≡ out = ground arith in
              subst (λ o. Lists o i ↔ Picked g id (e ∷ es) i) same
                (
                  λ m. elim m [
                    | inl here ↦ (0, e, omega arith, refl, good take_it)
                    | inr there ↦ out_of (f there)
                  ],
                  λ p. elim (Picked-split g id e es i p) [
                    | inl (here, _) ↦ inl here
                    | inr there ↦ inr (back there)
                  ],
                )
          | inr leave ↦
              let same : rest ≡ out = ground arith in
              subst (λ o. Lists o i ↔ Picked g id (e ∷ es) i) same
                (
                  λ m. out_of (f m),
                  λ p. elim (Picked-split g id e es i p) [
                    | inl (_, fit) ↦ let yes' = bad fit in absurd (ground arith)
                    | inr there ↦ back there
                  ],
                )
        ]
  ]
]

collect_targets-Unrepeated :
    (order : TargetOrder) (es0 : List Edge) (g : GraphSnapshot) (id : ℕ) (es : List Edge)
    (out : List ℕ)
    → collect_targets g id es ≡ ok out
    → Unrepeated order es0 out
unfolding collect_targets
collect_targets-Unrepeated order es0 g id [] out h =
    let same : [] ≡ out = cc in subst (Unrepeated order es0) same tt
collect_targets-Unrepeated order es0 g id (e ∷ es) out h = elim (Outcome-cases (is_target g e)) [
  | inr (x, bad) ↦ absurd (ground arith)
  | inl (wanted, is) ↦ elim (Outcome-cases (collect_targets g (suc id) es)) [
    | inr (x, bad) ↦ absurd (ground arith)
    | inl (rest, later) ↦
        let tail = collect_targets-Unrepeated order es0 g (suc id) es rest later in
        let fresh : ¬ Lists rest id = λ m.
          let (k, _, at, _, _) = (collect_targets-Lists g (suc id) es rest id later).0 m in
          omega arith in
        elim (Bool-cases wanted) [
          | inl take_it ↦
              let same : id ∷ rest ≡ out = ground arith in
              subst (Unrepeated order es0) same (fresh, tail)
          | inr leave ↦
              let same : rest ≡ out = ground arith in subst (Unrepeated order es0) same tail
        ]
  ]
]

-- When SelectHtTargetEdgeIds returns, it has exactly the ids of the active edges both of whose ends
-- have more than two active edges, and each of them stands strictly before all those after it (so
-- that none occurs twice): by the ends and the id in canonical order, and in the other order by
-- falling weight, and by the ends and the id where weights agree.
pub select_ht_target_edge_ids_lem :
    (g : GraphSnapshot) (order : TargetOrder) (targets : List ℕ) (i : ℕ)
    → select_ht_target_edge_ids g order ≡ ok targets
    → Ordered order g.edges targets
      × (Lists targets i ↔ ((e : Edge) × (get_elem? g.edges i ≡ some e) × Eligible g e))
unfolding select_ht_target_edge_ids
select_ht_target_edge_ids_lem g order targets i h =
    elim (Outcome-cases (collect_targets g 0 g.edges)) [
      | inr (x, bad) ↦ absurd (ground arith)
      | inl (found, collected) ↦
          let same : sort_targets order g.edges found ≡ targets = ground arith in
          let (f, back) = sort_targets-Lists order g.edges found i in
          let (f', back') = collect_targets-Lists g 0 g.edges found i collected in
          let once = collect_targets-Unrepeated order g.edges g 0 g.edges found collected in
          subst
            (λ l.
              Ordered order g.edges l
              × (Lists l i ↔ ((e : Edge) × (get_elem? g.edges i ≡ some e) × Eligible g e)))
            same
            (
              IsSorted-Ordered order g.edges (sort_targets order g.edges found)
                  (sort_targets-IsSorted order g.edges found once),
              (
                λ m.
                    let (k, e, at, there, fit) = f' (f m) in
                    let k_eq : k ≡ i = omega arith in
                    (e, subst (λ j. get_elem? g.edges j ≡ some e) k_eq there, fit),
                λ (e, there, fit). back (back' (i, e, omega arith, there, fit)),
              ),
            )
    ]
