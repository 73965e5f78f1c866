-- ===== src/Paths/Normalize/Disjoint.antt =====
-- NormalizePathSystem (src/cpu/path_system.cpp): the nodes of its chains.
use cuda_edge_elimination.Base.{
  ℕ, zero, suc, ◌+◌, ◌≤◌, ◌≡◌, ◌⊎◌, inl, inr, refl, ap, ◌∙◌, arith, List, [], ◌∷◌, ◌++◌, Bool, true,
  false, Bool-cases, not, ◌||◌, ◌==◌, if◌then◌else◌, length, get_or, set, replicate, Option, none,
  some, subst, ℕ_discrete, get_or-set_ne,
}
use cuda_edge_elimination.Base.Int.{ℤ}
use cuda_edge_elimination.Paths.Normalize.{
  Attempt, good, rejected, exhausted, Rejection, NormalizedPathSystem, add_paths, pick_next,
  follow_chain, collect_chains, has_unvisited, path_less, insert_path, sort_paths, normalize_nodes,
  normalize_path_system, reconstructed_edges, positive_nodes, invalid_path_system, no_nodes,
  empty_system,
}

-- How often a node is in a path, and in some paths.
abbrev pub occurrences : ℕ → List ℕ → ℕ
occurrences x [] = 0
occurrences x (y ∷ ys) = (if y == x then 1 else 0) + occurrences x ys

abbrev pub occurrences_in : ℕ → List (List ℕ) → ℕ
occurrences_in x [] = 0
occurrences_in x (p ∷ ps) = occurrences x p + occurrences_in x ps

abbrev bit : Bool → ℕ
bit b = if b then 1 else 0

abbrev mark : List Bool → ℕ → ℕ
mark visited x = bit (get_or visited x false)

occurrences-append :
    (x y : ℕ) (xs : List ℕ)
    → occurrences x (xs ++ y ∷ []) ≡ occurrences x xs + (if y == x then 1 else 0)
occurrences-append x y [] = omega arith
occurrences-append x y (z ∷ zs) = let later = occurrences-append x y zs in omega arith

occurrences_in-append :
    (x : ℕ) (p : List ℕ) (ps : List (List ℕ))
    → occurrences_in x (ps ++ p ∷ []) ≡ occurrences_in x ps + occurrences x p
occurrences_in-append x p [] = omega arith
occurrences_in-append x p (q ∷ qs) = let later = occurrences_in-append x p qs in omega arith

mark-fresh :
    (visited : List Bool) (i : ℕ)
    → get_or visited i true ≡ false
    → (mark visited i ≡ 0) × (mark (set visited i true) i ≡ 1)
mark-fresh [] i h = absurd (ground arith)
mark-fresh (b ∷ bs) zero h = (ground arith, refl)
mark-fresh (b ∷ bs) (suc i) h = mark-fresh bs i h

-- Marking a fresh node pays for one more occurrence of it.
mark-step :
    (visited : List Bool) (current : ℕ) (merged : List ℕ) (extra : ℕ → ℕ)
    → get_or visited current true ≡ false
    → ((x : ℕ) → occurrences x merged + extra x ≤ mark visited x)
    → (x : ℕ) → occurrences x (merged ++ current ∷ []) + extra x ≤ mark (set visited current true) x
mark-step visited current merged extra fresh h x =
    let (none_yet, now) = mark-fresh visited current fresh in
    let split = occurrences-append x current merged in
    let before = h x in
    elim (ℕ_discrete current x) [
      | yes same ↦
          let here = h current in
          let e = ap (λ y. occurrences y merged + extra y) same in
          let m = ap (mark (set visited current true)) same in ground arith
      | no other ↦
          let keep : mark (set visited current true) x ≡ mark visited x =
            ap bit (get_or-set_ne visited current x true false other) in
          ground arith
    ]

pub Attempt-cases :
    {A : Type 0} (m : Attempt A)
    → ((a : A) × (m ≡ good a)) ⊎ (((r : Rejection) × (m ≡ rejected r)) ⊎ (m ≡ exhausted))
Attempt-cases (good a) = inl (a, refl)
Attempt-cases (rejected r) = inr (inl (r, refl))
Attempt-cases exhausted = inr (inr refl)

follow_chain-marks :
    (extra : ℕ → ℕ) (fuel : ℕ) (adjacency : List (List ℕ)) (visited : List Bool)
    (previous : Option ℕ) (current : ℕ) (merged : List ℕ) (m' : List ℕ) (v' : List Bool)
    → follow_chain fuel adjacency visited previous current merged ≡ good (m', v')
    → ((x : ℕ) → occurrences x merged + extra x ≤ mark visited x)
    → (x : ℕ) → occurrences x m' + extra x ≤ mark v' x
unfolding follow_chain
follow_chain-marks extra zero adjacency visited previous current merged m' v' e h =
    absurd (ground arith)
follow_chain-marks extra (suc fuel) adjacency visited previous current merged m' v' e h =
    elim (Bool-cases (get_or visited current true)) [
      | inl closed ↦ absurd (ground arith)
      | inr fresh ↦
          let next = mark-step visited current merged extra fresh h in
          elim (Attempt-cases (pick_next previous none (get_or adjacency current []))) [
            | inl (none, stop) ↦
                let m : merged ++ current ∷ [] ≡ m' = ground arith in
                let v : set visited current true ≡ v' = ground arith in
                λ x.
                  subst (λ v. occurrences x m' + extra x ≤ mark v x) v
                    (subst (λ m. occurrences x m + extra x ≤ mark (set visited current true) x) m
                      (next x))
            | inl (some n, go) ↦
                follow_chain-marks extra fuel adjacency (set visited current true) (some current) n
                  (merged ++ current ∷ []) m' v' (ground arith) next
            | inr (inl (r, bad)) ↦ absurd (ground arith)
            | inr (inr bad) ↦ absurd (ground arith)
          ]
    ]

collect_chains-marks :
    (node_count : ℕ) (adjacency : List (List ℕ)) (visited : List Bool) (start count : ℕ)
    (paths chains : List (List ℕ)) (v' : List Bool)
    → collect_chains node_count adjacency visited start count paths ≡ good (chains, v')
    → ((x : ℕ) → occurrences_in x paths ≤ mark visited x)
    → (x : ℕ) → occurrences_in x chains ≤ mark v' x
unfolding collect_chains
collect_chains-marks node_count adjacency visited start zero paths chains v' e h =
    let m : paths ≡ chains = ground arith in
    let v : visited ≡ v' = ground arith in
    λ x.
      subst (λ v. occurrences_in x chains ≤ mark v x) v
        (subst (λ p. occurrences_in x p ≤ mark visited x) m (h x))
collect_chains-marks node_count adjacency visited start (suc count) paths chains v' e h =
    elim (Bool-cases (get_or visited start true || not (length (get_or adjacency start []) == 1))) [
      | inl skip ↦
          collect_chains-marks node_count adjacency visited (suc start) count paths chains v'
            (ground arith) h
      | inr end ↦
          elim (Attempt-cases (follow_chain (suc node_count) adjacency visited none start [])) [
            | inl ((merged, marks), ran) ↦
                let after =
                  follow_chain-marks (λ x. occurrences_in x paths) (suc node_count) adjacency
                    visited none start [] merged marks ran (λ x. (let here = h x in omega arith)) in
                collect_chains-marks node_count adjacency marks (suc start) count
                  (paths ++ merged ∷ []) chains v' (ground arith)
                  (λ x.
                    (let here = after x in
                      let split = occurrences_in-append x merged paths in omega arith))
            | inr (inl (r, bad)) ↦ absurd (ground arith)
            | inr (inr bad) ↦ absurd (ground arith)
          ]
    ]

insert_path-occurrences :
    (x : ℕ) (p : List ℕ) (ps : List (List ℕ))
    → occurrences_in x (insert_path p ps) ≡ occurrences x p + occurrences_in x ps
unfolding insert_path
insert_path-occurrences x p [] = refl
insert_path-occurrences x p (q ∷ qs) =
    let later = insert_path-occurrences x p qs in
    elim (Bool-cases (path_less q p)) [ inl less ↦ ground arith | inr not_less ↦ ground arith ]

sort_paths-occurrences :
    (x : ℕ) (ps : List (List ℕ)) → occurrences_in x (sort_paths ps) ≡ occurrences_in x ps
unfolding sort_paths
sort_paths-occurrences x [] = refl
sort_paths-occurrences x (p ∷ ps) =
    insert_path-occurrences x p (sort_paths ps)
    ∙ ap (λ n. occurrences x p + n) (sort_paths-occurrences x ps)

mark-bound : (v : List Bool) (x : ℕ) → mark v x ≤ 1
mark-bound v x = elim (Bool-cases (get_or v x false)) [
  | inl h ↦ ground arith
  | inr h ↦ ground arith
]

bit-false : (n x : ℕ) → mark (replicate n false) x ≡ 0
bit-false zero x = refl
bit-false (suc n) zero = refl
bit-false (suc n) (suc x) = bit-false n x

normalize_nodes-occurrences :
    (node_count : ℕ) (paths : List (List ℤ)) (result : NormalizedPathSystem)
    → normalize_nodes node_count paths ≡ good result
    → (x : ℕ) → occurrences_in x result.paths ≤ 1
unfolding normalize_nodes
normalize_nodes-occurrences node_count paths result h x =
    elim (Attempt-cases (
      add_paths node_count (replicate node_count false)
        (record { adjacency = replicate node_count []; edges = [] }) paths)) [
          | inr (inl (r, bad)) ↦ absurd (ground arith)
          | inr (inr bad) ↦ absurd (ground arith)
          | inl (s, added) ↦
              elim (Attempt-cases (
                collect_chains node_count s.adjacency (replicate node_count false) 0 node_count
                  [])) [
                    | inr (inl (r, bad)) ↦ absurd (ground arith)
                    | inr (inr bad) ↦ absurd (ground arith)
                    | inl ((chains, visited), collected) ↦
                        let once =
                          collect_chains-marks node_count s.adjacency (replicate node_count false) 0
                            node_count [] chains visited collected
                            (λ x. (let e = bit-false node_count x in omega arith)) x in
                        let few = mark-bound visited x in
                        let sorted = sort_paths-occurrences x chains in
                        elim (Bool-cases (has_unvisited s.adjacency visited 0 node_count)) [
                          | inl bad ↦ absurd (ground arith)
                          | inr visited_all ↦
                              elim (Bool-cases
                                (reconstructed_edges (sort_paths chains) == length s.edges)) [
                                  | inr bad ↦ absurd (ground arith)
                                  | inl kept ↦
                                      let same : sort_paths chains ≡ result.paths = ground arith in
                                      let e = ap (occurrences_in x) same in omega arith
                                ]
                        ]
                  ]
        ]

-- The chains that NormalizePathSystem returns are disjoint and have no node twice: however the input
-- paths look, a node is in the returned paths at most once.
pub normalize_path_system-occurrences :
    (paths : List (List ℤ)) (node_count : ℤ) (result : NormalizedPathSystem) (x : ℕ)
    → normalize_path_system paths node_count ≡ some result
    → occurrences_in x result.paths ≤ 1
unfolding normalize_path_system
normalize_path_system-occurrences paths node_count result x h =
    let empty : (r : Rejection)
        → some (invalid_path_system r) ≡ some result
        → occurrences_in x result.paths ≤ 1 =
      λ r e.
        (let same : [] ≡ result.paths = ground arith in
          let n : 0 ≡ occurrences_in x result.paths = ap (occurrences_in x) same in omega arith) in
    elim (Bool-cases (positive_nodes node_count == 0)) [
      | inl none_there ↦ empty no_nodes (ground arith)
      | inr some_there ↦ elim (Bool-cases (length paths == 0)) [
        | inl none_given ↦ empty empty_system (ground arith)
        | inr some_given ↦
            elim (Attempt-cases (normalize_nodes (positive_nodes node_count) paths)) [
              | inl (found, e) ↦
                  let same : found ≡ result = ground arith in
                  subst (λ r. occurrences_in x r.paths ≤ 1) same
                    (normalize_nodes-occurrences (positive_nodes node_count) paths found e x)
              | inr (inl (r, bad)) ↦ empty r (ground arith)
              | inr (inr bad) ↦ absurd (ground arith)
            ]
      ]
    ]
