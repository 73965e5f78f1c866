-- ===== src/Paths/Normalize/Ends.antt =====
-- NormalizePathSystem (src/cpu/path_system.cpp): its fuel.
use cuda_edge_elimination.Base.{
  ℕ, zero, suc, ◌≤◌, ◌<◌, ◌≡◌, ◌≢◌, inl, inr, refl, sym, ap, ◌∙◌, arith, List, [], ◌∷◌, ◌++◌, Bool,
  true, false, Bool-cases, not, ◌||◌, ltb, leb, ◌==◌, if◌then◌else◌, length, get_or, set, replicate,
  Option, none, some, Option-cases, length-set, length-replicate,
}
use cuda_edge_elimination.Base.Int.{ℤ, pos, negsuc}
use cuda_edge_elimination.Paths.Cycle.{unmarked, unmarked-set}
use cuda_edge_elimination.Paths.Normalize.Disjoint.{Attempt-cases}
use cuda_edge_elimination.Paths.Normalize.{
  Attempt, good, rejected, exhausted, ◌>>~◌, reject_if, Rejection, NormalizedPathSystem, Union,
  check_node, scan_nodes, add_edge, add_edges, add_path, add_paths, pick_next, follow_chain,
  collect_chains, has_unvisited, sort_paths, normalize_nodes, normalize_path_system, clear_seen,
  reconstructed_edges, positive_nodes, cycle, edges_lost, short_path, repeated_node, repeated_edge,
  high_degree, has_edge, smaller, larger, push,
}

-- An attempt that does not run out of fuel.
abbrev Ends : {A : Type 0} → Attempt A → Type 0
Ends m = m ≢ exhausted

Ends-good : {A : Type 0} (a : A) → Ends (good a)
Ends-good a h = ground arith

Ends-rejected : {A : Type 0} (r : Rejection) → Ends {A = A} (rejected r)
Ends-rejected r h = ground arith

Ends-bind :
    {A B : Type 0} (m : Attempt A) (f : A → Attempt B)
    → Ends m
    → ((a : A) → Ends (f a))
    → Ends (m >>~ f)
Ends-bind (good a) f h k = k a
Ends-bind (rejected r) f h k = Ends-rejected r
Ends-bind exhausted f h k = absurd (h refl)

Ends-reject_if : (b : Bool) (r : Rejection) → Ends (reject_if b r)
Ends-reject_if true r = Ends-rejected r
Ends-reject_if false r = Ends-good tt

Ends-if : {A : Type 0} (b : Bool) (x y : Attempt A) → Ends x → Ends y → Ends (if b then x else y)
Ends-if true x y hx hy = hx
Ends-if false x y hx hy = hy

check_node-Ends : (n : ℕ) (node : ℤ) → Ends (check_node n node)
unfolding check_node
check_node-Ends n (pos k) =
    Ends-bind (reject_if (leb n k) Rejection.out_of_range) (λ _. good k)
      (Ends-reject_if (leb n k) Rejection.out_of_range) (λ _. Ends-good k)
check_node-Ends n (negsuc k) = Ends-rejected Rejection.out_of_range

scan_nodes-Ends : (n : ℕ) (seen : List Bool) (path : List ℤ) → Ends (scan_nodes n seen path)
unfolding scan_nodes
scan_nodes-Ends n seen [] = Ends-good ([], seen)
scan_nodes-Ends n seen (node ∷ rest) =
    Ends-bind (check_node n node) _ (check_node-Ends n node) (λ index.
      Ends-bind (reject_if (get_or seen index false) repeated_node) _
        (Ends-reject_if (get_or seen index false) repeated_node)
        (λ _.
          Ends-bind (scan_nodes n (set seen index true) rest) _
            (scan_nodes-Ends n (set seen index true) rest)
            (λ (nodes, marks). Ends-good (index ∷ nodes, marks))))

add_edge-Ends : (s : Union) (u v : ℕ) → Ends (add_edge s u v)
unfolding add_edge
add_edge-Ends s u v =
    let a = smaller u v in
    let b = larger u v in
    let adjacency = push (push s.adjacency u v) v u in
    let high = ltb 2 (length (get_or adjacency u [])) || ltb 2 (length (get_or adjacency v [])) in
    let s' : Union = record { adjacency = adjacency; edges = (a, b) ∷ s.edges } in
    Ends-bind (reject_if (has_edge s.edges a b) repeated_edge) _
      (Ends-reject_if (has_edge s.edges a b) repeated_edge)
      (λ _.
        Ends-bind (reject_if high high_degree) (λ _. good s') (Ends-reject_if high high_degree)
          (λ _. Ends-good s'))

add_edges-Ends : (s : Union) (node : ℕ) (path : List ℕ) → Ends (add_edges s node path)
unfolding add_edges
add_edges-Ends s node [] = Ends-good s
add_edges-Ends s node (next ∷ rest) =
    Ends-bind (add_edge s node next) _ (add_edge-Ends s node next)
      (λ s'. add_edges-Ends s' next rest)

add_path-Ends : (s : Union) (path : List ℕ) → Ends (add_path s path)
unfolding add_edges
add_path-Ends s [] = Ends-good s
add_path-Ends s (node ∷ rest) = add_edges-Ends s node rest

add_paths-Ends :
    (n : ℕ) (seen : List Bool) (s : Union) (paths : List (List ℤ)) → Ends (add_paths n seen s paths)
unfolding add_paths add_edges
add_paths-Ends n seen s [] = Ends-good s
add_paths-Ends n seen s (path ∷ paths) =
    Ends-bind (reject_if (ltb (length path) 2) short_path) _
      (Ends-reject_if (ltb (length path) 2) short_path)
      (λ _. Ends-bind (scan_nodes n seen path) _ (scan_nodes-Ends n seen path) (λ (nodes, marks).
        Ends-bind (add_path s nodes) _ (add_path-Ends s nodes)
          (λ s'. add_paths-Ends n (clear_seen marks nodes) s' paths)))

pick_next-Ends :
    (previous next : Option ℕ) (neighbors : List ℕ) → Ends (pick_next previous next neighbors)
unfolding pick_next
pick_next-Ends previous next [] = Ends-good next
pick_next-Ends previous none (n ∷ rest) =
    Ends-if _ (pick_next previous (some n) rest) (pick_next previous none rest)
      (pick_next-Ends previous (some n) rest) (pick_next-Ends previous none rest)
pick_next-Ends previous (some k) (n ∷ rest) =
    Ends-if _ (rejected Rejection.not_a_chain) (pick_next previous (some k) rest)
      (Ends-rejected Rejection.not_a_chain) (pick_next-Ends previous (some k) rest)

follow_chain-Ends :
    (fuel : ℕ) (adjacency : List (List ℕ)) (visited : List Bool) (previous : Option ℕ) (current : ℕ)
    (merged : List ℕ)
    → unmarked visited < fuel
    → Ends (follow_chain fuel adjacency visited previous current merged)
unfolding follow_chain
follow_chain-Ends zero adjacency visited previous current merged enough = absurd (omega arith)
follow_chain-Ends (suc fuel) adjacency visited previous current merged enough =
    elim (Bool-cases (get_or visited current true)) [
      | inl closed ↦ λ h. (ground arith)
      | inr fresh ↦
          let less = unmarked-set visited current fresh in
          elim (Attempt-cases (pick_next previous none (get_or adjacency current []))) [
            | inl (none, stop) ↦ λ h. (ground arith)
            | inl (some n, go) ↦
                let later =
                  follow_chain-Ends fuel adjacency (set visited current true) (some current) n
                    (merged ++ current ∷ []) (omega arith) in
                λ h. later (ground arith)
            | inr (inl (r, bad)) ↦ λ h. (ground arith)
            | inr (inr bad) ↦
                absurd (pick_next-Ends previous none (get_or adjacency current []) bad)
          ]
    ]

follow_chain-length :
    (fuel : ℕ) (adjacency : List (List ℕ)) (visited : List Bool) (previous : Option ℕ) (current : ℕ)
    (merged m' : List ℕ) (v' : List Bool)
    → follow_chain fuel adjacency visited previous current merged ≡ good (m', v')
    → length v' ≡ length visited
unfolding follow_chain
follow_chain-length zero adjacency visited previous current merged m' v' e = absurd (ground arith)
follow_chain-length (suc fuel) adjacency visited previous current merged m' v' e =
    let size = length-set visited current true in
    elim (Bool-cases (get_or visited current true)) [
      | inl closed ↦ absurd (ground arith)
      | inr fresh ↦ elim (Attempt-cases (pick_next previous none (get_or adjacency current []))) [
        | inl (none, stop) ↦
            let v : set visited current true ≡ v' = ground arith in sym (ap length v) ∙ size
        | inl (some n, go) ↦
            follow_chain-length fuel adjacency (set visited current true) (some current) n
              (merged ++ current ∷ []) m' v' (ground arith)
            ∙ size
        | inr (inl (r, bad)) ↦ absurd (ground arith)
        | inr (inr bad) ↦ absurd (ground arith)
      ]
    ]

unmarked-length : (bs : List Bool) → unmarked bs ≤ length bs
unmarked-length [] = omega arith
unmarked-length (true ∷ bs) = let h = unmarked-length bs in omega arith
unmarked-length (false ∷ bs) = let h = unmarked-length bs in omega arith

collect_chains-Ends :
    (n : ℕ) (adjacency : List (List ℕ)) (visited : List Bool) (start count : ℕ)
    (paths : List (List ℕ))
    → length visited ≤ n
    → Ends (collect_chains n adjacency visited start count paths)
unfolding collect_chains
collect_chains-Ends n adjacency visited start zero paths size = Ends-good (paths, visited)
collect_chains-Ends n adjacency visited start (suc count) paths size =
    let few = unmarked-length visited in
    let chain = follow_chain-Ends (suc n) adjacency visited none start [] (omega arith) in
    elim (Bool-cases (get_or visited start true || not (length (get_or adjacency start []) == 1))) [
      | inl skip ↦
          let later = collect_chains-Ends n adjacency visited (suc start) count paths size in
          λ h. later (ground arith)
      | inr an_end ↦ elim (Attempt-cases (follow_chain (suc n) adjacency visited none start [])) [
        | inl ((merged, marks), ran) ↦
            let same =
              follow_chain-length (suc n) adjacency visited none start [] merged marks ran in
            let later =
              collect_chains-Ends n adjacency marks (suc start) count (paths ++ merged ∷ [])
                (omega arith) in
            λ h. later (ground arith)
        | inr (inl (r, bad)) ↦ λ h. (ground arith)
        | inr (inr bad) ↦ absurd (chain bad)
      ]
    ]

normalize_nodes-Ends : (n : ℕ) (paths : List (List ℤ)) → Ends (normalize_nodes n paths)
unfolding normalize_nodes
normalize_nodes-Ends n paths =
    let size : length (replicate n false) ≡ n = length-replicate n false in
    Ends-bind
      (add_paths n (replicate n false) (record { adjacency = replicate n []; edges = [] }) paths) _
      (add_paths-Ends n (replicate n false) (record { adjacency = replicate n []; edges = [] })
        paths)
      (λ s.
        Ends-bind (collect_chains n s.adjacency (replicate n false) 0 n []) _
          (collect_chains-Ends n s.adjacency (replicate n false) 0 n [] (omega arith))
          (λ (chains, visited).
            let result : NormalizedPathSystem = record {
              valid = true;
              reason = none;
              paths = sort_paths chains;
              edge_count = length s.edges;
            } in
            let lost = not (reconstructed_edges (sort_paths chains) == length s.edges) in
            let open_cycle = has_unvisited s.adjacency visited 0 n in
            Ends-bind (reject_if open_cycle cycle) _ (Ends-reject_if open_cycle cycle) (λ _.
              Ends-bind (reject_if lost edges_lost) (λ _. good result)
                (Ends-reject_if lost edges_lost) (λ _. Ends-good result))))

-- NormalizePathSystem ends on every input: the walk along a chain visits each node at most once, so
-- that its fuel of one more than the number of nodes never runs out.
pub normalize_path_system_ends :
    (paths : List (List ℤ)) (node_count : ℤ)
    → (result : NormalizedPathSystem) × (normalize_path_system paths node_count ≡ some result)
unfolding normalize_path_system
normalize_path_system_ends paths node_count =
    elim (Option-cases (normalize_path_system paths node_count)) [
      | inr found ↦ found
      | inl nothing ↦ elim (Attempt-cases (normalize_nodes (positive_nodes node_count) paths)) [
        | inl (r, e) ↦ absurd (ground arith)
        | inr (inl (r, e)) ↦ absurd (ground arith)
        | inr (inr bad) ↦ absurd (normalize_nodes-Ends (positive_nodes node_count) paths bad)
      ]
    ]
