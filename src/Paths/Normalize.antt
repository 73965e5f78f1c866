-- ===== src/Paths/Normalize.antt =====
-- NormalizePathSystem of src/cpu/path_system.cpp: the union of the edges of some paths as disjoint
-- chains in a fixed order. The text of a rejection is a constructor here.
pub mod Disjoint
pub mod Ends
use cuda_edge_elimination.Base.{
  ℕ, zero, suc, ◌+◌, ◌-◌, List, [], ◌∷◌, ◌++◌, Bool, true, false, not, ◌&&◌, ◌||◌, ltb, leb, ◌==◌,
  if◌then◌else◌, length, get_or, set, replicate, Option, none, some,
}
use cuda_edge_elimination.Base.Int.{ℤ, pos, negsuc}

pub data Rejection : Type 0 where
  no_nodes empty_system short_path out_of_range repeated_node repeated_edge high_degree cycle
        not_a_chain edges_lost :
      Rejection

-- A step of the normalization: a value, the rejection, or no fuel left.
pub data Attempt (A : Type 0) : Type 0 where
  good : A → Attempt A
  rejected : Rejection → Attempt A
  exhausted : Attempt A

infixl 5 ◌>>~◌
abbrev pub ◌>>~◌ : {A B : Type 0} → Attempt A → (A → Attempt B) → Attempt B
good a >>~ f = f a
rejected r >>~ f = rejected r
exhausted >>~ f = exhausted

abbrev pub reject_if : Bool → Rejection → Attempt (Unit {0})
reject_if true r = rejected r
reject_if false r = good tt

pub record NormalizedPathSystem : Type 0 where
  pub valid : Bool
  pub reason : Option Rejection
  pub paths : List (List ℕ)
  pub edge_count : ℕ

abbrev pub invalid_path_system : Rejection → NormalizedPathSystem
invalid_path_system r = record { valid = false; reason = some r; paths = []; edge_count = 0 }

-- `node < 0 || node >= node_count`, and the node as an index.
pub check_node : ℕ → ℤ → Attempt ℕ
check_node node_count (pos n) = reject_if (leb node_count n) out_of_range >>~ λ _. good n
check_node node_count (negsuc n) = rejected out_of_range

-- The first loop over a path: the nodes of the path and the marks of `seen_in_path`.
pub scan_nodes : ℕ → List Bool → List ℤ → Attempt (List ℕ × List Bool)
unfolding check_node
scan_nodes node_count seen [] = good ([], seen)
scan_nodes node_count seen (node ∷ rest) = check_node node_count node >>~ λ index.
    reject_if (get_or seen index false) repeated_node >>~ λ _.
    scan_nodes node_count (set seen index true) rest >>~ λ (nodes, marks).
    good (index ∷ nodes, marks)

-- The loop over `touched`.
abbrev pub clear_seen : List Bool → List ℕ → List Bool
clear_seen seen [] = seen
clear_seen seen (node ∷ nodes) = clear_seen (set seen node false) nodes

-- The adjacency lists and the set of edges, as pairs of the smaller and the larger end.
pub record Union : Type 0 where
  pub adjacency : List (List ℕ)
  pub edges : List (ℕ × ℕ)

abbrev pub has_edge : List (ℕ × ℕ) → ℕ → ℕ → Bool
has_edge [] u v = false
has_edge ((a, b) ∷ edges) u v =
    let later = has_edge edges u v in if a == u && b == v then true else later

abbrev pub smaller : ℕ → ℕ → ℕ
smaller u v = if ltb v u then v else u

abbrev pub larger : ℕ → ℕ → ℕ
larger u v = if ltb u v then v else u

abbrev pub push : List (List ℕ) → ℕ → ℕ → List (List ℕ)
push adjacency u v = set adjacency u (get_or adjacency u [] ++ v ∷ [])

-- One edge of a path.
pub add_edge : Union → ℕ → ℕ → Attempt Union
add_edge s raw_u raw_v =
    let u = smaller raw_u raw_v in
    let v = larger raw_u raw_v in
    let adjacency = push (push s.adjacency raw_u raw_v) raw_v raw_u in
    reject_if (has_edge s.edges u v) repeated_edge >>~ λ _.
    reject_if
      (ltb 2 (length (get_or adjacency raw_u [])) || ltb 2 (length (get_or adjacency raw_v [])))
      high_degree
    >>~ λ _. good (record { adjacency = adjacency; edges = (u, v) ∷ s.edges })

-- The second loop over a path, behind its first node.
pub add_edges : Union → ℕ → List ℕ → Attempt Union
unfolding add_edge
add_edges s node [] = good s
add_edges s node (next ∷ rest) = add_edge s node next >>~ λ s'. add_edges s' next rest

abbrev pub add_path : Union → List ℕ → Attempt Union
unfolding add_edges
add_path s [] = good s
add_path s (node ∷ rest) = add_edges s node rest

-- The loop over the paths.
pub add_paths : ℕ → List Bool → Union → List (List ℤ) → Attempt Union
unfolding scan_nodes add_path
add_paths node_count seen s [] = good s
add_paths node_count seen s (path ∷ paths) = reject_if (ltb (length path) 2) short_path >>~ λ _.
    scan_nodes node_count seen path >>~ λ (nodes, marks).
    add_path s nodes >>~ λ s'. add_paths node_count (clear_seen marks nodes) s' paths

-- The loop over the neighbours: `next`, or none where it stays -1.
pub pick_next : Option ℕ → Option ℕ → List ℕ → Attempt (Option ℕ)
pick_next previous next [] = good next
pick_next previous next (neighbor ∷ rest) =
    let skip = pick_next previous next rest in
    let take = pick_next previous (some neighbor) rest in
    let other : Bool = elim previous [ none ↦ true | some p ↦ not (neighbor == p) ] in
    if other then elim next [ none ↦ take | some n ↦ rejected not_a_chain ] else skip

-- The while loop along a chain. Each round marks a node, so that fuel of one more than the number of
-- nodes is enough.
pub follow_chain :
    ℕ → List (List ℕ) → List Bool → Option ℕ → ℕ → List ℕ → Attempt (List ℕ × List Bool)
unfolding pick_next
follow_chain zero adjacency visited previous current merged = exhausted
follow_chain (suc fuel) adjacency visited previous current merged =
    reject_if (get_or visited current true) cycle >>~ λ _.
    pick_next previous none (get_or adjacency current []) >>~ λ next. elim next [
      | none ↦ good (merged ++ current ∷ [], set visited current true)
      | some n ↦
          follow_chain fuel adjacency (set visited current true) (some current) n
            (merged ++ current ∷ [])
    ]

-- The loop over `count` starts from `start` on.
pub collect_chains :
    ℕ → List (List ℕ) → List Bool → ℕ → ℕ → List (List ℕ) → Attempt (List (List ℕ) × List Bool)
unfolding follow_chain
collect_chains node_count adjacency visited start zero paths = good (paths, visited)
collect_chains node_count adjacency visited start (suc count) paths =
    let skip = collect_chains node_count adjacency visited (suc start) count paths in
    if get_or visited start true || not (length (get_or adjacency start []) == 1)
    then skip
    else (follow_chain (suc node_count) adjacency visited none start [] >>~ λ (merged, marks).
        collect_chains node_count adjacency marks (suc start) count (paths ++ merged ∷ []))

-- Whether one of `count` nodes from `node` on has neighbours and was not visited.
pub has_unvisited : List (List ℕ) → List Bool → ℕ → ℕ → Bool
has_unvisited adjacency visited node zero = false
has_unvisited adjacency visited node (suc count) =
    let later = has_unvisited adjacency visited (suc node) count in
    if not (length (get_or adjacency node []) == 0) && not (get_or visited node true)
    then true
    else later

-- operator< of std::vector
pub path_less : List ℕ → List ℕ → Bool
path_less xs [] = false
path_less [] (y ∷ ys) = true
path_less (x ∷ xs) (y ∷ ys) =
    let later = path_less xs ys in if ltb x y then true else if ltb y x then false else later

pub insert_path : List ℕ → List (List ℕ) → List (List ℕ)
unfolding path_less
insert_path x [] = x ∷ []
insert_path x (y ∷ ys) =
    let later = insert_path x ys in if path_less y x then y ∷ later else x ∷ y ∷ ys

pub sort_paths : List (List ℕ) → List (List ℕ)
unfolding insert_path
sort_paths [] = []
sort_paths (x ∷ xs) = insert_path x (sort_paths xs)

abbrev pub reconstructed_edges : List (List ℕ) → ℕ
reconstructed_edges [] = 0
reconstructed_edges (path ∷ paths) = length path - 1 + reconstructed_edges paths

-- Everything that may reject, for a positive number of nodes.
pub normalize_nodes : ℕ → List (List ℤ) → Attempt NormalizedPathSystem
unfolding add_paths collect_chains has_unvisited sort_paths
normalize_nodes node_count paths =
    add_paths node_count (replicate node_count false)
      (record { adjacency = replicate node_count []; edges = [] }) paths
    >>~ λ s.
        collect_chains node_count s.adjacency (replicate node_count false) 0 node_count []
        >>~ λ (chains, visited).
            reject_if (has_unvisited s.adjacency visited 0 node_count) cycle >>~ λ _.
            reject_if (not (reconstructed_edges (sort_paths chains) == length s.edges)) edges_lost
            >>~ λ _. good (record {
              valid = true;
              reason = none;
              paths = sort_paths chains;
              edge_count = length s.edges;
            })

-- The result; none where the fuel ran out.
abbrev pub settle_attempt : Attempt NormalizedPathSystem → Option NormalizedPathSystem
settle_attempt (good result) = some result
settle_attempt (rejected r) = some (invalid_path_system r)
settle_attempt exhausted = none

abbrev pub positive_nodes : ℤ → ℕ
positive_nodes (pos n) = n
positive_nodes (negsuc n) = 0

unfoldable pub normalize_path_system : List (List ℤ) → ℤ → Option NormalizedPathSystem
unfolding normalize_nodes
normalize_path_system paths node_count =
    if positive_nodes node_count == 0
    then some (invalid_path_system no_nodes)
    else if length paths == 0
    then some (invalid_path_system empty_system)
    else settle_attempt (normalize_nodes (positive_nodes node_count) paths)
