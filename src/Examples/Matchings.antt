-- ===== src/Examples/Matchings.antt =====
-- The theorems on endpoint matchings at two and three paths.
use cuda_edge_elimination.Base.{
  ℕ, ◌≡◌, ◌↔◌, ◌≤◌, ◌*◌, refl, List, [], ◌∷◌, arith, true, length, map, Mem, All, none, some,
}
use cuda_edge_elimination.Base.Int.{ℤ, pos}
use cuda_edge_elimination.Base.Outcome.{ok}
use cuda_edge_elimination.Paths.{
  EndpointMatching, enumerate_outside_matchings, enumerate_inside_matchings,
  is_perfect_endpoint_matching, is_alternating_hamiltonian_cycle, max_path_endpoints,
}
use cuda_edge_elimination.Paths.Outside.{outside_count, enumerate_outside_matchings-length}
use cuda_edge_elimination.Paths.Perfect.{Free}
use cuda_edge_elimination.Paths.Inside.{odd_product}
use cuda_edge_elimination.Paths.Inside.Complete.{
  enumerate_inside_matchings-length, enumerate_inside_matchings_iff,
}
use cuda_edge_elimination.Paths.Cycle.{position, IsDistinct, is_alternating_hamiltonian_cycle_iff}
use cuda_edge_elimination.Paths.Table.{
  PathCompatibilityTable, PathCompatibilityQuery, PathCompatibilityBatchResult, PathDevice,
  build_path_compatibility_table, covers, at, expected_of, evaluate_path_compatibility, cpu_backend,
}
use cuda_edge_elimination.Paths.Table.Covers.Rows.{covers-build_path_compatibility_table}
use cuda_edge_elimination.Paths.Table.Answers.{is_yes, evaluate_path_compatibility_lem}
use cuda_edge_elimination.Paths.Table.Answers.Returns.{InRange, evaluate_path_compatibility_returns}
use cuda_edge_elimination.Paths.Normalize.{NormalizedPathSystem, normalize_path_system}
use cuda_edge_elimination.Paths.Normalize.Disjoint.{
  occurrences_in, normalize_path_system-occurrences,
}
use cuda_edge_elimination.Paths.Normalize.Ends.{normalize_path_system_ends}
use cuda_edge_elimination.Examples.Scans.{ok_of}

-- 0-1 and 2-3
abbrev straight : EndpointMatching
straight = record {
  endpoint_count = 4;
  mate = 1 ∷ 0 ∷ 3 ∷ 2 ∷ 255 ∷ 255 ∷ 255 ∷ 255 ∷ 255 ∷ 255 ∷ 255 ∷ 255 ∷ 255 ∷ 255 ∷ [];
}

-- 0-3 and 1-2
abbrev crossed : EndpointMatching
crossed = record {
  endpoint_count = 4;
  mate = 3 ∷ 2 ∷ 1 ∷ 0 ∷ 255 ∷ 255 ∷ 255 ∷ 255 ∷ 255 ∷ 255 ∷ 255 ∷ 255 ∷ 255 ∷ 255 ∷ [];
}

is_alternating_hamiltonian_cycle_iff_example :
    (is_alternating_hamiltonian_cycle crossed straight 2 ≡ true) ↔ (
      (is_perfect_endpoint_matching crossed 2 ≡ true)
      × (is_perfect_endpoint_matching straight 2 ≡ true)
      × (position crossed straight (2 * 2) ≡ 0)
      × IsDistinct crossed straight (2 * 2))
is_alternating_hamiltonian_cycle_iff_example =
    is_alternating_hamiltonian_cycle_iff crossed straight 2

enumerate_inside_matchings-length_example :
    (result : List EndpointMatching) × (enumerate_inside_matchings 3 ≡ ok result)
    × (length result ≡ odd_product 3)
enumerate_inside_matchings-length_example =
    enumerate_inside_matchings-length 3 (omega arith) (omega arith)

-- 0-2 and 1-3
abbrev twisted : EndpointMatching
twisted = record {
  endpoint_count = 4;
  mate = 2 ∷ 3 ∷ 0 ∷ 1 ∷ 255 ∷ 255 ∷ 255 ∷ 255 ∷ 255 ∷ 255 ∷ 255 ∷ 255 ∷ 255 ∷ 255 ∷ [];
}

abbrev outsides : List EndpointMatching
outsides = crossed ∷ twisted ∷ []

abbrev insides : List EndpointMatching
insides = straight ∷ twisted ∷ crossed ∷ []

outsides_eq : enumerate_outside_matchings 2 ≡ ok outsides
unfolding enumerate_outside_matchings
outsides_eq = refl

insides_eq : enumerate_inside_matchings 2 ≡ ok insides
unfolding enumerate_inside_matchings
insides_eq = refl

enumerate_inside_matchings_iff_example : Mem crossed insides ↔ (
    (is_perfect_endpoint_matching crossed 2 ≡ true)
    × (length crossed.mate ≡ max_path_endpoints)
    × ((e : ℕ) → crossed.endpoint_count ≤ e → Free crossed e))
enumerate_inside_matchings_iff_example = enumerate_inside_matchings_iff 2 insides crossed insides_eq

built : (table : PathCompatibilityTable) × (build_path_compatibility_table 2 ≡ ok table)
unfolding build_path_compatibility_table enumerate_outside_matchings enumerate_inside_matchings
built = ok_of (build_path_compatibility_table 2) refl

covers-build_path_compatibility_table_example :
    covers built.0 1 2 ≡ ok (is_alternating_hamiltonian_cycle (at outsides 1) (at insides 2) 2)
covers-build_path_compatibility_table_example =
    covers-build_path_compatibility_table 2 outsides insides built.0 1 2 built.1 outsides_eq
      insides_eq (omega arith) (omega arith)

abbrev queries : List PathCompatibilityQuery
queries =
    record { outside_index = 1; inside_index = 2 }
    ∷ record { outside_index = 0; inside_index = 0 }
    ∷ []

-- A device that answers no to everything.
abbrev wrong_device : PathDevice
wrong_device = record { available = true; lookup = λ table queries. ok (0 ∷ 0 ∷ [], pos 0) }

queries-InRange : All (InRange 2) queries
queries-InRange = ((omega arith, omega arith), ((omega arith, omega arith), tt))

evaluate_path_compatibility_returns_example :
    (result : PathCompatibilityBatchResult) × (evaluate_path_compatibility wrong_device 2 queries
        cpu_backend
      ≡ ok result)
evaluate_path_compatibility_returns_example =
    evaluate_path_compatibility_returns wrong_device 2 queries (omega arith) (omega arith)
      queries-InRange

returned :
    (result : PathCompatibilityBatchResult) × (evaluate_path_compatibility wrong_device 2 queries
        cpu_backend
      ≡ ok result)
unfolding evaluate_path_compatibility build_path_compatibility_table enumerate_outside_matchings
    enumerate_inside_matchings covers is_alternating_hamiltonian_cycle
returned = ok_of (evaluate_path_compatibility wrong_device 2 queries cpu_backend) refl

evaluate_path_compatibility_lem_example :
    map is_yes returned.0.compatible ≡ map (expected_of 2 outsides insides) queries
evaluate_path_compatibility_lem_example =
    evaluate_path_compatibility_lem wrong_device 2 queries cpu_backend returned.0 outsides insides
      returned.1 outsides_eq insides_eq

-- Two paths that meet at 1, and one apart.
abbrev given_paths : List (List ℤ)
given_paths = (pos 0 ∷ pos 1 ∷ []) ∷ (pos 5 ∷ pos 4 ∷ []) ∷ (pos 1 ∷ pos 2 ∷ []) ∷ []

abbrev chains : NormalizedPathSystem
chains = record {
  valid = true;
  reason = none;
  paths = (0 ∷ 1 ∷ 2 ∷ []) ∷ (4 ∷ 5 ∷ []) ∷ [];
  edge_count = 3;
}

chains_eq : normalize_path_system given_paths (pos 6) ≡ some chains
unfolding normalize_path_system
chains_eq = refl

normalize_path_system-occurrences_example : occurrences_in 1 chains.paths ≤ 1
normalize_path_system-occurrences_example =
    normalize_path_system-occurrences given_paths (pos 6) chains 1 chains_eq

normalize_path_system_ends_example :
    (result : NormalizedPathSystem) × (normalize_path_system given_paths (pos 6) ≡ some result)
normalize_path_system_ends_example = normalize_path_system_ends given_paths (pos 6)

enumerate_outside_matchings-length_example :
    (result : List EndpointMatching) × (enumerate_outside_matchings 3 ≡ ok result)
    × (length result ≡ outside_count 3)
enumerate_outside_matchings-length_example =
    enumerate_outside_matchings-length 3 (omega arith) (omega arith)
