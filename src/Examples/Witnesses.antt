-- ===== src/Examples/Witnesses.antt =====
-- The theorems at the sample snapshot.
use cuda_edge_elimination.Base.{
  ℕ, ◌-◌, ◌<◌, ◌≤◌, ◌≡◌, ◌↔◌, refl, List, [], ◌∷◌, arith, Bool, true, false, some, ◌^◌,
}
use Prim.Native.Nat.{min}
use cuda_edge_elimination.Base.Int.{pos, negsuc, ◌-ℤ◌}
use cuda_edge_elimination.Base.Outcome.{Outcome, ok, err, Error}
use cuda_edge_elimination.Types.{Point, euc_2d, ceil_2d, Candidate, jv}
use cuda_edge_elimination.Distance.{
  integer_sqrt_floor, exact_integer_distance, round_squared, squared_distance,
}
use cuda_edge_elimination.Distance.Sqrt.{IsFloorSqrt, integer_sqrt_floor-IsFloorSqrt}
use cuda_edge_elimination.Distance.Rounding.{
  IsRounded, true_squared, exact_integer_distance_rounds, exact_integer_distance_overflows,
  exact_integer_distance_wraps,
}
use cuda_edge_elimination.Graph.{
  GraphSnapshot, rebuild_csr, distance, row, degree, offsets_of, filled, canonical_sorted,
  has_active_edge,
}
use cuda_edge_elimination.Graph.Hash.{content_hash}
use cuda_edge_elimination.Graph.Rows.{IsWellFormed, rebuild_csr-IsWellFormed}
use cuda_edge_elimination.Graph.Edges.{Adjacent}
use cuda_edge_elimination.Tours.{Along, Uses}
use cuda_edge_elimination.Tours.Check.{all_below, all_below-at}
use cuda_edge_elimination.Jv.{
  edge_at, potential_candidate_nodes, verify_jv_candidate, verify_candidates,
  find_jv_candidates_cpu, is_jv_witness,
}
use cuda_edge_elimination.Jv.Witness.{IsWitness, is_jv_witness_iff, Total, NeighborsBelow}
use cuda_edge_elimination.Jv.Sound.{verify_jv_candidate-not-Uses}
use cuda_edge_elimination.Jv.Agree.{find_jv_candidates_cpu-Every}
use cuda_edge_elimination.Commit.{
  commit_verified_candidates, all_valid, degrees_from, select, sort_candidates, unique_candidates,
  apply_committed,
}
use cuda_edge_elimination.Commit.Edges.{Every}
use cuda_edge_elimination.Commit.Lists.{Live}
use cuda_edge_elimination.Commit.Edges.{Every}
use cuda_edge_elimination.Commit.Result.{commit_succeeds, commit-IsWellFormed, commit_keeps_degrees}
use cuda_edge_elimination.Commit.Preserve.{Spares, commit-Along}
use cuda_edge_elimination.Graph.Membership.{has_active_edge_iff}
use cuda_edge_elimination.Protection.{ProtectedTourCheck, check_protected_tour}
use cuda_edge_elimination.Protection.Walked.{check_protected_tour_lem}
use cuda_edge_elimination.Tours.{tour_cost}
use cuda_edge_elimination.Base.{◌⊎◌}
use cuda_edge_elimination.Graph.Metric.{metric}
use cuda_edge_elimination.Graph.Hash.{hash_bytes}
use cuda_edge_elimination.Elimination.{cpu, EliminationResult, validate_proof_container}
use cuda_edge_elimination.Elimination.Replay.{replay_proof, replay_epochs}
use cuda_edge_elimination.Elimination.Replay.Certified.{replay_proof-Keeps, SomeMisjudged}
use cuda_edge_elimination.Elimination.Replay.Fuel.{replay_epochs_fuel}
use cuda_edge_elimination.Elimination.Run.{run_jv_elimination}
use cuda_edge_elimination.Elimination.Survive.{
  Keeps, run_jv_elimination-Keeps, Checked, verify_candidates-Checked,
}
use cuda_edge_elimination.Examples.{
  integer_ops, integer_laws, point, edge, loaded, sample, around, shortcut, broken, trimmed,
  sample-Keeps, sample-IsWellFormed, sample-WeightsMatch, around-Along, around-IsOptimal,
  shortcut-accepted, commit_eq, checker, certified,
}

run_jv_elimination-Keeps_example :
    Keeps integer_ops around (run_jv_elimination integer_ops broken ℕ sample cpu 3).0
run_jv_elimination-Keeps_example =
    run_jv_elimination-Keeps integer_ops broken ℕ sample cpu 3 around integer_laws sample-Keeps

shortcut_at : edge_at sample.edges (pos 1) ≡ some (edge 0 2 20)
unfolding rebuild_csr
shortcut_at = refl

verify_jv_candidate-not-Uses_example : ¬ Uses around 0 2
verify_jv_candidate-not-Uses_example =
    verify_jv_candidate-not-Uses integer_ops sample integer_laws sample-IsWellFormed
      sample-WeightsMatch shortcut (edge 0 2 20) shortcut_at shortcut-accepted around
      around-IsOptimal around-Along

shortcut-Spares : Every (Spares sample.edges around) (shortcut ∷ [])
unfolding rebuild_csr
shortcut-Spares = (
  λ e at uses.
      verify_jv_candidate-not-Uses integer_ops sample integer_laws sample-IsWellFormed
        sample-WeightsMatch shortcut e at shortcut-accepted around around-IsOptimal around-Along
        uses,
  tt,
)

commit-Along_example : Along (Adjacent trimmed.edges) around
commit-Along_example =
    commit-Along sample (shortcut ∷ []) (content_hash sample) trimmed (shortcut ∷ []) around
      commit_eq shortcut-Spares around-Along

commit-IsWellFormed_example : IsWellFormed trimmed
commit-IsWellFormed_example =
    commit-IsWellFormed sample (shortcut ∷ []) (content_hash sample) trimmed (shortcut ∷ [])
      sample-IsWellFormed commit_eq

degree_eq : degree sample 2 ≡ ok 4
unfolding degree rebuild_csr offsets_of
degree_eq = refl

two_below : 2 < sample.dimension
unfolding rebuild_csr
two_below = omega arith

commit_keeps_degrees_example : (d' : ℕ) × (degree trimmed 2 ≡ ok d') × (min 2 4 ≤ d')
commit_keeps_degrees_example =
    commit_keeps_degrees sample (shortcut ∷ []) (content_hash sample) trimmed (shortcut ∷ []) 2 4
      sample-IsWellFormed commit_eq degree_eq two_below

commit_succeeds_example :
    ((g' : GraphSnapshot) × (committed : List Candidate) × (commit_verified_candidates sample
          (shortcut ∷ [])
          (content_hash sample)
        ≡ ok (g', committed)))
    ↔ Every (Live sample.edges) (shortcut ∷ [])
commit_succeeds_example =
    commit_succeeds sample (shortcut ∷ []) (content_hash sample) sample-IsWellFormed refl

rebuild_csr-IsWellFormed_example : IsWellFormed (rebuild_csr loaded)
rebuild_csr-IsWellFormed_example = rebuild_csr-IsWellFormed loaded (ground arith) (ground arith)

exact_integer_distance_rounds_example :
    (d : ℕ) × (exact_integer_distance (point 0 0) (point 7 9) euc_2d ≡ ok d)
    × IsRounded euc_2d (true_squared (point 0 0) (point 7 9)) d
    × (d ≤ 2 ^ 32)
unfolding ◌-ℤ◌
exact_integer_distance_rounds_example =
    exact_integer_distance_rounds (point 0 0) (point 7 9) euc_2d (ground arith)

exact_integer_distance_overflows_example :
    exact_integer_distance (point 0 0) (point (2 ^ 33) 1) ceil_2d ≡ err Error.overflow_error
unfolding ◌-ℤ◌
exact_integer_distance_overflows_example =
    exact_integer_distance_overflows (point 0 0) (point (2 ^ 33) 1) ceil_2d (ground arith)
      (ground arith)

-- Two coordinates that doubles represent exactly.
abbrev left : Point
left = record {
  x = 0;
  y = 0;
  integer_x = negsuc (4611686018428194816 - 1);
  integer_y = negsuc (7987674492470791680 - 1);
}

abbrev right : Point
right = record {
  x = 0;
  y = 0;
  integer_x = pos 4611686018428194816;
  integer_y = pos 7987674492470791680;
}

exact_integer_distance_wraps_example :
    (d : ℕ) × (exact_integer_distance left right euc_2d ≡ ok d) × (d ≤ 2 ^ 32)
unfolding ◌-ℤ◌
exact_integer_distance_wraps_example =
    exact_integer_distance_wraps left right euc_2d (ground arith) (ground arith)

integer_sqrt_floor-IsFloorSqrt_example : IsFloorSqrt (2 ^ 64 - 1) (integer_sqrt_floor (2 ^ 64 - 1))
integer_sqrt_floor-IsFloorSqrt_example = integer_sqrt_floor-IsFloorSqrt (2 ^ 64 - 1) (ground arith)

abbrev is_ok : Outcome ℕ → Bool
is_ok (ok d) = true
is_ok (err e) = false

is_ok_lem : (m : Outcome ℕ) → is_ok m ≡ true → (d : ℕ) × (m ≡ ok d)
is_ok_lem (ok d) h = (d, refl)
is_ok_lem (err e) h = absurd (ground arith)

all_ok : all_below 6 (λ u. all_below 6 (λ v. is_ok (distance integer_ops sample u v))) ≡ true
unfolding rebuild_csr distance exact_integer_distance round_squared squared_distance ◌-ℤ◌
    integer_sqrt_floor
all_ok = refl

sample-Total : Total integer_ops sample
unfolding rebuild_csr
sample-Total u v hu hv =
    let from_u =
      all_below-at 6 (λ w. all_below 6 (λ z. is_ok (distance integer_ops sample w z))) u hu
        all_ok in
    is_ok_lem (distance integer_ops sample u v)
      (all_below-at 6 (λ z. is_ok (distance integer_ops sample u z)) v hv from_u)

row_below : NeighborsBelow integer_ops sample (row sample 1)
unfolding row rebuild_csr offsets_of filled canonical_sorted
row_below = (ground arith, (ground arith, (ground arith, tt)))

is_jv_witness_iff_example :
    (is_jv_witness integer_ops sample (edge 0 2 20) (pos 1) ≡ ok true)
    ↔ IsWitness integer_ops sample (edge 0 2 20) 1
unfolding rebuild_csr
is_jv_witness_iff_example =
    is_jv_witness_iff integer_ops sample (edge 0 2 20) 1 sample-Total (omega arith) (omega arith)
      row_below

abbrev mixed : List Candidate
mixed = shortcut ∷ record { edge_id = pos 3; witness = pos 5; method = jv } ∷ []

mixed_eq : verify_candidates integer_ops sample mixed ≡ ok (shortcut ∷ [], 1)
unfolding verify_candidates verify_jv_candidate is_jv_witness rebuild_csr offsets_of filled
    canonical_sorted degree row distance exact_integer_distance round_squared squared_distance ◌-ℤ◌
    integer_sqrt_floor
mixed_eq = refl

verify_candidates-Checked_example : Checked integer_ops sample mixed (shortcut ∷ [], 1)
verify_candidates-Checked_example =
    verify_candidates-Checked integer_ops sample mixed (shortcut ∷ [], 1) mixed_eq

abbrev found : List Candidate
found =
    shortcut
    ∷ record { edge_id = pos 3; witness = pos 3; method = jv }
    ∷ record { edge_id = pos 6; witness = pos 5; method = jv }
    ∷ []

found_eq : find_jv_candidates_cpu integer_ops sample ≡ ok found
unfolding find_jv_candidates_cpu rebuild_csr degree offsets_of potential_candidate_nodes row
    canonical_sorted filled has_active_edge is_jv_witness distance exact_integer_distance
    round_squared squared_distance ◌-ℤ◌ integer_sqrt_floor
found_eq = refl

find_jv_candidates_cpu-Every_example :
    Every (λ c. verify_jv_candidate integer_ops sample c ≡ ok true) found
find_jv_candidates_cpu-Every_example =
    find_jv_candidates_cpu-Every integer_ops sample found found_eq

has_active_edge_iff_example : (has_active_edge sample 4 2 ≡ true) ↔ Adjacent sample.edges 4 2
unfolding rebuild_csr
has_active_edge_iff_example =
    has_active_edge_iff sample 4 2 sample-IsWellFormed (omega arith) (omega arith)

-- The replay goes through: the certificate is accepted and its edge committed.
replayed : (replay_proof integer_ops checker sample certified).0 ≡ trimmed
unfolding replay_proof apply_committed content_hash rebuild_csr validate_proof_container
    verify_jv_candidate degree offsets_of is_jv_witness distance exact_integer_distance
    round_squared squared_distance ◌-ℤ◌ integer_sqrt_floor row canonical_sorted filled
    commit_verified_candidates all_valid degrees_from select sort_candidates unique_candidates
    hash_bytes
replayed = refl

replay_proof-Keeps_example :
    Keeps integer_ops around (replay_proof integer_ops checker sample certified).0
    ⊎ ∥ SomeMisjudged integer_ops checker around (shortcut ∷ []) ∥₁
replay_proof-Keeps_example =
    replay_proof-Keeps integer_ops checker sample certified around integer_laws sample-Keeps

replay_epochs_fuel_example :
    (ended : Outcome (GraphSnapshot × EliminationResult Candidate)) × (replay_epochs integer_ops
        checker 1 sample
        (shortcut ∷ [])
        0
        certified.proof
        certified
      ≡ some ended)
    × (replay_epochs integer_ops checker 5 sample (shortcut ∷ []) 0 certified.proof certified
        ≡ some ended)
replay_epochs_fuel_example =
    replay_epochs_fuel integer_ops checker 1 5 sample (shortcut ∷ []) 0 certified.proof certified
      (omega arith) (omega arith)

abbrev checked : ProtectedTourCheck
checked = record { cost = 60; missing_edges = 0; tour_hash = 18089091848356401237 }

checked_eq : check_protected_tour integer_ops sample around ≡ ok checked
unfolding check_protected_tour rebuild_csr distance exact_integer_distance round_squared
    squared_distance ◌-ℤ◌ integer_sqrt_floor has_active_edge offsets_of canonical_sorted filled
    hash_bytes
checked_eq = refl

check_protected_tour_lem_example :
    (60 ≡ tour_cost (metric integer_ops sample) around)
    × ((¬ (checked.missing_edges ≡ 0)) ⊎ Along (Adjacent sample.edges) around)
check_protected_tour_lem_example =
    check_protected_tour_lem integer_ops sample around checked sample-IsWellFormed checked_eq
