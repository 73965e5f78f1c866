-- ===== src/Paths.antt =====
-- src/cpu/path_system.cpp and include/cuda_edge_elimination/path_system.hpp: matchings of the ends of
-- up to seven paths, their enumeration, and the test whether an outside and an inside matching close
-- to one alternating cycle. Times and texts are not kept. A std::uint8_t keeps its wrap-around.
pub mod Perfect
pub mod Cycle
pub mod Inside
pub mod Table
pub mod Normalize
pub mod Outside
use cuda_edge_elimination.Base.{
  ℕ, zero, suc, ◌+◌, ◌-◌, ◌*◌, ◌/◌, ◌%◌, ◌^◌, List, [], ◌∷◌, ◌++◌, Bool, true, false, not, ◌&&◌,
  ◌||◌, ltb, leb, ◌==◌, if◌then◌else◌, length, get_or, set, replicate, Option, none, some,
}
use cuda_edge_elimination.Base.Outcome.{Outcome, ok, err, Error, throw_if, ◌>>=◌, ◌>>◌}

abbrev pub max_testable_path_count : ℕ
max_testable_path_count = 7

abbrev pub max_gpu_path_count : ℕ
max_gpu_path_count = 5

abbrev pub max_path_endpoints : ℕ
max_path_endpoints = 2 * max_testable_path_count

abbrev pub unmatched_endpoint : ℕ
unmatched_endpoint = 255

pub record EndpointMatching : Type 0 where
  pub endpoint_count : ℕ
  pub mate : List ℕ

-- mate[endpoint]; the source never reads out of the array.
abbrev pub mate_of : EndpointMatching → ℕ → ℕ
mate_of matching endpoint = get_or matching.mate endpoint unmatched_endpoint

pub validate_path_count : ℕ → Outcome (Unit {0})
validate_path_count path_count =
    throw_if (path_count == 0 || ltb max_testable_path_count path_count) Error.invalid_argument

-- matching->mate[first] = second; matching->mate[second] = first;
abbrev pub join : EndpointMatching → ℕ → ℕ → EndpointMatching
join matching first second = record matching {
  mate = set (set matching.mate first (second % 256)) second (first % 256);
}

pub add_pair : EndpointMatching → ℕ → ℕ → Outcome EndpointMatching
add_pair matching first second = do
  throw_if
      ((first == second
          || (leb matching.endpoint_count first || leb matching.endpoint_count second))
        || (not (mate_of matching first == unmatched_endpoint)
            || not (mate_of matching second == unmatched_endpoint)))
      Error.logic_error
  ok (join matching first second)

abbrev pub empty_matching : ℕ → EndpointMatching
empty_matching path_count = record {
  endpoint_count = 2 * path_count % 256;
  mate = replicate max_path_endpoints unmatched_endpoint;
}

-- The free endpoints among `count` from `endpoint` on, in order.
abbrev pub free_from : EndpointMatching → ℕ → ℕ → List ℕ
free_from matching endpoint zero = []
free_from matching endpoint (suc count) =
    let rest = free_from matching (suc endpoint) count in
    if mate_of matching endpoint == unmatched_endpoint then endpoint ∷ rest else rest

-- What the body of a loop appends for each endpoint.
abbrev pub for_each : (ℕ → List EndpointMatching) → List ℕ → List EndpointMatching
for_each body [] = []
for_each body (endpoint ∷ rest) = body endpoint ++ for_each body rest

-- EnumerateInsideRecursive. The first free endpoint is joined with each later free one in turn; the
-- source undoes the join after the call, which here leaves `matching` as it was. A call joins two
-- endpoints, so that fuel of one more than the number of endpoints is enough.
pub enumerate_inside_recursive : ℕ → EndpointMatching → List EndpointMatching
enumerate_inside_recursive zero matching = []
enumerate_inside_recursive (suc fuel) matching =
    elim (free_from matching 0 matching.endpoint_count) [
      | [] ↦ matching ∷ []
      | first ∷ later ↦
          for_each (λ second. enumerate_inside_recursive fuel (join matching first second)) later
    ]

-- The loop `for (factor = from; ...; ++factor)` over `count` factors.
abbrev pub times_from : ℕ → ℕ → ℕ → ℕ → ℕ
times_from factor step zero product = product
times_from factor step (suc count) product =
    times_from (factor + step) step count (product * factor)

pub expected_outside_matching_count : ℕ → Outcome ℕ
unfolding validate_path_count
expected_outside_matching_count path_count = do
  validate_path_count path_count
  ok (times_from 2 1 (path_count - 2) (2 ^ (path_count - 1)))

pub expected_inside_matching_count : ℕ → Outcome ℕ
unfolding validate_path_count
expected_inside_matching_count path_count = do
  validate_path_count path_count
  ok (times_from 1 2 path_count 1)

-- std::next_permutation: on an ascending list, put `x` for the first element above it.
pub swap_above : ℕ → List ℕ → Option (ℕ × List ℕ)
swap_above x [] = none
swap_above x (y ∷ ys) =
    let later = swap_above x ys in
    if ltb x y
    then some (y, x ∷ ys)
    else elim later [ none ↦ none | some (z, zs) ↦ some (z, y ∷ zs) ]

abbrev pub reverse_onto : List ℕ → List ℕ → List ℕ
reverse_onto [] ys = ys
reverse_onto (x ∷ xs) ys = reverse_onto xs (x ∷ ys)

-- The next permutation, or none after the last: where the tail has none it is descending.
pub next_permutation : List ℕ → Option (List ℕ)
unfolding swap_above
next_permutation [] = none
next_permutation (x ∷ xs) = elim (next_permutation xs) [
  | some ys ↦ some (x ∷ ys)
  | none ↦ elim (swap_above x (reverse_onto xs [])) [ none ↦ none | some (y, ys) ↦ some (y ∷ ys) ]
]

-- The permutations from the given one on, at most `fuel`.
pub permutations_from : ℕ → List ℕ → List (List ℕ)
unfolding next_permutation
permutations_from zero permutation = []
permutations_from (suc fuel) permutation =
    permutation
    ∷ elim (next_permutation permutation) [ none ↦ [] | some next ↦ permutations_from fuel next ]

abbrev pub reversed_bit : ℕ → ℕ → Bool
reversed_bit orientations position = not (orientations / 2 ^ position % 2 == 0)

-- The loop over the positions of a permutation.
pub outside_matching : ℕ → ℕ → ℕ → EndpointMatching → List ℕ → Outcome EndpointMatching
unfolding add_pair
outside_matching orientations position outgoing matching [] = add_pair matching outgoing 0
outside_matching orientations position outgoing matching (path ∷ rest) =
    let reversed = reversed_bit orientations position in
    add_pair matching outgoing (2 * path + (if reversed then 1 else 0)) >>= λ next.
    outside_matching orientations (suc position) (2 * path + (if reversed then 0 else 1)) next rest

-- `count` orientations of one permutation, from `orientations` on.
pub outside_orientations : ℕ → List ℕ → ℕ → ℕ → Outcome (List EndpointMatching)
unfolding outside_matching
outside_orientations path_count permutation orientations zero = ok []
outside_orientations path_count permutation orientations (suc count) = do
  matching ← outside_matching orientations 0 1 (empty_matching path_count) permutation
  rest ← outside_orientations path_count permutation (suc orientations) count
  ok (matching ∷ rest)

pub outside_permutations : ℕ → List (List ℕ) → Outcome (List EndpointMatching)
unfolding outside_orientations
outside_permutations path_count [] = ok []
outside_permutations path_count (permutation ∷ later) = do
  here ← outside_orientations path_count permutation 0 (2 ^ (path_count - 1))
  rest ← outside_permutations path_count later
  ok (here ++ rest)

abbrev pub count_up : ℕ → ℕ → List ℕ
count_up from zero = []
count_up from (suc count) = from ∷ count_up (suc from) count

-- (path_count - 1)! permutations, which is at most 6! = 720.
abbrev pub permutation_fuel : ℕ
permutation_fuel = 721

unfoldable pub enumerate_outside_matchings : ℕ → Outcome (List EndpointMatching)
unfolding validate_path_count expected_outside_matching_count add_pair permutations_from
    outside_permutations
enumerate_outside_matchings path_count = do
  validate_path_count path_count
  expected ← expected_outside_matching_count path_count
  (if path_count == 1
      then (add_pair (empty_matching path_count) 0 1 >>= λ matching. ok (matching ∷ []))
      else (outside_permutations path_count
            (permutations_from permutation_fuel (count_up 1 (path_count - 1)))
          >>= λ result.
              throw_if (not (length result == expected)) Error.logic_error >>= λ _. ok result))

unfoldable pub enumerate_inside_matchings : ℕ → Outcome (List EndpointMatching)
unfolding validate_path_count expected_inside_matching_count enumerate_inside_recursive
enumerate_inside_matchings path_count = do
  validate_path_count path_count
  expected ← expected_inside_matching_count path_count
  let result = enumerate_inside_recursive (2 * path_count + 1) (empty_matching path_count)
  throw_if (not (length result == expected)) Error.logic_error
  ok result

abbrev pub paired : EndpointMatching → ℕ → Bool
paired matching endpoint =
    let partner = mate_of matching endpoint in
    not (
      (leb matching.endpoint_count partner || partner == endpoint)
      || not (mate_of matching partner == endpoint))

-- The loop over `count` endpoints from `endpoint` on.
pub all_paired : EndpointMatching → ℕ → ℕ → Bool
all_paired matching endpoint zero = true
all_paired matching endpoint (suc count) =
    paired matching endpoint && all_paired matching (suc endpoint) count

unfoldable pub is_perfect_endpoint_matching : EndpointMatching → ℕ → Bool
unfolding all_paired
is_perfect_endpoint_matching matching path_count =
    not (
      (path_count == 0 || ltb max_testable_path_count path_count)
      || not (matching.endpoint_count == 2 * path_count))
    && all_paired matching 0 matching.endpoint_count

abbrev pub follow : EndpointMatching → EndpointMatching → ℕ → ℕ → ℕ
follow outside inside steps current =
    if steps % 2 == 0 then mate_of inside current else mate_of outside current

-- The while loop: the endpoint where it stops and the number of steps. A step marks an endpoint, so
-- that fuel of one more than the number of endpoints is enough.
unfoldable pub walk : ℕ → EndpointMatching → EndpointMatching → List Bool → ℕ → ℕ → Option (ℕ × ℕ)
walk zero outside inside visited current steps = none
walk (suc fuel) outside inside visited current steps =
    let rest =
      walk fuel outside inside (set visited current true) (follow outside inside steps current)
        (suc steps) in
    if get_or visited current true then some (current, steps) else rest

abbrev pub closes : ℕ → Option (ℕ × ℕ) → Bool
closes path_count none = false
closes path_count (some (current, steps)) = steps == 2 * path_count && current == 0

unfoldable pub is_alternating_hamiltonian_cycle : EndpointMatching → EndpointMatching → ℕ → Bool
unfolding is_perfect_endpoint_matching walk
is_alternating_hamiltonian_cycle outside inside path_count =
    (is_perfect_endpoint_matching outside path_count
      && is_perfect_endpoint_matching inside path_count)
    && closes path_count
        (walk (suc max_path_endpoints) outside inside (replicate max_path_endpoints false) 0 0)
