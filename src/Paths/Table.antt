-- ===== src/Paths/Table.antt =====
-- src/cpu/path_system.cpp: the compatibility table, PathCompatibilityTable::Covers and
-- EvaluatePathCompatibility. The table keeps the bit of an outside matching and an inside matching at
-- bit outside_index % 64 of a 64-bit word.
pub mod Bits
pub mod Covers
pub mod Answers
use Prim.Native.Nat.{bit_or}
use Prim.Native.String.{String}
use cuda_edge_elimination.Base.{
  ℕ, zero, suc, ◌+◌, ◌-◌, ◌*◌, ◌/◌, ◌%◌, ◌^◌, List, [], ◌∷◌, Bool, true, false, not, ◌&&◌, ◌||◌,
  ltb, leb, ◌==◌, if◌then◌else◌, length, get_or, set, replicate, map,
}
use cuda_edge_elimination.Base.Int.{ℤ, negsuc}
use cuda_edge_elimination.Base.Outcome.{Outcome, ok, err, Error, throw_if, ◌>>=◌, ◌>>◌}
use cuda_edge_elimination.Graph.Hash.{hash_bytes}
use cuda_edge_elimination.Paths.{
  EndpointMatching, validate_path_count, enumerate_outside_matchings, enumerate_inside_matchings,
  is_alternating_hamiltonian_cycle, max_gpu_path_count, empty_matching,
}

pub record PathCompatibilityTable : Type 0 where
  pub path_count : ℕ
  pub outside_count : ℕ
  pub inside_count : ℕ
  pub words_per_inside : ℕ
  pub coverage : List ℕ
  pub generator_hash : ℕ

-- std::uint64_t{1} << bit, for a bit below 64.
abbrev pub one_at : ℕ → ℕ
one_at zero = 1
one_at (suc bit) = 2 * one_at bit

-- The given bit of a word.
abbrev pub digit : ℕ → ℕ → ℕ
digit word zero = word % 2
digit word (suc bit) = digit (word / 2) bit

unfoldable pub covers : PathCompatibilityTable → ℕ → ℕ → Outcome Bool
covers table outside_index inside_index = do
  throw_if (leb table.outside_count outside_index || leb table.inside_count inside_index)
      Error.out_of_range
  let word_index = inside_index * table.words_per_inside + outside_index / 64
  throw_if (leb (length table.coverage) word_index) Error.logic_error
  ok (not (digit (get_or table.coverage word_index 0) (outside_index % 64) == 0))

-- The bytes of "CUDAEE_PATH_COMPATIBILITY_V1".
abbrev domain : List ℕ
domain =
    67 ∷ 85 ∷ 68 ∷ 65 ∷ 69 ∷ 69 ∷ 95 ∷ 80 ∷ 65 ∷ 84 ∷ 72 ∷ 95 ∷ 67 ∷ 79 ∷ 77 ∷ 80 ∷ 65 ∷ 84 ∷ 73
    ∷ 66 ∷ 73 ∷ 76 ∷ 73 ∷ 84 ∷ 89 ∷ 95 ∷ 86 ∷ 49 ∷ []

-- HashByte, HashUint32 and HashUint64 over a list of values of `size` bytes.
abbrev hash_all : ℕ → ℕ → List ℕ → ℕ
hash_all hash size [] = hash
hash_all hash size (value ∷ values) = hash_all (hash_bytes hash value size) size values

pub compute_generator_hash : PathCompatibilityTable → ℕ
compute_generator_hash table =
    let header =
      table.path_count ∷ table.outside_count ∷ table.inside_count ∷ table.words_per_inside ∷ [] in
    hash_all (hash_all (hash_all 14695981039346656037 1 domain) 4 header) 8 table.coverage

-- The inner loop: the outside matchings from `outside_index` on, against one inside matching whose
-- words begin at `row`.
pub mark_row : ℕ → ℕ → EndpointMatching → ℕ → List EndpointMatching → List ℕ → List ℕ
mark_row path_count row inside outside_index [] coverage = coverage
mark_row path_count row inside outside_index (outside ∷ later) coverage =
    let word_index = row + outside_index / 64 in
    mark_row path_count row inside (suc outside_index) later (
      if is_alternating_hamiltonian_cycle outside inside path_count
      then set coverage word_index
          (bit_or (get_or coverage word_index 0) (one_at (outside_index % 64)))
      else coverage)

-- The outer loop, from `inside_index` on.
pub mark_rows : ℕ → ℕ → ℕ → List EndpointMatching → List EndpointMatching → List ℕ → List ℕ
unfolding mark_row
mark_rows path_count words inside_index [] outside coverage = coverage
mark_rows path_count words inside_index (inside ∷ later) outside coverage =
    mark_rows path_count words (suc inside_index) later outside
      (mark_row path_count (inside_index * words) inside 0 outside coverage)

unfoldable pub build_path_compatibility_table : ℕ → Outcome PathCompatibilityTable
unfolding validate_path_count compute_generator_hash mark_rows
build_path_compatibility_table path_count = do
  validate_path_count path_count
  throw_if (ltb max_gpu_path_count path_count) Error.invalid_argument
  outside ← enumerate_outside_matchings path_count
  inside ← enumerate_inside_matchings path_count
  throw_if (ltb (2 ^ 32 - 1) (length outside) || ltb (2 ^ 32 - 1) (length inside))
      Error.overflow_error
  let words = (length outside + 63) / 64
  let table : PathCompatibilityTable = record {
    path_count = path_count;
    outside_count = length outside;
    inside_count = length inside;
    words_per_inside = words;
    coverage = mark_rows path_count words 0 inside outside (replicate (length inside * words) 0);
    generator_hash = 0;
  }
  ok (record table { generator_hash = compute_generator_hash table })

pub data PathCompatibilityBackend : Type 0 where
  auto_backend cpu_backend cuda_backend : PathCompatibilityBackend

pub record PathCompatibilityQuery : Type 0 where
  pub outside_index : ℕ
  pub inside_index : ℕ

pub record PathCompatibilityBatchResult : Type 0 where
  pub compatible : List ℕ
  pub backend : String
  pub selected_device : ℤ
  pub generator_hash : ℕ
  pub cpu_verified : Bool

-- PathCompatibilityCudaAvailable and LookupPathCompatibilityCuda: whether there is a device, and its
-- answers with its number. It is untrusted: nothing is assumed of its answers.
pub record PathDevice : Type 0 where
  pub available : Bool
  pub lookup : PathCompatibilityTable → List PathCompatibilityQuery → Outcome (List ℕ × ℤ)

abbrev pub code : Bool → ℕ
code b = if b then 1 else 0

-- outside[index], for an index in range.
abbrev pub at : List EndpointMatching → ℕ → EndpointMatching
at matchings index = get_or matchings index (empty_matching 0)

-- What the independent check computes for a query.
abbrev pub expected_of :
    ℕ → List EndpointMatching → List EndpointMatching → PathCompatibilityQuery → Bool
expected_of path_count outside inside query =
    is_alternating_hamiltonian_cycle (at outside query.outside_index) (at inside query.inside_index)
      path_count

pub check_queries :
    List EndpointMatching → List EndpointMatching → List PathCompatibilityQuery → Outcome (Unit {0})
check_queries outside inside [] = ok tt
check_queries outside inside (query ∷ queries) =
    throw_if (leb (length outside) query.outside_index || leb (length inside) query.inside_index)
      Error.out_of_range
    >>= λ _. check_queries outside inside queries

pub cover_queries : PathCompatibilityTable → List PathCompatibilityQuery → Outcome (List ℕ)
cover_queries table [] = ok []
cover_queries table (query ∷ queries) = do
  here ← covers table query.outside_index query.inside_index
  rest ← cover_queries table queries
  ok (code here ∷ rest)

-- The final loop, for as many answers as queries.
pub recheck :
    ℕ
    → List EndpointMatching
    → List EndpointMatching
    → List PathCompatibilityQuery
    → List ℕ
    → Outcome (Unit {0})
recheck path_count outside inside [] [] = ok tt
recheck path_count outside inside [] (answer ∷ answers) = err Error.logic_error
recheck path_count outside inside (query ∷ queries) [] = err Error.logic_error
recheck path_count outside inside (query ∷ queries) (answer ∷ answers) =
    let wanted = expected_of path_count outside inside query in
    throw_if (if wanted then answer == 0 else not (answer == 0)) Error.runtime_error >>= λ _.
    recheck path_count outside inside queries answers

abbrev pub asks_cpu : PathCompatibilityBackend → Bool
asks_cpu cpu_backend = true
asks_cpu _ = false

module _ (device : PathDevice) where
  abbrev pub use_cuda : PathCompatibilityBackend → Bool
  use_cuda auto_backend = device.available
  use_cuda cpu_backend = false
  use_cuda cuda_backend = true

  -- The answers of the device or of the table, not checked yet.
  pub answers :
      PathCompatibilityTable
      → List PathCompatibilityQuery
      → PathCompatibilityBackend
      → Outcome PathCompatibilityBatchResult
  unfolding cover_queries
  answers table queries backend =
      if use_cuda backend
      then (do
        throw_if (not device.available) Error.runtime_error
        (compatible, selected) ← device.lookup table queries
        ok (record {
          compatible = compatible;
          backend = "cuda";
          selected_device = selected;
          generator_hash = table.generator_hash;
          cpu_verified = false;
        }))
      else (do
        compatible ← cover_queries table queries
        ok (record {
          compatible = compatible;
          backend = "cpu";
          selected_device = negsuc 0;
          generator_hash = table.generator_hash;
          cpu_verified = false;
        }))

  unfoldable pub evaluate_path_compatibility :
      ℕ
      → List PathCompatibilityQuery
      → PathCompatibilityBackend
      → Outcome PathCompatibilityBatchResult
  unfolding validate_path_count check_queries answers recheck
  evaluate_path_compatibility path_count queries backend = do
    validate_path_count path_count
    outside ← enumerate_outside_matchings path_count
    inside ← enumerate_inside_matchings path_count
    check_queries outside inside queries
    (if ltb max_gpu_path_count path_count
        then ok (record {
          compatible = map (λ query. code (expected_of path_count outside inside query)) queries;
          backend = if asks_cpu backend then "cpu" else "cpu-fallback-m>5";
          selected_device = negsuc 0;
          generator_hash = 0;
          cpu_verified = true;
        })
        else (build_path_compatibility_table path_count >>= λ table.
            answers table queries backend >>= λ result.
            throw_if (not (length result.compatible == length queries)) Error.logic_error >>= λ _.
            recheck path_count outside inside queries result.compatible >>= λ _.
            ok (record result { cpu_verified = true })))
