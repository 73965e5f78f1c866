-- ===== src/Paths/Table/Answers/Returns.antt =====
-- EvaluatePathCompatibility (src/cpu/path_system.cpp) with the CPU backend.
use cuda_edge_elimination.Base.{
  ℕ, zero, suc, ◌≤◌, ◌<◌, ◌≡◌, inl, inr, refl, sym, ap, ◌∙◌, arith, List, [], ◌∷◌, Bool-cases,
  length, map, ◌==◌, subst, ltb, All, ◌||◌, ◌-◌, ◌^◌,
}
use cuda_edge_elimination.Base.Outcome.{ok, Outcome-cases}
use cuda_edge_elimination.Paths.{
  EndpointMatching, enumerate_outside_matchings, enumerate_inside_matchings, validate_path_count,
  max_gpu_path_count, times_from, add_pair, empty_matching, permutations_from, permutation_fuel,
  count_up, outside_permutations, expected_outside_matching_count,
}
use cuda_edge_elimination.Paths.Inside.{odd_product}
use cuda_edge_elimination.Paths.Outside.{outside_count, enumerate_outside_matchings-length}
use cuda_edge_elimination.Paths.Inside.Complete.{enumerate_inside_matchings-length}
use cuda_edge_elimination.Paths.Table.{
  PathCompatibilityTable, PathCompatibilityQuery, PathCompatibilityBatchResult, PathDevice,
  build_path_compatibility_table, code, expected_of, check_queries, cover_queries, recheck, answers,
  evaluate_path_compatibility, cpu_backend,
}
use cuda_edge_elimination.Paths.Table.Covers.Rows.{covers-build_path_compatibility_table}

-- A query that names an outside and an inside matching.
abbrev InLists : List EndpointMatching → List EndpointMatching → PathCompatibilityQuery → Type 0
InLists outside inside query =
    (query.outside_index < length outside) × (query.inside_index < length inside)

check_queries-ok :
    (outside inside : List EndpointMatching) (queries : List PathCompatibilityQuery)
    → All (InLists outside inside) queries
    → check_queries outside inside queries ≡ ok tt
unfolding check_queries
check_queries-ok outside inside [] h = refl
check_queries-ok outside inside (q ∷ queries) ((a, b), h) =
    let rest = check_queries-ok outside inside queries h in ground arith

cover_queries-ok :
    (path_count : ℕ) (outside inside : List EndpointMatching) (table : PathCompatibilityTable)
    (queries : List PathCompatibilityQuery)
    → build_path_compatibility_table path_count ≡ ok table
    → enumerate_outside_matchings path_count ≡ ok outside
    → enumerate_inside_matchings path_count ≡ ok inside
    → All (InLists outside inside) queries
    → cover_queries table queries
      ≡ ok (map (λ q. code (expected_of path_count outside inside q)) queries)
unfolding cover_queries
cover_queries-ok path_count outside inside table [] built os is h = refl
cover_queries-ok path_count outside inside table (q ∷ queries) built os is ((a, b), h) =
    let rest = cover_queries-ok path_count outside inside table queries built os is h in
    let here =
      covers-build_path_compatibility_table path_count outside inside table q.outside_index
        q.inside_index built os is a b in
    (ground arith)

recheck-codes :
    (path_count : ℕ) (outside inside : List EndpointMatching)
    (queries : List PathCompatibilityQuery)
    → (recheck path_count outside inside queries
          (map (λ q. code (expected_of path_count outside inside q)) queries)
        ≡ ok tt)
      × (length (map (λ q. code (expected_of path_count outside inside q)) queries)
          ≡ length queries)
unfolding recheck
recheck-codes path_count outside inside [] = (refl, refl)
recheck-codes path_count outside inside (q ∷ queries) =
    let (rest, size) = recheck-codes path_count outside inside queries in
    elim (Bool-cases (expected_of path_count outside inside q)) [
      | inl wanted ↦ ((ground arith), ap suc size)
      | inr unwanted ↦ ((ground arith), ap suc size)
    ]

small-cases : (Q : ℕ → Type 0) → Q 0 → Q 1 → Q 2 → Q 3 → Q 4 → Q 5 → (n : ℕ) → n ≤ 5 → Q n
small-cases Q a b c d e f zero few = a
small-cases Q a b c d e f (suc zero) few = b
small-cases Q a b c d e f (suc (suc zero)) few = c
small-cases Q a b c d e f (suc (suc (suc zero))) few = d
small-cases Q a b c d e f (suc (suc (suc (suc zero)))) few = e
small-cases Q a b c d e f (suc (suc (suc (suc (suc zero))))) few = f
small-cases Q a b c d e f (suc (suc (suc (suc (suc (suc n)))))) few = absurd (omega arith)

outside_formula : ℕ → ℕ
outside_formula n = times_from 2 1 (n - 2) (2 ^ (n - 1))

outside_formula-few : (n : ℕ) → n ≤ 5 → outside_formula n ≤ 1000
unfolding outside_formula
outside_formula-few n few =
    small-cases (λ n. outside_formula n ≤ 1000) (omega arith) (omega arith) (omega arith)
      (omega arith) (omega arith) (omega arith) n few

odd_product-few : (n : ℕ) → n ≤ 5 → odd_product n ≤ 1000
odd_product-few n few =
    small-cases (λ n. odd_product n ≤ 1000) (omega arith) (omega arith) (omega arith) (omega arith)
      (omega arith) (omega arith) n few

outside-few :
    (path_count : ℕ) (outside : List EndpointMatching)
    → enumerate_outside_matchings path_count ≡ ok outside
    → path_count ≤ 5
    → length outside ≤ 1000
unfolding enumerate_outside_matchings validate_path_count expected_outside_matching_count
    outside_formula
outside-few path_count outside h few =
    let bound = outside_formula-few path_count few in
    elim (Bool-cases (path_count == 0 || ltb 7 path_count)) [
      | inl bad ↦ absurd (ground arith)
      | inr fine ↦ elim (Bool-cases (path_count == 1)) [
        | inl single ↦ elim (Outcome-cases (add_pair (empty_matching path_count) 0 1)) [
          | inr (x, bad) ↦ absurd (ground arith)
          | inl (m, joined) ↦
              let same : m ∷ [] ≡ outside = ground arith in let size = ap length same in omega arith
        ]
        | inr several ↦
            let paths = permutations_from permutation_fuel (count_up 1 (path_count - 1)) in
            elim (Outcome-cases (outside_permutations path_count paths)) [
              | inr (x, bad) ↦ absurd (ground arith)
              | inl (found, ran) ↦ elim (Bool-cases (length found == outside_formula path_count)) [
                | inl right ↦
                    let same : found ≡ outside = ground arith in
                    let size = ap length same in ground arith
                | inr wrong ↦ absurd (ground arith)
              ]
            ]
      ]
    ]

inside-few :
    (path_count : ℕ) (inside : List EndpointMatching)
    → enumerate_inside_matchings path_count ≡ ok inside
    → path_count ≤ 5
    → 0 < path_count
    → length inside ≤ 1000
inside-few path_count inside h few several =
    let (result, found, size) =
      enumerate_inside_matchings-length path_count several (omega arith) in
    let same : ok result ≡ ok inside = sym found ∙ h in
    let equal : result ≡ inside = ground arith in
    let bound = odd_product-few path_count few in let long = ap length equal in omega arith

build-ok :
    (path_count : ℕ) (outside inside : List EndpointMatching)
    → enumerate_outside_matchings path_count ≡ ok outside
    → enumerate_inside_matchings path_count ≡ ok inside
    → 0 < path_count
    → path_count ≤ 5
    → (table : PathCompatibilityTable) × (build_path_compatibility_table path_count ≡ ok table)
unfolding build_path_compatibility_table validate_path_count
build-ok path_count outside inside os is several few =
    let a = outside-few path_count outside os few in
    let b = inside-few path_count inside is few several in
    elim (Outcome-cases (build_path_compatibility_table path_count)) [
      | inl found ↦ found
      | inr (x, bad) ↦ absurd (ground arith)
    ]

answers-cpu :
    (device : PathDevice) (table : PathCompatibilityTable) (queries : List PathCompatibilityQuery)
    (given : List ℕ)
    → cover_queries table queries ≡ ok given
    → (result : PathCompatibilityBatchResult) × (answers device table queries cpu_backend
        ≡ ok result)
      × (result.compatible ≡ given)
unfolding answers
answers-cpu device table queries given h =
    elim (Outcome-cases (answers device table queries cpu_backend)) [
      | inl (result, e) ↦ (result, e, ground arith)
      | inr (x, bad) ↦ absurd (ground arith)
    ]

evaluate_path_compatibility-given :
    (device : PathDevice) (path_count : ℕ) (queries : List PathCompatibilityQuery)
    (outside inside : List EndpointMatching)
    → enumerate_outside_matchings path_count ≡ ok outside
    → enumerate_inside_matchings path_count ≡ ok inside
    → 0 < path_count
    → path_count ≤ 7
    → All (InLists outside inside) queries
    → (result : PathCompatibilityBatchResult) × (evaluate_path_compatibility device path_count
          queries cpu_backend
        ≡ ok result)
unfolding evaluate_path_compatibility validate_path_count
evaluate_path_compatibility-given device path_count queries outside inside os is several few
      in_range =
    let checked = check_queries-ok outside inside queries in_range in
    elim (Bool-cases (ltb max_gpu_path_count path_count)) [
      | inl large ↦
          elim (Outcome-cases (evaluate_path_compatibility device path_count queries cpu_backend)) [
            | inl found ↦ found
            | inr (x, bad) ↦ absurd (ground arith)
          ]
      | inr small ↦
          let (table, built) = build-ok path_count outside inside os is several (ground arith) in
          let covered =
            cover_queries-ok path_count outside inside table queries built os is in_range in
          let (given, answered, same) =
            answers-cpu device table queries
              (map (λ q. code (expected_of path_count outside inside q)) queries) covered in
          let (passes, size) = recheck-codes path_count outside inside queries in
          let passes' =
            subst (λ x. recheck path_count outside inside queries x ≡ ok tt) (sym same) passes in
          let size' : length given.compatible ≡ length queries = ap length same ∙ size in
          elim (Outcome-cases (evaluate_path_compatibility device path_count queries cpu_backend)) [
            | inl found ↦ found
            | inr (x, bad) ↦ absurd (ground arith)
          ]
    ]

-- A query that names an outside and an inside matching of so many paths.
abbrev pub InRange : ℕ → PathCompatibilityQuery → Type 0
InRange path_count query =
    (query.outside_index < outside_count path_count) × (query.inside_index < odd_product path_count)

InRange-InLists :
    (path_count : ℕ) (outside inside : List EndpointMatching)
    (queries : List PathCompatibilityQuery)
    → length outside ≡ outside_count path_count
    → length inside ≡ odd_product path_count
    → All (InRange path_count) queries
    → All (InLists outside inside) queries
InRange-InLists path_count outside inside [] size size' h = tt
InRange-InLists path_count outside inside (q ∷ queries) size size' ((a, b), h) = (
  (subst (λ n. q.outside_index < n) (sym size) a, subst (λ n. q.inside_index < n) (sym size') b),
  InRange-InLists path_count outside inside queries size size' h,
)

-- With the CPU backend EvaluatePathCompatibility returns: for a number of paths n from 1 to 7, and
-- queries whose outside index is below (n - 1)! * 2 ^ (n - 1) and whose inside index is below the
-- product of the odd numbers up to 2 n - 1, no check throws: both enumerations have that many
-- entries, and the table's answers pass the independent check.
pub evaluate_path_compatibility_returns :
    (device : PathDevice) (path_count : ℕ) (queries : List PathCompatibilityQuery)
    → 0 < path_count
    → path_count ≤ 7
    → All (InRange path_count) queries
    → (result : PathCompatibilityBatchResult) × (evaluate_path_compatibility device path_count
          queries cpu_backend
        ≡ ok result)
evaluate_path_compatibility_returns device path_count queries several few in_range =
    let (outside, os, size) = enumerate_outside_matchings-length path_count several few in
    let (inside, is, size') = enumerate_inside_matchings-length path_count several few in
    evaluate_path_compatibility-given device path_count queries outside inside os is several few
      (InRange-InLists path_count outside inside queries size size' in_range)
