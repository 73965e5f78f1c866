-- ===== src/Paths/Table/Answers.antt =====
-- EvaluatePathCompatibility (src/cpu/path_system.cpp): its answers.
pub mod Returns
use cuda_edge_elimination.Base.{
  ℕ, zero, suc, ◌≤◌, ◌<◌, ◌≡◌, inl, inr, refl, sym, ap, ◌∙◌, arith, List, [], ◌∷◌, Bool, true,
  false, Bool-cases, length, map, not, ◌==◌, subst, ltb, All, ◌||◌, ◌-◌, ◌^◌,
}
use cuda_edge_elimination.Base.Outcome.{ok, Outcome-cases}
use cuda_edge_elimination.Paths.{
  EndpointMatching, enumerate_outside_matchings, enumerate_inside_matchings, validate_path_count,
  max_gpu_path_count, times_from, add_pair, empty_matching, permutations_from, permutation_fuel,
  count_up, outside_permutations, expected_outside_matching_count,
}
use cuda_edge_elimination.Paths.Inside.{odd_product}
use cuda_edge_elimination.Paths.Inside.Complete.{enumerate_inside_matchings-length}
use cuda_edge_elimination.Paths.Table.{
  PathCompatibilityTable, PathCompatibilityQuery, PathCompatibilityBackend,
  PathCompatibilityBatchResult, PathDevice, build_path_compatibility_table, code, expected_of,
  check_queries, cover_queries, recheck, answers, evaluate_path_compatibility, cpu_backend,
}
use cuda_edge_elimination.Paths.Table.Covers.Rows.{covers-build_path_compatibility_table}

abbrev pub is_yes : ℕ → Bool
is_yes answer = not (answer == 0)

recheck-answers :
    (path_count : ℕ) (outside inside : List EndpointMatching)
    (queries : List PathCompatibilityQuery) (given : List ℕ)
    → recheck path_count outside inside queries given ≡ ok tt
    → map is_yes given ≡ map (expected_of path_count outside inside) queries
unfolding recheck
recheck-answers path_count outside inside [] [] h = refl
recheck-answers path_count outside inside [] (a ∷ given) h = absurd (ground arith)
recheck-answers path_count outside inside (q ∷ queries) [] h = absurd (ground arith)
recheck-answers path_count outside inside (q ∷ queries) (a ∷ given) h =
    elim (Bool-cases (expected_of path_count outside inside q)) [
      | inl wanted ↦ elim (Bool-cases (a == 0)) [
        | inl none ↦ absurd (ground arith)
        | inr some ↦
            let rest = recheck-answers path_count outside inside queries given (ground arith) in
            ground arith
      ]
      | inr unwanted ↦ elim (Bool-cases (a == 0)) [
        | inl none ↦
            let rest = recheck-answers path_count outside inside queries given (ground arith) in
            ground arith
        | inr some ↦ absurd (ground arith)
      ]
    ]

code-is_yes : (b : Bool) → is_yes (code b) ≡ b
code-is_yes true = refl
code-is_yes false = refl

map-codes :
    (f : PathCompatibilityQuery → Bool) (queries : List PathCompatibilityQuery)
    → map is_yes (map (λ q. code (f q)) queries) ≡ map f queries
map-codes f [] = refl
map-codes f (q ∷ queries) =
    ap (λ b. b ∷ map is_yes (map (λ q. code (f q)) queries)) (code-is_yes (f q))
    ∙ ap (λ bs. f q ∷ bs) (map-codes f queries)

-- EvaluatePathCompatibility implements the direct test: whatever the device answers and whichever
-- backend is asked for, a result that it returns has one answer for each query, in order, which is
-- non-zero exactly when the query's outside and inside matchings close to one alternating cycle.
pub evaluate_path_compatibility_lem :
    (device : PathDevice) (path_count : ℕ) (queries : List PathCompatibilityQuery)
    (backend : PathCompatibilityBackend) (result : PathCompatibilityBatchResult)
    (outside inside : List EndpointMatching)
    → evaluate_path_compatibility device path_count queries backend ≡ ok result
    → enumerate_outside_matchings path_count ≡ ok outside
    → enumerate_inside_matchings path_count ≡ ok inside
    → map is_yes result.compatible ≡ map (expected_of path_count outside inside) queries
unfolding evaluate_path_compatibility
evaluate_path_compatibility_lem device path_count queries backend result outside inside h os is =
    elim (Outcome-cases (validate_path_count path_count)) [
      | inr (x, bad) ↦ absurd (ground arith)
      | inl (tt, valid) ↦ elim (Outcome-cases (check_queries outside inside queries)) [
        | inr (x, bad) ↦ absurd (ground arith)
        | inl (tt, in_range) ↦ elim (Bool-cases (ltb max_gpu_path_count path_count)) [
          | inl large ↦
              let same : map (λ q. code (expected_of path_count outside inside q)) queries
                  ≡ result.compatible =
                ground arith in
              ap (map is_yes) (sym same) ∙ map-codes (expected_of path_count outside inside) queries
          | inr small ↦ elim (Outcome-cases (build_path_compatibility_table path_count)) [
            | inr (x, bad) ↦ absurd (ground arith)
            | inl (table, built) ↦ elim (Outcome-cases (answers device table queries backend)) [
              | inr (x, bad) ↦ absurd (ground arith)
              | inl (given, answered) ↦
                  elim (Bool-cases (length given.compatible == length queries)) [
                    | inr short ↦ absurd (ground arith)
                    | inl enough ↦
                        elim (Outcome-cases
                          (recheck path_count outside inside queries given.compatible)) [
                            | inr (x, bad) ↦ absurd (ground arith)
                            | inl (tt, checked) ↦
                                let same : given.compatible ≡ result.compatible = ground arith in
                                ap (map is_yes) (sym same)
                                ∙ recheck-answers path_count outside inside queries given.compatible
                                    checked
                          ]
                  ]
            ]
          ]
        ]
      ]
    ]
