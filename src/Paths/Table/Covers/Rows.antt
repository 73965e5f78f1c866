-- ===== src/Paths/Table/Covers/Rows.antt =====
-- The loops of BuildPathCompatibilityTable (src/cpu/path_system.cpp), and Covers on their result.
use cuda_edge_elimination.Base.{
  ℕ, zero, suc, ◌+◌, ◌*◌, ◌/◌, ◌%◌, ◌≤◌, ◌<◌, ◌≡◌, ◌≢◌, ◌⊎◌, inl, inr, refl, sym, ap, ◌∙◌, arith,
  List, [], ◌∷◌, Bool, true, false, Bool-cases, length, get_or, replicate, length-replicate,
  get_or-replicate, ltb, ◌||◌, ◌-◌, ◌^◌, not, ◌==◌,
}
use cuda_edge_elimination.Base.Outcome.{ok, Outcome-cases}
use cuda_edge_elimination.Paths.{
  EndpointMatching, enumerate_outside_matchings, enumerate_inside_matchings,
  is_alternating_hamiltonian_cycle, validate_path_count, max_gpu_path_count,
}
use cuda_edge_elimination.Paths.Table.{
  PathCompatibilityTable, digit, covers, mark_row, mark_rows, build_path_compatibility_table, at,
  code,
}
use cuda_edge_elimination.Paths.Table.Bits.{digit-zero}
use cuda_edge_elimination.Paths.Table.Covers.{
  cell, marked, length-marked, marked_self, marked-other, marked-word, apart,
}

module _ (path_count : ℕ) where
  abbrev closed : EndpointMatching → EndpointMatching → Bool
  closed inside outside = is_alternating_hamiltonian_cycle outside inside path_count

  length-mark_row :
      (row : ℕ) (inside : EndpointMatching) (index : ℕ) (os : List EndpointMatching)
      (coverage : List ℕ)
      → length (mark_row path_count row inside index os coverage) ≡ length coverage
  unfolding mark_row
  length-mark_row row inside index [] coverage = refl
  length-mark_row row inside index (o ∷ os) coverage =
      length-mark_row row inside (suc index) os (marked (closed inside o) row index coverage)
      ∙ length-marked (closed inside o) row index coverage

  -- Words outside the row are left alone.
  mark_row-word :
      (row : ℕ) (inside : EndpointMatching) (index : ℕ) (os : List EndpointMatching)
      (coverage : List ℕ) (words word : ℕ)
      → index + length os ≤ 64 * words
      → (word < row) ⊎ (row + words ≤ word)
      → get_or (mark_row path_count row inside index os coverage) word 0 ≡ get_or coverage word 0
  unfolding mark_row
  mark_row-word row inside index [] coverage words word fit away = refl
  mark_row-word row inside index (o ∷ os) coverage words word fit away =
      let other : row + index / 64 ≢ word =
        λ e. elim away [ inl below ↦ absurd (omega arith) | inr above ↦ absurd (omega arith) ] in
      mark_row-word row inside (suc index) os (marked (closed inside o) row index coverage) words
        word (omega arith) away
      ∙ marked-word (closed inside o) row index coverage word other

  -- Cells of the row before the index are left alone.
  mark_row-before :
      (row : ℕ) (inside : EndpointMatching) (index : ℕ) (os : List EndpointMatching)
      (coverage : List ℕ) (words j : ℕ)
      → index + length os ≤ 64 * words
      → row + words ≤ length coverage
      → j < index
      → cell (mark_row path_count row inside index os coverage) row j ≡ cell coverage row j
  unfolding mark_row
  mark_row-before row inside index [] coverage words j fit room before = refl
  mark_row-before row inside index (o ∷ os) coverage words j fit room before =
      let size = length-marked (closed inside o) row index coverage in
      mark_row-before row inside (suc index) os (marked (closed inside o) row index coverage) words
        j (omega arith) (omega arith) (omega arith)
      ∙ marked-other (closed inside o) row index coverage (row + j / 64) (j % 64) (omega arith)
          (apart row index j (λ e. (omega arith)))

  -- The cell of each outside matching tells whether it closes with the inside matching.
  mark_row-cell :
      (row : ℕ) (inside : EndpointMatching) (index : ℕ) (os : List EndpointMatching)
      (coverage : List ℕ) (words : ℕ)
      → index + length os ≤ 64 * words
      → row + words ≤ length coverage
      → ((j : ℕ) → index ≤ j → cell coverage row j ≡ 0)
      → (j : ℕ) → j < length os
      → cell (mark_row path_count row inside index os coverage) row (index + j)
        ≡ code (closed inside (at os j))
  unfolding mark_row
  mark_row-cell row inside index [] coverage words fit room empty j lt = absurd (omega arith)
  mark_row-cell row inside index (o ∷ os) coverage words fit room empty zero lt =
      let size = length-marked (closed inside o) row index coverage in
      let e : index + 0 ≡ index = omega arith in
      ap (cell (mark_row path_count row inside index (o ∷ os) coverage) row) e
      ∙ mark_row-before row inside (suc index) os (marked (closed inside o) row index coverage)
          words index (omega arith) (omega arith) (omega arith)
      ∙ marked_self (closed inside o) row index coverage (omega arith) (empty index (omega arith))
  mark_row-cell row inside index (o ∷ os) coverage words fit room empty (suc j) lt =
      let size = length-marked (closed inside o) row index coverage in
      let e : index + suc j ≡ suc index + j = omega arith in
      ap (cell (mark_row path_count row inside index (o ∷ os) coverage) row) e
      ∙ mark_row-cell row inside (suc index) os (marked (closed inside o) row index coverage) words
          (omega arith) (omega arith)
          (λ k le.
            marked-other (closed inside o) row index coverage (row + k / 64) (k % 64) (omega arith)
              (apart row index k (λ e. (omega arith)))
            ∙ empty k (omega arith))
          j (omega arith)

  length-mark_rows :
      (words index : ℕ) (ins os : List EndpointMatching) (coverage : List ℕ)
      → length (mark_rows path_count words index ins os coverage) ≡ length coverage
  unfolding mark_rows
  length-mark_rows words index [] os coverage = refl
  length-mark_rows words index (i ∷ ins) os coverage =
      length-mark_rows words (suc index) ins os
        (mark_row path_count (index * words) i 0 os coverage)
      ∙ length-mark_row (index * words) i 0 os coverage

  -- The rows before the index are left alone.
  mark_rows-before :
      (words index : ℕ) (ins os : List EndpointMatching) (coverage : List ℕ) (word : ℕ)
      → length os ≤ 64 * words
      → word < index * words
      → get_or (mark_rows path_count words index ins os coverage) word 0 ≡ get_or coverage word 0
  unfolding mark_rows
  mark_rows-before words index [] os coverage word fit before = refl
  mark_rows-before words index (i ∷ ins) os coverage word fit before =
      let next : suc index * words ≡ index * words + words = omega arith in
      mark_rows-before words (suc index) ins os
        (mark_row path_count (index * words) i 0 os coverage) word fit (omega arith)
      ∙ mark_row-word (index * words) i 0 os coverage words word (omega arith) (inl before)

  -- The cell of each pair of matchings tells whether they close to one cycle.
  mark_rows-cell :
      (words index : ℕ) (ins os : List EndpointMatching) (coverage : List ℕ)
      → length os ≤ 64 * words
      → (index + length ins) * words ≤ length coverage
      → ((word : ℕ) → index * words ≤ word → get_or coverage word 0 ≡ 0)
      → (i j : ℕ) → i < length ins
      → j < length os
      → cell (mark_rows path_count words index ins os coverage) ((index + i) * words) j
        ≡ code (closed (at ins i) (at os j))
  unfolding mark_rows
  mark_rows-cell words index [] os coverage fit room empty i j lt lt' = absurd (omega arith)
  mark_rows-cell words index (n ∷ ins) os coverage fit room empty zero j lt lt' =
      let next : suc index * words ≡ index * words + words = omega arith in
      let enough : suc index * words ≤ (index + suc (length ins)) * words = omega arith in
      let e : (index + 0) * words ≡ index * words = omega arith in
      let done = mark_row path_count (index * words) n 0 os coverage in
      ap (λ row. cell (mark_rows path_count words (suc index) ins os done) row j) e
      ∙ ap (λ w. digit w (j % 64))
          (mark_rows-before words (suc index) ins os done (index * words + j / 64) fit
            (omega arith))
      ∙ ap (cell done (index * words)) (let z : j ≡ 0 + j = omega arith in z)
      ∙ mark_row-cell (index * words) n 0 os coverage words (omega arith) (omega arith)
          (λ k le.
            ap (λ w. digit w (k % 64)) (empty (index * words + k / 64) (omega arith))
            ∙ digit-zero (k % 64))
          j lt'
  mark_rows-cell words index (n ∷ ins) os coverage fit room empty (suc i) j lt lt' =
      let next : suc index * words ≡ index * words + words = omega arith in
      let e : (index + suc i) * words ≡ (suc index + i) * words = omega arith in
      let same : (index + suc (length ins)) * words ≡ (suc index + length ins) * words =
        omega arith in
      let done = mark_row path_count (index * words) n 0 os coverage in
      let size = length-mark_row (index * words) n 0 os coverage in
      ap (λ row. cell (mark_rows path_count words (suc index) ins os done) row j) e
      ∙ mark_rows-cell words (suc index) ins os done fit (omega arith)
          (λ word le.
            mark_row-word (index * words) n 0 os coverage words word (omega arith)
              (inr (omega arith))
            ∙ empty word (omega arith))
          i j (omega arith) lt'

build-parts :
    (path_count : ℕ) (outside inside : List EndpointMatching) (table : PathCompatibilityTable)
    → build_path_compatibility_table path_count ≡ ok table
    → enumerate_outside_matchings path_count ≡ ok outside
    → enumerate_inside_matchings path_count ≡ ok inside
    → (table.outside_count ≡ length outside)
      × (table.inside_count ≡ length inside)
      × (table.words_per_inside ≡ (length outside + 63) / 64)
      × (table.coverage
          ≡ mark_rows path_count
              ((length outside + 63) / 64)
              0
              inside
              outside
              (replicate (length inside * ((length outside + 63) / 64)) 0))
unfolding build_path_compatibility_table
build-parts path_count outside inside table built os is =
    elim (Outcome-cases (validate_path_count path_count)) [
      | inr (x, bad) ↦ absurd (ground arith)
      | inl (tt, valid) ↦ elim (Bool-cases (ltb max_gpu_path_count path_count)) [
        | inl bad ↦ absurd (ground arith)
        | inr fine ↦
            elim (Bool-cases
              (ltb (2 ^ 32 - 1) (length outside) || ltb (2 ^ 32 - 1) (length inside))) [
                | inl bad ↦ absurd (ground arith)
                | inr few ↦ (ground arith, ground arith, ground arith, ground arith)
              ]
      ]
    ]

code-bool : (b : Bool) → not (code b == 0) ≡ b
code-bool true = refl
code-bool false = refl

row-fits : (w i n : ℕ) → i < n → i * w + w ≤ n * w
row-fits w i zero lt = absurd (omega arith)
row-fits w zero (suc n) lt = omega arith
row-fits w (suc i) (suc n) lt = let before = row-fits w i n (omega arith) in omega arith

returns :
    (table : PathCompatibilityTable) (o i : ℕ) (b : Bool)
    → o < table.outside_count
    → i < table.inside_count
    → i * table.words_per_inside + o / 64 < length table.coverage
    → not (cell table.coverage (i * table.words_per_inside) o == 0) ≡ b
    → covers table o i ≡ ok b
unfolding covers
returns table o i b lo li fits e = ground arith

-- BuildPathCompatibilityTable and Covers agree with the direct test: in the table for a number of
-- paths, Covers at two indices in range returns whether the outside and the inside matching with these
-- indices close to one alternating cycle, and never throws.
pub covers-build_path_compatibility_table :
    (path_count : ℕ) (outside inside : List EndpointMatching) (table : PathCompatibilityTable)
    (outside_index inside_index : ℕ)
    → build_path_compatibility_table path_count ≡ ok table
    → enumerate_outside_matchings path_count ≡ ok outside
    → enumerate_inside_matchings path_count ≡ ok inside
    → outside_index < length outside
    → inside_index < length inside
    → covers table outside_index inside_index
      ≡ ok (
          is_alternating_hamiltonian_cycle
            (at outside outside_index)
            (at inside inside_index)
            path_count)
covers-build_path_compatibility_table path_count outside inside table o i built os is lo li =
    let (outs, ins, words, coverage) = build-parts path_count outside inside table built os is in
    let w = (length outside + 63) / 64 in
    let zeros : List ℕ = replicate (length inside * w) 0 in
    let long : length zeros ≡ length inside * w = length-replicate (length inside * w) 0 in
    let whole : (0 + length inside) * w ≤ length zeros = omega arith in
    let cell_is =
      mark_rows-cell path_count w 0 inside outside zeros (omega arith) whole
        (λ word le. get_or-replicate (length inside * w) word 0) i o li lo in
    let place : (0 + i) * w ≡ i * w = omega arith in
    let here : cell table.coverage (i * table.words_per_inside) o
        ≡ code (is_alternating_hamiltonian_cycle (at outside o) (at inside i) path_count) =
      ap (λ n. cell table.coverage (i * n) o) words
      ∙ ap (λ c. cell c (i * w) o) coverage
      ∙ ap (λ row. cell (mark_rows path_count w 0 inside outside zeros) row o) (sym place)
      ∙ cell_is in
    let size : length table.coverage ≡ length inside * w =
      ap length coverage ∙ length-mark_rows path_count w 0 inside outside zeros ∙ long in
    let row : i * w + w ≤ length inside * w = row-fits w i (length inside) li in
    let fits : i * table.words_per_inside + o / 64 < length table.coverage =
      (let at_row : i * table.words_per_inside ≡ i * w = ap (λ n. i * n) words in omega arith) in
    let result : not (cell table.coverage (i * table.words_per_inside) o == 0)
        ≡ is_alternating_hamiltonian_cycle (at outside o) (at inside i) path_count =
      ap (λ d. not (d == 0)) here
      ∙ code-bool (is_alternating_hamiltonian_cycle (at outside o) (at inside i) path_count) in
    returns table o i (is_alternating_hamiltonian_cycle (at outside o) (at inside i) path_count)
      (omega arith) (omega arith) fits result
