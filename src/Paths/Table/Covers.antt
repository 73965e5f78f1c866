-- ===== src/Paths/Table/Covers.antt =====
-- PathCompatibilityTable::Covers on the table that BuildPathCompatibilityTable builds.
pub mod Rows
use Prim.Native.Nat.{bit_or}
use cuda_edge_elimination.Base.{
  ℕ, zero, suc, ◌+◌, ◌*◌, ◌/◌, ◌%◌, ◌≤◌, ◌<◌, ◌≡◌, ◌≢◌, ◌⊎◌, inl, inr, refl, sym, ap, ◌∙◌, arith,
  List, [], ◌∷◌, Bool, true, false, Bool-cases, if◌then◌else◌, length, get_or, set, replicate,
  length-set, length-replicate, get_or-set_self, get_or-set_ne, get_or-replicate, ℕ_discrete, subst,
  ltb, ◌||◌, ◌-◌, ◌^◌, not, ◌==◌,
}
use cuda_edge_elimination.Base.Outcome.{ok, Outcome-cases}
use cuda_edge_elimination.Paths.{
  EndpointMatching, enumerate_outside_matchings, enumerate_inside_matchings,
  is_alternating_hamiltonian_cycle, validate_path_count, max_gpu_path_count,
}
use cuda_edge_elimination.Paths.Table.{
  PathCompatibilityTable, digit, one_at, covers, mark_row, mark_rows,
  build_path_compatibility_table, at, code,
}
use cuda_edge_elimination.Paths.Table.Bits.{digit-set_self, digit-set_ne, digit-zero}

-- The bit at a place: a word and a bit of it.
abbrev bit_at : List ℕ → ℕ → ℕ → ℕ
bit_at coverage word bit = digit (get_or coverage word 0) bit

-- The bit of an outside index in the row that begins at `row`.
abbrev pub cell : List ℕ → ℕ → ℕ → ℕ
cell coverage row outside_index = bit_at coverage (row + outside_index / 64) (outside_index % 64)

set_bit-other :
    (coverage : List ℕ) (word bit word' bit' : ℕ)
    → word < length coverage
    → (word ≢ word') ⊎ (bit ≢ bit')
    → bit_at (set coverage word (bit_or (get_or coverage word 0) (one_at bit))) word' bit'
      ≡ bit_at coverage word' bit'
set_bit-other coverage word bit word' bit' inside (inl n) =
    ap (λ x. digit x bit')
      (get_or-set_ne coverage word word' (bit_or (get_or coverage word 0) (one_at bit)) 0 n)
set_bit-other coverage word bit word' bit' inside (inr n) =
    let value = bit_or (get_or coverage word 0) (one_at bit) in
    elim (ℕ_discrete word word') [
      | no n ↦ ap (λ x. digit x bit') (get_or-set_ne coverage word word' value 0 n)
      | yes same ↦
          subst (λ w. bit_at (set coverage word value) w bit' ≡ bit_at coverage w bit') same
            (ap (λ x. digit x bit') (get_or-set_self coverage word value 0 inside)
              ∙ digit-set_ne (get_or coverage word 0) bit bit' n)
    ]

set_bit_self :
    (coverage : List ℕ) (word bit : ℕ)
    → word < length coverage
    → bit_at (set coverage word (bit_or (get_or coverage word 0) (one_at bit))) word bit ≡ 1
set_bit_self coverage word bit inside =
    ap (λ x. digit x bit)
      (get_or-set_self coverage word (bit_or (get_or coverage word 0) (one_at bit)) 0 inside)
    ∙ digit-set_self (get_or coverage word 0) bit

-- The words after one step of the inner loop.
abbrev pub marked : Bool → ℕ → ℕ → List ℕ → List ℕ
marked closed row index coverage =
    if closed
    then set coverage (row + index / 64)
        (bit_or (get_or coverage (row + index / 64) 0) (one_at (index % 64)))
    else coverage

pub length-marked :
    (closed : Bool) (row index : ℕ) (coverage : List ℕ)
    → length (marked closed row index coverage) ≡ length coverage
length-marked true row index coverage =
    length-set coverage (row + index / 64)
      (bit_or (get_or coverage (row + index / 64) 0) (one_at (index % 64)))
length-marked false row index coverage = refl

pub marked_self :
    (closed : Bool) (row index : ℕ) (coverage : List ℕ)
    → row + index / 64 < length coverage
    → cell coverage row index ≡ 0
    → cell (marked closed row index coverage) row index ≡ code closed
marked_self true row index coverage lt empty =
    set_bit_self coverage (row + index / 64) (index % 64) lt
marked_self false row index coverage lt empty = empty

pub marked-other :
    (closed : Bool) (row index : ℕ) (coverage : List ℕ) (word bit : ℕ)
    → row + index / 64 < length coverage
    → (row + index / 64 ≢ word) ⊎ (index % 64 ≢ bit)
    → bit_at (marked closed row index coverage) word bit ≡ bit_at coverage word bit
marked-other true row index coverage word bit lt other =
    set_bit-other coverage (row + index / 64) (index % 64) word bit lt other
marked-other false row index coverage word bit lt other = refl

pub marked-word :
    (closed : Bool) (row index : ℕ) (coverage : List ℕ) (word : ℕ)
    → row + index / 64 ≢ word
    → get_or (marked closed row index coverage) word 0 ≡ get_or coverage word 0
marked-word true row index coverage word other =
    get_or-set_ne coverage (row + index / 64) word
      (bit_or (get_or coverage (row + index / 64) 0) (one_at (index % 64))) 0 other
marked-word false row index coverage word other = refl

pub apart :
    (row index j : ℕ) → index ≢ j → (row + index / 64 ≢ row + j / 64) ⊎ (index % 64 ≢ j % 64)
apart row index j ne = elim (ℕ_discrete (index / 64) (j / 64)) [
  | no words ↦ inl (λ e. words (omega arith))
  | yes same ↦ inr (λ e. ne (omega arith))
]
