-- ===== src/Distance.antt =====
-- src/common/distance.cpp: the exact integer square root and the two TSPLIB roundings.
pub mod Sqrt
pub mod Rounding
use cuda_edge_elimination.Base.{
  ℕ, zero, suc, ◌+◌, ◌-◌, ◌*◌, ◌/◌, ◌%◌, ◌^◌, Bool, not, ◌||◌, ltb, leb, ◌==◌, if◌then◌else◌,
}
use cuda_edge_elimination.Base.Int.{ℤ, ◌-ℤ◌, abs}
use cuda_edge_elimination.Base.Outcome.{Outcome, ok, err, Error, throw_if, ◌>>=◌, ◌>>◌}
use cuda_edge_elimination.Base.Words.{u64_max, i64_max, i128_modulus, add64, sub64, mul64}
use cuda_edge_elimination.Types.{Point, DistanceType, euc_2d, ceil_2d}

-- The state of the two loops.
pub record Restoring : Type 0 where
  pub remainder : ℕ
  pub root : ℕ
  pub bit : ℕ

-- `while (bit > remainder) bit >>= 2;` on fuel.
pub shrink : ℕ → ℕ → ℕ → ℕ
shrink zero remainder bit = bit
shrink (suc fuel) remainder bit =
    let rest = shrink fuel remainder (bit / 4) in if ltb remainder bit then rest else bit

-- The body of `while (bit != 0)`.
pub restore_step : Restoring → Restoring
restore_step s =
    if leb (add64 s.root s.bit) s.remainder
    then record {
      remainder = sub64 s.remainder (add64 s.root s.bit);
      root = add64 (s.root / 2) s.bit;
      bit = s.bit / 4;
    }
    else record { remainder = s.remainder; root = s.root / 2; bit = s.bit / 4 }

-- `while (bit != 0) …` on fuel.
pub restore : ℕ → Restoring → Restoring
restore zero s = s
restore (suc fuel) s = let rest = restore fuel (restore_step s) in if s.bit == 0 then s else rest

-- A 64-bit number has 32 digits in base four, so each loop makes at most 32 rounds.
abbrev pub sqrt_fuel : ℕ
sqrt_fuel = 32

unfoldable pub integer_sqrt_floor : ℕ → ℕ
unfolding shrink restore restore_step
integer_sqrt_floor value =
    (restore sqrt_fuel
      (record { remainder = value; root = 0; bit = shrink sqrt_fuel value (2 ^ 62) })).root

-- S - r * r, the square as the 64-bit product that the source forms.
beyond : ℕ → ℕ → ℕ
beyond squared root = sub64 squared (mul64 root root)

round_root : DistanceType → ℕ → ℕ → ℕ
unfolding beyond
round_root euc_2d squared root = if ltb root (beyond squared root) then add64 root 1 else root
round_root ceil_2d squared root = if mul64 root root == squared then root else add64 root 1

-- dx * dx + dy * dy as the bit pattern of an __int128.
unfoldable pub squared_distance : Point → Point → ℕ
squared_distance a b =
    let dx = abs (a.integer_x -ℤ b.integer_x) in
    let dy = abs (a.integer_y -ℤ b.integer_y) in (dx * dx + dy * dy) % i128_modulus

-- The tests and the rounding on that pattern. A pattern from 2 ^ 127 on is a negative number.
unfoldable pub round_squared : DistanceType → ℕ → Outcome ℕ
unfolding round_root
round_squared type squared = do
  throw_if (ltb (2 ^ 127 - 1) squared || ltb u64_max squared) Error.overflow_error
  let rounded = round_root type squared (integer_sqrt_floor squared)
  throw_if (ltb i64_max rounded) Error.overflow_error
  ok rounded

-- The caller Distance throws where the source returns false.
unfoldable pub exact_integer_distance : Point → Point → DistanceType → Outcome ℕ
exact_integer_distance a b type = round_squared type (squared_distance a b)

-- The operations of `double` that the source calls, on bit patterns. They belong to the C++
-- implementation and are parameters.
pub record FloatOps : Type 0 where
  pub sub : ℕ → ℕ → ℕ
  pub add : ℕ → ℕ → ℕ
  pub hypot : ℕ → ℕ → ℕ
  pub is_finite : ℕ → Bool
  pub less : ℕ → ℕ → Bool
  pub floor : ℕ → ℕ
  pub ceil : ℕ → ℕ
  -- static_cast<std::int64_t> of a value that is not negative
  pub to_int64 : ℕ → ℕ

-- The bit patterns of static_cast<double>(INT64_MAX), which is 2 ^ 63, and of 0.5.
abbrev i64_max_double : ℕ
i64_max_double = 0x43e0000000000000

abbrev half_double : ℕ
half_double = 0x3fe0000000000000

-- The range test and the rounding of FloatingDistance.
unfoldable pub round_raw : FloatOps → DistanceType → ℕ → Outcome ℕ
round_raw fp type raw = do
  throw_if (not (fp.is_finite raw) || fp.less i64_max_double raw) Error.overflow_error
  ok (elim type [
    | euc_2d ↦ fp.to_int64 (fp.floor (fp.add raw half_double))
    | ceil_2d ↦ fp.to_int64 (fp.ceil raw)
  ])

unfoldable pub floating_distance : FloatOps → Point → Point → DistanceType → Outcome ℕ
floating_distance fp a b type = round_raw fp type (fp.hypot (fp.sub a.x b.x) (fp.sub a.y b.y))
