-- ===== src/Distance/Rounding.antt =====
-- ExactIntegerDistance of src/common/distance.cpp against the TSPLIB roundings.
use cuda_edge_elimination.Base.{ℕ, ◌+◌, ◌*◌, ◌%◌, ◌^◌, ◌≤◌, ◌<◌, ◌≡◌, ◌⊎◌, arith}
use cuda_edge_elimination.Base.Int.{◌-ℤ◌, abs, abs-sub_comm}
use cuda_edge_elimination.Base.Outcome.{ok, err, Error}
use cuda_edge_elimination.Base.Words.{u64_max}
use cuda_edge_elimination.Types.{Point, DistanceType, euc_2d, ceil_2d}
use cuda_edge_elimination.Distance.{
  round_root, round_squared, squared_distance, exact_integer_distance, integer_sqrt_floor, FloatOps,
  floating_distance,
}
use cuda_edge_elimination.Distance.Sqrt.{IsFloorSqrt, integer_sqrt_floor-IsFloorSqrt}

-- `d` is sqrt(s) rounded to the nearest integer (EUC_2D), or rounded up (CEIL_2D).
abbrev pub IsRounded : DistanceType → ℕ → ℕ → Type 0
IsRounded euc_2d s d = ((d ≡ 0) ⊎ (4 * (d * d) + 1 ≤ 4 * s + 4 * d)) × (s ≤ d * d + d)
IsRounded ceil_2d s d = (s ≤ d * d) × ((d ≡ 0) ⊎ (d * d + 1 < s + 2 * d))

root_small : (s r : ℕ) → s < 2 ^ 64 → r * r ≤ s → r < 2 ^ 32
root_small s r fits le = grind arith

round_root-IsRounded :
    (type : DistanceType) (s r : ℕ)
    → s < 2 ^ 64
    → IsFloorSqrt s r
    → IsRounded type s (round_root type s r) × (round_root type s r ≤ 2 ^ 32)
unfolding round_root
round_root-IsRounded euc_2d s r fits (lo, hi) = let small = root_small s r fits lo in ground arith
round_root-IsRounded ceil_2d s r fits (lo, hi) = let small = root_small s r fits lo in ground arith

-- The exact sum of squares, in a type wide enough.
abbrev pub true_squared : Point → Point → ℕ
true_squared a b =
    let dx = abs (a.integer_x -ℤ b.integer_x) in
    let dy = abs (a.integer_y -ℤ b.integer_y) in dx * dx + dy * dy

-- A sum within 64 bits is rounded, and the result is at most 2 ^ 32.
round_squared_fits :
    (type : DistanceType) (s : ℕ)
    → s ≤ u64_max
    → (d : ℕ) × (round_squared type s ≡ ok d) × IsRounded type s d × (d ≤ 2 ^ 32)
unfolding round_squared
round_squared_fits type s fits =
    let (rounded, small) =
      round_root-IsRounded type s (integer_sqrt_floor s) (omega arith)
        (integer_sqrt_floor-IsFloorSqrt s (omega arith)) in
    (round_root type s (integer_sqrt_floor s), ground arith, rounded, small)

round_squared_overflows :
    (type : DistanceType) (s : ℕ) → u64_max < s → round_squared type s ≡ err Error.overflow_error
unfolding round_squared
round_squared_overflows type s big = ground arith

-- A sum of squares within 64 bits is rounded as TSPLIB asks: EUC_2D gives the nearest whole number
-- and CEIL_2D the least whole number that is not below the square root. The result is at most 2 ^ 32.
pub exact_integer_distance_rounds :
    (a b : Point) (type : DistanceType)
    → true_squared a b ≤ u64_max
    → (d : ℕ) × (exact_integer_distance a b type ≡ ok d)
      × IsRounded type (true_squared a b) d
      × (d ≤ 2 ^ 32)
unfolding exact_integer_distance squared_distance
exact_integer_distance_rounds a b type fits =
    let e : squared_distance a b ≡ true_squared a b = omega arith in
    rw (e) (round_squared_fits type (true_squared a b) fits)

-- A sum of squares beyond 64 bits that still fits in an __int128 is refused as an overflow.
pub exact_integer_distance_overflows :
    (a b : Point) (type : DistanceType)
    → true_squared a b < 2 ^ 127
    → u64_max < true_squared a b
    → exact_integer_distance a b type ≡ err Error.overflow_error
unfolding exact_integer_distance squared_distance
exact_integer_distance_overflows a b type fits big =
    let e : squared_distance a b ≡ true_squared a b = omega arith in
    rw (e) (round_squared_overflows type (true_squared a b) big)

-- When the sum of squares passes 2 ^ 128 and its low 128 bits are below 2 ^ 64, the overflow goes
-- unnoticed: the result is a distance of at most 2 ^ 32 for points at least 2 ^ 64 apart.
pub exact_integer_distance_wraps :
    (a b : Point) (type : DistanceType)
    → 2 ^ 128 ≤ true_squared a b
    → true_squared a b % 2 ^ 128 ≤ u64_max
    → (d : ℕ) × (exact_integer_distance a b type ≡ ok d) × (d ≤ 2 ^ 32)
unfolding exact_integer_distance squared_distance
exact_integer_distance_wraps a b type big low =
    let (d, e, _, small) = round_squared_fits type (squared_distance a b) low in (d, e, small)

pub exact_integer_distance_comm :
    (a b : Point) (type : DistanceType)
    → exact_integer_distance a b type ≡ exact_integer_distance b a type
unfolding exact_integer_distance squared_distance
exact_integer_distance_comm a b type =
    rw (abs-sub_comm a.integer_x b.integer_x, abs-sub_comm a.integer_y b.integer_y)

-- IEEE subtraction is exact up to the sign of its result, and hypot ignores signs.
pub record FloatLaws (fp : FloatOps) : Type 0 where
  pub hypot-sub_comm :
      (a b c d : ℕ) → fp.hypot (fp.sub a b) (fp.sub c d) ≡ fp.hypot (fp.sub b a) (fp.sub d c)

pub floating_distance_comm :
    (fp : FloatOps) (a b : Point) (type : DistanceType)
    → FloatLaws fp
    → floating_distance fp a b type ≡ floating_distance fp b a type
unfolding floating_distance
floating_distance_comm fp a b type laws = rw (laws.hypot-sub_comm a.x b.x a.y b.y)
