-- ===== src/Base/Words.antt =====
-- Machine words: 64-bit unsigned arithmetic with its wrap-around written out, and the ranges of the
-- fixed-width types.
use Prim.Native.Nat.{ℕ, ◌+◌, ◌-◌, ◌*◌, ◌%◌, ◌^◌}

abbrev pub u64_modulus : ℕ
u64_modulus = 2 ^ 64

-- std::numeric_limits<std::uint64_t>::max()
abbrev pub u64_max : ℕ
u64_max = 2 ^ 64 - 1

-- std::numeric_limits<std::int64_t>::max()
abbrev pub i64_max : ℕ
i64_max = 2 ^ 63 - 1

abbrev pub i128_modulus : ℕ
i128_modulus = 2 ^ 128

abbrev pub add64 : ℕ → ℕ → ℕ
add64 a b = (a + b) % u64_modulus

abbrev pub sub64 : ℕ → ℕ → ℕ
sub64 a b = (a + (u64_modulus - b)) % u64_modulus

abbrev pub mul64 : ℕ → ℕ → ℕ
mul64 a b = (a * b) % u64_modulus
