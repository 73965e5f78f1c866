-- ===== src/Paths/Table/Bits.antt =====
-- The bits of the words of src/cpu/path_system.cpp's table.
use Prim.Native.Nat.{bit_or, bit_or-bitwise, digits, max}
use cuda_edge_elimination.Base.{
  ℕ, zero, suc, ◌+◌, ◌*◌, ◌/◌, ◌%◌, ◌≤◌, ◌≡◌, ◌≢◌, refl, ap, ◌∙◌, arith,
}
use cuda_edge_elimination.Paths.Table.{one_at, digit}

abbrev or_digits : ℕ → ℕ → ℕ → ℕ
or_digits n a b = digits (λ b. b) max n a b

or_digits-fuel : (n m a b : ℕ) → a ≤ n → a ≤ m → or_digits n a b ≡ or_digits m a b
or_digits-fuel zero zero a b p q = refl
or_digits-fuel zero (suc m) zero b p q = refl
or_digits-fuel zero (suc m) (suc a) b p q = absurd (omega arith)
or_digits-fuel (suc n) zero zero b p q = refl
or_digits-fuel (suc n) zero (suc a) b p q = absurd (omega arith)
or_digits-fuel (suc n) (suc m) zero b p q = refl
or_digits-fuel (suc n) (suc m) (suc a) b p q =
    omega (arith, or_digits-fuel n m (suc a / 2) (b / 2) (omega arith) (omega arith))

zero-bit_or : (b : ℕ) → bit_or 0 b ≡ b
zero-bit_or b = bit_or-bitwise 0 b

pub bit_or-step : (a b : ℕ) → bit_or a b ≡ bit_or (a / 2) (b / 2) * 2 + max (a % 2) (b % 2)
bit_or-step zero b = omega (arith, zero-bit_or b, zero-bit_or (b / 2))
bit_or-step (suc a) b = omega (
  arith,
  bit_or-bitwise (suc a) b,
  bit_or-bitwise (suc a / 2) (b / 2),
  or_digits-fuel a (suc a / 2) (suc a / 2) (b / 2) (omega arith) (omega arith),
)

pub digit-zero : (bit : ℕ) → digit 0 bit ≡ 0
digit-zero zero = refl
digit-zero (suc bit) = digit-zero bit

bit_or-zero_fuel : (n a : ℕ) → a ≤ n → bit_or a 0 ≡ a
bit_or-zero_fuel n zero h = refl
bit_or-zero_fuel zero (suc a) h = absurd (omega arith)
bit_or-zero_fuel (suc n) (suc a) h =
    omega (arith, bit_or-step (suc a) 0, bit_or-zero_fuel n (suc a / 2) (omega arith))

half : (a b c : ℕ) → b / 2 ≡ c → bit_or a b / 2 ≡ bit_or (a / 2) c
half a b c h =
    let e : bit_or a b / 2 ≡ bit_or (a / 2) (b / 2) = omega (arith, bit_or-step a b) in
    e ∙ ap (bit_or (a / 2)) h

half-one_at : (bit : ℕ) → one_at (suc bit) / 2 ≡ one_at bit
half-one_at bit = omega arith

-- Switching on one bit switches on this bit.
pub digit-set_self : (word bit : ℕ) → digit (bit_or word (one_at bit)) bit ≡ 1
digit-set_self word zero = omega (arith, bit_or-step word 1)
digit-set_self word (suc bit) =
    ap (λ x. digit x bit) (half word (one_at (suc bit)) (one_at bit) (half-one_at bit))
    ∙ digit-set_self (word / 2) bit

-- It leaves the others.
pub digit-set_ne :
    (word bit other : ℕ) → bit ≢ other → digit (bit_or word (one_at bit)) other ≡ digit word other
digit-set_ne word zero zero ne = absurd (ne refl)
digit-set_ne word zero (suc other) ne =
    ap (λ x. digit x other)
      (half word 1 0 refl ∙ bit_or-zero_fuel (word / 2) (word / 2) (omega arith))
digit-set_ne word (suc bit) zero ne = omega (arith, bit_or-step word (one_at (suc bit)))
digit-set_ne word (suc bit) (suc other) ne =
    ap (λ x. digit x other) (half word (one_at (suc bit)) (one_at bit) (half-one_at bit))
    ∙ digit-set_ne (word / 2) bit other (λ e. ne (ap suc e))
