-- ===== src/Distance/Sqrt.antt =====
-- IntegerSqrtFloor of src/common/distance.cpp: the restoring loop keeps
-- value = remainder + p * p and value < (p + 2 * h) ^ 2, where bit = h * h and root = 2 * p * h.
use cuda_edge_elimination.Base.{
  ℕ, zero, suc, ◌+◌, ◌-◌, ◌*◌, ◌/◌, ◌^◌, ◌≤◌, ◌<◌, ◌≡◌, refl, ◌⊎◌, inl, inr, Bool-cases, ltb, leb,
  if◌then◌else◌, leb→le, arith, true, false, subst, ap, ◌∙◌, ltb→lt,
}
use native.Mathlib.Nat.{pow-suc, mul-one, pow-le-pow_right}
use cuda_edge_elimination.Base.Words.{add64, sub64}
use cuda_edge_elimination.Distance.{
  Restoring, shrink, restore, restore_step, integer_sqrt_floor, sqrt_fuel,
}

record Inv (value h p : ℕ) (s : Restoring) : Type 0 where
  bit_eq : s.bit ≡ h * h
  root_eq : s.root ≡ p * (2 * h)
  split : value ≡ s.remainder + p * p
  above : value < (p + 2 * h) * (p + 2 * h)
  small : p + 2 * h ≤ 2 ^ 32

-- The state between two rounds, before `h` is halved.
record Halved (value h p : ℕ) (s : Restoring) : Type 0 where
  bit_eq : s.bit ≡ h * h / 4
  root_eq : s.root ≡ p * h
  split : value ≡ s.remainder + p * p
  above : value < (p + h) * (p + h)
  small : p + h ≤ 2 ^ 32

square_small : (a : ℕ) → a < 2 ^ 32 → a * a < 2 ^ 64
square_small a h = grind arith

square_pos : (a : ℕ) → 0 < a → 0 < a * a
square_pos a h = grind arith

-- No 64-bit sum of a round wraps.
trial_small : (p h : ℕ) → 0 < h → p + 2 * h ≤ 2 ^ 32 → p * (2 * h) + h * h < 2 ^ 64
trial_small p h pos small = omega (arith, square_small (p + h) (omega arith))

half_product : (p h : ℕ) → p * (2 * h) / 2 ≡ p * h
half_product p h = omega arith

halved_small : (p h : ℕ) → 0 < h → p + 2 * h ≤ 2 ^ 32 → p * h + h * h < 2 ^ 64
halved_small p h pos small = omega (arith, trial_small p h pos small)

abbrev next_root : ℕ → ℕ → Restoring → ℕ
next_root p h s = if leb (p * (2 * h) + h * h) s.remainder then p + h else p

module _ (value h p : ℕ) (s : Restoring) (pos : 0 < h) (v : Inv value h p s)
    (fits : value < 2 ^ 64) where
  trial_eq : add64 s.root s.bit ≡ p * (2 * h) + h * h
  trial_eq = rw (v.root_eq, v.bit_eq) (omega (arith, trial_small p h pos v.small))

  next_eq : add64 (s.root / 2) s.bit ≡ p * h + h * h
  next_eq = rw (v.root_eq, v.bit_eq, half_product p h) (omega (arith, halved_small p h pos v.small))

  rest_eq :
      p * (2 * h) + h * h ≤ s.remainder
      → sub64 s.remainder (p * (2 * h) + h * h) ≡ s.remainder - (p * (2 * h) + h * h)
  rest_eq le = let split = v.split in omega (arith, trial_small p h pos v.small)

  restore_step-Halved : Halved value h (next_root p h s) (restore_step s)
  unfolding restore_step
  restore_step-Halved = elim (Bool-cases (leb (p * (2 * h) + h * h) s.remainder)) [
    | inl fit ↦
        rw (trial_eq, next_eq, fit)
          (record {
            bit_eq = rw v.bit_eq;
            root_eq = omega arith;
            split = let split = v.split in let le = leb→le _ _ fit in rw (rest_eq le) (omega arith);
            above = let above = v.above in omega arith;
            small = let small = v.small in omega arith;
          })
    | inr not_fit ↦
        rw (trial_eq, not_fit)
          (record {
            bit_eq = rw v.bit_eq;
            root_eq = rw (v.root_eq, half_product p h);
            split = v.split;
            above =
                let split = v.split in
                let lt : s.remainder < p * (2 * h) + h * h = ground arith in omega arith;
            small = let small = v.small in omega arith;
          })
  ]

-- Halving: the next round starts with half of `h`.
Halved-Inv : (value h p : ℕ) (s : Restoring) → Halved value (2 * h) p s → Inv value h p s
Halved-Inv value h p s v = record {
  bit_eq = let bit_eq = v.bit_eq in omega arith;
  root_eq = v.root_eq;
  split = v.split;
  above = v.above;
  small = v.small;
}

restore_done : (fuel : ℕ) (s : Restoring) → s.bit ≡ 0 → restore fuel s ≡ s
unfolding restore
restore_done zero s e = refl
restore_done (suc fuel) s e = rw e

restore_next :
    (fuel : ℕ) (s : Restoring) → 0 < s.bit → restore (suc fuel) s ≡ restore fuel (restore_step s)
unfolding restore
restore_next fuel s pos = ground arith

pow_pos : (k : ℕ) → 0 < 2 ^ k
pow_pos zero = omega arith
pow_pos (suc k) = omega (arith, pow-suc 2 k, pow_pos k)

abbrev pub IsFloorSqrt : ℕ → ℕ → Type 0
IsFloorSqrt value r = (r * r ≤ value) × (value < (r + 1) * (r + 1))

restore-IsFloorSqrt :
    (k fuel value p : ℕ) (s : Restoring)
    → k < fuel
    → Inv value (2 ^ k) p s
    → value < 2 ^ 64
    → IsFloorSqrt value (restore fuel s).root
restore-IsFloorSqrt k zero value p s lt v fits = absurd (omega arith)
restore-IsFloorSqrt zero (suc fuel) value p s lt v fits =
    let q = next_root p 1 s in
    let t = restore_step-Halved value 1 p s (omega arith) v fits in
    let split = t.split in
    let above = t.above in
    let done : (restore_step s).bit ≡ 0 = t.bit_eq in
    let root_eq : (restore_step s).root ≡ q = t.root_eq ∙ mul-one q in
    rw
      (
        restore_next fuel s (rw v.bit_eq (omega arith)),
        restore_done fuel (restore_step s) done,
        root_eq,
      )
      (omega arith, omega arith)
restore-IsFloorSqrt (suc k) (suc fuel) value p s lt v fits =
    let h = 2 ^ suc k in
    let e : h ≡ 2 * 2 ^ k = omega (arith, pow-suc 2 k) in
    let t = restore_step-Halved value h p s (pow_pos (suc k)) v fits in
    let next =
      Halved-Inv value (2 ^ k) (next_root p h s) (restore_step s)
        (subst (λ (x : ℕ). Halved value x (next_root p h s) (restore_step s)) e t) in
    let pos : 0 < s.bit = rw v.bit_eq (square_pos h (pow_pos (suc k))) in
    rw (restore_next fuel s pos)
      (restore-IsFloorSqrt k fuel value (next_root p h s) (restore_step s) (omega arith) next fits)

-- Where the first loop stops: at zero for the value zero, else at a power of four that is not above
-- the value, four times which is.
abbrev Start : ℕ → ℕ → ℕ → Type 0
Start k value bit =
    ((bit ≡ 0) × (value ≡ 0))
    ⊎ ((j : ℕ) × (j ≤ k) × (bit ≡ 2 ^ j * 2 ^ j) × (value < 2 * 2 ^ j * (2 * 2 ^ j)))

shrink_zero : (fuel value : ℕ) → shrink fuel value 0 ≡ 0
unfolding shrink
shrink_zero zero value = refl
shrink_zero (suc fuel) value = ground arith

shrink_stop : (fuel value bit : ℕ) → ltb value bit ≡ false → shrink (suc fuel) value bit ≡ bit
unfolding shrink
shrink_stop fuel value bit e = rw e

shrink_more :
    (fuel value bit : ℕ)
    → ltb value bit ≡ true
    → shrink (suc fuel) value bit ≡ shrink fuel value (bit / 4)
unfolding shrink
shrink_more fuel value bit e = rw e

shrink-Start :
    (k fuel value : ℕ)
    → k < fuel
    → value < 2 * 2 ^ k * (2 * 2 ^ k)
    → Start k value (shrink fuel value (2 ^ k * 2 ^ k))
shrink-Start k zero value lt above = absurd (omega arith)
shrink-Start zero (suc fuel) value lt above = elim (Bool-cases (ltb value 1)) [
  | inl big ↦
      inl (shrink_more fuel value 1 big ∙ shrink_zero fuel value, omega (arith, ltb→lt value 1 big))
  | inr fit ↦ inr (0, omega arith, shrink_stop fuel value 1 fit, above)
]
shrink-Start (suc k) (suc fuel) value lt above =
    let h = 2 ^ suc k in
    let e : h ≡ 2 * 2 ^ k = omega (arith, pow-suc 2 k) in
    let quarter : h * h / 4 ≡ 2 ^ k * 2 ^ k = rw e (omega arith) in
    elim (Bool-cases (ltb value (h * h))) [
      | inl big ↦
          let below : value < 2 * 2 ^ k * (2 * 2 ^ k) = rw e at (ltb→lt value (h * h) big) in
          let step = shrink_more fuel value (h * h) big ∙ ap (shrink fuel value) quarter in
          elim (shrink-Start k fuel value (omega arith) below) [
            | inl (none, z) ↦ inl (step ∙ none, z)
            | inr (j, le, bit_eq, lt') ↦ inr (j, omega arith, step ∙ bit_eq, lt')
          ]
      | inr fit ↦ inr (suc k, omega arith, shrink_stop fuel value (h * h) fit, above)
    ]

Start-IsFloorSqrt :
    (value bit : ℕ)
    → value < 2 ^ 64
    → Start 31 value bit
    → IsFloorSqrt value (restore sqrt_fuel (record { remainder = value; root = 0; bit = bit })).root
Start-IsFloorSqrt value bit fits (inl (e, z)) =
    rw (restore_done sqrt_fuel (record { remainder = value; root = 0; bit = bit }) e)
      (omega arith, omega arith)
Start-IsFloorSqrt value bit fits (inr (j, le, e, above)) =
    restore-IsFloorSqrt j sqrt_fuel value 0 (record { remainder = value; root = 0; bit = bit })
      (omega arith)
      (record {
        bit_eq = e;
        root_eq = omega arith;
        split = omega arith;
        above = omega arith;
        small = let bound : 2 ^ j ≤ 2 ^ 31 = pow-le-pow_right (omega arith) le in omega arith;
      })
      fits

-- For every 64-bit value the routine returns the greatest number whose square does not exceed it:
-- no intermediate result wraps, and both loops end within 32 rounds.
pub integer_sqrt_floor-IsFloorSqrt :
    (value : ℕ) → value < 2 ^ 64 → IsFloorSqrt value (integer_sqrt_floor value)
unfolding integer_sqrt_floor
integer_sqrt_floor-IsFloorSqrt value fits =
    Start-IsFloorSqrt value (shrink sqrt_fuel value (2 ^ 62)) fits
      (shrink-Start 31 sqrt_fuel value (omega arith) (omega arith))
