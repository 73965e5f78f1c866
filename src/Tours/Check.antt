-- ===== src/Tours/Check.antt =====
-- A Boolean test of whether a list of vertices is a tour.
use mathlib.Core.List.{Mem, Nodup, Nodup-cons, mem-cons_self, mem-cons_of_mem, not-mem-nil, Memᴰ}
use mathlib.Core.List.Memᴰ
use mathlib.Core.List
use mathlib.Core.Bool.{So-prop}
use mathlib.Core.Logic.{∥∥₁_elim}
use cuda_edge_elimination.Base.{
  ℕ, zero, suc, ◌<◌, ◌≡◌, sym, List, [], ◌∷◌, arith, subst, Bool, true, false, not, ◌&&◌, ◌||◌, ltb,
  ◌==◌, ℕ_discrete, inl, inr,
}
use cuda_edge_elimination.Tours.{IsTour}

abbrev pub is_in : ℕ → List ℕ → Bool
is_in x [] = false
is_in x (y ∷ l) = (x == y) || is_in x l

Mem-is_in : (x : ℕ) (l : List ℕ) → Mem x l → is_in x l ≡ true
Mem-is_in x l m = ∥∥₁_elim m (So-prop _) (go l)
  where
    go : (l : List ℕ) → Memᴰ x l → is_in x l ≡ true
    go [] n = absurd (not-mem-nil ∣ n ∣₁)
    go (y ∷ l) n = elim (Memᴰ.cases_cons n) [
      | inl e ↦ ground arith
      | inr n' ↦ let later = go l n' in ground arith
    ]

is_in-Mem : (x : ℕ) (l : List ℕ) → is_in x l ≡ true → Mem x l
is_in-Mem x [] h = absurd (ground arith)
is_in-Mem x (y ∷ l) h = elim (ℕ_discrete x y) [
  | yes e ↦ subst (λ z. Mem x (z ∷ l)) e mem-cons_self
  | no other ↦ mem-cons_of_mem y (is_in-Mem x l (ground arith))
]

abbrev pub distinct : List ℕ → Bool
distinct [] = true
distinct (x ∷ l) = not (is_in x l) && distinct l

distinct-Nodup : (l : List ℕ) → distinct l ≡ true → Nodup l
distinct-Nodup [] h = mathlib.Core.List.Pairwise.nil
distinct-Nodup (x ∷ l) h =
    Nodup-cons.1 (λ m. let found = Mem-is_in x l m in ground arith, distinct-Nodup l (ground arith))

abbrev pub all_below : ℕ → (ℕ → Bool) → Bool
all_below zero p = true
all_below (suc n) p = p n && all_below n p

pub all_below-at : (n : ℕ) (p : ℕ → Bool) (x : ℕ) → x < n → all_below n p ≡ true → p x ≡ true
all_below-at zero p x lt h = absurd (omega arith)
all_below-at (suc n) p x lt h = elim (ℕ_discrete x n) [
  | yes e ↦ subst (λ y. p y ≡ true) (sym e) (ground arith)
  | no ne ↦ all_below-at n p x (omega arith) (ground arith)
]

abbrev pub all_in : ℕ → List ℕ → Bool
all_in n [] = true
all_in n (x ∷ l) = ltb x n && all_in n l

all_in-below : (n : ℕ) (l : List ℕ) (x : ℕ) → all_in n l ≡ true → is_in x l ≡ true → x < n
all_in-below n [] x h m = absurd (ground arith)
all_in-below n (y ∷ l) x h m = elim (ℕ_discrete x y) [
  | yes e ↦ ground arith
  | no other ↦ all_in-below n l x (ground arith) (ground arith)
]

pub IsTour-check :
    (n : ℕ) (t : List ℕ)
    → distinct t ≡ true
    → all_in n t ≡ true
    → all_below n (λ x. is_in x t) ≡ true
    → IsTour n t
IsTour-check n t once below all = record {
  once = distinct-Nodup t once;
  covers = λ x. (
    λ m. all_in-below n t x below (Mem-is_in x t m),
    λ lt. is_in-Mem x t (all_below-at n (λ y. is_in y t) x lt all),
  );
}
