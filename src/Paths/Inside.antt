-- ===== src/Paths/Inside.antt =====
-- EnumerateInsideMatchings (src/cpu/path_system.cpp): the recursion of EnumerateInsideRecursive.
pub mod Complete
use cuda_edge_elimination.Base.{
  List-cases, ℕ, zero, suc, ◌+◌, ◌*◌, ◌-◌, ◌≤◌, ◌<◌, ◌≡◌, ◌≢◌, ◌⊎◌, inl, inr, refl, sym, ap, ◌∙◌,
  List, [], ◌∷◌, true, Bool-cases, ◌==◌, ◌||◌, ltb, length, get_or, ℕ_discrete, All, All-append,
  Mem, Mem-append_left, Mem-append_right, arith, subst, length-append, ◌↔◌, get_or-replicate,
}
use cuda_edge_elimination.Base.Outcome.{ok}
use cuda_edge_elimination.Paths.{
  EndpointMatching, mate_of, join, free_from, for_each, unmatched_endpoint, max_path_endpoints,
  empty_matching, enumerate_inside_recursive, enumerate_inside_matchings,
  is_perfect_endpoint_matching, times_from, validate_path_count, expected_inside_matching_count,
}
use cuda_edge_elimination.Paths.Perfect.{
  Free, Mated, IsPartial, join-IsPartial, join-first, join-second, join-other,
}
use cuda_edge_elimination.Paths.Perfect.Ranges.{
  FreeIn, free_from-first, free_from-none, Mem-free_from, length-free_from-join, empty-IsPartial,
  length-free_from-empty, is_perfect_endpoint_matching_iff,
}

pub lt-cases : (a b : ℕ) → (a < b) ⊎ (b ≤ a)
lt-cases a b = elim (Bool-cases (ltb a b)) [
  | inl lt ↦ inl (ground arith)
  | inr le ↦ inr (ground arith)
]

pub All-Mem : {A : Type 0} (P : A → Type 0) (xs : List A) (x : A) → All P xs → Mem x xs → P x
All-Mem P [] x h i = absurd i
All-Mem P (y ∷ ys) x (p, h) (inl e) = subst P (sym e) p
All-Mem P (y ∷ ys) x (p, h) (inr i) = All-Mem P ys x h i

abbrev pub free : EndpointMatching → List ℕ
free m = free_from m 0 m.endpoint_count

-- One level of the recursion.
pub done :
    (fuel : ℕ) (m : EndpointMatching)
    → free m ≡ []
    → enumerate_inside_recursive (suc fuel) m ≡ m ∷ []
unfolding enumerate_inside_recursive
done fuel m none = ground arith

pub branches :
    (fuel : ℕ) (m : EndpointMatching) (first : ℕ) (later : List ℕ)
    → free m ≡ first ∷ later
    → enumerate_inside_recursive (suc fuel) m
      ≡ for_each (λ second. enumerate_inside_recursive fuel (join m first second)) later
unfolding enumerate_inside_recursive
branches fuel m first later some = ground arith

All-for_each :
    (Q : EndpointMatching → Type 0) (P : ℕ → Type 0) (body : ℕ → List EndpointMatching)
    (xs : List ℕ)
    → All P xs
    → ((x : ℕ) → P x → All Q (body x))
    → All Q (for_each body xs)
All-for_each Q P body [] h f = tt
All-for_each Q P body (x ∷ xs) (p, h) f =
    All-append Q (body x) (for_each body xs) (f x p) (All-for_each Q P body xs h f)

pub Mem-for_each :
    (r : EndpointMatching) (body : ℕ → List EndpointMatching) (xs : List ℕ) (x : ℕ)
    → Mem x xs
    → Mem r (body x)
    → Mem r (for_each body xs)
Mem-for_each r body [] x h i = absurd h
Mem-for_each r body (y ∷ ys) x (inl e) i =
    Mem-append_left r (body y) (for_each body ys) (subst (λ z. Mem r (body z)) e i)
Mem-for_each r body (y ∷ ys) x (inr h) i =
    Mem-append_right r (body y) (for_each body ys) (Mem-for_each r body ys x h i)

length-for_each :
    (n : ℕ) (P : ℕ → Type 0) (body : ℕ → List EndpointMatching) (xs : List ℕ)
    → All P xs
    → ((x : ℕ) → P x → length (body x) ≡ n)
    → length (for_each body xs) ≡ length xs * n
length-for_each n P body [] h f = omega arith
length-for_each n P body (x ∷ xs) (p, h) f =
    let a = length-append (body x) (for_each body xs) in
    let b = f x p in let c = length-for_each n P body xs h f in omega arith

-- A matching with nothing free.
abbrev pub Full : ℕ → EndpointMatching → Type 0
Full n m = IsPartial m × (m.endpoint_count ≡ n) × ((e : ℕ) → e < n → Mated m e)

Full-done : (m : EndpointMatching) → IsPartial m → free m ≡ [] → Full m.endpoint_count m
Full-done m p none = (
  p,
  refl,
  λ e lt. elim (p.mated e lt) [ inl f ↦ absurd (free_from-none m e none lt f) | inr mated ↦ mated ],
)

pub enumerate-Full :
    (fuel : ℕ) (m : EndpointMatching)
    → IsPartial m
    → All (Full m.endpoint_count) (enumerate_inside_recursive fuel m)
unfolding enumerate_inside_recursive
enumerate-Full zero m p = tt
enumerate-Full (suc fuel) m p = elim (List-cases (free m)) [
  | inl none ↦ subst (All (Full m.endpoint_count)) (sym (done fuel m none)) (Full-done m p none, tt)
  | inr (first, later, some) ↦
      let ((_, f, ff), rest) =
        free_from-first m 0 m.endpoint_count m.endpoint_count first later (omega arith) some in
      subst (All (Full m.endpoint_count)) (sym (branches fuel m first later some)) (
        All-for_each (Full m.endpoint_count) (FreeIn m (suc first) m.endpoint_count)
          (λ second. enumerate_inside_recursive fuel (join m first second)) later rest
          (λ second (lt, s, fs).
            enumerate-Full fuel (join m first second)
              (join-IsPartial m first second p f s (λ e. (omega arith)) ff fs)))
]

-- 1 * 3 * ... * (2 * k - 1)
abbrev pub odd_product : ℕ → ℕ
odd_product zero = 1
odd_product (suc k) = (2 * k + 1) * odd_product k

pub length-enumerate :
    (fuel k : ℕ) (m : EndpointMatching)
    → IsPartial m
    → length (free m) ≡ 2 * k
    → k < fuel
    → length (enumerate_inside_recursive fuel m) ≡ odd_product k
length-enumerate zero k m p size enough = absurd (omega arith)
length-enumerate (suc fuel) zero m p size enough = elim (List-cases (free m)) [
  | inl none ↦ ap length (done fuel m none)
  | inr (first, later, some) ↦ let e = ap length some in absurd (omega arith)
]
length-enumerate (suc fuel) (suc k) m p size enough = elim (List-cases (free m)) [
  | inl none ↦ let e = ap length none in absurd (omega arith)
  | inr (first, later, some) ↦
      let ((_, f, ff), rest) =
        free_from-first m 0 m.endpoint_count m.endpoint_count first later (omega arith) some in
      let e = ap length some in
      let each =
        length-for_each (odd_product k) (FreeIn m (suc first) m.endpoint_count)
          (λ second. enumerate_inside_recursive fuel (join m first second)) later rest
          (λ second (lt, s, fs).
            let less = length-free_from-join m first second p f s (omega arith) ff fs in
            length-enumerate fuel k (join m first second)
              (join-IsPartial m first second p f s (λ e. (omega arith)) ff fs) (omega arith)
              (omega arith)) in
      let odd : length later ≡ 2 * k + 1 = omega arith in
      ap length (branches fuel m first later some) ∙ each ∙ ap (λ n. n * odd_product k) odd
]
