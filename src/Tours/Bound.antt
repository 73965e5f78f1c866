-- ===== src/Tours/Bound.antt =====
-- A lower bound on the cost of every tour, from a lower bound on the distances. A tour that meets it
-- is optimal.
use mathlib.Core.List.{
  Mem, Nodup, Nodup-cons, mem-cons_self, mem-cons_of_mem, perm_ext_iff_of_Nodup,
}
use mathlib.Core.List as ListLib
use mathlib.Core.Nat as NatLib
use mathlib.Core.List.{Perm}
use mathlib.Core.List.Perm
use cuda_edge_elimination.Base.{
  ℕ, suc, ◌*◌, ◌<◌, ◌≤◌, ◌≡◌, ◌≢◌, ◌∙◌, sym, ap, refl, List, [], ◌∷◌, ◌++◌, arith, length, subst,
}
use cuda_edge_elimination.Tours.{path_cost, tour_cost, IsTour, IsOptimal}

native_of : NatLib.ℕ → ℕ
native_of NatLib.zero = 0
native_of (NatLib.suc n) = suc (native_of n)

length-native : (t : List ℕ) → length t ≡ native_of (ListLib.length t)
unfolding native_of
length-native [] = refl
length-native (x ∷ t) = ap suc (length-native t)

-- Two tours of the same vertices are of the same length.
IsTour-length : (n : ℕ) (t t' : List ℕ) → IsTour n t → IsTour n t' → length t ≡ length t'
IsTour-length n t t' a b =
    let p : Perm t t' =
      (perm_ext_iff_of_Nodup a.once b.once).1
        (λ x. (λ m. (b.covers x).1 ((a.covers x).0 m), λ m. (a.covers x).1 ((b.covers x).0 m))) in
    length-native t ∙ ap native_of (Perm.length-eq p) ∙ sym (length-native t')

module _ (d : ℕ → ℕ → ℕ) (n m : ℕ) (far : (x y : ℕ) → x < n → y < n → x ≢ y → m ≤ d x y) where
  chain :
      (x y : ℕ) (xs : List ℕ) (z : ℕ)
      → Nodup (x ∷ y ∷ xs)
      → Nodup (z ∷ y ∷ xs)
      → ((w : ℕ) → Mem w (x ∷ y ∷ xs) → w < n)
      → z < n
      → m * suc (suc (length xs)) ≤ path_cost d (x ∷ y ∷ xs ++ z ∷ [])
  chain x y [] z a b below z<n =
      let x<n = below x mem-cons_self in
      let y<n = below y (mem-cons_of_mem x mem-cons_self) in
      let first =
        far x y x<n y<n
          (λ e. (Nodup-cons.0 a).0 (subst (λ v. Mem v (y ∷ [])) (sym e) mem-cons_self)) in
      let last =
        far y z y<n z<n (λ e. (Nodup-cons.0 b).0 (subst (λ v. Mem v (y ∷ [])) e mem-cons_self)) in
      omega arith
  chain x y (w ∷ ws) z a b below z<n =
      let x<n = below x mem-cons_self in
      let y<n = below y (mem-cons_of_mem x mem-cons_self) in
      let first =
        far x y x<n y<n
          (λ e. (Nodup-cons.0 a).0 (subst (λ v. Mem v (y ∷ w ∷ ws)) (sym e) mem-cons_self)) in
      let rest =
        chain y w ws z (Nodup-cons.0 a).1
          (Nodup-cons.1
            (λ i. (Nodup-cons.0 b).0 (mem-cons_of_mem y i), (Nodup-cons.0 (Nodup-cons.0 b).1).1))
          (λ v i. below v (mem-cons_of_mem x i)) z<n in
      grind arith

  -- Every tour of at least two vertices costs at least `m` for each of them.
  tour_cost-above : (t : List ℕ) → IsTour n t → 2 ≤ length t → m * length t ≤ tour_cost d t
  tour_cost-above [] tour two = omega arith
  tour_cost-above (x ∷ []) tour two = omega arith
  tour_cost-above (x ∷ y ∷ xs) tour two =
      chain x y xs x tour.once tour.once (λ w i. (tour.covers w).0 i)
        ((tour.covers x).0 mem-cons_self)

  -- A tour whose every step has the least distance is optimal.
  pub IsOptimal-of_least :
      (t : List ℕ) → IsTour n t → 2 ≤ length t → tour_cost d t ≡ m * length t → IsOptimal d n t
  IsOptimal-of_least t tour two least = record {
    tour = tour;
    best = λ t' tour'.
        let same = IsTour-length n t t' tour tour' in
        let above = tour_cost-above t' tour' (omega arith) in
        let e : m * length t ≡ m * length t' = ap (◌*◌ m) same in omega arith;
  }
