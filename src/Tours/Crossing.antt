-- ===== src/Tours/Crossing.antt =====
-- A vertex whose every neighbour admits a gainful 2-exchange against the edge {a, b} rules that edge
-- out of every optimal tour: the combinatorial heart of the Jonker-Volgenant test.
use mathlib.Core.List.{
  Mem, Nodup, Nodup-cons, append_assoc, append_of_mem, mem-cons_self, mem-append_right,
  mem-cons_of_mem, reverse,
}
use mathlib.Core.List.{Memᴰ}
use mathlib.Core.List.Memᴰ
use mathlib.Core.List.Nodup
use mathlib.Core.HLevel.{⊥_prop}
use mathlib.Core.Bool.{So-prop}
use mathlib.Core.Logic.{∥∥₁_map, ∥∥₁_elim}
use cuda_edge_elimination.Base.{
  ℕ, ◌+◌, ◌<◌, ◌≡◌, ◌≢◌, ◌⊎◌, List, [], ◌∷◌, ◌++◌, arith, refl, ap, sym, ◌∙◌, inl, inr, subst,
  ℕ_discrete, true, ◌||◌, ◌==◌,
}
use cuda_edge_elimination.Tours.{
  closed, Follows, Along, AlongPath, IsTour, IsOptimal, Uses, tour_cost,
}
use cuda_edge_elimination.Tours.Walk.{
  Along-rotate, AlongPath-step, List_last, concat-injective, Follows-StartsAt,
}
use cuda_edge_elimination.Tours.Exchange.{
  exchange_cost, tour_cost-rotate, IsTour-exchange, IsTour-rotate,
}

distinct_at : (xs : List ℕ) (x y : ℕ) (ys : List ℕ) → Nodup (xs ++ x ∷ ys) → Mem y ys → x ≢ y
distinct_at xs x y ys n m e =
    (Nodup-cons.0 (Nodup.of_append_right xs n)).0 (subst (λ z. Mem z ys) (sym e) m)

-- Both 2-exchanges of {a, b} with the edge between `c` and its neighbour `w` gain.
abbrev pub Gains : (ℕ → ℕ → ℕ) → ℕ → ℕ → ℕ → ℕ → Type 0
Gains d a b c w = (d a c + d w b < d a b + d c w) × (d a w + d b c < d a b + d c w)

abbrev pub Improvable : (ℕ → ℕ → ℕ) → ℕ → List ℕ → Type 0
Improvable d n t = (t' : List ℕ) × IsTour n t' × (tour_cost d t' < tour_cost d t)

-- Both ends of a list agree on its last element.
last_of :
    (b c a : ℕ) (xs : List ℕ) (y : ℕ) (ws vs : List ℕ)
    → (b ∷ xs) ++ c ∷ y ∷ ws ≡ vs ++ a ∷ []
    → (us : List ℕ) × (y ∷ ws ≡ us ++ a ∷ [])
last_of b c a xs y ws vs e = elim (List_last (y ∷ ws)) [
  | inl none ↦ absurd (cc)
  | inr (us, z, last) ↦
      let (_, z_eq) =
        concat-injective ((b ∷ xs) ++ c ∷ us) vs z a
          (append_assoc (b ∷ xs) (c ∷ us) (z ∷ []) ∙ ap (λ l. (b ∷ xs) ++ c ∷ l) (sym last) ∙ e) in
      (us, last ∙ ap (λ w. us ++ w ∷ []) z_eq)
]

mem_three : {x b c a : ℕ} → Memᴰ x (b ∷ c ∷ a ∷ []) → ((x == b) || (x == c) || (x == a)) ≡ true
mem_three m = elim (Memᴰ.cases_cons m) [
  | inl e ↦ ground arith
  | inr m' ↦ elim (Memᴰ.cases_cons m') [
    | inl e ↦ ground arith
    | inr m'' ↦ let e = Memᴰ.eq_of_singleton m'' in ground arith
  ]
]

-- A graph of more than three vertices has no tour of three.
three_too_few : {n b c a : ℕ} → 3 < n → IsTour n (b ∷ c ∷ a ∷ []) → ⊥
three_too_few {n} {b} {c} {a} large tour =
    ground (arith, at 0 (omega arith), at 1 (omega arith), at 2 (omega arith), at 3 (omega arith))
  where
    at : (x : ℕ) → x < n → ((x == b) || (x == c) || (x == a)) ≡ true
    at x lt = ∥∥₁_elim ((tour.covers x).1 lt) (So-prop _) mem_three

module _ (d : ℕ → ℕ → ℕ) (comm : (x y : ℕ) → d x y ≡ d y x) (E : ℕ → ℕ → Type 0) (a b c n : ℕ)
    (gains : (w : ℕ) → E c w ⊎ E w c → w ≢ a → w ≢ b → Gains d a b c w) where
  -- The successor of `c` is not `a`.
  exchange_after :
      (xs : List ℕ) (y : ℕ) (ws vs : List ℕ)
      → y ≢ a
      → y ∷ ws ≡ vs ++ a ∷ []
      → IsTour n ((b ∷ xs) ++ c ∷ y ∷ ws)
      → Along E ((b ∷ xs) ++ c ∷ y ∷ ws)
      → Improvable d n ((b ∷ xs) ++ c ∷ y ∷ ws)
  exchange_after xs y ws vs ne ends tour along =
      let regroup : (b ∷ xs) ++ c ∷ y ∷ ws ≡ (b ∷ xs ++ c ∷ []) ++ y ∷ ws =
        sym (append_assoc (b ∷ xs) (c ∷ []) (y ∷ ws)) in
      let y≢b : y ≢ b = λ e.
        distinct_at [] b y (xs ++ c ∷ y ∷ ws) tour.once
          (mem-append_right xs (mem-cons_of_mem c mem-cons_self)) (sym e) in
      let step : E c y =
        AlongPath-step E (b ∷ xs) c y (ws ++ b ∷ [])
          (subst (AlongPath E) (append_assoc (b ∷ xs) (c ∷ y ∷ ws) (b ∷ [])) along) in
      let (gain, _) = gains y (inl step) ne y≢b in
      (
        reverse (b ∷ xs ++ c ∷ []) ++ y ∷ ws,
        IsTour-exchange n (b ∷ xs ++ c ∷ []) (y ∷ ws) (subst (IsTour n) regroup tour),
        omega (
          arith,
          exchange_cost d comm b c y a (xs ++ c ∷ []) (b ∷ xs) ws vs refl ends,
          ap (tour_cost d) regroup,
          comm b y,
        ),
      )

  -- The successor of `c` is `a`, and its predecessor is another vertex than `b`.
  exchange_before :
      (zs : List ℕ) (p : ℕ) (ws vs : List ℕ)
      → a ∷ ws ≡ vs ++ a ∷ []
      → IsTour n ((b ∷ zs ++ p ∷ []) ++ c ∷ a ∷ ws)
      → Along E ((b ∷ zs ++ p ∷ []) ++ c ∷ a ∷ ws)
      → Improvable d n ((b ∷ zs ++ p ∷ []) ++ c ∷ a ∷ ws)
  exchange_before zs p ws vs ends tour along =
      let regroup : (b ∷ zs ++ p ∷ []) ++ c ∷ a ∷ ws ≡ (b ∷ zs) ++ p ∷ c ∷ a ∷ ws =
        append_assoc (b ∷ zs) (p ∷ []) (c ∷ a ∷ ws) in
      let tour' = subst (IsTour n) regroup tour in
      let p≢b : p ≢ b = λ e.
        distinct_at [] b p (zs ++ p ∷ c ∷ a ∷ ws) tour'.once (mem-append_right zs mem-cons_self)
          (sym e) in
      let p≢a : p ≢ a =
        distinct_at (b ∷ zs) p a (c ∷ a ∷ ws) tour'.once (mem-cons_of_mem c mem-cons_self) in
      let step : E p c = AlongPath-step E (b ∷ zs) p c (a ∷ ws ++ b ∷ []) (
        subst (AlongPath E) (append_assoc (b ∷ zs) (p ∷ c ∷ a ∷ ws) (b ∷ []))
          (subst (Along E) regroup along)) in
      let (_, gain) = gains p (inr step) p≢a p≢b in
      (
        reverse (b ∷ zs ++ p ∷ []) ++ c ∷ a ∷ ws,
        IsTour-exchange n (b ∷ zs ++ p ∷ []) (c ∷ a ∷ ws) tour,
        omega (
          arith,
          exchange_cost d comm b p c a (zs ++ p ∷ []) (b ∷ zs) (a ∷ ws) (c ∷ vs) refl
              (ap (◌∷◌ c) ends),
          comm p c,
        ),
      )

  -- The tour is not just `b`, `c` and `a`.
  alone :
      (xs : List ℕ) (y : ℕ) (ws vs : List ℕ)
      → y ≡ a
      → 3 < n
      → xs ≡ []
      → y ∷ ws ≡ vs ++ a ∷ []
      → IsTour n ((b ∷ xs) ++ c ∷ y ∷ ws)
      → ⊥
  alone xs y [] vs e large none ends tour =
      three_too_few large (subst (λ l. IsTour n ((b ∷ l) ++ c ∷ y ∷ [])) none tour)
  alone xs y (w ∷ ws) [] e large none ends tour = absurd (cc)
  alone xs y (w ∷ ws) (v ∷ vs) e large none ends tour =
      distinct_at (b ∷ xs ++ c ∷ []) y a (w ∷ ws)
        (subst Nodup (sym (append_assoc (b ∷ xs) (c ∷ []) (y ∷ w ∷ ws))) tour.once)
        (subst (Mem a) (sym tails) (mem-append_right vs mem-cons_self)) e
    where
      tails : w ∷ ws ≡ vs ++ a ∷ []
      tails = cc

  -- The successor of `c` is `a`.
  exchange_at :
      (xs : List ℕ) (y : ℕ) (ws vs : List ℕ)
      → y ≡ a
      → 3 < n
      → y ∷ ws ≡ vs ++ a ∷ []
      → IsTour n ((b ∷ xs) ++ c ∷ y ∷ ws)
      → Along E ((b ∷ xs) ++ c ∷ y ∷ ws)
      → Improvable d n ((b ∷ xs) ++ c ∷ y ∷ ws)
  exchange_at xs y ws vs e large ends tour along = elim (List_last xs) [
    | inl none ↦ absurd (alone xs y ws vs e large none ends tour)
    | inr (zs, p, last) ↦
        let same : (b ∷ xs) ++ c ∷ y ∷ ws ≡ (b ∷ zs ++ p ∷ []) ++ c ∷ a ∷ ws =
          ap (λ l. (b ∷ l) ++ c ∷ y ∷ ws) last ∙ ap (λ z. (b ∷ zs ++ p ∷ []) ++ c ∷ z ∷ ws) e in
        subst (Improvable d n) (sym same) (
          exchange_before zs p ws vs (ap (λ z. z ∷ ws) (sym e) ∙ ends) (subst (IsTour n) same tour)
            (subst (Along E) same along))
  ]

  -- A tour that starts at `b` and ends in `a`, split at `c`.
  improve_split :
      (t xs q vs : List ℕ)
      → 3 < n
      → c ≢ a
      → t ≡ (b ∷ xs) ++ c ∷ q
      → t ≡ vs ++ a ∷ []
      → IsTour n t
      → Along E t
      → Improvable d n t
  improve_split t xs [] vs large c≢a split ends tour along =
      absurd (c≢a (concat-injective (b ∷ xs) vs c a (sym split ∙ ends)).1)
  improve_split t xs (y ∷ ws) vs large c≢a split ends tour along =
      let tour' = subst (IsTour n) split tour in
      let along' = subst (Along E) split along in
      let (us, last) = last_of b c a xs y ws vs (sym split ∙ ends) in
      subst (Improvable d n) (sym split) (elim (ℕ_discrete y a) [
        | no other ↦ exchange_after xs y ws us other last tour' along'
        | yes same ↦ exchange_at xs y ws us same large last tour' along'
      ])

  split_at :
      (t rest vs : List ℕ)
      → 3 < n
      → c < n
      → c ≢ a
      → c ≢ b
      → t ≡ b ∷ rest
      → t ≡ vs ++ a ∷ []
      → IsTour n t
      → Along E t
      → ∥ Improvable d n t ∥₁
  split_at t rest vs large c<n c≢a c≢b start ends tour along =
      ∥∥₁_map (append_of_mem ((tour.covers c).1 c<n)) (λ (P, Q, split). go P Q split)
    where
      go : (P Q : List ℕ) → t ≡ P ++ c ∷ Q → Improvable d n t
      go [] Q split = absurd (c≢b (cc))
      go (p ∷ P) Q split =
          let p≡b : p ≡ b = cc in
          improve_split t P Q vs large c≢a (split ∙ ap (λ x. (x ∷ P) ++ c ∷ Q) p≡b) ends tour along

  improve_step :
      (t : List ℕ)
      → 3 < n
      → c < n
      → c ≢ a
      → c ≢ b
      → Follows (closed t) a b
      → IsTour n t
      → Along E t
      → ∥ Improvable d n t ∥₁
  improve_step t large c<n c≢a c≢b step tour along =
      let s = Follows-StartsAt t a b step in
      let turn : t ≡ s.us ++ s.ws = s.split in
      let tour' = IsTour-rotate n s.us s.ws (subst (IsTour n) turn tour) in
      let along' = Along-rotate E s.us s.ws (subst (Along E) turn along) in
      ∥∥₁_map
        (split_at (s.ws ++ s.us) s.rest s.vs large c<n c≢a c≢b s.rotated (s.rotated ∙ s.ends) tour'
          along')
        (λ (t', new, less).
          (t', new, omega (arith, ap (tour_cost d) turn, tour_cost-rotate d s.us s.ws)))

-- If every neighbour of `c` gains against {a, b}, no optimal tour of the graph uses {a, b}.
pub not-Uses :
    (d : ℕ → ℕ → ℕ)
    → ((x y : ℕ) → d x y ≡ d y x)
    → (E : ℕ → ℕ → Type 0) (a b c n : ℕ)
    → ((w : ℕ) → E c w ⊎ E w c → w ≢ a → w ≢ b → Gains d a b c w)
    → 3 < n
    → c < n
    → c ≢ a
    → c ≢ b
    → (t : List ℕ) → IsOptimal d n t
    → Along E t
    → ¬ Uses t a b
not-Uses d comm E a b c n gains large c<n c≢a c≢b t opt along (inl step) =
    ∥∥₁_elim (improve_step d comm E a b c n gains t large c<n c≢a c≢b step opt.tour along) ⊥_prop
      (λ (t', tour, less). let best = opt.best t' tour in omega arith)
not-Uses d comm E a b c n gains large c<n c≢a c≢b t opt along (inr step) =
    ∥∥₁_elim
      (improve_step d comm E b a c n
        (λ w e w≢b w≢a.
          let (first, second) = gains w e w≢a w≢b in
          (
            omega (arith, comm a b, comm b c, comm a w),
            omega (arith, comm a b, comm w b, comm a c),
          ))
        t large c<n c≢b c≢a step opt.tour along)
      ⊥_prop (λ (t', tour, less). let best = opt.best t' tour in omega arith)
