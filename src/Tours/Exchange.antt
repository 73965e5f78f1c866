-- ===== src/Tours/Exchange.antt =====
-- The 2-exchange on closed tours: reversing a segment replaces exactly two edges.
use mathlib.Core.List.{
  Perm, reverse, reverse-cons, reverse-append, append-nil, append_assoc, reverse_perm,
}
use mathlib.Core.List.Perm
use mathlib.Core.List.Permᴰ
use cuda_edge_elimination.Base.{ℕ, ◌+◌, ◌≡◌, List, [], ◌∷◌, ◌++◌, arith, refl, ap, sym, ◌∙◌}
use cuda_edge_elimination.Tours.{path_cost, tour_cost, IsTour}

module _ (d : ℕ → ℕ → ℕ) where
  -- A walk splits at a vertex that both parts share.
  path_cost-append :
      (xs : List ℕ) (y : ℕ) (ys : List ℕ)
      → path_cost d (xs ++ y ∷ ys) ≡ path_cost d (xs ++ y ∷ []) + path_cost d (y ∷ ys)
  path_cost-append [] y ys = omega arith
  path_cost-append (x ∷ []) y ys = omega arith
  path_cost-append (x ∷ z ∷ xs) y ys = omega (arith, path_cost-append (z ∷ xs) y ys)

  path_cost-edge :
      (xs : List ℕ) (x y : ℕ) (ys : List ℕ)
      → path_cost d (xs ++ x ∷ y ∷ ys) ≡ path_cost d (xs ++ x ∷ []) + d x y + path_cost d (y ∷ ys)
  path_cost-edge xs x y ys = omega (arith, path_cost-append xs x (y ∷ ys))

  -- A tour of two segments: each is left for the first vertex of the other.
  tour_cost-append :
      (x : ℕ) (xs : List ℕ) (y : ℕ) (ys : List ℕ)
      → tour_cost d ((x ∷ xs) ++ y ∷ ys)
        ≡ path_cost d ((x ∷ xs) ++ y ∷ []) + path_cost d ((y ∷ ys) ++ x ∷ [])
  tour_cost-append x xs y ys =
      ap (path_cost d) (append_assoc (x ∷ xs) (y ∷ ys) (x ∷ []))
      ∙ path_cost-append (x ∷ xs) y (ys ++ x ∷ [])

  path_cost-concat :
      (xs zs : List ℕ) (x y : ℕ)
      → xs ≡ zs ++ x ∷ []
      → path_cost d (xs ++ y ∷ []) ≡ path_cost d xs + d x y
  path_cost-concat xs zs x y e = omega (
    arith,
    ap (λ l. path_cost d (l ++ y ∷ [])) e,
    ap (path_cost d) (append_assoc zs (x ∷ []) (y ∷ [])),
    path_cost-edge zs x y [],
    ap (path_cost d) e,
  )

  -- The cost does not depend on where the tour starts.
  pub tour_cost-rotate : (xs ys : List ℕ) → tour_cost d (xs ++ ys) ≡ tour_cost d (ys ++ xs)
  tour_cost-rotate [] ys = ap (tour_cost d) (sym (append-nil ys))
  tour_cost-rotate (x ∷ xs) [] = ap (tour_cost d) (append-nil (x ∷ xs))
  tour_cost-rotate (x ∷ xs) (y ∷ ys) =
      omega (arith, tour_cost-append x xs y ys, tour_cost-append y ys x xs)

  module _ (comm : (a b : ℕ) → d a b ≡ d b a) where
    path_cost-reverse : (xs : List ℕ) → path_cost d (reverse xs) ≡ path_cost d xs
    path_cost-reverse [] = refl
    path_cost-reverse (x ∷ []) = refl
    path_cost-reverse (x ∷ y ∷ xs) =
        let turned : reverse (x ∷ y ∷ xs) ≡ reverse xs ++ y ∷ x ∷ [] =
          reverse-append (x ∷ y ∷ []) xs in
        omega (
          arith,
          ap (path_cost d) turned,
          path_cost-edge (reverse xs) y x [],
          ap (path_cost d) (reverse-cons y xs),
          path_cost-reverse (y ∷ xs),
          comm x y,
        )

    -- The segment from `b` to `x`, given by both of its ends, is followed by the one from `y` to `a`.
    -- Reversing the first replaces the edges {x, y} and {a, b} by {b, y} and {a, x}.
    pub exchange_cost :
        (b x y a : ℕ) (xs zs ws vs : List ℕ)
        → b ∷ xs ≡ zs ++ x ∷ []
        → y ∷ ws ≡ vs ++ a ∷ []
        → tour_cost d (reverse (b ∷ xs) ++ y ∷ ws) + d x y + d a b
          ≡ tour_cost d ((b ∷ xs) ++ y ∷ ws) + d b y + d a x
    exchange_cost b x y a xs zs ws vs left right =
        let turned : reverse (b ∷ xs) ≡ x ∷ reverse zs =
          ap reverse left ∙ reverse-append zs (x ∷ []) in
        let back : x ∷ reverse zs ≡ reverse xs ++ b ∷ [] = sym turned ∙ reverse-cons b xs in
        omega (
          arith,
          ap (λ l. tour_cost d (l ++ y ∷ ws)) turned,
          tour_cost-append x (reverse zs) y ws,
          tour_cost-append b xs y ws,
          path_cost-concat (x ∷ reverse zs) (reverse xs) b y back,
          path_cost-concat (y ∷ ws) vs a x right,
          path_cost-concat (b ∷ xs) zs x y left,
          path_cost-concat (y ∷ ws) vs a b right,
          ap (path_cost d) (sym turned),
          path_cost-reverse (b ∷ xs),
        )

pub IsTour-perm : {n : ℕ} {s t : List ℕ} → Perm s t → IsTour n s → IsTour n t
IsTour-perm p t = record {
  once = Perm.nodup p t.once;
  covers = λ x.
      (λ m. (t.covers x).0 ((Perm.mem_iff p).1 m), λ lt. (Perm.mem_iff p).0 ((t.covers x).1 lt));
}

-- Nor does reversal or rotation change which vertices a tour visits.
pub IsTour-exchange : (n : ℕ) (xs ys : List ℕ) → IsTour n (xs ++ ys) → IsTour n (reverse xs ++ ys)
IsTour-exchange n xs ys = IsTour-perm (Perm.append (Perm.symm (reverse_perm xs)) (Perm.refl ys))

pub IsTour-rotate : (n : ℕ) (xs ys : List ℕ) → IsTour n (xs ++ ys) → IsTour n (ys ++ xs)
IsTour-rotate n xs ys = IsTour-perm ∣ Permᴰ.append_comm xs ys ∣₁
