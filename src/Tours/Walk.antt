-- ===== src/Tours/Walk.antt =====
-- Steps of closed tours: the edges of a walk, and rotating a tour so that a given step closes it.
use mathlib.Core.List.{append-nil, append_assoc}
use cuda_edge_elimination.Base.{
  ℕ, ◌≡◌, ◌⊎◌, List, [], ◌∷◌, ◌++◌, refl, ap, sym, ◌∙◌, inl, inr, subst,
}
use cuda_edge_elimination.Tours.{closed, Follows, Along, AlongPath}

module _ (E : ℕ → ℕ → Type 0) where
  -- A walk splits at a vertex that both parts share.
  AlongPath-append :
      (xs : List ℕ) (y : ℕ) (ys : List ℕ)
      → AlongPath E (xs ++ y ∷ ys)
      → AlongPath E (xs ++ y ∷ []) × AlongPath E (y ∷ ys)
  AlongPath-append [] y ys h = (tt, h)
  AlongPath-append (x ∷ []) y ys h = ((h.0, tt), h.1)
  AlongPath-append (x ∷ z ∷ xs) y ys h =
      let (left, right) = AlongPath-append (z ∷ xs) y ys h.1 in ((h.0, left), right)

  AlongPath-join :
      (xs : List ℕ) (y : ℕ) (ys : List ℕ)
      → AlongPath E (xs ++ y ∷ [])
      → AlongPath E (y ∷ ys)
      → AlongPath E (xs ++ y ∷ ys)
  AlongPath-join [] y ys h k = k
  AlongPath-join (x ∷ []) y ys h k = (h.0, k)
  AlongPath-join (x ∷ z ∷ xs) y ys h k = (h.0, AlongPath-join (z ∷ xs) y ys h.1 k)

  pub Along-rotate : (xs ys : List ℕ) → Along E (xs ++ ys) → Along E (ys ++ xs)
  Along-rotate [] ys h = subst (Along E) (sym (append-nil ys)) h
  Along-rotate (x ∷ xs) [] h = subst (Along E) (append-nil (x ∷ xs)) h
  Along-rotate (x ∷ xs) (y ∷ ys) h =
      let (left, right) =
        AlongPath-append (x ∷ xs) y (ys ++ x ∷ [])
          (subst (AlongPath E) (append_assoc (x ∷ xs) (y ∷ ys) (x ∷ [])) h) in
      subst (AlongPath E) (sym (append_assoc (y ∷ ys) (x ∷ xs) (y ∷ [])))
        (AlongPath-join (y ∷ ys) x (xs ++ y ∷ []) right left)

  -- The step from `x` to `y`, wherever it stands.
  pub AlongPath-step :
      (xs : List ℕ) (x y : ℕ) (ys : List ℕ) → AlongPath E (xs ++ x ∷ y ∷ ys) → E x y
  AlongPath-step xs x y ys h = (AlongPath-append xs x (y ∷ ys) h).1.0

  AlongPath-intro_from :
      (before t : List ℕ)
      → ((a b : ℕ) (xs ys : List ℕ) → before ++ t ≡ xs ++ a ∷ b ∷ ys → E a b)
      → AlongPath E t
  AlongPath-intro_from before [] h = tt
  AlongPath-intro_from before (x ∷ []) h = tt
  AlongPath-intro_from before (x ∷ y ∷ rest) h = (
    h x y before rest refl,
    AlongPath-intro_from (before ++ x ∷ []) (y ∷ rest)
        (λ a b xs ys e. h a b xs ys (sym (append_assoc before (x ∷ []) (y ∷ rest)) ∙ e)),
  )

  pub Along-intro : (t : List ℕ) → ((a b : ℕ) → Follows (closed t) a b → E a b) → Along E t
  Along-intro t h = AlongPath-intro_from [] (closed t) (λ a b xs ys e. h a b (xs, ys, e))

pub List_last : (xs : List ℕ) → (xs ≡ []) ⊎ ((ys : List ℕ) × (y : ℕ) × (xs ≡ ys ++ y ∷ []))
List_last [] = inl refl
List_last (x ∷ xs) = elim (List_last xs) [
  | inl e ↦ inr ([], x, ap (◌∷◌ x) e)
  | inr (ys, y, e) ↦ inr (x ∷ ys, y, ap (◌∷◌ x) e)
]

pub concat-injective :
    (xs ys : List ℕ) (x y : ℕ) → xs ++ x ∷ [] ≡ ys ++ y ∷ [] → (xs ≡ ys) × (x ≡ y)
concat-injective [] [] x y e = (refl, cc)
concat-injective [] (z ∷ []) x y e = absurd (cc)
concat-injective [] (z ∷ w ∷ ys) x y e = absurd (cc)
concat-injective (z ∷ []) [] x y e = absurd (cc)
concat-injective (z ∷ w ∷ xs) [] x y e = absurd (cc)
concat-injective (z ∷ xs) (w ∷ ys) x y e =
    let (e', same) = concat-injective xs ys x y (cc) in (cc, same)

-- A tour with the step from `a` to `b` can be started at `b`, and then ends in `a`.
pub record StartsAt (t : List ℕ) (a b : ℕ) : Type 0 where
  pub us : List ℕ
  pub ws : List ℕ
  pub rest : List ℕ
  pub vs : List ℕ
  pub split : t ≡ us ++ ws
  pub rotated : ws ++ us ≡ b ∷ rest
  pub ends : b ∷ rest ≡ vs ++ a ∷ []

pub Follows-StartsAt : (t : List ℕ) (a b : ℕ) → Follows (closed t) a b → StartsAt t a b
Follows-StartsAt [] a b ([], ys, e) = absurd (cc)
Follows-StartsAt [] a b (x ∷ xs, ys, e) = absurd (cc)
Follows-StartsAt (s ∷ r) a b (xs, ys, e) = elim (List_last ys) [
  | inl none ↦
      let (same, s_eq) =
        concat-injective (s ∷ r) (xs ++ a ∷ []) s b
          (e ∙ ap (λ l. xs ++ a ∷ b ∷ l) none ∙ sym (append_assoc xs (a ∷ []) (b ∷ []))) in
      record {
        us = [];
        ws = s ∷ r;
        rest = r;
        vs = xs;
        split = refl;
        rotated = append-nil (s ∷ r) ∙ ap (λ x. x ∷ r) s_eq;
        ends = ap (λ x. x ∷ r) (sym s_eq) ∙ same;
      }
  | inr (zs, z, last) ↦
      let (same, _) =
        concat-injective (s ∷ r) (xs ++ a ∷ b ∷ zs) s z
          (e ∙ ap (λ l. xs ++ a ∷ b ∷ l) last ∙ sym (append_assoc xs (a ∷ b ∷ zs) (z ∷ []))) in
      record {
        us = xs ++ a ∷ [];
        ws = b ∷ zs;
        rest = zs ++ xs ++ a ∷ [];
        vs = b ∷ zs ++ xs;
        split = same ∙ sym (append_assoc xs (a ∷ []) (b ∷ zs));
        rotated = ap (◌∷◌ b) (sym (append_assoc zs xs (a ∷ [])));
        ends = refl;
      }
]
