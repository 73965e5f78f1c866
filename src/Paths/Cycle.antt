-- ===== src/Paths/Cycle.antt =====
-- IsAlternatingHamiltonianCycle (src/cpu/path_system.cpp): the walk through the endpoints.
use cuda_edge_elimination.Base.{
  ℕ, zero, suc, ◌+◌, ◌*◌, ◌<◌, ◌≡◌, ◌≢◌, ◌⊎◌, inl, inr, refl, sym, ap, ◌∙◌, List, [], ◌∷◌, Bool,
  true, false, Bool-cases, ◌&&◌, if◌then◌else◌, length, get_or, set, replicate, Option, some, none,
  arith, subst, ◌↔◌, length-set, get_or-set_ne, ℕ_discrete,
}
use cuda_edge_elimination.Paths.{
  EndpointMatching, mate_of, follow, walk, closes, is_alternating_hamiltonian_cycle,
  is_perfect_endpoint_matching, max_path_endpoints,
}
use cuda_edge_elimination.Paths.Perfect.Ranges.{is_perfect_endpoint_matching_iff}

-- The places that are not marked yet.
abbrev pub unmarked : List Bool → ℕ
unmarked [] = 0
unmarked (b ∷ bs) = (if b then 0 else 1) + unmarked bs

pub unmarked-set :
    (bs : List Bool) (i : ℕ) → get_or bs i true ≡ false → unmarked (set bs i true) + 1 ≡ unmarked bs
unmarked-set [] i h = absurd (ground arith)
unmarked-set (b ∷ bs) zero h = ground arith
unmarked-set (b ∷ bs) (suc i) h = let later = unmarked-set bs i h in omega arith

-- The walk ends as soon as the fuel is above the number of unmarked places.
walk-ends :
    (fuel : ℕ) (outside inside : EndpointMatching) (visited : List Bool) (current steps : ℕ)
    → unmarked visited < fuel
    → (out : ℕ × ℕ) × (walk fuel outside inside visited current steps ≡ some out)
unfolding walk
walk-ends zero outside inside visited current steps h = absurd (omega arith)
walk-ends (suc fuel) outside inside visited current steps h =
    elim (Bool-cases (get_or visited current true)) [
      | inl marked ↦ ((current, steps), ground arith)
      | inr fresh ↦
          let less = unmarked-set visited current fresh in
          let (out, e) =
            walk-ends fuel outside inside (set visited current true)
              (follow outside inside steps current) (suc steps) (omega arith) in
          (out, ground arith)
    ]

mark_self : (bs : List Bool) (i : ℕ) → get_or (set bs i true) i true ≡ true
mark_self [] i = refl
mark_self (b ∷ bs) zero = refl
mark_self (b ∷ bs) (suc i) = mark_self bs i

mark-cases :
    (bs : List Bool) (i e : ℕ) → (e ≡ i) ⊎ (get_or (set bs i true) e true ≡ get_or bs e true)
mark-cases bs i e = elim (ℕ_discrete e i) [
  | yes same ↦ inl same
  | no other ↦ inr (get_or-set_ne bs i e true true (λ h. other (sym h)))
]

-- A walk that takes a mate in `first`, then one in `second`, and so on in turn.
abbrev pub alternate : EndpointMatching → EndpointMatching → ℕ → ℕ → ℕ
alternate first second zero v = v
alternate first second (suc k) v = alternate second first k (mate_of first v)

-- Where the alternating walk from endpoint 0 is after so many steps.
abbrev pub position : EndpointMatching → EndpointMatching → ℕ → ℕ
position outside inside k = alternate inside outside k 0

-- The first `n` positions are distinct.
abbrev pub IsDistinct : EndpointMatching → EndpointMatching → ℕ → Type 0
IsDistinct outside inside n =
    (i j : ℕ) → i < j → j < n → position outside inside i ≢ position outside inside j

module _ (outside inside : EndpointMatching) where
  -- Where the loop stands after so many steps.
  abbrev stand : ℕ → ℕ
  stand zero = 0
  stand (suc k) = follow outside inside k (stand k)

  -- The first `n` positions are distinct.
  abbrev IsApart : ℕ → Type 0
  IsApart n = (i j : ℕ) → i < j → j < n → stand i ≢ stand j

  -- The positions before `k` are marked.
  abbrev Marked : ℕ → List Bool → Type 0
  Marked k visited = (j : ℕ) → j < k → get_or visited (stand j) true ≡ true

  -- Nothing else is.
  abbrev Walked : ℕ → List Bool → Type 0
  Walked k visited =
      (e : ℕ)
      → get_or visited e true ≡ true
      → e < length visited
      → (j : ℕ) × (j < k) × (stand j ≡ e)

  Marked-set :
      (k : ℕ) (visited : List Bool) → Marked k visited → Marked (suc k) (set visited (stand k) true)
  Marked-set k visited h j lt = elim (mark-cases visited (stand k) (stand j)) [
    | inl same ↦
        subst (λ e. get_or (set visited (stand k) true) e true ≡ true) (sym same)
          (mark_self visited (stand k))
    | inr keep ↦ elim (ℕ_discrete j k) [
      | yes last ↦
          subst (λ x. get_or (set visited (stand k) true) (stand x) true ≡ true) (sym last)
            (mark_self visited (stand k))
      | no before ↦ keep ∙ h j (omega arith)
    ]
  ]

  Walked-set :
      (k : ℕ) (visited : List Bool) → Walked k visited → Walked (suc k) (set visited (stand k) true)
  Walked-set k visited h e marked lt = elim (mark-cases visited (stand k) e) [
    | inl same ↦ (k, omega arith, sym same)
    | inr keep ↦
        let size = length-set visited (stand k) true in
        let (j, below, at) = h e (sym keep ∙ marked) (omega arith) in (j, omega arith, at)
  ]

  IsApart-suc :
      (k : ℕ) (visited : List Bool)
      → Marked k visited
      → get_or visited (stand k) true ≡ false
      → IsApart k
      → IsApart (suc k)
  IsApart-suc k visited h fresh d i j lt below same = elim (ℕ_discrete j k) [
    | no before ↦ d i j lt (omega arith) same
    | yes last ↦
        let here = h i (omega arith) in
        let at : stand i ≡ stand k = same ∙ ap stand last in
        let both = ap (λ e. get_or visited e true) at in absurd (ground arith)
  ]

  -- Where the walk stops, it has gone through distinct positions.
  walk-IsApart :
      (fuel k : ℕ) (visited : List Bool) (c s : ℕ)
      → walk fuel outside inside visited (stand k) k ≡ some (c, s)
      → Marked k visited
      → IsApart k
      → (stand s ≡ c) × IsApart s
  unfolding walk
  walk-IsApart zero k visited c s h m d = absurd (ground arith)
  walk-IsApart (suc fuel) k visited c s h m d = elim (Bool-cases (get_or visited (stand k) true)) [
    | inl marked ↦
        let same : k ≡ s = ground arith in
        let at : stand k ≡ c = ground arith in (ap stand (sym same) ∙ at, subst IsApart same d)
    | inr fresh ↦
        walk-IsApart fuel (suc k) (set visited (stand k) true) c s (ground arith)
          (Marked-set k visited m) (IsApart-suc k visited m fresh d)
  ]

  -- Through distinct positions it goes on until it comes back.
  walk-closes :
      (left fuel k n : ℕ) (visited : List Bool)
      → k + left ≡ n
      → left < fuel
      → 0 < n
      → IsApart n
      → stand n ≡ 0
      → ((j : ℕ) → stand j < length visited)
      → Marked k visited
      → Walked k visited
      → walk fuel outside inside visited (stand k) k ≡ some (0, n)
  unfolding walk
  walk-closes left zero k n visited e enough some_steps d back range m w = absurd (omega arith)
  walk-closes zero (suc fuel) k n visited e enough some_steps d back range m w =
      let all : k ≡ n = omega arith in
      let at : stand k ≡ 0 = ap stand all ∙ back in
      let start : get_or visited 0 true ≡ true = m 0 (omega arith) in
      let marked : get_or visited (stand k) true ≡ true =
        ap (λ e. get_or visited e true) at ∙ start in
      ground arith
  walk-closes (suc left) (suc fuel) k n visited e enough some_steps d back range m w =
      elim (Bool-cases (get_or visited (stand k) true)) [
        | inl marked ↦
            let (j, below, at) = w (stand k) marked (range k) in
            absurd (d j k below (omega arith) at)
        | inr fresh ↦
            let size = length-set visited (stand k) true in
            let later =
              walk-closes left fuel (suc k) n (set visited (stand k) true) (omega arith)
                (omega arith) some_steps d back (λ j. (let r = range j in omega arith))
                (Marked-set k visited m) (Walked-set k visited w) in
            ground arith
      ]

  stand-bound :
      (n : ℕ)
      → 0 < n
      → ((e : ℕ) → e < n → mate_of outside e < n)
      → ((e : ℕ) → e < n → mate_of inside e < n)
      → (k : ℕ) → stand k < n
  stand-bound n some_ends out ins zero = some_ends
  stand-bound n some_ends out ins (suc k) =
      let here = stand-bound n some_ends out ins k in
      let a = out (stand k) here in let b = ins (stand k) here in ground arith

true-ne-false : true ≢ false
true-ne-false h = ground arith

closes-lem :
    (path_count : ℕ) (p q : Bool) (w : Option (ℕ × ℕ)) (c s : ℕ)
    → w ≡ some (c, s)
    → (p && q) && closes path_count w ≡ true
    → (p ≡ true) × (q ≡ true) × (s ≡ 2 * path_count) × (c ≡ 0)
closes-lem path_count p q none c s e h = absurd (ground arith)
closes-lem path_count p q (some (c', s')) c s e h =
    (ground arith, ground arith, ground arith, ground arith)

closes-intro :
    (path_count : ℕ) (p q : Bool) (w : Option (ℕ × ℕ))
    → w ≡ some (0, 2 * path_count)
    → p ≡ true
    → q ≡ true
    → (p && q) && closes path_count w ≡ true
closes-intro path_count p q none e hp hq = absurd (ground arith)
closes-intro path_count p q (some (c', s')) e hp hq = ground arith

fresh-replicate : (n e : ℕ) → e < n → get_or (replicate n false) e true ≡ false
fresh-replicate zero e lt = absurd (omega arith)
fresh-replicate (suc n) zero lt = refl
fresh-replicate (suc n) (suc e) lt = fresh-replicate n e (omega arith)

follow-swap :
    (outside inside : EndpointMatching) (k v : ℕ)
    → follow inside outside k v ≡ follow outside inside (suc k) v
follow-swap outside inside k v = ground arith

alternate-follow :
    (outside inside : EndpointMatching) (k v : ℕ)
    → alternate inside outside (suc k) v ≡ follow outside inside k (alternate inside outside k v)
alternate-follow outside inside zero v = refl
alternate-follow outside inside (suc k) v =
    alternate-follow inside outside k (mate_of inside v)
    ∙ follow-swap outside inside k (alternate outside inside k (mate_of inside v))

-- The loop takes the alternating walk.
stand-position :
    (outside inside : EndpointMatching) (k : ℕ) → stand outside inside k ≡ position outside inside k
stand-position outside inside zero = refl
stand-position outside inside (suc k) =
    ap (follow outside inside k) (stand-position outside inside k)
    ∙ sym (alternate-follow outside inside k 0)

IsApart-IsDistinct :
    (outside inside : EndpointMatching) (n : ℕ)
    → IsApart outside inside n
    → IsDistinct outside inside n
IsApart-IsDistinct outside inside n d i j lt below same =
    d i j lt below (stand-position outside inside i ∙ same ∙ sym (stand-position outside inside j))

IsDistinct-IsApart :
    (outside inside : EndpointMatching) (n : ℕ)
    → IsDistinct outside inside n
    → IsApart outside inside n
IsDistinct-IsApart outside inside n d i j lt below same =
    d i j lt below (sym (stand-position outside inside i) ∙ same ∙ stand-position outside inside j)

-- IsAlternatingHamiltonianCycle accepts exactly when both matchings are perfect and the walk from
-- endpoint 0 that takes an inside mate and an outside mate in turn is back at 0 after 2 * path_count
-- steps and meets no endpoint twice before.
pub is_alternating_hamiltonian_cycle_iff :
    (outside inside : EndpointMatching) (path_count : ℕ)
    → (is_alternating_hamiltonian_cycle outside inside path_count ≡ true) ↔ (
        (is_perfect_endpoint_matching outside path_count ≡ true)
        × (is_perfect_endpoint_matching inside path_count ≡ true)
        × (position outside inside (2 * path_count) ≡ 0)
        × IsDistinct outside inside (2 * path_count))
unfolding is_alternating_hamiltonian_cycle
is_alternating_hamiltonian_cycle_iff outside inside path_count =
    let start = replicate max_path_endpoints false in
    let ran = walk (suc max_path_endpoints) outside inside start 0 0 in
    (
      λ h.
          let ((c, s), e) =
            walk-ends (suc max_path_endpoints) outside inside start 0 0 (omega arith) in
          let (at, d) =
            walk-IsApart outside inside (suc max_path_endpoints) 0 start c s e
              (λ j lt. absurd (omega arith)) (λ i j lt below. absurd (omega arith)) in
          let (p, q, steps, zeroth) =
            closes-lem path_count (is_perfect_endpoint_matching outside path_count)
              (is_perfect_endpoint_matching inside path_count) ran c s e h in
          (
            p,
            q,
            sym (stand-position outside inside (2 * path_count))
                ∙ ap (stand outside inside) (sym steps)
                ∙ at
                ∙ zeroth,
            IsApart-IsDistinct outside inside (2 * path_count)
                (subst (IsApart outside inside) steps d),
          ),
      λ (p, q, back, d).
          let (several, few, n, mated) =
            (is_perfect_endpoint_matching_iff outside path_count).0 p in
          let (_, _, n', mated') = (is_perfect_endpoint_matching_iff inside path_count).0 q in
          let inside_bound =
            stand-bound outside inside (2 * path_count) (omega arith)
              (λ e lt. (let (a, _, _) = mated e (omega arith) in omega arith))
              (λ e lt. (let (a, _, _) = mated' e (omega arith) in omega arith)) in
          let done =
            walk-closes outside inside (2 * path_count) (suc max_path_endpoints) 0 (2 * path_count)
              start (omega arith) (omega arith) (omega arith)
              (IsDistinct-IsApart outside inside (2 * path_count) d)
              (stand-position outside inside (2 * path_count) ∙ back)
              (λ j. (let b = inside_bound j in omega arith)) (λ j lt. absurd (omega arith))
              (λ e marked lt.
                (let f = fresh-replicate max_path_endpoints e lt in
                  absurd (true-ne-false (sym marked ∙ f)))) in
          closes-intro path_count (is_perfect_endpoint_matching outside path_count)
            (is_perfect_endpoint_matching inside path_count) ran done p q,
    )
