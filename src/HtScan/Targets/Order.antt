-- ===== src/HtScan/Targets/Order.antt =====
-- The order in which SelectHtTargetEdgeIds (src/cpu/ht_scan.cpp) puts its targets, apart from the code
-- that compares two of them, and what the sort makes of it.
use cuda_edge_elimination.Base.{
  ℕ, ◌≡◌, ◌<◌, ◌↔◌, inl, inr, ◌⊎◌, List, [], ◌∷◌, Bool, true, false, arith, Bool-cases, get_elem?,
  ltb, ◌==◌, ◌||◌, ◌&&◌, ◌≢◌, sym,
}
use cuda_edge_elimination.Types.{Edge}
use cuda_edge_elimination.Commit.{edge_or}
use cuda_edge_elimination.HtScan.{
  TargetOrder, canonical, weight_descending, target_less, insert_target, sort_targets,
}

-- Some entry is `i`.
abbrev pub Lists : List ℕ → ℕ → Type 0
Lists [] i = ⊥
Lists (x ∷ xs) i = (x ≡ i) ⊎ Lists xs i

insert_target-Lists :
    (order : TargetOrder) (es : List Edge) (a : ℕ) (xs : List ℕ) (i : ℕ)
    → Lists (insert_target order es a xs) i ↔ Lists (a ∷ xs) i
unfolding insert_target
insert_target-Lists order es a [] i = (λ h. h, λ h. h)
insert_target-Lists order es a (b ∷ bs) i = elim (Bool-cases (target_less order es b a)) [
  | inr stop ↦ rw stop (λ h. h, λ h. h)
  | inl pass ↦
      let (f, back) = insert_target-Lists order es a bs i in
      rw pass (
        λ h. elim h [
          | inl e ↦ inr (inl e)
          | inr m ↦ elim (f m) [ inl e ↦ inl e | inr n ↦ inr (inr n) ]
        ],
        λ h. elim h [
          | inl e ↦ inr (back (inl e))
          | inr (inl e) ↦ inl e
          | inr (inr n) ↦ inr (back (inr n))
        ],
      )
]

pub sort_targets-Lists :
    (order : TargetOrder) (es : List Edge) (xs : List ℕ) (i : ℕ)
    → Lists (sort_targets order es xs) i ↔ Lists xs i
unfolding sort_targets
sort_targets-Lists order es [] i = (λ h. h, λ h. h)
sort_targets-Lists order es (a ∷ xs) i =
    let (f, back) = insert_target-Lists order es a (sort_targets order es xs) i in
    let (f', back') = sort_targets-Lists order es xs i in
    (
      λ h. elim (f h) [ inl e ↦ inl e | inr m ↦ inr (f' m) ],
      λ h. back (elim h [ inl e ↦ inl e | inr m ↦ inr (back' m) ]),
    )

-- The edge `e` with the id `a` stands before the edge `f` with the id `b`: by the ends, and by the
-- ids where the ends agree.
abbrev pub EndsBefore : ℕ → Edge → ℕ → Edge → Type 0
EndsBefore a e b f = (e.u < f.u) ⊎ ((e.u ≡ f.u) × ((e.v < f.v) ⊎ ((e.v ≡ f.v) × (a < b))))

-- In canonical order by the ends, in the other order the heavier edge first.
abbrev pub Before : TargetOrder → ℕ → Edge → ℕ → Edge → Type 0
Before canonical a e b f = EndsBefore a e b f
Before weight_descending a e b f =
    (f.weight < e.weight) ⊎ ((e.weight ≡ f.weight) × EndsBefore a e b f)

-- The id `a` stands strictly before all of the ids.
abbrev pub BeforeEach : TargetOrder → List Edge → ℕ → List ℕ → Type 0
BeforeEach order es a [] = Unit {0}
BeforeEach order es a (b ∷ rest) =
    Before order a (edge_or (get_elem? es a)) b (edge_or (get_elem? es b))
    × BeforeEach order es a rest

-- Each id stands strictly before all the ids after it.
abbrev pub Ordered : TargetOrder → List Edge → List ℕ → Type 0
Ordered order es [] = Unit {0}
Ordered order es (a ∷ rest) = BeforeEach order es a rest × Ordered order es rest

ends_less-EndsBefore :
    (a b : ℕ) (e f : Edge)
    → ltb e.u f.u || (e.u == f.u && (ltb e.v f.v || (e.v == f.v && ltb a b))) ≡ true
    → EndsBefore a e b f
ends_less-EndsBefore a b e f h = elim (Bool-cases (ltb e.u f.u)) [
  | inl less ↦ inl (ground arith)
  | inr same_u ↦ elim (Bool-cases (ltb e.v f.v)) [
    | inl less ↦ inr (ground arith, inl (ground arith))
    | inr same_v ↦ inr (ground arith, inr (ground arith, ground arith))
  ]
]

target_less-Before :
    (order : TargetOrder) (es : List Edge) (a b : ℕ)
    → target_less order es a b ≡ true
    → Before order a (edge_or (get_elem? es a)) b (edge_or (get_elem? es b))
unfolding target_less
target_less-Before canonical es a b h =
    ends_less-EndsBefore a b (edge_or (get_elem? es a)) (edge_or (get_elem? es b)) h
target_less-Before weight_descending es a b h =
    let e = edge_or (get_elem? es a) in
    let f = edge_or (get_elem? es b) in
    elim (Bool-cases (e.weight == f.weight)) [
      | inl even ↦ inr (ground arith, ends_less-EndsBefore a b e f (ground arith))
      | inr other ↦ inl (ground arith)
    ]

target_less_total :
    (order : TargetOrder) (es : List Edge) (a b : ℕ)
    → a ≢ b
    → target_less order es b a ≡ false
    → target_less order es a b ≡ true
unfolding target_less
target_less_total order es a b other h = ground arith

-- A lexicographic comparison is transitive if its later part is.
lexicographic_trans :
    (x y z : ℕ) (p q r : Bool)
    → (p ≡ true → q ≡ true → r ≡ true)
    → ltb x y || (x == y && p) ≡ true
    → ltb y z || (y == z && q) ≡ true
    → ltb x z || (x == z && r) ≡ true
lexicographic_trans x y z p q r later h h' = elim (Bool-cases (ltb x z)) [
  | inl less ↦ ground arith
  | inr not_less ↦
      let first : x ≡ y = ground arith in
      let second : y ≡ z = ground arith in
      let fine = later (ground arith) (ground arith) in ground arith
]

ends_less_trans :
    (a b c : ℕ) (d e f : Edge)
    → ltb d.u e.u || (d.u == e.u && (ltb d.v e.v || (d.v == e.v && ltb a b))) ≡ true
    → ltb e.u f.u || (e.u == f.u && (ltb e.v f.v || (e.v == f.v && ltb b c))) ≡ true
    → ltb d.u f.u || (d.u == f.u && (ltb d.v f.v || (d.v == f.v && ltb a c))) ≡ true
ends_less_trans a b c d e f =
    lexicographic_trans d.u e.u f.u _ _ _
      (lexicographic_trans d.v e.v f.v _ _ _ (λ less less'. ground arith))

target_less_trans :
    (order : TargetOrder) (es : List Edge) (a b c : ℕ)
    → target_less order es a b ≡ true
    → target_less order es b c ≡ true
    → target_less order es a c ≡ true
unfolding target_less
target_less_trans canonical es a b c h h' =
    ends_less_trans a b c (edge_or (get_elem? es a)) (edge_or (get_elem? es b))
      (edge_or (get_elem? es c)) h h'
target_less_trans weight_descending es a b c h h' =
    let d = edge_or (get_elem? es a) in
    let e = edge_or (get_elem? es b) in
    let f = edge_or (get_elem? es c) in
    elim (Bool-cases (d.weight == e.weight)) [
      | inr heavier ↦
          let less : ltb e.weight d.weight ≡ true = rw heavier at h in
          elim (Bool-cases (e.weight == f.weight)) [
            | inl even ↦
                let apart : d.weight == f.weight ≡ false = ground arith in rw apart (ground arith)
            | inr heavier' ↦
                let less' : ltb f.weight e.weight ≡ true = rw heavier' at h' in
                let apart : d.weight == f.weight ≡ false = ground arith in rw apart (ground arith)
          ]
      | inl even ↦ elim (Bool-cases (e.weight == f.weight)) [
        | inl even' ↦
            let same : d.weight == f.weight ≡ true = ground arith in
            rw same (ends_less_trans a b c d e f (rw even at h) (rw even' at h'))
        | inr heavier' ↦
            let less' : ltb f.weight e.weight ≡ true = rw heavier' at h' in
            let apart : d.weight == f.weight ≡ false = ground arith in rw apart (ground arith)
      ]
    ]

module _ (order : TargetOrder) (es : List Edge) where
  abbrev LessEach : ℕ → List ℕ → Type 0
  LessEach a [] = Unit {0}
  LessEach a (b ∷ rest) = (target_less order es a b ≡ true) × LessEach a rest

  abbrev pub IsSorted : List ℕ → Type 0
  IsSorted [] = Unit {0}
  IsSorted (a ∷ rest) = LessEach a rest × IsSorted rest

  LessEach-trans :
      (a b : ℕ) (xs : List ℕ) → target_less order es a b ≡ true → LessEach b xs → LessEach a xs
  LessEach-trans a b [] h less = tt
  LessEach-trans a b (c ∷ xs) h (now, less) =
      (target_less_trans order es a b c h now, LessEach-trans a b xs h less)

  LessEach-insert_target :
      (a b : ℕ) (xs : List ℕ)
      → target_less order es a b ≡ true
      → LessEach a xs
      → LessEach a (insert_target order es b xs)
  unfolding insert_target
  LessEach-insert_target a b [] h less = (h, tt)
  LessEach-insert_target a b (c ∷ xs) h (now, less) = elim (Bool-cases (target_less order es c b)) [
    | inl pass ↦ rw pass (now, LessEach-insert_target a b xs h less)
    | inr stop ↦ rw stop (h, (now, less))
  ]

  insert_target-IsSorted :
      (a : ℕ) (xs : List ℕ) → ¬ Lists xs a → IsSorted xs → IsSorted (insert_target order es a xs)
  unfolding insert_target
  insert_target-IsSorted a [] fresh h = (tt, tt)
  insert_target-IsSorted a (b ∷ xs) fresh (less, h) = elim (Bool-cases (target_less order es b a)) [
    | inl pass ↦ rw pass (
      LessEach-insert_target b a xs pass less,
      insert_target-IsSorted a xs (λ m. fresh (inr m)) h,
    )
    | inr stop ↦
        let now = target_less_total order es a b (λ e. fresh (inl (sym e))) stop in
        rw stop ((now, LessEach-trans a b xs now less), (less, h))
  ]

  -- No id twice.
  abbrev pub Unrepeated : List ℕ → Type 0
  Unrepeated [] = Unit {0}
  Unrepeated (a ∷ rest) = (¬ Lists rest a) × Unrepeated rest

  pub sort_targets-IsSorted : (xs : List ℕ) → Unrepeated xs → IsSorted (sort_targets order es xs)
  unfolding sort_targets
  sort_targets-IsSorted [] h = tt
  sort_targets-IsSorted (a ∷ xs) (fresh, h) =
      insert_target-IsSorted a (sort_targets order es xs)
        (λ m. fresh ((sort_targets-Lists order es xs a).0 m)) (sort_targets-IsSorted xs h)

  LessEach-BeforeEach : (a : ℕ) (xs : List ℕ) → LessEach a xs → BeforeEach order es a xs
  LessEach-BeforeEach a [] h = tt
  LessEach-BeforeEach a (b ∷ xs) (now, h) =
      (target_less-Before order es a b now, LessEach-BeforeEach a xs h)

  pub IsSorted-Ordered : (xs : List ℕ) → IsSorted xs → Ordered order es xs
  IsSorted-Ordered [] h = tt
  IsSorted-Ordered (a ∷ xs) (less, h) = (LessEach-BeforeEach a xs less, IsSorted-Ordered xs h)
