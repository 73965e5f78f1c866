-- ===== src/Graph/Search.antt =====
-- std::lower_bound and std::binary_search on an ascending range, as HasActiveEdge
-- (src/common/graph.cpp) uses them.
use cuda_edge_elimination.Base.{
  ℕ, zero, suc, ◌+◌, ◌-◌, ◌/◌, ◌<◌, ◌≤◌, ◌≡◌, ◌↔◌, sym, inl, inr, List, true, false, arith,
  Bool-cases, subst, ◌==◌, ◌&&◌, not, ltb, leb, get_or, ℕ_discrete,
}
use cuda_edge_elimination.Graph.{minus_one, lower_bound, binary_search}

-- xs[begin .. begin + count) is strictly ascending from `lo` on.
abbrev pub Ascending : ℕ → List ℕ → ℕ → ℕ → Type 0
Ascending lo xs begin zero = Unit {0}
Ascending lo xs begin (suc count) =
    (lo ≤ get_or xs begin minus_one)
    × Ascending (suc (get_or xs begin minus_one)) xs (suc begin) count

Ascending-least :
    (lo : ℕ) (xs : List ℕ) (begin count i : ℕ)
    → Ascending lo xs begin count
    → begin ≤ i
    → i < begin + count
    → lo ≤ get_or xs i minus_one
Ascending-least lo xs begin zero i h le lt = absurd (omega arith)
Ascending-least lo xs begin (suc count) i (first, h) le lt = elim (ℕ_discrete begin i) [
  | yes e ↦ subst (λ j. lo ≤ get_or xs j minus_one) e first
  | no other ↦
      let later =
        Ascending-least (suc (get_or xs begin minus_one)) xs (suc begin) count i h (omega arith)
          (omega arith) in
      omega arith
]

Ascending-less :
    (lo : ℕ) (xs : List ℕ) (begin count i j : ℕ)
    → Ascending lo xs begin count
    → begin ≤ i
    → i < j
    → j < begin + count
    → get_or xs i minus_one < get_or xs j minus_one
Ascending-less lo xs begin zero i j h le less lt = absurd (omega arith)
Ascending-less lo xs begin (suc count) i j (first, h) le less lt = elim (ℕ_discrete begin i) [
  | yes e ↦
      subst (λ k. get_or xs k minus_one < get_or xs j minus_one) e
        (Ascending-least (suc (get_or xs begin minus_one)) xs (suc begin) count j h (omega arith)
          (omega arith))
  | no other ↦
      Ascending-less (suc (get_or xs begin minus_one)) xs (suc begin) count i j h (omega arith) less
        (omega arith)
]

-- What std::lower_bound promises: the values before the place are less than `value`, those from it
-- on are not.
record IsLowerBound (xs : List ℕ) (first count value at : ℕ) : Type 0 where
  from : first ≤ at
  to : at ≤ first + count
  before : (i : ℕ) → first ≤ i → i < at → get_or xs i minus_one < value
  after : (i : ℕ) → at ≤ i → i < first + count → value ≤ get_or xs i minus_one

lower_bound-IsLowerBound :
    (lo begin size fuel : ℕ) (xs : List ℕ) (first count value : ℕ)
    → Ascending lo xs begin size
    → begin ≤ first
    → first + count ≤ begin + size
    → count < fuel
    → IsLowerBound xs first count value (lower_bound fuel xs first count value)
unfolding lower_bound
lower_bound-IsLowerBound lo begin size zero xs first count value h le fits fuel =
    absurd (omega arith)
lower_bound-IsLowerBound lo begin size (suc fuel') xs first count value h le fits fuel =
    elim (ℕ_discrete count 0) [
      | yes none ↦
          let zero_count : (count == 0) ≡ true = ground arith in
          rw zero_count (record {
            from = omega arith;
            to = omega arith;
            before = λ i ge lt. absurd (omega arith);
            after = λ i ge lt. absurd (omega arith);
          })
      | no some ↦
          let more : (count == 0) ≡ false = ground arith in
          let step = count / 2 in
          let half : step < count = omega arith in
          elim (Bool-cases (ltb (get_or xs (first + step) minus_one) value)) [
            | inl right ↦
                let r =
                  lower_bound-IsLowerBound lo begin size fuel' xs (first + step + 1)
                    (count - (step + 1)) value h (omega arith) (omega arith) (omega arith) in
                rw (more, right)
                  (record {
                    from = let f = r.from in omega arith;
                    to = let f = r.to in omega arith;
                    before = λ i ge lt. elim (Bool-cases (leb i (first + step))) [
                      | inl early ↦ elim (ℕ_discrete i (first + step)) [
                        | yes e ↦ subst (λ j. get_or xs j minus_one < value) (sym e) (ground arith)
                        | no other ↦
                            let less =
                              Ascending-less lo xs begin size i (first + step) h (omega arith)
                                (ground arith) (omega arith) in
                            ground arith
                      ]
                      | inr late ↦ r.before i (ground arith) lt
                    ];
                    after = λ i ge lt. r.after i ge (omega arith);
                  })
            | inr left ↦
                let r =
                  lower_bound-IsLowerBound lo begin size fuel' xs first step value h (omega arith)
                    (omega arith) (omega arith) in
                rw (more, left)
                  (record {
                    from = r.from;
                    to = let t = r.to in omega arith;
                    before = r.before;
                    after = λ i ge lt. elim (Bool-cases (ltb i (first + step))) [
                      | inl early ↦ r.after i ge (ground arith)
                      | inr late ↦ elim (ℕ_discrete i (first + step)) [
                        | yes e ↦ subst (λ j. value ≤ get_or xs j minus_one) (sym e) (ground arith)
                        | no other ↦
                            let less =
                              Ascending-less lo xs begin size (first + step) i h (omega arith)
                                (ground arith) (omega arith) in
                            ground arith
                      ]
                    ];
                  })
          ]
    ]

-- Some index of xs[begin .. begin + count) holds `value`.
abbrev pub Holds : List ℕ → ℕ → ℕ → ℕ → Type 0
Holds xs begin count value =
    (i : ℕ) × (begin ≤ i) × (i < begin + count) × (get_or xs i minus_one ≡ value)

IsLowerBound-Holds :
    (lo : ℕ) (xs : List ℕ) (begin count value at : ℕ)
    → Ascending lo xs begin count
    → IsLowerBound xs begin count value at
    → ((ltb at (begin + count) && not (ltb value (get_or xs at minus_one))) ≡ true)
      ↔ Holds xs begin count value
IsLowerBound-Holds lo xs begin count value at h r = (
  λ found.
      let inside : at < begin + count = ground arith in
      let least = r.after at (omega arith) inside in (at, r.from, inside, ground arith),
  λ (i, ge, lt, e). elim (Bool-cases (ltb i at)) [
    | inl early ↦ let less = r.before i ge (ground arith) in absurd (omega arith)
    | inr late ↦ elim (ℕ_discrete at i) [
      | yes same ↦
          let here : get_or xs at minus_one ≡ value =
            subst (λ j. get_or xs j minus_one ≡ value) (sym same) e in
          ground arith
      | no other ↦
          let less = Ascending-less lo xs begin count at i h r.from (ground arith) lt in
          ground arith
    ]
  ],
)

pub binary_search-Holds :
    (lo : ℕ) (xs : List ℕ) (begin end value : ℕ)
    → Ascending lo xs begin (end - begin)
    → (binary_search xs begin end value ≡ true) ↔ Holds xs begin (end - begin) value
unfolding binary_search
binary_search-Holds lo xs begin end value h =
    let r =
      lower_bound-IsLowerBound lo begin (end - begin) (suc (end - begin)) xs begin (end - begin)
        value h (omega arith) (omega arith) (omega arith) in
    let at = lower_bound (suc (end - begin)) xs begin (end - begin) value in
    let both = IsLowerBound-Holds lo xs begin (end - begin) value at h r in
    elim (Bool-cases (leb begin end)) [
      | inl fine ↦
          let whole : begin + (end - begin) ≡ end = ground arith in
          subst
            (λ z.
              ((ltb at z && not (ltb value (get_or xs at minus_one))) ≡ true)
              ↔ Holds xs begin (end - begin) value)
            whole both
      | inr empty ↦ (
        λ found. let from = r.from in absurd (ground arith),
        λ (i, ge, lt, e). absurd (ground arith),
      )
    ]
