-- ===== src/Paths/Outside.antt =====
-- EnumerateOutsideMatchings (src/cpu/path_system.cpp): the enumeration returns.
use cuda_edge_elimination.Base.{
  ℕ, zero, suc, ◌+◌, ◌-◌, ◌*◌, ◌^◌, ◌%◌, ◌≤◌, ◌<◌, ◌≡◌, ◌≢◌, inl, inr, refl, sym, ap, ◌∙◌, List, [],
  ◌∷◌, ◌++◌, Bool, true, not, ◌&&◌, ltb, ◌==◌, Bool-cases, arith, length, length-append, set, All,
  get_or-set_ne, get_or-replicate, subst,
}
use cuda_edge_elimination.Base.Outcome.{ok}
use cuda_edge_elimination.Paths.{
  EndpointMatching, join, add_pair, empty_matching, max_path_endpoints, unmatched_endpoint,
  reversed_bit, outside_matching, outside_orientations, outside_permutations, permutations_from,
  permutation_fuel, count_up, times_from, validate_path_count, expected_outside_matching_count,
  enumerate_outside_matchings,
}
use cuda_edge_elimination.Paths.Perfect.{Free}

add_pair-join :
    (m : EndpointMatching) (first second : ℕ)
    → first ≢ second
    → first < m.endpoint_count
    → second < m.endpoint_count
    → Free m first
    → Free m second
    → add_pair m first second ≡ ok (join m first second)
unfolding add_pair
add_pair-join m first second other f s free free' = ground arith

join-elsewhere :
    (m : EndpointMatching) (first second e : ℕ)
    → e ≢ first
    → e ≢ second
    → Free m e
    → Free (join m first second) e
join-elsewhere m first second e n1 n2 free =
    get_or-set_ne (set m.mate first (second % 256)) second e (first % 256) 255 (λ h. n2 (sym h))
    ∙ get_or-set_ne m.mate first e (second % 256) 255 (λ h. n1 (sym h))
    ∙ free

-- Both ends of the path `q` are still to be joined, and neither is where the last path was left.
abbrev Waiting : ℕ → EndpointMatching → ℕ → ℕ → Type 0
Waiting n m outgoing q =
    (0 < q)
    × (q < n)
    × Free m (2 * q)
    × Free m (2 * q + 1)
    × (outgoing ≢ 2 * q)
    × (outgoing ≢ 2 * q + 1)

Waiting-join :
    (n : ℕ) (m : EndpointMatching) (outgoing path b b' : ℕ)
    → b + b' ≡ 1
    → (qs : List ℕ) → All (λ q. path ≢ q) qs
    → All (Waiting n m outgoing) qs
    → All (Waiting n (join m outgoing (2 * path + b)) (2 * path + b')) qs
Waiting-join n m outgoing path b b' one [] others waiting = tt
Waiting-join n m outgoing path b b' one (q ∷ qs) (other, others)
      ((some, few, free, free', ne, ne'), waiting) =
    (
      (
        some,
        few,
        join-elsewhere m outgoing (2 * path + b) (2 * q) (λ h. ne (sym h))
            (λ h. other (omega arith)) free,
        join-elsewhere m outgoing (2 * path + b) (2 * q + 1) (λ h. ne' (sym h))
            (λ h. other (omega arith)) free',
        (λ h. other (omega arith)),
        (λ h. other (omega arith)),
      ),
      Waiting-join n m outgoing path b b' one qs others waiting,
    )

-- No path twice.
abbrev Unrepeated : List ℕ → Type 0
Unrepeated [] = Unit {0}
Unrepeated (q ∷ qs) = All (λ r. q ≢ r) qs × Unrepeated qs

outside_matching-returns :
    (n orientations position outgoing : ℕ) (m : EndpointMatching) (qs : List ℕ)
    → m.endpoint_count ≡ 2 * n
    → outgoing ≢ 0
    → outgoing < 2 * n
    → Free m outgoing
    → Free m 0
    → All (Waiting n m outgoing) qs
    → Unrepeated qs
    → (next : EndpointMatching) × (outside_matching orientations position outgoing m qs ≡ ok next)
unfolding outside_matching
outside_matching-returns n orientations position outgoing m [] ends other few free zeroth waiting
      once =
    (join m outgoing 0, add_pair-join m outgoing 0 other (omega arith) (omega arith) free zeroth)
outside_matching-returns n orientations position outgoing m (path ∷ qs) ends other few free zeroth
      ((some, below, free_even, free_odd, ne, ne'), waiting) (others, once) =
    let even : 2 * path ≡ 2 * path + 0 = omega arith in
    let free_even' : Free m (2 * path + 0) = subst (Free m) even free_even in
    elim (Bool-cases (reversed_bit orientations position)) [
      | inl reversed ↦
          let joined =
            add_pair-join m outgoing (2 * path + 1) ne' (omega arith) (omega arith) free free_odd in
          let (next, done) =
            outside_matching-returns n orientations (suc position) (2 * path + 0)
              (join m outgoing (2 * path + 1)) qs ends (λ h. absurd (omega arith)) (omega arith)
              (join-elsewhere m outgoing (2 * path + 1) (2 * path + 0) (λ h. ne (omega arith))
                (λ h. absurd (omega arith)) free_even')
              (join-elsewhere m outgoing (2 * path + 1) 0 (λ h. other (sym h))
                (λ h. absurd (omega arith)) zeroth)
              (Waiting-join n m outgoing path 1 0 refl qs others waiting) once in
          (next, rw (reversed, joined) done)
      | inr plain ↦
          let joined =
            add_pair-join m outgoing (2 * path + 0) (λ h. ne (omega arith)) (omega arith)
              (omega arith) free free_even' in
          let (next, done) =
            outside_matching-returns n orientations (suc position) (2 * path + 1)
              (join m outgoing (2 * path + 0)) qs ends (λ h. absurd (omega arith)) (omega arith)
              (join-elsewhere m outgoing (2 * path + 0) (2 * path + 1) (λ h. ne' (sym h))
                (λ h. absurd (omega arith)) free_odd)
              (join-elsewhere m outgoing (2 * path + 0) 0 (λ h. other (sym h))
                (λ h. absurd (omega arith)) zeroth)
              (Waiting-join n m outgoing path 0 1 refl qs others waiting) once in
          (next, rw (plain, joined) done)
    ]

-- A permutation of some of the paths from 1 to n - 1.
abbrev IsOrder : ℕ → List ℕ → Type 0
IsOrder n qs = All (λ q. (0 < q) × (q < n)) qs × Unrepeated qs

fresh_in : ℕ → List ℕ → Bool
fresh_in q [] = true
fresh_in q (r ∷ rs) = not (q == r) && fresh_in q rs

is_order : ℕ → List ℕ → Bool
unfolding fresh_in
is_order n [] = true
is_order n (q ∷ qs) = (ltb 0 q && ltb q n) && (fresh_in q qs && is_order n qs)

all_orders : ℕ → List (List ℕ) → Bool
unfolding is_order
all_orders n [] = true
all_orders n (p ∷ ps) = is_order n p && all_orders n ps

fresh_in-All : (q : ℕ) (qs : List ℕ) → fresh_in q qs ≡ true → All (λ r. q ≢ r) qs
unfolding fresh_in
fresh_in-All q [] h = tt
fresh_in-All q (r ∷ qs) h = ((λ same. absurd (ground arith)), fresh_in-All q qs (ground arith))

is_order-IsOrder : (n : ℕ) (qs : List ℕ) → is_order n qs ≡ true → IsOrder n qs
unfolding is_order
is_order-IsOrder n [] h = (tt, tt)
is_order-IsOrder n (q ∷ qs) h =
    let (range, once) = is_order-IsOrder n qs (ground arith) in
    (((ground arith, ground arith), range), (fresh_in-All q qs (ground arith), once))

Waiting-empty :
    (n : ℕ) (qs : List ℕ)
    → All (λ q. (0 < q) × (q < n)) qs
    → All (Waiting n (empty_matching n) 1) qs
Waiting-empty n [] h = tt
Waiting-empty n (q ∷ qs) ((some, few), h) = (
  (
    some,
    few,
    get_or-replicate max_path_endpoints (2 * q) unmatched_endpoint,
    get_or-replicate max_path_endpoints (2 * q + 1) unmatched_endpoint,
    (λ e. absurd (omega arith)),
    (λ e. absurd (omega arith)),
  ),
  Waiting-empty n qs h,
)

module _ (n : ℕ) (some_paths : 0 < n) (few : n ≤ 7) where
  outside_orientations-returns :
      (qs : List ℕ) (orientations count : ℕ)
      → IsOrder n qs
      → (ms : List EndpointMatching) × (outside_orientations n qs orientations count ≡ ok ms)
        × (length ms ≡ count)
  unfolding outside_orientations
  outside_orientations-returns qs orientations zero order = ([], refl, refl)
  outside_orientations-returns qs orientations (suc count) order =
      let (m, made) =
        outside_matching-returns n orientations 0 1 (empty_matching n) qs (omega arith)
          (λ h. absurd (omega arith)) (omega arith)
          (get_or-replicate max_path_endpoints 1 unmatched_endpoint)
          (get_or-replicate max_path_endpoints 0 unmatched_endpoint) (Waiting-empty n qs order.0)
          order.1 in
      let (ms, later, size) = outside_orientations-returns qs (suc orientations) count order in
      (m ∷ ms, rw (made, later) refl, ap suc size)

  outside_permutations-returns :
      (ps : List (List ℕ))
      → all_orders n ps ≡ true
      → (ms : List EndpointMatching) × (outside_permutations n ps ≡ ok ms)
        × (length ms ≡ length ps * 2 ^ (n - 1))
  unfolding outside_permutations all_orders
  outside_permutations-returns [] h = ([], refl, omega arith)
  outside_permutations-returns (p ∷ ps) h =
      let (here, now, size) =
        outside_orientations-returns p 0 (2 ^ (n - 1)) (is_order-IsOrder n p (ground arith)) in
      let (rest, later, size') = outside_permutations-returns ps (ground arith) in
      let both = length-append here rest in (here ++ rest, rw (now, later) refl, omega arith)

-- The orders that are tried for a number of paths.
abbrev orders : ℕ → List (List ℕ)
orders n = permutations_from permutation_fuel (count_up 1 (n - 1))

abbrev count_of : ℕ → ℕ
count_of n = times_from 2 1 (n - 2) (2 ^ (n - 1))

abbrev factorial : ℕ → ℕ
factorial zero = 1
factorial (suc n) = suc n * factorial n

-- The orders of the paths after the first, each with its orientations.
abbrev pub outside_count : ℕ → ℕ
outside_count n = factorial (n - 1) * 2 ^ (n - 1)

abbrev Returns : ℕ → Type 0
Returns n =
    (result : List EndpointMatching) × (enumerate_outside_matchings n ≡ ok result)
    × (length result ≡ outside_count n)

several-Returns :
    (n : ℕ)
    → 1 < n
    → n ≤ 7
    → all_orders n (orders n) ≡ true
    → length (orders n) * 2 ^ (n - 1) ≡ count_of n
    → count_of n ≡ outside_count n
    → Returns n
unfolding enumerate_outside_matchings validate_path_count expected_outside_matching_count
several-Returns n several few good size formula =
    let (ms, made, long) = outside_permutations-returns n (omega arith) few (orders n) good in
    let counted : length ms ≡ count_of n = long ∙ size in (ms, ground arith, counted ∙ formula)

one-Returns : Returns 1
unfolding enumerate_outside_matchings
one-Returns = (_, refl, refl)

-- What the run of std::next_permutation goes through, by computation.
orders-good :
    (n : ℕ)
    → 1 < n
    → n ≤ 7
    → (all_orders n (orders n) ≡ true)
      × (length (orders n) * 2 ^ (n - 1) ≡ count_of n)
      × (count_of n ≡ outside_count n)
unfolding all_orders permutations_from
orders-good zero several few = absurd (omega arith)
orders-good (suc zero) several few = absurd (omega arith)
orders-good (suc (suc zero)) several few = (refl, refl, refl)
orders-good (suc (suc (suc zero))) several few = (refl, refl, refl)
orders-good (suc (suc (suc (suc zero)))) several few = (refl, refl, refl)
orders-good (suc (suc (suc (suc (suc zero))))) several few = (refl, refl, refl)
orders-good (suc (suc (suc (suc (suc (suc zero)))))) several few = (refl, refl, refl)
orders-good (suc (suc (suc (suc (suc (suc (suc zero))))))) several few = (refl, refl, refl)
orders-good (suc (suc (suc (suc (suc (suc (suc (suc n)))))))) several few = absurd (omega arith)

-- EnumerateOutsideMatchings returns for every number of paths n from 1 to 7, with
-- (n - 1)! * 2 ^ (n - 1) entries: the endpoints that it joins are free, and the count is as expected.
pub enumerate_outside_matchings-length :
    (n : ℕ)
    → 0 < n
    → n ≤ 7
    → (result : List EndpointMatching) × (enumerate_outside_matchings n ≡ ok result)
      × (length result ≡ outside_count n)
enumerate_outside_matchings-length zero some_paths few = absurd (omega arith)
enumerate_outside_matchings-length (suc zero) some_paths few = one-Returns
enumerate_outside_matchings-length (suc (suc n)) some_paths few =
    let (good, size, formula) = orders-good (suc (suc n)) (omega arith) few in
    several-Returns (suc (suc n)) (omega arith) few good size formula
