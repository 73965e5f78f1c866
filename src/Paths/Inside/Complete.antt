-- ===== src/Paths/Inside/Complete.antt =====
-- EnumerateInsideMatchings (src/cpu/path_system.cpp): which matchings it yields, and how many.
use cuda_edge_elimination.Base.{
  List-cases, ℕ, zero, suc, ◌+◌, ◌*◌, ◌-◌, ◌≤◌, ◌<◌, ◌≡◌, ◌≢◌, inl, inr, refl, sym, ap, ◌∙◌, List,
  [], ◌∷◌, true, Bool-cases, ◌==◌, ◌||◌, ltb, length, get_or, ℕ_discrete, All, Mem, arith, subst,
  ◌↔◌, get_or-replicate,
}
use cuda_edge_elimination.Base.Outcome.{ok}
use cuda_edge_elimination.Paths.{
  EndpointMatching, mate_of, join, unmatched_endpoint, max_path_endpoints, empty_matching,
  enumerate_inside_recursive, enumerate_inside_matchings, is_perfect_endpoint_matching, times_from,
  validate_path_count, expected_inside_matching_count,
}
use cuda_edge_elimination.Paths.Perfect.{
  Free, IsPartial, join-IsPartial, join-first, join-second, join-other,
}
use cuda_edge_elimination.Paths.Perfect.Ranges.{
  FreeIn, free_from-first, free_from-none, Mem-free_from, length-free_from-join, empty-IsPartial,
  length-free_from-empty, is_perfect_endpoint_matching_iff,
}
use cuda_edge_elimination.Paths.Inside.{
  lt-cases, All-Mem, free, done, branches, Mem-for_each, Full, enumerate-Full, odd_product,
  length-enumerate,
}

list-ext :
    (d : ℕ) (xs ys : List ℕ)
    → length xs ≡ length ys
    → ((e : ℕ) → get_or xs e d ≡ get_or ys e d)
    → xs ≡ ys
list-ext d [] [] h f = refl
list-ext d [] (y ∷ ys) h f = absurd (omega arith)
list-ext d (x ∷ xs) [] h f = absurd (omega arith)
list-ext d (x ∷ xs) (y ∷ ys) h f =
    let tail = list-ext d xs ys (omega arith) (λ e. f (suc e)) in
    ap (λ z. z ∷ xs) (f 0) ∙ ap (λ zs. y ∷ zs) tail

-- `t` has the pairs that `m` has.
abbrev Extends : EndpointMatching → EndpointMatching → Type 0
Extends t m =
    (e : ℕ) → e < m.endpoint_count → mate_of m e ≢ unmatched_endpoint → mate_of t e ≡ mate_of m e

Extends-Full :
    (t m : EndpointMatching)
    → Full m.endpoint_count t
    → IsPartial m
    → free m ≡ []
    → Extends t m
    → t ≡ m
Extends-Full t m (q, count, _) p none ext =
    let places : t.mate ≡ m.mate =
      list-ext unmatched_endpoint t.mate m.mate (q.size ∙ sym p.size) (λ e.
        elim (lt-cases e m.endpoint_count) [
          | inl lt ↦ ext e lt (free_from-none m e none lt)
          | inr le ↦ q.unused e (omega arith) ∙ sym (p.unused e le)
        ]) in
    λ i. record { endpoint_count = count i; mate = places i }

partner-Free :
    (m t : EndpointMatching) (first : ℕ)
    → IsPartial m
    → Full m.endpoint_count t
    → Extends t m
    → first < m.endpoint_count
    → Free m first
    → FreeIn m 0 m.endpoint_count (mate_of t first)
partner-Free m t first p (q, count, mated) ext f ff =
    let (a, b, c) = mated first f in
    let inside : mate_of t first < m.endpoint_count = omega arith in
    elim (p.mated (mate_of t first) inside) [
      | inl free ↦ (omega arith, inside, free)
      | inr (x, y, z) ↦
          let fits = p.fits in
          let same = ext (mate_of t first) inside (λ h. (omega arith)) in
          let back : mate_of m (mate_of t first) ≡ first = sym same ∙ c in
          let e = sym (ap (mate_of m) back) ∙ z in absurd (omega arith)
    ]

Extends-join :
    (m t : EndpointMatching) (first : ℕ) (p : IsPartial m)
    → Full m.endpoint_count t
    → Extends t m
    → (f : first < m.endpoint_count) → (s : mate_of t first < m.endpoint_count)
    → (ne : first ≢ mate_of t first) → Extends t (join m first (mate_of t first))
Extends-join m t first p (q, count, mated) ext f s ne e lt some = elim (ℕ_discrete e first) [
  | yes same ↦
      ap (mate_of t) same
      ∙ sym (
          ap (mate_of (join m first (mate_of t first))) same
          ∙ join-first m first (mate_of t first) p f s ne)
  | no n1 ↦ elim (ℕ_discrete e (mate_of t first)) [
    | yes same ↦
        let (_, _, back) = mated first f in
        ap (mate_of t) same
        ∙ back
        ∙ sym (
            ap (mate_of (join m first (mate_of t first))) same
            ∙ join-second m first (mate_of t first) p f s ne)
    | no n2 ↦
        let at = join-other m first (mate_of t first) p f s ne e n1 n2 in
        ext e lt (λ h. some (at ∙ h)) ∙ sym at
  ]
]

enumerate-complete :
    (fuel k : ℕ) (m t : EndpointMatching)
    → IsPartial m
    → length (free m) ≡ 2 * k
    → k < fuel
    → Full m.endpoint_count t
    → Extends t m
    → Mem t (enumerate_inside_recursive fuel m)
enumerate-complete zero k m t p size enough full ext = absurd (omega arith)
enumerate-complete (suc fuel) k m t p size enough full ext = elim (List-cases (free m)) [
  | inl none ↦ subst (Mem t) (sym (done fuel m none)) (inl (Extends-Full t m full p none ext))
  | inr (first, later, some) ↦
      let ((_, f, ff), rest) =
        free_from-first m 0 m.endpoint_count m.endpoint_count first later (omega arith) some in
      let (at, inside, free) = partner-Free m t first p full ext f ff in
      let (_, other, _) = full.2 first f in
      let here = subst (Mem (mate_of t first)) some (
        Mem-free_from m 0 m.endpoint_count m.endpoint_count (mate_of t first) (omega arith)
          (at, inside, free)) in
      elim here [
        | inl same ↦ absurd (other same)
        | inr below ↦
            let ne : first ≢ mate_of t first = λ h. other (sym h) in
            let e = ap length some in
            let (above, _, _) =
              All-Mem (FreeIn m (suc first) m.endpoint_count) later (mate_of t first) rest below in
            let less = length-free_from-join m first (mate_of t first) p f inside above ff free in
            let next =
              enumerate-complete fuel (k - 1) (join m first (mate_of t first)) t
                (join-IsPartial m first (mate_of t first) p f inside ne ff free) (omega arith)
                (omega arith) full (Extends-join m t first p full ext f inside ne) in
            subst (Mem t) (sym (branches fuel m first later some)) (
              Mem-for_each t (λ second. enumerate_inside_recursive fuel (join m first second)) later
                (mate_of t first) below next)
      ]
]

times_from-odd :
    (k count : ℕ) → times_from (2 * k + 1) 2 count (odd_product k) ≡ odd_product (k + count)
times_from-odd k zero = (let e : k ≡ k + 0 = omega arith in ap odd_product e)
times_from-odd k (suc count) =
    let next = times_from-odd (suc k) count in
    let a : 2 * k + 1 + 2 ≡ 2 * suc k + 1 = omega arith in
    let b : odd_product k * (2 * k + 1) ≡ odd_product (suc k) = omega arith in
    let c : suc k + count ≡ k + suc count = omega arith in
    ap (λ f. times_from f 2 count (odd_product k * (2 * k + 1))) a
    ∙ ap (times_from (2 * suc k + 1) 2 count) b
    ∙ next
    ∙ ap odd_product c

-- EnumerateInsideMatchings returns for every number of paths from 1 to 7: its count is the one of the
-- formula, so that the check of the count never throws, and the result has exactly
-- 1 * 3 * ... * (2 * path_count - 1) entries.
pub enumerate_inside_matchings-length :
    (path_count : ℕ)
    → 0 < path_count
    → path_count ≤ 7
    → (result : List EndpointMatching) × (enumerate_inside_matchings path_count ≡ ok result)
      × (length result ≡ odd_product path_count)
unfolding enumerate_inside_matchings validate_path_count expected_inside_matching_count
enumerate_inside_matchings-length path_count some few =
    let m = empty_matching path_count in
    let size = length-free_from-empty path_count 0 m.endpoint_count in
    let count : m.endpoint_count ≡ 2 * path_count = omega arith in
    let formula : times_from 1 2 path_count 1 ≡ odd_product path_count =
      (let z : 0 + path_count ≡ path_count = omega arith in
        times_from-odd 0 path_count ∙ ap odd_product z) in
    let long =
      length-enumerate (2 * path_count + 1) path_count m (empty-IsPartial path_count few)
        (size ∙ count) (omega arith) in
    (enumerate_inside_recursive (2 * path_count + 1) m, ground arith, long)

enumerate_inside_matchings-parts :
    (path_count : ℕ) (result : List EndpointMatching)
    → enumerate_inside_matchings path_count ≡ ok result
    → (0 < path_count)
      × (path_count ≤ 7)
      × (enumerate_inside_recursive (2 * path_count + 1) (empty_matching path_count) ≡ result)
unfolding enumerate_inside_matchings validate_path_count expected_inside_matching_count
enumerate_inside_matchings-parts path_count result h =
    elim (Bool-cases (path_count == 0 || ltb 7 path_count)) [
      | inl bad ↦ absurd (ground arith)
      | inr fine ↦ (ground arith, ground arith, ground arith)
    ]

-- The entries of EnumerateInsideMatchings are exactly the perfect matchings of the 2 * path_count
-- endpoints that leave the rest of the array free: each entry passes IsPerfectEndpointMatching, and each
-- matching that passes and has the array's size, with the unused places free, is an entry.
pub enumerate_inside_matchings_iff :
    (path_count : ℕ) (result : List EndpointMatching) (m : EndpointMatching)
    → enumerate_inside_matchings path_count ≡ ok result
    → Mem m result ↔ (
        (is_perfect_endpoint_matching m path_count ≡ true)
        × (length m.mate ≡ max_path_endpoints)
        × ((e : ℕ) → m.endpoint_count ≤ e → Free m e))
enumerate_inside_matchings_iff path_count result m h =
    let (some, few, same) = enumerate_inside_matchings-parts path_count result h in
    let start = empty_matching path_count in
    let partial = empty-IsPartial path_count few in
    let count : start.endpoint_count ≡ 2 * path_count = omega arith in
    let size = length-free_from-empty path_count 0 start.endpoint_count ∙ count in
    (
      λ i.
          let all =
            subst (All (Full start.endpoint_count)) same
              (enumerate-Full (2 * path_count + 1) start partial) in
          let (q, n, mated) = All-Mem (Full start.endpoint_count) result m all i in
          (
            (is_perfect_endpoint_matching_iff m path_count).1
                (some, few, n ∙ count, λ e lt. mated e (omega arith)),
            q.size,
            q.unused,
          ),
      λ (perfect, long, unused).
          let (_, _, n, mated) = (is_perfect_endpoint_matching_iff m path_count).0 perfect in
          let full : Full start.endpoint_count m = (
            record {
              size = long;
              fits = omega arith;
              mated = λ e lt. inr (mated e lt);
              unused = unused;
            },
            n ∙ sym count,
            λ e lt. mated e (omega arith),
          ) in
          subst (Mem m) same (
            enumerate-complete (2 * path_count + 1) path_count start m partial size (omega arith)
              full
              (λ e lt some.
                absurd (some (get_or-replicate max_path_endpoints e unmatched_endpoint)))),
    )
