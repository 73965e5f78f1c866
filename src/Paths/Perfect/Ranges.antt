-- ===== src/Paths/Perfect/Ranges.antt =====
-- The lists of free endpoints that src/cpu/path_system.cpp goes through, and the test for a perfect
-- matching.
use cuda_edge_elimination.Base.{
  ℕ, zero, suc, ◌+◌, ◌*◌, ◌≤◌, ◌<◌, ◌≡◌, ◌≢◌, ◌⊎◌, inl, inr, refl, sym, ap, ◌∙◌, List, [], ◌∷◌,
  true, Bool-cases, ◌==◌, if◌then◌else◌, length, All, All-mono, Mem, arith, subst, get_or-replicate,
  ◌↔◌, ℕ_discrete,
}
use cuda_edge_elimination.Paths.{
  EndpointMatching, mate_of, join, free_from, unmatched_endpoint, max_path_endpoints,
  empty_matching, all_paired, is_perfect_endpoint_matching,
}
use cuda_edge_elimination.Paths.Perfect.{
  Mated, Free, IsPartial, join-first, join-second, join-other,
}

-- The free endpoints of a range, as a list: all of them, each once, in order.
abbrev pub FreeIn : EndpointMatching → ℕ → ℕ → ℕ → Type 0
FreeIn m lo hi x = (lo ≤ x) × (x < hi) × Free m x

FreeIn-weaken :
    (m : EndpointMatching) (lo lo' hi : ℕ) (xs : List ℕ)
    → lo' ≤ lo
    → All (FreeIn m lo hi) xs
    → All (FreeIn m lo' hi) xs
FreeIn-weaken m lo lo' hi xs le =
    All-mono (FreeIn m lo hi) (FreeIn m lo' hi) (λ x (a, b, c). (omega arith, b, c)) xs

-- The first of a range is in the list or not.
free_from-cases :
    (m : EndpointMatching) (lo count : ℕ)
    → (Free m lo × (free_from m lo (suc count) ≡ lo ∷ free_from m (suc lo) count))
      ⊎ ((mate_of m lo ≢ unmatched_endpoint)
          × (free_from m lo (suc count) ≡ free_from m (suc lo) count))
free_from-cases m lo count = elim (Bool-cases (mate_of m lo == unmatched_endpoint)) [
  | inl free ↦ inl (ground arith, ground arith)
  | inr taken ↦ inr (λ h. (ground arith), ground arith)
]

pub free_from-FreeIn :
    (m : EndpointMatching) (lo count hi : ℕ)
    → lo + count ≡ hi
    → All (FreeIn m lo hi) (free_from m lo count)
free_from-FreeIn m lo zero hi h = tt
free_from-FreeIn m lo (suc count) hi h =
    let rest = free_from-FreeIn m (suc lo) count hi (omega arith) in
    let rest' = FreeIn-weaken m (suc lo) lo hi (free_from m (suc lo) count) (omega arith) rest in
    elim (free_from-cases m lo count) [
      | inl (free, e) ↦
          subst (All (FreeIn m lo hi)) (sym e) ((omega arith, omega arith, free), rest')
      | inr (taken, e) ↦ subst (All (FreeIn m lo hi)) (sym e) rest'
    ]

pub free_from-first :
    (m : EndpointMatching) (lo count hi : ℕ) (first : ℕ) (later : List ℕ)
    → lo + count ≡ hi
    → free_from m lo count ≡ first ∷ later
    → FreeIn m lo hi first × All (FreeIn m (suc first) hi) later
free_from-first m lo zero hi first later h e = absurd (ground arith)
free_from-first m lo (suc count) hi first later h e = elim (free_from-cases m lo count) [
  | inl (free, here) ↦
      let both : lo ∷ free_from m (suc lo) count ≡ first ∷ later = sym here ∙ e in
      let same : lo ≡ first = ground arith in
      let rest : free_from m (suc lo) count ≡ later = ground arith in
      (
        subst (FreeIn m lo hi) same (omega arith, omega arith, free),
        subst (λ x. All (FreeIn m (suc x) hi) later) same
            (subst (All (FreeIn m (suc lo) hi)) rest
              (free_from-FreeIn m (suc lo) count hi (omega arith))),
      )
  | inr (taken, here) ↦
      let ((a, b, c), rest) =
        free_from-first m (suc lo) count hi first later (omega arith) (sym here ∙ e) in
      ((omega arith, b, c), rest)
]

-- No endpoint is left out.
pub Mem-free_from :
    (m : EndpointMatching) (lo count hi x : ℕ)
    → lo + count ≡ hi
    → FreeIn m lo hi x
    → Mem x (free_from m lo count)
Mem-free_from m lo zero hi x h (a, b, c) = absurd (omega arith)
Mem-free_from m lo (suc count) hi x h (a, b, c) = elim (free_from-cases m lo count) [
  | inl (free, here) ↦ elim (ℕ_discrete x lo) [
    | yes same ↦ subst (Mem x) (sym here) (inl same)
    | no other ↦
        subst (Mem x) (sym here)
          (inr (Mem-free_from m (suc lo) count hi x (omega arith) (omega arith, b, c)))
  ]
  | inr (taken, here) ↦
      let other : x ≢ lo = λ e. taken (ap (mate_of m) (sym e) ∙ c) in
      subst (Mem x) (sym here)
        (Mem-free_from m (suc lo) count hi x (omega arith) (omega arith, b, c))
]

pub free_from-none :
    (m : EndpointMatching) (e : ℕ)
    → free_from m 0 m.endpoint_count ≡ []
    → e < m.endpoint_count
    → mate_of m e ≢ unmatched_endpoint
free_from-none m e none lt free =
    subst (Mem e) none
      (Mem-free_from m 0 m.endpoint_count m.endpoint_count e (omega arith) (omega arith, lt, free))

-- 1 if `x` is in the range.
abbrev hit : ℕ → ℕ → ℕ → ℕ
hit lo zero x = 0
hit lo (suc count) x = (if lo == x then 1 else 0) + hit (suc lo) count x

hit-before : (lo count x : ℕ) → x < lo → hit lo count x ≡ 0
hit-before lo zero x lt = refl
hit-before lo (suc count) x lt = ground (arith, hit-before (suc lo) count x (omega arith))

hit-in : (lo count x : ℕ) → lo ≤ x → x < lo + count → hit lo count x ≡ 1
hit-in lo zero x le lt = absurd (omega arith)
hit-in lo (suc count) x le lt = elim (ℕ_discrete lo x) [
  | yes same ↦ ground (arith, hit-before (suc lo) count x (omega arith))
  | no other ↦ ground (arith, hit-in (suc lo) count x (omega arith) (omega arith))
]

-- Taking two free endpoints, of a range, and leaving the rest alone.
length-free_from :
    (m m' : EndpointMatching) (first second : ℕ)
    → first ≢ second
    → Free m first
    → Free m second
    → mate_of m' first ≢ unmatched_endpoint
    → mate_of m' second ≢ unmatched_endpoint
    → ((e : ℕ) → e ≢ first → e ≢ second → mate_of m' e ≡ mate_of m e)
    → (lo count : ℕ)
    → length (free_from m' lo count) + (hit lo count first + hit lo count second)
      ≡ length (free_from m lo count)
length-free_from m m' first second ne ff fs tf ts rest lo zero = refl
length-free_from m m' first second ne ff fs tf ts rest lo (suc count) =
    let later = length-free_from m m' first second ne ff fs tf ts rest (suc lo) count in
    elim (ℕ_discrete lo first) [
      | yes at ↦
          let free = ap (mate_of m) at ∙ ff in
          let taken : mate_of m' lo ≢ unmatched_endpoint = λ h. tf (ap (mate_of m') (sym at) ∙ h) in
          let d : lo ≢ second = λ h. ne (sym at ∙ h) in ground arith
      | no n1 ↦ elim (ℕ_discrete lo second) [
        | yes at ↦
            let free = ap (mate_of m) at ∙ fs in
            let taken : mate_of m' lo ≢ unmatched_endpoint =
              λ h. ts (ap (mate_of m') (sym at) ∙ h) in
            ground arith
        | no n2 ↦ let same = rest lo n1 n2 in ground arith
      ]
    ]

-- Joining two free endpoints takes these two out of the list.
pub length-free_from-join :
    (m : EndpointMatching) (first second : ℕ) (p : IsPartial m) (f : first < m.endpoint_count)
    (s : second < m.endpoint_count)
    → first < second
    → Free m first
    → Free m second
    → length (free_from (join m first second) 0 m.endpoint_count) + 2
      ≡ length (free_from m 0 m.endpoint_count)
length-free_from-join m first second p f s lt ff fs =
    let ne : first ≢ second = λ e. (omega arith) in
    let all =
      length-free_from m (join m first second) first second ne ff fs
        (λ h. (let e = join-first m first second p f s ne in let b = p.fits in omega arith))
        (λ h. (let e = join-second m first second p f s ne in let b = p.fits in omega arith))
        (join-other m first second p f s ne) 0 m.endpoint_count in
    let one = hit-in 0 m.endpoint_count first (omega arith) (omega arith) in
    let two = hit-in 0 m.endpoint_count second (omega arith) (omega arith) in omega arith

pub empty-IsPartial : (path_count : ℕ) → path_count ≤ 7 → IsPartial (empty_matching path_count)
empty-IsPartial path_count le = record {
  size = refl;
  fits = (omega arith);
  mated = λ e lt. inl (get_or-replicate max_path_endpoints e unmatched_endpoint);
  unused = λ e lt. get_or-replicate max_path_endpoints e unmatched_endpoint;
}

pub length-free_from-empty :
    (path_count lo count : ℕ) → length (free_from (empty_matching path_count) lo count) ≡ count
length-free_from-empty path_count lo zero = refl
length-free_from-empty path_count lo (suc count) =
    let free = get_or-replicate max_path_endpoints lo unmatched_endpoint in
    let later = length-free_from-empty path_count (suc lo) count in ground arith

-- What is checked of each endpoint.
pub all_paired-Mated :
    (m : EndpointMatching) (lo count : ℕ)
    → ((e : ℕ) → lo ≤ e → e < lo + count → Mated m e)
    → all_paired m lo count ≡ true
unfolding all_paired
all_paired-Mated m lo zero h = refl
all_paired-Mated m lo (suc count) h =
    let (a, b, c) = h lo (omega arith) (omega arith) in
    let later = all_paired-Mated m (suc lo) count (λ e le lt. h e (omega arith) (omega arith)) in
    ground arith

pub Mated-all_paired :
    (m : EndpointMatching) (lo count e : ℕ)
    → all_paired m lo count ≡ true
    → lo ≤ e
    → e < lo + count
    → Mated m e
unfolding all_paired
Mated-all_paired m lo zero e h le lt = absurd (omega arith)
Mated-all_paired m lo (suc count) e h le lt = elim (ℕ_discrete e lo) [
  | yes same ↦ subst (Mated m) (sym same) (ground arith, ground arith, ground arith)
  | no other ↦ Mated-all_paired m (suc lo) count e (ground arith) (omega arith) (omega arith)
]

-- IsPerfectEndpointMatching: the size is right and every endpoint has a mate.
pub is_perfect_endpoint_matching_iff :
    (m : EndpointMatching) (path_count : ℕ)
    → (is_perfect_endpoint_matching m path_count ≡ true) ↔ (
        (0 < path_count)
        × (path_count ≤ 7)
        × (m.endpoint_count ≡ 2 * path_count)
        × ((e : ℕ) → e < m.endpoint_count → Mated m e))
unfolding is_perfect_endpoint_matching
is_perfect_endpoint_matching_iff m path_count = (
  λ h. (
    ground arith,
    ground arith,
    ground arith,
    λ e lt. Mated-all_paired m 0 m.endpoint_count e (ground arith) (omega arith) (omega arith),
  ),
  λ (a, b, c, d).
      let all = all_paired-Mated m 0 m.endpoint_count (λ e le lt. d e (omega arith)) in
      ground arith,
)
