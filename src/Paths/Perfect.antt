-- ===== src/Paths/Perfect.antt =====
-- Endpoint matchings of src/cpu/path_system.cpp as partial matchings: what joining two free endpoints does.
pub mod Ranges
use cuda_edge_elimination.Base.{
  ℕ, zero, suc, ◌+◌, ◌*◌, ◌%◌, ◌≤◌, ◌<◌, ◌≡◌, ◌≢◌, ◌⊎◌, inl, inr, refl, sym, ap, ◌∙◌, List, [], ◌∷◌,
  true, Bool-cases, ◌==◌, if◌then◌else◌, length, set, All, All-mono, Mem, arith, length-set,
  get_or-set_self, get_or-set_ne, subst, get_or-replicate, ◌↔◌, ℕ_discrete,
}
use cuda_edge_elimination.Paths.{
  EndpointMatching, mate_of, join, free_from, unmatched_endpoint, max_path_endpoints,
  empty_matching, all_paired, is_perfect_endpoint_matching,
}

-- `b` and `e` are each other's mates.
abbrev pub Mated : EndpointMatching → ℕ → Type 0
Mated m e = (mate_of m e < m.endpoint_count) × (mate_of m e ≢ e) × (mate_of m (mate_of m e) ≡ e)

abbrev pub Free : EndpointMatching → ℕ → Type 0
Free m e = mate_of m e ≡ unmatched_endpoint

-- A matching of some of the endpoints; the unused places of the array are free.
pub record IsPartial (m : EndpointMatching) : Type 0 where
  pub size : length m.mate ≡ max_path_endpoints
  pub fits : m.endpoint_count ≤ max_path_endpoints
  pub mated : (e : ℕ) → e < m.endpoint_count → Free m e ⊎ Mated m e
  pub unused : (e : ℕ) → m.endpoint_count ≤ e → Free m e

module _ (m : EndpointMatching) (first second : ℕ) (p : IsPartial m) (f : first < m.endpoint_count)
    (s : second < m.endpoint_count) (ne : first ≢ second) where
  first_in : first < length m.mate
  first_in = let a = p.size in let b = p.fits in omega arith

  second_in : second < length (set m.mate first (second % 256))
  second_in =
      let a = p.size in
      let b = p.fits in let c = length-set m.mate first (second % 256) in omega arith

  pub join-first : mate_of (join m first second) first ≡ second
  join-first =
      let fits = p.fits in
      let small : second % 256 ≡ second = omega arith in
      get_or-set_ne (set m.mate first (second % 256)) second first (first % 256) 255
        (λ e. ne (sym e))
      ∙ get_or-set_self m.mate first (second % 256) 255 first_in
      ∙ small

  pub join-second : mate_of (join m first second) second ≡ first
  join-second =
      let fits = p.fits in
      let small : first % 256 ≡ first = omega arith in
      get_or-set_self (set m.mate first (second % 256)) second (first % 256) 255 second_in ∙ small

  pub join-other : (e : ℕ) → e ≢ first → e ≢ second → mate_of (join m first second) e ≡ mate_of m e
  join-other e n1 n2 =
      get_or-set_ne (set m.mate first (second % 256)) second e (first % 256) 255 (λ h. n2 (sym h))
      ∙ get_or-set_ne m.mate first e (second % 256) 255 (λ h. n1 (sym h))

  Mated-from :
      (e x : ℕ)
      → mate_of (join m first second) e ≡ x
      → x < m.endpoint_count
      → x ≢ e
      → mate_of (join m first second) x ≡ e
      → Mated (join m first second) e
  Mated-from e x at lt other back =
      (omega arith, λ same. other (sym at ∙ same), ap (mate_of (join m first second)) at ∙ back)

  -- A mated endpoint keeps its mate.
  pub join-Mated :
      Free m first
      → Free m second
      → (e : ℕ) → e < m.endpoint_count
      → Mated m e
      → (mate_of (join m first second) e ≡ mate_of m e) × Mated (join m first second) e
  join-Mated ff fs e lt (lt', other, back) =
      let fits = p.fits in
      let n1 : e ≢ first = λ h. (let x = ap (mate_of m) h in absurd (omega arith)) in
      let n2 : e ≢ second = λ h. (let x = ap (mate_of m) h in absurd (omega arith)) in
      let m1 : mate_of m e ≢ first = λ h. (let x = ap (mate_of m) h in absurd (omega arith)) in
      let m2 : mate_of m e ≢ second = λ h. (let x = ap (mate_of m) h in absurd (omega arith)) in
      let at = join-other e n1 n2 in
      (at, Mated-from e (mate_of m e) at lt' other (join-other (mate_of m e) m1 m2 ∙ back))

  -- Joining two free endpoints.
  pub join-IsPartial : Free m first → Free m second → IsPartial (join m first second)
  join-IsPartial ff fs = record {
    size =
        length-set (set m.mate first (second % 256)) second (first % 256)
        ∙ length-set m.mate first (second % 256)
        ∙ p.size;
    fits = p.fits;
    mated = λ e lt. elim (ℕ_discrete e first) [
      | yes same ↦ inr (
          subst (Mated (join m first second)) (sym same)
            (Mated-from first second join-first s (λ h. ne (sym h)) join-second))
      | no n1 ↦ elim (ℕ_discrete e second) [
        | yes same ↦ inr (
            subst (Mated (join m first second)) (sym same)
              (Mated-from second first join-second f ne join-first))
        | no n2 ↦ elim (p.mated e lt) [
          | inl free ↦ inl (join-other e n1 n2 ∙ free)
          | inr mated ↦ inr (join-Mated ff fs e lt mated).1
        ]
      ]
    ];
    unused = λ e le.
        join-other e (λ same. absurd (omega arith)) (λ same. absurd (omega arith)) ∙ p.unused e le;
  }
