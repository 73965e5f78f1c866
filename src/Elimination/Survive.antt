-- ===== src/Elimination/Survive.antt =====
-- RunJvElimination (src/cpu/jv_elimination.cpp) and the tours of the active graph.
use cuda_edge_elimination.Base.{
  ℕ, zero, suc, ◌+◌, ◌≡◌, refl, sym, ◌⊎◌, inl, inr, List, [], ◌∷◌, Bool, true, false, arith,
  Bool-cases, if◌then◌else◌, length, subst, ◌==◌, not, ◌&&◌, Mem, ◌↔◌,
}
use cuda_edge_elimination.Base.Outcome.{Outcome, ok, err, Outcome-cases}
use cuda_edge_elimination.Types.{Candidate}
use cuda_edge_elimination.Distance.{FloatOps}
use cuda_edge_elimination.Distance.Rounding.{FloatLaws}
use cuda_edge_elimination.Graph.{GraphSnapshot}
use cuda_edge_elimination.Graph.Hash.{content_hash}
use cuda_edge_elimination.Graph.Rows.{IsWellFormed}
use cuda_edge_elimination.Graph.Metric.{metric, WeightsMatch}
use cuda_edge_elimination.Graph.Edges.{Adjacent}
use cuda_edge_elimination.Tours.{IsOptimal, Along}
use cuda_edge_elimination.Jv.{verify_jv_candidate, verify_candidates, find_jv_candidates_cpu}
use cuda_edge_elimination.Jv.Sound.{verify_jv_candidate-not-Uses}
use cuda_edge_elimination.Commit.{commit_verified_candidates}
use cuda_edge_elimination.Commit.Edges.{Every}
use cuda_edge_elimination.Commit.Lists.{Every-mono}
use cuda_edge_elimination.Commit.Result.{commit-IsWellFormed, commit-dimension}
use cuda_edge_elimination.Commit.Preserve.{Spares, commit-Along, commit-metric, commit-WeightsMatch}
use cuda_edge_elimination.Elimination.{Backend, EliminationResult}
use cuda_edge_elimination.Elimination.Run.{
  Device, Epoch, run_epoch, run_rounds, run_jv_elimination, wants_cuda, extend, is_cuda, initial,
  finish,
}

-- A consistent snapshot with an optimal tour among its active edges.
pub record Keeps (fp : FloatOps) (t : List ℕ) (g : GraphSnapshot) : Type 0 where
  pub well_formed : IsWellFormed g
  pub weights : WeightsMatch fp g g.edges
  pub optimal : IsOptimal (metric fp g) g.dimension t
  pub along : Along (Adjacent g.edges) t

module _ (fp : FloatOps) where
  -- A commit of candidates that spare the tour keeps all of this.
  pub commit-Keeps :
      (t : List ℕ) (g : GraphSnapshot) (candidates : List Candidate) (hash : ℕ) (g' : GraphSnapshot)
      (committed : List Candidate)
      → commit_verified_candidates g candidates hash ≡ ok (g', committed)
      → Every (Spares g.edges t) candidates
      → Keeps fp t g
      → Keeps fp t g'
  commit-Keeps t g candidates hash g' committed h spared k = record {
    well_formed = commit-IsWellFormed g candidates hash g' committed k.well_formed h;
    weights = commit-WeightsMatch fp g candidates hash g' committed h k.weights;
    optimal =
        subst (λ d. IsOptimal d g'.dimension t)
          (sym (commit-metric fp g candidates hash g' committed h))
          (subst (λ n. IsOptimal (metric fp g) n t)
            (sym (commit-dimension g candidates hash g' committed h)) k.optimal);
    along = commit-Along g candidates hash g' committed t h spared k.along;
  }

  abbrev pub Verified : GraphSnapshot → Candidate → Type 0
  Verified g c = verify_jv_candidate fp g c ≡ ok true

  -- The accepted candidates are the verified ones among those given, and the others are counted.
  abbrev pub Checked : GraphSnapshot → List Candidate → List Candidate × ℕ → Type 0
  Checked g cs r =
      Every (Verified g) r.0
      × (length r.0 + r.1 ≡ length cs)
      × ((c : Candidate) → Mem c r.0 ↔ (Mem c cs × Verified g c))

  Mem-accept :
      (g : GraphSnapshot) (c : Candidate) (cs accepted : List Candidate)
      → Verified g c
      → ((d : Candidate) → Mem d accepted ↔ (Mem d cs × Verified g d))
      → (d : Candidate) → Mem d (c ∷ accepted) ↔ (Mem d (c ∷ cs) × Verified g d)
  Mem-accept g c cs accepted now same d = (
    λ m. elim m [
      | inl here ↦ (inl here, subst (Verified g) (sym here) now)
      | inr there ↦ (inr ((same d).0 there).0, ((same d).0 there).1)
    ],
    λ (m, fine). elim m [ inl here ↦ inl here | inr there ↦ inr ((same d).1 (there, fine)) ],
  )

  Mem-reject :
      (g : GraphSnapshot) (c : Candidate) (cs accepted : List Candidate)
      → verify_jv_candidate fp g c ≡ ok false
      → ((d : Candidate) → Mem d accepted ↔ (Mem d cs × Verified g d))
      → (d : Candidate) → Mem d accepted ↔ (Mem d (c ∷ cs) × Verified g d)
  Mem-reject g c cs accepted now same d = (
    λ m. (inr ((same d).0 m).0, ((same d).0 m).1),
    λ (m, fine). elim m [
      | inl here ↦ let fine' : Verified g c = subst (Verified g) here fine in absurd (ground arith)
      | inr there ↦ (same d).1 (there, fine)
    ],
  )

  -- When VerifyCandidates returns, it accepts exactly those of the candidates given that
  -- VerifyJvCandidate holds of, and the accepted candidates and the count of rejected ones add up to
  -- the candidates given.
  pub verify_candidates-Checked :
      (g : GraphSnapshot) (cs : List Candidate) (r : List Candidate × ℕ)
      → verify_candidates fp g cs ≡ ok r
      → Checked g cs r
  unfolding verify_candidates
  verify_candidates-Checked g [] r h =
      let same : ([], 0) ≡ r = cc in
      subst (Checked g []) same (tt, refl, λ c. (λ m. absurd m, λ (m, _). absurd m))
  verify_candidates-Checked g (c ∷ cs) r h = elim (Outcome-cases (verify_jv_candidate fp g c)) [
    | inr (e, bad) ↦ absurd (ground arith)
    | inl (true, now) ↦ elim (Outcome-cases (verify_candidates fp g cs)) [
      | inr (e, bad) ↦ absurd (ground arith)
      | inl (r', later) ↦
          let (every, count, exact) = verify_candidates-Checked g cs r' later in
          let same : (c ∷ r'.0, r'.1) ≡ r = ground arith in
          subst (Checked g (c ∷ cs)) same
            ((now, every), omega arith, Mem-accept g c cs r'.0 now exact)
    ]
    | inl (false, now) ↦ elim (Outcome-cases (verify_candidates fp g cs)) [
      | inr (e, bad) ↦ absurd (ground arith)
      | inl (r', later) ↦
          let (every, count, exact) = verify_candidates-Checked g cs r' later in
          let same : (r'.0, r'.1 + 1) ≡ r = ground arith in
          subst (Checked g (c ∷ cs)) same (every, omega arith, Mem-reject g c cs r'.0 now exact)
    ]
  ]

  pub Verified-Spares :
      (t : List ℕ) (g : GraphSnapshot)
      → FloatLaws fp
      → Keeps fp t g
      → (c : Candidate) → Verified g c
      → Spares g.edges t c
  Verified-Spares t g laws k c v e at =
      verify_jv_candidate-not-Uses fp g laws k.well_formed k.weights c e at v t k.optimal k.along

module _ (fp : FloatOps) (device : Device) where
  abbrev proposals : Bool → GraphSnapshot → Outcome (List Candidate)
  proposals use_cuda g = if use_cuda then device.propose g else find_jv_candidates_cpu fp g

  run_epoch_parts :
      (use_cuda : Bool) (g : GraphSnapshot) (epoch : ℕ) (e : Epoch)
      → run_epoch fp device use_cuda g epoch ≡ ok e
      → (verified committed : List Candidate) × Every (Verified fp g) verified
        × (commit_verified_candidates g verified (content_hash g) ≡ ok (e.graph, committed))
  unfolding run_epoch
  run_epoch_parts use_cuda g epoch e h = elim (Outcome-cases (proposals use_cuda g)) [
    | inr (x, bad) ↦ absurd (ground arith)
    | inl (proposed, proposed_eq) ↦ elim (Outcome-cases (verify_candidates fp g proposed)) [
      | inr (x, bad) ↦ absurd (ground arith)
      | inl ((verified, rejected), verified_eq) ↦
          elim (Outcome-cases (commit_verified_candidates g verified (content_hash g))) [
            | inr (x, bad) ↦ absurd (ground arith)
            | inl ((g', committed), committed_eq) ↦ (
              verified,
              committed,
              (verify_candidates-Checked fp g proposed (verified, rejected) verified_eq).0,
              ground arith,
            )
          ]
    ]
  ]

module _ (fp : FloatOps) (device : Device) (laws : FloatLaws fp) (t : List ℕ) where
  -- An epoch that returns leaves a snapshot that keeps the tour.
  run_epoch-Keeps :
      (use_cuda : Bool) (g : GraphSnapshot) (epoch : ℕ) (e : Epoch)
      → run_epoch fp device use_cuda g epoch ≡ ok e
      → Keeps fp t g
      → Keeps fp t e.graph
  run_epoch-Keeps use_cuda g epoch e h k =
      let (verified, committed, every, eq) = run_epoch_parts fp device use_cuda g epoch e h in
      commit-Keeps fp t g verified (content_hash g) e.graph committed eq
        (Every-mono (Verified-Spares fp t g laws k) verified every) k

  run_rounds-Keeps :
      {P : Type 0} (use_cuda : Bool) (rounds : ℕ) (epoch : ℕ) (g : GraphSnapshot)
      (result : EliminationResult P)
      → Keeps fp t g
      → Keeps fp t (run_rounds fp device use_cuda rounds epoch g result).0
  unfolding run_rounds
  run_rounds-Keeps use_cuda zero epoch g result k = k
  run_rounds-Keeps use_cuda (suc rounds) epoch g result k =
      elim (Outcome-cases (run_epoch fp device use_cuda g epoch)) [
        | inr (x, bad) ↦
            let stay : (run_rounds fp device use_cuda (suc rounds) epoch g result).0 ≡ g =
              ground arith in
            subst (Keeps fp t) (sym stay) k
        | inl (e, good) ↦
            let now = run_epoch-Keeps use_cuda g epoch e good k in
            let next = extend fp device result e in
            let later = run_rounds-Keeps use_cuda rounds (suc epoch) e.graph next now in
            elim (Bool-cases (e.metrics.committed == 0)) [
              | inl stop ↦
                  let here : (run_rounds fp device use_cuda (suc rounds) epoch g result).0
                      ≡ e.graph =
                    ground arith in
                  subst (Keeps fp t) (sym here) now
              | inr go ↦
                  let there : (run_rounds fp device use_cuda (suc rounds) epoch g result).0
                      ≡ (run_rounds fp device use_cuda rounds (suc epoch) e.graph next).0 =
                    ground arith in
                  subst (Keeps fp t) (sym there) later
            ]
      ]

finish_graph :
    (fp : FloatOps) (device : Device) {P : Type 0}
    (r : GraphSnapshot × Outcome (EliminationResult P))
    → (finish fp device r).0 ≡ r.0
finish_graph fp device (g, err e) = refl
finish_graph fp device (g, ok result) = refl

-- The run is refused and leaves the snapshot alone, or it leaves what its rounds leave.
run_cases :
    (fp : FloatOps) (device : Device) (P : Type 0) (g : GraphSnapshot) (backend : Backend)
    (max_rounds : ℕ)
    → ((run_jv_elimination fp device P g backend max_rounds).0 ≡ g)
      ⊎ ((result : EliminationResult P) × ((run_jv_elimination fp device P g backend max_rounds).0
            ≡ (run_rounds fp device (wants_cuda device g backend) max_rounds 0 g result).0))
unfolding run_jv_elimination
run_cases fp device P g backend max_rounds = elim (Bool-cases (max_rounds == 0)) [
  | inl none ↦ inl (ground arith)
  | inr some_rounds ↦ elim (Bool-cases (is_cuda backend && not (wants_cuda device g backend))) [
    | inl bad ↦ inl (ground arith)
    | inr fine ↦
        let use_cuda = wants_cuda device g backend in
        let start : EliminationResult P = initial fp device use_cuda g in
        let same = finish_graph fp device (run_rounds fp device use_cuda max_rounds 0 g start) in
        inr (start, ground arith)
  ]
]

-- RunJvElimination never loses an optimal tour.  Take a consistent snapshot whose distances are
-- those of its metric, and any tour t over the active edges that is optimal for that metric among
-- all tours of the vertices. Whatever the CUDA device answers, whichever backend is asked for,
-- however many rounds are allowed, and whether the run returns or an exception ends it, the
-- snapshot that the caller is left with is consistent and still has every edge of t active,
-- provided rounding and truncation of doubles do not depend on the order of the two points.
pub run_jv_elimination-Keeps :
    (fp : FloatOps) (device : Device) (P : Type 0) (g : GraphSnapshot) (backend : Backend)
    (max_rounds : ℕ) (t : List ℕ)
    → FloatLaws fp
    → Keeps fp t g
    → Keeps fp t (run_jv_elimination fp device P g backend max_rounds).0
unfolding run_jv_elimination
run_jv_elimination-Keeps fp device P g backend max_rounds t laws k =
    elim (run_cases fp device P g backend max_rounds) [
      | inl refused ↦ subst (Keeps fp t) (sym refused) k
      | inr (result, ran) ↦
          subst (Keeps fp t) (sym ran) (
            run_rounds-Keeps fp device laws t (wants_cuda device g backend) max_rounds 0 g result k)
    ]
