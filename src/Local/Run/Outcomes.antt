-- ===== src/Local/Run/Outcomes.antt =====
-- RunLocalElimination (src/cpu/local_elimination.cpp): what all its stages keep.
pub mod Results
pub mod Converged
use cuda_edge_elimination.Base.{
  ℕ, zero, suc, ◌+◌, ◌≡◌, refl, sym, ap, ◌∙◌, inl, inr, List, Bool, true, false, arith, Bool-cases,
  subst, ◌==◌, not, length, ◌&&◌,
}
use cuda_edge_elimination.Base.Outcome.{Outcome, ok, err, Outcome-cases}
use cuda_edge_elimination.Distance.{FloatOps}
use cuda_edge_elimination.Distance.Rounding.{FloatLaws}
use cuda_edge_elimination.Graph.{GraphSnapshot, active_edge_count}
use cuda_edge_elimination.Graph.Hash.{content_hash}
use cuda_edge_elimination.Elimination.{Backend, EliminationResult, HtVerifier}
use cuda_edge_elimination.Elimination.Run.{
  Device, run_jv_elimination, run_rounds, initial, finish, is_cuda, wants_cuda,
}
use cuda_edge_elimination.Elimination.Survive.{Keeps, run_jv_elimination-Keeps}
use cuda_edge_elimination.HtScan.{Search, HtScanResult}
use cuda_edge_elimination.HtScan.Run.{run_ht_scan_epoch}
use cuda_edge_elimination.HtScan.Run.Outcomes.{run_ht_scan_epoch-final_hash}
use cuda_edge_elimination.Local.{
  LocalEliminationResult, LocalEliminationTermination, append_elimination_stage, converged,
  jv_round_limit, ht_epoch_limit,
}
use cuda_edge_elimination.Local.Chain.{append_records-hashes}
use cuda_edge_elimination.Local.Chain.Joined.{append_elimination_stage-IsContainer, IsContainer}
use cuda_edge_elimination.Local.Run.{
  LocalEliminationOptions, Progress, run_jv_fixed_point, run_ht_stage, run_ht_epochs, starting,
  run_local_working, run_local_elimination, last_is_idle, summarize_jv_stage, only, leave,
}

module _ (fp : FloatOps) (device : Device) (H : HtVerifier) (prover : Search H.HtProof) where
  -- What a run leaves, as progress.
  abbrev pub progress_of : GraphSnapshot × LocalEliminationResult H.HtProof → Progress H.HtProof
  progress_of (g, result) = record {
    working = g;
    elimination = result.elimination;
    stages = result.stages;
  }

  abbrev pub KeptByJv {ℓ} : LocalEliminationOptions → (Progress H.HtProof → Type ℓ) → Type ℓ
  KeptByJv options Q =
      (s : Progress H.HtProof) (t : Progress H.HtProof × Bool)
      → run_jv_fixed_point fp device H prover options s ≡ ok t
      → Q s
      → Q t.0

  abbrev pub KeptByHt {ℓ} : LocalEliminationOptions → (Progress H.HtProof → Type ℓ) → Type ℓ
  KeptByHt options Q =
      (offset : ℕ) (s : Progress H.HtProof) (t : Progress H.HtProof × HtScanResult H.HtProof)
      → run_ht_stage fp device H prover options offset s ≡ ok t
      → Q s
      → Q t.0

  leave-keeps {ℓ} :
      (why : LocalEliminationTermination) (Q : Progress H.HtProof → Type ℓ) (s : Progress H.HtProof)
      (out : GraphSnapshot × LocalEliminationResult H.HtProof)
      → leave why s ≡ ok out
      → Q s
      → Q (progress_of out)
  leave-keeps why Q s out h q =
      let same : (
        s.working,
        record { elimination = s.elimination; stages = s.stages; termination = why },
      )
          ≡ out =
        ground arith in
      subst (λ o. Q (progress_of o)) same q

  -- What both kinds of stage keep, the loop keeps.
  run_ht_epochs-keeps {ℓ} :
      (options : LocalEliminationOptions) (Q : Progress H.HtProof → Type ℓ)
      → KeptByJv options Q
      → KeptByHt options Q
      → (epochs offset : ℕ) (s : Progress H.HtProof)
        (out : GraphSnapshot × LocalEliminationResult H.HtProof)
      → run_ht_epochs fp device H prover options epochs offset s ≡ ok out
      → Q s
      → Q (progress_of out)
  unfolding run_ht_epochs
  run_ht_epochs-keeps options Q jv ht zero offset s out h q = leave-keeps ht_epoch_limit Q s out h q
  run_ht_epochs-keeps options Q jv ht (suc epochs) offset s out h q =
      elim (Outcome-cases (run_ht_stage fp device H prover options offset s)) [
        | inr (x, bad) ↦ absurd (ground arith)
        | inl ((s', scan), ran) ↦
            let q' = ht offset s (s', scan) ran q in
            elim (Bool-cases (length scan.elimination.proof == 0)) [
              | inl idle ↦
                  elim (Bool-cases
                    (scan.target_offset + length scan.attempts == scan.eligible_targets)) [
                      | inl all ↦ leave-keeps converged Q s' out (ground arith) q'
                      | inr part ↦
                          run_ht_epochs-keeps options Q jv ht epochs
                            (scan.target_offset + length scan.attempts) s' out (ground arith) q'
                    ]
              | inr busy ↦ elim (Outcome-cases (run_jv_fixed_point fp device H prover options s')) [
                | inr (x, bad) ↦ absurd (ground arith)
                | inl ((s'', true), fixed) ↦
                    run_ht_epochs-keeps options Q jv ht epochs 0 s'' out (ground arith)
                      (jv s' (s'', true) fixed q')
                | inl ((s'', false), fixed) ↦
                    leave-keeps jv_round_limit Q s'' out (ground arith)
                      (jv s' (s'', false) fixed q')
              ]
            ]
      ]

  pub run_local_working-keeps {ℓ} :
      (g : GraphSnapshot) (options : LocalEliminationOptions) (Q : Progress H.HtProof → Type ℓ)
      (out : GraphSnapshot × LocalEliminationResult H.HtProof)
      → run_local_working fp device H prover g options ≡ ok out
      → KeptByJv options Q
      → KeptByHt options Q
      → Q (starting fp device H prover g)
      → Q (progress_of out)
  unfolding run_local_working
  run_local_working-keeps g options Q out h jv ht q =
      let s0 = starting fp device H prover g in
      elim (Outcome-cases (run_jv_fixed_point fp device H prover options s0)) [
        | inr (x, bad) ↦ absurd (ground arith)
        | inl ((s, true), fixed) ↦
            run_ht_epochs-keeps options Q jv ht options.max_ht_epochs 0 s out (ground arith)
              (jv s0 (s, true) fixed q)
        | inl ((s, false), fixed) ↦
            leave-keeps jv_round_limit Q s out (ground arith) (jv s0 (s, false) fixed q)
      ]

  pub jv-parts :
      (options : LocalEliminationOptions) (s : Progress H.HtProof) (t : Progress H.HtProof × Bool)
      → run_jv_fixed_point fp device H prover options s ≡ ok t
      → (jv : EliminationResult H.HtProof) × ((run_jv_elimination fp device H.HtProof s.working
            options.jv_backend options.max_jv_rounds).1
          ≡ ok jv)
        × (t.0.working
            ≡ (run_jv_elimination fp device H.HtProof s.working options.jv_backend
                options.max_jv_rounds).0)
        × (append_elimination_stage s.elimination jv ≡ ok t.0.elimination)
  unfolding run_jv_fixed_point
  jv-parts options s t h =
      let ran =
        run_jv_elimination fp device H.HtProof s.working options.jv_backend options.max_jv_rounds in
      elim (Outcome-cases ran.1) [
        | inr (x, bad) ↦ absurd (ground arith)
        | inl (jv, returned) ↦ elim (Outcome-cases (last_is_idle jv.epochs)) [
          | inr (x, bad) ↦ absurd (ground arith)
          | inl (idle, last) ↦
              elim (Outcome-cases (
                summarize_jv_stage (length s.stages) (active_edge_count s.working.edges)
                  (active_edge_count ran.0.edges) jv)) [
                    | inr (x, bad) ↦ absurd (ground arith)
                    | inl (metrics, summary) ↦
                        elim (Outcome-cases (append_elimination_stage s.elimination jv)) [
                          | inr (x, bad) ↦ absurd (ground arith)
                          | inl (combined, appended) ↦ (jv, returned, ground arith, ground arith)
                        ]
                  ]
        ]
      ]

  pub ht-parts :
      (options : LocalEliminationOptions) (offset : ℕ) (s : Progress H.HtProof)
      (t : Progress H.HtProof × HtScanResult H.HtProof)
      → run_ht_stage fp device H prover options offset s ≡ ok t
      → ((run_ht_scan_epoch H prover s.working
            (record options.ht_scan_options { target_offset = offset })).1
          ≡ ok t.1)
        × (t.0.working
            ≡ (run_ht_scan_epoch H prover s.working
                (record options.ht_scan_options { target_offset = offset })).0)
        × (append_elimination_stage s.elimination t.1.elimination ≡ ok t.0.elimination)
  unfolding run_ht_stage
  ht-parts options offset s t h =
      let ran =
        run_ht_scan_epoch H prover s.working
          (record options.ht_scan_options { target_offset = offset }) in
      elim (Outcome-cases ran.1) [
        | inr (x, bad) ↦ absurd (ground arith)
        | inl (scan, returned) ↦ elim (Outcome-cases (only scan.elimination.epochs)) [
          | inr (x, bad) ↦ absurd (ground arith)
          | inl (epoch, one) ↦
              elim (Outcome-cases (append_elimination_stage s.elimination scan.elimination)) [
                | inr (x, bad) ↦ absurd (ground arith)
                | inl (combined, appended) ↦
                    let same : scan ≡ t.1 = ground arith in
                    (
                      returned ∙ ap (λ x. ok x) same,
                      ground arith,
                      subst
                          (λ x.
                            append_elimination_stage s.elimination x.elimination
                            ≡ ok t.0.elimination)
                          same (ground arith),
                    )
              ]
        ]
      ]

  -- The stages are chained by their content hashes, and the last one is that of the working copy.
  abbrev pub Chained : ℕ → Progress H.HtProof → Type 0
  Chained hash s =
      (s.elimination.initial_hash ≡ hash) × (s.elimination.final_hash ≡ content_hash s.working)
