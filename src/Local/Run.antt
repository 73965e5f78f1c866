-- ===== src/Local/Run.antt =====
-- RunLocalElimination of src/cpu/local_elimination.cpp.
pub mod Outcomes
use Prim.Native.String.{String}
use cuda_edge_elimination.Base.{
  ℕ, zero, suc, ◌+◌, ◌-◌, List, [], ◌∷◌, ◌++◌, Bool, true, false, not, ◌&&◌, ◌||◌, ltb, ◌==◌,
  if◌then◌else◌, length,
}
use cuda_edge_elimination.Base.Outcome.{Outcome, ok, err, Error, throw_if, ◌>>=◌, ◌>>◌}
use cuda_edge_elimination.Distance.{FloatOps}
use cuda_edge_elimination.Graph.{GraphSnapshot, active_edge_count}
use cuda_edge_elimination.Graph.Hash.{content_hash}
use cuda_edge_elimination.Elimination.{Backend, EpochMetrics, EliminationResult, HtVerifier}
use cuda_edge_elimination.Elimination.Run.{Device, run_jv_elimination}
use cuda_edge_elimination.HtScan.{Search, HtScanOptions, HtScanResult}
use cuda_edge_elimination.HtScan.Run.{run_ht_scan_epoch}
use cuda_edge_elimination.Local.{
  LocalEliminationStage, LocalEliminationTermination, LocalEliminationStageMetrics,
  LocalEliminationResult, add_checked, append_elimination_stage, max_local_epochs, jv_stage,
  ht_stage, converged, jv_round_limit, ht_epoch_limit,
}

pub record LocalEliminationOptions : Type 0 where
  pub jv_backend : Backend
  pub max_jv_rounds : ℕ
  pub max_ht_epochs : ℕ
  pub ht_scan_options : HtScanOptions

-- The loop of SummarizeJvStage: proposed, verified and rejected.
unfoldable pub add_epochs : List EpochMetrics → ℕ × ℕ × ℕ → Outcome (ℕ × ℕ × ℕ)
unfolding add_checked
add_epochs [] sums = ok sums
add_epochs (m ∷ ms) (proposed, verified, rejected) = do
  proposed' ← add_checked proposed m.proposed
  verified' ← add_checked verified m.verified
  rejected' ← add_checked rejected m.rejected
  add_epochs ms (proposed', verified', rejected')

unfoldable pub summarize_jv_stage :
    {P : Type 0} → ℕ → ℕ → ℕ → EliminationResult P → Outcome LocalEliminationStageMetrics
unfolding add_epochs
summarize_jv_stage stage before after result = do
  (proposed, verified, rejected) ← add_epochs result.epochs (0, 0, 0)
  ok (record {
    stage = stage;
    kind = jv_stage;
    backend = result.backend;
    initial_hash = result.initial_hash;
    final_hash = result.final_hash;
    edges_before = before;
    edges_after = after;
    proposed = proposed;
    verified = verified;
    rejected = rejected;
    committed = length result.proof;
    jv_rounds = length result.epochs;
    eligible_targets = 0;
    target_offset = 0;
    attempted_targets = 0;
    proven_targets = 0;
    unresolved_targets = 0;
    target_workers = 0;
    target_parallel = false;
  })

-- SummarizeHtStage, with the front of the scan's metrics as an argument.
abbrev pub summarize_ht_stage :
    {P : Type 0} → ℕ → ℕ → ℕ → HtScanResult P → EpochMetrics → LocalEliminationStageMetrics
summarize_ht_stage stage before after scan epoch = record {
  stage = stage;
  kind = ht_stage;
  backend = scan.elimination.backend;
  initial_hash = scan.elimination.initial_hash;
  final_hash = scan.elimination.final_hash;
  edges_before = before;
  edges_after = after;
  proposed = epoch.proposed;
  verified = epoch.verified;
  rejected = epoch.rejected;
  committed = epoch.committed;
  jv_rounds = 0;
  eligible_targets = scan.eligible_targets;
  target_offset = scan.target_offset;
  attempted_targets = length scan.attempts;
  proven_targets = scan.proven_targets;
  unresolved_targets = scan.unresolved_targets;
  target_workers = scan.target_workers;
  target_parallel = scan.target_parallel;
}

-- The only epoch of a scan, or none where the number of epochs is not one.
abbrev pub only : List EpochMetrics → Outcome EpochMetrics
only (m ∷ []) = ok m
only _ = err Error.logic_error

-- Whether the last epoch committed nothing; no epoch is an error.
unfoldable pub last_is_idle : List EpochMetrics → Outcome Bool
last_is_idle [] = err Error.logic_error
last_is_idle (m ∷ []) = ok (m.committed == 0)
last_is_idle (m ∷ k ∷ rest) = last_is_idle (k ∷ rest)

-- The working copy, and what `local` has gathered.
pub record Progress (P : Type 0) : Type 0 where
  pub working : GraphSnapshot
  pub elimination : EliminationResult P
  pub stages : List LocalEliminationStageMetrics

abbrev pub leave :
    {P : Type 0}
    → LocalEliminationTermination
    → Progress P
    → Outcome (GraphSnapshot × LocalEliminationResult P)
leave why s =
    ok (s.working, record { elimination = s.elimination; stages = s.stages; termination = why })

module _ (fp : FloatOps) (device : Device) (H : HtVerifier) (prover : Search H.HtProof) where
  open H use {HtProof}

  -- The lambda run_jv_fixed_point.
  unfoldable pub run_jv_fixed_point :
      LocalEliminationOptions → Progress HtProof → Outcome (Progress HtProof × Bool)
  unfolding last_is_idle summarize_jv_stage
  run_jv_fixed_point options s =
      let (after, returned) =
        run_jv_elimination fp device HtProof s.working options.jv_backend options.max_jv_rounds in
      (do
        jv ← returned
        idle ← last_is_idle jv.epochs
        metrics ←
            summarize_jv_stage (length s.stages) (active_edge_count s.working.edges)
              (active_edge_count after.edges) jv
        combined ← append_elimination_stage s.elimination jv
        ok (
          record { working = after; elimination = combined; stages = s.stages ++ metrics ∷ [] },
          idle,
        ))

  -- The scan of one iteration, its metrics and its proof.
  unfoldable pub run_ht_stage :
      LocalEliminationOptions
      → ℕ
      → Progress HtProof
      → Outcome (Progress HtProof × HtScanResult HtProof)
  run_ht_stage options offset s =
      let (after, returned) =
        run_ht_scan_epoch H prover s.working
          (record options.ht_scan_options { target_offset = offset }) in
      (do
        scan ← returned
        epoch ← only scan.elimination.epochs
        combined ← append_elimination_stage s.elimination scan.elimination
        ok (
          record {
            working = after;
            elimination = combined;
            stages =
                s.stages
                ++ summarize_ht_stage (length s.stages) (active_edge_count s.working.edges)
                    (active_edge_count after.edges) scan epoch
                  ∷ [];
          },
          scan,
        ))

  -- The loop over HT epochs; the first argument is the number of epochs that are left.
  unfoldable pub run_ht_epochs :
      LocalEliminationOptions
      → ℕ
      → ℕ
      → Progress HtProof
      → Outcome (GraphSnapshot × LocalEliminationResult HtProof)
  unfolding run_jv_fixed_point run_ht_stage
  run_ht_epochs options zero offset s = leave ht_epoch_limit s
  run_ht_epochs options (suc epochs) offset s = do
    (s', scan) ← run_ht_stage options offset s
    (if not (length scan.elimination.proof == 0)
        then (run_jv_fixed_point options s' >>= λ t. elim t.1 [
          | true ↦ run_ht_epochs options epochs 0 t.0
          | false ↦ leave jv_round_limit t.0
        ])
        else (throw_if (ltb (scan.eligible_targets - scan.target_offset) (length scan.attempts))
              Error.logic_error
            >>= λ _. elim (scan.target_offset + length scan.attempts == scan.eligible_targets) [
              | true ↦ leave converged s'
              | false ↦ throw_if (length scan.attempts == 0) Error.logic_error >>= λ _.
                  run_ht_epochs options epochs (scan.target_offset + length scan.attempts) s'
            ]))

  abbrev pub refused : LocalEliminationOptions → Bool
  refused options =
      (options.max_jv_rounds == 0 || ltb max_local_epochs options.max_jv_rounds)
      || (options.max_ht_epochs == 0 || ltb max_local_epochs options.max_ht_epochs)

  abbrev pub starting : GraphSnapshot → Progress HtProof
  starting g = record {
    working = g;
    elimination = record {
      backend = "local-jv-ht-cpu-verified";
      initial_hash = content_hash g;
      final_hash = content_hash g;
      proof = [];
      ht_proofs = [];
      epochs = [];
    };
    stages = [];
  }

  -- What runs on the working copy.
  unfoldable pub run_local_working :
      GraphSnapshot
      → LocalEliminationOptions
      → Outcome (GraphSnapshot × LocalEliminationResult HtProof)
  unfolding run_ht_epochs
  run_local_working g options = do
    throw_if (refused options) Error.invalid_argument
    throw_if (not (options.ht_scan_options.target_offset == 0)) Error.invalid_argument
    (s, idle) ← run_jv_fixed_point options (starting g)
    (if idle then run_ht_epochs options options.max_ht_epochs 0 s else leave jv_round_limit s)

  -- The graph that the caller is left with, and the result or the exception.
  unfoldable pub run_local_elimination :
      GraphSnapshot
      → LocalEliminationOptions
      → GraphSnapshot × Outcome (LocalEliminationResult HtProof)
  unfolding run_local_working
  run_local_elimination g options = elim (run_local_working g options) [
    | err e ↦ (g, err e)
    | ok (g', result) ↦ (g', ok result)
  ]
