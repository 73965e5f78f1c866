-- ===== src/HtScan/Run.antt =====
-- RunHtScanEpoch of src/cpu/ht_scan.cpp.
pub mod Counts
pub mod Outcomes
use cuda_edge_elimination.Base.{
  ℕ, zero, suc, ◌+◌, ◌-◌, List, [], ◌∷◌, ◌++◌, Bool, true, false, not, ◌&&◌, ◌||◌, ltb, leb, ◌==◌,
  if◌then◌else◌, length, Option, none, some,
}
use cuda_edge_elimination.Base.Int.{ℤ, negsuc}
use cuda_edge_elimination.Base.Outcome.{Outcome, ok, err, Error, throw_if, ◌>>=◌, ◌>>◌}
use cuda_edge_elimination.Graph.{GraphSnapshot}
use cuda_edge_elimination.Graph.Hash.{content_hash}
use cuda_edge_elimination.Elimination.{EliminationResult, HtVerifier}
use cuda_edge_elimination.HtEpoch.{commit_ht_proof_epoch}
use cuda_edge_elimination.HtScan.{
  Search, HtScanOptions, HtScanAttempt, HtTargetEvaluation, HtScanResult, evaluate_ht_target,
  select_ht_target_edge_ids, validate_target_devices, max_ht_scan_targets,
}
use cuda_edge_elimination.HtScan.Validate.{bind_ht_graph}
use cuda_edge_elimination.HtScan.Workers.{evaluate_parallel}

abbrev pub minimum : ℕ → ℕ → ℕ
minimum a b = if ltb b a then b else a

-- targets[offset .. offset + count)
abbrev pub drop : ℕ → List ℕ → List ℕ
drop zero xs = xs
drop (suc n) [] = []
drop (suc n) (x ∷ xs) = drop n xs

abbrev pub take : ℕ → List ℕ → List ℕ
take zero xs = []
take (suc n) [] = []
take (suc n) (x ∷ xs) = x ∷ take n xs

-- What the scan has gathered: `attempts`, `proven_targets`, `unresolved_targets` and `proven`.
pub record Gathered (P : Type 0) : Type 0 where
  pub attempts : List HtScanAttempt
  pub proven_targets : ℕ
  pub unresolved_targets : ℕ
  pub proofs : List P

module _ (H : HtVerifier) (search : Search H.HtProof) where
  open H use {HtProof, verify}

  -- ConsumeHtTargetEvaluation
  unfoldable pub consume :
      GraphSnapshot → HtTargetEvaluation HtProof → Gathered HtProof → Outcome (Gathered HtProof)
  consume g e s = elim e.proven_proof [
    | none ↦ ok (record s {
      attempts = s.attempts ++ e.attempt ∷ [];
      unresolved_targets = s.unresolved_targets + 1;
    })
    | some p ↦ do
      fine ← verify g p
      throw_if (not fine) Error.runtime_error
      ok (record s {
        attempts = s.attempts ++ e.attempt ∷ [];
        proven_targets = s.proven_targets + 1;
        proofs = s.proofs ++ p ∷ [];
      })
  ]

  unfoldable pub consume_all :
      GraphSnapshot
      → List (HtTargetEvaluation HtProof)
      → Gathered HtProof
      → Outcome (Gathered HtProof)
  unfolding consume
  consume_all g [] s = ok s
  consume_all g (e ∷ es) s = consume g e s >>= λ s'. consume_all g es s'

  -- The loop without devices: each target is consumed before the next is evaluated.
  unfoldable pub scan_serial :
      GraphSnapshot → ℕ → List ℕ → Gathered HtProof → Outcome (Gathered HtProof)
  unfolding consume
  scan_serial g hash [] s = ok s
  scan_serial g hash (id ∷ ids) s = do
    e ← evaluate_ht_target search g hash id (negsuc 0)
    s' ← consume g e s
    scan_serial g hash ids s'

  abbrev pub nothing_gathered : Gathered HtProof
  nothing_gathered = record {
    attempts = [];
    proven_targets = 0;
    unresolved_targets = 0;
    proofs = [];
  }

  abbrev pub worker_count : List ℤ → ℕ → ℕ
  worker_count [] count = minimum 1 count
  worker_count (d ∷ ds) count = minimum (length (d ∷ ds)) count

  -- The two ways of running the slice.
  unfoldable pub scan_slice : GraphSnapshot → ℕ → List ℤ → List ℕ → Outcome (Gathered HtProof)
  unfolding scan_serial consume_all
  scan_slice g hash [] ids = scan_serial g hash ids nothing_gathered
  scan_slice g hash (d ∷ ds) ids =
      if length ids == 0
      then ok nothing_gathered
      else evaluate_parallel search g hash (d ∷ ds) (worker_count (d ∷ ds) (length ids)) ids
        >>= λ es. consume_all g es nothing_gathered

  unfoldable pub set_backend : EliminationResult HtProof → EliminationResult HtProof
  set_backend result = record result { backend = "ht-wavefront-scan-cpu-verified" }

  -- Everything before the commit: the targets, the size of the slice, and what was gathered.
  unfoldable pub scan_targets : GraphSnapshot → HtScanOptions → Outcome (ℕ × ℕ × Gathered HtProof)
  unfolding scan_slice bind_ht_graph
  scan_targets g options = do
    throw_if (options.max_targets == 0 || ltb max_ht_scan_targets options.max_targets)
        Error.invalid_argument
    validate_target_devices search.visible_devices options.target_devices
    bind_ht_graph g
    targets ← select_ht_target_edge_ids g options.target_order
    throw_if (ltb (length targets) options.target_offset) Error.invalid_argument
    let count = minimum options.max_targets (length targets - options.target_offset)
    let ids = take count (drop options.target_offset targets)
    gathered ← scan_slice g (content_hash g) options.target_devices ids
    ok (length targets, count, gathered)

  -- The graph that the caller is left with, and the result or the exception.
  unfoldable pub run_ht_scan_epoch :
      GraphSnapshot → HtScanOptions → GraphSnapshot × Outcome (HtScanResult HtProof)
  unfolding scan_targets set_backend
  run_ht_scan_epoch g options = elim (scan_targets g options) [
    | err e ↦ (g, err e)
    | ok (eligible, count, gathered) ↦
        let (g', committed) = commit_ht_proof_epoch H g gathered.proofs in
        elim committed [
          | err e ↦ (g', err e)
          | ok result ↦ (
            g',
            ok (record {
              elimination = set_backend result;
              eligible_targets = eligible;
              target_offset = options.target_offset;
              target_workers = worker_count options.target_devices count;
              target_parallel = ltb 1 (worker_count options.target_devices count);
              attempts = gathered.attempts;
              proven_targets = gathered.proven_targets;
              unresolved_targets = gathered.unresolved_targets;
            }),
          )
        ]
  ]
