-- ===== src/Examples/Stages.antt =====
-- The theorems on local elimination at the sample snapshot.
use cuda_edge_elimination.Base.{
  Bool, true, false, arith, ◌≡◌, ◌+◌, ◌++◌, refl, List, [], ◌∷◌, length, inl, ◌⊎◌,
}
use cuda_edge_elimination.Base.Int.{pos, negsuc, ◌-ℤ◌}
use cuda_edge_elimination.Base.Outcome.{Outcome, ok, err}
use cuda_edge_elimination.Types.{Candidate, ProofRecord, hamilton_tutte}
use cuda_edge_elimination.Graph.{
  rebuild_csr, degree, offsets_of, row, canonical_sorted, filled, distance, has_active_edge,
  active_edge_count,
}
use cuda_edge_elimination.Distance.{
  exact_integer_distance, round_squared, squared_distance, integer_sqrt_floor,
}
use cuda_edge_elimination.Jv.{
  find_jv_candidates_cpu, potential_candidate_nodes, is_jv_witness, verify_candidates,
  verify_jv_candidate,
}
use cuda_edge_elimination.Elimination.Run.{run_jv_elimination, Device}
use cuda_edge_elimination.Commit.{
  apply_committed, commit_verified_candidates, all_valid, degrees_from, select, unique_candidates,
  sort_candidates,
}
use cuda_edge_elimination.Graph.Hash.{content_hash}
use cuda_edge_elimination.Elimination.{EliminationResult, cuda}
use cuda_edge_elimination.Elimination.Survive.{Keeps}
use cuda_edge_elimination.Local.Run.Outcomes.Converged.{EndsSweep, run_local_elimination-converged}
use cuda_edge_elimination.Local.{
  LocalEliminationTermination, converged, jv_round_limit, ht_epoch_limit, LocalEliminationResult,
  add_checked, append_elimination_stage, append_records, rebase_all, rebase, rebase_metrics,
  next_source_epoch,
}
use cuda_edge_elimination.Local.Chain.{Zip}
use cuda_edge_elimination.Local.Chain.Joined.{
  IsContainer, Carried, append_elimination_stage-IsContainer, append_elimination_stage-Carried,
}
use cuda_edge_elimination.Local.Run.{
  LocalEliminationOptions, run_local_elimination, run_local_working, run_ht_epochs, run_ht_stage,
  run_jv_fixed_point, last_is_idle, summarize_jv_stage, add_epochs,
}
use cuda_edge_elimination.HtEpoch.{
  commit_ht_proof_epoch, has_duplicate_edge, verify_all, sort_verified, unique_verified,
  ht_candidates, publish, ht_epoch_working,
}
use cuda_edge_elimination.HtScan.{
  select_ht_target_edge_ids, evaluate_ht_target, degree_above_two, is_target, collect_targets,
  target_less, insert_target, sort_targets, validate_target_devices,
}
use cuda_edge_elimination.HtScan.Validate.{
  bind_ht_graph, validate_ht_graph, valid_rows, valid_neighbors,
}
use cuda_edge_elimination.HtScan.Run.{
  run_ht_scan_epoch, consume, scan_serial, scan_slice, set_backend, scan_targets,
}
use cuda_edge_elimination.Local.Run.Outcomes.Results.{
  AnyMisjudged, run_local_elimination-Keeps, run_local_elimination-chain,
  run_local_elimination-IsContainer,
}
use cuda_edge_elimination.Examples.{
  integer_ops, integer_laws, sample, trimmed, around, sample-Keeps, checker, recorded, shortcut,
}
use cuda_edge_elimination.Examples.Scans.{prover, options, ok_of}

-- A device that proposes nothing, so that {0, 2} is left to the Hamilton-Tutte stage.
abbrev quiet : Device
quiet = record { available = true; propose = λ g. ok [] }

abbrev local_options : LocalEliminationOptions
local_options = record {
  jv_backend = cuda;
  max_jv_rounds = 3;
  max_ht_epochs = 4;
  ht_scan_options = options;
}

run_local_elimination-Keeps_example :
    Keeps integer_ops around
      (run_local_elimination integer_ops quiet checker prover sample local_options).0
    ⊎ ∥ AnyMisjudged integer_ops checker prover around ∥₁
run_local_elimination-Keeps_example =
    run_local_elimination-Keeps integer_ops quiet checker prover sample local_options around
      integer_laws sample-Keeps

-- A stage with one Hamilton-Tutte record after the recorded run.
abbrev stage : EliminationResult Candidate
stage = record {
  backend = "ht";
  initial_hash = content_hash trimmed;
  final_hash = 5;
  proof =
      record {
        epoch = 0;
        snapshot_hash = content_hash trimmed;
        edge_id = pos 3;
        u = pos 0;
        v = pos 4;
        witness = negsuc 0;
        method = hamilton_tutte;
        certificate_index = 0;
      }
      ∷ [];
  ht_proofs = shortcut ∷ [];
  epochs = [];
}

recorded-IsContainer : IsContainer recorded
recorded-IsContainer = record { numbered = (refl, tt); bound = (inl (refl, refl), tt) }

appended :
    (next : EliminationResult Candidate) × (append_elimination_stage recorded stage ≡ ok next)
unfolding append_elimination_stage append_records rebase_all rebase rebase_metrics next_source_epoch
    content_hash rebuild_csr apply_committed
appended = ok_of (append_elimination_stage recorded stage) refl

append_elimination_stage-IsContainer_example :
    IsContainer appended.0 × (length appended.0.proof ≡ length recorded.proof + length stage.proof)
append_elimination_stage-IsContainer_example =
    append_elimination_stage-IsContainer recorded stage appended.0 appended.1 recorded-IsContainer

append_elimination_stage-Carried_example :
    (records : List ProofRecord) × (appended.0.proof ≡ recorded.proof ++ records)
    × Zip (Carried stage.ht_proofs appended.0.ht_proofs) stage.proof records
append_elimination_stage-Carried_example =
    append_elimination_stage-Carried recorded stage appended.0 appended.1

ran :
    (result : LocalEliminationResult Candidate) × ((run_local_elimination integer_ops quiet checker
        prover sample local_options).1
      ≡ ok result)
unfolding run_local_elimination run_local_working run_ht_epochs run_ht_stage run_jv_fixed_point
    last_is_idle summarize_jv_stage add_epochs add_checked append_elimination_stage append_records
    rebase_all rebase rebase_metrics next_source_epoch content_hash rebuild_csr apply_committed
    run_ht_scan_epoch scan_targets scan_slice scan_serial consume set_backend evaluate_ht_target
    validate_target_devices select_ht_target_edge_ids degree_above_two is_target collect_targets
    target_less insert_target sort_targets degree offsets_of commit_ht_proof_epoch
    has_duplicate_edge verify_all sort_verified unique_verified ht_candidates publish
    ht_epoch_working commit_verified_candidates all_valid degrees_from select unique_candidates
    sort_candidates run_jv_elimination find_jv_candidates_cpu potential_candidate_nodes row
    canonical_sorted filled distance exact_integer_distance round_squared squared_distance ◌-ℤ◌
    integer_sqrt_floor has_active_edge is_jv_witness verify_candidates verify_jv_candidate
    bind_ht_graph validate_ht_graph valid_rows valid_neighbors active_edge_count
ran = ok_of (run_local_elimination integer_ops quiet checker prover sample local_options).1 refl

run_local_elimination-chain_example :
    (ran.0.elimination.initial_hash ≡ content_hash sample)
    × (ran.0.elimination.final_hash
        ≡ content_hash
            (run_local_elimination integer_ops quiet checker prover sample local_options).0)
run_local_elimination-chain_example =
    run_local_elimination-chain integer_ops quiet checker prover sample local_options ran.0 ran.1

run_local_elimination-IsContainer_example : IsContainer ran.0.elimination
run_local_elimination-IsContainer_example =
    run_local_elimination-IsContainer integer_ops quiet checker prover sample local_options ran.0
      ran.1

abbrev is_done : LocalEliminationTermination → Bool
is_done converged = true
is_done jv_round_limit = false
is_done ht_epoch_limit = false

is_done_lem : (t : LocalEliminationTermination) → is_done t ≡ true → t ≡ converged
is_done_lem converged h = refl
is_done_lem jv_round_limit h = absurd (ground arith)
is_done_lem ht_epoch_limit h = absurd (ground arith)

abbrev is_converged : Outcome (LocalEliminationResult Candidate) → Bool
is_converged (ok r) = is_done r.termination
is_converged (err e) = false

converged_of :
    (m : Outcome (LocalEliminationResult Candidate))
    → is_converged m ≡ true
    → (result : LocalEliminationResult Candidate) × (m ≡ ok result)
      × (result.termination ≡ converged)
converged_of (ok r) h = (r, refl, is_done_lem r.termination h)
converged_of (err e) h = absurd (ground arith)

swept :
    (result : LocalEliminationResult Candidate) × ((run_local_elimination integer_ops quiet checker
        prover sample local_options).1
      ≡ ok result)
    × (result.termination ≡ converged)
unfolding run_local_elimination run_local_working run_ht_epochs run_ht_stage run_jv_fixed_point
    last_is_idle summarize_jv_stage add_epochs add_checked append_elimination_stage append_records
    rebase_all rebase rebase_metrics next_source_epoch content_hash rebuild_csr apply_committed
    run_ht_scan_epoch scan_targets scan_slice scan_serial consume set_backend evaluate_ht_target
    validate_target_devices select_ht_target_edge_ids degree_above_two is_target collect_targets
    target_less insert_target sort_targets degree offsets_of commit_ht_proof_epoch
    has_duplicate_edge verify_all sort_verified unique_verified ht_candidates publish
    ht_epoch_working commit_verified_candidates all_valid degrees_from select unique_candidates
    sort_candidates run_jv_elimination find_jv_candidates_cpu potential_candidate_nodes row
    canonical_sorted filled distance exact_integer_distance round_squared squared_distance ◌-ℤ◌
    integer_sqrt_floor has_active_edge is_jv_witness verify_candidates verify_jv_candidate
    bind_ht_graph validate_ht_graph valid_rows valid_neighbors active_edge_count
swept =
    converged_of (run_local_elimination integer_ops quiet checker prover sample local_options).1
      refl

run_local_elimination-converged_example : EndsSweep swept.0.elimination.final_hash swept.0.stages
run_local_elimination-converged_example =
    run_local_elimination-converged integer_ops quiet checker prover sample local_options swept.0
      swept.1 swept.2
