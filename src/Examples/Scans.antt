-- ===== src/Examples/Scans.antt =====
-- The theorems on scans and stages at the sample snapshot.
use cuda_edge_elimination.Base.{
  ℕ, ◌≡◌, ◌↔◌, ◌≤◌, refl, List, [], ◌∷◌, arith, Bool, true, false, length, get_elem?, some, ◌-◌,
  ◌+◌, ◌⊎◌, if◌then◌else◌, ◌==◌, ◌&&◌,
}
use cuda_edge_elimination.Base.Int.{ℤ, pos, ◌-ℤ◌}
use cuda_edge_elimination.Base.Outcome.{Outcome, ok, err}
use cuda_edge_elimination.Types.{Edge, Candidate}
use cuda_edge_elimination.Graph.{
  rebuild_csr, degree, offsets_of, has_active_edge, active_edge_count, distance, row,
  canonical_sorted, filled,
}
use cuda_edge_elimination.Distance.{
  exact_integer_distance, round_squared, squared_distance, integer_sqrt_floor,
}
use cuda_edge_elimination.Jv.{verify_jv_candidate, is_jv_witness}
use cuda_edge_elimination.HtScan.Validate.{
  bind_ht_graph, validate_ht_graph, valid_rows, valid_neighbors,
}
use cuda_edge_elimination.Graph.Hash.{content_hash}
use cuda_edge_elimination.Commit.{
  commit_verified_candidates, all_valid, degrees_from, select, unique_candidates, sort_candidates,
  apply_committed,
}
use cuda_edge_elimination.Elimination.Survive.{Keeps}
use cuda_edge_elimination.HtEpoch.{
  commit_ht_proof_epoch, has_duplicate_edge, verify_all, sort_verified, unique_verified,
  ht_candidates, publish, ht_epoch_working,
}
use cuda_edge_elimination.HtEpoch.Safe.{commit_ht_proof_epoch-Keeps, OneMisjudged}
use cuda_edge_elimination.HtScan.{
  Search, HtScanOptions, HtScanResult, HtTargetEvaluation, unresolved, proven, weight_descending,
  select_ht_target_edge_ids, evaluate_ht_target, degree_above_two, is_target, collect_targets,
  target_less, insert_target, sort_targets, validate_target_devices,
}
use cuda_edge_elimination.HtScan.Targets.Order.{Ordered, Lists}
use cuda_edge_elimination.HtScan.Targets.{Eligible, select_ht_target_edge_ids_lem}
use cuda_edge_elimination.HtScan.Workers.{
  evaluate_parallel, evaluate_in_order, run_worker, unbound, worker_slots, merge, joined, rethrow,
  collect,
}
use cuda_edge_elimination.HtScan.Workers.InOrder.{evaluate_parallel-in_order}
use cuda_edge_elimination.HtScan.Run.{
  run_ht_scan_epoch, consume, scan_serial, scan_slice, set_backend, scan_targets, minimum,
}
use cuda_edge_elimination.HtScan.Run.Counts.{run_ht_scan_epoch_counts, proven_among, open_among}
use cuda_edge_elimination.Examples.{
  integer_ops, sample, around, sample-Keeps, checker, trimmed, shortcut,
}

-- A prover that proves {0, 2} and leaves every other edge open.
abbrev pub prover : Search Candidate
prover = record {
  prove = λ g e device.
      ok
        (record { status = if e.u == 0 && e.v == 2 then proven else unresolved; proof = shortcut });
  visible_devices = pos 2;
  bind_device = λ device. true;
}

abbrev pub options : HtScanOptions
options = record {
  target_offset = 0;
  max_targets = 2;
  target_order = weight_descending;
  target_devices = [];
}

-- The epoch commits {0, 2}.
committed : (commit_ht_proof_epoch checker sample (shortcut ∷ [])).0 ≡ trimmed
unfolding commit_ht_proof_epoch has_duplicate_edge verify_all sort_verified unique_verified
    ht_candidates publish ht_epoch_working commit_verified_candidates all_valid degrees_from select
    unique_candidates sort_candidates rebuild_csr degree offsets_of content_hash active_edge_count
    verify_jv_candidate is_jv_witness distance exact_integer_distance round_squared squared_distance
    ◌-ℤ◌ integer_sqrt_floor row canonical_sorted filled apply_committed
committed = refl

commit_ht_proof_epoch-Keeps_example :
    Keeps integer_ops around (commit_ht_proof_epoch checker sample (shortcut ∷ [])).0
    ⊎ ∥ OneMisjudged checker around sample (shortcut ∷ []) ∥₁
commit_ht_proof_epoch-Keeps_example =
    commit_ht_proof_epoch-Keeps integer_ops checker sample (shortcut ∷ []) around sample-Keeps

abbrev chosen : List ℕ
chosen = 1 ∷ 3 ∷ 6 ∷ 0 ∷ 4 ∷ 5 ∷ []

chosen_eq : select_ht_target_edge_ids sample weight_descending ≡ ok chosen
unfolding select_ht_target_edge_ids degree_above_two is_target collect_targets target_less
    insert_target sort_targets rebuild_csr degree offsets_of
chosen_eq = refl

select_ht_target_edge_ids_lem_example :
    Ordered weight_descending sample.edges chosen
    × (Lists chosen 6 ↔ ((e : Edge) × (get_elem? sample.edges 6 ≡ some e) × Eligible sample e))
select_ht_target_edge_ids_lem_example =
    select_ht_target_edge_ids_lem sample weight_descending chosen 6 chosen_eq

abbrev pub is_good {ℓ} : {A : Type ℓ} → Outcome A → Bool
is_good (ok a) = true
is_good (err e) = false

pub ok_of {ℓ} : {A : Type ℓ} (m : Outcome A) → is_good m ≡ true → (a : A) × (m ≡ ok a)
ok_of (ok a) h = (a, refl)
ok_of (err e) h = absurd (ground arith)

abbrev two_devices : List ℤ
two_devices = pos 0 ∷ pos 1 ∷ []

evaluated :
    (es : List (HtTargetEvaluation Candidate)) × (evaluate_parallel prover sample
        (content_hash sample)
        two_devices
        2
        chosen
      ≡ ok es)
unfolding evaluate_parallel run_worker unbound worker_slots merge joined rethrow collect
    evaluate_ht_target content_hash rebuild_csr
evaluated = ok_of (evaluate_parallel prover sample (content_hash sample) two_devices 2 chosen) refl

evaluate_parallel-in_order_example :
    evaluate_in_order prover sample (content_hash sample) two_devices 2 0 chosen ≡ ok evaluated.0
evaluate_parallel-in_order_example =
    evaluate_parallel-in_order prover sample (content_hash sample) two_devices 2 chosen evaluated.0
      (omega arith) evaluated.1

scanned :
    (scan : HtScanResult Candidate) × ((run_ht_scan_epoch checker prover sample options).1
      ≡ ok scan)
unfolding run_ht_scan_epoch scan_targets scan_slice scan_serial consume set_backend
    evaluate_ht_target validate_target_devices select_ht_target_edge_ids degree_above_two is_target
    collect_targets target_less insert_target sort_targets rebuild_csr degree offsets_of
    content_hash commit_ht_proof_epoch has_duplicate_edge verify_all sort_verified unique_verified
    ht_candidates publish ht_epoch_working commit_verified_candidates all_valid degrees_from select
    unique_candidates sort_candidates bind_ht_graph validate_ht_graph valid_rows valid_neighbors
    has_active_edge active_edge_count verify_jv_candidate is_jv_witness distance
    exact_integer_distance round_squared squared_distance ◌-ℤ◌ integer_sqrt_floor row
    canonical_sorted filled apply_committed
scanned = ok_of (run_ht_scan_epoch checker prover sample options).1 refl

run_ht_scan_epoch_counts_example :
    (scanned.0.target_offset ≤ scanned.0.eligible_targets)
    × (length scanned.0.attempts
        ≡ minimum options.max_targets (scanned.0.eligible_targets - scanned.0.target_offset))
    × (scanned.0.proven_targets ≡ proven_among scanned.0.attempts)
    × (scanned.0.unresolved_targets ≡ open_among scanned.0.attempts)
    × (scanned.0.proven_targets + scanned.0.unresolved_targets ≡ length scanned.0.attempts)
run_ht_scan_epoch_counts_example =
    run_ht_scan_epoch_counts checker prover sample options scanned.0 scanned.1
