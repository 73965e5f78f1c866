-- ===== src/HtScan.antt =====
-- src/cpu/ht_scan.cpp: RunHtScanEpoch selects targets, lets a search propose certificates for a slice
-- of them, verifies each at once and commits the proven ones. Times, counters and backend names are
-- observations that no decision reads; they are not kept.
pub mod Targets
pub mod Validate
pub mod Workers
pub mod Run
use cuda_edge_elimination.Base.{
  ℕ, zero, suc, ◌+◌, ◌-◌, List, [], ◌∷◌, ◌++◌, Bool, true, false, not, ◌&&◌, ◌||◌, ltb, leb, ◌==◌,
  if◌then◌else◌, length, Option, none, some, get_or,
}
use cuda_edge_elimination.Base.Int.{ℤ, pos, negsuc, eqb_ℤ, ltb_ℤ}
use cuda_edge_elimination.Base.Outcome.{Outcome, ok, err, Error, throw_if, ◌>>=◌, ◌>>◌}
use cuda_edge_elimination.Types.{Edge}
use cuda_edge_elimination.Graph.{GraphSnapshot, degree}
use cuda_edge_elimination.Graph.Hash.{content_hash}
use cuda_edge_elimination.Commit.{edge_or}
use cuda_edge_elimination.Jv.{edge_at}
use cuda_edge_elimination.Elimination.{EliminationResult, HtVerifier}

pub data SearchStatus : Type 0 where
  proven unresolved invalid : SearchStatus

pub data TargetOrder : Type 0 where
  canonical weight_descending : TargetOrder

abbrev pub max_ht_scan_targets : ℕ
max_ht_scan_targets = 1000000

abbrev pub max_ht_target_workers : ℕ
max_ht_target_workers = 32

-- What ProveEdgeByWavefrontHtBoundToSnapshot returns, and the devices. The search and the devices are
-- untrusted: nothing is assumed of their answers.
pub record Wavefront (P : Type 0) : Type 0 where
  pub status : SearchStatus
  pub proof : P

pub record Search (P : Type 0) : Type 0 where
  pub prove : GraphSnapshot → Edge → ℤ → Outcome (Wavefront P)
  -- VisibleCudaDeviceCount and SetCudaDevicePreferenceForCurrentThread
  pub visible_devices : ℤ
  pub bind_device : ℤ → Bool

pub record HtScanOptions : Type 0 where
  pub target_offset : ℕ
  pub max_targets : ℕ
  pub target_order : TargetOrder
  pub target_devices : List ℤ

pub record HtScanAttempt : Type 0 where
  pub edge_id : ℕ
  pub target_u : ℕ
  pub target_v : ℕ
  pub status : SearchStatus
  pub assigned_device : ℤ

pub record HtTargetEvaluation (P : Type 0) : Type 0 where
  pub attempt : HtScanAttempt
  pub proven_proof : Option P

pub record HtScanResult (P : Type 0) : Type 0 where
  pub elimination : EliminationResult P
  pub eligible_targets : ℕ
  pub target_offset : ℕ
  pub target_workers : ℕ
  pub target_parallel : Bool
  pub attempts : List HtScanAttempt
  pub proven_targets : ℕ
  pub unresolved_targets : ℕ

-- ValidateTargetDevices
pub has_device : List ℤ → ℤ → Bool
has_device [] d = false
has_device (x ∷ xs) d = eqb_ℤ x d || has_device xs d

-- The first loop, with the devices before the current one.
pub check_ordinals : List ℤ → List ℤ → Outcome (Unit {0})
unfolding has_device
check_ordinals seen [] = ok tt
check_ordinals seen (d ∷ ds) = do
  throw_if (ltb_ℤ d (pos 0)) Error.invalid_argument
  throw_if (has_device seen d) Error.invalid_argument
  check_ordinals (seen ++ d ∷ []) ds

pub check_visible : ℤ → List ℤ → Outcome (Unit {0})
check_visible visible [] = ok tt
check_visible visible (d ∷ ds) = do
  throw_if (not (ltb_ℤ d visible)) Error.invalid_argument
  check_visible visible ds

unfoldable pub validate_target_devices : ℤ → List ℤ → Outcome (Unit {0})
unfolding check_ordinals check_visible
validate_target_devices visible [] = ok tt
validate_target_devices visible (d ∷ ds) = do
  throw_if (ltb max_ht_target_workers (length (d ∷ ds))) Error.invalid_argument
  check_ordinals [] (d ∷ ds)
  throw_if (not (ltb_ℤ (pos 0) visible)) Error.runtime_error
  check_visible visible (d ∷ ds)

-- SelectHtTargetEdgeIds: the test of one edge, with its short circuits.
unfoldable pub degree_above_two : Bool → GraphSnapshot → ℕ → Outcome Bool
degree_above_two false g v = ok false
degree_above_two true g v = degree g v >>= λ d. ok (ltb 2 d)

unfoldable pub is_target : GraphSnapshot → Edge → Outcome Bool
unfolding degree_above_two
is_target g e = do at_u ← degree_above_two e.active g e.u; degree_above_two at_u g e.v

-- The loop over the edges from the id `id` on.
unfoldable pub collect_targets : GraphSnapshot → ℕ → List Edge → Outcome (List ℕ)
unfolding is_target
collect_targets g id [] = ok []
collect_targets g id (e ∷ es) = do
  wanted ← is_target g e
  rest ← collect_targets g (suc id) es
  ok (if wanted then id ∷ rest else rest)

abbrev pub is_weight_descending : TargetOrder → Bool
is_weight_descending canonical = false
is_weight_descending weight_descending = true

unfoldable pub target_less : TargetOrder → List Edge → ℕ → ℕ → Bool
target_less order es a b =
    let ea = edge_or (edge_at es (pos a)) in
    let eb = edge_or (edge_at es (pos b)) in
    if is_weight_descending order && not (ea.weight == eb.weight)
    then ltb eb.weight ea.weight
    else ltb ea.u eb.u || (ea.u == eb.u && (ltb ea.v eb.v || (ea.v == eb.v && ltb a b)))

unfoldable pub insert_target : TargetOrder → List Edge → ℕ → List ℕ → List ℕ
unfolding target_less
insert_target order es a [] = a ∷ []
insert_target order es a (b ∷ bs) =
    if target_less order es b a then b ∷ insert_target order es a bs else a ∷ b ∷ bs

-- std::sort, as an insertion sort: the order is total.
unfoldable pub sort_targets : TargetOrder → List Edge → List ℕ → List ℕ
unfolding insert_target
sort_targets order es [] = []
sort_targets order es (a ∷ rest) = insert_target order es a (sort_targets order es rest)

unfoldable pub select_ht_target_edge_ids : GraphSnapshot → TargetOrder → Outcome (List ℕ)
unfolding collect_targets sort_targets
select_ht_target_edge_ids g order = do
  throw_if (ltb (2147483647) (length g.edges)) Error.overflow_error
  targets ← collect_targets g 0 g.edges
  ok (sort_targets order g.edges targets)

abbrev pub is_invalid : SearchStatus → Bool
is_invalid invalid = true
is_invalid _ = false

abbrev pub proof_of : {P : Type 0} → Wavefront P → Option P
proof_of w = elim w.status [ proven ↦ some w.proof | unresolved ↦ none | invalid ↦ none ]

-- EvaluateHtTarget
unfoldable pub evaluate_ht_target :
    {P : Type 0} → Search P → GraphSnapshot → ℕ → ℕ → ℤ → Outcome (HtTargetEvaluation P)
evaluate_ht_target search g hash edge_id device = do
  let e = edge_or (edge_at g.edges (pos edge_id))
  w ← search.prove g e device
  throw_if (is_invalid w.status) Error.runtime_error
  throw_if (not (content_hash g == hash)) Error.logic_error
  ok (record {
    attempt = record {
      edge_id = edge_id;
      target_u = e.u;
      target_v = e.v;
      status = w.status;
      assigned_device = device;
    };
    proven_proof = proof_of w;
  })
