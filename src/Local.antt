-- ===== src/Local.antt =====
-- src/cpu/local_elimination.cpp: RunLocalElimination alternates Jonker-Volgenant rounds and
-- Hamilton-Tutte scans on a copy of the graph, and AppendEliminationStage joins their proofs into one.
-- Times are not kept.
pub mod Run
pub mod Chain
use Prim.Native.String.{String}
use cuda_edge_elimination.Base.{
  ℕ, zero, suc, ◌+◌, ◌-◌, ◌^◌, List, [], ◌∷◌, ◌++◌, Bool, true, false, not, ◌&&◌, ◌||◌, ltb, leb,
  ◌==◌, if◌then◌else◌, length,
}
use cuda_edge_elimination.Base.Outcome.{Outcome, ok, err, Error, throw_if, ◌>>=◌, ◌>>◌}
use cuda_edge_elimination.Base.Words.{u64_max}
use cuda_edge_elimination.Types.{ProofRecord}
use cuda_edge_elimination.Jv.{is_jv}
use cuda_edge_elimination.Elimination.{EpochMetrics, EliminationResult, no_certificate}

abbrev pub max_local_epochs : ℕ
max_local_epochs = 1000000

abbrev pub max_combined_proof_records : ℕ
max_combined_proof_records = 1000000

abbrev pub max_combined_ht_proofs : ℕ
max_combined_ht_proofs = 1000000

abbrev pub u32_max : ℕ
u32_max = 2 ^ 32 - 1

pub data LocalEliminationStage : Type 0 where
  jv_stage ht_stage : LocalEliminationStage

pub data LocalEliminationTermination : Type 0 where
  converged jv_round_limit ht_epoch_limit : LocalEliminationTermination

pub stage_to_string : LocalEliminationStage → String
stage_to_string jv_stage = "JV"
stage_to_string ht_stage = "HT"

pub termination_to_string : LocalEliminationTermination → String
termination_to_string converged = "converged"
termination_to_string jv_round_limit = "jv-round-limit"
termination_to_string ht_epoch_limit = "ht-epoch-limit"

pub record LocalEliminationStageMetrics : Type 0 where
  pub stage : ℕ
  pub kind : LocalEliminationStage
  pub backend : String
  pub initial_hash : ℕ
  pub final_hash : ℕ
  pub edges_before : ℕ
  pub edges_after : ℕ
  pub proposed : ℕ
  pub verified : ℕ
  pub rejected : ℕ
  pub committed : ℕ
  pub jv_rounds : ℕ
  pub eligible_targets : ℕ
  pub target_offset : ℕ
  pub attempted_targets : ℕ
  pub proven_targets : ℕ
  pub unresolved_targets : ℕ
  pub target_workers : ℕ
  pub target_parallel : Bool

pub record LocalEliminationResult (P : Type 0) : Type 0 where
  pub elimination : EliminationResult P
  pub stages : List LocalEliminationStageMetrics
  pub termination : LocalEliminationTermination

-- AddChecked
unfoldable pub add_checked : ℕ → ℕ → Outcome ℕ
add_checked destination value = do
  throw_if (ltb (u64_max - value) destination) Error.overflow_error
  ok (destination + value)

-- The epoch of the last record, for a proof that is not empty.
abbrev pub last_epoch : List ProofRecord → ℕ
last_epoch [] = 0
last_epoch (r ∷ []) = r.epoch
last_epoch (r ∷ s ∷ rest) = last_epoch (s ∷ rest)

-- Where the stage's epochs start in the combined proof.
abbrev pub first_epoch : List ProofRecord → ℕ
first_epoch [] = 0
first_epoch (r ∷ rest) = last_epoch (r ∷ rest) + 1

-- The check of a record's epoch against `current_source_epoch`: the new value of that variable. The
-- first record is to have the epoch 0.
unfoldable pub next_source_epoch : Bool → ℕ → ℕ → Outcome ℕ
next_source_epoch first current epoch =
    if first
    then (throw_if (not (epoch == 0)) Error.logic_error >>= λ _. ok current)
    else if epoch == current
    then ok current
    else (throw_if (current == u32_max || not (epoch == current + 1)) Error.logic_error >>= λ _.
        ok epoch)

-- One record with its epoch and its certificate index renumbered; `proofs` is the number of
-- certificates of the stage.
unfoldable pub rebase : ℕ → ℕ → ℕ → ProofRecord → Outcome ProofRecord
rebase start base proofs r = do
  throw_if (ltb (u32_max - r.epoch) start) Error.logic_error
  let moved : ProofRecord = record r { epoch = start + r.epoch }
  (if is_jv r.method
      then (throw_if (not (r.certificate_index == no_certificate)) Error.logic_error >>= λ _.
          ok moved)
      else (throw_if (leb proofs r.certificate_index || ltb (u32_max - r.certificate_index) base)
            Error.logic_error
          >>= λ _. ok (record moved { certificate_index = r.certificate_index + base })))

-- The loop over the stage's records: the renumbered records and the last `current_source_epoch`.
unfoldable pub rebase_all : ℕ → ℕ → ℕ → Bool → ℕ → List ProofRecord → Outcome (List ProofRecord × ℕ)
unfolding next_source_epoch rebase
rebase_all start base proofs first current [] = ok ([], current)
rebase_all start base proofs first current (r ∷ rs) = do
  current' ← next_source_epoch first current r.epoch
  moved ← rebase start base proofs r
  (rest, last) ← rebase_all start base proofs false current' rs
  ok (moved ∷ rest, last)

-- The loop over the stage's metrics: epochs that committed nothing are left out.
unfoldable pub rebase_metrics : ℕ → ℕ → List EpochMetrics → Outcome (List EpochMetrics)
rebase_metrics start last [] = ok []
rebase_metrics start last (m ∷ ms) =
    let later = rebase_metrics start last ms in
    if m.committed == 0 then later else do
      throw_if (ltb last m.epoch) Error.logic_error
      rest ← later
      ok (record m { epoch = start + m.epoch } ∷ rest)

abbrev pub too_long : ℕ → ℕ → ℕ → Bool
too_long limit have more = ltb limit more || ltb (limit - more) have

module _ {P : Type 0} where
  -- AppendEliminationStage for a stage with records.
  unfoldable pub append_records :
      EliminationResult P → EliminationResult P → Outcome (EliminationResult P)
  unfolding rebase_all rebase_metrics
  append_records combined stage = do
    throw_if
        ((too_long max_combined_proof_records (length combined.proof) (length stage.proof)
            || too_long max_combined_ht_proofs (length combined.ht_proofs) (length stage.ht_proofs))
          || ltb u32_max (length combined.ht_proofs))
        Error.overflow_error
    throw_if (not (length combined.proof == 0) && last_epoch combined.proof == u32_max)
        Error.overflow_error
    let start = first_epoch combined.proof
    let base = length combined.ht_proofs
    (records, last) ← rebase_all start base (length stage.ht_proofs) true 0 stage.proof
    metrics ← rebase_metrics start last stage.epochs
    ok (record combined {
      proof = combined.proof ++ records;
      ht_proofs = combined.ht_proofs ++ stage.ht_proofs;
      epochs = combined.epochs ++ metrics;
      final_hash = stage.final_hash;
    })

  unfoldable pub append_elimination_stage :
      EliminationResult P → EliminationResult P → Outcome (EliminationResult P)
  unfolding append_records
  append_elimination_stage combined stage = do
    throw_if (not (combined.final_hash == stage.initial_hash)) Error.logic_error
    (if length stage.proof == 0
        then (throw_if
              (not (length stage.ht_proofs == 0) || not (stage.initial_hash == stage.final_hash))
              Error.logic_error
            >>= λ _. ok combined)
        else append_records combined stage)
