-- ===== src/Elimination.antt =====
-- include/cuda_edge_elimination/elimination.hpp and src/cpu/jv_elimination.cpp: results of an
-- elimination, their container checks, and the two drivers that are built from them.
-- Wall-clock times, cache flags and device numbers are observations that no decision reads; they are
-- not kept.
pub mod Run
pub mod Survive
pub mod Replay
use Prim.Native.String.{String}
use cuda_edge_elimination.Base.{
  ℕ, ◌+◌, ◌-◌, ◌^◌, List, [], ◌∷◌, ◌++◌, Bool, true, false, not, ◌&&◌, ◌||◌, ltb, leb, ◌==◌,
  if◌then◌else◌, get_or, get_elem?, set, length, replicate, Option, none, some,
}
use cuda_edge_elimination.Base.Int.{ℤ, pos, negsuc, eqb_ℤ}
use cuda_edge_elimination.Base.Outcome.{Outcome, ok, err, Error, throw_if, ◌>>=◌, ◌>>◌}
use cuda_edge_elimination.Types.{ProofRecord}
use cuda_edge_elimination.Graph.{GraphSnapshot}
use cuda_edge_elimination.Jv.{is_jv}

pub data Backend : Type 0 where
  auto cpu cuda : Backend

pub record EpochMetrics : Type 0 where
  pub epoch : ℕ
  pub edges_before : ℕ
  pub proposed : ℕ
  pub verified : ℕ
  pub rejected : ℕ
  pub committed : ℕ

pub record EliminationResult (HtProof : Type 0) : Type 0 where
  pub backend : String
  pub initial_hash : ℕ
  pub final_hash : ℕ
  pub proof : List ProofRecord
  pub ht_proofs : List HtProof
  pub epochs : List EpochMetrics

-- kNoEliminationCertificate
abbrev pub no_certificate : ℕ
no_certificate = 2 ^ 32 - 1

abbrev pub max_elimination_records : ℕ
max_elimination_records = 1000000

abbrev pub max_epoch_metrics : ℕ
max_epoch_metrics = 1000000

abbrev pub max_embedded_ht_proofs : ℕ
max_embedded_ht_proofs = 1000000

-- The Hamilton-Tutte certificates as this component sees them: the fields that bind one to a record,
-- and their verifier (src/cpu/hamilton_tutte_recursive.cpp), of whose answers nothing is assumed.
pub record HtVerifier : Type 1 where
  pub HtProof : Type 0
  pub proven : HtProof → Bool
  pub snapshot_hash : HtProof → ℕ
  pub target_u : HtProof → ℤ
  pub target_v : HtProof → ℤ
  pub verify : GraphSnapshot → HtProof → Outcome Bool
  -- The bytes of the serialized certificate.
  pub serialize : HtProof → Outcome (List ℕ)

module _ (H : HtVerifier) where
  open H use {HtProof, proven, snapshot_hash, target_u, target_v}

  -- `!proof.proven || …`: whether a certificate is bound to the record.
  bound_to : ProofRecord → HtProof → Bool
  bound_to record' proof =
      proven proof
      && (snapshot_hash proof == record'.snapshot_hash
          && (eqb_ℤ (target_u proof) record'.u && eqb_ℤ (target_v proof) record'.v))

  -- The loop of ValidateProofContainer for one record; `referenced` holds the flags.
  validate_record : List HtProof → List Bool → ProofRecord → Outcome (List Bool)
  unfolding bound_to
  validate_record proofs referenced r =
      if is_jv r.method
      then (throw_if (not (r.certificate_index == no_certificate)) Error.runtime_error >>= λ _.
          ok referenced)
      else elim (get_elem? proofs r.certificate_index) [
        | none ↦ err Error.runtime_error
        | some proof ↦ do
          throw_if (not (eqb_ℤ r.witness (negsuc 0)) || get_or referenced r.certificate_index false)
              Error.runtime_error
          throw_if (not (bound_to r proof)) Error.runtime_error
          ok (set referenced r.certificate_index true)
      ]

  validate_records : List HtProof → List Bool → List ProofRecord → Outcome (List Bool)
  unfolding validate_record
  validate_records proofs referenced [] = ok referenced
  validate_records proofs referenced (r ∷ rs) = do
    referenced' ← validate_record proofs referenced r
    validate_records proofs referenced' rs

  all_referenced : List Bool → Bool
  all_referenced [] = true
  all_referenced (b ∷ bs) = b && all_referenced bs

  unfoldable pub validate_proof_container : EliminationResult HtProof → Outcome (Unit {0})
  unfolding validate_records all_referenced
  validate_proof_container result = do
    throw_if
        ((ltb max_elimination_records (length result.proof)
            || ltb max_epoch_metrics (length result.epochs))
          || ltb max_embedded_ht_proofs (length result.ht_proofs))
        Error.runtime_error
    referenced ←
        validate_records result.ht_proofs (replicate (length result.ht_proofs) false) result.proof
    throw_if (not (all_referenced referenced)) Error.runtime_error
