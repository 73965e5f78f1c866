-- ===== src/Elimination/Replay.antt =====
-- ReplayProof of src/cpu/jv_elimination.cpp: a recorded run is checked record by record on a copy of
-- the graph, committed epoch by epoch, and compared with what the run recorded.
pub mod Container
pub mod Certified
pub mod Fuel
use cuda_edge_elimination.Base.{
  ℕ, zero, suc, ◌+◌, List, [], ◌∷◌, ◌++◌, Bool, true, false, not, ◌&&◌, ◌||◌, ◌==◌, if◌then◌else◌,
  length, get_elem?, none, some, Option,
}
use cuda_edge_elimination.Base.Int.{ℤ, pos, eqb_ℤ}
use cuda_edge_elimination.Base.Outcome.{Outcome, ok, err, Error, throw_if, ◌>>=◌, ◌>>◌}
use cuda_edge_elimination.Types.{Candidate, ProofRecord}
use cuda_edge_elimination.Distance.{FloatOps}
use cuda_edge_elimination.Graph.{GraphSnapshot}
use cuda_edge_elimination.Graph.Hash.{content_hash}
use cuda_edge_elimination.Jv.{edge_at, is_jv, verify_jv_candidate}
use cuda_edge_elimination.Commit.{commit_verified_candidates, edge_of, method_code}
use cuda_edge_elimination.Elimination.{
  EliminationResult, HtVerifier, no_certificate, validate_proof_container,
}
use cuda_edge_elimination.Elimination.Run.{record_of}

abbrev pub candidate_of : ProofRecord → Candidate
candidate_of r = record { edge_id = r.edge_id; witness = r.witness; method = r.method }

abbrev pub same_candidate : Candidate → ProofRecord → Bool
same_candidate c r =
    eqb_ℤ c.edge_id r.edge_id
    && (eqb_ℤ c.witness r.witness && (method_code c.method == method_code r.method))

module _ (fp : FloatOps) (H : HtVerifier) where
  open H use {HtProof, verify}

  -- The verifier that the record's method asks for. ValidateProofContainer has excluded an index
  -- that is out of range.
  pub verify_record : GraphSnapshot → List HtProof → ProofRecord → Outcome Bool
  verify_record g proofs r =
      if is_jv r.method
      then verify_jv_candidate fp g (candidate_of r)
      else elim (get_elem? proofs r.certificate_index) [ none ↦ ok false | some p ↦ verify g p ]

  -- The checks of one record against the snapshot.
  pub check_record : GraphSnapshot → ℕ → List HtProof → ProofRecord → Outcome Candidate
  unfolding verify_record
  check_record g hash proofs r = elim (edge_at g.edges r.edge_id) [
    | none ↦ err Error.runtime_error
    | some e ↦ do
      throw_if (not (r.snapshot_hash == hash)) Error.runtime_error
      throw_if (not (eqb_ℤ (pos e.u) r.u && eqb_ℤ (pos e.v) r.v)) Error.runtime_error
      fine ← verify_record g proofs r
      throw_if (not fine) Error.runtime_error
      ok (candidate_of r)
  ]

  -- The inner loop: the candidates and the records of the epoch, and the records after it.
  pub gather :
      GraphSnapshot
      → ℕ
      → List HtProof
      → ℕ
      → List ProofRecord
      → Outcome (List Candidate × List ProofRecord × List ProofRecord)
  unfolding check_record
  gather g hash proofs epoch [] = ok ([], [], [])
  gather g hash proofs epoch (r ∷ rs) =
      let later = gather g hash proofs epoch rs in
      if r.epoch == epoch
      then (do
        c ← check_record g hash proofs r
        (cs, block, rest) ← later
        ok (c ∷ cs, r ∷ block, rest))
      else ok ([], [], r ∷ rs)

  -- The loop over the committed candidates: the records and the certificates of the replay.
  pub settle :
      GraphSnapshot
      → ℕ
      → ℕ
      → List HtProof
      → List Candidate
      → List ProofRecord
      → EliminationResult HtProof
      → Outcome (EliminationResult HtProof)
  unfolding record_of
  settle g epoch hash proofs [] rs result = ok result
  settle g epoch hash proofs (c ∷ cs) [] result = err Error.runtime_error
  settle g epoch hash proofs (c ∷ cs) (r ∷ rs) result =
      let e = edge_of g.edges c in
      let number = if is_jv c.method then no_certificate else length result.ht_proofs in
      let entry : ProofRecord = record (record_of epoch hash g.edges c) {
        certificate_index = number;
      } in
      let plain =
        settle g epoch hash proofs cs rs (record result { proof = result.proof ++ entry ∷ [] }) in
      if not (same_candidate c r)
      then err Error.runtime_error
      else if is_jv c.method
      then plain
      else if not (r.certificate_index == length result.ht_proofs)
      then err Error.runtime_error
      else elim (get_elem? proofs r.certificate_index) [
        | none ↦ err Error.runtime_error
        | some p ↦ settle g epoch hash proofs cs rs (record result {
          proof = result.proof ++ entry ∷ [];
          ht_proofs = result.ht_proofs ++ p ∷ [];
        })
      ]

  -- The body of the outer loop: the next snapshot, the records that are left, and the replay so far.
  pub replay_epoch :
      GraphSnapshot
      → List HtProof
      → ℕ
      → List ProofRecord
      → EliminationResult HtProof
      → Outcome (GraphSnapshot × List ProofRecord × EliminationResult HtProof)
  unfolding gather settle
  replay_epoch g proofs epoch records result = do
    let hash = content_hash g
    (candidates, block, rest) ← gather g hash proofs epoch records
    (g', committed) ← commit_verified_candidates g candidates hash
    throw_if (not (length committed == length block)) Error.runtime_error
    result' ← settle g' epoch hash proofs committed block result
    ok (g', rest, result')

  -- The outer loop, on fuel: every epoch takes at least one record. `none` is a loop that has not
  -- ended.
  pub replay_epochs :
      ℕ
      → GraphSnapshot
      → List HtProof
      → ℕ
      → List ProofRecord
      → EliminationResult HtProof
      → Option (Outcome (GraphSnapshot × EliminationResult HtProof))
  unfolding replay_epoch
  replay_epochs fuel g proofs expected_epoch [] result = some (ok (g, result))
  replay_epochs zero g proofs expected_epoch (r ∷ rs) result = none
  replay_epochs (suc fuel) g proofs expected_epoch (r ∷ rs) result =
      if not (r.epoch == expected_epoch)
      then some (err Error.runtime_error)
      else elim (replay_epoch g proofs expected_epoch (r ∷ rs) result) [
        | err e ↦ some (err e)
        | ok (g', rest, result') ↦ replay_epochs fuel g' proofs (suc expected_epoch) rest result'
      ]

  -- The outer loop with the fuel that is enough, so that the default is never read.
  abbrev pub replay_all :
      GraphSnapshot
      → List HtProof
      → List ProofRecord
      → EliminationResult HtProof
      → Outcome (GraphSnapshot × EliminationResult HtProof)
  replay_all g proofs rs result = elim (replay_epochs (length rs) g proofs 0 rs result) [
    | none ↦ err Error.logic_error
    | some ended ↦ ended
  ]

  abbrev pub replay_start : GraphSnapshot → EliminationResult HtProof
  replay_start g = record {
    backend = "replay-cpu";
    initial_hash = content_hash g;
    final_hash = 0;
    proof = [];
    ht_proofs = [];
    epochs = [];
  }

  -- What runs on the copy.
  pub replay_working :
      GraphSnapshot
      → EliminationResult HtProof
      → Outcome (GraphSnapshot × EliminationResult HtProof)
  unfolding replay_epochs
  replay_working g expected = do
    throw_if (not (content_hash g == expected.initial_hash)) Error.runtime_error
    validate_proof_container H expected
    (g', replayed) ← replay_all g expected.ht_proofs expected.proof (replay_start g)
    throw_if (not (content_hash g' == expected.final_hash)) Error.runtime_error
    ok (g', record replayed { final_hash = content_hash g' })

  -- The graph that the caller is left with, and the result or the exception.
  unfoldable pub replay_proof :
      GraphSnapshot
      → EliminationResult HtProof
      → GraphSnapshot × Outcome (EliminationResult HtProof)
  unfolding replay_working
  replay_proof g expected = elim (replay_working g expected) [
    | err e ↦ (g, err e)
    | ok (g', replayed) ↦ (g', ok replayed)
  ]
