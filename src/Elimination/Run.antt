-- ===== src/Elimination/Run.antt =====
-- RunJvElimination of src/cpu/jv_elimination.cpp: epochs of proposing, verifying and committing until
-- an epoch commits nothing or the rounds are used up.
use cuda_edge_elimination.Base.{
  ℕ, zero, suc, List, [], ◌∷◌, ◌++◌, Bool, true, false, not, ◌&&◌, ◌==◌, if◌then◌else◌, length, map,
}
use cuda_edge_elimination.Base.Int.{pos}
use cuda_edge_elimination.Base.Outcome.{Outcome, ok, err, Error, throw_if, ◌>>=◌, ◌>>◌}
use cuda_edge_elimination.Types.{Candidate, Edge, ProofRecord}
use cuda_edge_elimination.Distance.{FloatOps}
use cuda_edge_elimination.Graph.{GraphSnapshot, active_edge_count}
use cuda_edge_elimination.Graph.Hash.{content_hash}
use cuda_edge_elimination.Jv.{find_jv_candidates_cpu, verify_candidates}
use cuda_edge_elimination.Commit.{commit_verified_candidates, edge_of}
use cuda_edge_elimination.Elimination.{
  Backend, auto, cpu, cuda, EpochMetrics, EliminationResult, no_certificate,
}

-- The CUDA device behind FindJvCandidatesCuda and CudaBackendAvailable: whether there is one, and
-- what it proposes. It is untrusted: nothing is assumed of its answers.
pub record Device : Type 0 where
  pub available : Bool
  pub propose : GraphSnapshot → Outcome (List Candidate)

-- Whether the backend and the graph let the device be used.
unfoldable pub wants_cuda : Device → GraphSnapshot → Backend → Bool
wants_cuda device g cpu = false
wants_cuda device g auto = g.integer_coordinates && (g.integer_distance_safe && device.available)
wants_cuda device g cuda = g.integer_coordinates && (g.integer_distance_safe && device.available)

abbrev pub is_cuda : Backend → Bool
is_cuda cuda = true
is_cuda _ = false

unfoldable pub record_of : ℕ → ℕ → List Edge → Candidate → ProofRecord
record_of epoch hash es c =
    let e = edge_of es c in
    record {
      epoch = epoch;
      snapshot_hash = hash;
      edge_id = c.edge_id;
      u = pos e.u;
      v = pos e.v;
      witness = c.witness;
      method = c.method;
      certificate_index = no_certificate;
    }

pub record Epoch : Type 0 where
  pub graph : GraphSnapshot
  pub records : List ProofRecord
  pub metrics : EpochMetrics

module _ (fp : FloatOps) (device : Device) where
  -- One round of the loop.
  unfoldable pub run_epoch : Bool → GraphSnapshot → ℕ → Outcome Epoch
  unfolding record_of
  run_epoch use_cuda g epoch = do
    let hash = content_hash g
    proposed ← (if use_cuda then device.propose g else find_jv_candidates_cpu fp g)
    (verified, rejected) ← verify_candidates fp g proposed
    throw_if (use_cuda && not (rejected == 0)) Error.runtime_error
    (g', committed) ← commit_verified_candidates g verified hash
    ok (record {
      graph = g';
      records = map (record_of epoch hash g'.edges) committed;
      metrics = record {
        epoch = epoch;
        edges_before = active_edge_count g.edges;
        proposed = length proposed;
        verified = length verified;
        rejected = rejected;
        committed = length committed;
      };
    })

  abbrev pub extend : {P : Type 0} → EliminationResult P → Epoch → EliminationResult P
  extend result e = record result {
    proof = result.proof ++ e.records;
    epochs = result.epochs ++ e.metrics ∷ [];
  }

  -- The loop, with the graph that the caller is left with, also when an epoch throws.
  unfoldable pub run_rounds :
      {P : Type 0}
      → Bool
      → ℕ
      → ℕ
      → GraphSnapshot
      → EliminationResult P
      → GraphSnapshot × Outcome (EliminationResult P)
  unfolding run_epoch
  run_rounds use_cuda zero epoch g result = (g, ok result)
  run_rounds use_cuda (suc rounds) epoch g result = elim (run_epoch use_cuda g epoch) [
    | err e ↦ (g, err e)
    | ok e ↦
        let rest = run_rounds use_cuda rounds (suc epoch) e.graph (extend result e) in
        if e.metrics.committed == 0 then (e.graph, ok (extend result e)) else rest
  ]

  abbrev pub finish :
      {P : Type 0}
      → GraphSnapshot × Outcome (EliminationResult P)
      → GraphSnapshot × Outcome (EliminationResult P)
  finish (g, err e) = (g, err e)
  finish (g, ok result) = (g, ok (record result { final_hash = content_hash g }))

  -- The result before the first round.
  abbrev pub initial : {P : Type 0} → Bool → GraphSnapshot → EliminationResult P
  initial use_cuda g = record {
    backend = if use_cuda then "cuda" else "cpu";
    initial_hash = content_hash g;
    final_hash = 0;
    proof = [];
    ht_proofs = [];
    epochs = [];
  }

  unfoldable pub run_jv_elimination :
      (P : Type 0) → GraphSnapshot → Backend → ℕ → GraphSnapshot × Outcome (EliminationResult P)
  unfolding run_rounds wants_cuda
  run_jv_elimination P g backend max_rounds =
      let use_cuda = wants_cuda device g backend in
      if max_rounds == 0
      then (g, err Error.invalid_argument)
      else if is_cuda backend && not use_cuda
      then (g, err Error.runtime_error)
      else finish (run_rounds use_cuda max_rounds 0 g (initial use_cuda g))
