-- ===== src/Elimination/Replay/Fuel.antt =====
-- The fuel of the outer loop of ReplayProof (src/cpu/jv_elimination.cpp).
use cuda_edge_elimination.Base.{
  ℕ, zero, suc, ◌≤◌, ◌≡◌, refl, ap, inl, inr, List, [], ◌∷◌, true, arith, Bool-cases, length, ◌==◌,
  some,
}
use cuda_edge_elimination.Base.Outcome.{Outcome, ok, err, Error, Outcome-cases}
use cuda_edge_elimination.Types.{Candidate, ProofRecord}
use cuda_edge_elimination.Distance.{FloatOps}
use cuda_edge_elimination.Graph.{GraphSnapshot}
use cuda_edge_elimination.Graph.Hash.{content_hash}
use cuda_edge_elimination.Commit.{commit_verified_candidates}
use cuda_edge_elimination.Elimination.{EliminationResult, HtVerifier}
use cuda_edge_elimination.Elimination.Replay.{
  check_record, gather, settle, replay_epoch, replay_epochs,
}

module _ (fp : FloatOps) (H : HtVerifier) where
  rest_of : List Candidate × List ProofRecord × List ProofRecord → List ProofRecord
  rest_of (cs, block, rest) = rest

  gather_rest :
      (g : GraphSnapshot) (hash : ℕ) (proofs : List H.HtProof) (epoch : ℕ) (rs : List ProofRecord)
      (cs : List Candidate) (block rest : List ProofRecord)
      → gather fp H g hash proofs epoch rs ≡ ok (cs, block, rest)
      → length rest ≤ length rs
  unfolding gather
  gather_rest g hash proofs epoch [] cs block rest h =
      let same : [] ≡ rest = ground arith in let e : 0 ≡ length rest = ap length same in omega arith
  gather_rest g hash proofs epoch (r ∷ rs) cs block rest h = elim (Bool-cases (r.epoch == epoch)) [
    | inr stop ↦
        let same : r ∷ rs ≡ rest = ground arith in
        let e : suc (length rs) ≡ length rest = ap length same in omega arith
    | inl more ↦ elim (Outcome-cases (check_record fp H g hash proofs r)) [
      | inr (x, bad) ↦ absurd (ground arith)
      | inl (c, fine) ↦ elim (Outcome-cases (gather fp H g hash proofs epoch rs)) [
        | inr (x, bad) ↦ absurd (ground arith)
        | inl ((cs', block', rest'), later) ↦
            let same : rest' ≡ rest = ground arith in
            let e : length rest' ≡ length rest = ap length same in
            let below = gather_rest g hash proofs epoch rs cs' block' rest' later in omega arith
      ]
    ]
  ]

  -- An epoch that starts with a record of its own number takes that record.
  replay_epoch_rest :
      (g : GraphSnapshot) (proofs : List H.HtProof) (epoch : ℕ) (r : ProofRecord)
      (rs : List ProofRecord) (result : EliminationResult H.HtProof) (g' : GraphSnapshot)
      (rest : List ProofRecord) (result' : EliminationResult H.HtProof)
      → (r.epoch == epoch) ≡ true
      → replay_epoch fp H g proofs epoch (r ∷ rs) result ≡ ok (g', rest, result')
      → length rest ≤ length rs
  unfolding replay_epoch gather
  replay_epoch_rest g proofs epoch r rs result g' rest result' own h =
      elim (Outcome-cases (check_record fp H g (content_hash g) proofs r)) [
        | inr (x, bad) ↦ absurd (ground arith)
        | inl (c, fine) ↦ elim (Outcome-cases (gather fp H g (content_hash g) proofs epoch rs)) [
          | inr (x, bad) ↦ absurd (ground arith)
          | inl ((cs, block, rest'), later) ↦
              elim (Outcome-cases (commit_verified_candidates g (c ∷ cs) (content_hash g))) [
                | inr (x, bad) ↦ absurd (ground arith)
                | inl ((g'', committed), done) ↦
                    elim (Outcome-cases (
                      settle fp H g'' epoch (content_hash g) proofs committed (r ∷ block) result)) [
                        | inr (x, bad) ↦ absurd (ground arith)
                        | inl (result'', settled) ↦
                            let same : rest' ≡ rest = ground arith in
                            let e : length rest' ≡ length rest = ap length same in
                            let below =
                              gather_rest g (content_hash g) proofs epoch rs cs block rest' later in
                            omega arith
                      ]
              ]
        ]
      ]

  -- The outer loop of ReplayProof ends, by returning or by throwing, with fuel for as many epochs as
  -- there are records, and any two such amounts of fuel give the same outcome.
  pub replay_epochs_fuel :
      (fuel fuel' : ℕ) (g : GraphSnapshot) (proofs : List H.HtProof) (epoch : ℕ)
      (rs : List ProofRecord) (result : EliminationResult H.HtProof)
      → length rs ≤ fuel
      → length rs ≤ fuel'
      → (ended : Outcome (GraphSnapshot × EliminationResult H.HtProof)) × (replay_epochs fp H fuel g
            proofs epoch rs result
          ≡ some ended)
        × (replay_epochs fp H fuel' g proofs epoch rs result ≡ some ended)
  unfolding replay_epochs
  replay_epochs_fuel fuel fuel' g proofs epoch [] result le le' = (ok (g, result), refl, refl)
  replay_epochs_fuel zero fuel' g proofs epoch (r ∷ rs) result le le' = absurd (omega arith)
  replay_epochs_fuel (suc fuel) zero g proofs epoch (r ∷ rs) result le le' = absurd (omega arith)
  replay_epochs_fuel (suc fuel) (suc fuel') g proofs epoch (r ∷ rs) result le le' =
      elim (Bool-cases (r.epoch == epoch)) [
        | inr other ↦ (err Error.runtime_error, ground arith, ground arith)
        | inl own ↦ elim (Outcome-cases (replay_epoch fp H g proofs epoch (r ∷ rs) result)) [
          | inr (x, bad) ↦ (err x, ground arith, ground arith)
          | inl ((g', rest, result'), done) ↦
              let below = replay_epoch_rest g proofs epoch r rs result g' rest result' own done in
              let (ended, one, two) =
                replay_epochs_fuel fuel fuel' g' proofs (suc epoch) rest result' (omega arith)
                  (omega arith) in
              (ended, ground arith, ground arith)
        ]
      ]
