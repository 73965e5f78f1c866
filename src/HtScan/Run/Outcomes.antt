-- ===== src/HtScan/Run/Outcomes.antt =====
-- What a scan epoch (src/cpu/ht_scan.cpp) returns: its offset, its hash, and the graph it leaves.
use cuda_edge_elimination.Base.{
  ℕ, ◌≡◌, sym, ap, ◌∙◌, inl, inr, List, [], ◌∷◌, arith, subst, All, Mem,
}
use cuda_edge_elimination.Base.Outcome.{ok, Outcome-cases}
use cuda_edge_elimination.Distance.{FloatOps}
use cuda_edge_elimination.Graph.{GraphSnapshot}
use cuda_edge_elimination.Graph.Hash.{content_hash}
use cuda_edge_elimination.Elimination.{HtVerifier}
use cuda_edge_elimination.Elimination.Replay.Certified.{Misjudged}
use cuda_edge_elimination.Elimination.Survive.{Keeps}
use cuda_edge_elimination.HtEpoch.{commit_ht_proof_epoch}
use cuda_edge_elimination.HtEpoch.Safe.{
  commit_ht_proof_epoch-kept, commit_ht_proof_epoch-final_hash,
}
use cuda_edge_elimination.HtScan.{Search, HtScanOptions, HtScanResult}
use cuda_edge_elimination.HtScan.Run.{scan_targets, run_ht_scan_epoch, set_backend}
use cuda_edge_elimination.HtScan.Run.Counts.{Proposed, scan_targets-Proposed}

All-Mem : {A : Type 0} (P : A → Type 0) (xs : List A) (x : A) → All P xs → Mem x xs → P x
All-Mem P [] x h m = absurd m
All-Mem P (y ∷ xs) x (p, h) (inl same) = subst P (sym same) p
All-Mem P (y ∷ xs) x (p, h) (inr m) = All-Mem P xs x h m

pub run_ht_scan_epoch-kept :
    (fp : FloatOps) (H : HtVerifier) (prover : Search H.HtProof) (g : GraphSnapshot)
    (options : HtScanOptions) (t : List ℕ)
    → ((p : H.HtProof) → Proposed prover g p → ¬ Misjudged H t g p)
    → Keeps fp t g
    → Keeps fp t (run_ht_scan_epoch H prover g options).0
unfolding run_ht_scan_epoch
run_ht_scan_epoch-kept fp H prover g options t ht k =
    elim (Outcome-cases (scan_targets H prover g options)) [
      | inr (x, bad) ↦
          let stay : (run_ht_scan_epoch H prover g options).0 ≡ g = ground arith in
          subst (Keeps fp t) (sym stay) k
      | inl ((eligible, count, gathered), ran) ↦
          let moved : (run_ht_scan_epoch H prover g options).0
              ≡ (commit_ht_proof_epoch H g gathered.proofs).0 =
            ground arith in
          subst (Keeps fp t) (sym moved) (
            commit_ht_proof_epoch-kept fp H g gathered.proofs t
              (λ (p, given, bad).
                ht p
                  (All-Mem (Proposed prover g) gathered.proofs p
                    (scan_targets-Proposed H prover g options (eligible, count, gathered) ran)
                    given)
                  bad)
              k)
    ]

-- The result of a scan names the offset it was asked for.
pub run_ht_scan_epoch-target_offset :
    (H : HtVerifier) (prover : Search H.HtProof) (g : GraphSnapshot) (options : HtScanOptions)
    (scan : HtScanResult H.HtProof)
    → (run_ht_scan_epoch H prover g options).1 ≡ ok scan
    → scan.target_offset ≡ options.target_offset
unfolding run_ht_scan_epoch
run_ht_scan_epoch-target_offset H prover g options scan h =
    elim (Outcome-cases (scan_targets H prover g options)) [
      | inr (x, bad) ↦ absurd (ground arith)
      | inl ((eligible, count, gathered), ran) ↦
          elim (Outcome-cases (commit_ht_proof_epoch H g gathered.proofs).1) [
            | inr (x, bad) ↦ absurd (ground arith)
            | inl (result, committed) ↦ ground arith
          ]
    ]

pub run_ht_scan_epoch-final_hash :
    (H : HtVerifier) (prover : Search H.HtProof) (g : GraphSnapshot) (options : HtScanOptions)
    (scan : HtScanResult H.HtProof)
    → (run_ht_scan_epoch H prover g options).1 ≡ ok scan
    → scan.elimination.final_hash ≡ content_hash (run_ht_scan_epoch H prover g options).0
unfolding run_ht_scan_epoch set_backend
run_ht_scan_epoch-final_hash H prover g options scan h =
    elim (Outcome-cases (scan_targets H prover g options)) [
      | inr (x, bad) ↦ absurd (ground arith)
      | inl ((eligible, count, gathered), ran) ↦
          elim (Outcome-cases (commit_ht_proof_epoch H g gathered.proofs).1) [
            | inr (x, bad) ↦ absurd (ground arith)
            | inl (result, committed) ↦
                let final = commit_ht_proof_epoch-final_hash H g gathered.proofs result committed in
                let left : (run_ht_scan_epoch H prover g options).0
                    ≡ (commit_ht_proof_epoch H g gathered.proofs).0 =
                  ground arith in
                let mine : result.final_hash ≡ scan.elimination.final_hash = ground arith in
                sym mine ∙ final ∙ ap content_hash (sym left)
          ]
    ]
