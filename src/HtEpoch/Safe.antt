-- ===== src/HtEpoch/Safe.antt =====
-- CommitHtProofEpoch (src/cpu/ht_epoch.cpp) and the tours of the active graph.
use Prim.Axiom.{lem}
use mathlib.Core.Logic.{∥∥₁_prop}
use cuda_edge_elimination.Base.{
  ℕ, suc, ◌+◌, ◌≡◌, refl, sym, inl, inr, List, [], ◌∷◌, true, false, arith, Bool-cases,
  Option-cases, subst, ◌==◌, ◌&&◌, some, get_elem?, All, Mem, ◌⊎◌,
}
use cuda_edge_elimination.Base.Int.{ℤ, pos, eqb_ℤ, eqb_ℤ→eq}
use cuda_edge_elimination.Base.Outcome.{ok, Outcome-cases}
use cuda_edge_elimination.Types.{Edge}
use cuda_edge_elimination.Distance.{FloatOps}
use cuda_edge_elimination.Graph.{GraphSnapshot}
use cuda_edge_elimination.Graph.Hash.{content_hash}
use cuda_edge_elimination.Tours.{Uses}
use cuda_edge_elimination.Commit.{commit_verified_candidates}
use cuda_edge_elimination.Commit.Edges.{Every}
use cuda_edge_elimination.Commit.Preserve.{Spares}
use cuda_edge_elimination.Elimination.{EliminationResult, HtVerifier}
use cuda_edge_elimination.Elimination.Replay.Certified.{Misjudged}
use cuda_edge_elimination.Elimination.Survive.{Keeps, commit-Keeps}
use cuda_edge_elimination.HtEpoch.{
  find_edge_id, VerifiedHtCandidate, verify_one, verify_all, verified_less, insert_verified,
  sort_verified, unique_verified_after, unique_verified, ht_candidate, ht_candidates, publish,
  ht_epoch_working, commit_ht_proof_epoch,
}

-- The edge under the id that the map gives has the ends that were looked up.
pub find_edge_id_lem :
    (from : ℕ) (es : List Edge) (u v : ℤ) (id : ℕ)
    → find_edge_id from es u v ≡ some id
    → (k : ℕ) × (e : Edge) × (id ≡ from + k)
      × (get_elem? es k ≡ some e)
      × (pos e.u ≡ u)
      × (pos e.v ≡ v)
unfolding find_edge_id
find_edge_id_lem from [] u v id h = absurd (ground arith)
find_edge_id_lem from (e ∷ es) u v id h =
    elim (Bool-cases (eqb_ℤ (pos e.u) u && eqb_ℤ (pos e.v) v)) [
      | inl here ↦
          let hu : eqb_ℤ (pos e.u) u ≡ true = ground arith in
          let hv : eqb_ℤ (pos e.v) v ≡ true = ground arith in
          let same : id ≡ from = ground arith in
          (0, e, omega arith, refl, eqb_ℤ→eq (pos e.u) u hu, eqb_ℤ→eq (pos e.v) v hv)
      | inr later ↦
          let (k, e', same, at, hu, hv) = find_edge_id_lem (suc from) es u v id (ground arith) in
          (suc k, e', omega arith, at, hu, hv)
    ]

module _ (H : HtVerifier) (P : VerifiedHtCandidate H → Type 0) where
  All-insert_verified :
      (es : List Edge) (a : VerifiedHtCandidate H) (cs : List (VerifiedHtCandidate H))
      → P a
      → All P cs
      → All P (insert_verified H es a cs)
  unfolding insert_verified
  All-insert_verified es a [] p h = (p, h)
  All-insert_verified es a (b ∷ cs) p (q, h) = elim (Bool-cases (verified_less H es b a)) [
    | inl less ↦ rw less (q, All-insert_verified es a cs p h)
    | inr more ↦ rw more (p, (q, h))
  ]

  pub All-sort_verified :
      (es : List Edge) (cs : List (VerifiedHtCandidate H))
      → All P cs
      → All P (sort_verified H es cs)
  unfolding sort_verified
  All-sort_verified es [] h = h
  All-sort_verified es (c ∷ cs) (p, h) =
      All-insert_verified es c (sort_verified H es cs) p (All-sort_verified es cs h)

  All-unique_verified_after :
      (last : VerifiedHtCandidate H) (cs : List (VerifiedHtCandidate H))
      → All P cs
      → All P (unique_verified_after H last cs)
  unfolding unique_verified_after
  All-unique_verified_after last [] h = h
  All-unique_verified_after last (c ∷ cs) (p, h) = elim (Bool-cases (last.edge_id == c.edge_id)) [
    | inl same ↦ rw same (All-unique_verified_after last cs h)
    | inr other ↦ rw other (p, All-unique_verified_after c cs h)
  ]

  pub All-unique_verified :
      (cs : List (VerifiedHtCandidate H)) → All P cs → All P (unique_verified H cs)
  unfolding unique_verified
  All-unique_verified [] h = h
  All-unique_verified (c ∷ cs) (p, h) = (p, All-unique_verified_after c cs h)

-- One of the certificates is misjudged on the snapshot.
abbrev pub OneMisjudged : (H : HtVerifier) → List ℕ → GraphSnapshot → List H.HtProof → Type 0
OneMisjudged H t g proofs = (p : H.HtProof) × Mem p proofs × Misjudged H t g p

module _ (fp : FloatOps) (H : HtVerifier) (t : List ℕ) (g : GraphSnapshot) where
  abbrev Vouched : VerifiedHtCandidate H → Type 0
  Vouched c = Spares g.edges t (ht_candidate H c.edge_id)

  verify_one-Vouched :
      (p : H.HtProof) (c : VerifiedHtCandidate H)
      → ¬ Misjudged H t g p
      → verify_one H g p ≡ ok c
      → Vouched c
  unfolding verify_one
  verify_one-Vouched p c ht h = elim (Outcome-cases (H.verify g p)) [
    | inr (e, bad) ↦ absurd (ground arith)
    | inl (false, bad) ↦ absurd (ground arith)
    | inl (true, fine) ↦
        elim (Option-cases (find_edge_id 0 g.edges (H.target_u p) (H.target_v p))) [
          | inl missing ↦ absurd (ground arith)
          | inr (id, found) ↦ elim (Outcome-cases (H.serialize p)) [
            | inr (e, bad) ↦ absurd (ground arith)
            | inl (bytes, written) ↦
                let (k', e, same, at, hu, hv) =
                  find_edge_id_lem 0 g.edges (H.target_u p) (H.target_v p) id found in
                let id_eq : id ≡ c.edge_id = ground arith in
                let index : c.edge_id ≡ k' = omega arith in
                λ e' at'.
                  let at'' : get_elem? g.edges k' ≡ some e' =
                    subst (λ i. get_elem? g.edges i ≡ some e') index at' in
                  let equal : e ≡ e' = cc in
                  subst (λ x. ¬ Uses t x.u x.v) equal (λ used. ht (fine, (e, hu, hv, used)))
          ]
        ]
  ]

  verify_all-Vouched :
      (ps : List H.HtProof) (cs : List (VerifiedHtCandidate H))
      → ¬ OneMisjudged H t g ps
      → verify_all H g ps ≡ ok cs
      → All Vouched cs
  unfolding verify_all
  verify_all-Vouched [] cs ht h = let same : [] ≡ cs = cc in subst (All Vouched) same tt
  verify_all-Vouched (p ∷ ps) cs ht h = elim (Outcome-cases (verify_one H g p)) [
    | inr (e, bad) ↦ absurd (ground arith)
    | inl (c, now) ↦ elim (Outcome-cases (verify_all H g ps)) [
      | inr (e, bad) ↦ absurd (ground arith)
      | inl (cs', later) ↦
          let same : c ∷ cs' ≡ cs = ground arith in
          subst (All Vouched) same (
            verify_one-Vouched p c (λ bad. ht (p, inl refl, bad)) now,
            verify_all-Vouched ps cs' (λ (q, given, bad). ht (q, inr given, bad)) later,
          )
    ]
  ]

  ht_candidates-Every :
      (cs : List (VerifiedHtCandidate H))
      → All Vouched cs
      → Every (Spares g.edges t) (ht_candidates H cs)
  unfolding ht_candidates
  ht_candidates-Every [] h = tt
  ht_candidates-Every (c ∷ cs) (p, h) = (p, ht_candidates-Every cs h)

  ht_epoch_working-Keeps :
      (proofs : List H.HtProof) (out : GraphSnapshot × EliminationResult H.HtProof)
      → ¬ OneMisjudged H t g proofs
      → Keeps fp t g
      → ht_epoch_working H g proofs ≡ ok out
      → Keeps fp t out.0
  unfolding ht_epoch_working
  ht_epoch_working-Keeps proofs out ht k h = elim (Outcome-cases (verify_all H g proofs)) [
    | inr (e, bad) ↦ absurd (ground arith)
    | inl (verified, all) ↦
        let selected = unique_verified H (sort_verified H g.edges verified) in
        elim (Outcome-cases
          (commit_verified_candidates g (ht_candidates H selected) (content_hash g))) [
            | inr (e, bad) ↦ absurd (ground arith)
            | inl ((updated, committed), done) ↦
                elim (Outcome-cases
                  (publish H (content_hash g) updated.edges selected 0 committed)) [
                    | inr (e, bad) ↦ absurd (ground arith)
                    | inl (published, _) ↦
                        let same : updated ≡ out.0 = ground arith in
                        let vouched = verify_all-Vouched proofs verified ht all in
                        let spared = ht_candidates-Every selected (
                          All-unique_verified H Vouched (sort_verified H g.edges verified)
                            (All-sort_verified H Vouched g.edges verified vouched)) in
                        subst (Keeps fp t) same (
                          commit-Keeps fp t g (ht_candidates H selected) (content_hash g) updated
                            committed done spared k)
                  ]
          ]
  ]

pub commit_ht_proof_epoch-kept :
    (fp : FloatOps) (H : HtVerifier) (g : GraphSnapshot) (proofs : List H.HtProof) (t : List ℕ)
    → ¬ OneMisjudged H t g proofs
    → Keeps fp t g
    → Keeps fp t (commit_ht_proof_epoch H g proofs).0
unfolding commit_ht_proof_epoch
commit_ht_proof_epoch-kept fp H g proofs t ht k =
    elim (Outcome-cases (ht_epoch_working H g proofs)) [
      | inr (x, bad) ↦
          let stay : (commit_ht_proof_epoch H g proofs).0 ≡ g = ground arith in
          subst (Keeps fp t) (sym stay) k
      | inl (out, done) ↦
          let moved : (commit_ht_proof_epoch H g proofs).0 ≡ out.0 = ground arith in
          subst (Keeps fp t) (sym moved) (ht_epoch_working-Keeps fp H t g proofs out ht k done)
    ]

-- CommitHtProofEpoch loses a tour only by a certificate that its verifier misjudges. Take a
-- consistent snapshot whose distances are those of its metric, and a tour t along the active edges
-- that is optimal among all tours of the vertices. Whatever certificates are handed in, and whether
-- the call returns or throws, either the snapshot that the caller is left with is consistent and still
-- has every edge of t active, or one of the certificates handed in targets an edge of t and is
-- accepted by the verifier on the snapshot.
pub commit_ht_proof_epoch-Keeps :
    (fp : FloatOps) (H : HtVerifier) (g : GraphSnapshot) (proofs : List H.HtProof) (t : List ℕ)
    → Keeps fp t g
    → Keeps fp t (commit_ht_proof_epoch H g proofs).0 ⊎ ∥ OneMisjudged H t g proofs ∥₁
commit_ht_proof_epoch-Keeps fp H g proofs t k = elim (lem ∥ OneMisjudged H t g proofs ∥₁ ∥∥₁_prop) [
  | yes blamed ↦ inr blamed
  | no clear ↦ inl (commit_ht_proof_epoch-kept fp H g proofs t (λ bad. clear ∣ bad ∣₁) k)
]

-- The result of an epoch names the content hash of the snapshot that is left.
pub commit_ht_proof_epoch-final_hash :
    (H : HtVerifier) (g : GraphSnapshot) (proofs : List H.HtProof)
    (result : EliminationResult H.HtProof)
    → (commit_ht_proof_epoch H g proofs).1 ≡ ok result
    → result.final_hash ≡ content_hash (commit_ht_proof_epoch H g proofs).0
unfolding commit_ht_proof_epoch ht_epoch_working
commit_ht_proof_epoch-final_hash H g proofs result h =
    elim (Outcome-cases (verify_all H g proofs)) [
      | inr (x, bad) ↦ absurd (ground arith)
      | inl (verified, checked) ↦
          let selected = unique_verified H (sort_verified H g.edges verified) in
          elim (Outcome-cases
            (commit_verified_candidates g (ht_candidates H selected) (content_hash g))) [
              | inr (x, bad) ↦ absurd (ground arith)
              | inl ((updated, committed), went) ↦
                  elim (Outcome-cases
                    (publish H (content_hash g) updated.edges selected 0 committed)) [
                      | inr (x, bad) ↦ absurd (ground arith)
                      | inl ((records, certificates), told) ↦ ground arith
                    ]
            ]
    ]
