-- ===== src/Elimination/Replay/Certified.antt =====
-- ReplayProof (src/cpu/jv_elimination.cpp) and the tours of the active graph.
use Prim.Axiom.{lem}
use mathlib.Core.Logic.{∥∥₁_prop}
use cuda_edge_elimination.Base.{
  ℕ, zero, suc, ◌≡◌, sym, ◌∙◌, inl, inr, List, [], ◌∷◌, true, false, arith, Bool-cases,
  Option-cases, length, subst, ◌==◌, some, ap, Mem, get_elem?, ◌⊎◌,
}
use cuda_edge_elimination.Base.Int.{pos, eqb_ℤ, eqb_ℤ→eq}
use cuda_edge_elimination.Base.Outcome.{ok, Outcome-cases}
use cuda_edge_elimination.Types.{Candidate, Edge, ProofRecord}
use cuda_edge_elimination.Distance.{FloatOps}
use cuda_edge_elimination.Distance.Rounding.{FloatLaws}
use cuda_edge_elimination.Graph.{GraphSnapshot}
use cuda_edge_elimination.Graph.Hash.{content_hash}
use cuda_edge_elimination.Tours.{Uses}
use cuda_edge_elimination.Jv.{edge_at, is_jv}
use cuda_edge_elimination.Commit.{commit_verified_candidates}
use cuda_edge_elimination.Commit.Edges.{Every}
use cuda_edge_elimination.Commit.Preserve.{Spares}
use cuda_edge_elimination.Elimination.{EliminationResult, HtVerifier, validate_proof_container}
use cuda_edge_elimination.Elimination.Replay.{
  candidate_of, verify_record, check_record, gather, settle, replay_epoch, replay_epochs,
  replay_working, replay_proof, replay_start,
}
use cuda_edge_elimination.Elimination.Survive.{Keeps, commit-Keeps, Verified-Spares}
use cuda_edge_elimination.Elimination.Replay.Container.{
  Bound, AllBound, validate_proof_container-AllBound,
}

-- The verifier accepts the certificate on the snapshot, and yet the tour passes along its target edge.
abbrev pub Misjudged : (H : HtVerifier) → List ℕ → GraphSnapshot → H.HtProof → Type 0
Misjudged H t g p =
    (H.verify g p ≡ ok true)
    × ((e : Edge) × (pos e.u ≡ H.target_u p) × (pos e.v ≡ H.target_v p) × Uses t e.u e.v)

-- One of the certificates is misjudged on a snapshot that keeps the tour.
abbrev pub SomeMisjudged : FloatOps → (H : HtVerifier) → List ℕ → List H.HtProof → Type 0
SomeMisjudged fp H t proofs =
    (g : GraphSnapshot) × (p : H.HtProof) × Mem p proofs × Keeps fp t g × Misjudged H t g p

-- None of them is.
abbrev NoneMisjudged : FloatOps → (H : HtVerifier) → List ℕ → List H.HtProof → Type 0
NoneMisjudged fp H t proofs =
    (g : GraphSnapshot) (p : H.HtProof) → Mem p proofs → Keeps fp t g → ¬ Misjudged H t g p

Mem-get_elem? : {P : Type 0} (ps : List P) (i : ℕ) (p : P) → get_elem? ps i ≡ some p → Mem p ps
Mem-get_elem? [] i p h = absurd (ground arith)
Mem-get_elem? (q ∷ ps) zero p h = let same : p ≡ q = cc in inl same
Mem-get_elem? (q ∷ ps) (suc i) p h = inr (Mem-get_elem? ps i p h)

module _ (fp : FloatOps) (H : HtVerifier) (laws : FloatLaws fp) (t : List ℕ)
    (proofs : List H.HtProof) (ht : NoneMisjudged fp H t proofs) (g : GraphSnapshot) where
  verify_record-Spares :
      (r : ProofRecord) (e : Edge)
      → Keeps fp t g
      → edge_at g.edges r.edge_id ≡ some e
      → pos e.u ≡ r.u
      → pos e.v ≡ r.v
      → Bound H proofs r
      → verify_record fp H g proofs r ≡ ok true
      → Spares g.edges t (candidate_of r)
  unfolding verify_record
  verify_record-Spares r e k at u v b h = elim (Bool-cases (is_jv r.method)) [
    | inl plain ↦ Verified-Spares fp t g laws k (candidate_of r) (ground arith)
    | inr other ↦ elim b [
      | inl plain ↦ absurd (ground arith)
      | inr (p, found, u', v') ↦ λ e' at'.
          let same : e ≡ e' = cc in
          let given = Mem-get_elem? proofs r.certificate_index p found in
          subst (λ x. ¬ Uses t x.u x.v) same
            (λ used. ht g p given k (ground arith, (e, u ∙ u', v ∙ v', used)))
    ]
  ]

  check_record-Spares :
      (hash : ℕ) (r : ProofRecord) (c : Candidate)
      → Keeps fp t g
      → Bound H proofs r
      → check_record fp H g hash proofs r ≡ ok c
      → Spares g.edges t c
  unfolding check_record
  check_record-Spares hash r c k b h = elim (Option-cases (edge_at g.edges r.edge_id)) [
    | inl nothing ↦ absurd (ground arith)
    | inr (e, at) ↦ elim (Outcome-cases (verify_record fp H g proofs r)) [
      | inr (x, bad) ↦ absurd (ground arith)
      | inl (false, wrong) ↦ absurd (ground arith)
      | inl (true, fine) ↦
          let u : eqb_ℤ (pos e.u) r.u ≡ true = ground arith in
          let v : eqb_ℤ (pos e.v) r.v ≡ true = ground arith in
          let same : candidate_of r ≡ c = ground arith in
          subst (Spares g.edges t) same (
            verify_record-Spares r e k at (eqb_ℤ→eq (pos e.u) r.u u) (eqb_ℤ→eq (pos e.v) r.v v) b
              fine)
    ]
  ]

  abbrev Gathered : List Candidate × List ProofRecord × List ProofRecord → Type 0
  Gathered (cs, block, rest) = Every (Spares g.edges t) cs × AllBound H proofs rest

  gather-Gathered :
      (hash epoch : ℕ) (rs : List ProofRecord)
      (out : List Candidate × List ProofRecord × List ProofRecord)
      → Keeps fp t g
      → AllBound H proofs rs
      → gather fp H g hash proofs epoch rs ≡ ok out
      → Gathered out
  unfolding gather
  gather-Gathered hash epoch [] out k b h =
      let same : ([], [], []) ≡ out = cc in subst Gathered same (tt, tt)
  gather-Gathered hash epoch (r ∷ rs) out k b h = elim (Bool-cases (r.epoch == epoch)) [
    | inr stop ↦ let same : ([], [], r ∷ rs) ≡ out = ground arith in subst Gathered same (tt, b)
    | inl more ↦ elim (Outcome-cases (check_record fp H g hash proofs r)) [
      | inr (x, bad) ↦ absurd (ground arith)
      | inl (c, fine) ↦ elim (Outcome-cases (gather fp H g hash proofs epoch rs)) [
        | inr (x, bad) ↦ absurd (ground arith)
        | inl ((cs, block, rest), later) ↦
            let (every, bound) = gather-Gathered hash epoch rs (cs, block, rest) k b.1 later in
            let same : (c ∷ cs, r ∷ block, rest) ≡ out = ground arith in
            subst Gathered same ((check_record-Spares hash r c k b.0 fine, every), bound)
      ]
    ]
  ]

module _ (fp : FloatOps) (H : HtVerifier) (laws : FloatLaws fp) (t : List ℕ)
    (proofs : List H.HtProof) (ht : NoneMisjudged fp H t proofs) where
  -- What one epoch of the replay hands to the next.
  abbrev Carries : GraphSnapshot × List ProofRecord × EliminationResult H.HtProof → Type 0
  Carries (g, rest, result) = Keeps fp t g × AllBound H proofs rest

  replay_epoch-Carries :
      (g : GraphSnapshot) (epoch : ℕ) (rs : List ProofRecord) (result : EliminationResult H.HtProof)
      (out : GraphSnapshot × List ProofRecord × EliminationResult H.HtProof)
      → Keeps fp t g
      → AllBound H proofs rs
      → replay_epoch fp H g proofs epoch rs result ≡ ok out
      → Carries out
  unfolding replay_epoch
  replay_epoch-Carries g epoch rs result out k b h =
      elim (Outcome-cases (gather fp H g (content_hash g) proofs epoch rs)) [
        | inr (x, bad) ↦ absurd (ground arith)
        | inl ((cs, block, rest), gathered) ↦
            elim (Outcome-cases (commit_verified_candidates g cs (content_hash g))) [
              | inr (x, bad) ↦ absurd (ground arith)
              | inl ((g', committed), done) ↦
                  elim (Outcome-cases
                    (settle fp H g' epoch (content_hash g) proofs committed block result)) [
                      | inr (x, bad) ↦ absurd (ground arith)
                      | inl (result', settled) ↦
                          let (every, bound) =
                            gather-Gathered fp H laws t proofs ht g (content_hash g) epoch rs
                              (cs, block, rest) k b gathered in
                          let same : (g', rest, result') ≡ out = ground arith in
                          subst (Carries) same (
                            commit-Keeps fp t g cs (content_hash g) g' committed done every k,
                            bound,
                          )
                    ]
            ]
      ]

  replay_epochs-Keeps :
      (fuel : ℕ) (g : GraphSnapshot) (epoch : ℕ) (rs : List ProofRecord)
      (result : EliminationResult H.HtProof) (out : GraphSnapshot × EliminationResult H.HtProof)
      → Keeps fp t g
      → AllBound H proofs rs
      → replay_epochs fp H fuel g proofs epoch rs result ≡ some (ok out)
      → Keeps fp t out.0
  unfolding replay_epochs
  replay_epochs-Keeps fuel g epoch [] result out k b h =
      let same : g ≡ out.0 = ground arith in subst (Keeps fp t) same k
  replay_epochs-Keeps zero g epoch (r ∷ rs) result out k b h = absurd (ground arith)
  replay_epochs-Keeps (suc fuel) g epoch (r ∷ rs) result out k b h =
      elim (Outcome-cases (replay_epoch fp H g proofs epoch (r ∷ rs) result)) [
        | inr (x, bad) ↦ absurd (ground arith)
        | inl ((g', rest, result'), done) ↦
            let (k', b') =
              replay_epoch-Carries g epoch (r ∷ rs) result (g', rest, result') k b done in
            replay_epochs-Keeps fuel g' (suc epoch) rest result' out k' b' (ground arith)
      ]

module _ (fp : FloatOps) (H : HtVerifier) (laws : FloatLaws fp) (t : List ℕ) where
  replay_working-Keeps :
      (g : GraphSnapshot) (expected : EliminationResult H.HtProof)
      (out : GraphSnapshot × EliminationResult H.HtProof)
      → NoneMisjudged fp H t expected.ht_proofs
      → Keeps fp t g
      → replay_working fp H g expected ≡ ok out
      → Keeps fp t out.0
  unfolding replay_working
  replay_working-Keeps g expected out ht k h =
      let start = replay_start fp H g in
      elim (Outcome-cases (validate_proof_container H expected)) [
        | inr (x, bad) ↦ absurd (ground arith)
        | inl (tt, valid) ↦
            let bound = validate_proof_container-AllBound H expected valid in
            elim (Option-cases (
              replay_epochs fp H (length expected.proof) g expected.ht_proofs 0 expected.proof
                start)) [
                  | inl cut ↦ absurd (ground arith)
                  | inr (ended, ran) ↦ elim (Outcome-cases ended) [
                    | inr (x, bad) ↦ absurd (ground arith)
                    | inl ((g', replayed), good) ↦
                        let same : g' ≡ out.0 = ground arith in
                        subst (Keeps fp t) same (
                          replay_epochs-Keeps fp H laws t expected.ht_proofs ht
                            (length expected.proof) g 0 expected.proof start (g', replayed) k bound
                            (ran ∙ ap (λ x. some x) good))
                  ]
                ]
      ]

  replay_proof-kept :
      (g : GraphSnapshot) (expected : EliminationResult H.HtProof)
      → NoneMisjudged fp H t expected.ht_proofs
      → Keeps fp t g
      → Keeps fp t (replay_proof fp H g expected).0
  unfolding replay_proof
  replay_proof-kept g expected ht k = elim (Outcome-cases (replay_working fp H g expected)) [
    | inr (x, bad) ↦
        let stay : (replay_proof fp H g expected).0 ≡ g = ground arith in
        subst (Keeps fp t) (sym stay) k
    | inl (out, done) ↦
        let moved : (replay_proof fp H g expected).0 ≡ out.0 = ground arith in
        subst (Keeps fp t) (sym moved) (replay_working-Keeps g expected out ht k done)
  ]

-- ReplayProof loses a tour only by a certificate that its verifier misjudges. Take a consistent
-- snapshot whose distances are those of its metric, a tour t along the active edges that is optimal
-- among all tours of the vertices, and operations on doubles that satisfy FloatLaws. Whatever the
-- proof to be replayed contains, and whether the replay returns or throws, either the snapshot that
-- the caller is left with is consistent and still has every edge of t active, or one of the
-- certificates of that proof targets an edge of t and was accepted by the verifier on a snapshot that
-- has t along its active edges.
pub replay_proof-Keeps :
    (fp : FloatOps) (H : HtVerifier) (g : GraphSnapshot) (expected : EliminationResult H.HtProof)
    (t : List ℕ)
    → FloatLaws fp
    → Keeps fp t g
    → Keeps fp t (replay_proof fp H g expected).0 ⊎ ∥ SomeMisjudged fp H t expected.ht_proofs ∥₁
replay_proof-Keeps fp H g expected t laws k =
    elim (lem ∥ SomeMisjudged fp H t expected.ht_proofs ∥₁ ∥∥₁_prop) [
      | yes blamed ↦ inr blamed
      | no clear ↦ inl (
          replay_proof-kept fp H laws t g expected
            (λ g' p given k' bad. clear ∣ (g', p, given, k', bad) ∣₁) k)
    ]
