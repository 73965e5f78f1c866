-- ===== src/HtEpoch.antt =====
-- CommitHtProofEpoch of src/cpu/ht_epoch.cpp: a batch of Hamilton-Tutte certificates is verified on
-- one snapshot, put in canonical order, and committed as one epoch. Times are not kept.
pub mod Safe
use cuda_edge_elimination.Base.{
  ℕ, zero, suc, ◌+◌, ◌-◌, List, [], ◌∷◌, ◌++◌, Bool, true, false, not, ◌&&◌, ◌||◌, ltb, leb, ◌==◌,
  ◌^◌, if◌then◌else◌, length, Option, none, some,
}
use cuda_edge_elimination.Base.Int.{ℤ, pos, negsuc, eqb_ℤ}
use cuda_edge_elimination.Base.Outcome.{Outcome, ok, err, Error, throw_if, ◌>>=◌, ◌>>◌}
use cuda_edge_elimination.Types.{Candidate, Edge, ProofRecord, hamilton_tutte}
use cuda_edge_elimination.Graph.{GraphSnapshot, active_edge_count}
use cuda_edge_elimination.Graph.Hash.{content_hash}
use cuda_edge_elimination.Jv.{edge_at}
use cuda_edge_elimination.Commit.{commit_verified_candidates, edge_of, edge_or}
use cuda_edge_elimination.Elimination.{EpochMetrics, EliminationResult, HtVerifier}

abbrev pub max_ht_epoch_candidates : ℕ
max_ht_epoch_candidates = 1000000

-- The map from ends to edge ids, as a search through the edges from the id `from` on.
pub find_edge_id : ℕ → List Edge → ℤ → ℤ → Option ℕ
find_edge_id from [] u v = none
find_edge_id from (e ∷ es) u v =
    let later = find_edge_id (suc from) es u v in
    if eqb_ℤ (pos e.u) u && eqb_ℤ (pos e.v) v then some from else later

abbrev pub is_found : Option ℕ → Bool
is_found none = false
is_found (some id) = true

-- Whether some emplace into that map fails.
unfoldable pub has_duplicate_edge : List Edge → Bool
unfolding find_edge_id
has_duplicate_edge [] = false
has_duplicate_edge (e ∷ es) =
    is_found (find_edge_id 0 es (pos e.u) (pos e.v)) || has_duplicate_edge es

-- std::string's order: bytes, then length.
pub bytes_less : List ℕ → List ℕ → Bool
bytes_less [] [] = false
bytes_less [] (b ∷ bs) = true
bytes_less (a ∷ xs) [] = false
bytes_less (a ∷ xs) (b ∷ bs) = ltb a b || (a == b && bytes_less xs bs)

module _ (H : HtVerifier) where
  open H use {HtProof, target_u, target_v, verify, serialize}

  pub record VerifiedHtCandidate : Type 0 where
    pub edge_id : ℕ
    pub serialized : List ℕ
    pub proof : HtProof

  -- The loop body for one certificate.
  pub verify_one : GraphSnapshot → HtProof → Outcome VerifiedHtCandidate
  unfolding find_edge_id
  verify_one g p = do
    fine ← verify g p
    throw_if (not fine) Error.runtime_error
    elim (find_edge_id 0 g.edges (target_u p) (target_v p)) [
      | none ↦ err Error.runtime_error
      | some id ↦
          serialize p >>= λ bytes. ok (record { edge_id = id; serialized = bytes; proof = p })
    ]

  unfoldable pub verify_all : GraphSnapshot → List HtProof → Outcome (List VerifiedHtCandidate)
  unfolding verify_one
  verify_all g [] = ok []
  verify_all g (p ∷ ps) = do c ← verify_one g p; cs ← verify_all g ps; ok (c ∷ cs)

  -- (u, v, serialized) in lexicographic order.
  pub verified_less : List Edge → VerifiedHtCandidate → VerifiedHtCandidate → Bool
  unfolding bytes_less
  verified_less es a b =
      let ea = edge_or (edge_at es (pos a.edge_id)) in
      let eb = edge_or (edge_at es (pos b.edge_id)) in
      ltb ea.u eb.u
      || (ea.u == eb.u && (ltb ea.v eb.v || (ea.v == eb.v && bytes_less a.serialized b.serialized)))

  pub insert_verified :
      List Edge → VerifiedHtCandidate → List VerifiedHtCandidate → List VerifiedHtCandidate
  unfolding verified_less
  insert_verified es a [] = a ∷ []
  insert_verified es a (b ∷ bs) =
      if verified_less es b a then b ∷ insert_verified es a bs else a ∷ b ∷ bs

  -- std::sort, as an insertion sort: candidates that compare equal name the same edge and have the
  -- same bytes.
  unfoldable pub sort_verified : List Edge → List VerifiedHtCandidate → List VerifiedHtCandidate
  unfolding insert_verified
  sort_verified es [] = []
  sort_verified es (a ∷ rest) = insert_verified es a (sort_verified es rest)

  -- std::unique by edge id.
  unfoldable pub unique_verified_after :
      VerifiedHtCandidate → List VerifiedHtCandidate → List VerifiedHtCandidate
  unique_verified_after last [] = []
  unique_verified_after last (c ∷ cs) =
      let kept = c ∷ unique_verified_after c cs in
      let dropped = unique_verified_after last cs in
      if last.edge_id == c.edge_id then dropped else kept

  unfoldable pub unique_verified : List VerifiedHtCandidate → List VerifiedHtCandidate
  unfolding unique_verified_after
  unique_verified [] = []
  unique_verified (c ∷ cs) = c ∷ unique_verified_after c cs

  abbrev pub ht_candidate : ℕ → Candidate
  ht_candidate id = record { edge_id = pos id; witness = negsuc 0; method = hamilton_tutte }

  unfoldable pub ht_candidates : List VerifiedHtCandidate → List Candidate
  ht_candidates [] = []
  ht_candidates (c ∷ cs) = ht_candidate c.edge_id ∷ ht_candidates cs

  -- selected_proofs.find(edge_id)
  pub find_proof : List VerifiedHtCandidate → ℤ → Option HtProof
  find_proof [] id = none
  find_proof (c ∷ cs) id =
      let later = find_proof cs id in if eqb_ℤ (pos c.edge_id) id then some c.proof else later

  -- The loop over the committed candidates: the records, numbered on from the proofs so far, and the
  -- certificates.
  unfoldable pub publish :
      ℕ
      → List Edge
      → List VerifiedHtCandidate
      → ℕ
      → List Candidate
      → Outcome (List ProofRecord × List HtProof)
  unfolding find_proof
  publish hash es selected count [] = ok ([], [])
  publish hash es selected count (c ∷ cs) =
      let later = publish hash es selected (suc count) cs in
      let e = edge_of es c in
      elim (find_proof selected c.edge_id) [
        | none ↦ err Error.logic_error
        | some p ↦ do
          throw_if (leb (2 ^ 32 - 1) count) Error.logic_error
          (records, proofs) ← later
          let entry : ProofRecord = record {
            epoch = 0;
            snapshot_hash = hash;
            edge_id = c.edge_id;
            u = pos e.u;
            v = pos e.v;
            witness = negsuc 0;
            method = hamilton_tutte;
            certificate_index = count;
          }
          ok (entry ∷ records, p ∷ proofs)
      ]

  -- What runs on the copy: the new graph and the result, or the exception.
  unfoldable pub ht_epoch_working :
      GraphSnapshot → List HtProof → Outcome (GraphSnapshot × EliminationResult HtProof)
  unfolding has_duplicate_edge verify_all sort_verified unique_verified ht_candidates publish
  ht_epoch_working g proofs = do
    throw_if (ltb max_ht_epoch_candidates (length proofs)) Error.invalid_argument
    let hash = content_hash g
    throw_if (has_duplicate_edge g.edges) Error.runtime_error
    verified ← verify_all g proofs
    let selected = unique_verified (sort_verified g.edges verified)
    (updated, committed) ← commit_verified_candidates g (ht_candidates selected) hash
    (records, certificates) ← publish hash updated.edges selected 0 committed
    ok (
      updated,
      record {
        backend = "ht-sidecar-cpu";
        initial_hash = hash;
        final_hash = content_hash updated;
        proof = records;
        ht_proofs = certificates;
        epochs =
            record {
              epoch = 0;
              edges_before = active_edge_count g.edges;
              proposed = length proofs;
              verified = length verified;
              rejected = 0;
              committed = length committed;
            }
            ∷ [];
      },
    )

  -- The graph that the caller is left with, and the result or the exception.
  unfoldable pub commit_ht_proof_epoch :
      GraphSnapshot → List HtProof → GraphSnapshot × Outcome (EliminationResult HtProof)
  unfolding ht_epoch_working
  commit_ht_proof_epoch g proofs = elim (ht_epoch_working g proofs) [
    | err e ↦ (g, err e)
    | ok (updated, result) ↦ (updated, ok result)
  ]
