-- ===== src/Elimination/Replay/Container.antt =====
-- ValidateProofContainer (src/cpu/jv_elimination.cpp): the records and their certificates.
use cuda_edge_elimination.Base.{
  ◌≡◌, sym, ◌⊎◌, inl, inr, List, [], ◌∷◌, Bool, true, false, arith, Bool-cases, Option-cases,
  length, some, get_elem?, replicate,
}
use cuda_edge_elimination.Base.Int.{eqb_ℤ, eqb_ℤ→eq}
use cuda_edge_elimination.Base.Outcome.{ok, Outcome-cases}
use cuda_edge_elimination.Types.{ProofRecord}
use cuda_edge_elimination.Jv.{is_jv}
use cuda_edge_elimination.Elimination.{
  EliminationResult, HtVerifier, bound_to, validate_record, validate_records,
  validate_proof_container,
}

module _ (H : HtVerifier) where
  -- A Hamilton-Tutte record refers to a certificate for its own edge.
  abbrev pub Bound : List H.HtProof → ProofRecord → Type 0
  Bound proofs r =
      (is_jv r.method ≡ true)
      ⊎ ((p : H.HtProof) × (get_elem? proofs r.certificate_index ≡ some p)
          × (r.u ≡ H.target_u p)
          × (r.v ≡ H.target_v p))

  abbrev pub AllBound : List H.HtProof → List ProofRecord → Type 0
  AllBound proofs [] = Unit {0}
  AllBound proofs (r ∷ rs) = Bound proofs r × AllBound proofs rs

  validate_record-Bound :
      (proofs : List H.HtProof) (referenced referenced' : List Bool) (r : ProofRecord)
      → validate_record H proofs referenced r ≡ ok referenced'
      → Bound proofs r
  unfolding validate_record bound_to
  validate_record-Bound proofs referenced referenced' r h = elim (Bool-cases (is_jv r.method)) [
    | inl plain ↦ inl plain
    | inr other ↦ elim (Option-cases (get_elem? proofs r.certificate_index)) [
      | inl nothing ↦ absurd (ground arith)
      | inr (p, at) ↦
          let u : eqb_ℤ (H.target_u p) r.u ≡ true = ground arith in
          let v : eqb_ℤ (H.target_v p) r.v ≡ true = ground arith in
          inr (p, at, sym (eqb_ℤ→eq (H.target_u p) r.u u), sym (eqb_ℤ→eq (H.target_v p) r.v v))
    ]
  ]

  validate_records-AllBound :
      (proofs : List H.HtProof) (referenced out : List Bool) (rs : List ProofRecord)
      → validate_records H proofs referenced rs ≡ ok out
      → AllBound proofs rs
  unfolding validate_records
  validate_records-AllBound proofs referenced out [] h = tt
  validate_records-AllBound proofs referenced out (r ∷ rs) h =
      elim (Outcome-cases (validate_record H proofs referenced r)) [
        | inr (e, bad) ↦ absurd (ground arith)
        | inl (next, fine) ↦ (
          validate_record-Bound proofs referenced next r fine,
          validate_records-AllBound proofs next out rs (ground arith),
        )
      ]

  pub validate_proof_container-AllBound :
      (expected : EliminationResult H.HtProof)
      → validate_proof_container H expected ≡ ok tt
      → AllBound expected.ht_proofs expected.proof
  unfolding validate_proof_container
  validate_proof_container-AllBound expected h =
      elim (Outcome-cases (
        validate_records H expected.ht_proofs (replicate (length expected.ht_proofs) false)
          expected.proof)) [
            | inr (x, bad) ↦ absurd (ground arith)
            | inl (out, fine) ↦
                validate_records-AllBound expected.ht_proofs
                  (replicate (length expected.ht_proofs) false) out expected.proof fine
          ]
