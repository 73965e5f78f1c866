-- ===== src/Local/Chain/Joined.antt =====
-- AppendEliminationStage (src/cpu/local_elimination.cpp): what a joined proof has and what it keeps.
use cuda_edge_elimination.Base.{
  List-cases, ℕ, suc, ◌+◌, ◌≡◌, refl, sym, ap, ◌∙◌, inl, inr, ◌⊎◌, List, [], ◌∷◌, ◌++◌, true, arith,
  Bool-cases, subst, ◌==◌, not, length, ◌||◌, All, All-append, All-mono, get_elem?, length-append,
}
use cuda_edge_elimination.Base.Outcome.{ok}
use cuda_edge_elimination.Types.{ProofRecord}
use cuda_edge_elimination.Elimination.{EliminationResult}
use cuda_edge_elimination.Jv.{is_jv}
use cuda_edge_elimination.Local.{append_records, append_elimination_stage, rebase_all, first_epoch}
use cuda_edge_elimination.Local.Chain.{
  append_records-parts, IsNumbered, Bound, Rebased, Zip, rebase_all-first, IsNumbered-append,
  Zip-Bound, Bound-mono,
}

-- The same proof step under the new numbers: the same edge, snapshot, witness and method, and the same
-- certificate where the method has one.
abbrev pub Carried : {P : Type 0} → List P → List P → ProofRecord → ProofRecord → Type 0
Carried old new r r' =
    (r'.edge_id ≡ r.edge_id)
    × (r'.u ≡ r.u)
    × (r'.v ≡ r.v)
    × (r'.witness ≡ r.witness)
    × (r'.snapshot_hash ≡ r.snapshot_hash)
    × (r'.method ≡ r.method)
    × ((is_jv r.method ≡ true)
        ⊎ (get_elem? new r'.certificate_index ≡ get_elem? old r.certificate_index))

append-nil {ℓ} : {A : Type ℓ} (xs : List A) → xs ++ [] ≡ xs
append-nil [] = refl
append-nil (x ∷ xs) = ap (λ ys. x ∷ ys) (append-nil xs)

get_elem?-append {ℓ} :
    {A : Type ℓ} (xs ys : List A) (i : ℕ) → get_elem? (xs ++ ys) (i + length xs) ≡ get_elem? ys i
get_elem?-append [] ys i = let e : i + 0 ≡ i = omega arith in ap (get_elem? ys) e
get_elem?-append (x ∷ xs) ys i =
    let e : i + suc (length xs) ≡ suc (i + length xs) = omega arith in
    ap (get_elem? (x ∷ (xs ++ ys))) e ∙ get_elem?-append xs ys i

Rebased-Carried :
    {P : Type 0} (start n : ℕ) (have more : List P) (r r' : ProofRecord)
    → Rebased start (length have) n r r'
    → Carried more (have ++ more) r r'
Rebased-Carried start n have more r r' (inl (jv, none), change) = (
  ap (λ m. m.edge_id) change,
  ap (λ m. m.u) change,
  ap (λ m. m.v) change,
  ap (λ m. m.witness) change,
  ap (λ m. m.snapshot_hash) change,
  ap (λ m. m.method) change,
  inl jv,
)
Rebased-Carried start n have more r r' (inr (ht, inside), change) =
    let index : r'.certificate_index ≡ r.certificate_index + length have =
      ap (λ m. m.certificate_index) change ∙ ground arith in
    (
      ap (λ m. m.edge_id) change,
      ap (λ m. m.u) change,
      ap (λ m. m.v) change,
      ap (λ m. m.witness) change,
      ap (λ m. m.snapshot_hash) change,
      ap (λ m. m.method) change,
      inr (ap (get_elem? (have ++ more)) index ∙ get_elem?-append have more r.certificate_index),
    )

Zip-mono :
    (R S : ProofRecord → ProofRecord → Type 0) (f : (r r' : ProofRecord) → R r r' → S r r')
    (rs rs' : List ProofRecord)
    → Zip R rs rs'
    → Zip S rs rs'
Zip-mono R S f [] [] z = tt
Zip-mono R S f [] (r' ∷ rs') z = absurd z
Zip-mono R S f (r ∷ rs) [] z = absurd z
Zip-mono R S f (r ∷ rs) (r' ∷ rs') (one, z) = (f r r' one, Zip-mono R S f rs rs' z)

-- A proof container whose epochs are consecutive from 0 and whose records name certificates it has.
pub record IsContainer {P : Type 0} (result : EliminationResult P) : Type 0 where
  pub numbered : IsNumbered result.proof
  pub bound : All (Bound (length result.ht_proofs)) result.proof

append_elimination_stage-cases :
    {P : Type 0} (combined stage next : EliminationResult P)
    → append_elimination_stage combined stage ≡ ok next
    → ((stage.proof ≡ []) × (combined ≡ next))
      ⊎ ((r : ProofRecord) × (rs : List ProofRecord) × (stage.proof ≡ r ∷ rs)
          × (append_records combined stage ≡ ok next))
unfolding append_elimination_stage
append_elimination_stage-cases combined stage next h =
    elim (Bool-cases (combined.final_hash == stage.initial_hash)) [
      | inr broken ↦ absurd (ground arith)
      | inl bound ↦ elim (List-cases stage.proof) [
        | inl none ↦
            elim (Bool-cases
              (not (length stage.ht_proofs == 0) || not (stage.initial_hash == stage.final_hash))) [
                | inl bad ↦ absurd (ground arith)
                | inr fine ↦ inl (none, ground arith)
              ]
        | inr (r, rs, some) ↦ inr (r, rs, some, ground arith)
      ]
    ]

-- AppendEliminationStage joins two containers into a container: if the epochs of the combined proof
-- run from 0 without gaps and its records name certificates it has, the same holds after a stage has
-- been appended, and every record of the stage is there.
pub append_elimination_stage-IsContainer :
    {P : Type 0} (combined stage next : EliminationResult P)
    → append_elimination_stage combined stage ≡ ok next
    → IsContainer combined
    → IsContainer next × (length next.proof ≡ length combined.proof + length stage.proof)
append_elimination_stage-IsContainer combined stage next h c =
    elim (append_elimination_stage-cases combined stage next h) [
      | inl (none, same) ↦
          let size : length stage.proof ≡ 0 = ap length none in
          subst (λ n. IsContainer n × (length n.proof ≡ length combined.proof + length stage.proof))
            same (c, omega arith)
      | inr (r, rs, some, appended) ↦
          let (records, last, metrics, moved, e) =
            append_records-parts combined stage next appended in
          let start = first_epoch combined.proof in
          let base = length combined.ht_proofs in
          let (zip, (m, rest, split, at, steps)) =
            rebase_all-first start base (length stage.ht_proofs) r rs records last (
              subst
                (λ x. rebase_all start base (length stage.ht_proofs) true 0 x ≡ ok (records, last))
                some moved) in
          let (bound, size) = Zip-Bound start base (length stage.ht_proofs) (r ∷ rs) records zip in
          let total = length-append combined.ht_proofs stage.ht_proofs in
          let long = length-append combined.proof records in
          let stage_size : length stage.proof ≡ length (r ∷ rs) = ap length some in
          let numbered =
            subst (λ x. IsNumbered (combined.proof ++ x)) (sym split)
              (IsNumbered-append combined.proof m rest c.numbered at steps) in
          let kept =
            All-mono (Bound base) (Bound (base + length stage.ht_proofs))
              (Bound-mono base (length stage.ht_proofs)) combined.proof c.bound in
          let all =
            All-append (Bound (base + length stage.ht_proofs)) combined.proof records kept bound in
          subst (λ n. IsContainer n × (length n.proof ≡ length combined.proof + length stage.proof))
            (sym e)
            (
              record {
                numbered = numbered;
                bound = subst (λ n. All (Bound n) (combined.proof ++ records)) (sym total) all;
              },
              omega arith,
            )
    ]

-- AppendEliminationStage keeps what the records mean: the combined proof is extended by one record for
-- each record of the stage, in order, with the same edge, ends, witness, snapshot and method, and a
-- Hamilton-Tutte record's certificate is the one it had in the stage.
pub append_elimination_stage-Carried :
    {P : Type 0} (combined stage next : EliminationResult P)
    → append_elimination_stage combined stage ≡ ok next
    → (records : List ProofRecord) × (next.proof ≡ combined.proof ++ records)
      × Zip (Carried stage.ht_proofs next.ht_proofs) stage.proof records
append_elimination_stage-Carried combined stage next h =
    elim (append_elimination_stage-cases combined stage next h) [
      | inl (none, same) ↦ (
        [],
        ap (λ n. n.proof) (sym same) ∙ sym (append-nil combined.proof),
        subst (λ x. Zip (Carried stage.ht_proofs next.ht_proofs) x []) (sym none) tt,
      )
      | inr (r, rs, some, appended) ↦
          let (records, last, metrics, moved, e) =
            append_records-parts combined stage next appended in
          let start = first_epoch combined.proof in
          let n = length stage.ht_proofs in
          let (zip, _) = rebase_all-first start (length combined.ht_proofs) n r rs records last (
            subst
              (λ x. rebase_all start (length combined.ht_proofs) n true 0 x ≡ ok (records, last))
              some moved) in
          let carried =
            Zip-mono (Rebased start (length combined.ht_proofs) n)
              (Carried stage.ht_proofs (combined.ht_proofs ++ stage.ht_proofs))
              (Rebased-Carried start n combined.ht_proofs stage.ht_proofs) (r ∷ rs) records zip in
          let proofs : combined.ht_proofs ++ stage.ht_proofs ≡ next.ht_proofs =
            ap (λ n. n.ht_proofs) (sym e) in
          (
            records,
            ap (λ n. n.proof) e,
            subst (λ x. Zip (Carried stage.ht_proofs next.ht_proofs) x records) (sym some)
                (subst (λ x. Zip (Carried stage.ht_proofs x) (r ∷ rs) records) proofs carried),
          )
    ]
