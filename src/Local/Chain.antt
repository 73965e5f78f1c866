-- ===== src/Local/Chain.antt =====
-- AppendEliminationStage (src/cpu/local_elimination.cpp): the loops over the records of a stage.
pub mod Joined
use cuda_edge_elimination.Base.{
  ℕ, suc, ◌+◌, ◌-◌, ◌≡◌, ◌<◌, refl, sym, ap, ◌∙◌, inl, inr, ◌⊎◌, List, [], ◌∷◌, ◌++◌, true, false,
  arith, Bool-cases, if◌then◌else◌, subst, ◌==◌, not, length, ltb, leb, ◌||◌, All, All-append,
  All-mono, get_elem?, length-append,
}
use cuda_edge_elimination.Base.Outcome.{ok, Outcome-cases}
use cuda_edge_elimination.Types.{ProofRecord}
use cuda_edge_elimination.Elimination.{EliminationResult, EpochMetrics, no_certificate}
use cuda_edge_elimination.Jv.{is_jv}
use cuda_edge_elimination.Local.{
  append_records, append_elimination_stage, rebase_all, rebase, rebase_metrics, next_source_epoch,
  first_epoch, last_epoch, u32_max,
}

-- The loops of a stage with records, and what it is appended as.
pub append_records-parts :
    {P : Type 0} (combined stage next : EliminationResult P)
    → append_records combined stage ≡ ok next
    → (records : List ProofRecord) × (last : ℕ) × (metrics : List EpochMetrics) × (rebase_all
          (first_epoch combined.proof)
          (length combined.ht_proofs)
          (length stage.ht_proofs)
          true
          0
          stage.proof
        ≡ ok (records, last))
      × (next ≡ record combined {
        proof = combined.proof ++ records;
        ht_proofs = combined.ht_proofs ++ stage.ht_proofs;
        epochs = combined.epochs ++ metrics;
        final_hash = stage.final_hash;
      })
unfolding append_records
append_records-parts combined stage next h =
    elim (Outcome-cases (
      rebase_all (first_epoch combined.proof) (length combined.ht_proofs) (length stage.ht_proofs)
        true 0 stage.proof)) [
          | inr (x, bad) ↦ absurd (ground arith)
          | inl ((records, last), moved) ↦
              elim (Outcome-cases (rebase_metrics (first_epoch combined.proof) last stage.epochs)) [
                | inr (x, bad) ↦ absurd (ground arith)
                | inl (metrics, listed) ↦ (records, last, metrics, moved, ground arith)
              ]
        ]

pub append_records-hashes :
    {P : Type 0} (combined stage next : EliminationResult P)
    → append_records combined stage ≡ ok next
    → (next.final_hash ≡ stage.final_hash) × (next.initial_hash ≡ combined.initial_hash)
append_records-hashes combined stage next h =
    let (records, last, metrics, _, e) = append_records-parts combined stage next h in
    (ap (λ n. n.final_hash) e, ap (λ n. n.initial_hash) e)

-- The epochs of the records stay or go up by one, from the given epoch on.
abbrev pub Steps : ℕ → List ProofRecord → Type 0
Steps e [] = Unit
Steps e (r ∷ rs) = ((r.epoch ≡ e) ⊎ (r.epoch ≡ suc e)) × Steps r.epoch rs

-- They start at 0.
abbrev pub IsNumbered : List ProofRecord → Type 0
IsNumbered [] = Unit
IsNumbered (r ∷ rs) = (r.epoch ≡ 0) × Steps 0 rs

-- A record's certificate is one of `n`, or there is none for a Jonker-Volgenant record.
abbrev pub Bound : ℕ → ProofRecord → Type 0
Bound n r =
    ((is_jv r.method ≡ true) × (r.certificate_index ≡ no_certificate))
    ⊎ ((is_jv r.method ≡ false) × (r.certificate_index < n))

-- What rebase does to a record of a stage with `n` certificates.
abbrev pub Rebased : ℕ → ℕ → ℕ → ProofRecord → ProofRecord → Type 0
Rebased start base n r r' =
    Bound n r
    × (r' ≡ record r {
      epoch = start + r.epoch;
      certificate_index =
          if is_jv r.method then r.certificate_index else r.certificate_index + base;
    })

rebase-Rebased :
    (start base n : ℕ) (r r' : ProofRecord)
    → rebase start base n r ≡ ok r'
    → Rebased start base n r r'
unfolding rebase
rebase-Rebased start base n r r' h = elim (Bool-cases (is_jv r.method)) [
  | inl jv ↦ elim (Bool-cases (r.certificate_index == no_certificate)) [
    | inl none ↦ (inl (jv, ground arith), ground arith)
    | inr some ↦ absurd (ground arith)
  ]
  | inr ht ↦
      elim (Bool-cases (leb n r.certificate_index || ltb (u32_max - r.certificate_index) base)) [
        | inl out ↦ absurd (ground arith)
        | inr inside ↦ (inr (ht, ground arith), ground arith)
      ]
]

-- Two lists related entry by entry.
abbrev pub Zip : (ProofRecord → ProofRecord → Type 0) → List ProofRecord → List ProofRecord → Type 0
Zip R [] [] = Unit
Zip R [] (r' ∷ rs') = ⊥
Zip R (r ∷ rs) [] = ⊥
Zip R (r ∷ rs) (r' ∷ rs') = R r r' × Zip R rs rs'

next_source_epoch-lem :
    (current epoch next : ℕ)
    → next_source_epoch false current epoch ≡ ok next
    → (next ≡ epoch) × ((epoch ≡ current) ⊎ (epoch ≡ suc current))
unfolding next_source_epoch
next_source_epoch-lem current epoch next h = elim (Bool-cases (epoch == current)) [
  | inl stay ↦ (ground arith, inl (ground arith))
  | inr change ↦ elim (Bool-cases (current == u32_max || not (epoch == current + 1))) [
    | inl bad ↦ absurd (ground arith)
    | inr fine ↦ (ground arith, inr (ground arith))
  ]
]

rebase_all-lem :
    (start base n current : ℕ) (rs rs' : List ProofRecord) (last : ℕ)
    → rebase_all start base n false current rs ≡ ok (rs', last)
    → Zip (Rebased start base n) rs rs' × Steps (start + current) rs'
unfolding rebase_all next_source_epoch
rebase_all-lem start base n current [] rs' last h =
    let same : [] ≡ rs' = ground arith in
    subst (λ x. Zip (Rebased start base n) [] x × Steps (start + current) x) same (tt, tt)
rebase_all-lem start base n current (r ∷ rs) rs' last h =
    elim (Outcome-cases (next_source_epoch false current r.epoch)) [
      | inr (x, bad) ↦ absurd (ground arith)
      | inl (current', next) ↦ elim (Outcome-cases (rebase start base n r)) [
        | inr (x, bad) ↦ absurd (ground arith)
        | inl (moved, ok_moved) ↦ elim (Outcome-cases (rebase_all start base n false current' rs)) [
          | inr (x, bad) ↦ absurd (ground arith)
          | inl ((rest, end), later) ↦
              let (bound, change) = rebase-Rebased start base n r moved ok_moved in
              let epoch : moved.epoch ≡ start + r.epoch = ap (λ m. m.epoch) change in
              let (zip, steps) = rebase_all-lem start base n current' rs rest end later in
              let (now, step) = next_source_epoch-lem current r.epoch current' next in
              let above : (moved.epoch ≡ start + current) ⊎ (moved.epoch ≡ suc (start + current)) =
                elim step [ inl e ↦ inl (omega arith) | inr e ↦ inr (omega arith) ] in
              let from : start + current' ≡ moved.epoch = omega arith in
              let same : moved ∷ rest ≡ rs' = ground arith in
              subst (λ x. Zip (Rebased start base n) (r ∷ rs) x × Steps (start + current) x) same
                (((bound, change), zip), (above, subst (λ e. Steps e rest) from steps))
        ]
      ]
    ]

pub rebase_all-first :
    (start base n : ℕ) (r : ProofRecord) (rs rs' : List ProofRecord) (last : ℕ)
    → rebase_all start base n true 0 (r ∷ rs) ≡ ok (rs', last)
    → Zip (Rebased start base n) (r ∷ rs) rs'
      × ((m : ProofRecord) × (rest : List ProofRecord) × (rs' ≡ m ∷ rest)
          × (m.epoch ≡ start)
          × Steps start rest)
unfolding rebase_all next_source_epoch
rebase_all-first start base n r rs rs' last h = elim (Bool-cases (r.epoch == 0)) [
  | inr late ↦ absurd (ground arith)
  | inl zeroth ↦ elim (Outcome-cases (rebase start base n r)) [
    | inr (x, bad) ↦ absurd (ground arith)
    | inl (moved, ok_moved) ↦ elim (Outcome-cases (rebase_all start base n false 0 rs)) [
      | inr (x, bad) ↦ absurd (ground arith)
      | inl ((rest, end), later) ↦
          let (bound, change) = rebase-Rebased start base n r moved ok_moved in
          let epoch : moved.epoch ≡ start + r.epoch = ap (λ m. m.epoch) change in
          let (zip, steps) = rebase_all-lem start base n 0 rs rest end later in
          let from : start + 0 ≡ start = omega arith in
          let same : moved ∷ rest ≡ rs' = ground arith in
          (
            subst (Zip (Rebased start base n) (r ∷ rs)) same ((bound, change), zip),
            (moved, rest, sym same, ground arith, subst (λ e. Steps e rest) from steps),
          )
    ]
  ]
]

Steps-append :
    (r : ProofRecord) (xs : List ProofRecord) (m : ProofRecord) (rest : List ProofRecord)
    → Steps r.epoch xs
    → m.epoch ≡ suc (last_epoch (r ∷ xs))
    → Steps m.epoch rest
    → Steps r.epoch (xs ++ m ∷ rest)
Steps-append r [] m rest s up later = (inr up, later)
Steps-append r (x ∷ xs) m rest (step, s) up later = (step, Steps-append x xs m rest s up later)

pub IsNumbered-append :
    (xs : List ProofRecord) (m : ProofRecord) (rest : List ProofRecord)
    → IsNumbered xs
    → m.epoch ≡ first_epoch xs
    → Steps (first_epoch xs) rest
    → IsNumbered (xs ++ m ∷ rest)
IsNumbered-append [] m rest n at later = (at, later)
IsNumbered-append (x ∷ xs) m rest (zeroth, s) at later =
    let up : m.epoch ≡ suc (last_epoch (x ∷ xs)) = omega arith in
    (
      zeroth,
      subst (λ e. Steps e (xs ++ m ∷ rest)) zeroth
          (Steps-append x xs m rest (subst (λ e. Steps e xs) (sym zeroth) s) up
            (subst (λ e. Steps e rest) (sym at) later)),
    )

Rebased-Bound :
    (start base n : ℕ) (r r' : ProofRecord) → Rebased start base n r r' → Bound (base + n) r'
Rebased-Bound start base n r r' (inl (jv, none), change) =
    let same : r'.method ≡ r.method = ap (λ m. m.method) change in
    let index : r'.certificate_index ≡ r.certificate_index =
      ap (λ m. m.certificate_index) change ∙ ground arith in
    inl (ap is_jv same ∙ jv, index ∙ none)
Rebased-Bound start base n r r' (inr (ht, inside), change) =
    let same : r'.method ≡ r.method = ap (λ m. m.method) change in
    let index : r'.certificate_index ≡ r.certificate_index + base =
      ap (λ m. m.certificate_index) change ∙ ground arith in
    inr (ap is_jv same ∙ ht, omega arith)

pub Zip-Bound :
    (start base n : ℕ) (rs rs' : List ProofRecord)
    → Zip (Rebased start base n) rs rs'
    → All (Bound (base + n)) rs' × (length rs' ≡ length rs)
Zip-Bound start base n [] [] z = (tt, refl)
Zip-Bound start base n [] (r' ∷ rs') z = absurd z
Zip-Bound start base n (r ∷ rs) [] z = absurd z
Zip-Bound start base n (r ∷ rs) (r' ∷ rs') (one, z) =
    let (all, size) = Zip-Bound start base n rs rs' z in
    ((Rebased-Bound start base n r r' one, all), ap suc size)

pub Bound-mono : (a b : ℕ) (r : ProofRecord) → Bound a r → Bound (a + b) r
Bound-mono a b r (inl jv) = inl jv
Bound-mono a b r (inr (ht, inside)) = inr (ht, omega arith)
