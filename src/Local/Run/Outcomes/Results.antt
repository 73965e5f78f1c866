-- ===== src/Local/Run/Outcomes/Results.antt =====
-- RunLocalElimination (src/cpu/local_elimination.cpp): the tours, the hashes and the records.
use Prim.Axiom.{lem}
use mathlib.Core.Logic.{∥∥₁_prop}
use cuda_edge_elimination.Base.{
  ℕ, ◌≡◌, refl, sym, ap, ◌∙◌, inl, inr, List, arith, Bool-cases, subst, ◌==◌, not, length, ◌&&◌,
  ◌⊎◌,
}
use cuda_edge_elimination.Base.Outcome.{Outcome, ok, err, Outcome-cases}
use cuda_edge_elimination.Distance.{FloatOps}
use cuda_edge_elimination.Distance.Rounding.{FloatLaws}
use cuda_edge_elimination.Graph.{GraphSnapshot}
use cuda_edge_elimination.Graph.Hash.{content_hash}
use cuda_edge_elimination.Elimination.{Backend, EliminationResult, HtVerifier}
use cuda_edge_elimination.Elimination.Replay.Certified.{Misjudged}
use cuda_edge_elimination.Elimination.Run.{
  Device, run_jv_elimination, run_rounds, initial, finish, is_cuda, wants_cuda,
}
use cuda_edge_elimination.Elimination.Survive.{Keeps, run_jv_elimination-Keeps}
use cuda_edge_elimination.HtScan.{Search}
use cuda_edge_elimination.HtScan.Run.Counts.{Proposed}
use cuda_edge_elimination.HtScan.Run.Outcomes.{run_ht_scan_epoch-kept, run_ht_scan_epoch-final_hash}
use cuda_edge_elimination.Local.{LocalEliminationResult, append_elimination_stage}
use cuda_edge_elimination.Local.Chain.{append_records-hashes}
use cuda_edge_elimination.Local.Chain.Joined.{append_elimination_stage-IsContainer, IsContainer}
use cuda_edge_elimination.Local.Run.{
  LocalEliminationOptions, run_local_working, run_local_elimination,
}
use cuda_edge_elimination.Local.Run.Outcomes.{run_local_working-keeps, jv-parts, ht-parts, Chained}

finish-final_hash :
    (fp : FloatOps) (device : Device) {P : Type 0}
    (r : GraphSnapshot × Outcome (EliminationResult P)) (jv : EliminationResult P)
    → (finish fp device r).1 ≡ ok jv
    → jv.final_hash ≡ content_hash (finish fp device r).0
finish-final_hash fp device (g, err e) jv h = absurd (ground arith)
finish-final_hash fp device (g, ok result) jv h = ground arith

jv-final_hash :
    (fp : FloatOps) (device : Device) (P : Type 0) (g : GraphSnapshot) (backend : Backend)
    (max_rounds : ℕ) (jv : EliminationResult P)
    → (run_jv_elimination fp device P g backend max_rounds).1 ≡ ok jv
    → jv.final_hash ≡ content_hash (run_jv_elimination fp device P g backend max_rounds).0
unfolding run_jv_elimination
jv-final_hash fp device P g backend max_rounds jv h = elim (Bool-cases (max_rounds == 0)) [
  | inl none ↦ absurd (ground arith)
  | inr some_rounds ↦ elim (Bool-cases (is_cuda backend && not (wants_cuda device g backend))) [
    | inl bad ↦ absurd (ground arith)
    | inr fine ↦
        let use_cuda = wants_cuda device g backend in
        let start : EliminationResult P = initial fp device use_cuda g in
        let ran = finish fp device (run_rounds fp device use_cuda max_rounds 0 g start) in
        let same : run_jv_elimination fp device P g backend max_rounds ≡ ran = ground arith in
        let good : ran.1 ≡ ok jv = sym (ap (λ r. r.1) same) ∙ h in
        finish-final_hash fp device (run_rounds fp device use_cuda max_rounds 0 g start) jv good
        ∙ ap (λ r. content_hash r.0) (sym same)
  ]
]

append-final_hash :
    {P : Type 0} (combined stage next : EliminationResult P)
    → append_elimination_stage combined stage ≡ ok next
    → (next.final_hash ≡ stage.final_hash) × (next.initial_hash ≡ combined.initial_hash)
unfolding append_elimination_stage
append-final_hash combined stage next h =
    elim (Bool-cases (combined.final_hash == stage.initial_hash)) [
      | inr broken ↦ absurd (ground arith)
      | inl bound ↦ elim (Bool-cases (length stage.proof == 0)) [
        | inl none ↦ elim (Bool-cases (stage.initial_hash == stage.final_hash)) [
          | inr changed ↦ absurd (ground arith)
          | inl same ↦
              let kept : combined ≡ next = ground arith in
              subst
                (λ n. (n.final_hash ≡ stage.final_hash) × (n.initial_hash ≡ combined.initial_hash))
                kept (ground arith, refl)
        ]
        | inr some_records ↦ append_records-hashes combined stage next (ground arith)
      ]
    ]

run_local_elimination-kept :
    (fp : FloatOps) (device : Device) (H : HtVerifier) (prover : Search H.HtProof)
    (g : GraphSnapshot) (options : LocalEliminationOptions) (t : List ℕ)
    → FloatLaws fp
    → ((g' : GraphSnapshot) (p : H.HtProof)
        → Proposed prover g' p
        → Keeps fp t g'
        → ¬ Misjudged H t g' p)
    → Keeps fp t g
    → Keeps fp t (run_local_elimination fp device H prover g options).0
unfolding run_local_elimination
run_local_elimination-kept fp device H prover g options t laws ht k =
    elim (Outcome-cases (run_local_working fp device H prover g options)) [
      | inr (x, bad) ↦
          let stay : (run_local_elimination fp device H prover g options).0 ≡ g = ground arith in
          subst (Keeps fp t) (sym stay) k
      | inl (out, ran) ↦
          let moved : (run_local_elimination fp device H prover g options).0 ≡ out.0 =
            ground arith in
          subst (Keeps fp t) (sym moved) (
            run_local_working-keeps fp device H prover g options (λ s. Keeps fp t s.working) out ran
              (λ s after h q.
                let (jv, _, e, _) = jv-parts fp device H prover options s after h in
                subst (Keeps fp t) (sym e) (
                  run_jv_elimination-Keeps fp device H.HtProof s.working options.jv_backend
                    options.max_jv_rounds t laws q))
              (λ offset s after h q.
                let (_, e, _) = ht-parts fp device H prover options offset s after h in
                subst (Keeps fp t) (sym e) (
                  run_ht_scan_epoch-kept fp H prover s.working
                    (record options.ht_scan_options { target_offset = offset }) t
                    (λ p given. ht s.working p given q) q))
              k)
    ]

-- A certificate that the prover proposes is misjudged on a snapshot that keeps the tour.
abbrev pub AnyMisjudged : FloatOps → (H : HtVerifier) → Search H.HtProof → List ℕ → Type 0
AnyMisjudged fp H prover t =
    (g : GraphSnapshot) × (p : H.HtProof) × Proposed prover g p × Keeps fp t g × Misjudged H t g p

-- RunLocalElimination loses a tour only by a certificate that its verifier misjudges. Take a
-- consistent snapshot whose distances are those of its metric, a tour t along the active edges that
-- is optimal among all tours of the vertices, and operations on doubles that satisfy FloatLaws.
-- Whatever the CUDA device and the prover propose, however the budgets cut the run, and whether it
-- returns or throws, either the snapshot that the caller is left with is consistent and still has
-- every edge of t active, or on some consistent snapshot that has t along its active edges the prover
-- proposes, as proven, a certificate that targets an edge of t and that the verifier accepts there.
pub run_local_elimination-Keeps :
    (fp : FloatOps) (device : Device) (H : HtVerifier) (prover : Search H.HtProof)
    (g : GraphSnapshot) (options : LocalEliminationOptions) (t : List ℕ)
    → FloatLaws fp
    → Keeps fp t g
    → Keeps fp t (run_local_elimination fp device H prover g options).0
      ⊎ ∥ AnyMisjudged fp H prover t ∥₁
run_local_elimination-Keeps fp device H prover g options t laws k =
    elim (lem ∥ AnyMisjudged fp H prover t ∥₁ ∥∥₁_prop) [
      | yes blamed ↦ inr blamed
      | no clear ↦ inl (
          run_local_elimination-kept fp device H prover g options t laws
            (λ g' p given k' bad. clear ∣ (g', p, given, k', bad) ∣₁) k)
    ]

-- When RunLocalElimination returns, the proof it returns is one chain: its initial hash is the content
-- hash of the snapshot that was passed in, and its final hash that of the snapshot that is left.
pub run_local_elimination-chain :
    (fp : FloatOps) (device : Device) (H : HtVerifier) (prover : Search H.HtProof)
    (g : GraphSnapshot) (options : LocalEliminationOptions)
    (result : LocalEliminationResult H.HtProof)
    → (run_local_elimination fp device H prover g options).1 ≡ ok result
    → (result.elimination.initial_hash ≡ content_hash g)
      × (result.elimination.final_hash
          ≡ content_hash (run_local_elimination fp device H prover g options).0)
unfolding run_local_elimination
run_local_elimination-chain fp device H prover g options result h =
    elim (Outcome-cases (run_local_working fp device H prover g options)) [
      | inr (x, bad) ↦ absurd (ground arith)
      | inl (out, ran) ↦
          let moved : (run_local_elimination fp device H prover g options).0 ≡ out.0 =
            ground arith in
          let same : out.1 ≡ result = ground arith in
          let (first, last) =
            run_local_working-keeps fp device H prover g options
              (Chained fp device H prover (content_hash g)) out ran
              (λ s after h q.
                let (jv, returned, e, appended) = jv-parts fp device H prover options s after h in
                let (final, start) =
                  append-final_hash s.elimination jv after.0.elimination appended in
                let hash =
                  jv-final_hash fp device H.HtProof s.working options.jv_backend
                    options.max_jv_rounds jv returned in
                (start ∙ q.0, final ∙ hash ∙ ap content_hash (sym e)))
              (λ offset s after h q.
                let (returned, e, appended) =
                  ht-parts fp device H prover options offset s after h in
                let (final, start) =
                  append-final_hash s.elimination after.1.elimination after.0.elimination
                    appended in
                let hash =
                  run_ht_scan_epoch-final_hash H prover s.working
                    (record options.ht_scan_options { target_offset = offset }) after.1 returned in
                (start ∙ q.0, final ∙ hash ∙ ap content_hash (sym e)))
              (refl, refl) in
          (
            ap (λ r. r.elimination.initial_hash) (sym same) ∙ first,
            ap (λ r. r.elimination.final_hash) (sym same) ∙ last ∙ ap content_hash (sym moved),
          )
    ]

-- When RunLocalElimination returns, its proof is a container: the epochs of the records run from 0
-- without gaps, over all the stages, and every Hamilton-Tutte record names a certificate of the
-- container.
pub run_local_elimination-IsContainer :
    (fp : FloatOps) (device : Device) (H : HtVerifier) (prover : Search H.HtProof)
    (g : GraphSnapshot) (options : LocalEliminationOptions)
    (result : LocalEliminationResult H.HtProof)
    → (run_local_elimination fp device H prover g options).1 ≡ ok result
    → IsContainer result.elimination
unfolding run_local_elimination
run_local_elimination-IsContainer fp device H prover g options result h =
    elim (Outcome-cases (run_local_working fp device H prover g options)) [
      | inr (x, bad) ↦ absurd (ground arith)
      | inl (out, ran) ↦
          let same : out.1 ≡ result = ground arith in
          subst (λ r. IsContainer r.elimination) same
            (run_local_working-keeps fp device H prover g options (λ s. IsContainer s.elimination)
              out ran
              (λ s after h q.
                let (jv, _, _, appended) = jv-parts fp device H prover options s after h in
                (append_elimination_stage-IsContainer s.elimination jv after.0.elimination appended
                  q).0)
              (λ offset s after h q.
                let (_, _, appended) = ht-parts fp device H prover options offset s after h in
                (append_elimination_stage-IsContainer s.elimination after.1.elimination
                  after.0.elimination appended q).0)
              (record { numbered = tt; bound = tt }))
    ]
