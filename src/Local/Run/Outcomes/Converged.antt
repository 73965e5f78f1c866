-- ===== src/Local/Run/Outcomes/Converged.antt =====
-- RunLocalElimination (src/cpu/local_elimination.cpp): what it means that it reports convergence.
use cuda_edge_elimination.Base.{
  ℕ, zero, suc, ◌+◌, ◌≡◌, refl, sym, ap, ◌∙◌, inl, inr, List, [], ◌∷◌, ◌++◌, true, false, arith,
  Bool-cases, subst, ◌==◌, length,
}
use cuda_edge_elimination.Base.Outcome.{ok, Outcome-cases}
use cuda_edge_elimination.Distance.{FloatOps}
use cuda_edge_elimination.Graph.{GraphSnapshot, active_edge_count}
use cuda_edge_elimination.Elimination.{EliminationResult, HtVerifier}
use cuda_edge_elimination.Elimination.Run.{Device}
use cuda_edge_elimination.HtScan.{Search, HtScanResult}
use cuda_edge_elimination.HtScan.Run.{run_ht_scan_epoch}
use cuda_edge_elimination.HtScan.Run.Outcomes.{run_ht_scan_epoch-target_offset}
use cuda_edge_elimination.Local.Run.Outcomes.{ht-parts}
use cuda_edge_elimination.Local.{
  LocalEliminationResult, LocalEliminationTermination, LocalEliminationStageMetrics, converged,
  jv_round_limit, ht_epoch_limit, ht_stage, append_elimination_stage,
}
use cuda_edge_elimination.Local.Run.{
  LocalEliminationOptions, Progress, run_jv_fixed_point, run_ht_stage, run_ht_epochs, starting,
  run_local_working, run_local_elimination, only, leave, summarize_ht_stage,
}

-- These are Hamilton-Tutte scans one after the other, from the target `first` up to `end`, and the
-- snapshot before and after each has the content hash `hash`.
abbrev pub Covers : ℕ → ℕ → List LocalEliminationStageMetrics → ℕ → Type 0
Covers hash first [] end = (first ≡ end)
Covers hash first (m ∷ ms) end =
    (m.kind ≡ ht_stage)
    × (m.target_offset ≡ first)
    × (m.initial_hash ≡ hash)
    × (m.final_hash ≡ hash)
    × Covers hash (first + m.attempted_targets) ms end

-- The stages end with scans, one at least, from target 0 up to the last eligible target, all of the
-- snapshot with this content hash.
abbrev pub EndsSweep : ℕ → List LocalEliminationStageMetrics → Type 0
EndsSweep hash stages =
    (before : List LocalEliminationStageMetrics) × (sweep : List LocalEliminationStageMetrics)
    × (m : LocalEliminationStageMetrics) × (stages ≡ before ++ (sweep ++ m ∷ []))
    × Covers hash 0 (sweep ++ m ∷ []) m.eligible_targets

Covers-snoc :
    (hash first end : ℕ) (ms : List LocalEliminationStageMetrics) (m : LocalEliminationStageMetrics)
    → Covers hash first ms end
    → (m.kind ≡ ht_stage)
      × (m.target_offset ≡ end)
      × (m.initial_hash ≡ hash)
      × (m.final_hash ≡ hash)
    → Covers hash first (ms ++ m ∷ []) (end + m.attempted_targets)
Covers-snoc hash first end [] m same (kind, offset, before, after) =
    (kind, offset ∙ sym same, before, after, ap (λ n. n + m.attempted_targets) same)
Covers-snoc hash first end (k ∷ ms) m (kind, offset, before, after, rest) last =
    (kind, offset, before, after, Covers-snoc hash (first + k.attempted_targets) end ms m rest last)

append-nil : (xs : List LocalEliminationStageMetrics) → xs ++ [] ≡ xs
append-nil [] = refl
append-nil (x ∷ xs) = ap (λ l. x ∷ l) (append-nil xs)

snoc_assoc :
    (xs ys : List LocalEliminationStageMetrics) (m : LocalEliminationStageMetrics)
    → (xs ++ ys) ++ m ∷ [] ≡ xs ++ (ys ++ m ∷ [])
snoc_assoc [] ys m = refl
snoc_assoc (x ∷ xs) ys m = ap (λ l. x ∷ l) (snoc_assoc xs ys m)

-- A stage without records leaves the combined proof alone.
append-idle :
    {P : Type 0} (combined stage next : EliminationResult P)
    → append_elimination_stage combined stage ≡ ok next
    → length stage.proof == 0 ≡ true
    → (next.final_hash ≡ combined.final_hash)
      × (stage.initial_hash ≡ combined.final_hash)
      × (stage.final_hash ≡ combined.final_hash)
unfolding append_elimination_stage
append-idle combined stage next h none_there =
    elim (Bool-cases (combined.final_hash == stage.initial_hash)) [
      | inr broken ↦ absurd (ground arith)
      | inl bound ↦ elim (Bool-cases (stage.initial_hash == stage.final_hash)) [
        | inr changed ↦ absurd (ground arith)
        | inl same ↦ (ground arith, ground arith, ground arith)
      ]
    ]

module _ (fp : FloatOps) (device : Device) (H : HtVerifier) (prover : Search H.HtProof) where
  -- What a scan stage appends to the stages.
  abbrev Appends : ℕ → Progress H.HtProof → Progress H.HtProof × HtScanResult H.HtProof → Type 0
  Appends offset s (s', scan) =
      (m : LocalEliminationStageMetrics) × (s'.stages ≡ s.stages ++ m ∷ [])
      × (m.kind ≡ ht_stage)
      × (m.target_offset ≡ offset)
      × (m.attempted_targets ≡ length scan.attempts)
      × (m.eligible_targets ≡ scan.eligible_targets)
      × (m.initial_hash ≡ scan.elimination.initial_hash)
      × (m.final_hash ≡ scan.elimination.final_hash)

  run_ht_stage-Appends :
      (options : LocalEliminationOptions) (offset : ℕ) (s : Progress H.HtProof)
      (t : Progress H.HtProof × HtScanResult H.HtProof)
      → run_ht_stage fp device H prover options offset s ≡ ok t
      → Appends offset s t
  unfolding run_ht_stage
  run_ht_stage-Appends options offset s t h =
      let asked = record options.ht_scan_options { target_offset = offset } in
      let ran = run_ht_scan_epoch H prover s.working asked in
      elim (Outcome-cases ran.1) [
        | inr (x, bad) ↦ absurd (ground arith)
        | inl (scan, returned) ↦ elim (Outcome-cases (only scan.elimination.epochs)) [
          | inr (x, bad) ↦ absurd (ground arith)
          | inl (epoch, one) ↦
              elim (Outcome-cases (append_elimination_stage s.elimination scan.elimination)) [
                | inr (x, bad) ↦ absurd (ground arith)
                | inl (combined, appended) ↦
                    let metrics =
                      summarize_ht_stage (length s.stages) (active_edge_count s.working.edges)
                        (active_edge_count ran.0.edges) scan epoch in
                    let place =
                      run_ht_scan_epoch-target_offset H prover s.working asked scan returned in
                    let same : (
                      record {
                        working = ran.0;
                        elimination = combined;
                        stages = s.stages ++ metrics ∷ [];
                      },
                      scan,
                    )
                        ≡ t =
                      ground arith in
                    subst (Appends offset s) same
                      (metrics, refl, refl, place, refl, refl, refl, refl)
              ]
        ]
      ]

  -- The sweep so far: from target 0 up to the next offset, on the present snapshot.
  abbrev Sweeping : ℕ → Progress H.HtProof → Type 0
  Sweeping offset s =
      (before : List LocalEliminationStageMetrics) × (sweep : List LocalEliminationStageMetrics)
      × (s.stages ≡ before ++ sweep)
      × Covers s.elimination.final_hash 0 sweep offset

  -- A scan that commits nothing carries the sweep on.
  abbrev Swept : Progress H.HtProof × HtScanResult H.HtProof → Type 0
  Swept (s', scan) =
      (before : List LocalEliminationStageMetrics) × (sweep : List LocalEliminationStageMetrics)
      × (m : LocalEliminationStageMetrics) × (s'.stages ≡ before ++ (sweep ++ m ∷ []))
      × Covers s'.elimination.final_hash 0 (sweep ++ m ∷ [])
          (scan.target_offset + length scan.attempts)
      × (m.eligible_targets ≡ scan.eligible_targets)

  run_ht_stage-Swept :
      (options : LocalEliminationOptions) (offset : ℕ) (s : Progress H.HtProof)
      (t : Progress H.HtProof × HtScanResult H.HtProof)
      → run_ht_stage fp device H prover options offset s ≡ ok t
      → length t.1.elimination.proof == 0 ≡ true
      → Sweeping offset s
      → Swept t
  run_ht_stage-Swept options offset s t h idle (before, sweep, stages, covered) =
      let (m, longer, kind, place, attempted, eligible, first, last) =
        run_ht_stage-Appends options offset s t h in
      let (returned, _, appended) = ht-parts fp device H prover options offset s t h in
      let (kept, from, to) =
        append-idle s.elimination t.1.elimination t.0.elimination appended idle in
      let named =
        run_ht_scan_epoch-target_offset H prover s.working
          (record options.ht_scan_options { target_offset = offset }) t.1 returned in
      let more =
        Covers-snoc s.elimination.final_hash 0 offset sweep m covered
          (kind, place, first ∙ from, last ∙ to) in
      let end : offset + m.attempted_targets ≡ t.1.target_offset + length t.1.attempts =
        omega arith in
      (
        before,
        sweep,
        m,
        longer ∙ ap (λ l. l ++ m ∷ []) stages ∙ snoc_assoc before sweep m,
        subst (λ n. Covers t.0.elimination.final_hash 0 (sweep ++ m ∷ []) n) end
            (subst (λ x. Covers x 0 (sweep ++ m ∷ []) (offset + m.attempted_targets)) (sym kept)
              more),
        eligible,
      )

  leave-termination :
      (why : LocalEliminationTermination) (s : Progress H.HtProof)
      (out : GraphSnapshot × LocalEliminationResult H.HtProof)
      → leave why s ≡ ok out
      → (why ≡ out.1.termination) × (s.stages ≡ out.1.stages) × (s.elimination ≡ out.1.elimination)
  leave-termination why s out h = (ground arith, ground arith, ground arith)

  run_ht_epochs-converged :
      (options : LocalEliminationOptions) (epochs offset : ℕ) (s : Progress H.HtProof)
      (out : GraphSnapshot × LocalEliminationResult H.HtProof)
      → run_ht_epochs fp device H prover options epochs offset s ≡ ok out
      → out.1.termination ≡ converged
      → Sweeping offset s
      → EndsSweep out.1.elimination.final_hash out.1.stages
  unfolding run_ht_epochs
  run_ht_epochs-converged options zero offset s out h why sofar =
      let (other, _, _) = leave-termination ht_epoch_limit s out h in absurd (ground arith)
  run_ht_epochs-converged options (suc epochs) offset s out h why sofar =
      elim (Outcome-cases (run_ht_stage fp device H prover options offset s)) [
        | inr (x, bad) ↦ absurd (ground arith)
        | inl ((s', scan), ran) ↦ elim (Bool-cases (length scan.elimination.proof == 0)) [
          | inl idle ↦
              let (before, sweep, m, stages, covered, eligible) =
                run_ht_stage-Swept options offset s (s', scan) ran idle sofar in
              elim (Bool-cases
                (scan.target_offset + length scan.attempts == scan.eligible_targets)) [
                  | inl all ↦
                      let (_, left, proof) = leave-termination converged s' out (ground arith) in
                      let end : scan.target_offset + length scan.attempts ≡ m.eligible_targets =
                        ground arith in
                      (
                        before,
                        sweep,
                        m,
                        sym left ∙ stages,
                        subst (λ p. Covers p.final_hash 0 (sweep ++ m ∷ []) m.eligible_targets)
                            proof
                            (subst (λ n. Covers s'.elimination.final_hash 0 (sweep ++ m ∷ []) n) end
                              covered),
                      )
                  | inr part ↦
                      run_ht_epochs-converged options epochs
                        (scan.target_offset + length scan.attempts) s' out (ground arith) why
                        (before, sweep ++ m ∷ [], stages, covered)
                ]
          | inr busy ↦ elim (Outcome-cases (run_jv_fixed_point fp device H prover options s')) [
            | inr (x, bad) ↦ absurd (ground arith)
            | inl ((s'', true), fixed) ↦
                run_ht_epochs-converged options epochs 0 s'' out (ground arith) why
                  (s''.stages, [], sym (append-nil s''.stages), refl)
            | inl ((s'', false), fixed) ↦
                let (other, _, _) = leave-termination jv_round_limit s'' out (ground arith) in
                absurd (ground arith)
          ]
        ]
      ]

-- When RunLocalElimination returns and reports convergence, its last stages are Hamilton-Tutte scans,
-- one at least, whose slices follow each other from target 0 up to the last eligible target of the
-- last scan, and all of them began and ended at the content hash with which the combined proof ends:
-- a whole sweep has found nothing to eliminate on the final snapshot.
pub run_local_elimination-converged :
    (fp : FloatOps) (device : Device) (H : HtVerifier) (prover : Search H.HtProof)
    (g : GraphSnapshot) (options : LocalEliminationOptions)
    (result : LocalEliminationResult H.HtProof)
    → (run_local_elimination fp device H prover g options).1 ≡ ok result
    → result.termination ≡ converged
    → EndsSweep result.elimination.final_hash result.stages
unfolding run_local_elimination run_local_working
run_local_elimination-converged fp device H prover g options result h why =
    let s0 = starting fp device H prover g in
    elim (Outcome-cases (run_jv_fixed_point fp device H prover options s0)) [
      | inr (x, bad) ↦ absurd (ground arith)
      | inl ((s, false), fixed) ↦ absurd (ground arith)
      | inl ((s, true), fixed) ↦
          elim (Outcome-cases
            (run_ht_epochs fp device H prover options options.max_ht_epochs 0 s)) [
              | inr (x, bad) ↦ absurd (ground arith)
              | inl (out, ran) ↦
                  let same : out.1 ≡ result = ground arith in
                  let why' = ap (λ r. r.termination) same ∙ why in
                  subst (λ r. EndsSweep r.elimination.final_hash r.stages) same
                    (run_ht_epochs-converged fp device H prover options options.max_ht_epochs 0 s
                      out ran why' (s.stages, [], sym (append-nil s.stages), refl))
            ]
    ]
