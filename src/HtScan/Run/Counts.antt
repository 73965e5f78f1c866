-- ===== src/HtScan/Run/Counts.antt =====
-- What the slice of a scan epoch (src/cpu/ht_scan.cpp) gathers: its counters and its certificates.
use cuda_edge_elimination.Base.{
  ℕ, zero, suc, ◌+◌, ◌-◌, ◌≡◌, ◌≤◌, refl, sym, ap, ◌∙◌, inl, inr, List, [], ◌∷◌, ◌++◌, true, false,
  arith, Option-cases, subst, length, length-append, ◌%◌, All, Bool, if◌then◌else◌, none, some,
  Option, All-append,
}
use cuda_edge_elimination.Base.Int.{ℤ, pos, negsuc}
use cuda_edge_elimination.Base.Outcome.{ok, Outcome-cases}
use cuda_edge_elimination.Graph.{GraphSnapshot}
use cuda_edge_elimination.Graph.Hash.{content_hash}
use cuda_edge_elimination.Elimination.{HtVerifier}
use cuda_edge_elimination.HtEpoch.{commit_ht_proof_epoch}
use cuda_edge_elimination.Types.{Edge}
use cuda_edge_elimination.HtScan.{
  Wavefront, Search, HtScanOptions, HtTargetEvaluation, HtScanResult, evaluate_ht_target,
  select_ht_target_edge_ids, validate_target_devices, SearchStatus, HtScanAttempt, proven,
  unresolved, invalid, proof_of,
}
use cuda_edge_elimination.HtScan.Validate.{bind_ht_graph}
use cuda_edge_elimination.Commit.{edge_or}
use cuda_edge_elimination.Jv.{edge_at}
use cuda_edge_elimination.HtScan.Workers.{evaluate_parallel, evaluate_in_order, device_of}
use cuda_edge_elimination.HtScan.Workers.InOrder.{evaluate_parallel-in_order}
use cuda_edge_elimination.HtScan.Run.{
  Gathered, consume, consume_all, scan_serial, scan_slice, scan_targets, run_ht_scan_epoch, minimum,
  take, drop, nothing_gathered, worker_count,
}

abbrev pub is_proven : SearchStatus → Bool
is_proven proven = true
is_proven unresolved = false
is_proven invalid = false

-- The number of attempts whose search has proven its target.
abbrev pub proven_among : List HtScanAttempt → ℕ
proven_among [] = 0
proven_among (a ∷ rest) = (if is_proven a.status then 1 else 0) + proven_among rest

-- The number of the other attempts.
abbrev pub open_among : List HtScanAttempt → ℕ
open_among [] = 0
open_among (a ∷ rest) = (if is_proven a.status then 0 else 1) + open_among rest

among-append :
    (xs : List HtScanAttempt) (a : HtScanAttempt)
    → (proven_among (xs ++ a ∷ []) ≡ proven_among xs + (if is_proven a.status then 1 else 0))
      × (open_among (xs ++ a ∷ []) ≡ open_among xs + (if is_proven a.status then 0 else 1))
among-append [] a = (omega arith, omega arith)
among-append (x ∷ xs) a = let (p, o) = among-append xs a in (omega arith, omega arith)

abbrev is_some : {P : Type 0} → Option P → Bool
is_some none = false
is_some (some p) = true

-- The certificate is the answer of the search on the snapshot, with the status proven.
abbrev pub Proposed : {P : Type 0} → Search P → GraphSnapshot → P → Type 0
Proposed {P} prover g p =
    (e : Edge) × (device : ℤ) × (w : Wavefront P) × (prover.prove g e device ≡ ok w)
    × (is_proven w.status ≡ true)
    × (w.proof ≡ p)

-- An evaluation has a certificate exactly when its status says so, and it is the search's.
abbrev Told : {P : Type 0} → Search P → GraphSnapshot → HtTargetEvaluation P → Type 0
Told {P} prover g e =
    (is_some e.proven_proof ≡ is_proven e.attempt.status)
    × ((p : P) → e.proven_proof ≡ some p → Proposed prover g p)

proof_of-some :
    {P : Type 0} (status : SearchStatus) (q p : P)
    → proof_of (record { status = status; proof = q }) ≡ some p
    → (is_proven status ≡ true) × (q ≡ p)
proof_of-some proven q p h = (ground arith, ground arith)
proof_of-some unresolved q p h = absurd (ground arith)
proof_of-some invalid q p h = absurd (ground arith)

proof_of-Told :
    {P : Type 0} (status : SearchStatus) (p : P)
    → is_some (proof_of (record { status = status; proof = p })) ≡ is_proven status
proof_of-Told proven p = refl
proof_of-Told unresolved p = refl
proof_of-Told invalid p = refl

evaluate_ht_target-Told :
    {P : Type 0} (prover : Search P) (g : GraphSnapshot) (hash id : ℕ) (device : ℤ)
    (e : HtTargetEvaluation P)
    → evaluate_ht_target prover g hash id device ≡ ok e
    → Told prover g e
unfolding evaluate_ht_target
evaluate_ht_target-Told prover g hash id device e h =
    elim (Outcome-cases (prover.prove g (edge_or (edge_at g.edges (pos id))) device)) [
      | inr (x, bad) ↦ absurd (ground arith)
      | inl (w, searched) ↦
          let status : w.status ≡ e.attempt.status = ground arith in
          let found : proof_of w ≡ e.proven_proof = ground arith in
          (
            ap is_some (sym found) ∙ proof_of-Told w.status w.proof ∙ ap is_proven status,
            λ p has.
                let (good, same) = proof_of-some w.status w.proof p (found ∙ has) in
                (edge_or (edge_at g.edges (pos id)), device, w, searched, good, same),
          )
    ]

module _ (H : HtVerifier) (prover : Search H.HtProof) where
  -- After `n` more targets.
  abbrev Counted : GraphSnapshot → ℕ → Gathered H.HtProof → Gathered H.HtProof → Type 0
  Counted g n s s' =
      (length s'.attempts ≡ length s.attempts + n)
      × (s'.proven_targets + proven_among s.attempts ≡ s.proven_targets + proven_among s'.attempts)
      × (s'.unresolved_targets + open_among s.attempts
          ≡ s.unresolved_targets + open_among s'.attempts)
      × (length s'.proofs + s.proven_targets ≡ length s.proofs + s'.proven_targets)
      × (s'.proven_targets + s'.unresolved_targets ≡ s.proven_targets + s.unresolved_targets + n)
      × (All (Proposed prover g) s.proofs → All (Proposed prover g) s'.proofs)

  consume-Counted :
      (g : GraphSnapshot) (e : HtTargetEvaluation H.HtProof) (s s' : Gathered H.HtProof)
      → Told prover g e
      → consume H prover g e s ≡ ok s'
      → Counted g 1 s s'
  unfolding consume
  consume-Counted g e s s' told h =
      let one = length-append s.attempts (e.attempt ∷ []) in
      let (p, o) = among-append s.attempts e.attempt in
      elim (Option-cases e.proven_proof) [
        | inl nothing ↦
            let attempts : s.attempts ++ e.attempt ∷ [] ≡ s'.attempts = ground arith in
            let longer : length (s.attempts ++ e.attempt ∷ []) ≡ length s'.attempts =
              ap length attempts in
            let p' : proven_among (s.attempts ++ e.attempt ∷ []) ≡ proven_among s'.attempts =
              ap proven_among attempts in
            let o' : open_among (s.attempts ++ e.attempt ∷ []) ≡ open_among s'.attempts =
              ap open_among attempts in
            let status : is_proven e.attempt.status ≡ false = sym told.0 ∙ ap is_some nothing in
            let proofs : s.proofs ≡ s'.proofs = ground arith in
            let same : length s.proofs ≡ length s'.proofs = ap length proofs in
            let pt : s'.proven_targets ≡ s.proven_targets = ground arith in
            let ut : s'.unresolved_targets ≡ s.unresolved_targets + 1 = ground arith in
            (
              omega arith,
              ground arith,
              ground arith,
              omega arith,
              omega arith,
              λ all. subst (All (Proposed prover g)) proofs all,
            )
        | inr (q, some_proof) ↦ elim (Outcome-cases (H.verify g q)) [
          | inr (x, bad) ↦ absurd (ground arith)
          | inl (false, bad) ↦ absurd (ground arith)
          | inl (true, fine) ↦
              let attempts : s.attempts ++ e.attempt ∷ [] ≡ s'.attempts = ground arith in
              let longer : length (s.attempts ++ e.attempt ∷ []) ≡ length s'.attempts =
                ap length attempts in
              let p' : proven_among (s.attempts ++ e.attempt ∷ []) ≡ proven_among s'.attempts =
                ap proven_among attempts in
              let o' : open_among (s.attempts ++ e.attempt ∷ []) ≡ open_among s'.attempts =
                ap open_among attempts in
              let status : is_proven e.attempt.status ≡ true = sym told.0 ∙ ap is_some some_proof in
              let proofs : s.proofs ++ q ∷ [] ≡ s'.proofs = ground arith in
              let more : length (s.proofs ++ q ∷ []) ≡ length s'.proofs = ap length proofs in
              let one' = length-append s.proofs (q ∷ []) in
              let pt : s'.proven_targets ≡ s.proven_targets + 1 = ground arith in
              let ut : s'.unresolved_targets ≡ s.unresolved_targets = ground arith in
              (
                omega arith,
                ground arith,
                ground arith,
                omega arith,
                omega arith,
                λ all. subst (All (Proposed prover g)) proofs (
                    All-append (Proposed prover g) s.proofs (q ∷ []) all (told.1 q some_proof, tt)),
              )
        ]
      ]

  Counted-step :
      (g : GraphSnapshot) (n : ℕ) (s s' s'' : Gathered H.HtProof)
      → Counted g 1 s s'
      → Counted g n s' s''
      → Counted g (suc n) s s''
  Counted-step g n s s' s'' (a, b, c, d, e, f) (a', b', c', d', e', f') =
      (omega arith, omega arith, omega arith, omega arith, omega arith, λ all. f' (f all))

  Counted-none : (g : GraphSnapshot) (s : Gathered H.HtProof) → Counted g 0 s s
  Counted-none g s = (omega arith, omega arith, omega arith, omega arith, omega arith, λ all. all)

  consume_all-Counted :
      (g : GraphSnapshot) (es : List (HtTargetEvaluation H.HtProof)) (s s' : Gathered H.HtProof)
      → All (Told prover g) es
      → consume_all H prover g es s ≡ ok s'
      → Counted g (length es) s s'
  unfolding consume_all
  consume_all-Counted g [] s s' told h =
      let same : s ≡ s' = cc in subst (Counted g 0 s) same (Counted-none g s)
  consume_all-Counted g (e ∷ es) s s' (now_told, told) h =
      elim (Outcome-cases (consume H prover g e s)) [
        | inr (x, bad) ↦ absurd (ground arith)
        | inl (s1, now) ↦
            Counted-step g (length es) s s1 s' (consume-Counted g e s s1 now_told now)
              (consume_all-Counted g es s1 s' told (ground arith))
      ]

  scan_serial-Counted :
      (g : GraphSnapshot) (hash : ℕ) (ids : List ℕ) (s s' : Gathered H.HtProof)
      → scan_serial H prover g hash ids s ≡ ok s'
      → Counted g (length ids) s s'
  unfolding scan_serial
  scan_serial-Counted g hash [] s s' h =
      let same : s ≡ s' = cc in subst (Counted g 0 s) same (Counted-none g s)
  scan_serial-Counted g hash (id ∷ ids) s s' h =
      elim (Outcome-cases (evaluate_ht_target prover g hash id (negsuc 0))) [
        | inr (x, bad) ↦ absurd (ground arith)
        | inl (e, evaluated) ↦ elim (Outcome-cases (consume H prover g e s)) [
          | inr (x, bad) ↦ absurd (ground arith)
          | inl (s1, now) ↦
              Counted-step g (length ids) s s1 s'
                (consume-Counted g e s s1
                  (evaluate_ht_target-Told prover g hash id (negsuc 0) e evaluated) now)
                (scan_serial-Counted g hash ids s1 s' (ground arith))
        ]
      ]

  evaluate_in_order-length :
      (g : GraphSnapshot) (hash : ℕ) (devices : List ℤ) (workers relative : ℕ) (ids : List ℕ)
      (es : List (HtTargetEvaluation H.HtProof))
      → evaluate_in_order prover g hash devices workers relative ids ≡ ok es
      → (length es ≡ length ids) × All (Told prover g) es
  unfolding evaluate_in_order
  evaluate_in_order-length g hash devices workers relative [] es h =
      let same : [] ≡ es = cc in
      let e : 0 ≡ length es = ap length same in (omega arith, subst (All (Told prover g)) same tt)
  evaluate_in_order-length g hash devices workers relative (id ∷ ids) es h =
      elim (Outcome-cases (
        evaluate_ht_target prover g hash id
          (device_of prover g hash devices workers (relative % workers)))) [
            | inr (x, bad) ↦ absurd (ground arith)
            | inl (e, now) ↦
                elim (Outcome-cases
                  (evaluate_in_order prover g hash devices workers (suc relative) ids)) [
                    | inr (x, bad) ↦ absurd (ground arith)
                    | inl (es', later) ↦
                        let (rest, told) =
                          evaluate_in_order-length g hash devices workers (suc relative) ids es'
                            later in
                        let same : e ∷ es' ≡ es = ground arith in
                        let size : suc (length es') ≡ length es = ap length same in
                        let now_told =
                          evaluate_ht_target-Told prover g hash id
                            (device_of prover g hash devices workers (relative % workers)) e now in
                        (omega arith, subst (All (Told prover g)) same (now_told, told))
                  ]
          ]

  scan_slice-Counted :
      (g : GraphSnapshot) (hash : ℕ) (devices : List ℤ) (ids : List ℕ) (s : Gathered H.HtProof)
      → scan_slice H prover g hash devices ids ≡ ok s
      → Counted g (length ids) (nothing_gathered H prover) s
  unfolding scan_slice
  scan_slice-Counted g hash [] ids s h =
      scan_serial-Counted g hash ids (nothing_gathered H prover) s h
  scan_slice-Counted g hash (d ∷ ds) [] s h =
      let same : nothing_gathered H prover ≡ s = ground arith in
      subst (Counted g 0 (nothing_gathered H prover)) same
        (Counted-none g (nothing_gathered H prover))
  scan_slice-Counted g hash (d ∷ ds) (id ∷ ids) s h =
      let workers = worker_count H prover (d ∷ ds) (length (id ∷ ids)) in
      elim (Outcome-cases (evaluate_parallel prover g hash (d ∷ ds) workers (id ∷ ids))) [
        | inr (x, bad) ↦ absurd (ground arith)
        | inl (es, evaluated) ↦
            let ordered =
              evaluate_parallel-in_order prover g hash (d ∷ ds) workers (id ∷ ids) es (ground arith)
                evaluated in
            let (size, told) =
              evaluate_in_order-length g hash (d ∷ ds) workers 0 (id ∷ ids) es ordered in
            subst (λ n. Counted g n (nothing_gathered H prover) s) size
              (consume_all-Counted g es (nothing_gathered H prover) s told (ground arith))
      ]

take-drop-length :
    (offset count : ℕ) (xs : List ℕ)
    → offset + count ≤ length xs
    → length (take count (drop offset xs)) ≡ count
take-drop-length zero zero xs le = refl
take-drop-length zero (suc count) [] le = absurd (omega arith)
take-drop-length zero (suc count) (x ∷ xs) le =
    ap suc (take-drop-length zero count xs (omega arith))
take-drop-length (suc offset) count [] le = absurd (omega arith)
take-drop-length (suc offset) count (x ∷ xs) le = take-drop-length offset count xs (omega arith)

-- When RunHtScanEpoch returns, its offset is at most the number of eligible targets, it has attempted
-- as many targets as max_targets and the rest of the list allow, proven_targets is the number of
-- attempts whose status is proven, unresolved_targets that of the other attempts, and each attempt is
-- in one of the two counts.
pub run_ht_scan_epoch_counts :
    (H : HtVerifier) (prover : Search H.HtProof) (g : GraphSnapshot) (options : HtScanOptions)
    (scan : HtScanResult H.HtProof)
    → (run_ht_scan_epoch H prover g options).1 ≡ ok scan
    → (scan.target_offset ≤ scan.eligible_targets)
      × (length scan.attempts
          ≡ minimum options.max_targets (scan.eligible_targets - scan.target_offset))
      × (scan.proven_targets ≡ proven_among scan.attempts)
      × (scan.unresolved_targets ≡ open_among scan.attempts)
      × (scan.proven_targets + scan.unresolved_targets ≡ length scan.attempts)
unfolding run_ht_scan_epoch scan_targets bind_ht_graph
run_ht_scan_epoch_counts H prover g options scan h =
    elim (Outcome-cases (validate_target_devices prover.visible_devices options.target_devices)) [
      | inr (x, bad) ↦ absurd (ground arith)
      | inl (tt, valid) ↦ elim (Outcome-cases (select_ht_target_edge_ids g options.target_order)) [
        | inr (x, bad) ↦ absurd (ground arith)
        | inl (targets, selected) ↦
            let count = minimum options.max_targets (length targets - options.target_offset) in
            let ids = take count (drop options.target_offset targets) in
            elim (Outcome-cases
              (scan_slice H prover g (content_hash g) options.target_devices ids)) [
                | inr (x, bad) ↦ absurd (ground arith)
                | inl (gathered, ran) ↦
                    elim (Outcome-cases (commit_ht_proof_epoch H g gathered.proofs).1) [
                      | inr (x, bad) ↦ absurd (ground arith)
                      | inl (result, committed) ↦
                          let fits : options.target_offset ≤ length targets = ground arith in
                          let (attempts, some_proven, some_open, _, all_counted, _) =
                            scan_slice-Counted H prover g (content_hash g) options.target_devices
                              ids gathered ran in
                          let size =
                            take-drop-length options.target_offset count targets (ground arith) in
                          let e1 : length targets ≡ scan.eligible_targets = ground arith in
                          let e2 : options.target_offset ≡ scan.target_offset = ground arith in
                          let e3 : gathered.attempts ≡ scan.attempts = ground arith in
                          let e4 : length gathered.attempts ≡ length scan.attempts = ap length e3 in
                          let e5 : gathered.proven_targets ≡ scan.proven_targets = ground arith in
                          let e6 : gathered.unresolved_targets ≡ scan.unresolved_targets =
                            ground arith in
                          let e7 : proven_among gathered.attempts ≡ proven_among scan.attempts =
                            ap proven_among e3 in
                          let e8 : open_among gathered.attempts ≡ open_among scan.attempts =
                            ap open_among e3 in
                          (omega arith, ground arith, omega arith, omega arith, omega arith)
                    ]
              ]
      ]
    ]

pub scan_targets-Proposed :
    (H : HtVerifier) (prover : Search H.HtProof) (g : GraphSnapshot) (options : HtScanOptions)
    (out : ℕ × ℕ × Gathered H.HtProof)
    → scan_targets H prover g options ≡ ok out
    → All (Proposed prover g) out.2.proofs
unfolding scan_targets bind_ht_graph
scan_targets-Proposed H prover g options out h =
    elim (Outcome-cases (validate_target_devices prover.visible_devices options.target_devices)) [
      | inr (x, bad) ↦ absurd (ground arith)
      | inl (tt, valid) ↦ elim (Outcome-cases (select_ht_target_edge_ids g options.target_order)) [
        | inr (x, bad) ↦ absurd (ground arith)
        | inl (targets, selected) ↦
            let count = minimum options.max_targets (length targets - options.target_offset) in
            let ids = take count (drop options.target_offset targets) in
            elim (Outcome-cases
              (scan_slice H prover g (content_hash g) options.target_devices ids)) [
                | inr (x, bad) ↦ absurd (ground arith)
                | inl (gathered, ran) ↦
                    let (_, _, _, _, _, proposed) =
                      scan_slice-Counted H prover g (content_hash g) options.target_devices ids
                        gathered ran in
                    let same : gathered ≡ out.2 = ground arith in
                    subst (λ s. All (Proposed prover g) s.proofs) same (proposed tt)
              ]
      ]
    ]
