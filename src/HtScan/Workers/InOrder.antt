-- ===== src/HtScan/Workers/InOrder.antt =====
-- The slots that the target workers of RunHtScanEpoch (src/cpu/ht_scan.cpp) leave, against evaluating
-- the targets in order.
use cuda_edge_elimination.Base.{
  ℕ, zero, suc, ◌%◌, ◌≡◌, ◌<◌, ◌≤◌, refl, inl, inr, List, [], ◌∷◌, Bool, true, false, arith,
  Bool-cases, subst, ◌==◌, ◌&&◌, length,
}
use cuda_edge_elimination.Base.Int.{ℤ}
use cuda_edge_elimination.Base.Outcome.{ok, Outcome-cases}
use cuda_edge_elimination.Graph.{GraphSnapshot}
use cuda_edge_elimination.HtScan.{Search, HtTargetEvaluation, evaluate_ht_target}
use cuda_edge_elimination.HtScan.Workers.{
  Slot, idle, done, failed, device_of, run_worker, unbound, worker_slots, merge, joined, collect,
  evaluate_parallel, evaluate_in_order,
}

module _ {P : Type 0} (search : Search P) (g : GraphSnapshot) (hash : ℕ) (devices : List ℤ)
    (workers : ℕ) where
  -- A finished slot holds what its target evaluates to on the device of its worker.
  abbrev HonestAt : ℕ → ℕ → Slot P → Type 0
  HonestAt relative id idle = Unit {0}
  HonestAt relative id (failed e) = Unit {0}
  HonestAt relative id (done e) =
      evaluate_ht_target search g hash id
        (device_of search g hash devices workers (relative % workers))
      ≡ ok e

  abbrev Honest : ℕ → List ℕ → List (Slot P) → Type 0
  Honest relative ids [] = Unit {0}
  Honest relative [] (s ∷ ss) = ⊥
  Honest relative (id ∷ ids) (s ∷ ss) = HonestAt relative id s × Honest (suc relative) ids ss

  run_worker-Honest :
      (worker : ℕ) (alive : Bool) (relative : ℕ) (ids : List ℕ)
      → Honest relative ids (run_worker search g hash devices workers worker alive relative ids)
  unfolding run_worker
  run_worker-Honest worker alive relative [] = tt
  run_worker-Honest worker alive relative (id ∷ ids) =
      elim (Bool-cases (alive && (relative % workers == worker))) [
        | inr other ↦ rw other (tt, run_worker-Honest worker alive (suc relative) ids)
        | inl mine ↦
            elim (Outcome-cases (
              evaluate_ht_target search g hash id
                (device_of search g hash devices workers worker))) [
                  | inl (e, good) ↦
                      let same : worker ≡ relative % workers = ground arith in
                      rw (mine, good)
                        (
                          subst
                              (λ k.
                                evaluate_ht_target search g hash id
                                  (device_of search g hash devices workers k)
                                ≡ ok e)
                              same good,
                          run_worker-Honest worker alive (suc relative) ids,
                        )
                  | inr (e, bad) ↦
                      rw (mine, bad) (tt, run_worker-Honest worker false (suc relative) ids)
                ]
      ]

  unbound-Honest :
      (worker relative : ℕ) (ids : List ℕ)
      → Honest relative ids (unbound search g hash devices workers worker relative ids)
  unfolding unbound
  unbound-Honest worker relative [] = tt
  unbound-Honest worker relative (id ∷ ids) = elim (Bool-cases (relative == worker)) [
    | inl mine ↦ rw mine (tt, unbound-Honest worker (suc relative) ids)
    | inr other ↦ rw other (tt, unbound-Honest worker (suc relative) ids)
  ]

  worker_slots-Honest :
      (worker : ℕ) (ids : List ℕ)
      → Honest 0 ids (worker_slots search g hash devices workers worker ids)
  unfolding worker_slots
  worker_slots-Honest worker ids =
      elim (Bool-cases (search.bind_device (device_of search g hash devices workers worker))) [
        | inl bound ↦ rw bound (run_worker-Honest worker true 0 ids)
        | inr free ↦ rw free (unbound-Honest worker 0 ids)
      ]

  merge-Honest :
      (relative : ℕ) (ids : List ℕ) (xs ys : List (Slot P))
      → Honest relative ids xs
      → Honest relative ids ys
      → Honest relative ids (merge search g hash devices workers xs ys)
  unfolding merge
  merge-Honest relative ids [] ys hx hy = hy
  merge-Honest relative ids (x ∷ xs) [] hx hy = hx
  merge-Honest relative [] (x ∷ xs) (y ∷ ys) hx hy = absurd hx
  merge-Honest relative (id ∷ ids) (idle ∷ xs) (y ∷ ys) (a, hx) (b, hy) =
      (b, merge-Honest (suc relative) ids xs ys hx hy)
  merge-Honest relative (id ∷ ids) (done e ∷ xs) (y ∷ ys) (a, hx) (b, hy) =
      (a, merge-Honest (suc relative) ids xs ys hx hy)
  merge-Honest relative (id ∷ ids) (failed e ∷ xs) (y ∷ ys) (a, hx) (b, hy) =
      (tt, merge-Honest (suc relative) ids xs ys hx hy)

  joined-Honest :
      (count : ℕ) (ids : List ℕ) → Honest 0 ids (joined search g hash devices workers count ids)
  unfolding joined
  joined-Honest zero ids = tt
  joined-Honest (suc count) ids =
      merge-Honest 0 ids (joined search g hash devices workers count ids)
        (worker_slots search g hash devices workers count ids) (joined-Honest count ids)
        (worker_slots-Honest count ids)

  -- Every worker has a slot for every target.
  run_worker-length :
      (worker : ℕ) (alive : Bool) (relative : ℕ) (ids : List ℕ)
      → length (run_worker search g hash devices workers worker alive relative ids) ≡ length ids
  unfolding run_worker
  run_worker-length worker alive relative [] = refl
  run_worker-length worker alive relative (id ∷ ids) =
      let on = run_worker-length worker alive (suc relative) ids in
      let off = run_worker-length worker false (suc relative) ids in ground arith

  unbound-length :
      (worker relative : ℕ) (ids : List ℕ)
      → length (unbound search g hash devices workers worker relative ids) ≡ length ids
  unfolding unbound
  unbound-length worker relative [] = refl
  unbound-length worker relative (id ∷ ids) =
      let rest = unbound-length worker (suc relative) ids in ground arith

  merge-length :
      (xs ys : List (Slot P)) → length ys ≤ length (merge search g hash devices workers xs ys)
  unfolding merge
  merge-length [] ys = omega arith
  merge-length (x ∷ xs) [] = omega arith
  merge-length (idle ∷ xs) (y ∷ ys) = let h = merge-length xs ys in omega arith
  merge-length (done e ∷ xs) (y ∷ ys) = let h = merge-length xs ys in omega arith
  merge-length (failed e ∷ xs) (y ∷ ys) = let h = merge-length xs ys in omega arith

  joined-length :
      (count : ℕ) (ids : List ℕ)
      → 0 < count
      → length ids ≤ length (joined search g hash devices workers count ids)
  unfolding joined worker_slots
  joined-length zero ids lt = absurd (omega arith)
  joined-length (suc count) ids lt =
      let slots = worker_slots search g hash devices workers count ids in
      let on = run_worker-length count true 0 ids in
      let off = unbound-length count 0 ids in
      let all : length slots ≡ length ids = ground arith in
      let grown = merge-length (joined search g hash devices workers count ids) slots in omega arith

  collect-in_order :
      (relative : ℕ) (ids : List ℕ) (ss : List (Slot P)) (es : List (HtTargetEvaluation P))
      → Honest relative ids ss
      → length ids ≤ length ss
      → collect search g hash devices workers ss ≡ ok es
      → evaluate_in_order search g hash devices workers relative ids ≡ ok es
  unfolding collect evaluate_in_order
  collect-in_order relative [] [] es h le c = c
  collect-in_order relative [] (s ∷ ss) es h le c = absurd h
  collect-in_order relative (id ∷ ids) [] es h le c = absurd (omega arith)
  collect-in_order relative (id ∷ ids) (idle ∷ ss) es h le c = absurd (ground arith)
  collect-in_order relative (id ∷ ids) (failed e ∷ ss) es h le c = absurd (ground arith)
  collect-in_order relative (id ∷ ids) (done e ∷ ss) es (now, h) le c =
      elim (Outcome-cases (collect search g hash devices workers ss)) [
        | inr (x, bad) ↦ absurd (ground arith)
        | inl (es', later) ↦
            let rest = collect-in_order (suc relative) ids ss es' h (omega arith) later in
            ground arith
      ]

  -- When the target workers return, they return what evaluating the targets one after the other
  -- returns, each on the device of its worker: no interleaving of the workers shows in the result.
  pub evaluate_parallel-in_order :
      (ids : List ℕ) (es : List (HtTargetEvaluation P))
      → 0 < workers
      → evaluate_parallel search g hash devices workers ids ≡ ok es
      → evaluate_in_order search g hash devices workers 0 ids ≡ ok es
  unfolding evaluate_parallel
  evaluate_parallel-in_order ids es some h =
      collect-in_order 0 ids (joined search g hash devices workers workers ids) es
        (joined-Honest workers ids) (joined-length workers ids some) (ground arith)
