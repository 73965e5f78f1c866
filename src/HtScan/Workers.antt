-- ===== src/HtScan/Workers.antt =====
-- The target workers of RunHtScanEpoch (src/cpu/ht_scan.cpp). Worker k of n evaluates the targets
-- k, k + n, k + 2 n, … of the slice on its device, until one of them throws; every result has a slot of
-- its own. The workers share nothing that they write, so their runs are described one after the other.
pub mod InOrder
use cuda_edge_elimination.Base.{
  ℕ, zero, suc, ◌+◌, ◌-◌, ◌%◌, List, [], ◌∷◌, Bool, true, false, not, ◌&&◌, ◌==◌, if◌then◌else◌,
  length, get_or, ltb,
}
use cuda_edge_elimination.Base.Int.{ℤ, pos}
use cuda_edge_elimination.Base.Outcome.{Outcome, ok, err, Error, ◌>>=◌}
use cuda_edge_elimination.Graph.{GraphSnapshot}
use cuda_edge_elimination.HtScan.{Search, HtTargetEvaluation, evaluate_ht_target}

-- The two vectors `evaluations` and `failures` at one index.
pub data Slot (P : Type 0) : Type 0 where
  idle : Slot P
  done : HtTargetEvaluation P → Slot P
  failed : Error → Slot P

module _ {P : Type 0} (search : Search P) (g : GraphSnapshot) (hash : ℕ) (devices : List ℤ)
    (workers : ℕ) where
  abbrev pub device_of : ℕ → ℤ
  device_of worker = get_or devices worker (pos 0)

  -- What a worker that has got as far as the slot `relative` leaves in the slots from there on.
  unfoldable pub run_worker : ℕ → Bool → ℕ → List ℕ → List (Slot P)
  run_worker worker alive relative [] = []
  run_worker worker alive relative (id ∷ ids) =
      let on = run_worker worker alive (suc relative) ids in
      let off = run_worker worker false (suc relative) ids in
      if alive && (relative % workers == worker)
      then elim (evaluate_ht_target search g hash id (device_of worker)) [
        | ok e ↦ done e ∷ on
        | err e ↦ failed e ∷ off
      ]
      else idle ∷ on

  -- A worker whose device cannot be bound fails in the slot of its own number.
  unfoldable pub unbound : ℕ → ℕ → List ℕ → List (Slot P)
  unbound worker relative [] = []
  unbound worker relative (id ∷ ids) =
      let rest = unbound worker (suc relative) ids in
      if relative == worker then failed Error.runtime_error ∷ rest else idle ∷ rest

  unfoldable pub worker_slots : ℕ → List ℕ → List (Slot P)
  unfolding run_worker unbound
  worker_slots worker ids =
      if search.bind_device (device_of worker)
      then run_worker worker true 0 ids
      else unbound worker 0 ids

  unfoldable pub merge : List (Slot P) → List (Slot P) → List (Slot P)
  merge [] ys = ys
  merge (x ∷ xs) [] = x ∷ xs
  merge (idle ∷ xs) (y ∷ ys) = y ∷ merge xs ys
  merge (done e ∷ xs) (y ∷ ys) = done e ∷ merge xs ys
  merge (failed e ∷ xs) (y ∷ ys) = failed e ∷ merge xs ys

  -- The slots after the first `count` workers have been joined.
  unfoldable pub joined : ℕ → List ℕ → List (Slot P)
  unfolding worker_slots merge
  joined zero ids = []
  joined (suc count) ids = merge (joined count ids) (worker_slots count ids)

  -- The rethrow loop: the first failure in slot order.
  unfoldable pub rethrow : List (Slot P) → Outcome (Unit {0})
  rethrow [] = ok tt
  rethrow (idle ∷ xs) = rethrow xs
  rethrow (done e ∷ xs) = rethrow xs
  rethrow (failed e ∷ xs) = err e

  -- The evaluations, without the slots that are still empty when they are consumed.
  unfoldable pub collect : List (Slot P) → Outcome (List (HtTargetEvaluation P))
  collect [] = ok []
  collect (idle ∷ xs) = err Error.logic_error
  collect (failed e ∷ xs) = err Error.logic_error
  collect (done e ∷ xs) = collect xs >>= λ es. ok (e ∷ es)

  unfoldable pub evaluate_parallel : List ℕ → Outcome (List (HtTargetEvaluation P))
  unfolding joined rethrow collect
  evaluate_parallel ids = let slots = joined workers ids in rethrow slots >>= λ _. collect slots

  -- The same evaluations one after the other, each on the device of its worker.
  unfoldable pub evaluate_in_order : ℕ → List ℕ → Outcome (List (HtTargetEvaluation P))
  evaluate_in_order relative [] = ok []
  evaluate_in_order relative (id ∷ ids) = do
    e ← evaluate_ht_target search g hash id (device_of (relative % workers))
    es ← evaluate_in_order (suc relative) ids
    ok (e ∷ es)
