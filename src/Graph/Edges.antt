-- ===== src/Graph/Edges.antt =====
-- The active edges as a relation between vertices, and the slots of a row that stand for them.
use cuda_edge_elimination.Base.{ℕ, suc, ◌≡◌, ◌⊎◌, inl, inr, List, [], ◌∷◌, ◌++◌, true, arith, subst}
use cuda_edge_elimination.Types.{Edge}
use cuda_edge_elimination.Base.Outcome.{ok}
use cuda_edge_elimination.Distance.{FloatOps}
use cuda_edge_elimination.Distance.Rounding.{FloatLaws}
use cuda_edge_elimination.Graph.{GraphSnapshot, Slot, distance}
use cuda_edge_elimination.Graph.Metric.{metric, metric_comm, metric_of, WeightsMatch}
use cuda_edge_elimination.Graph.Offsets.{edge_slots, incident}

abbrev pub Joins : Edge → ℕ → ℕ → Type 0
Joins e a b = ((e.u ≡ a) × (e.v ≡ b)) ⊎ ((e.u ≡ b) × (e.v ≡ a))

-- Some active edge joins `a` and `b`.
abbrev pub Adjacent : List Edge → ℕ → ℕ → Type 0
Adjacent [] a b = ⊥
Adjacent (e ∷ es) a b = ((e.active ≡ true) × Joins e a b) ⊎ Adjacent es a b

-- Some slot names the neighbour `w` with the weight `x`.
abbrev pub HasSlot : List Slot → ℕ → ℕ → Type 0
HasSlot [] w x = ⊥
HasSlot (s ∷ slots) w x = ((s.neighbor ≡ w) × (s.weight ≡ x)) ⊎ HasSlot slots w x

pub Adjacent-comm : (es : List Edge) (a b : ℕ) → Adjacent es a b → Adjacent es b a
Adjacent-comm [] a b h = elim h [ ]
Adjacent-comm (e ∷ es) a b (inl (on, inl j)) = inl (on, inr j)
Adjacent-comm (e ∷ es) a b (inl (on, inr j)) = inl (on, inl j)
Adjacent-comm (e ∷ es) a b (inr h) = inr (Adjacent-comm es a b h)

HasSlot-append_left : (xs ys : List Slot) (w x : ℕ) → HasSlot xs w x → HasSlot (xs ++ ys) w x
HasSlot-append_left [] ys w x h = elim h [ ]
HasSlot-append_left (s ∷ xs) ys w x (inl h) = inl h
HasSlot-append_left (s ∷ xs) ys w x (inr h) = inr (HasSlot-append_left xs ys w x h)

HasSlot-append_right : (xs ys : List Slot) (w x : ℕ) → HasSlot ys w x → HasSlot (xs ++ ys) w x
HasSlot-append_right [] ys w x h = h
HasSlot-append_right (s ∷ xs) ys w x h = inr (HasSlot-append_right xs ys w x h)

edge_slots-HasSlot :
    (id : ℕ) (e : Edge) (a b : ℕ)
    → e.active ≡ true
    → Joins e a b
    → HasSlot (edge_slots id e a) b e.weight
unfolding edge_slots
edge_slots-HasSlot id e a b on j = ground arith

module _ (fp : FloatOps) (g : GraphSnapshot) (laws : FloatLaws fp) where
  joined_metric :
      (e : Edge) (a b : ℕ)
      → distance fp g e.u e.v ≡ ok e.weight
      → Joins e a b
      → e.weight ≡ metric fp g a b
  joined_metric e a b d (inl (ua, vb)) = let m = metric_of fp g e.u e.v e.weight d in cc
  joined_metric e a b d (inr (ub, va)) =
      let m = metric_of fp g e.u e.v e.weight d in let turned = metric_comm fp g laws a b in cc

  -- The row of a vertex has a slot for each neighbour, with the distance as its weight.
  pub incident-HasSlot :
      (id : ℕ) (es : List Edge) (a b : ℕ)
      → WeightsMatch fp g es
      → Adjacent es a b
      → HasSlot (incident id es a) b (metric fp g a b)
  unfolding incident
  incident-HasSlot id [] a b ws h = elim h [ ]
  incident-HasSlot id (e ∷ es) a b (d, ws) (inl (on, j)) =
      HasSlot-append_left (edge_slots id e a) (incident (suc id) es a) b (metric fp g a b) (
        subst (HasSlot (edge_slots id e a) b) (joined_metric e a b d j)
          (edge_slots-HasSlot id e a b on j))
  incident-HasSlot id (e ∷ es) a b (d, ws) (inr h) =
      HasSlot-append_right (edge_slots id e a) (incident (suc id) es a) b (metric fp g a b)
        (incident-HasSlot (suc id) es a b ws h)
