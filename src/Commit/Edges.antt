-- ===== src/Commit/Edges.antt =====
-- Switching edges off (src/cpu/elimination_commit.cpp): the ends, the weights and the order of the
-- edges stay, and only the named edges leave the graph.
use cuda_edge_elimination.Base.{
  ℕ, zero, suc, ◌<◌, ◌≡◌, ◌≢◌, refl, sym, inl, inr, List, [], ◌∷◌, some, subst,
}
use cuda_edge_elimination.Base.Int.{ℤ, pos, negsuc}
use cuda_edge_elimination.Types.{Edge, Candidate}
use cuda_edge_elimination.Distance.{FloatOps}
use cuda_edge_elimination.Graph.{GraphSnapshot}
use cuda_edge_elimination.Graph.Metric.{WeightsMatch}
use cuda_edge_elimination.Graph.Offsets.{InRange}
use cuda_edge_elimination.Graph.Order.{SortedEdges, BeforeAll}
use cuda_edge_elimination.Graph.Edges.{Adjacent, Joins}
use cuda_edge_elimination.Jv.{edge_at}
use cuda_edge_elimination.Commit.{switch_off, deactivate_at, deactivate}

BeforeAll-deactivate_at :
    (e : Edge) (es : List Edge) (id : ℤ) → BeforeAll e es → BeforeAll e (deactivate_at es id)
unfolding deactivate_at
BeforeAll-deactivate_at e [] id h = tt
BeforeAll-deactivate_at e (f ∷ fs) (pos zero) (first, h) = (first, h)
BeforeAll-deactivate_at e (f ∷ fs) (pos (suc i)) (first, h) =
    (first, BeforeAll-deactivate_at e fs (pos i) h)
BeforeAll-deactivate_at e (f ∷ fs) (negsuc i) h = h

-- Every candidate of a list satisfies a predicate.
abbrev pub Every {ℓ} : (Candidate → Type ℓ) → List Candidate → Type ℓ
Every P [] = Unit
Every P (c ∷ cs) = P c × Every P cs

-- Every candidate names an edge of the list.
abbrev pub Named : List Edge → List Candidate → Type 0
Named es = Every (λ c. (e : Edge) × (edge_at es c.edge_id ≡ some e))

BeforeAll-switch_off : (e : Edge) (es : List Edge) → BeforeAll e es → BeforeAll (switch_off e) es
unfolding switch_off
BeforeAll-switch_off e [] h = tt
BeforeAll-switch_off e (f ∷ fs) (first, h) = (first, BeforeAll-switch_off e fs h)

SortedEdges-deactivate_at :
    (es : List Edge) (id : ℤ) → SortedEdges es → SortedEdges (deactivate_at es id)
unfolding deactivate_at
SortedEdges-deactivate_at [] id h = tt
SortedEdges-deactivate_at (e ∷ es) (pos zero) (lt, before, h) =
    (lt, BeforeAll-switch_off e es before, h)
SortedEdges-deactivate_at (e ∷ es) (pos (suc i)) (lt, before, h) =
    (lt, BeforeAll-deactivate_at e es (pos i) before, SortedEdges-deactivate_at es (pos i) h)
SortedEdges-deactivate_at (e ∷ es) (negsuc i) h = h

InRange-deactivate_at :
    (n : ℕ) (es : List Edge) (id : ℤ) → InRange n es → InRange n (deactivate_at es id)
unfolding deactivate_at
InRange-deactivate_at n [] id h = tt
InRange-deactivate_at n (e ∷ es) (pos zero) h = h
InRange-deactivate_at n (e ∷ es) (pos (suc i)) (hu, hv, ne, h) =
    (hu, hv, ne, InRange-deactivate_at n es (pos i) h)
InRange-deactivate_at n (e ∷ es) (negsuc i) h = h

WeightsMatch-deactivate_at :
    (fp : FloatOps) (g : GraphSnapshot) (es : List Edge) (id : ℤ)
    → WeightsMatch fp g es
    → WeightsMatch fp g (deactivate_at es id)
unfolding deactivate_at
WeightsMatch-deactivate_at fp g [] id h = tt
WeightsMatch-deactivate_at fp g (e ∷ es) (pos zero) h = h
WeightsMatch-deactivate_at fp g (e ∷ es) (pos (suc i)) (d, h) =
    (d, WeightsMatch-deactivate_at fp g es (pos i) h)
WeightsMatch-deactivate_at fp g (e ∷ es) (negsuc i) h = h

pub SortedEdges-deactivate :
    (es : List Edge) (cs : List Candidate) → SortedEdges es → SortedEdges (deactivate es cs)
unfolding deactivate
SortedEdges-deactivate es [] h = h
SortedEdges-deactivate es (c ∷ cs) h =
    SortedEdges-deactivate (deactivate_at es c.edge_id) cs
      (SortedEdges-deactivate_at es c.edge_id h)

pub InRange-deactivate :
    (n : ℕ) (es : List Edge) (cs : List Candidate) → InRange n es → InRange n (deactivate es cs)
unfolding deactivate
InRange-deactivate n es [] h = h
InRange-deactivate n es (c ∷ cs) h =
    InRange-deactivate n (deactivate_at es c.edge_id) cs (InRange-deactivate_at n es c.edge_id h)

pub WeightsMatch-deactivate :
    (fp : FloatOps) (g : GraphSnapshot) (es : List Edge) (cs : List Candidate)
    → WeightsMatch fp g es
    → WeightsMatch fp g (deactivate es cs)
unfolding deactivate
WeightsMatch-deactivate fp g es [] h = h
WeightsMatch-deactivate fp g es (c ∷ cs) h =
    WeightsMatch-deactivate fp g (deactivate_at es c.edge_id) cs
      (WeightsMatch-deactivate_at fp g es c.edge_id h)

-- Two lists of edges with the same ends in the same order.
abbrev pub SameEnds : List Edge → List Edge → Type 0
SameEnds [] [] = Unit {0}
SameEnds [] (f ∷ fs) = ⊥
SameEnds (e ∷ es) [] = ⊥
SameEnds (e ∷ es) (f ∷ fs) = (e.u ≡ f.u) × (e.v ≡ f.v) × SameEnds es fs

pub SameEnds-refl : (es : List Edge) → SameEnds es es
SameEnds-refl [] = tt
SameEnds-refl (e ∷ es) = (refl, refl, SameEnds-refl es)

pub SameEnds-sym : (es fs : List Edge) → SameEnds es fs → SameEnds fs es
SameEnds-sym [] [] h = tt
SameEnds-sym [] (f ∷ fs) h = h
SameEnds-sym (e ∷ es) [] h = h
SameEnds-sym (e ∷ es) (f ∷ fs) (u, v, h) = (sym u, sym v, SameEnds-sym es fs h)

pub SameEnds-deactivate_at :
    (es fs : List Edge) (id : ℤ) → SameEnds es fs → SameEnds es (deactivate_at fs id)
unfolding deactivate_at
SameEnds-deactivate_at [] [] id h = tt
SameEnds-deactivate_at [] (f ∷ fs) id h = elim h [ ]
SameEnds-deactivate_at (e ∷ es) [] id h = h
SameEnds-deactivate_at (e ∷ es) (f ∷ fs) (pos zero) h = h
SameEnds-deactivate_at (e ∷ es) (f ∷ fs) (pos (suc i)) (u, v, h) =
    (u, v, SameEnds-deactivate_at es fs (pos i) h)
SameEnds-deactivate_at (e ∷ es) (f ∷ fs) (negsuc i) h = h

pub SameEnds-edge_at :
    (es fs : List Edge) (id : ℤ) (f : Edge)
    → SameEnds es fs
    → edge_at fs id ≡ some f
    → (e : Edge) × (edge_at es id ≡ some e) × (e.u ≡ f.u) × (e.v ≡ f.v)
SameEnds-edge_at es fs (negsuc i) f h at = absurd (cc)
SameEnds-edge_at [] [] (pos i) f h at = absurd (cc)
SameEnds-edge_at [] (x ∷ fs) (pos i) f h at = elim h [ ]
SameEnds-edge_at (e ∷ es) [] (pos i) f h at = elim h [ ]
SameEnds-edge_at (e ∷ es) (x ∷ fs) (pos zero) f (u, v, h) at = (e, refl, cc, cc)
SameEnds-edge_at (e ∷ es) (x ∷ fs) (pos (suc i)) f (u, v, h) at =
    SameEnds-edge_at es fs (pos i) f h at

-- An edge that is switched off disconnects nothing but its own ends.
pub Adjacent-deactivate_at :
    (es : List Edge) (id : ℤ) (a b : ℕ)
    → ((e : Edge) → edge_at es id ≡ some e → ¬ Joins e a b)
    → Adjacent es a b
    → Adjacent (deactivate_at es id) a b
unfolding deactivate_at
Adjacent-deactivate_at [] id a b other h = h
Adjacent-deactivate_at (e ∷ es) (pos zero) a b other (inl (on, j)) = absurd (other e refl j)
Adjacent-deactivate_at (e ∷ es) (pos zero) a b other (inr h) = inr h
Adjacent-deactivate_at (e ∷ es) (pos (suc i)) a b other (inl h) = inl h
Adjacent-deactivate_at (e ∷ es) (pos (suc i)) a b other (inr h) =
    inr (Adjacent-deactivate_at es (pos i) a b other h)
Adjacent-deactivate_at (e ∷ es) (negsuc i) a b other h = h

-- No edge comes back.
pub Adjacent-of_deactivate_at :
    (es : List Edge) (id : ℤ) (a b : ℕ) → Adjacent (deactivate_at es id) a b → Adjacent es a b
unfolding deactivate_at switch_off
Adjacent-of_deactivate_at [] id a b h = h
Adjacent-of_deactivate_at (e ∷ es) (pos zero) a b (inl (on, j)) = absurd (cc)
Adjacent-of_deactivate_at (e ∷ es) (pos zero) a b (inr h) = inr h
Adjacent-of_deactivate_at (e ∷ es) (pos (suc i)) a b (inl h) = inl h
Adjacent-of_deactivate_at (e ∷ es) (pos (suc i)) a b (inr h) =
    inr (Adjacent-of_deactivate_at es (pos i) a b h)
Adjacent-of_deactivate_at (e ∷ es) (negsuc i) a b h = h

pub edge_at-InRange :
    (n : ℕ) (es : List Edge) (id : ℤ) (e : Edge)
    → edge_at es id ≡ some e
    → InRange n es
    → (e.u < n) × (e.v < n) × (e.u ≢ e.v)
edge_at-InRange n es (negsuc i) e at h = absurd (cc)
edge_at-InRange n [] (pos i) e at h = absurd (cc)
edge_at-InRange n (x ∷ es) (pos zero) e at (hu, hv, ne, h) =
    let same : x ≡ e = cc in subst (λ y. (y.u < n) × (y.v < n) × (y.u ≢ y.v)) same (hu, hv, ne)
edge_at-InRange n (x ∷ es) (pos (suc i)) e at (_, _, _, h) = edge_at-InRange n es (pos i) e at h
