-- ===== src/Commit/Preserve.antt =====
-- A commit (src/cpu/elimination_commit.cpp) and the tours, distances and weights of the graph.
use mathlib.Core.Path.{fun_ext}
use cuda_edge_elimination.Base.{ℕ, ◌≡◌, sym, ap, ◌∙◌, inl, inr, List, [], ◌∷◌, some, subst}
use cuda_edge_elimination.Base.Outcome.{ok}
use cuda_edge_elimination.Types.{Edge, Candidate}
use cuda_edge_elimination.Distance.{FloatOps}
use cuda_edge_elimination.Graph.{GraphSnapshot, distance}
use cuda_edge_elimination.Graph.Metric.{WeightsMatch, metric, metric_cong}
use cuda_edge_elimination.Graph.Edges.{Adjacent, Joins}
use cuda_edge_elimination.Tours.{Along, AlongPath, Follows, Uses, closed}
use cuda_edge_elimination.Tours.Walk.{Along-intro, AlongPath-step}
use cuda_edge_elimination.Jv.{edge_at}
use cuda_edge_elimination.Commit.{commit_verified_candidates, deactivate, deactivate_at}
use cuda_edge_elimination.Commit.Edges.{
  Every, SameEnds, SameEnds-refl, SameEnds-edge_at, SameEnds-deactivate_at, Adjacent-deactivate_at,
  WeightsMatch-deactivate,
}
use cuda_edge_elimination.Commit.Result.{
  committed-Every, commit-edges, commit_parts, apply_committed-distance,
}

-- The tour does not pass along the edge that the candidate names.
abbrev pub Spares : List Edge → List ℕ → Candidate → Type 0
Spares es t c = (e : Edge) → edge_at es c.edge_id ≡ some e → ¬ Uses t e.u e.v

Uses-of_Joins :
    (t : List ℕ) (e : Edge) (a b : ℕ) → Follows (closed t) a b → Joins e a b → Uses t e.u e.v
Uses-of_Joins t e a b step (inl (u, v)) =
    inl (subst (λ x. Follows (closed t) x e.v) (sym u) (subst (Follows (closed t) a) (sym v) step))
Uses-of_Joins t e a b step (inr (u, v)) =
    inr (subst (λ x. Follows (closed t) x e.u) (sym v) (subst (Follows (closed t) a) (sym u) step))

Adjacent-deactivate :
    (t : List ℕ) (a b : ℕ) (es now : List Edge) (cs : List Candidate)
    → Follows (closed t) a b
    → SameEnds es now
    → Every (Spares es t) cs
    → Adjacent now a b
    → Adjacent (deactivate now cs) a b
unfolding deactivate
Adjacent-deactivate t a b es now [] step same spared h = h
Adjacent-deactivate t a b es now (c ∷ cs) step same (spare, spared) h =
    Adjacent-deactivate t a b es (deactivate_at now c.edge_id) cs step
      (SameEnds-deactivate_at es now c.edge_id same) spared
      (Adjacent-deactivate_at now c.edge_id a b other h)
  where
    other : (f : Edge) → edge_at now c.edge_id ≡ some f → ¬ Joins f a b
    other f at j =
        let (e, at', u, v) = SameEnds-edge_at es now c.edge_id f same at in
        let uses = Uses-of_Joins t f a b step j in
        spare e at' (subst (λ x. Uses t x e.v) (sym u) (subst (λ y. Uses t f.u y) (sym v) uses))

-- A tour along active edges that uses the edge of no candidate still runs along active edges after
-- a successful commit of the candidates.
pub commit-Along :
    (g : GraphSnapshot) (candidates : List Candidate) (hash : ℕ) (g' : GraphSnapshot)
    (committed : List Candidate) (t : List ℕ)
    → commit_verified_candidates g candidates hash ≡ ok (g', committed)
    → Every (Spares g.edges t) candidates
    → Along (Adjacent g.edges) t
    → Along (Adjacent g'.edges) t
commit-Along g candidates hash g' committed t h spared along =
    let chosen = committed-Every (Spares g.edges t) g candidates hash g' committed h spared in
    subst (λ es. Along (Adjacent es) t) (sym (commit-edges g candidates hash g' committed h))
      (Along-intro (Adjacent (deactivate g.edges committed)) t (λ a b step.
        Adjacent-deactivate t a b g.edges g.edges committed step (SameEnds-refl g.edges) chosen (
          AlongPath-step (Adjacent g.edges) step.0 a b step.1
            (subst (AlongPath (Adjacent g.edges)) step.2 along))))

pub commit-distance :
    (fp : FloatOps) (g : GraphSnapshot) (candidates : List Candidate) (hash : ℕ)
    (g' : GraphSnapshot) (committed : List Candidate) (u v : ℕ)
    → commit_verified_candidates g candidates hash ≡ ok (g', committed)
    → distance fp g' u v ≡ distance fp g u v
commit-distance fp g candidates hash g' committed u v h =
    let (_, _, _, e) = commit_parts g candidates hash g' committed h in
    ap (λ x. distance fp x u v) e ∙ apply_committed-distance fp g committed u v

pub commit-metric :
    (fp : FloatOps) (g : GraphSnapshot) (candidates : List Candidate) (hash : ℕ)
    (g' : GraphSnapshot) (committed : List Candidate)
    → commit_verified_candidates g candidates hash ≡ ok (g', committed)
    → metric fp g' ≡ metric fp g
commit-metric fp g candidates hash g' committed h = fun_ext (λ u.
    fun_ext
      (λ v. metric_cong fp g' g u v (commit-distance fp g candidates hash g' committed u v h)))

WeightsMatch-cong :
    (fp : FloatOps) (g g' : GraphSnapshot) (es : List Edge)
    → ((u v : ℕ) → distance fp g' u v ≡ distance fp g u v)
    → WeightsMatch fp g es
    → WeightsMatch fp g' es
WeightsMatch-cong fp g g' [] same h = tt
WeightsMatch-cong fp g g' (e ∷ es) same (d, h) =
    (same e.u e.v ∙ d, WeightsMatch-cong fp g g' es same h)

pub commit-WeightsMatch :
    (fp : FloatOps) (g : GraphSnapshot) (candidates : List Candidate) (hash : ℕ)
    (g' : GraphSnapshot) (committed : List Candidate)
    → commit_verified_candidates g candidates hash ≡ ok (g', committed)
    → WeightsMatch fp g g.edges
    → WeightsMatch fp g' g'.edges
commit-WeightsMatch fp g candidates hash g' committed h w =
    subst (WeightsMatch fp g') (sym (commit-edges g candidates hash g' committed h)) (
      WeightsMatch-cong fp g g' (deactivate g.edges committed)
        (λ u v. commit-distance fp g candidates hash g' committed u v h)
        (WeightsMatch-deactivate fp g g.edges committed w))
