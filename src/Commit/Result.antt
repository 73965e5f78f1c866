-- ===== src/Commit/Result.antt =====
-- CommitVerifiedCandidates as a whole (src/cpu/elimination_commit.cpp).
use Prim.Native.Nat.{min}
use cuda_edge_elimination.Base.{
  ℕ, zero, suc, ◌+◌, ◌<◌, ◌≤◌, ◌≡◌, refl, sym, ap, ◌∙◌, inl, inr, List, [], ◌∷◌, true, arith, subst,
  length, get_or, ◌↔◌,
}
use cuda_edge_elimination.Base.Outcome.{ok, Outcome-cases}
use cuda_edge_elimination.Types.{Candidate}
use cuda_edge_elimination.Distance.{FloatOps}
use cuda_edge_elimination.Graph.{GraphSnapshot, degree, distance}
use cuda_edge_elimination.Graph.Hash.{content_hash}
use cuda_edge_elimination.Graph.Rows.{
  IsWellFormed, rebuild_csr-IsWellFormed, rebuild_csr-edges, rebuild_csr-dimension,
}
use native.Mathlib.Nat.{zero-add}
use cuda_edge_elimination.Graph.Metric.{distance-rebuild_csr}
use cuda_edge_elimination.Commit.{
  commit_verified_candidates, apply_committed, all_valid, degrees_from, sort_candidates,
  unique_candidates, select, deactivate,
}
use cuda_edge_elimination.Commit.Edges.{
  Every, Named, SameEnds-refl, SortedEdges-deactivate, InRange-deactivate,
}
use cuda_edge_elimination.Commit.Lists.{
  Every-sort_candidates, Every-unique_candidates, Every-select, all_valid-Named, Live,
  all_valid-Every, Every-all_valid,
}
use cuda_edge_elimination.Commit.Degrees.{valence, length-incident, select-Keeps, Counts}

pub degree-valence :
    (g : GraphSnapshot) (w : ℕ)
    → IsWellFormed g
    → w < g.dimension
    → degree g w ≡ ok (valence g.edges w)
degree-valence g w wf lt = wf.degrees w lt ∙ ap ok (length-incident 0 g.edges w)

tabulated :
    (first : ℕ) (rest : List ℕ) (f : ℕ → ℕ) (count : ℕ)
    → ((k : ℕ) → k < count → get_or rest k 0 ≡ f (first + 1 + k))
    → (k : ℕ) → k < suc count
    → get_or (f first ∷ rest) k 0 ≡ f (first + k)
tabulated first rest f count h zero lt = ap f (omega arith)
tabulated first rest f count h (suc k) lt = h k (omega arith) ∙ ap f (omega arith)

-- The degree table lists the valences.
degrees_from_lem :
    (g : GraphSnapshot) (first count : ℕ)
    → IsWellFormed g
    → first + count ≤ g.dimension
    → (degrees : List ℕ) × (degrees_from g first count ≡ ok degrees)
      × (length degrees ≡ count)
      × ((k : ℕ) → k < count → get_or degrees k 0 ≡ valence g.edges (first + k))
unfolding degrees_from
degrees_from_lem g first zero wf le = ([], refl, refl, λ k lt. elim lt [ ])
degrees_from_lem g first (suc count) wf le =
    let (rest, e, size, values) = degrees_from_lem g (first + 1) count wf (omega arith) in
    let here = degree-valence g first wf (omega arith) in
    (
      valence g.edges first ∷ rest,
      rw (here, e) refl,
      ap suc size,
      tabulated first rest (valence g.edges) count values,
    )

-- The selection that the commit makes of a list of candidates.
abbrev pub Selected : GraphSnapshot → List Candidate → List Candidate → Type 0
Selected g candidates committed =
    (degrees : List ℕ) × (degrees_from g 0 g.dimension ≡ ok degrees)
    × (committed ≡ select g.edges degrees (unique_candidates (sort_candidates g.edges candidates)))

-- What a successful commit has checked and what it returns.
pub commit_parts :
    (g : GraphSnapshot) (candidates : List Candidate) (hash : ℕ) (g' : GraphSnapshot)
    (committed : List Candidate)
    → commit_verified_candidates g candidates hash ≡ ok (g', committed)
    → (content_hash g ≡ hash)
      × (all_valid g.edges candidates ≡ true)
      × Selected g candidates committed
      × (g' ≡ apply_committed g committed)
unfolding commit_verified_candidates
commit_parts g candidates hash g' committed h =
    elim (Outcome-cases (degrees_from g 0 g.dimension)) [
      | inr (e, bad) ↦ ground arith
      | inl (degrees, e) ↦ (ground arith, ground arith, (degrees, e, ground arith), ground arith)
    ]

select-Every :
    (P : Candidate → Type 0) (g : GraphSnapshot) (candidates committed : List Candidate)
    → Selected g candidates committed
    → Every P candidates
    → Every P committed
select-Every P g candidates committed (degrees, _, e) h = subst (Every P) (sym e) (
    Every-select P g.edges degrees _
      (Every-unique_candidates P _ (Every-sort_candidates P g.edges candidates h)))

-- Every committed candidate is one of those that were handed in.
pub committed-Every :
    (P : Candidate → Type 0) (g : GraphSnapshot) (candidates : List Candidate) (hash : ℕ)
    (g' : GraphSnapshot) (committed : List Candidate)
    → commit_verified_candidates g candidates hash ≡ ok (g', committed)
    → Every P candidates
    → Every P committed
committed-Every P g candidates hash g' committed h every =
    let (_, _, selected, _) = commit_parts g candidates hash g' committed h in
    select-Every P g candidates committed selected every

-- On a consistent snapshot whose content hash is the expected one, CommitVerifiedCandidates returns
-- exactly when every candidate names an active edge: its id is that of an edge of the snapshot, and
-- that edge is active.
pub commit_succeeds :
    (g : GraphSnapshot) (candidates : List Candidate) (hash : ℕ)
    → IsWellFormed g
    → content_hash g ≡ hash
    → ((g' : GraphSnapshot) × (committed : List Candidate) × (commit_verified_candidates g
            candidates hash
          ≡ ok (g', committed)))
      ↔ Every (Live g.edges) candidates
unfolding commit_verified_candidates
commit_succeeds g candidates hash wf e =
    let (degrees, table, _, _) = degrees_from_lem g 0 g.dimension wf (omega arith) in
    let committed =
      select g.edges degrees (unique_candidates (sort_candidates g.edges candidates)) in
    (
      λ (g', committed', h).
          all_valid-Every g.edges candidates (commit_parts g candidates hash g' committed' h).1,
      λ live.
          let valid = Every-all_valid g.edges candidates live in
          (apply_committed g committed, committed, rw (e, valid, table) (ground arith)),
    )

apply_committed-edges :
    (g : GraphSnapshot) (cs : List Candidate) → (apply_committed g cs).edges ≡ deactivate g.edges cs
unfolding apply_committed deactivate
apply_committed-edges g [] = refl
apply_committed-edges g (c ∷ cs) =
    rebuild_csr-edges (record g { edges = deactivate g.edges (c ∷ cs) })

apply_committed-dimension :
    (g : GraphSnapshot) (cs : List Candidate) → (apply_committed g cs).dimension ≡ g.dimension
unfolding apply_committed
apply_committed-dimension g [] = refl
apply_committed-dimension g (c ∷ cs) =
    rebuild_csr-dimension (record g { edges = deactivate g.edges (c ∷ cs) })

apply_committed-IsWellFormed :
    (g : GraphSnapshot) (cs : List Candidate) → IsWellFormed g → IsWellFormed (apply_committed g cs)
unfolding apply_committed
apply_committed-IsWellFormed g [] wf = wf
apply_committed-IsWellFormed g (c ∷ cs) wf =
    rebuild_csr-IsWellFormed (record g { edges = deactivate g.edges (c ∷ cs) })
      (SortedEdges-deactivate g.edges (c ∷ cs) wf.sorted)
      (InRange-deactivate g.dimension g.edges (c ∷ cs) wf.in_range)

pub commit-dimension :
    (g : GraphSnapshot) (candidates : List Candidate) (hash : ℕ) (g' : GraphSnapshot)
    (committed : List Candidate)
    → commit_verified_candidates g candidates hash ≡ ok (g', committed)
    → g'.dimension ≡ g.dimension
commit-dimension g candidates hash g' committed h =
    let (_, _, _, e) = commit_parts g candidates hash g' committed h in
    ap (λ x. x.dimension) e ∙ apply_committed-dimension g committed

pub commit-edges :
    (g : GraphSnapshot) (candidates : List Candidate) (hash : ℕ) (g' : GraphSnapshot)
    (committed : List Candidate)
    → commit_verified_candidates g candidates hash ≡ ok (g', committed)
    → g'.edges ≡ deactivate g.edges committed
commit-edges g candidates hash g' committed h =
    let (_, _, _, e) = commit_parts g candidates hash g' committed h in
    ap (λ x. x.edges) e ∙ apply_committed-edges g committed

-- Distances do not depend on what is active.
pub apply_committed-distance :
    (fp : FloatOps) (g : GraphSnapshot) (cs : List Candidate) (u v : ℕ)
    → distance fp (apply_committed g cs) u v ≡ distance fp g u v
unfolding apply_committed
apply_committed-distance fp g [] u v = refl
apply_committed-distance fp g (c ∷ cs) u v =
    distance-rebuild_csr fp g (deactivate g.edges (c ∷ cs)) u v

-- A successful commit to a consistent snapshot leaves a consistent one: edges in canonical order and
-- in range, and rows and degrees that agree with the active edges.
pub commit-IsWellFormed :
    (g : GraphSnapshot) (candidates : List Candidate) (hash : ℕ) (g' : GraphSnapshot)
    (committed : List Candidate)
    → IsWellFormed g
    → commit_verified_candidates g candidates hash ≡ ok (g', committed)
    → IsWellFormed g'
commit-IsWellFormed g candidates hash g' committed wf h =
    let (_, _, _, e) = commit_parts g candidates hash g' committed h in
    subst IsWellFormed (sym e) (apply_committed-IsWellFormed g committed wf)

-- After a successful commit to a consistent snapshot a vertex that had the degree d has a degree of
-- at least min 2 d.
pub commit_keeps_degrees :
    (g : GraphSnapshot) (candidates : List Candidate) (hash : ℕ) (g' : GraphSnapshot)
    (committed : List Candidate) (w d : ℕ)
    → IsWellFormed g
    → commit_verified_candidates g candidates hash ≡ ok (g', committed)
    → degree g w ≡ ok d
    → w < g.dimension
    → (d' : ℕ) × (degree g' w ≡ ok d') × (min 2 d ≤ d')
commit_keeps_degrees g candidates hash g' committed w d wf h at lt =
    let (_, valid, (degrees, table, chosen), e) = commit_parts g candidates hash g' committed h in
    let sorted = unique_candidates (sort_candidates g.edges candidates) in
    let (degrees', table', size, values) = degrees_from_lem g 0 g.dimension wf (omega arith) in
    let same : degrees' ≡ degrees = cc in
    let named : Named g.edges sorted =
      Every-unique_candidates _ _
        (Every-sort_candidates _ g.edges candidates (all_valid-Named g.edges candidates valid)) in
    let counts : Counts g.dimension degrees g.edges =
      subst (λ ds. Counts g.dimension ds g.edges) same
        (λ x x<n. let value = values x x<n in omega (arith, ap (valence g.edges) (zero-add x))) in
    let kept =
      select-Keeps g.dimension g.edges wf.in_range degrees g.edges sorted
        (ap length (sym same) ∙ size) counts (SameEnds-refl g.edges) named w lt in
    let before : d ≡ get_or degrees w 0 =
      let ok_eq : ok d ≡ ok (valence g.edges w) = sym at ∙ degree-valence g w wf lt in
      let d_eq : d ≡ valence g.edges w = cc in
      d_eq
      ∙ ap (valence g.edges) (sym (zero-add w))
      ∙ sym (values w lt)
      ∙ ap (λ ds. get_or ds w 0) same in
    let after : degree g' w ≡ ok (valence g'.edges w) =
      degree-valence g' w (commit-IsWellFormed g candidates hash g' committed wf h)
        (subst (λ n. w < n) (sym (commit-dimension g candidates hash g' committed h)) lt) in
    let edges' : g'.edges ≡ deactivate g.edges (select g.edges degrees sorted) =
      ap (λ x. x.edges) e ∙ apply_committed-edges g committed ∙ ap (deactivate g.edges) chosen in
    (valence g'.edges w, after, rw edges' (omega arith))
