-- ===== src/Commit.antt =====
-- src/cpu/elimination_commit.cpp: the deterministic commit of verified candidates under the guard
-- that no vertex falls below degree two.
pub mod Edges
pub mod Degrees
pub mod Lists
pub mod Result
pub mod Preserve
use cuda_edge_elimination.Base.{
  ℕ, zero, suc, ◌+◌, ◌-◌, ◌^◌, List, [], ◌∷◌, ◌++◌, Bool, true, false, not, ◌&&◌, ◌||◌, ltb, leb,
  ◌==◌, if◌then◌else◌, get_or, get_elem?, set, length, Option, none, some, map,
}
use cuda_edge_elimination.Base.Int.{ℤ, pos, negsuc, ltb_ℤ, eqb_ℤ}
use cuda_edge_elimination.Base.Outcome.{Outcome, ok, err, Error, throw_if, ◌>>=◌, ◌>>◌}
use cuda_edge_elimination.Types.{Edge, Candidate, EliminationMethod, jv, hamilton_tutte}
use cuda_edge_elimination.Graph.{GraphSnapshot, rebuild_csr, degree}
use cuda_edge_elimination.Graph.Hash.{content_hash}
use cuda_edge_elimination.Jv.{edge_at}

abbrev pub method_code : EliminationMethod → ℕ
method_code jv = 1
method_code hamilton_tutte = 2

-- The edge that a validated candidate names; the default is never read.
abbrev pub no_edge : Edge
no_edge = record { u = 0; v = 0; weight = 0; active = false }

abbrev pub edge_or : Option Edge → Edge
edge_or none = no_edge
edge_or (some e) = e

unfoldable pub edge_of : List Edge → Candidate → Edge
edge_of es c = edge_or (edge_at es c.edge_id)

-- The checks of the first loop: the edge id is in range and its edge is active. (The third check
-- excludes method codes that the data type does not have.)
pub valid_candidate : List Edge → Candidate → Bool
valid_candidate es c = elim (edge_at es c.edge_id) [ none ↦ false | some e ↦ e.active ]

unfoldable pub all_valid : List Edge → List Candidate → Bool
unfolding valid_candidate
all_valid es [] = true
all_valid es (c ∷ cs) = valid_candidate es c && all_valid es cs

-- (u, v, method, witness, edge_id) in lexicographic order.
pub candidate_less : List Edge → Candidate → Candidate → Bool
unfolding edge_of
candidate_less es a b =
    let ea = edge_of es a in
    let eb = edge_of es b in
    let ma = method_code a.method in
    let mb = method_code b.method in
    ltb ea.u eb.u
    || (ea.u == eb.u
        && (ltb ea.v eb.v
            || (ea.v == eb.v
                && (ltb ma mb
                    || (ma == mb
                        && (ltb_ℤ a.witness b.witness
                            || (eqb_ℤ a.witness b.witness && ltb_ℤ a.edge_id b.edge_id)))))))

pub insert_candidate : List Edge → Candidate → List Candidate → List Candidate
unfolding candidate_less
insert_candidate es a [] = a ∷ []
insert_candidate es a (b ∷ bs) =
    if candidate_less es b a then b ∷ insert_candidate es a bs else a ∷ b ∷ bs

-- std::sort, as an insertion sort: the order is total, so the sorted list is unique.
unfoldable pub sort_candidates : List Edge → List Candidate → List Candidate
unfolding insert_candidate
sort_candidates es [] = []
sort_candidates es (a ∷ rest) = insert_candidate es a (sort_candidates es rest)

-- std::unique by edge id: of each run the first candidate stays. `last` is the one kept last.
pub unique_after : Candidate → List Candidate → List Candidate
unique_after last [] = []
unique_after last (c ∷ cs) =
    let kept = c ∷ unique_after c cs in
    let dropped = unique_after last cs in if eqb_ℤ last.edge_id c.edge_id then dropped else kept

unfoldable pub unique_candidates : List Candidate → List Candidate
unfolding unique_after
unique_candidates [] = []
unique_candidates (c ∷ cs) = c ∷ unique_after c cs

-- The degrees of the vertices from `vertex` on.
unfoldable pub degrees_from : GraphSnapshot → ℕ → ℕ → Outcome (List ℕ)
degrees_from g vertex zero = ok []
degrees_from g vertex (suc count) = do
  d ← degree g vertex
  rest ← degrees_from g (vertex + 1) count
  ok (d ∷ rest)

pub lower : List ℕ → ℕ → List ℕ
lower degrees i = set degrees i (get_or degrees i 0 - 1)

-- The selection loop: an edge is skipped if one of its ends has at most two edges left.
unfoldable pub select : List Edge → List ℕ → List Candidate → List Candidate
unfolding lower edge_of
select es degrees [] = []
select es degrees (c ∷ cs) =
    let e = edge_of es c in
    let taken = c ∷ select es (lower (lower degrees e.u) e.v) cs in
    let skipped = select es degrees cs in
    if leb (get_or degrees e.u 0) 2 || leb (get_or degrees e.v 0) 2 then skipped else taken

pub switch_off : Edge → Edge
switch_off e = record e { active = false }

-- updated.edges[id].active = false
pub deactivate_at : List Edge → ℤ → List Edge
unfolding switch_off
deactivate_at [] id = []
deactivate_at (e ∷ es) (pos zero) = switch_off e ∷ es
deactivate_at (e ∷ es) (pos (suc i)) = e ∷ deactivate_at es (pos i)
deactivate_at (e ∷ es) (negsuc i) = e ∷ es

unfoldable pub deactivate : List Edge → List Candidate → List Edge
unfolding deactivate_at
deactivate es [] = es
deactivate es (c ∷ cs) = deactivate (deactivate_at es c.edge_id) cs

unfoldable pub apply_committed : GraphSnapshot → List Candidate → GraphSnapshot
unfolding deactivate
apply_committed g [] = g
apply_committed g (c ∷ cs) = rebuild_csr (record g { edges = deactivate g.edges (c ∷ cs) })

-- The new graph and the committed candidates. An exception leaves the caller with the old graph.
unfoldable pub commit_verified_candidates :
    GraphSnapshot → List Candidate → ℕ → Outcome (GraphSnapshot × List Candidate)
commit_verified_candidates g candidates expected_snapshot_hash = do
  throw_if (not (content_hash g == expected_snapshot_hash)) Error.runtime_error
  throw_if (not (all_valid g.edges candidates)) Error.runtime_error
  degrees ← degrees_from g 0 g.dimension
  let sorted = unique_candidates (sort_candidates g.edges candidates)
  let committed = select g.edges degrees sorted
  ok (apply_committed g committed, committed)
