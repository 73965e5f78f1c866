-- ===== src/Jv.antt =====
-- src/cpu/jv_elimination.cpp: the Jonker-Volgenant test, its candidate search and its verifier.
-- The texts of the rejection reasons are not kept: a rejection is `ok false`.
pub mod Witness
pub mod Sound
pub mod Agree
use cuda_edge_elimination.Base.{
  ℕ, zero, suc, ◌+◌, ◌-◌, List, [], ◌∷◌, ◌++◌, Bool, true, false, not, ◌&&◌, ◌||◌, ltb, leb, ◌==◌,
  if◌then◌else◌, get_or, get_elem?, length, Option, none, some, map,
}
use cuda_edge_elimination.Base.Int.{ℤ, pos, negsuc}
use cuda_edge_elimination.Base.Outcome.{Outcome, ok, err, Error, ◌>>=◌}
use cuda_edge_elimination.Base.Words.{i64_max}
use cuda_edge_elimination.Types.{Edge, Candidate, EliminationMethod, jv, hamilton_tutte}
use cuda_edge_elimination.Distance.{FloatOps}
use cuda_edge_elimination.Graph.{GraphSnapshot, Slot, row, distance, degree, has_active_edge}

-- graph.edges[id], with the two range tests that stand before every such read.
abbrev pub edge_at : List Edge → ℤ → Option Edge
edge_at es (pos id) = get_elem? es id
edge_at es (negsuc id) = none

abbrev pub is_jv : EliminationMethod → Bool
is_jv jv = true
is_jv hamilton_tutte = false

abbrev pub max_candidate_nodes : ℕ
max_candidate_nodes = 10

pub record ScoredNode : Type 0 where
  pub score : ℕ
  pub node : ℕ

less_scored_node : ScoredNode → ScoredNode → Bool
less_scored_node a b = ltb a.score b.score || (a.score == b.score && ltb a.node b.node)

-- std::sort, as an insertion sort.
insert_scored : ScoredNode → List ScoredNode → List ScoredNode
unfolding less_scored_node
insert_scored a [] = a ∷ []
insert_scored a (b ∷ bs) = if less_scored_node b a then b ∷ insert_scored a bs else a ∷ b ∷ bs

sort_scored : List ScoredNode → List ScoredNode
unfolding insert_scored
sort_scored [] = []
sort_scored (a ∷ rest) = insert_scored a (sort_scored rest)

pop_back : List ScoredNode → List ScoredNode
pop_back [] = []
pop_back (a ∷ []) = []
pop_back (a ∷ b ∷ rest) = a ∷ pop_back (b ∷ rest)

-- push_back, sort, and pop_back beyond the capacity.
keep_best : ScoredNode → List ScoredNode → List ScoredNode
unfolding sort_scored pop_back
keep_best a scored =
    let sorted = sort_scored (scored ++ a ∷ []) in
    if ltb max_candidate_nodes (length sorted) then pop_back sorted else sorted

module _ (fp : FloatOps) (g : GraphSnapshot) where
  -- The body of visit_row's loop, for the slot of one neighbour.
  visit_slot : ℕ → ℕ → ℕ → Bool → List ScoredNode → Slot → Outcome (List ScoredNode)
  unfolding keep_best
  visit_slot a b other second scored s =
      if (s.neighbor == a || s.neighbor == b) || (second && has_active_edge g a s.neighbor)
      then ok scored
      else do
        d ← distance fp g s.neighbor other
        let score = s.weight + d
        ok (
            if ltb i64_max score
            then scored
            else keep_best (record { score = score; node = s.neighbor }) scored)

  visit_row : ℕ → ℕ → ℕ → Bool → List ScoredNode → List Slot → Outcome (List ScoredNode)
  unfolding visit_slot
  visit_row a b other second scored [] = ok scored
  visit_row a b other second scored (s ∷ slots) = do
    scored' ← visit_slot a b other second scored s
    visit_row a b other second scored' slots

  unfoldable pub potential_candidate_nodes : ℕ → ℕ → Outcome (List ℕ)
  unfolding visit_row
  potential_candidate_nodes a b = do
    first ← visit_row a b b false [] (row g a)
    both ← visit_row a b a true first (row g b)
    ok (map (λ item. item.node) both)

  -- The loop body of IsJvWitness for one neighbour of the witness: false stops the loop.
  pub incompatible : Edge → ℕ → ℕ → Slot → Outcome Bool
  incompatible edge cac cbc s = if s.neighbor == edge.u || s.neighbor == edge.v then ok true else do
    dv ← distance fp g s.neighbor edge.v
    ud ← distance fp g edge.u s.neighbor
    let left = edge.weight + s.weight
    ok (not (leb left (cac + dv) || leb left (ud + cbc)))

  pub all_incompatible : Edge → ℕ → ℕ → List Slot → Outcome Bool
  unfolding incompatible
  all_incompatible edge cac cbc [] = ok true
  all_incompatible edge cac cbc (s ∷ slots) =
      let rest = all_incompatible edge cac cbc slots in
      do fine ← incompatible edge cac cbc s; if fine then rest else ok false

  -- IsJvWitness for a witness that is not negative.
  pub witness_at : Edge → ℕ → Outcome Bool
  unfolding all_incompatible
  witness_at edge c = if (leb g.dimension c || c == edge.u) || c == edge.v then ok false else do
    cac ← distance fp g edge.u c
    cbc ← distance fp g edge.v c
    all_incompatible edge cac cbc (row g c)

  unfoldable pub is_jv_witness : Edge → ℤ → Outcome Bool
  unfolding witness_at
  is_jv_witness edge (pos c) = witness_at edge c
  is_jv_witness edge (negsuc c) = ok false

  -- The second operand of `||` is evaluated only if the first is false.
  degree_unless : Bool → ℕ → Outcome ℕ
  degree_unless true v = ok 0
  degree_unless false v = degree g v

  -- `!edge.active || Degree(u) <= 2 || Degree(v) <= 2`, with its short circuits.
  pub eligible : Edge → Outcome Bool
  unfolding degree_unless
  eligible edge = if not edge.active then ok false else do
    du ← degree g edge.u
    dv ← degree_unless (leb du 2) edge.v
    ok (not (leb du 2 || leb dv 2))

  pub first_witness : Edge → List ℕ → Outcome (Option ℕ)
  first_witness edge [] = ok none
  first_witness edge (c ∷ cs) =
      let rest = first_witness edge cs in
      do found ← is_jv_witness edge (pos c); if found then ok (some c) else rest

  pub found_candidate : ℕ → Option ℕ → List Candidate
  found_candidate id none = []
  found_candidate id (some c) = record { edge_id = pos id; witness = pos c; method = jv } ∷ []

  pub search_candidates : ℕ → Edge → Outcome (List Candidate)
  unfolding first_witness found_candidate
  search_candidates id edge = do
    nodes ← potential_candidate_nodes edge.u edge.v
    found ← first_witness edge nodes
    ok (found_candidate id found)

  -- The candidates of one edge in FindJvCandidatesCpu: none or one.
  pub candidates_of : ℕ → Edge → Outcome (List Candidate)
  unfolding eligible search_candidates
  candidates_of id edge = do fit ← eligible edge; if fit then search_candidates id edge else ok []

  pub find_from : ℕ → List Edge → Outcome (List Candidate)
  unfolding candidates_of
  find_from id [] = ok []
  find_from id (e ∷ es) = do
    here ← candidates_of id e
    rest ← find_from (suc id) es
    ok (here ++ rest)

  unfoldable pub find_jv_candidates_cpu : Outcome (List Candidate)
  unfolding find_from
  find_jv_candidates_cpu = find_from 0 g.edges

  pub verify_edge : Edge → ℤ → Outcome Bool
  unfolding eligible
  verify_edge edge witness = do
    fit ← eligible edge
    if fit then is_jv_witness edge witness else ok false

  unfoldable pub verify_jv_candidate : Candidate → Outcome Bool
  unfolding verify_edge
  verify_jv_candidate candidate =
      if is_jv candidate.method
      then elim (edge_at g.edges candidate.edge_id) [
        | none ↦ ok false
        | some edge ↦ verify_edge edge candidate.witness
      ]
      else ok false

  -- VerifyCandidates: the accepted candidates and the number of rejected ones.
  unfoldable pub verify_candidates : List Candidate → Outcome (List Candidate × ℕ)
  verify_candidates [] = ok ([], 0)
  verify_candidates (c ∷ cs) = do
    fine ← verify_jv_candidate c
    (accepted, rejected) ← verify_candidates cs
    ok (if fine then (c ∷ accepted, rejected) else (accepted, rejected + 1))
