-- ===== src/Jv/Agree.antt =====
-- FindJvCandidatesCpu against VerifyJvCandidate (src/cpu/jv_elimination.cpp).
use cuda_edge_elimination.Base.{
  ℕ, suc, ◌≡◌, refl, sym, ap, ◌∙◌, inl, inr, List, [], ◌∷◌, ◌++◌, true, false, arith, subst, none,
  some, get_elem?, length,
}
use mathlib.Core.List.{append_assoc}
use cuda_edge_elimination.Base.Int.{pos}
use cuda_edge_elimination.Base.Outcome.{ok, Outcome-cases}
use cuda_edge_elimination.Types.{Candidate, Edge, jv}
use cuda_edge_elimination.Distance.{FloatOps}
use cuda_edge_elimination.Graph.{GraphSnapshot}
use cuda_edge_elimination.Jv.{
  edge_at, is_jv_witness, eligible, first_witness, found_candidate, search_candidates,
  candidates_of, find_from, find_jv_candidates_cpu, verify_edge, verify_jv_candidate,
  potential_candidate_nodes,
}
use cuda_edge_elimination.Commit.Edges.{Every}

module _ (fp : FloatOps) (g : GraphSnapshot) where
  abbrev Passes : Candidate → Type 0
  Passes c = verify_jv_candidate fp g c ≡ ok true

  first_witness-accepted :
      (edge : Edge) (cs : List ℕ) (c : ℕ)
      → first_witness fp g edge cs ≡ ok (some c)
      → is_jv_witness fp g edge (pos c) ≡ ok true
  unfolding first_witness
  first_witness-accepted edge [] c h = absurd (ground arith)
  first_witness-accepted edge (x ∷ cs) c h =
      elim (Outcome-cases (is_jv_witness fp g edge (pos x))) [
        | inr (e, bad) ↦ absurd (ground arith)
        | inl (true, fine) ↦
            let same : x ≡ c = ground arith in
            subst (λ y. is_jv_witness fp g edge (pos y) ≡ ok true) same fine
        | inl (false, next) ↦ first_witness-accepted edge cs c (ground arith)
      ]

  passes :
      (id : ℕ) (edge : Edge) (c : ℕ)
      → edge_at g.edges (pos id) ≡ some edge
      → eligible fp g edge ≡ ok true
      → is_jv_witness fp g edge (pos c) ≡ ok true
      → Passes (record { edge_id = pos id; witness = pos c; method = jv })
  unfolding verify_jv_candidate verify_edge
  passes id edge c at fit fine = ground arith

  candidates_of-Every :
      (id : ℕ) (edge : Edge) (cs : List Candidate)
      → edge_at g.edges (pos id) ≡ some edge
      → candidates_of fp g id edge ≡ ok cs
      → Every Passes cs
  unfolding candidates_of search_candidates found_candidate
  candidates_of-Every id edge cs at h = elim (Outcome-cases (eligible fp g edge)) [
    | inr (e, bad) ↦ absurd (ground arith)
    | inl (false, unfit) ↦ let same : [] ≡ cs = ground arith in subst (Every Passes) same tt
    | inl (true, fit) ↦ elim (Outcome-cases (potential_candidate_nodes fp g edge.u edge.v)) [
      | inr (e, bad) ↦ absurd (ground arith)
      | inl (nodes, nodes_eq) ↦ elim (Outcome-cases (first_witness fp g edge nodes)) [
        | inr (e, bad) ↦ absurd (ground arith)
        | inl (none, nothing) ↦ let same : [] ≡ cs = ground arith in subst (Every Passes) same tt
        | inl (some c, found) ↦
            let same : found_candidate fp g id (some c) ≡ cs = ground arith in
            subst (Every Passes) same
              (passes id edge c at fit (first_witness-accepted edge nodes c found), tt)
      ]
    ]
  ]

  Every-append :
      (xs ys : List Candidate) → Every Passes xs → Every Passes ys → Every Passes (xs ++ ys)
  Every-append [] ys h h' = h'
  Every-append (x ∷ xs) ys (now, h) h' = (now, Every-append xs ys h h')

  get_elem?-split :
      (xs : List Edge) (e : Edge) (es : List Edge) → get_elem? (xs ++ e ∷ es) (length xs) ≡ some e
  get_elem?-split [] e es = refl
  get_elem?-split (x ∷ xs) e es = get_elem?-split xs e es

  length-snoc : (xs : List Edge) (e : Edge) → length (xs ++ e ∷ []) ≡ suc (length xs)
  length-snoc [] e = refl
  length-snoc (x ∷ xs) e = ap suc (length-snoc xs e)

  find_from-Every :
      (done es : List Edge) (cs : List Candidate)
      → g.edges ≡ done ++ es
      → find_from fp g (length done) es ≡ ok cs
      → Every Passes cs
  unfolding find_from
  find_from-Every done [] cs split h =
      let same : [] ≡ cs = ground arith in subst (Every Passes) same tt
  find_from-Every done (e ∷ es) cs split h =
      elim (Outcome-cases (candidates_of fp g (length done) e)) [
        | inr (x, bad) ↦ absurd (ground arith)
        | inl (here, here_eq) ↦ elim (Outcome-cases (find_from fp g (suc (length done)) es)) [
          | inr (x, bad) ↦ absurd (ground arith)
          | inl (rest, rest_eq) ↦
              let same : here ++ rest ≡ cs = ground arith in
              let at : edge_at g.edges (pos (length done)) ≡ some e =
                subst (λ all. get_elem? all (length done) ≡ some e) (sym split)
                  (get_elem?-split done e es) in
              subst (Every Passes) same (
                Every-append here rest (candidates_of-Every (length done) e here at here_eq) (
                  find_from-Every (done ++ e ∷ []) es rest
                    (split ∙ sym (append_assoc done (e ∷ []) es))
                    (subst (λ n. find_from fp g n es ≡ ok rest) (sym (length-snoc done e))
                      rest_eq)))
        ]
      ]

  -- Every candidate that the CPU search proposes passes the independent verification on the same
  -- snapshot, whatever the snapshot holds, as long as the search returns.
  pub find_jv_candidates_cpu-Every :
      (cs : List Candidate)
      → find_jv_candidates_cpu fp g ≡ ok cs
      → Every (λ c. verify_jv_candidate fp g c ≡ ok true) cs
  unfolding find_jv_candidates_cpu
  find_jv_candidates_cpu-Every cs h = find_from-Every [] g.edges cs refl h
