-- ===== src/Commit/Lists.antt =====
-- Sorting, deduplicating and selecting candidates (src/cpu/elimination_commit.cpp) makes none up.
use cuda_edge_elimination.Base.{
  ℕ, ◌≡◌, inl, inr, List, [], ◌∷◌, true, arith, Bool-cases, some, Option-cases, ◌||◌, leb, get_or,
}
use cuda_edge_elimination.Base.Int.{eqb_ℤ}
use cuda_edge_elimination.Types.{Edge, Candidate}
use cuda_edge_elimination.Jv.{edge_at}
use cuda_edge_elimination.Commit.{
  candidate_less, insert_candidate, sort_candidates, unique_after, unique_candidates, select,
  all_valid, valid_candidate, edge_of, lower,
}
use cuda_edge_elimination.Commit.Edges.{Every, Named}

module _ {ℓ} (P : Candidate → Type ℓ) where
  Every-insert_candidate :
      (es : List Edge) (a : Candidate) (cs : List Candidate)
      → P a
      → Every P cs
      → Every P (insert_candidate es a cs)
  unfolding insert_candidate
  Every-insert_candidate es a [] p h = (p, h)
  Every-insert_candidate es a (b ∷ cs) p (q, h) = elim (Bool-cases (candidate_less es b a)) [
    | inl less ↦ rw less (q, Every-insert_candidate es a cs p h)
    | inr more ↦ rw more (p, (q, h))
  ]

  pub Every-sort_candidates :
      (es : List Edge) (cs : List Candidate) → Every P cs → Every P (sort_candidates es cs)
  unfolding sort_candidates
  Every-sort_candidates es [] h = h
  Every-sort_candidates es (c ∷ cs) (p, h) =
      Every-insert_candidate es c (sort_candidates es cs) p (Every-sort_candidates es cs h)

  Every-unique_after :
      (last : Candidate) (cs : List Candidate) → Every P cs → Every P (unique_after last cs)
  unfolding unique_after
  Every-unique_after last [] h = h
  Every-unique_after last (c ∷ cs) (p, h) = elim (Bool-cases (eqb_ℤ last.edge_id c.edge_id)) [
    | inl same ↦ rw same (Every-unique_after last cs h)
    | inr other ↦ rw other (p, Every-unique_after c cs h)
  ]

  pub Every-unique_candidates : (cs : List Candidate) → Every P cs → Every P (unique_candidates cs)
  unfolding unique_candidates
  Every-unique_candidates [] h = h
  Every-unique_candidates (c ∷ cs) (p, h) = (p, Every-unique_after c cs h)

  pub Every-select :
      (es : List Edge) (degrees : List ℕ) (cs : List Candidate)
      → Every P cs
      → Every P (select es degrees cs)
  unfolding select
  Every-select es degrees [] h = h
  Every-select es degrees (c ∷ cs) (p, h) =
      let e = edge_of es c in
      elim (Bool-cases (leb (get_or degrees e.u 0) 2 || leb (get_or degrees e.v 0) 2)) [
        | inl low ↦ rw low (Every-select es degrees cs h)
        | inr high ↦ rw high (p, Every-select es (lower (lower degrees e.u) e.v) cs h)
      ]

-- The checks of the first loop leave candidates that name active edges.
abbrev pub Live : List Edge → Candidate → Type 0
Live es c = (e : Edge) × (edge_at es c.edge_id ≡ some e) × (e.active ≡ true)

valid_candidate-Live : (es : List Edge) (c : Candidate) → valid_candidate es c ≡ true → Live es c
unfolding valid_candidate
valid_candidate-Live es c h = elim (Option-cases (edge_at es c.edge_id)) [
  | inl missing ↦ absurd (ground arith)
  | inr (e, at) ↦ (e, at, ground arith)
]

pub all_valid-Every :
    (es : List Edge) (cs : List Candidate) → all_valid es cs ≡ true → Every (Live es) cs
unfolding all_valid
all_valid-Every es [] h = tt
all_valid-Every es (c ∷ cs) h =
    (valid_candidate-Live es c (ground arith), all_valid-Every es cs (ground arith))

Live-valid_candidate : (es : List Edge) (c : Candidate) → Live es c → valid_candidate es c ≡ true
unfolding valid_candidate
Live-valid_candidate es c (e, at, on) = ground arith

pub Every-all_valid :
    (es : List Edge) (cs : List Candidate) → Every (Live es) cs → all_valid es cs ≡ true
unfolding all_valid
Every-all_valid es [] h = ground arith
Every-all_valid es (c ∷ cs) (here, later) =
    let now = Live-valid_candidate es c here in
    let rest = Every-all_valid es cs later in ground arith

pub Every-mono {ℓ κ} :
    {P : Candidate → Type ℓ} {Q : Candidate → Type κ}
    → ((c : Candidate) → P c → Q c)
    → (cs : List Candidate) → Every P cs
    → Every Q cs
Every-mono f [] h = tt
Every-mono f (c ∷ cs) (p, h) = (f c p, Every-mono f cs h)

pub all_valid-Named : (es : List Edge) (cs : List Candidate) → all_valid es cs ≡ true → Named es cs
all_valid-Named es cs h = Every-mono (λ c (e, at, _). (e, at)) cs (all_valid-Every es cs h)
