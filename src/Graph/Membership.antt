-- ===== src/Graph/Membership.antt =====
-- HasActiveEdge (src/common/graph.cpp): what the search over a row says of the active edges.
use cuda_edge_elimination.Base.{
  ℕ, zero, suc, ◌+◌, ◌-◌, ◌<◌, ◌≡◌, ◌↔◌, ◌⊎◌, sym, inl, inr, List, [], ◌∷◌, ◌++◌, true, false,
  arith, subst, ◌||◌, leb, get_or, ℕ_discrete,
}
use cuda_edge_elimination.Types.{Edge}
use cuda_edge_elimination.Graph.{GraphSnapshot, Slot, minus_one, read_range, has_active_edge, row}
use cuda_edge_elimination.Graph.Offsets.{edge_slots, incident}
use cuda_edge_elimination.Graph.Order.{Within, incident-Within}
use cuda_edge_elimination.Graph.Edges.{Adjacent, Joins}
use cuda_edge_elimination.Graph.Rows.{IsWellFormed}
use cuda_edge_elimination.Graph.Search.{Ascending, Holds, binary_search-Holds}

-- Some slot names the neighbour `w`.
abbrev Names : List Slot → ℕ → Type 0
Names [] w = ⊥
Names (s ∷ slots) w = (s.neighbor ≡ w) ⊎ Names slots w

Names-append : (xs ys : List Slot) (w : ℕ) → Names (xs ++ ys) w ↔ (Names xs w ⊎ Names ys w)
Names-append [] ys w = (λ h. inr h, λ h. elim h [ inl n ↦ absurd n | inr m ↦ m ])
Names-append (s ∷ xs) ys w =
    let rest = Names-append xs ys w in
    (
      λ h. elim h [
        | inl e ↦ inl (inl e)
        | inr m ↦ elim (rest.0 m) [ inl l ↦ inl (inr l) | inr r ↦ inr r ]
      ],
      λ h. elim h [
        | inl (inl e) ↦ inl e
        | inl (inr l) ↦ inr (rest.1 (inl l))
        | inr r ↦ inr (rest.1 (inr r))
      ],
    )

edge_slots-Names :
    (id : ℕ) (e : Edge) (a b : ℕ) → Names (edge_slots id e a) b ↔ ((e.active ≡ true) × Joins e a b)
unfolding edge_slots
edge_slots-Names id e a b = ground arith

incident-Names : (id : ℕ) (es : List Edge) (a b : ℕ) → Names (incident id es a) b ↔ Adjacent es a b
unfolding incident
incident-Names id [] a b = (λ h. h, λ h. h)
incident-Names id (e ∷ es) a b =
    let split = Names-append (edge_slots id e a) (incident (suc id) es a) b in
    let here = edge_slots-Names id e a b in
    let rest = incident-Names (suc id) es a b in
    (
      λ h. elim (split.0 h) [ inl l ↦ inl (here.0 l) | inr r ↦ inr (rest.0 r) ],
      λ h. split.1 (elim h [ inl l ↦ inl (here.1 l) | inr r ↦ inr (rest.1 r) ]),
    )

read_range-Holds :
    (xs ids weights : List ℕ) (begin count w : ℕ)
    → Names (read_range xs ids weights begin count) w ↔ Holds xs begin count w
unfolding read_range
read_range-Holds xs ids weights begin zero w =
    (λ h. absurd h, λ (i, ge, lt, e). absurd (omega arith))
read_range-Holds xs ids weights begin (suc count) w =
    let rest = read_range-Holds xs ids weights (suc begin) count w in
    (
      λ h. elim h [
        | inl e ↦ (begin, omega arith, omega arith, e)
        | inr later ↦ let (i, ge, lt, e) = rest.0 later in (i, omega arith, omega arith, e)
      ],
      λ (i, ge, lt, e). elim (ℕ_discrete begin i) [
        | yes same ↦ inl (subst (λ j. get_or xs j minus_one ≡ w) (sym same) e)
        | no other ↦ inr (rest.1 (i, omega arith, omega arith, e))
      ],
    )

Within-Ascending :
    (lo n w : ℕ) (xs ids weights : List ℕ) (begin count : ℕ)
    → Within lo n w (read_range xs ids weights begin count)
    → Ascending lo xs begin count
unfolding read_range
Within-Ascending lo n w xs ids weights begin zero h = tt
Within-Ascending lo n w xs ids weights begin (suc count) (first, _, _, h) = (
  first,
  Within-Ascending (suc (get_or xs begin minus_one)) n w xs ids weights (suc begin) count h,
)

-- On a consistent snapshot HasActiveEdge finds exactly the pairs of vertices that some active edge
-- joins.
pub has_active_edge_iff :
    (g : GraphSnapshot) (u v : ℕ)
    → IsWellFormed g
    → u < g.dimension
    → v < g.dimension
    → (has_active_edge g u v ≡ true) ↔ Adjacent g.edges u v
unfolding has_active_edge row
has_active_edge_iff g u v wf hu hv =
    let begin = get_or g.row_offsets u 0 in
    let end = get_or g.row_offsets (u + 1) 0 in
    let is_row = wf.rows u hu in
    let within =
      subst (Within 0 g.dimension u) (sym is_row)
        (incident-Within g.dimension u 0 g.edges wf.sorted wf.in_range) in
    let up =
      Within-Ascending 0 g.dimension u g.neighbors g.csr_edge_ids g.csr_weights begin (end - begin)
        within in
    let search = binary_search-Holds 0 g.neighbors begin end v up in
    let slots = read_range-Holds g.neighbors g.csr_edge_ids g.csr_weights begin (end - begin) v in
    let names = incident-Names 0 g.edges u v in
    let inside : (leb g.dimension u || leb g.dimension v) ≡ false = ground arith in
    rw inside (
      λ found. names.0 (subst (λ l. Names l v) is_row (slots.1 (search.0 found))),
      λ next. search.1 (slots.0 (subst (λ l. Names l v) (sym is_row) (names.1 next))),
    )
