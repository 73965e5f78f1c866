-- ===== src/Graph/Rows.antt =====
-- RebuildCsr as a whole (src/common/graph.cpp), and the consistency of a snapshot.
use native.Mathlib.Nat.{add-zero}
use cuda_edge_elimination.Base.{
  ℕ, suc, ◌+◌, ◌-◌, ◌≤◌, ◌<◌, ◌≡◌, refl, List, [], ◌∷◌, true, get_or, length, length-replicate,
  arith, subst,
}
use cuda_edge_elimination.Base.Outcome.{ok}
use cuda_edge_elimination.Types.{Edge}
use cuda_edge_elimination.Graph.{
  GraphSnapshot, Slot, blank_slot, minus_one, read_slot, read_range, filled, canonical_sorted,
  rebuild_csr, row, degree,
}
use cuda_edge_elimination.Graph.Offsets.{
  incident, InRange, offset, offset_next, offset_mono, length-offsets_of,
}
use cuda_edge_elimination.Graph.Order.{SortedEdges, SortedEdges-canonical_sorted}
use cuda_edge_elimination.Graph.Fill.{Progress, fill-Progress, read}

module _ (n : ℕ) (es : List Edge) (h : InRange n es) where
  abbrev start : ℕ → ℕ
  start w = offset n es h w

  start_mono : (i j : ℕ) → i ≤ j → j ≤ n → start i ≤ start j
  start_mono i j le lt =
      let e : i + (j - i) ≡ j = omega arith in
      subst (λ k. start i ≤ start k) e (offset_mono n es h (j - i) i (omega arith))

  row_count : (w : ℕ) → w < n → start (w + 1) - start w ≡ length (incident 0 es w)
  row_count w lt =
      let e : w + 1 ≡ suc w = omega arith in rw e (omega (arith, offset_next n es h w lt))

  filled-Progress :
      Progress n (start n) start start_mono (omega arith) (λ w. incident 0 es w) (filled n es)
  unfolding filled
  filled-Progress =
      fill-Progress n (start n) start start_mono (omega arith) (λ w. []) 0 es _ h
        (record {
          cursors = length-offsets_of n es;
          size_neighbors = length-replicate (start n) minus_one;
          size_ids = length-replicate (start n) minus_one;
          size_weights = length-replicate (start n) 0;
          cursor_eq = λ w lt. omega arith;
          slot_eq = λ w k lt hk. elim hk [ ];
        })
        (λ w lt. omega (arith, offset_next n es h w lt))

  filled_slot :
      (w k : ℕ)
      → w < n
      → k < length (incident 0 es w)
      → read (filled n es) (start w + k) ≡ get_or (incident 0 es w) k blank_slot
  filled_slot w k lt hk = (filled-Progress).slot_eq w k lt hk

-- A range that agrees with a list at each index is that list.
read_range_eq :
    (ns ids ws : List ℕ) (begin : ℕ) (xs : List Slot)
    → ((k : ℕ) → k < length xs → read_slot ns ids ws (begin + k) ≡ get_or xs k blank_slot)
    → read_range ns ids ws begin (length xs) ≡ xs
unfolding read_range
read_range_eq ns ids ws begin [] h = refl
read_range_eq ns ids ws begin (x ∷ xs) h =
    let first : read_slot ns ids ws begin ≡ x =
      subst (λ i. read_slot ns ids ws i ≡ x) (add-zero begin) (h 0 (omega arith)) in
    let rest = read_range_eq ns ids ws (suc begin) xs (λ k lt.
      subst (λ i. read_slot ns ids ws i ≡ get_or xs k blank_slot) (omega arith)
        (h (suc k) (omega arith))) in
    rw (first, rest)

pub record IsWellFormed (g : GraphSnapshot) : Type 0 where
  pub sorted : SortedEdges g.edges
  pub in_range : InRange g.dimension g.edges
  pub rows : (w : ℕ) → w < g.dimension → row g w ≡ incident 0 g.edges w
  pub degrees : (w : ℕ) → w < g.dimension → degree g w ≡ ok (length (incident 0 g.edges w))

pub row-rebuild_csr :
    (g : GraphSnapshot) (w : ℕ)
    → canonical_sorted g.edges ≡ true
    → InRange g.dimension g.edges
    → w < g.dimension
    → row (rebuild_csr g) w ≡ incident 0 g.edges w
unfolding row rebuild_csr
row-rebuild_csr g w canonical h lt =
    let n = g.dimension in
    let es = g.edges in
    let s = filled n es in
    let count : offset n es h (w + 1) - offset n es h w ≡ length (incident 0 es w) =
      row_count n es h w lt in
    rw canonical (
      rw count (
        read_range_eq s.neighbors s.csr_edge_ids s.csr_weights (offset n es h w) (incident 0 es w)
          (λ k hk. filled_slot n es h w k lt hk)))

pub degree-rebuild_csr :
    (g : GraphSnapshot) (w : ℕ)
    → InRange g.dimension g.edges
    → w < g.dimension
    → degree (rebuild_csr g) w ≡ ok (length (incident 0 g.edges w))
unfolding degree rebuild_csr
degree-rebuild_csr g w h lt = ground (arith, row_count g.dimension g.edges h w lt)

-- For edges in canonical order whose ends are distinct vertices, RebuildCsr leaves a consistent
-- snapshot, whatever the arrays held: every row lists the active edges at its vertex in ascending
-- order of the neighbours, with their ids and weights, and Degree returns the length of the row.
pub rebuild_csr-IsWellFormed :
    (g : GraphSnapshot)
    → SortedEdges g.edges
    → InRange g.dimension g.edges
    → IsWellFormed (rebuild_csr g)
unfolding rebuild_csr
rebuild_csr-IsWellFormed g sorted h = record {
  sorted = sorted;
  in_range = h;
  rows = λ w lt. row-rebuild_csr g w (SortedEdges-canonical_sorted g.edges sorted) h lt;
  degrees = λ w lt. degree-rebuild_csr g w h lt;
}

pub rebuild_csr-edges : (g : GraphSnapshot) → (rebuild_csr g).edges ≡ g.edges
unfolding rebuild_csr
rebuild_csr-edges g = refl

pub rebuild_csr-dimension : (g : GraphSnapshot) → (rebuild_csr g).dimension ≡ g.dimension
unfolding rebuild_csr
rebuild_csr-dimension g = refl
