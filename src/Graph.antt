-- ===== src/Graph.antt =====
-- include/cuda_edge_elimination/graph.hpp and src/common/graph.cpp: the snapshot, the rebuild of its
-- compressed rows and the queries on it.
pub mod Hash
pub mod Offsets
pub mod Fill
pub mod Order
pub mod Rows
pub mod Metric
pub mod Edges
pub mod Search
pub mod Membership
use cuda_edge_elimination.Base.{
  ℕ, zero, suc, ◌+◌, ◌-◌, ◌/◌, ◌^◌, List, [], ◌∷◌, ◌++◌, Bool, true, false, not, ◌&&◌, ◌||◌, ltb,
  leb, ◌==◌, if◌then◌else◌, get_or, set, length, replicate,
}
use cuda_edge_elimination.Base.Int.{pos}
use cuda_edge_elimination.Base.Outcome.{Outcome, ok, err, Error, throw_if, ◌>>=◌, ◌>>◌}
use cuda_edge_elimination.Types.{Point, Edge, DistanceType}
use cuda_edge_elimination.Distance.{FloatOps, exact_integer_distance, floating_distance}

pub record GraphSnapshot : Type 0 where
  pub dimension : ℕ
  pub distance_type : DistanceType
  pub integer_coordinates : Bool
  pub integer_distance_safe : Bool
  pub points : List Point
  pub edges : List Edge
  pub row_offsets : List ℕ
  pub neighbors : List ℕ
  pub csr_edge_ids : List ℕ
  pub csr_weights : List ℕ

-- What stands at one index of the three parallel arrays.
pub record Slot : Type 0 where
  pub neighbor : ℕ
  pub edge_id : ℕ
  pub weight : ℕ

-- The filler -1 of the arrays, as the bit pattern of an int32_t.
abbrev pub minus_one : ℕ
minus_one = 2 ^ 32 - 1

abbrev pub blank_slot : Slot
blank_slot = record { neighbor = minus_one; edge_id = minus_one; weight = 0 }

abbrev pub read_slot : List ℕ → List ℕ → List ℕ → ℕ → Slot
read_slot neighbors ids weights i = record {
  neighbor = get_or neighbors i minus_one;
  edge_id = get_or ids i minus_one;
  weight = get_or weights i 0;
}

-- The slots from `begin` on, `count` of them, as the loops over a row read them.
pub read_range : List ℕ → List ℕ → List ℕ → ℕ → ℕ → List Slot
read_range neighbors ids weights begin zero = []
read_range neighbors ids weights begin (suc count) =
    read_slot neighbors ids weights begin ∷ read_range neighbors ids weights (suc begin) count

-- (lhs.u, lhs.v) < (rhs.u, rhs.v)
abbrev pub edge_less : Edge → Edge → Bool
edge_less a b = ltb a.u b.u || (a.u == b.u && ltb a.v b.v)

all_ordered : List Edge → Bool
all_ordered [] = true
all_ordered (e ∷ es) = ltb e.u e.v && all_ordered es

is_sorted : List Edge → Bool
is_sorted [] = true
is_sorted (a ∷ []) = true
is_sorted (a ∷ b ∷ es) = not (edge_less b a) && is_sorted (b ∷ es)

unfoldable pub canonical_sorted : List Edge → Bool
unfolding all_ordered is_sorted
canonical_sorted es = all_ordered es && is_sorted es

bump : List ℕ → ℕ → List ℕ
bump xs i = set xs i (get_or xs i 0 + 1)

-- The first loop of RebuildCsr: entry w + 1 counts the active edges at w.
count_degrees : List ℕ → List Edge → List ℕ
unfolding bump
count_degrees offsets [] = offsets
count_degrees offsets (e ∷ es) =
    count_degrees (if e.active then bump (bump offsets (e.u + 1)) (e.v + 1) else offsets) es

-- The second loop: each entry is increased by its predecessor's final value.
prefix_sums : ℕ → List ℕ → List ℕ
prefix_sums before [] = []
prefix_sums before (x ∷ xs) = (before + x) ∷ prefix_sums (before + x) xs

pub record Filling : Type 0 where
  pub cursor : List ℕ
  pub neighbors : List ℕ
  pub csr_edge_ids : List ℕ
  pub csr_weights : List ℕ

-- One round of the inner loop over the two directions of an edge.
place : ℕ → ℕ → ℕ → ℕ → Filling → Filling
place from to id weight s =
    let slot = get_or s.cursor from 0 in
    record {
      cursor = set s.cursor from (slot + 1);
      neighbors = set s.neighbors slot to;
      csr_edge_ids = set s.csr_edge_ids slot id;
      csr_weights = set s.csr_weights slot weight;
    }

unfoldable pub fill : ℕ → Filling → List Edge → Filling
unfolding place
fill id s [] = s
fill id s (e ∷ es) =
    fill (suc id) (if e.active then place e.v e.u id e.weight (place e.u e.v id e.weight s) else s)
      es

-- std::sort of a row's tuples (neighbor, edge id, weight), as an insertion sort.
slot_less : Slot → Slot → Bool
slot_less a b =
    ltb a.neighbor b.neighbor
    || (a.neighbor == b.neighbor
        && (ltb a.edge_id b.edge_id || (a.edge_id == b.edge_id && ltb a.weight b.weight)))

insert_slot : Slot → List Slot → List Slot
unfolding slot_less
insert_slot a [] = a ∷ []
insert_slot a (b ∷ bs) = if slot_less b a then b ∷ insert_slot a bs else a ∷ b ∷ bs

sort_slots : List Slot → List Slot
unfolding insert_slot
sort_slots [] = []
sort_slots (a ∷ rest) = insert_slot a (sort_slots rest)

write_range : Filling → ℕ → List Slot → Filling
write_range s begin [] = s
write_range s begin (a ∷ rest) =
    write_range
      (record s {
        neighbors = set s.neighbors begin a.neighbor;
        csr_edge_ids = set s.csr_edge_ids begin a.edge_id;
        csr_weights = set s.csr_weights begin a.weight;
      })
      (suc begin) rest

-- The fallback for edges that are not in canonical order: `count` rows from `vertex` on.
unfoldable pub sort_rows : List ℕ → ℕ → ℕ → Filling → Filling
unfolding sort_slots write_range read_range
sort_rows offsets vertex zero s = s
sort_rows offsets vertex (suc count) s =
    let begin = get_or offsets vertex 0 in
    let end = get_or offsets (vertex + 1) 0 in
    let row = read_range s.neighbors s.csr_edge_ids s.csr_weights begin (end - begin) in
    sort_rows offsets (vertex + 1) count (write_range s begin (sort_slots row))

unfoldable pub offsets_of : ℕ → List Edge → List ℕ
unfolding count_degrees prefix_sums
offsets_of dimension es = prefix_sums 0 (count_degrees (replicate (suc dimension) 0) es)

unfoldable pub filled : ℕ → List Edge → Filling
unfolding offsets_of fill
filled dimension es =
    let offsets = offsets_of dimension es in
    let total = get_or offsets dimension 0 in
    fill 0
      (record {
        cursor = offsets;
        neighbors = replicate total minus_one;
        csr_edge_ids = replicate total minus_one;
        csr_weights = replicate total 0;
      })
      es

unfoldable pub rebuild_csr : GraphSnapshot → GraphSnapshot
rebuild_csr g =
    let offsets = offsets_of g.dimension g.edges in
    let s = filled g.dimension g.edges in
    let t = if canonical_sorted g.edges then s else sort_rows offsets 0 g.dimension s in
    record g {
      row_offsets = offsets;
      neighbors = t.neighbors;
      csr_edge_ids = t.csr_edge_ids;
      csr_weights = t.csr_weights;
    }

-- What a read of the points out of bounds would give; the guard of Distance excludes it.
abbrev pub origin : Point
origin = record { x = 0; y = 0; integer_x = pos 0; integer_y = pos 0 }

unfoldable pub distance : FloatOps → GraphSnapshot → ℕ → ℕ → Outcome ℕ
distance fp g u v = do
  throw_if (leb g.dimension u || leb g.dimension v) Error.out_of_range
  let a = get_or g.points u origin
  let b = get_or g.points v origin
  (if g.integer_coordinates
      then exact_integer_distance a b g.distance_type
      else floating_distance fp a b g.distance_type)

unfoldable pub active_edge_count : List Edge → ℕ
active_edge_count [] = 0
active_edge_count (e ∷ es) = (if e.active then 1 else 0) + active_edge_count es

unfoldable pub degree : GraphSnapshot → ℕ → Outcome ℕ
degree g vertex = do
  throw_if (leb g.dimension vertex) Error.out_of_range
  ok (get_or g.row_offsets (vertex + 1) 0 - get_or g.row_offsets vertex 0)

-- The row of a vertex, in the order in which the loops read it.
unfoldable pub row : GraphSnapshot → ℕ → List Slot
unfolding read_range
row g vertex =
    let begin = get_or g.row_offsets vertex 0 in
    let end = get_or g.row_offsets (vertex + 1) 0 in
    read_range g.neighbors g.csr_edge_ids g.csr_weights begin (end - begin)

-- std::lower_bound over xs[first .. first + count), on fuel; each round shrinks the count.
pub lower_bound : ℕ → List ℕ → ℕ → ℕ → ℕ → ℕ
lower_bound zero xs first count value = first
lower_bound (suc fuel) xs first count value =
    let step = count / 2 in
    let right = lower_bound fuel xs (first + step + 1) (count - (step + 1)) value in
    let left = lower_bound fuel xs first step value in
    if count == 0
    then first
    else if ltb (get_or xs (first + step) minus_one) value
    then right
    else left

-- std::binary_search
pub binary_search : List ℕ → ℕ → ℕ → ℕ → Bool
unfolding lower_bound
binary_search xs begin end value =
    let at = lower_bound (suc (end - begin)) xs begin (end - begin) value in
    ltb at end && not (ltb value (get_or xs at minus_one))

unfoldable pub has_active_edge : GraphSnapshot → ℕ → ℕ → Bool
unfolding binary_search
has_active_edge g u v =
    if leb g.dimension u || leb g.dimension v
    then false
    else binary_search g.neighbors (get_or g.row_offsets u 0) (get_or g.row_offsets (u + 1) 0) v
