-- ===== src/Protection.antt =====
-- CheckProtectedTour of src/common/tour.cpp: the cost of a tour, its edges that are no longer active,
-- and its identity. The vertices are natural numbers: a negative one is rejected as one that is too
-- large is.
pub mod Walked
use cuda_edge_elimination.Base.{
  ℕ, zero, suc, ◌+◌, ◌-◌, List, [], ◌∷◌, ◌++◌, Bool, true, false, not, ◌&&◌, ◌||◌, ltb, leb, ◌==◌,
  if◌then◌else◌, get_or, set, length, replicate,
}
use cuda_edge_elimination.Base.Outcome.{Outcome, ok, err, Error, throw_if, ◌>>=◌, ◌>>◌}
use cuda_edge_elimination.Base.Words.{i64_max}
use cuda_edge_elimination.Distance.{FloatOps}
use cuda_edge_elimination.Graph.{GraphSnapshot, distance, has_active_edge}
use cuda_edge_elimination.Graph.Hash.{hash_bytes}

pub record Ends : Type 0 where
  pub low : ℕ
  pub high : ℕ

-- std::minmax
abbrev pub minmax : ℕ → ℕ → Ends
minmax a b = if ltb b a then record { low = b; high = a } else record { low = a; high = b }

-- The variables of the loop.
pub record Walk : Type 0 where
  pub seen : List Bool
  pub tour_edges : List Ends
  pub cost : ℕ
  pub missing_edges : ℕ

pub record ProtectedTourCheck : Type 0 where
  pub cost : ℕ
  pub missing_edges : ℕ
  pub tour_hash : ℕ

ends_less : Ends → Ends → Bool
ends_less a b = ltb a.low b.low || (a.low == b.low && ltb a.high b.high)

insert_ends : Ends → List Ends → List Ends
unfolding ends_less
insert_ends a [] = a ∷ []
insert_ends a (b ∷ bs) = if ends_less b a then b ∷ insert_ends a bs else a ∷ b ∷ bs

-- std::sort, as an insertion sort.
sort_ends : List Ends → List Ends
unfolding insert_ends
sort_ends [] = []
sort_ends (a ∷ rest) = insert_ends a (sort_ends rest)

-- The start value of the tour's hash, as it is written in the source.
abbrev tour_basis : ℕ
tour_basis = 1469598103934665603

hash_ends : ℕ → List Ends → ℕ
hash_ends hash [] = hash
hash_ends hash (e ∷ es) = hash_ends (hash_bytes (hash_bytes hash e.low 4) e.high 4) es

module _ (fp : FloatOps) (g : GraphSnapshot) where
  -- The body of the loop, for a vertex and the one that follows it on the tour.
  pub visit : Walk → ℕ → ℕ → Outcome Walk
  visit w from to = do
    throw_if (leb g.dimension from || get_or w.seen from false) Error.invalid_argument
    d ← distance fp g from to
    throw_if (ltb (i64_max - d) w.cost) Error.overflow_error
    let edge = minmax from to
    ok (record {
      seen = set w.seen from true;
      tour_edges = w.tour_edges ++ edge ∷ [];
      cost = w.cost + d;
      missing_edges = w.missing_edges + (if has_active_edge g edge.low edge.high then 0 else 1);
    })

  -- The loop over what is left of the tour; the last vertex is followed by `first`.
  pub walk : ℕ → List ℕ → Walk → Outcome Walk
  unfolding visit
  walk first [] w = ok w
  walk first (x ∷ []) w = visit w x first
  walk first (x ∷ y ∷ rest) w = do w' ← visit w x y; walk first (y ∷ rest) w'

  abbrev pub walk_start : Walk
  walk_start = record {
    seen = replicate g.dimension false;
    tour_edges = [];
    cost = 0;
    missing_edges = 0;
  }

  unfoldable pub check_protected_tour : List ℕ → Outcome ProtectedTourCheck
  unfolding walk sort_ends hash_ends
  check_protected_tour tour = do
    throw_if (g.dimension == 0 || not (length tour == g.dimension)) Error.invalid_argument
    w ← walk (get_or tour 0 0) tour walk_start
    ok (record {
      cost = w.cost;
      missing_edges = w.missing_edges;
      tour_hash = hash_ends (hash_bytes tour_basis g.dimension 4) (sort_ends w.tour_edges);
    })
