-- ===== src/Tours.antt =====
-- Closed tours through the vertices of a graph, their cost, and the edges that they use: the
-- specification against which eliminations are judged.
pub mod Exchange
pub mod Walk
pub mod Crossing
pub mod Bound
pub mod Check
use mathlib.Core.List.{Mem, Nodup}
use cuda_edge_elimination.Base.{ℕ, ◌+◌, ◌≤◌, ◌<◌, ◌≡◌, ◌↔◌, ◌⊎◌, List, [], ◌∷◌, ◌++◌}

-- The cost of a walk through the listed vertices.
abbrev pub path_cost : (ℕ → ℕ → ℕ) → List ℕ → ℕ
path_cost d [] = 0
path_cost d (x ∷ []) = 0
path_cost d (x ∷ y ∷ rest) = d x y + path_cost d (y ∷ rest)

-- A tour is the cyclic sequence of its vertices: the walk returns to the first one.
abbrev pub closed : List ℕ → List ℕ
closed [] = []
closed (x ∷ rest) = x ∷ rest ++ x ∷ []

abbrev pub tour_cost : (ℕ → ℕ → ℕ) → List ℕ → ℕ
tour_cost d t = path_cost d (closed t)

-- Every vertex below `n` occurs exactly once, and nothing else does.
pub record IsTour (n : ℕ) (t : List ℕ) : Type 0 where
  pub once : Nodup t
  pub covers : (x : ℕ) → Mem x t ↔ (x < n)

-- `a` is followed by `b` on the walk.
abbrev pub Follows : List ℕ → ℕ → ℕ → Type 0
Follows t a b = (xs : List ℕ) × (ys : List ℕ) × (t ≡ xs ++ a ∷ b ∷ ys)

-- Every step of the walk is in the relation.
abbrev pub AlongPath : (ℕ → ℕ → Type 0) → List ℕ → Type 0
AlongPath E [] = Unit {0}
AlongPath E (x ∷ []) = Unit {0}
AlongPath E (x ∷ y ∷ rest) = E x y × AlongPath E (y ∷ rest)

-- Every step of the tour is an edge of the graph.
abbrev pub Along : (ℕ → ℕ → Type 0) → List ℕ → Type 0
Along E t = AlongPath E (closed t)

-- The tour passes along the undirected edge {a, b}.
abbrev pub Uses : List ℕ → ℕ → ℕ → Type 0
Uses t a b = Follows (closed t) a b ⊎ Follows (closed t) b a

pub record IsOptimal (d : ℕ → ℕ → ℕ) (n : ℕ) (t : List ℕ) : Type 0 where
  pub tour : IsTour n t
  pub best : (t' : List ℕ) → IsTour n t' → tour_cost d t ≤ tour_cost d t'
