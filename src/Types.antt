-- ===== src/Types.antt =====
-- include/cuda_edge_elimination/types.hpp: points, edges, candidates and proof records.
-- Vertex numbers of stored edges and edge weights are natural numbers, since GraphSnapshot::Load
-- rejects negative ones. The edge id and the witness of a candidate may be negative (-1 is the
-- default and the witness of every Hamilton-Tutte candidate), so these are integers. A `double` is
-- its bit pattern, as std::bit_cast reads it in ContentHash.
use cuda_edge_elimination.Base.{ℕ, Bool}
use cuda_edge_elimination.Base.Int.{ℤ}

pub data DistanceType : Type 0 where
  euc_2d ceil_2d : DistanceType

pub record Point : Type 0 where
  pub x : ℕ
  pub y : ℕ
  pub integer_x : ℤ
  pub integer_y : ℤ

pub record Edge : Type 0 where
  pub u : ℕ
  pub v : ℕ
  pub weight : ℕ
  pub active : Bool

pub data EliminationMethod : Type 0 where
  jv hamilton_tutte : EliminationMethod

pub record Candidate : Type 0 where
  pub edge_id : ℤ
  pub witness : ℤ
  pub method : EliminationMethod

pub record ProofRecord : Type 0 where
  pub epoch : ℕ
  pub snapshot_hash : ℕ
  pub edge_id : ℤ
  pub u : ℤ
  pub v : ℤ
  pub witness : ℤ
  pub method : EliminationMethod
  pub certificate_index : ℕ
