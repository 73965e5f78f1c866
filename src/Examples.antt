-- ===== src/Examples.antt =====
-- Six points of a 2 by 3 grid with ten active edges, on which the theorems are applied. The edge
-- {0, 2} runs past the vertex 1, which is a Jonker-Volgenant witness for it.
mod Witnesses
mod Scans
mod Matchings
mod Stages
use mathlib.Core.List.{Mem, Nodup}
use cuda_edge_elimination.Base.{
  ℕ, ◌+◌, ◌-◌, ◌*◌, ◌<◌, ◌≤◌, ◌≡◌, ◌≢◌, ◌⊎◌, inl, inr, refl, List, [], ◌∷◌, ◌++◌, arith, Bool, true,
  false, leb, ltb, ◌==◌, ◌||◌, ◌&&◌, zero, suc, subst, sym, ℕ_discrete, Bool-cases, leb→le, some,
  none, length, get_or, ◌^◌,
}
use cuda_edge_elimination.Base.Int.{ℤ, pos, negsuc, ◌-ℤ◌}
use cuda_edge_elimination.Base.Outcome.{Outcome, ok, err, Error}
use cuda_edge_elimination.Types.{Point, Edge, DistanceType, euc_2d, Candidate, jv, hamilton_tutte}
use cuda_edge_elimination.Distance.{
  FloatOps, integer_sqrt_floor, exact_integer_distance, round_squared, squared_distance,
}
use cuda_edge_elimination.Distance.Rounding.{FloatLaws}
use cuda_edge_elimination.Graph.{
  GraphSnapshot, rebuild_csr, distance, row, degree, offsets_of, filled, canonical_sorted,
}
use cuda_edge_elimination.Graph.Rows.{IsWellFormed, rebuild_csr-IsWellFormed}
use cuda_edge_elimination.Graph.Metric.{metric, WeightsMatch}
use cuda_edge_elimination.Graph.Edges.{Adjacent}
use cuda_edge_elimination.Graph.Hash.{content_hash}
use cuda_edge_elimination.Commit.{
  commit_verified_candidates, apply_committed, all_valid, degrees_from, select, unique_candidates,
  sort_candidates,
}
use cuda_edge_elimination.Tours.{IsTour, IsOptimal, Along, tour_cost}
use cuda_edge_elimination.Elimination.{cpu}
use cuda_edge_elimination.Elimination.Run.{Device, run_jv_elimination}
use cuda_edge_elimination.Elimination.{HtVerifier, EliminationResult, no_certificate}
use cuda_edge_elimination.Elimination.Survive.{Keeps, run_jv_elimination-Keeps}
use cuda_edge_elimination.Tours.Check.{IsTour-check, all_below, all_below-at}
use cuda_edge_elimination.Tours.Bound.{IsOptimal-of_least}
use cuda_edge_elimination.Jv.{verify_jv_candidate, is_jv_witness}

-- Integers in place of doubles.
abbrev pub integer_ops : FloatOps
integer_ops = record {
  sub = λ a b. (a - b) + (b - a);
  add = λ a b. a + b;
  hypot = λ a b. a + b;
  is_finite = λ a. true;
  less = ltb;
  floor = λ a. a;
  ceil = λ a. a;
  to_int64 = λ a. a;
}

pub integer_laws : FloatLaws integer_ops
integer_laws = record { hypot-sub_comm = λ a b c d. omega arith }

abbrev pub point : ℕ → ℕ → Point
point x y = record { x = x; y = y; integer_x = pos x; integer_y = pos y }

abbrev pub edge : ℕ → ℕ → ℕ → Edge
edge u v w = record { u = u; v = v; weight = w; active = true }

abbrev pub loaded : GraphSnapshot
loaded = record {
  dimension = 6;
  distance_type = euc_2d;
  integer_coordinates = true;
  integer_distance_safe = true;
  points = point 0 0 ∷ point 10 0 ∷ point 20 0 ∷ point 0 10 ∷ point 10 10 ∷ point 20 10 ∷ [];
  edges =
      edge 0 1 10
      ∷ edge 0 2 20
      ∷ edge 0 3 10
      ∷ edge 0 4 14
      ∷ edge 1 2 10
      ∷ edge 1 4 10
      ∷ edge 2 4 14
      ∷ edge 2 5 10
      ∷ edge 3 4 10
      ∷ edge 4 5 10
      ∷ [];
  row_offsets = [];
  neighbors = [];
  csr_edge_ids = [];
  csr_weights = [];
}

abbrev pub sample : GraphSnapshot
sample = rebuild_csr loaded

abbrev pub around : List ℕ
around = 0 ∷ 1 ∷ 2 ∷ 5 ∷ 4 ∷ 3 ∷ []

abbrev pub shortcut : Candidate
shortcut = record { edge_id = pos 1; witness = pos 1; method = jv }

pub sample-IsWellFormed : IsWellFormed sample
sample-IsWellFormed = rebuild_csr-IsWellFormed loaded (ground arith) (ground arith)

pub sample-WeightsMatch : WeightsMatch integer_ops sample sample.edges
unfolding rebuild_csr distance exact_integer_distance round_squared squared_distance ◌-ℤ◌
    integer_sqrt_floor
sample-WeightsMatch =
    (refl, (refl, (refl, (refl, (refl, (refl, (refl, (refl, (refl, (refl, tt))))))))))

pub around-Along : Along (Adjacent sample.edges) around
unfolding rebuild_csr
around-Along = ground arith

around-IsTour : IsTour 6 around
around-IsTour = IsTour-check 6 around refl refl refl

pub shortcut-accepted : verify_jv_candidate integer_ops sample shortcut ≡ ok true
unfolding verify_jv_candidate is_jv_witness rebuild_csr offsets_of filled canonical_sorted degree
    row distance exact_integer_distance round_squared squared_distance ◌-ℤ◌ integer_sqrt_floor
shortcut-accepted = refl

all_far :
    all_below 6 (λ u. all_below 6 (λ v. (u == v) || leb 10 (metric integer_ops sample u v))) ≡ true
unfolding metric rebuild_csr distance exact_integer_distance round_squared squared_distance ◌-ℤ◌
    integer_sqrt_floor
all_far = refl

far : (x y : ℕ) → x < 6 → y < 6 → x ≢ y → 10 ≤ metric integer_ops sample x y
far x y hx hy ne = elim (Bool-cases (leb 10 (metric integer_ops sample x y))) [
  | inl fine ↦ leb→le 10 (metric integer_ops sample x y) fine
  | inr near ↦
      let row_ok =
        all_below-at 6 (λ u. all_below 6 (λ v. (u == v) || leb 10 (metric integer_ops sample u v)))
          x hx all_far in
      let here =
        all_below-at 6 (λ v. (x == v) || leb 10 (metric integer_ops sample x v)) y hy row_ok in
      ground arith
]

around_cost : tour_cost (metric integer_ops sample) around ≡ 60
unfolding metric rebuild_csr distance exact_integer_distance round_squared squared_distance ◌-ℤ◌
    integer_sqrt_floor
around_cost = refl

pub around-IsOptimal : IsOptimal (metric integer_ops sample) sample.dimension around
unfolding rebuild_csr
around-IsOptimal =
    IsOptimal-of_least (metric integer_ops sample) 6 10 far around around-IsTour (omega arith)
      around_cost

pub sample-Keeps : Keeps integer_ops around sample
sample-Keeps = record {
  well_formed = sample-IsWellFormed;
  weights = sample-WeightsMatch;
  optimal = around-IsOptimal;
  along = around-Along;
}

-- A device that answers nonsense: a candidate with a wrong witness.
abbrev pub broken : Device
broken = record {
  available = true;
  propose = λ g. ok (record { edge_id = pos 3; witness = pos 5; method = jv } ∷ []);
}

-- The snapshot after {0, 2} is committed.
abbrev pub trimmed : GraphSnapshot
trimmed = apply_committed sample (shortcut ∷ [])

pub commit_eq :
    commit_verified_candidates sample (shortcut ∷ []) (content_hash sample)
    ≡ ok (trimmed, shortcut ∷ [])
unfolding commit_verified_candidates content_hash rebuild_csr all_valid degrees_from degree select
    unique_candidates sort_candidates offsets_of
commit_eq = refl

-- A certificate is a Jonker-Volgenant candidate for {0, 2}, and the verifier is the test of it.
abbrev pub checker : HtVerifier
checker = record {
  HtProof = Candidate;
  proven = λ p. true;
  snapshot_hash = λ p. content_hash sample;
  target_u = λ p. pos 0;
  target_v = λ p. pos 2;
  verify = λ g p. verify_jv_candidate integer_ops g p;
  serialize = λ p. ok [];
}

-- A run that commits {0, 2}.
abbrev pub recorded : EliminationResult Candidate
recorded = record {
  backend = "cpu";
  initial_hash = content_hash sample;
  final_hash = content_hash trimmed;
  proof =
      record {
        epoch = 0;
        snapshot_hash = content_hash sample;
        edge_id = pos 1;
        u = pos 0;
        v = pos 2;
        witness = pos 1;
        method = jv;
        certificate_index = no_certificate;
      }
      ∷ [];
  ht_proofs = [];
  epochs = [];
}

-- A run that commits {0, 2} by a certificate.
abbrev pub certified : EliminationResult Candidate
certified = record {
  backend = "ht";
  initial_hash = content_hash sample;
  final_hash = content_hash trimmed;
  proof =
      record {
        epoch = 0;
        snapshot_hash = content_hash sample;
        edge_id = pos 1;
        u = pos 0;
        v = pos 2;
        witness = negsuc 0;
        method = hamilton_tutte;
        certificate_index = 0;
      }
      ∷ [];
  ht_proofs = shortcut ∷ [];
  epochs = [];
}
