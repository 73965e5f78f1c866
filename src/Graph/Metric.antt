-- ===== src/Graph/Metric.antt =====
-- GraphSnapshot::Distance as a total symmetric function, and the graphs on which it never throws and
-- agrees with the stored weights, as GraphSnapshot::Load checks (src/common/graph.cpp).
use cuda_edge_elimination.Base.{ℕ, ◌≡◌, refl, ap, List, [], ◌∷◌, arith, get_or}
use cuda_edge_elimination.Base.Outcome.{Outcome, ok, err}
use cuda_edge_elimination.Types.{Edge}
use cuda_edge_elimination.Distance.{FloatOps}
use cuda_edge_elimination.Distance.Rounding.{
  FloatLaws, exact_integer_distance_comm, floating_distance_comm,
}
use cuda_edge_elimination.Graph.{GraphSnapshot, distance, origin, rebuild_csr}

-- GraphSnapshot::Distance is symmetric in its two vertices, exceptions included, provided the
-- operations on doubles satisfy FloatLaws.
pub distance_comm :
    (fp : FloatOps) (g : GraphSnapshot) (u v : ℕ)
    → FloatLaws fp
    → distance fp g u v ≡ distance fp g v u
unfolding distance
distance_comm fp g u v laws = ground (
  arith,
  exact_integer_distance_comm (get_or g.points u origin) (get_or g.points v origin) g.distance_type,
  floating_distance_comm fp (get_or g.points u origin) (get_or g.points v origin) g.distance_type
      laws,
)

abbrev value_or_zero : Outcome ℕ → ℕ
value_or_zero (ok d) = d
value_or_zero (err e) = 0

-- The distance where Distance returns one.
unfoldable pub metric : FloatOps → GraphSnapshot → ℕ → ℕ → ℕ
metric fp g u v = value_or_zero (distance fp g u v)

pub metric_comm :
    (fp : FloatOps) (g : GraphSnapshot)
    → FloatLaws fp
    → (u v : ℕ) → metric fp g u v ≡ metric fp g v u
unfolding metric
metric_comm fp g laws u v = rw (distance_comm fp g u v laws)

pub metric_of :
    (fp : FloatOps) (g : GraphSnapshot) (u v d : ℕ) → distance fp g u v ≡ ok d → metric fp g u v ≡ d
unfolding metric
metric_of fp g u v d e = rw e

-- Every stored weight is the distance of the edge's ends.
abbrev pub WeightsMatch : FloatOps → GraphSnapshot → List Edge → Type 0
WeightsMatch fp g [] = Unit {0}
WeightsMatch fp g (e ∷ es) = (distance fp g e.u e.v ≡ ok e.weight) × WeightsMatch fp g es

-- Distances do not depend on the edges or on the compressed rows.
pub distance-rebuild_csr :
    (fp : FloatOps) (g : GraphSnapshot) (es : List Edge) (u v : ℕ)
    → distance fp (rebuild_csr (record g { edges = es })) u v ≡ distance fp g u v
unfolding rebuild_csr distance
distance-rebuild_csr fp g es u v = refl

pub metric_cong :
    (fp : FloatOps) (g g' : GraphSnapshot) (u v : ℕ)
    → distance fp g u v ≡ distance fp g' u v
    → metric fp g u v ≡ metric fp g' u v
unfolding metric
metric_cong fp g g' u v e = ap value_or_zero e
