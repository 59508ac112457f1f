-- ===== src/Xvm/Series.antt =====
-- VectorValue, FormatMetricValues and GetMetricSeries of client/xvm/metrics_result.go.
use opendevops_codo_golang_s.Xvm.{
  Numbers, dereferenced, vector_value, Labelled, Metric, MetricData, MetricResult, Point, pair_up,
  timestamp, is_success, value, string_value,
}
use opendevops_codo_golang_s.Common.{
  Bytes, List, Option, if◌then◌else◌, map, ◌∷◌, ◌≡◌, none, not, ◌↔◌, ◌⊎◌, [], arith, utf8, same_iff,
  some,
}

record MetricValue (F T : Type 0) : Type 0 where
  pub at : T
  pub sample : F
  pub raw : Bytes

module _ {F T : Type 0} (lib : Numbers F T) where
  -- FormatMetricValues
  unfoldable format_metric_values : List (Point F) → List (MetricValue F T)
  format_metric_values =
      map (λ p. record { at = timestamp lib p; sample = value lib p; raw = string_value lib p })

  -- GetMetricSeries
  unfoldable get_metric_series : MetricResult F → List (Labelled × List (MetricValue F T))
  get_metric_series r =
      if not (is_success r)
      then []
      else map (λ m. (m.labels, format_metric_values m.values)) r.metrics.result

-- A metric whose value is nil.
abbrev HasNil : {F : Type 0} → List (Metric F) → Type 0
HasNil [] = ⊥
HasNil (t ∷ ts) = (t.single ≡ none) ⊎ HasNil ts

pair_up-eq-none :
    {F : Type 0} (labels : Labelled) (p : Option (Point F))
    (rest : Option (List (Labelled × Point F)))
    → (pair_up labels p rest ≡ none) ↔ ((p ≡ none) ⊎ (rest ≡ none))
pair_up-eq-none labels none rest = ground arith
pair_up-eq-none labels (some p) none = ground arith
pair_up-eq-none labels (some p) (some ps) = ground arith

dereferenced-eq-none : {F : Type 0} (ts : List (Metric F)) → (dereferenced ts ≡ none) ↔ HasNil ts
unfolding dereferenced
dereferenced-eq-none [] = ground arith
dereferenced-eq-none (t ∷ ts) =
    ground (arith, pair_up-eq-none t.labels t.single (dereferenced ts), dereferenced-eq-none ts)

-- VectorValue panics exactly on a vector with a metric that has no value.
vector_value-eq-none :
    {F : Type 0} (d : MetricData F)
    → (vector_value d ≡ none) ↔ ((d.result_type ≡ utf8 "vector") × HasNil d.result)
unfolding vector_value
vector_value-eq-none d =
    ground (arith, same_iff d.result_type (utf8 "vector"), dereferenced-eq-none d.result)
