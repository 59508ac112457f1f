-- ===== src/Examples/Orders.antt =====
-- The theorems on Go maps at maps of two pairs.
use opendevops_codo_golang_s.Go.Dict.{index, lookup}
use opendevops_codo_golang_s.Go.Number.{pos}
use opendevops_codo_golang_s.Xvm.{
  Labelled, MetricResult, get_values_for_metric, first_match, match_labels, int64, is_success, text,
}
use opendevops_codo_golang_s.Common.{
  ◌∷◌, List, Bytes, if◌then◌else◌, map, utf8, ℕ, ◌≡◌, Bool-cases, [], false, same, arith, inl, inr,
  sym, length, none, same_iff, refl,
}
use mathlib.Core.Quot
use opendevops_codo_golang_s.Xvm.Order.{get_values_for_metric-order, relabelled}
use opendevops_codo_golang_s.Go.Order.{here, range_of}

abbrev reordered : Labelled → Labelled
reordered [] = []
reordered (p ∷ []) = p ∷ []
reordered ((k, v) ∷ (j, w) ∷ m) = if same k j then (k, v) ∷ (j, w) ∷ m else (j, w) ∷ (k, v) ∷ m

same_labels : (l : Labelled) → range_of (reordered l) ≡ range_of l
same_labels [] = refl
same_labels (p ∷ []) = refl
same_labels ((k, v) ∷ (j, w) ∷ m) = elim (Bool-cases (same k j)) [
  | inl e ↦ rw e refl
  | inr e ↦ rw e (sym (Quot.sound (here k j v w m (ground (arith, same_iff k j)))))
]

abbrev on_host : Labelled
on_host = (utf8 "job", utf8 "mem") ∷ (utf8 "host", utf8 "a") ∷ []

abbrev one_series : MetricResult ℕ
one_series = record {
  status = utf8 "success";
  is_partial = false;
  metrics = record {
    result_type = utf8 "vector";
    result =
        record {
          labels = on_host;
          values = record { at = int64 (pos 1); sample = text (utf8 "2") } ∷ [];
          single = none;
        }
        ∷ [];
  };
  error = [];
  error_type = [];
}

on_host_found : length (get_values_for_metric one_series (reordered on_host)) ≡ 1
unfolding get_values_for_metric first_match match_labels is_success index lookup
on_host_found = refl

get_values_for_metric-order_example :
    get_values_for_metric
      (record one_series {
        metrics = record one_series.metrics {
          result = map (relabelled reordered) one_series.metrics.result;
        };
      })
      (reordered on_host)
    ≡ get_values_for_metric one_series on_host
get_values_for_metric-order_example =
    get_values_for_metric-order one_series reordered (reordered on_host) on_host same_labels
      (same_labels on_host)

abbrev accept : List (Bytes × List Bytes)
accept = (utf8 "Accept", utf8 "a" ∷ utf8 "b" ∷ []) ∷ (utf8 "Host", utf8 "h" ∷ []) ∷ []

abbrev accept_last : List (Bytes × List Bytes)
accept_last = (utf8 "Host", utf8 "h" ∷ []) ∷ (utf8 "Accept", utf8 "a" ∷ utf8 "b" ∷ []) ∷ []
