-- ===== src/Xvm/Labels.antt =====
-- matchLabels and GetValuesForMetric of client/xvm/metrics_result.go.
use opendevops_codo_golang_s.Go.Dict.{index}
use opendevops_codo_golang_s.Common.{
  List, ◌≡◌, All, true, Bytes, false, ◌++◌, ◌↔◌, ◌∷◌, [], arith, refl, same_iff,
}
use opendevops_codo_golang_s.Xvm.{
  Labelled, first_match, get_values_for_metric, match_labels, Metric, MetricResult, is_success,
}

-- Labels match exactly where each expected label has the expected value; a missing one counts as empty.
match_labels_iff :
    (actual expected : Labelled)
    → (match_labels actual expected ≡ true)
      ↔ All (λ (p : Bytes × Bytes). index actual p.0 ≡ p.1) expected
unfolding match_labels
match_labels_iff actual [] = ((λ h. tt), (λ h. refl))
match_labels_iff actual ((k, v) ∷ rest) = (
  (λ h. (
    ground (arith, same_iff (index actual k) v),
    (match_labels_iff actual rest).0 (ground arith),
  )),
  (λ h. ground (arith, (same_iff (index actual k) v).1 h.0, (match_labels_iff actual rest).1 h.1)),
)

abbrev Unmatched : {F : Type 0} → Labelled → List (Metric F) → Type 0
Unmatched wanted = All (λ m. match_labels m.labels wanted ≡ false)

first_match-append :
    {F : Type 0} (wanted : Labelled) (m : Metric F) (before after : List (Metric F))
    → Unmatched wanted before
    → All (λ (p : Bytes × Bytes). index m.labels p.0 ≡ p.1) wanted
    → first_match (before ++ m ∷ after) wanted ≡ m.values
unfolding first_match
first_match-append wanted m [] after _ h = rw ((match_labels_iff m.labels wanted).1 h) refl
first_match-append wanted m (x ∷ ms) after (hx, hms) h =
    rw hx (first_match-append wanted m ms after hms h)

-- In a successful result the values are those of the first metric whose labels match.
get_values_for_metric-first :
    {F : Type 0} (r : MetricResult F) (wanted : Labelled) (before after : List (Metric F))
    (m : Metric F)
    → is_success r ≡ true
    → r.metrics.result ≡ before ++ m ∷ after
    → Unmatched wanted before
    → All (λ (p : Bytes × Bytes). index m.labels p.0 ≡ p.1) wanted
    → get_values_for_metric r wanted ≡ m.values
unfolding get_values_for_metric
get_values_for_metric-first r wanted before after m ok e skipped h =
    rw (ok, e) (first_match-append wanted m before after skipped h)
