-- ===== src/Xvm/Order.antt =====
-- matchLabels and GetValuesForMetric of client/xvm/metrics_result.go read Go maps: what they answer as
-- functions of the maps, not of the order in which `range` visits the pairs.
use opendevops_codo_golang_s.Go.Dict.{index}
use opendevops_codo_golang_s.Common.{
  ◌∷◌, Bytes, ◌≡◌, Bool, arith, ap, if◌then◌else◌, not, same, false, [], refl, ◌∙◌, List, map,
}
use mathlib.Core.Quot
use mathlib.Core.Bool.{Bool-set}
use opendevops_codo_golang_s.Go.Order.{GoMap, Swap, here, there, range_of, index-Swap}
use opendevops_codo_golang_s.Xvm.{
  Labelled, match_labels, Metric, first_match, get_values_for_metric, MetricResult, is_success,
}

match_labels-pointwise :
    (a b wanted : Labelled)
    → ((k : Bytes) → index a k ≡ index b k)
    → match_labels a wanted ≡ match_labels b wanted
unfolding match_labels
match_labels-pointwise a b [] h = refl
match_labels-pointwise a b ((k, v) ∷ wanted) h =
    rw (h k) (
      ap (λ r. if not (same (index b k) v) then false else r) (match_labels-pointwise a b wanted h))

match_labels-Swap :
    (actual : Labelled) {m n : Labelled} → Swap m n → match_labels actual m ≡ match_labels actual n
unfolding match_labels
match_labels-Swap actual (here k j v w m h) = ground arith
match_labels-Swap actual (there (k, v) s) =
    ap (λ r. if not (same (index actual k) v) then false else r) (match_labels-Swap actual s)

-- matchLabels over a map of expected labels.
matched_by : Labelled → GoMap Bytes → Bool
matched_by actual = Quot.lift (hlevel) (match_labels actual) (λ m n s. match_labels-Swap actual s)

-- matchLabels of two maps.
matched : GoMap Bytes → GoMap Bytes → Bool
unfolding matched_by
matched actual wanted =
    Quot.lift (hlevel) (λ a. matched_by a wanted)
      (λ a b s.
        Quot.ind {β = λ w. matched_by a w ≡ matched_by b w} (λ w. Bool-set _ _)
          (λ w. match_labels-pointwise a b w (λ k. index-Swap k s)) wanted)
      actual

-- matchLabels answers the same for the same two maps, in whatever orders `range` visits their pairs.
match_labels-order :
    (a b m n : Labelled)
    → range_of a ≡ range_of b
    → range_of m ≡ range_of n
    → match_labels a m ≡ match_labels b n
unfolding matched matched_by
match_labels-order a b m n h k = ap (λ q. matched q (range_of m)) h ∙ ap (matched (range_of b)) k

-- The same metric with the pairs of its labels in another order.
abbrev pub relabelled : {F : Type 0} → (Labelled → Labelled) → Metric F → Metric F
relabelled f m = record m { labels = f m.labels }

first_match-order :
    {F : Type 0} (ms : List (Metric F)) (f : Labelled → Labelled) (m n : Labelled)
    → ((l : Labelled) → range_of (f l) ≡ range_of l)
    → range_of m ≡ range_of n
    → first_match (map (relabelled f) ms) m ≡ first_match ms n
unfolding first_match
first_match-order [] f m n h k = refl
first_match-order (t ∷ ts) f m n h k =
    rw (match_labels-order (f t.labels) t.labels m n (h t.labels) k)
      (ap (λ r. if match_labels t.labels n then t.values else r) (first_match-order ts f m n h k))

-- GetValuesForMetric returns the same points for the same result and the same labels, in whatever orders
-- `range` visits the maps of labels.
pub get_values_for_metric-order :
    {F : Type 0} (r : MetricResult F) (f : Labelled → Labelled) (m n : Labelled)
    → ((l : Labelled) → range_of (f l) ≡ range_of l)
    → range_of m ≡ range_of n
    → get_values_for_metric
        (record r { metrics = record r.metrics { result = map (relabelled f) r.metrics.result } })
        m
      ≡ get_values_for_metric r n
unfolding get_values_for_metric is_success
get_values_for_metric-order r f m n h k =
    ap (λ ps. if not (is_success r) then [] else ps) (first_match-order r.metrics.result f m n h k)
