-- ===== src/Xvm.antt =====
-- client/xvm/metrics_result.go: what a query returns. A Go map of labels is an association list, and a
-- nil slice is the empty list. `none` stands for a panic.
pub mod Labels
pub mod Order
pub mod Series
pub mod Query
pub mod Request
use opendevops_codo_golang_s.Go.Dict.{index}
use opendevops_codo_golang_s.Go.Number.{ℤ}
use opendevops_codo_golang_s.Common.{
  Bool, Bytes, List, Option, if◌then◌else◌, same, some, true, ◌∷◌, [], none, not, utf8, map, false,
}

-- The dynamic types that Point tells apart: string, float64, float32, int64 and the rest. F is float64.
pub data Dynamic (F : Type 0) : Type 0 where
  text : Bytes → Dynamic F
  float64 float32 : F → Dynamic F
  int64 : ℤ → Dynamic F
  other : Bytes → Dynamic F

pub record Point (F : Type 0) : Type 0 where
  pub at : Dynamic F
  pub sample : Dynamic F

-- Package time's Unix and its zero time, the conversion of a float64 to an int64, fmt.Sscanf with %f (zero
-- where it fails), the float64 0, and the verb %v.
pub record Numbers (F T : Type 0) : Type 0 where
  pub unix : ℤ → T
  pub zero_time : T
  pub to_int : F → ℤ
  pub scan_float : Bytes → F
  pub zero : F
  pub verb_v : Dynamic F → Bytes

module _ {F T : Type 0} (lib : Numbers F T) where
  -- Point.Timestamp
  unfoldable pub timestamp : Point F → T
  timestamp p = elim p.at [
    | float64 ts ↦ lib.unix (lib.to_int ts)
    | int64 ts ↦ lib.unix ts
    | _ ↦ lib.zero_time
  ]

  -- Point.Value; a float32 is the float64 of the same number.
  unfoldable pub value : Point F → F
  value p = elim p.sample [
    | text v ↦ lib.scan_float v
    | float64 v ↦ v
    | float32 v ↦ v
    | _ ↦ lib.zero
  ]

  -- Point.StringValue
  unfoldable pub string_value : Point F → Bytes
  string_value p = elim p.sample [ text v ↦ v | v ↦ lib.verb_v v ]

abbrev pub Labelled : Type 0
Labelled = List (Bytes × Bytes)

pub record Metric (F : Type 0) : Type 0 where
  pub labels : Labelled
  pub values : List (Point F)
  pub single : Option (Point F)

pub record MetricData (F : Type 0) : Type 0 where
  pub result_type : Bytes
  pub result : List (Metric F)

pub record MetricResult (F : Type 0) : Type 0 where
  pub status : Bytes
  pub is_partial : Bool
  pub metrics : MetricData F
  pub error : Bytes
  pub error_type : Bytes

-- MetricResult.IsSuccess and IsError
unfoldable pub is_success : {F : Type 0} → MetricResult F → Bool
is_success r = same r.status (utf8 "success")

unfoldable pub is_error : {F : Type 0} → MetricResult F → Bool
is_error r = same r.status (utf8 "error")

-- IsMatrix, IsVector, IsScalar and IsString
abbrev is_matrix : {F : Type 0} → MetricData F → Bool
is_matrix d = same d.result_type (utf8 "matrix")

abbrev is_vector : {F : Type 0} → MetricData F → Bool
is_vector d = same d.result_type (utf8 "vector")

abbrev is_scalar : {F : Type 0} → MetricData F → Bool
is_scalar d = same d.result_type (utf8 "scalar")

abbrev is_string : {F : Type 0} → MetricData F → Bool
is_string d = same d.result_type (utf8 "string")

-- MatrixValue
unfoldable matrix_value : {F : Type 0} → MetricData F → List (Labelled × List (Point F))
matrix_value d = if is_matrix d then map (λ t. (t.labels, t.values)) d.result else []

-- One round of arrayx.Map with a body that reads *t.Value.
abbrev pub pair_up :
    {F : Type 0}
    → Labelled
    → Option (Point F)
    → Option (List (Labelled × Point F))
    → Option (List (Labelled × Point F))
pair_up labels none rest = none
pair_up labels (some p) none = none
pair_up labels (some p) (some ps) = some ((labels, p) ∷ ps)

unfoldable pub dereferenced : {F : Type 0} → List (Metric F) → Option (List (Labelled × Point F))
dereferenced [] = some []
dereferenced (t ∷ ts) = pair_up t.labels t.single (dereferenced ts)

-- VectorValue
unfoldable pub vector_value : {F : Type 0} → MetricData F → Option (List (Labelled × Point F))
vector_value d = if is_vector d then dereferenced d.result else some []

-- The same with a body that keeps *t.Value only.
abbrev beside : {F : Type 0} → Option (Point F) → Option (List (Point F)) → Option (List (Point F))
beside none rest = none
beside (some p) none = none
beside (some p) (some ps) = some (p ∷ ps)

unfoldable points : {F : Type 0} → List (Metric F) → Option (List (Point F))
points [] = some []
points (t ∷ ts) = beside t.single (points ts)

-- ScalarValue
unfoldable scalar_value : {F : Type 0} → MetricData F → Option (List (Point F))
scalar_value d = if is_scalar d then points d.result else some []

-- StringValue of MetricData
unfoldable string_values : {F : Type 0} → MetricData F → Option (List (Point F))
string_values d = if is_string d then points d.result else some []

-- matchLabels: the loop over what is expected.
unfoldable pub match_labels : (actual expected : Labelled) → Bool
match_labels actual [] = true
match_labels actual ((k, v) ∷ rest) =
    if not (same (index actual k) v) then false else match_labels actual rest

-- The loop of GetValuesForMetric.
unfoldable pub first_match : {F : Type 0} → List (Metric F) → Labelled → List (Point F)
first_match [] wanted = []
first_match (m ∷ ms) wanted =
    if match_labels m.labels wanted then m.values else first_match ms wanted

-- GetValuesForMetric
unfoldable pub get_values_for_metric : {F : Type 0} → MetricResult F → Labelled → List (Point F)
get_values_for_metric r wanted =
    if not (is_success r) then [] else first_match r.metrics.result wanted
