-- ===== src/Prometheus/Responses.antt =====
-- prometheus/mod.rs: the credentials, the errors and the answers of Prometheus. A 64-bit float is an
-- element of a type, with its readers from JSON and from a text and its test of finiteness.
use cubelite.Prelude.{
  ℕ, Bool, Option, none, some, List, [], ◌∷◌, ◌++◌, map, if◌then◌else◌, first, ◌==◌, take,
  unwrap_or, and_then, map_option, filter_option,
}
use cubelite.Prelude.Results.{Result, ok, err, ◌>>=◌, ok_or}
use cubelite.Prelude.Order.{text_cmp}
use cubelite.Prelude.Sort.{sort_by}
use cubelite.Prelude.Texts.{Text, codes, trim, is_text}
use cubelite.Json.{Value, get, get_str, as_str, as_array, to_list}
use cubelite.Prometheus.Workloads.{join_with}

pub data PromAuth : Type 0 where
  no_auth : PromAuth
  basic : Text → Text → PromAuth
  bearer : Text → PromAuth
  azure_cli : PromAuth

unfoldable pub method : PromAuth → Text
method no_auth = codes "none"
method (basic username password) = codes "basic"
method (bearer token) = codes "bearer"
method azure_cli = codes "azure-cli"

unfoldable pub header : (Text → Text) → PromAuth → Option Text
unfolding trim
header base64 no_auth = none
header base64 azure_cli = none
header base64 (basic username password) =
    some (codes "Basic " ++ base64 (username ++ codes ":" ++ password))
header base64 (bearer token) = some (codes "Bearer " ++ trim token)

pub data PromError : Type 0 where
  config : Text → PromError
  connect : Text → PromError
  http : ℕ → Text → PromError
  response : Text → PromError

pub record Series (F : Type 0) : Type 0 where
  pub label : Text
  pub points : List (F × Option F)

abbrev pub second : List Value → Option Value
second [] = none
second (v ∷ []) = none
second (v ∷ (w ∷ rest)) = some w

abbrev pub filter_map : {A B : Type 0} → (A → Option B) → List A → List B
filter_map change [] = []
filter_map change (a ∷ items) =
    let rest = filter_map change items in elim (change a) [ none ↦ rest | some b ↦ b ∷ rest ]

module _ {F : Type 0} (as_f64 : Value → Option F) (parse_f64 : Text → Option F)
    (is_finite : F → Bool) where
  unfoldable pub sample : Value → Option (F × Option F)
  unfolding as_array as_str
  sample v = and_then (as_array v) (λ pair. and_then (and_then (first pair) as_f64) (λ t.
      map_option (λ value. (t, filter_option is_finite (and_then (as_str value) parse_f64)))
        (second pair)))

  abbrev pub label_of : Value → Text → Text
  label_of item label = unwrap_or (and_then (get item (codes "metric")) (λ m. get_str m label)) []

  abbrev pub points_of : Option Value → Option Value → List (F × Option F)
  points_of (some (Value.array values)) value = filter_map sample (to_list values)
  points_of values (some v) = filter_map sample (v ∷ [])
  points_of values none = []

  abbrev pub series_of : List Text → Value → Series F
  series_of labels item = record {
    label = join_with (codes "/") (map (label_of item) labels);
    points = points_of (get item (codes "values")) (get item (codes "value"));
  }

  unfoldable pub parse_series : Value → List Text → Result PromError (List (Series F))
  unfolding sample get as_array to_list sort_by
  parse_series data_object labels = do
    result ←
        ok_or (PromError.response (codes "no data.result array"))
          (and_then (get data_object (codes "result")) as_array)
    ok (sort_by (λ (a b : Series F). text_cmp a.label b.label) (map (series_of labels) result))

unfoldable pub unwrap_data : Value → Result PromError Value
unfolding get
unwrap_data body =
    if is_text (get_str body (codes "status")) (codes "success")
    then ok_or (PromError.response (codes "no data")) (get body (codes "data"))
    else if is_text (get_str body (codes "status")) (codes "error")
    then err (PromError.http 400 (unwrap_or (get_str body (codes "error")) (codes "query failed")))
    else err (PromError.response (codes "no status field"))

abbrev pub status_reason : ℕ → Text → Text
status_reason status body =
    if status == 401
    then codes "authentication failed — check the credentials"
    else if status == 403
    then codes "access denied"
    else if status == 404
    then codes "not found — check the URL (it should end before /api/v1)"
    else take 200 body

unfoldable pub error_reason : (Text → Option Value) → Text → ℕ → Text
unfolding get
error_reason parse body status =
    unwrap_or (and_then (parse body) (λ v. get_str v (codes "error"))) (status_reason status body)
