-- ===== src/Elastic/Search.antt =====
-- elastic/mod.rs: index patterns and the body of a history search; elastic/cluster_filter.rs: the
-- cluster's term in it.
use cubelite.Prelude.{
  ℕ, Bool, false, ◌&&◌, ◌||◌, not, Option, none, some, List, [], ◌∷◌, ◌++◌, if◌then◌else◌, ltb, all,
  any, is_empty, last, ◌==◌, map_option, filter_option, unwrap_or,
}
use cubelite.Prelude.Results.{Result, ok, err}
use cubelite.Prelude.Texts.{Text, codes, text_eq, trim}
use cubelite.Paths.{split}
use cubelite.Json.{Value, Fields, insert_field, from_list, one_field}
use cubelite.Prometheus.Workloads.{Workload, workload_pods_regex}
use cubelite.Prometheus.Workloads
use cubelite.Elastic.Types.{FieldPreset, PresetFields, fields, ElasticError}
use cubelite.Elastic.Escapes.{is_ascii_alphanumeric, lucene_regex_literal}

abbrev pub is_one_of : Text → ℕ → Bool
is_one_of chars c = any (λ d. c == d) chars

abbrev pub starts_with_one_of : Text → Text → Bool
starts_with_one_of chars [] = false
starts_with_one_of chars (c ∷ s) = is_one_of chars c

-- `split(':').next_back()` is `.` or `..`
unfoldable pub is_dot_segment : Text → Bool
unfolding split text_eq
is_dot_segment segment = elim (last (split b':' segment)) [
  | none ↦ false
  | some name ↦ text_eq name (codes ".") || text_eq name (codes "..")
]

unfoldable pub validate_index_pattern : Text → Result ElasticError (Unit {0})
unfolding is_ascii_alphanumeric is_dot_segment split trim
validate_index_pattern pattern =
    if not (is_empty (trim pattern))
      && all (λ c. is_ascii_alphanumeric c || is_one_of (codes "._-*,:+") c) pattern
      && not (starts_with_one_of (codes "_-+") pattern)
      && all (λ segment. not (is_dot_segment segment)) (split b',' pattern)
    then ok tt
    else err (
        ElasticError.config (
          codes "Invalid index pattern "
          ++ (34 ∷ (pattern ++ (34 ∷ codes ": use names and wildcards separated by commas")))))

pub record HistoryCursor : Type 0 where
  pub pit_id : Option Text
  pub sort : List Value

pub record HistoryQuery : Type 0 where
  pub namespace : Text
  pub pod : Text
  pub workload : Option Workload
  pub container : Option Text
  pub from : Text
  pub to : Text
  pub text : Option Text
  pub search_after : Option HistoryCursor
  pub size : Option ℕ

abbrev pub pit_keep_alive : Text
pit_keep_alive = codes "5m"

abbrev pub default_page : ℕ
default_page = 500

abbrev pub max_page : ℕ
max_page = 1000

abbrev pub str : Text → Value
str t = Value.string t

abbrev pub array_of : List Value → Value
array_of values = Value.array (from_list values)

-- `json!` of an object, from its fields
abbrev pub object_of : List (Text × Value) → Fields
object_of [] = Fields.end
object_of ((k, v) ∷ rest) = Fields.field k v (object_of rest)

abbrev pub should : List Value → Value
should clauses = one_field (codes "bool") (
    Value.object (
      object_of (
        (codes "should", array_of clauses)
        ∷ (codes "minimum_should_match", Value.unsigned 1)
        ∷ [])))

unfoldable pub exact : PresetFields → Text → Text → Value → Value
unfolding from_list
exact f kind field value =
    if not f.keyword_subfields
    then one_field kind (one_field field value)
    else should (
        one_field kind (one_field field value)
        ∷ one_field kind (one_field (field ++ codes ".keyword") value)
        ∷ [])

-- A job's pods also match its label, where the shipper stores it.
abbrev pub job_or_name : Workload → Option Text → Value → Value
job_or_name (Workload.job name) (some label) regexp =
    should (regexp ∷ one_field (codes "term") (one_field label (str name)) ∷ [])
job_or_name workload job_label regexp = regexp

abbrev pub workload_filter : PresetFields → Workload → Option Text → Value
workload_filter f workload none = exact f (codes "term") f.pod (str (Workloads.name workload))
workload_filter f workload (some pods) =
    job_or_name workload f.job_label
      (exact f (codes "regexp") f.pod (one_field (codes "value") (str pods)))

unfoldable pub pod_filter : HistoryQuery → FieldPreset → Option Value
unfolding fields exact from_list workload_pods_regex lucene_regex_literal Workloads.name
pod_filter query preset = elim query.workload [
  | none ↦
      if not (is_empty query.pod)
      then some (exact (fields preset) (codes "term") (fields preset).pod (str query.pod))
      else none
  | some workload ↦
      some (
        workload_filter (fields preset) workload
          (workload_pods_regex workload lucene_regex_literal))
]

abbrev pub option_list : {A : Type 0} → Option A → List A
option_list none = []
option_list (some a) = a ∷ []

-- `clamp(1, MAX_PAGE)`
abbrev pub clamp : ℕ → ℕ → ℕ → ℕ
clamp n lo hi = if ltb n lo then lo else if ltb hi n then hi else n

unfoldable pub filters : HistoryQuery → FieldPreset → List Value
unfolding fields exact pod_filter
filters query preset =
    exact (fields preset) (codes "term") (fields preset).namespace (str query.namespace)
    ∷ (option_list (pod_filter query preset)
        ++ (one_field (codes "range") (
              one_field (codes "@timestamp") (
                Value.object
                  (object_of ((codes "gte", str query.from) ∷ (codes "lte", str query.to) ∷ []))))
            ∷ option_list (
                map_option
                  (λ c. exact (fields preset) (codes "term") (fields preset).container (str c))
                  (filter_option (λ c. not (is_empty c)) query.container))))

unfoldable pub text_clauses : HistoryQuery → FieldPreset → List Value
unfolding fields trim from_list
text_clauses query preset = option_list (
    map_option
      (λ t. one_field (codes "simple_query_string") (
        Value.object (
          object_of (
            (codes "query", str t)
            ∷ (codes "fields", array_of (str (fields preset).message ∷ []))
            ∷ (codes "default_operator", str (codes "and"))
            ∷ []))))
      (filter_option (λ t. not (is_empty t)) (map_option trim query.text)))

abbrev pub timestamp_order : Value
timestamp_order = one_field (codes "@timestamp") (
    Value.object (
      object_of
        ((codes "order", str (codes "desc")) ∷ (codes "unmapped_type", str (codes "date")) ∷ [])))

abbrev pub sort_order : Option Text → List Value
sort_order (some id) = timestamp_order ∷ one_field (codes "_shard_doc") (str (codes "desc")) ∷ []
sort_order none =
    timestamp_order
    ∷ one_field (codes "_index") (str (codes "asc"))
    ∷ one_field (codes "_doc") (str (codes "asc"))
    ∷ []

abbrev pub bool_query : List Value → List Value → Value
bool_query filter must = one_field (codes "bool") (
    Value.object
      (object_of ((codes "filter", array_of filter) ∷ (codes "must", array_of must) ∷ [])))

abbrev pub with_pit : Option Text → Fields → Fields
with_pit none body = body
with_pit (some id) body = insert_field body (codes "pit") (
    Value.object (object_of ((codes "id", str id) ∷ (codes "keep_alive", str pit_keep_alive) ∷ [])))

abbrev pub with_search_after : Option HistoryCursor → Fields → Fields
with_search_after none body = body
with_search_after (some after) body = insert_field body (codes "search_after") (array_of after.sort)

abbrev pub page_size : HistoryQuery → ℕ
page_size query = clamp (unwrap_or query.size default_page) 1 max_page

-- The body without `search_after`
unfoldable pub page_body : HistoryQuery → FieldPreset → Option Text → Fields
unfolding filters text_clauses from_list insert_field
page_body query preset pit = with_pit pit (
    object_of (
      (codes "size", Value.unsigned (page_size query))
      ∷ (codes "track_total_hits", Value.unsigned 10000)
      ∷ (codes "query", bool_query (filters query preset) (text_clauses query preset))
      ∷ (codes "sort", array_of (sort_order pit))
      ∷ []))

unfoldable pub search_body : HistoryQuery → FieldPreset → Option Text → Value
unfolding page_body from_list insert_field
search_body query preset pit =
    Value.object (with_search_after query.search_after (page_body query preset pit))
