-- ===== src/Elastic/Transport.antt =====
-- elastic/transport.rs: a connection to Elasticsearch and the pages of a history on a point in time;
-- elastic/cluster_filter.rs: the cluster's term in their bodies. What the server answers is a function
-- of the exchanges before, so that the connection's state is its flag and the exchanges.
use cubelite.Prelude.{
  ℕ, Bool, ◌&&◌, Option, none, some, List, [], ◌∷◌, ◌++◌, if◌then◌else◌, leb, ltb, first, ◌==◌,
  take, unwrap_or, and_then, or_else,
}
use cubelite.Prelude.Results.{Result, ok, err, map_err}
use cubelite.Prelude.Texts.{Text, codes, text_eq, starts_with}
use cubelite.Json.{Value, Fields, get, as_str, as_array, to_list, from_list, one_field}
use cubelite.Elastic.Types.{FieldPreset, ClusterFilter, term, EsEndpoint, ElasticError}
use cubelite.Elastic.Search.{HistoryQuery, search_body, str}

-- `pointer_mut` of a path of keys
unfoldable pub update_field : Fields → Text → (Value → Value) → Fields
unfolding text_eq
update_field Fields.end key change = Fields.end
update_field (Fields.field k v rest) key change =
    let others = update_field rest key change in
    if text_eq k key then Fields.field k (change v) rest else Fields.field k v others

abbrev pub under : Text → (Value → Value) → Value → Value
under key change (Value.object fs) = Value.object (update_field fs key change)
under key change v = v

unfoldable pub push_item : Value → Value → Value
unfolding to_list from_list
push_item item (Value.array items) = Value.array (from_list (to_list items ++ item ∷ []))
push_item item v = v

-- The term of a usable filter in the list of filters
unfoldable pub narrowed : Option (Text × Text) → Value → Value
unfolding update_field push_item
narrowed none body = body
narrowed (some (field, value)) body =
    under (codes "query")
      (under (codes "bool") (
        under (codes "filter")
          (push_item (one_field (codes "term") (one_field field (str value))))))
      body

unfoldable pub apply : Value → Option ClusterFilter → FieldPreset → Value
unfolding narrowed term
apply body filter preset = narrowed (and_then filter (λ f. term f preset)) body

pub data Method : Type 0 where
  post_method delete_method : Method

pub record Request : Type 0 where
  pub method : Method
  pub url : Text
  pub body : Option Value

pub record RawResponse : Type 0 where
  pub status : ℕ
  pub body : Text

pub record Exchange : Type 0 where
  pub request : Request
  pub answer : Result Text RawResponse

-- The exchanges are the newest first.
pub record EsConnection : Type 0 where
  pub base : Text
  pub auth : Option Text
  pub no_pit : Bool
  pub sent : List Exchange

abbrev pub largest_i64 : ℕ
largest_i64 = 9223372036854775807

unfoldable pub resume_sort : List Value → List Value
resume_sort sort = unwrap_or (first sort) Value.null ∷ Value.unsigned largest_i64 ∷ []

abbrev pub no_pit_statuses : List ℕ
no_pit_statuses = 400 ∷ 403 ∷ 404 ∷ 405 ∷ []

abbrev pub trim_start_slashes : Text → Text
trim_start_slashes [] = []
trim_start_slashes (c ∷ s) = let rest = trim_start_slashes s in if c == b'/' then rest else c ∷ s

abbrev pub url : EsConnection → Text → Text
url c path = c.base ++ codes "/" ++ trim_start_slashes path

-- The reason in the body of an error
abbrev pub reason_of : Value → Option Text
reason_of error =
    or_else
      (and_then
        (or_else
          (and_then (and_then (and_then (get error (codes "root_cause")) as_array) first)
            (λ r. get r (codes "reason")))
          (get error (codes "reason")))
        as_str)
      (as_str error)

abbrev pub status_reason : ℕ → Text → Text
status_reason status body =
    if status == 401
    then codes "authentication failed — check the credentials"
    else if status == 403
    then codes "the user may not read these indices"
    else if status == 404
    then codes "not found — check the index pattern"
    else take 200 body

abbrev pub parsed_reason : Result Text Value → Option Text
parsed_reason (err e) = none
parsed_reason (ok v) = and_then (get v (codes "error")) reason_of

module _ (parse : Text → Result Text Value) where
  unfoldable pub error_reason : Text → ℕ → Text
  unfolding get as_array as_str
  error_reason body status = unwrap_or (parsed_reason (parse body)) (status_reason status body)

  unfoldable pub checked : Result Text RawResponse → Result ElasticError Value
  unfolding error_reason starts_with
  checked (err e) = err (
      if starts_with e (codes "Credentials contain")
      then ElasticError.config e
      else ElasticError.connect e)
  checked (ok r) =
      if leb 200 r.status && ltb r.status 300
      then map_err (λ (e : Text). ElasticError.response e) (parse r.body)
      else err (ElasticError.http r.status (error_reason r.body r.status))

unfoldable pub history_body : EsEndpoint → HistoryQuery → Option Text → Value
unfolding search_body apply
history_body endpoint query pit =
    apply (search_body query endpoint.preset pit) endpoint.cluster_filter endpoint.preset
