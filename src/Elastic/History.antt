-- ===== src/Elastic/History.antt =====
-- elastic/transport.rs: the search of a page of the history, with its point in time. An operation
-- gives its result and the connection after it.
use cubelite.Prelude.{
  ℕ, true, Option, none, some, List, ◌∷◌, ◌++◌, if◌then◌else◌, any, ◌==◌, unwrap_or,
}
use cubelite.Prelude.Results.{Result, ok, err, ◌>>=◌, map_ok}
use cubelite.Prelude.Texts.{Text, codes}
use cubelite.Json.{Value, get_str, one_field}
use cubelite.Elastic.Types.{EsEndpoint, ElasticError}
use cubelite.Elastic.Search.{
  HistoryQuery, HistoryCursor, validate_index_pattern, page_size, pit_keep_alive, str,
}
use cubelite.Elastic.Response.{HistoryPage, map_response}
use cubelite.Elastic.Transport.{
  post_method, delete_method, Request, RawResponse, Exchange, EsConnection, url, checked,
  history_body, no_pit_statuses, resume_sort,
}

abbrev pub Outcome : Type 0 → Type 0
Outcome A = Result ElasticError A × EsConnection

-- What a page's result is with the point in time to use next
abbrev pub next_on : Text → Option HistoryCursor → Option HistoryCursor
next_on latest none = none
next_on latest (some cursor) = some (record cursor { pit_id = some latest })

abbrev pub with_pit_id : Text → HistoryPage → HistoryPage
with_pit_id latest page = record page { next = next_on latest page.next }

abbrev pub open_request : EsConnection → EsEndpoint → Request
open_request c endpoint = record {
  method = post_method;
  url = url c (
      endpoint.index_pattern
      ++ codes "/_pit?keep_alive="
      ++ pit_keep_alive
      ++ codes "&ignore_unavailable=true");
  body = none;
}

abbrev pub pit_request : EsConnection → EsEndpoint → HistoryQuery → Text → Request
pit_request c endpoint query pit = record {
  method = post_method;
  url = url c (codes "_search");
  body = some (history_body endpoint query (some pit));
}

abbrev pub plain_request : EsConnection → EsEndpoint → HistoryQuery → Request
plain_request c endpoint query = record {
  method = post_method;
  url =
      url c
        (endpoint.index_pattern ++ codes "/_search?ignore_unavailable=true&allow_no_indices=true");
  body = some (history_body endpoint query none);
}

abbrev pub close_request : EsConnection → Text → Request
close_request c id = record {
  method = delete_method;
  url = url c (codes "_pit");
  body = some (one_field (codes "id") (str id));
}

-- `Ok(Some(id))`, and `Ok(None)` that the connection remembers
abbrev pub opened_as : Option Text → EsConnection → Outcome (Option Text)
opened_as none c = (ok none, record c { no_pit = true })
opened_as (some id) c = (ok (some id), c)

abbrev pub opened : Result ElasticError Value → EsConnection → Outcome (Option Text)
opened (ok body) c = opened_as (get_str body (codes "id")) c
opened (err (ElasticError.http status reason)) c =
    if any (λ s. status == s) no_pit_statuses then opened_as none c else (ok none, c)
opened (err (ElasticError.connect e)) c = (err (ElasticError.connect e), c)
opened (err (ElasticError.config e)) c = (ok none, c)
opened (err (ElasticError.response e)) c = (ok none, c)

module _ (print : Value → Text) (uppercase : ℕ → Text) (parse : Text → Result Text Value)
    (transport : Option Text → List Exchange → Request → Result Text RawResponse) where
  unfoldable pub send : EsConnection → Request → Outcome Value
  unfolding checked
  send c request =
      let answer = transport c.auth c.sent request in
      (
        checked parse answer,
        record c { sent = record { request = request; answer = answer } ∷ c.sent },
      )

  unfoldable pub close_pit : Text → EsConnection → EsConnection
  unfolding send
  close_pit id c = (send c (close_request c id)).1

  unfoldable pub close_cursor : HistoryCursor → EsConnection → EsConnection
  unfolding close_pit
  close_cursor cursor c = elim cursor.pit_id [ none ↦ c | some id ↦ close_pit id c ]

  unfoldable pub open_pit : EsConnection → EsEndpoint → Outcome (Option Text)
  unfolding send
  open_pit c endpoint =
      if c.no_pit
      then (ok none, c)
      else let sent = send c (open_request c endpoint) in opened sent.0 sent.1

  abbrev pub pit_page : EsEndpoint → Text → ℕ → Value → Result ElasticError (HistoryPage × Text)
  pit_page endpoint pit size response =
      let latest : Text = unwrap_or (get_str response (codes "pit_id")) pit in
      map_ok (λ page. (with_pit_id latest page, latest))
        (map_response print uppercase response endpoint.preset size)

  unfoldable pub search_pit :
      EsConnection → EsEndpoint → HistoryQuery → Text → ℕ → Outcome (HistoryPage × Text)
  unfolding send history_body map_response
  search_pit c endpoint query pit size =
      let sent = send c (pit_request c endpoint query pit) in
      (sent.0 >>= pit_page endpoint pit size, sent.1)

  unfoldable pub search_plain : EsConnection → EsEndpoint → HistoryQuery → ℕ → Outcome HistoryPage
  unfolding send history_body map_response
  search_plain c endpoint query size =
      let sent = send c (plain_request c endpoint query) in
      (sent.0 >>= (λ response. map_response print uppercase response endpoint.preset size), sent.1)

  abbrev pub close_if_last : Option HistoryCursor → Text → EsConnection → EsConnection
  close_if_last none latest c = close_pit latest c
  close_if_last (some cursor) latest c = c

  unfoldable pub settle :
      Result ElasticError (HistoryPage × Text) → Option Text → EsConnection → Outcome HistoryPage
  unfolding close_pit
  settle (ok found) pit c = (ok found.0, close_if_last (HistoryPage.next found.0) found.1 c)
  settle (err e) none c = (err e, c)
  settle (err e) (some id) c = (err e, close_pit id c)

  -- The first page's outcome on a new point in time
  unfoldable pub first_result :
      EsEndpoint
      → HistoryQuery
      → ℕ
      → Text
      → Result ElasticError (HistoryPage × Text)
      → EsConnection
      → Outcome HistoryPage
  unfolding close_pit settle search_plain
  first_result endpoint query size pit (err (ElasticError.http status reason)) c =
      if status == 400
      then search_plain (record (close_pit pit c) { no_pit = true }) endpoint query size
      else settle (err (ElasticError.http status reason)) (some pit) c
  first_result endpoint query size pit (err (ElasticError.connect e)) c =
      settle (err (ElasticError.connect e)) (some pit) c
  first_result endpoint query size pit (err (ElasticError.config e)) c =
      settle (err (ElasticError.config e)) (some pit) c
  first_result endpoint query size pit (err (ElasticError.response e)) c =
      settle (err (ElasticError.response e)) (some pit) c
  first_result endpoint query size pit (ok found) c = settle (ok found) (some pit) c

  abbrev pub first_opened :
      EsEndpoint
      → HistoryQuery
      → ℕ
      → Result ElasticError (Option Text)
      → EsConnection
      → Outcome HistoryPage
  first_opened endpoint query size (err e) c = (err e, c)
  first_opened endpoint query size (ok none) c = search_plain c endpoint query size
  first_opened endpoint query size (ok (some pit)) c =
      let found = search_pit c endpoint query pit size in
      first_result endpoint query size pit found.0 found.1

  unfoldable pub first_page : EsConnection → EsEndpoint → HistoryQuery → ℕ → Outcome HistoryPage
  unfolding open_pit search_plain search_pit first_result
  first_page c endpoint query size =
      let fresh = open_pit c endpoint in first_opened endpoint query size fresh.0 fresh.1

  -- The search again, on a fresh point in time
  unfoldable pub resumed :
      EsEndpoint
      → HistoryQuery
      → ℕ
      → HistoryCursor
      → Text
      → Result ElasticError (Option Text)
      → EsConnection
      → Outcome HistoryPage
  unfolding resume_sort search_pit settle
  resumed endpoint query size cursor reason (err e) c = (err (ElasticError.http 404 reason), c)
  resumed endpoint query size cursor reason (ok none) c = (err (ElasticError.http 404 reason), c)
  resumed endpoint query size cursor reason (ok (some fresh)) c =
      let again : HistoryQuery = record query {
        search_after = some (record { pit_id = some fresh; sort = resume_sort cursor.sort });
      } in
      let found = search_pit c endpoint again fresh size in settle found.0 (some fresh) found.1

  unfoldable pub next_result :
      EsEndpoint
      → HistoryQuery
      → ℕ
      → HistoryCursor
      → Result ElasticError (HistoryPage × Text)
      → EsConnection
      → Outcome HistoryPage
  unfolding settle open_pit resumed
  next_result endpoint query size cursor (err (ElasticError.http status reason)) c =
      if status == 404
      then (let fresh = open_pit c endpoint in
          resumed endpoint query size cursor reason fresh.0 fresh.1)
      else settle (err (ElasticError.http status reason)) none c
  next_result endpoint query size cursor (err (ElasticError.connect e)) c =
      settle (err (ElasticError.connect e)) none c
  next_result endpoint query size cursor (err (ElasticError.config e)) c =
      settle (err (ElasticError.config e)) none c
  next_result endpoint query size cursor (err (ElasticError.response e)) c =
      settle (err (ElasticError.response e)) none c
  next_result endpoint query size cursor (ok found) c = settle (ok found) none c

  abbrev pub page_after :
      EsConnection
      → EsEndpoint
      → HistoryQuery
      → ℕ
      → HistoryCursor
      → Option Text
      → Outcome HistoryPage
  page_after c endpoint query size cursor none = search_plain c endpoint query size
  page_after c endpoint query size cursor (some pit) =
      let found = search_pit c endpoint query pit size in
      next_result endpoint query size cursor found.0 found.1

  abbrev pub page :
      EsConnection → EsEndpoint → HistoryQuery → ℕ → Option HistoryCursor → Outcome HistoryPage
  page c endpoint query size none = first_page c endpoint query size
  page c endpoint query size (some cursor) = page_after c endpoint query size cursor cursor.pit_id

  abbrev pub if_valid :
      Result ElasticError (Unit {0}) → Outcome HistoryPage → EsConnection → Outcome HistoryPage
  if_valid (err e) rest c = (err e, c)
  if_valid (ok done) rest c = rest

  unfoldable pub search : EsConnection → EsEndpoint → HistoryQuery → Outcome HistoryPage
  unfolding validate_index_pattern first_page search_plain search_pit next_result
  search c endpoint query =
      if_valid (validate_index_pattern endpoint.index_pattern)
        (page c endpoint query (page_size query) query.search_after) c
