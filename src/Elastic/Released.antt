-- ===== src/Elastic/Released.antt =====
-- elastic/transport.rs: a search leaves no point in time open but the one of its next page.
use cubelite.Prelude.{
  ℕ, ◌≡◌, ◌⊎◌, inl, inr, refl, sym, ap, ◌∙◌, Bool, true, Option, none, some, List, [], ◌∷◌, ◌==◌,
  and_then, Bool-cases,
}
use cubelite.Prelude.Results.{Result, ok, err}
use cubelite.Prelude.Texts.{Text}
use cubelite.Json.{Value}
use cubelite.Elastic.Types.{EsEndpoint, ElasticError}
use cubelite.Elastic.Search.{
  HistoryQuery, HistoryCursor, option_list, page_size, validate_index_pattern,
}
use cubelite.Elastic.Response.{HistoryPage}
use cubelite.Elastic.Transport.{Request, RawResponse, Exchange, EsConnection, resume_sort}
use cubelite.Elastic.History.{
  Outcome, close_pit, open_pit, search_pit, search_plain, settle, close_if_last, first_result,
  first_opened, first_page, resumed, next_result, page_after, page, if_valid, search,
}
use cubelite.Elastic.PointInTime.{remove, Carries, Served, Kept, remove-one}
use cubelite.Elastic.Live.{
  live, newly, close_pit-live, search_plain-live, search_pit-Served, open_pit-live,
}

module _ (print : Value → Text) (uppercase : ℕ → Text) (parse : Text → Result Text Value)
    (transport : Option Text → List Exchange → Request → Result Text RawResponse)
    (endpoint : EsEndpoint) (size : ℕ) (held : List Text) where
  abbrev open_in : List Exchange → List Text
  open_in sent = live print uppercase parse transport endpoint size held sent

  close_if_last-Kept :
      (next : Option HistoryCursor) (latest : Text) (c : EsConnection)
      → open_in c.sent ≡ latest ∷ []
      → Carries next latest
      → (open_in (close_if_last print uppercase parse transport next latest c).sent ≡ [])
        ⊎ (open_in (close_if_last print uppercase parse transport next latest c).sent
            ≡ option_list (and_then next (λ n. n.pit_id)))
  close_if_last-Kept none latest c h k = inl (
      close_pit-live print uppercase parse transport endpoint size held latest c
      ∙ remove-one latest h)
  close_if_last-Kept (some cursor) latest c h k =
      inr (h ∙ sym (ap (λ (o : Option Text). option_list o) k))

  -- The result of a search on a point in time, settled, with it closed on a failure or held by the caller
  settle-Kept :
      (pit : Text) (r : Result ElasticError (HistoryPage × Text)) (opened_here : Option Text)
      (c : EsConnection)
      → Served pit r (open_in c.sent)
      → (opened_here ≡ some pit) ⊎ ((opened_here ≡ none) × (held ≡ pit ∷ []))
      → Kept held
          (settle print uppercase parse transport r opened_here c).0
          (open_in (settle print uppercase parse transport r opened_here c).1.sent)
  unfolding settle
  settle-Kept pit (ok found) opened_here c (h, k) o =
      close_if_last-Kept (HistoryPage.next found.0) found.1 c h k
  settle-Kept pit (err e) none c s (inl o) = cc o
  settle-Kept pit (err e) none c (inl h) (inr o) = inl h
  settle-Kept pit (err e) none c (inr h) (inr o) = inr (h.0 ∙ sym o.1)
  settle-Kept pit (err e) (some id) c (inl h) o =
      inl (rw (close_pit-live print uppercase parse transport endpoint size held id c, h) refl)
  settle-Kept pit (err e) (some id) c (inr h) (inl o) =
      let same : pit ≡ id = cc o in
      inl (
        close_pit-live print uppercase parse transport endpoint size held id c
        ∙ remove-one id (h.0 ∙ ap (λ (p : Text). p ∷ []) same))
  settle-Kept pit (err e) (some id) c (inr h) (inr o) = cc (o.0)

  abbrev Done : Outcome HistoryPage → Type 0
  Done out = Kept held out.0 (open_in out.1.sent)

  search_plain-Done :
      (c : EsConnection) (query : HistoryQuery)
      → open_in c.sent ≡ []
      → Done (search_plain print uppercase parse transport c endpoint query size)
  search_plain-Done c query h =
      inl (search_plain-live print uppercase parse transport endpoint size held c query ∙ h)

  first_result-Done :
      (query : HistoryQuery) (pit : Text) (r : Result ElasticError (HistoryPage × Text))
      (c : EsConnection)
      → Served pit r (open_in c.sent)
      → Done (first_result print uppercase parse transport endpoint query size pit r c)
  unfolding first_result
  first_result-Done query pit (err (ElasticError.http status reason)) c s =
      elim (Bool-cases (status == 400)) [
        | inl e ↦ rw e (
            search_plain-Done
              (record (close_pit print uppercase parse transport pit c) { no_pit = true }) query
              (close_pit-live print uppercase parse transport endpoint size held pit c
                ∙ released s))
        | inr e ↦
            rw e (settle-Kept pit (err (ElasticError.http status reason)) (some pit) c s (inl refl))
      ]
    where
      released :
          Served pit (err (ElasticError.http status reason)) (open_in c.sent)
          → remove pit (open_in c.sent) ≡ []
      released (inl h) = rw h refl
      released (inr h) = remove-one pit h.0
  first_result-Done query pit (err (ElasticError.connect e)) c s =
      settle-Kept pit (err (ElasticError.connect e)) (some pit) c s (inl refl)
  first_result-Done query pit (err (ElasticError.config e)) c s =
      settle-Kept pit (err (ElasticError.config e)) (some pit) c s (inl refl)
  first_result-Done query pit (err (ElasticError.response e)) c s =
      settle-Kept pit (err (ElasticError.response e)) (some pit) c s (inl refl)
  first_result-Done query pit (ok found) c s = settle-Kept pit (ok found) (some pit) c s (inl refl)

  first_opened-Done :
      (query : HistoryQuery) (fresh : Result ElasticError (Option Text)) (c : EsConnection)
      → open_in c.sent ≡ newly fresh
      → Done (first_opened print uppercase parse transport endpoint query size fresh c)
  first_opened-Done query (err e) c h = inl h
  first_opened-Done query (ok none) c h = search_plain-Done c query h
  first_opened-Done query (ok (some pit)) c h =
      let found = search_pit print uppercase parse transport c endpoint query pit size in
      first_result-Done query pit found.0 found.1
        (search_pit-Served print uppercase parse transport endpoint size held c query pit h)

  first_page-Done :
      (c : EsConnection) (query : HistoryQuery)
      → open_in c.sent ≡ []
      → Done (first_page print uppercase parse transport c endpoint query size)
  unfolding first_page
  first_page-Done c query h =
      let fresh = open_pit print uppercase parse transport c endpoint in
      first_opened-Done query fresh.0 fresh.1
        (open_pit-live print uppercase parse transport endpoint size held c h)

  resumed-Done :
      (query : HistoryQuery) (cursor : HistoryCursor) (reason : Text)
      (fresh : Result ElasticError (Option Text)) (c : EsConnection)
      → open_in c.sent ≡ newly fresh
      → Done (resumed print uppercase parse transport endpoint query size cursor reason fresh c)
  unfolding resumed
  resumed-Done query cursor reason (err e) c h = inl h
  resumed-Done query cursor reason (ok none) c h = inl h
  resumed-Done query cursor reason (ok (some fresh)) c h =
      let again : HistoryQuery = record query {
        search_after = some (record { pit_id = some fresh; sort = resume_sort cursor.sort });
      } in
      let found = search_pit print uppercase parse transport c endpoint again fresh size in
      settle-Kept fresh found.0 (some fresh) found.1
        (search_pit-Served print uppercase parse transport endpoint size held c again fresh h)
        (inl refl)

  next_result-Done :
      (query : HistoryQuery) (cursor : HistoryCursor) (pit : Text)
      (r : Result ElasticError (HistoryPage × Text)) (c : EsConnection)
      → held ≡ pit ∷ []
      → Served pit r (open_in c.sent)
      → Done (next_result print uppercase parse transport endpoint query size cursor r c)
  unfolding next_result
  next_result-Done query cursor pit (err (ElasticError.http status reason)) c o s =
      elim (Bool-cases (status == 404)) [
        | inl e ↦
            let fresh = open_pit print uppercase parse transport c endpoint in
            rw e (
              resumed-Done query cursor reason fresh.0 fresh.1
                (open_pit-live print uppercase parse transport endpoint size held c (expired s e)))
        | inr e ↦
            rw e (settle-Kept pit (err (ElasticError.http status reason)) none c s (inr (refl, o)))
      ]
    where
      expired :
          Served pit (err (ElasticError.http status reason)) (open_in c.sent)
          → (status == 404) ≡ true
          → open_in c.sent ≡ []
      expired (inl h) e = h
      expired (inr h) e = cc (h.1, e)
  next_result-Done query cursor pit (err (ElasticError.connect e)) c o s =
      settle-Kept pit (err (ElasticError.connect e)) none c s (inr (refl, o))
  next_result-Done query cursor pit (err (ElasticError.config e)) c o s =
      settle-Kept pit (err (ElasticError.config e)) none c s (inr (refl, o))
  next_result-Done query cursor pit (err (ElasticError.response e)) c o s =
      settle-Kept pit (err (ElasticError.response e)) none c s (inr (refl, o))
  next_result-Done query cursor pit (ok found) c o s =
      settle-Kept pit (ok found) none c s (inr (refl, o))

  page_after-Done :
      (query : HistoryQuery) (cursor : HistoryCursor) (pit : Option Text) (c : EsConnection)
      → held ≡ option_list pit
      → open_in c.sent ≡ held
      → Done (page_after print uppercase parse transport c endpoint query size cursor pit)
  page_after-Done query cursor none c o h = search_plain-Done c query (h ∙ o)
  page_after-Done query cursor (some pit) c o h =
      let found = search_pit print uppercase parse transport c endpoint query pit size in
      next_result-Done query cursor pit found.0 found.1 o
        (search_pit-Served print uppercase parse transport endpoint size held c query pit (h ∙ o))

  page-Done :
      (query : HistoryQuery) (after : Option HistoryCursor) (c : EsConnection)
      → held ≡ option_list (and_then after (λ a. a.pit_id))
      → open_in c.sent ≡ held
      → Done (page print uppercase parse transport c endpoint query size after)
  page-Done query none c o h = first_page-Done c query (h ∙ o)
  page-Done query (some cursor) c o h = page_after-Done query cursor cursor.pit_id c o h

  if_valid-Done :
      (checks : Result ElasticError (Unit {0})) (rest : Outcome HistoryPage) (c : EsConnection)
      → open_in c.sent ≡ held
      → Done rest
      → Done (if_valid print uppercase parse transport checks rest c)
  if_valid-Done (err e) rest c h done = inr h
  if_valid-Done (ok u) rest c h done = done

abbrev pub held_by : HistoryQuery → List Text
held_by query = option_list (and_then query.search_after (λ after. after.pit_id))

abbrev pub connection : Text → Option Text → Bool → EsConnection
connection base auth no_pit = record { base = base; auth = auth; no_pit = no_pit; sent = [] }

-- Whatever the server answers, after a search on a new connection no point in time is open, or only
-- that of the cursor which the caller has: the next cursor of the page, or, if the search failed,
-- the cursor it was called with. What is open is read off the requests and their answers: an
-- answered open opens one, an answer with hits to a page of it renames it to the id that this
-- answer names, if it names one, an answer that it is gone ends it, and a request to delete it
-- closes it, answered or not.
pub search-Kept :
    (print : Value → Text) (uppercase : ℕ → Text) (parse : Text → Result Text Value)
    (transport : Option Text → List Exchange → Request → Result Text RawResponse)
    (endpoint : EsEndpoint) (query : HistoryQuery) (base : Text) (auth : Option Text)
    (no_pit : Bool)
    → let out =
        search print uppercase parse transport (connection base auth no_pit) endpoint query in
      Kept
        (held_by query)
        out.0
        (live print uppercase parse transport endpoint (page_size query) (held_by query) out.1.sent)
unfolding search
search-Kept print uppercase parse transport endpoint query base auth no_pit =
    let start = connection base auth no_pit in
    if_valid-Done print uppercase parse transport endpoint (page_size query) (held_by query)
      (validate_index_pattern endpoint.index_pattern)
      (page print uppercase parse transport start endpoint query (page_size query)
        query.search_after)
      start refl
      (page-Done print uppercase parse transport endpoint (page_size query) (held_by query) query
        query.search_after start refl refl)
