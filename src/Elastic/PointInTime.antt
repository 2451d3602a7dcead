-- ===== src/Elastic/PointInTime.antt =====
-- elastic/transport.rs: the points in time that are open after the requests of a search.
use cubelite.Prelude.{
  ◌≡◌, ◌⊎◌, inl, inr, refl, Bool, false, Option, none, some, List, [], ◌∷◌, if◌then◌else◌, not,
  filter, map, unwrap_or, is_some, ℕ, ◌==◌, and_then, Bool-cases,
}
use cubelite.Prelude.Results.{Result, ok, err, ◌>>=◌}
use cubelite.Prelude.Texts.{Text, codes, text_eq, text_eq_refl}
use cubelite.Json.{Value, get, get_field, insert_field, as_str, get_str}
use cubelite.Elastic.Types.{FieldPreset, EsEndpoint, ElasticError, term}
use cubelite.Elastic.Search.{
  HistoryQuery, HistoryCursor, option_list, search_body, page_body, with_search_after,
}
use cubelite.Elastic.Response.{HistoryPage, map_response}
use cubelite.Elastic.Paging.{hits_of}
use cubelite.Elastic.Transport.{
  history_body, apply, narrowed, update_field, Exchange, Request, RawResponse,
}
use cubelite.Elastic.History.{next_on, pit_page}

abbrev pub pit_in : Value → Option Text
pit_in body = and_then (get body (codes "pit")) (λ p. get_str p (codes "id"))

narrowed-pit :
    (o : Option (Text × Text)) (query : HistoryQuery) (preset : FieldPreset) (pit : Option Text)
    (after : Option HistoryCursor)
    → pit_in (narrowed o (Value.object (with_search_after after (page_body query preset pit))))
      ≡ pit
unfolding narrowed page_body update_field get get_field insert_field text_eq as_str
narrowed-pit none query preset none none = refl
narrowed-pit none query preset none (some after) = refl
narrowed-pit none query preset (some pit) none = refl
narrowed-pit none query preset (some pit) (some after) = refl
narrowed-pit (some (f, v)) query preset none none = refl
narrowed-pit (some (f, v)) query preset none (some after) = refl
narrowed-pit (some (f, v)) query preset (some pit) none = refl
narrowed-pit (some (f, v)) query preset (some pit) (some after) = refl

pub history_body-pit :
    (endpoint : EsEndpoint) (query : HistoryQuery) (pit : Option Text)
    → pit_in (history_body endpoint query pit) ≡ pit
unfolding history_body search_body apply
history_body-pit endpoint query pit =
    narrowed-pit (and_then endpoint.cluster_filter (λ f. term f endpoint.preset)) query
      endpoint.preset pit query.search_after

abbrev pub remove : Text → List Text → List Text
remove id live = filter (λ p. not (text_eq p id)) live

abbrev pub renamed : Text → Text → List Text → List Text
renamed old new live = map (λ p. if text_eq p old then new else p) live

-- An expired point in time is open no more.
abbrev pub gone : ElasticError → Bool
gone (ElasticError.http status reason) = status == 404
gone (ElasticError.config e) = false
gone (ElasticError.connect e) = false
gone (ElasticError.response e) = false

-- What the answer to a page's search says of its point in time: an answer with hits renames it to the
-- id that it names, if any.
abbrev pub searched : Text → Result ElasticError Value → List Text → List Text
searched pit (ok response) live =
    if is_some (hits_of response)
    then renamed pit (unwrap_or (get_str response (codes "pit_id")) pit) live
    else live
searched pit (err e) live = if gone e then remove pit live else live

abbrev pub opened_id : Result ElasticError Value → List Text
opened_id (ok body) = option_list (get_str body (codes "id"))
opened_id (err e) = []

-- What a search asks of the points in time: to be held for the next page, or none
abbrev pub carried : List Text → Result ElasticError HistoryPage → List Text
carried held (ok page) = option_list (and_then page.next (λ c. c.pit_id))
carried held (err e) = held

abbrev pub Carries : Option HistoryCursor → Text → Type 0
Carries none latest = Unit {0}
Carries (some cursor) latest = cursor.pit_id ≡ some latest

abbrev pub Served : Text → Result ElasticError (HistoryPage × Text) → List Text → Type 0
Served pit (ok found) live = (live ≡ found.1 ∷ []) × Carries (HistoryPage.next found.0) found.1
Served pit (err e) live = (live ≡ []) ⊎ ((live ≡ pit ∷ []) × (gone e ≡ false))

-- No point in time is open, or the one that the caller has for its next page.
abbrev pub Kept : List Text → Result ElasticError HistoryPage → List Text → Type 0
Kept held result live = (live ≡ []) ⊎ (live ≡ carried held result)

pub remove-one : (id : Text) {live : List Text} → live ≡ id ∷ [] → remove id live ≡ []
remove-one id h = rw (h, text_eq_refl id) refl

pub Carries-next_on :
    (latest : Text) (next : Option HistoryCursor) → Carries (next_on latest next) latest
Carries-next_on latest none = tt
Carries-next_on latest (some cursor) = refl

pub failed-Served :
    (pit : Text) (e : ElasticError) {live : List Text}
    → live ≡ pit ∷ []
    → Served pit (err e) (searched pit (err e) live)
failed-Served pit e h = elim (Bool-cases (gone e)) [
  | inl g ↦ inl (rw g (remove-one pit h))
  | inr g ↦ inr (rw g h, g)
]

map_response-cases :
    (print : Value → Text) (uppercase : ℕ → Text) (response : Value) (preset : FieldPreset)
    (size : ℕ)
    → ((hits_of response ≡ none)
        × (map_response print uppercase response preset size
            ≡ err (ElasticError.response (codes "no hits.hits array"))))
      ⊎ ((hits : List Value) × (page : HistoryPage) × (hits_of response ≡ some hits)
          × (map_response print uppercase response preset size ≡ ok page))
unfolding map_response
map_response-cases print uppercase response preset size = go (hits_of response) refl
  where
    go :
        (o : Option (List Value))
        → hits_of response ≡ o
        → ((hits_of response ≡ none)
            × (map_response print uppercase response preset size
                ≡ err (ElasticError.response (codes "no hits.hits array"))))
          ⊎ ((hits : List Value) × (page : HistoryPage) × (hits_of response ≡ some hits)
              × (map_response print uppercase response preset size ≡ ok page))
    go none q = inl (q, rw q refl)
    go (some hits) q = mapped (map_response print uppercase response preset size) refl
      where
        mapped :
            (r : Result ElasticError HistoryPage)
            → map_response print uppercase response preset size ≡ r
            → ((hits_of response ≡ none)
                × (map_response print uppercase response preset size
                    ≡ err (ElasticError.response (codes "no hits.hits array"))))
              ⊎ ((hits : List Value) × (page : HistoryPage) × (hits_of response ≡ some hits)
                  × (map_response print uppercase response preset size ≡ ok page))
        mapped (ok page) e = inr (hits, page, q, e)
        mapped (err x) e = let k = rw q at e in cc k

pub answered-Served :
    (print : Value → Text) (uppercase : ℕ → Text) (parse : Text → Result Text Value)
    (transport : Option Text → List Exchange → Request → Result Text RawResponse)
    (endpoint : EsEndpoint) (size : ℕ) (pit : Text) (a : Result ElasticError Value)
    {live : List Text}
    → live ≡ pit ∷ []
    → Served pit
        (a >>= pit_page print uppercase parse transport endpoint pit size)
        (searched pit a live)
answered-Served print uppercase parse transport endpoint size pit (err e) h = failed-Served pit e h
answered-Served print uppercase parse transport endpoint size pit (ok response) h =
    elim (map_response-cases print uppercase response endpoint.preset size) [
      | inl (no_hits, failed) ↦ rw (no_hits, failed) (inr (h, refl))
      | inr (hits, page, has, mapped) ↦
          rw (has, mapped) (rw (h, text_eq_refl pit) refl, Carries-next_on _ page.next)
    ]
