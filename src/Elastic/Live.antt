-- ===== src/Elastic/Live.antt =====
-- elastic/transport.rs: the points in time that are open after the requests of an operation.
use cubelite.Prelude.{
  ℕ, ◌≡◌, inl, inr, refl, sym, ap, false, Option, none, some, List, [], ◌∷◌, ◌++◌, any, ◌==◌,
  Bool-cases,
}
use mathlib.Core.Path.{subst}
use cubelite.Prelude.Results.{Result, ok, err, ◌>>=◌}
use cubelite.Prelude.Texts.{Text, codes, text_eq}
use cubelite.Json.{Value, get, get_field, as_str, get_str}
use cubelite.Elastic.Types.{EsEndpoint, ElasticError}
use cubelite.Elastic.Search.{HistoryQuery, option_list}
use cubelite.Elastic.Transport.{
  Method, post_method, delete_method, Request, RawResponse, Exchange, EsConnection, checked,
  no_pit_statuses,
}
use cubelite.Elastic.History.{
  plain_request, open_request, pit_request, pit_page, opened, opened_as, send, close_pit, open_pit,
  search_pit, search_plain,
}
use cubelite.Elastic.PointInTime.{
  pit_in, history_body-pit, remove, searched, opened_id, Served, answered-Served,
}

abbrev pub newly : Result ElasticError (Option Text) → List Text
newly (ok id) = option_list id
newly (err e) = []

append_nil : (xs : List Text) → xs ++ [] ≡ xs
append_nil [] = refl
append_nil (x ∷ xs) = ap (λ (t : List Text). x ∷ t) (append_nil xs)

module _ (print : Value → Text) (uppercase : ℕ → Text) (parse : Text → Result Text Value)
    (transport : Option Text → List Exchange → Request → Result Text RawResponse)
    (endpoint : EsEndpoint) (size : ℕ) (held : List Text) where
  abbrev posted_on : Option Text → Result ElasticError Value → List Text → List Text
  posted_on none answer live = live
  posted_on (some pit) answer live = searched pit answer live

  abbrev posted : Option Value → Result ElasticError Value → List Text → List Text
  posted none answer live = opened_id answer ++ live
  posted (some body) answer live = posted_on (pit_in body) answer live

  abbrev deleted : Option Value → List Text → List Text
  deleted none live = live
  deleted (some body) live = elim (get_str body (codes "id")) [
    | none ↦ live
    | some id ↦ remove id live
  ]

  abbrev effect : Method → Option Value → Result ElasticError Value → List Text → List Text
  effect post_method body answer live = posted body answer live
  effect delete_method body answer live = deleted body live

  -- The points in time that are open after the exchanges, the newest of which is the first
  abbrev pub live : List Exchange → List Text
  live [] = held
  live (e ∷ older) =
      let before = live older in
      effect e.request.method e.request.body (checked parse e.answer) before

  pub close_pit-live :
      (id : Text) (c : EsConnection)
      → live (close_pit print uppercase parse transport id c).sent ≡ remove id (live c.sent)
  unfolding close_pit send get get_field text_eq as_str
  close_pit-live id c = refl

  pub search_plain-live :
      (c : EsConnection) (query : HistoryQuery)
      → live (search_plain print uppercase parse transport c endpoint query size).1.sent
        ≡ live c.sent
  unfolding search_plain send
  search_plain-live c query =
      ap
        (λ p.
          posted_on p (checked parse (transport c.auth c.sent (plain_request c endpoint query)))
            (live c.sent))
        (history_body-pit endpoint query none)

  opened_as-live :
      (id : Option Text) (c : EsConnection)
      → live c.sent ≡ option_list id
      → live (opened_as id c).1.sent ≡ newly (opened_as id c).0
  opened_as-live none c h = h
  opened_as-live (some id) c h = h

  opened-live :
      (a : Result ElasticError Value) (c : EsConnection)
      → live c.sent ≡ opened_id a
      → live (opened a c).1.sent ≡ newly (opened a c).0
  opened-live (ok body) c h = opened_as-live (get_str body (codes "id")) c h
  opened-live (err (ElasticError.http status reason)) c h =
      elim (Bool-cases (any (λ s. status == s) no_pit_statuses)) [ inl e ↦ rw e h | inr e ↦ rw e h ]
  opened-live (err (ElasticError.connect e)) c h = h
  opened-live (err (ElasticError.config e)) c h = h
  opened-live (err (ElasticError.response e)) c h = h

  pub search_pit-Served :
      (c : EsConnection) (query : HistoryQuery) (pit : Text)
      → live c.sent ≡ pit ∷ []
      → Served pit
          (search_pit print uppercase parse transport c endpoint query pit size).0
          (live (search_pit print uppercase parse transport c endpoint query pit size).1.sent)
  unfolding search_pit send
  search_pit-Served c query pit h =
      let a = checked parse (transport c.auth c.sent (pit_request c endpoint query pit)) in
      subst
        (λ p.
          Served pit (a >>= pit_page print uppercase parse transport endpoint pit size)
            (posted_on p a (live c.sent)))
        (sym (history_body-pit endpoint query (some pit)))
        (answered-Served print uppercase parse transport endpoint size pit a h)

  pub open_pit-live :
      (c : EsConnection)
      → live c.sent ≡ []
      → live (open_pit print uppercase parse transport c endpoint).1.sent
        ≡ newly (open_pit print uppercase parse transport c endpoint).0
  unfolding open_pit send
  open_pit-live c h = elim (Bool-cases c.no_pit) [
    | inl e ↦ rw e h
    | inr e ↦ rw e (
        opened-live (checked parse (transport c.auth c.sent (open_request c endpoint)))
          (record c {
            no_pit = false;
            sent =
                record {
                  request = open_request c endpoint;
                  answer = transport c.auth c.sent (open_request c endpoint);
                }
                ∷ c.sent;
          })
          (rw h (append_nil _)))
  ]
