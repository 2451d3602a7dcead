-- ===== src/Elastic/Paging.antt =====
-- elastic/mod.rs: a page's cursor, and the search for the page after it.
use cubelite.Prelude.{
  map, ℕ, ◌≤◌, ◌%◌, ◌^◌, ◌≡◌, refl, sym, ap, ◌∙◌, Bool, Option, some, List, leb, last, length,
  length-map, and_then, and_then-eq-some, map_option-eq-some, arith, Bool-cases, inl, inr,
}
use cubelite.Prelude.Results.{ok, ok_or, >>=-eq-ok, ok_or-eq-ok}
use cubelite.Prelude.Texts.{Text, codes, text_eq, text_eq_refl}
use cubelite.Json.{
  Value, Items, Fields, get, get_field, as_array, to_list, from_list, insert_field, get_str,
}
use cubelite.Elastic.Types.{FieldPreset, fields, ElasticError}
use cubelite.Elastic.Search.{
  HistoryCursor, HistoryQuery, array_of, page_body, search_body, page_size,
}
use cubelite.Elastic.Response.{HistoryPage, next_cursor, map_response, total_of, line_of}

get_field-insert_field :
    (fs : Fields) (key : Text) (v : Value) → get_field (insert_field fs key v) key ≡ some v
unfolding get_field insert_field
get_field-insert_field Fields.end key v = rw (text_eq_refl key) refl
get_field-insert_field (Fields.field k w rest) key v = elim (Bool-cases (text_eq k key)) [
  | inl e ↦ rw (e, e) refl
  | inr e ↦ rw (e, e) (get_field-insert_field rest key v)
]

from_list-to_list : (items : Items) → from_list (to_list items) ≡ items
unfolding from_list to_list
from_list-to_list Items.nil = refl
from_list-to_list (Items.cons v items) =
    ap (λ (rest : Items). Items.cons v rest) (from_list-to_list items)

as_array-some : (v : Value) {values : List Value} → as_array v ≡ some values → array_of values ≡ v
unfolding as_array
as_array-some (Value.array items) h =
    let same : to_list items ≡ _ = cc h in
    ap (λ (l : List Value). array_of l) (sym same)
    ∙ ap (λ (i : Items). Value.array i) (from_list-to_list items)
as_array-some Value.null h = cc h
as_array-some (Value.boolean b) h = cc h
as_array-some (Value.unsigned n) h = cc h
as_array-some (Value.other_number t) h = cc h
as_array-some (Value.string t) h = cc h
as_array-some (Value.object f) h = cc h

-- The hits of a response
abbrev pub hits_of : Value → Option (List Value)
hits_of response =
    and_then (and_then (get response (codes "hits")) (λ h. get h (codes "hits"))) as_array

-- The cursor is that of the last hit of a full page.
next_cursor-some :
    (response : Value) (hits : List Value) (page_size : ℕ) {cursor : HistoryCursor}
    → next_cursor response hits page_size ≡ some cursor
    → (page_size ≤ length hits)
      × ((hit : Value) × (last hits ≡ some hit)
          × (get hit (codes "sort") ≡ some (array_of cursor.sort)))
unfolding next_cursor
next_cursor-some response hits page_size {cursor} h =
    elim (Bool-cases (leb page_size (length hits % 2 ^ 32))) [
      | inr e ↦ let k = rw e at h in cc k
      | inl e ↦
          let k = rw e at h in
          let (sort, found, same) =
            map_option-eq-some
              (λ (s : List Value). record { pit_id = get_str response (codes "pit_id"); sort = s })
              (and_then (and_then (last hits) (λ g. get g (codes "sort"))) as_array) k in
          let (v, from_hit, listed) =
            and_then-eq-some (and_then (last hits) (λ g. get g (codes "sort"))) as_array found in
          let (hit, is_last, has) =
            and_then-eq-some (last hits) (λ g. get g (codes "sort")) from_hit in
          let s : sort ≡ cursor.sort = ap (λ (c : HistoryCursor). c.sort) same in
          (
            ground arith,
            (
              hit,
              is_last,
              has ∙ ap some (sym (as_array-some v listed) ∙ ap (λ (l : List Value). array_of l) s),
            ),
          )
    ]

-- If the response to a search of a page maps to a page with a next cursor, the page is full, has a
-- line for each hit, and a search with that cursor continues after the sort values of the last hit.
pub map_response-search_after :
    (print : Value → Text) (uppercase : ℕ → Text) (response : Value) (preset : FieldPreset)
    (query : HistoryQuery) (pit : Option Text) (page : HistoryPage) (cursor : HistoryCursor)
    → map_response print uppercase response preset (page_size query) ≡ ok page
    → page.next ≡ some cursor
    → (hits : List Value) × (hits_of response ≡ some hits)
      × (length page.lines ≡ length hits)
      × (page_size query ≤ length hits)
      × ((hit : Value) × (sort : Value) × (last hits ≡ some hit)
          × (get hit (codes "sort") ≡ some sort)
          × (get
                (search_body (record query { search_after = some cursor }) preset pit)
                (codes "search_after")
              ≡ some sort))
unfolding map_response search_body get as_array
map_response-search_after print uppercase response preset query pit page cursor h n =
    let (hits, e, k) =
      >>=-eq-ok (ok_or (ElasticError.response (codes "no hits.hits array")) (hits_of response)) _
        h in
    let listed =
      ok_or-eq-ok (ElasticError.response (codes "no hits.hits array")) (hits_of response) e in
    let counted : Option ℕ × Bool =
      total_of (and_then (get response (codes "hits")) (λ g. get g (codes "total"))) in
    let full_page : HistoryPage = record {
      lines = map (line_of print uppercase (fields preset)) hits;
      total = counted.0;
      total_is_lower_bound = counted.1;
      next = next_cursor response hits (page_size query);
    } in
    let mapped : full_page ≡ page = cc k in
    let next = ap (λ (p : HistoryPage). p.next) mapped ∙ n in
    let (full, (hit, is_last, sort)) = next_cursor-some response hits (page_size query) next in
    (
      hits,
      listed,
      sym (ap (λ (p : HistoryPage). length p.lines) mapped) ∙ length-map _ hits,
      full,
      (
        hit,
        array_of cursor.sort,
        is_last,
        sort,
        get_field-insert_field (page_body (record query { search_after = some cursor }) preset pit)
            (codes "search_after") (array_of cursor.sort),
      ),
    )
