-- ===== src/Elastic/PageExamples.antt =====
-- elastic/mod.rs and elastic/transport.rs: the theorems on pages at a server that opens a point in time
-- and at a full page.
use cubelite.Prelude.{ℕ, ◌≡◌, ◌≤◌, refl, last, length, false, Option, none, some, List, [], ◌∷◌}
use cubelite.Prelude.Results.{Result, ok}
use cubelite.Prelude.Texts.{Text, codes}
use cubelite.Json.{Value, one_field, get, get_field, as_array, to_list, from_list}
use cubelite.Integration.Target.{Target}
use cubelite.Elastic.Types.{FieldPreset, fields, EsEndpoint}
use cubelite.Elastic.Search.{HistoryQuery, HistoryCursor, array_of, search_body}
use cubelite.Elastic.Response.{HistoryPage, line_of, map_response, next_cursor}
use cubelite.Elastic.Paging.{hits_of, map_response-search_after}
use cubelite.Elastic.Transport.{Request, RawResponse, Exchange}
use cubelite.Elastic.History.{search}
use cubelite.Elastic.PointInTime.{Kept}
use cubelite.Elastic.Live.{live}
use cubelite.Elastic.Released.{connection, search-Kept}

abbrev print : Value → Text
print v = codes "{}"

abbrev uppercase : ℕ → Text
uppercase c = c ∷ []

abbrev query : HistoryQuery
query = record {
  namespace = codes "default";
  pod = codes "web";
  workload = none;
  container = none;
  from = codes "now-1h";
  to = codes "now";
  text = none;
  search_after = none;
  size = some 1;
}

abbrev hit : Value
hit = one_field (codes "sort") (array_of (Value.unsigned 5 ∷ Value.unsigned 2 ∷ []))

abbrev full_response : Value
full_response = one_field (codes "hits") (one_field (codes "hits") (array_of (hit ∷ [])))

abbrev cursor : HistoryCursor
cursor = record { pit_id = none; sort = Value.unsigned 5 ∷ Value.unsigned 2 ∷ [] }

abbrev full_page : HistoryPage
full_page = record {
  lines = line_of print uppercase (fields FieldPreset.ecs) hit ∷ [];
  total = none;
  total_is_lower_bound = false;
  next = some cursor;
}

maps : map_response print uppercase full_response FieldPreset.ecs 1 ≡ ok full_page
unfolding map_response next_cursor get get_field as_array to_list from_list
maps = refl

map_response-search_after_example :
    (hits : List Value) × (hits_of full_response ≡ some hits)
    × (length full_page.lines ≡ length hits)
    × (1 ≤ length hits)
    × ((g : Value) × (sort : Value) × (last hits ≡ some g)
        × (get g (codes "sort") ≡ some sort)
        × (get
              (search_body (record query { search_after = some cursor }) FieldPreset.ecs none)
              (codes "search_after")
            ≡ some sort))
map_response-search_after_example =
    map_response-search_after print uppercase full_response FieldPreset.ecs query none full_page
      cursor maps refl

-- A server with a point in time, which finds nothing
abbrev parse : Text → Result Text Value
parse [] = ok (one_field (codes "id") (Value.string (codes "p")))
parse (c ∷ s) = ok (one_field (codes "hits") (one_field (codes "hits") (array_of [])))

abbrev answered : Option Value → Result Text RawResponse
answered none = ok (record { status = 200; body = [] })
answered (some body) = ok (record { status = 200; body = codes "hits" })

abbrev transport : Option Text → List Exchange → Request → Result Text RawResponse
transport auth sent request = answered request.body

abbrev endpoint : EsEndpoint
endpoint = record {
  target = Target.external (codes "https://es");
  index_pattern = codes "logs-*";
  preset = FieldPreset.ecs;
  kibana_url = none;
  kibana_service = none;
  skip_tls_verify = false;
  cluster_filter = none;
  shared = false;
}

search-Kept_example :
    Kept []
      (search print uppercase parse transport
        (connection (codes "https://es") none false)
        endpoint
        query).0
      (live print uppercase parse transport endpoint 1 []
        (search print uppercase parse transport
          (connection (codes "https://es") none false)
          endpoint
          query).1.sent)
search-Kept_example =
    search-Kept print uppercase parse transport endpoint query (codes "https://es") none false
