-- ===== src/Elastic/Response.antt =====
-- elastic/mod.rs: the mapping of a search's response to a page of the history. The compact text of a
-- document is a function, and so is Unicode's upper case.
use cubelite.Prelude.{
  ℕ, ◌%◌, ◌^◌, Bool, true, false, ◌||◌, Option, none, some, List, [], ◌∷◌, ◌++◌, map, if◌then◌else◌,
  leb, any, first, last, length, ◌==◌, map_option, unwrap_or, or_else, and_then,
}
use cubelite.Prelude.Results.{Result, ok, ◌>>=◌, ok_or}
use cubelite.Prelude.Texts.{Text, codes, text_eq, is_text, trim}
use cubelite.Integration.Target.{to_ascii_lowercase}
use cubelite.Json.{Value, Fields, get, as_str, as_array, as_u64, get_str, to_list}
use cubelite.Logs.{LogLevel, detect_level}
use cubelite.Elastic.Types.{FieldPreset, PresetFields, fields, ElasticError}
use cubelite.Elastic.Search.{HistoryCursor}

pub record HistoryLine : Type 0 where
  pub time : Option Text
  pub level : LogLevel
  pub message : Text
  pub container : Option Text
  pub pod : Option Text
  pub document : Text
  pub doc_index : Option Text
  pub doc_id : Option Text

pub record HistoryPage : Type 0 where
  pub lines : List HistoryLine
  pub total : Option ℕ
  pub total_is_lower_bound : Bool
  pub next : Option HistoryCursor

-- What `field` does without a field of the whole path: the path is cut at its first dot, of which
-- `head` has been read.
unfoldable pub nested : Value → Text → Text → Option Value
unfolding get
nested doc head [] = none
nested doc head (c ∷ rest) = elim (c == b'.') [
  | true ↦
      and_then (get doc head)
        (λ child. or_else (or_else (get child rest) (nested child [] rest)) (get child rest))
  | false ↦ nested doc (head ++ c ∷ []) rest
]

unfoldable pub field : Value → Text → Option Value
unfolding nested get
field doc path = or_else (get doc path) (nested doc [] path)

abbrev pub text_of : Value → Option Text
text_of (Value.string s) = some s
text_of (Value.array items) = and_then (first (to_list items)) as_str
text_of v = none

unfoldable pub string_field : Value → Text → Option Text
unfolding field to_list as_str
string_field doc path = and_then (field doc path) text_of

abbrev pub one_of : Text → List Text → Bool
one_of t words = any (text_eq t) words

unfoldable pub map_level : Text → Option LogLevel
unfolding trim to_ascii_lowercase text_eq
map_level raw =
    let level : Text = map to_ascii_lowercase (trim raw) in
    if one_of level (codes "trace" ∷ codes "debug" ∷ codes "verbose" ∷ [])
    then some LogLevel.debug
    else if one_of level (codes "info" ∷ codes "information" ∷ codes "notice" ∷ [])
    then some LogLevel.info
    else if one_of level (codes "warn" ∷ codes "warning" ∷ [])
    then some LogLevel.warn
    else if one_of level (
        codes "error"
        ∷ codes "err"
        ∷ codes "fatal"
        ∷ codes "critical"
        ∷ codes "crit"
        ∷ codes "alert"
        ∷ codes "emerg"
        ∷ codes "panic"
        ∷ [])
    then some LogLevel.error
    else none

-- `trim_end_matches(['\n', '\r'])`
abbrev pub cons_unless_break : ℕ → Text → Text
cons_unless_break c [] = if c == 10 || c == 13 then [] else c ∷ []
cons_unless_break c (d ∷ t) = c ∷ (d ∷ t)

unfoldable pub trim_end_breaks : Text → Text
trim_end_breaks [] = []
trim_end_breaks (c ∷ s) = cons_unless_break c (trim_end_breaks s)

-- The total, and whether it is a lower bound
abbrev pub total_of : Option Value → Option ℕ × Bool
total_of none = (none, false)
total_of (some (Value.unsigned n)) = (some n, false)
total_of (some (Value.other_number t)) = (none, false)
total_of (some v) =
    (and_then (get v (codes "value")) as_u64, is_text (get_str v (codes "relation")) (codes "gte"))

unfoldable pub next_cursor : Value → List Value → ℕ → Option HistoryCursor
unfolding get as_array as_str
next_cursor response hits page_size =
    if leb page_size (length hits % 2 ^ 32)
    then map_option (λ sort. record { pit_id = get_str response (codes "pit_id"); sort = sort })
        (and_then (and_then (last hits) (λ h. get h (codes "sort"))) as_array)
    else none

module _ (print : Value → Text) (uppercase : ℕ → Text) where
  abbrev pub level_of : Value → Text → Option LogLevel
  level_of source key = and_then (string_field source key) map_level

  unfoldable pub line_of : PresetFields → Value → HistoryLine
  unfolding get as_str string_field map_level detect_level trim_end_breaks
  line_of f hit =
      let source : Value = unwrap_or (get hit (codes "_source")) (Value.object Fields.end) in
      let message : Text =
        unwrap_or
          (or_else (string_field source f.message) (string_field source (codes "event.original")))
          (print source) in
      record {
        time = string_field source (codes "@timestamp");
        level =
            unwrap_or
              (or_else (level_of source (codes "log.level"))
                (or_else (level_of source (codes "level")) (level_of source (codes "severity"))))
              (detect_level uppercase message);
        message = trim_end_breaks message;
        container = string_field source f.container;
        pod = string_field source f.pod;
        document = print source;
        doc_index = get_str hit (codes "_index");
        doc_id = get_str hit (codes "_id");
      }

  unfoldable pub map_response : Value → FieldPreset → ℕ → Result ElasticError HistoryPage
  unfolding get as_array as_u64 as_str text_eq fields line_of next_cursor
  map_response response preset page_size = do
    hits ←
        ok_or (ElasticError.response (codes "no hits.hits array"))
          (and_then (and_then (get response (codes "hits")) (λ h. get h (codes "hits"))) as_array)
    let counted = total_of (and_then (get response (codes "hits")) (λ h. get h (codes "total")))
    ok (record {
      lines = map (line_of (fields preset)) hits;
      total = counted.0;
      total_is_lower_bound = counted.1;
      next = next_cursor response hits page_size;
    })
