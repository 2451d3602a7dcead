-- ===== src/Logs.antt =====
-- logs.rs: the parsing of log lines. The timestamps of the crate jiff and Unicode's upper case are
-- functions.
pub mod Lines
mod Examples
use cubelite.Prelude.{
  ℕ, ◌≡◌, refl, ap, Bool, true, false, ◌||◌, ◌&&◌, not, Option, none, some, List, [], ◌∷◌, ◌++◌,
  if◌then◌else◌, any, filter_option, and_then, map_option, flat_map, map, filter_map, ◌==◌, arith,
  Bool-cases, inl, inr,
}
use cubelite.Prelude.Int.{ℤ, pos}
use cubelite.Prelude.Results.{Result, ok, err}
use cubelite.Prelude.Split.{split_once}
use cubelite.Prelude.Texts.{Text, codes, contains}

pub data LogLevel : Type 0 where
  debug info warn error : LogLevel

pub record LogLine : Type 0 where
  pub pod : Text
  pub namespace : Text
  pub time : Option Text
  pub level : LogLevel
  pub message : Text

abbrev pub error_markers : List Text
error_markers = codes "ERROR" ∷ codes "ERR:" ∷ codes "FATAL" ∷ codes "PANIC" ∷ []

-- `to_uppercase` maps each character to a few.
unfoldable pub detect_level : (ℕ → Text) → Text → LogLevel
unfolding contains
detect_level uppercase message =
    let upper : Text = flat_map uppercase message in
    if any (λ marker. contains upper marker) error_markers
    then LogLevel.error
    else if contains upper (codes "WARN")
    then LogLevel.warn
    else if contains upper (codes "DEBUG") || contains upper (codes "TRACE")
    then LogLevel.debug
    else LogLevel.info

pub record LogStreamOptions : Type 0 where
  pub container : Option Text
  pub previous : Bool
  pub follow : Bool
  pub tail_lines : ℤ
  pub since_time : Option Text

abbrev pub default_options : LogStreamOptions
default_options = record {
  container = none;
  previous = false;
  follow = true;
  tail_lines = pos 500;
  since_time = none;
}

-- `kube::api::LogParams`, the fields that are set
pub record LogParams (T : Type 0) : Type 0 where
  pub follow : Bool
  pub previous : Bool
  pub timestamps : Bool
  pub tail_lines : Option ℤ
  pub container : Option Text
  pub since_time : Option T

unfoldable pub log_params : {T : Type 0} → (Text → Option T) → LogStreamOptions → LogParams T
log_params parse opts = record {
  follow = opts.follow && not opts.previous;
  previous = opts.previous;
  timestamps = true;
  tail_lines = some opts.tail_lines;
  container = opts.container;
  since_time = and_then opts.since_time parse;
}

abbrev pub line_of : (ℕ → Text) → Text → Text → Text → Option (Text × Text) → LogLine
line_of uppercase pod namespace raw none = record {
  pod = pod;
  namespace = namespace;
  time = none;
  level = detect_level uppercase raw;
  message = raw;
}
line_of uppercase pod namespace raw (some (first_word, rest)) = record {
  pod = pod;
  namespace = namespace;
  time = some first_word;
  level = detect_level uppercase rest;
  message = rest;
}

unfoldable pub parse_log_line : (Text → Bool) → (ℕ → Text) → Text → Text → Text → LogLine
unfolding split_once detect_level
parse_log_line is_timestamp uppercase pod namespace raw =
    line_of uppercase pod namespace raw
      (filter_option (λ (r : Text × Text). is_timestamp r.0) (split_once b' ' raw))

abbrev pub ok_line : Result Text Text → Option Text
ok_line (ok raw) = some raw
ok_line (err e) = none

-- The whole stream: what opening the log gave, and then each line or read error, up to the end
unfoldable pub stream_pod_logs_opts :
    (Text → Bool) → (ℕ → Text) → Text → Text → Result Text (List (Result Text Text)) → List LogLine
unfolding parse_log_line
stream_pod_logs_opts is_timestamp uppercase pod namespace (ok reader) =
    map (λ raw. parse_log_line is_timestamp uppercase pod namespace raw) (filter_map ok_line reader)
stream_pod_logs_opts is_timestamp uppercase pod namespace (err e) =
    record {
      pod = pod;
      namespace = namespace;
      time = none;
      level = LogLevel.error;
      message = codes "failed to stream logs: " ++ e;
    }
    ∷ []
