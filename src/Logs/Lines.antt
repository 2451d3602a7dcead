-- ===== src/Logs/Lines.antt =====
-- logs.rs: a parsed line gives the raw line back, and a stream gives each line that was read.
use cubelite.Prelude.{
  ℕ, ◌≡◌, refl, sym, Bool, true, false, Option, none, some, List, [], ◌∷◌, ◌++◌, any, map,
  filter_map, filter_option, ◌==◌, Bool-cases, inl, inr,
}
use cubelite.Prelude.Results.{Result, ok}
use cubelite.Prelude.Split.{split_once, split_once-append, split_once-some}
use cubelite.Prelude.Texts.{Text}
use cubelite.Logs.{LogLine, line_of, parse_log_line, ok_line, stream_pod_logs_opts}

-- The line as the kubelet sent it
abbrev pub unparsed : LogLine → Text
unparsed line = elim line.time [ none ↦ line.message | some t ↦ t ++ b' ' ∷ line.message ]

module _ (is_timestamp : Text → Bool) (uppercase : ℕ → Text) (pod namespace : Text) where
  pub unparsed-parse_log_line :
      (raw : Text) → unparsed (parse_log_line is_timestamp uppercase pod namespace raw) ≡ raw
  unfolding parse_log_line
  unparsed-parse_log_line raw = from (split_once b' ' raw) refl
    where
      from :
          (o : Option (Text × Text))
          → split_once b' ' raw ≡ o
          → unparsed (
              line_of uppercase pod namespace raw
                (filter_option (λ (r : Text × Text). is_timestamp r.0) o))
            ≡ raw
      from none e = refl
      from (some (a, b)) e = elim (Bool-cases (is_timestamp a)) [
        | inl t ↦ rw t (sym (split_once-some b' ' raw e))
        | inr t ↦ rw t refl
      ]

  -- A log that opens is streamed as one line for each line that was read, in order, whose time, if
  -- it has one, and message make up the raw line; read errors are left out, and the lines after
  -- them are not.
  pub stream_pod_logs_opts-unparsed :
      (reader : List (Result Text Text))
      → map unparsed (stream_pod_logs_opts is_timestamp uppercase pod namespace (ok reader))
        ≡ filter_map ok_line reader
  unfolding stream_pod_logs_opts
  stream_pod_logs_opts-unparsed reader = each (filter_map ok_line reader)
    where
      each :
          (raws : List Text)
          → map unparsed (map (λ raw. parse_log_line is_timestamp uppercase pod namespace raw) raws)
            ≡ raws
      each [] = refl
      each (raw ∷ raws) = λ i. unparsed-parse_log_line raw i ∷ each raws i

  -- A line with a timestamp and a message is split after the timestamp.
  pub parse_log_line-stamped :
      (time message : Text)
      → any (λ c. c == b' ') time ≡ false
      → is_timestamp time ≡ true
      → parse_log_line is_timestamp uppercase pod namespace (time ++ b' ' ∷ message)
        ≡ line_of uppercase pod namespace [] (some (time, message))
  unfolding parse_log_line
  parse_log_line-stamped time message free stamp =
      rw (split_once-append b' ' time message free, stamp) refl
