-- ===== src/Logs/Examples.antt =====
-- logs.rs: the theorem at a stream with a stamped line, a read error and a plain line.
use cubelite.Prelude.{ℕ, ◌≡◌, Bool, List, [], ◌∷◌, ◌==◌, any, map}
use cubelite.Prelude.Results.{Result, ok, err}
use cubelite.Prelude.Texts.{Text, codes}
use cubelite.Logs.{stream_pod_logs_opts}
use cubelite.Logs.Lines.{unparsed, stream_pod_logs_opts-unparsed}

-- A word with a colon
abbrev stamp : Text → Bool
stamp t = any (λ c. c == b':') t

abbrev upper : ℕ → Text
upper c = c ∷ []

abbrev read_lines : List (Result Text Text)
read_lines =
    ok (codes "10:00 listening")
    ∷ err (codes "stream did not contain valid UTF-8")
    ∷ ok (codes "plain output")
    ∷ []

stream_pod_logs_opts-unparsed_example :
    map unparsed
      (stream_pod_logs_opts stamp upper (codes "api-0") (codes "default") (ok read_lines))
    ≡ codes "10:00 listening" ∷ codes "plain output" ∷ []
stream_pod_logs_opts-unparsed_example =
    stream_pod_logs_opts-unparsed stamp upper (codes "api-0") (codes "default") read_lines
