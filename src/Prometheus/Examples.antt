-- ===== src/Prometheus/Examples.antt =====
-- prometheus/mod.rs and prometheus/alerts.rs: the theorems at a hostile name and at three alerts.
use mathlib.Core.List.{Memᴰ}
use cubelite.Prelude.{◌≤◌, ◌≡◌, refl, inr, false, none, some, List, [], ◌∷◌, ◌++◌, count}
use cubelite.Prelude.Sort.{sort_by}
use cubelite.Prelude.Order.{list_cmp}
use cubelite.Prelude.Texts.{Text, codes, trim, text_eq}
use cubelite.K8s.{Labels}
use cubelite.Prometheus.Query.{escape, regex_literal}
use cubelite.Prometheus.Literals.{
  read_string, read_regex, read_string-escape, read_regex-regex_literal,
}
use cubelite.Prometheus.Alerts.{Alert, labels_eq, with_expr, finish, alert_series_query}
use cubelite.Prometheus.Clusters.{OfCluster}
use cubelite.Prometheus.AlertOrder.{Before}
use cubelite.Prelude.Lex.{InOrder}
use cubelite.Prelude.Maps.{get}
use cubelite.Prometheus.Firing.{finish-InOrder, finish_sound, finish_complete}

-- A quote, a brace and a backslash
abbrev hostile : Text
hostile = 34 ∷ 125 ∷ 92 ∷ codes "n.*"

read_string-escape_example : read_string (escape hostile ++ codes "}") ≡ some (hostile, codes "}")
read_string-escape_example = read_string-escape hostile (codes "}")

read_regex-regex_literal_example : read_regex false (regex_literal hostile) ≡ some hostile
read_regex-regex_literal_example = read_regex-regex_literal hostile

abbrev alert_of : Text → Text → Labels → Alert
alert_of name severity labels = record {
  name = name;
  severity = some severity;
  namespace = none;
  pod = none;
  node = none;
  summary = none;
  active_at = none;
  expr = [];
  labels = labels;
}

abbrev east : Labels
east = (codes "cluster", codes "east") ∷ []

-- A replica's copy of an alert, and one of another cluster
abbrev down : Alert
down = alert_of (codes "Down") (codes "Critical") east

abbrev alerts : List Alert
alerts =
    alert_of (codes "Watchdog") (codes "none") []
    ∷ down
    ∷ down
    ∷ alert_of (codes "Down") (codes "critical") ((codes "cluster", codes "west") ∷ [])
    ∷ []

finish-InOrder_example :
    InOrder Before (finish alerts (some (codes "east")))
    × (count (λ (a : Alert). labels_eq east a.labels) (finish alerts (some (codes "east"))) ≤ 1)
finish-InOrder_example = finish-InOrder alerts (some (codes "east")) east

finish_sound_example :
    (b : Alert) × Memᴰ b alerts
    × OfCluster (some (codes "east")) b
    × (with_expr (some (codes "east")) down
        ≡ record b { expr = alert_series_query b.name (some (codes "east")) })
unfolding finish sort_by trim list_cmp
finish_sound_example =
    finish_sound alerts (some (codes "east")) (with_expr (some (codes "east")) down)
      (Memᴰ.head refl)

finish_complete_example :
    (a : Alert) × Memᴰ a (finish alerts (some (codes "east"))) × (a.labels ≡ east)
unfolding trim get text_eq
finish_complete_example =
    finish_complete alerts (some (codes "east")) down (Memᴰ.tail (Memᴰ.head refl)) (inr (inr refl))
