-- ===== src/Prometheus/Alerts.antt =====
-- prometheus/alerts.rs: the queries of the firing alerts, and the list that is shown of them.
-- The labels of an alert, a `BTreeMap`, are the list of their entries in key order.
use Prim.Native.Nat.{compare, Ordering}
use Prim.Native.Nat.Ordering.{lt, eq, gt}
use cubelite.Prelude.{
  ℕ, Bool, true, false, ◌&&◌, not, Option, none, some, List, [], ◌∷◌, ◌++◌, map, if◌then◌else◌, any,
  all, find, filter, is_empty, map_option, filter_option, unwrap_or,
}
use cubelite.Prelude.Maps.{get}
use cubelite.Prelude.Order.{then_with, list_cmp, text_cmp}
use cubelite.Prelude.Sort.{sort_by}
use cubelite.Prelude.Texts.{Text, codes, text_eq, is_text, trim}
use cubelite.K8s.{Labels}
use cubelite.Integration.Target.{to_ascii_lowercase}
use cubelite.Prometheus.Query.{escape, regex_literal}

pub record Alert : Type 0 where
  pub name : Text
  pub severity : Option Text
  pub namespace : Option Text
  pub pod : Option Text
  pub node : Option Text
  pub summary : Option Text
  pub active_at : Option Text
  pub expr : Text
  pub labels : Labels

pub record AlertRule : Type 0 where
  pub name : Text
  pub labels : Labels
  pub query : Text

-- The cluster asked for, without blanks, if that is not empty
abbrev pub asked : Option Text → Option Text
asked cluster = filter_option (λ c. not (is_empty c)) (map_option trim cluster)

unfoldable pub cluster_or_absent : Option Text → Text
unfolding escape regex_literal
cluster_or_absent cluster =
    unwrap_or
      (map_option (λ c. codes ", cluster=~" ++ escape (regex_literal c ++ codes "|"))
        (asked cluster))
      []

abbrev pub firing : Text
firing = 34 ∷ codes "firing" ++ 34 ∷ []

unfoldable pub alert_series_query : Text → Option Text → Text
unfolding cluster_or_absent
alert_series_query name cluster =
    codes "ALERTS{alertname="
    ++ (escape name
        ++ (codes ", alertstate=" ++ (firing ++ (cluster_or_absent cluster ++ codes "}"))))

unfoldable pub alerts_metric_query : Option Text → Text
unfolding cluster_or_absent
alerts_metric_query cluster =
    codes "ALERTS{alertstate=" ++ (firing ++ (cluster_or_absent cluster ++ codes "}"))

-- A label is set to this value on the alert.
abbrev pub has_label : Alert → Text × Text → Bool
has_label alert (k, v) = is_text (get text_eq alert.labels k) v

unfoldable pub rule_expr : Alert → List AlertRule → Option Text → Text
unfolding alert_series_query text_eq get
rule_expr alert rules cluster =
    unwrap_or
      (map_option (λ (r : AlertRule). r.query)
        (find (λ (r : AlertRule). text_eq r.name alert.name && all (has_label alert) r.labels)
          rules))
      (alert_series_query alert.name cluster)

unfoldable pub rank_of : Text → ℕ
unfolding text_eq
rank_of s =
    if text_eq s (codes "critical")
    then 0
    else if text_eq s (codes "page")
    then 0
    else if text_eq s (codes "error")
    then 1
    else if text_eq s (codes "high")
    then 1
    else if text_eq s (codes "warning")
    then 2
    else if text_eq s (codes "warn")
    then 2
    else if text_eq s (codes "info")
    then 3
    else if text_eq s (codes "low")
    then 3
    else if text_eq s (codes "none")
    then 5
    else 4

unfoldable pub severity_rank : Option Text → ℕ
unfolding rank_of to_ascii_lowercase
severity_rank none = 4
severity_rank (some s) = rank_of (map to_ascii_lowercase s)

unfoldable pub is_informational : Alert → Bool
unfolding text_eq to_ascii_lowercase
is_informational alert = elim alert.severity [
  | none ↦ false
  | some s ↦ text_eq (map to_ascii_lowercase s) (codes "none")
]

abbrev pub entry_cmp : Text × Text → Text × Text → Ordering
entry_cmp a b = then_with (text_cmp a.0 b.0) (text_cmp a.1 b.1)

unfoldable pub labels_cmp : Labels → Labels → Ordering
labels_cmp a b = list_cmp entry_cmp a b

-- A `BTreeSet` holds a label set if one that compares as equal is in it.
unfoldable pub labels_eq : Labels → Labels → Bool
unfolding labels_cmp
labels_eq a b = elim (labels_cmp a b) [ lt ↦ false | eq ↦ true | gt ↦ false ]

-- The alert is of the cluster, or has no cluster label.
unfoldable pub is_of_cluster : Option Text → Alert → Bool
unfolding text_eq get
is_of_cluster none alert = true
is_of_cluster (some c) alert = elim (get text_eq alert.labels (codes "cluster")) [
  | none ↦ true
  | some v ↦ text_eq v c
]

-- `retain(|a| seen.insert(a.labels.clone()))`
unfoldable pub retain_new : List Labels → List Alert → List Alert
unfolding labels_eq
retain_new seen [] = []
retain_new seen (a ∷ alerts) =
    let known : Bool = any (λ l. labels_eq l a.labels) seen in
    let rest = retain_new (if known then seen else a.labels ∷ seen) alerts in
    if known then rest else a ∷ rest

-- Alerts without a start come last.
unfoldable pub active_cmp : Option Text → Option Text → Ordering
active_cmp (some x) (some y) = text_cmp x y
active_cmp (some x) none = lt
active_cmp none (some y) = gt
active_cmp none none = eq

unfoldable pub alert_cmp : Alert → Alert → Ordering
unfolding severity_rank active_cmp labels_cmp
alert_cmp a b = then_with (compare (severity_rank a.severity) (severity_rank b.severity)) (
    then_with (active_cmp a.active_at b.active_at)
      (then_with (text_cmp a.name b.name) (labels_cmp a.labels b.labels)))

abbrev pub with_expr : Option Text → Alert → Alert
with_expr cluster a = record a { expr = alert_series_query a.name cluster }

unfoldable pub finish : List Alert → Option Text → List Alert
unfolding is_of_cluster retain_new alert_cmp alert_series_query
finish alerts cluster =
    sort_by alert_cmp
      (map (with_expr cluster) (retain_new [] (filter (is_of_cluster (asked cluster)) alerts)))
