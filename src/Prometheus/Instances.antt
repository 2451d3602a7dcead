-- ===== src/Prometheus/Instances.antt =====
-- prometheus/nodes.rs: the node-exporter targets of a node, and the history of a node and of a cluster.
use cubelite.Prelude.{
  ℕ, Bool, Option, some, List, [], ◌∷◌, ◌++◌, map, filter, not, if◌then◌else◌, is_empty,
}
use cubelite.Prelude.Results.{Result, ok, err, ◌>>=◌}
use cubelite.Prelude.Order.{text_cmp}
use cubelite.Prelude.Sort.{sort_by}
use cubelite.Prelude.Texts.{Text, codes, text_eq}
use cubelite.Json.{Value}
use cubelite.Prometheus.Query.{escape, regex_literal}
use cubelite.Prometheus.Workloads.{MetricsRange, join_with}
use cubelite.Prometheus.Responses.{PromError, Series, parse_series}
use cubelite.Prometheus.Nodes.{HostMetrics, fatal, host_metrics}
use cubelite.Prometheus.Plans.{cluster_matcher, join, by, of_metric, cluster_plan, node_plan}

unfoldable pub uname_query : Text → Option Text → Text
unfolding cluster_matcher join
uname_query node cluster =
    of_metric (codes "node_uname_info") (by (codes "nodename") node (cluster_matcher cluster))
    ++ codes " or "
    ++ of_metric (codes "node_uname_info") (by (codes "instance") node (cluster_matcher cluster))

unfoldable pub node_info_query : Text → Option Text → Text
unfolding cluster_matcher join
node_info_query node cluster =
    of_metric (codes "kube_node_info") (by (codes "node") node (cluster_matcher cluster))

abbrev pub ip_pattern : List Text → Text
ip_pattern ips =
    92
    ∷ (codes "[?("
        ++ join_with (codes "|") (map regex_literal ips)
        ++ (codes ")" ++ (92 ∷ codes "]?:[0-9]+")))

unfoldable pub uname_by_ip_query : List Text → Option Text → Text
unfolding cluster_matcher join escape regex_literal
uname_by_ip_query ips cluster =
    of_metric (codes "node_uname_info")
      (join (some (codes "instance=~" ++ escape (ip_pattern ips)) ∷ cluster_matcher cluster ∷ []))

-- `dedup` of equal neighbours
unfoldable pub dedup : List Text → List Text
unfolding text_eq
dedup [] = []
dedup (t ∷ []) = t ∷ []
dedup (t ∷ (u ∷ rest)) = let others = dedup (u ∷ rest) in if text_eq t u then others else t ∷ others

module _ {F : Type 0} (as_f64 : Value → Option F) (parse_f64 : Text → Option F)
    (is_finite : F → Bool) where
  abbrev pub labels_of : Result PromError (List (Series F)) → List Text
  labels_of (ok series) = map (λ s. s.label) series
  labels_of (err e) = []

  unfoldable pub series_labels : Value → Text → List Text
  unfolding parse_series sort_by dedup
  series_labels answer label = dedup (
      sort_by text_cmp (
        filter (λ v. not (is_empty v))
          (labels_of (parse_series as_f64 parse_f64 is_finite answer (label ∷ [])))))

  abbrev pub labels_or_none : Result PromError Value → Text → List Text
  labels_or_none (ok answer) label = series_labels answer label
  labels_or_none (err e) label = []

  module _ (query : Text → Result PromError Value) where
    -- Without a target by name, those of the node's addresses
    abbrev pub by_address : Text → Option Text → List Text
    by_address node cluster =
        let ips : List Text =
          labels_or_none (query (node_info_query node cluster)) (codes "internal_ip") in
        if is_empty ips
        then []
        else labels_or_none (query (uname_by_ip_query ips cluster)) (codes "instance")

    abbrev pub or_by_address :
        Result PromError Value → Text → Option Text → Result PromError (List Text)
    or_by_address (err e) node cluster = if fatal e then err e else ok (by_address node cluster)
    or_by_address (ok answer) node cluster =
        let by_name : List Text = series_labels answer (codes "instance") in
        if not (is_empty by_name) then ok by_name else ok (by_address node cluster)

    unfoldable pub node_exporter_instances : Text → Option Text → Result PromError (List Text)
    unfolding series_labels uname_query node_info_query uname_by_ip_query fatal
    node_exporter_instances node cluster =
        or_by_address (query (uname_query node cluster)) node cluster

  unfoldable pub cluster_usage :
      (PromError → Text)
      → (Text → ℕ → ℕ → ℕ → Result PromError Value)
      → ℕ
      → Option Text
      → MetricsRange
      → Result PromError (HostMetrics F)
  unfolding cluster_plan host_metrics
  cluster_usage show query_range now cluster range =
      host_metrics show as_f64 parse_f64 is_finite query_range now (cluster_plan cluster range)
        range

  unfoldable pub node_metrics :
      (Text → Result PromError Value)
      → (PromError → Text)
      → (Text → ℕ → ℕ → ℕ → Result PromError Value)
      → ℕ
      → Option Text
      → Text
      → MetricsRange
      → Result PromError (HostMetrics F)
  unfolding node_exporter_instances node_plan host_metrics
  node_metrics query show query_range now cluster node range = do
    instances ← node_exporter_instances query node cluster
    host_metrics show as_f64 parse_f64 is_finite query_range now
        (node_plan node instances cluster range) range
