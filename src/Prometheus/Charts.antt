-- ===== src/Prometheus/Charts.antt =====
-- prometheus/mod.rs: the queries of the charts and of the sparklines, and the links to Grafana.
use cubelite.Prelude.{
  ℕ, zero, suc, ◌+◌, ◌-◌, ◌/◌, ◌%◌, Bool, Option, none, some, List, [], ◌∷◌, ◌++◌, map,
  if◌then◌else◌, ltb,
}
use cubelite.Prelude.Texts.{Text, codes, digits}
use cubelite.Prometheus.Query.{escape}
use cubelite.Prometheus.Alerts.{asked}
use cubelite.Prometheus.Workloads.{Workload, MetricsRange, seconds, window, selector, join_with}

pub data Chart : Type 0 where
  cpu cpu_request cpu_limit memory memory_request memory_limit restarts restarts_total network_rx
        network_tx :
      Chart

abbrev pub all_charts : List Chart
all_charts =
    Chart.cpu ∷ Chart.cpu_request ∷ Chart.cpu_limit ∷ Chart.memory ∷ Chart.memory_request
    ∷ Chart.memory_limit ∷ Chart.restarts ∷ Chart.restarts_total ∷ Chart.network_rx
    ∷ Chart.network_tx ∷ []

-- `Display` of a `u64`
unfoldable pub show_u64 : ℕ → Text
unfolding digits
show_u64 n = digits 20 n

abbrev pub in_quotes : Text → Text
in_quotes t = 34 ∷ (t ++ 34 ∷ [])

abbrev pub containers : Text
containers =
    codes "container!=" ++ (in_quotes [] ++ (codes ", container!=" ++ in_quotes (codes "POD")))

abbrev pub seconds_window : ℕ → Text
seconds_window w = codes "}[" ++ (show_u64 w ++ codes "s]")

abbrev pub resource_query : Text → Text → Text → Text
resource_query metric resource sel =
    codes "kube_pod_container_resource_"
    ++ (metric
        ++ (codes "{" ++ (sel ++ (codes ", resource=" ++ (in_quotes resource ++ codes "}")))))

-- The end of `chart_query`
abbrev pub summed : Bool → Text → Text
summed per_container inner =
    if per_container
    then codes "sum by (container) (" ++ (inner ++ codes ")")
    else codes "sum(" ++ (inner ++ codes ")")

unfoldable pub chart_query : Chart → Text → Bool → ℕ → Text
unfolding show_u64
chart_query Chart.cpu sel per_container w = summed per_container (
    codes "rate(container_cpu_usage_seconds_total{"
    ++ (sel ++ (codes ", " ++ (containers ++ (seconds_window w ++ codes ")")))))
chart_query Chart.cpu_request sel per_container w =
    summed per_container (resource_query (codes "requests") (codes "cpu") sel)
chart_query Chart.cpu_limit sel per_container w =
    summed per_container (resource_query (codes "limits") (codes "cpu") sel)
chart_query Chart.memory sel per_container w = summed per_container (
    codes "container_memory_working_set_bytes{"
    ++ (sel ++ (codes ", " ++ (containers ++ codes "}"))))
chart_query Chart.memory_request sel per_container w =
    summed per_container (resource_query (codes "requests") (codes "memory") sel)
chart_query Chart.memory_limit sel per_container w =
    summed per_container (resource_query (codes "limits") (codes "memory") sel)
chart_query Chart.restarts sel per_container w =
    summed per_container (codes "kube_pod_container_status_restarts_total{" ++ (sel ++ codes "}"))
chart_query Chart.restarts_total sel per_container w =
    codes "sum(increase(kube_pod_container_status_restarts_total{"
    ++ (sel ++ (seconds_window w ++ codes "))"))
chart_query Chart.network_rx sel per_container w =
    codes "sum(rate(container_network_receive_bytes_total{"
    ++ (sel ++ (seconds_window w ++ codes "))"))
chart_query Chart.network_tx sel per_container w =
    codes "sum(rate(container_network_transmit_bytes_total{"
    ++ (sel ++ (seconds_window w ++ codes "))"))

pub record MetricsRequest : Type 0 where
  pub namespace : Text
  pub workload : Workload
  pub range : MetricsRange
  pub per_container : Bool

-- The range of a chart: the whole one for the total of the restarts
abbrev pub chart_window : Chart → MetricsRange → ℕ
chart_window Chart.restarts_total range = seconds range
chart_window chart range = window range

unfoldable pub metrics_queries : MetricsRequest → Option Text → List (Chart × Text)
unfolding selector chart_query seconds window
metrics_queries request cluster =
    let sel : Text = selector request.namespace request.workload cluster in
    map
      (λ chart.
        (chart, chart_query chart sel request.per_container (chart_window chart request.range)))
      all_charts

abbrev pub matcher : Text → Option Text → List Text
matcher label none = []
matcher label (some value) = (label ++ (codes "=" ++ escape value)) ∷ []

unfoldable pub sparkline_queries : Option Text → Option Text → Text × Text
unfolding escape
sparkline_queries namespace cluster =
    let sel : Text = join_with (codes ", ") (
      matcher (codes "namespace") namespace
      ++ (containers ∷ matcher (codes "cluster") (asked cluster))) in
    (
      codes "sum by (namespace, pod) (rate(container_cpu_usage_seconds_total{"
          ++ (sel ++ codes "}[5m]))"),
      codes "sum by (namespace, pod) (container_memory_working_set_bytes{" ++ (sel ++ codes "})"),
    )

-- The name of the n-th query in Grafana: A, B, …, Z, AA, …. Each round of the loop puts a letter in
-- front.
unfoldable pub ref_id : ℕ → ℕ → Text → Text
ref_id zero k id = id
ref_id (suc fuel) k id =
    let id' = (b'A' + k % 26) ∷ id in
    let rest = ref_id fuel (k / 26 - 1) id' in if ltb k 26 then id' else rest
