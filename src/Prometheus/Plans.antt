-- ===== src/Prometheus/Plans.antt =====
-- prometheus/nodes.rs: the candidate queries of a cluster's charts and of a node's.
use cubelite.Prelude.{ℕ, Option, none, some, List, [], ◌∷◌, ◌++◌, map, map_option}
use cubelite.Prelude.Texts.{Text, codes}
use cubelite.Prometheus.Query.{escape, regex_literal}
use cubelite.Prometheus.Alerts.{asked}
use cubelite.Prometheus.Workloads.{MetricsRange, window, join_with, max}
use cubelite.Prometheus.Charts.{in_quotes, show_u64}
use cubelite.Prometheus.Nodes.{HostChart, MetricSource, Candidate, ChartPlan, usage, with_reference}

abbrev pub virtual_devices : Text
virtual_devices =
    codes
      "lo|veth.*|cali.*|cilium.*|lxc.*|cni.*|flannel.*|docker.*|br-.*|virbr.*|vxlan.*|tunl.*|kube-.*"

abbrev pub pseudo_fs : Text
pseudo_fs = codes "tmpfs|ramfs|overlay|squashfs|nsfs|fuse.*|autofs|devtmpfs"

abbrev pub containers : Text
containers = codes "container!=" ++ in_quotes [] ++ codes ", pod!=" ++ in_quotes []

unfoldable pub host_window : MetricsRange → ℕ
unfolding window
host_window range = max (window range) 300

unfoldable pub cluster_matcher : Option Text → Option Text
unfolding escape
cluster_matcher cluster = map_option (λ c. codes "cluster=" ++ escape c) (asked cluster)

abbrev pub given : List (Option Text) → List Text
given [] = []
given (none ∷ rest) = given rest
given (some t ∷ rest) = t ∷ given rest

unfoldable pub join : List (Option Text) → Text
join matchers = join_with (codes ", ") (given matchers)

abbrev pub candidate : MetricSource → Text → Candidate
candidate source query = record { source = source; query = query }

abbrev pub exporter_pairs :
    Option Text → (Text → Text) → (Text → Option Candidate) → List (Candidate × Option Candidate)
exporter_pairs none exporter exporter_ref = []
exporter_pairs (some sel) exporter exporter_ref =
    (candidate MetricSource.node_exporter (exporter sel), exporter_ref sel) ∷ []

unfoldable pub pair_candidates :
    Option Text
    → List Text
    → (Text → Text)
    → (Text → Option Candidate)
    → (Text → Text)
    → (Text → Option Candidate)
    → List (Candidate × Option Candidate)
pair_candidates ne kubelet exporter exporter_ref cadvisor cadvisor_ref =
    exporter_pairs ne exporter exporter_ref
    ++ map (λ sel. (candidate MetricSource.cadvisor (cadvisor sel), cadvisor_ref sel)) kubelet

abbrev pub exporter_ref : (Text → Text) → Text → Option Candidate
exporter_ref make sel = some (candidate MetricSource.node_exporter (make sel))

-- `{sel}` in braces, after the name of a metric
abbrev pub of_metric : Text → Text → Text
of_metric metric sel = metric ++ codes "{" ++ sel ++ codes "}"

-- The rate of a metric over a window
abbrev pub rate : Text → Text → ℕ → Text
rate metric sel w = codes "rate(" ++ of_metric metric sel ++ codes "[" ++ show_u64 w ++ codes "s])"

abbrev pub sum : Text → Text
sum inner = codes "sum(" ++ inner ++ codes ")"

abbrev pub equals : Text → Text → Text
equals label value = label ++ codes "=" ++ in_quotes value

abbrev pub with_matcher : Text → Text → Text
with_matcher sel matcher = sel ++ codes ", " ++ matcher

unfoldable pub cluster_plan : Option Text → MetricsRange → List ChartPlan
unfolding cluster_matcher join host_window with_reference show_u64
cluster_plan cluster range =
    let c : Option Text = cluster_matcher cluster in
    let of_containers : Text = join (some containers ∷ c ∷ []) in
    let allocatable : Text → Option Candidate = λ resource. some (
      candidate MetricSource.kube_state_metrics (
        sum (
          of_metric (codes "kube_node_status_allocatable")
            (join (some (equals (codes "resource") resource) ∷ c ∷ []))))) in
    with_reference HostChart.cpu
      ((
        candidate MetricSource.cadvisor (
            sum
              (rate (codes "container_cpu_usage_seconds_total") of_containers (host_window range))),
        allocatable (codes "cpu"),
      )
        ∷ [])
      HostChart.cpu_allocatable
    ∷ with_reference HostChart.memory
        ((
          candidate MetricSource.cadvisor
              (sum (of_metric (codes "container_memory_working_set_bytes") of_containers)),
          allocatable (codes "memory"),
        )
          ∷ [])
        HostChart.memory_allocatable
    ∷ []

unfoldable pub instance_matcher : List Text → Option Text
unfolding escape regex_literal
instance_matcher [] = none
instance_matcher (one ∷ []) = some (codes "instance=" ++ escape one)
instance_matcher (one ∷ (two ∷ rest)) =
    some (
      codes "instance=~" ++ escape (join_with (codes "|") (map regex_literal (one ∷ (two ∷ rest)))))

-- A label's matcher of a node's name, and that of the cluster
abbrev pub by : Text → Text → Option Text → Text
by label node c = join (some (label ++ codes "=" ++ escape node) ∷ c ∷ [])

module _ (node : Text) (ne c : Option Text) (w : ℕ) where
  abbrev pub kubelet_selectors : List Text
  kubelet_selectors = by (codes "node") node c ∷ by (codes "instance") node c ∷ []

  abbrev pub allocatable : Text → Option Candidate
  allocatable resource = some (
      candidate MetricSource.kube_state_metrics (
        sum (
          of_metric (codes "kube_node_status_allocatable")
            (with_matcher (by (codes "node") node c) (equals (codes "resource") resource)))))

  abbrev pub no_pseudo_fs : Text
  no_pseudo_fs = codes "fstype!~" ++ in_quotes pseudo_fs

  abbrev pub network : Text → List Candidate
  network direction =
      map (λ p. p.0)
        (pair_candidates ne kubelet_selectors
          (λ sel. sum (
            rate (codes "node_network_" ++ direction ++ codes "_bytes_total")
              (with_matcher sel (codes "device!~" ++ in_quotes virtual_devices)) w))
          (λ sel. none)
          (λ sel. sum (
            rate (codes "container_network_" ++ direction ++ codes "_bytes_total")
              (with_matcher sel (codes "pod!=" ++ in_quotes [])) w
            ++ codes " and on (namespace, pod) "
            ++ of_metric (codes "kube_pod_info")
                (join (some (equals (codes "host_network") (codes "false")) ∷ c ∷ []))))
          (λ sel. none))

  abbrev pub pods_ksm : Candidate
  pods_ksm = candidate MetricSource.kube_state_metrics (
      codes "count("
      ++ of_metric (codes "kube_pod_status_phase")
          (join (some (equals (codes "phase") (codes "Running")) ∷ c ∷ []))
      ++ codes " == 1 and on (namespace, pod) "
      ++ of_metric (codes "kube_pod_info") (by (codes "node") node c)
      ++ codes ")")

  abbrev pub pods_kubelet : List Candidate
  pods_kubelet =
      map
        (λ sel. candidate MetricSource.kubelet (sum (of_metric (codes "kubelet_running_pods") sel)))
        kubelet_selectors

  abbrev pub cpu_pairs : List (Candidate × Option Candidate)
  cpu_pairs =
      pair_candidates ne kubelet_selectors
        (λ sel. sum (
          rate (codes "node_cpu_seconds_total")
            (with_matcher sel (codes "mode!~" ++ in_quotes (codes "idle|iowait|steal"))) w))
        (exporter_ref (λ sel.
          codes "count("
          ++ of_metric (codes "node_cpu_seconds_total")
              (with_matcher sel (equals (codes "mode") (codes "idle")))
          ++ codes ")"))
        (λ sel.
          sum (rate (codes "container_cpu_usage_seconds_total") (with_matcher sel containers) w))
        (λ sel. allocatable (codes "cpu"))

  abbrev pub memory_pairs : List (Candidate × Option Candidate)
  memory_pairs =
      pair_candidates ne kubelet_selectors
        (λ sel. sum (
          of_metric (codes "node_memory_MemTotal_bytes") sel
          ++ codes " - "
          ++ of_metric (codes "node_memory_MemAvailable_bytes") sel))
        (exporter_ref (λ sel. sum (of_metric (codes "node_memory_MemTotal_bytes") sel)))
        (λ sel.
          sum
            (of_metric (codes "container_memory_working_set_bytes") (with_matcher sel containers)))
        (λ sel. allocatable (codes "memory"))

  abbrev pub filesystem_pairs : List (Candidate × Option Candidate)
  filesystem_pairs =
      pair_candidates ne kubelet_selectors
        (λ sel.
          codes "sum(max by (device) ("
          ++ of_metric (codes "node_filesystem_size_bytes") (with_matcher sel no_pseudo_fs)
          ++ codes " - "
          ++ of_metric (codes "node_filesystem_avail_bytes") (with_matcher sel no_pseudo_fs)
          ++ codes "))")
        (exporter_ref (λ sel.
          codes "sum(max by (device) ("
          ++ of_metric (codes "node_filesystem_size_bytes") (with_matcher sel no_pseudo_fs)
          ++ codes "))"))
        (λ sel. sum (
          of_metric (codes "container_fs_usage_bytes")
            (with_matcher sel (equals (codes "id") (codes "/")))))
        (λ sel. some (
          candidate MetricSource.cadvisor (
            sum (
              of_metric (codes "container_fs_limit_bytes")
                (with_matcher sel (equals (codes "id") (codes "/")))))))

unfoldable pub node_plan : Text → List Text → Option Text → MetricsRange → List ChartPlan
unfolding cluster_matcher instance_matcher join host_window usage with_reference pair_candidates
node_plan node instances cluster range =
    let c : Option Text = cluster_matcher cluster in
    let w : ℕ = host_window range in
    let ne : Option Text = map_option (λ i. join (some i ∷ c ∷ [])) (instance_matcher instances) in
    with_reference HostChart.cpu (cpu_pairs node ne c w) HostChart.cpu_allocatable
    ∷ with_reference HostChart.memory (memory_pairs node ne c w) HostChart.memory_allocatable
    ∷ usage HostChart.pods (pods_ksm node ne c w ∷ pods_kubelet node ne c w)
    ∷ usage HostChart.network_rx (network node ne c w (codes "receive"))
    ∷ usage HostChart.network_tx (network node ne c w (codes "transmit"))
    ∷ with_reference HostChart.filesystem (filesystem_pairs node ne c w)
        HostChart.filesystem_capacity
    ∷ []
