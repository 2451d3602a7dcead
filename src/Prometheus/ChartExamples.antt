-- ===== src/Prometheus/ChartExamples.antt =====
-- prometheus/nodes.rs: the theorem on a plan whose first exporter has no data.
use cubelite.Prelude.{ℕ, ◌≡◌, refl, Option, none, some, List, [], ◌∷◌, if◌then◌else◌}
use cubelite.Prelude.Results.{Result, ok}
use cubelite.Prelude.Texts.{Text, codes, text_eq}
use cubelite.Prometheus.Responses.{PromError, Series}
use cubelite.Prometheus.Nodes.{
  HostChart, MetricSource, Candidate, ChartPlan, HostChartData, fatal, has_data, settle_from,
  settle, attempts_of, run_chart, run_plan,
}
use cubelite.Prometheus.Shown.{shown, Paired, run_plan-Paired}

abbrev show : PromError → Text
show e = []

abbrev exporter : Candidate
exporter = record { source = MetricSource.node_exporter; query = codes "exporter" }

abbrev cadvisor : Candidate
cadvisor = record { source = MetricSource.cadvisor; query = codes "cadvisor" }

abbrev allocatable : Candidate
allocatable = record { source = MetricSource.kube_state_metrics; query = codes "allocatable" }

abbrev refs : List (Option Candidate)
refs = none ∷ some allocatable ∷ []

abbrev plan : ChartPlan
plan = record {
  chart = HostChart.cpu;
  candidates = exporter ∷ cadvisor ∷ [];
  reference = some (HostChart.cpu_allocatable, refs);
}

abbrev line : List (Series ℕ)
line = record { label = []; points = (0, some 2) ∷ [] } ∷ []

-- No data from the exporter
abbrev ask : Text → Result PromError (List (Series ℕ))
ask query = if text_eq query (codes "exporter") then ok [] else ok line

abbrev charts : List (HostChartData ℕ)
charts = shown HostChart.cpu cadvisor line ∷ shown HostChart.cpu_allocatable allocatable line ∷ []

runs : run_plan show ask plan ≡ ok charts
unfolding run_plan run_chart settle settle_from attempts_of has_data fatal text_eq
runs = refl

run_plan-Paired_example : Paired show ask plan HostChart.cpu_allocatable refs charts
run_plan-Paired_example = run_plan-Paired show ask plan refl runs
