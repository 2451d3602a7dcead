-- ===== src/Prometheus/Nodes.antt =====
-- prometheus/nodes.rs: the charts of a node or a cluster, drawn from the first candidate with data.
-- What a query answers is a function of its text and range.
use cubelite.Prelude.{
  ℕ, zero, suc, ◌*◌, ◌-◌, ◌/◌, ◌==◌, Bool, true, false, ◌&&◌, ◌||◌, Option, none, some, List, [],
  ◌∷◌, ◌++◌, map, if◌then◌else◌, any, all, first, unwrap_or, and_then, map_option,
}
use cubelite.Prelude.Results.{Result, ok, err, ◌>>=◌}
use cubelite.Prelude.Texts.{Text, codes}
use cubelite.Prometheus.Workloads.{MetricsRange, seconds, step}
use cubelite.Json.{Value}
use cubelite.Prometheus.Responses.{PromError, Series, parse_series}

pub data HostChart : Type 0 where
  cpu cpu_allocatable memory memory_allocatable pods network_rx network_tx filesystem
        filesystem_capacity :
      HostChart

pub data MetricSource : Type 0 where
  node_exporter cadvisor kube_state_metrics kubelet : MetricSource

pub record Candidate : Type 0 where
  pub source : MetricSource
  pub query : Text

pub record ChartPlan : Type 0 where
  pub chart : HostChart
  pub candidates : List Candidate
  pub reference : Option (HostChart × List (Option Candidate))

unfoldable pub usage : HostChart → List Candidate → ChartPlan
usage chart candidates = record { chart = chart; candidates = candidates; reference = none }

unfoldable pub with_reference :
    HostChart → List (Candidate × Option Candidate) → HostChart → ChartPlan
with_reference chart pairs reference = record {
  chart = chart;
  candidates = map (λ p. p.0) pairs;
  reference = some (reference, map (λ p. p.1) pairs);
}

pub record HostChartData (F : Type 0) : Type 0 where
  pub chart : HostChart
  pub source : Option MetricSource
  pub query : Text
  pub series : List (Series F)
  pub error : Option Text

pub record HostMetrics (F : Type 0) : Type 0 where
  pub start : ℕ
  pub end_time : ℕ
  pub step : ℕ
  pub charts : List (HostChartData F)

abbrev pub is_some : {A : Type 0} → Option A → Bool
is_some none = false
is_some (some a) = true

abbrev pub get_elem? : {A : Type 0} → List A → ℕ → Option A
get_elem? [] n = none
get_elem? (a ∷ rest) zero = some a
get_elem? (a ∷ rest) (suc n) = get_elem? rest n

abbrev pub flatten_option : {A : Type 0} → Option (Option A) → Option A
flatten_option none = none
flatten_option (some o) = o

abbrev pub first_some : {A : Type 0} → List (Option A) → Option A
first_some [] = none
first_some (none ∷ rest) = first_some rest
first_some (some a ∷ rest) = some a

unfoldable pub fatal : PromError → Bool
fatal (PromError.connect e) = true
fatal (PromError.http status reason) = status == 401 || status == 403
fatal (PromError.config e) = false
fatal (PromError.response e) = false

abbrev pub is_fatal : {A : Type 0} → Result PromError A → Bool
is_fatal (ok a) = false
is_fatal (err e) = fatal e

abbrev pub preferred_query : List Candidate → Text
preferred_query candidates = unwrap_or (map_option (λ c. c.query) (first candidates)) []

abbrev pub ref_preferred : List (Option Candidate) → Text
ref_preferred refs = unwrap_or (map_option (λ c. c.query) (first_some refs)) []

abbrev pub ok_unless : {A : Type 0} → Option PromError → A → Result PromError A
ok_unless none a = ok a
ok_unless (some e) a = err e

module _ {F : Type 0} (show : PromError → Text) where
  unfoldable pub has_data : List (Series F) → Bool
  has_data series = any (λ s. any (λ p. is_some p.1) s.points) series

  -- The loop of `settle` from an index, with the first error and whether there was an answer
  unfoldable pub settle_from :
      ℕ
      → Option PromError
      → Bool
      → HostChart
      → Text
      → List (Candidate × Result PromError (List (Series F)))
      → HostChartData F × Option ℕ
  unfolding has_data
  settle_from index first_error any_answer chart preferred [] = (
    record {
      chart = chart;
      source = none;
      query = preferred;
      series = [];
      error = if any_answer then none else map_option show first_error;
    },
    none,
  )
  settle_from index first_error any_answer chart preferred ((candidate, ok series) ∷ rest) =
      let later = settle_from (suc index) first_error true chart preferred rest in
      if has_data series
      then (
        record {
          chart = chart;
          source = some candidate.source;
          query = candidate.query;
          series = series;
          error = none;
        },
        some index,
      )
      else later
  settle_from index first_error any_answer chart preferred ((candidate, err e) ∷ rest) =
      settle_from (suc index) (some (unwrap_or first_error e)) any_answer chart preferred rest

  unfoldable pub settle :
      HostChart
      → Text
      → List (Candidate × Result PromError (List (Series F)))
      → HostChartData F × Option ℕ
  unfolding settle_from
  settle chart preferred attempts = settle_from 0 none false chart preferred attempts

  abbrev pub stops : Result PromError (List (Series F)) → Bool
  stops (ok series) = has_data series
  stops (err e) = fatal e

  module _ (ask : Text → Result PromError (List (Series F))) where
    unfoldable pub attempts_of :
        List Candidate → List (Candidate × Result PromError (List (Series F)))
    unfolding has_data fatal
    attempts_of [] = []
    attempts_of (candidate ∷ rest) =
        let later = attempts_of rest in
        let result = ask candidate.query in
        if stops result then (candidate, result) ∷ [] else (candidate, result) ∷ later

    -- The first error, where every attempt was unreachable or rejected
    abbrev pub first_fatal :
        List (Candidate × Result PromError (List (Series F))) → Option PromError
    first_fatal [] = none
    first_fatal ((c, ok series) ∷ rest) = none
    first_fatal ((c, err e) ∷ rest) =
        if fatal e && all (λ a. is_fatal a.1) rest then some e else none

    unfoldable pub run_chart :
        HostChart → List Candidate → Result PromError (HostChartData F × Option ℕ)
    unfolding attempts_of fatal settle
    run_chart chart candidates =
        ok_unless (first_fatal (attempts_of candidates))
          (settle chart (preferred_query candidates) (attempts_of candidates))

    abbrev pub failed : HostChart → Text → PromError → HostChartData F
    failed chart query e = record {
      chart = chart;
      source = none;
      query = query;
      series = [];
      error = some (show e);
    }

    abbrev pub failed_reference :
        Option (HostChart × List (Option Candidate)) → PromError → List (HostChartData F)
    failed_reference none e = []
    failed_reference (some (chart, refs)) e = failed chart (ref_preferred refs) e ∷ []

    abbrev pub data_or_failed :
        HostChart → Text → Result PromError (HostChartData F × Option ℕ) → HostChartData F
    data_or_failed chart query (ok found) = found.0
    data_or_failed chart query (err e) = failed chart query e

    abbrev pub reference_data :
        HostChart → List (Option Candidate) → Option Candidate → HostChartData F
    reference_data chart refs (some c) = data_or_failed chart c.query (run_chart chart (c ∷ []))
    reference_data chart refs none = (settle chart (ref_preferred refs) []).0

    abbrev pub reference_charts :
        Option (HostChart × List (Option Candidate)) → Option ℕ → List (HostChartData F)
    reference_charts none winner = []
    reference_charts (some (chart, refs)) winner =
        reference_data chart refs (and_then winner (λ i. flatten_option (get_elem? refs i))) ∷ []

    abbrev pub plan_charts :
        ChartPlan
        → Result PromError (HostChartData F × Option ℕ)
        → Result (List (HostChartData F) × PromError) (List (HostChartData F))
    plan_charts plan (err e) = err (
      failed plan.chart (preferred_query plan.candidates) e ∷ failed_reference plan.reference e,
      e,
    )
    plan_charts plan (ok done) = ok (done.0 ∷ reference_charts plan.reference done.1)

    unfoldable pub run_plan :
        ChartPlan → Result (List (HostChartData F) × PromError) (List (HostChartData F))
    unfolding run_chart settle
    run_plan plan = plan_charts plan (run_chart plan.chart plan.candidates)

  -- The error of the first plan, where each failed
  abbrev pub all_failed :
      List (Result (List (HostChartData F) × PromError) (List (HostChartData F))) → Option PromError
  all_failed [] = some (PromError.response (codes "no charts"))
  all_failed (ok charts ∷ rest) = none
  all_failed (err failure ∷ []) = some failure.1
  all_failed (err failure ∷ (r ∷ rest)) =
      let others = all_failed (r ∷ rest) in if is_some others then some failure.1 else none

  abbrev pub charts_of :
      List (Result (List (HostChartData F) × PromError) (List (HostChartData F)))
      → List (HostChartData F)
  charts_of [] = []
  charts_of (ok charts ∷ rest) = charts ++ charts_of rest
  charts_of (err failure ∷ rest) = failure.0 ++ charts_of rest

  unfoldable pub host_metrics :
      (Value → Option F)
      → (Text → Option F)
      → (F → Bool)
      → (Text → ℕ → ℕ → ℕ → Result PromError Value)
      → ℕ
      → List ChartPlan
      → MetricsRange
      → Result PromError (HostMetrics F)
  unfolding run_plan parse_series seconds step
  host_metrics as_f64 parse_f64 is_finite query_range now plan range =
      let end_time : ℕ = now / step range * step range in
      let start : ℕ = end_time - seconds range in
      let results =
        map
          (run_plan (λ query.
            query_range query start end_time (step range)
            >>= (λ answer. parse_series as_f64 parse_f64 is_finite answer [])))
          plan in
      ok_unless (all_failed results) (record {
        start = start;
        end_time = end_time;
        step = step range;
        charts = charts_of results;
      })
