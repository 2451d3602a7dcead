-- ===== src/Prometheus/Workloads.antt =====
-- prometheus/mod.rs: the workloads, the regular expressions of their pods' names, the chart queries.
use cubelite.Prelude.{
  ℕ, zero, suc, ◌+◌, ◌-◌, ◌*◌, ◌/◌, ◌&&◌, Option, none, some, List, [], ◌∷◌, ◌++◌, map,
  if◌then◌else◌, leb, ltb, ◌==◌, length, take, map_option, unwrap_or,
}
use cubelite.Prelude.Texts.{Text, codes, bytes, digits}
use cubelite.Prometheus.Query.{escape, regex_literal}
use cubelite.Prometheus.Alerts.{asked}

pub data Workload : Type 0 where
  pod deployment stateful_set daemon_set job : Text → Workload

unfoldable pub name : Workload → Text
name (Workload.pod n) = n
name (Workload.deployment n) = n
name (Workload.stateful_set n) = n
name (Workload.daemon_set n) = n
name (Workload.job n) = n

pub data MetricsRange : Type 0 where
  hour six_hours day week : MetricsRange

unfoldable pub seconds : MetricsRange → ℕ
seconds MetricsRange.hour = 3600
seconds MetricsRange.six_hours = 6 * 3600
seconds MetricsRange.day = 24 * 3600
seconds MetricsRange.week = 7 * 24 * 3600

abbrev pub max : ℕ → ℕ → ℕ
max a b = if leb a b then b else a

abbrev pub min : ℕ → ℕ → ℕ
min a b = if leb a b then a else b

unfoldable pub step : MetricsRange → ℕ
unfolding seconds
step range = max (seconds range / 240) 15

unfoldable pub window : MetricsRange → ℕ
unfolding step
window range = max (4 * step range) 60

unfoldable pub grafana_from : MetricsRange → Text
grafana_from MetricsRange.hour = codes "now-1h"
grafana_from MetricsRange.six_hours = codes "now-6h"
grafana_from MetricsRange.day = codes "now-24h"
grafana_from MetricsRange.week = codes "now-7d"

abbrev pub safe : Text
safe = codes "[bcdfghjklmnpqrstvwxz2456789]"

abbrev pub generated_prefix_max : ℕ
generated_prefix_max = 58

-- `name.len()` counts bytes.
unfoldable pub deployment_pods_regex : Text → (Text → Text) → Text
deployment_pods_regex n literal =
    if leb (length (bytes n) + 1 + 10 + 1) generated_prefix_max
    then literal n ++ (codes "-" ++ (safe ++ (codes "{6,10}-" ++ (safe ++ codes "{5}"))))
    else literal (take generated_prefix_max n)
      ++ (codes "(-" ++ (safe ++ (codes "{0,10}-?)?" ++ (safe ++ codes "{5}"))))

unfoldable pub generated_pods_regex : Text → (Text → Text) → Text
generated_pods_regex n literal =
    literal (take generated_prefix_max (n ++ codes "-")) ++ (safe ++ codes "{5}")

abbrev pub job_index_digits_max : ℕ
job_index_digits_max = 7

-- How much of a name of this length is kept before `-<index>-` with so many digits
abbrev pub kept_chars : ℕ → ℕ → ℕ
kept_chars len digits = min len (generated_prefix_max - digits - 2)

-- The inner `while`: the last digit count with the same cut
unfoldable pub last_digits : ℕ → ℕ → ℕ → ℕ → ℕ
last_digits zero len kept last = last
last_digits (suc fuel) len kept last =
    let further = last_digits fuel len kept (last + 1) in
    if ltb last job_index_digits_max && kept_chars len (last + 1) == kept then further else last

-- The outer `while`: the first and the last digit count of each alternative
unfoldable pub digit_groups : ℕ → ℕ → ℕ → List (ℕ × ℕ)
unfolding last_digits
digit_groups zero len digits = []
digit_groups (suc fuel) len digits =
    let last = last_digits job_index_digits_max len (kept_chars len digits) digits in
    let rest = digit_groups fuel len (last + 1) in
    if leb digits job_index_digits_max then (digits, last) ∷ rest else []

abbrev pub join_with : Text → List Text → Text
join_with sep [] = []
join_with sep (t ∷ []) = t
join_with sep (t ∷ (u ∷ ts)) = t ++ (sep ++ join_with sep (u ∷ ts))

abbrev pub show_small : ℕ → Text
show_small n = digits 2 n

unfoldable pub alternative : Text → (Text → Text) → ℕ × ℕ → Text
unfolding digits
alternative n literal (first_digits, last) =
    literal (take (kept_chars (length n) first_digits) n)
    ++ (codes "-[0-9]{"
        ++ (show_small first_digits ++ (codes "," ++ (show_small last ++ codes "}-"))))

unfoldable pub job_pods_regex : Text → (Text → Text) → Text
unfolding digit_groups alternative
job_pods_regex n literal =
    if leb (length n + job_index_digits_max + 2) generated_prefix_max
    then literal n ++ (codes "-([0-9]{1,7}-)?" ++ (safe ++ codes "{5}"))
    else codes "("
      ++ (join_with (codes "|") (
            literal (take generated_prefix_max (n ++ codes "-"))
            ∷ map (alternative n literal) (digit_groups job_index_digits_max (length n) 1))
          ++ (codes ")" ++ (safe ++ codes "{5}")))

unfoldable pub workload_pods_regex : Workload → (Text → Text) → Option Text
unfolding deployment_pods_regex generated_pods_regex job_pods_regex
workload_pods_regex (Workload.pod n) literal = none
workload_pods_regex (Workload.deployment n) literal = some (deployment_pods_regex n literal)
workload_pods_regex (Workload.stateful_set n) literal = some (literal n ++ codes "-[0-9]+")
workload_pods_regex (Workload.daemon_set n) literal = some (generated_pods_regex n literal)
workload_pods_regex (Workload.job n) literal = some (job_pods_regex n literal)

abbrev pub pod_matcher : Workload → Option Text → Text
pod_matcher workload (some pods) = codes "pod=~" ++ escape pods
pod_matcher workload none = codes "pod=" ++ escape (name workload)

unfoldable pub selector : Text → Workload → Option Text → Text
unfolding workload_pods_regex escape name
selector namespace workload cluster =
    codes "namespace="
    ++ (escape namespace
        ++ (codes ", "
            ++ (pod_matcher workload (workload_pods_regex workload regex_literal)
                ++ unwrap_or (map_option (λ c. codes ", cluster=" ++ escape c) (asked cluster))
                    [])))
