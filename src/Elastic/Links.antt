-- ===== src/Elastic/Links.antt =====
-- elastic/mod.rs: the queries in KQL and Lucene, and the links to Kibana Discover.
use cubelite.Prelude.{
  ℕ, ◌||◌, not, Option, none, some, [], ◌∷◌, ◌++◌, if◌then◌else◌, ◌==◌, is_empty, and_then,
  map_option, unwrap_or, filter_option,
}
use cubelite.Prelude.Texts.{Text, codes, trim}
use cubelite.Prometheus.Workloads.{Workload, workload_pods_regex}
use cubelite.Prometheus.Workloads
use cubelite.Elastic.Types.{FieldPreset, PresetFields, fields, ClusterFilter, term}
use cubelite.Elastic.Escapes.{
  rison, kql, kql_field, lucene_field, lucene_regex_literal, percent_encode,
}

unfoldable pub kql_clause : Option ClusterFilter → FieldPreset → Text
unfolding term kql_field kql
kql_clause filter preset =
    unwrap_or
      (map_option (λ (t : Text × Text). codes " and " ++ (kql_field t.0 ++ (codes ":" ++ kql t.1)))
        (and_then filter (λ f. term f preset)))
      []

unfoldable pub lucene_clause : Option ClusterFilter → FieldPreset → Text
unfolding term lucene_field kql
lucene_clause filter preset =
    unwrap_or
      (map_option
        (λ (t : Text × Text). codes " AND " ++ (lucene_field t.0 ++ (codes ":" ++ kql t.1)))
        (and_then filter (λ f. term f preset)))
      []

-- `{field}:{"value"}`
abbrev pub matches_value : Text → Text → Text
matches_value field value = field ++ (codes ":" ++ kql value)

-- `trim_end_matches('/')`
abbrev pub cons_unless_slash : ℕ → Text → Text
cons_unless_slash c [] = if c == 47 then [] else c ∷ []
cons_unless_slash c (d ∷ t) = c ∷ (d ∷ t)

unfoldable pub trim_end_slashes : Text → Text
trim_end_slashes [] = []
trim_end_slashes (c ∷ s) = cons_unless_slash c (trim_end_slashes s)

-- What stands before the first `?` or `#`
unfoldable pub before_query : Text → Text
before_query [] = []
before_query (c ∷ s) = if c == 63 || c == 35 then [] else c ∷ before_query s

unfoldable pub clean_base : Text → Text
unfolding trim_end_slashes before_query
clean_base kibana_base = trim_end_slashes (before_query (trim kibana_base))

abbrev pub time_state : Text → Text → Text
time_state from to =
    codes "(time:(from:" ++ (rison from ++ (codes ",to:" ++ (rison to ++ codes "))")))

abbrev pub query_state : Text → Text → Text
query_state language query =
    codes "(query:(language:" ++ (language ++ (codes ",query:" ++ (rison query ++ codes "))")))

unfoldable pub discover_link : Text → Text → Text → Text → Text → Text
unfolding clean_base percent_encode rison
discover_link kibana_base language query from to =
    clean_base kibana_base
    ++ (codes "/app/discover#/?_g="
        ++ (percent_encode (time_state from to)
            ++ (codes "&_a=" ++ percent_encode (query_state language query))))

unfoldable pub kibana_discover_url :
    Text → FieldPreset → Text → Text → Option Text → Text → Text → Option ClusterFilter → Text
unfolding fields kql kql_clause discover_link
kibana_discover_url kibana_base preset namespace pod container from to cluster =
    let f : PresetFields = fields preset in
    let query : Text =
      matches_value f.namespace namespace
      ++ (codes " and "
          ++ (matches_value f.pod pod
              ++ (unwrap_or
                    (map_option (λ c. codes " and " ++ matches_value f.container c)
                      (filter_option (λ c. not (is_empty c)) container))
                    []
                  ++ kql_clause cluster preset))) in
    discover_link kibana_base (codes "kuery") query from to

unfoldable pub lucene_regexp : PresetFields → Text → Text → Text
lucene_regexp f field regexp =
    if f.keyword_subfields
    then codes "("
      ++ (field
          ++ (codes ":/"
              ++ (regexp
                  ++ (codes "/ OR " ++ (field ++ (codes ".keyword:/" ++ (regexp ++ codes "/)")))))))
    else field ++ (codes ":/" ++ (regexp ++ codes "/"))

-- The clause of a workload: a job also matches its label, where the shipper stores it.
abbrev pub workload_clause : Workload → Option Text → Text → Text
workload_clause (Workload.job name) (some label) pods =
    codes " AND ("
    ++ (pods ++ (codes " OR " ++ (lucene_field label ++ (codes ":" ++ (kql name ++ codes ")")))))
workload_clause workload job_label pods = codes " AND " ++ pods

abbrev pub pods_clause : PresetFields → Workload → Option Text → Text
pods_clause f workload (some pods) = lucene_regexp f f.pod pods
pods_clause f workload none = matches_value f.pod (Workloads.name workload)

unfoldable pub workload_lucene_query : FieldPreset → Text → Option Workload → Text
unfolding fields kql workload_pods_regex lucene_regexp lucene_field lucene_regex_literal
    Workloads.name
workload_lucene_query preset namespace none = matches_value (fields preset).namespace namespace
workload_lucene_query preset namespace (some workload) =
    let f : PresetFields = fields preset in
    matches_value f.namespace namespace
    ++ workload_clause workload f.job_label
        (pods_clause f workload (workload_pods_regex workload lucene_regex_literal))

unfoldable pub kibana_workload_discover_url :
    Text → FieldPreset → Text → Option Workload → Text → Text → Option ClusterFilter → Text
unfolding workload_lucene_query lucene_clause discover_link
kibana_workload_discover_url kibana_base preset namespace workload from to cluster =
    discover_link kibana_base (codes "lucene")
      (workload_lucene_query preset namespace workload ++ lucene_clause cluster preset) from to

unfoldable pub kibana_discover_home : Text → Text
unfolding clean_base
kibana_discover_home kibana_base = clean_base kibana_base ++ codes "/app/discover#/"
