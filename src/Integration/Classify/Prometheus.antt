-- ===== src/Integration/Classify/Prometheus.antt =====
-- prometheus/transport.rs: Prometheus and Grafana services.
use cubelite.Prelude.{
  Bool, true, false, ◌||◌, not, Option, none, List, [], ◌∷◌, if◌then◌else◌, any, find, first,
  unwrap_or, or_else, and_then,
}
use cubelite.Prelude.Int.{ℤ, pos, int_eq}
use cubelite.Prelude.Texts.{Text, codes, text_eq, is_text, ends_with, contains}
use cubelite.K8s.{ServicePort, Service}
use cubelite.Integration.Classify.{DetectedService, is_https, detected, label}

abbrev excluded : List Text
excluded =
    codes "alertmanager"
    ∷ codes "node-exporter"
    ∷ codes "operator"
    ∷ codes "pushgateway"
    ∷ codes "kube-state-metrics"
    ∷ codes "headless"
    ∷ codes "image-renderer"
    ∷ []

unfoldable pub is_grafana : Service → Text → Bool
unfolding text_eq ends_with
is_grafana service name =
    is_text (label service (codes "app.kubernetes.io/name")) (codes "grafana")
    || is_text (label service (codes "app")) (codes "grafana")
    || ends_with name (codes "-grafana")
    || text_eq name (codes "grafana")

unfoldable pub is_prometheus : Service → Text → Bool
unfolding text_eq ends_with
is_prometheus service name =
    is_text (label service (codes "app.kubernetes.io/name")) (codes "prometheus")
    || is_text (label service (codes "operated-prometheus")) (codes "true")
    || is_text (label service (codes "app")) (codes "prometheus")
    || text_eq name (codes "prometheus-operated")
    || text_eq name (codes "prometheus-server")
    || ends_with name (codes "-prometheus")
    || text_eq name (codes "prometheus")

abbrev wanted_ports : Bool → List ℤ
wanted_ports true = pos 80 ∷ pos 3000 ∷ []
wanted_ports false = pos 9090 ∷ []

abbrev is_web_name : Option Text → Bool
is_web_name name =
    is_text name (codes "web")
    || is_text name (codes "http")
    || is_text name (codes "http-web")
    || is_text name (codes "service")

unfoldable pub choose_port : Bool → List ServicePort → Option ServicePort
choose_port grafana ports =
    or_else
      (or_else (find (λ (p : ServicePort). any (λ w. int_eq w p.port) (wanted_ports grafana)) ports)
        (find (λ (p : ServicePort). is_web_name p.name) ports))
      (first ports)

unfoldable pub classify : Service → Option DetectedService
unfolding is_grafana is_prometheus choose_port is_https
classify service = and_then service.metadata.name (λ name.
    let grafana = is_grafana service name in
    if any (contains name) excluded
    then none
    else if not (grafana || is_prometheus service name)
    then none
    else and_then service.spec (λ spec.
      and_then (choose_port grafana (unwrap_or spec.ports [])) (λ port.
        detected (if grafana then codes "grafana" else codes "prometheus") service name port)))
