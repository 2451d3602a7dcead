-- ===== src/Integration/Classify.antt =====
-- elastic/transport.rs and prometheus/transport.rs: which services are an Elasticsearch, a Kibana, a
-- Prometheus or a Grafana, by labels, name and ports.
pub mod Elastic
pub mod Prometheus
use cubelite.Prelude.{
  ℕ, Bool, true, false, ◌&&◌, ◌||◌, not, Option, none, some, List, [], ◌∷◌, if◌then◌else◌, any,
  find, first, unwrap_or, or_else, and_then, map_option, is_some,
}
use cubelite.Prelude.Maps.{get}
use cubelite.Prelude.Int.{ℤ, pos, int_eq, u16_try_from}
use cubelite.Prelude.Texts.{Text, codes, text_eq, is_text, starts_with, ends_with, contains}
use cubelite.K8s.{Labels, ServicePort, Service, ServiceSpec}

-- `DetectedService` and `DetectedPrometheus`, which have the same fields
pub record DetectedService : Type 0 where
  pub kind : Text
  pub namespace : Text
  pub name : Text
  pub port : ℕ
  pub https : Bool

-- ECK and most charts name the port after its scheme.
unfoldable pub is_https : ServicePort → Bool
unfolding contains
is_https port = elim port.name [ none ↦ false | some n ↦ contains n (codes "https") ]

abbrev pub detected : Text → Service → Text → ServicePort → Option DetectedService
detected kind service name port =
    map_option
      (λ p. record {
        kind = kind;
        namespace = unwrap_or service.metadata.namespace [];
        name = name;
        port = p;
        https = is_https port;
      })
      (u16_try_from port.port)

abbrev pub label : Service → Text → Option Text
label service key = get text_eq (unwrap_or service.metadata.labels []) key
