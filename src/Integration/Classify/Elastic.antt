-- ===== src/Integration/Classify/Elastic.antt =====
-- elastic/transport.rs: Elasticsearch and Kibana services.
use cubelite.Prelude.{
  Bool, ◌&&◌, ◌||◌, not, Option, none, some, List, [], if◌then◌else◌, find, first, unwrap_or,
  or_else, and_then, is_some,
}
use cubelite.Prelude.Int.{ℤ, pos, int_eq}
use cubelite.Prelude.Texts.{Text, codes, text_eq, is_text, starts_with, ends_with}
use cubelite.K8s.{ServicePort, Service}
use cubelite.Integration.Classify.{DetectedService, is_https, detected, label}

unfoldable pub kind_of : Option Text → Option Text → Text → Option Text
unfolding text_eq ends_with starts_with
kind_of eck app name =
    if is_text eck (codes "elasticsearch") || is_text app (codes "elasticsearch")
    then some (codes "elasticsearch")
    else if is_text eck (codes "kibana") || is_text app (codes "kibana")
    then some (codes "kibana")
    else if ends_with name (codes "-es-http") || starts_with name (codes "elasticsearch")
    then some (codes "elasticsearch")
    else if ends_with name (codes "-kb-http") || starts_with name (codes "kibana")
    then some (codes "kibana")
    else none

unfoldable pub is_internal : Option Text → Text → Bool
unfolding ends_with
is_internal eck name =
    ends_with name (codes "-transport")
    || ends_with name (codes "-headless")
    || ends_with name (codes "-internal-http")
    || (is_some eck && not (ends_with name (codes "-es-http") || ends_with name (codes "-kb-http")))

unfoldable pub choose_port : Text → List ServicePort → Option ServicePort
unfolding text_eq
choose_port kind ports =
    let wanted : ℤ = pos (if text_eq kind (codes "elasticsearch") then 9200 else 5601) in
    or_else (find (λ (p : ServicePort). int_eq p.port wanted) ports) (first ports)

unfoldable pub classify : Service → Option DetectedService
unfolding kind_of is_internal choose_port is_https
classify service = and_then service.metadata.name (λ name.
    let eck = label service (codes "common.k8s.elastic.co/type") in
    and_then (kind_of eck (label service (codes "app.kubernetes.io/name")) name) (λ kind.
      if is_internal eck name
      then none
      else and_then service.spec (λ spec.
        and_then (choose_port kind (unwrap_or spec.ports []))
          (λ port. detected kind service name port))))
