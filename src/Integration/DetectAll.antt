-- ===== src/Integration/DetectAll.antt =====
-- integration.rs: the check of the owners that services claim, and detection as a whole. What the API
-- server answers is a record of functions; each call is made at most once.
use cubelite.Prelude.{
  ℕ, Bool, false, ◌||◌, not, Option, none, some, List, [], ◌∷◌, ◌++◌, if◌then◌else◌, unwrap_or,
  ◌==◌,
}
use cubelite.Prelude.Results.{Result, ok, err}
use cubelite.Prelude.Texts.{Text, is_text}
use cubelite.K8s.{Service, OwnerReference}
use cubelite.Integration.Target.{is_dns_label, is_resource_name}
use cubelite.Integration.Classify.{DetectedService}
use cubelite.Integration.Detect.{
  Operator, eck, prometheus_operator, Verified, VerifiedKey, elastic, prometheus, claims, Picked,
  pick,
}

-- `kube::Error`: an answer of the API server with its code, or another failure; with the text
pub data KubeError : Type 0 where
  api : ℕ → Text → KubeError
  other : Text → KubeError

abbrev pub error_text : KubeError → Text
error_text (api code text) = text
error_text (other text) = text

-- `Api::list` of all services, and `Api::get_opt` of an operator's resource, which gives its uid
pub record Server : Type 0 where
  pub list_services : Result KubeError (List Service)
  pub get_uid : Operator → Text → Text → Result KubeError (Option (Option Text))

unfoldable pub owner_exists : Server → Operator → Text → OwnerReference → Bool
unfolding is_dns_label is_resource_name
owner_exists server operator namespace owner =
    if not (is_dns_label namespace) || not (is_resource_name owner.name)
    then false
    else elim (server.get_uid operator namespace owner.name) [
      | err e ↦ false
      | ok none ↦ false
      | ok (some uid) ↦ is_text uid owner.uid
    ]

abbrev pub verified_key : Operator → Service → VerifiedKey
verified_key operator service = record {
  owner_kind = operator.kind;
  namespace = unwrap_or service.metadata.namespace [];
  name = unwrap_or service.metadata.name [];
}

unfoldable pub verify : Server → Operator → List (Service × OwnerReference) → Verified
unfolding owner_exists
verify server operator [] = []
verify server operator ((service, owner) ∷ rest) =
    let later = verify server operator rest in
    if owner_exists server operator (unwrap_or service.metadata.namespace []) owner
    then verified_key operator service ∷ later
    else later

pub record Detected : Type 0 where
  pub elasticsearch : Option DetectedService
  pub kibana : Option DetectedService
  pub prometheus : Option DetectedService
  pub grafana : Option DetectedService
  pub elasticsearch_one_click : Bool
  pub prometheus_one_click : Bool
  pub elastic_services : List DetectedService
  pub prometheus_services : List DetectedService

-- `Detected::default()`
abbrev pub nothing_detected : Detected
nothing_detected = record {
  elasticsearch = none;
  kibana = none;
  prometheus = none;
  grafana = none;
  elasticsearch_one_click = false;
  prometheus_one_click = false;
  elastic_services = [];
  prometheus_services = [];
}

unfoldable pub pick_services : List Service → Verified → Detected
unfolding pick
pick_services services verified =
    let es : Picked elastic = pick elastic services verified in
    let prom : Picked prometheus = pick prometheus services verified in
    record {
      elasticsearch = es.main;
      kibana = es.web_ui;
      prometheus = prom.main;
      grafana = prom.web_ui;
      elasticsearch_one_click = es.one_click;
      prometheus_one_click = prom.one_click;
      elastic_services = es.services;
      prometheus_services = prom.services;
    }

unfoldable pub detect_all : Server → Result Text Detected
unfolding verify pick_services claims
detect_all server = elim server.list_services [
  | ok services ↦ ok (
      pick_services services (
        verify server eck (claims elastic services)
        ++ verify server prometheus_operator (claims prometheus services)))
  | err (api code text) ↦ if code == 403 then ok nothing_detected else err text
  | err (other text) ↦ err text
]
