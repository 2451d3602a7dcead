-- ===== src/Elastic/Types.antt =====
-- elastic/mod.rs and elastic/cluster_filter.rs: the endpoint, its credentials, the errors and the
-- fields of a log shipper.
use cubelite.Prelude.{
  ℕ, Bool, true, false, Option, none, some, ◌++◌, if◌then◌else◌, is_empty, and_then,
}
use cubelite.Prelude.Texts.{Text, codes, trim}
use cubelite.Integration.Target.{Target, ServiceRef}

pub data FieldPreset : Type 0 where
  ecs fluent_bit : FieldPreset

pub record PresetFields : Type 0 where
  pub namespace : Text
  pub pod : Text
  pub keyword_subfields : Bool
  pub job_label : Option Text
  pub container : Text
  pub message : Text

unfoldable pub fields : FieldPreset → PresetFields
fields ecs = record {
  namespace = codes "kubernetes.namespace";
  pod = codes "kubernetes.pod.name";
  keyword_subfields = false;
  job_label = some (codes "kubernetes.labels.batch_kubernetes_io/job-name");
  container = codes "kubernetes.container.name";
  message = codes "message";
}
fields fluent_bit = record {
  namespace = codes "kubernetes.namespace_name";
  pod = codes "kubernetes.pod_name";
  keyword_subfields = true;
  job_label = none;
  container = codes "kubernetes.container_name";
  message = codes "log";
}

abbrev pub ecs_cluster_field : Text
ecs_cluster_field = codes "orchestrator.cluster.name"

pub record ClusterFilter : Type 0 where
  pub field : Text
  pub value : Text

-- the field of the filter: the ECS one if it is blank and the preset is ECS
abbrev pub field_or : FieldPreset → Text → Option Text
field_or ecs field = some (if is_empty field then ecs_cluster_field else field)
field_or fluent_bit field = if is_empty field then none else some field

unfoldable pub term : ClusterFilter → FieldPreset → Option (Text × Text)
term filter preset =
    let value : Text = trim filter.value in
    if is_empty value
    then none
    else and_then (field_or preset (trim filter.field)) (λ field. some (field, value))

pub record EsEndpoint : Type 0 where
  pub target : Target
  pub index_pattern : Text
  pub preset : FieldPreset
  pub kibana_url : Option Text
  pub kibana_service : Option ServiceRef
  pub skip_tls_verify : Bool
  pub cluster_filter : Option ClusterFilter
  pub shared : Bool

pub data EsAuth : Type 0 where
  no_auth : EsAuth
  basic : Text → Text → EsAuth
  api_key : Text → EsAuth
  bearer : Text → EsAuth
  eck_user : EsAuth

-- `Authorization`, with the base64 of a text as an argument
unfoldable pub header : (Text → Text) → EsAuth → Option Text
header base64 no_auth = none
header base64 eck_user = none
header base64 (basic username password) =
    some (codes "Basic " ++ base64 (username ++ codes ":" ++ password))
header base64 (api_key key) = some (codes "ApiKey " ++ trim key)
header base64 (bearer token) = some (codes "Bearer " ++ trim token)

pub data ElasticError : Type 0 where
  config : Text → ElasticError
  connect : Text → ElasticError
  http : ℕ → Text → ElasticError
  response : Text → ElasticError
