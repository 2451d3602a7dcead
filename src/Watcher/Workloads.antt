-- ===== src/Watcher/Workloads.antt =====
-- watcher.rs, and the records of resources.rs that it fills: ingresses, configurations, secrets,
-- workloads, nodes and claims. A DeploymentConditionInfo is K8s' Condition.
use cubelite.Prelude.{
  ℕ, ◌+◌, Bool, false, not, Option, none, some, List, [], ◌∷◌, filter_map, length, is_empty,
  unwrap_or, or_else, and_then, map_option,
}
use cubelite.Prelude.BTree
use cubelite.Prelude.Int.{ℤ, pos}
use cubelite.Prelude.Order.{text_cmp}
use cubelite.Prelude.Texts.{Text, codes}
use cubelite.K8s.{Labels, ObjectMeta, Container, PodSpec, Condition, LoadBalancerIngress}
use cubelite.K8s.Workloads.{
  IngressSpec, Ingress, ConfigMap, Secret, DeploymentSpec, DeploymentStatus, Deployment,
}

pub record IngressInfo : Type 0 where
  pub name : Text
  pub namespace : Text
  pub class : Option Text
  pub hosts : List Text
  pub addresses : List Text
  pub tls : Bool
  pub creation_timestamp : Option Text

abbrev pub namespace_of : ObjectMeta → Text
namespace_of metadata = unwrap_or metadata.namespace []

-- The class, the hosts and whether there is TLS
abbrev pub ingress_spec : Option IngressSpec → Option Text × List Text × Bool
ingress_spec none = (none, [], false)
ingress_spec (some spec) = (
  spec.ingress_class_name,
  filter_map (λ (h : Option Text). h) (unwrap_or spec.rules []),
  unwrap_or (map_option (λ (t : List (List Text)). not (is_empty t)) spec.tls) false,
)

unfoldable pub ingress_to_info : Ingress → Option IngressInfo
ingress_to_info i =
    map_option
      (λ name.
        let (class, hosts, tls) = ingress_spec i.spec in
        record {
          name = name;
          namespace = namespace_of i.metadata;
          class = class;
          hosts = hosts;
          addresses =
              filter_map (λ (ing : LoadBalancerIngress). or_else ing.ip ing.hostname)
                (unwrap_or (and_then i.load_balancer (λ ingress. ingress)) []);
          tls = tls;
          creation_timestamp = i.metadata.creation_timestamp;
        })
      i.metadata.name

pub record ConfigMapInfo : Type 0 where
  pub name : Text
  pub namespace : Text
  pub data_count : ℕ
  pub creation_timestamp : Option Text

unfoldable pub configmap_to_info : ConfigMap → Option ConfigMapInfo
configmap_to_info cm =
    map_option
      (λ name. record {
        name = name;
        namespace = namespace_of cm.metadata;
        data_count =
            unwrap_or (map_option (λ (d : Labels). length d) cm.data_entries) 0
            + unwrap_or (map_option (λ (d : List (Text × List ℕ)). length d) cm.binary_data) 0;
        creation_timestamp = cm.metadata.creation_timestamp;
      })
      cm.metadata.name

pub record SecretInfo : Type 0 where
  pub name : Text
  pub namespace : Text
  pub secret_type : Option Text
  pub data_entries : Labels
  pub creation_timestamp : Option Text

-- The first loop; `decode` is `String::from_utf8`
unfoldable pub insert_decoded : (List ℕ → Option Text) → Labels → List (Text × List ℕ) → Labels
unfolding BTree.insert
insert_decoded decode shown [] = shown
insert_decoded decode shown ((key, value) ∷ rest) =
    insert_decoded decode
      (BTree.insert text_cmp shown key (unwrap_or (decode value) (codes "(binary)"))) rest

-- The second loop
unfoldable pub insert_all : Labels → Labels → Labels
unfolding BTree.insert
insert_all shown [] = shown
insert_all shown ((key, value) ∷ rest) = insert_all (BTree.insert text_cmp shown key value) rest

unfoldable pub secret_to_info : (List ℕ → Option Text) → Secret → Option SecretInfo
unfolding insert_decoded insert_all
secret_to_info decode s =
    map_option
      (λ name. record {
        name = name;
        namespace = namespace_of s.metadata;
        secret_type = s.secret_type;
        data_entries =
            insert_all (insert_decoded decode [] (unwrap_or s.data_entries []))
              (unwrap_or s.string_data []);
        creation_timestamp = s.metadata.creation_timestamp;
      })
      s.metadata.name

pub record DeploymentInfo : Type 0 where
  pub name : Text
  pub namespace : Text
  pub replicas : ℤ
  pub ready_replicas : ℤ
  pub images : List Text
  pub selector : Labels
  pub strategy : Option Text
  pub conditions : List Condition
  pub creation_timestamp : Option Text

-- The replicas, the images, the selector and the strategy
abbrev pub deployment_spec : Option DeploymentSpec → ℤ × List Text × Labels × Option Text
deployment_spec none = (pos 0, [], [], none)
deployment_spec (some spec) = (
  unwrap_or spec.replicas (pos 0),
  unwrap_or
      (map_option (λ (ps : PodSpec). filter_map (λ (c : Container). c.image) ps.containers)
        spec.template_spec)
      [],
  unwrap_or spec.match_labels [],
  and_then spec.strategy (λ type. type),
)

abbrev pub deployment_status : Option DeploymentStatus → ℤ × List Condition
deployment_status none = (pos 0, [])
deployment_status (some status) =
    (unwrap_or status.ready_replicas (pos 0), unwrap_or status.conditions [])

unfoldable pub deployment_to_info : Deployment → Option DeploymentInfo
deployment_to_info d =
    map_option
      (λ name.
        let (replicas, images, selector, strategy) = deployment_spec d.spec in
        let (ready_replicas, conditions) = deployment_status d.status in
        record {
          name = name;
          namespace = namespace_of d.metadata;
          replicas = replicas;
          ready_replicas = ready_replicas;
          images = images;
          selector = selector;
          strategy = strategy;
          conditions = conditions;
          creation_timestamp = d.metadata.creation_timestamp;
        })
      d.metadata.name
