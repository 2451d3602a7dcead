-- ===== src/K8s/Workloads.antt =====
-- The fields of the ingresses, configurations, secrets, workloads, nodes and claims that the program
-- reads.
use cubelite.Prelude.{ℕ, Bool, Option, List}
use cubelite.Prelude.Int.{ℤ}
use cubelite.Prelude.Texts.{Text}
use cubelite.K8s.{Labels, ObjectMeta, PodSpec, Condition, LoadBalancerIngress}

-- `rules` are the hosts of the rules; of `tls` only the length is read
pub record IngressSpec : Type 0 where
  pub rules : Option (List (Option Text))
  pub tls : Option (List (List Text))
  pub ingress_class_name : Option Text

pub record Ingress : Type 0 where
  pub metadata : ObjectMeta
  pub spec : Option IngressSpec
  pub load_balancer : Option (Option (List LoadBalancerIngress))

-- A `ByteString` is its bytes.
pub record ConfigMap : Type 0 where
  pub metadata : ObjectMeta
  pub data_entries : Option Labels
  pub binary_data : Option (List (Text × List ℕ))

pub record Secret : Type 0 where
  pub metadata : ObjectMeta
  pub secret_type : Option Text
  pub data_entries : Option (List (Text × List ℕ))
  pub string_data : Option Labels

-- `selector.match_labels`, `template.spec` and `strategy.type_`, each with what is optional above it
pub record DeploymentSpec : Type 0 where
  pub replicas : Option ℤ
  pub match_labels : Option Labels
  pub template_spec : Option PodSpec
  pub strategy : Option (Option Text)

pub record DeploymentStatus : Type 0 where
  pub ready_replicas : Option ℤ
  pub conditions : Option (List Condition)

pub record Deployment : Type 0 where
  pub metadata : ObjectMeta
  pub spec : Option DeploymentSpec
  pub status : Option DeploymentStatus

pub record JobStatus : Type 0 where
  pub succeeded : Option ℤ
  pub active : Option ℤ
  pub failed : Option ℤ

-- `spec.completions`
pub record Job : Type 0 where
  pub metadata : ObjectMeta
  pub completions : Option (Option ℤ)
  pub status : Option JobStatus

pub record CronJobSpec : Type 0 where
  pub schedule : Text
  pub suspend : Option Bool

-- of the active jobs only the number matters
pub record CronJobStatus : Type 0 where
  pub active : Option (List Text)
  pub last_schedule_time : Option Text

pub record CronJob : Type 0 where
  pub metadata : ObjectMeta
  pub spec : Option CronJobSpec
  pub status : Option CronJobStatus

-- `spec.replicas` and `status.ready_replicas`
pub record StatefulSet : Type 0 where
  pub metadata : ObjectMeta
  pub replicas : Option (Option ℤ)
  pub ready_replicas : Option (Option ℤ)

-- `node_info` is the version of its kubelet
pub record NodeStatus : Type 0 where
  pub conditions : Option (List Condition)
  pub node_info : Option Text

pub record Node : Type 0 where
  pub metadata : ObjectMeta
  pub status : Option NodeStatus

pub record PvcSpec : Type 0 where
  pub storage_class_name : Option Text
  pub volume_name : Option Text

pub record PvcStatus : Type 0 where
  pub phase : Option Text
  pub capacity : Option Labels
  pub access_modes : Option (List Text)

pub record PersistentVolumeClaim : Type 0 where
  pub metadata : ObjectMeta
  pub spec : Option PvcSpec
  pub status : Option PvcStatus
