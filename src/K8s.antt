-- ===== src/K8s.antt =====
-- The fields of `k8s_openapi`'s objects that the program reads: names, types and optionality are
-- those of the Kubernetes API. A `BTreeMap` is the list of its entries in key order, a time is its
-- RFC 3339 text, and an `i32` an integer.
pub mod Workloads
use cubelite.Prelude.{Bool, Option, List}
use cubelite.Prelude.Int.{ℤ}
use cubelite.Prelude.Texts.{Text}

abbrev pub Labels : Type 0
Labels = List (Text × Text)

pub record OwnerReference : Type 0 where
  pub api_version : Text
  pub kind : Text
  pub name : Text
  pub uid : Text
  pub controller : Option Bool

pub record ObjectMeta : Type 0 where
  pub name : Option Text
  pub namespace : Option Text
  pub uid : Option Text
  pub labels : Option Labels
  pub owner_references : Option (List OwnerReference)
  pub creation_timestamp : Option Text

-- `IntOrString`
pub data IntOrString : Type 0 where
  int : ℤ → IntOrString
  string : Text → IntOrString

pub record ServicePort : Type 0 where
  pub name : Option Text
  pub port : ℤ
  pub target_port : Option IntOrString
  pub node_port : Option ℤ
  pub protocol : Option Text

pub record ServiceSpec : Type 0 where
  pub selector : Option Labels
  pub ports : Option (List ServicePort)
  pub service_type : Option Text
  pub cluster_ip : Option Text
  pub external_ips : Option (List Text)

pub record LoadBalancerIngress : Type 0 where
  pub ip : Option Text
  pub hostname : Option Text

-- `status.load_balancer.ingress`, the load balancer and its list each optional
pub record Service : Type 0 where
  pub metadata : ObjectMeta
  pub spec : Option ServiceSpec
  pub load_balancer : Option (Option (List LoadBalancerIngress))

pub record ContainerPort : Type 0 where
  pub name : Option Text
  pub container_port : ℤ

pub record Container : Type 0 where
  pub name : Text
  pub image : Option Text
  pub ports : Option (List ContainerPort)
  pub restart_policy : Option Text

pub record PodSpec : Type 0 where
  pub containers : List Container
  pub init_containers : Option (List Container)
  pub node_name : Option Text

pub record Condition : Type 0 where
  pub condition_type : Text
  pub status : Text
  pub reason : Option Text

pub record Terminated : Type 0 where
  pub reason : Option Text
  pub finished_at : Option Text

-- `running` without its fields; `waiting` is its reason
pub record ContainerState : Type 0 where
  pub running : Bool
  pub terminated : Option Terminated
  pub waiting : Option (Option Text)

pub record ContainerStatus : Type 0 where
  pub name : Text
  pub ready : Bool
  pub restart_count : ℤ
  pub state : Option ContainerState
  pub last_state : Option ContainerState

pub record PodStatus : Type 0 where
  pub phase : Option Text
  pub pod_ip : Option Text
  pub qos_class : Option Text
  pub conditions : Option (List Condition)
  pub container_statuses : Option (List ContainerStatus)
  pub init_container_statuses : Option (List ContainerStatus)

pub record Pod : Type 0 where
  pub metadata : ObjectMeta
  pub spec : Option PodSpec
  pub status : Option PodStatus
