-- ===== src/Watcher.antt =====
-- watcher.rs, and the records of resources.rs that it fills: the conversion of watched pods,
-- namespaces and services, and of watch events. The streams are the work of `kube`.
pub mod Pods
pub mod Workloads
pub mod Jobs
pub mod Secrets
pub mod Containers
pub mod Services
mod Examples
use cubelite.Prelude.{
  ℕ, ◌+◌, Bool, true, false, ◌&&◌, not, Option, none, some, List, [], ◌∷◌, ◌++◌, map, if◌then◌else◌,
  any, find, filter, filter_map, length, count, unwrap_or, and_then, map_option, ltb,
}
use cubelite.Prelude.Results.{Result, ok, err}
use cubelite.Prelude.Int.{ℤ, pos, negsuc, int_eq, sum_i32, as_i32}
use cubelite.Prelude.Texts.{Text, codes, text_eq, is_text, digits}
use cubelite.K8s.{
  Labels, ObjectMeta, Container, ContainerStatus, ContainerState, Terminated, PodSpec, PodStatus,
  Pod, ServicePort, ServiceSpec, LoadBalancerIngress, Service,
}

pub record ContainerInfo : Type 0 where
  pub name : Text
  pub image : Option Text
  pub ready : Bool

pub record ContainerDetail : Type 0 where
  pub name : Text
  pub init : Bool
  pub sidecar : Bool
  pub restarts : ℤ
  pub ready : Bool
  pub state : Text
  pub state_reason : Option Text
  pub last_terminated_reason : Option Text
  pub last_terminated_at : Option Text

pub record PodInfo : Type 0 where
  pub name : Text
  pub namespace : Text
  pub phase : Option Text
  pub ready : Bool
  pub restarts : ℤ
  pub ready_containers : ℤ
  pub total_containers : ℤ
  pub node : Option Text
  pub pod_ip : Option Text
  pub qos_class : Option Text
  pub containers : List ContainerInfo
  pub labels : Labels
  pub creation_timestamp : Option Text

pub record NamespaceInfo : Type 0 where
  pub name : Text
  pub phase : Option Text

pub record ServiceInfo : Type 0 where
  pub name : Text
  pub namespace : Text
  pub service_type : Option Text
  pub cluster_ip : Option Text
  pub external_ips : List Text
  pub ports : List Text
  pub creation_timestamp : Option Text

-- `unwrap_or_default` of a pod's spec and of its status
abbrev pub default_spec : PodSpec
default_spec = record { containers = []; init_containers = none; node_name = none }

abbrev pub default_status : PodStatus
default_status = record {
  phase = none;
  pod_ip = none;
  qos_class = none;
  conditions = none;
  container_statuses = none;
  init_container_statuses = none;
}

unfoldable pub container_info : List ContainerStatus → Container → ContainerInfo
unfolding text_eq
container_info statuses c = record {
  name = c.name;
  image = c.image;
  ready = any (λ (s : ContainerStatus). text_eq s.name c.name && s.ready) statuses;
}

abbrev pub is_positive : ℤ → Bool
is_positive (pos n) = ltb 0 n
is_positive (negsuc n) = false

unfoldable pub pod_to_info : Pod → Option PodInfo
unfolding container_info sum_i32 as_i32 int_eq
pod_to_info pod =
    map_option
      (λ name.
        let spec : PodSpec = unwrap_or pod.spec default_spec in
        let status : PodStatus = unwrap_or pod.status default_status in
        let statuses : List ContainerStatus = unwrap_or status.container_statuses [] in
        let containers : List ContainerInfo = map (container_info statuses) spec.containers in
        let total_containers : ℤ = as_i32 (length containers) in
        let ready_containers : ℤ = as_i32 (count (λ (c : ContainerInfo). c.ready) containers) in
        record {
          name = name;
          namespace = unwrap_or pod.metadata.namespace [];
          phase = status.phase;
          ready = is_positive total_containers && int_eq ready_containers total_containers;
          restarts = sum_i32 (map (λ (s : ContainerStatus). s.restart_count) statuses);
          ready_containers = ready_containers;
          total_containers = total_containers;
          node = spec.node_name;
          pod_ip = status.pod_ip;
          qos_class = status.qos_class;
          containers = containers;
          labels = unwrap_or pod.metadata.labels [];
          creation_timestamp = pod.metadata.creation_timestamp;
        })
      pod.metadata.name

-- The state's name and its reason; a container without a state is waiting.
unfoldable pub state_of : Option ContainerState → Text × Option Text
state_of none = (codes "waiting", none)
state_of (some s) = if s.running then (codes "running", none) else elim s.terminated [
  | some t ↦ (codes "terminated", t.reason)
  | none ↦ (codes "waiting", and_then s.waiting (λ reason. reason))
]

unfoldable pub detail : List ContainerStatus → Text → Bool → Bool → ContainerDetail
unfolding state_of text_eq
detail statuses name init sidecar =
    let status : Option ContainerStatus =
      find (λ (s : ContainerStatus). text_eq s.name name) statuses in
    let last_terminated : Option Terminated =
      and_then (and_then status (λ s. s.last_state)) (λ s. s.terminated) in
    let (state, state_reason) = state_of (and_then status (λ s. s.state)) in
    record {
      name = name;
      init = init && not sidecar;
      sidecar = sidecar;
      restarts = unwrap_or (map_option (λ (s : ContainerStatus). s.restart_count) status) (pos 0);
      ready = unwrap_or (map_option (λ (s : ContainerStatus). s.ready) status) false;
      state = state;
      state_reason = state_reason;
      last_terminated_reason = and_then last_terminated (λ t. t.reason);
      last_terminated_at = and_then last_terminated (λ t. t.finished_at);
    }

abbrev pub is_sidecar : Container → Bool
is_sidecar c = is_text c.restart_policy (codes "Always")

unfoldable pub pod_to_container_details : Pod → List ContainerDetail
unfolding detail
pod_to_container_details pod =
    let spec : PodSpec = unwrap_or pod.spec default_spec in
    let status : PodStatus = unwrap_or pod.status default_status in
    let statuses : List ContainerStatus =
      unwrap_or status.container_statuses [] ++ unwrap_or status.init_container_statuses [] in
    let init_containers : List Container = unwrap_or spec.init_containers [] in
    map (λ (c : Container). detail statuses c.name false false) spec.containers
    ++ (map (λ (c : Container). detail statuses c.name true true)
          (filter is_sidecar init_containers)
        ++ map (λ (c : Container). detail statuses c.name true false)
            (filter (λ c. not (is_sidecar c)) init_containers))

-- A `Namespace`: its metadata, and its status with a phase
unfoldable pub namespace_to_info : ObjectMeta → Option (Option Text) → Option NamespaceInfo
namespace_to_info metadata status =
    map_option (λ name. record { name = name; phase = and_then status (λ phase. phase) })
      metadata.name

abbrev pub default_service_spec : ServiceSpec
default_service_spec = record {
  selector = none;
  ports = none;
  service_type = none;
  cluster_ip = none;
  external_ips = none;
}

-- The loop over the ingress points of the load balancer
unfoldable pub push_ingress : List Text → List LoadBalancerIngress → List Text
push_ingress external_ips [] = external_ips
push_ingress external_ips (ing ∷ rest) = elim ing.ip [
  | some ip ↦ push_ingress (external_ips ++ ip ∷ []) rest
  | none ↦ elim ing.hostname [
    | some host ↦ push_ingress (external_ips ++ host ∷ []) rest
    | none ↦ push_ingress external_ips rest
  ]
]

-- `Display` of an `i32`
unfoldable pub show_i32 : ℤ → Text
unfolding digits
show_i32 (pos n) = digits 10 n
show_i32 (negsuc n) = 45 ∷ digits 10 (n + 1)

unfoldable pub show_port : ServicePort → Text
unfolding show_i32
show_port p =
    let protocol : Text = unwrap_or p.protocol (codes "TCP") in
    elim p.node_port [
      | some np ↦ show_i32 p.port ++ 58 ∷ (show_i32 np ++ 47 ∷ protocol)
      | none ↦ show_i32 p.port ++ 47 ∷ protocol
    ]

unfoldable pub service_to_info : Service → Option ServiceInfo
unfolding push_ingress show_port
service_to_info s =
    map_option
      (λ name.
        let spec : ServiceSpec = unwrap_or s.spec default_service_spec in
        record {
          name = name;
          namespace = unwrap_or s.metadata.namespace [];
          service_type = spec.service_type;
          cluster_ip = spec.cluster_ip;
          external_ips =
              push_ingress (unwrap_or spec.external_ips [])
                (unwrap_or (and_then s.load_balancer (λ ingress. ingress)) []);
          ports = map show_port (unwrap_or spec.ports []);
          creation_timestamp = s.metadata.creation_timestamp;
        })
      s.metadata.name

-- `watcher::Event`
pub data Event {ℓ} (K : Type ℓ) : Type ℓ where
  apply init_apply delete : K → Event K
  init init_done : Event K

-- `WatchEvent`, over what it carries
pub data WatchEvent {ℓ} (R : Type ℓ) : Type ℓ where
  applied deleted : R → WatchEvent R
  error : Text → WatchEvent R

unfoldable pub map_event {ℓ κ μ} :
    {K : Type ℓ} {T : Type κ} {R : Type μ}
    → Result Text (Event K)
    → (K → Option T)
    → (T → R)
    → Option (WatchEvent R)
map_event (ok (Event.apply resource)) convert wrap =
    map_option (λ info. WatchEvent.applied (wrap info)) (convert resource)
map_event (ok (Event.init_apply resource)) convert wrap =
    map_option (λ info. WatchEvent.applied (wrap info)) (convert resource)
map_event (ok (Event.delete resource)) convert wrap =
    map_option (λ info. WatchEvent.deleted (wrap info)) (convert resource)
map_event (ok Event.init) convert wrap = none
map_event (ok Event.init_done) convert wrap = none
map_event (err e) convert wrap = some (WatchEvent.error e)
