-- ===== src/Watcher/Examples.antt =====
-- watcher.rs: the theorems at a pod of three containers and at a service with a load balancer.
use cubelite.Prelude.{
  ℕ, ◌≡◌, refl, Bool, true, false, ◌&&◌, not, Option, none, some, [], ◌∷◌, ◌++◌, map, filter, all,
  count, length, is_empty, arith, if◌then◌else◌, ltb, or_else, map_option, List,
}
use cubelite.Prelude.BTree
use cubelite.Prelude.Order.{text_cmp}
use cubelite.Prelude.Int.{pos}
use cubelite.Prelude.Texts.{Text, codes}
use cubelite.K8s.{ObjectMeta, Container, ContainerStatus, Pod, Service}
use cubelite.Watcher.{
  PodInfo, ContainerDetail, ServiceInfo, pod_to_info, pod_to_container_details, is_sidecar,
}
use cubelite.Watcher.Pods.{
  containers_of, is_container_ready, total_of, pod_to_info-ready, pod_to_info-restarts,
}
use cubelite.Watcher.Containers.{spec_of, inits_of, is_app, pod_to_container_details-order}
use cubelite.K8s.Workloads.{Secret}
use cubelite.Watcher.Workloads.{SecretInfo, secret_to_info}
use cubelite.Watcher.Secrets.{last_of, shown_text, secret_to_info-get}

abbrev meta : Text → ObjectMeta
meta name = record {
  name = some name;
  namespace = some (codes "default");
  uid = none;
  labels = none;
  owner_references = none;
  creation_timestamp = none;
}

abbrev container : Text → Option Text → Container
container name policy = record { name = name; image = none; ports = none; restart_policy = policy }

abbrev status : Text → Bool → ℕ → ContainerStatus
status name ready restarts = record {
  name = name;
  ready = ready;
  restart_count = pos restarts;
  state = some (record { running = true; terminated = none; waiting = none });
  last_state = none;
}

-- An app container that runs, a plain init container and a sidecar
abbrev pod : Pod
pod = record {
  metadata = meta (codes "web");
  spec = some (record {
    containers = container (codes "app") none ∷ [];
    init_containers =
        some
          (container (codes "setup") none ∷ container (codes "proxy") (some (codes "Always")) ∷ []);
    node_name = none;
  });
  status = some (record {
    phase = some (codes "Running");
    pod_ip = none;
    qos_class = none;
    conditions = none;
    container_statuses = some (status (codes "app") true 3 ∷ []);
    init_container_statuses = none;
  });
}

abbrev info_of : Option PodInfo → PodInfo
info_of (some info) = info
info_of none = record {
  name = [];
  namespace = [];
  phase = none;
  ready = false;
  restarts = pos 0;
  ready_containers = pos 0;
  total_containers = pos 0;
  node = none;
  pod_ip = none;
  qos_class = none;
  containers = [];
  labels = [];
  creation_timestamp = none;
}

abbrev info : PodInfo
info = info_of (pod_to_info pod)

info-some : pod_to_info pod ≡ some info
unfolding pod_to_info
info-some = refl

pod_to_info-ready_example :
    (info.ready
      ≡ (not (is_empty (containers_of pod)) && all (is_container_ready pod) (containers_of pod)))
    × (info.total_containers ≡ pos (length (containers_of pod)))
    × (info.ready_containers ≡ pos (count (is_container_ready pod) (containers_of pod)))
pod_to_info-ready_example = pod_to_info-ready pod info (omega arith) info-some

pod_to_info-restarts_example : info.restarts ≡ pos (total_of (3 ∷ []))
pod_to_info-restarts_example = pod_to_info-restarts pod info (3 ∷ []) refl (omega arith) info-some

pod_to_container_details-order_example :
    (pod_to_container_details pod
      ≡ filter is_app (pod_to_container_details pod)
        ++ (filter (λ (d : ContainerDetail). d.sidecar) (pod_to_container_details pod)
            ++ filter (λ (d : ContainerDetail). d.init) (pod_to_container_details pod)))
    × (map (λ (d : ContainerDetail). d.name) (filter is_app (pod_to_container_details pod))
        ≡ map (λ (c : Container). c.name) (spec_of pod).containers)
    × (map
          (λ (d : ContainerDetail). d.name)
          (filter (λ (d : ContainerDetail). d.sidecar) (pod_to_container_details pod))
        ≡ map (λ (c : Container). c.name) (filter is_sidecar (inits_of pod)))
    × (map
          (λ (d : ContainerDetail). d.name)
          (filter (λ (d : ContainerDetail). d.init) (pod_to_container_details pod))
        ≡ map (λ (c : Container). c.name) (filter (λ c. not (is_sidecar c)) (inits_of pod)))
pod_to_container_details-order_example = pod_to_container_details-order pod

abbrev service : Service
service = record {
  metadata = meta (codes "web");
  spec = none;
  load_balancer = some (
      some (
        record { ip = none; hostname = some (codes "lb.example") }
        ∷ record { ip = none; hostname = none }
        ∷ record { ip = some (codes "10.0.0.1"); hostname = none }
        ∷ []));
}

abbrev service_info : Option ServiceInfo → ServiceInfo
service_info (some i) = i
service_info none = record {
  name = [];
  namespace = [];
  service_type = none;
  cluster_ip = none;
  external_ips = [];
  ports = [];
  creation_timestamp = none;
}

-- One value is text, one is not, and one is given again as text.
abbrev secret : Secret
secret = record {
  metadata = meta (codes "api");
  secret_type = none;
  data_entries =
      some ((codes "key", 1 ∷ []) ∷ (codes "raw", 255 ∷ []) ∷ (codes "user", 2 ∷ []) ∷ []);
  string_data = some ((codes "user", codes "admin") ∷ []);
}

abbrev small_bytes : List ℕ → Option Text
small_bytes bytes = if all (λ b. ltb b 128) bytes then some bytes else none

abbrev secret_info : Option SecretInfo → SecretInfo
secret_info (some i) = i
secret_info none = record {
  name = [];
  namespace = [];
  secret_type = none;
  data_entries = [];
  creation_timestamp = none;
}

secret_to_info-get_example :
    BTree.get text_cmp (secret_info (secret_to_info small_bytes secret)).data_entries (codes "raw")
    ≡ or_else (last_of ((codes "user", codes "admin") ∷ []) (codes "raw")) (
        map_option (shown_text small_bytes) (
          last_of
            ((codes "key", 1 ∷ []) ∷ (codes "raw", 255 ∷ []) ∷ (codes "user", 2 ∷ []) ∷ [])
            (codes "raw")))
unfolding secret_to_info
secret_to_info-get_example = secret_to_info-get small_bytes secret refl (codes "raw")
