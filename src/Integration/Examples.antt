-- ===== src/Integration/Examples.antt =====
-- integration.rs: the theorems at two clusters of services.
use mathlib.Core.List.{Memᴰ}
use cubelite.Prelude.{ℕ, ◌≡◌, refl, true, none, some, List, [], ◌∷◌, unwrap_or, arith}
use cubelite.Prelude.Int.{pos, int_eq, u16_try_from}
use cubelite.Prelude.Results.{ok}
use cubelite.Prelude.Texts.{Text, codes, text_eq, trim, bytes, show_u16}
use cubelite.K8s.{OwnerReference, ObjectMeta, Service, Pod, IntOrString}
use cubelite.Integration.Target.{
  ServiceRef, Host, Url, UrlCrate, is_dns_label, binding, check_external_url,
}
use cubelite.Integration.Bindings.{IsAccepted, binding-injective, check_external_url-ok}
use cubelite.Integration.Tunnel.{Cluster, open_service_tunnel}
use cubelite.Integration.Tunnels.{Selects, IsServing, Routes, open_service_tunnel-ok}

abbrev plain_url : Url
plain_url = record {
  scheme = codes "http";
  username = [];
  password = none;
  host = some (Host.domain (codes "LocalHost"));
  query = some (codes "q=1");
  fragment = none;
  path = codes "/";
}

abbrev crate : UrlCrate
crate = record { parse = λ t. ok plain_url; origin = λ u. codes "http://localhost" }

abbrev search : ServiceRef
search = record {
  namespace = codes "logging";
  service = codes "quickstart-es-http";
  port = 9200;
  https = true;
}

abbrev search_binding : Text
search_binding = codes "in-cluster:logging/quickstart-es-http:9200:https|insecure"

binding-injective_example : (search ≡ search) × (true ≡ true)
unfolding binding is_dns_label bytes show_u16
binding-injective_example =
    binding-injective crate search search true true search_binding (omega arith) (omega arith) refl
      refl

abbrev accepted_url : Url
accepted_url = record plain_url { query = none; fragment = none }

check_external_url-ok_example :
    (raw : Url) × (crate.parse (trim (codes " http://LocalHost/?q=1")) ≡ ok raw)
    × (accepted_url ≡ record raw { query = none; fragment = none })
    × IsAccepted accepted_url true
unfolding check_external_url text_eq
check_external_url-ok_example =
    check_external_url-ok crate (codes " http://LocalHost/?q=1") true accepted_url refl

abbrev app_labels : List (Text × Text)
app_labels = (codes "app", codes "web") ∷ []

abbrev meta : Text → Text → List OwnerReference → ObjectMeta
meta name namespace owners = record {
  name = some name;
  namespace = some namespace;
  uid = none;
  labels = none;
  owner_references = some owners;
  creation_timestamp = none;
}

abbrev web_service : Service
web_service = record {
  metadata = meta (codes "web") (codes "default") [];
  spec = some (record {
    selector = some app_labels;
    ports = some (
        record {
          name = none;
          port = pos 80;
          target_port = some (IntOrString.int (pos 8080));
          node_port = none;
          protocol = none;
        }
        ∷ []);
    service_type = none;
    cluster_ip = none;
    external_ips = none;
  });
  load_balancer = none;
}

abbrev web_pod : Text → Text → Pod
web_pod name phase = record {
  metadata = meta name (codes "default") [];
  spec = none;
  status = some (record {
    phase = some phase;
    pod_ip = none;
    qos_class = none;
    conditions =
        some (record { condition_type = codes "Ready"; status = codes "True"; reason = none } ∷ []);
    container_statuses = none;
    init_container_statuses = none;
  });
}

-- The first pod listed does not run.
abbrev pods : List Pod
pods = web_pod (codes "web-1") (codes "Pending") ∷ web_pod (codes "web-2") (codes "Running") ∷ []

abbrev cluster : Cluster
cluster = record {
  get_service = λ namespace name. ok web_service;
  get_pod = λ namespace name. ok none;
  list_pods = λ namespace selector. ok pods;
  forward_pod_port = λ namespace pod port. ok 50000;
}

open_service_tunnel-ok_example :
    (svc : Service) × (selector : Text) × (listed : List Pod) × (pod : Pod) × (remote : ℕ)
    × (cluster.get_service (codes "default") (codes "web") ≡ ok svc)
    × Selects svc selector
    × (cluster.list_pods (codes "default") selector ≡ ok listed)
    × Memᴰ pod listed
    × IsServing pod
    × (codes "web-2" ≡ unwrap_or pod.metadata.name [])
    × Routes svc 80 pod remote
    × (cluster.forward_pod_port (codes "default") (codes "web-2") remote ≡ ok 50000)
unfolding open_service_tunnel int_eq u16_try_from
open_service_tunnel-ok_example =
    open_service_tunnel-ok cluster (codes "default") (codes "web") 80
      (record { local_port = 50000; pod = codes "web-2" }) refl
