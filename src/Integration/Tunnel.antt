-- ===== src/Integration/Tunnel.antt =====
-- integration.rs: a port-forward to a ready pod behind a service. The API server's answers and the
-- forwarder (`portforward.rs`) are a record of functions, each call being made at most once.
use cubelite.Prelude.{
  ℕ, Bool, true, false, ◌&&◌, Option, none, some, List, [], ◌∷◌, ◌++◌, if◌then◌else◌, any, is_empty,
  find, flat_map, unwrap_or, and_then,
}
use cubelite.Prelude.Results.{Result, ok, err, ◌>>=◌, ok_or, map_err}
use cubelite.Prelude.Int.{pos, int_eq, u16_try_from}
use cubelite.Prelude.Texts.{Text, codes, text_eq, is_text, show_u16}
use cubelite.K8s.{
  Labels, IntOrString, int, string, ServicePort, Service, ContainerPort, Container, Condition, Pod,
}

-- Ports of a pod's containers
abbrev pub listed_ports : Container → List ContainerPort
listed_ports c = unwrap_or c.ports []

unfoldable pub resolve_port : Option IntOrString → ℕ → Pod → Option ℕ
resolve_port none port pod = some port
resolve_port (some (int n)) port pod = u16_try_from n
resolve_port (some (string name)) port pod = and_then pod.spec (λ spec.
    and_then
      (find (λ (p : ContainerPort). is_text p.name name) (flat_map listed_ports spec.containers))
      (λ p. u16_try_from p.container_port))

unfoldable pub target_port : Service → ℕ → Pod → Option ℕ
unfolding resolve_port
target_port service port pod = and_then service.spec (λ spec. and_then spec.ports (λ ports.
    and_then (find (λ (p : ServicePort). int_eq p.port (pos port)) ports)
      (λ p. resolve_port p.target_port port pod)))

-- Running, with a Ready condition that is true
unfoldable pub is_ready : Pod → Bool
unfolding text_eq
is_ready pod = elim pod.status [
  | none ↦ false
  | some status ↦
      is_text status.phase (codes "Running")
      && any
          (λ (c : Condition).
            text_eq c.condition_type (codes "Ready") && text_eq c.status (codes "True"))
          (unwrap_or status.conditions [])
]

unfoldable pub ready_pod : List Pod → Option Pod
unfolding is_ready
ready_pod pods = find is_ready pods

-- `k=v,k2=v2`
abbrev pub join_selector : Labels → Text
join_selector [] = []
join_selector ((k, v) ∷ []) = k ++ 61 ∷ v
join_selector ((k, v) ∷ (rest ∷ labels)) = k ++ 61 ∷ (v ++ 44 ∷ join_selector (rest ∷ labels))

unfoldable pub selector_string : Service → Option Text
selector_string service = and_then service.spec (λ spec.
    and_then spec.selector
      (λ selector. if is_empty selector then none else some (join_selector selector)))

pub data TunnelError : Type 0 where
  config connect : Text → TunnelError

pub record ServiceTunnel : Type 0 where
  pub local_port : ℕ
  pub pod : Text

-- `Api::get`, `Api::list` with a label selector, and `forward_pod_port` from a free local port; an
-- error is its text
pub record Cluster : Type 0 where
  pub get_service : Text → Text → Result Text Service
  pub get_pod : Text → Text → Result Text (Option Pod)
  pub list_pods : Text → Text → Result Text (List Pod)
  pub forward_pod_port : Text → Text → ℕ → Result Text ℕ

unfoldable pub pod_ready : Cluster → Text → Text → Bool
unfolding ready_pod
pod_ready cluster namespace pod = elim (cluster.get_pod namespace pod) [
  | err e ↦ false
  | ok none ↦ false
  | ok (some p) ↦ elim (ready_pod (p ∷ [])) [ none ↦ false | some r ↦ true ]
]

abbrev pub service_path : Text → Text → Text
service_path namespace service = namespace ++ 47 ∷ service

unfoldable pub open_service_tunnel : Cluster → Text → Text → ℕ → Result TunnelError ServiceTunnel
unfolding selector_string ready_pod target_port
open_service_tunnel cluster namespace service port = do
  svc ← map_err connect (cluster.get_service namespace service)
  selector ←
      ok_or
        (config
          (codes "Service " ++ service_path namespace service ++ codes " has no pod selector"))
        (selector_string svc)
  pods ← map_err connect (cluster.list_pods namespace selector)
  pod ←
      ok_or (connect (codes "no ready pod behind " ++ service_path namespace service))
        (ready_pod pods)
  let pod_name : Text = unwrap_or pod.metadata.name []
  remote ←
      ok_or
        (config (
          codes "Service "
          ++ service_path namespace service
          ++ codes " has no port "
          ++ show_u16 port))
        (target_port svc port pod)
  local_port ← map_err connect (cluster.forward_pod_port namespace pod_name remote)
  ok (record { local_port = local_port; pod = pod_name })
