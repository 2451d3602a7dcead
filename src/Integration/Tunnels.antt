-- ===== src/Integration/Tunnels.antt =====
-- integration.rs: where an opened tunnel goes.
use mathlib.Core.List.{Memᴰ}
use cubelite.Prelude.{
  ℕ, ◌≡◌, refl, sym, ◌∙◌, ap, true, false, ◌&&◌, Option, none, some, List, [], ◌∷◌, find, any,
  is_empty, flat_map, unwrap_or, arith, and_then-eq-some, if◌then◌else◌,
}
use cubelite.Prelude.Results.{Result, ok, >>=-eq-ok, map_err-eq-ok, ok_or-eq-ok}
use cubelite.Prelude.Members.{find-some, any-some}
use cubelite.Prelude.Int.{ℤ, pos, negsuc, int_eq, u16_try_from}
use cubelite.Prelude.Texts.{Text, codes, text_eq, text_eq_iff, is_text}
use cubelite.K8s.{
  Labels, IntOrString, int, string, ServicePort, ServiceSpec, ContainerPort, Service, Condition,
  PodSpec, PodStatus, Pod,
}
use cubelite.Integration.Tunnel.{
  listed_ports, resolve_port, target_port, is_ready, ready_pod, join_selector, selector_string,
  TunnelError, ServiceTunnel, Cluster, open_service_tunnel,
}

-- A Ready condition that is true
abbrev IsReadyCondition : Condition → Type 0
IsReadyCondition c = (c.condition_type ≡ codes "Ready") × (c.status ≡ codes "True")

-- A pod that runs and has a Ready condition that is true
abbrev pub IsServing : Pod → Type 0
IsServing pod =
    (status : PodStatus) × (c : Condition) × (pod.status ≡ some status)
    × (status.phase ≡ some (codes "Running"))
    × Memᴰ c (unwrap_or status.conditions [])
    × IsReadyCondition c

-- Where a target port leads in a pod: to the service's port if there is none, to a number, or to a
-- port of one of its containers with the name
abbrev pub Leads : Option IntOrString → ℕ → Pod → ℕ → Type 0
Leads none port pod remote = remote ≡ port
Leads (some (int n)) port pod remote = n ≡ pos remote
Leads (some (string name)) port pod remote =
    (spec : PodSpec) × (c : ContainerPort) × (pod.spec ≡ some spec)
    × Memᴰ c (flat_map listed_ports spec.containers)
    × (c.name ≡ some name)
    × (c.container_port ≡ pos remote)

-- A port that the service lists under the number, and where it leads
abbrev pub Routes : Service → ℕ → Pod → ℕ → Type 0
Routes service port pod remote =
    (spec : ServiceSpec) × (ports : List ServicePort) × (p : ServicePort) × (service.spec
      ≡ some spec)
    × (spec.ports ≡ some ports)
    × Memᴰ p ports
    × (p.port ≡ pos port)
    × Leads p.target_port port pod remote

-- The service's own selector, which has a label
abbrev pub Selects : Service → Text → Type 0
Selects service selector =
    (spec : ServiceSpec) × (labels : Labels) × (service.spec ≡ some spec)
    × (spec.selector ≡ some labels)
    × (is_empty labels ≡ false)
    × (selector ≡ join_selector labels)

is_text-some : (o : Option Text) (t : Text) → is_text o t ≡ true → o ≡ some t
is_text-some none t h = cc
is_text-some (some s) t h = ap some ((text_eq_iff s t).0 h)

int_eq-pos : (n : ℤ) (m : ℕ) → int_eq n (pos m) ≡ true → n ≡ pos m
unfolding int_eq
int_eq-pos (pos a) m h = let same : a ≡ m = ground arith in ap pos same
int_eq-pos (negsuc a) m h = cc

u16_try_from-pos : (n : ℤ) (r : ℕ) → u16_try_from n ≡ some r → n ≡ pos r
unfolding u16_try_from
u16_try_from-pos (pos n) r h = let same : n ≡ r = ground arith in ap pos same
u16_try_from-pos (negsuc n) r h = cc

resolve_port-Leads :
    (t : Option IntOrString) (port : ℕ) (pod : Pod) (r : ℕ)
    → resolve_port t port pod ≡ some r
    → Leads t port pod r
unfolding resolve_port
resolve_port-Leads none port pod r h = ground arith
resolve_port-Leads (some (int n)) port pod r h = u16_try_from-pos n r h
resolve_port-Leads (some (string name)) port pod r h =
    let (spec, found, h1) = and_then-eq-some pod.spec _ h in
    let (listed, there, h2) =
      and_then-eq-some
        (find (λ (p : ContainerPort). is_text p.name name) (flat_map listed_ports spec.containers))
        (λ c. u16_try_from c.container_port) h1 in
    let (named, among) = find-some (λ (p : ContainerPort). is_text p.name name) _ there in
    (
      spec,
      listed,
      found,
      among,
      is_text-some listed.name name named,
      u16_try_from-pos listed.container_port r h2,
    )

target_port-Routes :
    (service : Service) (port : ℕ) (pod : Pod) (r : ℕ)
    → target_port service port pod ≡ some r
    → Routes service port pod r
unfolding target_port
target_port-Routes service port pod r h =
    let (spec, found, h1) = and_then-eq-some service.spec _ h in
    let (ports, listed, h2) = and_then-eq-some spec.ports _ h1 in
    let (s, there, h3) =
      and_then-eq-some (find (λ (p : ServicePort). int_eq p.port (pos port)) ports)
        (λ c. resolve_port c.target_port port pod) h2 in
    let (numbered, among) = find-some (λ (p : ServicePort). int_eq p.port (pos port)) ports there in
    (
      spec,
      ports,
      s,
      found,
      listed,
      among,
      int_eq-pos s.port port numbered,
      resolve_port-Leads s.target_port port pod r h3,
    )

selector_string-Selects :
    (service : Service) (selector : Text)
    → selector_string service ≡ some selector
    → Selects service selector
unfolding selector_string
selector_string-Selects service selector h =
    let (spec, found, h1) = and_then-eq-some service.spec _ h in
    let (labels, chosen, h2) = and_then-eq-some spec.selector _ h1 in
    let (some_label, joined) = nonempty labels h2 in
    (spec, labels, found, chosen, some_label, joined)
  where
    nonempty :
        (labels : Labels)
        → (if is_empty labels then none else some (join_selector labels)) ≡ some selector
        → (is_empty labels ≡ false) × (selector ≡ join_selector labels)
    nonempty [] e = cc
    nonempty (l ∷ labels) e = (refl, cc e)

is_ready-IsServing : (pod : Pod) → is_ready pod ≡ true → IsServing pod
unfolding is_ready
is_ready-IsServing pod h = go pod.status refl h
  where
    go :
        (o : Option PodStatus)
        → pod.status ≡ o
        → elim o [
          | none ↦ false
          | some status ↦
              is_text status.phase (codes "Running")
              && any
                  (λ (c : Condition).
                    text_eq c.condition_type (codes "Ready") && text_eq c.status (codes "True"))
                  (unwrap_or status.conditions [])
        ]
          ≡ true
        → IsServing pod
    go none e k = cc k
    go (some status) e k =
        let runs : is_text status.phase (codes "Running") ≡ true = ground arith in
        let some_ready : any
              (λ (c : Condition).
                text_eq c.condition_type (codes "Ready") && text_eq c.status (codes "True"))
              (unwrap_or status.conditions [])
            ≡ true =
          ground arith in
        let (c, ready, listed) = any-some _ (unwrap_or status.conditions []) some_ready in
        (
          status,
          c,
          e,
          is_text-some status.phase (codes "Running") runs,
          listed,
          (
            (text_eq_iff c.condition_type (codes "Ready")).0 (ground arith),
            (text_eq_iff c.status (codes "True")).0 (ground arith),
          ),
        )

opened :
    (local : ℕ) (name : Text) (t : ServiceTunnel)
    → Path
        (Result TunnelError ServiceTunnel)
        (ok (record { local_port = local; pod = name }))
        (ok t)
    → (t.pod ≡ name) × (t.local_port ≡ local)
opened local name t h = (cc h, cc h)

forwarded :
    (f : Text → Result Text ℕ) {n m : Text} {a b : ℕ} → m ≡ n → b ≡ a → f n ≡ ok a → f m ≡ ok b
forwarded f e k h = ap f e ∙ h ∙ ap ok (sym k)

-- An opened tunnel leads to a pod that is listed for the selector labels of the service itself, of
-- which there is one, and which runs and has a Ready condition that is True. It leads to where a
-- port listed by the service under the number asked for points in that pod: to the same number if
-- it has no target, to the target number, or to a container's port of the target name. The
-- forwarder was asked for that pod and port and gave the local port.
pub open_service_tunnel-ok :
    (cluster : Cluster) (namespace service : Text) (port : ℕ) (t : ServiceTunnel)
    → open_service_tunnel cluster namespace service port ≡ ok t
    → (svc : Service) × (selector : Text) × (pods : List Pod) × (pod : Pod) × (remote : ℕ)
      × (cluster.get_service namespace service ≡ ok svc)
      × Selects svc selector
      × (cluster.list_pods namespace selector ≡ ok pods)
      × Memᴰ pod pods
      × IsServing pod
      × (t.pod ≡ unwrap_or pod.metadata.name [])
      × Routes svc port pod remote
      × (cluster.forward_pod_port namespace t.pod remote ≡ ok t.local_port)
unfolding open_service_tunnel ready_pod
open_service_tunnel-ok cluster namespace service port t h =
    let (svc, h1, k1) = >>=-eq-ok _ _ h in
    let (selector, h2, k2) = >>=-eq-ok _ _ k1 in
    let (pods, h3, k3) = >>=-eq-ok _ _ k2 in
    let (pod, h4, k4) = >>=-eq-ok _ _ k3 in
    let (remote, h5, k5) = >>=-eq-ok _ _ k4 in
    let (local, h6, k6) = >>=-eq-ok _ _ k5 in
    let (ready, listed) = find-some is_ready pods (ok_or-eq-ok _ _ h4) in
    let (name, here) = opened local (unwrap_or pod.metadata.name []) t k6 in
    (
      svc,
      selector,
      pods,
      pod,
      remote,
      map_err-eq-ok _ _ h1,
      selector_string-Selects svc selector (ok_or-eq-ok _ _ h2),
      map_err-eq-ok _ _ h3,
      listed,
      is_ready-IsServing pod ready,
      name,
      target_port-Routes svc port pod remote (ok_or-eq-ok _ _ h5),
      forwarded (λ n. cluster.forward_pod_port namespace n remote) name here (map_err-eq-ok _ _ h6),
    )
