-- ===== src/Watcher/Services.antt =====
-- watcher.rs: the external addresses of a service, and the events of a watch.
use mathlib.Core.List.{append_assoc, append-nil}
use cubelite.Prelude.{
  ◌≡◌, sym, ap, ◌∙◌, Option, none, some, List, [], ◌∷◌, ◌++◌, filter_map, map_option-eq-some,
  unwrap_or, and_then, or_else,
}
use cubelite.Prelude.Texts.{Text}
use cubelite.K8s.{LoadBalancerIngress, Service}
use cubelite.Watcher.{ServiceInfo, default_service_spec, push_ingress, service_to_info}

-- An ingress point's address: its IP, or else its host name.
abbrev pub address : LoadBalancerIngress → Option Text
address ing = or_else ing.ip ing.hostname

push_ingress-append :
    (ips : List Text) (ings : List LoadBalancerIngress)
    → push_ingress ips ings ≡ ips ++ filter_map address ings
unfolding push_ingress
push_ingress-append ips [] = sym (append-nil ips)
push_ingress-append ips (ing ∷ rest) =
    from ing.ip ing.hostname (λ more. push_ingress-append more rest)
  where
    from :
        (ip host : Option Text)
        → ((more : List Text) → push_ingress more rest ≡ more ++ filter_map address rest)
        → elim ip [
          | some a ↦ push_ingress (ips ++ a ∷ []) rest
          | none ↦ elim host [
            | some a ↦ push_ingress (ips ++ a ∷ []) rest
            | none ↦ push_ingress ips rest
          ]
        ]
          ≡ ips ++ elim (or_else ip host) [
            | none ↦ filter_map address rest
            | some a ↦ a ∷ filter_map address rest
          ]
    from (some a) host h = h (ips ++ a ∷ []) ∙ append_assoc ips (a ∷ []) (filter_map address rest)
    from none (some a) h = h (ips ++ a ∷ []) ∙ append_assoc ips (a ∷ []) (filter_map address rest)
    from none none h = h ips

-- The external addresses of a service are those of its spec, then the address of each ingress point
-- of its load balancer that has one, its IP or else its host name, in order.
pub service_to_info-external_ips :
    (s : Service) (info : ServiceInfo)
    → service_to_info s ≡ some info
    → info.external_ips
      ≡ unwrap_or (unwrap_or s.spec default_service_spec).external_ips []
        ++ filter_map address (unwrap_or (and_then s.load_balancer (λ ingress. ingress)) [])
unfolding service_to_info
service_to_info-external_ips s info e =
    let (name, named, same) = map_option-eq-some _ s.metadata.name e in
    sym (ap (λ (i : ServiceInfo). i.external_ips) same)
    ∙ push_ingress-append (unwrap_or (unwrap_or s.spec default_service_spec).external_ips [])
        (unwrap_or (and_then s.load_balancer (λ ingress. ingress)) [])
