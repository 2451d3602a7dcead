-- ===== src/Integration/Detection.antt =====
-- integration.rs: detection as a whole, from the API server's answers to what one click may save.
use mathlib.Core.List.{Memᴰ}
use mathlib.Core.Path.{subst}
use cubelite.Prelude.{
  ℕ, ◌≡◌, refl, sym, ap, true, false, Option, none, some, List, [], ◌∷◌, ◌++◌, any, unwrap_or,
  arith, Bool-cases, inl, inr, any-append,
}
use cubelite.Prelude.Results.{Result, ok, err}
use cubelite.Prelude.Texts.{Text, text_eq, text_eq_iff, is_text}
use cubelite.K8s.{Service, OwnerReference}
use cubelite.Integration.Target.{is_dns_label, is_resource_name}
use cubelite.Integration.Classify.{DetectedService}
use cubelite.Integration.Detect.{
  Operator, eck, prometheus_operator, Verified, VerifiedKey, key_eq, key_of, Integration, elastic,
  prometheus, claims, enumerate, owner_claim,
}
use cubelite.Integration.DetectAll.{
  KubeError, Server, owner_exists, verified_key, verify, Detected, pick_services, detect_all,
}
use cubelite.Integration.Picks.{pick-one_click, claims_bounds}

key_eq_iff : (a b : VerifiedKey) → key_eq a b ≡ true → a ≡ b
unfolding key_eq
key_eq_iff a b h =
    let k : text_eq a.owner_kind b.owner_kind ≡ true = ground arith in
    let n : text_eq a.namespace b.namespace ≡ true = ground arith in
    let m : text_eq a.name b.name ≡ true = ground arith in
    λ i. record {
      owner_kind = (text_eq_iff a.owner_kind b.owner_kind).0 k i;
      namespace = (text_eq_iff a.namespace b.namespace).0 n i;
      name = (text_eq_iff a.name b.name).0 m i;
    }

-- The owner that a service claims is there.
pub record Owned (server : Server) (operator : Operator) (services : List Service)
    (main : DetectedService) : Type 0 where
  pub index : ℕ
  pub service : Service
  pub owner : OwnerReference
  pub listed : Memᴰ (index, service) (enumerate 0 services)
  pub namespace_of : main.namespace ≡ unwrap_or service.metadata.namespace []
  pub name_of : main.name ≡ unwrap_or service.metadata.name []
  pub claimed : owner_claim service operator ≡ some owner
  pub is_label : is_dns_label main.namespace ≡ true
  pub is_resource : is_resource_name owner.name ≡ true
  pub found : server.get_uid operator main.namespace owner.name ≡ ok (some (some owner.uid))

module _ (server : Server) (operator : Operator) where
  -- Each verified service is one of the claims, and its claimed owner exists.
  verify-Mem :
      (asked : List (Service × OwnerReference)) (key : VerifiedKey)
      → any (key_eq key) (verify server operator asked) ≡ true
      → (s : Service) × (o : OwnerReference) × Memᴰ (s, o) asked
        × (key ≡ verified_key operator s)
        × (owner_exists server operator (unwrap_or s.metadata.namespace []) o ≡ true)
  unfolding verify
  verify-Mem [] key h = cc
  verify-Mem ((s, o) ∷ asked) key h =
      let later : any (key_eq key) (verify server operator asked) ≡ true
          → (t : Service) × (p : OwnerReference) × Memᴰ (t, p) ((s, o) ∷ asked)
            × (key ≡ verified_key operator t)
            × (owner_exists server operator (unwrap_or t.metadata.namespace []) p ≡ true) =
        λ k. let (t, p, m, e, x) = verify-Mem asked key k in (t, p, Memᴰ.tail m, e, x) in
      elim (Bool-cases (owner_exists server operator (unwrap_or s.metadata.namespace []) o)) [
        | inl e ↦ elim (Bool-cases (key_eq key (verified_key operator s))) [
          | inl same ↦ (s, o, Memᴰ.head refl, key_eq_iff key _ same, e)
          | inr other ↦ later (ground arith)
        ]
        | inr e ↦ later (ground arith)
      ]

  owner_exists-true :
      (namespace : Text) (o : OwnerReference)
      → owner_exists server operator namespace o ≡ true
      → (is_dns_label namespace ≡ true)
        × (is_resource_name o.name ≡ true)
        × (server.get_uid operator namespace o.name ≡ ok (some (some o.uid)))
  unfolding owner_exists
  owner_exists-true namespace o h = (
    ground arith,
    ground arith,
    answered (server.get_uid operator namespace o.name) (ground arith),
  )
    where
      answered :
          (r : Result KubeError (Option (Option Text)))
          → elim r [ err e ↦ false | ok none ↦ false | ok (some uid) ↦ is_text uid o.uid ] ≡ true
          → r ≡ ok (some (some o.uid))
      answered (err e) k = cc
      answered (ok none) k = cc
      answered (ok (some none)) k = cc
      answered (ok (some (some uid))) k = ap (λ u. ok (some (some u))) ((text_eq_iff uid o.uid).0 k)

-- A service verified for the rules' own operator has an owner that is there.
owned :
    (server : Server) (rules : Integration) (services : List Service) (main : DetectedService)
    → any (key_eq (key_of rules main)) (verify server rules.operator (claims rules services)) ≡ true
    → Owned server rules.operator services main
owned server rules services main h =
    let (s, o, m, e, x) =
      verify-Mem server rules.operator (claims rules services) (key_of rules main) h in
    let (i, d, there, classified, is_main, claimed) = (claims_bounds rules services s o m).1 in
    let here : main.namespace ≡ unwrap_or s.metadata.namespace [] =
      ap (λ (k : VerifiedKey). k.namespace) e in
    let (label, resource, uid) =
      owner_exists-true server rules.operator main.namespace o
        (subst (λ n. owner_exists server rules.operator n o ≡ true) (sym here) x) in
    record {
      index = i;
      service = s;
      owner = o;
      listed = there;
      namespace_of = here;
      name_of = ap (λ (k : VerifiedKey). k.name) e;
      claimed = claimed;
      is_label = label;
      is_resource = resource;
      found = uid;
    }

-- A service verified for one integration never counts for the other.
other_kind :
    (server : Server) (operator : Operator) (asked : List (Service × OwnerReference))
    (key : VerifiedKey)
    → text_eq key.owner_kind operator.kind ≡ false
    → any (key_eq key) (verify server operator asked) ≡ false
other_kind server operator asked key h =
    elim (Bool-cases (any (key_eq key) (verify server operator asked))) [
      | inl e ↦
          let (s, o, m, same, x) = verify-Mem server operator asked key e in
          ground (
            arith,
            ap (λ (k : VerifiedKey). k.owner_kind) same,
            (text_eq_iff key.owner_kind operator.kind).1,
          )
      | inr e ↦ e
    ]

abbrev verified_by : Server → List Service → Verified
verified_by server services =
    verify server eck (claims elastic services)
    ++ verify server prometheus_operator (claims prometheus services)

detect_all-picked :
    (server : Server) (services : List Service)
    → server.list_services ≡ ok services
    → detect_all server ≡ ok (pick_services services (verified_by server services))
unfolding detect_all
detect_all-picked server services h = rw h refl

left_any :
    (es prom : Verified) (key : VerifiedKey)
    → any (key_eq key) (es ++ prom) ≡ true
    → any (key_eq key) prom ≡ false
    → any (key_eq key) es ≡ true
left_any es prom key k n = ground (arith, any-append (key_eq key) es prom)

right_any :
    (es prom : Verified) (key : VerifiedKey)
    → any (key_eq key) (es ++ prom) ≡ true
    → any (key_eq key) es ≡ false
    → any (key_eq key) prom ≡ true
right_any es prom key k n = ground (arith, any-append (key_eq key) es prom)

picked :
    (server : Server) (services : List Service) (d : Detected)
    → server.list_services ≡ ok services
    → detect_all server ≡ ok d
    → pick_services services (verified_by server services) ≡ d
picked server services d listed h = cc (h, detect_all-picked server services listed)

picked-elasticsearch :
    (server : Server) (services : List Service)
    → (pick_services services (verified_by server services)).elasticsearch_one_click ≡ true
    → (main : DetectedService) × ((pick_services services
          (verified_by server services)).elasticsearch
        ≡ some main)
      × Owned server eck services main
unfolding pick_services
picked-elasticsearch server services one =
    let es : Verified = verify server eck (claims elastic services) in
    let prom : Verified = verify server prometheus_operator (claims prometheus services) in
    let (best, owner, main, there, classified, checked, o, c, x) =
      pick-one_click elastic services (es ++ prom) one in
    (
      best.found,
      main,
      owned server elastic services best.found (
          left_any es prom (key_of elastic best.found) checked (
            other_kind server prometheus_operator (claims prometheus services)
              (key_of elastic best.found) (unfold text_eq in refl))),
    )

picked-prometheus :
    (server : Server) (services : List Service)
    → (pick_services services (verified_by server services)).prometheus_one_click ≡ true
    → (main : DetectedService) × ((pick_services services (verified_by server services)).prometheus
        ≡ some main)
      × Owned server prometheus_operator services main
unfolding pick_services
picked-prometheus server services one =
    let es : Verified = verify server eck (claims elastic services) in
    let prom : Verified = verify server prometheus_operator (claims prometheus services) in
    let (best, owner, main, there, classified, checked, o, c, x) =
      pick-one_click prometheus services (es ++ prom) one in
    (
      best.found,
      main,
      owned server prometheus services best.found (
          right_any es prom (key_of prometheus best.found) checked (
            other_kind server eck (claims elastic services) (key_of prometheus best.found)
              (unfold text_eq in refl))),
    )

-- If detection over a service list offers one-click Enable for Elasticsearch, an Elasticsearch was
-- picked, and a listed service of its namespace and name claims an owner which the API server
-- returned with the claimed uid, asked for by a checked namespace and name.
pub detect_all-elasticsearch :
    (server : Server) (services : List Service) (d : Detected)
    → server.list_services ≡ ok services
    → detect_all server ≡ ok d
    → d.elasticsearch_one_click ≡ true
    → (main : DetectedService) × (d.elasticsearch ≡ some main) × Owned server eck services main
detect_all-elasticsearch server services d listed h =
    subst
      (λ (d : Detected).
        d.elasticsearch_one_click ≡ true
        → (main : DetectedService) × (d.elasticsearch ≡ some main) × Owned server eck services main)
      (picked server services d listed h) (picked-elasticsearch server services)

-- If detection over a service list offers one-click Enable for Prometheus, a Prometheus was picked,
-- and a listed service of its namespace and name claims an owner which the API server returned with
-- the claimed uid, asked for by a checked namespace and name.
pub detect_all-prometheus :
    (server : Server) (services : List Service) (d : Detected)
    → server.list_services ≡ ok services
    → detect_all server ≡ ok d
    → d.prometheus_one_click ≡ true
    → (main : DetectedService) × (d.prometheus ≡ some main)
      × Owned server prometheus_operator services main
detect_all-prometheus server services d listed h =
    subst
      (λ (d : Detected).
        d.prometheus_one_click ≡ true
        → (main : DetectedService) × (d.prometheus ≡ some main)
          × Owned server prometheus_operator services main)
      (picked server services d listed h) (picked-prometheus server services)
