-- ===== src/Integration/Detect.antt =====
-- integration.rs: the services the integrations would use, ranked, verified and picked. The API
-- server's answers are a record of functions.
use Prim.Native.Nat.{Ordering}
use cubelite.Prelude.{
  ℕ, suc, Bool, false, ◌&&◌, ◌||◌, not, Option, none, some, List, [], ◌∷◌, any, all, find, first,
  filter, filter_map, take, map, unwrap_or, and_then, map_option, filter_option, ◌==◌,
}
use cubelite.Prelude.Maps.{get}
use cubelite.Prelude.Order.{then_with, bool_cmp, text_cmp}
use cubelite.Prelude.Sort.{sort_by}
use cubelite.Prelude.Texts.{Text, codes, text_eq, is_text, ends_with}
use cubelite.Paths.{split}
use cubelite.K8s.{Service, OwnerReference}
use cubelite.Integration.Classify.{DetectedService}
use cubelite.Integration.Classify.Elastic
use cubelite.Integration.Classify.Prometheus

abbrev pub well_known_namespaces : List Text
well_known_namespaces =
    codes "logging" ∷ codes "elastic-system" ∷ codes "monitoring" ∷ codes "observability" ∷ []

pub record Operator : Type 0 where
  pub kind : Text
  pub group : Text
  pub version : Text
  pub plural : Text
  pub instance_labels : List Text

abbrev pub eck : Operator
eck = record {
  kind = codes "Elasticsearch";
  group = codes "elasticsearch.k8s.elastic.co";
  version = codes "v1";
  plural = codes "elasticsearches";
  instance_labels = codes "elasticsearch.k8s.elastic.co/cluster-name" ∷ [];
}

abbrev pub prometheus_operator : Operator
prometheus_operator = record {
  kind = codes "Prometheus";
  group = codes "monitoring.coreos.com";
  version = codes "v1";
  plural = codes "prometheuses";
  instance_labels = codes "operator.prometheus.io/name" ∷ codes "prometheus" ∷ [];
}

unfoldable pub selects_instance : Operator → Service → Text → Bool
unfolding text_eq get
selects_instance operator service owner =
    let selector = and_then service.spec (λ spec. spec.selector) in
    any (λ label. is_text (and_then selector (λ s. get text_eq s label)) owner)
      operator.instance_labels

unfoldable pub owner_claim : Service → Operator → Option OwnerReference
unfolding text_eq
owner_claim service operator =
    find
      (λ (o : OwnerReference).
        text_eq o.kind operator.kind && is_text (first (split b'/' o.api_version)) operator.group)
      (unwrap_or service.metadata.owner_references [])

-- One integration's detection rules
pub record Integration : Type 0 where
  pub main : Text
  pub operator : Operator
  pub classify : Service → Option DetectedService
  pub conventional : DetectedService → Bool

abbrev pub elastic : Integration
elastic = record {
  main = codes "elasticsearch";
  operator = eck;
  classify = Elastic.classify;
  conventional = λ d. ends_with d.name (codes "-es-http") || ends_with d.name (codes "-kb-http");
}

abbrev pub prometheus : Integration
prometheus = record {
  main = codes "prometheus";
  operator = prometheus_operator;
  classify = Prometheus.classify;
  conventional = λ d. text_eq d.name (codes "prometheus-operated");
}

-- A verified service: the owner's kind, the namespace and the name. The `HashSet` is a list, read
-- only by `contains`.
pub record VerifiedKey : Type 0 where
  pub owner_kind : Text
  pub namespace : Text
  pub name : Text

abbrev pub Verified : Type 0
Verified = List VerifiedKey

unfoldable pub key_eq : VerifiedKey → VerifiedKey → Bool
unfolding text_eq
key_eq a b =
    text_eq a.owner_kind b.owner_kind && text_eq a.namespace b.namespace && text_eq a.name b.name

-- Of a candidate, the index of its service in the list stands for the reference to it.
pub record Candidate : Type 0 where
  pub found : DetectedService
  pub index : ℕ
  pub service : Service
  pub trusted : Bool

abbrev pub enumerate {ℓ} : {A : Type ℓ} → ℕ → List A → List (ℕ × A)
enumerate n [] = []
enumerate n (x ∷ xs) = (n, x) ∷ enumerate (suc n) xs

module _ (rules : Integration) where
  abbrev pub is_main : DetectedService → Bool
  is_main d = text_eq d.kind rules.main

  abbrev pub key_of : DetectedService → VerifiedKey
  key_of d = record { owner_kind = rules.operator.kind; namespace = d.namespace; name = d.name }

  unfoldable pub candidate : Verified → ℕ × Service → Option Candidate
  unfolding key_eq
  candidate verified (index, service) =
      map_option
        (λ d. record {
          found = d;
          index = index;
          service = service;
          trusted = is_main d && any (key_eq (key_of d)) verified;
        })
        (rules.classify service)

  abbrev rank : (Candidate → Bool) → Candidate → Candidate → Ordering
  rank p a b = bool_cmp (p a) (p b)

  -- Main kind, verified owner, well-known namespace, conventional name, namespace, name
  unfoldable pub candidate_cmp : Candidate → Candidate → Ordering
  unfolding bool_cmp
  candidate_cmp a b = then_with (rank (λ c. not (is_main c.found)) a b) (
      then_with (rank (λ c. not c.trusted) a b) (
        then_with (rank (λ c. not (any (text_eq c.found.namespace) well_known_namespaces)) a b) (
          then_with (rank (λ c. not (rules.conventional c.found)) a b) (
            then_with (text_cmp a.found.namespace b.found.namespace)
              (text_cmp a.found.name b.found.name)))))

  unfoldable pub ranked : List Service → Verified → List Candidate
  unfolding candidate candidate_cmp
  ranked services verified =
      sort_by candidate_cmp (filter_map (candidate verified) (enumerate 0 services))

  abbrev pub max_verified : ℕ
  max_verified = 3

  abbrev pub claim_of : Candidate → Option (Service × OwnerReference)
  claim_of c = map_option (λ o. (c.service, o)) (owner_claim c.service rules.operator)

  unfoldable pub claims : List Service → List (Service × OwnerReference)
  unfolding ranked owner_claim
  claims services =
      take max_verified
        (filter_map claim_of (filter (λ (c : Candidate). is_main c.found) (ranked services [])))

  pub record Picked : Type 0 where
    pub main : Option DetectedService
    pub web_ui : Option DetectedService
    pub one_click : Bool
    pub services : List DetectedService

  -- The controller whose instance the service selects, if the service is trusted
  unfoldable pub trusted_owner : Candidate → Option OwnerReference
  unfolding selects_instance owner_claim
  trusted_owner c =
      filter_option (λ (o : OwnerReference). selects_instance rules.operator c.service o.name)
        (filter_option
          (λ (o : OwnerReference). c.trusted && elim o.controller [ none ↦ false | some c ↦ c ])
          (owner_claim c.service rules.operator))

  -- Every other main candidate is a service of the same instance in the namespace.
  unfoldable pub is_only_instance : List Candidate → Candidate → OwnerReference → Bool
  unfolding selects_instance
  is_only_instance found best owner =
      all
        (λ (c : Candidate).
          is_text c.service.metadata.namespace best.found.namespace
          && selects_instance rules.operator c.service owner.name)
        (filter (λ (c : Candidate). is_main c.found && not (c.index == best.index)) found)

  unfoldable pub is_one_click : List Candidate → Candidate → Bool
  unfolding trusted_owner is_only_instance
  is_one_click found best = elim (trusted_owner best) [
    | none ↦ false
    | some owner ↦ is_only_instance found best owner
  ]

  unfoldable pub web_ui_of : List Candidate → Candidate → Option DetectedService
  web_ui_of found best =
      map_option (λ (c : Candidate). c.found)
        (find
          (λ (c : Candidate).
            not (is_main c.found) && text_eq c.found.namespace best.found.namespace)
          found)

  unfoldable pub pick_from : List Candidate → Picked
  unfolding is_one_click web_ui_of
  pick_from found =
      let best = find (λ (c : Candidate). is_main c.found) found in
      record {
        main = map_option (λ (c : Candidate). c.found) best;
        web_ui = and_then best (web_ui_of found);
        one_click = elim best [ none ↦ false | some c ↦ is_one_click found c ];
        services = map (λ (c : Candidate). c.found) found;
      }

  unfoldable pub pick : List Service → Verified → Picked
  unfolding ranked pick_from
  pick services verified = pick_from (ranked services verified)
