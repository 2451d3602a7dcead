-- ===== src/Integration/Stacks.antt =====
-- integration.rs: the theorems on detection at a cluster with one ECK stack.
use mathlib.Core.List.{Memᴰ}
use cubelite.Prelude.{◌⊎◌, ℕ, ◌≤◌, ◌≡◌, refl, true, none, some, List, [], ◌∷◌, any, length, ◌==◌}
use cubelite.Prelude.Int.{pos, int_eq, u16_try_from}
use cubelite.Prelude.Results.{Result, ok, err}
use cubelite.Prelude.Maps.{get}
use cubelite.Prelude.Sort.{sort_by}
use cubelite.Prelude.Texts.{Text, codes, is_text, bytes}
use cubelite.Paths.{split}
use cubelite.K8s.{OwnerReference, Service}
use cubelite.Integration.Classify.{DetectedService}
use cubelite.Integration.Classify.Elastic.{classify}
use cubelite.Integration.Detect.{
  eck, elastic, Candidate, Verified, enumerate, key_eq, key_of, is_main, owner_claim,
  selects_instance, claims, pick,
}
use cubelite.Integration.DetectAll.{Server, Detected, detect_all, nothing_detected}
use cubelite.Integration.Ranking.{best_of, made, Precedes, pick-first}
use cubelite.Integration.Picks.{pick-only_instance, pick-one_click, claims_bounds}
use cubelite.Integration.Detection.{Owned, detect_all-elasticsearch}

abbrev cluster_label : Text
cluster_label = codes "elasticsearch.k8s.elastic.co/cluster-name"

abbrev owner : OwnerReference
owner = record {
  api_version = codes "elasticsearch.k8s.elastic.co/v1";
  kind = codes "Elasticsearch";
  name = codes "logs";
  uid = codes "u1";
  controller = some true;
}

abbrev stack_service : Text → Text → ℕ → List OwnerReference → Service
stack_service name kind port owners = record {
  metadata = record {
    name = some name;
    namespace = some (codes "logging");
    uid = none;
    labels = some ((codes "common.k8s.elastic.co/type", kind) ∷ []);
    owner_references = some owners;
    creation_timestamp = none;
  };
  spec = some (record {
    selector = some ((cluster_label, codes "logs") ∷ []);
    ports = some (
        record {
          name = some (codes "https");
          port = pos port;
          target_port = none;
          node_port = none;
          protocol = none;
        }
        ∷ []);
    service_type = none;
    cluster_ip = none;
    external_ips = none;
  });
  load_balancer = none;
}

-- Kibana is listed first.
abbrev services : List Service
services =
    stack_service (codes "logs-kb-http") (codes "kibana") 5601 []
    ∷ stack_service (codes "logs-es-http") (codes "elasticsearch") 9200 (owner ∷ [])
    ∷ []

abbrev verified : Verified
verified =
    record {
      owner_kind = codes "Elasticsearch";
      namespace = codes "logging";
      name = codes "logs-es-http";
    }
    ∷ []

abbrev search : DetectedService
search = record {
  kind = codes "elasticsearch";
  namespace = codes "logging";
  name = codes "logs-es-http";
  port = 9200;
  https = true;
}

abbrev server : Server
server = record {
  list_services = ok services;
  get_uid = λ operator namespace name. ok (some (some (codes "u1")));
}

abbrev detected : Result Text Detected → Detected
detected (ok d) = d
detected (err e) = nothing_detected

detect_all-elasticsearch_example :
    (main : DetectedService) × ((detected (detect_all server)).elasticsearch ≡ some main)
    × Owned server eck services main
unfolding detect_all sort_by classify int_eq u16_try_from split bytes
detect_all-elasticsearch_example =
    detect_all-elasticsearch server services (detected (detect_all server)) refl refl refl

pick-one_click_example :
    (best : Candidate) × (owner : OwnerReference) × ((pick elastic services verified).main
      ≡ some best.found)
    × Memᴰ (best.index, best.service) (enumerate 0 services)
    × (elastic.classify best.service ≡ some best.found)
    × (any (key_eq (key_of elastic best.found)) verified ≡ true)
    × (owner_claim best.service elastic.operator ≡ some owner)
    × (owner.controller ≡ some true)
    × (selects_instance elastic.operator best.service owner.name ≡ true)
unfolding pick sort_by classify int_eq u16_try_from split
pick-one_click_example = pick-one_click elastic services verified refl

-- Another service of the same Elasticsearch, without an owner reference
abbrev coordinator : Service
coordinator = stack_service (codes "logs-coord-es-http") (codes "elasticsearch") 9200 []

abbrev coordinator_found : DetectedService
coordinator_found = record {
  kind = codes "elasticsearch";
  namespace = codes "logging";
  name = codes "logs-coord-es-http";
  port = 9200;
  https = true;
}

pick-only_instance_example :
    (best : Candidate) × (owner : OwnerReference) × ((pick elastic
        (coordinator ∷ services)
        verified).main
      ≡ some best.found)
    × Memᴰ (best.index, best.service) (enumerate 0 (coordinator ∷ services))
    × (elastic.classify best.service ≡ some best.found)
    × (owner_claim best.service elastic.operator ≡ some owner)
    × (((0 == best.index) ≡ true)
        ⊎ ((is_text coordinator.metadata.namespace best.found.namespace ≡ true)
            × (selects_instance elastic.operator coordinator owner.name ≡ true)))
unfolding pick sort_by classify int_eq u16_try_from split
pick-only_instance_example =
    pick-only_instance elastic (coordinator ∷ services) verified 0 coordinator coordinator_found
      refl (Memᴰ.head refl) refl refl

pick-first_example :
    (best : Candidate) × (best_of elastic (coordinator ∷ services) verified ≡ some best)
    × (best.found ≡ search)
    × Precedes elastic best (made elastic verified 0 coordinator coordinator_found)
unfolding pick sort_by classify int_eq u16_try_from split
pick-first_example =
    pick-first elastic (coordinator ∷ services) verified search 0 coordinator coordinator_found refl
      (Memᴰ.head refl) refl refl

abbrev search_service : Service
search_service = stack_service (codes "logs-es-http") (codes "elasticsearch") 9200 (owner ∷ [])

claims_bounds_example :
    (length (claims elastic services) ≤ 3)
    × ((i : ℕ) × (d : DetectedService) × Memᴰ (i, search_service) (enumerate 0 services)
        × (elastic.classify search_service ≡ some d)
        × (is_main elastic d ≡ true)
        × (owner_claim search_service elastic.operator ≡ some owner))
unfolding claims sort_by classify int_eq u16_try_from split get
claims_bounds_example = claims_bounds elastic services search_service owner (Memᴰ.head refl)

abbrev prometheus_service : Service
prometheus_service = record {
  metadata = record {
    name = some (codes "prometheus-operated");
    namespace = some (codes "monitoring");
    uid = none;
    labels = none;
    owner_references = some (
        record {
          api_version = codes "monitoring.coreos.com/v1";
          kind = codes "Prometheus";
          name = codes "k8s";
          uid = codes "u1";
          controller = some true;
        }
        ∷ []);
    creation_timestamp = none;
  };
  spec = some (record {
    selector = some ((codes "operator.prometheus.io/name", codes "k8s") ∷ []);
    ports = some (
        record {
          name = some (codes "web");
          port = pos 9090;
          target_port = none;
          node_port = none;
          protocol = none;
        }
        ∷ []);
    service_type = none;
    cluster_ip = none;
    external_ips = none;
  });
  load_balancer = none;
}

abbrev metrics_server : Server
metrics_server = record {
  list_services = ok (prometheus_service ∷ services);
  get_uid = λ operator namespace name. ok (some (some (codes "u1")));
}
