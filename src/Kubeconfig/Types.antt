-- ===== src/Kubeconfig/Types.antt =====
-- types.rs: the kubeconfig document, and what the public operations return. error.rs: the errors.
use cubelite.Prelude.{ℕ, Bool, Option, none, List, []}
use cubelite.Prelude.Texts.{Text}

pub record ContextDetails : Type 0 where
  pub cluster : Text
  pub user : Text
  pub namespace : Option Text

pub record ClusterDetails : Type 0 where
  pub server : Text
  pub certificate_authority_data : Option Text
  pub certificate_authority : Option Text
  pub insecure_skip_tls_verify : Bool

pub record UserDetails : Type 0 where
  pub token : Option Text
  pub client_certificate_data : Option Text
  pub client_certificate : Option Text
  pub client_key_data : Option Text
  pub client_key : Option Text
  pub username : Option Text

pub record NamedContext : Type 0 where
  pub name : Text
  pub context : Option ContextDetails

pub record NamedCluster : Type 0 where
  pub name : Text
  pub cluster : Option ClusterDetails

pub record NamedUser : Type 0 where
  pub name : Text
  pub user : Option UserDetails

pub record KubeConfigFile : Type 0 where
  pub contexts : List NamedContext
  pub clusters : List NamedCluster
  pub users : List NamedUser
  pub current_context : Option Text

-- `KubeConfigFile::default()`
abbrev pub empty_file : KubeConfigFile
empty_file = record { contexts = []; clusters = []; users = []; current_context = none }

pub record ContextInfo : Type 0 where
  pub name : Text
  pub cluster_server : Option Text
  pub namespace : Text
  pub is_active : Bool
  pub source : Option Text

pub record KubeconfigSource : Type 0 where
  pub path : Text
  pub exists : Bool
  pub contexts : ℕ
  pub shadowed : List Text
  pub redefined_clusters : List Text
  pub redefined_users : List Text

pub data KubeconfigError : Type 0 where
  file_not_found parse_error merge_error client_error io watch_error : Text → KubeconfigError

pub data ContextError : Type 0 where
  not_found : Text → ContextError
  kubeconfig : KubeconfigError → ContextError
