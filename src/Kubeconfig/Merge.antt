-- ===== src/Kubeconfig/Merge.antt =====
-- kubeconfig.rs: the state of `KubeConfig`, and `load_from_paths` with its merge loop.
-- The file system is a value, and `serde_yaml` a record of functions.
use cubelite.Prelude.{
  Bool, not, Option, none, some, List, [], ◌∷◌, ◌++◌, if◌then◌else◌, any, filter, is_empty, or_else,
  filter_option, unwrap_or,
}
use cubelite.Prelude.Maps.{get, insert}
use cubelite.Prelude.Results.{Result, ok, err, ◌>>=◌, map_err}
use cubelite.Prelude.Texts.{Text, codes, text_eq}
use cubelite.Paths.{FilePath, path_eq, parent}
use cubelite.Kubeconfig.Types.{
  NamedContext, NamedCluster, KubeConfigFile, empty_file, KubeconfigError,
}
use cubelite.Kubeconfig.Yaml.{Value, raw_named_entries, cluster_identity_keys}
use cubelite.Kubeconfig.Redefined.{SeenEntries, note_redefinitions}

-- What `serde_yaml` offers. An error is its text.
pub record Serde : Type 0 where
  pub parse_config : Text → Result Text KubeConfigFile
  pub parse_value : Text → Result Text Value
  pub value_eq : Value → Value → Bool
  pub write_value : Value → Result Text Text

-- `Path::exists` and `std::fs::read_to_string`, at one moment.
pub record FileSystem : Type 0 where
  pub exists : FilePath → Bool
  pub read_to_string : FilePath → Result Text Text

pub record Redefined : Type 0 where
  pub clusters : List Text
  pub users : List Text

pub record KubeConfig : Type 0 where
  pub raw : KubeConfigFile
  pub paths : List FilePath
  pub requested : List FilePath
  pub context_sources : List (Text × FilePath)
  pub shadowed : List (FilePath × List Text)
  pub file_clusters : List (FilePath × List NamedCluster)
  pub redefined : List (FilePath × Redefined)

-- The mutable locals of the loop.
pub record Merge : Type 0 where
  pub merged : KubeConfigFile
  pub first_current_context : Option Text
  pub context_sources : List (Text × FilePath)
  pub shadowed : List (FilePath × List Text)
  pub file_clusters : List (FilePath × List NamedCluster)
  pub redefined : List (FilePath × Redefined)
  pub seen_clusters : SeenEntries Value
  pub seen_users : SeenEntries Value

abbrev pub start : Merge
start = record {
  merged = empty_file;
  first_current_context = none;
  context_sources = [];
  shadowed = [];
  file_clusters = [];
  redefined = [];
  seen_clusters = [];
  seen_users = [];
}

-- An entry is kept unless an earlier one has its name: the loops over clusters and users.
abbrev pub has_name {ℓ} : {A : Type ℓ} → (A → Text) → List A → Text → Bool
has_name name entries n = any (λ e. text_eq (name e) n) entries

unfoldable pub merge_named {ℓ} : {A : Type ℓ} → (A → Text) → List A → List A → List A
merge_named name merged [] = merged
merge_named name merged (e ∷ entries) =
    merge_named name (if has_name name merged (name e) then merged else merged ++ e ∷ []) entries

-- The loop over contexts also records where a context comes from, or that it is hidden.
pub record Contexts : Type 0 where
  pub merged : List NamedContext
  pub sources : List (Text × FilePath)
  pub shadowed : List (FilePath × List Text)

unfoldable pub merge_context : FilePath → Contexts → NamedContext → Contexts
merge_context path c ctx =
    if has_name (λ x. x.name) c.merged ctx.name
    then record c {
      shadowed =
          insert path_eq c.shadowed path
            (unwrap_or (get path_eq c.shadowed path) [] ++ ctx.name ∷ []);
    }
    else record c {
      merged = c.merged ++ ctx ∷ [];
      sources = insert text_eq c.sources ctx.name path;
    }

unfoldable pub merge_contexts : FilePath → Contexts → List NamedContext → Contexts
unfolding merge_context
merge_contexts path c [] = c
merge_contexts path c (ctx ∷ contexts) = merge_contexts path (merge_context path c ctx) contexts

abbrev pub non_empty : Option Text → Option Text
non_empty current = filter_option (λ c. not (is_empty c)) current

-- The body of the loop, once the file is read and parsed.
unfoldable pub merge_file :
    (Value → Value → Bool) → FilePath → KubeConfigFile → Value → Merge → Merge
unfolding merge_contexts merge_named note_redefinitions raw_named_entries parent
merge_file value_eq path raw doc m =
    let dir : FilePath = unwrap_or (parent path) [] in
    let clusters =
      raw_named_entries doc (codes "clusters") (codes "cluster") (some cluster_identity_keys) dir in
    let users = raw_named_entries doc (codes "users") (codes "user") none dir in
    let (seen_clusters, redefined_clusters) =
      note_redefinitions value_eq m.seen_clusters path clusters in
    let (seen_users, redefined_users) = note_redefinitions value_eq m.seen_users path users in
    let c : Contexts =
      merge_contexts path
        (record { merged = m.merged.contexts; sources = m.context_sources; shadowed = m.shadowed })
        raw.contexts in
    record {
      merged = record {
        contexts = c.merged;
        clusters = merge_named (λ x. x.name) m.merged.clusters raw.clusters;
        users = merge_named (λ x. x.name) m.merged.users raw.users;
        current_context = m.merged.current_context;
      };
      first_current_context = or_else m.first_current_context (non_empty raw.current_context);
      context_sources = c.sources;
      shadowed = c.shadowed;
      file_clusters = insert path_eq m.file_clusters path raw.clusters;
      redefined =
          insert path_eq m.redefined path
            (record { clusters = redefined_clusters; users = redefined_users });
      seen_clusters = seen_clusters;
      seen_users = seen_users;
    }

module _ (serde : Serde) (fs : FileSystem) where
  unfoldable pub load_file : FilePath → Merge → Result KubeconfigError Merge
  load_file path m = do
    content ← map_err KubeconfigError.io (fs.read_to_string path)
    raw ← map_err KubeconfigError.parse_error (serde.parse_config content)
    doc ← map_err KubeconfigError.parse_error (serde.parse_value content)
    ok (merge_file serde.value_eq path raw doc m)

  unfoldable pub load_files : List FilePath → Merge → Result KubeconfigError Merge
  load_files [] m = ok m
  load_files (path ∷ paths) m = load_file path m >>= load_files paths

  -- `join(", ")` of the paths' texts
  unfoldable pub listed : List FilePath → Text
  listed [] = []
  listed (p ∷ []) = p
  listed (p ∷ (q ∷ ps)) = p ++ codes ", " ++ listed (q ∷ ps)

  unfoldable pub existing : List FilePath → List FilePath
  existing paths = filter fs.exists paths

  unfoldable pub finish_merge : List FilePath → List FilePath → Merge → KubeConfig
  finish_merge requested loaded m = record {
    raw = record {
      contexts = m.merged.contexts;
      clusters = m.merged.clusters;
      users = m.merged.users;
      current_context = m.first_current_context;
    };
    paths = loaded;
    requested = requested;
    context_sources = m.context_sources;
    shadowed = m.shadowed;
    file_clusters = m.file_clusters;
    redefined = m.redefined;
  }

  unfoldable pub load_from_paths : List FilePath → Result KubeconfigError KubeConfig
  unfolding existing finish_merge load_files listed
  load_from_paths paths =
      let found = existing paths in
      if is_empty found
      then err (
          KubeconfigError.file_not_found (
            if is_empty (listed paths)
            then codes "(no kubeconfig paths provided)"
            else listed paths))
      else (do m ← load_files found start; ok (finish_merge paths found m))
