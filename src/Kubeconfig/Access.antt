-- ===== src/Kubeconfig/Access.antt =====
-- kubeconfig.rs: the accessors of `KubeConfig`, the switch of the context, and `save`.
use cubelite.Prelude.{
  Bool, true, false, not, Option, none, some, List, [], ◌∷◌, ◌++◌, map, and_then, map_option,
  if◌then◌else◌, any, count, find, is_empty, or_else, unwrap_or, first, ◌==◌, filter,
}
use cubelite.Prelude.Maps.{get}
use cubelite.Prelude.Results.{Result, ok, err, ◌>>=◌, map_err, ok_or}
use cubelite.Prelude.Texts.{Text, codes, text_eq, trim}
use cubelite.Paths.{FilePath, path_eq, split}
use cubelite.Kubeconfig.Types.{
  NamedContext, NamedCluster, KubeconfigError, ContextInfo, KubeconfigSource,
}
use cubelite.Kubeconfig.Yaml.{Value, Fields, is_key}
use cubelite.Kubeconfig.Merge.{KubeConfig, Redefined, Serde, FileSystem, has_name}

abbrev pub no_names : Redefined
no_names = record { clusters = []; users = [] }

unfoldable pub source_of : KubeConfig → FilePath → KubeconfigSource
source_of cfg path =
    let redefined : Redefined = unwrap_or (get path_eq cfg.redefined path) no_names in
    record {
      path = path;
      exists = any (λ p. path_eq p path) cfg.paths;
      contexts = count (λ e. path_eq e.1 path) cfg.context_sources;
      shadowed = unwrap_or (get path_eq cfg.shadowed path) [];
      redefined_clusters = redefined.clusters;
      redefined_users = redefined.users;
    }

unfoldable pub sources : KubeConfig → List KubeconfigSource
unfolding source_of
sources cfg = map (source_of cfg) cfg.requested

-- `env::join_paths` on Unix: an error if a path holds the separator.
unfoldable pub join_paths : List FilePath → Text
join_paths [] = []
join_paths (p ∷ []) = p
join_paths (p ∷ (q ∷ ps)) = p ++ 58 ∷ join_paths (q ∷ ps)

unfoldable pub has_separator : FilePath → Bool
has_separator p = any (λ c. c == 58) p

unfoldable pub resolved_spec : KubeConfig → Text
unfolding join_paths has_separator
resolved_spec cfg =
    if any has_separator cfg.paths then unwrap_or (first cfg.paths) [] else join_paths cfg.paths

-- `env::split_paths` on Unix is the split at `:`.
unfoldable pub split_kubeconfig_spec : Text → List FilePath
unfolding split
split_kubeconfig_spec spec =
    let trimmed : Text = trim spec in
    if is_empty trimmed then [] else filter (λ p. not (is_empty p)) (split 58 trimmed)

unfoldable pub context_names : KubeConfig → List Text
context_names cfg = map (λ c. c.name) cfg.raw.contexts

unfoldable pub current_context : KubeConfig → Option Text
current_context cfg = cfg.raw.current_context

unfoldable pub find_cluster : List NamedCluster → Text → Option NamedCluster
find_cluster clusters name = find (λ c. text_eq c.name name) clusters

abbrev pub cluster_name : NamedContext → Text
cluster_name named = unwrap_or (map_option (λ d. d.cluster) named.context) []

unfoldable pub resolve_context_info : KubeConfig → NamedContext → ContextInfo
unfolding find_cluster
resolve_context_info cfg named =
    let source : Option FilePath = get text_eq cfg.context_sources named.name in
    let own_file : Option (List NamedCluster) =
      and_then source (λ path. get path_eq cfg.file_clusters path) in
    let entry : Option NamedCluster =
      or_else (and_then own_file (λ clusters. find_cluster clusters (cluster_name named)))
        (find_cluster cfg.raw.clusters (cluster_name named)) in
    record {
      name = named.name;
      cluster_server = map_option (λ cl. cl.server) (and_then entry (λ c. c.cluster));
      namespace = unwrap_or (and_then named.context (λ d. d.namespace)) (codes "default");
      is_active = elim cfg.raw.current_context [ none ↦ false | some c ↦ text_eq c named.name ];
      source = source;
    }

unfoldable pub list_contexts : KubeConfig → List ContextInfo
unfolding resolve_context_info
list_contexts cfg = map (resolve_context_info cfg) cfg.raw.contexts

unfoldable pub get_context : KubeConfig → Text → Option ContextInfo
unfolding resolve_context_info
get_context cfg name =
    map_option (resolve_context_info cfg) (find (λ c. text_eq c.name name) cfg.raw.contexts)

-- A method that may fail returns the state beside its result.
unfoldable pub set_active_context :
    KubeConfig → Text → Result KubeconfigError (Unit {0}) × KubeConfig
set_active_context cfg name =
    if has_name (λ c. c.name) cfg.raw.contexts name
    then (ok tt, record cfg { raw = record (cfg.raw) { current_context = some name } })
    else (
      err (
          KubeconfigError.merge_error
            (codes "context '" ++ name ++ codes "' not found in kubeconfig")),
      cfg,
    )

-- `mapping.insert`: the value of a key that is there is replaced
unfoldable pub insert_field : Text → Value → Fields → Fields
insert_field key v Fields.end = Fields.field (Value.string key) v Fields.end
insert_field key v (Fields.field k w rest) =
    if is_key key k then Fields.field k v rest else Fields.field k w (insert_field key v rest)

-- `as_mapping_mut`, which looks through tags, and a change of the mapping in place
unfoldable pub update_mapping : (Fields → Fields) → Value → Option Value
update_mapping change (Value.mapping fields) = some (Value.mapping (change fields))
update_mapping change (Value.tagged tag v) = map_option (Value.tagged tag) (update_mapping change v)
update_mapping change _ = none

-- What a save changes
abbrev pub set_current : Option Text → Fields → Fields
set_current current = insert_field (codes "current-context") (Value.string (unwrap_or current []))

unfoldable pub write_file : FileSystem → FilePath → Text → FileSystem
write_file fs path content = record {
  exists = λ p. if path_eq path p then true else fs.exists p;
  read_to_string = λ p. if path_eq path p then ok content else fs.read_to_string p;
}

-- The write may fail: `writable` says whether `std::fs::write` succeeds at a path.
module _ (serde : Serde) (writable : FilePath → Result Text (Unit {0})) where
  unfoldable pub save : FileSystem → KubeConfig → Result KubeconfigError FileSystem
  unfolding insert_field update_mapping write_file
  save fs cfg = do
    primary ←
        ok_or (KubeconfigError.file_not_found (codes "(no kubeconfig paths known — cannot save)"))
          (first cfg.paths)
    content ← map_err KubeconfigError.io (fs.read_to_string primary)
    doc ← map_err KubeconfigError.parse_error (serde.parse_value content)
    changed ←
        ok_or (KubeconfigError.merge_error (codes "kubeconfig root is not a mapping: " ++ primary))
          (update_mapping (set_current cfg.raw.current_context) doc)
    yaml ← map_err KubeconfigError.parse_error (serde.write_value changed)
    done ← map_err KubeconfigError.io (writable primary)
    ok (write_file fs primary yaml)
