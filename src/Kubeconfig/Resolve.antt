-- ===== src/Kubeconfig/Resolve.antt =====
-- kubeconfig.rs: which files are loaded (`resolve_kubeconfig_paths`, `discover_kubeconfig_files`,
-- `is_kubeconfig_file`), and the `load` functions over them.
use cubelite.Prelude.{
  ℕ, ◌*◌, Bool, true, false, ◌&&◌, not, Option, none, some, List, [], ◌∷◌, ◌++◌, map, and_then,
  if◌then◌else◌, is_empty, first, last, filter, filter_map, leb, ◌==◌,
}
use Prim.Native.Nat.{Ordering, compare}
use cubelite.Prelude.Order.{text_cmp, list_cmp, then_with}
use cubelite.Prelude.Sort.{sort_by}
use cubelite.Prelude.Results.{Result, ok, err, ◌>>=◌, ok_or, map_ok}
use cubelite.Prelude.Texts.{Text, codes, text_eq}
use cubelite.Paths.{FilePath, path_eq, split, join, is_absolute}
use cubelite.Kubeconfig.Types.{KubeConfigFile, KubeconfigError}
use cubelite.Kubeconfig.Merge.{KubeConfig, Serde, FileSystem, load_from_paths}
use cubelite.Kubeconfig.Access.{split_kubeconfig_spec, set_active_context, save, context_names}

-- What the process finds around it.
pub record System : Type 0 where
  pub serde : Serde
  pub fs : FileSystem
  pub writable : FilePath → Result Text (Unit {0})
  -- `env::var("KUBECONFIG")`, and `dirs::home_dir()`
  pub kubeconfig_var : Option Text
  pub home_dir : Option FilePath
  -- `read_dir`: the path of each entry, `none` where reading the entry fails
  pub read_dir : FilePath → Option (List (Option FilePath))
  -- `metadata`: whether it is a file, and its size
  pub metadata : FilePath → Option (Bool × ℕ)
  -- `serde_yaml::from_str::<KindProbe>`
  pub parse_kind : Text → Option (Option Text)

abbrev pub max_kubeconfig_file_size : ℕ
max_kubeconfig_file_size = 16 * 1024 * 1024

unfoldable pub fits : Option (Bool × ℕ) → Bool
fits none = false
fits (some (file, size)) = leb size max_kubeconfig_file_size

unfoldable pub is_regular : Option (Bool × ℕ) → Bool
is_regular none = false
is_regular (some (file, size)) = file

-- the `match probe.kind` at the end
unfoldable pub is_config : Option Text → KubeConfigFile → Bool
is_config (some kind) config = text_eq kind (codes "Config")
is_config none config =
    not (is_empty config.clusters && is_empty config.contexts && is_empty config.users)

unfoldable pub ok_text : Result Text Text → Option Text
ok_text (ok content) = some content
ok_text (err e) = none

unfoldable pub is_kubeconfig_content : System → Text → Bool
unfolding is_config
is_kubeconfig_content sys content = elim (sys.parse_kind content) [
  | none ↦ false
  | some kind ↦ elim (sys.serde.parse_config content) [
    | err e ↦ false
    | ok config ↦ is_config kind config
  ]
]

unfoldable pub is_kubeconfig_file : System → FilePath → Bool
unfolding fits ok_text is_kubeconfig_content
is_kubeconfig_file sys path =
    if fits (sys.metadata path)
    then (elim (ok_text (sys.fs.read_to_string path)) [
      | none ↦ false
      | some content ↦ is_kubeconfig_content sys content
    ])
    else false

-- `file_name`: the last component, unless it is `..`
unfoldable pub file_name : FilePath → Option Text
file_name p =
    and_then (last (filter (λ s. not (is_empty s) && not (text_eq s (codes "."))) (split 47 p)))
      (λ s. if text_eq s (codes "..") then none else some s)

unfoldable pub is_visible : FilePath → Bool
unfolding file_name
is_visible path = elim (file_name path) [
  | none ↦ false
  | some name ↦ elim (first name) [ none ↦ true | some c ↦ not (c == 46) ]
]

-- The order of paths is that of their components: root, `.`, `..`, then names.
component_key : Text → ℕ × Text
component_key s =
    if text_eq s (codes ".") then (1, []) else if text_eq s (codes "..") then (2, []) else (3, s)

root_key : Bool → List (ℕ × Text)
root_key true = (0, []) ∷ []
root_key false = []

abbrev pub component_cmp : ℕ × Text → ℕ × Text → Ordering
component_cmp (a, s) (b, t) = then_with (compare a b) (text_cmp s t)

later_segments : Bool → List Text → List Text
later_segments true (s ∷ segments) =
    filter (λ s. not (is_empty s) && not (text_eq s (codes "."))) segments
later_segments true [] = []
later_segments false [] = []
later_segments false (s ∷ segments) =
    let rest = filter (λ s. not (is_empty s) && not (text_eq s (codes "."))) segments in
    if is_empty s then rest else s ∷ rest

unfoldable pub path_keys : FilePath → List (ℕ × Text)
unfolding component_key root_key later_segments
path_keys p =
    root_key (is_absolute p) ++ map component_key (later_segments (is_absolute p) (split 47 p))

unfoldable pub path_cmp : FilePath → FilePath → Ordering
unfolding path_keys
path_cmp p q = list_cmp component_cmp (path_keys p) (path_keys q)

unfoldable pub is_discovered : System → FilePath → FilePath → Bool
unfolding is_visible is_regular is_kubeconfig_file
is_discovered sys excluding path =
    not (path_eq path excluding)
    && is_visible path
    && is_regular (sys.metadata path)
    && is_kubeconfig_file sys path

unfoldable pub discover_kubeconfig_files : System → FilePath → FilePath → List FilePath
unfolding path_cmp is_discovered
discover_kubeconfig_files sys dir excluding = elim (sys.read_dir dir) [
  | none ↦ []
  | some entries ↦
      sort_by path_cmp (filter (is_discovered sys excluding) (filter_map (λ e. e) entries))
]

unfoldable pub default_paths : System → Result KubeconfigError (List FilePath)
unfolding discover_kubeconfig_files
default_paths sys = do
  home ←
      ok_or (KubeconfigError.file_not_found (codes "~/.kube/config (home directory not found)"))
        sys.home_dir
  let kube_dir = join home (codes ".kube")
  let default = join kube_dir (codes "config")
  ok (default ∷ discover_kubeconfig_files sys kube_dir default)

abbrev pub paths_or :
    List FilePath → Result KubeconfigError (List FilePath) → Result KubeconfigError (List FilePath)
paths_or [] otherwise = otherwise
paths_or (p ∷ ps) otherwise = ok (p ∷ ps)

unfoldable pub resolve_kubeconfig_paths : System → Result KubeconfigError (List FilePath)
unfolding default_paths
resolve_kubeconfig_paths sys = elim sys.kubeconfig_var [
  | none ↦ default_paths sys
  | some val ↦ paths_or (split_kubeconfig_spec val) (default_paths sys)
]

unfoldable pub load : System → Result KubeconfigError KubeConfig
unfolding resolve_kubeconfig_paths
load sys = resolve_kubeconfig_paths sys >>= load_from_paths sys.serde sys.fs

unfoldable pub load_from_spec : System → Text → Result KubeconfigError KubeConfig
unfolding load
load_from_spec sys spec = elim (split_kubeconfig_spec spec) [
  | [] ↦ load sys
  | p ∷ ps ↦ load_from_paths sys.serde sys.fs (p ∷ ps)
]

-- The module-level `list_contexts` and `set_active_context`.
unfoldable pub list_context_names : System → Result KubeconfigError (List Text)
unfolding load
list_context_names sys = map_ok context_names (load sys)

unfoldable pub switch_context : System → Text → Result KubeconfigError FileSystem
unfolding load
switch_context sys name = do
  cfg ← load sys
  let (switched, cfg') = set_active_context cfg name
  done ← switched
  save sys.serde sys.writable sys.fs cfg'
