-- ===== src/Context.antt =====
-- context.rs: listing and switching contexts, for the default files or an explicit list.
pub mod Persist
mod Examples
use cubelite.Prelude.{Bool, Option, none, some, List, is_some, if◌then◌else◌, is_empty}
use cubelite.Prelude.Results.{Result, ◌>>=◌, map_ok, map_err}
use cubelite.Prelude.Texts.{Text, trim}
use cubelite.Kubeconfig.Types.{ContextInfo, KubeconfigError, ContextError}
use cubelite.Kubeconfig.Merge.{KubeConfig, FileSystem}
use cubelite.Kubeconfig.Access.{
  context_names, current_context, get_context, set_active_context, save,
}
use cubelite.Kubeconfig.Access
use cubelite.Kubeconfig.Resolve.{System, load, load_from_spec}

unfoldable pub list_contexts : System → Result ContextError (List Text)
list_contexts sys = map_err ContextError.kubeconfig (map_ok context_names (load sys))

unfoldable pub context_exists : System → Text → Result ContextError Bool
context_exists sys name =
    map_err ContextError.kubeconfig (map_ok (λ cfg. is_some (get_context cfg name)) (load sys))

unfoldable pub load_spec : System → Option Text → Result KubeconfigError KubeConfig
load_spec sys none = load sys
load_spec sys (some spec) =
    let trimmed : Text = trim spec in
    if is_empty trimmed then load sys else load_from_spec sys trimmed

unfoldable pub list_context_infos_in : System → Option Text → Result ContextError (List ContextInfo)
unfolding load_spec
list_context_infos_in sys spec =
    map_err ContextError.kubeconfig (map_ok Access.list_contexts (load_spec sys spec))

unfoldable pub current_context_in : System → Option Text → Result ContextError (Option Text)
unfolding load_spec
current_context_in sys spec =
    map_err ContextError.kubeconfig (map_ok current_context (load_spec sys spec))

-- the `map_err` of the switch
abbrev pub switch_error : Text → KubeconfigError → ContextError
switch_error name (KubeconfigError.merge_error reason) = ContextError.not_found name
switch_error name e = ContextError.kubeconfig e

unfoldable pub set_active_context_in : System → Option Text → Text → Result ContextError FileSystem
unfolding load_spec
set_active_context_in sys spec name = do
  cfg ← map_err ContextError.kubeconfig (load_spec sys spec)
  let (switched, cfg') = set_active_context cfg name
  done ← map_err (switch_error name) switched
  map_err ContextError.kubeconfig (save sys.serde sys.writable sys.fs cfg')
