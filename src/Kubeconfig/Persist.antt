-- ===== src/Kubeconfig/Persist.antt =====
-- kubeconfig.rs: a switch that was saved is seen by the next load.
use mathlib.Core.Path.{subst}
use cubelite.Prelude.{◌≡◌, sym, ap, ◌∙◌, true, false, some, List, is_empty, first, is_some}
use cubelite.Prelude.Results.{Result, ok}
use cubelite.Prelude.Texts.{Text}
use cubelite.Paths.{FilePath}
use cubelite.Kubeconfig.Types.{KubeConfigFile}
use cubelite.Kubeconfig.Yaml.{Value}
use cubelite.Kubeconfig.Merge.{Serde, FileSystem, KubeConfig, existing, load_from_paths}
use cubelite.Kubeconfig.Access.{
  get_context, current_context, save, update_mapping, set_current, write_file,
}
use cubelite.Kubeconfig.Switch.{switched, paths-switched, set_active_context-listed}
use cubelite.Kubeconfig.Total.{load_from_paths_total, paths-load_from_paths}
use cubelite.Kubeconfig.Saved.{IsFaithful, HasPlainKeys, Saved, save-Saved, first-All, reload}

-- A save follows a switch: what it wrote, with the name in it.
switched-Saved :
    (serde : Serde) (fs fs' : FileSystem) (paths : List FilePath) (cfg : KubeConfig) (name : Text)
    → IsFaithful serde
    → HasPlainKeys serde fs
    → load_from_paths serde fs paths ≡ ok cfg
    → is_some (get_context cfg name) ≡ true
    → Saved serde fs (switched cfg name) fs'
    → (primary : FilePath) × (yaml : Text) × (raw : KubeConfigFile) × (doc : Value) × (first
          (existing serde fs paths)
        ≡ some primary)
      × (serde.parse_config yaml ≡ ok raw)
      × (raw.current_context ≡ some name)
      × (serde.parse_value yaml ≡ ok doc)
      × (fs' ≡ write_file fs primary yaml)
switched-Saved serde fs fs' paths cfg name faithful plain l h
      (primary, content, doc, changed, yaml, e₁, e₂, e₃, e₄, e₅, e₆) =
    let at_first : first (existing serde fs paths) ≡ some primary =
      ap first (sym (paths-switched cfg name ∙ paths-load_from_paths serde fs paths cfg l)) ∙ e₁ in
    let (content', raw, doc', r, c, v) =
      first-All serde fs (existing serde fs paths) primary at_first
        ((load_from_paths_total serde fs paths).0 (cfg, l)).1 in
    let current : (switched cfg name).raw.current_context ≡ some name =
      unfold current_context in (set_active_context-listed cfg name h).1 in
    let typed : serde.parse_config content ≡ ok raw = cc (r, e₂, c) in
    let set : update_mapping (set_current (some name)) doc ≡ some changed =
      subst (λ o. update_mapping (set_current o) doc ≡ some changed) current e₄ in
    let (written, w, named) =
      faithful.typed_current content yaml doc changed raw name e₃ typed
        (plain primary content doc e₂ e₃) set e₅ in
    (primary, yaml, written, changed, at_first, w, named, faithful.write_parse changed yaml e₅, e₆)

-- If a listed context with a non-empty name is made current and saved without an error, the next
-- load of the same list succeeds, and that context is its current one. No file has a tagged
-- current-context key. The YAML library is taken to parse back what it wrote, and to give the text
-- written for a document that had a typed view, with its current-context key set to a name, a typed
-- view that names this context.
pub save_persists :
    (serde : Serde) (writable : FilePath → Result Text (Unit {0})) (fs fs' : FileSystem)
    (paths : List FilePath) (cfg : KubeConfig) (name : Text)
    → IsFaithful serde
    → HasPlainKeys serde fs
    → load_from_paths serde fs paths ≡ ok cfg
    → is_some (get_context cfg name) ≡ true
    → is_empty name ≡ false
    → save serde writable fs (switched cfg name) ≡ ok fs'
    → (cfg' : KubeConfig) × (load_from_paths serde fs' paths ≡ ok cfg')
      × (current_context cfg' ≡ some name)
save_persists serde writable fs fs' paths cfg name faithful plain l h n s =
    let (primary, yaml, raw, doc, e₁, e₂, named, e₃, e₄) =
      switched-Saved serde fs fs' paths cfg name faithful plain l h
        (save-Saved serde writable fs (switched cfg name) fs' s) in
    subst
      (λ (w : FileSystem).
        (cfg' : KubeConfig) × (load_from_paths serde w paths ≡ ok cfg')
        × (current_context cfg' ≡ some name))
      (sym e₄)
      (reload serde fs paths primary yaml raw doc name n e₁ e₂ named e₃
        ((load_from_paths_total serde fs paths).0 (cfg, l)).1)
