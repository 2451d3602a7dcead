-- ===== src/Context/Persist.antt =====
-- context.rs: a switch of the context over a spec, seen by the next call on that spec.
use cubelite.Prelude.{
  ◌≡◌, refl, sym, ap, ◌∙◌, true, false, some, List, [], ◌∷◌, is_empty, is_some, Bool-cases,
  Option-cases, inl, inr, if◌then◌else◌,
}
use cubelite.Prelude.Results.{Result, ok, map_ok, map_err, >>=-eq-ok, map_err-eq-ok}
use cubelite.Prelude.Texts.{Text, trim}
use cubelite.Paths.{FilePath}
use cubelite.Kubeconfig.Types.{KubeconfigError, ContextError}
use cubelite.Kubeconfig.Merge.{KubeConfig, FileSystem, load_from_paths}
use cubelite.Kubeconfig.Access.{
  current_context, get_context, set_active_context, split_kubeconfig_spec, save,
}
use cubelite.Kubeconfig.Resolve.{System, load, load_from_spec}
use cubelite.Kubeconfig.Switch.{switched, set_active_context-unlisted}
use cubelite.Kubeconfig.Saved.{IsFaithful, HasPlainKeys}
use cubelite.Kubeconfig.Persist.{save_persists}
use cubelite.Context.{load_spec, current_context_in, switch_error, set_active_context_in}

abbrev pub paths_of : Text → List FilePath
paths_of spec = split_kubeconfig_spec (trim spec)

-- A spec that names files is loaded from them.
load_spec-paths :
    (sys : System) (spec : Text)
    → is_empty (paths_of spec) ≡ false
    → load_spec sys (some spec) ≡ load_from_paths sys.serde sys.fs (paths_of spec)
unfolding load_spec load_from_spec
load_spec-paths sys spec h = elim (Bool-cases (is_empty (trim spec))) [
  | inl e ↦ blank (trim spec) e h
  | inr e ↦ rw e (from (paths_of spec) h)
]
  where
    from :
        (l : List FilePath)
        → is_empty l ≡ false
        → elim l [ [] ↦ load sys | p ∷ ps ↦ load_from_paths sys.serde sys.fs (p ∷ ps) ]
          ≡ load_from_paths sys.serde sys.fs l
    from [] k = cc
    from (p ∷ ps) k = refl

    blank :
        (t : Text)
        → is_empty t ≡ true
        → is_empty (split_kubeconfig_spec t) ≡ false
        → (if is_empty t then load sys else load_from_spec sys t)
          ≡ load_from_paths sys.serde sys.fs (split_kubeconfig_spec t)
    blank [] e k = unfold split_kubeconfig_spec in unfold trim in cc k
    blank (c ∷ t) e k = cc e

listed :
    (cfg : KubeConfig) (name : Text) {done : Unit {0}}
    → (set_active_context cfg name).0 ≡ ok done
    → is_some (get_context cfg name) ≡ true
listed cfg name h = elim (Option-cases (get_context cfg name)) [
  | inl e ↦ cc (
    h,
    ap (λ (r : Result KubeconfigError (Unit {0}) × KubeConfig). r.0)
        (set_active_context-unlisted cfg name e),
  )
  | inr (info, e) ↦ ap is_some e
]

-- If a switch to a non-empty name over a spec that names files succeeds, current_context_in over
-- the same spec then gives that name. No file has a tagged current-context key. The YAML library is
-- taken to parse back what it wrote, and to give the text written for a document that had a typed
-- view, with its current-context key set to a name, a typed view that names this context.
pub set_active_context_in-current_context_in :
    (sys : System) (spec name : Text) (fs' : FileSystem)
    → IsFaithful sys.serde
    → HasPlainKeys sys.serde sys.fs
    → is_empty (paths_of spec) ≡ false
    → is_empty name ≡ false
    → set_active_context_in sys (some spec) name ≡ ok fs'
    → current_context_in (record sys { fs = fs' }) (some spec) ≡ ok (some name)
unfolding set_active_context_in current_context_in
set_active_context_in-current_context_in sys spec name fs' faithful plain h n e =
    let (cfg, e₁, k₁) =
      >>=-eq-ok (map_err ContextError.kubeconfig (load_spec sys (some spec))) _ e in
    let (done, e₂, k₂) =
      >>=-eq-ok (map_err (switch_error name) (set_active_context cfg name).0)
        (λ d.
          map_err ContextError.kubeconfig (save sys.serde sys.writable sys.fs (switched cfg name)))
        k₁ in
    let loaded : load_from_paths sys.serde sys.fs (paths_of spec) ≡ ok cfg =
      sym (load_spec-paths sys spec h)
      ∙ map_err-eq-ok ContextError.kubeconfig (load_spec sys (some spec)) e₁ in
    let (cfg', again, current) =
      save_persists sys.serde sys.writable sys.fs fs' (paths_of spec) cfg name faithful plain loaded
        (listed cfg name (map_err-eq-ok (switch_error name) (set_active_context cfg name).0 e₂)) n
        (map_err-eq-ok ContextError.kubeconfig
          (save sys.serde sys.writable sys.fs (switched cfg name)) k₂) in
    ap
      (λ (r : Result KubeconfigError KubeConfig).
        map_err ContextError.kubeconfig (map_ok current_context r))
      (load_spec-paths (record sys { fs = fs' }) spec h ∙ again)
    ∙ ap ok current
