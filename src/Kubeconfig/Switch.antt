-- ===== src/Kubeconfig/Switch.antt =====
-- kubeconfig.rs: the switch of the active context in memory.
use mathlib.Core.Path.{subst}
use cubelite.Prelude.{
  ◌≡◌, refl, sym, ◌∙◌, true, Option, none, some, List, [], ◌∷◌, ◌++◌, arith, map, find, map_option,
  is_some,
}
use cubelite.Prelude.Results.{Result, ok, err}
use cubelite.Prelude.Texts.{Text, codes, text_eq}
use cubelite.Kubeconfig.Types.{NamedContext, KubeconfigError, ContextInfo}
use cubelite.Kubeconfig.Merge.{KubeConfig, has_name}
use cubelite.Kubeconfig.Access.{
  resolve_context_info, get_context, list_contexts, current_context, set_active_context,
}
use cubelite.Kubeconfig.FirstWins.{has_name-eq-named}

-- An info that is active exactly if it is named `name`.
abbrev pub activate : Text → ContextInfo → ContextInfo
activate name info = record info { is_active = text_eq name info.name }

abbrev with_current : KubeConfig → Text → KubeConfig
with_current cfg name = record cfg { raw = record (cfg.raw) { current_context = some name } }

set_active_context-eq :
    (cfg : KubeConfig) (name : Text)
    → has_name (λ x. x.name) cfg.raw.contexts name ≡ true
    → set_active_context cfg name ≡ (ok tt, with_current cfg name)
unfolding set_active_context
set_active_context-eq cfg name h = rw h refl

resolve-with_current :
    (cfg : KubeConfig) (name : Text) (c : NamedContext)
    → resolve_context_info (with_current cfg name) c ≡ activate name (resolve_context_info cfg c)
unfolding resolve_context_info
resolve-with_current cfg name c = refl

map-resolve :
    (cfg : KubeConfig) (name : Text) (cs : List NamedContext)
    → map (resolve_context_info (with_current cfg name)) cs
      ≡ map (activate name) (map (resolve_context_info cfg) cs)
map-resolve cfg name [] = refl
map-resolve cfg name (c ∷ cs) = rw (resolve-with_current cfg name c, map-resolve cfg name cs) refl

option-resolve :
    (cfg : KubeConfig) (name : Text) (c : Option NamedContext)
    → map_option (resolve_context_info (with_current cfg name)) c
      ≡ map_option (activate name) (map_option (resolve_context_info cfg) c)
option-resolve cfg name none = refl
option-resolve cfg name (some c) = rw (resolve-with_current cfg name c) refl

is_some-map_option {ℓ κ} :
    {A : Type ℓ} {B : Type κ} (f : A → B) (o : Option A) → is_some (map_option f o) ≡ is_some o
is_some-map_option f none = refl
is_some-map_option f (some a) = refl

listed-eq :
    (cfg : KubeConfig) (name : Text)
    → has_name (λ x. x.name) cfg.raw.contexts name ≡ is_some (get_context cfg name)
unfolding get_context
listed-eq cfg name =
    has_name-eq-named (λ x. x.name) cfg.raw.contexts name
    ∙ sym (
        is_some-map_option (resolve_context_info cfg)
          (find (λ (c : NamedContext). text_eq c.name name) cfg.raw.contexts))

-- The configuration after the call.
abbrev pub switched : KubeConfig → Text → KubeConfig
switched cfg name = (set_active_context cfg name).1

-- The switch to a listed context succeeds, makes it the current one, and changes of the listing
-- only which contexts are active: those of that name and no other.
pub set_active_context-listed :
    (cfg : KubeConfig) (name : Text)
    → is_some (get_context cfg name) ≡ true
    → ((set_active_context cfg name).0 ≡ ok tt)
      × (current_context (switched cfg name) ≡ some name)
      × (list_contexts (switched cfg name) ≡ map (activate name) (list_contexts cfg))
      × ((n : Text)
          → get_context (switched cfg name) n ≡ map_option (activate name) (get_context cfg n))
unfolding get_context list_contexts current_context
set_active_context-listed cfg name h =
    subst
      (λ (r : Result KubeconfigError (Unit {0}) × KubeConfig).
        (r.0 ≡ ok tt)
        × (current_context r.1 ≡ some name)
        × (list_contexts r.1 ≡ map (activate name) (list_contexts cfg))
        × ((n : Text) → get_context r.1 n ≡ map_option (activate name) (get_context cfg n)))
      (sym (set_active_context-eq cfg name (listed-eq cfg name ∙ h)))
      (
        refl,
        refl,
        map-resolve cfg name cfg.raw.contexts,
        λ n.
            option-resolve cfg name
              (find (λ (c : NamedContext). text_eq c.name n) cfg.raw.contexts),
      )

-- The switch to a context that is not listed fails with an error naming it, and leaves the
-- configuration as it was.
pub set_active_context-unlisted :
    (cfg : KubeConfig) (name : Text)
    → get_context cfg name ≡ none
    → set_active_context cfg name ≡ (
      err (
          KubeconfigError.merge_error
            (codes "context '" ++ name ++ codes "' not found in kubeconfig")),
      cfg,
    )
unfolding set_active_context
set_active_context-unlisted cfg name h = rw (listed-eq cfg name, h) refl

-- A switch keeps the list of loaded files.
pub paths-switched : (cfg : KubeConfig) (name : Text) → (switched cfg name).paths ≡ cfg.paths
unfolding set_active_context
paths-switched cfg name = ground arith
