-- ===== src/Kubeconfig/Resolution.antt =====
-- kubeconfig.rs: what a loaded `KubeConfig` holds and how it resolves a context, in terms of the
-- files that were loaded.
use mathlib.Core.Path.{subst}
use mathlib.Core.Bool.{◌||◌}
use cubelite.Prelude.{
  ◌≡◌, refl, sym, ap, ◌∙◌, true, false, Option, none, some, List, [], ◌∷◌, arith, or_else, any,
  and_then, unwrap_or, if◌then◌else◌, map_option, is_empty, Bool-cases, Option-cases, inl, inr,
}
use cubelite.Prelude.Maps.{get}
use cubelite.Prelude.Results.{ok, ◌>>=◌, >>=-eq-ok}
use cubelite.Prelude.Texts.{Text, codes, text_eq, text_eq_iff}
use cubelite.Paths.{FilePath, path_eq, path_eq-IsKey}
use cubelite.Kubeconfig.Types.{NamedContext, KubeConfigFile, ContextInfo}
use cubelite.Kubeconfig.Merge.{
  Serde, FileSystem, Merge, KubeConfig, has_name, start, existing, finish_merge, load_files,
  load_from_paths,
}
use cubelite.Kubeconfig.Access.{cluster_name, resolve_context_info, get_context}
use cubelite.Kubeconfig.FirstWins.{named, find-append, has_name-eq-named, IsDistinct}
use cubelite.Kubeconfig.Loaded.{
  File, all_contexts, all_clusters, all_users, definer, current_of, clusters_at, Merged,
  start-Merged, Parsed, load_files-Merged,
}

-- The configuration in terms of the files: a name means the first entry of that name in the files'
-- order, no name occurs twice, and the first non-empty current context is the current one.
pub record Describes (files : List File) (cfg : KubeConfig) : Type 0 where
  pub contexts :
      (n : Text)
      → named (λ x. x.name) n cfg.raw.contexts ≡ named (λ x. x.name) n (all_contexts files)
  pub clusters :
      (n : Text)
      → named (λ x. x.name) n cfg.raw.clusters ≡ named (λ x. x.name) n (all_clusters files)
  pub users :
      (n : Text) → named (λ x. x.name) n cfg.raw.users ≡ named (λ x. x.name) n (all_users files)
  pub current : cfg.raw.current_context ≡ current_of files
  pub distinct_contexts : IsDistinct (λ x. x.name) cfg.raw.contexts
  pub distinct_clusters : IsDistinct (λ x. x.name) cfg.raw.clusters
  pub distinct_users : IsDistinct (λ x. x.name) cfg.raw.users
  pub sources :
      (n : Text) → get text_eq cfg.context_sources n ≡ map_option (λ f. f.0) (definer n files)
  pub own : (p : FilePath) → get path_eq cfg.file_clusters p ≡ clusters_at p files

finished-Describes :
    (serde : Serde) (fs : FileSystem) (requested loaded : List FilePath) (files : List File)
    (m : Merge)
    → Merged files m
    → Describes files (finish_merge serde fs requested loaded m)
unfolding finish_merge
finished-Describes serde fs requested loaded files m d = record {
  contexts = d.contexts;
  clusters = d.clusters;
  users = d.users;
  current = d.current;
  distinct_contexts = d.distinct_contexts;
  distinct_clusters = d.distinct_clusters;
  distinct_users = d.distinct_users;
  sources = d.sources;
  own = d.own;
}

-- A successful load has read and parsed the existing files among those requested, in order, and
-- describes them: a context, cluster or user name means the first entry of that name in the files'
-- order, no name occurs twice, the first non-empty current context is the current one, and each
-- context's source and each file's clusters are kept.
pub load_from_paths-Describes :
    (serde : Serde) (fs : FileSystem) (paths : List FilePath) (cfg : KubeConfig)
    → load_from_paths serde fs paths ≡ ok cfg
    → (files : List File) × Parsed serde fs (existing serde fs paths) files × Describes files cfg
unfolding load_from_paths
load_from_paths-Describes serde fs paths cfg h =
    elim (Bool-cases (is_empty (existing serde fs paths))) [
      | inl e ↦ cc (rw e at h)
      | inr e ↦
          let loaded : (load_files serde fs (existing serde fs paths) start >>= λ m.
          ok (finish_merge serde fs paths (existing serde fs paths) m))
              ≡ ok cfg =
            rw e at h in
          let (m, e₁, e₂) =
            >>=-eq-ok (load_files serde fs (existing serde fs paths) start) _ loaded in
          let (files, parsed, d) =
            load_files-Merged serde fs (existing serde fs paths) [] start m start-Merged e₁ in
          (
            files,
            parsed,
            subst (Describes files) (cc e₂)
                (finished-Describes serde fs paths (existing serde fs paths) files m d),
          )
    ]

-- How the files answer for a context: it is taken from the first file that lists it, its cluster from
-- the same file, and from the first file that has it only if that file has not.
abbrev pub server_in : List File → File → NamedContext → Option Text
server_in files f ctx =
    map_option (λ cl. cl.server)
      (and_then
        (or_else (named (λ x. x.name) (cluster_name ctx) f.1.clusters)
          (named (λ x. x.name) (cluster_name ctx) (all_clusters files)))
        (λ c. c.cluster))

abbrev pub info_in : List File → File → NamedContext → ContextInfo
info_in files f ctx = record {
  name = ctx.name;
  cluster_server = server_in files f ctx;
  namespace = unwrap_or (and_then ctx.context (λ d. d.namespace)) (codes "default");
  is_active = elim (current_of files) [ none ↦ false | some c ↦ text_eq c ctx.name ];
  source = some f.0;
}

abbrev pub context_in : List File → Text → Option ContextInfo
context_in files n =
    and_then (definer n files)
      (λ f. map_option (info_in files f) (named (λ x. x.name) n f.1.contexts))

named-all_contexts :
    (n : Text) (files : List File)
    → named (λ x. x.name) n (all_contexts files)
      ≡ and_then (definer n files) (λ f. named (λ x. x.name) n f.1.contexts)
named-all_contexts n [] = refl
named-all_contexts n (f ∷ files) = ground (
  arith,
  find-append (λ (x : NamedContext). text_eq x.name n) f.1.contexts (all_contexts files),
  has_name-eq-named (λ (x : NamedContext). x.name) f.1.contexts n,
  named-all_contexts n files,
)

named-name :
    (n : Text) (contexts : List NamedContext) (ctx : NamedContext)
    → named (λ x. x.name) n contexts ≡ some ctx
    → ctx.name ≡ n
named-name n [] ctx h = cc
named-name n (c ∷ contexts) ctx h = elim (Bool-cases (text_eq c.name n)) [
  | inl k ↦
      let here : c ≡ ctx = cc (rw k at h) in
      sym (ap (λ (x : NamedContext). x.name) here) ∙ (text_eq_iff c.name n).0 k
  | inr k ↦ named-name n contexts ctx (rw k at h)
]

resolve-info_in :
    (files : List File) (cfg : KubeConfig) (f : File) (ctx : NamedContext)
    → Describes files cfg
    → get text_eq cfg.context_sources ctx.name ≡ some f.0
    → get path_eq cfg.file_clusters f.0 ≡ some (f.1.clusters)
    → resolve_context_info cfg ctx ≡ info_in files f ctx
unfolding resolve_context_info
resolve-info_in files cfg f ctx d s o = rw (s, o, d.clusters (cluster_name ctx), d.current) refl

-- Two names for one file read the same.
abbrev pub ReadsAgree : FileSystem → Type 0
ReadsAgree fs = (p q : FilePath) → path_eq p q ≡ true → fs.read_to_string p ≡ fs.read_to_string q

module _ (serde : Serde) (fs : FileSystem) (agree : ReadsAgree fs) where
  -- Files at one path have one document.
  one_document :
      (paths : List FilePath) (files : List File) (p : FilePath) (content : Text)
      (d : KubeConfigFile)
      → Parsed serde fs paths files
      → fs.read_to_string p ≡ ok content
      → serde.parse_config content ≡ ok d
      → clusters_at p files
        ≡ (if any (λ (g : File). path_eq g.0 p) files then some (d.clusters) else none)
  one_document [] [] p content d h r e = refl
  one_document [] (f ∷ files) p content d h r e = absurd h
  one_document (q ∷ paths) [] p content d h r e = absurd h
  one_document (q ∷ paths) (f ∷ files) p content d h r e = elim (Bool-cases (path_eq f.0 p)) [
    | inl k ↦
        let same : f.1 ≡ d = cc (agree f.0 p k, h.0, h.1.1, h.1.2) in
        rw (k, one_document paths files p content d h.2 r e, same) (ground arith)
    | inr k ↦ rw (k, one_document paths files p content d h.2 r e) (ground arith)
  ]

  definer-Parsed :
      (paths : List FilePath) (files : List File) (n : Text) (f : File)
      → Parsed serde fs paths files
      → definer n files ≡ some f
      → (any (λ (g : File). path_eq g.0 f.0) files ≡ true)
        × ((content : Text) × (fs.read_to_string f.0 ≡ ok content)
            × (serde.parse_config content ≡ ok f.1))
  definer-Parsed [] [] n f h e = cc
  definer-Parsed [] (g ∷ files) n f h e = absurd h
  definer-Parsed (q ∷ paths) [] n f h e = absurd h
  definer-Parsed (q ∷ paths) (g ∷ files) n f h e =
      elim (Bool-cases (has_name (λ (x : NamedContext). x.name) g.1.contexts n)) [
        | inl k ↦
            let here : g ≡ f = cc (rw k at e) in
            subst
              (λ (x : File).
                ((path_eq g.0 x.0 || any (λ (y : File). path_eq y.0 x.0) files) ≡ true)
                × ((content : Text) × (fs.read_to_string x.0 ≡ ok content)
                    × (serde.parse_config content ≡ ok x.1)))
              here
              (
                rw (path_eq-IsKey.eq_refl g.0) refl,
                (h.1.0, subst (λ p. fs.read_to_string p ≡ ok h.1.0) (sym h.0) h.1.1, h.1.2),
              )
        | inr k ↦
            let (seen, read) = definer-Parsed paths files n f h.2 (rw k at e) in
            (ground (arith, seen), read)
      ]

  -- The clusters that are looked up first are those of the file that defines the context.
  own_clusters :
      (paths : List FilePath) (files : List File) (n : Text) (f : File)
      → Parsed serde fs paths files
      → definer n files ≡ some f
      → clusters_at f.0 files ≡ some (f.1.clusters)
  own_clusters paths files n f h e =
      let (seen, read) = definer-Parsed paths files n f h e in
      rw (one_document paths files f.0 read.0 f.1 h read.1 read.2, seen) refl

  -- A loaded configuration answers for a context as the files do: whether it exists, its source, its
  -- namespace, whether it is current, and its server, by the definition of its own file first.
  get_context-Describes :
      (paths : List FilePath) (files : List File) (cfg : KubeConfig) (n : Text)
      → Parsed serde fs paths files
      → Describes files cfg
      → get_context cfg n ≡ context_in files n
  unfolding get_context
  get_context-Describes paths files cfg n parsed d =
      rw (d.contexts n, named-all_contexts n files)
        (elim (Option-cases (definer n files)) [
          | inl e ↦ rw e refl
          | inr (f, e) ↦ rw e (elim (Option-cases (named (λ x. x.name) n f.1.contexts)) [
            | inl k ↦ rw k refl
            | inr (ctx, k) ↦
                let same : ctx.name ≡ n = named-name n f.1.contexts ctx k in
                rw k (
                  ap some (
                    resolve-info_in files cfg f ctx d (rw (same, d.sources n, e) refl)
                      (d.own f.0 ∙ own_clusters paths files n f parsed e)))
          ])
        ])

-- After a successful load of files whose content depends only on their path, every context answers
-- as the loaded files say: it exists if a file lists it, its source is the first such file, and its
-- server is that of its cluster in that file, or, if the file has no such cluster, in the first
-- file that has one.
pub load_from_paths-get_context :
    (serde : Serde) (fs : FileSystem) (paths : List FilePath) (cfg : KubeConfig)
    → ReadsAgree fs
    → load_from_paths serde fs paths ≡ ok cfg
    → (files : List File) × Parsed serde fs (existing serde fs paths) files
      × ((n : Text) → get_context cfg n ≡ context_in files n)
load_from_paths-get_context serde fs paths cfg agree h =
    let (files, parsed, d) = load_from_paths-Describes serde fs paths cfg h in
    (
      files,
      parsed,
      λ n. get_context-Describes serde fs agree (existing serde fs paths) files cfg n parsed d,
    )
