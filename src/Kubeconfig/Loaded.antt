-- ===== src/Kubeconfig/Loaded.antt =====
-- kubeconfig.rs: the merge loop against a description that looks at the loaded files as a whole.
use mathlib.Core.List.{append-nil, append_assoc}
use mathlib.Core.Path.{subst}
use cubelite.Prelude.{
  ◌≡◌, refl, sym, ap, ◌∙◌, Bool, Option, none, some, List, [], ◌∷◌, ◌++◌, arith, find, or_else,
  is_some, if◌then◌else◌, flat_map, flat_map-append, map_option, first, filter_map,
}
use cubelite.Prelude.Maps.{get, get-insert}
use cubelite.Prelude.Results.{ok, >>=-eq-ok, map_err, map_err-eq-ok}
use cubelite.Prelude.Texts.{Text, text_eq}
use cubelite.Paths.{FilePath, path_eq, path_eq-IsKey}
use cubelite.Kubeconfig.Types.{
  NamedContext, NamedCluster, NamedUser, KubeConfigFile, KubeconfigError,
}
use cubelite.Kubeconfig.Yaml.{Value}
use cubelite.Kubeconfig.Merge.{
  Serde, FileSystem, Merge, Contexts, has_name, start, non_empty, merge_named, merge_file,
  load_file, load_files,
}
use cubelite.Kubeconfig.FirstWins.{
  named, named-merge_named, find-append, merged-merge_contexts, HasSources-merge_contexts,
  source-merge_contexts, IsDistinct, merge_named-IsDistinct,
}

-- A loaded file: its path and its document.
abbrev pub File : Type 0
File = FilePath × KubeConfigFile

abbrev pub all_contexts : List File → List NamedContext
all_contexts files = flat_map (λ (f : File). f.1.contexts) files

abbrev pub all_clusters : List File → List NamedCluster
all_clusters files = flat_map (λ (f : File). f.1.clusters) files

abbrev pub all_users : List File → List NamedUser
all_users files = flat_map (λ (f : File). f.1.users) files

-- The first file that lists a context.
abbrev pub definer : Text → List File → Option File
definer n files = find (λ (f : File). has_name (λ (x : NamedContext). x.name) f.1.contexts n) files

-- The first file with a non-empty `current-context` decides it.
abbrev pub current_of : List File → Option Text
current_of files = first (filter_map (λ (f : File). non_empty f.1.current_context) files)

-- The clusters of the last file at a path.
abbrev pub clusters_at : FilePath → List File → Option (List NamedCluster)
clusters_at p [] = none
clusters_at p (f ∷ files) =
    or_else (clusters_at p files) (if path_eq f.0 p then some (f.1.clusters) else none)

clusters_at-append :
    (p : FilePath) (files : List File) (f : File)
    → clusters_at p (files ++ f ∷ [])
      ≡ (if path_eq f.0 p then some (f.1.clusters) else clusters_at p files)
clusters_at-append p [] f = ground arith
clusters_at-append p (g ∷ files) f = ground (arith, clusters_at-append p files f)

current_of-append :
    (files : List File) (f : File)
    → current_of (files ++ f ∷ []) ≡ or_else (current_of files) (non_empty f.1.current_context)
current_of-append [] f = ground arith
current_of-append (g ∷ files) f = ground (arith, current_of-append files f)

definer-append :
    (n : Text) (files : List File) (f : File)
    → definer n (files ++ f ∷ [])
      ≡ or_else (definer n files) (if has_name (λ x. x.name) f.1.contexts n then some f else none)
definer-append n [] f = ground arith
definer-append n (g ∷ files) f = ground (arith, definer-append n files f)

-- What the loop has built once the files `done` are merged.
pub record Merged (done : List File) (m : Merge) : Type 0 where
  pub contexts :
      (n : Text)
      → named (λ x. x.name) n m.merged.contexts ≡ named (λ x. x.name) n (all_contexts done)
  pub clusters :
      (n : Text)
      → named (λ x. x.name) n m.merged.clusters ≡ named (λ x. x.name) n (all_clusters done)
  pub users :
      (n : Text) → named (λ x. x.name) n m.merged.users ≡ named (λ x. x.name) n (all_users done)
  pub current : m.first_current_context ≡ current_of done
  pub has_sources :
      (n : Text)
      → has_name (λ x. x.name) m.merged.contexts n ≡ is_some (get text_eq m.context_sources n)
  pub sources :
      (n : Text) → get text_eq m.context_sources n ≡ map_option (λ f. f.0) (definer n done)
  pub own : (p : FilePath) → get path_eq m.file_clusters p ≡ clusters_at p done
  pub distinct_contexts : IsDistinct (λ x. x.name) m.merged.contexts
  pub distinct_clusters : IsDistinct (λ x. x.name) m.merged.clusters
  pub distinct_users : IsDistinct (λ x. x.name) m.merged.users

pub start-Merged : Merged [] start
unfolding get
start-Merged = record {
  contexts = λ n. refl;
  clusters = λ n. refl;
  users = λ n. refl;
  current = refl;
  has_sources = λ n. refl;
  sources = λ n. refl;
  own = λ p. refl;
  distinct_contexts = tt;
  distinct_clusters = tt;
  distinct_users = tt;
}

-- The entries of all files, one more file being merged.
named-flat {ℓ} :
    {A : Type ℓ} (name : A → Text) (entries : File → List A) (merged : List A) (done : List File)
    (f : File) (n : Text)
    → named name n merged ≡ named name n (flat_map entries done)
    → named name n (merge_named name merged (entries f))
      ≡ named name n (flat_map entries (done ++ f ∷ []))
named-flat name entries merged done f n h =
    named-merge_named name merged (entries f) n
    ∙ ap (λ o. or_else o (named name n (entries f))) h
    ∙ sym (find-append (λ x. text_eq (name x) n) (flat_map entries done) (entries f))
    ∙ ap (λ l. named name n (flat_map entries done ++ l)) (sym (append-nil (entries f)))
    ∙ ap (named name n) (sym (flat_map-append entries done (f ∷ [])))

merge_file-Merged :
    (value_eq : Value → Value → Bool) (done : List File) (m : Merge) (p : FilePath)
    (raw : KubeConfigFile) (doc : Value)
    → Merged done m
    → Merged (done ++ (p, raw) ∷ []) (merge_file value_eq p raw doc m)
unfolding merge_file
merge_file-Merged value_eq done m p raw doc h =
    let c : Contexts = record {
      merged = m.merged.contexts;
      sources = m.context_sources;
      shadowed = m.shadowed;
    } in
    record {
      contexts = λ n. rw (merged-merge_contexts p c raw.contexts) (
          named-flat (λ x. x.name) (λ f. f.1.contexts) m.merged.contexts done (p, raw) n
            (h.contexts n));
      clusters = λ n.
          named-flat (λ x. x.name) (λ f. f.1.clusters) m.merged.clusters done (p, raw) n
            (h.clusters n);
      users =
          λ n. named-flat (λ x. x.name) (λ f. f.1.users) m.merged.users done (p, raw) n (h.users n);
      current =
          ap (λ o. or_else o (non_empty raw.current_context)) h.current
          ∙ sym (current_of-append done (p, raw));
      has_sources = HasSources-merge_contexts p c raw.contexts h.has_sources;
      sources = λ n.
          source-merge_contexts p c raw.contexts n h.has_sources
          ∙ ground (arith, h.sources n, definer-append n done (p, raw));
      own = λ q.
          get-insert path_eq path_eq-IsKey m.file_clusters p q raw.clusters
          ∙ ground (arith, h.own q, clusters_at-append q done (p, raw));
      distinct_contexts =
          rw (merged-merge_contexts p c raw.contexts) (
            merge_named-IsDistinct (λ x. x.name) m.merged.contexts raw.contexts
              h.distinct_contexts);
      distinct_clusters =
          merge_named-IsDistinct (λ x. x.name) m.merged.clusters raw.clusters h.distinct_clusters;
      distinct_users =
          merge_named-IsDistinct (λ x. x.name) m.merged.users raw.users h.distinct_users;
    }

-- Each path was read and parsed to its document.
abbrev pub Parsed : Serde → FileSystem → List FilePath → List File → Type 0
Parsed serde fs [] [] = Unit
Parsed serde fs [] (f ∷ files) = ⊥
Parsed serde fs (p ∷ paths) [] = ⊥
Parsed serde fs (p ∷ paths) (f ∷ files) =
    (f.0 ≡ p)
    × ((content : Text) × (fs.read_to_string p ≡ ok content)
        × (serde.parse_config content ≡ ok f.1))
    × Parsed serde fs paths files

module _ (serde : Serde) (fs : FileSystem) where
  load_file-Merged :
      (done : List File) (m m' : Merge) (p : FilePath)
      → Merged done m
      → load_file serde fs p m ≡ ok m'
      → (f : File) × ((f.0 ≡ p)
          × ((content : Text) × (fs.read_to_string p ≡ ok content)
              × (serde.parse_config content ≡ ok f.1)))
        × Merged (done ++ f ∷ []) m'
  unfolding load_file
  load_file-Merged done m m' p h e =
      let (content, r₁, k₁) = >>=-eq-ok (map_err KubeconfigError.io (fs.read_to_string p)) _ e in
      let (raw, r₂, k₂) =
        >>=-eq-ok (map_err KubeconfigError.parse_error (serde.parse_config content)) _ k₁ in
      let (doc, r₃, k₃) =
        >>=-eq-ok (map_err KubeconfigError.parse_error (serde.parse_value content)) _ k₂ in
      (
        (p, raw),
        (refl, (content, map_err-eq-ok _ _ r₁, map_err-eq-ok _ _ r₂)),
        subst (Merged (done ++ (p, raw) ∷ [])) (cc)
            (merge_file-Merged serde.value_eq done m p raw doc h),
      )

  pub load_files-Merged :
      (paths : List FilePath) (done : List File) (m m' : Merge)
      → Merged done m
      → load_files serde fs paths m ≡ ok m'
      → (files : List File) × Parsed serde fs paths files × Merged (done ++ files) m'
  unfolding load_files
  load_files-Merged [] done m m' h e = ([], tt, rw (append-nil done) (subst (Merged done) (cc) h))
  load_files-Merged (p ∷ paths) done m m' h e =
      let (m₁, e₁, e₂) = >>=-eq-ok (load_file serde fs p m) (load_files serde fs paths) e in
      let (f, read, h₁) = load_file-Merged done m m₁ p h e₁ in
      let (files, reads, h₂) = load_files-Merged paths (done ++ f ∷ []) m₁ m' h₁ e₂ in
      (
        f ∷ files,
        (read.0, read.1, reads),
        subst (λ l. Merged l m') (append_assoc done (f ∷ []) files) h₂,
      )
