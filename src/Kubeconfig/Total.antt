-- ===== src/Kubeconfig/Total.antt =====
-- kubeconfig.rs: exactly when a load succeeds, and the error when no file exists.
use cubelite.Prelude.{
  ◌≡◌, ◌↔◌, refl, sym, ap, true, false, List, [], ◌∷◌, All, is_empty, Bool-cases, inl, inr,
  if◌then◌else◌,
}
use cubelite.Prelude.Results.{ok, err, ◌>>=◌, >>=-eq-ok, map_err, map_err-eq-ok}
use cubelite.Prelude.Texts.{Text, codes}
use cubelite.Paths.{FilePath}
use cubelite.Kubeconfig.Types.{KubeConfigFile, KubeconfigError}
use cubelite.Kubeconfig.Yaml.{Value}
use cubelite.Kubeconfig.Merge.{
  Serde, FileSystem, Merge, KubeConfig, start, existing, merge_file, finish_merge, listed,
  load_file, load_files, load_from_paths,
}

-- The file is read, and both parses of its content succeed.
abbrev pub IsReadable : Serde → FileSystem → FilePath → Type 0
IsReadable serde fs p =
    (content : Text) × (raw : KubeConfigFile) × (doc : Value) × (fs.read_to_string p ≡ ok content)
    × (serde.parse_config content ≡ ok raw)
    × (serde.parse_value content ≡ ok doc)

module _ (serde : Serde) (fs : FileSystem) where
  load_file_total :
      (p : FilePath) (m : Merge)
      → IsReadable serde fs p
      → (m' : Merge) × (load_file serde fs p m ≡ ok m')
  unfolding load_file
  load_file_total p m (content, raw, doc, r, c, v) =
      (merge_file serde.value_eq p raw doc m, rw (r, c, v) refl)

  load_file-IsReadable :
      (p : FilePath) (m m' : Merge) → load_file serde fs p m ≡ ok m' → IsReadable serde fs p
  unfolding load_file
  load_file-IsReadable p m m' e =
      let (content, r₁, k₁) = >>=-eq-ok (map_err KubeconfigError.io (fs.read_to_string p)) _ e in
      let (raw, r₂, k₂) =
        >>=-eq-ok (map_err KubeconfigError.parse_error (serde.parse_config content)) _ k₁ in
      let (doc, r₃, k₃) =
        >>=-eq-ok (map_err KubeconfigError.parse_error (serde.parse_value content)) _ k₂ in
      (content, raw, doc, map_err-eq-ok _ _ r₁, map_err-eq-ok _ _ r₂, map_err-eq-ok _ _ r₃)

  load_files_total :
      (paths : List FilePath) (m : Merge)
      → All (IsReadable serde fs) paths
      → (m' : Merge) × (load_files serde fs paths m ≡ ok m')
  unfolding load_files
  load_files_total [] m h = (m, refl)
  load_files_total (p ∷ paths) m h =
      let (m₁, e₁) = load_file_total p m h.0 in
      let (m₂, e₂) = load_files_total paths m₁ h.1 in (m₂, rw e₁ e₂)

  load_files-IsReadable :
      (paths : List FilePath) (m m' : Merge)
      → load_files serde fs paths m ≡ ok m'
      → All (IsReadable serde fs) paths
  unfolding load_files
  load_files-IsReadable [] m m' e = tt
  load_files-IsReadable (p ∷ paths) m m' e =
      let (m₁, e₁, e₂) = >>=-eq-ok (load_file serde fs p m) (load_files serde fs paths) e in
      (load_file-IsReadable p m m₁ e₁, load_files-IsReadable paths m₁ m' e₂)

  -- A load succeeds exactly when one of the requested files exists and every one that exists is
  -- read and parses, both as a kubeconfig and as a document; missing files are skipped.
  pub load_from_paths_total :
      (paths : List FilePath)
      → ((cfg : KubeConfig) × (load_from_paths serde fs paths ≡ ok cfg)) ↔ (
          (is_empty (existing serde fs paths) ≡ false)
          × All (IsReadable serde fs) (existing serde fs paths))
  unfolding load_from_paths
  load_from_paths_total paths = (there, back)
    where
      there :
          ((cfg : KubeConfig) × (load_from_paths serde fs paths ≡ ok cfg))
          → (is_empty (existing serde fs paths) ≡ false)
            × All (IsReadable serde fs) (existing serde fs paths)
      there (cfg, h) = elim (Bool-cases (is_empty (existing serde fs paths))) [
        | inl e ↦ cc (rw e at h)
        | inr e ↦
            let loaded : (load_files serde fs (existing serde fs paths) start >>= λ m.
            ok (finish_merge serde fs paths (existing serde fs paths) m))
                ≡ ok cfg =
              rw e at h in
            let (m, e₁, e₂) =
              >>=-eq-ok (load_files serde fs (existing serde fs paths) start) _ loaded in
            (e, load_files-IsReadable (existing serde fs paths) start m e₁)
      ]

      back :
          (is_empty (existing serde fs paths) ≡ false)
            × All (IsReadable serde fs) (existing serde fs paths)
          → (cfg : KubeConfig) × (load_from_paths serde fs paths ≡ ok cfg)
      back (e, h) =
          let (m, k) = load_files_total (existing serde fs paths) start h in
          (finish_merge serde fs paths (existing serde fs paths) m, rw (e, k) refl)

  -- What is loaded are the existing files, in the order requested.
  pub paths-load_from_paths :
      (paths : List FilePath) (cfg : KubeConfig)
      → load_from_paths serde fs paths ≡ ok cfg
      → cfg.paths ≡ existing serde fs paths
  unfolding load_from_paths
  paths-load_from_paths paths cfg h = elim (Bool-cases (is_empty (existing serde fs paths))) [
    | inl e ↦ cc (rw e at h)
    | inr e ↦
        let loaded : (load_files serde fs (existing serde fs paths) start >>= λ m.
        ok (finish_merge serde fs paths (existing serde fs paths) m))
            ≡ ok cfg =
          rw e at h in
        let (m, e₁, e₂) =
          >>=-eq-ok (load_files serde fs (existing serde fs paths) start) _ loaded in
        let same : finish_merge serde fs paths (existing serde fs paths) m ≡ cfg = cc e₂ in
        sym (ap (λ (c : KubeConfig). c.paths) same)
  ]

  -- Without an existing file the error names the requested paths, or says that there are none.
  pub load_from_paths_missing :
      (paths : List FilePath)
      → is_empty (existing serde fs paths) ≡ true
      → load_from_paths serde fs paths
        ≡ err (
            KubeconfigError.file_not_found (
              if is_empty (listed serde fs paths)
              then codes "(no kubeconfig paths provided)"
              else listed serde fs paths))
  unfolding load_from_paths
  load_from_paths_missing paths h = rw h refl
