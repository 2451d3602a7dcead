-- ===== src/Kubeconfig/Saved.antt =====
-- kubeconfig.rs: what a save has done, and what a load after it reads.
use mathlib.Core.Path.{subst}
use cubelite.Prelude.{
  ◌≡◌, refl, ap, ◌∙◌, Bool, true, false, Option, none, some, List, [], ◌∷◌, arith, All, is_empty,
  filter, first, Bool-cases, not, ◌||◌, ◌&&◌, inl, inr, if◌then◌else◌,
}
use cubelite.Prelude.Results.{Result, ok, >>=-eq-ok, map_err, map_err-eq-ok, ok_or}
use cubelite.Prelude.Texts.{Text, codes}
use cubelite.Paths.{FilePath, path_eq, path_eq-IsKey}
use cubelite.Kubeconfig.Types.{KubeConfigFile, KubeconfigError}
use cubelite.Kubeconfig.Yaml.{Value, Fields, is_str, is_key}
use cubelite.Kubeconfig.Merge.{Serde, FileSystem, KubeConfig, existing, load_from_paths}
use cubelite.Kubeconfig.Access.{current_context, save, update_mapping, set_current, write_file}
use cubelite.Kubeconfig.Loaded.{File, Parsed, current_of}
use cubelite.Kubeconfig.Resolution.{load_from_paths-Describes}
use cubelite.Kubeconfig.Total.{IsReadable, load_from_paths_total}

-- A key of the mapping that reads as the text is that text without a tag.
abbrev plain_in : Text → Fields → Bool
plain_in key Fields.end = true
plain_in key (Fields.field k v rest) = (not (is_str key k) || is_key key k) && plain_in key rest

abbrev pub is_plain : Text → Value → Bool
is_plain key (Value.mapping fields) = plain_in key fields
is_plain key (Value.tagged tag v) = is_plain key v
is_plain key _ = true

-- No file that is read has a tagged current-context key.
abbrev pub HasPlainKeys : Serde → FileSystem → Type 0
HasPlainKeys serde fs =
    (p : FilePath) (content : Text) (doc : Value)
    → fs.read_to_string p ≡ ok content
    → serde.parse_value content ≡ ok doc
    → is_plain (codes "current-context") doc ≡ true

-- What is relied on of `serde_yaml`: a written document is parsed back, and if a document has a
-- typed view, so has the text written for it with its `current-context` key set to a name, unless
-- that key was tagged, and this view names that context.
pub record IsFaithful (serde : Serde) : Type 0 where
  pub write_parse :
      (doc : Value) (content : Text)
      → serde.write_value doc ≡ ok content
      → serde.parse_value content ≡ ok doc
  pub typed_current :
      (content yaml : Text) (doc changed : Value) (f : KubeConfigFile) (name : Text)
      → serde.parse_value content ≡ ok doc
      → serde.parse_config content ≡ ok f
      → is_plain (codes "current-context") doc ≡ true
      → update_mapping (set_current (some name)) doc ≡ some changed
      → serde.write_value changed ≡ ok yaml
      → (g : KubeConfigFile) × (serde.parse_config yaml ≡ ok g) × (g.current_context ≡ some name)

ok_or-some {ℓ} :
    {A : Type ℓ} (e : KubeconfigError) (o : Option A) (a : A) → ok_or e o ≡ ok a → o ≡ some a
ok_or-some e none a h = cc
ok_or-some e (some b) a h = cc

-- What a successful save has done.
abbrev pub Saved : Serde → FileSystem → KubeConfig → FileSystem → Type 0
Saved serde fs cfg fs' =
    (primary : FilePath) × (content : Text) × (doc : Value) × (changed : Value) × (yaml : Text)
    × (first cfg.paths ≡ some primary)
    × (fs.read_to_string primary ≡ ok content)
    × (serde.parse_value content ≡ ok doc)
    × (update_mapping (set_current cfg.raw.current_context) doc ≡ some changed)
    × (serde.write_value changed ≡ ok yaml)
    × (fs' ≡ write_file fs primary yaml)

pub save-Saved :
    (serde : Serde) (writable : FilePath → Result Text (Unit {0})) (fs : FileSystem)
    (cfg : KubeConfig) (fs' : FileSystem)
    → save serde writable fs cfg ≡ ok fs'
    → Saved serde fs cfg fs'
unfolding save
save-Saved serde writable fs cfg fs' h =
    let (primary, e₁, h₁) = >>=-eq-ok (ok_or _ (first cfg.paths)) _ h in
    let (content, e₂, h₂) =
      >>=-eq-ok (map_err KubeconfigError.io (fs.read_to_string primary)) _ h₁ in
    let (doc, e₃, h₃) =
      >>=-eq-ok (map_err KubeconfigError.parse_error (serde.parse_value content)) _ h₂ in
    let (changed, e₄, h₄) =
      >>=-eq-ok (ok_or _ (update_mapping (set_current cfg.raw.current_context) doc)) _ h₃ in
    let (yaml, e₅, h₅) =
      >>=-eq-ok (map_err KubeconfigError.parse_error (serde.write_value changed)) _ h₄ in
    let (done, e₆, h₆) = >>=-eq-ok (map_err KubeconfigError.io (writable primary)) _ h₅ in
    (
      primary,
      content,
      doc,
      changed,
      yaml,
      ok_or-some _ (first cfg.paths) primary e₁,
      map_err-eq-ok _ _ e₂,
      map_err-eq-ok _ _ e₃,
      ok_or-some _ (update_mapping (set_current cfg.raw.current_context) doc) changed e₄,
      map_err-eq-ok _ _ e₅,
      cc h₆,
    )

module _ (serde : Serde) (fs : FileSystem) (primary : FilePath) (yaml : Text) where
  -- The first file that is there after the write is the file written.
  first-write_file :
      (paths : List FilePath)
      → first (filter fs.exists paths) ≡ some primary
      → (p : FilePath) × (first (filter (write_file fs primary yaml).exists paths) ≡ some p)
        × (path_eq primary p ≡ true)
  unfolding write_file
  first-write_file [] h = cc
  first-write_file (p ∷ paths) h = elim (Bool-cases (path_eq primary p)) [
    | inl e ↦ (p, rw e refl, e)
    | inr e ↦ elim (Bool-cases (fs.exists p)) [
      | inl k ↦ (p, rw (e, k) refl, ground (arith, rw k at h, path_eq-IsKey.eq_refl p))
      | inr k ↦ rw (e, k) (first-write_file paths (rw k at h))
    ]
  ]

  read-write_file :
      (p : FilePath)
      → (write_file fs primary yaml).read_to_string p
        ≡ (if path_eq primary p then ok yaml else fs.read_to_string p)
  unfolding write_file
  read-write_file p = refl

  later :
      (b : Bool) (p : FilePath) (paths : List FilePath)
      → All (IsReadable serde fs) (if b then p ∷ paths else paths)
      → All (IsReadable serde fs) paths
  later true p paths h = h.1
  later false p paths h = h

  -- Every file stays readable.
  IsReadable-write_file :
      (paths : List FilePath) (raw : KubeConfigFile) (doc : Value)
      → serde.parse_config yaml ≡ ok raw
      → serde.parse_value yaml ≡ ok doc
      → All (IsReadable serde fs) (filter fs.exists paths)
      → All
          (IsReadable serde (write_file fs primary yaml))
          (filter (write_file fs primary yaml).exists paths)
  unfolding write_file
  IsReadable-write_file [] raw doc c v h = tt
  IsReadable-write_file (p ∷ paths) raw doc c v h = elim (Bool-cases (path_eq primary p)) [
    | inl e ↦ rw e (
      (yaml, raw, doc, rw e refl, c, v),
      IsReadable-write_file paths raw doc c v (later (fs.exists p) p (filter fs.exists paths) h),
    )
    | inr e ↦ elim (Bool-cases (fs.exists p)) [
      | inl k ↦
          let here : All (IsReadable serde fs) (p ∷ filter fs.exists paths) = rw k at h in
          let (content, raw', doc', r, c', v') = here.0 in
          rw (e, k)
            ((content, raw', doc', rw e r, c', v'), IsReadable-write_file paths raw doc c v here.1)
      | inr k ↦ rw (e, k) (IsReadable-write_file paths raw doc c v (rw k at h))
    ]
  ]

first-nonempty {ℓ} : {A : Type ℓ} (l : List A) (a : A) → first l ≡ some a → is_empty l ≡ false
first-nonempty [] a h = cc
first-nonempty (x ∷ l) a h = refl

pub first-All :
    (serde : Serde) (fs : FileSystem) (l : List FilePath) (p : FilePath)
    → first l ≡ some p
    → All (IsReadable serde fs) l
    → IsReadable serde fs p
first-All serde fs [] p h k = cc
first-All serde fs (x ∷ l) p h k = subst (IsReadable serde fs) (cc) k.0

-- The first file loaded decides the current context, if it names one.
current-Parsed :
    (serde : Serde) (fs : FileSystem) (paths : List FilePath) (files : List File) (p : FilePath)
    (content : Text) (f : KubeConfigFile) (name : Text)
    → Parsed serde fs paths files
    → first paths ≡ some p
    → fs.read_to_string p ≡ ok content
    → serde.parse_config content ≡ ok f
    → f.current_context ≡ some name
    → is_empty name ≡ false
    → current_of files ≡ some name
current-Parsed serde fs [] files p content f name h e r c k n = cc
current-Parsed serde fs (q ∷ paths) [] p content f name h e r c k n = absurd h
current-Parsed serde fs (q ∷ paths) (g ∷ files) p content f name h e r c k n =
    let same : g.1 ≡ f = cc (h.1.1, h.1.2) in
    let current : g.1.current_context ≡ some name =
      ap (λ (x : KubeConfigFile). x.current_context) same ∙ k in
    ground arith

pub reload :
    (serde : Serde) (fs : FileSystem) (paths : List FilePath) (primary : FilePath) (yaml : Text)
    (raw : KubeConfigFile) (doc : Value) (name : Text)
    → is_empty name ≡ false
    → first (existing serde fs paths) ≡ some primary
    → serde.parse_config yaml ≡ ok raw
    → raw.current_context ≡ some name
    → serde.parse_value yaml ≡ ok doc
    → All (IsReadable serde fs) (existing serde fs paths)
    → (cfg' : KubeConfig) × (load_from_paths serde (write_file fs primary yaml) paths ≡ ok cfg')
      × (current_context cfg' ≡ some name)
unfolding existing current_context
reload serde fs paths primary yaml raw doc name n e c k v readable =
    let fs' = write_file fs primary yaml in
    let (p, there, same) = first-write_file serde fs primary yaml paths e in
    let (cfg', loaded) = (load_from_paths_total serde fs' paths).1 (
      first-nonempty _ p there,
      IsReadable-write_file serde fs primary yaml paths raw doc c v readable,
    ) in
    let (files, parsed, d) = load_from_paths-Describes serde fs' paths cfg' loaded in
    (
      cfg',
      loaded,
      d.current
          ∙ current-Parsed serde fs' (filter fs'.exists paths) files p yaml raw name parsed there
              (rw (read-write_file serde fs primary yaml p, same) refl) c k n,
    )
