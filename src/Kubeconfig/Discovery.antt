-- ===== src/Kubeconfig/Discovery.antt =====
-- kubeconfig.rs: the discovered files, and the path list that is handed on as a spec.
use mathlib.Core.List.{Memᴰ}
use mathlib.Core.Path.{subst}
use cubelite.Prelude.{
  ℕ, ◌≡◌, ◌≢◌, ◌≤◌, ◌↔◌, ◌⊎◌, inl, inr, refl, ap, ◌∙◌, Bool, true, false, ◌&&◌, Option, none, some,
  List, [], ◌∷◌, arith, is_empty, filter, filter_map, if◌then◌else◌, not, any, first, Bool-cases,
  Option-cases, ◌==◌,
}
use cubelite.Prelude.Order.{
  IsOrder, compare-IsOrder, text_cmp-IsOrder, list_cmp-IsOrder, key-IsOrder, then_with-IsOrder,
}
use cubelite.Prelude.Members.{Mem-filter, filter-Mem, Mem-sort_by, sort_by-Mem}
use cubelite.Prelude.Sort.{sort_by, IsSorted, sort_by-IsSorted}
use cubelite.Prelude.Texts.{Text, codes, text_eq_iff, trim}
use cubelite.Prelude.Results.{Result, ok, err}
use cubelite.Kubeconfig.Types.{KubeConfigFile}
use cubelite.Paths.{FilePath, path_eq, split, split-plain, split-append}
use cubelite.Kubeconfig.Merge.{KubeConfig}
use cubelite.Kubeconfig.Access.{join_paths, has_separator, resolved_spec, split_kubeconfig_spec}
use cubelite.Kubeconfig.Resolve.{
  System, fits, is_regular, is_config, ok_text, is_kubeconfig_content, is_kubeconfig_file,
  file_name, is_visible, component_cmp, path_keys, path_cmp, is_discovered,
  discover_kubeconfig_files,
}

component_cmp-IsOrder : IsOrder component_cmp
component_cmp-IsOrder =
    then_with-IsOrder (key-IsOrder (λ (c : ℕ × Text). c.0) compare-IsOrder)
      (key-IsOrder (λ (c : ℕ × Text). c.1) text_cmp-IsOrder)

pub path_cmp-IsOrder : IsOrder path_cmp
unfolding path_cmp
path_cmp-IsOrder = key-IsOrder path_keys (list_cmp-IsOrder component_cmp component_cmp-IsOrder)

-- The entries that a directory was read to hold.
abbrev pub entries_of : Option (List (Option FilePath)) → List FilePath
entries_of none = []
entries_of (some entries) = filter_map (λ e. e) entries

-- A document of kind Config, or of no kind and with an entry
abbrev pub IsConfig : Option Text → KubeConfigFile → Type 0
IsConfig kind config =
    (kind ≡ some (codes "Config"))
    ⊎ ((kind ≡ none)
        × ((is_empty config.clusters ≡ false)
            ⊎ ((is_empty config.contexts ≡ false) ⊎ (is_empty config.users ≡ false))))

-- A file that can be read and parsed as a kubeconfig
abbrev pub IsConfigFile : System → FilePath → Type 0
IsConfigFile sys p =
    (content : Text) × (kind : Option Text) × (config : KubeConfigFile) × (sys.fs.read_to_string p
      ≡ ok content)
    × (sys.parse_kind content ≡ some kind)
    × (sys.serde.parse_config content ≡ ok config)
    × IsConfig kind config

-- A file that a directory is searched for: not the excluded one, not hidden, regular, of at most
-- 16 MiB, and a kubeconfig.
abbrev pub IsFound : System → FilePath → FilePath → Type 0
IsFound sys excluding p =
    (path_eq p excluding ≡ false)
    × ((name : Text) × (file_name p ≡ some name) × (first name ≢ some 46))
    × ((size : ℕ) × (sys.metadata p ≡ some (true, size)) × (size ≤ 16777216))
    × IsConfigFile sys p

module _ (sys : System) (p : FilePath) where
  is_visible_iff :
      (is_visible p ≡ true) ↔ ((name : Text) × (file_name p ≡ some name) × (first name ≢ some 46))
  unfolding is_visible
  is_visible_iff = elim (Option-cases (file_name p)) [
    | inl e ↦ (λ h. let k = rw (is_visible, e) at h in cc k, λ (name, f, n). cc (e, f))
    | inr (name, e) ↦ (
      λ h. (name, e, shown name (rw (is_visible, e) at h)),
      λ (other, f, n).
          let same : other ≡ name = cc (e, f) in
          rw (is_visible, e) (seen name (subst (λ t. first t ≢ some 46) same n)),
    )
  ]
    where
      shown :
          (name : Text)
          → elim (first name) [ none ↦ true | some c ↦ not (c == 46) ] ≡ true
          → first name ≢ some 46
      shown [] h e = cc e
      shown (c ∷ name) h e = ground arith

      seen :
          (name : Text)
          → first name ≢ some 46
          → elim (first name) [ none ↦ true | some c ↦ not (c == 46) ] ≡ true
      seen [] h = refl
      seen (c ∷ name) h = elim (Bool-cases (c == 46)) [
        | inl e ↦ let same : c ≡ 46 = ground arith in absurd (h (ap some same))
        | inr e ↦ rw e refl
      ]

  is_config_iff :
      (kind : Option Text) (config : KubeConfigFile)
      → (is_config kind config ≡ true) ↔ IsConfig kind config
  unfolding is_config
  is_config_iff none config = (
    λ h. inr (
      refl,
      entry (is_empty config.clusters) (is_empty config.contexts) (is_empty config.users) h,
    ),
    λ h. some_entry (is_empty config.clusters) (is_empty config.contexts) (is_empty config.users) h,
  )
    where
      entry : (a b c : Bool) → not (a && b && c) ≡ true → (a ≡ false) ⊎ ((b ≡ false) ⊎ (c ≡ false))
      entry false b c h = inl refl
      entry true false c h = inr (inl refl)
      entry true true false h = inr (inr refl)
      entry true true true h = cc h

      some_entry :
          (a b c : Bool)
          → (Path (Option Text) none (some (codes "Config")))
            ⊎ (Path (Option Text) none none × ((a ≡ false) ⊎ ((b ≡ false) ⊎ (c ≡ false))))
          → not (a && b && c) ≡ true
      some_entry false b c h = refl
      some_entry true false c h = refl
      some_entry true true false h = refl
      some_entry true true true (inl h) = cc h
      some_entry true true true (inr (h, inl k)) = cc k
      some_entry true true true (inr (h, inr (inl k))) = cc k
      some_entry true true true (inr (h, inr (inr k))) = cc k
  is_config_iff (some kind) config = (
    λ h. inl (ap some ((text_eq_iff kind (codes "Config")).0 h)),
    λ h. elim h [ inl e ↦ (text_eq_iff kind (codes "Config")).1 (cc e) | inr (e, k) ↦ cc e ],
  )

  is_content :
      (content : Text)
      → sys.fs.read_to_string p ≡ ok content
      → is_kubeconfig_content sys content ≡ true
      → IsConfigFile sys p
  unfolding is_kubeconfig_content
  is_content content r h = parsed (sys.parse_kind content) refl h
    where
      typed :
          (kind : Option Text)
          → sys.parse_kind content ≡ some kind
          → (c : Result Text KubeConfigFile) → sys.serde.parse_config content ≡ c
          → elim c [ err e ↦ false | ok config ↦ is_config kind config ] ≡ true
          → IsConfigFile sys p
      typed kind e (err t) f k = cc k
      typed kind e (ok config) f k =
          (content, kind, config, r, e, f, (is_config_iff kind config).0 k)

      parsed :
          (o : Option (Option Text))
          → sys.parse_kind content ≡ o
          → elim o [
            | none ↦ false
            | some kind ↦ elim (sys.serde.parse_config content) [
              | err e ↦ false
              | ok config ↦ is_config kind config
            ]
          ]
            ≡ true
          → IsConfigFile sys p
      parsed none e k = cc k
      parsed (some kind) e k = typed kind e (sys.serde.parse_config content) refl k

  is_kubeconfig_file_iff :
      (is_kubeconfig_file sys p ≡ true) ↔ ((fits (sys.metadata p) ≡ true) × IsConfigFile sys p)
  unfolding is_kubeconfig_file is_kubeconfig_content ok_text
  is_kubeconfig_file_iff = (
    λ h. elim (Bool-cases (fits (sys.metadata p))) [
      | inl e ↦ (e, from (sys.fs.read_to_string p) refl (rw e at h))
      | inr e ↦ let k = rw e at h in cc k
    ],
    λ (f, (content, kind, config, r, k, c, i)).
        rw (f, r, is_kubeconfig_content, k, c) ((is_config_iff kind config).1 i),
  )
    where
      from :
          (r : Result Text Text)
          → sys.fs.read_to_string p ≡ r
          → elim (ok_text r) [ none ↦ false | some content ↦ is_kubeconfig_content sys content ]
            ≡ true
          → IsConfigFile sys p
      from (err e) f k = cc k
      from (ok content) f k = is_content content f k

  is_sized_iff :
      ((is_regular (sys.metadata p) ≡ true) × (fits (sys.metadata p) ≡ true))
      ↔ ((size : ℕ) × (sys.metadata p ≡ some (true, size)) × (size ≤ 16777216))
  unfolding is_regular fits
  is_sized_iff = (λ (r, f). to (sys.metadata p) refl r f, λ (size, e, l). rw e (refl, ground arith))
    where
      to :
          (o : Option (Bool × ℕ))
          → sys.metadata p ≡ o
          → is_regular o ≡ true
          → fits o ≡ true
          → (size : ℕ) × (sys.metadata p ≡ some (true, size)) × (size ≤ 16777216)
      to none e r f = cc r
      to (some (false, size)) e r f = cc r
      to (some (true, size)) e r f = (size, e, ground arith)

  is_discovered-IsFound :
      (excluding : FilePath) → (is_discovered sys excluding p ≡ true) ↔ IsFound sys excluding p
  unfolding is_discovered
  is_discovered-IsFound excluding = (
    λ h.
        let (f, config) = is_kubeconfig_file_iff.0 (ground arith) in
        (ground arith, is_visible_iff.0 (ground arith), is_sized_iff.0 (ground arith, f), config),
    λ (e, v, s, config).
        let (r, f) = is_sized_iff.1 s in
        rw (e, is_visible_iff.1 v, r, is_kubeconfig_file_iff.1 (f, config)) refl,
  )

-- The discovered files are sorted by path, and are those entries of the directory that are not the
-- excluded file, have a name that does not start with a dot, are regular, of at most 16 MiB, and
-- can be read and parsed as a kubeconfig, of kind Config, or of no kind and with a cluster, a
-- context or a user.
pub discover_kubeconfig_files-exact :
    (sys : System) (dir excluding : FilePath)
    → IsSorted path_cmp (discover_kubeconfig_files sys dir excluding)
      × ((p : FilePath)
          → Memᴰ p (discover_kubeconfig_files sys dir excluding)
            ↔ (Memᴰ p (entries_of (sys.read_dir dir)) × IsFound sys excluding p))
unfolding discover_kubeconfig_files
discover_kubeconfig_files-exact sys dir excluding = go (sys.read_dir dir)
  where
    shown : List (Option FilePath) → List FilePath
    shown entries =
        sort_by path_cmp (filter (is_discovered sys excluding) (filter_map (λ e. e) entries))

    go :
        (o : Option (List (Option FilePath)))
        → IsSorted path_cmp (elim o [ none ↦ [] | some entries ↦ shown entries ])
          × ((p : FilePath)
              → Memᴰ p (elim o [ none ↦ [] | some entries ↦ shown entries ])
                ↔ (Memᴰ p (entries_of o) × IsFound sys excluding p))
    go none = (tt, λ p. (λ m. elim m [ ], λ (m, f). elim m [ ]))
    go (some entries) = (
      sort_by-IsSorted path_cmp-IsOrder _,
      λ p. (
        λ m.
            let (found, there) =
              Mem-filter (is_discovered sys excluding) _ (sort_by-Mem path_cmp _ m) in
            (there, (is_discovered-IsFound sys p excluding).0 found),
        λ (m, f). Mem-sort_by path_cmp _ (
            filter-Mem (is_discovered sys excluding) _ ((is_discovered-IsFound sys p excluding).1 f)
              m),
      ),
    )

split-join_paths :
    (p : FilePath) (paths : List FilePath)
    → any has_separator (p ∷ paths) ≡ false
    → split 58 (join_paths (p ∷ paths)) ≡ p ∷ paths
unfolding join_paths has_separator
split-join_paths p [] h = split-plain 58 p (ground arith)
split-join_paths p (q ∷ paths) h =
    split-append 58 p (join_paths (q ∷ paths)) (ground arith)
    ∙ ap (λ l. p ∷ l) (split-join_paths q paths (ground arith))

filter_all :
    (paths : List FilePath)
    → any is_empty paths ≡ false
    → filter (λ p. not (is_empty p)) paths ≡ paths
filter_all [] h = refl
filter_all (p ∷ paths) h = rw (filter_all paths (ground arith)) (ground arith)

join_paths-nonempty :
    (p : FilePath) (paths : List FilePath)
    → is_empty p ≡ false
    → is_empty (join_paths (p ∷ paths)) ≡ false
unfolding join_paths
join_paths-nonempty [] paths h = cc
join_paths-nonempty (c ∷ p) [] h = refl
join_paths-nonempty (c ∷ p) (q ∷ paths) h = refl

-- The resolved list, read as a spec, names the loaded files again, if there is one, none is empty
-- or holds the separator, and no blank stands at the list's ends.
pub split_kubeconfig_spec-resolved_spec :
    (cfg : KubeConfig)
    → is_empty cfg.paths ≡ false
    → any is_empty cfg.paths ≡ false
    → any has_separator cfg.paths ≡ false
    → trim (join_paths cfg.paths) ≡ join_paths cfg.paths
    → split_kubeconfig_spec (resolved_spec cfg) ≡ cfg.paths
unfolding resolved_spec split_kubeconfig_spec
split_kubeconfig_spec-resolved_spec cfg e f g t = rw (g, t) (go cfg.paths e f g)
  where
    go :
        (paths : List FilePath)
        → is_empty paths ≡ false
        → any is_empty paths ≡ false
        → any has_separator paths ≡ false
        → (if is_empty (join_paths paths)
            then []
            else filter (λ p. not (is_empty p)) (split 58 (join_paths paths)))
          ≡ paths
    go [] e f g = cc
    go (p ∷ paths) e f g =
        rw (join_paths-nonempty p paths (ground arith), split-join_paths p paths g)
          (filter_all (p ∷ paths) f)
