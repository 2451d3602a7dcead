-- ===== src/Kubeconfig/Examples.antt =====
-- kubeconfig.rs: the theorems at two small files, with a codec of one-key documents.
use cubelite.Prelude.{
  ◌≡◌, refl, Bool, true, false, none, some, List, [], ◌∷◌, arith, if◌then◌else◌, is_empty, is_some,
  All, ◌↔◌, map, map_option, ◌++◌, ◌&&◌,
}
use mathlib.Core.List.{Memᴰ}
use cubelite.Prelude.Sort.{IsSorted}
use cubelite.Prelude.Results.{Result, ok, err}
use cubelite.Prelude.Texts.{Text, codes, text_eq, trim}
use cubelite.Paths.{FilePath, path_eq, path_eq-IsKey}
use cubelite.Kubeconfig.Types.{empty_file, KubeconfigError}
use cubelite.Kubeconfig.Yaml.{as_str, get}
use cubelite.Kubeconfig.Redefined.{SeenEntries, contains, earlier_entries, note_redefinitions}
use cubelite.Kubeconfig.Merge.{
  FileSystem, KubeConfig, existing, listed, load_file, merge_file, load_from_paths,
}
use cubelite.Kubeconfig.Access.{
  get_context, list_contexts, current_context, set_active_context, insert_field, write_file, save,
  resolved_spec, split_kubeconfig_spec,
}
use cubelite.Kubeconfig.Resolve.{System, path_cmp, discover_kubeconfig_files}
use cubelite.Kubeconfig.Loaded.{File, Parsed}
use cubelite.Kubeconfig.FirstWins.{IsDistinct}
use cubelite.Kubeconfig.Resolution.{
  Describes, ReadsAgree, context_in, load_from_paths-Describes, load_from_paths-get_context,
}
use cubelite.Kubeconfig.Redefinitions.{note_redefinitions-exact, reported, bodies_of}
use cubelite.Kubeconfig.Switch.{switched, activate, set_active_context-listed}
use cubelite.Kubeconfig.Total.{IsReadable, load_from_paths_total, load_from_paths_missing}
use cubelite.Kubeconfig.Persist.{save_persists}
use cubelite.Kubeconfig.Discovery.{
  entries_of, IsFound, discover_kubeconfig_files-exact, split_kubeconfig_spec-resolved_spec,
}
use cubelite.Kubeconfig.Codec.{codec, codec-IsFaithful, codec-HasPlainKeys}

abbrev no_files : FileSystem
no_files = record { exists = λ p. false; read_to_string = λ p. err (codes "No such file") }

-- `/a` says dev, `/b` says prod.
abbrev two_files : FileSystem
two_files = write_file (write_file no_files (codes "/b") (codes "prod")) (codes "/a") (codes "dev")

write_file-ReadsAgree :
    (fs : FileSystem) (path : FilePath) (content : Text)
    → ReadsAgree fs
    → ReadsAgree (write_file fs path content)
unfolding write_file
write_file-ReadsAgree fs path content agree p q h = ground (
  arith,
  agree p q h,
  path_eq-IsKey.eq_trans path p q,
  path_eq-IsKey.eq_trans path q p,
  path_eq-IsKey.eq_symm p q,
)

two_files-ReadsAgree : ReadsAgree two_files
two_files-ReadsAgree =
    write_file-ReadsAgree (write_file no_files (codes "/b") (codes "prod")) (codes "/a")
      (codes "dev") (write_file-ReadsAgree no_files (codes "/b") (codes "prod") (λ p q h. refl))

abbrev requested : List FilePath
requested = codes "/missing" ∷ codes "/b" ∷ codes "/a" ∷ []

abbrev config_of : Result KubeconfigError KubeConfig → KubeConfig
config_of (ok cfg) = cfg
config_of (err e) = record {
  raw = empty_file;
  paths = [];
  requested = [];
  context_sources = [];
  shadowed = [];
  file_clusters = [];
  redefined = [];
}

abbrev loaded : KubeConfig
loaded = config_of (load_from_paths codec two_files requested)

loaded-ok : load_from_paths codec two_files requested ≡ ok loaded
unfolding load_from_paths load_file merge_file text_eq trim write_file path_eq get insert_field
    as_str
loaded-ok = refl

load_from_paths-get_context_example :
    (files : List File) × Parsed codec two_files (existing codec two_files requested) files
    × ((n : Text) → get_context loaded n ≡ context_in files n)
load_from_paths-get_context_example =
    load_from_paths-get_context codec two_files requested loaded two_files-ReadsAgree loaded-ok

load_from_paths-Describes_example :
    (files : List File) × Parsed codec two_files (existing codec two_files requested) files
    × Describes files loaded
load_from_paths-Describes_example =
    load_from_paths-Describes codec two_files requested loaded loaded-ok

load_from_paths_total_example :
    ((cfg : KubeConfig) × (load_from_paths codec two_files requested ≡ ok cfg)) ↔ (
      (is_empty (existing codec two_files requested) ≡ false)
      × All (IsReadable codec two_files) (existing codec two_files requested))
load_from_paths_total_example = load_from_paths_total codec two_files requested

load_from_paths_missing_example :
    load_from_paths codec no_files requested
    ≡ err (
        KubeconfigError.file_not_found (
          if is_empty (listed codec no_files requested)
          then codes "(no kubeconfig paths provided)"
          else listed codec no_files requested))
unfolding existing
load_from_paths_missing_example = load_from_paths_missing codec no_files requested refl

dev-listed : is_some (get_context loaded (codes "dev")) ≡ true
unfolding load_from_paths load_file merge_file text_eq trim write_file path_eq get insert_field
    as_str get_context
dev-listed = refl

save_persists_example :
    (cfg : KubeConfig) × (load_from_paths codec
        (write_file two_files (codes "/b") (codes "dev"))
        requested
      ≡ ok cfg)
    × (current_context cfg ≡ some (codes "dev"))
unfolding load_from_paths load_file merge_file text_eq trim write_file path_eq get insert_field
    as_str save set_active_context
save_persists_example =
    save_persists codec (λ p. ok tt) two_files (write_file two_files (codes "/b") (codes "dev"))
      requested loaded (codes "dev") codec-IsFaithful (codec-HasPlainKeys two_files) loaded-ok
      dev-listed refl refl

set_active_context-listed_example :
    ((set_active_context loaded (codes "dev")).0 ≡ ok tt)
    × (current_context (switched loaded (codes "dev")) ≡ some (codes "dev"))
    × (list_contexts (switched loaded (codes "dev"))
        ≡ map (activate (codes "dev")) (list_contexts loaded))
    × ((n : Text)
        → get_context (switched loaded (codes "dev")) n
          ≡ map_option (activate (codes "dev")) (get_context loaded n))
set_active_context-listed_example = set_active_context-listed loaded (codes "dev") dev-listed

-- `east` stands in another file with another body.
abbrev seen_east : SeenEntries Bool
seen_east = (codes "east", (codes "/a", true) ∷ []) ∷ []

abbrev entries_b : List (Text × Bool)
entries_b = (codes "east", false) ∷ (codes "west", true) ∷ []

note_redefinitions-exact_example :
    ((n : Text)
      → contains (note_redefinitions (λ a b. a && b) seen_east (codes "/b") entries_b).1 n
        ≡ reported (λ a b. a && b) seen_east (codes "/b") entries_b n)
    × IsDistinct (λ x. x) (note_redefinitions (λ a b. a && b) seen_east (codes "/b") entries_b).1
    × ((n : Text)
        → earlier_entries (note_redefinitions (λ a b. a && b) seen_east (codes "/b") entries_b).0 n
          ≡ earlier_entries seen_east n ++ bodies_of (codes "/b") entries_b n)
note_redefinitions-exact_example =
    note_redefinitions-exact (λ a b. a && b) seen_east (codes "/b") entries_b

split_kubeconfig_spec-resolved_spec_example :
    split_kubeconfig_spec (resolved_spec loaded) ≡ loaded.paths
unfolding load_from_paths load_file merge_file text_eq trim write_file path_eq get insert_field
    as_str split_kubeconfig_spec resolved_spec
split_kubeconfig_spec-resolved_spec_example =
    split_kubeconfig_spec-resolved_spec loaded refl refl refl refl

-- A directory with both files, an unreadable entry and a file that is not there.
abbrev machine : System
machine = record {
  serde = codec;
  fs = two_files;
  writable = λ p. ok tt;
  kubeconfig_var = none;
  home_dir = some (codes "/");
  read_dir =
      λ p. some (some (codes "/b") ∷ none ∷ some (codes "/missing") ∷ some (codes "/a") ∷ []);
  metadata = λ p. some (true, 10);
  parse_kind = λ content. some (some (codes "Config"));
}

discover_kubeconfig_files-exact_example :
    IsSorted path_cmp (discover_kubeconfig_files machine (codes "/") (codes "/b"))
    × ((p : FilePath)
        → Memᴰ p (discover_kubeconfig_files machine (codes "/") (codes "/b"))
          ↔ (Memᴰ p (entries_of (machine.read_dir (codes "/"))) × IsFound machine (codes "/b") p))
discover_kubeconfig_files-exact_example =
    discover_kubeconfig_files-exact machine (codes "/") (codes "/b")
