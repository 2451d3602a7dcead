-- ===== src/Context/Examples.antt =====
-- context.rs: a switch over two small files, with a codec of one-key documents.
use cubelite.Prelude.{◌≡◌, refl, false, none, some}
use cubelite.Prelude.Results.{ok, err}
use cubelite.Prelude.Texts.{codes, text_eq, trim}
use cubelite.Paths.{path_eq}
use cubelite.Kubeconfig.Yaml.{as_str, get}
use cubelite.Kubeconfig.Merge.{FileSystem, load_file, merge_file, load_from_paths}
use cubelite.Kubeconfig.Access.{
  set_active_context, insert_field, write_file, save, split_kubeconfig_spec, get_context,
}
use cubelite.Kubeconfig.Resolve.{System, load_from_spec}
use cubelite.Kubeconfig.Codec.{codec, codec-IsFaithful, codec-HasPlainKeys}
use cubelite.Context.{load_spec, current_context_in, set_active_context_in}
use cubelite.Context.Persist.{set_active_context_in-current_context_in}

abbrev no_files : FileSystem
no_files = record { exists = λ p. false; read_to_string = λ p. err (codes "No such file") }

-- `/a` says dev, `/b` says prod.
abbrev two_files : FileSystem
two_files = write_file (write_file no_files (codes "/b") (codes "prod")) (codes "/a") (codes "dev")

abbrev machine : System
machine = record {
  serde = codec;
  fs = two_files;
  writable = λ p. ok tt;
  kubeconfig_var = none;
  home_dir = none;
  read_dir = λ p. none;
  metadata = λ p. none;
  parse_kind = λ content. none;
}

-- `/b` is where the switch to dev is written.
abbrev switched_files : FileSystem
switched_files = write_file two_files (codes "/b") (codes "dev")

written : set_active_context_in machine (some (codes "/b:/a")) (codes "dev") ≡ ok switched_files
unfolding set_active_context_in load_spec load_from_spec load_from_paths load_file merge_file
    text_eq trim write_file path_eq get insert_field as_str save set_active_context
    split_kubeconfig_spec get_context
written = refl

set_active_context_in-current_context_in_example :
    current_context_in (record machine { fs = switched_files }) (some (codes "/b:/a"))
    ≡ ok (some (codes "dev"))
unfolding split_kubeconfig_spec trim
set_active_context_in-current_context_in_example =
    set_active_context_in-current_context_in machine (codes "/b:/a") (codes "dev") switched_files
      codec-IsFaithful (codec-HasPlainKeys two_files) refl refl written
