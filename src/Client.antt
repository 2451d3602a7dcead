-- ===== src/Client.antt =====
-- client.rs: the document that a client of a context is built from. kube-rs' reading and merging of
-- kubeconfig files are functions.
use cubelite.Prelude.{
  Bool, true, false, Option, none, some, List, [], ◌∷◌, ◌++◌, filter, if◌then◌else◌, is_empty,
  or_else, and_then,
}
use cubelite.Prelude.Results.{Result, ok, err, ◌>>=◌, map_err, ok_or}
use cubelite.Prelude.Texts.{Text, codes, text_eq}
use cubelite.Paths.{FilePath}
use cubelite.Kubeconfig.Types.{KubeconfigError}
pub mod Merged
mod Examples

-- `NamedContext`, `NamedCluster` and `NamedAuthInfo` of kube-rs: a name and a body
pub record Named (A : Type 0) : Type 0 where
  pub name : Text
  pub body : Option A

-- `Context` of kube-rs
pub record ContextBody : Type 0 where
  pub cluster : Text
  pub user : Option Text

-- `Kubeconfig` of kube-rs, over the bodies of clusters and of users
pub record Document (A B : Type 0) : Type 0 where
  pub current_context : Option Text
  pub contexts : List (Named ContextBody)
  pub clusters : List (Named A)
  pub auth_infos : List (Named B)

abbrev pub find_named : {A : Type 0} → Text → List (Named A) → Option (Named A)
find_named n [] = none
find_named n (x ∷ rest) =
    let later = find_named n rest in if text_eq x.name n then some x else later

abbrev pub overwrite : {A : Type 0} → Named A → Text → List (Named A) → List (Named A)
overwrite e n [] = []
overwrite e n (x ∷ rest) =
    let later = overwrite e n rest in if text_eq x.name n then e ∷ rest else x ∷ later

abbrev pub overwrite_with : {A : Type 0} → Option (Named A) → Text → List (Named A) → List (Named A)
overwrite_with none n merged = merged
overwrite_with (some e) n merged = overwrite e n merged

unfoldable pub replace_named :
    {A : Type 0} → List (Named A) → List (Named A) → Text → List (Named A)
unfolding text_eq
replace_named merged own n = overwrite_with (find_named n own) n merged

-- `", "` between the paths
abbrev pub listed : List FilePath → Text
listed [] = []
listed (p ∷ []) = p
listed (p ∷ (q ∷ rest)) = p ++ codes ", " ++ listed (q ∷ rest)

abbrev pub is_blank : Option Text → Bool
is_blank none = false
is_blank (some t) = is_empty t

module _ {A B : Type 0} where
  -- `current-context: ""` is unset.
  abbrev pub without_blank : Document A B → Document A B
  without_blank file = record file {
    current_context = if is_blank file.current_context then none else file.current_context;
  }

  abbrev pub defined_or :
      Option (Named ContextBody)
      → Document A B
      → Option (Document A B × Option ContextBody)
      → Option (Document A B × Option ContextBody)
  defined_or none file later = later
  defined_or (some c) file later = some (file, c.body)

  -- The first file that defines a context, with the context's body
  abbrev pub defining : Text → List (Document A B) → Option (Document A B × Option ContextBody)
  defining context [] = none
  defining context (file ∷ rest) =
      let later = defining context rest in defined_or (find_named context file.contexts) file later

  abbrev pub with_user : Option Text → Document A B → Document A B → Document A B
  with_user none own merged = merged
  with_user (some user) own merged = record merged {
    auth_infos = replace_named merged.auth_infos own.auth_infos user;
  }

  abbrev pub prefer : Option (Document A B × Option ContextBody) → Document A B → Document A B
  prefer none merged = merged
  prefer (some (own, none)) merged = merged
  prefer (some (own, some details)) merged =
      with_user details.user own
        (record merged { clusters = replace_named merged.clusters own.clusters details.cluster })

  unfoldable pub prefer_context_file_entries :
      Document A B → List (Document A B) → Text → Document A B
  unfolding replace_named text_eq
  prefer_context_file_entries merged files context = prefer (defining context files) merged

  abbrev pub prefer_target : Option Text → List (Document A B) → Document A B → Document A B
  prefer_target none files merged = merged
  prefer_target (some target) files merged = prefer_context_file_entries merged files target

  module _ (exists : FilePath → Bool) (read_from : FilePath → Result Text (Document A B))
      (merge : Document A B → Document A B → Result Text (Document A B)) where
    unfoldable pub read_files : List FilePath → Result KubeconfigError (List (Document A B))
    read_files [] = ok []
    read_files (path ∷ rest) = do
      file ← map_err (λ e. KubeconfigError.merge_error (path ++ codes ": " ++ e)) (read_from path)
      files ← read_files rest
      ok (without_blank file ∷ files)

    unfoldable pub merge_files :
        Document A B → List (Document A B) → Result KubeconfigError (Document A B)
    merge_files acc [] = ok acc
    merge_files acc (next ∷ rest) =
        map_err KubeconfigError.merge_error (merge acc next) >>= (λ m. merge_files m rest)

    abbrev pub merge_all :
        List FilePath → List (Document A B) → Result KubeconfigError (Document A B)
    merge_all paths [] = err (
        KubeconfigError.file_not_found
          (if is_empty paths then codes "(no kubeconfig paths provided)" else listed paths))
    merge_all paths (first ∷ rest) = merge_files first rest

    unfoldable pub merged_kubeconfig :
        List FilePath → Option Text → Result KubeconfigError (Document A B)
    unfolding read_files merge_files prefer_context_file_entries
    merged_kubeconfig paths context = do
      files ← read_files (filter exists paths)
      merged ← merge_all paths files
      ok (prefer_target (or_else context merged.current_context) files merged)
