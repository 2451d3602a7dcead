-- ===== src/Client/Merged.antt =====
-- client.rs: the cluster and the user of the context that a client is built for.
use cubelite.Prelude.{
  ◌≡◌, ◌⊎◌, inl, inr, refl, sym, ap, ◌∙◌, Bool, true, Option, none, some, List, [], ◌∷◌, filter,
  or_else, unwrap_or, and_then, Bool-cases,
}
use mathlib.Core.Path.{subst}
use cubelite.Prelude.Results.{Result, ok, map_err, >>=-eq-ok, map_err-eq-ok}
use mathlib.Core.List.{Memᴰ}
use cubelite.Prelude.Texts.{Text, text_eq}
use cubelite.Paths.{FilePath}
use cubelite.Kubeconfig.Types.{KubeconfigError}
use cubelite.Client.{
  Named, defined_or, ContextBody, Document, find_named, overwrite, overwrite_with, replace_named,
  defining, with_user, prefer_context_file_entries, read_files, merge_files, merge_all,
  merged_kubeconfig,
}

abbrev pub IsNamed : {C : Type 0} → Text → List (Named C) → Type 0
IsNamed n xs = (x : Named _) × (find_named n xs ≡ some x)

find_named-name :
    {C : Type 0} (n : Text) (xs : List (Named C)) {e : Named C}
    → find_named n xs ≡ some e
    → text_eq e.name n ≡ true
find_named-name n [] h = cc h
find_named-name n (x ∷ rest) {e} h = elim (Bool-cases (text_eq x.name n)) [
  | inl q ↦
      let k = rw q at h in
      let same : x ≡ e = cc k in ap (λ (y : Named _). text_eq y.name n) (sym same) ∙ q
  | inr q ↦ find_named-name n rest (rw q at h)
]

find_named-overwrite :
    {C : Type 0} (e : Named C) (n : Text) (xs : List (Named C))
    → text_eq e.name n ≡ true
    → IsNamed n xs
    → find_named n (overwrite e n xs) ≡ some e
find_named-overwrite e n [] named (x, h) = cc h
find_named-overwrite e n (x ∷ rest) named (y, h) = elim (Bool-cases (text_eq x.name n)) [
  | inl q ↦ rw (q, named) refl
  | inr q ↦ rw (q, q) (find_named-overwrite e n rest named (y, rw q at h))
]

find_named-replace_named :
    {C : Type 0} (merged own : List (Named C)) (n : Text)
    → ((e : Named C) → find_named n own ≡ some e → IsNamed n merged)
    → find_named n (replace_named merged own n) ≡ or_else (find_named n own) (find_named n merged)
unfolding replace_named
find_named-replace_named merged own n keeps = go (find_named n own) refl
  where
    go :
        (o : Option (Named _))
        → find_named n own ≡ o
        → find_named n (overwrite_with o n merged) ≡ or_else o (find_named n merged)
    go none q = refl
    go (some e) q = find_named-overwrite e n merged (find_named-name n own q) (keeps e q)

ok_value : {D : Type 0} {a b : D} → Path (Result KubeconfigError D) (ok a) (ok b) → a ≡ b
ok_value h = cc h

module _ {A B : Type 0} where
  defining-Mem :
      (context : Text) (files : List (Document A B)) {own : Document A B}
      {body : Option ContextBody}
      → defining context files ≡ some (own, body)
      → Memᴰ own files
  defining-Mem context [] h = cc h
  defining-Mem context (file ∷ rest) {own} {body} h =
      go (find_named context file.contexts) h (λ k. defining-Mem context rest k)
    where
      go :
          (o : Option (Named ContextBody))
          → defined_or o file (defining context rest) ≡ some (own, body)
          → (defining context rest ≡ some (own, body) → Memᴰ own rest)
          → Memᴰ own (file ∷ rest)
      go none k later = Memᴰ.tail (later k)
      go (some c) k later = Memᴰ.head (
          sym (
            ap (λ (o : Option (Document A B × Option ContextBody)). (unwrap_or o (file, none)).0)
              k))

  module _ {C : Type 0} (list : Document A B → List (Named C))
      (merge : Document A B → Document A B → Result Text (Document A B)) where
    -- A merge keeps the names of a list.
    abbrev pub KeepsNames : Type 0
    KeepsNames =
        (acc next out : Document A B)
        → merge acc next ≡ ok out
        → (n : Text) → IsNamed n (list acc) ⊎ IsNamed n (list next)
        → IsNamed n (list out)

    merge_files-IsNamed :
        (exists : FilePath → Bool) (read_from : FilePath → Result Text (Document A B))
        → KeepsNames
        → (acc : Document A B) (files : List (Document A B)) {out : Document A B}
        → merge_files exists read_from merge acc files ≡ ok out
        → (own : Document A B) → Memᴰ own (acc ∷ files)
        → (n : Text) → IsNamed n (list own)
        → IsNamed n (list out)
    unfolding merge_files
    merge_files-IsNamed exists read_from keeps acc [] h own (Memᴰ.head e) n i =
        subst (λ (d : Document A B). IsNamed n (list d)) (e ∙ ok_value h) i
    merge_files-IsNamed exists read_from keeps acc [] h own (Memᴰ.tail none_left) n i =
        elim none_left [ ]
    merge_files-IsNamed exists read_from keeps acc (next ∷ rest) h own m n i =
        let (both, e, k) = >>=-eq-ok (map_err KubeconfigError.merge_error (merge acc next)) _ h in
        let merged = map_err-eq-ok KubeconfigError.merge_error (merge acc next) e in
        let named = keeps acc next both merged n in
        elim m [
          | Memᴰ.head s ↦
              merge_files-IsNamed exists read_from keeps both rest k both (Memᴰ.head refl) n
                (named (inl (subst (λ (d : Document A B). IsNamed n (list d)) s i)))
          | Memᴰ.tail (Memᴰ.head s) ↦
              merge_files-IsNamed exists read_from keeps both rest k both (Memᴰ.head refl) n
                (named (inr (subst (λ (d : Document A B). IsNamed n (list d)) s i)))
          | Memᴰ.tail (Memᴰ.tail later) ↦
              merge_files-IsNamed exists read_from keeps both rest k own (Memᴰ.tail later) n i
        ]

  with_user-clusters :
      (user : Option Text) (own merged : Document A B)
      → (with_user user own merged).clusters ≡ merged.clusters
  with_user-clusters none own merged = refl
  with_user-clusters (some u) own merged = refl

  with_user-auth_infos :
      (user : Option Text) (own merged : Document A B)
      → ((u : Text) → IsNamed u own.auth_infos → IsNamed u merged.auth_infos)
      → and_then user (λ u. find_named u (with_user user own merged).auth_infos)
        ≡ and_then user
            (λ u. or_else (find_named u own.auth_infos) (find_named u merged.auth_infos))
  with_user-auth_infos none own merged keeps = refl
  with_user-auth_infos (some u) own merged keeps =
      find_named-replace_named merged.auth_infos own.auth_infos u (λ e q. keeps u (e, q))

  merge_all-IsNamed :
      {C : Type 0} (list : Document A B → List (Named C)) (exists : FilePath → Bool)
      (read_from : FilePath → Result Text (Document A B))
      (merge : Document A B → Document A B → Result Text (Document A B))
      → KeepsNames list merge
      → (paths : List FilePath) (files : List (Document A B)) {out : Document A B}
      → merge_all exists read_from merge paths files ≡ ok out
      → (own : Document A B) → Memᴰ own files
      → (n : Text) → IsNamed n (list own)
      → IsNamed n (list out)
  merge_all-IsNamed list exists read_from merge keeps paths [] h own m n i = cc h
  merge_all-IsNamed list exists read_from merge keeps paths (first ∷ rest) h own m n i =
      merge_files-IsNamed list merge exists read_from keeps first rest h own m n i

  -- If merging keeps the names of clusters and of users, the document that a client is built from
  -- has, under the names that its context refers to, the cluster and the user of the first file
  -- that defines the context, and the merged ones where that file has none, so that an entry of the
  -- same name in another file does not redirect the context.
  pub merged_kubeconfig-own :
      (exists : FilePath → Bool) (read_from : FilePath → Result Text (Document A B))
      (merge : Document A B → Document A B → Result Text (Document A B))
      → KeepsNames (λ d. d.clusters) merge
      → KeepsNames (λ d. d.auth_infos) merge
      → (paths : List FilePath) (context : Option Text) {cfg merged own : Document A B}
        {files : List (Document A B)} {target : Text} {details : ContextBody}
      → merged_kubeconfig exists read_from merge paths context ≡ ok cfg
      → read_files exists read_from merge (filter exists paths) ≡ ok files
      → merge_all exists read_from merge paths files ≡ ok merged
      → or_else context merged.current_context ≡ some target
      → defining target files ≡ some (own, some details)
      → (find_named details.cluster cfg.clusters
          ≡ or_else
              (find_named details.cluster own.clusters)
              (find_named details.cluster merged.clusters))
        × (and_then details.user (λ u. find_named u cfg.auth_infos)
            ≡ and_then details.user
                (λ u. or_else (find_named u own.auth_infos) (find_named u merged.auth_infos)))
  unfolding merged_kubeconfig prefer_context_file_entries
  merged_kubeconfig-own exists read_from merge kc ku paths context {cfg} {merged} {own} {files}
        {target} {details} h r m t d =
      let k = rw (r, m, t, d) at h in
      let replaced : Document A B = record merged {
        clusters = replace_named merged.clusters own.clusters details.cluster;
      } in
      let same : with_user details.user own replaced ≡ cfg = ok_value k in
      let own_listed = defining-Mem target files d in
      (
        ap (λ (c : Document A B). find_named details.cluster c.clusters) (sym same)
            ∙ ap (λ cs. find_named details.cluster cs)
                (with_user-clusters details.user own replaced)
            ∙ find_named-replace_named merged.clusters own.clusters details.cluster (λ e q.
              merge_all-IsNamed (λ c. c.clusters) exists read_from merge kc paths files m own
                own_listed details.cluster (e, q)),
        ap (λ (c : Document A B). and_then details.user (λ u. find_named u c.auth_infos)) (sym same)
            ∙ with_user-auth_infos details.user own replaced (λ u i.
              merge_all-IsNamed (λ c. c.auth_infos) exists read_from merge ku paths files m own
                own_listed u i),
      )
