-- ===== src/Client/Examples.antt =====
-- client.rs: the theorem at two files of which the first has a stale cluster of the context's name.
use cubelite.Prelude.{
  ℕ, ◌≡◌, refl, Bool, true, none, some, List, [], ◌∷◌, ◌++◌, or_else, ◌⊎◌, inl, inr, if◌then◌else◌,
  Bool-cases,
}
use mathlib.Core.Path.{subst}
use cubelite.Prelude.Results.{Result, ok}
use cubelite.Prelude.Texts.{Text, codes, text_eq}
use cubelite.Paths.{FilePath}
use cubelite.Client.{
  Named, ContextBody, Document, find_named, replace_named, read_files, merge_files,
  prefer_context_file_entries, merged_kubeconfig,
}
use cubelite.Client.Merged.{IsNamed, KeepsNames, merged_kubeconfig-own}

abbrev details : ContextBody
details = record { cluster = codes "dev"; user = some (codes "me") }

abbrev dev : Named ℕ
dev = record { name = codes "dev"; body = some 2 }

abbrev me : Named ℕ
me = record { name = codes "me"; body = some 3 }

abbrev stale : Document ℕ ℕ
stale = record {
  current_context = none;
  contexts = [];
  clusters = record { name = codes "dev"; body = some 1 } ∷ [];
  auth_infos = [];
}

abbrev own : Document ℕ ℕ
own = record {
  current_context = some (codes "work");
  contexts = record { name = codes "work"; body = some details } ∷ [];
  clusters = dev ∷ [];
  auth_infos = me ∷ [];
}

-- The entries of the first document, then the others'
abbrev merge : Document ℕ ℕ → Document ℕ ℕ → Result Text (Document ℕ ℕ)
merge a b = ok (record {
  current_context = or_else a.current_context b.current_context;
  contexts = a.contexts ++ b.contexts;
  clusters = a.clusters ++ b.clusters;
  auth_infos = a.auth_infos ++ b.auth_infos;
})

abbrev read_from : FilePath → Result Text (Document ℕ ℕ)
read_from path = if text_eq path (codes "a") then ok stale else ok own

abbrev exists : FilePath → Bool
exists path = true

abbrev paths : List FilePath
paths = codes "a" ∷ codes "b" ∷ []

append-IsNamed :
    (n : Text) (xs ys : List (Named ℕ)) → IsNamed n xs ⊎ IsNamed n ys → IsNamed n (xs ++ ys)
append-IsNamed n [] ys (inl (x, h)) = cc h
append-IsNamed n [] ys (inr i) = i
append-IsNamed n (x ∷ xs) ys (inl (y, h)) = elim (Bool-cases (text_eq x.name n)) [
  | inl q ↦ (x, rw q refl)
  | inr q ↦ rw q (append-IsNamed n xs ys (inl (y, rw q at h)))
]
append-IsNamed n (x ∷ xs) ys (inr i) = elim (Bool-cases (text_eq x.name n)) [
  | inl q ↦ (x, rw q refl)
  | inr q ↦ rw q (append-IsNamed n xs ys (inr i))
]

merged_value : {a b : Document ℕ ℕ} → Path (Result Text (Document ℕ ℕ)) (ok a) (ok b) → a ≡ b
merged_value h = cc h

keeps_clusters : KeepsNames (λ (d : Document ℕ ℕ). d.clusters) merge
keeps_clusters acc next out h n i =
    subst (λ (d : Document ℕ ℕ). IsNamed n d.clusters) (merged_value h)
      (append-IsNamed n acc.clusters next.clusters i)

keeps_users : KeepsNames (λ (d : Document ℕ ℕ). d.auth_infos) merge
keeps_users acc next out h n i =
    subst (λ (d : Document ℕ ℕ). IsNamed n d.auth_infos) (merged_value h)
      (append-IsNamed n acc.auth_infos next.auth_infos i)

-- The two documents, merged, with the stale cluster first
abbrev merged_document : Document ℕ ℕ
merged_document = record {
  current_context = some (codes "work");
  contexts = own.contexts;
  clusters = record { name = codes "dev"; body = some 1 } ∷ dev ∷ [];
  auth_infos = own.auth_infos;
}

abbrev client_document : Document ℕ ℕ
client_document = record {
  current_context = some (codes "work");
  contexts = own.contexts;
  clusters = dev ∷ dev ∷ [];
  auth_infos = own.auth_infos;
}

merged_kubeconfig-own_example :
    (find_named (codes "dev") client_document.clusters ≡ some dev)
    × (find_named (codes "me") client_document.auth_infos ≡ some me)
unfolding merged_kubeconfig read_files merge_files prefer_context_file_entries replace_named text_eq
merged_kubeconfig-own_example =
    merged_kubeconfig-own exists read_from merge keeps_clusters keeps_users paths none
      {cfg = client_document} {merged = merged_document} {own = own} {files = stale ∷ own ∷ []}
      {target = codes "work"} {details = details} refl refl refl refl refl
