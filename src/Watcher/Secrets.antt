-- ===== src/Watcher/Secrets.antt =====
-- watcher.rs: the values that are shown of a secret.
use cubelite.Prelude.{
  ℕ, ◌≡◌, refl, ap, ◌∙◌, Bool, true, false, Option, none, some, List, [], ◌∷◌, if◌then◌else◌,
  unwrap_or, or_else, map_option, map_option-eq-some, arith,
}
use mathlib.Core.Path.{subst}
use cubelite.Prelude.BTree
use cubelite.Prelude.BTree.{is_eq, get-insert}
use cubelite.Prelude.Order.{text_cmp, text_cmp-IsOrder}
use cubelite.Prelude.Texts.{Text, codes}
use cubelite.K8s.{Labels}
use cubelite.K8s.Workloads.{Secret}
use cubelite.Watcher.Workloads.{SecretInfo, insert_decoded, insert_all, secret_to_info}

-- The last entry of this key
abbrev pub last_of : {V : Type 0} → List (Text × V) → Text → Option V
last_of [] k = none
last_of ((j, v) ∷ m) k = or_else (last_of m k) (if is_eq (text_cmp j k) then some v else none)

-- What is shown of the bytes of a value
abbrev pub shown_text : (List ℕ → Option Text) → List ℕ → Text
shown_text decode value = unwrap_or (decode value) (codes "(binary)")

get-insert_all :
    (shown entries : Labels) (k : Text)
    → BTree.get text_cmp (insert_all shown entries) k
      ≡ or_else (last_of entries k) (BTree.get text_cmp shown k)
unfolding insert_all
get-insert_all shown [] k = refl
get-insert_all shown ((j, v) ∷ rest) k =
    get-insert_all (BTree.insert text_cmp shown j v) rest k
    ∙ ground (arith, get-insert text_cmp-IsOrder shown j k v)

get-insert_decoded :
    (decode : List ℕ → Option Text) (shown : Labels) (entries : List (Text × List ℕ)) (k : Text)
    → BTree.get text_cmp (insert_decoded decode shown entries) k
      ≡ or_else (map_option (shown_text decode) (last_of entries k)) (BTree.get text_cmp shown k)
unfolding insert_decoded
get-insert_decoded decode shown [] k = refl
get-insert_decoded decode shown ((j, v) ∷ rest) k =
    get-insert_decoded decode (BTree.insert text_cmp shown j (shown_text decode v)) rest k
    ∙ step (last_of rest k)
  where
    step :
        (o : Option (List ℕ))
        → or_else
            (map_option (shown_text decode) o)
            (BTree.get text_cmp (BTree.insert text_cmp shown j (shown_text decode v)) k)
          ≡ or_else
              (map_option
                (shown_text decode)
                (or_else o (if is_eq (text_cmp j k) then some v else none)))
              (BTree.get text_cmp shown k)
    step (some x) = refl
    step none =
        get-insert text_cmp-IsOrder shown j k (shown_text decode v) ∙ either (is_eq (text_cmp j k))
      where
        either :
            (b : Bool)
            → (if b then some (shown_text decode v) else BTree.get text_cmp shown k)
              ≡ or_else
                  (map_option (shown_text decode) (if b then some v else none))
                  (BTree.get text_cmp shown k)
        either true = refl
        either false = refl

or_else-none : (o : Option Text) → or_else o none ≡ o
or_else-none none = refl
or_else-none (some a) = refl

-- What is shown of a secret under a key is its string data, or else the text of its data, with a
-- placeholder for bytes that are not text; nothing is shown under another key.
pub secret_to_info-get :
    (decode : List ℕ → Option Text) (s : Secret) {info : SecretInfo}
    → secret_to_info decode s ≡ some info
    → (k : Text)
    → BTree.get text_cmp info.data_entries k
      ≡ or_else
          (last_of (unwrap_or s.string_data []) k)
          (map_option (shown_text decode) (last_of (unwrap_or s.data_entries []) k))
unfolding secret_to_info BTree.get
secret_to_info-get decode s h k =
    let (name, e, same) = map_option-eq-some _ s.metadata.name h in
    subst
      (λ (info : SecretInfo).
        BTree.get text_cmp info.data_entries k
        ≡ or_else (last_of (unwrap_or s.string_data []) k)
            (map_option (shown_text decode) (last_of (unwrap_or s.data_entries []) k)))
      same
      (get-insert_all (insert_decoded decode [] (unwrap_or s.data_entries []))
          (unwrap_or s.string_data []) k
        ∙ ap (or_else (last_of (unwrap_or s.string_data []) k)) (
            get-insert_decoded decode [] (unwrap_or s.data_entries []) k
            ∙ or_else-none
                (map_option (shown_text decode) (last_of (unwrap_or s.data_entries []) k))))
