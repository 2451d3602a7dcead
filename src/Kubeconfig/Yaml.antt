-- ===== src/Kubeconfig/Yaml.antt =====
-- kubeconfig.rs, the raw entries of a document: `serde_yaml`'s `Value` as data, its accessors, and
-- `raw_named_entries`. A number is kept as its text, which is all that comparison needs. The
-- accessors look through tags; a key is found only as an untagged text, and a pattern does not look
-- through a tag either.
use cubelite.Prelude.{
  Bool, false, Option, none, some, List, [], ◌∷◌, if◌then◌else◌, any, and_then, unwrap_or,
  filter_map,
}
use cubelite.Prelude.Texts.{Text, codes, text_eq}
use cubelite.Paths.{FilePath, is_absolute, join}

mutual
  pub data Value : Type 0 where
    null : Value
    bool : Bool → Value
    number : Text → Value
    string : Text → Value
    sequence : Items → Value
    mapping : Fields → Value
    tagged : Text → Value → Value

  pub data Items : Type 0 where
    nil : Items
    cons : Value → Items → Items

  -- a mapping's entries, in the order of the document
  pub data Fields : Type 0 where
    end : Fields
    field : Value → Value → Fields → Fields

-- `as_str`, through tags
unfoldable pub as_str : Value → Option Text
as_str (string s) = some s
as_str (tagged tag v) = as_str v
as_str _ = none

abbrev pub is_str : Text → Value → Bool
is_str key v = elim (as_str v) [ none ↦ false | some s ↦ text_eq s key ]

-- whether a key of a mapping is the text
abbrev pub is_key : Text → Value → Bool
is_key key (string s) = text_eq s key
is_key key _ = false

lookup : Text → Fields → Option Value
lookup key end = none
lookup key (field k v rest) = if is_key key k then some v else lookup key rest

-- `value.get(key)`, for a text
unfoldable pub get : Value → Text → Option Value
unfolding lookup
get (mapping fields) key = lookup key fields
get (tagged tag v) key = get v key
get _ key = none

items_list : Items → List Value
items_list nil = []
items_list (cons v rest) = v ∷ items_list rest

as_sequence : Value → List Value
unfolding items_list
as_sequence (sequence items) = items_list items
as_sequence (tagged tag v) = as_sequence v
as_sequence _ = []

-- `as_sequence`, a missing or another value as no items
unfoldable pub sequence_of : Option Value → List Value
unfolding as_sequence
sequence_of none = []
sequence_of (some v) = as_sequence v

-- `map.retain(|k, _| …)`
retain : List Text → Fields → Fields
unfolding as_str
retain keys end = end
retain keys (field k v rest) =
    let kept = retain keys rest in if any (λ key. is_str key k) keys then field k v kept else kept

-- `if let Some(Value::String(file)) = map.get_mut(key)`
resolve_file : FilePath → Value → Value
resolve_file dir (string file) = if is_absolute file then string file else string (join dir file)
resolve_file dir v = v

resolve_key : FilePath → Text → Fields → Fields
unfolding resolve_file
resolve_key dir key end = end
resolve_key dir key (field k v rest) =
    if is_key key k then field k (resolve_file dir v) rest else field k v (resolve_key dir key rest)

abbrev pub cluster_identity_keys : List Text
cluster_identity_keys =
    codes "server"
    ∷ codes "certificate-authority"
    ∷ codes "certificate-authority-data"
    ∷ codes "insecure-skip-tls-verify"
    ∷ codes "tls-server-name"
    ∷ codes "proxy-url"
    ∷ []

abbrev pub path_keys : List Text
path_keys = codes "certificate-authority" ∷ codes "client-certificate" ∷ codes "client-key" ∷ []

resolve_keys : FilePath → List Text → Fields → Fields
unfolding resolve_key
resolve_keys dir [] fields = fields
resolve_keys dir (key ∷ keys) fields = resolve_keys dir keys (resolve_key dir key fields)

keep_keys : Option (List Text) → Fields → Fields
unfolding retain
keep_keys none fields = fields
keep_keys (some keys) fields = retain keys fields

reduce : Option (List Text) → FilePath → Value → Value
unfolding keep_keys resolve_keys
reduce keep dir (mapping fields) = mapping (resolve_keys dir path_keys (keep_keys keep fields))
reduce keep dir v = v

raw_entry : Text → Option (List Text) → FilePath → Value → Option (Text × Value)
unfolding get as_str reduce
raw_entry body keep dir item =
    and_then (and_then (get item (codes "name")) as_str)
      (λ name. some (name, reduce keep dir (unwrap_or (get item body) null)))

unfoldable pub raw_named_entries :
    Value → Text → Text → Option (List Text) → FilePath → List (Text × Value)
unfolding raw_entry sequence_of
raw_named_entries doc list body keep dir =
    filter_map (raw_entry body keep dir) (sequence_of (get doc list))
