-- ===== src/Desktop/Vault.antt =====
-- apps/desktop/src-tauri/src/commands/vault.rs: the integration credentials in the OS keychain. The
-- keychain (the crate keyring) and serde_json are records of functions, the credentials any type.
pub mod Kept
use cubelite.Prelude.{
  Bool, true, false, Option, none, some, List, [], ◌++◌, if◌then◌else◌, unwrap_or,
}
use cubelite.Prelude.Results.{Result, ok, err, ◌>>=◌, map_ok, map_err}
use cubelite.Prelude.Texts.{Text, codes, text_eq}

pub record Stored (A : Type 0) : Type 0 where
  pub binding : Text
  pub auth : A

-- `keyring::Error`, with its text
pub data KeyError : Type 0 where
  no_entry : KeyError
  other : Text → KeyError

abbrev pub key_error_text : KeyError → Text
key_error_text KeyError.no_entry = codes "No matching entry found in secure storage"
key_error_text (KeyError.other reason) = reason

-- The keychain in a state of type `K`: an entry is named by a service and an account.
pub record Keyring (K : Type 0) : Type 0 where
  pub new : K → Text → Text → Result KeyError (Unit {0})
  pub get_password : K → Text → Text → Result KeyError Text
  pub set_password : K → Text → Text → Text → Result KeyError K
  pub delete_credential : K → Text → Text → Result KeyError K

pub record Json (A : Type 0) : Type 0 where
  pub to_string : Stored A → Result Text Text
  pub from_str : Text → Result Text (Stored A)

abbrev pub default_account : Text
default_account = codes "default"

abbrev pub default_service_suffix : Text
default_service_suffix = codes ".default"

abbrev pub moved : Text
moved =
    codes
      "The saved credentials belong to another endpoint or TLS setting; save them again for this one"

unfoldable pub default_service : Text → Text
default_service service = service ++ default_service_suffix

unfoldable pub location : Text → Text → Bool → Text × Text
unfolding default_service
location service context shared =
    if shared then (default_service service, default_account) else (service, context)

module _ {K A : Type 0} (ring : Keyring K) (json : Json A) where
  unfoldable pub entry : K → Text → Text → Result Text (Unit {0})
  entry keys service context =
      map_err (λ e. codes "Keychain unavailable: " ++ key_error_text e)
        (ring.new keys service context)

  -- the `match` of `read`
  abbrev pub parsed : Result KeyError Text → Result Text (Option (Stored A))
  parsed (ok text) =
      map_err (λ e. codes "Stored credentials are unreadable; save them again")
        (map_ok some (json.from_str text))
  parsed (err KeyError.no_entry) = ok none
  parsed (err (KeyError.other reason)) = err (codes "Keychain error: " ++ reason)

  unfoldable pub read : K → Text → Text → Result Text (Option (Stored A))
  unfolding entry
  read keys service context = do
    _ ← entry keys service context
    parsed (ring.get_password keys service context)

  -- the `match` of the deletion
  abbrev pub deleted : K → Result KeyError K → Result Text K
  deleted keys (ok keys') = ok keys'
  deleted keys (err KeyError.no_entry) = ok keys
  deleted keys (err (KeyError.other reason)) = err (codes "Keychain error: " ++ reason)

  abbrev pub written : K → Text → Text → Option (Stored A) → Result Text K
  written keys service context none = deleted keys (ring.delete_credential keys service context)
  written keys service context (some kept) = do
    text ← json.to_string kept
    map_err (λ e. codes "Keychain error: " ++ key_error_text e)
        (ring.set_password keys service context text)

  -- A call returns the keychain after it.
  unfoldable pub write : K → Text → Text → Option (Stored A) → Result Text K
  unfolding entry
  write keys service context kept = do
    _ ← entry keys service context
    written keys service context kept

-- the `match` on the default's record
abbrev pub usable : {A : Type 0} → Text → Option (Stored A) → Result Text (Option A)
usable binding none = ok none
usable binding (some stored) =
    if text_eq stored.binding binding then ok (some stored.auth) else err moved

abbrev pub pick_own :
    {A : Type 0}
    → Option (Stored A)
    → Result Text (Option (Stored A))
    → Bool
    → Text
    → Result Text (Option A)
pick_own none default shared binding = if shared then default >>= usable binding else ok none
pick_own (some stored) default shared binding =
    if text_eq stored.binding binding
    then ok (some stored.auth)
    else if shared
    then default >>= usable binding
    else err moved

unfoldable pub pick :
    {A : Type 0}
    → Option (Stored A)
    → Result Text (Option (Stored A))
    → Bool
    → Text
    → Result Text (Option A)
pick own default shared binding = pick_own own default shared binding

module _ {K A : Type 0} (ring : Keyring K) (json : Json A) where
  unfoldable pub load : K → Text → Text → Bool → Text → A → Result Text A
  unfolding read pick default_service
  load keys service context shared binding nothing = do
    own ← read ring json keys service context
    found ← pick own (read ring json keys (default_service service) default_account) shared binding
    ok (unwrap_or found nothing)

  -- `unwrap_or(None)`
  abbrev pub or_none : Result Text (Option A) → Option A
  or_none (ok found) = found
  or_none (err e) = none

  unfoldable pub stored : K → Text → Text → Bool → Text → Result Text (Option A)
  unfolding read pick default_service
  stored keys service context shared binding = do
    own ← read ring json keys service context
    ok (
        or_none
          (pick own (read ring json keys (default_service service) default_account) shared binding))
