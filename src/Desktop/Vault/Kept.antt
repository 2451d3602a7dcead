-- ===== src/Desktop/Vault/Kept.antt =====
-- vault.rs: what is read after a write, and whose credentials a load gives.
use cubelite.Prelude.{
  ◌≡◌, ◌≢◌, refl, sym, ◌⊎◌, Bool, true, false, Option, none, some, if◌then◌else◌, unwrap_or,
  Bool-cases, inl, inr,
}
use mathlib.Core.Path.{subst}
use cubelite.Prelude.Results.{Result, ok, err, ◌>>=◌, >>=-eq-ok, map_err-eq-ok}
use cubelite.Prelude.Texts.{Text, text_eq, text_eq_iff, text_eq_refl}
use cubelite.Desktop.Vault.{
  Stored, Keyring, Json, entry, read, write, usable, pick, load, moved, default_service,
  default_account,
}

-- What is relied on of the keychain: an entry keeps what was set until it is set again, other entries
-- stay as they are, and whether an entry can be named does not depend on what is stored.
pub record Keeps {K : Type 0} (ring : Keyring K) : Type 0 where
  pub set_get :
      (keys keys' : K) (service account text : Text)
      → ring.set_password keys service account text ≡ ok keys'
      → ring.get_password keys' service account ≡ ok text
  pub set_other :
      (keys keys' : K) (service account text service' account' : Text)
      → ring.set_password keys service account text ≡ ok keys'
      → (service ≢ service') ⊎ (account ≢ account')
      → ring.get_password keys' service' account' ≡ ring.get_password keys service' account'
  pub new_same :
      (keys keys' : K) (service account : Text)
      → ring.new keys service account ≡ ring.new keys' service account

-- What is relied on of serde_json: a record that was written is read back.
pub record ReadsBack {A : Type 0} (json : Json A) : Type 0 where
  pub round_trip :
      (stored : Stored A) (text : Text)
      → json.to_string stored ≡ ok text
      → json.from_str text ≡ ok stored

module _ {K A : Type 0} {ring : Keyring K} {json : Json A} (keeps : Keeps ring)
    (back : ReadsBack json) where
  entry_same :
      (keys keys' : K) (service account : Text)
      → entry ring json keys service account ≡ entry ring json keys' service account
  unfolding entry
  entry_same keys keys' service account = rw (keeps.new_same keys keys' service account) refl

  -- What was written is read.
  pub read-write :
      (keys keys' : K) (service account : Text) (kept : Stored A)
      → write ring json keys service account (some kept) ≡ ok keys'
      → read ring json keys' service account ≡ ok (some kept)
  unfolding write read
  read-write keys keys' service account kept h =
      let (done, named, k) = >>=-eq-ok (entry ring json keys service account) _ h in
      let (text, printed, set) = >>=-eq-ok (json.to_string kept) _ k in
      let stored = map_err-eq-ok _ (ring.set_password keys service account text) set in
      rw
        (
          sym (entry_same keys keys' service account),
          named,
          keeps.set_get keys keys' service account text stored,
          back.round_trip kept text printed,
        )
        refl

  -- The other entries are read as before.
  pub read-write_other :
      (keys keys' : K) (service account service' account' : Text) (kept : Stored A)
      → write ring json keys service account (some kept) ≡ ok keys'
      → (service ≢ service') ⊎ (account ≢ account')
      → read ring json keys' service' account' ≡ read ring json keys service' account'
  unfolding write read
  read-write_other keys keys' service account service' account' kept h other =
      let (done, named, k) = >>=-eq-ok (entry ring json keys service account) _ h in
      let (text, printed, set) = >>=-eq-ok (json.to_string kept) _ k in
      let stored = map_err-eq-ok _ (ring.set_password keys service account text) set in
      rw
        (
          sym (entry_same keys keys' service' account'),
          keeps.set_other keys keys' service account text service' account' stored other,
        )
        refl

-- A record that was read for this binding holds these credentials.
abbrev pub Holds : {A : Type 0} → Result Text (Option (Stored A)) → Text → A → Type 0
Holds {A} found binding auth =
    (kept : Stored A) × (found ≡ ok (some kept)) × (kept.binding ≡ binding) × (kept.auth ≡ auth)

module _ {A : Type 0} where
  usable-some :
      (found : Result Text (Option (Stored A))) (binding : Text) (auth : A)
      → (found >>= usable binding) ≡ ok (some auth)
      → Holds found binding auth
  usable-some (err e) binding auth h = cc h
  usable-some (ok none) binding auth h = cc h
  usable-some (ok (some kept)) binding auth h = elim (Bool-cases (text_eq kept.binding binding)) [
    | inl e ↦ let k = rw e at h in (kept, refl, (text_eq_iff kept.binding binding).0 e, cc k)
    | inr e ↦ let k = rw e at h in cc k
  ]

  pick-some :
      (own : Option (Stored A)) (default : Result Text (Option (Stored A))) (shared : Bool)
      (binding : Text) (auth : A)
      → pick own default shared binding ≡ ok (some auth)
      → Holds (ok own) binding auth ⊎ ((shared ≡ true) × Holds default binding auth)
  unfolding pick
  pick-some none default true binding auth h = inr (refl, usable-some default binding auth h)
  pick-some none default false binding auth h = cc h
  pick-some (some kept) default shared binding auth h =
      elim (Bool-cases (text_eq kept.binding binding)) [
        | inl e ↦
            let k = rw e at h in inl (kept, refl, (text_eq_iff kept.binding binding).0 e, cc k)
        | inr e ↦ stale shared (rw e at h)
      ]
    where
      stale :
          (s : Bool)
          → (if s then default >>= usable binding else err moved) ≡ ok (some auth)
          → Holds (ok (some kept)) binding auth ⊎ ((s ≡ true) × Holds default binding auth)
      stale true k = inr (refl, usable-some default binding auth k)
      stale false k = cc k

module _ {K A : Type 0} (ring : Keyring K) (json : Json A) where
  -- A context's own record goes to the endpoint it was saved for.
  pub load-own :
      (keys : K) (service context : Text) (shared : Bool) (kept : Stored A) (nothing : A)
      → read ring json keys service context ≡ ok (some kept)
      → load ring json keys service context shared kept.binding nothing ≡ ok kept.auth
  unfolding load pick
  load-own keys service context shared kept nothing h = rw (h, text_eq_refl kept.binding) refl

  -- To no other, unless the endpoint is shared
  pub load-own_eq :
      (keys : K) (service context binding : Text) (kept : Stored A) (nothing : A) {got : A}
      → read ring json keys service context ≡ ok (some kept)
      → load ring json keys service context false binding nothing ≡ ok got
      → (got ≡ kept.auth) × (kept.binding ≡ binding)
  unfolding load pick
  load-own_eq keys service context binding kept nothing {got} h found =
      elim (Bool-cases (text_eq kept.binding binding)) [
        | inl e ↦ let k = rw (h, e) at found in (cc k, (text_eq_iff kept.binding binding).0 e)
        | inr e ↦ let k = rw (h, e) at found in cc k
      ]

  -- Credentials that a load gives, other than the given default value, were read from the record of
  -- the context or, only if the endpoint is the shared one, of the default, and that record was
  -- kept for the binding asked for.
  pub load-Holds :
      (keys : K) (service context : Text) (shared : Bool) (binding : Text) (nothing : A) {got : A}
      → load ring json keys service context shared binding nothing ≡ ok got
      → (got ≡ nothing)
        ⊎ Holds (read ring json keys service context) binding got
        ⊎ ((shared ≡ true)
            × Holds (read ring json keys (default_service service) default_account) binding got)
  unfolding load
  load-Holds keys service context shared binding nothing {got} h =
      let (own, e, k) = >>=-eq-ok (read ring json keys service context) _ h in
      let (found, f, g) =
        >>=-eq-ok
          (pick own (read ring json keys (default_service service) default_account) shared binding)
          (λ o. ok (unwrap_or o nothing)) k in
      let same : unwrap_or found nothing ≡ got = cc g in from own e found f same
    where
      from :
          (own : Option (Stored A))
          → read ring json keys service context ≡ ok own
          → (found : Option A)
          → pick own (read ring json keys (default_service service) default_account) shared binding
            ≡ ok found
          → unwrap_or found nothing ≡ got
          → (got ≡ nothing)
            ⊎ Holds (read ring json keys service context) binding got
            ⊎ ((shared ≡ true)
                × Holds (read ring json keys (default_service service) default_account) binding got)
      from own e none f g = inl (sym g)
      from own e (some auth) f g = rw e (
          inr (
            subst
              (λ a.
                Holds (ok own) binding a
                ⊎ ((shared ≡ true)
                    × Holds (read ring json keys (default_service service) default_account) binding
                        a))
              g
              (pick-some own (read ring json keys (default_service service) default_account) shared
                binding auth f)))
