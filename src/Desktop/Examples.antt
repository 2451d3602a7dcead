-- ===== src/Desktop/Examples.antt =====
-- apps/desktop/src-tauri/src/commands: the theorems at a run of a cache of connections, and at a
-- keychain that is a function.
use cubelite.Prelude.{
  ℕ, ◌≡◌, ◌≢◌, refl, sym, ap, ◌⊎◌, inl, inr, Bool, true, false, ◌&&◌, Option, none, some, [], ◌==◌,
  ==_iff, arith, All, if◌then◌else◌, Bool-cases,
}
use mathlib.Core.Path.{subst}
use cubelite.Prelude.Results.{Result, ok, err}
use cubelite.Prelude.Texts.{Text, codes, text_eq, text_eq_iff, text_eq_refl, bytes, show_u16}
use cubelite.Prelude.Maps.{get, insert}
use cubelite.Desktop.Cache.{ConnKey, key_eq, Arc, Call, new_cache, look_up, settle, connected}
use cubelite.Desktop.Cache.Steps.{
  Opened, World, Step, Reach, move, after_settle, set_task, fresh_conn,
}
use cubelite.Desktop.Cache.Current.{IsCurrent, IsCurrentEntry}
use cubelite.Desktop.Cache.Returned.{get_or_connect-IsCurrent}
use cubelite.Integration.Target.{Url, UrlCrate, ServiceRef, target, is_dns_label, check_shared}
use cubelite.Integration.Target
use cubelite.Elastic.Types.{EsEndpoint, EsAuth, FieldPreset}
use cubelite.Elastic.Types.EsAuth.{no_auth, basic, api_key, bearer, eck_user}
use cubelite.Desktop.Vault.{Stored, KeyError, Keyring, Json}
use cubelite.Desktop.Vault.Kept.{Keeps, ReadsBack}
use cubelite.Desktop.Elastic.{binding, store_auth, load_auth}
use cubelite.Desktop.Elastic.Saved.{store_auth-load_auth, store_auth-in_cluster}

abbrev prod : ConnKey
prod = (codes "/k", codes "prod")

abbrev equal : ℕ → ℕ → Bool
equal a b = a == b

abbrev idle : World ℕ
idle = record {
  cache = new_cache;
  tasks = λ id. record { key = prod; endpoint = 0; call = Call.waiting 0 };
  epoch = λ c. 0;
  bumps = 0;
  allocated = 0;
}

-- The call 1 asks for the endpoint 7.
abbrev asked : World ℕ
asked = record idle {
  tasks = set_task idle 1 (record { key = prod; endpoint = 7; call = Call.waiting 2 });
}

abbrev looked : World ℕ
looked = move asked 1 (look_up equal asked.cache prod 7 2)

abbrev joined : World ℕ
joined = move (record looked { allocated = 1 }) 1 (connected 1 0 (ok (fresh_conn looked 1)))

abbrev done : World ℕ
done = after_settle joined 1 1 (settle equal joined.cache prod 7 0 (fresh_conn looked 1))

joined-Reach : Reach equal joined
unfolding look_up new_cache connected get key_eq
joined-Reach =
    Reach.next
      (Reach.next (Reach.next (Reach.new idle refl refl (λ id. refl)) (Step.begin idle 1 prod 7))
        (Step.look asked 1 2 refl))
      (Step.connect looked 1 1 0 refl)

get_or_connect-IsCurrent_example :
    All (IsCurrentEntry done) done.cache.map
    × ((i : ℕ) (conn : Arc (Opened ℕ))
        → (joined.tasks i).call ≢ Call.returned (ok conn)
        → (done.tasks i).call ≡ Call.returned (ok conn)
        → IsCurrent done (done.tasks i).key (done.tasks i).endpoint conn)
unfolding look_up new_cache connected settle get insert key_eq
get_or_connect-IsCurrent_example =
    get_or_connect-IsCurrent equal (λ a b. (==_iff a b).0) joined-Reach
      (Step.finish joined 1 1 0 (fresh_conn looked 1) refl) (omega arith)

-- A keychain as a function of the service and the account
abbrev Keys : Type 0
Keys = Text → Text → Option Text

abbrev found_in : Option Text → Result KeyError Text
found_in none = err KeyError.no_entry
found_in (some text) = ok text

abbrev put : Keys → Text → Text → Option Text → Keys
put keys service account text s a =
    if text_eq service s && text_eq account a then text else keys s a

abbrev ring : Keyring Keys
ring = record {
  new = λ keys service account. ok tt;
  get_password = λ keys service account. found_in (keys service account);
  set_password = λ keys service account text. ok (put keys service account (some text));
  delete_credential = λ keys service account. ok (put keys service account none);
}

put_other :
    (keys : Keys) (service account service' account' : Text) (text : Option Text)
    → (service ≢ service') ⊎ (account ≢ account')
    → put keys service account text service' account' ≡ keys service' account'
put_other keys service account service' account' text (inl n) =
    elim (Bool-cases (text_eq service service')) [
      | inl e ↦ absurd (n ((text_eq_iff service service').0 e))
      | inr e ↦ rw e refl
    ]
put_other keys service account service' account' text (inr n) =
    elim (Bool-cases (text_eq account account')) [
      | inl e ↦ absurd (n ((text_eq_iff account account').0 e))
      | inr e ↦ rw e (ground arith)
    ]

ring-Keeps : Keeps ring
ring-Keeps = record {
  set_get = λ keys keys' service account text h.
      let same : put keys service account (some text) ≡ keys' = cc h in
      subst (λ (k : Keys). found_in (k service account) ≡ ok text) same
        (rw (text_eq_refl service, text_eq_refl account) refl);
  set_other = λ keys keys' service account text service' account' h other.
      let same : put keys service account (some text) ≡ keys' = cc h in
      subst (λ (k : Keys). found_in (k service' account') ≡ found_in (keys service' account')) same
        (ap found_in (put_other keys service account service' account' (some text) other));
  new_same = λ keys keys' service account. refl;
}

-- It writes the choice of ECK's user only.
abbrev printed : Stored EsAuth → EsAuth → Result Text Text
printed stored eck_user = ok stored.binding
printed stored auth = err (codes "not supported")

abbrev json : Json EsAuth
json = record {
  to_string = λ stored. printed stored stored.auth;
  from_str = λ text. ok (record { binding = text; auth = eck_user });
}

printed_back :
    (bound : Text) (auth : EsAuth) (text : Text)
    → printed (record { binding = bound; auth = auth }) auth ≡ ok text
    → ◌≡◌ {A = Result Text (Stored EsAuth)}
        (ok (record { binding = text; auth = eck_user }))
        (ok (record { binding = bound; auth = auth }))
printed_back bound no_auth text h = cc h
printed_back bound (basic u p) text h = cc h
printed_back bound (api_key key) text h = cc h
printed_back bound (bearer t) text h = cc h
printed_back bound eck_user text h =
    let same : bound ≡ text = cc h in
    ap (λ (b : Text). ok (record { binding = b; auth = eck_user })) (sym same)

json-ReadsBack : ReadsBack json
json-ReadsBack = record {
  round_trip = λ stored text h. printed_back stored.binding stored.auth text h;
}

abbrev search : ServiceRef
search = record {
  namespace = codes "logging";
  service = codes "es-http";
  port = 9200;
  https = true;
}

abbrev endpoint : EsEndpoint
endpoint = record {
  target = target search;
  index_pattern = codes "logs-*";
  preset = FieldPreset.ecs;
  kibana_url = none;
  kibana_service = none;
  skip_tls_verify = true;
  cluster_filter = none;
  shared = false;
}

abbrev no_urls : UrlCrate
no_urls = record { parse = λ t. err (codes "relative URL"); origin = λ u. [] }

abbrev bound_to : Text
bound_to = codes "in-cluster:logging/es-http:9200:https|insecure"

abbrev no_keys : Keys
no_keys s a = none

abbrev saved_keys : Keys
saved_keys = put no_keys (codes "cubelite.elastic") (codes "prod") (some bound_to)

given : eck_user ≢ no_auth
given e = cc e

saved : store_auth no_urls ring json no_keys (codes "prod") endpoint eck_user ≡ ok saved_keys
unfolding store_auth Target.binding is_dns_label check_shared Target.check_target bytes show_u16
saved = refl

store_auth-load_auth_example :
    (load_auth no_urls ring json saved_keys (codes "prod") endpoint ≡ ok eck_user)
    × ((other : EsEndpoint) (got : EsAuth)
        → other.shared ≡ false
        → load_auth no_urls ring json saved_keys (codes "prod") other ≡ ok got
        → (got ≡ eck_user) × (binding no_urls other ≡ binding no_urls endpoint))
store_auth-load_auth_example =
    store_auth-load_auth no_urls ring json no_keys saved_keys (codes "prod") endpoint eck_user
      ring-Keeps json-ReadsBack given refl saved

store_auth-in_cluster_example : (eck_user ≡ eck_user) × (search ≡ search) × (true ≡ true)
store_auth-in_cluster_example =
    store_auth-in_cluster no_urls ring json no_keys saved_keys (codes "prod") endpoint endpoint
      eck_user eck_user search search ring-Keeps json-ReadsBack given refl refl refl refl
      (omega arith) (omega arith) saved store_auth-load_auth_example.0
