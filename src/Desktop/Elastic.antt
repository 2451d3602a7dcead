-- ===== src/Desktop/Elastic.antt =====
-- apps/desktop/src-tauri/src/commands/elastic.rs: the credentials of an Elasticsearch endpoint, and
-- what a change of them does to the cached connections.
pub mod Saved
use cubelite.Prelude.{Bool, true, false, Option, none, some, if◌then◌else◌, map_option, unwrap_or}
use cubelite.Prelude.Results.{Result, ok, err, ◌>>=◌, map_ok}
use cubelite.Prelude.Texts.{Text, codes}
use cubelite.Integration.Target.{UrlCrate, check_shared}
use cubelite.Integration.Target
use cubelite.Elastic.Types.{EsEndpoint, EsAuth}
use cubelite.Elastic.Types.EsAuth.{no_auth, basic, api_key, bearer, eck_user}
use cubelite.Desktop.Cache.{ConnCache, forget, clear}
use cubelite.Desktop.Vault
use cubelite.Desktop.Vault.{Keyring, Json, Stored, load, location, write}

abbrev pub keychain_service : Text
keychain_service = codes "cubelite.elastic"

unfoldable pub binding : UrlCrate → EsEndpoint → Result Text Text
binding crate endpoint = do
  _ ← check_shared endpoint.target endpoint.shared
  Target.binding crate endpoint.target endpoint.skip_tls_verify

-- the record that is kept: none without credentials
unfoldable pub record_of : UrlCrate → EsEndpoint → EsAuth → Result Text (Option (Stored EsAuth))
unfolding binding
record_of crate endpoint no_auth = ok none
record_of crate endpoint auth =
    map_ok (λ b. some (record { binding = b; auth = auth })) (binding crate endpoint)

module _ {K : Type 0} (crate : UrlCrate) (ring : Keyring K) (json : Json EsAuth) where
  unfoldable pub load_auth : K → Text → EsEndpoint → Result Text EsAuth
  unfolding binding load
  load_auth keys context endpoint = do
    bound ← binding crate endpoint
    load ring json keys keychain_service context endpoint.shared bound no_auth

  unfoldable pub store_auth : K → Text → EsEndpoint → EsAuth → Result Text K
  unfolding record_of location write
  store_auth keys context endpoint auth = do
    kept ← record_of crate endpoint auth
    let (service, account) = location keychain_service context endpoint.shared
    write ring json keys service account kept

unfoldable pub method : EsAuth → Text
method no_auth = codes "none"
method (basic username password) = codes "basic"
method (api_key key) = codes "api-key"
method (bearer token) = codes "bearer"
method eck_user = codes "eck-user"

-- `elastic_auth_method`
unfoldable pub auth_method :
    {K : Type 0} → UrlCrate → Keyring K → Json EsAuth → K → Text → EsEndpoint → Result Text Text
unfolding binding Vault.stored method
auth_method crate ring json keys context endpoint = do
  current ← binding crate endpoint
  found ← Vault.stored ring json keys keychain_service context endpoint.shared current
  ok (unwrap_or (map_option method found) (codes "none"))
