-- ===== src/Desktop/Elastic/Saved.antt =====
-- commands/elastic.rs: saved credentials, loaded again.
use cubelite.Prelude.{◌≡◌, ◌≢◌, refl, sym, ap, ◌∙◌, false, Option, some, ◌<◌}
use cubelite.Prelude.Results.{Result, ok, err, map_ok, >>=-eq-ok}
use cubelite.Prelude.Texts.{Text}
use cubelite.Integration.Target.{UrlCrate, ServiceRef, target, check_shared}
use cubelite.Integration.Target
use cubelite.Integration.Bindings.{binding-injective}
use cubelite.Elastic.Types.{EsEndpoint, EsAuth}
use cubelite.Elastic.Types.EsAuth.{no_auth, basic, api_key, bearer, eck_user}
use cubelite.Desktop.Vault.{Keyring, Json, Stored, read, write, location}
use cubelite.Desktop.Vault.Kept.{Keeps, ReadsBack, read-write, load-own, load-own_eq}
use cubelite.Desktop.Elastic.{keychain_service, binding, record_of, load_auth, store_auth}

-- Credentials are kept with the binding of their endpoint.
record_of-some :
    (crate : UrlCrate) (endpoint : EsEndpoint) (auth : EsAuth) {kept : Option (Stored EsAuth)}
    → auth ≢ no_auth
    → record_of crate endpoint auth ≡ ok kept
    → (bound : Text) × (binding crate endpoint ≡ ok bound)
      × (kept ≡ some (record { binding = bound; auth = auth }))
unfolding record_of
record_of-some crate endpoint auth {kept} given h = by_case auth given h
  where
    bound :
        (a : EsAuth)
        → map_ok (λ b. some (record { binding = b; auth = a })) (binding crate endpoint) ≡ ok kept
        → (b : Text) × (binding crate endpoint ≡ ok b)
          × (kept ≡ some (record { binding = b; auth = a }))
    bound a k = from (binding crate endpoint) refl k
      where
        from :
            (r : Result Text Text)
            → binding crate endpoint ≡ r
            → map_ok (λ b. some (record { binding = b; auth = a })) r ≡ ok kept
            → (b : Text) × (binding crate endpoint ≡ ok b)
              × (kept ≡ some (record { binding = b; auth = a }))
        from (ok b) e k = (b, e, cc k)
        from (err x) e k = cc k

    by_case :
        (a : EsAuth)
        → a ≢ no_auth
        → record_of crate endpoint a ≡ ok kept
        → (b : Text) × (binding crate endpoint ≡ ok b)
          × (kept ≡ some (record { binding = b; auth = a }))
    by_case no_auth n k = absurd (n refl)
    by_case (basic u p) n k = bound (basic u p) k
    by_case (api_key key) n k = bound (api_key key) k
    by_case (bearer t) n k = bound (bearer t) k
    by_case eck_user n k = bound eck_user k

module _ {K : Type 0} (crate : UrlCrate) (ring : Keyring K) (json : Json EsAuth) where
  -- What a successful save leaves in the keychain
  store_auth-read :
      (keys keys' : K) (context : Text) (endpoint : EsEndpoint) (auth : EsAuth)
      → Keeps ring
      → ReadsBack json
      → auth ≢ no_auth
      → endpoint.shared ≡ false
      → store_auth crate ring json keys context endpoint auth ≡ ok keys'
      → (bound : Text) × (binding crate endpoint ≡ ok bound)
        × (read ring json keys' keychain_service context
            ≡ ok (some (record { binding = bound; auth = auth })))
  unfolding store_auth location
  store_auth-read keys keys' context endpoint auth keeps back given own h =
      let (kept, e, k) = >>=-eq-ok (record_of crate endpoint auth) _ h in
      let (bound, f, same) = record_of-some crate endpoint auth given e in
      let k' : write ring json keys keychain_service context
            (some (record { binding = bound; auth = auth }))
          ≡ ok keys' =
        rw (own, same) at k in
      (bound, f, read-write keeps back keys keys' keychain_service context _ k')

  -- Credentials that were saved for an endpoint of its own are loaded for it again, and a load for
  -- another endpoint of its own, in the same context, gives these credentials and only if its
  -- binding is the same. The keychain is taken to keep what was set and the JSON library to read
  -- back what it wrote.
  pub store_auth-load_auth :
      (keys keys' : K) (context : Text) (endpoint : EsEndpoint) (auth : EsAuth)
      → Keeps ring
      → ReadsBack json
      → auth ≢ no_auth
      → endpoint.shared ≡ false
      → store_auth crate ring json keys context endpoint auth ≡ ok keys'
      → (load_auth crate ring json keys' context endpoint ≡ ok auth)
        × ((other : EsEndpoint) (got : EsAuth)
            → other.shared ≡ false
            → load_auth crate ring json keys' context other ≡ ok got
            → (got ≡ auth) × (binding crate other ≡ binding crate endpoint))
  unfolding load_auth
  store_auth-load_auth keys keys' context endpoint auth keeps back given own h =
      let (bound, bind, there) =
        store_auth-read keys keys' context endpoint auth keeps back given own h in
      (
        rw (bind, own) (load-own ring json keys' keychain_service context false _ no_auth there),
        λ other got apart k.
            let (bound', bind', k') = >>=-eq-ok (binding crate other) _ k in
            let (same, tied) =
              load-own_eq ring json keys' keychain_service context bound' _ no_auth there
                (rw apart at k') in
            (same, bind' ∙ ap ok (sym tied) ∙ sym bind),
      )

  endpoint_binding :
      (e : EsEndpoint) {bound : Text}
      → binding crate e ≡ ok bound
      → Target.binding crate e.target e.skip_tls_verify ≡ ok bound
  unfolding binding
  endpoint_binding e h =
      let (done, ok_shared, k) = >>=-eq-ok (check_shared e.target e.shared) _ h in k

  -- Credentials that were saved for an in-cluster endpoint are loaded, in the same context and by
  -- an endpoint of its own, for the same service, port, scheme and check of certificates only.
  -- Ports have 16 bits, and the keychain and the JSON library are taken to keep and read back what
  -- they are given.
  pub store_auth-in_cluster :
      (keys keys' : K) (context : Text) (a b : EsEndpoint) (auth got : EsAuth) (r s : ServiceRef)
      → Keeps ring
      → ReadsBack json
      → auth ≢ no_auth
      → a.shared ≡ false
      → b.shared ≡ false
      → a.target ≡ target r
      → b.target ≡ target s
      → r.port < 65536
      → s.port < 65536
      → store_auth crate ring json keys context a auth ≡ ok keys'
      → load_auth crate ring json keys' context b ≡ ok got
      → (got ≡ auth) × (r ≡ s) × (a.skip_tls_verify ≡ b.skip_tls_verify)
  store_auth-in_cluster keys keys' context a b auth got r s keeps back given own own' at at' p q h
        k =
      let (bound, bind, there) = store_auth-read keys keys' context a auth keeps back given own h in
      let (again, apart) = store_auth-load_auth keys keys' context a auth keeps back given own h in
      let (same, tied) = apart b got own' k in
      let here : Target.binding crate (target r) a.skip_tls_verify ≡ ok bound =
        rw at at (endpoint_binding a bind) in
      let there' : Target.binding crate (target s) b.skip_tls_verify ≡ ok bound =
        rw at' at (endpoint_binding b (tied ∙ bind)) in
      let (place, tls) =
        binding-injective crate r s a.skip_tls_verify b.skip_tls_verify bound p q here there' in
      (same, place, tls)
