-- ===== src/Integration/Bindings.antt =====
-- integration.rs: what stored credentials are bound to tells in-cluster endpoints apart, and which
-- external URLs are accepted.
use mathlib.Core.List.{append_assoc}
use mathlib.Core.Path.{subst}
use cubelite.Prelude.{
  ℕ, ◌<◌, ◌≡◌, ◌⊎◌, inl, inr, refl, sym, ap, ==_iff, ◌∙◌, Bool, true, false, ◌&&◌, ◌||◌, Option,
  none, some, [], ◌∷◌, ◌++◌, if◌then◌else◌, all, any, is_empty, leb, ◌==◌, length, is_some, arith,
  Bool-cases, all-append,
}
use cubelite.Prelude.Results.{Result, ok, >>=-eq-ok, map_err-eq-ok}
use cubelite.Prelude.Texts.{
  Text, codes, text_eq, text_eq_iff, trim, bytes, utf8, show_u16, show_u16-injective,
  show_u16-IsDigits, cut_unique, append_left_cancel,
}
use cubelite.Integration.Target.{
  ServiceRef, target, Url, UrlCrate, is_label_byte, is_dns_label, check_target, scheme_text,
  cluster_origin, origin_of, binding, is_loopback, check_parsed, check_external_url,
}

utf8-label : (c : ℕ) → all is_label_byte (utf8 c) ≡ true → is_label_byte c ≡ true
unfolding is_label_byte
utf8-label c h = ground arith

label_free :
    (sep : ℕ) (s : Text)
    → is_label_byte sep ≡ false
    → all is_label_byte (bytes s) ≡ true
    → any (λ c. c == sep) s ≡ false
unfolding bytes
label_free sep [] plain h = refl
label_free sep (c ∷ s) plain h =
    let both = all-append is_label_byte (utf8 c) (bytes s) in
    let here = utf8-label c (ground (arith, both)) in
    let rest = label_free sep s plain (ground (arith, both)) in
    elim (Bool-cases (c == sep)) [
      | inl e ↦ ground (arith, subst (λ x. is_label_byte x ≡ true) ((==_iff c sep).0 e) here)
      | inr e ↦ rw (e, rest) refl
    ]

dns_label_free :
    (sep : ℕ) (s : Text)
    → is_label_byte sep ≡ false
    → is_dns_label s ≡ true
    → any (λ c. c == sep) s ≡ false
unfolding is_dns_label
dns_label_free sep s plain h = label_free sep s plain (ground arith)

digits_free : (s : Text) → all (λ c. leb 48 c && leb c 57) s ≡ true → any (λ c. c == 58) s ≡ false
digits_free [] h = refl
digits_free (c ∷ s) h = ground (arith, digits_free s)

-- The scheme with the flag that certificate checks are skipped.
abbrev ending : Bool → Bool → Text
ending https skip = if skip then scheme_text https ++ codes "|insecure" else scheme_text https

-- What the length of an ending says.
abbrev https_of : Text → Bool
https_of t = length t == 5 || length t == 14

abbrev skip_of : Text → Bool
skip_of t = leb 6 (length t)

https_of-ending : (h f : Bool) → https_of (ending h f) ≡ h
https_of-ending true true = refl
https_of-ending true false = refl
https_of-ending false true = refl
https_of-ending false false = refl

skip_of-ending : (h f : Bool) → skip_of (ending h f) ≡ f
skip_of-ending true true = refl
skip_of-ending true false = refl
skip_of-ending false true = refl
skip_of-ending false false = refl

ending-injective : (h i f g : Bool) → ending h f ≡ ending i g → (h ≡ i) × (f ≡ g)
ending-injective h i f g e = (
  sym (https_of-ending h f) ∙ ap https_of e ∙ https_of-ending i g,
  sym (skip_of-ending h f) ∙ ap skip_of e ∙ skip_of-ending i g,
)

-- A binding that is given: its labels are checked, and it has this form.
abbrev bound : ServiceRef → Bool → Text
bound r skip =
    codes "in-cluster:"
    ++ (r.namespace ++ 47 ∷ (r.service ++ 58 ∷ (show_u16 r.port ++ 58 ∷ ending r.https skip)))

bound-append :
    (a b c d e : Text)
    → (codes "in-cluster:" ++ (a ++ 47 ∷ (b ++ 58 ∷ (c ++ 58 ∷ d)))) ++ e
      ≡ codes "in-cluster:" ++ (a ++ 47 ∷ (b ++ 58 ∷ (c ++ 58 ∷ (d ++ e))))
bound-append a b c d e =
    rw
      (
        append_assoc a (47 ∷ (b ++ 58 ∷ (c ++ 58 ∷ d))) e,
        append_assoc b (58 ∷ (c ++ 58 ∷ d)) e,
        append_assoc c (58 ∷ d) e,
      )
      refl

ok-injective : {A : Type 0} (a b : A) → Path (Result Text A) (ok a) (ok b) → a ≡ b
ok-injective a b e = cc e

binding-checked :
    (crate : UrlCrate) (r : ServiceRef) (skip : Bool)
    → is_dns_label r.namespace ≡ true
    → is_dns_label r.service ≡ true
    → binding crate (target r) skip ≡ ok (bound r skip)
unfolding binding check_target origin_of cluster_origin
binding-checked crate r true n s =
    rw (n, s)
      (ap ok (
        bound-append r.namespace r.service (show_u16 r.port) (scheme_text r.https)
          (codes "|insecure")))
binding-checked crate r false n s = rw (n, s) refl

binding-bound :
    (crate : UrlCrate) (r : ServiceRef) (skip : Bool) (o : Text)
    → binding crate (target r) skip ≡ ok o
    → (is_dns_label r.namespace ≡ true) × (is_dns_label r.service ≡ true) × (o ≡ bound r skip)
unfolding binding check_target
binding-bound crate r skip o h =
    let n : is_dns_label r.namespace ≡ true = ground arith in
    let s : is_dns_label r.service ≡ true = ground arith in
    (n, s, ok-injective _ _ (sym h ∙ binding-checked crate r skip n s))

-- Two in-cluster endpoints with 16-bit ports whose credentials have the same binding are the same
-- endpoint, reached with the same scheme and the same check of certificates.
pub binding-injective :
    (crate : UrlCrate) (a b : ServiceRef) (f g : Bool) (o : Text)
    → a.port < 65536
    → b.port < 65536
    → binding crate (target a) f ≡ ok o
    → binding crate (target b) g ≡ ok o
    → (a ≡ b) × (f ≡ g)
binding-injective crate a b f g o pa pb ha hb =
    let (na, sa, ea) = binding-bound crate a f o ha in
    let (nb, sb, eb) = binding-bound crate b g o hb in
    let (n, r1) =
      cut_unique 47 a.namespace b.namespace _ _ (slash a.namespace na) (slash b.namespace nb)
        (append_left_cancel (codes "in-cluster:") _ _ (sym ea ∙ eb)) in
    let (s, r2) =
      cut_unique 58 a.service b.service _ _ (colon a.service sa) (colon b.service sb) r1 in
    let (p, r3) =
      cut_unique 58 (show_u16 a.port) (show_u16 b.port) _ _
        (digits_free (show_u16 a.port) (show_u16-IsDigits a.port))
        (digits_free (show_u16 b.port) (show_u16-IsDigits b.port)) r2 in
    let (h, skip) = ending-injective a.https b.https f g r3 in
    (
      (λ i. record {
        namespace = n i;
        service = s i;
        port = show_u16-injective a.port b.port pa pb p i;
        https = h i;
      }),
      skip,
    )
  where
    slash : (s : Text) → is_dns_label s ≡ true → any (λ c. c == 47) s ≡ false
    slash s h = dns_label_free 47 s (unfold is_label_byte in refl) h

    colon : (s : Text) → is_dns_label s ≡ true → any (λ c. c == 58) s ≡ false
    colon s h = dns_label_free 58 s (unfold is_label_byte in refl) h

-- The scheme and the host that credentials may be sent to.
abbrev pub IsAccepted : Url → Bool → Type 0
IsAccepted u sends =
    ((u.scheme ≡ codes "https")
      ⊎ ((u.scheme ≡ codes "http") × ((sends ≡ false) ⊎ (is_loopback u.host ≡ true))))
    × (u.username ≡ [])
    × (u.password ≡ none)

is_empty-nil : (s : Text) → is_empty s ≡ true → s ≡ []
is_empty-nil [] h = refl
is_empty-nil (c ∷ s) h = cc

is_some-none : (o : Option Text) → is_some o ≡ false → o ≡ none
is_some-none none h = refl
is_some-none (some s) h = cc

check_parsed-ok :
    (u v : Url) (sends : Bool) → check_parsed u sends ≡ ok v → (u ≡ v) × IsAccepted u sends
unfolding check_parsed
check_parsed-ok u v sends h =
    let same : u ≡ v = ground arith in
    let empty : is_empty u.username ≡ true = ground arith in
    let unset : is_some u.password ≡ false = ground arith in
    let scheme : (text_eq u.scheme (codes "https") ≡ true)
        ⊎ ((text_eq u.scheme (codes "http") ≡ true)
            × ((sends ≡ false) ⊎ (is_loopback u.host ≡ true))) =
      ground arith in
    (same, (scheme_of scheme, is_empty-nil u.username empty, is_some-none u.password unset))
  where
    scheme_of :
        (text_eq u.scheme (codes "https") ≡ true)
          ⊎ ((text_eq u.scheme (codes "http") ≡ true)
              × ((sends ≡ false) ⊎ (is_loopback u.host ≡ true)))
        → (u.scheme ≡ codes "https")
          ⊎ ((u.scheme ≡ codes "http") × ((sends ≡ false) ⊎ (is_loopback u.host ≡ true)))
    scheme_of (inl e) = inl ((text_eq_iff u.scheme (codes "https")).0 e)
    scheme_of (inr (e, k)) = inr ((text_eq_iff u.scheme (codes "http")).0 e, k)

-- An accepted URL is the parsed one without its query and its fragment; it is http or https, holds
-- no credentials, and a request that sends credentials over plain http goes to a loopback host.
pub check_external_url-ok :
    (crate : UrlCrate) (url : Text) (sends : Bool) (u : Url)
    → check_external_url crate url sends ≡ ok u
    → (raw : Url) × (crate.parse (trim url) ≡ ok raw)
      × (u ≡ record raw { query = none; fragment = none })
      × IsAccepted u sends
unfolding check_external_url
check_external_url-ok crate url sends u h =
    let (raw, parsed, checked) = >>=-eq-ok _ _ h in
    let (same, accepted) = check_parsed-ok _ u sends checked in
    (raw, map_err-eq-ok _ _ parsed, sym same, subst (λ v. IsAccepted v sends) same accepted)
