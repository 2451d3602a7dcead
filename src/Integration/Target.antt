-- ===== src/Integration/Target.antt =====
-- integration.rs: where an endpoint lives, what stored credentials are bound to, and the checks of
-- names and external URLs. The crate `url` is a record of functions.
use cubelite.Prelude.{
  ℕ, ◌+◌, map, Bool, true, false, ◌&&◌, ◌||◌, not, Option, none, some, [], ◌∷◌, ◌++◌, if◌then◌else◌,
  all, is_empty, leb, ◌==◌, length, is_some, last, first,
}
use cubelite.Prelude.Results.{Result, ok, err, ◌>>=◌, map_err}
use cubelite.Prelude.Texts.{Text, codes, text_eq, trim, bytes, contains, show_u16}
use cubelite.Paths.{split}

pub data Target : Type 0 where
  in_cluster : Text → Text → ℕ → Bool → Target
  external : Text → Target

pub record ServiceRef : Type 0 where
  pub namespace : Text
  pub service : Text
  pub port : ℕ
  pub https : Bool

abbrev pub target : ServiceRef → Target
target r = in_cluster r.namespace r.service r.port r.https

-- `url::Host`; of an address only whether it is a loopback one matters
pub data Host : Type 0 where
  domain : Text → Host
  ipv4 ipv6 : Bool → Host

-- a parsed URL, as far as it is read; the query and the fragment are dropped by their setters
pub record Url : Type 0 where
  pub scheme : Text
  pub username : Text
  pub password : Option Text
  pub host : Option Host
  pub query : Option Text
  pub fragment : Option Text
  pub path : Text

pub record UrlCrate : Type 0 where
  pub parse : Text → Result Text Url
  pub origin : Url → Text

-- ASCII letters, digits and the dash
unfoldable pub is_label_byte : ℕ → Bool
is_label_byte b = leb b'a' b && leb b b'z' || leb b'0' b && leb b b'9' || b == b'-'

abbrev pub is_dash : Option ℕ → Bool
is_dash none = false
is_dash (some c) = c == b'-'

unfoldable pub is_dns_label : Text → Bool
unfolding is_label_byte
is_dns_label name =
    not (is_empty name)
    && leb (length (bytes name)) 63
    && all is_label_byte (bytes name)
    && not (is_dash (first name))
    && not (is_dash (last name))

-- A resource name: labels, or digits, between dots.
unfoldable pub is_digit : ℕ → Bool
is_digit b = leb b'0' b && leb b b'9'

unfoldable pub is_resource_name : Text → Bool
unfolding is_dns_label is_digit
is_resource_name name =
    not (is_empty name)
    && leb (length (bytes name)) 253
    && not (contains name (codes ".."))
    && all (λ part. is_dns_label part || all is_digit (bytes part)) (split b'.' name)

abbrev pub quoted : Text → Text
quoted name = 34 ∷ name ++ 34 ∷ []

abbrev pub invalid_name : Text → Text → Text
invalid_name what name = codes "Invalid " ++ what ++ codes " name " ++ quoted name

unfoldable pub check_target : Target → Result Text (Unit {0})
check_target (external url) = ok tt
check_target (in_cluster namespace service port https) =
    if not (is_dns_label namespace)
    then err (invalid_name (codes "namespace") namespace)
    else if not (is_dns_label service)
    then err (invalid_name (codes "service") service)
    else ok tt

abbrev pub scheme_text : Bool → Text
scheme_text true = codes "https"
scheme_text false = codes "http"

-- `in-cluster:{namespace}/{service}:{port}:{scheme}`
unfoldable pub cluster_origin : Text → Text → ℕ → Bool → Text
cluster_origin namespace service port https =
    codes "in-cluster:"
    ++ (namespace ++ 47 ∷ (service ++ 58 ∷ (show_u16 port ++ 58 ∷ scheme_text https)))

unfoldable pub origin_of : UrlCrate → Target → Result Text Text
unfolding cluster_origin
origin_of crate (external url) =
    map_err (λ e. codes "Invalid URL " ++ quoted url ++ codes ": " ++ e) (crate.parse (trim url))
    >>= λ parsed. ok (crate.origin parsed)
origin_of crate (in_cluster namespace service port https) =
    ok (cluster_origin namespace service port https)

unfoldable pub binding : UrlCrate → Target → Bool → Result Text Text
unfolding check_target origin_of
binding crate t skip_tls_verify = do
  checked ← check_target t
  origin ← origin_of crate t
  ok (if skip_tls_verify then origin ++ codes "|insecure" else origin)

unfoldable pub check_shared : Target → Bool → Result Text (Unit {0})
check_shared (in_cluster namespace service port https) true =
    err (codes "A default endpoint shared by every context must be an external URL")
check_shared _ shared = ok tt

-- `eq_ignore_ascii_case("localhost")`
unfoldable pub to_ascii_lowercase : ℕ → ℕ
to_ascii_lowercase c = if leb b'A' c && leb c b'Z' then c + 32 else c

abbrev pub is_loopback : Option Host → Bool
is_loopback none = false
is_loopback (some (domain d)) = text_eq (map to_ascii_lowercase d) (codes "localhost")
is_loopback (some (ipv4 loopback)) = loopback
is_loopback (some (ipv6 loopback)) = loopback

unfoldable pub check_parsed : Url → Bool → Result Text Url
unfolding to_ascii_lowercase
check_parsed parsed sends_credentials =
    if not (text_eq parsed.scheme (codes "http") || text_eq parsed.scheme (codes "https"))
    then err (codes "Invalid URL: use http:// or https://")
    else if not (is_empty parsed.username) || is_some parsed.password
    then err (codes "Put credentials in the authentication fields, not in the URL")
    else if text_eq parsed.scheme (codes "http")
        && sends_credentials
        && not (is_loopback parsed.host)
    then err (codes "Credentials are only sent over https://")
    else ok parsed

-- The query and the fragment are dropped before the checks.
unfoldable pub check_external_url : UrlCrate → Text → Bool → Result Text Url
unfolding check_parsed
check_external_url crate url sends_credentials = do
  parsed ← map_err (λ e. codes "Invalid URL: " ++ e) (crate.parse (trim url))
  check_parsed (record parsed { query = none; fragment = none }) sends_credentials

unfoldable pub service_host : Text → Text → Text
service_host namespace service = service ++ 46 ∷ (namespace ++ codes ".svc")
