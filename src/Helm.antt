-- ===== src/Helm.antt =====
-- helm.rs: the releases that Helm keeps in secrets. Base64 and gzip, from the payload's bytes to its
-- JSON document, are one function.
pub mod Releases
mod Examples
use Prim.Native.Nat.{Ordering}
use cubelite.Prelude.{
  ℕ, zero, suc, ◌+◌, ◌-◌, ◌*◌, ◌^◌, Bool, true, false, ◌&&◌, not, Option, none, some, List, [], ◌∷◌,
  ◌++◌, map, if◌then◌else◌, leb, ltb, all, is_empty, and_then, map_option, unwrap_or, or_else, ◌==◌,
}
use cubelite.Prelude.BTree
use cubelite.Prelude.Int.{ℤ, pos, negsuc}
use cubelite.Prelude.Order.{then_with, text_cmp}
use cubelite.Prelude.Texts.{Text, codes, digits_value}
use cubelite.Json.{Value, get, get_str, as_str}

pub record HelmReleaseInfo : Type 0 where
  pub name : Text
  pub namespace : Text
  pub revision : ℤ
  pub status : Option Text
  pub chart : Option Text
  pub app_version : Option Text
  pub updated : Option Text

-- What is read of a `Secret`
pub record Secret : Type 0 where
  pub labels : Option (List (Text × Text))
  pub namespace : Option Text
  pub creation_timestamp : Option Text
  pub data_entries : Option (List (Text × List ℕ))

abbrev pub lookup_text : {V : Type 0} → List (Text × V) → Text → Option V
lookup_text m k = BTree.get text_cmp m k

abbrev pub is_decimal : Text → Bool
is_decimal s = not (is_empty s) && all (λ c. leb b'0' c && leb c b'9') s

-- `parse::<i32>()`
unfoldable pub parse_digits : Text → Option ℤ
parse_digits s =
    if is_decimal s && ltb (digits_value 0 s) (2 ^ 31) then some (pos (digits_value 0 s)) else none

abbrev pub negated : ℕ → ℤ
negated zero = pos 0
negated (suc n) = negsuc n

unfoldable pub parse_negative : Text → Option ℤ
parse_negative s =
    if is_decimal s && leb (digits_value 0 s) (2 ^ 31)
    then some (negated (digits_value 0 s))
    else none

unfoldable pub parse_i32 : Text → Option ℤ
unfolding parse_digits parse_negative
parse_i32 [] = none
parse_i32 (c ∷ s) =
    if c == b'-'
    then parse_negative s
    else if c == b'+'
    then parse_digits s
    else parse_digits (c ∷ s)

-- `doc[key]`, which is null for a missing key
abbrev pub at_key : Value → Text → Value
at_key doc key = unwrap_or (get doc key) Value.null

abbrev pub chart_of : Option Text → Option Text → Option Text
chart_of (some n) (some v) = some (n ++ (codes "-" ++ v))
chart_of (some n) none = some n
chart_of none version = none

-- The chart, its version of the application and the time of the deployment
unfoldable pub payload_details : Option Value → Option Text × Option Text × Option Text
unfolding get as_str
payload_details none = (none, none, none)
payload_details (some doc) =
    let meta : Value = at_key (at_key doc (codes "chart")) (codes "metadata") in
    (
      chart_of (get_str meta (codes "name")) (get_str meta (codes "version")),
      get_str meta (codes "appVersion"),
      get_str (at_key doc (codes "info")) (codes "last_deployed"),
    )

unfoldable pub parse_release_secret : (List ℕ → Option Value) → Secret → Option HelmReleaseInfo
unfolding parse_i32 payload_details
parse_release_secret decode_release_payload secret = and_then secret.labels (λ labels.
    and_then (lookup_text labels (codes "name")) (λ name.
      let payload : Option Value =
        and_then (and_then secret.data_entries (λ d. lookup_text d (codes "release")))
          decode_release_payload in
      let details : Option Text × Option Text × Option Text = payload_details payload in
      some (record {
        name = name;
        namespace = unwrap_or secret.namespace [];
        revision = unwrap_or (and_then (lookup_text labels (codes "version")) parse_i32) (pos 0);
        status = lookup_text labels (codes "status");
        chart = details.0;
        app_version = details.1;
        updated = or_else details.2 secret.creation_timestamp;
      })))

abbrev pub ReleaseKey : Type 0
ReleaseKey = Text × Text

unfoldable pub release_key : HelmReleaseInfo → ReleaseKey
release_key release = (release.namespace, release.name)

-- The order of pairs of strings
unfoldable pub key_cmp : ReleaseKey → ReleaseKey → Ordering
key_cmp a b = then_with (text_cmp a.0 b.0) (text_cmp a.1 b.1)

-- `>=` on `i32`
unfoldable pub int_leb : ℤ → ℤ → Bool
int_leb (pos a) (pos b) = leb a b
int_leb (pos a) (negsuc b) = false
int_leb (negsuc a) (pos b) = true
int_leb (negsuc a) (negsuc b) = leb b a

abbrev pub Latest : Type 0
Latest = List (ReleaseKey × HelmReleaseInfo)

-- The body of the loop
unfoldable pub keep_latest : Latest → HelmReleaseInfo → Latest
unfolding release_key int_leb key_cmp BTree.get BTree.insert
keep_latest latest release = elim (BTree.get key_cmp latest (release_key release)) [
  | some existing ↦
      if int_leb release.revision existing.revision
      then latest
      else BTree.insert key_cmp latest (release_key release) release
  | none ↦ BTree.insert key_cmp latest (release_key release) release
]

unfoldable pub keep_all : Latest → List HelmReleaseInfo → Latest
unfolding keep_latest
keep_all latest [] = latest
keep_all latest (release ∷ releases) = keep_all (keep_latest latest release) releases

unfoldable pub latest_releases : List HelmReleaseInfo → List HelmReleaseInfo
unfolding keep_all
latest_releases releases =
    map (λ (entry : ReleaseKey × HelmReleaseInfo). entry.1) (keep_all [] releases)
