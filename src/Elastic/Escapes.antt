-- ===== src/Elastic/Escapes.antt =====
-- elastic/mod.rs and elastic/cluster_filter.rs: the escapes of Rison, KQL and Lucene, and percent
-- encoding.
use cubelite.Prelude.{
  ℕ, ◌+◌, ◌/◌, ◌%◌, Bool, ◌&&◌, ◌||◌, not, [], ◌∷◌, ◌++◌, if◌then◌else◌, leb, ltb, ◌==◌, any,
  flat_map,
}
use cubelite.Prelude.Texts.{Text, codes, bytes, is_whitespace}

-- `str::replace` of one character
abbrev pub replacement : ℕ → Text → ℕ → Text
replacement from to c = if c == from then to else c ∷ []

unfoldable pub replace : ℕ → Text → Text → Text
replace from to s = flat_map (replacement from to) s

unfoldable pub rison : Text → Text
unfolding replace
rison s = 39 ∷ (replace 39 (33 ∷ 39 ∷ []) (replace 33 (33 ∷ 33 ∷ []) s) ++ 39 ∷ [])

unfoldable pub kql : Text → Text
unfolding replace
kql s = 34 ∷ (replace 34 (92 ∷ 34 ∷ []) (replace 92 (92 ∷ 92 ∷ []) s) ++ 34 ∷ [])

-- A character, after a backslash if it is special
abbrev pub with_backslash : (ℕ → Bool) → ℕ → Text
with_backslash special c = if special c then 92 ∷ c ∷ [] else c ∷ []

abbrev pub lucene_operators : Text
lucene_operators = 34 ∷ 92 ∷ codes ".?+*|{}[]()#@&<>~/"

unfoldable pub is_operator : ℕ → Bool
is_operator c = any (λ m. c == m) lucene_operators

unfoldable pub lucene_regex_literal : Text → Text
unfolding is_operator
lucene_regex_literal name = flat_map (with_backslash is_operator) name

unfoldable pub is_ascii_alphanumeric : ℕ → Bool
is_ascii_alphanumeric c =
    leb b'A' c && leb c b'Z' || leb b'a' c && leb c b'z' || leb b'0' c && leb c b'9'

unfoldable pub is_plain : ℕ → Bool
unfolding is_ascii_alphanumeric
is_plain c = is_ascii_alphanumeric c || c == b'.' || c == b'_'

unfoldable pub lucene_field : Text → Text
unfolding is_plain
lucene_field name = flat_map (with_backslash (λ c. not (is_plain c))) name

abbrev pub kql_operators : Text
kql_operators = 34 ∷ 92 ∷ codes "():<>*{}"

unfoldable pub is_special : ℕ → Bool
unfolding is_whitespace
is_special c = is_whitespace c || any (λ m. c == m) kql_operators

unfoldable pub kql_field : Text → Text
unfolding is_special
kql_field name = flat_map (with_backslash is_special) name

unfoldable pub is_unreserved : ℕ → Bool
unfolding is_ascii_alphanumeric
is_unreserved b = is_ascii_alphanumeric b || b == b'-' || b == b'.' || b == b'_' || b == b'~'

-- `{:X}` of one digit
abbrev pub hex_digit : ℕ → ℕ
hex_digit d = if ltb d 10 then 48 + d else 55 + d

unfoldable pub encode_byte : ℕ → Text
unfolding is_unreserved
encode_byte b =
    if is_unreserved b then b ∷ [] else 37 ∷ hex_digit (b / 16) ∷ hex_digit (b % 16) ∷ []

unfoldable pub percent_encode : Text → Text
unfolding encode_byte
percent_encode s = flat_map encode_byte (bytes s)
