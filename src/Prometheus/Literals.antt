-- ===== src/Prometheus/Literals.antt =====
-- prometheus/mod.rs: what the escapes are for, read back by a reader of literals.
use mathlib.Core.List.{append_assoc}
use cubelite.Prelude.{
  ℕ, ◌≡◌, refl, ap, List, any, ◌∙◌, Bool, true, false, Option, none, some, [], ◌∷◌, ◌++◌,
  if◌then◌else◌, flat_map, map_option, ◌==◌, arith, Bool-cases, inl, inr,
}
use cubelite.Prelude.Texts.{Text}
use cubelite.Prometheus.Query.{escape_char, escape, is_meta, regex_literal}

-- What a backslash and a character stand for in a double-quoted PromQL string
abbrev pub escaped : ℕ → Option ℕ
escaped c =
    if c == 92
    then some 92
    else if c == 34
    then some 34
    else if c == b'n'
    then some 10
    else if c == b'r'
    then some 13
    else none

abbrev pub push_char : ℕ → Option (Text × Text) → Option (Text × Text)
push_char c read = map_option (λ (r : Text × Text). (c ∷ r.0, r.1)) read

-- The rest of a string, from inside it, up to the quote that ends it; the flag says that a backslash
-- came before. A line feed may not stand in a string.
abbrev pub read_body : Bool → Text → Option (Text × Text)
read_body escape [] = none
read_body true (c ∷ s) =
    let rest = read_body false s in elim (escaped c) [ none ↦ none | some d ↦ push_char d rest ]
read_body false (c ∷ s) =
    let rest = read_body false s in
    let after = read_body true s in
    if c == 34
    then some ([], s)
    else if c == 92
    then after
    else if c == 10
    then none
    else push_char c rest

-- A string literal at the start of a text, and what follows it
abbrev pub read_string : Text → Option (Text × Text)
read_string [] = none
read_string (c ∷ s) = if c == 34 then read_body false s else none

read_body-escape_char :
    (c : ℕ) (rest : Text)
    → read_body false (escape_char c ++ rest) ≡ push_char c (read_body false rest)
unfolding escape_char
read_body-escape_char c rest = ground arith

read_body-flat_map :
    (value rest : Text)
    → read_body false (flat_map escape_char value ++ 34 ∷ rest) ≡ some (value, rest)
read_body-flat_map [] rest = refl
read_body-flat_map (c ∷ value) rest =
    ap (read_body false) (append_assoc (escape_char c) (flat_map escape_char value) (34 ∷ rest))
    ∙ read_body-escape_char c (flat_map escape_char value ++ 34 ∷ rest)
    ∙ ap (push_char c) (read_body-flat_map value rest)

-- A text that is escaped as a PromQL string is read back as that text, whatever follows it: no
-- character of it ends the literal.
pub read_string-escape :
    (value rest : Text) → read_string (escape value ++ rest) ≡ some (value, rest)
unfolding escape
read_string-escape value rest =
    ap (read_body false) (append_assoc (flat_map escape_char value) (34 ∷ []) rest)
    ∙ read_body-flat_map value rest

-- The characters that RE2's syntax gives a meaning, the backslash among them
abbrev pub operators : List ℕ
operators = 92 ∷ 46 ∷ 43 ∷ 42 ∷ 63 ∷ 40 ∷ 41 ∷ 124 ∷ 91 ∷ 93 ∷ 123 ∷ 125 ∷ 94 ∷ 36 ∷ []

unfoldable pub is_operator : ℕ → Bool
is_operator c = any (λ o. c == o) operators

is_meta-is_operator : (c : ℕ) → is_meta c ≡ is_operator c
unfolding is_meta is_operator
is_meta-is_operator c = refl

-- The text that a regular expression without operators matches; `none` if it has one
abbrev pub read_regex : Bool → Text → Option Text
read_regex false [] = some []
read_regex true [] = none
read_regex true (c ∷ s) =
    let rest = read_regex false s in if is_operator c then map_option (λ t. c ∷ t) rest else none
read_regex false (c ∷ s) =
    let rest = read_regex false s in
    let after = read_regex true s in
    if c == 92 then after else if is_operator c then none else map_option (λ t. c ∷ t) rest

is_operator-backslash : (c : ℕ) → is_operator c ≡ false → (c == 92) ≡ false
unfolding is_operator
is_operator-backslash c h = ground arith

read_regex-char :
    (c : ℕ) (s : Text)
    → read_regex false ((if is_operator c then 92 ∷ c ∷ [] else c ∷ []) ++ s)
      ≡ map_option (λ (t : Text). c ∷ t) (read_regex false s)
read_regex-char c s = elim (Bool-cases (is_operator c)) [
  | inl e ↦ rw (e, e) refl
  | inr e ↦ rw (e, is_operator-backslash c e, e) refl
]

-- A name made a regular expression has no operator, of which a list of their own stands with the
-- reader, and matches that name only.
pub read_regex-regex_literal : (name : Text) → read_regex false (regex_literal name) ≡ some name
unfolding regex_literal
read_regex-regex_literal [] = refl
read_regex-regex_literal (c ∷ name) =
    ap (λ b. read_regex false ((if b then 92 ∷ c ∷ [] else c ∷ []) ++ regex_literal name))
      (is_meta-is_operator c)
    ∙ read_regex-char c (regex_literal name)
    ∙ ap (map_option (λ (t : Text). c ∷ t)) (read_regex-regex_literal name)
