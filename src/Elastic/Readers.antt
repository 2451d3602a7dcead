-- ===== src/Elastic/Readers.antt =====
-- elastic/mod.rs: readers of percent encoding and of quoted strings, for what is escaped there. They
-- read bytes.
use mathlib.Core.List.{append_assoc, append-nil}
use cubelite.Prelude.{
  ℕ, ◌+◌, ◌-◌, ◌*◌, ◌/◌, ◌%◌, ◌≤◌, ◌<◌, ◌≡◌, refl, ap, ◌∙◌, Bool, true, false, ◌||◌, Option, none,
  some, List, [], ◌∷◌, ◌++◌, if◌then◌else◌, ltb, ◌==◌, any, any-append, ==_iff, All, All-append,
  flat_map, flat_map-append, map_option, arith, Bool-cases, inl, inr,
}
use cubelite.Prelude.Texts.{Text, utf8, bytes}
use cubelite.Elastic.Escapes.{
  replace, replacement, is_ascii_alphanumeric, is_unreserved, hex_digit, encode_byte,
  percent_encode,
}

abbrev pub unhex : ℕ → ℕ
unhex d = if ltb d 58 then d - 48 else d - 55

-- Percent decoding; the state says what came of an escape so far.
abbrev pub decode : Option (Option ℕ) → List ℕ → List ℕ
decode state [] = []
decode none (c ∷ s) =
    let plain = c ∷ decode none s in
    let escaped = decode (some none) s in if c == 37 then escaped else plain
decode (some none) (c ∷ s) = decode (some (some (unhex c))) s
decode (some (some h)) (c ∷ s) = (16 * h + unhex c) ∷ decode none s

-- Unicode scalar values, or a few more
abbrev pub IsChars : Text → Type 0
IsChars s = All (λ c. c < 0x11_0000) s

decode-encode_byte :
    (b : ℕ) (rest : List ℕ) → b < 256 → decode none (encode_byte b ++ rest) ≡ b ∷ decode none rest
unfolding encode_byte
decode-encode_byte b rest h = elim (Bool-cases (is_unreserved b)) [
  | inl e ↦ rw (e, plain e) refl
  | inr e ↦ rw e (ground arith)
]
  where
    plain : is_unreserved b ≡ true → (b == 37) ≡ false
    plain e = unfold is_unreserved in unfold is_ascii_alphanumeric in ground arith

decode-flat_map : (s : List ℕ) → All (λ b. b < 256) s → decode none (flat_map encode_byte s) ≡ s
decode-flat_map [] h = refl
decode-flat_map (b ∷ s) h =
    decode-encode_byte b (flat_map encode_byte s) h.0
    ∙ ap (λ (t : List ℕ). b ∷ t) (decode-flat_map s h.1)

-- The bytes of a character are itself, if it is ASCII, or are not ASCII.
utf8-All :
    (P : ℕ → Type 0) (c : ℕ)
    → c < 0x11_0000
    → (c < 128 → P c)
    → ((b : ℕ) → 128 ≤ b → b < 256 → P b)
    → All P (utf8 c)
utf8-All P c h ascii other = elim (Bool-cases (ltb c 0x80)) [
  | inl e ↦ rw e (ascii (ground arith), tt)
  | inr e ↦ rw e (elim (Bool-cases (ltb c 0x800)) [
    | inl f ↦
        rw f (other _ (ground arith) (ground arith), (other _ (omega arith) (omega arith), tt))
    | inr f ↦ rw f (elim (Bool-cases (ltb c 0x1_0000)) [
      | inl g ↦ rw g (
        other _ (ground arith) (ground arith),
        (other _ (omega arith) (omega arith), (other _ (omega arith) (omega arith), tt)),
      )
      | inr g ↦ rw g (
        other _ (ground arith) (ground arith),
        (
          other _ (omega arith) (omega arith),
          (other _ (omega arith) (omega arith), (other _ (omega arith) (omega arith), tt)),
        ),
      )
    ])
  ])
]

pub All-flat_map :
    (P : ℕ → Type 0) (f : ℕ → List ℕ) (s : Text) → All (λ c. All P (f c)) s → All P (flat_map f s)
All-flat_map P f [] h = tt
All-flat_map P f (c ∷ s) h = All-append P (f c) (flat_map f s) h.0 (All-flat_map P f s h.1)

bytes-All : (s : Text) → IsChars s → All (λ b. b < 256) (bytes s)
unfolding bytes
bytes-All s h = All-flat_map (λ b. b < 256) utf8 s (each s h)
  where
    each : (t : Text) → IsChars t → All (λ c. All (λ b. b < 256) (utf8 c)) t
    each [] k = tt
    each (c ∷ t) k = (utf8-All (λ b. b < 256) c k.0 (λ l. omega arith) (λ b l u. u), each t k.1)

-- Percent encoding is undone by decoding.
pub decode-percent_encode : (s : Text) → IsChars s → decode none (percent_encode s) ≡ bytes s
unfolding percent_encode
decode-percent_encode s h = decode-flat_map (bytes s) (bytes-All s h)

-- Percent encoding leaves no such separator.
pub percent_encode-free :
    (sep : ℕ) (s : Text)
    → is_unreserved sep ≡ false
    → (sep == 37) ≡ false
    → ((d : ℕ) → d < 16 → (hex_digit d == sep) ≡ false)
    → IsChars s
    → any (λ c. c == sep) (percent_encode s) ≡ false
unfolding percent_encode
percent_encode-free sep s h k l chars = free (bytes s) (bytes-All s chars)
  where
    one : (b : ℕ) → b < 256 → any (λ c. c == sep) (encode_byte b) ≡ false
    one b small = elim (Bool-cases (is_unreserved b)) [
      | inl e ↦
          unfold encode_byte in
          rw e (elim (Bool-cases (b == sep)) [
            | inl f ↦ let same : b ≡ sep = (==_iff b sep).0 f in cc (h, e, same)
            | inr f ↦ rw f refl
          ])
      | inr e ↦ unfold encode_byte in rw e (ground (arith, l (b / 16), l (b % 16)))
    ]

    free :
        (t : List ℕ) → All (λ b. b < 256) t → any (λ c. c == sep) (flat_map encode_byte t) ≡ false
    free [] small = refl
    free (b ∷ t) small =
        any-append (λ c. c == sep) (encode_byte b) (flat_map encode_byte t)
        ∙ ground (arith, one b small.0, free t small.1)

abbrev pub push_byte : ℕ → Option (List ℕ × List ℕ) → Option (List ℕ × List ℕ)
push_byte c read = map_option (λ (r : List ℕ × List ℕ). (c ∷ r.0, r.1)) read

-- The rest of a quoted string and what follows it. The flag says that the escape sign came before,
-- after which stands the quote or the sign itself.
abbrev pub read_quoted : ℕ → ℕ → Bool → List ℕ → Option (List ℕ × List ℕ)
read_quoted sign quote escaped [] = none
read_quoted sign quote true (c ∷ s) =
    let rest = read_quoted sign quote false s in
    if c == sign || c == quote then push_byte c rest else none
read_quoted sign quote false (c ∷ s) =
    let rest = read_quoted sign quote false s in
    let after = read_quoted sign quote true s in
    if c == quote then some ([], s) else if c == sign then after else push_byte c rest

-- A character in a string that is escaped by two replacements
abbrev escaped_char : ℕ → ℕ → ℕ → Text
escaped_char sign quote c =
    if c == sign then sign ∷ sign ∷ [] else if c == quote then sign ∷ quote ∷ [] else c ∷ []

abbrev pub escaped_text : ℕ → ℕ → Text → Text
escaped_text sign quote s = replace quote (sign ∷ quote ∷ []) (replace sign (sign ∷ sign ∷ []) s)

module _ (sign quote : ℕ) (apart : (sign == quote) ≡ false) (low : sign < 128)
    (low' : quote < 128) where
  escaped-cons :
      (c : ℕ) (s : Text)
      → escaped_text sign quote (c ∷ s) ≡ escaped_char sign quote c ++ escaped_text sign quote s
  unfolding replace
  escaped-cons c s =
      flat_map-append (replacement quote (sign ∷ quote ∷ []))
        (replacement sign (sign ∷ sign ∷ []) c) (flat_map (replacement sign (sign ∷ sign ∷ [])) s)
      ∙ ap (λ (t : Text). t ++ escaped_text sign quote s) (ground arith)

  read-plain :
      (bs rest : List ℕ)
      → All (λ b. ((b == sign) ≡ false) × ((b == quote) ≡ false)) bs
      → read_quoted sign quote false (bs ++ rest)
        ≡ map_option (λ (r : List ℕ × List ℕ). (bs ++ r.0, r.1)) (read_quoted sign quote false rest)
  read-plain [] rest h = same (read_quoted sign quote false rest)
    where
      same : (o : Option (List ℕ × List ℕ)) → o ≡ map_option (λ (r : List ℕ × List ℕ). (r.0, r.1)) o
      same none = refl
      same (some r) = refl
  read-plain (b ∷ bs) rest h =
      rw (h.0.1, h.0.0)
        (ap (push_byte b) (read-plain bs rest h.1) ∙ fused (read_quoted sign quote false rest))
    where
      fused :
          (o : Option (List ℕ × List ℕ))
          → push_byte b (map_option (λ (r : List ℕ × List ℕ). (bs ++ r.0, r.1)) o)
            ≡ map_option (λ (r : List ℕ × List ℕ). (b ∷ (bs ++ r.0), r.1)) o
      fused none = refl
      fused (some r) = refl

  utf8-low : (c : ℕ) → c < 128 → utf8 c ≡ c ∷ []
  utf8-low c h = ground arith

  eq_refl : (n : ℕ) → (n == n) ≡ true
  eq_refl n = (==_iff n n).1 refl

  abbrev prefixed : List ℕ → Option (List ℕ × List ℕ) → Option (List ℕ × List ℕ)
  prefixed bs read = map_option (λ (r : List ℕ × List ℕ). (bs ++ r.0, r.1)) read

  read-sign :
      (rest : List ℕ)
      → read_quoted sign quote false (flat_map utf8 (sign ∷ sign ∷ []) ++ rest)
        ≡ prefixed (utf8 sign) (read_quoted sign quote false rest)
  read-sign rest = rw (utf8-low sign low) (rw (apart, eq_refl sign) refl)

  read-quote :
      (rest : List ℕ)
      → read_quoted sign quote false (flat_map utf8 (sign ∷ quote ∷ []) ++ rest)
        ≡ prefixed (utf8 quote) (read_quoted sign quote false rest)
  read-quote rest =
      rw (utf8-low sign low, utf8-low quote low')
        (rw (apart, eq_refl sign, eq_refl quote) (ground arith))

  utf8-apart :
      (c : ℕ)
      → c < 0x11_0000
      → (c == sign) ≡ false
      → (c == quote) ≡ false
      → All (λ b. ((b == sign) ≡ false) × ((b == quote) ≡ false)) (utf8 c)
  utf8-apart c h n m =
      utf8-All (λ b. ((b == sign) ≡ false) × ((b == quote) ≡ false)) c h (λ l. (n, m))
        (λ b l u. (ground arith, ground arith))

  read-char :
      (c : ℕ) (rest : List ℕ)
      → c < 0x11_0000
      → read_quoted sign quote false (flat_map utf8 (escaped_char sign quote c) ++ rest)
        ≡ prefixed (utf8 c) (read_quoted sign quote false rest)
  read-char c rest h = elim (Bool-cases (c == sign)) [
    | inl e ↦ let same : c ≡ sign = (==_iff c sign).0 e in rw e (rw same (read-sign rest))
    | inr e ↦ elim (Bool-cases (c == quote)) [
      | inl f ↦ let same : c ≡ quote = (==_iff c quote).0 f in rw (e, f) (rw same (read-quote rest))
      | inr f ↦
          rw (e, f)
            (ap (λ (t : List ℕ). read_quoted sign quote false (t ++ rest)) (append-nil (utf8 c))
              ∙ read-plain (utf8 c) rest (utf8-apart c h e f))
    ]
  ]

  -- A text that is escaped and put in quotes is read back, whatever follows.
  pub read_quoted-escaped_text :
      (s : Text) (rest : List ℕ)
      → IsChars s
      → read_quoted sign quote false (bytes (escaped_text sign quote s) ++ quote ∷ rest)
        ≡ some (bytes s, rest)
  unfolding bytes
  read_quoted-escaped_text [] rest h = unfold replace in rw (eq_refl quote) refl
  read_quoted-escaped_text (c ∷ s) rest h =
      ap (λ (t : Text). read_quoted sign quote false (flat_map utf8 t ++ quote ∷ rest))
        (escaped-cons c s)
      ∙ ap (λ (t : List ℕ). read_quoted sign quote false (t ++ quote ∷ rest))
          (flat_map-append utf8 (escaped_char sign quote c) (escaped_text sign quote s))
      ∙ ap (read_quoted sign quote false) (
          append_assoc (flat_map utf8 (escaped_char sign quote c))
            (flat_map utf8 (escaped_text sign quote s)) (quote ∷ rest))
      ∙ read-char c (flat_map utf8 (escaped_text sign quote s) ++ quote ∷ rest) h.0
      ∙ ap (prefixed (utf8 c)) (read_quoted-escaped_text s rest h.1)
