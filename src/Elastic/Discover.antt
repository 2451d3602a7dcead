-- ===== src/Elastic/Discover.antt =====
-- elastic/mod.rs: a Discover link, read back by a reader of Kibana's URL state.
use mathlib.Core.List.{append_assoc}
use cubelite.Prelude.{
  ℕ, ◌<◌, ◌≡◌, refl, sym, ap, ◌∙◌, false, Option, none, some, List, [], ◌∷◌, ◌++◌, ◌==◌, any, All,
  All-append, Bool-cases, inl, inr, flat_map-append, and_then, arith,
}
use cubelite.Prelude.Split.{split_once, split_once-append, strip_prefix-append}
use cubelite.Prelude.Texts.{Text, codes, bytes, strip_prefix, utf8}
use cubelite.Elastic.Escapes.{replace, replacement, rison, percent_encode, is_unreserved}
use cubelite.Elastic.Links.{clean_base, discover_link, time_state, query_state}
use cubelite.Elastic.Readers.{
  decode, IsChars, All-flat_map, decode-percent_encode, percent_encode-free, read_quoted,
  escaped_text, read_quoted-escaped_text,
}

-- A Rison string, from its opening quote, and what follows
abbrev pub read_rison : List ℕ → Option (List ℕ × List ℕ)
read_rison t = and_then (strip_prefix t (39 ∷ [])) (read_quoted 33 39 false)

-- A text that is exactly this one
abbrev pub ended : List ℕ → List ℕ → Option (Unit {0})
ended t expected =
    and_then (strip_prefix t expected) (λ rest. elim rest [ [] ↦ some tt | b ∷ bs ↦ none ])

-- The start and the end of the time range in `_g`
abbrev pub read_time : List ℕ → Option (List ℕ × List ℕ)
read_time t = and_then (strip_prefix t (codes "(time:(from:")) (λ a.
    and_then (read_rison a) (λ from. and_then (strip_prefix from.1 (codes ",to:")) (λ b.
      and_then (read_rison b)
        (λ to. and_then (ended to.1 (codes "))")) (λ _. some (from.0, to.0))))))

-- The language and the query in `_a`
abbrev pub read_query : List ℕ → Option (List ℕ × List ℕ)
read_query t = and_then (strip_prefix t (codes "(query:(language:")) (λ a.
    and_then (split_once 44 a) (λ language.
      and_then (strip_prefix language.1 (codes "query:")) (λ b.
        and_then (read_rison b)
          (λ query. and_then (ended query.1 (codes "))")) (λ _. some (language.0, query.0))))))

-- The time range, the language and the query of a link to Discover under this base
abbrev pub read_link : Text → Text → Option ((List ℕ × List ℕ) × (List ℕ × List ℕ))
read_link base link = and_then (strip_prefix link (base ++ codes "/app/discover#/?_g=")) (λ params.
    and_then (split_once 38 params) (λ states.
      and_then (strip_prefix states.1 (codes "_a=")) (λ state.
        and_then (read_time (decode none states.0))
          (λ time. and_then (read_query (decode none state)) (λ query. some (time, query))))))

bytes-append : (a b : Text) → bytes (a ++ b) ≡ bytes a ++ bytes b
unfolding bytes
bytes-append a b = flat_map-append utf8 a b

read_rison-rison :
    (s : Text) (rest : List ℕ)
    → IsChars s
    → read_rison (bytes (rison s) ++ rest) ≡ some (bytes s, rest)
unfolding rison bytes strip_prefix
read_rison-rison s rest h =
    ap (λ (t : List ℕ). read_quoted 33 39 false (t ++ rest))
      (bytes-append (escaped_text 33 39 s) (39 ∷ []))
    ∙ ap (read_quoted 33 39 false) (append_assoc (bytes (escaped_text 33 39 s)) (39 ∷ []) rest)
    ∙ read_quoted-escaped_text 33 39 refl (omega arith) (omega arith) s rest h

bytes-time_state :
    (from to : Text)
    → bytes (time_state from to)
      ≡ codes "(time:(from:"
        ++ (bytes (rison from) ++ (codes ",to:" ++ (bytes (rison to) ++ codes "))")))
bytes-time_state from to =
    bytes-append (codes "(time:(from:") (rison from ++ (codes ",to:" ++ (rison to ++ codes "))")))
    ∙ ap (λ (t : List ℕ). bytes (codes "(time:(from:") ++ t)
        (bytes-append (rison from) (codes ",to:" ++ (rison to ++ codes "))"))
          ∙ ap (λ (t : List ℕ). bytes (rison from) ++ t)
              (bytes-append (codes ",to:") (rison to ++ codes "))")
                ∙ ap (λ (t : List ℕ). bytes (codes ",to:") ++ t)
                    (bytes-append (rison to) (codes "))"))))
    ∙ (unfold bytes in refl)

read_time-time_state :
    (from to : Text)
    → IsChars from
    → IsChars to
    → read_time (bytes (time_state from to)) ≡ some (bytes from, bytes to)
read_time-time_state from to h k = rw (bytes-time_state from to) (
    rw
      (
        strip_prefix-append (codes "(time:(from:")
            (bytes (rison from) ++ (codes ",to:" ++ (bytes (rison to) ++ codes "))"))),
        read_rison-rison from (codes ",to:" ++ (bytes (rison to) ++ codes "))")) h,
        strip_prefix-append (codes ",to:") (bytes (rison to) ++ codes "))"),
        read_rison-rison to (codes "))") k,
      )
      (unfold strip_prefix in refl))

bytes-query_state :
    (language query : Text)
    → bytes (query_state language query)
      ≡ codes "(query:(language:"
        ++ (bytes language ++ (codes ",query:" ++ (bytes (rison query) ++ codes "))")))
bytes-query_state language query =
    bytes-append (codes "(query:(language:")
      (language ++ (codes ",query:" ++ (rison query ++ codes "))")))
    ∙ ap (λ (t : List ℕ). bytes (codes "(query:(language:") ++ t)
        (bytes-append language (codes ",query:" ++ (rison query ++ codes "))"))
          ∙ ap (λ (t : List ℕ). bytes language ++ t)
              (bytes-append (codes ",query:") (rison query ++ codes "))")
                ∙ ap (λ (t : List ℕ). bytes (codes ",query:") ++ t)
                    (bytes-append (rison query) (codes "))"))))
    ∙ (unfold bytes in refl)

read_query-query_state :
    (language query : Text)
    → any (λ c. c == 44) (bytes language) ≡ false
    → IsChars query
    → read_query (bytes (query_state language query)) ≡ some (bytes language, bytes query)
read_query-query_state language query h k = rw (bytes-query_state language query) (
    rw
      (
        strip_prefix-append (codes "(query:(language:")
            (bytes language ++ (codes ",query:" ++ (bytes (rison query) ++ codes "))"))),
        split_once-append 44 (bytes language)
            (codes "query:" ++ (bytes (rison query) ++ codes "))")) h,
        strip_prefix-append (codes "query:") (bytes (rison query) ++ codes "))"),
        read_rison-rison query (codes "))") k,
      )
      (unfold strip_prefix in refl))

IsChars-replace : (from : ℕ) (to s : Text) → IsChars to → IsChars s → IsChars (replace from to s)
unfolding replace
IsChars-replace from to s h k = All-flat_map (λ c. c < 0x11_0000) (replacement from to) s (each s k)
  where
    each : (t : Text) → IsChars t → All (λ c. IsChars (replacement from to c)) t
    each [] m = tt
    each (c ∷ t) m = (one c m.0, each t m.1)
      where
        one : (d : ℕ) → d < 0x11_0000 → IsChars (replacement from to d)
        one d n = elim (Bool-cases (d == from)) [ inl e ↦ rw e h | inr e ↦ rw e (n, tt) ]

IsChars-append : (a b : Text) → IsChars a → IsChars b → IsChars (a ++ b)
IsChars-append a b h k = All-append (λ c. c < 0x11_0000) a b h k

IsChars-rison : (s : Text) → IsChars s → IsChars (rison s)
unfolding rison
IsChars-rison s h = (
  omega arith,
  IsChars-append (escaped_text 33 39 s) (39 ∷ [])
      (IsChars-replace 39 (33 ∷ 39 ∷ []) (replace 33 (33 ∷ 33 ∷ []) s) (omega arith)
        (IsChars-replace 33 (33 ∷ 33 ∷ []) s (omega arith) h))
      (omega arith),
)

IsChars-time_state : (from to : Text) → IsChars from → IsChars to → IsChars (time_state from to)
IsChars-time_state from to h k = IsChars-append (codes "(time:(from:") _ (omega arith) (
    IsChars-append (rison from) _ (IsChars-rison from h) (
      IsChars-append (codes ",to:") _ (omega arith)
        (IsChars-append (rison to) (codes "))") (IsChars-rison to k) (omega arith))))

IsChars-query_state :
    (language query : Text)
    → IsChars language
    → IsChars query
    → IsChars (query_state language query)
IsChars-query_state language query h k =
    IsChars-append (codes "(query:(language:") _ (omega arith) (
      IsChars-append language _ h (
        IsChars-append (codes ",query:") _ (omega arith)
          (IsChars-append (rison query) (codes "))") (IsChars-rison query k) (omega arith))))

ampersand_free : (s : Text) → IsChars s → any (λ c. c == 38) (percent_encode s) ≡ false
ampersand_free s h =
    percent_encode-free 38 s (unfold is_unreserved in refl) refl (λ d l. ground arith) h

-- A link to Kibana Discover is read back, by a reader of Kibana's URL state, as the time range, the
-- language and the query that it was built from, byte for byte, whatever quotes, separators or
-- other characters these hold. They are texts of Unicode characters, and the language has no comma.
pub read_link-discover_link :
    (base language query from to : Text)
    → any (λ c. c == 44) (bytes language) ≡ false
    → IsChars language
    → IsChars query
    → IsChars from
    → IsChars to
    → read_link (clean_base base) (discover_link base language query from to)
      ≡ some ((bytes from, bytes to), (bytes language, bytes query))
unfolding discover_link
read_link-discover_link base language query from to plain l q f t =
    let encoded = percent_encode (time_state from to) in
    let encoded' = percent_encode (query_state language query) in
    rw
      (
        sym (
            append_assoc (clean_base base) (codes "/app/discover#/?_g=")
              (encoded ++ (codes "&_a=" ++ encoded'))),
        strip_prefix-append (clean_base base ++ codes "/app/discover#/?_g=")
            (encoded ++ (codes "&_a=" ++ encoded')),
        split_once-append 38 encoded (codes "_a=" ++ encoded')
            (ampersand_free (time_state from to) (IsChars-time_state from to f t)),
        strip_prefix-append (codes "_a=") encoded',
        decode-percent_encode (time_state from to) (IsChars-time_state from to f t),
        decode-percent_encode (query_state language query) (IsChars-query_state language query l q),
        read_time-time_state from to f t,
        read_query-query_state language query plain q,
      )
      refl
