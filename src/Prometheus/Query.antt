-- ===== src/Prometheus/Query.antt =====
-- prometheus/mod.rs: the literals of PromQL and of its regular expressions.
use cubelite.Prelude.{ℕ, Bool, [], ◌∷◌, ◌++◌, if◌then◌else◌, any, flat_map, ◌==◌}
use cubelite.Prelude.Texts.{Text, codes}

unfoldable pub escape_char : ℕ → Text
escape_char c =
    if c == 92
    then 92 ∷ 92 ∷ []
    else if c == 34
    then 92 ∷ 34 ∷ []
    else if c == 10
    then 92 ∷ b'n' ∷ []
    else if c == 13
    then 92 ∷ b'r' ∷ []
    else c ∷ []

unfoldable pub escape : Text → Text
unfolding escape_char
escape value = 34 ∷ (flat_map escape_char value ++ 34 ∷ [])

-- RE2's metacharacters, the backslash among them
abbrev pub metacharacters : Text
metacharacters = 92 ∷ codes ".+*?()|[]{}^$"

unfoldable pub is_meta : ℕ → Bool
is_meta c = any (λ m. c == m) metacharacters

unfoldable pub regex_literal : Text → Text
unfolding is_meta
regex_literal name = flat_map (λ c. if is_meta c then 92 ∷ c ∷ [] else c ∷ []) name
