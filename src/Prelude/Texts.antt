-- ===== src/Prelude/Texts.antt =====
-- Rust's `String` and `str`: a text is the list of its characters (Unicode scalar values); its bytes
-- are their UTF-8 encoding.
use Prim.Native.Nat.{ℕ, zero, suc, ◌+◌, ◌-◌, ◌*◌, ◌/◌, ◌%◌, ◌<◌}
use Prim.Native.Char.{code}
use Prim.Native.String.{String}
use mathlib.Core.Path.{◌≡◌, refl, sym, ap, ◌∙◌}
use mathlib.Core.Logic.{◌↔◌, inl, inr}
use mathlib.Core.Bool.{Bool, true, false, ◌&&◌, ◌||◌}
use mathlib.Core.List.{List, [], ◌∷◌, ◌++◌}
use mathlib.Core.Option.{Option, none, some}
use native.Mathlib.Omega.{arith}
use cubelite.Prelude.Tests.{ltb, leb, ◌==◌, if◌then◌else◌, Bool-cases}
use cubelite.Prelude.Lists.{flat_map, all, any, all-append}

abbrev pub Text : Type 0
Text = List ℕ

-- A string literal.
abbrev pub codes : String → Text
codes String.[] = []
codes (String.◌∷◌ c s) = code c ∷ codes s

-- `==` on strings
unfoldable pub text_eq : Text → Text → Bool
text_eq [] [] = true
text_eq [] (b ∷ t) = false
text_eq (a ∷ s) [] = false
text_eq (a ∷ s) (b ∷ t) = a == b && text_eq s t

pub text_eq_iff : (s t : Text) → (text_eq s t ≡ true) ↔ (s ≡ t)
unfolding text_eq
text_eq_iff [] [] = ((λ _. refl), (λ _. refl))
text_eq_iff [] (b ∷ t) = ground arith
text_eq_iff (a ∷ s) [] = ground arith
text_eq_iff (a ∷ s) (b ∷ t) = ground (arith, text_eq_iff s t)

pub text_eq_refl : (s : Text) → text_eq s s ≡ true
text_eq_refl s = (text_eq_iff s s).1 refl

-- UTF-8: the bytes of one character
abbrev pub utf8 : ℕ → List ℕ
utf8 c =
    if ltb c 0x80
    then c ∷ []
    else if ltb c 0x800
    then (0xc0 + c / 64) ∷ (0x80 + c % 64) ∷ []
    else if ltb c 0x1_0000
    then (0xe0 + c / 4096) ∷ (0x80 + c / 64 % 64) ∷ (0x80 + c % 64) ∷ []
    else (0xf0 + c / 0x4_0000)
      ∷ (0x80 + c / 4096 % 64)
      ∷ (0x80 + c / 64 % 64)
      ∷ (0x80 + c % 64)
      ∷ []

-- `bytes()`
unfoldable pub bytes : Text → List ℕ
bytes s = flat_map utf8 s

-- `char::is_whitespace`: the Unicode property White_Space
unfoldable pub is_whitespace : ℕ → Bool
is_whitespace c =
    leb 9 c && leb c 13
    || c == 0x20
    || c == 0x85
    || c == 0xa0
    || c == 0x1680
    || leb 0x2000 c && leb c 0x200a
    || c == 0x2028
    || c == 0x2029
    || c == 0x202f
    || c == 0x205f
    || c == 0x3000

unfoldable pub trim_start : Text → Text
unfolding is_whitespace
trim_start [] = []
trim_start (c ∷ s) = let rest = trim_start s in if is_whitespace c then rest else c ∷ s

trim_end_cons : ℕ → Text → Text
unfolding is_whitespace
trim_end_cons c [] = if is_whitespace c then [] else c ∷ []
trim_end_cons c (d ∷ t) = c ∷ (d ∷ t)

unfoldable pub trim_end : Text → Text
unfolding trim_end_cons
trim_end [] = []
trim_end (c ∷ s) = trim_end_cons c (trim_end s)

-- `str::trim`
unfoldable pub trim : Text → Text
unfolding trim_start trim_end
trim s = trim_end (trim_start s)

unfoldable pub starts_with : Text → Text → Bool
starts_with s [] = true
starts_with [] (b ∷ t) = false
starts_with (a ∷ s) (b ∷ t) = a == b && starts_with s t

unfoldable pub ends_with : Text → Text → Bool
unfolding text_eq
ends_with [] t = text_eq [] t
ends_with (a ∷ s) t = text_eq (a ∷ s) t || ends_with s t

-- `contains`, for a text
unfoldable pub contains : Text → Text → Bool
unfolding starts_with
contains [] t = starts_with [] t
contains (a ∷ s) t = starts_with (a ∷ s) t || contains s t

-- `strip_prefix`
unfoldable pub strip_prefix : Text → Text → Option Text
strip_prefix s [] = some s
strip_prefix [] (b ∷ t) = none
strip_prefix (a ∷ s) (b ∷ t) = if a == b then strip_prefix s t else none

-- A text, if there is one, is this text: `opt.as_deref() == Some(text)`.
abbrev pub is_text : Option Text → Text → Bool
is_text none t = false
is_text (some s) t = text_eq s t

-- Decimal digits, at most `fuel` of them, most significant first.
unfoldable pub digits : ℕ → ℕ → Text
digits zero n = []
digits (suc fuel) n =
    let rest = digits fuel (n / 10) in
    if ltb n 10 then (48 + n) ∷ [] else rest ++ (48 + n % 10) ∷ []

-- The number that digits stand for.
abbrev pub digits_value : ℕ → Text → ℕ
digits_value acc [] = acc
digits_value acc (c ∷ s) = digits_value (acc * 10 + (c - 48)) s

digits_value-append :
    (acc : ℕ) (s : Text) (c : ℕ)
    → digits_value acc (s ++ c ∷ []) ≡ digits_value acc s * 10 + (c - 48)
digits_value-append acc [] c = refl
digits_value-append acc (d ∷ s) c = digits_value-append (acc * 10 + (d - 48)) s c

abbrev pub pow10 : ℕ → ℕ
pow10 zero = 1
pow10 (suc fuel) = 10 * pow10 fuel

digits_value-digits : (fuel n : ℕ) → n < pow10 fuel → digits_value 0 (digits fuel n) ≡ n
unfolding digits
digits_value-digits zero n h = omega arith
digits_value-digits (suc fuel) n h = elim (Bool-cases (ltb n 10)) [
  | inl e ↦ rw e (omega arith)
  | inr e ↦
      rw (e, digits_value-append 0 (digits fuel (n / 10)) (48 + n % 10))
        (omega (arith, digits_value-digits fuel (n / 10) (omega arith)))
]

digits-IsDigits : (fuel n : ℕ) → all (λ c. leb 48 c && leb c 57) (digits fuel n) ≡ true
unfolding digits
digits-IsDigits zero n = refl
digits-IsDigits (suc fuel) n = ground (
  arith,
  digits-IsDigits fuel (n / 10),
  all-append (λ c. leb 48 c && leb c 57) (digits fuel (n / 10)) ((48 + n % 10) ∷ []),
)

-- `Display` of a `u16`
unfoldable pub show_u16 : ℕ → Text
unfolding digits
show_u16 n = digits 5 n

-- Two numbers of 16 bits with the same digits are equal.
pub show_u16-injective : (m n : ℕ) → m < 65536 → n < 65536 → show_u16 m ≡ show_u16 n → m ≡ n
unfolding show_u16
show_u16-injective m n h k e =
    sym (digits_value-digits 5 m (omega arith))
    ∙ ap (digits_value 0) e
    ∙ digits_value-digits 5 n (omega arith)

pub show_u16-IsDigits : (n : ℕ) → all (λ c. leb 48 c && leb c 57) (show_u16 n) ≡ true
unfolding show_u16
show_u16-IsDigits n = digits-IsDigits 5 n

-- A text is cut at its first separator in one way.
pub cut_unique :
    (sep : ℕ) (a b x y : Text)
    → any (λ c. c == sep) a ≡ false
    → any (λ c. c == sep) b ≡ false
    → a ++ sep ∷ x ≡ b ++ sep ∷ y
    → (a ≡ b) × (x ≡ y)
cut_unique sep [] [] x y h k e = (refl, cc e)
cut_unique sep [] (d ∷ b) x y h k e = ground arith
cut_unique sep (c ∷ a) [] x y h k e = ground arith
cut_unique sep (c ∷ a) (d ∷ b) x y h k e =
    let (same, rest) = cut_unique sep a b x y (ground arith) (ground arith) (cc e) in
    (cc (e, same), rest)

pub append_left_cancel : (a x y : Text) → a ++ x ≡ a ++ y → x ≡ y
append_left_cancel [] x y e = e
append_left_cancel (c ∷ a) x y e = append_left_cancel a x y (cc e)
