-- ===== src/Prelude/Split.antt =====
-- `split_once` and `strip_prefix` on texts.
use cubelite.Prelude.Tests.{◌==◌, ==_iff, if◌then◌else◌, map_option, Bool-cases}
use cubelite.Prelude.Lists.{any}
use cubelite.Prelude.Texts.{Text, strip_prefix}
use Prim.Native.Nat.{ℕ}
use mathlib.Core.Path.{◌≡◌, refl, ap, ◌∙◌}
use mathlib.Core.Bool.{false}
use mathlib.Core.Option.{Option, none, some}
use mathlib.Core.Logic.{inl, inr}
use mathlib.Core.List.{[], ◌∷◌, ◌++◌}
use native.Mathlib.Omega.{arith}

-- `split_once` at a character
unfoldable pub split_once : ℕ → Text → Option (Text × Text)
split_once sep [] = none
split_once sep (c ∷ s) =
    let rest = split_once sep s in
    if c == sep then some ([], s) else map_option (λ (r : Text × Text). (c ∷ r.0, r.1)) rest

pub split_once-append :
    (sep : ℕ) (a b : Text)
    → any (λ c. c == sep) a ≡ false
    → split_once sep (a ++ sep ∷ b) ≡ some (a, b)
unfolding split_once
split_once-append sep [] b h = ground arith
split_once-append sep (c ∷ a) b h = ground (arith, split_once-append sep a b)

pub strip_prefix-append : (a b : Text) → strip_prefix (a ++ b) a ≡ some b
unfolding strip_prefix
strip_prefix-append [] [] = refl
strip_prefix-append [] (d ∷ b) = refl
strip_prefix-append (c ∷ a) b = ground (arith, strip_prefix-append a b)

pub split_once-some :
    (sep : ℕ) (s : Text) {a b : Text} → split_once sep s ≡ some (a, b) → s ≡ a ++ sep ∷ b
unfolding split_once
split_once-some sep [] h = cc h
split_once-some sep (c ∷ s) {a} {b} h = elim (Bool-cases (c == sep)) [
  | inl e ↦ let k = rw e at h in let same : c ≡ sep = (==_iff c sep).0 e in cc (k, same)
  | inr e ↦ later (split_once sep s) (rw e at h) (λ x y k. split_once-some sep s {a = x} {b = y} k)
]
  where
    later :
        (o : Option (Text × Text))
        → map_option {B = Text × Text} (λ (r : Text × Text). (c ∷ r.0, r.1)) o ≡ some (a, b)
        → ((x y : Text) → o ≡ some (x, y) → s ≡ x ++ sep ∷ y)
        → c ∷ s ≡ a ++ sep ∷ b
    later none k ih = cc k
    later (some (x, y)) k ih =
        let tail : s ≡ x ++ sep ∷ y = ih x y refl in
        let front : c ∷ x ≡ a = cc k in
        let back : y ≡ b = cc k in ap (λ (t : Text). c ∷ t) tail ∙ (λ i. front i ++ sep ∷ back i)
