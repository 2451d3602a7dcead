-- ===== src/Prelude/Lex.antt =====
-- What a comparison that is made of others says of its parts.
use mathlib.Core.Path.{◌≡◌, refl}
use mathlib.Core.Logic.{◌⊎◌, inl, inr}
use mathlib.Core.Bool.{Bool, true, false, not}
use mathlib.Core.List.{List, [], ◌∷◌}
use Prim.Native.Nat.{ℕ, compare, Ordering, ◌<◌}
use Prim.Native.Nat.Ordering.{lt, eq, gt}
use native.Mathlib.Omega.{arith}
use cubelite.Prelude.Order.{then_with, is_le, bool_cmp, list_cmp, text_cmp}
use cubelite.Prelude.Texts.{Text}
use cubelite.Prelude.Lists.{All}
use cubelite.Prelude.Sort.{IsSorted}

pub then_with-le :
    (first second : Ordering)
    → is_le (then_with first second) ≡ true
    → (first ≡ lt) ⊎ ((first ≡ eq) × (is_le second ≡ true))
then_with-le lt second h = inl refl
then_with-le eq second h = inr (refl, h)
then_with-le gt second h = cc h

pub then_with-eq :
    (first second : Ordering) → then_with first second ≡ eq → (first ≡ eq) × (second ≡ eq)
then_with-eq lt second h = cc h
then_with-eq eq second h = (refl, h)
then_with-eq gt second h = cc h

pub compare-lt : (m n : ℕ) → compare m n ≡ lt → m < n
compare-lt m n h = ground arith

pub compare-eq : (m n : ℕ) → compare m n ≡ eq → m ≡ n
compare-eq m n h = ground arith

-- `false` first
pub bool_cmp-lt : (a b : Bool) → bool_cmp (not a) (not b) ≡ lt → (a ≡ true) × (b ≡ false)
unfolding bool_cmp
bool_cmp-lt true false h = (refl, refl)
bool_cmp-lt true true h = cc h
bool_cmp-lt false true h = cc h
bool_cmp-lt false false h = cc h

pub bool_cmp-eq : (a b : Bool) → bool_cmp (not a) (not b) ≡ eq → a ≡ b
unfolding bool_cmp
bool_cmp-eq true false h = cc h
bool_cmp-eq true true h = refl
bool_cmp-eq false true h = cc h
bool_cmp-eq false false h = refl

-- Lists that compare as equal are equal, if elements are.
pub list_cmp-same :
    {A : Type 0} {cmp : A → A → Ordering}
    → ((a b : A) → cmp a b ≡ eq → a ≡ b)
    → (s t : List A) → list_cmp cmp s t ≡ eq
    → s ≡ t
unfolding list_cmp
list_cmp-same same [] [] h = refl
list_cmp-same same [] (b ∷ t) h = cc h
list_cmp-same same (a ∷ s) [] h = cc h
list_cmp-same {cmp = cmp} same (a ∷ s) (b ∷ t) h =
    let (first, rest) = then_with-eq (cmp a b) (list_cmp cmp s t) h in
    λ i. same a b first i ∷ list_cmp-same same s t rest i

pub text_cmp-eq : (s t : Text) → text_cmp s t ≡ eq → s ≡ t
text_cmp-eq s t h = list_cmp-same compare-eq s t h

-- Each element is related to each later one.
abbrev pub InOrder : {A : Type 0} → (A → A → Type 0) → List A → Type 0
InOrder related [] = Unit {0}
InOrder related (a ∷ l) = All (related a) l × InOrder related l

All-related :
    {A : Type 0} {P Q : A → Type 0} (l : List A) → ((a : A) → P a → Q a) → All P l → All Q l
All-related [] change h = tt
All-related (a ∷ l) change h = (change a h.0, All-related l change h.1)

pub IsSorted-InOrder :
    {A : Type 0} (cmp : A → A → Ordering) {related : A → A → Type 0} (l : List A)
    → ((a b : A) → is_le (cmp a b) ≡ true → related a b)
    → IsSorted cmp l
    → InOrder related l
IsSorted-InOrder cmp [] le h = tt
IsSorted-InOrder cmp (a ∷ l) le h = (All-related l (le a) h.0, IsSorted-InOrder cmp l le h.1)
