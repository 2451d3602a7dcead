-- ===== src/Prelude/Order.antt =====
-- Rust's `Ord`: comparisons of numbers, Booleans, texts and tuples, `then_with`, and their laws.
use Prim.Native.Nat.{ℕ, compare, Ordering}
use Prim.Native.Nat.Ordering.{lt, eq, gt}
use mathlib.Core.Path.{◌≡◌, refl}
use mathlib.Core.Bool.{Bool, true, false}
use mathlib.Core.List.{List, [], ◌∷◌}
use mathlib.Core.Option.{Option, none, some}
use native.Mathlib.Omega.{arith}

abbrev pub flip : Ordering → Ordering
flip lt = gt
flip eq = eq
flip gt = lt

-- `a.then(b)`
abbrev pub then_with : Ordering → Ordering → Ordering
then_with lt second = lt
then_with eq second = second
then_with gt second = gt

abbrev pub is_le : Ordering → Bool
is_le gt = false
is_le lt = true
is_le eq = true

-- What `Ord` asks of `cmp`.
pub record IsOrder {ℓ} {A : Type ℓ} (cmp : A → A → Ordering) : Type ℓ where
  pub cmp_flip : (a b : A) → cmp b a ≡ flip (cmp a b)
  pub cmp_eq : (a b c : A) → cmp a b ≡ eq → cmp a c ≡ cmp b c
  pub lt_trans : (a b c : A) → cmp a b ≡ lt → cmp b c ≡ lt → cmp a c ≡ lt

unfoldable pub bool_cmp : Bool → Bool → Ordering
bool_cmp false false = eq
bool_cmp false true = lt
bool_cmp true false = gt
bool_cmp true true = eq

pub bool_cmp-IsOrder : IsOrder bool_cmp
unfolding bool_cmp
bool_cmp-IsOrder = ground arith

pub compare-IsOrder : IsOrder compare
compare-IsOrder = ground arith

module _ {ℓ} {A : Type ℓ} {cmp : A → A → Ordering} (o : IsOrder cmp) where
  pub cmp_refl : (a : A) → cmp a a ≡ eq
  cmp_refl a = ground (arith, o.cmp_flip a a)

  pub le_trans :
      (a b c : A) → is_le (cmp a b) ≡ true → is_le (cmp b c) ≡ true → is_le (cmp a c) ≡ true
  le_trans a b c h k = ground (
    arith,
    o.cmp_eq a b c,
    o.lt_trans a b c,
    o.cmp_flip b c,
    o.cmp_eq c b a,
    o.cmp_flip a c,
    o.cmp_flip a b,
  )

  pub le_total : (a b : A) → is_le (cmp a b) ≡ false → is_le (cmp b a) ≡ true
  le_total a b h = ground (arith, o.cmp_flip a b)

-- `sort_by_key`: the order of a key
pub key-IsOrder {ℓ κ} :
    {A : Type ℓ} {B : Type κ} {cmp : B → B → Ordering} (f : A → B)
    → IsOrder cmp
    → IsOrder (λ (x y : A). cmp (f x) (f y))
key-IsOrder f o = record {
  cmp_flip = λ a b. o.cmp_flip (f a) (f b);
  cmp_eq = λ a b c. o.cmp_eq (f a) (f b) (f c);
  lt_trans = λ a b c. o.lt_trans (f a) (f b) (f c);
}

pub then_with-IsOrder {ℓ} :
    {A : Type ℓ} {cmp cmp' : A → A → Ordering}
    → IsOrder cmp
    → IsOrder cmp'
    → IsOrder (λ (x y : A). then_with (cmp x y) (cmp' x y))
then_with-IsOrder o p = record {
  cmp_flip = λ a b. ground (arith, o.cmp_flip a b, p.cmp_flip a b);
  cmp_eq = λ a b c. ground (arith, o.cmp_eq a b c, p.cmp_eq a b c);
  lt_trans = λ a b c. ground (
    arith,
    o.cmp_eq a b c,
    p.lt_trans a b c,
    o.lt_trans a b c,
    o.cmp_eq c b a,
    o.cmp_flip b c,
    o.cmp_flip a b,
    o.cmp_flip a c,
  );
}

-- Slices compare lexicographically. Two strings compare as their characters do: UTF-8 keeps order.
module _ {ℓ} {A : Type ℓ} (cmp : A → A → Ordering) where
  unfoldable pub list_cmp : List A → List A → Ordering
  list_cmp [] [] = eq
  list_cmp [] (b ∷ t) = lt
  list_cmp (a ∷ s) [] = gt
  list_cmp (a ∷ s) (b ∷ t) = then_with (cmp a b) (list_cmp s t)

  list_cmp-flip : IsOrder cmp → (s t : List A) → list_cmp t s ≡ flip (list_cmp s t)
  unfolding list_cmp
  list_cmp-flip o [] [] = refl
  list_cmp-flip o [] (b ∷ t) = refl
  list_cmp-flip o (a ∷ s) [] = refl
  list_cmp-flip o (a ∷ s) (b ∷ t) = ground (arith, o.cmp_flip a b, list_cmp-flip o s t)

  list_cmp-eq : IsOrder cmp → (s t u : List A) → list_cmp s t ≡ eq → list_cmp s u ≡ list_cmp t u
  unfolding list_cmp
  list_cmp-eq o [] [] u h = refl
  list_cmp-eq o [] (b ∷ t) u h = cc
  list_cmp-eq o (a ∷ s) [] u h = cc
  list_cmp-eq o (a ∷ s) (b ∷ t) [] h = refl
  list_cmp-eq o (a ∷ s) (b ∷ t) (c ∷ u) h = ground (arith, o.cmp_eq a b c, list_cmp-eq o s t u)

  list_cmp_trans :
      IsOrder cmp → (s t u : List A) → list_cmp s t ≡ lt → list_cmp t u ≡ lt → list_cmp s u ≡ lt
  unfolding list_cmp
  list_cmp_trans o [] [] u h k = cc
  list_cmp_trans o [] (b ∷ t) [] h k = cc
  list_cmp_trans o [] (b ∷ t) (c ∷ u) h k = refl
  list_cmp_trans o (a ∷ s) [] u h k = cc
  list_cmp_trans o (a ∷ s) (b ∷ t) [] h k = cc
  list_cmp_trans o (a ∷ s) (b ∷ t) (c ∷ u) h k = ground (
    arith,
    o.cmp_eq a b c,
    o.lt_trans a b c,
    o.cmp_eq c b a,
    o.cmp_flip b c,
    o.cmp_flip a b,
    o.cmp_flip a c,
    list_cmp_trans o s t u,
  )

  pub list_cmp-IsOrder : IsOrder cmp → IsOrder list_cmp
  list_cmp-IsOrder o = record {
    cmp_flip = list_cmp-flip o;
    cmp_eq = list_cmp-eq o;
    lt_trans = list_cmp_trans o;
  }

-- `Option`'s order: `None` first.
module _ {ℓ} {A : Type ℓ} (cmp : A → A → Ordering) where
  unfoldable pub option_cmp : Option A → Option A → Ordering
  option_cmp none none = eq
  option_cmp none (some b) = lt
  option_cmp (some a) none = gt
  option_cmp (some a) (some b) = cmp a b

abbrev pub text_cmp : List ℕ → List ℕ → Ordering
text_cmp = list_cmp compare

pub text_cmp-IsOrder : IsOrder text_cmp
text_cmp-IsOrder = list_cmp-IsOrder compare compare-IsOrder
