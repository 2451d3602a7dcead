-- ===== src/Prelude/Sort.antt =====
-- `sort_by` and `sort_by_key`: Rust's stable sort, as insertion from the right, and its contract.
use Prim.Native.Nat.{Ordering}
use mathlib.Core.Path.{◌≡◌, refl, ◌∙◌}
use native.Mathlib.Omega.{arith}
use mathlib.Core.Bool.{Bool, true}
use mathlib.Core.List.{List, [], ◌∷◌, Perm}
use mathlib.Core.List.Perm
use cubelite.Prelude.Tests.{if◌then◌else◌, Bool-cases}
use mathlib.Core.Logic.{inl, inr}
use cubelite.Prelude.Order.{IsOrder, is_le, le_trans, le_total}
use cubelite.Prelude.Lists.{All, count}

module _ {ℓ} {A : Type ℓ} (cmp : A → A → Ordering) where
  unfoldable pub insert_by : A → List A → List A
  insert_by a [] = a ∷ []
  insert_by a (b ∷ l) = if is_le (cmp a b) then a ∷ b ∷ l else b ∷ insert_by a l

  unfoldable pub sort_by : List A → List A
  unfolding insert_by
  sort_by [] = []
  sort_by (a ∷ l) = insert_by a (sort_by l)

  -- Every element is at most each later one.
  abbrev pub IsSorted : List A → Type 0
  IsSorted [] = Unit
  IsSorted (a ∷ l) = All (λ b. is_le (cmp a b) ≡ true) l × IsSorted l

  insert_by-perm : (a : A) (l : List A) → Perm (insert_by a l) (a ∷ l)
  unfolding insert_by
  insert_by-perm a [] = Perm.refl _
  insert_by-perm a (b ∷ l) = elim (Bool-cases (is_le (cmp a b))) [
    | inl h ↦ rw h (Perm.refl _)
    | inr h ↦ rw h (Perm.trans (Perm.cons b (insert_by-perm a l)) (Perm.swap a b l))
  ]

  -- The sort neither drops nor repeats an element.
  pub sort_by-perm : (l : List A) → Perm (sort_by l) l
  unfolding sort_by
  sort_by-perm [] = Perm.refl _
  sort_by-perm (a ∷ l) = Perm.trans (insert_by-perm a (sort_by l)) (Perm.cons a (sort_by-perm l))

module _ {ℓ} {A : Type ℓ} {cmp : A → A → Ordering} (o : IsOrder cmp) where
  below :
      (a b : A) (l : List A)
      → is_le (cmp a b) ≡ true
      → All (λ c. is_le (cmp b c) ≡ true) l
      → All (λ c. is_le (cmp a c) ≡ true) l
  below a b [] h k = tt
  below a b (c ∷ l) h k = (le_trans o a b c h k.0, below a b l h k.1)

  All-insert_by :
      (a b : A) (l : List A)
      → is_le (cmp a b) ≡ true
      → All (λ c. is_le (cmp a c) ≡ true) l
      → All (λ c. is_le (cmp a c) ≡ true) (insert_by cmp b l)
  unfolding insert_by
  All-insert_by a b [] h k = (h, tt)
  All-insert_by a b (c ∷ l) h k = elim (Bool-cases (is_le (cmp b c))) [
    | inl e ↦ rw e (h, k)
    | inr e ↦ rw e (k.0, All-insert_by a b l h k.1)
  ]

  insert_by-IsSorted : (a : A) (l : List A) → IsSorted cmp l → IsSorted cmp (insert_by cmp a l)
  unfolding insert_by
  insert_by-IsSorted a [] h = (tt, tt)
  insert_by-IsSorted a (b ∷ l) h = elim (Bool-cases (is_le (cmp a b))) [
    | inl e ↦ rw e ((e, below a b l e h.0), h)
    | inr e ↦ rw e (All-insert_by b a l (le_total o a b e) h.0, insert_by-IsSorted a l h.1)
  ]

  -- The result of the sort is in order.
  pub sort_by-IsSorted : (l : List A) → IsSorted cmp (sort_by cmp l)
  unfolding sort_by
  sort_by-IsSorted [] = tt
  sort_by-IsSorted (a ∷ l) = insert_by-IsSorted a (sort_by cmp l) (sort_by-IsSorted l)

-- A sort keeps how many elements pass a test.
count-insert_by {ℓ} :
    {A : Type ℓ} (cmp : A → A → Ordering) (p : A → Bool) (x : A) (xs : List A)
    → count p (insert_by cmp x xs) ≡ count p (x ∷ xs)
unfolding insert_by
count-insert_by cmp p x [] = refl
count-insert_by cmp p x (y ∷ xs) = ground (arith, count-insert_by cmp p x xs)

pub count-sort_by {ℓ} :
    {A : Type ℓ} (cmp : A → A → Ordering) (p : A → Bool) (xs : List A)
    → count p (sort_by cmp xs) ≡ count p xs
unfolding sort_by
count-sort_by cmp p [] = refl
count-sort_by cmp p (x ∷ xs) =
    count-insert_by cmp p x (sort_by cmp xs) ∙ (rw (count-sort_by cmp p xs) refl)
