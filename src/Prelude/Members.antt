-- ===== src/Prelude/Members.antt =====
-- What `find`, `filter`, `filter_map` and `take` return is among what they were given.
use mathlib.Core.List.{map, Memᴰ, List, [], ◌∷◌}
use mathlib.Core.Path.{◌≡◌, refl, sym, ap, ◌∙◌, subst}
use mathlib.Core.Bool.{Bool, true}
use mathlib.Core.Logic.{inl, inr}
use mathlib.Core.Option.{Option, none, some}
use native.Mathlib.Omega.{arith}
use cubelite.Prelude.Tests.{if◌then◌else◌, Bool-cases, filter_option}
use cubelite.Prelude.Lists.{find, filter, filter_map, take, all, any}
use cubelite.Prelude.Sort.{insert_by, sort_by}
use cubelite.Prelude.Order.{is_le}
use Prim.Native.Nat.{ℕ, zero, suc, Ordering}

module _ {ℓ} {A : Type ℓ} where
  pub find-some :
      (p : A → Bool) (xs : List A) {a : A} → find p xs ≡ some a → (p a ≡ true) × Memᴰ a xs
  find-some p [] h = cc
  find-some p (x ∷ xs) {a} h = elim (Bool-cases (p x)) [
    | inl e ↦
        let same : x ≡ a = ground arith in (subst (λ y. p y ≡ true) same e, Memᴰ.head (sym same))
    | inr e ↦
        let rest : find p xs ≡ some a = ground arith in
        let (holds, member) = find-some p xs rest in (holds, Memᴰ.tail member)
  ]

  pub filter_option-some :
      (p : A → Bool) (o : Option A) {a : A}
      → filter_option p o ≡ some a
      → (o ≡ some a) × (p a ≡ true)
  filter_option-some p none h = cc
  filter_option-some p (some x) {a} h =
      let same : x ≡ a = ground arith in
      let holds : p x ≡ true = ground arith in (ap some same, subst (λ y. p y ≡ true) same holds)

  pub all-Mem : (p : A → Bool) (xs : List A) {a : A} → all p xs ≡ true → Memᴰ a xs → p a ≡ true
  all-Mem p [] h m = elim m [ ]
  all-Mem p (x ∷ xs) h (Memᴰ.head e) = subst (λ y. p y ≡ true) (sym e) (ground arith)
  all-Mem p (x ∷ xs) h (Memᴰ.tail m) = all-Mem p xs (ground arith) m

  pub filter-Mem :
      (p : A → Bool) (xs : List A) {a : A} → p a ≡ true → Memᴰ a xs → Memᴰ a (filter p xs)
  filter-Mem p [] h m = elim m [ ]
  filter-Mem p (x ∷ xs) {a} h (Memᴰ.head e) = rw (subst (λ y. p y ≡ true) e h) (Memᴰ.head e)
  filter-Mem p (x ∷ xs) h (Memᴰ.tail m) = elim (Bool-cases (p x)) [
    | inl e ↦ rw e (Memᴰ.tail (filter-Mem p xs h m))
    | inr e ↦ rw e (filter-Mem p xs h m)
  ]

  -- What a filter keeps passes it and was there.
  pub Mem-filter :
      (p : A → Bool) (xs : List A) {a : A} → Memᴰ a (filter p xs) → (p a ≡ true) × Memᴰ a xs
  Mem-filter p [] m = elim m [ ]
  Mem-filter p (x ∷ xs) {a} m = elim (Bool-cases (p x)) [
    | inl e ↦
        kept e (λ k. Mem-filter p xs k)
          (subst (λ b. Memᴰ a (if b then x ∷ filter p xs else filter p xs)) e m)
    | inr e ↦
        let (holds, there) =
          Mem-filter p xs (subst (λ b. Memᴰ a (if b then x ∷ filter p xs else filter p xs)) e m) in
        (holds, Memᴰ.tail there)
  ]
    where
      kept :
          p x ≡ true
          → (Memᴰ a (filter p xs) → (p a ≡ true) × Memᴰ a xs)
          → Memᴰ a (x ∷ filter p xs)
          → (p a ≡ true) × Memᴰ a (x ∷ xs)
      kept e rest (Memᴰ.head k) = (subst (λ y. p y ≡ true) (sym k) e, Memᴰ.head k)
      kept e rest (Memᴰ.tail k) = let (holds, there) = rest k in (holds, Memᴰ.tail there)

  pub Mem-take : (n : ℕ) (xs : List A) {a : A} → Memᴰ a (take n xs) → Memᴰ a xs
  Mem-take zero xs m = elim m [ ]
  Mem-take (suc n) [] m = elim m [ ]
  Mem-take (suc n) (x ∷ xs) (Memᴰ.head e) = Memᴰ.head e
  Mem-take (suc n) (x ∷ xs) (Memᴰ.tail m) = Memᴰ.tail (Mem-take n xs m)

  pub any-some : (p : A → Bool) (xs : List A) → any p xs ≡ true → (a : A) × (p a ≡ true) × Memᴰ a xs
  any-some p [] h = cc
  any-some p (x ∷ xs) h = elim (Bool-cases (p x)) [
    | inl e ↦ (x, e, Memᴰ.head refl)
    | inr e ↦ let (a, holds, m) = any-some p xs (ground arith) in (a, holds, Memᴰ.tail m)
  ]

  module _ (cmp : A → A → Ordering) where
    Mem-insert_by : (b : A) (xs : List A) {a : A} → Memᴰ a (b ∷ xs) → Memᴰ a (insert_by cmp b xs)
    unfolding insert_by
    Mem-insert_by b [] m = m
    Mem-insert_by b (x ∷ xs) {a} m = elim (Bool-cases (is_le (cmp b x))) [
      | inl e ↦ rw e m
      | inr e ↦ rw e (moved (λ k. Mem-insert_by b xs k) m)
    ]
      where
        moved :
            (Memᴰ a (b ∷ xs) → Memᴰ a (insert_by cmp b xs))
            → Memᴰ a (b ∷ (x ∷ xs))
            → Memᴰ a (x ∷ insert_by cmp b xs)
        moved rest (Memᴰ.head k) = Memᴰ.tail (rest (Memᴰ.head k))
        moved rest (Memᴰ.tail (Memᴰ.head k)) = Memᴰ.head k
        moved rest (Memᴰ.tail (Memᴰ.tail k)) = Memᴰ.tail (rest (Memᴰ.tail k))

    insert_by-Mem : (b : A) (xs : List A) {a : A} → Memᴰ a (insert_by cmp b xs) → Memᴰ a (b ∷ xs)
    unfolding insert_by
    insert_by-Mem b [] m = m
    insert_by-Mem b (x ∷ xs) {a} m = elim (Bool-cases (is_le (cmp b x))) [
      | inl e ↦ subst (λ t. Memᴰ a (if t then b ∷ x ∷ xs else x ∷ insert_by cmp b xs)) e m
      | inr e ↦
          moved (λ k. insert_by-Mem b xs k)
            (subst (λ t. Memᴰ a (if t then b ∷ x ∷ xs else x ∷ insert_by cmp b xs)) e m)
    ]
      where
        swap : Memᴰ a (b ∷ xs) → Memᴰ a (b ∷ (x ∷ xs))
        swap (Memᴰ.head k) = Memᴰ.head k
        swap (Memᴰ.tail k) = Memᴰ.tail (Memᴰ.tail k)

        moved :
            (Memᴰ a (insert_by cmp b xs) → Memᴰ a (b ∷ xs))
            → Memᴰ a (x ∷ insert_by cmp b xs)
            → Memᴰ a (b ∷ (x ∷ xs))
        moved rest (Memᴰ.head k) = Memᴰ.tail (Memᴰ.head k)
        moved rest (Memᴰ.tail k) = swap (rest k)

    pub Mem-sort_by : (xs : List A) {a : A} → Memᴰ a xs → Memᴰ a (sort_by cmp xs)
    unfolding sort_by
    Mem-sort_by [] m = m
    Mem-sort_by (x ∷ xs) (Memᴰ.head e) = Mem-insert_by x (sort_by cmp xs) (Memᴰ.head e)
    Mem-sort_by (x ∷ xs) (Memᴰ.tail m) =
        Mem-insert_by x (sort_by cmp xs) (Memᴰ.tail (Mem-sort_by xs m))

    pub sort_by-Mem : (xs : List A) {a : A} → Memᴰ a (sort_by cmp xs) → Memᴰ a xs
    unfolding sort_by
    sort_by-Mem [] m = m
    sort_by-Mem (x ∷ xs) {a} m = moved (λ k. sort_by-Mem xs k) (insert_by-Mem x (sort_by cmp xs) m)
      where
        moved :
            (Memᴰ a (sort_by cmp xs) → Memᴰ a xs) → Memᴰ a (x ∷ sort_by cmp xs) → Memᴰ a (x ∷ xs)
        moved rest (Memᴰ.head k) = Memᴰ.head k
        moved rest (Memᴰ.tail k) = Memᴰ.tail (rest k)

module _ {ℓ κ} {A : Type ℓ} {B : Type κ} where
  pub Mem-filter_map :
      (f : A → Option B) (xs : List A) {a : A} {b : B}
      → f a ≡ some b
      → Memᴰ a xs
      → Memᴰ b (filter_map f xs)
  Mem-filter_map f [] h m = elim m [ ]
  Mem-filter_map f (x ∷ xs) {a} {b} h (Memᴰ.head e) =
      subst
        (λ (o : Option B).
          Memᴰ b (elim o [ none ↦ filter_map f xs | some c ↦ c ∷ filter_map f xs ]))
        (sym (ap f (sym e) ∙ h)) (Memᴰ.head refl)
  Mem-filter_map f (x ∷ xs) {a} {b} h (Memᴰ.tail m) = later (f x) (Mem-filter_map f xs h m)
    where
      later :
          (o : Option B)
          → Memᴰ b (filter_map f xs)
          → Memᴰ b (elim o [ none ↦ filter_map f xs | some c ↦ c ∷ filter_map f xs ])
      later none rest = rest
      later (some c) rest = Memᴰ.tail rest

  pub filter_map-Mem :
      (f : A → Option B) (xs : List A) {b : B}
      → Memᴰ b (filter_map f xs)
      → (a : A) × (f a ≡ some b) × Memᴰ a xs
  filter_map-Mem f [] m = elim m [ ]
  filter_map-Mem f (x ∷ xs) {b} m =
      from (f x) refl (λ k. let (a, e, there) = filter_map-Mem f xs k in (a, e, Memᴰ.tail there)) m
    where
      from :
          (o : Option B)
          → f x ≡ o
          → (Memᴰ b (filter_map f xs) → (a : A) × (f a ≡ some b) × Memᴰ a (x ∷ xs))
          → Memᴰ b (elim o [ none ↦ filter_map f xs | some c ↦ c ∷ filter_map f xs ])
          → (a : A) × (f a ≡ some b) × Memᴰ a (x ∷ xs)
      from none e later k = later k
      from (some c) e later (Memᴰ.head k) = (x, e ∙ ap some (sym k), Memᴰ.head refl)
      from (some c) e later (Memᴰ.tail k) = later k

pub Mem-map {ℓ κ} :
    {A : Type ℓ} {B : Type κ} (f : A → B) (xs : List A) {a : A} → Memᴰ a xs → Memᴰ (f a) (map f xs)
Mem-map f [] m = elim m [ ]
Mem-map f (x ∷ xs) (Memᴰ.head e) = Memᴰ.head (ap f e)
Mem-map f (x ∷ xs) (Memᴰ.tail m) = Memᴰ.tail (Mem-map f xs m)

pub map-Mem {ℓ κ} :
    {A : Type ℓ} {B : Type κ} (f : A → B) (xs : List A) {b : B}
    → Memᴰ b (map f xs)
    → (a : A) × (b ≡ f a) × Memᴰ a xs
map-Mem f [] m = elim m [ ]
map-Mem f (x ∷ xs) (Memᴰ.head e) = (x, e, Memᴰ.head refl)
map-Mem f (x ∷ xs) (Memᴰ.tail m) = let (a, e, there) = map-Mem f xs m in (a, e, Memᴰ.tail there)
