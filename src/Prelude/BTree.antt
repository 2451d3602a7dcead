-- ===== src/Prelude/BTree.antt =====
-- Rust's `BTreeMap`: its entries in ascending order of the keys.
use Prim.Native.Nat.{Ordering}
use Prim.Native.Nat.Ordering.{lt, eq, gt}
use mathlib.Core.Path.{◌≡◌, refl, sym, subst}
use mathlib.Core.Bool.{Bool, true, false}
use mathlib.Core.Option.{Option, none, some}
use mathlib.Core.List.{List, [], ◌∷◌, map, Memᴰ}
use native.Mathlib.Omega.{arith}
use mathlib.Core.Logic.{inl, inr}
use cubelite.Prelude.Tests.{if◌then◌else◌, Bool-cases}
use cubelite.Prelude.Order.{IsOrder}
use cubelite.Prelude.Lists.{All}

abbrev pub is_eq : Ordering → Bool
is_eq eq = true
is_eq lt = false
is_eq gt = false

module _ {ℓ κ} {K : Type ℓ} {V : Type κ} (cmp : K → K → Ordering) where
  unfoldable pub get : List (K × V) → K → Option V
  get [] k = none
  get ((j, v) ∷ m) k = if is_eq (cmp j k) then some v else get m k

  -- `insert`: a key that is there stays, with the new value
  unfoldable pub insert : List (K × V) → K → V → List (K × V)
  insert [] k v = (k, v) ∷ []
  insert ((j, w) ∷ m) k v = elim (cmp k j) [
    | lt ↦ (k, v) ∷ (j, w) ∷ m
    | eq ↦ (j, v) ∷ m
    | gt ↦ (j, w) ∷ insert m k v
  ]

  -- Each key is below the later ones.
  abbrev pub IsAscending : List (K × V) → Type 0
  IsAscending [] = Unit
  IsAscending ((j, w) ∷ m) = All (λ (e : K × V). cmp j e.0 ≡ lt) m × IsAscending m

  -- What every entry satisfies, every entry satisfies after an insertion.
  pub All-insert {μ} :
      (P : K × V → Type μ) (m : List (K × V)) (k : K) (v : V)
      → ((j : K) → is_eq (cmp k j) ≡ true → P (j, v))
      → P (k, v)
      → All P m
      → All P (insert m k v)
  unfolding insert
  All-insert P [] k v same new h = (new, tt)
  All-insert P ((j, w) ∷ m) k v same new h = by (cmp k j) refl (All-insert P m k v same new h.1)
    where
      by :
          (c : Ordering)
          → cmp k j ≡ c
          → All P (insert m k v)
          → All P
              (elim c [ lt ↦ (k, v) ∷ (j, w) ∷ m | eq ↦ (j, v) ∷ m | gt ↦ (j, w) ∷ insert m k v ])
      by lt e rest = (new, h)
      by eq e rest = (same j (rw e refl), h.1)
      by gt e rest = (h.0, rest)

module _ {ℓ κ} {K : Type ℓ} {V : Type κ} {cmp : K → K → Ordering} (o : IsOrder cmp) where
  pub get-insert :
      (m : List (K × V)) (k j : K) (v : V)
      → get cmp (insert cmp m k v) j ≡ (if is_eq (cmp k j) then some v else get cmp m j)
  unfolding get insert
  get-insert [] k j v = refl
  get-insert ((i, w) ∷ m) k j v = ground (
    arith,
    get-insert m k j v,
    o.cmp_eq k i j,
    o.cmp_flip k i,
    o.cmp_flip k j,
    o.cmp_flip i j,
    o.cmp_eq i j k,
    o.cmp_eq j i k,
  )

  pub insert-IsAscending :
      (m : List (K × V)) (k : K) (v : V) → IsAscending cmp m → IsAscending cmp (insert cmp m k v)
  unfolding insert
  insert-IsAscending [] k v h = (tt, tt)
  insert-IsAscending ((j, w) ∷ m) k v h = by (cmp k j) refl (insert-IsAscending m k v h.1)
    where
      above :
          (l : List (K × V))
          → cmp k j ≡ lt
          → All (λ (e : K × V). cmp j e.0 ≡ lt) l
          → All (λ (e : K × V). cmp k e.0 ≡ lt) l
      above [] e a = tt
      above (x ∷ l) e a = (o.lt_trans k j x.0 e a.0, above l e a.1)

      by :
          (c : Ordering)
          → cmp k j ≡ c
          → IsAscending cmp (insert cmp m k v)
          → IsAscending cmp (elim c [
            | lt ↦ (k, v) ∷ (j, w) ∷ m
            | eq ↦ (j, v) ∷ m
            | gt ↦ (j, w) ∷ insert cmp m k v
          ])
      by lt e rest = ((e, above m e h.0), h)
      by eq e rest = h
      by gt e rest =
          let below : cmp j k ≡ lt = ground (arith, o.cmp_flip k j) in
          (
            All-insert cmp (λ (x : K × V). cmp j x.0 ≡ lt) m k v
                (λ i s.
                  ground
                    (arith, o.cmp_eq k i j, o.cmp_flip k j, o.cmp_flip i j, o.cmp_flip j i, below))
                below h.0,
            rest,
          )

  -- Equal keys have the same value.
  pub get_same : (m : List (K × V)) (k j : K) → is_eq (cmp k j) ≡ true → get cmp m k ≡ get cmp m j
  unfolding get
  get_same [] k j h = refl
  get_same ((i, w) ∷ m) k j h =
      ground (arith, get_same m k j, o.cmp_eq k j i, o.cmp_flip i k, o.cmp_flip i j)

  -- A value that is found is that of an entry.
  pub get-some {μ} :
      (P : K × V → Type μ) (m : List (K × V)) (k : K) {v : V}
      → All P m
      → get cmp m k ≡ some v
      → (j : K) × (is_eq (cmp j k) ≡ true) × Memᴰ v (map (λ (e : K × V). e.1) m) × P (j, v)
  unfolding get
  get-some P [] k h e = cc e
  get-some P ((j, w) ∷ m) k {v} h e = elim (Bool-cases (is_eq (cmp j k))) [
    | inl same ↦
        let here : w ≡ v = ground arith in
        (j, same, Memᴰ.head (sym here), subst (λ (x : V). P (j, x)) here h.0)
    | inr other ↦
        let (i, same, member, holds) = get-some P m k h.1 (ground arith) in
        (i, same, Memᴰ.tail member, holds)
  ]
