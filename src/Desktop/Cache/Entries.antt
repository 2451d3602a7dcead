-- ===== src/Desktop/Cache/Entries.antt =====
-- cache.rs: what the operations on the map of connections keep of its entries.
use cubelite.Prelude.{
  ◌≡◌, refl, sym, ap, ◌∙◌, Bool, true, Option, none, some, List, [], ◌∷◌, arith, All, filter,
  filter_option, map_option, Bool-cases, inl, inr,
}
use mathlib.Core.Path.{subst}
use cubelite.Prelude.Texts.{text_eq_iff}
use cubelite.Prelude.Maps.{get, insert}
use cubelite.Desktop.Cache.{ConnKey, key_eq, Arc, ConnCache, cached}

pub All-filter {ℓ κ} :
    {A : Type ℓ} {P Q : A → Type κ} (p : A → Bool) (xs : List A)
    → ((a : A) → p a ≡ true → P a → Q a)
    → All P xs
    → All Q (filter p xs)
All-filter p [] keep h = tt
All-filter p (x ∷ xs) keep h = elim (Bool-cases (p x)) [
  | inl e ↦ rw e (keep x e h.0, All-filter p xs keep h.1)
  | inr e ↦ rw e (All-filter p xs keep h.1)
]

pub key_eq_same : (a b : ConnKey) → key_eq a b ≡ true → a ≡ b
unfolding key_eq
key_eq_same (a, b) (c, d) h =
    let e : a ≡ c = (text_eq_iff a c).0 (ground arith) in
    let f : b ≡ d = (text_eq_iff b d).0 (ground arith) in cc (e, f)

module _ {V : Type 0} (P : ConnKey × V → Type 0) where
  pub All-get :
      (m : List (ConnKey × V)) (k : ConnKey) {v : V} → All P m → get key_eq m k ≡ some v → P (k, v)
  unfolding get
  All-get [] k h e = cc e
  All-get ((j, u) ∷ m) k {v} h e = elim (Bool-cases (key_eq j k)) [
    | inl same ↦
        let f : u ≡ v = ground arith in
        subst (λ (x : ConnKey × V). P x)
          (ap (λ (x : ConnKey). (x, u)) (key_eq_same j k same) ∙ ap (λ (x : V). (k, x)) f) h.0
    | inr other ↦ All-get m k h.1 (ground arith)
  ]

  pub All-insert :
      (m : List (ConnKey × V)) (k : ConnKey) (v : V)
      → All P m
      → P (k, v)
      → All P (insert key_eq m k v)
  unfolding insert
  All-insert [] k v h new = (new, tt)
  All-insert ((j, u) ∷ m) k v h new = elim (Bool-cases (key_eq j k)) [
    | inl same ↦ rw same (subst (λ (x : ConnKey). P (x, v)) (sym (key_eq_same j k same)) new, h.1)
    | inr other ↦ rw other (h.0, All-insert m k v h.1 new)
  ]

-- A cached connection is that of an entry of the key with an endpoint equal to the one asked for.
pub cached-some :
    {E C : Type 0} (endpoint_eq : E → E → Bool) (cache : ConnCache E C) (key : ConnKey)
    (endpoint : E) {conn : Arc C}
    → cached endpoint_eq cache key endpoint ≡ some conn
    → (e : E) × (endpoint_eq e endpoint ≡ true) × (get key_eq cache.map key ≡ some (e, conn))
unfolding cached
cached-some {E} {C} endpoint_eq cache key endpoint {conn} h = from (get key_eq cache.map key) refl h
  where
    from :
        (o : Option (E × Arc C))
        → get key_eq cache.map key ≡ o
        → map_option
            (λ (v : E × Arc C). v.1)
            (filter_option (λ (v : E × Arc C). endpoint_eq v.0 endpoint) o)
          ≡ some conn
        → (e : E) × (endpoint_eq e endpoint ≡ true) × (get key_eq cache.map key ≡ some (e, conn))
    from none e k = cc k
    from (some (d, c)) e k = elim (Bool-cases (endpoint_eq d endpoint)) [
      | inl same ↦
          let f : c ≡ conn = ground arith in (d, same, e ∙ ap (λ (x : Arc C). some (d, x)) f)
      | inr other ↦ absurd (ground arith)
    ]
