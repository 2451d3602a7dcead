-- ===== src/Prelude/Maps.antt =====
-- Rust's `HashMap` as an association list, the key test given. No statement depends on the order of
-- the entries: the program counts the values, and looks keys up.
use mathlib.Core.Path.{◌≡◌, refl}
use mathlib.Core.Bool.{Bool, true}
use mathlib.Core.Option.{Option, none, some}
use mathlib.Core.List.{List, [], ◌∷◌}
use native.Mathlib.Omega.{arith}
use cubelite.Prelude.Tests.{if◌then◌else◌}

-- What `Eq` asks of a key's `==`.
pub record IsKey {ℓ} {K : Type ℓ} (eq : K → K → Bool) : Type ℓ where
  pub eq_refl : (a : K) → eq a a ≡ true
  pub eq_symm : (a b : K) → eq a b ≡ true → eq b a ≡ true
  pub eq_trans : (a b c : K) → eq a b ≡ true → eq b c ≡ true → eq a c ≡ true

module _ {ℓ κ} {K : Type ℓ} {V : Type κ} (eq : K → K → Bool) where
  unfoldable pub get : List (K × V) → K → Option V
  get [] k = none
  get ((j, v) ∷ m) k = if eq j k then some v else get m k

  -- `insert`: the value of a key that is there is replaced
  unfoldable pub insert : List (K × V) → K → V → List (K × V)
  insert [] k v = (k, v) ∷ []
  insert ((j, w) ∷ m) k v = if eq j k then (j, v) ∷ m else (j, w) ∷ insert m k v

  pub get-insert :
      (key : IsKey eq) (m : List (K × V)) (k j : K) (v : V)
      → get (insert m k v) j ≡ (if eq k j then some v else get m j)
  unfolding get insert
  get-insert key [] k j v = refl
  get-insert key ((i, w) ∷ m) k j v = ground (
    arith,
    get-insert key m k j v,
    key.eq_trans i k j,
    key.eq_symm i k,
    key.eq_trans k i j,
    key.eq_symm k j,
    key.eq_trans i j k,
  )
