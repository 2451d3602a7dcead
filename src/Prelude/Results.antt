-- ===== src/Prelude/Results.antt =====
-- `Result<T, E>` with the methods that the program calls, and the `?` operator as bind.
use mathlib.Core.Path.{◌≡◌, refl}
use mathlib.Core.Option.{Option, none, some}

pub data Result {ℓ κ} (E : Type ℓ) (T : Type κ) : Type (ℓ ⊔ κ) where
  ok : T → Result E T
  err : E → Result E T

module _ {ℓ κ μ} {E : Type ℓ} {T : Type κ} {U : Type μ} where
  abbrev pub map_ok : (T → U) → Result E T → Result E U
  map_ok change (ok value) = ok (change value)
  map_ok change (err failure) = err failure

  -- `?`: the rest of the function runs on a value only.
  infixl 5 ◌>>=◌
  abbrev pub ◌>>=◌ : Result E T → (T → Result E U) → Result E U
  err failure >>= rest = err failure
  ok value >>= rest = rest value

  -- Code after a `?` that gives a value has run on the value before the `?`.
  pub >>=-eq-ok :
      (first : Result E T) (rest : T → Result E U) {out : U}
      → (first >>= rest) ≡ ok out
      → (value : T) × (first ≡ ok value) × (rest value ≡ ok out)
  >>=-eq-ok (err failure) rest h = cc
  >>=-eq-ok (ok value) rest h = (value, refl, h)

module _ {ℓ κ μ} {E : Type ℓ} {F : Type κ} {T : Type μ} where
  abbrev pub map_err : (E → F) → Result E T → Result F T
  map_err change (ok value) = ok value
  map_err change (err failure) = err (change failure)

  pub map_err-eq-ok :
      (change : E → F) (r : Result E T) {out : T} → map_err change r ≡ ok out → r ≡ ok out
  map_err-eq-ok change (ok value) h = cc
  map_err-eq-ok change (err failure) h = cc

module _ {ℓ κ} {E : Type ℓ} {T : Type κ} where
  abbrev pub ok_or : E → Option T → Result E T
  ok_or failure none = err failure
  ok_or failure (some value) = ok value

  pub ok_or-eq-ok : (failure : E) (o : Option T) {out : T} → ok_or failure o ≡ ok out → o ≡ some out
  ok_or-eq-ok failure none h = cc
  ok_or-eq-ok failure (some value) h = cc
