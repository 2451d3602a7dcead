-- ===== src/Prelude/Int.antt =====
-- `i32` values, as far as the program uses them: whether two are equal, and the conversion to `u16`.
use cubelite.Prelude.Tests.{ltb, ◌==◌, if◌then◌else◌}
use Prim.Native.Nat.{ℕ, suc, ◌+◌, ◌-◌, ◌%◌, ◌^◌, ◌<◌}
use mathlib.Core.Path.{◌≡◌}
use mathlib.Core.List.{List, [], ◌∷◌}
use native.Mathlib.Omega.{arith}
use mathlib.Core.Bool.{Bool, false}
use mathlib.Core.Option.{Option, none, some}

-- `negsuc n` is -(n + 1).
pub data ℤ : Type 0 where
  pos : ℕ → ℤ
  negsuc : ℕ → ℤ

unfoldable pub int_eq : ℤ → ℤ → Bool
int_eq (pos a) (pos b) = a == b
int_eq (pos a) (negsuc b) = false
int_eq (negsuc a) (pos b) = false
int_eq (negsuc a) (negsuc b) = a == b

-- `u16::try_from(n).ok()`
unfoldable pub u16_try_from : ℤ → Option ℕ
u16_try_from (pos n) = if ltb n 65536 then some n else none
u16_try_from (negsuc n) = none

-- Addition
unfoldable pub int_add : ℤ → ℤ → ℤ
int_add (pos a) (pos b) = pos (a + b)
int_add (pos a) (negsuc b) = if ltb b a then pos (a - suc b) else negsuc (b - a)
int_add (negsuc a) (pos b) = if ltb a b then pos (b - suc a) else negsuc (a - b)
int_add (negsuc a) (negsuc b) = negsuc (suc (a + b))

-- What is kept of a number in an `i32`: its last 32 bits, in two's complement
unfoldable pub wrap_i32 : ℤ → ℤ
wrap_i32 (pos n) = let m = n % 2 ^ 32 in if ltb m (2 ^ 31) then pos m else negsuc (2 ^ 32 - 1 - m)
wrap_i32 (negsuc n) =
    let m = n % 2 ^ 32 in if ltb m (2 ^ 31) then negsuc m else pos (2 ^ 32 - 1 - m)

-- `sum()` of `i32`s, which wraps around in a release build
unfoldable pub sum_i32 : List ℤ → ℤ
unfolding int_add wrap_i32
sum_i32 [] = pos 0
sum_i32 (a ∷ rest) = wrap_i32 (int_add a (sum_i32 rest))

-- `n as i32`
unfoldable pub as_i32 : ℕ → ℤ
unfolding wrap_i32
as_i32 n = wrap_i32 (pos n)

pub as_i32-pos : (n : ℕ) → n < 2 ^ 31 → as_i32 n ≡ pos n
unfolding as_i32
as_i32-pos n h = ground arith
