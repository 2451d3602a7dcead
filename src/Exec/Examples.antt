-- ===== src/Exec/Examples.antt =====
-- exec.rs: the theorems on lines at a short stream.
use cubelite.Prelude.{
  ℕ, zero, suc, ◌≤◌, ◌<◌, ◌≡◌, ◌≢◌, refl, ap, Bool, true, false, List, [], ◌∷◌, map, length,
  flat_map, All, arith,
}
use cubelite.Exec.{max_line_bytes, ends_in_cr, push, pump}
use cubelite.Exec.Lines.{pump-chunks, push_bounds, IsLine, written, push-written}

-- "ab", ended by a line feed, and "c", by a carriage return and a line feed
abbrev ab : List ℕ
ab = 97 ∷ 98 ∷ []

abbrev c : List ℕ
c = 99 ∷ []

abbrev lines : List (List ℕ × Bool)
lines = (ab, false) ∷ (c, true) ∷ []

lines-IsLine : All (λ l. IsLine l.0) lines
unfolding ends_in_cr
lines-IsLine = (
  record { no_newline = (ground arith, (ground arith, tt)); no_return = refl; fits = omega arith },
  (record { no_newline = (ground arith, tt); no_return = refl; fits = omega arith }, tt),
)

push-written_example :
    push (λ l. l) [] (written lines) ≡ (map (λ l. (λ (t : List ℕ). t) l.0) lines, [])
push-written_example = push-written (λ l. l) lines lines-IsLine

-- The receiver goes before the last line.
pump-chunks_example :
    pump (λ l. l) 1 [] (ab ∷ (10 ∷ c) ∷ (10 ∷ []) ∷ [])
    ≡ pump (λ l. l) 1 [] (flat_map (λ chunk. chunk) (ab ∷ (10 ∷ c) ∷ (10 ∷ []) ∷ []) ∷ [])
pump-chunks_example = pump-chunks (λ l. l) 1 [] (ab ∷ (10 ∷ c) ∷ (10 ∷ []) ∷ [])

push_bounds_example :
    All (λ l. length l ≤ max_line_bytes) (push (λ l. l) [] (written lines)).0
    × (length (push (λ l. l) [] (written lines)).1 < max_line_bytes)
push_bounds_example = push_bounds [] (written lines) (omega arith)

-- A line of `n` letters.
letters : ℕ → List ℕ
letters zero = []
letters (suc n) = 97 ∷ letters n

letters-plain : (n : ℕ) → All (λ b. b ≢ 10) (letters n)
unfolding letters
letters-plain zero = tt
letters-plain (suc n) = (ground arith, letters-plain n)

length-letters : (n : ℕ) → length (letters n) ≡ n
unfolding letters
length-letters zero = refl
length-letters (suc n) = ap suc (length-letters n)
