-- ===== src/Exec.antt =====
-- exec.rs: the line assembler of an exec session's output, and the status line.
-- A session's bytes arrive in chunks; `LineAssembler` cuts them into lines. The decoding of a
-- finished line, `String::from_utf8_lossy`, is an argument: no statement depends on it.
pub mod Lines
mod Examples
use cubelite.Prelude.{
  ℕ, zero, suc, ◌+◌, ◌*◌, ◌≤◌, ◌<◌, ◌≡◌, refl, Bool, true, false, ◌&&◌, Option, none, some, List,
  [], ◌∷◌, ◌++◌, ◌==◌, leb, if◌then◌else◌, length, last, is_empty, or_else, filter_option, not,
  arith,
}
use cubelite.Prelude.Texts.{Text, codes, text_eq}

-- `MAX_LINE_BYTES`
abbrev pub max_line_bytes : ℕ
max_line_bytes = 64 * 1024

-- `Vec::pop`, the popped byte dropped
unfoldable pub pop : List ℕ → List ℕ
pop [] = []
pop (b ∷ []) = []
pop (b ∷ (c ∷ bs)) = b ∷ pop (c ∷ bs)

unfoldable pub ends_in_cr : List ℕ → Bool
ends_in_cr pending = elim (last pending) [ none ↦ false | some b ↦ b == 13 ]

-- `tx.send` of each line. The receiver takes `room` more lines before it goes, and a send after that
-- fails, which ends the session's output: no room is left then.
unfoldable pub send_all : ℕ → List Text → List Text × Option ℕ
send_all room [] = ([], some room)
send_all zero (text ∷ texts) = ([], none)
send_all (suc room) (text ∷ texts) = let (sent, left) = send_all room texts in (text ∷ sent, left)

-- `self` is `pending`. The result is the lines completed and the new `pending`.
module _ (from_utf8_lossy : List ℕ → Text) where
  -- the body of the loop of `push`, with `take` written out
  unfoldable pub push_byte : List ℕ → ℕ → List Text × List ℕ
  unfolding pop ends_in_cr
  push_byte pending byte =
      if byte == 10
      then (from_utf8_lossy (if ends_in_cr pending then pop pending else pending) ∷ [], [])
      else let longer = pending ++ byte ∷ [] in
        if leb max_line_bytes (length longer)
        then (from_utf8_lossy longer ∷ [], [])
        else ([], longer)

  unfoldable pub push : List ℕ → List ℕ → List Text × List ℕ
  push pending [] = ([], pending)
  push pending (byte ∷ bytes) =
      let (lines, pending') = push_byte pending byte in
      let (more, pending'') = push pending' bytes in (lines ++ more, pending'')

  unfoldable pub finish : List ℕ → Option Text × List ℕ
  finish [] = (none, [])
  finish (b ∷ bs) = (some (from_utf8_lossy (b ∷ bs)), [])

  -- `pump` over the chunks read until the stream ends: the lines that the receiver takes, in order
  unfoldable pub pump : ℕ → List ℕ → List (List ℕ) → List Text
  unfolding finish send_all
  pump room pending [] =
      (send_all room (elim ((finish pending).0) [ none ↦ [] | some text ↦ text ∷ [] ])).0
  pump room pending (chunk ∷ chunks) =
      let (lines, pending') = push pending chunk in
      let (sent, left) = send_all room lines in
      elim left [ none ↦ sent | some room' ↦ sent ++ pump room' pending' chunks ]

-- The fields of `k8s_openapi`'s `Status` that are read.
pub record Status : Type 0 where
  pub status : Option Text
  pub message : Option Text
  pub reason : Option Text

unfoldable pub is_failure : Option Text → Bool
is_failure none = false
is_failure (some s) = text_eq s (codes "Failure")

unfoldable pub status_line : Option Status → Option Text
unfolding is_failure
status_line none = none
status_line (some s) =
    if is_failure s.status
    then or_else (or_else (filter_option (λ m. not (is_empty m)) s.message) s.reason)
        (some (codes "command failed"))
    else none
