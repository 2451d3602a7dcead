-- ===== src/Exec/Lines.antt =====
-- exec.rs: what the line assembler guarantees over every way of cutting the stream into chunks.
use mathlib.Core.List.{append_assoc, append-nil, map-append}
use cubelite.Prelude.{
  ℕ, zero, suc, take, none, some, Option-cases, inl, inr, ◌+◌, ◌≤◌, ◌<◌, ◌≡◌, ◌≢◌, refl, sym, ap,
  ◌∙◌, Bool, true, false, List, [], ◌∷◌, ◌++◌, map, length, flat_map, All, All-append,
  length-append, arith,
}
use cubelite.Prelude.Texts.{Text}
use cubelite.Exec.{max_line_bytes, pop, ends_in_cr, push_byte, push, finish, send_all, pump}

module _ (decode : List ℕ → Text) where
  -- Reading a chunk in two pieces completes the same lines and leaves the same partial line.
  pub push-append :
      (pending xs ys : List ℕ)
      → push decode pending (xs ++ ys) ≡ (
        (push decode pending xs).0 ++ (push decode (push decode pending xs).1 ys).0,
        (push decode (push decode pending xs).1 ys).1,
      )
  unfolding push
  push-append pending [] ys = refl
  push-append pending (x ∷ xs) ys =
      let (lines, p) = push_byte decode pending x in
      rw (push-append p xs ys) (λ i. (
        sym (append_assoc lines (push decode p xs).0 (push decode (push decode p xs).1 ys).0) i,
        (push decode (push decode p xs).1 ys).1,
      ))

  -- Every line of the chunks, and what is pending at the end
  abbrev all_lines : List ℕ → List (List ℕ) → List Text
  all_lines pending [] = elim ((finish decode pending).0) [ none ↦ [] | some text ↦ text ∷ [] ]
  all_lines pending (chunk ∷ chunks) =
      (push decode pending chunk).0 ++ all_lines (push decode pending chunk).1 chunks

  all_lines-append :
      (pending xs ys : List ℕ) (chunks : List (List ℕ))
      → all_lines pending (xs ∷ ys ∷ chunks) ≡ all_lines pending ((xs ++ ys) ∷ chunks)
  all_lines-append pending xs ys chunks = rw (push-append pending xs ys) (
      sym (
        append_assoc (push decode pending xs).0 (push decode (push decode pending xs).1 ys).0
          (all_lines (push decode (push decode pending xs).1 ys).1 chunks)))

  all_lines-chunks :
      (pending : List ℕ) (chunks : List (List ℕ))
      → all_lines pending chunks ≡ all_lines pending (flat_map (λ c. c) chunks ∷ [])
  all_lines-chunks pending [] = unfold push in refl
  all_lines-chunks pending (c ∷ chunks) =
      ap (λ l. (push decode pending c).0 ++ l) (all_lines-chunks (push decode pending c).1 chunks)
      ∙ all_lines-append pending c (flat_map (λ c. c) chunks) []

  -- What is sent of some lines, and then of more, is what there is room for.
  send_all-take :
      (room : ℕ) (lines more : List Text)
      → elim (send_all room lines).1 [
        | none ↦ (send_all room lines).0
        | some left ↦ (send_all room lines).0 ++ take left more
      ]
        ≡ take room (lines ++ more)
  unfolding send_all
  send_all-take room [] more = refl
  send_all-take zero (text ∷ lines) more = refl
  send_all-take (suc room) (text ∷ lines) more = elim (Option-cases (send_all room lines).1) [
    | inl e ↦ rw e (ap (λ l. text ∷ l) (rw e at (send_all-take room lines more)))
    | inr (left, e) ↦ rw e (ap (λ l. text ∷ l) (rw e at (send_all-take room lines more)))
  ]

  send_all-last : (room : ℕ) (lines : List Text) → (send_all room lines).0 ≡ take room lines
  unfolding send_all
  send_all-last room [] = sym (take-nil room)
    where
      take-nil : (n : ℕ) → Path (List Text) (take n []) []
      take-nil zero = refl
      take-nil (suc n) = refl
  send_all-last zero (text ∷ lines) = refl
  send_all-last (suc room) (text ∷ lines) = ap (λ l. text ∷ l) (send_all-last room lines)

  pump-take :
      (room : ℕ) (pending : List ℕ) (chunks : List (List ℕ))
      → pump decode room pending chunks ≡ take room (all_lines pending chunks)
  unfolding pump
  pump-take room pending [] = send_all-last room _
  pump-take room pending (c ∷ chunks) =
      let (lines, rest) = push decode pending c in
      elim (Option-cases (send_all room lines).1) [
        | inl e ↦ rw (pump, e) (rw e at (send_all-take room lines (all_lines rest chunks)))
        | inr (left, e) ↦
            rw (pump, e) (ap (λ l. (send_all room lines).0 ++ l) (pump-take left rest chunks))
            ∙ (rw e at (send_all-take room lines (all_lines rest chunks)))
      ]

  -- Whenever the receiver goes, the lines it gets depend only on the bytes of the stream, on what
  -- was pending and on how many lines it takes, not on how the stream was cut into chunks.
  pub pump-chunks :
      (room : ℕ) (pending : List ℕ) (chunks : List (List ℕ))
      → pump decode room pending chunks ≡ pump decode room pending (flat_map (λ c. c) chunks ∷ [])
  pump-chunks room pending chunks =
      pump-take room pending chunks
      ∙ ap (take room) (all_lines-chunks pending chunks)
      ∙ sym (pump-take room pending (flat_map (λ c. c) chunks ∷ []))

  push_byte-decode :
      (pending : List ℕ) (x : ℕ)
      → push_byte decode pending x
        ≡ (map decode (push_byte (λ l. l) pending x).0, (push_byte (λ l. l) pending x).1)
  unfolding push_byte
  push_byte-decode pending x = ground arith

  -- Decoding is the last thing that happens to a line.
  pub push-decode :
      (pending xs : List ℕ)
      → push decode pending xs
        ≡ (map decode (push (λ l. l) pending xs).0, (push (λ l. l) pending xs).1)
  unfolding push
  push-decode pending [] = refl
  push-decode pending (x ∷ xs) =
      let (raw, p) = push_byte (λ l. l) pending x in
      rw (push_byte-decode pending x, push-decode p xs, map-append) refl

pop-length : (bs : List ℕ) → length (pop bs) ≤ length bs
unfolding pop
pop-length [] = omega arith
pop-length (b ∷ []) = omega arith
pop-length (b ∷ (c ∷ bs)) = omega (arith, pop-length (c ∷ bs))

push_byte_bounds :
    (pending : List ℕ) (b : ℕ)
    → length pending < max_line_bytes
    → All (λ l. length l ≤ max_line_bytes) (push_byte (λ l. l) pending b).0
      × (length (push_byte (λ l. l) pending b).1 < max_line_bytes)
unfolding push_byte
push_byte_bounds pending b h = ground (arith, pop-length pending, length-append pending (b ∷ []))

-- If less than the limit is pending, every line is at most MAX_LINE_BYTES long before decoding, and
-- less than that is kept back.
pub push_bounds :
    (pending bytes : List ℕ)
    → length pending < max_line_bytes
    → All (λ l. length l ≤ max_line_bytes) (push (λ l. l) pending bytes).0
      × (length (push (λ l. l) pending bytes).1 < max_line_bytes)
unfolding push
push_bounds pending [] h = (tt, h)
push_bounds pending (b ∷ bytes) h =
    let (short, room) = push_byte_bounds pending b h in
    let (shorts, rest) = push_bounds (push_byte (λ l. l) pending b).1 bytes room in
    (All-append _ _ _ short shorts, rest)

-- A line as it is written: no line feed in it, and a carriage return at most inside it.
pub record IsLine (line : List ℕ) : Type 0 where
  pub no_newline : All (λ b. b ≢ 10) line
  pub no_return : ends_in_cr line ≡ false
  pub fits : suc (length line) < max_line_bytes

push_byte-plain :
    (decode : List ℕ → Text) (pending : List ℕ) (b : ℕ)
    → b ≢ 10
    → suc (length pending) < max_line_bytes
    → push_byte decode pending b ≡ ([], pending ++ b ∷ [])
unfolding push_byte
push_byte-plain decode pending b h k = ground (arith, length-append pending (b ∷ []))

push-plain :
    (decode : List ℕ → Text) (pending line : List ℕ)
    → All (λ b. b ≢ 10) line
    → length pending + length line < max_line_bytes
    → push decode pending line ≡ ([], pending ++ line)
unfolding push
push-plain decode pending [] h k = rw (append-nil pending)
push-plain decode pending (b ∷ line) h k = rw (push_byte-plain decode pending b h.0 (omega arith)) (
    push-plain decode (pending ++ b ∷ []) line h.1 (omega (arith, length-append pending (b ∷ [])))
    ∙ ap (λ l. ([], l)) (append_assoc pending (b ∷ []) line))

pop-append : (line : List ℕ) (b : ℕ) → pop (line ++ b ∷ []) ≡ line
unfolding pop
pop-append [] b = refl
pop-append (c ∷ []) b = refl
pop-append (c ∷ (d ∷ line)) b = ap (λ l. c ∷ l) (pop-append (d ∷ line) b)

ends_in_cr-append : (line : List ℕ) → ends_in_cr (line ++ 13 ∷ []) ≡ true
unfolding ends_in_cr
ends_in_cr-append [] = refl
ends_in_cr-append (c ∷ []) = refl
ends_in_cr-append (c ∷ (d ∷ line)) = ends_in_cr-append (d ∷ line)

-- A line's end: `\n`, or `\r\n` if the flag is set.
abbrev pub line_end : Bool → List ℕ
line_end false = 10 ∷ []
line_end true = 13 ∷ 10 ∷ []

abbrev pub written : List (List ℕ × Bool) → List ℕ
written [] = []
written ((line, crlf) ∷ lines) = (line ++ line_end crlf) ++ written lines

push-newline :
    (decode : List ℕ → Text) (line : List ℕ)
    → ends_in_cr line ≡ false
    → push decode line (10 ∷ []) ≡ (decode line ∷ [], [])
unfolding push push_byte
push-newline decode line h = rw h refl

push-return :
    (decode : List ℕ → Text) (line : List ℕ)
    → suc (length line) < max_line_bytes
    → push decode line (13 ∷ 10 ∷ []) ≡ (decode line ∷ [], [])
unfolding push
push-return decode line h =
    rw (push_byte-plain decode line 13 (omega arith) h)
      (unfold push_byte in rw (ends_in_cr-append line, pop-append line 13) refl)

push-line :
    (decode : List ℕ → Text) (line : List ℕ) (crlf : Bool)
    → IsLine line
    → push decode [] (line ++ line_end crlf) ≡ (decode line ∷ [], [])
push-line decode line false h =
    rw (push-append decode [] line (10 ∷ []), push-plain decode [] line h.no_newline (omega arith))
      (rw (push-newline decode line h.no_return) refl)
push-line decode line true h =
    rw
      (
        push-append decode [] line (13 ∷ 10 ∷ []),
        push-plain decode [] line h.no_newline (omega arith),
      )
      (rw (push-return decode line h.fits) refl)

-- Lines of at least two bytes less than MAX_LINE_BYTES, with no line feed and no carriage return at
-- their end, written one after the other and each ended by a line feed or by a carriage return and
-- a line feed, are read back exactly, and nothing is kept back.
pub push-written :
    (decode : List ℕ → Text) (lines : List (List ℕ × Bool))
    → All (λ l. IsLine l.0) lines
    → push decode [] (written lines) ≡ (map (λ l. decode l.0) lines, [])
push-written decode [] h = unfold push in refl
push-written decode ((line, crlf) ∷ lines) h =
    rw
      (
        push-append decode [] (line ++ line_end crlf) (written lines),
        push-line decode line crlf h.0,
        push-written decode lines h.1,
      )
      refl

-- A line of exactly MAX_LINE_BYTES bytes without a line feed is cut like a longer one: its line
-- feed then ends one more line, which is empty.
pub push-full_line :
    (decode : List ℕ → Text) (line : List ℕ) (b : ℕ)
    → All (λ b. b ≢ 10) line
    → b ≢ 10
    → suc (length line) ≡ max_line_bytes
    → push decode [] (line ++ b ∷ 10 ∷ []) ≡ (decode (line ++ b ∷ []) ∷ decode [] ∷ [], [])
unfolding push push_byte
push-full_line decode line b h k e =
    rw (push-append decode [] line (b ∷ 10 ∷ []), push-plain decode [] line h (omega arith))
      (unfold ends_in_cr in ground (arith, length-append line (b ∷ [])))
