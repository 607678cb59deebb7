-- ===== src/Server/Frames.antt =====
-- The frames are the lines of the input, whatever their length.
use limitlesslibrary.Base.{
  ℕ, zero, suc, ◌+◌, ◌≤◌, ◌<◌, ◌≡◌, refl, sym, ap, ◌∙◌, String, true, false, Option, List, [], ◌∷◌,
  ◌++◌, map, ltb, ◌==◌, length, if◌then◌else◌, arith, Bool-cases, inl, inr, ◌⊎◌,
}
use limitlesslibrary.Server.{Bytes, in_front, readline, ends, skip, frame_of, behind, bounded_lines}

-- The first line of any length, with its newline where it has one, and the rest.
unfoldable pub line_of : Bytes → Bytes × Bytes
line_of [] = ([], [])
line_of (b ∷ bytes) =
    let more = line_of bytes in if b == 10 then (b ∷ [], bytes) else in_front b more

abbrev put_in_front : ℕ → List Bytes → List Bytes
put_in_front b [] = (b ∷ []) ∷ []
put_in_front b (l ∷ ls) = (b ∷ l) ∷ ls

-- The input cut behind each newline.
unfoldable pub lines : Bytes → List Bytes
lines [] = []
lines (b ∷ bytes) =
    let rest = lines bytes in if b == 10 then (b ∷ []) ∷ rest else put_in_front b rest

lines_of_cons :
    (b : ℕ) (bytes : Bytes)
    → lines (b ∷ bytes) ≡ (line_of (b ∷ bytes)).0 ∷ lines (line_of (b ∷ bytes)).1
unfolding lines line_of
lines_of_cons b [] = ground arith
lines_of_cons b (c ∷ bytes) = let ih = lines_of_cons c bytes in ground arith

ends_cons : (b : ℕ) (raw : Bytes) → (b == 10) ≡ false → ends (b ∷ raw) ≡ ends raw
unfolding ends
ends_cons b [] h = h
ends_cons b (c ∷ raw) h = refl

-- A piece that is read is a line, or the front of one.
readline_piece :
    (n : ℕ) (bytes : Bytes)
    → line_of bytes ≡ (
        if ends (readline n bytes).0 then readline n bytes else (
          (readline n bytes).0 ++ (line_of (readline n bytes).1).0,
          (line_of (readline n bytes).1).1,
        ))
unfolding line_of readline
readline_piece zero bytes = unfold ends in ground arith
readline_piece (suc n) [] = unfold ends in ground arith
readline_piece (suc n) (b ∷ bytes) = elim (Bool-cases (b == 10)) [
  | inl same ↦ let last : ends (b ∷ []) ≡ true = unfold ends in same in ground (arith, last)
  | inr other ↦
      let ih = readline_piece n bytes in
      let last = ends_cons b (readline n bytes).0 other in ground (arith, last, ih)
]

length-readline :
    (n : ℕ) (bytes : Bytes)
    → length (readline n bytes).0 + length (readline n bytes).1 ≡ length bytes
unfolding readline
length-readline zero bytes = ground arith
length-readline (suc n) [] = ground arith
length-readline (suc n) (b ∷ bytes) = let ih = length-readline n bytes in ground arith

-- A piece that is short and no line ends the input.
readline_short :
    (n : ℕ) (bytes : Bytes)
    → length (readline n bytes).0 < n
    → ends (readline n bytes).0 ≡ false
    → (readline n bytes).1 ≡ []
unfolding readline
readline_short zero bytes h k = ground arith
readline_short (suc n) [] h k = refl
readline_short (suc n) (b ∷ bytes) h k = elim (Bool-cases (b == 10)) [
  | inl same ↦ let last : ends (b ∷ []) ≡ true = unfold ends in same in ground (arith, last)
  | inr other ↦
      let ih = readline_short n bytes in
      let last = ends_cons b (readline n bytes).0 other in ground (arith, last, ih)
]

length-readline-le : (n : ℕ) (bytes : Bytes) → length (readline n bytes).0 ≤ n
unfolding readline
length-readline-le zero bytes = omega arith
length-readline-le (suc n) [] = omega arith
length-readline-le (suc n) (b ∷ bytes) = let ih = length-readline-le n bytes in ground arith

-- Nothing is read at the end of the input only.
readline_empty :
    (maximum : ℕ) (bytes rest : Bytes)
    → readline (suc maximum) bytes ≡ ([], rest)
    → rest ≡ (line_of bytes).1
unfolding readline line_of
readline_empty maximum [] rest e = ground arith
readline_empty maximum (b ∷ bytes) rest e = ground arith

not_below : (n : ℕ) → ¬ (n < 0)
not_below n h = omega arith

-- The loop over a line that is too long ends behind that line.
skip_line :
    (fuel maximum : ℕ) (bytes raw rest : Bytes)
    → readline (suc maximum) bytes ≡ (raw, rest)
    → (0 < length raw → length rest < fuel)
    → skip fuel maximum raw rest ≡ (line_of bytes).1
unfolding skip
skip_line zero maximum bytes [] rest e h = readline_empty maximum bytes rest e
skip_line zero maximum bytes (c ∷ raw) rest e h = absurd (not_below (length rest) (h (omega arith)))
skip_line (suc fuel) maximum bytes [] rest e h = readline_empty maximum bytes rest e
skip_line (suc fuel) maximum bytes (c ∷ raw) rest e h =
    let piece = readline_piece (suc maximum) bytes in
    let sizes = length-readline (suc maximum) rest in
    let small : length rest < suc fuel = h (omega arith) in
    let ih =
      skip_line fuel maximum rest (readline (suc maximum) rest).0 (readline (suc maximum) rest).1
        refl (λ some_read. omega (arith, sizes, small, some_read)) in
    ground (arith, piece, e, ih)

length-line_of :
    (bytes : Bytes) → length (line_of bytes).0 + length (line_of bytes).1 ≡ length bytes
unfolding line_of
length-line_of [] = refl
length-line_of (b ∷ bytes) = let ih = length-line_of bytes in ground arith

line_of_nonempty : (b : ℕ) (bytes : Bytes) → 0 < length (line_of (b ∷ bytes)).0
unfolding line_of
line_of_nonempty b bytes = ground arith

length-append : (xs ys : Bytes) → length (xs ++ ys) ≡ length xs + length ys
length-append [] ys = omega arith
length-append (x ∷ xs) ys = omega (arith, length-append xs ys)

append_nil : (xs : Bytes) → xs ++ [] ≡ xs
append_nil [] = refl
append_nil (x ∷ xs) = ap (λ t. x ∷ t) (append_nil xs)

-- A piece with nothing behind it is the whole line.
whole_line :
    (n : ℕ) (bytes raw rest : Bytes)
    → readline n bytes ≡ (raw, rest)
    → ends (readline n bytes).0 ≡ false
    → rest ≡ []
    → line_of bytes ≡ (raw, rest)
unfolding line_of
whole_line n bytes raw rest e h nothing =
    let piece = readline_piece n bytes in
    let same = append_nil raw in ground (arith, piece, e, h, nothing, same)

-- A piece that is not read to its end is the whole line, or fills the buffer.
piece_cases :
    (maximum : ℕ) (bytes raw rest : Bytes)
    → readline (suc maximum) bytes ≡ (raw, rest)
    → (line_of bytes ≡ (raw, rest)) ⊎ (ltb maximum (length raw) ≡ true)
piece_cases maximum bytes raw rest e =
    let piece = readline_piece (suc maximum) bytes in
    elim (Bool-cases (ends raw)) [
      | inl at_end ↦ inl (ground (arith, piece, e, at_end))
      | inr open_end ↦ elim (Bool-cases (ltb maximum (length raw))) [
        | inl full ↦ inr full
        | inr short ↦
            let nothing : rest ≡ [] =
              ap (λ p. p.1) (sym e)
              ∙ readline_short (suc maximum) bytes (ground (arith, e, short))
                  (ground (arith, e, open_end)) in
            inl (whole_line (suc maximum) bytes raw rest e (ground (arith, e, open_end)) nothing)
      ]
    ]

-- What is too long as a piece is too long as a line.
too_long_line :
    (maximum : ℕ) (bytes raw rest : Bytes)
    → readline (suc maximum) bytes ≡ (raw, rest)
    → ltb maximum (length raw) ≡ true
    → ltb maximum (length (line_of bytes).0) ≡ true
too_long_line maximum bytes raw rest e h =
    let piece = readline_piece (suc maximum) bytes in
    let sizes = length-append raw (line_of rest).0 in ground (arith, piece, sizes, e, h)

-- The lines behind the first one are shorter than the input.
shorter :
    (fuel b : ℕ) (bytes : Bytes)
    → length (b ∷ bytes) ≤ suc fuel
    → length (line_of (b ∷ bytes)).1 ≤ fuel
shorter fuel b bytes h =
    let nonempty = line_of_nonempty b bytes in
    let sizes = length-line_of (b ∷ bytes) in omega (arith, nonempty, sizes, h)

readline_cons :
    (maximum b : ℕ) (bytes : Bytes)
    → (raw : Bytes) × (rest : Bytes) × (readline (suc maximum) (b ∷ bytes) ≡ (b ∷ raw, rest))
unfolding readline
readline_cons maximum b bytes = elim (Bool-cases (b == 10)) [
  | inl same ↦ ([], bytes, ground (arith, same))
  | inr other ↦ ((readline maximum bytes).0, (readline maximum bytes).1, ground (arith, other))
]

module _ (decode : Bytes → Option String) where
  -- The first round of the loop.
  first_frame :
      (maximum : ℕ) (bytes raw rest : Bytes)
      → readline (suc maximum) bytes ≡ (raw, rest)
      → frame_of decode maximum raw ≡ frame_of decode maximum (line_of bytes).0
  first_frame maximum bytes raw rest e = elim (piece_cases maximum bytes raw rest e) [
    | inl same ↦ ap (λ p. frame_of decode maximum p.0) (sym same)
    | inr full ↦
        let long = too_long_line maximum bytes raw rest e full in ground (arith, long, full)
  ]

  first_behind :
      (maximum : ℕ) (bytes raw rest : Bytes)
      → readline (suc maximum) bytes ≡ (raw, rest)
      → behind decode maximum raw rest ≡ (line_of bytes).1
  first_behind maximum bytes raw rest e =
      let skipped = skip_line (suc (length rest)) maximum bytes raw rest e (λ _. omega arith) in
      elim (piece_cases maximum bytes raw rest e) [
        | inl same ↦ ground (arith, skipped, same)
        | inr full ↦ ground (arith, skipped, full)
      ]

  -- One round yields the first line's frame and leaves the other lines.
  round_lines :
      (fuel maximum b : ℕ) (bytes : Bytes)
      → bounded_lines decode (suc fuel) maximum (b ∷ bytes)
        ≡ frame_of decode maximum (line_of (b ∷ bytes)).0
          ∷ bounded_lines decode fuel maximum (line_of (b ∷ bytes)).1
  unfolding bounded_lines
  round_lines fuel maximum b bytes =
      let (raw, rest, e) = readline_cons maximum b bytes in
      let frame = first_frame maximum (b ∷ bytes) (b ∷ raw) rest e in
      let later = first_behind maximum (b ∷ bytes) (b ∷ raw) rest e in
      ap
        (λ piece. elim piece.0 [
          | [] ↦ []
          | c ∷ more ↦
              frame_of decode maximum (c ∷ more)
              ∷ bounded_lines decode fuel maximum (behind decode maximum (c ∷ more) piece.1)
        ])
        e
      ∙ ap (λ f. f ∷ bounded_lines decode fuel maximum (behind decode maximum (b ∷ raw) rest)) frame
      ∙ ap
          (λ after.
            frame_of decode maximum (line_of (b ∷ bytes)).0
            ∷ bounded_lines decode fuel maximum after)
          later

  -- On input of any length, and with as much fuel as it has bytes, the loop yields one frame for
  -- each line, in order: its text, or the error for a line that is too long or no UTF-8. How many
  -- reads a line takes makes no difference.
  pub bounded_lines-lines :
      (fuel maximum : ℕ) (bytes : Bytes)
      → length bytes ≤ fuel
      → bounded_lines decode fuel maximum bytes ≡ map (frame_of decode maximum) (lines bytes)
  unfolding bounded_lines lines
  bounded_lines-lines zero maximum [] h = refl
  bounded_lines-lines zero maximum (b ∷ bytes) h =
      absurd (not_below (length bytes) (omega (arith, h)))
  bounded_lines-lines (suc fuel) maximum [] h = unfold readline in refl
  bounded_lines-lines (suc fuel) maximum (b ∷ bytes) h =
      round_lines fuel maximum b bytes
      ∙ ap (λ frames. frame_of decode maximum (line_of (b ∷ bytes)).0 ∷ frames)
          (bounded_lines-lines fuel maximum (line_of (b ∷ bytes)).1 (shorter fuel b bytes h))
      ∙ sym (ap (map (frame_of decode maximum)) (lines_of_cons b bytes))
