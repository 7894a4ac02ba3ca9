-- ===== src/Tokenizer/Numbers.antt =====
-- Numbers and literals of the tokenizer. A turn answers how many bytes it takes from the chunk.
use oaverify.Common.{
  ℕ, suc, ◌+◌, ◌-◌, Bool, false, not, ◌&&◌, ◌||◌, Option, none, some, List, [], ◌∷◌, ◌++◌, ◌==◌,
  ltb, min, if◌then◌else◌, Text, length, take, get_elem?,
}
use oaverify.Tokenizer.Bytes.{is_number_byte, number_re}
use oaverify.Tokenizer.{
  Handler, tell, Event, on_number, on_boolean, on_null, st_in_literal, parse_error, Result, done,
  thrown, ◌>>=◌, TextDecoder, Tokenizer, scan_end, after_value,
}

-- The number bytes at the head, at most so many.
unfoldable pub number_run : ℕ → List ℕ → ℕ
unfolding is_number_byte
number_run (suc n) (b ∷ s) = let more = number_run n s in if is_number_byte b then suc more else 0
number_run _ _ = 0

-- The byte at a place of the chunk ends a number.
abbrev pub ends_number : Option ℕ → Bool
ends_number none = false
ends_number (some b) = not (is_number_byte b)

-- `n` of `stepNumber` and the number of the first byte, both as offsets in the stream.
abbrev pub number_end : ℕ → ℕ → Option ℕ → ℕ
number_end edit_end start none = edit_end
number_end edit_end start (some limit) = min edit_end (start + limit)

abbrev pub literal_event : Option Bool → ℕ → ℕ → Event
literal_event none start end = on_null start end
literal_event (some value) start end = on_boolean value start end

abbrev pub is_at : Text → ℕ → ℕ → Bool
is_at word at b = elim (get_elem? word at) [ none ↦ false | some c ↦ b == c ]

module _ {D : TextDecoder} {H : Type 0} where
  -- `checkNumber`
  unfoldable pub check_number : Tokenizer D H → Result (Tokenizer D H)
  unfolding number_re
  check_number s = if number_re s.num_buf then done s else thrown (parse_error s.token_start)

  unfoldable pub begin_literal : Tokenizer D H → Text → Option Bool → Result (ℕ × Tokenizer D H)
  begin_literal s word value = done (
    0,
    record s {
      lit_expected = word;
      lit_value = value;
      lit_pos = 0;
      token_start = s.offset;
      state = st_in_literal;
    },
  )

module _ {D : TextDecoder} {H : Type 0} (on : Handler H) where
  -- `finishNumber`; of the value `Number(raw)` the model keeps `raw`.
  unfoldable pub finish_number : Tokenizer D H → ℕ → Result (Tokenizer D H)
  unfolding check_number after_value
  finish_number s end = do
    s ← check_number s
    s ← tell on s (on_number s.num_buf s.token_start end)
    done (after_value (record s { num_buf = [] }))

  -- `stepNumber`
  unfoldable pub step_number : Tokenizer D H → List ℕ → Result (ℕ × Tokenizer D H)
  unfolding number_run finish_number scan_end
  step_number s chunk =
      let edit_end = s.offset + scan_end s chunk in
      let n = number_end edit_end s.token_start s.max_number_bytes in
      let count = number_run (n - s.offset) chunk in
      let j = s.offset + count in
      let s' = record s { num_buf = s.num_buf ++ take count chunk } in
      if ltb j n || (j == n && ltb j edit_end && ends_number (get_elem? chunk count))
      then (do s ← finish_number s' j; done (count, s))
      else done (count, s')

  -- `stepLiteral`
  unfoldable pub step_literal : Tokenizer D H → ℕ → Result (ℕ × Tokenizer D H)
  unfolding after_value
  step_literal s b =
      if is_at s.lit_expected s.lit_pos b
      then (let s' = record s { lit_pos = s.lit_pos + 1 } in
          if s.lit_pos + 1 == length s.lit_expected
          then (do
            s ← tell on s' (literal_event s.lit_value s.token_start (s.offset + 1))
            done (1, after_value s))
          else done (1, s'))
      else thrown (parse_error s.offset)
