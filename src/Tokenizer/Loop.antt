-- ===== src/Tokenizer/Loop.antt =====
-- The loop of JsonTokenizer.write with its dispatch on the state, and `end`.
use oaverify.Common.{ℕ, zero, suc, ◌+◌, ◌*◌, true, List, [], ◌∷◌, if◌then◌else◌, length, drop}
use oaverify.Tokenizer.Bytes.{is_whitespace}
use oaverify.Tokenizer.Numbers.{finish_number, step_number, step_literal}
use oaverify.Tokenizer.Strings.{scan_string_body}
use oaverify.Tokenizer.Escapes.{step_string_escape, step_string_unicode}
use oaverify.Tokenizer.{
  Handler, State, st_in_string, st_in_string_escape, st_in_string_unicode, st_in_number,
  st_in_literal, parse_error, out_of_fuel, Result, done, thrown, ◌>>=◌, TextDecoder, Tokenizer,
}
use oaverify.Tokenizer.Machine.{in_number, guard, settle, structural}

module _ {D : TextDecoder} {H : Type 0} (on : Handler H) where
  -- The dispatch of `write` on the state, for a chunk that begins with `b`.
  unfoldable pub dispatch : State → Tokenizer D H → ℕ → List ℕ → Result (ℕ × Tokenizer D H)
  unfolding scan_string_body step_string_escape step_string_unicode step_number step_literal
      structural is_whitespace
  dispatch st_in_string s b chunk = scan_string_body on s (b ∷ chunk)
  dispatch st_in_string_escape s b chunk = step_string_escape on s b
  dispatch st_in_string_unicode s b chunk = step_string_unicode on s b
  dispatch st_in_number s b chunk = step_number on s (b ∷ chunk)
  dispatch st_in_literal s b chunk = step_literal on s b
  dispatch state s b chunk = if is_whitespace b then done (1, s) else structural on state s b

  -- One turn of the loop of `write`: the bytes taken, and the tokenizer past them.
  unfoldable pub turn : Tokenizer D H → ℕ → List ℕ → Result (ℕ × Tokenizer D H)
  unfolding guard dispatch
  turn s b chunk = do
    s ← guard s b
    (taken, s) ← dispatch s.state s b chunk
    done (taken, record s { offset = s.offset + taken })

  unfoldable pub run : ℕ → Tokenizer D H → List ℕ → Result (Tokenizer D H)
  unfolding turn
  run fuel s [] = done s
  run zero s (b ∷ chunk) = thrown out_of_fuel
  run (suc fuel) s (b ∷ chunk) = do (taken, s) ← turn s b chunk; run fuel s (drop taken (b ∷ chunk))

  -- `write`
  unfoldable pub write : Tokenizer D H → List ℕ → Result (Tokenizer D H)
  unfolding run
  write s chunk =
      if s.ended then thrown (parse_error s.offset) else run (3 * length chunk + 2) s chunk

  -- A number in progress ends with the input.
  unfoldable pub close_number : Tokenizer D H → Result (Tokenizer D H)
  unfolding finish_number
  close_number s = if in_number s.state then finish_number on s s.offset else done s

  -- `end`
  unfoldable pub end : Tokenizer D H → Result (Tokenizer D H)
  unfolding close_number
  end s = if s.ended then done s else close_number (record s { ended = true }) >>= settle

  -- The writes of the chunks, one after the other.
  abbrev pub feed : Tokenizer D H → List (List ℕ) → Result (Tokenizer D H)
  feed s [] = done s
  feed s (chunk ∷ chunks) = do s ← write s chunk; feed s chunks
