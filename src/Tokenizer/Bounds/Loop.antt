-- ===== src/Tokenizer/Bounds/Loop.antt =====
-- `write` always returns or throws, takes its whole chunk, and keeps the bounds.
use oaverify.Common.{ℕ, zero, suc, ◌+◌, ◌-◌, ◌*◌, ◌≤◌, ◌≡◌, List, [], ◌∷◌, arith, length, drop}
use oaverify.Tokenizer.Loop.{turn, run, write}
use oaverify.Tokenizer.Outcomes.{Returns, Returns->>=, Returns-if}
use oaverify.Tokenizer.Bounds.{weight, IsValid}
use oaverify.Tokenizer.Bounds.Turns.{Advanced, turn-Advanced}
use oaverify.Tokenizer.{
  Handler, State, st_value, st_value_or_end_array, st_key_or_end_object, st_key, st_colon,
  st_comma_or_end_array, st_comma_or_end_object, st_end, st_in_string, st_in_string_escape,
  st_in_string_unicode, st_in_number, st_in_literal, TextDecoder, Tokenizer,
}

length-drop : (n : ℕ) (xs : List ℕ) → length (drop n xs) ≡ length xs - n
length-drop zero xs = omega arith
length-drop (suc n) [] = omega arith
length-drop (suc n) (x ∷ xs) = omega (arith, length-drop n xs)

weight_le : (state : State) → weight state ≤ 2
weight_le st_value = omega arith
weight_le st_value_or_end_array = omega arith
weight_le st_key_or_end_object = omega arith
weight_le st_key = omega arith
weight_le st_colon = omega arith
weight_le st_comma_or_end_array = omega arith
weight_le st_comma_or_end_object = omega arith
weight_le st_end = omega arith
weight_le st_in_string = omega arith
weight_le st_in_string_escape = omega arith
weight_le st_in_string_unicode = omega arith
weight_le st_in_number = omega arith
weight_le st_in_literal = omega arith

module _ {D : TextDecoder} {H : Type 0} where
  -- The chunk is read to its end, with the bounds kept.
  abbrev pub ReadTo : ℕ → Tokenizer D H → Type 0
  ReadTo end s = (s.offset ≡ end) × IsValid s

module _ {D : TextDecoder} {H : Type 0} (on : Handler H) where
  run-ReadTo :
      (fuel : ℕ) (s : Tokenizer D H) (chunk : List ℕ)
      → IsValid s
      → 3 * length chunk + weight s.state ≤ fuel
      → Returns (ReadTo (s.offset + length chunk)) (run on fuel s chunk)
  unfolding run
  run-ReadTo fuel s [] valid enough = (omega arith, valid)
  run-ReadTo zero s (b ∷ chunk) valid enough = absurd (omega arith)
  run-ReadTo (suc fuel) s (b ∷ chunk) valid enough =
      Returns->>= (λ p. Advanced s (suc (length chunk)) p.0 p.1)
        (ReadTo (s.offset + suc (length chunk))) (turn on s b chunk) _
        (turn-Advanced on s b chunk valid)
        (λ (taken, s') moved.
          let left = drop taken (b ∷ chunk) in
          let measured : length left ≡ suc (length chunk) - taken = length-drop taken (b ∷ chunk) in
          let same : s'.offset + length left ≡ s.offset + suc (length chunk) =
            omega (arith, moved.new_offset, moved.in_chunk) in
          rw same at
            (run-ReadTo fuel s' left moved.valid (omega (arith, moved.paid, moved.in_chunk))))

  -- From a tokenizer within its bounds, whatever the decoder and the handler do (the handler may set
  -- limits as it is called), `write` never runs out of fuel: it throws, or its handler has disposed
  -- the tokenizer, or it returns past the whole chunk, within its bounds.
  pub write-ReadTo :
      (s : Tokenizer D H) (chunk : List ℕ)
      → IsValid s
      → Returns (ReadTo (s.offset + length chunk)) (write on s chunk)
  unfolding write
  write-ReadTo s chunk valid =
      Returns-if (ReadTo (s.offset + length chunk)) s.ended _ _ (λ h. λ k. cc)
        (λ h. run-ReadTo (3 * length chunk + 2) s chunk valid (omega (arith, weight_le s.state)))
