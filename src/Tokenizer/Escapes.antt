-- ===== src/Tokenizer/Escapes.antt =====
-- Escapes in the strings of the tokenizer.
use oaverify.Common.{
  ℕ, ◌+◌, ◌*◌, false, ◌&&◌, none, some, [], ◌∷◌, ◌==◌, ltb, within, if◌then◌else◌,
}
use oaverify.Common.Percent.{hex_value}
use oaverify.Tokenizer.{
  Handler, ◌>>=◌, st_in_string, st_in_string_unicode, parse_error, Result, done, thrown,
  TextDecoder, Tokenizer,
}
use oaverify.Tokenizer.Strings.{escape_text, emit_string_text}

module _ {D : TextDecoder} {H : Type 0} (on : Handler H) where
  -- `stepStringEscape`
  unfoldable pub step_string_escape : Tokenizer D H → ℕ → Result (ℕ × Tokenizer D H)
  unfolding escape_text emit_string_text
  step_string_escape s b =
      if b == b'u'
      then done (1, record s { uni_value = 0; uni_digits = 0; state = st_in_string_unicode })
      else elim (escape_text b) [
        | none ↦ thrown (parse_error s.offset)
        | some ch ↦
            let s' = record s {
              str_code_points = s.str_code_points + 1;
              pending_high_surrogate = false;
            } in
            (do
              s ← emit_string_text on s' (ch ∷ []) s.offset (s.offset + 1)
              done (1, record s { state = st_in_string }))
      ]

  -- The unit that `\uXXXX` stands for, completed.
  unfoldable pub take_unit : Tokenizer D H → ℕ → Result (Tokenizer D H)
  unfolding emit_string_text
  take_unit s unit =
      let pairs = s.pending_high_surrogate && within 0xdc00 0xdfff unit in
      let s' = record s {
        str_code_points = (if pairs then s.str_code_points else s.str_code_points + 1);
        pending_high_surrogate = (if pairs then false else within 0xd800 0xdbff unit);
      } in
      (do
        s ← emit_string_text on s' (unit ∷ []) s.offset (s.offset + 1)
        done (record s { state = st_in_string }))

  -- `stepStringUnicode`
  unfoldable pub step_string_unicode : Tokenizer D H → ℕ → Result (ℕ × Tokenizer D H)
  unfolding take_unit hex_value
  step_string_unicode s b = elim (hex_value b) [
    | none ↦ thrown (parse_error s.offset)
    | some v ↦
        let s' = record s { uni_value = s.uni_value * 16 + v; uni_digits = s.uni_digits + 1 } in
        if ltb (s.uni_digits + 1) 4
        then done (1, s')
        else (do s ← take_unit s' (s.uni_value * 16 + v); done (1, s))
  ]
