-- ===== src/Tokenizer/Machine.antt =====
-- The construction and the setters of JsonTokenizer, its limits, and the structural states.
use oaverify.Common.{
  ℕ, Bool, true, false, not, ◌&&◌, ◌||◌, Option, none, some, List, [], ◌∷◌, ◌==◌, if◌then◌else◌,
  codes, is_digit,
}
use oaverify.Tokenizer.Bytes.{is_whitespace, is_number_byte}
use oaverify.Tokenizer.Numbers.{check_number, begin_literal}
use oaverify.Tokenizer.Strings.{ch_quote, begin_string}
use oaverify.Tokenizer.{
  Handler, tell, on_start_object, on_end_object, on_start_array, on_end_array, on_member_comma,
  State, st_value, st_value_or_end_array, st_key_or_end_object, st_key, st_colon,
  st_comma_or_end_array, st_comma_or_end_object, st_in_string, st_in_string_escape,
  st_in_string_unicode, st_in_number, st_in_literal, Context, ctx_object, ctx_array, parse_error,
  key_limit, number_limit, byte_limit, span_limit, Result, done, thrown, ◌>>=◌, TextDecoder,
  Tokenizer, reaches, limit_from, after_value,
}

-- `limitCounts`
unfoldable pub limit_counts : Bool → State → ℕ → Bool
unfolding is_whitespace
limit_counts true state b = true
limit_counts false st_colon b = is_whitespace b || b == b':'
limit_counts false st_key b = is_whitespace b
limit_counts false st_key_or_end_object b = is_whitespace b
limit_counts false st_value b = is_whitespace b
limit_counts false _ b = false

abbrev pub in_number : State → Bool
in_number st_in_number = true
in_number _ = false

-- `state >= ST_IN_STRING && state <= ST_IN_STRING_UNICODE`
abbrev pub is_in_string : State → Bool
is_in_string st_in_string = true
is_in_string st_in_string_escape = true
is_in_string st_in_string_unicode = true
is_in_string _ = false

abbrev pub in_literal : State → Bool
in_literal st_in_literal = true
in_literal _ = false

abbrev pub no_context : List Context → Bool
no_context [] = true
no_context (top ∷ stack) = false

-- `this.stack.pop()`
abbrev pub pop_context : List Context → List Context
pop_context [] = []
pop_context (top ∷ stack) = stack

-- The constructor, with the limits that `tokenByteLimit` has passed.
abbrev pub new_tokenizer :
    {H : Type 0} (D : TextDecoder) → H → Bool → Option ℕ → Option ℕ → Tokenizer D H
new_tokenizer D handler strict max_key_bytes max_number_bytes = record {
  handler = handler;
  decoder = D.fresh;
  strict_utf8 = strict;
  max_key_bytes = max_key_bytes;
  max_number_bytes = max_number_bytes;
  utf8_pending = [];
  utf8_pending_offset = 0;
  state = st_value;
  stack = [];
  saw_root_value = false;
  ended = false;
  offset = 0;
  string_is_key = false;
  string_start = 0;
  key_buf = [];
  str_code_points = 0;
  pending_high_surrogate = false;
  uni_value = 0;
  uni_digits = 0;
  token_start = 0;
  member_commas = false;
  byte_limit_at = none;
  limit_counts_all = false;
  span_limit_at = none;
  num_buf = [];
  lit_expected = [];
  lit_value = none;
  lit_pos = 0;
}

module _ {D : TextDecoder} {H : Type 0} where
  -- `dispose`; the call of `decode` resets the decoder.
  abbrev pub dispose : Tokenizer D H → Tokenizer D H
  dispose s = record s {
    ended = true;
    key_buf = [];
    num_buf = [];
    stack = [];
    utf8_pending = [];
    decoder = D.fresh;
  }

module _ {D : TextDecoder} {H : Type 0} where
  -- The body of `if (atByteLimit || atSpanLimit)`; the callbacks of the handler throw.
  abbrev pub refuse : Tokenizer D H → ℕ → Bool → Result (Tokenizer D H)
  refuse s b at_byte_limit = do
    s ← if in_number s.state && not (is_number_byte b) then check_number s else done s
    thrown (if at_byte_limit then byte_limit s.byte_limit_at else span_limit s.span_limit_at)

  -- The tests of `write` before the byte `b` is parsed.
  unfoldable pub guard : Tokenizer D H → ℕ → Result (Tokenizer D H)
  unfolding limit_counts check_number is_number_byte
  guard s b =
      let at_byte_limit =
        reaches s.offset s.byte_limit_at && limit_counts s.limit_counts_all s.state b in
      let at_span_limit = reaches s.offset s.span_limit_at in
      if at_byte_limit || at_span_limit
      then refuse s b at_byte_limit
      else if s.string_is_key
          && (is_in_string s.state && reaches s.offset (limit_from s.string_start s.max_key_bytes))
      then thrown (key_limit s.max_key_bytes s.offset s.string_start)
      else if in_number s.state
          && (reaches s.offset (limit_from s.token_start s.max_number_bytes) && is_number_byte b)
      then thrown (number_limit s.max_number_bytes s.offset s.token_start)
      else done s

  abbrev pub fail : Tokenizer D H → Result (ℕ × Tokenizer D H)
  fail s = thrown (parse_error s.offset)

  -- `this.state = state; i += 1`
  abbrev pub go : Tokenizer D H → State → Result (ℕ × Tokenizer D H)
  go s state = done (1, record s { state = state })

  -- The checks of `end` past the number in progress.
  abbrev pub settle : Tokenizer D H → Result (Tokenizer D H)
  settle s =
      if is_in_string s.state
        || in_literal s.state
        || not (no_context s.stack)
        || not s.saw_root_value
      then thrown (parse_error s.offset)
      else done s

module _ {D : TextDecoder} {H : Type 0} (on : Handler H) where
  -- `closeObject` and `closeArray`
  unfoldable pub close_object : Tokenizer D H → Result (ℕ × Tokenizer D H)
  unfolding after_value
  close_object s = do
    s ← tell on s (on_end_object s.offset)
    done (1, after_value (record s { stack = pop_context s.stack }))

  unfoldable pub close_array : Tokenizer D H → Result (ℕ × Tokenizer D H)
  unfolding after_value
  close_array s = do
    s ← tell on s (on_end_array s.offset)
    done (1, after_value (record s { stack = pop_context s.stack }))

  -- `beginValue`
  unfoldable pub begin_value : Tokenizer D H → ℕ → Result (ℕ × Tokenizer D H)
  unfolding begin_string begin_literal is_digit
  begin_value s b =
      if b == ch_quote
      then begin_string on s false
      else if b == b'{'
      then (do
        s ← tell on s (on_start_object s.offset)
        done (1, record s { stack = ctx_object ∷ s.stack; state = st_key_or_end_object }))
      else if b == b'['
      then (do
        s ← tell on s (on_start_array s.offset)
        done (1, record s { stack = ctx_array ∷ s.stack; state = st_value_or_end_array }))
      else if b == b'-' || is_digit b
      then done (0, record s { token_start = s.offset; num_buf = []; state = st_in_number })
      else if b == b't'
      then begin_literal s (codes "true") (some true)
      else if b == b'f'
      then begin_literal s (codes "false") (some false)
      else if b == b'n'
      then begin_literal s (codes "null") none
      else fail s

  -- The comma after a member.
  abbrev pub report_comma : Tokenizer D H → Result (Tokenizer D H)
  report_comma s = if s.member_commas then tell on s (on_member_comma s.offset) else done s

  -- The states between tokens, past the white space.
  unfoldable pub structural : State → Tokenizer D H → ℕ → Result (ℕ × Tokenizer D H)
  unfolding begin_value close_array close_object begin_string
  structural st_value s b = begin_value s b
  structural st_value_or_end_array s b = if b == b']' then close_array s else begin_value s b
  structural st_key_or_end_object s b =
      if b == b'}' then close_object s else if b == ch_quote then begin_string on s true else fail s
  structural st_key s b = if b == ch_quote then begin_string on s true else fail s
  structural st_colon s b = if b == b':' then go s st_value else fail s
  structural st_comma_or_end_array s b =
      if b == b',' then go s st_value else if b == b']' then close_array s else fail s
  structural st_comma_or_end_object s b =
      if b == b','
      then (do s ← report_comma s; go s st_key)
      else if b == b'}'
      then close_object s
      else fail s
  structural _ s b = fail s
