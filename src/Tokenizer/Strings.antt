-- ===== src/Tokenizer/Strings.antt =====
-- Strings of the tokenizer: literal runs, which are decoded, and escapes.
pub mod CodePoints
use oaverify.Common.{
  ℕ, suc, ◌+◌, ◌-◌, Bool, true, false, not, ◌&&◌, ◌||◌, Option, none, some, List, [], ◌∷◌, ◌++◌,
  ◌==◌, ltb, leb, within, min, if◌then◌else◌, Text, length, take, get_elem?, any,
}
use oaverify.Tokenizer.Bytes.{first_ill_formed_utf8, held_utf8_prefix, utf8_tail}
use oaverify.Tokenizer.{
  Handler, tell, Event, on_key, on_string_start, on_string_chunk, on_string_end, st_colon,
  st_in_string, st_in_string_escape, parse_error, key_limit, decoding_error, Result, done, thrown,
  ◌>>=◌, TextDecoder, Tokenizer, is_zero, scan_end, after_value,
}

abbrev pub ch_quote : ℕ
ch_quote = 0x22

abbrev pub ch_backslash : ℕ
ch_backslash = 0x5c

-- `countCodePoints`: a surrogate pair is one.
unfoldable pub count_code_points : Text → ℕ
count_code_points [] = 0
count_code_points (c ∷ []) = 1
count_code_points (c ∷ d ∷ s) =
    let pair = count_code_points s in
    let one = count_code_points (d ∷ s) in
    suc (if within 0xd800 0xdbff c && within 0xdc00 0xdfff d then pair else one)

-- A byte that stands for itself in a string.
unfoldable pub is_literal : ℕ → Bool
is_literal b = not (b == ch_quote || b == ch_backslash || ltb b 0x20)

-- The literal bytes at the head, at most so many.
unfoldable pub literal_run : ℕ → List ℕ → ℕ
unfolding is_literal
literal_run (suc n) (b ∷ s) = let more = literal_run n s in if is_literal b then suc more else 0
literal_run _ _ = 0

-- `nonAscii`
abbrev pub non_ascii : List ℕ → Bool
non_ascii run = any (leb 0x80) run

-- What a run adds to the code points: its length where it is ASCII and none is held.
unfoldable pub points_of : List ℕ → Text → ℕ
unfolding count_code_points
points_of run text =
    if not (non_ascii run) && length text == length run then length text else count_code_points text

-- The text of an escape of two characters.
unfoldable pub escape_text : ℕ → Option ℕ
escape_text b =
    if b == ch_quote
    then some 0x22
    else if b == ch_backslash
    then some 0x5c
    else if b == b'/'
    then some 0x2f
    else if b == b'b'
    then some 8
    else if b == b'f'
    then some 12
    else if b == b'n'
    then some 10
    else if b == b'r'
    then some 13
    else if b == b't'
    then some 9
    else none

-- The offset that `decodeRunStrict` reports.
unfoldable pub malformed_at : List ℕ → ℕ → ℕ → List ℕ → ℕ
unfolding first_ill_formed_utf8
malformed_at [] held_offset start bytes = start + first_ill_formed_utf8 bytes
malformed_at (h ∷ held) held_offset start bytes =
    held_offset + first_ill_formed_utf8 (h ∷ held ++ bytes)

abbrev pub is_control : Option ℕ → Bool
is_control none = false
is_control (some b) = ltb b 0x20

-- The byte that stopped a scan before its end.
abbrev pub stop_at : ℕ → ℕ → List ℕ → Option ℕ
stop_at n i chunk = if ltb i n then get_elem? chunk i else none

-- Where the scan of a key stops: a batch keeps the decoded texts small.
abbrev pub key_room : Option ℕ → ℕ → ℕ → ℕ → ℕ
key_room none end start offset = end
key_room (some limit) end start offset = min (min end (start + limit - offset)) 16384

module _ {D : TextDecoder} {H : Type 0} where
  -- `holdUtf8Tail`
  unfoldable pub hold_utf8_tail : Tokenizer D H → List ℕ → ℕ → Tokenizer D H
  unfolding utf8_tail
  hold_utf8_tail s bytes end =
      let tail = utf8_tail (s.utf8_pending ++ bytes) in
      record s {
        utf8_pending = tail;
        utf8_pending_offset =
            (if leb (length tail) 0 then s.utf8_pending_offset else end - length tail);
      }

  -- `decodeRunStrict`, and the call of `decode` without it.
  unfoldable pub decode_run : Tokenizer D H → List ℕ → Bool → Result (Text × Tokenizer D H)
  unfolding hold_utf8_tail malformed_at
  decode_run s bytes at_end = elim (D.decode s.strict_utf8 s.decoder bytes at_end) [
    | none ↦ thrown (
        if s.strict_utf8
        then parse_error (malformed_at s.utf8_pending s.utf8_pending_offset s.offset bytes)
        else decoding_error)
    | some (text, held) ↦
        let s' = record s { decoder = held } in
        done (
          text,
          if s.strict_utf8
              then (if at_end
                  then hold_utf8_tail s' bytes (s.offset + length bytes)
                  else record s' { utf8_pending = [] })
              else s',
        )
  ]

  -- `flushStrict`, and the call of `decode` without it.
  unfoldable pub flush : Tokenizer D H → Result (Text × Tokenizer D H)
  flush s = elim (D.decode s.strict_utf8 s.decoder [] false) [
    | none ↦ thrown (if s.strict_utf8 then parse_error s.utf8_pending_offset else decoding_error)
    | some (text, held) ↦ done (
      text,
      record s { decoder = held; utf8_pending = (if s.strict_utf8 then [] else s.utf8_pending) },
    )
  ]

  -- `n` of `scanStringBody`, counted from its start.
  unfoldable pub string_room : Tokenizer D H → List ℕ → ℕ
  unfolding scan_end
  string_room s chunk =
      key_room (if s.string_is_key then s.max_key_bytes else none) (scan_end s chunk) s.string_start
        s.offset

module _ {D : TextDecoder} {H : Type 0} (on : Handler H) where
  -- `emitStringText`
  unfoldable pub emit_string_text : Tokenizer D H → Text → ℕ → ℕ → Result (Tokenizer D H)
  emit_string_text s text offset end =
      if s.string_is_key
      then done (record s { key_buf = s.key_buf ++ text })
      else tell on s (on_string_chunk text offset s.str_code_points end)

  -- The body of `if (i > start)`: a run is decoded, counted and emitted.
  unfoldable pub take_run : Tokenizer D H → List ℕ → Bool → Result (Tokenizer D H)
  unfolding decode_run points_of emit_string_text held_utf8_prefix
  take_run s run at_end = do
    (text, s) ← decode_run (record s { pending_high_surrogate = false }) run at_end
    let s = record s { str_code_points = s.str_code_points + points_of run text } in
        if leb (length text) 0
        then done s
        else emit_string_text s text s.offset
            (s.offset + length run - (if at_end then held_utf8_prefix run else 0))

  -- `flushHeldPartial`
  unfoldable pub flush_held_partial : Tokenizer D H → ℕ → Result (Tokenizer D H)
  unfolding flush count_code_points emit_string_text
  flush_held_partial s offset = do
    (tail, s) ← flush s
    if leb (length tail) 0
        then done s
        else emit_string_text
            (record s {
              str_code_points = s.str_code_points + count_code_points tail;
              pending_high_surrogate = false;
            })
            tail offset offset

  -- `beginString`
  unfoldable pub begin_string : Tokenizer D H → Bool → Result (ℕ × Tokenizer D H)
  begin_string s is_key =
      if is_key && is_zero s.max_key_bytes
      then thrown (key_limit s.max_key_bytes s.offset s.offset)
      else (let s' = record s {
        string_is_key = is_key;
        string_start = s.offset;
        str_code_points = 0;
        pending_high_surrogate = false;
        key_buf = [];
        state = st_in_string;
      } in
          (do s ← (if is_key then done s' else tell on s' (on_string_start s.offset)); done (1, s)))

  -- The end of `finishString`, past the flush; `end` is the offset past the closing quote.
  unfoldable pub report_string : Tokenizer D H → ℕ → Result (Tokenizer D H)
  unfolding after_value
  report_string s end = elim s.string_is_key [
    | true ↦ (do
      s ← tell on s (on_key s.key_buf s.str_code_points s.string_start end)
      done (record s { key_buf = []; state = st_colon }))
    | false ↦ (do
      s ← tell on s (on_string_end s.str_code_points s.string_start end)
      done (after_value s))
  ]

  -- The quote or backslash that ends a run of `i` bytes. A run that is not empty is flushed already.
  unfoldable pub close_run : Tokenizer D H → ℕ → ℕ → Result (ℕ × Tokenizer D H)
  unfolding flush_held_partial report_string
  close_run s i b = do
    s ← (if i == 0 then flush_held_partial s s.offset else done s)
    s ←
        (if b == ch_quote
          then report_string s (s.offset + i + 1)
          else done (record s { state = st_in_string_escape }))
    done (i + 1, s)

  -- `scanStringBody`
  unfoldable pub scan_string_body : Tokenizer D H → List ℕ → Result (ℕ × Tokenizer D H)
  unfolding string_room literal_run take_run close_run
  scan_string_body s chunk =
      let n = string_room s chunk in
      let i = literal_run n chunk in
      let stop = stop_at n i chunk in
      if is_control stop then thrown (parse_error (s.offset + i)) else (do
        s ← (if i == 0 then done s else take_run s (take i chunk) (i == n))
        elim stop [ none ↦ done (i, s) | some b ↦ close_run s i b ])
