-- ===== src/Tokenizer/Bounds/Strings.antt =====
-- Runs, ends and escapes of strings keep the bounds.
use oaverify.Common.{
  ℕ, ◌+◌, ◌≤◌, ◌<◌, ◌≡◌, refl, ◌∙◌, ap, false, ◌&&◌, List, [], ◌∷◌, ◌*◌, within, arith, ltb, ◌==◌,
  if◌then◌else◌, length, take, Bool-cases, Option-cases, inl, inr,
}
use oaverify.Common.Percent.{hex_value}
use oaverify.Tokenizer.Strings.{
  literal_run, take_run, emit_string_text, ch_quote, flush_held_partial, close_run, report_string,
  string_room, scan_string_body, is_control, stop_at, escape_text,
}
use oaverify.Tokenizer.Escapes.{take_unit, step_string_escape, step_string_unicode}
use oaverify.Tokenizer.Tells.{tell-Returns}
use oaverify.Tokenizer.Outcomes.{Returns, Returns->>=, Returns-if, Returns-weaken}
use oaverify.Tokenizer.Bounds.{literal_run_bounds, KeyFits, IsValid, Moved, After}
use oaverify.Tokenizer.Bounds.Tokens.{Calm-Moved, ended-Moved}
use oaverify.Tokenizer.{
  Handler, on_key, on_string_end, st_in_string, st_in_string_escape, st_in_string_unicode,
  TextDecoder, Tokenizer, limit_from, reaches, done,
}
use oaverify.Tokenizer.Bounds.Scans.{
  stop_at-lt, stop_at-none, next-AtMost, hex_value-lt, nibble-lt, string_room-le,
  string_room-KeyFits, Kept, take_run-Kept, emit_string_text-Kept, flush_held_partial-Kept,
}

module _ {D : TextDecoder} {H : Type 0} (on : Handler H) where
  KeyFits-Kept :
      (s₀ s : Tokenizer D H) (n : ℕ)
      → Kept s₀ s
      → KeyFits (record s₀ { offset = n })
      → KeyFits (record s { offset = n })
  KeyFits-Kept s₀ s n kept h =
      let key : s.string_is_key ≡ s₀.string_is_key = ap (λ p. p.3) kept in
      let start : s.string_start ≡ s₀.string_start = ap (λ p. p.4) kept in
      let limit : s.max_key_bytes ≡ s₀.max_key_bytes = ap (λ p. p.5) kept in
      rw (key, start, limit) h

  pub report_string-Moved :
      (s₀ s : Tokenizer D H) (limit taken end : ℕ)
      → Kept s₀ s
      → s₀.state ≡ st_in_string
      → taken ≤ limit
      → 0 < taken
      → Returns (Moved s₀ limit taken) (report_string on s end)
  unfolding report_string
  report_string-Moved s₀ s limit taken end kept here fits some_taken =
      elim (Bool-cases s.string_is_key) [
        | inl e ↦
            rw (e, report_string)
              (tell-Returns on s (on_key s.key_buf s.str_code_points s.string_start end)
                (Moved s₀ limit taken) _
                (λ byte all span commas. Calm-Moved (ap (λ p. p.0) kept) fits (omega arith) tt))
        | inr e ↦
            rw (e, report_string)
              (tell-Returns on s (on_string_end s.str_code_points s.string_start end)
                (Moved s₀ limit taken) _
                (λ byte all span commas. ended-Moved (ap (λ p. p.0) kept) fits (omega arith) refl))
      ]

  pub close_run-Moved :
      (s₀ s : Tokenizer D H) (limit i b : ℕ)
      → Kept s₀ s
      → s₀.state ≡ st_in_string
      → i + 1 ≤ limit
      → KeyFits (record s₀ { offset = s₀.offset + (i + 1) })
      → Returns (After s₀ limit) (close_run on s i b)
  unfolding close_run
  close_run-Moved s₀ s limit i b kept here fits key =
      let flushed : Returns (Kept s₀)
          (if i == 0 then flush_held_partial on s s.offset else done s) =
        elim (Bool-cases (i == 0)) [
          | inl e ↦ rw e (
              Returns-weaken (Kept s) (Kept s₀) (flush_held_partial on s s.offset) (λ a h. h ∙ kept)
                (flush_held_partial-Kept on s s.offset))
          | inr e ↦ rw e kept
        ] in
      Returns->>= (Kept s₀) (After s₀ limit)
        (if i == 0 then flush_held_partial on s s.offset else done s) _ flushed
        (λ a h.
          Returns->>= (Moved s₀ limit (i + 1)) (After s₀ limit)
            (if b == ch_quote
              then report_string on a (a.offset + i + 1)
              else done (record a { state = st_in_string_escape }))
            _
            (Returns-if (Moved s₀ limit (i + 1)) (b == ch_quote) _ _
              (λ e.
                report_string-Moved s₀ a limit (i + 1) (a.offset + i + 1) h here fits (omega arith))
              (λ e. record {
                same_offset = ap (λ p. p.0) h;
                in_chunk = fits;
                paid = rw here (omega arith);
                valid = KeyFits-Kept s₀ a (s₀.offset + (i + 1)) h key;
              }))
            (λ a' moved. moved))

  pub scan_string_body-Moved :
      (s : Tokenizer D H) (chunk : List ℕ)
      → s.state ≡ st_in_string
      → KeyFits s
      → 0 < string_room s chunk
      → Returns (After s (length chunk)) (scan_string_body on s chunk)
  unfolding scan_string_body
  scan_string_body-Moved s chunk here key some_room =
      let n = string_room s chunk in
      let i = literal_run n chunk in
      let stop = stop_at n i chunk in
      let (in_room, in_chunk) = literal_run_bounds n chunk in
      let taken : Returns (Kept s)
          (if i == 0 then done s else take_run on s (take i chunk) (i == n)) =
        elim (Bool-cases (i == 0)) [
          | inl e ↦ rw e refl
          | inr e ↦ rw e (take_run-Kept on s (take i chunk) (i == n))
        ] in
      elim (Bool-cases (is_control stop)) [
        | inl e ↦ rw e (λ h. cc)
        | inr e ↦ rw e (
            Returns->>= (Kept s) (After s (length chunk))
              (if i == 0 then done s else take_run on s (take i chunk) (i == n)) _ taken
              (λ a h. elim (Option-cases stop) [
                | inl none_left ↦
                    let still : a.state ≡ st_in_string = ap (λ p. p.1) h ∙ here in
                    let all_read : n ≤ i =
                      stop_at-none n i chunk (string_room-le s chunk) none_left in
                    rw none_left (record {
                      same_offset = ap (λ p. p.0) h;
                      in_chunk = in_chunk;
                      paid = rw (still, here) (omega arith);
                      valid = rw still (
                          KeyFits-Kept s a (s.offset + i) h
                            (string_room-KeyFits s chunk i key in_room));
                    })
                | inr (b, found) ↦ rw found (
                    close_run-Moved s a (length chunk) i b h here
                      (omega (arith, stop_at-lt n i chunk b found, string_room-le s chunk))
                      (string_room-KeyFits s chunk (i + 1) key
                        (omega (arith, stop_at-lt n i chunk b found))))
              ]))
      ]

  KeyFits-next :
      (s : Tokenizer D H)
      → KeyFits s
      → (s.string_is_key && reaches s.offset (limit_from s.string_start s.max_key_bytes)) ≡ false
      → KeyFits (record s { offset = s.offset + 1 })
  KeyFits-next s key in_limit is_key =
      let (begun, most) = key is_key in
      (
        omega arith,
        next-AtMost s.offset (limit_from s.string_start s.max_key_bytes) (rw is_key at in_limit),
      )

  pub step_string_escape-Moved :
      (s : Tokenizer D H) (b limit : ℕ)
      → s.state ≡ st_in_string_escape
      → IsValid s
      → 0 < limit
      → (s.string_is_key && reaches s.offset (limit_from s.string_start s.max_key_bytes)) ≡ false
      → Returns (After s limit) (step_string_escape on s b)
  unfolding step_string_escape
  step_string_escape-Moved s b limit here valid some_room in_limit =
      let key : KeyFits s = rw here at valid in
      let next = KeyFits-next s key in_limit in
      elim (Bool-cases (b == b'u')) [
        | inl e ↦ rw e (record {
          same_offset = refl;
          in_chunk = some_room;
          paid = rw here (omega arith);
          valid = (next, omega arith, omega arith);
        })
        | inr e ↦ elim (Option-cases (escape_text b)) [
          | inl unknown ↦ rw (e, unknown, Returns) (λ h. cc)
          | inr (ch, known) ↦
              let counted = record s {
                str_code_points = s.str_code_points + 1;
                pending_high_surrogate = false;
              } in
              rw (e, known)
                (Returns->>= (Kept s) (After s limit)
                  (emit_string_text on counted (ch ∷ []) s.offset (s.offset + 1)) _
                  (emit_string_text-Kept on counted (ch ∷ []) s.offset (s.offset + 1))
                  (λ a h. record {
                    same_offset = ap (λ p. p.0) h;
                    in_chunk = some_room;
                    paid = rw here (omega arith);
                    valid = KeyFits-Kept s a (s.offset + 1) h next;
                  }))
        ]
      ]

  take_unit-Moved :
      (s₀ s : Tokenizer D H) (limit unit : ℕ)
      → Kept s₀ s
      → s₀.state ≡ st_in_string_unicode
      → 0 < limit
      → KeyFits (record s₀ { offset = s₀.offset + 1 })
      → Returns (Moved s₀ limit 1) (take_unit on s unit)
  unfolding take_unit
  take_unit-Moved s₀ s limit unit kept here some_room key =
      let pairs = s.pending_high_surrogate && within 0xdc00 0xdfff unit in
      let counted = record s {
        str_code_points = (if pairs then s.str_code_points else s.str_code_points + 1);
        pending_high_surrogate = (if pairs then false else within 0xd800 0xdbff unit);
      } in
      Returns->>= (Kept s₀) (Moved s₀ limit 1)
        (emit_string_text on counted (unit ∷ []) s.offset (s.offset + 1)) _
        (Returns-weaken (Kept s) (Kept s₀)
          (emit_string_text on counted (unit ∷ []) s.offset (s.offset + 1)) (λ a h. h ∙ kept)
          (emit_string_text-Kept on counted (unit ∷ []) s.offset (s.offset + 1)))
        (λ a h. record {
          same_offset = ap (λ p. p.0) h;
          in_chunk = some_room;
          paid = rw here (omega arith);
          valid = KeyFits-Kept s₀ a (s₀.offset + 1) h key;
        })

  pub step_string_unicode-Moved :
      (s : Tokenizer D H) (b limit : ℕ)
      → s.state ≡ st_in_string_unicode
      → IsValid s
      → 0 < limit
      → (s.string_is_key && reaches s.offset (limit_from s.string_start s.max_key_bytes)) ≡ false
      → Returns (After s limit) (step_string_unicode on s b)
  unfolding step_string_unicode
  step_string_unicode-Moved s b limit here valid some_room in_limit =
      let (key, digits, value) = rw here at valid in
      let next = KeyFits-next s key in_limit in
      elim (Option-cases (hex_value b)) [
        | inl unknown ↦ rw (unknown, Returns) (λ h. cc)
        | inr (v, known) ↦ elim (Bool-cases (ltb (s.uni_digits + 1) 4)) [
          | inl more ↦
              rw (known, more, Returns)
                (record {
                  same_offset = refl;
                  in_chunk = some_room;
                  paid = omega arith;
                  valid = rw here (
                    next,
                    ground arith,
                    nibble-lt s.uni_value v s.uni_digits value (hex_value-lt b v known),
                  );
                })
          | inr last ↦
              rw (known, last, step_string_unicode)
                (Returns->>= (Moved s limit 1) (After s limit)
                  (take_unit on
                    (record s { uni_value = s.uni_value * 16 + v; uni_digits = s.uni_digits + 1 })
                    (s.uni_value * 16 + v))
                  _
                  (take_unit-Moved s
                    (record s { uni_value = s.uni_value * 16 + v; uni_digits = s.uni_digits + 1 })
                    limit (s.uni_value * 16 + v) refl here some_room next)
                  (λ a h. h))
        ]
      ]
