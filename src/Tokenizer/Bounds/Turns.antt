-- ===== src/Tokenizer/Bounds/Turns.antt =====
-- One turn of the loop of `write` keeps the bounds, takes no more than the chunk, and moves on.
use oaverify.Common.{
  [], ℕ, suc, ◌+◌, ◌*◌, ◌≤◌, ◌<◌, ◌≡◌, refl, Bool, true, false, ◌||◌, Option, none, some, List, ◌∷◌,
  arith, ◌==◌, if◌then◌else◌, length, Text, codes, is_digit,
}
use oaverify.Tokenizer.Bytes.{is_whitespace}
use oaverify.Tokenizer.Numbers.{begin_literal}
use oaverify.Tokenizer.Strings.{ch_quote, begin_string}
use oaverify.Tokenizer.Machine.{
  report_comma, begin_value, close_array, close_object, structural, guard,
}
use oaverify.Tokenizer.Loop.{dispatch, turn}
use oaverify.Tokenizer.Tells.{tell-Returns, tell-Returns_done}
use oaverify.Tokenizer.Outcomes.{Returns, Returns->>=, Returns-if}
use oaverify.Tokenizer.Bounds.{weight, IsValid, Moved, After}
use oaverify.Tokenizer.Bounds.Tokens.{Calm, Calm-Moved, ended-Moved}
use oaverify.Tokenizer.Bounds.Numbers.{step_number-Moved, step_literal-Moved}
use oaverify.Tokenizer.Bounds.Scans.{string_room-pos}
use oaverify.Tokenizer.Bounds.Strings.{
  scan_string_body-Moved, step_string_escape-Moved, step_string_unicode-Moved,
}
use oaverify.Tokenizer.{
  Handler, on_string_start, on_start_object, on_start_array, on_end_object, on_end_array,
  on_member_comma, st_in_string, State, st_value, st_value_or_end_array, st_key_or_end_object,
  st_key, st_colon, st_comma_or_end_array, st_comma_or_end_object, st_end, st_in_string,
  st_in_string_escape, st_in_string_unicode, st_in_number, st_in_literal, TextDecoder, Tokenizer,
  done, is_zero,
}
use oaverify.Tokenizer.Bounds.Steps.{Passed, AtMost-start, AtMost-quote, scan_end-pos, guard-Passed}

module _ {D : TextDecoder} {H : Type 0} where
  -- One turn moves on by the bytes that it takes and keeps the bounds.
  pub record Advanced (s : Tokenizer D H) (limit taken : ℕ) (s' : Tokenizer D H) : Type 0 where
    pub new_offset : s'.offset ≡ s.offset + taken
    pub in_chunk : taken ≤ limit
    pub paid : weight s'.state < weight s.state + 3 * taken
    pub valid : IsValid s'

module _ {D : TextDecoder} {H : Type 0} (on : Handler H) where
  begin_string-Moved :
      (s : Tokenizer D H) (is_key : Bool) (limit : ℕ)
      → 0 < limit
      → Returns (After s limit) (begin_string on s is_key)
  unfolding begin_string
  begin_string-Moved s true limit some_room =
      Returns-if (After s limit) (is_zero s.max_key_bytes) _ _ (λ h. λ k. cc)
        (λ h. record {
          same_offset = refl;
          in_chunk = some_room;
          paid = omega arith;
          valid = λ key. (omega arith, AtMost-quote s.offset s.max_key_bytes h);
        })
  begin_string-Moved s false limit some_room =
      tell-Returns on
        (record s {
          string_is_key = false;
          string_start = s.offset;
          str_code_points = 0;
          pending_high_surrogate = false;
          key_buf = [];
          state = st_in_string;
        })
        (on_string_start s.offset) (After s limit) _
        (λ byte all span commas. record {
          same_offset = refl;
          in_chunk = some_room;
          paid = omega arith;
          valid = λ key. cc;
        })

  begin_value-Moved :
      (s : Tokenizer D H) (b limit : ℕ)
      → 0 < limit
      → weight s.state ≡ 2
      → Returns (After s limit) (begin_value on s b)
  unfolding begin_value
  begin_value-Moved s b limit some_room heavy =
      let P = After s limit in
      let word : (w : Text) (v : Option Bool) → 0 < length w → Returns P (begin_literal s w v) =
        λ w v h. record {
          same_offset = refl;
          in_chunk = omega arith;
          paid = rw heavy (omega arith);
          valid = h;
        } in
      Returns-if P (b == ch_quote) _ _ (λ h. begin_string-Moved s false limit some_room)
        (λ h.
          Returns-if P (b == b'{') _ _
            (λ h.
              tell-Returns on s (on_start_object s.offset) P _
                (λ byte all span commas. Calm-Moved refl some_room (omega arith) tt))
            (λ h.
              Returns-if P (b == b'[') _ _
                (λ h.
                  tell-Returns on s (on_start_array s.offset) P _
                    (λ byte all span commas. Calm-Moved refl some_room (omega arith) tt))
                (λ h.
                  Returns-if P (b == b'-' || is_digit b) _ _
                    (λ h. record {
                      same_offset = refl;
                      in_chunk = omega arith;
                      paid = rw heavy (omega arith);
                      valid = (refl, AtMost-start s.offset s.max_number_bytes);
                    })
                    (λ h.
                      Returns-if P (b == b't') _ _
                        (λ h. word (codes "true") (some true) (omega arith))
                        (λ h.
                          Returns-if P (b == b'f') _ _
                            (λ h. word (codes "false") (some false) (omega arith))
                            (λ h.
                              Returns-if P (b == b'n') _ _
                                (λ h. word (codes "null") none (omega arith)) (λ h. λ k. cc)))))))

  structural-Moved :
      (state : State) (s : Tokenizer D H) (b limit : ℕ)
      → s.state ≡ state
      → 0 < limit
      → Returns (After s limit) (structural on state s b)
  unfolding structural close_array close_object
  structural-Moved st_value s b limit here some_room =
      begin_value-Moved s b limit some_room (rw here refl)
  structural-Moved st_value_or_end_array s b limit here some_room =
      Returns-if (After s limit) (b == b']') _ _
        (λ h.
          tell-Returns on s (on_end_array s.offset) (After s limit) _
            (λ byte all span commas. ended-Moved refl some_room (omega arith) refl))
        (λ h. begin_value-Moved s b limit some_room (rw here refl))
  structural-Moved st_key_or_end_object s b limit here some_room =
      Returns-if (After s limit) (b == b'}') _ _
        (λ h.
          tell-Returns on s (on_end_object s.offset) (After s limit) _
            (λ byte all span commas. ended-Moved refl some_room (omega arith) refl))
        (λ h.
          Returns-if (After s limit) (b == ch_quote) _ _
            (λ h. begin_string-Moved s true limit some_room) (λ h. λ k. cc))
  structural-Moved st_key s b limit here some_room =
      Returns-if (After s limit) (b == ch_quote) _ _
        (λ h. begin_string-Moved s true limit some_room) (λ h. λ k. cc)
  structural-Moved st_colon s b limit here some_room =
      Returns-if (After s limit) (b == b':') _ _ (λ h. Calm-Moved refl some_room (omega arith) tt)
        (λ h. λ k. cc)
  structural-Moved st_comma_or_end_array s b limit here some_room =
      Returns-if (After s limit) (b == b',') _ _ (λ h. Calm-Moved refl some_room (omega arith) tt)
        (λ h.
          Returns-if (After s limit) (b == b']') _ _
            (λ h.
              tell-Returns on s (on_end_array s.offset) (After s limit) _
                (λ byte all span commas. ended-Moved refl some_room (omega arith) refl))
            (λ h. λ k. cc))
  structural-Moved st_comma_or_end_object s b limit here some_room =
      Returns-if (After s limit) (b == b',') _ _
        (λ h.
          let P = λ (a : Tokenizer D H). Moved s limit 1 (record a { state = st_key }) in
          Returns->>= P (After s limit) (report_comma on s) _
            (Returns-if P s.member_commas _ _
              (λ e.
                tell-Returns_done on s (on_member_comma s.offset) P
                  (λ byte all span commas. Calm-Moved refl some_room (omega arith) tt))
              (λ e. Calm-Moved refl some_room (omega arith) tt))
            (λ a moved. moved))
        (λ h.
          Returns-if (After s limit) (b == b'}') _ _
            (λ h.
              tell-Returns on s (on_end_object s.offset) (After s limit) _
                (λ byte all span commas. ended-Moved refl some_room (omega arith) refl))
            (λ h. λ k. cc))
  structural-Moved st_end s b limit here some_room = λ k. cc
  structural-Moved st_in_string s b limit here some_room = λ k. cc
  structural-Moved st_in_string_escape s b limit here some_room = λ k. cc
  structural-Moved st_in_string_unicode s b limit here some_room = λ k. cc
  structural-Moved st_in_number s b limit here some_room = λ k. cc
  structural-Moved st_in_literal s b limit here some_room = λ k. cc

  structural_or_space-Moved :
      (state : State) (s : Tokenizer D H) (b limit : ℕ)
      → s.state ≡ state
      → Calm state
      → 0 < limit
      → Returns (After s limit) (if is_whitespace b then done (1, s) else structural on state s b)
  structural_or_space-Moved state s b limit here calm some_room =
      Returns-if (After s limit) (is_whitespace b) _ _
        (λ h. Calm-Moved refl some_room (omega arith) (rw here calm))
        (λ h. structural-Moved state s b limit here some_room)

  dispatch-Moved :
      (state : State) (s : Tokenizer D H) (b : ℕ) (chunk : List ℕ)
      → s.state ≡ state
      → IsValid s
      → Passed s b
      → Returns (After s (suc (length chunk))) (dispatch on state s b chunk)
  unfolding dispatch
  dispatch-Moved st_value s b chunk here valid passed =
      structural_or_space-Moved st_value s b _ here tt (omega arith)
  dispatch-Moved st_value_or_end_array s b chunk here valid passed =
      structural_or_space-Moved st_value_or_end_array s b _ here tt (omega arith)
  dispatch-Moved st_key_or_end_object s b chunk here valid passed =
      structural_or_space-Moved st_key_or_end_object s b _ here tt (omega arith)
  dispatch-Moved st_key s b chunk here valid passed =
      structural_or_space-Moved st_key s b _ here tt (omega arith)
  dispatch-Moved st_colon s b chunk here valid passed =
      structural_or_space-Moved st_colon s b _ here tt (omega arith)
  dispatch-Moved st_comma_or_end_array s b chunk here valid passed =
      structural_or_space-Moved st_comma_or_end_array s b _ here tt (omega arith)
  dispatch-Moved st_comma_or_end_object s b chunk here valid passed =
      structural_or_space-Moved st_comma_or_end_object s b _ here tt (omega arith)
  dispatch-Moved st_end s b chunk here valid passed =
      structural_or_space-Moved st_end s b _ here tt (omega arith)
  dispatch-Moved st_in_string s b chunk here valid passed =
      scan_string_body-Moved on s (b ∷ chunk) here (rw here at valid) (
        string_room-pos s (b ∷ chunk) (scan_end-pos s b chunk passed) (rw here at passed.key_limit))
  dispatch-Moved st_in_string_escape s b chunk here valid passed =
      step_string_escape-Moved on s b _ here valid (omega arith) (rw here at passed.key_limit)
  dispatch-Moved st_in_string_unicode s b chunk here valid passed =
      step_string_unicode-Moved on s b _ here valid (omega arith) (rw here at passed.key_limit)
  dispatch-Moved st_in_number s b chunk here valid passed =
      step_number-Moved on s b chunk here valid (scan_end-pos s b chunk passed)
        (rw here at passed.number_limit)
  dispatch-Moved st_in_literal s b chunk here valid passed =
      step_literal-Moved on s b _ here valid (omega arith)

  pub turn-Advanced :
      (s : Tokenizer D H) (b : ℕ) (chunk : List ℕ)
      → IsValid s
      → Returns (λ p. Advanced s (suc (length chunk)) p.0 p.1) (turn on s b chunk)
  unfolding turn
  turn-Advanced s b chunk valid =
      Returns->>= (λ s'. (s' ≡ s) × Passed s b) (λ p. Advanced s (suc (length chunk)) p.0 p.1)
        (guard s b) _ (guard-Passed s b)
        (λ s₁ (same, passed). rw same (
          Returns->>= (After s (suc (length chunk))) (λ p. Advanced s (suc (length chunk)) p.0 p.1)
            (dispatch on s.state s b chunk) _ (dispatch-Moved s.state s b chunk refl valid passed)
            (λ (taken, s') moved. record {
              new_offset = rw moved.same_offset refl;
              in_chunk = moved.in_chunk;
              paid = moved.paid;
              valid = rw moved.same_offset moved.valid;
            })))
