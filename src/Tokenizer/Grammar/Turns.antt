-- ===== src/Tokenizer/Grammar/Turns.antt =====
-- Each turn of the loop of `write` reports events that fit what is read.
use oaverify.Common.{ℕ, ◌≡◌, refl, sym, List, [], ◌∷◌, ◌++◌, append-nil, if◌then◌else◌, ◌==◌}
use oaverify.Tokenizer.Bytes.{is_whitespace}
use oaverify.Tokenizer.Strings.{ch_quote}
use oaverify.Tokenizer.Machine.{
  close_array, close_object, structural, guard, go, report_comma, pop_context,
}
use oaverify.Tokenizer.Loop.{dispatch, turn}
use oaverify.Tokenizer.Tells.{told, tell-Yields, tell-Yields_done}
use oaverify.Tokenizer.Outcomes.{Yields, Yields->>=, Yields-if, Returns-Yields}
use oaverify.Tokenizer.Bounds.Steps.{Passed, guard-Passed}
use oaverify.Tokenizer.Grammar.{in_array, no_comma, comma, deliver}
use oaverify.Tokenizer.Grammar.Settled.{close_array-Settled, close_object-Settled}
use oaverify.Tokenizer.Grammar.Said.{InArray, InObject, Heard-next, Unseen, Said, after_value-Said}
use oaverify.Tokenizer.Grammar.Strings.{
  SaidAfter, scan_string_body-Said, step_string_escape-Said, step_string_unicode-Said,
}
use oaverify.Tokenizer.{
  Handler, ◌>>=◌, Event, on_end_object, on_end_array, on_member_comma, State, st_value,
  st_value_or_end_array, st_key_or_end_object, st_key, st_colon, st_comma_or_end_array,
  st_comma_or_end_object, st_end, st_in_string, st_in_string_escape, st_in_string_unicode,
  st_in_number, st_in_literal, TextDecoder, Tokenizer, done,
}
use oaverify.Tokenizer.Grammar.Steps.{
  Expects, step_number-Said, step_literal-Said, begin_key-Said, begin_value-Said,
}

module _ {D : TextDecoder} {H : Type 0} (on : Handler H) (h₀ : H) where
  close_array-Said :
      (s : Tokenizer D H) (es : List Event)
      → s.handler ≡ deliver on.hears h₀ es
      → InArray s.stack es
      → Unseen s.saw_root_value s.ended
      → Yields (SaidAfter on h₀) (close_array on s)
  unfolding close_array
  close_array-Said s es heard (c, top, opened) unseen =
      let event = on_end_array s.offset in
      tell-Yields on s event (SaidAfter on h₀) _ (λ byte all span commas.
        after_value-Said on.hears h₀
          (record (told on s event byte all span commas) { stack = pop_context s.stack })
          (es ++ event ∷ []) (Heard-next on.hears h₀ s.handler es event heard)
          (rw top (close_array-Settled c es s.offset opened)) unseen)

  close_object-Said :
      (s : Tokenizer D H) (es : List Event)
      → s.handler ≡ deliver on.hears h₀ es
      → InObject s.stack es
      → Unseen s.saw_root_value s.ended
      → Yields (SaidAfter on h₀) (close_object on s)
  unfolding close_object
  close_object-Said s es heard (c, top, opened) unseen =
      let event = on_end_object s.offset in
      tell-Yields on s event (SaidAfter on h₀) _ (λ byte all span commas.
        after_value-Said on.hears h₀
          (record (told on s event byte all span commas) { stack = pop_context s.stack })
          (es ++ event ∷ []) (Heard-next on.hears h₀ s.handler es event heard)
          (rw top (close_object-Settled c es s.offset opened)) unseen)

  -- The comma after a member, which is reported where this is asked for.
  next_key-Said :
      (s : Tokenizer D H) (es : List Event)
      → s.handler ≡ deliver on.hears h₀ es
      → InObject s.stack es
      → Unseen s.saw_root_value s.ended
      → Yields (SaidAfter on h₀) (do s ← report_comma on s; go s st_key)
  next_key-Said s es heard inside unseen =
      let P = λ (a : Tokenizer D H). Said on.hears h₀ (record a { state = st_key }) in
      Yields->>= P (SaidAfter on h₀) (report_comma on s) _
        (Yields-if P s.member_commas _ _
          (λ e. tell-Yields_done on s (on_member_comma s.offset) P (λ byte all span commas. (
            es ++ on_member_comma s.offset ∷ [],
            Heard-next on.hears h₀ s.handler es (on_member_comma s.offset) heard,
            (es, on_member_comma s.offset ∷ [], inside, comma s.offset, refl),
            unseen,
          )))
          (λ e. (es, heard, (es, [], inside, no_comma, sym (append-nil es)), unseen)))
        (λ a said. said)

  InArray-Expects :
      (s : Tokenizer D H) (es : List Event)
      → s.handler ≡ deliver on.hears h₀ es
      → InArray s.stack es
      → Unseen s.saw_root_value s.ended
      → Expects on h₀ s
  InArray-Expects s es heard (c, top, opened) unseen = (es, heard, rw top (in_array opened), unseen)

  structural-Said :
      (state : State) (s : Tokenizer D H) (b : ℕ)
      → s.state ≡ state
      → Said on.hears h₀ s
      → Yields (SaidAfter on h₀) (structural on state s b)
  unfolding structural
  structural-Said st_value s b here (es, heard, speaks, unseen) =
      begin_value-Said on h₀ s b (es, heard, rw here at speaks, rw here at unseen)
  structural-Said st_value_or_end_array s b here (es, heard, speaks, unseen) =
      let inside : InArray s.stack es = rw here at speaks in
      let fresh : Unseen s.saw_root_value s.ended = rw here at unseen in
      Yields-if (SaidAfter on h₀) (b == b']') _ _ (λ h. close_array-Said s es heard inside fresh)
        (λ h. begin_value-Said on h₀ s b (InArray-Expects s es heard inside fresh))
  structural-Said st_key_or_end_object s b here (es, heard, speaks, unseen) =
      let inside : InObject s.stack es = rw here at speaks in
      let fresh : Unseen s.saw_root_value s.ended = rw here at unseen in
      Yields-if (SaidAfter on h₀) (b == b'}') _ _ (λ h. close_object-Said s es heard inside fresh)
        (λ h.
          Yields-if (SaidAfter on h₀) (b == ch_quote) _ _
            (λ h.
              begin_key-Said on h₀ s es heard (es, [], inside, no_comma, sym (append-nil es)) fresh)
            (λ h. tt))
  structural-Said st_key s b here (es, heard, speaks, unseen) =
      Yields-if (SaidAfter on h₀) (b == ch_quote) _ _
        (λ h. begin_key-Said on h₀ s es heard (rw here at speaks) (rw here at unseen)) (λ h. tt)
  structural-Said st_colon s b here (es, heard, speaks, unseen) =
      Yields-if (SaidAfter on h₀) (b == b':') _ _
        (λ h. (es, heard, rw here at speaks, rw here at unseen)) (λ h. tt)
  structural-Said st_comma_or_end_array s b here (es, heard, speaks, unseen) =
      let inside : InArray s.stack es = rw here at speaks in
      let fresh : Unseen s.saw_root_value s.ended = rw here at unseen in
      Yields-if (SaidAfter on h₀) (b == b',') _ _ (λ h. InArray-Expects s es heard inside fresh)
        (λ h.
          Yields-if (SaidAfter on h₀) (b == b']') _ _
            (λ h. close_array-Said s es heard inside fresh) (λ h. tt))
  structural-Said st_comma_or_end_object s b here (es, heard, speaks, unseen) =
      let inside : InObject s.stack es = rw here at speaks in
      let fresh : Unseen s.saw_root_value s.ended = rw here at unseen in
      Yields-if (SaidAfter on h₀) (b == b',') _ _ (λ h. next_key-Said s es heard inside fresh)
        (λ h.
          Yields-if (SaidAfter on h₀) (b == b'}') _ _
            (λ h. close_object-Said s es heard inside fresh) (λ h. tt))
  structural-Said st_end s b here said = tt
  structural-Said st_in_string s b here said = tt
  structural-Said st_in_string_escape s b here said = tt
  structural-Said st_in_string_unicode s b here said = tt
  structural-Said st_in_number s b here said = tt
  structural-Said st_in_literal s b here said = tt

  between-Said :
      (state : State) (s : Tokenizer D H) (b : ℕ)
      → s.state ≡ state
      → Said on.hears h₀ s
      → Yields (SaidAfter on h₀) (if is_whitespace b then done (1, s) else structural on state s b)
  between-Said state s b here said =
      Yields-if (SaidAfter on h₀) (is_whitespace b) _ _ (λ h. said)
        (λ h. structural-Said state s b here said)

  dispatch-Said :
      (state : State) (s : Tokenizer D H) (b : ℕ) (chunk : List ℕ)
      → s.state ≡ state
      → Said on.hears h₀ s
      → Yields (SaidAfter on h₀) (dispatch on state s b chunk)
  unfolding dispatch
  dispatch-Said st_value s b chunk here said = between-Said st_value s b here said
  dispatch-Said st_value_or_end_array s b chunk here said =
      between-Said st_value_or_end_array s b here said
  dispatch-Said st_key_or_end_object s b chunk here said =
      between-Said st_key_or_end_object s b here said
  dispatch-Said st_key s b chunk here said = between-Said st_key s b here said
  dispatch-Said st_colon s b chunk here said = between-Said st_colon s b here said
  dispatch-Said st_comma_or_end_array s b chunk here said =
      between-Said st_comma_or_end_array s b here said
  dispatch-Said st_comma_or_end_object s b chunk here said =
      between-Said st_comma_or_end_object s b here said
  dispatch-Said st_end s b chunk here said = between-Said st_end s b here said
  dispatch-Said st_in_string s b chunk here (es, heard, speaks, unseen) =
      scan_string_body-Said on h₀ s (b ∷ chunk)
        ((es, heard, rw here at speaks, rw here at unseen), here)
  dispatch-Said st_in_string_escape s b chunk here (es, heard, speaks, unseen) =
      step_string_escape-Said on h₀ s b ((es, heard, rw here at speaks, rw here at unseen), here)
  dispatch-Said st_in_string_unicode s b chunk here (es, heard, speaks, unseen) =
      step_string_unicode-Said on h₀ s b ((es, heard, rw here at speaks, rw here at unseen), here)
  dispatch-Said st_in_number s b chunk here (es, heard, speaks, unseen) =
      step_number-Said on h₀ s (b ∷ chunk) here (es, heard, rw here at speaks, rw here at unseen)
  dispatch-Said st_in_literal s b chunk here (es, heard, speaks, unseen) =
      step_literal-Said on h₀ s b here (es, heard, rw here at speaks, rw here at unseen)

  guard-same : (s : Tokenizer D H) (b : ℕ) → Yields (λ s'. s' ≡ s) (guard s b)
  guard-same s b =
      Returns-Yields (λ s'. (s' ≡ s) × Passed s b) (λ s'. s' ≡ s) (guard s b) (λ a h. h.0)
        (guard-Passed s b)

  pub turn-Said :
      (s : Tokenizer D H) (b : ℕ) (chunk : List ℕ)
      → Said on.hears h₀ s
      → Yields (SaidAfter on h₀) (turn on s b chunk)
  unfolding turn
  turn-Said s b chunk said =
      Yields->>= (λ s'. s' ≡ s) (SaidAfter on h₀) (guard s b) _ (guard-same s b)
        (λ s₁ same. rw same (
          Yields->>= (SaidAfter on h₀) (SaidAfter on h₀) (dispatch on s.state s b chunk) _
            (dispatch-Said s.state s b chunk refl said) (λ (taken, s') h. h)))
