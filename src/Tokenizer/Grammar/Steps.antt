-- ===== src/Tokenizer/Grammar/Steps.antt =====
-- Numbers, literals and the beginnings of values report events that fit what is read.
use oaverify.Common.{
  ℕ, ◌+◌, ◌-◌, ◌≡◌, refl, Bool, true, false, Option, none, some, List, [], ◌∷◌, ◌++◌, Bool-cases,
  inl, inr, length, ◌==◌, ltb, take, ◌&&◌, ◌||◌, is_digit, get_elem?,
}
use oaverify.Tokenizer.Bytes.{number_re}
use oaverify.Tokenizer.Numbers.{
  finish_number, step_number, step_literal, literal_event, is_at, number_end, number_run,
  ends_number,
}
use oaverify.Tokenizer.Strings.{ch_quote, begin_string}
use oaverify.Tokenizer.Machine.{begin_value}
use oaverify.Tokenizer.Tells.{told, tell-Yields}
use oaverify.Tokenizer.Outcomes.{Yields, Yields->>=, Yields-if}
use oaverify.Tokenizer.Grammar.{
  JsonText, Emits, Awaiting, open_array, open_object, no_items, no_members, no_slice, number_event,
  boolean_event, null_event, deliver,
}
use oaverify.Tokenizer.Grammar.Settled.{Awaiting-Settled}
use oaverify.Tokenizer.Grammar.Said.{AtKey, Heard-next, Unseen, Said, after_value-Said}
use oaverify.Tokenizer.Grammar.Strings.{SaidAfter}
use oaverify.Tokenizer.{
  st_in_string, Handler, Event, on_start_object, on_start_array, on_number, on_string_start,
  st_in_number, st_in_literal, TextDecoder, Tokenizer, scan_end, is_zero,
}

literal-Emits :
    (value : Option Bool) (start end : ℕ)
    → (j : JsonText) × Emits j (literal_event value start end ∷ [])
literal-Emits none start end = (JsonText.null, null_event start end)
literal-Emits (some b) start end = (JsonText.boolean b, boolean_event b start end)

module _ {D : TextDecoder} {H : Type 0} (on : Handler H) (h₀ : H) where
  -- A value is awaited, and these are the events so far.
  abbrev pub Expects : Tokenizer D H → Type 0
  Expects s =
      (es : List Event) × (s.handler ≡ deliver on.hears h₀ es)
      × Awaiting s.stack es
      × Unseen s.saw_root_value s.ended

  pub finish_number-Said :
      (s : Tokenizer D H) (at : ℕ) → Expects s → Yields (Said on.hears h₀) (finish_number on s at)
  unfolding finish_number
  finish_number-Said s at (es, heard, awaiting, unseen) = elim (Bool-cases (number_re s.num_buf)) [
    | inl e ↦ rw e (
        tell-Yields on s (on_number s.num_buf s.token_start at) (Said on.hears h₀) _
          (λ byte all span commas.
            after_value-Said on.hears h₀
              (record (told on s (on_number s.num_buf s.token_start at) byte all span commas) {
                num_buf = [];
              })
              _ (Heard-next on.hears h₀ s.handler es (on_number s.num_buf s.token_start at) heard)
              (Awaiting-Settled s.stack es _ _ awaiting (number_event s.num_buf s.token_start at e))
              unseen))
    | inr e ↦ rw e tt
  ]

  pub step_number-Said :
      (s : Tokenizer D H) (chunk : List ℕ)
      → s.state ≡ st_in_number
      → Expects s
      → Yields (SaidAfter on h₀) (step_number on s chunk)
  unfolding step_number
  step_number-Said s chunk here expects =
      let edit_end = s.offset + scan_end s chunk in
      let n = number_end edit_end s.token_start s.max_number_bytes in
      let count = number_run (n - s.offset) chunk in
      let j = s.offset + count in
      let s' = record s { num_buf = s.num_buf ++ take count chunk } in
      let (es, heard, awaiting, unseen) = expects in
      Yields-if (SaidAfter on h₀)
        (ltb j n || (j == n && ltb j edit_end && ends_number (get_elem? chunk count))) _ _
        (λ e.
          Yields->>= (Said on.hears h₀) (SaidAfter on h₀) (finish_number on s' j) _
            (finish_number-Said s' j expects) (λ a h. h))
        (λ e. (es, heard, rw here awaiting, rw here unseen))

  pub step_literal-Said :
      (s : Tokenizer D H) (b : ℕ)
      → s.state ≡ st_in_literal
      → Expects s
      → Yields (SaidAfter on h₀) (step_literal on s b)
  unfolding step_literal
  step_literal-Said s b here (es, heard, awaiting, unseen) =
      let event = literal_event s.lit_value s.token_start (s.offset + 1) in
      Yields-if (SaidAfter on h₀) (is_at s.lit_expected s.lit_pos b) _ _
        (λ e.
          Yields-if (SaidAfter on h₀) (s.lit_pos + 1 == length s.lit_expected) _ _
            (λ k.
              let (value, emits) = literal-Emits s.lit_value s.token_start (s.offset + 1) in
              tell-Yields on (record s { lit_pos = s.lit_pos + 1 }) event (SaidAfter on h₀) _
                (λ byte all span commas.
                  after_value-Said on.hears h₀
                    (told on (record s { lit_pos = s.lit_pos + 1 }) event byte all span commas)
                    (es ++ event ∷ []) (Heard-next on.hears h₀ s.handler es event heard)
                    (Awaiting-Settled s.stack es _ value awaiting emits) unseen))
            (λ k. (es, heard, rw here awaiting, rw here unseen)))
        (λ e. tt)

  begin_text-Said :
      (s : Tokenizer D H) → Expects s → Yields (SaidAfter on h₀) (begin_string on s false)
  unfolding begin_string
  begin_text-Said s (es, heard, awaiting, unseen) =
      tell-Yields on
        (record s {
          string_is_key = false;
          string_start = s.offset;
          str_code_points = 0;
          pending_high_surrogate = false;
          key_buf = [];
          state = st_in_string;
        })
        (on_string_start s.offset) (SaidAfter on h₀) _
        (λ byte all span commas. (
          es ++ on_string_start s.offset ∷ [],
          Heard-next on.hears h₀ s.handler es (on_string_start s.offset) heard,
          (es, [], [], s.offset, awaiting, no_slice, refl),
          unseen,
        ))

  pub begin_key-Said :
      (s : Tokenizer D H) (es : List Event)
      → s.handler ≡ deliver on.hears h₀ es
      → AtKey s.stack es
      → Unseen s.saw_root_value s.ended
      → Yields (SaidAfter on h₀) (begin_string on s true)
  unfolding begin_string
  begin_key-Said s es heard at unseen =
      Yields-if (SaidAfter on h₀) (is_zero s.max_key_bytes) _ _ (λ e. tt)
        (λ e. (es, heard, at, unseen))

  pub begin_value-Said :
      (s : Tokenizer D H) (b : ℕ) → Expects s → Yields (SaidAfter on h₀) (begin_value on s b)
  unfolding begin_value
  begin_value-Said s b expects =
      let P = SaidAfter on h₀ in
      let (es, heard, awaiting, unseen) = expects in
      Yields-if P (b == ch_quote) _ _ (λ h. begin_text-Said s expects)
        (λ h.
          Yields-if P (b == b'{') _ _
            (λ h. tell-Yields on s (on_start_object s.offset) P _ (λ byte all span commas. (
              es ++ on_start_object s.offset ∷ [],
              Heard-next on.hears h₀ s.handler es (on_start_object s.offset) heard,
              (s.stack, refl, open_object s.offset awaiting no_members),
              unseen,
            )))
            (λ h.
              Yields-if P (b == b'[') _ _
                (λ h. tell-Yields on s (on_start_array s.offset) P _ (λ byte all span commas. (
                  es ++ on_start_array s.offset ∷ [],
                  Heard-next on.hears h₀ s.handler es (on_start_array s.offset) heard,
                  (s.stack, refl, open_array s.offset awaiting no_items),
                  unseen,
                )))
                (λ h.
                  Yields-if P (b == b'-' || is_digit b) _ _ (λ h. expects)
                    (λ h.
                      Yields-if P (b == b't') _ _ (λ h. expects)
                        (λ h.
                          Yields-if P (b == b'f') _ _ (λ h. expects)
                            (λ h. Yields-if P (b == b'n') _ _ (λ h. expects) (λ h. tt)))))))
