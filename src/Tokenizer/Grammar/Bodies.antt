-- ===== src/Tokenizer/Grammar/Bodies.antt =====
-- Inside a string, of a key or of a value.
use oaverify.Common.{
  ℕ, ◌+◌, ◌≡◌, refl, sym, ap, ◌∙◌, subst, Bool, false, List, [], ◌∷◌, ◌++◌, append_assoc, Text,
  Bool-cases, Option-cases, inl, inr, leb, length,
}
use oaverify.Tokenizer.Strings.{
  emit_string_text, decode_run, hold_utf8_tail, take_run, flush, flush_held_partial, points_of,
  count_code_points,
}
use oaverify.Tokenizer.Tells.{tell-Yields_done}
use oaverify.Tokenizer.Outcomes.{Yields, Yields-if, Yields->>=}
use oaverify.Tokenizer.Grammar.{and_slice, deliver}
use oaverify.Tokenizer.Grammar.Said.{Body, InText, Heard-next, Unseen}
use oaverify.Tokenizer.{
  Handler, Event, on_string_start, on_string_chunk, Context, State, TextDecoder, Tokenizer,
}

module _ {D : TextDecoder} {H : Type 0} where
  -- Decoding touches none of these.
  abbrev pub said_of : Tokenizer D H → H × State × List Context × Bool × Bool × Bool
  said_of s = (s.handler, s.state, s.stack, s.string_is_key, s.saw_root_value, s.ended)

  decode_run-said :
      (s : Tokenizer D H) (run : List ℕ) (at_end : Bool)
      → Yields (λ p. said_of p.1 ≡ said_of s) (decode_run s run at_end)
  unfolding decode_run hold_utf8_tail
  decode_run-said s run at_end = elim (Option-cases (D.decode s.strict_utf8 s.decoder run at_end)) [
    | inl e ↦ rw (e, Yields) tt
    | inr ((text, held), e) ↦
        rw (e, Yields)
          (elim (Bool-cases s.strict_utf8) [
            | inl k ↦ rw k (elim (Bool-cases at_end) [ inl l ↦ rw l refl | inr l ↦ rw l refl ])
            | inr k ↦ rw k refl
          ])
  ]

  flush-said : (s : Tokenizer D H) → Yields (λ p. said_of p.1 ≡ said_of s) (flush s)
  unfolding flush
  flush-said s = elim (Option-cases (D.decode s.strict_utf8 s.decoder [] false)) [
    | inl e ↦ rw (e, Yields) tt
    | inr ((text, held), e) ↦ rw (e, Yields) refl
  ]

module _ {H : Type 0} (on : H → Event → H) (h₀ : H) where
  abbrev BodyOf : H × State × List Context × Bool × Bool × Bool → Type 0
  BodyOf (handler, state, stack, is_key, saw, ended) =
      (es : List Event) × (handler ≡ deliver on h₀ es) × Body is_key stack es × Unseen saw ended

module _ {D : TextDecoder} {H : Type 0} (on : Handler H) (h₀ : H) where
  -- Inside a string, in the state given.
  abbrev pub InBody : State → Tokenizer D H → Type 0
  InBody state s = BodyOf on.hears h₀ (said_of s) × (s.state ≡ state)

  InBody-same :
      (state : State) (s s' : Tokenizer D H)
      → said_of s' ≡ said_of s
      → InBody state s
      → InBody state s'
  InBody-same state s s' e (body, here) =
      (subst (BodyOf on.hears h₀) (sym e) body, ap (λ p. p.1) e ∙ here)

  pub emit-InBody :
      (state : State) (s : Tokenizer D H) (text : Text) (offset end : ℕ)
      → InBody state s
      → Yields (InBody state) (emit_string_text on s text offset end)
  unfolding emit_string_text
  emit-InBody state s text offset end ((es, heard, body, unseen), here) =
      let chunk = on_string_chunk text offset s.str_code_points end in
      Yields-if (InBody state) s.string_is_key _ _ (λ e. ((es, heard, body, unseen), here))
        (λ e. tell-Yields_done on s chunk (InBody state) (λ byte all span commas.
          let (gs, fs, t, o, w, slices, split) : InText s.stack es = rw e at body in
          (
            (
              es ++ chunk ∷ [],
              Heard-next on.hears h₀ s.handler es chunk heard,
              rw e (
                gs,
                fs ++ chunk ∷ [],
                t ++ text,
                o,
                w,
                and_slice text offset s.str_code_points end slices,
                ap (λ xs. xs ++ chunk ∷ []) split
                    ∙ append_assoc gs (on_string_start o ∷ fs) (chunk ∷ []),
              ),
              unseen,
            ),
            here,
          )))

  pub take_run-InBody :
      (state : State) (s : Tokenizer D H) (run : List ℕ) (at_end : Bool)
      → InBody state s
      → Yields (InBody state) (take_run on s run at_end)
  unfolding take_run
  take_run-InBody state s run at_end body =
      Yields->>= (λ p. said_of p.1 ≡ said_of s) (InBody state)
        (decode_run (record s { pending_high_surrogate = false }) run at_end) _
        (decode_run-said (record s { pending_high_surrogate = false }) run at_end)
        (λ (text, s') same.
          let counted = record s' { str_code_points = s'.str_code_points + points_of run text } in
          let within_body : InBody state counted = InBody-same state s counted same body in
          elim (Bool-cases (leb (length text) 0)) [
            | inl e ↦ rw e within_body
            | inr e ↦ rw e (emit-InBody state counted text _ _ within_body)
          ])

  pub flush_held_partial-InBody :
      (state : State) (s : Tokenizer D H) (offset : ℕ)
      → InBody state s
      → Yields (InBody state) (flush_held_partial on s offset)
  unfolding flush_held_partial
  flush_held_partial-InBody state s offset body =
      Yields->>= (λ p. said_of p.1 ≡ said_of s) (InBody state) (flush s) _ (flush-said s)
        (λ (text, s') same.
          let counted = record s' {
            str_code_points = s'.str_code_points + count_code_points text;
            pending_high_surrogate = false;
          } in
          let within_body : InBody state s' = InBody-same state s s' same body in
          elim (Bool-cases (leb (length text) 0)) [
            | inl e ↦ rw e within_body
            | inr e ↦ rw e (emit-InBody state counted text offset offset within_body)
          ])
