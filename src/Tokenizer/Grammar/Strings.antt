-- ===== src/Tokenizer/Grammar/Strings.antt =====
-- The ends and escapes of strings report events that fit what is read.
use oaverify.Common.{
  ℕ, ◌+◌, ◌*◌, sym, ap, ◌∙◌, subst, false, List, [], ◌∷◌, ◌++◌, append_assoc, Bool-cases,
  Option-cases, inl, inr, if◌then◌else◌, ◌==◌, ltb, take, within, ◌&&◌,
}
use oaverify.Common.Percent.{hex_value}
use oaverify.Tokenizer.Strings.{
  take_run, emit_string_text, ch_quote, flush_held_partial, close_run, report_string, string_room,
  scan_string_body, literal_run, is_control, stop_at, escape_text,
}
use oaverify.Tokenizer.Escapes.{step_string_escape, step_string_unicode, take_unit}
use oaverify.Tokenizer.Tells.{told, tell-Yields}
use oaverify.Tokenizer.Outcomes.{Yields, Yields->>=, Yields-if}
use oaverify.Tokenizer.Grammar.{Awaiting, Settled, at_key, string, string_events}
use oaverify.Tokenizer.Grammar.Settled.{Awaiting-Settled}
use oaverify.Tokenizer.Grammar.Said.{AtKey, InText, Heard-next, Said, after_value-Said}
use oaverify.Tokenizer.{
  Handler, on_string_start, on_string_end, on_key, st_in_string, st_in_string_escape,
  st_in_string_unicode, TextDecoder, Tokenizer, done,
}
use oaverify.Tokenizer.Grammar.Bodies.{
  InBody, emit-InBody, take_run-InBody, flush_held_partial-InBody,
}

module _ {D : TextDecoder} {H : Type 0} (on : Handler H) (h₀ : H) where
  report_string-Said :
      (s : Tokenizer D H) (end : ℕ)
      → InBody on h₀ st_in_string s
      → Yields (Said on.hears h₀) (report_string on s end)
  unfolding report_string
  report_string-Said s end ((es, heard, body, unseen), here) = elim (Bool-cases s.string_is_key) [
    | inl e ↦
        let event = on_key s.key_buf s.str_code_points s.string_start end in
        let (gs, cs, (c, top, opened), sep, split) : AtKey s.stack es = rw e at body in
        rw (e, report_string)
          (tell-Yields on s event (Said on.hears h₀) _ (λ byte all span commas. (
            es ++ event ∷ [],
            Heard-next on.hears h₀ s.handler es event heard,
            subst (λ xs. Awaiting s.stack (xs ++ event ∷ [])) (sym split)
                (rw (top, append_assoc gs cs (event ∷ []))
                  (at_key s.key_buf s.str_code_points s.string_start end opened sep)),
            unseen,
          )))
    | inr e ↦
        let event = on_string_end s.str_code_points s.string_start end in
        let (gs, fs, t, o, w, slices, split) : InText s.stack es = rw e at body in
        rw (e, report_string)
          (tell-Yields on s event (Said on.hears h₀) _ (λ byte all span commas.
            after_value-Said on.hears h₀ (told on s event byte all span commas) (es ++ event ∷ [])
              (Heard-next on.hears h₀ s.handler es event heard)
              (subst (λ xs. Settled s.stack xs)
                (sym (append_assoc gs (on_string_start o ∷ fs) (event ∷ []))
                  ∙ sym (ap (λ xs. xs ++ event ∷ []) split))
                (Awaiting-Settled s.stack gs _ (string t) w
                  (string_events o s.str_code_points s.string_start end slices)))
              unseen))
  ]

  -- A turn that takes bytes, and what is said after it.
  abbrev pub SaidAfter : ℕ × Tokenizer D H → Type 0
  SaidAfter (taken, s) = Said on.hears h₀ s

  pub InBody-Said : (s : Tokenizer D H) → InBody on h₀ st_in_string s → Said on.hears h₀ s
  InBody-Said s ((es, heard, body, unseen), here) = (es, heard, rw here body, rw here unseen)

  close_run-Said :
      (s : Tokenizer D H) (i b : ℕ)
      → InBody on h₀ st_in_string s
      → Yields SaidAfter (close_run on s i b)
  unfolding close_run
  close_run-Said s i b body =
      Yields->>= (InBody on h₀ st_in_string) SaidAfter
        (if i == 0 then flush_held_partial on s s.offset else done s) _
        (Yields-if (InBody on h₀ st_in_string) (i == 0) _ _
          (λ e. flush_held_partial-InBody on h₀ st_in_string s s.offset body) (λ e. body))
        (λ a h.
          Yields->>= (Said on.hears h₀) SaidAfter
            (if b == ch_quote
              then report_string on a (a.offset + i + 1)
              else done (record a { state = st_in_string_escape }))
            _
            (Yields-if (Said on.hears h₀) (b == ch_quote) _ _
              (λ e. report_string-Said a (a.offset + i + 1) h)
              (λ e. let ((es, heard, inside, unseen), here) = h in (es, heard, inside, unseen)))
            (λ a' said. said))

  pub scan_string_body-Said :
      (s : Tokenizer D H) (chunk : List ℕ)
      → InBody on h₀ st_in_string s
      → Yields SaidAfter (scan_string_body on s chunk)
  unfolding scan_string_body
  scan_string_body-Said s chunk body =
      let n = string_room s chunk in
      let i = literal_run n chunk in
      let stop = stop_at n i chunk in
      Yields-if SaidAfter (is_control stop) _ _ (λ e. tt)
        (λ e.
          Yields->>= (InBody on h₀ st_in_string) SaidAfter
            (if i == 0 then done s else take_run on s (take i chunk) (i == n)) _
            (Yields-if (InBody on h₀ st_in_string) (i == 0) _ _ (λ k. body)
              (λ k. take_run-InBody on h₀ st_in_string s (take i chunk) (i == n) body))
            (λ a h. elim (Option-cases stop) [
              | inl nothing ↦ rw nothing (InBody-Said a h)
              | inr (b, found) ↦ rw found (close_run-Said a i b h)
            ]))

  pub step_string_escape-Said :
      (s : Tokenizer D H) (b : ℕ)
      → InBody on h₀ st_in_string_escape s
      → Yields SaidAfter (step_string_escape on s b)
  unfolding step_string_escape
  step_string_escape-Said s b body =
      Yields-if SaidAfter (b == b'u') _ _
        (λ e. let ((es, heard, inside, unseen), here) = body in (es, heard, inside, unseen))
        (λ e. elim (Option-cases (escape_text b)) [
          | inl unknown ↦ rw (unknown, Yields) tt
          | inr (ch, known) ↦
              let counted = record s {
                str_code_points = s.str_code_points + 1;
                pending_high_surrogate = false;
              } in
              rw known (
                Yields->>= (InBody on h₀ st_in_string_escape) SaidAfter
                  (emit_string_text on counted (ch ∷ []) s.offset (s.offset + 1)) _
                  (emit-InBody on h₀ st_in_string_escape counted (ch ∷ []) s.offset (s.offset + 1)
                    body)
                  (λ a h.
                    let ((es, heard, inside, unseen), here) = h in (es, heard, inside, unseen)))
        ])

  take_unit-Said :
      (s : Tokenizer D H) (unit : ℕ)
      → InBody on h₀ st_in_string_unicode s
      → Yields (Said on.hears h₀) (take_unit on s unit)
  unfolding take_unit
  take_unit-Said s unit body =
      let pairs = s.pending_high_surrogate && within 0xdc00 0xdfff unit in
      let counted = record s {
        str_code_points = (if pairs then s.str_code_points else s.str_code_points + 1);
        pending_high_surrogate = (if pairs then false else within 0xd800 0xdbff unit);
      } in
      Yields->>= (InBody on h₀ st_in_string_unicode) (Said on.hears h₀)
        (emit_string_text on counted (unit ∷ []) s.offset (s.offset + 1)) _
        (emit-InBody on h₀ st_in_string_unicode counted (unit ∷ []) s.offset (s.offset + 1) body)
        (λ a h. let ((es, heard, inside, unseen), here) = h in (es, heard, inside, unseen))

  pub step_string_unicode-Said :
      (s : Tokenizer D H) (b : ℕ)
      → InBody on h₀ st_in_string_unicode s
      → Yields SaidAfter (step_string_unicode on s b)
  unfolding step_string_unicode
  step_string_unicode-Said s b body = elim (Option-cases (hex_value b)) [
    | inl unknown ↦ rw (unknown, Yields) tt
    | inr (v, known) ↦
        rw (known, Yields)
          (elim (Bool-cases (ltb (s.uni_digits + 1) 4)) [
            | inl more ↦
                let ((es, heard, inside, unseen), here) = body in
                rw more (es, heard, rw here inside, rw here unseen)
            | inr last ↦
                let s' = record s {
                  uni_value = s.uni_value * 16 + v;
                  uni_digits = s.uni_digits + 1;
                } in
                rw last (
                  Yields->>= (Said on.hears h₀) SaidAfter (take_unit on s' (s.uni_value * 16 + v)) _
                    (take_unit-Said s' (s.uni_value * 16 + v) body) (λ a said. said))
          ])
  ]
