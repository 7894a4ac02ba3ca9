-- ===== src/Tokenizer/Bounds/Numbers.antt =====
-- Numbers and literals keep the bounds and take bytes, or end.
use oaverify.Common.{
  ℕ, suc, ◌+◌, ◌-◌, ◌≤◌, ◌<◌, ◌≡◌, refl, false, ◌&&◌, List, ◌∷◌, ◌++◌, arith, ◌==◌, length, take,
  get_elem?, Bool-cases, inl, inr, length-append, length-take_le,
}
use oaverify.Tokenizer.Bytes.{is_number_byte, number_re}
use oaverify.Tokenizer.Numbers.{
  number_run, number_end, finish_number, step_number, step_literal, is_at, literal_event,
}
use oaverify.Tokenizer.Tells.{tell-Returns}
use oaverify.Tokenizer.Outcomes.{Returns, Returns->>=}
use oaverify.Tokenizer.Bounds.{number_run_bounds, IsValid, Moved, After}
use oaverify.Tokenizer.{
  Handler, on_number, tell, st_in_number, st_in_literal, TextDecoder, Tokenizer, limit_from,
  reaches, scan_end, done, ◌>>=◌,
}
use oaverify.Tokenizer.Bounds.Tokens.{
  is_at-lt, ends, number_progress, number_end_cases, at_number_end, within_limit, ended-Moved,
}

module _ {D : TextDecoder} {H : Type 0} (on : Handler H) where
  -- A finished number is past its state.
  pub finish_number-Moved :
      (s₀ s : Tokenizer D H) (limit taken at : ℕ)
      → s.offset ≡ s₀.offset
      → taken ≤ limit
      → s₀.state ≡ st_in_number
      → Returns (After s₀ limit) (do s ← finish_number on s at; done (taken, s))
  unfolding finish_number
  finish_number-Moved s₀ s limit taken at same fits here =
      let event = on_number s.num_buf s.token_start at in
      elim (Bool-cases (number_re s.num_buf)) [
        | inl e ↦ rw e (
            Returns->>= (Moved s₀ limit taken) (After s₀ limit) (tell on s event >>= _) _
              (tell-Returns on s event (Moved s₀ limit taken) _
                (λ byte all span commas. ended-Moved same fits (rw here (omega arith)) refl))
              (λ a h. h))
        | inr e ↦ rw e (λ h. cc)
      ]

  pub step_number-Moved :
      (s : Tokenizer D H) (b : ℕ) (chunk : List ℕ)
      → s.state ≡ st_in_number
      → IsValid s
      → 0 < scan_end s (b ∷ chunk)
      → (reaches s.offset (limit_from s.token_start s.max_number_bytes) && is_number_byte b) ≡ false
      → Returns (After s (suc (length chunk))) (step_number on s (b ∷ chunk))
  unfolding step_number
  step_number-Moved s b chunk here valid some_room in_limit =
      let edit_end = s.offset + scan_end s (b ∷ chunk) in
      let n = number_end edit_end s.token_start s.max_number_bytes in
      let count = number_run (n - s.offset) (b ∷ chunk) in
      let next = get_elem? (b ∷ chunk) count in
      let (bound, fits) = number_run_bounds (n - s.offset) (b ∷ chunk) in
      elim (Bool-cases (ends s.offset edit_end n next (b ∷ chunk))) [
        | inl e ↦ rw e (
            finish_number-Moved s (record s { num_buf = s.num_buf ++ take count (b ∷ chunk) }) _
              count (s.offset + count) refl fits here)
        | inr e ↦
            let (filled, kept) = rw here at valid in
            let progress : 0 < count =
              number_progress s.offset edit_end n b chunk (omega arith)
                (number_end_cases edit_end s.token_start s.offset s.max_number_bytes (omega arith)
                  kept)
                (at_number_end edit_end s.token_start s.offset b s.max_number_bytes in_limit) e in
            rw e (record {
              same_offset = refl;
              in_chunk = fits;
              paid = omega arith;
              valid = rw here (
                omega (
                  arith,
                  length-append s.num_buf (take count (b ∷ chunk)),
                  length-take_le count (b ∷ chunk) fits,
                ),
                within_limit edit_end s.token_start s.offset count s.max_number_bytes progress
                    bound,
              );
            })
      ]

  pub step_literal-Moved :
      (s : Tokenizer D H) (b limit : ℕ)
      → s.state ≡ st_in_literal
      → IsValid s
      → 0 < limit
      → Returns (After s limit) (step_literal on s b)
  unfolding step_literal
  step_literal-Moved s b limit here valid some_room =
      elim (Bool-cases (is_at s.lit_expected s.lit_pos b)) [
        | inl e ↦ elim (Bool-cases (s.lit_pos + 1 == length s.lit_expected)) [
          | inl last ↦
              rw (e, last)
                (tell-Returns on (record s { lit_pos = s.lit_pos + 1 })
                  (literal_event s.lit_value s.token_start (s.offset + 1)) (After s limit) _
                  (λ byte all span commas. ended-Moved refl some_room (omega arith) refl))
          | inr more ↦
              rw (e, more)
                (record {
                  same_offset = refl;
                  in_chunk = some_room;
                  paid = omega arith;
                  valid = rw here (is_at-lt s.lit_expected s.lit_pos b e more);
                })
        ]
        | inr e ↦ rw e (λ h. cc)
      ]
