-- ===== src/Tokenizer/Bounds/Steps.antt =====
-- What the limits of `write` let pass.
use oaverify.Common.{
  ℕ, suc, ◌+◌, ◌<◌, ◌≡◌, refl, Bool, true, false, not, ◌&&◌, ◌||◌, Option, none, some, List, ◌∷◌,
  arith, if◌then◌else◌, length, Bool-cases, inl, inr,
}
use oaverify.Tokenizer.Bytes.{number_re, is_number_byte}
use oaverify.Tokenizer.Numbers.{check_number}
use oaverify.Tokenizer.Machine.{guard, in_number, is_in_string, limit_counts}
use oaverify.Tokenizer.Outcomes.{Returns, Returns->>=, Returns-if}
use oaverify.Tokenizer.Bounds.{AtMost}
use oaverify.Tokenizer.{
  State, TextDecoder, Tokenizer, limit_from, reaches, scan_end, done, room, hard_limit, is_zero,
  min_limit,
}

-- What the tests of `write` have passed on the byte `b`.
pub record Passed {D : TextDecoder} {H : Type 0} (s : Tokenizer D H) (b : ℕ) : Type 0 where
  pub below :
      reaches s.offset (hard_limit s.limit_counts_all s.byte_limit_at s.span_limit_at) ≡ false
  pub key_limit :
      (s.string_is_key
        && (is_in_string s.state && reaches s.offset (limit_from s.string_start s.max_key_bytes)))
      ≡ false
  pub number_limit :
      (in_number s.state
        && (reaches s.offset (limit_from s.token_start s.max_number_bytes) && is_number_byte b))
      ≡ false

reaches-min_limit :
    (at : ℕ) (x y : Option ℕ)
    → reaches at x ≡ false
    → reaches at y ≡ false
    → reaches at (min_limit x y) ≡ false
reaches-min_limit at none y h k = k
reaches-min_limit at (some x) none h k = h
reaches-min_limit at (some x) (some y) h k = ground arith

not_reached :
    (at : ℕ) (all : Bool) (x y : Option ℕ) (state : State) (b : ℕ)
    → (reaches at x && limit_counts all state b) ≡ false
    → reaches at y ≡ false
    → reaches at (hard_limit all x y) ≡ false
unfolding limit_counts
not_reached at false x y state b h k = k
not_reached at true x y state b h k = reaches-min_limit at x y (ground arith) k

pub room-pos :
    (n at : ℕ) (limit : Option ℕ) → 0 < n → reaches at limit ≡ false → 0 < room n limit at
room-pos n at none h k = h
room-pos n at (some l) h k = let below : at < l = ground arith in omega arith

pub AtMost-start : (offset : ℕ) (limit : Option ℕ) → AtMost (offset + 0) (limit_from offset limit)
AtMost-start offset none = tt
AtMost-start offset (some l) = omega arith

pub AtMost-quote :
    (offset : ℕ) (limit : Option ℕ)
    → is_zero limit ≡ false
    → AtMost (offset + 1) (limit_from offset limit)
AtMost-quote offset none h = tt
AtMost-quote offset (some l) h = ground arith

module _ {D : TextDecoder} {H : Type 0} where
  pub scan_end-pos :
      (s : Tokenizer D H) (b : ℕ) (chunk : List ℕ) → Passed s b → 0 < scan_end s (b ∷ chunk)
  unfolding scan_end
  scan_end-pos s b chunk passed =
      room-pos (suc (length chunk)) s.offset
        (hard_limit s.limit_counts_all s.byte_limit_at s.span_limit_at) (omega arith) passed.below

  check_number-Returns : (s : Tokenizer D H) → Returns (λ s'. Unit) (check_number s)
  unfolding check_number
  check_number-Returns s =
      Returns-if (λ s'. Unit) (number_re s.num_buf) _ _ (λ h. tt) (λ h. λ k. cc)

  pub guard-Passed : (s : Tokenizer D H) (b : ℕ) → Returns (λ s'. (s' ≡ s) × Passed s b) (guard s b)
  unfolding guard
  guard-Passed s b =
      let at_byte_limit =
        reaches s.offset s.byte_limit_at && limit_counts s.limit_counts_all s.state b in
      let at_span_limit = reaches s.offset s.span_limit_at in
      let P = λ (s' : Tokenizer D H). (s' ≡ s) × Passed s b in
      Returns-if P (at_byte_limit || at_span_limit) _ _
        (λ e.
          Returns->>= (λ s'. Unit) P
            (if in_number s.state && not (is_number_byte b) then check_number s else done s) _
            (Returns-if (λ s'. Unit) (in_number s.state && not (is_number_byte b)) _ _
              (λ h. check_number-Returns s) (λ h. tt))
            (λ s' h. elim (Bool-cases at_byte_limit) [
              | inl k ↦ rw k (λ h. cc)
              | inr k ↦ rw k (λ h. cc)
            ]))
        (λ e.
          Returns-if P
            (s.string_is_key
              && (is_in_string s.state
                  && reaches s.offset (limit_from s.string_start s.max_key_bytes)))
            _ _ (λ k. λ h. cc)
            (λ k.
              Returns-if P
                (in_number s.state
                  && (reaches s.offset (limit_from s.token_start s.max_number_bytes)
                      && is_number_byte b))
                _ _ (λ n. λ h. cc)
                (λ n. (
                  refl,
                  record {
                    below =
                        not_reached s.offset s.limit_counts_all s.byte_limit_at s.span_limit_at
                          s.state b (ground arith) (ground arith);
                    key_limit = k;
                    number_limit = n;
                  },
                ))))
