-- ===== src/Tokenizer/Tells.antt =====
-- What a call of the handler leaves, whatever it calls back: the limits may change, or the tokenizer
-- is disposed.
use oaverify.Common.{ℕ, Bool, true, Option, List, [], ◌∷◌}
use oaverify.Tokenizer.{
  Event, Result, done, disposed, ◌>>=◌, TextDecoder, Tokenizer, Handler, Call, calls_dispose,
  calls_set_byte_limit, calls_set_span_limit, calls_enable_member_commas, call_back, tell,
}
use oaverify.Tokenizer.Outcomes.{Returns, Yields}

module _ {D : TextDecoder} {H : Type 0} where
  -- The tokenizer with other limits, reporting commas or not.
  abbrev pub limited : Tokenizer D H → Option ℕ → Bool → Option ℕ → Bool → Tokenizer D H
  limited s byte all span commas = record s {
    byte_limit_at = byte;
    limit_counts_all = all;
    span_limit_at = span;
    member_commas = commas;
  }

  call_back-limited :
      (R : Result (Tokenizer D H) → Type 0) (s : Tokenizer D H)
      → R disposed
      → ((byte : Option ℕ) (all : Bool) (span : Option ℕ) (commas : Bool)
          → R (done (limited s byte all span commas)))
      → (calls : List Call) → R (call_back calls s)
  call_back-limited R s d h [] =
      h s.byte_limit_at s.limit_counts_all s.span_limit_at s.member_commas
  call_back-limited R s d h (calls_dispose ∷ calls) = d
  call_back-limited R s d h (calls_set_byte_limit at all ∷ calls) =
      call_back-limited R (record s { byte_limit_at = at; limit_counts_all = all }) d h calls
  call_back-limited R s d h (calls_set_span_limit at ∷ calls) =
      call_back-limited R (record s { span_limit_at = at }) d h calls
  call_back-limited R s d h (calls_enable_member_commas ∷ calls) =
      call_back-limited R (record s { member_commas = true }) d h calls

  module _ (on : Handler H) (s : Tokenizer D H) (event : Event) where
    -- The tokenizer that a call of the handler returns to.
    abbrev pub told : Option ℕ → Bool → Option ℕ → Bool → Tokenizer D H
    told = limited (record s { handler = on.hears s.handler event })

    pub tell-Returns :
        {B : Type 0} (Q : B → Type 0) (k : Tokenizer D H → Result B)
        → ((byte : Option ℕ) (all : Bool) (span : Option ℕ) (commas : Bool)
            → Returns Q (k (told byte all span commas)))
        → Returns Q (tell on s event >>= k)
    tell-Returns Q k h =
        call_back-limited (λ r. Returns Q (r >>= k))
          (record s { handler = on.hears s.handler event }) tt h (on.calls s.handler event)

    pub tell-Returns_done :
        (Q : Tokenizer D H → Type 0)
        → ((byte : Option ℕ) (all : Bool) (span : Option ℕ) (commas : Bool)
            → Q (told byte all span commas))
        → Returns Q (tell on s event)
    tell-Returns_done Q h =
        call_back-limited (Returns Q) (record s { handler = on.hears s.handler event }) tt h
          (on.calls s.handler event)

    pub tell-Yields :
        {B : Type 0} (Q : B → Type 0) (k : Tokenizer D H → Result B)
        → ((byte : Option ℕ) (all : Bool) (span : Option ℕ) (commas : Bool)
            → Yields Q (k (told byte all span commas)))
        → Yields Q (tell on s event >>= k)
    tell-Yields Q k h =
        call_back-limited (λ r. Yields Q (r >>= k))
          (record s { handler = on.hears s.handler event }) tt h (on.calls s.handler event)

    pub tell-Yields_done :
        (Q : Tokenizer D H → Type 0)
        → ((byte : Option ℕ) (all : Bool) (span : Option ℕ) (commas : Bool)
            → Q (told byte all span commas))
        → Yields Q (tell on s event)
    tell-Yields_done Q h =
        call_back-limited (Yields Q) (record s { handler = on.hears s.handler event }) tt h
          (on.calls s.handler event)
