-- ===== src/Tokenizer/Grammar/Loop.antt =====
-- What the handler has heard when the input ends.
use oaverify.Common.{
  arith, Option, ℕ, zero, suc, ◌+◌, ◌*◌, ◌≡◌, refl, Bool, true, false, not, ◌||◌, List, [], ◌∷◌,
  ◌++◌, length, drop, Bool-cases, inl, inr,
}
use oaverify.Tokenizer.Machine.{
  settle, in_number, is_in_string, in_literal, no_context, new_tokenizer,
}
use oaverify.Tokenizer.Loop.{turn, run, write, close_number, end, feed}
use oaverify.Tokenizer.Numbers.{finish_number}
use oaverify.Tokenizer.Tells.{told, tell-Yields}
use oaverify.Tokenizer.Outcomes.{Yields, Yields->>=, Yields-if, Yields_done}
use oaverify.Tokenizer.Grammar.{JsonText, Emits, Awaiting, deliver, at_root, number_event}
use oaverify.Tokenizer.Grammar.Settled.{Awaiting-Settled}
use oaverify.Tokenizer.Bytes.{number_re}
use oaverify.Tokenizer.Grammar.Said.{Said, SeenIn, Unseen, Heard-next, after_value-Said}
use oaverify.Tokenizer.Grammar.Strings.{SaidAfter}
use oaverify.Tokenizer.Grammar.Turns.{turn-Said}
use oaverify.Tokenizer.{
  Handler, Event, on_number, State, st_value, st_value_or_end_array, st_key_or_end_object, st_key,
  st_colon, st_comma_or_end_array, st_comma_or_end_object, st_end, st_in_string,
  st_in_string_escape, st_in_string_unicode, st_in_number, st_in_literal, TextDecoder, Tokenizer,
  done, ◌>>=◌,
}

in_number-eq : (state : State) → in_number state ≡ true → state ≡ st_in_number
in_number-eq st_value h = cc
in_number-eq st_value_or_end_array h = cc
in_number-eq st_key_or_end_object h = cc
in_number-eq st_key h = cc
in_number-eq st_colon h = cc
in_number-eq st_comma_or_end_array h = cc
in_number-eq st_comma_or_end_object h = cc
in_number-eq st_end h = cc
in_number-eq st_in_string h = cc
in_number-eq st_in_string_escape h = cc
in_number-eq st_in_string_unicode h = cc
in_number-eq st_in_number h = refl
in_number-eq st_in_literal h = cc

SeenIn-st_end : (state : State) (ended : Bool) → SeenIn state true ended → state ≡ st_end
SeenIn-st_end st_value ended h = cc h.0
SeenIn-st_end st_value_or_end_array ended h = cc h.0
SeenIn-st_end st_key_or_end_object ended h = cc h.0
SeenIn-st_end st_key ended h = cc h.0
SeenIn-st_end st_colon ended h = cc h.0
SeenIn-st_end st_comma_or_end_array ended h = cc h.0
SeenIn-st_end st_comma_or_end_object ended h = cc h.0
SeenIn-st_end st_end ended h = refl
SeenIn-st_end st_in_string ended h = cc h.0
SeenIn-st_end st_in_string_escape ended h = cc h.0
SeenIn-st_end st_in_string_unicode ended h = cc h.0
SeenIn-st_end st_in_number ended h = cc h.0
SeenIn-st_end st_in_literal ended h = cc h.0

SeenIn-open : (state : State) (saw ended : Bool) → SeenIn state saw ended → ended ≡ false
SeenIn-open st_value saw ended h = h.1
SeenIn-open st_value_or_end_array saw ended h = h.1
SeenIn-open st_key_or_end_object saw ended h = h.1
SeenIn-open st_key saw ended h = h.1
SeenIn-open st_colon saw ended h = h.1
SeenIn-open st_comma_or_end_array saw ended h = h.1
SeenIn-open st_comma_or_end_object saw ended h = h.1
SeenIn-open st_end saw ended h = h.1
SeenIn-open st_in_string saw ended h = h.1
SeenIn-open st_in_string_escape saw ended h = h.1
SeenIn-open st_in_string_unicode saw ended h = h.1
SeenIn-open st_in_number saw ended h = h.1
SeenIn-open st_in_literal saw ended h = h.1

module _ {D : TextDecoder} {H : Type 0} (on : Handler H) (h₀ : H) where
  run-Said :
      (fuel : ℕ) (s : Tokenizer D H) (chunk : List ℕ)
      → Said on.hears h₀ s
      → Yields (Said on.hears h₀) (run on fuel s chunk)
  unfolding run
  run-Said fuel s [] said = said
  run-Said zero s (b ∷ chunk) said = tt
  run-Said (suc fuel) s (b ∷ chunk) said =
      Yields->>= (SaidAfter on h₀) (Said on.hears h₀) (turn on s b chunk) _
        (turn-Said on h₀ s b chunk said)
        (λ (taken, s') h. run-Said fuel s' (drop taken (b ∷ chunk)) h)

  pub write-Said :
      (s : Tokenizer D H) (chunk : List ℕ)
      → Said on.hears h₀ s
      → Yields (Said on.hears h₀) (write on s chunk)
  unfolding write
  write-Said s chunk said =
      Yields-if (Said on.hears h₀) s.ended _ _ (λ e. tt)
        (λ e. run-Said (3 * length chunk + 2) s chunk said)

  -- The events of one whole value.
  abbrev pub HeardOne : Tokenizer D H → Type 0
  HeardOne s =
      (value : JsonText) × (es : List Event) × Emits value es × (s.handler ≡ deliver on.hears h₀ es)

  -- `Said`, once `end` has set `ended`.
  abbrev SaidLast : Tokenizer D H → Type 0
  SaidLast s = Said on.hears h₀ (record s { ended = false })

  settle-HeardOne : (s : Tokenizer D H) → SaidLast s → Yields HeardOne (settle s)
  settle-HeardOne s (es, heard, speaks, seen) =
      Yields-if HeardOne
        (is_in_string s.state
          || in_literal s.state
          || not (no_context s.stack)
          || not s.saw_root_value)
        _ _ (λ e. tt)
        (λ e. elim (Bool-cases s.saw_root_value) [
          | inl saw ↦
              let last : s.state ≡ st_end = SeenIn-st_end s.state false (rw saw at seen) in
              let (bottom, settled) = rw last at speaks in
              let (value, emits) = settled in (value, es, emits, heard)
          | inr saw ↦
              let refused : (is_in_string s.state
                    || in_literal s.state
                    || not (no_context s.stack)
                    || true)
                  ≡ false =
                rw saw at e in
              ground arith
        ])

  close_number-SaidLast :
      (s : Tokenizer D H)
      → Said on.hears h₀ s
      → Yields SaidLast (close_number on (record s { ended = true }))
  unfolding close_number finish_number
  close_number-SaidLast s (es, heard, speaks, seen) =
      let event = on_number s.num_buf s.token_start s.offset in
      Yields-if SaidLast (in_number s.state) _ _
        (λ e.
          let here = in_number-eq s.state e in
          let awaiting : Awaiting s.stack es = rw here at speaks in
          let unseen : Unseen s.saw_root_value s.ended = rw here at seen in
          elim (Bool-cases (number_re s.num_buf)) [
            | inl k ↦ rw k (
                tell-Yields on (record s { ended = true }) event SaidLast _
                  (λ byte all span commas.
                    after_value-Said on.hears h₀
                      (record (told on (record s { ended = true }) event byte all span commas) {
                        num_buf = [];
                        ended = false;
                      })
                      (es ++ event ∷ []) (Heard-next on.hears h₀ s.handler es event heard)
                      (Awaiting-Settled s.stack es _ _ awaiting
                        (number_event s.num_buf s.token_start s.offset k))
                      (unseen.0, refl)))
            | inr k ↦ rw k tt
          ])
        (λ e.
          let still : s.ended ≡ false = SeenIn-open s.state s.saw_root_value s.ended seen in
          (es, heard, speaks, rw still at seen))

  pub end-HeardOne : (s : Tokenizer D H) → Said on.hears h₀ s → Yields HeardOne (end on s)
  unfolding end
  end-HeardOne s said =
      let (es, heard, speaks, seen) = said in
      Yields-if HeardOne s.ended _ _
        (λ e. cc (e, SeenIn-open s.state s.saw_root_value s.ended seen))
        (λ e.
          Yields->>= SaidLast HeardOne (close_number on (record s { ended = true })) settle
            (close_number-SaidLast s said) settle-HeardOne)

module _ {D : TextDecoder} {H : Type 0} (on : Handler H) where
  pub feed-Said :
      (h₀ : H) (s : Tokenizer D H) (chunks : List (List ℕ))
      → Said on.hears h₀ s
      → Yields (Said on.hears h₀) (feed on s chunks)
  feed-Said h₀ s [] said = said
  feed-Said h₀ s (chunk ∷ chunks) said =
      Yields->>= (Said on.hears h₀) (Said on.hears h₀) (write on s chunk) _
        (write-Said on h₀ s chunk said) (λ s' h. feed-Said h₀ s' chunks h)

  -- Where `end` returns after any writes to a new tokenizer, the calls that its handler has
  -- received, in their order, are the events of exactly one JSON value: containers are closed in
  -- turn, a key stands before each member's value, slices stand inside their string, and a number's
  -- literal matches NUMBER_RE. This holds for any decoder and any
  -- handler, also one that sets limits as it is called; where it has disposed the tokenizer, the
  -- outcome is `disposed`.
  pub end-feed_heard_one :
      (h₀ : H) (strict : Bool) (max_key_bytes max_number_bytes : Option ℕ) (chunks : List (List ℕ))
      (s : Tokenizer D H)
      → (feed on (new_tokenizer D h₀ strict max_key_bytes max_number_bytes) chunks >>= end on)
        ≡ done s
      → (value : JsonText) × (es : List Event) × Emits value es
        × (s.handler ≡ deliver on.hears h₀ es)
  end-feed_heard_one h₀ strict max_key_bytes max_number_bytes chunks s returned =
      let start = new_tokenizer D h₀ strict max_key_bytes max_number_bytes in
      Yields_done (HeardOne on h₀) (feed on start chunks >>= end on) s
        (Yields->>= (Said on.hears h₀) (HeardOne on h₀) (feed on start chunks) (end on)
          (feed-Said h₀ start chunks ([], refl, at_root, (refl, refl)))
          (λ s' said. end-HeardOne on h₀ s' said))
        returned
