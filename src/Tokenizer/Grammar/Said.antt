-- ===== src/Tokenizer/Grammar/Said.antt =====
-- The invariant that ties the state and the stack to the events reported.
use oaverify.Common.{ℕ, ◌≡◌, refl, sym, ap, ◌∙◌, Bool, true, false, List, [], ◌∷◌, ◌++◌, Text}
use oaverify.Tokenizer.Grammar.{Awaiting, Opened, Settled, Comma, Slices, deliver, deliver-append}
use oaverify.Tokenizer.{
  Event, on_string_start, Context, ctx_object, ctx_array, State, st_value, st_value_or_end_array,
  st_key_or_end_object, st_key, st_colon, st_comma_or_end_array, st_comma_or_end_object, st_end,
  st_in_string, st_in_string_escape, st_in_string_unicode, st_in_number, st_in_literal, TextDecoder,
  Tokenizer, state_after, is_root, after_value,
}

-- The innermost container is open, and the last comma may be reported.
abbrev pub InArray : List Context → List Event → Type 0
InArray stack es = (c : List Context) × (stack ≡ ctx_array ∷ c) × Opened (ctx_array ∷ c) es

abbrev pub InObject : List Context → List Event → Type 0
InObject stack es = (c : List Context) × (stack ≡ ctx_object ∷ c) × Opened (ctx_object ∷ c) es

abbrev pub AtKey : List Context → List Event → Type 0
AtKey stack es =
    (gs : List Event) × (cs : List Event) × InObject stack gs × Comma cs × (es ≡ gs ++ cs)

-- Inside the string of a value.
abbrev pub InText : List Context → List Event → Type 0
InText stack es =
    (gs : List Event) × (fs : List Event) × (text : Text) × (offset : ℕ) × Awaiting stack gs
    × Slices text fs
    × (es ≡ gs ++ on_string_start offset ∷ fs)

abbrev pub Body : Bool → List Context → List Event → Type 0
Body true stack es = AtKey stack es
Body false stack es = InText stack es

-- What the events say in each state.
abbrev pub Speaks : State → Bool → List Context → List Event → Type 0
Speaks st_value is_key stack es = Awaiting stack es
Speaks st_value_or_end_array is_key stack es = InArray stack es
Speaks st_key_or_end_object is_key stack es = InObject stack es
Speaks st_key is_key stack es = AtKey stack es
Speaks st_colon is_key stack es = Awaiting stack es
Speaks st_comma_or_end_array is_key stack es = InArray stack es
Speaks st_comma_or_end_object is_key stack es = InObject stack es
Speaks st_end is_key stack es = (stack ≡ []) × Settled [] es
Speaks st_in_string is_key stack es = Body is_key stack es
Speaks st_in_string_escape is_key stack es = Body is_key stack es
Speaks st_in_string_unicode is_key stack es = Body is_key stack es
Speaks st_in_number is_key stack es = Awaiting stack es
Speaks st_in_literal is_key stack es = Awaiting stack es

-- The root value is not seen yet, and the input goes on.
abbrev pub Unseen : Bool → Bool → Type 0
Unseen saw ended = (saw ≡ false) × (ended ≡ false)

-- The root value is seen in the last state alone.
abbrev pub SeenIn : State → Bool → Bool → Type 0
SeenIn st_end saw ended = (saw ≡ true) × (ended ≡ false)
SeenIn _ saw ended = Unseen saw ended

pub Settled-Speaks :
    (stack : List Context) (is_key : Bool) (es : List Event)
    → Settled stack es
    → Speaks (state_after stack) is_key stack es
Settled-Speaks [] is_key es h = (refl, h)
Settled-Speaks (ctx_array ∷ c) is_key es h = (c, refl, h)
Settled-Speaks (ctx_object ∷ c) is_key es h = (c, refl, h)

pub state_after-SeenIn :
    (stack : List Context) (saw ended : Bool)
    → Unseen saw ended
    → SeenIn (state_after stack) (is_root stack saw) ended
state_after-SeenIn [] saw ended h = (refl, h.1)
state_after-SeenIn (ctx_array ∷ c) saw ended h = h
state_after-SeenIn (ctx_object ∷ c) saw ended h = h

module _ {H : Type 0} (on : H → Event → H) (h₀ : H) where
  -- The handler has heard these events.
  abbrev pub Heard : H → List Event → Type 0
  Heard h es = h ≡ deliver on h₀ es

  pub Heard-next :
      (h : H) (es : List Event) (e : Event) → Heard h es → Heard (on h e) (es ++ e ∷ [])
  Heard-next h es e heard = ap (λ x. on x e) heard ∙ sym (deliver-append on h₀ es (e ∷ []))

module _ {D : TextDecoder} {H : Type 0} (on : H → Event → H) (h₀ : H) where
  -- The handler has heard the events of what is read so far.
  abbrev pub Said : Tokenizer D H → Type 0
  Said s =
      (es : List Event) × (s.handler ≡ deliver on h₀ es)
      × Speaks s.state s.string_is_key s.stack es
      × SeenIn s.state s.saw_root_value s.ended

  pub after_value-Said :
      (s : Tokenizer D H) (es : List Event)
      → s.handler ≡ deliver on h₀ es
      → Settled s.stack es
      → Unseen s.saw_root_value s.ended
      → Said (after_value s)
  unfolding after_value
  after_value-Said s es heard settled unseen = (
    es,
    heard,
    Settled-Speaks s.stack s.string_is_key es settled,
    state_after-SeenIn s.stack s.saw_root_value s.ended unseen,
  )
