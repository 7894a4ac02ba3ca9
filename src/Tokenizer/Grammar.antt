-- ===== src/Tokenizer/Grammar.antt =====
-- JSON values and the events that stand for them, whole or begun.
pub mod Settled
pub mod Said
pub mod Bodies
pub mod Strings
pub mod Steps
pub mod Turns
pub mod Loop
use oaverify.Common.{ℕ, ◌≡◌, refl, ap, Bool, true, false, List, [], ◌∷◌, ◌++◌, Text}
use oaverify.Tokenizer.Bytes.{number_re}
use oaverify.Tokenizer.{
  Event, on_start_object, on_end_object, on_start_array, on_end_array, on_key, on_member_comma,
  on_string_start, on_string_chunk, on_string_end, on_number, on_boolean, on_null, Context,
  ctx_object, ctx_array,
}

-- A JSON value, as the text gives it: a number is its literal, names may repeat, and items and
-- members stand in the order of the text, the last one outermost.
mutual
  pub data JsonText : Type 0 where
    null : JsonText
    boolean : Bool → JsonText
    number : Text → JsonText
    string : Text → JsonText
    array : TextItems → JsonText
    object : TextMembers → JsonText

  pub data TextItems : Type 0 where
    no_item : TextItems
    and_item : TextItems → JsonText → TextItems

  pub data TextMembers : Type 0 where
    no_member : TextMembers
    and_member : TextMembers → Text → JsonText → TextMembers

-- The slices of a string.
pub data Slices : Text → List Event → Type 0 where
  no_slice : Slices [] []
  and_slice :
      {text : Text} {es : List Event} (chunk : Text) (offset code_points end : ℕ)
      → Slices text es
      → Slices (text ++ chunk) (es ++ on_string_chunk chunk offset code_points end ∷ [])

-- At most one report of a comma.
pub data Comma : List Event → Type 0 where
  no_comma : Comma []
  comma : (offset : ℕ) → Comma (on_member_comma offset ∷ [])

-- The events of a value, with any offsets and counts of code points.
mutual
  pub data Emits : JsonText → List Event → Type 0 where
    null_event : (start end : ℕ) → Emits null (on_null start end ∷ [])
    boolean_event : (b : Bool) (start end : ℕ) → Emits (boolean b) (on_boolean b start end ∷ [])
    number_event :
        (raw : Text) (start end : ℕ)
        → number_re raw ≡ true
        → Emits (number raw) (on_number raw start end ∷ [])
    string_events :
        {text : Text} {es : List Event} (offset code_points start end : ℕ)
        → Slices text es
        → Emits
            (string text)
            (on_string_start offset ∷ es ++ on_string_end code_points start end ∷ [])
    array_events :
        {items : TextItems} {es : List Event} (start end : ℕ)
        → EmitsItems items es
        → Emits (array items) (on_start_array start ∷ es ++ on_end_array end ∷ [])
    object_events :
        {members : TextMembers} {es : List Event} (start end : ℕ)
        → EmitsMembers members es
        → Emits (object members) (on_start_object start ∷ es ++ on_end_object end ∷ [])

  pub data EmitsItems : TextItems → List Event → Type 0 where
    no_items : EmitsItems no_item []
    more_items :
        {items : TextItems} {item : JsonText} {es fs : List Event}
        → EmitsItems items es
        → Emits item fs
        → EmitsItems (and_item items item) (es ++ fs)

  pub data EmitsMembers : TextMembers → List Event → Type 0 where
    no_members : EmitsMembers no_member []
    more_members :
        {members : TextMembers} {value : JsonText} {es cs fs : List Event} (key : Text)
        (code_points start end : ℕ)
        → EmitsMembers members es
        → Comma cs
        → Emits value fs
        → EmitsMembers
            (and_member members key value)
            ((es ++ (cs ++ on_key key code_points start end ∷ [])) ++ fs)

-- The events of a text that is read in part, inside these containers: where a value is awaited, and
-- where the innermost container is open, between its items or members.
mutual
  pub data Awaiting : List Context → List Event → Type 0 where
    at_root : Awaiting [] []
    in_array :
        {stack : List Context} {es : List Event}
        → Opened (ctx_array ∷ stack) es
        → Awaiting (ctx_array ∷ stack) es
    at_key :
        {stack : List Context} {es cs : List Event} (key : Text) (code_points start end : ℕ)
        → Opened (ctx_object ∷ stack) es
        → Comma cs
        → Awaiting (ctx_object ∷ stack) (es ++ (cs ++ on_key key code_points start end ∷ []))

  pub data Opened : List Context → List Event → Type 0 where
    open_array :
        {stack : List Context} {es fs : List Event} {items : TextItems} (start : ℕ)
        → Awaiting stack es
        → EmitsItems items fs
        → Opened (ctx_array ∷ stack) (es ++ on_start_array start ∷ fs)
    open_object :
        {stack : List Context} {es fs : List Event} {members : TextMembers} (start : ℕ)
        → Awaiting stack es
        → EmitsMembers members fs
        → Opened (ctx_object ∷ stack) (es ++ on_start_object start ∷ fs)

-- The events after a value: of the whole text, or inside its container.
abbrev pub Settled : List Context → List Event → Type 0
Settled [] es = (value : JsonText) × Emits value es
Settled (c ∷ stack) es = Opened (c ∷ stack) es

-- A handler that is told the events in their order.
abbrev pub deliver : {H : Type 0} → (H → Event → H) → H → List Event → H
deliver on h [] = h
deliver on h (e ∷ es) = deliver on (on h e) es

pub deliver-append :
    {H : Type 0} (on : H → Event → H) (h : H) (es fs : List Event)
    → deliver on h (es ++ fs) ≡ deliver on (deliver on h es) fs
deliver-append on h [] fs = refl
deliver-append on h (e ∷ es) fs = deliver-append on (on h e) es fs
