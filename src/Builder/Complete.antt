-- ===== src/Builder/Complete.antt =====
-- When the builder is complete while the tokenizer runs.
use oaverify.Common.{
  ℕ, suc, ◌≡◌, ◌≢◌, ◌↔◌, refl, Bool, true, false, Option, List, [], ◌∷◌, ◌++◌, arith, length,
  append-nil, ◌==◌,
}
use oaverify.Tokenizer.Grammar.{
  Comma, deliver, deliver-append, no_comma, comma, Awaiting, Opened, at_root,
}
use oaverify.Tokenizer.Grammar.Said.{Body, AtKey, InArray, InObject, InText, Speaks, Said}
use oaverify.Tokenizer.Grammar.Loop.{feed-Said}
use oaverify.Tokenizer.Outcomes.{Yields_done}
use oaverify.Tokenizer.Machine.{new_tokenizer}
use oaverify.Tokenizer.Loop.{feed}
use oaverify.Tokenizer.{
  silent, Event, on_string_start, Context, ctx_array, ctx_object, State, st_value,
  st_value_or_end_array, st_key_or_end_object, st_key, st_colon, st_comma_or_end_array,
  st_comma_or_end_object, st_end, st_in_string, st_in_string_escape, st_in_string_unicode,
  st_in_number, st_in_literal, TextDecoder, Tokenizer, done,
}
use oaverify.Builder.{Builder, new_builder, complete, handle}
use oaverify.Builder.Rebuild.{deliver-Emits}
use oaverify.Builder.Progress.{Slices-level, Level, Awaiting-Level, Opened-Level}

Level-complete : (n : ℕ) (b : Builder) → Level (suc n) b → complete b ≡ false
unfolding complete
Level-complete n b (h, idle) =
    let apart : (b.opened == b.closed) ≡ false = ground arith in ground (arith, apart)

Awaiting-complete :
    (stack : List Context) (es : List Event)
    → Awaiting stack es
    → complete (deliver handle new_builder es) ≡ false
unfolding complete
Awaiting-complete [] es at_root = refl
Awaiting-complete (c ∷ stack) es w =
    Level-complete (length stack) (deliver handle new_builder es) (Awaiting-Level w)

Opened-complete :
    (stack c : List Context) (top : Context) (es : List Event)
    → Opened (top ∷ c) es
    → complete (deliver handle new_builder es) ≡ false
Opened-complete stack c top es o =
    Level-complete (length c) (deliver handle new_builder es) (Opened-Level o)

Comma-complete :
    (gs cs : List Event)
    → Comma cs
    → complete (deliver handle new_builder gs) ≡ false
    → complete (deliver handle new_builder (gs ++ cs)) ≡ false
unfolding handle
Comma-complete gs [] no_comma h = rw (append-nil gs) h
Comma-complete gs cs (comma offset) h = rw (deliver-append handle new_builder gs cs) h

AtKey-complete :
    (stack : List Context) (es : List Event)
    → AtKey stack es
    → complete (deliver handle new_builder es) ≡ false
unfolding handle
AtKey-complete stack es (gs, cs, (c, top, o), sep, split) =
    let before = Opened-complete stack c ctx_object gs o in
    rw split (Comma-complete gs cs sep before)

in_string-complete : (b : Builder) → b.in_string ≡ true → complete b ≡ false
unfolding complete
in_string-complete b h = ground arith

InText-complete :
    (stack : List Context) (es : List Event)
    → InText stack es
    → complete (deliver handle new_builder es) ≡ false
unfolding handle complete
InText-complete stack es (gs, fs, text, offset, w, slices, split) =
    let b = deliver handle new_builder gs in
    let (h, k, same) = Slices-level (handle b (on_string_start offset)) slices in
    rw (split, deliver-append handle new_builder gs (on_string_start offset ∷ fs))
      (in_string-complete (deliver handle (handle b (on_string_start offset)) fs) same)

InArray-complete :
    (stack : List Context) (es : List Event)
    → InArray stack es
    → complete (deliver handle new_builder es) ≡ false
InArray-complete stack es (c, top, o) = Opened-complete stack c ctx_array es o

InObject-complete :
    (stack : List Context) (es : List Event)
    → InObject stack es
    → complete (deliver handle new_builder es) ≡ false
InObject-complete stack es (c, top, o) = Opened-complete stack c ctx_object es o

Body-complete :
    (is_key : Bool) (stack : List Context) (es : List Event)
    → Body is_key stack es
    → complete (deliver handle new_builder es) ≡ false
Body-complete true stack es h = AtKey-complete stack es h
Body-complete false stack es h = InText-complete stack es h

not_yet :
    (state : State) (b : Builder)
    → complete b ≡ false
    → state ≢ st_end
    → (complete b ≡ true) ↔ (state ≡ st_end)
not_yet state b h k = ((λ e. cc), (λ e. absurd (k e)))

Speaks-complete :
    (state : State) (is_key : Bool) (stack : List Context) (es : List Event)
    → Speaks state is_key stack es
    → (complete (deliver handle new_builder es) ≡ true) ↔ (state ≡ st_end)
Speaks-complete st_value is_key stack es h =
    not_yet st_value (deliver handle new_builder es) (Awaiting-complete stack es h) (λ e. cc)
Speaks-complete st_value_or_end_array is_key stack es h =
    not_yet st_value_or_end_array (deliver handle new_builder es) (InArray-complete stack es h)
      (λ e. cc)
Speaks-complete st_key_or_end_object is_key stack es h =
    not_yet st_key_or_end_object (deliver handle new_builder es) (InObject-complete stack es h)
      (λ e. cc)
Speaks-complete st_key is_key stack es h =
    not_yet st_key (deliver handle new_builder es) (AtKey-complete stack es h) (λ e. cc)
Speaks-complete st_colon is_key stack es h =
    not_yet st_colon (deliver handle new_builder es) (Awaiting-complete stack es h) (λ e. cc)
Speaks-complete st_comma_or_end_array is_key stack es h =
    not_yet st_comma_or_end_array (deliver handle new_builder es) (InArray-complete stack es h)
      (λ e. cc)
Speaks-complete st_comma_or_end_object is_key stack es h =
    not_yet st_comma_or_end_object (deliver handle new_builder es) (InObject-complete stack es h)
      (λ e. cc)
Speaks-complete st_in_string is_key stack es h =
    not_yet st_in_string (deliver handle new_builder es) (Body-complete is_key stack es h) (λ e. cc)
Speaks-complete st_in_string_escape is_key stack es h =
    not_yet st_in_string_escape (deliver handle new_builder es) (Body-complete is_key stack es h)
      (λ e. cc)
Speaks-complete st_in_string_unicode is_key stack es h =
    not_yet st_in_string_unicode (deliver handle new_builder es) (Body-complete is_key stack es h)
      (λ e. cc)
Speaks-complete st_in_number is_key stack es h =
    not_yet st_in_number (deliver handle new_builder es) (Awaiting-complete stack es h) (λ e. cc)
Speaks-complete st_in_literal is_key stack es h =
    not_yet st_in_literal (deliver handle new_builder es) (Awaiting-complete stack es h) (λ e. cc)
Speaks-complete st_end is_key stack es (bottom, settled) =
    let (j, emits) = settled in
    let (whole, root) = deliver-Emits j es emits in ((λ e. refl), (λ e. whole))

-- Between the writes to a new tokenizer that drives a new builder, whatever the chunks and the
-- decoder, the builder is complete exactly where the tokenizer has read a whole value and awaits
-- the end of its input: never inside a string, a container, or a number at the root.
pub complete-feed_iff :
    (D : TextDecoder) (strict : Bool) (max_key_bytes max_number_bytes : Option ℕ)
    (chunks : List (List ℕ)) (s : Tokenizer D Builder)
    → feed
        (silent handle)
        (new_tokenizer D new_builder strict max_key_bytes max_number_bytes)
        chunks
      ≡ done s
    → (complete s.handler ≡ true) ↔ (s.state ≡ st_end)
complete-feed_iff D strict max_key_bytes max_number_bytes chunks s returned =
    let start = new_tokenizer D new_builder strict max_key_bytes max_number_bytes in
    let (es, heard, speaks, seen) =
      Yields_done (Said handle new_builder) (feed (silent handle) start chunks) s
        (feed-Said (silent handle) new_builder start chunks ([], refl, at_root, (refl, refl)))
        returned in
    rw heard (Speaks-complete s.state s.string_is_key s.stack es speaks)
