-- ===== src/Builder/Progress.antt =====
-- The containers that the builder has open, by the events that it has heard.
use oaverify.Common.{ℕ, suc, ◌+◌, ◌≡◌, refl, false, List, [], ◌∷◌, ◌++◌, arith, Text, length}
use oaverify.Tokenizer.Grammar.{
  JsonText, TextItems, TextMembers, Emits, EmitsItems, EmitsMembers, Slices, Comma, deliver,
  deliver-append, no_comma, comma, no_slice, and_slice, null_event, boolean_event, number_event,
  string_events, array_events, object_events, no_items, more_items, no_members, more_members,
  Awaiting, Opened, at_root, in_array, at_key, open_array, open_object,
}
use oaverify.Tokenizer.{
  Event, on_key, on_start_array, on_start_object, on_end_array, on_end_object, on_string_start,
  on_string_end, on_string_chunk, Context,
}
use oaverify.Builder.{Builder, new_builder, handle, open_container, add}

-- The first builder has gone on to the second with as many containers open and no string begun.
abbrev Balanced : Builder → Builder → Type 0
Balanced b b' = (b'.opened + b.closed ≡ b.opened + b'.closed) × (b'.in_string ≡ false)

Balanced-append :
    (b : Builder) (es fs : List Event)
    → Balanced b (deliver handle b es)
    → Balanced (deliver handle b es) (deliver handle (deliver handle b es) fs)
    → Balanced b (deliver handle b (es ++ fs))
Balanced-append b es fs (h, idle) (k, idle') =
    rw (deliver-append handle b es fs) (omega (arith, h, k), idle')

-- Slices count no container, and a string stays begun.
pub Slices-level :
    {text : Text} {es : List Event} (b : Builder)
    → Slices text es
    → let b' = deliver handle b es in
      (b'.opened ≡ b.opened) × (b'.closed ≡ b.closed) × (b'.in_string ≡ b.in_string)
unfolding handle
Slices-level b no_slice = (refl, refl, refl)
Slices-level b (and_slice {es = es} chunk offset n end s) =
    rw (deliver-append handle b es (on_string_chunk chunk offset n end ∷ [])) (Slices-level b s)

name-Balanced :
    (b : Builder) (cs : List Event) (key : Text) (n start end : ℕ)
    → b.in_string ≡ false
    → Comma cs
    → Balanced b (deliver handle b (cs ++ on_key key n start end ∷ []))
unfolding handle
name-Balanced b cs key n start end idle no_comma = (refl, idle)
name-Balanced b cs key n start end idle (comma offset) = (refl, idle)

mutual
  unfolding handle open_container add

  Emits-Balanced :
      {j : JsonText} {es : List Event} (b : Builder)
      → b.in_string ≡ false
      → Emits j es
      → Balanced b (deliver handle b es)
  Emits-Balanced b idle (null_event start end) = (refl, idle)
  Emits-Balanced b idle (boolean_event v start end) = (refl, idle)
  Emits-Balanced b idle (number_event raw start end matches) = (refl, idle)
  Emits-Balanced b idle (string_events {es = es} offset n start end slices) =
      let b₁ = handle b (on_string_start offset) in
      let (h, k, same) = Slices-level b₁ slices in
      rw (deliver-append handle b₁ es (on_string_end n start end ∷ [])) (omega (arith, h, k), refl)
  Emits-Balanced b idle (array_events {es = es} start end e) =
      let b₁ = handle b (on_start_array start) in
      let (h, still) = EmitsItems-Balanced b₁ idle e in
      rw (deliver-append handle b₁ es (on_end_array end ∷ [])) (omega (arith, h), still)
  Emits-Balanced b idle (object_events {es = es} start end e) =
      let b₁ = handle b (on_start_object start) in
      let (h, still) = EmitsMembers-Balanced b₁ idle e in
      rw (deliver-append handle b₁ es (on_end_object end ∷ [])) (omega (arith, h), still)

  EmitsItems-Balanced :
      {items : TextItems} {es : List Event} (b : Builder)
      → b.in_string ≡ false
      → EmitsItems items es
      → Balanced b (deliver handle b es)
  EmitsItems-Balanced b idle no_items = (refl, idle)
  EmitsItems-Balanced b idle (more_items {es = es} {fs = fs} e e') =
      let first = EmitsItems-Balanced b idle e in
      Balanced-append b es fs first (Emits-Balanced (deliver handle b es) first.1 e')

  EmitsMembers-Balanced :
      {members : TextMembers} {es : List Event} (b : Builder)
      → b.in_string ≡ false
      → EmitsMembers members es
      → Balanced b (deliver handle b es)
  EmitsMembers-Balanced b idle no_members = (refl, idle)
  EmitsMembers-Balanced b idle (more_members {es = es} {cs = cs} {fs = fs} key n start end e c e') =
      let named = cs ++ on_key key n start end ∷ [] in
      let first = EmitsMembers-Balanced b idle e in
      let second =
        Balanced-append b es named first
          (name-Balanced (deliver handle b es) cs key n start end first.1 c) in
      Balanced-append b (es ++ named) fs second
        (Emits-Balanced (deliver handle b (es ++ named)) second.1 e')

-- As many containers are open as the tokenizer has on its stack.
abbrev pub Level : ℕ → Builder → Type 0
Level n b = (b.opened ≡ b.closed + n) × (b.in_string ≡ false)

Level-Balanced :
    (n : ℕ) (b : Builder) (fs : List Event)
    → Level n b
    → Balanced b (deliver handle b fs)
    → Level n (deliver handle b fs)
Level-Balanced n b fs (h, idle) (k, idle') = (omega (arith, h, k), idle')

mutual
  unfolding handle open_container add

  pub Awaiting-Level :
      {stack : List Context} {es : List Event}
      → Awaiting stack es
      → Level (length stack) (deliver handle new_builder es)
  Awaiting-Level at_root = (refl, refl)
  Awaiting-Level (in_array o) = Opened-Level o
  Awaiting-Level (at_key {stack = stack} {es = es} {cs = cs} key n start end o c) =
      let level = Opened-Level o in
      rw (deliver-append handle new_builder es (cs ++ on_key key n start end ∷ [])) (
        Level-Balanced (suc (length stack)) (deliver handle new_builder es)
          (cs ++ on_key key n start end ∷ []) level
          (name-Balanced (deliver handle new_builder es) cs key n start end level.1 c))

  pub Opened-Level :
      {stack : List Context} {es : List Event}
      → Opened stack es
      → Level (length stack) (deliver handle new_builder es)
  Opened-Level (open_array {stack = stack} {es = es} {fs = fs} start w e) =
      let (h, idle) = Awaiting-Level w in
      let b = deliver handle new_builder es in
      rw (deliver-append handle new_builder es (on_start_array start ∷ fs)) (
        Level-Balanced (suc (length stack)) (handle b (on_start_array start)) fs
          (omega (arith, h), idle) (EmitsItems-Balanced (handle b (on_start_array start)) idle e))
  Opened-Level (open_object {stack = stack} {es = es} {fs = fs} start w e) =
      let (h, idle) = Awaiting-Level w in
      let b = deliver handle new_builder es in
      rw (deliver-append handle new_builder es (on_start_object start ∷ fs)) (
        Level-Balanced (suc (length stack)) (handle b (on_start_object start)) fs
          (omega (arith, h), idle)
          (EmitsMembers-Balanced (handle b (on_start_object start)) idle e))
