-- ===== src/Tokenizer/Grammar/Settled.antt =====
-- A value that is awaited settles its place.
use oaverify.Common.{ℕ, ◌≡◌, sym, ap, ◌∙◌, subst, List, [], ◌∷◌, ◌++◌, append_assoc}
use oaverify.Tokenizer.Grammar.{
  JsonText, Emits, Awaiting, Opened, Settled, at_root, in_array, at_key, open_array, open_object,
  more_items, more_members, array_events, object_events, array, object,
}
use oaverify.Tokenizer.{
  Event, on_start_object, on_end_object, on_start_array, on_end_array, on_key, Context, ctx_object,
  ctx_array,
}

pub Awaiting-Settled :
    (stack : List Context) (es fs : List Event) (value : JsonText)
    → Awaiting stack es
    → Emits value fs
    → Settled stack (es ++ fs)
Awaiting-Settled [] es fs value at_root e = (value, e)
Awaiting-Settled (ctx_array ∷ stack) es fs value
      (in_array (open_array {es = gs} {fs = hs} start w items)) e =
    subst (Opened (ctx_array ∷ stack)) (sym (append_assoc gs (on_start_array start ∷ hs) fs))
      (open_array start w (more_items items e))
Awaiting-Settled (ctx_object ∷ stack) es fs value
      (at_key {cs = cs} key n start end (open_object {es = gs} {fs = hs} begin w members) c) e =
    let own = cs ++ on_key key n start end ∷ [] in
    let split : ((gs ++ on_start_object begin ∷ hs) ++ own) ++ fs
        ≡ gs ++ (on_start_object begin ∷ ((hs ++ own) ++ fs)) =
      ap (λ xs. xs ++ fs) (append_assoc gs (on_start_object begin ∷ hs) own)
      ∙ append_assoc gs (on_start_object begin ∷ (hs ++ own)) fs in
    subst (Opened (ctx_object ∷ stack)) (sym split)
      (open_object begin w (more_members key n start end members c e))

pub close_array-Settled :
    (stack : List Context) (es : List Event) (end : ℕ)
    → Opened (ctx_array ∷ stack) es
    → Settled stack (es ++ on_end_array end ∷ [])
close_array-Settled stack es end (open_array {es = gs} {fs = hs} {items = items} start w i) =
    subst (Settled stack)
      (sym (append_assoc gs (on_start_array start ∷ hs) (on_end_array end ∷ [])))
      (Awaiting-Settled stack gs _ (array items) w (array_events start end i))

pub close_object-Settled :
    (stack : List Context) (es : List Event) (end : ℕ)
    → Opened (ctx_object ∷ stack) es
    → Settled stack (es ++ on_end_object end ∷ [])
close_object-Settled stack es end (open_object {es = gs} {fs = hs} {members = members} start w i) =
    subst (Settled stack)
      (sym (append_assoc gs (on_start_object start ∷ hs) (on_end_object end ∷ [])))
      (Awaiting-Settled stack gs _ (object members) w (object_events start end i))
