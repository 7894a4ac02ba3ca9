-- ===== src/Builder/Rebuild.antt =====
-- Rebuilding a value from its events, and from the tokenizer's.
use oaverify.Common.{
  ℕ, suc, ◌≡◌, refl, sym, subst, ap, ◌∙◌, true, false, Option, some, List, [], ◌∷◌, ◌++◌, arith,
  Text, length, ◌==◌,
}
use oaverify.Tokenizer.Grammar.{
  JsonText, TextItems, TextMembers, null, boolean, number, string, array, object, no_item, and_item,
  no_member, and_member, Emits, EmitsItems, EmitsMembers, Slices, deliver, deliver-append,
  null_event, boolean_event, number_event, string_events, array_events, object_events, no_items,
  more_items, no_members, more_members,
}
use oaverify.Tokenizer.{Event, on_key, on_end_array, on_end_object, on_string_start, on_string_end}
use oaverify.Tokenizer.{Tokenizer}
use oaverify.Tokenizer.Loop.{end}
use oaverify.Builder.{
  BuiltValue, null_value, boolean_value, number_value, string_value, Cell, object_cell, array_cell,
  set_entry, Builder, Frame, new_builder, complete, put, handle, open_container,
}
use oaverify.Builder.Denotes.{
  Denotes, no_values, more_values, no_entries, DenotesEntries, is_null, is_boolean, is_number,
  is_string, is_array, is_object, KeepsFrom, DenotesItems-keep, DenotesEntries-keep,
  set_entry-DenotesEntries, own,
}
use oaverify.Builder.Values.{
  Adds, Filling, FitsItems, FitsMembers, Slices-deliver, next_value, TopIn, open_container-Filling,
  close_container-Adds, Filling-TopIn, scalar-Adds, name_top-Filling,
}

string-Adds :
    {text : Text} {es : List Event} (b : Builder) (offset n start end : ℕ)
    → Slices text es
    → Adds b
        (string text)
        (deliver handle b (on_string_start offset ∷ es ++ on_string_end n start end ∷ []))
unfolding handle
string-Adds {text} {es} b offset n start end slices =
    let begun = record b { started = true; in_string = true; cur_string = [] } in
    subst (Adds b (string text))
      (sym (
        deliver-append handle begun es (on_string_end n start end ∷ [])
        ∙ ap (λ x. handle x (on_string_end n start end)) (Slices-deliver begun slices)))
      (record {
        value = string_value text;
        denotes = is_string text;
        extends = λ i x h e. e;
        same_stack = refl;
        new_root = refl;
        has_started = refl;
        idle = refl;
        balance = refl;
      })

next_item :
    {h h' : List Cell} {n : ℕ} {items : TextItems} {j : JsonText} (key : Option Text)
    (v : BuiltValue) (cell : Cell)
    → FitsItems n items h cell
    → KeepsFrom (suc n) h h'
    → Denotes h' (suc n) v j
    → FitsItems n (and_item items j) h' (put key v cell)
unfolding put
next_item key v cell (values, e, ds) keeps d =
    (values ++ v ∷ [], ap (put key v) e, more_values (DenotesItems-keep keeps (omega arith) ds) d)

next_member :
    {h h' : List Cell} {n : ℕ} {j : JsonText} (members : TextMembers) (name : Option Text)
    (key : Text) (v : BuiltValue) (cell : Cell)
    → name ≡ some key
    → FitsMembers n members h cell
    → KeepsFrom (suc n) h h'
    → Denotes h' (suc n) v j
    → FitsMembers n (and_member members key j) h' (put name v cell)
unfolding put own
next_member members name key v cell named (entries, e, ds) keeps d = (
  set_entry entries key v,
  rw (named, e) refl,
  set_entry-DenotesEntries key (DenotesEntries-keep keeps (omega arith) ds) d,
)

no_own_entries : {h : List Cell} {lo : ℕ} → DenotesEntries h lo [] (own no_member)
unfolding own
no_own_entries = no_entries

mutual
  unfolding handle

  -- Whatever the builder held, the events of a value add that value to it.
  pub Emits-Adds :
      {j : JsonText} {es : List Event} (b : Builder)
      → TopIn b.stack b.heap
      → b.in_string ≡ false
      → Emits j es
      → Adds b j (deliver handle b es)
  Emits-Adds b top idle (null_event start end) = scalar-Adds b null_value null idle (λ h. is_null)
  Emits-Adds b top idle (boolean_event v start end) =
      scalar-Adds b (boolean_value v) (boolean v) idle (λ h. is_boolean v)
  Emits-Adds b top idle (number_event raw start end matches) =
      scalar-Adds b (number_value raw) (number raw) idle (λ h. is_number raw)
  Emits-Adds b top idle (string_events offset n start end slices) =
      string-Adds b offset n start end slices
  Emits-Adds b top idle (array_events {items = items} {es = es} start end e) =
      let n = length b.heap in
      let b₁ = open_container b (array_cell []) in
      let f =
        EmitsItems-Filling b₁ n b.stack
          (open_container-Filling b (array_cell []) (FitsItems n no_item) top idle
            (λ h. ([], refl, no_values)))
          e in
      let (values, same, ds) = f.fits in
      subst (Adds b (array items)) (sym (deliver-append handle b₁ es (on_end_array end ∷ []))) (
        close_container-Adds b (array_cell []) (FitsItems n items) (array items)
          (deliver handle b₁ es) top f (is_array (omega arith) (f.here ∙ ap some same) ds))
  Emits-Adds b top idle (object_events {members = members} {es = es} start end e) =
      let n = length b.heap in
      let b₁ = open_container b (object_cell []) in
      let f =
        EmitsMembers-Filling b₁ n b.stack
          (open_container-Filling b (object_cell []) (FitsMembers n no_member) top idle
            (λ h. ([], refl, no_own_entries)))
          e in
      let (entries, same, ds) = f.fits in
      subst (Adds b (object members)) (sym (deliver-append handle b₁ es (on_end_object end ∷ []))) (
        close_container-Adds b (object_cell []) (FitsMembers n members) (object members)
          (deliver handle b₁ es) top f (is_object (omega arith) (f.here ∙ ap some same) ds))

  EmitsItems-Filling :
      {items : TextItems} {es : List Event} (b₁ : Builder) (n : ℕ) (rest : List Frame)
      → Filling n (FitsItems n no_item) rest b₁ b₁
      → EmitsItems items es
      → Filling n (FitsItems n items) rest b₁ (deliver handle b₁ es)
  EmitsItems-Filling b₁ n rest f no_items = f
  EmitsItems-Filling b₁ n rest f (more_items {items = items} {item = j} {es = es} {fs = fs} e e') =
      let b = deliver handle b₁ es in
      let g = EmitsItems-Filling b₁ n rest f e in
      let built = Emits-Adds b (Filling-TopIn n (FitsItems n items) rest b₁ b g) g.idle e' in
      subst (Filling n (FitsItems n (and_item items j)) rest b₁)
        (sym (deliver-append handle b₁ es fs))
        (next_value n (FitsItems n items) (FitsItems n (and_item items j)) rest b₁ b
          (deliver handle b fs) j g built (λ v keeps d. next_item g.key v g.cell g.fits keeps d))

  EmitsMembers-Filling :
      {members : TextMembers} {es : List Event} (b₁ : Builder) (n : ℕ) (rest : List Frame)
      → Filling n (FitsMembers n no_member) rest b₁ b₁
      → EmitsMembers members es
      → Filling n (FitsMembers n members) rest b₁ (deliver handle b₁ es)
  EmitsMembers-Filling b₁ n rest f no_members = f
  EmitsMembers-Filling b₁ n rest f
        (more_members {members = members} {value = j} {es = es} {cs = cs} {fs = fs} key count start
          end e c e') =
      let named = cs ++ on_key key count start end ∷ [] in
      let b = deliver handle b₁ es in
      let (g, is_key) =
        name_top-Filling n (FitsMembers n members) rest b₁ b cs key count start end
          (EmitsMembers-Filling b₁ n rest f e) c in
      let b' = deliver handle b named in
      let built = Emits-Adds b' (Filling-TopIn n (FitsMembers n members) rest b₁ b' g) g.idle e' in
      subst (Filling n (FitsMembers n (and_member members key j)) rest b₁)
        (sym (
          deliver-append handle b₁ (es ++ named) fs
          ∙ ap (λ x. deliver handle x fs) (deliver-append handle b₁ es named)))
        (next_value n (FitsMembers n members) (FitsMembers n (and_member members key j)) rest b₁ b'
          (deliver handle b' fs) j g built
          (λ v keeps d. next_member members g.key key v g.cell is_key g.fits keeps d))

pub deliver-Emits :
    (j : JsonText) (es : List Event)
    → Emits j es
    → let b = deliver handle new_builder es in
      (complete b ≡ true) × ((v : BuiltValue) × (b.root ≡ some v) × Denotes b.heap 0 v j)
unfolding complete
deliver-Emits j es e =
    let b = deliver handle new_builder es in
    let built = Emits-Adds new_builder tt refl e in
    let balanced : (b.opened == b.closed) ≡ true = ground (arith, built.balance) in
    (
      rw (built.has_started, balanced, built.idle) refl,
      (built.value, built.new_root, built.denotes),
    )
