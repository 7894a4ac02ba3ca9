-- ===== src/Builder/Values.antt =====
-- The builder inside a container that it has opened.
use oaverify.Common.{
  ℕ, suc, ◌+◌, ◌≤◌, ◌<◌, ◌≡◌, ◌≢◌, refl, sym, ap, ◌∙◌, true, false, Option, none, some, List, [],
  ◌∷◌, ◌++◌, arith, Text, length, get_elem?, append-nil, append_assoc,
}
use oaverify.Tokenizer.Grammar.{
  JsonText, TextItems, TextMembers, Slices, Comma, deliver, deliver-append, no_comma, comma,
  no_slice, and_slice,
}
use oaverify.Tokenizer.{Event, on_key, on_string_chunk}
use oaverify.Tokenizer.Loop.{end}
use oaverify.Builder.{
  BuiltValue, container, Cell, object_cell, array_cell, modify, Builder, Frame, add, put, handle,
  heap_after, root_after, open_container, close_container, pop_frame, name_top,
}
use oaverify.Builder.Denotes.{
  Denotes, DenotesItems, DenotesEntries, KeepsFrom, Denotes-keep, own, get_elem?-modify_same,
  get_elem?-modify_other, length-modify, get_elem?-lt, get_elem?-append, get_elem?-append_last,
  modify-append,
}

-- The builder past a value: as `add` leaves it, with more cells.
pub record Adds (b : Builder) (j : JsonText) (b' : Builder) : Type 0 where
  pub value : BuiltValue
  pub denotes : Denotes b'.heap (length b.heap) value j
  pub extends : KeepsFrom 0 (heap_after b.stack value b.heap) b'.heap
  pub same_stack : b'.stack ≡ b.stack
  pub new_root : b'.root ≡ root_after b.stack value b.root
  pub has_started : b'.started ≡ true
  pub idle : b'.in_string ≡ false
  pub balance : b'.opened + b.closed ≡ b.opened + b'.closed

-- The builder inside a container that it opened in the state `b₁`, at the cell `n`.
pub record Filling (n : ℕ) (Fits : List Cell → Cell → Type 0) (rest : List Frame) (b₁ b : Builder)
    : Type 0 where
  pub key : Option Text
  pub cell : Cell
  pub here : get_elem? b.heap n ≡ some cell
  pub fits : Fits b.heap cell
  pub kept : (i : ℕ) (x : Cell) → i < n → get_elem? b₁.heap i ≡ some x → get_elem? b.heap i ≡ some x
  pub on_top : b.stack ≡ record { at = n; key = key } ∷ rest
  pub same_root : b.root ≡ b₁.root
  pub has_started : b.started ≡ true
  pub idle : b.in_string ≡ false
  pub balance : b.opened + b₁.closed ≡ b₁.opened + b.closed

abbrev pub FitsItems : ℕ → TextItems → List Cell → Cell → Type 0
FitsItems n items h cell =
    (values : List BuiltValue) × (cell ≡ array_cell values) × DenotesItems h (suc n) values items

abbrev pub FitsMembers : ℕ → TextMembers → List Cell → Cell → Type 0
FitsMembers n members h cell =
    (entries : List (Text × BuiltValue)) × (cell ≡ object_cell entries)
    × DenotesEntries h (suc n) entries (own members)

-- Slices change the current string alone.
pub Slices-deliver :
    {text : Text} {es : List Event} (b : Builder)
    → Slices text es
    → deliver handle b es ≡ record b { cur_string = b.cur_string ++ text }
unfolding handle
Slices-deliver b no_slice = ap (λ t. record b { cur_string = t }) (sym (append-nil b.cur_string))
Slices-deliver b (and_slice {text = text} {es = es} chunk offset n end s) =
    deliver-append handle b es (on_string_chunk chunk offset n end ∷ [])
    ∙ ap (λ x. handle x (on_string_chunk chunk offset n end)) (Slices-deliver b s)
    ∙ ap (λ t. record b { cur_string = t }) (append_assoc b.cur_string text chunk)

-- What the next value does to the open container.
pub next_value :
    (n : ℕ) (Fits Next : List Cell → Cell → Type 0) (rest : List Frame) (b₁ b b' : Builder)
    (j : JsonText)
    → (f : Filling n Fits rest b₁ b) → Adds b j b'
    → ((v : BuiltValue)
        → KeepsFrom (suc n) b.heap b'.heap
        → Denotes b'.heap (suc n) v j
        → Next b'.heap (put f.key v f.cell))
    → Filling n Next rest b₁ b'
next_value n Fits Next rest b₁ b b' j f built next =
    let v = built.value in
    let extends : KeepsFrom 0 (modify n (put f.key v) b.heap) b'.heap =
      rw f.on_top at built.extends in
    let other : (i : ℕ) (x : Cell)
        → i ≢ n
        → get_elem? b.heap i ≡ some x
        → get_elem? b'.heap i ≡ some x =
      λ i x ne e.
        extends i x (omega arith) (get_elem?-modify_other b.heap n i (put f.key v) ne ∙ e) in
    let inside : suc n ≤ length b.heap = get_elem?-lt b.heap n f.cell f.here in
    record {
      key = f.key;
      cell = put f.key v f.cell;
      here =
          extends n (put f.key v f.cell) (omega arith)
            (get_elem?-modify_same b.heap n (put f.key v) f.cell f.here);
      fits =
          next v (λ i x h e. other i x (λ e. omega arith) e)
            (Denotes-keep (λ i x h e. e) inside built.denotes);
      kept = λ i x h e. other i x (λ e. omega arith) (f.kept i x h e);
      on_top = built.same_stack ∙ f.on_top;
      same_root = rw f.on_top at built.new_root ∙ f.same_root;
      has_started = built.has_started;
      idle = built.idle;
      balance = omega (arith, built.balance, f.balance);
    }

-- The container on top stands in the heap.
abbrev pub TopIn : List Frame → List Cell → Type 0
TopIn [] h = Unit
TopIn (top ∷ stack) h = top.at < length h

heap_after-append :
    (stack : List Frame) (v : BuiltValue) (h : List Cell) (c : Cell)
    → TopIn stack h
    → heap_after stack v (h ++ c ∷ []) ≡ heap_after stack v h ++ c ∷ []
heap_after-append [] v h c lt = refl
heap_after-append (top ∷ stack) v h c lt = modify-append h top.at (put top.key v) c lt

length-heap_after :
    (stack : List Frame) (v : BuiltValue) (h : List Cell) → length (heap_after stack v h) ≡ length h
length-heap_after [] v h = refl
length-heap_after (top ∷ stack) v h = length-modify h top.at (put top.key v)

-- An empty container on top of the stack.
pub open_container-Filling :
    (b : Builder) (cell : Cell) (Fits : List Cell → Cell → Type 0)
    → TopIn b.stack b.heap
    → b.in_string ≡ false
    → ((h : List Cell) → Fits h cell)
    → Filling (length b.heap) Fits b.stack (open_container b cell) (open_container b cell)
unfolding open_container
open_container-Filling b cell Fits top idle fits = record {
  key = none;
  cell = cell;
  here =
      let v = container (length b.heap) in
      rw (heap_after-append b.stack v b.heap cell top) (
        rw (length-heap_after b.stack v b.heap) at
          (get_elem?-append_last (heap_after b.stack v b.heap) cell));
  fits = fits (open_container b cell).heap;
  kept = λ i x h e. e;
  on_top = refl;
  same_root = refl;
  has_started = refl;
  idle = idle;
  balance = refl;
}

-- The container that is closed is the value.
pub close_container-Adds :
    (b : Builder) (cell : Cell) (Fits : List Cell → Cell → Type 0) (j : JsonText) (b' : Builder)
    → TopIn b.stack b.heap
    → (f : Filling (length b.heap) Fits b.stack (open_container b cell) b')
    → Denotes b'.heap (length b.heap) (container (length b.heap)) j
    → Adds b j (close_container b')
unfolding open_container
close_container-Adds b cell Fits j b' top f denotes = record {
  value = container (length b.heap);
  denotes = denotes;
  extends =
      let v = container (length b.heap) in
      λ i x h e.
        f.kept i x
          (omega (
            arith,
            get_elem?-lt (heap_after b.stack v b.heap) i x e,
            length-heap_after b.stack v b.heap,
          ))
          (rw (heap_after-append b.stack v b.heap cell top)
            (get_elem?-append (heap_after b.stack v b.heap) cell i x e));
  same_stack = ap pop_frame f.on_top;
  new_root = f.same_root;
  has_started = f.has_started;
  idle = f.idle;
  balance = omega (arith, f.balance);
}

pub Filling-TopIn :
    (n : ℕ) (Fits : List Cell → Cell → Type 0) (rest : List Frame) (b₁ b : Builder)
    → Filling n Fits rest b₁ b
    → TopIn b.stack b.heap
Filling-TopIn n Fits rest b₁ b f = rw f.on_top (get_elem?-lt b.heap n f.cell f.here)

-- A value that is no container.
pub scalar-Adds :
    (b : Builder) (v : BuiltValue) (j : JsonText)
    → b.in_string ≡ false
    → ((h : List Cell) → Denotes h (length b.heap) v j)
    → Adds b j (add (record b { started = true }) v)
unfolding add
scalar-Adds b v j idle denotes = record {
  value = v;
  denotes = denotes (heap_after b.stack v b.heap);
  extends = λ i x h e. e;
  same_stack = refl;
  new_root = refl;
  has_started = refl;
  idle = idle;
  balance = refl;
}

-- The name of a member, and the comma before it.
pub name_top-Filling :
    (n : ℕ) (Fits : List Cell → Cell → Type 0) (rest : List Frame) (b₁ b : Builder)
    (cs : List Event) (key : Text) (count start end : ℕ)
    → Filling n Fits rest b₁ b
    → Comma cs
    → (f : Filling n Fits rest b₁ (deliver handle b (cs ++ on_key key count start end ∷ [])))
      × (f.key ≡ some key)
unfolding handle
name_top-Filling n Fits rest b₁ b cs key count start end f no_comma = (
  record {
    key = some key;
    cell = f.cell;
    here = f.here;
    fits = f.fits;
    kept = f.kept;
    on_top = ap (name_top key) f.on_top;
    same_root = f.same_root;
    has_started = f.has_started;
    idle = f.idle;
    balance = f.balance;
  },
  refl,
)
name_top-Filling n Fits rest b₁ b cs key count start end f (comma offset) = (
  record {
    key = some key;
    cell = f.cell;
    here = f.here;
    fits = f.fits;
    kept = f.kept;
    on_top = ap (name_top key) f.on_top;
    same_root = f.same_root;
    has_started = f.has_started;
    idle = f.idle;
    balance = f.balance;
  },
  refl,
)
