-- ===== src/Builder.antt =====
-- packages/stream-validator/src/spine/value-builder.ts: a handler that rebuilds the value that the
-- tokenizer's events stand for. JavaScript containers are shared by reference, between their parent
-- and the builder's stack: they are cells of a heap.
pub mod Denotes
pub mod Values
pub mod Rebuild
pub mod Progress
pub mod Complete
mod Tests
use oaverify.Common.{
  ℕ, zero, suc, ◌+◌, ◌-◌, ◌*◌, ltb, is_digit, Bool, true, false, not, ◌&&◌, Option, none, some,
  List, [], ◌∷◌, ◌++◌, ◌==◌, if◌then◌else◌, Text, text_eq, codes, length,
}
use oaverify.Tokenizer.{
  Event, on_start_object, on_end_object, on_start_array, on_end_array, on_key, on_member_comma,
  on_string_start, on_string_chunk, on_string_end, on_number, on_boolean, on_null,
}

-- A number is kept as its literal; a container is the place of its cell.
pub data BuiltValue : Type 0 where
  null_value : BuiltValue
  boolean_value : Bool → BuiltValue
  number_value : Text → BuiltValue
  string_value : Text → BuiltValue
  container : ℕ → BuiltValue

-- What a container holds: the own properties of an object, or the items of an array.
pub data Cell : Type 0 where
  object_cell : List (Text × BuiltValue) → Cell
  array_cell : List BuiltValue → Cell

-- An entry of `stack`; `key` is null until a name is read.
pub record Frame : Type 0 where
  pub at : ℕ
  pub key : Option Text

-- `depth` is the number of containers opened less that of those closed. `root` is undefined at first.
pub record Builder : Type 0 where
  pub heap : List Cell
  pub stack : List Frame
  pub root : Option BuiltValue
  pub started : Bool
  pub opened : ℕ
  pub closed : ℕ
  pub in_string : Bool
  pub cur_string : Text

abbrev pub new_builder : Builder
new_builder = record {
  heap = [];
  stack = [];
  root = none;
  started = false;
  opened = 0;
  closed = 0;
  in_string = false;
  cur_string = [];
}

-- `complete`
unfoldable pub complete : Builder → Bool
complete b = b.started && b.opened == b.closed && not b.in_string

-- The decimal number that digits spell, behind those read already.
unfoldable pub read_decimal : ℕ → Text → Option ℕ
unfolding is_digit
read_decimal n [] = some n
read_decimal n (c ∷ s) =
    let rest = read_decimal (n * 10 + (c - 48)) s in if is_digit c then rest else none

-- An array index in ECMAScript: a number below 2 ^ 32 - 1, spelled without leading zeros.
unfoldable pub array_index : Text → Option ℕ
unfolding read_decimal
array_index [] = none
array_index (c ∷ []) = read_decimal 0 (c ∷ [])
array_index (c ∷ d ∷ s) = if c == b'0' then none else elim (read_decimal 0 (c ∷ d ∷ s)) [
  | none ↦ none
  | some n ↦ if ltb n 4294967295 then some n else none
]

-- A new name comes before one that stands there when it is a lower array index, or the other is
-- none.
abbrev pub index_before : Option ℕ → Option ℕ → Bool
index_before none there = false
index_before (some n) none = true
index_before (some n) (some there) = ltb n there

-- `setSpecKey`: a name that stands there keeps its place and takes the value. The own names of an
-- object are in JavaScript's order: the array indices, ascending, and then the others as they came.
unfoldable pub set_entry {ℓ} : {A : Type ℓ} → List (Text × A) → Text → A → List (Text × A)
unfolding text_eq array_index
set_entry [] key value = (key, value) ∷ []
set_entry ((k, v) ∷ target) key value =
    let rest = set_entry target key value in
    if text_eq k key
    then (key, value) ∷ target
    else if index_before (array_index key) (array_index k)
    then (key, value) ∷ (k, v) ∷ target
    else (k, v) ∷ rest

-- `top.key as string`; a name is read before each value.
abbrev pub name_of : Option Text → Text
name_of none = codes "null"
name_of (some key) = key

-- What `add` does to the container on top.
unfoldable pub put : Option Text → BuiltValue → Cell → Cell
unfolding set_entry
put key v (array_cell items) = array_cell (items ++ v ∷ [])
put key v (object_cell entries) = object_cell (set_entry entries (name_of key) v)

abbrev pub modify : ℕ → (Cell → Cell) → List Cell → List Cell
modify n f [] = []
modify zero f (cell ∷ heap) = f cell ∷ heap
modify (suc n) f (cell ∷ heap) = cell ∷ modify n f heap

abbrev pub heap_after : List Frame → BuiltValue → List Cell → List Cell
heap_after [] v heap = heap
heap_after (top ∷ stack) v heap = modify top.at (put top.key v) heap

abbrev pub root_after : List Frame → BuiltValue → Option BuiltValue → Option BuiltValue
root_after [] v root = some v
root_after (top ∷ stack) v root = root

-- `add`
unfoldable pub add : Builder → BuiltValue → Builder
unfolding put
add b v = record b { heap = heap_after b.stack v b.heap; root = root_after b.stack v b.root }

abbrev pub pop_frame : List Frame → List Frame
pop_frame [] = []
pop_frame (top ∷ stack) = stack

-- `top.key = value`
abbrev pub name_top : Text → List Frame → List Frame
name_top key [] = []
name_top key (top ∷ stack) = record top { key = some key } ∷ stack

-- `onStartObject` and `onStartArray`, for an empty container.
unfoldable pub open_container : Builder → Cell → Builder
unfolding add
open_container b cell =
    let c = length b.heap in
    let b' =
      add (record b { heap = b.heap ++ cell ∷ []; started = true; opened = b.opened + 1 })
        (container c) in
    record b' { stack = record { at = c; key = none } ∷ b'.stack }

-- `onEndObject` and `onEndArray`
abbrev pub close_container : Builder → Builder
close_container b = record b { closed = b.closed + 1; stack = pop_frame b.stack }

-- The handler's methods; it has none for a comma.
unfoldable pub handle : Builder → Event → Builder
unfolding open_container add
handle b (on_start_object offset) = open_container b (object_cell [])
handle b (on_end_object offset) = close_container b
handle b (on_start_array offset) = open_container b (array_cell [])
handle b (on_end_array offset) = close_container b
handle b (on_key value n start end) = record b { stack = name_top value b.stack }
handle b (on_member_comma offset) = b
handle b (on_string_start offset) = record b { started = true; in_string = true; cur_string = [] }
handle b (on_string_chunk chunk offset n end) = record b { cur_string = b.cur_string ++ chunk }
handle b (on_string_end n start end) =
    add (record b { in_string = false }) (string_value b.cur_string)
handle b (on_number raw start end) = add (record b { started = true }) (number_value raw)
handle b (on_boolean value start end) = add (record b { started = true }) (boolean_value value)
handle b (on_null start end) = add (record b { started = true }) null_value
