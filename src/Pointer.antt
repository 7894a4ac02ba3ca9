-- ===== src/Pointer.antt =====
-- packages/core/src/json-pointer.ts: RFC 6901 pointers into a JSON value.
pub mod Escape
pub mod Walk
pub mod Fragment
mod Tests
use oaverify.Common.Percent.{decode_uri_component, hex_value}
use oaverify.Common.{
  is_some, starts_with, drop, ℕ, zero, suc, ◌+◌, ◌-◌, ◌*◌, ◌≡◌, refl, Bool, true, false, not, ◌&&◌,
  ◌||◌, if◌then◌else◌, ◌==◌, Option, none, some, List, [], ◌∷◌, ◌++◌, map, Text, codes, split,
  text_eq, is_digit, within, all, get_elem?, prepend,
}
use oaverify.Common.Percent.{decode_uri_component}

-- `JsonValue`. An object is its own members in their order, without repeated names.
mutual
  pub data Json : Type 0 where
    null : Json
    boolean : Bool → Json
    number : ℕ → Json
    string : Text → Json
    array : Items → Json
    object : Members → Json

  pub data Items : Type 0 where
    no_item : Items
    item : Json → Items → Items

  pub data Members : Type 0 where
    no_member : Members
    member : Text → Json → Members → Members

-- `getOwn(bag, name)`
unfoldable pub get_own : Members → Text → Option Json
get_own no_member name = none
get_own (member key value more) name = if text_eq key name then some value else get_own more name

unfoldable pub item_at : Items → ℕ → Option Json
item_at no_item n = none
item_at (item value more) zero = some value
item_at (item value more) (suc n) = item_at more n

-- `s.replace(/~c/g, by)`: the occurrences of `~` and then `c`, from the left.
unfoldable pub replace_escape : ℕ → ℕ → Text → Text
replace_escape c by [] = []
replace_escape c by (x ∷ []) = x ∷ []
replace_escape c by (x ∷ y ∷ s) = elim (x == b'~' && y == c) [
  | true ↦ by ∷ replace_escape c by s
  | false ↦ x ∷ replace_escape c by (y ∷ s)
]

-- `s.replace(/c/g, by)` for one unit.
unfoldable pub replace_unit : ℕ → Text → Text → Text
replace_unit c by [] = []
replace_unit c by (x ∷ s) =
    let more = replace_unit c by s in if x == c then by ++ more else x ∷ more

unfoldable pub escape_pointer_segment : Text → Text
unfolding replace_unit
escape_pointer_segment token = replace_unit b'/' (codes "~1") (replace_unit b'~' (codes "~0") token)

-- The decoding of a reference token in `resolveJsonPointer`.
unfoldable pub unescape_token : Text → Text
unfolding replace_escape
unescape_token s = replace_escape b'0' b'~' (replace_escape b'1' b'/' s)

-- `ARRAY_INDEX_RE`
unfoldable pub is_array_index : Text → Bool
unfolding is_digit
is_array_index [] = false
is_array_index (c ∷ s) =
    if c == b'0' && text_eq s [] then true else within b'1' b'9' c && all is_digit s

-- `Number.parseInt(part, 10)` of a text of digits.
unfoldable pub digits_value : ℕ → Text → ℕ
digits_value n [] = n
digits_value n (c ∷ s) = digits_value (n * 10 + (c - 48)) s

-- One turn of the loop of `resolveJsonPointer`; every error it throws is `none`.
unfoldable pub step : Json → Text → Option Json
unfolding get_own item_at is_array_index digits_value
step (array items) part =
    if not (is_array_index part) then none else item_at items (digits_value 0 part)
step (object members) part = get_own members part
step _ part = none

unfoldable pub resolve_parts : Json → List Text → Option Json
resolve_parts cur [] = some cur
resolve_parts cur (part ∷ parts) = elim (step cur part) [
  | none ↦ none
  | some next ↦ resolve_parts next parts
]

unfoldable pub resolve_json_pointer : Json → Text → Option Json
unfolding split unescape_token step resolve_parts
resolve_json_pointer root [] = some root
resolve_json_pointer root (c ∷ s) =
    if c == b'/' then resolve_parts root (map unescape_token (split b'/' s)) else none

-- `/(?:%[0-9A-Fa-f]{2})+/g` with its callback: each longest run of escapes is decoded on its own,
-- where that succeeds. The number counts the units of an escape that are still to take up.
abbrev or_raw : Text → Option Text → Text
or_raw run none = run
or_raw run (some decoded) = decoded

abbrev pub is_escape : Text → Bool
is_escape (p ∷ a ∷ b ∷ s) = p == b'%' && is_some (hex_value a) && is_some (hex_value b)
is_escape _ = false

unfoldable pub decode_runs : ℕ → Text → Text → Text
unfolding decode_uri_component hex_value
decode_runs taken run [] = or_raw run (decode_uri_component run)
decode_runs (suc taken) run (c ∷ s) = decode_runs taken (run ++ c ∷ []) s
decode_runs zero run (c ∷ s) = elim (is_escape (c ∷ s)) [
  | true ↦ decode_runs 2 (run ++ c ∷ []) s
  | false ↦ or_raw run (decode_uri_component run) ++ c ∷ decode_runs zero [] s
]

unfoldable pub pointer_from_fragment : Text → Text
unfolding decode_uri_component decode_runs
pointer_from_fragment text = elim (decode_uri_component text) [
  | some decoded ↦ decoded
  | none ↦ decode_runs zero [] text
]

unfoldable pub pointer_from_ref_fragment : Text → Option Text
unfolding starts_with pointer_from_fragment
pointer_from_ref_fragment ref =
    if not (starts_with (codes "#/") ref) then none else some (pointer_from_fragment (drop 1 ref))
