-- ===== src/Router/Table.antt =====
-- The route table of `buildRouter`: Path Items, the methods that they declare, the index that finds
-- ambiguous templates, and the order of the routes.
pub mod Order
pub mod Build
pub mod Comparators
pub mod Sorted
pub mod Methods
pub mod Apart
pub mod Checked
pub mod Permuted
use oaverify.Common.{
  ℕ, zero, suc, Bool, true, false, not, ◌&&◌, ◌||◌, Option, none, some, List, [], ◌∷◌, ◌++◌, map,
  ◌-◌, if◌then◌else◌, ltb, length, is_some, Text, codes, text_eq, starts_with, find_at, within, any,
}
use oaverify.Router.Segments.{
  Segment, literal, template, compound, parse_template, signature_of, marker,
}

-- `HTTP_METHODS` (packages/core/src/types.ts).
unfoldable pub http_methods : List Text
http_methods =
    codes "get"
    ∷ codes "put"
    ∷ codes "post"
    ∷ codes "delete"
    ∷ codes "options"
    ∷ codes "head"
    ∷ codes "patch"
    ∷ codes "trace"
    ∷ codes "query"
    ∷ []

-- A document is untrusted: a Path Item, and a field of one, may be null or no object at all. An
-- operation is whatever object stands there; the router hands on the same reference.
pub data Field (Op : Type 0) : Type 0 where
  other : Field Op
  object : Op → Field Op

pub data PathItem (Op : Type 0) : Type 0 where
  no_object : PathItem Op
  item : List (Text × Field Op) → PathItem Op

pub record Route (Op : Type 0) : Type 0 where
  pub segments : List Segment
  pub path_pattern : Text
  pub path_item : PathItem Op

pub record RouteInfo : Type 0 where
  pub method : Text
  pub path_pattern : Text

-- A pair that the router cannot distinguish for one method; `has_placeholder` picks the wording.
pub record RouteConflict : Type 0 where
  pub first_path : Text
  pub second_path : Text
  pub method : Text
  pub has_placeholder : Bool

-- A unit of ASCII in upper and in lower case.
unfoldable pub upper_unit : ℕ → ℕ
upper_unit c = if within b'a' b'z' c then c - 32 else c

-- `toUpperCase` on the name of a method.
abbrev pub to_upper : Text → Text
to_upper = map upper_unit

-- Membership in a Set of names, and `add` on it.
abbrev pub mem : Text → List Text → Bool
mem m ms = any (text_eq m) ms

abbrev pub add_method : Text → List Text → List Text
add_method m ms = if mem m ms then ms else ms ++ m ∷ []

-- `!key.startsWith("x-")` (packages/core/src/operation-model.ts).
unfoldable pub is_path_template : Text → Bool
unfolding starts_with
is_path_template key = not (starts_with (codes "x-") key)

module _ {Op : Type 0} where
  abbrev pub field_of : List (Text × Field Op) → Text → Option Op
  field_of [] method = none
  field_of ((k, other) ∷ fields) method = if text_eq k method then none else field_of fields method
  field_of ((k, object op) ∷ fields) method =
      if text_eq k method then some op else field_of fields method

  unfoldable pub operation_on : PathItem Op → Text → Option Op
  unfolding text_eq
  operation_on no_object method = none
  operation_on (item fields) method = field_of fields method

  abbrev pub declared_among : PathItem Op → List Text → List Text
  declared_among i [] = []
  declared_among i (m ∷ ms) =
      if is_some (operation_on i m) then m ∷ declared_among i ms else declared_among i ms

  -- A pattern that declares GET reserves HEAD too.
  unfoldable pub methods_declared_on : PathItem Op → List Text
  unfolding operation_on text_eq http_methods
  methods_declared_on i =
      let declared = declared_among i http_methods in
      if mem (codes "get") declared then add_method (codes "head") declared else declared
