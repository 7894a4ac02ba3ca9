-- ===== src/Security.antt =====
-- packages/validator/src/security.ts: the shape check of a request's credentials, and the reading of
-- headers (packages/validator/src/headers.ts) that it uses.
pub mod Credentials
pub mod Decision
pub mod QueryKeys
mod Tests
use oaverify.Pointer.{Json}
use oaverify.Common.{
  ℕ, ◌-◌, ◌+◌, Bool, true, false, not, ◌&&◌, ◌||◌, if◌then◌else◌, ◌==◌, within, Option, none, some,
  List, [], ◌∷◌, ◌++◌, map, any, all, Text, codes, text_eq, includes, ◌>>=◌,
}

-- What a member of a request's record holds. `inherited` is a member that every object has from
-- `Object.prototype`: a function, or an object for `__proto__`.
pub data Value : Type 0 where
  one : Text → Value
  many : List Text → Value
  inherited : Value

-- A record, whose own names are distinct.
abbrev pub Bag : Type 0
Bag = List (Text × Value)

-- `OBJECT_PROTOTYPE_PROPERTY_NAMES` (packages/core/src/prototype-properties.ts)
abbrev pub object_prototype_property_names : List Text
object_prototype_property_names =
    codes "constructor"
    ∷ codes "hasOwnProperty"
    ∷ codes "isPrototypeOf"
    ∷ codes "propertyIsEnumerable"
    ∷ codes "toLocaleString"
    ∷ codes "toString"
    ∷ codes "valueOf"
    ∷ codes "__proto__"
    ∷ codes "__defineGetter__"
    ∷ codes "__defineSetter__"
    ∷ codes "__lookupGetter__"
    ∷ codes "__lookupSetter__"
    ∷ []

unfoldable pub is_object_prototype_property_name : Text → Bool
is_object_prototype_property_name name = any (text_eq name) object_prototype_property_names

-- `getOwn(bag, name)`
unfoldable pub get_own : {A : Type 0} → List (Text × A) → Text → Option A
get_own [] name = none
get_own ((key, value) ∷ bag) name = if text_eq key name then some value else get_own bag name

-- `bag[name]`, which the prototype chain answers when the record does not.
unfoldable pub index : Bag → Text → Option Value
index bag name = elim (get_own bag name) [
  | some value ↦ some value
  | none ↦ if is_object_prototype_property_name name then some inherited else none
]

-- The record of headers, with the mark of an adapter that its names are in lower case.
pub record Headers : Type 0 where
  pub entries : Bag
  pub lowercase_keys : Bool

-- `lower` is the platform's `toLowerCase`.
module _ (lower : Text → Text) where
  abbrev pub is_header_object_prototype_property_name : Text → Bool
  is_header_object_prototype_property_name name = is_object_prototype_property_name (lower name)

  unfoldable pub find_lowered : Bag → Text → Option Value
  find_lowered [] lowered = none
  find_lowered ((key, value) ∷ bag) lowered =
      if text_eq (lower key) lowered then some value else find_lowered bag lowered

  -- What both readings do when the name itself is no key.
  abbrev pub scan_headers : Headers → Text → Option Value
  scan_headers headers lowered =
      if headers.lowercase_keys then none else find_lowered headers.entries lowered

  unfoldable pub get_header_value : Option Headers → Text → Option Value
  unfolding get_own find_lowered
  get_header_value none name = none
  get_header_value (some headers) name = elim (get_own headers.entries (lower name)) [
    | some direct ↦ some direct
    | none ↦ scan_headers headers (lower name)
  ]

  unfoldable pub get_header_value_fast : Option Headers → Text → Option Value
  unfolding index find_lowered
  get_header_value_fast none name = none
  get_header_value_fast (some headers) name = elim (index headers.entries (lower name)) [
    | some direct ↦ some direct
    | none ↦ scan_headers headers (lower name)
  ]

-- `HttpRequest`; the body is a parsed value, where there is one.
pub record Request : Type 0 where
  pub method : Text
  pub path : Text
  pub query : Option Bag
  pub headers : Option Headers
  pub cookies : Option Bag
  pub content_type : Option Text
  pub body : Option Json
  pub raw_body : Option Text

-- A security scheme as the document writes it: `type` is any text there.
pub record Scheme : Type 0 where
  pub type : Text
  pub scheme : Option Text
  pub name : Option Text
  pub location : Option Text

pub data Mode : Type 0 where
  shape strict : Mode

-- What a call returns, or that it throws.
pub data Fallible (A : Type 0) : Type 0 where
  returns : A → Fallible A
  throws : Fallible A

abbrev pub map_fallible : {A B : Type 0} → (A → B) → Fallible A → Fallible B
map_fallible f (returns a) = returns (f a)
map_fallible f throws = throws

-- A Security Requirement Object as the names of its schemes, or an item that is no such object.
pub data Requirement : Type 0 where
  requirement : List Text → Requirement
  malformed : Requirement

-- The field `security`: absent or null, not a list, or a list.
pub data Declared : Type 0 where
  undeclared : Declared
  unreadable : Declared
  declared : List Requirement → Declared

-- `operation.security ?? document.security`
unfoldable pub effective : Declared → Declared → Declared
effective undeclared document = document
effective operation document = operation

-- `null`, or why the credential is missing. `check` of the source is a function of the request.
pub record SchemeCheck : Type 0 where
  pub scheme : Text
  pub check : Request → Option Text
