-- ===== src/Security/Credentials.antt =====
-- `compileSchemeCheck` and the checks it builds. `lower` is the platform's `toLowerCase`,
-- and `atob` is too, of which `none` is the throw.
pub mod OwnKey
use oaverify.Common.{
  is_space, ℕ, ◌-◌, ◌+◌, Bool, true, false, not, ◌&&◌, ◌||◌, if◌then◌else◌, ◌==◌, within, Option,
  none, some, List, [], ◌∷◌, ◌++◌, map, any, all, Text, codes, text_eq, includes, lower_unit,
  starts_with, drop, ◌>>=◌,
}
use oaverify.Security.{
  Value, one, many, inherited, Bag, Headers, Request, Scheme, Mode, shape, strict, SchemeCheck,
  get_own, index, get_header_value, get_header_value_fast, is_object_prototype_property_name,
  is_header_object_prototype_property_name,
}

unfoldable pub skip_spaces : Text → Text
unfolding is_space
skip_spaces [] = []
skip_spaces (c ∷ s) = if is_space c then skip_spaces s else c ∷ s

-- The text behind a scheme's name and at least one space: `^bearer\s+` with the flag `i`.
unfoldable pub after_scheme : Text → Text → Option Text
unfolding is_space starts_with skip_spaces
after_scheme [] [] = none
after_scheme [] (c ∷ s) = if is_space c then some (skip_spaces s) else none
after_scheme (x ∷ word) [] = none
after_scheme (x ∷ word) (c ∷ s) = if lower_unit c == x then after_scheme word s else none

-- `/^bearer\s+\S/i`
unfoldable pub is_bearer : Text → Bool
unfolding after_scheme
is_bearer auth = elim (after_scheme (codes "bearer") auth) [
  | none ↦ false
  | some [] ↦ false
  | some (c ∷ s) ↦ true
]

-- `/^basic\s+(\S+)$/i` and its group
unfoldable pub basic_credential : Text → Option Text
unfolding after_scheme
basic_credential auth = elim (after_scheme (codes "basic") auth) [
  | none ↦ none
  | some [] ↦ none
  | some (c ∷ s) ↦ if any is_space (c ∷ s) then none else some (c ∷ s)
]

-- `Array.isArray(raw) ? raw[0] : raw`
unfoldable pub first_value : Option Value → Option Value
first_value (some (many [])) = none
first_value (some (many (v ∷ vs))) = some (one v)
first_value found = found

-- `readOwn ? getOwn(bag, name) : bag?.[name]`
unfoldable pub read_member : Option Bag → Text → Bool → Option Value
unfolding index
read_member none name read_own = none
read_member (some bag) name read_own = if read_own then get_own bag name else index bag name

abbrev quoted : Text → Text
quoted name = b'"' ∷ name ++ (b'"' ∷ [])

-- `v === undefined || v === ""`
unfoldable pub is_missing : Option Value → Bool
is_missing none = true
is_missing (some (one [])) = true
is_missing found = false

module _ (lower : Text → Text) where
  unfoldable pub get_header : Request → Text → Bool → Option Value
  unfolding first_value
  get_header req name read_own = first_value (
      if read_own
      then get_header_value lower req.headers name
      else get_header_value_fast lower req.headers name)

  unfoldable pub pick_api_key : Request → Text → Text → Bool → Option Value
  unfolding first_value read_member get_header
  pick_api_key req location name read_own =
      if text_eq location (codes "header")
      then get_header req name read_own
      else if text_eq location (codes "query")
      then first_value (read_member req.query name read_own)
      else first_value (read_member req.cookies name read_own)

  -- `readOwn` of `apiKeyCheck`
  unfoldable pub reads_own : Text → Text → Bool
  reads_own location name =
      if text_eq location (codes "header")
      then is_header_object_prototype_property_name lower name
      else is_object_prototype_property_name name

  unfoldable pub api_key_reason : Text → Text → Request → Option Text
  unfolding pick_api_key is_missing reads_own
  api_key_reason location name req =
      if is_missing (pick_api_key req location name (reads_own location name))
      then some (codes "missing " ++ location ++ codes " " ++ quoted name)
      else none

  -- `!keyName || !keyIn`: a field that is absent or empty
  abbrev pub given : Option Text → Option Text
  given (some (c ∷ s)) = some (c ∷ s)
  given _ = none

  unfoldable pub api_key_check : Text → Scheme → SchemeCheck
  unfolding api_key_reason
  api_key_check name scheme = elim (given scheme.name) [
    | none ↦ record {
      scheme = name;
      check = λ req. some (
          codes "apiKey scheme " ++ quoted name ++ codes " is missing required \"name\" or \"in\"");
    }
    | some key_name ↦ elim (given scheme.location) [
      | none ↦ record {
        scheme = name;
        check = λ req. some (
            codes "apiKey scheme "
            ++ quoted name
            ++ codes " is missing required \"name\" or \"in\"");
      }
      | some location ↦ record { scheme = name; check = api_key_reason location key_name }
    ]
  ]

  -- No other value than a text reaches the test: `authorization` is no member of `Object.prototype`.
  unfoldable pub bearer_reason : Request → Option Text
  unfolding is_bearer get_header
  bearer_reason req = elim (get_header req (codes "authorization") false) [
    | some (one auth) ↦
        if is_bearer auth then none else some (codes "\"Authorization\" is not a Bearer token")
    | _ ↦ some (codes "missing \"Authorization: Bearer ...\" header")
  ]

module _ (lower : Text → Text) (atob : Text → Option Text) where
  unfoldable pub basic_reason : Request → Option Text
  unfolding basic_credential get_header includes
  basic_reason req = elim (get_header lower req (codes "authorization") false) [
    | some (one auth) ↦ elim (basic_credential auth) [
      | none ↦ some (codes "\"Authorization\" is not a Basic credential")
      | some credential ↦ elim (atob credential) [
        | none ↦ some (codes "\"Authorization: Basic\" value is not valid base64")
        | some decoded ↦
            if includes b':' decoded
            then none
            else some (codes "\"Authorization: Basic\" is not \"user:pass\" shape")
      ]
    ]
    | _ ↦ some (codes "missing \"Authorization: Basic ...\" header")
  ]

  unfoldable pub unsupported_scheme_check : Text → Text → Mode → SchemeCheck
  unsupported_scheme_check name description shape = record { scheme = name; check = λ req. none }
  unsupported_scheme_check name description strict = record {
    scheme = name;
    check = λ req. some (
        codes "scheme "
        ++ quoted name
        ++ codes " ("
        ++ description
        ++ codes
            ") is not shape-checkable; set validateSecurity to \"shape\" to allow it through, or verify the credential in your auth middleware");
  }

  abbrev or_unknown : Option Text → Text
  or_unknown none = codes "?"
  or_unknown (some scheme) = scheme

  -- `scheme.scheme?.toLowerCase() === word`
  unfoldable pub is_http_scheme : Scheme → Text → Bool
  is_http_scheme scheme word = elim scheme.scheme [ none ↦ false | some s ↦ text_eq (lower s) word ]

  unfoldable pub compile_scheme_check : Text → Option Scheme → Mode → SchemeCheck
  unfolding api_key_check bearer_reason basic_reason unsupported_scheme_check is_http_scheme
  compile_scheme_check name none mode = record {
    scheme = name;
    check = λ req. some (quoted name ++ codes " is not declared in components.securitySchemes");
  }
  compile_scheme_check name (some scheme) mode =
      if text_eq scheme.type (codes "http")
      then if is_http_scheme scheme (codes "bearer")
        then record { scheme = name; check = bearer_reason lower }
        else if is_http_scheme scheme (codes "basic")
        then record { scheme = name; check = basic_reason }
        else unsupported_scheme_check name (codes "http " ++ quoted (or_unknown scheme.scheme)) mode
      else if text_eq scheme.type (codes "apiKey")
      then api_key_check lower name scheme
      else unsupported_scheme_check name scheme.type mode
