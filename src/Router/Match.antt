-- ===== src/Router/Match.antt =====
-- `match` of the router that `buildRouter` returns.
pub mod Scan
pub mod Allowed
pub mod NotAllowed
use oaverify.Common.{
  ℕ, zero, suc, ◌+◌, Bool, true, false, not, ◌&&◌, Option, none, some, List, [], ◌∷◌, ◌++◌, map,
  ◌==◌, if◌then◌else◌, length, take, get_elem?, is_some, min, ◌>>=◌, Text, codes, text_eq, includes,
  index_of, slice, split, any, lower_unit, to_lower,
}
use oaverify.Router.Segments.{Segment, literal, template, compound, decode_path_token, trim_slashes}
use oaverify.Router.Compound.{match_compound}
use oaverify.Router.Wire.{wire_offsets}
use oaverify.Router.Table.{
  PathItem, Route, http_methods, to_upper, operation_on, declared_among, mem, add_method,
}
use oaverify.Router.Table.Order.{sort_by, compare_text}

-- An object with names for keys; `setSpecKey` (packages/core/src/own-key.ts) sets an own key,
-- whatever its name.
abbrev pub Params : Type 0
Params = List (Text × Text)

unfoldable pub set_spec_key : Params → Text → Text → Params
unfolding text_eq
set_spec_key [] key value = (key, value) ∷ []
set_spec_key ((k, v) ∷ target) key value =
    if text_eq k key then (key, value) ∷ target else (k, v) ∷ set_spec_key target key value

unfoldable pub delete_key : Params → Text → Params
unfolding text_eq
delete_key [] key = []
delete_key ((k, v) ∷ target) key =
    if text_eq k key then delete_key target key else (k, v) ∷ delete_key target key

-- The captures of one route; the raw ones are kept when the path holds an escape.
pub record Captured : Type 0 where
  pub params : Params
  pub raw_params : Option Params

abbrev pub nothing_captured : Captured
nothing_captured = record { params = []; raw_params = none }

-- `rawParams ??= {}`
abbrev or_empty : Option Params → Params
or_empty none = []
or_empty (some raw) = raw

abbrev pub capture_raw : Option Params → Text → Option Text → Option Params
capture_raw raw name none = raw
capture_raw raw name (some value) = some (set_spec_key (or_empty raw) name value)

-- `offsets[at]`, where an absent boundary is undefined; with no offsets the two agree.
abbrev pub boundary : Option (List (Option ℕ)) → ℕ → Option ℕ
boundary none at = some at
boundary (some offsets) at = elim (get_elem? offsets at) [ none ↦ none | some o ↦ o ]

-- The wire text of a capture, if it has one.
abbrev pub raw_slice : Option (List (Option ℕ)) → Text → ℕ × ℕ → Option Text
raw_slice offsets raw (start, end) = do
  from ← boundary offsets start
  to ← boundary offsets end
  some (slice raw from to)

abbrev pub set_or_delete : Params → Text → Option Text → Params
set_or_delete raw name none = delete_key raw name
set_or_delete raw name (some value) = set_spec_key raw name value

abbrev pub capture_compound_raw :
    Option Params → Text → Option Text → Option (List (Option ℕ)) → ℕ × ℕ → Option Params
capture_compound_raw raw name none offsets place = raw
capture_compound_raw raw name (some token) offsets place =
    some (set_or_delete (or_empty raw) name (raw_slice offsets token place))

-- The loop over the names of a compound segment.
unfoldable pub capture_all :
    Text → Option Text → Option (List (Option ℕ)) → List Text → List (ℕ × ℕ) → Captured → Captured
unfolding set_spec_key delete_key
capture_all tok raw offsets [] places found = found
capture_all tok raw offsets (name ∷ names) [] found = found
capture_all tok raw offsets (name ∷ names) ((start, end) ∷ places) found =
    capture_all tok raw offsets names places (record {
      params = set_spec_key found.params name (slice tok start end);
      raw_params = capture_compound_raw found.raw_params name raw offsets (start, end);
    })

-- A token that decoding changed has offsets of its own.
abbrev pub offsets_of : Text → Option Text → Option (List (Option ℕ))
offsets_of tok none = none
offsets_of tok (some raw) = if text_eq raw tok then none else some (wire_offsets raw)

-- One segment against one token, with the raw token.
unfoldable pub match_segment : Segment → Text → Option Text → Captured → Option Captured
unfolding text_eq match_compound set_spec_key wire_offsets capture_all
match_segment (literal value) tok raw found = if text_eq value tok then some found else none
match_segment (template name) tok raw found = some (record {
  params = set_spec_key found.params name tok;
  raw_params = capture_raw found.raw_params name raw;
})
match_segment (compound names literals text) tok raw found = do
  places ← match_compound names literals tok
  some (capture_all tok raw (offsets_of tok raw) names places found)

-- A request path: its tokens, each with its raw text when the path holds a "%".
abbrev pub Tokens : Type 0
Tokens = List (Text × Option Text)

-- The first "?" or "#" ends the path.
abbrev cut_at : Option ℕ → Option ℕ → Option ℕ
cut_at none hash = hash
cut_at (some q) none = some q
cut_at (some q) (some h) = some (min q h)

abbrev take_to : Text → Option ℕ → Text
take_to path none = path
take_to path (some cut) = take cut path

abbrev raw_tokens : Text → List Text
raw_tokens [] = []
raw_tokens (c ∷ s) = split b'/' (c ∷ s)

abbrev with_raw : Bool → Text → Text × Option Text
with_raw escaped token = if escaped then (decode_path_token token, some token) else (token, none)

unfoldable pub request_tokens : Text → Tokens
unfolding index_of trim_slashes split includes decode_path_token
request_tokens path =
    let cut = cut_at (index_of path (codes "?") 0) (index_of path (codes "#") 0) in
    let trimmed = trim_slashes (take_to path cut) in
    map (with_raw (includes b'%' trimmed)) (raw_tokens trimmed)

-- The loop over the tokens of a candidate; a different length is no match.
unfoldable pub match_tokens : List Segment → Tokens → Captured → Option Captured
unfolding match_segment
match_tokens [] [] found = some found
match_tokens (seg ∷ segs) ((tok, raw) ∷ toks) found = do
  found' ← match_segment seg tok raw found
  match_tokens segs toks found'
match_tokens _ _ found = none

pub data RouteResult (Op : Type 0) : Type 0 where
  matched :
      (operation : Op) (path_item : PathItem Op) (path_pattern : Text) (path_params : Params)
      (raw_path_params : Option Params)
      → RouteResult Op
  method_not_allowed : (path_pattern : Text) (allowed : List Text) → RouteResult Op
  unmatched : RouteResult Op

-- What the scan remembers of the paths that matched without the method.
pub record Seen : Type 0 where
  pub first_pattern : Option Text
  pub allowed : List Text

abbrev pub nothing_seen : Seen
nothing_seen = record { first_pattern = none; allowed = [] }

abbrev pub or_first : Option Text → Text → Option Text
or_first none pattern = some pattern
or_first (some first) pattern = some first

abbrev pub add_all : List Text → List Text → List Text
add_all [] ms = ms
add_all (d ∷ ds) ms = add_all ds (add_method (to_upper d) ms)

module _ {Op : Type 0} where
  abbrev or_else : Option Op → Option Op → Option Op
  or_else none fallback = fallback
  or_else (some op) fallback = some op

  -- The operation of a Path Item that answers a method: GET also answers HEAD.
  unfoldable pub answer : PathItem Op → Text → Option Op
  unfolding operation_on
  answer i method =
      let declared = if mem method http_methods then operation_on i method else none in
      or_else declared
        (if text_eq method (codes "head") then operation_on i (codes "get") else none)

  -- A path that matched without the method: its declared methods are collected.
  unfoldable pub see : Route Op → Seen → Seen
  unfolding operation_on
  see r seen =
      let declared = add_all (declared_among r.path_item http_methods) seen.allowed in
      record {
        first_pattern = or_first seen.first_pattern r.path_pattern;
        allowed =
            if is_some (operation_on r.path_item (codes "get"))
            then add_method (codes "HEAD") declared
            else declared;
      }

  abbrev pub finish : Option Text → List Text → RouteResult Op
  finish none allowed = unmatched
  finish (some pattern) allowed = method_not_allowed pattern (sort_by compare_text allowed)

  abbrev pub match_of : Route Op → Captured → Op → RouteResult Op
  match_of r found op = matched op r.path_item r.path_pattern found.params found.raw_params

  -- The loop over the routes.
  unfoldable pub scan : List (Route Op) → Tokens → Text → Seen → RouteResult Op
  unfolding match_tokens answer see sort_by compare_text
  scan [] tokens method seen = finish seen.first_pattern seen.allowed
  scan (r ∷ rs) tokens method seen = elim (match_tokens r.segments tokens nothing_captured) [
    | none ↦ scan rs tokens method seen
    | some found ↦ elim (answer r.path_item method) [
      | some op ↦ match_of r found op
      | none ↦ scan rs tokens method (see r seen)
    ]
  ]

  unfoldable pub match_route : List (Route Op) → Text → Text → RouteResult Op
  unfolding scan lower_unit request_tokens
  match_route routes method path = scan routes (request_tokens path) (to_lower method) nothing_seen
