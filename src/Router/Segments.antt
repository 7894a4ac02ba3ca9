-- ===== src/Router/Segments.antt =====
-- Path templates and their segments: `trimSlashes`, `decodePathToken`, `parseTemplate`,
-- `parseSegment`, `segmentSignature`, `routeSignature`.
use oaverify.Common.{
  ℕ, zero, suc, ◌+◌, not, Option, none, some, List, [], ◌∷◌, ◌++◌, map, ◌==◌, if◌then◌else◌, Text,
  includes, index_of, split, join, codes, take,
}
use mathlib.Core.Option
use oaverify.Common.Percent.{decode_uri_component}

-- The token when its escapes are malformed; without "%" there is nothing to decode.
abbrev or_raw : Text → Option Text → Text
or_raw token none = token
or_raw token (some decoded) = decoded

unfoldable pub decode_path_token : Text → Text
unfolding includes decode_uri_component
decode_path_token token =
    if not (includes b'%' token) then token else or_raw token (decode_uri_component token)

-- `while (start < end && s.charCodeAt(start) === SLASH) start += 1`, as the tail that is left.
unfoldable pub trim_start : Text → Text
trim_start [] = []
trim_start (c ∷ s) = if c == b'/' then trim_start s else c ∷ s

-- `while (end > start && s.charCodeAt(end - 1) === SLASH) end -= 1`, as the front that is left.
abbrev cons_unless_slash : ℕ → Text → Text
cons_unless_slash c [] = if c == b'/' then [] else c ∷ []
cons_unless_slash c (d ∷ s) = c ∷ d ∷ s

unfoldable pub trim_end : Text → Text
trim_end [] = []
trim_end (c ∷ s) = cons_unless_slash c (trim_end s)

unfoldable pub trim_slashes : Text → Text
unfolding trim_start trim_end
trim_slashes s = trim_start (trim_end s)

pub data Segment : Type 0 where
  literal : (value : Text) → Segment
  template : (name : Text) → Segment
  compound : (names : List Text) (literals : List Text) (raw : Text) → Segment

-- `/^\{([^{}]+)\}$/`: the name, when the text after "{" is a non-empty run without braces and
-- then a final "}".
unfoldable pub name_to_end : Text → Option Text
name_to_end [] = none
name_to_end (c ∷ []) = if c == b'}' then some [] else none
name_to_end (c ∷ d ∷ s) =
    if c == b'{' then none else if c == b'}' then none else Option.map (◌∷◌ c) (name_to_end (d ∷ s))

abbrev nonempty : Option Text → Option Text
nonempty none = none
nonempty (some []) = none
nonempty (some (c ∷ s)) = some (c ∷ s)

unfoldable pub pure_name : Text → Option Text
unfolding name_to_end
pure_name [] = none
pure_name (c ∷ s) = if c == b'{' then nonempty (name_to_end s) else none

-- What the scan of a compound segment collects.
pub record Parts : Type 0 where
  pub names : List Text
  pub literals : List Text

abbrev last_part : Text → Parts
last_part pending = record { names = []; literals = decode_path_token pending ∷ [] }

abbrev add_part : Text → Text → Parts → Parts
add_part pending name rest = record {
  names = name ∷ rest.names;
  literals = decode_path_token pending ∷ rest.literals;
}

-- The `while` loop of `parseSegment`; the number counts the units of a `{name}` that is read
-- already. An unterminated "{" makes the rest of the segment literal.
unfoldable pub scan_parts : ℕ → Text → Text → Parts
unfolding index_of
scan_parts skip pending [] = last_part pending
scan_parts (suc skip) pending (c ∷ s) = scan_parts skip pending s
scan_parts zero pending (c ∷ s) =
    let plain = scan_parts zero (pending ++ c ∷ []) s in
    let braced : Parts = elim (index_of s (codes "}") 0) [
      | none ↦ last_part (pending ++ c ∷ s)
      | some n ↦ add_part pending (take n s) (scan_parts (n + 1) [] s)
    ] in
    if c == b'{' then braced else plain

-- `names.length === 0`: a literal after all.
abbrev segment_of : Text → Parts → List Text → Segment
segment_of seg parts [] = literal (decode_path_token seg)
segment_of seg parts (name ∷ names) = compound parts.names parts.literals seg

abbrev braced_segment : Text → Option Text → Segment
braced_segment seg none = let parts = scan_parts 0 [] seg in segment_of seg parts parts.names
braced_segment seg (some name) = template name

unfoldable pub parse_segment : Text → Segment
unfolding decode_path_token pure_name scan_parts includes
parse_segment seg =
    if not (includes b'{' seg)
    then literal (decode_path_token seg)
    else braced_segment seg (pure_name seg)

abbrev segments_of : Text → List Segment
segments_of [] = []
segments_of (c ∷ s) = map parse_segment (split b'/' (c ∷ s))

unfoldable pub parse_template : Text → List Segment
unfolding trim_slashes parse_segment split
parse_template pattern = segments_of (trim_slashes pattern)

-- The length of the name, when the text after "{" is a match of `[^{}]+\}`.
unfoldable pub name_length : ℕ → Text → Option ℕ
name_length seen [] = none
name_length seen (c ∷ s) =
    if c == b'{'
    then none
    else if c == b'}'
    then (if seen == 0 then none else some seen)
    else name_length (seen + 1) s

-- "\0{}"
abbrev pub marker : Text
marker = 0 ∷ b'{' ∷ b'}' ∷ []

-- `raw.split(/(\{[^{}]+\})/g)` with each `{name}` replaced and each other part decoded.
unfoldable pub skeleton : ℕ → Text → Text → Text
unfolding name_length decode_path_token
skeleton skip pending [] = decode_path_token pending
skeleton (suc skip) pending (c ∷ s) = skeleton skip pending s
skeleton zero pending (c ∷ s) =
    let plain = skeleton zero (pending ++ c ∷ []) s in
    let braced : Text = elim (name_length 0 s) [
      | none ↦ plain
      | some n ↦ decode_path_token pending ++ (marker ++ skeleton (n + 1) [] s)
    ] in
    if c == b'{' then braced else plain

unfoldable pub segment_signature : Segment → Text
unfolding skeleton
segment_signature (literal value) = value
segment_signature (template name) = marker
segment_signature (compound names literals raw) = skeleton 0 [] raw

-- `segments.map(segmentSignature).join("/")`
unfoldable pub signature_of : List Segment → Text
unfolding segment_signature join
signature_of segments = join (codes "/") (map segment_signature segments)

unfoldable pub route_signature : Text → Text
unfolding parse_template signature_of
route_signature pattern = signature_of (parse_template pattern)
