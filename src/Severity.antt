-- ===== src/Severity.antt =====
-- packages/check/src/severity.ts and packages/check/src/finding-key.ts: who decides what a finding of
-- the checker means.
pub mod Codes
pub mod Fixed
mod Tests
use oaverify.Common.{
  ℕ, ◌+◌, ◌-◌, Bool, true, false, not, ◌&&◌, ◌||◌, if◌then◌else◌, Option, none, some, List, [], ◌∷◌,
  ◌++◌, any, Text, codes, text_eq, length, includes, index_of, slice, take, drop, split, trim, ltb,
}
use oaverify.Severity.Codes.{check_codes, check_families, check_classes, hygiene_errors}

pub data CheckSeverity : Type 0 where
  warning error fatal : CheckSeverity

pub data FindingKey : Type 0 where
  code family class : Text → FindingKey

abbrev has : List Text → Text → Bool
has set key = any (text_eq key) set

-- `s.endsWith(p)`
unfoldable pub ends_with : Text → Text → Bool
unfolding text_eq
ends_with p s = not (ltb (length s) (length p)) && text_eq (drop (length s - length p) s) p

-- `parseFindingKey`; each refusal of the source, with its hint, is `none`.
unfoldable pub parse_finding_key : Text → Option FindingKey
unfolding ends_with includes check_codes check_families
parse_finding_key key =
    if text_eq key []
    then none
    else if ends_with (codes "/*") key
    then (if has check_families (take (length key - 2) key)
        then some (family (take (length key - 2) key))
        else none)
    else if includes b'*' key
    then none
    else if has check_classes key
    then some (class key)
    else if has check_codes key
    then some (code key)
    else none

abbrev pub Grades : Type 0
Grades = List (Text × CheckSeverity)

unfoldable pub get : Text → Grades → Option CheckSeverity
unfolding text_eq
get key [] = none
get key ((k, v) ∷ grades) = if text_eq k key then some v else get key grades

-- `Map.set`
unfoldable pub set : Text → CheckSeverity → Grades → Grades
unfolding text_eq
set key value [] = (key, value) ∷ []
set key value ((k, v) ∷ grades) =
    if text_eq k key then (key, value) ∷ grades else (k, v) ∷ set key value grades

pub record SeverityMap : Type 0 where
  pub by_code : Grades
  pub by_family : Grades
  pub by_class : Grades

abbrev pub empty_severity_map : SeverityMap
empty_severity_map = record { by_code = []; by_family = []; by_class = [] }

abbrev or_fallback : Option CheckSeverity → CheckSeverity → CheckSeverity
or_fallback none fallback = fallback
or_fallback (some severity) fallback = severity

abbrev family_grade : SeverityMap → Text → Option ℕ → Option CheckSeverity
family_grade m c none = none
family_grade m c (some slash) = get (slice c 0 slash) m.by_family

unfoldable pub severity_for : SeverityMap → Text → Text → CheckSeverity → CheckSeverity
unfolding get index_of
severity_for m cls c fallback = elim (get c m.by_code) [
  | some exact ↦ exact
  | none ↦ elim (family_grade m c (index_of c (codes "/") 0)) [
    | some severity ↦ severity
    | none ↦ or_fallback (get cls m.by_class) fallback
  ]
]

-- `defaultSeverityFor`, with `DEFAULT_SEVERITY`
unfoldable pub default_severity_for : Text → Text → CheckSeverity
unfolding text_eq
default_severity_for cls c =
    if text_eq cls (codes "hygiene")
    then (if has hygiene_errors c then error else warning)
    else if text_eq cls (codes "conformance")
    then error
    else warning

-- `severities.includes(level)`
abbrev pub parse_level : Text → Option CheckSeverity
parse_level level =
    if text_eq level (codes "warning")
    then some warning
    else if text_eq level (codes "error")
    then some error
    else if text_eq level (codes "fatal")
    then some fatal
    else none

-- A `SeverityMapError`, with the text that it names.
pub data Refusal : Type 0 where
  not_assignment not_severity not_remappable not_key : Text → Refusal

pub data Parsed : Type 0 where
  parsed : SeverityMap → Parsed
  refused : Refusal → Parsed

abbrev pub store : FindingKey → CheckSeverity → SeverityMap → SeverityMap
store (family value) severity m = record {
  by_code = m.by_code;
  by_family = set value severity m.by_family;
  by_class = m.by_class;
}
store (class value) severity m = record {
  by_code = m.by_code;
  by_family = m.by_family;
  by_class = set value severity m.by_class;
}
store (code value) severity m = record {
  by_code = set value severity m.by_code;
  by_family = m.by_family;
  by_class = m.by_class;
}

abbrev pub is_malformed : Text → Bool
is_malformed key = text_eq key (codes "malformed") || text_eq key (codes "malformed-schema")

-- One turn of the loop of `parseSeverityMap` on `key=level`.
unfoldable pub assign : Text → Text → Text → SeverityMap → Parsed
unfolding parse_finding_key set
assign text key level m = elim (parse_level level) [
  | none ↦ refused (not_severity text)
  | some severity ↦
      if is_malformed key then refused (not_remappable text) else elim (parse_finding_key key) [
        | none ↦ refused (not_key text)
        | some k ↦ parsed (store k severity m)
      ]
]

-- One turn of the loop on an entry: an empty one is skipped.
unfoldable pub read_entry : Text → SeverityMap → Parsed
unfolding assign index_of
read_entry [] m = parsed m
read_entry (c ∷ s) m = elim (index_of (c ∷ s) (codes "=") 0) [
  | none ↦ refused (not_assignment (c ∷ s))
  | some eq ↦ assign (c ∷ s) (trim (slice (c ∷ s) 0 eq)) (trim (drop (eq + 1) (c ∷ s))) m
]

unfoldable pub read_entries : List Text → SeverityMap → Parsed
unfolding read_entry
read_entries [] m = parsed m
read_entries (entry ∷ entries) m = elim (read_entry (trim entry) m) [
  | refused r ↦ refused r
  | parsed m' ↦ read_entries entries m'
]

-- `entries.flatMap((e) => e.split(","))`
unfoldable pub split_all : List Text → List Text
unfolding split
split_all [] = []
split_all (e ∷ entries) = split b',' e ++ split_all entries

unfoldable pub parse_severity_map : List Text → Parsed
unfolding split_all read_entries
parse_severity_map entries = read_entries (split_all entries) empty_severity_map
