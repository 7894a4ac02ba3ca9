-- ===== src/Formats/Ip.antt =====
-- packages/formats/src/ip.ts: addresses and their notation with a prefix length.
pub mod Octets
pub mod Cidr
use oaverify.Common.Percent.{hex_value}
use oaverify.Common.{
  zero, suc, text_eq, includes, ◌++◌, leb, take, drop, ◌||◌, ℕ, ◌+◌, ◌-◌, ◌*◌, Bool, true, false,
  not, ◌&&◌, ◌||◌, Option, none, some, List, [], ◌∷◌, ◌++◌, ◌==◌, if◌then◌else◌, ltb, leb, within,
  ◌>>=◌, Text, codes, length, all, split, index_of, is_digit, is_some, drop, take, slice,
}

abbrev pub is_nonzero_digit : ℕ → Bool
is_nonzero_digit c = within b'1' b'9' c

-- `/^(?:0|[1-9]\d{0,2})$/` (`IPV4_OCTET_RE`, `PREFIX_LEN_RE`) and `Number.parseInt` of the match.
unfoldable pub parse_decimal : Text → Option ℕ
unfolding is_digit
parse_decimal (a ∷ []) = if is_digit a then some (a - 48) else none
parse_decimal (a ∷ b ∷ []) =
    if is_nonzero_digit a && is_digit b then some ((a - 48) * 10 + (b - 48)) else none
parse_decimal (a ∷ b ∷ c ∷ []) =
    if is_nonzero_digit a && is_digit b && is_digit c
    then some ((a - 48) * 100 + (b - 48) * 10 + (c - 48))
    else none
parse_decimal _ = none

unfoldable pub is_octet : Text → Bool
unfolding parse_decimal
is_octet p = elim (parse_decimal p) [ none ↦ false | some n ↦ not (ltb 255 n) ]

unfoldable pub validate_ipv4 : Text → Bool
unfolding split is_octet
validate_ipv4 value =
    if not (length (split b'.' value) == 4) then false else all is_octet (split b'.' value)

-- `cidrAddress`
unfoldable pub cidr_address : Text → ℕ → Option Text
unfolding parse_decimal
cidr_address value max_prefix = elim (index_of value (codes "/") 0) [
  | none ↦ none
  | some slash ↦
      if is_some (index_of value (codes "/") (slash + 1))
      then none
      else elim (parse_decimal (drop (slash + 1) value)) [
        | none ↦ none
        | some n ↦ if ltb max_prefix n then none else some (slice value 0 slash)
      ]
]

unfoldable pub validate_ipv4_cidr : Text → Bool
unfolding cidr_address validate_ipv4
validate_ipv4_cidr value = elim (cidr_address value 32) [
  | none ↦ false
  | some address ↦ validate_ipv4 address
]

-- `value.slice(value.lastIndexOf(c) + 1)`, where there is such a unit.
unfoldable pub after_last : ℕ → Text → Option Text
after_last c [] = none
after_last c (x ∷ s) = elim (after_last c s) [
  | some tail ↦ some tail
  | none ↦ if x == c then some s else none
]

-- The address with an embedded IPv4 tail replaced by two groups, or `none` where the tail is no
-- IPv4 address.
unfoldable pub embedded : Text → Option Text
unfolding after_last includes validate_ipv4
embedded value = elim (after_last b':' value) [
  | none ↦ some value
  | some tail ↦
      if not (includes b'.' tail)
      then some value
      else if not (validate_ipv4 tail)
      then none
      else some (take (length value - length tail) value ++ codes "0:0")
]

-- `(addr.match(/::/g) ?? []).length`
unfoldable pub double_colon_count : Text → ℕ
double_colon_count [] = 0
double_colon_count (x ∷ []) = 0
double_colon_count (x ∷ y ∷ s) = elim (x == b':' && y == b':') [
  | true ↦ 1 + double_colon_count s
  | false ↦ double_colon_count (y ∷ s)
]

-- `GROUP_RE`
unfoldable pub is_group : Text → Bool
unfolding hex_value
is_group g = not (text_eq g []) && leb (length g) 4 && all (λ c. is_some (hex_value c)) g

abbrev parts_of : Text → List Text
parts_of s = if text_eq s [] then [] else split b':' s

abbrev zeros : ℕ → List Text
zeros zero = []
zeros (suc n) = codes "0" ∷ zeros n

abbrev filled : List Text → List Text → Option (List Text)
filled head tail =
    if leb 8 (length head + length tail)
    then none
    else some (head ++ (zeros (8 - length head - length tail) ++ tail))

-- The groups of an address with at most one `::`.
unfoldable pub groups_of : Text → Option (List Text)
unfolding double_colon_count split index_of
groups_of addr =
    if ltb 1 (double_colon_count addr) then none else elim (index_of addr (codes "::") 0) [
      | some at ↦ filled (parts_of (take at addr)) (parts_of (drop (at + 2) addr))
      | none ↦ some (split b':' addr)
    ]

unfoldable pub validate_ipv6 : Text → Bool
unfolding embedded groups_of is_group
validate_ipv6 value =
    if text_eq value [] || ltb 45 (length value) then false else elim (embedded value) [
      | none ↦ false
      | some addr ↦ elim (groups_of addr) [
        | none ↦ false
        | some groups ↦ length groups == 8 && all is_group groups
      ]
    ]

unfoldable pub validate_ipv6_cidr : Text → Bool
unfolding cidr_address validate_ipv6
validate_ipv6_cidr value = elim (cidr_address value 128) [
  | none ↦ false
  | some address ↦ validate_ipv6 address
]
