-- ===== src/Router/Wire.antt =====
-- `wireOffsets`: where the units of a decoded token stand in the raw token.
use oaverify.Common.{
  ℕ, zero, suc, ◌+◌, ◌-◌, ◌*◌, Option, none, some, List, [], ◌∷◌, ◌++◌, ◌==◌, if◌then◌else◌, ltb,
  Text,
}
use oaverify.Common.Percent.{hex_value}

-- `Number.parseInt(raw.slice(i + 1, i + 3), 16)`; `none` is NaN.
abbrev two_digits : Option ℕ → Option ℕ → Option ℕ
two_digits none lo = none
two_digits (some hi) none = some hi
two_digits (some hi) (some lo) = some (hi * 16 + lo)

unfoldable pub parse_byte : Text → Option ℕ
unfolding hex_value
parse_byte [] = none
parse_byte (h ∷ []) = hex_value h
parse_byte (h ∷ l ∷ s) = two_digits (hex_value h) (hex_value l)

-- The bytes of a UTF-8 sequence, by its lead byte. NaN is below nothing.
abbrev pub sequence_bytes : Option ℕ → ℕ
sequence_bytes none = 4
sequence_bytes (some byte) =
    if ltb byte 0x80 then 1 else if ltb byte 0xe0 then 2 else if ltb byte 0xf0 then 3 else 4

-- The units of the raw token that the decoded unit or units at its head take.
unfoldable pub wire_width : ℕ → Text → ℕ
unfolding parse_byte
wire_width c s = if c == b'%' then sequence_bytes (parse_byte s) * 3 else 1

-- `offsets[decoded] = i` after a step. A sequence of four bytes adds two units, and the boundary
-- between them stays absent.
abbrev pub boundaries_of : ℕ → ℕ → List (Option ℕ)
boundaries_of width i = if width == 12 then none ∷ some i ∷ [] else some i ∷ []

-- The loop; the first number counts the units that the last step took already.
unfoldable pub offsets_from : ℕ → ℕ → Text → List (Option ℕ)
unfolding wire_width
offsets_from skip i [] = []
offsets_from (suc skip) i (c ∷ s) = offsets_from skip i s
offsets_from zero i (c ∷ s) =
    let width = wire_width c s in
    boundaries_of width (i + width) ++ offsets_from (width - 1) (i + width) s

unfoldable pub wire_offsets : Text → List (Option ℕ)
unfolding offsets_from
wire_offsets raw = some 0 ∷ offsets_from 0 0 raw
