-- ===== src/Common/Percent.antt =====
-- decodeURIComponent of ECMAScript: percent escapes read as UTF-8, the result as UTF-16 units.
-- `none` is its URIError.
use oaverify.Common.{
  ℕ, zero, suc, ◌+◌, ◌-◌, ◌*◌, ◌/◌, ◌%◌, Option, none, some, [], ◌∷◌, ◌++◌, ◌==◌, if◌then◌else◌,
  ltb, within, ◌>>=◌, Text, is_digit,
}

unfoldable pub hex_value : ℕ → Option ℕ
unfolding is_digit
hex_value c =
    if is_digit c
    then some (c - 48)
    else if within b'a' b'f' c
    then some (c - 87)
    else if within b'A' b'F' c
    then some (c - 55)
    else none

-- The byte of an escape `%hh` that the text begins with.
unfoldable pub escape_at : Text → Option ℕ
unfolding hex_value
escape_at (c ∷ h ∷ l ∷ _) =
    if c == b'%' then (do hi ← hex_value h; lo ← hex_value l; some (hi * 16 + lo)) else none
escape_at _ = none

-- The low six bits of a continuation byte in the given range.
abbrev pub continuation : ℕ → ℕ → Text → Option ℕ
continuation lo hi s = do b ← escape_at s; if within lo hi b then some (b - 128) else none

-- The tail past one escape.
abbrev pub past : Text → Text
past (_ ∷ _ ∷ _ ∷ s) = s
past _ = []

-- The surrogate pair of a code point above U+FFFF.
abbrev pub pair_of : ℕ → Text
pair_of p = (55296 + (p - 65536) / 1024) ∷ (56320 + (p - 65536) % 1024) ∷ []

-- The character that the escapes at the head of the text encode, with the units that they take.
unfoldable pub escaped_character : Text → Option (Text × ℕ)
unfolding escape_at
escaped_character s = do
  b ← escape_at s
  if ltb b 0x80
      then some (b ∷ [], 3)
      else if within 0xc2 0xdf b
      then (do c ← continuation 0x80 0xbf (past s); some (((b - 0xc0) * 64 + c) ∷ [], 6))
      else if within 0xe0 0xef b
      then (do
        c ←
            continuation (if b == 0xe0 then 0xa0 else 0x80) (if b == 0xed then 0x9f else 0xbf)
              (past s)
        d ← continuation 0x80 0xbf (past (past s))
        some (((b - 0xe0) * 4096 + c * 64 + d) ∷ [], 9))
      else if within 0xf0 0xf4 b
      then (do
        c ←
            continuation (if b == 0xf0 then 0x90 else 0x80) (if b == 0xf4 then 0x8f else 0xbf)
              (past s)
        d ← continuation 0x80 0xbf (past (past s))
        e ← continuation 0x80 0xbf (past (past (past s)))
        some (pair_of ((b - 0xf0) * 262144 + c * 4096 + d * 64 + e), 12))
      else none

-- What stands for the unit at the head: itself, or the character that its escapes encode.
unfoldable pub decoded_unit : ℕ → Text → Option (Text × ℕ)
unfolding escaped_character
decoded_unit c s = if c == b'%' then escaped_character (c ∷ s) else some (c ∷ [], 1)

-- The first number counts the units of a character that is read already.
unfoldable pub decode_from : ℕ → Text → Option Text
unfolding decoded_unit
decode_from skip [] = some []
decode_from (suc skip) (c ∷ s) = decode_from skip s
decode_from zero (c ∷ s) = do
  (out, taken) ← decoded_unit c s
  rest ← decode_from (taken - 1) s
  some (out ++ rest)

-- `decodeURIComponent(s)`
unfoldable pub decode_uri_component : Text → Option Text
unfolding decode_from
decode_uri_component s = decode_from 0 s
