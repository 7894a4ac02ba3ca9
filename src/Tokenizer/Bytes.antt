-- ===== src/Tokenizer/Bytes.antt =====
-- Tests on bytes, the grammar of numbers, and the search for the first malformed UTF-8 sequence.
pub mod NumberGrammar
pub mod Utf8
pub mod FirstIllFormed
use oaverify.Common.{
  ℕ, zero, suc, ◌-◌, Bool, true, false, ◌&&◌, ◌||◌, Option, none, some, List, [], ◌∷◌, ◌==◌, ltb,
  leb, within, if◌then◌else◌, Text, length, is_digit,
}

unfoldable pub is_whitespace : ℕ → Bool
is_whitespace b = b == 0x20 || b == 0x0a || b == 0x09 || b == 0x0d

unfoldable pub is_number_byte : ℕ → Bool
unfolding is_digit
is_number_byte b = is_digit b || b == 0x2d || b == 0x2b || b == 0x2e || b == 0x65 || b == 0x45

-- `NUMBER_RE`, read from the left: its parts begin with different units.
unfoldable pub skip_digit_run : Text → Text
unfolding is_digit
skip_digit_run [] = []
skip_digit_run (c ∷ s) = if is_digit c then skip_digit_run s else c ∷ s

abbrev pub is_nil : Text → Bool
is_nil [] = true
is_nil (c ∷ s) = false

-- `[0-9]+$`
unfoldable pub digits_to_end : Text → Bool
unfolding skip_digit_run
digits_to_end [] = false
digits_to_end (c ∷ s) = is_digit c && is_nil (skip_digit_run s)

-- `[+-]?[0-9]+$`
unfoldable pub signed_to_end : Text → Bool
unfolding digits_to_end
signed_to_end [] = false
signed_to_end (c ∷ s) = if c == b'+' || c == b'-' then digits_to_end s else digits_to_end (c ∷ s)

-- `(?:[eE][+-]?[0-9]+)?$`
unfoldable pub exponent_to_end : Text → Bool
unfolding signed_to_end
exponent_to_end [] = true
exponent_to_end (c ∷ s) = (c == b'e' || c == b'E') && signed_to_end s

-- `(?:\.[0-9]+)?(?:[eE][+-]?[0-9]+)?$`
unfoldable pub fraction_to_end : Text → Bool
unfolding exponent_to_end
fraction_to_end [] = true
fraction_to_end (c ∷ []) = false
fraction_to_end (c ∷ d ∷ s) =
    if c == b'.'
    then is_digit d && exponent_to_end (skip_digit_run s)
    else exponent_to_end (c ∷ d ∷ s)

-- `(?:0|[1-9][0-9]*)` and what follows
unfoldable pub integer_to_end : Text → Bool
unfolding fraction_to_end
integer_to_end [] = false
integer_to_end (c ∷ s) =
    if c == b'0'
    then fraction_to_end s
    else within b'1' b'9' c && fraction_to_end (skip_digit_run s)

-- `NUMBER_RE.test(s)`
unfoldable pub number_re : Text → Bool
unfolding integer_to_end
number_re [] = false
number_re (c ∷ s) = if c == b'-' then integer_to_end s else integer_to_end (c ∷ s)

-- How many bytes must follow a lead byte, and the range of the first of them.
unfoldable pub lead_of : ℕ → Option (ℕ × ℕ × ℕ)
lead_of b =
    if within 0xc2 0xdf b
    then some (1, 0x80, 0xbf)
    else if within 0xe0 0xef b
    then some (2, if b == 0xe0 then 0xa0 else 0x80, if b == 0xed then 0x9f else 0xbf)
    else if within 0xf0 0xf4 b
    then some (3, if b == 0xf0 then 0x90 else 0x80, if b == 0xf4 then 0x8f else 0xbf)
    else none

-- The loop over the bytes that must follow; only the first has a range of its own.
unfoldable pub follows : ℕ → ℕ → ℕ → List ℕ → Bool
follows zero lo hi s = true
follows (suc need) lo hi [] = false
follows (suc need) lo hi (c ∷ s) = within lo hi c && follows need 0x80 0xbf s

-- How many bytes the sequence at the head takes; `none` where it is malformed.
unfoldable pub sequence_length : ℕ → List ℕ → Option ℕ
unfolding lead_of follows
sequence_length b s = if ltb b 0x80 then some 1 else elim (lead_of b) [
  | none ↦ none
  | some (need, lo, hi) ↦ if follows need lo hi s then some (suc need) else none
]

-- The first number counts the bytes of a sequence that is read already.
unfoldable pub ill_formed_from : ℕ → List ℕ → ℕ
unfolding sequence_length
ill_formed_from skip [] = 0
ill_formed_from (suc skip) (b ∷ s) = suc (ill_formed_from skip s)
ill_formed_from zero (b ∷ s) = elim (sequence_length b s) [
  | none ↦ 0
  | some n ↦ suc (ill_formed_from (n - 1) s)
]

-- `firstIllFormedUtf8`
unfoldable pub first_ill_formed_utf8 : List ℕ → ℕ
unfolding ill_formed_from
first_ill_formed_utf8 bytes = ill_formed_from 0 bytes

-- `width` of `heldUtf8Prefix`
unfoldable pub width_of : ℕ → ℕ
width_of lead =
    if within 0xc2 0xdf lead
    then 2
    else if within 0xe0 0xef lead
    then 3
    else if within 0xf0 0xf4 lead
    then 4
    else 0

-- Whether the byte after a lead byte is in the range of a sequence that the decoder holds.
unfoldable pub second_fits : ℕ → List ℕ → Bool
second_fits lead [] = true
second_fits lead (second ∷ s) =
    within (if lead == 0xe0 then 0xa0 else if lead == 0xf0 then 0x90 else 0x80)
      (if lead == 0xed then 0x9f else if lead == 0xf4 then 0x8f else 0xbf) second

unfoldable pub held_at : ℕ → List ℕ → ℕ
unfolding width_of second_fits
held_at lead after =
    let n = suc (length after) in
    if leb (width_of lead) n then 0 else if second_fits lead after then n else 0

-- The loop from the last byte back, over a run that is read backwards, with the bytes passed.
unfoldable pub held_from : ℕ → List ℕ → List ℕ → ℕ
unfolding held_at
held_from zero run after = 0
held_from (suc k) [] after = 0
held_from (suc k) (lead ∷ run) after =
    let back = held_from k run (lead ∷ after) in
    if ltb lead 0x80 then 0 else if ltb lead 0xc0 then back else held_at lead after

abbrev pub reverse_onto : List ℕ → List ℕ → List ℕ
reverse_onto [] acc = acc
reverse_onto (x ∷ xs) acc = reverse_onto xs (x ∷ acc)

-- `heldUtf8Prefix` of a run of bytes
unfoldable pub held_utf8_prefix : List ℕ → ℕ
unfolding held_from
held_utf8_prefix run = held_from 3 (reverse_onto run []) []

unfoldable pub tail_at : ℕ → List ℕ → List ℕ
tail_at b after =
    let width = if ltb b 0xe0 then 2 else if ltb b 0xf0 then 3 else 4 in
    if leb width (suc (length after)) then [] else b ∷ after

-- The loop of `holdUtf8Tail`, over the bytes held and the new ones, read backwards.
unfoldable pub tail_from : ℕ → List ℕ → List ℕ → List ℕ
unfolding tail_at
tail_from zero bytes after = []
tail_from (suc k) [] after = []
tail_from (suc k) (b ∷ bytes) after =
    let back = tail_from k bytes (b ∷ after) in
    if ltb b 0x80 then [] else if ltb b 0xc0 then back else tail_at b after

unfoldable pub utf8_tail : List ℕ → List ℕ
unfolding tail_from
utf8_tail bytes = tail_from 3 (reverse_onto bytes []) []
