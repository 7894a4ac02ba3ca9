-- ===== src/Tokenizer/Bounds.antt =====
-- The invariant of the tokenizer between the turns of its loop: bounds on tokens in progress.
pub mod Tokens
pub mod Numbers
pub mod Scans
pub mod Strings
pub mod Steps
pub mod Turns
pub mod Loop
use oaverify.Common.{
  ℕ, zero, suc, ◌+◌, ◌-◌, ◌*◌, ◌^◌, ◌≤◌, ◌<◌, ◌≡◌, refl, ◌≢◌, Bool, true, false, not, ◌&&◌, ◌||◌,
  Option, none, some, List, [], ◌∷◌, ◌++◌, arith, ltb, leb, ◌==◌, if◌then◌else◌, length, take, drop,
  get_elem?, Bool-cases, inl, inr, min,
}
use oaverify.Tokenizer.Bytes.{is_number_byte}
use oaverify.Tokenizer.Numbers.{number_run, number_end, ends_number}
use oaverify.Tokenizer.Strings.{is_literal, literal_run}
use oaverify.Tokenizer.{
  State, st_value, st_value_or_end_array, st_in_string, st_in_string_escape, st_in_string_unicode,
  st_in_number, st_in_literal, TextDecoder, Tokenizer, limit_from, Context, ctx_array, ctx_object,
  state_after, reaches,
}

-- `n <= limit`
abbrev pub AtMost : ℕ → Option ℕ → Type 0
AtMost n none = Unit
AtMost n (some limit) = n ≤ limit

-- What a state still costs: a value may begin a number, which may end without taking a byte.
abbrev pub weight : State → ℕ
weight st_value = 2
weight st_value_or_end_array = 2
weight st_in_number = 1
weight _ = 0

pub number_run_bounds : (n : ℕ) (s : List ℕ) → (number_run n s ≤ n) × (number_run n s ≤ length s)
unfolding number_run
number_run_bounds zero s = ground arith
number_run_bounds (suc n) [] = ground arith
number_run_bounds (suc n) (b ∷ s) = ground (arith, number_run_bounds n s)

pub literal_run_bounds : (n : ℕ) (s : List ℕ) → (literal_run n s ≤ n) × (literal_run n s ≤ length s)
unfolding literal_run
literal_run_bounds zero s = ground arith
literal_run_bounds (suc n) [] = ground arith
literal_run_bounds (suc n) (b ∷ s) = ground (arith, literal_run_bounds n s)

module _ {D : TextDecoder} {H : Type 0} where
  -- A key in progress is within its limit.
  abbrev pub KeyFits : Tokenizer D H → Type 0
  KeyFits s =
      s.string_is_key ≡ true
      → (s.string_start < s.offset) × AtMost s.offset (limit_from s.string_start s.max_key_bytes)

  abbrev pub ValidIn : State → Tokenizer D H → Type 0
  ValidIn st_in_string s = KeyFits s
  ValidIn st_in_string_escape s = KeyFits s
  ValidIn st_in_string_unicode s =
      KeyFits s × (s.uni_digits < 4) × (s.uni_value < 16 ^ s.uni_digits)
  ValidIn st_in_number s =
      (s.token_start + length s.num_buf ≡ s.offset)
      × AtMost s.offset (limit_from s.token_start s.max_number_bytes)
  ValidIn st_in_literal s = s.lit_pos < length s.lit_expected
  ValidIn _ s = Unit

  -- The bounds of the token in progress.
  abbrev pub IsValid : Tokenizer D H → Type 0
  IsValid s = ValidIn s.state s

  -- What one dispatch leaves: the offset is as before, the bytes taken pay for the state, and the
  -- bounds hold past them.
  pub record Moved (s : Tokenizer D H) (limit : ℕ) (taken : ℕ) (s' : Tokenizer D H) : Type 0 where
    pub same_offset : s'.offset ≡ s.offset
    pub in_chunk : taken ≤ limit
    pub paid : weight s'.state < weight s.state + 3 * taken
    pub valid : IsValid (record s' { offset = s.offset + taken })

  abbrev pub After : Tokenizer D H → ℕ → ℕ × Tokenizer D H → Type 0
  After s limit (taken, s') = Moved s limit taken s'
