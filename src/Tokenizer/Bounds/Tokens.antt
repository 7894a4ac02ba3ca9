-- ===== src/Tokenizer/Bounds/Tokens.antt =====
-- Progress of a number, and states with no token in progress.
use oaverify.Common.{
  ℕ, zero, suc, ◌+◌, ◌-◌, ◌*◌, ◌≤◌, ◌<◌, ◌≡◌, refl, ◌⊎◌, Text, Bool, true, false, ◌&&◌, ◌||◌,
  Option, none, some, List, [], ◌∷◌, arith, ltb, leb, ◌==◌, length, get_elem?, Bool-cases, inl, inr,
}
use oaverify.Tokenizer.Bytes.{is_number_byte}
use oaverify.Tokenizer.Numbers.{number_run, number_end, ends_number, is_at}
use oaverify.Tokenizer.Bounds.{weight, AtMost, ValidIn, Moved}
use oaverify.Tokenizer.{
  State, st_value, st_value_or_end_array, st_key_or_end_object, st_key, st_colon,
  st_comma_or_end_array, st_comma_or_end_object, st_end, st_in_string, st_in_string_escape,
  st_in_string_unicode, st_in_number, st_in_literal, TextDecoder, Tokenizer, limit_from, Context,
  ctx_array, ctx_object, state_after, reaches,
}

pub state_after-weight : (stack : List Context) → weight (state_after stack) ≡ 0
state_after-weight [] = refl
state_after-weight (ctx_object ∷ stack) = refl
state_after-weight (ctx_array ∷ stack) = refl

pub is_at-lt :
    (word : Text) (at b : ℕ)
    → is_at word at b ≡ true
    → (at + 1 == length word) ≡ false
    → at + 1 < length word
is_at-lt [] at b h last = cc
is_at-lt (c ∷ word) zero b h last = ground (arith)
is_at-lt (c ∷ word) (suc at) b h last =
    let more : (at + 1 == length word) ≡ false = ground arith in
    omega (arith, is_at-lt word at b h more)

-- Whether a number ends in the chunk, as `step_number` tests it.
abbrev pub ends : ℕ → ℕ → ℕ → Option ℕ → List ℕ → Bool
ends offset edit_end n next chunk =
    let j = offset + number_run (n - offset) chunk in
    ltb j n || (j == n && ltb j edit_end && ends_number next)

number_run_first :
    (m b : ℕ) (chunk : List ℕ) → 0 < m → is_number_byte b ≡ true → 0 < number_run m (b ∷ chunk)
unfolding number_run
number_run_first zero b chunk h e = absurd (omega arith)
number_run_first (suc m) b chunk h e = rw e (omega arith)

number_run_none :
    (m b : ℕ) (chunk : List ℕ) → is_number_byte b ≡ false → number_run m (b ∷ chunk) ≡ 0
unfolding number_run
number_run_none zero b chunk e = refl
number_run_none (suc m) b chunk e = rw e refl

-- A number that goes on takes a byte.
pub number_progress :
    (offset edit_end n b : ℕ) (chunk : List ℕ)
    → offset < edit_end
    → (n ≡ edit_end) ⊎ ((n ≤ edit_end) × (offset ≤ n))
    → (offset ≡ n → n < edit_end → is_number_byte b ≡ false)
    → ends offset edit_end n
        (get_elem? (b ∷ chunk) (number_run (n - offset) (b ∷ chunk)))
        (b ∷ chunk)
      ≡ false
    → 0 < number_run (n - offset) (b ∷ chunk)
number_progress offset edit_end n b chunk some_room c at_limit h =
    elim (Bool-cases (is_number_byte b)) [
      | inl k ↦
          number_run_first (n - offset) b chunk
            (elim (Bool-cases (ltb offset n)) [
              | inl e ↦ ground arith
              | inr e ↦ let same : offset ≡ n = ground arith in cc (k, at_limit same (ground arith))
            ])
            k
      | inr k ↦
          let none : number_run (n - offset) (b ∷ chunk) ≡ 0 =
            number_run_none (n - offset) b chunk k in
          ground (arith, rw none at h)
    ]

pub number_end_cases :
    (edit_end start offset : ℕ) (max : Option ℕ)
    → offset ≤ edit_end
    → AtMost offset (limit_from start max)
    → (number_end edit_end start max ≡ edit_end)
      ⊎ ((number_end edit_end start max ≤ edit_end) × (offset ≤ number_end edit_end start max))
number_end_cases edit_end start offset none h k = inl refl
number_end_cases edit_end start offset (some m) h k = inr (omega arith, omega arith)

pub at_number_end :
    (edit_end start offset b : ℕ) (max : Option ℕ)
    → (reaches offset (limit_from start max) && is_number_byte b) ≡ false
    → offset ≡ number_end edit_end start max
    → number_end edit_end start max < edit_end
    → is_number_byte b ≡ false
at_number_end edit_end start offset b none h e k = absurd (omega arith)
at_number_end edit_end start offset b (some m) h e k =
    let at : leb (start + m) offset ≡ true = ground arith in rw at at h

pub within_limit :
    (edit_end start offset count : ℕ) (max : Option ℕ)
    → 0 < count
    → count ≤ number_end edit_end start max - offset
    → AtMost (offset + count) (limit_from start max)
within_limit edit_end start offset count none h k = tt
within_limit edit_end start offset count (some m) h k = omega arith

-- A state with no token in progress.
abbrev pub Calm : State → Type 0
Calm st_in_string = ⊥
Calm st_in_string_escape = ⊥
Calm st_in_string_unicode = ⊥
Calm st_in_number = ⊥
Calm st_in_literal = ⊥
Calm _ = Unit

pub state_after-Calm : (stack : List Context) → Calm (state_after stack)
state_after-Calm [] = tt
state_after-Calm (ctx_object ∷ stack) = tt
state_after-Calm (ctx_array ∷ stack) = tt

module _ {D : TextDecoder} {H : Type 0} where
  Calm-ValidIn : (state : State) (s : Tokenizer D H) → Calm state → ValidIn state s
  Calm-ValidIn st_value s h = tt
  Calm-ValidIn st_value_or_end_array s h = tt
  Calm-ValidIn st_key_or_end_object s h = tt
  Calm-ValidIn st_key s h = tt
  Calm-ValidIn st_colon s h = tt
  Calm-ValidIn st_comma_or_end_array s h = tt
  Calm-ValidIn st_comma_or_end_object s h = tt
  Calm-ValidIn st_end s h = tt
  Calm-ValidIn st_in_string s h = elim h [ ]
  Calm-ValidIn st_in_string_escape s h = elim h [ ]
  Calm-ValidIn st_in_string_unicode s h = elim h [ ]
  Calm-ValidIn st_in_number s h = elim h [ ]
  Calm-ValidIn st_in_literal s h = elim h [ ]

  pub Calm-Moved :
      {s s' : Tokenizer D H} {limit taken : ℕ}
      → s'.offset ≡ s.offset
      → taken ≤ limit
      → weight s'.state < weight s.state + 3 * taken
      → Calm s'.state
      → Moved s limit taken s'
  Calm-Moved {s} {s'} {limit} {taken} same fits paid calm = record {
    same_offset = same;
    in_chunk = fits;
    paid = paid;
    valid = Calm-ValidIn s'.state (record s' { offset = s.offset + taken }) calm;
  }

  -- After a value.
  pub ended-Moved :
      {s s' : Tokenizer D H} {limit taken : ℕ}
      → s'.offset ≡ s.offset
      → taken ≤ limit
      → 0 < weight s.state + 3 * taken
      → s'.state ≡ state_after s'.stack
      → Moved s limit taken s'
  ended-Moved {s} {s'} same fits paid after =
      Calm-Moved same fits (rw (after, state_after-weight s'.stack) paid)
        (rw after (state_after-Calm s'.stack))
