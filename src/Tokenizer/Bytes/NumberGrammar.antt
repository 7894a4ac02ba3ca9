-- ===== src/Tokenizer/Bytes/NumberGrammar.antt =====
-- NUMBER_RE accepts the number literals of the JSON grammar.
use oaverify.Common.{
  ℕ, ◌≡◌, refl, ap, ◌∙◌, ◌↔◌, true, false, ◌||◌, [], ◌∷◌, ◌++◌, arith, ◌==◌, within, Text, is_digit,
  all, Bool-cases, inl, inr, append-nil,
}
use oaverify.Tokenizer.Bytes.{
  skip_digit_run, is_nil, digits_to_end, signed_to_end, exponent_to_end, fraction_to_end,
  integer_to_end, number_re,
}

abbrev pub AllDigits : Text → Type 0
AllDigits s = all is_digit s ≡ true

pub data Minus : Text → Type 0 where
  no_minus : Minus []
  minus : Minus (b'-' ∷ [])

pub data Whole : Text → Type 0 where
  zero_digit : Whole (b'0' ∷ [])
  digits : (c : ℕ) (ds : Text) → within b'1' b'9' c ≡ true → AllDigits ds → Whole (c ∷ ds)

pub data Fraction : Text → Type 0 where
  no_fraction : Fraction []
  fraction : (d : ℕ) (ds : Text) → is_digit d ≡ true → AllDigits ds → Fraction (b'.' ∷ d ∷ ds)

pub data SignOf : Text → Type 0 where
  no_sign : SignOf []
  sign : (c : ℕ) → (c == b'+' || c == b'-') ≡ true → SignOf (c ∷ [])

pub data Exponent : Text → Type 0 where
  no_exponent : Exponent []
  exponent :
      (e d : ℕ) (ss ds : Text)
      → (e == b'e' || e == b'E') ≡ true
      → SignOf ss
      → is_digit d ≡ true
      → AllDigits ds
      → Exponent (e ∷ (ss ++ d ∷ ds))

-- `number = [ minus ] int [ frac ] [ exp ]` of RFC 8259.
pub data NumberText : Text → Type 0 where
  number_text :
      {m w f e : Text}
      → Minus m
      → Whole w
      → Fraction f
      → Exponent e
      → NumberText (m ++ (w ++ (f ++ e)))

-- A text that no digit begins.
abbrev Stops : Text → Type 0
Stops [] = Unit
Stops (c ∷ s) = is_digit c ≡ false

skip_digit_run-append : (ds s : Text) → AllDigits ds → Stops s → skip_digit_run (ds ++ s) ≡ s
unfolding skip_digit_run
skip_digit_run-append [] [] h k = refl
skip_digit_run-append [] (c ∷ s) h k = rw k refl
skip_digit_run-append (d ∷ ds) s h k =
    let first : is_digit d ≡ true = ground arith in
    rw first (skip_digit_run-append ds s (ground arith) k)

skip_digit_run-split : (s : Text) → (ds : Text) × (s ≡ ds ++ skip_digit_run s) × AllDigits ds
unfolding skip_digit_run
skip_digit_run-split [] = ([], refl, refl)
skip_digit_run-split (c ∷ s) = elim (Bool-cases (is_digit c)) [
  | inl e ↦ let (ds, split, h) = skip_digit_run-split s in (c ∷ ds, rw e (ap (◌∷◌ c) split), rw e h)
  | inr e ↦ ([], rw e refl, refl)
]

is_nil-eq : (s : Text) → is_nil s ≡ true → s ≡ []
is_nil-eq [] h = refl
is_nil-eq (c ∷ s) h = cc

digits_to_end_sound :
    (s : Text)
    → digits_to_end s ≡ true
    → (d : ℕ) × (ds : Text) × (s ≡ d ∷ ds) × (is_digit d ≡ true) × AllDigits ds
unfolding digits_to_end
digits_to_end_sound [] h = cc
digits_to_end_sound (d ∷ s) h =
    let (ds, split, k) = skip_digit_run-split s in
    let last : skip_digit_run s ≡ [] = is_nil-eq (skip_digit_run s) (ground arith) in
    (d, ds, ap (◌∷◌ d) (split ∙ ap (λ t. ds ++ t) last ∙ append-nil ds), ground arith, k)

exponent_to_end_sound : (s : Text) → exponent_to_end s ≡ true → Exponent s
unfolding exponent_to_end signed_to_end
exponent_to_end_sound [] h = no_exponent
exponent_to_end_sound (e ∷ []) h = absurd (ground arith)
exponent_to_end_sound (e ∷ c ∷ s) h = elim (Bool-cases (c == b'+' || c == b'-')) [
  | inl k ↦
      let marked : (e == b'e' || e == b'E') ≡ true = ground arith in
      let tail : digits_to_end s ≡ true = ground arith in
      let (d, ds, split, first, rest) = digits_to_end_sound s tail in
      rw split (exponent e d (c ∷ []) ds marked (sign c k) first rest)
  | inr k ↦
      let marked : (e == b'e' || e == b'E') ≡ true = ground arith in
      let tail : digits_to_end (c ∷ s) ≡ true = ground arith in
      let (d, ds, split, first, rest) = digits_to_end_sound (c ∷ s) tail in
      rw split (exponent e d [] ds marked no_sign first rest)
]

fraction_to_end_sound :
    (s : Text)
    → fraction_to_end s ≡ true
    → (f : Text) × (e : Text) × (s ≡ f ++ e) × Fraction f × Exponent e
unfolding fraction_to_end
fraction_to_end_sound [] h = ([], [], refl, no_fraction, no_exponent)
fraction_to_end_sound (c ∷ []) h = cc
fraction_to_end_sound (c ∷ d ∷ s) h = elim (Bool-cases (c == b'.')) [
  | inl k ↦
      let (ds, split, all_digits) = skip_digit_run-split s in
      let tail : exponent_to_end (skip_digit_run s) ≡ true = ground arith in
      let dot : c ≡ b'.' = ground arith in
      (
        b'.' ∷ d ∷ ds,
        skip_digit_run s,
        rw dot (ap (λ t. b'.' ∷ d ∷ t) split),
        fraction d ds (ground arith) all_digits,
        exponent_to_end_sound (skip_digit_run s) tail,
      )
  | inr k ↦ ([], c ∷ d ∷ s, refl, no_fraction, exponent_to_end_sound (c ∷ d ∷ s) (rw k at h))
]

integer_to_end_sound :
    (s : Text)
    → integer_to_end s ≡ true
    → (w : Text) × (f : Text) × (e : Text) × (s ≡ w ++ (f ++ e)) × Whole w × Fraction f × Exponent e
unfolding integer_to_end
integer_to_end_sound [] h = cc
integer_to_end_sound (c ∷ s) h = elim (Bool-cases (c == b'0')) [
  | inl k ↦
      let (f, e, split, fits, more) = fraction_to_end_sound s (rw k at h) in
      let zero_first : c ≡ b'0' = ground arith in
      (b'0' ∷ [], f, e, rw zero_first (ap (◌∷◌ b'0') split), zero_digit, fits, more)
  | inr k ↦
      let (ds, split, all_digits) = skip_digit_run-split s in
      let tail : fraction_to_end (skip_digit_run s) ≡ true = ground arith in
      let (f, e, split', fits, more) = fraction_to_end_sound (skip_digit_run s) tail in
      (
        c ∷ ds,
        f,
        e,
        ap (◌∷◌ c) (split ∙ ap (λ t. ds ++ t) split'),
        digits c ds (ground arith) all_digits,
        fits,
        more,
      )
]

number_re_sound : (s : Text) → number_re s ≡ true → NumberText s
unfolding number_re
number_re_sound [] h = cc
number_re_sound (c ∷ s) h = elim (Bool-cases (c == b'-')) [
  | inl k ↦
      let (w, f, e, split, whole, fits, more) = integer_to_end_sound s (rw k at h) in
      let first : c ≡ b'-' = ground arith in rw (first, split) (number_text minus whole fits more)
  | inr k ↦
      let (w, f, e, split, whole, fits, more) = integer_to_end_sound (c ∷ s) (rw k at h) in
      rw split (number_text no_minus whole fits more)
]

digits_to_end_complete :
    (d : ℕ) (ds : Text) → is_digit d ≡ true → AllDigits ds → digits_to_end (d ∷ ds) ≡ true
unfolding digits_to_end
digits_to_end_complete d ds h k =
    let last : skip_digit_run ds ≡ [] = rw (append-nil ds) at (skip_digit_run-append ds [] k tt) in
    rw (h, last) refl

exponent_to_end_complete : (s : Text) → Exponent s → exponent_to_end s ≡ true
unfolding exponent_to_end signed_to_end
exponent_to_end_complete s no_exponent = refl
exponent_to_end_complete s (exponent e d [] ds marked no_sign h k) =
    let plain : (d == b'+' || d == b'-') ≡ false = ground arith in
    rw (marked, plain) (digits_to_end_complete d ds h k)
exponent_to_end_complete s (exponent e d (c ∷ (_ ∷ _)) ds marked x h k) = elim x [ ]
exponent_to_end_complete s (exponent e d (c ∷ []) ds marked (sign c' m) h k) =
    rw (marked, m) (digits_to_end_complete d ds h k)

letter_no_digit : (e : ℕ) → (e == b'e' || e == b'E') ≡ true → is_digit e ≡ false
unfolding is_digit
letter_no_digit e h = ground arith

Exponent-Stops : (s : Text) → Exponent s → Stops s
unfolding is_digit
Exponent-Stops s no_exponent = tt
Exponent-Stops s (exponent e d ss ds marked sg h k) = letter_no_digit e marked

Fraction-Stops : (f e : Text) → Fraction f → Exponent e → Stops (f ++ e)
unfolding is_digit
Fraction-Stops f e no_fraction h = Exponent-Stops e h
Fraction-Stops f e (fraction d ds k l) h = refl

fraction_to_end_complete : (f e : Text) → Fraction f → Exponent e → fraction_to_end (f ++ e) ≡ true
unfolding fraction_to_end
fraction_to_end_complete f [] no_fraction h = refl
fraction_to_end_complete f (c ∷ []) no_fraction h =
    let matched : exponent_to_end (c ∷ []) ≡ true = exponent_to_end_complete (c ∷ []) h in
    absurd (ground arith)
fraction_to_end_complete f (c ∷ d ∷ e) no_fraction h =
    let matched : exponent_to_end (c ∷ d ∷ e) ≡ true = exponent_to_end_complete (c ∷ d ∷ e) h in
    let no_dot : (c == b'.') ≡ false = ground arith in rw no_dot matched
fraction_to_end_complete f e (fraction d ds k l) h =
    rw (k, skip_digit_run-append ds e l (Exponent-Stops e h)) (exponent_to_end_complete e h)

integer_to_end_complete :
    (w f e : Text) → Whole w → Fraction f → Exponent e → integer_to_end (w ++ (f ++ e)) ≡ true
unfolding integer_to_end
integer_to_end_complete w f e zero_digit h k = fraction_to_end_complete f e h k
integer_to_end_complete w f e (digits c ds first l) h k =
    let not_zero : (c == b'0') ≡ false = ground arith in
    rw (not_zero, first, skip_digit_run-append ds (f ++ e) l (Fraction-Stops f e h k))
      (fraction_to_end_complete f e h k)

number_re_complete : (s : Text) → NumberText s → number_re s ≡ true
unfolding number_re
number_re_complete s (number_text {w = w} {f = f} {e = e} minus whole h k) =
    integer_to_end_complete w f e whole h k
number_re_complete s (number_text {f = f} {e = e} no_minus zero_digit h k) =
    integer_to_end_complete (b'0' ∷ []) f e zero_digit h k
number_re_complete s (number_text {f = f} {e = e} no_minus (digits c ds first l) h k) =
    let no_sign_first : (c == b'-') ≡ false = ground arith in
    rw no_sign_first (integer_to_end_complete (c ∷ ds) f e (digits c ds first l) h k)

-- NUMBER_RE matches exactly the number literals of the JSON grammar: an optional minus, a whole part
-- with no leading zero, an optional fraction and an optional exponent.
pub number_re_iff : (s : Text) → (number_re s ≡ true) ↔ NumberText s
number_re_iff s = (number_re_sound s, number_re_complete s)
