-- ===== src/Formats/Date/RoundTrip.antt =====
-- `validateDate` accepts exactly the printed forms of real dates.
use oaverify.Common.{
  ℕ, ◌+◌, ◌-◌, ◌*◌, ◌/◌, ◌%◌, ◌<◌, ◌≤◌, ◌≡◌, ◌↔◌, refl, ap, ◌∙◌, Bool, true, ◌&&◌, Bool-cases, inl,
  inr, arith, some, [], ◌∷◌, Text, >>=-eq-some, is_digit, Option-cases, subst, and-eq-true_iff,
}
use oaverify.Formats.Date.Months.{IsDay, is_valid_month_day_iff}
use oaverify.Formats.Date.{
  Date, read_two, read_four, read_unit, read_date, at_end, validate_date, valid_day,
}

-- Fields padded with zeros.
abbrev pub print_two : ℕ → Text → Text
print_two n s = (48 + n / 10) ∷ (48 + n % 10) ∷ s

abbrev pub print_four : ℕ → Text → Text
print_four n s = (48 + n / 1000) ∷ (48 + n / 100 % 10) ∷ (48 + n / 10 % 10) ∷ (48 + n % 10) ∷ s

pub read_two-print : (n : ℕ) (s : Text) → n < 100 → read_two (print_two n s) ≡ some (n, s)
unfolding read_two
read_two-print n s h = ground arith

read_four-print : (n : ℕ) (s : Text) → n < 10000 → read_four (print_four n s) ≡ some (n, s)
unfolding read_four
read_four-print n s h = ground arith

pub read_two_sound :
    (s : Text) {n : ℕ} {rest : Text}
    → read_two s ≡ some (n, rest)
    → (n < 100) × (s ≡ print_two n rest)
unfolding read_two
read_two_sound [] h = cc
read_two_sound (a ∷ []) h = cc
read_two_sound (a ∷ b ∷ s) h = ground arith

is_digit_range : (c : ℕ) → is_digit c ≡ true → (48 ≤ c) × (c ≤ 57)
unfolding is_digit
is_digit_range c h = ground arith

-- Four digits are the print of the number that they spell.
print_four-digits :
    (a b c d n : ℕ) (s : Text)
    → (48 ≤ a) × (a ≤ 57)
    → (48 ≤ b) × (b ≤ 57)
    → (48 ≤ c) × (c ≤ 57)
    → (48 ≤ d) × (d ≤ 57)
    → n ≡ (a - 48) * 1000 + (b - 48) * 100 + (c - 48) * 10 + (d - 48)
    → (n < 10000) × (a ∷ b ∷ c ∷ d ∷ s ≡ print_four n s)
print_four-digits a b c d n s ha hb hc hd e =
    let ea : a ≡ 48 + n / 1000 = omega arith in
    let eb : b ≡ 48 + n / 100 % 10 = omega arith in
    let ec : c ≡ 48 + n / 10 % 10 = omega arith in
    let ed : d ≡ 48 + n % 10 = omega arith in (omega arith, λ i. ea i ∷ eb i ∷ ec i ∷ ed i ∷ s)

all_four :
    (p q r t : Bool) → p && q && r && t ≡ true → (p ≡ true) × (q ≡ true) × (r ≡ true) × (t ≡ true)
all_four p q r t e = ground arith

read_four_sound :
    (s : Text) {n : ℕ} {rest : Text}
    → read_four s ≡ some (n, rest)
    → (n < 10000) × (s ≡ print_four n rest)
unfolding read_four
read_four_sound [] h = cc
read_four_sound (a ∷ []) h = cc
read_four_sound (a ∷ b ∷ []) h = cc
read_four_sound (a ∷ b ∷ c ∷ []) h = cc
read_four_sound (a ∷ b ∷ c ∷ d ∷ s) {n} h =
    elim (Bool-cases (is_digit a && is_digit b && is_digit c && is_digit d)) [
      | inr e ↦ cc (rw e at h)
      | inl e ↦
          let h' = rw e at h in
          let (ha, hb, hc, hd) = all_four (is_digit a) _ _ _ e in
          let (small, same) =
            print_four-digits a b c d n s (is_digit_range a ha) (is_digit_range b hb)
              (is_digit_range c hc) (is_digit_range d hd) (cc h') in
          (small, same ∙ cc h')
    ]

abbrev pub print_date : Date → Text → Text
print_date d s = print_four d.year (b'-' ∷ print_two d.month (b'-' ∷ print_two d.day s))

read_unit_sound : (c : ℕ) (s : Text) {rest : Text} → read_unit c s ≡ some rest → s ≡ c ∷ rest
unfolding read_unit
read_unit_sound c [] h = cc
read_unit_sound c (x ∷ s) h = ground arith

-- The fields that four and two digits can spell.
pub record Spelled (d : Date) : Type 0 where
  pub year : d.year < 10000
  pub month : d.month < 100
  pub day : d.day < 100

read_date-print : (d : Date) (s : Text) → Spelled d → read_date (print_date d s) ≡ some (d, s)
unfolding read_date read_unit
read_date-print d s h =
    rw (read_four-print d.year (b'-' ∷ print_two d.month (b'-' ∷ print_two d.day s)) h.year) (
      rw (read_two-print d.month (b'-' ∷ print_two d.day s) h.month)
        (rw (read_two-print d.day s h.day)))

read_date_sound :
    (s : Text) {d : Date} {rest : Text}
    → read_date s ≡ some (d, rest)
    → Spelled d × (s ≡ print_date d rest)
unfolding read_date
read_date_sound s {d} {rest} h =
    let ((y, s1), e1, h1) = >>=-eq-some (read_four s) _ h in
    let (s2, e2, h2) = >>=-eq-some (read_unit b'-' s1) _ h1 in
    let ((m, s3), e3, h3) = >>=-eq-some (read_two s2) _ h2 in
    let (s4, e4, h4) = >>=-eq-some (read_unit b'-' s3) _ h3 in
    let ((n, s5), e5, h5) = >>=-eq-some (read_two s4) _ h4 in
    let whole : (record { year = y; month = m; day = n }, s5) ≡ (d, rest) = cc h5 in
    fields y m n s5 whole (read_four_sound s e1) (read_unit_sound b'-' s1 e2) (read_two_sound s2 e3)
      (read_unit_sound b'-' s3 e4) (read_two_sound s4 e5)
  where
    fields :
        (y m n : ℕ) {s1 s2 s3 s4 : Text} (s5 : Text)
        → ◌≡◌ {A = Date × Text} (record { year = y; month = m; day = n }, s5) (d, rest)
        → (y < 10000) × (s ≡ print_four y s1)
        → s1 ≡ b'-' ∷ s2
        → (m < 100) × (s2 ≡ print_two m s3)
        → s3 ≡ b'-' ∷ s4
        → (n < 100) × (s4 ≡ print_two n s5)
        → Spelled d × (s ≡ print_date d rest)
    fields y m n s5 whole f4 u1 t1 u2 t2 =
        subst (λ p. Spelled p.0 × (s ≡ print_date p.0 p.1)) whole
          (
            record { year = f4.0; month = t1.0; day = t2.0 },
            f4.1
                ∙ ap (print_four y)
                    (u1 ∙ ap (◌∷◌ b'-') (t1.1 ∙ ap (print_two m) (u2 ∙ ap (◌∷◌ b'-') t2.1))),
          )

at_end_sound : (s : Text) → at_end s ≡ true → s ≡ []
at_end_sound [] h = refl
at_end_sound (c ∷ s) h = cc

-- A text is accepted as a date exactly when it is the print, with fields of four, two and two
-- digits and dashes between, of a year below 10000, a month from 1 to 12 and a day that this month
-- has in the Gregorian calendar: 29 February where the year is divisible by four and not by a
-- hundred, or by four hundred.
pub validate_date_iff :
    (s : Text)
    → (validate_date s ≡ true)
      ↔ ((d : Date) × Spelled d × (s ≡ print_date d []) × IsDay d.year d.month d.day)
unfolding validate_date
validate_date_iff s = (sound, complete)
  where
    sound :
        validate_date s ≡ true
        → (d : Date) × Spelled d × (s ≡ print_date d []) × IsDay d.year d.month d.day
    sound h = elim (Option-cases (read_date s)) [
      | inl e ↦ cc (rw (e, validate_date) at h)
      | inr ((d, rest), e) ↦
          let (end, valid) =
            (and-eq-true_iff (at_end rest) (valid_day d)).0 (rw (e, validate_date) at h) in
          let (spelled, print) = read_date_sound s e in
          (
            d,
            spelled,
            print ∙ ap (print_date d) (at_end_sound rest end),
            (is_valid_month_day_iff d.year d.month d.day).0 valid,
          )
    ]

    complete :
        ((d : Date) × Spelled d × (s ≡ print_date d []) × IsDay d.year d.month d.day)
        → validate_date s ≡ true
    complete (d, spelled, print, valid) = rw print (
        rw (read_date-print d [] spelled, validate_date)
          ((is_valid_month_day_iff d.year d.month d.day).1 valid))
