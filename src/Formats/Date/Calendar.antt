-- ===== src/Formats/Date/Calendar.antt =====
-- The calendar that `isValidMonthDay` knows, counted.
use oaverify.Common.{
  ℕ, zero, suc, ◌+◌, ◌-◌, ◌%◌, ◌≢◌, ◌⊎◌, ◌≡◌, ◌↔◌, refl, ap, Bool, true, false, ◌&&◌, ◌||◌,
  if◌then◌else◌, Bool-cases, inl, inr, arith, ltb, leb, ◌==◌, get_elem?, none, some,
}
use oaverify.Formats.Date.{is_leap, is_valid_month_day, days_in_month}

-- How many numbers below `n` pass a test, and the sum of a function below `n`.
count_below : ℕ → (ℕ → Bool) → ℕ
count_below zero p = 0
count_below (suc n) p = count_below n p + (if p n then 1 else 0)

pub sum_below : ℕ → (ℕ → ℕ) → ℕ
sum_below zero f = 0
sum_below (suc n) f = sum_below n f + f n

-- The days of a year among all that two fields of two digits can spell.
pub accepted_days : ℕ → ℕ
accepted_days year =
    sum_below 100 (λ month. count_below 100 (λ day. is_valid_month_day year month day))

-- The year is read only through the leap rule.
valid_in : Bool → ℕ → ℕ → Bool
valid_in leap month day =
    if ltb month 1 || ltb 12 month
    then false
    else if ltb day 1
    then false
    else leb day (
        if month == 2 && leap
        then 29
        else elim (get_elem? days_in_month (month - 1)) [ none ↦ 0 | some n ↦ n ])

days_in : Bool → ℕ
days_in leap = sum_below 100 (λ month. count_below 100 (λ day. valid_in leap month day))

days_in_leap : (days_in true ≡ 366) × (days_in false ≡ 365)
unfolding days_in sum_below count_below valid_in
days_in_leap = (refl, refl)

valid_in_lem :
    (year month day : ℕ) → is_valid_month_day year month day ≡ valid_in (is_leap year) month day
unfolding is_valid_month_day valid_in
valid_in_lem year month day = ground arith

accepted_days-days_in : (year : ℕ) → accepted_days year ≡ days_in (is_leap year)
unfolding accepted_days days_in
accepted_days-days_in year = simp valid_in_lem

accepted_days-is_leap : (year : ℕ) → accepted_days year ≡ (if is_leap year then 366 else 365)
accepted_days-is_leap year = elim (Bool-cases (is_leap year)) [
  | inl e ↦ rw (accepted_days-days_in, e) days_in_leap.0
  | inr e ↦ rw (accepted_days-days_in, e) days_in_leap.1
]

-- The Gregorian rule: every fourth year, but of those that end a century only every fourth.
abbrev pub LeapYear : ℕ → Type 0
LeapYear year = (year % 4 ≡ 0) × ((year % 100 ≢ 0) ⊎ (year % 400 ≡ 0))

abbrev pub CommonYear : ℕ → Type 0
CommonYear year = (year % 4 ≢ 0) ⊎ ((year % 100 ≡ 0) × (year % 400 ≢ 0))

pub LeapYear-is_leap : (year : ℕ) → LeapYear year → is_leap year ≡ true
LeapYear-is_leap year (four, rule) = ground arith

pub CommonYear-is_leap : (year : ℕ) → CommonYear year → is_leap year ≡ false
CommonYear-is_leap year (inl four) = ground arith
CommonYear-is_leap year (inr (hundred, rule)) = ground arith

pub LeapYear-or-CommonYear : (year : ℕ) → LeapYear year ⊎ CommonYear year
LeapYear-or-CommonYear year = ground arith

-- The fields of two digits that are accepted as month and day are 366 exactly in the years that are
-- divisible by four and not by a hundred, or by four hundred, and 365 exactly in the others.
pub accepted_days_lem :
    (year : ℕ)
    → ((accepted_days year ≡ 366) ↔ LeapYear year) × ((accepted_days year ≡ 365) ↔ CommonYear year)
accepted_days_lem year = elim (LeapYear-or-CommonYear year) [
  | inl leap ↦
      let days : accepted_days year ≡ 366 =
        rw (accepted_days-is_leap, LeapYear-is_leap year leap) refl in
      (
        (λ h. leap, λ h. days),
        (λ h. let no : ⊥ = ground arith in absurd no, λ h. let no : ⊥ = ground arith in absurd no),
      )
  | inr common ↦
      let days : accepted_days year ≡ 365 =
        rw (accepted_days-is_leap, CommonYear-is_leap year common) refl in
      (
        (λ h. let no : ⊥ = ground arith in absurd no, λ h. let no : ⊥ = ground arith in absurd no),
        (λ h. common, λ h. days),
      )
]

-- A window of `n` years, moved on by one.
window_suc :
    (n : ℕ) (f : ℕ → ℕ) (y : ℕ)
    → sum_below n (λ k. f (y + 1 + k)) + f y ≡ sum_below n (λ k. f (y + k)) + f (y + n)
unfolding sum_below
window_suc zero f y = let e : y ≡ y + 0 = omega arith in omega (arith, ap f e)
window_suc (suc n) f y =
    let e : f (y + 1 + n) ≡ f (y + suc n) = ap f (omega arith) in omega (arith, window_suc n f y)

is_leap_cycle : (y : ℕ) → is_leap (y + 400) ≡ is_leap y
is_leap_cycle y = ground arith

abbrev year_days : ℕ → ℕ
year_days y = if is_leap y then 366 else 365

cycle_days_from_zero : sum_below 400 (λ k. year_days (0 + k)) ≡ 146097
unfolding sum_below
cycle_days_from_zero = refl

cycle_days : (y : ℕ) → sum_below 400 (λ k. year_days (y + k)) ≡ 146097
cycle_days zero = cycle_days_from_zero
cycle_days (suc y) =
    let next : suc y ≡ y + 1 = omega arith in
    let again : year_days (y + 400) ≡ year_days y = rw (is_leap_cycle y) in
    rw next (omega (arith, window_suc 400 year_days y, cycle_days y))

-- Any 400 years in a row have 146097 accepted days, the length of the Gregorian cycle.
pub accepted_days_cycle : (y : ℕ) → sum_below 400 (λ k. accepted_days (y + k)) ≡ 146097
accepted_days_cycle y = simp accepted_days-is_leap (cycle_days y)
