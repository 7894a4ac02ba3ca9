-- ===== src/Formats/Date/Months.antt =====
-- The months that `isValidMonthDay` knows are those of the Gregorian calendar.
use oaverify.Common.{
  ℕ, zero, suc, ◌≤◌, ◌≡◌, ◌↔◌, true, false, inl, inr, arith, leb, ltb, if◌then◌else◌,
}
use oaverify.Formats.Date.{is_valid_month_day}
use oaverify.Formats.Date.Calendar.{
  LeapYear, CommonYear, LeapYear-is_leap, CommonYear-is_leap, LeapYear-or-CommonYear,
}

-- The months and their lengths.
pub data HasDays (year : ℕ) : ℕ → ℕ → Type 0 where
  january : HasDays year 1 31
  february : CommonYear year → HasDays year 2 28
  leap_february : LeapYear year → HasDays year 2 29
  march : HasDays year 3 31
  april : HasDays year 4 30
  may : HasDays year 5 31
  june : HasDays year 6 30
  july : HasDays year 7 31
  august : HasDays year 8 31
  september : HasDays year 9 30
  october : HasDays year 10 31
  november : HasDays year 11 30
  december : HasDays year 12 31

-- The day is one of the month's.
pub record IsDay (year month day : ℕ) : Type 0 where
  pub days : ℕ
  pub has_days : HasDays year month days
  pub from_first : 1 ≤ day
  pub to_last : day ≤ days

within_month :
    (year month n day : ℕ)
    → HasDays year month n
    → 1 ≤ day
    → day ≤ n
    → is_valid_month_day year month day ≡ true
unfolding is_valid_month_day
within_month year month n day january h k = ground arith
within_month year month n day (february common) h k = ground (arith, CommonYear-is_leap year common)
within_month year month n day (leap_february leap) h k = ground (arith, LeapYear-is_leap year leap)
within_month year month n day march h k = ground arith
within_month year month n day april h k = ground arith
within_month year month n day may h k = ground arith
within_month year month n day june h k = ground arith
within_month year month n day july h k = ground arith
within_month year month n day august h k = ground arith
within_month year month n day september h k = ground arith
within_month year month n day october h k = ground arith
within_month year month n day november h k = ground arith
within_month year month n day december h k = ground arith

listed :
    {year month n day : ℕ} → HasDays year month n → (1 ≤ day) × (day ≤ n) → IsDay year month day
listed {n = n} has (first, last) = record {
  days = n;
  has_days = has;
  from_first = first;
  to_last = last;
}

in_month : (n day : ℕ) → (if ltb day 1 then false else leb day n) ≡ true → (1 ≤ day) × (day ≤ n)
in_month n day h = ground arith

valid_IsDay : (year month day : ℕ) → is_valid_month_day year month day ≡ true → IsDay year month day
unfolding is_valid_month_day
valid_IsDay year zero day h = cc
valid_IsDay year (suc zero) day h = listed january (in_month 31 day h)
valid_IsDay year (suc (suc zero)) day h = elim (LeapYear-or-CommonYear year) [
  | inl leap ↦ record {
    days = 29;
    has_days = leap_february leap;
    from_first = ground arith;
    to_last = ground (arith, LeapYear-is_leap year leap);
  }
  | inr common ↦ record {
    days = 28;
    has_days = february common;
    from_first = ground arith;
    to_last = ground (arith, CommonYear-is_leap year common);
  }
]
valid_IsDay year (suc (suc (suc zero))) day h = listed march (in_month 31 day h)
valid_IsDay year (suc (suc (suc (suc zero)))) day h = listed april (in_month 30 day h)
valid_IsDay year (suc (suc (suc (suc (suc zero))))) day h = listed may (in_month 31 day h)
valid_IsDay year (suc (suc (suc (suc (suc (suc zero)))))) day h = listed june (in_month 30 day h)
valid_IsDay year (suc (suc (suc (suc (suc (suc (suc zero))))))) day h =
    listed july (in_month 31 day h)
valid_IsDay year (suc (suc (suc (suc (suc (suc (suc (suc zero)))))))) day h =
    listed august (in_month 31 day h)
valid_IsDay year (suc (suc (suc (suc (suc (suc (suc (suc (suc zero))))))))) day h =
    listed september (in_month 30 day h)
valid_IsDay year (suc (suc (suc (suc (suc (suc (suc (suc (suc (suc zero)))))))))) day h =
    listed october (in_month 31 day h)
valid_IsDay year (suc (suc (suc (suc (suc (suc (suc (suc (suc (suc (suc zero))))))))))) day h =
    listed november (in_month 30 day h)
valid_IsDay year (suc (suc (suc (suc (suc (suc (suc (suc (suc (suc (suc (suc zero)))))))))))) day
      h =
    listed december (in_month 31 day h)
valid_IsDay year (suc (suc (suc (suc (suc (suc (suc (suc (suc (suc (suc (suc (suc m))))))))))))) day
      h =
    let no : ⊥ = ground arith in absurd no

pub is_valid_month_day_iff :
    (year month day : ℕ) → (is_valid_month_day year month day ≡ true) ↔ IsDay year month day
is_valid_month_day_iff year month day = (
  valid_IsDay year month day,
  λ h. within_month year month h.days day h.has_days h.from_first h.to_last,
)
