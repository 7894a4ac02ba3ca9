-- ===== src/Formats/Date/Leap.antt =====
-- `validateTime` on a printed time: the ranges of the fields, and the one minute of the day in UTC
-- that can hold a leap second.
use oaverify.Common.{
  ℕ, ◌+◌, ◌*◌, ◌%◌, ◌<◌, ◌≤◌, ◌≡◌, ◌↔◌, ◌⊎◌, refl, true, false, arith, some, List, [], ◌∷◌, ◌++◌,
  Text, is_digit, all, and-eq-true_iff,
}
use oaverify.Formats.Date.{
  Time, Offset, zulu, ahead, behind, read_unit, read_time, read_offset, read_offset_fields,
  skip_digits, skip_fraction, is_instant, utc_minute_of_day, wrap_ahead, wrap_behind, parse_time,
  validate_time,
}
use oaverify.Formats.Date.RoundTrip.{print_two, read_two-print}

-- The offsets of a clock.
pub IsClock : ℕ → ℕ → Type 0
IsClock hour minute = (hour ≤ 23) × (minute ≤ 59)

pub OffsetInRange : Offset → Type 0
OffsetInRange zulu = Unit
OffsetInRange (ahead h m) = IsClock h m
OffsetInRange (behind h m) = IsClock h m

-- The time is 23:59 in UTC: modulo a day, local time is UTC and the offset together.
pub IsLastMinute : Time → Offset → Type 0
IsLastMinute t zulu = (t.hour * 60 + t.minute) % 1440 ≡ 1439
IsLastMinute t (ahead h m) = (t.hour * 60 + t.minute) % 1440 ≡ (1439 + (h * 60 + m)) % 1440
IsLastMinute t (behind h m) = (t.hour * 60 + t.minute + (h * 60 + m)) % 1440 ≡ 1439

-- An instant of RFC 3339.
pub IsInstant : Time → Offset → Type 0
IsInstant t offset =
    IsClock t.hour t.minute
    × OffsetInRange offset
    × ((t.second < 60) ⊎ ((t.second ≡ 60) × IsLastMinute t offset))

is_instant_iff : (t : Time) (offset : Offset) → (is_instant t offset ≡ true) ↔ IsInstant t offset
unfolding is_instant utc_minute_of_day wrap_ahead wrap_behind IsInstant IsClock OffsetInRange
    IsLastMinute
is_instant_iff t zulu = ground arith
is_instant_iff t (ahead h m) = ground arith
is_instant_iff t (behind h m) = ground arith

-- The digits behind the point of a fraction, when there are any.
pub print_fraction : List ℕ → Text → Text
print_fraction [] s = s
print_fraction (d ∷ ds) s = b'.' ∷ d ∷ (ds ++ s)

pub print_offset : Offset → Text
print_offset zulu = b'Z' ∷ []
print_offset (ahead h m) = b'+' ∷ print_two h (b':' ∷ print_two m [])
print_offset (behind h m) = b'-' ∷ print_two h (b':' ∷ print_two m [])

pub print_time : Time → List ℕ → Offset → Text
print_time t fraction offset = print_two t.hour (
    b':'
    ∷ print_two t.minute
        (b':' ∷ print_two t.second (print_fraction fraction (print_offset offset))))

-- What two digits can spell.
abbrev pub OffsetSpelled : Offset → Type 0
OffsetSpelled zulu = Unit
OffsetSpelled (ahead h m) = (h < 100) × (m < 100)
OffsetSpelled (behind h m) = (h < 100) × (m < 100)

pub record TimeSpelled (t : Time) : Type 0 where
  pub hour : t.hour < 100
  pub minute : t.minute < 100
  pub second : t.second < 100

skip_digits-append :
    (ds : List ℕ) (c : ℕ) (s : Text)
    → all is_digit ds ≡ true
    → is_digit c ≡ false
    → skip_digits (ds ++ c ∷ s) ≡ c ∷ s
unfolding skip_digits
skip_digits-append [] c s digits stop = rw stop
skip_digits-append (d ∷ ds) c s digits stop =
    let (here, more) = (and-eq-true_iff (is_digit d) (all is_digit ds)).0 digits in
    rw here (skip_digits-append ds c s more stop)

skip_fraction-print :
    (ds : List ℕ) (offset : Offset)
    → all is_digit ds ≡ true
    → skip_fraction (print_fraction ds (print_offset offset)) ≡ print_offset offset
unfolding skip_fraction print_fraction print_offset is_digit
skip_fraction-print [] zulu digits = refl
skip_fraction-print [] (ahead h m) digits = refl
skip_fraction-print [] (behind h m) digits = refl
skip_fraction-print (d ∷ ds) offset digits =
    let (here, more) = (and-eq-true_iff (is_digit d) (all is_digit ds)).0 digits in
    rw here (past offset more)
  where
    past :
        (offset : Offset)
        → all is_digit ds ≡ true
        → skip_digits (ds ++ print_offset offset) ≡ print_offset offset
    past zulu more = skip_digits-append ds b'Z' [] more refl
    past (ahead h m) more =
        skip_digits-append ds b'+' (print_two h (b':' ∷ print_two m [])) more refl
    past (behind h m) more =
        skip_digits-append ds b'-' (print_two h (b':' ∷ print_two m [])) more refl

read_offset-print :
    (offset : Offset) → OffsetSpelled offset → read_offset (print_offset offset) ≡ some offset
unfolding read_offset read_offset_fields print_offset read_unit
read_offset-print zulu h = refl
read_offset-print (ahead h m) (hh, mm) =
    rw (read_two-print h (b':' ∷ print_two m []) hh) (rw (read_two-print m [] mm))
read_offset-print (behind h m) (hh, mm) =
    rw (read_two-print h (b':' ∷ print_two m []) hh) (rw (read_two-print m [] mm))

parse_time-print :
    (t : Time) (fraction : List ℕ) (offset : Offset)
    → TimeSpelled t
    → all is_digit fraction ≡ true
    → OffsetSpelled offset
    → parse_time (print_time t fraction offset) ≡ some (t, offset)
unfolding read_time read_unit print_time
parse_time-print t fraction offset spelled digits offset_spelled =
    let tail = print_fraction fraction (print_offset offset) in
    rw
      (read_two-print t.hour (b':' ∷ print_two t.minute (b':' ∷ print_two t.second tail))
        spelled.hour)
      (rw (read_two-print t.minute (b':' ∷ print_two t.second tail) spelled.minute) (
        rw (read_two-print t.second tail spelled.second) (
          rw
            (skip_fraction-print fraction offset digits, read_offset-print offset offset_spelled))))

-- A printed time with any fraction and an offset is accepted exactly when its fields are a time of
-- day, its offset is in range, and a sixtieth second stands in the last minute of the day in UTC.
pub validate_time-print_iff :
    (t : Time) (fraction : List ℕ) (offset : Offset)
    → TimeSpelled t
    → all is_digit fraction ≡ true
    → OffsetSpelled offset
    → (validate_time (print_time t fraction offset) ≡ true) ↔ IsInstant t offset
unfolding validate_time
validate_time-print_iff t fraction offset spelled digits offset_spelled =
    rw (validate_time, parse_time-print t fraction offset spelled digits offset_spelled)
      (is_instant_iff t offset)
