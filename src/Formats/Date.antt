-- ===== src/Formats/Date.antt =====
-- packages/formats/src/date.ts: RFC 3339 dates and times. A regular expression of the source is
-- read as a chain of readers: none of those here can backtrack into another match, since what
-- follows a run of digits is never a digit.
pub mod Calendar
pub mod Months
pub mod RoundTrip
pub mod Leap
use oaverify.Common.{
  ℕ, zero, suc, ◌+◌, ◌-◌, ◌*◌, ◌%◌, Bool, true, false, not, ◌&&◌, ◌||◌, Option, none, some, List,
  [], ◌∷◌, ◌==◌, if◌then◌else◌, ltb, leb, is_some, ◌>>=◌, Text, get_elem?, is_digit,
}

-- `DAYS_IN_MONTH`
abbrev pub days_in_month : List ℕ
days_in_month = 31 ∷ 28 ∷ 31 ∷ 30 ∷ 31 ∷ 30 ∷ 31 ∷ 31 ∷ 30 ∷ 31 ∷ 30 ∷ 31 ∷ []

abbrev or_zero : Option ℕ → ℕ
or_zero none = 0
or_zero (some n) = n

abbrev pub is_leap : ℕ → Bool
is_leap year = year % 4 == 0 && (not (year % 100 == 0) || year % 400 == 0)

unfoldable pub is_valid_month_day : ℕ → ℕ → ℕ → Bool
is_valid_month_day year month day =
    if ltb month 1 || ltb 12 month
    then false
    else if ltb day 1
    then false
    else leb day
        (if month == 2 && is_leap year then 29 else or_zero (get_elem? days_in_month (month - 1)))

-- `(\d{2})` and `(\d{4})` with `Number.parseInt`, and the text behind.
unfoldable pub read_two : Text → Option (ℕ × Text)
unfolding is_digit
read_two (a ∷ b ∷ s) = if is_digit a && is_digit b then some ((a - 48) * 10 + (b - 48), s) else none
read_two _ = none

unfoldable pub read_four : Text → Option (ℕ × Text)
unfolding is_digit
read_four (a ∷ b ∷ c ∷ d ∷ s) =
    if is_digit a && is_digit b && is_digit c && is_digit d
    then some ((a - 48) * 1000 + (b - 48) * 100 + (c - 48) * 10 + (d - 48), s)
    else none
read_four _ = none

unfoldable pub read_unit : ℕ → Text → Option Text
read_unit c [] = none
read_unit c (x ∷ s) = if x == c then some s else none

-- `$`
abbrev pub at_end : Text → Bool
at_end [] = true
at_end (c ∷ s) = false

pub record Date : Type 0 where
  pub year : ℕ
  pub month : ℕ
  pub day : ℕ

pub record Time : Type 0 where
  pub hour : ℕ
  pub minute : ℕ
  pub second : ℕ

-- `(\d{4})-(\d{2})-(\d{2})`
unfoldable pub read_date : Text → Option (Date × Text)
read_date s = do
  (year, s1) ← read_four s
  s2 ← read_unit b'-' s1
  (month, s3) ← read_two s2
  s4 ← read_unit b'-' s3
  (day, s5) ← read_two s4
  some (record { year = year; month = month; day = day }, s5)

unfoldable pub skip_digits : Text → Text
unfolding is_digit
skip_digits [] = []
skip_digits (c ∷ s) = if is_digit c then skip_digits s else c ∷ s

-- `(?:\.\d+)?`: a point with no digit behind it is left where it is.
unfoldable pub skip_fraction : Text → Text
unfolding skip_digits
skip_fraction (p ∷ d ∷ s) = if p == b'.' && is_digit d then skip_digits s else p ∷ d ∷ s
skip_fraction s = s

-- `(\d{2}):(\d{2}):(\d{2})(?:\.\d+)?`
unfoldable pub read_time : Text → Option (Time × Text)
read_time s = do
  (hour, s1) ← read_two s
  s2 ← read_unit b':' s1
  (minute, s3) ← read_two s2
  s4 ← read_unit b':' s3
  (second, s5) ← read_two s4
  some (record { hour = hour; minute = minute; second = second }, skip_fraction s5)

-- `Z`, or a sign with hours and minutes.
pub data Offset : Type 0 where
  zulu : Offset
  ahead behind : (hour minute : ℕ) → Offset

-- `\d{2}:\d{2}$` behind the sign
unfoldable pub read_offset_fields : (ℕ → ℕ → Offset) → Text → Option Offset
read_offset_fields sign s = do
  (hour, s1) ← read_two s
  s2 ← read_unit b':' s1
  (minute, s3) ← read_two s2
  if at_end s3 then some (sign hour minute) else none

-- `(Z|[+-]\d{2}:\d{2})$` with the flag `i`
unfoldable pub read_offset : Text → Option Offset
read_offset [] = none
read_offset (c ∷ s) =
    if c == b'Z' || c == b'z'
    then (if at_end s then some zulu else none)
    else if c == b'+'
    then read_offset_fields ahead s
    else if c == b'-'
    then read_offset_fields behind s
    else none

-- `LAST_MINUTE_UTC`
abbrev pub last_minute_utc : ℕ
last_minute_utc = 23 * 60 + 59

-- `((local - offset) % 1440 + 1440) % 1440`, where JavaScript's remainder has the sign of its left
-- side: a time behind the offset leaves a negative one.
unfoldable pub wrap_ahead : ℕ → ℕ → ℕ
wrap_ahead minutes offset =
    if leb offset minutes
    then ((minutes - offset) % 1440 + 1440) % 1440
    else (1440 - (offset - minutes) % 1440) % 1440

unfoldable pub wrap_behind : ℕ → ℕ → ℕ
wrap_behind minutes offset = ((minutes + offset) % 1440 + 1440) % 1440

unfoldable pub utc_minute_of_day : ℕ → ℕ → Offset → Option ℕ
unfolding wrap_ahead wrap_behind
utc_minute_of_day hour minute zulu =
    if ltb 23 hour || ltb 59 minute then none else some (wrap_behind (hour * 60 + minute) 0)
utc_minute_of_day hour minute (ahead h m) =
    if ltb 23 hour || ltb 59 minute
    then none
    else if ltb 23 h || ltb 59 m
    then none
    else some (wrap_ahead (hour * 60 + minute) (h * 60 + m))
utc_minute_of_day hour minute (behind h m) =
    if ltb 23 hour || ltb 59 minute
    then none
    else if ltb 23 h || ltb 59 m
    then none
    else some (wrap_behind (hour * 60 + minute) (h * 60 + m))

abbrev pub is_leap_second_position : ℕ → ℕ → Bool
is_leap_second_position second utc_minute = not (second == 60) || utc_minute == last_minute_utc

unfoldable pub is_instant : Time → Offset → Bool
unfolding utc_minute_of_day
is_instant t offset =
    if ltb 60 t.second then false else elim (utc_minute_of_day t.hour t.minute offset) [
      | none ↦ false
      | some utc_minute ↦ is_leap_second_position t.second utc_minute
    ]

unfoldable pub is_local_time_of_day : Time → Bool
is_local_time_of_day t = leb t.hour 23 && leb t.minute 59 && leb t.second 60

abbrev pub valid_day : Date → Bool
valid_day d = is_valid_month_day d.year d.month d.day

unfoldable pub validate_date : Text → Bool
validate_date value = elim (read_date value) [
  | none ↦ false
  | some (d, rest) ↦ at_end rest && valid_day d
]

abbrev pub parse_time : Text → Option (Time × Offset)
parse_time value = do (t, s) ← read_time value; offset ← read_offset s; some (t, offset)

unfoldable pub validate_time : Text → Bool
validate_time value = elim (parse_time value) [
  | none ↦ false
  | some (t, offset) ↦ is_instant t offset
]

-- `T` with the flag `i`
abbrev read_t : Text → Option Text
read_t [] = none
read_t (c ∷ s) = if c == b'T' || c == b't' then some s else none

abbrev parse_date_time : Text → Option (Date × Text)
parse_date_time value = do (d, s) ← read_date value; s' ← read_t s; some (d, s')

unfoldable pub validate_date_time : Text → Bool
validate_date_time value = elim (parse_date_time value) [
  | none ↦ false
  | some (d, s) ↦ elim (parse_time s) [
    | none ↦ false
    | some (t, offset) ↦ if not (valid_day d) then false else is_instant t offset
  ]
]

abbrev parse_local_time : Text → Option Time
parse_local_time value = do (t, s) ← read_time value; if at_end s then some t else none

unfoldable pub validate_time_local : Text → Bool
validate_time_local value = elim (parse_local_time value) [
  | none ↦ false
  | some t ↦ is_local_time_of_day t
]

unfoldable pub validate_date_time_local : Text → Bool
validate_date_time_local value = elim (parse_date_time value) [
  | none ↦ false
  | some (d, s) ↦ elim (parse_local_time s) [
    | none ↦ false
    | some t ↦ if not (valid_day d) then false else is_local_time_of_day t
  ]
]
