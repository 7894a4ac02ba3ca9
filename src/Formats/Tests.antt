-- ===== src/Formats/Tests.antt =====
-- Runs and examples of the formats.
use oaverify.Common.{
  inl, includes, text_eq, ◌++◌, ◌+◌, ◌≡◌, ◌↔◌, refl, true, false, arith, [], ◌∷◌, codes, all,
  is_digit, split, index_of, find_at, starts_with,
}
use oaverify.Formats.Date
use oaverify.Formats.Date.{
  validate_date, validate_time, validate_date_time, validate_time_local, validate_date_time_local,
  Date, Time, ahead, behind, zulu, is_leap, valid_day,
}
use oaverify.Formats.Ip
use oaverify.Formats.Ip.{validate_ipv4, validate_ipv4_cidr}
use oaverify.Formats.Ip.{validate_ipv6, validate_ipv6_cidr}
use oaverify.Common.Percent.{hex_value}
use oaverify.Formats.Ip.Cidr.{validate_ipv4_cidr_iff}
use oaverify.Formats.Ip.Octets.{print_decimal, print_ipv4, validate_ipv4_iff}
use oaverify.Formats.Date.Calendar.{
  LeapYear, CommonYear, accepted_days, accepted_days_lem, accepted_days_cycle, sum_below,
}
use oaverify.Formats.Date.Months.{IsDay, leap_february}
use oaverify.Formats.Date.RoundTrip.{Spelled, validate_date_iff}
use oaverify.Formats.Date.Leap.{print_time, IsInstant, validate_time-print_iff}

-- What the runs unfold.
dates : Unit {0}
unfolding is_digit Date.read_two Date.read_four Date.read_unit Date.read_date Date.read_time
    Date.read_offset Date.read_offset_fields Date.skip_digits Date.skip_fraction Date.wrap_ahead
    Date.wrap_behind Date.utc_minute_of_day Date.is_instant Date.is_local_time_of_day
    Date.is_valid_month_day validate_date validate_time validate_date_time validate_time_local
    validate_date_time_local
dates = tt

dates_run :
    (validate_date (codes "2024-02-29") ≡ true)
    × (validate_date (codes "2023-02-29") ≡ false)
    × (validate_date (codes "1900-02-29") ≡ false)
    × (validate_date (codes "2023-1-01") ≡ false)
    × (validate_date_time (codes "1998-12-31t23:59:60z") ≡ true)
    × (validate_date_time (codes "1998-12-31T23:58:60Z") ≡ false)
unfolding dates
dates_run = (refl, refl, refl, refl, refl, refl)

times_run :
    (validate_time (codes "15:59:60-08:00") ≡ true)
    × (validate_time (codes "01:29:60.123+01:30") ≡ true)
    × (validate_time (codes "12:00:00.Z") ≡ false)
    × (validate_time (codes "12:00:00+24:00") ≡ false)
    × (validate_time_local (codes "23:59:60.5") ≡ true)
    × (validate_time_local (codes "23:59:60Z") ≡ false)
unfolding dates
times_run = (refl, refl, refl, refl, refl, refl)

abbrev leap_day : Date
leap_day = record { year = 2024; month = 2; day = 29 }

leap_day-Spelled : Spelled leap_day
leap_day-Spelled = record { year = omega arith; month = omega arith; day = omega arith }

leap_2024 : LeapYear 2024
leap_2024 = (refl, inl (λ h. cc))

validate_date_iff_example : validate_date (codes "2024-02-29") ≡ true
unfolding Date.is_valid_month_day
validate_date_iff_example =
    (validate_date_iff (codes "2024-02-29")).1 (leap_day, leap_day-Spelled, refl, leap_day_IsDay)
  where
    leap_day_IsDay : IsDay 2024 2 29
    leap_day_IsDay = record {
      days = 29;
      has_days = leap_february leap_2024;
      from_first = omega arith;
      to_last = omega arith;
    }

accepted_days_lem_example :
    ((accepted_days 2024 ≡ 366) ↔ LeapYear 2024) × ((accepted_days 2024 ≡ 365) ↔ CommonYear 2024)
accepted_days_lem_example = accepted_days_lem 2024

accepted_days_cycle_example : sum_below 400 (λ k. accepted_days (1999 + k)) ≡ 146097
accepted_days_cycle_example = accepted_days_cycle 1999

-- A leap second in the time of California.
abbrev leap_second : Time
leap_second = record { hour = 15; minute = 59; second = 60 }

validate_time-print_iff_example :
    (validate_time (print_time leap_second (b'5' ∷ []) (behind 8 0)) ≡ true)
    ↔ IsInstant leap_second (behind 8 0)
unfolding is_digit
validate_time-print_iff_example =
    validate_time-print_iff leap_second (b'5' ∷ []) (behind 8 0)
      (record { hour = omega arith; minute = omega arith; second = omega arith }) digits
      (omega arith, omega arith)
  where
    digits : all is_digit (b'5' ∷ []) ≡ true
    digits = refl

addresses_run :
    (validate_ipv4 (codes "192.168.0.255") ≡ true)
    × (validate_ipv4 (codes "192.168.0.256") ≡ false)
    × (validate_ipv4 (codes "192.168.00.1") ≡ false)
    × (validate_ipv4 (codes "1.2.3") ≡ false)
    × (validate_ipv4_cidr (codes "192.0.2.1/24") ≡ true)
    × (validate_ipv4_cidr (codes "192.0.2.1/33") ≡ false)
    × (validate_ipv4_cidr (codes "192.0.2.1/24/8") ≡ false)
unfolding Ip.parse_decimal Ip.is_octet validate_ipv4 Ip.cidr_address validate_ipv4_cidr split
    is_digit index_of find_at starts_with
addresses_run = (refl, refl, refl, refl, refl, refl, refl)

validate_ipv4_iff_example : validate_ipv4 (print_ipv4 10 0 0 255) ≡ true
validate_ipv4_iff_example =
    (validate_ipv4_iff (print_ipv4 10 0 0 255)).1
      (10, 0, 0, 255, (omega arith, omega arith, omega arith, omega arith), refl)

validate_ipv4_cidr_iff_example :
    validate_ipv4_cidr (print_ipv4 10 0 0 0 ++ b'/' ∷ print_decimal 8) ≡ true
validate_ipv4_cidr_iff_example =
    (validate_ipv4_cidr_iff (print_ipv4 10 0 0 0 ++ b'/' ∷ print_decimal 8)).1
      (10, 0, 0, 0, 8, (omega arith, omega arith, omega arith, omega arith), omega arith, refl)

ipv6_run :
    (validate_ipv6 (codes "2001:db8::1") ≡ true)
    × (validate_ipv6 (codes "::ffff:192.0.2.1") ≡ true)
    × (validate_ipv6 (codes "1:2:3:4:5:6:7:8") ≡ true)
    × (validate_ipv6 (codes "1:2:3:4:5:6:7::8") ≡ false)
    × (validate_ipv6 (codes "1::2::3") ≡ false)
    × (validate_ipv6 (codes "::1.2.3") ≡ false)
    × (validate_ipv6 (codes "12345::") ≡ false)
    × (validate_ipv6_cidr (codes "2001:db8::/32") ≡ true)
    × (validate_ipv6_cidr (codes "::/129") ≡ false)
unfolding Ip.parse_decimal Ip.is_octet validate_ipv4 Ip.cidr_address Ip.after_last Ip.embedded
    Ip.double_colon_count Ip.is_group Ip.groups_of validate_ipv6 validate_ipv6_cidr split is_digit
    index_of find_at starts_with includes text_eq hex_value
ipv6_run = (refl, refl, refl, refl, refl, refl, refl, refl, refl)
