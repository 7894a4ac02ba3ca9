-- ===== src/Formats/Ip/Octets.antt =====
-- `validateIpv4` accepts exactly the canonical dotted quads.
use oaverify.Common.{
  ℕ, ◌+◌, ◌/◌, ◌%◌, ◌<◌, ◌≤◌, ◌≡◌, ◌↔◌, refl, sym, true, false, not, if◌then◌else◌, Bool-cases,
  Option-cases, inl, inr, arith, ltb, ◌==◌, some, List, [], ◌∷◌, ◌++◌, Text, length, all,
  and-eq-true_iff, includes, is_digit, split, join, join-split, split-append, split_whole,
}
use oaverify.Formats.Ip.{parse_decimal, is_octet, validate_ipv4}

-- A number below a thousand in decimal, without leading zeros.
abbrev pub print_decimal : ℕ → Text
print_decimal n =
    if ltb n 10
    then (48 + n) ∷ []
    else if ltb n 100
    then (48 + n / 10) ∷ (48 + n % 10) ∷ []
    else (48 + n / 100) ∷ (48 + n / 10 % 10) ∷ (48 + n % 10) ∷ []

pub parse_decimal-print : (n : ℕ) → n < 1000 → parse_decimal (print_decimal n) ≡ some n
unfolding parse_decimal is_digit
parse_decimal-print n h = ground arith

pub parse_decimal_sound :
    (s : Text) {n : ℕ} → parse_decimal s ≡ some n → (n < 1000) × (s ≡ print_decimal n)
unfolding parse_decimal is_digit
parse_decimal_sound [] h = cc
parse_decimal_sound (a ∷ []) h = ground arith
parse_decimal_sound (a ∷ b ∷ []) h = ground arith
parse_decimal_sound (a ∷ b ∷ c ∷ []) h = ground arith
parse_decimal_sound (a ∷ b ∷ c ∷ d ∷ s) h = cc

unfoldable pub print_ipv4 : (a b c d : ℕ) → Text
print_ipv4 a b c d =
    print_decimal a
    ++ b'.' ∷ (print_decimal b ++ b'.' ∷ (print_decimal c ++ b'.' ∷ print_decimal d))

-- The numbers of an address.
abbrev pub AreOctets : (a b c d : ℕ) → Type 0
AreOctets a b c d = (a ≤ 255) × (b ≤ 255) × (c ≤ 255) × (d ≤ 255)

is_octet_sound : (s : Text) → is_octet s ≡ true → (n : ℕ) × (n ≤ 255) × (s ≡ print_decimal n)
unfolding is_octet
is_octet_sound s h = elim (Option-cases (parse_decimal s)) [
  | inl e ↦ cc (rw (is_octet, e) at h)
  | inr (n, e) ↦
      let in_range : not (ltb 255 n) ≡ true = rw (is_octet, e) at h in
      (n, ground arith, (parse_decimal_sound s e).1)
]

is_octet-print : (n : ℕ) → n ≤ 255 → is_octet (print_decimal n) ≡ true
unfolding is_octet
is_octet-print n h = rw (is_octet, parse_decimal-print n (omega arith)) (ground arith)

pub includes-print : (c n : ℕ) → c < 48 → n < 1000 → includes c (print_decimal n) ≡ false
unfolding includes
includes-print c n h k = ground arith

split-print :
    (a b c d : ℕ)
    → AreOctets a b c d
    → split b'.' (print_ipv4 a b c d)
      ≡ print_decimal a ∷ print_decimal b ∷ print_decimal c ∷ print_decimal d ∷ []
unfolding print_ipv4
split-print a b c d (ha, hb, hc, hd) =
    rw
      (split-append b'.' (print_decimal a)
        (print_decimal b ++ b'.' ∷ (print_decimal c ++ b'.' ∷ print_decimal d)))
      (rw
        (
          split-append b'.' (print_decimal b) (print_decimal c ++ b'.' ∷ print_decimal d),
          split-append b'.' (print_decimal c) (print_decimal d),
        )
        (rw (
          split_whole b'.' (print_decimal a) (includes-print b'.' a (omega arith) (omega arith)),
          split_whole b'.' (print_decimal b) (includes-print b'.' b (omega arith) (omega arith)),
          split_whole b'.' (print_decimal c) (includes-print b'.' c (omega arith) (omega arith)),
          split_whole b'.' (print_decimal d) (includes-print b'.' d (omega arith) (omega arith)),
        )))

four_parts :
    (parts : List Text)
    → length parts ≡ 4
    → (p : Text) × (q : Text) × (r : Text) × (t : Text) × (parts ≡ p ∷ q ∷ r ∷ t ∷ [])
four_parts [] h = absurd (omega arith)
four_parts (p ∷ []) h = absurd (omega arith)
four_parts (p ∷ q ∷ []) h = absurd (omega arith)
four_parts (p ∷ q ∷ r ∷ []) h = absurd (omega arith)
four_parts (p ∷ q ∷ r ∷ t ∷ []) h = (p, q, r, t, refl)
four_parts (p ∷ q ∷ r ∷ t ∷ u ∷ parts) h = absurd (omega arith)

-- A text is accepted as an IPv4 address exactly when it is four numbers up to 255, in decimal
-- without leading zeros, with points between.
pub validate_ipv4_iff :
    (s : Text)
    → (validate_ipv4 s ≡ true)
      ↔ ((a : ℕ) × (b : ℕ) × (c : ℕ) × (d : ℕ) × AreOctets a b c d × (s ≡ print_ipv4 a b c d))
unfolding validate_ipv4 print_ipv4 join
validate_ipv4_iff s = (sound, complete)
  where
    sound :
        validate_ipv4 s ≡ true
        → (a : ℕ) × (b : ℕ) × (c : ℕ) × (d : ℕ) × AreOctets a b c d × (s ≡ print_ipv4 a b c d)
    sound h = elim (Bool-cases (length (split b'.' s) == 4)) [
      | inr e ↦ cc (rw (validate_ipv4, e) at h)
      | inl e ↦
          let (p, q, r, t, parts) = four_parts (split b'.' s) (ground arith) in
          octets p q r t parts (rw (validate_ipv4, e, parts) at h)
    ]
      where
        octets :
            (p q r t : Text)
            → split b'.' s ≡ p ∷ q ∷ r ∷ t ∷ []
            → all is_octet (p ∷ q ∷ r ∷ t ∷ []) ≡ true
            → (a : ℕ) × (b : ℕ) × (c : ℕ) × (d : ℕ) × AreOctets a b c d × (s ≡ print_ipv4 a b c d)
        octets p q r t parts h =
            let (hp, more) = (and-eq-true_iff (is_octet p) _).0 h in
            let (hq, more') = (and-eq-true_iff (is_octet q) _).0 more in
            let (hr, last) = (and-eq-true_iff (is_octet r) _).0 more' in
            let (ht, _) = (and-eq-true_iff (is_octet t) true).0 last in
            let (a, ha, ea) = is_octet_sound p hp in
            let (b, hb, eb) = is_octet_sound q hq in
            let (c, hc, ec) = is_octet_sound r hr in
            let (d, hd, ed) = is_octet_sound t ht in
            let whole : join (b'.' ∷ []) (p ∷ q ∷ r ∷ t ∷ []) ≡ s =
              rw parts at (join-split b'.' s) in
            (a, b, c, d, (ha, hb, hc, hd), rw (ea, eb, ec, ed) at (sym whole))

    complete :
        ((a : ℕ) × (b : ℕ) × (c : ℕ) × (d : ℕ) × AreOctets a b c d × (s ≡ print_ipv4 a b c d))
        → validate_ipv4 s ≡ true
    complete (a, b, c, d, (ha, hb, hc, hd), e) = rw e (
        rw (
          split-print a b c d (ha, hb, hc, hd),
          is_octet-print a ha,
          is_octet-print b hb,
          is_octet-print c hc,
          is_octet-print d hd,
        ))
