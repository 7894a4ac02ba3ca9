-- ===== src/Formats/Ip/Cidr.antt =====
-- The notation with a prefix length: `cidrAddress` takes it apart where it can be put together.
use oaverify.Common.{
  ℕ, ◌+◌, ◌-◌, ◌<◌, ◌≤◌, ◌≡◌, ◌↔◌, ◌⊎◌, refl, sym, ap, ◌∙◌, true, false, if◌then◌else◌, Bool-cases,
  Option-cases, inl, inr, arith, ltb, ◌==◌, min, Option, none, some, is_some, [], ◌∷◌, ◌++◌, Text,
  codes, length, drop, take-append, drop-append_add, includes, index_of, find_at, starts_with,
  slice,
}
use oaverify.Common.Search.{index_of-append_suc}
use oaverify.Formats.Ip.{parse_decimal, cidr_address, validate_ipv4_cidr}
use oaverify.Formats.Ip.Octets.{
  print_decimal, parse_decimal-print, parse_decimal_sound, includes-print, AreOctets, print_ipv4,
  validate_ipv4_iff,
}

-- Where a unit stands first in a text.
find_unit :
    (c : ℕ) (s : Text) (i : ℕ)
    → ((find_at (c ∷ []) s i ≡ none) × (includes c s ≡ false))
      ⊎ ((a : Text) × (b : Text) × (s ≡ a ++ c ∷ b)
          × (includes c a ≡ false)
          × (find_at (c ∷ []) s i ≡ some (i + length a)))
unfolding find_at includes starts_with
find_unit c [] i = inl (refl, refl)
find_unit c (x ∷ s) i = elim (Bool-cases (c == x)) [
  | inl e ↦
      let same : x ≡ c = ground arith in
      inr ([], s, ap (λ u. u ∷ s) same, refl, rw e (ap some (omega arith)))
  | inr e ↦
      let other : (x == c) ≡ false = ground arith in
      elim (find_unit c s (i + 1)) [
        | inl (h, k) ↦ inl (rw e h, rw other k)
        | inr (a, b, split, absent, h) ↦
            inr (x ∷ a, b, ap (◌∷◌ x) split, rw other absent, rw e (h ∙ ap some (omega arith)))
      ]
]

-- The text behind the first slash is the prefix, unless it holds another one.
abbrev prefix_of : Text → ℕ → Text → Option Text
prefix_of address max_prefix prefix =
    if includes b'/' prefix then none else elim (parse_decimal prefix) [
      | none ↦ none
      | some n ↦ if ltb max_prefix n then none else some address
    ]

includes-found : (c : ℕ) (a b : Text) → includes c (a ++ c ∷ b) ≡ true
unfolding includes
includes-found c [] b = ground arith
includes-found c (x ∷ a) b = ground (arith, includes-found c a b)

is_some-find_at : (c : ℕ) (s : Text) (i : ℕ) → is_some (find_at (c ∷ []) s i) ≡ includes c s
is_some-find_at c s i = elim (find_unit c s i) [
  | inl (h, k) ↦ rw (h, k)
  | inr (a, b, split, absent, h) ↦ rw (h, split, includes-found c a b)
]

find_at-here :
    (c : ℕ) (a b : Text) (i : ℕ)
    → includes c a ≡ false
    → find_at (c ∷ []) (a ++ c ∷ b) i ≡ some (i + length a)
unfolding find_at includes starts_with
find_at-here c [] b i h =
    let same : (c == c) ≡ true = ground arith in rw same (ap some (omega arith))
find_at-here c (x ∷ a) b i h =
    let other : (c == x) ≡ false = ground arith in
    let absent : includes c a ≡ false = ground arith in
    rw other (find_at-here c a b (i + 1) absent ∙ ap some (omega arith))

index_of_start : (s p : Text) → index_of s p 0 ≡ find_at p s 0
unfolding index_of
index_of_start s p = let clamp : min 0 (length s) ≡ 0 = omega arith in rw (index_of, clamp)

index_of-here :
    (a b : Text)
    → includes b'/' a ≡ false
    → index_of (a ++ b'/' ∷ b) (codes "/") 0 ≡ some (length a)
index_of-here a b h =
    index_of_start (a ++ b'/' ∷ b) (codes "/") ∙ find_at-here b'/' a b 0 h ∙ ap some (omega arith)

cidr_address-prefix_of :
    (a b : Text) (max_prefix : ℕ)
    → includes b'/' a ≡ false
    → cidr_address (a ++ b'/' ∷ b) max_prefix ≡ prefix_of a max_prefix b
unfolding cidr_address
cidr_address-prefix_of a b max_prefix h =
    let again : is_some (index_of (a ++ b'/' ∷ b) (codes "/") (length a + 1)) ≡ includes b'/' b =
      ap is_some (index_of-append_suc a b'/' b (codes "/") (length a + 1) refl)
      ∙ is_some-find_at b'/' b (length a + 1) in
    let behind : drop (length a + 1) (a ++ b'/' ∷ b) ≡ b =
      drop-append_add a (b'/' ∷ b) (length a + 1) 1 refl in
    let front : slice (a ++ b'/' ∷ b) 0 (length a) ≡ a =
      take-append a (b'/' ∷ b) (length a - 0) (omega arith) in
    rw (cidr_address, index_of-here a b h)
      (rw (again, behind) (λ i. prefix_of (front i) max_prefix b))

-- A text splits into an address and a prefix length exactly when it is the address, without a slash,
-- then a slash, and then a number in decimal without leading zeros, up to the limit.
pub cidr_address_iff :
    (s address : Text) (max_prefix : ℕ)
    → max_prefix < 1000
    → (cidr_address s max_prefix ≡ some address) ↔ (
        (includes b'/' address ≡ false)
        × ((n : ℕ) × (n ≤ max_prefix) × (s ≡ address ++ b'/' ∷ print_decimal n)))
unfolding cidr_address
cidr_address_iff s address max_prefix small = (sound, complete)
  where
    prefixed :
        (a b : Text)
        → prefix_of a max_prefix b ≡ some address
        → (a ≡ address) × ((n : ℕ) × (n ≤ max_prefix) × (b ≡ print_decimal n))
    prefixed a b h = elim (Bool-cases (includes b'/' b)) [
      | inl e ↦ cc (rw e at h)
      | inr e ↦ elim (Option-cases (parse_decimal b)) [
        | inl e' ↦ cc (rw (e, e') at h)
        | inr (n, e') ↦ elim (Bool-cases (ltb max_prefix n)) [
          | inl e'' ↦ cc (rw (e, e', e'') at h)
          | inr e'' ↦ (cc (rw (e, e', e'') at h), (n, ground arith, (parse_decimal_sound b e').1))
        ]
      ]
    ]

    sound :
        cidr_address s max_prefix ≡ some address
        → (includes b'/' address ≡ false)
          × ((n : ℕ) × (n ≤ max_prefix) × (s ≡ address ++ b'/' ∷ print_decimal n))
    sound h = elim (find_unit b'/' s 0) [
      | inl (nowhere, absent) ↦
          let refused : cidr_address s max_prefix ≡ none =
            rw (cidr_address, index_of_start s (codes "/"), nowhere) in
          cc (refused, h)
      | inr (a, b, split, absent, found) ↦
          let (same, (n, le, print)) =
            prefixed a b (sym (cidr_address-prefix_of a b max_prefix absent) ∙ (rw split at h)) in
          (rw (sym same) absent, (n, le, split ∙ (λ i. same i ++ b'/' ∷ print i)))
    ]

    complete :
        (includes b'/' address ≡ false)
          × ((n : ℕ) × (n ≤ max_prefix) × (s ≡ address ++ b'/' ∷ print_decimal n))
        → cidr_address s max_prefix ≡ some address
    complete (absent, (n, le, e)) =
        let fits : ltb max_prefix n ≡ false = ground arith in
        rw e (
          cidr_address-prefix_of address (print_decimal n) max_prefix absent
          ∙ rw (
            includes-print b'/' n (omega arith) (omega arith),
            parse_decimal-print n (omega arith),
            fits,
          ))

includes-append :
    (c : ℕ) (s t : Text) → includes c s ≡ false → includes c t ≡ false → includes c (s ++ t) ≡ false
unfolding includes
includes-append c [] t h k = k
includes-append c (x ∷ s) t h k = ground (arith, includes-append c s t)

includes-print_ipv4 : (a b c d : ℕ) → AreOctets a b c d → includes b'/' (print_ipv4 a b c d) ≡ false
unfolding print_ipv4 includes
includes-print_ipv4 a b c d (ha, hb, hc, hd) =
    let free : (n : ℕ) → n ≤ 255 → includes b'/' (print_decimal n) ≡ false =
      λ n le. includes-print b'/' n (omega arith) (omega arith) in
    includes-append b'/' (print_decimal a) _ (free a ha) (
      includes-append b'/' (print_decimal b) _ (free b hb)
        (includes-append b'/' (print_decimal c) _ (free c hc) (free d hd)))

-- A text is accepted as an IPv4 address with a prefix length exactly when it is four numbers up to
-- 255 with points between, a slash, and a number up to 32, all in decimal without leading zeros.
pub validate_ipv4_cidr_iff :
    (s : Text)
    → (validate_ipv4_cidr s ≡ true) ↔ (
        (a : ℕ) × (b : ℕ) × (c : ℕ) × (d : ℕ) × (n : ℕ) × AreOctets a b c d
        × (n ≤ 32)
        × (s ≡ print_ipv4 a b c d ++ b'/' ∷ print_decimal n))
unfolding validate_ipv4_cidr
validate_ipv4_cidr_iff s = (sound, complete)
  where
    sound :
        validate_ipv4_cidr s ≡ true
        → (a : ℕ) × (b : ℕ) × (c : ℕ) × (d : ℕ) × (n : ℕ) × AreOctets a b c d
          × (n ≤ 32)
          × (s ≡ print_ipv4 a b c d ++ b'/' ∷ print_decimal n)
    sound h = elim (Option-cases (cidr_address s 32)) [
      | inl e ↦ cc (rw (validate_ipv4_cidr, e) at h)
      | inr (address, e) ↦
          let (absent, (n, le, print)) = (cidr_address_iff s address 32 (omega arith)).0 e in
          let (a, b, c, d, octets, same) =
            (validate_ipv4_iff address).0 (rw (validate_ipv4_cidr, e) at h) in
          (a, b, c, d, n, octets, le, print ∙ (λ i. same i ++ b'/' ∷ print_decimal n))
    ]

    complete :
        ((a : ℕ) × (b : ℕ) × (c : ℕ) × (d : ℕ) × (n : ℕ) × AreOctets a b c d
          × (n ≤ 32)
          × (s ≡ print_ipv4 a b c d ++ b'/' ∷ print_decimal n))
        → validate_ipv4_cidr s ≡ true
    complete (a, b, c, d, n, octets, le, e) =
        let split : cidr_address s 32 ≡ some (print_ipv4 a b c d) =
          (cidr_address_iff s (print_ipv4 a b c d) 32 (omega arith)).1
            (includes-print_ipv4 a b c d octets, (n, le, e)) in
        rw (validate_ipv4_cidr, split)
          ((validate_ipv4_iff (print_ipv4 a b c d)).1 (a, b, c, d, octets, refl))
