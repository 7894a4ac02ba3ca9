-- ===== src/Tokenizer/Bytes/Utf8.antt =====
-- The encoding of scalar values in UTF-8, and the sequences of bytes that the scan takes for one.
use oaverify.Common.{
  ℕ, suc, ◌+◌, ◌-◌, ◌*◌, ◌≤◌, ◌<◌, ◌≡◌, refl, ◌⊎◌, inl, inr, true, List, [], ◌∷◌, ◌++◌, arith, ◌==◌,
  ltb, within, length, Bool-cases,
}
use oaverify.Tokenizer.Bytes.{follows}

-- A code point that is no surrogate.
abbrev pub Scalar : ℕ → Type 0
Scalar p = (p < 0x110000) × ((p < 0xd800) ⊎ (0xe000 ≤ p))

-- The encoding of a code point by RFC 3629, in its shortest form.
pub data Encoded : ℕ → List ℕ → Type 0 where
  one : {p : ℕ} → p < 0x80 → Encoded p (p ∷ [])
  two :
      {p : ℕ} (a x : ℕ)
      → 0x80 ≤ p
      → p < 0x800
      → x < 64
      → p ≡ a * 64 + x
      → Encoded p ((0xc0 + a) ∷ (0x80 + x) ∷ [])
  three :
      {p : ℕ} (a x y : ℕ)
      → 0x800 ≤ p
      → p < 0x10000
      → x < 64
      → y < 64
      → p ≡ a * 4096 + x * 64 + y
      → Encoded p ((0xe0 + a) ∷ (0x80 + x) ∷ (0x80 + y) ∷ [])
  four :
      {p : ℕ} (a x y z : ℕ)
      → 0x10000 ≤ p
      → x < 64
      → y < 64
      → z < 64
      → p ≡ a * 262144 + x * 4096 + y * 64 + z
      → Encoded p ((0xf0 + a) ∷ (0x80 + x) ∷ (0x80 + y) ∷ (0x80 + z) ∷ [])

pub data WellFormed : List ℕ → Type 0 where
  empty : WellFormed []
  next : {p : ℕ} {xs ys : List ℕ} → Scalar p → Encoded p xs → WellFormed ys → WellFormed (xs ++ ys)

-- An encoded scalar value at the head, of so many bytes.
abbrev pub Begins : ℕ → List ℕ → Type 0
Begins n s =
    (p : ℕ) × (x : ℕ) × (xs : List ℕ) × (ys : List ℕ) × Scalar p
    × Encoded p (x ∷ xs)
    × (s ≡ (x ∷ xs) ++ ys)
    × (n ≡ suc (length xs))

follows_one :
    (lo hi : ℕ) (s : List ℕ)
    → follows 1 lo hi s ≡ true
    → (c : ℕ) × (ys : List ℕ) × (s ≡ c ∷ ys) × (lo ≤ c) × (c ≤ hi)
unfolding follows
follows_one lo hi [] h = cc
follows_one lo hi (c ∷ s) h = (c, s, refl, ground arith, ground arith)

follows-suc :
    (need lo hi : ℕ) (s : List ℕ)
    → follows (suc need) lo hi s ≡ true
    → (c : ℕ) × (ys : List ℕ) × (s ≡ c ∷ ys)
      × (lo ≤ c)
      × (c ≤ hi)
      × (follows need 0x80 0xbf ys ≡ true)
unfolding follows
follows-suc need lo hi [] h = cc
follows-suc need lo hi (c ∷ s) h = (c, s, refl, ground arith, ground arith, ground arith)

pub two_bytes :
    (b : ℕ) (s : List ℕ)
    → within 0xc2 0xdf b ≡ true
    → follows 1 0x80 0xbf s ≡ true
    → Begins 2 (b ∷ s)
two_bytes b s h k =
    let (c, ys, split, lo, hi, rest) = follows-suc 0 0x80 0xbf s k in
    let above : 0xc2 ≤ b = ground arith in
    let below : b ≤ 0xdf = ground arith in
    let first : b ≡ 0xc0 + (b - 0xc0) = omega arith in
    let second : c ≡ 0x80 + (c - 0x80) = omega arith in
    let p = (b - 0xc0) * 64 + (c - 0x80) in
    (
      p,
      0xc0 + (b - 0xc0),
      (0x80 + (c - 0x80)) ∷ [],
      ys,
      (omega arith, inl (omega arith)),
      two (b - 0xc0) (c - 0x80) (omega arith) (omega arith) (omega arith) refl,
      rw split (λ i. first i ∷ second i ∷ ys),
      refl,
    )

shortest_three :
    (b c lo d : ℕ)
    → 0xe0 ≤ b
    → 0x80 ≤ lo
    → lo ≤ c
    → (b ≡ 0xe0 → 0xa0 ≤ lo)
    → 0x800 ≤ (b - 0xe0) * 4096 + (c - 0x80) * 64 + d
shortest_three b c lo d h k l overlong = elim (Bool-cases (b == 0xe0)) [
  | inl e ↦ let far : 0xa0 ≤ lo = overlong (ground arith) in omega arith
  | inr e ↦ let far : 0xe1 ≤ b = ground arith in omega arith
]

scalar_three :
    (b c hi d : ℕ)
    → 0xe0 ≤ b
    → c ≤ hi
    → hi ≤ 0xbf
    → d < 64
    → (b ≡ 0xed → hi ≤ 0x9f)
    → ((b - 0xe0) * 4096 + (c - 0x80) * 64 + d < 0xd800)
      ⊎ (0xe000 ≤ (b - 0xe0) * 4096 + (c - 0x80) * 64 + d)
scalar_three b c hi d h k l m surrogate = elim (Bool-cases (ltb b 0xed)) [
  | inl e ↦ let far : b ≤ 0xec = ground arith in inl (omega arith)
  | inr e ↦ elim (Bool-cases (b == 0xed)) [
    | inl e' ↦
        let same : b ≡ 0xed = ground arith in
        let far : hi ≤ 0x9f = surrogate same in inl (omega arith)
    | inr e' ↦ let far : 0xee ≤ b = ground arith in inr (omega arith)
  ]
]

pub three_bytes :
    (b lo hi : ℕ) (s : List ℕ)
    → within 0xe0 0xef b ≡ true
    → 0x80 ≤ lo
    → hi ≤ 0xbf
    → (b ≡ 0xe0 → 0xa0 ≤ lo)
    → (b ≡ 0xed → hi ≤ 0x9f)
    → follows 2 lo hi s ≡ true
    → Begins 3 (b ∷ s)
three_bytes b lo hi s h above_lo below_hi overlong surrogate k =
    let (c, s', split, lo_c, hi_c, rest) = follows-suc 1 lo hi s k in
    let (d, ys, split', lo_d, hi_d, rest') = follows-suc 0 0x80 0xbf s' rest in
    let above : 0xe0 ≤ b = ground arith in
    let below : b ≤ 0xef = ground arith in
    let first : b ≡ 0xe0 + (b - 0xe0) = omega arith in
    let second : c ≡ 0x80 + (c - 0x80) = omega arith in
    let third : d ≡ 0x80 + (d - 0x80) = omega arith in
    let p = (b - 0xe0) * 4096 + (c - 0x80) * 64 + (d - 0x80) in
    let shortest : 0x800 ≤ p = shortest_three b c lo (d - 0x80) above above_lo lo_c overlong in
    let scalar : (p < 0xd800) ⊎ (0xe000 ≤ p) =
      scalar_three b c hi (d - 0x80) above hi_c below_hi (omega arith) surrogate in
    (
      p,
      0xe0 + (b - 0xe0),
      (0x80 + (c - 0x80)) ∷ (0x80 + (d - 0x80)) ∷ [],
      ys,
      (omega arith, scalar),
      three (b - 0xe0) (c - 0x80) (d - 0x80) shortest (omega arith) (omega arith) (omega arith)
          refl,
      rw (split, split') (λ i. first i ∷ second i ∷ third i ∷ ys),
      refl,
    )

shortest_four :
    (b c lo d : ℕ)
    → 0xf0 ≤ b
    → 0x80 ≤ lo
    → lo ≤ c
    → (b ≡ 0xf0 → 0x90 ≤ lo)
    → 0x10000 ≤ (b - 0xf0) * 262144 + (c - 0x80) * 4096 + d
shortest_four b c lo d h k l overlong = elim (Bool-cases (b == 0xf0)) [
  | inl e ↦ let far : 0x90 ≤ lo = overlong (ground arith) in omega arith
  | inr e ↦ let far : 0xf1 ≤ b = ground arith in omega arith
]

below_end_four :
    (b c hi d : ℕ)
    → 0xf0 ≤ b
    → b ≤ 0xf4
    → c ≤ hi
    → hi ≤ 0xbf
    → d < 4096
    → (b ≡ 0xf4 → hi ≤ 0x8f)
    → (b - 0xf0) * 262144 + (c - 0x80) * 4096 + d < 0x110000
below_end_four b c hi d h h' k l m past = elim (Bool-cases (b == 0xf4)) [
  | inl e ↦ let same : b ≡ 0xf4 = ground arith in let far : hi ≤ 0x8f = past same in omega arith
  | inr e ↦ let far : b ≤ 0xf3 = ground arith in omega arith
]

pub four_bytes :
    (b lo hi : ℕ) (s : List ℕ)
    → within 0xf0 0xf4 b ≡ true
    → 0x80 ≤ lo
    → hi ≤ 0xbf
    → (b ≡ 0xf0 → 0x90 ≤ lo)
    → (b ≡ 0xf4 → hi ≤ 0x8f)
    → follows 3 lo hi s ≡ true
    → Begins 4 (b ∷ s)
four_bytes b lo hi s h above_lo below_hi overlong past k =
    let (c, s', split, lo_c, hi_c, rest) = follows-suc 2 lo hi s k in
    let (d, s'', split', lo_d, hi_d, rest') = follows-suc 1 0x80 0xbf s' rest in
    let (e, ys, split'', lo_e, hi_e, rest'') = follows-suc 0 0x80 0xbf s'' rest' in
    let above : 0xf0 ≤ b = ground arith in
    let below : b ≤ 0xf4 = ground arith in
    let first : b ≡ 0xf0 + (b - 0xf0) = omega arith in
    let second : c ≡ 0x80 + (c - 0x80) = omega arith in
    let third : d ≡ 0x80 + (d - 0x80) = omega arith in
    let fourth : e ≡ 0x80 + (e - 0x80) = omega arith in
    let tail = (d - 0x80) * 64 + (e - 0x80) in
    let p = (b - 0xf0) * 262144 + (c - 0x80) * 4096 + (d - 0x80) * 64 + (e - 0x80) in
    let same : (b - 0xf0) * 262144 + (c - 0x80) * 4096 + tail ≡ p = omega arith in
    let shortest : 0x10000 ≤ p =
      rw same at (shortest_four b c lo tail above above_lo lo_c overlong) in
    let last : p < 0x110000 =
      rw same at (below_end_four b c hi tail above below hi_c below_hi (omega arith) past) in
    (
      p,
      0xf0 + (b - 0xf0),
      (0x80 + (c - 0x80)) ∷ (0x80 + (d - 0x80)) ∷ (0x80 + (e - 0x80)) ∷ [],
      ys,
      (last, inr (omega arith)),
      four (b - 0xf0) (c - 0x80) (d - 0x80) (e - 0x80) shortest (omega arith) (omega arith)
          (omega arith) refl,
      rw (split, split', split'') (λ i. first i ∷ second i ∷ third i ∷ fourth i ∷ ys),
      refl,
    )
