-- ===== src/Tokenizer/Bytes/FirstIllFormed.antt =====
-- firstIllFormedUtf8 finds the first place where no scalar value is encoded in UTF-8.
use oaverify.Common.{
  ℕ, zero, suc, ◌+◌, ◌-◌, ◌*◌, ◌≤◌, ◌<◌, ◌≡◌, ◌≢◌, refl, sym, subst, ap, ◌∙◌, inl, inr, Bool, true,
  false, none, some, List, [], ◌∷◌, ◌++◌, arith, ◌==◌, ltb, within, if◌then◌else◌, length,
  Bool-cases, Option-cases, append_assoc, length-append,
}
use oaverify.Tokenizer.Bytes.{
  lead_of, follows, sequence_length, ill_formed_from, first_ill_formed_utf8,
}
use oaverify.Tokenizer.Bytes.Utf8.{
  Scalar, Encoded, one, two, three, four, WellFormed, empty, next, Begins, two_bytes, three_bytes,
  four_bytes,
}

if_some : (c : Bool) (m n : ℕ) → (if c then some m else none) ≡ some n → (c ≡ true) × (m ≡ n)
if_some true m n h = (refl, ground arith)
if_some false m n h = cc

if_else : {A : Type 0} (c : Bool) (x y : A) → c ≡ false → (if c then x else y) ≡ y
if_else c x y h = rw h refl

sequence_sound : (b : ℕ) (s : List ℕ) (n : ℕ) → sequence_length b s ≡ some n → Begins n (b ∷ s)
unfolding sequence_length lead_of
sequence_sound b s n h = elim (Bool-cases (ltb b 0x80)) [
  | inl e ↦
      let taken : some 1 ≡ some n = rw e at h in
      let small : b < 0x80 = ground arith in
      (b, b, [], s, (omega arith, inl (omega arith)), one small, refl, ground arith)
  | inr e ↦ elim (Bool-cases (within 0xc2 0xdf b)) [
    | inl e2 ↦
        let (k, taken) = if_some (follows 1 0x80 0xbf s) 2 n (rw (e, e2) at h) in
        subst (λ m. Begins m (b ∷ s)) taken (two_bytes b s e2 k)
    | inr e2 ↦ elim (Bool-cases (within 0xe0 0xef b)) [
      | inl e3 ↦
          let lo = if b == 0xe0 then 0xa0 else 0x80 in
          let hi = if b == 0xed then 0x9f else 0xbf in
          let (k, taken) = if_some (follows 2 lo hi s) 3 n (rw (e, e2, e3) at h) in
          subst (λ m. Begins m (b ∷ s)) taken
            (three_bytes b lo hi s e3 (ground arith) (ground arith) (λ x. ground arith)
              (λ x. ground arith) k)
      | inr e3 ↦ elim (Bool-cases (within 0xf0 0xf4 b)) [
        | inl e4 ↦
            let lo = if b == 0xf0 then 0x90 else 0x80 in
            let hi = if b == 0xf4 then 0x8f else 0xbf in
            let (k, taken) = if_some (follows 3 lo hi s) 4 n (rw (e, e2, e3, e4) at h) in
            subst (λ m. Begins m (b ∷ s)) taken
              (four_bytes b lo hi s e4 (ground arith) (ground arith) (λ x. ground arith)
                (λ x. ground arith) k)
        | inr e4 ↦ cc (rw (e, e2, e3, e4) at h)
      ]
    ]
  ]
]

second_of_three :
    (p a x y : ℕ)
    → Scalar p
    → 0x800 ≤ p
    → p < 0x10000
    → x < 64
    → y < 64
    → p ≡ a * 4096 + x * 64 + y
    → within
        (if 0xe0 + a == 0xe0 then 0xa0 else 0x80)
        (if 0xe0 + a == 0xed then 0x9f else 0xbf)
        (0x80 + x)
      ≡ true
second_of_three p a x y (end, inl low) h k l m e = ground arith
second_of_three p a x y (end, inr high) h k l m e = ground arith

second_of_four :
    (p a x y z : ℕ)
    → p < 0x110000
    → 0x10000 ≤ p
    → x < 64
    → y < 64
    → z < 64
    → p ≡ a * 262144 + x * 4096 + y * 64 + z
    → within
        (if 0xf0 + a == 0xf0 then 0x90 else 0x80)
        (if 0xf0 + a == 0xf4 then 0x8f else 0xbf)
        (0x80 + x)
      ≡ true
second_of_four p a x y z end h l m k e = ground arith

continues : (x : ℕ) → x < 64 → within 0x80 0xbf (0x80 + x) ≡ true
continues x h = ground arith

-- No sequence is found only where no scalar value is encoded.
sequence_complete :
    (p b : ℕ) (s xs ys : List ℕ)
    → Scalar p
    → Encoded p xs
    → b ∷ s ≡ xs ++ ys
    → sequence_length b s ≢ none
unfolding sequence_length lead_of follows
sequence_complete p b s xs ys scalar (one lt) e h =
    let first : b ≡ p = ground arith in
    let small : ltb b 0x80 ≡ true = ground arith in cc (rw small at h)
sequence_complete p b s xs ys scalar (two a x low high lx same) e h =
    let first : b ≡ 0xc0 + a = ground arith in
    let rest : s ≡ (0x80 + x) ∷ ys = cc in
    let t1 : ltb b 0x80 ≡ false = ground arith in
    let t2 : within 0xc2 0xdf b ≡ true = ground arith in cc (rw (t1, t2, rest, continues x lx) at h)
sequence_complete p b s xs ys scalar (three a x y low high lx ly same) e h =
    let first : b ≡ 0xe0 + a = ground arith in
    let rest : s ≡ (0x80 + x) ∷ (0x80 + y) ∷ ys = cc in
    let t1 : ltb (0xe0 + a) 0x80 ≡ false = ground arith in
    let t2 : within 0xc2 0xdf (0xe0 + a) ≡ false = ground arith in
    let t3 : within 0xe0 0xef (0xe0 + a) ≡ true = ground arith in
    cc (
      rw
        (
          first,
          t1,
          t2,
          t3,
          rest,
          second_of_three p a x y scalar low high lx ly same,
          continues y ly,
        )
        at h)
sequence_complete p b s xs ys scalar (four a x y z low lx ly lz same) e h =
    let first : b ≡ 0xf0 + a = ground arith in
    let rest : s ≡ (0x80 + x) ∷ (0x80 + y) ∷ (0x80 + z) ∷ ys = cc in
    let end : p < 0x110000 = scalar.0 in
    let t1 : ltb (0xf0 + a) 0x80 ≡ false = ground arith in
    let t2 : within 0xc2 0xdf (0xf0 + a) ≡ false = ground arith in
    let t3 : within 0xe0 0xef (0xf0 + a) ≡ false = ground arith in
    let t4 : within 0xf0 0xf4 (0xf0 + a) ≡ true = ground arith in
    cc (
      rw
        (
          first,
          t1,
          t2,
          t3,
          t4,
          rest,
          second_of_four p a x y z end low lx ly lz same,
          continues y ly,
          continues z lz,
        )
        at h)

ill_formed_skip :
    (k : ℕ) (xs ys : List ℕ)
    → k ≡ length xs
    → ill_formed_from k (xs ++ ys) ≡ k + ill_formed_from 0 ys
unfolding ill_formed_from
ill_formed_skip zero [] ys h = omega arith
ill_formed_skip (suc k) [] ys h = absurd (omega arith)
ill_formed_skip zero (x ∷ xs) ys h = absurd (omega arith)
ill_formed_skip (suc k) (x ∷ xs) ys h = omega (arith, ill_formed_skip k xs ys (omega arith))

-- What is found in the bytes: a part that is well formed, and no scalar value encoded behind it.
abbrev pub Found : List ℕ → ℕ → Type 0
Found bytes at =
    (pre : List ℕ) × (rest : List ℕ) × (bytes ≡ pre ++ rest)
    × (length pre ≡ at)
    × WellFormed pre
    × ((p : ℕ) (xs ys : List ℕ) → Scalar p → Encoded p xs → rest ≢ xs ++ ys)

Encoded-ne-nil : (p : ℕ) (xs ys : List ℕ) → Encoded p xs → [] ≢ xs ++ ys
Encoded-ne-nil p xs ys (one h) e = cc
Encoded-ne-nil p xs ys (two a x h k l m) e = cc
Encoded-ne-nil p xs ys (three a x y h k l m n) e = cc
Encoded-ne-nil p xs ys (four a x y z h k l m n) e = cc

ill_formed_from-Found :
    (bound : ℕ) (bytes : List ℕ) → length bytes ≤ bound → Found bytes (ill_formed_from 0 bytes)
unfolding ill_formed_from
ill_formed_from-Found bound [] h =
    ([], [], refl, refl, empty, λ p xs ys scalar e. Encoded-ne-nil p xs ys e)
ill_formed_from-Found zero (b ∷ s) h = absurd (omega arith)
ill_formed_from-Found (suc bound) (b ∷ s) h = elim (Option-cases (sequence_length b s)) [
  | inl none_here ↦ (
    [],
    b ∷ s,
    refl,
    rw (none_here, ill_formed_from) refl,
    empty,
    λ p xs ys scalar e split. sequence_complete p b s xs ys scalar e split none_here,
  )
  | inr (n, found) ↦
      let (p, x, xs, ys, scalar, e, split, taken) = sequence_sound b s n found in
      let tail : s ≡ xs ++ ys = cc in
      let (pre, rest, split', at, well, stop) =
        ill_formed_from-Found bound ys (omega (arith, length-append xs ys, ap length tail)) in
      let less : n - 1 ≡ length xs = omega arith in
      let counted : ill_formed_from (n - 1) s ≡ (n - 1) + ill_formed_from 0 ys =
        rw tail (ill_formed_skip (n - 1) xs ys less) in
      (
        (x ∷ xs) ++ pre,
        rest,
        split ∙ ap (λ t. (x ∷ xs) ++ t) split' ∙ sym (append_assoc (x ∷ xs) pre rest),
        rw (found, ill_formed_from) (omega (arith, counted, at, length-append (x ∷ xs) pre, less)),
        next scalar e well,
        stop,
      )
]

-- firstIllFormedUtf8 answers where the malformed part begins, or the length of the input: what
-- stands before the answer is a sequence of scalar values in UTF-8, each in its shortest form, and
-- no scalar value is encoded at the answer.
pub first_ill_formed_utf8-Found :
    (bytes : List ℕ)
    → (pre : List ℕ) × (rest : List ℕ) × (bytes ≡ pre ++ rest)
      × (length pre ≡ first_ill_formed_utf8 bytes)
      × WellFormed pre
      × ((p : ℕ) (xs ys : List ℕ) → Scalar p → Encoded p xs → rest ≢ xs ++ ys)
unfolding first_ill_formed_utf8
first_ill_formed_utf8-Found bytes = ill_formed_from-Found (length bytes) bytes (omega arith)
