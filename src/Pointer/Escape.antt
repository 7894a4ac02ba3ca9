-- ===== src/Pointer/Escape.antt =====
-- The escapes of RFC 6901: `escapePointerSegment` and the decoding of a token.
use oaverify.Common.{
  ℕ, ◌≡◌, refl, sym, ap, ◌∙◌, false, if◌then◌else◌, Bool-cases, inl, inr, arith, ◌==◌, [], ◌∷◌,
  Text, codes, includes,
}
use oaverify.Pointer.{replace_escape, replace_unit, escape_pointer_segment, unescape_token}

-- Both replacements of an escape as one pass.
pub spelled : Text → Text
spelled [] = []
spelled (x ∷ s) =
    let more = spelled s in
    if x == b'~' then b'~' ∷ b'0' ∷ more else if x == b'/' then b'~' ∷ b'1' ∷ more else x ∷ more

escape-spelled : (s : Text) → escape_pointer_segment s ≡ spelled s
unfolding escape_pointer_segment replace_unit spelled
escape-spelled [] = refl
escape-spelled (x ∷ s) = ground (arith, escape-spelled s)

includes-spelled : (s : Text) → includes b'/' (spelled s) ≡ false
unfolding spelled includes
includes-spelled [] = refl
includes-spelled (x ∷ s) = ground (arith, includes-spelled s)

-- An escaped token holds no separator.
pub includes-escape : (s : Text) → includes b'/' (escape_pointer_segment s) ≡ false
includes-escape s = rw (escape-spelled s) (includes-spelled s)

-- Nor a percent sign that the token does not hold.
pub includes-escape_percent :
    (s : Text) → includes b'%' s ≡ false → includes b'%' (escape_pointer_segment s) ≡ false
unfolding spelled includes
includes-escape_percent s h = rw (escape-spelled s) (spelled_percent s h)
  where
    spelled_percent : (s : Text) → includes b'%' s ≡ false → includes b'%' (spelled s) ≡ false
    spelled_percent [] h = refl
    spelled_percent (x ∷ s) h = ground (arith, spelled_percent s)

replace_escape-pass :
    (c by x : ℕ) (s : Text)
    → (x == b'~') ≡ false
    → replace_escape c by (x ∷ s) ≡ x ∷ replace_escape c by s
unfolding replace_escape
replace_escape-pass c by x [] h = refl
replace_escape-pass c by x (y ∷ s) h = rw (replace_escape, h)

replace_escape-other :
    (c by y : ℕ) (s : Text)
    → (y == c) ≡ false
    → (y == b'~') ≡ false
    → replace_escape c by (b'~' ∷ y ∷ s) ≡ b'~' ∷ y ∷ replace_escape c by s
unfolding replace_escape
replace_escape-other c by y s h k =
    rw (replace_escape, h) (ap (◌∷◌ b'~') (replace_escape-pass c by y s k))

replace_slash-spelled :
    (s : Text) → replace_escape b'1' b'/' (spelled s) ≡ replace_unit b'~' (codes "~0") s
unfolding replace_unit spelled replace_escape
replace_slash-spelled [] = refl
replace_slash-spelled (x ∷ s) = elim (Bool-cases (x == b'~')) [
  | inl e ↦ rw e (
      replace_escape-other b'1' b'/' b'0' (spelled s) refl refl
      ∙ ap (λ t. b'~' ∷ b'0' ∷ t) (replace_slash-spelled s))
  | inr e ↦ elim (Bool-cases (x == b'/')) [
    | inl e' ↦
        let same : x ≡ b'/' = ground arith in
        rw (e, e')
          (ap (◌∷◌ b'/') (replace_slash-spelled s)
            ∙ ap (λ c. c ∷ replace_unit b'~' (codes "~0") s) (sym same))
    | inr e' ↦
        rw (e, e')
          (replace_escape-pass b'1' b'/' x (spelled s) e ∙ ap (◌∷◌ x) (replace_slash-spelled s))
  ]
]

replace_tilde : (s : Text) → replace_escape b'0' b'~' (replace_unit b'~' (codes "~0") s) ≡ s
unfolding replace_unit replace_escape
replace_tilde [] = refl
replace_tilde (x ∷ s) = elim (Bool-cases (x == b'~')) [
  | inl e ↦ let same : b'~' ≡ x = ground arith in rw e (λ i. same i ∷ replace_tilde s i)
  | inr e ↦ rw e (
      replace_escape-pass b'0' b'~' x (replace_unit b'~' (codes "~0") s) e
      ∙ ap (◌∷◌ x) (replace_tilde s))
]

-- Decoding an escaped token gives the token back.
pub unescape-escape : (s : Text) → unescape_token (escape_pointer_segment s) ≡ s
unfolding unescape_token
unescape-escape s = rw (escape-spelled s, replace_slash-spelled s) (replace_tilde s)
