-- ===== src/Common/Search.antt =====
-- Laws of `startsWith`, `indexOf` and `slice`.
use oaverify.Common.{
  ℕ, ◌+◌, ◌-◌, ◌≤◌, min, ◌≡◌, refl, sym, ap, true, none, some, [], ◌∷◌, ◌++◌, append_assoc, arith,
  Bool-cases, inl, inr, length, drop, drop-append, drop_all, if◌then◌else◌, take-append,
  length-append, Text, slice, starts_with, find_at, index_of,
}

pub starts_with-append : (p s : Text) → starts_with p (p ++ s) ≡ true
unfolding starts_with
starts_with-append [] s = refl
starts_with-append (x ∷ p) s = ground (arith, starts_with-append p s)

pub starts_with_sound : (p s : Text) → starts_with p s ≡ true → (r : Text) × (s ≡ p ++ r)
unfolding starts_with
starts_with_sound [] s h = (s, refl)
starts_with_sound (x ∷ p) [] h = cc
starts_with_sound (x ∷ p) (y ∷ s) h =
    let (r, e) = starts_with_sound p s (ground arith) in (r, ground (arith, e))

-- A place where the text `p` stands in `s`.
pub record Occurs (p s : Text) (at : ℕ) : Type 0 where
  pub before : Text
  pub after : Text
  pub splits : s ≡ before ++ (p ++ after)
  pub offset : at ≡ length before

pub find_at_sound :
    (p s : Text) (i : ℕ) {j : ℕ}
    → find_at p s i ≡ some j
    → (a : Text) × (b : Text) × (s ≡ a ++ (p ++ b)) × (j ≡ i + length a)
unfolding find_at
find_at_sound p [] i h = elim (Bool-cases (starts_with p [])) [
  | inl e ↦ let (r, s) = starts_with_sound p [] e in ([], r, s, ground arith)
  | inr e ↦ cc (rw e at h)
]
find_at_sound p (c ∷ s) i h = elim (Bool-cases (starts_with p (c ∷ s))) [
  | inl e ↦ let (r, s) = starts_with_sound p (c ∷ s) e in ([], r, s, ground arith)
  | inr e ↦
      let (a, b, split, at) = find_at_sound p s (i + 1) (rw e at h) in
      (c ∷ a, b, ap (◌∷◌ c) split, omega arith)
]

-- The search finds an occurrence, and none stands before it.
pub find_at_first :
    (p a b : Text) (i : ℕ) → (j : ℕ) × (find_at p (a ++ (p ++ b)) i ≡ some j) × (j ≤ i + length a)
unfolding find_at starts_with
find_at_first [] [] [] i = (i, refl, omega arith)
find_at_first [] [] (c ∷ b) i = (i, refl, omega arith)
find_at_first (x ∷ p) [] b i = (i, rw (starts_with-append (x ∷ p) b), omega arith)
find_at_first p (c ∷ a) b i = elim (Bool-cases (starts_with p (c ∷ (a ++ (p ++ b))))) [
  | inl e ↦ (i, rw e, omega arith)
  | inr e ↦ let (j, found, first) = find_at_first p a b (i + 1) in (j, rw e found, omega arith)
]

-- The search from one unit past the first part of a text.
pub index_of-append_suc :
    (pre : Text) (c : ℕ) (s p : Text) (at : ℕ)
    → at ≡ length pre + 1
    → index_of (pre ++ c ∷ s) p at ≡ find_at p s at
unfolding index_of
index_of-append_suc pre c s p at h =
    let clamp : min at (length (pre ++ c ∷ s)) ≡ at = omega (arith, length-append pre (c ∷ s)) in
    let split : pre ++ c ∷ s ≡ (pre ++ c ∷ []) ++ s = sym (append_assoc pre (c ∷ []) s) in
    let past : drop at (pre ++ c ∷ s) ≡ s =
      rw split (drop-append (pre ++ c ∷ []) s at (omega (arith, length-append pre (c ∷ [])))) in
    rw (clamp, past)

-- A search that starts at the end of the text finds at most the empty text, there.
pub index_of_past :
    (s p : Text) (at : ℕ) {j : ℕ} → length s ≤ at → index_of s p at ≡ some j → j ≡ length s
unfolding index_of find_at
index_of_past s p at {j} h e =
    let clamp : min at (length s) ≡ length s = omega arith in
    let here : (if starts_with p [] then some (length s) else none) ≡ some j =
      rw (clamp, drop_all s) at e in
    ground arith

-- The middle of a text, by its offsets.
pub slice-append :
    (a x b : Text) (from to : ℕ)
    → from ≡ length a
    → to ≡ length a + length x
    → slice (a ++ (x ++ b)) from to ≡ x
slice-append a x b from to h k =
    rw (drop-append a (x ++ b) from h) (take-append x b (to - from) (omega arith))
