-- ===== src/Tokenizer/Strings/CodePoints.antt =====
-- The count of the code points of a run, which is not walked where it is ASCII.
use oaverify.Common.{
  ℕ, suc, ◌≡◌, refl, ap, ◌∙◌, sym, false, not, ◌&&◌, List, [], ◌∷◌, arith, ◌==◌, within, length,
  Text, Bool-cases, inl, inr,
}
use oaverify.Tokenizer.Strings.{count_code_points, non_ascii, points_of}

-- A unit below the surrogates is a code point of its own.
count_code_points-cons :
    (c : ℕ) (s : Text)
    → within 0xd800 0xdbff c ≡ false
    → count_code_points (c ∷ s) ≡ suc (count_code_points s)
unfolding count_code_points
count_code_points-cons c [] h = refl
count_code_points-cons c (d ∷ s) h = rw h refl

count_code_points-ascii : (s : Text) → non_ascii s ≡ false → count_code_points s ≡ length s
unfolding count_code_points
count_code_points-ascii [] h = refl
count_code_points-ascii (c ∷ s) h =
    let small : within 0xd800 0xdbff c ≡ false = ground arith in
    let rest : non_ascii s ≡ false = ground arith in
    count_code_points-cons c s small ∙ ap suc (count_code_points-ascii s rest)

-- The shortcut of a run gives the count of code points of its text, where an ASCII run whose text
-- is as long as the run has decoded to itself: then the decoder has held nothing before it.
pub points_of-count_code_points :
    (run : List ℕ) (text : Text)
    → (non_ascii run ≡ false → length text ≡ length run → text ≡ run)
    → points_of run text ≡ count_code_points text
unfolding points_of
points_of-count_code_points run text decoded =
    elim (Bool-cases (not (non_ascii run) && length text == length run)) [
      | inl e ↦
          let ascii : non_ascii run ≡ false = ground arith in
          let same : text ≡ run = decoded ascii (ground arith) in
          rw e (
            ap length same
            ∙ sym (count_code_points-ascii run ascii)
            ∙ ap count_code_points (sym same))
      | inr e ↦ rw e refl
    ]
