-- ===== src/Common/Splits.antt =====
-- `String.prototype.split` by one unit.
use Prim.Native.Nat.{ℕ}
use mathlib.Core.Path.{◌≡◌, ◌∙◌, refl, ap}
use mathlib.Core.Logic.{inl, inr}
use mathlib.Core.Bool.{true, false}
use mathlib.Core.List.{List, [], ◌∷◌, ◌++◌}
use native.Mathlib.Omega.{arith}
use oaverify.Common.Tests.{◌==◌, Bool-cases}
use oaverify.Common.Texts.{Text, split, includes, join}

pub split_cons : (c : ℕ) (s : Text) → (w : Text) × (ws : List Text) × (split c s ≡ w ∷ ws)
unfolding split
split_cons c [] = ([], [], refl)
split_cons c (x ∷ s) = elim (Bool-cases (x == c)) [
  | inl e ↦ ([], split c s, rw e)
  | inr e ↦ let (w, ws, h) = split_cons c s in (x ∷ w, ws, rw (e, h))
]

pub split-append : (c : ℕ) (s t : Text) → split c (s ++ c ∷ t) ≡ split c s ++ split c t
unfolding split
split-append c [] t = let same : (c == c) ≡ true = ground arith in rw same
split-append c (x ∷ s) t = elim (Bool-cases (x == c)) [
  | inl e ↦ rw e (ap (◌∷◌ []) (split-append c s t))
  | inr e ↦ let (w, ws, h) = split_cons c s in rw (e, split-append c s t, h)
]

pub split_whole : (c : ℕ) (s : Text) → includes c s ≡ false → split c s ≡ s ∷ []
unfolding split includes
split_whole c [] h = refl
split_whole c (x ∷ s) h = ground (arith, split_whole c s)

join-cons :
    (sep w : Text) (x : ℕ) (ws : List Text) → join sep ((x ∷ w) ∷ ws) ≡ x ∷ join sep (w ∷ ws)
unfolding join
join-cons sep w x [] = refl
join-cons sep w x (v ∷ ws) = refl

-- Joining the parts gives the text back.
pub join-split : (c : ℕ) (s : Text) → join (c ∷ []) (split c s) ≡ s
unfolding split join
join-split c [] = refl
join-split c (x ∷ s) =
    let (w, ws, h) = split_cons c s in
    let rest : join (c ∷ []) (w ∷ ws) ≡ s = rw h at (join-split c s) in
    elim (Bool-cases (x == c)) [
      | inl e ↦ let same : c ≡ x = ground arith in rw (e, h) (λ i. same i ∷ rest i)
      | inr e ↦ rw (e, h) (join-cons (c ∷ []) w x ws ∙ ap (◌∷◌ x) rest)
    ]
