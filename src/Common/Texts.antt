-- ===== src/Common/Texts.antt =====
-- JavaScript strings: a text is the list of its UTF-16 code units. The functions are those of
-- String.prototype that the modelled code calls, under the names of its calls.
use Prim.Native.Nat.{ℕ, ◌+◌, ◌-◌, min}
use Prim.Native.Char.{code}
use Prim.Native.String.{String}
use mathlib.Core.Path.{◌≡◌, refl}
use mathlib.Core.Logic.{◌↔◌, ◌≢◌}
use mathlib.Core.Bool.{Bool, true, false, ◌&&◌, ◌||◌}
use mathlib.Core.Option.{Option, none, some}
use mathlib.Core.List.{List, [], ◌∷◌, ◌++◌, map}
use native.Mathlib.Omega.{arith}
use oaverify.Common.Tests.{◌==◌, if◌then◌else◌, within}
use oaverify.Common.Lists.{take, drop, length}

abbrev pub Text : Type 0
Text = List ℕ

-- A text from a literal in ASCII.
abbrev pub codes : String → Text
codes String.[] = []
codes (String.◌∷◌ c s) = code c ∷ codes s

-- `a === b`
unfoldable pub text_eq : Text → Text → Bool
text_eq [] [] = true
text_eq (x ∷ xs) (y ∷ ys) = x == y && text_eq xs ys
text_eq _ _ = false

pub text_eq_iff : (a b : Text) → (text_eq a b ≡ true) ↔ (a ≡ b)
unfolding text_eq
text_eq_iff (x ∷ a) (y ∷ b) = ground (arith, text_eq_iff a b)
text_eq_iff _ _ = ground arith

pub text_eq_refl : (a : Text) → text_eq a a ≡ true
text_eq_refl a = (text_eq_iff a a).1 refl

pub ne_of_text_eq : (a b : Text) → text_eq a b ≡ false → a ≢ b
ne_of_text_eq a b h e = cc ((text_eq_iff a b).1 e)

-- `s.startsWith(p)`
unfoldable pub starts_with : Text → Text → Bool
starts_with [] s = true
starts_with (x ∷ p) (y ∷ s) = x == y && starts_with p s
starts_with (x ∷ p) [] = false

-- `s.includes(c)`, for one unit.
unfoldable pub includes : ℕ → Text → Bool
includes c [] = false
includes c (x ∷ s) = x == c || includes c s

-- `s.slice(a, b)`, for `0 <= a`.
abbrev pub slice : Text → ℕ → ℕ → Text
slice s a b = take (b - a) (drop a s)

-- The first occurrence of `p` in `s`, where `s` stands at offset `i`.
unfoldable pub find_at : Text → Text → ℕ → Option ℕ
unfolding starts_with
find_at p [] i = if starts_with p [] then some i else none
find_at p (c ∷ s) i = if starts_with p (c ∷ s) then some i else find_at p s (i + 1)

-- `s.indexOf(p, from)`; -1 is `none`. The start is clamped to the length.
unfoldable pub index_of : Text → Text → ℕ → Option ℕ
index_of s p from = find_at p (drop (min from (length s)) s) (min from (length s))

-- `s.toLowerCase()` on the letters of ASCII. The router compares the outcome with the nine names of
-- HTTP's methods, none of which has a letter that a unit beyond ASCII is lowered to.
unfoldable pub lower_unit : ℕ → ℕ
lower_unit c = if within b'A' b'Z' c then c + 32 else c

abbrev pub to_lower : Text → Text
to_lower = map lower_unit

-- `s.split(sep)`, for a separator of one unit.
abbrev pub prepend : ℕ → List Text → List Text
prepend c [] = (c ∷ []) ∷ []
prepend c (w ∷ ws) = (c ∷ w) ∷ ws

unfoldable pub split : ℕ → Text → List Text
split sep [] = [] ∷ []
split sep (c ∷ s) = let rest = split sep s in if c == sep then [] ∷ rest else prepend c rest

-- `words.join(sep)`
unfoldable pub join : Text → List Text → Text
join sep [] = []
join sep (w ∷ []) = w
join sep (w ∷ v ∷ ws) = w ++ (sep ++ join sep (v ∷ ws))

unfoldable pub is_digit : ℕ → Bool
is_digit c = within b'0' b'9' c

-- The white space of `\s`, which is what `trim` removes.
unfoldable pub is_space : ℕ → Bool
is_space c =
    within 9 13 c
    || c == 32
    || c == 160
    || c == 5760
    || within 8192 8202 c
    || c == 8232
    || c == 8233
    || c == 8239
    || c == 8287
    || c == 12288
    || c == 65279

unfoldable pub trim_left : Text → Text
unfolding is_space
trim_left [] = []
trim_left (c ∷ s) = if is_space c then trim_left s else c ∷ s

abbrev pub cons_unless_space : ℕ → Text → Text
cons_unless_space c [] = if is_space c then [] else c ∷ []
cons_unless_space c (x ∷ s) = c ∷ x ∷ s

unfoldable pub trim_right : Text → Text
unfolding is_space
trim_right [] = []
trim_right (c ∷ s) = cons_unless_space c (trim_right s)

-- `s.trim()`
abbrev pub trim : Text → Text
trim s = trim_left (trim_right s)
