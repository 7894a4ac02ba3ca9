-- ===== src/Router/Compound.antt =====
-- `matchCompound`: the captures of a compound segment in one request token.
pub mod Sound
pub mod Complete
use oaverify.Common.{
  ℕ, zero, suc, ◌+◌, ◌-◌, Bool, true, false, not, ◌&&◌, Option, none, some, List, [], ◌∷◌, ◌==◌,
  if◌then◌else◌, ltb, leb, length, drop, ◌>>=◌, Text, text_eq, starts_with, index_of,
}

-- The last parameter takes all up to the suffix. JavaScript's `tok.length - sep.length` may be
-- negative, where ours is 0; `end <= pos` refuses both.
unfoldable pub last_capture : Text → ℕ → Text → Option (List (ℕ × ℕ))
unfolding text_eq
last_capture tok pos sep =
    let end = length tok - length sep in
    if leb end pos
    then none
    else if not (text_eq sep []) && not (text_eq (drop end tok) sep)
    then none
    else some ((pos, end) ∷ [])

-- Any other parameter stops at the first occurrence of its separator, from one unit in.
unfoldable pub next_capture : Text → ℕ → Text → Option ℕ
unfolding index_of
next_capture tok pos sep = do
  idx ← index_of tok sep (pos + 1)
  if ltb idx (pos + 1) then none else some idx

-- The loop over `names`, with `literals[i + 1]` at the head of the third argument.
unfoldable pub captures : Text → List Text → List Text → ℕ → Option (List (ℕ × ℕ))
unfolding last_capture next_capture
captures tok [] seps pos = some []
captures tok (name ∷ names) [] pos = none
captures tok (name ∷ []) (sep ∷ seps) pos = last_capture tok pos sep
captures tok (name ∷ other ∷ names) (sep ∷ seps) pos = do
  idx ← next_capture tok pos sep
  out ← captures tok (other ∷ names) seps (idx + length sep)
  some ((pos, idx) ∷ out)

-- A compound segment always holds a prefix, `literals[0]`.
unfoldable pub match_compound : List Text → List Text → Text → Option (List (ℕ × ℕ))
unfolding captures starts_with
match_compound names [] tok = none
match_compound names (prefix ∷ seps) tok =
    if not (starts_with prefix tok) then none else captures tok names seps (length prefix)
