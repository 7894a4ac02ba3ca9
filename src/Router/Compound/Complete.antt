-- ===== src/Router/Compound/Complete.antt =====
-- `matchCompound` finds a match wherever there is one: taking each separator at its first
-- occurrence, with no backtracking, accepts what the lazy anchored regular expression accepts.
use oaverify.Common.{
  ℕ, suc, ◌+◌, ◌-◌, ◌≡◌, ◌≢◌, refl, sym, subst, ◌∙◌, some, List, [], ◌∷◌, ◌++◌, map, append_assoc,
  append-nil, arith, length, drop, drop-append, drop-append_add, length-append, All, ◌↔◌, Text,
  text_eq_iff, ◌≤◌,
}
use oaverify.Common.Search.{starts_with-append, find_at_sound, find_at_first, index_of-append_suc}
use oaverify.Router.Compound.{last_capture, next_capture, captures, match_compound}
use oaverify.Router.Compound.Sound.{
  joined, filled, IsNonempty, Fills, cut, match_compound_sound, next_capture_sound,
}

-- Of two places of one text, the later continues the earlier.
append_split {ℓ} :
    {A : Type ℓ} (a b a' b' : List A)
    → a ++ b ≡ a' ++ b'
    → length a ≤ length a'
    → (e : List A) × (b ≡ e ++ b')
append_split [] b a' b' h n = (a', h)
append_split (x ∷ a) b [] b' h n = absurd (omega arith)
append_split (x ∷ a) b (y ∷ a') b' h n = append_split a b a' b' (ground arith) (omega arith)

append-ne-nil : (e y : Text) → y ≢ [] → e ++ y ≢ []
append-ne-nil [] y h = h
append-ne-nil (c ∷ e) y h = λ k. cc

last_capture_complete :
    (pre x sep : Text) (pos : ℕ)
    → pos ≡ length pre
    → x ≢ []
    → (caps : List (ℕ × ℕ)) × (last_capture (pre ++ (x ++ sep)) pos sep ≡ some caps)
unfolding last_capture
last_capture_complete pre [] sep pos at ne = absurd (ne refl)
last_capture_complete pre (c ∷ x) sep pos at ne =
    let tok = pre ++ (c ∷ x ++ sep) in
    let end : ℕ = length tok - length sep in
    let total : length tok ≡ length pre + (suc (length x) + length sep) =
      omega (arith, length-append pre (c ∷ x ++ sep), length-append x sep) in
    let tail : drop end tok ≡ sep =
      drop-append_add pre (c ∷ x ++ sep) end (end - length pre) (omega arith)
      ∙ drop-append (c ∷ x) sep (end - length pre) (omega arith) in
    ((pos, end) ∷ [], ground (arith, (text_eq_iff (drop end tok) sep).1 tail))

-- The separator is found no later than where the given captures have it.
next_capture_complete :
    (pre x sep rest : Text) (pos : ℕ)
    → pos ≡ length pre
    → x ≢ []
    → (idx : ℕ) × (next_capture (pre ++ (x ++ (sep ++ rest))) pos sep ≡ some idx)
      × (idx ≤ pos + length x)
unfolding next_capture
next_capture_complete pre [] sep rest pos at ne = absurd (ne refl)
next_capture_complete pre (c ∷ x) sep rest pos at ne =
    let (j, found, first) = find_at_first sep x rest (pos + 1) in
    let (a, b, split, off) = find_at_sound sep (x ++ (sep ++ rest)) (pos + 1) found in
    let whole =
      index_of-append_suc pre c (x ++ (sep ++ rest)) sep (pos + 1) (omega arith) ∙ found in
    (j, rw whole (ground arith), omega arith)

-- Captures that fill the rest of a token after `x` and its separator also fill what is left behind
-- an earlier place of the separator, with a longer first capture.
later_fill :
    (x sep x' rest y sep2 : Text) (seps ys : List Text)
    → x ++ (sep ++ joined (y ∷ ys) (sep2 ∷ seps)) ≡ x' ++ (sep ++ rest)
    → length x' ≤ length x
    → (e : Text) × (rest ≡ joined ((e ++ y) ∷ ys) (sep2 ∷ seps))
later_fill x sep x' rest y sep2 seps ys h n =
    let (e, split) =
      append_split (x' ++ sep) rest (x ++ sep) (joined (y ∷ ys) (sep2 ∷ seps))
        (append_assoc x' sep rest ∙ sym h ∙ sym (append_assoc x sep _))
        (omega (arith, length-append x' sep, length-append x sep)) in
    (e, split ∙ sym (append_assoc e y _))

captures_complete :
    (pre s : Text) (pos : ℕ) (name : Text) (names seps xs : List Text)
    → pos ≡ length pre
    → length seps ≡ length (name ∷ names)
    → Fills (name ∷ names) seps s xs
    → (caps : List (ℕ × ℕ)) × (captures (pre ++ s) (name ∷ names) seps pos ≡ some caps)
unfolding captures
captures_complete pre s pos name names [] xs at n f = absurd (omega arith)
captures_complete pre s pos name [] (sep ∷ []) (x ∷ []) at n f =
    rw f.fills (rw append-nil (last_capture_complete pre x sep pos at f.nonempty.0))
captures_complete pre s pos name (other ∷ names) (sep ∷ sep2 ∷ seps) (x ∷ y ∷ ys) at n f =
    let tail = joined (y ∷ ys) (sep2 ∷ seps) in
    let (idx, found, early) = next_capture_complete pre x sep tail pos at f.nonempty.0 in
    let found' : next_capture (pre ++ s) pos sep ≡ some idx = rw f.fills found in
    let (x', rest, split, off, ne) = next_capture_sound pre s pos sep at found' in
    let (e, refill) = later_fill x sep x' rest y sep2 seps ys (sym f.fills ∙ split) (omega arith) in
    let g : Fills (other ∷ names) (sep2 ∷ seps) rest ((e ++ y) ∷ ys) = record {
      count = omega (arith, f.count);
      nonempty = (append-ne-nil e y f.nonempty.1.0, f.nonempty.1.1);
      fills = refill;
    } in
    let (out, inner) =
      captures_complete (pre ++ (x' ++ sep)) rest (idx + length sep) other names (sep2 ∷ seps)
        ((e ++ y) ∷ ys) (omega (arith, length-append pre (x' ++ sep), length-append x' sep))
        (omega arith) g in
    let regroup : (pre ++ (x' ++ sep)) ++ rest ≡ pre ++ s = rw split (simp append_assoc) in
    let inner' =
      subst (λ t. captures t (other ∷ names) (sep2 ∷ seps) (idx + length sep) ≡ some out) regroup
        inner in
    ((pos, idx) ∷ out, rw (found', inner'))
captures_complete pre s pos name _ _ _ at n f = absurd (omega (arith, f.count))

match_compound_complete :
    (name : Text) (names literals : List Text) (tok : Text) (xs : List Text)
    → length literals ≡ length (name ∷ names) + 1
    → length xs ≡ length (name ∷ names)
    → All IsNonempty xs
    → filled literals xs ≡ tok
    → (caps : List (ℕ × ℕ)) × (match_compound (name ∷ names) literals tok ≡ some caps)
unfolding match_compound
match_compound_complete name names [] tok xs n count nonempty fills = absurd (omega arith)
match_compound_complete name names (prefix ∷ seps) tok xs n count nonempty fills =
    let (caps, done) =
      captures_complete prefix (joined xs seps) (length prefix) name names seps xs refl
        (omega arith) (record { count = count; nonempty = nonempty; fills = refl }) in
    (caps, rw (← fills) (rw (starts_with-append prefix (joined xs seps)) done))

-- A compound segment matches a token exactly when some texts, one for each name and none empty,
-- fill the template in to the token, however they are chosen.
pub match_compound_iff :
    (name : Text) (names literals : List Text) (tok : Text)
    → length literals ≡ length (name ∷ names) + 1
    → ((caps : List (ℕ × ℕ)) × (match_compound (name ∷ names) literals tok ≡ some caps)) ↔ (
        (xs : List Text) × (length xs ≡ length (name ∷ names))
        × All IsNonempty xs
        × (filled literals xs ≡ tok))
match_compound_iff name names literals tok n = (
  λ (caps, h).
      let (count, nonempty, fills) = match_compound_sound name names literals tok caps n h in
      (map (cut tok) caps, count, nonempty, fills),
  λ (xs, count, nonempty, fills).
      match_compound_complete name names literals tok xs n count nonempty fills,
)
