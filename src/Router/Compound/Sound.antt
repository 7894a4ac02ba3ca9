-- ===== src/Router/Compound/Sound.antt =====
-- What `matchCompound` captures.
use oaverify.Common.{
  ℕ, suc, ◌+◌, ◌-◌, ◌≡◌, ◌≢◌, refl, sym, ap, ◌∙◌, some, List, [], ◌∷◌, ◌++◌, map, append_assoc,
  append-nil, arith, length, drop, drop-append, drop-append_add, drop_all, take, take-append-drop,
  take_suc-ne-nil, ◌<◌, ◌≤◌, length-append, >>=-eq-some, Bool-cases, inl, inr, All, Text,
  text_eq_iff, starts_with, slice, index_of,
}
use oaverify.Common.Search.{
  starts_with_sound, find_at_sound, index_of-append_suc, index_of_past, slice-append,
}
use oaverify.Router.Compound.{last_capture, next_capture, captures, match_compound}

-- Captures, each followed by its separator or suffix.
abbrev pub joined : List Text → List Text → Text
joined (x ∷ xs) (sep ∷ seps) = x ++ (sep ++ joined xs seps)
joined _ _ = []

-- A compound template with its parameters filled in: the prefix first.
abbrev pub filled : List Text → List Text → Text
filled [] xs = []
filled (prefix ∷ seps) xs = prefix ++ joined xs seps

abbrev pub IsNonempty : Text → Type 0
IsNonempty x = x ≢ []

-- The text of a capture.
abbrev pub cut : Text → ℕ × ℕ → Text
cut tok (from, to) = slice tok from to

-- The captured texts fill the rest `s` of a token.
pub record Fills (names seps : List Text) (s : Text) (xs : List Text) : Type 0 where
  pub count : length xs ≡ length names
  pub nonempty : All IsNonempty xs
  pub fills : s ≡ joined xs seps

last_capture-eq-some :
    (tok : Text) (pos : ℕ) (sep : Text) {caps : List (ℕ × ℕ)}
    → last_capture tok pos sep ≡ some caps
    → (pos < length tok - length sep)
      × (drop (length tok - length sep) tok ≡ sep)
      × (caps ≡ (pos, length tok - length sep) ∷ [])
unfolding last_capture
last_capture-eq-some tok pos [] h = ground (arith, drop_all tok)
last_capture-eq-some tok pos (c ∷ sep) h =
    ground (arith, text_eq_iff (drop (length tok - length (c ∷ sep)) tok) (c ∷ sep))

last_capture_sound :
    (pre s : Text) (pos : ℕ) (name sep : Text) {caps : List (ℕ × ℕ)}
    → pos ≡ length pre
    → last_capture (pre ++ s) pos sep ≡ some caps
    → Fills (name ∷ []) (sep ∷ []) s (map (cut (pre ++ s)) caps)
last_capture_sound pre s pos name sep {caps} at h =
    let tok = pre ++ s in
    let end : ℕ = length tok - length sep in
    let (lt, suffix, e) = last_capture-eq-some tok pos sep h in
    let room : end - pos ≤ length s = omega (arith, length-append pre s) in
    let last : drop (end - pos) s ≡ sep =
      sym (drop-append_add pre s end (end - pos) (omega arith)) ∙ suffix in
    let x = take (end - pos) s in
    let split : x ++ sep ≡ s = ap (λ t. x ++ t) (sym last) ∙ take-append-drop (end - pos) s in
    let first : cut tok (pos, end) ≡ x = rw (drop-append pre s pos at) in
    rw (e, first)
      (record {
        count = refl;
        nonempty = (take_suc-ne-nil (end - pos) s (omega arith) room, tt);
        fills = rw append-nil (sym split);
      })

pub next_capture_sound :
    (pre s : Text) (pos : ℕ) (sep : Text) {idx : ℕ}
    → pos ≡ length pre
    → next_capture (pre ++ s) pos sep ≡ some idx
    → (x : Text) × (rest : Text) × (s ≡ x ++ (sep ++ rest)) × (idx ≡ pos + length x) × (x ≢ [])
unfolding next_capture
next_capture_sound pre [] pos sep at h =
    let (idx, found, kept) = >>=-eq-some (index_of (pre ++ []) sep (pos + 1)) _ h in
    let here : idx ≡ length (pre ++ []) =
      index_of_past (pre ++ []) sep (pos + 1) (omega (arith, length-append pre [])) found in
    ground (arith, length-append pre [])
next_capture_sound pre (c ∷ s) pos sep {idx = idx'} at h =
    let (idx, found, kept) = >>=-eq-some (index_of (pre ++ c ∷ s) sep (pos + 1)) _ h in
    let (a, b, split, off) =
      find_at_sound sep s (pos + 1)
        (sym (index_of-append_suc pre c s sep (pos + 1) (omega arith)) ∙ found) in
    let same : idx ≡ idx' = ground arith in (c ∷ a, b, ap (◌∷◌ c) split, omega arith, λ e. cc)

-- One more capture in front.
Fills-cons :
    {names seps xs : List Text} {rest : Text} (name sep x s : Text)
    → Fills names seps rest xs
    → s ≡ x ++ (sep ++ rest)
    → x ≢ []
    → Fills (name ∷ names) (sep ∷ seps) s (x ∷ xs)
Fills-cons name sep x s f e ne = record {
  count = ap suc f.count;
  nonempty = (ne, f.nonempty);
  fills = rw (e, f.fills);
}

captures_sound :
    (pre s : Text) (pos : ℕ) (name : Text) (names seps : List Text) {caps : List (ℕ × ℕ)}
    → pos ≡ length pre
    → length seps ≡ length (name ∷ names)
    → captures (pre ++ s) (name ∷ names) seps pos ≡ some caps
    → Fills (name ∷ names) seps s (map (cut (pre ++ s)) caps)
unfolding captures
captures_sound pre s pos name [] [] at n h = cc
captures_sound pre s pos name (other ∷ names) [] at n h = cc
captures_sound pre s pos name [] (sep ∷ []) at n h = last_capture_sound pre s pos name sep at h
captures_sound pre s pos name [] (sep ∷ _ ∷ _) at n h = absurd (omega arith)
captures_sound pre s pos name (other ∷ names) (sep ∷ seps) {caps} at n h =
    let (idx, found, more) = >>=-eq-some (next_capture (pre ++ s) pos sep) _ h in
    let (x, rest, split, off, ne) = next_capture_sound pre s pos sep at found in
    let (out, inner, done) =
      >>=-eq-some (captures (pre ++ s) (other ∷ names) seps (idx + length sep)) _ more in
    let regroup : pre ++ s ≡ (pre ++ (x ++ sep)) ++ rest = rw split (simp append_assoc) in
    let later =
      captures_sound (pre ++ (x ++ sep)) rest (idx + length sep) other names seps
        (omega (arith, length-append pre (x ++ sep), length-append x sep)) (omega arith)
        (rw regroup at inner) in
    let first : cut (pre ++ s) (pos, idx) ≡ x =
      rw split (slice-append pre x (sep ++ rest) pos idx at (omega arith)) in
    let e : caps ≡ (pos, idx) ∷ out = ground arith in
    rw (e, first) (Fills-cons name sep x s (rw (← regroup) at later) split ne)

-- When a compound segment matches a token, the captured texts are one for each name and none is
-- empty, and the template filled in with them is the token. (`parseSegment` makes a compound with at least one name and
-- one literal more than names.)
pub match_compound_sound :
    (name : Text) (names literals : List Text) (tok : Text) (caps : List (ℕ × ℕ))
    → length literals ≡ length (name ∷ names) + 1
    → match_compound (name ∷ names) literals tok ≡ some caps
    → (length (map (cut tok) caps) ≡ length (name ∷ names))
      × All IsNonempty (map (cut tok) caps)
      × (filled literals (map (cut tok) caps) ≡ tok)
unfolding match_compound
match_compound_sound name names [] tok caps n h = absurd (omega arith)
match_compound_sound name names (prefix ∷ seps) tok caps n h =
    elim (Bool-cases (starts_with prefix tok)) [
      | inl e ↦
          let (r, split) = starts_with_sound prefix tok e in
          let f =
            captures_sound prefix r (length prefix) name names seps refl (omega arith)
              (rw split at (rw e at h)) in
          let f' : Fills (name ∷ names) seps r (map (cut tok) caps) = rw (← split) at f in
          (f'.count, f'.nonempty, rw (← f'.fills) (sym split))
      | inr e ↦ cc (rw e at h)
    ]
