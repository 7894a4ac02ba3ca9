-- ===== src/Pointer/Walk.antt =====
-- `resolveJsonPointer` on composed and on built pointers.
use oaverify.Common.{
  ◌≡◌, ◌⊎◌, refl, sym, ap, ◌∙◌, Bool-cases, inl, inr, ◌==◌, Option, none, some, Option-cases, ◌>>=◌,
  List, [], ◌∷◌, ◌++◌, map, append-nil, Text, split, split-append, split_whole,
}
use oaverify.Pointer.{
  Json, step, resolve_parts, resolve_json_pointer, unescape_token, escape_pointer_segment,
}
use oaverify.Pointer.Escape.{includes-escape, unescape-escape}

resolve_parts-append :
    (root : Json) (ps qs : List Text)
    → resolve_parts root (ps ++ qs) ≡ (resolve_parts root ps >>= λ v. resolve_parts v qs)
unfolding resolve_parts
resolve_parts-append root [] qs = refl
resolve_parts-append root (p ∷ ps) qs = elim (Option-cases (step root p)) [
  | inl e ↦ rw (resolve_parts, e)
  | inr (next, e) ↦ rw (resolve_parts, e) (resolve_parts-append next ps qs)
]

map-append_texts : (f : Text → Text) (ps qs : List Text) → map f (ps ++ qs) ≡ map f ps ++ map f qs
map-append_texts f [] qs = refl
map-append_texts f (p ∷ ps) qs = ap (◌∷◌ (f p)) (map-append_texts f ps qs)

>>=-some : (m : Option Json) → (m >>= λ v. some v) ≡ m
>>=-some none = refl
>>=-some (some v) = refl

-- Pointers concatenate: a pointer followed by a second one, empty or with a slash in front,
-- resolves to what the second resolves to from the target of the first, and fails when either does.
pub resolve_json_pointer-append :
    (root : Json) (p q : Text)
    → (q ≡ []) ⊎ ((t : Text) × (q ≡ b'/' ∷ t))
    → resolve_json_pointer root (p ++ q)
      ≡ (resolve_json_pointer root p >>= λ v. resolve_json_pointer v q)
unfolding resolve_json_pointer
resolve_json_pointer-append root p q (inl e) =
    rw e
      (ap (resolve_json_pointer root) (append-nil p) ∙ sym (>>=-some (resolve_json_pointer root p)))
resolve_json_pointer-append root [] q (inr h) = refl
resolve_json_pointer-append root (c ∷ s) q (inr (t, e)) = elim (Bool-cases (c == b'/')) [
  | inr e' ↦ rw e'
  | inl e' ↦ rw e (
      rw (e', split-append b'/' s t, map-append_texts unescape_token (split b'/' s) (split b'/' t))
        (resolve_parts-append root (map unescape_token (split b'/' s))
          (map unescape_token (split b'/' t))))
]

-- The pointer that a walk builds.
unfoldable pub pointer_of : List Text → Text
pointer_of [] = []
pointer_of (token ∷ tokens) = b'/' ∷ escape_pointer_segment token ++ pointer_of tokens

pointer_of_slash :
    (ts : List Text) → (pointer_of ts ≡ []) ⊎ ((t : Text) × (pointer_of ts ≡ b'/' ∷ t))
unfolding pointer_of
pointer_of_slash [] = inl refl
pointer_of_slash (t ∷ ts) = inr (escape_pointer_segment t ++ pointer_of ts, refl)

resolve-escape :
    (root : Json) (token : Text)
    → resolve_json_pointer root (b'/' ∷ escape_pointer_segment token) ≡ step root token
unfolding resolve_json_pointer resolve_parts
resolve-escape root token =
    rw
      (
        split_whole b'/' (escape_pointer_segment token) (includes-escape token),
        unescape-escape token,
      )
      (case_of (step root token))
  where
    case_of : (m : Option Json) → elim m [ none ↦ none | some next ↦ some next ] ≡ m
    case_of none = refl
    case_of (some v) = refl

resolve_root : (root : Json) → resolve_json_pointer root [] ≡ some root
unfolding resolve_json_pointer
resolve_root root = refl

-- A pointer built by escaping the names of a walk, in their order, resolves to what the walk
-- reaches: whatever the names hold, slashes and tildes too, none is split, merged or misread.
pub resolve_json_pointer-pointer_of :
    (root : Json) (tokens : List Text)
    → resolve_json_pointer root (pointer_of tokens) ≡ resolve_parts root tokens
unfolding pointer_of resolve_parts
resolve_json_pointer-pointer_of root [] = resolve_root root
resolve_json_pointer-pointer_of root (token ∷ tokens) =
    resolve_json_pointer-append root (b'/' ∷ escape_pointer_segment token) (pointer_of tokens)
      (pointer_of_slash tokens)
    ∙ rw (resolve-escape root token)
        (next_of (step root token) (λ v. resolve_json_pointer-pointer_of v tokens))
  where
    next_of :
        (m : Option Json)
        → ((v : Json) → resolve_json_pointer v (pointer_of tokens) ≡ resolve_parts v tokens)
        → (m >>= λ v. resolve_json_pointer v (pointer_of tokens))
          ≡ elim m [ none ↦ none | some next ↦ resolve_parts next tokens ]
    next_of none more = refl
    next_of (some v) more = more v
