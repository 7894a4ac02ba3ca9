-- ===== src/Pointer/Fragment.antt =====
-- `$ref` fragments: `pointerFromRefFragment`.
use oaverify.Common.{
  ℕ, ◌+◌, ◌*◌, ◌<◌, ◌≡◌, ◌≢◌, refl, ap, ◌∙◌, ltb, true, inl, inr, Bool-cases, arith, some, ◌>>=◌,
  List, [], ◌∷◌, ◌++◌, Text, starts_with, ◌==◌,
}
use oaverify.Common.Percent.{
  decode_uri_component, decode_from, decoded_unit, escaped_character, escape_at, hex_value,
}
use oaverify.Pointer.{
  Json, resolve_parts, resolve_json_pointer, pointer_from_fragment, pointer_from_ref_fragment,
  escape_pointer_segment,
}
use oaverify.Pointer.Walk.{pointer_of, resolve_json_pointer-pointer_of}

-- The second text is the first with some of its units below 128 written as percent escapes, in
-- digits of either case, and every percent sign among them.
pub data Encodes : Text → Text → Type 0 where
  stop : Encodes [] []
  plain : {s t : Text} (c : ℕ) → c ≢ b'%' → Encodes s t → Encodes (c ∷ s) (c ∷ t)
  escaped :
      {s t : Text} (h l v w : ℕ)
      → hex_value h ≡ some v
      → hex_value l ≡ some w
      → v * 16 + w < 128
      → Encodes s t
      → Encodes ((v * 16 + w) ∷ s) (b'%' ∷ h ∷ l ∷ t)

decode_from-Encodes : {s t : Text} → Encodes s t → decode_from 0 t ≡ some s
unfolding decode_from decoded_unit escaped_character escape_at
decode_from-Encodes stop = refl
decode_from-Encodes (plain {s = s} {t = t} c other e) = elim (Bool-cases (c == b'%')) [
  | inl same ↦ let no : ⊥ = other (ground arith) in absurd no
  | inr k ↦ rw (decode_from, decoded_unit, k) (rw (decode_from-Encodes e) refl)
]
decode_from-Encodes (escaped {s = s} {t = t} h l v w high low small e) =
    let ascii : ltb (v * 16 + w) 0x80 ≡ true = ground arith in
    rw (high, low, ascii) (rw (decode_from-Encodes e) refl)

pointer_from_fragment-Encodes : {s t : Text} → Encodes s t → pointer_from_fragment t ≡ s
unfolding pointer_from_fragment decode_uri_component
pointer_from_fragment-Encodes e = rw (pointer_from_fragment, decode_from-Encodes e)

-- A reference made of `#/` and the rest of the pointer of a walk to a node below the root, in which
-- any units below 128 are percent escapes and every percent sign is, gives that pointer, and so the
-- node that the walk reaches.
pub pointer_from_ref_fragment-pointer_of :
    (root : Json) (token : Text) (tokens : List Text) (encoded : Text)
    → Encodes (escape_pointer_segment token ++ pointer_of tokens) encoded
    → (pointer_from_ref_fragment (b'#' ∷ b'/' ∷ encoded) ≡ some (pointer_of (token ∷ tokens)))
      × ((pointer_from_ref_fragment (b'#' ∷ b'/' ∷ encoded) >>= λ p. resolve_json_pointer root p)
          ≡ resolve_parts root (token ∷ tokens))
unfolding pointer_from_ref_fragment pointer_from_fragment decode_uri_component starts_with
    pointer_of
pointer_from_ref_fragment-pointer_of root token tokens encoded e =
    let named : pointer_from_ref_fragment (b'#' ∷ b'/' ∷ encoded)
        ≡ some (pointer_of (token ∷ tokens)) =
      ap some (pointer_from_fragment-Encodes (plain b'/' (λ h. cc) e)) in
    (
      named,
      ap (λ o. o >>= λ p. resolve_json_pointer root p) named
          ∙ resolve_json_pointer-pointer_of root (token ∷ tokens),
    )
