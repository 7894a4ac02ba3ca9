-- ===== src/Pointer/Tests.antt =====
-- Pointers into one document.
use oaverify.Common.{
  arith, includes, starts_with, ◌≡◌, refl, inr, none, some, ◌>>=◌, [], ◌∷◌, ◌++◌, codes, split,
  is_digit, text_eq,
}
use oaverify.Pointer.{
  Json, number, array, object, item, no_item, member, no_member, get_own, item_at, replace_escape,
  escape_pointer_segment, unescape_token, is_array_index, digits_value, step, resolve_parts,
  resolve_json_pointer,
}
use oaverify.Pointer.{replace_unit, decode_runs, pointer_from_fragment, pointer_from_ref_fragment}
use oaverify.Pointer.Fragment.{plain, escaped, stop, pointer_from_ref_fragment-pointer_of}
use oaverify.Common.Percent.{
  decode_uri_component, decode_from, decoded_unit, escaped_character, escape_at, hex_value,
}
use oaverify.Pointer.Escape.{unescape-escape}
use oaverify.Pointer.Walk.{pointer_of, resolve_json_pointer-append, resolve_json_pointer-pointer_of}

-- `{"a/b": [1, 2], "m~n": 3, "": 4}`
abbrev document : Json
document = object (
    member (codes "a/b") (array (item (number 1) (item (number 2) no_item)))
      (member (codes "m~n") (number 3) (member [] (number 4) no_member)))

pointers_run :
    (resolve_json_pointer document (codes "/a~1b/1") ≡ some (number 2))
    × (resolve_json_pointer document (codes "/a~1b/01") ≡ none)
    × (resolve_json_pointer document (codes "/a~1b/2") ≡ none)
    × (resolve_json_pointer document (codes "/m~0n") ≡ some (number 3))
    × (resolve_json_pointer document (codes "/") ≡ some (number 4))
    × (resolve_json_pointer document [] ≡ some document)
    × (resolve_json_pointer document (codes "a~1b") ≡ none)
unfolding resolve_json_pointer resolve_parts step digits_value is_array_index unescape_token
    replace_escape item_at get_own split is_digit text_eq
pointers_run = (refl, refl, refl, refl, refl, refl, refl)

unescape-escape_example : unescape_token (escape_pointer_segment (codes "~1/~")) ≡ codes "~1/~"
unescape-escape_example = unescape-escape (codes "~1/~")

resolve_json_pointer-append_example :
    resolve_json_pointer document (codes "/a~1b" ++ codes "/1")
    ≡ (resolve_json_pointer document (codes "/a~1b") >>= λ v. resolve_json_pointer v (codes "/1"))
resolve_json_pointer-append_example =
    resolve_json_pointer-append document (codes "/a~1b") (codes "/1") (inr (codes "1", refl))

resolve_json_pointer-pointer_of_example :
    resolve_json_pointer document (pointer_of (codes "a/b" ∷ codes "0" ∷ []))
    ≡ resolve_parts document (codes "a/b" ∷ codes "0" ∷ [])
resolve_json_pointer-pointer_of_example =
    resolve_json_pointer-pointer_of document (codes "a/b" ∷ codes "0" ∷ [])

fragments_run :
    (pointer_from_ref_fragment (codes "#/a%2Fb") ≡ some (codes "/a/b"))
    × (pointer_from_ref_fragment (codes "#/a%zz%20b") ≡ some (codes "/a%zz b"))
    × (pointer_from_ref_fragment (codes "#/a%C3%A9%") ≡ some (codes "/a" ++ 233 ∷ b'%' ∷ []))
    × (pointer_from_ref_fragment (codes "#name") ≡ none)
unfolding pointer_from_ref_fragment pointer_from_fragment decode_runs starts_with
    decode_uri_component decode_from decoded_unit escaped_character escape_at hex_value
fragments_run = (refl, refl, refl, refl)

pointer_from_ref_fragment-pointer_of_example :
    (pointer_from_ref_fragment (codes "#/a%7e1b") ≡ some (pointer_of (codes "a/b" ∷ [])))
    × ((pointer_from_ref_fragment (codes "#/a%7e1b") >>= λ p. resolve_json_pointer document p)
        ≡ resolve_parts document (codes "a/b" ∷ []))
unfolding pointer_of escape_pointer_segment replace_unit includes hex_value
pointer_from_ref_fragment-pointer_of_example =
    pointer_from_ref_fragment-pointer_of document (codes "a/b") [] (codes "a%7e1b") (
      plain b'a' (λ h. cc)
        (escaped b'7' b'e' 7 14 refl refl (omega arith)
          (plain b'1' (λ h. cc) (plain b'b' (λ h. cc) stop))))
