-- ===== src/Security/Credentials/OwnKey.antt =====
-- `apiKeyCheck` reads the credential from the request itself, not from `Object.prototype`.
use oaverify.Common.{
  ◌≡◌, inl, inr, refl, ap, ◌∙◌, false, Bool-cases, Option, Option-cases, none, some, [], ◌∷◌, Any,
  Text, codes, text_eq, text_eq_iff, if◌then◌else◌,
}
use oaverify.Security.{
  Value, one, many, inherited, Bag, Headers, scan_headers, Request, get_own, index, find_lowered,
  get_header_value, get_header_value_fast, is_header_object_prototype_property_name,
  is_object_prototype_property_name,
}
use oaverify.Security.Credentials.{
  first_value, get_header, read_member, pick_api_key, is_missing, reads_own, api_key_reason,
}

-- A text of at least one unit, or a list that begins with one. An entry of the record that is neither
-- a text nor a list, which the type of a request rules out, counts too.
pub IsNonempty : Value → Type 0
IsNonempty (one []) = ⊥
IsNonempty (one (c ∷ s)) = Unit
IsNonempty (many []) = ⊥
IsNonempty (many ([] ∷ vs)) = ⊥
IsNonempty (many ((c ∷ s) ∷ vs)) = Unit
IsNonempty inherited = Unit

-- An entry of the record, under a name that `reading` takes for this one, with a nonempty value.
pub Carries : (Text → Text) → Text → Bag → Type 0
Carries reading name = Any (λ entry. (reading entry.0 ≡ reading name) × IsNonempty entry.1)

pub CarriesIn : (Text → Text) → Text → Option Bag → Type 0
CarriesIn reading name none = ⊥
CarriesIn reading name (some bag) = Carries reading name bag

entries_of : Option Headers → Option Bag
entries_of none = none
entries_of (some headers) = some headers.entries

is_missing-IsNonempty :
    (value : Value) → is_missing (first_value (some value)) ≡ false → IsNonempty value
unfolding is_missing first_value IsNonempty
is_missing-IsNonempty (one []) h = cc
is_missing-IsNonempty (one (c ∷ s)) h = tt
is_missing-IsNonempty (many []) h = cc
is_missing-IsNonempty (many ([] ∷ vs)) h = cc
is_missing-IsNonempty (many ((c ∷ s) ∷ vs)) h = tt
is_missing-IsNonempty inherited h = tt

own-Carries :
    (reading : Text → Text) (bag : Bag) (key name : Text) {value : Value}
    → ((k : Text) → k ≡ key → reading k ≡ reading name)
    → get_own bag key ≡ some value
    → is_missing (first_value (some value)) ≡ false
    → Carries reading name bag
unfolding get_own Carries
own-Carries reading [] key name same h there = absurd (cc h)
own-Carries reading ((k, v) ∷ bag) key name {value} same h there =
    elim (Bool-cases (text_eq k key)) [
      | inl e ↦
          let found : v ≡ value = cc (rw e at h) in
          inl (same k ((text_eq_iff k key).0 e), is_missing-IsNonempty v (rw found there))
      | inr e ↦ inr (own-Carries reading bag key name same (rw e at h) there)
    ]

index_own :
    (bag : Bag) (name : Text)
    → is_object_prototype_property_name name ≡ false
    → index bag name ≡ get_own bag name
unfolding index
index_own bag name h = elim (Option-cases (get_own bag name)) [
  | inl e ↦ rw (index, e, h)
  | inr (v, e) ↦ rw (index, e)
]

member-CarriesIn :
    (bag : Option Bag) (name : Text)
    → is_missing (first_value (read_member bag name (is_object_prototype_property_name name)))
      ≡ false
    → CarriesIn (λ s. s) name bag
unfolding read_member first_value is_missing CarriesIn
member-CarriesIn none name there = cc
member-CarriesIn (some bag) name there = elim (Option-cases (get_own bag name)) [
  | inl e ↦ cc (rw (own_read, e) at there)
  | inr (v, e) ↦ own-Carries (λ s. s) bag name name (λ k same. same) e (rw (own_read, e) at there)
]
  where
    own_read :
        read_member (some bag) name (is_object_prototype_property_name name) ≡ get_own bag name
    own_read = elim (Bool-cases (is_object_prototype_property_name name)) [
      | inl e ↦ rw e
      | inr e ↦ rw e (index_own bag name e)
    ]

module _ (lower : Text → Text) where
  -- The request itself carries the key at its place.
  pub HasKey : Text → Text → Request → Type 0
  HasKey location name req =
      if text_eq location (codes "header")
      then CarriesIn lower name (entries_of req.headers)
      else if text_eq location (codes "query")
      then CarriesIn (λ s. s) name req.query
      else CarriesIn (λ s. s) name req.cookies

  found-Carries :
      (bag : Bag) (lowered name : Text) {value : Value}
      → lowered ≡ lower name
      → find_lowered lower bag lowered ≡ some value
      → is_missing (first_value (some value)) ≡ false
      → Carries lower name bag
  unfolding find_lowered Carries
  found-Carries [] lowered name same h there = absurd (cc h)
  found-Carries ((k, v) ∷ bag) lowered name {value} same h there =
      elim (Bool-cases (text_eq (lower k) lowered)) [
        | inl e ↦
            let found : v ≡ value = cc (rw e at h) in
            inl
              ((text_eq_iff (lower k) lowered).0 e ∙ same, is_missing-IsNonempty v (rw found there))
        | inr e ↦ inr (found-Carries bag lowered name same (rw e at h) there)
      ]

  header-CarriesIn :
      ((s : Text) → lower (lower s) ≡ lower s)
      → (headers : Option Headers) (name : Text)
      → is_missing (first_value (get_header_value lower headers name)) ≡ false
      → CarriesIn lower name (entries_of headers)
  unfolding get_header_value first_value is_missing CarriesIn entries_of
  header-CarriesIn again none name there = cc
  header-CarriesIn again (some headers) name there =
      elim (Option-cases (get_own headers.entries (lower name))) [
        | inr (v, e) ↦
            own-Carries lower headers.entries (lower name) name
              (λ k same. ap lower same ∙ again name) e (rw (get_header_value, e) at there)
        | inl e ↦ scanned (rw (get_header_value, e) at there)
      ]
    where
      scanned :
          is_missing (first_value (scan_headers lower headers (lower name))) ≡ false
          → Carries lower name headers.entries
      scanned h = elim (Bool-cases headers.lowercase_keys) [
        | inl e ↦ cc (rw e at h)
        | inr e ↦ elim (Option-cases (find_lowered lower headers.entries (lower name))) [
          | inl e' ↦ cc (rw (e, e') at h)
          | inr (v, e') ↦ found-Carries headers.entries (lower name) name refl e' (rw (e, e') at h)
        ]
      ]

  fast_own :
      (headers : Option Headers) (name : Text)
      → is_object_prototype_property_name (lower name) ≡ false
      → get_header_value_fast lower headers name ≡ get_header_value lower headers name
  unfolding get_header_value get_header_value_fast
  fast_own none name h = refl
  fast_own (some headers) name h =
      rw (get_header_value_fast, index_own headers.entries (lower name) h)

  header_read :
      (req : Request) (name : Text)
      → get_header lower req name (is_header_object_prototype_property_name lower name)
        ≡ first_value (get_header_value lower req.headers name)
  unfolding get_header
  header_read req name = elim (Bool-cases (is_object_prototype_property_name (lower name))) [
    | inl e ↦ rw e
    | inr e ↦ rw e (ap first_value (fast_own req.headers name e))
  ]

  -- A check for an API key is content only when the request's own headers, query or cookies, as the
  -- scheme says, hold a nonempty value under the key's name (the names of headers in any case). What
  -- objects inherit never counts, whatever the key is called.
  pub api_key_reason-HasKey :
      ((s : Text) → lower (lower s) ≡ lower s)
      → (location name : Text) (req : Request) → api_key_reason lower location name req ≡ none
      → HasKey location name req
  unfolding api_key_reason HasKey
  api_key_reason-HasKey again location name req h =
      elim (Bool-cases
        (is_missing (pick_api_key lower req location name (reads_own lower location name)))) [
          | inl e ↦ cc (rw e at h)
          | inr e ↦ at_place e
        ]
    where
      at_place :
          is_missing (pick_api_key lower req location name (reads_own lower location name)) ≡ false
          → HasKey location name req
      at_place e = elim (Bool-cases (text_eq location (codes "header"))) [
        | inl l ↦
            rw (HasKey, l)
              (header-CarriesIn again req.headers name
                (rw (pick_api_key, reads_own, l, header_read req name) at e))
        | inr l ↦ elim (Bool-cases (text_eq location (codes "query"))) [
          | inl m ↦
              rw (HasKey, l, m)
                (member-CarriesIn req.query name (rw (pick_api_key, reads_own, l, m) at e))
          | inr m ↦
              rw (HasKey, l, m)
                (member-CarriesIn req.cookies name (rw (pick_api_key, reads_own, l, m) at e))
        ]
      ]
