-- ===== src/Security/QueryKeys.antt =====
-- `queryApiKeyNamesForSecurity`: the query keys that the security in force declares.
use oaverify.Common.{
  ◌≡◌, ◌≢◌, sym, true, and-eq-true_iff, >>=-eq-some, ◌↔◌, ◌⊎◌, inl, inr, ap, ◌∙◌, Bool, false, ◌&&◌,
  if◌then◌else◌, Bool-cases, Option-cases, Option, none, some, ◌>>=◌, List, [], ◌∷◌, Any, Text,
  codes, text_eq, text_eq_iff,
}
use oaverify.Security.{
  Scheme, Declared, undeclared, unreadable, declared, Requirement, requirement, malformed,
  effective, get_own,
}

-- `names.add(name)`
unfoldable pub add_name : Text → List Text → List Text
add_name name [] = name ∷ []
add_name name (n ∷ names) = if text_eq n name then n ∷ names else n ∷ add_name name names

-- `typeof name === "string" && name !== ""`
abbrev nonempty_name : Option Text → Option Text
nonempty_name (some (c ∷ s)) = some (c ∷ s)
nonempty_name _ = none

abbrev is_text : Option Text → Text → Bool
is_text none word = false
is_text (some s) word = text_eq s word

-- The wire key of a scheme for an API key in the query.
unfoldable pub query_key : Scheme → Option Text
query_key scheme =
    if text_eq scheme.type (codes "apiKey") && is_text scheme.location (codes "query")
    then nonempty_name scheme.name
    else none

-- A throw of `resolveRef` is caught; like `undefined`, it is `none`.
module _ {Raw : Type 0} (resolve_ref : Raw → Option Scheme) where
  unfoldable pub key_of : List (Text × Raw) → Text → Option Text
  unfolding get_own query_key
  key_of schemes name = do raw ← get_own schemes name; scheme ← resolve_ref raw; query_key scheme

  unfoldable pub add_keys : List (Text × Raw) → List Text → List Text → List Text
  unfolding key_of add_name
  add_keys schemes [] found = found
  add_keys schemes (name ∷ names) found = elim (key_of schemes name) [
    | none ↦ add_keys schemes names found
    | some key ↦ add_keys schemes names (add_name key found)
  ]

  unfoldable pub collect_keys : List (Text × Raw) → List Requirement → List Text → List Text
  unfolding add_keys
  collect_keys schemes [] found = found
  collect_keys schemes (malformed ∷ rs) found = collect_keys schemes rs found
  collect_keys schemes (requirement names ∷ rs) found =
      collect_keys schemes rs (add_keys schemes names found)

  unfoldable pub query_api_key_names_for_security :
      Declared → Declared → List (Text × Raw) → List Text
  unfolding collect_keys
  query_api_key_names_for_security operation document schemes =
      elim (effective operation document) [ declared rs ↦ collect_keys schemes rs [] | _ ↦ [] ]

  add_name_iff :
      (key name : Text) (found : List Text)
      → Any (λ n. n ≡ key) (add_name name found) ↔ ((name ≡ key) ⊎ Any (λ n. n ≡ key) found)
  unfolding add_name
  add_name_iff key name [] = (λ h. h, λ h. h)
  add_name_iff key name (n ∷ found) = elim (Bool-cases (text_eq n name)) [
    | inl e ↦
        rw e (
          inr,
          λ h. elim h [ inl same ↦ inl ((text_eq_iff n name).0 e ∙ same) | inr there ↦ there ],
        )
    | inr e ↦
        let more = add_name_iff key name found in
        rw e (
          λ h. elim h [
            | inl here ↦ inr (inl here)
            | inr later ↦ elim (more.0 later) [ inl same ↦ inl same | inr there ↦ inr (inr there) ]
          ],
          λ h. elim h [
            | inl same ↦ inr (more.1 (inl same))
            | inr (inl here) ↦ inl here
            | inr (inr there) ↦ inr (more.1 (inr there))
          ],
        )
  ]

  add_keys_iff :
      (schemes : List (Text × Raw)) (key : Text) (names found : List Text)
      → Any (λ n. n ≡ key) (add_keys schemes names found)
        ↔ (Any (λ n. n ≡ key) found ⊎ Any (λ name. key_of schemes name ≡ some key) names)
  unfolding add_keys
  add_keys_iff schemes key [] found =
      (λ h. inl h, λ h. elim h [ inl there ↦ there | inr impossible ↦ absurd impossible ])
  add_keys_iff schemes key (name ∷ names) found = elim (Option-cases (key_of schemes name)) [
    | inl e ↦
        let more = add_keys_iff schemes key names found in
        rw (add_keys, e)
          (
            λ h. elim (more.0 h) [ inl there ↦ inl there | inr later ↦ inr (inr later) ],
            λ h. elim h [
              | inl there ↦ more.1 (inl there)
              | inr (inl here) ↦ cc here
              | inr (inr later) ↦ more.1 (inr later)
            ],
          )
    | inr (k, e) ↦
        let more = add_keys_iff schemes key names (add_name k found) in
        let added = add_name_iff key k found in
        rw (add_keys, e)
          (
            λ h. elim (more.0 h) [
              | inr later ↦ inr (inr later)
              | inl there ↦ elim (added.0 there) [
                | inl same ↦ inr (inl (ap some same))
                | inr old ↦ inl old
              ]
            ],
            λ h. elim h [
              | inl there ↦ more.1 (inl (added.1 (inr there)))
              | inr (inl here) ↦ more.1 (inl (added.1 (inl (cc here))))
              | inr (inr later) ↦ more.1 (inr later)
            ],
          )
  ]

  -- A scheme for an API key that is sent in the query under this name, which is not empty.
  pub record IsQueryKey (key : Text) (scheme : Scheme) : Type 0 where
    pub api_key : scheme.type ≡ codes "apiKey"
    pub in_query : scheme.location ≡ some (codes "query")
    pub named : scheme.name ≡ some key
    pub nonempty : key ≢ []

  -- The document declares such a scheme under the name, behind a reference perhaps.
  pub record DeclaresKey (schemes : List (Text × Raw)) (key name : Text) : Type 0 where
    pub raw : Raw
    pub scheme : Scheme
    pub is_declared : get_own schemes name ≡ some raw
    pub resolves : resolve_ref raw ≡ some scheme
    pub is_query_key : IsQueryKey key scheme

  -- An item of the list that names a scheme with this key.
  abbrev pub Names : List (Text × Raw) → Text → Requirement → Type 0
  Names schemes key malformed = ⊥
  Names schemes key (requirement names) = Any (DeclaresKey schemes key) names

  some-injective : {A : Type 0} {a b : A} → ◌≡◌ {A = Option A} (some a) (some b) → a ≡ b
  some-injective h = cc

  nonempty_name_iff :
      (name : Option Text) (key : Text)
      → (nonempty_name name ≡ some key) ↔ ((name ≡ some key) × (key ≢ []))
  nonempty_name_iff none key = (λ h. cc, λ (h, k). cc)
  nonempty_name_iff (some []) key = (λ h. cc, λ (h, k). absurd (k (sym (some-injective h))))
  nonempty_name_iff (some (c ∷ s)) key = (λ h. (h, λ e. cc), λ (h, k). h)

  is_text-eq : (s : Option Text) (word : Text) → (is_text s word ≡ true) ↔ (s ≡ some word)
  is_text-eq none word = (λ h. cc, λ h. cc)
  is_text-eq (some s) word =
      (λ h. ap some ((text_eq_iff s word).0 h), λ h. (text_eq_iff s word).1 (some-injective h))

  query_key_iff :
      (scheme : Scheme) (key : Text) → (query_key scheme ≡ some key) ↔ IsQueryKey key scheme
  unfolding query_key
  query_key_iff scheme key = (sound, complete)
    where
      sound : query_key scheme ≡ some key → IsQueryKey key scheme
      sound h =
          elim (Bool-cases
            (text_eq scheme.type (codes "apiKey") && is_text scheme.location (codes "query"))) [
              | inr e ↦ cc (rw (query_key, e) at h)
              | inl e ↦
                  let (a, q) = (and-eq-true_iff _ _).0 e in
                  let (n, k) = (nonempty_name_iff scheme.name key).0 (rw (query_key, e) at h) in
                  record {
                    api_key = (text_eq_iff scheme.type (codes "apiKey")).0 a;
                    in_query = (is_text-eq scheme.location (codes "query")).0 q;
                    named = n;
                    nonempty = k;
                  }
            ]

      complete : IsQueryKey key scheme → query_key scheme ≡ some key
      complete h =
          let e =
            (and-eq-true_iff (text_eq scheme.type (codes "apiKey"))
                (is_text scheme.location (codes "query"))).1
              (
                (text_eq_iff scheme.type (codes "apiKey")).1 h.api_key,
                (is_text-eq scheme.location (codes "query")).1 h.in_query,
              ) in
          rw (query_key, e) ((nonempty_name_iff scheme.name key).1 (h.named, h.nonempty))

  key_of_iff :
      (schemes : List (Text × Raw)) (key name : Text)
      → (key_of schemes name ≡ some key) ↔ DeclaresKey schemes key name
  unfolding key_of
  key_of_iff schemes key name = (sound, complete)
    where
      sound : key_of schemes name ≡ some key → DeclaresKey schemes key name
      sound h =
          let (raw, found, h1) = >>=-eq-some (get_own schemes name) _ h in
          let (scheme, resolved, h2) = >>=-eq-some (resolve_ref raw) _ h1 in
          record {
            raw = raw;
            scheme = scheme;
            is_declared = found;
            resolves = resolved;
            is_query_key = (query_key_iff scheme key).0 h2;
          }

      complete : DeclaresKey schemes key name → key_of schemes name ≡ some key
      complete d =
          rw (key_of, d.is_declared) (rw d.resolves ((query_key_iff d.scheme key).1 d.is_query_key))

  Any-iff :
      {A : Type 0} (P Q : A → Type 0) (xs : List A) → ((x : A) → P x ↔ Q x) → Any P xs ↔ Any Q xs
  Any-iff P Q [] f = (λ h. h, λ h. h)
  Any-iff P Q (x ∷ xs) f =
      let rest = Any-iff P Q xs f in
      (
        λ h. elim h [ inl here ↦ inl ((f x).0 here) | inr later ↦ inr (rest.0 later) ],
        λ h. elim h [ inl here ↦ inl ((f x).1 here) | inr later ↦ inr (rest.1 later) ],
      )

  abbrev pub Declares : List (Text × Raw) → Text → Declared → Type 0
  Declares schemes key undeclared = ⊥
  Declares schemes key unreadable = ⊥
  Declares schemes key (declared rs) = Any (Names schemes key) rs

  or_iff : {A B C E : Type 0} → (A ↔ (B ⊎ C)) → (C ↔ E) → (A ↔ (B ⊎ E))
  or_iff f g = (
    λ a. elim (f.0 a) [ inl b ↦ inl b | inr c ↦ inr (g.0 c) ],
    λ h. elim h [ inl b ↦ f.1 (inl b) | inr e ↦ f.1 (inr (g.1 e)) ],
  )

  collect_keys_iff :
      (schemes : List (Text × Raw)) (key : Text) (rs : List Requirement) (found : List Text)
      → Any (λ n. n ≡ key) (collect_keys schemes rs found)
        ↔ (Any (λ n. n ≡ key) found ⊎ Any (Names schemes key) rs)
  unfolding collect_keys
  collect_keys_iff schemes key [] found =
      (λ h. inl h, λ h. elim h [ inl there ↦ there | inr impossible ↦ absurd impossible ])
  collect_keys_iff schemes key (malformed ∷ rs) found =
      let more = collect_keys_iff schemes key rs found in
      (
        λ h. elim (more.0 h) [ inl there ↦ inl there | inr later ↦ inr (inr later) ],
        λ h. elim h [
          | inl there ↦ more.1 (inl there)
          | inr (inl impossible) ↦ absurd impossible
          | inr (inr later) ↦ more.1 (inr later)
        ],
      )
  collect_keys_iff schemes key (requirement names ∷ rs) found =
      let more = collect_keys_iff schemes key rs (add_keys schemes names found) in
      let added' = add_keys_iff schemes key names found in
      let keys =
        Any-iff (λ name. key_of schemes name ≡ some key) (DeclaresKey schemes key) names
          (key_of_iff schemes key) in
      let added = or_iff added' keys in
      (
        λ h. elim (more.0 h) [
          | inr later ↦ inr (inr later)
          | inl there ↦ elim (added.0 there) [ inl old ↦ inl old | inr here ↦ inr (inl here) ]
        ],
        λ h. elim h [
          | inl there ↦ more.1 (inl (added.1 (inl there)))
          | inr (inl here) ↦ more.1 (inl (added.1 (inr here)))
          | inr (inr later) ↦ more.1 (inr later)
        ],
      )

  -- A query key is among those of the security in force exactly when an item of its list names a
  -- declared scheme for an API key in the query under that key.
  pub query_api_key_names_for_security_iff :
      (operation document : Declared) (schemes : List (Text × Raw)) (key : Text)
      → Any (λ n. n ≡ key) (query_api_key_names_for_security operation document schemes)
        ↔ Declares schemes key (effective operation document)
  unfolding query_api_key_names_for_security
  query_api_key_names_for_security_iff operation document schemes key =
      at (effective operation document)
    where
      at :
          (d : Declared)
          → Any (λ n. n ≡ key) (elim d [ declared rs ↦ collect_keys schemes rs [] | _ ↦ [] ])
            ↔ Declares schemes key d
      at undeclared = (λ h. h, λ h. h)
      at unreadable = (λ h. h, λ h. h)
      at (declared rs) =
          let law = collect_keys_iff schemes key rs [] in
          (
            λ h. elim (law.0 h) [ inl impossible ↦ absurd impossible | inr here ↦ here ],
            λ h. law.1 (inr h),
          )
