-- ===== src/Security/Decision/Open.antt =====
-- Which requests the security of an operation lets through, from the document on.
use oaverify.Common.{
  ◌≡◌, ◌↔◌, ◌⊎◌, ap, ◌∙◌, inl, inr, refl, sym, subst, Bool-cases, Option, none, some, List, [], ◌∷◌,
  map, All, Any, Text, codes, text_eq,
}
use oaverify.Security.{
  Fallible, returns, throws, map_fallible, Request, Scheme, Mode, shape, strict, Declared,
  undeclared, unreadable, declared, Requirement, requirement, malformed, effective,
}
use oaverify.Security.Credentials.{compile_scheme_check, unsupported_scheme_check, is_http_scheme}
use oaverify.Security.Decision.{
  scheme_of, resolve_schemes, compile_requirement, unreadable_security_requirement,
  compile_effective, check_compiled, compile_operation_security, security_error,
}
use oaverify.Security.Decision.Laws.{IsSatisfied, check_security_iff}

module _ (lower : Text → Text) (atob : Text → Option Text) {Raw : Type 0}
    (resolve_ref : Raw → Fallible (Option Scheme)) where
  -- A readable alternative, of which every scheme is declared and content with the request.
  abbrev pub Meets : List (Text × Option Scheme) → Mode → Request → Requirement → Type 0
  Meets schemes mode req malformed = ⊥
  Meets schemes mode req (requirement names) =
      All
        (λ name.
          (scheme : Scheme) × (scheme_of lower atob resolve_ref schemes name ≡ some scheme)
          × ((compile_scheme_check lower atob name (some scheme) mode).check req ≡ none))
        names

  -- No requirement stands, or the document's schemes resolve and one of its alternatives is met.
  abbrev pub IsOpen : List (Text × Raw) → Mode → Request → Declared → Type 0
  IsOpen schemes mode req undeclared = Unit
  IsOpen schemes mode req unreadable = ⊥
  IsOpen schemes mode req (declared []) = Unit
  IsOpen schemes mode req (declared (r ∷ rs)) =
      (resolved : List (Text × Option Scheme)) × (resolve_schemes lower atob resolve_ref schemes
        ≡ returns resolved)
      × Any (Meets resolved mode req) (r ∷ rs)

  Fallible-cases : {A : Type 0} (x : Fallible A) → (x ≡ throws) ⊎ ((a : A) × (x ≡ returns a))
  Fallible-cases throws = inl refl
  Fallible-cases (returns a) = inr (a, refl)

  returns-injective : {A : Type 0} {a b : A} → ◌≡◌ {A = Fallible A} (returns a) (returns b) → a ≡ b
  returns-injective h = cc

  declared_check_iff :
      (name : Text) (scheme : Option Scheme) (mode : Mode) (req : Request)
      → ((compile_scheme_check lower atob name scheme mode).check req ≡ none) ↔ (
          (s : Scheme) × (scheme ≡ some s)
          × ((compile_scheme_check lower atob name (some s) mode).check req ≡ none))
  unfolding compile_scheme_check
  declared_check_iff name none mode req = (λ h. cc, λ (s, e, h). cc)
  declared_check_iff name (some s) mode req = (
    λ h. (s, refl, h),
    λ (s', e, h).
        subst (λ o. (compile_scheme_check lower atob name o mode).check req ≡ none) (sym e) h,
  )

  all_names_iff :
      (schemes : List (Text × Option Scheme)) (mode : Mode) (req : Request) (names : List Text)
      → IsSatisfied req (
          map
            (λ name.
              compile_scheme_check lower atob name
                (scheme_of lower atob resolve_ref schemes name)
                mode)
            names)
        ↔ All
            (λ name.
              (scheme : Scheme) × (scheme_of lower atob resolve_ref schemes name ≡ some scheme)
              × ((compile_scheme_check lower atob name (some scheme) mode).check req ≡ none))
            names
  all_names_iff schemes mode req [] = (λ h. tt, λ h. tt)
  all_names_iff schemes mode req (name ∷ names) =
      let here = declared_check_iff name (scheme_of lower atob resolve_ref schemes name) mode req in
      let more = all_names_iff schemes mode req names in
      (λ (h, k). (here.0 h, more.0 k), λ (h, k). (here.1 h, more.1 k))

  Meets-iff :
      (schemes : List (Text × Option Scheme)) (mode : Mode) (req : Request) (r : Requirement)
      → IsSatisfied req (compile_requirement lower atob resolve_ref schemes mode r)
        ↔ Meets schemes mode req r
  unfolding compile_requirement
  Meets-iff schemes mode req malformed = (λ h. cc (h.0), λ h. absurd h)
  Meets-iff schemes mode req (requirement names) = all_names_iff schemes mode req names

  Any-iff :
      (schemes : List (Text × Option Scheme)) (mode : Mode) (req : Request) (rs : List Requirement)
      → Any (IsSatisfied req) (map (compile_requirement lower atob resolve_ref schemes mode) rs)
        ↔ Any (Meets schemes mode req) rs
  Any-iff schemes mode req [] = (λ h. h, λ h. h)
  Any-iff schemes mode req (r ∷ rs) =
      let here = Meets-iff schemes mode req r in
      let more = Any-iff schemes mode req rs in
      (
        λ h. elim h [ inl a ↦ inl (here.0 a) | inr b ↦ inr (more.0 b) ],
        λ h. elim h [ inl a ↦ inl (here.1 a) | inr b ↦ inr (more.1 b) ],
      )

  pub security_error_iff :
      (operation document : Declared) (schemes : List (Text × Raw)) (mode : Mode) (req : Request)
      → (security_error lower atob resolve_ref operation document schemes mode req ≡ returns none)
        ↔ IsOpen schemes mode req (effective operation document)
  unfolding security_error compile_operation_security compile_effective
  security_error_iff operation document schemes mode req = at (effective operation document)
    where
      at :
          (d : Declared)
          → (map_fallible
                (check_compiled lower atob resolve_ref req)
                (compile_effective lower atob resolve_ref schemes mode d)
              ≡ returns none)
            ↔ IsOpen schemes mode req d
      at undeclared = (λ h. tt, λ h. refl)
      at unreadable =
          let law = check_security_iff (unreadable_security_requirement ∷ []) req in
          (
            λ h. elim (law.0 (returns-injective h)) [
              | inl satisfied ↦ cc (satisfied.0)
              | inr impossible ↦ impossible
            ],
            λ h. absurd h,
          )
      at (declared []) = (λ h. tt, λ h. refl)
      at (declared (r ∷ rs)) =
          elim (Fallible-cases (resolve_schemes lower atob resolve_ref schemes)) [
            | inl e ↦ (λ h. cc (rw e at h), λ (resolved, k, h). cc (e, k))
            | inr (resolved, e) ↦
                let law =
                  check_security_iff
                    (map (compile_requirement lower atob resolve_ref resolved mode) (r ∷ rs)) req in
                let met = Any-iff resolved mode req (r ∷ rs) in
                (
                  λ h. (resolved, e, met.0 (law.0 (returns-injective (rw e at h)))),
                  λ (others, k, h).
                      let same : others ≡ resolved = returns-injective (sym k ∙ e) in
                      rw e (
                        ap returns
                          (law.1 (met.1 (subst (λ x. Any (Meets x mode req) (r ∷ rs)) same h)))),
                )
          ]

  strict_shape :
      (name : Text) (s : Scheme) (req : Request)
      → (compile_scheme_check lower atob name (some s) strict).check req ≡ none
      → (compile_scheme_check lower atob name (some s) shape).check req ≡ none
  unfolding compile_scheme_check unsupported_scheme_check
  strict_shape name s req h = elim (Bool-cases (text_eq s.type (codes "http"))) [
    | inl e ↦ elim (Bool-cases (is_http_scheme lower atob s (codes "bearer"))) [
      | inl e1 ↦ rw (e, e1) (rw (e, e1) at h)
      | inr e1 ↦ elim (Bool-cases (is_http_scheme lower atob s (codes "basic"))) [
        | inl e2 ↦ rw (e, e1, e2) (rw (e, e1, e2) at h)
        | inr e2 ↦ rw (e, e1, e2)
      ]
    ]
    | inr e ↦ elim (Bool-cases (text_eq s.type (codes "apiKey"))) [
      | inl e1 ↦ rw (e, e1) (rw (e, e1) at h)
      | inr e1 ↦ rw (e, e1)
    ]
  ]

  -- What the strict mode lets through, the mode that checks shapes lets through.
  pub security_error_strict :
      (operation document : Declared) (schemes : List (Text × Raw)) (req : Request)
      → security_error lower atob resolve_ref operation document schemes strict req ≡ returns none
      → security_error lower atob resolve_ref operation document schemes shape req ≡ returns none
  security_error_strict operation document schemes req h =
      (security_error_iff operation document schemes shape req).1 (
        open_shape (effective operation document)
          ((security_error_iff operation document schemes strict req).0 h))
    where
      names_shape :
          (resolved : List (Text × Option Scheme)) (names : List Text)
          → Meets resolved strict req (requirement names)
          → Meets resolved shape req (requirement names)
      names_shape resolved [] m = tt
      names_shape resolved (name ∷ names) ((s, e, k), more) =
          ((s, e, strict_shape name s req k), names_shape resolved names more)

      meets_shape :
          (resolved : List (Text × Option Scheme)) (r : Requirement)
          → Meets resolved strict req r
          → Meets resolved shape req r
      meets_shape resolved malformed m = m
      meets_shape resolved (requirement names) m = names_shape resolved names m

      any_shape :
          (resolved : List (Text × Option Scheme)) (rs : List Requirement)
          → Any (Meets resolved strict req) rs
          → Any (Meets resolved shape req) rs
      any_shape resolved [] m = m
      any_shape resolved (r ∷ rs) (inl m) = inl (meets_shape resolved r m)
      any_shape resolved (r ∷ rs) (inr m) = inr (any_shape resolved rs m)

      open_shape : (d : Declared) → IsOpen schemes strict req d → IsOpen schemes shape req d
      open_shape undeclared m = m
      open_shape unreadable m = m
      open_shape (declared []) m = m
      open_shape (declared (r ∷ rs)) (resolved, e, m) = (resolved, e, any_shape resolved (r ∷ rs) m)
