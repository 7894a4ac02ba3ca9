-- ===== src/Security/Decision/Laws.antt =====
-- What the decision on a request's credentials amounts to.
use oaverify.Common.{
  ◌≡◌, ◌↔◌, ◌⊎◌, inl, inr, refl, Option-cases, none, List, [], ◌∷◌, ◌++◌, All, Any, Text, codes,
  join,
}
use oaverify.Security.{Request, SchemeCheck}
use oaverify.Security.Decision.{
  CompiledSecurity, failures_of, scheme_names, check_from, check_security,
}

-- Every scheme of an alternative is content.
abbrev pub IsSatisfied : Request → List SchemeCheck → Type 0
IsSatisfied req schemes = All (λ s. s.check req ≡ none) schemes

pub failures_of_iff :
    (schemes : List SchemeCheck) (req : Request)
    → (failures_of schemes req ≡ []) ↔ IsSatisfied req schemes
unfolding failures_of
failures_of_iff [] req = (λ h. tt, λ h. refl)
failures_of_iff (s ∷ schemes) req = elim (Option-cases (s.check req)) [
  | inl e ↦ (
    λ h. (e, (failures_of_iff schemes req).0 (rw e at h)),
    λ h. rw e ((failures_of_iff schemes req).1 h.1),
  )
  | inr (reason, e) ↦ (λ h. cc (rw e at h), λ h. cc (e, h.0))
]

List-cases : (xs : List Text) → (xs ≡ []) ⊎ ((y : Text) × (ys : List Text) × (xs ≡ y ∷ ys))
List-cases [] = inl refl
List-cases (y ∷ ys) = inr (y, ys, refl)

check_from_iff :
    (compiled : CompiledSecurity) (req : Request) (reasons : List Text) (names : List (List Text))
    → (check_from compiled req reasons names ≡ none) ↔ Any (IsSatisfied req) compiled
unfolding check_from
check_from_iff [] req reasons names = (λ h. cc, λ h. absurd h)
check_from_iff (alternative ∷ compiled) req reasons names =
    elim (List-cases (failures_of alternative req)) [
      | inl e ↦ (λ h. inl ((failures_of_iff alternative req).0 e), λ h. rw (check_from, e))
      | inr (f, fs, e) ↦
          let more =
            check_from_iff compiled req (reasons ++ join (codes " AND ") (f ∷ fs) ∷ [])
              (names ++ scheme_names alternative ∷ []) in
          (
            λ h. inr (more.0 (rw (check_from, e) at h)),
            λ h. elim h [
              | inl satisfied ↦ cc (e, (failures_of_iff alternative req).1 satisfied)
              | inr later ↦ rw (check_from, e) (more.1 later)
            ],
          )
    ]

-- The check lets a request through exactly when some alternative has every scheme content.
pub check_security_iff :
    (compiled : CompiledSecurity) (req : Request)
    → (check_security compiled req ≡ none) ↔ Any (IsSatisfied req) compiled
unfolding check_security
check_security_iff compiled req = check_from_iff compiled req [] []

-- What a refusal tells of each alternative.
pub reason_of : Request → List SchemeCheck → Text
reason_of req alternative = join (codes " AND ") (failures_of alternative req)
