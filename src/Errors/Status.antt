-- ===== src/Errors/Status.antt =====
-- `httpStatusFor`: the gates in their order.
use oaverify.Common.{
  ℕ, ◌≡◌, ◌≢◌, ◌⊎◌, inl, inr, refl, ap, true, false, Bool-cases, if◌then◌else◌, Option, List, [],
  ◌∷◌, ◌++◌, All, Any, Text, codes, text_eq, text_eq_iff, ne_of_text_eq,
}
use oaverify.Errors.{
  ValidationError, code_of, HttpStatusMap, merged, Report, leaves_of, some_leaf, http_status_for,
}

some_leaf-true :
    (ls : List ValidationError) (code : Text)
    → some_leaf ls code ≡ true
    → Any (λ l. code_of l ≡ code) ls
unfolding some_leaf
some_leaf-true [] code h = absurd (cc h)
some_leaf-true (l ∷ ls) code h = elim (Bool-cases (text_eq (code_of l) code)) [
  | inl e ↦ inl ((text_eq_iff (code_of l) code).0 e)
  | inr e ↦ inr (some_leaf-true ls code (rw e at h))
]

some_leaf-false :
    (ls : List ValidationError) (code : Text)
    → some_leaf ls code ≡ false
    → All (λ l. code_of l ≢ code) ls
unfolding some_leaf
some_leaf-false [] code h = tt
some_leaf-false (l ∷ ls) code h = elim (Bool-cases (text_eq (code_of l) code)) [
  | inl e ↦ cc (rw e at h)
  | inr e ↦ (ne_of_text_eq (code_of l) code e, some_leaf-false ls code (rw e at h))
]

-- The gates of a request, from the first, with the status of each.
abbrev pub gates : HttpStatusMap ℕ → List (Text × ℕ)
gates m =
    (codes "route", m.route)
    ∷ (codes "method", m.method)
    ∷ (codes "security", m.security)
    ∷ (codes "content-type", m.content_type)
    ∷ (codes "status", m.status)
    ∷ (codes "body-too-large", m.body_too_large)
    ∷ []

abbrev pub NoLeaf : List ValidationError → Text × ℕ → Type 0
NoLeaf ls gate = All (λ l. code_of l ≢ gate.0) ls

-- Some leaf fails a gate, none fails an earlier one, and the status is that gate's; or no leaf
-- fails a gate, and the status is the default.
pub IsAnswer : List (Text × ℕ) → ℕ → List ValidationError → ℕ → Type 0
IsAnswer gs default ls status =
    ((before : List (Text × ℕ)) × (code : Text) × (after : List (Text × ℕ)) × (gs
        ≡ before ++ (code, status) ∷ after)
      × All (NoLeaf ls) before
      × Any (λ l. code_of l ≡ code) ls)
    ⊎ (All (NoLeaf ls) gs × (status ≡ default))

pick : List (Text × ℕ) → ℕ → List ValidationError → ℕ
pick [] default ls = default
pick ((code, n) ∷ gs) default ls =
    let more = pick gs default ls in if some_leaf ls code then n else more

pick-IsAnswer :
    (gs : List (Text × ℕ)) (default : ℕ) (ls : List ValidationError)
    → IsAnswer gs default ls (pick gs default ls)
unfolding pick IsAnswer
pick-IsAnswer [] default ls = inr (tt, refl)
pick-IsAnswer ((code, n) ∷ gs) default ls = elim (Bool-cases (some_leaf ls code)) [
  | inl e ↦ rw (pick, e) (inl ([], code, gs, refl, tt, some_leaf-true ls code e))
  | inr e ↦
      let passed = some_leaf-false ls code e in
      rw (pick, e) (later passed (pick-IsAnswer gs default ls))
]
  where
    later :
        NoLeaf ls (code, n)
        → IsAnswer gs default ls (pick gs default ls)
        → IsAnswer ((code, n) ∷ gs) default ls (pick gs default ls)
    later passed (inl (before, c, after, e, none_before, some_here)) =
        inl ((code, n) ∷ before, c, after, ap (◌∷◌ (code, n)) e, (passed, none_before), some_here)
    later passed (inr (none_at_all, e)) = inr ((passed, none_at_all), e)

-- The status is that of the first gate that a leaf of the report fails, in the order route, method,
-- security, content type, status and size of the body, whatever the order of the leaves; and the
-- default where no leaf fails a gate.
pub http_status_for-IsAnswer :
    (report : Report) (overrides : Option (HttpStatusMap (Option ℕ)))
    → IsAnswer
        (gates (merged overrides))
        (merged overrides).default
        (leaves_of report)
        (http_status_for report overrides)
unfolding http_status_for pick
http_status_for-IsAnswer report overrides =
    pick-IsAnswer (gates (merged overrides)) (merged overrides).default (leaves_of report)
