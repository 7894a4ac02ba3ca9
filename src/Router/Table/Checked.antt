-- ===== src/Router/Table/Checked.antt =====
-- `createRouter` and `createRouterForCheck` agree.
use oaverify.Common.{List, [], ◌∷◌, ◌++◌, ◌≡◌, inl, inr, refl, ap, Text, Option-cases, Bool-cases}
use oaverify.Router.Table.{PathItem, Route, RouteConflict, methods_declared_on, is_path_template}
use oaverify.Router.Table.Order.{sort_by, compare_routes}
use oaverify.Router.Table.Build.{
  Built, built, refused, Index, index_key, find_key, claim, claim_noting, collect, collect_noting,
  create_router, create_router_for_check, signature, route_of, ◌>>=◌,
}

-- Success with the same result and no conflict to tell of, or a refusal with the first conflict.
abbrev pub Agrees : {A : Type 0} → Built A → List RouteConflict × A → Type 0
Agrees (built a) (conflicts, b) = (conflicts ≡ []) × (b ≡ a)
Agrees (refused c) (conflicts, b) = (later : List RouteConflict) × (conflicts ≡ c ∷ later)

claim-Agrees :
    (pattern sign : Text) (ms : List Text) (index : Index)
    → Agrees (claim pattern sign ms index) (claim_noting pattern sign ms index)
unfolding claim claim_noting
claim-Agrees pattern sign [] index = (refl, refl)
claim-Agrees pattern sign (m ∷ ms) index = elim (Option-cases (find_key (index_key m sign) index)) [
  | inl e ↦
      rw (e, claim, claim_noting)
        (claim-Agrees pattern sign ms ((index_key m sign, pattern) ∷ index))
  | inr (existing, e) ↦ rw (e, claim, claim_noting) ((claim_noting pattern sign ms index).0, refl)
]

Agrees-cons :
    {A : Type 0} (r : A) (b : Built (List A)) (n : List RouteConflict × List A)
    → Agrees b n
    → Agrees (b >>= λ rs. built (r ∷ rs)) (n.0, r ∷ n.1)
Agrees-cons r (built rs) (conflicts, rs') (e, same) = (e, ap (◌∷◌ r) same)
Agrees-cons r (refused c) (conflicts, rs') h = h

-- One more entry in front, whose methods are claimed.
Agrees-entry :
    {A : Type 0} (r : A) (b : Built Index) (n : List RouteConflict × Index)
    (rest : Index → Built (List A)) (rest_noting : Index → List RouteConflict × List A)
    → Agrees b n
    → ((index : Index) → Agrees (rest index) (rest_noting index))
    → Agrees
        (do index ← b; rs ← rest index; built (r ∷ rs))
        (n.0 ++ (rest_noting n.1).0, r ∷ (rest_noting n.1).1)
Agrees-entry r (built index) (conflicts, index') rest rest_noting (none_noted, same) h =
    rw (none_noted, same) (Agrees-cons r (rest index) (rest_noting index) (h index))
Agrees-entry r (refused c) (conflicts, index') rest rest_noting (later, e) h =
    (later ++ (rest_noting index').0, rw e)

module _ {Op : Type 0} where
  collect-Agrees :
      (entries : List (Text × PathItem Op)) (index : Index)
      → Agrees (collect entries index) (collect_noting entries index)
  unfolding collect collect_noting
  collect-Agrees [] index = (refl, refl)
  collect-Agrees ((pattern, i) ∷ entries) index = elim (Bool-cases (is_path_template pattern)) [
    | inr e ↦ rw (e, collect, collect_noting) (collect-Agrees entries index)
    | inl e ↦
        rw (e, collect, collect_noting)
          (Agrees-entry (route_of pattern i) _ _ (collect entries) (collect_noting entries)
            (claim-Agrees pattern (signature (route_of pattern i)) (methods_declared_on i) index)
            (collect-Agrees entries))
  ]

  -- The router for a check and the router that serves agree on every document: if `createRouter`
  -- succeeds, the check is told of no conflict and has the same table, and if it throws, what it
  -- throws is the first conflict that the check is told of.
  pub create_router-Agrees :
      (entries : List (Text × PathItem Op))
      → Agrees (create_router entries) (create_router_for_check entries)
  unfolding create_router create_router_for_check
  create_router-Agrees entries =
      sorted (collect entries []) (collect_noting entries []) (collect-Agrees entries [])
    where
      sorted :
          (b : Built (List (Route Op))) (n : List RouteConflict × List (Route Op))
          → Agrees b n
          → Agrees (b >>= λ rs. built (sort_by compare_routes rs)) (n.0, sort_by compare_routes n.1)
      sorted (built rs) (conflicts, rs') (none_noted, same) =
          (none_noted, ap (sort_by compare_routes) same)
      sorted (refused c) (conflicts, rs') h = h
