-- ===== src/Router/Match/Allowed.antt =====
-- The methods that a "method not allowed" answer lists.
use oaverify.Common.{
  to_lower, lower_unit, Bool, true, false, ◌&&◌, ◌||◌, Option, none, some, List, [], ◌∷◌, ◌++◌, ◌≡◌,
  inl, inr, refl, ap, arith, All, Option-cases, Bool-cases, Text, is_some, any, map, codes, text_eq,
  text_eq_iff, text_eq_refl, ◌∙◌, sym, subst,
}
use oaverify.Router.Table.{
  PathItem, Route, http_methods, to_upper, upper_unit, operation_on, declared_among, mem,
  add_method,
}
use oaverify.Router.Table.Order.{insert_by, sort_by, compare_text}
use oaverify.Router.Match.{
  Tokens, request_tokens, method_not_allowed, Seen, nothing_seen, answer, see, finish, scan,
  match_route, add_all,
}
use oaverify.Router.Match.Scan.{hit, is_match, finish-is_match}

any-append :
    {A : Type 0} (p : A → Bool) (xs ys : List A) → any p (xs ++ ys) ≡ (any p xs || any p ys)
any-append p [] ys = refl
any-append p (x ∷ xs) ys = ground (arith, any-append p xs ys)

mem-add_method : (a m : Text) (ms : List Text) → mem a (add_method m ms) ≡ (mem a ms || text_eq a m)
mem-add_method a m ms = elim (Bool-cases (mem m ms)) [
  | inl e ↦ elim (Bool-cases (text_eq a m)) [
    | inl same ↦ let seen : mem a ms ≡ true = rw ((text_eq_iff a m).0 same) e in ground arith
    | inr other ↦ ground arith
  ]
  | inr e ↦ rw e (any-append (text_eq a) ms (m ∷ []) ∙ ground arith)
]

mem-add_all :
    (a : Text) (ds ms : List Text)
    → mem a (add_all ds ms) ≡ (mem a ms || any (λ d. text_eq a (to_upper d)) ds)
mem-add_all a [] ms = ground arith
mem-add_all a (d ∷ ds) ms =
    ground (arith, mem-add_all a ds (add_method (to_upper d) ms), mem-add_method a (to_upper d) ms)

mem-insert_by :
    (a m : Text) (ms : List Text) → mem a (insert_by compare_text m ms) ≡ (text_eq a m || mem a ms)
unfolding insert_by
mem-insert_by a m [] = refl
mem-insert_by a m (x ∷ xs) = ground (arith, mem-insert_by a m xs)

mem-sort_by : (a : Text) (ms : List Text) → mem a (sort_by compare_text ms) ≡ mem a ms
unfolding sort_by
mem-sort_by a [] = refl
mem-sort_by a (x ∷ xs) =
    mem-insert_by a x (sort_by compare_text xs) ∙ ap (λ b. text_eq a x || b) (mem-sort_by a xs)

finish_allowed :
    (Op : Type 0) (first : Option Text) (ms : List Text) {pattern : Text} {allowed : List Text}
    → finish {Op = Op} first ms ≡ method_not_allowed pattern allowed
    → allowed ≡ sort_by compare_text ms
finish_allowed Op none ms h = cc
finish_allowed Op (some first) ms h = cc

-- A name of the list is that of a method, and any other name is not offered.
mem-map :
    (a : Text) (ms : List Text)
    → mem a (map to_upper ms) ≡ true
    → (m : Text) × (mem m ms ≡ true) × (a ≡ to_upper m)
mem-map a [] h = cc
mem-map a (m ∷ ms) h = elim (Bool-cases (text_eq a (to_upper m))) [
  | inl e ↦ (m, rw (text_eq_refl m), (text_eq_iff a (to_upper m)).0 e)
  | inr e ↦ let (n, there, same) = mem-map a ms (rw e at h) in (n, ground arith, same)
]

not_mem-map :
    (p : Text → Bool) (a : Text) (ms : List Text)
    → mem a (map to_upper ms) ≡ false
    → any (λ m. p m && text_eq a (to_upper m)) ms ≡ false
not_mem-map p a [] h = refl
not_mem-map p a (m ∷ ms) h = ground (arith, not_mem-map p a ms)

not_mem-head :
    (a : Text) → mem a (map to_upper http_methods) ≡ false → text_eq a (codes "HEAD") ≡ false
unfolding http_methods upper_unit
not_mem-head a h = ground arith

All-mem : (P : Text → Type 0) (ms : List Text) (m : Text) → All P ms → mem m ms ≡ true → P m
All-mem P [] m a h = cc
All-mem P (x ∷ xs) m a h = elim (Bool-cases (text_eq m x)) [
  | inl e ↦ subst P (sym ((text_eq_iff m x).0 e)) a.0
  | inr e ↦ All-mem P xs m a.1 (rw e at h)
]

module _ {Op : Type 0} where
  any-declared_among :
      (p : Text → Bool) (i : PathItem Op) (ms : List Text)
      → any p (declared_among i ms) ≡ any (λ m. is_some (operation_on i m) && p m) ms
  any-declared_among p i [] = refl
  any-declared_among p i (m ∷ ms) = ground (arith, any-declared_among p i ms)

  -- The route adds this name to the list.
  abbrev offers : Text → PathItem Op → Bool
  offers a i =
      any (λ m. is_some (operation_on i m) && text_eq a (to_upper m)) http_methods
      || is_some (operation_on i (codes "get")) && text_eq a (codes "HEAD")

  mem-see :
      (a : Text) (r : Route Op) (seen : Seen)
      → mem a (see r seen).allowed ≡ (mem a seen.allowed || offers a r.path_item)
  unfolding see
  mem-see a r seen =
      let ds = declared_among r.path_item http_methods in
      ground (
        arith,
        mem-add_method a (codes "HEAD") (add_all ds seen.allowed),
        mem-add_all a ds seen.allowed,
        any-declared_among (λ d. text_eq a (to_upper d)) r.path_item http_methods,
      )

  -- The route is on the path and offers the name.
  abbrev hit_offers : Tokens → Text → Route Op → Bool
  hit_offers tokens a r = is_some (hit tokens r) && offers a r.path_item

  scan_allowed :
      (rs : List (Route Op)) (tokens : Tokens) (method : Text) (seen : Seen) {pattern : Text}
      {allowed : List Text} (a : Text)
      → scan rs tokens method seen ≡ method_not_allowed pattern allowed
      → mem a allowed ≡ (mem a seen.allowed || any (hit_offers tokens a) rs)
  unfolding scan
  scan_allowed [] tokens method seen a h =
      rw (finish_allowed Op seen.first_pattern seen.allowed h)
        (mem-sort_by a seen.allowed ∙ ground arith)
  scan_allowed (r ∷ rs) tokens method seen a h = elim (Option-cases (hit tokens r)) [
    | inl e ↦ rw e (scan_allowed rs tokens method seen a (rw (e, scan) at h))
    | inr (found, e) ↦ elim (Option-cases (answer r.path_item method)) [
      | inl e' ↦ rw e (
          scan_allowed rs tokens method (see r seen) a (rw (e, e', scan) at h)
          ∙ ground (arith, mem-see a r seen))
      | inr (op, e') ↦ cc (rw (e, e', scan) at h)
    ]
  ]

  -- Whether a scan finds an operation.
  scan-is_match :
      (rs : List (Route Op)) (tokens : Tokens) (method : Text) (seen : Seen)
      → is_match (scan rs tokens method seen)
        ≡ any (λ r. is_some (hit tokens r) && is_some (answer r.path_item method)) rs
  unfolding scan
  scan-is_match [] tokens method seen = finish-is_match Op seen.first_pattern seen.allowed
  scan-is_match (r ∷ rs) tokens method seen =
      ground
        (arith, scan-is_match rs tokens method seen, scan-is_match rs tokens method (see r seen))

  -- For each of the nine methods: its name is offered exactly when the method is answered.
  offers-answer :
      (i : PathItem Op)
      → All (λ m. offers (to_upper m) i ≡ is_some (answer i (to_lower (to_upper m)))) http_methods
  unfolding http_methods upper_unit lower_unit answer
  offers-answer i = (
    ground arith,
    (
      ground arith,
      (
        ground arith,
        (
          ground arith,
          (ground arith, (ground arith, (ground arith, (ground arith, (ground arith, tt))))),
        ),
      ),
    ),
  )

  offers_lem :
      (a : Text) (i : PathItem Op)
      → offers a i ≡ (mem a (map to_upper http_methods) && is_some (answer i (to_lower a)))
  offers_lem a i = elim (Bool-cases (mem a (map to_upper http_methods))) [
    | inl e ↦
        let (m, there, same) = mem-map a http_methods e in
        let at_m =
          All-mem (λ m. offers (to_upper m) i ≡ is_some (answer i (to_lower (to_upper m))))
            http_methods m (offers-answer i) there in
        rw e (subst (λ t. offers t i ≡ is_some (answer i (to_lower t))) (sym same) at_m)
    | inr e ↦ rw e (
        ground
          (arith, not_mem-map (λ m. is_some (operation_on i m)) a http_methods e, not_mem-head a e))
  ]

  hit_offers_lem :
      (tokens : Tokens) (a : Text) (rs : List (Route Op))
      → any (hit_offers tokens a) rs ≡ (
          mem a (map to_upper http_methods)
          && any (λ r. is_some (hit tokens r) && is_some (answer r.path_item (to_lower a))) rs)
  hit_offers_lem tokens a [] = ground arith
  hit_offers_lem tokens a (r ∷ rs) =
      ground (arith, offers_lem a r.path_item, hit_offers_lem tokens a rs)

  -- When the router answers that the method is not allowed, a text is in the list of allowed
  -- methods exactly when it is the name of a method in upper case with which the same path is
  -- matched by the same table.
  pub match_route_allowed :
      (routes : List (Route Op)) (method path : Text) {pattern : Text} {allowed : List Text}
      (a : Text)
      → match_route routes method path ≡ method_not_allowed pattern allowed
      → mem a allowed ≡ (mem a (map to_upper http_methods) && is_match (match_route routes a path))
  unfolding match_route
  match_route_allowed routes method path a h =
      let tokens = request_tokens path in
      scan_allowed routes tokens (to_lower method) nothing_seen a h
      ∙ hit_offers_lem tokens a routes
      ∙ ap (λ b. mem a (map to_upper http_methods) && b)
          (sym (scan-is_match routes tokens (to_lower a) nothing_seen))
