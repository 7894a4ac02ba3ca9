-- ===== src/Router/Match/NotAllowed.antt =====
-- What `match` reports when the path is known and the method is not.
use oaverify.Common.{
  to_lower, Option, none, some, List, [], ◌∷◌, ◌++◌, ◌≡◌, inl, inr, refl, ap, All, Option-cases,
  Text,
}
use oaverify.Router.Table.{Route}
use oaverify.Router.Match.{
  Captured, Tokens, request_tokens, method_not_allowed, Seen, nothing_seen, answer, see, finish,
  scan, match_route, or_first,
}
use oaverify.Router.Match.Scan.{hit, Passes}

module _ {Op : Type 0} where
  -- The first route whose template matches.
  pub record FirstHit (routes : List (Route Op)) (tokens : Tokens) (pattern : Text) : Type 0 where
    pub before : List (Route Op)
    pub route : Route Op
    pub after : List (Route Op)
    pub captured : Captured
    pub splits : routes ≡ before ++ route ∷ after
    pub missed : All (λ r. hit tokens r ≡ none) before
    pub hits : hit tokens route ≡ some captured
    pub pattern_is : pattern ≡ route.path_pattern

  -- The pattern that is reported, given what was seen before.
  abbrev Reported : Option Text → List (Route Op) → Tokens → Text → Type 0
  Reported none rs tokens pattern = FirstHit rs tokens pattern
  Reported (some first) rs tokens pattern = pattern ≡ first

  Reported-cons :
      (first : Option Text) (r : Route Op) (rs : List (Route Op)) (tokens : Tokens) (pattern : Text)
      → hit tokens r ≡ none
      → Reported first rs tokens pattern
      → Reported first (r ∷ rs) tokens pattern
  Reported-cons none r rs tokens pattern e f = record {
    before = r ∷ f.before;
    route = f.route;
    after = f.after;
    captured = f.captured;
    splits = ap (◌∷◌ r) f.splits;
    missed = (e, f.missed);
    hits = f.hits;
    pattern_is = f.pattern_is;
  }
  Reported-cons (some first) r rs tokens pattern e f = f

  Reported-see :
      (first : Option Text) (r : Route Op) (rs : List (Route Op)) (tokens : Tokens) (pattern : Text)
      {found : Captured}
      → hit tokens r ≡ some found
      → Reported (or_first first r.path_pattern) rs tokens pattern
      → Reported first (r ∷ rs) tokens pattern
  Reported-see none r rs tokens pattern {found} e p = record {
    before = [];
    route = r;
    after = rs;
    captured = found;
    splits = refl;
    missed = tt;
    hits = e;
    pattern_is = p;
  }
  Reported-see (some first) r rs tokens pattern e p = p

  Reported-finish :
      (first : Option Text) (tokens : Tokens) (ms : List Text) {pattern : Text}
      {allowed : List Text}
      → finish {Op = Op} first ms ≡ method_not_allowed pattern allowed
      → Reported first [] tokens pattern
  Reported-finish none tokens ms h = cc
  Reported-finish (some first) tokens ms h = cc

  scan_not_allowed :
      (rs : List (Route Op)) (tokens : Tokens) (method : Text) (seen : Seen) {pattern : Text}
      {allowed : List Text}
      → scan rs tokens method seen ≡ method_not_allowed pattern allowed
      → All (Passes tokens method) rs × Reported seen.first_pattern rs tokens pattern
  unfolding scan see
  scan_not_allowed [] tokens method seen h =
      (tt, Reported-finish seen.first_pattern tokens seen.allowed h)
  scan_not_allowed (r ∷ rs) tokens method seen {pattern} h = elim (Option-cases (hit tokens r)) [
    | inl e ↦
        let (p, f) = scan_not_allowed rs tokens method seen (rw (e, scan) at h) in
        ((inl e, p), Reported-cons seen.first_pattern r rs tokens pattern e f)
    | inr (found, e) ↦ elim (Option-cases (answer r.path_item method)) [
      | inl e' ↦
          let (p, f) = scan_not_allowed rs tokens method (see r seen) (rw (e, e', scan) at h) in
          ((inr e', p), Reported-see seen.first_pattern r rs tokens pattern e f)
      | inr (op, e') ↦ cc (rw (e, e', scan) at h)
    ]
  ]

  -- When the router answers that the method is not allowed, no route whose template matches the
  -- path has an operation for the method, and the pattern reported is that of the first route
  -- whose template matches.
  pub match_route_not_allowed :
      (routes : List (Route Op)) (method path : Text) {pattern : Text} {allowed : List Text}
      → match_route routes method path ≡ method_not_allowed pattern allowed
      → All (Passes (request_tokens path) (to_lower method)) routes
        × FirstHit routes (request_tokens path) pattern
  unfolding match_route
  match_route_not_allowed routes method path h =
      scan_not_allowed routes (request_tokens path) (to_lower method) nothing_seen h
