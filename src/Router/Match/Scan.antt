-- ===== src/Router/Match/Scan.antt =====
-- Which route `match` chooses, and when it answers that no path or no method matches.
use oaverify.Common.{
  to_lower, Bool, true, false, Option, none, some, List, [], ◌∷◌, ◌++◌, ◌≡◌, ◌≢◌, ◌↔◌, ◌⊎◌, inl,
  inr, refl, ap, arith, All, Option-cases, Text,
}
use oaverify.Router.Table.{Route}
use oaverify.Router.Match.{
  Captured, nothing_captured, Tokens, request_tokens, match_tokens, RouteResult, matched, unmatched,
  Seen, nothing_seen, answer, see, match_of, finish, scan, match_route,
}

module _ {Op : Type 0} where
  -- The captures of a route, when its template matches the tokens.
  abbrev pub hit : Tokens → Route Op → Option Captured
  hit tokens r = match_tokens r.segments tokens nothing_captured

  -- The route does not handle the request: another path, or no operation for the method.
  abbrev pub Passes : Tokens → Text → Route Op → Type 0
  Passes tokens method r = (hit tokens r ≡ none) ⊎ (answer r.path_item method ≡ none)

  -- The first route that handles the request, and what it captures.
  pub record Chosen (routes : List (Route Op)) (tokens : Tokens) (method : Text)
      (result : RouteResult Op) : Type 0 where
    pub before : List (Route Op)
    pub route : Route Op
    pub after : List (Route Op)
    pub captured : Captured
    pub operation : Op
    pub splits : routes ≡ before ++ route ∷ after
    pub passed : All (Passes tokens method) before
    pub hits : hit tokens route ≡ some captured
    pub answers : answer route.path_item method ≡ some operation
    pub result_is : result ≡ match_of route captured operation

  abbrev pub is_match : RouteResult Op → Bool
  is_match (matched op i p ps raw) = true
  is_match _ = false

pub finish-is_match :
    (Op : Type 0) (first : Option Text) (allowed : List Text)
    → is_match (finish {Op = Op} first allowed) ≡ false
finish-is_match Op none allowed = refl
finish-is_match Op (some pattern) allowed = refl

module _ {Op : Type 0} where
  Chosen-cons :
      {rs : List (Route Op)} {tokens : Tokens} {method : Text} {result : RouteResult Op}
      (r : Route Op)
      → Passes tokens method r
      → Chosen rs tokens method result
      → Chosen (r ∷ rs) tokens method result
  Chosen-cons r p c = record {
    before = r ∷ c.before;
    route = c.route;
    after = c.after;
    captured = c.captured;
    operation = c.operation;
    splits = ap (◌∷◌ r) c.splits;
    passed = (p, c.passed);
    hits = c.hits;
    answers = c.answers;
    result_is = c.result_is;
  }

  scan-Chosen :
      (rs : List (Route Op)) (tokens : Tokens) (method : Text) (seen : Seen)
      → is_match (scan rs tokens method seen) ≡ true
      → Chosen rs tokens method (scan rs tokens method seen)
  unfolding scan
  scan-Chosen [] tokens method seen h = cc (finish-is_match Op seen.first_pattern seen.allowed)
  scan-Chosen (r ∷ rs) tokens method seen h = elim (Option-cases (hit tokens r)) [
    | inl e ↦
        rw (e, scan) (Chosen-cons r (inl e) (scan-Chosen rs tokens method seen (rw (e, scan) at h)))
    | inr (found, e) ↦ elim (Option-cases (answer r.path_item method)) [
      | inl e' ↦
          rw (e, e', scan)
            (Chosen-cons r (inr e')
              (scan-Chosen rs tokens method (see r seen) (rw (e, e', scan) at h)))
      | inr (op, e') ↦
          rw (e, e', scan)
            (record {
              before = [];
              route = r;
              after = rs;
              captured = found;
              operation = op;
              splits = refl;
              passed = tt;
              hits = e;
              answers = e';
              result_is = refl;
            })
    ]
  ]

  -- When the router returns a match, it is that of the first route in the table whose template
  -- matches the path and that has an operation for the method (in lower case; GET answers HEAD); every
  -- route before it fails one of the two.
  pub match_route-Chosen :
      (routes : List (Route Op)) (method path : Text)
      → is_match (match_route routes method path) ≡ true
      → Chosen routes (request_tokens path) (to_lower method) (match_route routes method path)
  unfolding match_route
  match_route-Chosen routes method path h =
      scan-Chosen routes (request_tokens path) (to_lower method) nothing_seen h

  see-ne-none : (r : Route Op) (seen : Seen) → (see r seen).first_pattern ≢ none
  unfolding see
  see-ne-none r seen = ground arith

  scan_unmatched_iff :
      (rs : List (Route Op)) (tokens : Tokens) (method : Text) (seen : Seen)
      → (scan rs tokens method seen ≡ unmatched)
        ↔ ((seen.first_pattern ≡ none) × All (λ r. hit tokens r ≡ none) rs)
  unfolding scan
  scan_unmatched_iff [] tokens method seen = ground arith
  scan_unmatched_iff (r ∷ rs) tokens method seen = grind (
    arith,
    scan_unmatched_iff rs tokens method seen,
    scan_unmatched_iff rs tokens method (see r seen),
    see-ne-none r seen,
  )

  -- The router answers that no path matches exactly when no template in the table matches the
  -- path, whatever the method.
  pub match_route_unmatched_iff :
      (routes : List (Route Op)) (method path : Text)
      → (match_route routes method path ≡ unmatched)
        ↔ All (λ r. hit (request_tokens path) r ≡ none) routes
  unfolding match_route
  match_route_unmatched_iff routes method path =
      let (to, from) =
        scan_unmatched_iff routes (request_tokens path) (to_lower method) nothing_seen in
      (λ e. (to e).1, λ a. from (refl, a))
