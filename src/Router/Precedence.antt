-- ===== src/Router/Precedence.antt =====
-- The route that answers is the most specific of those that could.
use Prim.Native.Nat.{Ordering}
use oaverify.Common.{
  to_lower, true, List, [], ◌∷◌, ◌++◌, ◌≡◌, ◌⊎◌, inl, inr, refl, sym, subst, arith, All, All-append,
  AllPairs, Text, some,
}
use oaverify.Router.Table.{PathItem, Route}
use oaverify.Router.Segments.{Segment, literal, compound, template}
use oaverify.Router.Table.Order.{then_by, compare_kinds, is_le, compare_routes}
use oaverify.Router.Table.Comparators.{compare_routes-IsOrder}
use oaverify.Router.Table.Sorted.{sort_by-sorted, IsLe, All-map}
use oaverify.Router.Table.Build.{built, collect, create_router, >>=-eq-built}
use oaverify.Router.Match.{
  Captured, Tokens, RouteResult, request_tokens, answer, match_of, match_route,
}
use oaverify.Router.Match.Scan.{hit, Passes, is_match, match_route-Chosen}

-- A literal is more specific than a compound, and both than a bare parameter.
pub data MoreSpecific : Segment → Segment → Type 0 where
  literal_compound : {v r : Text} {ns ls : List Text} → MoreSpecific (literal v) (compound ns ls r)
  literal_template : {v n : Text} → MoreSpecific (literal v) (template n)
  compound_template :
      {r n : Text} {ns ls : List Text} → MoreSpecific (compound ns ls r) (template n)

pub data SameKind : Segment → Segment → Type 0 where
  literals : {v w : Text} → SameKind (literal v) (literal w)
  compounds :
      {r s : Text} {ns ls ms ks : List Text} → SameKind (compound ns ls r) (compound ms ks s)
  templates : {n m : Text} → SameKind (template n) (template m)

-- From the left, the first segments that differ in kind decide.
pub data NoLessSpecific : List Segment → List Segment → Type 0 where
  no_more_left : {bs : List Segment} → NoLessSpecific [] bs
  no_more_right : {as' : List Segment} → NoLessSpecific as' []
  decided :
      {a b : Segment} {as' bs : List Segment} → MoreSpecific a b → NoLessSpecific (a ∷ as') (b ∷ bs)
  alike :
      {a b : Segment} {as' bs : List Segment}
      → SameKind a b
      → NoLessSpecific as' bs
      → NoLessSpecific (a ∷ as') (b ∷ bs)

compare_kinds-NoLessSpecific :
    (as' bs : List Segment) → is_le (compare_kinds as' bs) ≡ true → NoLessSpecific as' bs
unfolding compare_kinds
compare_kinds-NoLessSpecific [] bs h = no_more_left
compare_kinds-NoLessSpecific (a ∷ as') [] h = no_more_right
compare_kinds-NoLessSpecific (literal v ∷ as') (literal w ∷ bs) h =
    alike literals (compare_kinds-NoLessSpecific as' bs h)
compare_kinds-NoLessSpecific (literal v ∷ as') (compound ns ls r ∷ bs) h = decided literal_compound
compare_kinds-NoLessSpecific (literal v ∷ as') (template n ∷ bs) h = decided literal_template
compare_kinds-NoLessSpecific (compound ns ls r ∷ as') (literal w ∷ bs) h = cc
compare_kinds-NoLessSpecific (compound ns ls r ∷ as') (compound ms ks s ∷ bs) h =
    alike compounds (compare_kinds-NoLessSpecific as' bs h)
compare_kinds-NoLessSpecific (compound ns ls r ∷ as') (template n ∷ bs) h =
    decided compound_template
compare_kinds-NoLessSpecific (template n ∷ as') (literal w ∷ bs) h = cc
compare_kinds-NoLessSpecific (template n ∷ as') (compound ms ks s ∷ bs) h = cc
compare_kinds-NoLessSpecific (template n ∷ as') (template m ∷ bs) h =
    alike templates (compare_kinds-NoLessSpecific as' bs h)

then_by-le : (a b : Ordering) → is_le (then_by a b) ≡ true → is_le a ≡ true
then_by-le Ordering.lt b h = refl
then_by-le Ordering.eq b h = refl
then_by-le Ordering.gt b h = cc

module _ {Op : Type 0} where
  abbrev IsFirst : Route Op → Route Op → Type 0
  IsFirst a b = NoLessSpecific a.segments b.segments × (is_le (compare_routes a b) ≡ true)

  le-IsFirst : (a b : Route Op) → is_le (compare_routes a b) ≡ true → IsFirst a b
  unfolding compare_routes
  le-IsFirst a b h = (
    compare_kinds-NoLessSpecific a.segments b.segments
        (then_by-le (compare_kinds a.segments b.segments) _ h),
    h,
  )

  -- The result is that of a route of the table that handles the request, and every route that does
  -- is no more specific, and comes no earlier in the order of the table.
  pub record MostSpecific (table : List (Route Op)) (tokens : Tokens) (method : Text)
      (result : RouteResult Op) : Type 0 where
    pub before : List (Route Op)
    pub route : Route Op
    pub after : List (Route Op)
    pub splits : table ≡ before ++ route ∷ after
    pub captured : Captured
    pub operation : Op
    pub hits : hit tokens route ≡ some captured
    pub answers : answer route.path_item method ≡ some operation
    pub result_is : result ≡ match_of route captured operation
    pub first :
        All
          (λ r.
            Passes tokens method r
            ⊎ (NoLessSpecific route.segments r.segments × (is_le (compare_routes route r) ≡ true)))
          table

  create_router-sorted :
      (entries : List (Text × PathItem Op)) {table : List (Route Op)}
      → create_router entries ≡ built table
      → AllPairs (IsLe (compare_routes-IsOrder Op)) table
  unfolding create_router
  create_router-sorted entries e =
      let (routes, collected, sorted) = >>=-eq-built (collect entries []) _ e in
      subst (AllPairs (IsLe (compare_routes-IsOrder Op))) (cc sorted)
        (sort_by-sorted (compare_routes-IsOrder Op) routes)

  sort_le : (r : Route Op) → is_le (compare_routes r r) ≡ true
  sort_le r = ground (arith, (compare_routes-IsOrder Op).flips r r)

  sorted_behind :
      (R : Route Op → Route Op → Type 0) (before : List (Route Op)) (r : Route Op)
      (after : List (Route Op))
      → AllPairs R (before ++ r ∷ after)
      → All (R r) after
  sorted_behind R [] r after h = h.0
  sorted_behind R (x ∷ before) r after h = sorted_behind R before r after h.1

  -- A router that `createRouter` builds answers with a route of its table that matches the path and
  -- has an operation for the method. Where another route of the table does too, the chosen one is no
  -- less specific (from the left, the first segments of two kinds decide: a literal before a compound
  -- before a bare parameter), and it compares no greater.
  pub match_route-MostSpecific :
      (entries : List (Text × PathItem Op)) (table : List (Route Op)) (method path : Text)
      → create_router entries ≡ built table
      → is_match (match_route table method path) ≡ true
      → MostSpecific table (request_tokens path) (to_lower method) (match_route table method path)
  match_route-MostSpecific entries table method path e h =
      let c = match_route-Chosen table method path h in
      let sorted = create_router-sorted entries e in
      let self = sort_le c.route in
      let behind : All (IsLe (compare_routes-IsOrder Op) c.route) c.after =
        sorted_behind (IsLe (compare_routes-IsOrder Op)) c.before c.route c.after
          (subst (AllPairs (IsLe (compare_routes-IsOrder Op))) c.splits sorted) in
      let F = λ (r : Route Op).
        Passes (request_tokens path) (to_lower method) r
        ⊎ (NoLessSpecific c.route.segments r.segments
            × (is_le (compare_routes c.route r) ≡ true)) in
      record {
        before = c.before;
        route = c.route;
        after = c.after;
        splits = c.splits;
        captured = c.captured;
        operation = c.operation;
        hits = c.hits;
        answers = c.answers;
        result_is = c.result_is;
        first = subst (All F) (sym c.splits) (
            All-append F c.before (c.route ∷ c.after) (All-map c.before (λ r p. inl p) c.passed) (
              inr (le-IsFirst c.route c.route self),
              All-map c.after (λ r p. inr (le-IsFirst c.route r p)) behind,
            ));
      }
