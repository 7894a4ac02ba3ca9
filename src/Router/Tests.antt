-- ===== src/Router/Tests.antt =====
-- Runs of the router, and its theorems at concrete documents.
use mathlib.Core.List.Permᴰ
use mathlib.Core.List.{Permᴰ}
use oaverify.Common.{
  to_lower, false, none, some, List, [], ◌∷◌, ◌≡◌, ◌↔◌, refl, All, AllPairs, Text, codes, text_eq,
  find_at, ne_of_text_eq as ne, map, ◌&&◌, length, arith, ℕ,
}
use oaverify.Router.Segments.{literal, template, compound, parse_template, route_signature}
use oaverify.Router.Compound.{match_compound}
use oaverify.Router.Compound.Sound.{cut, IsNonempty, filled, match_compound_sound}
use oaverify.Router.Compound.Complete.{match_compound_iff}
use oaverify.Router.Table.{
  object, other, PathItem, item, no_object, Route, http_methods, upper_unit, to_upper, mem,
}
use oaverify.Router.Table.Build.{
  built, refused, create_router, create_router_for_check, route_list, route_of,
}
use oaverify.Router.Table.Order.{compare_routes}
use oaverify.Router.Table.Comparators.{IsOrder, compare_routes-IsOrder}
use oaverify.Router.Table.Apart.{Apart, create_router-Apart}
use oaverify.Router.Table.Checked.{Agrees, create_router-Agrees}
use oaverify.Router.Table.Permuted.{create_router-Permᴰ, OtherKey}
use oaverify.Router.Match.{match_route, matched, method_not_allowed, unmatched, request_tokens}
use oaverify.Router.Match.Scan.{Passes, is_match, hit, match_route_unmatched_iff}
use oaverify.Router.Match.NotAllowed.{FirstHit, match_route_not_allowed}
use oaverify.Router.Match.Allowed.{match_route_allowed}
use oaverify.Router.Precedence.{MostSpecific, match_route-MostSpecific}

-- What the runs unfold.
router : Unit {0}
unfolding parse_template match_route create_router create_router_for_check find_at http_methods
    upper_unit route_signature
router = tt

-- Operations are numbers here.
abbrev doc : List (Text × PathItem ℕ)
doc =
    (codes "/pets/{id}", item ((codes "get", object 1) ∷ (codes "delete", other) ∷ []))
    ∷ (codes "/pets/mine", item ((codes "get", object 2) ∷ []))
    ∷ (codes "/c/{sha}.{ext}", item ((codes "post", object 3) ∷ []))
    ∷ (codes "x-note", no_object)
    ∷ []

abbrev pets : Route ℕ
pets = record {
  segments = literal (codes "pets") ∷ template (codes "id") ∷ [];
  path_pattern = codes "/pets/{id}";
  path_item = item ((codes "get", object 1) ∷ (codes "delete", other) ∷ []);
}

abbrev mine : Route ℕ
mine = record {
  segments = literal (codes "pets") ∷ literal (codes "mine") ∷ [];
  path_pattern = codes "/pets/mine";
  path_item = item ((codes "get", object 2) ∷ []);
}

abbrev commit : Route ℕ
commit = record {
  segments =
      literal (codes "c")
      ∷ compound (codes "sha" ∷ codes "ext" ∷ []) ([] ∷ codes "." ∷ [] ∷ []) (codes "{sha}.{ext}")
      ∷ [];
  path_pattern = codes "/c/{sha}.{ext}";
  path_item = item ((codes "post", object 3) ∷ []);
}

abbrev table : List (Route ℕ)
table = mine ∷ commit ∷ pets ∷ []

create_router-doc : create_router doc ≡ built table
unfolding router
create_router-doc = refl

match_mine :
    match_route table (codes "HEAD") (codes "/pets/mine/?q=1")
    ≡ matched 2 mine.path_item mine.path_pattern [] none
unfolding router
match_mine = refl

-- Captures are decoded, and their wire text is kept beside; "é" is one unit in two escapes.
match_commit :
    match_route table (codes "post") (codes "/c/a%C3%A9%2Ft.g.x#top")
    ≡ matched 3 commit.path_item commit.path_pattern
        ((codes "sha", 97 ∷ 233 ∷ 47 ∷ 116 ∷ []) ∷ (codes "ext", codes "g.x") ∷ [])
        (some ((codes "sha", codes "a%C3%A9%2Ft") ∷ (codes "ext", codes "g.x") ∷ []))
unfolding router
match_commit = refl

-- A malformed escape leaves its token as it is.
match_malformed :
    match_route table (codes "get") (codes "pets/%zz")
    ≡ matched 1 pets.path_item pets.path_pattern
        ((codes "id", codes "%zz") ∷ [])
        (some ((codes "id", codes "%zz") ∷ []))
unfolding router
match_malformed = refl

abbrev allowed : List Text
allowed = codes "GET" ∷ codes "HEAD" ∷ []

match_put :
    match_route table (codes "put") (codes "/pets/mine")
    ≡ method_not_allowed (codes "/pets/mine") allowed
unfolding router
match_put = refl

match_unknown : match_route table (codes "GET") (codes "/owners") ≡ unmatched
unfolding router
match_unknown = refl

-- An escaped slash in a literal is no separator, and yet the two templates share a signature.
abbrev slashed : List (Text × PathItem ℕ)
slashed =
    (codes "/a%2Fb", item ((codes "get", object 1) ∷ []))
    ∷ (codes "/a/b", item ((codes "get", object 2) ∷ []))
    ∷ []

create_router-slashed :
    create_router slashed
    ≡ refused (record {
      first_path = codes "/a%2Fb";
      second_path = codes "/a/b";
      method = codes "get";
      has_placeholder = false;
    })
unfolding router
create_router-slashed = refl

abbrev slashed_route : Text → Route ℕ
slashed_route pattern = route_of pattern (item ((codes "get", object 1) ∷ []))

-- No request is for both.
slashed_paths :
    (is_match (match_route (slashed_route (codes "/a%2Fb") ∷ []) (codes "get") (codes "/a/b"))
      ≡ false)
    × (is_match (match_route (slashed_route (codes "/a/b") ∷ []) (codes "get") (codes "/a%2Fb"))
        ≡ false)
unfolding router
slashed_paths = (refl, refl)

route_list-table :
    route_list table
    ≡ record { method = codes "GET"; path_pattern = codes "/pets/mine" }
      ∷ record { method = codes "POST"; path_pattern = codes "/c/{sha}.{ext}" }
      ∷ record { method = codes "GET"; path_pattern = codes "/pets/{id}" }
      ∷ []
unfolding router route_list
route_list-table = refl

-- The theorems at these documents.
match_route-MostSpecific_example :
    MostSpecific table
      (request_tokens (codes "/pets/mine"))
      (to_lower (codes "GET"))
      (match_route table (codes "GET") (codes "/pets/mine"))
match_route-MostSpecific_example =
    match_route-MostSpecific doc table (codes "GET") (codes "/pets/mine") create_router-doc
      (unfold router in refl)

match_route_allowed_example : mem (codes "HEAD") allowed ≡ (
    mem (codes "HEAD") (map to_upper http_methods)
    && is_match (match_route table (codes "HEAD") (codes "/pets/mine")))
match_route_allowed_example =
    match_route_allowed table (codes "put") (codes "/pets/mine") (codes "HEAD") match_put

match_route_not_allowed_example :
    All (Passes (request_tokens (codes "/pets/mine")) (to_lower (codes "put"))) table
    × FirstHit table (request_tokens (codes "/pets/mine")) (codes "/pets/mine")
match_route_not_allowed_example =
    match_route_not_allowed table (codes "put") (codes "/pets/mine") match_put

match_route_unmatched_iff_example :
    (match_route table (codes "GET") (codes "/owners") ≡ unmatched)
    ↔ All (λ r. hit (request_tokens (codes "/owners")) r ≡ none) table
match_route_unmatched_iff_example = match_route_unmatched_iff table (codes "GET") (codes "/owners")

create_router-Apart_example : AllPairs Apart table
create_router-Apart_example = create_router-Apart doc table create_router-doc

create_router-Agrees_example : Agrees (create_router slashed) (create_router_for_check slashed)
create_router-Agrees_example = create_router-Agrees slashed

abbrev turned : List (Text × PathItem ℕ)
turned =
    (codes "/pets/mine", item ((codes "get", object 2) ∷ []))
    ∷ (codes "/pets/{id}", item ((codes "get", object 1) ∷ (codes "delete", other) ∷ []))
    ∷ (codes "/c/{sha}.{ext}", item ((codes "post", object 3) ∷ []))
    ∷ (codes "x-note", no_object)
    ∷ []

create_router-turned : create_router turned ≡ built table
unfolding router
create_router-turned = refl

other_keys : AllPairs OtherKey doc
unfolding text_eq
other_keys = (
  (ne _ _ refl, (ne _ _ refl, (ne _ _ refl, tt))),
  ((ne _ _ refl, (ne _ _ refl, tt)), ((ne _ _ refl, tt), (tt, tt))),
)

create_router-Permᴰ_example : table ≡ table
create_router-Permᴰ_example =
    create_router-Permᴰ doc turned table table
      (Permᴰ.trans (Permᴰ.swap refl refl) (Permᴰ.refl turned)) other_keys create_router-doc
      create_router-turned

abbrev sha_ext : List Text
sha_ext = codes "sha" ∷ codes "ext" ∷ []

abbrev around_dot : List Text
around_dot = [] ∷ codes "." ∷ [] ∷ []

match_compound_iff_example :
    ((caps : List (ℕ × ℕ)) × (match_compound sha_ext around_dot (codes "a.b.c") ≡ some caps)) ↔ (
      (xs : List Text) × (length xs ≡ length sha_ext)
      × All IsNonempty xs
      × (filled around_dot xs ≡ codes "a.b.c"))
match_compound_iff_example =
    match_compound_iff (codes "sha") (codes "ext" ∷ []) around_dot (codes "a.b.c") (omega arith)

captures_dots : match_compound sha_ext around_dot (codes "a.b.c") ≡ some ((0, 1) ∷ (2, 5) ∷ [])
unfolding match_compound find_at
captures_dots = refl

match_compound_sound_example :
    (length (map (cut (codes "a.b.c")) ((0, 1) ∷ (2, 5) ∷ [])) ≡ length sha_ext)
    × All IsNonempty (map (cut (codes "a.b.c")) ((0, 1) ∷ (2, 5) ∷ []))
    × (filled around_dot (map (cut (codes "a.b.c")) ((0, 1) ∷ (2, 5) ∷ [])) ≡ codes "a.b.c")
match_compound_sound_example =
    match_compound_sound (codes "sha") (codes "ext" ∷ []) around_dot (codes "a.b.c")
      ((0, 1) ∷ (2, 5) ∷ []) (omega arith) captures_dots

compare_routes-IsOrder_example : IsOrder (compare_routes {Op = ℕ})
compare_routes-IsOrder_example = compare_routes-IsOrder ℕ
