-- ===== src/Router/Table/Build.antt =====
-- `buildRouter`: the loop over the entries of the Paths Object, and the sorted table.
-- The Map `byMethodSignature` is an association list; an entry is added only for a new key.
use oaverify.Common.{
  true, false, Option, none, some, List, [], ◌∷◌, ◌++◌, if◌then◌else◌, is_some, ◌≡◌, refl, Text,
  text_eq, find_at,
}
use oaverify.Router.Segments.{parse_template, signature_of, marker}
use oaverify.Router.Table.{
  PathItem, Route, RouteInfo, RouteConflict, http_methods, to_upper, operation_on, declared_among,
  methods_declared_on, is_path_template,
}
use oaverify.Router.Table.Order.{sort_by, compare_routes}

abbrev pub Index : Type 0
Index = List (Text × Text)

-- `${method}\t${signature}`
abbrev pub index_key : Text → Text → Text
index_key method signature = method ++ (b'\t' ∷ signature)

unfoldable pub find_key : Text → Index → Option Text
unfolding text_eq
find_key key [] = none
find_key key ((k, pattern) ∷ index) = if text_eq k key then some pattern else find_key key index

-- A router, or the conflict that `createRouter` throws.
pub data Built (A : Type 0) : Type 0 where
  built : A → Built A
  refused : RouteConflict → Built A

infixl 5 ◌>>=◌
abbrev pub ◌>>=◌ : {A B : Type 0} → Built A → (A → Built B) → Built B
built a >>= k = k a
refused c >>= k = refused c

pub >>=-eq-built :
    {A B : Type 0} (m : Built A) (k : A → Built B) {b : B}
    → (m >>= k) ≡ built b
    → (a : A) × (m ≡ built a) × (k a ≡ built b)
>>=-eq-built (built a) k h = (a, refl, h)
>>=-eq-built (refused c) k h = cc

abbrev pub conflict_of : Text → Text → Text → Text → RouteConflict
conflict_of existing pattern signature method = record {
  first_path = existing;
  second_path = pattern;
  method = method;
  has_placeholder = is_some (find_at marker signature 0);
}

-- The loop over the methods of one Path Item, where a conflict throws.
unfoldable pub claim : Text → Text → List Text → Index → Built Index
unfolding find_key
claim pattern signature [] index = built index
claim pattern signature (m ∷ ms) index = elim (find_key (index_key m signature) index) [
  | some existing ↦ refused (conflict_of existing pattern signature m)
  | none ↦ claim pattern signature ms ((index_key m signature, pattern) ∷ index)
]

-- The same loop with `onConflict`, which is told of each conflict.
unfoldable pub claim_noting : Text → Text → List Text → Index → List RouteConflict × Index
unfolding find_key
claim_noting pattern signature [] index = ([], index)
claim_noting pattern signature (m ∷ ms) index = elim (find_key (index_key m signature) index) [
  | some existing ↦
      let (conflicts, index') = claim_noting pattern signature ms index in
      (conflict_of existing pattern signature m ∷ conflicts, index')
  | none ↦ claim_noting pattern signature ms ((index_key m signature, pattern) ∷ index)
]

module _ {Op : Type 0} where
  abbrev pub route_of : Text → PathItem Op → Route Op
  route_of pattern i = record {
    segments = parse_template pattern;
    path_pattern = pattern;
    path_item = i;
  }

  abbrev pub signature : Route Op → Text
  signature r = signature_of r.segments

  unfoldable pub collect : List (Text × PathItem Op) → Index → Built (List (Route Op))
  unfolding claim is_path_template methods_declared_on
  collect [] index = built []
  collect ((pattern, i) ∷ entries) index = elim (is_path_template pattern) [
    | false ↦ collect entries index
    | true ↦ do
      let route = route_of pattern i
      index' ← claim pattern (signature route) (methods_declared_on i) index
      routes ← collect entries index'
      built (route ∷ routes)
  ]

  unfoldable pub collect_noting :
      List (Text × PathItem Op) → Index → List RouteConflict × List (Route Op)
  unfolding claim_noting is_path_template methods_declared_on
  collect_noting [] index = ([], [])
  collect_noting ((pattern, i) ∷ entries) index = elim (is_path_template pattern) [
    | false ↦ collect_noting entries index
    | true ↦
        let route = route_of pattern i in
        let (conflicts, index') =
          claim_noting pattern (signature route) (methods_declared_on i) index in
        let (later, routes) = collect_noting entries index' in (conflicts ++ later, route ∷ routes)
  ]

  -- `createRouter`: the sorted routes that `match` scans.
  unfoldable pub create_router : List (Text × PathItem Op) → Built (List (Route Op))
  unfolding collect sort_by compare_routes
  create_router entries = do routes ← collect entries []; built (sort_by compare_routes routes)

  unfoldable pub create_router_for_check :
      List (Text × PathItem Op) → List RouteConflict × List (Route Op)
  unfolding collect_noting sort_by compare_routes
  create_router_for_check entries =
      let (conflicts, routes) = collect_noting entries [] in
      (conflicts, sort_by compare_routes routes)

  -- `routes()`: the declared operations, in the order of the table.
  abbrev infos_among : Route Op → List Text → List RouteInfo
  infos_among r [] = []
  infos_among r (m ∷ ms) =
      record { method = to_upper m; path_pattern = r.path_pattern } ∷ infos_among r ms

  unfoldable pub route_list : List (Route Op) → List RouteInfo
  unfolding operation_on http_methods
  route_list [] = []
  route_list (r ∷ rs) = infos_among r (declared_among r.path_item http_methods) ++ route_list rs
