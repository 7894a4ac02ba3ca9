-- ===== src/Errors.antt =====
-- packages/core/src/errors.ts and packages/core/src/http-status.ts: the tree of validation errors, its
-- leaves, and the HTTP status that answers them.
pub mod Walk
pub mod Status
mod Tests
use oaverify.Common.{
  ℕ, zero, suc, ◌+◌, Bool, true, false, ◌||◌, if◌then◌else◌, Option, none, some, List, [], ◌∷◌,
  ◌++◌, map, any, Text, codes, text_eq, join,
}

pub data PathSegment : Type 0 where
  key : Text → PathSegment
  position : ℕ → PathSegment

-- What an error says besides its code. `allowed` is the member of `params` that is read, when it is
-- an array.
pub record Details : Type 0 where
  pub path : List PathSegment
  pub message : Text
  pub allowed : Option (List Text)

-- `ValidationError`
mutual
  pub data ValidationError : Type 0 where
    error : (code : Text) (details : Details) (children : Children) → ValidationError

  pub data Children : Type 0 where
    no_child : Children
    child : ValidationError → Children → Children

abbrev pub code_of : ValidationError → Text
code_of (error code details children) = code

abbrev pub children_of : ValidationError → Children
children_of (error code details children) = children

abbrev pub Stack : Type 0
Stack = List (ValidationError × ℕ)

-- The inner loop of `walkErrors`, which pushes the last child first.
unfoldable pub push_children : Children → ℕ → Stack → Stack
push_children no_child depth stack = stack
push_children (child e children) depth stack = (e, depth) ∷ push_children children depth stack

-- The loop of `walkErrors`: the calls of `visit`, in their order.
unfoldable pub walk : ℕ → Stack → List (ValidationError × ℕ)
unfolding push_children
walk fuel [] = []
walk zero (entry ∷ stack) = []
walk (suc fuel) ((node, depth) ∷ stack) =
    (node, depth) ∷ walk fuel (push_children (children_of node) (depth + 1) stack)

-- The nodes of a tree. Every node is popped once, so that their number is enough fuel.
unfoldable mutual
  pub size : ValidationError → ℕ
  size (error code details children) = 1 + size_all children

  pub size_all : Children → ℕ
  size_all no_child = 0
  size_all (child e children) = size e + size_all children

unfoldable pub walk_errors : ValidationError → List (ValidationError × ℕ)
unfolding walk size
walk_errors e = walk (size e) ((e, 0) ∷ [])

abbrev pub is_leaf : Children → Bool
is_leaf no_child = true
is_leaf (child e children) = false

-- The nodes without children, as `visit` of `collectLeaves` collects them.
unfoldable pub leaves_among : List (ValidationError × ℕ) → List ValidationError
leaves_among [] = []
leaves_among ((e, depth) ∷ visited) =
    let more = leaves_among visited in if is_leaf (children_of e) then e ∷ more else more

unfoldable pub collect_leaves : ValidationError → List ValidationError
unfolding walk_errors leaves_among
collect_leaves e = leaves_among (walk_errors e)

-- The trailing segments that the constructors of errors append: none, one, or two.
pub data Extra : Type 0 where
  no_extra : Extra
  one_extra : PathSegment → Extra
  two_extra : PathSegment → PathSegment → Extra

abbrev pub final_path : List PathSegment → Extra → List PathSegment
final_path path no_extra = path
final_path path (one_extra s) = path ++ s ∷ []
final_path path (two_extra s t) = path ++ s ∷ t ∷ []

unfoldable pub create_leaf_error :
    Text → List PathSegment → Text → Option (List Text) → Extra → ValidationError
create_leaf_error code path message allowed extra =
    error code (record { path = final_path path extra; message = message; allowed = allowed })
      no_child

abbrev children_from : List ValidationError → Children
children_from [] = no_child
children_from (e ∷ children) = child e (children_from children)

unfoldable pub create_branch_error :
    Text
    → List PathSegment
    → Text
    → List ValidationError
    → Option (List Text)
    → Extra
    → ValidationError
create_branch_error code path message children allowed extra =
    error code (record { path = final_path path extra; message = message; allowed = allowed })
      (children_from children)

-- `HttpStatusMap`, and with options for fields its partial overrides.
pub record HttpStatusMap (N : Type 0) : Type 0 where
  pub route : N
  pub method : N
  pub content_type : N
  pub security : N
  pub status : N
  pub body_too_large : N
  pub default : N

abbrev pub default_http_status_map : HttpStatusMap ℕ
default_http_status_map = record {
  route = 404;
  method = 405;
  content_type = 415;
  security = 401;
  status = 500;
  body_too_large = 413;
  default = 400;
}

abbrev or_base : Option ℕ → ℕ → ℕ
or_base none n = n
or_base (some m) n = m

-- `{ ...DEFAULT_HTTP_STATUS_MAP, ...overrides }`
abbrev pub merged : Option (HttpStatusMap (Option ℕ)) → HttpStatusMap ℕ
merged none = default_http_status_map
merged (some o) = record {
  route = or_base o.route 404;
  method = or_base o.method 405;
  content_type = or_base o.content_type 415;
  security = or_base o.security 401;
  status = or_base o.status 500;
  body_too_large = or_base o.body_too_large 413;
  default = or_base o.default 400;
}

-- The two forms of a report: the tree, and the flat list of leaves.
pub data Report : Type 0 where
  tree : ValidationError → Report
  flat : List ValidationError → Report

unfoldable pub leaves_of : Report → List ValidationError
unfolding collect_leaves
leaves_of (tree e) = collect_leaves e
leaves_of (flat leaves) = leaves

-- `leaves.some((l) => l.code === code)`
unfoldable pub some_leaf : List ValidationError → Text → Bool
unfolding text_eq
some_leaf [] code = false
some_leaf (l ∷ leaves) code = text_eq (code_of l) code || some_leaf leaves code

abbrev status_of : HttpStatusMap ℕ → List ValidationError → ℕ
status_of m leaves =
    if some_leaf leaves (codes "route")
    then m.route
    else if some_leaf leaves (codes "method")
    then m.method
    else if some_leaf leaves (codes "security")
    then m.security
    else if some_leaf leaves (codes "content-type")
    then m.content_type
    else if some_leaf leaves (codes "status")
    then m.status
    else if some_leaf leaves (codes "body-too-large")
    then m.body_too_large
    else m.default

unfoldable pub http_status_for : Report → Option (HttpStatusMap (Option ℕ)) → ℕ
unfolding leaves_of some_leaf
http_status_for report overrides = status_of (merged overrides) (leaves_of report)

-- `leaves.find((l) => l.code === "method")`
unfoldable pub find_method : List ValidationError → Option ValidationError
unfolding text_eq
find_method [] = none
find_method (l ∷ leaves) =
    let more = find_method leaves in if text_eq (code_of l) (codes "method") then some l else more

abbrev pub allowed_of : ValidationError → Option (List Text)
allowed_of (error code details children) = details.allowed

unfoldable pub allow_header_for : Report → Option Text
unfolding leaves_of find_method join
allow_header_for report = elim (find_method (leaves_of report)) [
  | none ↦ none
  | some method ↦ elim (allowed_of method) [
    | none ↦ none
    | some allowed ↦ some (join (codes ", ") allowed)
  ]
]
