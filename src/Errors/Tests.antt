-- ===== src/Errors/Tests.antt =====
-- A failed request whose leaves lie under branches.
use oaverify.Common.{ℕ, ◌≡◌, refl, Option, none, some, [], ◌∷◌, Text, codes, text_eq, join}
use oaverify.Errors.{
  ValidationError, error, no_child, child, Details, tree, flat, HttpStatusMap, merged,
  push_children, walk, size, size_all, walk_errors, leaves_among, collect_leaves, leaves_of,
  some_leaf, http_status_for, find_method, allow_header_for,
}
use oaverify.Errors.{create_leaf_error, create_branch_error, key, position, one_extra, no_extra}
use oaverify.Errors.Walk.{preorder, walk_errors-preorder, leaves, collect_leaves_lem}
use oaverify.Errors.Status.{gates, IsAnswer, http_status_for-IsAnswer}

-- What the runs unfold.
reports : Unit {0}
unfolding push_children walk size size_all walk_errors leaves_among collect_leaves leaves_of
    some_leaf http_status_for find_method allow_header_for text_eq join
reports = tt

abbrev plain : Details
plain = record { path = []; message = []; allowed = none }

abbrev leaf : Text → ValidationError
leaf code = error code plain no_child

abbrev failed : ValidationError
failed = error (codes "request") plain (
    child
      (error (codes "body") plain
        (child (leaf (codes "type")) (child (leaf (codes "content-type")) no_child)))
      (child (leaf (codes "security")) no_child))

abbrev refused_method : ValidationError
refused_method =
    error (codes "method")
      (record { path = []; message = codes "no"; allowed = some (codes "GET" ∷ codes "HEAD" ∷ []) })
      no_child

-- An API that answers 422 to what no gate catches.
abbrev lenient : HttpStatusMap (Option ℕ)
lenient = record {
  route = none;
  method = none;
  content_type = none;
  security = none;
  status = none;
  body_too_large = none;
  default = some 422;
}

reports_run :
    (collect_leaves failed
      ≡ leaf (codes "type") ∷ leaf (codes "content-type") ∷ leaf (codes "security") ∷ [])
    × (http_status_for (tree failed) none ≡ 401)
    × (http_status_for (flat (leaf (codes "type") ∷ [])) (some lenient) ≡ 422)
    × (http_status_for (tree refused_method) (some lenient) ≡ 405)
    × (allow_header_for (tree refused_method) ≡ some (codes "GET, HEAD"))
    × (allow_header_for (tree failed) ≡ none)
unfolding reports
reports_run = (refl, refl, refl, refl, refl, refl)

walk_errors-preorder_example : walk_errors failed ≡ preorder failed 0
walk_errors-preorder_example = walk_errors-preorder failed

collect_leaves_lem_example : collect_leaves failed ≡ leaves failed
collect_leaves_lem_example = collect_leaves_lem failed

http_status_for-IsAnswer_example :
    IsAnswer
      (gates (merged none))
      (merged none).default
      (leaves_of (tree failed))
      (http_status_for (tree failed) none)
http_status_for-IsAnswer_example = http_status_for-IsAnswer (tree failed) none

abbrev built : ValidationError
built =
    create_branch_error (codes "body") (key (codes "body") ∷ []) []
      (create_leaf_error (codes "type") (key (codes "body") ∷ []) [] none (one_extra (position 3))
        ∷ [])
      none no_extra

built_run :
    collect_leaves built
    ≡ error
        (codes "type")
        (record { path = key (codes "body") ∷ position 3 ∷ []; message = []; allowed = none })
        no_child
      ∷ []
unfolding reports create_leaf_error create_branch_error
built_run = refl
