-- ===== src/Errors/Walk.antt =====
-- `walkErrors` and `collectLeaves` against the recursive walk of the tree.
use oaverify.Common.{
  ℕ, zero, suc, ◌+◌, ◌≤◌, ◌≡◌, refl, ap, ◌∙◌, sym, arith, List, [], ◌∷◌, ◌++◌, append_assoc,
  append-nil,
}
use oaverify.Errors.{
  ValidationError, error, Children, no_child, child, Stack, push_children, walk, size, size_all,
  walk_errors, leaves_among, collect_leaves,
}

-- A node, then the nodes below each child in turn.
mutual
  pub preorder : ValidationError → ℕ → List (ValidationError × ℕ)
  preorder (error code details children) depth =
      (error code details children, depth) ∷ preorder_all children (depth + 1)

  pub preorder_all : Children → ℕ → List (ValidationError × ℕ)
  preorder_all no_child depth = []
  preorder_all (child e children) depth = preorder e depth ++ preorder_all children depth

-- The nodes that a stack has still to visit.
preorder_stack : Stack → List (ValidationError × ℕ)
preorder_stack [] = []
preorder_stack ((e, depth) ∷ stack) = preorder e depth ++ preorder_stack stack

size_stack : Stack → ℕ
size_stack [] = 0
size_stack ((e, depth) ∷ stack) = size e + size_stack stack

size_stack-push_children :
    (children : Children) (depth : ℕ) (stack : Stack)
    → size_stack (push_children children depth stack) ≡ size_all children + size_stack stack
unfolding size_stack push_children size_all
size_stack-push_children no_child depth stack = omega arith
size_stack-push_children (child e children) depth stack =
    omega (arith, size_stack-push_children children depth stack)

preorder_stack-push_children :
    (children : Children) (depth : ℕ) (stack : Stack)
    → preorder_stack (push_children children depth stack)
      ≡ preorder_all children depth ++ preorder_stack stack
unfolding preorder_stack push_children preorder_all
preorder_stack-push_children no_child depth stack = refl
preorder_stack-push_children (child e children) depth stack =
    ap (λ xs. preorder e depth ++ xs) (preorder_stack-push_children children depth stack)
    ∙ sym (append_assoc (preorder e depth) (preorder_all children depth) (preorder_stack stack))

walk-preorder_stack :
    (fuel : ℕ) (stack : Stack) → size_stack stack ≤ fuel → walk fuel stack ≡ preorder_stack stack
unfolding walk preorder_stack size_stack size preorder
walk-preorder_stack zero [] h = refl
walk-preorder_stack (suc fuel) [] h = refl
walk-preorder_stack zero ((error code details children, depth) ∷ stack) h = absurd (omega arith)
walk-preorder_stack (suc fuel) ((error code details children, depth) ∷ stack) h =
    let pushed = size_stack-push_children children (depth + 1) stack in
    ap (◌∷◌ (error code details children, depth)) (
      walk-preorder_stack fuel (push_children children (depth + 1) stack) (omega (arith, pushed))
      ∙ preorder_stack-push_children children (depth + 1) stack)

-- The loop on an explicit stack visits every node of the tree once, in preorder and with its depth,
-- and the number of nodes is enough fuel for it.
pub walk_errors-preorder : (e : ValidationError) → walk_errors e ≡ preorder e 0
unfolding walk_errors size_stack preorder_stack
walk_errors-preorder e =
    walk-preorder_stack (size e) ((e, 0) ∷ []) (omega arith) ∙ append-nil (preorder e 0)

-- The leaves of a tree from the left.
mutual
  pub leaves : ValidationError → List ValidationError
  leaves (error code details no_child) = error code details no_child ∷ []
  leaves (error code details (child e children)) = leaves e ++ leaves_all children

  pub leaves_all : Children → List ValidationError
  leaves_all no_child = []
  leaves_all (child e children) = leaves e ++ leaves_all children

leaves_among-append :
    (xs ys : List (ValidationError × ℕ))
    → leaves_among (xs ++ ys) ≡ leaves_among xs ++ leaves_among ys
unfolding leaves_among
leaves_among-append [] ys = refl
leaves_among-append ((error code details no_child, d) ∷ xs) ys =
    ap (◌∷◌ (error code details no_child)) (leaves_among-append xs ys)
leaves_among-append ((error code details (child e children), d) ∷ xs) ys = leaves_among-append xs ys

mutual
  unfolding leaves_among leaves preorder

  leaves_among-preorder :
      (e : ValidationError) (depth : ℕ) → leaves_among (preorder e depth) ≡ leaves e
  leaves_among-preorder (error code details no_child) depth = refl
  leaves_among-preorder (error code details (child e children)) depth =
      leaves_among-append (preorder e (depth + 1)) (preorder_all children (depth + 1))
      ∙ rw (leaves_among-preorder e (depth + 1), leaves_among-preorder_all children (depth + 1))

  leaves_among-preorder_all :
      (children : Children) (depth : ℕ)
      → leaves_among (preorder_all children depth) ≡ leaves_all children
  leaves_among-preorder_all no_child depth = refl
  leaves_among-preorder_all (child e children) depth =
      leaves_among-append (preorder e depth) (preorder_all children depth)
      ∙ rw (leaves_among-preorder e depth, leaves_among-preorder_all children depth)

-- The leaves that are collected are those of the tree, each once, from the left.
pub collect_leaves_lem : (e : ValidationError) → collect_leaves e ≡ leaves e
unfolding collect_leaves
collect_leaves_lem e = rw (walk_errors-preorder e) (leaves_among-preorder e 0)
