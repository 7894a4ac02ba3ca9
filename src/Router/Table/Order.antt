-- ===== src/Router/Table/Order.antt =====
-- The order of the routes: the comparator and the stable sort of `buildRouter`.
use Prim.Native.Nat.{compare, Ordering}
use oaverify.Common.{ℕ, Bool, true, false, List, [], ◌∷◌, length, if◌then◌else◌, Text}
use oaverify.Router.Segments.{Segment, literal, template, compound}
use oaverify.Router.Table.{Route}

abbrev pub kind_rank : Segment → ℕ
kind_rank (literal value) = 0
kind_rank (compound names literals raw) = 1
kind_rank (template name) = 2

-- The first of two comparisons decides, unless it finds no difference.
abbrev pub then_by : Ordering → Ordering → Ordering
then_by Ordering.lt next = Ordering.lt
then_by Ordering.gt next = Ordering.gt
then_by Ordering.eq next = next

-- The kinds of the segments, over the shorter length.
unfoldable pub compare_kinds : List Segment → List Segment → Ordering
compare_kinds [] bs = Ordering.eq
compare_kinds (a ∷ as') [] = Ordering.eq
compare_kinds (a ∷ as') (b ∷ bs) =
    then_by (compare (kind_rank a) (kind_rank b)) (compare_kinds as' bs)

-- `<` and `>` on strings: by UTF-16 code units.
unfoldable pub compare_text : Text → Text → Ordering
compare_text [] [] = Ordering.eq
compare_text [] (b ∷ bs) = Ordering.lt
compare_text (a ∷ as') [] = Ordering.gt
compare_text (a ∷ as') (b ∷ bs) = then_by (compare a b) (compare_text as' bs)

-- `<= 0` of a comparator.
abbrev pub is_le : Ordering → Bool
is_le Ordering.gt = false
is_le _ = true

-- `Array.prototype.sort`: a stable sort by a comparator.
module _ {A : Type 0} (cmp : A → A → Ordering) where
  unfoldable pub insert_by : A → List A → List A
  insert_by x [] = x ∷ []
  insert_by x (y ∷ ys) = if is_le (cmp x y) then x ∷ y ∷ ys else y ∷ insert_by x ys

  unfoldable pub sort_by : List A → List A
  unfolding insert_by
  sort_by [] = []
  sort_by (x ∷ xs) = insert_by x (sort_by xs)

module _ {Op : Type 0} where
  unfoldable pub compare_routes : Route Op → Route Op → Ordering
  unfolding compare_kinds compare_text
  compare_routes a b = then_by (compare_kinds a.segments b.segments) (
      then_by (compare (length b.segments) (length a.segments))
        (compare_text a.path_pattern b.path_pattern))
