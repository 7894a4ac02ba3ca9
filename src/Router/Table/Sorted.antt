-- ===== src/Router/Table/Sorted.antt =====
-- The sorted table holds the routes that were collected, the more specific ones first.
use Prim.Native.Nat.{Ordering}
use oaverify.Common.{true, List, [], ◌∷◌, ◌≡◌, All, AllPairs, Bool-cases, inl, inr}
use oaverify.Router.Table.Order.{is_le, insert_by, sort_by}
use oaverify.Router.Table.Comparators.{IsOrder, le_total, le_trans}

pub All-map {ℓ κ μ} :
    {A : Type ℓ} {P : A → Type κ} {Q : A → Type μ} (xs : List A)
    → ((x : A) → P x → Q x)
    → All P xs
    → All Q xs
All-map [] f h = tt
All-map (x ∷ xs) f (p, h) = (f x p, All-map xs f h)

module _ {A : Type 0} (cmp : A → A → Ordering) where
  insert_by-All :
      (P : A → Type 0) (x : A) (xs : List A) → P x → All P xs → All P (insert_by cmp x xs)
  unfolding insert_by
  insert_by-All P x [] p h = (p, tt)
  insert_by-All P x (y ∷ ys) p (q, h) = elim (Bool-cases (is_le (cmp x y))) [
    | inl e ↦ rw e (p, (q, h))
    | inr e ↦ rw e (q, insert_by-All P x ys p h)
  ]

  pub sort_by-All : (P : A → Type 0) (xs : List A) → All P xs → All P (sort_by cmp xs)
  unfolding sort_by
  sort_by-All P [] h = tt
  sort_by-All P (x ∷ xs) (p, h) = insert_by-All P x (sort_by cmp xs) p (sort_by-All P xs h)

  -- A relation that holds both ways between the elements is kept by the sort.
  insert_by-AllPairs :
      (R : A → A → Type 0) (x : A) (xs : List A)
      → ((a b : A) → R a b → R b a)
      → All (R x) xs
      → AllPairs R xs
      → AllPairs R (insert_by cmp x xs)
  unfolding insert_by
  insert_by-AllPairs R x [] sym_R h k = (tt, tt)
  insert_by-AllPairs R x (y ∷ ys) sym_R (p, h) (q, k) = elim (Bool-cases (is_le (cmp x y))) [
    | inl e ↦ rw e ((p, h), (q, k))
    | inr e ↦ rw e (insert_by-All (R y) x ys (sym_R x y p) q, insert_by-AllPairs R x ys sym_R h k)
  ]

  pub sort_by-AllPairs :
      (R : A → A → Type 0) (xs : List A)
      → ((a b : A) → R a b → R b a)
      → AllPairs R xs
      → AllPairs R (sort_by cmp xs)
  unfolding sort_by
  sort_by-AllPairs R [] sym_R h = tt
  sort_by-AllPairs R (x ∷ xs) sym_R (p, h) =
      insert_by-AllPairs R x (sort_by cmp xs) sym_R (sort_by-All (R x) xs p)
        (sort_by-AllPairs R xs sym_R h)

module _ {A : Type 0} {cmp : A → A → Ordering} (o : IsOrder cmp) where
  abbrev pub IsLe : A → A → Type 0
  IsLe a b = is_le (cmp a b) ≡ true

  insert_by-sorted : (x : A) (xs : List A) → AllPairs IsLe xs → AllPairs IsLe (insert_by cmp x xs)
  unfolding insert_by
  insert_by-sorted x [] h = (tt, tt)
  insert_by-sorted x (y ∷ ys) (q, h) = elim (Bool-cases (is_le (cmp x y))) [
    | inl e ↦ rw e ((e, All-map ys (λ z k. le_trans o x y z e k) q), (q, h))
    | inr e ↦ rw e (insert_by-All cmp (IsLe y) x ys (le_total o x y e) q, insert_by-sorted x ys h)
  ]

  pub sort_by-sorted : (xs : List A) → AllPairs IsLe (sort_by cmp xs)
  unfolding sort_by
  sort_by-sorted [] = tt
  sort_by-sorted (x ∷ xs) = insert_by-sorted x (sort_by cmp xs) (sort_by-sorted xs)
