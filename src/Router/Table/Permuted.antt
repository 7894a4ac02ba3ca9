-- ===== src/Router/Table/Permuted.antt =====
-- The table does not depend on the order of the paths in the document.
use Prim.Native.Nat.{Ordering}
use mathlib.Core.Path.{ap₂, subst₂}
use mathlib.Core.List.Permᴰ
use mathlib.Core.List.{Permᴰ}
use oaverify.Common.{
  Bool, true, false, List, [], ◌∷◌, ◌≡◌, ◌≢◌, inl, inr, refl, ◌∙◌, subst, arith, Text, Bool-cases,
  All, AllPairs, if◌then◌else◌,
}
use oaverify.Router.Table.{PathItem, Route, methods_declared_on, is_path_template}
use oaverify.Router.Table.Order.{insert_by, sort_by, compare_routes}
use oaverify.Router.Table.Comparators.{IsOrder, le_trans, compare_routes-IsOrder, compare_routes-eq}
use oaverify.Router.Table.Build.{
  built, Index, claim, collect, create_router, signature, route_of, >>=-eq-built,
}

module _ {A : Type 0} {cmp : A → A → Ordering} (o : IsOrder cmp) where
  -- Insertions of values that the order tells apart commute.
  insert_by_comm :
      (x y : A) (xs : List A)
      → cmp x y ≢ Ordering.eq
      → insert_by cmp x (insert_by cmp y xs) ≡ insert_by cmp y (insert_by cmp x xs)
  unfolding insert_by
  insert_by_comm x y [] ne = ground (arith, o.flips x y)
  insert_by_comm x y (z ∷ zs) ne =
      ground (arith, o.flips x y, le_trans o x y z, le_trans o y x z, insert_by_comm x y zs ne)

-- Permutations keep what holds of all elements, and of all pairs where it is symmetric.
Permᴰ-All : {A : Type 0} (P : A → Type 0) {xs ys : List A} → Permᴰ xs ys → All P xs → All P ys
Permᴰ-All P Permᴰ.nil h = tt
Permᴰ-All P (Permᴰ.cons e p) (a, h) = (subst P e a, Permᴰ-All P p h)
Permᴰ-All P (Permᴰ.swap e f) (a, (b, h)) = (subst P f b, (subst P e a, h))
Permᴰ-All P (Permᴰ.trans p q) h = Permᴰ-All P q (Permᴰ-All P p h)

module _ {A : Type 0} (R : A → A → Type 0) (R_sym : (a b : A) → R a b → R b a) where
  Permᴰ-AllPairs : {xs ys : List A} → Permᴰ xs ys → AllPairs R xs → AllPairs R ys
  Permᴰ-AllPairs Permᴰ.nil h = tt
  Permᴰ-AllPairs (Permᴰ.cons {l₂ = ys} e p) (a, h) =
      (subst (λ x. All (R x) ys) e (Permᴰ-All (R _) p a), Permᴰ-AllPairs p h)
  Permᴰ-AllPairs (Permᴰ.swap {l = zs} e f) ((ab, a), (b, h)) = (
    (subst₂ R f e (R_sym _ _ ab), subst (λ x. All (R x) zs) f b),
    (subst (λ x. All (R x) zs) e a, h),
  )
  Permᴰ-AllPairs (Permᴰ.trans p q) h = Permᴰ-AllPairs q (Permᴰ-AllPairs p h)

module _ {A : Type 0} {cmp : A → A → Ordering} (o : IsOrder cmp) where
  abbrev Differ : A → A → Type 0
  Differ a b = cmp a b ≢ Ordering.eq

  Differ-sym : (a b : A) → Differ a b → Differ b a
  Differ-sym a b h = ground (arith, o.flips a b)

  -- Lists with the same elements sort alike, where the order tells the elements apart.
  sort_by-Permᴰ :
      {xs ys : List A} → Permᴰ xs ys → AllPairs Differ xs → sort_by cmp xs ≡ sort_by cmp ys
  unfolding sort_by
  sort_by-Permᴰ Permᴰ.nil h = refl
  sort_by-Permᴰ (Permᴰ.cons e p) (a, h) = ap₂ (insert_by cmp) e (sort_by-Permᴰ p h)
  sort_by-Permᴰ (Permᴰ.swap {a = a} {b = b} {l = zs} e f) ((ab, _), _) =
      insert_by_comm o a b (sort_by cmp zs) ab
      ∙ ap₂ (λ x y. insert_by cmp x (insert_by cmp y (sort_by cmp zs))) f e
  sort_by-Permᴰ (Permᴰ.trans p q) h =
      sort_by-Permᴰ p h ∙ sort_by-Permᴰ q (Permᴰ-AllPairs Differ Differ-sym p h)

module _ {Op : Type 0} where
  -- The routes of a document that has no conflict, in document order.
  abbrev cons_if : Bool → Route Op → List (Route Op) → List (Route Op)
  cons_if b r rs = if b then r ∷ rs else rs

  abbrev routes_of : List (Text × PathItem Op) → List (Route Op)
  routes_of [] = []
  routes_of ((pattern, i) ∷ entries) =
      cons_if (is_path_template pattern) (route_of pattern i) (routes_of entries)

  collect-routes_of :
      (entries : List (Text × PathItem Op)) (index : Index) {routes : List (Route Op)}
      → collect entries index ≡ built routes
      → routes ≡ routes_of entries
  unfolding collect
  collect-routes_of [] index h = cc
  collect-routes_of ((pattern, i) ∷ entries) index h =
      elim (Bool-cases (is_path_template pattern)) [
        | inr e ↦ rw e (collect-routes_of entries index (rw (e, collect) at h))
        | inl e ↦
            let (index', claimed, more) =
              >>=-eq-built
                (claim pattern (signature (route_of pattern i)) (methods_declared_on i) index) _
                (rw (e, collect) at h) in
            let (rs, later, done) = >>=-eq-built (collect entries index') _ more in
            rw e (ground (arith, collect-routes_of entries index' later))
      ]

  -- The keys of an object are all different.
  abbrev pub OtherKey : Text × PathItem Op → Text × PathItem Op → Type 0
  OtherKey a b = a.0 ≢ b.0

  cons_if-Permᴰ :
      (b : Bool) {r s : Route Op} {rs ss : List (Route Op)}
      → r ≡ s
      → Permᴰ rs ss
      → Permᴰ (cons_if b r rs) (cons_if b s ss)
  cons_if-Permᴰ true e p = Permᴰ.cons e p
  cons_if-Permᴰ false e p = p

  cons_if-swap :
      (b c : Bool) (r s : Route Op) (rs : List (Route Op))
      → Permᴰ (cons_if b r (cons_if c s rs)) (cons_if c s (cons_if b r rs))
  cons_if-swap true true r s rs = Permᴰ.swap refl refl
  cons_if-swap true false r s rs = Permᴰ.refl (r ∷ rs)
  cons_if-swap false true r s rs = Permᴰ.refl (s ∷ rs)
  cons_if-swap false false r s rs = Permᴰ.refl rs

  abbrev entry_in : Text × PathItem Op → List (Route Op) → List (Route Op)
  entry_in (pattern, i) rs = cons_if (is_path_template pattern) (route_of pattern i) rs

  routes_of-Permᴰ :
      {entries entries' : List (Text × PathItem Op)}
      → Permᴰ entries entries'
      → Permᴰ (routes_of entries) (routes_of entries')
  routes_of-Permᴰ Permᴰ.nil = Permᴰ.nil
  routes_of-Permᴰ (Permᴰ.cons {a = a} {l₁ = es} {l₂ = es'} e p) =
      subst (λ x. Permᴰ (entry_in a (routes_of es)) (entry_in x (routes_of es'))) e
        (cons_if-Permᴰ (is_path_template a.0) refl (routes_of-Permᴰ p))
  routes_of-Permᴰ (Permᴰ.swap {a = a} {b = b} {l = es} e f) =
      subst₂
        (λ x y.
          Permᴰ (entry_in a (entry_in b (routes_of es))) (entry_in x (entry_in y (routes_of es))))
        f e
        (cons_if-swap (is_path_template a.0) (is_path_template b.0) (route_of a.0 a.1)
          (route_of b.0 b.1) (routes_of es))
  routes_of-Permᴰ (Permᴰ.trans p q) = Permᴰ.trans (routes_of-Permᴰ p) (routes_of-Permᴰ q)

  abbrev RoutesDiffer : Route Op → Route Op → Type 0
  RoutesDiffer = Differ (compare_routes-IsOrder Op)

  RoutesDiffer-routes_of :
      (pattern : Text) (i : PathItem Op) (entries : List (Text × PathItem Op))
      → All (OtherKey (pattern, i)) entries
      → All (RoutesDiffer (route_of pattern i)) (routes_of entries)
  RoutesDiffer-routes_of pattern i [] h = tt
  RoutesDiffer-routes_of pattern i ((p, j) ∷ entries) (ne, h) =
      go (is_path_template p) (RoutesDiffer-routes_of pattern i entries h)
    where
      go :
          (b : Bool)
          → All (RoutesDiffer (route_of pattern i)) (routes_of entries)
          → All (RoutesDiffer (route_of pattern i)) (cons_if b (route_of p j) (routes_of entries))
      go true k = (λ e. ne (compare_routes-eq (route_of pattern i) (route_of p j) e), k)
      go false k = k

  routes_of-RoutesDiffer :
      (entries : List (Text × PathItem Op))
      → AllPairs OtherKey entries
      → AllPairs RoutesDiffer (routes_of entries)
  routes_of-RoutesDiffer [] h = tt
  routes_of-RoutesDiffer ((pattern, i) ∷ entries) (ne, h) =
      go (is_path_template pattern) (RoutesDiffer-routes_of pattern i entries ne)
        (routes_of-RoutesDiffer entries h)
    where
      go :
          (b : Bool)
          → All (RoutesDiffer (route_of pattern i)) (routes_of entries)
          → AllPairs RoutesDiffer (routes_of entries)
          → AllPairs RoutesDiffer (cons_if b (route_of pattern i) (routes_of entries))
      go true k l = (k, l)
      go false k l = l

  -- Two documents with the same path entries in another order, no two under one key, have the
  -- same table, where `createRouter` succeeds for both.
  pub create_router-Permᴰ :
      (entries entries' : List (Text × PathItem Op)) (table table' : List (Route Op))
      → Permᴰ entries entries'
      → AllPairs OtherKey entries
      → create_router entries ≡ built table
      → create_router entries' ≡ built table'
      → table ≡ table'
  unfolding create_router
  create_router-Permᴰ entries entries' table table' p ne h h' =
      let (routes, collected, sorted) = >>=-eq-built (collect entries []) _ h in
      let (routes', collected', sorted') = >>=-eq-built (collect entries' []) _ h' in
      let same : sort_by compare_routes routes ≡ sort_by compare_routes routes' =
        rw (collect-routes_of entries [] collected, collect-routes_of entries' [] collected')
          (sort_by-Permᴰ (compare_routes-IsOrder Op) (routes_of-Permᴰ p)
            (routes_of-RoutesDiffer entries ne)) in
      cc (sorted, sorted', same)
