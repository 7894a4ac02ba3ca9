-- ===== src/Router/Table/Apart.antt =====
-- Routes of one table never compete for a method with the same structure.
use oaverify.Common.{
  true, List, [], ◌∷◌, ◌≡◌, ◌≢◌, inl, inr, sym, subst, arith, All, AllPairs, Text, none,
  Option-cases, Bool-cases, text_eq, text_eq_iff, text_eq_refl,
}
use oaverify.Router.Table.{PathItem, Route, mem, methods_declared_on, is_path_template}
use oaverify.Router.Table.Methods.{Declares, declares, Declares-declares}
use oaverify.Router.Table.Order.{compare_routes}
use oaverify.Router.Table.Sorted.{sort_by-AllPairs, All-map}
use oaverify.Router.Table.Build.{
  built, Index, index_key, find_key, claim, collect, create_router, >>=-eq-built, signature,
  route_of,
}

-- The key is in the index.
abbrev Taken : Index → Text → Type 0
Taken index key = find_key key index ≢ none

Taken-cons : (index : Index) (j p key : Text) → Taken index key → Taken ((j, p) ∷ index) key
unfolding find_key
Taken-cons index j p key t = ground arith

claim_keeps :
    (pattern sign : Text) (ms : List Text) (index : Index) {index' : Index} (key : Text)
    → claim pattern sign ms index ≡ built index'
    → Taken index key
    → Taken index' key
unfolding claim
claim_keeps pattern sign [] index {index'} key h t = subst (λ i. Taken i key) (cc h) t
claim_keeps pattern sign (m ∷ ms) index key h t =
    elim (Option-cases (find_key (index_key m sign) index)) [
      | inl e ↦
          claim_keeps pattern sign ms ((index_key m sign, pattern) ∷ index) key (rw (e, claim) at h)
            (Taken-cons index (index_key m sign) pattern key t)
      | inr (existing, e) ↦ cc (rw (e, claim) at h)
    ]

-- What is not taken in the end was not taken before.
claim_free :
    (pattern sign : Text) (ms : List Text) (index : Index) {index' : Index} (key : Text)
    → claim pattern sign ms index ≡ built index'
    → find_key key index' ≡ none
    → find_key key index ≡ none
claim_free pattern sign ms index key h f = elim (Option-cases (find_key key index)) [
  | inl e ↦ e
  | inr (p, e) ↦ absurd (claim_keeps pattern sign ms index key h (λ n. cc) f)
]

Taken-self : (index : Index) (key p : Text) → Taken ((key, p) ∷ index) key
unfolding find_key
Taken-self index key p = ground (arith, text_eq_refl key)

not_taken-cons :
    (index : Index) (j p key : Text)
    → find_key key ((j, p) ∷ index) ≡ none
    → find_key key index ≡ none
unfolding find_key
not_taken-cons index j p key h = ground arith

-- A claim that succeeds takes each of its keys, and none of them was taken.
claim_takes :
    (pattern sign : Text) (ms : List Text) (index : Index) {index' : Index} (m : Text)
    → claim pattern sign ms index ≡ built index'
    → mem m ms ≡ true
    → (find_key (index_key m sign) index ≡ none) × Taken index' (index_key m sign)
unfolding claim
claim_takes pattern sign [] index m h t = cc
claim_takes pattern sign (x ∷ ms) index {index'} m h t =
    let key = index_key x sign in
    elim (Option-cases (find_key key index)) [
      | inr (existing, e) ↦ cc (rw (e, claim) at h)
      | inl e ↦
          let h' = rw (e, claim) at h in
          let longer = (key, pattern) ∷ index in
          elim (Bool-cases (text_eq m x)) [
            | inl same ↦
                subst
                  (λ k.
                    (find_key (index_key k sign) index ≡ none) × Taken index' (index_key k sign))
                  (sym ((text_eq_iff m x).0 same))
                  (e, claim_keeps pattern sign ms longer key h' (Taken-self index key pattern))
            | inr other ↦
                let (free, taken) = claim_takes pattern sign ms longer m h' (rw other at t) in
                (not_taken-cons index key pattern (index_key m sign) free, taken)
          ]
    ]

module _ {Op : Type 0} where
  -- Two routes never share both a method and a structure.
  abbrev pub Apart : Route Op → Route Op → Type 0
  Apart r s = (m : Text) → Declares r m → Declares s m → signature r ≢ signature s

  -- What the code counts as declared is never shared.
  abbrev ApartInCode : Route Op → Route Op → Type 0
  ApartInCode r s =
      (m : Text) → declares r m ≡ true → declares s m ≡ true → signature r ≢ signature s

  AllPairs-Apart : (rs : List (Route Op)) → AllPairs ApartInCode rs → AllPairs Apart rs
  AllPairs-Apart [] h = tt
  AllPairs-Apart (r ∷ rs) (h, hs) = (
    All-map rs (λ s f m a b. f m (Declares-declares r m a) (Declares-declares s m b)) h,
    AllPairs-Apart rs hs,
  )

  abbrev Free : Index → Route Op → Type 0
  Free index r =
      (m : Text) → declares r m ≡ true → find_key (index_key m (signature r)) index ≡ none

  All-Free :
      (pattern sign : Text) (ms : List Text) (index : Index) {index' : Index} (rs : List (Route Op))
      → claim pattern sign ms index ≡ built index'
      → All (Free index') rs
      → All (Free index) rs
  All-Free pattern sign ms index [] h f = tt
  All-Free pattern sign ms index (r ∷ rs) h (f, fs) = (
    λ m d. claim_free pattern sign ms index (index_key m (signature r)) h (f m d),
    All-Free pattern sign ms index rs h fs,
  )

  All-Apart :
      (r : Route Op) (index : Index) {index' : Index} (rs : List (Route Op))
      → claim r.path_pattern (signature r) (methods_declared_on r.path_item) index ≡ built index'
      → All (Free index') rs
      → All (ApartInCode r) rs
  All-Apart r index [] h f = tt
  All-Apart r index {index'} (s ∷ rs) h (f, fs) = (
    λ m dr ds same.
        let taken =
          (claim_takes r.path_pattern (signature r) (methods_declared_on r.path_item) index m h
            dr).1 in
        taken (rw same (f m ds)),
    All-Apart r index rs h fs,
  )

  collect-Apart :
      (entries : List (Text × PathItem Op)) (index : Index) {routes : List (Route Op)}
      → collect entries index ≡ built routes
      → All (Free index) routes × AllPairs ApartInCode routes
  unfolding collect
  collect-Apart [] index {routes} h =
      let e : [] ≡ routes = cc in
      subst (λ rs. All (Free index) rs × AllPairs ApartInCode rs) e (tt, tt)
  collect-Apart ((pattern, i) ∷ entries) index {routes} h =
      elim (Bool-cases (is_path_template pattern)) [
        | inr e ↦ collect-Apart entries index (rw (e, collect) at h)
        | inl e ↦
            let r = route_of pattern i in
            let (index', claimed, more) =
              >>=-eq-built (claim pattern (signature r) (methods_declared_on i) index) _
                (rw (e, collect) at h) in
            let (rs, later, done) = >>=-eq-built (collect entries index') _ more in
            let (free, apart) = collect-Apart entries index' later in
            let e' : r ∷ rs ≡ routes = cc done in
            subst (λ rs. All (Free index) rs × AllPairs ApartInCode rs) e'
              (
                (
                  λ m d.
                      (claim_takes pattern (signature r) (methods_declared_on i) index m claimed
                        d).0,
                  All-Free pattern (signature r) (methods_declared_on i) index rs claimed free,
                ),
                (All-Apart r index rs claimed free, apart),
              )
      ]

  -- No two routes of a table that `createRouter` builds have the same signature and answer the same
  -- method: one of HTTP for which both Path Items hold an operation, or HEAD, for which an operation
  -- for GET will do.
  pub create_router-Apart :
      (entries : List (Text × PathItem Op)) (table : List (Route Op))
      → create_router entries ≡ built table
      → AllPairs Apart table
  unfolding create_router
  create_router-Apart entries table h =
      let (routes, collected, sorted) = >>=-eq-built (collect entries []) _ h in
      AllPairs-Apart table (
        subst (AllPairs ApartInCode) (cc sorted) (
          sort_by-AllPairs compare_routes ApartInCode routes (λ a b f m p q e. f m q p (sym e))
            (collect-Apart entries [] collected).1))
