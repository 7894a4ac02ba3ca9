-- ===== src/Router/Table/Methods.antt =====
-- The methods that a route declares, against the names of the operations that it holds.
use oaverify.Common.{
  ◌++◌, ◌≡◌, ◌⊎◌, inl, inr, refl, sym, subst, Bool, true, List, [], ◌∷◌, Text, codes, is_some,
  Bool-cases, text_eq, text_eq_iff, text_eq_refl,
}
use oaverify.Router.Table.{
  PathItem, Route, mem, add_method, declared_among, methods_declared_on, operation_on, http_methods,
}

get_method : mem (codes "get") http_methods ≡ true
unfolding http_methods text_eq
get_method = refl

mem-append : (m : Text) (ms ns : List Text) → mem m ms ≡ true → mem m (ms ++ ns) ≡ true
mem-append m [] ns h = cc
mem-append m (x ∷ ms) ns h = elim (Bool-cases (text_eq m x)) [
  | inl e ↦ rw e
  | inr e ↦ rw e (mem-append m ms ns (rw e at h))
]

mem_last : (m : Text) (ms : List Text) → mem m (ms ++ m ∷ []) ≡ true
mem_last m [] = rw (text_eq_refl m)
mem_last m (x ∷ ms) = elim (Bool-cases (text_eq m x)) [
  | inl e ↦ rw e
  | inr e ↦ rw e (mem_last m ms)
]

add_method-mem : (m n : Text) (ms : List Text) → mem m ms ≡ true → mem m (add_method n ms) ≡ true
add_method-mem m n ms h = elim (Bool-cases (mem n ms)) [
  | inl e ↦ rw e h
  | inr e ↦ rw e (mem-append m ms (n ∷ []) h)
]

mem-add_method : (m : Text) (ms : List Text) → mem m (add_method m ms) ≡ true
mem-add_method m ms = elim (Bool-cases (mem m ms)) [ inl e ↦ rw e e | inr e ↦ rw e (mem_last m ms) ]

module _ {Op : Type 0} where
  -- The Path Item of the route holds an operation under this name.
  abbrev pub HasOperation : Route Op → Text → Type 0
  HasOperation r m = is_some (operation_on r.path_item m) ≡ true

  -- The route answers the method: one of HTTP for which it holds an operation, or HEAD where it holds
  -- one for GET.
  abbrev pub Declares : Route Op → Text → Type 0
  Declares r m =
      ((mem m http_methods ≡ true) × HasOperation r m)
      ⊎ ((m ≡ codes "head") × HasOperation r (codes "get"))

  abbrev pub declares : Route Op → Text → Bool
  declares r m = mem m (methods_declared_on r.path_item)

  declared_among-mem :
      (i : PathItem Op) (ms : List Text) (m : Text)
      → mem m ms ≡ true
      → is_some (operation_on i m) ≡ true
      → mem m (declared_among i ms) ≡ true
  declared_among-mem i [] m h k = cc
  declared_among-mem i (x ∷ ms) m h k = elim (Bool-cases (text_eq m x)) [
    | inl same ↦
        let here : m ≡ x = (text_eq_iff m x).0 same in
        let k' : is_some (operation_on i x) ≡ true =
          subst (λ n. is_some (operation_on i n) ≡ true) here k in
        rw k' (rw same)
    | inr other ↦
        let later = declared_among-mem i ms m (rw other at h) k in
        elim (Bool-cases (is_some (operation_on i x))) [
          | inl e ↦ rw (e, other) later
          | inr e ↦ rw e later
        ]
  ]

  pub Declares-declares : (r : Route Op) (m : Text) → Declares r m → declares r m ≡ true
  unfolding methods_declared_on
  Declares-declares r m (inl (known, has)) =
      let i = r.path_item in
      let there = declared_among-mem i http_methods m known has in
      elim (Bool-cases (mem (codes "get") (declared_among i http_methods))) [
        | inl e ↦ rw e (add_method-mem m (codes "head") (declared_among i http_methods) there)
        | inr e ↦ rw e there
      ]
  Declares-declares r m (inr (head, has)) =
      let i = r.path_item in
      let get_known : mem (codes "get") http_methods ≡ true = get_method in
      let there = declared_among-mem i http_methods (codes "get") get_known has in
      subst (λ n. declares r n ≡ true) (sym head)
        (rw there (mem-add_method (codes "head") (declared_among i http_methods)))
