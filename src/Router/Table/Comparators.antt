-- ===== src/Router/Table/Comparators.antt =====
-- The comparator of the routes is a total order.
use Prim.Native.Nat.{compare, Ordering}
use oaverify.Common.{
  true, false, List, [], ◌∷◌, ◌≡◌, ◌≢◌, refl, ap, length, arith, Text, ◌⊎◌, inl, inr,
}
use mathlib.Core.Path.{fun_ext}
use oaverify.Router.Segments.{Segment}
use oaverify.Router.Table.{Route}
use oaverify.Router.Table.Order.{
  kind_rank, then_by, compare_kinds, compare_text, is_le, compare_routes,
}

abbrev pub opposite : Ordering → Ordering
opposite Ordering.lt = Ordering.gt
opposite Ordering.eq = Ordering.eq
opposite Ordering.gt = Ordering.lt

pub record IsOrder {A : Type 0} (cmp : A → A → Ordering) : Type 0 where
  pub flips : (a b : A) → cmp b a ≡ opposite (cmp a b)
  pub chains : (a b c : A) → cmp a b ≡ Ordering.lt → cmp b c ≡ Ordering.lt → cmp a c ≡ Ordering.lt
  pub agrees : (a b c : A) → cmp a b ≡ Ordering.eq → cmp a c ≡ cmp b c

Ordering-cases : (o : Ordering) → (o ≡ Ordering.lt) ⊎ (o ≡ Ordering.eq) ⊎ (o ≡ Ordering.gt)
Ordering-cases Ordering.lt = inl refl
Ordering-cases Ordering.eq = inr (inl refl)
Ordering-cases Ordering.gt = inr (inr refl)

module _ {A : Type 0} {cmp : A → A → Ordering} (o : IsOrder cmp) where
  pub le_total : (a b : A) → is_le (cmp a b) ≡ false → is_le (cmp b a) ≡ true
  le_total a b h = ground (arith, o.flips a b)

  -- An equal value on the right may be replaced too.
  agrees_right : (a b c : A) → cmp b c ≡ Ordering.eq → cmp a b ≡ cmp a c
  agrees_right a b c e = ground (arith, o.flips b a, o.flips c a, o.agrees b c a e)

  pub le_trans :
      (a b c : A) → is_le (cmp a b) ≡ true → is_le (cmp b c) ≡ true → is_le (cmp a c) ≡ true
  le_trans a b c h k = ground (arith, o.chains a b c, o.agrees a b c, agrees_right a b c)

compare-IsOrder : IsOrder compare
compare-IsOrder = record {
  flips = λ a b. ground arith;
  chains = λ a b c h k. ground arith;
  agrees = λ a b c h. ground arith;
}

-- Two comparators in turn.
module _ {A : Type 0} {c1 c2 : A → A → Ordering} (o1 : IsOrder c1) (o2 : IsOrder c2) where
  then_by-chains :
      (a b c : A)
      → then_by (c1 a b) (c2 a b) ≡ Ordering.lt
      → then_by (c1 b c) (c2 b c) ≡ Ordering.lt
      → then_by (c1 a c) (c2 a c) ≡ Ordering.lt
  then_by-chains a b c h k =
      ground (arith, o1.chains a b c, o1.agrees a b c, agrees_right o1 a b c, o2.chains a b c)

  then_by-IsOrder : IsOrder (λ a b. then_by (c1 a b) (c2 a b))
  then_by-IsOrder = record {
    flips = λ a b. ground (arith, o1.flips a b, o2.flips a b);
    chains = then_by-chains;
    agrees = λ a b c h. ground (arith, o1.agrees a b c, o2.agrees a b c);
  }

on-IsOrder :
    {A B : Type 0} {cmp : B → B → Ordering} (f : A → B)
    → IsOrder cmp
    → IsOrder (λ a b. cmp (f a) (f b))
on-IsOrder f o = record {
  flips = λ a b. o.flips (f a) (f b);
  chains = λ a b c. o.chains (f a) (f b) (f c);
  agrees = λ a b c. o.agrees (f a) (f b) (f c);
}

-- Lists, element by element; `short` is the place of a list before its continuations.
abbrev lexical : {A : Type 0} → Ordering → (A → A → Ordering) → List A → List A → Ordering
lexical short cmp [] [] = Ordering.eq
lexical short cmp [] (b ∷ bs) = short
lexical short cmp (a ∷ as') [] = opposite short
lexical short cmp (a ∷ as') (b ∷ bs) = then_by (cmp a b) (lexical short cmp as' bs)

module _ {A : Type 0} (short : Ordering) {cmp : A → A → Ordering} (differs : short ≢ Ordering.eq)
    (o : IsOrder cmp) where
  lexical-flips : (as' bs : List A) → lexical short cmp bs as' ≡ opposite (lexical short cmp as' bs)
  lexical-flips [] [] = refl
  lexical-flips [] (b ∷ bs) = refl
  lexical-flips (a ∷ as') [] = ground arith
  lexical-flips (a ∷ as') (b ∷ bs) = ground (arith, o.flips a b, lexical-flips as' bs)

  lexical-agrees :
      (as' bs cs : List A)
      → lexical short cmp as' bs ≡ Ordering.eq
      → lexical short cmp as' cs ≡ lexical short cmp bs cs
  lexical-agrees [] [] cs h = refl
  lexical-agrees [] (b ∷ bs) cs h = absurd (differs h)
  lexical-agrees (a ∷ as') [] cs h = absurd (differs (ground arith))
  lexical-agrees (a ∷ as') (b ∷ bs) [] h = refl
  lexical-agrees (a ∷ as') (b ∷ bs) (c ∷ cs) h =
      ground (arith, o.agrees a b c, lexical-agrees as' bs cs)

  lexical-chains :
      (as' bs cs : List A)
      → lexical short cmp as' bs ≡ Ordering.lt
      → lexical short cmp bs cs ≡ Ordering.lt
      → lexical short cmp as' cs ≡ Ordering.lt
  lexical-chains [] [] cs h k = k
  lexical-chains [] (b ∷ bs) [] h k = ground arith
  lexical-chains [] (b ∷ bs) (c ∷ cs) h k = h
  lexical-chains (a ∷ as') [] [] h k = h
  lexical-chains (a ∷ as') [] (c ∷ cs) h k = ground arith
  lexical-chains (a ∷ as') (b ∷ bs) [] h k = k
  lexical-chains (a ∷ as') (b ∷ bs) (c ∷ cs) h k =
      ground (arith, o.chains a b c, o.agrees a b c, agrees_right o a b c, lexical-chains as' bs cs)

  lexical-IsOrder : IsOrder (lexical short cmp)
  lexical-IsOrder = record {
    flips = lexical-flips;
    chains = lexical-chains;
    agrees = lexical-agrees;
  }

compare_text-lexical : (a b : Text) → compare_text a b ≡ lexical Ordering.lt compare a b
unfolding compare_text
compare_text-lexical [] [] = refl
compare_text-lexical [] (b ∷ bs) = refl
compare_text-lexical (a ∷ as') [] = refl
compare_text-lexical (a ∷ as') (b ∷ bs) = ap (then_by (compare a b)) (compare_text-lexical as' bs)

-- The kinds and then the lengths order as the kinds do where the end of a template comes last.
abbrev compare_shape : List Segment → List Segment → Ordering
compare_shape = lexical Ordering.gt (λ a b. compare (kind_rank a) (kind_rank b))

compare_kinds-shape :
    (a b : List Segment)
    → then_by (compare_kinds a b) (compare (length b) (length a)) ≡ compare_shape a b
unfolding compare_kinds
compare_kinds-shape [] [] = refl
compare_kinds-shape [] (b ∷ bs) = ground arith
compare_kinds-shape (a ∷ as') [] = ground arith
compare_kinds-shape (a ∷ as') (b ∷ bs) = ground (arith, compare_kinds-shape as' bs)

abbrev compare_keys : {Op : Type 0} → Route Op → Route Op → Ordering
compare_keys a b =
    then_by (compare_shape a.segments b.segments)
      (lexical Ordering.lt compare a.path_pattern b.path_pattern)

compare_routes-keys : {Op : Type 0} (a b : Route Op) → compare_routes a b ≡ compare_keys a b
unfolding compare_routes
compare_routes-keys a b = ground (
  arith,
  compare_kinds-shape a.segments b.segments,
  compare_text-lexical a.path_pattern b.path_pattern,
)

compare_keys-IsOrder : {Op : Type 0} → IsOrder (compare_keys {Op = Op})
compare_keys-IsOrder =
    then_by-IsOrder
      (on-IsOrder (λ r. r.segments)
        (lexical-IsOrder Ordering.gt (λ e. cc) (on-IsOrder kind_rank compare-IsOrder)))
      (on-IsOrder (λ r. r.path_pattern) (lexical-IsOrder Ordering.lt (λ e. cc) compare-IsOrder))

-- The comparator of the routes is a total order: it is transitive, turns round with its arguments,
-- and routes that it finds the same compare alike with any other.
pub compare_routes-IsOrder : (Op : Type 0) → IsOrder (compare_routes {Op = Op})
compare_routes-IsOrder Op =
    rw (fun_ext (λ a. fun_ext (compare_routes-keys {Op = Op} a))) compare_keys-IsOrder

lexical-eq : (a b : Text) → lexical Ordering.lt compare a b ≡ Ordering.eq → a ≡ b
lexical-eq [] [] h = refl
lexical-eq [] (b ∷ bs) h = cc
lexical-eq (a ∷ as') [] h = cc
lexical-eq (a ∷ as') (b ∷ bs) h = ground (arith, lexical-eq as' bs)

-- It tells routes with different patterns apart.
pub compare_routes-eq :
    {Op : Type 0} (a b : Route Op)
    → compare_routes a b ≡ Ordering.eq
    → a.path_pattern ≡ b.path_pattern
compare_routes-eq a b h =
    lexical-eq a.path_pattern b.path_pattern (ground (arith, compare_routes-keys a b))
