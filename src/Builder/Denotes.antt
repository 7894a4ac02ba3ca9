-- ===== src/Builder/Denotes.antt =====
-- The JSON value that a value of the builder's heap stands for.
use oaverify.Common.{
  ℕ, zero, suc, ◌≤◌, ◌<◌, ◌≡◌, ◌≢◌, refl, ap, Bool, some, List, [], ◌∷◌, ◌++◌, arith, Text, text_eq,
  length, get_elem?, Bool-cases, inl, inr,
}
use oaverify.Tokenizer.Grammar.{
  JsonText, TextItems, TextMembers, null, boolean, number, string, array, object, no_item, and_item,
  no_member, and_member,
}
use oaverify.Builder.{
  BuiltValue, null_value, boolean_value, number_value, string_value, container, Cell, object_cell,
  array_cell, set_entry, array_index, index_before, modify,
}

-- The own properties of the object that the members make, in JavaScript's order: a name that repeats
-- has its last value, array indices come first and ascend, and other names keep their first places.
unfoldable pub own : TextMembers → List (Text × JsonText)
unfolding set_entry
own no_member = []
own (and_member members key value) = set_entry (own members) key value

-- The containers of the value stand in the heap from a place on, each below those inside it.
mutual
  pub data Denotes : List Cell → ℕ → BuiltValue → JsonText → Type 0 where
    is_null : {heap : List Cell} {lo : ℕ} → Denotes heap lo null_value null
    is_boolean :
        {heap : List Cell} {lo : ℕ} (b : Bool) → Denotes heap lo (boolean_value b) (boolean b)
    is_number :
        {heap : List Cell} {lo : ℕ} (raw : Text) → Denotes heap lo (number_value raw) (number raw)
    is_string :
        {heap : List Cell} {lo : ℕ} (text : Text)
        → Denotes heap lo (string_value text) (string text)
    is_array :
        {heap : List Cell} {lo c : ℕ} {values : List BuiltValue} {items : TextItems}
        → lo ≤ c
        → get_elem? heap c ≡ some (array_cell values)
        → DenotesItems heap (suc c) values items
        → Denotes heap lo (container c) (array items)
    is_object :
        {heap : List Cell} {lo c : ℕ} {entries : List (Text × BuiltValue)} {members : TextMembers}
        → lo ≤ c
        → get_elem? heap c ≡ some (object_cell entries)
        → DenotesEntries heap (suc c) entries (own members)
        → Denotes heap lo (container c) (object members)

  pub data DenotesItems : List Cell → ℕ → List BuiltValue → TextItems → Type 0 where
    no_values : {heap : List Cell} {lo : ℕ} → DenotesItems heap lo [] no_item
    more_values :
        {heap : List Cell} {lo : ℕ} {values : List BuiltValue} {v : BuiltValue} {items : TextItems}
        {j : JsonText}
        → DenotesItems heap lo values items
        → Denotes heap lo v j
        → DenotesItems heap lo (values ++ v ∷ []) (and_item items j)

  pub data DenotesEntries
      : List Cell → ℕ → List (Text × BuiltValue) → List (Text × JsonText) → Type 0 where
    no_entries : {heap : List Cell} {lo : ℕ} → DenotesEntries heap lo [] []
    more_entries :
        {heap : List Cell} {lo : ℕ} {k : Text} {v : BuiltValue} {j : JsonText}
        {es : List (Text × BuiltValue)} {js : List (Text × JsonText)}
        → Denotes heap lo v j
        → DenotesEntries heap lo es js
        → DenotesEntries heap lo ((k, v) ∷ es) ((k, j) ∷ js)

-- The second heap has the cells of the first from a place on.
abbrev pub KeepsFrom : ℕ → List Cell → List Cell → Type 0
KeepsFrom lo h h' = (i : ℕ) (x : Cell) → lo ≤ i → get_elem? h i ≡ some x → get_elem? h' i ≡ some x

mutual
  pub Denotes-keep :
      {h h' : List Cell} {lo lo' : ℕ} {v : BuiltValue} {j : JsonText}
      → KeepsFrom lo h h'
      → lo' ≤ lo
      → Denotes h lo v j
      → Denotes h' lo' v j
  Denotes-keep k le is_null = is_null
  Denotes-keep k le (is_boolean b) = is_boolean b
  Denotes-keep k le (is_number raw) = is_number raw
  Denotes-keep k le (is_string text) = is_string text
  Denotes-keep k le (is_array {c = c} above found d) =
      is_array (omega arith) (k c _ above found)
        (DenotesItems-keep (λ i x h. k i x (omega arith)) (omega arith) d)
  Denotes-keep k le (is_object {c = c} above found d) =
      is_object (omega arith) (k c _ above found)
        (DenotesEntries-keep (λ i x h. k i x (omega arith)) (omega arith) d)

  pub DenotesItems-keep :
      {h h' : List Cell} {lo lo' : ℕ} {vs : List BuiltValue} {items : TextItems}
      → KeepsFrom lo h h'
      → lo' ≤ lo
      → DenotesItems h lo vs items
      → DenotesItems h' lo' vs items
  DenotesItems-keep k le no_values = no_values
  DenotesItems-keep k le (more_values d e) =
      more_values (DenotesItems-keep k le d) (Denotes-keep k le e)

  pub DenotesEntries-keep :
      {h h' : List Cell} {lo lo' : ℕ} {es : List (Text × BuiltValue)} {js : List (Text × JsonText)}
      → KeepsFrom lo h h'
      → lo' ≤ lo
      → DenotesEntries h lo es js
      → DenotesEntries h' lo' es js
  DenotesEntries-keep k le no_entries = no_entries
  DenotesEntries-keep k le (more_entries d e) =
      more_entries (Denotes-keep k le d) (DenotesEntries-keep k le e)

pub set_entry-DenotesEntries :
    {h : List Cell} {lo : ℕ} {es : List (Text × BuiltValue)} {js : List (Text × JsonText)}
    (key : Text) {v : BuiltValue} {j : JsonText}
    → DenotesEntries h lo es js
    → Denotes h lo v j
    → DenotesEntries h lo (set_entry es key v) (set_entry js key j)
unfolding set_entry
set_entry-DenotesEntries key no_entries e = more_entries e no_entries
set_entry-DenotesEntries key (more_entries {k = k} d ds) e = elim (Bool-cases (text_eq k key)) [
  | inl same ↦ rw same (more_entries e ds)
  | inr other ↦ elim (Bool-cases (index_before (array_index key) (array_index k))) [
    | inl first ↦ rw (other, first) (more_entries e (more_entries d ds))
    | inr later ↦ rw (other, later) (more_entries d (set_entry-DenotesEntries key ds e))
  ]
]

pub get_elem?-modify_same :
    (h : List Cell) (n : ℕ) (f : Cell → Cell) (x : Cell)
    → get_elem? h n ≡ some x
    → get_elem? (modify n f h) n ≡ some (f x)
get_elem?-modify_same [] n f x e = cc
get_elem?-modify_same (c ∷ h) zero f x e = cc
get_elem?-modify_same (c ∷ h) (suc n) f x e = get_elem?-modify_same h n f x e

pub get_elem?-modify_other :
    (h : List Cell) (n i : ℕ) (f : Cell → Cell) → i ≢ n → get_elem? (modify n f h) i ≡ get_elem? h i
get_elem?-modify_other [] n i f ne = refl
get_elem?-modify_other (c ∷ h) zero zero f ne = absurd (ne refl)
get_elem?-modify_other (c ∷ h) zero (suc i) f ne = refl
get_elem?-modify_other (c ∷ h) (suc n) zero f ne = refl
get_elem?-modify_other (c ∷ h) (suc n) (suc i) f ne =
    get_elem?-modify_other h n i f (λ e. ne (ap suc e))

pub length-modify : (h : List Cell) (n : ℕ) (f : Cell → Cell) → length (modify n f h) ≡ length h
length-modify [] n f = refl
length-modify (c ∷ h) zero f = refl
length-modify (c ∷ h) (suc n) f = ap suc (length-modify h n f)

pub get_elem?-lt : (h : List Cell) (i : ℕ) (x : Cell) → get_elem? h i ≡ some x → i < length h
get_elem?-lt [] i x e = cc
get_elem?-lt (c ∷ h) zero x e = omega arith
get_elem?-lt (c ∷ h) (suc i) x e = omega (arith, get_elem?-lt h i x e)

pub get_elem?-append :
    (h : List Cell) (c : Cell) (i : ℕ) (x : Cell)
    → get_elem? h i ≡ some x
    → get_elem? (h ++ c ∷ []) i ≡ some x
get_elem?-append [] c i x e = cc
get_elem?-append (d ∷ h) c zero x e = e
get_elem?-append (d ∷ h) c (suc i) x e = get_elem?-append h c i x e

pub get_elem?-append_last : (h : List Cell) (c : Cell) → get_elem? (h ++ c ∷ []) (length h) ≡ some c
get_elem?-append_last [] c = refl
get_elem?-append_last (d ∷ h) c = get_elem?-append_last h c

pub modify-append :
    (h : List Cell) (n : ℕ) (f : Cell → Cell) (c : Cell)
    → n < length h
    → modify n f (h ++ c ∷ []) ≡ modify n f h ++ c ∷ []
modify-append [] n f c lt = absurd (omega arith)
modify-append (d ∷ h) zero f c lt = refl
modify-append (d ∷ h) (suc n) f c lt = ap (◌∷◌ d) (modify-append h n f c (omega arith))
