-- ===== src/Severity/Fixed.antt =====
-- No regrading that `parseSeverityMap` accepts touches the finding of a malformed schema.
use oaverify.Common.{
  ◌+◌, ◌≡◌, ◌⊎◌, inl, inr, refl, sym, ◌∙◌, subst, ◌-◌, Bool, false, ◌||◌, Bool-cases, Option-cases,
  none, some, List, [], ◌∷◌, Text, codes, text_eq, text_eq_iff, length, index_of, find_at,
  starts_with, slice, drop, take, trim, any, includes, arith,
}
use oaverify.Severity.{
  CheckSeverity, FindingKey, code, family, class, Grades, get, set, SeverityMap, empty_severity_map,
  severity_for, parse_finding_key, parse_level, ends_with, store, is_malformed, assign, read_entry,
  read_entries, split_all, parse_severity_map, Parsed, parsed, refused,
}
use oaverify.Severity.Codes.{check_codes, check_families, check_classes}

-- A lookup behind `Map.set`.
get-set_other :
    (key other : Text) (value : CheckSeverity) (grades : Grades)
    → text_eq other key ≡ false
    → get key (set other value grades) ≡ get key grades
unfolding get set
get-set_other key other value [] h = rw h
get-set_other key other value ((k, v) ∷ grades) h = elim (Bool-cases (text_eq k other)) [
  | inl e ↦
      let same : k ≡ other = (text_eq_iff k other).0 e in
      let apart : text_eq k key ≡ false = rw same h in rw e (rw (h, apart))
  | inr e ↦ rw e (rw (get-set_other key other value grades h))
]

-- Neither the class nor the code of malformed findings has a grade.
pub record NoMalformed (m : SeverityMap) : Type 0 where
  pub by_code : get (codes "malformed-schema") m.by_code ≡ none
  pub by_class : get (codes "malformed") m.by_class ≡ none

-- What a key names: a family, or the key itself as a class or a code.
IsKeyOf : Text → FindingKey → Type 0
IsKeyOf key k = (k ≡ class key) ⊎ ((k ≡ code key) ⊎ ((f : Text) × (k ≡ family f)))

parse_finding_key-IsKeyOf :
    (key : Text) {k : FindingKey} → parse_finding_key key ≡ some k → IsKeyOf key k
unfolding parse_finding_key IsKeyOf
parse_finding_key-IsKeyOf key {k} h = elim (Bool-cases (text_eq key [])) [
  | inl e ↦ cc (rw (parse_finding_key, e) at h)
  | inr e ↦ elim (Bool-cases (ends_with (codes "/*") key)) [
    | inl e1 ↦ elim (Bool-cases (any (text_eq (take (length key - 2) key)) check_families)) [
      | inl e2 ↦ inr (inr (take (length key - 2) key, cc (rw (parse_finding_key, e, e1, e2) at h)))
      | inr e2 ↦ cc (rw (parse_finding_key, e, e1, e2) at h)
    ]
    | inr e1 ↦ elim (Bool-cases (includes b'*' key)) [
      | inl e2 ↦ cc (rw (parse_finding_key, e, e1, e2) at h)
      | inr e2 ↦ elim (Bool-cases (any (text_eq key) check_classes)) [
        | inl e3 ↦ inl (cc (rw (parse_finding_key, e, e1, e2, e3) at h))
        | inr e3 ↦ elim (Bool-cases (any (text_eq key) check_codes)) [
          | inl e4 ↦ inr (inl (cc (rw (parse_finding_key, e, e1, e2, e3, e4) at h)))
          | inr e4 ↦ cc (rw (parse_finding_key, e, e1, e2, e3, e4) at h)
        ]
      ]
    ]
  ]
]

not_either : (p q : Bool) → p || q ≡ false → (p ≡ false) × (q ≡ false)
not_either p q h = ground arith

store-NoMalformed :
    (key : Text) (k : FindingKey) (severity : CheckSeverity) (m : SeverityMap)
    → is_malformed key ≡ false
    → IsKeyOf key k
    → NoMalformed m
    → NoMalformed (store k severity m)
unfolding IsKeyOf
store-NoMalformed key k severity m plain (inl e) inv =
    let (no_class, no_code) = not_either (text_eq key (codes "malformed")) _ plain in
    subst (λ k'. NoMalformed (store k' severity m)) (sym e)
      (record {
        by_code = inv.by_code;
        by_class =
            get-set_other (codes "malformed") key severity m.by_class no_class ∙ inv.by_class;
      })
store-NoMalformed key k severity m plain (inr (inl e)) inv =
    let (no_class, no_code) = not_either (text_eq key (codes "malformed")) _ plain in
    subst (λ k'. NoMalformed (store k' severity m)) (sym e)
      (record {
        by_code =
            get-set_other (codes "malformed-schema") key severity m.by_code no_code ∙ inv.by_code;
        by_class = inv.by_class;
      })
store-NoMalformed key k severity m plain (inr (inr (f, e))) inv =
    subst (λ k'. NoMalformed (store k' severity m)) (sym e)
      (record { by_code = inv.by_code; by_class = inv.by_class })

-- Whatever a turn of the loop accepts keeps the invariant.
Keeps : Parsed → Type 0
Keeps (parsed m) = NoMalformed m
Keeps (refused r) = Unit

assign-Keeps :
    (text key level : Text) (m : SeverityMap) → NoMalformed m → Keeps (assign text key level m)
unfolding assign Keeps
assign-Keeps text key level m inv = elim (Option-cases (parse_level level)) [
  | inl e ↦ rw (assign, e) tt
  | inr (severity, e) ↦ elim (Bool-cases (is_malformed key)) [
    | inl e1 ↦ rw (assign, e, e1) tt
    | inr e1 ↦ elim (Option-cases (parse_finding_key key)) [
      | inl e2 ↦ rw (assign, e, e1, e2) tt
      | inr (k, e2) ↦
          rw (assign, e, e1, e2)
            (store-NoMalformed key k severity m e1 (parse_finding_key-IsKeyOf key e2) inv)
    ]
  ]
]

read_entry-Keeps : (entry : Text) (m : SeverityMap) → NoMalformed m → Keeps (read_entry entry m)
unfolding read_entry Keeps
read_entry-Keeps [] m inv = inv
read_entry-Keeps (c ∷ s) m inv = elim (Option-cases (index_of (c ∷ s) (codes "=") 0)) [
  | inl e ↦ rw (read_entry, e) tt
  | inr (eq, e) ↦
      rw (read_entry, e)
        (assign-Keeps (c ∷ s) (trim (slice (c ∷ s) 0 eq)) (trim (drop (eq + 1) (c ∷ s))) m inv)
]

read_entries-Keeps :
    (entries : List Text) (m : SeverityMap) → NoMalformed m → Keeps (read_entries entries m)
unfolding read_entries Keeps
read_entries-Keeps [] m inv = inv
read_entries-Keeps (entry ∷ entries) m inv =
    on (read_entry (trim entry) m) (read_entry-Keeps (trim entry) m inv)
      (λ m'. read_entries-Keeps entries m')
  where
    on :
        (p : Parsed)
        → Keeps p
        → ((m' : SeverityMap) → NoMalformed m' → Keeps (read_entries entries m'))
        → Keeps (elim p [ refused r ↦ refused r | parsed m' ↦ read_entries entries m' ])
    on (parsed m') kept more = more m' kept
    on (refused r) kept more = tt

-- A regrading that is accepted, whatever its entries, leaves the finding of a malformed schema at
-- the severity it has without it.
pub parse_severity_map-malformed :
    (entries : List Text) (m : SeverityMap) (fallback : CheckSeverity)
    → parse_severity_map entries ≡ parsed m
    → severity_for m (codes "malformed") (codes "malformed-schema") fallback ≡ fallback
unfolding parse_severity_map severity_for index_of find_at starts_with Keeps
parse_severity_map-malformed entries m fallback h =
    let start : NoMalformed empty_severity_map = record { by_code = refl; by_class = refl } in
    let kept : Keeps (parsed m) =
      subst Keeps h (read_entries-Keeps (split_all entries) empty_severity_map start) in
    rw (severity_for, kept.by_code) (rw kept.by_class)
