-- ===== src/Merge/Mirror.antt =====
-- The merge of crates/auru-pm-kernel/src/merge.rs with the two sides exchanged.
use mathlib.Core.Path.{ap₂}
use mathlib.Core.Option
use mathlib.Core.List.{map-append}
use auru_pm_core.Json.{
  Value, Items, Fields, null, array, object, nil, cons, end, field, value_eq, fields, items,
}
use auru_pm_core.Json.Equality.{value_eq_refl, eq_of_value_eq}
use auru_pm_core.Merge.{
  ConflictedField, Merger, merge_scalar, merge_entry, merge_key, merge_keys, merge_objects,
  merge_element, merge_shared, merge_arrays_by_id, merge_from_index, merge_arrays_by_index,
  merge_arrays, merge_with, field_mergers, item_mergers, child_path, find_last, id_of, local_id,
  has_id, insert_keys, merge_values, next_value, index_path,
}
use auru_pm_core.Merge.Tables.{
  Each, lookup-Each, find_last-Each, lookup-field_mergers, values-item_mergers,
  find_last-item_mergers,
}
use auru_pm_core.Merge.Keys.{insert_keys_comm}
use auru_pm_core.Merge.Tables.{insert_keys-field_mergers}
use auru_pm_core.Prelude.{
  Text, List, [], ◌∷◌, Option, some, none, true, false, All, ◌≡◌, lookup, Bool-cases, map, refl,
  inl, inr, ℕ, suc, zero, ◌++◌, length, max, Bool, arith, sym, ap, all, not, ◌∙◌, ◌&&◌,
}

abbrev pub swap : ConflictedField → ConflictedField
swap c = record { path = c.path; ancestor = c.ancestor; local = c.remote; remote = c.local }

value_eq_sym : (a b : Value) → value_eq a b ≡ value_eq b a
value_eq_sym a b = elim (Bool-cases (value_eq a b)) [
  | inl same ↦ let e = eq_of_value_eq a b same in rw (e, value_eq_refl b) refl
  | inr apart ↦ elim (Bool-cases (value_eq b a)) [
    | inr apart' ↦ rw (apart, apart') refl
    | inl same ↦ let e = eq_of_value_eq b a same in rw (e, value_eq_refl a) refl
  ]
]

merge_scalar-swap :
    (a l r : Value) (path : Text)
    → (merge_scalar a r l path).1 ≡ map swap (merge_scalar a l r path).1
unfolding merge_scalar
merge_scalar-swap a l r path = elim (Bool-cases (value_eq l a)) [
  | inl x ↦ elim (Bool-cases (value_eq r a)) [ inl y ↦ rw (x, y) refl | inr y ↦ rw (x, y) refl ]
  | inr x ↦ elim (Bool-cases (value_eq r a)) [
    | inl y ↦ rw (x, y) refl
    | inr y ↦ elim (Bool-cases (value_eq l r)) [
      | inl z ↦ rw (x, y, value_eq_sym r l, z) refl
      | inr z ↦ rw (x, y, value_eq_sym r l, z) refl
    ]
  ]
]

-- A local value and its merge, against any other value with its own.
abbrev Mirrors : Value → Merger → Type 0
Mirrors l m = (a r : Value) (path : Text) → (merge_with r a l path).1 ≡ map swap (m a r path).1

abbrev with_merge : Value → Value × Merger
with_merge v = (v, merge_with v)

abbrev plain : Option (Value × Merger) → Option Value
plain none = none
plain (some (v, m)) = some v

merge_entry-swap :
    (path : Text) (a : Option Value) (l : Option (Value × Merger)) (r : Option Value)
    → Each Mirrors l
    → (merge_entry path a (Option.map with_merge r) (plain l)).1
      ≡ map swap (merge_entry path a l r).1
unfolding merge_entry
merge_entry-swap path none none none h = refl
merge_entry-swap path (some a) none none h = refl
merge_entry-swap path none (some (l, m)) none h = refl
merge_entry-swap path none none (some r) h = refl
merge_entry-swap path (some a) none (some r) h = elim (Bool-cases (value_eq r a)) [
  | inl same ↦ rw same refl
  | inr changed ↦ rw changed refl
]
merge_entry-swap path (some a) (some (l, m)) none h = elim (Bool-cases (value_eq l a)) [
  | inl same ↦ rw same refl
  | inr changed ↦ rw changed refl
]
merge_entry-swap path (some a) (some (l, m)) (some r) h = elim (Bool-cases (value_eq l a)) [
  | inl x ↦ elim (Bool-cases (value_eq r a)) [ inl y ↦ rw (x, y) refl | inr y ↦ rw (x, y) refl ]
  | inr x ↦ elim (Bool-cases (value_eq r a)) [
    | inl y ↦ rw (x, y) refl
    | inr y ↦ rw (x, y) (h a r path)
  ]
]
merge_entry-swap path none (some (l, m)) (some r) h = elim (Bool-cases (value_eq l r)) [
  | inl z ↦ rw (value_eq_sym r l, z) refl
  | inr z ↦ rw (value_eq_sym r l, z) refl
]

plain-lookup : (k : Text) (fs : Fields) → plain (lookup k (field_mergers fs)) ≡ lookup k (fields fs)
plain-lookup k fs = rw (lookup-field_mergers k fs) (go (lookup k (fields fs)))
  where
    go : (o : Option Value) → plain (Option.map with_merge o) ≡ o
    go none = refl
    go (some v) = refl

merge_keys-swap :
    (path : Text) (a : List (Text × Value)) (l r : Fields) (ks : List Text)
    → All (λ e. Mirrors e.1.0 e.1.1) (field_mergers l)
    → (merge_keys path a (field_mergers r) (fields l) ks).1
      ≡ map swap (merge_keys path a (field_mergers l) (fields r) ks).1
unfolding merge_keys merge_key
merge_keys-swap path a l r [] h = refl
merge_keys-swap path a l r (k ∷ ks) h =
    let here =
      merge_entry-swap (child_path path k) (lookup k a) (lookup k (field_mergers l))
        (lookup k (fields r)) (lookup-Each Mirrors k (field_mergers l) h) in
    let here' = rw (plain-lookup k l) at here in
    rw (lookup-field_mergers k r, here', merge_keys-swap path a l r ks h, map-append swap) refl

merge_element-swap :
    (path : Text) (a : Value) (l : Option (Value × Merger)) (r : Option Value)
    → Each Mirrors l
    → (merge_element path a (Option.map with_merge r) (plain l)).1
      ≡ map swap (merge_element path a l r).1
unfolding merge_element
merge_element-swap path a none none h = refl
merge_element-swap path a (some (l, m)) none h = elim (Bool-cases (value_eq l a)) [
  | inl same ↦ rw same refl
  | inr changed ↦ rw changed refl
]
merge_element-swap path a none (some r) h = elim (Bool-cases (value_eq r a)) [
  | inl same ↦ rw same refl
  | inr changed ↦ rw changed refl
]
merge_element-swap path a (some (l, m)) (some r) h = h a r _

plain-find_last :
    (id : Text) (vs : Items)
    → plain (find_last local_id id (item_mergers vs)) ≡ find_last id_of id (items vs)
plain-find_last id vs = rw (find_last-item_mergers id vs) (go (find_last id_of id (items vs)))
  where
    go : (o : Option Value) → plain (Option.map with_merge o) ≡ o
    go none = refl
    go (some v) = refl

merge_shared-swap :
    (path : Text) (l r : Items) (a : List Value)
    → All (λ e. Mirrors e.0 e.1) (item_mergers l)
    → (merge_shared path (item_mergers r) (items l) a).1
      ≡ map swap (merge_shared path (item_mergers l) (items r) a).1
unfolding merge_shared
merge_shared-swap path l r [] h = refl
merge_shared-swap path l r (av ∷ a) h =
    let here =
      merge_element-swap path av (find_last local_id (id_of av) (item_mergers l))
        (find_last id_of (id_of av) (items r))
        (find_last-Each Mirrors (id_of av) (item_mergers l) h) in
    let here' = rw (plain-find_last (id_of av) l) at here in
    rw (find_last-item_mergers (id_of av) r, here', merge_shared-swap path l r a h, map-append swap)
      refl

-- A missing element counts as `null`, which is merged whole.
merge_with-null :
    (v a : Value) (path : Text) → merge_with v a null path ≡ merge_scalar a v null path
unfolding merge_with
merge_with-null (object l) (object a) path = refl
merge_with-null (array l) (array a) path = refl
merge_with-null v a path = refl

swap_append :
    (xs ys xs' ys' : List ConflictedField)
    → xs ≡ map swap xs'
    → ys ≡ map swap ys'
    → xs ++ ys ≡ map swap (xs' ++ ys')
swap_append xs ys xs' ys' e d = ap₂ ◌++◌ e d ∙ sym (map-append swap xs' ys')

merge_from_index-swap :
    (path : Text) (rounds i : ℕ) (a : List Value) (l r : Items)
    → All (λ e. Mirrors e.0 e.1) (item_mergers l)
    → (merge_from_index path rounds i a (item_mergers r) (items l)).1
      ≡ map swap (merge_from_index path rounds i a (item_mergers l) (items r)).1
unfolding merge_from_index item_mergers
merge_from_index-swap path zero i a l r h = refl
merge_from_index-swap path (suc rounds) i a nil nil h =
    swap_append _ _ _ _ (merge_scalar-swap (next_value a).0 null null (index_path path i))
      (merge_from_index-swap path rounds (suc i) (next_value a).1 nil nil tt)
merge_from_index-swap path (suc rounds) i a nil (cons v r) h =
    swap_append _ _ _ _
      (rw (merge_with-null v (next_value a).0 (index_path path i))
        (merge_scalar-swap (next_value a).0 null v (index_path path i)))
      (merge_from_index-swap path rounds (suc i) (next_value a).1 nil r tt)
merge_from_index-swap path (suc rounds) i a (cons v l) nil h =
    swap_append _ _ _ _
      (rw (merge_with-null v (next_value a).0 (index_path path i))
        (merge_scalar-swap (next_value a).0 v null (index_path path i)))
      (merge_from_index-swap path rounds (suc i) (next_value a).1 l nil h.1)
merge_from_index-swap path (suc rounds) i a (cons v l) (cons w r) h =
    swap_append _ _ _ _ (h.0 (next_value a).0 w (index_path path i))
      (merge_from_index-swap path rounds (suc i) (next_value a).1 l r h.1)

length-item_mergers : (vs : Items) → length (item_mergers vs) ≡ length (items vs)
unfolding item_mergers
length-item_mergers nil = refl
length-item_mergers (cons v vs) = ap suc (length-item_mergers vs)

merge_arrays-swap :
    (path : Text) (a : List Value) (l r : Items)
    → All (λ e. Mirrors e.0 e.1) (item_mergers l)
    → (merge_arrays path a (item_mergers r) (items l)).1
      ≡ map swap (merge_arrays path a (item_mergers l) (items r)).1
unfolding merge_arrays merge_arrays_by_id merge_arrays_by_index
merge_arrays-swap path a l r h =
    rw (values-item_mergers l, values-item_mergers r, length-item_mergers l, length-item_mergers r)
      (elim (Bool-cases (all has_id a)) [
        | inr x ↦ rw x by_index
        | inl x ↦ elim (Bool-cases (all has_id (items l))) [
          | inr y ↦ elim (Bool-cases (all has_id (items r))) [
            | inl z ↦ rw (x, y, z) by_index
            | inr z ↦ rw (x, y, z) by_index
          ]
          | inl y ↦ elim (Bool-cases (all has_id (items r))) [
            | inl z ↦ rw (x, y, z) (merge_shared-swap path l r a h)
            | inr z ↦ rw (x, y, z) by_index
          ]
        ]
      ])
  where
    by_index :
        (merge_from_index path
          (max (max (length a) (length (items r))) (length (items l)))
          0
          a
          (item_mergers r)
          (items l)).1
        ≡ map swap
            (merge_from_index path
              (max (max (length a) (length (items l))) (length (items r)))
              0
              a
              (item_mergers l)
              (items r)).1
    by_index =
        let rounds : max (max (length a) (length (items r))) (length (items l))
            ≡ max (max (length a) (length (items l))) (length (items r)) =
          omega arith in
        rw rounds (
          merge_from_index-swap path (max (max (length a) (length (items l))) (length (items r))) 0
            a l r h)

merge_objects-swap :
    (path : Text) (a : List (Text × Value)) (l r : Fields)
    → All (λ e. Mirrors e.1.0 e.1.1) (field_mergers l)
    → (merge_objects path a (field_mergers r) (fields l)).1
      ≡ map swap (merge_objects path a (field_mergers l) (fields r)).1
unfolding merge_objects
merge_objects-swap path a l r h =
    rw
      (
        insert_keys-field_mergers l,
        insert_keys-field_mergers r,
        insert_keys_comm (fields l) (fields r) (insert_keys a []),
      )
      (merge_keys-swap path a l r _ h)

-- Where the three are not all objects and not all arrays, they are merged whole.
abbrev is_object : Value → Bool
is_object (object fs) = true
is_object v = false

abbrev is_array : Value → Bool
is_array (array vs) = true
is_array v = false

abbrev is_whole : Value → Value → Value → Bool
is_whole l a r =
    not (is_object l && (is_object a && is_object r))
    && not (is_array l && (is_array a && is_array r))

merge_with-whole :
    (l a r : Value) (path : Text)
    → is_whole l a r ≡ true
    → merge_with l a r path ≡ merge_scalar a l r path
unfolding merge_with
merge_with-whole (object l) (object a) (object r) path h = cc
merge_with-whole (array l) (array a) (array r) path h = cc
merge_with-whole l a r path h = refl

is_whole_sym : (l a r : Value) → is_whole l a r ≡ is_whole r a l
is_whole_sym l a r = ground arith

whole_mirror :
    (l a r : Value) (path : Text)
    → is_whole l a r ≡ true
    → (merge_with r a l path).1 ≡ map swap (merge_with l a r path).1
whole_mirror l a r path h =
    rw (merge_with-whole l a r path h, merge_with-whole r a l path (sym (is_whole_sym l a r) ∙ h))
      (merge_scalar-swap a l r path)

mutual
  unfolding merge_with

  with_mirror : (l : Value) → Mirrors l (merge_with l)
  with_mirror (object l) (object a) (object r) path =
      merge_objects-swap path (fields a) l r (fields_mirror l)
  with_mirror (array l) (array a) (array r) path =
      merge_arrays-swap path (items a) l r (items_mirror l)
  with_mirror l a r path = whole_mirror l a r path refl

  fields_mirror : (fs : Fields) → All (λ e. Mirrors e.1.0 e.1.1) (field_mergers fs)
  fields_mirror end = tt
  fields_mirror (field k v fs) = (with_mirror v, fields_mirror fs)

  items_mirror : (vs : Items) → All (λ e. Mirrors e.0 e.1) (item_mergers vs)
  items_mirror nil = tt
  items_mirror (cons v vs) = (with_mirror v, items_mirror vs)

-- The conflicts of a merge with the two sides exchanged are the conflicts of the merge, in their
-- order and at their paths, with the two sides of each exchanged.
pub merge_values-swap :
    (ancestor local remote : Value) (path : Text)
    → (merge_values ancestor remote local path).1
      ≡ map swap (merge_values ancestor local remote path).1
unfolding merge_values
merge_values-swap ancestor local remote path = with_mirror local ancestor remote path
