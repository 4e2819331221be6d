-- ===== src/Merge/Real.antt =====
-- The conflicts of crates/auru-pm-kernel/src/merge.rs are between changed, different values.
use auru_pm_core.Json.{
  object, array, end, field, nil, cons, Value, Items, Fields, value_eq, fields, items,
}
use auru_pm_core.Json.Equality.{value_eq_refl}
use auru_pm_core.Merge.{
  ConflictedField, Merger, merge_scalar, merge_entry, merge_key, merge_keys, merge_objects,
  merge_element, merge_shared, merge_arrays_by_id, merge_from_index, merge_arrays_by_index,
  merge_arrays, merge_with, field_mergers, item_mergers, child_path, find_last, id_of, local_id,
  merge_values, has_id, values,
}
use auru_pm_core.Merge.Tables.{Each, lookup-Each, find_last-Each}
use auru_pm_core.Prelude.{
  Text, List, [], ◌∷◌, Option, some, none, false, All, ◌≡◌, ◌++◌, ◌≢◌, Bool-cases, lookup, ℕ,
  some-injective, inl, suc, zero, inr, sym, none-some, refl, all, ◌&&◌, max, length,
}

-- Both sides have a value; the two differ from each other and from the ancestor's.
pub record IsReal (c : ConflictedField) : Type 0 where
  pub both : (l : Value) × (r : Value) × (c.local ≡ some l) × (c.remote ≡ some r)
  pub apart : c.local ≢ c.remote
  pub local_changed : c.ancestor ≢ c.local
  pub remote_changed : c.ancestor ≢ c.remote

abbrev AreReal : List ConflictedField → Type 0
AreReal = All IsReal

AreReal-append : (cs ds : List ConflictedField) → AreReal cs → AreReal ds → AreReal (cs ++ ds)
AreReal-append [] ds h k = k
AreReal-append (c ∷ cs) ds h k = (h.0, AreReal-append cs ds h.1 k)

ne_of_value_eq : (a b : Value) → value_eq a b ≡ false → a ≢ b
ne_of_value_eq a b h e = let same = value_eq_refl b in let never = rw e at h in cc

some_ne : {a b : Value} → a ≢ b → some a ≢ some b
some_ne h e = h (some-injective _ _ e)

merge_scalar-AreReal : (a l r : Value) (path : Text) → AreReal (merge_scalar a l r path).1
unfolding merge_scalar
merge_scalar-AreReal a l r path = elim (Bool-cases (value_eq l a)) [
  | inl kept ↦ elim (Bool-cases (value_eq r a)) [
    | inl same ↦ rw (kept, same) tt
    | inr changed ↦ rw (kept, changed) tt
  ]
  | inr local_changed ↦ elim (Bool-cases (value_eq r a)) [
    | inl same ↦ rw (local_changed, same) tt
    | inr remote_changed ↦ elim (Bool-cases (value_eq l r)) [
      | inl equal ↦ rw (local_changed, remote_changed, equal) tt
      | inr apart ↦
          rw (local_changed, remote_changed, apart)
            (
              record {
                both = (l, r, refl, refl);
                apart = some_ne (ne_of_value_eq l r apart);
                local_changed = λ e. some_ne (ne_of_value_eq l a local_changed) (sym e);
                remote_changed = λ e. some_ne (ne_of_value_eq r a remote_changed) (sym e);
              },
              tt,
            )
    ]
  ]
]

-- What a merge of the local value gives, whatever it is merged with.
abbrev MergesReal : Value → Merger → Type 0
MergesReal l m = (a r : Value) (path : Text) → AreReal (m a r path).1

merge_entry-AreReal :
    (path : Text) (a : Option Value) (l : Option (Value × Merger)) (r : Option Value)
    → Each MergesReal l
    → AreReal (merge_entry path a l r).1
unfolding merge_entry
merge_entry-AreReal path none none none h = tt
merge_entry-AreReal path (some a) none none h = tt
merge_entry-AreReal path none (some (l, m)) none h = tt
merge_entry-AreReal path none none (some r) h = tt
merge_entry-AreReal path (some a) none (some r) h = elim (Bool-cases (value_eq r a)) [
  | inl same ↦ rw same tt
  | inr changed ↦ rw changed tt
]
merge_entry-AreReal path (some a) (some (l, m)) none h = elim (Bool-cases (value_eq l a)) [
  | inl same ↦ rw same tt
  | inr changed ↦ rw changed tt
]
merge_entry-AreReal path (some a) (some (l, m)) (some r) h = elim (Bool-cases (value_eq l a)) [
  | inl kept ↦ elim (Bool-cases (value_eq r a)) [
    | inl same ↦ rw (kept, same) tt
    | inr changed ↦ rw (kept, changed) tt
  ]
  | inr changed ↦ elim (Bool-cases (value_eq r a)) [
    | inl same ↦ rw (changed, same) tt
    | inr both ↦ rw (changed, both) (h a r path)
  ]
]
merge_entry-AreReal path none (some (l, m)) (some r) h = elim (Bool-cases (value_eq l r)) [
  | inl equal ↦ rw equal tt
  | inr apart ↦ rw apart (
    record {
      both = (l, r, refl, refl);
      apart = some_ne (ne_of_value_eq l r apart);
      local_changed = λ e. none-some e;
      remote_changed = λ e. none-some e;
    },
    tt,
  )
]

merge_keys-AreReal :
    (path : Text) (a : List (Text × Value)) (l : List (Text × (Value × Merger)))
    (r : List (Text × Value)) (ks : List Text)
    → All (λ e. MergesReal e.1.0 e.1.1) l
    → AreReal (merge_keys path a l r ks).1
unfolding merge_keys merge_key
merge_keys-AreReal path a l r [] h = tt
merge_keys-AreReal path a l r (k ∷ ks) h =
    AreReal-append (merge_key path a l r k).1 (merge_keys path a l r ks).1
      (merge_entry-AreReal (child_path path k) (lookup k a) (lookup k l) (lookup k r)
        (lookup-Each MergesReal k l h))
      (merge_keys-AreReal path a l r ks h)

merge_element-AreReal :
    (path : Text) (a : Value) (l : Option (Value × Merger)) (r : Option Value)
    → Each MergesReal l
    → AreReal (merge_element path a l r).1
unfolding merge_element
merge_element-AreReal path a none none h = tt
merge_element-AreReal path a (some (l, m)) none h = elim (Bool-cases (value_eq l a)) [
  | inl same ↦ rw same tt
  | inr changed ↦ rw changed tt
]
merge_element-AreReal path a none (some r) h = elim (Bool-cases (value_eq r a)) [
  | inl same ↦ rw same tt
  | inr changed ↦ rw changed tt
]
merge_element-AreReal path a (some (l, m)) (some r) h = h a r _

merge_shared-AreReal :
    (path : Text) (l : List (Value × Merger)) (r a : List Value)
    → All (λ e. MergesReal e.0 e.1) l
    → AreReal (merge_shared path l r a).1
unfolding merge_shared
merge_shared-AreReal path l r [] h = tt
merge_shared-AreReal path l r (av ∷ a) h =
    AreReal-append _ _
      (merge_element-AreReal path av (find_last local_id (id_of av) l)
        (find_last id_of (id_of av) r) (find_last-Each MergesReal (id_of av) l h))
      (merge_shared-AreReal path l r a h)

merge_from_index-AreReal :
    (path : Text) (rounds i : ℕ) (a : List Value) (l : List (Value × Merger)) (r : List Value)
    → All (λ e. MergesReal e.0 e.1) l
    → AreReal (merge_from_index path rounds i a l r).1
unfolding merge_from_index
merge_from_index-AreReal path zero i a l r h = tt
merge_from_index-AreReal path (suc rounds) i a [] r h =
    AreReal-append _ _ (merge_scalar-AreReal _ _ _ _)
      (merge_from_index-AreReal path rounds (suc i) _ [] _ tt)
merge_from_index-AreReal path (suc rounds) i a ((v, m) ∷ l) r h =
    AreReal-append _ _ (h.0 _ _ _) (merge_from_index-AreReal path rounds (suc i) _ l _ h.1)

merge_arrays-AreReal :
    (path : Text) (a : List Value) (l : List (Value × Merger)) (r : List Value)
    → All (λ e. MergesReal e.0 e.1) l
    → AreReal (merge_arrays path a l r).1
unfolding merge_arrays merge_arrays_by_id merge_arrays_by_index
merge_arrays-AreReal path a l r h =
    elim (Bool-cases (all has_id a && (all has_id (values l) && all has_id r))) [
      | inl named ↦ rw named (merge_shared-AreReal path l r a h)
      | inr plain ↦
          rw plain
            (merge_from_index-AreReal path (max (max (length a) (length l)) (length r)) 0 a l r h)
    ]

mutual
  unfolding merge_with merge_objects

  with_real : (l : Value) → MergesReal l (merge_with l)
  with_real (object l) (object a) (object r) path =
      merge_keys-AreReal path (fields a) (field_mergers l) (fields r) _ (fields_real l)
  with_real (array l) (array a) (array r) path =
      merge_arrays-AreReal path (items a) (item_mergers l) (items r) (items_real l)
  with_real l a r path = merge_scalar-AreReal a l r path

  fields_real : (fs : Fields) → All (λ e. MergesReal e.1.0 e.1.1) (field_mergers fs)
  fields_real end = tt
  fields_real (field k v fs) = (with_real v, fields_real fs)

  items_real : (vs : Items) → All (λ e. MergesReal e.0 e.1) (item_mergers vs)
  items_real nil = tt
  items_real (cons v vs) = (with_real v, items_real vs)

-- In every conflict of a merge both sides have a value, the two differ, and each differs from the
-- ancestor's.
pub merge_values-IsReal :
    (ancestor local remote : Value) (path : Text)
    → All IsReal (merge_values ancestor local remote path).1
unfolding merge_values
merge_values-IsReal ancestor local remote path = with_real local ancestor remote path
