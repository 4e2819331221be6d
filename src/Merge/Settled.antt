-- ===== src/Merge/Settled.antt =====
-- The merge of crates/auru-pm-kernel/src/merge.rs where both sides made the same change.
use mathlib.Core.Option
use auru_pm_core.Json.{
  Value, Items, Fields, null, array, object, nil, cons, end, field, value_eq, fields, items,
}
use auru_pm_core.Json.Equality.{value_eq_refl}
use auru_pm_core.Merge.{
  ConflictedField, Merger, merge_scalar, merge_entry, merge_key, merge_keys, merge_objects,
  merge_element, merge_shared, merge_arrays_by_id, merge_from_index, merge_arrays_by_index,
  merge_arrays, merge_with, field_mergers, item_mergers, child_path, find_last, id_of, values,
  has_id, merge_values, next_value, index_path,
}
use auru_pm_core.Merge.Tables.{
  Each, lookup-Each, find_last-Each, lookup-field_mergers, find_last-item_mergers,
}
use auru_pm_core.Prelude.{
  Text, List, [], ◌∷◌, Option, some, none, All, ◌≡◌, ℕ, ◌++◌, Bool-cases, lookup, refl, suc, all,
  zero, inl, ◌&&◌, inr,
}

-- Against the same value on the other side, a local value merges with no conflict.
abbrev Settles : Value → Merger → Type 0
Settles l m = (a : Value) (path : Text) → (m a l path).1 ≡ []

abbrev with_merge : Value → Value × Merger
with_merge v = (v, merge_with v)

settled_append : (cs ds : List ConflictedField) → cs ≡ [] → ds ≡ [] → cs ++ ds ≡ []
settled_append cs ds e d = rw (e, d) refl

merge_scalar_settles : (a v : Value) (path : Text) → (merge_scalar a v v path).1 ≡ []
unfolding merge_scalar
merge_scalar_settles a v path = elim (Bool-cases (value_eq v a)) [
  | inl same ↦ rw same refl
  | inr changed ↦ rw (changed, value_eq_refl v) refl
]

merge_entry-Settles :
    (path : Text) (a o : Option Value)
    → Each Settles (Option.map with_merge o)
    → (merge_entry path a (Option.map with_merge o) o).1 ≡ []
unfolding merge_entry
merge_entry-Settles path none none h = refl
merge_entry-Settles path (some a) none h = refl
merge_entry-Settles path none (some v) h = rw (value_eq_refl v) refl
merge_entry-Settles path (some a) (some v) h = elim (Bool-cases (value_eq v a)) [
  | inl same ↦ rw same refl
  | inr changed ↦ rw changed (h a path)
]

merge_keys-Settles :
    (path : Text) (a : List (Text × Value)) (fs : Fields) (ks : List Text)
    → All (λ e. Settles e.1.0 e.1.1) (field_mergers fs)
    → (merge_keys path a (field_mergers fs) (fields fs) ks).1 ≡ []
unfolding merge_keys merge_key
merge_keys-Settles path a fs [] h = refl
merge_keys-Settles path a fs (k ∷ ks) h =
    let found = lookup-Each Settles k (field_mergers fs) h in
    rw (lookup-field_mergers k fs) (
      settled_append _ _
        (merge_entry-Settles (child_path path k) (lookup k a) (lookup k (fields fs))
          (rw (lookup-field_mergers k fs) at found))
        (merge_keys-Settles path a fs ks h))

merge_element-Settles :
    (path : Text) (a : Value) (o : Option Value)
    → Each Settles (Option.map with_merge o)
    → (merge_element path a (Option.map with_merge o) o).1 ≡ []
unfolding merge_element
merge_element-Settles path a none h = refl
merge_element-Settles path a (some v) h = h a _

merge_shared-Settles :
    (path : Text) (vs : Items) (a : List Value)
    → All (λ e. Settles e.0 e.1) (item_mergers vs)
    → (merge_shared path (item_mergers vs) (items vs) a).1 ≡ []
unfolding merge_shared
merge_shared-Settles path vs [] h = refl
merge_shared-Settles path vs (av ∷ a) h =
    let found = find_last-Each Settles (id_of av) (item_mergers vs) h in
    rw (find_last-item_mergers (id_of av) vs) (
      settled_append _ _
        (merge_element-Settles path av (find_last id_of (id_of av) (items vs))
          (rw (find_last-item_mergers (id_of av) vs) at found))
        (merge_shared-Settles path vs a h))

merge_from_index-Settles :
    (path : Text) (rounds i : ℕ) (a : List Value) (vs : Items)
    → All (λ e. Settles e.0 e.1) (item_mergers vs)
    → (merge_from_index path rounds i a (item_mergers vs) (items vs)).1 ≡ []
unfolding merge_from_index item_mergers
merge_from_index-Settles path zero i a vs h = refl
merge_from_index-Settles path (suc rounds) i a nil h =
    settled_append _ _ (merge_scalar_settles (next_value a).0 null (index_path path i))
      (merge_from_index-Settles path rounds (suc i) (next_value a).1 nil tt)
merge_from_index-Settles path (suc rounds) i a (cons v vs) h =
    settled_append _ _ (h.0 (next_value a).0 (index_path path i))
      (merge_from_index-Settles path rounds (suc i) (next_value a).1 vs h.1)

merge_arrays-Settles :
    (path : Text) (a : List Value) (vs : Items)
    → All (λ e. Settles e.0 e.1) (item_mergers vs)
    → (merge_arrays path a (item_mergers vs) (items vs)).1 ≡ []
unfolding merge_arrays merge_arrays_by_id merge_arrays_by_index
merge_arrays-Settles path a vs h =
    elim (Bool-cases
      (all has_id a && (all has_id (values (item_mergers vs)) && all has_id (items vs)))) [
        | inl named ↦ rw named (merge_shared-Settles path vs a h)
        | inr other ↦ rw other (merge_from_index-Settles path _ 0 a vs h)
      ]

mutual
  unfolding merge_with merge_objects

  with-Settles : (l : Value) → Settles l (merge_with l)
  with-Settles (object l) (object a) path = merge_keys-Settles path (fields a) l _ (fields_settle l)
  with-Settles (array l) (array a) path = merge_arrays-Settles path (items a) l (items_settle l)
  with-Settles l a path = merge_scalar_settles a l path

  fields_settle : (fs : Fields) → All (λ e. Settles e.1.0 e.1.1) (field_mergers fs)
  fields_settle end = tt
  fields_settle (field k v fs) = (with-Settles v, fields_settle fs)

  items_settle : (vs : Items) → All (λ e. Settles e.0 e.1) (item_mergers vs)
  items_settle nil = tt
  items_settle (cons v vs) = (with-Settles v, items_settle vs)

-- Two sides that are the same value have no conflicts, whatever the ancestor is.
pub merge_values_settles :
    (ancestor both : Value) (path : Text) → (merge_values ancestor both both path).1 ≡ []
unfolding merge_values
merge_values_settles ancestor both path = with-Settles both ancestor path
