-- ===== src/Merge.antt =====
-- The three-way merge of crates/auru-pm-kernel/src/merge.rs. `merge_values` goes down all three
-- values at once; here it recurs on the local one, each part of which comes with its own merge.
pub mod Tables
pub mod Real
pub mod Keys
pub mod Mirror
pub mod Settled
pub mod Unchanged
pub mod Resolve
pub mod Paths
pub mod Choices
pub mod Rounds
use auru_pm_core.Json.{
  Value, Items, Fields, null, array, object, nil, cons, end, field, value_eq, get_field, as_str,
  fields, items, of_fields, of_items,
}
use auru_pm_core.Prelude.{
  ℕ, zero, suc, max, Text, codes, List, [], ◌∷◌, ◌++◌, Option, some, none, Bool, true, false, not,
  ◌&&◌, if◌then◌else◌, text_eq, lookup, map, all, length, is_some, ◌+◌,
}
use auru_pm_core.Prelude.Order.{text_ltb}
use auru_pm_core.Prelude.Decimal.{decimal}

pub record ConflictedField : Type 0 where
  pub path : Text
  pub ancestor : Option Value
  pub local : Option Value
  pub remote : Option Value

pub data MergeOutcome : Type 0 where
  clean : Value → MergeOutcome
  conflict : Value → List ConflictedField → MergeOutcome

-- A merged part with the conflicts that are pushed for it.
abbrev pub Merged : Type 0 → Type 0
Merged A = A × List ConflictedField

-- The merge of one local value with an ancestor and a remote, at a path.
abbrev pub Merger : Type 0
Merger = Value → Value → Text → Merged Value

abbrev pub child_path : Text → Text → Text
child_path [] key = key
child_path (c ∷ parent) key = (c ∷ parent) ++ (b'.' ∷ key)

abbrev pub index_path : Text → ℕ → Text
index_path path i = path ++ (b'.' ∷ decimal i)

abbrev pub id_path : Text → Text → Text
id_path path id = path ++ (codes "[id=" ++ (id ++ codes "]"))

unfoldable pub merge_scalar : Value → Value → Value → Text → Merged Value
merge_scalar ancestor local remote path =
    if value_eq local ancestor
    then (if value_eq remote ancestor then (ancestor, []) else (remote, []))
    else if value_eq remote ancestor
    then (local, [])
    else if value_eq local remote
    then (local, [])
    else (
      local,
      record { path = path; ancestor = some ancestor; local = some local; remote = some remote }
          ∷ [],
    )

-- One key of `merge_objects`, at the path of the child.
unfoldable pub merge_entry :
    Text → Option Value → Option (Value × Merger) → Option Value → Merged (Option Value)
merge_entry path a none none = (none, [])
merge_entry path none (some (l, m)) none = (some l, [])
merge_entry path none none (some r) = (some r, [])
merge_entry path (some a) none (some r) = if value_eq r a then (none, []) else (some r, [])
merge_entry path (some a) (some (l, m)) none = if value_eq l a then (none, []) else (some l, [])
merge_entry path (some a) (some (l, m)) (some r) =
    if value_eq l a
    then (if value_eq r a then (some a, []) else (some r, []))
    else if value_eq r a
    then (some l, [])
    else (some (m a r path).0, (m a r path).1)
merge_entry path none (some (l, m)) (some r) =
    if value_eq l r
    then (some l, [])
    else (some l, record { path = path; ancestor = none; local = some l; remote = some r } ∷ [])

-- `BTreeSet::insert`
unfoldable pub insert_key : Text → List Text → List Text
insert_key k [] = k ∷ []
insert_key k (j ∷ ks) =
    let rest = insert_key k ks in
    if text_eq k j then j ∷ ks else if text_ltb k j then k ∷ j ∷ ks else j ∷ rest

unfoldable pub insert_keys {ℓ} : {A : Type ℓ} → List (Text × A) → List Text → List Text
unfolding insert_key
insert_keys [] ks = ks
insert_keys ((k, v) ∷ m) ks = insert_keys m (insert_key k ks)

abbrev pub put_some : Text → Option Value → List (Text × Value) → List (Text × Value)
put_some k none out = out
put_some k (some v) out = (k, v) ∷ out

module _ (path : Text) (a : List (Text × Value)) (l : List (Text × (Value × Merger)))
    (r : List (Text × Value)) where
  unfoldable pub merge_key : Text → Merged (Option Value)
  unfolding merge_entry
  merge_key k = merge_entry (child_path path k) (lookup k a) (lookup k l) (lookup k r)

  -- The keys come in order, so each insertion into the map is at its end.
  unfoldable pub merge_keys : List Text → Merged (List (Text × Value))
  unfolding merge_key
  merge_keys [] = ([], [])
  merge_keys (k ∷ ks) =
      (put_some k (merge_key k).0 (merge_keys ks).0, (merge_key k).1 ++ (merge_keys ks).1)

  unfoldable pub merge_objects : Merged Value
  unfolding merge_keys insert_keys
  merge_objects =
      let (out, conflicts) = merge_keys (insert_keys r (insert_keys l (insert_keys a []))) in
      (object (of_fields out), conflicts)

-- `all_have_id`, and `id_of` with the empty text for a value that has none.
abbrev pub has_id : Value → Bool
has_id v = is_some (as_str (get_field v (codes "id")))

abbrev pub text_or_empty : Option Text → Text
text_or_empty none = []
text_or_empty (some s) = s

abbrev pub id_of : Value → Text
id_of v = text_or_empty (as_str (get_field v (codes "id")))

-- A map collected from pairs keeps the last of the pairs with one key.
unfoldable pub find_last {ℓ} : {A : Type ℓ} → (A → Text) → Text → List A → Option A
find_last name id [] = none
find_last name id (x ∷ xs) = elim (find_last name id xs) [
  | some y ↦ some y
  | none ↦ if text_eq (name x) id then some x else none
]

abbrev pub local_id : Value × Merger → Text
local_id (l, m) = id_of l

-- An element of the ancestor in the first pass of `merge_arrays_by_id`.
unfoldable pub merge_element :
    Text → Value → Option (Value × Merger) → Option Value → Merged (Option Value)
merge_element path a none none = (none, [])
merge_element path a (some (l, m)) none = if value_eq l a then (none, []) else (some l, [])
merge_element path a none (some r) = if value_eq r a then (none, []) else (some r, [])
merge_element path a (some (l, m)) (some r) =
    (some (m a r (id_path path (id_of a))).0, (m a r (id_path path (id_of a))).1)

abbrev pub push_some : Option Value → List Value → List Value
push_some none out = out
push_some (some v) out = v ∷ out

abbrev pub values : List (Value × Merger) → List Value
values [] = []
values ((l, m) ∷ ls) = l ∷ values ls

-- The values whose id is not among those of `known`.
unfoldable pub additions : List Value → List Value → List Value
unfolding find_last
additions known [] = []
additions known (v ∷ vs) =
    let rest = additions known vs in
    if is_some (find_last id_of (id_of v) known) then rest else v ∷ rest

module _ (path : Text) (l : List (Value × Merger)) (r : List Value) where
  unfoldable pub merge_shared : List Value → Merged (List Value)
  unfolding merge_element find_last
  merge_shared [] = ([], [])
  merge_shared (av ∷ a) =
      let (kept, here) =
        merge_element path av (find_last local_id (id_of av) l) (find_last id_of (id_of av) r) in
      let (out, later) = merge_shared a in (push_some kept out, here ++ later)

  unfoldable pub merge_arrays_by_id : List Value → Merged Value
  unfolding merge_shared additions
  merge_arrays_by_id a =
      let (out, conflicts) = merge_shared a in
      (array (of_items (out ++ (additions a (values l) ++ additions (a ++ values l) r))), conflicts)

-- `get(i).unwrap_or(&null)` of the next element, and what is behind it.
abbrev pub next_value : List Value → Value × List Value
next_value [] = (null, [])
next_value (v ∷ vs) = (v, vs)

abbrev pub merge_null : Merger
merge_null a r path = merge_scalar a null r path

abbrev pub next_local : List (Value × Merger) → (Value × Merger) × List (Value × Merger)
next_local [] = ((null, merge_null), [])
next_local (x ∷ l) = (x, l)

-- The loop of `merge_arrays_by_index`, from the index `i`.
unfoldable pub merge_from_index :
    Text → ℕ → ℕ → List Value → List (Value × Merger) → List Value → Merged (List Value)
merge_from_index path zero i a l r = ([], [])
merge_from_index path (suc rounds) i a l r =
    let (av, a') = next_value a in
    let ((lv, m), l') = next_local l in
    let (rv, r') = next_value r in
    let (v, here) = m av rv (index_path path i) in
    let (out, later) = merge_from_index path rounds (suc i) a' l' r' in (v ∷ out, here ++ later)

unfoldable pub merge_arrays_by_index :
    Text → List Value → List (Value × Merger) → List Value → Merged Value
unfolding merge_from_index
merge_arrays_by_index path a l r =
    let (out, conflicts) =
      merge_from_index path (max (max (length a) (length l)) (length r)) 0 a l r in
    (array (of_items out), conflicts)

unfoldable pub merge_arrays : Text → List Value → List (Value × Merger) → List Value → Merged Value
unfolding merge_arrays_by_id merge_arrays_by_index
merge_arrays path a l r =
    if all has_id a && (all has_id (values l) && all has_id r)
    then merge_arrays_by_id path l r a
    else merge_arrays_by_index path a l r

unfoldable mutual
  unfolding merge_scalar merge_objects merge_arrays

  pub merge_with : Value → Value → Value → Text → Merged Value
  merge_with (object l) (object a) (object r) path =
      merge_objects path (fields a) (field_mergers l) (fields r)
  merge_with (array l) (array a) (array r) path =
      merge_arrays path (items a) (item_mergers l) (items r)
  merge_with l a r path = merge_scalar a l r path

  pub field_mergers : Fields → List (Text × (Value × Merger))
  field_mergers end = []
  field_mergers (field k v fs) = (k, (v, merge_with v)) ∷ field_mergers fs

  pub item_mergers : Items → List (Value × Merger)
  item_mergers nil = []
  item_mergers (cons v vs) = (v, merge_with v) ∷ item_mergers vs

unfoldable pub merge_values : Value → Value → Value → Text → Merged Value
unfolding merge_with
merge_values ancestor local remote path = merge_with local ancestor remote path

abbrev pub outcome_of : Merged Value → MergeOutcome
outcome_of (merged, []) = clean merged
outcome_of (merged, c ∷ conflicts) = conflict merged (c ∷ conflicts)

unfoldable pub merge3 : Value → Value → Value → MergeOutcome
unfolding merge_values
merge3 ancestor local remote = outcome_of (merge_values ancestor local remote [])
