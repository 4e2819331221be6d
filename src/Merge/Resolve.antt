-- ===== src/Merge/Resolve.antt =====
-- `resolve_conflicts` of crates/auru-pm-kernel/src/merge.rs: the paths of conflicts, read, and the
-- values at them, replaced.
use auru_pm_core.Json.{Value, array, object, get_field, as_str, fields, items, of_fields, of_items}
use auru_pm_core.Merge.{ConflictedField}
use auru_pm_core.Prelude.{
  ℕ, zero, suc, Text, codes, List, [], ◌∷◌, Option, some, none, Bool, if◌then◌else◌, text_eq,
  opt_text_eq, lookup, remove, length, take, drop, get_elem?, Result, ok, err, ensure, ◌>>=◌, ◌>>◌,
  ◌==◌, ◌||◌,
}
use auru_pm_core.Prelude.Order.{insert_entry}
use auru_pm_core.Prelude.Decimal.{parse_unsigned}

pub data ConflictChoice : Type 0 where
  local remote : ConflictChoice

pub data Segment : Type 0 where
  key : Text → Segment
  index : ℕ → Segment
  id : Text → Segment

-- The messages as constructors.
pub data ResolveError : Type 0 where
  invalid_path empty_path unavailable no_item no_index not_object not_array : ResolveError
  wrong_count : ℕ → ℕ → ResolveError
  out_of_fuel : ResolveError

abbrev pub usize_max : ℕ
usize_max = 18446744073709551615

-- `find` of the first character that passes: what is before it, and what it starts.
unfoldable pub split_at : (ℕ → Bool) → Text → Text × Text
split_at stop [] = ([], [])
split_at stop (c ∷ s) =
    let (before, after) = split_at stop s in if stop c then ([], c ∷ s) else (c ∷ before, after)

abbrev pub ends_key : ℕ → Bool
ends_key c = c == b'.' || c == b'['

abbrev pub ends_id : ℕ → Bool
ends_id c = c == b']'

abbrev pub key_or_index : Text → Option ℕ → Segment
key_or_index segment (some n) = index n
key_or_index segment none = key segment

abbrev pub push_segment :
    Segment → Result ResolveError (List Segment) → Result ResolveError (List Segment)
push_segment s (ok rest) = ok (s ∷ rest)
push_segment s (err e) = err e

-- The loop of `conflict_path_segments`, on what is behind the cursor.
unfoldable pub path_segments : ℕ → Text → Result ResolveError (List Segment)
unfolding split_at text_eq parse_unsigned
path_segments fuel [] = ok []
path_segments zero (c ∷ path) = err out_of_fuel
path_segments (suc fuel) (c ∷ path) =
    let skipped = path_segments fuel path in
    let (name, after) = split_at ends_id (drop 4 (c ∷ path)) in
    let behind_id = path_segments fuel (drop 1 after) in
    let (segment, rest) = split_at ends_key (c ∷ path) in
    let behind_key = path_segments fuel rest in
    if c == b'.'
    then skipped
    else if text_eq (take 4 (c ∷ path)) (codes "[id=")
    then (elim after [ [] ↦ err invalid_path | d ∷ _ ↦ push_segment (id name) behind_id ])
    else (elim segment [
      | [] ↦ err invalid_path
      | d ∷ ds ↦ push_segment (key_or_index (d ∷ ds) (parse_unsigned usize_max (d ∷ ds))) behind_key
    ])

-- Each round moves the cursor, so the length of the path is enough.
unfoldable pub conflict_path_segments : Text → Result ResolveError (List Segment)
unfolding path_segments
conflict_path_segments path = path_segments (length path) path

-- `*array.get_mut(i) = v`; an index out of range is none.
unfoldable pub set_item : ℕ → Value → List Value → Option (List Value)
set_item i v [] = none
set_item zero v (w ∷ ws) = some (v ∷ ws)
set_item (suc i) v (w ∷ ws) = elim (set_item i v ws) [ none ↦ none | some vs ↦ some (w ∷ vs) ]

-- `array.remove(i)`
unfoldable pub remove_item : ℕ → List Value → Option (List Value)
remove_item i [] = none
remove_item zero (w ∷ ws) = some ws
remove_item (suc i) (w ∷ ws) = elim (remove_item i ws) [ none ↦ none | some vs ↦ some (w ∷ vs) ]

abbrev pub next_position : Option ℕ → Option ℕ
next_position none = none
next_position (some i) = some (suc i)

-- `position` of the first element with an id.
unfoldable pub position_of : Text → List Value → Option ℕ
position_of name [] = none
position_of name (v ∷ vs) =
    let rest = next_position (position_of name vs) in
    if opt_text_eq (as_str (get_field v (codes "id"))) (some name) then some 0 else rest

abbrev pub array_or : ResolveError → Option (List Value) → Result ResolveError Value
array_or e none = err e
array_or e (some vs) = ok (array (of_items vs))

abbrev pub found_or {ℓ} : {A : Type ℓ} → ResolveError → Option A → Result ResolveError A
found_or e none = err e
found_or e (some a) = ok a

-- The last segment.
unfoldable pub set_last : Segment → Option Value → Value → Result ResolveError Value
unfolding insert_entry remove set_item remove_item position_of
set_last (key k) (some v) (object fs) = ok (object (of_fields (insert_entry k v (fields fs))))
set_last (key k) none (object fs) = ok (object (of_fields (remove k (fields fs))))
set_last (key k) replacement v = err not_object
set_last (index i) (some v) (array vs) = array_or no_index (set_item i v (items vs))
set_last (index i) none (array vs) = array_or no_index (remove_item i (items vs))
set_last (index i) (some v) w = err no_index
set_last (index i) none w = err not_array
set_last (id name) (some v) (array vs) = do
  i ← found_or no_item (position_of name (items vs))
  array_or no_item (set_item i v (items vs))
set_last (id name) none (array vs) = do
  i ← found_or no_item (position_of name (items vs))
  array_or no_item (remove_item i (items vs))
set_last (id name) (some v) w = err no_item
set_last (id name) none w = err not_array

-- A change of the child that a parent segment names, in its place.
unfoldable pub update_child :
    Segment → (Value → Result ResolveError Value) → Value → Result ResolveError Value
unfolding insert_entry set_item position_of lookup
update_child (key k) change (object fs) = do
  child ← found_or unavailable (lookup k (fields fs))
  child' ← change child
  ok (object (of_fields (insert_entry k child' (fields fs))))
update_child (key k) change v = err unavailable
update_child (index i) change (array vs) = do
  child ← found_or unavailable (get_elem? (items vs) i)
  child' ← change child
  array_or unavailable (set_item i child' (items vs))
update_child (index i) change v = err unavailable
update_child (id name) change (array vs) = do
  i ← found_or no_item (position_of name (items vs))
  child ← found_or no_item (get_elem? (items vs) i)
  child' ← change child
  array_or no_item (set_item i child' (items vs))
update_child (id name) change v = err no_item

unfoldable pub set_at : List Segment → Option Value → Value → Result ResolveError Value
unfolding set_last update_child
set_at [] replacement root = err empty_path
set_at (last ∷ []) replacement root = set_last last replacement root
set_at (s ∷ t ∷ segments) replacement root = update_child s (set_at (t ∷ segments) replacement) root

unfoldable pub set_conflicted_value : Text → Option Value → Value → Result ResolveError Value
unfolding conflict_path_segments set_at
set_conflicted_value path replacement root = do
  segments ← conflict_path_segments path
  set_at segments replacement root

-- The loop over the conflicts with their choices.
unfoldable pub apply_choices :
    List ConflictedField → List ConflictChoice → Value → Result ResolveError Value
unfolding set_conflicted_value
apply_choices (c ∷ conflicts) (remote ∷ choices) base = do
  base' ← set_conflicted_value c.path c.remote base
  apply_choices conflicts choices base'
apply_choices (c ∷ conflicts) (local ∷ choices) base = apply_choices conflicts choices base
apply_choices _ _ base = ok base

unfoldable pub resolve_conflicts :
    Value → List ConflictedField → List ConflictChoice → Result ResolveError Value
unfolding apply_choices
resolve_conflicts base conflicts choices = do
  ensure (length conflicts == length choices) (wrong_count (length conflicts) (length choices))
  apply_choices conflicts choices base
