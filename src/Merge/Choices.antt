-- ===== src/Merge/Choices.antt =====
-- What `resolve_conflicts` of crates/auru-pm-kernel/src/merge.rs does to a value: the choices that
-- change nothing, and the values it puts in place.
use auru_pm_core.Merge.Paths.{IsPlain, path_from, conflict_path_segments-path_from}
use auru_pm_core.Prelude.{
  List, ℕ, Text, ◌≡◌, length, map, Option, get_elem?, ◌≢◌, ◌∷◌, ok, some, [], ap, lookup, none-some,
  ==_refl, suc, refl, zero, Result, Option-cases, inl, inr, All,
}
use auru_pm_core.Prelude.{some, none, Option}
use auru_pm_core.Prelude.Order.{insert_entry, lookup-insert_entry_self}
use auru_pm_core.Json.{Value, array, object, fields, items, of_fields, of_items}
use auru_pm_core.Merge.{ConflictedField}
use auru_pm_core.Merge.Resolve.{
  Segment, key, index, local, remote, resolve_conflicts, apply_choices, set_item, set_at,
  update_child, set_last, ConflictChoice, ResolveError, set_conflicted_value,
}

fields-of_fields : (m : List (Text × Value)) → fields (of_fields m) ≡ m
fields-of_fields [] = refl
fields-of_fields ((k, v) ∷ m) = ap (λ r. (k, v) ∷ r) (fields-of_fields m)

items-of_items : (vs : List Value) → items (of_items vs) ≡ vs
items-of_items [] = refl
items-of_items (v ∷ vs) = ap (λ r. v ∷ r) (items-of_items vs)

abbrev all_local : List ConflictedField → List ConflictChoice
all_local = map (λ c. local)

apply_choices_local :
    (conflicts : List ConflictedField) (base : Value)
    → apply_choices conflicts (all_local conflicts) base ≡ ok base
unfolding apply_choices
apply_choices_local [] base = refl
apply_choices_local (c ∷ conflicts) base = apply_choices_local conflicts base

length-all_local : (cs : List ConflictedField) → length (all_local cs) ≡ length cs
length-all_local [] = refl
length-all_local (c ∷ cs) = ap suc (length-all_local cs)

-- Local choices.
pub resolve_conflicts_local :
    (base : Value) (conflicts : List ConflictedField)
    → resolve_conflicts base conflicts (map (λ c. local) conflicts) ≡ ok base
unfolding resolve_conflicts
resolve_conflicts_local base conflicts =
    rw (length-all_local conflicts, ==_refl (length conflicts)) (apply_choices_local conflicts base)

-- The value that a key or an index leads to.
unfoldable pub child_of : Segment → Value → Option Value
unfolding lookup
child_of (key k) (object fs) = lookup k (fields fs)
child_of (index i) (array vs) = get_elem? (items vs) i
child_of _ _ = none

-- The value at some steps down that are keys and indices.
unfoldable pub get_at : List Segment → Value → Option Value
unfolding child_of
get_at [] v = some v
get_at (s ∷ segments) v = elim (child_of s v) [ none ↦ none | some u ↦ get_at segments u ]

get_elem?-set_item :
    (i : ℕ) (v w : Value) (vs : List Value)
    → get_elem? vs i ≡ some w
    → (us : List Value) × ((set_item i v vs ≡ some us) × (get_elem? us i ≡ some v))
unfolding set_item
get_elem?-set_item i v w [] e = absurd (none-some e)
get_elem?-set_item zero v w (u ∷ vs) e = (v ∷ vs, (refl, refl))
get_elem?-set_item (suc i) v w (u ∷ vs) e =
    let (us, (set, got)) = get_elem?-set_item i v w vs e in (u ∷ us, (rw set refl, got))

IsPut : Segment → Value → Result ResolveError Value → Type 0
IsPut s v result = (root : Value) × ((result ≡ ok root) × (child_of s root ≡ some v))

child_of-set_last :
    (s : Segment) (v w root : Value)
    → child_of s root ≡ some w
    → IsPut s v (set_last s (some v) root)
unfolding IsPut child_of set_last
child_of-set_last (key k) v w (object fs) e = (
  _,
  (refl, rw (fields-of_fields (insert_entry k v (fields fs))) (lookup-insert_entry_self k v _)),
)
child_of-set_last (index i) v w (array vs) e =
    let (us, (put, got)) = get_elem?-set_item i v w (items vs) e in
    (array (of_items us), (rw put refl, rw (items-of_items us) got))
child_of-set_last _ v w root e = absurd (none-some e)

child_of-update_child :
    (s : Segment) (change : Value → Result ResolveError Value) (v w root : Value)
    → child_of s root ≡ some w
    → change w ≡ ok v
    → IsPut s v (update_child s change root)
unfolding IsPut child_of update_child
child_of-update_child (key k) change v w (object fs) e changed = (
  object (of_fields (insert_entry k v (fields fs))),
  (
    rw (e, changed) refl,
    rw (fields-of_fields (insert_entry k v (fields fs))) (lookup-insert_entry_self k v _),
  ),
)
child_of-update_child (index i) change v w (array vs) e changed =
    let (us, (put, got)) = get_elem?-set_item i v w (items vs) e in
    (array (of_items us), (rw (e, changed, put) refl, rw (items-of_items us) got))
child_of-update_child _ change v w root e changed = absurd (none-some e)

-- What is put at a place that is there is found there again.
pub get_at-set_at :
    (segments : List Segment) (v w root : Value)
    → segments ≢ []
    → get_at segments root ≡ some w
    → (root' : Value) × ((set_at segments (some v) root ≡ ok root')
        × (get_at segments root' ≡ some v))
unfolding set_at get_at IsPut
get_at-set_at [] v w root ne e = absurd (ne refl)
get_at-set_at (s ∷ []) v w root ne e = elim (Option-cases (child_of s root)) [
  | inl missing ↦ absurd (none-some (rw (get_at, missing) at e))
  | inr (u, found) ↦
      let (root', (put, got)) = child_of-set_last s v u root found in
      (root', (put, rw (get_at, got) refl))
]
get_at-set_at (s ∷ t ∷ segments) v w root ne e = elim (Option-cases (child_of s root)) [
  | inl missing ↦ absurd (none-some (rw (get_at, missing) at e))
  | inr (u, found) ↦
      let (u', (changed, there)) =
        get_at-set_at (t ∷ segments) v w u (λ d. cc) (rw (get_at, found) at e) in
      let (root', (put, got)) =
        child_of-update_child s (set_at (t ∷ segments) (some v)) u' u root found changed in
      (root', (put, rw (get_at, got) there))
]

-- If a conflict's path is what the merge writes for steps by plain keys and by indices, at least
-- one of them, and the base has a value there, then choosing the remote value of the conflict
-- gives a value that has it at the end of those steps.
pub resolve_conflicts_remote :
    (base : Value) (c : ConflictedField) (segments : List Segment) (v w : Value)
    → All IsPlain segments
    → segments ≢ []
    → c.path ≡ path_from [] segments
    → c.remote ≡ some v
    → get_at segments base ≡ some w
    → (merged : Value) × ((resolve_conflicts base (c ∷ []) (remote ∷ []) ≡ ok merged)
        × (get_at segments merged ≡ some v))
unfolding resolve_conflicts apply_choices set_conflicted_value
resolve_conflicts_remote base c segments v w plain ne at_path chosen there =
    let (merged, (put, got)) = get_at-set_at segments v w base ne there in
    (merged, (rw (at_path, chosen, conflict_path_segments-path_from segments plain, put) refl, got))
