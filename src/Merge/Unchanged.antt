-- ===== src/Merge/Unchanged.antt =====
-- The merge of crates/auru-pm-kernel/src/merge.rs where one side left an object as it was.
use mathlib.Core.Path.{subst}
use mathlib.Core.Option
use auru_pm_core.Json.{Value, Fields, object, end, field, value_eq, fields, of_fields}
use auru_pm_core.Json.Equality.{value_eq_refl, eq_of_value_eq}
use auru_pm_core.Merge.{
  Merger, clean, merge_entry, merge_key, merge_keys, merge_objects, merge_with, field_mergers,
  put_some, insert_key, insert_keys, merge3, outcome_of,
}
use auru_pm_core.Merge.Tables.{lookup-field_mergers, insert_keys-field_mergers}
use auru_pm_core.Merge.Keys.{insert_keys_comm, below, same, above, compare_texts}
use auru_pm_core.Prelude.{
  Text, List, [], ◌∷◌, Option, some, none, true, false, All, contains, ◌≡◌, text_eq_refl, lookup,
  if◌then◌else◌, arith, refl, text_eq, text_eq_iff, ap, All-map, Bool-cases, inl, inr,
}
use auru_pm_core.Prelude.Order.{text_ltb, text_ltb_trans, text_ltb_irrefl, ltb-ne}

abbrev Above : Text → List Text → Type 0
Above k = All (λ j. text_ltb k j ≡ true)

abbrev Ascending : List Text → Type 0
Ascending [] = Unit
Ascending (k ∷ ks) = Above k ks × Ascending ks

abbrev keys : List (Text × Value) → List Text
keys [] = []
keys ((k, v) ∷ m) = k ∷ keys m

-- The keys of an object are in their order, each once.
abbrev pub HasOrderedKeys : Fields → Type 0
HasOrderedKeys fs = Ascending (keys (fields fs))

Above-trans : (j k : Text) (ks : List Text) → text_ltb j k ≡ true → Above k ks → Above j ks
Above-trans j k [] h a = tt
Above-trans j k (i ∷ ks) h a = (text_ltb_trans j k i h a.0, Above-trans j k ks h a.1)

insert_key-Above :
    (i k : Text) (ks : List Text) → text_ltb i k ≡ true → Above i ks → Above i (insert_key k ks)
unfolding insert_key
insert_key-Above i k [] h a = (h, tt)
insert_key-Above i k (j ∷ ks) h a = elim (compare_texts k j) [
  | same e ↦ rw (e, text_eq_refl j) a
  | below lt ne ne' ge ↦ rw (ne, lt) (h, a)
  | above gt ne ne' le ↦ rw (ne, le) (a.0, insert_key-Above i k ks h a.1)
]

insert_key-Ascending : (k : Text) (ks : List Text) → Ascending ks → Ascending (insert_key k ks)
unfolding insert_key
insert_key-Ascending k [] a = (tt, tt)
insert_key-Ascending k (j ∷ ks) a = elim (compare_texts k j) [
  | same e ↦ rw (e, text_eq_refl j) a
  | below lt ne ne' ge ↦ rw (ne, lt) ((lt, Above-trans k j ks lt a.0), a)
  | above gt ne ne' le ↦ rw (ne, le) (insert_key-Above j k ks gt a.0, insert_key-Ascending k ks a.1)
]

insert_keys-Ascending {ℓ} :
    {A : Type ℓ} (m : List (Text × A)) (ks : List Text)
    → Ascending ks
    → Ascending (insert_keys m ks)
unfolding insert_keys
insert_keys-Ascending [] ks a = a
insert_keys-Ascending ((k, v) ∷ m) ks a =
    insert_keys-Ascending m (insert_key k ks) (insert_key-Ascending k ks a)

contains-insert_key :
    (k j : Text) (ks : List Text)
    → contains (insert_key k ks) j ≡ (if text_eq k j then true else contains ks j)
unfolding insert_key
contains-insert_key k j [] = refl
contains-insert_key k j (i ∷ ks) =
    ground (arith, contains-insert_key k j ks, text_eq_iff k i, text_eq_iff k j, text_eq_iff i j)

-- Inserting more keys loses none.
insert_keys-contains {ℓ} :
    {A : Type ℓ} (m : List (Text × A)) (ks : List Text) (j : Text)
    → contains ks j ≡ true
    → contains (insert_keys m ks) j ≡ true
unfolding insert_keys
insert_keys-contains [] ks j h = h
insert_keys-contains ((k, v) ∷ m) ks j h =
    insert_keys-contains m (insert_key k ks) j (rw (contains-insert_key k j ks, h) (ground arith))

insert_keys_own :
    (fs : Fields) (ks : List Text)
    → All (λ k. contains (insert_keys (fields fs) ks) k ≡ true) (keys (fields fs))
unfolding insert_keys
insert_keys_own end ks = tt
insert_keys_own (field k v fs) ks = (
  insert_keys-contains (fields fs) (insert_key k ks) k
      (rw (contains-insert_key k k ks, text_eq_refl k) refl),
  insert_keys_own fs (insert_key k ks),
)

-- The entries of a map at some keys.
pick : List Text → List (Text × Value) → List (Text × Value)
pick [] m = []
pick (k ∷ ks) m = put_some k (lookup k m) (pick ks m)

lookup-below : (j : Text) (m : List (Text × Value)) → Above j (keys m) → lookup j m ≡ none
unfolding lookup
lookup-below j [] a = refl
lookup-below j ((k, v) ∷ m) a = elim (compare_texts j k) [
  | below lt ne ne' ge ↦ rw ne' (lookup-below j m a.1)
  | same e ↦ let never = rw (e, text_ltb_irrefl k) at a.0 in cc
  | above gt ne ne' le ↦ let never = rw le at a.0 in cc
]

pick-nil : (ks : List Text) → pick ks [] ≡ []
unfolding pick lookup
pick-nil [] = refl
pick-nil (k ∷ ks) = pick-nil ks

-- Keys above the first are looked up behind it.
pick-behind :
    (ks : List Text) (k : Text) (v : Value) (m : List (Text × Value))
    → Above k ks
    → pick ks ((k, v) ∷ m) ≡ pick ks m
unfolding pick lookup
pick-behind [] k v m a = refl
pick-behind (j ∷ ks) k v m a = rw (ltb-ne k j a.0, pick-behind ks k v m a.1) refl

contains-behind :
    (j : Text) (ks hs : List Text)
    → Above j hs
    → All (λ k. contains (j ∷ ks) k ≡ true) hs
    → All (λ k. contains ks k ≡ true) hs
contains-behind j ks [] a h = tt
contains-behind j ks (k ∷ hs) a h = (rw (ltb-ne j k a.0) at h.0, contains-behind j ks hs a.1 h.1)

not_contained : (k : Text) (ks : List Text) → Above k ks → contains ks k ≡ false
not_contained k [] a = refl
not_contained k (j ∷ ks) a = elim (compare_texts k j) [
  | below lt ne ne' ge ↦ rw ne' (not_contained k ks a.1)
  | same e ↦ let never = rw (e, text_ltb_irrefl j) at a.0 in cc
  | above gt ne ne' le ↦ let never = rw le at a.0 in cc
]

lookup_first : (k : Text) (v : Value) (m : List (Text × Value)) → lookup k ((k, v) ∷ m) ≡ some v
unfolding lookup
lookup_first k v m = rw (text_eq_refl k) refl

pick-All :
    (ks : List Text) (m : List (Text × Value))
    → Ascending ks
    → Ascending (keys m)
    → All (λ k. contains ks k ≡ true) (keys m)
    → pick ks m ≡ m
unfolding pick
pick-All ks [] a o h = pick-nil ks
pick-All [] ((k, v) ∷ m) a o h = cc
pick-All (j ∷ ks) ((k, v) ∷ m) a o h = elim (compare_texts j k) [
  | below lt ne ne' ge ↦ rw (lookup-below j ((k, v) ∷ m) (lt, Above-trans j k (keys m) lt o.0)) (
      pick-All ks ((k, v) ∷ m) a.1 o
        (contains-behind j ks (k ∷ keys m) (lt, Above-trans j k (keys m) lt o.0) h))
  | same e ↦
      let above_k : Above k ks = rw e at a.0 in
      let kept : All (λ i. contains (k ∷ ks) i ≡ true) (keys m) =
        subst (λ i. All (λ n. contains (i ∷ ks) n ≡ true) (keys m)) e h.1 in
      rw (e, lookup_first k v m, pick-behind ks k v m above_k)
        (ap (λ r. (k, v) ∷ r) (pick-All ks m a.1 o.1 (contains-behind k ks (keys m) o.0 kept)))
  | above gt ne ne' le ↦
      let never = not_contained k (j ∷ ks) (gt, Above-trans k j ks gt a.0) in
      let there = h.0 in let clash = rw never at there in cc
]

of_fields-fields : (fs : Fields) → of_fields (fields fs) ≡ fs
of_fields-fields end = refl
of_fields-fields (field k v fs) = ap (field k v) (of_fields-fields fs)

-- The keys of the merge with all entries of `fs` at them.
pick-insert_keys :
    (fs : Fields) (before after : List (Text × Value))
    → HasOrderedKeys fs
    → pick (insert_keys after (insert_keys (fields fs) (insert_keys before []))) (fields fs)
      ≡ fields fs
pick-insert_keys fs before after o =
    pick-All _ (fields fs)
      (insert_keys-Ascending after _
        (insert_keys-Ascending (fields fs) _ (insert_keys-Ascending before [] tt)))
      o
      (All-map (keys (fields fs)) (λ k h. insert_keys-contains after _ k h)
        (insert_keys_own fs (insert_keys before [])))

module _ (path : Text) (a r target : List (Text × Value)) where
  merge_keys-pick :
      (table : List (Text × (Value × Merger))) (ks : List Text)
      → ((k : Text) → merge_key path a table r k ≡ (lookup k target, []))
      → merge_keys path a table r ks ≡ (pick ks target, [])
  unfolding merge_keys pick
  merge_keys-pick table [] h = refl
  merge_keys-pick table (k ∷ ks) h = rw (h k, merge_keys-pick table ks h) refl

abbrev with_merge : Value → Value × Merger
with_merge v = (v, merge_with v)

-- An entry where the remote side is as the ancestor, or the local one.
merge_entry-remote :
    (path : Text) (a l : Option Value) → merge_entry path a (Option.map with_merge l) a ≡ (l, [])
unfolding merge_entry
merge_entry-remote path none none = refl
merge_entry-remote path none (some l) = refl
merge_entry-remote path (some a) none = rw (value_eq_refl a) refl
merge_entry-remote path (some a) (some l) = elim (Bool-cases (value_eq l a)) [
  | inl equal ↦ rw (equal, value_eq_refl a, eq_of_value_eq l a equal) refl
  | inr changed ↦ rw (changed, value_eq_refl a) refl
]

merge_entry-local :
    (path : Text) (a r : Option Value) → merge_entry path a (Option.map with_merge a) r ≡ (r, [])
unfolding merge_entry
merge_entry-local path none none = refl
merge_entry-local path none (some r) = refl
merge_entry-local path (some a) none = rw (value_eq_refl a) refl
merge_entry-local path (some a) (some r) = elim (Bool-cases (value_eq r a)) [
  | inl equal ↦ rw (value_eq_refl a, equal, eq_of_value_eq r a equal) refl
  | inr changed ↦ rw (value_eq_refl a, changed) refl
]

merge_objects-pick :
    (path : Text) (a : List (Text × Value)) (l : Fields) (r : List (Text × Value)) (target : Fields)
    → ((k : Text) → merge_key path a (field_mergers l) r k ≡ (lookup k (fields target), []))
    → pick (insert_keys r (insert_keys (fields l) (insert_keys a []))) (fields target)
      ≡ fields target
    → merge_objects path a (field_mergers l) r ≡ (object target, [])
unfolding merge_objects
merge_objects-pick path a l r target entries picked =
    rw
      (
        insert_keys-field_mergers l,
        merge_keys-pick path a r (fields target) (field_mergers l) _ entries,
        picked,
        of_fields-fields target,
      )
      refl

-- If the remote object is the ancestor and the local object's keys are in their order, the merge
-- is clean and gives the local object.
pub merge3_remote_unchanged :
    (ancestor local : Fields)
    → HasOrderedKeys local
    → merge3 (object ancestor) (object local) (object ancestor) ≡ clean (object local)
unfolding merge3 merge_key
merge3_remote_unchanged ancestor local o = ap outcome_of (
    merge_objects-pick [] (fields ancestor) local (fields ancestor) local
      (λ k.
        rw (lookup-field_mergers k local)
          (merge_entry-remote k (lookup k (fields ancestor)) (lookup k (fields local))))
      (pick-insert_keys local (fields ancestor) (fields ancestor) o))

-- If the local object is the ancestor and the remote object's keys are in their order, the merge
-- is clean and gives the remote object.
pub merge3_local_unchanged :
    (ancestor remote : Fields)
    → HasOrderedKeys remote
    → merge3 (object ancestor) (object ancestor) (object remote) ≡ clean (object remote)
unfolding merge3 merge_key
merge3_local_unchanged ancestor remote o = ap outcome_of (
    merge_objects-pick [] (fields ancestor) ancestor (fields remote) remote
      (λ k.
        rw (lookup-field_mergers k ancestor)
          (merge_entry-local k (lookup k (fields ancestor)) (lookup k (fields remote))))
      (rw (insert_keys_comm (fields remote) (fields ancestor) (insert_keys (fields ancestor) []))
        (pick-insert_keys remote (fields ancestor) (fields ancestor) o)))
