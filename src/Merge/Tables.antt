-- ===== src/Merge/Tables.antt =====
-- The parts of a local value with their merges: what holds of each is found with it.
use auru_pm_core.Json.{Value, Items, Fields, fields, items, nil, cons, end, field}
use auru_pm_core.Merge.{
  Merger, find_last, merge_with, field_mergers, item_mergers, values, local_id, id_of, insert_keys,
}
use auru_pm_core.Prelude.{
  Text, List, [], ◌∷◌, Option, some, none, lookup, All, text_eq, Bool-cases, Option-cases, ◌≡◌, ap,
  inl, inr, refl,
}
use mathlib.Core.Option

module _ {ℓ} (P : Value → Merger → Type ℓ) where
  abbrev pub Each : Option (Value × Merger) → Type ℓ
  Each none = Unit
  Each (some (v, m)) = P v m

  pub lookup-Each :
      (k : Text) (table : List (Text × (Value × Merger)))
      → All (λ e. P e.1.0 e.1.1) table
      → Each (lookup k table)
  unfolding lookup
  lookup-Each k [] h = tt
  lookup-Each k ((j, (v, m)) ∷ table) h = elim (Bool-cases (text_eq j k)) [
    | inl same ↦ rw same h.0
    | inr other ↦ rw other (lookup-Each k table h.1)
  ]

  pub find_last-Each :
      (id : Text) (table : List (Value × Merger))
      → All (λ e. P e.0 e.1) table
      → Each (find_last local_id id table)
  unfolding find_last
  find_last-Each id [] h = tt
  find_last-Each id ((v, m) ∷ table) h = elim (Option-cases (find_last local_id id table)) [
    | inr ((w, n), e) ↦ let later = find_last-Each id table h.1 in rw (e, find_last) (rw e at later)
    | inl e ↦ elim (Bool-cases (text_eq (local_id (v, m)) id)) [
      | inl same ↦ rw (e, find_last, same) h.0
      | inr other ↦ rw (e, find_last, other) tt
    ]
  ]

-- The tables hold the value and its own merge.
pub lookup-field_mergers :
    (k : Text) (fs : Fields)
    → lookup k (field_mergers fs) ≡ Option.map (λ v. (v, merge_with v)) (lookup k (fields fs))
unfolding field_mergers lookup
lookup-field_mergers k end = refl
lookup-field_mergers k (field j v fs) = elim (Bool-cases (text_eq j k)) [
  | inl same ↦ rw same refl
  | inr other ↦ rw other (lookup-field_mergers k fs)
]

pub values-item_mergers : (vs : Items) → values (item_mergers vs) ≡ items vs
unfolding item_mergers
values-item_mergers nil = refl
values-item_mergers (cons v vs) = ap (λ ws. v ∷ ws) (values-item_mergers vs)

pub find_last-item_mergers :
    (id : Text) (vs : Items)
    → find_last local_id id (item_mergers vs)
      ≡ Option.map (λ v. (v, merge_with v)) (find_last id_of id (items vs))
unfolding item_mergers find_last
find_last-item_mergers id nil = refl
find_last-item_mergers id (cons v vs) =
    let later = find_last-item_mergers id vs in
    elim (Option-cases (find_last id_of id (items vs))) [
      | inr (w, e) ↦ rw (later, find_last, e) refl
      | inl e ↦ elim (Bool-cases (text_eq (id_of v) id)) [
        | inl same ↦ rw (later, find_last, e, same) refl
        | inr other ↦ rw (later, find_last, e, other) refl
      ]
    ]

pub insert_keys-field_mergers :
    (fs : Fields) (ks : List Text) → insert_keys (field_mergers fs) ks ≡ insert_keys (fields fs) ks
unfolding insert_keys field_mergers
insert_keys-field_mergers end ks = refl
insert_keys-field_mergers (field k v fs) ks = insert_keys-field_mergers fs _
