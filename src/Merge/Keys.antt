-- ===== src/Merge/Keys.antt =====
-- `BTreeSet::insert` of keys, in crates/auru-pm-kernel/src/merge.rs: the order of insertion does
-- not show.
use mathlib.Core.Path.{subst}
use auru_pm_core.Merge.{insert_key, insert_keys}
use auru_pm_core.Prelude.{
  ◌≡◌, refl, Text, List, [], ◌∷◌, true, false, text_eq, arith, text_eq_iff, text_eq_refl, ap, sym,
  ◌∙◌, Bool-cases, inr, inl,
}
use auru_pm_core.Prelude.Order.{text_ltb, text_ltb_irrefl, text_ltb_trans, text_compare, ltb-ne}

-- One text against another, with the tests that the code makes.
pub data Compared (j k : Text) : Type 0 where
  below :
      text_ltb j k ≡ true
      → text_eq j k ≡ false
      → text_eq k j ≡ false
      → text_ltb k j ≡ false
      → Compared j k
  same : j ≡ k → Compared j k
  above :
      text_ltb k j ≡ true
      → text_eq j k ≡ false
      → text_eq k j ≡ false
      → text_ltb j k ≡ false
      → Compared j k

ltb-asym : (j k : Text) → text_ltb j k ≡ true → text_ltb k j ≡ false
ltb-asym j k h = elim (Bool-cases (text_ltb k j)) [
  | inr no_more ↦ no_more
  | inl back ↦
      let loop = text_ltb_trans j k j h back in let never = rw (text_ltb_irrefl j) at loop in cc
]

eq_sym : (j k : Text) → text_eq j k ≡ false → text_eq k j ≡ false
eq_sym j k h = ground (arith, text_eq_iff j k, text_eq_iff k j)

pub compare_texts : (j k : Text) → Compared j k
compare_texts j k = elim (text_compare j k) [
  | inl h ↦ below h (ltb-ne j k h) (eq_sym j k (ltb-ne j k h)) (ltb-asym j k h)
  | inr (inl e) ↦ same e
  | inr (inr h) ↦ above h (eq_sym k j (ltb-ne k j h)) (ltb-ne k j h) (ltb-asym k j h)
]

insert_key_comm :
    (j k : Text) (ks : List Text) → insert_key j (insert_key k ks) ≡ insert_key k (insert_key j ks)
unfolding insert_key
insert_key_comm j k [] = elim (compare_texts j k) [
  | same e ↦ rw e refl
  | below lt ne ne' ge ↦ rw (ne, lt, ne', ge) refl
  | above gt ne ne' le ↦ rw (ne, le, ne', gt) refl
]
insert_key_comm j k (x ∷ ks) =
    let ih = insert_key_comm j k ks in
    elim (compare_texts k x) [
      | same e ↦ elim (compare_texts j x) [
        | same d ↦ rw (e, d, text_eq_refl x) refl
        | below lt ne ne' ge ↦ rw (e, text_eq_refl x, ne, lt, ne', ge, text_eq_refl x) refl
        | above gt ne ne' le ↦ rw (e, text_eq_refl x, ne, le, text_eq_refl x) refl
      ]
      | below lt ne ne' ge ↦ elim (compare_texts j x) [
        | same d ↦ rw (d, text_eq_refl x, ne, lt, ne', ge, text_eq_refl x) refl
        | below lt' ne2 ne2' ge' ↦ elim (compare_texts j k) [
          | same d ↦
              subst
                (λ i. insert_key i (insert_key k (x ∷ ks)) ≡ insert_key k (insert_key i (x ∷ ks)))
                (sym d) refl
          | below jk n1 n2 kj ↦ rw (ne, lt, ne2, lt', n1, jk, n2, kj, ne, lt) refl
          | above kj n1 n2 jk ↦ rw (ne, lt, ne2, lt', n1, jk, n2, kj) refl
        ]
        | above gt' ne2 ne2' le' ↦
            let kj = text_ltb_trans k x j lt gt' in
            rw (ne, lt, ne2, le', eq_sym k j (ltb-ne k j kj), ltb-asym k j kj, ne, lt) refl
      ]
      | above gt ne ne' le ↦ elim (compare_texts j x) [
        | same d ↦ rw (d, text_eq_refl x, ne, le, text_eq_refl x) refl
        | below lt' ne2 ne2' ge' ↦
            let jk = text_ltb_trans j x k lt' gt in
            rw (ne, le, ne2, lt', eq_sym j k (ltb-ne j k jk), ltb-asym j k jk, ne, le) refl
        | above gt' ne2 ne2' le' ↦ rw (ne, le, ne2, le', ne, le) (ap (λ r. x ∷ r) ih)
      ]
    ]

insert_keys-insert_key {ℓ} :
    {A : Type ℓ} (k : Text) (m : List (Text × A)) (ks : List Text)
    → insert_keys m (insert_key k ks) ≡ insert_key k (insert_keys m ks)
unfolding insert_keys
insert_keys-insert_key k [] ks = refl
insert_keys-insert_key k ((j, v) ∷ m) ks =
    ap (insert_keys m) (insert_key_comm j k ks) ∙ insert_keys-insert_key k m (insert_key j ks)

-- Two sets of keys can change places.
pub insert_keys_comm {ℓ κ} :
    {A : Type ℓ} {B : Type κ} (l : List (Text × A)) (r : List (Text × B)) (ks : List Text)
    → insert_keys l (insert_keys r ks) ≡ insert_keys r (insert_keys l ks)
unfolding insert_keys
insert_keys_comm [] r ks = refl
insert_keys_comm ((k, v) ∷ l) r ks =
    ap (insert_keys l) (sym (insert_keys-insert_key k r ks))
    ∙ insert_keys_comm l r (insert_key k ks)
