-- ===== src/Protocol/Retention.antt =====
-- `RetentionRule` of crates/auru-pm-protocol/src/lib.rs.
use mathlib.Core.Path.{subst}
use auru_pm_core.Prelude.{
  ℕ, suc, ◌+◌, ◌≤◌, ◌<◌, ◌≡◌, refl, List, [], ◌∷◌, Option, some, none, Bool, true, false, length,
  drop, get_elem?, All, if◌then◌else◌, arith, min, max, ◌-◌, Option-cases, inl, Bool-cases,
  some-injective, inr, ◌⊎◌,
}
use auru_pm_core.Prelude.Int.{ℤ, leb_ℤ}

pub data RetentionRule : Type 0 where
  latest : ℕ → RetentionRule
  since : ℤ → RetentionRule

-- `Iterator::rposition`: the last index that passes.
unfoldable pub rposition {ℓ} : {A : Type ℓ} → (A → Bool) → List A → Option ℕ
rposition p [] = none
rposition p (x ∷ xs) = elim (rposition p xs) [
  | some i ↦ some (suc i)
  | none ↦ if p x then some 0 else none
]

abbrev pub map_or_one : Option ℕ → ℕ
map_or_one none = 1
map_or_one (some index) = index + 1

unfoldable pub retained_prefix_len : RetentionRule → List ℤ → ℕ
retained_prefix_len rule [] = 0
retained_prefix_len (latest count) (t ∷ ts) = min (max count 1) (length (t ∷ ts))
retained_prefix_len (since timestamp) (t ∷ ts) = map_or_one (rposition (leb_ℤ timestamp) (t ∷ ts))

module _ {ℓ} {A : Type ℓ} (p : A → Bool) where
  rposition-lt : (xs : List A) (i : ℕ) → rposition p xs ≡ some i → i < length xs
  unfolding rposition
  rposition-lt [] i h = cc
  rposition-lt (x ∷ xs) i h = ground (arith, rposition-lt xs (i - 1))

  rposition-none : (xs : List A) → rposition p xs ≡ none → All (λ x. p x ≡ false) xs
  unfolding rposition
  rposition-none [] h = tt
  rposition-none (x ∷ xs) h = ground (arith, rposition-none xs)

  -- `i` is the last index that passes.
  abbrev IsLast : List A → ℕ → Type ℓ
  IsLast xs i =
      All (λ x. p x ≡ false) (drop (suc i) xs)
      × ((x : A) × (get_elem? xs i ≡ some x) × (p x ≡ true))

  rposition-IsLast : (xs : List A) (i : ℕ) → rposition p xs ≡ some i → IsLast xs i
  unfolding rposition
  rposition-IsLast [] i h = cc
  rposition-IsLast (x ∷ xs) i h = elim (Option-cases (rposition p xs)) [
    | inl e ↦ elim (Bool-cases (p x)) [
      | inl t ↦
          let first : 0 ≡ i = some-injective _ _ (rw (e, rposition, t) at h) in
          subst (IsLast (x ∷ xs)) first (rposition-none xs e, (x, refl, t))
      | inr f ↦ let never = rw (e, rposition, f) at h in cc
    ]
    | inr (j, e) ↦
        let later : suc j ≡ i = some-injective _ _ (rw (e, rposition) at h) in
        subst (IsLast (x ∷ xs)) later (rposition-IsLast xs j e)
  ]

since_bounds :
    (cutoff : ℤ) (ts : List ℤ) (o : Option ℕ)
    → rposition (leb_ℤ cutoff) ts ≡ o
    → 0 < length ts
    → (map_or_one o ≤ length ts) × (0 < map_or_one o)
since_bounds cutoff ts none e h = (h, omega arith)
since_bounds cutoff ts (some i) e h =
    (omega (arith, rposition-lt (leb_ℤ cutoff) ts i e), omega arith)

-- What `since` keeps and drops at the boundary `n`.
abbrev pub IsBoundary : ℤ → List ℤ → ℕ → Type 0
IsBoundary cutoff ts n =
    All (λ t. leb_ℤ cutoff t ≡ false) (drop n ts)
    × ((n ≤ 1) ⊎ ((t : ℤ) × (get_elem? ts (n - 1) ≡ some t) × (leb_ℤ cutoff t ≡ true)))

IsBoundary-at :
    (cutoff t : ℤ) (ts : List ℤ) (o : Option ℕ)
    → rposition (leb_ℤ cutoff) (t ∷ ts) ≡ o
    → IsBoundary cutoff (t ∷ ts) (map_or_one o)
IsBoundary-at cutoff t ts none e = ((rposition-none (leb_ℤ cutoff) (t ∷ ts) e).1, inl (omega arith))
IsBoundary-at cutoff t ts (some i) e =
    let (dropped, last) = rposition-IsLast (leb_ℤ cutoff) (t ∷ ts) i e in
    let next : suc i ≡ i + 1 = omega arith in
    let back : i + 1 - 1 ≡ i = omega arith in
    (
      subst (λ n. All (λ t. leb_ℤ cutoff t ≡ false) (drop n (t ∷ ts))) next dropped,
      inr (rw back last),
    )

-- A rule keeps no more versions than there are, and at least one where there is one.
pub retained_prefix_len-bounds :
    (rule : RetentionRule) (ts : List ℤ)
    → (retained_prefix_len rule ts ≤ length ts) × (min 1 (length ts) ≤ retained_prefix_len rule ts)
unfolding retained_prefix_len
retained_prefix_len-bounds rule [] = (omega arith, omega arith)
retained_prefix_len-bounds (latest count) (t ∷ ts) = (omega arith, omega arith)
retained_prefix_len-bounds (since cutoff) (t ∷ ts) =
    let (most, least) =
      since_bounds cutoff (t ∷ ts) (rposition (leb_ℤ cutoff) (t ∷ ts)) refl (omega arith) in
    (most, omega (arith, least))

-- What a since rule drops is older than its cutoff, and either it keeps at most one version or
-- the last one it keeps is not older than the cutoff.
pub since_boundary :
    (cutoff : ℤ) (ts : List ℤ)
    → All (λ t. leb_ℤ cutoff t ≡ false) (drop (retained_prefix_len (since cutoff) ts) ts)
      × ((retained_prefix_len (since cutoff) ts ≤ 1)
          ⊎ ((t : ℤ) × (get_elem? ts (retained_prefix_len (since cutoff) ts - 1) ≡ some t)
              × (leb_ℤ cutoff t ≡ true)))
unfolding retained_prefix_len
since_boundary cutoff [] = (tt, inl (omega arith))
since_boundary cutoff (t ∷ ts) = IsBoundary-at cutoff t ts (rposition (leb_ℤ cutoff) (t ∷ ts)) refl
