-- ===== src/Prelude/Order.antt =====
-- The order of `str`, byte by byte, and maps kept in it.
use mathlib.Core.Path.{◌≡◌, refl}
use mathlib.Core.Logic.{◌⊎◌, inl, inr}
use mathlib.Core.Bool.{Bool, true, false}
use mathlib.Core.List.{[], ◌∷◌}
use native.Mathlib.Omega.{arith}
use auru_pm_core.Prelude.Tests.{ltb, if◌then◌else◌}
use auru_pm_core.Prelude.Texts.{Text, text_eq, text_eq_iff, text_eq_refl}
use auru_pm_core.Prelude.Maps.{Map, lookup}
use mathlib.Core.Option.{some}

unfoldable pub text_ltb : Text → Text → Bool
text_ltb s [] = false
text_ltb [] (b ∷ t) = true
text_ltb (a ∷ s) (b ∷ t) =
    let rest = text_ltb s t in if ltb a b then true else if ltb b a then false else rest

pub text_ltb_irrefl : (s : Text) → text_ltb s s ≡ false
unfolding text_ltb
text_ltb_irrefl [] = refl
text_ltb_irrefl (a ∷ s) = ground (arith, text_ltb_irrefl s)

pub text_ltb_trans :
    (s t u : Text) → text_ltb s t ≡ true → text_ltb t u ≡ true → text_ltb s u ≡ true
unfolding text_ltb
text_ltb_trans [] [] [] h k = h
text_ltb_trans [] [] (c ∷ u) h k = k
text_ltb_trans [] (b ∷ t) [] h k = k
text_ltb_trans [] (b ∷ t) (c ∷ u) h k = refl
text_ltb_trans (a ∷ s) [] u h k = cc
text_ltb_trans (a ∷ s) (b ∷ t) [] h k = k
text_ltb_trans (a ∷ s) (b ∷ t) (c ∷ u) h k = ground (arith, text_ltb_trans s t u)

-- Two texts are equal, or one is below the other.
pub text_compare : (s t : Text) → (text_ltb s t ≡ true) ⊎ ((s ≡ t) ⊎ (text_ltb t s ≡ true))
unfolding text_ltb
text_compare [] [] = inr (inl refl)
text_compare [] (b ∷ t) = inl refl
text_compare (a ∷ s) [] = inr (inr refl)
text_compare (a ∷ s) (b ∷ t) = ground (arith, text_compare s t)

pub ltb-ne : (s t : Text) → text_ltb s t ≡ true → text_eq s t ≡ false
unfolding text_ltb text_eq
ltb-ne [] [] h = cc
ltb-ne [] (b ∷ t) h = refl
ltb-ne (a ∷ s) [] h = cc
ltb-ne (a ∷ s) (b ∷ t) h = ground (arith, ltb-ne s t)

-- `BTreeMap::insert`: the entry stands before the first key that is above its own.
unfoldable pub insert_entry {ℓ} : {V : Type ℓ} → Text → V → Map V → Map V
insert_entry k v [] = (k, v) ∷ []
insert_entry k v ((j, w) ∷ m) =
    let rest = insert_entry k v m in
    if text_eq j k then (k, v) ∷ m else if text_ltb k j then (k, v) ∷ (j, w) ∷ m else (j, w) ∷ rest

pub lookup-insert_entry {ℓ} :
    {V : Type ℓ} (k j : Text) (v : V) (m : Map V)
    → lookup j (insert_entry k v m) ≡ (if text_eq k j then some v else lookup j m)
unfolding lookup insert_entry
lookup-insert_entry k j v [] = refl
lookup-insert_entry k j v ((i, w) ∷ m) =
    ground (arith, text_eq_iff k j, text_eq_iff i k, text_eq_iff i j, lookup-insert_entry k j v m)

pub lookup-insert_entry_self {ℓ} :
    {V : Type ℓ} (k : Text) (v : V) (m : Map V) → lookup k (insert_entry k v m) ≡ some v
lookup-insert_entry_self k v m = simp (lookup-insert_entry, text_eq_refl)
