-- ===== src/Sync/Later.antt =====
-- The providers of a drain in crates/auru-pm/src/sync.rs, and the same ones later.
use auru_pm_core.Sync.Delivered.{Delivers, Delivers-Holds}
use auru_pm_core.Sync.State.{Mirror}
use auru_pm_core.Commit.{Commit}
use auru_pm_core.Hash.{ContentHash}
use auru_pm_core.Prelude.{List, All, ◌∷◌, ◌≡◌, some, ◌⊎◌, inr, inl, []}
use auru_pm_core.Sync.Drain.{Bundle}
use auru_pm_core.Provider.{View, IsProvider, Moves-Holds, Holds, Holds-trans}

module _ {S : Type 0} (v : View S) where
  abbrev pub Lawful : List (Mirror S) → Type 0
  Lawful ms = All (λ m. IsProvider v m.provider) ms

  -- The same providers later: none has lost anything.
  abbrev pub Later : List (Mirror S) → List (Mirror S) → Type 0
  Later [] [] = Unit
  Later (m ∷ ms) (m' ∷ ms') = Holds v m.state m'.state × Later ms ms'
  Later [] (m' ∷ ms') = ⊥
  Later (m ∷ ms) [] = ⊥

  abbrev pub Has : ContentHash → Commit → List (Mirror S) → Type 0
  Has id c [] = ⊥
  Has id c (m ∷ ms) = (v.commit m.state id ≡ some c) ⊎ Has id c ms

  pub Later-refl : (ms : List (Mirror S)) → Lawful ms → Later ms ms
  Later-refl [] l = tt
  Later-refl (m ∷ ms) (l, ls) =
      (Moves-Holds v m.provider l m.state m.state (l.rest m.state), Later-refl ms ls)

  pub Later-trans : (ms ns os : List (Mirror S)) → Later ms ns → Later ns os → Later ms os
  Later-trans [] [] [] h k = tt
  Later-trans [] [] (o ∷ os) h k = absurd k
  Later-trans [] (n ∷ ns) os h k = absurd h
  Later-trans (m ∷ ms) [] os h k = absurd h
  Later-trans (m ∷ ms) (n ∷ ns) [] h k = absurd k
  Later-trans (m ∷ ms) (n ∷ ns) (o ∷ os) (h, hs) (k, ks) =
      (Holds-trans v m.state n.state o.state h k, Later-trans ms ns os hs ks)

  pub Has-Later :
      (id : ContentHash) (c : Commit) (ms ns : List (Mirror S))
      → Later ms ns
      → Has id c ms
      → Has id c ns
  Has-Later id c [] ns l h = absurd h
  Has-Later id c (m ∷ ms) [] l h = absurd l
  Has-Later id c (m ∷ ms) (n ∷ ns) (l, ls) (inl here) = inl (l.commits id c here)
  Has-Later id c (m ∷ ms) (n ∷ ns) (l, ls) (inr there) = inr (Has-Later id c ms ns ls there)

  pub All-Later :
      (b : Bundle) (ms ns : List (Mirror S))
      → Later ms ns
      → All (λ m. Delivers v b m.state) ms
      → All (λ m. Delivers v b m.state) ns
  All-Later b [] [] l h = tt
  All-Later b [] (n ∷ ns) l h = absurd l
  All-Later b (m ∷ ms) [] l h = absurd l
  All-Later b (m ∷ ms) (n ∷ ns) (l, ls) (h, hs) =
      (Delivers-Holds v b m.state n.state l h, All-Later b ms ns ls hs)
