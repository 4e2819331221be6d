-- ===== src/Server/Grown.antt =====
-- The order in which the commits of a project of crates/auru-pm-server/src/main.rs were pushed:
-- each has its parents before it. So a walk along parents ends.
use auru_pm_core.Prelude.{
  ◌≡◌, ap, sym, Text, List, [], ◌∷◌, some, true, false, Map, lookup, insert, contains, insert_text,
  text_eq, text_eq_iff, all, Bool-cases, inl, ◌∙◌, inr, lookup-insert,
}
use auru_pm_core.Hash.{to_string}
use auru_pm_core.Commit.{Content}

-- `older` has every parent of `c`.
abbrev pub HasParents : List Text → Content → Type 0
HasParents older c = all (λ parent. contains older (to_string parent)) c.parents ≡ true

-- Newest first, every commit is stored, new, and younger than its parents.
abbrev pub Grown : Map Content → List Text → Type 0
Grown commits [] = Unit
Grown commits (id ∷ older) =
    (c : Content) × (lookup id commits ≡ some c)
    × HasParents older c
    × (contains older id ≡ false)
    × Grown commits older

-- A commit that is stored under `id` has the content `c`.
abbrev pub Agrees : Map Content → Text → Content → Type 0
Agrees commits id c = (d : Content) → lookup id commits ≡ some d → d ≡ c

lookup-insert_agreed :
    (commits : Map Content) (id j : Text) (c d : Content)
    → Agrees commits id c
    → lookup j commits ≡ some d
    → lookup j (insert id c commits) ≡ some d
lookup-insert_agreed commits id j c d agrees e = elim (Bool-cases (text_eq id j)) [
  | inl same ↦
      let key : id ≡ j = (text_eq_iff id j).0 same in
      let value : d ≡ c = agrees d (ap (λ k. lookup k commits) key ∙ e) in
      rw (lookup-insert id j c commits, same) (ap (λ x. some x) (sym value))
  | inr other ↦ rw (lookup-insert id j c commits, other) e
]

pub Grown-insert :
    (commits : Map Content) (id : Text) (c : Content) (owned : List Text)
    → Agrees commits id c
    → Grown commits owned
    → Grown (insert id c commits) owned
Grown-insert commits id c [] agrees g = tt
Grown-insert commits id c (j ∷ older) agrees (d, found, parents, fresh, rest) = (
  d,
  lookup-insert_agreed commits id j c d agrees found,
  parents,
  fresh,
  Grown-insert commits id c older agrees rest,
)

pub Grown-insert_text :
    (commits : Map Content) (id : Text) (c : Content) (owned : List Text)
    → lookup id commits ≡ some c
    → HasParents owned c
    → Grown commits owned
    → Grown commits (insert_text id owned)
Grown-insert_text commits id c owned found parents g = elim (Bool-cases (contains owned id)) [
  | inl old ↦ rw old g
  | inr new ↦ rw new (c, found, parents, new, g)
]
