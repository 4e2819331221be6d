-- ===== src/Filesystem/Repository/Graph.antt =====
-- The graph of `prune_history` in crates/auru-pm/src/filesystem.rs has every retained commit.
use mathlib.Core.Path.{subst}
use auru_pm_core.Cas.{Codec}
use auru_pm_core.Commit.{Commit, SampleEntry}
use auru_pm_core.Filesystem.Repository.{Repository, RepositoryIo, RepositoryError}
use auru_pm_core.Filesystem.Repository.History.{KeepsId, read_commit-id}
use auru_pm_core.Filesystem.Repository.Prune.{
  skip_seen, find_commit_in, push_parents, ids, graph_walk, retention_graph, found_or_read,
  graph_left, graph_round,
}
use auru_pm_core.Hash.{ContentHash}
use auru_pm_core.Prelude.{
  [], ◌∷◌, some, none, suc, zero, ok, true, List, contains, ◌≡◌, ℕ, ◌⊎◌, arith, Bool-cases,
  none-some, Option, text_eq, Option-cases, inr, inl, sym, ap, refl, text_eq_iff, some-injective,
  ok-injective, ◌∙◌, ◌++◌, Result, err-ok, if◌then◌else◌, >>=-eq-ok,
}

skip_seen-cases :
    (seen pending : List ContentHash) (x : ContentHash)
    → contains pending x ≡ true
    → (contains seen x ≡ true) ⊎ (contains (skip_seen seen pending) x ≡ true)
unfolding skip_seen
skip_seen-cases seen [] x h = cc
skip_seen-cases seen (id ∷ pending) x h = elim (Bool-cases (contains seen id)) [
  | inr new ↦ inr (rw new h)
  | inl old ↦ elim (Bool-cases (text_eq id x)) [
    | inl same ↦ inl (rw (sym ((text_eq_iff id x).0 same)) old)
    | inr other ↦ rw old (skip_seen-cases seen pending x (rw other at h))
  ]
]

contains-push_parents :
    (parents pending : List ContentHash) (x : ContentHash)
    → contains pending x ≡ true
    → contains (push_parents parents pending) x ≡ true
unfolding push_parents
contains-push_parents [] pending x h = h
contains-push_parents (p ∷ parents) pending x h =
    contains-push_parents parents (p ∷ pending) x (ground (arith, h))

contains-pushed :
    (parents pending : List ContentHash) (x : ContentHash)
    → contains parents x ≡ true
    → contains (push_parents parents pending) x ≡ true
unfolding push_parents
contains-pushed [] pending x h = cc
contains-pushed (p ∷ parents) pending x h = elim (Bool-cases (text_eq p x)) [
  | inl same ↦ contains-push_parents parents (p ∷ pending) x (ground (arith, same))
  | inr other ↦ contains-pushed parents (p ∷ pending) x (rw other at h)
]

find_commit_in-id :
    (id : ContentHash) (commits : List Commit) (c : Commit)
    → find_commit_in id commits ≡ some c
    → c.id ≡ id
unfolding find_commit_in
find_commit_in-id id [] c e = absurd (none-some e)
find_commit_in-id id (d ∷ commits) c e = elim (Bool-cases (text_eq d.id id)) [
  | inl same ↦
      ap (λ c. c.id) (sym (some-injective _ _ (rw (find_commit_in, same) at e)))
      ∙ (text_eq_iff d.id id).0 same
  | inr other ↦ find_commit_in-id id commits c (rw (find_commit_in, other) at e)
]

contains-append :
    (xs ys : List ContentHash) (x : ContentHash)
    → contains xs x ≡ true
    → contains (xs ++ ys) x ≡ true
contains-append [] ys x h = cc
contains-append (y ∷ xs) ys x h = elim (Bool-cases (text_eq y x)) [
  | inl same ↦ rw same refl
  | inr other ↦ rw other (contains-append xs ys x (rw other at h))
]

module _ (codec : Codec) (parse_commit : List ℕ → ContentHash → Option Commit)
    (parse_manifest : List ℕ → Option (List SampleEntry)) (keeps : KeepsId parse_commit)
    (io : RepositoryIo) (s : Repository) where
  found_or_read-id :
      (id : ContentHash) (retained : List Commit) (commit : Commit)
      → found_or_read codec parse_commit parse_manifest io s id (find_commit_in id retained)
        ≡ ok commit
      → commit.id ≡ id
  found_or_read-id id retained commit e = elim (Option-cases (find_commit_in id retained)) [
    | inl absent ↦
        read_commit-id codec parse_commit parse_manifest keeps io s none id commit (rw absent at e)
    | inr (c, found) ↦
        ap (λ c. c.id) (sym (ok-injective (rw found at e))) ∙ find_commit_in-id id retained c found
  ]

  graph_round-contains :
      (retained : List Commit) (floor : ContentHash)
      (walk : List ContentHash → List ContentHash → Result RepositoryError (List Commit))
      (x : ContentHash)
      → ((seen pending : List ContentHash) (graph : List Commit)
          → walk seen pending ≡ ok graph
          → contains pending x ≡ true
          → (contains seen x ≡ true) ⊎ (contains (ids graph) x ≡ true))
      → (seen skipped : List ContentHash) (graph : List Commit)
      → graph_round codec parse_commit parse_manifest io s retained floor walk seen skipped
        ≡ ok graph
      → contains skipped x ≡ true
      → (contains seen x ≡ true) ⊎ (contains (ids graph) x ≡ true)
  graph_round-contains retained floor walk x later seen [] graph e h = cc
  graph_round-contains retained floor walk x later seen (id ∷ rest) graph e h =
      let (commit, found, e1) =
        >>=-eq-ok
          (found_or_read codec parse_commit parse_manifest io s id (find_commit_in id retained)) _
          e in
      let next = if text_eq id floor then rest else push_parents commit.content.parents rest in
      let (more, walked, e2) = >>=-eq-ok (walk (id ∷ seen) next) _ e1 in
      let named : commit.id ≡ id = found_or_read-id id retained commit found in
      let same : commit ∷ more ≡ graph = ok-injective e2 in
      subst (λ g. (contains seen x ≡ true) ⊎ (contains (ids g) x ≡ true)) same
        (elim (Bool-cases (text_eq id x)) [
          | inl top ↦ inr (rw (named, top) refl)
          | inr other ↦
              elim (later (id ∷ seen) next more walked (below id rest commit x (rw other at h))) [
                | inl old ↦ inl (rw other at old)
                | inr kept ↦ inr (rw (named, other) kept)
              ]
        ])
    where
      below :
          (id : ContentHash) (rest : List ContentHash) (commit : Commit) (x : ContentHash)
          → contains rest x ≡ true
          → contains (if text_eq id floor then rest else push_parents commit.content.parents rest) x
            ≡ true
      below id rest commit x h = elim (Bool-cases (text_eq id floor)) [
        | inl stop ↦ rw stop h
        | inr go ↦ rw go (contains-push_parents commit.content.parents rest x h)
      ]

  -- Everything on the stack is in the graph, or was seen before.
  graph_walk-contains :
      (retained : List Commit) (floor : ContentHash) (x : ContentHash) (fuel : ℕ)
      (seen pending : List ContentHash) (graph : List Commit)
      → graph_walk codec parse_commit parse_manifest io s retained floor fuel seen pending
        ≡ ok graph
      → contains pending x ≡ true
      → (contains seen x ≡ true) ⊎ (contains (ids graph) x ≡ true)
  unfolding graph_walk
  graph_walk-contains retained floor x zero seen pending graph e h =
      elim (skip_seen-cases seen pending x h) [
        | inl old ↦ inl old
        | inr new ↦ left_over (skip_seen seen pending) e new
      ]
    where
      left_over :
          (skipped : List ContentHash)
          → graph_left codec parse_commit parse_manifest io skipped ≡ ok graph
          → contains skipped x ≡ true
          → (contains seen x ≡ true) ⊎ (contains (ids graph) x ≡ true)
      left_over [] e m = cc
      left_over (id ∷ rest) e m = err-ok e
  graph_walk-contains retained floor x (suc fuel) seen pending graph e h =
      elim (skip_seen-cases seen pending x h) [
        | inl old ↦ inl old
        | inr new ↦
            graph_round-contains retained floor
              (λ seen' pending'.
                graph_walk codec parse_commit parse_manifest io s retained floor fuel seen'
                  pending')
              x
              (λ seen' pending' graph'.
                graph_walk-contains retained floor x fuel seen' pending' graph')
              seen (skip_seen seen pending) graph e new
      ]

  pub retention_graph-contains :
      (retained : List Commit) (floor : ContentHash) (protected : List ContentHash)
      (graph : List Commit) (x : ContentHash)
      → retention_graph codec parse_commit parse_manifest io s retained floor protected ≡ ok graph
      → contains (ids retained) x ≡ true
      → contains (ids graph) x ≡ true
  unfolding retention_graph
  retention_graph-contains retained floor protected graph x e h =
      elim (graph_walk-contains retained floor x _ [] _ graph e (
        contains-pushed (ids retained ++ protected) [] x
          (contains-append (ids retained) protected x h))) [ inl never ↦ cc | inr there ↦ there ]
