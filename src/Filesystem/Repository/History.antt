-- ===== src/Filesystem/Repository/History.antt =====
-- `list_history` of crates/auru-pm/src/filesystem.rs as a page of the visible commits.
use mathlib.Core.Path.{subst}
use auru_pm_core.Prelude.{
  Option, ℕ, List, map, ◌<◌, ◌≡◌, some, ◌∷◌, take, ok, if◌then◌else◌, max, ◌-◌, err-ok, >>=-eq-ok,
  text_eq, arith, ap, true, ok-injective, none, suc, opt_text_eq, [], zero, false, sym, ◌∙◌,
  Bool-cases, leb, ◌+◌, inl, inr, refl, is_none, length, ◌≤◌,
}
use auru_pm_core.Cas.{Codec, get}
use auru_pm_core.Commit.{Commit, CommitSummary, SampleEntry, summary}
use auru_pm_core.Hash.{ContentHash}
use auru_pm_core.Filesystem.Repository.{
  Repository, RepositoryIo, Range, read_commit, visible_walk, visible_commits, range_walk,
  list_history, parent_of, default_history_limit, or_bad_commit, or_store_failed, history_fuel,
  read_history_floor, read_head,
}

-- What stands behind a commit in a history, or all of it.
pub older : Option ContentHash → List Commit → List Commit
older none commits = commits
older (some id) [] = []
older (some id) (commit ∷ commits) =
    let rest = older (some id) commits in if text_eq commit.id id then commits else rest

-- The rows of a page. The limit 0 counts as 1.
pub page : ℕ → Option ContentHash → List Commit → List CommitSummary
unfolding older
page limit before commits = map summary (take (max limit 1) (older before commits))

take_more {ℓ} :
    {A : Type ℓ} (n : ℕ) (x : A) (xs : List A) → 0 < n → take n (x ∷ xs) ≡ x ∷ take (n - 1) xs
take_more zero x xs h = absurd (omega arith)
take_more (suc n) x xs h = ap (λ k. x ∷ take k xs) (omega arith)

take-nil {ℓ} : {A : Type ℓ} (n : ℕ) → take {A = A} n [] ≡ []
take-nil zero = refl
take-nil (suc n) = refl

older-single : (before : ContentHash) (commit : Commit) → older (some before) (commit ∷ []) ≡ []
unfolding older
older-single before commit = elim (Bool-cases (text_eq commit.id before)) [
  | inl found ↦ rw found refl
  | inr other ↦ rw other refl
]

older-found :
    (before : ContentHash) (commit : Commit) (rest : List Commit)
    → text_eq commit.id before ≡ true
    → older (some before) (commit ∷ rest) ≡ rest
unfolding older
older-found before commit rest found = rw found refl

older-other :
    (before : ContentHash) (commit : Commit) (rest : List Commit)
    → text_eq commit.id before ≡ false
    → older (some before) (commit ∷ rest) ≡ older (some before) rest
unfolding older
older-other before commit rest other = rw other refl

-- The reader of a commit gives it the id that it is read under.
abbrev pub KeepsId : (List ℕ → ContentHash → Option Commit) → Type 0
KeepsId parse_commit =
    (bytes : List ℕ) (id : ContentHash) (commit : Commit)
    → parse_commit bytes id ≡ some commit
    → commit.id ≡ id

or_bad_commit-ok :
    (o : Option Commit) (commit : Commit) → or_bad_commit o ≡ ok commit → o ≡ some commit
or_bad_commit-ok none commit e = err-ok e
or_bad_commit-ok (some c) commit e = ap (λ c. some c) (ok-injective e)

module _ (codec : Codec) (parse_commit : List ℕ → ContentHash → Option Commit)
    (parse_manifest : List ℕ → Option (List SampleEntry)) (keeps : KeepsId parse_commit)
    (io : RepositoryIo) (s : Repository) (floor : Option ContentHash) where
  pub read_commit-id :
      (id : ContentHash) (commit : Commit)
      → read_commit codec parse_commit parse_manifest io s id ≡ ok commit
      → commit.id ≡ id
  unfolding read_commit
  read_commit-id id commit e =
      let (bytes, got, parsed) =
        >>=-eq-ok (or_store_failed (get codec (io.commit_readable id) id s.commits)) _ e in
      keeps bytes id commit (or_bad_commit-ok (parse_commit bytes id) commit parsed)

  -- A round of `visible_commits` that succeeds.
  pub visible_step :
      (fuel : ℕ) (id : ContentHash) (commits : List Commit)
      → visible_walk codec parse_commit parse_manifest io s floor (suc fuel) (some id) ≡ ok commits
      → (commit : Commit) × (rest : List Commit) × (read_commit codec parse_commit parse_manifest io
            s id
          ≡ ok commit)
        × ((opt_text_eq (some id) floor ≡ true → rest ≡ [])
            × (opt_text_eq (some id) floor ≡ false
                → visible_walk codec parse_commit parse_manifest io s floor fuel (parent_of commit)
                  ≡ ok rest))
        × (commit ∷ rest ≡ commits)
  unfolding visible_walk
  visible_step fuel id commits e =
      let (commit, read, e1) =
        >>=-eq-ok (read_commit codec parse_commit parse_manifest io s id) _ e in
      let (rest, walked, e2) =
        >>=-eq-ok
          (if opt_text_eq (some id) floor
            then ok []
            else visible_walk codec parse_commit parse_manifest io s floor fuel (parent_of commit))
          _ e1 in
      (
        commit,
        rest,
        read,
        (λ stop. sym (ok-injective (rw stop at walked)), λ go. rw go at walked),
        ok-injective e2,
      )

  started_walk :
      (range : Range) (fuel count : ℕ) (next : Option ContentHash) (commits : List Commit)
      → visible_walk codec parse_commit parse_manifest io s floor fuel next ≡ ok commits
      → count < max range.limit 1
      → range_walk codec parse_commit parse_manifest io s floor range fuel true count next
        ≡ ok (map summary (take (max range.limit 1 - count) commits))
  unfolding visible_walk range_walk
  started_walk range fuel count none commits e b =
      ap (λ cs. ok (map summary cs)) (sym (ap (take _) (sym (ok-injective e)) ∙ take-nil _))
  started_walk range zero count (some id) commits e b = err-ok e
  started_walk range (suc fuel) count (some id) commits e b =
      let (commit, rest, read, behind, same) = visible_step fuel id commits e in
      let n = max range.limit 1 - count in
      let more : take n (commit ∷ rest) ≡ commit ∷ take (n - 1) rest =
        take_more n commit rest (omega arith) in
      subst
        (λ cs.
          range_walk codec parse_commit parse_manifest io s floor range (suc fuel) true count
            (some id)
          ≡ ok (map summary (take n cs)))
        same
        (elim (Bool-cases (leb range.limit (count + 1))) [
          | inl full ↦ let one : n ≡ 1 = ground (arith, full) in rw (read, full, one) refl
          | inr room ↦ elim (Bool-cases (opt_text_eq (some id) floor)) [
            | inl stop ↦ rw (read, room, stop, more, behind.0 stop, take-nil (n - 1)) refl
            | inr go ↦
                let less : count + 1 < max range.limit 1 = ground (arith, room) in
                let later =
                  started_walk range fuel (count + 1) (parent_of commit) rest (behind.1 go) less in
                let next : max range.limit 1 - (count + 1) ≡ n - 1 = omega arith in
                rw (read, room, go, more, later, next) refl
          ]
        ])

  -- Before the commit that the page starts behind.
  waiting_walk :
      (range : Range) (before : ContentHash) (fuel : ℕ) (next : Option ContentHash)
      (commits : List Commit)
      → range.before ≡ some before
      → visible_walk codec parse_commit parse_manifest io s floor fuel next ≡ ok commits
      → range_walk codec parse_commit parse_manifest io s floor range fuel false 0 next
        ≡ ok (page range.limit (some before) commits)
  unfolding range_walk page visible_walk
  waiting_walk range before fuel none commits at e =
      ap (λ cs. ok (map summary cs))
        (sym (
          ap (λ cs. take (max range.limit 1) (older (some before) cs)) (sym (ok-injective e))
          ∙ take-nil (max range.limit 1)))
  waiting_walk range before zero (some id) commits at e = err-ok e
  waiting_walk range before (suc fuel) (some id) commits at e =
      let (commit, rest, read, behind, same) = visible_step fuel id commits e in
      let named = read_commit-id id commit read in
      subst
        (λ cs.
          range_walk codec parse_commit parse_manifest io s floor range (suc fuel) false 0 (some id)
          ≡ ok (page range.limit (some before) cs))
        same
        (elim (Bool-cases (opt_text_eq (some id) floor)) [
          | inl stop ↦
              rw
                (
                  read,
                  stop,
                  behind.0 stop,
                  older-single before commit,
                  take-nil (max range.limit 1),
                )
                refl
          | inr go ↦ elim (Bool-cases (text_eq id before)) [
            | inl found ↦
                let here : text_eq commit.id before ≡ true = rw named found in
                let zero_off : max range.limit 1 - 0 ≡ max range.limit 1 = omega arith in
                rw (read, go, at, found, older-found before commit rest here)
                  (started_walk range fuel 0 (parent_of commit) rest (behind.1 go) (omega arith)
                    ∙ ap (λ k. ok (map summary (take k rest))) zero_off)
            | inr other ↦
                let not_here : text_eq commit.id before ≡ false = rw named other in
                rw (read, go, at, other, older-other before commit rest not_here)
                  (waiting_walk range before fuel (parent_of commit) rest at (behind.1 go))
          ]
        ])

  page_walk :
      (range : Range) (before : Option ContentHash) (fuel : ℕ) (next : Option ContentHash)
      (commits : List Commit)
      → range.before ≡ before
      → visible_walk codec parse_commit parse_manifest io s floor fuel next ≡ ok commits
      → range_walk codec parse_commit parse_manifest io s floor range fuel (is_none before) 0 next
        ≡ ok (page range.limit before commits)
  unfolding page older
  page_walk range none fuel next commits at e =
      let zero_off : max range.limit 1 - 0 ≡ max range.limit 1 = omega arith in
      started_walk range fuel 0 next commits e (omega arith)
      ∙ ap (λ k. ok (map summary (take k commits))) zero_off
  page_walk range (some before) fuel next commits at e =
      waiting_walk range before fuel next commits at e

length-rows : (n : ℕ) (commits : List Commit) → length (map summary (take n commits)) ≤ n
length-rows zero commits = omega arith
length-rows (suc n) [] = omega arith
length-rows (suc n) (commit ∷ commits) = omega (arith, length-rows n commits)

length-page :
    (limit : ℕ) (before : Option ContentHash) (commits : List Commit)
    → length (page limit before commits) ≤ max limit 1
unfolding page
length-page limit before commits = length-rows (max limit 1) (older before commits)

-- If the lock is taken, the reader of a commit gives it the id that it is read under, and the
-- walk of visible commits succeeds, then a history request answers the rows of the visible
-- commits behind the given one, cut off at the limit, or at one row if the limit is 0; they are
-- no more than a positive limit.
pub list_history-page :
    (codec : Codec) (parse_commit : List ℕ → ContentHash → Option Commit)
    (parse_manifest : List ℕ → Option (List SampleEntry)) (io : RepositoryIo) (limit : Option ℕ)
    (before : Option ContentHash) (s : Repository) (commits : List Commit)
    → KeepsId parse_commit
    → io.locked ≡ true
    → visible_commits codec parse_commit parse_manifest io s ≡ ok commits
    → (list_history codec parse_commit parse_manifest io limit before s
        ≡ ok (page (default_history_limit limit) before commits))
      × (0 < default_history_limit limit
          → length (page (default_history_limit limit) before commits)
            ≤ default_history_limit limit)
unfolding list_history visible_commits
list_history-page codec parse_commit parse_manifest io limit before s commits keeps locked e =
    let (floor, read_floor, e1) = >>=-eq-ok (read_history_floor io s) _ e in
    let (head, read_it, e2) = >>=-eq-ok (read_head io s) _ e1 in
    let range : Range = record { limit = default_history_limit limit; before = before } in
    (
      rw (locked, read_floor, read_it)
          (page_walk codec parse_commit parse_manifest keeps io s floor range before
            (history_fuel codec parse_commit parse_manifest io s) head commits refl e2),
      λ some_row. omega (arith, length-page (default_history_limit limit) before commits),
    )
