-- ===== src/Filesystem/Repository/Planned.antt =====
-- What `prune_history` of crates/auru-pm/src/filesystem.rs decides, and what it leaves.
use auru_pm_core.Filesystem.Objects.{reachable_blobs}
use mathlib.Core.Path.{subst}
use mathlib.Core.Option
use auru_pm_core.Cas.{Codec, path_for}
use auru_pm_core.Cas.Collect.{gc_keeps}
use auru_pm_core.Commit.{Commit, SampleEntry}
use auru_pm_core.Filesystem.Control.{Control, replace_control_file, read_control_file, last_of}
use auru_pm_core.Filesystem.Control.Crash.{replace_result, outcome}
use auru_pm_core.Filesystem.Repository.{
  Repository, RepositoryIo, RepositoryError, visible_commits, read_history_floor, read_control,
  floor_value, or_io_failed, or_invalid, invalid_floor, or_objects_invalid,
}
use auru_pm_core.Filesystem.Repository.Head.{trim-to_string}
use auru_pm_core.Filesystem.Repository.Prune.{
  RetentionRoots, RetentionReport, PruneIo, Plan, ids, timestamps_of, floor_at, retention_graph,
  plan_at, prune_plan, collect_after, planned, collected,
}
use auru_pm_core.Hash.{ContentHash, to_string, from_str}
use auru_pm_core.Hash.RoundTrip.{IsHash, from_str-to_string}
use auru_pm_core.Protocol.Retention.{RetentionRule, retained_prefix_len, retained_prefix_len-bounds}
use auru_pm_core.Prelude.{
  [], ◌∷◌, some, none, suc, zero, ok, err, true, ◌≡◌, List, ap, ℕ, ◌∙◌, ◌≤◌, Option, length, take,
  arith, ◌-◌, get_elem?_lt, none-some, sym, ok-injective, >>=-eq-ok, some-injective, contains,
  Bool-cases, ◌>>=◌, refl, map, lookup, Result, inl, err-ok, inr,
}

floor_value-to_string :
    (h : ContentHash) → IsHash h → floor_value (some (to_string h)) ≡ ok (some h)
floor_value-to_string h v =
    ap (λ t. or_invalid invalid_floor (from_str t)) (trim-to_string h v)
    ∙ ap (or_invalid invalid_floor) (from_str-to_string h v)

pub take_nothing :
    (n : ℕ) → ◌≡◌ {A = Result RepositoryError (List Commit)} (ok []) (ok (take {A = Commit} n []))
take_nothing zero = refl
take_nothing (suc n) = refl

length-timestamps_of : (commits : List Commit) → length (timestamps_of commits) ≡ length commits
length-timestamps_of [] = refl
length-timestamps_of (c ∷ commits) = ap suc (length-timestamps_of commits)

-- A rule keeps something of a history that is not empty.
pub floor_at-none :
    (rule : RetentionRule) (commits : List Commit)
    → floor_at (retained_prefix_len rule (timestamps_of commits)) commits ≡ none
    → commits ≡ []
floor_at-none rule [] e = refl
floor_at-none rule (c ∷ commits) e =
    let bounds = retained_prefix_len-bounds rule (timestamps_of (c ∷ commits)) in
    absurd (
      go (retained_prefix_len rule (timestamps_of (c ∷ commits))) e
        (omega (arith, bounds.0, length-timestamps_of (c ∷ commits)))
        (omega (arith, bounds.1, length-timestamps_of (c ∷ commits))))
  where
    go : (n : ℕ) → floor_at n (c ∷ commits) ≡ none → n ≤ length (c ∷ commits) → 1 ≤ n → ⊥
    go zero e b k = omega (arith, k)
    go (suc n) e b k =
        let (found, there) = get_elem?_lt (c ∷ commits) n (omega (arith, b)) in
        none-some (sym e ∙ ap (Option.map (λ c. c.id)) there)

module _ (codec : Codec) (parse_commit : List ℕ → ContentHash → Option Commit)
    (parse_manifest : List ℕ → Option (List SampleEntry)) (io : RepositoryIo) where
  -- What a plan went through.
  pub plan_at-ok :
      (s : Repository) (roots : RetentionRoots) (history : List Commit) (kept : ℕ)
      (found : Option ContentHash) {plan : Plan}
      → plan_at codec parse_commit parse_manifest io s roots history kept found ≡ ok (some plan)
      → (graph : List Commit) × (found ≡ some plan.floor)
        × (retention_graph codec parse_commit parse_manifest io s
              (take kept history)
              plan.floor
              roots.commits
            ≡ ok graph)
        × (ids graph ≡ plan.commits)
        × (length history - kept ≡ plan.removed)
  unfolding plan_at
  plan_at-ok s roots history kept none e = absurd (none-some (ok-injective e))
  plan_at-ok s roots history kept (some floor) {plan} e =
      let (graph, walked, e1) =
        >>=-eq-ok
          (retention_graph codec parse_commit parse_manifest io s (take kept history) floor
            roots.commits)
          _ e in
      let (blobs, reached, e2) =
        >>=-eq-ok
          (or_objects_invalid (
            reachable_blobs codec io.blobs_readable parse_manifest s.blobs
              (map (λ c. c.content) graph) roots.blobs))
          _ e1 in
      let same = some-injective _ _ (ok-injective e2) in
      let floors : floor ≡ plan.floor = ap (λ p. p.floor) same in
      (
        graph,
        ap (λ f. some f) floors,
        subst
            (λ f.
              retention_graph codec parse_commit parse_manifest io s (take kept history) f
                roots.commits
              ≡ ok graph)
            floors walked,
        ap (λ p. p.commits) same,
        ap (λ p. p.removed) same,
      )

  -- What a prune leaves of a plan.
  pub record Leaves (plan : Plan) (s t : Repository) (report : RetentionReport) : Type 0 where
    pub head : t.head ≡ s.head
    pub floor : read_control_file t.floor ≡ ok (some (to_string plan.floor))
    pub commits :
        (x : ContentHash)
        → IsHash x
        → contains plan.commits x ≡ true
        → lookup (path_for x) t.commits ≡ lookup (path_for x) s.commits
    pub removed : report.versions_removed ≡ plan.removed

  pub planned-Leaves :
      (plan : Plan) (grace_secs : ℕ) (removal : PruneIo) (s t : Repository)
      (report : RetentionReport)
      → planned codec parse_commit parse_manifest io grace_secs removal s (ok (some plan))
        ≡ (ok report, t)
      → Leaves plan s t report
  unfolding collected
  planned-Leaves plan grace_secs removal s t report e =
      go (replace_control_file io.replace (to_string plan.floor) s.floor).0
        (replace_control_file io.replace (to_string plan.floor) s.floor).1
        (replace_result io.replace (to_string plan.floor) s.floor) e
    where
      go :
          (result : Result (Unit {0}) (Unit {0})) (states : List Control)
          → read_control_file (last_of s.floor states)
            ≡ outcome result (to_string plan.floor) s.floor
          → collect_after codec parse_commit parse_manifest io plan grace_secs removal
              (record s { floor = last_of s.floor states })
              result
            ≡ (ok report, t)
          → Leaves plan s t report
      go (err x) states read e = err-ok (ap (λ r. r.0) e)
      go (ok done) states read e =
          let made = ok-injective (ap (λ r. r.0) e) in
          let now = ap (λ r. r.1) e in
          record {
            head = ap (λ r. r.head) (sym now);
            floor = ap (λ r. read_control_file r.floor) (sym now) ∙ read;
            commits = λ x v k.
                ap (λ r. lookup (path_for x) r.commits) (sym now)
                ∙ gc_keeps plan.commits grace_secs removal.commits_now removal.commits_gc x
                    s.commits v k;
            removed = ap (λ r. r.versions_removed) (sym made);
          }

  -- Only a system that reads the floor gives a history.
  pub floor_readable-visible :
      (s : Repository) {floor : Option ContentHash}
      → read_history_floor io s ≡ ok floor
      → io.floor_readable ≡ true
  unfolding read_history_floor read_control
  floor_readable-visible s e = elim (Bool-cases io.floor_readable) [
    | inl readable ↦ readable
    | inr unreadable ↦ err-ok (rw (read_history_floor, read_control, unreadable) at e)
  ]

  pub new_floor :
      (t : Repository) (floor : ContentHash)
      → io.floor_readable ≡ true
      → IsHash floor
      → read_control_file t.floor ≡ ok (some (to_string floor))
      → read_history_floor io t ≡ ok (some floor)
  unfolding read_history_floor read_control
  new_floor t floor readable v e =
      rw readable (
        ap (λ r. or_io_failed r >>= (λ value. floor_value value)) e ∙ floor_value-to_string floor v)

-- What a prune decided, from the history it read.
pub prune_plan-ok :
    (codec : Codec) (parse_commit : List ℕ → ContentHash → Option Commit)
    (parse_manifest : List ℕ → Option (List SampleEntry)) (io : RepositoryIo) (rule : RetentionRule)
    (roots : RetentionRoots) (s : Repository) (commits : List Commit) {plan : Option Plan}
    → visible_commits codec parse_commit parse_manifest io s ≡ ok commits
    → prune_plan codec parse_commit parse_manifest io rule roots s ≡ ok plan
    → plan_at codec parse_commit parse_manifest io s roots commits
        (retained_prefix_len rule (timestamps_of commits))
        (floor_at (retained_prefix_len rule (timestamps_of commits)) commits)
      ≡ ok plan
unfolding prune_plan
prune_plan-ok codec parse_commit parse_manifest io rule roots s commits seen e =
    elim (Bool-cases io.locked) [
      | inl locked ↦ rw (locked, seen) at e
      | inr other ↦ err-ok (rw other at e)
    ]

-- Without a plan there is no floor.
pub plan_at-none :
    (codec : Codec) (parse_commit : List ℕ → ContentHash → Option Commit)
    (parse_manifest : List ℕ → Option (List SampleEntry)) (io : RepositoryIo) (s : Repository)
    (roots : RetentionRoots) (history : List Commit) (kept : ℕ) (found : Option ContentHash)
    → plan_at codec parse_commit parse_manifest io s roots history kept found ≡ ok none
    → found ≡ none
unfolding plan_at
plan_at-none codec parse_commit parse_manifest io s roots history kept none e = refl
plan_at-none codec parse_commit parse_manifest io s roots history kept (some floor) e =
    let (graph, walked, e1) =
      >>=-eq-ok
        (retention_graph codec parse_commit parse_manifest io s (take kept history) floor
          roots.commits)
        _ e in
    let (blobs, reached, e2) =
      >>=-eq-ok
        (or_objects_invalid (
          reachable_blobs codec io.blobs_readable parse_manifest s.blobs
            (map (λ c. c.content) graph) roots.blobs))
        _ e1 in
    absurd (none-some (sym (ok-injective e2)))
