-- ===== src/Filesystem/Repository/Pruned.antt =====
-- The visible history after `prune_history` of crates/auru-pm/src/filesystem.rs.
use auru_pm_core.Filesystem.Repository.Planned.{
  floor_at-none, plan_at-ok, planned-Leaves, floor_readable-visible, new_floor, prune_plan-ok,
  plan_at-none, take_nothing, Leaves,
}
use auru_pm_core.Cas.{Codec}
use auru_pm_core.Commit.{Commit, SampleEntry}
use auru_pm_core.Filesystem.Repository.{
  Repository, RepositoryIo, RepositoryError, visible_walk, visible_commits, history_fuel, read_head,
  read_history_floor,
}
use auru_pm_core.Filesystem.Repository.History.{KeepsId}
use auru_pm_core.Filesystem.Repository.Ends.{IsRanked, Fuelled, head-Fuelled, count_to_le}
use auru_pm_core.Filesystem.Repository.Prune.{
  RetentionRoots, RetentionReport, PruneIo, Plan, ids, timestamps_of, floor_at, plan_at, prune_plan,
  planned, prune_history_with_grace,
}
use auru_pm_core.Filesystem.Repository.Graph.{retention_graph-contains}
use auru_pm_core.Filesystem.Repository.Retained.{visible_walk-retained, floor_at-rank}
use auru_pm_core.Hash.{ContentHash}
use auru_pm_core.Protocol.Retention.{RetentionRule, retained_prefix_len}
use auru_pm_core.Prelude.{
  [], some, none, suc, zero, ok, err, true, ◌≡◌, List, ap, ℕ, ◌∙◌, Option, take, arith, none-some,
  sym, ok-injective, >>=-eq-ok, contains, refl, Result, err-ok,
}

module _ (codec : Codec) (parse_commit : List ℕ → ContentHash → Option Commit)
    (parse_manifest : List ℕ → Option (List SampleEntry)) (keeps : KeepsId parse_commit)
    (io : RepositoryIo) (s t : Repository) (rank : ContentHash → ℕ)
    (ranked : IsRanked codec parse_commit parse_manifest io s rank) where
  read_head-same : t.head ≡ s.head → read_head io t ≡ read_head io s
  unfolding read_head
  read_head-same same = rw same refl

  pruned_walk :
      (old : Option ContentHash) (index : ℕ) (head : Option ContentHash) (commits : List Commit)
      (roots : RetentionRoots) (plan : Plan) (report : RetentionReport)
      → Leaves codec parse_commit parse_manifest io plan s t report
      → read_head io s ≡ ok head
      → io.floor_readable ≡ true
      → visible_walk codec parse_commit parse_manifest io s old
          (history_fuel codec parse_commit parse_manifest io s)
          head
        ≡ ok commits
      → plan_at codec parse_commit parse_manifest io s roots commits index (floor_at index commits)
        ≡ ok (some plan)
      → visible_commits codec parse_commit parse_manifest io t ≡ ok (take index commits)
  unfolding visible_walk visible_commits Fuelled
  pruned_walk old zero head commits roots plan report leaves read readable walked planned_ok =
      let (graph, at_floor, kept_graph, same_ids, counted) =
        plan_at-ok codec parse_commit parse_manifest io s roots commits zero (floor_at zero commits)
          planned_ok in
      absurd (none-some at_floor)
  pruned_walk old (suc index) none commits roots plan report leaves read readable walked
        planned_ok =
      let (graph, at_floor, kept_graph, same_ids, counted) =
        plan_at-ok codec parse_commit parse_manifest io s roots commits (suc index)
          (floor_at (suc index) commits) planned_ok in
      let empty : [] ≡ commits = ok-injective walked in
      absurd (none-some (rw (sym empty) at at_floor))
  pruned_walk old (suc index) (some id) commits roots plan report leaves read readable walked
        planned_ok =
      let (graph, at_floor, kept_graph, same_ids, counted) =
        plan_at-ok codec parse_commit parse_manifest io s roots commits (suc index)
          (floor_at (suc index) commits) planned_ok in
      let (hash, fuelled) =
        head-Fuelled codec parse_commit parse_manifest io s rank ranked (some id) read id refl in
      let (floor_hash, below) =
        floor_at-rank codec parse_commit parse_manifest keeps io s rank old
          (history_fuel codec parse_commit parse_manifest io s) index id plan.floor commits ranked
          hash walked at_floor in
      let kept : (x : ContentHash)
          → contains (ids (take (suc index) commits)) x ≡ true
          → contains plan.commits x ≡ true =
        λ x m.
          ap (λ l. contains l x) (sym same_ids)
          ∙ retention_graph-contains codec parse_commit parse_manifest keeps io s
              (take (suc index) commits) plan.floor roots.commits graph x kept_graph m in
      rw
        (
          new_floor codec parse_commit parse_manifest io t plan.floor readable floor_hash
              leaves.floor,
          read_head-same leaves.head ∙ read,
        )
        (visible_walk-retained codec parse_commit parse_manifest keeps io s t plan.commits
          leaves.commits rank old (history_fuel codec parse_commit parse_manifest io s)
          (history_fuel codec parse_commit parse_manifest io t) index id plan.floor commits ranked
          hash walked at_floor kept (omega (arith, count_to_le rank (rank id) t.commits)))

-- If each commit that can be read has a first parent of 32 bytes and of a lower rank, or none,
-- the reader of a commit gives it the id that it is read under, and the walk of visible commits
-- succeeds, then after a prune that succeeds, whatever its removals do, the visible commits are
-- those that the rule retains of them.
pub visible_commits-prune :
    (codec : Codec) (parse_commit : List ℕ → ContentHash → Option Commit)
    (parse_manifest : List ℕ → Option (List SampleEntry)) (io : RepositoryIo) (rule : RetentionRule)
    (roots : RetentionRoots) (grace_secs : ℕ) (removal : PruneIo) (s t : Repository)
    (report : RetentionReport) (commits : List Commit) (rank : ContentHash → ℕ)
    → KeepsId parse_commit
    → IsRanked codec parse_commit parse_manifest io s rank
    → visible_commits codec parse_commit parse_manifest io s ≡ ok commits
    → prune_history_with_grace codec parse_commit parse_manifest io rule roots grace_secs removal s
      ≡ (ok report, t)
    → visible_commits codec parse_commit parse_manifest io t
      ≡ ok (take (retained_prefix_len rule (timestamps_of commits)) commits)
unfolding prune_history_with_grace visible_commits
visible_commits-prune codec parse_commit parse_manifest io rule roots grace_secs removal s t report
      commits rank keeps ranked seen done =
    go (prune_plan codec parse_commit parse_manifest io rule roots s) refl done
  where
    nothing_kept :
        (n : ℕ)
        → commits ≡ []
        → s ≡ t
        → visible_commits codec parse_commit parse_manifest io t ≡ ok (take n commits)
    nothing_kept n empty same =
        ap (λ r. visible_commits codec parse_commit parse_manifest io r) (sym same)
        ∙ seen
        ∙ rw empty (take_nothing n)

    go :
        (plan : Result RepositoryError (Option Plan))
        → prune_plan codec parse_commit parse_manifest io rule roots s ≡ plan
        → planned codec parse_commit parse_manifest io grace_secs removal s plan ≡ (ok report, t)
        → visible_commits codec parse_commit parse_manifest io t
          ≡ ok (take (retained_prefix_len rule (timestamps_of commits)) commits)
    go (err x) decided e = err-ok (ap (λ r. r.0) e)
    go (ok none) decided e =
        let empty = floor_at-none rule commits (
          plan_at-none codec parse_commit parse_manifest io s roots commits
            (retained_prefix_len rule (timestamps_of commits)) _
            (prune_plan-ok codec parse_commit parse_manifest io rule roots s commits seen
              decided)) in
        nothing_kept (retained_prefix_len rule (timestamps_of commits)) empty (ap (λ r. r.1) e)
    go (ok (some plan)) decided e =
        let (old, floor_read, rest) = >>=-eq-ok (read_history_floor io s) _ seen in
        let (head, head_read, walked) = >>=-eq-ok (read_head io s) _ rest in
        pruned_walk codec parse_commit parse_manifest keeps io s t rank ranked old
          (retained_prefix_len rule (timestamps_of commits)) head commits roots plan report
          (planned-Leaves codec parse_commit parse_manifest io plan grace_secs removal s t report e)
          head_read (floor_readable-visible codec parse_commit parse_manifest io s floor_read)
          walked
          (prune_plan-ok codec parse_commit parse_manifest io rule roots s commits seen decided)
