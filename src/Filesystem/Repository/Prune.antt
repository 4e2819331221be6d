-- ===== src/Filesystem/Repository/Prune.antt =====
-- `prune_history` of crates/auru-pm/src/filesystem.rs: the retained history, the graph of commits
-- that stay, and the collection of the others.
use auru_pm_core.Prelude.{
  List, ℕ, contains, ◌∷◌, Option, map, ◌+◌, if◌then◌else◌, none, Result, [], text_eq, ok, length,
  ◌>>◌, suc, some, err, ◌++◌, ensure, ◌>>=◌, take, zero, ◌-◌, get_elem?,
}
use mathlib.Core.Option
use auru_pm_core.Cas.{Codec}
use auru_pm_core.Cas.Collect.{GcReport, GcIo, gc}
use auru_pm_core.Commit.{Commit, SampleEntry}
use auru_pm_core.Filesystem.Control.{replace_control_file, last_of}
use auru_pm_core.Filesystem.Objects.{reachable_blobs}
use auru_pm_core.Filesystem.Repository.{
  Repository, RepositoryIo, RepositoryError, endless, io_failed, read_commit, visible_commits,
  or_objects_invalid,
}
use auru_pm_core.Hash.{ContentHash, to_string}
use auru_pm_core.Prelude.Int.{ℤ}
use auru_pm_core.Protocol.Retention.{RetentionRule, retained_prefix_len}

pub record RetentionRoots : Type 0 where
  pub commits : List ContentHash
  pub blobs : List ContentHash

pub record RetentionReport : Type 0 where
  pub versions_removed : ℕ
  pub objects_removed : ℕ
  pub bytes_freed : ℕ

-- The clock and the removals of the two collections.
pub record PruneIo : Type 0 where
  pub blobs_now : ℕ
  pub blobs_gc : GcIo
  pub commits_now : ℕ
  pub commits_gc : GcIo

-- What is decided before anything is written.
pub record Plan : Type 0 where
  pub floor : ContentHash
  pub removed : ℕ
  pub blobs : List ContentHash
  pub commits : List ContentHash

-- `pop` and `continue` while the top of the stack has been seen.
unfoldable pub skip_seen : List ContentHash → List ContentHash → List ContentHash
skip_seen seen [] = []
skip_seen seen (id ∷ pending) =
    let rest = skip_seen seen pending in if contains seen id then rest else id ∷ pending

unfoldable pub find_commit_in : ContentHash → List Commit → Option Commit
find_commit_in id [] = none
find_commit_in id (c ∷ commits) = if text_eq c.id id then some c else find_commit_in id commits

-- `extend` puts the parents on the stack, the last of them on its top.
unfoldable pub push_parents : List ContentHash → List ContentHash → List ContentHash
push_parents [] pending = pending
push_parents (p ∷ parents) pending = push_parents parents (p ∷ pending)

abbrev pub ids : List Commit → List ContentHash
ids = map (λ c. c.id)

abbrev pub timestamps_of : List Commit → List ℤ
timestamps_of = map (λ c. c.content.timestamp)

-- `checked_sub(1)` and `get`
abbrev pub floor_at : ℕ → List Commit → Option ContentHash
floor_at zero history = none
floor_at (suc index) history = Option.map (λ c. c.id) (get_elem? history index)

abbrev pub no_report : RetentionReport
no_report = record { versions_removed = 0; objects_removed = 0; bytes_freed = 0 }

abbrev pub retention_report : ℕ → GcReport → GcReport → RetentionReport
retention_report removed blobs commits = record {
  versions_removed = removed;
  objects_removed = blobs.freed_count + commits.freed_count;
  bytes_freed = blobs.freed_bytes + commits.freed_bytes;
}

module _ (codec : Codec) (parse_commit : List ℕ → ContentHash → Option Commit)
    (parse_manifest : List ℕ → Option (List SampleEntry)) (io : RepositoryIo) where
  abbrev pub found_or_read :
      Repository → ContentHash → Option Commit → Result RepositoryError Commit
  found_or_read s id none = read_commit codec parse_commit parse_manifest io s id
  found_or_read s id (some commit) = ok commit

  -- A round of `retention_graph` at the top of its stack, in front of the walk behind it.
  abbrev pub graph_round :
      Repository
      → List Commit
      → ContentHash
      → (List ContentHash → List ContentHash → Result RepositoryError (List Commit))
      → List ContentHash
      → List ContentHash
      → Result RepositoryError (List Commit)
  graph_round s retained floor walk seen [] = ok []
  graph_round s retained floor walk seen (id ∷ rest) = do
    commit ← found_or_read s id (find_commit_in id retained)
    graph ←
        walk (id ∷ seen)
          (if text_eq id floor then rest else push_parents commit.content.parents rest)
    ok (commit ∷ graph)

  abbrev pub graph_left : List ContentHash → Result RepositoryError (List Commit)
  graph_left [] = ok []
  graph_left (id ∷ rest) = err endless

  -- The loop of `retention_graph`, one round for each id that is new. The stack has its top first.
  unfoldable pub graph_walk :
      Repository
      → List Commit
      → ContentHash
      → ℕ
      → List ContentHash
      → List ContentHash
      → Result RepositoryError (List Commit)
  graph_walk s retained floor zero seen pending = graph_left (skip_seen seen pending)
  graph_walk s retained floor (suc fuel) seen pending =
      graph_round s retained floor
        (λ seen' pending'. graph_walk s retained floor fuel seen' pending') seen
        (skip_seen seen pending)

  -- One round for each retained commit and for each file of the commit store.
  unfoldable pub retention_graph :
      Repository
      → List Commit
      → ContentHash
      → List ContentHash
      → Result RepositoryError (List Commit)
  unfolding graph_walk
  retention_graph s retained floor protected =
      graph_walk s retained floor (length retained + length s.commits) []
        (push_parents (ids retained ++ protected) [])

  unfoldable pub plan_at :
      Repository
      → RetentionRoots
      → List Commit
      → ℕ
      → Option ContentHash
      → Result RepositoryError (Option Plan)
  unfolding retention_graph reachable_blobs
  plan_at s roots history kept none = ok none
  plan_at s roots history kept (some floor) = do
    graph ← retention_graph s (take kept history) floor roots.commits
    blobs ← or_objects_invalid (
        reachable_blobs codec io.blobs_readable parse_manifest s.blobs (map (λ c. c.content) graph)
          roots.blobs)
    ok (
        some (record {
          floor = floor;
          removed = length history - kept;
          blobs = blobs;
          commits = ids graph;
        }))

  unfoldable pub prune_plan :
      RetentionRule → RetentionRoots → Repository → Result RepositoryError (Option Plan)
  unfolding visible_commits plan_at retained_prefix_len
  prune_plan rule roots s = do
    ensure io.locked io_failed
    history ← visible_commits codec parse_commit parse_manifest io s
    let kept = retained_prefix_len rule (timestamps_of history)
    plan_at s roots history kept (floor_at kept history)

  -- Both collections, after the floor is written.
  unfoldable pub collected :
      Plan → ℕ → PruneIo → Repository → Result RepositoryError RetentionReport × Repository
  unfolding gc
  collected plan grace_secs removal s =
      let (blob_report, blobs) =
        gc plan.blobs grace_secs removal.blobs_now removal.blobs_gc s.blobs in
      let (commit_report, commits) =
        gc plan.commits grace_secs removal.commits_now removal.commits_gc s.commits in
      (
        ok (retention_report plan.removed blob_report commit_report),
        record s { blobs = blobs; commits = commits },
      )

  -- `write_history_floor` before the collections: a failure leaves the objects alone.
  abbrev pub collect_after :
      Plan
      → ℕ
      → PruneIo
      → Repository
      → Result (Unit {0}) (Unit {0})
      → Result RepositoryError RetentionReport × Repository
  collect_after plan grace_secs removal s (err e) = (err io_failed, s)
  collect_after plan grace_secs removal s (ok done) = collected plan grace_secs removal s

  abbrev pub write_floor :
      Plan → ℕ → PruneIo → Repository → Result RepositoryError RetentionReport × Repository
  write_floor plan grace_secs removal s =
      let (result, states) = replace_control_file io.replace (to_string plan.floor) s.floor in
      collect_after plan grace_secs removal (record s { floor = last_of s.floor states }) result

  abbrev pub planned :
      ℕ
      → PruneIo
      → Repository
      → Result RepositoryError (Option Plan)
      → Result RepositoryError RetentionReport × Repository
  planned grace_secs removal s (err e) = (err e, s)
  planned grace_secs removal s (ok none) = (ok no_report, s)
  planned grace_secs removal s (ok (some plan)) = write_floor plan grace_secs removal s

  unfoldable pub prune_history_with_grace :
      RetentionRule
      → RetentionRoots
      → ℕ
      → PruneIo
      → Repository
      → Result RepositoryError RetentionReport × Repository
  unfolding prune_plan collected
  prune_history_with_grace rule roots grace_secs removal s =
      planned grace_secs removal s (prune_plan rule roots s)
