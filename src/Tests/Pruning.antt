-- ===== src/Tests/Pruning.antt =====
-- A provider on a folder with two versions, pruned to the newest.
use auru_pm_core.Filesystem.Repository.Prune.{skip_seen, push_parents, find_commit_in}
use auru_pm_core.Filesystem.Objects.{read_manifest}
use auru_pm_core.Filesystem.Control.{replace_control_file}
use auru_pm_core.Tests.Blobs.{stored}
use auru_pm_core.Prelude.{arith, inr, none-some}
use auru_pm_core.Hash.RoundTrip.{IsHash}
use mathlib.Core.Path.{subst}
use auru_pm_core.Filesystem.Repository.Pruned.{visible_commits-prune}
use auru_pm_core.Cas.Collect.{gc, judge}
use auru_pm_core.Tests.Providing.{all_works, no_file}
use auru_pm_core.Filesystem.Repository.Ends.{IsRanked}
use auru_pm_core.Tests.Blobs.{gc_io, test_codec, one_hash, kept_commit, sevens, zero_hash-IsHash}
use auru_pm_core.Commit.{Commit, SampleEntry}
use auru_pm_core.Filesystem.Control.{Control}
use auru_pm_core.Protocol.Retention.{retained_prefix_len, latest}
use auru_pm_core.Hash.{ContentHash, to_string, zero_hash, from_str}
use auru_pm_core.Filesystem.Repository.Prune.{
  PruneIo, RetentionReport, RetentionRoots, prune_history_with_grace,
}
use auru_pm_core.Filesystem.Repository.{
  Repository, visible_commits, read_commit, or_store_failed, parent_of,
}
use auru_pm_core.Cas.{Store, path_for, encode_frame, get, read_stored, decode_frame, hash_of}
use auru_pm_core.Prelude.{
  List, Text, ℕ, length, [], text_eq, Option, some, if◌then◌else◌, ◌∷◌, none, lookup, >>=-eq-ok,
  ◌≡◌, ◌++◌, ok, true, take, Bool-cases, refl, inl, ap, sym, some-injective, ok-injective, ◌∙◌,
}

-- The second version has the first as its parent.
abbrev parse_pair : List ℕ → ContentHash → Option Commit
parse_pair bytes id = some (record {
  id = id;
  content =
      if text_eq id one_hash then record kept_commit { parents = zero_hash ∷ [] } else kept_commit;
})

abbrev no_samples : List ℕ → Option (List SampleEntry)
no_samples bytes = some []

abbrev second_stored : Store
second_stored =
    (path_for one_hash, record { bytes = encode_frame test_codec (8 ∷ []); mtime = some 50 }) ∷ []

abbrev holding : Text → Control
holding value = record { primary = some value; backup = none; tmp = none }

abbrev two_versions : Repository
two_versions = record {
  head = holding (to_string one_hash);
  floor = no_file;
  commits = second_stored ++ stored;
  blobs = stored;
}

abbrev one_version : Repository
one_version = record two_versions { floor = holding (to_string one_hash); commits = second_stored }

abbrev pair : List Commit
pair =
    record { id = one_hash; content = record kept_commit { parents = zero_hash ∷ [] } }
    ∷ record { id = zero_hash; content = kept_commit }
    ∷ []

abbrev removal : PruneIo
removal = record { blobs_now = 1000; blobs_gc = gc_io; commits_now = 1000; commits_gc = gc_io }

abbrev one_removed : RetentionReport
one_removed = record {
  versions_removed = 1;
  objects_removed = 1;
  bytes_freed = length (encode_frame test_codec sevens);
}

abbrev no_roots : RetentionRoots
no_roots = record { commits = []; blobs = [] }

pair_seen : visible_commits test_codec parse_pair no_samples all_works two_versions ≡ ok pair
unfolding visible_commits to_string text_eq get lookup path_for read_stored decode_frame
    encode_frame
pair_seen = refl

pair_pruned :
    prune_history_with_grace test_codec parse_pair no_samples all_works
      (latest 1)
      no_roots
      10
      removal
      two_versions
    ≡ (ok one_removed, one_version)
unfolding prune_history_with_grace to_string text_eq get lookup path_for read_stored decode_frame
    encode_frame gc judge hash_of from_str skip_seen push_parents find_commit_in read_manifest
    replace_control_file
pair_pruned = refl

-- The second version ranks above the first.
abbrev age : ContentHash → ℕ
age id = if text_eq id one_hash then 1 else 0

pair-IsRanked : IsRanked test_codec parse_pair no_samples all_works two_versions age
unfolding read_commit text_eq
pair-IsRanked id parent commit read e =
    let (bytes, got, parsed) =
      >>=-eq-ok (or_store_failed (get test_codec true id (second_stored ++ stored))) _ read in
    elim (Bool-cases (text_eq id one_hash)) [
      | inl second ↦
          let here : some zero_hash ≡ some parent =
            rw second at (ap parent_of (ok-injective parsed) ∙ e) in
          let first = some-injective _ _ here in
          (subst IsHash first zero_hash-IsHash, rw (sym first, second) (omega arith))
      | inr other ↦ absurd (none-some (rw other at (ap parent_of (ok-injective parsed) ∙ e)))
    ]

visible_commits-prune_example :
    visible_commits test_codec parse_pair no_samples all_works one_version ≡ ok (take 1 pair)
unfolding retained_prefix_len
visible_commits-prune_example =
    visible_commits-prune test_codec parse_pair no_samples all_works (latest 1) no_roots 10 removal
      two_versions one_version one_removed pair age
      (λ bytes id commit e. sym (ap (λ c. c.id) (some-injective _ _ e))) pair-IsRanked pair_seen
      pair_pruned
