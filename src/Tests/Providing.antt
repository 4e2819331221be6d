-- ===== src/Tests/Providing.antt =====
-- A provider on a folder: its first commit, its head and its history.
use mathlib.Core.Path.{subst}
use auru_pm_core.Hash.RoundTrip.{IsHash}
use auru_pm_core.Prelude.{
  none, [], true, List, some, ◌≡◌, ℕ, ok, ◌≢◌, Option, ◌∷◌, refl, text_eq, sym, lookup, arith, ap,
  some-injective, insert, remove, ◌<◌, length, ◌≤◌,
}
use auru_pm_core.Cas.{get, write_frame, path_for, read_stored, decode_frame, encode_frame}
use auru_pm_core.Commit.{Commit, External, SampleEntry}
use auru_pm_core.Filesystem.Control.{Control}
use auru_pm_core.Filesystem.Repository.{
  Repository, RepositoryIo, advanced, advance_head, list_history, put_commit, read_commit,
  visible_commits,
}
use auru_pm_core.Filesystem.Repository.Head.{Swaps, advance_head-Swaps, advance_head_once}
use auru_pm_core.Filesystem.Repository.History.{page, list_history-page}
use auru_pm_core.Filesystem.Repository.Commits.{read_commit-put_commit, EncodesApart}
use auru_pm_core.Hash.{ContentHash, zero_hash, to_string}
use auru_pm_core.Server.Store.{written}
use auru_pm_core.Tests.Blobs.{
  sevens, one_hash, test_codec, disk_works, stored, kept_commit, zero_hash-IsHash,
  test_codec-IsReliable, alone, empty-IsIntact,
}

abbrev pub no_file : Control
no_file = record { primary = none; backup = none; tmp = none }

abbrev fresh : Repository
fresh = record { head = no_file; floor = no_file; commits = []; blobs = [] }

abbrev pub all_works : RepositoryIo
all_works = record {
  locked = true;
  head_readable = true;
  floor_readable = true;
  commit_readable = λ id. true;
  blobs_readable = true;
  replace = record {
    write = written;
    renamed = true;
    backup_cleared = true;
    moved = true;
    replaced = true;
    restored = true;
    backup_dropped = true;
    tmp_dropped = true;
  };
}

-- The one commit that the folder has.
abbrev first_commit : Commit
first_commit = record { id = zero_hash; content = kept_commit }

abbrev pub parse_first : List ℕ → ContentHash → Option Commit
parse_first bytes id = some (record { id = id; content = kept_commit })

abbrev pub no_manifest : List ℕ → Option (List SampleEntry)
no_manifest bytes = none

abbrev sevens_external : External
sevens_external = record {
  blake3 = test_codec.of;
  jcs = λ content. some sevens;
  parse_manifest = no_manifest;
}

abbrev with_commit : Repository
with_commit = record fresh { commits = stored }

abbrev published : Repository
published = record with_commit {
  head = record { primary = some (to_string zero_hash); backup = none; tmp = none };
}

first_stored :
    put_commit sevens_external test_codec disk_works first_commit fresh
    ≡ (ok zero_hash, with_commit)
unfolding put_commit text_eq lookup write_frame insert remove path_for
first_stored = refl

first_published :
    advance_head test_codec parse_first no_manifest all_works none zero_hash with_commit
    ≡ (ok advanced, published)
unfolding advance_head
first_published = refl

published_history :
    visible_commits test_codec parse_first no_manifest all_works published ≡ ok (first_commit ∷ [])
unfolding visible_commits to_string text_eq get lookup path_for read_stored decode_frame
    encode_frame
published_history = refl

sevens-EncodesApart : EncodesApart sevens_external test_codec kept_commit
sevens-EncodesApart bytes other encoded =
    subst (λ b. test_codec.of other ≡ test_codec.of b → other ≡ b) (some-injective _ _ encoded)
      (alone other)

one_hash-IsHash : IsHash one_hash
one_hash-IsHash = record { bytes = omega arith; size = refl }

read_commit-put_commit_example :
    read_commit test_codec parse_first no_manifest all_works with_commit zero_hash ≡ ok first_commit
read_commit-put_commit_example =
    read_commit-put_commit sevens_external test_codec parse_first no_manifest disk_works all_works
      first_commit fresh with_commit zero_hash test_codec-IsReliable empty-IsIntact
      (λ bytes id e. refl) sevens-EncodesApart refl first_stored

advance_head-Swaps_example :
    Swaps none zero_hash with_commit
      (advance_head test_codec parse_first no_manifest all_works none zero_hash with_commit)
advance_head-Swaps_example =
    advance_head-Swaps test_codec parse_first no_manifest all_works none zero_hash with_commit
      zero_hash-IsHash

advance_head_once_example :
    advance_head test_codec parse_first no_manifest all_works none one_hash published
    ≢ (ok advanced, published)
advance_head_once_example =
    advance_head_once test_codec parse_first no_manifest all_works all_works none zero_hash one_hash
      with_commit published published zero_hash-IsHash one_hash-IsHash (λ e. cc) first_published

list_history-page_example :
    (list_history test_codec parse_first no_manifest all_works (some 5) none published
      ≡ ok (page 5 none (first_commit ∷ [])))
    × (0 < 5 → length (page 5 none (first_commit ∷ [])) ≤ 5)
list_history-page_example =
    list_history-page test_codec parse_first no_manifest all_works (some 5) none published
      (first_commit ∷ []) (λ bytes id commit e. sym (ap (λ c. c.id) (some-injective _ _ e))) refl
      published_history
