-- ===== src/Tests/Pushing.antt =====
-- A push to a provider in memory, after another client moved the head.
use auru_pm_core.Tests.Memory.{Memory, memory, memory_view, memory-IsProvider}
use native.Mathlib.Decide.{ℕ_discrete}
use auru_pm_core.Sync.Mirrors.{fan_out}
use auru_pm_core.Sync.Mirrored.{Reports, fan_out-Reports}
use auru_pm_core.Sync.Drained.{Accounts, drain_pending_pushes-IsDelivered}
use auru_pm_core.Sync.Drain.{DrainState, drain_pending_pushes}
use auru_pm_core.Sync.Stashed.{Safe}
use auru_pm_core.Sync.Reviewable.{Reviewable, push-Reviewable}
use auru_pm_core.Json.{value_eq}
use auru_pm_core.Prelude.Int.{pos}
use auru_pm_core.Prelude.Order.{text_ltb}
use auru_pm_core.Merge.{merge3}
use auru_pm_core.Sync.Landing.{Pushed, Failed, push-Pushed}
use auru_pm_core.Sync.Push.{PushInput, push_with_optional_resolutions, committed}
use auru_pm_core.Tests.Blobs.{kept_commit}
use auru_pm_core.Sync.State.{Tools, SyncState}
use auru_pm_core.Sidecar.{SidecarIo, default_sidecar}
use auru_pm_core.Json.{Value, string}
use auru_pm_core.Commit.{Commit, sample}
use auru_pm_core.Hash.{ContentHash}
use auru_pm_core.Prelude.{
  Option, ◌≡◌, Text, lookup, some, ok, none, insert, map, refl, text_eq, codes, true, ◌∷◌, [],
  length, false,
}
use auru_pm_core.Prelude.Steps.{Ensures}

-- Texts stand for themselves, as hashes and as the JSON of a text.
abbrev text_or_none : Value → Option Text
text_or_none (string t) = some t
text_or_none _ = none

abbrev all_saved : SidecarIo
all_saved = record { readable = true; saved = true }

abbrev toy : Tools
toy = record {
  of = λ bytes. bytes;
  from_slice = λ bytes. some (string bytes);
  to_vec = text_or_none;
  manifest_encoding = λ entries. some (99 ∷ map (λ e. length e.path) entries);
  parse_manifest = λ bytes. some [];
  commit_id = λ content. some (7 ∷ content.snapshot);
  is_snapshot = λ bytes. true;
  requires_hydration = λ bytes. some false;
  snapshot_resources = λ value. some [];
  normalized = λ value. some (value, []);
  problems = λ value. [];
  info = λ bytes. some (55 ∷ bytes);
  plan_assets = λ value. record {
    assets =
        record {
          source = codes "kick.wav";
          bundle_path = codes "kick";
          kind = sample;
          origin = none;
        }
        ∷ [];
    unavailable = [];
  };
  read_file = λ path. some (1 ∷ 2 ∷ []);
  format_version = λ bytes. 8;
  now = pos 100;
  version = codes "1";
  sidecar_load = all_saved;
  sidecar_stash = all_saved;
  sidecar_end = all_saved;
}

abbrev commit_of : Text → ContentHash → Commit
commit_of snapshot id = record { id = id; content = record kept_commit { snapshot = snapshot } }

abbrev two_heads : Memory
two_heads = record {
  blobs = (codes "old", codes "old") ∷ (codes "theirs", codes "theirs") ∷ [];
  commits =
      (codes "a", commit_of (codes "old") (codes "a"))
      ∷ (codes "b", commit_of (codes "theirs") (codes "b"))
      ∷ [];
  head = some (codes "b");
}

-- The client stands at the first commit, and has a mirror that holds nothing.
abbrev behind : SyncState Memory
behind = record {
  primary = two_heads;
  sidecar = some (record default_sidecar { local_head = some (codes "a") });
  mirrors =
      record {
        provider_id = codes "usb";
        provider = memory;
        state = record { blobs = []; commits = []; head = none };
      }
      ∷ [];
}

abbrev unchanged : PushInput
unchanged = record {
  primary_id = codes "hub";
  snapshot_bytes = codes "old";
  author = kept_commit.author;
  message = codes "kick";
  description = [];
  resolutions = none;
  resources = [];
}

merged_push :
    (push_with_optional_resolutions memory toy unchanged behind).0
    ≡ ok (
        committed
          (7 ∷ codes "theirs")
          true
          (record { provider_id = codes "usb"; is_ok = true } ∷ [])
          [])
unfolding push_with_optional_resolutions merge3 text_eq lookup insert text_ltb value_eq
merged_push = refl

push-Pushed_example :
    Ensures
      (Pushed memory memory_view memory-IsProvider toy unchanged two_heads)
      (Failed memory memory_view memory-IsProvider toy unchanged two_heads)
      (push_with_optional_resolutions memory toy unchanged behind)
push-Pushed_example = push-Pushed memory memory_view memory-IsProvider toy unchanged behind

push-Reviewable_example :
    Ensures
      (Reviewable memory memory_view memory-IsProvider toy unchanged)
      (λ e t. Safe memory memory_view memory-IsProvider toy unchanged behind.sidecar t)
      (push_with_optional_resolutions memory toy unchanged behind)
push-Reviewable_example = push-Reviewable memory memory_view memory-IsProvider toy unchanged behind

-- One provider has the pending commit and its objects, and the other is empty.
abbrev one_pending : DrainState Memory
one_pending = record {
  sidecar = some (record default_sidecar { pending_pushes = codes "a" ∷ [] });
  providers =
      record {
        provider_id = codes "hub";
        provider = memory;
        state = record two_heads { blobs = (kept_commit.samples, codes "none") ∷ two_heads.blobs };
      }
      ∷ behind.mirrors;
}

drained : (drain_pending_pushes toy.parse_manifest all_saved all_saved one_pending).0 ≡ 1
unfolding drain_pending_pushes text_eq lookup insert ℕ_discrete
drained = refl

drain_pending_pushes-IsDelivered_example :
    Accounts memory_view toy.parse_manifest
      (codes "a")
      (drain_pending_pushes toy.parse_manifest all_saved all_saved one_pending).1
unfolding text_eq
drain_pending_pushes-IsDelivered_example =
    drain_pending_pushes-IsDelivered memory_view toy.parse_manifest all_saved all_saved one_pending
      (codes "a") (memory-IsProvider, (memory-IsProvider, tt)) refl

fan_out-Reports_example :
    Reports memory_view
      (commit_of (codes "old") (codes "a"))
      (codes "old")
      (codes "none")
      []
      (fan_out
        (commit_of (codes "old") (codes "a"))
        (codes "old")
        (codes "none")
        []
        behind.mirrors).0
      behind.mirrors
      (fan_out
        (commit_of (codes "old") (codes "a"))
        (codes "old")
        (codes "none")
        []
        behind.mirrors).1
fan_out-Reports_example =
    fan_out-Reports memory_view (commit_of (codes "old") (codes "a")) (codes "old") (codes "none")
      [] behind.mirrors (memory-IsProvider, tt)
