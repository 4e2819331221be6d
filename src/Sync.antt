-- ===== src/Sync.antt =====
-- crates/auru-pm/src/sync.rs: what a push stores on the primary provider.
pub mod State
pub mod Mirrors
pub mod Drain
pub mod Delivered
pub mod Later
pub mod Drained
pub mod Mirrored
pub mod Push
pub mod Calm
pub mod Quiet
pub mod Prepared
pub mod Complete
pub mod Written
pub mod Landing
pub mod Spared
pub mod Stashed
pub mod Merging
pub mod Reviewable
use auru_pm_core.Sync.State.{
  Tools, PushError, SnapshotResource, PlannedAsset, Gathered, insert_sample, SyncState, or_else,
  on_primary, resource_missing, on_sidecar, snapshot_invalid, resources_unreadable, filtered,
  head_conflict, manifest_unencoded, put_failed, is_resource, sidecar_unsaved, snapshot_unparsed,
  get_failed, sorted_distinct, commit_unencoded, resource_differs, commit_refused, advance_failed,
}
use auru_pm_core.Prelude.Order.{text_ltb, insert_entry}
use auru_pm_core.Prelude.Int.{ℤ}
use auru_pm_core.Filesystem.Repository.{HeadAdvance, conflicting, advanced}
use auru_pm_core.Merge.{insert_key}
use auru_pm_core.Json.{Value}
use mathlib.Core.List.{foldr}
use auru_pm_core.Hash.{ContentHash}
use auru_pm_core.Provider.{ProjectProvider}
use auru_pm_core.Commit.{SampleEntry, AssetKind, Commit, Content, AuthorIdentity}
use auru_pm_core.Sidecar.{SidecarIo, Sidecar, modify, load, Stash}
use auru_pm_core.Prelude.{
  Text, List, Option, Result, Bool, ℕ, ◌∷◌, Map, none, err, some, if◌then◌else◌, text_eq, [],
  lookup, length, ◌++◌, ok, ◌&&◌, ◌==◌,
}
use auru_pm_core.Merge.Resolve.{ResolveError}
use auru_pm_core.Prelude.Steps.{Step, ◌>>=◌, ◌>>◌, done, fail, some_or_fail, ensure, and_then}

module _ {S : Type 0} (p : ProjectProvider S) (tools : Tools) where
  abbrev pub put_object : ContentHash → List ℕ → Step PushError (SyncState S) (Unit {0})
  put_object hash bytes = on_primary put_failed (p.put_blob hash bytes)

  unfoldable pub put_all : List (ContentHash × List ℕ) → Step PushError (SyncState S) (Unit {0})
  put_all [] = done tt
  put_all ((hash, bytes) ∷ blobs) = do put_object hash bytes; put_all blobs

  -- The loop over the resources of `stash_snapshot`.
  unfoldable pub stash_resources :
      Map (List ℕ)
      → List SnapshotResource
      → Map ContentHash
      → Step PushError (SyncState S) (Map ContentHash)
  stash_resources given [] kept = done kept
  stash_resources given (r ∷ resources) kept = do
    bytes ← some_or_fail resource_missing (lookup r.path given)
    ensure (is_resource tools r bytes) resource_differs
    put_object r.hash bytes
    stash_resources given resources (insert_entry r.path r.hash kept)

  abbrev pub hydrated_resources : Bool → Value → Option (List SnapshotResource)
  hydrated_resources hydrates value = if hydrates then tools.snapshot_resources value else some []

  abbrev pub stash_of : List ℕ → Option ContentHash → Text → Map ContentHash → Stash
  stash_of bytes base reason resources = record {
    snapshot = tools.of bytes;
    resources = resources;
    created_at = tools.now;
    base = base;
    reason = reason;
  }

  abbrev pub record_stash :
      List ℕ → Option ContentHash → Text → Map ContentHash → Step PushError (SyncState S) (Unit {0})
  record_stash bytes base reason kept = on_sidecar sidecar_unsaved (
      modify tools.sidecar_stash
        (λ sidecar. record sidecar { stash = some (stash_of bytes base reason kept) }))

  unfoldable pub stash_snapshot :
      List ℕ → Map (List ℕ) → Option ContentHash → Text → Step PushError (SyncState S) ContentHash
  unfolding stash_resources modify
  stash_snapshot bytes given base reason = do
    ensure (tools.is_snapshot bytes) snapshot_invalid
    value ← some_or_fail snapshot_unparsed (tools.from_slice bytes)
    hydrates ← some_or_fail resources_unreadable (tools.requires_hydration bytes)
    resources ← some_or_fail resources_unreadable (hydrated_resources hydrates value)
    kept ← stash_resources given resources []
    put_object (tools.of bytes) bytes
    record_stash bytes base reason kept
    done (tools.of bytes)

  -- The changed value and the objects that it names instead of carrying them.
  unfoldable pub normalize_dawproject_for_merge : Value → Step PushError (SyncState S) Value
  unfolding put_all
  normalize_dawproject_for_merge snapshot = do
    normal ← some_or_fail resources_unreadable (tools.normalized snapshot)
    put_all normal.1
    done normal.0

  abbrev pub asset_entry : PlannedAsset → List ℕ → SampleEntry
  asset_entry asset bytes = record {
    path = asset.bundle_path;
    hash = tools.of bytes;
    size = length bytes;
    kind = asset.kind;
    origin = asset.origin;
  }

  abbrev pub gathered : SampleEntry → List ℕ → Gathered → Gathered
  gathered entry bytes g = record g {
    entries = insert_sample entry g.entries;
    blobs = g.blobs ++ (entry.hash, bytes) ∷ [];
  }

  -- An asset that cannot be read is skipped.
  abbrev pub gather_asset :
      PlannedAsset → Gathered → Option (List ℕ) → Step PushError (SyncState S) Gathered
  gather_asset asset g none =
      done (record g { unavailable = g.unavailable ++ asset.bundle_path ∷ [] })
  gather_asset asset g (some bytes) = do
    put_object (tools.of bytes) bytes
    done (gathered (asset_entry asset bytes) bytes g)

  unfoldable pub gather_assets :
      List PlannedAsset → Gathered → Step PushError (SyncState S) Gathered
  gather_assets [] g = done g
  gather_assets (asset ∷ assets) g = do
    g' ← gather_asset asset g (tools.read_file asset.source)
    gather_assets assets g'

  abbrev pub resource_entry : SnapshotResource → SampleEntry
  resource_entry r = record {
    path = r.path;
    hash = r.hash;
    size = r.size;
    kind = r.kind;
    origin = none;
  }

  -- The bytes that the client has are stored; those of a remote side are read back and checked.
  abbrev pub gather_resource :
      SnapshotResource → Option (List ℕ) → Step PushError (SyncState S) (List ℕ)
  gather_resource r (some bytes) = do put_object r.hash bytes; done bytes
  gather_resource r none = do
    bytes ← on_primary get_failed (p.get_blob r.hash)
    ensure (is_resource tools r bytes) resource_differs
    done bytes

  abbrev pub candidate : Map (List ℕ) → SnapshotResource → Option (List ℕ)
  candidate detached r =
      or_else (filtered (is_resource tools r) (lookup r.path detached))
        (filtered (is_resource tools r) r.inline_data)

  unfoldable pub gather_resources :
      Map (List ℕ) → List SnapshotResource → Gathered → Step PushError (SyncState S) Gathered
  gather_resources detached [] g = done g
  gather_resources detached (r ∷ resources) g = do
    bytes ← gather_resource r (candidate detached r)
    gather_resources detached resources (gathered (resource_entry r) bytes g)

  unfoldable pub build_sample_manifest :
      Value → Map (List ℕ) → Step PushError (SyncState S) Gathered
  unfolding gather_assets gather_resources insert_sample insert_key
  build_sample_manifest snapshot detached = do
    let plan = tools.plan_assets snapshot
    g ←
        gather_assets plan.assets
          (record { entries = []; blobs = []; unavailable = plan.unavailable })
    resources ← some_or_fail resources_unreadable (tools.snapshot_resources snapshot)
    g' ← gather_resources detached resources g
    done (record g' { unavailable = sorted_distinct g'.unavailable })

  abbrev pub put_info : Option (List ℕ) → Step PushError (SyncState S) (Option ContentHash)
  put_info none = done none
  put_info (some bytes) = do put_object (tools.of bytes) bytes; done (some (tools.of bytes))

  -- A project that has no summary is stored without one.
  unfoldable pub store_project_info : List ℕ → Step PushError (SyncState S) (Option ContentHash)
  store_project_info snapshot_bytes = put_info (tools.info snapshot_bytes)

  abbrev pub advanced_or_conflict : Commit → HeadAdvance → Step PushError (SyncState S) Commit
  advanced_or_conflict commit advanced = done commit
  advanced_or_conflict commit (conflicting current) = fail head_conflict

  abbrev pub content_of :
      List ℕ
      → ContentHash
      → List ContentHash
      → AuthorIdentity
      → Text
      → Text
      → Option ContentHash
      → Content
  content_of snapshot_bytes samples parents author message description metadata = record {
    parents = parents;
    snapshot = tools.of snapshot_bytes;
    samples = samples;
    author = author;
    timestamp = tools.now;
    message = message;
    description = description;
    auru_version = tools.version;
    format_version = tools.format_version snapshot_bytes;
    metadata = metadata;
  }

  unfoldable pub write_commit_to_primary :
      List ℕ
      → List SampleEntry
      → List ContentHash
      → AuthorIdentity
      → Text
      → Text
      → Option ContentHash
      → Step PushError (SyncState S) Commit
  unfolding store_project_info
  write_commit_to_primary snapshot_bytes entries parents author message description from_head = do
    put_object (tools.of snapshot_bytes) snapshot_bytes
    manifest_bytes ← some_or_fail manifest_unencoded (tools.manifest_encoding entries)
    put_object (tools.of manifest_bytes) manifest_bytes
    metadata ← store_project_info snapshot_bytes
    let content =
        content_of snapshot_bytes (tools.of manifest_bytes) parents author message description
          metadata
    id ← some_or_fail commit_unencoded (tools.commit_id content)
    stored ← on_primary commit_refused (p.put_commit (record { id = id; content = content }))
    result ← on_primary advance_failed (p.advance_head from_head id)
    advanced_or_conflict (record { id = id; content = content }) result
