-- ===== src/Sync/State.antt =====
-- crates/auru-pm/src/sync.rs: the state of a client, the tools it calls, and its small helpers.
use auru_pm_core.Prelude.Order.{text_ltb}
use auru_pm_core.Prelude.Int.{ℤ}
use auru_pm_core.Merge.{insert_key}
use auru_pm_core.Json.{Value}
use mathlib.Core.List.{foldr}
use auru_pm_core.Hash.{ContentHash}
use auru_pm_core.Provider.{ProjectProvider}
use auru_pm_core.Commit.{SampleEntry, AssetKind, Content}
use auru_pm_core.Sidecar.{SidecarIo, Sidecar, load}
use auru_pm_core.Prelude.{
  Text, List, Option, Result, Bool, ℕ, ◌∷◌, none, err, some, if◌then◌else◌, text_eq, [], length, ok,
  ◌&&◌, ◌==◌,
}
use auru_pm_core.Merge.Resolve.{ResolveError}
use auru_pm_core.Prelude.Steps.{Step}

-- What each message of the code stands for.
pub data PushError : Type 0 where
  head_unknown sidecar_unreadable no_remote_head : PushError
  snapshot_invalid snapshot_unparsed resources_unreadable resource_missing : PushError
  resource_differs put_failed get_failed sidecar_unsaved merge_unencoded : PushError
  manifest_unencoded commit_unencoded commit_refused advance_failed head_conflict : PushError
  unresolved : ResolveError → PushError

pub record SnapshotResource : Type 0 where
  pub path : Text
  pub hash : ContentHash
  pub size : ℕ
  pub kind : AssetKind
  pub inline_data : Option (List ℕ)

-- `PlannedAsset`
pub record PlannedAsset : Type 0 where
  pub source : Text
  pub bundle_path : Text
  pub kind : AssetKind
  pub origin : Option Text

pub record PlannedAssets : Type 0 where
  pub assets : List PlannedAsset
  pub unavailable : List Text

-- The code that a push calls: the hash and the encoders, the reader of JSON, the formats of
-- projects, the plan of a project's assets, the files and the clock.
pub record Tools : Type 0 where
  pub of : List ℕ → ContentHash
  pub from_slice : List ℕ → Option Value
  pub to_vec : Value → Option (List ℕ)
  pub manifest_encoding : List SampleEntry → Option (List ℕ)
  pub parse_manifest : List ℕ → Option (List SampleEntry)
  pub commit_id : Content → Option ContentHash
  pub is_snapshot : List ℕ → Bool
  pub requires_hydration : List ℕ → Option Bool
  pub snapshot_resources : Value → Option (List SnapshotResource)
  pub normalized : Value → Option (Value × List (ContentHash × List ℕ))
  pub problems : Value → List Text
  pub info : List ℕ → Option (List ℕ)
  pub plan_assets : Value → PlannedAssets
  pub read_file : Text → Option (List ℕ)
  pub format_version : List ℕ → ℕ
  pub now : ℤ
  pub version : Text
  pub sidecar_load : SidecarIo
  pub sidecar_stash : SidecarIo
  pub sidecar_end : SidecarIo

pub record Mirror (S : Type 0) : Type 0 where
  pub provider_id : Text
  pub provider : ProjectProvider S
  pub state : S

-- The primary provider, the sidecar's file and the mirrors.
pub record SyncState (S : Type 0) : Type 0 where
  pub primary : S
  pub sidecar : Option Sidecar
  pub mirrors : List (Mirror S)

abbrev pub or_failed {ℓ} : {A : Type ℓ} → PushError → Result (Unit {0}) A → Result PushError A
or_failed e (err u) = err e
or_failed e (ok a) = ok a

abbrev pub on_primary {ℓ} :
    {S : Type 0} {A : Type ℓ} → PushError → Step (Unit {0}) S A → Step PushError (SyncState S) A
on_primary e call w =
    let (result, s) = call w.primary in (or_failed e result, record w { primary = s })

abbrev pub on_sidecar :
    {S : Type 0}
    → PushError
    → (Option Sidecar → Result (Unit {0}) (Unit {0}) × Option Sidecar)
    → Step PushError (SyncState S) (Unit {0})
on_sidecar e call w =
    let (result, file) = call w.sidecar in (or_failed e result, record w { sidecar = file })

abbrev pub load_sidecar : {S : Type 0} → SidecarIo → Step PushError (SyncState S) Sidecar
load_sidecar io w = (or_failed sidecar_unreadable (load io w.sidecar), w)

-- `SampleManifest::insert`: `entries` has one entry for each path, in their order.
unfoldable pub insert_sample : SampleEntry → List SampleEntry → List SampleEntry
insert_sample entry [] = entry ∷ []
insert_sample entry (e ∷ entries) =
    let rest = insert_sample entry entries in
    if text_eq e.path entry.path
    then entry ∷ entries
    else if text_ltb entry.path e.path
    then entry ∷ e ∷ entries
    else e ∷ rest

-- The manifest, the objects that were stored for it, and the assets that were not.
pub record Gathered : Type 0 where
  pub entries : List SampleEntry
  pub blobs : List (ContentHash × List ℕ)
  pub unavailable : List Text

-- Whether bytes are those that a resource names.
abbrev pub is_resource : Tools → SnapshotResource → List ℕ → Bool
is_resource tools r bytes = text_eq (tools.of bytes) r.hash && length bytes == r.size

abbrev pub filtered {ℓ} : {A : Type ℓ} → (A → Bool) → Option A → Option A
filtered test none = none
filtered test (some a) = if test a then some a else none

abbrev pub or_else {ℓ} : {A : Type ℓ} → Option A → Option A → Option A
or_else none b = b
or_else (some a) b = some a

abbrev pub sorted_distinct : List Text → List Text
sorted_distinct ts = foldr insert_key [] ts
