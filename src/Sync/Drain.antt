-- ===== src/Sync/Drain.antt =====
-- `drain_pending_pushes` of crates/auru-pm/src/sync.rs.
use auru_pm_core.Sync.State.{Mirror}
use auru_pm_core.Hash.{ContentHash}
use auru_pm_core.Sync.Mirrors.{put_blobs, succeeded, ignore}
use auru_pm_core.Sidecar.{Sidecar, SidecarIo, load, modify}
use auru_pm_core.Provider.{ProjectProvider}
use auru_pm_core.Prelude.{
  Option, List, ℕ, Bool, Result, false, err, ◌∷◌, ok, none, true, some, suc, if◌then◌else◌, [],
  length, zero, ◌&&◌, ◌-◌,
}
use auru_pm_core.Commit.{Commit, SampleEntry}
use auru_pm_core.Prelude.Steps.{Step, ◌>>=◌, ◌>>◌, done, some_or_fail}

-- A pending commit with its objects, as one provider has them.
pub record Bundle : Type 0 where
  pub commit : Commit
  pub snapshot_bytes : List ℕ
  pub manifest_bytes : List ℕ
  pub sample_blobs : List (ContentHash × List ℕ)

-- The sidecar's file and the providers.
pub record DrainState (S : Type 0) : Type 0 where
  pub sidecar : Option Sidecar
  pub providers : List (Mirror S)

abbrev pub first_or_false : List Bool → Bool
first_or_false [] = false
first_or_false (present ∷ rest) = present

module _ {S : Type 0} (p : ProjectProvider S) where
  unfoldable pub fetch_blobs : List SampleEntry → Step (Unit {0}) S (List (ContentHash × List ℕ))
  fetch_blobs [] = done []
  fetch_blobs (entry ∷ entries) = do
    bytes ← p.get_blob entry.hash
    blobs ← fetch_blobs entries
    done ((entry.hash, bytes) ∷ blobs)

  -- One provider's turn: `continue` is an error here.
  unfoldable pub fetch_bundle :
      (List ℕ → Option (List SampleEntry)) → ContentHash → Step (Unit {0}) S Bundle
  unfolding fetch_blobs
  fetch_bundle parse_manifest id = do
    commit ← p.get_commit id
    snapshot_bytes ← p.get_blob commit.content.snapshot
    manifest_bytes ← p.get_blob commit.content.samples
    entries ← some_or_fail tt (parse_manifest manifest_bytes)
    blobs ← fetch_blobs entries
    done (record {
      commit = commit;
      snapshot_bytes = snapshot_bytes;
      manifest_bytes = manifest_bytes;
      sample_blobs = blobs;
    })

  -- The snapshot is put if the provider answers that it is not there.
  abbrev pub put_missing :
      Bundle → Result (Unit {0}) (List Bool) × S → Result (Unit {0}) (Unit {0}) × S
  put_missing b (err e, s) = (ok tt, s)
  put_missing b (ok present, s) =
      if first_or_false present
      then (ok tt, s)
      else p.put_blob b.commit.content.snapshot b.snapshot_bytes s

  unfoldable pub deliver : ContentHash → Bundle → Step (Unit {0}) S (Unit {0})
  unfolding put_blobs
  deliver id b = do
    λ s. put_missing b (p.has_blobs (b.commit.content.snapshot ∷ []) s)
    put_blobs p b.sample_blobs
    p.put_blob b.commit.content.samples b.manifest_bytes
    stored ← p.put_commit b.commit
    ignore (p.advance_head none id)

abbrev pub kept_if : Bool → ContentHash → List ContentHash → List ContentHash
kept_if true id still = still
kept_if false id still = id ∷ still

-- The error of the save is dropped.
abbrev pub save_pending : SidecarIo → ℕ → List ContentHash → Option Sidecar → Option Sidecar
save_pending io zero still file = file
save_pending io (suc drained) still file =
    (modify io (λ sidecar. record sidecar { pending_pushes = still }) file).1

module _ {S : Type 0} (parse_manifest : List ℕ → Option (List SampleEntry)) where
  -- The first provider that has everything.
  abbrev pub or_next :
      Mirror S
      → Option Bundle × List (Mirror S)
      → List (Mirror S)
      → Result (Unit {0}) Bundle × S
      → Option Bundle × List (Mirror S)
  or_next m (found, rest') rest (err e, s) = (found, record m { state = s } ∷ rest')
  or_next m later rest (ok b, s) = (some b, record m { state = s } ∷ rest)

  unfoldable pub fetch_any : ContentHash → List (Mirror S) → Option Bundle × List (Mirror S)
  unfolding fetch_bundle
  fetch_any id [] = (none, [])
  fetch_any id (m ∷ providers) =
      or_next m (fetch_any id providers) providers
        (fetch_bundle m.provider parse_manifest id m.state)

  -- Every provider has its turn, whatever became of the others.
  unfoldable pub deliver_all : ContentHash → Bundle → List (Mirror S) → Bool × List (Mirror S)
  unfolding deliver
  deliver_all id b [] = (true, [])
  deliver_all id b (m ∷ providers) =
      let (result, s) = deliver m.provider id b m.state in
      let (all_ok, providers') = deliver_all id b providers in
      (succeeded result && all_ok, record m { state = s } ∷ providers')

  abbrev pub deliver_found : ContentHash → Option Bundle × List (Mirror S) → Bool × List (Mirror S)
  deliver_found id (none, providers) = (false, providers)
  deliver_found id (some b, providers) = deliver_all id b providers

  unfoldable pub drain_one : ContentHash → List (Mirror S) → Bool × List (Mirror S)
  unfolding fetch_any deliver_all
  drain_one id providers = deliver_found id (fetch_any id providers)

  -- The commits that are still pending, in their order.
  unfoldable pub drain_loop :
      List ContentHash → List (Mirror S) → List ContentHash × List (Mirror S)
  unfolding drain_one
  drain_loop [] providers = ([], providers)
  drain_loop (id ∷ pending) providers =
      let (delivered, providers') = drain_one id providers in
      let (still, providers'') = drain_loop pending providers' in
      (kept_if delivered id still, providers'')

  abbrev pub drain_loaded : SidecarIo → DrainState S → Result (Unit {0}) Sidecar → ℕ × DrainState S
  drain_loaded io w (err e) = (0, w)
  drain_loaded io w (ok sidecar) =
      let (still, providers) = drain_loop sidecar.pending_pushes w.providers in
      let drained = length sidecar.pending_pushes - length still in
      (
        drained,
        record w { sidecar = save_pending io drained still w.sidecar; providers = providers },
      )

  -- No pending push and no provider make a loop of no effect.
  unfoldable pub drain_pending_pushes : SidecarIo → SidecarIo → DrainState S → ℕ × DrainState S
  unfolding drain_loop load modify
  drain_pending_pushes io_load io_save w = drain_loaded io_save w (load io_load w.sidecar)
