-- ===== src/Sync/Push.antt =====
-- `push_with_optional_resolutions` of crates/auru-pm/src/sync.rs.
use auru_pm_core.Prelude.Order.{insert_entry}
use auru_pm_core.Sidecar.{load, RemoteState, Sidecar, modify}
use auru_pm_core.Commit.{AuthorIdentity, Commit}
use auru_pm_core.Sync.Mirrors.{MirrorResult, fan_out, any_failed}
use auru_pm_core.Sync.{
  stash_snapshot, build_sample_manifest, normalize_dawproject_for_merge, write_commit_to_primary,
}
use auru_pm_core.Sync.State.{
  Tools, PushError, merge_unencoded, on_primary, unresolved, get_failed, no_remote_head,
  head_unknown, snapshot_unparsed, load_sidecar, snapshot_invalid, manifest_unencoded, on_sidecar,
  sidecar_unsaved, SyncState,
}
use auru_pm_core.Merge.Resolve.{ConflictChoice, ResolveError, resolve_conflicts}
use auru_pm_core.Provider.{ProjectProvider}
use auru_pm_core.Json.{value_eq, Value}
use auru_pm_core.Prelude.{
  Text, List, Option, Result, Bool, ℕ, [], codes, text_eq, true, some, Map, ◌&&◌, ◌∷◌, false,
  if◌then◌else◌, none, err, ok, not, opt_text_eq, contains, ◌++◌, map,
}
use auru_pm_core.Merge.{ConflictedField, MergeOutcome, clean, conflict, merge3}
use auru_pm_core.Hash.{ContentHash}
use auru_pm_core.Prelude.Steps.{Step, ◌>>=◌, ◌>>◌, done, fail, some_or_fail, ensure}

pub data PushOutcome : Type 0 where
  committed : ContentHash → Bool → List MirrorResult → List Text → PushOutcome
  needs_resolution : Value → List ConflictedField → PushOutcome
  needs_review : Value → List Text → ContentHash → PushOutcome

pub record ConflictResolution : Type 0 where
  pub conflict : ConflictedField
  pub choice : ConflictChoice

-- The arguments of a push.
pub record PushInput : Type 0 where
  pub primary_id : Text
  pub snapshot_bytes : List ℕ
  pub author : AuthorIdentity
  pub message : Text
  pub description : Text
  pub resolutions : Option (List ConflictResolution)
  pub resources : Map (List ℕ)

-- What is to be pushed: the snapshot, the parents, whether it is a merge, and the expected head.
pub data Prepared : Type 0 where
  stop : PushOutcome → Prepared
  ready : List ℕ → List ContentHash → Bool → Option ContentHash → Prepared

abbrev pub opt_value_eq : Option Value → Option Value → Bool
opt_value_eq none none = true
opt_value_eq (some a) (some b) = value_eq a b
opt_value_eq _ _ = false

-- The derived equality.
abbrev pub conflict_eq : ConflictedField → ConflictedField → Bool
conflict_eq a b =
    text_eq a.path b.path
    && (opt_value_eq a.ancestor b.ancestor
        && (opt_value_eq a.local b.local && opt_value_eq a.remote b.remote))

unfoldable pub conflict_resolutions_match : List ConflictedField → List ConflictResolution → Bool
unfolding value_eq
conflict_resolutions_match [] [] = true
conflict_resolutions_match (c ∷ current) (r ∷ resolutions) =
    conflict_eq c r.conflict && conflict_resolutions_match current resolutions
conflict_resolutions_match _ _ = false

abbrev pub or_unresolved :
    {S : Type 0} → Result ResolveError Value → Step PushError (SyncState S) Value
or_unresolved (err e) = fail (unresolved e)
or_unresolved (ok value) = done value

abbrev pub head_list : Option ContentHash → List ContentHash
head_list none = []
head_list (some id) = id ∷ []

abbrev pub merge_reason : Text
merge_reason = codes "before merging with the latest version"

module _ {S : Type 0} (p : ProjectProvider S) (tools : Tools) (input : PushInput) where
  -- A merged snapshot is pushed if it has no problems.
  abbrev pub reviewed :
      ContentHash → ContentHash → Value → List Text → Step PushError (SyncState S) Prepared
  reviewed local_id remote_id merged (problem ∷ problems) =
      done (stop (needs_review merged (problem ∷ problems) (tools.of input.snapshot_bytes)))
  reviewed local_id remote_id merged [] = do
    merged_bytes ← some_or_fail merge_unencoded (tools.to_vec merged)
    done (ready merged_bytes (local_id ∷ remote_id ∷ []) true (some remote_id))

  abbrev pub resolve :
      ContentHash
      → ContentHash
      → Value
      → List ConflictedField
      → Option (List ConflictResolution)
      → Step PushError (SyncState S) Prepared
  resolve local_id remote_id base conflicts none = done (stop (needs_resolution base conflicts))
  resolve local_id remote_id base conflicts (some resolutions) =
      if conflict_resolutions_match conflicts resolutions
      then (or_unresolved (resolve_conflicts base conflicts (map (λ r. r.choice) resolutions))
          >>= λ merged. reviewed local_id remote_id merged (tools.problems merged))
      else done (stop (needs_resolution base conflicts))

  abbrev pub settle :
      ContentHash → ContentHash → MergeOutcome → Step PushError (SyncState S) Prepared
  settle local_id remote_id (clean merged) =
      reviewed local_id remote_id merged (tools.problems merged)
  settle local_id remote_id (conflict base conflicts) =
      resolve local_id remote_id base conflicts input.resolutions

  -- The three states of a merge, read and normalized.
  abbrev pub merge_stashed : ContentHash → ContentHash → Step PushError (SyncState S) Prepared
  merge_stashed local_id remote_id = do
    ancestor_commit ← on_primary get_failed (p.get_commit local_id)
    ancestor_bytes ← on_primary get_failed (p.get_blob ancestor_commit.content.snapshot)
    remote_commit ← on_primary get_failed (p.get_commit remote_id)
    remote_bytes ← on_primary get_failed (p.get_blob remote_commit.content.snapshot)
    ancestor ← some_or_fail snapshot_unparsed (tools.from_slice ancestor_bytes)
    current ← some_or_fail snapshot_unparsed (tools.from_slice input.snapshot_bytes)
    remote ← some_or_fail snapshot_unparsed (tools.from_slice remote_bytes)
    ancestor' ← normalize_dawproject_for_merge p tools ancestor
    current' ← normalize_dawproject_for_merge p tools current
    remote' ← normalize_dawproject_for_merge p tools remote
    settle local_id remote_id (merge3 ancestor' current' remote')

  -- The local state is stashed before anything is merged.
  unfoldable pub merge_remote : ContentHash → ContentHash → Step PushError (SyncState S) Prepared
  unfolding stash_snapshot normalize_dawproject_for_merge
  merge_remote local_id remote_id = do
    stash ← stash_snapshot p tools input.snapshot_bytes input.resources (some local_id) merge_reason
    merge_stashed local_id remote_id

  -- The heads differ: a client with no history starts one of its own.
  abbrev pub diverged :
      Option ContentHash → Option ContentHash → Step PushError (SyncState S) Prepared
  diverged remote_head none = done (ready input.snapshot_bytes [] false none)
  diverged remote_head (some local_id) = do
    remote_id ← some_or_fail no_remote_head remote_head
    merge_remote local_id remote_id

  abbrev pub from_heads :
      Option ContentHash → Option ContentHash → Step PushError (SyncState S) Prepared
  from_heads remote_head local_head =
      if opt_text_eq remote_head local_head
      then done (ready input.snapshot_bytes (head_list local_head) false local_head)
      else diverged remote_head local_head

  unfoldable pub prepare : Step PushError (SyncState S) Prepared
  unfolding merge_remote load
  prepare = do
    remote_head ← on_primary head_unknown p.get_head
    sidecar ← load_sidecar tools.sidecar_load
    from_heads remote_head sidecar.local_head

  abbrev pub remote_state : ContentHash → RemoteState
  remote_state id = record { remote_head = some id; last_pulled = some tools.now }

  -- The sidecar after a commit.
  abbrev pub landed : ContentHash → List MirrorResult → Sidecar → Sidecar
  landed id results sidecar = record sidecar {
    primary = some input.primary_id;
    local_head = some id;
    remotes = insert_entry input.primary_id (remote_state id) sidecar.remotes;
    pending_pushes =
        if any_failed results && not (contains sidecar.pending_pushes id)
        then sidecar.pending_pushes ++ id ∷ []
        else sidecar.pending_pushes;
    stash = none;
  }

  abbrev pub to_mirrors :
      Commit
      → List ℕ
      → List ℕ
      → List (ContentHash × List ℕ)
      → Step PushError (SyncState S) (List MirrorResult)
  to_mirrors commit snapshot_bytes manifest_bytes blobs w =
      let (results, mirrors) = fan_out commit snapshot_bytes manifest_bytes blobs w.mirrors in
      (ok results, record w { mirrors = mirrors })

  unfoldable pub commit_prepared : Prepared → Step PushError (SyncState S) PushOutcome
  unfolding build_sample_manifest write_commit_to_primary fan_out modify
  commit_prepared (stop outcome) = done outcome
  commit_prepared (ready snapshot_bytes parents was_merge from_head) = do
    final_snapshot ← some_or_fail snapshot_unparsed (tools.from_slice snapshot_bytes)
    ensure (tools.is_snapshot snapshot_bytes) snapshot_invalid
    g ← build_sample_manifest p tools final_snapshot input.resources
    commit ←
        write_commit_to_primary p tools snapshot_bytes g.entries parents input.author input.message
          input.description from_head
    manifest_bytes ← some_or_fail manifest_unencoded (tools.manifest_encoding g.entries)
    results ← to_mirrors commit snapshot_bytes manifest_bytes g.blobs
    on_sidecar sidecar_unsaved (modify tools.sidecar_end (landed commit.id results))
    done (committed commit.id was_merge results g.unavailable)

  unfoldable pub push_with_optional_resolutions : Step PushError (SyncState S) PushOutcome
  unfolding prepare commit_prepared
  push_with_optional_resolutions = do prepared ← prepare; commit_prepared prepared
