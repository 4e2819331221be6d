-- ===== src/Sync/Prepared.antt =====
-- What `push_with_optional_resolutions` of crates/auru-pm/src/sync.rs settles before it writes.
use auru_pm_core.Merge.Resolve.{ResolveError, resolve_conflicts}
use auru_pm_core.Sync.Quiet.{stash_snapshot-Moves}
use auru_pm_core.Sync.Calm.{
  get_commit-Calm, get_blob-Calm, normalize-Calm, get_head-Calm, load_sidecar-Calm,
}
use auru_pm_core.Commit.{Commit}
use auru_pm_core.Merge.{MergeOutcome, clean, conflict, merge3}
use auru_pm_core.Json.{Value}
use auru_pm_core.Sync.{normalize_dawproject_for_merge, stash_snapshot}
use auru_pm_core.Sync.State.{
  Tools, SyncState, PushError, on_primary, get_failed, merge_unencoded, no_remote_head,
  head_unknown, snapshot_unparsed, load_sidecar,
}
use auru_pm_core.Hash.{ContentHash}
use auru_pm_core.Provider.{ProjectProvider, View, IsProvider}
use auru_pm_core.Sync.Push.{
  Prepared, stop, committed, needs_resolution, PushInput, needs_review, merge_remote, ready, settle,
  reviewed, or_unresolved, ConflictResolution, resolve, conflict_resolutions_match, merge_reason,
  diverged, from_heads, prepare, head_list,
}
use auru_pm_core.Prelude.{
  List, Option, ◌≡◌, [], some, contains, Result, Text, true, ◌∷◌, none, err, Bool, ok, ℕ,
  if◌then◌else◌, arith, text_eq_refl, map, false, refl, opt_text_eq,
}
use auru_pm_core.Prelude.Steps.{Step, ◌>>=◌, done, some_or_fail, and_then, Ensures, Ensures-some}

-- The head that a commit replaces is among its parents; without a head it has none.
unfoldable pub Follows : List ContentHash → Option ContentHash → Type 0
Follows parents none = parents ≡ []
Follows parents (some head) = contains parents head ≡ true

unfoldable pub Fits : Prepared → Type 0
unfolding Follows
Fits (stop (committed id was_merge results unavailable)) = ⊥
Fits (stop (needs_resolution base conflicts)) = Unit
Fits (stop (needs_review merged problems stash)) = Unit
Fits (ready bytes parents was_merge from) = Follows parents from

module _ {S : Type 0} (p : ProjectProvider S) (v : View S) (laws : IsProvider v p) (tools : Tools)
    (input : PushInput) where
  -- A step that stays quiet and gives what fits.
  abbrev pub Settles : SyncState S → Result PushError Prepared × SyncState S → Type 0
  Settles w end =
      Ensures (λ q t. v.Moves w.primary t.primary × Fits q) (λ e t. v.Moves w.primary t.primary) end

  Settles-bind {i} :
      {A : Type i} (w : SyncState S) (end : Result PushError A × SyncState S)
      (next : A → Step PushError (SyncState S) Prepared)
      → v.Moves w.primary end.1.primary
      → ((a : A) (t : SyncState S) → Settles t (next a t))
      → Settles w (and_then end next)
  Settles-bind w (err e, t) next h k = h
  Settles-bind w (ok a, t) next h k = go (next a t) (k a t)
    where
      go : (end : Result PushError Prepared × SyncState S) → Settles t end → Settles w end
      go (err e, u) m = laws.chain w.primary t.primary u.primary h m
      go (ok q, u) (m, f) = (laws.chain w.primary t.primary u.primary h m, f)

  Settles-some {i} :
      {A : Type i} (w : SyncState S) (e : PushError) (found : Option A)
      (next : A → Step PushError (SyncState S) Prepared)
      → ((a : A) → Settles w (next a w))
      → Settles w (and_then (some_or_fail e found w) next)
  Settles-some w e found next k =
      Ensures-some _ _ e found w next (λ a same. k a) (laws.rest w.primary)

  reviewed-Settles :
      (local_id remote_id : ContentHash) (merged : Value) (problems : List Text) (w : SyncState S)
      → Settles w (reviewed p tools input local_id remote_id merged problems w)
  unfolding Fits Follows
  reviewed-Settles local_id remote_id merged (problem ∷ problems) w = (laws.rest w.primary, tt)
  reviewed-Settles local_id remote_id merged [] w =
      Settles-some w merge_unencoded (tools.to_vec merged) _
        (λ bytes. (laws.rest w.primary, ground (arith, text_eq_refl remote_id)))

  settle-Settles :
      (local_id remote_id : ContentHash) (outcome : MergeOutcome) (w : SyncState S)
      → Settles w (settle p tools input local_id remote_id outcome w)
  unfolding Fits
  settle-Settles local_id remote_id (clean merged) w =
      reviewed-Settles local_id remote_id merged (tools.problems merged) w
  settle-Settles local_id remote_id (conflict base conflicts) w = go input.resolutions
    where
      chosen :
          (test : Bool) (result : Result ResolveError Value)
          → Settles w (
              (if test
                  then (or_unresolved result >>= λ merged.
                      reviewed p tools input local_id remote_id merged (tools.problems merged))
                  else done (stop (needs_resolution base conflicts)))
                w)
      chosen false result = (laws.rest w.primary, tt)
      chosen true (err e) = laws.rest w.primary
      chosen true (ok merged) = reviewed-Settles local_id remote_id merged (tools.problems merged) w

      go :
          (resolutions : Option (List ConflictResolution))
          → Settles w (resolve p tools input local_id remote_id base conflicts resolutions w)
      go none = (laws.rest w.primary, tt)
      go (some resolutions) =
          chosen (conflict_resolutions_match conflicts resolutions)
            (resolve_conflicts base conflicts (map (λ r. r.choice) resolutions))

  merge_remote-Settles :
      (local_id remote_id : ContentHash) (w : SyncState S)
      → Settles w (merge_remote p tools input local_id remote_id w)
  unfolding merge_remote
  merge_remote-Settles local_id remote_id w =
      Settles-bind w
        (stash_snapshot p tools input.snapshot_bytes input.resources (some local_id) merge_reason w)
        _
        (stash_snapshot-Moves p v laws tools input.snapshot_bytes input.resources (some local_id)
          merge_reason w)
        λ stash t. read_commit local_id t _ λ ancestor_commit t1.
          read_blob ancestor_commit.content.snapshot t1 _ λ ancestor_bytes t2.
            read_commit remote_id t2 _ λ remote_commit t3.
              read_blob remote_commit.content.snapshot t3 _ λ remote_bytes t4.
                Settles-some t4 snapshot_unparsed (tools.from_slice ancestor_bytes) _ λ ancestor.
                  Settles-some t4 snapshot_unparsed (tools.from_slice input.snapshot_bytes) _
                    λ current.
                      Settles-some t4 snapshot_unparsed (tools.from_slice remote_bytes) _ λ remote.
                        normal ancestor t4 _ λ ancestor' t5. normal current t5 _ λ current' t6.
                          normal remote t6 _ λ remote' t7.
                            settle-Settles local_id remote_id (merge3 ancestor' current' remote') t7
    where
      read_commit :
          (id : ContentHash) (w : SyncState S)
          (next : Commit → Step PushError (SyncState S) Prepared)
          → ((c : Commit) (t : SyncState S) → Settles t (next c t))
          → Settles w (and_then (on_primary get_failed (p.get_commit id) w) next)
      read_commit id w next =
          Settles-bind w _ next (get_commit-Calm p v laws tools get_failed id w).0

      read_blob :
          (h : ContentHash) (w : SyncState S)
          (next : List ℕ → Step PushError (SyncState S) Prepared)
          → ((c : List ℕ) (t : SyncState S) → Settles t (next c t))
          → Settles w (and_then (on_primary get_failed (p.get_blob h) w) next)
      read_blob h w next = Settles-bind w _ next (get_blob-Calm p v laws tools get_failed h w).0

      normal :
          (j : Value) (w : SyncState S) (next : Value → Step PushError (SyncState S) Prepared)
          → ((c : Value) (t : SyncState S) → Settles t (next c t))
          → Settles w (and_then (normalize_dawproject_for_merge p tools j w) next)
      normal j w next = Settles-bind w _ next (normalize-Calm p v laws tools j w).0

  diverged-Settles :
      (remote_head local_head : Option ContentHash) (w : SyncState S)
      → Settles w (diverged p tools input remote_head local_head w)
  unfolding Fits Follows
  diverged-Settles remote_head none w = (laws.rest w.primary, refl)
  diverged-Settles remote_head (some local_id) w =
      Settles-some w no_remote_head remote_head _
        (λ remote_id. merge_remote-Settles local_id remote_id w)

  from_heads-Settles :
      (remote_head local_head : Option ContentHash) (w : SyncState S)
      → Settles w (from_heads p tools input remote_head local_head w)
  unfolding Fits Follows
  from_heads-Settles remote_head local_head w =
      go (opt_text_eq remote_head local_head) (diverged-Settles remote_head local_head w)
    where
      own : (head : Option ContentHash) → Follows (head_list head) head
      own none = refl
      own (some id) = ground (arith, text_eq_refl id)

      go :
          (same : Bool)
          → Settles w (diverged p tools input remote_head local_head w)
          → Settles w (
              (if same
                  then done (ready input.snapshot_bytes (head_list local_head) false local_head)
                  else diverged p tools input remote_head local_head)
                w)
      go true h = (laws.rest w.primary, own local_head)
      go false h = h

  pub prepare-Settles : (w : SyncState S) → Settles w (prepare p tools input w)
  unfolding prepare
  prepare-Settles w =
      Settles-bind w (on_primary head_unknown p.get_head w) _
        (get_head-Calm p v laws tools head_unknown w).0
        (λ remote_head t.
          Settles-bind t (load_sidecar tools.sidecar_load t) _
            (load_sidecar-Calm p v laws tools t).0
            (λ sidecar u. from_heads-Settles remote_head sidecar.local_head u))
