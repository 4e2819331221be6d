-- ===== src/Sync/Reviewable.antt =====
-- What is left of the sidecar by a push of crates/auru-pm/src/sync.rs.
use auru_pm_core.Sync.Calm.{get_head-Calm, build_sample_manifest-Calm}
use auru_pm_core.Sync.Mirrors.{MirrorResult, fan_out}
use mathlib.Core.Path.{subst}
use auru_pm_core.Sync.Spared.{Spares-refl, Calm-Spares, write_commit_to_primary-Spares}
use auru_pm_core.Hash.{ContentHash}
use auru_pm_core.Sidecar.{Sidecar, Modified, modify, modify-Modified, load}
use auru_pm_core.Prelude.{
  true, false, Option, ◌≡◌, Text, inl, some, inr, Result, List, err, ok, Bool, true, if◌then◌else◌,
  none, opt_text_eq,
}
use auru_pm_core.Sync.Push.{
  PushInput, merge_remote, ready, stop, needs_resolution, Prepared, diverged, from_heads, prepare,
  PushOutcome, commit_prepared, push_with_optional_resolutions, head_list, committed, landed,
  needs_review,
}
use auru_pm_core.Sync.{build_sample_manifest, write_commit_to_primary}
use auru_pm_core.Sync.State.{
  Tools, SyncState, or_failed, sidecar_unsaved, snapshot_invalid, snapshot_unparsed, on_primary,
  no_remote_head, sidecar_unreadable, on_sidecar, head_unknown, manifest_unencoded,
}
use auru_pm_core.Provider.{ProjectProvider, View, IsProvider}
use auru_pm_core.Prelude.Steps.{
  done, and_then, Ensures, Ensures-bind, Ensures-some, Ensures-test, Ensures-all, Ensures-map,
}
use auru_pm_core.Sync.Stashed.{Stashed, Safe, Safe-Spares}
use auru_pm_core.Sync.Merging.{merge_remote-Stashed}

module _ {S : Type 0} (p : ProjectProvider S) (v : View S) (laws : IsProvider v p) (tools : Tools)
    (input : PushInput) where
  -- An outcome without a commit comes with a stash.
  abbrev pub KeepsStash : Option Sidecar → Prepared → SyncState S → Type 0
  KeepsStash file (stop outcome) t = Stashed p v laws tools input t
  KeepsStash file (ready bytes parents was_merge from) t = Safe p v laws tools input file t

  Stashed-KeepsStash :
      (file : Option Sidecar) (q : Prepared) (t : SyncState S)
      → Stashed p v laws tools input t
      → KeepsStash file q t
  Stashed-KeepsStash file (stop outcome) t h = h
  Stashed-KeepsStash file (ready bytes parents was_merge from) t h = inr h

  diverged-KeepsStash :
      (remote_head local_head : Option ContentHash) (file : Option Sidecar) (w : SyncState S)
      → w.sidecar ≡ file
      → Ensures
          (KeepsStash file)
          (λ e t. Safe p v laws tools input file t)
          (diverged p tools input remote_head local_head w)
  diverged-KeepsStash remote_head none file w same = inl same
  diverged-KeepsStash remote_head (some local_id) file w same =
      Ensures-some _ _ no_remote_head remote_head w _
        (λ remote_id known.
          Ensures-map _ _ (KeepsStash file) (λ e t. Safe p v laws tools input file t)
            (merge_remote p tools input local_id remote_id w)
            (subst
              (λ f.
                Ensures (λ q t. Stashed p v laws tools input t)
                  (λ e t. Safe p v laws tools input f t)
                  (merge_remote p tools input local_id remote_id w))
              same (merge_remote-Stashed p v laws tools input local_id remote_id w))
            (Stashed-KeepsStash file) (λ e t k. k))
        (inl same)

  from_heads-KeepsStash :
      (remote_head local_head : Option ContentHash) (file : Option Sidecar) (w : SyncState S)
      → w.sidecar ≡ file
      → Ensures
          (KeepsStash file)
          (λ e t. Safe p v laws tools input file t)
          (from_heads p tools input remote_head local_head w)
  from_heads-KeepsStash remote_head local_head file w same =
      go (opt_text_eq remote_head local_head)
        (diverged-KeepsStash remote_head local_head file w same)
    where
      go :
          (equal : Bool)
          → Ensures
              (KeepsStash file)
              (λ e t. Safe p v laws tools input file t)
              (diverged p tools input remote_head local_head w)
          → Ensures
              (KeepsStash file)
              (λ e t. Safe p v laws tools input file t)
              ((if equal
                  then done (ready input.snapshot_bytes (head_list local_head) false local_head)
                  else diverged p tools input remote_head local_head)
                w)
      go true h = inl same
      go false h = h

  prepare-KeepsStash :
      (w : SyncState S)
      → Ensures
          (KeepsStash w.sidecar)
          (λ e t. Safe p v laws tools input w.sidecar t)
          (prepare p tools input w)
  unfolding prepare
  prepare-KeepsStash w =
      Ensures-bind _ _ _ _ (on_primary head_unknown p.get_head w) _
        (Ensures-all (λ t. t.sidecar ≡ w.sidecar) (on_primary head_unknown p.get_head w)
          (get_head-Calm p v laws tools head_unknown w).1)
        (λ remote_head t same. loaded remote_head t same (load tools.sidecar_load t.sidecar))
        (λ e t same. inl same)
    where
      loaded :
          (remote_head : Option ContentHash) (t : SyncState S)
          → t.sidecar ≡ w.sidecar
          → (r : Result (Unit {0}) Sidecar)
          → Ensures
              (KeepsStash w.sidecar)
              (λ e u. Safe p v laws tools input w.sidecar u)
              (and_then
                (or_failed sidecar_unreadable r, t)
                (λ sidecar. from_heads p tools input remote_head sidecar.local_head))
      loaded remote_head t same (err e) = inl same
      loaded remote_head t same (ok sidecar) =
          from_heads-KeepsStash remote_head sidecar.local_head w.sidecar t same

  abbrev pub Reviewable : PushOutcome → SyncState S → Type 0
  Reviewable (committed id was_merge results unavailable) t = Unit
  Reviewable (needs_resolution base conflicts) t = Stashed p v laws tools input t
  Reviewable (needs_review merged problems stash) t = Stashed p v laws tools input t

  Stashed-Reviewable :
      (outcome : PushOutcome) (t : SyncState S)
      → Stashed p v laws tools input t
      → Reviewable outcome t
  Stashed-Reviewable (committed id was_merge results unavailable) t h = tt
  Stashed-Reviewable (needs_resolution base conflicts) t h = h
  Stashed-Reviewable (needs_review merged problems stash) t h = h

  -- The last step, whose failure leaves the file.
  recorded :
      (file : Option Sidecar) (id : ContentHash) (was_merge : Bool) (results : List MirrorResult)
      (unavailable : List Text) (t : SyncState S)
      → Safe p v laws tools input file t
      → Ensures Reviewable
          (λ e u. Safe p v laws tools input file u)
          (and_then
            (on_sidecar sidecar_unsaved
              (modify tools.sidecar_end (landed p tools input id results))
              t)
            (λ saved. done (committed id was_merge results unavailable)))
  recorded file id was_merge results unavailable t h =
      go (modify tools.sidecar_end (landed p tools input id results) t.sidecar)
        (modify-Modified tools.sidecar_end (landed p tools input id results) t.sidecar)
    where
      go :
          (end : Result (Unit {0}) (Unit {0}) × Option Sidecar)
          → Modified tools.sidecar_end (landed p tools input id results) t.sidecar end
          → Ensures Reviewable
              (λ e u. Safe p v laws tools input file u)
              (and_then
                (or_failed sidecar_unsaved end.0, record t { sidecar = end.1 })
                (λ saved. done (committed id was_merge results unavailable)))
      go (err e, left) same =
          Safe-Spares p v laws tools input file t (record t { sidecar = left })
            ((Spares-refl p v laws tools t).0, same) h
      go (ok saved, left) m = tt

  commit_prepared-Safe :
      (file : Option Sidecar) (q : Prepared) (w : SyncState S)
      → KeepsStash file q w
      → Ensures Reviewable
          (λ e t. Safe p v laws tools input file t)
          (commit_prepared p tools input q w)
  unfolding commit_prepared
  commit_prepared-Safe file (stop outcome) w h = Stashed-Reviewable outcome w h
  commit_prepared-Safe file (ready bytes parents was_merge from) w h =
      Ensures-some _ _ snapshot_unparsed (tools.from_slice bytes) w _
        (λ value parsed.
          Ensures-test _ _ snapshot_invalid (tools.is_snapshot bytes) w _
            (λ valid.
              Ensures-bind _ _ _ _ (build_sample_manifest p tools value input.resources w) _
                (Ensures-all (Safe p v laws tools input file)
                  (build_sample_manifest p tools value input.resources w)
                  (Safe-Spares p v laws tools input file w
                    (build_sample_manifest p tools value input.resources w).1
                    (Calm-Spares p v laws tools w
                      (build_sample_manifest p tools value input.resources w).1
                      (build_sample_manifest-Calm p v laws tools value input.resources w))
                    h))
                (λ g t k.
                  Ensures-bind _ _ _ _
                    (write_commit_to_primary p tools bytes g.entries parents input.author
                      input.message input.description from t)
                    _
                    (Ensures-all (Safe p v laws tools input file)
                      (write_commit_to_primary p tools bytes g.entries parents input.author
                        input.message input.description from t)
                      (Safe-Spares p v laws tools input file t _
                        (write_commit_to_primary-Spares p v laws tools bytes g.entries parents
                          input.author input.message input.description from t)
                        k))
                    (λ c u n.
                      Ensures-some _ _ manifest_unencoded (tools.manifest_encoding g.entries) u _
                        (λ manifest_bytes encoded.
                          recorded file c.id was_merge
                            (fan_out c bytes manifest_bytes g.blobs u.mirrors).0 g.unavailable
                            (record u {
                              mirrors = (fan_out c bytes manifest_bytes g.blobs u.mirrors).1;
                            })
                            (Safe-Spares p v laws tools input file u
                              (record u {
                                mirrors = (fan_out c bytes manifest_bytes g.blobs u.mirrors).1;
                              })
                              (Spares-refl p v laws tools u) n))
                        n)
                    (λ e u n. n))
                (λ e t k. k))
            h)
        h

  -- If the primary keeps its contract, with its history not pruned in between, then whatever
  -- calls fail, a push that answers conflicts or problems of a merge leaves the local snapshot in
  -- the primary and named by the stash of the sidecar, and a push that fails leaves the sidecar
  -- as it was or the local snapshot in such a stash.
  pub push-Reviewable :
      (w : SyncState S)
      → Ensures Reviewable
          (λ e t. Safe p v laws tools input w.sidecar t)
          (push_with_optional_resolutions p tools input w)
  unfolding push_with_optional_resolutions
  push-Reviewable w =
      Ensures-bind _ _ _ _ (prepare p tools input w) _ (prepare-KeepsStash w)
        (λ q t h. commit_prepared-Safe w.sidecar q t h) (λ e t h. h)
