-- ===== src/Sync/Merging.antt =====
-- The stash through the merge of a push in crates/auru-pm/src/sync.rs.
use auru_pm_core.Sync.Calm.{
  Calm, Calm-refl, Calm-bind, get_commit-Calm, get_blob-Calm, Calm-some, normalize-Calm,
}
use auru_pm_core.Merge.Resolve.{ResolveError, resolve_conflicts}
use mathlib.Core.Path.{subst}
use auru_pm_core.Merge.{MergeOutcome, clean, conflict, merge3}
use auru_pm_core.Json.{Value}
use auru_pm_core.Sync.Spared.{Calm-Spares}
use auru_pm_core.Hash.{ContentHash}
use auru_pm_core.Prelude.{
  true, false, Option, ◌≡◌, Text, inl, some, inr, Result, List, err, [], ok, refl, ◌∷◌, ℕ, sym,
  Bool, true, if◌then◌else◌, none, map,
}
use auru_pm_core.Sync.Push.{
  PushInput, merge_remote, reviewed, settle, merge_stashed, ready, or_unresolved, stop,
  needs_resolution, merge_reason, ConflictResolution, resolve, conflict_resolutions_match,
}
use auru_pm_core.Sync.{stash_snapshot, normalize_dawproject_for_merge}
use auru_pm_core.Sync.State.{
  Tools, SyncState, snapshot_unparsed, merge_unencoded, get_failed, on_primary,
}
use auru_pm_core.Provider.{ProjectProvider, View, IsProvider}
use auru_pm_core.Prelude.Steps.{
  ◌>>=◌, done, some_or_fail, and_then, Ensures, Ensures-bind, Ensures-all, Ensures-map,
}
use auru_pm_core.Sync.Stashed.{Stashed, Safe, Stashed-Spares, stash_snapshot-Stashed}

module _ {S : Type 0} (p : ProjectProvider S) (v : View S) (laws : IsProvider v p) (tools : Tools)
    (input : PushInput) where
  reviewed-end :
      (local_id remote_id : ContentHash) (merged : Value) (problems : List Text) (w : SyncState S)
      → (reviewed p tools input local_id remote_id merged problems w).1 ≡ w
  reviewed-end local_id remote_id merged (problem ∷ problems) w = refl
  reviewed-end local_id remote_id merged [] w = go (tools.to_vec merged)
    where
      go :
          (bytes : Option (List ℕ))
          → (and_then (some_or_fail merge_unencoded bytes w) (λ merged_bytes.
              done (ready merged_bytes (local_id ∷ remote_id ∷ []) true (some remote_id)))).1
            ≡ w
      go none = refl
      go (some bytes) = refl

  settle-end :
      (local_id remote_id : ContentHash) (outcome : MergeOutcome) (w : SyncState S)
      → (settle p tools input local_id remote_id outcome w).1 ≡ w
  settle-end local_id remote_id (clean merged) w =
      reviewed-end local_id remote_id merged (tools.problems merged) w
  settle-end local_id remote_id (conflict base conflicts) w = go input.resolutions
    where
      chosen :
          (test : Bool) (result : Result ResolveError Value)
          → ((if test
                then (◌>>=◌ (or_unresolved result) (λ merged.
                    reviewed p tools input local_id remote_id merged (tools.problems merged)))
                else done (stop (needs_resolution base conflicts)))
              w).1
            ≡ w
      chosen false result = refl
      chosen true (err e) = refl
      chosen true (ok merged) = reviewed-end local_id remote_id merged (tools.problems merged) w

      go :
          (resolutions : Option (List ConflictResolution))
          → (resolve p tools input local_id remote_id base conflicts resolutions w).1 ≡ w
      go none = refl
      go (some resolutions) =
          chosen (conflict_resolutions_match conflicts resolutions)
            (resolve_conflicts base conflicts (map (λ r. r.choice) resolutions))

  settle-Calm :
      (local_id remote_id : ContentHash) (outcome : MergeOutcome) (w : SyncState S)
      → Calm p v laws tools w (settle p tools input local_id remote_id outcome w).1
  settle-Calm local_id remote_id outcome w =
      subst (Calm p v laws tools w) (sym (settle-end local_id remote_id outcome w))
        (Calm-refl p v laws tools w)

  pub merge_remote-Stashed :
      (local_id remote_id : ContentHash) (w : SyncState S)
      → Ensures
          (λ q t. Stashed p v laws tools input t)
          (λ e t. Safe p v laws tools input w.sidecar t)
          (merge_remote p tools input local_id remote_id w)
  unfolding merge_remote
  merge_remote-Stashed local_id remote_id w =
      Ensures-bind _ _ _ _
        (stash_snapshot p tools input.snapshot_bytes input.resources (some local_id) merge_reason w)
        _ (stash_snapshot-Stashed p v laws tools input (some local_id) merge_reason w)
        (λ hash t h.
          Ensures-map _ _ _ _ (merge_stashed p tools input local_id remote_id t)
            (Ensures-all (λ u. Stashed p v laws tools input u)
              (merge_stashed p tools input local_id remote_id t)
              (Stashed-Spares p v laws tools input t
                (merge_stashed p tools input local_id remote_id t).1
                (Calm-Spares p v laws tools t (merge_stashed p tools input local_id remote_id t).1
                  (calm t))
                h))
            (λ q u k. k) (λ e u k. inr k))
        (λ e t same. inl same)
    where
      calm :
          (t : SyncState S)
          → Calm p v laws tools t (merge_stashed p tools input local_id remote_id t).1
      calm t =
          Calm-bind p v laws tools t (on_primary get_failed (p.get_commit local_id) t) _
            (get_commit-Calm p v laws tools get_failed local_id t)
            λ c1 t1.
              Calm-bind p v laws tools t1
                (on_primary get_failed (p.get_blob c1.content.snapshot) t1) _
                (get_blob-Calm p v laws tools get_failed c1.content.snapshot t1)
                λ ancestor_bytes t2.
                  Calm-bind p v laws tools t2 (on_primary get_failed (p.get_commit remote_id) t2) _
                    (get_commit-Calm p v laws tools get_failed remote_id t2)
                    λ c2 t3.
                      Calm-bind p v laws tools t3
                        (on_primary get_failed (p.get_blob c2.content.snapshot) t3) _
                        (get_blob-Calm p v laws tools get_failed c2.content.snapshot t3)
                        λ remote_bytes t4.
                          Calm-some p v laws tools t4 snapshot_unparsed
                            (tools.from_slice ancestor_bytes) _
                            λ ancestor.
                              Calm-some p v laws tools t4 snapshot_unparsed
                                (tools.from_slice input.snapshot_bytes) _
                                λ current.
                                  Calm-some p v laws tools t4 snapshot_unparsed
                                    (tools.from_slice remote_bytes) _
                                    λ remote.
                                      Calm-bind p v laws tools t4
                                        (normalize_dawproject_for_merge p tools ancestor t4) _
                                        (normalize-Calm p v laws tools ancestor t4)
                                        λ a t5.
                                          Calm-bind p v laws tools t5
                                            (normalize_dawproject_for_merge p tools current t5) _
                                            (normalize-Calm p v laws tools current t5)
                                            λ c t6.
                                              Calm-bind p v laws tools t6
                                                (normalize_dawproject_for_merge p tools remote t6) _
                                                (normalize-Calm p v laws tools remote t6)
                                                λ r t7.
                                                  settle-Calm local_id remote_id (merge3 a c r) t7
