-- ===== src/Sync/Stashed.antt =====
-- The stash of a push in crates/auru-pm/src/sync.rs.
use auru_pm_core.Sync.Calm.{put_object-Calm, stash_resources-Calm}
use auru_pm_core.Sync.Complete.{put_object-Present}
use auru_pm_core.Sync.Spared.{Spares}
use auru_pm_core.Hash.{ContentHash}
use auru_pm_core.Sidecar.{Sidecar, Stash, Modified, or_default, modify, modify-Modified}
use auru_pm_core.Prelude.{
  Option, ◌∙◌, ◌≡◌, Text, inl, some, ◌⊎◌, Map, inr, Result, List, err, [], ok, refl,
}
use auru_pm_core.Sync.Push.{PushInput}
use auru_pm_core.Sync.{
  stash_snapshot, record_stash, put_object, stash_of, stash_resources, hydrated_resources,
}
use auru_pm_core.Sync.State.{
  Tools, SyncState, or_failed, sidecar_unsaved, SnapshotResource, snapshot_invalid,
  snapshot_unparsed, resources_unreadable,
}
use auru_pm_core.Provider.{ProjectProvider, View, IsProvider}
use auru_pm_core.Prelude.Steps.{
  ◌>>=◌, done, and_then, Ensures, Ensures-bind, Ensures-some, Ensures-test, Ensures-end,
  Ensures-all,
}

module _ {S : Type 0} (p : ProjectProvider S) (v : View S) (laws : IsProvider v p) (tools : Tools)
    (input : PushInput) where
  -- The sidecar names the local snapshot, the commit that it is based on, and the primary has it.
  pub record Stashed (t : SyncState S) : Type 0 where
    pub sidecar : Sidecar
    pub stash : Stash
    pub saved : t.sidecar ≡ some sidecar
    pub recorded : sidecar.stash ≡ some stash
    pub named : stash.snapshot ≡ tools.of input.snapshot_bytes
    pub stored : v.blob t.primary stash.snapshot ≡ some input.snapshot_bytes

  pub Stashed-Spares : (t u : SyncState S) → Spares p v laws tools t u → Stashed t → Stashed u
  Stashed-Spares t u (holds, same) h = record {
    sidecar = h.sidecar;
    stash = h.stash;
    saved = same ∙ h.saved;
    recorded = h.recorded;
    named = h.named;
    stored = holds.blobs h.stash.snapshot input.snapshot_bytes h.stored;
  }

  -- What a push leaves of the sidecar when it does not land: all of it, or a stash.
  abbrev pub Safe : Option Sidecar → SyncState S → Type 0
  Safe file t = (t.sidecar ≡ file) ⊎ Stashed t

  pub Safe-Spares :
      (file : Option Sidecar) (t u : SyncState S)
      → Spares p v laws tools t u
      → Safe file t
      → Safe file u
  Safe-Spares file t u l (inl same) = inl (l.1 ∙ same)
  Safe-Spares file t u l (inr h) = inr (Stashed-Spares t u l h)

  record_stash-Stashed :
      (base : Option ContentHash) (reason : Text) (kept : Map ContentHash) (w : SyncState S)
      → v.blob w.primary (tools.of input.snapshot_bytes) ≡ some input.snapshot_bytes
      → Ensures
          (λ done t. Stashed t)
          (λ e t. t.sidecar ≡ w.sidecar)
          (record_stash p tools input.snapshot_bytes base reason kept w)
  record_stash-Stashed base reason kept w there =
      go (modify tools.sidecar_stash change w.sidecar)
        (modify-Modified tools.sidecar_stash change w.sidecar)
    where
      change : Sidecar → Sidecar
      change sidecar = record sidecar {
        stash = some (stash_of p tools input.snapshot_bytes base reason kept);
      }

      go :
          (end : Result (Unit {0}) (Unit {0}) × Option Sidecar)
          → Modified tools.sidecar_stash change w.sidecar end
          → Ensures
              (λ done t. Stashed t)
              (λ e t. t.sidecar ≡ w.sidecar)
              (or_failed sidecar_unsaved end.0, record w { sidecar = end.1 })
      go (err e, file) same = same
      go (ok saved, file) changed = record {
        sidecar = change (or_default w.sidecar);
        stash = stash_of p tools input.snapshot_bytes base reason kept;
        saved = changed;
        recorded = refl;
        named = refl;
        stored = there;
      }

  pub stash_snapshot-Stashed :
      (base : Option ContentHash) (reason : Text) (w : SyncState S)
      → Ensures
          (λ hash t. Stashed t)
          (λ e t. t.sidecar ≡ w.sidecar)
          (stash_snapshot p tools input.snapshot_bytes input.resources base reason w)
  unfolding stash_snapshot
  stash_snapshot-Stashed base reason w =
      Ensures-test _ _ snapshot_invalid (tools.is_snapshot input.snapshot_bytes) w _
        (λ valid.
          Ensures-some _ _ snapshot_unparsed (tools.from_slice input.snapshot_bytes) w _
            (λ value parsed.
              Ensures-some _ _ resources_unreadable (tools.requires_hydration input.snapshot_bytes)
                w _
                (λ hydrates read.
                  Ensures-some _ _ resources_unreadable (hydrated_resources p tools hydrates value)
                    w _ (λ resources listed. after_resources resources) refl)
                refl)
            refl)
        refl
    where
      put_and_record :
          (kept : Map ContentHash) (t : SyncState S)
          → t.sidecar ≡ w.sidecar
          → Ensures
              (λ hash u. Stashed u)
              (λ e u. u.sidecar ≡ w.sidecar)
              (and_then
                (put_object p tools (tools.of input.snapshot_bytes) input.snapshot_bytes t)
                (λ put.
                  ◌>>=◌
                    (record_stash p tools input.snapshot_bytes base reason kept)
                    (λ saved. done (tools.of input.snapshot_bytes))))
      put_and_record kept t same =
          let leaves =
            put_object-Calm p v laws tools (tools.of input.snapshot_bytes) input.snapshot_bytes t in
          Ensures-bind _ _ _ _
            (put_object p tools (tools.of input.snapshot_bytes) input.snapshot_bytes t) _
            (Ensures-end _ _ (λ u. u.sidecar ≡ t.sidecar)
              (put_object p tools (tools.of input.snapshot_bytes) input.snapshot_bytes t)
              (put_object-Present p v laws tools (tools.of input.snapshot_bytes)
                input.snapshot_bytes t)
              leaves.1)
            (λ put u ((moves, there), same').
              Ensures-bind _ _ _ _ (record_stash p tools input.snapshot_bytes base reason kept u) _
                (record_stash-Stashed base reason kept u there) (λ saved x h. h)
                (λ e x left. left ∙ (same' ∙ same)))
            (λ e u (moves, same'). same' ∙ same)

      after_resources :
          (resources : List SnapshotResource)
          → Ensures
              (λ hash u. Stashed u)
              (λ e u. u.sidecar ≡ w.sidecar)
              (and_then (stash_resources p tools input.resources resources [] w) (λ kept.
                ◌>>=◌
                  (put_object p tools (tools.of input.snapshot_bytes) input.snapshot_bytes)
                  (λ put.
                    ◌>>=◌
                      (record_stash p tools input.snapshot_bytes base reason kept)
                      (λ saved. done (tools.of input.snapshot_bytes)))))
      after_resources resources =
          let leaves = stash_resources-Calm p v laws tools input.resources resources [] w in
          Ensures-bind _ _ _ _ (stash_resources p tools input.resources resources [] w) _
            (Ensures-all (λ u. u.sidecar ≡ w.sidecar)
              (stash_resources p tools input.resources resources [] w) leaves.1)
            (λ kept t same. put_and_record kept t same) (λ e t same. same)
