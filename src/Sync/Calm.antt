-- ===== src/Sync/Calm.antt =====
-- The steps of a push in crates/auru-pm/src/sync.rs that store objects or read.
use auru_pm_core.Prelude.Order.{insert_entry}
use auru_pm_core.Commit.{Commit}
use auru_pm_core.Json.{Value}
use auru_pm_core.Prelude.{
  Option, ◌∙◌, Result, Bool, List, Map, some, ◌≡◌, ℕ, ◌∷◌, none, false, err, refl, true, ok, lookup,
  [],
}
use auru_pm_core.Hash.{ContentHash}
use auru_pm_core.Sync.{
  put_all, normalize_dawproject_for_merge, stash_resources, gather_assets, gather_resources,
  build_sample_manifest, put_object, gather_asset, gather_resource, put_info, candidate, gathered,
  resource_entry,
}
use auru_pm_core.Sync.State.{
  Tools, SyncState, PushError, PlannedAsset, SnapshotResource, on_primary, Gathered,
  resources_unreadable, resource_missing, put_failed, get_failed, resource_differs, is_resource,
  load_sidecar,
}
use auru_pm_core.Provider.{ProjectProvider, View, IsProvider}
use auru_pm_core.Prelude.Steps.{Step, some_or_fail, ensure, and_then, Ensures}

module _ {S : Type 0} (p : ProjectProvider S) (v : View S) (laws : IsProvider v p)
    (tools : Tools) where
  -- Objects and other writers only, and the sidecar as it was.
  abbrev pub Calm : SyncState S → SyncState S → Type 0
  Calm w t = v.Moves w.primary t.primary × (t.sidecar ≡ w.sidecar)

  pub Calm-refl : (w : SyncState S) → Calm w w
  Calm-refl w = (laws.rest w.primary, refl)

  pub Calm-trans : (w t u : SyncState S) → Calm w t → Calm t u → Calm w u
  Calm-trans w t u (m, same) (n, same') =
      (laws.chain w.primary t.primary u.primary m n, same' ∙ same)

  pub Calm-bind {i j} :
      {A : Type i} {B : Type j} (w : SyncState S) (end : Result PushError A × SyncState S)
      (next : A → Step PushError (SyncState S) B)
      → Calm w end.1
      → ((a : A) (t : SyncState S) → Calm t (next a t).1)
      → Calm w (and_then end next).1
  Calm-bind w (err e, t) next h k = h
  Calm-bind w (ok a, t) next h k = Calm-trans w t (next a t).1 h (k a t)

  pub Calm-some {i j} :
      {A : Type i} {B : Type j} (w : SyncState S) (e : PushError) (found : Option A)
      (next : A → Step PushError (SyncState S) B)
      → ((a : A) → Calm w (next a w).1)
      → Calm w (and_then (some_or_fail e found w) next).1
  Calm-some w e none next k = Calm-refl w
  Calm-some w e (some a) next k = k a

  pub Calm-test {j} :
      {B : Type j} (w : SyncState S) (e : PushError) (test : Bool)
      (next : Step PushError (SyncState S) B)
      → Calm w (next w).1
      → Calm w (and_then (ensure test e w) (λ nothing. next)).1
  Calm-test w e false next k = Calm-refl w
  Calm-test w e true next k = k

  on_primary-Calm {i} :
      {A : Type i} (Good : A → S → Type 0) (e : PushError) (call : Step (Unit {0}) S A)
      (w : SyncState S)
      → Ensures
          (λ a t. v.Moves w.primary t × Good a t)
          (λ u t. v.Moves w.primary t)
          (call w.primary)
      → Calm w (on_primary e call w).1
  on_primary-Calm {A} Good e call w h = go (call w.primary) h
    where
      go :
          (end : Result (Unit {0}) A × S)
          → Ensures (λ a t. v.Moves w.primary t × Good a t) (λ u t. v.Moves w.primary t) end
          → Calm w (record w { primary = end.1 })
      go (err u, s) m = (m, refl)
      go (ok a, s) m = (m.0, refl)

  pub put_object-Calm :
      (hash : ContentHash) (bytes : List ℕ) (w : SyncState S)
      → Calm w (put_object p tools hash bytes w).1
  put_object-Calm hash bytes w =
      on_primary-Calm _ put_failed (p.put_blob hash bytes) w (laws.puts_blob hash bytes w.primary)

  pub get_blob-Calm :
      (e : PushError) (hash : ContentHash) (w : SyncState S)
      → Calm w (on_primary e (p.get_blob hash) w).1
  get_blob-Calm e hash w = on_primary-Calm _ e (p.get_blob hash) w (laws.gets_blob hash w.primary)

  pub get_commit-Calm :
      (e : PushError) (id : ContentHash) (w : SyncState S)
      → Calm w (on_primary e (p.get_commit id) w).1
  get_commit-Calm e id w = on_primary-Calm _ e (p.get_commit id) w (laws.gets_commit id w.primary)

  pub put_commit-Calm :
      (e : PushError) (c : Commit) (w : SyncState S) → Calm w (on_primary e (p.put_commit c) w).1
  put_commit-Calm e c w = on_primary-Calm _ e (p.put_commit c) w (laws.puts_commit c w.primary)

  pub get_head-Calm : (e : PushError) (w : SyncState S) → Calm w (on_primary e p.get_head w).1
  get_head-Calm e w = go (p.get_head w.primary) (laws.gets_head w.primary)
    where
      go :
          (end : Result (Unit {0}) (Option ContentHash) × S)
          → Ensures (λ a t. v.Moves w.primary t) (λ u t. v.Moves w.primary t) end
          → Calm w (record w { primary = end.1 })
      go (err u, s) m = (m, refl)
      go (ok a, s) m = (m, refl)

  put_all-Calm :
      (blobs : List (ContentHash × List ℕ)) (w : SyncState S) → Calm w (put_all p tools blobs w).1
  unfolding put_all
  put_all-Calm [] w = Calm-refl w
  put_all-Calm ((hash, bytes) ∷ blobs) w =
      Calm-bind w (put_object p tools hash bytes w) _ (put_object-Calm hash bytes w)
        (λ done t. put_all-Calm blobs t)

  pub normalize-Calm :
      (snapshot : Value) (w : SyncState S)
      → Calm w (normalize_dawproject_for_merge p tools snapshot w).1
  unfolding normalize_dawproject_for_merge
  normalize-Calm snapshot w =
      Calm-some w resources_unreadable (tools.normalized snapshot) _ (λ normal.
        Calm-bind w (put_all p tools normal.1 w) _ (put_all-Calm normal.1 w)
          (λ done t. Calm-refl t))

  pub stash_resources-Calm :
      (given : Map (List ℕ)) (resources : List SnapshotResource) (kept : Map ContentHash)
      (w : SyncState S)
      → Calm w (stash_resources p tools given resources kept w).1
  unfolding stash_resources
  stash_resources-Calm given [] kept w = Calm-refl w
  stash_resources-Calm given (r ∷ resources) kept w =
      Calm-some w resource_missing (lookup r.path given) _ (λ bytes.
        Calm-test w resource_differs (is_resource tools r bytes) _ (
          Calm-bind w (put_object p tools r.hash bytes w) _ (put_object-Calm r.hash bytes w)
            (λ done t. stash_resources-Calm given resources (insert_entry r.path r.hash kept) t)))

  gather_asset-Calm :
      (asset : PlannedAsset) (g : Gathered) (read : Option (List ℕ)) (w : SyncState S)
      → Calm w (gather_asset p tools asset g read w).1
  gather_asset-Calm asset g none w = Calm-refl w
  gather_asset-Calm asset g (some bytes) w =
      Calm-bind w (put_object p tools (tools.of bytes) bytes w) _
        (put_object-Calm (tools.of bytes) bytes w) (λ done t. Calm-refl t)

  gather_assets-Calm :
      (assets : List PlannedAsset) (g : Gathered) (w : SyncState S)
      → Calm w (gather_assets p tools assets g w).1
  unfolding gather_assets
  gather_assets-Calm [] g w = Calm-refl w
  gather_assets-Calm (asset ∷ assets) g w =
      Calm-bind w (gather_asset p tools asset g (tools.read_file asset.source) w) _
        (gather_asset-Calm asset g (tools.read_file asset.source) w)
        (λ g' t. gather_assets-Calm assets g' t)

  gather_resource-Calm :
      (r : SnapshotResource) (own : Option (List ℕ)) (w : SyncState S)
      → Calm w (gather_resource p tools r own w).1
  gather_resource-Calm r (some bytes) w =
      Calm-bind w (put_object p tools r.hash bytes w) _ (put_object-Calm r.hash bytes w)
        (λ done t. Calm-refl t)
  gather_resource-Calm r none w =
      Calm-bind w (on_primary get_failed (p.get_blob r.hash) w) _
        (get_blob-Calm get_failed r.hash w)
        (λ bytes t. Calm-test t resource_differs (is_resource tools r bytes) _ (Calm-refl t))

  gather_resources-Calm :
      (detached : Map (List ℕ)) (resources : List SnapshotResource) (g : Gathered) (w : SyncState S)
      → Calm w (gather_resources p tools detached resources g w).1
  unfolding gather_resources
  gather_resources-Calm detached [] g w = Calm-refl w
  gather_resources-Calm detached (r ∷ resources) g w =
      Calm-bind w (gather_resource p tools r (candidate p tools detached r) w) _
        (gather_resource-Calm r (candidate p tools detached r) w)
        (λ bytes t.
          gather_resources-Calm detached resources
            (gathered p tools (resource_entry p tools r) bytes g) t)

  pub build_sample_manifest-Calm :
      (snapshot : Value) (detached : Map (List ℕ)) (w : SyncState S)
      → Calm w (build_sample_manifest p tools snapshot detached w).1
  unfolding build_sample_manifest
  build_sample_manifest-Calm snapshot detached w =
      Calm-bind w (gather_assets p tools (tools.plan_assets snapshot).assets _ w) _
        (gather_assets-Calm (tools.plan_assets snapshot).assets _ w)
        (λ g t. Calm-some t resources_unreadable (tools.snapshot_resources snapshot) _ (λ resources.
          Calm-bind t (gather_resources p tools detached resources g t) _
            (gather_resources-Calm detached resources g t) (λ g' u. Calm-refl u)))

  pub put_info-Calm :
      (info : Option (List ℕ)) (w : SyncState S) → Calm w (put_info p tools info w).1
  put_info-Calm none w = Calm-refl w
  put_info-Calm (some bytes) w =
      Calm-bind w (put_object p tools (tools.of bytes) bytes w) _
        (put_object-Calm (tools.of bytes) bytes w) (λ done t. Calm-refl t)

  pub load_sidecar-Calm : (w : SyncState S) → Calm w (load_sidecar tools.sidecar_load w).1
  load_sidecar-Calm w = Calm-refl w
