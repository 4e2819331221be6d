-- ===== src/Sync/Complete.antt =====
-- The objects of a commit that a push of crates/auru-pm/src/sync.rs stores in the primary.
use auru_pm_core.Json.{Value}
use auru_pm_core.Sync.Quiet.{on_primary-Ensures}
use auru_pm_core.Prelude.Order.{text_ltb}
use auru_pm_core.Commit.{SampleEntry}
use auru_pm_core.Hash.{ContentHash}
use auru_pm_core.Provider.{ProjectProvider, View, IsProvider}
use auru_pm_core.Sync.{
  gathered, put_object, gather_assets, gather_resources, build_sample_manifest, gather_asset,
  asset_entry, gather_resource, candidate, resource_entry,
}
use auru_pm_core.Sync.State.{
  insert_sample, Tools, Gathered, SyncState, PushError, put_failed, PlannedAsset, SnapshotResource,
  resources_unreadable, on_primary, get_failed, resource_differs, is_resource,
}
use auru_pm_core.Prelude.{
  List, ℕ, All, map, ◌∷◌, Bool-cases, ◌≡◌, contains, text_eq, some, true, Result, ◌⊎◌, inr, inl,
  ◌++◌, All-map, err, [], ok, arith, refl, text_eq_iff, Option, Map, none,
}
use auru_pm_core.Prelude.Steps.{Ensures, Ensures-bind, Ensures-some, Ensures-test}

abbrev pub hashes : List (ContentHash × List ℕ) → List ContentHash
hashes = map (λ b. b.0)

pub insert_sample-All :
    (P : SampleEntry → Type 0) (entry : SampleEntry) (entries : List SampleEntry)
    → P entry
    → All P entries
    → All P (insert_sample entry entries)
unfolding insert_sample
insert_sample-All P entry [] h hs = (h, tt)
insert_sample-All P entry (e ∷ entries) h hs = elim (Bool-cases (text_eq e.path entry.path)) [
  | inl same ↦ rw same (h, hs.1)
  | inr other ↦ elim (Bool-cases (text_ltb entry.path e.path)) [
    | inl before ↦ rw (other, before) (h, hs)
    | inr after ↦ rw (other, after) (hs.0, insert_sample-All P entry entries h hs.1)
  ]
]

module _ {S : Type 0} (p : ProjectProvider S) (v : View S) (laws : IsProvider v p)
    (tools : Tools) where
  abbrev pub Present : S → ContentHash → Type 0
  Present s h = (bytes : List ℕ) × (v.blob s h ≡ some bytes)

  -- Every entry of the manifest has its object stored, and among those for the mirrors.
  abbrev pub Gathers : Gathered → S → Type 0
  Gathers g s = All (λ e. Present s e.hash × (contains (hashes g.blobs) e.hash ≡ true)) g.entries

  pub Present-Moves : (s t : S) (h : ContentHash) → v.Moves s t → Present s h → Present t h
  Present-Moves s t h m (bytes, there) = (bytes, laws.keeps_blob s t h bytes m there)

  contains-hashes :
      (blobs : List (ContentHash × List ℕ)) (hash h : ContentHash) (bytes : List ℕ)
      → (contains (hashes blobs) h ≡ true) ⊎ (hash ≡ h)
      → contains (hashes (blobs ++ (hash, bytes) ∷ [])) h ≡ true
  contains-hashes [] hash h bytes (inl there) = cc
  contains-hashes [] hash h bytes (inr same) = ground (arith, text_eq_iff hash h)
  contains-hashes (b ∷ blobs) hash h bytes (inr same) =
      ground (arith, contains-hashes blobs hash h bytes (inr same))
  contains-hashes (b ∷ blobs) hash h bytes (inl there) = elim (Bool-cases (text_eq b.0 h)) [
    | inl here ↦ rw here refl
    | inr other ↦ rw other (contains-hashes blobs hash h bytes (inl (rw other at there)))
  ]

  gathered-Gathers :
      (entry : SampleEntry) (bytes : List ℕ) (g : Gathered) (s t : S)
      → v.Moves s t
      → Present t entry.hash
      → Gathers g s
      → Gathers (gathered p tools entry bytes g) t
  gathered-Gathers entry bytes g s t m there h =
      insert_sample-All _ entry g.entries
        (there, contains-hashes g.blobs entry.hash entry.hash bytes (inr refl))
        (All-map g.entries
          (λ e (stored, listed). (
            Present-Moves s t e.hash m stored,
            contains-hashes g.blobs entry.hash e.hash bytes (inl listed),
          ))
          h)

  -- A step that stays quiet and gathers.
  abbrev pub Collects : SyncState S → Result PushError Gathered × SyncState S → Type 0
  Collects w end =
      Ensures (λ g t. v.Moves w.primary t.primary × Gathers g t.primary)
        (λ e t. v.Moves w.primary t.primary) end

  Collects-after :
      (w t : SyncState S) (end : Result PushError Gathered × SyncState S)
      → v.Moves w.primary t.primary
      → Collects t end
      → Collects w end
  Collects-after w t (err e, u) m h = laws.chain w.primary t.primary u.primary m h
  Collects-after w t (ok g, u) m h = (laws.chain w.primary t.primary u.primary m h.0, h.1)

  -- An object that is put, or read back, is there.
  pub put_object-Present :
      (hash : ContentHash) (bytes : List ℕ) (w : SyncState S)
      → Ensures
          (λ done t. v.Moves w.primary t.primary × (v.blob t.primary hash ≡ some bytes))
          (λ e t. v.Moves w.primary t.primary)
          (put_object p tools hash bytes w)
  put_object-Present hash bytes w =
      on_primary-Ensures _ _ put_failed (p.put_blob hash bytes) w
        (laws.puts_blob hash bytes w.primary)

  gather_asset-Gathers :
      (asset : PlannedAsset) (g : Gathered) (found : Option (List ℕ)) (w : SyncState S)
      → Gathers g w.primary
      → Collects w (gather_asset p tools asset g found w)
  gather_asset-Gathers asset g none w h = (laws.rest w.primary, h)
  gather_asset-Gathers asset g (some bytes) w h =
      Ensures-bind _ _ _ _ (put_object p tools (tools.of bytes) bytes w) _
        (put_object-Present (tools.of bytes) bytes w)
        (λ done t (m, there). (
          m,
          gathered-Gathers (asset_entry p tools asset bytes) bytes g w.primary t.primary m
              (bytes, there) h,
        ))
        (λ e t m. m)

  gather_assets-Gathers :
      (assets : List PlannedAsset) (g : Gathered) (w : SyncState S)
      → Gathers g w.primary
      → Collects w (gather_assets p tools assets g w)
  unfolding gather_assets
  gather_assets-Gathers [] g w h = (laws.rest w.primary, h)
  gather_assets-Gathers (asset ∷ assets) g w h =
      Ensures-bind _ _ _ _ (gather_asset p tools asset g (tools.read_file asset.source) w) _
        (gather_asset-Gathers asset g (tools.read_file asset.source) w h)
        (λ g' t (m, h'). Collects-after w t _ m (gather_assets-Gathers assets g' t h')) (λ e t m. m)

  gather_resource-Present :
      (r : SnapshotResource) (candidate : Option (List ℕ)) (w : SyncState S)
      → Ensures
          (λ bytes t. v.Moves w.primary t.primary × Present t.primary r.hash)
          (λ e t. v.Moves w.primary t.primary)
          (gather_resource p tools r candidate w)
  gather_resource-Present r (some bytes) w =
      Ensures-bind _ _ _ _ (put_object p tools r.hash bytes w) _ (put_object-Present r.hash bytes w)
        (λ done t (m, there). (m, (bytes, there))) (λ e t m. m)
  gather_resource-Present r none w =
      Ensures-bind _ _ _ _ (on_primary get_failed (p.get_blob r.hash) w) _
        (on_primary-Ensures _ _ get_failed (p.get_blob r.hash) w (laws.gets_blob r.hash w.primary))
        (λ bytes t (m, there).
          Ensures-test _ _ resource_differs (is_resource tools r bytes) t _
            (λ same. (m, (bytes, there))) m)
        (λ e t m. m)

  gather_resources-Gathers :
      (detached : Map (List ℕ)) (resources : List SnapshotResource) (g : Gathered) (w : SyncState S)
      → Gathers g w.primary
      → Collects w (gather_resources p tools detached resources g w)
  unfolding gather_resources
  gather_resources-Gathers detached [] g w h = (laws.rest w.primary, h)
  gather_resources-Gathers detached (r ∷ resources) g w h =
      Ensures-bind _ _ _ _ (gather_resource p tools r (candidate p tools detached r) w) _
        (gather_resource-Present r (candidate p tools detached r) w)
        (λ bytes t (m, there). Collects-after w t _ m (
          gather_resources-Gathers detached resources
            (gathered p tools (resource_entry p tools r) bytes g) t
            (gathered-Gathers (resource_entry p tools r) bytes g w.primary t.primary m there h)))
        (λ e t m. m)

  pub build_sample_manifest-Gathers :
      (snapshot : Value) (detached : Map (List ℕ)) (w : SyncState S)
      → Collects w (build_sample_manifest p tools snapshot detached w)
  unfolding build_sample_manifest
  build_sample_manifest-Gathers snapshot detached w =
      Ensures-bind _ _ _ _ (gather_assets p tools (tools.plan_assets snapshot).assets _ w) _
        (gather_assets-Gathers (tools.plan_assets snapshot).assets _ w tt)
        (λ g t (m, h).
          Ensures-some _ _ resources_unreadable (tools.snapshot_resources snapshot) t _
            (λ resources same. Collects-after w t _ m (
              Ensures-bind _ _ _ _ (gather_resources p tools detached resources g t) _
                (gather_resources-Gathers detached resources g t h) (λ g' u (m', h'). (m', h'))
                (λ e u m'. m')))
            m)
        (λ e t m. m)
