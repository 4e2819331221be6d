-- ===== src/Sync/Mirrored.antt =====
-- What the fan-out of a push of crates/auru-pm/src/sync.rs leaves on each mirror.
use auru_pm_core.Sync.Delivered.{put_blobs-Holds, ignore_advance-Holds}
use auru_pm_core.Filesystem.Repository.{HeadAdvance}
use auru_pm_core.Sync.State.{Mirror}
use auru_pm_core.Sync.Mirrors.{
  push_to_mirror, MirrorResult, fan_out, succeeded, put_blobs, mirror_step,
}
use auru_pm_core.Hash.{ContentHash}
use auru_pm_core.Prelude.{
  List, ℕ, ◌≡◌, some, All-map, All, Result, ◌∷◌, true, false, none, err, ok, [],
}
use auru_pm_core.Commit.{Commit}
use auru_pm_core.Provider.{View, Holds, ProjectProvider, IsProvider}
use auru_pm_core.Prelude.Steps.{Ensures, Ensures-bind}

module _ {S : Type 0} (v : View S) (commit : Commit) (snapshot_bytes manifest_bytes : List ℕ)
    (sample_blobs : List (ContentHash × List ℕ)) where
  -- The mirror has the commit, its snapshot, its manifest and its samples.
  pub record IsMirrored (t : S) : Type 0 where
    pub stored : v.commit t commit.id ≡ some commit
    pub snapshot : v.blob t commit.content.snapshot ≡ some snapshot_bytes
    pub manifest : v.blob t commit.content.samples ≡ some manifest_bytes
    pub samples : All (λ x. v.blob t x.0 ≡ some x.1) sample_blobs

  IsMirrored-Holds : (s t : S) → Holds v s t → IsMirrored s → IsMirrored t
  IsMirrored-Holds s t h m = record {
    stored = h.commits commit.id commit m.stored;
    snapshot = h.blobs commit.content.snapshot snapshot_bytes m.snapshot;
    manifest = h.blobs commit.content.samples manifest_bytes m.manifest;
    samples = All-map sample_blobs (λ x there. h.blobs x.0 x.1 there) m.samples;
  }

  push_to_mirror-IsMirrored :
      (p : ProjectProvider S) (laws : IsProvider v p) (s : S)
      → Ensures
          (λ done t. IsMirrored t)
          (λ e t. v.Moves s t)
          (push_to_mirror p commit snapshot_bytes manifest_bytes sample_blobs s)
  unfolding push_to_mirror
  push_to_mirror-IsMirrored p laws s =
      Ensures-bind _ _ _ _ (p.put_blob commit.content.snapshot snapshot_bytes s) _
        (laws.puts_blob commit.content.snapshot snapshot_bytes s)
        (λ put t1 (m1, snapshot).
          Ensures-bind _ _ _ _ (put_blobs p sample_blobs t1) _
            (put_blobs-Holds v p laws sample_blobs t1)
            (λ put t2 (m2, samples).
              let n2 = laws.chain s t1 t2 m1 m2 in
              Ensures-bind _ _ _ _ (p.put_blob commit.content.samples manifest_bytes t2) _
                (laws.puts_blob commit.content.samples manifest_bytes t2)
                (λ put t3 (m3, manifest).
                  let n3 = laws.chain s t2 t3 n2 m3 in
                  Ensures-bind _ _ _ _ (p.put_commit commit t3) _ (laws.puts_commit commit t3)
                    (λ named t4 (m4, stored).
                      let later = laws.chain t2 t3 t4 m3 m4 in
                      let here : IsMirrored t4 = record {
                        stored = stored;
                        snapshot =
                            laws.keeps_blob t1 t4 commit.content.snapshot snapshot_bytes
                              (laws.chain t1 t2 t4 m2 later) snapshot;
                        manifest =
                            laws.keeps_blob t3 t4 commit.content.samples manifest_bytes m4 manifest;
                        samples =
                            All-map sample_blobs
                              (λ x there. laws.keeps_blob t2 t4 x.0 x.1 later there) samples;
                      } in
                      ignored p t4 (p.advance_head none commit.id t4)
                        (ignore_advance-Holds v p laws commit.id t4) here)
                    (λ e t4 m4. laws.chain s t3 t4 n3 m4))
                (λ e t3 m3. laws.chain s t2 t3 n2 m3))
            (λ e t2 m2. laws.chain s t1 t2 m1 m2))
        (λ e t m. m)
    where
      ignored :
          (p : ProjectProvider S) (t : S) (end : Result (Unit {0}) HeadAdvance × S)
          → Holds v t end.1
          → IsMirrored t
          → IsMirrored end.1
      ignored p t end h m = IsMirrored-Holds t end.1 h m

  -- A result for each mirror: it has everything, or only its head may be as others left it.
  abbrev pub Reports : List MirrorResult → List (Mirror S) → List (Mirror S) → Type 0
  Reports [] [] [] = Unit
  Reports (r ∷ results) (m ∷ ms) (m' ∷ ms') =
      ((r.is_ok ≡ true → IsMirrored m'.state) × (r.is_ok ≡ false → v.Moves m.state m'.state))
      × Reports results ms ms'
  Reports _ _ _ = ⊥

  -- If every mirror keeps its contract, with no history pruned in between, the fan-out of a
  -- commit gives a result for each mirror: where it is a success, the mirror has the commit, its
  -- snapshot, its manifest and the samples; where it is a failure, the head of the mirror is left
  -- to other clients.
  pub fan_out-Reports :
      (ms : List (Mirror S))
      → All (λ m. IsProvider v m.provider) ms
      → Reports
          (fan_out commit snapshot_bytes manifest_bytes sample_blobs ms).0
          ms
          (fan_out commit snapshot_bytes manifest_bytes sample_blobs ms).1
  unfolding fan_out
  fan_out-Reports [] l = tt
  fan_out-Reports (m ∷ ms) (l, ls) = (
    one (mirror_step commit snapshot_bytes manifest_bytes sample_blobs m)
        (push_to_mirror-IsMirrored m.provider l m.state),
    fan_out-Reports ms ls,
  )
    where
      one :
          (end : Result (Unit {0}) (Unit {0}) × S)
          → Ensures (λ done t. IsMirrored t) (λ e t. v.Moves m.state t) end
          → (succeeded end.0 ≡ true → IsMirrored end.1)
            × (succeeded end.0 ≡ false → v.Moves m.state end.1)
      one (err e, t) h = ((λ s. cc), λ s. h)
      one (ok put, t) h = ((λ s. h), λ s. cc)
