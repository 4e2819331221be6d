-- ===== src/Sync/Delivered.antt =====
-- What a drain of crates/auru-pm/src/sync.rs gives to one provider.
use auru_pm_core.Filesystem.Repository.{HeadAdvance, conflicting, advanced}
use auru_pm_core.Sync.Complete.{hashes}
use auru_pm_core.Hash.{ContentHash}
use auru_pm_core.Sync.Mirrors.{put_blobs, ignore}
use auru_pm_core.Commit.{SampleEntry}
use auru_pm_core.Sync.Drain.{
  Bundle, deliver, fetch_blobs, fetch_bundle, put_missing, first_or_false,
}
use auru_pm_core.Prelude.{
  List, ℕ, ◌≡◌, Option, some, All-map, Result, All, Bool, map, none, ◌∷◌, err, [], ap, ok,
  Bool-cases, refl, inl, inr,
}
use auru_pm_core.Provider.{
  View, ProjectProvider, Holds, IsProvider, Advances, Holds-trans, Moves-Holds, Swap-Holds,
  Unanswered,
}
use auru_pm_core.Prelude.Steps.{Ensures, Ensures-bind, Ensures-some, Ensures-map}

module _ {S : Type 0} (v : View S) where
  -- The commit, its manifest and its samples are there.
  pub record Delivers (b : Bundle) (s : S) : Type 0 where
    pub commit : v.commit s b.commit.id ≡ some b.commit
    pub manifest : v.blob s b.commit.content.samples ≡ some b.manifest_bytes
    pub samples : All (λ x. v.blob s x.0 ≡ some x.1) b.sample_blobs

  pub Delivers-Holds : (b : Bundle) (s t : S) → Holds v s t → Delivers b s → Delivers b t
  Delivers-Holds b s t h d = record {
    commit = h.commits b.commit.id b.commit d.commit;
    manifest = h.blobs b.commit.content.samples b.manifest_bytes d.manifest;
    samples = All-map b.sample_blobs (λ x there. h.blobs x.0 x.1 there) d.samples;
  }

-- The objects of a bundle are those that its manifest lists.
pub record IsWhole (parse_manifest : List ℕ → Option (List SampleEntry)) (b : Bundle) : Type 0 where
  pub entries : List SampleEntry
  pub parsed : parse_manifest b.manifest_bytes ≡ some entries
  pub listed : hashes b.sample_blobs ≡ map (λ e. e.hash) entries

module _ {S : Type 0} (v : View S) (p : ProjectProvider S) (laws : IsProvider v p) where
  pub put_blobs-Holds :
      (blobs : List (ContentHash × List ℕ)) (s : S)
      → Ensures
          (λ done t. v.Moves s t × All (λ x. v.blob t x.0 ≡ some x.1) blobs)
          (λ e t. v.Moves s t)
          (put_blobs p blobs s)
  unfolding put_blobs
  put_blobs-Holds [] s = (laws.rest s, tt)
  put_blobs-Holds ((hash, bytes) ∷ blobs) s =
      Ensures-bind _ _ _ _ (p.put_blob hash bytes s) _ (laws.puts_blob hash bytes s)
        (λ put t (m, there).
          Ensures-map _ _ _ _ (put_blobs p blobs t) (put_blobs-Holds blobs t)
            (λ put' u (n, rest).
              (laws.chain s t u m n, (laws.keeps_blob t u hash bytes n there, rest)))
            (λ e u n. laws.chain s t u m n))
        (λ e t m. m)

  put_missing-Moves :
      (b : Bundle) (s : S) (end : Result (Unit {0}) (List Bool) × S)
      → Ensures (λ present t. v.Moves s t) (λ e t. v.Moves s t) end
      → Ensures (λ put t. v.Moves s t) (λ e t. v.Moves s t) (put_missing p b end)
  put_missing-Moves b s (err e, t) m = m
  put_missing-Moves b s (ok present, t) m = elim (Bool-cases (first_or_false present)) [
    | inl there ↦ rw there m
    | inr missing ↦ rw missing (
        Ensures-map _ _ _ _ (p.put_blob b.commit.content.snapshot b.snapshot_bytes t)
          (laws.puts_blob b.commit.content.snapshot b.snapshot_bytes t)
          (λ put u (n, stored). laws.chain s t u m n) (λ e u n. laws.chain s t u m n))
  ]

  pub ignore_advance-Holds :
      (id : ContentHash) (s : S)
      → Ensures (λ done t. Holds v s t) (λ e t. Holds v s t) (ignore (p.advance_head none id) s)
  ignore_advance-Holds id s = go (p.advance_head none id s) (laws.advances none id s)
    where
      go :
          (end : Result (Unit {0}) HeadAdvance × S)
          → Ensures
              (λ result t. Advances v none id s result t)
              (λ e t. Unanswered v none id s t)
              end
          → Holds v s end.1
      go (err e, t) (inl m) = Moves-Holds v p laws s t m
      go (err e, t) (inr swap) = Swap-Holds v p laws none id s t swap
      go (ok advanced, t) swap = Swap-Holds v p laws none id s t swap
      go (ok (conflicting current), t) m = Moves-Holds v p laws s t m

  pub deliver-Delivers :
      (id : ContentHash) (b : Bundle) (s : S)
      → Ensures (λ done t. Holds v s t × Delivers v b t) (λ e t. Holds v s t) (deliver p id b s)
  unfolding deliver
  deliver-Delivers id b s =
      Ensures-bind _ _ _ _ (put_missing p b (p.has_blobs (b.commit.content.snapshot ∷ []) s)) _
        (put_missing-Moves b s (p.has_blobs (b.commit.content.snapshot ∷ []) s)
          (laws.finds_blobs (b.commit.content.snapshot ∷ []) s))
        (λ put t1 m1.
          Ensures-bind _ _ _ _ (put_blobs p b.sample_blobs t1) _ (put_blobs-Holds b.sample_blobs t1)
            (λ put t2 (m2, samples).
              let n2 = laws.chain s t1 t2 m1 m2 in
              Ensures-bind _ _ _ _ (p.put_blob b.commit.content.samples b.manifest_bytes t2) _
                (laws.puts_blob b.commit.content.samples b.manifest_bytes t2)
                (λ put t3 (m3, manifest).
                  let n3 = laws.chain s t2 t3 n2 m3 in
                  Ensures-bind _ _ _ _ (p.put_commit b.commit t3) _ (laws.puts_commit b.commit t3)
                    (λ stored t4 (m4, commit).
                      let n4 = laws.chain s t3 t4 n3 m4 in
                      Ensures-map _ _ (λ put u. Holds v s u × Delivers v b u) (λ e u. Holds v s u)
                        (ignore (p.advance_head none id) t4) (ignore_advance-Holds id t4)
                        (λ put t5 h. (
                          Holds-trans v s t4 t5 (Moves-Holds v p laws s t4 n4) h,
                          Delivers-Holds v b t4 t5 h (record {
                            commit = commit;
                            manifest =
                                laws.keeps_blob t3 t4 b.commit.content.samples b.manifest_bytes m4
                                  manifest;
                            samples =
                                All-map b.sample_blobs
                                  (λ x there.
                                    laws.keeps_blob t2 t4 x.0 x.1 (laws.chain t2 t3 t4 m3 m4) there)
                                  samples;
                          }),
                        ))
                        (λ e t5 h. Holds-trans v s t4 t5 (Moves-Holds v p laws s t4 n4) h))
                    (λ e t4 m4. Moves-Holds v p laws s t4 (laws.chain s t3 t4 n3 m4)))
                (λ e t3 m3. Moves-Holds v p laws s t3 (laws.chain s t2 t3 n2 m3)))
            (λ e t2 m2. Moves-Holds v p laws s t2 (laws.chain s t1 t2 m1 m2)))
        (λ e t m. Moves-Holds v p laws s t m)

  fetch_blobs-Moves :
      (entries : List SampleEntry) (s : S)
      → Ensures
          (λ blobs t. v.Moves s t × (hashes blobs ≡ map (λ e. e.hash) entries))
          (λ e t. v.Moves s t)
          (fetch_blobs p entries s)
  unfolding fetch_blobs
  fetch_blobs-Moves [] s = (laws.rest s, refl)
  fetch_blobs-Moves (entry ∷ entries) s =
      Ensures-bind _ _ _ _ (p.get_blob entry.hash s) _ (laws.gets_blob entry.hash s)
        (λ bytes t (m, there).
          Ensures-bind _ _ _ _ (fetch_blobs p entries t) _ (fetch_blobs-Moves entries t)
            (λ blobs u (n, same). (laws.chain s t u m n, ap (λ hs. entry.hash ∷ hs) same))
            (λ e u n. laws.chain s t u m n))
        (λ e t m. m)

  pub fetch_bundle-IsWhole :
      (parse_manifest : List ℕ → Option (List SampleEntry)) (id : ContentHash) (s : S)
      → Ensures
          (λ b t. v.Moves s t × IsWhole parse_manifest b × (v.commit t id ≡ some b.commit))
          (λ e t. v.Moves s t)
          (fetch_bundle p parse_manifest id s)
  unfolding fetch_bundle
  fetch_bundle-IsWhole parse_manifest id s =
      Ensures-bind _ _ _ _ (p.get_commit id s) _ (laws.gets_commit id s)
        (λ commit t1 (m1, found).
          Ensures-bind _ _ _ _ (p.get_blob commit.content.snapshot t1) _
            (laws.gets_blob commit.content.snapshot t1)
            (λ snapshot t2 (m2, there2).
              let n2 = laws.chain s t1 t2 m1 m2 in
              Ensures-bind _ _ _ _ (p.get_blob commit.content.samples t2) _
                (laws.gets_blob commit.content.samples t2)
                (λ manifest t3 (m3, there3).
                  let n3 = laws.chain s t2 t3 n2 m3 in
                  Ensures-some _ _ tt (parse_manifest manifest) t3 _
                    (λ entries parsed.
                      Ensures-bind _ _ _ _ (fetch_blobs p entries t3) _
                        (fetch_blobs-Moves entries t3)
                        (λ blobs t4 (m4, listed). (
                          laws.chain s t3 t4 n3 m4,
                          record { entries = entries; parsed = parsed; listed = listed },
                          laws.keeps_commit t1 t4 id commit
                              (laws.chain t1 t3 t4 (laws.chain t1 t2 t3 m2 m3) m4) found,
                        ))
                        (λ e t4 m4. laws.chain s t3 t4 n3 m4))
                    n3)
                (λ e t3 m3. laws.chain s t2 t3 n2 m3))
            (λ e t2 m2. laws.chain s t1 t2 m1 m2))
        (λ e t m. m)
