-- ===== src/Sync/Written.antt =====
-- `write_commit_to_primary` of crates/auru-pm/src/sync.rs.
use auru_pm_core.Sync.Quiet.{on_primary-Ensures}
use auru_pm_core.Filesystem.Repository.{HeadAdvance, conflicting, advanced}
use auru_pm_core.Sync.Complete.{Present, put_object-Present, Present-Moves}
use auru_pm_core.Hash.{ContentHash}
use auru_pm_core.Commit.{Commit, SampleEntry, AuthorIdentity}
use auru_pm_core.Prelude.{
  Option, List, ℕ, some, ◌≡◌, none, All, All-map, Text, Result, err, ok, refl, inl, ◌⊎◌, inr,
}
use auru_pm_core.Sync.{
  write_commit_to_primary, store_project_info, put_info, put_object, advanced_or_conflict,
  content_of,
}
use auru_pm_core.Sync.State.{
  Tools, SyncState, on_primary, advance_failed, or_failed, commit_refused, manifest_unencoded,
  commit_unencoded, PushError,
}
use auru_pm_core.Provider.{
  ProjectProvider, View, IsProvider, Swap, Advances, Holds, Swap-Holds, Moves-Holds, Unanswered,
}
use auru_pm_core.Prelude.Steps.{◌>>=◌, and_then, Ensures, Ensures-bind, Ensures-some}

module _ {S : Type 0} (p : ProjectProvider S) (v : View S) (laws : IsProvider v p)
    (tools : Tools) where
  abbrev pub OptPresent : S → Option ContentHash → Type 0
  OptPresent s none = Unit
  OptPresent s (some h) = Present p v laws tools s h

  -- A commit with everything that it names.
  pub record Stores (s : S) (c : Commit) (bytes : List ℕ) (entries : List SampleEntry)
      : Type 0 where
    pub commit : v.commit s c.id ≡ some c
    pub named : c.content.snapshot ≡ tools.of bytes
    pub snapshot : v.blob s c.content.snapshot ≡ some bytes
    pub manifest_bytes : List ℕ
    pub encoded : tools.manifest_encoding entries ≡ some manifest_bytes
    pub manifest_named : c.content.samples ≡ tools.of manifest_bytes
    pub manifest : v.blob s c.content.samples ≡ some manifest_bytes
    pub samples : All (λ e. Present p v laws tools s e.hash) entries
    pub metadata : OptPresent s c.content.metadata

  Present-Holds :
      (s t : S) (h : ContentHash)
      → Holds v s t
      → Present p v laws tools s h
      → Present p v laws tools t h
  Present-Holds s t h k (bytes, there) = (bytes, k.blobs h bytes there)

  OptPresent-Holds :
      (s t : S) (h : Option ContentHash) → Holds v s t → OptPresent s h → OptPresent t h
  OptPresent-Holds s t none k there = tt
  OptPresent-Holds s t (some h) k there = Present-Holds s t h k there

  pub Stores-Holds :
      (s t : S) (c : Commit) (bytes : List ℕ) (entries : List SampleEntry)
      → Holds v s t
      → Stores s c bytes entries
      → Stores t c bytes entries
  Stores-Holds s t c bytes entries k h = record {
    commit = k.commits c.id c h.commit;
    named = h.named;
    snapshot = k.blobs c.content.snapshot bytes h.snapshot;
    manifest_bytes = h.manifest_bytes;
    encoded = h.encoded;
    manifest_named = h.manifest_named;
    manifest = k.blobs c.content.samples h.manifest_bytes h.manifest;
    samples = All-map entries (λ e there. Present-Holds s t e.hash k there) h.samples;
    metadata = OptPresent-Holds s t c.content.metadata k h.metadata;
  }

  -- A commit is stored whole, and then the head is moved to it.
  pub record Lands (parents : List ContentHash) (from : Option ContentHash) (bytes : List ℕ)
      (entries : List SampleEntry) (s : S) (c : Commit) (t : S) : Type 0 where
    pub stores : Stores t c bytes entries
    pub parents_kept : c.content.parents ≡ parents
    pub swap : Swap v from c.id s t

  pub Swap-after :
      (from : Option ContentHash) (to : ContentHash) (s t u : S)
      → v.Moves s t
      → Swap v from to t u
      → Swap v from to s u
  Swap-after from to s t u m swap = record {
    before = swap.before;
    after = swap.after;
    moved = laws.chain s t swap.before m swap.moved;
    was = swap.was;
    became = swap.became;
    blobs = swap.blobs;
    commits = swap.commits;
    moves = swap.moves;
  }

  -- A write that ends in an error leaves the head to other writers, unless the answer to the
  -- advance was lost.
  abbrev pub Unlanded :
      List ContentHash → Option ContentHash → List ℕ → List SampleEntry → S → PushError → S → Type 0
  Unlanded parents from bytes entries s e t =
      v.Moves s t ⊎ ((e ≡ advance_failed) × ((c : Commit) × Lands parents from bytes entries s c t))

  advance-Lands :
      (parents : List ContentHash) (from : Option ContentHash) (bytes : List ℕ)
      (entries : List SampleEntry) (s : S) (c : Commit) (w : SyncState S)
      → v.Moves s w.primary
      → Stores w.primary c bytes entries
      → c.content.parents ≡ parents
      → Ensures
          (λ c' t. Lands parents from bytes entries s c' t.primary)
          (λ e t. Unlanded parents from bytes entries s e t.primary)
          (and_then
            (on_primary advance_failed (p.advance_head from c.id) w)
            (advanced_or_conflict p tools c))
  advance-Lands parents from bytes entries s c w m h same =
      go (p.advance_head from c.id w.primary) (laws.advances from c.id w.primary)
    where
      landed : (t : S) → Swap v from c.id w.primary t → Lands parents from bytes entries s c t
      landed t k = record {
        stores =
            Stores-Holds w.primary t c bytes entries (Swap-Holds v p laws from c.id w.primary t k)
              h;
        parents_kept = same;
        swap = Swap-after from c.id s w.primary t m k;
      }

      go :
          (end : Result (Unit {0}) HeadAdvance × S)
          → Ensures
              (λ result t. Advances v from c.id w.primary result t)
              (λ e t. Unanswered v from c.id w.primary t)
              end
          → Ensures
              (λ c' t. Lands parents from bytes entries s c' t.primary)
              (λ e t. Unlanded parents from bytes entries s e t.primary)
              (and_then
                (or_failed advance_failed end.0, record w { primary = end.1 })
                (advanced_or_conflict p tools c))
      go (err u, t) (inl k) = inl (laws.chain s w.primary t m k)
      go (err u, t) (inr k) = inr (refl, (c, landed t k))
      go (ok (conflicting current), t) k = inl (laws.chain s w.primary t m k)
      go (ok advanced, t) k = landed t k

  put_info-Present :
      (info : Option (List ℕ)) (w : SyncState S)
      → Ensures
          (λ h t. v.Moves w.primary t.primary × OptPresent t.primary h)
          (λ e t. v.Moves w.primary t.primary)
          (put_info p tools info w)
  put_info-Present none w = (laws.rest w.primary, tt)
  put_info-Present (some bytes) w =
      Ensures-bind _ _ _ _ (put_object p tools (tools.of bytes) bytes w) _
        (put_object-Present p v laws tools (tools.of bytes) bytes w)
        (λ done t (m, there). (m, (bytes, there))) (λ e t m. m)

  -- The commit itself, once its objects are stored.
  put_commit-Lands :
      (parents : List ContentHash) (from : Option ContentHash) (bytes : List ℕ)
      (entries : List SampleEntry) (s : S) (c : Commit) (w : SyncState S)
      → v.Moves s w.primary
      → ((t : S) → v.Moves w.primary t → v.commit t c.id ≡ some c → Stores t c bytes entries)
      → c.content.parents ≡ parents
      → Ensures
          (λ c' t. Lands parents from bytes entries s c' t.primary)
          (λ e t. Unlanded parents from bytes entries s e t.primary)
          (and_then (on_primary commit_refused (p.put_commit c) w) (λ stored.
            on_primary advance_failed (p.advance_head from c.id)
            >>= advanced_or_conflict p tools c))
  put_commit-Lands parents from bytes entries s c w m whole same =
      Ensures-bind _ _ _ _ (on_primary commit_refused (p.put_commit c) w) _
        (on_primary-Ensures _ _ commit_refused (p.put_commit c) w (laws.puts_commit c w.primary))
        (λ named t (m', commit).
          advance-Lands parents from bytes entries s c t (laws.chain s w.primary t.primary m m')
            (whole t.primary m' commit) same)
        (λ e t m'. inl (laws.chain s w.primary t.primary m m'))

  pub write_commit_to_primary-Lands :
      (bytes : List ℕ) (entries : List SampleEntry) (parents : List ContentHash)
      (author : AuthorIdentity) (message description : Text) (from : Option ContentHash)
      (w : SyncState S)
      → All (λ e. Present p v laws tools w.primary e.hash) entries
      → Ensures
          (λ c t. Lands parents from bytes entries w.primary c t.primary)
          (λ e t. Unlanded parents from bytes entries w.primary e t.primary)
          (write_commit_to_primary p tools bytes entries parents author message description from w)
  unfolding write_commit_to_primary store_project_info
  write_commit_to_primary-Lands bytes entries parents author message description from w samples =
      Ensures-bind _ _ _ _ (put_object p tools (tools.of bytes) bytes w) _
        (put_object-Present p v laws tools (tools.of bytes) bytes w)
        (λ done t (m, snapshot).
          Ensures-some _ _ manifest_unencoded (tools.manifest_encoding entries) t _
            (λ manifest_bytes encoded.
              Ensures-bind _ _ _ _ (put_object p tools (tools.of manifest_bytes) manifest_bytes t) _
                (put_object-Present p v laws tools (tools.of manifest_bytes) manifest_bytes t)
                (λ done t2 (m2, manifest).
                  let m3 = laws.chain w.primary t.primary t2.primary m m2 in
                  Ensures-bind _ _ _ _ (put_info p tools (tools.info bytes) t2) _
                    (put_info-Present (tools.info bytes) t2)
                    (λ metadata t3 (m4, info).
                      let m5 = laws.chain w.primary t2.primary t3.primary m3 m4 in
                      let content =
                        content_of p tools bytes (tools.of manifest_bytes) parents author message
                          description metadata in
                      Ensures-some _ _ commit_unencoded (tools.commit_id content) t3 _
                        (λ id computed.
                          put_commit-Lands parents from bytes entries w.primary
                            (record { id = id; content = content }) t3 m5
                            (λ u m6 commit.
                              let m7 = laws.chain t2.primary t3.primary u m4 m6 in
                              record {
                                commit = commit;
                                named = refl;
                                snapshot =
                                    laws.keeps_blob t.primary u (tools.of bytes) bytes
                                      (laws.chain t.primary t2.primary u m2 m7) snapshot;
                                manifest_bytes = manifest_bytes;
                                encoded = encoded;
                                manifest_named = refl;
                                manifest =
                                    laws.keeps_blob t2.primary u (tools.of manifest_bytes)
                                      manifest_bytes m7 manifest;
                                samples =
                                    All-map entries
                                      (λ e there.
                                        Present-Moves p v laws tools w.primary u e.hash
                                          (laws.chain w.primary t3.primary u m5 m6) there)
                                      samples;
                                metadata =
                                    OptPresent-Holds t3.primary u metadata
                                      (Moves-Holds v p laws t3.primary u m6) info;
                              })
                            refl)
                        (inl m5))
                    (λ e t3 m4. inl (laws.chain w.primary t2.primary t3.primary m3 m4)))
                (λ e t2 m2. inl (laws.chain w.primary t.primary t2.primary m m2)))
            (inl m))
        (λ e t m. inl m)
