-- ===== src/Sync/Spared.antt =====
-- What a push of crates/auru-pm/src/sync.rs spares: the objects in the primary, and the sidecar.
use auru_pm_core.Sync.Calm.{Calm, put_commit-Calm, put_object-Calm, put_info-Calm}
use auru_pm_core.Filesystem.Repository.{HeadAdvance, conflicting, advanced}
use auru_pm_core.Commit.{Commit, SampleEntry, AuthorIdentity}
use auru_pm_core.Prelude.{
  Option, ◌∙◌, Result, List, some, ◌≡◌, ℕ, none, err, refl, ok, Text, inl, inr,
}
use auru_pm_core.Hash.{ContentHash}
use auru_pm_core.Sync.{
  write_commit_to_primary, store_project_info, put_object, put_info, advanced_or_conflict,
  content_of,
}
use auru_pm_core.Sync.State.{
  Tools, SyncState, PushError, on_primary, advance_failed, or_failed, manifest_unencoded,
  commit_unencoded, commit_refused,
}
use auru_pm_core.Provider.{
  ProjectProvider, View, IsProvider, Advances, Holds, Moves-Holds, Swap-Holds, Unanswered,
}
use auru_pm_core.Prelude.Steps.{Step, ◌>>=◌, some_or_fail, and_then, Ensures}

module _ {S : Type 0} (p : ProjectProvider S) (v : View S) (laws : IsProvider v p)
    (tools : Tools) where
  abbrev pub Spares : SyncState S → SyncState S → Type 0
  Spares w t = Holds v w.primary t.primary × (t.sidecar ≡ w.sidecar)

  pub Spares-refl : (w : SyncState S) → Spares w w
  Spares-refl w = (Moves-Holds v p laws w.primary w.primary (laws.rest w.primary), refl)

  pub Spares-trans : (w t u : SyncState S) → Spares w t → Spares t u → Spares w u
  Spares-trans w t u (h, same) (k, same') = (
    record {
      blobs = λ hash bytes there. k.blobs hash bytes (h.blobs hash bytes there);
      commits = λ id c there. k.commits id c (h.commits id c there);
    },
    same' ∙ same,
  )

  pub Calm-Spares : (w t : SyncState S) → Calm p v laws tools w t → Spares w t
  Calm-Spares w t (m, same) = (Moves-Holds v p laws w.primary t.primary m, same)

  pub Spares-bind {i j} :
      {A : Type i} {B : Type j} (w : SyncState S) (end : Result PushError A × SyncState S)
      (next : A → Step PushError (SyncState S) B)
      → Spares w end.1
      → ((a : A) (t : SyncState S) → Spares t (next a t).1)
      → Spares w (and_then end next).1
  Spares-bind w (err e, t) next h k = h
  Spares-bind w (ok a, t) next h k = Spares-trans w t (next a t).1 h (k a t)

  pub Spares-some {i j} :
      {A : Type i} {B : Type j} (w : SyncState S) (e : PushError) (found : Option A)
      (next : A → Step PushError (SyncState S) B)
      → ((a : A) → Spares w (next a w).1)
      → Spares w (and_then (some_or_fail e found w) next).1
  Spares-some w e none next k = Spares-refl w
  Spares-some w e (some a) next k = k a

  advance-Spares :
      (from : Option ContentHash) (c : Commit) (w : SyncState S)
      → Spares w
          (and_then
            (on_primary advance_failed (p.advance_head from c.id) w)
            (advanced_or_conflict p tools c)).1
  advance-Spares from c w =
      go (p.advance_head from c.id w.primary) (laws.advances from c.id w.primary)
    where
      go :
          (end : Result (Unit {0}) HeadAdvance × S)
          → Ensures
              (λ result t. Advances v from c.id w.primary result t)
              (λ e t. Unanswered v from c.id w.primary t)
              end
          → Spares w
              (and_then
                (or_failed advance_failed end.0, record w { primary = end.1 })
                (advanced_or_conflict p tools c)).1
      go (err u, t) (inl m) = (Moves-Holds v p laws w.primary t m, refl)
      go (err u, t) (inr swap) = (Swap-Holds v p laws from c.id w.primary t swap, refl)
      go (ok (conflicting current), t) m = (Moves-Holds v p laws w.primary t m, refl)
      go (ok advanced, t) swap = (Swap-Holds v p laws from c.id w.primary t swap, refl)

  put_commit-Spares :
      (from : Option ContentHash) (c : Commit) (w : SyncState S)
      → Spares w
          (and_then (on_primary commit_refused (p.put_commit c) w) (λ stored.
            on_primary advance_failed (p.advance_head from c.id)
            >>= advanced_or_conflict p tools c)).1
  put_commit-Spares from c w =
      Spares-bind w (on_primary commit_refused (p.put_commit c) w) _
        (Calm-Spares w (on_primary commit_refused (p.put_commit c) w).1
          (put_commit-Calm p v laws tools commit_refused c w))
        (λ stored t. advance-Spares from c t)

  pub write_commit_to_primary-Spares :
      (bytes : List ℕ) (entries : List SampleEntry) (parents : List ContentHash)
      (author : AuthorIdentity) (message description : Text) (from : Option ContentHash)
      (w : SyncState S)
      → Spares w
          (write_commit_to_primary p tools bytes entries parents author message description from
            w).1
  unfolding write_commit_to_primary store_project_info
  write_commit_to_primary-Spares bytes entries parents author message description from w =
      Spares-bind w (put_object p tools (tools.of bytes) bytes w) _
        (Calm-Spares w (put_object p tools (tools.of bytes) bytes w).1
          (put_object-Calm p v laws tools (tools.of bytes) bytes w))
        (λ done t.
          Spares-some t manifest_unencoded (tools.manifest_encoding entries) _ (λ manifest_bytes.
            Spares-bind t (put_object p tools (tools.of manifest_bytes) manifest_bytes t) _
              (Calm-Spares t (put_object p tools (tools.of manifest_bytes) manifest_bytes t).1
                (put_object-Calm p v laws tools (tools.of manifest_bytes) manifest_bytes t))
              (λ done u.
                Spares-bind u (put_info p tools (tools.info bytes) u) _
                  (Calm-Spares u (put_info p tools (tools.info bytes) u).1
                    (put_info-Calm p v laws tools (tools.info bytes) u))
                  (λ metadata x.
                    let content =
                      content_of p tools bytes (tools.of manifest_bytes) parents author message
                        description metadata in
                    Spares-some x commit_unencoded (tools.commit_id content) _
                      (λ id. put_commit-Spares from (record { id = id; content = content }) x)))))
