-- ===== src/Sync/Landing.antt =====
-- What a push of crates/auru-pm/src/sync.rs does to the primary and to the sidecar.
use auru_pm_core.Sync.Complete.{build_sample_manifest-Gathers}
use mathlib.Core.Path.{subst}
use auru_pm_core.Sync.Written.{Stores, Lands, Swap-after, write_commit_to_primary-Lands, Unlanded}
use auru_pm_core.Sync.Prepared.{Fits, Follows, prepare-Settles}
use auru_pm_core.Commit.{Commit, SampleEntry}
use auru_pm_core.Sync.Push.{
  PushInput, PushOutcome, commit_prepared, push_with_optional_resolutions, landed, prepare,
  committed, needs_resolution, needs_review, stop, Prepared, ready,
}
use auru_pm_core.Sidecar.{Sidecar, or_default, modify, Modified, modify-Modified}
use auru_pm_core.Sync.{build_sample_manifest, write_commit_to_primary}
use auru_pm_core.Sync.State.{
  Tools, PushError, SyncState, on_sidecar, sidecar_unsaved, or_failed, snapshot_unparsed,
  snapshot_invalid, manifest_unencoded, advance_failed,
}
use auru_pm_core.Sync.Mirrors.{MirrorResult, any_failed, fan_out}
use auru_pm_core.Prelude.{
  List, Option, ◌≡◌, some, Bool, none, ℕ, Text, ◌⊎◌, true, contains, inl, Result, refl, err, inr,
  ok, sym, ◌++◌, if◌then◌else◌, ◌∷◌, ◌&&◌, [], not, arith, Bool-cases, text_eq_refl, All-map,
}
use auru_pm_core.Provider.{ProjectProvider, View, IsProvider, Swap}
use auru_pm_core.Hash.{ContentHash}
use auru_pm_core.Prelude.Steps.{
  done, and_then, Ensures, Ensures-bind, Ensures-some, Ensures-test, Ensures-found,
}

-- The sidecar after a commit: it stands at the commit, has nothing stashed, and keeps the commit
-- for later if a mirror failed.
pub record Records (id : ContentHash) (results : List MirrorResult) (file : Option Sidecar)
    : Type 0 where
  pub sidecar : Sidecar
  pub saved : file ≡ some sidecar
  pub at : sidecar.local_head ≡ some id
  pub cleared : sidecar.stash ≡ none
  pub queued : any_failed results ≡ true → contains sidecar.pending_pushes id ≡ true

contains_last : (ids : List ContentHash) (id : ContentHash) → contains (ids ++ id ∷ []) id ≡ true
contains_last [] id = ground (arith, text_eq_refl id)
contains_last (x ∷ ids) id = ground (arith, contains_last ids id)

module _ {S : Type 0} (p : ProjectProvider S) (v : View S) (laws : IsProvider v p) (tools : Tools)
    (input : PushInput) where
  -- A whole commit took the place of the head, which is among its parents.
  pub record Landed (id : ContentHash) (s t : S) : Type 0 where
    pub commit : Commit
    pub from : Option ContentHash
    pub bytes : List ℕ
    pub entries : List SampleEntry
    pub named : commit.id ≡ id
    pub follows : Follows commit.content.parents from
    pub swap : Swap v from id s t
    pub stores : Stores p v laws tools t commit bytes entries

  abbrev pub Pushed : S → PushOutcome → SyncState S → Type 0
  Pushed s (committed id was_merge results unavailable) t =
      Landed id s t.primary × Records id results t.sidecar
  Pushed s (needs_resolution base conflicts) t = v.Moves s t.primary
  Pushed s (needs_review merged problems stash) t = v.Moves s t.primary

  -- A push that has landed ends in an error only if the sidecar cannot be saved or the answer to
  -- the advance was lost.
  abbrev pub Failed : S → PushError → SyncState S → Type 0
  Failed s e t =
      v.Moves s t.primary
      ⊎ (((e ≡ sidecar_unsaved) ⊎ (e ≡ advance_failed))
          × ((id : ContentHash) × Landed id s t.primary))

  stop-Pushed :
      (outcome : PushOutcome) (s : S) (t : SyncState S)
      → v.Moves s t.primary
      → Fits (stop outcome)
      → Pushed s outcome t
  unfolding Fits
  stop-Pushed (committed id was_merge results unavailable) s t m h = absurd h
  stop-Pushed (needs_resolution base conflicts) s t m h = m
  stop-Pushed (needs_review merged problems stash) s t m h = m

  landed-Records :
      (id : ContentHash) (results : List MirrorResult) (file : Option Sidecar)
      → Records id results (some (landed p tools input id results (or_default file)))
  landed-Records id results file = record {
    sidecar = landed p tools input id results (or_default file);
    saved = refl;
    at = refl;
    cleared = refl;
    queued = λ failed. queued_after (or_default file).pending_pushes failed;
  }
    where
      queued_after :
          (ids : List ContentHash)
          → any_failed results ≡ true
          → contains
              (if any_failed results && not (contains ids id) then ids ++ id ∷ [] else ids)
              id
            ≡ true
      queued_after ids failed = elim (Bool-cases (contains ids id)) [
        | inl there ↦ rw (failed, there) there
        | inr new ↦ rw (failed, new) (contains_last ids id)
      ]

  record-Pushed :
      (id : ContentHash) (was_merge : Bool) (results : List MirrorResult) (unavailable : List Text)
      (s : S) (t : SyncState S)
      → Landed id s t.primary
      → Ensures (Pushed s) (Failed s) (
          and_then
            (on_sidecar sidecar_unsaved
              (modify tools.sidecar_end (landed p tools input id results))
              t)
            (λ saved. done (committed id was_merge results unavailable)))
  record-Pushed id was_merge results unavailable s t h =
      go (modify tools.sidecar_end (landed p tools input id results) t.sidecar)
        (modify-Modified tools.sidecar_end (landed p tools input id results) t.sidecar)
    where
      go :
          (end : Result (Unit {0}) (Unit {0}) × Option Sidecar)
          → Modified tools.sidecar_end (landed p tools input id results) t.sidecar end
          → Ensures (Pushed s) (Failed s) (
              and_then
                (or_failed sidecar_unsaved end.0, record t { sidecar = end.1 })
                (λ saved. done (committed id was_merge results unavailable)))
      go (err e, file) m = inr (inl refl, (id, h))
      go (ok saved, file) m =
          (h, subst (Records id results) (sym m) (landed-Records id results t.sidecar))

  landing :
      (c : Commit) (from : Option ContentHash) (parents : List ContentHash) (bytes : List ℕ)
      (entries : List SampleEntry) (s t u : S)
      → v.Moves s t
      → Follows parents from
      → Lands p v laws tools parents from bytes entries t c u
      → Landed c.id s u
  landing c from parents bytes entries s t u m follows lands = record {
    commit = c;
    from = from;
    bytes = bytes;
    entries = entries;
    named = refl;
    follows = subst (λ ps. Follows ps from) (sym lands.parents_kept) follows;
    swap = Swap-after p v laws tools from c.id s t u m lands.swap;
    stores = lands.stores;
  }

  Unlanded-Failed :
      (e : PushError) (from : Option ContentHash) (parents : List ContentHash) (bytes : List ℕ)
      (entries : List SampleEntry) (s t : S) (u : SyncState S)
      → v.Moves s t
      → Follows parents from
      → Unlanded p v laws tools parents from bytes entries t e u.primary
      → Failed s e u
  Unlanded-Failed e from parents bytes entries s t u m follows (inl n) =
      inl (laws.chain s t u.primary m n)
  Unlanded-Failed e from parents bytes entries s t u m follows (inr (lost, (c, lands))) =
      inr (inr lost, (c.id, landing c from parents bytes entries s t u.primary m follows lands))

  commit_prepared-Pushed :
      (prepared : Prepared) (s : S) (w : SyncState S)
      → v.Moves s w.primary
      → Fits prepared
      → Ensures (Pushed s) (Failed s) (commit_prepared p tools input prepared w)
  unfolding commit_prepared Fits
  commit_prepared-Pushed (stop outcome) s w m fits = stop-Pushed outcome s w m fits
  commit_prepared-Pushed (ready bytes parents was_merge from) s w m fits =
      Ensures-some _ _ snapshot_unparsed (tools.from_slice bytes) w _
        (λ value parsed.
          Ensures-test _ _ snapshot_invalid (tools.is_snapshot bytes) w _
            (λ valid.
              Ensures-bind _ _ _ _ (build_sample_manifest p tools value input.resources w) _
                (build_sample_manifest-Gathers p v laws tools value input.resources w)
                (λ g t (m', stored).
                  Ensures-bind _ _ _ _
                    (write_commit_to_primary p tools bytes g.entries parents input.author
                      input.message input.description from t)
                    _
                    (write_commit_to_primary-Lands p v laws tools bytes g.entries parents
                      input.author input.message input.description from t
                      (All-map g.entries (λ e k. k.0) stored))
                    (λ c u lands.
                      Ensures-found _ _ manifest_unencoded (tools.manifest_encoding g.entries)
                        lands.stores.manifest_bytes u _ lands.stores.encoded
                        (record-Pushed c.id was_merge
                          (fan_out c bytes lands.stores.manifest_bytes g.blobs u.mirrors).0
                          g.unavailable s
                          (record u {
                            mirrors =
                                (fan_out c bytes lands.stores.manifest_bytes g.blobs u.mirrors).1;
                          })
                          (landing c from parents bytes g.entries s t.primary u.primary
                            (laws.chain s w.primary t.primary m m') fits lands)))
                    (λ e u ended.
                      Unlanded-Failed e from parents bytes g.entries s t.primary u
                        (laws.chain s w.primary t.primary m m') fits ended))
                (λ e t m'. inl (laws.chain s w.primary t.primary m m')))
            (inl m))
        (inl m)

  -- If the primary keeps its contract, with its history not pruned in between, then whatever
  -- calls fail and whatever other clients do, a push that answers a commit has moved the head to
  -- it in place of a head that is among its parents, or of no head if it has none, the commit and
  -- everything it names are stored, and the sidecar stands at it with nothing stashed and with
  -- the commit pending if a mirror failed; every other answer leaves the head to the other
  -- clients, and so does every error, except that a sidecar that cannot be saved or an advance
  -- whose answer is an error may follow a commit that has landed.
  pub push-Pushed :
      (w : SyncState S)
      → Ensures
          (Pushed w.primary)
          (Failed w.primary)
          (push_with_optional_resolutions p tools input w)
  unfolding push_with_optional_resolutions
  push-Pushed w =
      Ensures-bind _ _ _ _ (prepare p tools input w) _ (prepare-Settles p v laws tools input w)
        (λ prepared t (m, fits). commit_prepared-Pushed prepared w.primary t m fits)
        (λ e t m. inl m)
