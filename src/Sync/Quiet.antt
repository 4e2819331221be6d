-- ===== src/Sync/Quiet.antt =====
-- The steps of a push that do not advance the head of the primary.
use auru_pm_core.Sync.Calm.{stash_resources-Calm, put_object-Calm}
use auru_pm_core.Hash.{ContentHash}
use auru_pm_core.Prelude.{
  Result, Option, Bool, err, List, ok, ℕ, Map, Text, [], some, none, false, true,
}
use auru_pm_core.Provider.{ProjectProvider, View, IsProvider}
use auru_pm_core.Sync.{
  put_object, stash_resources, stash_snapshot, hydrated_resources, record_stash,
}
use auru_pm_core.Sync.State.{
  PushError, SyncState, on_primary, Tools, or_failed, resources_unreadable, snapshot_invalid,
  snapshot_unparsed,
}
use auru_pm_core.Prelude.Steps.{Step, some_or_fail, ensure, and_then, Ensures}

-- A call on the primary ensures what the provider's call ensures, whatever the error becomes.
pub on_primary-Ensures {i k} :
    {S : Type 0} {A : Type i} (Good : A → S → Type k) (Bad : S → Type k) (e : PushError)
    (call : Step (Unit {0}) S A) (w : SyncState S)
    → Ensures Good (λ u s. Bad s) (call w.primary)
    → Ensures (λ a t. Good a t.primary) (λ e t. Bad t.primary) (on_primary e call w)
on_primary-Ensures {S} {A} Good Bad e call w h = go (call w.primary) h
  where
    go :
        (end : Result (Unit {0}) A × S)
        → Ensures Good (λ u s. Bad s) end
        → Ensures
            (λ a t. Good a t.primary)
            (λ e t. Bad t.primary)
            (or_failed e end.0, record w { primary = end.1 })
    go (err u, s) h = h
    go (ok a, s) h = h

module _ {S : Type 0} (p : ProjectProvider S) (v : View S) (laws : IsProvider v p)
    (tools : Tools) where
  record_stash-Moves :
      (bytes : List ℕ) (base : Option ContentHash) (reason : Text) (kept : Map ContentHash)
      (w : SyncState S)
      → v.Moves w.primary (record_stash p tools bytes base reason kept w).1.primary
  record_stash-Moves bytes base reason kept w = laws.rest w.primary

  -- Moves from one state, and then from the next.
  Moves-bind {i j} :
      {A : Type i} {B : Type j} (w : SyncState S) (end : Result PushError A × SyncState S)
      (next : A → Step PushError (SyncState S) B)
      → v.Moves w.primary end.1.primary
      → ((a : A) (t : SyncState S) → v.Moves t.primary (next a t).1.primary)
      → v.Moves w.primary (and_then end next).1.primary
  Moves-bind w (err e, t) next h k = h
  Moves-bind w (ok a, t) next h k = laws.chain w.primary t.primary (next a t).1.primary h (k a t)

  Moves-some {i j} :
      {A : Type i} {B : Type j} (w : SyncState S) (e : PushError) (found : Option A)
      (next : A → Step PushError (SyncState S) B)
      → ((a : A) → v.Moves w.primary (next a w).1.primary)
      → v.Moves w.primary (and_then (some_or_fail e found w) next).1.primary
  Moves-some w e none next k = laws.rest w.primary
  Moves-some w e (some a) next k = k a

  Moves-test {j} :
      {B : Type j} (w : SyncState S) (e : PushError) (test : Bool)
      (next : Step PushError (SyncState S) B)
      → v.Moves w.primary (next w).1.primary
      → v.Moves w.primary (and_then (ensure test e w) (λ nothing. next)).1.primary
  Moves-test w e false next k = laws.rest w.primary
  Moves-test w e true next k = k

  pub stash_snapshot-Moves :
      (bytes : List ℕ) (given : Map (List ℕ)) (base : Option ContentHash) (reason : Text)
      (w : SyncState S)
      → v.Moves w.primary (stash_snapshot p tools bytes given base reason w).1.primary
  unfolding stash_snapshot
  stash_snapshot-Moves bytes given base reason w =
      Moves-test w snapshot_invalid (tools.is_snapshot bytes) _ (
        Moves-some w snapshot_unparsed (tools.from_slice bytes) _ (λ value.
          Moves-some w resources_unreadable (tools.requires_hydration bytes) _ (λ hydrates.
            Moves-some w resources_unreadable (hydrated_resources p tools hydrates value) _
              (λ resources.
                Moves-bind w (stash_resources p tools given resources [] w) _
                  (stash_resources-Calm p v laws tools given resources [] w).0
                  (λ kept t.
                    Moves-bind t (put_object p tools (tools.of bytes) bytes t) _
                      (put_object-Calm p v laws tools (tools.of bytes) bytes t).0
                      (λ done u.
                        Moves-bind u (record_stash p tools bytes base reason kept u) _
                          (record_stash-Moves bytes base reason kept u)
                          (λ saved x. laws.rest x.primary)))))))
