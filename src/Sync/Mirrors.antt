-- ===== src/Sync/Mirrors.antt =====
-- The mirrors of crates/auru-pm/src/sync.rs: `push_to_mirror` and the fan-out of a push.
use auru_pm_core.Sync.State.{Mirror}
use auru_pm_core.Hash.{ContentHash}
use auru_pm_core.Commit.{Commit}
use auru_pm_core.Provider.{ProjectProvider}
use auru_pm_core.Prelude.{
  Text, ok, Result, List, Bool, ℕ, none, any, err, false, ◌∷◌, not, true, [],
}
use auru_pm_core.Prelude.Steps.{Step, ◌>>=◌, ◌>>◌, done}

-- `error` is left out: it is there if `is_ok` is false.
pub record MirrorResult : Type 0 where
  pub provider_id : Text
  pub is_ok : Bool

-- The result of `advance_head` is dropped, and its error with it.
abbrev pub ignore {ℓ} :
    {A : Type ℓ} {S : Type 0} → Step (Unit {0}) S A → Step (Unit {0}) S (Unit {0})
ignore call s = let (result, t) = call s in (ok tt, t)

module _ {S : Type 0} (p : ProjectProvider S) where
  unfoldable pub put_blobs : List (ContentHash × List ℕ) → Step (Unit {0}) S (Unit {0})
  put_blobs [] = done tt
  put_blobs ((hash, bytes) ∷ blobs) = do p.put_blob hash bytes; put_blobs blobs

  unfoldable pub push_to_mirror :
      Commit → List ℕ → List ℕ → List (ContentHash × List ℕ) → Step (Unit {0}) S (Unit {0})
  unfolding put_blobs
  push_to_mirror commit snapshot_bytes manifest_bytes sample_blobs = do
    p.put_blob commit.content.snapshot snapshot_bytes
    put_blobs sample_blobs
    p.put_blob commit.content.samples manifest_bytes
    stored ← p.put_commit commit
    ignore (p.advance_head none commit.id)

abbrev pub succeeded {ℓ} : {A : Type ℓ} → Result (Unit {0}) A → Bool
succeeded (err e) = false
succeeded (ok a) = true

module _ {S : Type 0} (commit : Commit) (snapshot_bytes manifest_bytes : List ℕ)
    (sample_blobs : List (ContentHash × List ℕ)) where
  abbrev pub mirror_step : Mirror S → Result (Unit {0}) (Unit {0}) × S
  mirror_step m =
      push_to_mirror m.provider commit snapshot_bytes manifest_bytes sample_blobs m.state

  -- Each mirror in its turn, whatever became of the others.
  unfoldable pub fan_out : List (Mirror S) → List MirrorResult × List (Mirror S)
  unfolding push_to_mirror
  fan_out [] = ([], [])
  fan_out (m ∷ mirrors) =
      let (result, s) = mirror_step m in
      let (results, mirrors') = fan_out mirrors in
      (
        record { provider_id = m.provider_id; is_ok = succeeded result } ∷ results,
        record m { state = s } ∷ mirrors',
      )

-- Whether `failed_mirror_ids` is not empty.
abbrev pub any_failed : List MirrorResult → Bool
any_failed results = any (λ r. not r.is_ok) results
