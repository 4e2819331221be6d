-- ===== src/Filesystem/Objects.antt =====
-- The objects of a commit in the blob store, in crates/auru-pm/src/filesystem.rs: the check before
-- a commit is published, and the blobs that a collection leaves alone.
pub mod Kept
use auru_pm_core.Cas.{Codec, Store, CasError, get, has}
use auru_pm_core.Commit.{Content, SampleEntry}
use auru_pm_core.Hash.{ContentHash}
use auru_pm_core.Prelude.{
  ℕ, List, [], ◌∷◌, ◌++◌, Option, some, none, Bool, Result, ok, err, ensure, ◌>>=◌, ◌>>◌, all, map,
}

pub data ObjectError : Type 0 where
  missing bad_manifest : ObjectError
  store_error : CasError → ObjectError

abbrev pub or_store_error {ℓ} : {A : Type ℓ} → Result CasError A → Result ObjectError A
or_store_error (ok a) = ok a
or_store_error (err e) = err (store_error e)

abbrev pub or_bad_manifest {ℓ} : {A : Type ℓ} → Option A → Result ObjectError A
or_bad_manifest (some a) = ok a
or_bad_manifest none = err bad_manifest

abbrev pub metadata_hash : Option ContentHash → List ContentHash
metadata_hash none = []
metadata_hash (some hash) = hash ∷ []

abbrev pub entry_hashes : List SampleEntry → List ContentHash
entry_hashes = map (λ (entry : SampleEntry). entry.hash)

module _ (codec : Codec) (readable : Bool)
    (parse_manifest : List ℕ → Option (List SampleEntry)) where
  -- `blobs.get` of the sample manifest, and `serde_json::from_slice`.
  unfoldable pub read_manifest : Store → Content → Result ObjectError (List SampleEntry)
  read_manifest blobs commit = do
    bytes ← or_store_error (get codec readable commit.samples blobs)
    or_bad_manifest (parse_manifest bytes)

  unfoldable pub validate_commit_objects : Store → Content → Result ObjectError (Unit {0})
  validate_commit_objects blobs commit = do
    ensure (has commit.snapshot blobs) missing
    ensure (all (λ hash. has hash blobs) (metadata_hash commit.metadata)) missing
    entries ← read_manifest blobs commit
    ensure (all (λ hash. has hash blobs) (entry_hashes entries)) missing

  -- In the order of the commits; the program has a set.
  unfoldable pub reachable_blobs :
      Store → List Content → List ContentHash → Result ObjectError (List ContentHash)
  reachable_blobs blobs [] protected = ok protected
  reachable_blobs blobs (commit ∷ commits) protected = do
    entries ← read_manifest blobs commit
    rest ← reachable_blobs blobs commits protected
    ok (
        commit.snapshot
        ∷ commit.samples
        ∷ (metadata_hash commit.metadata ++ (entry_hashes entries ++ rest)))
