-- ===== src/Filesystem/Repository/Commits.antt =====
-- `put_commit` and `read_commit` of crates/auru-pm/src/filesystem.rs.
use auru_pm_core.Prelude.{
  List, Result, ◌≡◌, ℕ, ok, Option, ap, some, Option-cases, true, err, err-ok, refl, inl, inr,
  Bool-cases, text_eq,
}
use auru_pm_core.Cas.{Codec, Store, CasIo, CasError, put}
use auru_pm_core.Cas.Frames.{IsReliable}
use auru_pm_core.Cas.Intact.{IsIntact}
use auru_pm_core.Cas.ReadBack.{get-put}
use auru_pm_core.Commit.{Commit, Content, External, SampleEntry, compute_commit_id}
use auru_pm_core.Hash.{ContentHash}
use auru_pm_core.Filesystem.Repository.{
  Repository, RepositoryIo, read_commit, put_commit, stored_commit,
}

-- The JSON reader undoes the canonical encoding of a content.
abbrev pub ReadsEncoding : External → (List ℕ → ContentHash → Option Commit) → Content → Type 0
ReadsEncoding ext parse_commit content =
    (bytes : List ℕ) (id : ContentHash)
    → ext.jcs content ≡ some bytes
    → parse_commit bytes id ≡ some (record { id = id; content = content })

-- No other bytes have the hash of the encoding.
abbrev pub EncodesApart : External → Codec → Content → Type 0
EncodesApart ext codec content =
    (bytes other : List ℕ)
    → ext.jcs content ≡ some bytes
    → codec.of other ≡ codec.of bytes
    → other ≡ bytes

stored_commit-ok :
    (id : ContentHash) (s : Repository) (result : Result CasError (Unit {0})) (commits : Store)
    {named : ContentHash} {t : Repository}
    → stored_commit id s (result, commits) ≡ (ok named, t)
    → (result ≡ ok tt) × (commits ≡ t.commits)
stored_commit-ok id s (ok done) commits e = (refl, ap (λ r. r.1.commits) e)
stored_commit-ok id s (err x) commits e = err-ok (ap (λ r. r.0) e)

-- What a success went through.
put_commit-ok :
    (ext : External) (codec : Codec) (io : CasIo) (commit : Commit) (s t : Repository)
    (named : ContentHash)
    → put_commit ext codec io commit s ≡ (ok named, t)
    → (bytes : List ℕ) × (ext.jcs commit.content ≡ some bytes)
      × (put codec io commit.id bytes s.commits ≡ (ok tt, t.commits))
unfolding put_commit
put_commit-ok ext codec io commit s t named e =
    elim (Option-cases (compute_commit_id ext commit.content)) [
      | inl unencoded ↦ err-ok (ap (λ r. r.0) (rw (put_commit, unencoded) at e))
      | inr (computed, hashed) ↦ elim (Bool-cases (text_eq computed commit.id)) [
        | inr other ↦ err-ok (ap (λ r. r.0) (rw (put_commit, hashed, other) at e))
        | inl same ↦ elim (Option-cases (ext.jcs commit.content)) [
          | inl unencoded ↦ err-ok (ap (λ r. r.0) (rw (put_commit, hashed, same, unencoded) at e))
          | inr (bytes, encoded) ↦
              let stored = put codec io commit.id bytes s.commits in
              let done =
                stored_commit-ok commit.id s stored.0 stored.1
                  (rw (put_commit, hashed, same, encoded) at e) in
              (bytes, encoded, λ i. (done.0 i, done.1 i))
        ]
      ]
    ]

-- A commit that is put into an intact store is read back under its id, if the file can be read,
-- gzip is lossless and hashes have 32 bytes, no other bytes have the hash of its encoding, and
-- the JSON reader undoes the encoding.
pub read_commit-put_commit :
    (ext : External) (codec : Codec) (parse_commit : List ℕ → ContentHash → Option Commit)
    (parse_manifest : List ℕ → Option (List SampleEntry)) (io : CasIo) (reads : RepositoryIo)
    (commit : Commit) (s t : Repository) (named : ContentHash)
    → IsReliable codec
    → IsIntact codec s.commits
    → ReadsEncoding ext parse_commit commit.content
    → EncodesApart ext codec commit.content
    → reads.commit_readable commit.id ≡ true
    → put_commit ext codec io commit s ≡ (ok named, t)
    → read_commit codec parse_commit parse_manifest reads t commit.id ≡ ok commit
unfolding read_commit
read_commit-put_commit ext codec parse_commit parse_manifest io reads commit s t named reliable
      intact parsed apart readable done =
    let (bytes, encoded, stored) = put_commit-ok ext codec io commit s t named done in
    let got =
      get-put codec reliable io commit.id bytes s.commits t.commits intact
        (λ other. apart bytes other encoded) stored in
    rw (readable, got, parsed bytes commit.id encoded) refl
