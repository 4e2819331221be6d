-- ===== src/Filesystem/Provided.antt =====
-- The calls that a push and a drain make of `FilesystemProvider`, as a provider: the trait's
-- methods in crates/auru-pm/src/filesystem.rs, with the answers of the system calls of each call.
-- The files are the folder's own: no other process prunes or collects between the calls.
use auru_pm_core.Provider.{ProjectProvider}
use auru_pm_core.Filesystem.Control.{Control}
use auru_pm_core.Cas.Intact.{IsIntact, put-IsIntact}
use auru_pm_core.Hash.RoundTrip.{IsHash}
use auru_pm_core.Cas.Frames.{IsReliable}
use auru_pm_core.Commit.{External, Commit, SampleEntry, compute_commit_id}
use auru_pm_core.Cas.{Codec, CasIo, put, CasError, get, Store, has}
use auru_pm_core.Filesystem.Repository.{
  RepositoryIo, put_commit, Repository, advance_head, write_head, read_commit, stored_commit,
  get_head, RepositoryError, HeadAdvance, write_if_advanced, conflicting, check_advance, advanced,
}
use auru_pm_core.Hash.{ContentHash}
use auru_pm_core.Prelude.{
  Result, ok, err, Option, ◌≡◌, List, some, ℕ, Bool, true, none, ap, ◌∷◌, length, All,
  some-injective, ltb, ◌==◌, ◌<◌, arith, none-some, ◌&&◌, suc, [], Option-cases, if◌then◌else◌, map,
  inl, inr, Bool-cases, text_eq,
}

abbrev pub to_option {j} : {E : Type 0} {A : Type j} → Result E A → Option A
to_option (ok a) = some a
to_option (err e) = none

pub to_option-some {j} :
    {E : Type 0} {A : Type j} (r : Result E A) {a : A} → to_option r ≡ some a → r ≡ ok a
to_option-some (ok b) e = ap (λ x. ok x) (some-injective _ _ e)
to_option-some (err x) e = absurd (none-some e)

-- The callers only report an error.
abbrev pub reported {j} : {E : Type 0} {A : Type j} → Result E A → Result (Unit {0}) A
reported (ok a) = ok a
reported (err e) = err tt

abbrev pub are_bytes : List ℕ → Bool
are_bytes [] = true
are_bytes (b ∷ bs) = ltb b 256 && are_bytes bs

-- The lists that a `ContentHash` of the code can be.
unfoldable pub is_hash : ContentHash → Bool
is_hash h = (length h == 32) && are_bytes h

are_bytes-All : (bs : List ℕ) → are_bytes bs ≡ true → All (λ b. b < 256) bs
are_bytes-All [] e = tt
are_bytes-All (b ∷ bs) e = (ground arith, are_bytes-All bs (ground arith))

pub is_hash-IsHash : (h : ContentHash) → is_hash h ≡ true → IsHash h
unfolding is_hash
is_hash-IsHash h e = record { bytes = are_bytes-All h (ground arith); size = ground arith }

-- What the system calls of one call answer.
pub record FolderIo : Type 0 where
  pub reads : RepositoryIo
  pub writes : CasIo
  pub blob_readable : Bool

-- The folder with what its next calls meet. Its blobs and commits can be read as their names, as
-- on an empty folder and after any put.
pub record Folder (codec : Codec) : Type 0 where
  pub repository : Repository
  pub blobs_intact : IsIntact codec repository.blobs
  pub commits_intact : IsIntact codec repository.commits
  pub calls : ℕ
  pub answers : ℕ → FolderIo

abbrev pub all_readable : RepositoryIo → RepositoryIo
all_readable io = record io { commit_readable = λ id. true }

-- Every case of a put, by the store that it leaves.
pub put_commit-cases :
    (P : Repository → Type 0) (ext : External) (codec : Codec) (io : CasIo) (c : Commit)
    (s : Repository)
    → P s
    → ((bytes : List ℕ) → P (record s { commits = (put codec io c.id bytes s.commits).1 }))
    → P (put_commit ext codec io c s).1
unfolding put_commit
put_commit-cases P ext codec io c s same changed =
    elim (Option-cases (compute_commit_id ext c.content)) [
      | inl unencoded ↦ rw (put_commit, unencoded) same
      | inr (computed, hashed) ↦ elim (Bool-cases (text_eq computed c.id)) [
        | inr other ↦ rw (put_commit, hashed, other) same
        | inl named ↦ elim (Option-cases (ext.jcs c.content)) [
          | inl unencoded ↦ rw (put_commit, hashed, named, unencoded) same
          | inr (bytes, encoded) ↦
              rw (put_commit, hashed, named, encoded)
                (go (put codec io c.id bytes s.commits).0 (put codec io c.id bytes s.commits).1
                  (changed bytes))
        ]
      ]
    ]
  where
    go :
        (result : Result CasError (Unit {0})) (commits : Store)
        → P (record s { commits = commits })
        → P (stored_commit c.id s (result, commits)).1
    go (ok stored) commits h = h
    go (err e) commits h = h

module _ (codec : Codec) (parse_commit : List ℕ → ContentHash → Option Commit)
    (parse_manifest : List ℕ → Option (List SampleEntry)) where
  pub advance_head-cases :
      (P : Repository → Type 0) (io : RepositoryIo) (from : Option ContentHash) (to : ContentHash)
      (s : Repository)
      → P s
      → ((head : Control) → P (record s { head = head }))
      → P (advance_head codec parse_commit parse_manifest io from to s).1
  unfolding advance_head write_head
  advance_head-cases P io from to s same changed =
      go (check_advance codec parse_commit parse_manifest io from to s)
    where
      go :
          (checked : Result RepositoryError HeadAdvance)
          → P (write_if_advanced codec parse_commit parse_manifest io to s checked).1
      go (err e) = same
      go (ok (conflicting current)) = same
      go (ok advanced) = changed _

module _ (ext : External) (codec : Codec) (reliable : IsReliable codec) (known : List ℕ → Bool)
    (parse_commit : List ℕ → ContentHash → Option Commit)
    (parse_manifest : List ℕ → Option (List SampleEntry)) where
  abbrev pub now : Folder codec → FolderIo
  now s = s.answers s.calls

  abbrev pub later : Folder codec → Folder codec
  later s = record s { calls = suc s.calls }

  abbrev pub with_blob : ContentHash → List ℕ → Folder codec → Folder codec
  with_blob h bytes s = record {
    repository = record s.repository {
      blobs = (put codec (now s).writes h bytes s.repository.blobs).1;
    };
    blobs_intact =
        put-IsIntact codec reliable (now s).writes h bytes s.repository.blobs s.blobs_intact;
    commits_intact = s.commits_intact;
    calls = suc s.calls;
    answers = s.answers;
  }

  abbrev pub with_commit : Commit → Folder codec → Folder codec
  with_commit c s = record {
    repository = (put_commit ext codec (now s).writes c s.repository).1;
    blobs_intact =
        put_commit-cases (λ t. IsIntact codec t.blobs) ext codec (now s).writes c s.repository
          s.blobs_intact (λ bytes. s.blobs_intact);
    commits_intact =
        put_commit-cases (λ t. IsIntact codec t.commits) ext codec (now s).writes c s.repository
          s.commits_intact
          (λ bytes.
            put-IsIntact codec reliable (now s).writes c.id bytes s.repository.commits
              s.commits_intact);
    calls = suc s.calls;
    answers = s.answers;
  }

  abbrev pub with_head : Option ContentHash → ContentHash → Folder codec → Folder codec
  with_head from to s = record {
    repository =
        (advance_head codec parse_commit parse_manifest (now s).reads from to s.repository).1;
    blobs_intact =
        advance_head-cases codec parse_commit parse_manifest (λ t. IsIntact codec t.blobs)
          (now s).reads from to s.repository s.blobs_intact (λ head. s.blobs_intact);
    commits_intact =
        advance_head-cases codec parse_commit parse_manifest (λ t. IsIntact codec t.commits)
          (now s).reads from to s.repository s.commits_intact (λ head. s.commits_intact);
    calls = suc s.calls;
    answers = s.answers;
  }

  abbrev pub is_known : Commit → Bool
  is_known c = elim (ext.jcs c.content) [ none ↦ true | some bytes ↦ known bytes ]

  -- `impl ProjectProvider for FilesystemProvider`, on bytes that are known and lists that are hashes;
  -- for others the contract is trivial, as the answer is an error.
  unfoldable pub folder : ProjectProvider (Folder codec)
  unfolding put get put_commit read_commit get_head advance_head is_hash
  folder = record {
    put_blob = λ h bytes s.
        if known bytes
        then (reported (put codec (now s).writes h bytes s.repository.blobs).0, with_blob h bytes s)
        else (err tt, s);
    has_blobs = λ hs s. (ok (map (λ h. has h s.repository.blobs) hs), later s);
    get_blob = λ h s. (reported (get codec (now s).blob_readable h s.repository.blobs), later s);
    put_commit = λ c s.
        if is_known c
        then (reported (put_commit ext codec (now s).writes c s.repository).0, with_commit c s)
        else (err tt, s);
    get_commit = λ id s. (
      reported (read_commit codec parse_commit parse_manifest (now s).reads s.repository id),
      later s,
    );
    get_head = λ s.
        (reported (get_head codec parse_commit parse_manifest (now s).reads s.repository), later s);
    advance_head = λ from to s.
        if is_hash to
        then (
          reported
              (advance_head codec parse_commit parse_manifest (now s).reads from to s.repository).0,
          with_head from to s,
        )
        else (err tt, s);
  }
