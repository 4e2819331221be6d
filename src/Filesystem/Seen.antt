-- ===== src/Filesystem/Seen.antt =====
-- What can be seen of the folder of crates/auru-pm/src/filesystem.rs as a provider.
use auru_pm_core.Filesystem.Repository.Ends.{or_store_failed-ok}
use auru_pm_core.Provider.{View}
use auru_pm_core.Commit.{Commit, SampleEntry}
use auru_pm_core.Hash.{ContentHash}
use auru_pm_core.Cas.{Codec, get, CasError}
use auru_pm_core.Filesystem.Repository.{
  RepositoryError, Repository, read_commit, RepositoryIo, or_bad_commit, or_store_failed,
}
use auru_pm_core.Prelude.{
  Result, ok, err, Option, ◌≡◌, ◌∙◌, List, ap, ℕ, none, true, some, none-some, refl, err-ok,
  ok-injective, >>=-eq-ok, Bool-cases, inr, inl,
}
use auru_pm_core.Filesystem.Provided.{Folder, to_option}
use auru_pm_core.Filesystem.Repository.Head.{head_in}

abbrev pub known_head : Result RepositoryError (Option ContentHash) → Option ContentHash
known_head (ok head) = head
known_head (err e) = none

module _ (codec : Codec) where
  -- What the calls of a push or a drain leave of a folder, but for an advance of the head.
  pub record Keeps (s t : Folder codec) : Type 0 where
    pub same_head : head_in t.repository ≡ head_in s.repository
    pub blobs :
        (h : ContentHash) (bytes : List ℕ)
        → get codec true h s.repository.blobs ≡ ok bytes
        → get codec true h t.repository.blobs ≡ ok bytes
    pub commits :
        (id : ContentHash) (bytes : List ℕ)
        → get codec true id s.repository.commits ≡ ok bytes
        → get codec true id t.repository.commits ≡ ok bytes

  pub Keeps-refl : (s t : Folder codec) → t.repository ≡ s.repository → Keeps s t
  Keeps-refl s t same = record {
    same_head = ap head_in same;
    blobs = λ h bytes e. ap (λ u. get codec true h u.blobs) same ∙ e;
    commits = λ id bytes e. ap (λ u. get codec true id u.commits) same ∙ e;
  }

  pub Keeps-trans : (s t u : Folder codec) → Keeps s t → Keeps t u → Keeps s u
  Keeps-trans s t u m n = record {
    same_head = n.same_head ∙ m.same_head;
    blobs = λ h bytes e. n.blobs h bytes (m.blobs h bytes e);
    commits = λ id bytes e. n.commits id bytes (m.commits id bytes e);
  }

  module _ (parse_commit : List ℕ → ContentHash → Option Commit) where
    -- The commit that the file of an id holds.
    unfoldable pub commit_at : Repository → ContentHash → Option Commit
    unfolding get
    commit_at s id = elim (get codec true id s.commits) [
      | ok bytes ↦ parse_commit bytes id
      | err e ↦ none
    ]

    abbrev pub folder_view : View (Folder codec)
    folder_view = record {
      blob = λ s h. to_option (get codec true h s.repository.blobs);
      commit = λ s id. commit_at s.repository id;
      head = λ s. known_head (head_in s.repository);
      Moves = Keeps;
    }

    commit_at-some :
        (s : Repository) (id : ContentHash) (c : Commit)
        → commit_at s id ≡ some c
        → (bytes : List ℕ) × (get codec true id s.commits ≡ ok bytes)
          × (parse_commit bytes id ≡ some c)
    unfolding commit_at
    commit_at-some s id c e = go (get codec true id s.commits) refl e
      where
        go :
            (r : Result CasError (List ℕ))
            → get codec true id s.commits ≡ r
            → ◌≡◌ {A = Option Commit}
                (elim r [ ok bytes ↦ parse_commit bytes id | err e ↦ none ])
                (some c)
            → (bytes : List ℕ) × (get codec true id s.commits ≡ ok bytes)
              × (parse_commit bytes id ≡ some c)
        go (err x) same e = absurd (none-some e)
        go (ok bytes) same e = (bytes, same, e)

    pub commit_at-same :
        (s t : Repository) (id : ContentHash)
        → s.commits ≡ t.commits
        → commit_at s id ≡ commit_at t id
    unfolding commit_at
    commit_at-same s t id same = rw (commit_at, same) refl

    pub commit_at-Keeps :
        (s t : Folder codec) (id : ContentHash) (c : Commit)
        → Keeps s t
        → commit_at s.repository id ≡ some c
        → commit_at t.repository id ≡ some c
    unfolding commit_at
    commit_at-Keeps s t id c m e =
        let (bytes, found, parsed) = commit_at-some s.repository id c e in
        rw (commit_at, m.commits id bytes found) parsed

    pub read_commit-commit_at :
        (parse_manifest : List ℕ → Option (List SampleEntry)) (io : RepositoryIo) (s : Repository)
        (id : ContentHash) (c : Commit)
        → read_commit codec parse_commit parse_manifest io s id ≡ ok c
        → commit_at s id ≡ some c
    unfolding read_commit commit_at
    read_commit-commit_at parse_manifest io s id c e =
        let (bytes, found, parsed) =
          >>=-eq-ok (or_store_failed (get codec (io.commit_readable id) id s.commits)) _ e in
        elim (Bool-cases (io.commit_readable id)) [
          | inr unreadable ↦ err-ok (rw (unreadable, get) at found)
          | inl readable ↦
              rw
                (commit_at, or_store_failed-ok (get codec true id s.commits) (rw readable at found))
                (parsed_some (parse_commit bytes id) parsed)
        ]
      where
        parsed_some : (o : Option Commit) → or_bad_commit o ≡ ok c → o ≡ some c
        parsed_some none e = err-ok e
        parsed_some (some d) e = ap (λ x. some x) (ok-injective e)
