-- ===== src/Server/Commits.antt =====
-- The commit and blob routes of crates/auru-pm-server/src/main.rs.
use auru_pm_core.Server.Store.{
  project_for, update_project, mutate_persisted, Principal, put_blob, Io, Db, World, has_blob,
  get_blob, project_key,
}
use auru_pm_core.Hash.{ContentHash, ParseHashError, to_string, from_str}
use auru_pm_core.Commit.{AuthorIdentity, Content, External, Commit, compute_commit_id, SampleEntry}
use auru_pm_core.Prelude.{
  List, [], ◌∷◌, map, Text, Option, some, none, Bool, true, false, if◌then◌else◌, lookup, insert,
  contains, insert_text, text_eq, all, Result, ok, err, ensure, ◌>>=◌, ◌>>◌, ◌&&◌, ℕ, opt_text_eq,
}
pub mod Checked
use auru_pm_core.Server.Handlers.{
  Response, Reason, no_content, AuthenticatedIdentity, bad_request, some_or, commit_is, not_found,
  invalid_hash, bytes_are, uncanonical, respond, present, storage_error, created, bytes_mismatch,
  stored, id_mismatch, forbidden, foreign_parent, foreign_blob, manifest_missing, manifest_invalid,
  foreign_sample,
}

-- `author_identity_mismatch` unless the author is the authenticated identity; a commit without an
-- email is taken.
unfoldable pub author_matches : AuthorIdentity → AuthenticatedIdentity → Bool
author_matches author identity =
    text_eq author.provider_id identity.provider_id
    && text_eq author.provider_user_id identity.user_id
    && text_eq author.display_name identity.display_name
    && elim author.email [ none ↦ true | some e ↦ opt_text_eq (some e) identity.email ]

abbrev pub metadata_text : Option ContentHash → List Text
metadata_text none = []
metadata_text (some h) = to_string h ∷ []

-- `required_blobs`
unfoldable pub required_blobs : Content → List Text
required_blobs c = to_string c.snapshot ∷ to_string c.samples ∷ metadata_text c.metadata

-- The checks of `post_commit`, in their order.
unfoldable pub check_commit :
    External
    → Io
    → Principal
    → AuthenticatedIdentity
    → Text
    → Commit
    → World
    → Result Response (Unit {0})
unfolding author_matches required_blobs project_for
check_commit ext io identity authenticated handle commit w = do
  computed ← some_or (bad_request uncanonical) (compute_commit_id ext commit.content)
  ensure (text_eq commit.id computed) (bad_request id_mismatch)
  ensure (author_matches commit.content.author authenticated) forbidden
  project ← some_or not_found (project_for w.db identity handle)
  ensure (all (λ parent. contains project.commits (to_string parent)) commit.content.parents)
      (bad_request foreign_parent)
  ensure (all (contains project.blobs) (required_blobs commit.content)) (bad_request foreign_blob)
  read ← some_or storage_error (get_blob io (to_string commit.content.samples) w)
  bytes ← some_or (bad_request manifest_missing) read
  entries ← some_or (bad_request manifest_invalid) (ext.parse_manifest bytes)
  ensure (all (λ (entry : SampleEntry). contains project.blobs (to_string entry.hash)) entries)
      (bad_request foreign_sample)

unfoldable pub add_commit : Principal → Text → Text → Content → Db → Db
unfolding update_project
add_commit identity handle id content db =
    update_project (project_key identity handle)
      (λ p. record p { commits = insert_text id p.commits })
      (record db { saved = record db.saved { commits = insert id content db.saved.commits } })

unfoldable pub post_commit :
    External → Io → Principal → AuthenticatedIdentity → Text → Commit → World → Response × World
unfolding check_commit add_commit mutate_persisted
post_commit ext io identity authenticated handle commit w =
    let id = to_string commit.id in
    elim (check_commit ext io identity authenticated handle commit w) [
      | err r ↦ (r, w)
      | ok _ ↦
          let (done, w') = mutate_persisted io (add_commit identity handle id commit.content) w in
          (respond done (created id), w')
    ]

-- `get_commit`
unfoldable pub find_commit : Principal → Text → Text → World → Result Response Content
unfolding project_for
find_commit identity handle id w = do
  project ← some_or not_found (project_for w.db identity handle)
  ensure (contains project.commits id) not_found
  some_or not_found (lookup id w.db.saved.commits)

unfoldable pub get_commit : Principal → Text → Text → World → Response
unfolding find_commit
get_commit identity handle id w = elim (find_commit identity handle id w) [
  | err r ↦ r
  | ok content ↦ commit_is id content
]

-- `post_blobs_has`: a blob of another project is not shown.
unfoldable pub post_blobs_has : Principal → Text → List Text → World → Response
unfolding project_for has_blob
post_blobs_has identity handle hashes w = elim (project_for w.db identity handle) [
  | none ↦ not_found
  | some project ↦ present (map (λ hash. contains project.blobs hash && has_blob hash w) hashes)
]

-- `hash.parse::<ContentHash>()`, every error of which is one reason.
abbrev pub parsed_or : Result ParseHashError ContentHash → Result Response ContentHash
parsed_or (ok h) = ok h
parsed_or (err e) = err (bad_request invalid_hash)

unfoldable pub check_blob :
    External → Principal → Text → Text → List ℕ → World → Result Response (Unit {0})
unfolding project_for
check_blob ext identity handle hash body w = do
  parsed ← parsed_or (from_str hash)
  ensure (text_eq (ext.blake3 body) parsed) (bad_request bytes_mismatch)
  project ← some_or not_found (project_for w.db identity handle)
  ok tt

unfoldable pub add_blob : Principal → Text → Text → Db → Db
unfolding update_project
add_blob identity handle hash db =
    update_project (project_key identity handle)
      (λ p. record p { blobs = insert_text hash p.blobs }) db

-- `put_blob`: the bytes first, and then the project's right to them.
unfoldable pub put_project_blob :
    External → Io → Principal → Text → Text → List ℕ → World → Response × World
unfolding check_blob add_blob put_blob mutate_persisted
put_project_blob ext io identity handle hash body w =
    elim (check_blob ext identity handle hash body w) [
      | err r ↦ (r, w)
      | ok _ ↦
          let (kept, w1) = put_blob io hash body w in
          if kept
          then (let (done, w2) = mutate_persisted io (add_blob identity handle hash) w1 in
              (respond done stored, w2))
          else (storage_error, w1)
    ]

unfoldable pub find_blob : Io → Principal → Text → Text → World → Result Response (List ℕ)
unfolding project_for get_blob
find_blob io identity handle hash w = do
  project ← some_or not_found (project_for w.db identity handle)
  ensure (contains project.blobs hash) not_found
  read ← some_or storage_error (get_blob io hash w)
  some_or not_found read

-- `get_blob`
unfoldable pub get_project_blob : Io → Principal → Text → Text → World → Response
unfolding find_blob
get_project_blob io identity handle hash w = elim (find_blob io identity handle hash w) [
  | err r ↦ r
  | ok bytes ↦ bytes_are bytes
]
