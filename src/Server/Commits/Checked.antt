-- ===== src/Server/Commits/Checked.antt =====
-- What a commit has that passed the checks of `post_commit` in crates/auru-pm-server/src/main.rs.
use auru_pm_core.Hash.{to_string}
use auru_pm_core.Server.Store.{Io, World, Principal, StoredProject, project_for, get_blob}
use auru_pm_core.Commit.{External, Commit, compute_commit_id, SampleEntry}
use auru_pm_core.Prelude.{
  ◌≡◌, refl, Option, some, none, Result, ok, ensure, ◌>>=◌, contains, all, ensure-eq-ok, Text, true,
  List, ℕ, Bool, text_eq, false, ◌∙◌, ap, sym, text_eq_iff,
}
use auru_pm_core.Server.Handlers.{
  Response, some_or, AuthenticatedIdentity, bad_request, id_mismatch, forbidden, not_found,
  foreign_parent, foreign_blob, storage_error, manifest_missing, manifest_invalid,
}
use auru_pm_core.Server.Commits.{check_commit, author_matches, required_blobs}

pub some_or-eq-ok :
    {A B : Type 0} (r : Response) (o : Option A) (f : A → Result Response B) {b : B}
    → (some_or r o >>= f) ≡ ok b
    → (a : A) × (o ≡ some a) × (f a ≡ ok b)
some_or-eq-ok r none f h = cc
some_or-eq-ok r (some a) f h = (a, refl, h)

ensure_holds : (b : Bool) (r : Response) → ensure b r ≡ ok tt → b ≡ true
ensure_holds true r h = refl
ensure_holds false r h = cc

-- The project that the handle names, with all that `post_commit` asks of it.
pub record IsAccepted (ext : External) (io : Io) (w : World) (c : Commit) (project : StoredProject)
    : Type 0 where
  pub addressed : compute_commit_id ext c.content ≡ some c.id
  pub parents : all (λ parent. contains project.commits (to_string parent)) c.content.parents ≡ true
  pub blobs : all (contains project.blobs) (required_blobs c.content) ≡ true
  pub samples :
      (bytes : List ℕ) × (entries : List SampleEntry) × (get_blob io (to_string c.content.samples) w
        ≡ some (some bytes))
      × (ext.parse_manifest bytes ≡ some entries)
      × (all (λ (entry : SampleEntry). contains project.blobs (to_string entry.hash)) entries
          ≡ true)

-- A commit that passes the checks has the author of the identity, its content's id, parents and
-- blobs of the project that the handle names, and a sample manifest of that project's blobs that
-- can be read.
pub check_commit_accepts :
    (ext : External) (io : Io) (who : Principal) (authenticated : AuthenticatedIdentity)
    (handle : Text) (c : Commit) (w : World)
    → check_commit ext io who authenticated handle c w ≡ ok tt
    → (author_matches c.content.author authenticated ≡ true)
      × ((project : StoredProject) × (project_for w.db who handle ≡ some project)
          × IsAccepted ext io w c project)
unfolding check_commit
check_commit_accepts ext io who authenticated handle c w h =
    let (computed, e1, h1) = some_or-eq-ok _ (compute_commit_id ext c.content) _ h in
    let (e2, h2) = ensure-eq-ok (text_eq c.id computed) (bad_request id_mismatch) _ h1 in
    let (e3, h3) = ensure-eq-ok (author_matches c.content.author authenticated) forbidden _ h2 in
    let (project, e4, h4) = some_or-eq-ok not_found (project_for w.db who handle) _ h3 in
    let (e5, h5) =
      ensure-eq-ok (all (λ parent. contains project.commits (to_string parent)) c.content.parents)
        (bad_request foreign_parent) _ h4 in
    let (e6, h6) =
      ensure-eq-ok (all (contains project.blobs) (required_blobs c.content))
        (bad_request foreign_blob) _ h5 in
    let (read, e7, h7) =
      some_or-eq-ok storage_error (get_blob io (to_string c.content.samples) w) _ h6 in
    let (bytes, e8, h8) = some_or-eq-ok (bad_request manifest_missing) read _ h7 in
    let (entries, e9, h9) =
      some_or-eq-ok (bad_request manifest_invalid) (ext.parse_manifest bytes) _ h8 in
    (
      e3,
      (
        project,
        e4,
        record {
          addressed = e1 ∙ ap (λ x. some x) (sym ((text_eq_iff c.id computed).0 e2));
          parents = e5;
          blobs = e6;
          samples = (bytes, entries, e7 ∙ ap (λ x. some x) e8, e9, ensure_holds _ _ h9);
        },
      ),
    )
