-- ===== src/Server/Isolation.antt =====
-- The requests of crates/auru-pm-server/src/main.rs and the projects of other owners.
use auru_pm_core.Server.Key.{project_key_injective}
use auru_pm_core.Server.Requests.Rule.{answer-keeps}
use auru_pm_core.Hash.{to_string}
use auru_pm_core.Server.Persist.{mutate_saved, put_blob_keeps}
use auru_pm_core.Server.Commits.{add_blob, add_commit}
use auru_pm_core.Server.History.{set_floor}
use auru_pm_core.Server.Handlers.{set_head, set_profile}
use auru_pm_core.Commit.{External}
use auru_pm_core.Prelude.{
  ◌≡◌, refl, ap, Text, Option, some, none, lookup, insert, ◌≢◌, lookup-insert, text_ne, Map, ◌⊎◌,
  List, All, ◌∷◌, inl, ◌∙◌, inr, [],
}
use auru_pm_core.Server.Store.{
  Principal, StoredProject, World, Saved, Io, project_key, project_for, update_project, Db,
}
use auru_pm_core.Server.Requests.{
  Route, Request, answer, Survives, put_profile, advance_head, push_commit, prune, push_blob, serve,
}

-- The handle that a route may change the project of.
abbrev pub target : Route → Option Text
target (put_profile handle profile) = some handle
target (advance_head handle from to) = some handle
target (push_commit authenticated handle c) = some handle
target (prune handle rule) = some handle
target (push_blob handle hash body) = some handle
target route = none

-- The project at `key` is `found`.
abbrev Holds : Text → Option StoredProject → Saved → Type 0
Holds key found s = lookup key s.projects ≡ found

insert-Holds :
    (key other : Text) (p : StoredProject) (projects : Map StoredProject)
    (found : Option StoredProject)
    → other ≢ key
    → lookup key projects ≡ found
    → lookup key (insert other p projects) ≡ found
insert-Holds key other p projects found ne h =
    rw (lookup-insert other key p projects, text_ne other key ne) h

update_project-Holds :
    (key other : Text) (change : StoredProject → StoredProject) (db : Db)
    (found : Option StoredProject)
    → other ≢ key
    → Holds key found db.saved
    → Holds key found (update_project other change db).saved
unfolding update_project
update_project-Holds key other change db found ne h = go (lookup other db.saved.projects) refl
  where
    go :
        (o : Option StoredProject)
        → lookup other db.saved.projects ≡ o
        → Holds key found (update_project other change db).saved
    go none e = rw (e, update_project) h
    go (some p) e =
        rw
          (
            e,
            update_project,
            lookup-insert other key (change p) db.saved.projects,
            text_ne other key ne,
          )
          h

module _ (ext : External) (who owner : Principal) (io : Io) (handle : Text) (route : Route) where
  -- The request is of somebody else, or names another project.
  abbrev IsElsewhere : Type 0
  IsElsewhere = (h : Text) → target route ≡ some h → project_key who h ≢ project_key owner handle

  Survives-Holds :
      (found : Option StoredProject)
      → IsElsewhere
      → Survives ext (λ w. project_for w.db owner handle ≡ found) who io route
  unfolding project_for set_head set_floor add_blob add_commit set_profile
  Survives-Holds found away = record {
    profile = λ h new w e held.
        mutate_saved (Holds (project_key owner handle) found) (set_profile who h new) w io held (
          insert-Holds _ (project_key who h) _ w.db.saved.projects found (away h (ap target e))
            held);
    head = λ h to from w e c held.
        mutate_saved (Holds (project_key owner handle) found) (set_head who h to) w io held
          (update_project-Holds _ (project_key who h) _ w.db found (away h (ap target e)) held);
    commit = λ a h c w e okay held.
        mutate_saved (Holds (project_key owner handle) found)
          (add_commit who h (to_string c.id) c.content) w io held
          (update_project-Holds _ (project_key who h) _ _ found (away h (ap target e)) held);
    floor = λ h id rule w e held.
        mutate_saved (Holds (project_key owner handle) found) (set_floor who h id) w io held
          (update_project-Holds _ (project_key who h) _ w.db found (away h (ap target e)) held);
    bytes = λ h hash body w e c held. rw (put_blob_keeps io hash body w).0 held;
    blob = λ h hash body w e held.
        mutate_saved (Holds (project_key owner handle) found) (add_blob who h hash) w io held
          (update_project-Holds _ (project_key who h) _ w.db found (away h (ap target e)) held);
  }

-- A request of another identity, or for another handle, leaves a project exactly as it was,
-- whatever it asks and whatever the disk answers.
pub project_for-answer :
    (ext : External) (r : Request) (w : World) (owner : Principal) (handle : Text)
    → ((h : Text) → target r.route ≡ some h → (r.identity ≢ owner) ⊎ (h ≢ handle))
    → project_for (answer ext r w).1.db owner handle ≡ project_for w.db owner handle
project_for-answer ext r w owner handle away =
    answer-keeps ext (λ v. project_for v.db owner handle ≡ project_for w.db owner handle) r w
      (Survives-Holds ext r.identity owner r.io handle r.route (project_for w.db owner handle)
        (λ h e same.
          let (ids, handles) = project_key_injective r.identity owner h handle same in
          elim (away h e) [ inl other ↦ other ids | inr other ↦ other handles ]))
      refl

-- What other identities request, however often and whatever the disk answers, leaves the project
-- that an owner has under a handle exactly as it was.
pub project_for-serve :
    (ext : External) (rs : List Request) (w : World) (owner : Principal) (handle : Text)
    → All (λ r. r.identity ≢ owner) rs
    → project_for (serve ext rs w).db owner handle ≡ project_for w.db owner handle
unfolding serve
project_for-serve ext [] w owner handle others = refl
project_for-serve ext (r ∷ rest) w owner handle others =
    project_for-serve ext rest (answer ext r w).1 owner handle others.1
    ∙ project_for-answer ext r w owner handle (λ h e. inl others.0)
