-- ===== src/Server/Handlers.antt =====
-- The routes of crates/auru-pm-server/src/main.rs that read and change the database, behind the
-- authentication. A handler takes the answers of the system calls and the world, and gives the
-- response and the new world. A `Response` is the status with the body's content.
use auru_pm_core.Prelude.{
  ℕ, suc, List, [], ◌∷◌, ◌++◌, Text, Option, some, none, Bool, true, false, ◌&&◌, if◌then◌else◌,
  Map, lookup, insert, contains, text_eq, opt_text_eq, leb, Result, ok, err, ensure, ◌>>=◌, ◌>>◌,
}
use auru_pm_core.Prelude.Int.{ℤ, pos, leb_ℤ}
use auru_pm_core.Commit.{AuthorIdentity, Content}
use auru_pm_core.Server.Store.{
  Principal, Profile, StoredProject, Db, World, Io, default_project, mutate_persisted, project_key,
  project_for, update_project,
}

-- The reasons of a 400, in the order of the code.
pub data Reason : Type 0 where
  uncanonical id_mismatch foreign_parent foreign_blob manifest_missing manifest_invalid : Reason
  foreign_sample foreign_target invalid_hash bytes_mismatch : Reason

pub record HistoryRow : Type 0 where
  pub id : Text
  pub parents : List Text
  pub author : AuthorIdentity
  pub timestamp : ℤ
  pub message : Text
  pub description : Text

pub record ProviderProject : Type 0 where
  pub handle : Text
  pub head : Text
  pub profile : Option Profile
  pub updated_at : ℤ

-- `endless` is no answer of the server: a loop that does not end.
pub data Response : Type 0 where
  no_content advanced stored not_found forbidden storage_error endless : Response
  bad_request : Reason → Response
  conflict head_is : Option Text → Response
  created : Text → Response
  commit_is : Text → Content → Response
  history_is : List HistoryRow → Response
  retention_is : ℕ → Response
  present : List Bool → Response
  bytes_are : List ℕ → Response
  projects_are : List ProviderProject → Response

-- An early return with an error response.
abbrev pub some_or {ℓ} : {A : Type ℓ} → Response → Option A → Result Response A
some_or r none = err r
some_or r (some a) = ok a

abbrev pub respond : Bool → Response → Response
respond true r = r
respond false r = storage_error

-- `AuthenticatedIdentity`
pub record AuthenticatedIdentity : Type 0 where
  pub provider_id : Text
  pub user_id : Text
  pub display_name : Text
  pub email : Option Text

-- `get_projects`: those of the owner that have a handle and a head, newest first and then by
-- handle. `sort_by` is stable, as is this insertion from the right.
abbrev pub same_principal : Principal → Principal → Bool
same_principal p q = text_eq p.issuer q.issuer && text_eq p.subject q.subject

unfoldable pub owned_by : Principal → StoredProject → Bool
owned_by owner project = elim project.owner [ none ↦ false | some p ↦ same_principal p owner ]

-- `str::cmp` is the order of the bytes; this is "not greater".
unfoldable pub text_le : Text → Text → Bool
text_le [] t = true
text_le (a ∷ s) [] = false
text_le (a ∷ s) (b ∷ t) =
    if leb (suc a) b then true else if leb (suc b) a then false else text_le s t

unfoldable pub listed_before : ProviderProject → ProviderProject → Bool
unfolding text_le
listed_before left right =
    if leb_ℤ left.updated_at right.updated_at
    then leb_ℤ right.updated_at left.updated_at && text_le left.handle right.handle
    else true

unfoldable pub insert_project : ProviderProject → List ProviderProject → List ProviderProject
unfolding listed_before
insert_project p [] = p ∷ []
insert_project p (q ∷ qs) = if listed_before p q then p ∷ q ∷ qs else q ∷ insert_project p qs

unfoldable pub sort_projects : List ProviderProject → List ProviderProject
unfolding insert_project
sort_projects [] = []
sort_projects (p ∷ ps) = insert_project p (sort_projects ps)

abbrev pub listing : StoredProject → Option Text → Option Text → List ProviderProject
listing project (some handle) (some head) =
    record {
      handle = handle;
      head = head;
      profile = project.profile;
      updated_at = project.updated_at;
    }
    ∷ []
listing project _ _ = []

unfoldable pub owned_listings : Principal → Map StoredProject → List ProviderProject
unfolding owned_by
owned_listings owner [] = []
owned_listings owner ((key, project) ∷ rest) =
    (if owned_by owner project then listing project project.handle project.head else [])
    ++ owned_listings owner rest

unfoldable pub get_projects : Principal → World → Response
unfolding owned_listings sort_projects
get_projects identity w = projects_are (sort_projects (owned_listings identity w.db.saved.projects))

-- `put_project_profile`: the project is made if it is not there, and a profile without a location
-- keeps the old one.
abbrev pub old_location : Option Profile → Option Text
old_location none = none
old_location (some profile) = profile.location

abbrev pub keep_location : Profile → Option Profile → Profile
keep_location new old = elim new.location [
  | some l ↦ new
  | none ↦ record new { location = old_location old }
]

unfoldable pub set_profile : Principal → Text → Profile → Db → Db
set_profile owner handle profile db =
    let key = project_key owner handle in
    let fresh : StoredProject = record default_project {
      owner = some owner;
      handle = some handle;
    } in
    let project : StoredProject = elim (lookup key db.saved.projects) [
      | some p ↦ p
      | none ↦ fresh
    ] in
    let project' = record project { profile = some (keep_location profile project.profile) } in
    record db { saved = record db.saved { projects = insert key project' db.saved.projects } }

unfoldable pub put_project_profile : Io → Principal → Text → Profile → World → Response × World
unfolding set_profile mutate_persisted
put_project_profile io identity handle profile w =
    let (done, w') = mutate_persisted io (set_profile identity handle profile) w in
    (respond done no_content, w')

abbrev pub head_of : Option StoredProject → Option Text
head_of none = none
head_of (some project) = project.head

unfoldable pub get_head : Principal → Text → World → Response
unfolding project_for
get_head identity handle w = head_is (head_of (project_for w.db identity handle))

-- The timestamp of a stored commit, 0 without one.
abbrev pub timestamp_or_zero : Option Content → ℤ
timestamp_or_zero none = pos 0
timestamp_or_zero (some c) = c.timestamp

-- `post_head`: compare and swap.
unfoldable pub check_head :
    Principal → Text → Option Text → Text → World → Result Response (Unit {0})
unfolding project_for
check_head identity handle from to w = do
  project ← some_or not_found (project_for w.db identity handle)
  ensure (opt_text_eq project.head from) (conflict project.head)
  ensure (contains project.commits to) (bad_request foreign_target)

unfoldable pub set_head : Principal → Text → Text → Db → Db
unfolding update_project
set_head identity handle to db =
    let updated_at = timestamp_or_zero (lookup to db.saved.commits) in
    update_project (project_key identity handle)
      (λ p. record p { head = some to; updated_at = updated_at }) db

unfoldable pub post_head : Io → Principal → Text → Option Text → Text → World → Response × World
unfolding check_head set_head mutate_persisted
post_head io identity handle from to w = elim (check_head identity handle from to w) [
  | err r ↦ (r, w)
  | ok _ ↦
      let (done, w') = mutate_persisted io (set_head identity handle to) w in
      (respond done advanced, w')
]
