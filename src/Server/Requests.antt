-- ===== src/Server/Requests.antt =====
-- The authenticated routes of crates/auru-pm-server/src/main.rs as requests, and what a series of
-- them does. The database lock makes a request atomic, so a series is a list.
pub mod Rule
use auru_pm_core.Hash.{to_string}
use auru_pm_core.Protocol.Retention.{RetentionRule}
use auru_pm_core.Commit.{External, Commit}
use auru_pm_core.Server.Store.{Profile, Principal, Io, World, mutate_persisted, put_blob}
use auru_pm_core.Prelude.{
  ℕ, List, [], ◌∷◌, Text, Option, Bool, true, false, ◌≡◌, refl, Result, ok, err, ◌⊎◌, inl, inr,
}
use auru_pm_core.Server.Handlers.{
  Response, AuthenticatedIdentity, put_project_profile, get_projects, get_head, post_head,
  check_head, set_head, set_profile,
}
use auru_pm_core.Server.Commits.{
  post_commit, get_commit, post_blobs_has, put_project_blob, get_project_blob, check_commit,
  add_commit, check_blob, add_blob,
}
use auru_pm_core.Server.History.{get_history, post_retention, set_floor}

pub data Route : Type 0 where
  list_projects : Route
  put_profile : Text → Profile → Route
  read_head : Text → Route
  advance_head : Text → Option Text → Text → Route
  push_commit : AuthenticatedIdentity → Text → Commit → Route
  read_commit : Text → Text → Route
  read_history : Text → Option ℕ → Option Text → Route
  prune : Text → RetentionRule → Route
  has_blobs : Text → List Text → Route
  push_blob : Text → Text → List ℕ → Route
  read_blob : Text → Text → Route

-- A request: who asks, what the system calls answer, and the route.
pub record Request : Type 0 where
  pub identity : Principal
  pub io : Io
  pub route : Route

module _ (ext : External) where
  unfoldable pub dispatch : Principal → Io → Route → World → Response × World
  dispatch who io list_projects w = (get_projects who w, w)
  dispatch who io (put_profile handle profile) w = put_project_profile io who handle profile w
  dispatch who io (read_head handle) w = (get_head who handle w, w)
  dispatch who io (advance_head handle from to) w = post_head io who handle from to w
  dispatch who io (push_commit authenticated handle commit) w =
      post_commit ext io who authenticated handle commit w
  dispatch who io (read_commit handle id) w = (get_commit who handle id w, w)
  dispatch who io (read_history handle limit before) w = (get_history who handle limit before w, w)
  dispatch who io (prune handle rule) w = post_retention io who handle rule w
  dispatch who io (has_blobs handle hashes) w = (post_blobs_has who handle hashes w, w)
  dispatch who io (push_blob handle hash body) w = put_project_blob ext io who handle hash body w
  dispatch who io (read_blob handle hash) w = (get_project_blob io who handle hash w, w)

  unfoldable pub answer : Request → World → Response × World
  unfolding dispatch
  answer r w = dispatch r.identity r.io r.route w

  unfoldable pub serve : List Request → World → World
  unfolding answer
  serve [] w = w
  serve (r ∷ rest) w = serve rest (answer r w).1

-- What a predicate on worlds must survive to hold after a request of `who`: the six ways in which
-- the routes change the world, each behind its checks.
pub record Survives {ℓ} (ext : External) (P : World → Type ℓ) (who : Principal) (io : Io)
    (route : Route) : Type ℓ where
  pub profile :
      (handle : Text) (new : Profile) (w : World)
      → route ≡ put_profile handle new
      → P w
      → P (mutate_persisted io (set_profile who handle new) w).1
  pub head :
      (handle to : Text) (from : Option Text) (w : World)
      → route ≡ advance_head handle from to
      → check_head who handle from to w ≡ ok tt
      → P w
      → P (mutate_persisted io (set_head who handle to) w).1
  pub commit :
      (authenticated : AuthenticatedIdentity) (handle : Text) (c : Commit) (w : World)
      → route ≡ push_commit authenticated handle c
      → check_commit ext io who authenticated handle c w ≡ ok tt
      → P w
      → P (mutate_persisted io (add_commit who handle (to_string c.id) c.content) w).1
  pub floor :
      (handle id : Text) (rule : RetentionRule) (w : World)
      → route ≡ prune handle rule
      → P w
      → P (mutate_persisted io (set_floor who handle id) w).1
  pub bytes :
      (handle hash : Text) (body : List ℕ) (w : World)
      → route ≡ push_blob handle hash body
      → check_blob ext who handle hash body w ≡ ok tt
      → P w
      → P (put_blob io hash body w).1
  pub blob :
      (handle hash : Text) (body : List ℕ) (w : World)
      → route ≡ push_blob handle hash body
      → P w
      → P (mutate_persisted io (add_blob who handle hash) w).1
