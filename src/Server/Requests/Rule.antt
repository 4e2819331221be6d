-- ===== src/Server/Requests/Rule.antt =====
-- A predicate that survives the ways in which the routes of crates/auru-pm-server/src/main.rs change
-- the world survives every request, and every series of them.
use auru_pm_core.Server.History.{
  retain, retention_walk, post_retention, last_retained, walk_fuel, timestamps,
}
use auru_pm_core.Server.Commits.{post_commit, put_project_blob, check_commit, check_blob}
use auru_pm_core.Protocol.Retention.{RetentionRule, retained_prefix_len}
use auru_pm_core.Prelude.{
  List, Text, ◌∷◌, Option, ℕ, [], Result, Bool, ◌≡◌, some, ok, err, none, true, false, refl,
}
use auru_pm_core.Server.Handlers.{
  post_head, AuthenticatedIdentity, put_project_profile, Response, check_head,
}
use auru_pm_core.Server.Store.{World, Principal, Io, StoredProject, project_for, put_blob}
use auru_pm_core.Commit.{External, Commit, Content}
use auru_pm_core.Server.Requests.{
  Survives, Route, Request, serve, dispatch, advance_head, push_commit, prune, push_blob,
  put_profile, read_head, read_commit, read_history, has_blobs, read_blob, list_projects, answer,
}

module _ {ℓ} (ext : External) (P : World → Type ℓ) (who : Principal) (io : Io) where
  head-keeps :
      (handle : Text) (from : Option Text) (to : Text) (w : World)
      → Survives ext P who io (advance_head handle from to)
      → P w
      → P (post_head io who handle from to w).1
  unfolding post_head
  head-keeps handle from to w s h = go (check_head who handle from to w) refl
    where
      go :
          (r : Result Response (Unit {0}))
          → check_head who handle from to w ≡ r
          → P (post_head io who handle from to w).1
      go (err e) eq = rw (eq, post_head) h
      go (ok u) eq = rw (eq, post_head) (s.head handle to from w refl eq h)

  commit-keeps :
      (authenticated : AuthenticatedIdentity) (handle : Text) (c : Commit) (w : World)
      → Survives ext P who io (push_commit authenticated handle c)
      → P w
      → P (post_commit ext io who authenticated handle c w).1
  unfolding post_commit
  commit-keeps authenticated handle c w s h =
      go (check_commit ext io who authenticated handle c w) refl
    where
      go :
          (r : Result Response (Unit {0}))
          → check_commit ext io who authenticated handle c w ≡ r
          → P (post_commit ext io who authenticated handle c w).1
      go (err e) eq = rw (eq, post_commit) h
      go (ok u) eq = rw (eq, post_commit) (s.commit authenticated handle c w refl eq h)

  retain-keeps :
      (handle : Text) (rule : RetentionRule) (history : List (Text × Content)) (w : World)
      → Survives ext P who io (prune handle rule)
      → P w
      → P (retain io who handle rule history w).1
  unfolding retain
  retain-keeps handle rule history w s h =
      go (last_retained (retained_prefix_len rule (timestamps history)) history) refl
    where
      go :
          (o : Option (Text × Content))
          → last_retained (retained_prefix_len rule (timestamps history)) history ≡ o
          → P (retain io who handle rule history w).1
      go none eq = rw (eq, retain) h
      go (some (id, c)) eq = rw (eq, retain) (s.floor handle id rule w refl h)

  -- The walk of `post_retention`, with the project that was found.
  abbrev found_walk : World → StoredProject → Option (List (Text × Content))
  found_walk w project =
      retention_walk w.db.saved.commits project.commits project.history_floor
        (walk_fuel project.commits) project.head

  retention-keeps :
      (handle : Text) (rule : RetentionRule) (w : World)
      → Survives ext P who io (prune handle rule)
      → P w
      → P (post_retention io who handle rule w).1
  unfolding post_retention
  retention-keeps handle rule w s h = go (project_for w.db who handle) refl
    where
      go_walk :
          (project : StoredProject) (o : Option (List (Text × Content)))
          → project_for w.db who handle ≡ some project
          → found_walk w project ≡ o
          → P (post_retention io who handle rule w).1
      go_walk project none e eq = rw (e, post_retention, eq) h
      go_walk project (some history) e eq =
          rw (e, post_retention, eq) (retain-keeps handle rule history w s h)

      go :
          (o : Option StoredProject)
          → project_for w.db who handle ≡ o
          → P (post_retention io who handle rule w).1
      go none eq = rw (eq, post_retention) h
      go (some project) eq = go_walk project (found_walk w project) eq refl

  blob-keeps :
      (handle hash : Text) (body : List ℕ) (w : World)
      → Survives ext P who io (push_blob handle hash body)
      → P w
      → P (put_project_blob ext io who handle hash body w).1
  unfolding put_project_blob
  blob-keeps handle hash body w s h = go (check_blob ext who handle hash body w) refl
    where
      go_kept :
          (b : Bool)
          → check_blob ext who handle hash body w ≡ ok tt
          → (put_blob io hash body w).0 ≡ b
          → P (put_project_blob ext io who handle hash body w).1
      go_kept true e eq =
          rw (e, put_project_blob, eq)
            (s.blob handle hash body (put_blob io hash body w).1 refl
              (s.bytes handle hash body w refl e h))
      go_kept false e eq = rw (e, put_project_blob, eq) (s.bytes handle hash body w refl e h)

      go :
          (r : Result Response (Unit {0}))
          → check_blob ext who handle hash body w ≡ r
          → P (put_project_blob ext io who handle hash body w).1
      go (err e) eq = rw (eq, put_project_blob) h
      go (ok u) eq = go_kept (put_blob io hash body w).0 eq refl

  dispatch-keeps :
      (route : Route) (w : World)
      → Survives ext P who io route
      → P w
      → P (dispatch ext who io route w).1
  unfolding dispatch put_project_profile
  dispatch-keeps list_projects w s h = h
  dispatch-keeps (put_profile handle profile) w s h = s.profile handle profile w refl h
  dispatch-keeps (read_head handle) w s h = h
  dispatch-keeps (advance_head handle from to) w s h = head-keeps handle from to w s h
  dispatch-keeps (push_commit authenticated handle c) w s h =
      commit-keeps authenticated handle c w s h
  dispatch-keeps (read_commit handle id) w s h = h
  dispatch-keeps (read_history handle limit before) w s h = h
  dispatch-keeps (prune handle rule) w s h = retention-keeps handle rule w s h
  dispatch-keeps (has_blobs handle hashes) w s h = h
  dispatch-keeps (push_blob handle hash body) w s h = blob-keeps handle hash body w s h
  dispatch-keeps (read_blob handle hash) w s h = h

module _ {ℓ} (ext : External) (P : World → Type ℓ) where
  pub answer-keeps :
      (r : Request) (w : World)
      → Survives ext P r.identity r.io r.route
      → P w
      → P (answer ext r w).1
  unfolding answer
  answer-keeps r w s h = dispatch-keeps ext P r.identity r.io r.route w s h

  pub serve-keeps :
      (rs : List Request) (w : World)
      → ((r : Request) → Survives ext P r.identity r.io r.route)
      → P w
      → P (serve ext rs w)
  unfolding serve
  serve-keeps [] w s h = h
  serve-keeps (r ∷ rest) w s h = serve-keeps rest (answer ext r w).1 s (answer-keeps r w (s r) h)
