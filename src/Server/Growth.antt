-- ===== src/Server/Growth.antt =====
-- The requests of crates/auru-pm-server/src/main.rs on a grown state.
use auru_pm_core.Server.Persist.{mutate_saved, put_blob_keeps}
use mathlib.Core.Path.{subst}
use auru_pm_core.Server.Requests.Rule.{answer-keeps}
use auru_pm_core.Server.History.{set_floor}
use auru_pm_core.Server.Handlers.{set_head, set_profile}
use auru_pm_core.Hash.RoundTrip.{IsHash, to_string-injective}
use auru_pm_core.Server.Commits.Checked.{IsAccepted, check_commit_accepts}
use auru_pm_core.Server.Grown.{Agrees, Grown-insert, Grown-insert_text, HasParents}
use auru_pm_core.Server.Commits.{add_commit, add_blob}
use auru_pm_core.Server.Store.{Saved, project_for, Io, Principal, World, StoredProject, project_key}
use auru_pm_core.Hash.{ContentHash, to_string}
use auru_pm_core.Commit.{External, Content, compute_commit_id, Commit}
use auru_pm_core.Prelude.{
  ◌≡◌, refl, ap, sym, Text, List, [], ◌∷◌, Option, some, none, insert, ◌∙◌, lookup-insert_self,
  Bool-cases, All, ℕ, text_eq, none-some, inl, some-injective, lookup-insert, text_eq_iff, inr,
  insert_text,
}
use auru_pm_core.Server.Served.{
  IsGrown, IsCollisionFree, PushesOnly, set_profile-IsGrown, update_project-IsGrown,
}
use auru_pm_core.Server.Requests.{Route, Request, Survives, serve, answer}

module _ (ext : External) (InPlay : Content → Type 0) (free : IsCollisionFree ext InPlay) where
  computed-IsHash : (c : Content) (h : ContentHash) → compute_commit_id ext c ≡ some h → IsHash h
  unfolding compute_commit_id
  computed-IsHash c h e = go (ext.jcs c) refl
    where
      go : (o : Option (List ℕ)) → ext.jcs c ≡ o → IsHash h
      go none eq = absurd (none-some (rw eq at e))
      go (some bytes) eq = subst IsHash (some-injective _ _ (rw eq at e)) (free.hashes bytes)

  Agrees-of :
      (s : Saved) (c : Content) (h : ContentHash)
      → IsGrown ext InPlay s
      → InPlay c
      → compute_commit_id ext c ≡ some h
      → Agrees s.commits (to_string h) c
  Agrees-of s c h g played e d found =
      let (h', e', text, played') = g.addressed (to_string h) d found in
      let same : h ≡ h' =
        to_string-injective h h' (computed-IsHash c h e) (computed-IsHash d h' e') text in
      free.apart d c h played' played (e' ∙ ap (λ x. some x) (sym same)) e

  add_commit-IsGrown :
      (io : Io) (who : Principal) (handle : Text) (c : Commit) (w : World) (project : StoredProject)
      → InPlay c.content
      → project_for w.db who handle ≡ some project
      → IsAccepted ext io w c project
      → IsGrown ext InPlay w.db.saved
      → IsGrown ext InPlay (add_commit who handle (to_string c.id) c.content w.db).saved
  unfolding add_commit project_for
  add_commit-IsGrown io who handle c w project played found accepted g =
      let id = to_string c.id in
      let agrees = Agrees-of w.db.saved c.content c.id g played accepted.addressed in
      let s' : Saved = record w.db.saved { commits = insert id c.content w.db.saved.commits } in
      let stored = lookup-insert_self id c.content w.db.saved.commits in
      let g' : IsGrown ext InPlay s' = record {
        grown = λ key p e.
            Grown-insert w.db.saved.commits id c.content p.commits agrees (g.grown key p e);
        addressed = λ j d e. elim (Bool-cases (text_eq id j)) [
          | inl same ↦
              let cd =
                some-injective _ _
                  (rw (lookup-insert id j c.content w.db.saved.commits, same) at e) in
              (
                c.id,
                subst (λ x. compute_commit_id ext x ≡ some c.id) cd accepted.addressed,
                sym ((text_eq_iff id j).0 same),
                subst InPlay cd played,
              )
          | inr other ↦
              g.addressed j d (rw (lookup-insert id j c.content w.db.saved.commits, other) at e)
        ];
      } in
      update_project-IsGrown ext InPlay (project_key who handle)
        (λ p. record p { commits = insert_text id p.commits }) (record w.db { saved = s' })
        (λ p e.
          let same : project ≡ p = some-injective _ _ (sym found ∙ e) in
          Grown-insert_text s'.commits id c.content p.commits stored
            (subst (λ q. HasParents q.commits c.content) same accepted.parents) (g'.grown _ p e))
        g'

  Survives-IsGrown :
      (who : Principal) (io : Io) (route : Route)
      → PushesOnly InPlay route
      → Survives ext (λ w. IsGrown ext InPlay w.db.saved) who io route
  unfolding set_head set_floor add_blob
  Survives-IsGrown who io route only = record {
    profile = λ handle new w e g.
        mutate_saved (IsGrown ext InPlay) (set_profile who handle new) w io g
          (set_profile-IsGrown ext InPlay who handle new w.db g);
    head = λ handle to from w e c g.
        mutate_saved (IsGrown ext InPlay) (set_head who handle to) w io g
          (update_project-IsGrown ext InPlay _ _ w.db (g.grown _) g);
    commit = λ authenticated handle c w e okay g.
        let (author, home) = check_commit_accepts ext io who authenticated handle c w okay in
        let (project, found, accepted) = home in
        mutate_saved (IsGrown ext InPlay) (add_commit who handle (to_string c.id) c.content) w io g
          (add_commit-IsGrown io who handle c w project (subst (PushesOnly InPlay) e only) found
            accepted g);
    floor = λ handle id rule w e g.
        mutate_saved (IsGrown ext InPlay) (set_floor who handle id) w io g
          (update_project-IsGrown ext InPlay _ _ w.db (g.grown _) g);
    bytes = λ handle hash body w e c g. rw (put_blob_keeps io hash body w).0 g;
    blob = λ handle hash body w e g.
        mutate_saved (IsGrown ext InPlay) (add_blob who handle hash) w io g
          (update_project-IsGrown ext InPlay _ _ w.db (g.grown _) g);
  }

  -- If no two contents in play have one id and only contents in play are pushed, every series of
  -- requests keeps the state grown: the commits of a project are stored under their own ids and
  -- each was added after its parents.
  pub serve-IsGrown :
      (rs : List Request) (w : World)
      → All (λ r. PushesOnly InPlay r.route) rs
      → IsGrown ext InPlay w.db.saved
      → IsGrown ext InPlay (serve ext rs w).db.saved
  unfolding serve
  serve-IsGrown [] w only g = g
  serve-IsGrown (r ∷ rest) w only g = serve-IsGrown rest (answer ext r w).1 only.1 (
      answer-keeps ext (λ v. IsGrown ext InPlay v.db.saved) r w
        (Survives-IsGrown r.identity r.io r.route only.0) g)
