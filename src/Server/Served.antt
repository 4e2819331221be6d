-- ===== src/Server/Served.antt =====
-- What every state that crates/auru-pm-server/src/main.rs serves has: commits are stored under
-- their own ids, and each project grew from parents to children.
use mathlib.Core.Path.{subst}
use auru_pm_core.Hash.RoundTrip.{IsHash}
use auru_pm_core.Server.Handlers.{set_profile}
use auru_pm_core.Server.Requests.{Route, push_commit}
use auru_pm_core.Prelude.{
  ◌≡◌, refl, Text, List, Option, some, none, lookup, insert, text_eq, ℕ, Bool-cases, inl,
  lookup-insert, some-injective, inr,
}
use auru_pm_core.Hash.{ContentHash, to_string}
use auru_pm_core.Commit.{Content, External, compute_commit_id}
use auru_pm_core.Server.Grown.{Grown}
use auru_pm_core.Server.Store.{
  StoredProject, Saved, update_project, Db, Principal, Profile, project_key,
}

-- The contents in play, `InPlay`: no two of them have one id, as a hash without collisions gives.
pub record IsCollisionFree (ext : External) (InPlay : Content → Type 0) : Type 0 where
  pub hashes : (bytes : List ℕ) → IsHash (ext.blake3 bytes)
  pub apart :
      (c d : Content) (h : ContentHash)
      → InPlay c
      → InPlay d
      → compute_commit_id ext c ≡ some h
      → compute_commit_id ext d ≡ some h
      → c ≡ d

-- A route pushes no content but those in play.
abbrev pub PushesOnly : (Content → Type 0) → Route → Type 0
PushesOnly InPlay (push_commit authenticated handle c) = InPlay c.content
PushesOnly InPlay route = Unit

module _ (ext : External) (InPlay : Content → Type 0) where
  pub record IsGrown (s : Saved) : Type 0 where
    pub grown :
        (key : Text) (p : StoredProject)
        → lookup key s.projects ≡ some p
        → Grown s.commits p.commits
    pub addressed :
        (id : Text) (c : Content)
        → lookup id s.commits ≡ some c
        → (h : ContentHash) × (compute_commit_id ext c ≡ some h) × (id ≡ to_string h) × InPlay c

  pub insert-IsGrown :
      (s : Saved) (key : Text) (p : StoredProject)
      → Grown s.commits p.commits
      → IsGrown s
      → IsGrown (record s { projects = insert key p s.projects })
  insert-IsGrown s key p new g = record {
    grown = λ k q found. elim (Bool-cases (text_eq key k)) [
      | inl same ↦
          let e = rw (lookup-insert key k p s.projects, same) at found in
          let pq : p ≡ q = some-injective _ _ e in subst (λ r. Grown s.commits r.commits) pq new
      | inr other ↦ g.grown k q (rw (lookup-insert key k p s.projects, other) at found)
    ];
    addressed = g.addressed;
  }

  pub update_project-IsGrown :
      (key : Text) (change : StoredProject → StoredProject) (db : Db)
      → ((p : StoredProject)
          → lookup key db.saved.projects ≡ some p
          → Grown db.saved.commits (change p).commits)
      → IsGrown db.saved
      → IsGrown (update_project key change db).saved
  unfolding update_project
  update_project-IsGrown key change db new g = go (lookup key db.saved.projects) refl
    where
      go :
          (o : Option StoredProject)
          → lookup key db.saved.projects ≡ o
          → IsGrown (update_project key change db).saved
      go none e = rw (e, update_project) g
      go (some p) e = rw (e, update_project) (insert-IsGrown db.saved key (change p) (new p e) g)

  pub set_profile-IsGrown :
      (who : Principal) (handle : Text) (new : Profile) (db : Db)
      → IsGrown db.saved
      → IsGrown (set_profile who handle new db).saved
  unfolding set_profile
  set_profile-IsGrown who handle new db g =
      go (lookup (project_key who handle) db.saved.projects) refl
    where
      go :
          (o : Option StoredProject)
          → lookup (project_key who handle) db.saved.projects ≡ o
          → IsGrown (set_profile who handle new db).saved
      go none e = rw (e, set_profile) (insert-IsGrown db.saved _ _ tt g)
      go (some p) e = rw (e, set_profile) (insert-IsGrown db.saved _ _ (g.grown _ p e) g)
