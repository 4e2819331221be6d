-- ===== src/Server/Persist.antt =====
-- `mutate_persisted` of crates/auru-pm-server/src/main.rs, and the durability of what is served.
use mathlib.Core.Path.{subst}
use auru_pm_core.Hash.{to_string}
use auru_pm_core.Server.Requests.Rule.{serve-keeps}
use auru_pm_core.Server.Requests.{Request, serve, Route, Survives}
use auru_pm_core.Server.Commits.{add_blob, add_commit}
use auru_pm_core.Commit.{External}
use auru_pm_core.Server.History.{set_floor}
use auru_pm_core.Server.Handlers.{set_head, set_profile}
use auru_pm_core.Prelude.{
  ◌≡◌, refl, some, none, true, false, arith, Text, Option-cases, if◌then◌else◌, inl, inr,
  Bool-cases, none-some, List, sym, ℕ, ◌∙◌, ap, Option, Bool, [],
}
use auru_pm_core.Server.Store.{
  Db, World, Io, Saved, mutate_persisted, persist, update_project, StoredProject, open_db, put_blob,
  Principal, StateJson, OpenIo,
}

-- The three outcomes: staged and on disk, changed in memory, or nothing at all.
mutate_none :
    (io : Io) (f : Db → Db) (w : World)
    → w.db.data_dir ≡ none
    → mutate_persisted io f w ≡ (true, record w { db = f w.db })
unfolding mutate_persisted
mutate_none io f w e = ground arith

abbrev staged : Io → Db → World → Option (List ℕ) → Bool × World
staged io db w none = (false, w)
staged io db w (some bytes) =
    if io.persisted then (true, record w { db = db; state_file = some bytes }) else (false, w)

mutate_some :
    (io : Io) (f : Db → Db) (w : World) {dir dir' : Text}
    → w.db.data_dir ≡ some dir
    → (f w.db).data_dir ≡ some dir'
    → mutate_persisted io f w ≡ staged io (f w.db) w (w.json.to_vec (f w.db).saved)
unfolding mutate_persisted persist
mutate_some io f w e e' = elim (Option-cases (w.json.to_vec (f w.db).saved)) [
  | inl unencoded ↦ ground arith
  | inr (bytes, encoded) ↦ ground arith
]

module _ {ℓ} (Q : Saved → Type ℓ) (f : Db → Db) (w : World) where
  staged_saved :
      (io : Io) (o : Option (List ℕ))
      → Q w.db.saved
      → Q (f w.db).saved
      → Q (staged io (f w.db) w o).1.db.saved
  staged_saved io none old new = old
  staged_saved io (some bytes) old new = elim (Bool-cases io.persisted) [
    | inl p ↦ rw p new
    | inr p ↦ rw p old
  ]

  -- What the old and the changed state have, the new world has.
  pub mutate_saved :
      (io : Io) → Q w.db.saved → Q (f w.db).saved → Q (mutate_persisted io f w).1.db.saved
  unfolding mutate_persisted
  mutate_saved io old new = elim (Option-cases w.db.data_dir) [
    | inl e ↦ rw (e, mutate_persisted) new
    | inr (dir, e) ↦ elim (Option-cases (f w.db).data_dir) [
      | inl e' ↦ rw (e, mutate_persisted, e', persist) new
      | inr (dir', e') ↦
          rw (mutate_some io f w e e') (staged_saved io (w.json.to_vec (f w.db).saved) old new)
    ]
  ]

-- What is written is read back.
abbrev pub Reads : StateJson → Type 0
Reads json =
    (saved : Saved) (bytes : List ℕ)
    → json.to_vec saved ≡ some bytes
    → json.from_slice bytes ≡ some saved

-- The file is read as the saved state.
abbrev pub HoldsState : StateJson → Option (List ℕ) → Saved → Type 0
HoldsState json file saved =
    (bytes : List ℕ) × (file ≡ some bytes) × (json.from_slice bytes ≡ some saved)

-- The JSON library reads what it writes, and with a data directory the state file is read as the
-- live state.
pub record IsDurable (w : World) : Type 0 where
  pub reads : Reads w.json
  pub held : (dir : Text) → w.db.data_dir ≡ some dir → HoldsState w.json w.state_file w.db.saved

-- The change leaves the data directory alone.
abbrev pub KeepsDir : (Db → Db) → Type 0
KeepsDir f = (db : Db) → (f db).data_dir ≡ db.data_dir

staged-IsDurable :
    (io : Io) (db : Db) (w : World) (o : Option (List ℕ))
    → w.json.to_vec db.saved ≡ o
    → IsDurable w
    → IsDurable (staged io db w o).1
staged-IsDurable io db w none same h = h
staged-IsDurable io db w (some bytes) same h = elim (Bool-cases io.persisted) [
  | inr p ↦ rw p h
  | inl p ↦
      rw p (record { reads = h.reads; held = λ dir e. (bytes, refl, h.reads db.saved bytes same) })
]

mutate-IsDurable :
    (io : Io) (f : Db → Db) (w : World)
    → KeepsDir f
    → IsDurable w
    → IsDurable (mutate_persisted io f w).1
mutate-IsDurable io f w keeps h = elim (Option-cases w.db.data_dir) [
  | inl e ↦
      rw (mutate_none io f w e)
        (record { reads = h.reads; held = λ dir p. absurd (none-some (sym (keeps w.db ∙ e) ∙ p)) })
  | inr (dir, e) ↦
      rw (mutate_some io f w e (keeps w.db ∙ e))
        (staged-IsDurable io (f w.db) w (w.json.to_vec (f w.db).saved) refl h)
]

update_project-KeepsDir :
    (key : Text) (change : StoredProject → StoredProject) → KeepsDir (update_project key change)
unfolding update_project
update_project-KeepsDir key change db = ground arith

-- Storing bytes changes no project and no commit, in memory or on disk.
pub put_blob_keeps :
    (io : Io) (hash : Text) (bytes : List ℕ) (w : World)
    → ((put_blob io hash bytes w).1.db.saved ≡ w.db.saved)
      × ((put_blob io hash bytes w).1.state_file ≡ w.state_file)
      × ((put_blob io hash bytes w).1.db.data_dir ≡ w.db.data_dir)
      × ((put_blob io hash bytes w).1.json ≡ w.json)
unfolding put_blob
put_blob_keeps io hash bytes w = ground arith

put_blob-IsDurable :
    (io : Io) (hash : Text) (bytes : List ℕ) (w : World)
    → IsDurable w
    → IsDurable (put_blob io hash bytes w).1
put_blob-IsDurable io hash bytes w h =
    let (saved, file, dirs, json) = put_blob_keeps io hash bytes w in
    record {
      reads = subst Reads (sym json) h.reads;
      held = λ dir e.
          let (kept, there, read) = h.held dir (sym dirs ∙ e) in
          (
            kept,
            file ∙ there,
            ap (λ j. j.from_slice kept) json ∙ read ∙ ap (λ s. some s) (sym saved),
          );
    }

-- Every request keeps the state file equal to the live state.
Survives-IsDurable :
    (ext : External) (who : Principal) (io : Io) (route : Route)
    → Survives ext IsDurable who io route
unfolding set_head set_floor add_blob add_commit
Survives-IsDurable ext who io route = record {
  profile = λ handle new w e h.
      mutate-IsDurable io (set_profile who handle new) w (λ db. unfold set_profile in refl) h;
  head = λ handle to from w e c h.
      mutate-IsDurable io (set_head who handle to) w (λ db. update_project-KeepsDir _ _ db) h;
  commit = λ authenticated handle c w e ok_check h.
      mutate-IsDurable io (add_commit who handle (to_string c.id) c.content) w
        (λ db. update_project-KeepsDir _ _ _) h;
  floor = λ handle id rule w e h.
      mutate-IsDurable io (set_floor who handle id) w (λ db. update_project-KeepsDir _ _ db) h;
  bytes = λ handle hash body w e c h. put_blob-IsDurable io hash body w h;
  blob = λ handle hash body w e h.
      mutate-IsDurable io (add_blob who handle hash) w (λ db. update_project-KeepsDir _ _ db) h;
}

-- If the JSON library reads what it writes and the state file is read as the saved state at the
-- start, then after any series of requests and disk failures that leaves the server with a data
-- directory, opening that directory succeeds if it can be made and its files read, and gives the
-- saved state that the server had, with no blobs in memory.
pub open_db-serve :
    (ext : External) (rs : List Request) (w : World) (io : OpenIo) (dir : Text)
    → IsDurable w
    → (serve ext rs w).db.data_dir ≡ some dir
    → io.made ≡ true
    → io.readable ≡ true
    → open_db io dir (serve ext rs w)
      ≡ some (record (serve ext rs w) {
        db = record { blobs = []; saved = (serve ext rs w).db.saved; data_dir = some dir };
      })
unfolding open_db
open_db-serve ext rs w io dir h e made readable =
    let held =
      serve-keeps ext IsDurable rs w (λ r. Survives-IsDurable ext r.identity r.io r.route) h in
    let (bytes, there, read) = held.held dir e in rw (made, there, readable, read) refl
