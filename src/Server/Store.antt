-- ===== src/Server/Store.antt =====
-- The state of crates/auru-pm-server/src/main.rs and its persistence. A `World` is the live
-- database, what `state.json` holds (`AtomicWriteFile` replaces it whole or not at all), and the
-- files below `blobs`, with the JSON library. What the system calls answer is an `Io`.
use auru_pm_core.Prelude.{
  ℕ, List, [], ◌∷◌, ◌++◌, Text, codes, Option, some, none, Bool, true, false, Map, lookup, insert,
  remove, if◌then◌else◌, length, is_some,
}
use auru_pm_core.Prelude.Int.{ℤ, pos}
use auru_pm_core.Prelude.Decimal.{decimal}
use auru_pm_core.Hash.{to_hex}
use auru_pm_core.Commit.{Content}

pub record Principal : Type 0 where
  pub issuer : Text
  pub subject : Text

pub record Profile : Type 0 where
  pub display_name : Text
  pub format : Text
  pub genre : Option Text
  pub tags : List Text
  pub location : Option Text

pub record StoredProject : Type 0 where
  pub owner : Option Principal
  pub handle : Option Text
  pub head : Option Text
  pub history_floor : Option Text
  pub profile : Option Profile
  pub updated_at : ℤ
  pub commits : List Text
  pub blobs : List Text

-- The part of `Db` that is serialised.
pub record Saved : Type 0 where
  pub commits : Map Content
  pub projects : Map StoredProject

pub record Db : Type 0 where
  pub blobs : Map (List ℕ)
  pub saved : Saved
  pub data_dir : Option Text

-- `serde_json` on the serialised part: `to_vec` and `from_slice`.
pub record StateJson : Type 0 where
  pub to_vec : Saved → Option (List ℕ)
  pub from_slice : List ℕ → Option Saved

-- `HashMap<String, Value>`: the JSON of a commit without its id is its content.
pub record World : Type 0 where
  pub db : Db
  pub state_file : Option (List ℕ)
  pub blob_files : Map (List ℕ)
  pub json : StateJson

-- The answers of the system calls of one request. A write that fails may leave a part behind.
pub data Written : Type 0 where
  written : Written
  failed : Option (List ℕ) → Written

pub record Io : Type 0 where
  pub persisted : Bool
  pub write : Written
  pub renamed : Bool
  pub readable : Bool

-- `StoredProject::default()`
abbrev pub default_project : StoredProject
default_project = record {
  owner = none;
  handle = none;
  head = none;
  history_floor = none;
  profile = none;
  updated_at = pos 0;
  commits = [];
  blobs = [];
}

-- What the system calls of the start-up answer.
pub record OpenIo : Type 0 where
  pub made : Bool
  pub readable : Bool

-- `Self::default()`, as far as it is serialised.
abbrev pub empty_saved : Saved
empty_saved = record { commits = []; projects = [] }

-- What is read of the state file; `none` is an error of the read or of the JSON.
abbrev pub read_state : OpenIo → StateJson → Option (List ℕ) → Option Saved
read_state io json none = some empty_saved
read_state io json (some bytes) = if io.readable then json.from_slice bytes else none

abbrev pub opened : Text → World → Option Saved → Option World
opened dir w none = none
opened dir w (some saved) =
    some (record w { db = record { blobs = []; saved = saved; data_dir = some dir } })

-- `Db::open`, with no blobs in memory; `none` is an error.
unfoldable pub open_db : OpenIo → Text → World → Option World
open_db io dir w = if io.made then opened dir w (read_state io w.json w.state_file) else none

abbrev pub with_state : Io → World → Option (List ℕ) → Option World
with_state io w none = none
with_state io w (some bytes) =
    if io.persisted then some (record w { state_file = some bytes }) else none

-- `Db::persist`, for the state that is given: `none` where it has no JSON or the file is not
-- replaced.
unfoldable pub persist : Io → Db → World → Option World
persist io db w = elim db.data_dir [
  | none ↦ some w
  | some dir ↦ with_state io w (w.json.to_vec db.saved)
]

-- `mutate_persisted`: the change is staged in a copy, which replaces the live state only once it is
-- on disk. The flag says `Ok`.
unfoldable pub mutate_persisted : Io → (Db → Db) → World → Bool × World
unfolding persist
mutate_persisted io mutation w = elim w.db.data_dir [
  | none ↦ (true, record w { db = mutation w.db })
  | some dir ↦
      let staged = mutation w.db in
      elim (persist io staged w) [ none ↦ (false, w) | some w' ↦ (true, record w' { db = staged }) ]
]

-- `blob_path` below `data_dir/blobs`: every byte of the hash text in hexadecimal.
unfoldable pub blob_name : Text → Text
unfolding to_hex
blob_name hash = to_hex hash

-- `with_extension("new")`: the name has no dot.
abbrev pub temporary_name : Text → Text
temporary_name name = name ++ codes ".new"

abbrev pub leave_partial : Text → Option (List ℕ) → Map (List ℕ) → Map (List ℕ)
leave_partial name none files = files
leave_partial name (some bytes) files = insert name bytes files

-- `fs::write` to the temporary file, then `fs::rename` over the destination.
unfoldable pub write_blob : Io → Text → List ℕ → World → Bool × World
write_blob io name bytes w =
    let tmp = temporary_name name in
    elim io.write [
      | failed part ↦ (false, record w { blob_files = leave_partial tmp part w.blob_files })
      | written ↦
          let files = insert tmp bytes w.blob_files in
          if io.renamed
          then (true, record w { blob_files = insert name bytes (remove tmp files) })
          else (false, record w { blob_files = files })
    ]

-- `Db::put_blob`
unfoldable pub put_blob : Io → Text → List ℕ → World → Bool × World
unfolding write_blob
put_blob io hash bytes w = elim w.db.data_dir [
  | none ↦ (true, record w { db = record w.db { blobs = insert hash bytes w.db.blobs } })
  | some dir ↦
      if is_some (lookup (blob_name hash) w.blob_files)
      then (true, w)
      else write_blob io (blob_name hash) bytes w
]

-- `Db::get_blob`: the outer `none` is an error of the read, the inner one a missing blob.
unfoldable pub get_blob : Io → Text → World → Option (Option (List ℕ))
get_blob io hash w = elim w.db.data_dir [
  | none ↦ some (lookup hash w.db.blobs)
  | some dir ↦ if io.readable then some (lookup (blob_name hash) w.blob_files) else none
]

-- `Db::has_blob`
unfoldable pub has_blob : Text → World → Bool
has_blob hash w = elim w.db.data_dir [
  | none ↦ is_some (lookup hash w.db.blobs)
  | some dir ↦ is_some (lookup (blob_name hash) w.blob_files)
]

-- `project_key`: the lengths in front keep the parts apart.
unfoldable pub project_key : Principal → Text → Text
unfolding decimal
project_key owner handle =
    decimal (length owner.issuer)
    ++ (b':'
        ∷ (owner.issuer
            ++ (b':'
                ∷ (decimal (length owner.subject) ++ (b':' ∷ (owner.subject ++ (b':' ∷ handle)))))))

-- `project_for`
unfoldable pub project_for : Db → Principal → Text → Option StoredProject
project_for db owner handle = lookup (project_key owner handle) db.saved.projects

-- A change of the project that is there, as through `project_for_mut`; without one nothing happens.
unfoldable pub update_project : Text → (StoredProject → StoredProject) → Db → Db
update_project key change db = elim (lookup key db.saved.projects) [
  | none ↦ db
  | some p ↦ record db {
    saved = record db.saved { projects = insert key (change p) db.saved.projects };
  }
]
