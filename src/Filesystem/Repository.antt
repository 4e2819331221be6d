-- ===== src/Filesystem/Repository.antt =====
-- The provider on a folder, crates/auru-pm/src/filesystem.rs: its head, its history floor, its
-- commits, and the operations on them. The lock on the folder makes an operation atomic. The JSON
-- reader of a commit is a parameter, which is given the id that the program puts into the object.
pub mod Head
pub mod History
pub mod Commits
pub mod Done
pub mod Ends
pub mod Prune
pub mod Graph
pub mod Retained
pub mod Planned
pub mod Pruned
use auru_pm_core.Prelude.{
  Bool, Option, ℕ, Text, Result, List, leb, ◌∷◌, err, ok, head?, suc, ◌>>=◌, ◌>>◌, some, ◌&&◌,
  if◌then◌else◌, none, [], length, ensure, true, ◌||◌, opt_text_eq, ◌+◌, is_none, text_eq, false,
  ◌==◌, zero,
}
use auru_pm_core.Cas.{Codec, Store, CasIo, CasError, get, put}
use auru_pm_core.Commit.{Commit, CommitSummary, External, SampleEntry, compute_commit_id, summary}
use auru_pm_core.Filesystem.Control.{
  Control, ReplaceIo, read_control_file, replace_control_file, last_of,
}
use auru_pm_core.Filesystem.Objects.{ObjectError, validate_commit_objects}
use auru_pm_core.Hash.{ContentHash, ParseHashError, from_str, to_string}

pub record Repository : Type 0 where
  pub head : Control
  pub floor : Control
  pub commits : Store
  pub blobs : Store

-- What the system calls of an operation answer.
pub record RepositoryIo : Type 0 where
  pub locked : Bool
  pub head_readable : Bool
  pub floor_readable : Bool
  pub commit_readable : ContentHash → Bool
  pub blobs_readable : Bool
  pub replace : ReplaceIo

pub data RepositoryError : Type 0 where
  io_failed invalid_head invalid_floor bad_commit id_differs not_encoded endless : RepositoryError
  store_failed : CasError → RepositoryError
  objects_invalid : ObjectError → RepositoryError

pub data HeadAdvance : Type 0 where
  advanced : HeadAdvance
  conflicting : Option ContentHash → HeadAdvance

-- `char::is_whitespace`: the characters with the property White_Space.
abbrev pub is_whitespace : ℕ → Bool
is_whitespace c =
    leb 9 c && leb c 13
    || (c == 32
        || (c == 0x85
            || (c == 0xA0
                || (c == 0x1680
                    || (leb 0x2000 c && leb c 0x200A
                        || (c == 0x2028
                            || (c == 0x2029 || (c == 0x202F || (c == 0x205F || c == 0x3000)))))))))

unfoldable pub trim_start : Text → Text
trim_start [] = []
trim_start (c ∷ s) = let rest = trim_start s in if is_whitespace c then rest else c ∷ s

unfoldable pub trim_end : Text → Text
trim_end [] = []
trim_end (c ∷ s) = elim (trim_end s) [
  | [] ↦ if is_whitespace c then [] else c ∷ []
  | d ∷ t ↦ c ∷ d ∷ t
]

unfoldable pub trim : Text → Text
unfolding trim_start trim_end
trim s = trim_end (trim_start s)

abbrev pub or_io_failed : Result (Unit {0}) (Option Text) → Result RepositoryError (Option Text)
or_io_failed (ok value) = ok value
or_io_failed (err e) = err io_failed

-- A control file, where its reads do not fail.
unfoldable pub read_control : Bool → Control → Result RepositoryError (Option Text)
unfolding read_control_file
read_control true s = or_io_failed (read_control_file s)
read_control false s = err io_failed

abbrev pub or_invalid :
    RepositoryError
    → Result ParseHashError ContentHash
    → Result RepositoryError (Option ContentHash)
or_invalid e (ok hash) = ok (some hash)
or_invalid e (err x) = err e

-- An empty file is no head.
abbrev pub trimmed_head : Text → Result RepositoryError (Option ContentHash)
trimmed_head [] = ok none
trimmed_head (c ∷ s) = or_invalid invalid_head (from_str (c ∷ s))

abbrev pub head_value : Option Text → Result RepositoryError (Option ContentHash)
head_value none = ok none
head_value (some value) = trimmed_head (trim value)

abbrev pub floor_value : Option Text → Result RepositoryError (Option ContentHash)
floor_value none = ok none
floor_value (some value) = or_invalid invalid_floor (from_str (trim value))

unfoldable pub read_head : RepositoryIo → Repository → Result RepositoryError (Option ContentHash)
unfolding read_control trim from_str
read_head io s = do value ← read_control io.head_readable s.head; head_value value

unfoldable pub read_history_floor :
    RepositoryIo → Repository → Result RepositoryError (Option ContentHash)
unfolding read_control trim from_str
read_history_floor io s = do value ← read_control io.floor_readable s.floor; floor_value value

abbrev pub or_store_failed {ℓ} : {A : Type ℓ} → Result CasError A → Result RepositoryError A
or_store_failed (ok a) = ok a
or_store_failed (err e) = err (store_failed e)

abbrev pub or_bad_commit : Option Commit → Result RepositoryError Commit
or_bad_commit none = err bad_commit
or_bad_commit (some commit) = ok commit

abbrev pub or_objects_invalid {ℓ} : {A : Type ℓ} → Result ObjectError A → Result RepositoryError A
or_objects_invalid (ok a) = ok a
or_objects_invalid (err e) = err (objects_invalid e)

abbrev pub default_history_limit : Option ℕ → ℕ
default_history_limit none = 100
default_history_limit (some n) = n

abbrev pub parent_of : Commit → Option ContentHash
parent_of commit = head? commit.content.parents

-- `HistoryRange`, with the default limit put in.
pub record Range : Type 0 where
  pub limit : ℕ
  pub before : Option ContentHash

module _ (codec : Codec) (parse_commit : List ℕ → ContentHash → Option Commit)
    (parse_manifest : List ℕ → Option (List SampleEntry)) (io : RepositoryIo) where
  unfoldable pub read_commit : Repository → ContentHash → Result RepositoryError Commit
  read_commit s id = do
    bytes ← or_store_failed (get codec (io.commit_readable id) id s.commits)
    or_bad_commit (parse_commit bytes id)

  -- The loop of `visible_commits`.
  unfoldable pub visible_walk :
      Repository
      → Option ContentHash
      → ℕ
      → Option ContentHash
      → Result RepositoryError (List Commit)
  unfolding read_commit
  visible_walk s floor fuel none = ok []
  visible_walk s floor zero (some id) = err endless
  visible_walk s floor (suc fuel) (some id) = do
    commit ← read_commit s id
    let more = visible_walk s floor fuel (parent_of commit)
    rest ← if opt_text_eq (some id) floor then ok [] else more
    ok (commit ∷ rest)

  -- One round for each file of the commit store, and one more.
  abbrev pub history_fuel : Repository → ℕ
  history_fuel s = suc (length s.commits)

  unfoldable pub visible_commits : Repository → Result RepositoryError (List Commit)
  unfolding visible_walk read_head read_history_floor
  visible_commits s = do
    floor ← read_history_floor io s
    head ← read_head io s
    visible_walk s floor (history_fuel s) head

  -- The loop of `list_history`, with the number of rows so far.
  unfoldable pub range_walk :
      Repository
      → Option ContentHash
      → Range
      → ℕ
      → Bool
      → ℕ
      → Option ContentHash
      → Result RepositoryError (List CommitSummary)
  unfolding read_commit summary
  range_walk s floor range fuel started count none = ok []
  range_walk s floor range zero started count (some id) = err endless
  range_walk s floor range (suc fuel) started count (some id) = do
    commit ← read_commit s id
    let more = range_walk s floor range fuel true (count + 1) (parent_of commit)
    let skipped =
        range_walk s floor range fuel (opt_text_eq (some id) range.before) count (parent_of commit)
    let at_floor = opt_text_eq (some id) floor
    if started
        then (do
          rest ← if leb range.limit (count + 1) then ok [] else if at_floor then ok [] else more
          ok (summary commit ∷ rest))
        else (if at_floor then ok [] else skipped)

  unfoldable pub list_history :
      Option ℕ → Option ContentHash → Repository → Result RepositoryError (List CommitSummary)
  unfolding range_walk read_head read_history_floor
  list_history limit before s = do
    ensure io.locked io_failed
    floor ← read_history_floor io s
    head ← read_head io s
    let range : Range = record { limit = default_history_limit limit; before = before }
    range_walk s floor range (history_fuel s) (is_none before) 0 head

  unfoldable pub get_head : Repository → Result RepositoryError (Option ContentHash)
  unfolding read_head
  get_head s = do ensure io.locked io_failed; read_head io s

  -- The check of a commit, where the repository has a history floor.
  unfoldable pub check_objects :
      Repository → ContentHash → Option ContentHash → Result RepositoryError (Unit {0})
  unfolding read_commit validate_commit_objects
  check_objects s to none = ok tt
  check_objects s to (some floor) = do
    commit ← read_commit s to
    or_objects_invalid
        (validate_commit_objects codec io.blobs_readable parse_manifest s.blobs commit.content)

  -- `advance_head` before the write.
  unfoldable pub check_advance :
      Option ContentHash → ContentHash → Repository → Result RepositoryError HeadAdvance
  unfolding read_head read_history_floor check_objects
  check_advance from to s = do
    ensure io.locked io_failed
    current ← read_head io s
    if opt_text_eq current from
        then (do floor ← read_history_floor io s; check_objects s to floor; ok advanced)
        else ok (conflicting current)

  -- `write_head`
  unfoldable pub write_head :
      Option ContentHash → Repository → Result RepositoryError HeadAdvance × Repository
  unfolding replace_control_file to_string
  write_head id s =
      let (result, states) =
        replace_control_file io.replace (elim id [ none ↦ [] | some c ↦ to_string c ]) s.head in
      (
        elim result [ ok done ↦ ok advanced | err e ↦ err io_failed ],
        record s { head = last_of s.head states },
      )

  abbrev pub write_if_advanced :
      ContentHash
      → Repository
      → Result RepositoryError HeadAdvance
      → Result RepositoryError HeadAdvance × Repository
  write_if_advanced to s (err e) = (err e, s)
  write_if_advanced to s (ok (conflicting current)) = (ok (conflicting current), s)
  write_if_advanced to s (ok advanced) = write_head (some to) s

  unfoldable pub advance_head :
      Option ContentHash
      → ContentHash
      → Repository
      → Result RepositoryError HeadAdvance × Repository
  unfolding check_advance write_head
  advance_head from to s = write_if_advanced to s (check_advance from to s)

abbrev pub stored_commit :
    ContentHash
    → Repository
    → Result CasError (Unit {0}) × Store
    → Result RepositoryError ContentHash × Repository
stored_commit id s (ok done, commits) = (ok id, record s { commits = commits })
stored_commit id s (err e, commits) = (err (store_failed e), record s { commits = commits })

-- The id is computed from the bytes that are stored.
unfoldable pub put_commit :
    External → Codec → CasIo → Commit → Repository → Result RepositoryError ContentHash × Repository
unfolding compute_commit_id put
put_commit ext codec io commit s = elim (compute_commit_id ext commit.content) [
  | none ↦ (err not_encoded, s)
  | some computed ↦
      if text_eq computed commit.id
      then (elim (ext.jcs commit.content) [
        | none ↦ (err not_encoded, s)
        | some bytes ↦ stored_commit commit.id s (put codec io commit.id bytes s.commits)
      ])
      else (err id_differs, s)
]
