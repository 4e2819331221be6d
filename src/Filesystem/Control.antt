-- ===== src/Filesystem/Control.antt =====
-- The control files (`HEAD`, the history floor) of crates/auru-pm/src/filesystem.rs: how one is
-- read, and how one is replaced, call by call.
pub mod Crash
use auru_pm_core.Server.Store.{Written, written, failed}
use auru_pm_core.Prelude.{
  Text, List, [], ◌∷◌, Option, some, none, Bool, true, false, Result, ok, err, is_some, All,
  if◌then◌else◌, ◌≡◌, refl, ◌⊎◌, inl, inr, Bool-cases, Option-cases, ◌++◌,
}

-- The file under its name, its `.old` and its `.tmp`.
pub record Control : Type 0 where
  pub primary : Option Text
  pub backup : Option Text
  pub tmp : Option Text

-- What each system call answers, in the order of the code.
pub record ReplaceIo : Type 0 where
  pub write : Written
  pub renamed : Bool
  pub backup_cleared : Bool
  pub moved : Bool
  pub replaced : Bool
  pub restored : Bool
  pub backup_dropped : Bool
  pub tmp_dropped : Bool

-- The three reads: `ok none` is `NotFound`, an `err` any other failure.
unfoldable pub read_control_file_with :
    Result (Unit {0}) (Option Text)
    → Result (Unit {0}) (Option Text)
    → Result (Unit {0}) (Option Text)
    → Result (Unit {0}) (Option Text)
read_control_file_with (err e) old again = err e
read_control_file_with (ok (some value)) old again = ok (some value)
read_control_file_with (ok none) (err e) again = err e
read_control_file_with (ok none) (ok (some value)) again = ok (some value)
read_control_file_with (ok none) (ok none) again = again

-- All three on one state of the disk.
unfoldable pub read_control_file : Control → Result (Unit {0}) (Option Text)
unfolding read_control_file_with
read_control_file s = read_control_file_with (ok s.primary) (ok s.backup) (ok s.primary)

abbrev pub partial_tmp : Option Text → Control → Control
partial_tmp none s = s
partial_tmp (some part) s = record s { tmp = some part }

abbrev pub drop_backup : Bool → Control → Control
drop_backup true s = record s { backup = none }
drop_backup false s = s

abbrev pub drop_tmp : Bool → Control → Control
drop_tmp true s = record s { tmp = none }
drop_tmp false s = s

abbrev pub install : Control → Control
install s = record s { primary = s.tmp; tmp = none }

abbrev pub move_aside : Control → Control
move_aside s = record s { primary = none; backup = s.primary }

abbrev pub restore : Bool → Control → Control
restore true s = record s { primary = s.backup; backup = none }
restore false s = s

-- The second `rename`, after the old value was moved aside in `s`.
abbrev pub second_rename : ReplaceIo → Control → Result (Unit {0}) (Unit {0}) × List Control
second_rename io s =
    if io.replaced
    then (ok tt, install s ∷ drop_backup io.backup_dropped (install s) ∷ [])
    else (err tt, restore io.restored s ∷ drop_tmp io.tmp_dropped (restore io.restored s) ∷ [])

abbrev pub and_then :
    List Control
    → Result (Unit {0}) (Unit {0}) × List Control
    → Result (Unit {0}) (Unit {0}) × List Control
and_then before (result, states) = (result, before ++ states)

-- Where the first `rename` failed, in `s`.
abbrev pub move_and_rename : ReplaceIo → Control → Result (Unit {0}) (Unit {0}) × List Control
move_and_rename io s =
    let cleared = drop_backup io.backup_cleared s in
    if io.moved
    then and_then (cleared ∷ move_aside cleared ∷ []) (second_rename io (move_aside cleared))
    else (err tt, cleared ∷ drop_tmp io.tmp_dropped cleared ∷ [])

-- The result, and the state of the disk after each call.
unfoldable pub replace_control_file :
    ReplaceIo → Text → Control → Result (Unit {0}) (Unit {0}) × List Control
replace_control_file io body s =
    let staged : Control = record s { tmp = some body } in
    elim io.write [
      | failed part ↦ (err tt, partial_tmp part s ∷ [])
      | written ↦
          if io.renamed
          then (
            ok tt,
            staged ∷ install staged ∷ drop_backup io.backup_dropped (install staged) ∷ [],
          )
          else if is_some s.primary
          then and_then (staged ∷ []) (move_and_rename io staged)
          else (err tt, staged ∷ drop_tmp io.tmp_dropped staged ∷ [])
    ]

abbrev pub last_of : Control → List Control → Control
last_of s [] = s
last_of s (t ∷ states) = last_of t states
