-- ===== src/Tests/Folder.antt =====
-- A head that is replaced on a system whose rename does not go over an existing file.
use auru_pm_core.Filesystem.Control.{
  Control, ReplaceIo, read_control_file, replace_control_file, last_of,
}
use auru_pm_core.Filesystem.Control.Crash.{replace_crash, replace_result, Finds, outcome}
use auru_pm_core.Server.Store.{written}
use auru_pm_core.Prelude.{refl, true, false, codes, some, none, ◌≡◌, All}

abbrev head_file : Control
head_file = record { primary = some (codes "one"); backup = none; tmp = none }

-- The value is moved aside, and neither the new one nor the old one comes to its place.
abbrev stuck_aside : ReplaceIo
stuck_aside = record {
  write = written;
  renamed = false;
  backup_cleared = true;
  moved = true;
  replaced = false;
  restored = false;
  backup_dropped = true;
  tmp_dropped = true;
}

left_aside :
    last_of head_file (replace_control_file stuck_aside (codes "two") head_file).1
    ≡ record { primary = none; backup = some (codes "one"); tmp = none }
unfolding replace_control_file
left_aside = refl

replace_crash_example :
    All (Finds (codes "two") head_file) (replace_control_file stuck_aside (codes "two") head_file).1
replace_crash_example = replace_crash stuck_aside (codes "two") head_file

replace_result_example :
    read_control_file
      (last_of head_file (replace_control_file stuck_aside (codes "two") head_file).1)
    ≡ outcome (replace_control_file stuck_aside (codes "two") head_file).0 (codes "two") head_file
replace_result_example = replace_result stuck_aside (codes "two") head_file
