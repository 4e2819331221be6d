-- ===== src/Filesystem/Control/Crash.antt =====
-- What a reader of a control file of crates/auru-pm/src/filesystem.rs finds when a replacement
-- fails or stops.
use auru_pm_core.Filesystem.Control.{
  Control, ReplaceIo, read_control_file, replace_control_file, drop_tmp, drop_backup, restore,
  last_of,
}
use auru_pm_core.Server.Store.{Written, written, failed}
use auru_pm_core.Prelude.{
  true, false, Text, Result, Bool, ◌≡◌, Option, All, ◌⊎◌, some, none, inl, refl, ok, inr, ◌∙◌, err,
}

-- A reader finds the value from before, or the new one.
abbrev pub Finds : Text → Control → Control → Type 0
Finds body s t =
    (read_control_file t ≡ read_control_file s) ⊎ (read_control_file t ≡ ok (some body))

abbrev pub outcome : Result (Unit {0}) (Unit {0}) → Text → Control → Result (Unit {0}) (Option Text)
outcome (ok done) body s = ok (some body)
outcome (err e) body s = read_control_file s

drop_tmp_reads : (b : Bool) (t : Control) → read_control_file (drop_tmp b t) ≡ read_control_file t
unfolding read_control_file
drop_tmp_reads true t = refl
drop_tmp_reads false t = refl

drop_backup_reads :
    (b : Bool) (value : Text) (backup tmp : Option Text)
    → read_control_file
        (drop_backup b (record { primary = some value; backup = backup; tmp = tmp }))
      ≡ ok (some value)
unfolding read_control_file
drop_backup_reads true value backup tmp = refl
drop_backup_reads false value backup tmp = refl

restore_reads :
    (b : Bool) (value : Text) (tmp : Option Text)
    → read_control_file (restore b (record { primary = none; backup = some value; tmp = tmp }))
      ≡ ok (some value)
unfolding read_control_file
restore_reads true value tmp = refl
restore_reads false value tmp = refl

module _ (io : ReplaceIo) (body : Text) (tmp : Option Text) where
  abbrev answers : Written → Bool → Bool → Bool → Bool → ReplaceIo
  answers write renamed cleared moved replaced = record io {
    write = write;
    renamed = renamed;
    backup_cleared = cleared;
    moved = moved;
    replaced = replaced;
  }

  abbrev state : Option Text → Option Text → Control
  state primary backup = record { primary = primary; backup = backup; tmp = tmp }

  crash_cases :
      (write : Written) (renamed cleared moved replaced : Bool) (p b : Option Text)
      → All
          (Finds body (state p b))
          (replace_control_file (answers write renamed cleared moved replaced) body (state p b)).1
  unfolding replace_control_file read_control_file
  crash_cases (failed none) renamed cleared moved replaced p b = (inl refl, tt)
  crash_cases (failed (some part)) renamed cleared moved replaced p b = (inl refl, tt)
  crash_cases written true cleared moved replaced p b =
      (inl refl, (inr refl, (inr (drop_backup_reads io.backup_dropped body b none), tt)))
  crash_cases written false cleared moved replaced none b =
      (inl refl, (inl (drop_tmp_reads io.tmp_dropped _), tt))
  crash_cases written false true false replaced (some v) b =
      (inl refl, (inl refl, (inl (drop_tmp_reads io.tmp_dropped _), tt)))
  crash_cases written false false false replaced (some v) b =
      (inl refl, (inl refl, (inl (drop_tmp_reads io.tmp_dropped _), tt)))
  crash_cases written false true true true (some v) b = (
    inl refl,
    (
      inl refl,
      (inl refl, (inr refl, (inr (drop_backup_reads io.backup_dropped body (some v) none), tt))),
    ),
  )
  crash_cases written false false true true (some v) b = (
    inl refl,
    (
      inl refl,
      (inl refl, (inr refl, (inr (drop_backup_reads io.backup_dropped body (some v) none), tt))),
    ),
  )
  crash_cases written false true true false (some v) b =
      let back = restore_reads io.restored v (some body) in
      (
        inl refl,
        (inl refl, (inl refl, (inl back, (inl (drop_tmp_reads io.tmp_dropped _ ∙ back), tt)))),
      )
  crash_cases written false false true false (some v) b =
      let back = restore_reads io.restored v (some body) in
      (
        inl refl,
        (inl refl, (inl refl, (inl back, (inl (drop_tmp_reads io.tmp_dropped _ ∙ back), tt)))),
      )

  result_cases :
      (write : Written) (renamed cleared moved replaced : Bool) (p b : Option Text)
      → read_control_file (
          last_of
            (state p b)
            (replace_control_file
              (answers write renamed cleared moved replaced)
              body
              (state p b)).1)
        ≡ outcome
            (replace_control_file (answers write renamed cleared moved replaced) body (state p b)).0
            body
            (state p b)
  unfolding replace_control_file read_control_file
  result_cases (failed none) renamed cleared moved replaced p b = refl
  result_cases (failed (some part)) renamed cleared moved replaced p b = refl
  result_cases written true cleared moved replaced p b =
      drop_backup_reads io.backup_dropped body b none
  result_cases written false cleared moved replaced none b = drop_tmp_reads io.tmp_dropped _
  result_cases written false true false replaced (some v) b = drop_tmp_reads io.tmp_dropped _
  result_cases written false false false replaced (some v) b = drop_tmp_reads io.tmp_dropped _
  result_cases written false true true true (some v) b =
      drop_backup_reads io.backup_dropped body (some v) none
  result_cases written false false true true (some v) b =
      drop_backup_reads io.backup_dropped body (some v) none
  result_cases written false true true false (some v) b =
      drop_tmp_reads io.tmp_dropped _ ∙ restore_reads io.restored v (some body)
  result_cases written false false true false (some v) b =
      drop_tmp_reads io.tmp_dropped _ ∙ restore_reads io.restored v (some body)

-- After every call of a replacement of a control file, whichever calls fail, a reader finds what
-- it found before the replacement or the new value.
pub replace_crash :
    (io : ReplaceIo) (body : Text) (s : Control)
    → All (Finds body s) (replace_control_file io body s).1
replace_crash io body s =
    crash_cases io body s.tmp io.write io.renamed io.backup_cleared io.moved io.replaced s.primary
      s.backup

-- After a replacement of a control file, whichever calls fail, a reader finds the new value if
-- the replacement succeeded and what it found before if it failed.
pub replace_result :
    (io : ReplaceIo) (body : Text) (s : Control)
    → read_control_file (last_of s (replace_control_file io body s).1)
      ≡ outcome (replace_control_file io body s).0 body s
replace_result io body s =
    result_cases io body s.tmp io.write io.renamed io.backup_cleared io.moved io.replaced s.primary
      s.backup
