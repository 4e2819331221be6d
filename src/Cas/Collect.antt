-- ===== src/Cas/Collect.antt =====
-- `gc` of crates/auru-pm/src/cas.rs: what it deletes, what it keeps, and what it reports.
use auru_pm_core.Cas.{Store, File, path_for, hash_of, all_hashes}
use auru_pm_core.Cas.Names.{hash_of-path_for}
use auru_pm_core.Hash.{ContentHash}
use auru_pm_core.Hash.RoundTrip.{IsHash}
use auru_pm_core.Prelude.{
  true, false, ℕ, Text, Option, List, lookup, Bool, ◌∷◌, contains, text_eq, ◌+◌, ◌≡◌, some,
  if◌then◌else◌, length, Bool-cases, none-some, none, [], ltb, ◌≤◌, arith, inl, ◌-◌, text_eq_iff,
  suc, refl, inr, ◌∙◌, text_eq_refl, Option-cases,
}

pub record GcReport : Type 0 where
  pub freed_bytes : ℕ
  pub freed_count : ℕ
  pub kept_count : ℕ

-- Whether the size of a file can be read, and whether the file can be removed.
pub record GcIo : Type 0 where
  pub sized : Text → Bool
  pub removable : Text → Bool

abbrev pub seconds_or_zero : Option ℕ → ℕ
seconds_or_zero none = 0
seconds_or_zero (some t) = t

-- A file that is no blob, a blob that is kept, and one that is to go.
pub data Verdict : Type 0 where
  skipped held doomed : Verdict

-- The saturating subtraction gives 0 for a file from the future.
unfoldable pub judge : List ContentHash → ℕ → ℕ → Text → File → Verdict
judge reachable grace_secs now path file = elim (hash_of path) [
  | none ↦ skipped
  | some hash ↦
      if contains reachable hash
      then held
      else if ltb (now - seconds_or_zero file.mtime) grace_secs
      then held
      else doomed
]

-- One file, in front of what the others give.
abbrev pub collect : GcIo → Text → File → Verdict → GcReport × Store → GcReport × Store
collect io path file skipped (report, s) = (report, (path, file) ∷ s)
collect io path file held (report, s) =
    (record report { kept_count = report.kept_count + 1 }, (path, file) ∷ s)
collect io path file doomed (report, s) =
    if io.removable path
    then (
      record report {
        freed_bytes = report.freed_bytes + (if io.sized path then length file.bytes else 0);
        freed_count = report.freed_count + 1;
      },
      s,
    )
    else (report, (path, file) ∷ s)

-- Sums do not depend on the order of the directory.
unfoldable pub gc : List ContentHash → ℕ → ℕ → GcIo → Store → GcReport × Store
unfolding judge
gc reachable grace_secs now io [] =
    (record { freed_bytes = 0; freed_count = 0; kept_count = 0 }, [])
gc reachable grace_secs now io ((path, file) ∷ s) =
    collect io path file (judge reachable grace_secs now path file)
      (gc reachable grace_secs now io s)

-- `disk_usage`, of the blobs.
unfoldable pub disk_usage : Store → ℕ
disk_usage [] = 0
disk_usage ((path, file) ∷ s) = length file.bytes + disk_usage s

module _ (reachable : List ContentHash) (grace_secs now : ℕ) (io : GcIo) where
  judge-reachable :
      (h : ContentHash) (file : File)
      → IsHash h
      → contains reachable h ≡ true
      → judge reachable grace_secs now (path_for h) file ≡ held
  unfolding judge
  judge-reachable h file v r = rw (hash_of-path_for h v, judge, r) refl

  collect_other :
      (path key : Text) (file : File) (verdict : Verdict) (found : GcReport × Store)
      → text_eq path key ≡ false
      → lookup key (collect io path file verdict found).1 ≡ lookup key found.1
  unfolding lookup
  collect_other path key file skipped found other = rw other refl
  collect_other path key file held found other = rw other refl
  collect_other path key file doomed found other = elim (Bool-cases (io.removable path)) [
    | inl gone ↦ rw gone refl
    | inr stuck ↦ rw (stuck, other) refl
  ]

  -- A blob whose 32-byte hash is reachable is after a collection what it was before, however old
  -- it is.
  pub gc_keeps :
      (h : ContentHash) (s : Store)
      → IsHash h
      → contains reachable h ≡ true
      → lookup (path_for h) (gc reachable grace_secs now io s).1 ≡ lookup (path_for h) s
  unfolding gc lookup
  gc_keeps h [] v r = refl
  gc_keeps h ((path, file) ∷ s) v r = elim (Bool-cases (text_eq path (path_for h))) [
    | inl same ↦
        let it : path ≡ path_for h = (text_eq_iff path (path_for h)).0 same in
        let stays : judge reachable grace_secs now path file ≡ held =
          rw it (judge-reachable h file v r) in
        rw (stays, same) refl
    | inr other ↦ rw other (
        collect_other path (path_for h) file (judge reachable grace_secs now path file) _ other
        ∙ gc_keeps h s v r)
  ]

  collect_accounts :
      (path : Text) (file : File) (verdict : Verdict) (found : GcReport × Store) (s : Store)
      → (found.0.freed_count + length found.1 ≡ length s)
        × (found.0.freed_bytes + disk_usage found.1 ≤ disk_usage s)
      → ((collect io path file verdict found).0.freed_count
            + length (collect io path file verdict found).1
          ≡ suc (length s))
        × ((collect io path file verdict found).0.freed_bytes
              + disk_usage (collect io path file verdict found).1
            ≤ length file.bytes + disk_usage s)
  unfolding disk_usage
  collect_accounts path file skipped found s h = (omega (arith, h.0), omega (arith, h.1))
  collect_accounts path file held found s h = (omega (arith, h.0), omega (arith, h.1))
  collect_accounts path file doomed found s h = elim (Bool-cases (io.removable path)) [
    | inr stuck ↦ rw stuck (omega (arith, h.0), omega (arith, h.1))
    | inl gone ↦ elim (Bool-cases (io.sized path)) [
      | inl sized ↦ rw (gone, sized) (omega (arith, h.0), omega (arith, h.1))
      | inr unsized ↦ rw (gone, unsized) (omega (arith, h.0), omega (arith, h.1))
    ]
  ]

  -- A collection counts each file that is gone, and claims no more bytes than the disk got back.
  pub gc_accounts :
      (s : Store)
      → ((gc reachable grace_secs now io s).0.freed_count
            + length (gc reachable grace_secs now io s).1
          ≡ length s)
        × ((gc reachable grace_secs now io s).0.freed_bytes
              + disk_usage (gc reachable grace_secs now io s).1
            ≤ disk_usage s)
  unfolding gc disk_usage
  gc_accounts [] = (refl, omega arith)
  gc_accounts ((path, file) ∷ s) =
      collect_accounts path file (judge reachable grace_secs now path file) _ s (gc_accounts s)

-- Every 32-byte hash with a blob file is among the hashes that are listed.
pub all_hashes_complete :
    (h : ContentHash) (file : File) (s : Store)
    → IsHash h
    → lookup (path_for h) s ≡ some file
    → contains (all_hashes s) h ≡ true
unfolding all_hashes lookup
all_hashes_complete h file [] v e = absurd (none-some e)
all_hashes_complete h file ((path, f) ∷ s) v e = elim (Bool-cases (text_eq path (path_for h))) [
  | inl same ↦
      let it : path ≡ path_for h = (text_eq_iff path (path_for h)).0 same in
      let names : hash_of path ≡ some h = rw it (hash_of-path_for h v) in
      rw (names, all_hashes, text_eq_refl h) refl
  | inr other ↦
      let rest = all_hashes_complete h file s v (rw other at e) in
      elim (Option-cases (hash_of path)) [
        | inl none_there ↦ rw (none_there, all_hashes) rest
        | inr (g, named) ↦ rw (named, all_hashes) (contains_later h g (all_hashes s) rest)
      ]
]
  where
    contains_later :
        (h g : ContentHash) (rest : List ContentHash)
        → contains rest h ≡ true
        → contains (g ∷ rest) h ≡ true
    contains_later h g rest r = rw r (ground arith)
