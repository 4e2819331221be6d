-- ===== src/Filesystem/Repository/Head.antt =====
-- The head of the provider in crates/auru-pm/src/filesystem.rs as a compare-and-swap.
use mathlib.Core.Path.{subst}
use auru_pm_core.Prelude.{
  Text, ℕ, List, some, All, ◌<◌, ◌∷◌, ◌≡◌, false, ◌/◌, ok, [], arith, ◌%◌, refl, ap, Result, Option,
  ◌>>=◌, err, ◌∙◌, ◌≢◌, if◌then◌else◌, ◌>>◌, opt_text_eq, Bool-cases, inl, opt_text_eq_iff, inr,
  ok-injective, sym,
}
use auru_pm_core.Cas.{Codec}
use auru_pm_core.Commit.{Commit, SampleEntry}
use auru_pm_core.Filesystem.Control.{Control, read_control_file, replace_control_file, last_of}
use auru_pm_core.Filesystem.Control.Crash.{replace_result, outcome}
use auru_pm_core.Hash.{ContentHash, to_string, to_hex, hex_char}
use auru_pm_core.Hash.RoundTrip.{IsHash, from_str-to_string}
use auru_pm_core.Filesystem.Repository.{
  Repository, RepositoryIo, RepositoryError, HeadAdvance, advanced, conflicting, is_whitespace,
  trim_start, trim_end, trim, read_control, head_value, read_head, check_advance, write_head,
  advance_head, io_failed, write_if_advanced, trimmed_head, or_io_failed, or_invalid, invalid_head,
  read_history_floor, check_objects,
}

abbrev NoSpace : Text → Type 0
NoSpace = All (λ c. is_whitespace c ≡ false)

hex_char-NoSpace : (n : ℕ) → n < 16 → is_whitespace (hex_char n) ≡ false
unfolding hex_char
hex_char-NoSpace n b = ground arith

to_hex-NoSpace : (h : List ℕ) → All (λ b. b < 256) h → NoSpace (to_hex h)
unfolding to_hex
to_hex-NoSpace [] v = tt
to_hex-NoSpace (b ∷ bs) v = (
  hex_char-NoSpace (b / 16) (omega (arith, v.0)),
  (hex_char-NoSpace (b % 16) (omega arith), to_hex-NoSpace bs v.1),
)

trim_end-NoSpace : (s : Text) → NoSpace s → trim_end s ≡ s
unfolding trim_end
trim_end-NoSpace [] h = refl
trim_end-NoSpace (c ∷ []) h = rw h.0 refl
trim_end-NoSpace (c ∷ d ∷ s) h = rw (trim_end-NoSpace (d ∷ s) h.1) refl

trim-NoSpace : (s : Text) → NoSpace s → trim s ≡ s
unfolding trim trim_start
trim-NoSpace [] h = trim_end-NoSpace [] h
trim-NoSpace (c ∷ s) h = rw h.0 (trim_end-NoSpace (c ∷ s) h)

pub trim-to_string : (h : ContentHash) → IsHash h → trim (to_string h) ≡ to_string h
unfolding to_string
trim-to_string h v =
    trim-NoSpace (to_string h)
      (refl, (refl, (refl, (refl, (refl, (refl, (refl, to_hex-NoSpace h v.bytes)))))))

-- A head that is written is read.
head_value-to_string : (h : ContentHash) → IsHash h → head_value (some (to_string h)) ≡ ok (some h)
unfolding to_string
head_value-to_string h v =
    ap trimmed_head (trim-to_string h v) ∙ ap (or_invalid invalid_head) (from_str-to_string h v)

-- The head that a read of the files gives.
unfoldable pub head_in : Repository → Result RepositoryError (Option ContentHash)
head_in s = do value ← or_io_failed (read_control_file s.head); head_value value

abbrev head_read : Result (Unit {0}) (Option Text) → Result RepositoryError (Option ContentHash)
head_read r = do value ← or_io_failed r; head_value value

-- What an advance may answer, and the head that it then leaves.
abbrev pub Swaps :
    Option ContentHash
    → ContentHash
    → Repository
    → Result RepositoryError HeadAdvance × Repository
    → Type 0
Swaps from to s (err e, t) = head_in t ≡ head_in s
Swaps from to s (ok (conflicting current), t) =
    (t ≡ s) × ((head_in s ≡ ok current) × (current ≢ from))
Swaps from to s (ok advanced, t) = (head_in s ≡ ok from) × (head_in t ≡ ok (some to))

abbrev Checks : Option ContentHash → Repository → Result RepositoryError HeadAdvance → Type 0
Checks from s (err e) = Unit
Checks from s (ok (conflicting current)) = (head_in s ≡ ok current) × (current ≢ from)
Checks from s (ok advanced) = head_in s ≡ ok from

-- Whatever the checks behind it give.
then_advanced-Checks :
    (from : Option ContentHash) (s : Repository)
    (floor : Result RepositoryError (Option ContentHash))
    (objects : Option ContentHash → Result RepositoryError (Unit {0}))
    → head_in s ≡ ok from
    → Checks from s (do found ← floor; objects found; ok advanced)
then_advanced-Checks from s (err e) objects h = tt
then_advanced-Checks from s (ok found) objects h = go (objects found)
  where
    go : (r : Result RepositoryError (Unit {0})) → Checks from s (r >> ok advanced)
    go (err e) = tt
    go (ok done) = h

module _ (codec : Codec) (parse_commit : List ℕ → ContentHash → Option Commit)
    (parse_manifest : List ℕ → Option (List SampleEntry)) where
  current-Checks :
      (io : RepositoryIo) (from : Option ContentHash) (to : ContentHash) (s : Repository)
      (read : Result RepositoryError (Option ContentHash))
      → ((current : Option ContentHash) → read ≡ ok current → head_in s ≡ ok current)
      → Checks from s (do
        current ← read
        if opt_text_eq current from
            then (do
              floor ← read_history_floor io s
              check_objects codec parse_commit parse_manifest io s to floor
              ok advanced)
            else ok (conflicting current))
  current-Checks io from to s (err e) h = tt
  current-Checks io from to s (ok current) h = elim (Bool-cases (opt_text_eq current from)) [
    | inl same ↦ rw same (
        then_advanced-Checks from s (read_history_floor io s)
          (check_objects codec parse_commit parse_manifest io s to)
          (h current refl ∙ ap (λ c. ok c) ((opt_text_eq_iff current from).0 same)))
    | inr other ↦
        rw other (h current refl, λ same. let equal = (opt_text_eq_iff current from).1 same in cc)
  ]

  read_head-head_in :
      (io : RepositoryIo) (s : Repository) (current : Option ContentHash)
      → read_head io s ≡ ok current
      → head_in s ≡ ok current
  unfolding read_head read_control head_in
  read_head-head_in io s current e = elim (Bool-cases io.head_readable) [
    | inl readable ↦ rw (read_head, read_control, readable) at e
    | inr unreadable ↦ let never = rw (read_head, read_control, unreadable) at e in cc
  ]

  check_advance-Checks :
      (io : RepositoryIo) (from : Option ContentHash) (to : ContentHash) (s : Repository)
      → Checks from s (check_advance codec parse_commit parse_manifest io from to s)
  unfolding check_advance
  check_advance-Checks io from to s = elim (Bool-cases io.locked) [
    | inl locked ↦ rw locked (current-Checks io from to s (read_head io s) (read_head-head_in io s))
    | inr unlocked ↦ rw unlocked tt
  ]

  write_head-Swaps :
      (io : RepositoryIo) (from : Option ContentHash) (to : ContentHash) (s : Repository)
      → IsHash to
      → head_in s ≡ ok from
      → Swaps from to s (write_head codec parse_commit parse_manifest io (some to) s)
  unfolding write_head head_in
  write_head-Swaps io from to s v h =
      go (replace_control_file io.replace (to_string to) s.head).0
        (replace_control_file io.replace (to_string to) s.head).1
        (replace_result io.replace (to_string to) s.head)
    where
      go :
          (result : Result (Unit {0}) (Unit {0})) (states : List Control)
          → read_control_file (last_of s.head states) ≡ outcome result (to_string to) s.head
          → Swaps from to s (
            elim result [ ok done ↦ ok advanced | err e ↦ err io_failed ],
            record s { head = last_of s.head states },
          )
      go (ok done) states e = (h, ap head_read e ∙ head_value-to_string to v)
      go (err x) states e = ap head_read e

  -- Whatever calls fail: if an advance to a 32-byte id succeeds, the head was the expected one
  -- and is the new one; if it answers a conflict, nothing is changed and the head it answers is
  -- the one there is, which is not the expected one; if it fails, the head reads as before.
  pub advance_head-Swaps :
      (io : RepositoryIo) (from : Option ContentHash) (to : ContentHash) (s : Repository)
      → IsHash to
      → Swaps from to s (advance_head codec parse_commit parse_manifest io from to s)
  unfolding advance_head
  advance_head-Swaps io from to s v =
      go (check_advance codec parse_commit parse_manifest io from to s)
        (check_advance-Checks io from to s)
    where
      go :
          (checked : Result RepositoryError HeadAdvance)
          → Checks from s checked
          → Swaps from to s (write_if_advanced codec parse_commit parse_manifest io to s checked)
      go (err e) h = refl
      go (ok (conflicting current)) h = (refl, h)
      go (ok advanced) h = write_head-Swaps io from to s v h

  -- After an advance from one head to another 32-byte id has succeeded, no advance from the same
  -- head to a 32-byte id succeeds on what it left, whatever calls fail in either.
  pub advance_head_once :
      (first second : RepositoryIo) (from : Option ContentHash) (a b : ContentHash)
      (s t u : Repository)
      → IsHash a
      → IsHash b
      → from ≢ some a
      → advance_head codec parse_commit parse_manifest first from a s ≡ (ok advanced, t)
      → advance_head codec parse_commit parse_manifest second from b t ≢ (ok advanced, u)
  advance_head_once first second from a b s t u va vb other won again =
      let one = subst (Swaps from a s) won (advance_head-Swaps first from a s va) in
      let two = subst (Swaps from b t) again (advance_head-Swaps second from b t vb) in
      other (ok-injective (sym two.0 ∙ one.1))
