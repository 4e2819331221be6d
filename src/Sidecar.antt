-- ===== src/Sidecar.antt =====
-- crates/auru-pm/src/sidecar.rs: the state of one project on one machine, and its file.
use auru_pm_core.Prelude.Int.{ℤ}
use auru_pm_core.Prelude.{
  Option, none, Bool, Map, Text, [], Result, some, List, if◌then◌else◌, ◌>>◌, err, ensure, ok, ◌≡◌,
  Bool-cases, inl, inr, refl,
}
use auru_pm_core.Hash.{ContentHash}

pub record Stash : Type 0 where
  pub snapshot : ContentHash
  pub resources : Map ContentHash
  pub created_at : ℤ
  pub base : Option ContentHash
  pub reason : Text

pub record RemoteState : Type 0 where
  pub remote_head : Option ContentHash
  pub last_pulled : Option ℤ

-- `genre` and `tags` are the fields of the metadata.
pub record Sidecar : Type 0 where
  pub location : Option Text
  pub genre : Option Text
  pub tags : List Text
  pub provider_handles : Map Text
  pub primary : Option Text
  pub local_head : Option ContentHash
  pub verified_head : Option ContentHash
  pub remotes : Map RemoteState
  pub pending_pushes : List ContentHash
  pub stash : Option Stash

abbrev pub no_remote_state : RemoteState
no_remote_state = record { remote_head = none; last_pulled = none }

abbrev pub default_sidecar : Sidecar
default_sidecar = record {
  location = none;
  genre = none;
  tags = [];
  provider_handles = [];
  primary = none;
  local_head = none;
  verified_head = none;
  remotes = [];
  pending_pushes = [];
  stash = none;
}

-- The system: whether the file can be read and parsed, and whether its replacement is renamed.
pub record SidecarIo : Type 0 where
  pub readable : Bool
  pub saved : Bool

abbrev pub or_default : Option Sidecar → Sidecar
or_default none = default_sidecar
or_default (some sidecar) = sidecar

-- A file that is not there is the default.
unfoldable pub load : SidecarIo → Option Sidecar → Result (Unit {0}) Sidecar
load io file = do ensure io.readable tt; ok (or_default file)

-- The file has the old value or the new one: it is renamed over.
abbrev pub save :
    SidecarIo → Sidecar → Option Sidecar → Result (Unit {0}) (Unit {0}) × Option Sidecar
save io sidecar file = if io.saved then (ok tt, some sidecar) else (err tt, file)

abbrev pub save_loaded :
    SidecarIo
    → (Sidecar → Sidecar)
    → Option Sidecar
    → Result (Unit {0}) Sidecar
    → Result (Unit {0}) (Unit {0}) × Option Sidecar
save_loaded io change file (err e) = (err e, file)
save_loaded io change file (ok sidecar) = save io (change sidecar) file

unfoldable pub modify :
    SidecarIo → (Sidecar → Sidecar) → Option Sidecar → Result (Unit {0}) (Unit {0}) × Option Sidecar
unfolding load
modify io change file = save_loaded io change file (load io file)

-- What a change of the file leaves: the changed value of what was loaded, or the file as it was.
abbrev pub Modified :
    SidecarIo
    → (Sidecar → Sidecar)
    → Option Sidecar
    → Result (Unit {0}) (Unit {0}) × Option Sidecar
    → Type 0
Modified io change file (err e, file') = file' ≡ file
Modified io change file (ok done, file') = file' ≡ some (change (or_default file))

pub modify-Modified :
    (io : SidecarIo) (change : Sidecar → Sidecar) (file : Option Sidecar)
    → Modified io change file (modify io change file)
unfolding modify load
modify-Modified io change file = elim (Bool-cases io.readable) [
  | inl readable ↦ elim (Bool-cases io.saved) [
    | inl saved ↦ rw (readable, saved) refl
    | inr unsaved ↦ rw (readable, unsaved) refl
  ]
  | inr unreadable ↦ rw unreadable refl
]
