-- ===== src/Filesystem/Repository/Done.antt =====
-- The steps of a walk in crates/auru-pm/src/filesystem.rs, and the control files it reads.
use auru_pm_core.Prelude.{
  Result, ◌≢◌, ◌≡◌, Option, err, ok, Bool, true, some, ◌>>=◌, false, none, none-some, ap,
  if◌then◌else◌, List, refl, err-ok, ok-injective, Text, some-injective,
}
use auru_pm_core.Prelude.{[], ◌∷◌, some, none, ok, err, true, false}
use auru_pm_core.Cas.{CasError}
use auru_pm_core.Commit.{Commit, CommitSummary}
use auru_pm_core.Hash.{ContentHash, from_str, ParseHashError}
use auru_pm_core.Hash.RoundTrip.{IsHash, from_str-IsHash}
use auru_pm_core.Filesystem.Control.{Control, read_control_file}
use auru_pm_core.Filesystem.Repository.{
  RepositoryError, endless, or_bad_commit, or_store_failed, read_control, head_value, floor_value,
  trimmed_head, or_invalid, trim, or_io_failed, invalid_head, invalid_floor,
}

abbrev pub IsDone {ℓ} : {A : Type ℓ} → Result RepositoryError A → Type ℓ
IsDone r = r ≢ err endless

pub err-injective :
    {A : Type 0} {e f : RepositoryError}
    → ◌≡◌ {A = Result RepositoryError A} (err e) (err f)
    → e ≡ f
err-injective h = cc

pub bind-IsDone :
    {A B : Type 0} (r : Result RepositoryError A) (f : A → Result RepositoryError B)
    → IsDone r
    → ((a : A) → r ≡ ok a → IsDone (f a))
    → IsDone (r >>= f)
bind-IsDone (err e) f h k = λ same. h (ap (λ x. err x) (err-injective same))
bind-IsDone (ok a) f h k = k a refl

pub store-IsDone : {A : Type 0} (r : Result CasError A) → IsDone (or_store_failed r)
store-IsDone (ok a) = λ e. cc
store-IsDone (err x) = λ e. let never = err-injective e in cc

pub parsed-IsDone : (o : Option Commit) → IsDone (or_bad_commit o)
parsed-IsDone none = λ e. let never = err-injective e in cc
parsed-IsDone (some commit) = λ e. cc

pub if-IsDone :
    {A : Type 0} (test : Bool) (r : Result RepositoryError (List A))
    → IsDone r
    → IsDone (if test then ok [] else r)
if-IsDone true r h = λ e. cc
if-IsDone false r h = h

-- A round of `list_history`, for any rest.
pub rows-IsDone :
    (started full at_floor : Bool) (row : CommitSummary)
    (more skipped : Result RepositoryError (List CommitSummary))
    → IsDone more
    → IsDone skipped
    → IsDone (
        if started
        then (do rest ← if full then ok [] else if at_floor then ok [] else more; ok (row ∷ rest))
        else (if at_floor then ok [] else skipped))
rows-IsDone false full at_floor row more skipped h k = if-IsDone at_floor skipped k
rows-IsDone true full at_floor row more skipped h k =
    bind-IsDone _ _ (if-IsDone full _ (if-IsDone at_floor more h)) (λ rest e same. cc)

-- The control files.
pub control-IsDone : (readable : Bool) (c : Control) → IsDone (read_control readable c)
unfolding read_control
control-IsDone false c = λ e. let never = err-injective e in cc
control-IsDone true c = go (read_control_file c)
  where
    go : (r : Result (Unit {0}) (Option Text)) → IsDone (or_io_failed r)
    go (ok value) = λ e. cc
    go (err x) = λ e. let never = err-injective e in cc

invalid-IsDone :
    (e : RepositoryError) (r : Result ParseHashError ContentHash)
    → e ≢ endless
    → IsDone (or_invalid e r)
invalid-IsDone e (ok hash) h = λ same. cc
invalid-IsDone e (err x) h = λ same. h (err-injective same)

trimmed_head-IsDone : (t : Text) → IsDone (trimmed_head t)
trimmed_head-IsDone [] = λ e. cc
trimmed_head-IsDone (c ∷ t) = invalid-IsDone invalid_head (from_str (c ∷ t)) (λ e. cc)

pub head_value-IsDone : (o : Option Text) → IsDone (head_value o)
head_value-IsDone none = λ e. cc
head_value-IsDone (some value) = trimmed_head-IsDone (trim value)

pub floor_value-IsDone : (o : Option Text) → IsDone (floor_value o)
floor_value-IsDone none = λ e. cc
floor_value-IsDone (some value) = invalid-IsDone invalid_floor (from_str (trim value)) (λ e. cc)

or_invalid-ok :
    (e : RepositoryError) (r : Result ParseHashError ContentHash) {id : ContentHash}
    → or_invalid e r ≡ ok (some id)
    → r ≡ ok id
or_invalid-ok e (ok hash) same = ap (λ h. ok h) (some-injective _ _ (ok-injective same))
or_invalid-ok e (err x) same = err-ok same

trimmed_head-IsHash : (t : Text) {id : ContentHash} → trimmed_head t ≡ ok (some id) → IsHash id
trimmed_head-IsHash [] e = absurd (none-some (ok-injective e))
trimmed_head-IsHash (c ∷ t) {id} e =
    from_str-IsHash (c ∷ t) id (or_invalid-ok invalid_head (from_str (c ∷ t)) e)

pub head_value-IsHash :
    (o : Option Text) {id : ContentHash} → head_value o ≡ ok (some id) → IsHash id
head_value-IsHash none e = absurd (none-some (ok-injective e))
head_value-IsHash (some value) e = trimmed_head-IsHash (trim value) e
