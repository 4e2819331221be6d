-- ===== src/Filesystem/Objects/Kept.antt =====
-- The objects of retained commits under the collection of crates/auru-pm/src/filesystem.rs.
use mathlib.Core.Path.{subst}
use auru_pm_core.Cas.{Codec, Store, get, has}
use auru_pm_core.Cas.Collect.{GcIo, gc, gc_keeps}
use auru_pm_core.Commit.{Content, SampleEntry}
use auru_pm_core.Hash.{ContentHash}
use auru_pm_core.Hash.RoundTrip.{IsHash}
use auru_pm_core.Filesystem.Objects.{
  ObjectError, metadata_hash, entry_hashes, read_manifest, validate_commit_objects, reachable_blobs,
  or_bad_manifest, or_store_error,
}
use auru_pm_core.Prelude.{
  true, [], ◌∷◌, All, List, Bool, contains, ◌++◌, ℕ, ◌≡◌, text_eq_refl, All-map, Option, Bool-cases,
  ok, refl, text_eq, >>=-eq-ok, inl, inr, Result, ap, all, is_some, some, none,
}

-- The hashes of a commit have 32 bytes.
pub record HasHashes (commit : Content) : Type 0 where
  pub snapshot : IsHash commit.snapshot
  pub samples : IsHash commit.samples
  pub metadata : All IsHash (metadata_hash commit.metadata)

contains-append_right :
    (xs ys : List ContentHash) (h : ContentHash)
    → contains ys h ≡ true
    → contains (xs ++ ys) h ≡ true
contains-append_right [] ys h e = e
contains-append_right (x ∷ xs) ys h e =
    let later = contains-append_right xs ys h e in
    elim (Bool-cases (text_eq x h)) [ inl same ↦ rw same refl | inr other ↦ rw other later ]

abbrev Covered : List ContentHash → List ContentHash → Type 0
Covered reach = All (λ h. contains reach h ≡ true)

Covered-append_left : (xs ys : List ContentHash) → Covered (xs ++ ys) xs
Covered-append_left [] ys = tt
Covered-append_left (x ∷ xs) ys = (
  rw (text_eq_refl x) refl,
  All-map xs (λ h e. contains-append_right (x ∷ []) (xs ++ ys) h e) (Covered-append_left xs ys),
)

Covered-append_right : (xs ys hs : List ContentHash) → Covered ys hs → Covered (xs ++ ys) hs
Covered-append_right xs ys hs c = All-map hs (λ h e. contains-append_right xs ys h e) c

Covered-append :
    (reach xs ys : List ContentHash)
    → Covered reach xs
    → Covered reach ys
    → Covered reach (xs ++ ys)
Covered-append reach [] ys c d = d
Covered-append reach (x ∷ xs) ys c d = (c.0, Covered-append reach xs ys c.1 d)

-- The objects of one commit, in front of the others.
own-Covered :
    (a b : ContentHash) (ms es rest : List ContentHash)
    → Covered (a ∷ b ∷ (ms ++ (es ++ rest))) (a ∷ b ∷ (ms ++ es))
own-Covered a b ms es rest = (
  rw (text_eq_refl a) refl,
  (
    contains-append_right (a ∷ []) (b ∷ (ms ++ (es ++ rest))) b (rw (text_eq_refl b) refl),
    Covered-append_right (a ∷ b ∷ []) (ms ++ (es ++ rest)) (ms ++ es) (
        Covered-append _ ms es (Covered-append_left ms (es ++ rest))
          (Covered-append_right ms (es ++ rest) es (Covered-append_left es rest))),
  ),
)

other-Covered :
    (a b : ContentHash) (ms es rest hs : List ContentHash)
    → Covered rest hs
    → Covered (a ∷ b ∷ (ms ++ (es ++ rest))) hs
other-Covered a b ms es rest hs c =
    Covered-append_right (a ∷ b ∷ []) (ms ++ (es ++ rest)) hs
      (Covered-append_right ms (es ++ rest) hs (Covered-append_right es rest hs c))

ok_hashes :
    (xs ys : List ContentHash)
    → ◌≡◌ {A = Result ObjectError (List ContentHash)} (ok xs) (ok ys)
    → xs ≡ ys
ok_hashes xs ys e = cc

abbrev objects : Content → List SampleEntry → List ContentHash
objects commit entries =
    commit.snapshot ∷ commit.samples ∷ (metadata_hash commit.metadata ++ entry_hashes entries)

module _ (codec : Codec) (readable : Bool) (parse_manifest : List ℕ → Option (List SampleEntry))
    (blobs : Store) (protected : List ContentHash) where
  reachable-Covered :
      (before : List Content) (commit : Content) (after : List Content) (reach : List ContentHash)
      → reachable_blobs codec readable parse_manifest blobs (before ++ commit ∷ after) protected
        ≡ ok reach
      → (entries : List SampleEntry) × (read_manifest codec readable parse_manifest blobs commit
          ≡ ok entries)
        × Covered reach (objects commit entries)
  unfolding reachable_blobs
  reachable-Covered [] commit after reach e =
      let (entries, read, e1) =
        >>=-eq-ok (read_manifest codec readable parse_manifest blobs commit) _ e in
      let (rest, walked, e2) =
        >>=-eq-ok (reachable_blobs codec readable parse_manifest blobs after protected) _ e1 in
      (
        entries,
        read,
        subst (λ r. Covered r (objects commit entries)) (ok_hashes _ _ e2)
            (own-Covered commit.snapshot commit.samples (metadata_hash commit.metadata)
              (entry_hashes entries) rest),
      )
  reachable-Covered (first ∷ before) commit after reach e =
      let (entries, read, e1) =
        >>=-eq-ok (read_manifest codec readable parse_manifest blobs first) _ e in
      let (rest, walked, e2) =
        >>=-eq-ok
          (reachable_blobs codec readable parse_manifest blobs (before ++ commit ∷ after) protected)
          _ e1 in
      let (found, there, covered) = reachable-Covered before commit after rest walked in
      (
        found,
        there,
        subst (λ r. Covered r (objects commit found)) (ok_hashes _ _ e2)
            (other-Covered first.snapshot first.samples (metadata_hash first.metadata)
              (entry_hashes entries) rest (objects commit found) covered),
      )

  module _ (reach : List ContentHash) (grace_secs now : ℕ) (io : GcIo) where
    abbrev left : Store
    left = (gc reach grace_secs now io blobs).1

    has_left : (h : ContentHash) → IsHash h → contains reach h ≡ true → has h left ≡ has h blobs
    has_left h v c = ap is_some (gc_keeps reach grace_secs now io h blobs v c)

    all_left :
        (hs : List ContentHash)
        → All IsHash hs
        → Covered reach hs
        → all (λ h. has h left) hs ≡ all (λ h. has h blobs) hs
    all_left [] v c = refl
    all_left (h ∷ hs) v c = rw (has_left h v.0 c.0, all_left hs v.1 c.1) refl

    manifest_left :
        (commit : Content)
        → IsHash commit.samples
        → contains reach commit.samples ≡ true
        → read_manifest codec readable parse_manifest left commit
          ≡ read_manifest codec readable parse_manifest blobs commit
    unfolding read_manifest get
    manifest_left commit v c = rw (gc_keeps reach grace_secs now io commit.samples blobs v c) refl

Covered-split :
    (reach xs ys : List ContentHash)
    → Covered reach (xs ++ ys)
    → Covered reach xs × Covered reach ys
Covered-split reach [] ys h = (tt, h)
Covered-split reach (x ∷ xs) ys h = let (l, r) = Covered-split reach xs ys h.1 in ((h.0, l), r)

or_bad_manifest-ok :
    (o : Option (List SampleEntry)) (entries : List SampleEntry)
    → or_bad_manifest o ≡ ok entries
    → o ≡ some entries
or_bad_manifest-ok none entries e = cc
or_bad_manifest-ok (some a) entries e = cc

read_manifest-ok :
    (codec : Codec) (readable : Bool) (parse_manifest : List ℕ → Option (List SampleEntry))
    (blobs : Store) (commit : Content) (entries : List SampleEntry)
    → read_manifest codec readable parse_manifest blobs commit ≡ ok entries
    → (bytes : List ℕ) × (parse_manifest bytes ≡ some entries)
unfolding read_manifest
read_manifest-ok codec readable parse_manifest blobs commit entries e =
    let (bytes, got, parsed_ok) =
      >>=-eq-ok (or_store_error (get codec readable commit.samples blobs)) _ e in
    (bytes, or_bad_manifest-ok (parse_manifest bytes) entries parsed_ok)

-- If every hash of a commit and of a parsed manifest has 32 bytes, and the walk over the retained
-- commits gives its set, then a collection that spares the set leaves the check of the objects of
-- each retained commit with the outcome it had.
pub gc-reachable :
    (codec : Codec) (readable : Bool) (parse_manifest : List ℕ → Option (List SampleEntry))
    (blobs : Store) (protected reach : List ContentHash) (before : List Content) (commit : Content)
    (after : List Content) (grace_secs now : ℕ) (io : GcIo)
    → ((bytes : List ℕ) (entries : List SampleEntry)
        → parse_manifest bytes ≡ some entries
        → All IsHash (entry_hashes entries))
    → HasHashes commit
    → reachable_blobs codec readable parse_manifest blobs (before ++ commit ∷ after) protected
      ≡ ok reach
    → validate_commit_objects codec readable parse_manifest
        (gc reach grace_secs now io blobs).1
        commit
      ≡ validate_commit_objects codec readable parse_manifest blobs commit
unfolding validate_commit_objects
gc-reachable codec readable parse_manifest blobs protected reach before commit after grace_secs now
      io typed hashes walked =
    let (entries, read, (snapshot, (samples, covered))) =
      reachable-Covered codec readable parse_manifest blobs protected before commit after reach
        walked in
    let (metadata, sampled) =
      Covered-split reach (metadata_hash commit.metadata) (entry_hashes entries) covered in
    let (bytes, parses) =
      read_manifest-ok codec readable parse_manifest blobs commit entries read in
    rw
      (
        has_left codec readable parse_manifest blobs protected reach grace_secs now io
            commit.snapshot hashes.snapshot snapshot,
        all_left codec readable parse_manifest blobs protected reach grace_secs now io
            (metadata_hash commit.metadata) hashes.metadata metadata,
        manifest_left codec readable parse_manifest blobs protected reach grace_secs now io commit
            hashes.samples samples,
        read,
        all_left codec readable parse_manifest blobs protected reach grace_secs now io
            (entry_hashes entries) (typed bytes entries parses) sampled,
      )
      refl
