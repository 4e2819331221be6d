-- ===== src/Cas/Kept.antt =====
-- `CasStore::put` of crates/auru-pm/src/cas.rs beside the other blobs.
use auru_pm_core.Server.Store.{Written, written, failed}
use mathlib.Core.Path.{subst}
use auru_pm_core.Cas.Intact.{insert_tmp, remove_tmp}
use auru_pm_core.Prelude.{
  List, lookup, Text, ℕ, ◌≡◌, Bool-cases, true, some, none, text_eq, ok, false, insert,
  Option-cases, inr, inl, text_eq_iff, ◌∙◌, err-ok, none-some, remove, sym, ap, Bool, lookup-insert,
}
use auru_pm_core.Hash.RoundTrip.{IsHash}
use auru_pm_core.Hash.{ContentHash}
use auru_pm_core.Cas.Frames.{IsReliable, read_stored_verified}
use auru_pm_core.Cas.{
  Codec, Store, CasIo, File, put, get, path_for, write_frame, encode_frame, tmp_for,
}

module _ (c : Codec) (reliable : IsReliable c) (h : ContentHash) (vh : IsHash h) (file : File) where
  abbrev Finds : Store → Type 0
  Finds s = lookup (path_for h) s ≡ some file

  Finds-beside :
      (path : Text) (new : File) (s : Store)
      → lookup path s ≡ none
      → Finds s
      → text_eq path (path_for h) ≡ false
  Finds-beside path new s free there = elim (Bool-cases (text_eq path (path_for h))) [
    | inl same ↦
        let e = (text_eq_iff path (path_for h)).0 same in
        absurd (none-some (sym free ∙ ap (λ p. lookup p s) e ∙ there))
    | inr other ↦ other
  ]

  write_frame-Finds :
      (io : CasIo) (hash : ContentHash) (frame : List ℕ) (s : Store)
      → IsHash hash
      → lookup (path_for hash) s ≡ none
      → Finds s
      → Finds (write_frame io (path_for hash) frame s).1
  unfolding write_frame
  write_frame-Finds io hash frame s v free there = go io.made io.write io.renamed io.cleaned
    where
      new : File
      new = record { bytes = frame; mtime = io.now }

      staged : Finds (insert (tmp_for (path_for hash)) new s)
      staged = insert_tmp c reliable hash v new s h vh ∙ there

      cleared : Finds (remove (tmp_for (path_for hash)) (insert (tmp_for (path_for hash)) new s))
      cleared = remove_tmp c reliable hash v _ h vh ∙ staged

      go :
          (made : Bool) (write : Written) (renamed cleaned : Bool)
          → Finds
              (write_frame
                (record {
                  now = io.now;
                  made = made;
                  write = write;
                  renamed = renamed;
                  cleaned = cleaned;
                })
                (path_for hash)
                frame
                s).1
      go false write renamed cleaned = there
      go true (failed none) renamed cleaned = there
      go true (failed (some part)) renamed cleaned =
          insert_tmp c reliable hash v (record { bytes = part; mtime = io.now }) s h vh ∙ there
      go true written true cleans =
          rw
            (
              lookup-insert (path_for hash) (path_for h) new
                  (remove (tmp_for (path_for hash)) (insert (tmp_for (path_for hash)) new s)),
              Finds-beside (path_for hash) new s free there,
            )
            cleared
      go true written false true = cleared
      go true written false false = staged

  put-Finds :
      (io : CasIo) (hash : ContentHash) (bytes : List ℕ) (s : Store)
      → Finds s
      → Finds (put c io hash bytes s).1
  unfolding put
  put-Finds io hash bytes s there = elim (Bool-cases (text_eq (c.of bytes) hash)) [
    | inr other ↦ rw other there
    | inl same ↦ elim (Option-cases (lookup (path_for hash) s)) [
      | inr (old, taken) ↦ rw (same, taken) there
      | inl free ↦
          rw (same, free)
            (write_frame-Finds io hash (encode_frame c bytes) s
              (subst IsHash ((text_eq_iff (c.of bytes) hash).0 same) (reliable.hashes bytes)) free
              there)
    ]
  ]

module _ (c : Codec) (reliable : IsReliable c) where
  -- Whatever can be read has the name it is read under.
  pub get-IsHash :
      (h : ContentHash) (s : Store) (bytes : List ℕ) → get c true h s ≡ ok bytes → IsHash h
  unfolding get
  get-IsHash h s bytes e = elim (Option-cases (lookup (path_for h) s)) [
    | inl free ↦ err-ok (rw (get, free) at e)
    | inr (file, there) ↦
        subst IsHash (read_stored_verified c h file.bytes bytes (rw (get, there) at e))
          (reliable.hashes bytes)
  ]

  -- Whatever the disk does, a put leaves every blob that can be read as it is.
  pub get-put_keeps :
      (io : CasIo) (hash : ContentHash) (bytes : List ℕ) (s : Store) (h : ContentHash)
      (kept : List ℕ)
      → get c true h s ≡ ok kept
      → get c true h (put c io hash bytes s).1 ≡ ok kept
  unfolding get
  get-put_keeps io hash bytes s h kept e = elim (Option-cases (lookup (path_for h) s)) [
    | inl free ↦ err-ok (rw (get, free) at e)
    | inr (file, there) ↦
        rw (put-Finds c reliable h (get-IsHash h s kept e) file io hash bytes s there)
          (rw (get, there) at e)
  ]
