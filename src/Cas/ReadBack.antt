-- ===== src/Cas/ReadBack.antt =====
-- `get` after `put` in crates/auru-pm/src/cas.rs.
use mathlib.Core.Path.{subst}
use auru_pm_core.Cas.{
  Codec, Store, File, CasIo, path_for, put, get, read_stored, write_frame, encode_frame,
}
use auru_pm_core.Server.Store.{Written, written, failed}
use auru_pm_core.Cas.Frames.{IsReliable, read_stored-encode_frame, read_stored_verified}
use auru_pm_core.Cas.Intact.{IsIntact}
use auru_pm_core.Hash.{ContentHash}
use auru_pm_core.Hash.RoundTrip.{IsHash}
use auru_pm_core.Prelude.{
  true, false, Text, List, ℕ, ◌≡◌, ok, lookup, ◌∙◌, some, sym, Bool, Bool-cases, ap, text_eq,
  lookup-insert_self, inr, inl, text_eq_iff, Option-cases, refl,
}

-- A write that succeeds leaves the frame at its path.
write_frame-ok :
    (io : CasIo) (path : Text) (frame : List ℕ) (s t : Store)
    → write_frame io path frame s ≡ (ok tt, t)
    → (file : File) × (lookup path t ≡ some file) × (file.bytes ≡ frame)
unfolding write_frame
write_frame-ok io path frame s t = go io.made io.write io.renamed
  where
    go :
        (made : Bool) (write : Written) (renamed : Bool)
        → write_frame
            (record {
              now = io.now;
              made = made;
              write = write;
              renamed = renamed;
              cleaned = io.cleaned;
            })
            path
            frame
            s
          ≡ (ok tt, t)
        → (file : File) × (lookup path t ≡ some file) × (file.bytes ≡ frame)
    go false write renamed e = let never = ap (λ r. r.0) e in cc
    go true (failed part) renamed e = let never = ap (λ r. r.0) e in cc
    go true written false e = let never = ap (λ r. r.0) e in cc
    go true written true e = (
      record { bytes = frame; mtime = io.now },
      subst (λ u. lookup path u ≡ some (record { bytes = frame; mtime = io.now })) (ap (λ r. r.1) e)
          (lookup-insert_self path _ _),
      refl,
    )

module _ (c : Codec) (reliable : IsReliable c) where
  stored_reads :
      (io : CasIo) (hash : ContentHash) (bytes : List ℕ) (s t : Store)
      → IsIntact c s
      → put c io hash bytes s ≡ (ok tt, t)
      → (c.of bytes ≡ hash)
        × ((file : File) × (kept : List ℕ) × (lookup (path_for hash) t ≡ some file)
            × (read_stored c hash file.bytes ≡ ok kept))
  unfolding put
  stored_reads io hash bytes s t v done = elim (Bool-cases (text_eq (c.of bytes) hash)) [
    | inr other ↦ let never = ap (λ r. r.0) (rw other at done) in cc
    | inl same ↦
        let named : c.of bytes ≡ hash = (text_eq_iff (c.of bytes) hash).0 same in
        let vh : IsHash hash = subst IsHash named (reliable.hashes bytes) in
        elim (Option-cases (lookup (path_for hash) s)) [
          | inl new ↦
              let (file, found, framed) =
                write_frame-ok io (path_for hash) (encode_frame c bytes) s t
                  (rw (same, new) at done) in
              let reads =
                subst (λ g. read_stored c g (encode_frame c bytes) ≡ ok bytes) named
                  (read_stored-encode_frame c reliable bytes) in
              (named, (file, bytes, found, rw framed reads))
          | inr (file, there) ↦
              let same_store : s ≡ t = ap (λ r. r.1) (rw (same, there) at done) in
              let (kept, reads) = v.sound hash file vh there in
              (
                named,
                (
                  file,
                  kept,
                  subst (λ u. lookup (path_for hash) u ≡ some file) same_store there,
                  reads,
                ),
              )
        ]
  ]

  -- With a lossless gzip and 32-byte hashes, on an intact store, once a put of bytes has
  -- succeeded and no other bytes have their hash, a get under that hash gives them.
  pub get-put :
      (io : CasIo) (hash : ContentHash) (bytes : List ℕ) (s t : Store)
      → IsIntact c s
      → ((other : List ℕ) → c.of other ≡ c.of bytes → other ≡ bytes)
      → put c io hash bytes s ≡ (ok tt, t)
      → get c true hash t ≡ ok bytes
  unfolding get
  get-put io hash bytes s t v apart done =
      let (named, (file, kept, found, reads)) = stored_reads io hash bytes s t v done in
      let theirs : kept ≡ bytes =
        apart kept (read_stored_verified c hash file.bytes kept reads ∙ sym named) in
      rw found (reads ∙ ap (λ b. ok b) theirs)
