-- ===== src/Cas/Frames.antt =====
-- `encode_frame`, `decode_frame` and the reading of crates/auru-pm/src/cas.rs.
use auru_pm_core.Prelude.{
  List, Bool, ℕ, ◌≡◌, length, some, ◌≤◌, ok, ◌+◌, Option, text_eq_refl, arith, Option-cases, codes,
  text_eq_iff, Bool-cases, lookup, ◌++◌, text_eq, ltb, inl, ltb→lt, inr, none, false, refl, true,
  le→leb, suc,
}
use auru_pm_core.Cas.{
  Codec, encode_frame, decode_frame, frame_body, read_stored, get, Store, unframed, path_for,
}
use auru_pm_core.Hash.{ContentHash}
use auru_pm_core.Hash.RoundTrip.{IsHash}

-- What the gzip library documents, and what BLAKE3 does: 32 bytes.
pub record IsReliable (c : Codec) : Type 0 where
  pub lossless : (bytes z : List ℕ) → c.gzip bytes ≡ some z → c.gunzip z ≡ some bytes
  pub hashes : (bytes : List ℕ) → IsHash (c.of bytes)

module _ (c : Codec) where
  -- Whatever gzip answers, a frame is at most five bytes longer than what is in it.
  pub length-encode_frame : (bytes : List ℕ) → length (encode_frame c bytes) ≤ length bytes + 5
  unfolding encode_frame
  length-encode_frame bytes = go (c.gzip bytes)
    where
      go : (o : Option (List ℕ)) → length (codes "AZB1" ++ frame_body bytes o) ≤ length bytes + 5
      go none = omega arith
      go (some z) = elim (Bool-cases (ltb (length z) (length bytes))) [
        | inl small ↦ rw small (omega (arith, ltb→lt (length z) (length bytes) small))
        | inr large ↦ rw large (omega arith)
      ]

  module _ (reliable : IsReliable c) where
    -- With a lossless gzip and 32-byte hashes, what is framed is read back, compressed or not.
    pub decode_frame-encode_frame :
        (bytes : List ℕ) → decode_frame c (encode_frame c bytes) ≡ some bytes
    unfolding encode_frame decode_frame
    decode_frame-encode_frame bytes = go (c.gzip bytes) refl
      where
        go :
            (o : Option (List ℕ))
            → c.gzip bytes ≡ o
            → decode_frame c (codes "AZB1" ++ frame_body bytes o) ≡ some bytes
        go none e = rw (le→leb 5 (suc (suc (suc (suc (suc (length bytes)))))) (omega arith)) refl
        go (some z) e = elim (Bool-cases (ltb (length z) (length bytes))) [
          | inl small ↦
              rw (small, le→leb 5 (suc (suc (suc (suc (suc (length z)))))) (omega arith))
                (reliable.lossless bytes z e)
          | inr large ↦
              rw (large, le→leb 5 (suc (suc (suc (suc (suc (length bytes)))))) (omega arith)) refl
        ]

    pub read_stored-encode_frame :
        (bytes : List ℕ) → read_stored c (c.of bytes) (encode_frame c bytes) ≡ ok bytes
    unfolding read_stored
    read_stored-encode_frame bytes =
        rw (decode_frame-encode_frame bytes, read_stored, text_eq_refl (c.of bytes))

  unframed_verified :
      (hash : ContentHash) (stored bytes : List ℕ)
      → unframed c hash stored ≡ ok bytes
      → c.of bytes ≡ hash
  unfolding unframed
  unframed_verified hash stored bytes e = ground (arith, text_eq_iff (c.of stored) hash)

  pub read_stored_verified :
      (hash : ContentHash) (stored bytes : List ℕ)
      → read_stored c hash stored ≡ ok bytes
      → c.of bytes ≡ hash
  unfolding read_stored
  read_stored_verified hash stored bytes = go (decode_frame c stored) refl
    where
      go :
          (o : Option (List ℕ))
          → decode_frame c stored ≡ o
          → read_stored c hash stored ≡ ok bytes
          → c.of bytes ≡ hash
      go none d = rw (d, read_stored) (λ e. unframed_verified hash stored bytes e)
      go (some decoded) d =
          rw (d, read_stored)
            (λ e. elim (Bool-cases (text_eq (c.of decoded) hash)) [
              | inl same ↦ ground (arith, text_eq_iff (c.of decoded) hash)
              | inr other ↦ unframed_verified hash stored bytes (rw other at e)
            ])

  -- Whatever is on the disk, what get returns hashes to the name that was asked for.
  pub get_verified :
      (readable : Bool) (hash : ContentHash) (s : Store) (bytes : List ℕ)
      → get c readable hash s ≡ ok bytes
      → c.of bytes ≡ hash
  unfolding get
  get_verified false hash s bytes e = cc
  get_verified true hash s bytes e = elim (Option-cases (lookup (path_for hash) s)) [
    | inl d ↦ let never = rw d at e in cc
    | inr (file, d) ↦ read_stored_verified hash file.bytes bytes (rw d at e)
  ]
