-- ===== src/Cas/Intact.antt =====
-- `put` of crates/auru-pm/src/cas.rs on a store of which every blob can be read.
use mathlib.Core.Path.{subst}
use auru_pm_core.Server.Store.{Written, written, failed, failed}
use auru_pm_core.Prelude.{
  true, false, lookup, List, Option, ◌≡◌, insert, remove, ℕ, some, sym, lookup-insert,
  lookup-remove, ok, Bool-cases, ◌∙◌, text_ne, text_eq, Bool, none, refl, inl, inr, text_eq_iff,
  is_some, some-injective,
}
use auru_pm_core.Cas.{
  Codec, Store, File, CasIo, path_for, tmp_for, put, read_stored, write_frame, encode_frame,
  partly_written,
}
use auru_pm_core.Cas.Frames.{IsReliable, read_stored-encode_frame}
use auru_pm_core.Cas.Names.{path_for-injective, path_for-ne-tmp}
use auru_pm_core.Hash.{ContentHash}
use auru_pm_core.Hash.RoundTrip.{IsHash}

-- Every blob file can be read as bytes of its name.
pub record IsIntact (c : Codec) (s : Store) : Type 0 where
  pub sound :
      (h : ContentHash) (file : File)
      → IsHash h
      → lookup (path_for h) s ≡ some file
      → (bytes : List ℕ) × (read_stored c h file.bytes ≡ ok bytes)

module _ (c : Codec) (reliable : IsReliable c) where
  -- A change that shows at no blob's path.
  unseen-IsIntact :
      (s t : Store)
      → ((h : ContentHash) → IsHash h → lookup (path_for h) t ≡ lookup (path_for h) s)
      → IsIntact c s
      → IsIntact c t
  unseen-IsIntact s t same v = record {
    sound = λ h file vh e. v.sound h file vh (sym (same h vh) ∙ e);
  }

  module _ (hash : ContentHash) (vh : IsHash hash) where
    pub insert_tmp :
        (file : File) (s : Store) (h : ContentHash)
        → IsHash h
        → lookup (path_for h) (insert (tmp_for (path_for hash)) file s) ≡ lookup (path_for h) s
    insert_tmp file s h v =
        rw
          (
            lookup-insert (tmp_for (path_for hash)) (path_for h) file s,
            text_ne (tmp_for (path_for hash)) (path_for h)
                (λ e. path_for-ne-tmp h hash v vh (sym e)),
          )
          refl

    pub remove_tmp :
        (s : Store) (h : ContentHash)
        → IsHash h
        → lookup (path_for h) (remove (tmp_for (path_for hash)) s) ≡ lookup (path_for h) s
    remove_tmp s h v =
        rw
          (
            lookup-remove (tmp_for (path_for hash)) (path_for h) s,
            text_ne (tmp_for (path_for hash)) (path_for h)
                (λ e. path_for-ne-tmp h hash v vh (sym e)),
          )
          refl

    insert_frame-IsIntact :
        (file : File) (bytes : List ℕ) (s : Store)
        → read_stored c hash file.bytes ≡ ok bytes
        → IsIntact c s
        → IsIntact c (insert (path_for hash) file s)
    insert_frame-IsIntact file bytes s readable v = record {
      sound = λ h found vg e. elim (Bool-cases (text_eq (path_for hash) (path_for h))) [
        | inl same ↦
            let named : hash ≡ h =
              path_for-injective hash h vh vg ((text_eq_iff (path_for hash) (path_for h)).0 same) in
            let it : file ≡ found =
              some-injective _ _
                (rw (lookup-insert (path_for hash) (path_for h) file s, same) at e) in
            subst (λ g. (bytes : List ℕ) × (read_stored c g found.bytes ≡ ok bytes)) named
              (subst (λ (f : File). (bytes : List ℕ) × (read_stored c hash f.bytes ≡ ok bytes)) it
                (bytes, readable))
        | inr other ↦
            v.sound h found vg (rw (lookup-insert (path_for hash) (path_for h) file s, other) at e)
      ];
    }

    partly_written-IsIntact :
        (io : CasIo) (part : Option (List ℕ)) (s : Store)
        → IsIntact c s
        → IsIntact c (partly_written io (tmp_for (path_for hash)) part s)
    partly_written-IsIntact io none s v = v
    partly_written-IsIntact io (some part) s v =
        unseen-IsIntact s _ (insert_tmp (record { bytes = part; mtime = io.now }) s) v

    write_frame-IsIntact :
        (io : CasIo) (frame bytes : List ℕ) (s : Store)
        → read_stored c hash frame ≡ ok bytes
        → IsIntact c s
        → IsIntact c (write_frame io (path_for hash) frame s).1
    unfolding write_frame
    write_frame-IsIntact io frame bytes s readable v = go io.made io.write io.renamed io.cleaned
      where
        file : File
        file = record { bytes = frame; mtime = io.now }

        staged : IsIntact c (insert (tmp_for (path_for hash)) file s)
        staged = unseen-IsIntact s _ (insert_tmp file s) v

        cleared :
            IsIntact c (remove (tmp_for (path_for hash)) (insert (tmp_for (path_for hash)) file s))
        cleared = unseen-IsIntact _ _ (remove_tmp (insert (tmp_for (path_for hash)) file s)) staged

        go :
            (made : Bool) (write : Written) (renamed cleaned : Bool)
            → IsIntact c
                (write_frame
                  (record {
                    now = io.now;
                    made = made;
                    write = write;
                    renamed = renamed;
                    cleaned = cleaned;
                  })
                  (path_for hash)
                  frame
                  s).1
        go false write renamed cleaned = v
        go true (failed part) renamed cleaned = partly_written-IsIntact io part s v
        go true written true cleaned = insert_frame-IsIntact file bytes _ readable cleared
        go true written false true = cleared
        go true written false false = staged

  -- With a lossless gzip and 32-byte hashes, whatever is put and whatever the disk does on the
  -- way, every blob file can still be read as bytes of its name.
  pub put-IsIntact :
      (io : CasIo) (hash : ContentHash) (bytes : List ℕ) (s : Store)
      → IsIntact c s
      → IsIntact c (put c io hash bytes s).1
  unfolding put
  put-IsIntact io hash bytes s v = elim (Bool-cases (text_eq (c.of bytes) hash)) [
    | inr other ↦ rw other v
    | inl same ↦ elim (Bool-cases (is_some (lookup (path_for hash) s))) [
      | inl there ↦ rw (same, there) v
      | inr new ↦
          let named : c.of bytes ≡ hash = (text_eq_iff (c.of bytes) hash).0 same in
          rw (same, new)
            (write_frame-IsIntact hash (subst IsHash named (reliable.hashes bytes)) io
              (encode_frame c bytes) bytes s
              (subst (λ g. read_stored c g (encode_frame c bytes) ≡ ok bytes) named
                (read_stored-encode_frame c reliable bytes))
              v)
    ]
  ]
