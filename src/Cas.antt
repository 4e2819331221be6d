-- ===== src/Cas.antt =====
-- The blob store of crates/auru-pm/src/cas.rs. A `Store` is the files below `blake3`, by the path
-- `shard/rest`. What the system calls of one operation answer is a `CasIo`; gzip and BLAKE3 are a
-- `Codec`.
pub mod Frames
pub mod Names
pub mod Intact
pub mod Kept
pub mod ReadBack
pub mod Collect
use auru_pm_core.Hash.{ContentHash, to_hex, from_str, prefix}
use auru_pm_core.Server.Store.{Written, written, failed}
use auru_pm_core.Prelude.{
  ℕ, List, [], ◌∷◌, ◌++◌, Text, codes, Option, some, none, Bool, true, false, ◌&&◌, ◌||◌, Map,
  lookup, insert, remove, if◌then◌else◌, length, take, drop, get_elem?, is_some, ◌==◌, leb, ltb,
  text_eq, Result, ok, err, ◌+◌, ◌-◌, contains,
}

pub record Codec : Type 0 where
  pub of : List ℕ → ContentHash
  pub gzip : List ℕ → Option (List ℕ)
  pub gunzip : List ℕ → Option (List ℕ)

abbrev pub frame_magic : Text
frame_magic = codes "AZB1"

abbrev pub codec_raw : ℕ
codec_raw = 0

abbrev pub codec_gzip : ℕ
codec_gzip = 1

abbrev pub frame_header_len : ℕ
frame_header_len = 5

abbrev pub frame_body : List ℕ → Option (List ℕ) → List ℕ
frame_body bytes none = codec_raw ∷ bytes
frame_body bytes (some compressed) =
    if ltb (length compressed) (length bytes) then codec_gzip ∷ compressed else codec_raw ∷ bytes

unfoldable pub encode_frame : Codec → List ℕ → List ℕ
encode_frame c bytes = frame_magic ++ frame_body bytes (c.gzip bytes)

abbrev pub decode_payload : Codec → Option ℕ → List ℕ → Option (List ℕ)
decode_payload c none payload = none
decode_payload c (some tag) payload =
    if tag == codec_raw then some payload else if tag == codec_gzip then c.gunzip payload else none

unfoldable pub decode_frame : Codec → List ℕ → Option (List ℕ)
unfolding text_eq
decode_frame c stored =
    if leb frame_header_len (length stored) && text_eq (take 4 stored) frame_magic
    then decode_payload c (get_elem? stored 4) (drop frame_header_len stored)
    else none

-- A blob file with the time of its last write, in seconds; `none` where the system has none.
pub record File : Type 0 where
  pub bytes : List ℕ
  pub mtime : Option ℕ

abbrev pub Store : Type 0
Store = Map File

pub record CasIo : Type 0 where
  pub now : Option ℕ
  pub made : Bool
  pub write : Written
  pub renamed : Bool
  pub cleaned : Bool

pub data CasError : Type 0 where
  mismatch io_error not_stored corrupt : CasError

-- `path_for`: two digits name the shard.
unfoldable pub path_for : ContentHash → Text
unfolding to_hex
path_for hash = let hex = to_hex hash in take 2 hex ++ (b'/' ∷ drop 2 hex)

-- `with_extension("tmp")`: the name has no dot.
abbrev pub tmp_for : Text → Text
tmp_for path = path ++ codes ".tmp"

abbrev pub partly_written : CasIo → Text → Option (List ℕ) → Store → Store
partly_written io tmp none s = s
partly_written io tmp (some part) s = insert tmp (record { bytes = part; mtime = io.now }) s

-- The directory, the temporary file, the rename, and the cleaning where that fails.
unfoldable pub write_frame : CasIo → Text → List ℕ → Store → Result CasError (Unit {0}) × Store
write_frame io path frame s =
    let file : File = record { bytes = frame; mtime = io.now } in
    let tmp = tmp_for path in
    if io.made
    then (elim io.write [
      | failed part ↦ (err io_error, partly_written io tmp part s)
      | written ↦
          if io.renamed then (ok tt, insert path file (remove tmp (insert tmp file s))) else (
            err io_error,
            (if io.cleaned then remove tmp (insert tmp file s) else insert tmp file s),
          )
    ])
    else (err io_error, s)

unfoldable pub put :
    Codec → CasIo → ContentHash → List ℕ → Store → Result CasError (Unit {0}) × Store
put c io hash bytes s =
    if text_eq (c.of bytes) hash
    then (if is_some (lookup (path_for hash) s)
        then (ok tt, s)
        else write_frame io (path_for hash) (encode_frame c bytes) s)
    else (err mismatch, s)

-- The bytes as they are, where they hash to their name.
unfoldable pub unframed : Codec → ContentHash → List ℕ → Result CasError (List ℕ)
unframed c hash stored = if text_eq (c.of stored) hash then ok stored else err corrupt

unfoldable pub read_stored : Codec → ContentHash → List ℕ → Result CasError (List ℕ)
unfolding unframed
read_stored c hash stored = elim (decode_frame c stored) [
  | none ↦ unframed c hash stored
  | some decoded ↦ if text_eq (c.of decoded) hash then ok decoded else unframed c hash stored
]

-- The flag says whether the file can be read.
unfoldable pub get : Codec → Bool → ContentHash → Store → Result CasError (List ℕ)
get c readable hash s =
    if readable
    then (elim (lookup (path_for hash) s) [
      | none ↦ err not_stored
      | some file ↦ read_stored c hash file.bytes
    ])
    else err io_error

abbrev pub has : ContentHash → Store → Bool
has hash s = is_some (lookup (path_for hash) s)

-- A path as its directory and its file name.
abbrev pub split_path : Text → Text × Text
split_path [] = ([], [])
split_path (c ∷ path) =
    let (shard, rest) = split_path path in if c == b'/' then ([], path) else (c ∷ shard, rest)

abbrev pub ends_with : Text → Text → Bool
ends_with end [] = text_eq [] end
ends_with end (c ∷ s) = text_eq (c ∷ s) end || ends_with end s

abbrev pub parsed : {E : Type 0} → Result E ContentHash → Option ContentHash
parsed (ok hash) = some hash
parsed (err e) = none

-- The hash that a file's path spells, in `all_hashes` and `gc`.
unfoldable pub hash_of : Text → Option ContentHash
unfolding from_str text_eq
hash_of path =
    let (shard, rest) = split_path path in
    if ends_with (codes ".tmp") rest then none else parsed (from_str (prefix ++ (shard ++ rest)))

-- In the order of the directory; the program has a set.
unfoldable pub all_hashes : Store → List ContentHash
all_hashes [] = []
all_hashes ((path, file) ∷ s) = elim (hash_of path) [
  | none ↦ all_hashes s
  | some hash ↦ hash ∷ all_hashes s
]
