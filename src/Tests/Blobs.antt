-- ===== src/Tests/Blobs.antt =====
-- A blob put, read back and collected.
use mathlib.Core.Path.{subst}
use auru_pm_core.Cas.{
  Codec, Store, CasIo, put, get, path_for, encode_frame, decode_frame, hash_of, write_frame,
  read_stored, unframed,
}
use auru_pm_core.Commit.{Content, SampleEntry, sample}
use auru_pm_core.Filesystem.Objects.{
  reachable_blobs, read_manifest, validate_commit_objects, entry_hashes,
}
use auru_pm_core.Filesystem.Objects.Kept.{gc-reachable}
use auru_pm_core.Prelude.Int.{pos}
use auru_pm_core.Cas.Frames.{IsReliable, length-encode_frame}
use auru_pm_core.Cas.Intact.{IsIntact, put-IsIntact}
use auru_pm_core.Cas.ReadBack.{get-put}
use auru_pm_core.Cas.Collect.{GcIo, gc, gc_keeps, gc_accounts, disk_usage, judge}
use auru_pm_core.Hash.{ContentHash, zero_hash, from_str}
use auru_pm_core.Hash.RoundTrip.{IsHash}
use auru_pm_core.Server.Store.{written}
use auru_pm_core.Prelude.{
  true, false, List, ◌∷◌, if◌then◌else◌, arith, Bool-cases, text_eq, some, lookup, ◌≡◌, [], length,
  ℕ, drop, none, insert, none-some, ok, ◌≤◌, ◌+◌, refl, inl, text_eq_iff, remove, inr, codes,
  Option, All, some-injective,
}

abbrev pub sevens : List ℕ
sevens = 7 ∷ 7 ∷ 7 ∷ []

abbrev pub one_hash : ContentHash
one_hash = 1 ∷ drop 1 zero_hash

-- The sevens are the one content with the hash of zeros, and the one that can be compressed.
abbrev pub test_codec : Codec
test_codec = record {
  of = λ bytes. if text_eq bytes sevens then zero_hash else one_hash;
  gzip = λ bytes. if text_eq bytes sevens then some (3 ∷ []) else none;
  gunzip = λ z. some sevens;
}

pub zero_hash-IsHash : IsHash zero_hash
zero_hash-IsHash = record { bytes = omega arith; size = refl }

pub test_codec-IsReliable : IsReliable test_codec
test_codec-IsReliable = record {
  lossless = λ bytes z e. elim (Bool-cases (text_eq bytes sevens)) [
    | inl same ↦ rw ((text_eq_iff bytes sevens).0 same) refl
    | inr other ↦ absurd (none-some (rw other at e))
  ];
  hashes = λ bytes. elim (Bool-cases (text_eq bytes sevens)) [
    | inl same ↦ rw same zero_hash-IsHash
    | inr other ↦ rw other (record { bytes = omega arith; size = refl })
  ];
}

pub alone : (other : List ℕ) → test_codec.of other ≡ test_codec.of sevens → other ≡ sevens
unfolding text_eq
alone other e = elim (Bool-cases (text_eq other sevens)) [
  | inl same ↦ (text_eq_iff other sevens).0 same
  | inr differs ↦ let never = rw differs at e in cc
]

abbrev pub disk_works : CasIo
disk_works = record { now = some 50; made = true; write = written; renamed = true; cleaned = true }

abbrev rename_fails : CasIo
rename_fails = record {
  now = some 50;
  made = true;
  write = written;
  renamed = false;
  cleaned = false;
}

abbrev pub stored : Store
stored =
    (path_for zero_hash, record { bytes = encode_frame test_codec sevens; mtime = some 50 }) ∷ []

pub put_works : put test_codec disk_works zero_hash sevens [] ≡ (ok tt, stored)
unfolding put write_frame text_eq lookup insert remove path_for
put_works = refl

pub empty-IsIntact : IsIntact test_codec []
unfolding lookup
empty-IsIntact = record { sound = λ h file v e. absurd (none-some e) }

get-put_example : get test_codec true zero_hash stored ≡ ok sevens
get-put_example =
    get-put test_codec test_codec-IsReliable disk_works zero_hash sevens [] stored empty-IsIntact
      alone put_works

put-IsIntact_example : IsIntact test_codec (put test_codec rename_fails zero_hash sevens []).1
put-IsIntact_example =
    put-IsIntact test_codec test_codec-IsReliable rename_fails zero_hash sevens [] empty-IsIntact

length-encode_frame_example : length (encode_frame test_codec sevens) ≤ length sevens + 5
length-encode_frame_example = length-encode_frame test_codec sevens

abbrev pub gc_io : GcIo
gc_io = record { sized = λ path. true; removable = λ path. true }

gc_keeps_example :
    lookup (path_for zero_hash) (gc (zero_hash ∷ []) 10 1000 gc_io stored).1
    ≡ lookup (path_for zero_hash) stored
unfolding text_eq
gc_keeps_example = gc_keeps (zero_hash ∷ []) 10 1000 gc_io zero_hash stored zero_hash-IsHash refl

unreachable_goes : (gc [] 10 1000 gc_io stored).1 ≡ []
unfolding gc judge hash_of path_for text_eq from_str
unreachable_goes = refl

gc_accounts_example :
    ((gc [] 10 1000 gc_io stored).0.freed_count + length (gc [] 10 1000 gc_io stored).1
      ≡ length stored)
    × ((gc [] 10 1000 gc_io stored).0.freed_bytes + disk_usage (gc [] 10 1000 gc_io stored).1
        ≤ disk_usage stored)
gc_accounts_example = gc_accounts [] 10 1000 gc_io stored

found_there :
    lookup (path_for zero_hash) stored
    ≡ some (record { bytes = encode_frame test_codec sevens; mtime = some 50 })
unfolding lookup path_for text_eq
found_there = refl

abbrev pub kept_commit : Content
kept_commit = record {
  parents = [];
  snapshot = zero_hash;
  samples = zero_hash;
  author = record {
    display_name = codes "Alice";
    provider_user_id = codes "alice";
    provider_id = codes "here";
    email = none;
  };
  timestamp = pos 100;
  message = [];
  description = [];
  auru_version = codes "0.1.0";
  format_version = 8;
  metadata = none;
}

-- Only the sevens are a manifest, of one sample that is again the sevens.
abbrev parse_sevens : List ℕ → Option (List SampleEntry)
parse_sevens bytes =
    if text_eq bytes sevens
    then some (
        record { path = codes "a.wav"; hash = zero_hash; size = 3; kind = sample; origin = none }
        ∷ [])
    else none

parse_sevens-IsHash :
    (bytes : List ℕ) (entries : List SampleEntry)
    → parse_sevens bytes ≡ some entries
    → All IsHash (entry_hashes entries)
parse_sevens-IsHash bytes entries e = elim (Bool-cases (text_eq bytes sevens)) [
  | inl same ↦
      subst (λ es. All IsHash (entry_hashes es)) (some-injective _ _ (rw same at e))
        (zero_hash-IsHash, tt)
  | inr differs ↦ absurd (none-some (rw differs at e))
]

kept_walk :
    reachable_blobs test_codec true parse_sevens stored (kept_commit ∷ []) []
    ≡ ok (zero_hash ∷ zero_hash ∷ zero_hash ∷ [])
unfolding reachable_blobs read_manifest get read_stored unframed decode_frame encode_frame lookup
    path_for text_eq
kept_walk = refl

gc-reachable_example :
    validate_commit_objects test_codec true parse_sevens
      (gc (zero_hash ∷ zero_hash ∷ zero_hash ∷ []) 10 1000 gc_io stored).1
      kept_commit
    ≡ validate_commit_objects test_codec true parse_sevens stored kept_commit
gc-reachable_example =
    gc-reachable test_codec true parse_sevens stored [] (zero_hash ∷ zero_hash ∷ zero_hash ∷ []) []
      kept_commit [] 10 1000 gc_io parse_sevens-IsHash
      (record { snapshot = zero_hash-IsHash; samples = zero_hash-IsHash; metadata = tt }) kept_walk
