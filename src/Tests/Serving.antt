-- ===== src/Tests/Serving.antt =====
-- A short session with the server, in memory and on disk.
use auru_pm_core.Server.Isolation.{project_for-serve}
use auru_pm_core.Server.Growth.{serve-IsGrown}
use auru_pm_core.Server.Key.{project_key_injective}
use auru_pm_core.Server.Persist.{Reads, IsDurable, open_db-serve}
use auru_pm_core.Server.Served.{IsCollisionFree, IsGrown}
use auru_pm_core.Server.Commits.{put_project_blob, post_commit, check_commit}
use auru_pm_core.Prelude.Int.{pos}
use auru_pm_core.Hash.{zero_hash, from_str, to_string}
use auru_pm_core.Prelude.{
  List, codes, true, false, [], none, some, ◌∷◌, text_eq, lookup, insert, remove, ◌≡◌, ◌≢◌, refl,
  arith, none-some, ap, ◌∙◌, sym, take, ok, map, ℕ, Option, suc, get_elem?, ◌+◌, some-injective,
}
use auru_pm_core.Server.Handlers.{
  AuthenticatedIdentity, get_head, put_project_profile, post_head, head_is,
}
use auru_pm_core.Commit.{AuthorIdentity, Content, External, compute_commit_id}
use native.Mathlib.Decide.{ℕ_discrete}
use auru_pm_core.Server.Store.{
  StateJson, Saved, empty_saved, OpenIo, Principal, Io, Profile, World, written, failed,
  project_key, put_blob, get_blob, open_db, project_for, blob_name,
}
use auru_pm_core.Server.Requests.{Request, serve, put_profile, push_blob, push_commit, advance_head}

-- One project, one commit.
abbrev alice : Principal
alice = record { issuer = codes "local"; subject = codes "alice" }

abbrev bob : Principal
bob = record { issuer = codes "local"; subject = codes "bob" }

abbrev all_well : Io
all_well = record { persisted = true; write = written; renamed = true; readable = true }

abbrev disk_full : Io
disk_full = record { persisted = false; write = failed none; renamed = false; readable = true }

abbrev new_profile : Profile
new_profile = record {
  display_name = codes "Song";
  format = codes "auru";
  genre = none;
  tags = [];
  location = none;
}

abbrev author : AuthorIdentity
author = record {
  display_name = codes "Alice";
  provider_user_id = codes "alice";
  provider_id = codes "here";
  email = none;
}

abbrev alice_identity : AuthenticatedIdentity
alice_identity = record {
  provider_id = codes "here";
  user_id = codes "alice";
  display_name = codes "Alice";
  email = none;
}

abbrev root : Content
root = record {
  parents = [];
  snapshot = zero_hash;
  samples = zero_hash;
  author = author;
  timestamp = pos 100;
  message = codes "first";
  description = [];
  auru_version = codes "0.1.0";
  format_version = 8;
  metadata = none;
}

-- A hash function for the tests, with one value.
abbrev test_ext : External
test_ext = record {
  blake3 = λ bytes. zero_hash;
  jcs = λ c. some [];
  parse_manifest = λ bytes. some [];
}

abbrev session : List Request
session =
    record { identity = alice; io = all_well; route = put_profile (codes "song") new_profile }
    ∷ record {
      identity = alice;
      io = all_well;
      route = push_blob (codes "song") (to_string zero_hash) (codes "{}");
    }
    ∷ record {
      identity = alice;
      io = all_well;
      route = push_commit alice_identity (codes "song") (record { id = zero_hash; content = root });
    }
    ∷ record {
      identity = alice;
      io = all_well;
      route = advance_head (codes "song") none (to_string zero_hash);
    }
    ∷ []

-- The states that the session goes through, as they are without a disk.
abbrev no_json : StateJson
no_json = record { to_vec = λ saved. none; from_slice = λ bytes. none }

abbrev in_memory : World
in_memory = record {
  db = record { blobs = []; saved = empty_saved; data_dir = none };
  state_file = none;
  blob_files = [];
  json = no_json;
}

abbrev passed : List Saved
passed = map (λ n. (serve test_ext (take n session) in_memory).db.saved) (0 ∷ 1 ∷ 2 ∷ 3 ∷ 4 ∷ [])

abbrev Saved-discrete : Discrete Saved
Saved-discrete = hlevel (ℕ_discrete)

abbrev encoded_as : (saved old : Saved) → ℕ → Dec (saved ≡ old) → Option (List ℕ) → Option (List ℕ)
encoded_as saved old n (yes same) rest = some (n ∷ [])
encoded_as saved old n (no other) rest = rest

-- The number of a state among some of them.
abbrev numbered : ℕ → List Saved → Saved → Option (List ℕ)
numbered n [] saved = none
numbered n (old ∷ states) saved =
    encoded_as saved old n (Saved-discrete saved old) (numbered (suc n) states saved)

state_at : List ℕ → Option Saved
state_at [] = none
state_at (n ∷ bytes) = get_elem? passed n

abbrev toy_json : StateJson
toy_json = record { to_vec = numbered 0 passed; from_slice = state_at }

abbrev At : ℕ → List Saved → Saved → List ℕ → Type 0
At n states saved bytes = (k : ℕ) × (bytes ≡ (n + k) ∷ []) × (get_elem? states k ≡ some saved)

one_more :
    (n : ℕ) (old : Saved) (states : List Saved) (saved : Saved) (bytes : List ℕ)
    (d : Dec (saved ≡ old))
    → (numbered (suc n) states saved ≡ some bytes → At (suc n) states saved bytes)
    → encoded_as saved old n d (numbered (suc n) states saved) ≡ some bytes
    → At n (old ∷ states) saved bytes
one_more n old states saved bytes (yes same) later e =
    (0, sym (some-injective _ _ e) ∙ ap (λ m. m ∷ []) (omega arith), ap (λ s. some s) (sym same))
one_more n old states saved bytes (no other) later e =
    let (k, named, found) = later e in (suc k, named ∙ ap (λ m. m ∷ []) (omega arith), found)

numbered-At :
    (n : ℕ) (states : List Saved) (saved : Saved) (bytes : List ℕ)
    → numbered n states saved ≡ some bytes
    → At n states saved bytes
numbered-At n [] saved bytes e = absurd (none-some e)
numbered-At n (old ∷ states) saved bytes e =
    one_more n old states saved bytes (Saved-discrete saved old)
      (numbered-At (suc n) states saved bytes) e

toy_json-Reads : Reads toy_json
unfolding state_at
toy_json-Reads saved bytes e =
    let (k, named, found) = numbered-At 0 passed saved bytes e in
    ap state_at named ∙ ap (get_elem? passed) (omega arith) ∙ found

abbrev empty_disk : World
empty_disk = record {
  db = record { blobs = []; saved = empty_saved; data_dir = some (codes "data") };
  state_file = some (0 ∷ []);
  blob_files = [];
  json = toy_json;
}

abbrev after : World
after = serve test_ext session empty_disk

session_head : get_head alice (codes "song") after ≡ head_is (some (to_string zero_hash))
unfolding get_head serve put_project_profile put_project_blob from_str post_commit post_head
    compute_commit_id text_eq lookup insert project_key to_string put_blob get_blob remove blob_name
    ℕ_discrete
session_head = refl

others_see_nothing : get_head bob (codes "song") after ≡ head_is none
unfolding get_head serve put_project_profile put_project_blob from_str post_commit post_head
    compute_commit_id text_eq lookup insert project_key to_string put_blob get_blob remove blob_name
    ℕ_discrete
others_see_nothing = refl

abbrev OnlyRoot : Content → Type 0
OnlyRoot c = c ≡ root

OnlyRoot-IsCollisionFree : IsCollisionFree test_ext OnlyRoot
OnlyRoot-IsCollisionFree = record {
  hashes = λ bytes. record { bytes = omega arith; size = refl };
  apart = λ c d h pc pd ec ed. pc ∙ sym pd;
}

empty-IsGrown : IsGrown test_ext OnlyRoot empty_disk.db.saved
unfolding lookup
empty-IsGrown = record {
  grown = λ key p e. absurd (none-some e);
  addressed = λ id c e. absurd (none-some e);
}

serve-IsGrown_example : IsGrown test_ext OnlyRoot after.db.saved
serve-IsGrown_example =
    serve-IsGrown test_ext OnlyRoot OnlyRoot-IsCollisionFree session empty_disk
      (tt, (tt, (refl, (tt, tt)))) empty-IsGrown

empty-IsDurable : IsDurable empty_disk
unfolding state_at serve
empty-IsDurable = record { reads = toy_json-Reads; held = λ dir e. (0 ∷ [], refl, refl) }

after_dir : after.db.data_dir ≡ some (codes "data")
unfolding serve put_project_profile put_project_blob from_str post_commit post_head
    compute_commit_id text_eq lookup insert project_key to_string put_blob get_blob remove blob_name
    ℕ_discrete
after_dir = refl

abbrev disk_back : OpenIo
disk_back = record { made = true; readable = true }

open_db-serve_example :
    open_db disk_back (codes "data") after
    ≡ some (record after {
      db = record { blobs = []; saved = after.db.saved; data_dir = some (codes "data") };
    })
open_db-serve_example =
    open_db-serve test_ext session empty_disk disk_back (codes "data") empty-IsDurable after_dir
      refl refl

bob_is_other : alice ≢ bob
bob_is_other e = cc (ap (λ (p : Principal). p.subject) e)

project_for-serve_example :
    project_for after.db bob (codes "song") ≡ project_for empty_disk.db bob (codes "song")
project_for-serve_example =
    project_for-serve test_ext session empty_disk bob (codes "song")
      (bob_is_other, (bob_is_other, (bob_is_other, (bob_is_other, tt))))

project_key_injective_example : (alice ≡ alice) × (codes "song" ≡ codes "song")
project_key_injective_example = project_key_injective alice alice (codes "song") (codes "song") refl

-- Before the commit: the profile and the blob are there.
abbrev prepared : World
prepared = serve test_ext (take 2 session) empty_disk

root_is_accepted :
    check_commit test_ext all_well alice alice_identity
      (codes "song")
      (record { id = zero_hash; content = root })
      prepared
    ≡ ok tt
unfolding check_commit serve put_project_profile put_project_blob from_str compute_commit_id text_eq
    lookup insert project_key to_string put_blob get_blob remove blob_name ℕ_discrete
root_is_accepted = refl
