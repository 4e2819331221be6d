-- ===== src/Commit.antt =====
-- crates/auru-pm-kernel/src/commit.rs and `compute_commit_id` of canonical.rs. A commit is its id
-- and the content that the canonical encoding keeps; `TreeRef` is the two hashes `snapshot` and
-- `samples`.
use auru_pm_core.Prelude.{ℕ, List, Option, Text}
use auru_pm_core.Prelude.Int.{ℤ}
use auru_pm_core.Hash.{ContentHash}
use mathlib.Core.Option

pub record AuthorIdentity : Type 0 where
  pub display_name : Text
  pub provider_user_id : Text
  pub provider_id : Text
  pub email : Option Text

-- What `canonical_encoding` encodes: every field but the id.
pub record Content : Type 0 where
  pub parents : List ContentHash
  pub snapshot : ContentHash
  pub samples : ContentHash
  pub author : AuthorIdentity
  pub timestamp : ℤ
  pub message : Text
  pub description : Text
  pub auru_version : Text
  pub format_version : ℕ
  pub metadata : Option ContentHash

pub record Commit : Type 0 where
  pub id : ContentHash
  pub content : Content

pub data AssetKind : Type 0 where
  sample analysis preset backup project_info other : AssetKind

pub record SampleEntry : Type 0 where
  pub path : Text
  pub hash : ContentHash
  pub size : ℕ
  pub kind : AssetKind
  pub origin : Option Text

-- Code outside the repository: BLAKE3, the JCS encoder on the JSON of a content (`none` is its
-- error), and the JSON reader of a sample manifest.
pub record External : Type 0 where
  pub blake3 : List ℕ → ContentHash
  pub jcs : Content → Option (List ℕ)
  pub parse_manifest : List ℕ → Option (List SampleEntry)

unfoldable pub compute_commit_id : External → Content → Option ContentHash
compute_commit_id ext c = Option.map ext.blake3 (ext.jcs c)

-- `CommitSummary::from`
pub record CommitSummary : Type 0 where
  pub id : ContentHash
  pub parents : List ContentHash
  pub author : AuthorIdentity
  pub timestamp : ℤ
  pub message : Text
  pub description : Text

unfoldable pub summary : Commit → CommitSummary
summary c = record {
  id = c.id;
  parents = c.content.parents;
  author = c.content.author;
  timestamp = c.content.timestamp;
  message = c.content.message;
  description = c.content.description;
}
