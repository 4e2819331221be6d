-- ===== src/Tests/Contracts.antt =====
-- The folder provider keeps the contract, with the commit that the tests know.
use auru_pm_core.Tests.Providing.{no_manifest}
use auru_pm_core.Tests.Blobs.{test_codec, kept_commit, sevens}
use auru_pm_core.Commit.{Content, External}
use native.Mathlib.Decide.{ℕ_discrete}
use auru_pm_core.Prelude.{List, ◌≡◌, ℕ, Bool, Option, text_eq, some, none}

abbrev Content-discrete : Discrete Content
Content-discrete = hlevel (ℕ_discrete)

abbrev encoded_kept : (content : Content) → Dec (content ≡ kept_commit) → Option (List ℕ)
encoded_kept content (yes same) = some sevens
encoded_kept content (no other) = none

-- One content can be encoded, as the sevens.
abbrev one_content : External
one_content = record {
  blake3 = test_codec.of;
  jcs = λ content. encoded_kept content (Content-discrete content kept_commit);
  parse_manifest = no_manifest;
}

abbrev are_sevens : List ℕ → Bool
are_sevens bytes = text_eq bytes sevens
