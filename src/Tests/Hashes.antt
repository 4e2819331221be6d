-- ===== src/Tests/Hashes.antt =====
-- Hash texts and retention rules at concrete inputs.
use auru_pm_core.Prelude.Int.{ℤ, pos}
use auru_pm_core.Protocol.Retention.{
  retained_prefix_len, IsBoundary, rposition, latest, since, since_boundary,
}
use auru_pm_core.Prelude.{
  arith, List, ℕ, take, text_eq, ◌≡◌, refl, [], codes, ok, ◌++◌, ◌∷◌, err, suc, zero, drop, ◌≢◌,
}
use auru_pm_core.Hash.{
  ContentHash, to_string, from_str, prefix, hex_char, bad_prefix, to_hex, bad_length,
}
use auru_pm_core.Hash.RoundTrip.{IsHash, from_str-to_string, from_str-plus}

abbrev sample_hash : ContentHash
sample_hash = 5 ∷ 171 ∷ rest 30
  where
    rest : ℕ → List ℕ
    rest zero = []
    rest (suc n) = 255 ∷ rest n

sample_hash-IsHash : IsHash sample_hash
sample_hash-IsHash = record { bytes = omega arith; size = refl }

to_string_starts : take 11 (to_string sample_hash) ≡ codes "blake3:05ab"
unfolding to_string
to_string_starts = refl

from_str_errors :
    (from_str (codes "sha256:deadbeef") ≡ err bad_prefix)
    × (from_str (codes "blake3:abcd") ≡ err (bad_length 4))
unfolding from_str text_eq
from_str_errors = (refl, refl)

from_str-to_string_example : from_str (to_string sample_hash) ≡ ok sample_hash
from_str-to_string_example = from_str-to_string sample_hash sample_hash-IsHash

from_str-plus_example :
    (from_str (prefix ++ (b'+' ∷ hex_char 5 ∷ to_hex (drop 1 sample_hash))) ≡ ok sample_hash)
    × (prefix ++ (b'+' ∷ hex_char 5 ∷ to_hex (drop 1 sample_hash)) ≢ to_string sample_hash)
from_str-plus_example = from_str-plus 5 (drop 1 sample_hash) sample_hash-IsHash (omega arith)

abbrev stamps : List ℤ
stamps = pos 300 ∷ pos 200 ∷ pos 100 ∷ []

retained_examples :
    (retained_prefix_len (latest 2) stamps ≡ 2)
    × (retained_prefix_len (latest 0) stamps ≡ 1)
    × (retained_prefix_len (since (pos 150)) stamps ≡ 2)
    × (retained_prefix_len (since (pos 999)) stamps ≡ 1)
unfolding retained_prefix_len rposition
retained_examples = (refl, refl, refl, refl)

since_boundary_example : IsBoundary (pos 150) stamps (retained_prefix_len (since (pos 150)) stamps)
since_boundary_example = since_boundary (pos 150) stamps
