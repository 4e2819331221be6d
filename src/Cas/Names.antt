-- ===== src/Cas/Names.antt =====
-- The paths of blobs and of temporary files in crates/auru-pm/src/cas.rs.
use auru_pm_core.Prelude.{
  ℕ, Text, List, text_eq, ◌≡◌, length, ◌≢◌, ◌<◌, All, codes, ◌==◌, some, some-injective, arith,
  length-append, false, ◌∷◌, sym, ap, ◌/◌, [], ◌∙◌, ◌%◌, refl,
}
use auru_pm_core.Cas.{path_for, hash_of, split_path, ends_with, tmp_for, parsed}
use auru_pm_core.Hash.{ContentHash, to_hex, hex_char, to_string}
use auru_pm_core.Hash.RoundTrip.{IsHash, from_str-to_string, length-to_hex}

hex_char-ne-slash : (n : ℕ) → n < 16 → (hex_char n == b'/') ≡ false
unfolding hex_char
hex_char-ne-slash n h = ground arith

hex_char-ne-dot : (n : ℕ) → n < 16 → (hex_char n == b'.') ≡ false
unfolding hex_char
hex_char-ne-dot n h = ground arith

abbrev NoDot : Text → Type 0
NoDot = All (λ k. (k == b'.') ≡ false)

to_hex-NoDot : (bs : List ℕ) → All (λ b. b < 256) bs → NoDot (to_hex bs)
unfolding to_hex
to_hex-NoDot [] h = tt
to_hex-NoDot (b ∷ bs) h = (
  hex_char-ne-dot (b / 16) (omega (arith, h.0)),
  (hex_char-ne-dot (b % 16) (omega arith), to_hex-NoDot bs h.1),
)

ends_with-NoDot : (s : Text) → NoDot s → ends_with (codes ".tmp") s ≡ false
unfolding text_eq
ends_with-NoDot [] h = refl
ends_with-NoDot (k ∷ s) h = rw (h.0, ends_with-NoDot s h.1)

split_at_slash :
    (a b : ℕ) (rest : Text)
    → (a == b'/') ≡ false
    → (b == b'/') ≡ false
    → split_path (a ∷ b ∷ b'/' ∷ rest) ≡ (a ∷ b ∷ [], rest)
split_at_slash a b rest ha hb = rw (ha, hb)

-- The path of a hash spells that hash.
pub hash_of-path_for : (h : ContentHash) → IsHash h → hash_of (path_for h) ≡ some h
unfolding hash_of path_for to_hex to_string
hash_of-path_for [] v = let never = v.size in absurd (omega arith)
hash_of-path_for (b ∷ bs) v =
    let high : b / 16 < 16 = omega (arith, v.bytes.0) in
    let low : b % 16 < 16 = omega arith in
    rw
      (
        hex_char-ne-slash (b / 16) high,
        hex_char-ne-slash (b % 16) low,
        ends_with-NoDot (to_hex bs) (to_hex-NoDot bs v.bytes.1),
      )
      (ap parsed (from_str-to_string (b ∷ bs) v))

-- Two hashes have two paths.
pub path_for-injective : (g h : ContentHash) → IsHash g → IsHash h → path_for g ≡ path_for h → g ≡ h
path_for-injective g h vg vh e =
    some-injective _ _ (sym (hash_of-path_for g vg) ∙ ap hash_of e ∙ hash_of-path_for h vh)

length-path_for : (h : ContentHash) → IsHash h → length (path_for h) ≡ 65
unfolding path_for to_hex
length-path_for [] v = let never = v.size in absurd (omega arith)
length-path_for (b ∷ bs) v = omega (arith, length-to_hex bs, v.size)

-- No temporary file has the path of a blob.
pub path_for-ne-tmp : (g h : ContentHash) → IsHash g → IsHash h → path_for g ≢ tmp_for (path_for h)
path_for-ne-tmp g h vg vh e =
    let longer = length-append (path_for h) (codes ".tmp") in
    let same = ap length e in
    omega (arith, longer, same, length-path_for g vg, length-path_for h vh)
