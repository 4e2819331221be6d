-- ===== src/Hash/RoundTrip.antt =====
-- The text of a hash is read back, and what else is read.
use mathlib.Core.Path.{subst}
use auru_pm_core.Prelude.{
  ℕ, suc, ◌*◌, ◌<◌, ◌≡◌, refl, ◌∷◌, ok, arith, length, All, ◌==◌, List, text_eq, some, false, ◌/◌,
  ==_iff, [], ◌%◌, ap, ◌++◌, ◌≢◌, Text, get_elem?, Result, Bool-cases, ◌∙◌, inl, err, inr, Option,
  none, sym,
}
use auru_pm_core.Hash.{
  hex_char, to_hex, to_string, from_str, ContentHash, hex_digit, hex_pair, hex_pairs, prefix,
  ParseHashError, cons_byte, from_hex, strip_prefix,
}

-- 32 bytes.
pub record IsHash (h : ContentHash) : Type 0 where
  pub bytes : All (λ b. b < 256) h
  pub size : length h ≡ 32

hex_digit-hex_char : (n : ℕ) → n < 16 → hex_digit (hex_char n) ≡ some n
unfolding hex_digit hex_char
hex_digit-hex_char n h = ground arith

hex_char-ne-plus : (n : ℕ) → n < 16 → (hex_char n == b'+') ≡ false
unfolding hex_char
hex_char-ne-plus n h = ground arith

hex_pair-byte : (b : ℕ) → b < 256 → hex_pair (hex_char (b / 16)) (hex_char (b % 16)) ≡ ok b
unfolding hex_pair
hex_pair-byte b h =
    let high : b / 16 < 16 = omega arith in
    let low : b % 16 < 16 = omega arith in
    rw
      (
        hex_char-ne-plus (b / 16) high,
        hex_digit-hex_char (b / 16) high,
        hex_digit-hex_char (b % 16) low,
      )
      (ap (λ k. ok k) (omega arith))

hex_pairs-to_hex : (bs : List ℕ) → All (λ b. b < 256) bs → hex_pairs (to_hex bs) ≡ ok bs
unfolding hex_pairs to_hex
hex_pairs-to_hex [] h = refl
hex_pairs-to_hex (b ∷ bs) h = rw (hex_pair-byte b h.0, hex_pairs-to_hex bs h.1)

pub length-to_hex : (bs : List ℕ) → length (to_hex bs) ≡ 2 * length bs
unfolding to_hex
length-to_hex [] = refl
length-to_hex (b ∷ bs) = omega (arith, length-to_hex bs)

-- The text of 32 bytes is read back as them.
pub from_str-to_string : (h : ContentHash) → IsHash h → from_str (to_string h) ≡ ok h
unfolding from_str to_string text_eq
from_str-to_string h v =
    rw ((==_iff (length (to_hex h)) 64).1 (omega (arith, length-to_hex h, v.size)))
      (hex_pairs-to_hex h v.bytes)

some_plus-ne : (n : ℕ) → n < 16 → some b'+' ≡ some (hex_char n) → ⊥
some_plus-ne n h e = ground (arith, hex_char-ne-plus n h)

plus_pairs :
    (b : ℕ) (bs : List ℕ)
    → b < 16
    → All (λ c. c < 256) bs
    → hex_pairs (b'+' ∷ hex_char b ∷ to_hex bs) ≡ ok (b ∷ bs)
unfolding hex_pairs hex_pair
plus_pairs b bs h v =
    rw (hex_digit-hex_char b h, hex_pairs-to_hex bs v) (ap (λ k. ok (k ∷ bs)) (omega arith))

-- For a hash whose first byte is below 16, the text with a plus sign in the place of the leading
-- zero is another text that the parser reads as the same hash.
pub from_str-plus :
    (b : ℕ) (bs : List ℕ)
    → IsHash (b ∷ bs)
    → b < 16
    → (from_str (prefix ++ (b'+' ∷ hex_char b ∷ to_hex bs)) ≡ ok (b ∷ bs))
      × (prefix ++ (b'+' ∷ hex_char b ∷ to_hex bs) ≢ to_string (b ∷ bs))
unfolding from_str to_string to_hex text_eq
from_str-plus b bs v h = (
  rw
      ((==_iff (length (b'+' ∷ hex_char b ∷ to_hex bs)) 64).1
        (omega (arith, length-to_hex bs, v.size)))
      (plus_pairs b bs h v.bytes.1),
  λ e. some_plus-ne (b / 16) (omega arith) (ap (λ (t : Text). get_elem? t 7) e),
)

hex_pair-bound : (a b : ℕ) {n : ℕ} → hex_pair a b ≡ ok n → n < 256
unfolding hex_pair hex_digit
hex_pair-bound a b h = ground arith

-- `n` bytes.
abbrev AreBytes : ℕ → List ℕ → Type 0
AreBytes n bs = All (λ b. b < 256) bs × (length bs ≡ n)

cons_byte_valid :
    (r : Result ParseHashError ℕ) (rs : Result ParseHashError (List ℕ)) (n : ℕ) (bs : List ℕ)
    → ((b : ℕ) → r ≡ ok b → b < 256)
    → ((cs : List ℕ) → rs ≡ ok cs → AreBytes n cs)
    → cons_byte r rs ≡ ok bs
    → AreBytes (suc n) bs
cons_byte_valid (ok b) (ok cs) n bs low rest h =
    let e : b ∷ cs ≡ bs = cc in
    let (all_low, len) = rest cs refl in
    subst (AreBytes (suc n)) e ((low b refl, all_low), ap suc len)
cons_byte_valid (ok b) (err x) n bs low rest h = cc
cons_byte_valid (err x) rs n bs low rest h = cc

hex_pairs_valid : (s : Text) (bs : List ℕ) → hex_pairs s ≡ ok bs → AreBytes (length s / 2) bs
unfolding hex_pairs
hex_pairs_valid [] bs h = let e : [] ≡ bs = cc in subst (AreBytes 0) e (tt, refl)
hex_pairs_valid (a ∷ []) bs h = let e : [] ≡ bs = cc in subst (AreBytes 0) e (tt, refl)
hex_pairs_valid (a ∷ b ∷ rest) bs h =
    let half : suc (length rest / 2) ≡ suc (suc (length rest)) / 2 = omega arith in
    subst (λ n. AreBytes n bs) half
      (cons_byte_valid (hex_pair a b) (hex_pairs rest) (length rest / 2) bs
        (λ n e. hex_pair-bound a b e) (hex_pairs_valid rest) h)

from_hex-ok :
    (o : Option Text) (h : ContentHash)
    → from_hex o ≡ ok h
    → (hex : Text) × (hex_pairs hex ≡ ok h) × (length hex ≡ 64)
unfolding from_hex
from_hex-ok none h e = cc
from_hex-ok (some hex) h e = elim (Bool-cases (length hex == 64)) [
  | inl l ↦ (hex, rw l at e, (==_iff (length hex) 64).0 l)
  | inr l ↦ let never = rw l at e in cc
]

-- What the parser accepts is 32 bytes.
pub from_str-IsHash : (s : Text) (h : ContentHash) → from_str s ≡ ok h → IsHash h
unfolding from_str
from_str-IsHash s h e =
    let (hex, pairs, size) = from_hex-ok (strip_prefix prefix s) h e in
    let (low, len) = hex_pairs_valid hex h pairs in record { bytes = low; size = len ∙ rw size }

ok-injective :
    (g h : ContentHash) → ◌≡◌ {A = Result ParseHashError ContentHash} (ok g) (ok h) → g ≡ h
ok-injective g h e = cc

-- Two hashes have two texts.
pub to_string-injective :
    (g h : ContentHash) → IsHash g → IsHash h → to_string g ≡ to_string h → g ≡ h
to_string-injective g h vg vh e =
    ok-injective g h (sym (from_str-to_string g vg) ∙ ap from_str e ∙ from_str-to_string h vh)
