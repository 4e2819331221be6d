-- ===== src/Hash.antt =====
-- `ContentHash` of crates/auru-pm-kernel/src/hash.rs: its text form and the parser. A hash is its
-- list of 32 bytes; BLAKE3 itself is a parameter where it is used.
pub mod RoundTrip
use auru_pm_core.Prelude.{
  ℕ, zero, suc, ◌+◌, ◌-◌, ◌*◌, ◌/◌, ◌%◌, List, [], ◌∷◌, ◌++◌, Text, codes, Option, some, none,
  Result, ok, err, ensure, ◌>>=◌, ◌>>◌, length, leb, ◌==◌, ◌&&◌, if◌then◌else◌, drop, take, text_eq,
}

abbrev pub ContentHash : Type 0
ContentHash = List ℕ

-- `ContentHash::ZERO`
abbrev pub zero_hash : ContentHash
zero_hash = zeros 32
  where
    zeros : ℕ → List ℕ
    zeros zero = []
    zeros (suc n) = 0 ∷ zeros n

pub data ParseHashError : Type 0 where
  bad_prefix bad_hex : ParseHashError
  bad_length : ℕ → ParseHashError

abbrev pub prefix : Text
prefix = codes "blake3:"

-- One lower-case hexadecimal digit.
unfoldable pub hex_char : ℕ → ℕ
hex_char n = if leb n 9 then b'0' + n else b'a' + (n - 10)

-- `{b:02x}` for each byte.
unfoldable pub to_hex : List ℕ → Text
unfolding hex_char
to_hex [] = []
to_hex (b ∷ bs) = hex_char (b / 16) ∷ hex_char (b % 16) ∷ to_hex bs

-- `Display for ContentHash`
unfoldable pub to_string : ContentHash → Text
unfolding to_hex
to_string h = prefix ++ to_hex h

-- A digit as `u8::from_str_radix(_, 16)` reads it, in either case.
unfoldable pub hex_digit : ℕ → Option ℕ
hex_digit c =
    if leb b'0' c && leb c b'9'
    then some (c - b'0')
    else if leb b'a' c && leb c b'f'
    then some (c - b'a' + 10)
    else if leb b'A' c && leb c b'F'
    then some (c - b'A' + 10)
    else none

abbrev pub pair_value : Option ℕ → Option ℕ → Result ParseHashError ℕ
pair_value (some a) (some b) = ok (a * 16 + b)
pair_value _ _ = err bad_hex

-- `u8::from_str_radix(s, 16)` on the two bytes of `s`: it takes a leading `+`, as the standard
-- library documents. Every error becomes `BadHex`, that of `from_utf8` included: a byte above
-- 127 is no digit.
unfoldable pub hex_pair : ℕ → ℕ → Result ParseHashError ℕ
unfolding hex_digit
hex_pair a b =
    if a == b'+' then pair_value (some 0) (hex_digit b) else pair_value (hex_digit a) (hex_digit b)

abbrev pub cons_byte :
    Result ParseHashError ℕ → Result ParseHashError (List ℕ) → Result ParseHashError (List ℕ)
cons_byte (ok b) (ok bs) = ok (b ∷ bs)
cons_byte (ok b) (err e) = err e
cons_byte (err e) rest = err e

-- The loop over `chunks(2)`; a last chunk of one byte does not occur, the length is 64.
unfoldable pub hex_pairs : Text → Result ParseHashError (List ℕ)
unfolding hex_pair
hex_pairs (a ∷ b ∷ rest) = cons_byte (hex_pair a b) (hex_pairs rest)
hex_pairs _ = ok []

-- `strip_prefix`
abbrev pub strip_prefix : Text → Text → Option Text
strip_prefix p s = if text_eq (take (length p) s) p then some (drop (length p) s) else none

-- `FromStr for ContentHash`, after and with the `strip_prefix`.
unfoldable pub from_hex : Option Text → Result ParseHashError ContentHash
from_hex none = err bad_prefix
from_hex (some hex) = do ensure (length hex == 64) (bad_length (length hex)); hex_pairs hex

unfoldable pub from_str : Text → Result ParseHashError ContentHash
unfolding from_hex hex_pairs
from_str s = from_hex (strip_prefix prefix s)
