-- ===== src/FlStudio/Texts.antt =====
-- The text of events in crates/auru-pm-kernel/src/flstudio/events.rs: `decode_ascii`,
-- `decode_utf16` and the version that chooses between them. A text is its characters.
use auru_pm_core.FlStudio.Events.{Event, Stream}
use auru_pm_core.Prelude.{
  ℕ, Text, List, [], ◌∷◌, Option, some, none, if◌then◌else◌, ◌==◌, leb, ltb, ◌&&◌, Bool, true, ◌+◌,
  ◌*◌, ◌-◌, ◌/◌, ◌%◌,
}
use auru_pm_core.Prelude.Decimal.{parse_unsigned}

abbrev pub event_version : ℕ
event_version = 199

-- `position` of the first byte that passes and the slice before it, and `take_while`.
unfoldable pub until : ℕ → List ℕ → List ℕ
until stop [] = []
until stop (b ∷ bs) = let before = until stop bs in if b == stop then [] else b ∷ before

unfoldable pub decode_ascii : List ℕ → Text
unfolding until
decode_ascii payload = until 0 payload

-- `chunks_exact(2)` as little-endian numbers: a last byte alone is left out.
unfoldable pub utf16_units : List ℕ → List ℕ
utf16_units [] = []
utf16_units (a ∷ []) = []
utf16_units (a ∷ b ∷ bs) = (a + 256 * b) ∷ utf16_units bs

abbrev pub is_high : ℕ → Bool
is_high u = leb 0xD800 u && ltb u 0xDC00

abbrev pub is_low : ℕ → Bool
is_low u = leb 0xDC00 u && ltb u 0xE000

-- `String::from_utf16_lossy`: a surrogate outside a pair becomes the replacement character.
abbrev pub lossy_char : ℕ → ℕ
lossy_char u = if leb 0xD800 u && ltb u 0xE000 then 0xFFFD else u

unfoldable pub from_utf16_lossy : List ℕ → Text
from_utf16_lossy [] = []
from_utf16_lossy (u ∷ []) = lossy_char u ∷ []
from_utf16_lossy (u ∷ v ∷ us) =
    let behind_pair = from_utf16_lossy us in
    let behind_unit = from_utf16_lossy (v ∷ us) in
    if is_high u && is_low v
    then (0x10000 + ((u - 0xD800) * 1024 + (v - 0xDC00))) ∷ behind_pair
    else lossy_char u ∷ behind_unit

-- `str::encode_utf16`
unfoldable pub encode_utf16 : Text → List ℕ
encode_utf16 [] = []
encode_utf16 (c ∷ s) =
    if ltb c 0x10000
    then c ∷ encode_utf16 s
    else (0xD800 + (c - 0x10000) / 1024) ∷ (0xDC00 + (c - 0x10000) % 1024) ∷ encode_utf16 s

unfoldable pub decode_utf16 : List ℕ → Text
unfolding until utf16_units from_utf16_lossy
decode_utf16 payload = from_utf16_lossy (until 0 (utf16_units payload))

unfoldable pub find_event : ℕ → List Event → Option Event
find_event id [] = none
find_event id (e ∷ es) = if e.id == id then some e else find_event id es

unfoldable pub version : Stream → Option Text
unfolding find_event decode_ascii
version stream = elim (find_event event_version stream.events) [
  | none ↦ none
  | some event ↦ some (decode_ascii event.payload)
]

abbrev pub u32_max : ℕ
u32_max = 4294967295

-- The part before the first dot, read as a `u32`.
unfoldable pub major_version : Stream → Option ℕ
unfolding version until parse_unsigned
major_version stream = elim (version stream) [
  | none ↦ none
  | some text ↦ parse_unsigned u32_max (until b'.' text)
]

abbrev pub uses_utf16 : Option ℕ → Bool
uses_utf16 none = true
uses_utf16 (some major) = leb 12 major
