-- ===== src/FlStudio/Events.antt =====
-- The `.flp` container of crates/auru-pm-kernel/src/flstudio/events.rs: the header, the event
-- stream, `Stream::decode` and `Stream::encode`. A byte is a number below 256; `format`, an `i16`,
-- is its bit pattern, which is what `as i16` and `to_le_bytes` keep.
pub mod Cursor
pub mod RoundTrip
use auru_pm_core.Prelude.{
  ◌>>◌, ℕ, zero, suc, ◌+◌, ◌*◌, ◌/◌, ◌%◌, ◌^◌, List, [], ◌∷◌, ◌++◌, length, take, drop, ltb, leb,
  ◌==◌, if◌then◌else◌, Result, ok, err, Option, none, some, Bool, text_eq, Text, codes, ◌>>=◌, ◌-◌,
  ensure,
}
use auru_pm_core.FlStudio.Varint.{
  Error, too_large, missing_header, no_data_chunk, chunk_overflow, mid_chunk, too_many_events,
  out_of_fuel, ends_before, bad_header_len, event_overrun, read_varint, write_varint,
}

abbrev pub header_magic : Text
header_magic = codes "FLhd"

abbrev pub data_magic : Text
data_magic = codes "FLdt"

abbrev pub header_len : ℕ
header_len = 6

abbrev pub max_flp_bytes : ℕ
max_flp_bytes = 512 * 1024 * 1024

abbrev pub max_events : ℕ
max_events = 4_000_000

abbrev pub first_variable_event : ℕ
first_variable_event = 192

-- The largest `usize`.
abbrev pub usize_max : ℕ
usize_max = 2 ^ 64 - 1

pub record Header : Type 0 where
  pub format : ℕ
  pub channels : ℕ
  pub ppq : ℕ

pub record Event : Type 0 where
  pub id : ℕ
  pub payload : List ℕ

-- `Event::fixed_len`: the ranges of the identifier in the order of the `match`.
unfoldable pub fixed_len : ℕ → Option ℕ
fixed_len id =
    if leb id 63 then some 1 else if leb id 127 then some 2 else if leb id 191 then some 4 else none

unfoldable pub is_variable : Event → Bool
is_variable event = leb first_variable_event event.id

-- A little-endian number from its bytes.
unfoldable pub from_le_bytes : List ℕ → ℕ
from_le_bytes [] = 0
from_le_bytes (b ∷ bs) = b + 256 * from_le_bytes bs

-- `Event::as_u32`: the payload, at most four bytes, is padded with zeros above.
unfoldable pub as_u32 : Event → Option ℕ
unfolding is_variable from_le_bytes
as_u32 event = if is_variable event then none else some (from_le_bytes event.payload)

pub record Stream : Type 0 where
  pub header : Header
  pub events : List Event

pub record Reader : Type 0 where
  pub bytes : List ℕ
  pub offset : ℕ

-- `Reader::take`: the checked addition, the bounds check, the slice and the new cursor.
unfoldable pub reader_take : ℕ → Reader → Result Error (List ℕ × Reader)
reader_take len r = do
  let end = r.offset + len
  ensure (leb end usize_max) chunk_overflow
  ensure (leb end (length r.bytes)) mid_chunk
  ok (take len (drop r.offset r.bytes), record r { offset = end })

-- `map_err(|_| ...)`: every error becomes the one that names the field.
abbrev pub or_ends_before {ℓ} : {A : Type ℓ} → Result Error A → Result Error A
or_ends_before (ok a) = ok a
or_ends_before (err e) = err ends_before

unfoldable pub take_u16 : Reader → Result Error (ℕ × Reader)
unfolding reader_take from_le_bytes
take_u16 r = do (bytes, r') ← or_ends_before (reader_take 2 r); ok (from_le_bytes bytes, r')

unfoldable pub take_u32 : Reader → Result Error (ℕ × Reader)
unfolding reader_take from_le_bytes
take_u32 r = do (bytes, r') ← or_ends_before (reader_take 4 r); ok (from_le_bytes bytes, r')

-- The length of the event's payload, and the bytes behind the length.
unfoldable pub payload_len : ℕ → List ℕ → Result Error (ℕ × List ℕ)
payload_len id body = elim (fixed_len id) [ some len ↦ ok (len, body) | none ↦ read_varint body ]

abbrev pub cons_event : Event → Result Error (List Event) → Result Error (List Event)
cons_event e (ok es) = ok (e ∷ es)
cons_event e (err x) = err x

-- The `while` loop of `decode_events`, with the number of events so far. Each round takes at least
-- the identifier off `body`, so the length of `body` is fuel enough.
unfoldable pub decode_loop : ℕ → ℕ → List ℕ → Result Error (List Event)
decode_loop fuel count [] = ok []
decode_loop zero count (id ∷ body) = err out_of_fuel
decode_loop (suc fuel) count (id ∷ body) = do
  ensure (ltb count max_events) too_many_events
  (len, rest) ← payload_len id body
  let more = decode_loop fuel (count + 1) (drop len rest)
  ensure (leb len (length rest)) (event_overrun id len (length rest))
  cons_event (record { id = id; payload = take len rest }) more

unfoldable pub decode_events : List ℕ → Result Error (List Event)
unfolding decode_loop
decode_events body = decode_loop (length body) 0 body

unfoldable pub decode : List ℕ → Result Error Stream
decode source = do
  ensure (leb (length source) max_flp_bytes) too_large
  (magic, r1) ← reader_take 4 (record { bytes = source; offset = 0 })
  ensure (text_eq magic header_magic) missing_header
  (len, r2) ← take_u32 r1
  ensure (len == header_len) (bad_header_len len)
  (format, r3) ← take_u16 r2
  (channels, r4) ← take_u16 r3
  (ppq, r5) ← take_u16 r4
  (magic2, r6) ← reader_take 4 r5
  ensure (text_eq magic2 data_magic) no_data_chunk
  (data_len, r7) ← take_u32 r6
  (body, r8) ← reader_take data_len r7
  events ← decode_events body
  ok (record {
    header = record { format = format; channels = channels; ppq = ppq };
    events = events;
  })

-- `u16::to_le_bytes` and `u32::to_le_bytes`: `as u32` drops what is above 32 bits.
unfoldable pub to_le_bytes : ℕ → ℕ → List ℕ
to_le_bytes zero n = []
to_le_bytes (suc width) n = n % 256 ∷ to_le_bytes width (n / 256)

unfoldable pub encode_event : Event → List ℕ
unfolding is_variable
encode_event event =
    event.id
    ∷ ((if is_variable event then write_varint (length event.payload) else []) ++ event.payload)

unfoldable pub encode_body : List Event → List ℕ
unfolding encode_event
encode_body [] = []
encode_body (event ∷ events) = encode_event event ++ encode_body events

unfoldable pub encode : Stream → List ℕ
unfolding encode_body to_le_bytes
encode s =
    let body = encode_body s.events in
    header_magic
    ++ (to_le_bytes 4 header_len
        ++ (to_le_bytes 2 s.header.format
            ++ (to_le_bytes 2 s.header.channels
                ++ (to_le_bytes 2 s.header.ppq
                    ++ (data_magic ++ (to_le_bytes 4 (length body) ++ body))))))
