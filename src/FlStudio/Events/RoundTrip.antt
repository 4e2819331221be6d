-- ===== src/FlStudio/Events/RoundTrip.antt =====
-- `Stream::decode` after `Stream::encode`.
use mathlib.Core.Path.{subst}
use auru_pm_core.FlStudio.Events.Cursor.{IsAt, reader_take_lem, take_u32_lem, take_u16_lem}
use mathlib.Core.List.{append_assoc, append-nil}
use auru_pm_core.FlStudio.Varint.{write_varint, read_varint-write_varint, read_varint}
use auru_pm_core.Prelude.{
  ℕ, zero, suc, ◌+◌, ◌≤◌, ◌<◌, ◌≡◌, refl, List, [], ◌∷◌, ◌++◌, Option, some, none, ok, arith,
  length, All, ◌^◌, is_none, if◌then◌else◌, ap, lt→ltb, le→leb, length-append, take_append,
  drop_append, ◌∙◌, ◌/◌, text_eq, sym,
}
use auru_pm_core.FlStudio.Events.{
  Event, Stream, Header, fixed_len, is_variable, encode, decode, payload_len, encode_body,
  max_events, decode_loop, max_flp_bytes, Reader, header_magic, header_len, data_magic, to_le_bytes,
  decode_events, reader_take, take_u32, take_u16,
}

-- A payload of the length that the identifier implies; a variable one fits five groups.
abbrev pub FitsWidth : Option ℕ → List ℕ → Type 0
FitsWidth (some len) payload = length payload ≡ len
FitsWidth none payload = length payload < 2 ^ 35

abbrev pub FitsId : Event → Type 0
FitsId e = FitsWidth (fixed_len e.id) e.payload

-- The streams that a `.flp` can hold.
pub record IsEncodable (s : Stream) : Type 0 where
  pub format : s.header.format < 2 ^ 16
  pub channels : s.header.channels < 2 ^ 16
  pub ppq : s.header.ppq < 2 ^ 16
  pub payloads : All FitsId s.events
  pub count : length s.events ≤ max_events
  pub size : length (encode s) ≤ max_flp_bytes

pub is_variable_lem : (e : Event) → is_variable e ≡ is_none (fixed_len e.id)
unfolding is_variable fixed_len
is_variable_lem e = ground arith

-- The bytes between the identifier and the payload.
abbrev len_prefix : Event → List ℕ
len_prefix e = if is_variable e then write_varint (length e.payload) else []

len_prefix_lem :
    (e : Event) (w : Option ℕ)
    → fixed_len e.id ≡ w
    → len_prefix e ≡ (if is_none w then write_varint (length e.payload) else [])
len_prefix_lem e w h = rw (is_variable_lem e, h)

pub payload_len-fixed :
    (id : ℕ) (body : List ℕ) {len : ℕ}
    → fixed_len id ≡ some len
    → payload_len id body ≡ ok (len, body)
unfolding payload_len
payload_len-fixed id body h = rw (h, payload_len)

pub payload_len-variable :
    (id : ℕ) (body : List ℕ) → fixed_len id ≡ none → payload_len id body ≡ read_varint body
unfolding payload_len
payload_len-variable id body h = rw (h, payload_len)

payload_len_lem :
    (e : Event) (tail : List ℕ) (w : Option ℕ)
    → fixed_len e.id ≡ w
    → FitsWidth w e.payload
    → payload_len e.id (len_prefix e ++ (e.payload ++ tail))
      ≡ ok (length e.payload, e.payload ++ tail)
payload_len_lem e tail none h p =
    payload_len-variable e.id _ h
    ∙ rw (len_prefix_lem e none h)
        (read_varint-write_varint (length e.payload) (e.payload ++ tail) p)
payload_len_lem e tail (some w) h p =
    payload_len-fixed e.id _ h ∙ rw (len_prefix_lem e (some w) h, p)

decode_loop-encode_body :
    (fuel count : ℕ) (es : List Event)
    → All FitsId es
    → count + length es ≤ max_events
    → length (encode_body es) ≤ fuel
    → decode_loop fuel count (encode_body es) ≡ ok es
unfolding encode_body decode_loop
decode_loop-encode_body fuel count [] fits room h = refl
decode_loop-encode_body zero count (e ∷ es) fits room h = absurd (omega arith)
decode_loop-encode_body (suc fuel) count (e ∷ es) fits room h =
    let tail = encode_body es in
    let split = append_assoc (len_prefix e) e.payload tail in
    let sizes = ap (λ (l : List ℕ). length l) split in
    rw (
      lt→ltb count max_events (omega arith),
      split,
      payload_len_lem e tail (fixed_len e.id) refl fits.0,
      le→leb (length e.payload) (length (e.payload ++ tail))
          (omega (arith, length-append e.payload tail)),
      take_append e.payload tail,
      drop_append e.payload tail,
      decode_loop-encode_body fuel (count + 1) es fits.1 (omega arith) (
          omega (
            arith,
            sizes,
            length-append (len_prefix e) (e.payload ++ tail),
            length-append e.payload tail,
          )),
    )

length-to_le_bytes : (width n : ℕ) → length (to_le_bytes width n) ≡ width
unfolding to_le_bytes
length-to_le_bytes zero n = refl
length-to_le_bytes (suc width) n = ap suc (length-to_le_bytes width (n / 256))

length-encode : (s : Stream) → length (encode s) ≡ 22 + length (encode_body s.events)
unfolding encode to_le_bytes
length-encode s = omega arith

body_lt : (s : Stream) → IsEncodable s → length (encode_body s.events) < 2 ^ 32
body_lt s h = omega (arith, h.size, length-encode s)

-- `decode` from the results of its reads.
decode_steps :
    (source body : List ℕ) (events : List Event) (h : Header) (len : ℕ)
    (r1 r2 r3 r4 r5 r6 r7 r8 : Reader)
    → length source ≤ max_flp_bytes
    → reader_take 4 (record { bytes = source; offset = 0 }) ≡ ok (header_magic, r1)
    → take_u32 r1 ≡ ok (header_len, r2)
    → take_u16 r2 ≡ ok (h.format, r3)
    → take_u16 r3 ≡ ok (h.channels, r4)
    → take_u16 r4 ≡ ok (h.ppq, r5)
    → reader_take 4 r5 ≡ ok (data_magic, r6)
    → take_u32 r6 ≡ ok (len, r7)
    → reader_take len r7 ≡ ok (body, r8)
    → decode_events body ≡ ok events
    → decode source ≡ ok (record { header = h; events = events })
unfolding decode text_eq
decode_steps source body events h len r1 r2 r3 r4 r5 r6 r7 r8 size e1 e2 e3 e4 e5 e6 e7 e8 e9 =
    rw (le→leb (length source) max_flp_bytes size, e1, e2, e3, e4, e5, e6, e7, e8, e9)

-- A stream whose fields fit their widths and whose file is within the size and event limits is
-- read back from what is written for it.
pub decode-encode : (s : Stream) → IsEncodable s → decode (encode s) ≡ ok s
unfolding encode decode_events
decode-encode s h =
    let body = encode_body s.events in
    let small : length body < 2 ^ 32 = body_lt s h in
    let start : Reader = record { bytes = encode s; offset = 0 } in
    let at0 : IsAt (encode s) start = record {
      left = refl;
      inside = omega arith;
      fits = omega (arith, h.size);
    } in
    let (r1, e1, at1) = reader_take_lem header_magic _ start at0 in
    let (r2, e2, at2) = take_u32_lem header_len _ r1 (omega arith) at1 in
    let (r3, e3, at3) = take_u16_lem s.header.format _ r2 h.format at2 in
    let (r4, e4, at4) = take_u16_lem s.header.channels _ r3 h.channels at3 in
    let (r5, e5, at5) = take_u16_lem s.header.ppq _ r4 h.ppq at4 in
    let (r6, e6, at6) = reader_take_lem data_magic _ r5 at5 in
    let (r7, e7, at7) = take_u32_lem (length body) _ r6 small at6 in
    let at7' = subst (λ l. IsAt l r7) (sym (append-nil body)) at7 in
    let (r8, e8, at8) = reader_take_lem body [] r7 at7' in
    decode_steps (encode s) body s.events s.header (length body) r1 r2 r3 r4 r5 r6 r7 r8 h.size e1
      e2 e3 e4 e5 e6 e7 e8
      (decode_loop-encode_body (length body) 0 s.events h.payloads (omega (arith, h.count))
        (omega arith))
