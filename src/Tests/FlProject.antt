-- ===== src/Tests/FlProject.antt =====
-- A small `.flp` through the encoder and the decoder.
use auru_pm_core.FlStudio.Tree.RoundTrip.{IsStream}
use auru_pm_core.Prelude.Order.{text_ltb}
use auru_pm_core.FlStudio.Tree.Decoded.{from_document-to_document-decode, decode-IsStream}
use auru_pm_core.FlStudio.Tree.Elements.{IsByte}
use auru_pm_core.FlStudio.Tree.{Base64, from_document, to_document, opened, event_element}
use auru_pm_core.FlStudio.Events.RoundTrip.{IsEncodable, decode-encode}
use auru_pm_core.FlStudio.Varint.{write_varint, read_varint, read_varint-write_varint, mid_chunk}
use auru_pm_core.Prelude.{
  codes, List, ◌≡◌, ◌∷◌, ℕ, ok, ◌++◌, [], text_eq, refl, arith, take, err, All, some,
}
use auru_pm_core.FlStudio.Events.{
  Stream, encode, decode, take_u16, take_u32, fixed_len, decode_events, decode_loop, payload_len,
}

abbrev song : Stream
song = record {
  header = record { format = 0; channels = 2; ppq = 96 };
  events =
      record { id = 199; payload = codes "20.5" }
      ∷ record { id = 64; payload = 1 ∷ 0 ∷ [] }
      ∷ record { id = 20; payload = 7 ∷ [] }
      ∷ [];
}

abbrev song_bytes : List ℕ
song_bytes =
    codes "FLhd"
    ++ (6 ∷ 0 ∷ 0 ∷ 0 ∷ 0 ∷ 0 ∷ 2 ∷ 0 ∷ 96 ∷ 0 ∷ [])
    ++ (codes "FLdt" ++ (11 ∷ 0 ∷ 0 ∷ 0 ∷ 199 ∷ 4 ∷ codes "20.5" ++ (64 ∷ 1 ∷ 0 ∷ 20 ∷ 7 ∷ [])))

song_encoded : encode song ≡ song_bytes
unfolding encode write_varint
song_encoded = refl

song_decoded : decode song_bytes ≡ ok song
unfolding decode take_u16 take_u32 text_eq decode_events decode_loop payload_len fixed_len
    read_varint
song_decoded = refl

truncated : decode (take 30 song_bytes) ≡ err mid_chunk
unfolding decode take_u16 take_u32 text_eq decode_events decode_loop payload_len fixed_len
    read_varint
truncated = refl

song-IsEncodable : IsEncodable song
unfolding encode write_varint fixed_len
song-IsEncodable = record {
  format = omega arith;
  channels = omega arith;
  ppq = omega arith;
  payloads = omega arith;
  count = omega arith;
  size = omega arith;
}

decode-encode_example : decode (encode song) ≡ ok song
decode-encode_example = decode-encode song song-IsEncodable

read_varint-write_varint_example : read_varint (write_varint 300 ++ 9 ∷ []) ≡ ok (300, 9 ∷ [])
read_varint-write_varint_example = read_varint-write_varint 300 (9 ∷ []) (omega arith)

-- An encoder and a decoder of base64 that undo each other.
abbrev plain_base64 : Base64
plain_base64 = record { encode = λ payload. payload; decode = λ s. some s }

song_tree : from_document plain_base64 (to_document plain_base64 song) ≡ ok song
unfolding from_document to_document text_ltb opened event_element
song_tree = refl

song_bytes-IsByte : All IsByte song_bytes
song_bytes-IsByte = omega arith

from_document-to_document-decode_example :
    from_document plain_base64 (to_document plain_base64 song) ≡ ok song
from_document-to_document-decode_example =
    from_document-to_document-decode plain_base64 song_bytes song (λ payload h. refl)
      song_bytes-IsByte song_decoded

decode-IsStream_example : IsStream song
decode-IsStream_example = decode-IsStream song_bytes song_decoded song_bytes-IsByte
