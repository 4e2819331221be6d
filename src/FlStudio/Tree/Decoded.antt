-- ===== src/FlStudio/Tree/Decoded.antt =====
-- What `Stream::decode` of crates/auru-pm-kernel/src/flstudio/events.rs gives, as the input of
-- `to_document` of tree.rs.
use auru_pm_core.FlStudio.Events.RoundTrip.{payload_len-variable, payload_len-fixed}
use mathlib.Core.Path.{subst}
use auru_pm_core.Prelude.{
  err, ok, List, ℕ, Option, Result, ◌≡◌, All, take, drop, some, ◌∷◌, none, suc, ensure-eq-ok, refl,
  zero, >>=-eq-ok, [], Bool-cases, ltb, inl, inr, ap, ◌+◌, ◌%◌, sym, ◌*◌, ◌^◌, ◌∙◌, leb, length,
  ◌<◌, true, ◌≤◌, length-take_le, arith, text_eq, ◌==◌, err-ok, ok-injective,
}
use auru_pm_core.FlStudio.Varint.{
  Error, read_from, read_varint, chunk_overflow, too_large, mid_chunk, missing_header,
  bad_header_len, no_data_chunk,
}
use auru_pm_core.FlStudio.Events.{
  Event, Stream, Reader, reader_take, take_u16, take_u32, payload_len, fixed_len, cons_event,
  decode_loop, decode_events, decode, from_le_bytes, or_ends_before, usize_max, max_flp_bytes,
  header_magic, header_len, data_magic,
}
use auru_pm_core.FlStudio.Tree.{Base64, from_document, to_document}
use auru_pm_core.FlStudio.Tree.Elements.{IsByte, HasWidth, IsEvent, IsLossless}
use auru_pm_core.FlStudio.Tree.RoundTrip.{IsStream, from_document-to_document}

abbrev AreBytes : List ℕ → Type 0
AreBytes = All IsByte

take-AreBytes : (n : ℕ) (bs : List ℕ) → AreBytes bs → AreBytes (take n bs)
take-AreBytes zero bs h = tt
take-AreBytes (suc n) [] h = tt
take-AreBytes (suc n) (b ∷ bs) h = (h.0, take-AreBytes n bs h.1)

drop-AreBytes : (n : ℕ) (bs : List ℕ) → AreBytes bs → AreBytes (drop n bs)
drop-AreBytes zero bs h = h
drop-AreBytes (suc n) [] h = tt
drop-AreBytes (suc n) (b ∷ bs) h = drop-AreBytes n bs h.1

read_from-AreBytes :
    (value shift : ℕ) (bs : List ℕ) {n : ℕ} {rest : List ℕ}
    → read_from value shift bs ≡ ok (n, rest)
    → AreBytes bs
    → AreBytes rest
unfolding read_from
read_from-AreBytes value shift [] e h = cc
read_from-AreBytes value shift (b ∷ bs) {n} {rest} e h = elim (Bool-cases (ltb 28 shift)) [
  | inl long ↦ err-ok (rw long at e)
  | inr short ↦ elim (Bool-cases (ltb b 128)) [
    | inl last ↦ subst AreBytes (ap (λ p. p.1) (ok-injective (rw (short, last) at e))) h.1
    | inr more ↦
        read_from-AreBytes (value + b % 128 * 2 ^ shift) (shift + 7) bs (rw (short, more) at e) h.1
  ]
]

WidthIs : Option ℕ → ℕ → Type 0
WidthIs none len = Unit
WidthIs (some width) len = len ≡ width

payload_len-WidthIs :
    (id : ℕ) (body : List ℕ) (width : Option ℕ) {len : ℕ} {rest : List ℕ}
    → fixed_len id ≡ width
    → payload_len id body ≡ ok (len, rest)
    → AreBytes body
    → AreBytes rest × WidthIs width len
unfolding payload_len WidthIs read_varint
payload_len-WidthIs id body none f e h =
    (read_from-AreBytes 0 0 body (sym (payload_len-variable id body f) ∙ e) h, tt)
payload_len-WidthIs id body (some width) f e h =
    let same = ok-injective (sym (payload_len-fixed id body f) ∙ e) in
    (subst AreBytes (ap (λ p. p.1) same) h, sym (ap (λ p. p.0) same))

cons_event-eq-ok :
    (e : Event) (r : Result Error (List Event)) {es : List Event}
    → cons_event e r ≡ ok es
    → (rest : List Event) × ((r ≡ ok rest) × (e ∷ rest ≡ es))
cons_event-eq-ok e (ok rest) h = (rest, (refl, ok-injective h))
cons_event-eq-ok e (err x) h = cc

HasWidth-take :
    (width : Option ℕ) (len : ℕ) (rest : List ℕ)
    → WidthIs width len
    → leb len (length rest) ≡ true
    → HasWidth width (take len rest)
unfolding WidthIs
HasWidth-take none len rest w b = tt
HasWidth-take (some width) len rest w b = length-take_le len rest (ground (arith, b)) ∙ w

decode_loop-IsEvent :
    (fuel count : ℕ) (body : List ℕ) {events : List Event}
    → decode_loop fuel count body ≡ ok events
    → AreBytes body
    → All IsEvent events
unfolding decode_loop
decode_loop-IsEvent fuel count [] e h = subst (All IsEvent) (ok-injective e) tt
decode_loop-IsEvent zero count (id ∷ body) e h = cc
decode_loop-IsEvent (suc fuel) count (id ∷ body) {events} e h =
    let (fits, e1) = ensure-eq-ok _ _ _ e in
    let (lr, read, e2) = >>=-eq-ok (payload_len id body) _ e1 in
    let (inside, e3) = ensure-eq-ok _ _ _ e2 in
    let (later, (more, same)) = cons_event-eq-ok _ _ e3 in
    let (rest, width) = payload_len-WidthIs id body (fixed_len id) refl read h.1 in
    subst (All IsEvent) same (
      record {
        id_fits = h.0;
        bytes = take-AreBytes lr.0 lr.1 rest;
        width = HasWidth-take (fixed_len id) lr.0 lr.1 width inside;
      },
      decode_loop-IsEvent fuel (count + 1) (drop lr.0 lr.1) more (drop-AreBytes lr.0 lr.1 rest),
    )

length-take : (n : ℕ) (bs : List ℕ) → length (take n bs) ≤ n
length-take zero bs = omega arith
length-take (suc n) [] = omega arith
length-take (suc n) (b ∷ bs) = omega (arith, length-take n bs)

from_le_bytes_u16 : (bs : List ℕ) → AreBytes bs → length bs ≤ 2 → from_le_bytes bs < 2 ^ 16
unfolding from_le_bytes
from_le_bytes_u16 [] h b = omega arith
from_le_bytes_u16 (c ∷ []) h b = omega (arith, h.0)
from_le_bytes_u16 (c ∷ d ∷ []) h b = omega (arith, h.0, h.1.0)
from_le_bytes_u16 (c ∷ d ∷ e ∷ bs) h b = absurd (omega arith)

-- A reader that goes on over the same bytes.
record Reads (r : Reader) (taken : List ℕ × Reader) (n : ℕ) : Type 0 where
  same : taken.1.bytes ≡ r.bytes
  bytes : AreBytes r.bytes → AreBytes taken.0
  short : length taken.0 ≤ n

reader_take-Reads :
    (n : ℕ) (r : Reader) {taken : List ℕ × Reader} → reader_take n r ≡ ok taken → Reads r taken n
unfolding reader_take
reader_take-Reads n r {taken} e =
    let (near, e1) = ensure-eq-ok (leb (r.offset + n) usize_max) chunk_overflow _ e in
    let (inside, e2) = ensure-eq-ok (leb (r.offset + n) (length r.bytes)) mid_chunk _ e1 in
    let behind : Reader = record r { offset = r.offset + n } in
    let same : (take n (drop r.offset r.bytes), behind) ≡ taken = ok-injective e2 in
    subst (λ t. Reads r t n) same
      (record {
        same = refl;
        bytes = λ h. take-AreBytes n (drop r.offset r.bytes) (drop-AreBytes r.offset r.bytes h);
        short = length-take n (drop r.offset r.bytes);
      })

or_ends_before-eq-ok :
    {A : Type 0} (r : Result Error A) {a : A} → or_ends_before r ≡ ok a → r ≡ ok a
or_ends_before-eq-ok (ok x) e = ap (λ y. ok y) (ok-injective e)
or_ends_before-eq-ok (err x) e = err-ok e

take_u16_lt :
    (r : Reader) {read : ℕ × Reader}
    → take_u16 r ≡ ok read
    → AreBytes r.bytes
    → (read.0 < 2 ^ 16) × (AreBytes read.1.bytes)
unfolding take_u16
take_u16_lt r {read} e h =
    let (taken, got, e1) = >>=-eq-ok (or_ends_before (reader_take 2 r)) _ e in
    let reads = reader_take-Reads 2 r (or_ends_before-eq-ok (reader_take 2 r) got) in
    subst (λ p. (p.0 < 2 ^ 16) × (AreBytes p.1.bytes)) (ok-injective e1)
      (from_le_bytes_u16 taken.0 (reads.bytes h) reads.short, subst AreBytes (sym reads.same) h)

take_u32-AreBytes :
    (r : Reader) {read : ℕ × Reader}
    → take_u32 r ≡ ok read
    → AreBytes r.bytes
    → AreBytes read.1.bytes
unfolding take_u32
take_u32-AreBytes r {read} e h =
    let (taken, got, e1) = >>=-eq-ok (or_ends_before (reader_take 4 r)) _ e in
    let reads = reader_take-Reads 4 r (or_ends_before-eq-ok (reader_take 4 r) got) in
    subst (λ p. AreBytes p.1.bytes) (ok-injective e1) (subst AreBytes (sym reads.same) h)

-- In what the decoder gives for a file of bytes, the fields of the header fit in 16 bits,
-- identifiers and payloads are bytes, and each payload has the length that its identifier
-- implies, where it implies one.
pub decode-IsStream :
    (source : List ℕ) {s : Stream} → decode source ≡ ok s → All IsByte source → IsStream s
unfolding decode decode_events
decode-IsStream source {s} e h =
    let start : Reader = record { bytes = source; offset = 0 } in
    let (small, e1) = ensure-eq-ok (leb (length source) max_flp_bytes) too_large _ e in
    let (t1, read1, e2) = >>=-eq-ok (reader_take 4 start) _ e1 in
    let h1 = subst AreBytes (sym (reader_take-Reads 4 start read1).same) h in
    let (magic, e3) = ensure-eq-ok (text_eq t1.0 header_magic) missing_header _ e2 in
    let (t2, read2, e4) = >>=-eq-ok (take_u32 t1.1) _ e3 in
    let h2 = take_u32-AreBytes t1.1 read2 h1 in
    let (sized, e5) = ensure-eq-ok (t2.0 == header_len) (bad_header_len t2.0) _ e4 in
    let (t3, read3, e6) = >>=-eq-ok (take_u16 t2.1) _ e5 in
    let (format, h3) = take_u16_lt t2.1 read3 h2 in
    let (t4, read4, e7) = >>=-eq-ok (take_u16 t3.1) _ e6 in
    let (channels, h4) = take_u16_lt t3.1 read4 h3 in
    let (t5, read5, e8) = >>=-eq-ok (take_u16 t4.1) _ e7 in
    let (ppq, h5) = take_u16_lt t4.1 read5 h4 in
    let (t6, read6, e9) = >>=-eq-ok (reader_take 4 t5.1) _ e8 in
    let h6 = subst AreBytes (sym (reader_take-Reads 4 t5.1 read6).same) h5 in
    let (magic2, e10) = ensure-eq-ok (text_eq t6.0 data_magic) no_data_chunk _ e9 in
    let (t7, read7, e11) = >>=-eq-ok (take_u32 t6.1) _ e10 in
    let h7 = take_u32-AreBytes t6.1 read7 h6 in
    let (t8, read8, e12) = >>=-eq-ok (reader_take t7.0 t7.1) _ e11 in
    let body = (reader_take-Reads t7.0 t7.1 read8).bytes h7 in
    let (events, read9, e13) = >>=-eq-ok (decode_events t8.0) _ e12 in
    subst IsStream (ok-injective e13) (record {
      format = format;
      channels = channels;
      ppq = ppq;
      events = decode_loop-IsEvent (length t8.0) 0 t8.0 read9 body;
    })

-- If the base64 decoder undoes the encoder on bytes, every stream that the decoder gives for a
-- file of bytes is read back from its tree.
pub from_document-to_document-decode :
    (base64 : Base64) (source : List ℕ) (s : Stream)
    → IsLossless base64
    → All IsByte source
    → decode source ≡ ok s
    → from_document base64 (to_document base64 s) ≡ ok s
from_document-to_document-decode base64 source s l h e =
    from_document-to_document base64 s l (decode-IsStream source e h)
