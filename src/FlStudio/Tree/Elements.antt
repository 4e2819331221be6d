-- ===== src/FlStudio/Tree/Elements.antt =====
-- The element of an event, read back: `decode_event` after `encode_event` of
-- crates/auru-pm-kernel/src/flstudio/tree.rs.
use auru_pm_core.FlStudio.Events.RoundTrip.{is_variable_lem}
use auru_pm_core.Prelude.Decimal.{decimal, parse_unsigned-decimal, parse_unsigned}
use auru_pm_core.Prelude.{
  ℕ, Option, ◌<◌, List, Text, All, ◌≡◌, some, length, ◌≤◌, take, arith, none, ◌∷◌, [], suc, ◌+◌,
  ◌*◌, ◌%◌, ◌/◌, refl, zero, Bool-cases, Bool, codes, lookup, text_eq, any, ok, inl, text_eq_iff,
  ◌==◌, ◌∙◌, inr, sym, ap,
}
use auru_pm_core.FlStudio.Events.{Event, fixed_len, as_u32, to_le_bytes, from_le_bytes}
use auru_pm_core.FlStudio.Texts.{u32_max}
use auru_pm_core.FlStudio.Tree.{
  Base64, XmlElement, xml_element, no_more, Attributes, encode_text, readable_text, lossless,
  decoded_text, text_events, text_attributes, payload_attributes, event_element, parse_attribute,
  variable_event, decode_event, event_tag, attributes_of, event_of_width, or_unreadable, tag_of,
}
use auru_pm_core.Prelude.Order.{insert_entry, text_ltb}

abbrev pub IsByte : ℕ → Type 0
IsByte b = b < 256

-- A payload of the length that its identifier implies, where it implies one.
abbrev pub HasWidth : Option ℕ → List ℕ → Type 0
HasWidth none payload = Unit
HasWidth (some width) payload = length payload ≡ width

-- An event of bytes.
pub record IsEvent (e : Event) : Type 0 where
  pub id_fits : e.id < 256
  pub bytes : All IsByte e.payload
  pub width : HasWidth (fixed_len e.id) e.payload

-- The decoder undoes the encoder.
abbrev pub IsLossless : Base64 → Type 0
IsLossless base64 =
    (payload : List ℕ) → All IsByte payload → base64.decode (base64.encode payload) ≡ some payload

to_le_bytes-from_le_bytes :
    (k : ℕ) (p : List ℕ)
    → All IsByte p
    → length p ≤ k
    → take (length p) (to_le_bytes k (from_le_bytes p)) ≡ p
unfolding to_le_bytes from_le_bytes
to_le_bytes-from_le_bytes k [] h b = refl
to_le_bytes-from_le_bytes zero (c ∷ p) h b = absurd (omega arith)
to_le_bytes-from_le_bytes (suc k) (c ∷ p) h b =
    let c0 : c < 256 = h.0 in
    let low : (c + 256 * from_le_bytes p) % 256 ≡ c = omega arith in
    let high : (c + 256 * from_le_bytes p) / 256 ≡ from_le_bytes p = omega arith in
    rw (low, high, to_le_bytes-from_le_bytes k p h.1 (omega arith)) refl

from_le_bytes-u32 : (p : List ℕ) → All IsByte p → length p ≤ 4 → from_le_bytes p ≤ u32_max
unfolding from_le_bytes
from_le_bytes-u32 [] h b = omega arith
from_le_bytes-u32 (c ∷ []) h b = omega (arith, h.0)
from_le_bytes-u32 (c ∷ d ∷ []) h b = omega (arith, h.0, h.1.0)
from_le_bytes-u32 (c ∷ d ∷ e ∷ []) h b = omega (arith, h.0, h.1.0, h.1.1.0)
from_le_bytes-u32 (c ∷ d ∷ e ∷ f ∷ []) h b = omega (arith, h.0, h.1.0, h.1.1.0, h.1.1.1.0)
from_le_bytes-u32 (c ∷ d ∷ e ∷ f ∷ g ∷ p) h b = absurd (omega arith)

fixed_len_le : (id w : ℕ) → fixed_len id ≡ some w → w ≤ 4
unfolding fixed_len
fixed_len_le id w e = ground arith

-- A text, if there is one, is encoded as the payload.
abbrev Encodes : Option (Text × Text) → List ℕ → Type 0
Encodes none payload = Unit
Encodes (some (s, encoding)) payload = encode_text s encoding ≡ payload

lossless-Encodes :
    (found : Text × Text) (payload : List ℕ) → Encodes (lossless found payload) payload
lossless-Encodes (s, encoding) payload =
    elim (Bool-cases (text_eq (encode_text s encoding) payload)) [
      | inl same ↦ rw same ((text_eq_iff (encode_text s encoding) payload).0 same)
      | inr other ↦ rw other tt
    ]

readable_text-Encodes : (e : Event) (utf16 : Bool) → Encodes (readable_text e utf16) e.payload
unfolding readable_text
readable_text-Encodes e utf16 = elim (Bool-cases (any (λ id. e.id == id) text_events)) [
  | inl listed ↦ rw listed (lossless-Encodes (decoded_text e utf16) e.payload)
  | inr other ↦ rw other tt
]

abbrev id_only : ℕ → Attributes
id_only id = (codes "T", decimal id) ∷ []

variable_event_lem :
    (base64 : Base64) (id : ℕ) (payload : List ℕ) (found : Option (Text × Text))
    → IsLossless base64
    → All IsByte payload
    → Encodes found payload
    → variable_event base64
        (text_attributes found (id_only id) (payload_attributes base64 payload (id_only id)))
        id
      ≡ ok (record { id = id; payload = payload })
unfolding variable_event lookup insert_entry text_eq text_ltb
variable_event_lem base64 id payload (some (s, encoding)) l h e = rw e refl
variable_event_lem base64 id [] none l h e = refl
variable_event_lem base64 id (b ∷ bs) none l h e = rw (l (b ∷ bs) h) refl

-- The attribute of the identifier comes before every other.
lookup_id-text :
    (base64 : Base64) (id : ℕ) (payload : List ℕ) (found : Option (Text × Text))
    → lookup
        (codes "T")
        (text_attributes found (id_only id) (payload_attributes base64 payload (id_only id)))
      ≡ some (decimal id)
unfolding lookup insert_entry text_eq text_ltb
lookup_id-text base64 id payload (some (s, encoding)) = refl
lookup_id-text base64 id [] none = refl
lookup_id-text base64 id (b ∷ bs) none = refl

pub parse_attribute_lem :
    (parse : Text → Option ℕ) (e : XmlElement) (name raw : Text) (n : ℕ)
    → lookup name (attributes_of e) ≡ some raw
    → parse raw ≡ some n
    → parse_attribute parse e name ≡ ok n
unfolding parse_attribute
parse_attribute_lem parse e name raw n found read =
    rw found (ap (or_unreadable (tag_of e) name raw) read)

decode_event_lem :
    (base64 : Base64) (id : ℕ) (attributes : Attributes) (width : Option ℕ)
    → id < 256
    → fixed_len id ≡ width
    → lookup (codes "T") attributes ≡ some (decimal id)
    → decode_event base64 (xml_element event_tag none attributes no_more)
      ≡ event_of_width base64 (xml_element event_tag none attributes no_more) id width
unfolding decode_event text_eq
decode_event_lem base64 id attributes width b f e =
    let found : XmlElement = xml_element event_tag none attributes no_more in
    let read_id =
      parse_attribute_lem (parse_unsigned 255) found (codes "T") (decimal id) id e
        (parse_unsigned-decimal 255 id (omega arith)) in
    rw read_id (ap (event_of_width base64 found id) f)

event_of_width-fixed :
    (base64 : Base64) (id width value : ℕ)
    → value ≤ u32_max
    → event_of_width base64
        (xml_element event_tag none (insert_entry (codes "V") (decimal value) (id_only id)) no_more)
        id
        (some width)
      ≡ ok (record { id = id; payload = take width (to_le_bytes 4 value) })
unfolding event_of_width lookup insert_entry text_eq text_ltb
event_of_width-fixed base64 id width value b =
    rw
      (parse_attribute_lem (parse_unsigned u32_max)
        (xml_element event_tag none (insert_entry (codes "V") (decimal value) (id_only id)) no_more)
        (codes "V") (decimal value) value refl (parse_unsigned-decimal u32_max value b))
      refl

lookup_id-fixed :
    (id value : ℕ)
    → lookup (codes "T") (insert_entry (codes "V") (decimal value) (id_only id)) ≡ some (decimal id)
unfolding lookup insert_entry text_eq text_ltb
lookup_id-fixed id value = refl

decode_event-width :
    (base64 : Base64) (e : Event) (utf16 : Bool) (width : Option ℕ)
    → IsLossless base64
    → e.id < 256
    → All IsByte e.payload
    → fixed_len e.id ≡ width
    → HasWidth width e.payload
    → decode_event base64 (event_element base64 e utf16) ≡ ok e
unfolding event_element as_u32 event_of_width
decode_event-width base64 e utf16 none l b h f w =
    rw (is_variable_lem e, f)
      (decode_event_lem base64 e.id _ none b f
          (lookup_id-text base64 e.id e.payload (readable_text e utf16))
        ∙ variable_event_lem base64 e.id e.payload (readable_text e utf16) l h
            (readable_text-Encodes e utf16))
decode_event-width base64 e utf16 (some width) l b h f w =
    let short : length e.payload ≤ 4 = omega (arith, fixed_len_le e.id width f) in
    rw (is_variable_lem e, f)
      (decode_event_lem base64 e.id _ (some width) b f (lookup_id-fixed e.id _)
        ∙ event_of_width-fixed base64 e.id width (from_le_bytes e.payload)
            (from_le_bytes-u32 e.payload h short)
        ∙ rw (sym w, to_le_bytes-from_le_bytes 4 e.payload h short) refl)

pub decode_event-event_element :
    (base64 : Base64) (e : Event) (utf16 : Bool)
    → IsLossless base64
    → IsEvent e
    → decode_event base64 (event_element base64 e utf16) ≡ ok e
decode_event-event_element base64 e utf16 l h =
    decode_event-width base64 e utf16 (fixed_len e.id) l h.id_fits h.bytes refl h.width
