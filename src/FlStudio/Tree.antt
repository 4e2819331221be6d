-- ===== src/FlStudio/Tree.antt =====
-- The tree of a project in crates/auru-pm-kernel/src/flstudio/tree.rs, on the element type of
-- project_format.rs: `to_document` and `from_document`. Base64 is a parameter.
pub mod Elements
pub mod Decoded
pub mod RoundTrip
use auru_pm_core.Prelude.{
  Map, Text, List, ℕ, Option, text_eq, Bool, none, lookup, Result, codes, ◌∷◌, if◌then◌else◌, [],
  some, err, ok, ◌>>◌, ltb, ◌-◌, ◌==◌, ◌%◌, ◌++◌, ensure, true, ◌>>=◌, ◌||◌, take, false, not, any,
}
use auru_pm_core.FlStudio.Events.{
  Event, Stream, Header, fixed_len, is_variable, as_u32, to_le_bytes,
}
use auru_pm_core.FlStudio.Texts.{
  decode_ascii, decode_utf16, encode_utf16, major_version, uses_utf16, event_version, u32_max,
}
use auru_pm_core.Prelude.Decimal.{decimal, parse_unsigned, digits, at_most}
use auru_pm_core.Prelude.Order.{insert_entry}

abbrev pub Attributes : Type 0
Attributes = Map Text

mutual
  pub data XmlElement : Type 0 where
    xml_element : Text → Option Text → Attributes → Contents → XmlElement

  pub data XmlContent : Type 0 where
    child : XmlElement → XmlContent
    text cdata comment : Text → XmlContent

  pub data Contents : Type 0 where
    no_more : Contents
    content : XmlContent → Contents → Contents

abbrev pub tag_of : XmlElement → Text
tag_of (xml_element tag id attributes children) = tag

abbrev pub attributes_of : XmlElement → Attributes
attributes_of (xml_element tag id attributes children) = attributes

abbrev pub children_of : XmlElement → Contents
children_of (xml_element tag id attributes children) = children

-- `base64::STANDARD`
pub record Base64 : Type 0 where
  pub encode : List ℕ → Text
  pub decode : Text → Option (List ℕ)

pub data TreeError : Type 0 where
  unexpected_root unexpected_tag : Text → TreeError
  missing_attribute : Text → Text → TreeError
  unreadable_attribute : Text → Text → Text → TreeError
  invalid_payload : ℕ → TreeError

abbrev pub root_tag : Text
root_tag = codes "FLProject"

abbrev pub event_tag : Text
event_tag = codes "E"

abbrev pub event_new_channel : ℕ
event_new_channel = 64

abbrev pub event_new_pattern : ℕ
event_new_pattern = 65

abbrev pub text_events : List ℕ
text_events = 193 ∷ 194 ∷ 195 ∷ 196 ∷ 197 ∷ 199 ∷ 200 ∷ 201 ∷ 202 ∷ 203 ∷ 204 ∷ 205 ∷ 206 ∷ 207 ∷ []

-- `i16::to_string` of a bit pattern, and `i16::from_str`.
unfoldable pub i16_text : ℕ → Text
unfolding decimal
i16_text n = if ltb n 0x8000 then decimal n else b'-' ∷ decimal (0x10000 - n)

abbrev pub negated : Option ℕ → Option ℕ
negated none = none
negated (some n) = some ((0x10000 - n) % 0x10000)

unfoldable pub parse_i16 : Text → Option ℕ
unfolding parse_unsigned digits
parse_i16 [] = none
parse_i16 (c ∷ []) = parse_unsigned 0x7FFF (c ∷ [])
parse_i16 (c ∷ d ∷ s) =
    if c == b'-'
    then negated (at_most 0x8000 (digits 0 (d ∷ s)))
    else parse_unsigned 0x7FFF (c ∷ d ∷ s)

-- `unwrap_or_default().to_string()`
abbrev pub number_text : Option ℕ → Text
number_text none = decimal 0
number_text (some n) = decimal n

abbrev pub id_attributes : Option Text → Attributes
id_attributes none = []
id_attributes (some identity) = (codes "Id", identity) ∷ []

abbrev pub group : Text → Option Text → XmlElement
group tag identity = xml_element tag identity (id_attributes identity) no_more

abbrev pub element : XmlContent → Option XmlElement
element (child e) = some e
element _ = none

-- `character as u8` keeps the low eight bits.
unfoldable pub low_bytes : Text → List ℕ
low_bytes [] = []
low_bytes (c ∷ s) = c % 256 ∷ low_bytes s

unfoldable pub unit_bytes : List ℕ → List ℕ
unfolding to_le_bytes
unit_bytes [] = []
unit_bytes (u ∷ us) = to_le_bytes 2 u ++ unit_bytes us

unfoldable pub encode_text : Text → Text → List ℕ
unfolding low_bytes unit_bytes encode_utf16 text_eq
encode_text s encoding =
    if text_eq encoding (codes "ascii")
    then low_bytes s ++ 0 ∷ []
    else unit_bytes (encode_utf16 s) ++ 0 ∷ 0 ∷ []

abbrev pub then_some {ℓ} : {A : Type ℓ} → Bool → A → Option A
then_some true a = some a
then_some false a = none

-- The text of a payload with the name of its encoding; the version is always ASCII.
abbrev pub decoded_text : Event → Bool → Text × Text
decoded_text event utf16 =
    if event.id == event_version || not utf16
    then (decode_ascii event.payload, codes "ascii")
    else (decode_utf16 event.payload, codes "utf16")

abbrev pub lossless : Text × Text → List ℕ → Option (Text × Text)
lossless (s, encoding) payload = then_some (text_eq (encode_text s encoding) payload) (s, encoding)

unfoldable pub readable_text : Event → Bool → Option (Text × Text)
unfolding encode_text decode_ascii decode_utf16 text_eq
readable_text event utf16 =
    if any (λ id. event.id == id) text_events
    then lossless (decoded_text event utf16) event.payload
    else none

abbrev pub text_attributes : Option (Text × Text) → Attributes → Attributes → Attributes
text_attributes none attributes other = other
text_attributes (some (s, encoding)) attributes other =
    insert_entry (codes "Enc") encoding (insert_entry (codes "V") s attributes)

abbrev pub payload_attributes : Base64 → List ℕ → Attributes → Attributes
payload_attributes base64 [] attributes = attributes
payload_attributes base64 (b ∷ bs) attributes =
    insert_entry (codes "B") (base64.encode (b ∷ bs)) attributes

unfoldable pub event_element : Base64 → Event → Bool → XmlElement
unfolding is_variable as_u32 readable_text insert_entry
event_element base64 event utf16 =
    let attributes = (codes "T", decimal event.id) ∷ [] in
    xml_element event_tag none
      (if is_variable event
        then text_attributes (readable_text event utf16) attributes
            (payload_attributes base64 event.payload attributes)
        else insert_entry (codes "V") (number_text (as_u32 event)) attributes)
      no_more

abbrev pub push_content : Contents → XmlContent → Contents
push_content no_more c = content c no_more
push_content (content d cs) c = content d (push_content cs c)

abbrev pub push_child : XmlElement → XmlElement → XmlElement
push_child (xml_element tag id attributes children) e =
    xml_element tag id attributes (push_content children (child e))

-- The group that an event opens.
unfoldable pub opened : Event → Option XmlElement
unfolding as_u32
opened event =
    if event.id == event_new_channel
    then some (group (codes "Channel") (some (number_text (as_u32 event))))
    else if event.id == event_new_pattern
    then some (group (codes "Pattern") (some (number_text (as_u32 event))))
    else none

-- What follows, with a push of the section before it if an event opens the next one.
abbrev pub after_push :
    XmlElement → Contents → (XmlElement → Contents) → Option XmlElement → Contents
after_push section same behind none = same
after_push section same behind (some next) = content (child section) (behind next)

-- The loop of `to_document`, from the section that is open, with the push behind it.
unfoldable pub sections : Base64 → Bool → XmlElement → List Event → Contents
sections base64 utf16 section [] = content (child section) no_more
sections base64 utf16 section (event ∷ events) =
    after_push section
      (sections base64 utf16 (push_child section (event_element base64 event utf16)) events)
      (λ next. sections base64 utf16 (push_child next (event_element base64 event utf16)) events)
      (opened event)

unfoldable pub to_document : Base64 → Stream → XmlElement
unfolding sections major_version i16_text insert_entry
to_document base64 stream =
    xml_element root_tag none
      (insert_entry (codes "Ppq") (decimal stream.header.ppq) (
        insert_entry (codes "Channels") (decimal stream.header.channels)
          (insert_entry (codes "Format") (i16_text stream.header.format) [])))
      (sections base64 (uses_utf16 (major_version stream)) (group (codes "Preamble") none)
        stream.events)

abbrev pub or_unreadable : Text → Text → Text → Option ℕ → Result TreeError ℕ
or_unreadable tag name raw none = err (unreadable_attribute tag name raw)
or_unreadable tag name raw (some n) = ok n

abbrev pub read_attribute : (Text → Option ℕ) → Text → Text → Option Text → Result TreeError ℕ
read_attribute parse tag name none = err (missing_attribute tag name)
read_attribute parse tag name (some raw) = or_unreadable tag name raw (parse raw)

unfoldable pub parse_attribute : (Text → Option ℕ) → XmlElement → Text → Result TreeError ℕ
unfolding lookup
parse_attribute parse e name = read_attribute parse (tag_of e) name (lookup name (attributes_of e))

abbrev pub decoded_payload : ℕ → Option (List ℕ) → Result TreeError Event
decoded_payload id none = err (invalid_payload id)
decoded_payload id (some payload) = ok (record { id = id; payload = payload })

-- `map_or("", ...)`
abbrev pub text_or_none : Option Text → Text
text_or_none none = []
text_or_none (some s) = s

-- The payload of an event of variable length: text, base64 or nothing.
unfoldable pub variable_event : Base64 → Attributes → ℕ → Result TreeError Event
unfolding lookup encode_text
variable_event base64 attributes id = elim (lookup (codes "Enc") attributes) [
  | some encoding ↦ ok (record {
    id = id;
    payload = encode_text (text_or_none (lookup (codes "V") attributes)) encoding;
  })
  | none ↦ elim (lookup (codes "B") attributes) [
    | some encoded ↦ decoded_payload id (base64.decode encoded)
    | none ↦ ok (record { id = id; payload = [] })
  ]
]

-- The event of an identifier with the width that the identifier implies.
unfoldable pub event_of_width : Base64 → XmlElement → ℕ → Option ℕ → Result TreeError Event
unfolding parse_attribute variable_event to_le_bytes parse_unsigned
event_of_width base64 e id none = variable_event base64 (attributes_of e) id
event_of_width base64 e id (some width) = do
  value ← parse_attribute (parse_unsigned u32_max) e (codes "V")
  ok (record { id = id; payload = take width (to_le_bytes 4 value) })

unfoldable pub decode_event : Base64 → XmlElement → Result TreeError Event
unfolding parse_attribute event_of_width fixed_len parse_unsigned
decode_event base64 e = do
  ensure (text_eq (tag_of e) event_tag) (unexpected_tag (tag_of e))
  id ← parse_attribute (parse_unsigned 255) e (codes "T")
  event_of_width base64 e id (fixed_len id)

-- The events of a group.
unfoldable pub group_events : Base64 → Contents → Result TreeError (List Event)
unfolding decode_event
group_events base64 no_more = ok []
group_events base64 (content c cs) = elim (element c) [
  | none ↦ group_events base64 cs
  | some e ↦ do event ← decode_event base64 e; events ← group_events base64 cs; ok (event ∷ events)
]

unfoldable pub document_events : Base64 → Contents → Result TreeError (List Event)
unfolding group_events
document_events base64 no_more = ok []
document_events base64 (content c cs) = elim (element c) [
  | none ↦ document_events base64 cs
  | some g ↦ do
    here ← group_events base64 (children_of g)
    later ← document_events base64 cs
    ok (here ++ later)
]

unfoldable pub from_document : Base64 → XmlElement → Result TreeError Stream
unfolding parse_attribute document_events parse_i16 parse_unsigned
from_document base64 root = do
  ensure (text_eq (tag_of root) root_tag) (unexpected_root (tag_of root))
  format ← parse_attribute parse_i16 root (codes "Format")
  channels ← parse_attribute (parse_unsigned 0xFFFF) root (codes "Channels")
  ppq ← parse_attribute (parse_unsigned 0xFFFF) root (codes "Ppq")
  events ← document_events base64 (children_of root)
  ok (record {
    header = record { format = format; channels = channels; ppq = ppq };
    events = events;
  })
