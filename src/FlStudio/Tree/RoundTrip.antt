-- ===== src/FlStudio/Tree/RoundTrip.antt =====
-- The tree of a project, read back: `from_document` after `to_document` of
-- crates/auru-pm-kernel/src/flstudio/tree.rs.
use auru_pm_core.FlStudio.Texts.{uses_utf16, major_version}
use auru_pm_core.Prelude.Decimal.{
  is_digit, decimal, at_most, decimal_digits, parse_unsigned, digits, parse_unsigned-decimal,
  decimal-ne-nil, digits-decimal,
}
use mathlib.Core.Path.{subst}
use mathlib.Core.List.{append_assoc}
use auru_pm_core.Prelude.{
  ◌<◌, List, ◌≡◌, Bool, ◌^◌, ok, All, refl, ◌++◌, ◌∷◌, [], Option-cases, inl, inr, some, ◌∙◌, ℕ,
  Bool-cases, ap, ◌==◌, some-injective, none-some, none, Text, ltb, lookup, ◌≢◌, text_eq, true,
  codes, false, arith, ◌≤◌, ◌-◌, le→leb,
}
use auru_pm_core.FlStudio.Events.{Event, Stream}
use auru_pm_core.FlStudio.Tree.{
  Base64, XmlElement, xml_element, child, Contents, no_more, content, event_element, push_content,
  push_child, opened, children_of, sections, to_document, from_document, decode_event, group_events,
  document_events, parse_i16, i16_text, group, negated, after_push,
}
use auru_pm_core.FlStudio.Tree.Elements.{
  IsEvent, IsLossless, decode_event-event_element, parse_attribute_lem,
}
use auru_pm_core.Prelude.Order.{insert_entry, text_ltb}

-- A stream as its types hold it, with no event too short or too long for its identifier.
pub record IsStream (s : Stream) : Type 0 where
  pub format : s.header.format < 2 ^ 16
  pub channels : s.header.channels < 2 ^ 16
  pub ppq : s.header.ppq < 2 ^ 16
  pub events : All IsEvent s.events

-- The contents are elements of the events, in their order.
AreElements : Base64 → Contents → List Event → Type 0
AreElements base64 no_more [] = Unit
AreElements base64 (content (child e) cs) (event ∷ events) =
    (decode_event base64 e ≡ ok event) × AreElements base64 cs events
AreElements base64 _ _ = ⊥

push_content-AreElements :
    (base64 : Base64) (cs : Contents) (e : XmlElement) (events : List Event) (event : Event)
    → AreElements base64 cs events
    → decode_event base64 e ≡ ok event
    → AreElements base64 (push_content cs (child e)) (events ++ event ∷ [])
unfolding AreElements
push_content-AreElements base64 no_more e [] event h d = (d, tt)
push_content-AreElements base64 (content (child c) cs) e (x ∷ events) event h d =
    (h.0, push_content-AreElements base64 cs e events event h.1 d)
push_content-AreElements base64 _ e _ event h d = absurd h

push_child-AreElements :
    (base64 : Base64) (g e : XmlElement) (events : List Event) (event : Event)
    → AreElements base64 (children_of g) events
    → decode_event base64 e ≡ ok event
    → AreElements base64 (children_of (push_child g e)) (events ++ event ∷ [])
push_child-AreElements base64 (xml_element tag id attributes children) e events event h d =
    push_content-AreElements base64 children e events event h d

group_events_lem :
    (base64 : Base64) (cs : Contents) (events : List Event)
    → AreElements base64 cs events
    → group_events base64 cs ≡ ok events
unfolding AreElements group_events
group_events_lem base64 no_more [] h = refl
group_events_lem base64 (content (child e) cs) (event ∷ events) h =
    rw (h.0, group_events_lem base64 cs events h.1) refl
group_events_lem base64 _ _ h = absurd h

opened-AreElements :
    (base64 : Base64) (event : Event) (next : XmlElement)
    → opened event ≡ some next
    → AreElements base64 (children_of next) []
unfolding AreElements opened
opened-AreElements base64 event next e = elim (Bool-cases (event.id == 64)) [
  | inl channel ↦
      let g = some-injective _ _ (rw channel at e) in
      subst (λ g. AreElements base64 (children_of g) []) g tt
  | inr no_channel ↦ elim (Bool-cases (event.id == 65)) [
    | inl pattern_ ↦
        let g = some-injective _ _ (rw (no_channel, pattern_) at e) in
        subst (λ g. AreElements base64 (children_of g) []) g tt
    | inr neither ↦ absurd (none-some (rw (no_channel, neither) at e))
  ]
]

sections-same :
    (base64 : Base64) (utf16 : Bool) (section : XmlElement) (event : Event) (events : List Event)
    → opened event ≡ none
    → sections base64 utf16 section (event ∷ events)
      ≡ sections base64 utf16 (push_child section (event_element base64 event utf16)) events
unfolding sections
sections-same base64 utf16 section event events same = ap (after_push section _ _) same

sections-opened :
    (base64 : Base64) (utf16 : Bool) (section next : XmlElement) (event : Event)
    (events : List Event)
    → opened event ≡ some next
    → sections base64 utf16 section (event ∷ events)
      ≡ content
          (child section)
          (sections base64 utf16 (push_child next (event_element base64 event utf16)) events)
unfolding sections
sections-opened base64 utf16 section next event events new = ap (after_push section _ _) new

document_events-sections :
    (base64 : Base64) (utf16 : Bool) (section : XmlElement) (events done : List Event)
    → IsLossless base64
    → All IsEvent events
    → AreElements base64 (children_of section) done
    → document_events base64 (sections base64 utf16 section events) ≡ ok (done ++ events)
unfolding document_events sections
document_events-sections base64 utf16 section [] done l h e =
    rw (group_events_lem base64 (children_of section) done e) refl
document_events-sections base64 utf16 section (event ∷ events) done l h e =
    let here = decode_event-event_element base64 event utf16 l h.0 in
    elim (Option-cases (opened event)) [
      | inl same ↦ rw (sections-same base64 utf16 section event events same) (
          document_events-sections base64 utf16
            (push_child section (event_element base64 event utf16)) events (done ++ event ∷ []) l
            h.1 (push_child-AreElements base64 section _ done event e here)
          ∙ ap (λ es. ok es) (append_assoc done (event ∷ []) events))
      | inr (next, new) ↦
          let fresh = opened-AreElements base64 event next new in
          rw
            (
              sections-opened base64 utf16 section next event events new,
              group_events_lem base64 (children_of section) done e,
              document_events-sections base64 utf16
                  (push_child next (event_element base64 event utf16)) events (event ∷ []) l h.1
                  (push_child-AreElements base64 next _ [] event fresh here),
            )
            refl
    ]

parse_i16-digits :
    (t : Text) → All (λ c. is_digit c ≡ true) t → parse_i16 t ≡ parse_unsigned 0x7FFF t
unfolding parse_i16
parse_i16-digits [] h = refl
parse_i16-digits (c ∷ []) h = refl
parse_i16-digits (c ∷ d ∷ t) h =
    let no_sign : (c == b'-') ≡ false = ground (arith, h.0) in rw no_sign refl

parse_i16-minus : (t : Text) → t ≢ [] → parse_i16 (b'-' ∷ t) ≡ negated (at_most 0x8000 (digits 0 t))
unfolding parse_i16
parse_i16-minus [] h = absurd (h refl)
parse_i16-minus (d ∷ t) h = refl

parse_i16-i16_text : (n : ℕ) → n < 2 ^ 16 → parse_i16 (i16_text n) ≡ some n
unfolding i16_text
parse_i16-i16_text n b = elim (Bool-cases (ltb n 0x8000)) [
  | inl positive ↦ rw positive (
      parse_i16-digits (decimal n) (decimal_digits n)
      ∙ parse_unsigned-decimal 0x7FFF n (ground (arith, positive)))
  | inr negative ↦
      let big : 0x8000 ≤ n = ground (arith, negative) in
      rw negative (
        parse_i16-minus (decimal (0x10000 - n)) (decimal-ne-nil (0x10000 - n))
        ∙ rw (digits-decimal (0x10000 - n), le→leb (0x10000 - n) 0x8000 (omega arith))
            (ap (λ m. some m) (omega arith)))
]

-- A stream is read back from its tree.
pub from_document-to_document :
    (base64 : Base64) (s : Stream)
    → IsLossless base64
    → IsStream s
    → from_document base64 (to_document base64 s) ≡ ok s
unfolding from_document to_document lookup insert_entry text_eq text_ltb AreElements
from_document-to_document base64 s l h =
    let root = to_document base64 s in
    rw
      (
        parse_attribute_lem parse_i16 root (codes "Format") _ s.header.format refl
            (parse_i16-i16_text s.header.format h.format),
        parse_attribute_lem (parse_unsigned 0xFFFF) root (codes "Channels") _ s.header.channels refl
            (parse_unsigned-decimal 0xFFFF s.header.channels (omega (arith, h.channels))),
        parse_attribute_lem (parse_unsigned 0xFFFF) root (codes "Ppq") _ s.header.ppq refl
            (parse_unsigned-decimal 0xFFFF s.header.ppq (omega (arith, h.ppq))),
        document_events-sections base64 (uses_utf16 (major_version s))
            (group (codes "Preamble") none) s.events [] l h.events tt,
      )
      refl
