-- ===== src/Tests.antt =====
-- Runs of the model on small inputs, and each theorem with hypotheses at an input that meets them.
mod Documents
mod Links
use xmlparser.Prelude.{
  ℕ, ◌≤◌, ◌<◌, ◌+◌, ◌||◌, List, [], ◌∷◌, Option, none, some, Bytes, codes, length, is_empty, true,
  false, ◌≡◌, ◌≢◌, ◌↔◌, refl, ap, subst, arith, All, IsByte,
}
use xmlparser.Errors.{
  exception, unsupported, resource_limit, Result, ok, throws, stuck, start_location,
}
use xmlparser.Options.{ParserOptions, default_options, dtd, xml10}
use xmlparser.Sax.{Call, QualifiedName, AttributeView, start_element, end_element, characters}
use xmlparser.Chars.{is_valid_xml_char, is_valid_xml10_char, utf8_bytes}
use xmlparser.Decode.{DecodedDocument, decode_utf8, decode_document, current, new_tracker}
use xmlparser.Decode.Places.{placed, place_behind, locate}
use xmlparser.Decode.Utf8.{
  encode_utf8, values, AllValid, decode_utf8-encode_utf8, decode_utf8_sound,
}
use xmlparser.Decode.Total.{Settles, decode_document-Settles}
use xmlparser.Parser.State.{
  Context, Parser, RawAttribute, empty, empty_dtd, find, assign, ValidationFrame, new_parser,
  Outcome, done, raises, diverges,
}
use xmlparser.Parser.Run.{parse_xml_document}
use xmlparser.Parser.References.{parse_reference, parse_character_reference}
use xmlparser.Parser.References.Numerals.{Spells, parse_character_reference-Spells}
use xmlparser.Parser.Namespaces.{
  is_namespace_declaration, collect_loop, collect_namespace_declarations, lookup_scopes,
  lookup_namespace, resolve_prefixed, resolve_at, resolve_name,
}
use xmlparser.Parser.Namespaces.Scopes.{scopes_of, lookup_namespace-uri_of}
use xmlparser.Parser.StartTag.{value_storage, resolve_attribute, resolve_attributes}
use xmlparser.Parser.StartTag.Attributes.{sources, plain, Distinct, resolve_attributes-sources}
use xmlparser.Parser.Validation.{validate_element}
use xmlparser.Parser.Validation.Violations.{IsValid, Decides, validate_element-IsValid}
use xmlparser.Parser.Content.{parse_element}
use xmlparser.Parser.Progress.{Ends, Advances}
use xmlparser.Parser.Progress.References.{Advances-parse_reference}
use xmlparser.Parser.Progress.Content.{Advances-parse_element}
use xmlparser.Parser.Progress.Run.{Complete, parse_xml_document-Complete, parse_xml_document-Fits}
use xmlparser.Parser.Values.{parse_attributes}
use xmlparser.Parser.Values.Distinct.{Sound, parse_attributes-Sound}
use xmlparser.Parser.Events.{Fits, Balanced, nil, atom, element}
use xmlparser.Decode.{decode_utf16}
use xmlparser.Decode.Utf16.{encode_utf16, decode_utf16-encode_utf16}
use xmlparser.Front.{SaxParser, new_sax_parser, feed, finish, SaxCallbacks, forwarded}
use xmlparser.Front.Streaming.{feed_all, too_large, feed_all-finish, feed_all-decides}
use xmlparser.Dom.{
  Heap, document_node, text_node, append_child, deref, write, is_ancestor_of, ancestor_loop,
  same_owner, other_element, detach, push_child, set_parent, set_attribute_ns, get_attribute_ns,
}
use xmlparser.Dom.Attributes.{get_attribute_ns-set_attribute_ns}
use xmlparser.Serializer.{escape_text, escape_attribute}
use xmlparser.Serializer.Escape.{has_byte, escaped_clean}

abbrev calls_made : Outcome (Unit {0}) → List Call
calls_made (done _ p) = p.calls
calls_made (raises e calls) = calls
calls_made diverges = []

abbrev local : Bytes → QualifiedName
local name = record { uri = []; local_name = name; qualified_name = name }

-- A resolver that knows one text for every identifier.
abbrev fixed_resolver : Bytes → Result Bytes
fixed_resolver id = ok (codes "<!ELEMENT a ANY>")

abbrev dtd_options : ParserOptions
dtd_options = record default_options {
  validation = dtd;
  allow_external_dtd = true;
  external_dtd_resolver = some fixed_resolver;
}

abbrev external_document : Bytes
external_document = codes "<!DOCTYPE a SYSTEM 'a.dtd'><a>x&amp;y</a>"

abbrev entity_document : Bytes
entity_document = codes "<?xml version='1.0'?><!DOCTYPE a [<!ENTITY e 'x&#65;y'>]><a>hi&e;<b/></a>"

fixed_resolver_returns : (id : Bytes) → fixed_resolver id ≢ stuck
fixed_resolver_returns id = cc

abbrev from_some : Option (Bytes → Result Bytes) → Bytes → Result Bytes
from_some (some f) = f
from_some none = fixed_resolver

parse_xml_document-Complete_example :
    Ends (λ _ q. Complete dtd_options q) (parse_xml_document external_document dtd_options)
parse_xml_document-Complete_example =
    parse_xml_document-Complete external_document dtd_options λ resolver id e.
      subst (λ (f : Bytes → Result Bytes). f id ≢ stuck) (ap from_some e)
        (fixed_resolver_returns id)

parse_xml_document-Fits_example :
    Ends (λ _ q. All (Fits dtd_options) q.calls) (parse_xml_document external_document dtd_options)
parse_xml_document-Fits_example =
    parse_xml_document-Fits external_document dtd_options λ resolver id e.
      subst (λ (f : Bytes → Result Bytes). f id ≢ stuck) (ap from_some e)
        (fixed_resolver_returns id)

abbrev entity_context : Context
entity_context = record { options = default_options; end_location = start_location }

abbrev at_text : Bytes → Parser
at_text text = new_parser (placed (λ seen. seen) 0 [] text)

Advances-parse_element_example :
    Advances 256 entity_context 1
      (at_text (codes "<a>x</a>"))
      (parse_element entity_context 17 (at_text (codes "<a>x</a>")))
Advances-parse_element_example =
    Advances-parse_element entity_context 17 (at_text (codes "<a>x</a>")) (omega arith)

-- An entity that stands for itself.
abbrev cyclic : Parser
cyclic = record (at_text (codes "&e;")) {
  dtd = record empty_dtd { entities = (codes "e", codes "&e;") ∷ [] };
}

Advances-parse_reference_example :
    Advances 0 entity_context 1 cyclic (parse_reference entity_context cyclic)
Advances-parse_reference_example = Advances-parse_reference 0 entity_context cyclic

decode_document-Settles_example :
    Settles
      (λ d.
        (is_empty d.chars ≡ false)
        × (is_empty entity_document ≡ false)
        × (length entity_document ≤ default_options.max_document_bytes))
      (decode_document entity_document default_options)
decode_document-Settles_example = decode_document-Settles entity_document default_options

-- `é€` and a character of four bytes.
abbrev three : List ℕ
three = 0xE9 ∷ 0x20AC ∷ 0x1F600 ∷ []

three_valid : AllValid xml10 three
unfolding is_valid_xml_char is_valid_xml10_char
three_valid = (refl, (refl, (refl, tt)))

decode_utf8-encode_utf8_example :
    decode_utf8 (encode_utf8 three) 0 default_options
    ≡ ok (record {
      chars = placed encode_utf8 0 [] three;
      end_location = place_behind encode_utf8 0 three;
    })
decode_utf8-encode_utf8_example = decode_utf8-encode_utf8 three default_options three_valid

abbrev euro : Bytes
euro = 0xE2 ∷ 0x82 ∷ 0xAC ∷ []

parse_character_reference-Spells_example :
    (parse_character_reference xml10 (codes "#x20AC") start_location ≡ ok euro) ↔ (
      (n : ℕ) × Spells (codes "x20AC") n
      × (is_valid_xml_char n xml10 ≡ true)
      × (euro ≡ utf8_bytes n))
parse_character_reference-Spells_example =
    parse_character_reference-Spells xml10 (codes "x20AC") start_location euro

abbrev attribute : Bytes → Bytes → RawAttribute
attribute name value = record { name = name; value = value; location = start_location }

-- `<a xmlns="u" xmlns:p="v">` around `<b xmlns:p="w">`.
abbrev nested : List (List RawAttribute)
nested =
    (attribute (codes "xmlns:p") (codes "w") ∷ [])
    ∷ (attribute (codes "xmlns") (codes "u") ∷ attribute (codes "xmlns:p") (codes "v") ∷ [])
    ∷ []

lookup_namespace-uri_of_example :
    lookup_namespace (scopes_of entity_context nested) (codes "p") ≡ codes "w"
lookup_namespace-uri_of_example = lookup_namespace-uri_of entity_context (codes "p") nested refl

three_bytes : All IsByte (encode_utf8 three)
unfolding utf8_bytes
three_bytes = (
  omega arith,
  (
    omega arith,
    (
      omega arith,
      (omega arith, (omega arith, (omega arith, (omega arith, (omega arith, (omega arith, tt)))))),
    ),
  ),
)

abbrev three_document : DecodedDocument
three_document = record {
  chars = placed encode_utf8 0 [] three;
  end_location = place_behind encode_utf8 0 three;
}

decode_utf8_sound_example :
    (encode_utf8 (values three_document.chars) ≡ encode_utf8 three)
    × AllValid xml10 (values three_document.chars)
decode_utf8_sound_example =
    decode_utf8_sound (encode_utf8 three) default_options three_document three_bytes
      (decode_utf8-encode_utf8 three default_options three_valid)

abbrev three_attributes : List RawAttribute
three_attributes =
    attribute (codes "y") (codes "1")
    ∷ attribute (codes "xmlns:q") (codes "v")
    ∷ attribute (codes "p:y") (codes "2")
    ∷ []

abbrev two_views : List AttributeView
two_views =
    record { name = local (codes "y"); value = codes "1"; location = start_location }
    ∷ record {
      name = record { uri = codes "w"; local_name = codes "y"; qualified_name = codes "p:y" };
      value = codes "2";
      location = start_location;
    }
    ∷ []

three_attributes_resolved :
    resolve_attributes entity_context
      (scopes_of entity_context nested)
      (value_storage entity_context three_attributes)
      []
      three_attributes
    ≡ ok two_views
unfolding resolve_attributes resolve_attribute value_storage is_namespace_declaration resolve_name
    resolve_at resolve_prefixed lookup_namespace lookup_scopes collect_namespace_declarations
    collect_loop find assign
three_attributes_resolved = refl

resolve_attributes-sources_example :
    (sources two_views ≡ plain entity_context three_attributes) × Distinct [] two_views
resolve_attributes-sources_example =
    resolve_attributes-sources entity_context (scopes_of entity_context nested) three_attributes
      two_views three_attributes_resolved

abbrev dtd_context : Context
dtd_context = record { options = dtd_options; end_location = start_location }

-- `<!DOCTYPE a [<!ELEMENT a EMPTY>]>`, behind the end of the document element.
abbrev declared_empty : Parser
declared_empty = record (at_text []) {
  dtd = record empty_dtd {
    has_doctype = true;
    root_name = codes "a";
    elements = (codes "a", record { kind = empty; children = [] }) ∷ [];
  };
}

abbrev with_text : ValidationFrame
with_text = record { name = codes "a"; child_elements = []; has_non_whitespace_text = true }

validate_element-IsValid_example :
    Decides
      (IsValid declared_empty.dtd true with_text)
      declared_empty
      (validate_element dtd_context with_text start_location declared_empty)
validate_element-IsValid_example =
    validate_element-IsValid dtd_context start_location with_text declared_empty refl refl refl

parse_attributes-Sound_example :
    Ends
      (λ attributes _. Sound entity_context attributes)
      (parse_attributes entity_context (at_text (codes " x='1' y='2'>")))
parse_attributes-Sound_example =
    parse_attributes-Sound entity_context (at_text (codes " x='1' y='2'>"))

decode_utf16-encode_utf16_example :
    decode_utf16 (0xFF ∷ 0xFE ∷ encode_utf16 true three) true default_options
    ≡ ok (record {
      chars = placed (encode_utf16 true) 2 [] three;
      end_location = place_behind (encode_utf16 true) 2 three;
    })
decode_utf16-encode_utf16_example =
    decode_utf16-encode_utf16 true three 0xFF 0xFE default_options three_valid

abbrev chunks : List Bytes
chunks = codes "<a>" ∷ codes "x" ∷ codes "</a>" ∷ []

feed_all-finish_example :
    (t : SaxParser) × (feed_all chunks (new_sax_parser default_options) ≡ ok t)
    × ((finish t).1 ≡ parse_xml_document (codes "<a>x</a>") default_options)
feed_all-finish_example = feed_all-finish chunks (new_sax_parser default_options) refl (omega arith)

abbrev small : SaxParser
small = new_sax_parser (record default_options { max_document_bytes = 3 })

feed_all-decides_example : feed_all chunks small ≡ too_large
feed_all-decides_example = feed_all-decides chunks small refl (omega arith)

get_attribute_ns-set_attribute_ns_example :
    get_attribute_ns
      (codes "u")
      (codes "n")
      (set_attribute_ns (codes "u") (codes "n") (codes "p:n") (codes "2") [])
    ≡ codes "2"
get_attribute_ns-set_attribute_ns_example =
    get_attribute_ns-set_attribute_ns (codes "u") (codes "n") (codes "p:n") (codes "2") (codes "u")
      (codes "n") []

escaped_clean_example :
    ((has_byte b'<' (escape_text (codes "a<b>\"&"))
        || has_byte b'>' (escape_text (codes "a<b>\"&")))
      ≡ false)
    × ((has_byte b'<' (escape_attribute (codes "a<b>\"&"))
          || has_byte b'"' (escape_attribute (codes "a<b>\"&")))
        ≡ false)
escaped_clean_example = escaped_clean (codes "a<b>\"&")
