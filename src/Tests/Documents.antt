-- ===== src/Tests/Documents.antt =====
-- Documents: the theorems on the DOM at small inputs.
use xmlparser.Dom.Builder.{new_dom_builder, receive_all}
use xmlparser.Dom.Document.{new_document}
use xmlparser.Prelude.{ℕ, arith, List, [], ◌∷◌, some, none, Bytes, codes, ◌≡◌, refl}
use xmlparser.Errors.{ok}
use xmlparser.Options.{default_options}
use xmlparser.Sax.{
  Call, QualifiedName, AttributeView, start_document, end_document, start_element, end_element,
  characters,
}
use xmlparser.Errors.{start_location}
use xmlparser.Dom.{
  Heap, document_node, text_node, element_node, new_element, deref, set_attribute_ns,
}
use xmlparser.Dom.Document.{Document, depth_first}
use xmlparser.Dom.Document.Move.{Holds}
use xmlparser.Dom.Tree.{empty, ignored, leaf, branch}
use xmlparser.Dom.Tree.Walk.{depth_first-Holds}
use xmlparser.Dom.Builder.{parse}
use xmlparser.Dom.Builder.Parse.{Parsed, parse-Parsed}
use xmlparser.Dom.Document.{new_document}
use xmlparser.Serializer.{serialize}
use xmlparser.Serializer.Prints.{Prints, serialize-Prints}
use xmlparser.Serializer.Stream.{serialize_to, Written, StaysBad, serialize_to-Written}
use xmlparser.Prelude.{Bool, leb, length, length-append, concat, ◌++◌}
use xmlparser.Dom.Builder.Settled.{Settled, Settled-receive_all}
use xmlparser.Dom.Builder.Whole.{Tidy-new}
use xmlparser.Errors.{SourceLocation}
use xmlparser.Parser.State.{Context, Parser, done, new_parser}
use xmlparser.Parser.Cursor.{eof}
use xmlparser.Parser.Values.{text_loop, value_loop}
use xmlparser.Serializer.{escape_text, escape_attribute}
use xmlparser.Serializer.Pieces.{place, reading}
use xmlparser.Serializer.ReadBack.{text_loop-escape_text, value_loop-escape_attribute}
use xmlparser.Parser.Run.{parse_xml_document}

abbrev short_document : Bytes
short_document = codes "<a x='1'>t<b/></a>"

parse-Parsed_example :
    Parsed default_options
      (parse_xml_document short_document default_options)
      (parse short_document default_options)
parse-Parsed_example = parse-Parsed short_document default_options λ resolver id e. cc

abbrev plain_name : Bytes → QualifiedName
plain_name name = record { uri = []; local_name = name; qualified_name = name }

abbrev one_view : List AttributeView
one_view =
    record { name = plain_name (codes "x"); value = codes "1"; location = start_location } ∷ []

-- What the parser reports of `<a x='1'>t</a>`.
abbrev short_calls : List Call
short_calls =
    start_document
    ∷ start_element (plain_name (codes "a")) one_view
    ∷ characters (codes "t")
    ∷ end_element (plain_name (codes "a"))
    ∷ end_document
    ∷ []

abbrev short_heap : Heap
short_heap =
    record { owner = some 0; parent = none; children = 1 ∷ []; members = document_node }
    ∷ record {
      owner = some 0;
      parent = some 0;
      children = 2 ∷ [];
      members = element_node (codes "a") [] (codes "a") (
          record {
            namespace_uri = [];
            local_name = codes "x";
            qualified_name = codes "x";
            value = codes "1";
          }
          ∷ []);
    }
    ∷ record { owner = some 0; parent = some 1; children = []; members = text_node (codes "t") }
    ∷ []

abbrev short_held : Document
short_held = record { node = 0; storage = 1 ∷ 2 ∷ [] }

short_heap-Holds : Holds short_held short_calls short_heap
unfolding deref new_element set_attribute_ns
short_heap-Holds = record {
  roots = 1 ∷ [];
  at_node = refl;
  shows = ignored refl (
      branch (plain_name (codes "a")) one_view (2 ∷ []) 3 (characters (codes "t") ∷ [])
        (end_document ∷ []) refl (leaf (text_node (codes "t")) refl refl empty) (ignored refl empty)
        refl);
  stored = refl;
}

depth_first-Holds_example : depth_first short_heap 0 ≡ ok (1 ∷ 2 ∷ [])
depth_first-Holds_example = depth_first-Holds short_held short_calls short_heap short_heap-Holds

abbrev short_text : Bytes
short_text = codes "<a x=\"1\">t</a>"

serialize-Prints_example :
    (text : Bytes) × (serialize short_heap 0 ≡ ok text) × Prints short_calls text
serialize-Prints_example = serialize-Prints short_held short_calls short_heap short_heap-Holds

-- A stream that takes a hundred bytes.
abbrev has_room : Bytes → Bool
has_room output = leb (length output) 100

abbrev put_bytes : Bytes → Bytes → Bytes
put_bytes piece output = output ++ piece

has_room-StaysBad : StaysBad has_room put_bytes
has_room-StaysBad piece output e = ground (arith, e, length-append output piece)

serialize_to-Written_example :
    (pieces : List Bytes) × Prints short_calls (concat pieces)
    × Written has_room put_bytes pieces
        (codes "x")
        (serialize_to has_room put_bytes short_heap 0 (codes "x"))
serialize_to-Written_example =
    serialize_to-Written has_room put_bytes has_room-StaysBad short_held short_calls short_heap
      (codes "x") short_heap-Holds

-- An end without a start, and two roots.
abbrev odd_calls : List Call
odd_calls =
    end_element (plain_name (codes "a"))
    ∷ start_element (plain_name (codes "a")) []
    ∷ end_element (plain_name (codes "a"))
    ∷ start_element (plain_name (codes "a")) []
    ∷ []

Settled-receive_all_example :
    Settled default_options (receive_all default_options odd_calls (new_dom_builder []))
unfolding new_dom_builder new_document
Settled-receive_all_example =
    Settled-receive_all default_options odd_calls (new_dom_builder []) (Tidy-new default_options) tt

abbrev default_context : Context
default_context = record { options = default_options; end_location = start_location }

abbrev empty_parser : Parser
empty_parser = new_parser []

abbrev nowhere : ℕ → SourceLocation
nowhere _ = start_location

text_loop-escape_text_example :
    text_loop default_context start_location 4 []
      (reading empty_parser (place nowhere 0 (escape_text (codes "a<b")) []) 0)
    ≡ done (codes "a<b") (reading empty_parser [] 1)
text_loop-escape_text_example =
    text_loop-escape_text default_context (omega arith) empty_parser nowhere start_location
      (codes "a<b") [] 0 0 4 [] (omega arith, (omega arith, (omega arith, tt))) (omega arith)
      (omega arith) (omega arith) (unfold eof in refl)

value_loop-escape_attribute_example :
    value_loop default_context start_location b'"' 3 []
      (reading empty_parser (place nowhere 0 (escape_attribute (codes "a\"")) []) 0)
    ≡ done (codes "a\"") (reading empty_parser [] 1)
value_loop-escape_attribute_example =
    value_loop-escape_attribute default_context (omega arith) empty_parser nowhere start_location
      (codes "a\"") [] 0 0 3 [] (omega arith, (omega arith, tt)) (omega arith) (omega arith)
      (omega arith) (unfold eof in refl)
