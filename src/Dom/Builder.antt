-- ===== src/Dom/Builder.antt =====
-- `DomBuilder` of src/xmlparser.cpp, the handler that makes a document of the parser's calls, and
-- the `parse` that returns a document.
pub mod Tidy
pub mod Elements
pub mod Insert
pub mod After
pub mod Grow
pub mod Trees
pub mod Whole
pub mod Settled
pub mod Parse
use xmlparser.Prelude.{ℕ, suc, ◌+◌, List, [], ◌∷◌, leb, Bytes}
use xmlparser.Errors.{
  start_location, resource_limit, XmlParseException, Result, ok, throws, stuck, require, ◌>>=◌,
  ◌>>◌,
}
use xmlparser.Options.{ParserOptions}
use xmlparser.Sax.{
  Call, QualifiedName, AttributeView, start_document, end_document, start_element, end_element,
  characters, processing_instruction, comment, cdata, recoverable_error,
}
use xmlparser.Dom.{
  NodeData, text_node, comment_node, cdata_node, processing_instruction_node, Heap, append_child,
  new_element,
}
use xmlparser.Dom.Document.{Document, new_document, make_node, set_node_attribute, move_construct}
use xmlparser.Parser.State.{Outcome, done, raises, diverges}
use xmlparser.Parser.Run.{parse_xml_document}

-- `options_` is an argument of the methods; the innermost element comes first in the stack.
pub record DomBuilder : Type 0 where
  pub document : Document
  pub node_count : ℕ
  pub element_stack : List ℕ
  pub heap : Heap

unfoldable pub new_dom_builder : Heap → DomBuilder
new_dom_builder heap =
    let (document, grown) = new_document heap in
    record { document = document; node_count = 0; element_stack = []; heap = grown }

unfoldable pub ensure_node_available : ParserOptions → DomBuilder → Result DomBuilder
ensure_node_available options b = do
  require (leb (b.node_count + 1) options.max_dom_nodes) resource_limit start_location
      "DOM node count exceeds max_dom_nodes"
  ok (record b { node_count = b.node_count + 1 })

-- `element_stack_.back()`, or the document where the stack is empty.
abbrev pub current_parent : ℕ → List ℕ → ℕ
current_parent document [] = document
current_parent document (element ∷ stack) = element

unfoldable pub append_to_current_parent : ℕ → DomBuilder → Result DomBuilder
append_to_current_parent node b = do
  heap ← append_child (current_parent b.document.node b.element_stack) node b.heap
  ok (record b { heap = heap })

-- `create_...` with the node's members, and the appending.
unfoldable pub add_node : ParserOptions → NodeData → DomBuilder → Result DomBuilder
add_node options members b = do
  counted ← ensure_node_available options b
  let (node, document, heap) = make_node counted.document members counted.heap
  append_to_current_parent node (record counted { document = document; heap = heap })

-- The loop over the attributes.
unfoldable pub set_attributes : ℕ → List AttributeView → Heap → Result Heap
set_attributes element [] heap = ok heap
set_attributes element (view ∷ views) heap =
    set_node_attribute view.name.uri view.name.local_name view.name.qualified_name view.value
      element heap
    >>= set_attributes element views

abbrev pub push_element : ℕ → DomBuilder → DomBuilder
push_element element b = record b { element_stack = element ∷ b.element_stack }

unfoldable pub open_element :
    ParserOptions → QualifiedName → List AttributeView → DomBuilder → Result DomBuilder
open_element options name views b = do
  counted ← ensure_node_available options b
  let (element, document, grown) =
      make_node counted.document (new_element name.qualified_name name.uri name.local_name)
        counted.heap
  heap ← set_attributes element views grown
  appended ← append_to_current_parent element (record counted { document = document; heap = heap })
  ok (push_element element appended)

abbrev pub pop_element : List ℕ → List ℕ
pop_element [] = []
pop_element (element ∷ stack) = stack

-- One call of the parser. The builder does not override `start_document` and `end_document`, and a
-- recoverable error does not go to the handler.
unfoldable pub receive : ParserOptions → Call → DomBuilder → Result DomBuilder
receive options start_document b = ok b
receive options end_document b = ok b
receive options (start_element name views) b = open_element options name views b
receive options (end_element name) b = ok (record b { element_stack = pop_element b.element_stack })
receive options (characters text) b = add_node options (text_node text) b
receive options (processing_instruction target text) b =
    add_node options (processing_instruction_node target text) b
receive options (comment text) b = add_node options (comment_node text) b
receive options (cdata text) b = add_node options (cdata_node text) b
receive options (recoverable_error e) b = ok b

-- All calls of a run, one after the other: an exception from the builder ends the run.
unfoldable pub receive_all : ParserOptions → List Call → DomBuilder → Result DomBuilder
receive_all options [] b = ok b
receive_all options (c ∷ calls) b = receive options c b >>= receive_all options calls

-- `return std::move(builder.document);`
unfoldable pub move_out : DomBuilder → Result (Document × Heap)
move_out b = do moved ← move_construct b.document b.heap; ok (moved.0.0, moved.1)

unfoldable pub parse_after : ParserOptions → Outcome (Unit {0}) → Result (Document × Heap)
parse_after options (done _ p) = receive_all options p.calls (new_dom_builder []) >>= move_out
parse_after options (raises e calls) =
    receive_all options calls (new_dom_builder []) >>= λ _. throws e
parse_after options diverges = stuck

-- `parse(xml, options)`: the document, and the heap that it lies in.
unfoldable pub parse : Bytes → ParserOptions → Result (Document × Heap)
parse xml options = parse_after options (parse_xml_document xml options)
