-- ===== src/Lib.antt =====
-- XMLParser, a validating, namespace-aware XML parser with SAX and DOM interfaces (C++).
--
-- The library has one core, src/parser_core.cpp: the input is decoded as a whole to characters with
-- their places, and then a recursive descent parser reads these characters and calls the client (a
-- SaxHandler). The parser keeps a cursor, a count of expanded references, the stack of open elements
-- (plain names, resolved names, namespace scopes, and what validation needs of each), and what the
-- DOCTYPE declared.
--
-- Files, and what they model:
--   Prelude        numbers, lists, byte strings and bits, shared by all
--   Errors         include/xmlparser/errors.h, source_location.h: exceptions as values
--   Options, Sax   include/xmlparser/options.h, version.h, sax.h: what a caller sets and is told
--   Chars          the character classes and string helpers at the top of src/parser_core.cpp
--   Decode         decode_utf8, decode_utf16, decode_document and LocationTracker; Decode/Places counts
--                  lines and columns in the characters before a place
--   Parser/State   the members of class Parser; its methods are functions from the state to an outcome
--                  (a value with a new state, an exception, or no end)
--   Parser/Cursor, Tokens, References, Markup, Dtd, Doctype, Namespaces, Values, StartTag, Validation,
--   Content, Run   the methods of class Parser, in groups; each source method has a definition of its
--                  name, and its loops and the branches of long methods are definitions of their own
--   Parser/Events  the shape of the calls that the client gets
--   Parser/Progress  one lemma for each method on what it does to the state
--   Front          SaxParser (feed, finish) and CallbackHandler of src/xmlparser.cpp
--   Dom            the nodes of src/dom.cpp as a heap: append_child, remove_child, attributes, siblings
--   Dom/Append, Attributes, Memory, Tidy, Fresh  the heap after these operations
--   Dom/Links      the links between parents and children; Links/Write changes them, and Links/Keep,
--                  Links/Frees and Links/Moves are about append_child and remove_child
--   Dom/Document   documents: the nodes they store, the walk over them, and the move of a document;
--                  Document/Adopt, Own, Nodes, Move are about the new owner of the nodes
--   Dom/Builder    DomBuilder of src/xmlparser.cpp, and the parse that returns a document; its child
--                  modules follow the builder from one call to a whole document
--   Dom/Tree       the tree that a list of calls describes, as it lies in the heap; Tree/Walk visits it
--   Serializer     escaping and serialize_node of src/dom.cpp, which gives one piece for each `<<`;
--                  Stream writes them to a stream, Form, Joined and Prints have the text of tags and calls,
--                  Pieces and ReadBack give escaped text to the parser
--   Tests          runs on small inputs; Tests/Documents and Tests/Links have those with documents
--
-- How the model stands to the code. `document_` with `index_` is the list of the characters not read
-- yet, so a comparison of `index_` with the size is a match on that list. A std::vector used as a
-- stack is a list with its top in front; std::map is an association list, where only lookup is
-- observed. Strings are lists of bytes, char32_t and std::size_t are natural numbers; where the
-- source shifts, casts or could overflow 32 bits, `% 2 ^ w` is written out. The limits of the options
-- bound what the source counts in std::size_t. The calls of the client are recorded in order; a
-- client that throws cuts this list short. The caller's resolver of external identifiers is a
-- parameter.
--
-- Loops and fuel. A loop over the characters is recursion on the list, or on fuel of two units for
-- each character left and two more: each round takes a character at least, and an element costs a
-- round more than its characters. The nesting of entities has max_entity_expansions levels, as the
-- source refuses a greater depth.
--
-- The walk to the ancestors of a node and the recursions of the serializer, of depth_first and of
-- update_owner have as many units as the heap has nodes, which is as long as a path without a cycle
-- can be.
--
-- A document is the address of its node with the list of the nodes that it stores. A vector that was
-- moved from is empty, and memory that is freed stays in the heap.
--
-- Not modelled: SerializeOptions, which no code reads, and XmlValidityException, which no code
-- throws. The output stream is a parameter, with the effect of one `<<` on it and the test good().
-- The message of an exception is kept as text, without further properties. previous_location is left
-- out, as nothing calls it. The size of the C++ call stack is not part of the model.
pub mod Prelude
pub mod Errors
pub mod Options
pub mod Chars
pub mod Decode
pub mod Sax
pub mod Parser
pub mod Front
pub mod Dom
pub mod Serializer
mod Tests
