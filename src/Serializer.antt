-- ===== src/Serializer.antt =====
-- The serializer of src/dom.cpp. What is written to the stream is a list of pieces, one for each `<<`.
pub mod Escape
pub mod Form
pub mod Joined
pub mod Prints
pub mod Stream
pub mod Pieces
pub mod ReadBack
use xmlparser.Prelude.{
  ℕ, zero, suc, ◌+◌, ◌*◌, Bool, true, false, not, ◌&&◌, ◌||◌, List, [], ◌∷◌, ◌++◌, Option, none,
  some, Bytes, codes, ◌=s=◌, ◌==◌, if◌then◌else◌, length, is_empty, take, find_byte, any_of, concat,
}
use xmlparser.Errors.{Result, ok, stuck, ◌>>=◌, ◌>>◌}
use xmlparser.Dom.{
  Attribute, NodeData, document_node, element_node, text_node, comment_node, cdata_node,
  processing_instruction_node, Node, Heap, deref,
}

-- What one character becomes.
unfoldable pub text_escape : ℕ → Bytes
text_escape ch =
    if ch == b'&'
    then codes "&amp;"
    else if ch == b'<'
    then codes "&lt;"
    else if ch == b'>'
    then codes "&gt;"
    else ch ∷ []

unfoldable pub attribute_escape : ℕ → Bytes
attribute_escape ch =
    if ch == b'&'
    then codes "&amp;"
    else if ch == b'<'
    then codes "&lt;"
    else if ch == b'"'
    then codes "&quot;"
    else ch ∷ []

unfoldable pub escape_text : Bytes → Bytes
escape_text [] = []
escape_text (ch ∷ text) = text_escape ch ++ escape_text text

unfoldable pub escape_attribute : Bytes → Bytes
escape_attribute [] = []
escape_attribute (ch ∷ text) = attribute_escape ch ++ escape_attribute text

unfoldable pub before_colon : Bytes → Option ℕ → Bytes
before_colon qname none = []
before_colon qname (some colon) = take colon qname

unfoldable pub prefix_of : Bytes → Bytes
prefix_of qname = before_colon qname (find_byte b':' qname)

-- The declaration of the element's own namespace, and the prefix that it declares.
unfoldable pub own_declaration : Bytes → Bytes → List Bytes × List Bytes
own_declaration qname [] = ([], [])
own_declaration qname (ch ∷ uri) =
    let prefix = prefix_of qname in
    (
      if is_empty prefix
          then codes " " ∷ codes "xmlns=\"" ∷ escape_attribute (ch ∷ uri) ∷ codes "\"" ∷ []
          else codes " "
            ∷ codes "xmlns:"
            ∷ prefix
            ∷ codes "=\""
            ∷ escape_attribute (ch ∷ uri)
            ∷ codes "\""
            ∷ [],
      prefix ∷ [],
    )

-- The first loop over the attributes, with the prefixes declared so far.
unfoldable pub attribute_declarations : List Bytes → List Attribute → List Bytes
attribute_declarations declared [] = []
attribute_declarations declared (a ∷ attributes) =
    let prefix = prefix_of a.qualified_name in
    let known = attribute_declarations declared attributes in
    let fresh = attribute_declarations (prefix ∷ declared) attributes in
    if is_empty a.namespace_uri || any_of (λ other. other =s= prefix) declared
    then known
    else codes " xmlns:"
      ∷ prefix
      ∷ codes "=\""
      ∷ escape_attribute a.namespace_uri
      ∷ codes "\""
      ∷ fresh

unfoldable pub attribute_pieces : List Attribute → List Bytes
attribute_pieces [] = []
attribute_pieces (a ∷ attributes) =
    codes " "
    ∷ a.qualified_name
    ∷ codes "=\""
    ∷ escape_attribute a.value
    ∷ codes "\""
    ∷ attribute_pieces attributes

unfoldable pub start_pieces : Bytes → Bytes → List Attribute → List Bytes
start_pieces qname uri attributes =
    let own = own_declaration qname uri in
    codes "<"
    ∷ qname
    ∷ (own.0 ++ (attribute_declarations own.1 attributes ++ attribute_pieces attributes))

unfoldable pub instruction_pieces : Bytes → Bytes → List Bytes
instruction_pieces target [] = codes "<?" ∷ target ∷ codes "?>" ∷ []
instruction_pieces target (ch ∷ text) =
    codes "<?" ∷ target ∷ codes " " ∷ (ch ∷ text) ∷ codes "?>" ∷ []

unfoldable pub element_pieces : Bytes → Bytes → List Attribute → List ℕ → List Bytes → List Bytes
element_pieces qname uri attributes [] inner = start_pieces qname uri attributes ++ codes "/>" ∷ []
element_pieces qname uri attributes (c ∷ children) inner =
    start_pieces qname uri attributes ++ codes ">" ∷ (inner ++ codes "</" ∷ qname ∷ codes ">" ∷ [])

-- The `switch` on the type, with the pieces of the children.
unfoldable pub node_pieces : NodeData → List ℕ → List Bytes → List Bytes
node_pieces document_node children inner = inner
node_pieces (element_node qname uri name attributes) children inner =
    element_pieces qname uri attributes children inner
node_pieces (text_node text) children inner = escape_text text ∷ []
node_pieces (comment_node text) children inner = codes "<!--" ∷ text ∷ codes "-->" ∷ []
node_pieces (cdata_node text) children inner = codes "<![CDATA[" ∷ text ∷ codes "]]>" ∷ []
node_pieces (processing_instruction_node target text) children inner =
    instruction_pieces target text

-- The loops over the children; `child_pieces` is `serialize_node`.
unfoldable pub children_pieces : (ℕ → Result (List Bytes)) → List ℕ → Result (List Bytes)
children_pieces child_pieces [] = ok []
children_pieces child_pieces (c ∷ children) = do
  first ← child_pieces c
  rest ← children_pieces child_pieces children
  ok (first ++ rest)

-- The recursion goes down one level of the tree for each unit of fuel; the heap holds as many nodes
-- as a path without a cycle can have.
unfoldable pub serialize_node : ℕ → Heap → ℕ → Result (List Bytes)
serialize_node zero heap i = stuck
serialize_node (suc fuel) heap i = do
  node ← deref heap i
  inner ← children_pieces (serialize_node fuel heap) node.children
  ok (node_pieces node.members node.children inner)

-- To a string, which takes every piece.
unfoldable pub serialize : Heap → ℕ → Result Bytes
serialize heap document =
    serialize_node (length heap) heap document >>= λ pieces. ok (concat pieces)
