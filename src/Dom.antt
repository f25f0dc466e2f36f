-- ===== src/Dom.antt =====
-- include/xmlparser/dom.h and src/dom.cpp: the nodes of documents. A `Node*` is an index into the
-- heap of all nodes, which holds the documents themselves as well; reading a dangling pointer would
-- be `stuck`.
pub mod Attributes
pub mod Append
pub mod Document
pub mod Memory
pub mod Builder
pub mod Tidy
pub mod Fresh
pub mod Tree
pub mod Links
use xmlparser.Prelude.{
  ℕ, zero, suc, ◌+◌, ◌-◌, Bool, true, false, not, ◌&&◌, ◌||◌, List, [], ◌∷◌, ◌++◌, Option, none,
  some, String, Bytes, ◌=s=◌, ◌==◌, if◌then◌else◌, length, is_empty, drop, find_byte,
}
use xmlparser.Errors.{
  start_location, well_formedness, Result, ok, stuck, throw_parse, require, ◌>>=◌, ◌>>◌,
}

pub record Attribute : Type 0 where
  pub namespace_uri : Bytes
  pub local_name : Bytes
  pub qualified_name : Bytes
  pub value : Bytes

-- The members of the classes derived from `Node`.
pub data NodeData : Type 0 where
  document_node : NodeData
  element_node : Bytes → Bytes → Bytes → List Attribute → NodeData
  text_node comment_node cdata_node : Bytes → NodeData
  processing_instruction_node : Bytes → Bytes → NodeData

pub record Node : Type 0 where
  pub owner : Option ℕ
  pub parent : Option ℕ
  pub children : List ℕ
  pub members : NodeData

abbrev pub Heap : Type 0
Heap = List Node

-- `type() == NodeType::Document`, `type() == NodeType::Element`
abbrev pub is_document : NodeData → Bool
is_document document_node = true
is_document _ = false

abbrev pub is_element : NodeData → Bool
is_element (element_node _ _ _ _) = true
is_element _ = false

unfoldable pub deref : Heap → ℕ → Result Node
deref [] i = stuck
deref (node ∷ heap) zero = ok node
deref (node ∷ heap) (suc i) = deref heap i

unfoldable pub write : ℕ → Node → Heap → Heap
write i node [] = []
write zero node (old ∷ heap) = node ∷ heap
write (suc i) node (old ∷ heap) = old ∷ write i node heap

abbrev pub dom_check : Bool → String → Result (Unit {0})
dom_check test message = require test well_formedness start_location message

-- `is_ancestor_of`, from the first ancestor on. Each round goes one node up.
unfoldable pub ancestor_loop : Heap → ℕ → ℕ → Option ℕ → Result Bool
ancestor_loop heap fuel possible none = ok false
ancestor_loop heap zero possible (some cursor) = stuck
ancestor_loop heap (suc fuel) possible (some cursor) =
    let up = deref heap cursor >>= λ node. ancestor_loop heap fuel possible node.parent in
    if cursor == possible then ok true else up

unfoldable pub is_ancestor_of : Heap → ℕ → Node → Result Bool
is_ancestor_of heap possible node = ancestor_loop heap (length heap) possible node.parent

abbrev pub has_child : ℕ → List ℕ → Bool
has_child child [] = false
has_child child (c ∷ children) = c == child || has_child child children

-- `children_.erase(found)`, of the first that is found.
unfoldable pub erase : ℕ → List ℕ → List ℕ
erase child [] = []
erase child (c ∷ children) = if c == child then children else c ∷ erase child children

unfoldable pub set_parent : ℕ → Option ℕ → Heap → Result Heap
set_parent i parent heap = do
  node ← deref heap i
  ok (write i (record node { parent = parent }) heap)

unfoldable pub remove_child : ℕ → ℕ → Heap → Result Heap
remove_child this child heap = do
  node ← deref heap this
  dom_check (has_child child node.children) "Node is not a child of this parent"
  set_parent child none (write this (record node { children = erase child node.children }) heap)

-- The loop over the children of a document: is there an element but `child`?
unfoldable pub other_element : Heap → ℕ → List ℕ → Result Bool
other_element heap child [] = ok false
other_element heap child (c ∷ children) = do
  node ← deref heap c
  rest ← other_element heap child children
  ok ((not (c == child) && is_element node.members) || rest)

unfoldable pub detach : Option ℕ → ℕ → Heap → Result Heap
detach none child heap = ok heap
detach (some parent) child heap = remove_child parent child heap

unfoldable pub push_child : ℕ → ℕ → Heap → Result Heap
push_child this child heap = do
  node ← deref heap this
  set_parent child (some this)
      (write this (record node { children = node.children ++ child ∷ [] }) heap)

-- `owner_ != nullptr && child.owner_document() == owner_`
unfoldable pub same_owner : Option ℕ → Option ℕ → Bool
same_owner none other = false
same_owner (some owner) none = false
same_owner (some owner) (some other) = other == owner

unfoldable pub append_child : ℕ → ℕ → Heap → Result Heap
append_child this child heap = do
  node ← deref heap this
  added ← deref heap child
  dom_check (not (is_document added.members)) "Document nodes cannot be inserted as children"
  dom_check (same_owner node.owner added.owner) "Cannot insert a node owned by another document"
  cycle ← is_ancestor_of heap child node
  dom_check (not (child == this || cycle)) "Cannot create a DOM cycle"
  second ← other_element heap child node.children
  dom_check (not (is_document node.members && is_element added.members && second))
      "Document already has a document element"
  detached ← detach added.parent child heap
  push_child this child detached

-- `std::find` and the neighbours of what it finds.
unfoldable pub before : ℕ → List ℕ → Option ℕ
before this [] = none
before this (a ∷ []) = none
before this (a ∷ b ∷ siblings) =
    if a == this then none else if b == this then some a else before this (b ∷ siblings)

unfoldable pub after : ℕ → List ℕ → Option ℕ
after this [] = none
after this (a ∷ []) = none
after this (a ∷ b ∷ siblings) = if a == this then some b else after this (b ∷ siblings)

unfoldable pub siblings_of : Heap → Option ℕ → Result (List ℕ)
siblings_of heap none = ok []
siblings_of heap (some parent) = do node ← deref heap parent; ok node.children

unfoldable pub previous_sibling : Heap → ℕ → Result (Option ℕ)
previous_sibling heap this = do
  node ← deref heap this
  siblings ← siblings_of heap node.parent
  ok (before this siblings)

unfoldable pub next_sibling : Heap → ℕ → Result (Option ℕ)
next_sibling heap this = do
  node ← deref heap this
  siblings ← siblings_of heap node.parent
  ok (after this siblings)

unfoldable pub first_element : Heap → List ℕ → Result (Option ℕ)
first_element heap [] = ok none
first_element heap (c ∷ children) = do
  node ← deref heap c
  rest ← first_element heap children
  ok (if is_element node.members then some c else rest)

unfoldable pub document_element : Heap → ℕ → Result (Option ℕ)
document_element heap document = do node ← deref heap document; first_element heap node.children

-- `Element::set_attribute_ns`, on the attributes.
unfoldable pub set_attribute_ns : Bytes → Bytes → Bytes → Bytes → List Attribute → List Attribute
set_attribute_ns uri name qname text [] =
    record { namespace_uri = uri; local_name = name; qualified_name = qname; value = text } ∷ []
set_attribute_ns uri name qname text (a ∷ attributes) =
    if (a.namespace_uri =s= uri) && (a.local_name =s= name)
    then record a { qualified_name = qname; value = text } ∷ attributes
    else a ∷ set_attribute_ns uri name qname text attributes

unfoldable pub get_attribute_ns : Bytes → Bytes → List Attribute → Bytes
get_attribute_ns uri name [] = []
get_attribute_ns uri name (a ∷ attributes) =
    if (a.namespace_uri =s= uri) && (a.local_name =s= name)
    then a.value
    else get_attribute_ns uri name attributes

unfoldable pub set_attribute : Bytes → Bytes → List Attribute → List Attribute
set_attribute name text attributes = set_attribute_ns [] name name text attributes

unfoldable pub get_attribute : Bytes → List Attribute → Bytes
get_attribute name [] = []
get_attribute name (a ∷ attributes) =
    if a.qualified_name =s= name then a.value else get_attribute name attributes

-- The constructor of `Element`: an empty local name is taken from the qualified one.
unfoldable pub behind_colon : Bytes → Option ℕ → Bytes
behind_colon qname none = qname
behind_colon qname (some colon) = drop (colon + 1) qname

unfoldable pub new_element : Bytes → Bytes → Bytes → NodeData
new_element qname uri [] = element_node qname uri (behind_colon qname (find_byte b':' qname)) []
new_element qname uri (ch ∷ name) = element_node qname uri (ch ∷ name) []
