-- ===== src/Dom/Document.antt =====
-- The class `Document` of include/xmlparser/dom.h and src/dom.cpp: the nodes that a document owns,
-- the walk over them, and the move of one document into another. Destroying a node frees its
-- memory, which the heap does not show.
pub mod Adopt
pub mod Own
pub mod Nodes
pub mod Move
use xmlparser.Prelude.{
  ℕ, zero, suc, ◌+◌, Bool, List, [], ◌∷◌, ◌++◌, Option, none, some, ◌==◌, if◌then◌else◌, length,
  Bytes,
}
use xmlparser.Errors.{Result, ok, stuck, ◌>>=◌}
use xmlparser.Dom.{
  Node, NodeData, document_node, element_node, text_node, Attribute, Heap, deref, write, set_parent,
  set_attribute_ns,
}

-- The node that a document is, by its address, and `storage_`.
pub record Document : Type 0 where
  pub node : ℕ
  pub storage : List ℕ

-- `Document()`
unfoldable pub new_document : Heap → Document × Heap
new_document heap = (
  record { node = length heap; storage = [] },
  heap
      ++ record {
        owner = some (length heap);
        parent = none;
        children = [];
        members = document_node;
      }
        ∷ [],
)

-- What a constructor of a class derived from `Node` leaves.
abbrev pub new_node : ℕ → NodeData → Node
new_node owner members = record {
  owner = some owner;
  parent = none;
  children = [];
  members = members;
}

-- `make_node`, and with it `create_element` and the like: the new node, and the document behind it.
unfoldable pub make_node : Document → NodeData → Heap → ℕ × Document × Heap
make_node document members heap = (
  length heap,
  record document { storage = document.storage ++ length heap ∷ [] },
  heap ++ new_node document.node members ∷ [],
)

-- The members of an element with other attributes; the others have none.
abbrev pub with_attributes : (List Attribute → List Attribute) → NodeData → NodeData
with_attributes f (element_node qname uri name attributes) =
    element_node qname uri name (f attributes)
with_attributes f other = other

-- `Element::set_attribute_ns`, of the element `i`.
unfoldable pub set_node_attribute : Bytes → Bytes → Bytes → Bytes → ℕ → Heap → Result Heap
set_node_attribute uri name qname text i heap = do
  node ← deref heap i
  ok (
      write i
        (record node {
          members = with_attributes (set_attribute_ns uri name qname text) node.members;
        })
        heap)

-- `Text::set_text`
abbrev pub with_text : Bytes → NodeData → NodeData
with_text text (text_node old) = text_node text
with_text text other = other

unfoldable pub set_text : Bytes → ℕ → Heap → Result Heap
set_text text i heap = do
  node ← deref heap i
  ok (write i (record node { members = with_text text node.members }) heap)

-- A loop over nodes that may change the heap.
abbrev pub for_nodes : (ℕ → Heap → Result Heap) → List ℕ → Heap → Result Heap
for_nodes body [] heap = ok heap
for_nodes body (c ∷ nodes) heap = body c heap >>= for_nodes body nodes

unfoldable pub set_owner_document : Option ℕ → ℕ → Heap → Result Heap
set_owner_document owner i heap = do
  node ← deref heap i
  ok (write i (record node { owner = owner }) heap)

-- The recursion goes down one level for each unit of fuel.
unfoldable pub update_owner : ℕ → Option ℕ → ℕ → Heap → Result Heap
update_owner zero owner i heap = stuck
update_owner (suc fuel) owner i heap = do
  changed ← set_owner_document owner i heap
  node ← deref changed i
  for_nodes (update_owner fuel owner) node.children changed

-- The loop of `collect_depth_first`; `visit` is the recursive call.
abbrev pub collect_children : (ℕ → List ℕ → Result (List ℕ)) → List ℕ → List ℕ → Result (List ℕ)
collect_children visit [] nodes = ok nodes
collect_children visit (c ∷ children) nodes =
    visit c (nodes ++ c ∷ []) >>= collect_children visit children

unfoldable pub collect_depth_first : ℕ → Heap → ℕ → List ℕ → Result (List ℕ)
collect_depth_first zero heap i nodes = stuck
collect_depth_first (suc fuel) heap i nodes = do
  node ← deref heap i
  collect_children (collect_depth_first fuel heap) node.children nodes

unfoldable pub depth_first : Heap → ℕ → Result (List ℕ)
depth_first heap document = collect_depth_first (length heap) heap document []

-- `children_`, moved out of a node, which leaves it empty.
unfoldable pub set_children : List ℕ → ℕ → Heap → Result Heap
set_children children i heap = do
  node ← deref heap i
  ok (write i (record node { children = children }) heap)

-- What the move constructor and the move assignment share: both documents behind it.
unfoldable pub take_over : Document → Document → Heap → Result ((Document × Document) × Heap)
take_over this other heap = do
  from ← deref heap other.node
  emptied ← set_children [] other.node heap
  filled ← set_children from.children this.node emptied
  adopted ← for_nodes (λ c. set_parent c (some this.node)) from.children filled
  owned ← for_nodes (update_owner (length heap) (some this.node)) other.storage adopted
  ok ((record this { storage = other.storage }, record other { storage = [] }), owned)

-- `Document(Document&& other)`
unfoldable pub move_construct : Document → Heap → Result ((Document × Document) × Heap)
move_construct other heap = let (this, grown) = new_document heap in take_over this other grown

-- `operator=(Document&& other)`
unfoldable pub move_assign : Document → Document → Heap → Result ((Document × Document) × Heap)
move_assign this other heap =
    let taken = take_over this other heap in
    if this.node == other.node then ok ((this, other), heap) else taken
