-- ===== src/Dom/Tree.antt =====
-- The document that a list of calls describes, as it lies in the heap: the abstract view that
-- `DomBuilder` implements.
pub mod Walk
use xmlparser.Prelude.{
  ℕ, zero, suc, ◌+◌, ◌<◌, ◌≤◌, Bool, true, false, List, [], ◌∷◌, ◌++◌, Option, none, some, length,
  ◌≡◌, refl, sym, ap, ◌∙◌, arith, append_assoc,
}
use xmlparser.Errors.{Result, ok}
use xmlparser.Sax.{
  Call, QualifiedName, AttributeView, start_document, end_document, start_element, end_element,
  characters, processing_instruction, comment, cdata, recoverable_error,
}
use xmlparser.Dom.{
  Node, NodeData, text_node, comment_node, cdata_node, processing_instruction_node, Attribute, Heap,
  deref, set_attribute_ns, new_element,
}
use xmlparser.Dom.Document.{with_attributes}

-- The members of the node that a call makes which neither opens nor closes an element.
abbrev pub leaf_members : Call → Option NodeData
leaf_members (characters text) = some (text_node text)
leaf_members (processing_instruction target text) = some (processing_instruction_node target text)
leaf_members (comment text) = some (comment_node text)
leaf_members (cdata text) = some (cdata_node text)
leaf_members _ = none

abbrev pub add_attributes : List AttributeView → List Attribute → List Attribute
add_attributes [] attributes = attributes
add_attributes (view ∷ views) attributes = add_attributes views (
    set_attribute_ns view.name.uri view.name.local_name view.name.qualified_name view.value
      attributes)

-- The members of the element that `start_element` makes.
abbrev pub element_members : QualifiedName → List AttributeView → NodeData
element_members name views =
    with_attributes (add_attributes views)
      (new_element name.qualified_name name.uri name.local_name)

-- How many nodes a call makes.
abbrev pub node_of : Call → ℕ
node_of (start_element name views) = 1
node_of (characters text) = 1
node_of (processing_instruction target text) = 1
node_of (comment text) = 1
node_of (cdata text) = 1
node_of _ = 0

abbrev pub nodes_of : List Call → ℕ
nodes_of [] = 0
nodes_of (c ∷ calls) = node_of c + nodes_of calls

-- The calls that the builder ignores.
abbrev pub is_ignored : Call → Bool
is_ignored start_document = true
is_ignored end_document = true
is_ignored (recoverable_error e) = true
is_ignored _ = false

-- In `heap` the children `roots` of the node `parent` are the trees that the calls describe, and
-- the nodes of these trees are those from `from` on and before `to`, in the order of the document.
pub data Shows (owner : ℕ) (heap : Heap) : ℕ → ℕ → List ℕ → List Call → ℕ → Type 0 where
  empty : {parent at : ℕ} → Shows owner heap parent at [] [] at
  ignored :
      {parent from to : ℕ} {roots : List ℕ} {c : Call} {calls : List Call}
      → is_ignored c ≡ true
      → Shows owner heap parent from roots calls to
      → Shows owner heap parent from roots (c ∷ calls) to
  leaf :
      {parent from to : ℕ} {roots : List ℕ} {c : Call} {calls : List Call} (members : NodeData)
      → leaf_members c ≡ some members
      → deref heap from
        ≡ ok (record { owner = some owner; parent = some parent; children = []; members = members })
      → Shows owner heap parent (suc from) roots calls to
      → Shows owner heap parent from (from ∷ roots) (c ∷ calls) to
  branch :
      {parent from to : ℕ} {roots : List ℕ} {calls : List Call} (name : QualifiedName)
      (views : List AttributeView) (children : List ℕ) (middle : ℕ) (inner rest : List Call)
      → deref heap from
        ≡ ok (record {
          owner = some owner;
          parent = some parent;
          children = children;
          members = element_members name views;
        })
      → Shows owner heap from (suc from) children inner middle
      → Shows owner heap parent middle roots rest to
      → calls ≡ start_element name views ∷ (inner ++ (end_element name ∷ rest))
      → Shows owner heap parent from (from ∷ roots) calls to

pub nodes_of-append : (xs ys : List Call) → nodes_of (xs ++ ys) ≡ nodes_of xs + nodes_of ys
nodes_of-append [] ys = omega arith
nodes_of-append (c ∷ xs) ys = omega (arith, nodes_of-append xs ys)

pub node_of-ignored : (c : Call) → is_ignored c ≡ true → node_of c ≡ 0
node_of-ignored c i = ground (arith, i)

pub node_of-leaf : (c : Call) (members : NodeData) → leaf_members c ≡ some members → node_of c ≡ 1
node_of-leaf c members e = ground (arith, e)

pub Shows-count :
    {owner : ℕ} {heap : Heap} {parent from to : ℕ} {roots : List ℕ} {calls : List Call}
    → Shows owner heap parent from roots calls to
    → to ≡ from + nodes_of calls
Shows-count empty = omega arith
Shows-count (ignored {c = c} i s) = omega (arith, node_of-ignored c i, Shows-count s)
Shows-count (leaf {c = c} members e d s) = omega (arith, node_of-leaf c members e, Shows-count s)
Shows-count (branch name views children middle inner rest d s t e) =
    rw e
      (omega (arith, nodes_of-append inner (end_element name ∷ rest), Shows-count s, Shows-count t))

-- Only the nodes of the trees matter.
pub Shows-frame :
    {owner : ℕ} {heap later : Heap} {parent from to : ℕ} {roots : List ℕ} {calls : List Call}
    → ((i : ℕ) → from ≤ i → i < to → deref later i ≡ deref heap i)
    → Shows owner heap parent from roots calls to
    → Shows owner later parent from roots calls to
Shows-frame same empty = empty
Shows-frame same (ignored i s) = ignored i (Shows-frame same s)
Shows-frame {from = from} same (leaf members e d s) =
    leaf members e (same from (omega arith) (omega (arith, Shows-count s)) ∙ d)
      (Shows-frame (λ i le lt. same i (omega (arith, le)) lt) s)
Shows-frame {from = from} same (branch name views children middle inner rest d s t e) =
    let low = Shows-count s in
    let high = Shows-count t in
    branch name views children middle inner rest
      (same from (omega arith) (omega (arith, low, high)) ∙ d)
      (Shows-frame (λ i le lt. same i (omega (arith, le)) (omega (arith, lt, high))) s)
      (Shows-frame (λ i le lt. same i (omega (arith, le, low)) lt) t) e

-- The lists of calls of consecutive siblings.
pub Shows-append :
    {owner : ℕ} {heap : Heap} {parent from middle to : ℕ} {roots more : List ℕ}
    {calls later : List Call}
    → Shows owner heap parent from roots calls middle
    → Shows owner heap parent middle more later to
    → Shows owner heap parent from (roots ++ more) (calls ++ later) to
Shows-append empty t = t
Shows-append (ignored i s) t = ignored i (Shows-append s t)
Shows-append (leaf members e d s) t = leaf members e d (Shows-append s t)
Shows-append {later = later} (branch name views children middle inner rest d s u e) t =
    branch name views children middle inner (rest ++ later) d s (Shows-append u t) (
      ap (λ (l : List Call). l ++ later) e
      ∙ ap (◌∷◌ (start_element name views)) (append_assoc inner (end_element name ∷ rest) later))
