-- ===== src/Dom/Builder/Insert.antt =====
-- One node more: what `add_node` and `open_element` do to the builder.
use xmlparser.Prelude.{
  range, range-snoc, ℕ, suc, ◌+◌, ◌≤◌, Bool, true, false, ◌&&◌, List, [], ◌∷◌, ◌++◌, length, leb,
  ◌≡◌, refl, ap, ◌∙◌, arith,
}
use xmlparser.Errors.{ok, throws, exception, resource_limit, start_location, XmlParseException}
use xmlparser.Options.{ParserOptions}
use xmlparser.Sax.{QualifiedName, AttributeView}
use xmlparser.Dom.{Node, NodeData, Heap, is_document, is_element, deref, other_element, new_element}
use xmlparser.Dom.Document.{new_node, make_node}
use xmlparser.Dom.Fresh.{
  append_child-refused, second_element, Added-later, append_child-Added, later,
}
use xmlparser.Dom.Tidy.{Added, TidyHeap-Added}
use xmlparser.Dom.Tree.{element_members}
use xmlparser.Dom.Builder.{
  DomBuilder, ensure_node_available, current_parent, append_to_current_parent, add_node,
  open_element, push_element,
}
use xmlparser.Dom.Builder.Tidy.{Tidy}
use xmlparser.Dom.Builder.Elements.{
  set_attributes-last, element_members-plain, element_members-element,
}

-- The document gets no second element by the new node.
abbrev pub Single : Heap → Node → NodeData → Type 0
Single heap n members =
    (second : Bool)
    → other_element (heap ++ new_node 0 members ∷ []) (length heap) n.children ≡ ok second
    → (is_document n.members && is_element members && second) ≡ false

abbrev pub too_many : XmlParseException
too_many = exception resource_limit start_location "DOM node count exceeds max_dom_nodes"

module _ (options : ParserOptions) (b : DomBuilder) (tidy : Tidy options b) (this : ℕ) (n : Node)
    (at_this : deref b.heap this ≡ ok n)
    (parent : current_parent b.document.node b.element_stack ≡ this) where
  -- The builder behind a new node with these members.
  abbrev pub inserted : NodeData → DomBuilder
  inserted members = record {
    document = record b.document { storage = b.document.storage ++ length b.heap ∷ [] };
    node_count = b.node_count + 1;
    element_stack = b.element_stack;
    heap = later 0 b.heap tidy.heap members this n at_this;
  }

  pub Added-inserted : (members : NodeData) → Added 0 b.heap this n members (inserted members).heap
  Added-inserted members = Added-later 0 b.heap tidy.heap members this n at_this

  pub Tidy-inserted :
      (members : NodeData)
      → b.node_count + 1 ≤ options.max_dom_nodes
      → Tidy options (inserted members)
  Tidy-inserted members room = record {
    at_document = tidy.at_document;
    heap =
        TidyHeap-Added 0 b.heap (inserted members).heap this n members tidy.heap at_this
          (Added-inserted members);
    size = omega (arith, (Added-inserted members).longer, tidy.size);
    stored =
        (ap (λ (l : List ℕ). l ++ length b.heap ∷ []) tidy.stored
          ∙ ap (λ (i : ℕ). range 1 b.node_count ++ i ∷ []) (omega (arith, tidy.size))
          ∙ range-snoc 1 b.node_count
          ∙ ap (λ (i : ℕ). range 1 i) {x = suc b.node_count} (omega arith));
    bound = room;
  }

  -- The builder behind `make_node`, with the members that the node gets before it is appended.
  abbrev made : ℕ → NodeData → DomBuilder
  made owner members = record {
    document = record b.document { storage = b.document.storage ++ length b.heap ∷ [] };
    node_count = b.node_count + 1;
    element_stack = b.element_stack;
    heap = b.heap ++ new_node owner members ∷ [];
  }

  append-owned :
      (members : NodeData)
      → Single b.heap n members
      → is_document members ≡ false
      → append_to_current_parent (length b.heap) (made 0 members) ≡ ok (inserted members)
  unfolding append_to_current_parent
  append-owned members single plain =
      rw (parent, append_child-Added 0 b.heap tidy.heap members this n at_this single plain) refl

  append-inserted :
      (members : NodeData)
      → Single b.heap n members
      → is_document members ≡ false
      → append_to_current_parent (length b.heap) (made b.document.node members)
        ≡ ok (inserted members)
  append-inserted members single plain =
      ap (λ (owner : ℕ). append_to_current_parent (length b.heap) (made owner members))
        tidy.at_document
      ∙ append-owned members single plain

  pub add_node-inserted :
      (members : NodeData)
      → leb (b.node_count + 1) options.max_dom_nodes ≡ true
      → Single b.heap n members
      → is_document members ≡ false
      → add_node options members b ≡ ok (inserted members)
  unfolding add_node ensure_node_available make_node
  add_node-inserted members room single plain = rw (room) (append-inserted members single plain)

  pub open_element-inserted :
      (name : QualifiedName) (views : List AttributeView)
      → leb (b.node_count + 1) options.max_dom_nodes ≡ true
      → Single b.heap n (element_members name views)
      → open_element options name views b
        ≡ ok (push_element (length b.heap) (inserted (element_members name views)))
  unfolding open_element ensure_node_available make_node
  open_element-inserted name views room single =
      rw
        (
          room,
          set_attributes-last views b.document.node b.heap
              (new_element name.qualified_name name.uri name.local_name),
          append-inserted (element_members name views) single (element_members-plain name views),
        )
        refl

  append-refused :
      (members : NodeData)
      → other_element (b.heap ++ new_node 0 members ∷ []) (length b.heap) n.children ≡ ok true
      → is_document members ≡ false
      → is_element members ≡ true
      → is_document n.members ≡ true
      → append_to_current_parent (length b.heap) (made 0 members) ≡ throws second_element
  unfolding append_to_current_parent
  append-refused members second plain is_one at_document =
      rw
        (
          parent,
          append_child-refused 0 b.heap tidy.heap members this n at_this second plain is_one
              at_document,
        )
        refl

  pub open_element-refused :
      (name : QualifiedName) (views : List AttributeView)
      → leb (b.node_count + 1) options.max_dom_nodes ≡ true
      → other_element
          (b.heap ++ new_node 0 (element_members name views) ∷ [])
          (length b.heap)
          n.children
        ≡ ok true
      → is_document n.members ≡ true
      → open_element options name views b ≡ throws second_element
  unfolding open_element ensure_node_available make_node
  open_element-refused name views room second at_document =
      let refused : append_to_current_parent (length b.heap)
            (made b.document.node (element_members name views))
          ≡ throws second_element =
        ap
          (λ (owner : ℕ).
            append_to_current_parent (length b.heap) (made owner (element_members name views)))
          tidy.at_document
        ∙ append-refused (element_members name views) second (element_members-plain name views)
            (element_members-element name views) at_document in
      rw
        (
          room,
          set_attributes-last views b.document.node b.heap
              (new_element name.qualified_name name.uri name.local_name),
          refused,
        )
        refl

pub add_node-full :
    (options : ParserOptions) (b : DomBuilder) (members : NodeData)
    → leb (b.node_count + 1) options.max_dom_nodes ≡ false
    → add_node options members b ≡ throws too_many
unfolding add_node ensure_node_available
add_node-full options b members over = rw over refl

pub open_element-full :
    (options : ParserOptions) (b : DomBuilder) (name : QualifiedName) (views : List AttributeView)
    → leb (b.node_count + 1) options.max_dom_nodes ≡ false
    → open_element options name views b ≡ throws too_many
unfolding open_element ensure_node_available
open_element-full options b name views over = rw over refl
