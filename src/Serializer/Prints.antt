-- ===== src/Serializer/Prints.antt =====
-- The text of a document, in terms of the calls that it is the tree of.
use xmlparser.Prelude.{
  ℕ, zero, suc, ◌+◌, ◌≤◌, Bool, true, List, [], ◌∷◌, ◌++◌, append-nil, concat, length, is_empty,
  some, Bytes, codes, ◌==◌, if◌then◌else◌, ◌≡◌, refl, sym, ap, subst, ◌∙◌, arith,
}
use xmlparser.Errors.{ok}
use xmlparser.Sax.{
  Call, QualifiedName, AttributeView, start_document, end_document, start_element, end_element,
  characters, processing_instruction, comment, cdata, recoverable_error,
}
use xmlparser.Dom.{
  NodeData, text_node, comment_node, cdata_node, processing_instruction_node, Attribute, Heap,
  new_element,
}
use xmlparser.Dom.Document.{Document, with_attributes}
use xmlparser.Dom.Document.Move.{Holds}
use xmlparser.Dom.Memory.{deref_below}
use xmlparser.Dom.Tree.{
  leaf_members, add_attributes, element_members, nodes_of, is_ignored, Shows, empty, ignored, leaf,
  branch, node_of-ignored, node_of-leaf, Shows-count,
}
use xmlparser.Dom.Tree.Walk.{Shows-live}
use xmlparser.Serializer.{
  escape_text, start_pieces, instruction_pieces, element_pieces, node_pieces, children_pieces,
  serialize_node, serialize,
}
use xmlparser.Serializer.Form.{replaced, text_table, start_tag}
use xmlparser.Serializer.Joined.{concat-append, escape_text-replaced, start_pieces-text}

-- An element with the text of its content: a single tag, if it has no nodes.
abbrev pub tagged : Bytes → Bytes → List Attribute → Bool → Bytes → Bytes
tagged qname uri attributes bare inner =
    let tag = start_tag qname uri attributes in
    if bare
    then tag ++ codes "/>"
    else tag ++ (codes ">" ++ (inner ++ (codes "</" ++ (qname ++ codes ">"))))

abbrev pub element_printed : QualifiedName → List AttributeView → Bool → Bytes → Bytes
element_printed name views bare inner =
    tagged name.qualified_name name.uri (add_attributes views []) bare inner

abbrev pub instruction_printed : Bytes → Bytes → Bytes
instruction_printed target [] = codes "<?" ++ (target ++ codes "?>")
instruction_printed target (ch ∷ text) =
    codes "<?" ++ (target ++ (codes " " ++ ((ch ∷ text) ++ codes "?>")))

-- The text that the calls stand for.
pub data Prints : List Call → Bytes → Type 0 where
  nothing : Prints [] []
  unprinted :
      {c : Call} {calls : List Call} {text : Bytes}
      → is_ignored c ≡ true
      → Prints calls text
      → Prints (c ∷ calls) text
  as_text :
      {calls : List Call} {text : Bytes} (t : Bytes)
      → Prints calls text
      → Prints (characters t ∷ calls) (replaced text_table t ++ text)
  as_comment :
      {calls : List Call} {text : Bytes} (t : Bytes)
      → Prints calls text
      → Prints (comment t ∷ calls) ((codes "<!--" ++ (t ++ codes "-->")) ++ text)
  as_cdata :
      {calls : List Call} {text : Bytes} (t : Bytes)
      → Prints calls text
      → Prints (cdata t ∷ calls) ((codes "<![CDATA[" ++ (t ++ codes "]]>")) ++ text)
  as_instruction :
      {calls : List Call} {text : Bytes} (target t : Bytes)
      → Prints calls text
      → Prints (processing_instruction target t ∷ calls) (instruction_printed target t ++ text)
  nested :
      {calls : List Call} (name : QualifiedName) (views : List AttributeView)
      (inner rest : List Call) (inner_text rest_text : Bytes)
      → Prints inner inner_text
      → Prints rest rest_text
      → calls ≡ start_element name views ∷ (inner ++ (end_element name ∷ rest))
      → Prints calls (element_printed name views (nodes_of inner == 0) inner_text ++ rest_text)

roots_empty :
    {owner : ℕ} {heap : Heap} {parent from to : ℕ} {roots : List ℕ} {calls : List Call}
    → Shows owner heap parent from roots calls to
    → is_empty roots ≡ (nodes_of calls == 0)
roots_empty empty = refl
roots_empty (ignored {c = c} i s) = ground (arith, node_of-ignored c i, roots_empty s)
roots_empty (leaf {c = c} members e d s) = ground (arith, node_of-leaf c members e)
roots_empty (branch name views children middle inner rest d s t e) = ground (arith, ap nodes_of e)

element_pieces-text :
    (qname uri : Bytes) (attributes : List Attribute) (children : List ℕ) (inner : List Bytes)
    → concat (element_pieces qname uri attributes children inner)
      ≡ tagged qname uri attributes (is_empty children) (concat inner)
unfolding element_pieces
element_pieces-text qname uri attributes [] inner =
    concat-append (start_pieces qname uri attributes) (codes "/>" ∷ [])
    ∙ ap (λ (t : Bytes). t ++ codes "/>") (start_pieces-text qname uri attributes)
element_pieces-text qname uri attributes (c ∷ children) inner =
    let last : List Bytes = codes "</" ∷ qname ∷ codes ">" ∷ [] in
    concat-append (start_pieces qname uri attributes) (codes ">" ∷ (inner ++ last))
    ∙ ap (λ (t : Bytes). t ++ (codes ">" ++ concat (inner ++ last)))
        (start_pieces-text qname uri attributes)
    ∙ ap (λ (t : Bytes). start_tag qname uri attributes ++ (codes ">" ++ t))
        (concat-append inner last)

node_pieces-element :
    (name : QualifiedName) (views : List AttributeView) (children : List ℕ) (inner : List Bytes)
    → concat (node_pieces (element_members name views) children inner)
      ≡ element_printed name views (is_empty children) (concat inner)
unfolding node_pieces new_element
node_pieces-element name views children inner = by_name name.local_name
  where
    by_name :
        (local_name : Bytes)
        → concat (
            node_pieces
              (with_attributes
                (add_attributes views)
                (new_element name.qualified_name name.uri local_name))
              children
              inner)
          ≡ element_printed name views (is_empty children) (concat inner)
    by_name [] =
        element_pieces-text name.qualified_name name.uri (add_attributes views []) children inner
    by_name (ch ∷ local_name) =
        element_pieces-text name.qualified_name name.uri (add_attributes views []) children inner

instruction_pieces-text :
    (target t : Bytes) → concat (instruction_pieces target t) ≡ instruction_printed target t
unfolding instruction_pieces
instruction_pieces-text target [] = refl
instruction_pieces-text target (ch ∷ t) = refl

-- A call that makes a node without children, by the text of that node.
abbrev PrintsLeaf : Call → NodeData → Type 0
PrintsLeaf c members =
    (calls : List Call) (text : Bytes)
    → Prints calls text
    → Prints (c ∷ calls) (concat (node_pieces members [] []) ++ text)

PrintsLeaf-some :
    (c : Call) (m members : NodeData)
    → leaf_members c ≡ some m
    → leaf_members c ≡ some members
    → PrintsLeaf c m
    → PrintsLeaf c members
PrintsLeaf-some c m members e f h = subst (PrintsLeaf c) (ground (arith, e, f)) h

leaf-PrintsLeaf :
    (c : Call) (members : NodeData) → leaf_members c ≡ some members → PrintsLeaf c members
unfolding node_pieces
leaf-PrintsLeaf (characters t) members e =
    PrintsLeaf-some (characters t) (text_node t) members refl e λ calls text p.
      subst (λ (b : Bytes). Prints (characters t ∷ calls) (b ++ text))
        (sym (append-nil (escape_text t) ∙ escape_text-replaced t)) (as_text t p)
leaf-PrintsLeaf (comment t) members e =
    PrintsLeaf-some (comment t) (comment_node t) members refl e λ calls text p. as_comment t p
leaf-PrintsLeaf (cdata t) members e =
    PrintsLeaf-some (cdata t) (cdata_node t) members refl e λ calls text p. as_cdata t p
leaf-PrintsLeaf (processing_instruction target t) members e =
    PrintsLeaf-some (processing_instruction target t) (processing_instruction_node target t) members
      refl e
      λ calls text p.
        subst (λ (b : Bytes). Prints (processing_instruction target t ∷ calls) (b ++ text))
          (sym (instruction_pieces-text target t)) (as_instruction target t p)
leaf-PrintsLeaf start_document members e = cc
leaf-PrintsLeaf end_document members e = cc
leaf-PrintsLeaf (start_element name views) members e = cc
leaf-PrintsLeaf (end_element name) members e = cc
leaf-PrintsLeaf (recoverable_error err) members e = cc

-- With a unit of fuel for each node, the pieces of the children come out.
abbrev Printed : ℕ → Heap → List ℕ → List Call → Type 0
Printed fuel heap roots calls =
    (pieces : List Bytes) × (children_pieces (serialize_node fuel heap) roots ≡ ok pieces)
    × Prints calls (concat pieces)

Shows-Printed :
    {owner : ℕ} {heap : Heap} {parent from to : ℕ} {roots : List ℕ} {calls : List Call} (fuel : ℕ)
    → Shows owner heap parent from roots calls to
    → to ≤ fuel + from
    → Printed fuel heap roots calls
unfolding children_pieces serialize_node
Shows-Printed fuel empty enough = ([], refl, nothing)
Shows-Printed fuel (ignored i s) enough =
    let (pieces, e, p) = Shows-Printed fuel s enough in (pieces, e, unprinted i p)
Shows-Printed zero (leaf members e d s) enough = absurd (omega (arith, Shows-count s))
Shows-Printed (suc fuel) (leaf {c = c} {calls = calls} members e d s) enough =
    let (pieces, f, p) = Shows-Printed (suc fuel) s (omega arith) in
    let one = node_pieces members [] [] in
    (
      one ++ pieces,
      rw (d, f) refl,
      subst (Prints (c ∷ calls)) (sym (concat-append one pieces))
          (leaf-PrintsLeaf c members e calls (concat pieces) p),
    )
Shows-Printed zero (branch name views children middle inner rest d s t e) enough =
    absurd (omega (arith, Shows-count s, Shows-count t))
Shows-Printed (suc fuel) (branch {calls = calls} name views children middle inner rest d s t e)
      enough =
    let low = Shows-count s in
    let high = Shows-count t in
    let (inner_pieces, f, p) = Shows-Printed fuel s (omega (arith, high)) in
    let (rest_pieces, g, q) = Shows-Printed (suc fuel) t (omega (arith, low)) in
    let one = node_pieces (element_members name views) children inner_pieces in
    let printed =
      node_pieces-element name views children inner_pieces
      ∙ ap (λ (b : Bool). element_printed name views b (concat inner_pieces)) (roots_empty s) in
    (
      one ++ rest_pieces,
      rw (d, f, g) refl,
      subst (Prints calls)
          (sym
            (concat-append one rest_pieces ∙ ap (λ (b : Bytes). b ++ concat rest_pieces) printed))
          (nested name views inner rest (concat inner_pieces) (concat rest_pieces) p q e),
    )

pub serialize_node-Prints :
    (document : Document) (calls : List Call) (heap : Heap)
    → Holds document calls heap
    → (pieces : List Bytes) × (serialize_node (length heap) heap document.node ≡ ok pieces)
      × Prints calls (concat pieces)
unfolding serialize_node node_pieces
serialize_node-Prints document calls heap h =
    by_length (length heap)
      (Shows-live h.shows (omega (arith, deref_below heap document.node _ h.at_node)))
  where
    by_length :
        (fuel : ℕ)
        → suc (nodes_of calls) ≤ fuel
        → (pieces : List Bytes) × (serialize_node fuel heap document.node ≡ ok pieces)
          × Prints calls (concat pieces)
    by_length zero le = absurd (omega arith)
    by_length (suc fuel) le =
        let (pieces, e, p) = Shows-Printed fuel h.shows (omega arith) in
        (pieces, rw (h.at_node, e) refl, p)

-- On a document that is the tree of a list of calls, the serializer ends, and its text is that of
-- the calls in their order: character data with &, < and > replaced, comments, CDATA sections and
-- processing instructions in their delimiters, and of each element the start tag and the end tag
-- around the text of its content, or a single tag where it has no nodes. The tag has the name, a
-- declaration of the namespace of the element, then one of each prefix that an attribute with a
-- namespace is first to use, and all the attributes in their order, with &, < and quotation marks
-- replaced in their values.
pub serialize-Prints :
    (document : Document) (calls : List Call) (heap : Heap)
    → Holds document calls heap
    → (text : Bytes) × (serialize heap document.node ≡ ok text) × Prints calls text
unfolding serialize
serialize-Prints document calls heap h =
    let (pieces, e, p) = serialize_node-Prints document calls heap h in
    (concat pieces, rw e refl, p)
