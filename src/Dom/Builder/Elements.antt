-- ===== src/Dom/Builder/Elements.antt =====
-- The new element that `open_element` makes, with its attributes.
use xmlparser.Prelude.{ℕ, true, false, List, [], ◌∷◌, ◌++◌, length, ◌≡◌, refl, sym, ap, ◌∙◌, arith}
use xmlparser.Errors.{ok}
use xmlparser.Sax.{QualifiedName, AttributeView}
use xmlparser.Dom.{
  Node, NodeData, Heap, Attribute, is_document, is_element, write, new_element, set_attribute_ns,
}
use xmlparser.Dom.Document.{new_node, set_node_attribute, with_attributes}
use xmlparser.Dom.Memory.{deref_last}
use xmlparser.Dom.Tree.{add_attributes, element_members}
use xmlparser.Dom.Builder.{set_attributes}

write_last :
    (heap : Heap) (old new : Node) → write (length heap) new (heap ++ old ∷ []) ≡ heap ++ new ∷ []
unfolding write
write_last [] old new = refl
write_last (x ∷ heap) old new = ap (◌∷◌ x) (write_last heap old new)

no_attributes : (m : NodeData) → with_attributes (λ (a : List Attribute). a) m ≡ m
no_attributes m = ground arith

more_attributes :
    (f g : List Attribute → List Attribute) (m : NodeData)
    → with_attributes g (with_attributes f m) ≡ with_attributes (λ a. g (f a)) m
more_attributes f g m = ground arith

-- The loop over the attributes changes the new element only.
pub set_attributes-last :
    (views : List AttributeView) (owner : ℕ) (heap : Heap) (m : NodeData)
    → set_attributes (length heap) views (heap ++ new_node owner m ∷ [])
      ≡ ok (heap ++ new_node owner (with_attributes (add_attributes views) m) ∷ [])
unfolding set_attributes set_node_attribute
set_attributes-last [] owner heap m =
    ap (λ (k : NodeData). ok (heap ++ new_node owner k ∷ [])) (sym (no_attributes m))
set_attributes-last (view ∷ views) owner heap m =
    let first =
      set_attribute_ns view.name.uri view.name.local_name view.name.qualified_name view.value in
    rw
      (
        deref_last heap (new_node owner m),
        write_last heap (new_node owner m) (new_node owner (with_attributes first m)),
      )
      (set_attributes-last views owner heap (with_attributes first m)
        ∙ ap (λ (k : NodeData). ok (heap ++ new_node owner k ∷ []))
            (more_attributes first (add_attributes views) m))

pub element_members-plain :
    (name : QualifiedName) (views : List AttributeView)
    → is_document (element_members name views) ≡ false
unfolding new_element
element_members-plain name views = ground arith

pub element_members-element :
    (name : QualifiedName) (views : List AttributeView)
    → is_element (element_members name views) ≡ true
unfolding new_element
element_members-element name views = ground arith
