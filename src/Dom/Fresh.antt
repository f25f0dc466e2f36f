-- ===== src/Dom/Fresh.antt =====
-- A node that was just made is appended: `append_child` lets it pass, and changes two nodes.
use xmlparser.Prelude.{
  ℕ, suc, ◌<◌, Bool, true, false, not, ◌&&◌, [], ◌∷◌, ◌++◌, some, length, length-append, ◌==◌, ◌≡◌,
  inl, inr, refl, sym, ap, subst, ◌∙◌, arith,
}
use xmlparser.Errors.{
  ok, throws, exception, well_formedness, start_location, XmlParseException, ◌>>◌,
}
use xmlparser.Dom.{
  Node, NodeData, Heap, is_document, is_element, deref, write, is_ancestor_of, other_element,
  detach, set_parent, push_child, append_child, same_owner, dom_check,
}
use xmlparser.Dom.Document.{new_node}
use xmlparser.Dom.Memory.{
  deref_below, deref-append, deref_last, length-write, deref-write, deref-write_other, deref_same,
  position_cases,
}
use xmlparser.Dom.Tidy.{
  Below-mono, Sound, TidyHeap, with_children, with_parent, Added, All-longer, ancestor_loop-fresh,
  other_element_live,
}

abbrev pub second_element : XmlParseException
second_element = exception well_formedness start_location "Document already has a document element"

module _ (document : ℕ) (heap : Heap) (tidy : TidyHeap document heap) (members : NodeData) where
  -- The heap behind `make_node`.
  abbrev grown : Heap
  grown = heap ++ new_node document members ∷ []

  length-grown : length grown ≡ suc (length heap)
  length-grown = omega (arith, length-append heap (new_node document members ∷ []))

  TidyHeap-grown : TidyHeap document grown
  TidyHeap-grown i n e =
      elim (position_cases i (length heap) (omega (arith, deref_below grown i n e, length-grown))) [
        | inl lt ↦
            let s = tidy i n (sym (deref-append heap _ i lt) ∙ e) in
            record {
              owned = s.owned;
              older = s.older;
              live =
                  All-longer (length heap) (length grown) n.children (omega (arith, length-grown))
                    s.live;
            }
        | inr same ↦
            let fresh : new_node document members ≡ n =
              deref_same grown (length heap) _ n (deref_last heap _)
                (ap (λ (j : ℕ). deref grown j) (sym same) ∙ e) in
            subst (λ (m : Node). Sound document grown i m) fresh
              (record { owned = refl; older = tt; live = tt })
      ]

  module _ (this : ℕ) (n : Node) (at_this : deref heap this ≡ ok n) where
    abbrev pub later : Heap
    later =
        write (length heap) (with_parent (new_node document members) (some this))
          (write this (with_children n (n.children ++ length heap ∷ [])) grown)

    this_below : this < length heap
    this_below = deref_below heap this n at_this

    -- The heap with the new child entered in its parent.
    abbrev filled : Heap
    filled = write this (with_children n (n.children ++ length heap ∷ [])) grown

    length-filled : length filled ≡ suc (length heap)
    length-filled = length-write this _ grown ∙ length-grown

    this_differs : (this == length heap) ≡ false
    this_differs = ground (arith, this_below)

    new_differs : (length heap == this) ≡ false
    new_differs = ground (arith, this_below)

    pub Added-later : Added document heap this n members later
    Added-later = record {
      longer = length-write (length heap) _ filled ∙ length-filled;
      others = λ j lt differs.
          deref-write_other filled (length heap) j _ (ground (arith, lt))
          ∙ deref-write_other grown this j _ differs
          ∙ deref-append heap _ j lt;
      at_this =
          deref-write_other filled (length heap) this _ this_differs
          ∙ deref-write grown this _ (omega (arith, this_below, length-grown));
      at_new = deref-write filled (length heap) _ (omega (arith, length-filled));
    }

    push_child-later : push_child this (length heap) grown ≡ ok later
    unfolding push_child set_parent
    push_child-later =
        let e₁ = deref-append heap (new_node document members ∷ []) this this_below ∙ at_this in
        let e₂ : deref filled (length heap) ≡ ok (new_node document members) =
          deref-write_other grown this (length heap) _ new_differs ∙ deref_last heap _ in
        rw (e₁, e₂) refl

    -- All but the last test of `append_child` let the new node pass.
    append_child-reduces :
        (second : Bool)
        → other_element grown (length heap) n.children ≡ ok second
        → is_document members ≡ false
        → append_child this (length heap) grown ≡ (
            dom_check
              (not (is_document n.members && is_element members && second))
              "Document already has a document element"
            >> push_child this (length heap) grown)
    unfolding append_child is_ancestor_of detach same_owner
    append_child-reduces second e₃ plain =
        let s = tidy this n at_this in
        let e₁ = deref-append heap (new_node document members ∷ []) this this_below ∙ at_this in
        let e₂ = deref_last heap (new_node document members) in
        let e₄ =
          ancestor_loop-fresh document grown TidyHeap-grown (length heap) (length grown) n.parent
            (omega (arith, length-grown))
            (Below-mono n.parent this (length grown) (omega (arith, this_below, length-grown))
              s.older)
            (Below-mono n.parent this (length heap) (omega (arith, this_below)) s.older) in
        let self : same_owner n.owner (some document) ≡ true = rw s.owned (ground arith) in
        rw (e₁, e₂, plain, self, e₄, new_differs, e₃) refl

    pub new_other_element :
        (second : Bool) × (other_element grown (length heap) n.children ≡ ok second)
    new_other_element = other_element_live document grown TidyHeap-grown (length heap) n.children (
        All-longer (length heap) (length grown) n.children (omega (arith, length-grown))
          (tidy this n at_this).live)

    -- The appending succeeds, if the document gets no second element by it.
    pub append_child-Added :
        ((second : Bool)
          → other_element grown (length heap) n.children ≡ ok second
          → (is_document n.members && is_element members && second) ≡ false)
        → is_document members ≡ false
        → append_child this (length heap) grown ≡ ok later
    append_child-Added single plain =
        let (second, e₃) = new_other_element in
        rw (append_child-reduces second e₃ plain, single second e₃) push_child-later

    -- It throws, if the document would get a second element.
    pub append_child-refused :
        other_element grown (length heap) n.children ≡ ok true
        → is_document members ≡ false
        → is_element members ≡ true
        → is_document n.members ≡ true
        → append_child this (length heap) grown ≡ throws second_element
    append_child-refused e₃ plain is_one at_document =
        rw (append_child-reduces true e₃ plain, is_one, at_document) refl
