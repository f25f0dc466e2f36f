-- ===== src/Tests/Links.antt =====
-- The links between nodes: the theorems on them at a document with one text.
use xmlparser.Prelude.{[], ◌∷◌, none, some, codes, ◌≡◌, refl}
use xmlparser.Errors.{ok}
use xmlparser.Dom.{
  Node, Heap, document_node, text_node, deref, write, erase, is_ancestor_of, ancestor_loop,
  same_owner, other_element, detach, set_parent, push_child, remove_child, append_child,
}
use xmlparser.Dom.Links.{Linked}
use xmlparser.Dom.Links.Write.{make-Linked}
use xmlparser.Dom.Links.Keep.{IsFree, append_child-Linked, remove_child-Linked}
use xmlparser.Dom.Links.Moves.{Moves, append_child-Moves}

abbrev the_document : Node
the_document = record { owner = some 0; parent = none; children = []; members = document_node }

abbrev the_text : Node
the_text = record { owner = some 0; parent = none; children = []; members = text_node (codes "x") }

abbrev joined_text : Node
joined_text = record the_text { parent = some 0 }

abbrev apart : Heap
apart = the_document ∷ the_text ∷ []

abbrev joined : Heap
joined = record the_document { children = 1 ∷ [] } ∷ joined_text ∷ []

empty-Linked : Linked []
unfolding deref
empty-Linked = record {
  down = λ i c n e h. cc;
  up = λ c i m e p. cc;
  distinct = λ i n e. absurd cc;
}

apart-Linked : Linked apart
apart-Linked =
    make-Linked (the_document ∷ []) the_text (make-Linked [] the_document empty-Linked refl refl)
      refl refl

apart-join : append_child 0 1 apart ≡ ok joined
unfolding append_child deref write is_ancestor_of ancestor_loop same_owner other_element detach
    push_child set_parent
apart-join = refl

-- The text is taken from the document and added to it again.
joined-join : append_child 0 1 joined ≡ ok joined
unfolding append_child deref write is_ancestor_of ancestor_loop same_owner other_element detach
    push_child set_parent remove_child erase
joined-join = refl

joined-Linked : Linked joined
joined-Linked = append_child-Linked 0 1 apart joined apart-Linked apart-join

append_child-Linked_example : Linked joined
append_child-Linked_example = append_child-Linked 0 1 joined joined joined-Linked joined-join

append_child-Moves_example : Moves 0 1 joined joined
append_child-Moves_example = append_child-Moves 0 1 joined joined joined-Linked joined-join

text_there : deref joined 1 ≡ ok joined_text
unfolding deref
text_there = refl

remove_child-Linked_example :
    (later : Heap) × (remove_child 0 1 joined ≡ ok later) × Linked later × IsFree later 1
remove_child-Linked_example =
    remove_child-Linked 0 1 joined joined_text joined-Linked text_there refl
