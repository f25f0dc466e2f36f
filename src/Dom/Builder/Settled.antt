-- ===== src/Dom/Builder/Settled.antt =====
-- Whatever calls it gets, `DomBuilder` returns or throws: it never follows a dangling pointer.
use xmlparser.Prelude.{
  ℕ, ◌+◌, ◌<◌, Bool, true, false, ◌&&◌, List, [], ◌∷◌, length, leb, ◌≡◌, inl, inr, refl, ap, ◌∙◌,
  arith, All, Bool-cases,
}
use xmlparser.Errors.{Result, ok, throws, XmlParseException, ◌>>=◌}
use xmlparser.Options.{ParserOptions}
use xmlparser.Sax.{
  Call, QualifiedName, AttributeView, start_document, end_document, start_element, end_element,
  characters, processing_instruction, comment, cdata, recoverable_error,
}
use xmlparser.Dom.{
  NodeData, is_document, is_element, text_node, comment_node, cdata_node,
  processing_instruction_node,
}
use xmlparser.Dom.Memory.{deref-Live}
use xmlparser.Dom.Fresh.{new_other_element}
use xmlparser.Dom.Tidy.{All-longer}
use xmlparser.Dom.Tree.{element_members}
use xmlparser.Dom.Builder.{
  DomBuilder, current_parent, add_node, open_element, pop_element, receive, receive_all,
}
use xmlparser.Dom.Builder.Insert.{
  inserted, Added-inserted, Tidy-inserted, add_node-inserted, open_element-inserted,
  open_element-refused, add_node-full, open_element-full,
}
use xmlparser.Dom.Builder.Tidy.{Tidy}
use xmlparser.Dom.Builder.Grow.{Tidy-opened}

abbrev pub Alive : DomBuilder → Type 0
Alive b = All (λ i. i < length b.heap) b.element_stack

pub data Settled (options : ParserOptions) : Result DomBuilder → Type 0 where
  good : {b : DomBuilder} → Tidy options b → Alive b → Settled options (ok b)
  broke : {e : XmlParseException} → Settled options (throws e)

current_parent_live :
    (document count : ℕ) (stack : List ℕ)
    → document < count
    → All (λ i. i < count) stack
    → current_parent document stack < count
current_parent_live document count [] lt h = lt
current_parent_live document count (i ∷ stack) lt (live, h) = live

All-tail :
    (count : ℕ) (stack : List ℕ)
    → All (λ i. i < count) stack
    → All (λ i. i < count) (pop_element stack)
All-tail count [] h = tt
All-tail count (i ∷ stack) (live, h) = h

module _ (options : ParserOptions) (b : DomBuilder) (tidy : Tidy options b) (alive : Alive b) where
  abbrev this : ℕ
  this = current_parent b.document.node b.element_stack

  this_live : this < length b.heap
  this_live =
      current_parent_live b.document.node (length b.heap) b.element_stack
        (omega (arith, tidy.at_document, tidy.size)) alive

  Settled-add_node :
      (members : NodeData)
      → is_document members ≡ false
      → is_element members ≡ false
      → Settled options (add_node options members b)
  Settled-add_node members plain other =
      let (n, e) = deref-Live b.heap this this_live in
      elim (Bool-cases (leb (b.node_count + 1) options.max_dom_nodes)) [
        | inl room ↦
            rw
              (add_node-inserted options b tidy this n e refl members room
                (λ second _. ground (arith, other)) plain)
              (good (Tidy-inserted options b tidy this n e refl members (ground (arith, room))) (
                All-longer (length b.heap)
                  (length (inserted options b tidy this n e refl members).heap) b.element_stack
                  (omega (arith, (Added-inserted options b tidy this n e refl members).longer))
                  alive))
        | inr over ↦ rw (add_node-full options b members over) broke
      ]

  Settled-open_element :
      (name : QualifiedName) (views : List AttributeView)
      → Settled options (open_element options name views b)
  Settled-open_element name views =
      let (n, e) = deref-Live b.heap this this_live in
      let (second, found) =
        new_other_element 0 b.heap tidy.heap (element_members name views) this n e in
      let a = Added-inserted options b tidy this n e refl (element_members name views) in
      elim (Bool-cases (leb (b.node_count + 1) options.max_dom_nodes)) [
        | inr over ↦ rw (open_element-full options b name views over) broke
        | inl room ↦ elim (Bool-cases (is_document n.members && second)) [
          | inl twice ↦
              let one : second ≡ true = ground (arith, twice) in
              rw
                (open_element-refused options b tidy this n e refl name views room
                  (found ∙ ap (λ (t : Bool). ok t) one) (ground (arith, twice)))
                broke
          | inr single ↦
              rw
                (open_element-inserted options b tidy this n e refl name views room
                  (λ other f. let same : other ≡ second = cc in ground (arith, single, same)))
                (good (Tidy-opened options b this n tidy e refl name views (ground (arith, room))) (
                  omega (arith, a.longer),
                  All-longer (length b.heap)
                      (length
                        (inserted options b tidy this n e refl (element_members name views)).heap)
                      b.element_stack (omega (arith, a.longer)) alive,
                ))
        ]
      ]

  Settled-receive : (c : Call) → Settled options (receive options c b)
  unfolding receive
  Settled-receive start_document = good tidy alive
  Settled-receive end_document = good tidy alive
  Settled-receive (start_element name views) = Settled-open_element name views
  Settled-receive (end_element name) =
      good
        (record {
          at_document = tidy.at_document;
          heap = tidy.heap;
          size = tidy.size;
          stored = tidy.stored;
          bound = tidy.bound;
        })
        (All-tail (length b.heap) b.element_stack alive)
  Settled-receive (characters text) = Settled-add_node (text_node text) refl refl
  Settled-receive (processing_instruction target text) =
      Settled-add_node (processing_instruction_node target text) refl refl
  Settled-receive (comment text) = Settled-add_node (comment_node text) refl refl
  Settled-receive (cdata text) = Settled-add_node (cdata_node text) refl refl
  Settled-receive (recoverable_error e) = good tidy alive

Settled-bind :
    (options : ParserOptions) (r : Result DomBuilder) (k : DomBuilder → Result DomBuilder)
    → Settled options r
    → ((b : DomBuilder) → Tidy options b → Alive b → Settled options (k b))
    → Settled options (r >>= k)
Settled-bind options _ k (good {b} tidy alive) h = h b tidy alive
Settled-bind options _ k broke h = broke

-- Whatever calls the builder gets in a state in which its document is tidy and the elements of its
-- stack are there, balanced or not: it returns such a state again or throws. So it never follows a
-- dangling pointer.
pub Settled-receive_all :
    (options : ParserOptions) (calls : List Call) (b : DomBuilder)
    → Tidy options b
    → Alive b
    → Settled options (receive_all options calls b)
unfolding receive_all
Settled-receive_all options [] b tidy alive = good tidy alive
Settled-receive_all options (c ∷ calls) b tidy alive =
    Settled-bind options (receive options c b) _ (Settled-receive options b tidy alive c)
      (Settled-receive_all options calls)
