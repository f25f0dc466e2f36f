-- ===== src/Dom/Builder/Grow.antt =====
-- Whether the builder has room: a leaf, an element with its content, one list of calls after another.
use xmlparser.Prelude.{
  ℕ, ◌+◌, ◌<◌, ◌≤◌, false, List, [], ◌∷◌, ◌++◌, length, leb, some, ◌≡◌, inl, inr, refl, sym, ap,
  subst, ◌∙◌, arith, Bool-cases,
}
use xmlparser.Errors.{Result, ok, throws, stuck, ◌>>=◌}
use xmlparser.Options.{ParserOptions}
use xmlparser.Sax.{Call, QualifiedName, AttributeView, start_element, end_element}
use xmlparser.Dom.{Node, NodeData, is_document, is_element, deref}
use xmlparser.Dom.Document.{new_node}
use xmlparser.Dom.Memory.{deref_below}
use xmlparser.Dom.Tidy.{with_children, with_parent}
use xmlparser.Dom.Tree.{
  leaf_members, element_members, nodes_of, Shows, empty, leaf, branch, nodes_of-append,
  node_of-leaf,
}
use xmlparser.Dom.Builder.{
  DomBuilder, current_parent, add_node, push_element, pop_element, receive, receive_all,
}
use xmlparser.Dom.Builder.Insert.{
  Single, too_many, inserted, Added-inserted, Tidy-inserted, add_node-inserted,
  open_element-inserted, add_node-full, open_element-full,
}
use xmlparser.Dom.Builder.Tidy.{Tidy}
use xmlparser.Dom.Builder.After.{After, After-trans, After-count}

-- The calls make as many nodes as there is room for, or the builder throws.
pub data Grown (options : ParserOptions) (b : DomBuilder) (this : ℕ) (n : Node) (calls : List Call)
    : Result DomBuilder → Type 0 where
  built :
      {later : DomBuilder}
      → After options b this n calls later
      → Grown options b this n calls (ok later)
  full :
      options.max_dom_nodes < b.node_count + nodes_of calls
      → Grown options b this n calls (throws too_many)

bind-bind :
    (r : Result DomBuilder) (f g h : DomBuilder → Result DomBuilder)
    → ((b : DomBuilder) → h b ≡ (f b >>= g))
    → (r >>= h) ≡ (r >>= f >>= g)
bind-bind (ok b) f g h e = e b
bind-bind (throws x) f g h e = refl
bind-bind stuck f g h e = refl

pub receive_all-append :
    (options : ParserOptions) (xs ys : List Call) (b : DomBuilder)
    → receive_all options (xs ++ ys) b ≡ (receive_all options xs b >>= receive_all options ys)
unfolding receive_all
receive_all-append options [] ys b = refl
receive_all-append options (c ∷ xs) ys b =
    bind-bind (receive options c b) _ _ _ (receive_all-append options xs ys)

pub leaf-plain :
    (c : Call) (members : NodeData)
    → leaf_members c ≡ some members
    → (is_document members ≡ false) × (is_element members ≡ false)
leaf-plain c members e = ground (arith, e)

module _ (options : ParserOptions) (b : DomBuilder) (this : ℕ) (n : Node) where
  module _ (tidy : Tidy options b) (at_this : deref b.heap this ≡ ok n) where
    Grown-later :
        (xs ys calls : List Call) (middle : DomBuilder) {r : Result DomBuilder}
        → calls ≡ xs ++ ys
        → (a : After options b this n xs middle)
        → Grown options middle this (with_children n (n.children ++ a.roots)) ys r
        → Grown options b this n calls r
    Grown-later xs ys calls middle e a (built c) =
        built (After-trans options b this n tidy at_this xs ys calls middle _ e a c)
    Grown-later xs ys calls middle e a (full over) = full (
        rw e (
          omega
            (arith, nodes_of-append xs ys, After-count options b this n xs middle tidy a, over)))

    pub Grown-trans :
        (xs ys calls : List Call) (k : DomBuilder → Result DomBuilder) {r : Result DomBuilder}
        → calls ≡ xs ++ ys
        → Grown options b this n xs r
        → ((middle : DomBuilder) (a : After options b this n xs middle)
            → Grown options middle this (with_children n (n.children ++ a.roots)) ys (k middle))
        → Grown options b this n calls (r >>= k)
    Grown-trans xs ys calls k e (built {later = middle} a) next =
        Grown-later xs ys calls middle e a (next middle a)
    Grown-trans xs ys calls k e (full over) next =
        full (rw e (omega (arith, nodes_of-append xs ys, over)))

    module _ (parent : current_parent b.document.node b.element_stack ≡ this) where
      After-leaf :
          (c : Call) (members : NodeData)
          → leaf_members c ≡ some members
          → b.node_count + 1 ≤ options.max_dom_nodes
          → After options b this n (c ∷ []) (inserted options b tidy this n at_this parent members)
      After-leaf c members e room =
          let a = Added-inserted options b tidy this n at_this parent members in
          record {
            tidy = Tidy-inserted options b tidy this n at_this parent members room;
            stack = refl;
            others = a.others;
            roots = length b.heap ∷ [];
            at_this = a.at_this;
            shows =
                subst
                  (λ (to : ℕ).
                    Shows 0 (inserted options b tidy this n at_this parent members).heap this
                      (length b.heap) (length b.heap ∷ []) (c ∷ []) to)
                  (sym a.longer) (leaf members e a.at_new empty);
          }

      pub Grown-leaf :
          (c : Call) (members : NodeData)
          → leaf_members c ≡ some members
          → Grown options b this n (c ∷ []) (add_node options members b)
      Grown-leaf c members e = elim (Bool-cases (leb (b.node_count + 1) options.max_dom_nodes)) [
        | inl room ↦
            subst (λ (r : Result DomBuilder). Grown options b this n (c ∷ []) r)
              (sym (
                add_node-inserted options b tidy this n at_this parent members room
                  (λ second _. ground (arith, (leaf-plain c members e).1))
                  (leaf-plain c members e).0))
              (built (After-leaf c members e (ground (arith, room))))
        | inr over ↦
            subst (λ (r : Result DomBuilder). Grown options b this n (c ∷ []) r)
              (sym (add_node-full options b members over))
              (full (ground (arith, over, node_of-leaf c members e)))
      ]

      -- The element that is being built, and the state in which its content is received.
      abbrev pub opened : QualifiedName → List AttributeView → DomBuilder
      opened name views =
          push_element (length b.heap)
            (inserted options b tidy this n at_this parent (element_members name views))

      pub Tidy-opened :
          (name : QualifiedName) (views : List AttributeView)
          → b.node_count + 1 ≤ options.max_dom_nodes
          → Tidy options (opened name views)
      Tidy-opened name views room =
          let t =
            Tidy-inserted options b tidy this n at_this parent (element_members name views) room in
          record {
            at_document = t.at_document;
            heap = t.heap;
            size = t.size;
            stored = t.stored;
            bound = t.bound;
          }

      abbrev closed : DomBuilder → DomBuilder
      closed inside = record inside { element_stack = pop_element inside.element_stack }

      After-branch :
          (name : QualifiedName) (views : List AttributeView) (inner : List Call)
          (inside : DomBuilder)
          → After options
              (opened name views)
              (length b.heap)
              (with_parent (new_node 0 (element_members name views)) (some this))
              inner
              inside
          → After options b this n
              (start_element name views ∷ (inner ++ end_element name ∷ []))
              (closed inside)
      After-branch name views inner inside c =
          let a =
            Added-inserted options b tidy this n at_this parent (element_members name views) in
          let this_lt = deref_below b.heap this n at_this in
          record {
            tidy = record {
              at_document = c.tidy.at_document;
              heap = c.tidy.heap;
              size = c.tidy.size;
              stored = c.tidy.stored;
              bound = c.tidy.bound;
            };
            stack = ap pop_element c.stack;
            others = λ j lt differs.
                c.others j (omega (arith, lt, a.longer)) (ground (arith, lt))
                ∙ a.others j lt differs;
            roots = length b.heap ∷ [];
            at_this =
                c.others this (omega (arith, this_lt, a.longer)) (ground (arith, this_lt))
                ∙ a.at_this;
            shows =
                branch name views c.roots (length inside.heap) inner [] c.at_this
                  (subst
                    (λ (from : ℕ).
                      Shows 0 inside.heap (length b.heap) from c.roots inner (length inside.heap))
                    a.longer c.shows)
                  empty refl;
          }

      Grown-closed :
          (name : QualifiedName) (views : List AttributeView) (inner : List Call)
          {r : Result DomBuilder}
          → Grown options
              (opened name views)
              (length b.heap)
              (with_parent (new_node 0 (element_members name views)) (some this))
              inner
              r
          → Grown options b this n
              (start_element name views ∷ (inner ++ end_element name ∷ []))
              (r >>= receive_all options (end_element name ∷ []))
      unfolding receive_all receive
      Grown-closed name views inner (built {later = inside} c) =
          built (After-branch name views inner inside c)
      Grown-closed name views inner (full over) =
          full (omega (arith, nodes_of-append inner (end_element name ∷ []), over))

      pub Grown-branch :
          (name : QualifiedName) (views : List AttributeView) (inner : List Call)
          → Single b.heap n (element_members name views)
          → ((room : b.node_count + 1 ≤ options.max_dom_nodes)
              → Grown options
                  (opened name views)
                  (length b.heap)
                  (with_parent (new_node 0 (element_members name views)) (some this))
                  inner
                  (receive_all options inner (opened name views)))
          → Grown options b this n
              (start_element name views ∷ (inner ++ end_element name ∷ []))
              (receive_all options (start_element name views ∷ (inner ++ end_element name ∷ [])) b)
      unfolding receive_all receive
      Grown-branch name views inner single inside =
          elim (Bool-cases (leb (b.node_count + 1) options.max_dom_nodes)) [
            | inl room ↦
                rw
                  (
                    open_element-inserted options b tidy this n at_this parent name views room
                        single,
                    receive_all-append options inner (end_element name ∷ []) (opened name views),
                  )
                  (Grown-closed name views inner (inside (ground (arith, room))))
            | inr over ↦
                rw (open_element-full options b name views over) (full (ground (arith, over)))
          ]

-- Two lists of calls, one after the other.
pub Grown-append :
    (options : ParserOptions) (b : DomBuilder) (this : ℕ) (n : Node) (tidy : Tidy options b)
    (at_this : deref b.heap this ≡ ok n) (xs ys : List Call)
    → Grown options b this n xs (receive_all options xs b)
    → ((middle : DomBuilder) (a : After options b this n xs middle)
        → Grown options middle this
            (with_children n (n.children ++ a.roots))
            ys
            (receive_all options ys middle))
    → Grown options b this n (xs ++ ys) (receive_all options (xs ++ ys) b)
Grown-append options b this n tidy at_this xs ys first next =
    subst (λ (r : Result DomBuilder). Grown options b this n (xs ++ ys) r)
      (sym (receive_all-append options xs ys b))
      (Grown-trans options b this n tidy at_this xs ys (xs ++ ys) (receive_all options ys) refl
        first next)
