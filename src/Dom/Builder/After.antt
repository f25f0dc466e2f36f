-- ===== src/Dom/Builder/After.antt =====
-- What lies between two states of `DomBuilder`: trees below the parent that is current in both.
use xmlparser.Prelude.{
  ℕ, ◌+◌, ◌<◌, ◌≤◌, true, false, List, [], ◌∷◌, ◌++◌, length, ◌≡◌, refl, sym, ap, subst, ◌∙◌, arith,
  append_assoc, append-nil, ◌==◌,
}
use xmlparser.Errors.{ok}
use xmlparser.Options.{ParserOptions}
use xmlparser.Sax.{Call}
use xmlparser.Dom.{Node, deref}
use xmlparser.Dom.Memory.{deref_below}
use xmlparser.Dom.Tidy.{with_children}
use xmlparser.Dom.Tree.{
  nodes_of, is_ignored, Shows, empty, ignored, Shows-count, Shows-frame, Shows-append,
}
use xmlparser.Dom.Builder.{DomBuilder, current_parent}
use xmlparser.Dom.Builder.Tidy.{Tidy}

-- Behind calls that were received while the node `n` at `this` was the current parent.
pub record After (options : ParserOptions) (b : DomBuilder) (this : ℕ) (n : Node)
    (calls : List Call) (later : DomBuilder) : Type 0 where
  pub tidy : Tidy options later
  pub stack : later.element_stack ≡ b.element_stack
  pub others :
      (j : ℕ) → j < length b.heap → (j == this) ≡ false → deref later.heap j ≡ deref b.heap j
  pub roots : List ℕ
  pub at_this : deref later.heap this ≡ ok (with_children n (n.children ++ roots))
  pub shows : Shows 0 later.heap this (length b.heap) roots calls (length later.heap)

module _ (options : ParserOptions) (b : DomBuilder) (this : ℕ) (n : Node) where
  pub After-refl : Tidy options b → deref b.heap this ≡ ok n → After options b this n [] b
  After-refl tidy e = record {
    tidy = tidy;
    stack = refl;
    others = λ j lt differs. refl;
    roots = [];
    at_this = e ∙ ap (λ (l : List ℕ). ok (with_children n l)) (sym (append-nil n.children));
    shows = empty;
  }

  pub After-ignored :
      (c : Call)
      → is_ignored c ≡ true
      → Tidy options b
      → deref b.heap this ≡ ok n
      → After options b this n (c ∷ []) b
  After-ignored c i tidy e =
      let a = After-refl tidy e in
      record {
        tidy = a.tidy;
        stack = a.stack;
        others = a.others;
        roots = a.roots;
        at_this = a.at_this;
        shows = ignored i a.shows;
      }

  -- First some calls, then more.
  pub After-trans :
      (tidy : Tidy options b) (at_this : deref b.heap this ≡ ok n) (xs ys calls : List Call)
      (middle later : DomBuilder)
      → calls ≡ xs ++ ys
      → (a : After options b this n xs middle)
      → After options middle this (with_children n (n.children ++ a.roots)) ys later
      → After options b this n calls later
  After-trans tidy at_this xs ys calls middle later e a c = record {
    tidy = c.tidy;
    stack = c.stack ∙ a.stack;
    others = λ j lt differs. c.others j (omega (arith, lt, longer)) differs ∙ a.others j lt differs;
    roots = a.roots ++ c.roots;
    at_this =
        c.at_this
        ∙ ap (λ (l : List ℕ). ok (with_children n l)) (append_assoc n.children a.roots c.roots);
    shows =
        subst
          (λ (l : List Call).
            Shows 0 later.heap this (length b.heap) (a.roots ++ c.roots) l (length later.heap))
          (sym e)
          (Shows-append
            (Shows-frame
              (λ j le lt. c.others j lt (ground (arith, le, deref_below b.heap this n at_this)))
              a.shows)
            c.shows);
  }
    where
      longer : length b.heap ≤ length middle.heap
      longer = omega (arith, Shows-count a.shows)

  pub After-count :
      (calls : List Call) (later : DomBuilder)
      → Tidy options b
      → After options b this n calls later
      → later.node_count ≡ b.node_count + nodes_of calls
  After-count calls later tidy a = omega (arith, Shows-count a.shows, tidy.size, a.tidy.size)

  pub After-parent :
      (calls : List Call) (later : DomBuilder)
      → Tidy options b
      → After options b this n calls later
      → current_parent later.document.node later.element_stack
        ≡ current_parent b.document.node b.element_stack
  After-parent calls later tidy a =
      ap (λ (stack : List ℕ). current_parent later.document.node stack) a.stack
      ∙ ap (λ (document : ℕ). current_parent document b.element_stack)
          (a.tidy.at_document ∙ sym tidy.at_document)
