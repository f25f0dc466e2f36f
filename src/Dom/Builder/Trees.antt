-- ===== src/Dom/Builder/Trees.antt =====
-- A balanced list of calls: `DomBuilder` adds the trees that it describes to the current parent.
use xmlparser.Prelude.{
  ℕ, true, false, List, [], ◌∷◌, ◌++◌, length, some, ◌≡◌, ◌⊎◌, inl, inr, refl, sym, ap, subst, ◌∙◌,
  arith, append_assoc,
}
use xmlparser.Errors.{Result, ok}
use xmlparser.Options.{ParserOptions}
use xmlparser.Sax.{
  Call, start_document, end_document, start_element, end_element, characters,
  processing_instruction, comment, cdata, recoverable_error,
}
use xmlparser.Dom.{Node, NodeData, is_document, deref}
use xmlparser.Dom.Tidy.{with_children}
use xmlparser.Dom.Tree.{leaf_members, element_members, is_ignored}
use xmlparser.Dom.Builder.{DomBuilder, current_parent, add_node, receive, receive_all}
use xmlparser.Dom.Builder.Insert.{Added-inserted}
use xmlparser.Dom.Builder.Elements.{element_members-plain}
use xmlparser.Dom.Builder.Tidy.{Tidy}
use xmlparser.Dom.Builder.After.{After-refl, After-ignored, After-parent}
use xmlparser.Dom.Builder.Grow.{
  Grown, built, Grown-trans, Grown-leaf, Grown-branch, Tidy-opened, opened, receive_all-append,
}
use xmlparser.Parser.Events.{Balanced, nil, atom, element, is_atom}

receive-leaf :
    (options : ParserOptions) (c : Call) (members : NodeData) (b : DomBuilder)
    → leaf_members c ≡ some members
    → receive options c b ≡ add_node options members b
unfolding receive
receive-leaf options c members b e = ground (arith, e)

-- An atom is ignored, or makes a leaf.
atom_cases :
    (c : Call)
    → is_atom c ≡ true
    → (is_ignored c ≡ true) ⊎ ((members : NodeData) × (leaf_members c ≡ some members))
atom_cases (characters text) a = inr (_, refl)
atom_cases (processing_instruction target text) a = inr (_, refl)
atom_cases (comment text) a = inr (_, refl)
atom_cases (cdata text) a = inr (_, refl)
atom_cases (recoverable_error e) a = inl refl
atom_cases start_document a = cc
atom_cases end_document a = cc
atom_cases (start_element name views) a = cc
atom_cases (end_element name) a = cc

receive-ignored :
    (options : ParserOptions) (c : Call) (b : DomBuilder)
    → is_ignored c ≡ true
    → receive options c b ≡ ok b
unfolding receive
receive-ignored options c b i = ground (arith, i)

pub receive_all-ignored :
    (options : ParserOptions) (c : Call) (b : DomBuilder)
    → is_ignored c ≡ true
    → receive_all options (c ∷ []) b ≡ ok b
unfolding receive_all
receive_all-ignored options c b i = rw (receive-ignored options c b i) refl

module _ (options : ParserOptions) where
  -- The first of several calls, an atom.
  Grown-atom :
      (b : DomBuilder) (this : ℕ) (n : Node)
      → Tidy options b
      → deref b.heap this ≡ ok n
      → current_parent b.document.node b.element_stack ≡ this
      → (c : Call) → is_atom c ≡ true
      → Grown options b this n (c ∷ []) (receive options c b)
  Grown-atom b this n tidy at_this parent c a = elim (atom_cases c a) [
    | inl i ↦
        subst (λ (r : Result DomBuilder). Grown options b this n (c ∷ []) r)
          (sym (receive-ignored options c b i))
          (built (After-ignored options b this n c i tidy at_this))
    | inr (members, e) ↦
        subst (λ (r : Result DomBuilder). Grown options b this n (c ∷ []) r)
          (sym (receive-leaf options c members b e))
          (Grown-leaf options b this n tidy at_this parent c members e)
  ]

  -- The trees of a balanced list of calls become children of the current parent.
  pub Grown-Balanced :
      {depth : ℕ} {calls : List Call}
      → Balanced depth calls
      → (b : DomBuilder) (this : ℕ) (n : Node) → Tidy options b
      → deref b.heap this ≡ ok n
      → current_parent b.document.node b.element_stack ≡ this
      → (is_document n.members ≡ false) ⊎ (depth ≡ 0)
      → Grown options b this n calls (receive_all options calls b)
  unfolding receive_all
  Grown-Balanced nil b this n tidy at_this parent place =
      built (After-refl options b this n tidy at_this)
  Grown-Balanced (atom {c = c} {calls} a h) b this n tidy at_this parent place =
      Grown-trans options b this n tidy at_this (c ∷ []) calls (c ∷ calls)
        (receive_all options calls) refl (Grown-atom b this n tidy at_this parent c a)
        (λ middle s.
          Grown-Balanced h middle this (with_children n (n.children ++ s.roots)) s.tidy s.at_this
            (After-parent options b this n (c ∷ []) middle tidy s ∙ parent) place)
  Grown-Balanced (element {calls = calls} name views inner rest h t e) b this n tidy at_this parent
        place =
      let xs : List Call = start_element name views ∷ (inner ++ end_element name ∷ []) in
      let e₁ : calls ≡ xs ++ rest =
        e
        ∙ ap (◌∷◌ (start_element name views))
            (sym (append_assoc inner (end_element name ∷ []) rest)) in
      subst (λ (r : Result DomBuilder). Grown options b this n calls r)
        (sym (
          ap (λ (l : List Call). receive_all options l b) e₁
          ∙ receive_all-append options xs rest b))
        (Grown-trans options b this n tidy at_this xs rest calls (receive_all options rest) e₁
          (Grown-branch options b this n tidy at_this parent name views inner
            (λ second _. ground (arith, place))
            (λ room.
              Grown-Balanced h (opened options b this n tidy at_this parent name views)
                (length b.heap) _ (Tidy-opened options b this n tidy at_this parent name views room)
                (Added-inserted options b tidy this n at_this parent
                  (element_members name views)).at_new
                refl (inl (element_members-plain name views))))
          (λ middle s.
            Grown-Balanced t middle this (with_children n (n.children ++ s.roots)) s.tidy s.at_this
              (After-parent options b this n xs middle tidy s ∙ parent) place))
