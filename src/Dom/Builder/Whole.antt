-- ===== src/Dom/Builder/Whole.antt =====
-- The calls of a whole document, with its one root element.
use xmlparser.Prelude.{
  ℕ, zero, suc, Bool, true, false, List, [], ◌∷◌, ◌++◌, length, some, none, ◌≡◌, inl, inr, refl,
  sym, ap, subst, ◌∙◌, arith, append_assoc, All,
}
use xmlparser.Errors.{Result, ok}
use xmlparser.Options.{ParserOptions}
use xmlparser.Sax.{
  Call, QualifiedName, AttributeView, start_document, end_document, start_element, end_element,
}
use xmlparser.Dom.{Node, Heap, document_node, is_element, deref, other_element}
use xmlparser.Dom.Document.{new_node, new_document}
use xmlparser.Dom.Memory.{deref-append, deref_below}
use xmlparser.Dom.Tidy.{Sound}
use xmlparser.Dom.Tree.{is_ignored, element_members, Shows, empty, ignored, leaf, branch}
use xmlparser.Dom.Builder.{DomBuilder, current_parent, new_dom_builder, receive_all}
use xmlparser.Dom.Builder.Insert.{Added-inserted}
use xmlparser.Dom.Builder.Elements.{element_members-plain}
use xmlparser.Dom.Builder.Tidy.{Tidy}
use xmlparser.Dom.Builder.After.{After-ignored, After-parent}
use xmlparser.Dom.Builder.Grow.{
  Grown, built, Grown-append, Grown-branch, Tidy-opened, opened, leaf-plain,
}
use xmlparser.Dom.Builder.Trees.{Grown-Balanced, receive_all-ignored}
use xmlparser.Parser.Events.{Balanced, nil, atom, is_atom, OneElement}

abbrev pub starts : Call → Bool
starts (start_element name views) = true
starts _ = false

-- A node that is no element.
abbrev Plain : Heap → ℕ → Type 0
Plain heap i = (n : Node) × (deref heap i ≡ ok n) × (is_element n.members ≡ false)

Shows-Plain :
    {owner : ℕ} {heap : Heap} {parent from to : ℕ} {roots : List ℕ} {calls : List Call}
    → Shows owner heap parent from roots calls to
    → All (λ c. starts c ≡ false) calls
    → All (Plain heap) roots
Shows-Plain empty h = tt
Shows-Plain (ignored i s) (_, h) = Shows-Plain s h
Shows-Plain (leaf {c = c} members e d s) (_, h) =
    ((_, d, (leaf-plain c members e).1), Shows-Plain s h)
Shows-Plain (branch name views children middle inner rest d s t e) h =
    let (impossible, _) = subst (λ (l : List Call). All (λ c. starts c ≡ false) l) e h in
    absurd (ground (arith, impossible))

other_element-Plain :
    (heap : Heap) (new : Node) (child : ℕ) (children : List ℕ)
    → All (Plain heap) children
    → other_element (heap ++ new ∷ []) child children ≡ ok false
unfolding other_element
other_element-Plain heap new child [] h = refl
other_element-Plain heap new child (c ∷ children) ((n, e, plain), h) =
    rw
      (
        deref-append heap (new ∷ []) c (deref_below heap c n e),
        e,
        other_element-Plain heap new child children h,
        plain,
      )
      (ground arith)

atom_no_start : (c : Call) → is_atom c ≡ true → starts c ≡ false
atom_no_start c a = ground (arith, a)

atoms_start_nothing : {calls : List Call} → Balanced 0 calls → All (λ c. starts c ≡ false) calls
atoms_start_nothing nil = tt
atoms_start_nothing (atom {c = c} a h) = (atom_no_start c a, atoms_start_nothing h)

-- The document that the builder starts from.
abbrev pub root : Node
root = record { owner = some 0; parent = none; children = []; members = document_node }

-- All the nodes of a heap with one node.
single_deref :
    (n k : Node) (P : ℕ → Node → Type 0) (i : ℕ) → deref (n ∷ []) i ≡ ok k → P 0 n → P i k
unfolding deref
single_deref n k P zero e h = let same : n ≡ k = cc in subst (λ (m : Node). P 0 m) same h
single_deref n k P (suc i) e h = cc

pub Tidy-new : (options : ParserOptions) → Tidy options (new_dom_builder [])
unfolding new_dom_builder new_document
Tidy-new options = record {
  at_document = refl;
  heap = λ i n e.
      single_deref root n (Sound 0 (root ∷ [])) i e
        (record { owned = refl; older = tt; live = tt });
  size = refl;
  stored = refl;
  bound = omega arith;
}

pub root-new : deref (new_dom_builder []).heap 0 ≡ ok root
unfolding new_dom_builder new_document deref
root-new = refl

pub parent-new :
    current_parent (new_dom_builder []).document.node (new_dom_builder []).element_stack ≡ 0
unfolding new_dom_builder new_document
parent-new = refl

module _ (options : ParserOptions) where
  -- One call that the builder ignores.
  Grown-ignored :
      (b : DomBuilder) (n : Node) (c : Call)
      → Tidy options b
      → deref b.heap 0 ≡ ok n
      → is_ignored c ≡ true
      → Grown options b 0 n (c ∷ []) (receive_all options (c ∷ []) b)
  Grown-ignored b n c tidy e i =
      subst (λ (r : Result DomBuilder). Grown options b 0 n (c ∷ []) r)
        (sym (receive_all-ignored options c b i)) (built (After-ignored options b 0 n c i tidy e))

  -- The root element, behind calls that start nothing.
  Grown-root :
      (b : DomBuilder) (n : Node)
      → Tidy options b
      → deref b.heap 0 ≡ ok n
      → current_parent b.document.node b.element_stack ≡ 0
      → All (Plain b.heap) n.children
      → {inside : ℕ} (name : QualifiedName) (views : List AttributeView) (inner : List Call)
      → Balanced inside inner
      → Grown options b 0 n
          (start_element name views ∷ (inner ++ end_element name ∷ []))
          (receive_all options (start_element name views ∷ (inner ++ end_element name ∷ [])) b)
  Grown-root b n tidy e parent plain name views inner h =
      Grown-branch options b 0 n tidy e parent name views inner
        (λ second f.
          let none_found =
            other_element-Plain b.heap (new_node 0 (element_members name views)) (length b.heap)
              n.children plain in
          let first : second ≡ false = cc in ground (arith, first))
        (λ room.
          Grown-Balanced options h (opened options b 0 n tidy e parent name views) (length b.heap) _
            (Tidy-opened options b 0 n tidy e parent name views room)
            (Added-inserted options b tidy 0 n e parent (element_members name views)).at_new refl
            (inl (element_members-plain name views)))

  -- What stands before the root element.
  Grown-before :
      (before : List Call)
      → Balanced 0 before
      → Grown options
          (new_dom_builder [])
          0
          root
          (start_document ∷ before)
          (receive_all options (start_document ∷ before) (new_dom_builder []))
  Grown-before before h =
      Grown-append options (new_dom_builder []) 0 root (Tidy-new options) root-new
        (start_document ∷ []) before
        (Grown-ignored (new_dom_builder []) root start_document (Tidy-new options) root-new refl)
        (λ middle a.
          Grown-Balanced options h middle 0 _ a.tidy a.at_this
            (After-parent options _ 0 root _ middle (Tidy-new options) a ∙ parent-new) (inr refl))

  -- What stands behind it.
  Grown-behind :
      (b : DomBuilder) (n : Node)
      → Tidy options b
      → deref b.heap 0 ≡ ok n
      → current_parent b.document.node b.element_stack ≡ 0
      → (behind : List Call) → Balanced 0 behind
      → Grown options b 0 n
          (behind ++ end_document ∷ [])
          (receive_all options (behind ++ end_document ∷ []) b)
  Grown-behind b n tidy e parent behind h =
      Grown-append options b 0 n tidy e behind (end_document ∷ [])
        (Grown-Balanced options h b 0 n tidy e parent (inr refl))
        (λ middle a. Grown-ignored middle _ end_document a.tidy a.at_this refl)

  -- The calls of a document with one root element make the document that they describe.
  pub Grown-OneElement :
      (depth : ℕ) (made : List Call)
      → OneElement depth made
      → Grown options
          (new_dom_builder [])
          0
          root
          (start_document ∷ (made ++ end_document ∷ []))
          (receive_all options (start_document ∷ (made ++ end_document ∷ [])) (new_dom_builder []))
  Grown-OneElement depth made o =
      let first : List Call = start_document ∷ o.before in
      let whole : List Call = start_element o.name o.views ∷ (o.inner ++ end_element o.name ∷ []) in
      let last : List Call = o.behind ++ end_document ∷ [] in
      let e : start_document ∷ (made ++ end_document ∷ []) ≡ first ++ (whole ++ last) =
        ap (λ (l : List Call). start_document ∷ (l ++ end_document ∷ [])) o.shape
        ∙ simp append_assoc in
      subst
        (λ (l : List Call).
          Grown options (new_dom_builder []) 0 root l (receive_all options l (new_dom_builder [])))
        (sym e)
        (Grown-append options (new_dom_builder []) 0 root (Tidy-new options) root-new first
          (whole ++ last) (Grown-before o.before o.before_atoms)
          (λ b a.
            let parent : current_parent b.document.node b.element_stack ≡ 0 =
              After-parent options _ 0 root _ b (Tidy-new options) a ∙ parent-new in
            Grown-append options b 0 _ a.tidy a.at_this whole last
              (Grown-root b _ a.tidy a.at_this parent
                (Shows-Plain a.shows (refl, atoms_start_nothing o.before_atoms)) o.name o.views
                o.inner o.inner_balanced)
              (λ c d.
                Grown-behind c _ d.tidy d.at_this
                  (After-parent options b 0 _ whole c a.tidy d ∙ parent) o.behind o.behind_atoms)))
