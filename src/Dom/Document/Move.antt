-- ===== src/Dom/Document/Move.antt =====
-- Moving a document: the new one has the trees of the old one, and owns their nodes.
use xmlparser.Prelude.{
  range, ℕ, zero, suc, ◌+◌, ◌<◌, ◌≤◌, List, [], ◌∷◌, ◌++◌, length, length-append, Option, some,
  none, ◌==◌, All, Bool-cases, ◌≡◌, inl, inr, refl, sym, ap, subst, ◌∙◌, arith,
}
use xmlparser.Errors.{ok}
use xmlparser.Sax.{Call}
use xmlparser.Dom.{Node, Heap, document_node, deref, set_parent}
use xmlparser.Dom.Document.{
  Document, new_document, for_nodes, update_owner, set_children, take_over, move_construct,
}
use xmlparser.Dom.Document.Adopt.{set_children-Changed, with_owner, Adopted, adopt}
use xmlparser.Dom.Document.Own.{Owned, IsOwned, for_nodes-Owned, update_owner-Owned}
use xmlparser.Dom.Document.Nodes.{Shows-Down, Shows-owned}
use xmlparser.Dom.Memory.{deref_same, deref-append, deref_last}
use xmlparser.Dom.Tree.{nodes_of, Shows}

-- A document's node, with its children.
abbrev pub document_with : ℕ → List ℕ → Node
document_with document children = record {
  owner = some document;
  parent = none;
  children = children;
  members = document_node;
}

-- In the heap lies the document that the calls describe: its node, and in the order of the document
-- from `1` on the nodes of its trees, all of which it owns.
pub record Holds (document : Document) (calls : List Call) (heap : Heap) : Type 0 where
  pub roots : List ℕ
  pub at_node : deref heap document.node ≡ ok (document_with document.node roots)
  pub shows : Shows document.node heap document.node 1 roots calls (suc (nodes_of calls))
  pub stored : document.storage ≡ range 1 (nodes_of calls)

All-range :
    (P : ℕ → Type 0) (first count : ℕ)
    → ((i : ℕ) → first ≤ i → i < first + count → P i)
    → All P (range first count)
All-range P first zero h = tt
All-range P first (suc count) h = (
  h first (omega arith) (omega arith),
  All-range P (suc first) count (λ i le lt. h i (omega (arith, le)) (omega (arith, lt))),
)

range-All :
    (P : ℕ → Type 0) (first count : ℕ)
    → All P (range first count)
    → (i : ℕ) → first ≤ i
    → i < first + count
    → P i
range-All P first zero h i le lt = absurd (omega arith)
range-All P first (suc count) (p, h) i le lt = elim (Bool-cases (i == first)) [
  | inl same ↦ subst P (ground (arith, same)) p
  | inr differs ↦
      range-All P (suc first) count h i (ground (arith, le, differs)) (omega (arith, lt))
]

-- The steps of the move, one after the other.
take_over-run :
    (this other : Document) (heap emptied filled adopted owned : Heap) (from : Node)
    → deref heap other.node ≡ ok from
    → set_children [] other.node heap ≡ ok emptied
    → set_children from.children this.node emptied ≡ ok filled
    → for_nodes (λ c. set_parent c (some this.node)) from.children filled ≡ ok adopted
    → for_nodes (update_owner (length heap) (some this.node)) other.storage adopted ≡ ok owned
    → take_over this other heap
      ≡ ok ((record this { storage = other.storage }, record other { storage = [] }), owned)
unfolding take_over
take_over-run this other heap emptied filled adopted owned from e₁ e₂ e₃ e₄ e₅ =
    rw (e₁, e₂, e₃, e₄, e₅) refl

module _ (heap : Heap) (roots : List ℕ) (calls : List Call)
    (size : length heap ≡ suc (nodes_of calls))
    (at_node : deref heap 0 ≡ ok (document_with 0 roots))
    (shows : Shows 0 heap 0 1 roots calls (suc (nodes_of calls))) where
  abbrev new : ℕ
  new = length heap

  abbrev grown : Heap
  grown = heap ++ document_with new [] ∷ []

  -- Behind the owner's loop.
  Holds-later :
      (filled later : Heap) (a : Adopted 0 filled new 1 roots calls (suc (nodes_of calls)))
      → deref filled new ≡ ok (document_with new roots)
      → Owned new a.later later
      → All (IsOwned new later) (range 1 (nodes_of calls))
      → Holds (record { node = new; storage = range 1 (nodes_of calls) }) calls later
  Holds-later filled later a e y owned = record {
    roots = roots;
    at_node =
        elim (y.kept new (document_with new roots)
          (a.outside new (inr (omega (arith, size))) ∙ e)) [ inl f ↦ f | inr f ↦ f ];
    shows = Shows-owned new a.shows λ j k le lt f. elim (y.kept j k f) [
      | inr g ↦ g
      | inl g ↦
          let (m, at, own) =
            range-All (IsOwned new later) 1 (nodes_of calls) owned j le (omega (arith, lt)) in
          let same : m ≡ k = deref_same later j m k at g in
          g
          ∙ ap (λ (w : Option ℕ). ok (with_owner k w)) (sym (ap (λ (x : Node). x.owner) same) ∙ own)
    ];
    stored = refl;
  }

  pub move_construct-Holds :
      (later : Heap) × (move_construct
          (record { node = 0; storage = range 1 (nodes_of calls) })
          heap
        ≡ ok (
          (
            (record { node = new; storage = range 1 (nodes_of calls) }),
            (record { node = 0; storage = [] }),
          ),
          later,
        ))
      × Holds (record { node = new; storage = range 1 (nodes_of calls) }) calls later
  unfolding move_construct new_document
  move_construct-Holds =
      let g₀ = deref-append heap (document_with new [] ∷ []) 0 (omega (arith, size)) ∙ at_node in
      let (emptied, r₁, c₁) = set_children-Changed 0 [] grown _ g₀ in
      let (filled, r₂, c₂) =
        set_children-Changed new roots emptied _
          (c₁.others new (ground (arith, size)) ∙ deref_last heap (document_with new [])) in
      let a = adopt new filled shows (λ i le lt.
        c₂.others i (ground (arith, lt, size))
        ∙ c₁.others i (ground (arith, le))
        ∙ deref-append heap _ i (omega (arith, lt, size))) in
      let long = length-append heap (document_with new [] ∷ []) in
      let (later, r₃, y, owned) =
        for_nodes-Owned new (update_owner (length grown) (some new))
          (λ j. (1 ≤ j) × (j < suc (nodes_of calls)) × (suc (nodes_of calls) ≤ length grown + j))
          (suc (nodes_of calls)) (update_owner-Owned new (length grown) (suc (nodes_of calls)))
          (range 1 (nodes_of calls)) a.later
          (All-range _ 1 (nodes_of calls)
            (λ i le lt. (le, omega (arith, lt), omega (arith, long, size))))
          (Shows-Down (suc (nodes_of calls)) a.shows (omega arith))
          (omega (arith, a.same_length, c₁.same_length, c₂.same_length, long, size)) in
      (
        later,
        take_over-run (record { node = new; storage = [] })
            (record { node = 0; storage = range 1 (nodes_of calls) }) grown emptied filled a.later
            later _ g₀ r₁ r₂ a.run r₃,
        Holds-later filled later a c₂.changed y owned,
      )
