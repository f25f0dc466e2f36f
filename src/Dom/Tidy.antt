-- ===== src/Dom/Tidy.antt =====
-- Heaps in which all pointers lead to nodes, and parents are older than their children.
use xmlparser.Prelude.{
  ℕ, zero, suc, ◌<◌, ◌≤◌, Bool, false, not, ◌&&◌, ◌||◌, List, [], ◌∷◌, ◌++◌, Option, none, some,
  length, All, All-append, ◌==◌, ◌≡◌, inl, inr, refl, sym, ap, subst, ◌∙◌, arith, Bool-cases,
}
use xmlparser.Errors.{ok}
use xmlparser.Dom.{Node, NodeData, Heap, is_element, deref, ancestor_loop, other_element}
use xmlparser.Dom.Document.{new_node}
use xmlparser.Dom.Memory.{deref-Live, deref_below, deref_same, position_cases}

abbrev pub Below : ℕ → Option ℕ → Type 0
Below i none = Unit {0}
Below i (some parent) = parent < i

pub Below-mono : (o : Option ℕ) (i j : ℕ) → i ≤ j → Below i o → Below j o
Below-mono none i j le h = tt
Below-mono (some p) i j le h = omega (arith, h)

-- All nodes belong to the document, parents are older than their children, and children are there.
pub record Sound (document : ℕ) (heap : Heap) (i : ℕ) (n : Node) : Type 0 where
  pub owned : n.owner ≡ some document
  pub older : Below i n.parent
  pub live : All (λ c. c < length heap) n.children

abbrev pub TidyHeap : ℕ → Heap → Type 0
TidyHeap document heap = (i : ℕ) (n : Node) → deref heap i ≡ ok n → Sound document heap i n

abbrev pub with_children : Node → List ℕ → Node
with_children n children = record n { children = children }

abbrev pub with_parent : Node → Option ℕ → Node
with_parent n parent = record n { parent = parent }

-- Behind appending a new node with the members `members` to the node `n` at `this`.
pub record Added (document : ℕ) (heap : Heap) (this : ℕ) (n : Node) (members : NodeData)
    (later : Heap) : Type 0 where
  pub longer : length later ≡ suc (length heap)
  pub others : (j : ℕ) → j < length heap → (j == this) ≡ false → deref later j ≡ deref heap j
  pub at_this : deref later this ≡ ok (with_children n (n.children ++ length heap ∷ []))
  pub at_new : deref later (length heap) ≡ ok (with_parent (new_node document members) (some this))

module _ (document : ℕ) (heap : Heap) (tidy : TidyHeap document heap) where
  -- A node that is not above the others is found to be above none of them.
  pub ancestor_loop-fresh :
      (fresh fuel : ℕ) (cursor : Option ℕ)
      → fresh < length heap
      → Below fuel cursor
      → Below fresh cursor
      → ancestor_loop heap fuel fresh cursor ≡ ok false
  unfolding ancestor_loop
  ancestor_loop-fresh fresh fuel none lt below under = refl
  ancestor_loop-fresh fresh zero (some c) lt below under = absurd (omega (arith, below))
  ancestor_loop-fresh fresh (suc fuel) (some c) lt below under =
      let (n, e) = deref-Live heap c (omega (arith, under, lt)) in
      let older = (tidy c n e).older in
      let differs : (c == fresh) ≡ false = ground (arith, under) in
      rw (differs, e)
        (ancestor_loop-fresh fresh fuel n.parent lt
          (Below-mono n.parent c fuel (omega (arith, below)) older)
          (Below-mono n.parent c fresh (omega (arith, under)) older))

  -- The loop over the children of a document returns, as they are there.
  pub other_element_live :
      (child : ℕ) (children : List ℕ)
      → All (λ c. c < length heap) children
      → (second : Bool) × (other_element heap child children ≡ ok second)
  unfolding other_element
  other_element_live child [] h = (false, refl)
  other_element_live child (c ∷ children) (lt, h) =
      let (n, e) = deref-Live heap c lt in
      let (second, f) = other_element_live child children h in
      ((not (c == child) && is_element n.members) || second, rw (e, f) refl)

pub All-longer : (a b : ℕ) (xs : List ℕ) → a ≤ b → All (λ c. c < a) xs → All (λ c. c < b) xs
All-longer a b [] le h = tt
All-longer a b (x ∷ xs) le (lt, h) = (omega (arith, lt), All-longer a b xs le h)

-- The heap stays tidy.
pub TidyHeap-Added :
    (document : ℕ) (heap later : Heap) (this : ℕ) (n : Node) (members : NodeData)
    → TidyHeap document heap
    → deref heap this ≡ ok n
    → Added document heap this n members later
    → TidyHeap document later
TidyHeap-Added document heap later this n members tidy at_this a i k e =
    let this_lt = deref_below heap this n at_this in
    elim (position_cases i (length heap) (omega (arith, deref_below later i k e, a.longer))) [
      | inr same ↦
          let fresh : with_parent (new_node document members) (some this) ≡ k =
            deref_same later (length heap) _ k a.at_new
              (ap (λ (j : ℕ). deref later j) (sym same) ∙ e) in
          subst (λ (m : Node). Sound document later i m) fresh
            (record { owned = refl; older = omega (arith, same, this_lt); live = tt })
      | inl lt ↦ elim (Bool-cases (i == this)) [
        | inr differs ↦
            let s = tidy i k (sym (a.others i lt differs) ∙ e) in
            record {
              owned = s.owned;
              older = s.older;
              live =
                  All-longer (length heap) (length later) k.children (omega (arith, a.longer))
                    s.live;
            }
        | inl same ↦
            let here : i ≡ this = ground (arith, same) in
            let s = tidy this n at_this in
            let changed : with_children n (n.children ++ length heap ∷ []) ≡ k =
              deref_same later this _ k a.at_this (ap (λ (j : ℕ). deref later j) (sym here) ∙ e) in
            subst (λ (m : Node). Sound document later i m) changed
              (record {
                owned = s.owned;
                older = subst (λ (j : ℕ). Below j n.parent) (sym here) s.older;
                live =
                    All-append _ n.children (length heap ∷ [])
                      (All-longer (length heap) (length later) n.children (omega (arith, a.longer))
                        s.live)
                      (omega (arith, a.longer), tt);
              })
      ]
    ]
