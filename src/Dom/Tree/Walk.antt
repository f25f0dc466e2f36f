-- ===== src/Dom/Tree/Walk.antt =====
-- `depth_first` on a document that lies in the heap in the order of the document.
use xmlparser.Prelude.{
  range-append, range, ℕ, zero, suc, ◌+◌, ◌≤◌, List, [], ◌∷◌, ◌++◌, length, append_assoc,
  append-nil, ◌≡◌, sym, subst, ap, ◌∙◌, arith,
}
use xmlparser.Errors.{ok}
use xmlparser.Sax.{Call, end_element}
use xmlparser.Dom.{Heap}
use xmlparser.Dom.Document.{Document, collect_children, collect_depth_first, depth_first}
use xmlparser.Dom.Document.Move.{Holds}
use xmlparser.Dom.Memory.{deref_below}
use xmlparser.Dom.Tree.{
  nodes_of, node_of, node_of-ignored, node_of-leaf, nodes_of-append, Shows, empty, ignored, leaf,
  branch, Shows-count,
}

abbrev Walked : ℕ → Heap → List ℕ → ℕ → ℕ → Type 0
Walked fuel heap roots from count =
    (nodes : List ℕ)
    → collect_children (collect_depth_first fuel heap) roots nodes ≡ ok (nodes ++ range from count)

-- One root with what is below it, and the roots behind it.
Walked-root :
    (fuel : ℕ) (heap : Heap) (from : ℕ) (children roots : List ℕ) (inner rest : ℕ)
    → ((nodes : List ℕ)
        → collect_depth_first fuel heap from nodes ≡ ok (nodes ++ range (suc from) inner))
    → Walked fuel heap roots (suc from + inner) rest
    → Walked fuel heap (from ∷ roots) from (suc (inner + rest))
Walked-root fuel heap from children roots inner rest one more nodes =
    let joined : ((nodes ++ from ∷ []) ++ range (suc from) inner) ++ range (suc from + inner) rest
        ≡ nodes ++ from ∷ (range (suc from) inner ++ range (suc from + inner) rest) =
      simp append_assoc in
    rw (one (nodes ++ from ∷ [])) (
      more ((nodes ++ from ∷ []) ++ range (suc from) inner)
      ∙ ap (λ (l : List ℕ). ok l) joined
      ∙ ap (λ (l : List ℕ). ok (nodes ++ from ∷ l)) (range-append (suc from) inner rest))

Walked-from :
    (fuel : ℕ) (heap : Heap) (roots : List ℕ) (from count more : ℕ)
    → count ≡ more
    → Walked fuel heap roots from count
    → Walked fuel heap roots from more
Walked-from fuel heap roots from count more e h =
    subst (λ (n : ℕ). Walked fuel heap roots from n) e h

-- With a unit of fuel for each node, the walk meets the nodes in their order.
Shows-Walked :
    {owner : ℕ} {heap : Heap} {parent from to : ℕ} {roots : List ℕ} {calls : List Call} (fuel : ℕ)
    → Shows owner heap parent from roots calls to
    → to ≤ fuel + from
    → Walked fuel heap roots from (nodes_of calls)
unfolding collect_depth_first
Shows-Walked fuel empty enough = λ nodes. ap (λ (l : List ℕ). ok l) (sym (append-nil nodes))
Shows-Walked {heap = heap} {from = from} {roots = roots} fuel (ignored {c = c} {calls} i s) enough =
    Walked-from fuel heap roots from (nodes_of calls) (node_of c + nodes_of calls)
      (omega (arith, node_of-ignored c i)) (Shows-Walked fuel s enough)
Shows-Walked zero (leaf members e d s) enough = absurd (omega (arith, Shows-count s))
Shows-Walked {heap = heap} {from = from} (suc fuel) (leaf {roots = roots} {c} {calls} members e d s)
      enough =
    Walked-from (suc fuel) heap (from ∷ roots) from (suc (0 + nodes_of calls))
      (node_of c + nodes_of calls) (omega (arith, node_of-leaf c members e))
      (Walked-root (suc fuel) heap from [] roots 0 (nodes_of calls)
        (λ nodes. rw d (ap (λ (l : List ℕ). ok l) (sym (append-nil nodes))))
        (subst (λ (i : ℕ). Walked (suc fuel) heap roots i (nodes_of calls)) {x = suc from}
          (omega arith) (Shows-Walked (suc fuel) s (omega arith))))
Shows-Walked zero (branch name views children middle inner rest d s t e) enough =
    absurd (omega (arith, Shows-count s, Shows-count t))
Shows-Walked {heap = heap} {from = from} (suc fuel)
      (branch {roots = roots} {calls = calls} name views children middle inner rest d s t e)
      enough =
    let low = Shows-count s in
    let high = Shows-count t in
    Walked-from (suc fuel) heap (from ∷ roots) from (suc (nodes_of inner + nodes_of rest))
      (nodes_of calls)
      (omega (arith, nodes_of-append inner (end_element name ∷ rest), ap nodes_of e))
      (Walked-root (suc fuel) heap from children roots (nodes_of inner) (nodes_of rest)
        (λ nodes. rw d (Shows-Walked fuel s (omega (arith, high)) nodes))
        (subst (λ (i : ℕ). Walked (suc fuel) heap roots i (nodes_of rest)) {x = middle}
          (omega (arith, low)) (Shows-Walked (suc fuel) t (omega (arith, low)))))

-- The nodes are there.
pub Shows-live :
    {owner : ℕ} {heap : Heap} {parent from to : ℕ} {roots : List ℕ} {calls : List Call}
    → Shows owner heap parent from roots calls to
    → from ≤ length heap
    → to ≤ length heap
Shows-live empty le = le
Shows-live (ignored i s) le = Shows-live s le
Shows-live {heap = heap} {from = from} (leaf members e d s) le =
    Shows-live s (omega (arith, deref_below heap from _ d))
Shows-live {heap = heap} {from = from} (branch name views children middle inner rest d s t e) le =
    Shows-live t (Shows-live s (omega (arith, deref_below heap from _ d)))

-- The walk over a document that the heap holds ends, and meets each of its nodes once, in the order
-- in which the document stores them.
pub depth_first-Holds :
    (document : Document) (calls : List Call) (heap : Heap)
    → Holds document calls heap
    → depth_first heap document.node ≡ ok document.storage
unfolding depth_first collect_depth_first
depth_first-Holds document calls heap h =
    by_length (length heap)
      (Shows-live h.shows (omega (arith, deref_below heap document.node _ h.at_node)))
  where
    by_length :
        (fuel : ℕ)
        → suc (nodes_of calls) ≤ fuel
        → collect_depth_first fuel heap document.node [] ≡ ok document.storage
    by_length zero le = absurd (omega arith)
    by_length (suc fuel) le =
        unfold collect_depth_first in
        rw h.at_node
          (Shows-Walked fuel h.shows (omega arith) [] ∙ ap (λ (l : List ℕ). ok l) (sym h.stored))
