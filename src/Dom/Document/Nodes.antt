-- ===== src/Dom/Document/Nodes.antt =====
-- The nodes of the trees: where their children lie, and the same trees with another owner.
use xmlparser.Prelude.{
  ℕ, ◌<◌, ◌≤◌, List, some, ◌==◌, All, Bool-cases, ltb, ltb→lt, ◌≡◌, inl, inr, sym, ap, subst, ◌∙◌,
  arith,
}
use xmlparser.Errors.{ok}
use xmlparser.Sax.{Call}
use xmlparser.Dom.{Node, Heap, deref}
use xmlparser.Dom.Document.Adopt.{with_owner}
use xmlparser.Dom.Memory.{deref_same}
use xmlparser.Dom.Tree.{Shows, empty, ignored, leaf, branch, Shows-count}

-- The roots lie between the bounds of their trees.
Shows-roots :
    {owner : ℕ} {heap : Heap} {parent from to : ℕ} {roots : List ℕ} {calls : List Call} (i top : ℕ)
    → Shows owner heap parent from roots calls to
    → i < from
    → to ≤ top
    → All (λ c. (i < c) × (c < top)) roots
Shows-roots i top empty lt le = tt
Shows-roots i top (ignored g s) lt le = Shows-roots i top s lt le
Shows-roots i top (leaf members e d s) lt le =
    ((lt, omega (arith, Shows-count s)), Shows-roots i top s (omega arith) le)
Shows-roots i top (branch name views children middle inner rest d s t e) lt le = (
  (lt, omega (arith, Shows-count s, Shows-count t)),
  Shows-roots i top t (omega (arith, Shows-count s)) le,
)

pub Shows-Down :
    {owner : ℕ} {heap : Heap} {parent from to : ℕ} {roots : List ℕ} {calls : List Call} (top : ℕ)
    → Shows owner heap parent from roots calls to
    → to ≤ top
    → (i : ℕ) (k : Node) → from ≤ i
    → i < to
    → deref heap i ≡ ok k
    → All (λ c. (i < c) × (c < top)) k.children
Shows-Down top empty le i k low lt f = absurd (omega arith)
Shows-Down top (ignored g s) le i k low lt f = Shows-Down top s le i k low lt f
Shows-Down {heap = heap} {from = from} top (leaf members e d s) le i k low lt f =
    elim (Bool-cases (i == from)) [
      | inl same ↦
          let here : i ≡ from = ground (arith, same) in
          subst (λ (m : Node). All (λ c. (i < c) × (c < top)) m.children)
            (deref_same heap from _ k d (ap (λ (j : ℕ). deref heap j) (sym here) ∙ f)) tt
      | inr differs ↦ Shows-Down top s le i k (ground (arith, low, differs)) lt f
    ]
Shows-Down {heap = heap} {from = from} top (branch name views children middle inner rest d s t e) le
      i k low lt f =
    let after = Shows-count t in
    elim (Bool-cases (i == from)) [
      | inl same ↦
          let here : i ≡ from = ground (arith, same) in
          subst (λ (m : Node). All (λ c. (i < c) × (c < top)) m.children)
            (deref_same heap from _ k d (ap (λ (j : ℕ). deref heap j) (sym here) ∙ f))
            (Shows-roots i top s (omega (arith, here)) (omega (arith, after, le)))
      | inr differs ↦ elim (Bool-cases (ltb i middle)) [
        | inl inside ↦
            Shows-Down top s (omega (arith, after, le)) i k (ground (arith, low, differs))
              (ltb→lt i middle inside) f
        | inr behind ↦ Shows-Down top t le i k (ground (arith, behind)) lt f
      ]
    ]

-- All nodes of the trees with another owner.
pub Shows-owned :
    {old : ℕ} {heap later : Heap} {parent from to : ℕ} {roots : List ℕ} {calls : List Call}
    (owner : ℕ)
    → Shows old heap parent from roots calls to
    → ((j : ℕ) (k : Node)
        → from ≤ j
        → j < to
        → deref heap j ≡ ok k
        → deref later j ≡ ok (with_owner k (some owner)))
    → Shows owner later parent from roots calls to
Shows-owned owner empty h = empty
Shows-owned owner (ignored g s) h = ignored g (Shows-owned owner s h)
Shows-owned {from = from} owner (leaf members e d s) h =
    leaf members e (h from _ (omega arith) (omega (arith, Shows-count s)) d)
      (Shows-owned owner s (λ j k le lt f. h j k (omega (arith, le)) lt f))
Shows-owned {from = from} owner (branch name views children middle inner rest d s t e) h =
    let low = Shows-count s in
    let high = Shows-count t in
    branch name views children middle inner rest
      (h from _ (omega arith) (omega (arith, low, high)) d)
      (Shows-owned owner s (λ j k le lt f. h j k (omega (arith, le)) (omega (arith, lt, high)) f))
      (Shows-owned owner t (λ j k le lt f. h j k (omega (arith, le, low)) lt f)) e
