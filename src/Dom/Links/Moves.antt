-- ===== src/Dom/Links/Moves.antt =====
-- What `append_child` admits, and where it moves the child.
use xmlparser.Prelude.{
  ℕ, zero, suc, Bool, true, false, not, ◌&&◌, ◌||◌, List, [], ◌∷◌, ◌++◌, Option, none, some, ◌==◌,
  if◌then◌else◌, length, Bool-cases, ◌≡◌, inl, inr, refl, sym, ap, subst, ◌∙◌, arith,
}
use xmlparser.Errors.{ok, bind-eq-ok}
use xmlparser.Dom.{
  Node, Heap, is_document, is_element, deref, has_child, ancestor_loop, is_ancestor_of,
  other_element, same_owner, push_child, append_child,
}
use xmlparser.Dom.Append.{append_child-Admitted}
use xmlparser.Dom.Memory.{deref_same}
use xmlparser.Dom.Links.{Linked}
use xmlparser.Dom.Links.Write.{relink}
use xmlparser.Dom.Links.Frees.{without, freed, Frees, detach-Frees}

-- The node `a` is met on the way up that begins at `from`.
pub data IsAbove (heap : Heap) (a : ℕ) : Option ℕ → Type 0 where
  here : IsAbove heap a (some a)
  up : {c : ℕ} (n : Node) → deref heap c ≡ ok n → IsAbove heap a n.parent → IsAbove heap a (some c)

-- A node behind the move of `child` to the end of the children of `this`.
abbrev pub moved : ℕ → ℕ → ℕ → Node → Node
moved this child j k = record k {
  parent = if j == child then some this else k.parent;
  children = if j == this then without child k.children ++ child ∷ [] else without child k.children;
}

ancestor_loop-IsAbove :
    (heap : Heap) (fuel a : ℕ) (from : Option ℕ)
    → ancestor_loop heap fuel a from ≡ ok false
    → IsAbove heap a from
    → ⊥
unfolding ancestor_loop
ancestor_loop-IsAbove heap zero a from e here = cc
ancestor_loop-IsAbove heap zero a from e (up n at h) = cc
ancestor_loop-IsAbove heap (suc fuel) a from e here =
    let same : (a == a) ≡ true = ground arith in absurd (ground (arith, e, same))
ancestor_loop-IsAbove heap (suc fuel) a from e (up {c = c} n at h) = elim (Bool-cases (c == a)) [
  | inl same ↦ absurd (ground (arith, e, same))
  | inr other ↦ ancestor_loop-IsAbove heap fuel a n.parent (rw (other, at) at e) h
]

other_element-none :
    (heap : Heap) (child : ℕ) (children : List ℕ)
    → other_element heap child children ≡ ok false
    → (c : ℕ) (m : Node) → has_child c children ≡ true
    → (c == child) ≡ false
    → deref heap c ≡ ok m
    → is_element m.members ≡ false
unfolding other_element
other_element-none heap child [] e c m h other f = cc
other_element-none heap child (x ∷ children) e c m h other f =
    let (n, at, e₁) = bind-eq-ok (deref heap x) _ e in
    let (rest, more, e₂) = bind-eq-ok (other_element heap child children) _ e₁ in
    let both : ((not (x == child) && is_element n.members) || rest) ≡ false = ground (arith, e₂) in
    elim (Bool-cases (x == c)) [
      | inl same ↦
          let one : n ≡ m = deref_same heap x n m at (ap (deref heap) (ground (arith, same)) ∙ f) in
          ap (λ (k : Node). is_element k.members) (sym one) ∙ ground (arith, both, other, same)
      | inr differs ↦
          other_element-none heap child children
            (more ∙ ap (λ (b : Bool). ok b) (ground (arith, both))) c m (ground (arith, h, differs))
            other f
    ]

push_child-moved :
    (this child : ℕ) (heap middle later : Heap) (node : Node)
    → deref heap this ≡ ok node
    → Frees child heap middle
    → push_child this child middle ≡ ok later
    → (j : ℕ) (k : Node) → deref heap j ≡ ok k
    → deref later j ≡ ok (moved this child j k)
unfolding push_child
push_child-moved this child heap middle later node at frees e j k f =
    let (n, at_this, set) = bind-eq-ok (deref middle this) _ e in
    let r = relink this child (some this) (n.children ++ child ∷ []) middle later n at_this set in
    let one : freed child this node ≡ n =
      deref_same middle this (freed child this node) n (frees this node at) at_this in
    r.forth j (freed child j k) (frees j k f)
    ∙ ap
        (λ (p : Option ℕ). ok (record k {
          parent = p;
          children = if j == this then n.children ++ child ∷ [] else without child k.children;
        }))
        (twice (j == child) k.parent)
    ∙ ap
        (λ (cs : List ℕ).
          ok (record k { parent = if j == child then some this else k.parent; children = cs }))
        (elim (Bool-cases (j == this)) [
          | inl same ↦
              let again : node ≡ k =
                deref_same heap this node k at (ap (deref heap) (ground (arith, same)) ∙ f) in
              rw (same) (
                ap (λ (x : Node). x.children ++ child ∷ []) (sym one)
                ∙ ap (λ (x : Node). without child x.children ++ child ∷ []) again)
          | inr differs ↦ rw (differs) refl
        ])
  where
    twice :
        (b : Bool) (p : Option ℕ)
        → (if b then some this else (if b then none else p)) ≡ (if b then some this else p)
    twice true p = refl
    twice false p = refl

-- What `append_child` lets pass, and the heap behind it.
pub record Moves (this child : ℕ) (heap later : Heap) : Type 0 where
  pub node : Node
  pub added : Node
  pub at_this : deref heap this ≡ ok node
  pub at_child : deref heap child ≡ ok added
  pub document : ℕ
  pub owner : node.owner ≡ some document
  pub same_document : added.owner ≡ some document
  pub no_document : is_document added.members ≡ false
  pub no_cycle : IsAbove heap child (some this) → ⊥
  pub only_element :
      is_document node.members ≡ true
      → is_element added.members ≡ true
      → (c : ℕ) (m : Node) → has_child c node.children ≡ true
      → (c == child) ≡ false
      → deref heap c ≡ ok m
      → is_element m.members ≡ false
  pub nodes : (j : ℕ) (k : Node) → deref heap j ≡ ok k → deref later j ≡ ok (moved this child j k)

owner_of :
    (mine other : Option ℕ)
    → same_owner mine other ≡ true
    → (document : ℕ) × (mine ≡ some document) × (other ≡ some document)
unfolding same_owner
owner_of none other e = cc
owner_of (some d) none e = cc
owner_of (some d) (some c) e = (d, refl, ap (λ (i : ℕ). some i) (ground (arith, e)))

only_child :
    (this child : ℕ) (heap : Heap) (node : Node)
    → deref heap this ≡ ok node
    → (child == this) ≡ false
    → is_ancestor_of heap child node ≡ ok false
    → IsAbove heap child (some this)
    → ⊥
unfolding is_ancestor_of
only_child this child heap node at other loop here = absurd (ground (arith, other))
only_child this child heap node at other loop (up n e h) =
    ancestor_loop-IsAbove heap (length heap) child node.parent loop
      (subst (λ (x : Node). IsAbove heap child x.parent) (deref_same heap this n node e at) h)

-- Whenever append_child returns, on a heap in which parents and children agree and no node is a
-- child twice, the child was no document, belonged to the same document as the node, was neither
-- the node itself nor met on the way up from it, and if the node is a document and the child an
-- element, no other child of the node is one. The child is then taken out of the children of every
-- node, added behind those of the node, and has the node as its parent; all else in the nodes is as
-- before.
pub append_child-Moves :
    (this child : ℕ) (heap later : Heap)
    → Linked heap
    → append_child this child heap ≡ ok later
    → Moves this child heap later
append_child-Moves this child heap later l e =
    let a = append_child-Admitted this child heap later e in
    let (document, owner, same_document) = owner_of a.node.owner a.added.owner a.owned in
    let (detached, run, frees) = detach-Frees child heap a.added a.added.parent l a.at_child refl in
    let same : detached ≡ a.detached = ground (arith, a.at_detached, run) in
    record {
      node = a.node;
      added = a.added;
      at_this = a.at_this;
      at_child = a.at_child;
      document = document;
      owner = owner;
      same_document = same_document;
      no_document = a.no_document;
      no_cycle = only_child this child heap a.node a.at_this a.no_cycle a.no_ancestor;
      only_element = λ root element c m h other f.
          other_element-none heap child a.node.children
            (a.others ∙ ap (λ (b : Bool). ok b) (ground (arith, a.one_root, root, element))) c m h
            other f;
      nodes =
          push_child-moved this child heap a.detached later a.node a.at_this
            (subst (Frees child heap) same frees) a.pushed;
    }
