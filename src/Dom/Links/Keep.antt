-- ===== src/Dom/Links/Keep.antt =====
-- The links between the nodes of the heap, across `append_child` and `remove_child`.
use xmlparser.Prelude.{
  ℕ, true, false, ◌||◌, List, [], ◌∷◌, ◌++◌, Option, none, some, ◌==◌, if◌then◌else◌, Bool-cases,
  ◌≡◌, inl, inr, refl, sym, ap, subst, ◌∙◌, arith,
}
use xmlparser.Errors.{ok, bind-eq-ok}
use xmlparser.Dom.{
  Node, Heap, deref, write, has_child, erase, set_parent, remove_child, detach, push_child,
  append_child,
}
use xmlparser.Dom.Memory.{deref_below, deref-write, deref_same}
use xmlparser.Dom.Tidy.{with_children, with_parent}
use xmlparser.Dom.Append.{append_child-Admitted}
use xmlparser.Dom.Links.{
  Linked, has_child-erase, same_true, has_child-append, erase-IsDistinct, append-IsDistinct,
}
use xmlparser.Dom.Links.Write.{write_with, relinked, Relinked, relink, Linked-relinked}

module _ (heap : Heap) (l : Linked heap) (this child : ℕ) (n : Node)
    (at : deref heap this ≡ ok n) where
  -- The node `this` is the only one of which `child` can be a child, when it is one of `this`.
  pub only :
      has_child child n.children ≡ true
      → (i : ℕ) (k : Node) → deref heap i ≡ ok k
      → has_child child k.children ≡ true
      → i ≡ this
  only own i k e h =
      let (q, f, p) = l.down i child k e h in
      let (w, g, o) = l.down this child n at own in ground arith

  at_this : (i : ℕ) (k : Node) → deref heap i ≡ ok k → (i == this) ≡ true → n ≡ k
  at_this i k e same = deref_same heap this n k at (ap (deref heap) (ground (arith, same)) ∙ e)

  removed_child :
      has_child child n.children ≡ true
      → (i c : ℕ) (k : Node) → deref heap i ≡ ok k
      → has_child c (relinked this child none (erase child n.children) i k).children
        ≡ (if c == child then false else has_child c k.children)
  removed_child own i c k e = elim (Bool-cases (i == this)) [
    | inl same ↦ rw (same) (
        has_child-erase c child n.children (l.distinct this n at)
        ∙ ap (λ (x : Node). if c == child then false else has_child c x.children)
            (at_this i k e same))
    | inr differs ↦ elim (Bool-cases (c == child)) [
      | inr other ↦ rw (differs, other) refl
      | inl here ↦ elim (Bool-cases (has_child child k.children)) [
        | inl h ↦ absurd (ground (arith, differs, only own i k e h))
        | inr h ↦
            rw (differs, here)
              (subst (λ (z : ℕ). has_child z k.children ≡ false) (ground (arith, here)) h)
      ]
    ]
  ]

  removed-Linked :
      (later : Heap)
      → has_child child n.children ≡ true
      → Relinked this child none (erase child n.children) heap later
      → Linked later
  removed-Linked later own r =
      Linked-relinked this child none (erase child n.children) heap later r
        (λ i c k e h. elim (Bool-cases (c == child)) [
          | inl here ↦ absurd (ground (arith, here, h, removed_child own i c k e))
          | inr other ↦
              let (q, f, p) =
                l.down i c k e (ground (arith, other, h, removed_child own i c k e)) in
              (q, f, rw (other) p)
        ])
        (λ c i q e p. elim (Bool-cases (c == child)) [
          | inl here ↦ absurd (ground (arith, here, p))
          | inr other ↦
              let (k, f, h) = l.up c i q e (ground (arith, other, p)) in
              (k, f, removed_child own i c k f ∙ rw (other) h)
        ])
        (λ i k e. elim (Bool-cases (i == this)) [
          | inl same ↦ rw (same) (erase-IsDistinct child n.children (l.distinct this n at))
          | inr differs ↦ rw (differs) (l.distinct i k e)
        ])

  module _ (q : Node) (at_child : deref heap child ≡ ok q) (free : q.parent ≡ none) where
    pub nobody : (i : ℕ) (k : Node) → deref heap i ≡ ok k → has_child child k.children ≡ false
    nobody i k e = elim (Bool-cases (has_child child k.children)) [
      | inr h ↦ h
      | inl h ↦ let (w, f, p) = l.down i child k e h in absurd ground arith
    ]

    added_child :
        (i c : ℕ) (k : Node)
        → deref heap i ≡ ok k
        → (c == child) ≡ false
        → has_child c (relinked this child (some this) (n.children ++ child ∷ []) i k).children
          ≡ has_child c k.children
    added_child i c k e other = elim (Bool-cases (i == this)) [
      | inr differs ↦ rw (differs) refl
      | inl same ↦ rw (same) (
          has_child-append c child n.children
          ∙ ap (λ (x : Node). has_child c x.children || (child == c)) (at_this i k e same)
          ∙ ground (arith, other))
    ]

    added-Linked :
        (later : Heap)
        → Relinked this child (some this) (n.children ++ child ∷ []) heap later
        → Linked later
    added-Linked later r =
        Linked-relinked this child (some this) (n.children ++ child ∷ []) heap later r
          (λ i c k e h. elim (Bool-cases (c == child)) [
            | inl here ↦ elim (Bool-cases (i == this)) [
              | inl same ↦ (
                q,
                ap (deref heap) (ground (arith, here)) ∙ at_child,
                rw (here) (ap (λ (z : ℕ). some z) (ground (arith, same))),
              )
              | inr differs ↦
                  let mine : has_child c k.children ≡ true = ground (arith, differs, h) in
                  absurd (ground (arith, here, mine, nobody i k e))
            ]
            | inr other ↦
                let (w, f, p) = l.down i c k e (sym (added_child i c k e other) ∙ h) in
                (w, f, rw (other) p)
          ])
          (λ c i w e p. elim (Bool-cases (c == child)) [
            | inl here ↦
                let back : i ≡ this = ground (arith, here, p) in
                (
                  n,
                  ap (deref heap) back ∙ at,
                  rw (same_true i this back)
                      (has_child-append c child n.children ∙ ground (arith, here)),
                )
            | inr other ↦
                let (k, f, h) = l.up c i w e (ground (arith, other, p)) in
                (k, f, added_child i c k f other ∙ h)
          ])
          (λ i k e. elim (Bool-cases (i == this)) [
            | inl same ↦
                rw (same)
                  (append-IsDistinct child n.children (nobody this n at) (l.distinct this n at))
            | inr differs ↦ rw (differs) (l.distinct i k e)
          ])

-- The node is there, without a parent.
abbrev pub IsFree : Heap → ℕ → Type 0
IsFree heap i = (m : Node) × (deref heap i ≡ ok m) × (m.parent ≡ none)

-- The steps of `remove_child`, which return.
pub record Removes (this child : ℕ) (heap : Heap) : Type 0 where
  pub node : Node
  pub at : deref heap this ≡ ok node
  pub own : has_child child node.children ≡ true
  pub later : Heap
  pub run : remove_child this child heap ≡ ok later
  pub writes : Relinked this child none (erase child node.children) heap later
  pub free : IsFree later child

pub remove_child-Removes :
    (this child : ℕ) (heap : Heap) (q : Node)
    → Linked heap
    → deref heap child ≡ ok q
    → q.parent ≡ some this
    → Removes this child heap
unfolding remove_child set_parent
remove_child-Removes this child heap q l e p =
    let (n, at, own) = l.up child this q e p in
    let cs : List ℕ = erase child n.children in
    let middle : Heap = write this (with_children n cs) heap in
    let at_child = write_with this (λ m. with_children m cs) n q heap child at e in
    let m : Node = if child == this then with_children q cs else q in
    let later : Heap = write child (with_parent m none) middle in
    let set : set_parent child none middle ≡ ok later = rw at_child refl in
    record {
      node = n;
      at = at;
      own = own;
      later = later;
      run = rw (at, own) set;
      writes = relink this child none cs heap later n at set;
      free = (
        with_parent m none,
        deref-write middle child _ (deref_below middle child m at_child),
        refl,
      );
    }

-- In a heap in which every child of a node has it as its parent, every node with a parent is a
-- child of it, and no node is a child twice, removing a node from its parent returns; behind it the
-- heap is such a heap again, and the node has no parent.
pub remove_child-Linked :
    (this child : ℕ) (heap : Heap) (q : Node)
    → Linked heap
    → deref heap child ≡ ok q
    → q.parent ≡ some this
    → (later : Heap) × (remove_child this child heap ≡ ok later) × Linked later × IsFree later child
remove_child-Linked this child heap q l e p =
    let r = remove_child-Removes this child heap q l e p in
    (r.later, r.run, removed-Linked heap l this child r.node r.at r.later r.own r.writes, r.free)

detach-Linked :
    (child : ℕ) (heap : Heap) (q : Node) (parent : Option ℕ)
    → Linked heap
    → deref heap child ≡ ok q
    → q.parent ≡ parent
    → (later : Heap) × (detach parent child heap ≡ ok later) × Linked later × IsFree later child
unfolding detach
detach-Linked child heap q none l e p = (heap, refl, l, (q, e, p))
detach-Linked child heap q (some this) l e p = remove_child-Linked this child heap q l e p

push_child-Linked :
    (this child : ℕ) (heap later : Heap)
    → Linked heap
    → IsFree heap child
    → push_child this child heap ≡ ok later
    → Linked later
unfolding push_child
push_child-Linked this child heap later l (q, at_child, free) e =
    let (n, at, set) = bind-eq-ok (deref heap this) _ e in
    added-Linked heap l this child n at q at_child free later
      (relink this child (some this) (n.children ++ child ∷ []) heap later n at set)

-- If append_child returns on a heap in which every child of a node has it as its parent, every node
-- with a parent is a child of it, and no node is a child twice, then the heap behind it is such a
-- heap again, wherever the child stood before.
pub append_child-Linked :
    (this child : ℕ) (heap later : Heap)
    → Linked heap
    → append_child this child heap ≡ ok later
    → Linked later
append_child-Linked this child heap later l e =
    let a = append_child-Admitted this child heap later e in
    let (detached, run, linked, free) =
      detach-Linked child heap a.added a.added.parent l a.at_child refl in
    let same : detached ≡ a.detached = ground (arith, a.at_detached, run) in
    push_child-Linked this child a.detached later (subst Linked same linked)
      (subst (λ (h : Heap). IsFree h child) same free) a.pushed
