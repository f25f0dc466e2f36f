-- ===== src/Dom/Links/Frees.antt =====
-- A node that is taken from its parent, in all the nodes.
use xmlparser.Prelude.{
  ℕ, false, List, [], ◌∷◌, Option, none, some, ◌==◌, if◌then◌else◌, Bool-cases, ◌≡◌, inl, inr, refl,
  sym, ap, subst, ◌∙◌, arith,
}
use xmlparser.Errors.{ok}
use xmlparser.Dom.{Node, Heap, deref, has_child, erase, detach}
use xmlparser.Dom.Memory.{deref_same}
use xmlparser.Dom.Links.{IsDistinct, Linked}
use xmlparser.Dom.Links.Keep.{Removes, remove_child-Removes, only, nobody}

-- The children but one.
abbrev pub without : ℕ → List ℕ → List ℕ
without x [] = []
without x (c ∷ children) = if c == x then without x children else c ∷ without x children

without_id : (x : ℕ) (xs : List ℕ) → has_child x xs ≡ false → without x xs ≡ xs
without_id x [] h = refl
without_id x (c ∷ xs) h =
    let other : (c == x) ≡ false = ground (arith, h) in
    rw (other) (ap (◌∷◌ c) (without_id x xs (ground (arith, h))))

erase-without : (x : ℕ) (xs : List ℕ) → IsDistinct xs → erase x xs ≡ without x xs
unfolding erase
erase-without x [] d = refl
erase-without x (c ∷ xs) (new, d) = elim (Bool-cases (c == x)) [
  | inl same ↦
      rw (same) (
        sym
          (without_id x xs (subst (λ (z : ℕ). has_child z xs ≡ false) (ground (arith, same)) new)))
  | inr other ↦ rw (other) (ap (◌∷◌ c) (erase-without x xs d))
]

-- The child has no parent and is nobody's child; nothing else changes.
abbrev pub freed : ℕ → ℕ → Node → Node
freed child j k = record k {
  parent = if j == child then none else k.parent;
  children = without child k.children;
}

abbrev pub Frees : ℕ → Heap → Heap → Type 0
Frees child heap later =
    (j : ℕ) (k : Node) → deref heap j ≡ ok k → deref later j ≡ ok (freed child j k)

Removes-Frees :
    (this child : ℕ) (heap : Heap) (l : Linked heap) (r : Removes this child heap)
    → Frees child heap r.later
Removes-Frees this child heap l r j k f =
    r.writes.forth j k f
    ∙ ap
        (λ (cs : List ℕ).
          ok (record k { parent = if j == child then none else k.parent; children = cs }))
        children
  where
    children :
        (if j == this then erase child r.node.children else k.children) ≡ without child k.children
    children = elim (Bool-cases (j == this)) [
      | inl same ↦
          let one : r.node ≡ k =
            deref_same heap this r.node k r.at (ap (deref heap) (ground (arith, same)) ∙ f) in
          rw (same) (
            erase-without child r.node.children (l.distinct this r.node r.at)
            ∙ ap (λ (x : Node). without child x.children) one)
      | inr differs ↦ rw (differs) (elim (Bool-cases (has_child child k.children)) [
        | inl h ↦ absurd (ground (arith, differs, only heap l this child r.node r.at r.own j k f h))
        | inr h ↦ sym (without_id child k.children h)
      ])
    ]

pub detach-Frees :
    (child : ℕ) (heap : Heap) (q : Node) (parent : Option ℕ)
    → Linked heap
    → deref heap child ≡ ok q
    → q.parent ≡ parent
    → (later : Heap) × (detach parent child heap ≡ ok later) × Frees child heap later
unfolding detach
detach-Frees child heap q none l e p = (
  heap,
  refl,
  λ j k f.
      f
      ∙ ap (λ (x : Option ℕ). ok (record k { parent = x })) (sym (no_parent j k f))
      ∙ ap
          (λ (cs : List ℕ).
            ok (record k { parent = if j == child then none else k.parent; children = cs }))
          (sym (without_id child k.children (nobody heap l child child q e q e p j k f))),
)
  where
    no_parent :
        (j : ℕ) (k : Node)
        → deref heap j ≡ ok k
        → (if j == child then none else k.parent) ≡ k.parent
    no_parent j k f = elim (Bool-cases (j == child)) [
      | inl same ↦
          let one : q ≡ k =
            deref_same heap child q k e (ap (deref heap) (ground (arith, same)) ∙ f) in
          rw (same) (sym p ∙ ap (λ (x : Node). x.parent) one)
      | inr differs ↦ rw (differs) refl
    ]
detach-Frees child heap q (some this) l e p =
    let r = remove_child-Removes this child heap q l e p in
    (r.later, r.run, Removes-Frees this child heap l r)
