-- ===== src/Dom/Links.antt =====
-- The links between the nodes of the heap: what it is that they agree.
pub mod Write
pub mod Keep
pub mod Frees
pub mod Moves
use xmlparser.Prelude.{
  ℕ, suc, ◌<◌, Bool, true, false, not, ◌||◌, List, [], ◌∷◌, ◌++◌, Option, none, some, ◌==◌,
  if◌then◌else◌, length, length-append, Bool-cases, ◌≡◌, inl, inr, refl, sym, ap, subst, ◌∙◌, arith,
}
use xmlparser.Errors.{ok, bind-eq-ok}
use xmlparser.Dom.{
  Node, Heap, deref, write, has_child, erase, set_parent, remove_child, detach, push_child,
  append_child,
}
use xmlparser.Dom.Memory.{
  deref-Live, deref_below, deref-append, deref_last, position_cases, length-write, deref-write,
  deref-write_other, deref_same,
}
use xmlparser.Dom.Tidy.{with_children, with_parent}

-- No child is there twice.
abbrev pub IsDistinct : List ℕ → Type 0
IsDistinct [] = Unit
IsDistinct (c ∷ children) = (has_child c children ≡ false) × IsDistinct children

-- Every child of a node has it as its parent, every node with a parent is a child of it, and no
-- node is a child twice.
pub record Linked (heap : Heap) : Type 0 where
  pub down :
      (i c : ℕ) (n : Node)
      → deref heap i ≡ ok n
      → has_child c n.children ≡ true
      → (m : Node) × (deref heap c ≡ ok m) × (m.parent ≡ some i)
  pub up :
      (c i : ℕ) (m : Node)
      → deref heap c ≡ ok m
      → m.parent ≡ some i
      → (n : Node) × (deref heap i ≡ ok n) × (has_child c n.children ≡ true)
  pub distinct : (i : ℕ) (n : Node) → deref heap i ≡ ok n → IsDistinct n.children

pub same_true : (i j : ℕ) → i ≡ j → (i == j) ≡ true
same_true i j e = ground (arith, e)

pub has_child-erase :
    (c x : ℕ) (xs : List ℕ)
    → IsDistinct xs
    → has_child c (erase x xs) ≡ (if c == x then false else has_child c xs)
unfolding erase
has_child-erase c x [] d = ground arith
has_child-erase c x (y ∷ xs) (new, d) =
    let ih = has_child-erase c x xs d in
    elim (Bool-cases (y == x)) [
      | inl same ↦
          let again : has_child x xs ≡ false =
            subst (λ (z : ℕ). has_child z xs ≡ false) (ground (arith, same)) new in
          elim (Bool-cases (c == x)) [
            | inl e ↦
                rw (same, e) (subst (λ (z : ℕ). has_child z xs ≡ false) (ground (arith, e)) again)
            | inr e ↦ ground (arith, same, e)
          ]
      | inr differs ↦ rw (differs) (rw (ih) ground (arith, differs))
    ]

pub has_child-append :
    (c x : ℕ) (xs : List ℕ) → has_child c (xs ++ x ∷ []) ≡ (has_child c xs || (x == c))
has_child-append c x [] = ground arith
has_child-append c x (y ∷ xs) = let ih = has_child-append c x xs in ground (arith, ih)

pub erase-IsDistinct : (x : ℕ) (xs : List ℕ) → IsDistinct xs → IsDistinct (erase x xs)
unfolding erase
erase-IsDistinct x [] d = tt
erase-IsDistinct x (y ∷ xs) (new, d) = elim (Bool-cases (y == x)) [
  | inl same ↦ rw (same) d
  | inr differs ↦
      rw (differs)
        (has_child-erase y x xs d ∙ ground (arith, new, differs), erase-IsDistinct x xs d)
]

pub append-IsDistinct :
    (x : ℕ) (xs : List ℕ) → has_child x xs ≡ false → IsDistinct xs → IsDistinct (xs ++ x ∷ [])
append-IsDistinct x [] missing d = (refl, tt)
append-IsDistinct x (y ∷ xs) missing (new, d) = (
  has_child-append y x xs ∙ ground (arith, missing, new),
  append-IsDistinct x xs (ground (arith, missing)) d,
)
