-- ===== src/Dom/Memory.antt =====
-- Reading and writing the heap of nodes.
use xmlparser.Prelude.{
  ℕ, zero, suc, ◌<◌, false, [], ◌∷◌, ◌++◌, length, ◌==◌, ◌≡◌, ◌⊎◌, refl, ap, arith,
}
use xmlparser.Errors.{ok}
use xmlparser.Dom.{Node, Heap, deref, write}

-- A pointer to a node that is there.
abbrev pub Live : Heap → ℕ → Type 0
Live heap i = (n : Node) × (deref heap i ≡ ok n)

pub deref-Live : (heap : Heap) (i : ℕ) → i < length heap → Live heap i
unfolding deref
deref-Live [] i lt = absurd (omega arith)
deref-Live (x ∷ heap) zero lt = (x, refl)
deref-Live (x ∷ heap) (suc i) lt = deref-Live heap i (omega arith)

pub deref_below : (heap : Heap) (i : ℕ) (n : Node) → deref heap i ≡ ok n → i < length heap
unfolding deref
deref_below [] i n e = cc
deref_below (x ∷ heap) zero n e = omega arith
deref_below (x ∷ heap) (suc i) n e = omega (arith, deref_below heap i n e)

pub deref-append :
    (heap more : Heap) (i : ℕ) → i < length heap → deref (heap ++ more) i ≡ deref heap i
unfolding deref
deref-append [] more i lt = absurd (omega arith)
deref-append (x ∷ heap) more zero lt = refl
deref-append (x ∷ heap) more (suc i) lt = deref-append heap more i (omega arith)

pub deref_last : (heap : Heap) (n : Node) → deref (heap ++ n ∷ []) (length heap) ≡ ok n
unfolding deref
deref_last [] n = refl
deref_last (x ∷ heap) n = deref_last heap n

pub length-write : (i : ℕ) (n : Node) (heap : Heap) → length (write i n heap) ≡ length heap
unfolding write
length-write i n [] = refl
length-write zero n (x ∷ heap) = refl
length-write (suc i) n (x ∷ heap) = ap suc (length-write i n heap)

pub deref-write :
    (heap : Heap) (i : ℕ) (n : Node) → i < length heap → deref (write i n heap) i ≡ ok n
unfolding deref write
deref-write [] i n lt = absurd (omega arith)
deref-write (x ∷ heap) zero n lt = refl
deref-write (x ∷ heap) (suc i) n lt = deref-write heap i n (omega arith)

pub deref-write_other :
    (heap : Heap) (i j : ℕ) (n : Node) → (j == i) ≡ false → deref (write i n heap) j ≡ deref heap j
unfolding deref write
deref-write_other [] i j n ne = refl
deref-write_other (x ∷ heap) zero zero n ne = absurd (ground (arith, ne))
deref-write_other (x ∷ heap) zero (suc j) n ne = refl
deref-write_other (x ∷ heap) (suc i) zero n ne = refl
deref-write_other (x ∷ heap) (suc i) (suc j) n ne =
    deref-write_other heap i j n (ground (arith, ne))

-- A position in a heap with one more node: an old one, or the last.
pub position_cases : (i count : ℕ) → i < suc count → (i < count) ⊎ (i ≡ count)
position_cases i count lt = ground arith

pub deref_same :
    (heap : Heap) (i : ℕ) (a b : Node) → deref heap i ≡ ok a → deref heap i ≡ ok b → a ≡ b
deref_same heap i a b e f = cc
