-- ===== src/Dom/Document/Adopt.antt =====
-- Changing one node of the heap, and giving a list of trees another parent.
use xmlparser.Prelude.{
  ℕ, ◌<◌, ◌≤◌, false, List, length, Option, some, ◌==◌, ◌≡◌, ◌⊎◌, inl, refl, ◌∙◌, arith,
}
use xmlparser.Errors.{Result, ok}
use xmlparser.Sax.{Call}
use xmlparser.Dom.{Node, Heap, deref, write, set_parent}
use xmlparser.Dom.Document.{for_nodes, set_owner_document, set_children}
use xmlparser.Dom.Memory.{deref_below, length-write, deref-write, deref-write_other}
use xmlparser.Dom.Tidy.{with_children, with_parent}
use xmlparser.Dom.Tree.{Shows, empty, ignored, leaf, branch, Shows-count, Shows-frame}

-- From `heap` to `later` the node at `i` became `new`, and no other node changed.
pub record Changed (i : ℕ) (new : Node) (heap later : Heap) : Type 0 where
  pub same_length : length later ≡ length heap
  pub changed : deref later i ≡ ok new
  pub others : (j : ℕ) → (j == i) ≡ false → deref later j ≡ deref heap j

pub Changed-write :
    (i : ℕ) (new : Node) (heap : Heap) → i < length heap → Changed i new heap (write i new heap)
Changed-write i new heap lt = record {
  same_length = length-write i new heap;
  changed = deref-write heap i new lt;
  others = λ j differs. deref-write_other heap i j new differs;
}

-- A method that changes one node returns, and does so.
abbrev Changes : ℕ → Node → Heap → Result Heap → Type 0
Changes i new heap r = (later : Heap) × (r ≡ ok later) × Changed i new heap later

pub set_parent-Changed :
    (i : ℕ) (parent : Option ℕ) (heap : Heap) (n : Node)
    → deref heap i ≡ ok n
    → Changes i (with_parent n parent) heap (set_parent i parent heap)
unfolding set_parent
set_parent-Changed i parent heap n e = (
  write i (with_parent n parent) heap,
  rw e refl,
  Changed-write i _ heap (deref_below heap i n e),
)

pub set_children-Changed :
    (i : ℕ) (children : List ℕ) (heap : Heap) (n : Node)
    → deref heap i ≡ ok n
    → Changes i (with_children n children) heap (set_children children i heap)
unfolding set_children
set_children-Changed i children heap n e = (
  write i (with_children n children) heap,
  rw e refl,
  Changed-write i _ heap (deref_below heap i n e),
)

abbrev pub with_owner : Node → Option ℕ → Node
with_owner n owner = record n { owner = owner }

pub set_owner-Changed :
    (i : ℕ) (owner : Option ℕ) (heap : Heap) (n : Node)
    → deref heap i ≡ ok n
    → Changes i (with_owner n owner) heap (set_owner_document owner i heap)
unfolding set_owner_document
set_owner-Changed i owner heap n e =
    (write i (with_owner n owner) heap, rw e refl, Changed-write i _ heap (deref_below heap i n e))

-- The loop gives all the trees the new parent, and changes nothing outside of them.
pub record Adopted (owner : ℕ) (heap : Heap) (parent from : ℕ) (roots : List ℕ) (calls : List Call)
    (to : ℕ) : Type 0 where
  pub later : Heap
  pub run : for_nodes (λ c. set_parent c (some parent)) roots heap ≡ ok later
  pub same_length : length later ≡ length heap
  pub shows : Shows owner later parent from roots calls to
  pub outside : (j : ℕ) → (j < from) ⊎ (to ≤ j) → deref later j ≡ deref heap j

-- For any heap that agrees on the nodes of the trees.
pub adopt :
    {owner : ℕ} {known : Heap} {old from to : ℕ} {roots : List ℕ} {calls : List Call} (parent : ℕ)
    (heap : Heap)
    → Shows owner known old from roots calls to
    → ((i : ℕ) → from ≤ i → i < to → deref heap i ≡ deref known i)
    → Adopted owner heap parent from roots calls to
adopt parent heap empty same = record {
  later = heap;
  run = refl;
  same_length = refl;
  shows = empty;
  outside = λ j out. refl;
}
adopt parent heap (ignored i s) same =
    let a = adopt parent heap s same in
    record {
      later = a.later;
      run = a.run;
      same_length = a.same_length;
      shows = ignored i a.shows;
      outside = a.outside;
    }
adopt {from = from} parent heap (leaf members e d s) same =
    let count = Shows-count s in
    let (first, run, c) =
      set_parent-Changed from (some parent) heap _
        (same from (omega arith) (omega (arith, count)) ∙ d) in
    let a =
      adopt parent first s
        (λ i le lt. c.others i (ground (arith, le)) ∙ same i (omega (arith, le)) lt) in
    record {
      later = a.later;
      run = rw run a.run;
      same_length = a.same_length ∙ c.same_length;
      shows = leaf members e (a.outside from (inl (omega arith)) ∙ c.changed) a.shows;
      outside = λ j out.
          a.outside j (ground (arith, out, count)) ∙ c.others j (ground (arith, out, count));
    }
adopt {from = from} parent heap (branch name views children middle inner rest d s t e) same =
    let low = Shows-count s in
    let high = Shows-count t in
    let (first, run, c) =
      set_parent-Changed from (some parent) heap _
        (same from (omega arith) (omega (arith, low, high)) ∙ d) in
    let a =
      adopt parent first t
        (λ i le lt. c.others i (ground (arith, le, low)) ∙ same i (omega (arith, le, low)) lt) in
    record {
      later = a.later;
      run = rw run a.run;
      same_length = a.same_length ∙ c.same_length;
      shows =
          branch name views children middle inner rest
            (a.outside from (inl (omega (arith, low))) ∙ c.changed)
            (Shows-frame
              (λ i le lt.
                a.outside i (inl lt)
                ∙ c.others i (ground (arith, le))
                ∙ same i (omega (arith, le)) (omega (arith, lt, high)))
              s)
            a.shows e;
      outside = λ j out.
          a.outside j (ground (arith, out, low, high))
          ∙ c.others j (ground (arith, out, low, high));
    }
