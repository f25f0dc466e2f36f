-- ===== src/Dom/Links/Write.antt =====
-- New nodes, and the two writes by which `append_child` and `remove_child` change the links.
use xmlparser.Prelude.{
  ℕ, Bool, true, false, List, [], ◌∷◌, ◌++◌, Option, none, some, ◌==◌, if◌then◌else◌, length,
  length-append, Bool-cases, ◌≡◌, ◌⊎◌, inl, inr, refl, sym, ap, subst, ◌∙◌, arith,
}
use xmlparser.Errors.{ok, bind-eq-ok}
use xmlparser.Dom.{Node, Heap, deref, write, has_child, set_parent}
use xmlparser.Dom.Memory.{
  deref-Live, deref_below, deref-append, deref_last, position_cases, length-write, deref-write,
  deref-write_other, deref_same,
}
use xmlparser.Dom.Tidy.{with_children, with_parent}
use xmlparser.Dom.Links.{IsDistinct, Linked}

pub write_with :
    (i : ℕ) (f : Node → Node) (n k : Node) (heap : Heap) (j : ℕ)
    → deref heap i ≡ ok n
    → deref heap j ≡ ok k
    → deref (write i (f n) heap) j ≡ ok (if j == i then f k else k)
write_with i f n k heap j at e = elim (Bool-cases (j == i)) [
  | inl same ↦
      let here : j ≡ i = ground (arith, same) in
      let both : n ≡ k = deref_same heap i n k at (ap (deref heap) (sym here) ∙ e) in
      rw (same) (
        ap (deref (write i (f n) heap)) here
        ∙ deref-write heap i (f n) (deref_below heap i n at)
        ∙ ap (λ (m : Node). ok (f m)) both)
  | inr differs ↦ rw (differs) (deref-write_other heap i j (f n) differs ∙ e)
]

-- A node behind a write of the children of `this` and a write of the parent of `child`.
abbrev pub relinked : ℕ → ℕ → Option ℕ → List ℕ → ℕ → Node → Node
relinked this child parent children j k = record k {
  parent = if j == child then parent else k.parent;
  children = if j == this then children else k.children;
}

both_changes :
    (b c : Bool) (parent : Option ℕ) (children : List ℕ) (k : Node)
    → (if c
        then with_parent (if b then with_children k children else k) parent
        else (if b then with_children k children else k))
      ≡ record k {
        parent = if c then parent else k.parent;
        children = if b then children else k.children;
      }
both_changes false false parent children k = refl
both_changes false true parent children k = refl
both_changes true false parent children k = refl
both_changes true true parent children k = refl

-- From `heap` to `later` two writes are done, and no more.
pub record Relinked (this child : ℕ) (parent : Option ℕ) (children : List ℕ) (heap later : Heap)
    : Type 0 where
  pub forth :
      (j : ℕ) (k : Node)
      → deref heap j ≡ ok k
      → deref later j ≡ ok (relinked this child parent children j k)
  pub back :
      (j : ℕ) (m : Node)
      → deref later j ≡ ok m
      → (k : Node) × (deref heap j ≡ ok k) × (relinked this child parent children j k ≡ m)

pub relink :
    (this child : ℕ) (parent : Option ℕ) (children : List ℕ) (heap later : Heap) (n : Node)
    → deref heap this ≡ ok n
    → set_parent child parent (write this (with_children n children) heap) ≡ ok later
    → Relinked this child parent children heap later
unfolding set_parent
relink this child parent children heap later n at e =
    let middle : Heap = write this (with_children n children) heap in
    let (c, at_child, done) = bind-eq-ok (deref middle child) _ e in
    let same : write child (with_parent c parent) middle ≡ later = ground arith in
    let go : (j : ℕ) (k : Node)
        → deref heap j ≡ ok k
        → deref later j ≡ ok (relinked this child parent children j k) =
      λ j k f.
        ap (λ (h : Heap). deref h j) (sym same)
        ∙ write_with child (λ m. with_parent m parent) c _ middle j at_child
            (write_with this (λ m. with_children m children) n k heap j at f)
        ∙ ap (λ (m : Node). ok m) (both_changes (j == this) (j == child) parent children k) in
    let long : length later ≡ length heap =
      ap length (sym same) ∙ length-write child _ middle ∙ length-write this _ heap in
    record {
      forth = go;
      back = λ j m f.
          let (k, g) = deref-Live heap j (omega (arith, long, deref_below later j m f)) in
          (k, g, deref_same later j _ m (go j k g) f);
    }

-- A new node, without a parent and without children.
pub make-Linked :
    (heap : Heap) (new : Node)
    → Linked heap
    → new.parent ≡ none
    → new.children ≡ []
    → Linked (heap ++ new ∷ [])
make-Linked heap new l free leaf =
    let old : (i : ℕ) (n : Node)
        → deref (heap ++ new ∷ []) i ≡ ok n
        → (deref heap i ≡ ok n) ⊎ (new ≡ n) =
      λ i n e.
        elim (position_cases i (length heap)
          (omega (arith, deref_below (heap ++ new ∷ []) i n e, length-append heap (new ∷ [])))) [
            | inl lt ↦ inl (sym (deref-append heap (new ∷ []) i lt) ∙ e)
            | inr last ↦ inr (
                deref_same (heap ++ new ∷ []) (length heap) new n (deref_last heap new)
                  (ap (deref (heap ++ new ∷ [])) (sym last) ∙ e))
          ] in
    record {
      down = λ i c n e h. elim (old i n e) [
        | inl f ↦
            let (m, g, p) = l.down i c n f h in
            (m, deref-append heap (new ∷ []) c (deref_below heap c m g) ∙ g, p)
        | inr same ↦ absurd (
            ground
              (arith, sym h ∙ ap (has_child c) (sym (ap (λ (x : Node). x.children) same) ∙ leaf)))
      ];
      up = λ c i m e p. elim (old c m e) [
        | inl f ↦
            let (n, g, h) = l.up c i m f p in
            (n, deref-append heap (new ∷ []) i (deref_below heap i n g) ∙ g, h)
        | inr same ↦ absurd (ground (arith, sym p ∙ sym (ap (λ (x : Node). x.parent) same) ∙ free))
      ];
      distinct = λ i n e. elim (old i n e) [
        | inl f ↦ l.distinct i n f
        | inr same ↦ subst IsDistinct (sym leaf ∙ ap (λ (x : Node). x.children) same) tt
      ];
    }

-- A heap is linked behind two writes that agree with each other.
module _ (this child : ℕ) (parent : Option ℕ) (children : List ℕ) (heap later : Heap)
    (r : Relinked this child parent children heap later) where
  abbrev now : ℕ → Node → Node
  now = relinked this child parent children

  pub Linked-relinked :
      ((i c : ℕ) (k : Node)
        → deref heap i ≡ ok k
        → has_child c (now i k).children ≡ true
        → (q : Node) × (deref heap c ≡ ok q) × ((now c q).parent ≡ some i))
      → ((c i : ℕ) (q : Node)
          → deref heap c ≡ ok q
          → (now c q).parent ≡ some i
          → (k : Node) × (deref heap i ≡ ok k) × (has_child c (now i k).children ≡ true))
      → ((i : ℕ) (k : Node) → deref heap i ≡ ok k → IsDistinct (now i k).children)
      → Linked later
  Linked-relinked d u s = record {
    down = λ i c m e h.
        let (k, f, same) = r.back i m e in
        let (q, g, p) = d i c k f (ap (λ (x : Node). has_child c x.children) same ∙ h) in
        (now c q, r.forth c q g, p);
    up = λ c i m e p.
        let (q, f, same) = r.back c m e in
        let (k, g, h) = u c i q f (ap (λ (x : Node). x.parent) same ∙ p) in
        (now i k, r.forth i k g, h);
    distinct = λ i m e.
        let (k, f, same) = r.back i m e in
        subst (λ (x : Node). IsDistinct x.children) same (s i k f);
  }
