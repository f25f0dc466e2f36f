-- ===== src/Dom/Document/Own.antt =====
-- `update_owner`: the recursion ends, and changes owners only.
use xmlparser.Prelude.{
  ℕ, zero, suc, ◌+◌, ◌<◌, ◌≤◌, List, [], ◌∷◌, length, some, ◌==◌, All, Bool-cases, ◌≡◌, ◌⊎◌, inl,
  inr, refl, sym, ap, subst, ◌∙◌, arith,
}
use xmlparser.Errors.{Result, ok}
use xmlparser.Dom.{Node, Heap, deref}
use xmlparser.Dom.Document.{for_nodes, update_owner}
use xmlparser.Dom.Document.Adopt.{Changed, set_owner-Changed, with_owner}
use xmlparser.Dom.Memory.{deref-Live, deref_below, deref_same}

-- From `heap` to `later` some nodes got the owner `owner`, and nothing else changed.
pub record Owned (owner : ℕ) (heap later : Heap) : Type 0 where
  pub same_length : length later ≡ length heap
  pub kept :
      (j : ℕ) (k : Node)
      → deref heap j ≡ ok k
      → (deref later j ≡ ok k) ⊎ (deref later j ≡ ok (with_owner k (some owner)))

-- That node has got it.
abbrev pub IsOwned : ℕ → Heap → ℕ → Type 0
IsOwned owner heap j = (k : Node) × (deref heap j ≡ ok k) × (k.owner ≡ some owner)

-- Children are behind their parents, and before `top`.
abbrev pub Down : ℕ → Heap → Type 0
Down top heap =
    (i : ℕ) (k : Node)
    → 1 ≤ i
    → i < top
    → deref heap i ≡ ok k
    → All (λ c. (i < c) × (c < top)) k.children

module _ (owner : ℕ) where
  pub Owned-refl : (heap : Heap) → Owned owner heap heap
  Owned-refl heap = record { same_length = refl; kept = λ j k e. inl e }

  pub Owned-trans : {a b c : Heap} → Owned owner a b → Owned owner b c → Owned owner a c
  Owned-trans {a} {b} {c} x y = record {
    same_length = y.same_length ∙ x.same_length;
    kept = λ j k e. elim (x.kept j k e) [
      | inl f ↦ y.kept j k f
      | inr f ↦ inr (elim (y.kept j (with_owner k (some owner)) f) [ inl g ↦ g | inr g ↦ g ])
    ];
  }

  IsOwned-kept : {a b : Heap} (j : ℕ) → Owned owner a b → IsOwned owner a j → IsOwned owner b j
  IsOwned-kept j x (k, e, f) = elim (x.kept j k e) [
    | inl g ↦ (k, g, f)
    | inr g ↦ (with_owner k (some owner), g, refl)
  ]

  Down-kept : {a b : Heap} (top : ℕ) → Owned owner a b → Down top a → Down top b
  Down-kept {a} {b} top x down i k pos lt e =
      let (old, f) = deref-Live a i (omega (arith, deref_below b i k e, x.same_length)) in
      elim (x.kept i old f) [
        | inl g ↦
            subst (λ (m : Node). All (λ c. (i < c) × (c < top)) m.children)
              (deref_same b i old k g e) (down i old pos lt f)
        | inr g ↦
            subst (λ (m : Node). All (λ c. (i < c) × (c < top)) m.children)
              (deref_same b i (with_owner old (some owner)) k g e) (down i old pos lt f)
      ]

  Owned-Changed :
      (i : ℕ) (n : Node) (heap later : Heap)
      → deref heap i ≡ ok n
      → Changed i (with_owner n (some owner)) heap later
      → Owned owner heap later
  Owned-Changed i n heap later e c = record {
    same_length = c.same_length;
    kept = λ j k f. elim (Bool-cases (j == i)) [
      | inr differs ↦ inl (c.others j differs ∙ f)
      | inl same ↦
          let here : i ≡ j = ground (arith, same) in
          let node : n ≡ k = deref_same heap i n k e (ap (λ (x : ℕ). deref heap x) here ∙ f) in
          inr (
            ap (λ (x : ℕ). deref later x) (sym here)
            ∙ c.changed
            ∙ ap (λ (m : Node). ok (with_owner m (some owner))) node)
    ];
  }

  -- The run of a loop or of the recursion.
  abbrev Gives : Heap → List ℕ → Result Heap → Type 0
  Gives heap nodes r =
      (later : Heap) × (r ≡ ok later) × Owned owner heap later × All (IsOwned owner later) nodes

  All-kept :
      (a b : Heap) (nodes : List ℕ)
      → Owned owner a b
      → All (IsOwned owner a) nodes
      → All (IsOwned owner b) nodes
  All-kept a b [] x h = tt
  All-kept a b (c ∷ nodes) x (o, h) = (IsOwned-kept c x o, All-kept a b nodes x h)

  -- A loop, of which each round ends.
  pub for_nodes-Owned :
      (body : ℕ → Heap → Result Heap) (P : ℕ → Type 0) (top : ℕ)
      → ((i : ℕ) (heap : Heap)
          → P i
          → Down top heap
          → top ≤ length heap
          → Gives heap (i ∷ []) (body i heap))
      → (nodes : List ℕ) (heap : Heap) → All P nodes
      → Down top heap
      → top ≤ length heap
      → Gives heap nodes (for_nodes body nodes heap)
  for_nodes-Owned body P top round [] heap h down lt = (heap, refl, Owned-refl heap, tt)
  for_nodes-Owned body P top round (c ∷ nodes) heap (p, h) down lt =
      let (first, run, x, (o, _)) = round c heap p down lt in
      let (later, runs, y, owned) =
        for_nodes-Owned body P top round nodes first h (Down-kept top x down)
          (omega (arith, x.same_length, lt)) in
      (later, rw run runs, Owned-trans x y, (IsOwned-kept c y o, owned))

  -- With a unit of fuel for each node that may be below, the recursion ends.
  pub update_owner-Owned :
      (fuel top i : ℕ) (heap : Heap)
      → (1 ≤ i) × (i < top) × (top ≤ fuel + i)
      → Down top heap
      → top ≤ length heap
      → Gives heap (i ∷ []) (update_owner fuel (some owner) i heap)
  unfolding update_owner
  update_owner-Owned zero top i heap (pos, lt, enough) down fits = absurd (omega arith)
  update_owner-Owned (suc fuel) top i heap (pos, lt, enough) down fits =
      let (n, e) = deref-Live heap i (omega arith) in
      let (first, run, c) = set_owner-Changed i (some owner) heap n e in
      let x = Owned-Changed i n heap first e c in
      let (later, runs, y, _) =
        for_nodes-Owned (update_owner fuel (some owner))
          (λ j. (1 ≤ j) × (j < top) × (top ≤ fuel + j)) top (update_owner-Owned fuel top) n.children
          first (All-deeper n.children (down i n pos lt e)) (Down-kept top x down)
          (omega (arith, x.same_length, fits)) in
      (
        later,
        rw (run, c.changed) runs,
        Owned-trans x y,
        (IsOwned-kept i y (with_owner n (some owner), c.changed, refl), tt),
      )
    where
      All-deeper :
          (nodes : List ℕ)
          → All (λ c. (i < c) × (c < top)) nodes
          → All (λ j. (1 ≤ j) × (j < top) × (top ≤ fuel + j)) nodes
      All-deeper [] h = tt
      All-deeper (j ∷ nodes) ((deeper, under), h) =
          ((omega (arith, deeper), under, omega (arith, deeper, enough)), All-deeper nodes h)
