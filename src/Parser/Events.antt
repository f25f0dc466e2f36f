-- ===== src/Parser/Events.antt =====
-- The shape of the calls that a client gets: elements nest, and to a bounded depth.
use xmlparser.Prelude.{
  length, All, ℕ, zero, suc, Bool, true, false, List, [], ◌∷◌, ◌++◌, append_assoc, append-nil, ◌≡◌,
  refl, sym, ap, ◌∙◌, ◌≤◌, ◌<◌, subst, arith,
}
use xmlparser.Options.{ParserOptions}
use xmlparser.Sax.{
  Call, QualifiedName, AttributeView, start_element, end_element, characters,
  processing_instruction, comment, cdata, recoverable_error,
}

-- The calls that open or close nothing.
abbrev pub is_atom : Call → Bool
is_atom (characters text) = true
is_atom (processing_instruction target text) = true
is_atom (comment text) = true
is_atom (cdata text) = true
is_atom (recoverable_error e) = true
is_atom _ = false

-- The limits that a client can rely on: the number of the attributes of an element, and the length
-- of each text and name.
abbrev pub Fits : ParserOptions → Call → Type 0
Fits options (start_element name views) =
    (length name.qualified_name ≤ options.max_token_bytes)
    × (length views ≤ options.max_attributes_per_element)
    × All
        (λ view.
          (length view.name.qualified_name ≤ options.max_token_bytes)
          × (length view.value ≤ options.max_token_bytes))
        views
Fits options (characters text) = length text ≤ options.max_token_bytes
Fits options (processing_instruction target text) =
    (length target ≤ options.max_token_bytes) × (length text ≤ options.max_token_bytes)
Fits options (comment text) = length text ≤ options.max_token_bytes
Fits options (cdata text) = length text ≤ options.max_token_bytes
Fits options _ = Unit

-- A list of calls in which every start of an element has its end, with the same name, and elements
-- nest at most `depth` deep.
pub data Balanced : ℕ → List Call → Type 0 where
  nil : {depth : ℕ} → Balanced depth []
  atom :
      {depth : ℕ} {c : Call} {calls : List Call}
      → is_atom c ≡ true
      → Balanced depth calls
      → Balanced depth (c ∷ calls)
  element :
      {depth : ℕ} {calls : List Call} (name : QualifiedName) (views : List AttributeView)
      (inner rest : List Call)
      → Balanced depth inner
      → Balanced (suc depth) rest
      → calls ≡ start_element name views ∷ (inner ++ (end_element name ∷ rest))
      → Balanced (suc depth) calls

pub Balanced-append :
    {depth : ℕ} {xs ys : List Call}
    → Balanced depth xs
    → Balanced depth ys
    → Balanced depth (xs ++ ys)
Balanced-append nil k = k
Balanced-append (atom a h) k = atom a (Balanced-append h k)
Balanced-append {ys = ys} (element name views inner rest h t e) k =
    element name views inner (rest ++ ys) h (Balanced-append t k) (
      ap (λ (l : List Call). l ++ ys) e
      ∙ ap (◌∷◌ (start_element name views)) (append_assoc inner (end_element name ∷ rest) ys))

-- From `before` to `after` a balanced list of calls was made.
abbrev pub Emits : ℕ → List Call → List Call → Type 0
Emits depth before after = (made : List Call) × (after ≡ before ++ made) × Balanced depth made

pub Emits-none : (depth : ℕ) (calls : List Call) → Emits depth calls calls
Emits-none depth calls = ([], sym (append-nil calls), nil)

pub Emits-one :
    (depth : ℕ) (calls : List Call) (c : Call)
    → is_atom c ≡ true
    → Emits depth calls (calls ++ c ∷ [])
Emits-one depth calls c a = (c ∷ [], refl, atom a nil)

pub Emits-trans :
    (depth : ℕ) (a b c : List Call) → Emits depth a b → Emits depth b c → Emits depth a c
Emits-trans depth a b c (xs, e, h) (ys, f, k) =
    (xs ++ ys, f ∙ ap (λ (l : List Call). l ++ ys) e ∙ append_assoc a xs ys, Balanced-append h k)

-- The end of a longer list of calls, with what was made before it.
pub append-after :
    (a b c made inner last : List Call)
    → b ≡ a ++ made
    → c ≡ b ++ (inner ++ last)
    → c ≡ a ++ ((made ++ inner) ++ last)
append-after a b c made inner last e f =
    f ∙ ap (λ (l : List Call). l ++ (inner ++ last)) e ∙ simp append_assoc

-- More depth does no harm.
pub Balanced-mono :
    {depth : ℕ} {calls : List Call} (more : ℕ)
    → depth ≤ more
    → Balanced depth calls
    → Balanced more calls
Balanced-mono more le nil = nil
Balanced-mono more le (atom a h) = atom a (Balanced-mono more le h)
Balanced-mono zero le (element name views inner rest h t e) = absurd (omega arith)
Balanced-mono (suc more) le (element name views inner rest h t e) =
    element name views inner rest (Balanced-mono more (omega arith) h)
      (Balanced-mono (suc more) le t) e

-- The calls for one element, and those that follow its end.
pub element_calls :
    (a b c d inner rest : List Call) (first last : Call)
    → b ≡ a ++ first ∷ []
    → c ≡ b ++ (inner ++ last ∷ [])
    → d ≡ c ++ rest
    → d ≡ a ++ first ∷ (inner ++ last ∷ rest)
element_calls a b c d inner rest first last e f g =
    g
    ∙ ap (λ (l : List Call). l ++ rest) f
    ∙ ap (λ (l : List Call). (l ++ (inner ++ last ∷ [])) ++ rest) e
    ∙ simp append_assoc

-- The calls for one element, which nests at most `depth` deep, with atoms around them.
pub record OneElement (depth : ℕ) (calls : List Call) : Type 0 where
  pub before : List Call
  pub name : QualifiedName
  pub views : List AttributeView
  pub inner : List Call
  pub behind : List Call
  pub inside : ℕ
  pub within : inside < depth
  pub before_atoms : Balanced 0 before
  pub inner_balanced : Balanced inside inner
  pub behind_atoms : Balanced 0 behind
  pub shape : calls ≡ before ++ start_element name views ∷ (inner ++ end_element name ∷ behind)

pub OneElement-Balanced :
    {depth : ℕ} {calls : List Call} → OneElement depth calls → Balanced depth calls
OneElement-Balanced {depth = zero} o = absurd (omega (arith, o.within))
OneElement-Balanced {depth = suc depth} o =
    subst (λ (l : List Call). Balanced (suc depth) l) (sym o.shape)
      (Balanced-append (Balanced-mono (suc depth) (omega arith) o.before_atoms) (
        element o.name o.views o.inner o.behind
          (Balanced-mono depth (omega (arith, o.within)) o.inner_balanced)
          (Balanced-mono (suc depth) (omega arith) o.behind_atoms) refl))

-- From `a` to `b` the calls of one element were made.
abbrev pub EmitsOne : ℕ → List Call → List Call → Type 0
EmitsOne depth a b = (made : List Call) × (b ≡ a ++ made) × OneElement depth made

pub EmitsOne-Emits : (depth : ℕ) (a b : List Call) → EmitsOne depth a b → Emits depth a b
EmitsOne-Emits depth a b (made, e, o) = (made, e, OneElement-Balanced o)

-- Atoms before it, and atoms behind it.
pub EmitsOne-after :
    (depth : ℕ) (a b c : List Call) → Emits 0 a b → EmitsOne depth b c → EmitsOne depth a c
EmitsOne-after depth a b c (xs, e, h) (ys, f, o) = (
  xs ++ ys,
  f ∙ ap (λ (l : List Call). l ++ ys) e ∙ append_assoc a xs ys,
  record {
    before = xs ++ o.before;
    name = o.name;
    views = o.views;
    inner = o.inner;
    behind = o.behind;
    inside = o.inside;
    within = o.within;
    before_atoms = Balanced-append h o.before_atoms;
    inner_balanced = o.inner_balanced;
    behind_atoms = o.behind_atoms;
    shape =
        ap (λ (l : List Call). xs ++ l) o.shape
        ∙ sym (
            append_assoc xs o.before
              (start_element o.name o.views ∷ (o.inner ++ end_element o.name ∷ o.behind)));
  },
)

pub EmitsOne-before :
    (depth : ℕ) (a b c : List Call) → EmitsOne depth a b → Emits 0 b c → EmitsOne depth a c
EmitsOne-before depth a b c (xs, e, o) (ys, f, h) = (
  xs ++ ys,
  f ∙ ap (λ (l : List Call). l ++ ys) e ∙ append_assoc a xs ys,
  record {
    before = o.before;
    name = o.name;
    views = o.views;
    inner = o.inner;
    behind = o.behind ++ ys;
    inside = o.inside;
    within = o.within;
    before_atoms = o.before_atoms;
    inner_balanced = o.inner_balanced;
    behind_atoms = Balanced-append o.behind_atoms h;
    shape = ap (λ (l : List Call). l ++ ys) o.shape ∙ simp append_assoc;
  },
)
