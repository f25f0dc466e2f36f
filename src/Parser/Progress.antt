-- ===== src/Parser/Progress.antt =====
-- What every method of `Parser` does to its state: it ends, the cursor moves forward, the stacks are
-- as before, and the calls made are balanced. Proved method by method in the children.
pub mod Scans
pub mod Bounds
pub mod References
pub mod Markup
pub mod Values
pub mod Dtd
pub mod Doctype
pub mod Validation
pub mod EndTag
pub mod StartTag
pub mod Content
pub mod Run
use xmlparser.Prelude.{
  All, All-append, ℕ, zero, suc, ◌+◌, ◌-◌, ◌*◌, ◌≤◌, ◌<◌, Bool, true, false, List, [], ◌∷◌, ◌++◌,
  length, Bytes, ◌≡◌, refl, sym, ap, subst, ◌∙◌, arith, String, if◌then◌else◌,
}
use xmlparser.Errors.{SourceLocation, ErrorKind, XmlParseException, Result, ok, throws, stuck}
use xmlparser.Sax.{Call}
use xmlparser.Parser.State.{
  Context, Parser, Chars, ValidationFrame, M, Outcome, done, raises, diverges, then_run, call, scan,
  scanned, lifted, require,
}
use xmlparser.Parser.Events.{
  Emits, Emits-none, Emits-one, Emits-trans, is_atom, Fits, Balanced-mono,
}

-- The run ends; if it returns, then `P` holds of the result and the state.
pub data Ends {ℓ} {A : Type ℓ} (P : A → Parser → Type 0) : Outcome A → Type ℓ where
  returns : {a : A} {q : Parser} → P a q → Ends P (done a q)
  threw : {e : XmlParseException} {calls : List Call} → Ends P (raises e calls)

pub Ends-bind {ℓ κ} :
    {A : Type ℓ} {B : Type κ} {P : A → Parser → Type 0} {Q : B → Parser → Type 0} {m : Outcome A}
    (k : A → M B)
    → Ends P m
    → ((a : A) (q : Parser) → P a q → Ends Q (k a q))
    → Ends Q (then_run m k)
Ends-bind k (returns {a} {q} h) f = f a q h
Ends-bind k threw f = threw

pub Ends-map {ℓ} :
    {A : Type ℓ} {P Q : A → Parser → Type 0} {m : Outcome A}
    → Ends P m
    → ((a : A) (q : Parser) → P a q → Q a q)
    → Ends Q m
Ends-map (returns {a} {q} h) f = returns (f a q h)
Ends-map threw f = threw

pub Ends-if {ℓ} :
    {A : Type ℓ} {P : A → Parser → Type 0} (b : Bool) {x y : Outcome A}
    → (b ≡ true → Ends P x)
    → (b ≡ false → Ends P y)
    → Ends P (if b then x else y)
Ends-if true hx hy = hx refl
Ends-if false hx hy = hy refl

abbrev pub frame_names : List ValidationFrame → List Bytes
frame_names [] = []
frame_names (frame ∷ frames) = frame.name ∷ frame_names frames

-- How deep elements may still nest.
abbrev pub depth_left : Context → Parser → ℕ
depth_left ctx p = ctx.options.max_depth - length p.element_stack

-- From `p` to `q` at least `k` characters were read, and elements nest at most `d` deep.
pub record Progress (d : ℕ) (ctx : Context) (k : ℕ) (p q : Parser) : Type 0 where
  pub shorter : k + length q.chars ≤ length p.chars
  pub elements : q.element_stack ≡ p.element_stack
  pub names : q.element_name_stack ≡ p.element_name_stack
  pub scopes : q.namespace_scopes ≡ p.namespace_scopes
  pub frames : frame_names q.validation_stack ≡ frame_names p.validation_stack
  pub emitted : Emits d p.calls q.calls
  pub fits : All (Fits ctx.options) p.calls → All (Fits ctx.options) q.calls
  pub expansions :
      p.entity_expansions ≤ ctx.options.max_entity_expansions
      → q.entity_expansions ≤ ctx.options.max_entity_expansions

abbrev pub Advances {ℓ} : {A : Type ℓ} → ℕ → Context → ℕ → Parser → Outcome A → Type ℓ
Advances {A = A} d ctx k p o = Ends {A = A} (λ _ q. Progress d ctx k p q) o

module _ (d : ℕ) (ctx : Context) where
  pub Progress-refl : (p : Parser) → Progress d ctx 0 p p
  Progress-refl p = record {
    shorter = omega arith;
    elements = refl;
    names = refl;
    scopes = refl;
    frames = refl;
    emitted = Emits-none _ p.calls;
    fits = λ h. h;
    expansions = λ h. h;
  }

  pub Progress-trans :
      {j k : ℕ} {p q r : Parser}
      → Progress d ctx j p q
      → Progress d ctx k q r
      → Progress d ctx (j + k) p r
  Progress-trans {p = p} {q = q} {r = r} a b = record {
    shorter = omega (arith, a.shorter, b.shorter);
    elements = b.elements ∙ a.elements;
    names = b.names ∙ a.names;
    scopes = b.scopes ∙ a.scopes;
    frames = b.frames ∙ a.frames;
    emitted = Emits-trans _ p.calls q.calls r.calls a.emitted b.emitted;
    fits = λ h. b.fits (a.fits h);
    expansions = λ h. b.expansions (a.expansions h);
  }

  pub Progress-weaken :
      {j k : ℕ} {p q : Parser} → k ≤ j → Progress d ctx j p q → Progress d ctx k p q
  Progress-weaken le a = record {
    shorter = omega (arith, a.shorter);
    elements = a.elements;
    names = a.names;
    scopes = a.scopes;
    frames = a.frames;
    emitted = a.emitted;
    fits = a.fits;
    expansions = a.expansions;
  }

  -- A method that only moves the cursor.
  pub Progress-chars :
      (k : ℕ) (p : Parser) (chars : Chars)
      → k + length chars ≤ length p.chars
      → Progress d ctx k p (record p { chars = chars })
  Progress-chars k p chars h = record {
    shorter = h;
    elements = refl;
    names = refl;
    scopes = refl;
    frames = refl;
    emitted = Emits-none _ p.calls;
    fits = λ h. h;
    expansions = λ x. x;
  }

  pub Advances-call :
      (p : Parser) (c : Call)
      → is_atom c ≡ true
      → Fits ctx.options c
      → Advances d ctx 0 p (call c p)
  unfolding call
  Advances-call p c a f = returns (record {
    shorter = omega arith;
    elements = refl;
    names = refl;
    scopes = refl;
    frames = refl;
    emitted = Emits-one _ p.calls c a;
    fits = λ h. All-append (Fits ctx.options) p.calls (c ∷ []) h (f, tt);
    expansions = λ x. x;
  })

  pub Advances-require :
      (p : Parser) (test : Bool) (kind : ErrorKind) (place : SourceLocation) (message : String)
      → Advances d ctx 0 p (require test kind place message p)
  unfolding require
  Advances-require p true kind place message = returns (Progress-refl p)
  Advances-require p false kind place message = threw

  -- One method after another.
  pub Advances-bind {ℓ κ} :
      {A : Type ℓ} {B : Type κ} {j k : ℕ} {p : Parser} {m : Outcome A} (f : A → M B)
      → Advances d ctx j p m
      → ((a : A) (q : Parser) → Progress d ctx j p q → Advances d ctx k q (f a q))
      → Advances d ctx (j + k) p (then_run m f)
  Advances-bind f h g = Ends-bind f h (λ a q x. Ends-map (g a q x) (λ b r y. Progress-trans x y))

  pub Advances-then {ℓ κ} :
      {A : Type ℓ} {B : Type κ} {p : Parser} {m : Outcome A} (f : A → M B)
      → Advances d ctx 0 p m
      → ((a : A) (q : Parser) → Progress d ctx 0 p q → Advances d ctx 0 q (f a q))
      → Advances d ctx 0 p (then_run m f)
  Advances-then f h g = Advances-bind {j = 0} {k = 0} f h g

  pub Advances-weaken {ℓ} :
      {A : Type ℓ} {j k : ℕ} {p : Parser} {m : Outcome A}
      → k ≤ j
      → Advances d ctx j p m
      → Advances d ctx k p m
  Advances-weaken le h = Ends-map h (λ a q x. Progress-weaken le x)

  pub Advances-some {ℓ} :
      {A : Type ℓ} {j : ℕ} {p : Parser} {m : Outcome A}
      → Advances d ctx j p m
      → Advances d ctx 0 p m
  Advances-some h = Advances-weaken (omega arith) h

  -- A test that chooses between two methods.
  pub Advances-choice {ℓ} :
      {A : Type ℓ} {k : ℕ} {p : Parser} (b : Bool) (m n : M A)
      → (b ≡ true → Advances d ctx k p (m p))
      → (b ≡ false → Advances d ctx k p (n p))
      → Advances d ctx k p ((if b then m else n) p)
  Advances-choice true m n hm hn = hm refl
  Advances-choice false m n hm hn = hn refl

-- Calls that open nothing fit into every depth.
pub Progress-deeper :
    (ctx : Context) {d k : ℕ} {p q : Parser} → Progress 0 ctx k p q → Progress d ctx k p q
Progress-deeper ctx {d = d} a = record {
  shorter = a.shorter;
  elements = a.elements;
  names = a.names;
  scopes = a.scopes;
  frames = a.frames;
  emitted = (a.emitted.0, a.emitted.1, Balanced-mono d (omega arith) a.emitted.2);
  fits = a.fits;
  expansions = a.expansions;
}
