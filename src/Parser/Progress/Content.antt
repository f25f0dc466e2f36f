-- ===== src/Parser/Progress/Content.antt =====
-- Elements: the recursion ends, the cursor moves forward, and the calls for an element nest.
use xmlparser.Prelude.{
  All-append, ℕ, zero, suc, ◌+◌, ◌-◌, ◌*◌, ◌≤◌, ◌<◌, List, [], ◌∷◌, ◌++◌, length, Bytes, codes, ◌≡◌,
  refl, ap, ◌∙◌, sym, subst, arith,
}
use xmlparser.Errors.{SourceLocation}
use xmlparser.Sax.{QualifiedName, AttributeView, start_element, end_element}
use xmlparser.Parser.State.{Context, Parser, Map, M}
use xmlparser.Parser.Cursor.{eof, starts_with}
use xmlparser.Parser.Content.{
  content_round, element_body, parse_element, parse_content, close_element,
}
use xmlparser.Parser.Events.{
  Fits, nil, Emits, element_calls, EmitsOne, EmitsOne-Emits, EmitsOne-after, EmitsOne-before,
}
use xmlparser.Parser.Progress.{
  frame_names, depth_left, Advances, Ends, threw, Progress, Progress-trans, Progress-deeper,
  Ends-map, Ends-bind, Ends-if,
}
use xmlparser.Parser.Progress.Scans.{Advances-expect_sequence, Advances-expect}
use xmlparser.Parser.Progress.Validation.{Closed-close_element}
use xmlparser.Parser.Progress.EndTag.{
  Closes, Closes-after, Closes-call_end, Closes-parse_end_tag, Advances-parse_item,
}
use xmlparser.Parser.Progress.StartTag.{opened, Ends-open_element, Ends-parse_start_tag}

-- From `p` to `q` one element was read and reported, and `k` characters at least.
pub record Encloses (d : ℕ) (ctx : Context) (k : ℕ) (p q : Parser) : Type 0 where
  pub progress : Progress d ctx k p q
  pub one : EmitsOne d p.calls q.calls

pub Encloses-after :
    (d : ℕ) (ctx : Context) {j k : ℕ} {p q r : Parser}
    → Progress 0 ctx j p q
    → Encloses d ctx k q r
    → Encloses d ctx (j + k) p r
Encloses-after d ctx {p = p} {q} {r} a c = record {
  progress = Progress-trans d ctx (Progress-deeper ctx a) c.progress;
  one = EmitsOne-after d p.calls q.calls r.calls a.emitted c.one;
}

pub Encloses-before :
    (d : ℕ) (ctx : Context) {j k : ℕ} {p q r : Parser}
    → Encloses d ctx j p q
    → Progress 0 ctx k q r
    → Encloses d ctx (j + k) p r
Encloses-before d ctx {p = p} {q} {r} c a = record {
  progress = Progress-trans d ctx c.progress (Progress-deeper ctx a);
  one = EmitsOne-before d p.calls q.calls r.calls c.one a.emitted;
}

module _ (d inside : ℕ) (ctx : Context) (deeper : inside < d) where
  -- The end of an element that was opened in `p`.
  module _ (start : SourceLocation) (name : Bytes) (qname : QualifiedName) (scope : Map Bytes)
      (views : List AttributeView) (p : Parser) where
    element-EmitsOne :
        (t q : Parser)
        → Closes inside ctx qname (opened p name qname scope views) t
        → Emits 0 t.calls q.calls
        → EmitsOne d p.calls q.calls
    element-EmitsOne t q c (rest, e, h) = (
      start_element qname views ∷ (c.inner ++ end_element qname ∷ rest),
      element_calls p.calls _ t.calls q.calls c.inner rest _ _ refl c.emitted e,
      record {
        before = [];
        name = qname;
        views = views;
        inner = c.inner;
        behind = rest;
        inside = inside;
        within = deeper;
        before_atoms = nil;
        inner_balanced = c.balanced;
        behind_atoms = h;
        shape = refl;
      },
    )

    Encloses-close_element :
        (t : Parser)
        → Fits ctx.options (start_element qname views)
        → Closes inside ctx qname (opened p name qname scope views) t
        → Ends (λ _ q. Encloses d ctx 0 p q) (close_element ctx start t)
    Encloses-close_element t limits c =
        Ends-map
          (Closed-close_element 0 ctx start t name p.element_stack qname p.element_name_stack scope
            p.namespace_scopes name (frame_names p.validation_stack) c.elements c.names c.scopes
            c.frames)
          λ _ q x.
            let one = element-EmitsOne t q c x.emitted in
            record {
              progress = record {
                shorter = omega (arith, x.shorter, c.shorter);
                elements = x.elements_left;
                names = x.names_left;
                scopes = x.scopes_left;
                frames = x.frames_left;
                emitted = EmitsOne-Emits d p.calls q.calls one;
                fits = λ h. x.fits (
                    c.fits (
                      All-append (Fits ctx.options) p.calls (start_element qname views ∷ []) h
                        (limits, tt)));
                expansions = λ h. x.expansions (c.expansions h);
              };
              one = one;
            }

    -- Behind the start tag: the content, or none, and the end.
    Encloses-element_body :
        (content : Bytes → M (Unit {0}))
        → Fits ctx.options (start_element qname views)
        → ((q : Parser)
            → Progress inside ctx 1 (opened p name qname scope views) q
            → Ends (λ _ r. Closes inside ctx qname q r) (content name q))
        → Ends
            (λ _ q. Encloses d ctx 0 p q)
            (element_body ctx start name qname content (opened p name qname scope views))
    unfolding element_body
    Encloses-element_body content limits h =
        let o = opened p name qname scope views in
        Ends-if (starts_with (codes "/>") o.chars)
          (λ _. Ends-bind _ (Advances-expect_sequence inside ctx (codes "/>") _ o) λ _ q a.
            Ends-bind _ (Closes-call_end inside ctx q qname)
              λ _ r b. Encloses-close_element r limits (Closes-after inside ctx a b))
          (λ _. Ends-bind _ (Advances-expect inside ctx b'>' _ o) λ _ q a.
            Ends-bind _ (h q a)
              λ _ r b. Encloses-close_element r limits (Closes-after inside ctx a b))

module _ (d : ℕ) (ctx : Context) where
  Closes-content_round :
      (open_name : Bytes) (child again : M (Unit {0})) (p : Parser) (name : QualifiedName)
      (names : List QualifiedName)
      → p.element_name_stack ≡ name ∷ names
      → Advances d ctx 1 p (child p)
      → ((q : Parser) → Progress d ctx 1 p q → Ends (λ _ r. Closes d ctx name q r) (again q))
      → Ends (λ _ q. Closes d ctx name p q) (content_round ctx open_name child again p)
  unfolding content_round
  Closes-content_round open_name child again p name names e h k =
      Ends-if (eof p.chars) (λ _. threw)
        λ more.
          Ends-if (starts_with (codes "</") p.chars)
            (λ _. Closes-parse_end_tag d ctx open_name p name names e)
            λ _.
              Ends-bind _ (Advances-parse_item d ctx child p more h)
                λ _ q a. Ends-map (k q a) λ _ r c. Closes-after d ctx a c

mutual
  unfolding parse_element parse_content

  element-Ends :
      (ctx : Context) (fuel : ℕ) (p : Parser)
      → 2 * length p.chars + 1 ≤ fuel
      → Ends (λ _ q. Encloses (depth_left ctx p) ctx 1 p q) (parse_element ctx fuel p)
  element-Ends ctx zero p h = absurd (omega arith)
  element-Ends ctx (suc fuel) p h =
      Ends-bind _ (Ends-parse_start_tag 0 ctx p)
        λ (start, name, attributes) q (a, room, named, sound).
          Ends-bind _ (Ends-open_element 0 ctx start name attributes q named sound)
            λ qname r (scope, views, same, limits).
              subst
                (λ (s : Parser).
                  Ends (λ _ u. Encloses (depth_left ctx p) ctx 1 p u)
                    (element_body ctx start name qname (parse_content ctx fuel) s))
                (sym same)
                (Ends-map
                  (Encloses-element_body (depth_left ctx p)
                    (depth_left ctx (opened q name qname scope views)) ctx
                    (omega (arith, room, ap (λ (l : List Bytes). length l) a.elements)) start name
                    qname scope views q (parse_content ctx fuel) limits
                    (λ s b.
                      subst
                        (λ (n : ℕ).
                          Ends (λ _ u. Closes n ctx qname s u) (parse_content ctx fuel name s))
                        (ap (λ (l : List Bytes). ctx.options.max_depth - length l) b.elements)
                        (content-Ends ctx fuel name s qname q.element_name_stack
                          (omega (arith, a.shorter, b.shorter)) b.names)))
                  λ _ u c. Encloses-after (depth_left ctx p) ctx a c)

  content-Ends :
      (ctx : Context) (fuel : ℕ) (open_name : Bytes) (p : Parser) (name : QualifiedName)
      (names : List QualifiedName)
      → 2 * length p.chars + 2 ≤ fuel
      → p.element_name_stack ≡ name ∷ names
      → Ends (λ _ q. Closes (depth_left ctx p) ctx name p q) (parse_content ctx fuel open_name p)
  content-Ends ctx zero open_name p name names h e = absurd (omega arith)
  content-Ends ctx (suc fuel) open_name p name names h e =
      Closes-content_round (depth_left ctx p) ctx open_name _ _ p name names e
        (Ends-map (element-Ends ctx fuel p (omega arith)) λ _ _ c. c.progress)
        λ q a.
          subst
            (λ (n : ℕ). Ends (λ _ u. Closes n ctx name q u) (parse_content ctx fuel open_name q))
            (ap (λ (l : List Bytes). ctx.options.max_depth - length l) a.elements)
            (content-Ends ctx fuel open_name q name names (omega (arith, a.shorter)) (a.names ∙ e))

pub Encloses-parse_element :
    (ctx : Context) (fuel : ℕ) (p : Parser)
    → 2 * length p.chars + 1 ≤ fuel
    → Ends (λ _ q. Encloses (depth_left ctx p) ctx 1 p q) (parse_element ctx fuel p)
Encloses-parse_element = element-Ends

-- From every state, with two units of fuel for each character left and one more, parsing an
-- element ends; if it returns, a character at least was read, the stacks are as before, the calls
-- made nest within the depth that was left, and the count of expansions stays within its limit.
pub Advances-parse_element :
    (ctx : Context) (fuel : ℕ) (p : Parser)
    → 2 * length p.chars + 1 ≤ fuel
    → Advances (depth_left ctx p) ctx 1 p (parse_element ctx fuel p)
Advances-parse_element ctx fuel p h = Ends-map (element-Ends ctx fuel p h) λ _ _ c. c.progress
