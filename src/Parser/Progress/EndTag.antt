-- ===== src/Parser/Progress/EndTag.antt =====
-- The end of an element's content: what was read, and the call for the end tag.
use xmlparser.Prelude.{
  All, All-append, ℕ, ◌≤◌, true, false, List, [], ◌∷◌, ◌++◌, ◌=s=◌, ◌==◌, length, Bytes, codes, ◌≡◌,
  refl, ◌∙◌, subst, arith,
}
use xmlparser.Sax.{Call, QualifiedName, end_element}
use xmlparser.Parser.State.{Context, Parser, M, call}
use xmlparser.Parser.Cursor.{eof, peek, starts_with}
use xmlparser.Parser.Content.{end_top, parse_end_tag, parse_item}
use xmlparser.Parser.Events.{Fits, Balanced, nil, append-after, Balanced-append}
use xmlparser.Parser.Progress.{
  frame_names, Advances, Ends, returns, Progress, Progress-trans, Advances-require, Advances-weaken,
  Ends-map, Ends-bind, Ends-if,
}
use xmlparser.Parser.Progress.Scans.{
  Advances-expect_sequence, Advances-expect, Advances-skip_whitespace, Advances-parse_name,
}
use xmlparser.Parser.Progress.Markup.{
  Advances-parse_comment, Advances-parse_cdata, Advances-parse_processing_instruction,
}
use xmlparser.Parser.Progress.Values.{Advances-parse_text}

-- From `p` to `q` the content of the open element `name` was read, and its end reported.
pub record Closes (d : ℕ) (ctx : Context) (name : QualifiedName) (p q : Parser) : Type 0 where
  pub shorter : length q.chars ≤ length p.chars
  pub elements : q.element_stack ≡ p.element_stack
  pub names : q.element_name_stack ≡ p.element_name_stack
  pub scopes : q.namespace_scopes ≡ p.namespace_scopes
  pub frames : frame_names q.validation_stack ≡ frame_names p.validation_stack
  pub inner : List Call
  pub emitted : q.calls ≡ p.calls ++ (inner ++ end_element name ∷ [])
  pub balanced : Balanced d inner
  pub fits : All (Fits ctx.options) p.calls → All (Fits ctx.options) q.calls
  pub expansions :
      p.entity_expansions ≤ ctx.options.max_entity_expansions
      → q.entity_expansions ≤ ctx.options.max_entity_expansions

module _ (d : ℕ) (ctx : Context) where
  -- Progress, and then the end.
  pub Closes-after :
      {k : ℕ} {name : QualifiedName} {p q r : Parser}
      → Progress d ctx k p q
      → Closes d ctx name q r
      → Closes d ctx name p r
  Closes-after {p = p} {q = q} {r = r} a c = record {
    shorter = omega (arith, a.shorter, c.shorter);
    elements = c.elements ∙ a.elements;
    names = c.names ∙ a.names;
    scopes = c.scopes ∙ a.scopes;
    frames = c.frames ∙ a.frames;
    inner = a.emitted.0 ++ c.inner;
    emitted = append-after p.calls q.calls r.calls a.emitted.0 c.inner _ a.emitted.1 c.emitted;
    balanced = Balanced-append a.emitted.2 c.balanced;
    fits = λ h. c.fits (a.fits h);
    expansions = λ h. c.expansions (a.expansions h);
  }

  pub Closes-call_end :
      (p : Parser) (name : QualifiedName)
      → Ends (λ _ q. Closes d ctx name p q) (call (end_element name) p)
  unfolding call
  Closes-call_end p name = returns (record {
    shorter = omega arith;
    elements = refl;
    names = refl;
    scopes = refl;
    frames = refl;
    inner = [];
    emitted = refl;
    balanced = nil;
    fits = λ h. All-append (Fits ctx.options) p.calls (end_element name ∷ []) h (tt, tt);
    expansions = λ h. h;
  })

  Closes-end_top :
      (p : Parser) (stack : List QualifiedName) (name : QualifiedName) (names : List QualifiedName)
      → stack ≡ name ∷ names
      → Ends (λ _ q. Closes d ctx name p q) (end_top stack p)
  unfolding end_top
  Closes-end_top p [] name names e = cc
  Closes-end_top p (top ∷ stack) name names e =
      let same : top ≡ name = cc in
      subst (λ (n : QualifiedName). Ends (λ _ q. Closes d ctx n p q) (call (end_element top) p))
        same (Closes-call_end p top)

  pub Closes-parse_end_tag :
      (open_name : Bytes) (p : Parser) (name : QualifiedName) (names : List QualifiedName)
      → p.element_name_stack ≡ name ∷ names
      → Ends (λ _ q. Closes d ctx name p q) (parse_end_tag ctx open_name p)
  unfolding parse_end_tag
  Closes-parse_end_tag open_name p name names e =
      Ends-bind _ (Advances-expect_sequence d ctx (codes "</") _ p) λ _ q a.
        Ends-bind _ (Advances-parse_name d ctx q) λ end_name r b.
          Ends-bind _ (Advances-skip_whitespace d ctx r) λ _ s c.
            Ends-bind _ (Advances-expect d ctx b'>' _ s) λ _ t g.
              Ends-bind _ (Advances-require d ctx t (end_name =s= open_name) _ _ _) λ _ u f.
                let all =
                  Progress-trans d ctx a
                    (Progress-trans d ctx b (Progress-trans d ctx c (Progress-trans d ctx g f))) in
                Ends-map (Closes-end_top u u.element_name_stack name names (all.names ∙ e))
                  λ _ v end. Closes-after all end

  pub Advances-parse_item :
      (child : M (Unit {0})) (p : Parser)
      → eof p.chars ≡ false
      → Advances d ctx 1 p (child p)
      → Advances d ctx 1 p (parse_item ctx child p)
  unfolding parse_item
  Advances-parse_item child p more h =
      Ends-if (starts_with (codes "<!--") p.chars)
        (λ _. Advances-weaken d ctx {j = 4} (omega arith) (Advances-parse_comment d ctx true p))
        λ _.
          Ends-if (starts_with (codes "<![CDATA[") p.chars)
            (λ _. Advances-weaken d ctx {j = 9} (omega arith) (Advances-parse_cdata d ctx p))
            λ _.
              Ends-if (starts_with (codes "<?") p.chars)
                (λ _.
                  Advances-weaken d ctx {j = 2} (omega arith)
                    (Advances-parse_processing_instruction d ctx true p))
                λ _.
                  Ends-if (peek p.chars == b'<') (λ _. h)
                    (λ text. Advances-parse_text d ctx p more text)
