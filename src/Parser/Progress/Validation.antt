-- ===== src/Parser/Progress/Validation.antt =====
-- Validation of a closed element, and the stacks that are popped behind it.
use xmlparser.Prelude.{
  All, ℕ, ◌≤◌, Bool, true, false, not, ◌&&◌, List, [], ◌∷◌, Option, none, some, ◌=s=◌, length,
  is_empty, Bytes, String, ◌≡◌, refl, ◌∙◌, arith, if◌then◌else◌,
}
use xmlparser.Errors.{SourceLocation, exception, validity}
use xmlparser.Options.{is_dtd}
use xmlparser.Sax.{QualifiedName, recoverable_error}
use xmlparser.Parser.State.{
  Context, Parser, Map, ElementModelKind, any, empty, pcdata, children, ElementDeclaration,
  ValidationFrame, raises, call,
}
use xmlparser.Parser.Validation.{
  recoverable_validity_error, report_if, check_content, check_declaration, validate_declared,
  validate_element, add_child, finish_frame, finish_validation_frame,
}
use xmlparser.Parser.Content.{pop_stacks, close_element}
use xmlparser.Parser.Events.{Emits, Fits}
use xmlparser.Parser.Progress.{
  frame_names, Advances, Ends, returns, threw, Progress-refl, Advances-call, Advances-then,
  Ends-bind, Ends-if,
}

module _ (d : ℕ) (ctx : Context) where
  Advances-recoverable :
      (start : SourceLocation) (message : String) (p : Parser)
      → Advances d ctx 0 p (recoverable_validity_error ctx start message p)
  unfolding recoverable_validity_error
  Advances-recoverable start message p = by_handler ctx.options.recoverable_error_handler
    where
      by_handler :
          (b : Bool)
          → Advances {A = Unit {0}} d ctx 0 p (
              (if b
                  then call (recoverable_error (exception validity start message))
                  else (λ q. raises (exception validity start message) q.calls))
                p)
      by_handler true = Advances-call d ctx p _ refl tt
      by_handler false = threw

  Advances-report_if :
      (test : Bool) (start : SourceLocation) (message : String) (p : Parser)
      → Advances d ctx 0 p (report_if test ctx start message p)
  Advances-report_if true start message p = Advances-recoverable start message p
  Advances-report_if false start message p = returns (Progress-refl d ctx p)

  Advances-check_content :
      (frame : ValidationFrame) (start : SourceLocation) (kind : ElementModelKind)
      (model : List Bytes) (p : Parser)
      → Advances d ctx 0 p (check_content ctx frame start kind model p)
  unfolding check_content
  Advances-check_content frame start any model p = returns (Progress-refl d ctx p)
  Advances-check_content frame start empty model p = Advances-report_if _ start _ p
  Advances-check_content frame start pcdata model p = Advances-report_if _ start _ p
  Advances-check_content frame start children model p = Advances-report_if _ start _ p

  Advances-check_declaration :
      (frame : ValidationFrame) (start : SourceLocation) (found : Option ElementDeclaration)
      (p : Parser)
      → Advances d ctx 0 p (check_declaration ctx frame start found p)
  unfolding check_declaration
  Advances-check_declaration frame start none p = Advances-recoverable start _ p
  Advances-check_declaration frame start (some d) p =
      Advances-check_content frame start d.kind d.children p

  Advances-validate_element :
      (frame : ValidationFrame) (start : SourceLocation) (p : Parser)
      → Advances d ctx 0 p (validate_element ctx frame start p)
  unfolding validate_element validate_declared
  Advances-validate_element frame start p =
      Ends-if (is_dtd ctx.options.validation && p.dtd.has_doctype)
        (λ _.
          Advances-then d ctx _
            (Advances-report_if
              (is_empty p.validation_stack && not (frame.name =s= p.dtd.root_name)) start _ p)
            λ _ q _. Advances-check_declaration frame start _ q)
        (λ _. returns (Progress-refl d ctx p))

  frame_names-add_child :
      (name : Bytes) (frames : List ValidationFrame)
      → frame_names (add_child name frames) ≡ frame_names frames
  unfolding add_child
  frame_names-add_child name [] = refl
  frame_names-add_child name (frame ∷ frames) = refl

  -- What closing an element does to the state `p`, when the stacks are to be those given.
  pub record Closed (p : Parser) (elements : List Bytes) (names : List QualifiedName)
      (scopes : List (Map Bytes)) (frames : List Bytes) (q : Parser) : Type 0 where
    pub shorter : length q.chars ≤ length p.chars
    pub elements_left : q.element_stack ≡ elements
    pub names_left : q.element_name_stack ≡ names
    pub scopes_left : q.namespace_scopes ≡ scopes
    pub frames_left : frame_names q.validation_stack ≡ frames
    pub emitted : Emits d p.calls q.calls
    pub fits : All (Fits ctx.options) p.calls → All (Fits ctx.options) q.calls
    pub expansions :
        p.entity_expansions ≤ ctx.options.max_entity_expansions
        → q.entity_expansions ≤ ctx.options.max_entity_expansions

  Closed-finish_frame :
      (start : SourceLocation) (stack : List ValidationFrame) (p : Parser) (name : Bytes)
      (names : List Bytes)
      → frame_names stack ≡ name ∷ names
      → Ends
          (λ _ q. Closed p p.element_stack p.element_name_stack p.namespace_scopes names q)
          (finish_frame ctx start stack p p)
  unfolding finish_frame
  Closed-finish_frame start [] p name names e = cc
  Closed-finish_frame start (frame ∷ frames) p name names e =
      Ends-bind _ (Advances-validate_element frame start (record p { validation_stack = frames }))
        λ _ q x. returns (record {
          shorter = omega (arith, x.shorter);
          elements_left = x.elements;
          names_left = x.names;
          scopes_left = x.scopes;
          frames_left = frame_names-add_child frame.name q.validation_stack ∙ x.frames ∙ cc;
          emitted = x.emitted;
          fits = x.fits;
          expansions = x.expansions;
        })

  -- With an element on each stack, closing it pops each stack once.
  pub Closed-close_element :
      (start : SourceLocation) (p : Parser) (element : Bytes) (elements : List Bytes)
      (qname : QualifiedName) (names : List QualifiedName) (scope : Map Bytes)
      (scopes : List (Map Bytes)) (frame : Bytes) (frames : List Bytes)
      → p.element_stack ≡ element ∷ elements
      → p.element_name_stack ≡ qname ∷ names
      → p.namespace_scopes ≡ scope ∷ scopes
      → frame_names p.validation_stack ≡ frame ∷ frames
      → Ends (λ _ q. Closed p elements names scopes frames q) (close_element ctx start p)
  unfolding close_element finish_validation_frame pop_stacks
  Closed-close_element start p element elements qname names scope scopes frame frames a b c e =
      Ends-bind _ (Closed-finish_frame start p.validation_stack p frame frames e) λ _ q x.
        rw (x.scopes_left ∙ c, x.names_left ∙ b, x.elements_left ∙ a)
          (returns (record {
            shorter = x.shorter;
            elements_left = refl;
            names_left = refl;
            scopes_left = refl;
            frames_left = x.frames_left;
            emitted = x.emitted;
            fits = x.fits;
            expansions = x.expansions;
          }))
