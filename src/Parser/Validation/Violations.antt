-- ===== src/Parser/Validation/Violations.antt =====
-- Validation of one element against an independent list of what is wrong with it.
use xmlparser.Prelude.{
  Bool, true, false, not, ◌&&◌, ◌||◌, List, [], ◌∷◌, Option, none, some, String, Bytes, ◌=s=◌,
  =s=_iff, is_empty, ◌≡◌, refl, subst, ◌↔◌, arith, if◌then◌else◌,
}
use xmlparser.Errors.{SourceLocation, XmlParseException}
use xmlparser.Options.{is_dtd}
use xmlparser.Parser.State.{
  Context, Parser, ElementModelKind, any, empty, pcdata, children, ElementDeclaration, DtdState,
  ValidationFrame, M, Outcome, done, raises, then_run, find,
}
use xmlparser.Parser.Validation.{
  ◌=names=◌, recoverable_validity_error, report_if, check_content, check_declaration,
  validate_declared, validate_element,
}

-- The content that a model admits: the names of the child elements, and whether there is text
-- (parse_text records it, parse_cdata does not).
abbrev pub Matches : ElementModelKind → List Bytes → List Bytes → Bool → Type 0
Matches any model names text = Unit
Matches empty model names text = (names ≡ []) × (text ≡ false)
Matches pcdata model names text = names ≡ []
Matches children model names text = (names ≡ model) × (text ≡ false)

-- An element is valid in a document with these declarations.
abbrev pub IsValid : DtdState → Bool → ValidationFrame → Type 0
IsValid dtd is_root frame =
    (is_root ≡ true → frame.name ≡ dtd.root_name)
    × ((d : ElementDeclaration) × (find frame.name dtd.elements ≡ some d)
        × Matches d.kind d.children frame.child_elements frame.has_non_whitespace_text)

=names=_iff : (xs ys : List Bytes) → ((xs =names= ys) ≡ true) ↔ (xs ≡ ys)
unfolding ◌=names=◌
=names=_iff [] [] = ground arith
=names=_iff [] (y ∷ ys) = ground arith
=names=_iff (x ∷ xs) [] = ground arith
=names=_iff (x ∷ xs) (y ∷ ys) = ground (arith, =names=_iff xs ys, =s=_iff x y)

is_empty_iff : (names : List Bytes) → (is_empty names ≡ true) ↔ (names ≡ [])
is_empty_iff [] = ground arith
is_empty_iff (x ∷ names) = ground arith

-- What is wrong with the content, and that it decides.
abbrev mismatch : ElementModelKind → List Bytes → List Bytes → Bool → Bool
mismatch any model names text = false
mismatch empty model names text = not (is_empty names) || text
mismatch pcdata model names text = not (is_empty names)
mismatch children model names text = not (names =names= model) || text

mismatch_iff :
    (kind : ElementModelKind) (model names : List Bytes) (text : Bool)
    → (mismatch kind model names text ≡ false) ↔ Matches kind model names text
mismatch_iff any model names text = ground arith
mismatch_iff empty model names text = ground (arith, is_empty_iff names)
mismatch_iff pcdata model names text = ground (arith, is_empty_iff names)
mismatch_iff children model names text = ground (arith, =names=_iff names model)

-- What the methods do without a handler: return in the same state, or throw.
pub data Decides (ok_if : Type 0) (p : Parser) : Outcome (Unit {0}) → Type 0 where
  accepts : ok_if → Decides ok_if p (done tt p)
  refuses : {e : XmlParseException} → (ok_if → ⊥) → Decides ok_if p (raises e p.calls)

Decides-iff :
    {good better : Type 0} {p : Parser} {o : Outcome (Unit {0})}
    → good ↔ better
    → Decides good p o
    → Decides better p o
Decides-iff (to, from) (accepts h) = accepts (to h)
Decides-iff (to, from) (refuses h) = refuses (λ g. h (from g))

module _ (ctx : Context) (start : SourceLocation) (frame : ValidationFrame) where
  Decides-report_if :
      {good : Type 0} (test : Bool) (message : String) (p : Parser)
      → ctx.options.recoverable_error_handler ≡ false
      → (test ≡ true → good → ⊥)
      → (test ≡ false → good)
      → Decides good p (report_if test ctx start message p)
  unfolding recoverable_validity_error
  Decides-report_if true message p off bad fine = rw off (refuses (bad refl))
  Decides-report_if false message p off bad fine = accepts (fine refl)

  Decides-check_content :
      (kind : ElementModelKind) (model : List Bytes) (p : Parser)
      → ctx.options.recoverable_error_handler ≡ false
      → Decides
          (Matches kind model frame.child_elements frame.has_non_whitespace_text)
          p
          (check_content ctx frame start kind model p)
  unfolding check_content
  Decides-check_content any model p off = accepts tt
  Decides-check_content empty model p off =
      let same = mismatch_iff empty model frame.child_elements frame.has_non_whitespace_text in
      Decides-report_if _ _ p off (λ bad good. cc (bad, same.1 good)) same.0
  Decides-check_content pcdata model p off =
      let same = mismatch_iff pcdata model frame.child_elements frame.has_non_whitespace_text in
      Decides-report_if _ _ p off (λ bad good. cc (bad, same.1 good)) same.0
  Decides-check_content children model p off =
      let same = mismatch_iff children model frame.child_elements frame.has_non_whitespace_text in
      Decides-report_if _ _ p off (λ bad good. cc (bad, same.1 good)) same.0

  Decides-declared :
      (dtd : DtdState) (found : Option ElementDeclaration) (p : Parser)
      → ctx.options.recoverable_error_handler ≡ false
      → find frame.name dtd.elements ≡ found
      → Decides
          ((d : ElementDeclaration) × (find frame.name dtd.elements ≡ some d)
            × Matches d.kind d.children frame.child_elements frame.has_non_whitespace_text)
          p
          (check_declaration ctx frame start found p)
  unfolding check_declaration recoverable_validity_error
  Decides-declared dtd none p off e = rw off (refuses λ (d, e₁, _). cc)
  Decides-declared dtd (some d) p off e =
      Decides-iff
        (
          λ m. (d, e, m),
          λ (d₁, e₁, m).
              let same : d₁ ≡ d = ground (arith, e, e₁) in
              subst
                (λ (x : ElementDeclaration).
                  Matches x.kind x.children frame.child_elements frame.has_non_whitespace_text)
                same m,
        )
        (Decides-check_content d.kind d.children p off)

  Decides-both :
      {first second : Type 0} (test : Bool) (message : String) (p : Parser) (next : M (Unit {0}))
      → ctx.options.recoverable_error_handler ≡ false
      → (test ≡ false) ↔ first
      → Decides second p (next p)
      → Decides (first × second) p (then_run (report_if test ctx start message p) (λ _. next))
  unfolding recoverable_validity_error
  Decides-both true message p next off (to, from) h = rw off (refuses λ (a, b). cc (from a))
  Decides-both false message p next off (to, from) h =
      Decides-iff (λ b. (to refl, b), λ (a, b). b) h

  root_test :
      (is_root : Bool) (name root : Bytes)
      → ((is_root && not (name =s= root)) ≡ false) ↔ (is_root ≡ true → name ≡ root)
  root_test true name root = ground (arith, =s=_iff name root)
  root_test false name root = ground arith

  Decides-when :
      {good : Type 0} (test : Bool) (p : Parser) {x : Outcome (Unit {0})} (y : Outcome (Unit {0}))
      → test ≡ true
      → Decides good p x
      → Decides good p (if test then x else y)
  Decides-when true p y e h = h
  Decides-when false p y e h = cc

  -- With validation on, a DOCTYPE, and no handler for recoverable errors, the check of a closed
  -- element returns without any effect if the element is declared, what was recorded of its content
  -- (the names of its child elements, and whether there was text other than white space outside of
  -- CDATA sections) matches its declaration, and, if it is the document element, the DOCTYPE names
  -- it; else it throws.
  pub validate_element-IsValid :
      (p : Parser)
      → ctx.options.recoverable_error_handler ≡ false
      → is_dtd ctx.options.validation ≡ true
      → p.dtd.has_doctype ≡ true
      → Decides
          (IsValid p.dtd (is_empty p.validation_stack) frame)
          p
          (validate_element ctx frame start p)
  unfolding validate_element validate_declared
  validate_element-IsValid p off on doctype =
      Decides-when (is_dtd ctx.options.validation && p.dtd.has_doctype) p _ (ground arith) (
        Decides-both _ _ p _ off
          (root_test (is_empty p.validation_stack) frame.name p.dtd.root_name)
          (Decides-declared p.dtd (find frame.name p.dtd.elements) p off refl))
