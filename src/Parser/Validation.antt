-- ===== src/Parser/Validation.antt =====
-- Validation against the DTD: `finish_validation_frame` and `validate_element`, and the two ways of
-- reporting a validity error.
pub mod Violations
use xmlparser.Prelude.{
  Bool, true, false, ◌&&◌, ◌||◌, not, List, [], ◌∷◌, ◌++◌, Option, none, some, String, Bytes, ◌=s=◌,
  if◌then◌else◌, is_empty,
}
use xmlparser.Errors.{SourceLocation, validity, exception}
use xmlparser.Options.{is_dtd}
use xmlparser.Sax.{recoverable_error}
use xmlparser.Parser.State.{
  Context, Parser, ElementModelKind, any, empty, pcdata, children, ElementDeclaration,
  ValidationFrame, M, find, pure, get, put, raise, call, done, diverges, ◌>>=◌, ◌>>◌,
}

infix 50 ◌=names=◌
unfoldable pub ◌=names=◌ : List Bytes → List Bytes → Bool
[] =names= [] = true
(a ∷ as') =names= (b ∷ bs) = (a =s= b) && (as' =names= bs)
_ =names= _ = false

unfoldable pub recoverable_validity_error : Context → SourceLocation → String → M (Unit {0})
recoverable_validity_error ctx start message =
    if ctx.options.recoverable_error_handler
    then call (recoverable_error (exception validity start message))
    else raise validity start message

-- `if (test) recoverable_validity_error(...);`
abbrev pub report_if : Bool → Context → SourceLocation → String → M (Unit {0})
report_if test ctx start message =
    if test then recoverable_validity_error ctx start message else pure tt

-- The `switch` on the kind of the declaration.
unfoldable pub check_content :
    Context → ValidationFrame → SourceLocation → ElementModelKind → List Bytes → M (Unit {0})
check_content ctx frame start any model = pure tt
check_content ctx frame start empty model =
    report_if (not (is_empty frame.child_elements) || frame.has_non_whitespace_text) ctx start
      "EMPTY element has content"
check_content ctx frame start pcdata model =
    report_if (not (is_empty frame.child_elements)) ctx start "PCDATA element has child elements"
check_content ctx frame start children model =
    report_if (not (frame.child_elements =names= model) || frame.has_non_whitespace_text) ctx start
      "element children do not match DTD model"

unfoldable pub check_declaration :
    Context → ValidationFrame → SourceLocation → Option ElementDeclaration → M (Unit {0})
check_declaration ctx frame start none =
    recoverable_validity_error ctx start "element has no DTD declaration"
check_declaration ctx frame start (some declaration) =
    check_content ctx frame start declaration.kind declaration.children

-- `validate_element` behind its first guard.
unfoldable pub validate_declared :
    Context → ValidationFrame → SourceLocation → Parser → M (Unit {0})
validate_declared ctx frame start p = do
  report_if (is_empty p.validation_stack && not (frame.name =s= p.dtd.root_name)) ctx start
      "document element does not match DOCTYPE"
  check_declaration ctx frame start (find frame.name p.dtd.elements)

unfoldable pub validate_element : Context → ValidationFrame → SourceLocation → M (Unit {0})
validate_element ctx frame start p =
    if is_dtd ctx.options.validation && p.dtd.has_doctype
    then validate_declared ctx frame start p p
    else done tt p

-- `if (!validation_stack_.empty()) validation_stack_.back().child_elements.push_back(name);`
unfoldable pub add_child : Bytes → List ValidationFrame → List ValidationFrame
add_child name [] = []
add_child name (frame ∷ frames) =
    record frame { child_elements = frame.child_elements ++ name ∷ [] } ∷ frames

-- `validation_stack_.back()` on an empty stack is undefined.
unfoldable pub finish_frame :
    Context → SourceLocation → List ValidationFrame → Parser → M (Unit {0})
finish_frame ctx start [] p = λ _. diverges
finish_frame ctx start (frame ∷ frames) p = do
  put (record p { validation_stack = frames })
  validate_element ctx frame start
  q ← get
  put (record q { validation_stack = add_child frame.name q.validation_stack })

unfoldable pub finish_validation_frame : Context → SourceLocation → M (Unit {0})
finish_validation_frame ctx start = do p ← get; finish_frame ctx start p.validation_stack p
