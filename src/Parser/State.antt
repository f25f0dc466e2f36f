-- ===== src/Parser/State.antt =====
-- The members of `Parser`, the types that they hold, and the monad of its methods. `document_` with
-- `index_` is the list of the characters from `index_` on. A `std::vector` that is used as a stack
-- is a list with the top in front; a `std::map` is an association list.
pub mod Maps
use xmlparser.Prelude.{
  ℕ, zero, suc, ◌+◌, ◌*◌, Bool, true, false, List, [], ◌∷◌, ◌++◌, Option, none, some, String, Bytes,
  ◌=s=◌, if◌then◌else◌, length,
}
use xmlparser.Errors.{
  SourceLocation, start_location, ErrorKind, XmlParseException, exception, Result, ok, throws,
  stuck,
}
use xmlparser.Options.{ParserOptions}
use xmlparser.Decode.{DecodedChar}
use xmlparser.Sax.{QualifiedName, Call}

abbrev pub Chars : Type 0
Chars = List DecodedChar

pub record RawAttribute : Type 0 where
  pub name : Bytes
  pub value : Bytes
  pub location : SourceLocation

pub data ElementModelKind : Type 0 where
  any empty pcdata children : ElementModelKind

pub record ElementDeclaration : Type 0 where
  pub kind : ElementModelKind
  pub children : List Bytes

abbrev pub Map : Type 0 → Type 0
Map V = List (Bytes × V)

module _ {V : Type 0} where
  unfoldable pub find : Bytes → Map V → Option V
  find key [] = none
  find key ((k, v) ∷ m) = if k =s= key then some v else find key m

  -- `m[key] = value;`
  unfoldable pub assign : Bytes → V → Map V → Map V
  assign key value [] = (key, value) ∷ []
  assign key value ((k, v) ∷ m) =
      if k =s= key then (key, value) ∷ m else (k, v) ∷ assign key value m

  -- `m.emplace(key, value);`, which keeps a value that is there.
  unfoldable pub emplace : Bytes → V → Map V → Map V
  emplace key value [] = (key, value) ∷ []
  emplace key value ((k, v) ∷ m) = if k =s= key then (k, v) ∷ m else (k, v) ∷ emplace key value m

pub record DtdState : Type 0 where
  pub has_doctype : Bool
  pub has_external_subset : Bool
  pub root_name : Bytes
  pub external_system_id : Bytes
  pub elements : Map ElementDeclaration
  pub entities : Map Bytes
  pub declaration_count : ℕ

pub record ValidationFrame : Type 0 where
  pub name : Bytes
  pub child_elements : List Bytes
  pub has_non_whitespace_text : Bool

-- The members that no method changes: `options_` and `document_.end_location`.
pub record Context : Type 0 where
  pub options : ParserOptions
  pub end_location : SourceLocation

-- The other members; `calls` lists the calls of the client's code, in order.
pub record Parser : Type 0 where
  pub chars : Chars
  pub entity_expansions : ℕ
  pub element_stack : List Bytes
  pub element_name_stack : List QualifiedName
  pub namespace_scopes : List (Map Bytes)
  pub dtd : DtdState
  pub validation_stack : List ValidationFrame
  pub calls : List Call

abbrev pub empty_dtd : DtdState
empty_dtd = record {
  has_doctype = false;
  has_external_subset = false;
  root_name = [];
  external_system_id = [];
  elements = [];
  entities = [];
  declaration_count = 0;
}

abbrev pub new_parser : Chars → Parser
new_parser chars = record {
  chars = chars;
  entity_expansions = 0;
  element_stack = [];
  element_name_stack = [];
  namespace_scopes = [];
  dtd = empty_dtd;
  validation_stack = [];
  calls = [];
}

-- A method returns, or throws, when all that is left of the parser are the calls that it has made.
-- `diverges` has no counterpart in the program: the fuel of a loop ran out.
pub data Outcome {ℓ} (A : Type ℓ) : Type ℓ where
  done : A → Parser → Outcome A
  raises : XmlParseException → List Call → Outcome A
  diverges : Outcome A

abbrev pub M {ℓ} : Type ℓ → Type ℓ
M A = Parser → Outcome A

abbrev pub then_run {ℓ κ} : {A : Type ℓ} {B : Type κ} → Outcome A → (A → M B) → Outcome B
then_run (done a p) k = k a p
then_run (raises e calls) k = raises e calls
then_run diverges k = diverges

infixl 5 ◌>>=◌ ◌>>◌
abbrev pub ◌>>=◌ {ℓ κ} : {A : Type ℓ} {B : Type κ} → M A → (A → M B) → M B
◌>>=◌ m k p = then_run (m p) k

abbrev pub ◌>>◌ {κ} : {B : Type κ} → M (Unit {0}) → M B → M B
◌>>◌ m k p = then_run (m p) (λ _. k)

abbrev pub pure {ℓ} : {A : Type ℓ} → A → M A
pure a p = done a p

abbrev pub get : M Parser
get p = done p p

abbrev pub put : Parser → M (Unit {0})
put p _ = done tt p

abbrev pub raise {ℓ} : {A : Type ℓ} → ErrorKind → SourceLocation → String → M A
raise k l m p = raises (exception k l m) p.calls

unfoldable pub require : Bool → ErrorKind → SourceLocation → String → M (Unit {0})
require test k l m p = if test then done tt p else raise k l m p

-- `handler_.method(...)`
unfoldable pub call : Call → M (Unit {0})
call c p = done tt (record p { calls = p.calls ++ c ∷ [] })

-- A method that changes nothing.
abbrev pub lifted {ℓ} : {A : Type ℓ} → Result A → M A
lifted (ok a) p = done a p
lifted (throws e) p = raises e p.calls
lifted stuck p = diverges

-- A method that only moves the cursor.
abbrev pub Scan : Type 0 → Type 0
Scan A = Chars → Result (A × Chars)

abbrev pub scanned : {A : Type 0} → Result (A × Chars) → M A
scanned (ok (a, chars)) p = done a (record p { chars = chars })
scanned (throws e) p = raises e p.calls
scanned stuck p = diverges

abbrev pub scan : {A : Type 0} → Scan A → M A
scan s p = scanned (s p.chars) p

-- Each round of a loop takes a character at least, and starting an element costs one round more.
abbrev pub fueled {ℓ} : {A : Type ℓ} → (ℕ → M A) → M A
fueled body p = body (2 * length p.chars + 2) p
