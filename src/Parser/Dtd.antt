-- ===== src/Parser/Dtd.antt =====
-- The DOCTYPE declaration: internal subset, element and entity declarations, external subset.
use xmlparser.Prelude.{
  ℕ, zero, suc, ◌+◌, Bool, true, false, not, ◌&&◌, [], ◌∷◌, Option, none, some, String, Bytes,
  codes, ◌=s=◌, ◌==◌, leb, if◌then◌else◌, length, drop, take, is_empty,
}
use xmlparser.Errors.{
  SourceLocation, ErrorKind, well_formedness, validity, resource_limit, Result, ok, throw_parse,
}
use xmlparser.Chars.{is_space, strip_ascii_space, split_names}
use xmlparser.Parser.State.{
  Context, Chars, DtdState, Scan, ElementDeclaration, any, empty, pcdata, children, M, find,
  emplace, pure, get, raise, require, lifted, scan, fueled, done, diverges, ◌>>=◌, ◌>>◌,
}
use xmlparser.Parser.Cursor.{
  eof, peek, location, starts_with, expect, expect_sequence, skip_whitespace,
}
use xmlparser.Parser.Tokens.{parse_name, parse_quoted_literal, model_loop}
use xmlparser.Parser.Markup.{parse_comment}

unfoldable pub update_dtd : (DtdState → DtdState) → M (Unit {0})
update_dtd f p = done tt (record p { dtd = f p.dtd })

-- `fail(kind, message)`, at the place of the cursor.
unfoldable pub require_here : Bool → Context → ErrorKind → String → M (Unit {0})
require_here test ctx kind message p = require test kind (location ctx p.chars) message p

unfoldable pub enforce_dtd_declaration_limit : Context → M (Unit {0})
enforce_dtd_declaration_limit ctx = do
  update_dtd (λ d. record d { declaration_count = d.declaration_count + 1 })
  p ← get
  require_here (leb p.dtd.declaration_count ctx.options.max_dtd_declarations) ctx resource_limit
      "DTD declaration count exceeds max_dtd_declarations"

-- `model.front() == '(' && model.back() == ')'` of a model of two bytes at least, and what stands
-- between them.
unfoldable pub unparenthesize : Bytes → Option Bytes
unparenthesize [] = none
unparenthesize (first ∷ []) = none
unparenthesize (first ∷ second ∷ more) =
    if first == b'(' && (drop (length more) (second ∷ more) =s= codes ")")
    then some (take (length more) (second ∷ more))
    else none

unfoldable pub children_model : SourceLocation → Option Bytes → Result ElementDeclaration
children_model start none = throw_parse validity start "unsupported element declaration model"
children_model start (some body) =
    if is_empty (split_names body)
    then throw_parse validity start "unsupported element declaration model"
    else ok (record { kind = children; children = split_names body })

unfoldable pub stripped_model : SourceLocation → Bytes → Result ElementDeclaration
stripped_model start model =
    if model =s= codes "ANY"
    then ok (record { kind = any; children = [] })
    else if model =s= codes "EMPTY"
    then ok (record { kind = empty; children = [] })
    else if model =s= codes "(#PCDATA)"
    then ok (record { kind = pcdata; children = [] })
    else children_model start (unparenthesize model)

unfoldable pub parse_element_model : Bytes → SourceLocation → Result ElementDeclaration
parse_element_model model start = stripped_model start (strip_ascii_space model)

abbrev pub is_some {ℓ} : {A : Type ℓ} → Option A → Bool
is_some none = false
is_some (some a) = true

-- `if (elements.find(name) != end) validity_error(...); elements.emplace(name, model);`
unfoldable pub declare_element : SourceLocation → Bytes → Bytes → M (Unit {0})
declare_element start name model = do
  p ← get
  require (not (is_some (find name p.dtd.elements))) validity start "duplicate element declaration"
  declaration ← lifted (parse_element_model model start)
  update_dtd (λ d. record d { elements = emplace name declaration d.elements })

unfoldable pub read_model : Scan Bytes
read_model chars = ok (model_loop [] chars)

unfoldable pub parse_element_declaration : Context → M (Unit {0})
parse_element_declaration ctx = do
  p ← get
  let start = location ctx p.chars
  enforce_dtd_declaration_limit ctx
  scan (expect_sequence ctx (codes "<!ELEMENT") "expected ELEMENT declaration")
  q ← get
  require_here (is_space (peek q.chars)) ctx well_formedness
      "ELEMENT declaration requires whitespace"
  scan skip_whitespace
  name ← scan (parse_name ctx)
  scan skip_whitespace
  model ← scan read_model
  scan (expect ctx b'>' "expected ELEMENT declaration close")
  declare_element start name model

unfoldable pub declare_entity : SourceLocation → Bytes → Bytes → M (Unit {0})
declare_entity start name replacement = do
  p ← get
  require (not (is_some (find name p.dtd.entities))) validity start "duplicate entity declaration"
  update_dtd (λ d. record d { entities = emplace name replacement d.entities })

unfoldable pub parse_entity_declaration : Context → M (Unit {0})
parse_entity_declaration ctx = do
  p ← get
  let start = location ctx p.chars
  enforce_dtd_declaration_limit ctx
  scan (expect_sequence ctx (codes "<!ENTITY") "expected ENTITY declaration")
  q ← get
  require_here (is_space (peek q.chars)) ctx well_formedness
      "ENTITY declaration requires whitespace"
  scan skip_whitespace
  r ← get
  require_here (not (peek r.chars == b'%')) ctx well_formedness
      "parameter entities are not supported"
  name ← scan (parse_name ctx)
  scan skip_whitespace
  replacement ← scan (parse_quoted_literal ctx)
  require (leb (length replacement) ctx.options.max_entity_replacement_bytes) resource_limit start
      "entity replacement exceeds max_entity_replacement_bytes"
  scan skip_whitespace
  scan (expect ctx b'>' "expected ENTITY declaration close")
  declare_entity start name replacement

-- A declaration of the internal subset; `again` is the loop on what follows.
unfoldable pub subset_declaration : Context → M (Unit {0}) → Chars → M (Unit {0})
subset_declaration ctx again chars =
    if peek chars == b']'
    then pure tt
    else if starts_with (codes "<!--") chars
    then parse_comment ctx false >> again
    else if starts_with (codes "<!ELEMENT") chars
    then parse_element_declaration ctx >> again
    else if starts_with (codes "<!ENTITY") chars
    then parse_entity_declaration ctx >> again
    else raise well_formedness (location ctx chars) "unsupported DTD declaration"

unfoldable pub internal_subset_loop : Context → ℕ → M (Unit {0})
internal_subset_loop ctx zero = λ _. diverges
internal_subset_loop ctx (suc fuel) = do
  p ← get
  require_here (not (eof p.chars)) ctx well_formedness "truncated DOCTYPE internal subset"
  scan skip_whitespace
  q ← get
  subset_declaration ctx (internal_subset_loop ctx fuel) q.chars

unfoldable pub parse_internal_subset : Context → M (Unit {0})
parse_internal_subset ctx = fueled (internal_subset_loop ctx)
