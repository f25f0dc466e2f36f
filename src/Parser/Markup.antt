-- ===== src/Parser/Markup.antt =====
-- Comments, CDATA sections, processing instructions, the XML declaration, and what may stand
-- between the parts of the prolog.
use xmlparser.Prelude.{
  ℕ, zero, suc, Bool, true, not, ◌&&◌, ◌||◌, [], Bytes, codes, ◌=s=◌, contains, if◌then◌else◌,
}
use xmlparser.Errors.{SourceLocation, well_formedness}
use xmlparser.Options.{is_xml10}
use xmlparser.Chars.{is_space, lowercase_ascii}
use xmlparser.Sax.{Call, comment, cdata, processing_instruction}
use xmlparser.Parser.State.{
  Context, M, pure, get, require, call, scan, fueled, done, diverges, ◌>>=◌, ◌>>◌,
}
use xmlparser.Parser.Cursor.{
  eof, peek, peek_at, location, starts_with, expect_sequence, skip_spaces, skip_whitespace,
}
use xmlparser.Parser.Tokens.{parse_name, text_until, comment_text, cdata_text}

-- `if (callback_handler != nullptr) callback_handler->...`
abbrev pub call_if : Bool → Call → M (Unit {0})
call_if has_handler c = if has_handler then call c else pure tt

unfoldable pub parse_comment : Context → Bool → M (Unit {0})
parse_comment ctx has_handler = do
  text ← scan (comment_text ctx)
  call_if has_handler (comment text)

unfoldable pub parse_cdata : Context → M (Unit {0})
parse_cdata ctx = do text ← scan (cdata_text ctx); call (cdata text)

-- `if (!eof() && is_space(peek())) skip_whitespace();` does what `skip_whitespace()` does.
unfoldable pub parse_processing_instruction : Context → Bool → M (Unit {0})
parse_processing_instruction ctx has_handler = do
  p ← get
  let start = location ctx p.chars
  scan (expect_sequence ctx (codes "<?") "expected processing instruction start")
  target ← scan (parse_name ctx)
  require (not (lowercase_ascii target =s= codes "xml")) well_formedness start
      "XML declaration is only allowed at document start"
  scan skip_whitespace
  text ← scan (text_until ctx start (codes "?>") [])
  scan (expect_sequence ctx (codes "?>") "expected processing instruction close")
  call_if has_handler (processing_instruction target text)

abbrev pub moved : M (Unit {0}) → M Bool
moved m = m >> pure true

-- A round of the loop of `skip_misc`: its result is `consumed`.
unfoldable pub misc_round : Context → M Bool
misc_round ctx p =
    let spaces = not (eof p.chars) && is_space (peek p.chars) in
    let q = record p { chars = skip_spaces p.chars } in
    if starts_with (codes "<!--") q.chars
    then moved (parse_comment ctx true) q
    else if starts_with (codes "<?") q.chars
    then moved (parse_processing_instruction ctx true) q
    else done spaces q

unfoldable pub skip_misc_loop : Context → ℕ → M (Unit {0})
skip_misc_loop ctx zero = λ _. diverges
skip_misc_loop ctx (suc fuel) = do
  consumed ← misc_round ctx
  if consumed then skip_misc_loop ctx fuel else pure tt

unfoldable pub skip_misc : Context → M (Unit {0})
skip_misc ctx = fueled (skip_misc_loop ctx)

-- The checks on the text of the XML declaration.
unfoldable pub check_declared_version : Context → SourceLocation → Bytes → M (Unit {0})
check_declared_version ctx start declaration = do
  let xml10 = contains (codes "1.0") declaration
  let xml11 = contains (codes "1.1") declaration
  require (contains (codes "version") declaration && (xml10 || xml11)) well_formedness start
      "XML declaration must declare version 1.0 or 1.1"
  require
      (not (xml10 && not (is_xml10 ctx.options.version))
        && not (xml11 && is_xml10 ctx.options.version))
      well_formedness start "XML declaration version does not match ParserOptions"

unfoldable pub parse_xml_declaration : Context → M (Unit {0})
parse_xml_declaration ctx = do
  p ← get
  let start = location ctx p.chars
  scan (expect_sequence ctx (codes "<?xml") "expected XML declaration")
  q ← get
  require (is_space (peek q.chars)) well_formedness (location ctx q.chars) "invalid XML declaration"
  declaration ← scan (text_until ctx start (codes "?>") [])
  scan (expect_sequence ctx (codes "?>") "expected XML declaration close")
  check_declared_version ctx start declaration

unfoldable pub parse_xml_declaration_if_present : Context → M (Unit {0})
parse_xml_declaration_if_present ctx p =
    if starts_with (codes "<?xml") p.chars && is_space (peek_at 5 p.chars)
    then parse_xml_declaration ctx p
    else done tt p
