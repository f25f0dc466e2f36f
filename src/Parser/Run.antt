-- ===== src/Parser/Run.antt =====
-- `Parser::parse` and `parse_xml_document`.
use xmlparser.Prelude.{Bytes, []}
use xmlparser.Errors.{well_formedness, Result, ok, throws, stuck}
use xmlparser.Options.{ParserOptions}
use xmlparser.Decode.{DecodedDocument, decode_document}
use xmlparser.Sax.{start_document, end_document}
use xmlparser.Parser.State.{
  Context, M, Outcome, get, call, fueled, new_parser, raises, diverges, ◌>>=◌, ◌>>◌,
}
use xmlparser.Parser.Cursor.{eof}
use xmlparser.Parser.Markup.{parse_xml_declaration_if_present, skip_misc}
use xmlparser.Parser.Dtd.{require_here}
use xmlparser.Parser.Doctype.{parse_doctype_if_present}
use xmlparser.Parser.Content.{parse_element}

unfoldable pub parse : Context → M (Unit {0})
parse ctx = do
  call start_document
  parse_xml_declaration_if_present ctx
  skip_misc ctx
  parse_doctype_if_present ctx
  skip_misc ctx
  fueled (parse_element ctx)
  skip_misc ctx
  p ← get
  require_here (eof p.chars) ctx well_formedness "extra content after document element"
  call end_document

abbrev pub context_of : ParserOptions → DecodedDocument → Context
context_of options document = record { options = options; end_location = document.end_location }

-- The constructor decodes the input, before any call of the client.
unfoldable pub parse_decoded : ParserOptions → Result DecodedDocument → Outcome (Unit {0})
parse_decoded options (ok document) =
    parse (context_of options document) (new_parser document.chars)
parse_decoded options (throws e) = raises e []
parse_decoded options stuck = diverges

unfoldable pub parse_xml_document : Bytes → ParserOptions → Outcome (Unit {0})
parse_xml_document xml options = parse_decoded options (decode_document xml options)
