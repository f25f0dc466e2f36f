-- ===== src/Front.antt =====
-- src/xmlparser.cpp: the streaming parser, and the handler that forwards to optional callbacks.
pub mod Streaming
use xmlparser.Prelude.{
  ℕ, ◌+◌, Bool, true, false, not, List, [], ◌∷◌, ◌++◌, leb, if◌then◌else◌, length, Bytes,
}
use xmlparser.Errors.{start_location, unsupported, resource_limit, Result, ok, require, ◌>>=◌, ◌>>◌}
use xmlparser.Options.{ParserOptions}
use xmlparser.Sax.{
  Call, start_document, end_document, start_element, end_element, characters,
  processing_instruction, comment, cdata, recoverable_error,
}
use xmlparser.Parser.State.{Outcome, done, raises, diverges}
use xmlparser.Parser.Run.{parse_xml_document}

-- `SaxParser`, without its handler: the calls of the handler are part of the outcome.
pub record SaxParser : Type 0 where
  pub options : ParserOptions
  pub buffer : Bytes
  pub finished : Bool

abbrev pub new_sax_parser : ParserOptions → SaxParser
new_sax_parser options = record { options = options; buffer = []; finished = false }

unfoldable pub feed : Bytes → SaxParser → Result SaxParser
feed chunk s = do
  require (not s.finished) unsupported start_location "SaxParser cannot be reused after finish"
  require (leb (length s.buffer + length chunk) s.options.max_document_bytes) resource_limit
      start_location "XML input exceeds max_document_bytes"
  ok (record s { buffer = s.buffer ++ chunk })

-- `buffer_.clear();`, which an exception skips.
unfoldable pub clear_if_done : Outcome (Unit {0}) → Bytes → Bytes
clear_if_done (done _ _) buffer = []
clear_if_done (raises _ _) buffer = buffer
clear_if_done diverges buffer = buffer

-- The state behind the call, and what the parse did.
unfoldable pub finish : SaxParser → SaxParser × Outcome (Unit {0})
finish s =
    let outcome = parse_xml_document s.buffer s.options in
    (record s { finished = true; buffer = clear_if_done outcome s.buffer }, outcome)

-- Which members of `SaxCallbacks` are set.
pub record SaxCallbacks : Type 0 where
  pub on_start_document : Bool
  pub on_end_document : Bool
  pub on_start_element : Bool
  pub on_end_element : Bool
  pub on_characters : Bool
  pub on_processing_instruction : Bool
  pub on_comment : Bool
  pub on_cdata : Bool

-- Is there a callback for the call? The handler of recoverable errors is not one of them: the
-- parser calls it directly.
unfoldable pub has_callback : SaxCallbacks → Call → Bool
has_callback callbacks start_document = callbacks.on_start_document
has_callback callbacks end_document = callbacks.on_end_document
has_callback callbacks (start_element name attributes) = callbacks.on_start_element
has_callback callbacks (end_element name) = callbacks.on_end_element
has_callback callbacks (characters text) = callbacks.on_characters
has_callback callbacks (processing_instruction target data_text) =
    callbacks.on_processing_instruction
has_callback callbacks (comment text) = callbacks.on_comment
has_callback callbacks (cdata text) = callbacks.on_cdata
has_callback callbacks (recoverable_error e) = true

-- What `CallbackHandler` passes on of the calls that it gets.
unfoldable pub forwarded : SaxCallbacks → List Call → List Call
forwarded callbacks [] = []
forwarded callbacks (c ∷ calls) =
    let rest = forwarded callbacks calls in if has_callback callbacks c then c ∷ rest else rest
