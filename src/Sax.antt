-- ===== src/Sax.antt =====
-- include/xmlparser/sax.h: what the parser tells its client.
use xmlparser.Prelude.{Bytes, List}
use xmlparser.Errors.{SourceLocation, XmlParseException}

pub record QualifiedName : Type 0 where
  pub uri : Bytes
  pub local_name : Bytes
  pub qualified_name : Bytes

pub record AttributeView : Type 0 where
  pub name : QualifiedName
  pub value : Bytes
  pub location : SourceLocation

-- A call of the client's code: a method of `SaxHandler`, or `recoverable_error_handler`. All
-- return nothing and get their arguments read-only, so the parser's run is its list of calls; a
-- client can only cut it short, by throwing.
pub data Call : Type 0 where
  start_document end_document : Call
  start_element : QualifiedName → List AttributeView → Call
  end_element : QualifiedName → Call
  characters : Bytes → Call
  processing_instruction : Bytes → Bytes → Call
  comment : Bytes → Call
  cdata : Bytes → Call
  recoverable_error : XmlParseException → Call
