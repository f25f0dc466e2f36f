-- ===== src/Options.antt =====
-- include/xmlparser/options.h and version.h: what a caller configures.
use xmlparser.Prelude.{ℕ, ◌*◌, Bool, true, false, Option, none, Bytes}
use xmlparser.Errors.{Result}

pub data XmlVersion : Type 0 where
  xml10 xml11 : XmlVersion

pub data Encoding : Type 0 where
  auto utf8 utf16_le utf16_be : Encoding

pub data ValidationMode : Type 0 where
  off dtd : ValidationMode

pub data NamespaceMode : Type 0 where
  enabled disabled : NamespaceMode

-- `external_dtd_resolver` is the caller's code, `none` where it is not set. Of the caller's
-- `recoverable_error_handler` the parser sees only whether it is set: its calls are recorded.
pub record ParserOptions : Type 0 where
  pub version : XmlVersion
  pub encoding : Encoding
  pub validation : ValidationMode
  pub namespaces : NamespaceMode
  pub allow_external_dtd : Bool
  pub external_dtd_resolver : Option (Bytes → Result Bytes)
  pub recoverable_error_handler : Bool
  pub max_document_bytes : ℕ
  pub max_depth : ℕ
  pub max_token_bytes : ℕ
  pub max_attributes_per_element : ℕ
  pub max_entity_expansions : ℕ
  pub max_dom_nodes : ℕ
  pub max_dtd_declarations : ℕ
  pub max_entity_replacement_bytes : ℕ
  pub max_external_subset_bytes : ℕ

abbrev pub default_options : ParserOptions
default_options = record {
  version = xml10;
  encoding = auto;
  validation = off;
  namespaces = enabled;
  allow_external_dtd = false;
  external_dtd_resolver = none;
  recoverable_error_handler = false;
  max_document_bytes = 16 * 1024 * 1024;
  max_depth = 256;
  max_token_bytes = 1024 * 1024;
  max_attributes_per_element = 1024;
  max_entity_expansions = 100000;
  max_dom_nodes = 1000000;
  max_dtd_declarations = 4096;
  max_entity_replacement_bytes = 1024 * 1024;
  max_external_subset_bytes = 1024 * 1024;
}

abbrev pub is_dtd : ValidationMode → Bool
is_dtd dtd = true
is_dtd off = false

abbrev pub is_enabled : NamespaceMode → Bool
is_enabled enabled = true
is_enabled disabled = false

abbrev pub is_xml10 : XmlVersion → Bool
is_xml10 xml10 = true
is_xml10 xml11 = false
