-- ===== src/Decode.antt =====
-- The decoders of src/parser_core.cpp: UTF-8, UTF-16 of both byte orders, and the choice between
-- them by the byte order mark. The input that a loop has not read is a list of bytes, and each
-- round of a loop is given one unit of fuel.
pub mod Places
pub mod Utf8Char
pub mod Utf8Inverse
pub mod Utf8
pub mod Total
pub mod Utf16
use xmlparser.Prelude.{
  ℕ, zero, suc, ◌+◌, ◌-◌, ◌*◌, ◌%◌, ◌^◌, bit_and, bit_or, Bool, true, false, ◌&&◌, ◌||◌, not, List,
  [], ◌∷◌, ◌++◌, ltb, leb, ◌==◌, within, if◌then◌else◌, length, drop, is_empty, Bytes, begins_with,
}
use xmlparser.Errors.{
  SourceLocation, start_location, ErrorKind, well_formedness, encoding, empty_input, resource_limit,
  Result, ok, stuck, throw_parse, require, ◌>>=◌, ◌>>◌,
}
use xmlparser.Options.{XmlVersion, ParserOptions}
use xmlparser.Chars.{is_valid_xml_char}

pub record DecodedChar : Type 0 where
  pub value : ℕ
  pub location : SourceLocation

pub record DecodedDocument : Type 0 where
  pub chars : List DecodedChar
  pub end_location : SourceLocation

pub record LocationTracker : Type 0 where
  pub line : ℕ
  pub column : ℕ

abbrev pub new_tracker : LocationTracker
new_tracker = record { line = 1; column = 1 }

unfoldable pub current : LocationTracker → ℕ → SourceLocation
current t byte_offset = record { line = t.line; column = t.column; byte_offset = byte_offset }

unfoldable pub track : LocationTracker → ℕ → LocationTracker
track t value =
    if value == b'\n'
    then record { line = t.line + 1; column = 1 }
    else record t { column = t.column + 1 }

-- `document.chars.push_back({value, location})` in front of what the later rounds push.
abbrev pub push_char : ℕ → SourceLocation → DecodedDocument → DecodedDocument
push_char value location document = record document {
  chars = record { value = value; location = location } ∷ document.chars;
}

-- The lead byte: the bits of the value that it holds, and the width of the sequence.
unfoldable pub lead_byte : SourceLocation → ℕ → Result (ℕ × ℕ)
lead_byte location byte =
    if ltb byte 0x80
    then ok (byte, 1)
    else if bit_and byte 0xE0 == 0xC0
    then (if bit_and byte 0x1F == 0
        then throw_parse encoding location "invalid UTF-8 sequence"
        else ok (bit_and byte 0x1F, 2))
    else if bit_and byte 0xF0 == 0xE0
    then ok (bit_and byte 0x0F, 3)
    else if bit_and byte 0xF8 == 0xF0
    then ok (bit_and byte 0x07, 4)
    else throw_parse encoding location "invalid UTF-8 sequence"

-- `for (index = 1; index < width; ++index)`, with `width - index` rounds left.
unfoldable pub continuations : SourceLocation → ℕ → ℕ → Bytes → Result ℕ
continuations location zero value bytes = ok value
continuations location (suc n) value [] = stuck
continuations location (suc n) value (byte ∷ bytes) = do
  require (bit_and byte 0xC0 == 0x80) encoding location "invalid UTF-8 continuation"
  continuations location n (bit_or (value * 2 ^ 6 % 2 ^ 32) (bit_and byte 0x3F)) bytes

abbrev pub is_scalar : ℕ → ℕ → Bool
is_scalar width value = not (
    (width == 2 && ltb value 0x80)
    || (width == 3 && ltb value 0x800)
    || (width == 4 && ltb value 0x10000)
    || ltb 0x10FFFF value
    || within 0xD800 0xDFFF value)

-- The body of the loop, on the input from `offset` on: the character and its width.
unfoldable pub decode_utf8_char : XmlVersion → SourceLocation → Bytes → Result (ℕ × ℕ)
decode_utf8_char version location [] = stuck
decode_utf8_char version location (byte ∷ bytes) = do
  (bits, width) ← lead_byte location byte
  require (leb width (length (byte ∷ bytes))) encoding location "truncated UTF-8 sequence"
  value ← continuations location (width - 1) bits bytes
  require (is_scalar width value) encoding location "invalid UTF-8 scalar value"
  require (is_valid_xml_char value version) well_formedness location "invalid XML character"
  ok (value, width)

unfoldable pub decode_utf8_loop :
    XmlVersion → ℕ → LocationTracker → ℕ → Bytes → Result DecodedDocument
decode_utf8_loop version fuel tracker offset [] =
    ok (record { chars = []; end_location = current tracker offset })
decode_utf8_loop version zero tracker offset (byte ∷ bytes) = stuck
decode_utf8_loop version (suc fuel) tracker offset (byte ∷ bytes) = do
  (value, width) ← decode_utf8_char version (current tracker offset) (byte ∷ bytes)
  document ←
      decode_utf8_loop version fuel (track tracker value) (offset + width)
        (drop width (byte ∷ bytes))
  ok (push_char value (current tracker offset) document)

unfoldable pub decode_utf8 : Bytes → ℕ → ParserOptions → Result DecodedDocument
decode_utf8 xml start_offset options =
    decode_utf8_loop options.version (length xml) new_tracker start_offset (drop start_offset xml)

-- `read_unit`, on the two bytes at the offset.
unfoldable pub read_unit : Bool → ℕ → ℕ → ℕ
read_unit little_endian first second =
    if little_endian
    then bit_or first (second * 2 ^ 8) % 2 ^ 16
    else bit_or (first * 2 ^ 8) second % 2 ^ 16

-- The body of the loop for a leading surrogate, on the input behind it.
unfoldable pub decode_trail : Bool → SourceLocation → ℕ → Bytes → Result (ℕ × ℕ)
decode_trail little_endian location unit (first ∷ second ∷ bytes) = do
  let trail = read_unit little_endian first second
  require (within 0xDC00 0xDFFF trail) encoding location "invalid UTF-16 surrogate pair"
  ok (0x10000 + bit_or ((unit - 0xD800) * 2 ^ 10) (trail - 0xDC00), 4)
decode_trail little_endian location unit _ =
    throw_parse encoding location "truncated UTF-16 surrogate pair"

unfoldable pub decode_utf16_unit : Bool → SourceLocation → Bytes → Result (ℕ × ℕ)
decode_utf16_unit little_endian location (first ∷ second ∷ bytes) =
    let unit = read_unit little_endian first second in
    if within 0xD800 0xDBFF unit
    then decode_trail little_endian location unit bytes
    else if within 0xDC00 0xDFFF unit
    then throw_parse encoding location "unexpected UTF-16 trailing surrogate"
    else ok (unit, 2)
decode_utf16_unit little_endian location _ =
    throw_parse encoding location "truncated UTF-16 code unit"

unfoldable pub decode_utf16_char : XmlVersion → Bool → SourceLocation → Bytes → Result (ℕ × ℕ)
decode_utf16_char version little_endian location bytes = do
  (value, width) ← decode_utf16_unit little_endian location bytes
  require (is_valid_xml_char value version) well_formedness location "invalid XML character"
  ok (value, width)

unfoldable pub decode_utf16_loop :
    XmlVersion → Bool → ℕ → LocationTracker → ℕ → Bytes → Result DecodedDocument
decode_utf16_loop version little_endian fuel tracker offset [] =
    ok (record { chars = []; end_location = current tracker offset })
decode_utf16_loop version little_endian zero tracker offset (byte ∷ bytes) = stuck
decode_utf16_loop version little_endian (suc fuel) tracker offset (byte ∷ bytes) = do
  (value, width) ← decode_utf16_char version little_endian (current tracker offset) (byte ∷ bytes)
  document ←
      decode_utf16_loop version little_endian fuel (track tracker value) (offset + width)
        (drop width (byte ∷ bytes))
  ok (push_char value (current tracker offset) document)

unfoldable pub decode_utf16 : Bytes → Bool → ParserOptions → Result DecodedDocument
decode_utf16 xml little_endian options =
    decode_utf16_loop options.version little_endian (length xml) new_tracker 2 (drop 2 xml)

-- `if (decoded.chars.empty()) throw ...; return decoded;`
abbrev pub non_empty : SourceLocation → DecodedDocument → Result DecodedDocument
non_empty location decoded =
    require (not (is_empty decoded.chars)) empty_input location "XML input is empty" >> ok decoded

abbrev pub after_mark : ℕ → SourceLocation
after_mark n = record { line = 1; column = 1; byte_offset = n }

abbrev pub utf8_mark : Bytes
utf8_mark = 0xEF ∷ 0xBB ∷ 0xBF ∷ []

abbrev pub utf16_le_mark : Bytes
utf16_le_mark = 0xFF ∷ 0xFE ∷ []

abbrev pub utf16_be_mark : Bytes
utf16_be_mark = 0xFE ∷ 0xFF ∷ []

-- The choice of the decoder, on an input of admissible size.
unfoldable pub choose_decoder : Bytes → ParserOptions → Result DecodedDocument
choose_decoder xml options =
    if begins_with utf8_mark xml
    then decode_utf8 xml 3 options >>= non_empty (after_mark 3)
    else if begins_with utf16_le_mark xml
    then decode_utf16 xml true options >>= non_empty (after_mark 2)
    else if begins_with utf16_be_mark xml
    then decode_utf16 xml false options >>= non_empty (after_mark 2)
    else decode_utf8 xml 0 options >>= non_empty start_location

unfoldable pub decode_document : Bytes → ParserOptions → Result DecodedDocument
decode_document xml options = do
  require (not (is_empty xml)) empty_input start_location "XML input is empty"
  require (leb (length xml) options.max_document_bytes) resource_limit start_location
      "XML input exceeds max_document_bytes"
  choose_decoder xml options
