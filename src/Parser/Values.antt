-- ===== src/Parser/Values.antt =====
-- Character data and attribute values: `parse_text`, `parse_attribute_value`, `parse_attributes`.
pub mod Distinct
use xmlparser.Prelude.{
  ℕ, zero, suc, ◌+◌, Bool, true, not, ◌||◌, List, [], ◌∷◌, ◌++◌, Bytes, codes, ◌=s=◌, ◌==◌, leb,
  if◌then◌else◌, length, any_of,
}
use xmlparser.Errors.{SourceLocation, well_formedness, resource_limit}
use xmlparser.Chars.{is_space_byte, utf8_bytes}
use xmlparser.Sax.{characters}
use xmlparser.Parser.State.{
  Context, Chars, RawAttribute, ValidationFrame, M, pure, get, lifted, call, scan, fueled, Outcome,
  done, diverges, ◌>>=◌, ◌>>◌,
}
use xmlparser.Parser.Cursor.{
  eof, peek, location, starts_with, advance, expect, enforce_token_size, skip_whitespace,
}
use xmlparser.Parser.Tokens.{parse_name}
use xmlparser.Parser.References.{parse_reference}
use xmlparser.Parser.Dtd.{require_here}

-- `append_utf8(value, peek()); advance();`
unfoldable pub take_char : Context → M Bytes
take_char ctx = do p ← get; scan (advance ctx); pure (utf8_bytes (peek p.chars))

-- What a round of the loops below appends.
unfoldable pub text_piece : Context → M Bytes
text_piece ctx p = if peek p.chars == b'&' then parse_reference ctx p else take_char ctx p

unfoldable pub text_loop : Context → SourceLocation → ℕ → Bytes → M Bytes
text_loop ctx start zero text p = diverges
text_loop ctx start (suc fuel) text p =
    let more : Outcome Bytes =
      (do
        piece ← text_piece ctx
        lifted (enforce_token_size ctx (length (text ++ piece)) start)
        text_loop ctx start fuel (text ++ piece))
        p in
    if eof p.chars || peek p.chars == b'<' then done text p else more

-- `validation_stack_.back().has_non_whitespace_text = true;`
unfoldable pub mark_text : List ValidationFrame → List ValidationFrame
mark_text [] = []
mark_text (frame ∷ frames) = record frame { has_non_whitespace_text = true } ∷ frames

unfoldable pub note_text : Bytes → M (Unit {0})
note_text text p =
    if any_of (λ ch. not (is_space_byte ch)) text
    then done tt (record p { validation_stack = mark_text p.validation_stack })
    else done tt p

unfoldable pub report_text : Bytes → M (Unit {0})
report_text [] = pure tt
report_text (ch ∷ text) = note_text (ch ∷ text) >> call (characters (ch ∷ text))

unfoldable pub parse_text : Context → M (Unit {0})
parse_text ctx = do
  p ← get
  text ← fueled (λ fuel. text_loop ctx (location ctx p.chars) fuel [])
  report_text text

unfoldable pub value_loop : Context → SourceLocation → ℕ → ℕ → Bytes → M Bytes
value_loop ctx start quote zero value p = diverges
value_loop ctx start quote (suc fuel) value p =
    let more : Outcome Bytes =
      (do
        require_here (not (peek p.chars == b'<')) ctx well_formedness
            "'<' is not allowed in attribute values"
        piece ← text_piece ctx
        lifted (enforce_token_size ctx (length (value ++ piece)) start)
        value_loop ctx start quote fuel (value ++ piece))
        p in
    if eof p.chars || peek p.chars == quote then done value p else more

unfoldable pub parse_attribute_value : Context → M Bytes
parse_attribute_value ctx = do
  p ← get
  let quote = peek p.chars
  require_here (quote == b'\'' || quote == b'"') ctx well_formedness
      "expected quoted attribute value"
  scan (advance ctx)
  value ← fueled (λ fuel. value_loop ctx (location ctx p.chars) quote fuel [])
  scan (expect ctx quote "expected attribute quote")
  pure value

-- A round of the loop of `parse_attributes`: one more attribute.
unfoldable pub parse_attribute : Context → List RawAttribute → M RawAttribute
parse_attribute ctx attributes = do
  p ← get
  name ← scan (parse_name ctx)
  require_here (not (any_of (λ existing. existing.name =s= name) attributes)) ctx well_formedness
      "duplicate attribute name"
  require_here (leb (length attributes + 1) ctx.options.max_attributes_per_element) ctx
      resource_limit "attribute count exceeds max_attributes_per_element"
  scan skip_whitespace
  scan (expect ctx b'=' "expected '=' after attribute name")
  scan skip_whitespace
  value ← parse_attribute_value ctx
  pure (record { name = name; value = value; location = location ctx p.chars })

unfoldable pub attributes_end : Chars → Bool
attributes_end chars = peek chars == b'>' || starts_with (codes "/>") chars

unfoldable pub attributes_loop : Context → ℕ → List RawAttribute → M (List RawAttribute)
attributes_loop ctx zero attributes p = diverges
attributes_loop ctx (suc fuel) attributes p =
    (do
      scan skip_whitespace
      q ← get
      let more = (do
        attribute ← parse_attribute ctx attributes
        attributes_loop ctx fuel (attributes ++ attribute ∷ []))
      if attributes_end q.chars then pure attributes else more)
      p

unfoldable pub parse_attributes : Context → M (List RawAttribute)
parse_attributes ctx = fueled (λ fuel. attributes_loop ctx fuel [])
