-- ===== src/Parser/Cursor.antt =====
-- `eof` to `skip_whitespace` of `Parser`: looking at the characters ahead, and moving past them.
use xmlparser.Prelude.{
  ℕ, Bool, true, false, ◌&&◌, [], ◌∷◌, String, Bytes, ◌==◌, leb, if◌then◌else◌, length, drop,
}
use xmlparser.Errors.{
  SourceLocation, ErrorKind, well_formedness, resource_limit, Result, ok, throw_parse, require,
}
use xmlparser.Chars.{is_space}
use xmlparser.Parser.State.{Context, Chars, Scan}

unfoldable pub eof : Chars → Bool
eof [] = true
eof (c ∷ chars) = false

unfoldable pub peek : Chars → ℕ
peek [] = 0
peek (c ∷ chars) = c.value

-- `peek(lookahead)`
unfoldable pub peek_at : ℕ → Chars → ℕ
peek_at lookahead chars = peek (drop lookahead chars)

unfoldable pub location : Context → Chars → SourceLocation
location ctx [] = ctx.end_location
location ctx (c ∷ chars) = c.location

unfoldable pub fail {ℓ} : {A : Type ℓ} → Context → ErrorKind → String → Chars → Result A
fail ctx kind message chars = throw_parse kind (location ctx chars) message

unfoldable pub starts_with : Bytes → Chars → Bool
starts_with [] chars = true
starts_with (t ∷ text) [] = false
starts_with (t ∷ text) (c ∷ chars) = (c.value == t) && starts_with text chars

unfoldable pub advance : Context → Scan (Unit {0})
advance ctx [] = fail ctx well_formedness "unexpected end of XML input" []
advance ctx (c ∷ chars) = ok (tt, chars)

-- The message is `"expected " + description`, written out at each call.
unfoldable pub expect : Context → ℕ → String → Scan (Unit {0})
expect ctx value message chars =
    if peek chars == value then advance ctx chars else fail ctx well_formedness message chars

unfoldable pub expect_sequence : Context → Bytes → String → Scan (Unit {0})
expect_sequence ctx text message chars =
    if starts_with text chars
    then ok (tt, drop (length text) chars)
    else fail ctx well_formedness message chars

unfoldable pub enforce_token_size : Context → ℕ → SourceLocation → Result (Unit {0})
enforce_token_size ctx size start =
    require (leb size ctx.options.max_token_bytes) resource_limit start
      "XML token exceeds max_token_bytes"

-- The loop `while (!eof() && is_space(peek())) advance();`
unfoldable pub skip_spaces : Chars → Chars
skip_spaces [] = []
skip_spaces (c ∷ chars) = if is_space c.value then skip_spaces chars else c ∷ chars

unfoldable pub skip_whitespace : Scan (Unit {0})
skip_whitespace chars = ok (tt, skip_spaces chars)
