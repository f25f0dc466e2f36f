-- ===== src/Parser/Tokens.antt =====
-- The methods of `Parser` that read one token: names, literals, and the text up to a terminator.
-- Each loop is a recursion on the characters left.
use xmlparser.Prelude.{
  ℕ, ◌||◌, List, [], ◌∷◌, ◌++◌, Bytes, codes, ◌==◌, if◌then◌else◌, length, drop,
}
use xmlparser.Errors.{SourceLocation, well_formedness, ok, throw_parse, ◌>>=◌, ◌>>◌}
use xmlparser.Chars.{is_name_start, is_name_char, to_ascii, append_utf8}
use xmlparser.Parser.State.{Context, Chars, Scan}
use xmlparser.Parser.Cursor.{
  peek, location, fail, starts_with, advance, expect, expect_sequence, enforce_token_size,
}

unfoldable pub name_loop : Context → SourceLocation → List ℕ → Scan (List ℕ)
name_loop ctx start buffer [] = ok (buffer, [])
name_loop ctx start buffer (c ∷ chars) =
    let rest = (do
      enforce_token_size ctx (length (buffer ++ c.value ∷ [])) start
      name_loop ctx start (buffer ++ c.value ∷ []) chars) in
    if is_name_char c.value then rest else ok (buffer, c ∷ chars)

unfoldable pub parse_name : Context → Scan Bytes
parse_name ctx chars =
    if is_name_start (peek chars)
    then (do
      (buffer, rest) ← name_loop ctx (location ctx chars) [] chars
      ok (to_ascii buffer, rest))
    else fail ctx well_formedness "expected XML name" chars

unfoldable pub literal_loop : ℕ → Bytes → Chars → Bytes × Chars
literal_loop quote value [] = (value, [])
literal_loop quote value (c ∷ chars) =
    let rest = literal_loop quote (append_utf8 value c.value) chars in
    if c.value == quote then (value, c ∷ chars) else rest

unfoldable pub parse_quoted_literal : Context → Scan Bytes
parse_quoted_literal ctx chars =
    let quote = peek chars in
    if quote == b'\'' || quote == b'"'
    then (do
      (_, inside) ← advance ctx chars
      let read = literal_loop quote [] inside
      (_, rest) ← expect ctx quote "expected literal quote" read.1
      ok (read.0, rest))
    else fail ctx well_formedness "expected quoted literal" chars

-- `while (!eof() && !starts_with(close)) { append_utf8(text, peek()); enforce_token_size(...);
-- advance(); }`, the loop of the XML declaration and of processing instructions.
unfoldable pub text_until : Context → SourceLocation → Bytes → Bytes → Scan Bytes
text_until ctx start close text [] = ok (text, [])
text_until ctx start close text (c ∷ chars) =
    let rest = (do
      enforce_token_size ctx (length (append_utf8 text c.value)) start
      text_until ctx start close (append_utf8 text c.value) chars) in
    if starts_with close (c ∷ chars) then ok (text, c ∷ chars) else rest

-- The loop of `parse_comment`, behind `<!--`.
unfoldable pub comment_loop : Context → SourceLocation → Bytes → Scan Bytes
comment_loop ctx start text [] = throw_parse well_formedness start "truncated XML comment"
comment_loop ctx start text (c ∷ chars) =
    let rest = (do
      enforce_token_size ctx (length (append_utf8 text c.value)) start
      comment_loop ctx start (append_utf8 text c.value) chars) in
    if starts_with (codes "-->") (c ∷ chars)
    then ok (text, drop 3 (c ∷ chars))
    else if starts_with (codes "--") (c ∷ chars)
    then fail ctx well_formedness "comment text cannot contain '--'" (c ∷ chars)
    else rest

unfoldable pub comment_text : Context → Scan Bytes
comment_text ctx chars = do
  (_, inside) ← expect_sequence ctx (codes "<!--") "expected comment start" chars
  comment_loop ctx (location ctx chars) [] inside

-- The loop of `parse_cdata`, behind `<![CDATA[`.
unfoldable pub cdata_loop : Context → SourceLocation → Bytes → Scan Bytes
cdata_loop ctx start text [] = throw_parse well_formedness start "truncated CDATA section"
cdata_loop ctx start text (c ∷ chars) =
    let rest = (do
      enforce_token_size ctx (length (append_utf8 text c.value)) start
      cdata_loop ctx start (append_utf8 text c.value) chars) in
    if starts_with (codes "]]>") (c ∷ chars) then ok (text, drop 3 (c ∷ chars)) else rest

unfoldable pub cdata_text : Context → Scan Bytes
cdata_text ctx chars = do
  (_, inside) ← expect_sequence ctx (codes "<![CDATA[") "expected CDATA start" chars
  cdata_loop ctx (location ctx chars) [] inside

-- The name of a reference, up to the `;`.
unfoldable pub reference_loop : Context → SourceLocation → List ℕ → Scan (List ℕ)
reference_loop ctx start name [] = ok (name, [])
reference_loop ctx start name (c ∷ chars) =
    let rest = (do
      enforce_token_size ctx (length (name ++ c.value ∷ [])) start
      reference_loop ctx start (name ++ c.value ∷ []) chars) in
    if c.value == b';' then ok (name, c ∷ chars) else rest

-- The content model of an element declaration, up to the `>`.
unfoldable pub model_loop : Bytes → Chars → Bytes × Chars
model_loop model [] = (model, [])
model_loop model (c ∷ chars) =
    let rest = model_loop (append_utf8 model c.value) chars in
    if c.value == b'>' then (model, c ∷ chars) else rest
