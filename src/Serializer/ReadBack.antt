-- ===== src/Serializer/ReadBack.antt =====
-- What the serializer writes for a text or an attribute value, the parser reads back.
use xmlparser.Prelude.{
  ℕ, zero, suc, ◌+◌, ◌<◌, ◌≤◌, true, false, ◌||◌, [], ◌∷◌, ◌++◌, length, length-append, Bytes, leb,
  ◌==◌, All, append_assoc, append-nil, ◌≡◌, ap, ◌∙◌, arith,
}
use xmlparser.Errors.{SourceLocation}
use xmlparser.Parser.State.{Context, Parser, Chars, done, require}
use xmlparser.Parser.Cursor.{eof, peek, enforce_token_size}
use xmlparser.Parser.Dtd.{require_here}
use xmlparser.Parser.Values.{text_loop, value_loop}
use xmlparser.Serializer.{text_escape, attribute_escape, escape_text, escape_attribute}
use xmlparser.Serializer.Pieces.{
  place, reading, text_cost, attribute_cost, costs, text_escape-ReadsPiece,
  attribute_escape-ReadsPiece,
}

place-append :
    (at : ℕ → SourceLocation) (n : ℕ) (xs ys : Bytes) (rest : Chars)
    → place at n (xs ++ ys) rest ≡ place at n xs (place at (n + length xs) ys rest)
place-append at n [] ys rest = ap (λ (i : ℕ). place at i ys rest) (omega arith)
place-append at n (x ∷ xs) ys rest = ap (◌∷◌ (record { value = x; location = at n })) (
    place-append at (suc n) xs ys rest
    ∙ ap (λ (i : ℕ). place at (suc n) xs (place at i ys rest)) (omega arith))

-- An escaped character does not end the loops.
text_goes_on :
    (at : ℕ → SourceLocation) (n ch : ℕ) (rest : Chars)
    → (eof (place at n (text_escape ch) rest) || peek (place at n (text_escape ch) rest) == b'<')
      ≡ false
unfolding eof peek text_escape
text_goes_on at n ch rest = ground arith

attribute_goes_on :
    (at : ℕ → SourceLocation) (n ch : ℕ) (rest : Chars)
    → (eof (place at n (attribute_escape ch) rest)
        || peek (place at n (attribute_escape ch) rest) == b'"')
      ≡ false
unfolding eof peek attribute_escape
attribute_goes_on at n ch rest = ground arith

attribute_no_tag :
    (at : ℕ → SourceLocation) (n ch : ℕ) (rest : Chars)
    → (peek (place at n (attribute_escape ch) rest) == b'<') ≡ false
unfolding peek attribute_escape
attribute_no_tag at n ch rest = ground arith

module _ (ctx : Context) (small : 4 ≤ ctx.options.max_token_bytes) (p : Parser)
    (at : ℕ → SourceLocation) (start : SourceLocation) where
  -- The loop of `parse_text`, at the escaped form of an ASCII text that is followed by a `<` or by
  -- the end, wherever it stands: with more fuel than the text has characters, enough references left
  -- to expand, a limit of four bytes at least for a token, and the text read so far and this one
  -- within it, the loop reads the escaped form and no more, and appends the text to the text so far.
  pub text_loop-escape_text :
      (text acc : Bytes) (n e fuel : ℕ) (rest : Chars)
      → All (λ ch. ch < 128) text
      → e + costs text_cost text ≤ ctx.options.max_entity_expansions
      → length acc + length text ≤ ctx.options.max_token_bytes
      → length text < fuel
      → (eof rest || peek rest == b'<') ≡ true
      → text_loop ctx start fuel acc (reading p (place at n (escape_text text) rest) e)
        ≡ done (acc ++ text) (reading p rest (e + costs text_cost text))
  unfolding text_loop escape_text enforce_token_size
  text_loop-escape_text text acc n e zero rest ascii few fits enough stop = absurd (omega arith)
  text_loop-escape_text [] acc n e (suc fuel) rest ascii few fits enough stop =
      rw (stop, append-nil acc)
        (ap (λ (i : ℕ). done acc (reading p rest i)) {y = e + 0} (omega arith))
  text_loop-escape_text (ch ∷ text) acc n e (suc fuel) rest (small_ch, ascii) few fits enough stop =
      let more = place at (n + length (text_escape ch)) (escape_text text) rest in
      let grows : leb (length (acc ++ ch ∷ [])) ctx.options.max_token_bytes ≡ true =
        ground (arith, length-append acc (ch ∷ []), fits) in
      let ih =
        text_loop-escape_text text (acc ++ ch ∷ []) (n + length (text_escape ch)) (e + text_cost ch)
          fuel rest ascii (omega (arith, few)) (omega (arith, length-append acc (ch ∷ []), fits))
          (omega (arith, enough)) stop in
      rw
        (
          place-append at n (text_escape ch) (escape_text text) rest,
          text_goes_on at n ch more,
          text_escape-ReadsPiece ctx small p at n e ch more small_ch (omega (arith, few)),
          grows,
        )
        (ih
          ∙ ap (λ (l : Bytes). done l (reading p rest (e + text_cost ch + costs text_cost text)))
              (append_assoc acc (ch ∷ []) text)
          ∙ ap (λ (i : ℕ). done (acc ++ ch ∷ text) (reading p rest i))
              {x = e + text_cost ch + costs text_cost text} (omega arith))

  -- The loop of `parse_attribute_value`, at the escaped form of an ASCII value that is followed by a
  -- quotation mark or by the end, wherever it stands: with more fuel than the value has characters,
  -- enough references left to expand, a limit of four bytes at least for a token, and the value read
  -- so far and this one within it, the loop reads the escaped form and no more, and appends the value
  -- to what was read so far.
  pub value_loop-escape_attribute :
      (text acc : Bytes) (n e fuel : ℕ) (rest : Chars)
      → All (λ ch. ch < 128) text
      → e + costs attribute_cost text ≤ ctx.options.max_entity_expansions
      → length acc + length text ≤ ctx.options.max_token_bytes
      → length text < fuel
      → (eof rest || peek rest == b'"') ≡ true
      → value_loop ctx start b'"' fuel acc (reading p (place at n (escape_attribute text) rest) e)
        ≡ done (acc ++ text) (reading p rest (e + costs attribute_cost text))
  unfolding value_loop require_here require escape_attribute enforce_token_size
  value_loop-escape_attribute text acc n e zero rest ascii few fits enough stop =
      absurd (omega arith)
  value_loop-escape_attribute [] acc n e (suc fuel) rest ascii few fits enough stop =
      rw (stop, append-nil acc)
        (ap (λ (i : ℕ). done acc (reading p rest i)) {y = e + 0} (omega arith))
  value_loop-escape_attribute (ch ∷ text) acc n e (suc fuel) rest (small_ch, ascii) few fits enough
        stop =
      let more = place at (n + length (attribute_escape ch)) (escape_attribute text) rest in
      let grows : leb (length (acc ++ ch ∷ [])) ctx.options.max_token_bytes ≡ true =
        ground (arith, length-append acc (ch ∷ []), fits) in
      let ih =
        value_loop-escape_attribute text (acc ++ ch ∷ []) (n + length (attribute_escape ch))
          (e + attribute_cost ch) fuel rest ascii (omega (arith, few))
          (omega (arith, length-append acc (ch ∷ []), fits)) (omega (arith, enough)) stop in
      rw
        (
          place-append at n (attribute_escape ch) (escape_attribute text) rest,
          attribute_goes_on at n ch more,
          attribute_no_tag at n ch more,
          attribute_escape-ReadsPiece ctx small p at n e ch more small_ch (omega (arith, few)),
          grows,
        )
        (ih
          ∙ ap
              (λ (l : Bytes).
                done l (reading p rest (e + attribute_cost ch + costs attribute_cost text)))
              (append_assoc acc (ch ∷ []) text)
          ∙ ap (λ (i : ℕ). done (acc ++ ch ∷ text) (reading p rest i))
              {x = e + attribute_cost ch + costs attribute_cost text} (omega arith))
