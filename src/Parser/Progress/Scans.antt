-- ===== src/Parser/Progress/Scans.antt =====
-- The methods that only move the cursor: each ends, and none goes back.
use xmlparser.Prelude.{
  ℕ, ◌+◌, ◌≤◌, true, List, [], ◌∷◌, ◌++◌, length, length-drop, Bytes, String, codes, ◌≡◌, arith,
  Bool-cases, inl, inr,
}
use xmlparser.Errors.{SourceLocation, Result, ok, throws, stuck, ◌>>=◌}
use xmlparser.Chars.{is_name_start, is_name_char, append_utf8}
use xmlparser.Decode.{DecodedChar}
use xmlparser.Parser.State.{Context, Parser, Chars, scan, scanned}
use xmlparser.Parser.Cursor.{
  peek, location, fail, starts_with, advance, expect, expect_sequence, enforce_token_size,
  skip_spaces, skip_whitespace,
}
use xmlparser.Parser.Tokens.{
  name_loop, parse_name, literal_loop, parse_quoted_literal, text_until, comment_loop, comment_text,
  cdata_loop, cdata_text, reference_loop, model_loop,
}
use xmlparser.Parser.Progress.{Advances, returns, threw, Progress-chars}

-- The outcome is no `stuck`, and `k` of `n` characters at least are taken.
abbrev pub Takes {ℓ} : {A : Type ℓ} → ℕ → ℕ → Result (A × Chars) → Type 0
Takes k n (ok (a, chars)) = k + length chars ≤ n
Takes k n (throws e) = Unit
Takes k n stuck = ⊥

pub Takes-Advances :
    {A : Type 0} (d : ℕ) (ctx : Context) (k : ℕ) (p : Parser) (r : Result (A × Chars))
    → Takes k (length p.chars) r
    → Advances d ctx k p (scanned r p)
Takes-Advances d ctx k p (ok (a, chars)) h = returns (Progress-chars d ctx k p chars h)
Takes-Advances d ctx k p (throws e) h = threw
Takes-Advances d ctx k p stuck h = absurd h

Takes-weaken :
    {B : Type 0} (j k m n : ℕ) (r : Result (B × Chars))
    → j + m ≤ n
    → Takes k m r
    → Takes (j + k) n r
Takes-weaken j k m n (ok (b, chars)) h t = omega arith
Takes-weaken j k m n (throws e) h t = tt
Takes-weaken j k m n stuck h t = absurd t

pub Takes-bind :
    {A B : Type 0} (j k n : ℕ) (r : Result (A × Chars)) (f : A × Chars → Result (B × Chars))
    → Takes j n r
    → ((a : A) (chars : Chars) → j + length chars ≤ n → Takes k (length chars) (f (a, chars)))
    → Takes (j + k) n (r >>= f)
Takes-bind j k n (ok (a, chars)) f h g =
    Takes-weaken j k (length chars) n (f (a, chars)) h (g a chars h)
Takes-bind j k n (throws e) f h g = tt
Takes-bind j k n stuck f h g = absurd h

pub length-skip_spaces : (chars : Chars) → length (skip_spaces chars) ≤ length chars
unfolding skip_spaces
length-skip_spaces [] = omega arith
length-skip_spaces (c ∷ chars) = ground (arith, length-skip_spaces chars)

pub length-starts_with :
    (text : Bytes) (chars : Chars) → starts_with text chars ≡ true → length text ≤ length chars
unfolding starts_with
length-starts_with [] chars h = omega arith
length-starts_with (t ∷ text) [] h = cc
length-starts_with (t ∷ text) (c ∷ chars) h = ground (arith, length-starts_with text chars)

module _ (ctx : Context) where
  pub Takes-advance : (chars : Chars) → Takes 1 (length chars) (advance ctx chars)
  unfolding advance fail
  Takes-advance [] = tt
  Takes-advance (c ∷ chars) = omega arith

  pub Takes-expect :
      (value : ℕ) (message : String) (chars : Chars)
      → Takes 1 (length chars) (expect ctx value message chars)
  unfolding expect advance fail
  Takes-expect value message [] = ground arith
  Takes-expect value message (c ∷ chars) = ground arith

  pub Takes-expect_sequence :
      (text : Bytes) (message : String) (chars : Chars)
      → Takes (length text) (length chars) (expect_sequence ctx text message chars)
  unfolding expect_sequence fail
  Takes-expect_sequence text message chars =
      ground (arith, length-starts_with text chars, length-drop (length text) chars)

  pub Takes-skip_whitespace : (chars : Chars) → Takes 0 (length chars) (skip_whitespace chars)
  unfolding skip_whitespace
  Takes-skip_whitespace chars = omega (arith, length-skip_spaces chars)

  Takes-name_loop :
      (start : SourceLocation) (chars : Chars) (buffer : List ℕ)
      → Takes 0 (length chars) (name_loop ctx start buffer chars)
  unfolding name_loop enforce_token_size
  Takes-name_loop start [] buffer = omega arith
  Takes-name_loop start (c ∷ chars) buffer =
      ground (arith, Takes-name_loop start chars (buffer ++ c.value ∷ []))

  first_char :
      (c : DecodedChar) (chars : Chars)
      → is_name_start c.value ≡ true
      → Takes 1 (length (c ∷ chars)) (name_loop ctx c.location [] (c ∷ chars))
  unfolding name_loop enforce_token_size is_name_char
  first_char c chars first =
      rw first (ground (arith, Takes-name_loop c.location chars (c.value ∷ [])))

  -- A name has a first character.
  pub Takes-parse_name : (chars : Chars) → Takes 1 (length chars) (parse_name ctx chars)
  unfolding parse_name fail peek location
  Takes-parse_name [] = unfold is_name_start in tt
  Takes-parse_name (c ∷ chars) = elim (Bool-cases (is_name_start c.value)) [
    | inl first ↦ rw first (
        Takes-bind 1 0 (length (c ∷ chars)) _ _ (first_char c chars first)
          (λ a rest h. omega arith))
    | inr other ↦ rw other tt
  ]

  Takes-literal_loop :
      (quote : ℕ) (chars : Chars) (value : Bytes)
      → length (literal_loop quote value chars).1 ≤ length chars
  unfolding literal_loop
  Takes-literal_loop quote [] value = omega arith
  Takes-literal_loop quote (c ∷ chars) value =
      ground (arith, Takes-literal_loop quote chars (append_utf8 value c.value))

  pub length-model_loop :
      (chars : Chars) (model : Bytes) → length (model_loop model chars).1 ≤ length chars
  unfolding model_loop
  length-model_loop [] model = omega arith
  length-model_loop (c ∷ chars) model =
      ground (arith, length-model_loop chars (append_utf8 model c.value))

  pub Takes-parse_quoted_literal :
      (chars : Chars) → Takes 0 (length chars) (parse_quoted_literal ctx chars)
  unfolding parse_quoted_literal fail peek advance
  Takes-parse_quoted_literal [] = tt
  Takes-parse_quoted_literal (c ∷ chars) =
      let after = literal_loop c.value [] chars in
      ground (
        arith,
        Takes-literal_loop c.value chars [],
        Takes-expect c.value "expected literal quote" after.1,
      )

  pub Takes-text_until :
      (start : SourceLocation) (close : Bytes) (chars : Chars) (text : Bytes)
      → Takes 0 (length chars) (text_until ctx start close text chars)
  unfolding text_until enforce_token_size
  Takes-text_until start close [] text = omega arith
  Takes-text_until start close (c ∷ chars) text =
      ground (arith, Takes-text_until start close chars (append_utf8 text c.value))

  Takes-comment_loop :
      (start : SourceLocation) (chars : Chars) (text : Bytes)
      → Takes 0 (length chars) (comment_loop ctx start text chars)
  unfolding comment_loop enforce_token_size fail
  Takes-comment_loop start [] text = tt
  Takes-comment_loop start (c ∷ chars) text =
      ground (
        arith,
        Takes-comment_loop start chars (append_utf8 text c.value),
        length-drop 3 (c ∷ chars),
      )

  pub Takes-comment_text : (chars : Chars) → Takes 4 (length chars) (comment_text ctx chars)
  unfolding comment_text
  Takes-comment_text chars =
      Takes-bind 4 0 (length chars) _ _ (Takes-expect_sequence (codes "<!--") _ chars)
        (λ a inside h. Takes-comment_loop (location ctx chars) inside [])

  Takes-cdata_loop :
      (start : SourceLocation) (chars : Chars) (text : Bytes)
      → Takes 0 (length chars) (cdata_loop ctx start text chars)
  unfolding cdata_loop enforce_token_size
  Takes-cdata_loop start [] text = tt
  Takes-cdata_loop start (c ∷ chars) text =
      ground
        (arith, Takes-cdata_loop start chars (append_utf8 text c.value), length-drop 3 (c ∷ chars))

  pub Takes-cdata_text : (chars : Chars) → Takes 9 (length chars) (cdata_text ctx chars)
  unfolding cdata_text
  Takes-cdata_text chars =
      Takes-bind 9 0 (length chars) _ _ (Takes-expect_sequence (codes "<![CDATA[") _ chars)
        (λ a inside h. Takes-cdata_loop (location ctx chars) inside [])

  pub Takes-reference_loop :
      (start : SourceLocation) (chars : Chars) (name : List ℕ)
      → Takes 0 (length chars) (reference_loop ctx start name chars)
  unfolding reference_loop enforce_token_size
  Takes-reference_loop start [] name = omega arith
  Takes-reference_loop start (c ∷ chars) name =
      ground (arith, Takes-reference_loop start chars (name ++ c.value ∷ []))

-- The same of the methods, on the state of the parser.
module _ (d : ℕ) (ctx : Context) where
  pub Advances-advance : (p : Parser) → Advances d ctx 1 p (scan (advance ctx) p)
  Advances-advance p = Takes-Advances d ctx 1 p _ (Takes-advance ctx p.chars)

  pub Advances-expect :
      (value : ℕ) (message : String) (p : Parser)
      → Advances d ctx 1 p (scan (expect ctx value message) p)
  Advances-expect value message p =
      Takes-Advances d ctx 1 p _ (Takes-expect ctx value message p.chars)

  pub Advances-expect_sequence :
      (text : Bytes) (message : String) (p : Parser)
      → Advances d ctx (length text) p (scan (expect_sequence ctx text message) p)
  Advances-expect_sequence text message p =
      Takes-Advances d ctx (length text) p _ (Takes-expect_sequence ctx text message p.chars)

  pub Advances-skip_whitespace : (p : Parser) → Advances d ctx 0 p (scan skip_whitespace p)
  Advances-skip_whitespace p = Takes-Advances d ctx 0 p _ (Takes-skip_whitespace ctx p.chars)

  pub Advances-parse_name : (p : Parser) → Advances d ctx 1 p (scan (parse_name ctx) p)
  Advances-parse_name p = Takes-Advances d ctx 1 p _ (Takes-parse_name ctx p.chars)

  pub Advances-parse_quoted_literal :
      (p : Parser) → Advances d ctx 0 p (scan (parse_quoted_literal ctx) p)
  Advances-parse_quoted_literal p =
      Takes-Advances d ctx 0 p _ (Takes-parse_quoted_literal ctx p.chars)

  pub Advances-text_until :
      (start : SourceLocation) (close text : Bytes) (p : Parser)
      → Advances d ctx 0 p (scan (text_until ctx start close text) p)
  Advances-text_until start close text p =
      Takes-Advances d ctx 0 p _ (Takes-text_until ctx start close p.chars text)

  pub Advances-reference_loop :
      (start : SourceLocation) (name : List ℕ) (p : Parser)
      → Advances d ctx 0 p (scan (reference_loop ctx start name) p)
  Advances-reference_loop start name p =
      Takes-Advances d ctx 0 p _ (Takes-reference_loop ctx start p.chars name)

  pub Advances-comment_text : (p : Parser) → Advances d ctx 4 p (scan (comment_text ctx) p)
  Advances-comment_text p = Takes-Advances d ctx 4 p _ (Takes-comment_text ctx p.chars)

  pub Advances-cdata_text : (p : Parser) → Advances d ctx 9 p (scan (cdata_text ctx) p)
  Advances-cdata_text p = Takes-Advances d ctx 9 p _ (Takes-cdata_text ctx p.chars)
