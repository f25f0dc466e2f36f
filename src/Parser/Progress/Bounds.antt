-- ===== src/Parser/Progress/Bounds.antt =====
-- No token is longer than `max_token_bytes`.
use xmlparser.Prelude.{
  ℕ, ◌≤◌, Bool, true, false, List, [], ◌∷◌, ◌++◌, length, Bytes, codes, leb, leb→le, ◌≡◌, refl,
  arith, Bool-cases, inl, inr, if◌then◌else◌,
}
use xmlparser.Errors.{SourceLocation, Result, ok, throws, stuck, ◌>>=◌, ◌>>◌}
use xmlparser.Chars.{is_name_start, is_name_char, append_utf8, to_ascii}
use xmlparser.Parser.State.{Context, Parser, Chars, scan, scanned}
use xmlparser.Parser.Cursor.{peek, location, fail, starts_with, expect_sequence, enforce_token_size}
use xmlparser.Parser.Tokens.{
  name_loop, parse_name, text_until, comment_loop, comment_text, cdata_loop, cdata_text,
}
use xmlparser.Parser.Progress.{Ends, returns, threw, Progress, Progress-chars}
use xmlparser.Parser.Progress.Scans.{
  Takes, Takes-parse_name, Takes-text_until, Takes-comment_text, Takes-cdata_text,
}

-- If a token comes out, then `P` holds of it.
abbrev Reads : {A : Type 0} → (A → Type 0) → Result (A × Chars) → Type 0
Reads P (ok (a, chars)) = P a
Reads P (throws e) = Unit
Reads P stuck = Unit

Reads-if :
    {A : Type 0} (P : A → Type 0) (b : Bool) (x y : Result (A × Chars))
    → Reads P x
    → Reads P y
    → Reads P (if b then x else y)
Reads-if P true x y h k = h
Reads-if P false x y h k = k

Reads-bind :
    {A B : Type 0} (P : A → Type 0) (Q : B → Type 0) (r : Result (A × Chars))
    (f : A × Chars → Result (B × Chars))
    → Reads P r
    → ((a : A) (chars : Chars) → P a → Reads Q (f (a, chars)))
    → Reads Q (r >>= f)
Reads-bind P Q (ok (a, chars)) f h g = g a chars h
Reads-bind P Q (throws e) f h g = tt
Reads-bind P Q stuck f h g = tt

Reads-any : {A : Type 0} (r : Result (A × Chars)) → Reads (λ _. Unit {0}) r
Reads-any (ok (a, chars)) = tt
Reads-any (throws e) = tt
Reads-any stuck = tt

length-to_ascii : (text : List ℕ) → length (to_ascii text) ≡ length text
unfolding to_ascii
length-to_ascii [] = refl
length-to_ascii (c ∷ text) = omega (arith, length-to_ascii text)

Takes-Ends :
    {A : Type 0} (P : A → Type 0) (d : ℕ) (ctx : Context) (k : ℕ) (p : Parser)
    (r : Result (A × Chars))
    → Takes k (length p.chars) r
    → Reads P r
    → Ends (λ a q. Progress d ctx k p q × P a) (scanned r p)
Takes-Ends P d ctx k p (ok (a, chars)) t h = returns (Progress-chars d ctx k p chars t, h)
Takes-Ends P d ctx k p (throws e) t h = threw
Takes-Ends P d ctx k p stuck t h = absurd t

module _ (ctx : Context) where
  abbrev pub Short : Bytes → Type 0
  Short text = length text ≤ ctx.options.max_token_bytes

  Reads-enforce :
      (size : ℕ) (start : SourceLocation) (r : Result (Bytes × Chars))
      → (size ≤ ctx.options.max_token_bytes → Reads Short r)
      → Reads Short (enforce_token_size ctx size start >> r)
  unfolding enforce_token_size
  Reads-enforce size start r h = elim (Bool-cases (leb size ctx.options.max_token_bytes)) [
    | inl fits ↦ rw fits (h (leb→le _ _ fits))
    | inr over ↦ rw over tt
  ]

  Reads-name_loop :
      (start : SourceLocation) (chars : Chars) (buffer : List ℕ)
      → Short buffer
      → Reads Short (name_loop ctx start buffer chars)
  unfolding name_loop
  Reads-name_loop start [] buffer h = h
  Reads-name_loop start (c ∷ chars) buffer h =
      Reads-if Short (is_name_char c.value) _ _
        (Reads-enforce _ start _
          (λ fits. Reads-name_loop start chars (buffer ++ c.value ∷ []) fits))
        h

  Reads-parse_name : (chars : Chars) → Reads Short (parse_name ctx chars)
  unfolding parse_name fail
  Reads-parse_name chars =
      Reads-if Short (is_name_start (peek chars)) _ _
        (Reads-bind Short Short (name_loop ctx (location ctx chars) [] chars) _
          (Reads-name_loop (location ctx chars) chars [] (omega arith))
          (λ buffer rest h. omega (arith, h, length-to_ascii buffer)))
        tt

  Reads-text_until :
      (start : SourceLocation) (close : Bytes) (chars : Chars) (text : Bytes)
      → Short text
      → Reads Short (text_until ctx start close text chars)
  unfolding text_until
  Reads-text_until start close [] text h = h
  Reads-text_until start close (c ∷ chars) text h =
      Reads-if Short (starts_with close (c ∷ chars)) _ _ h (
        Reads-enforce _ start _
          (λ fits. Reads-text_until start close chars (append_utf8 text c.value) fits))

  Reads-comment_loop :
      (start : SourceLocation) (chars : Chars) (text : Bytes)
      → Short text
      → Reads Short (comment_loop ctx start text chars)
  unfolding comment_loop fail
  Reads-comment_loop start [] text h = tt
  Reads-comment_loop start (c ∷ chars) text h =
      Reads-if Short (starts_with (codes "-->") (c ∷ chars)) _ _ h (
        Reads-if Short (starts_with (codes "--") (c ∷ chars)) _ _ tt (
          Reads-enforce _ start _
            (λ fits. Reads-comment_loop start chars (append_utf8 text c.value) fits)))

  Reads-cdata_loop :
      (start : SourceLocation) (chars : Chars) (text : Bytes)
      → Short text
      → Reads Short (cdata_loop ctx start text chars)
  unfolding cdata_loop
  Reads-cdata_loop start [] text h = tt
  Reads-cdata_loop start (c ∷ chars) text h =
      Reads-if Short (starts_with (codes "]]>") (c ∷ chars)) _ _ h (
        Reads-enforce _ start _
          (λ fits. Reads-cdata_loop start chars (append_utf8 text c.value) fits))

  Reads-comment_text : (chars : Chars) → Reads Short (comment_text ctx chars)
  unfolding comment_text
  Reads-comment_text chars =
      Reads-bind (λ _. Unit {0}) Short (expect_sequence ctx (codes "<!--") _ chars) _ (Reads-any _)
        (λ _ inside _. Reads-comment_loop (location ctx chars) inside [] (omega arith))

  Reads-cdata_text : (chars : Chars) → Reads Short (cdata_text ctx chars)
  unfolding cdata_text
  Reads-cdata_text chars =
      Reads-bind (λ _. Unit {0}) Short (expect_sequence ctx (codes "<![CDATA[") _ chars) _
        (Reads-any _) (λ _ inside _. Reads-cdata_loop (location ctx chars) inside [] (omega arith))

module _ (d : ℕ) (ctx : Context) where
  -- The cursor moves by `k` characters at least, and the token is short.
  abbrev pub ReadsShort : ℕ → Parser → Bytes → Parser → Type 0
  ReadsShort k p text q = Progress d ctx k p q × Short ctx text

  pub Ends-parse_name : (p : Parser) → Ends (ReadsShort 1 p) (scan (parse_name ctx) p)
  Ends-parse_name p =
      Takes-Ends (Short ctx) d ctx 1 p _ (Takes-parse_name ctx p.chars)
        (Reads-parse_name ctx p.chars)

  pub Ends-text_until :
      (start : SourceLocation) (close : Bytes) (p : Parser)
      → Ends (ReadsShort 0 p) (scan (text_until ctx start close []) p)
  Ends-text_until start close p =
      Takes-Ends (Short ctx) d ctx 0 p _ (Takes-text_until ctx start close p.chars [])
        (Reads-text_until ctx start close p.chars [] (omega arith))

  pub Ends-comment_text : (p : Parser) → Ends (ReadsShort 4 p) (scan (comment_text ctx) p)
  Ends-comment_text p =
      Takes-Ends (Short ctx) d ctx 4 p _ (Takes-comment_text ctx p.chars)
        (Reads-comment_text ctx p.chars)

  pub Ends-cdata_text : (p : Parser) → Ends (ReadsShort 9 p) (scan (cdata_text ctx) p)
  Ends-cdata_text p =
      Takes-Ends (Short ctx) d ctx 9 p _ (Takes-cdata_text ctx p.chars)
        (Reads-cdata_text ctx p.chars)
