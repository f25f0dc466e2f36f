-- ===== src/Parser/Progress/Values.antt =====
-- Character data, attribute values and attribute lists.
use xmlparser.Prelude.{
  ℕ, zero, suc, ◌<◌, ◌≤◌, leb, leb→le, Bool-cases, inl, inr, Bool, false, not, ◌||◌, List, [], ◌∷◌,
  ◌++◌, ◌==◌, length, any_of, Bytes, String, ◌≡◌, refl, arith,
}
use xmlparser.Errors.{SourceLocation, ErrorKind}
use xmlparser.Chars.{is_space_byte}
use xmlparser.Sax.{characters}
use xmlparser.Parser.State.{Context, Parser, ValidationFrame, M, Outcome, lifted, ◌>>=◌, ◌>>◌}
use xmlparser.Parser.Cursor.{eof, peek, location, enforce_token_size}
use xmlparser.Parser.Dtd.{require_here}
use xmlparser.Parser.Values.{
  take_char, text_piece, text_loop, mark_text, note_text, report_text, parse_text, value_loop,
  parse_attribute_value,
}
use xmlparser.Parser.Events.{Emits-none}
use xmlparser.Parser.Progress.Bounds.{Short, ReadsShort}
use xmlparser.Parser.Progress.{
  Ends, threw, Progress, Progress-trans, Progress-weaken, Ends-map, Ends-bind, frame_names,
  Advances, returns, Progress-refl, Advances-bind, Advances-require, Advances-call, Advances-then,
  Advances-some, Ends-if,
}
use xmlparser.Parser.Progress.References.{Advances-parse_reference}
use xmlparser.Parser.Progress.Scans.{Advances-advance, Advances-expect}

module _ (d : ℕ) (ctx : Context) where
  pub Advances-require_here :
      (test : Bool) (kind : ErrorKind) (message : String) (p : Parser)
      → Advances d ctx 0 p (require_here test ctx kind message p)
  unfolding require_here
  Advances-require_here test kind message p = Advances-require d ctx p test kind _ message

  Ends-token_size :
      (size : ℕ) (start : SourceLocation) (p : Parser)
      → Ends
          (λ _ q. Progress d ctx 0 p q × (size ≤ ctx.options.max_token_bytes))
          (lifted (enforce_token_size ctx size start) p)
  unfolding enforce_token_size
  Ends-token_size size start p = elim (Bool-cases (leb size ctx.options.max_token_bytes)) [
    | inl fits ↦ rw fits (returns (Progress-refl d ctx p, leb→le _ _ fits))
    | inr over ↦ rw over threw
  ]

  Advances-text_piece : (p : Parser) → Advances d ctx 1 p (text_piece ctx p)
  unfolding text_piece take_char
  Advances-text_piece p =
      Ends-if (peek p.chars == b'&') (λ _. Advances-parse_reference d ctx p)
        (λ _.
          Advances-bind d ctx {j = 1} {k = 0} _ (Advances-advance d ctx p)
            λ _ q _. returns (Progress-refl d ctx q))

  -- One piece more, within the limit.
  Ends-round :
      (start : SourceLocation) (text : Bytes) (k : Bytes → M Bytes) (p : Parser)
      → ((piece : Bytes) (q : Parser)
          → Progress d ctx 1 p q
          → Short ctx (text ++ piece)
          → Ends (ReadsShort d ctx 0 q) (k (text ++ piece) q))
      → Ends (ReadsShort d ctx 1 p) (
          (do
            piece ← text_piece ctx
            lifted (enforce_token_size ctx (length (text ++ piece)) start)
            k (text ++ piece))
            p)
  Ends-round start text k p h = Ends-bind _ (Advances-text_piece p) λ piece q x.
      Ends-bind _ (Ends-token_size (length (text ++ piece)) start q) λ _ r (y, fits).
        let both = Progress-weaken d ctx (omega arith) (Progress-trans d ctx x y) in
        Ends-map (h piece r both fits) λ _ s (z, short).
          (Progress-weaken d ctx (omega arith) (Progress-trans d ctx both z), short)

  Ends-some :
      {p : Parser} {m : Outcome Bytes}
      → Ends (ReadsShort d ctx 1 p) m
      → Ends (ReadsShort d ctx 0 p) m
  Ends-some h = Ends-map h λ _ q (x, short). (Progress-weaken d ctx (omega arith) x, short)

  Ends-text_loop :
      (start : SourceLocation) (fuel : ℕ) (text : Bytes) (p : Parser)
      → length p.chars < fuel
      → Short ctx text
      → Ends (ReadsShort d ctx 0 p) (text_loop ctx start fuel text p)
  unfolding text_loop
  Ends-text_loop start zero text p h short = absurd (omega arith)
  Ends-text_loop start (suc fuel) text p h short =
      Ends-if (eof p.chars || peek p.chars == b'<') (λ _. returns (Progress-refl d ctx p, short))
        (λ _. Ends-some (
          Ends-round start text (text_loop ctx start fuel) p λ piece q x fits.
            Ends-text_loop start fuel (text ++ piece) q (omega (arith, x.shorter)) fits))

  frame_names-mark_text :
      (frames : List ValidationFrame) → frame_names (mark_text frames) ≡ frame_names frames
  unfolding mark_text
  frame_names-mark_text [] = refl
  frame_names-mark_text (frame ∷ frames) = refl

  Advances-note_text : (text : Bytes) (p : Parser) → Advances d ctx 0 p (note_text text p)
  unfolding note_text
  Advances-note_text text p =
      Ends-if (any_of (λ ch. not (is_space_byte ch)) text)
        (λ _. returns (record {
          shorter = omega arith;
          elements = refl;
          names = refl;
          scopes = refl;
          frames = frame_names-mark_text p.validation_stack;
          emitted = Emits-none _ p.calls;
          fits = λ h. h;
          expansions = λ x. x;
        }))
        (λ _. returns (Progress-refl d ctx p))

  Advances-report_text :
      (text : Bytes) (p : Parser) → Short ctx text → Advances d ctx 0 p (report_text text p)
  unfolding report_text
  Advances-report_text [] p short = returns (Progress-refl d ctx p)
  Advances-report_text (ch ∷ text) p short =
      Advances-then d ctx _ (Advances-note_text (ch ∷ text) p)
        λ _ q _. Advances-call d ctx q (characters (ch ∷ text)) refl short

  -- At a character that is not `<` the text has one character at least.
  pub Advances-parse_text :
      (p : Parser)
      → eof p.chars ≡ false
      → (peek p.chars == b'<') ≡ false
      → Advances d ctx 1 p (parse_text ctx p)
  unfolding parse_text
  Advances-parse_text p more other = Ends-bind _ (first_round _ (omega arith)) λ text q (x, short).
      Ends-map (Advances-report_text text q short)
        λ _ r y. Progress-weaken d ctx (omega arith) (Progress-trans d ctx x y)
    where
      first_round :
          (fuel : ℕ)
          → length p.chars < fuel
          → Ends (ReadsShort d ctx 1 p) (text_loop ctx (location ctx p.chars) fuel [] p)
      first_round zero h = absurd (omega arith)
      first_round (suc fuel) h =
          unfold text_loop in
          rw (more, other)
            (Ends-round _ [] (text_loop ctx _ fuel) p
              λ piece q x fits. Ends-text_loop _ fuel _ q (omega (arith, x.shorter)) fits)

  Ends-value_loop :
      (start : SourceLocation) (quote fuel : ℕ) (value : Bytes) (p : Parser)
      → length p.chars < fuel
      → Short ctx value
      → Ends (ReadsShort d ctx 0 p) (value_loop ctx start quote fuel value p)
  unfolding value_loop
  Ends-value_loop start quote zero value p h short = absurd (omega arith)
  Ends-value_loop start quote (suc fuel) value p h short =
      Ends-if (eof p.chars || peek p.chars == quote) (λ _. returns (Progress-refl d ctx p, short))
        (λ _. Ends-bind _ (Advances-require_here _ _ _ p) λ _ o w.
          Ends-map
            (Ends-round start value (value_loop ctx start quote fuel) o λ piece q x fits.
              Ends-value_loop start quote fuel (value ++ piece) q
                (omega (arith, w.shorter, x.shorter)) fits)
            λ _ r (y, fits). (Progress-weaken d ctx (omega arith) (Progress-trans d ctx w y), fits))

  pub Ends-parse_attribute_value :
      (p : Parser) → Ends (ReadsShort d ctx 0 p) (parse_attribute_value ctx p)
  unfolding parse_attribute_value
  Ends-parse_attribute_value p = Ends-bind _ (Advances-require_here _ _ _ p) λ _ q x.
      Ends-bind _ (Advances-some d ctx (Advances-advance d ctx q)) λ _ r y.
        Ends-bind _ (Ends-value_loop _ _ _ [] r (omega arith) (omega arith)) λ value s (z, short).
          Ends-bind _ (Advances-some d ctx (Advances-expect d ctx _ _ s)) λ _ t w.
            returns
              (Progress-trans d ctx x (Progress-trans d ctx y (Progress-trans d ctx z w)), short)
