-- ===== src/Parser/Progress/Markup.antt =====
-- Comments, CDATA sections, processing instructions, the XML declaration and `skip_misc`.
use xmlparser.Prelude.{
  ℕ, zero, suc, ◌+◌, ◌≤◌, ◌<◌, Bool, true, false, not, ◌&&◌, [], ◌∷◌, length, Bytes, codes, ◌≡◌,
  refl, arith, if◌then◌else◌,
}
use xmlparser.Chars.{is_space}
use xmlparser.Sax.{Call, comment, cdata, processing_instruction}
use xmlparser.Parser.State.{Context, Parser, Chars, M, Outcome, pure, then_run}
use xmlparser.Parser.Cursor.{eof, peek, peek_at, starts_with, skip_spaces}
use xmlparser.Parser.Markup.{
  call_if, parse_comment, parse_cdata, parse_processing_instruction, moved, misc_round,
  skip_misc_loop, skip_misc, check_declared_version, parse_xml_declaration,
  parse_xml_declaration_if_present,
}
use xmlparser.Parser.Events.{is_atom, Fits}
use xmlparser.Parser.Progress.{
  Advances, Ends, returns, Progress, Progress-refl, Progress-trans, Progress-chars, Progress-weaken,
  Advances-bind, Advances-require, Advances-call, Advances-then, Advances-some, Ends-map, Ends-bind,
  Ends-if,
}
use xmlparser.Parser.Progress.Bounds.{
  Short, ReadsShort, Ends-parse_name, Ends-text_until, Ends-comment_text, Ends-cdata_text,
}
use xmlparser.Parser.Progress.Scans.{
  Advances-expect_sequence, Advances-skip_whitespace, Advances-text_until, length-skip_spaces,
}

module _ (d : ℕ) (ctx : Context) where
  -- A short token, and what follows.
  Advances-read {κ} :
      {B : Type κ} {k : ℕ} {p : Parser} {m : Outcome Bytes} {f : Bytes → M B}
      → Ends (ReadsShort d ctx k p) m
      → ((text : Bytes) (q : Parser) → Short ctx text → Advances d ctx 0 q (f text q))
      → Advances d ctx 0 p (then_run m f)
  Advances-read {f = f} h g = Ends-bind f h λ text q (a, short).
      Ends-map (g text q short)
        λ _ r x. Progress-weaken d ctx (omega arith) (Progress-trans d ctx a x)

  Advances-call_if :
      (b : Bool) (c : Call) (p : Parser)
      → is_atom c ≡ true
      → Fits ctx.options c
      → Advances d ctx 0 p (call_if b c p)
  Advances-call_if true c p a f = Advances-call d ctx p c a f
  Advances-call_if false c p a f = returns (Progress-refl d ctx p)

  pub Advances-parse_comment : (b : Bool) (p : Parser) → Advances d ctx 4 p (parse_comment ctx b p)
  unfolding parse_comment
  Advances-parse_comment b p = Ends-bind _ (Ends-comment_text d ctx p) λ text q (a, short).
      Ends-map (Advances-call_if b (comment text) q refl short)
        λ _ r x. Progress-weaken d ctx (omega arith) (Progress-trans d ctx a x)

  pub Advances-parse_cdata : (p : Parser) → Advances d ctx 9 p (parse_cdata ctx p)
  unfolding parse_cdata
  Advances-parse_cdata p = Ends-bind _ (Ends-cdata_text d ctx p) λ text q (a, short).
      Ends-map (Advances-call d ctx q (cdata text) refl short)
        λ _ r x. Progress-weaken d ctx (omega arith) (Progress-trans d ctx a x)

  pub Advances-parse_processing_instruction :
      (b : Bool) (p : Parser) → Advances d ctx 2 p (parse_processing_instruction ctx b p)
  unfolding parse_processing_instruction
  Advances-parse_processing_instruction b p =
      Advances-bind d ctx {j = 2} {k = 0} _ (Advances-expect_sequence d ctx (codes "<?") _ p)
        λ _ q _. Advances-read (Ends-parse_name d ctx q) λ target r named.
          Advances-then d ctx _ (Advances-require d ctx r _ _ _ _) λ _ s _.
            Advances-then d ctx _ (Advances-skip_whitespace d ctx s) λ _ t _.
              Advances-read (Ends-text_until d ctx _ _ t) λ text u short.
                Advances-then d ctx _
                  (Advances-some d ctx (Advances-expect_sequence d ctx (codes "?>") _ u))
                  λ _ v _.
                    Advances-call_if b (processing_instruction target text) v refl (named, short)

  -- A space ahead is skipped.
  spaces_taken :
      (chars : Chars)
      → (if not (eof chars) && is_space (peek chars) then 1 else 0) + length (skip_spaces chars)
        ≤ length chars
  unfolding eof peek skip_spaces
  spaces_taken [] = omega arith
  spaces_taken (c ∷ chars) = ground (arith, length-skip_spaces chars)

  -- A round of `skip_misc` that consumed takes a character.
  Ends-moved :
      {k : ℕ} (p q : Parser) (m : M (Unit {0}))
      → Progress d ctx 0 p q
      → 1 ≤ k
      → Advances d ctx k q (m q)
      → Ends (λ b r. Progress d ctx (if b then 1 else 0) p r) (moved m q)
  Ends-moved p q m before le h =
      Ends-bind _ h
        λ _ r x. returns (Progress-weaken d ctx (omega arith) (Progress-trans d ctx before x))

  Ends-misc_round :
      (p : Parser) → Ends (λ b q. Progress d ctx (if b then 1 else 0) p q) (misc_round ctx p)
  unfolding misc_round
  Ends-misc_round p =
      let q = record p { chars = skip_spaces p.chars } in
      let skipped : Progress d ctx 0 p q =
        Progress-chars d ctx 0 p (skip_spaces p.chars)
          (omega (arith, length-skip_spaces p.chars)) in
      Ends-if (starts_with (codes "<!--") q.chars)
        (λ _.
          Ends-moved p q (parse_comment ctx true) skipped (omega arith)
            (Advances-parse_comment true q))
        (λ _.
          Ends-if (starts_with (codes "<?") q.chars)
            (λ _.
              Ends-moved p q (parse_processing_instruction ctx true) skipped (omega arith)
                (Advances-parse_processing_instruction true q))
            (λ _. returns (Progress-chars d ctx _ p (skip_spaces p.chars) (spaces_taken p.chars))))

  Advances-skip_misc_loop :
      (fuel : ℕ) (p : Parser)
      → length p.chars < fuel
      → Advances d ctx 0 p (skip_misc_loop ctx fuel p)
  unfolding skip_misc_loop
  Advances-skip_misc_loop zero p h = absurd (omega arith)
  Advances-skip_misc_loop (suc fuel) p h =
      Ends-bind _ (Ends-misc_round p) (again (λ q. Advances-skip_misc_loop fuel q))
    where
      again :
          ((q : Parser) → length q.chars < fuel → Advances d ctx 0 q (skip_misc_loop ctx fuel q))
          → (b : Bool) (q : Parser) → Progress d ctx (if b then 1 else 0) p q
          → Advances d ctx 0 p ((if b then skip_misc_loop ctx fuel else pure tt) q)
      again ih true q x =
          Ends-map (ih q (omega (arith, x.shorter)))
            (λ _ r y. Progress-weaken d ctx (omega arith) (Progress-trans d ctx x y))
      again ih false q x = returns x

  pub Advances-skip_misc : (p : Parser) → Advances d ctx 0 p (skip_misc ctx p)
  unfolding skip_misc
  Advances-skip_misc p = Advances-skip_misc_loop _ p (omega arith)

  pub Advances-parse_xml_declaration_if_present :
      (p : Parser) → Advances d ctx 0 p (parse_xml_declaration_if_present ctx p)
  unfolding parse_xml_declaration_if_present parse_xml_declaration check_declared_version
  Advances-parse_xml_declaration_if_present p =
      Ends-if (starts_with (codes "<?xml") p.chars && is_space (peek_at 5 p.chars))
        (λ _.
          Advances-then d ctx _
            (Advances-some d ctx (Advances-expect_sequence d ctx (codes "<?xml") _ p))
            λ _ q _. Advances-then d ctx _ (Advances-require d ctx q _ _ _ _) λ _ r _.
              Advances-then d ctx _ (Advances-text_until d ctx _ _ [] r) λ text s _.
                Advances-then d ctx _
                  (Advances-some d ctx (Advances-expect_sequence d ctx (codes "?>") _ s))
                  λ _ t _.
                    Advances-then d ctx _ (Advances-require d ctx t _ _ _ _)
                      λ _ u _. Advances-require d ctx u _ _ _ _)
        (λ _. returns (Progress-refl d ctx p))
