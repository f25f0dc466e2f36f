-- ===== src/Parser/Progress/References.antt =====
-- References end: neither the nesting of entities nor the loops over their texts use up the fuel.
use xmlparser.Prelude.{
  ℕ, zero, suc, ◌+◌, ◌*◌, ◌%◌, ◌^◌, ◌≤◌, ◌<◌, [], ◌∷◌, ◌++◌, Option, none, some, ◌==◌, leb, length,
  length-drop, find_byte, Bytes, ◌≢◌, refl, arith, Bool-cases, leb→le, Option-cases, inl, inr,
}
use xmlparser.Errors.{SourceLocation, Result, ok, throws, stuck}
use xmlparser.Options.{XmlVersion, is_dtd}
use xmlparser.Parser.State.{Context, Parser, M, find, diverges, lifted, require, ◌>>◌}
use xmlparser.Parser.References.{
  digit_value, add_digit, digits_loop, reference_digits, character_of, number_of,
  parse_character_reference, predefined, is_numeric, count_expansion, check_depth, declared_piece,
  piece_of, expand_at, resolve_entity, resolve_named, replacement_piece, expand_reference,
  expand_round, expand_loop, expand_entity_text, resolve_reference, parse_reference,
}
use xmlparser.Parser.Events.{Emits-none}
use xmlparser.Parser.Progress.{
  Advances, returns, threw, Progress-refl, Advances-bind, Advances-require, Advances-then,
  Advances-some, Ends-if,
}
use xmlparser.Parser.Progress.Scans.{Advances-expect, Advances-reference_loop}

digits_loop-ne-stuck :
    (start : SourceLocation) (base : ℕ) (text : Bytes) (value : ℕ)
    → digits_loop start base value text ≢ stuck
unfolding digits_loop add_digit
digits_loop-ne-stuck start base [] value = cc
digits_loop-ne-stuck start base (ch ∷ text) value = elim (Option-cases (digit_value ch)) [
  | inl e ↦ rw e (cc)
  | inr (digit, e) ↦
      rw e (ground (arith, digits_loop-ne-stuck start base text ((value * base + digit) % 2 ^ 32)))
]

number_of-ne-stuck : (start : SourceLocation) (d : ℕ × Bytes) → number_of start d ≢ stuck
unfolding number_of
number_of-ne-stuck start (base, []) = cc
number_of-ne-stuck start (base, d ∷ digits) = digits_loop-ne-stuck start base (d ∷ digits) 0

pub parse_character_reference-ne-stuck :
    (version : XmlVersion) (ascii : Bytes) (start : SourceLocation)
    → parse_character_reference version ascii start ≢ stuck
unfolding parse_character_reference character_of
parse_character_reference-ne-stuck version ascii start =
    ground (arith, number_of-ne-stuck start (reference_digits ascii))

module _ (d : ℕ) (ctx : Context) where
  pub Advances-lifted :
      {A : Type 0} (p : Parser) (r : Result A) → r ≢ stuck → Advances d ctx 0 p (lifted r p)
  Advances-lifted p (ok a) h = returns (Progress-refl d ctx p)
  Advances-lifted p (throws e) h = threw
  Advances-lifted p stuck h = absurd (h refl)

  Advances-count_expansion :
      (start : SourceLocation) (p : Parser) → Advances d ctx 0 p (count_expansion ctx start p)
  unfolding count_expansion require
  Advances-count_expansion start p =
      Ends-if (leb (p.entity_expansions + 1) ctx.options.max_entity_expansions)
        (λ le. returns (record {
          shorter = omega arith;
          elements = refl;
          names = refl;
          scopes = refl;
          frames = refl;
          emitted = Emits-none _ p.calls;
          fits = λ h. h;
          expansions = λ _. leb→le _ _ le;
        }))
        (λ _. threw)

  module _ (start : SourceLocation) where
    Advances-piece :
        (nested : Bytes → M Bytes) (name : Bytes) (found : Option Bytes) (p : Parser)
        → ((text : Bytes) → Advances d ctx 0 p (nested text p))
        → Advances d ctx 0 p (piece_of ctx start nested name found p)
    unfolding piece_of
    Advances-piece nested name (some text) p h = returns (Progress-refl d ctx p)
    Advances-piece nested name none p h =
        Ends-if (is_numeric name)
          (λ _. Advances-lifted p _ (parse_character_reference-ne-stuck _ name start))
          (λ _. declared (find name p.dtd.entities))
      where
        declared : (found : Option Bytes) → Advances d ctx 0 p (declared_piece start nested found p)
        declared none = unfold declared_piece in threw
        declared (some text) = unfold declared_piece in h text

    Advances-expand_reference :
        (nested continue : Bytes → M Bytes) (expanded name : Bytes) (p : Parser)
        → ((text : Bytes) (q : Parser) → Advances d ctx 0 q (nested text q))
        → ((text : Bytes) (q : Parser) → Advances d ctx 0 q (continue text q))
        → Advances d ctx 0 p (expand_reference ctx start nested continue expanded name p)
    unfolding expand_reference replacement_piece
    Advances-expand_reference nested continue expanded name p h k =
        Advances-then d ctx _ (Advances-count_expansion start p) λ _ q _.
          Advances-then d ctx _ (Advances-piece nested name _ q (λ text. h text q)) λ piece r _.
            Advances-then d ctx _ (Advances-require d ctx r _ _ start _)
              λ _ s _. k (expanded ++ piece) s

    Advances-expand_round :
        (nested : Bytes → M Bytes) (continue : Bytes → Bytes → M Bytes) (expanded text : Bytes)
        (p : Parser)
        → ((inner : Bytes) (q : Parser) → Advances d ctx 0 q (nested inner q))
        → ((grown rest : Bytes) (q : Parser)
            → length rest < length text
            → Advances d ctx 0 q (continue grown rest q))
        → Advances d ctx 0 p (expand_round ctx start nested continue expanded text p)
    unfolding expand_round expand_at
    Advances-expand_round nested continue expanded [] p h k = returns (Progress-refl d ctx p)
    Advances-expand_round nested continue expanded (ch ∷ text) p h k =
        Ends-if (ch == b'&') (λ _. at (find_byte b';' text)) (λ _. k _ text p (omega arith))
      where
        at :
            (n : Option ℕ)
            → Advances d ctx 0 p (expand_at ctx start nested continue expanded text n p)
        at none = threw
        at (some n) =
            Advances-expand_reference nested _ expanded _ p h
              (λ grown q. k grown _ q (omega (arith, length-drop (suc n) text)))

    -- With no level left the depth is beyond the limit.
    Advances-no_level :
        (depth : ℕ) (q : Parser)
        → ctx.options.max_entity_expansions ≤ 0 + depth
        → Advances {A = Bytes} d ctx 0 q ((check_depth ctx start (depth + 1) >> (λ _. diverges)) q)
    unfolding check_depth require
    Advances-no_level depth q l =
        elim (Bool-cases (leb (depth + 1) ctx.options.max_entity_expansions)) [
          | inl e ↦ absurd (omega (arith, leb→le _ _ e))
          | inr e ↦ rw e threw
        ]

    Advances-expand_loop :
        (levels fuel depth : ℕ) (expanded text : Bytes) (p : Parser)
        → ctx.options.max_entity_expansions ≤ levels + depth
        → length text < fuel
        → Advances d ctx 0 p (expand_loop ctx start levels fuel depth expanded text p)
    unfolding expand_loop check_depth
    Advances-expand_loop levels zero depth expanded text p l f = absurd (omega arith)
    Advances-expand_loop zero (suc fuel) depth expanded text p l f =
        Advances-expand_round _ _ expanded text p (λ inner q. Advances-no_level depth q l)
          (λ grown rest q h. Advances-expand_loop zero fuel depth grown rest q l (omega arith))
    Advances-expand_loop (suc levels) (suc fuel) depth expanded text p l f =
        Advances-expand_round _ _ expanded text p
          (λ inner q. Advances-then d ctx _ (Advances-require d ctx q _ _ start _) λ _ r _.
            Advances-expand_loop levels (suc (length inner)) (depth + 1) [] inner r (omega arith)
              (omega arith))
          (λ grown rest q h.
            Advances-expand_loop (suc levels) fuel depth grown rest q l (omega arith))

    Advances-expand_entity_text :
        (text : Bytes) (p : Parser) → Advances d ctx 0 p (expand_entity_text ctx text start p)
    unfolding expand_entity_text check_depth
    Advances-expand_entity_text text p =
        Advances-then d ctx _ (Advances-require d ctx p _ _ start _)
          λ _ q _. Advances-expand_loop _ _ 0 [] text q (omega arith) (omega arith)

    Advances-resolve_entity :
        (found : Option Bytes) (p : Parser) → Advances d ctx 0 p (resolve_entity ctx start found p)
    unfolding resolve_entity
    Advances-resolve_entity (some text) p = Advances-expand_entity_text text p
    Advances-resolve_entity none p =
        Ends-if (is_dtd ctx.options.validation) (λ _. threw) (λ _. threw)

    Advances-resolve_reference :
        (ascii : Bytes) (p : Parser) → Advances d ctx 0 p (resolve_reference ctx start ascii p)
    unfolding resolve_reference
    Advances-resolve_reference ascii p = named (predefined ascii)
      where
        named : (found : Option Bytes) → Advances d ctx 0 p (resolve_named ctx start ascii found p)
        named (some text) = unfold resolve_named in returns (Progress-refl d ctx p)
        named none =
            unfold resolve_named in
            Ends-if (is_numeric ascii)
              (λ _. Advances-lifted p _ (parse_character_reference-ne-stuck _ ascii start))
              (λ _. Advances-resolve_entity (find ascii p.dtd.entities) p)

  -- From every state the expansion of a reference ends, cyclic entities included; if it returns, a
  -- character at least was read, the stacks are as before, and the count of expansions stays within
  -- its limit.
  pub Advances-parse_reference : (p : Parser) → Advances d ctx 1 p (parse_reference ctx p)
  unfolding parse_reference
  Advances-parse_reference p =
      Advances-bind d ctx {j = 1} {k = 0} _ (Advances-expect d ctx b'&' _ p) λ _ q _.
        Advances-then d ctx _ (Advances-count_expansion _ q) λ _ r _.
          Advances-then d ctx _ (Advances-reference_loop d ctx _ [] r) λ name s _.
            Advances-then d ctx _ (Advances-some d ctx (Advances-expect d ctx b';' _ s))
              λ _ t _. Advances-resolve_reference _ _ t
