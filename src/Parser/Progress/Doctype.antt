-- ===== src/Parser/Progress/Doctype.antt =====
-- The external subset and the DOCTYPE declaration.
use xmlparser.Prelude.{
  ℕ, zero, suc, ◌+◌, ◌≤◌, ◌<◌, Bool, true, false, ◌&&◌, [], ◌∷◌, Option, none, some, ◌==◌, length,
  drop, length-drop, begins_with, find_byte, Bytes, codes, ◌≡◌, ◌≢◌, refl, arith,
}
use xmlparser.Errors.{Result, stuck}
use xmlparser.Options.{is_dtd}
use xmlparser.Parser.State.{Context, Parser, M, scan}
use xmlparser.Parser.Cursor.{peek, starts_with}
use xmlparser.Parser.Doctype.{
  skip_keyword, skip_space_bytes, parse_external_element_declaration, external_element,
  external_round, external_subset_loop, parse_external_subset_text, resolve_with, resolve_external,
  resolve_external_subset_if_needed, parse_system_id, parse_public_id, parse_external_id,
  parse_subset_in_brackets, parse_subset_if_present, parse_doctype, parse_doctype_if_present,
}
use xmlparser.Parser.Progress.{
  Advances, returns, threw, Progress-refl, Advances-then, Advances-some, Ends-if,
}
use xmlparser.Parser.Progress.References.{Advances-lifted}
use xmlparser.Parser.Progress.Scans.{
  Takes-Advances, Advances-advance, Advances-expect_sequence, Advances-expect,
  Advances-skip_whitespace, Advances-parse_name, Advances-parse_quoted_literal,
}
use xmlparser.Parser.Progress.Values.{Advances-require_here}
use xmlparser.Parser.Progress.Dtd.{
  Advances-update_dtd, Advances-declaration_limit, Advances-declare_element,
  Advances-parse_internal_subset,
}

length-skip_space_bytes : (text : Bytes) → length (skip_space_bytes text) ≤ length text
unfolding skip_space_bytes
length-skip_space_bytes [] = omega arith
length-skip_space_bytes (ch ∷ text) = ground (arith, length-skip_space_bytes text)

-- The caller's resolver, if there is one, returns a text or throws.
abbrev pub ResolverEnds : Context → Type 0
ResolverEnds ctx =
    (resolver : Bytes → Result Bytes) (id : Bytes)
    → ctx.options.external_dtd_resolver ≡ some resolver
    → resolver id ≢ stuck

module _ (d : ℕ) (ctx : Context) where
  Advances-external_declaration :
      (declaration : Bytes) (p : Parser)
      → Advances d ctx 0 p (parse_external_element_declaration ctx declaration p)
  unfolding parse_external_element_declaration
  Advances-external_declaration declaration p =
      Advances-then d ctx _ (Advances-declaration_limit d ctx p) λ _ q _.
        Advances-then d ctx _ (Advances-require_here d ctx _ _ _ q)
          λ _ r _. Advances-declare_element d ctx _ _ _ r

  Advances-external_round :
      (again : Bytes → M (Unit {0})) (subset : Bytes) (p : Parser)
      → ((rest : Bytes) (q : Parser)
          → length rest < length subset
          → Advances d ctx 0 q (again rest q))
      → Advances d ctx 0 p (external_round ctx again subset p)
  unfolding external_round
  Advances-external_round again [] p h = returns (Progress-refl d ctx p)
  Advances-external_round again (ch ∷ subset) p h =
      Ends-if (begins_with (codes "<!ELEMENT") (ch ∷ subset))
        (λ _. at (find_byte b'>' (ch ∷ subset))) (λ _. threw)
    where
      at :
          (close : Option ℕ) → Advances d ctx 0 p (external_element ctx again (ch ∷ subset) close p)
      at none = unfold external_element in threw
      at (some n) =
          unfold external_element in
          Advances-then d ctx _ (Advances-external_declaration _ p) λ _ q _.
            h (drop (n + 1) (ch ∷ subset)) q (omega (arith, length-drop (n + 1) (ch ∷ subset)))

  Advances-external_subset_loop :
      (fuel : ℕ) (subset : Bytes) (p : Parser)
      → length subset < fuel
      → Advances d ctx 0 p (external_subset_loop ctx fuel subset p)
  unfolding external_subset_loop
  Advances-external_subset_loop zero subset p h = absurd (omega arith)
  Advances-external_subset_loop (suc fuel) subset p h =
      Advances-external_round _ (skip_space_bytes subset) p λ rest q less.
        Advances-external_subset_loop fuel rest q
          (omega (arith, less, length-skip_space_bytes subset))

  Advances-resolve_external_subset :
      (p : Parser) → ResolverEnds ctx → Advances d ctx 0 p (resolve_external_subset_if_needed ctx p)
  unfolding resolve_external_subset_if_needed
  Advances-resolve_external_subset p ends =
      Ends-if (p.dtd.has_external_subset && is_dtd ctx.options.validation)
        (λ _. by_options ctx.options.allow_external_dtd ctx.options.external_dtd_resolver refl)
        (λ _. returns (Progress-refl d ctx p))
    where
      by_options :
          (allowed : Bool) (resolver : Option (Bytes → Result Bytes))
          → ctx.options.external_dtd_resolver ≡ resolver
          → Advances d ctx 0 p (resolve_external ctx allowed resolver p)
      by_options true (some resolver) e =
          unfold resolve_external resolve_with parse_external_subset_text in
          Advances-then d ctx _
            (Advances-lifted d ctx p (resolver p.dtd.external_system_id) (ends resolver _ e))
            λ subset q _.
              Advances-then d ctx _ (Advances-require_here d ctx _ _ _ q)
                λ _ r _. Advances-external_subset_loop _ subset r (omega arith)
      by_options true none e = unfold resolve_external in threw
      by_options false (some resolver) e = unfold resolve_external in threw
      by_options false none e = unfold resolve_external in threw

  Advances-keyword : (p : Parser) → Advances d ctx 0 p (scan skip_keyword p)
  unfolding skip_keyword
  Advances-keyword p =
      Takes-Advances d ctx 0 p (skip_keyword p.chars) (omega (arith, length-drop 6 p.chars))

  Advances-parse_external_id : (p : Parser) → Advances d ctx 0 p (parse_external_id ctx p)
  unfolding parse_external_id parse_system_id parse_public_id
  Advances-parse_external_id p =
      Ends-if (starts_with (codes "SYSTEM") p.chars)
        (λ _. Advances-then d ctx _ (Advances-keyword p) λ _ q _.
          Advances-then d ctx _ (Advances-skip_whitespace d ctx q) λ _ r _.
            Advances-then d ctx _ (Advances-update_dtd d ctx _ r) λ _ s _.
              Advances-then d ctx _ (Advances-parse_quoted_literal d ctx s) λ id t _.
                Advances-then d ctx _ (Advances-update_dtd d ctx _ t)
                  λ _ u _. Advances-skip_whitespace d ctx u)
        (λ _.
          Ends-if (starts_with (codes "PUBLIC") p.chars)
            (λ _. Advances-then d ctx _ (Advances-keyword p) λ _ q _.
              Advances-then d ctx _ (Advances-skip_whitespace d ctx q) λ _ r _.
                Advances-then d ctx _ (Advances-parse_quoted_literal d ctx r) λ _ s _.
                  Advances-then d ctx _ (Advances-skip_whitespace d ctx s) λ _ t _.
                    Advances-then d ctx _ (Advances-update_dtd d ctx _ t) λ _ u _.
                      Advances-then d ctx _ (Advances-parse_quoted_literal d ctx u) λ id v _.
                        Advances-then d ctx _ (Advances-update_dtd d ctx _ v)
                          λ _ w _. Advances-skip_whitespace d ctx w)
            (λ _. returns (Progress-refl d ctx p)))

  Advances-subset_if_present : (p : Parser) → Advances d ctx 0 p (parse_subset_if_present ctx p)
  unfolding parse_subset_if_present parse_subset_in_brackets
  Advances-subset_if_present p =
      Ends-if (peek p.chars == b'[')
        (λ _. Advances-then d ctx _ (Advances-some d ctx (Advances-advance d ctx p)) λ _ q _.
          Advances-then d ctx _ (Advances-parse_internal_subset d ctx q) λ _ r _.
            Advances-then d ctx _ (Advances-some d ctx (Advances-expect d ctx b']' _ r))
              λ _ s _. Advances-skip_whitespace d ctx s)
        (λ _. returns (Progress-refl d ctx p))

  pub Advances-parse_doctype_if_present :
      (p : Parser) → ResolverEnds ctx → Advances d ctx 0 p (parse_doctype_if_present ctx p)
  unfolding parse_doctype_if_present parse_doctype
  Advances-parse_doctype_if_present p ends =
      Ends-if (starts_with (codes "<!DOCTYPE") p.chars)
        (λ _. Advances-then d ctx _ (Advances-update_dtd d ctx _ p) λ _ q _.
          Advances-then d ctx _
            (Advances-some d ctx (Advances-expect_sequence d ctx (codes "<!DOCTYPE") _ q))
            λ _ r _. Advances-then d ctx _ (Advances-require_here d ctx _ _ _ r) λ _ s _.
              Advances-then d ctx _ (Advances-skip_whitespace d ctx s) λ _ t _.
                Advances-then d ctx _ (Advances-some d ctx (Advances-parse_name d ctx t))
                  λ name u _. Advances-then d ctx _ (Advances-update_dtd d ctx _ u) λ _ v _.
                    Advances-then d ctx _ (Advances-skip_whitespace d ctx v) λ _ w _.
                      Advances-then d ctx _ (Advances-parse_external_id w) λ _ x _.
                        Advances-then d ctx _ (Advances-subset_if_present x) λ _ y _.
                          Advances-then d ctx _
                            (Advances-some d ctx (Advances-expect d ctx b'>' _ y))
                            λ _ z _. Advances-resolve_external_subset z ends)
        (λ _. returns (Progress-refl d ctx p))
