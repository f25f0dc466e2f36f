-- ===== src/Parser/Progress/Dtd.antt =====
-- The declarations of the document type, internal and external.
use xmlparser.Prelude.{
  ℕ, zero, suc, ◌<◌, false, [], Option, none, some, ◌==◌, length, Bytes, codes, ◌≢◌, refl, arith,
}
use xmlparser.Errors.{SourceLocation, stuck}
use xmlparser.Chars.{strip_ascii_space}
use xmlparser.Parser.State.{Context, Parser, DtdState, M, Outcome, then_run, scan}
use xmlparser.Parser.Cursor.{peek, starts_with}
use xmlparser.Parser.Dtd.{
  update_dtd, enforce_dtd_declaration_limit, unparenthesize, children_model, stripped_model,
  parse_element_model, declare_element, read_model, parse_element_declaration, declare_entity,
  parse_entity_declaration, subset_declaration, internal_subset_loop, parse_internal_subset,
}
use xmlparser.Parser.Events.{Emits-none}
use xmlparser.Parser.Progress.{
  Advances, returns, threw, Progress-refl, Advances-bind, Advances-require, Advances-then,
  Advances-weaken, Advances-some, Advances-choice,
}
use xmlparser.Parser.Progress.References.{Advances-lifted}
use xmlparser.Parser.Progress.Markup.{Advances-parse_comment}
use xmlparser.Parser.Progress.Scans.{
  Takes-Advances, length-model_loop, Advances-expect_sequence, Advances-expect,
  Advances-skip_whitespace, Advances-parse_name, Advances-parse_quoted_literal,
}
use xmlparser.Parser.Progress.Values.{Advances-require_here}

parse_element_model-ne-stuck :
    (model : Bytes) (start : SourceLocation) → parse_element_model model start ≢ stuck
unfolding parse_element_model stripped_model
parse_element_model-ne-stuck model start =
    let m = strip_ascii_space model in ground (arith, by_children (unparenthesize m))
  where
    by_children : (body : Option Bytes) → children_model start body ≢ stuck
    by_children none = unfold children_model in cc
    by_children (some body) = unfold children_model in ground arith

module _ (d : ℕ) (ctx : Context) where
  pub Advances-update_dtd :
      (f : DtdState → DtdState) (p : Parser) → Advances d ctx 0 p (update_dtd f p)
  unfolding update_dtd
  Advances-update_dtd f p = returns (record {
    shorter = omega arith;
    elements = refl;
    names = refl;
    scopes = refl;
    frames = refl;
    emitted = Emits-none _ p.calls;
    fits = λ h. h;
    expansions = λ x. x;
  })

  pub Advances-declaration_limit :
      (p : Parser) → Advances d ctx 0 p (enforce_dtd_declaration_limit ctx p)
  unfolding enforce_dtd_declaration_limit
  Advances-declaration_limit p =
      Advances-then d ctx _ (Advances-update_dtd _ p) λ _ q _. Advances-require_here d ctx _ _ _ q

  pub Advances-declare_element :
      (start : SourceLocation) (name model : Bytes) (p : Parser)
      → Advances d ctx 0 p (declare_element start name model p)
  unfolding declare_element
  Advances-declare_element start name model p =
      Advances-then d ctx _ (Advances-require d ctx p _ _ _ _) λ _ q _.
        Advances-then d ctx _
          (Advances-lifted d ctx q (parse_element_model model start)
            (parse_element_model-ne-stuck model start))
          λ declaration r _. Advances-update_dtd _ r

  Advances-model_loop : (p : Parser) → Advances d ctx 0 p (scan read_model p)
  unfolding read_model
  Advances-model_loop p =
      Takes-Advances d ctx 0 p (read_model p.chars)
        (omega (arith, length-model_loop ctx p.chars []))

  Advances-parse_element_declaration :
      (p : Parser) → Advances d ctx 1 p (parse_element_declaration ctx p)
  unfolding parse_element_declaration
  Advances-parse_element_declaration p =
      Advances-bind d ctx {j = 0} {k = 1} _ (Advances-declaration_limit p) λ _ q _.
        Advances-weaken d ctx {j = 9} (omega arith) (
          Advances-bind d ctx {j = 9} {k = 0} _
            (Advances-expect_sequence d ctx (codes "<!ELEMENT") _ q)
            λ _ r _. Advances-then d ctx _ (Advances-require_here d ctx _ _ _ r) λ _ s _.
              Advances-then d ctx _ (Advances-skip_whitespace d ctx s) λ _ t _.
                Advances-then d ctx _ (Advances-some d ctx (Advances-parse_name d ctx t))
                  λ name u _. Advances-then d ctx _ (Advances-skip_whitespace d ctx u) λ _ v _.
                    Advances-then d ctx _ (Advances-model_loop v) λ model w _.
                      Advances-then d ctx _ (Advances-some d ctx (Advances-expect d ctx b'>' _ w))
                        λ _ x _. Advances-declare_element _ name model x)

  Advances-declare_entity :
      (start : SourceLocation) (name replacement : Bytes) (p : Parser)
      → Advances d ctx 0 p (declare_entity start name replacement p)
  unfolding declare_entity
  Advances-declare_entity start name replacement p =
      Advances-then d ctx _ (Advances-require d ctx p _ _ _ _) λ _ q _. Advances-update_dtd _ q

  Advances-parse_entity_declaration :
      (p : Parser) → Advances d ctx 1 p (parse_entity_declaration ctx p)
  unfolding parse_entity_declaration
  Advances-parse_entity_declaration p =
      Advances-bind d ctx {j = 0} {k = 1} _ (Advances-declaration_limit p) λ _ q _.
        Advances-weaken d ctx {j = 8} (omega arith) (
          Advances-bind d ctx {j = 8} {k = 0} _
            (Advances-expect_sequence d ctx (codes "<!ENTITY") _ q)
            λ _ r _. Advances-then d ctx _ (Advances-require_here d ctx _ _ _ r) λ _ s _.
              Advances-then d ctx _ (Advances-skip_whitespace d ctx s) λ _ t _.
                Advances-then d ctx _ (Advances-require_here d ctx _ _ _ t) λ _ u _.
                  Advances-then d ctx _ (Advances-some d ctx (Advances-parse_name d ctx u))
                    λ name v _. Advances-then d ctx _ (Advances-skip_whitespace d ctx v) λ _ w _.
                      Advances-then d ctx _ (Advances-parse_quoted_literal d ctx w) λ text x _.
                        Advances-then d ctx _ (Advances-require d ctx x _ _ _ _) λ _ y _.
                          Advances-then d ctx _ (Advances-skip_whitespace d ctx y) λ _ z _.
                            Advances-then d ctx _
                              (Advances-some d ctx (Advances-expect d ctx b'>' _ z))
                              λ _ a _. Advances-declare_entity _ name text a)

  Advances-subset_declaration :
      (again : M (Unit {0})) (p : Parser)
      → ((q : Parser) → length q.chars < length p.chars → Advances d ctx 0 q (again q))
      → Advances d ctx 0 p (subset_declaration ctx again p.chars p)
  unfolding subset_declaration
  Advances-subset_declaration again p h =
      Advances-choice d ctx (peek p.chars == b']') _ _ (λ _. returns (Progress-refl d ctx p))
        λ _.
          Advances-choice d ctx (starts_with (codes "<!--") p.chars) _ _
            (λ _. and_again 4 _ (omega arith) (Advances-parse_comment d ctx false p))
            λ _.
              Advances-choice d ctx (starts_with (codes "<!ELEMENT") p.chars) _ _
                (λ _. and_again 1 _ (omega arith) (Advances-parse_element_declaration p))
                λ _.
                  Advances-choice d ctx (starts_with (codes "<!ENTITY") p.chars) _ _
                    (λ _. and_again 1 _ (omega arith) (Advances-parse_entity_declaration p))
                    (λ _. threw)
    where
      and_again :
          (k : ℕ) (m : Outcome (Unit {0}))
          → 0 < k
          → Advances d ctx k p m
          → Advances d ctx 0 p (then_run m (λ _. again))
      and_again k m pos x = Advances-some d ctx (
          Advances-bind d ctx {j = k} {k = 0} (λ _. again) x
            λ _ q y. h q (omega (arith, y.shorter, pos)))

  Advances-internal_subset_loop :
      (fuel : ℕ) (p : Parser)
      → length p.chars < fuel
      → Advances d ctx 0 p (internal_subset_loop ctx fuel p)
  unfolding internal_subset_loop
  Advances-internal_subset_loop zero p h = absurd (omega arith)
  Advances-internal_subset_loop (suc fuel) p h =
      Advances-then d ctx _ (Advances-require_here d ctx _ _ _ p) λ _ q x.
        Advances-then d ctx _ (Advances-skip_whitespace d ctx q) λ _ r y.
          Advances-subset_declaration _ r λ s less.
            Advances-internal_subset_loop fuel s (omega (arith, x.shorter, y.shorter, less))

  pub Advances-parse_internal_subset :
      (p : Parser) → Advances d ctx 0 p (parse_internal_subset ctx p)
  unfolding parse_internal_subset
  Advances-parse_internal_subset p = Advances-internal_subset_loop _ p (omega arith)
