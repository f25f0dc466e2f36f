-- ===== src/Parser/Progress/Run.antt =====
-- The whole run: it ends, and the client gets the calls of a well-formed document.
use xmlparser.Prelude.{
  All-append, All, ℕ, ◌≤◌, false, List, [], ◌∷◌, ◌++◌, is_empty, some, String, length, Bytes, ◌≡◌,
  ◌≢◌, refl, ap, sym, subst, arith,
}
use xmlparser.Errors.{SourceLocation, ErrorKind, Result, stuck}
use xmlparser.Options.{ParserOptions}
use xmlparser.Decode.{DecodedDocument, decode_document}
use xmlparser.Decode.Total.{Settles, gives, fails, decode_document-Settles}
use xmlparser.Sax.{Call, start_document, end_document}
use xmlparser.Parser.State.{Context, Parser, Chars, call, require, new_parser}
use xmlparser.Parser.Cursor.{eof}
use xmlparser.Parser.Dtd.{require_here}
use xmlparser.Parser.Events.{Fits, Balanced, OneElement, OneElement-Balanced}
use xmlparser.Parser.Run.{parse, context_of, parse_decoded, parse_xml_document}
use xmlparser.Parser.Progress.{
  depth_left, frame_names, Ends, returns, threw, Progress-trans, Ends-bind, Ends-map,
}
use xmlparser.Parser.Progress.Markup.{Advances-skip_misc, Advances-parse_xml_declaration_if_present}
use xmlparser.Parser.Progress.Doctype.{ResolverEnds, Advances-parse_doctype_if_present}
use xmlparser.Parser.Progress.Content.{
  Encloses, Encloses-after, Encloses-before, Encloses-parse_element,
}

-- The state behind a whole document, for options `options`.
pub record Complete (options : ParserOptions) (q : Parser) : Type 0 where
  pub made : List Call
  pub reported : q.calls ≡ start_document ∷ (made ++ end_document ∷ [])
  pub one : OneElement options.max_depth made
  pub balanced : Balanced options.max_depth made
  pub consumed : q.chars ≡ []
  pub no_elements : q.element_stack ≡ []
  pub no_scopes : q.namespace_scopes ≡ []
  pub no_frames : frame_names q.validation_stack ≡ []
  pub expansions : q.entity_expansions ≤ options.max_entity_expansions

-- The state, and the limits of the calls.
abbrev Whole : ParserOptions → Parser → Type 0
Whole options q = Complete options q × All (Fits options) q.calls

Ends-eof :
    (chars : Chars) (p : Parser) (kind : ErrorKind) (place : SourceLocation) (message : String)
    → p.chars ≡ chars
    → Ends (λ _ q. (q ≡ p) × (q.chars ≡ [])) (require (eof chars) kind place message p)
unfolding require eof
Ends-eof [] p kind place message e = returns (refl, e)
Ends-eof (c ∷ chars) p kind place message e = threw

module _ (options : ParserOptions) (document : DecodedDocument) where
  abbrev ctx : Context
  ctx = context_of options document

  -- The state behind the first call.
  abbrev started : Parser
  started = record (new_parser document.chars) { calls = start_document ∷ [] }

  -- The last call, behind all the rest.
  Complete-end :
      (p : Parser)
      → Encloses options.max_depth ctx 1 started p
      → p.chars ≡ []
      → Ends (λ _ q. Whole options q) (call end_document p)
  unfolding call
  Complete-end p a e = returns (
    record {
      made = a.one.0;
      reported = ap (λ (l : List Call). l ++ end_document ∷ []) a.one.1;
      one = a.one.2;
      balanced = OneElement-Balanced a.one.2;
      consumed = e;
      no_elements = a.progress.elements;
      no_scopes = a.progress.scopes;
      no_frames = a.progress.frames;
      expansions = a.progress.expansions (omega arith);
    },
    All-append (Fits options) p.calls (end_document ∷ []) (a.progress.fits (tt, tt)) (tt, tt),
  )

  Ends-parse :
      ResolverEnds ctx → Ends (λ _ q. Whole options q) (parse ctx (new_parser document.chars))
  unfolding parse call require_here
  Ends-parse ends = Ends-bind _ (Advances-parse_xml_declaration_if_present 0 ctx started) λ _ p₁ a₁.
      Ends-bind _ (Advances-skip_misc 0 ctx p₁) λ _ p₂ a₂.
        Ends-bind _ (Advances-parse_doctype_if_present 0 ctx p₂ ends) λ _ p₃ a₃.
          Ends-bind _ (Advances-skip_misc 0 ctx p₃) λ _ p₄ a₄.
            let left =
              Progress-trans 0 ctx a₁ (Progress-trans 0 ctx a₂ (Progress-trans 0 ctx a₃ a₄)) in
            Ends-bind _ (Encloses-parse_element ctx _ p₄ (omega arith)) λ _ p₅ a₅.
              Ends-bind _ (Advances-skip_misc 0 ctx p₅) λ _ p₆ a₆.
                Ends-bind _ (Ends-eof p₆.chars p₆ _ _ _ refl) λ _ p₇ (same, empty).
                  let depth : depth_left ctx p₄ ≡ options.max_depth =
                    omega (arith, ap (λ (l : List Bytes). length l) left.elements) in
                  let all =
                    Encloses-after (depth_left ctx p₄) ctx left
                      (Encloses-before (depth_left ctx p₄) ctx a₅ a₆) in
                  Complete-end p₇
                    (subst (λ (n : ℕ). Encloses n ctx 1 started p₇) depth
                      (subst (λ (q : Parser). Encloses (depth_left ctx p₄) ctx 1 started q)
                        (sym same) all))
                    empty

module _ (xml : Bytes) (options : ParserOptions)
    (ends : (resolver : Bytes → Result Bytes) (id : Bytes)
      → options.external_dtd_resolver ≡ some resolver
      → resolver id ≢ stuck) where
  parse_xml_document-Whole : Ends (λ _ q. Whole options q) (parse_xml_document xml options)
  unfolding parse_xml_document parse_decoded
  parse_xml_document-Whole =
      by_document (decode_document xml options) (decode_document-Settles xml options)
    where
      by_document :
          (r : Result DecodedDocument)
          → Settles
              (λ d.
                (is_empty d.chars ≡ false)
                × (is_empty xml ≡ false)
                × (length xml ≤ options.max_document_bytes))
              r
          → Ends (λ _ q. Whole options q) (parse_decoded options r)
      by_document _ (gives {a = document} h) = Ends-parse options document ends
      by_document _ fails = threw

  -- On every input the parser returns or throws: no loop and no recursion runs for ever, if the
  -- caller's resolver of external identifiers returns or throws as well. If it returns, the input is
  -- read to its end, the stacks are empty, at most `max_entity_expansions` references were expanded,
  -- and the client got `start_document`, then the calls of exactly one root element, in which every
  -- `start_element` has its `end_element` with the same name, nested at most `max_depth` deep, with
  -- calls before and behind it that open and close nothing, and then `end_document`.
  pub parse_xml_document-Complete :
      Ends (λ _ q. Complete options q) (parse_xml_document xml options)
  parse_xml_document-Complete = Ends-map parse_xml_document-Whole λ _ _ w. w.0

  -- If the parser returns (and the caller's resolver returns or throws), then no text, name or
  -- attribute value that the client got is longer than `max_token_bytes`, the text of expanded
  -- entities included, and no element had more attributes than `max_attributes_per_element`.
  pub parse_xml_document-Fits :
      Ends (λ _ q. All (Fits options) q.calls) (parse_xml_document xml options)
  parse_xml_document-Fits = Ends-map parse_xml_document-Whole λ _ _ w. w.1
