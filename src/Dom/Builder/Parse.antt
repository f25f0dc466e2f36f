-- ===== src/Dom/Builder/Parse.antt =====
-- `parse` to a document: the document that it returns is the one that the parser's calls describe.
use xmlparser.Prelude.{
  range, ℕ, suc, ◌<◌, ◌≤◌, List, [], length, some, ◌≡◌, ◌≢◌, sym, ap, subst, ◌∙◌, arith, Bytes,
}
use xmlparser.Errors.{Result, ok, throws, stuck, XmlParseException, ◌>>=◌}
use xmlparser.Options.{ParserOptions}
use xmlparser.Sax.{Call}
use xmlparser.Dom.{Heap}
use xmlparser.Dom.Document.{Document, new_document}
use xmlparser.Dom.Document.Move.{Holds, move_construct-Holds}
use xmlparser.Dom.Tree.{nodes_of, Shows, Shows-count}
use xmlparser.Dom.Builder.{DomBuilder, new_dom_builder, receive_all, move_out, parse_after, parse}
use xmlparser.Dom.Builder.Insert.{too_many}
use xmlparser.Dom.Builder.After.{After}
use xmlparser.Dom.Builder.Grow.{Grown, built, full}
use xmlparser.Dom.Builder.Whole.{root, Tidy-new, Grown-OneElement}
use xmlparser.Dom.Builder.Settled.{Settled, good, broke, Settled-receive_all}
use xmlparser.Parser.State.{Parser, Outcome, done, raises}
use xmlparser.Parser.Run.{parse_xml_document}
use xmlparser.Parser.Progress.{Ends, returns, threw}
use xmlparser.Parser.Progress.Run.{Complete, parse_xml_document-Complete}

-- What `parse` gives, by what the parser does with the builder as its client.
pub data Parsed (options : ParserOptions)
    : Outcome (Unit {0}) → Result (Document × Heap) → Type 0 where
  shown :
      {q : Parser} {document : Document} {heap : Heap}
      → nodes_of q.calls ≤ options.max_dom_nodes
      → Holds document q.calls heap
      → Parsed options (done tt q) (ok (document, heap))
  too_large :
      {q : Parser}
      → options.max_dom_nodes < nodes_of q.calls
      → Parsed options (done tt q) (throws too_many)
  refused :
      {e thrown : XmlParseException} {calls : List Call}
      → Parsed options (raises e calls) (throws thrown)

document-ext :
    (d : Document) (node : ℕ) (storage : List ℕ)
    → d.node ≡ node
    → d.storage ≡ storage
    → d ≡ record { node = node; storage = storage }
document-ext d node storage e f =
    ap (λ (x : ℕ). record d { node = x }) e
    ∙ ap (λ (l : List ℕ). record { node = node; storage = l }) f

module _ (options : ParserOptions) where
  Parsed-built :
      (q : Parser) (b : DomBuilder)
      → After options (new_dom_builder []) 0 root q.calls b
      → Parsed options (done tt q) (move_out b)
  unfolding move_out new_dom_builder new_document
  Parsed-built q b a =
      let size : length b.heap ≡ suc (nodes_of q.calls) = omega (arith, Shows-count a.shows) in
      let shows : Shows 0 b.heap 0 1 a.roots q.calls (suc (nodes_of q.calls)) =
        subst (λ (to : ℕ). Shows 0 b.heap 0 1 a.roots q.calls to) size a.shows in
      let count : b.node_count ≡ nodes_of q.calls = omega (arith, size, a.tidy.size) in
      let (later, run, holds) = move_construct-Holds b.heap a.roots q.calls size a.at_this shows in
      let same : b.document ≡ record { node = 0; storage = range 1 (nodes_of q.calls) } =
        document-ext b.document _ _ a.tidy.at_document
          (a.tidy.stored ∙ ap (λ (n : ℕ). range 1 n) count) in
      rw (same, run) (shown (omega (arith, count, a.tidy.bound)) holds)

  Parsed-done :
      (q : Parser) (r : Result DomBuilder)
      → Grown options (new_dom_builder []) 0 root q.calls r
      → Parsed options (done tt q) (r >>= move_out)
  unfolding new_dom_builder new_document
  Parsed-done q _ (built {later = b} a) = Parsed-built q b a
  Parsed-done q _ (full over) = too_large (omega (arith, over))

  Parsed-raises :
      (e : XmlParseException) (calls : List Call) (r : Result DomBuilder)
      → Settled options r
      → Parsed options (raises e calls) (r >>= λ _. throws e)
  Parsed-raises e calls _ (good tidy alive) = refused
  Parsed-raises e calls _ broke = refused

  Parsed-after :
      (o : Outcome (Unit {0}))
      → Ends (λ _ q. Complete options q) o
      → Parsed options o (parse_after options o)
  unfolding parse_after new_dom_builder new_document
  Parsed-after _ (returns {q = q} c) = Parsed-done q _ (
      subst
        (λ (l : List Call).
          Grown options (new_dom_builder []) 0 root l (receive_all options l (new_dom_builder [])))
        (sym c.reported) (Grown-OneElement options options.max_depth c.made c.one))
  Parsed-after _ (threw {e} {calls}) =
      Parsed-raises e calls _
        (Settled-receive_all options calls (new_dom_builder []) (Tidy-new options) tt)

-- `parse` to a document returns or throws on every input, if the caller's resolver of external
-- identifiers returns or throws. If the parser throws, so does it. If the parser returns, then
-- `parse` throws the resource limit where the calls make more than `max_dom_nodes` nodes, and
-- otherwise returns a document that is the tree of the parser's calls: each element with the
-- attributes of its `start_element` and, as its children and in their order, the nodes of the calls
-- up to its `end_element`. All nodes lie in the heap in document order, each is in one place of the
-- tree, and the returned document owns and stores exactly these.
pub parse-Parsed :
    (xml : Bytes) (options : ParserOptions)
    → ((resolver : Bytes → Result Bytes) (id : Bytes)
        → options.external_dtd_resolver ≡ some resolver
        → resolver id ≢ stuck)
    → Parsed options (parse_xml_document xml options) (parse xml options)
unfolding parse
parse-Parsed xml options ends =
    Parsed-after options (parse_xml_document xml options)
      (parse_xml_document-Complete xml options ends)
