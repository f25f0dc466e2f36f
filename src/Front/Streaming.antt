-- ===== src/Front/Streaming.antt =====
-- The streaming parser against the parse of the whole text.
use xmlparser.Prelude.{
  ◌+◌, ◌≤◌, ◌<◌, false, List, [], ◌∷◌, ◌++◌, append_assoc, append-nil, Bool-cases, inl, inr, true,
  leb, if◌then◌else◌, ◌≡◌, refl, sym, ap, ◌∙◌, arith, length, length-append, concat, Bytes,
}
use xmlparser.Errors.{start_location, resource_limit, Result, ok, throws, exception, ◌>>=◌}
use xmlparser.Parser.Run.{parse_xml_document}
use xmlparser.Front.{SaxParser, feed, finish}

-- A client that feeds one chunk after another.
abbrev pub feed_all : List Bytes → SaxParser → Result SaxParser
feed_all [] s = ok s
feed_all (chunk ∷ chunks) s = feed chunk s >>= λ t. feed_all chunks t

abbrev Fed : List Bytes → SaxParser → Type 0
Fed chunks s = feed_all chunks s ≡ ok (record s { buffer = s.buffer ++ concat chunks })

abbrev pub too_large : Result SaxParser
too_large = throws (exception resource_limit start_location "XML input exceeds max_document_bytes")

feed-ok :
    (chunk : Bytes) (s : SaxParser)
    → s.finished ≡ false
    → length s.buffer + length chunk ≤ s.options.max_document_bytes
    → feed chunk s ≡ ok (record s { buffer = s.buffer ++ chunk })
unfolding feed
feed-ok chunk s open_ room = ground arith

feed_all-Fed :
    (chunks : List Bytes) (s : SaxParser)
    → s.finished ≡ false
    → length s.buffer + length (concat chunks) ≤ s.options.max_document_bytes
    → Fed chunks s
feed_all-Fed [] s live room =
    ap (λ (b : Bytes). ok (record s { buffer = b })) (sym (append-nil s.buffer))
feed_all-Fed (chunk ∷ chunks) s live room =
    let total = length-append chunk (concat chunks) in
    let joined = length-append s.buffer chunk in
    rw (feed-ok chunk s live (omega (arith, total))) (
      feed_all-Fed chunks (record s { buffer = s.buffer ++ chunk }) live
        (omega (arith, total, joined))
      ∙ ap (λ (b : Bytes). ok (record s { buffer = b }))
          (append_assoc s.buffer chunk (concat chunks)))

-- A client that feeds chunks of an admissible total size to a parser that is not finished is never
-- refused, and then `finish` does what parsing the whole text at once does, however it was cut.
pub feed_all-finish :
    (chunks : List Bytes) (s : SaxParser)
    → s.finished ≡ false
    → length s.buffer + length (concat chunks) ≤ s.options.max_document_bytes
    → (t : SaxParser) × (feed_all chunks s ≡ ok t)
      × ((finish t).1 ≡ parse_xml_document (s.buffer ++ concat chunks) s.options)
unfolding finish
feed_all-finish chunks s live room =
    (record s { buffer = s.buffer ++ concat chunks }, feed_all-Fed chunks s live room, refl)

feed-limit :
    (chunk : Bytes) (s : SaxParser)
    → s.finished ≡ false
    → s.options.max_document_bytes < length s.buffer + length chunk
    → feed chunk s ≡ too_large
unfolding feed
feed-limit chunk s live over = ground arith

-- A client that feeds chunks, however the input is cut, to a parser that is not finished and whose
-- buffer is within max_document_bytes: if the buffer with all the chunks is within the limit too,
-- then none is refused, and the buffer is extended by them in their order; else the client gets an
-- error of the kind ResourceLimit.
pub feed_all-decides :
    (chunks : List Bytes) (s : SaxParser)
    → s.finished ≡ false
    → length s.buffer ≤ s.options.max_document_bytes
    → feed_all chunks s ≡ (
        if leb (length (s.buffer ++ concat chunks)) s.options.max_document_bytes
        then ok (record s { buffer = s.buffer ++ concat chunks })
        else too_large)
feed_all-decides [] s live room =
    let within : leb (length (s.buffer ++ [])) s.options.max_document_bytes ≡ true =
      ground (arith, room, length-append s.buffer []) in
    rw (within) (feed_all-Fed [] s live (omega (arith, room)))
feed_all-decides (chunk ∷ chunks) s live room =
    let joined = length-append s.buffer chunk in
    let same = append_assoc s.buffer chunk (concat chunks) in
    let total = length-append (s.buffer ++ chunk) (concat chunks) in
    elim (Bool-cases (leb (length s.buffer + length chunk) s.options.max_document_bytes)) [
      | inl small ↦
          rw (feed-ok chunk s live (ground (arith, small)), ← same)
            (feed_all-decides chunks (record s { buffer = s.buffer ++ chunk }) live
              (ground (arith, small, joined)))
      | inr over ↦
          let beyond : leb (length (s.buffer ++ (chunk ++ concat chunks)))
                s.options.max_document_bytes
              ≡ false =
            rw (← same) (ground (arith, over, joined, total)) in
          rw (feed-limit chunk s live (ground (arith, over)), beyond) refl
    ]
