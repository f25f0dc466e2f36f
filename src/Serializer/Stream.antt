-- ===== src/Serializer/Stream.antt =====
-- `serialize` to a stream. The stream is an object of the standard library: `good` and the effect of
-- one `<<` are parameters.
use xmlparser.Prelude.{
  ℕ, List, [], ◌∷◌, Bool, true, false, Bytes, String, length, concat, Bool-cases, ◌≡◌, inl, inr,
  arith,
}
use xmlparser.Errors.{start_location, io, exception, Result, ok, throws, require, ◌>>=◌, ◌>>◌}
use xmlparser.Sax.{Call}
use xmlparser.Dom.{Heap}
use xmlparser.Dom.Document.{Document}
use xmlparser.Dom.Document.Move.{Holds}
use xmlparser.Serializer.{serialize_node}
use xmlparser.Serializer.Prints.{Prints, serialize_node-Prints}

module _ {Stream : Type 0} (good : Stream → Bool) (write : Bytes → Stream → Stream) where
  -- One `<<` after the other.
  abbrev pub write_all : List Bytes → Stream → Stream
  write_all [] output = output
  write_all (piece ∷ pieces) output = write_all pieces (write piece output)

  unfoldable pub serialize_to : Heap → ℕ → Stream → Result Stream
  serialize_to heap document output = do
    require (good output) io start_location "XML output stream is not writable"
    pieces ← serialize_node (length heap) heap document
    let written = write_all pieces output
    require (good written) io start_location "XML output stream write failed"
    ok written

  -- All pieces are written, each to a good stream, and the stream is good behind the last one.
  pub data Writes : List Bytes → Stream → Stream → Type 0 where
    ends : {output : Stream} → good output ≡ true → Writes [] output output
    next :
        {piece : Bytes} {pieces : List Bytes} {output final : Stream}
        → good output ≡ true
        → Writes pieces (write piece output) final
        → Writes (piece ∷ pieces) output final

  -- The stream with all pieces written, or an Io error if a write failed on the way.
  pub data Written (pieces : List Bytes) (output : Stream) : Result Stream → Type 0 where
    complete : {final : Stream} → Writes pieces output final → Written pieces output (ok final)
    failed :
        (message : String)
        → ((final : Stream) → Writes pieces output final → ⊥)
        → Written pieces output (throws (exception io start_location message))

  -- A stream that is not good does not become good by a write.
  abbrev pub StaysBad : Type 0
  StaysBad =
      (piece : Bytes) (output : Stream) → good output ≡ false → good (write piece output) ≡ false

  write_all-bad :
      StaysBad
      → (pieces : List Bytes) (output : Stream) → good output ≡ false
      → good (write_all pieces output) ≡ false
  write_all-bad stays [] output e = e
  write_all-bad stays (piece ∷ pieces) output e =
      write_all-bad stays pieces (write piece output) (stays piece output e)

  write_all-Writes :
      StaysBad
      → (pieces : List Bytes) (output : Stream) → good (write_all pieces output) ≡ true
      → Writes pieces output (write_all pieces output)
  write_all-Writes stays [] output e = ends e
  write_all-Writes stays (piece ∷ pieces) output e = elim (Bool-cases (good output)) [
    | inl fine ↦ next fine (write_all-Writes stays pieces (write piece output) e)
    | inr bad ↦
        let late = write_all-bad stays (piece ∷ pieces) output bad in
        absurd (ground (arith, e, late))
  ]

  Writes-good :
      (pieces : List Bytes) (output final : Stream)
      → Writes pieces output final
      → (good output ≡ true) × (good (write_all pieces output) ≡ true)
  Writes-good pieces output final (ends e) = (e, e)
  Writes-good pieces output final (next {piece = piece} {pieces = more} e w) =
      (e, (Writes-good more (write piece output) final w).1)

  serialize_to-pieces :
      StaysBad
      → (heap : Heap) (document : ℕ) (output : Stream) (pieces : List Bytes)
      → serialize_node (length heap) heap document ≡ ok pieces
      → Written pieces output (serialize_to heap document output)
  unfolding serialize_to
  serialize_to-pieces stays heap document output pieces e =
      rw (e) (elim (Bool-cases (good output)) [
        | inr bad ↦ rw (bad) (
            failed "XML output stream is not writable"
              λ final w. ground (arith, bad, (Writes-good pieces output final w).0))
        | inl fine ↦ rw (fine) (elim (Bool-cases (good (write_all pieces output))) [
          | inr bad ↦ rw (bad) (
              failed "XML output stream write failed"
                λ final w. ground (arith, bad, (Writes-good pieces output final w).1))
          | inl all ↦ rw (all) (complete (write_all-Writes stays pieces output all))
        ])
      ])

  -- Written to a stream which no write makes good again, a document that is the tree of a list of
  -- calls is cut into pieces, whose text together is that of the calls. If each piece can be written
  -- to a good stream, and the stream is good behind the last, then this stream comes out; if not, at
  -- whichever piece it fails, an Io error is thrown.
  pub serialize_to-Written :
      StaysBad
      → (document : Document) (calls : List Call) (heap : Heap) (output : Stream)
      → Holds document calls heap
      → (pieces : List Bytes) × Prints calls (concat pieces)
        × Written pieces output (serialize_to heap document.node output)
  serialize_to-Written stays document calls heap output h =
      let (pieces, e, p) = serialize_node-Prints document calls heap h in
      (pieces, p, serialize_to-pieces stays heap document.node output pieces e)
