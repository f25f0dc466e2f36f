-- ===== src/Decode/Utf8.antt =====
-- The UTF-8 decoder on whole inputs.
use xmlparser.Prelude.{
  ℕ, zero, suc, ◌+◌, ◌≤◌, ◌<◌, true, List, [], ◌∷◌, ◌++◌, length, length-append, drop, drop-append,
  ◌≡◌, refl, sym, ap, ◌∙◌, arith, Bytes, IsByte, All, All-drop,
}
use native.Mathlib.Nat.{add-zero}
use xmlparser.Errors.{SourceLocation, Result, ok, bind-eq-ok}
use xmlparser.Options.{XmlVersion, ParserOptions}
use xmlparser.Chars.{is_valid_xml_char, utf8_bytes}
use xmlparser.Decode.{
  push_char, DecodedChar, DecodedDocument, LocationTracker, current, track, new_tracker,
  decode_utf8_char, decode_utf8_loop, decode_utf8,
}
use xmlparser.Decode.Places.{
  placed, place_behind, locate, track_all, Tracks-new, Tracks-track_all, current-Tracks,
  locate-placed,
}
use xmlparser.Decode.Utf8Char.{decode_utf8_char-utf8_bytes}
use xmlparser.Decode.Utf8Inverse.{decode_utf8_char_inverse}

-- The UTF-8 text of a list of characters.
abbrev pub encode_utf8 : List ℕ → Bytes
encode_utf8 [] = []
encode_utf8 (v ∷ vs) = utf8_bytes v ++ encode_utf8 vs

abbrev pub AllValid : XmlVersion → List ℕ → Type 0
AllValid version = All (λ v. is_valid_xml_char v version ≡ true)

abbrev pub values : List DecodedChar → List ℕ
values [] = []
values (c ∷ cs) = c.value ∷ values cs

decode_utf8_loop-step :
    (version : XmlVersion) (fuel : ℕ) (t : LocationTracker) (offset : ℕ) (bytes rest : Bytes)
    (v w : ℕ) (document : DecodedDocument)
    → decode_utf8_char version (current t offset) bytes ≡ ok (v, w)
    → drop w bytes ≡ rest
    → decode_utf8_loop version fuel (track t v) (offset + w) rest ≡ ok document
    → decode_utf8_loop version (suc fuel) t offset bytes
      ≡ ok (record document {
        chars = record { value = v; location = current t offset } ∷ document.chars;
      })
unfolding decode_utf8_loop
decode_utf8_loop-step version fuel t offset [] rest v w document e d r =
    unfold decode_utf8_char in cc
decode_utf8_loop-step version fuel t offset (b ∷ bytes) rest v w document e d r = rw (e, d, r)

length-utf8_bytes_pos : (v : ℕ) → 0 < length (utf8_bytes v)
unfolding utf8_bytes
length-utf8_bytes_pos v = ground arith

decode_utf8_loop-encode_utf8 :
    (version : XmlVersion) (vs : List ℕ) (fuel : ℕ) (t : LocationTracker) (offset : ℕ)
    → AllValid version vs
    → length (encode_utf8 vs) ≤ fuel
    → decode_utf8_loop version fuel t offset (encode_utf8 vs)
      ≡ ok (record {
        chars = locate utf8_bytes t offset vs;
        end_location = current (track_all t vs) (offset + length (encode_utf8 vs));
      })
decode_utf8_loop-encode_utf8 version [] zero t offset h f =
    unfold decode_utf8_loop in rw (add-zero offset)
decode_utf8_loop-encode_utf8 version [] (suc fuel) t offset h f =
    unfold decode_utf8_loop in rw (add-zero offset)
decode_utf8_loop-encode_utf8 version (v ∷ vs) zero t offset (ok_char, h) f =
    absurd (omega (arith, length-append (utf8_bytes v) (encode_utf8 vs), length-utf8_bytes_pos v))
decode_utf8_loop-encode_utf8 version (v ∷ vs) (suc fuel) t offset (ok_char, h) f =
    let u = utf8_bytes v in
    let rest = encode_utf8 vs in
    let sum = length-append u rest in
    decode_utf8_loop-step version fuel t offset (u ++ rest) rest v (length u) _
      (decode_utf8_char-utf8_bytes (current t offset) version rest v ok_char) (drop-append u rest)
      (decode_utf8_loop-encode_utf8 version vs fuel (track t v) (offset + length u) h
        (omega (arith, sum, length-utf8_bytes_pos v)))
    ∙ ap
        (λ (n : ℕ). ok (record {
          chars = locate utf8_bytes t offset (v ∷ vs);
          end_location = current (track_all t (v ∷ vs)) n;
        }))
        (omega (arith, sum))

encode_utf8-snoc :
    (xs : List ℕ) (v : ℕ)
    → length (encode_utf8 (xs ++ v ∷ [])) ≡ length (encode_utf8 xs) + length (utf8_bytes v)
encode_utf8-snoc [] v = omega (arith, length-append (utf8_bytes v) [])
encode_utf8-snoc (x ∷ xs) v = omega (
  arith,
  length-append (utf8_bytes x) (encode_utf8 (xs ++ v ∷ [])),
  length-append (utf8_bytes x) (encode_utf8 xs),
  encode_utf8-snoc xs v,
)

-- Decoding the UTF-8 text of any list of XML characters gives these characters, each with the place
-- at which it begins, and the place behind the last one: the line is one more than the line feeds
-- before it, the column one more than the characters behind the last of these, and the offset the
-- number of bytes before it.
pub decode_utf8-encode_utf8 :
    (vs : List ℕ) (options : ParserOptions)
    → AllValid options.version vs
    → decode_utf8 (encode_utf8 vs) 0 options
      ≡ ok (record {
        chars = placed encode_utf8 0 [] vs;
        end_location = place_behind encode_utf8 0 vs;
      })
unfolding decode_utf8
decode_utf8-encode_utf8 vs options h =
    decode_utf8_loop-encode_utf8 options.version vs _ new_tracker 0 h (omega arith)
    ∙ rw
        (
          locate-placed encode_utf8 utf8_bytes encode_utf8-snoc 0 0 new_tracker [] vs Tracks-new
              refl,
          current-Tracks encode_utf8 0 (0 + length (encode_utf8 vs)) (track_all new_tracker vs) vs
              (Tracks-track_all new_tracker [] vs Tracks-new) refl,
        )
        refl

record LoopSound (version : XmlVersion) (bytes : Bytes) (document : DecodedDocument) : Type 0 where
  same_bytes : encode_utf8 (values document.chars) ≡ bytes
  valid : AllValid version (values document.chars)

LoopSound-cons :
    (version : XmlVersion) (v : ℕ) (place : SourceLocation) (rest bytes : Bytes)
    (later document : DecodedDocument)
    → utf8_bytes v ++ rest ≡ bytes
    → is_valid_xml_char v version ≡ true
    → LoopSound version rest later
    → ◌≡◌ {A = Result DecodedDocument} (ok (push_char v place later)) (ok document)
    → LoopSound version bytes document
LoopSound-cons version v place rest bytes later document cut valid l e =
    let same : push_char v place later ≡ document = ground arith in
    rw (← same) (record {
      same_bytes = ap (λ (bs : Bytes). utf8_bytes v ++ bs) l.same_bytes ∙ cut;
      valid = (valid, l.valid);
    })

decode_utf8_loop-LoopSound :
    (version : XmlVersion) (fuel : ℕ) (t : LocationTracker) (offset : ℕ) (bytes : Bytes)
    (document : DecodedDocument)
    → All IsByte bytes
    → decode_utf8_loop version fuel t offset bytes ≡ ok document
    → LoopSound version bytes document
unfolding decode_utf8_loop
decode_utf8_loop-LoopSound version zero t offset [] document h e = ground arith
decode_utf8_loop-LoopSound version (suc fuel) t offset [] document h e = ground arith
decode_utf8_loop-LoopSound version zero t offset (b ∷ bytes) document h e = cc
decode_utf8_loop-LoopSound version (suc fuel) t offset (b ∷ bytes) document h e =
    let ((v, w), one, e₁) =
      bind-eq-ok (decode_utf8_char version (current t offset) (b ∷ bytes)) _ e in
    let (later, more, e₂) =
      bind-eq-ok (decode_utf8_loop version fuel (track t v) (offset + w) (drop w (b ∷ bytes))) _
        e₁ in
    let ((cut, width), valid) =
      decode_utf8_char_inverse (current t offset) version b bytes v w h one in
    let rest =
      decode_utf8_loop-LoopSound version fuel (track t v) (offset + w) (drop w (b ∷ bytes)) later
        (All-drop IsByte w (b ∷ bytes) h) more in
    LoopSound-cons version v (current t offset) _ (b ∷ bytes) later document (sym cut) valid rest e₂

-- Whatever the decoder accepts is the UTF-8 text of the characters that it returns, so overlong
-- forms are refused, and every one of these is a character of the chosen version of XML.
pub decode_utf8_sound :
    (xml : Bytes) (options : ParserOptions) (document : DecodedDocument)
    → All IsByte xml
    → decode_utf8 xml 0 options ≡ ok document
    → (encode_utf8 (values document.chars) ≡ xml) × AllValid options.version (values document.chars)
unfolding decode_utf8
decode_utf8_sound xml options document h e =
    let l = decode_utf8_loop-LoopSound options.version _ new_tracker 0 xml document h e in
    (l.same_bytes, l.valid)
