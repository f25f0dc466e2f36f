-- ===== src/Decode/Total.antt =====
-- The decoders end: every round takes a byte at least, and nothing is read out of range.
use xmlparser.Prelude.{
  ℕ, zero, suc, ◌+◌, ◌-◌, ◌*◌, ◌^◌, ◌≤◌, ◌<◌, bit_and, bit_or, Bool, true, false, not, [], ◌∷◌, ltb,
  leb, leb→le, ◌==◌, within, length, drop, length-drop, is_empty, Bytes, ◌≡◌, refl, arith,
  if◌then◌else◌, String,
}
use xmlparser.Errors
use xmlparser.Errors.{
  SourceLocation, start_location, ErrorKind, Result, ok, throws, stuck, require, ◌>>=◌, ◌>>◌,
}
use xmlparser.Options.{XmlVersion, ParserOptions}
use xmlparser.Chars.{is_valid_xml_char}
use xmlparser.Decode.{
  DecodedDocument, LocationTracker, track, is_scalar, lead_byte, continuations, decode_utf8_char,
  decode_utf8_loop, decode_utf8, read_unit, decode_trail, decode_utf16_unit, decode_utf16_char,
  decode_utf16_loop, decode_utf16, non_empty, choose_decoder, decode_document,
}

-- A result is thrown or satisfies `P`.
pub data Settles {A : Type 0} (P : A → Type 0) : Result A → Type 0 where
  gives : {a : A} → P a → Settles P (ok a)
  fails : {e : Errors.XmlParseException} → Settles P (throws e)

Settles-bind :
    {A B : Type 0} {P : A → Type 0} {Q : B → Type 0} {m : Result A} (f : A → Result B)
    → Settles P m
    → ((a : A) → P a → Settles Q (f a))
    → Settles Q (m >>= f)
Settles-bind f (gives {a} h) k = k a h
Settles-bind f fails k = fails

Settles-require :
    {A : Type 0} {P : A → Type 0} (test : Bool) (kind : ErrorKind) (place : SourceLocation)
    (message : String) (r : Result A)
    → (test ≡ true → Settles P r)
    → Settles P (require test kind place message >> r)
Settles-require true kind place message r h = h refl
Settles-require false kind place message r h = fails

Settles-if :
    {A : Type 0} {P : A → Type 0} (b : Bool) {x y : Result A}
    → Settles P x
    → Settles P y
    → Settles P (if b then x else y)
Settles-if true hx hy = hx
Settles-if false hx hy = hy

Settles-map :
    {A : Type 0} {P Q : A → Type 0} {m : Result A}
    → Settles P m
    → ((a : A) → P a → Q a)
    → Settles Q m
Settles-map (gives {a} h) k = gives (k a h)
Settles-map fails k = fails

-- A width that the input has room for.
abbrev Fits : Bytes → ℕ × ℕ → Type 0
Fits bytes (value, width) = (0 < width) × (width ≤ length bytes)

Settles-lead_byte :
    (place : SourceLocation) (byte : ℕ) → Settles (λ r. 0 < r.1) (lead_byte place byte)
unfolding lead_byte
Settles-lead_byte place byte = Settles-if (ltb byte 0x80) (gives (omega arith)) (
    Settles-if (bit_and byte 0xE0 == 0xC0)
      (Settles-if (bit_and byte 0x1F == 0) fails (gives (omega arith)))
      (Settles-if (bit_and byte 0xF0 == 0xE0) (gives (omega arith))
        (Settles-if (bit_and byte 0xF8 == 0xF0) (gives (omega arith)) fails)))

Settles-continuations :
    (place : SourceLocation) (n value : ℕ) (bytes : Bytes)
    → n ≤ length bytes
    → Settles (λ _. Unit {0}) (continuations place n value bytes)
unfolding continuations
Settles-continuations place zero value bytes h = gives tt
Settles-continuations place (suc n) value [] h = absurd (omega arith)
Settles-continuations place (suc n) value (byte ∷ bytes) h =
    Settles-require (bit_and byte 0xC0 == 0x80) _ _ _ _
      λ _. Settles-continuations place n _ bytes (omega arith)

Settles-decode_utf8_char :
    (version : XmlVersion) (place : SourceLocation) (byte : ℕ) (bytes : Bytes)
    → Settles (Fits (byte ∷ bytes)) (decode_utf8_char version place (byte ∷ bytes))
unfolding decode_utf8_char
Settles-decode_utf8_char version place byte bytes =
    Settles-bind _ (Settles-lead_byte place byte) λ (bits, width) pos.
      Settles-require (leb width (length (byte ∷ bytes))) _ _ _ _ λ room.
        let enough = leb→le width (length (byte ∷ bytes)) room in
        Settles-bind _ (Settles-continuations place (width - 1) bits bytes (omega (arith, enough)))
          λ value _.
            Settles-require (is_scalar width value) _ _ _ _ λ _.
              Settles-require (is_valid_xml_char value version) _ _ _ _ λ _. gives (pos, enough)

Settles-decode_utf8_loop :
    (version : XmlVersion) (fuel : ℕ) (t : LocationTracker) (offset : ℕ) (bytes : Bytes)
    → length bytes ≤ fuel
    → Settles (λ _. Unit {0}) (decode_utf8_loop version fuel t offset bytes)
unfolding decode_utf8_loop
Settles-decode_utf8_loop version fuel t offset [] h = gives tt
Settles-decode_utf8_loop version zero t offset (byte ∷ bytes) h = absurd (omega arith)
Settles-decode_utf8_loop version (suc fuel) t offset (byte ∷ bytes) h =
    Settles-bind _ (Settles-decode_utf8_char version _ byte bytes) λ (value, width) (pos, room).
      Settles-bind _
        (Settles-decode_utf8_loop version fuel (track t value) (offset + width)
          (drop width (byte ∷ bytes)) (omega (arith, length-drop width (byte ∷ bytes))))
        λ _ _. gives tt

Settles-decode_trail :
    (little : Bool) (place : SourceLocation) (unit : ℕ) (bytes : Bytes)
    → Settles (λ r. (0 < r.1) × (r.1 ≤ 2 + length bytes)) (decode_trail little place unit bytes)
unfolding decode_trail
Settles-decode_trail little place unit (first ∷ second ∷ bytes) =
    let trail = read_unit little first second in
    Settles-require (within 0xDC00 0xDFFF trail) _ _ _ _ λ _.
      gives {a = (0x10000 + bit_or ((unit - 0xD800) * 2 ^ 10) (trail - 0xDC00), 4)}
        (omega arith, omega arith)
Settles-decode_trail little place unit (first ∷ []) = fails
Settles-decode_trail little place unit [] = fails

Settles-decode_utf16_unit :
    (little : Bool) (place : SourceLocation) (bytes : Bytes)
    → Settles (Fits bytes) (decode_utf16_unit little place bytes)
unfolding decode_utf16_unit
Settles-decode_utf16_unit little place (first ∷ second ∷ bytes) =
    let unit = read_unit little first second in
    Settles-if (within 0xD800 0xDBFF unit)
      (Settles-map (Settles-decode_trail little place unit bytes)
        λ r (pos, room). (pos, omega (arith, room)))
      (Settles-if (within 0xDC00 0xDFFF unit) fails
        (gives {a = (unit, 2)} (omega arith, omega arith)))
Settles-decode_utf16_unit little place (first ∷ []) = fails
Settles-decode_utf16_unit little place [] = fails

Settles-decode_utf16_char :
    (version : XmlVersion) (little : Bool) (place : SourceLocation) (bytes : Bytes)
    → Settles (Fits bytes) (decode_utf16_char version little place bytes)
unfolding decode_utf16_char
Settles-decode_utf16_char version little place bytes =
    Settles-bind _ (Settles-decode_utf16_unit little place bytes) λ (value, width) fits.
      Settles-require (is_valid_xml_char value version) _ _ _ _ λ _. gives fits

Settles-decode_utf16_loop :
    (version : XmlVersion) (little : Bool) (fuel : ℕ) (t : LocationTracker) (offset : ℕ)
    (bytes : Bytes)
    → length bytes ≤ fuel
    → Settles (λ _. Unit {0}) (decode_utf16_loop version little fuel t offset bytes)
unfolding decode_utf16_loop
Settles-decode_utf16_loop version little fuel t offset [] h = gives tt
Settles-decode_utf16_loop version little zero t offset (byte ∷ bytes) h = absurd (omega arith)
Settles-decode_utf16_loop version little (suc fuel) t offset (byte ∷ bytes) h =
    Settles-bind _ (Settles-decode_utf16_char version little _ (byte ∷ bytes))
      λ (value, width) (pos, room).
        Settles-bind _
          (Settles-decode_utf16_loop version little fuel (track t value) (offset + width)
            (drop width (byte ∷ bytes)) (omega (arith, length-drop width (byte ∷ bytes))))
          λ _ _. gives tt

Settles-non_empty :
    (place : SourceLocation) {r : Result DecodedDocument}
    → Settles (λ _. Unit {0}) r
    → Settles (λ d. is_empty d.chars ≡ false) (r >>= non_empty place)
Settles-non_empty place h =
    Settles-bind _ h
      λ d _. Settles-require (not (is_empty d.chars)) _ _ _ _ λ e. gives (ground arith)

Settles-decode_utf8 :
    (xml : Bytes) (start : ℕ) (options : ParserOptions)
    → Settles (λ _. Unit {0}) (decode_utf8 xml start options)
unfolding decode_utf8
Settles-decode_utf8 xml start options =
    Settles-decode_utf8_loop _ _ _ start (drop start xml) (omega (arith, length-drop start xml))

Settles-decode_utf16 :
    (xml : Bytes) (little : Bool) (options : ParserOptions)
    → Settles (λ _. Unit {0}) (decode_utf16 xml little options)
unfolding decode_utf16
Settles-decode_utf16 xml little options =
    Settles-decode_utf16_loop _ little _ _ 2 (drop 2 xml) (omega (arith, length-drop 2 xml))

Settles-choose_decoder :
    (xml : Bytes) (options : ParserOptions)
    → Settles (λ d. is_empty d.chars ≡ false) (choose_decoder xml options)
unfolding choose_decoder
Settles-choose_decoder xml options =
    let utf8 = Settles-decode_utf8 xml in
    let utf16 = Settles-decode_utf16 xml in
    Settles-if _ (Settles-non_empty _ (utf8 3 options)) (
      Settles-if _ (Settles-non_empty _ (utf16 true options)) (
        Settles-if _ (Settles-non_empty _ (utf16 false options))
          (Settles-non_empty _ (utf8 0 options))))

-- On every input, of any bytes and in any encoding, the decoder throws or returns one character at
-- least: it reads nothing out of range, its loops end, and only an input of admissible size that is
-- not empty is accepted.
pub decode_document-Settles :
    (xml : Bytes) (options : ParserOptions)
    → Settles
        (λ d.
          (is_empty d.chars ≡ false)
          × (is_empty xml ≡ false)
          × (length xml ≤ options.max_document_bytes))
        (decode_document xml options)
unfolding decode_document
decode_document-Settles xml options = Settles-require (not (is_empty xml)) _ _ _ _ λ some.
    Settles-require (leb (length xml) options.max_document_bytes) _ _ _ _ λ room.
      Settles-map (Settles-choose_decoder xml options) λ d e. (e, ground arith, leb→le _ _ room)
