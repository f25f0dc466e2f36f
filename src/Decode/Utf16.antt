-- ===== src/Decode/Utf16.antt =====
-- The UTF-16 decoder on the UTF-16 text of any characters, in both byte orders.
use xmlparser.Prelude.{
  ℕ, zero, suc, ◌+◌, ◌-◌, ◌*◌, ◌/◌, ◌%◌, ◌^◌, ◌≤◌, ◌<◌, bit_or, Bool, true, false, List, [], ◌∷◌,
  ◌++◌, append_assoc, leb, within, length, length-append, drop, drop-append, ◌≡◌, refl, sym, ap,
  ◌∙◌, arith, inl, inr, if◌then◌else◌, Bool-cases, Bytes,
}
use xmlparser.Prelude.Bits.{bit_or_high, bit_or_low}
use native.Mathlib.Nat.{add-zero}
use xmlparser.Errors
use xmlparser.Errors.{SourceLocation, Result, ok, ◌>>=◌, ◌>>◌}
use xmlparser.Options.{XmlVersion, xml10, xml11, ParserOptions}
use xmlparser.Chars.{is_valid_xml_char, is_valid_xml10_char, is_valid_xml11_char}
use xmlparser.Decode.{
  DecodedDocument, LocationTracker, current, track, new_tracker, push_char, read_unit, decode_trail,
  decode_utf16_unit, decode_utf16_char, decode_utf16_loop, decode_utf16,
}
use xmlparser.Decode.Places.{
  placed, place_behind, locate, track_all, Tracks-new, Tracks-track_all, current-Tracks,
  locate-placed,
}
use xmlparser.Decode.Utf8.{AllValid}

-- The two bytes of a unit.
abbrev pub unit_bytes : Bool → ℕ → Bytes
unit_bytes true unit = unit % 256 ∷ unit / 256 ∷ []
unit_bytes false unit = unit / 256 ∷ unit % 256 ∷ []

-- A character as one unit or as a surrogate pair.
abbrev pub utf16_bytes : Bool → ℕ → Bytes
utf16_bytes little v =
    if leb v 0xFFFF
    then unit_bytes little v
    else unit_bytes little (0xD800 + (v - 0x10000) / 1024)
      ++ unit_bytes little (0xDC00 + (v - 0x10000) % 1024)

abbrev pub encode_utf16 : Bool → List ℕ → Bytes
encode_utf16 little [] = []
encode_utf16 little (v ∷ vs) = utf16_bytes little v ++ encode_utf16 little vs

read_unit-little : (unit : ℕ) → unit < 2 ^ 16 → read_unit true (unit % 256) (unit / 256) ≡ unit
unfolding read_unit
read_unit-little unit h = omega (arith, bit_or_low 8 (unit % 256) (unit / 256) (omega arith))

read_unit-big : (unit : ℕ) → unit < 2 ^ 16 → read_unit false (unit / 256) (unit % 256) ≡ unit
unfolding read_unit
read_unit-big unit h = omega (arith, bit_or_high 8 (unit / 256) (unit % 256) (omega arith))

valid_unit :
    (version : XmlVersion) (v : ℕ)
    → is_valid_xml_char v version ≡ true
    → (v ≤ 0x10FFFF) × (within 0xD800 0xDFFF v ≡ false)
unfolding is_valid_xml_char is_valid_xml10_char is_valid_xml11_char
valid_unit xml10 v h = ground arith
valid_unit xml11 v h = ground arith

-- Reading the first unit.
abbrev unit_case : Bool → SourceLocation → ℕ → Bytes → Result (ℕ × ℕ)
unit_case little place unit rest =
    if within 0xD800 0xDBFF unit
    then decode_trail little place unit rest
    else if within 0xDC00 0xDFFF unit
    then Errors.throw_parse Errors.encoding place "unexpected UTF-16 trailing surrogate"
    else ok (unit, 2)

decode_utf16_unit-unit_bytes :
    (little : Bool) (place : SourceLocation) (unit : ℕ) (rest : Bytes)
    → unit < 2 ^ 16
    → decode_utf16_unit little place (unit_bytes little unit ++ rest)
      ≡ unit_case little place unit rest
unfolding decode_utf16_unit
decode_utf16_unit-unit_bytes true place unit rest h = rw (read_unit-little unit h) refl
decode_utf16_unit-unit_bytes false place unit rest h = rw (read_unit-big unit h) refl

abbrev trail_case : SourceLocation → ℕ → ℕ → Result (ℕ × ℕ)
trail_case place unit trail =
    Errors.require (within 0xDC00 0xDFFF trail) Errors.encoding place
      "invalid UTF-16 surrogate pair"
    >> ok (0x10000 + bit_or ((unit - 0xD800) * 2 ^ 10) (trail - 0xDC00), 4)

trail_case_lem :
    (place : SourceLocation) (high low : ℕ)
    → low < 1024
    → trail_case place (0xD800 + high) (0xDC00 + low) ≡ ok (0x10000 + (high * 1024 + low), 4)
trail_case_lem place high low h =
    let first : 0xD800 + high - 0xD800 ≡ high = omega arith in
    let second : 0xDC00 + low - 0xDC00 ≡ low = omega arith in
    let test : within 0xDC00 0xDFFF (0xDC00 + low) ≡ true = ground arith in
    rw (first, second, test, bit_or_high 10 high low h) refl

decode_trail-unit_bytes :
    (little : Bool) (place : SourceLocation) (high low : ℕ) (rest : Bytes)
    → low < 1024
    → decode_trail little place (0xD800 + high) (unit_bytes little (0xDC00 + low) ++ rest)
      ≡ ok (0x10000 + (high * 1024 + low), 4)
unfolding decode_trail
decode_trail-unit_bytes true place high low rest h =
    rw (read_unit-little (0xDC00 + low) (omega arith)) (trail_case_lem place high low h)
decode_trail-unit_bytes false place high low rest h =
    rw (read_unit-big (0xDC00 + low) (omega arith)) (trail_case_lem place high low h)

length-unit_bytes : (little : Bool) (unit : ℕ) → length (unit_bytes little unit) ≡ 2
length-unit_bytes true unit = refl
length-unit_bytes false unit = refl

decode_utf16_unit-single :
    (little : Bool) (place : SourceLocation) (v : ℕ) (rest : Bytes)
    → v < 2 ^ 16
    → within 0xD800 0xDFFF v ≡ false
    → decode_utf16_unit little place (unit_bytes little v ++ rest) ≡ ok (v, 2)
decode_utf16_unit-single little place v rest h scalar =
    let lead : within 0xD800 0xDBFF v ≡ false = ground arith in
    let trail : within 0xDC00 0xDFFF v ≡ false = ground arith in
    decode_utf16_unit-unit_bytes little place v rest h ∙ rw (lead, trail) refl

decode_utf16_unit-pair :
    (little : Bool) (place : SourceLocation) (high low : ℕ) (rest : Bytes)
    → high < 1024
    → low < 1024
    → decode_utf16_unit little place
        ((unit_bytes little (0xD800 + high) ++ unit_bytes little (0xDC00 + low)) ++ rest)
      ≡ ok (0x10000 + (high * 1024 + low), 4)
decode_utf16_unit-pair little place high low rest h k =
    let first = unit_bytes little (0xD800 + high) in
    let second = unit_bytes little (0xDC00 + low) in
    let lead : within 0xD800 0xDBFF (0xD800 + high) ≡ true = ground arith in
    ap (decode_utf16_unit little place) (append_assoc first second rest)
    ∙ decode_utf16_unit-unit_bytes little place (0xD800 + high) (second ++ rest) (omega arith)
    ∙ rw lead (decode_trail-unit_bytes little place high low rest k)

length-pair : (little : Bool) (a b : ℕ) → length (unit_bytes little a ++ unit_bytes little b) ≡ 4
length-pair little a b = omega (
  arith,
  length-append (unit_bytes little a) (unit_bytes little b),
  length-unit_bytes little a,
  length-unit_bytes little b,
)

-- One character, at the front of any input.
decode_utf16_unit-utf16_bytes :
    (version : XmlVersion) (little : Bool) (place : SourceLocation) (v : ℕ) (rest : Bytes)
    → is_valid_xml_char v version ≡ true
    → decode_utf16_unit little place (utf16_bytes little v ++ rest)
      ≡ ok (v, length (utf16_bytes little v))
decode_utf16_unit-utf16_bytes version little place v rest valid =
    let (small, scalar) = valid_unit version v valid in
    elim (Bool-cases (leb v 0xFFFF)) [
      | inl one ↦ rw one (
          decode_utf16_unit-single little place v rest (ground arith) scalar
          ∙ ap (λ (n : ℕ). ok (v, n)) (sym (length-unit_bytes little v)))
      | inr two ↦
          let high = (v - 0x10000) / 1024 in
          let low = (v - 0x10000) % 1024 in
          let big : 0x10000 ≤ v = ground arith in
          rw two (
            decode_utf16_unit-pair little place high low rest (omega arith) (omega arith)
            ∙ ap (λ (n : ℕ). ok (n, 4)) (omega arith)
            ∙ ap (λ (n : ℕ). ok (v, n)) (sym (length-pair little (0xD800 + high) (0xDC00 + low))))
    ]

length-utf16_bytes_pos : (little : Bool) (v : ℕ) → 0 < length (utf16_bytes little v)
length-utf16_bytes_pos true v = ground arith
length-utf16_bytes_pos false v = ground arith

decode_utf16_loop-step :
    (version : XmlVersion) (little : Bool) (fuel : ℕ) (t : LocationTracker) (offset : ℕ)
    (bytes rest : Bytes) (v w : ℕ) (document : DecodedDocument)
    → decode_utf16_unit little (current t offset) bytes ≡ ok (v, w)
    → is_valid_xml_char v version ≡ true
    → drop w bytes ≡ rest
    → decode_utf16_loop version little fuel (track t v) (offset + w) rest ≡ ok document
    → decode_utf16_loop version little (suc fuel) t offset bytes
      ≡ ok (push_char v (current t offset) document)
unfolding decode_utf16_loop decode_utf16_char
decode_utf16_loop-step version little fuel t offset [] rest v w document e valid d r =
    unfold decode_utf16_unit in cc
decode_utf16_loop-step version little fuel t offset (b ∷ bytes) rest v w document e valid d r =
    rw (e, valid, d, r) refl

decode_utf16_loop-encode_utf16 :
    (version : XmlVersion) (little : Bool) (vs : List ℕ) (fuel : ℕ) (t : LocationTracker)
    (offset : ℕ)
    → AllValid version vs
    → length (encode_utf16 little vs) ≤ fuel
    → decode_utf16_loop version little fuel t offset (encode_utf16 little vs)
      ≡ ok (record {
        chars = locate (utf16_bytes little) t offset vs;
        end_location = current (track_all t vs) (offset + length (encode_utf16 little vs));
      })
decode_utf16_loop-encode_utf16 version little [] fuel t offset h f =
    unfold decode_utf16_loop in rw (add-zero offset) refl
decode_utf16_loop-encode_utf16 version little (v ∷ vs) zero t offset (valid, h) f = absurd (
    omega (
      arith,
      length-append (utf16_bytes little v) (encode_utf16 little vs),
      length-utf16_bytes_pos little v,
    ))
decode_utf16_loop-encode_utf16 version little (v ∷ vs) (suc fuel) t offset (valid, h) f =
    let u = utf16_bytes little v in
    let rest = encode_utf16 little vs in
    let sum = length-append u rest in
    decode_utf16_loop-step version little fuel t offset (u ++ rest) rest v (length u) _
      (decode_utf16_unit-utf16_bytes version little (current t offset) v rest valid) valid
      (drop-append u rest)
      (decode_utf16_loop-encode_utf16 version little vs fuel (track t v) (offset + length u) h
        (omega (arith, sum, length-utf16_bytes_pos little v)))
    ∙ ap
        (λ (n : ℕ). ok (record {
          chars = locate (utf16_bytes little) t offset (v ∷ vs);
          end_location = current (track_all t (v ∷ vs)) n;
        }))
        (omega (arith, sum))

encode_utf16-snoc :
    (little : Bool) (xs : List ℕ) (v : ℕ)
    → length (encode_utf16 little (xs ++ v ∷ []))
      ≡ length (encode_utf16 little xs) + length (utf16_bytes little v)
encode_utf16-snoc little [] v = omega (arith, length-append (utf16_bytes little v) [])
encode_utf16-snoc little (x ∷ xs) v = omega (
  arith,
  length-append (utf16_bytes little x) (encode_utf16 little (xs ++ v ∷ [])),
  length-append (utf16_bytes little x) (encode_utf16 little xs),
  encode_utf16-snoc little xs v,
)

-- Behind the byte order mark, and in both byte orders, decoding the UTF-16 text of any list of XML
-- characters, those beyond the first 65536 as surrogate pairs, gives these characters, each with
-- the place at which it begins, and the place behind the last one: the line is one more than the
-- line feeds before it, the column one more than the characters behind the last of these, and the
-- offset the number of bytes before it, those of the mark included.
pub decode_utf16-encode_utf16 :
    (little : Bool) (vs : List ℕ) (first second : ℕ) (options : ParserOptions)
    → AllValid options.version vs
    → decode_utf16 (first ∷ second ∷ encode_utf16 little vs) little options
      ≡ ok (record {
        chars = placed (encode_utf16 little) 2 [] vs;
        end_location = place_behind (encode_utf16 little) 2 vs;
      })
unfolding decode_utf16
decode_utf16-encode_utf16 little vs first second options h =
    decode_utf16_loop-encode_utf16 options.version little vs _ new_tracker 2 h (omega arith)
    ∙ rw
        (
          locate-placed (encode_utf16 little) (utf16_bytes little) (encode_utf16-snoc little) 2 2
              new_tracker [] vs Tracks-new refl,
          current-Tracks (encode_utf16 little) 2 (2 + length (encode_utf16 little vs))
              (track_all new_tracker vs) vs (Tracks-track_all new_tracker [] vs Tracks-new) refl,
        )
        refl
