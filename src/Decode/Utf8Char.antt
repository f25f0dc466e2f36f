-- ===== src/Decode/Utf8Char.antt =====
-- One round of the UTF-8 decoder against `append_utf8`, in both directions.
use xmlparser.Prelude.{
  ℕ, zero, suc, ◌+◌, ◌*◌, ◌/◌, ◌%◌, ◌^◌, ◌≤◌, ◌<◌, bit_and, bit_or, true, ◌∷◌, ◌++◌, ltb, length,
  ◌≡◌, refl, arith, ◌⊎◌, inl, inr, Bool-cases, Bytes,
}
use xmlparser.Prelude.Bits.{
  and_E0, and_F0, and_F8, and_C0, and_1F, and_0F, and_07, and_3F, bit_or_high,
}
use xmlparser.Errors.{SourceLocation, ok}
use xmlparser.Options.{XmlVersion, xml10, xml11}
use xmlparser.Chars.{is_valid_xml_char, utf8_bytes}
use xmlparser.Chars.Utf8.{
  tail_byte, utf8_bytes-one, utf8_bytes-two, utf8_bytes-three, utf8_bytes-four,
}
use xmlparser.Decode.{lead_byte, continuations, decode_utf8_char}

-- What `is_valid_xml_char` admits, as a range.
pub valid_range :
    (v : ℕ) (version : XmlVersion)
    → is_valid_xml_char v version ≡ true
    → (v ≤ 0xD7FF) ⊎ ((0xE000 ≤ v) × (v ≤ 0x10FFFF))
unfolding is_valid_xml_char
valid_range v xml10 h = ground arith
valid_range v xml11 h = ground arith

valid_le : (v : ℕ) (version : XmlVersion) → is_valid_xml_char v version ≡ true → v ≤ 0x10FFFF
valid_le v version h = omega (arith, valid_range v version h)

-- One continuation byte shifts in six bits.
pub continuation_bits :
    (v c : ℕ) → v < 2 ^ 26 → bit_or (v * 2 ^ 6 % 2 ^ 32) (bit_and c 0x3F) ≡ v * 64 + c % 64
continuation_bits v c h = ground (arith, and_3F c, bit_or_high 6 v (c % 64))

module _ (loc : SourceLocation) where
  continuation-suc :
      (n v c : ℕ) (bytes : Bytes)
      → v < 2 ^ 26
      → continuations loc (suc n) v (tail_byte c ∷ bytes)
        ≡ continuations loc n (v * 64 + c % 64) bytes
  unfolding continuations
  continuation-suc n v c bytes h =
      ground (arith, and_C0 (tail_byte c), continuation_bits v (tail_byte c))

  continuations-zero : (v : ℕ) (bytes : Bytes) → continuations loc zero v bytes ≡ ok v
  unfolding continuations
  continuations-zero v bytes = refl

  lead_byte-one : (b : ℕ) → b < 0x80 → lead_byte loc b ≡ ok (b, 1)
  unfolding lead_byte
  lead_byte-one b h = ground arith

  lead_byte-two : (n : ℕ) → 0 < n → n < 32 → lead_byte loc (0xC0 + n) ≡ ok (n, 2)
  unfolding lead_byte
  lead_byte-two n h k = ground (arith, and_E0 (0xC0 + n), and_1F (0xC0 + n))

  lead_byte-three : (n : ℕ) → n < 16 → lead_byte loc (0xE0 + n) ≡ ok (n, 3)
  unfolding lead_byte
  lead_byte-three n h = ground (arith, and_E0 (0xE0 + n), and_F0 (0xE0 + n), and_0F (0xE0 + n))

  lead_byte-four : (n : ℕ) → n < 8 → lead_byte loc (0xF0 + n) ≡ ok (n, 4)
  unfolding lead_byte
  lead_byte-four n h =
      ground (arith, and_E0 (0xF0 + n), and_F0 (0xF0 + n), and_F8 (0xF0 + n), and_07 (0xF0 + n))

  module _ (version : XmlVersion) (rest : Bytes) where
    char-one :
        (v : ℕ)
        → is_valid_xml_char v version ≡ true
        → v < 0x80
        → decode_utf8_char version loc (v ∷ rest) ≡ ok (v, 1)
    unfolding decode_utf8_char continuations
    char-one v ok_char h = rw (lead_byte-one v h) (ground arith)

    char-two :
        (v : ℕ)
        → is_valid_xml_char v version ≡ true
        → 0x80 ≤ v
        → v < 0x800
        → decode_utf8_char version loc ((0xC0 + v / 64) ∷ tail_byte v ∷ rest) ≡ ok (v, 2)
    unfolding decode_utf8_char
    char-two v ok_char h k = rw (lead_byte-two (v / 64) (omega arith) (omega arith)) (
        ground (
          arith,
          continuation-suc zero (v / 64) v rest,
          continuations-zero (v / 64 * 64 + v % 64) rest,
          valid_range v version,
        ))

    char-three :
        (v : ℕ)
        → is_valid_xml_char v version ≡ true
        → 0x800 ≤ v
        → v < 0x10000
        → decode_utf8_char version loc ((0xE0 + v / 4096) ∷ tail_byte (v / 64) ∷ tail_byte v ∷ rest)
          ≡ ok (v, 3)
    unfolding decode_utf8_char
    char-three v ok_char h k = rw (lead_byte-three (v / 4096) (omega arith)) (
        ground (
          arith,
          continuation-suc 1 (v / 4096) (v / 64) (tail_byte v ∷ rest),
          continuation-suc zero (v / 4096 * 64 + v / 64 % 64) v rest,
          continuations-zero ((v / 4096 * 64 + v / 64 % 64) * 64 + v % 64) rest,
          valid_range v version,
        ))

    char-four :
        (v : ℕ)
        → is_valid_xml_char v version ≡ true
        → 0x10000 ≤ v
        → decode_utf8_char version loc
            ((0xF0 + v / 262144) ∷ tail_byte (v / 4096) ∷ tail_byte (v / 64) ∷ tail_byte v ∷ rest)
          ≡ ok (v, 4)
    unfolding decode_utf8_char
    char-four v ok_char h =
        rw (lead_byte-four (v / 262144) (omega (arith, valid_le v version ok_char))) (
          ground (
            arith,
            continuation-suc 2 (v / 262144) (v / 4096) (tail_byte (v / 64) ∷ tail_byte v ∷ rest),
            continuation-suc 1 (v / 262144 * 64 + v / 4096 % 64) (v / 64) (tail_byte v ∷ rest),
            continuation-suc zero ((v / 262144 * 64 + v / 4096 % 64) * 64 + v / 64 % 64) v rest,
            continuations-zero
                (((v / 262144 * 64 + v / 4096 % 64) * 64 + v / 64 % 64) * 64 + v % 64) rest,
            valid_range v version,
          ))

    -- The decoder reads back one character that `append_utf8` wrote, whatever follows it.
    pub decode_utf8_char-utf8_bytes :
        (v : ℕ)
        → is_valid_xml_char v version ≡ true
        → decode_utf8_char version loc (utf8_bytes v ++ rest) ≡ ok (v, length (utf8_bytes v))
    decode_utf8_char-utf8_bytes v ok_char = elim (Bool-cases (ltb v 0x80)) [
      | inl one ↦ rw (utf8_bytes-one v (ground arith)) (char-one v ok_char (ground arith))
      | inr more ↦ elim (Bool-cases (ltb v 0x800)) [
        | inl two ↦
            rw (utf8_bytes-two v (ground arith) (ground arith))
              (char-two v ok_char (ground arith) (ground arith))
        | inr still ↦ elim (Bool-cases (ltb v 0x10000)) [
          | inl three ↦
              rw (utf8_bytes-three v (ground arith) (ground arith))
                (char-three v ok_char (ground arith) (ground arith))
          | inr four ↦
              rw (utf8_bytes-four v (ground arith) (valid_le v version ok_char))
                (char-four v ok_char (ground arith))
        ]
      ]
    ]
