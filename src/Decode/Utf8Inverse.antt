-- ===== src/Decode/Utf8Inverse.antt =====
-- What one round of the UTF-8 decoder accepts: only the bytes that `append_utf8` writes.
use xmlparser.Prelude.{
  ℕ, zero, suc, ◌+◌, ◌-◌, ◌*◌, ◌%◌, ◌^◌, ◌<◌, bit_and, true, [], ◌∷◌, ◌++◌, leb, ◌==◌, length, drop,
  ◌≡◌, arith, ◌⊎◌, inl, inr, Bytes, IsByte, All,
}
use xmlparser.Prelude.Bits.{and_E0, and_F0, and_F8, and_C0, and_1F, and_0F, and_07}
use xmlparser.Errors.{SourceLocation, ok, bind-eq-ok, require-eq-ok}
use xmlparser.Options.{XmlVersion}
use xmlparser.Chars.{is_valid_xml_char, utf8_bytes}
use xmlparser.Chars.Utf8.{
  tail_byte, utf8_bytes-one, utf8_bytes-two, utf8_bytes-three, utf8_bytes-four,
}
use xmlparser.Decode.{lead_byte, continuations, is_scalar, decode_utf8_char}
use xmlparser.Decode.Utf8Char.{continuation_bits}

-- The four forms of a lead byte, with the bits that it holds.
abbrev LeadForm : ℕ → ℕ → ℕ → Type 0
LeadForm b n w =
    ((w ≡ 1) × (b < 0x80) × (n ≡ b))
    ⊎ ((w ≡ 2) × (b ≡ 0xC0 + n) × (n < 32))
    ⊎ ((w ≡ 3) × (b ≡ 0xE0 + n) × (n < 16))
    ⊎ ((w ≡ 4) × (b ≡ 0xF0 + n) × (n < 8))

module _ (loc : SourceLocation) where
  lead_byte_form : (b n w : ℕ) → b < 256 → lead_byte loc b ≡ ok (n, w) → LeadForm b n w
  unfolding lead_byte
  lead_byte_form b n w h e =
      ground (arith, and_E0 b h, and_F0 b h, and_F8 b h, and_1F b h, and_0F b h, and_07 b h)

  continuation_form :
      (k v c x : ℕ) (bytes : Bytes)
      → v < 2 ^ 26
      → c < 256
      → continuations loc (suc k) v (c ∷ bytes) ≡ ok x
      → (c ≡ tail_byte c) × (continuations loc k (v * 64 + c % 64) bytes ≡ ok x)
  unfolding continuations
  continuation_form k v c x bytes h b e =
      let (t, rest) = require-eq-ok (bit_and c 0xC0 == 0x80) _ _ _ _ e in
      (ground (arith, and_C0 c b), rw (continuation_bits v c h) at rest)

  -- What a round has checked when it returns.
  record Checks (version : XmlVersion) (b : ℕ) (bytes : Bytes) (v w : ℕ) : Type 0 where
    bits : ℕ
    lead : lead_byte loc b ≡ ok (bits, w)
    fits : leb w (length (b ∷ bytes)) ≡ true
    tail : continuations loc (w - 1) bits bytes ≡ ok v
    scalar : is_scalar w v ≡ true
    valid : is_valid_xml_char v version ≡ true

  decode_utf8_char-Checks :
      (version : XmlVersion) (b : ℕ) (bytes : Bytes) (v w : ℕ)
      → decode_utf8_char version loc (b ∷ bytes) ≡ ok (v, w)
      → Checks version b bytes v w
  unfolding decode_utf8_char
  decode_utf8_char-Checks version b bytes v w e =
      let ((n, w₁), lead, e₁) = bind-eq-ok (lead_byte loc b) _ e in
      let (fits, e₂) = require-eq-ok (leb w₁ (length (b ∷ bytes))) _ _ _ _ e₁ in
      let (x, tail, e₃) = bind-eq-ok (continuations loc (w₁ - 1) n bytes) _ e₂ in
      let (scalar, e₄) = require-eq-ok (is_scalar w₁ x) _ _ _ _ e₃ in
      let (valid, e₅) = require-eq-ok (is_valid_xml_char x version) _ _ _ _ e₄ in
      let same_value : x ≡ v = ground arith in
      let same_width : w₁ ≡ w = ground arith in
      record { bits = n; lead = cc; fits = cc; tail = cc; scalar = cc; valid = cc }

  abbrev Canonical : ℕ → ℕ → Bytes → Type 0
  Canonical v w bytes = (bytes ≡ utf8_bytes v ++ drop w bytes) × (w ≡ length (utf8_bytes v))

  Canonical-two :
      (n v b : ℕ) (bytes : Bytes)
      → b ≡ 0xC0 + n
      → n < 32
      → All IsByte bytes
      → leb 2 (length (b ∷ bytes)) ≡ true
      → continuations loc 1 n bytes ≡ ok v
      → is_scalar 2 v ≡ true
      → Canonical v 2 (b ∷ bytes)
  unfolding continuations
  Canonical-two n v b [] lead small h fits e s = absurd (ground arith)
  Canonical-two n v b (c ∷ bytes) lead small (hc, h) fits e s =
      let (c_form, e₁) = continuation_form zero n c v bytes (omega arith) hc e in
      let value : v ≡ n * 64 + c % 64 = ground arith in
      ground (arith, utf8_bytes-two v (ground arith) (ground arith))

  Canonical-three :
      (n v b : ℕ) (bytes : Bytes)
      → b ≡ 0xE0 + n
      → n < 16
      → All IsByte bytes
      → leb 3 (length (b ∷ bytes)) ≡ true
      → continuations loc 2 n bytes ≡ ok v
      → is_scalar 3 v ≡ true
      → Canonical v 3 (b ∷ bytes)
  unfolding continuations
  Canonical-three n v b [] lead small h fits e s = absurd (ground arith)
  Canonical-three n v b (c ∷ []) lead small h fits e s = absurd (ground arith)
  Canonical-three n v b (c ∷ d ∷ bytes) lead small (hc, (hd, h)) fits e s =
      let (c_form, e₁) = continuation_form 1 n c v (d ∷ bytes) (omega arith) hc e in
      let (d_form, e₂) = continuation_form zero (n * 64 + c % 64) d v bytes (omega arith) hd e₁ in
      let value : v ≡ (n * 64 + c % 64) * 64 + d % 64 = ground arith in
      ground (arith, utf8_bytes-three v (ground arith) (ground arith))

  Canonical-four :
      (n v b : ℕ) (bytes : Bytes)
      → b ≡ 0xF0 + n
      → n < 8
      → All IsByte bytes
      → leb 4 (length (b ∷ bytes)) ≡ true
      → continuations loc 3 n bytes ≡ ok v
      → is_scalar 4 v ≡ true
      → Canonical v 4 (b ∷ bytes)
  unfolding continuations
  Canonical-four n v b [] lead small h fits e s = absurd (ground arith)
  Canonical-four n v b (c ∷ []) lead small h fits e s = absurd (ground arith)
  Canonical-four n v b (c ∷ d ∷ []) lead small h fits e s = absurd (ground arith)
  Canonical-four n v b (c ∷ d ∷ f ∷ bytes) lead small (hc, (hd, (hf, h))) fits e s =
      let (c_form, e₁) = continuation_form 2 n c v (d ∷ f ∷ bytes) (omega arith) hc e in
      let (d_form, e₂) =
        continuation_form 1 (n * 64 + c % 64) d v (f ∷ bytes) (omega arith) hd e₁ in
      let (f_form, e₃) =
        continuation_form zero ((n * 64 + c % 64) * 64 + d % 64) f v bytes (omega arith) hf e₂ in
      let value : v ≡ ((n * 64 + c % 64) * 64 + d % 64) * 64 + f % 64 = ground arith in
      ground (arith, utf8_bytes-four v (ground arith) (ground arith))

  Canonical-one :
      (n v b : ℕ) (bytes : Bytes)
      → n ≡ b
      → b < 0x80
      → continuations loc 0 n bytes ≡ ok v
      → Canonical v 1 (b ∷ bytes)
  unfolding continuations
  Canonical-one n v b bytes same small e =
      let value : v ≡ b = ground arith in ground (arith, utf8_bytes-one v (omega arith))

  Canonical-Checks :
      (version : XmlVersion) (b : ℕ) (bytes : Bytes) (v w : ℕ)
      → All IsByte bytes
      → (c : Checks version b bytes v w) → LeadForm b c.bits w
      → Canonical v w (b ∷ bytes)
  Canonical-Checks version b bytes v w h c (inl (e, small, same)) =
      rw e (Canonical-one c.bits v b bytes same small (rw e at c.tail))
  Canonical-Checks version b bytes v w h c (inr (inl (e, form, small))) = rw e (
      Canonical-two c.bits v b bytes form small h (rw e at c.fits) (rw e at c.tail)
        (rw e at c.scalar))
  Canonical-Checks version b bytes v w h c (inr (inr (inl (e, form, small)))) = rw e (
      Canonical-three c.bits v b bytes form small h (rw e at c.fits) (rw e at c.tail)
        (rw e at c.scalar))
  Canonical-Checks version b bytes v w h c (inr (inr (inr (e, form, small)))) = rw e (
      Canonical-four c.bits v b bytes form small h (rw e at c.fits) (rw e at c.tail)
        (rw e at c.scalar))

  -- A character that the decoder returns is a character of the document's version of XML, and the
  -- bytes taken for it are those that `append_utf8` writes for it.
  pub decode_utf8_char_inverse :
      (version : XmlVersion) (b : ℕ) (bytes : Bytes) (v w : ℕ)
      → All IsByte (b ∷ bytes)
      → decode_utf8_char version loc (b ∷ bytes) ≡ ok (v, w)
      → Canonical v w (b ∷ bytes) × (is_valid_xml_char v version ≡ true)
  decode_utf8_char_inverse version b bytes v w (hb, h) e =
      let c = decode_utf8_char-Checks version b bytes v w e in
      (Canonical-Checks version b bytes v w h c (lead_byte_form b c.bits w hb c.lead), c.valid)
