-- ===== src/Chars/Utf8.antt =====
-- The bytes of `append_utf8` in plain arithmetic.
use xmlparser.Prelude.{ℕ, ◌+◌, ◌/◌, ◌%◌, ◌≤◌, ◌<◌, ◌≡◌, [], ◌∷◌, arith}
use xmlparser.Prelude.Bits.{and_3F, or_C0, or_E0, or_F0, or_80}
use xmlparser.Chars.{utf8_bytes}

abbrev pub tail_byte : ℕ → ℕ
tail_byte n = 0x80 + n % 64

pub utf8_bytes-one : (v : ℕ) → v < 0x80 → utf8_bytes v ≡ v ∷ []
unfolding utf8_bytes
utf8_bytes-one v h = ground arith

pub utf8_bytes-two :
    (v : ℕ) → 0x80 ≤ v → v < 0x800 → utf8_bytes v ≡ (0xC0 + v / 64) ∷ tail_byte v ∷ []
unfolding utf8_bytes
utf8_bytes-two v h k = ground (arith, and_3F v, or_C0 (v / 64), or_80 (v % 64))

pub utf8_bytes-three :
    (v : ℕ)
    → 0x800 ≤ v
    → v < 0x10000
    → utf8_bytes v ≡ (0xE0 + v / 4096) ∷ tail_byte (v / 64) ∷ tail_byte v ∷ []
unfolding utf8_bytes
utf8_bytes-three v h k =
    ground (arith, and_3F v, and_3F (v / 64), or_E0 (v / 4096), or_80 (v / 64 % 64), or_80 (v % 64))

pub utf8_bytes-four :
    (v : ℕ)
    → 0x10000 ≤ v
    → v ≤ 0x10FFFF
    → utf8_bytes v
      ≡ (0xF0 + v / 262144) ∷ tail_byte (v / 4096) ∷ tail_byte (v / 64) ∷ tail_byte v ∷ []
unfolding utf8_bytes
utf8_bytes-four v h k = ground (
  arith,
  and_3F v,
  and_3F (v / 64),
  and_3F (v / 4096),
  or_F0 (v / 262144),
  or_80 (v / 4096 % 64),
  or_80 (v / 64 % 64),
  or_80 (v % 64),
)
