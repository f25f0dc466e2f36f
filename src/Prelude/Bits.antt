-- ===== src/Prelude/Bits.antt =====
-- `|` of fields that do not overlap, and masks on a byte, as arithmetic.
use Prim.Native.Nat.{
  ℕ, zero, suc, ◌+◌, ◌*◌, ◌/◌, ◌%◌, ◌^◌, ◌≤◌, ◌<◌, max, min, bit_and, bit_or, digits,
  bit_or-bitwise, bit_and-bitwise,
}
use mathlib.Core.Path.{◌≡◌, refl, ap}
use mathlib.Core.Bool.{Bool, true, ◌&&◌}
use native.Mathlib.Nat.{pow-suc}
use native.Mathlib.Omega.{arith}
use xmlparser.Prelude.Tests.{◌==◌}

-- How `digits` runs: fuel past the first operand changes nothing, so a round halves both operands.
module _ (last : ℕ → ℕ) (join : ℕ → ℕ → ℕ) where
  digits-enough :
      (x f : ℕ) → x ≤ f → (g y : ℕ) → x ≤ g → digits last join f x y ≡ digits last join g x y
  digits-enough (suc x) (suc f) h (suc g) y k =
      let half = digits-enough (suc x / 2) f (omega arith) g (y / 2) (omega arith) in
      omega (arith, half)
  digits-enough (suc x) (suc f) h zero y k = absurd (omega arith)
  digits-enough (suc x) zero h g y k = absurd (omega arith)
  digits-enough zero (suc f) h (suc g) y k = refl
  digits-enough zero (suc f) h zero y k = refl
  digits-enough zero zero h (suc g) y k = refl
  digits-enough zero zero h zero y k = refl

  digits_round :
      (x y : ℕ)
      → digits last join (suc x) (suc x) y
        ≡ digits last join (suc x / 2) (suc x / 2) (y / 2) * 2 + join (suc x % 2) (y % 2)
  digits_round x y =
      let half = digits-enough (suc x / 2) x (omega arith) (suc x / 2) (y / 2) (omega arith) in
      omega (arith, half)

pub zero-bit_or : (y : ℕ) → bit_or 0 y ≡ y
zero-bit_or = bit_or-bitwise 0

-- The lowest bit of `|`, and the others.
pub bit_or_step : (x y : ℕ) → bit_or x y ≡ bit_or (x / 2) (y / 2) * 2 + max (x % 2) (y % 2)
bit_or_step (suc x) y =
    let upper = bit_or-bitwise (suc x / 2) (y / 2) in
    omega (arith, digits_round (λ z. z) max x y, upper, bit_or-bitwise (suc x) y)
bit_or_step zero y = omega (arith, zero-bit_or (y / 2), zero-bit_or y)

-- And of `&`.
bit_and_step : (x y : ℕ) → bit_and x y ≡ bit_and (x / 2) (y / 2) * 2 + min (x % 2) (y % 2)
bit_and_step (suc x) y =
    let upper = bit_and-bitwise (suc x / 2) (y / 2) in
    omega (arith, digits_round (λ z. 0) min x y, upper, bit_and-bitwise (suc x) y)
bit_and_step zero y = omega (arith, bit_and-bitwise 0 (y / 2), bit_and-bitwise 0 y)

bit_and-zero_fuel : (f x : ℕ) → x ≤ f → bit_and x 0 ≡ 0
bit_and-zero_fuel (suc f) (suc x) h =
    let upper = bit_and-zero_fuel f (suc x / 2) (omega arith) in
    omega (arith, upper, bit_and_step (suc x) 0)
bit_and-zero_fuel zero (suc x) h = absurd (omega arith)
bit_and-zero_fuel f zero h = bit_and-bitwise 0 0

and_07_any : (a : ℕ) → bit_and a 0x07 ≡ a % 8
and_07_any a = omega (
  arith,
  bit_and_step a 7,
  bit_and_step (a / 2) 3,
  bit_and_step (a / 2 / 2) 1,
  bit_and-zero_fuel (a / 2 / 2 / 2) (a / 2 / 2 / 2) (omega arith),
)

-- `value & 0x3F` of a number of any width.
pub and_3F : (a : ℕ) → bit_and a 0x3F ≡ a % 64
and_3F a = omega (
  arith,
  bit_and_step a 63,
  bit_and_step (a / 2) 31,
  bit_and_step (a / 2 / 2) 15,
  and_07_any (a / 2 / 2 / 2),
)

bit_or-zero_fuel : (f x : ℕ) → x ≤ f → bit_or x 0 ≡ x
bit_or-zero_fuel (suc f) (suc x) h =
    let upper = bit_or-zero_fuel f (suc x / 2) (omega arith) in
    omega (arith, upper, bit_or_step (suc x) 0)
bit_or-zero_fuel zero (suc x) h = absurd (omega arith)
bit_or-zero_fuel f zero h = zero-bit_or 0

mul-pow-suc : (n k : ℕ) → n * 2 ^ suc k ≡ n * 2 ^ k * 2
mul-pow-suc n k = let twice = ap (λ (power : ℕ). n * power) (pow-suc 2 k) in omega (twice, arith)

-- `(high << k) | low` is a sum when `low` fits `k` bits; and with the sides exchanged.
pub bit_or_high : (k high low : ℕ) → low < 2 ^ k → bit_or (high * 2 ^ k) low ≡ high * 2 ^ k + low
bit_or_high zero high low fits = ground (arith, bit_or-zero_fuel high high)
bit_or_high (suc k) high low fits = ground (
  arith,
  bit_or_step (high * 2 ^ suc k) low,
  mul-pow-suc high k,
  bit_or_high k high (low / 2) (omega (arith, pow-suc 2 k)),
)

pub bit_or_low : (k low high : ℕ) → low < 2 ^ k → bit_or low (high * 2 ^ k) ≡ low + high * 2 ^ k
bit_or_low zero low high fits = ground (arith, zero-bit_or (high * 2 ^ 0))
bit_or_low (suc k) low high fits = ground (
  arith,
  bit_or_step low (high * 2 ^ suc k),
  mul-pow-suc high k,
  bit_or_low k (low / 2) high (omega (arith, pow-suc 2 k)),
)

-- Over a byte, every value is checked by evaluation.
abbrev agree_below : ℕ → (ℕ → ℕ) → (ℕ → ℕ) → Bool
agree_below zero f g = true
agree_below (suc n) f g = (f n == g n) && agree_below n f g

agree_below_lem : (n : ℕ) (f g : ℕ → ℕ) → agree_below n f g ≡ true → (x : ℕ) → x < n → f x ≡ g x
agree_below_lem zero f g h x lt = absurd (omega arith)
agree_below_lem (suc n) f g h x lt = ground (arith, agree_below_lem n f g (ground arith) x)

-- `byte & 0xE0`, `byte & 0xF0`, `byte & 0xF8` and `byte & 0xC0` keep the high bits.
pub and_E0 : (b : ℕ) → b < 256 → bit_and b 0xE0 ≡ b / 32 * 32
and_E0 = agree_below_lem 256 _ _ refl

pub and_F0 : (b : ℕ) → b < 256 → bit_and b 0xF0 ≡ b / 16 * 16
and_F0 = agree_below_lem 256 _ _ refl

pub and_F8 : (b : ℕ) → b < 256 → bit_and b 0xF8 ≡ b / 8 * 8
and_F8 = agree_below_lem 256 _ _ refl

pub and_C0 : (b : ℕ) → b < 256 → bit_and b 0xC0 ≡ b / 64 * 64
and_C0 = agree_below_lem 256 _ _ refl

-- `byte & 0x1F`, `byte & 0x0F` and `byte & 0x07` keep the low bits.
pub and_1F : (b : ℕ) → b < 256 → bit_and b 0x1F ≡ b % 32
and_1F = agree_below_lem 256 _ _ refl

pub and_0F : (b : ℕ) → b < 256 → bit_and b 0x0F ≡ b % 16
and_0F = agree_below_lem 256 _ _ refl

pub and_07 : (b : ℕ) → b < 256 → bit_and b 0x07 ≡ b % 8
and_07 = agree_below_lem 256 _ _ refl

-- `0xC0 | bits`, `0xE0 | bits`, `0xF0 | bits` and `0x80 | bits` set the marker of a UTF-8 byte.
pub or_C0 : (b : ℕ) → b < 32 → bit_or 0xC0 b ≡ 0xC0 + b
or_C0 = agree_below_lem 32 _ _ refl

pub or_E0 : (b : ℕ) → b < 16 → bit_or 0xE0 b ≡ 0xE0 + b
or_E0 = agree_below_lem 16 _ _ refl

pub or_F0 : (b : ℕ) → b < 8 → bit_or 0xF0 b ≡ 0xF0 + b
or_F0 = agree_below_lem 8 _ _ refl

pub or_80 : (b : ℕ) → b < 64 → bit_or 0x80 b ≡ 0x80 + b
or_80 = agree_below_lem 64 _ _ refl
