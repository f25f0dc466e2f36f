-- ===== src/Parser/References/Numerals.antt =====
-- Character references against numerals in base 10 and 16, as they are written.
use xmlparser.Prelude.{
  ℕ, ◌+◌, ◌*◌, ◌≤◌, ◌<◌, true, false, [], ◌∷◌, Option, none, some, leb, ◌==◌, ◌||◌, Bytes, is_empty,
  ◌≡◌, refl, subst, ◌↔◌, ◌⊎◌, arith, Bool-cases, inl, inr,
}
use xmlparser.Errors.{SourceLocation, ok}
use xmlparser.Options.{XmlVersion}
use xmlparser.Chars.{is_valid_xml_char, utf8_bytes}
use xmlparser.Parser.References.{digit_value, reference_digits, parse_character_reference}
use xmlparser.Parser.References.Digits.{
  next_value, chain-eq-some, positional, parse_character_reference-IsRead,
}

-- The ASCII characters `0` to `9`, `a` to `f` and `A` to `F`, with their values.
abbrev pub IsDigit : ℕ → ℕ → Type 0
IsDigit ch digit =
    ((digit < 10) × (ch ≡ 48 + digit))
    ⊎ ((digit < 6 + 10) × (10 ≤ digit) × (ch ≡ 87 + digit))
    ⊎ ((digit < 6 + 10) × (10 ≤ digit) × (ch ≡ 55 + digit))

-- The digits behind `value`, one after the other, make the number `n`.
pub data Numeral (base : ℕ) : ℕ → Bytes → ℕ → Type 0 where
  ends : {n : ℕ} → Numeral base n [] n
  next :
      {value ch : ℕ} {digits : Bytes} {n : ℕ} (digit : ℕ)
      → IsDigit ch digit
      → digit < base
      → Numeral base (value * base + digit) digits n
      → Numeral base value (ch ∷ digits) n

-- What is written behind `#`: `x` and hexadecimal digits, or decimal digits, one at least.
abbrev pub Spells : Bytes → ℕ → Type 0
Spells text n =
    ((x : ℕ) × (digits : Bytes) × (text ≡ x ∷ digits)
      × ((x ≡ b'x') ⊎ (x ≡ b'X'))
      × (is_empty digits ≡ false)
      × Numeral 16 0 digits n)
    ⊎ ((is_empty text ≡ false) × Numeral 10 0 text n)

digit_value_iff : (ch digit : ℕ) → (digit_value ch ≡ some digit) ↔ IsDigit ch digit
unfolding digit_value
digit_value_iff ch digit = ground arith

next_value-Numeral :
    (base value m n ch : ℕ) (text : Bytes) (o : Option ℕ)
    → digit_value ch ≡ o
    → next_value base value o ≡ some m
    → Numeral base m text n
    → Numeral base value (ch ∷ text) n
next_value-Numeral base value m n ch text none read f rest = cc
next_value-Numeral base value m n ch text (some digit) read f rest =
    elim (Bool-cases (leb base digit)) [
      | inl big ↦ absurd (ground (arith, f, big))
      | inr small ↦
          next digit ((digit_value_iff ch digit).0 read) (ground (arith, small))
            (subst (λ (v : ℕ). Numeral base v text n) (ground (arith, f, small)) rest)
    ]

positional-Numeral :
    (base value n : ℕ) (text : Bytes)
    → positional base value text ≡ some n
    → Numeral base value text n
positional-Numeral base value n [] e =
    subst (λ (m : ℕ). Numeral base value [] m) (ground (arith, e)) ends
positional-Numeral base value n (ch ∷ text) e =
    let (m, e₁, e₂) = chain-eq-some (next_value base value (digit_value ch)) _ e in
    next_value-Numeral base value m n ch text (digit_value ch) refl e₁
      (positional-Numeral base m n text e₂)

Numeral-positional :
    (base value n : ℕ) (text : Bytes)
    → Numeral base value text n
    → positional base value text ≡ some n
Numeral-positional base value n text ends = refl
Numeral-positional base value n text (next {ch = ch} {digits = digits} digit is low rest) =
    let small : leb base digit ≡ false = ground (arith, low) in
    rw ((digit_value_iff ch digit).1 is, small)
      (Numeral-positional base (value * base + digit) n digits rest)

abbrev Reads : ℕ × Bytes → ℕ → Type 0
Reads d n = (is_empty d.1 ≡ false) × (positional d.0 0 d.1 ≡ some n)

Spells-Reads : (text : Bytes) (n : ℕ) → Spells text n → Reads (reference_digits (b'#' ∷ text)) n
unfolding reference_digits
Spells-Reads [] n (inl (x, digits, same, is_x, f, m)) = cc
Spells-Reads [] n (inr (f, m)) = cc
Spells-Reads (a ∷ []) n (inl (x, digits, same, is_x, f, m)) = ground (arith, same, f)
Spells-Reads (a ∷ []) n (inr (f, m)) = (refl, Numeral-positional 10 0 n (a ∷ []) m)
Spells-Reads (a ∷ b ∷ text) n (inl (x, digits, same, is_x, f, m)) =
    let mark : (a == b'x' || a == b'X') ≡ true = ground (arith, same, is_x) in
    let rest : digits ≡ b ∷ text = ground (arith, same) in
    rw (mark) (
      refl,
      subst (λ (d : Bytes). positional 16 0 d ≡ some n) rest (Numeral-positional 16 0 n digits m),
    )
Spells-Reads (a ∷ b ∷ text) n (inr (f, next digit is low m)) =
    let mark : (a == b'x' || a == b'X') ≡ false = ground (arith, is, low) in
    rw (mark) (refl, Numeral-positional 10 0 n (a ∷ b ∷ text) (next digit is low m))

Reads-Spells : (text : Bytes) (n : ℕ) → Reads (reference_digits (b'#' ∷ text)) n → Spells text n
unfolding reference_digits
Reads-Spells [] n (f, e) = cc
Reads-Spells (a ∷ []) n (f, e) = inr (refl, positional-Numeral 10 0 n (a ∷ []) e)
Reads-Spells (a ∷ b ∷ text) n r = elim (Bool-cases (a == b'x' || a == b'X')) [
  | inl mark ↦ inl (
    a,
    b ∷ text,
    refl,
    ground (arith, mark),
    refl,
    positional-Numeral 16 0 n (b ∷ text) (rw (mark) at r.1),
  )
  | inr other ↦ inr (refl, positional-Numeral 10 0 n (a ∷ b ∷ text) (rw (other) at r.1))
]

-- A character reference is accepted exactly if behind `#` there are decimal digits, or `x` or `X`
-- and hexadecimal digits, one at least, whose number, of any size, is a character of the chosen
-- version of XML, and the result is the UTF-8 text of that character.
pub parse_character_reference-Spells :
    (version : XmlVersion) (text : Bytes) (start : SourceLocation) (bytes : Bytes)
    → (parse_character_reference version (b'#' ∷ text) start ≡ ok bytes)
      ↔ ((n : ℕ) × Spells text n × (is_valid_xml_char n version ≡ true) × (bytes ≡ utf8_bytes n))
parse_character_reference-Spells version text start bytes =
    let (to, from) = parse_character_reference-IsRead version (b'#' ∷ text) start bytes in
    (
      λ e.
          let (n, (some_digit, value, valid), same) = to e in
          (n, Reads-Spells text n (some_digit, value), valid, same),
      λ (n, s, valid, same).
          let (some_digit, value) = Spells-Reads text n s in
          from (n, (some_digit, value, valid), same),
    )
