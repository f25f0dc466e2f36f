-- ===== src/Parser/References/Digits.antt =====
-- Character references: the loop over the digits against the value of the digits, of any size.
use xmlparser.Prelude.{
  ℕ, ◌+◌, ◌-◌, ◌*◌, ◌/◌, ◌^◌, ◌≤◌, ◌<◌, true, false, [], ◌∷◌, Option, none, some, ltb, leb, Bytes,
  is_empty, ◌≡◌, refl, ◌↔◌, ◌⊎◌, arith, if◌then◌else◌, Bool-cases, inl, inr,
}
use xmlparser.Errors.{SourceLocation, ok, bind-eq-ok}
use xmlparser.Options.{XmlVersion, xml10, xml11}
use xmlparser.Chars.{
  is_valid_xml_char, is_valid_xml10_char, is_valid_xml11_char, utf8_bytes, append_utf8,
}
use xmlparser.Parser.References.{
  digit_value, add_digit, digits_loop, reference_digits, number_of, character_of,
  parse_character_reference,
}

-- One more digit behind a numeral; `none` if it is none of the base.
abbrev pub next_value : ℕ → ℕ → Option ℕ → Option ℕ
next_value base value none = none
next_value base value (some digit) = if leb base digit then none else some (value * base + digit)

abbrev pub chain : Option ℕ → (ℕ → Option ℕ) → Option ℕ
chain none f = none
chain (some n) f = f n

-- The value of a numeral in `base` that continues `value`, of any size.
abbrev pub positional : ℕ → ℕ → Bytes → Option ℕ
positional base value [] = some value
positional base value (ch ∷ text) =
    chain (next_value base value (digit_value ch)) (λ next. positional base next text)

abbrev IsBase : ℕ → Type 0
IsBase base = (base ≡ 10) ⊎ (base ≡ 16)

overflow_test :
    (base value digit : ℕ)
    → IsBase base
    → digit < base
    → ltb ((2 ^ 32 - 1 - digit) / base) value ≡ ltb (2 ^ 32 - 1) (value * base + digit)
overflow_test base value digit (inl e) h = rw e (ground arith)
overflow_test base value digit (inr e) h = rw e (ground arith)

value_grows : (base value digit : ℕ) → IsBase base → value ≤ value * base + digit
value_grows base value digit (inl e) = rw e (omega arith)
value_grows base value digit (inr e) = rw e (omega arith)

pub chain-eq-some :
    (o : Option ℕ) (f : ℕ → Option ℕ) {n : ℕ}
    → chain o f ≡ some n
    → (m : ℕ) × (o ≡ some m) × (f m ≡ some n)
chain-eq-some none f e = cc
chain-eq-some (some m) f e = (m, refl, e)

next_value_grows :
    (base value m : ℕ) (o : Option ℕ) → IsBase base → next_value base value o ≡ some m → value ≤ m
next_value_grows base value m none b e = cc
next_value_grows base value m (some digit) b e = ground (arith, value_grows base value digit b)

positional_grows :
    (base value n : ℕ) (text : Bytes)
    → IsBase base
    → positional base value text ≡ some n
    → value ≤ n
positional_grows base value n [] b e = ground arith
positional_grows base value n (ch ∷ text) b e =
    let (m, e₁, e₂) = chain-eq-some (next_value base value (digit_value ch)) _ e in
    omega (
      arith,
      next_value_grows base value m (digit_value ch) b e₁,
      positional_grows base m n text b e₂,
    )

-- One digit: the test before the addition finds every value that a `char32_t` cannot hold.
add_digit-ok :
    (start : SourceLocation) (base value m : ℕ) (o : Option ℕ)
    → IsBase base
    → add_digit start base value o ≡ ok m
    → (next_value base value o ≡ some m) × (m < 2 ^ 32)
unfolding add_digit
add_digit-ok start base value m none b e = cc
add_digit-ok start base value m (some digit) b e = elim (Bool-cases (leb base digit)) [
  | inl big ↦ ground arith
  | inr small ↦ let test = overflow_test base value digit b (ground arith) in ground (arith, test)
]

next_value-some :
    (start : SourceLocation) (base value m : ℕ) (o : Option ℕ)
    → IsBase base
    → next_value base value o ≡ some m
    → m < 2 ^ 32
    → add_digit start base value o ≡ ok m
unfolding add_digit
next_value-some start base value m none b e h = cc
next_value-some start base value m (some digit) b e h = elim (Bool-cases (leb base digit)) [
  | inl big ↦ ground arith
  | inr small ↦ let test = overflow_test base value digit b (ground arith) in ground (arith, test)
]

digits_loop-ok :
    (start : SourceLocation) (base value n : ℕ) (text : Bytes)
    → IsBase base
    → value < 2 ^ 32
    → digits_loop start base value text ≡ ok n
    → (positional base value text ≡ some n) × (n < 2 ^ 32)
unfolding digits_loop
digits_loop-ok start base value n [] b h e = ground arith
digits_loop-ok start base value n (ch ∷ text) b h e =
    let (m, e₁, e₂) = bind-eq-ok (add_digit start base value (digit_value ch)) _ e in
    let (next, small) = add_digit-ok start base value m (digit_value ch) b e₁ in
    rw next (digits_loop-ok start base m n text b small e₂)

positional-some :
    (start : SourceLocation) (base value n : ℕ) (text : Bytes)
    → IsBase base
    → positional base value text ≡ some n
    → n < 2 ^ 32
    → digits_loop start base value text ≡ ok n
unfolding digits_loop
positional-some start base value n [] b e h = ground arith
positional-some start base value n (ch ∷ text) b e h =
    let (m, e₁, e₂) = chain-eq-some (next_value base value (digit_value ch)) _ e in
    let grows = positional_grows base m n text b e₂ in
    rw (next_value-some start base value m (digit_value ch) b e₁ (omega (arith, grows)))
      (positional-some start base m n text b e₂ h)

reference_digits-IsBase : (ascii : Bytes) → IsBase (reference_digits ascii).0
unfolding reference_digits
reference_digits-IsBase [] = inl refl
reference_digits-IsBase (a ∷ []) = inl refl
reference_digits-IsBase (a ∷ b ∷ []) = inl refl
reference_digits-IsBase (a ∷ b ∷ c ∷ text) = ground arith

valid_small : (version : XmlVersion) (n : ℕ) → is_valid_xml_char n version ≡ true → n < 2 ^ 32
unfolding is_valid_xml_char is_valid_xml10_char is_valid_xml11_char
valid_small xml10 n h = ground arith
valid_small xml11 n h = ground arith

-- The number that the digits behind `#` or `#x` are read as, which is a character.
abbrev pub IsRead : XmlVersion → Bytes → ℕ → Type 0
IsRead version ascii n =
    (is_empty (reference_digits ascii).1 ≡ false)
    × (positional (reference_digits ascii).0 0 (reference_digits ascii).1 ≡ some n)
    × (is_valid_xml_char n version ≡ true)

number_of-ok :
    (start : SourceLocation) (d : ℕ × Bytes) (n : ℕ)
    → IsBase d.0
    → number_of start d ≡ ok n
    → (is_empty d.1 ≡ false) × (positional d.0 0 d.1 ≡ some n)
unfolding number_of
number_of-ok start (base, []) n b e = cc
number_of-ok start (base, ch ∷ digits) n b e =
    (refl, (digits_loop-ok start base 0 n (ch ∷ digits) b (omega arith) e).0)

some-number_of :
    (start : SourceLocation) (d : ℕ × Bytes) (n : ℕ)
    → IsBase d.0
    → is_empty d.1 ≡ false
    → positional d.0 0 d.1 ≡ some n
    → n < 2 ^ 32
    → number_of start d ≡ ok n
unfolding number_of
some-number_of start (base, []) n b f e h = cc
some-number_of start (base, ch ∷ digits) n b f e h =
    positional-some start base 0 n (ch ∷ digits) b e h

character_of-ok :
    (version : XmlVersion) (start : SourceLocation) (n : ℕ) (bytes : Bytes)
    → character_of version start n ≡ ok bytes
    → (is_valid_xml_char n version ≡ true) × (bytes ≡ utf8_bytes n)
unfolding character_of append_utf8
character_of-ok version start n bytes e = ground arith

-- The arithmetic on 32 bits never wraps round.
pub parse_character_reference-IsRead :
    (version : XmlVersion) (ascii : Bytes) (start : SourceLocation) (bytes : Bytes)
    → (parse_character_reference version ascii start ≡ ok bytes)
      ↔ ((n : ℕ) × IsRead version ascii n × (bytes ≡ utf8_bytes n))
unfolding parse_character_reference
parse_character_reference-IsRead version ascii start bytes = (
  λ e.
      let (n, e₁, e₂) = bind-eq-ok (number_of start (reference_digits ascii)) _ e in
      let (some_digit, value) = number_of-ok start (reference_digits ascii) n base e₁ in
      let (valid, text) = character_of-ok version start n bytes e₂ in
      (n, (some_digit, value, valid), text),
  λ (n, (some_digit, value, valid), text).
      rw
        (some-number_of start (reference_digits ascii) n base some_digit value
          (valid_small version n valid))
        (unfold character_of append_utf8 in rw (valid, text) refl),
)
  where
    base : IsBase (reference_digits ascii).0
    base = reference_digits-IsBase ascii
