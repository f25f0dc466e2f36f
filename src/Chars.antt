-- ===== src/Chars.antt =====
-- The character classes and the UTF-8 writer at the top of src/parser_core.cpp. A `char32_t` is a
-- number; a `char` is a byte, 0 to 255, and `static_cast<char>` is the remainder by 256.
pub mod Utf8
use xmlparser.Prelude.{
  ℕ, ◌+◌, ◌-◌, ◌/◌, ◌%◌, ◌^◌, ◌≤◌, ◌<◌, bit_and, bit_or, Bool, ◌&&◌, ◌||◌, not, List, [], ◌∷◌, ◌++◌,
  leb, ◌==◌, within, if◌then◌else◌, Bytes, ◌⊎◌,
}
use xmlparser.Options.{XmlVersion, xml10, xml11}

unfoldable pub is_space : ℕ → Bool
is_space value = value == b' ' || value == b'\t' || value == b'\n' || value == b'\r'

unfoldable pub is_name_start : ℕ → Bool
is_name_start value =
    within b'A' b'Z' value || within b'a' b'z' value || value == b'_' || value == b':'

unfoldable pub is_name_char : ℕ → Bool
unfolding is_name_start
is_name_char value = is_name_start value || within b'0' b'9' value || value == b'-' || value == b'.'

unfoldable pub is_valid_xml10_char : ℕ → Bool
is_valid_xml10_char value =
    value == b'\t'
    || value == b'\n'
    || value == b'\r'
    || within 0x20 0xD7FF value
    || within 0xE000 0xFFFD value
    || within 0x10000 0x10FFFF value

unfoldable pub is_valid_xml11_char : ℕ → Bool
is_valid_xml11_char value =
    within 0x1 0xD7FF value || within 0xE000 0xFFFD value || within 0x10000 0x10FFFF value

unfoldable pub is_valid_xml_char : ℕ → XmlVersion → Bool
unfolding is_valid_xml10_char is_valid_xml11_char
is_valid_xml_char value xml11 = is_valid_xml11_char value
is_valid_xml_char value xml10 = is_valid_xml10_char value

unfoldable pub to_ascii : List ℕ → Bytes
to_ascii [] = []
to_ascii (value ∷ text) = (if leb value 0x7F then value else b'?') ∷ to_ascii text

unfoldable pub lowercase_ascii : Bytes → Bytes
lowercase_ascii [] = []
lowercase_ascii (ch ∷ text) =
    (if within b'A' b'Z' ch then ch - b'A' + b'a' else ch) ∷ lowercase_ascii text

-- The space test that the byte loops write out.
abbrev pub is_space_byte : ℕ → Bool
is_space_byte ch = ch == b' ' || ch == b'\t' || ch == b'\n' || ch == b'\r'

unfoldable pub strip_ascii_space : Bytes → Bytes
strip_ascii_space [] = []
strip_ascii_space (ch ∷ text) =
    let rest = strip_ascii_space text in if is_space_byte ch then rest else ch ∷ rest

-- `if (!current.empty()) names.push_back(current);`
abbrev pub push_name : List Bytes → Bytes → List Bytes
push_name names [] = names
push_name names (c ∷ current) = names ++ (c ∷ current) ∷ []

-- The loop of `split_names`, with `names` and `current` so far.
unfoldable pub split_names_loop : List Bytes → Bytes → Bytes → List Bytes
split_names_loop names current [] = push_name names current
split_names_loop names current (ch ∷ text) =
    let pushed = split_names_loop (push_name names current) [] text in
    let skipped = split_names_loop names current text in
    let grown = split_names_loop names (current ++ ch ∷ []) text in
    if ch == b',' then pushed else if ch == b'?' || ch == b'*' || ch == b'+' then skipped else grown

unfoldable pub split_names : Bytes → List Bytes
unfolding split_names_loop
split_names text = split_names_loop [] [] text

-- What `append_utf8` pushes for one character.
unfoldable pub utf8_bytes : ℕ → Bytes
utf8_bytes value =
    if leb value 0x7F
    then value ∷ []
    else if leb value 0x7FF
    then bit_or 0xC0 (value / 2 ^ 6) % 256 ∷ bit_or 0x80 (bit_and value 0x3F) % 256 ∷ []
    else if leb value 0xFFFF
    then bit_or 0xE0 (value / 2 ^ 12) % 256
      ∷ bit_or 0x80 (bit_and (value / 2 ^ 6) 0x3F) % 256
      ∷ bit_or 0x80 (bit_and value 0x3F) % 256
      ∷ []
    else bit_or 0xF0 (value / 2 ^ 18) % 256
      ∷ bit_or 0x80 (bit_and (value / 2 ^ 12) 0x3F) % 256
      ∷ bit_or 0x80 (bit_and (value / 2 ^ 6) 0x3F) % 256
      ∷ bit_or 0x80 (bit_and value 0x3F) % 256
      ∷ []

unfoldable pub append_utf8 : Bytes → ℕ → Bytes
unfolding utf8_bytes
append_utf8 output value = output ++ utf8_bytes value
