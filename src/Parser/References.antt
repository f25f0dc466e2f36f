-- ===== src/Parser/References.antt =====
-- References: `parse_reference`, `expand_entity_text` and `parse_character_reference`.
pub mod Digits
pub mod Numerals
use xmlparser.Prelude.{
  ℕ, zero, suc, ◌+◌, ◌-◌, ◌*◌, ◌/◌, ◌%◌, ◌^◌, Bool, ◌&&◌, ◌||◌, not, List, [], ◌∷◌, ◌++◌, Option,
  none, some, Bytes, codes, ◌=s=◌, ◌==◌, ltb, leb, within, if◌then◌else◌, length, drop, take,
  find_byte,
}
use xmlparser.Errors.{SourceLocation, well_formedness, validity, resource_limit, Result, ok}
use xmlparser.Errors
use xmlparser.Options.{XmlVersion, is_dtd}
use xmlparser.Chars.{is_valid_xml_char, to_ascii, append_utf8}
use xmlparser.Parser.State.{
  Context, Parser, M, find, pure, get, put, raise, require, lifted, scan, done, diverges, ◌>>=◌,
  ◌>>◌,
}
use xmlparser.Parser.Cursor.{location, expect}
use xmlparser.Parser.Tokens.{reference_loop}

-- The value of a digit; `none` is the source's -1.
unfoldable pub digit_value : ℕ → Option ℕ
digit_value ch =
    if within b'0' b'9' ch
    then some (ch - b'0')
    else if within b'a' b'f' ch
    then some (10 + ch - b'a')
    else if within b'A' b'F' ch
    then some (10 + ch - b'A')
    else none

-- The body of the loop over the digits, on a `char32_t`.
unfoldable pub add_digit : SourceLocation → ℕ → ℕ → Option ℕ → Result ℕ
add_digit start base value none =
    Errors.throw_parse well_formedness start "invalid character reference"
add_digit start base value (some digit) =
    if leb base digit
    then Errors.throw_parse well_formedness start "invalid character reference"
    else if ltb ((2 ^ 32 - 1 - digit) / base) value
    then Errors.throw_parse well_formedness start "character reference overflow"
    else ok ((value * base + digit) % 2 ^ 32)

unfoldable pub digits_loop : SourceLocation → ℕ → ℕ → Bytes → Result ℕ
digits_loop start base value [] = ok value
digits_loop start base value (ch ∷ text) =
    Errors.◌>>=◌ (add_digit start base value (digit_value ch))
      (λ next. digits_loop start base next text)

-- The base, and the digits behind `#` or `#x`.
unfoldable pub reference_digits : Bytes → ℕ × Bytes
reference_digits (hash ∷ x ∷ d ∷ text) =
    if x == b'x' || x == b'X' then (16, d ∷ text) else (10, x ∷ d ∷ text)
reference_digits ascii = (10, drop 1 ascii)

unfoldable pub character_of : XmlVersion → SourceLocation → ℕ → Result Bytes
character_of version start value =
    if is_valid_xml_char value version
    then ok (append_utf8 [] value)
    else Errors.throw_parse well_formedness start "character reference is not an XML character"

unfoldable pub number_of : SourceLocation → ℕ × Bytes → Result ℕ
number_of start (base, []) = Errors.throw_parse well_formedness start "empty character reference"
number_of start (base, d ∷ digits) = digits_loop start base 0 (d ∷ digits)

unfoldable pub parse_character_reference : XmlVersion → Bytes → SourceLocation → Result Bytes
parse_character_reference version ascii start =
    Errors.◌>>=◌ (number_of start (reference_digits ascii)) (character_of version start)

unfoldable pub predefined : Bytes → Option Bytes
predefined name =
    if name =s= codes "lt"
    then some (codes "<")
    else if name =s= codes "gt"
    then some (codes ">")
    else if name =s= codes "amp"
    then some (codes "&")
    else if name =s= codes "apos"
    then some (codes "'")
    else if name =s= codes "quot"
    then some (codes "\"")
    else none

-- `!name.empty() && name[0] == '#'`
abbrev pub is_numeric : Bytes → Bool
is_numeric [] = Bool.false
is_numeric (ch ∷ text) = ch == b'#'

-- `++entity_expansions_`, and the test of the limit.
unfoldable pub count_expansion : Context → SourceLocation → M (Unit {0})
count_expansion ctx start = do
  p ← get
  put (record p { entity_expansions = p.entity_expansions + 1 })
  require (leb (p.entity_expansions + 1) ctx.options.max_entity_expansions) resource_limit start
      "entity expansion count exceeds max_entity_expansions"

unfoldable pub check_depth : Context → SourceLocation → ℕ → M (Unit {0})
check_depth ctx start depth =
    require (leb depth ctx.options.max_entity_expansions) resource_limit start
      "entity expansion count exceeds max_entity_expansions"

-- The end of a round at `&`: the entity is looked up; `nested` expands a declared one.
unfoldable pub declared_piece : SourceLocation → (Bytes → M Bytes) → Option Bytes → M Bytes
declared_piece start nested none = raise validity start "undeclared entity reference"
declared_piece start nested (some text) = nested text

unfoldable pub piece_of :
    Context → SourceLocation → (Bytes → M Bytes) → Bytes → Option Bytes → M Bytes
piece_of ctx start nested name (some text) p = done text p
piece_of ctx start nested name none p =
    if is_numeric name
    then lifted (parse_character_reference ctx.options.version name start) p
    else declared_piece start nested (find name p.dtd.entities) p

-- What stands for the entity `name` in a replacement text.
unfoldable pub replacement_piece : Context → SourceLocation → (Bytes → M Bytes) → Bytes → M Bytes
replacement_piece ctx start nested name = piece_of ctx start nested name (predefined name)

-- The rest of a round at `&`, when `name` is what stands before the `;`.
unfoldable pub expand_reference :
    Context → SourceLocation → (Bytes → M Bytes) → (Bytes → M Bytes) → Bytes → Bytes → M Bytes
expand_reference ctx start nested continue expanded name = do
  count_expansion ctx start
  piece ← replacement_piece ctx start nested name
  require (leb (length (expanded ++ piece)) ctx.options.max_entity_replacement_bytes) resource_limit
      start "entity replacement exceeds max_entity_replacement_bytes"
  continue (expanded ++ piece)

-- A round at `&`, with the place of the next `;` in `text`.
unfoldable pub expand_at :
    Context
    → SourceLocation
    → (Bytes → M Bytes)
    → (Bytes → Bytes → M Bytes)
    → Bytes
    → Bytes
    → Option ℕ
    → M Bytes
expand_at ctx start nested continue expanded text none =
    raise validity start "truncated entity replacement"
expand_at ctx start nested continue expanded text (some n) =
    expand_reference ctx start nested (λ grown. continue grown (drop (suc n) text)) expanded
      (take n text)

-- A round of the loop of `expand_entity_text`: `continue` is the loop on what follows.
unfoldable pub expand_round :
    Context
    → SourceLocation
    → (Bytes → M Bytes)
    → (Bytes → Bytes → M Bytes)
    → Bytes
    → Bytes
    → M Bytes
expand_round ctx start nested continue expanded [] p = done expanded p
expand_round ctx start nested continue expanded (ch ∷ text) p =
    if ch == b'&'
    then expand_at ctx start nested continue expanded text (find_byte b';' text) p
    else continue (expanded ++ ch ∷ []) text p

-- The loop of `expand_entity_text` at `depth`. `levels` is the fuel for the calls at greater depth
-- and `fuel` that for the rounds of this one.
unfoldable pub expand_loop : Context → SourceLocation → ℕ → ℕ → ℕ → Bytes → Bytes → M Bytes
expand_loop ctx start levels zero depth expanded text = λ _. diverges
expand_loop ctx start zero (suc fuel) depth expanded text =
    expand_round ctx start (λ _. check_depth ctx start (depth + 1) >> (λ _. diverges))
      (expand_loop ctx start zero fuel depth) expanded text
expand_loop ctx start (suc levels) (suc fuel) depth expanded text =
    expand_round ctx start
      (λ inner.
        check_depth ctx start (depth + 1)
        >> expand_loop ctx start levels (suc (length inner)) (depth + 1) [] inner)
      (expand_loop ctx start (suc levels) fuel depth) expanded text

-- The depth stays within `max_entity_expansions`, so as many levels are enough.
unfoldable pub expand_entity_text : Context → Bytes → SourceLocation → M Bytes
expand_entity_text ctx text start = do
  check_depth ctx start 0
  expand_loop ctx start ctx.options.max_entity_expansions (suc (length text)) 0 [] text

-- The end of `parse_reference`: the lookup of the entity, and before it the other kinds of names.
unfoldable pub resolve_entity : Context → SourceLocation → Option Bytes → M Bytes
resolve_entity ctx start (some text) p = expand_entity_text ctx text start p
resolve_entity ctx start none p =
    if is_dtd ctx.options.validation
    then raise validity start "undeclared entity reference" p
    else raise well_formedness start "unknown entity reference" p

unfoldable pub resolve_named : Context → SourceLocation → Bytes → Option Bytes → M Bytes
resolve_named ctx start ascii (some text) p = done text p
resolve_named ctx start ascii none p =
    if is_numeric ascii
    then lifted (parse_character_reference ctx.options.version ascii start) p
    else resolve_entity ctx start (find ascii p.dtd.entities) p

unfoldable pub resolve_reference : Context → SourceLocation → Bytes → M Bytes
resolve_reference ctx start ascii = resolve_named ctx start ascii (predefined ascii)

unfoldable pub parse_reference : Context → M Bytes
parse_reference ctx = do
  p ← get
  let start = location ctx p.chars
  scan (expect ctx b'&' "expected '&'")
  count_expansion ctx start
  name ← scan (reference_loop ctx start [])
  scan (expect ctx b';' "expected ';' after entity reference")
  resolve_reference ctx start (to_ascii name)
