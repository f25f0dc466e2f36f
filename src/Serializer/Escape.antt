-- ===== src/Serializer/Escape.antt =====
-- Escaped text holds no byte that ends it in a document.
use xmlparser.Prelude.{ℕ, Bool, false, ◌||◌, [], ◌∷◌, ◌++◌, Bytes, ◌==◌, any_of, ◌≡◌, refl, arith}
use xmlparser.Serializer.{text_escape, attribute_escape, escape_text, escape_attribute}

-- Is the byte there?
abbrev pub has_byte : ℕ → Bytes → Bool
has_byte b = any_of (λ ch. ch == b)

has_byte-append : (b : ℕ) (xs ys : Bytes) → has_byte b (xs ++ ys) ≡ (has_byte b xs || has_byte b ys)
has_byte-append b [] ys = refl
has_byte-append b (x ∷ xs) ys = ground (arith, has_byte-append b xs ys)

text_escape_clean :
    (ch : ℕ) → (has_byte b'<' (text_escape ch) || has_byte b'>' (text_escape ch)) ≡ false
unfolding text_escape
text_escape_clean ch = ground arith

attribute_escape_clean :
    (ch : ℕ) → (has_byte b'<' (attribute_escape ch) || has_byte b'"' (attribute_escape ch)) ≡ false
unfolding attribute_escape
attribute_escape_clean ch = ground arith

escape_text_clean :
    (text : Bytes) → (has_byte b'<' (escape_text text) || has_byte b'>' (escape_text text)) ≡ false
unfolding escape_text
escape_text_clean [] = refl
escape_text_clean (ch ∷ text) = ground (
  arith,
  has_byte-append b'<' (text_escape ch) (escape_text text),
  has_byte-append b'>' (text_escape ch) (escape_text text),
  text_escape_clean ch,
  escape_text_clean text,
)

escape_attribute_clean :
    (text : Bytes)
    → (has_byte b'<' (escape_attribute text) || has_byte b'"' (escape_attribute text)) ≡ false
unfolding escape_attribute
escape_attribute_clean [] = refl
escape_attribute_clean (ch ∷ text) = ground (
  arith,
  has_byte-append b'<' (attribute_escape ch) (escape_attribute text),
  has_byte-append b'"' (attribute_escape ch) (escape_attribute text),
  attribute_escape_clean ch,
  escape_attribute_clean text,
)

-- Whatever the text is, its escaped form has no `<` or `>`, and the escaped form of an attribute
-- value has no `<` and no quotation mark: neither can end where it is written.
pub escaped_clean :
    (text : Bytes)
    → ((has_byte b'<' (escape_text text) || has_byte b'>' (escape_text text)) ≡ false)
      × ((has_byte b'<' (escape_attribute text) || has_byte b'"' (escape_attribute text)) ≡ false)
escaped_clean text = (escape_text_clean text, escape_attribute_clean text)
