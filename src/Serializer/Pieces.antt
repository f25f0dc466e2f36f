-- ===== src/Serializer/Pieces.antt =====
-- One escaped character, as the loops of the parser read it.
use xmlparser.Prelude.{
  ℕ, suc, ◌+◌, ◌<◌, ◌≤◌, true, false, ◌||◌, [], ◌∷◌, Bytes, codes, leb, ◌==◌, Bool-cases, inl, inr,
  ◌≡◌, refl, subst, arith, if◌then◌else◌,
}
use xmlparser.Errors.{SourceLocation}
use xmlparser.Chars.{utf8_bytes, to_ascii}
use xmlparser.Parser.State.{Context, Parser, Chars, done, require}
use xmlparser.Parser.Cursor.{peek, location, advance, expect, enforce_token_size}
use xmlparser.Parser.Tokens.{reference_loop}
use xmlparser.Parser.References.{
  parse_reference, count_expansion, resolve_reference, resolve_named, predefined,
}
use xmlparser.Parser.Values.{take_char, text_piece}
use xmlparser.Serializer.{text_escape, attribute_escape}

-- Characters with these values, then others; `at` gives the places.
abbrev pub place : (ℕ → SourceLocation) → ℕ → Bytes → Chars → Chars
place at n [] rest = rest
place at n (ch ∷ text) rest = record { value = ch; location = at n } ∷ place at (suc n) text rest

abbrev pub reading : Parser → Chars → ℕ → Parser
reading p chars expansions = record p { chars = chars; entity_expansions = expansions }

module _ (ctx : Context) (small : 4 ≤ ctx.options.max_token_bytes) (p : Parser)
    (at : ℕ → SourceLocation) where
  -- References to predefined entities.
  reads_amp :
      (n e : ℕ) (rest : Chars)
      → leb (e + 1) ctx.options.max_entity_expansions ≡ true
      → parse_reference ctx (reading p (place at n (codes "&amp;") rest) e)
        ≡ done (codes "&") (reading p rest (e + 1))
  unfolding parse_reference expect advance peek location count_expansion require reference_loop
      enforce_token_size resolve_reference resolve_named predefined to_ascii
  reads_amp n e rest room =
      let one : leb 1 ctx.options.max_token_bytes ≡ true = ground (arith, small) in
      let two : leb 2 ctx.options.max_token_bytes ≡ true = ground (arith, small) in
      let three : leb 3 ctx.options.max_token_bytes ≡ true = ground (arith, small) in
      rw (room, one, two, three) refl

  reads_lt :
      (n e : ℕ) (rest : Chars)
      → leb (e + 1) ctx.options.max_entity_expansions ≡ true
      → parse_reference ctx (reading p (place at n (codes "&lt;") rest) e)
        ≡ done (codes "<") (reading p rest (e + 1))
  unfolding parse_reference expect advance peek location count_expansion require reference_loop
      enforce_token_size resolve_reference resolve_named predefined to_ascii
  reads_lt n e rest room =
      let one : leb 1 ctx.options.max_token_bytes ≡ true = ground (arith, small) in
      let two : leb 2 ctx.options.max_token_bytes ≡ true = ground (arith, small) in
      rw (room, one, two) refl

  reads_gt :
      (n e : ℕ) (rest : Chars)
      → leb (e + 1) ctx.options.max_entity_expansions ≡ true
      → parse_reference ctx (reading p (place at n (codes "&gt;") rest) e)
        ≡ done (codes ">") (reading p rest (e + 1))
  unfolding parse_reference expect advance peek location count_expansion require reference_loop
      enforce_token_size resolve_reference resolve_named predefined to_ascii
  reads_gt n e rest room =
      let one : leb 1 ctx.options.max_token_bytes ≡ true = ground (arith, small) in
      let two : leb 2 ctx.options.max_token_bytes ≡ true = ground (arith, small) in
      rw (room, one, two) refl

  reads_quot :
      (n e : ℕ) (rest : Chars)
      → leb (e + 1) ctx.options.max_entity_expansions ≡ true
      → parse_reference ctx (reading p (place at n (codes "&quot;") rest) e)
        ≡ done (codes "\"") (reading p rest (e + 1))
  unfolding parse_reference expect advance peek location count_expansion require reference_loop
      enforce_token_size resolve_reference resolve_named predefined to_ascii
  reads_quot n e rest room =
      let one : leb 1 ctx.options.max_token_bytes ≡ true = ground (arith, small) in
      let two : leb 2 ctx.options.max_token_bytes ≡ true = ground (arith, small) in
      let three : leb 3 ctx.options.max_token_bytes ≡ true = ground (arith, small) in
      let four : leb 4 ctx.options.max_token_bytes ≡ true = ground (arith, small) in
      rw (room, one, two, three, four) refl

  -- Any other character.
  reads_plain :
      (n e ch : ℕ) (rest : Chars)
      → ch < 128
      → (ch == b'&') ≡ false
      → text_piece ctx (reading p (place at n (ch ∷ []) rest) e) ≡ done (ch ∷ []) (reading p rest e)
  unfolding text_piece take_char advance peek utf8_bytes
  reads_plain n e ch rest ascii other =
      let small_char : leb ch 0x7F ≡ true = ground (arith, ascii) in rw (other, small_char) refl

-- How many references the escaped form of a character has.
abbrev pub text_cost : ℕ → ℕ
text_cost ch = if ch == b'&' || (ch == b'<' || ch == b'>') then 1 else 0

abbrev pub attribute_cost : ℕ → ℕ
attribute_cost ch = if ch == b'&' || (ch == b'<' || ch == b'"') then 1 else 0

abbrev pub costs : (ℕ → ℕ) → Bytes → ℕ
costs cost [] = 0
costs cost (ch ∷ text) = cost ch + costs cost text

-- A round of the parser's loops reads one escaped character.
abbrev pub ReadsPiece : Context → Parser → (ℕ → SourceLocation) → (ℕ → Bytes) → (ℕ → ℕ) → Type 0
ReadsPiece ctx p at escape cost =
    (n e ch : ℕ) (rest : Chars)
    → ch < 128
    → e + cost ch ≤ ctx.options.max_entity_expansions
    → text_piece ctx (reading p (place at n (escape ch) rest) e)
      ≡ done (ch ∷ []) (reading p rest (e + cost ch))

module _ (ctx : Context) (small : 4 ≤ ctx.options.max_token_bytes) (p : Parser)
    (at : ℕ → SourceLocation) where
  pub text_escape-ReadsPiece : ReadsPiece ctx p at text_escape text_cost
  unfolding text_piece text_escape peek
  text_escape-ReadsPiece n e ch rest ascii room = elim (Bool-cases (ch == b'&')) [
    | inl is_amp ↦
        let here : b'&' ≡ ch = ground (arith, is_amp) in
        let left : leb (e + 1) ctx.options.max_entity_expansions ≡ true =
          ground (arith, room, is_amp) in
        subst
          (λ (c : ℕ).
            text_piece ctx (reading p (place at n (text_escape c) rest) e)
            ≡ done (c ∷ []) (reading p rest (e + text_cost c)))
          here (reads_amp ctx small p at n e rest left)
    | inr n1 ↦ elim (Bool-cases (ch == b'<')) [
      | inl is_lt ↦
          let here : b'<' ≡ ch = ground (arith, is_lt) in
          let left : leb (e + 1) ctx.options.max_entity_expansions ≡ true =
            ground (arith, room, is_lt, n1) in
          subst
            (λ (c : ℕ).
              text_piece ctx (reading p (place at n (text_escape c) rest) e)
              ≡ done (c ∷ []) (reading p rest (e + text_cost c)))
            here (reads_lt ctx small p at n e rest left)
      | inr n2 ↦ elim (Bool-cases (ch == b'>')) [
        | inl is_gt ↦
            let here : b'>' ≡ ch = ground (arith, is_gt) in
            let left : leb (e + 1) ctx.options.max_entity_expansions ≡ true =
              ground (arith, room, is_gt, n1, n2) in
            subst
              (λ (c : ℕ).
                text_piece ctx (reading p (place at n (text_escape c) rest) e)
                ≡ done (c ∷ []) (reading p rest (e + text_cost c)))
              here (reads_gt ctx small p at n e rest left)
        | inr n3 ↦
            let self : text_escape ch ≡ ch ∷ [] = ground (arith, n1, n2, n3) in
            let free : e + text_cost ch ≡ e = ground (arith, n1, n2, n3) in
            rw (self, free) (reads_plain ctx small p at n e ch rest ascii n1)
      ]
    ]
  ]

  pub attribute_escape-ReadsPiece : ReadsPiece ctx p at attribute_escape attribute_cost
  unfolding text_piece attribute_escape peek
  attribute_escape-ReadsPiece n e ch rest ascii room = elim (Bool-cases (ch == b'&')) [
    | inl is_amp ↦
        let here : b'&' ≡ ch = ground (arith, is_amp) in
        let left : leb (e + 1) ctx.options.max_entity_expansions ≡ true =
          ground (arith, room, is_amp) in
        subst
          (λ (c : ℕ).
            text_piece ctx (reading p (place at n (attribute_escape c) rest) e)
            ≡ done (c ∷ []) (reading p rest (e + attribute_cost c)))
          here (reads_amp ctx small p at n e rest left)
    | inr n1 ↦ elim (Bool-cases (ch == b'<')) [
      | inl is_lt ↦
          let here : b'<' ≡ ch = ground (arith, is_lt) in
          let left : leb (e + 1) ctx.options.max_entity_expansions ≡ true =
            ground (arith, room, is_lt, n1) in
          subst
            (λ (c : ℕ).
              text_piece ctx (reading p (place at n (attribute_escape c) rest) e)
              ≡ done (c ∷ []) (reading p rest (e + attribute_cost c)))
            here (reads_lt ctx small p at n e rest left)
      | inr n2 ↦ elim (Bool-cases (ch == b'"')) [
        | inl is_quot ↦
            let here : b'"' ≡ ch = ground (arith, is_quot) in
            let left : leb (e + 1) ctx.options.max_entity_expansions ≡ true =
              ground (arith, room, is_quot, n1, n2) in
            subst
              (λ (c : ℕ).
                text_piece ctx (reading p (place at n (attribute_escape c) rest) e)
                ≡ done (c ∷ []) (reading p rest (e + attribute_cost c)))
              here (reads_quot ctx small p at n e rest left)
        | inr n3 ↦
            let self : attribute_escape ch ≡ ch ∷ [] = ground (arith, n1, n2, n3) in
            let free : e + attribute_cost ch ≡ e = ground (arith, n1, n2, n3) in
            rw (self, free) (reads_plain ctx small p at n e ch rest ascii n1)
      ]
    ]
  ]
