-- ===== src/Parser/Doctype.antt =====
-- The external subset, as text from the caller's resolver, and the DOCTYPE declaration itself.
use xmlparser.Prelude.{
  ℕ, zero, suc, ◌+◌, ◌-◌, Bool, true, false, ◌&&◌, [], ◌∷◌, Option, none, some, Bytes, codes, ◌=s=◌,
  ◌==◌, leb, if◌then◌else◌, length, drop, take, begins_with, find_byte,
}
use xmlparser.Errors.{well_formedness, validity, resource_limit, Result, ok}
use xmlparser.Options.{is_dtd}
use xmlparser.Chars.{is_space, is_space_byte}
use xmlparser.Parser.State.{Context, Scan, M, get, raise, lifted, scan, done, diverges, ◌>>=◌, ◌>>◌}
use xmlparser.Parser.Cursor.{
  peek, location, starts_with, advance, expect, expect_sequence, skip_whitespace,
}
use xmlparser.Parser.Tokens.{parse_name, parse_quoted_literal}
use xmlparser.Parser.Dtd.{
  update_dtd, require_here, enforce_dtd_declaration_limit, declare_element, parse_internal_subset,
}

-- The loops that move `cursor` over spaces, and over what is no space.
unfoldable pub skip_blanks : Bytes → Bytes
skip_blanks [] = []
skip_blanks (ch ∷ text) = if ch == b' ' then skip_blanks text else ch ∷ text

unfoldable pub split_blank : Bytes → Bytes × Bytes
split_blank [] = ([], [])
split_blank (ch ∷ text) =
    let (name, rest) = split_blank text in if ch == b' ' then ([], ch ∷ text) else (ch ∷ name, rest)

unfoldable pub skip_space_bytes : Bytes → Bytes
skip_space_bytes [] = []
skip_space_bytes (ch ∷ text) = if is_space_byte ch then skip_space_bytes text else ch ∷ text

-- `!declaration.empty() && declaration.back() == '>'`
unfoldable pub ends_with_close : Bytes → Bool
ends_with_close [] = false
ends_with_close (ch ∷ text) = drop (length text) (ch ∷ text) =s= codes ">"

-- The model is `declaration.substr(cursor, declaration.size() - cursor - 1)`: all but the last byte
-- from `cursor` on. At the very end the count wraps to `npos`, and `substr` gives the empty text.
unfoldable pub parse_external_element_declaration : Context → Bytes → M (Unit {0})
parse_external_element_declaration ctx declaration = do
  enforce_dtd_declaration_limit ctx
  let (name, rest) = split_blank (skip_blanks (drop 9 declaration))
  let model = skip_blanks rest
  require_here (ends_with_close declaration) ctx validity "invalid external element declaration"
  p ← get
  declare_element (location ctx p.chars) name (take (length model - 1) model)

unfoldable pub external_element : Context → (Bytes → M (Unit {0})) → Bytes → Option ℕ → M (Unit {0})
external_element ctx again subset none p =
    raise validity (location ctx p.chars) "truncated external element declaration" p
external_element ctx again subset (some close) p =
    (parse_external_element_declaration ctx (take (close + 1) subset)
        >> again (drop (close + 1) subset))
      p

-- A round of the loop, when the spaces are skipped.
unfoldable pub external_round : Context → (Bytes → M (Unit {0})) → Bytes → M (Unit {0})
external_round ctx again [] p = done tt p
external_round ctx again (ch ∷ subset) p =
    if begins_with (codes "<!ELEMENT") (ch ∷ subset)
    then external_element ctx again (ch ∷ subset) (find_byte b'>' (ch ∷ subset)) p
    else raise validity (location ctx p.chars) "unsupported external DTD declaration" p

unfoldable pub external_subset_loop : Context → ℕ → Bytes → M (Unit {0})
external_subset_loop ctx zero subset p = diverges
external_subset_loop ctx (suc fuel) subset p =
    external_round ctx (external_subset_loop ctx fuel) (skip_space_bytes subset) p

-- Each round takes nine bytes at least.
unfoldable pub parse_external_subset_text : Context → Bytes → M (Unit {0})
parse_external_subset_text ctx subset = external_subset_loop ctx (length subset + 1) subset

-- With the caller's resolver.
unfoldable pub resolve_with : Context → (Bytes → Result Bytes) → M (Unit {0})
resolve_with ctx resolver = do
  p ← get
  subset ← lifted (resolver p.dtd.external_system_id)
  require_here (leb (length subset) ctx.options.max_external_subset_bytes) ctx resource_limit
      "external DTD subset exceeds max_external_subset_bytes"
  parse_external_subset_text ctx subset

unfoldable pub resolve_external : Context → Bool → Option (Bytes → Result Bytes) → M (Unit {0})
resolve_external ctx true (some resolver) p = resolve_with ctx resolver p
resolve_external ctx allowed resolver p =
    raise validity (location ctx p.chars) "external DTD resolution is disabled" p

unfoldable pub resolve_external_subset_if_needed : Context → M (Unit {0})
resolve_external_subset_if_needed ctx p =
    if p.dtd.has_external_subset && is_dtd ctx.options.validation
    then resolve_external ctx ctx.options.allow_external_dtd ctx.options.external_dtd_resolver p
    else done tt p

abbrev pub set_external_id : Bytes → M (Unit {0})
set_external_id id = update_dtd (λ d. record d { external_system_id = id })

abbrev pub set_external_subset : M (Unit {0})
set_external_subset = update_dtd (λ d. record d { has_external_subset = true })

-- `index_ += 6;`
unfoldable pub skip_keyword : Scan (Unit {0})
skip_keyword chars = ok (tt, drop 6 chars)

unfoldable pub parse_system_id : Context → M (Unit {0})
parse_system_id ctx = do
  scan skip_keyword
  scan skip_whitespace
  set_external_subset
  id ← scan (parse_quoted_literal ctx)
  set_external_id id
  scan skip_whitespace

unfoldable pub parse_public_id : Context → M (Unit {0})
parse_public_id ctx = do
  scan skip_keyword
  scan skip_whitespace
  _ ← scan (parse_quoted_literal ctx)
  scan skip_whitespace
  set_external_subset
  id ← scan (parse_quoted_literal ctx)
  set_external_id id
  scan skip_whitespace

unfoldable pub parse_external_id : Context → M (Unit {0})
parse_external_id ctx p =
    if starts_with (codes "SYSTEM") p.chars
    then parse_system_id ctx p
    else if starts_with (codes "PUBLIC") p.chars
    then parse_public_id ctx p
    else done tt p

unfoldable pub parse_subset_in_brackets : Context → M (Unit {0})
parse_subset_in_brackets ctx = do
  scan (advance ctx)
  parse_internal_subset ctx
  scan (expect ctx b']' "expected DOCTYPE internal subset close")
  scan skip_whitespace

unfoldable pub parse_subset_if_present : Context → M (Unit {0})
parse_subset_if_present ctx p =
    if peek p.chars == b'[' then parse_subset_in_brackets ctx p else done tt p

unfoldable pub parse_doctype : Context → M (Unit {0})
parse_doctype ctx = do
  update_dtd (λ d. record d { has_doctype = true })
  scan (expect_sequence ctx (codes "<!DOCTYPE") "expected DOCTYPE declaration")
  p ← get
  require_here (is_space (peek p.chars)) ctx well_formedness
      "DOCTYPE requires whitespace after keyword"
  scan skip_whitespace
  name ← scan (parse_name ctx)
  update_dtd (λ d. record d { root_name = name })
  scan skip_whitespace
  parse_external_id ctx
  parse_subset_if_present ctx
  scan (expect ctx b'>' "expected DOCTYPE close")
  resolve_external_subset_if_needed ctx

unfoldable pub parse_doctype_if_present : Context → M (Unit {0})
parse_doctype_if_present ctx p =
    if starts_with (codes "<!DOCTYPE") p.chars then parse_doctype ctx p else done tt p
