-- ===== src/Parser/Content.antt =====
-- `parse_element` and `parse_content`, which call each other.
use xmlparser.Prelude.{
  ℕ, zero, suc, ◌+◌, true, not, ◌||◌, List, [], ◌∷◌, Bytes, codes, ◌=s=◌, ◌==◌, leb, if◌then◌else◌,
  length,
}
use xmlparser.Errors.{SourceLocation, well_formedness, resource_limit}
use xmlparser.Sax.{QualifiedName, end_element}
use xmlparser.Parser.State.{
  Context, Map, RawAttribute, M, pure, get, raise, require, call, scan, done, diverges, ◌>>=◌, ◌>>◌,
}
use xmlparser.Parser.Cursor.{
  eof, peek, location, starts_with, expect, expect_sequence, skip_whitespace,
}
use xmlparser.Parser.Tokens.{parse_name}
use xmlparser.Parser.Markup.{parse_comment, parse_cdata, parse_processing_instruction}
use xmlparser.Parser.Validation.{finish_validation_frame}
use xmlparser.Parser.Values.{parse_text, parse_attributes}
use xmlparser.Parser.StartTag.{open_element}

-- `namespace_scopes_.pop_back(); element_name_stack_.pop_back(); element_stack_.pop_back();`, which
-- on empty vectors would be undefined.
unfoldable pub pop_stacks : List (Map Bytes) → List QualifiedName → List Bytes → M (Unit {0})
pop_stacks (scope ∷ scopes) (qname ∷ qnames) (name ∷ names) p =
    done tt
      (record p { namespace_scopes = scopes; element_name_stack = qnames; element_stack = names })
pop_stacks scopes qnames names p = diverges

unfoldable pub close_element : Context → SourceLocation → M (Unit {0})
close_element ctx start = do
  finish_validation_frame ctx start
  p ← get
  pop_stacks p.namespace_scopes p.element_name_stack p.element_stack

-- `parse_element` up to the attributes: the place of the `<`, the name, the attributes.
unfoldable pub parse_start_tag : Context → M (SourceLocation × Bytes × List RawAttribute)
parse_start_tag ctx = do
  p ← get
  let start = location ctx p.chars
  scan (expect ctx b'<' "expected '<'")
  q ← get
  require (not (peek q.chars == b'/' || peek q.chars == b'!' || peek q.chars == b'?'))
      well_formedness start "expected element start tag"
  name ← scan (parse_name ctx)
  require (leb (length p.element_stack + 1) ctx.options.max_depth) resource_limit start
      "XML element depth limit exceeded"
  attributes ← parse_attributes ctx
  pure (start, name, attributes)

-- `handler_.end_element(element_name_stack_.back());`
unfoldable pub end_top : List QualifiedName → M (Unit {0})
end_top [] p = diverges
end_top (name ∷ names) p = call (end_element name) p

-- The end tag, at `</`.
unfoldable pub parse_end_tag : Context → Bytes → M (Unit {0})
parse_end_tag ctx open_name = do
  p ← get
  scan (expect_sequence ctx (codes "</") "expected end tag")
  end_name ← scan (parse_name ctx)
  scan skip_whitespace
  scan (expect ctx b'>' "expected '>'")
  require (end_name =s= open_name) well_formedness (location ctx p.chars) "mismatched end tag"
  q ← get
  end_top q.element_name_stack

-- One item of the content; `child` is `parse_element`.
unfoldable pub parse_item : Context → M (Unit {0}) → M (Unit {0})
parse_item ctx child p =
    if starts_with (codes "<!--") p.chars
    then parse_comment ctx true p
    else if starts_with (codes "<![CDATA[") p.chars
    then parse_cdata ctx p
    else if starts_with (codes "<?") p.chars
    then parse_processing_instruction ctx true p
    else if peek p.chars == b'<'
    then child p
    else parse_text ctx p

-- A round of the loop of `parse_content`; `again` is the loop on what follows.
unfoldable pub content_round : Context → Bytes → M (Unit {0}) → M (Unit {0}) → M (Unit {0})
content_round ctx open_name child again p =
    if eof p.chars
    then raise well_formedness (location ctx p.chars) "truncated XML element content" p
    else if starts_with (codes "</") p.chars
    then parse_end_tag ctx open_name p
    else (parse_item ctx child >> again) p

-- The end of `parse_element`, behind the call of `start_element`; `content` is `parse_content`.
unfoldable pub element_body :
    Context → SourceLocation → Bytes → QualifiedName → (Bytes → M (Unit {0})) → M (Unit {0})
element_body ctx start name element_name content p =
    if starts_with (codes "/>") p.chars
    then (do
      scan (expect_sequence ctx (codes "/>") "expected empty element close")
      call (end_element element_name)
      close_element ctx start)
        p
    else (do scan (expect ctx b'>' "expected '>'"); content name; close_element ctx start) p

unfoldable mutual
  pub parse_element : Context → ℕ → M (Unit {0})
  parse_element ctx zero p = diverges
  parse_element ctx (suc fuel) p =
      (do
        (start, name, attributes) ← parse_start_tag ctx
        element_name ← open_element ctx start name attributes
        element_body ctx start name element_name (parse_content ctx fuel))
        p

  pub parse_content : Context → ℕ → Bytes → M (Unit {0})
  parse_content ctx zero open_name p = diverges
  parse_content ctx (suc fuel) open_name p =
      content_round ctx open_name (parse_element ctx fuel) (parse_content ctx fuel open_name) p
