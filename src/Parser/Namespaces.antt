-- ===== src/Parser/Namespaces.antt =====
-- Namespaces: the methods from `is_namespace_declaration` to `lookup_namespace`.
pub mod Scopes
use xmlparser.Prelude.{
  ℕ, zero, suc, ◌+◌, Bool, true, false, ◌&&◌, ◌||◌, not, List, [], ◌∷◌, Option, none, some, Bytes,
  codes, ◌=s=◌, ◌==◌, leb, if◌then◌else◌, length, drop, take, begins_with, find_byte, is_empty,
  any_of,
}
use xmlparser.Errors.{SourceLocation, well_formedness, Result, ok, throw_parse}
use xmlparser.Options.{is_enabled}
use xmlparser.Sax.{QualifiedName}
use xmlparser.Parser.State.{Context, RawAttribute, Map, find, assign}

unfoldable pub is_namespace_declaration : Context → Bytes → Bool
is_namespace_declaration ctx name =
    is_enabled ctx.options.namespaces
    && (name =s= codes "xmlns" || begins_with (codes "xmlns:") name)

-- The loop of `collect_namespace_declarations`.
unfoldable pub collect_loop : Map Bytes → List RawAttribute → Map Bytes
collect_loop declarations [] = declarations
collect_loop declarations (attribute ∷ attributes) =
    collect_loop
      (if attribute.name =s= codes "xmlns"
        then assign [] attribute.value declarations
        else if begins_with (codes "xmlns:") attribute.name
        then assign (drop 6 attribute.name) attribute.value declarations
        else declarations)
      attributes

unfoldable pub collect_namespace_declarations : Context → List RawAttribute → Map Bytes
collect_namespace_declarations ctx attributes =
    if is_enabled ctx.options.namespaces then collect_loop [] attributes else []

-- The scopes from the innermost outwards, as the reverse iterators run.
unfoldable pub lookup_scopes : Bytes → List (Map Bytes) → Bytes
lookup_scopes prefix [] = []
lookup_scopes prefix (scope ∷ scopes) = elim (find prefix scope) [
  | some uri ↦ uri
  | none ↦ lookup_scopes prefix scopes
]

unfoldable pub lookup_namespace : List (Map Bytes) → Bytes → Bytes
lookup_namespace scopes prefix =
    if prefix =s= codes "xml"
    then codes "http://www.w3.org/XML/1998/namespace"
    else lookup_scopes prefix scopes

-- The end of `resolve_name`, on the prefix and the local name.
unfoldable pub resolve_prefixed :
    List (Map Bytes) → SourceLocation → Bytes → Bytes → Bytes → Result QualifiedName
resolve_prefixed scopes start qname prefix local_name =
    let uri = lookup_namespace scopes prefix in
    if is_empty uri && not (prefix =s= codes "xml")
    then throw_parse well_formedness start "undeclared namespace prefix"
    else ok (record { uri = uri; local_name = local_name; qualified_name = qname })

unfoldable pub resolve_at : List (Map Bytes) → SourceLocation → Bytes → ℕ → Result QualifiedName
resolve_at scopes start qname colon =
    if colon == 0
      || leb (length qname) (colon + 1)
      || any_of (λ ch. ch == b':') (drop (colon + 1) qname)
    then throw_parse well_formedness start "invalid namespace-qualified name"
    else resolve_prefixed scopes start qname (take colon qname) (drop (colon + 1) qname)

unfoldable pub resolve_name :
    Context → List (Map Bytes) → Bytes → Bool → SourceLocation → Result QualifiedName
resolve_name ctx scopes qname is_element start =
    if is_enabled ctx.options.namespaces
    then elim (find_byte b':' qname) [
      | none ↦ ok (record {
        uri = if is_element then lookup_namespace scopes [] else [];
        local_name = qname;
        qualified_name = qname;
      })
      | some colon ↦ resolve_at scopes start qname colon
    ]
    else ok (record { uri = []; local_name = qname; qualified_name = qname })
