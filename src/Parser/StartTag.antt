-- ===== src/Parser/StartTag.antt =====
-- What `parse_element` does between the name and the end of a start tag.
pub mod Attributes
use xmlparser.Prelude.{
  ℕ, zero, suc, ◌+◌, Bool, true, false, not, ◌&&◌, ◌||◌, List, [], ◌∷◌, ◌++◌, Bytes, ◌=s=◌, leb,
  if◌then◌else◌, length, any_of,
}
use xmlparser.Errors.{
  SourceLocation, well_formedness, resource_limit, Result, ok, stuck, throw_parse,
}
use xmlparser.Errors
use xmlparser.Sax.{QualifiedName, AttributeView, start_element}
use xmlparser.Parser.State.{
  Context, Parser, Map, RawAttribute, M, pure, get, put, require, lifted, call, ◌>>=◌, ◌>>◌,
}
use xmlparser.Parser.Namespaces.{
  is_namespace_declaration, collect_namespace_declarations, resolve_name,
}
use xmlparser.Parser.Values.{parse_attributes}

-- `attribute_value_storage`: the values of the attributes that declare no namespace.
unfoldable pub value_storage : Context → List RawAttribute → List Bytes
value_storage ctx [] = []
value_storage ctx (attribute ∷ attributes) =
    let rest = value_storage ctx attributes in
    if is_namespace_declaration ctx attribute.name then rest else attribute.value ∷ rest

abbrev pub ExpandedName : Type 0
ExpandedName = Bytes × Bytes

abbrev pub expanded : QualifiedName → ExpandedName
expanded name = (name.uri, name.local_name)

-- `expanded_attribute_names` holds the pair.
abbrev pub has_expanded : ExpandedName → List ExpandedName → Bool
has_expanded name = any_of (λ other. (other.0 =s= name.0) && (other.1 =s= name.1))

-- A round of the loop for an attribute with `value` the next of the storage; `later` is the loop on
-- the other attributes, given the names seen.
unfoldable pub resolve_attribute :
    RawAttribute
    → Bytes
    → List ExpandedName
    → (List ExpandedName → Result (List AttributeView))
    → QualifiedName
    → Result (List AttributeView)
resolve_attribute attribute value seen later name =
    if has_expanded (expanded name) seen
    then throw_parse well_formedness attribute.location "duplicate expanded attribute name"
    else Errors.◌>>=◌ (later (expanded name ∷ seen))
        (λ views. ok (record { name = name; value = value; location = attribute.location } ∷ views))

unfoldable pub resolve_attributes :
    Context
    → List (Map Bytes)
    → List Bytes
    → List ExpandedName
    → List RawAttribute
    → Result (List AttributeView)
resolve_attributes ctx scopes storage seen [] = ok []
resolve_attributes ctx scopes [] seen (attribute ∷ attributes) =
    let rest = resolve_attributes ctx scopes [] seen attributes in
    if is_namespace_declaration ctx attribute.name then rest else stuck
resolve_attributes ctx scopes (value ∷ storage) seen (attribute ∷ attributes) =
    let rest = resolve_attributes ctx scopes (value ∷ storage) seen attributes in
    let one = Errors.◌>>=◌ (resolve_name ctx scopes attribute.name false attribute.location) (
      resolve_attribute attribute value seen
        (λ names. resolve_attributes ctx scopes storage names attributes)) in
    if is_namespace_declaration ctx attribute.name then rest else one

-- From the attributes to the call of `start_element`, for an element that begins at `start`.
unfoldable pub open_element : Context → SourceLocation → Bytes → List RawAttribute → M QualifiedName
open_element ctx start name attributes = do
  p ← get
  let scopes = collect_namespace_declarations ctx attributes ∷ p.namespace_scopes
  put (record p { namespace_scopes = scopes })
  element_name ← lifted (resolve_name ctx scopes name true start)
  views ← lifted (resolve_attributes ctx scopes (value_storage ctx attributes) [] attributes)
  put (record p {
    namespace_scopes = scopes;
    element_stack = name ∷ p.element_stack;
    element_name_stack = element_name ∷ p.element_name_stack;
    validation_stack =
        record { name = name; child_elements = []; has_non_whitespace_text = false }
        ∷ p.validation_stack;
  })
  call (start_element element_name views)
  pure element_name
