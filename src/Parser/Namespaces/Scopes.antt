-- ===== src/Parser/Namespaces/Scopes.antt =====
-- Namespaces in scope: the maps that the parser keeps against the declarations of the open
-- elements.
use xmlparser.Prelude.{
  Bool, true, false, ◌&&◌, ◌||◌, List, [], ◌∷◌, ◌++◌, Option, none, some, Bytes, codes, ◌=s=◌,
  =s=_iff, begins_with, drop, length, is_empty, ◌≡◌, refl, sym, ap, ◌∙◌, arith, if◌then◌else◌,
  Bool-cases, inl, inr,
}
use xmlparser.Options.{is_enabled}
use xmlparser.Parser.State.{Context, RawAttribute, Map, find, assign}
use xmlparser.Parser.State.Maps.{or_else, find-assign}
use xmlparser.Parser.Namespaces.{
  collect_loop, collect_namespace_declarations, lookup_scopes, lookup_namespace,
}

-- Does an attribute of that name bind the prefix?
abbrev pub declares : Bytes → Bytes → Bool
declares prefix name =
    (is_empty prefix && (name =s= codes "xmlns")) || (name =s= (codes "xmlns:" ++ prefix))

-- What the attributes of one element bind the prefix to: the last declaration counts.
abbrev pub declared : Bytes → List RawAttribute → Option Bytes
declared prefix [] = none
declared prefix (a ∷ attributes) =
    or_else (declared prefix attributes) (if declares prefix a.name then some a.value else none)

-- The value, or else that.
abbrev pub with_default : Option Bytes → Bytes → Bytes
with_default (some uri) other = uri
with_default none other = other

-- The URI that the prefix stands for inside elements with these attributes, innermost first.
abbrev pub uri_of : Bytes → List (List RawAttribute) → Bytes
uri_of prefix [] = []
uri_of prefix (attributes ∷ outer) = with_default (declared prefix attributes) (uri_of prefix outer)

prefix_split :
    (t name p : Bytes) → (name =s= (t ++ p)) ≡ (begins_with t name && (drop (length t) name =s= p))
prefix_split [] name p = refl
prefix_split (x ∷ t) [] p = refl
prefix_split (x ∷ t) (y ∷ name) p = ground (arith, prefix_split t name p)

or_else_assoc : (a b c : Option Bytes) → or_else (or_else a b) c ≡ or_else a (or_else b c)
or_else_assoc none b c = refl
or_else_assoc (some a) b c = refl

-- The body of the loop of `collect_namespace_declarations`.
abbrev collect_one : Bytes → Bytes → Map Bytes → Map Bytes
collect_one name value declarations =
    if name =s= codes "xmlns"
    then assign [] value declarations
    else if begins_with (codes "xmlns:") name
    then assign (drop 6 name) value declarations
    else declarations

find-collect_default :
    (prefix value : Bytes) (m : Map Bytes)
    → find prefix (assign [] value m)
      ≡ or_else (if declares prefix (codes "xmlns") then some value else none) (find prefix m)
find-collect_default [] value m = find-assign [] [] value m
find-collect_default (x ∷ prefix) value m = find-assign (x ∷ prefix) [] value m

find-collect_prefixed :
    (prefix name value : Bytes) (m : Map Bytes)
    → (name =s= codes "xmlns") ≡ false
    → begins_with (codes "xmlns:") name ≡ true
    → find prefix (assign (drop 6 name) value m)
      ≡ or_else (if declares prefix name then some value else none) (find prefix m)
find-collect_prefixed prefix name value m e f =
    let split = prefix_split (codes "xmlns:") name prefix in
    rw (find-assign prefix (drop 6 name) value m, split, e, f) (ground arith)

find-collect_one :
    (prefix name value : Bytes) (m : Map Bytes)
    → find prefix (collect_one name value m)
      ≡ or_else (if declares prefix name then some value else none) (find prefix m)
find-collect_one prefix name value m = elim (Bool-cases (name =s= codes "xmlns")) [
  | inl e ↦ rw ((=s=_iff name (codes "xmlns")).0 e) (find-collect_default prefix value m)
  | inr e ↦ elim (Bool-cases (begins_with (codes "xmlns:") name)) [
    | inl f ↦
        let left : find prefix (collect_one name value m)
            ≡ find prefix (assign (drop 6 name) value m) =
          rw (e, f) refl in
        left ∙ find-collect_prefixed prefix name value m e f
    | inr f ↦ rw (e, f, prefix_split (codes "xmlns:") name prefix) (ground arith)
  ]
]

find-collect_loop :
    (prefix : Bytes) (attributes : List RawAttribute) (m : Map Bytes)
    → find prefix (collect_loop m attributes) ≡ or_else (declared prefix attributes) (find prefix m)
unfolding collect_loop
find-collect_loop prefix [] m = refl
find-collect_loop prefix (a ∷ attributes) m =
    find-collect_loop prefix attributes (collect_one a.name a.value m)
    ∙ ap (or_else (declared prefix attributes)) (find-collect_one prefix a.name a.value m)
    ∙ sym (or_else_assoc (declared prefix attributes) _ (find prefix m))

-- The scopes of the parser inside open elements with these attributes, innermost first.
abbrev pub scopes_of : Context → List (List RawAttribute) → List (Map Bytes)
scopes_of ctx [] = []
scopes_of ctx (attributes ∷ outer) =
    collect_namespace_declarations ctx attributes ∷ scopes_of ctx outer

lookup_scopes-step :
    (prefix : Bytes) (scope : Map Bytes) (scopes : List (Map Bytes))
    → lookup_scopes prefix (scope ∷ scopes)
      ≡ with_default (find prefix scope) (lookup_scopes prefix scopes)
unfolding lookup_scopes
lookup_scopes-step prefix scope scopes = ground arith

or_else-none : (o : Option Bytes) → or_else o none ≡ o
or_else-none none = refl
or_else-none (some a) = refl

lookup_scopes-uri_of :
    (ctx : Context) (prefix : Bytes) (elements : List (List RawAttribute))
    → is_enabled ctx.options.namespaces ≡ true
    → lookup_scopes prefix (scopes_of ctx elements) ≡ uri_of prefix elements
unfolding collect_namespace_declarations
lookup_scopes-uri_of ctx prefix [] on = unfold lookup_scopes in refl
lookup_scopes-uri_of ctx prefix (attributes ∷ outer) on =
    lookup_scopes-step prefix (collect_namespace_declarations ctx attributes) (scopes_of ctx outer)
    ∙ rw (on, find-collect_loop prefix attributes [], lookup_scopes-uri_of ctx prefix outer on)
        (unfold find in rw (or_else-none (declared prefix attributes)) refl)

-- Inside open elements with any attributes, the parser's maps give a prefix the URI of the
-- innermost element that declares it, and there of the last declaration; no URI if none does; and
-- always the URI of the XML namespace for `xml`.
pub lookup_namespace-uri_of :
    (ctx : Context) (prefix : Bytes) (elements : List (List RawAttribute))
    → is_enabled ctx.options.namespaces ≡ true
    → lookup_namespace (scopes_of ctx elements) prefix ≡ (
        if prefix =s= codes "xml"
        then codes "http://www.w3.org/XML/1998/namespace"
        else uri_of prefix elements)
unfolding lookup_namespace
lookup_namespace-uri_of ctx prefix elements on =
    rw (lookup_scopes-uri_of ctx prefix elements on) refl
