-- ===== src/Serializer/Form.antt =====
-- The form of XML text that the serializer is to write: tags, attributes and declarations.
use xmlparser.Prelude.{
  ℕ, List, [], ◌∷◌, ◌++◌, Bytes, codes, ◌=s=◌, ◌==◌, if◌then◌else◌, is_empty, any_of,
}
use xmlparser.Dom.{Attribute}

-- What stands for a character, by a table.
abbrev pub look : List (ℕ × Bytes) → ℕ → Bytes
look [] ch = ch ∷ []
look (entry ∷ table) ch = if ch == entry.0 then entry.1 else look table ch

abbrev pub replaced : List (ℕ × Bytes) → Bytes → Bytes
replaced table [] = []
replaced table (ch ∷ text) = look table ch ++ replaced table text

abbrev pub text_table : List (ℕ × Bytes)
text_table = (b'&', codes "&amp;") ∷ (b'<', codes "&lt;") ∷ (b'>', codes "&gt;") ∷ []

abbrev pub attribute_table : List (ℕ × Bytes)
attribute_table = (b'&', codes "&amp;") ∷ (b'<', codes "&lt;") ∷ (b'"', codes "&quot;") ∷ []

-- What stands before the first colon of a name; nothing, if it has none.
abbrev pub up_to_colon : Bytes → Bytes
up_to_colon [] = []
up_to_colon (ch ∷ name) = if ch == b':' then [] else ch ∷ up_to_colon name

abbrev pub prefix_in : Bytes → Bytes
prefix_in name = if any_of (λ ch. ch == b':') name then up_to_colon name else []

-- The prefixes of the attributes that are in a namespace, with their namespaces.
abbrev pub bindings : List Attribute → List (Bytes × Bytes)
bindings [] = []
bindings (a ∷ attributes) =
    if is_empty a.namespace_uri
    then bindings attributes
    else (prefix_in a.qualified_name, a.namespace_uri) ∷ bindings attributes

-- The bindings of other prefixes than these.
abbrev pub of_others : List Bytes → List (Bytes × Bytes) → List (Bytes × Bytes)
of_others names [] = []
of_others names (b ∷ bs) =
    if any_of (λ other. other =s= b.0) names then of_others names bs else b ∷ of_others names bs

-- The first binding of each prefix.
abbrev pub firsts : List (Bytes × Bytes) → List (Bytes × Bytes)
firsts [] = []
firsts (b ∷ bs) = b ∷ of_others (b.0 ∷ []) (firsts bs)

abbrev pub declared_text : List (Bytes × Bytes) → Bytes
declared_text [] = []
declared_text (b ∷ bs) =
    codes " xmlns:"
    ++ (b.0 ++ (codes "=\"" ++ (replaced attribute_table b.1 ++ (codes "\"" ++ declared_text bs))))

abbrev pub attributes_text : List Attribute → Bytes
attributes_text [] = []
attributes_text (a ∷ attributes) =
    codes " "
    ++ (a.qualified_name
        ++ (codes "=\""
            ++ (replaced attribute_table a.value ++ (codes "\"" ++ attributes_text attributes))))

-- The declaration of the namespace of the element.
abbrev pub own_text : Bytes → Bytes → Bytes
own_text prefix [] = []
own_text [] (u ∷ uri) = codes " xmlns=\"" ++ (replaced attribute_table (u ∷ uri) ++ codes "\"")
own_text (p ∷ prefix) (u ∷ uri) =
    codes " xmlns:"
    ++ ((p ∷ prefix) ++ (codes "=\"" ++ (replaced attribute_table (u ∷ uri) ++ codes "\"")))

abbrev pub own_prefix : Bytes → Bytes → List Bytes
own_prefix prefix [] = []
own_prefix prefix (u ∷ uri) = prefix ∷ []

-- `<`, the name, the declarations of all namespaces that are used, each prefix once, and the
-- attributes.
abbrev pub start_tag : Bytes → Bytes → List Attribute → Bytes
start_tag qname uri attributes =
    let prefix = prefix_in qname in
    codes "<"
    ++ (qname
        ++ (own_text prefix uri
            ++ (declared_text (of_others (own_prefix prefix uri) (firsts (bindings attributes)))
                ++ attributes_text attributes)))
