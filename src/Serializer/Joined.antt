-- ===== src/Serializer/Joined.antt =====
-- The pieces that the serializer writes for a tag, joined, have the form of a tag.
use xmlparser.Prelude.{
  ℕ, suc, Bool, true, false, List, [], ◌∷◌, ◌++◌, append_assoc, Option, none, some, Bytes, codes,
  ◌=s=◌, =s=_iff, ◌==◌, if◌then◌else◌, is_empty, find_byte, any_of, concat, ◌≡◌, refl, sym, ap,
  subst, ◌∙◌, arith, Bool-cases, inl, inr,
}
use mathlib.Core.Option.{map}
use xmlparser.Dom.{Attribute}
use xmlparser.Serializer.{
  text_escape, attribute_escape, escape_text, escape_attribute, before_colon, prefix_of,
  own_declaration, attribute_declarations, attribute_pieces, start_pieces,
}
use xmlparser.Serializer.Form.{
  look, replaced, text_table, attribute_table, up_to_colon, prefix_in, bindings, of_others, firsts,
  declared_text, attributes_text, own_text, own_prefix, start_tag,
}

pub concat-append : (xs ys : List Bytes) → concat (xs ++ ys) ≡ concat xs ++ concat ys
concat-append [] ys = refl
concat-append (x ∷ xs) ys =
    ap (◌++◌ x) (concat-append xs ys) ∙ sym (append_assoc x (concat xs) (concat ys))

pub escape_text-replaced : (text : Bytes) → escape_text text ≡ replaced text_table text
unfolding escape_text text_escape
escape_text-replaced [] = refl
escape_text-replaced (ch ∷ text) = ap (◌++◌ (look text_table ch)) (escape_text-replaced text)

pub escape_attribute-replaced :
    (text : Bytes) → escape_attribute text ≡ replaced attribute_table text
unfolding escape_attribute attribute_escape
escape_attribute-replaced [] = refl
escape_attribute-replaced (ch ∷ text) =
    ap (◌++◌ (look attribute_table ch)) (escape_attribute-replaced text)

abbrev is_found : Option ℕ → Bool
is_found none = false
is_found (some i) = true

is_found-map : (o : Option ℕ) → is_found (map (λ n. suc n) o) ≡ is_found o
is_found-map none = refl
is_found-map (some i) = refl

any_of-is_found : (name : Bytes) → any_of (λ c. c == b':') name ≡ is_found (find_byte b':' name)
any_of-is_found [] = refl
any_of-is_found (ch ∷ name) = elim (Bool-cases (ch == b':')) [
  | inl same ↦ rw (same) refl
  | inr other ↦ rw (other) (any_of-is_found name ∙ sym (is_found-map (find_byte b':' name)))
]

before_colon-found :
    (ch : ℕ) (name : Bytes) (o : Option ℕ)
    → find_byte b':' name ≡ o
    → before_colon name o ≡ prefix_in name
    → before_colon (ch ∷ name) (map (λ n. suc n) o)
      ≡ (if any_of (λ c. c == b':') name then ch ∷ up_to_colon name else [])
unfolding before_colon
before_colon-found ch name none e h =
    let has_none : any_of (λ c. c == b':') name ≡ false = any_of-is_found name ∙ ap is_found e in
    rw (has_none) refl
before_colon-found ch name (some i) e h =
    let has_one : any_of (λ c. c == b':') name ≡ true = any_of-is_found name ∙ ap is_found e in
    rw (has_one) (ap (◌∷◌ ch) (rw (has_one) at h))

before_colon-up_to_colon : (name : Bytes) → before_colon name (find_byte b':' name) ≡ prefix_in name
unfolding before_colon
before_colon-up_to_colon [] = refl
before_colon-up_to_colon (ch ∷ name) =
    let rest = before_colon-up_to_colon name in
    elim (Bool-cases (ch == b':')) [
      | inl same ↦ rw (same) refl
      | inr other ↦ rw (other) (before_colon-found ch name (find_byte b':' name) refl rest)
    ]

pub prefix_of-prefix_in : (name : Bytes) → prefix_of name ≡ prefix_in name
unfolding prefix_of
prefix_of-prefix_in name = before_colon-up_to_colon name

of_others-both :
    (names : List Bytes) (p : Bytes) (bs : List (Bytes × Bytes))
    → of_others names (of_others (p ∷ []) bs) ≡ of_others (p ∷ names) bs
of_others-both names p [] = refl
of_others-both names p (b ∷ bs) = let rest = of_others-both names p bs in ground (arith, rest)

of_others-known :
    (names : List Bytes) (p : Bytes) (bs : List (Bytes × Bytes))
    → any_of (λ other. other =s= p) names ≡ true
    → of_others (p ∷ names) bs ≡ of_others names bs
of_others-known names p [] e = refl
of_others-known names p (b ∷ bs) e =
    let rest = of_others-known names p bs e in
    elim (Bool-cases (p =s= b.0)) [
      | inl same ↦
          let known : any_of (λ other. other =s= b.0) names ≡ true =
            subst (λ (q : Bytes). any_of (λ other. other =s= q) names ≡ true)
              ((=s=_iff p b.0).0 same) e in
          rw (same, known) rest
      | inr differs ↦ rw (differs, rest) refl
    ]

attribute_declarations-text :
    (names : List Bytes) (attributes : List Attribute)
    → concat (attribute_declarations names attributes)
      ≡ declared_text (of_others names (firsts (bindings attributes)))
unfolding attribute_declarations
attribute_declarations-text names [] = refl
attribute_declarations-text names (a ∷ attributes) = elim (Bool-cases (is_empty a.namespace_uri)) [
  | inl none_there ↦ rw (none_there) (attribute_declarations-text names attributes)
  | inr bound ↦
      let p = prefix_in a.qualified_name in
      let others = firsts (bindings attributes) in
      rw (bound, prefix_of-prefix_in a.qualified_name)
        (elim (Bool-cases (any_of (λ other. other =s= p) names)) [
          | inl known ↦ rw (known) (
              attribute_declarations-text names attributes
              ∙ ap declared_text
                  (sym (of_others-both names p others ∙ of_others-known names p others known)))
          | inr new ↦ rw (new) (
              ap (λ (t : Bytes). codes " xmlns:" ++ (p ++ (codes "=\"" ++ t)))
                (ap
                    (λ (t : Bytes).
                      t ++ (codes "\"" ++ concat (attribute_declarations (p ∷ names) attributes)))
                    (escape_attribute-replaced a.namespace_uri)
                  ∙ ap
                      (λ (t : Bytes). replaced attribute_table a.namespace_uri ++ (codes "\"" ++ t))
                      (attribute_declarations-text (p ∷ names) attributes
                        ∙ ap declared_text (sym (of_others-both names p others)))))
        ])
]

attribute_pieces-text :
    (attributes : List Attribute)
    → concat (attribute_pieces attributes) ≡ attributes_text attributes
unfolding attribute_pieces
attribute_pieces-text [] = refl
attribute_pieces-text (a ∷ attributes) =
    ap (λ (t : Bytes). codes " " ++ (a.qualified_name ++ (codes "=\"" ++ t)))
      (ap (λ (t : Bytes). t ++ (codes "\"" ++ concat (attribute_pieces attributes)))
          (escape_attribute-replaced a.value)
        ∙ ap (λ (t : Bytes). replaced attribute_table a.value ++ (codes "\"" ++ t))
            (attribute_pieces-text attributes))

own_declaration-text :
    (qname uri : Bytes)
    → (concat (own_declaration qname uri).0 ≡ own_text (prefix_in qname) uri)
      × ((own_declaration qname uri).1 ≡ own_prefix (prefix_in qname) uri)
unfolding own_declaration
own_declaration-text qname [] = (refl, refl)
own_declaration-text qname (u ∷ uri) =
    rw (prefix_of-prefix_in qname) (forms (prefix_in qname), refl)
  where
    forms :
        (prefix : Bytes)
        → concat (
            if is_empty prefix
            then codes " " ∷ codes "xmlns=\"" ∷ escape_attribute (u ∷ uri) ∷ codes "\"" ∷ []
            else codes " "
              ∷ codes "xmlns:"
              ∷ prefix
              ∷ codes "=\""
              ∷ escape_attribute (u ∷ uri)
              ∷ codes "\""
              ∷ [])
          ≡ own_text prefix (u ∷ uri)
    forms [] =
        ap (λ (t : Bytes). codes " xmlns=\"" ++ (t ++ codes "\""))
          (escape_attribute-replaced (u ∷ uri))
    forms (p ∷ prefix) =
        ap (λ (t : Bytes). codes " xmlns:" ++ ((p ∷ prefix) ++ (codes "=\"" ++ (t ++ codes "\""))))
          (escape_attribute-replaced (u ∷ uri))

pub start_pieces-text :
    (qname uri : Bytes) (attributes : List Attribute)
    → concat (start_pieces qname uri attributes) ≡ start_tag qname uri attributes
unfolding start_pieces
start_pieces-text qname uri attributes =
    let (text, names) = own_declaration-text qname uri in
    let own = (own_declaration qname uri).0 in
    let declared = (own_declaration qname uri).1 in
    ap (λ (t : Bytes). codes "<" ++ (qname ++ t))
      (concat-append own (attribute_declarations declared attributes ++ attribute_pieces attributes)
        ∙ ap
            (λ (t : Bytes).
              t
              ++ concat (attribute_declarations declared attributes ++ attribute_pieces attributes))
            text
        ∙ ap (◌++◌ (own_text (prefix_in qname) uri)) (
            concat-append (attribute_declarations declared attributes) (attribute_pieces attributes)
            ∙ ap (λ (t : Bytes). t ++ concat (attribute_pieces attributes))
                (attribute_declarations-text declared attributes
                  ∙ ap
                      (λ (ns : List Bytes).
                        declared_text (of_others ns (firsts (bindings attributes))))
                      names)
            ∙ ap
                (◌++◌ (
                  declared_text
                    (of_others (own_prefix (prefix_in qname) uri) (firsts (bindings attributes)))))
                (attribute_pieces-text attributes)))
