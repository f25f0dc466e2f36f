-- ===== src/Dom/Attributes.antt =====
-- The attributes of an element in the DOM behave as a map from expanded names.
use xmlparser.Prelude.{
  ◌&&◌, List, [], ◌∷◌, Bytes, ◌=s=◌, =s=_iff, ◌≡◌, refl, subst, arith, if◌then◌else◌, Bool-cases,
  inl, inr,
}
use xmlparser.Dom.{Attribute, set_attribute_ns, get_attribute_ns}

-- What the lookup is to be behind `set_attribute_ns`.
abbrev Reads : Bytes → Bytes → Bytes → Bytes → Bytes → Bytes → List Attribute → Type 0
Reads qname text other_uri other_name uri name attributes =
    get_attribute_ns other_uri other_name (set_attribute_ns uri name qname text attributes) ≡ (
      if (uri =s= other_uri) && (name =s= other_name)
      then text
      else get_attribute_ns other_uri other_name attributes)

Reads-own :
    (qname text other_uri other_name : Bytes) (a : Attribute) (attributes : List Attribute)
    → Reads qname text other_uri other_name a.namespace_uri a.local_name (a ∷ attributes)
unfolding get_attribute_ns set_attribute_ns
Reads-own qname text other_uri other_name a attributes =
    rw
      ((=s=_iff a.namespace_uri a.namespace_uri).1 refl, (=s=_iff a.local_name a.local_name).1 refl)
      (ground arith)

-- Behind `set_attribute_ns`, looking up the same expanded name gives the new value, and any other
-- gives what it gave before.
pub get_attribute_ns-set_attribute_ns :
    (uri name qname text other_uri other_name : Bytes) (attributes : List Attribute)
    → get_attribute_ns other_uri other_name (set_attribute_ns uri name qname text attributes) ≡ (
        if (uri =s= other_uri) && (name =s= other_name)
        then text
        else get_attribute_ns other_uri other_name attributes)
unfolding get_attribute_ns set_attribute_ns
get_attribute_ns-set_attribute_ns uri name qname text other_uri other_name [] = refl
get_attribute_ns-set_attribute_ns uri name qname text other_uri other_name (a ∷ attributes) =
    elim (Bool-cases ((a.namespace_uri =s= uri) && (a.local_name =s= name))) [
      | inl e ↦
          let same_uri : a.namespace_uri ≡ uri = ground (arith, e, =s=_iff a.namespace_uri uri) in
          let same_name : a.local_name ≡ name = ground (arith, e, =s=_iff a.local_name name) in
          subst (λ (u : Bytes). Reads qname text other_uri other_name u name (a ∷ attributes))
            same_uri
            (subst
              (λ (n : Bytes).
                Reads qname text other_uri other_name a.namespace_uri n (a ∷ attributes))
              same_name (Reads-own qname text other_uri other_name a attributes))
      | inr e ↦ rw e (
          ground (
            arith,
            e,
            get_attribute_ns-set_attribute_ns uri name qname text other_uri other_name attributes,
            =s=_iff a.namespace_uri uri,
            =s=_iff a.local_name name,
            =s=_iff uri other_uri,
            =s=_iff name other_name,
            =s=_iff a.namespace_uri other_uri,
            =s=_iff a.local_name other_name,
          ))
    ]
