-- ===== src/Parser/StartTag/Attributes.antt =====
-- What the client gets as the attributes of an element.
use xmlparser.Prelude.{
  Bool, true, false, List, [], ◌∷◌, Bytes, ◌≡◌, refl, sym, ap, subst, ◌∙◌, arith, if◌then◌else◌,
  Bool-cases, inl, inr,
}
use xmlparser.Errors
use xmlparser.Errors.{SourceLocation, Result, ok, throws, stuck, bind-eq-ok}
use xmlparser.Sax.{QualifiedName, AttributeView}
use xmlparser.Parser.State.{Context, Map, RawAttribute}
use xmlparser.Parser.Namespaces.{
  is_namespace_declaration, resolve_name, resolve_at, resolve_prefixed,
}
use xmlparser.Parser.StartTag.{
  value_storage, ExpandedName, expanded, has_expanded, resolve_attribute, resolve_attributes,
}

-- The attributes that declare no namespace.
abbrev pub plain : Context → List RawAttribute → List RawAttribute
plain ctx [] = []
plain ctx (a ∷ attributes) =
    if is_namespace_declaration ctx a.name then plain ctx attributes else a ∷ plain ctx attributes

-- What the client sees of each attribute, besides the namespace.
abbrev pub sources : List AttributeView → List RawAttribute
sources [] = []
sources (v ∷ views) =
    record { name = v.name.qualified_name; value = v.value; location = v.location } ∷ sources views

-- No attribute of the list has an expanded name of `seen`, or that of one before it.
abbrev pub Distinct : List ExpandedName → List AttributeView → Type 0
Distinct seen [] = Unit
Distinct seen (v ∷ views) =
    (has_expanded (expanded v.name) seen ≡ false) × Distinct (expanded v.name ∷ seen) views

module _ (ctx : Context) (scopes : List (Map Bytes)) where
  abbrev Reported : List ExpandedName → List RawAttribute → List AttributeView → Type 0
  Reported seen attributes views = (sources views ≡ plain ctx attributes) × Distinct seen views

  resolve_attributes-declaration :
      (a : RawAttribute) (attributes : List RawAttribute) (storage : List Bytes)
      (seen : List ExpandedName)
      → is_namespace_declaration ctx a.name ≡ true
      → resolve_attributes ctx scopes storage seen (a ∷ attributes)
        ≡ resolve_attributes ctx scopes storage seen attributes
  unfolding resolve_attributes
  resolve_attributes-declaration a attributes [] seen e = rw e refl
  resolve_attributes-declaration a attributes (v ∷ storage) seen e = rw e refl

  pub resolve_name-qualified_name :
      (qname : Bytes) (is_element : Bool) (start : SourceLocation) (name : QualifiedName)
      → resolve_name ctx scopes qname is_element start ≡ ok name
      → name.qualified_name ≡ qname
  unfolding resolve_name resolve_at resolve_prefixed
  resolve_name-qualified_name qname is_element start name e = ground arith

  Reported-cons :
      (a : RawAttribute) (attributes : List RawAttribute) (seen : List ExpandedName)
      (view : AttributeView) (rest views : List AttributeView)
      → has_expanded (expanded view.name) seen ≡ false
      → ◌≡◌ {A = RawAttribute}
          (record { name = view.name.qualified_name; value = view.value; location = view.location })
          a
      → is_namespace_declaration ctx a.name ≡ false
      → Reported (expanded view.name ∷ seen) attributes rest
      → ◌≡◌ {A = Result (List AttributeView)} (ok (view ∷ rest)) (ok views)
      → Reported seen (a ∷ attributes) views
  Reported-cons a attributes seen view rest views new same emitted (names, distinct) e =
      let whole : view ∷ rest ≡ views = ground arith in
      subst (λ (vs : List AttributeView). Reported seen (a ∷ attributes) vs) whole
        (
          ap (λ (r : RawAttribute). r ∷ sources rest) same ∙ ap (◌∷◌ a) names ∙ rw emitted refl,
          (new, distinct),
        )

  -- One attribute that is reported, in front of those of the later rounds.
  Reported-one :
      (a : RawAttribute) (attributes : List RawAttribute) (seen : List ExpandedName)
      (name : QualifiedName) (later : List ExpandedName → Result (List AttributeView))
      (views : List AttributeView)
      → name.qualified_name ≡ a.name
      → is_namespace_declaration ctx a.name ≡ false
      → ((names : List ExpandedName) (rest : List AttributeView)
          → later names ≡ ok rest
          → Reported names attributes rest)
      → resolve_attribute a a.value seen later name ≡ ok views
      → Reported seen (a ∷ attributes) views
  unfolding resolve_attribute
  Reported-one a attributes seen name later views same emitted h e =
      elim (Bool-cases (has_expanded (expanded name) seen)) [
        | inl old ↦ ground arith
        | inr new ↦
            let view : AttributeView = record {
              name = name;
              value = a.value;
              location = a.location;
            } in
            let left : resolve_attribute a a.value seen later name
                ≡ Errors.◌>>=◌ (later (expanded name ∷ seen)) (λ rest. ok (view ∷ rest)) =
              rw new refl in
            let (rest, e₁, e₂) = bind-eq-ok (later (expanded name ∷ seen)) _ (sym left ∙ e) in
            let (names, distinct) = h (expanded name ∷ seen) rest e₁ in
            Reported-cons a attributes seen view rest views new
              (ap (λ (n : Bytes). record { name = n; value = a.value; location = a.location }) same)
              emitted (names, distinct) e₂
      ]

  resolve_attributes-Reported :
      (attributes : List RawAttribute) (seen : List ExpandedName) (views : List AttributeView)
      → resolve_attributes ctx scopes (value_storage ctx attributes) seen attributes ≡ ok views
      → Reported seen attributes views
  unfolding resolve_attributes value_storage
  resolve_attributes-Reported [] seen views e =
      let none : ◌≡◌ {A = List AttributeView} [] views = ground arith in rw (← none) (refl, tt)
  resolve_attributes-Reported (a ∷ attributes) seen views e =
      elim (Bool-cases (is_namespace_declaration ctx a.name)) [
        | inl declares ↦
            let storage = value_storage ctx attributes in
            let left : resolve_attributes ctx scopes (value_storage ctx (a ∷ attributes)) seen
                  (a ∷ attributes)
                ≡ resolve_attributes ctx scopes storage seen attributes =
              rw declares (resolve_attributes-declaration a attributes storage seen declares) in
            rw declares (resolve_attributes-Reported attributes seen views (sym left ∙ e))
        | inr emitted ↦
            let later : List ExpandedName → Result (List AttributeView) = λ names.
              resolve_attributes ctx scopes (value_storage ctx attributes) names attributes in
            let left : resolve_attributes ctx scopes (value_storage ctx (a ∷ attributes)) seen
                  (a ∷ attributes)
                ≡ Errors.◌>>=◌ (resolve_name ctx scopes a.name false a.location)
                    (resolve_attribute a a.value seen later) =
              rw (emitted, emitted) refl in
            let (name, e₁, e₂) =
              bind-eq-ok (resolve_name ctx scopes a.name false a.location) _ (sym left ∙ e) in
            Reported-one a attributes seen name later views
              (resolve_name-qualified_name a.name false a.location name e₁) emitted
              (λ names rest. resolve_attributes-Reported attributes names rest) e₂
      ]

  -- The client gets exactly the attributes that declare no namespace, in the order of the tag and
  -- each with its own value, and no two of them have the same expanded name.
  pub resolve_attributes-sources :
      (attributes : List RawAttribute) (views : List AttributeView)
      → resolve_attributes ctx scopes (value_storage ctx attributes) [] attributes ≡ ok views
      → (sources views ≡ plain ctx attributes) × Distinct [] views
  resolve_attributes-sources attributes views e = resolve_attributes-Reported attributes [] views e
