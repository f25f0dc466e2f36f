-- ===== src/Parser/Progress/StartTag.antt =====
-- The start tag: it ends, the attributes find their values, and the stacks grow by one.
use xmlparser.Prelude.{
  All, suc, ap, sym, subst, ℕ, ◌+◌, ◌≤◌, Bool, true, false, List, [], ◌∷◌, ◌++◌, leb, leb→le,
  length, Bytes, String, ◌≡◌, ◌≢◌, refl, arith, Bool-cases, inl, inr,
}
use xmlparser.Errors
use xmlparser.Errors.{SourceLocation, ErrorKind, Result, ok, throws, stuck}
use xmlparser.Sax.{QualifiedName, AttributeView, start_element}
use xmlparser.Parser.State.{Context, Parser, Map, RawAttribute, call, lifted, require}
use xmlparser.Parser.Namespaces.{
  collect_namespace_declarations, is_namespace_declaration, resolve_name, resolve_at,
  resolve_prefixed,
}
use xmlparser.Parser.StartTag.{
  value_storage, expanded, ExpandedName, resolve_attribute, resolve_attributes, open_element,
}
use xmlparser.Parser.Content.{parse_start_tag}
use xmlparser.Parser.Progress.{
  Ends, returns, threw, Progress, Progress-refl, Progress-trans, Progress-weaken, Progress-deeper,
  Advances-require, Ends-bind,
}
use xmlparser.Parser.Progress.Scans.{Advances-expect}
use xmlparser.Parser.Progress.Bounds.{Short, Ends-parse_name}
use xmlparser.Parser.Values.Distinct.{Sound, Ends-parse_attributes}
use xmlparser.Parser.StartTag.Attributes.{
  sources, plain, resolve_name-qualified_name, resolve_attributes-sources,
}
use xmlparser.Parser.Events.{Fits}
use xmlparser.Options.{ParserOptions}

resolve_name-ne-stuck :
    (ctx : Context) (scopes : List (Map Bytes)) (qname : Bytes) (is_element : Bool)
    (start : SourceLocation)
    → resolve_name ctx scopes qname is_element start ≢ stuck
unfolding resolve_name resolve_at resolve_prefixed
resolve_name-ne-stuck ctx scopes qname is_element start = ground arith

module _ (ctx : Context) (scopes : List (Map Bytes)) where
  resolve_attribute-ne-stuck :
      (attribute : RawAttribute) (value : Bytes) (seen : List ExpandedName)
      (later : List ExpandedName → Result (List AttributeView)) (r : Result QualifiedName)
      → r ≢ stuck
      → ((names : List ExpandedName) → later names ≢ stuck)
      → Errors.◌>>=◌ r (resolve_attribute attribute value seen later) ≢ stuck
  unfolding resolve_attribute
  resolve_attribute-ne-stuck attribute value seen later (ok name) h k =
      ground (arith, k (expanded name ∷ seen))
  resolve_attribute-ne-stuck attribute value seen later (throws e) h k = cc
  resolve_attribute-ne-stuck attribute value seen later stuck h k = absurd (h refl)

  resolve_attributes_skip :
      (attribute : RawAttribute) (attributes : List RawAttribute) (storage : List Bytes)
      (seen : List ExpandedName)
      → is_namespace_declaration ctx attribute.name ≡ true
      → resolve_attributes ctx scopes storage seen (attribute ∷ attributes)
        ≡ resolve_attributes ctx scopes storage seen attributes
  unfolding resolve_attributes
  resolve_attributes_skip attribute attributes [] seen e = rw e
  resolve_attributes_skip attribute attributes (value ∷ storage) seen e = rw e

  -- The storage holds a value for each attribute that the loop emits.
  resolve_attributes-ne-stuck :
      (attributes : List RawAttribute) (seen : List ExpandedName)
      → resolve_attributes ctx scopes (value_storage ctx attributes) seen attributes ≢ stuck
  unfolding value_storage resolve_attributes
  resolve_attributes-ne-stuck [] seen = cc
  resolve_attributes-ne-stuck (attribute ∷ attributes) seen =
      elim (Bool-cases (is_namespace_declaration ctx attribute.name)) [
        | inl declares ↦ rw declares (
            rw
              (resolve_attributes_skip attribute attributes (value_storage ctx attributes) seen
                declares)
              (resolve_attributes-ne-stuck attributes seen))
        | inr emitted ↦
            rw (emitted, emitted)
              (resolve_attribute-ne-stuck attribute attribute.value seen _
                (resolve_name ctx scopes attribute.name false attribute.location)
                (resolve_name-ne-stuck ctx scopes attribute.name false attribute.location)
                (λ names. resolve_attributes-ne-stuck attributes names))
      ]

-- The state in which `start_element` was reported.
abbrev pub opened : Parser → Bytes → QualifiedName → Map Bytes → List AttributeView → Parser
opened p name qname scope views = record p {
  namespace_scopes = scope ∷ p.namespace_scopes;
  element_stack = name ∷ p.element_stack;
  element_name_stack = qname ∷ p.element_name_stack;
  validation_stack =
      record { name = name; child_elements = []; has_non_whitespace_text = false }
      ∷ p.validation_stack;
  calls = p.calls ++ start_element qname views ∷ [];
}

-- Where `q` is behind the call, and the call within the limits.
abbrev Opens : ParserOptions → Parser → Bytes → QualifiedName → Parser → Type 0
Opens options p name qname q =
    (scope : Map Bytes) × (views : List AttributeView) × (q ≡ opened p name qname scope views)
    × Fits options (start_element qname views)

-- A method that changes nothing returns in the same state.
Ends-lifted :
    {A : Type 0} (p : Parser) (r : Result A)
    → r ≢ stuck
    → Ends (λ a q. (q ≡ p) × (r ≡ ok a)) (lifted r p)
Ends-lifted p (ok a) h = returns (refl, refl)
Ends-lifted p (throws e) h = threw
Ends-lifted p stuck h = absurd (h refl)

-- Some of the attributes.
All-plain :
    (ctx : Context) (P : RawAttribute → Type 0) (attributes : List RawAttribute)
    → All P attributes
    → All P (plain ctx attributes) × (length (plain ctx attributes) ≤ length attributes)
All-plain ctx P [] h = (tt, omega arith)
All-plain ctx P (a ∷ attributes) (x, h) =
    let (rest, shorter) = All-plain ctx P attributes h in
    elim (Bool-cases (is_namespace_declaration ctx a.name)) [
      | inl declares ↦ rw declares (rest, omega (arith, shorter))
      | inr emitted ↦ rw emitted ((x, rest), omega (arith, shorter))
    ]

All-sources :
    (ctx : Context) (views : List AttributeView)
    → All (λ a. Short ctx a.name × Short ctx a.value) (sources views)
    → All
        (λ view.
          (length view.name.qualified_name ≤ ctx.options.max_token_bytes)
          × (length view.value ≤ ctx.options.max_token_bytes))
        views
All-sources ctx [] h = tt
All-sources ctx (view ∷ views) (x, h) = (x, All-sources ctx views h)

length-sources : (views : List AttributeView) → length (sources views) ≡ length views
length-sources [] = refl
length-sources (view ∷ views) = ap suc (length-sources views)

-- What the tag's parts become is within the limits.
start_element-Fits :
    (ctx : Context) (scopes : List (Map Bytes)) (start : SourceLocation) (name : Bytes)
    (attributes : List RawAttribute) (qname : QualifiedName) (views : List AttributeView)
    → Short ctx name
    → Sound ctx attributes
    → resolve_name ctx scopes name true start ≡ ok qname
    → resolve_attributes ctx scopes (value_storage ctx attributes) [] attributes ≡ ok views
    → Fits ctx.options (start_element qname views)
start_element-Fits ctx scopes start name attributes qname views named (_, few, short) e f =
    let (same, _) = resolve_attributes-sources ctx scopes attributes views f in
    let (kept, fewer) = All-plain ctx _ attributes short in
    let count = ap (λ (l : List RawAttribute). length l) same in
    (
      omega (
        arith,
        named,
        ap (λ (n : Bytes). length n)
            (resolve_name-qualified_name ctx scopes name true start qname e),
      ),
      omega (arith, few, fewer, count, length-sources views),
      All-sources ctx views (
          subst (λ (l : List RawAttribute). All (λ a. Short ctx a.name × Short ctx a.value) l)
            (sym same) kept),
    )

module _ (d : ℕ) (ctx : Context) where
  Ends-require :
      (p : Parser) (test : Bool) (kind : ErrorKind) (place : SourceLocation) (message : String)
      → Ends (λ _ q. (test ≡ true) × Progress d ctx 0 p q) (require test kind place message p)
  unfolding require
  Ends-require p true kind place message = returns (refl, Progress-refl d ctx p)
  Ends-require p false kind place message = threw

  pub Ends-open_element :
      (start : SourceLocation) (name : Bytes) (attributes : List RawAttribute) (p : Parser)
      → Short ctx name
      → Sound ctx attributes
      → Ends
          (λ qname q. Opens ctx.options p name qname q)
          (open_element ctx start name attributes p)
  unfolding open_element call
  Ends-open_element start name attributes p named sound =
      let scope = collect_namespace_declarations ctx attributes in
      let scopes = scope ∷ p.namespace_scopes in
      Ends-bind _
        (Ends-lifted _ (resolve_name ctx scopes name true start)
          (resolve_name-ne-stuck ctx scopes name true start))
        λ qname q (_, e).
          Ends-bind _ (Ends-lifted q _ (resolve_attributes-ne-stuck ctx scopes attributes []))
            λ views r (_, f). returns (
              scope,
              views,
              refl,
              start_element-Fits ctx scopes start name attributes qname views named sound e f,
            )

  abbrev pub StartsTag : Parser → SourceLocation × Bytes × List RawAttribute → Parser → Type 0
  StartsTag p r q =
      Progress d ctx 1 p q
      × (length p.element_stack + 1 ≤ ctx.options.max_depth)
      × Short ctx r.1
      × Sound ctx r.2

  pub Ends-parse_start_tag : (p : Parser) → Ends (λ r q. StartsTag p r q) (parse_start_tag ctx p)
  unfolding parse_start_tag
  Ends-parse_start_tag p = Ends-bind _ (Advances-expect d ctx b'<' _ p) λ _ q a.
      Ends-bind _ (Advances-require d ctx q _ _ _ _) λ _ r b.
        Ends-bind _ (Ends-parse_name d ctx r) λ name s (c, named).
          Ends-bind _
            (Ends-require s (leb (length p.element_stack + 1) ctx.options.max_depth) _ _ _)
            λ _ t fits. Ends-bind _ (Ends-parse_attributes ctx t) λ attributes u (f, sound).
              returns (
                Progress-weaken d ctx (omega arith) (
                    Progress-trans d ctx a (
                      Progress-trans d ctx b (
                        Progress-trans d ctx c
                          (Progress-trans d ctx fits.1 (Progress-deeper ctx f))))),
                leb→le _ _ fits.0,
                named,
                sound,
              )
