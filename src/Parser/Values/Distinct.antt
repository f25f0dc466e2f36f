-- ===== src/Parser/Values/Distinct.antt =====
-- The attributes of one tag: their names differ, and there are not too many.
use xmlparser.Prelude.{
  All, All-append, ℕ, zero, suc, ◌+◌, ◌≤◌, ◌<◌, Bool, true, false, not, List, [], ◌∷◌, ◌++◌, any_of,
  length, length-append, leb, leb→le, Bytes, ◌=s=◌, =s=_iff, ◌≡◌, refl, arith, String,
  if◌then◌else◌,
}
use xmlparser.Errors.{ErrorKind}
use xmlparser.Parser.State.{Context, Parser, RawAttribute, M, require}
use xmlparser.Parser.Dtd.{require_here}
use xmlparser.Parser.Values.{parse_attribute, attributes_end, attributes_loop, parse_attributes}
use xmlparser.Parser.Progress.{
  Ends, returns, threw, Progress, Progress-refl, Progress-trans, Progress-weaken, Ends-bind,
  Ends-map,
}
use xmlparser.Parser.Progress.Scans.{Advances-expect, Advances-skip_whitespace}
use xmlparser.Parser.Progress.Bounds.{Short, Ends-parse_name}
use xmlparser.Parser.Progress.Values.{Ends-parse_attribute_value}

-- Is there an attribute of that name?
abbrev pub is_named : Bytes → List RawAttribute → Bool
is_named name = any_of (λ existing. existing.name =s= name)

-- No name stands there twice.
abbrev pub NoneTwice : List RawAttribute → Type 0
NoneTwice [] = Unit
NoneTwice (a ∷ attributes) = (is_named a.name attributes ≡ false) × NoneTwice attributes

is_named-append :
    (name : Bytes) (xs : List RawAttribute) (a : RawAttribute)
    → is_named name (xs ++ a ∷ []) ≡ (if a.name =s= name then true else is_named name xs)
is_named-append name [] a = ground arith
is_named-append name (x ∷ xs) a = ground (arith, is_named-append name xs a)

NoneTwice-append :
    (xs : List RawAttribute) (a : RawAttribute)
    → NoneTwice xs
    → is_named a.name xs ≡ false
    → NoneTwice (xs ++ a ∷ [])
NoneTwice-append [] a h fresh = (refl, tt)
NoneTwice-append (x ∷ xs) a (new, h) fresh =
    let same = =s=_iff x.name a.name in
    let back = =s=_iff a.name x.name in
    (ground (arith, is_named-append x.name xs a), NoneTwice-append xs a h (ground arith))

Ends-choice :
    {A : Type 0} {P : A → Parser → Type 0} {p : Parser} (test : Bool) (m n : M A)
    → Ends P (m p)
    → Ends P (n p)
    → Ends P ((if test then m else n) p)
Ends-choice true m n h k = h
Ends-choice false m n h k = k

module _ (ctx : Context) where
  Ends-require_here :
      (test : Bool) (kind : ErrorKind) (message : String) (p : Parser)
      → Ends (λ _ q. (test ≡ true) × Progress 0 ctx 0 p q) (require_here test ctx kind message p)
  unfolding require_here require
  Ends-require_here true kind message p = returns (refl, Progress-refl 0 ctx p)
  Ends-require_here false kind message p = threw

  -- What `parse_attributes` has read so far.
  abbrev pub Sound : List RawAttribute → Type 0
  Sound attributes =
      NoneTwice attributes
      × (length attributes ≤ ctx.options.max_attributes_per_element)
      × All (λ a. Short ctx a.name × Short ctx a.value) attributes

  abbrev Adds : List RawAttribute → Parser → RawAttribute → Parser → Type 0
  Adds attributes p a q = Progress 0 ctx 1 p q × Sound (attributes ++ a ∷ [])

  Sound-append :
      (attributes : List RawAttribute) (a : RawAttribute)
      → Sound attributes
      → not (is_named a.name attributes) ≡ true
      → leb (length attributes + 1) ctx.options.max_attributes_per_element ≡ true
      → Short ctx a.name
      → Short ctx a.value
      → Sound (attributes ++ a ∷ [])
  Sound-append attributes a (h, few, short) fresh room named valued = (
    NoneTwice-append attributes a h (ground arith),
    omega (arith, length-append attributes (a ∷ []), leb→le _ _ room),
    All-append _ attributes (a ∷ []) short ((named, valued), tt),
  )

  Ends-parse_attribute :
      (attributes : List RawAttribute) (p : Parser)
      → Sound attributes
      → Ends (Adds attributes p) (parse_attribute ctx attributes p)
  unfolding parse_attribute
  Ends-parse_attribute attributes p sound =
      Ends-bind _ (Ends-parse_name 0 ctx p) λ name q (a, named).
        Ends-bind _ (Ends-require_here (not (is_named name attributes)) _ _ q) λ _ r (fresh, b).
          Ends-bind _
            (Ends-require_here (leb (length attributes + 1) ctx.options.max_attributes_per_element)
              _ _ r)
            λ _ s (room, c). Ends-bind _ (Advances-skip_whitespace 0 ctx s) λ _ t d.
              Ends-bind _ (Advances-expect 0 ctx b'=' _ t) λ _ u e.
                Ends-bind _ (Advances-skip_whitespace 0 ctx u) λ _ v f.
                  Ends-bind _ (Ends-parse_attribute_value 0 ctx v) λ value w (g, valued). returns (
                    Progress-weaken 0 ctx (omega arith) (
                        Progress-trans 0 ctx a (
                          Progress-trans 0 ctx b (
                            Progress-trans 0 ctx c (
                              Progress-trans 0 ctx d
                                (Progress-trans 0 ctx e (Progress-trans 0 ctx f g)))))),
                    Sound-append attributes _ sound fresh room named valued,
                  )

  Ends-attributes_loop :
      (fuel : ℕ) (attributes : List RawAttribute) (p : Parser)
      → length p.chars < fuel
      → Sound attributes
      → Ends (λ read q. Progress 0 ctx 0 p q × Sound read) (attributes_loop ctx fuel attributes p)
  unfolding attributes_loop
  Ends-attributes_loop zero attributes p h sound = absurd (omega arith)
  Ends-attributes_loop (suc fuel) attributes p h sound =
      Ends-bind _ (Advances-skip_whitespace 0 ctx p) λ _ q x.
        Ends-choice (attributes_end q.chars) _ _ (returns (x, sound)) (
          Ends-bind _ (Ends-parse_attribute attributes q sound) λ a r (y, grown).
            Ends-map
              (Ends-attributes_loop fuel (attributes ++ a ∷ []) r
                (omega (arith, x.shorter, y.shorter)) grown)
              λ _ t (z, read). (
                Progress-weaken 0 ctx (omega arith)
                    (Progress-trans 0 ctx x (Progress-trans 0 ctx y z)),
                read,
              ))

  pub Ends-parse_attributes :
      (p : Parser)
      → Ends (λ attributes q. Progress 0 ctx 0 p q × Sound attributes) (parse_attributes ctx p)
  unfolding parse_attributes
  Ends-parse_attributes p = Ends-attributes_loop _ [] p (omega arith) (tt, omega arith, tt)

  -- From every state, reading the attributes of a tag ends; if it returns, no two of them have the
  -- same name, there are at most `max_attributes_per_element`, and no name and no value is longer
  -- than `max_token_bytes`.
  pub parse_attributes-Sound :
      (p : Parser) → Ends (λ attributes _. Sound attributes) (parse_attributes ctx p)
  parse_attributes-Sound p = Ends-map (Ends-parse_attributes p) λ _ _ h. h.1
