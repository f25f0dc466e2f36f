-- ===== src/Parser/State/Maps.antt =====
-- The laws of the maps: what `find` reads behind `assign` and `emplace`.
use xmlparser.Prelude.{
  [], ◌∷◌, Option, none, some, Bytes, ◌=s=◌, =s=_iff, ◌≡◌, refl, arith, if◌then◌else◌, Bool-cases,
  inl, inr,
}
use xmlparser.Parser.State.{Map, find, assign, emplace}

-- What is there, or else the other.
abbrev pub or_else {ℓ} : {A : Type ℓ} → Option A → Option A → Option A
or_else (some a) other = some a
or_else none other = other

module _ {V : Type 0} where
  pub find-assign :
      (k key : Bytes) (v : V) (m : Map V)
      → find k (assign key v m) ≡ (if key =s= k then some v else find k m)
  unfolding find assign
  find-assign k key v [] = refl
  find-assign k key v ((k₀, v₀) ∷ m) = elim (Bool-cases (k₀ =s= key)) [
    | inl e ↦ rw (e, (=s=_iff k₀ key).0 e) (ground arith)
    | inr e ↦
        rw e (ground (arith, find-assign k key v m, =s=_iff k₀ key, =s=_iff k₀ k, =s=_iff key k))
  ]

  pub find-emplace :
      (k key : Bytes) (v : V) (m : Map V)
      → find k (emplace key v m) ≡ or_else (find k m) (if key =s= k then some v else none)
  unfolding find emplace
  find-emplace k key v [] = refl
  find-emplace k key v ((k₀, v₀) ∷ m) = elim (Bool-cases (k₀ =s= key)) [
    | inl e ↦ rw (e, (=s=_iff k₀ key).0 e) (ground arith)
    | inr e ↦
        rw e (ground (arith, find-emplace k key v m, =s=_iff k₀ key, =s=_iff k₀ k, =s=_iff key k))
  ]
