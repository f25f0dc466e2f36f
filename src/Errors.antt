-- ===== src/Errors.antt =====
-- include/xmlparser/errors.h and source_location.h: the exceptions of the library, and the
-- outcome of a computation that may throw one.
use xmlparser.Prelude.{ℕ, String, Bool, true, false, ◌≡◌, refl}

pub record SourceLocation : Type 0 where
  pub line : ℕ
  pub column : ℕ
  pub byte_offset : ℕ

-- `SourceLocation{}`
abbrev pub start_location : SourceLocation
start_location = record { line = 1; column = 1; byte_offset = 0 }

pub data ErrorKind : Type 0 where
  unsupported empty_input well_formedness validity encoding resource_limit io : ErrorKind

pub record XmlParseException : Type 0 where
  pub kind : ErrorKind
  pub location : SourceLocation
  pub message : String

abbrev pub exception : ErrorKind → SourceLocation → String → XmlParseException
exception k l m = record { kind = k; location = l; message = m }

-- `throws` is a C++ exception. `stuck` has no counterpart in the program: a loop used up its fuel,
-- or memory out of range was read.
pub data Result {ℓ} (A : Type ℓ) : Type ℓ where
  ok : A → Result A
  throws : XmlParseException → Result A
  stuck : Result A

module _ {ℓ} where
  abbrev pub throw_parse : {A : Type ℓ} → ErrorKind → SourceLocation → String → Result A
  throw_parse k l m = throws (exception k l m)

  infixl 5 ◌>>=◌ ◌>>◌
  abbrev pub ◌>>=◌ {κ} : {A : Type ℓ} {B : Type κ} → Result A → (A → Result B) → Result B
  ok a >>= f = f a
  throws e >>= f = throws e
  stuck >>= f = stuck

  abbrev pub ◌>>◌ : {B : Type ℓ} → Result (Unit {0}) → Result B → Result B
  ok _ >> k = k
  throws e >> k = throws e
  stuck >> k = stuck

  -- A value comes out, and `P` holds of it.
  abbrev pub Returns : {A : Type ℓ} → (A → Type 0) → Result A → Type 0
  Returns P (ok a) = P a
  Returns P _ = ⊥

-- `if (!test) throw_parse(kind, location, message);`
abbrev pub require : Bool → ErrorKind → SourceLocation → String → Result (Unit {0})
require true k l m = ok tt
require false k l m = throw_parse k l m

module _ {ℓ κ} {A : Type ℓ} {B : Type κ} where
  pub bind-eq-ok :
      (m : Result A) (f : A → Result B)
      → {b : B} → (m >>= f) ≡ ok b
      → (a : A) × (m ≡ ok a) × (f a ≡ ok b)
  bind-eq-ok stuck f h = cc
  bind-eq-ok (throws e) f h = cc
  bind-eq-ok (ok a) f h = (a, refl, h)

pub require-eq-ok :
    {B : Type 0} (t : Bool) (k : ErrorKind) (l : SourceLocation) (m : String) (r : Result B) {b : B}
    → (require t k l m >> r) ≡ ok b
    → (t ≡ true) × (r ≡ ok b)
require-eq-ok true k l m r h = (refl, h)
require-eq-ok false k l m r h = cc
