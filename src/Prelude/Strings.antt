-- ===== src/Prelude/Strings.antt =====
-- `std::string` and `std::string_view` as lists of bytes: comparison, search, literals.
use Prim.Native.Nat.{ℕ, suc, ◌<◌}
use Prim.Native.Char.{code}
use Prim.Native.String.{String}
use mathlib.Core.Path.{◌≡◌}
use mathlib.Core.Logic.{◌↔◌}
use mathlib.Core.Bool.{Bool, true, false, ◌&&◌, ◌||◌}
use mathlib.Core.Option.{Option, none, some}
use mathlib.Core.Option
use mathlib.Core.List.{List, [], ◌∷◌}
use native.Mathlib.Omega.{arith}
use xmlparser.Prelude.Tests.{◌==◌, if◌then◌else◌}

abbrev pub Bytes : Type 0
Bytes = List ℕ

abbrev pub IsByte : ℕ → Type 0
IsByte b = b < 256

-- A literal of the source, by its code points (its bytes: every literal is ASCII).
abbrev pub codes : String → Bytes
codes String.[] = []
codes (String.◌∷◌ c s) = code c ∷ codes s

infix 50 ◌=s=◌
abbrev pub ◌=s=◌ : Bytes → Bytes → Bool
[] =s= [] = true
(x ∷ xs) =s= (y ∷ ys) = (x == y) && (xs =s= ys)
_ =s= _ = false

pub =s=_iff : (xs ys : Bytes) → ((xs =s= ys) ≡ true) ↔ (xs ≡ ys)
=s=_iff (x ∷ xs) (y ∷ ys) = ground (arith, =s=_iff xs ys)
=s=_iff _ _ = ground arith

-- Does `text` begin with `prefix`?  (`text.rfind(prefix, 0) == 0`, `compare(0, n, prefix) == 0`)
abbrev pub begins_with : Bytes → Bytes → Bool
begins_with [] text = true
begins_with (x ∷ xs) [] = false
begins_with (x ∷ xs) (y ∷ ys) = (x == y) && begins_with xs ys

-- `text.find(part) != npos`
abbrev pub contains : Bytes → Bytes → Bool
contains part [] = begins_with part []
contains part (y ∷ ys) = begins_with part (y ∷ ys) || contains part ys

-- `text.find(ch)`: the first position of the byte, `none` for `npos`
abbrev pub find_byte : ℕ → Bytes → Option ℕ
find_byte ch [] = none
find_byte ch (y ∷ ys) = if y == ch then some 0 else Option.map (λ n. suc n) (find_byte ch ys)
