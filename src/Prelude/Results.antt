-- ===== src/Prelude/Results.antt =====
-- What a call ends in: a value, a `VMApi::Error` that is thrown, or a fault of the process, which is a
-- failed `assert` or a step outside what C++ defines.
use mathlib.Core.Bool.{Bool, true, false}
use mathlib.Core.List.{List, [], ◌∷◌}
use Prim.Native.Nat.{ℕ}
use Prim.Native.Char.{code}
use Prim.Native.String.{String}

-- A `std::string`, as its bytes.
abbrev pub Str : Type 0
Str = List ℕ

-- The bytes of an ASCII literal.
unfoldable pub text : String → Str
text String.[] = []
text (String.◌∷◌ c s) = code c ∷ text s

pub data Fault : Type 0 where
  assertion undefined : Fault

pub data Result {ℓ} (A : Type ℓ) : Type ℓ where
  ok : A → Result A
  throws : Str → Result A
  fails : Fault → Result A

-- `assert(b)`.
abbrev pub assert : Bool → Result (Unit {0})
assert true = ok tt
assert false = fails assertion

-- The rest of a function, behind a call that may not return.
infixl 5 ◌>>=◌ ◌>>◌
abbrev pub ◌>>=◌ {ℓ ℓ'} : {A : Type ℓ} {B : Type ℓ'} → Result A → (A → Result B) → Result B
ok a >>= rest = rest a
throws e >>= rest = throws e
fails x >>= rest = fails x

-- The same behind a `void` call.
abbrev pub ◌>>◌ {ℓ} : {B : Type ℓ} → Result (Unit {0}) → Result B → Result B
call >> rest = call >>= λ _. rest
