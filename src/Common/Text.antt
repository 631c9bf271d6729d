-- ===== src/Common/Text.antt =====
-- Byte strings: lists of numbers below 256, with the operations of `std::string` that are shared.
use Prim.Native.Nat.{ℕ}
use Prim.Native.Char.{code}
use Prim.Native.String.{String}
use mathlib.Core.Path.{◌≡◌, refl}
use mathlib.Core.Logic.{◌↔◌}
use mathlib.Core.Bool.{Bool, true, false}
use mathlib.Core.List.{List, [], ◌∷◌}
use native.Mathlib.Omega.{arith}
use project_test_demo.Common.Tests.{◌==◌, if◌then◌else◌}

abbrev pub Bytes : Type 0
Bytes = List ℕ

-- The bytes of an ASCII literal.
abbrev pub codes : String → Bytes
codes String.[] = []
codes (String.◌∷◌ c s) = code c ∷ codes s

-- `s == t` on strings.
unfoldable pub equal : Bytes → Bytes → Bool
equal [] [] = true
equal [] (d ∷ t) = false
equal (c ∷ s) [] = false
equal (c ∷ s) (d ∷ t) = if c == d then equal s t else false

pub equal_iff : (s t : Bytes) → (equal s t ≡ true) ↔ (s ≡ t)
unfolding equal
equal_iff [] [] = (λ h. refl, λ h. refl)
equal_iff [] (d ∷ t) = (λ h. cc, λ h. cc)
equal_iff (c ∷ s) [] = (λ h. cc, λ h. cc)
equal_iff (c ∷ s) (d ∷ t) = ground (arith, equal_iff s t)

pub equal_self : (s : Bytes) → equal s s ≡ true
equal_self s = (equal_iff s s).1 refl

-- The C string that starts a byte string: up to the first NUL.
unfoldable pub c_str : Bytes → Bytes
c_str [] = []
c_str (c ∷ cs) = if c == 0 then [] else c ∷ c_str cs
