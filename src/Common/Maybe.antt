-- ===== src/Common/Maybe.antt =====
-- Chains of steps that may be undefined, as `do` blocks over `Option`.

use mathlib.Core.Option.{Option, none, some}

infixl 5 ◌>>=◌
abbrev pub ◌>>=◌ {ℓ κ} : {A : Type ℓ} {B : Type κ} → Option A → (A → Option B) → Option B
none >>= f = none
some a >>= f = f a
