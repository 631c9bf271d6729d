-- ===== src/Common/Bits.antt =====
-- `|` of a number that is shifted and one that fits below it, as a sum.
use Prim.Native.Nat.{
  ℕ, zero, suc, ◌+◌, ◌*◌, ◌/◌, ◌%◌, ◌^◌, ◌≤◌, ◌<◌, max, digits, bit_or, bit_or-bitwise,
}
use mathlib.Core.Path.{◌≡◌, refl, ap}
use native.Mathlib.Nat.{pow-suc}
use native.Mathlib.Omega.{arith}

-- The digits of the or, on fuel, which are the same with any fuel that is enough.
abbrev or_digits : ℕ → ℕ → ℕ → ℕ
or_digits = digits (λ y. y) max

or_digits-enough : (n m a b : ℕ) → a ≤ n → a ≤ m → or_digits n a b ≡ or_digits m a b
or_digits-enough zero zero a b h k = refl
or_digits-enough zero (suc m) zero b h k = refl
or_digits-enough zero (suc m) (suc a) b h k = absurd (omega arith)
or_digits-enough (suc n) zero zero b h k = refl
or_digits-enough (suc n) zero (suc a) b h k = absurd (omega arith)
or_digits-enough (suc n) (suc m) zero b h k = refl
or_digits-enough (suc n) (suc m) (suc a) b h k =
    let half = or_digits-enough n m (suc a / 2) (b / 2) (omega arith) (omega arith) in omega arith

or_zero_left : (b : ℕ) → bit_or 0 b ≡ b
or_zero_left b = bit_or-bitwise 0 b

or_halves : (a b : ℕ) → bit_or a b ≡ bit_or (a / 2) (b / 2) * 2 + max (a % 2) (b % 2)
or_halves zero b = omega (arith, or_zero_left b, or_zero_left (b / 2))
or_halves (suc a) b = omega (
  arith,
  bit_or-bitwise (suc a) b,
  bit_or-bitwise (suc a / 2) (b / 2),
  or_digits-enough a (suc a / 2) (suc a / 2) (b / 2) (omega arith) (omega arith),
)

or_zero_fuel : (n a : ℕ) → a ≤ n → bit_or a 0 ≡ a
or_zero_fuel n zero h = refl
or_zero_fuel zero (suc a) h = absurd (omega arith)
or_zero_fuel (suc n) (suc a) h =
    let half = or_zero_fuel n (suc a / 2) (omega arith) in omega (arith, or_halves (suc a) 0)

-- A number above the lowest k digits, and one that has at most k.
pub or_sum : (k q r : ℕ) → r < 2 ^ k → bit_or (q * 2 ^ k) r ≡ q * 2 ^ k + r
or_sum zero q r h =
    let z : r ≡ 0 = omega arith in rw z (omega (arith, or_zero_fuel (q * 1) (q * 1) (omega arith)))
or_sum (suc k) q r h =
    let double : q * 2 ^ suc k ≡ q * 2 ^ k * 2 =
      omega (arith, ap (λ (t : ℕ). q * t) (pow-suc 2 k)) in
    let half = or_sum k q (r / 2) (omega (arith, pow-suc 2 k)) in
    let halved : q * 2 ^ suc k / 2 ≡ q * 2 ^ k = omega (arith, double) in
    omega (arith, or_halves (q * 2 ^ suc k) r, double, half, ap (λ t. bit_or t (r / 2)) halved)

or-at_least : (n a b : ℕ) → a ≤ n → (a ≤ bit_or a b) × (b ≤ bit_or a b)
or-at_least n zero b h = (omega (arith, or_zero_left b), omega (arith, or_zero_left b))
or-at_least zero (suc a) b h = absurd (omega arith)
or-at_least (suc n) (suc a) b h =
    let (left, right) = or-at_least n (suc a / 2) (b / 2) (omega arith) in
    let most_left : suc a % 2 ≤ max (suc a % 2) (b % 2) = omega arith in
    let most_right : b % 2 ≤ max (suc a % 2) (b % 2) = omega arith in
    (
      omega (arith, or_halves (suc a) b, left, most_left),
      omega (arith, or_halves (suc a) b, right, most_right),
    )

pub or_left : (a b : ℕ) → a ≤ bit_or a b
or_left a b = (or-at_least a a b (omega arith)).0

pub or_right : (a b : ℕ) → b ≤ bit_or a b
or_right a b = (or-at_least a a b (omega arith)).1
