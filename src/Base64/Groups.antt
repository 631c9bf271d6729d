-- ===== src/Base64/Groups.antt =====
-- Three bytes below 128 as four characters, and back.
use project_test_demo.Common.{
  ℕ, zero, suc, ◌+◌, ◌*◌, ◌/◌, ◌^◌, ◌<◌, ◌==◌, ==_iff, Bool, true, false, not, ◌&&◌, some,
  get_elem?-get_or, get_or, bit_or, ◌≡◌, refl, ap, ◌∙◌, arith,
}
use project_test_demo.Common.Bits.{or_sum}
use project_test_demo.Base64.{b64chars, as_int, shl, char_at, index_at}

all_below : ℕ → (ℕ → Bool) → Bool
all_below zero p = true
all_below (suc n) p = p n && all_below n p

all_below-at : (n : ℕ) (p : ℕ → Bool) (i : ℕ) → all_below n p ≡ true → i < n → p i ≡ true
unfolding all_below
all_below-at zero p i h k = absurd (omega arith)
all_below-at (suc n) p i h k = ground (arith, all_below-at n p i)

-- The character for six bits.
abbrev pub char : ℕ → ℕ
char i = get_or b64chars i 0

pub index_at-char : (i : ℕ) → i < 64 → index_at (char i) ≡ i
unfolding all_below
index_at-char i h =
    (==_iff (index_at (char i)) i).0 (all_below-at 64 (λ x. index_at (char x) == x) i refl h)

pub char-plain : (i : ℕ) → i < 64 → (char i == b'=') ≡ false
unfolding all_below
char-plain i h = ground (arith, all_below-at 64 (λ x. not (char x == b'=')) i refl h)

pub char_at-char : (n k : ℕ) → n < 2 ^ 31 → n / 2 ^ k < 64 → char_at n k ≡ some (char (n / 2 ^ k))
char_at-char n k small h =
    let found = get_elem?-get_or b64chars (n / 2 ^ k) 0 (omega arith) in ground (arith, found)

pub as_int-small : (c : ℕ) → c < 128 → as_int c ≡ c
as_int-small c h = ground arith

pub three_bytes :
    (a b c : ℕ)
    → a < 128
    → b < 128
    → c < 128
    → bit_or (bit_or (shl 16 (as_int a)) (shl 8 (as_int b))) (as_int c) ≡ a * 2 ^ 16 + b * 2 ^ 8 + c
three_bytes a b c ha hb hc =
    let first : shl 16 (as_int a) ≡ a * 2 ^ 16 = omega (arith, as_int-small a ha) in
    let second : shl 8 (as_int b) ≡ b * 2 ^ 8 = omega (arith, as_int-small b hb) in
    let joined : a * 2 ^ 16 + b * 2 ^ 8 ≡ (a * 256 + b) * 2 ^ 8 = omega arith in
    ap (λ x. bit_or (bit_or x (shl 8 (as_int b))) (as_int c)) first
    ∙ ap (λ y. bit_or (bit_or (a * 2 ^ 16) y) (as_int c)) second
    ∙ ap (λ z. bit_or z (as_int c)) (or_sum 16 a (b * 2 ^ 8) (omega arith) ∙ joined)
    ∙ ap (bit_or ((a * 256 + b) * 2 ^ 8)) (as_int-small c hc)
    ∙ or_sum 8 (a * 256 + b) c (omega arith)
    ∙ omega arith

pub four_parts :
    (w x y z : ℕ)
    → w < 64
    → x < 64
    → y < 64
    → z < 64
    → bit_or (bit_or (bit_or (shl 18 w) (shl 12 x)) (shl 6 y)) z
      ≡ w * 2 ^ 18 + x * 2 ^ 12 + y * 2 ^ 6 + z
four_parts w x y z hw hx hy hz =
    let first : shl 18 w ≡ w * 2 ^ 18 = omega arith in
    let second : shl 12 x ≡ x * 2 ^ 12 = omega arith in
    let third : shl 6 y ≡ y * 2 ^ 6 = omega arith in
    let two : w * 2 ^ 18 + x * 2 ^ 12 ≡ (w * 64 + x) * 2 ^ 12 = omega arith in
    let three : (w * 64 + x) * 2 ^ 12 + y * 2 ^ 6 ≡ ((w * 64 + x) * 64 + y) * 2 ^ 6 = omega arith in
    ap (λ t. bit_or (bit_or (bit_or t (shl 12 x)) (shl 6 y)) z) first
    ∙ ap (λ t. bit_or (bit_or (bit_or (w * 2 ^ 18) t) (shl 6 y)) z) second
    ∙ ap (λ t. bit_or (bit_or t (shl 6 y)) z) (or_sum 18 w (x * 2 ^ 12) (omega arith) ∙ two)
    ∙ ap (λ t. bit_or (bit_or ((w * 64 + x) * 2 ^ 12) t) z) third
    ∙ ap (λ t. bit_or t z) (or_sum 12 (w * 64 + x) (y * 2 ^ 6) (omega arith) ∙ three)
    ∙ or_sum 6 ((w * 64 + x) * 64 + y) z (omega arith)
    ∙ omega arith
