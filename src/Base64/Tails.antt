-- ===== src/Base64/Tails.antt =====
-- One or two bytes behind the groups.
use project_test_demo.Common.{
  ℕ, ◌+◌, ◌*◌, ◌/◌, ◌%◌, ◌^◌, ◌<◌, true, false, some, [], ◌∷◌, Bytes, bit_or, ◌≡◌, ap, ◌∙◌, arith,
}
use project_test_demo.Common.Maybe.{◌>>=◌}
use project_test_demo.Common.Bits.{or_sum}
use project_test_demo.Base64.{as_int, shl, char_at, char_of, index_at, encode_tail, decode_tail}
use project_test_demo.Base64.Groups.{char, index_at-char, char_at-char, as_int-small}

pub encode-one :
    (a : ℕ)
    → a < 128
    → encode_tail (a ∷ []) ≡ some (char (a / 2 ^ 2) ∷ char (a * 16 % 64) ∷ b'=' ∷ [])
unfolding encode_tail
encode-one a h =
    let same = as_int-small a h in
    let shifted : shl 4 a % 64 ≡ a * 16 % 64 = omega arith in
    ap (λ n. char_at n 2 >>= λ f. some (f ∷ char (shl 4 n % 64) ∷ b'=' ∷ [])) same
    ∙ ap (λ r. r >>= λ f. some (f ∷ char (shl 4 a % 64) ∷ b'=' ∷ []))
        (char_at-char a 2 (omega arith) (omega arith))
    ∙ ap (λ i. some (char (a / 2 ^ 2) ∷ char i ∷ b'=' ∷ [])) shifted

pub decode-one :
    (a : ℕ) (p : Bytes)
    → a < 128
    → decode_tail true false (char (a / 2 ^ 2) ∷ char (a * 16 % 64) ∷ p) ≡ some (a ∷ [])
unfolding decode_tail
decode-one a p h =
    let w = index_at-char (a / 2 ^ 2) (omega arith) in
    let x = index_at-char (a * 16 % 64) (omega arith) in
    let first : shl 18 (a / 2 ^ 2) ≡ a / 2 ^ 2 * 2 ^ 18 = omega arith in
    let second : shl 12 (a * 16 % 64) ≡ a * 16 % 64 * 2 ^ 12 = omega arith in
    ap (λ t. some (bit_or (shl 18 t) (shl 12 (index_at (char (a * 16 % 64)))) / 2 ^ 16 % 256 ∷ []))
      w
    ∙ ap (λ t. some (bit_or (shl 18 (a / 2 ^ 2)) (shl 12 t) / 2 ^ 16 % 256 ∷ [])) x
    ∙ ap (λ t. some (bit_or t (shl 12 (a * 16 % 64)) / 2 ^ 16 % 256 ∷ [])) first
    ∙ ap (λ t. some (bit_or (a / 2 ^ 2 * 2 ^ 18) t / 2 ^ 16 % 256 ∷ [])) second
    ∙ ap (λ n. some (n / 2 ^ 16 % 256 ∷ []))
        (or_sum 18 (a / 2 ^ 2) (a * 16 % 64 * 2 ^ 12) (omega arith))
    ∙ ap (λ c. some (c ∷ [])) (omega arith)

pub encode-two :
    (a b : ℕ)
    → a < 128
    → b < 128
    → encode_tail (a ∷ b ∷ [])
      ≡ some (
          char ((a * 2 ^ 8 + b) / 2 ^ 10 % 64)
          ∷ char ((a * 2 ^ 8 + b) / 2 ^ 4 % 64)
          ∷ char ((a * 2 ^ 8 + b) * 4 % 64)
          ∷ [])
unfolding encode_tail
encode-two a b ha hb =
    let n : ℕ = a * 2 ^ 8 + b in
    let first : shl 8 (as_int a) ≡ a * 2 ^ 8 = omega (arith, as_int-small a ha) in
    let shifted : shl 2 n % 64 ≡ n * 4 % 64 = omega arith in
    ap (λ m. some (char_of m 10 ∷ char_of m 4 ∷ char (shl 2 m % 64) ∷ []))
      (ap (λ t. bit_or t (as_int b)) first
        ∙ ap (bit_or (a * 2 ^ 8)) (as_int-small b hb)
        ∙ or_sum 8 a b (omega arith))
    ∙ ap (λ i. some (char_of n 10 ∷ char_of n 4 ∷ char i ∷ [])) shifted

pub decode-two :
    (a b : ℕ) (p : Bytes)
    → a < 128
    → b < 128
    → decode_tail true true (
        char ((a * 2 ^ 8 + b) / 2 ^ 10 % 64)
        ∷ char ((a * 2 ^ 8 + b) / 2 ^ 4 % 64)
        ∷ char ((a * 2 ^ 8 + b) * 4 % 64)
        ∷ p)
      ≡ some (a ∷ b ∷ [])
unfolding decode_tail
decode-two a b p ha hb =
    let n : ℕ = a * 2 ^ 8 + b in
    let x : ℕ = n / 2 ^ 10 % 64 in
    let y : ℕ = n / 2 ^ 4 % 64 in
    let z : ℕ = n * 4 % 64 in
    let first : shl 18 x ≡ x * 2 ^ 18 = omega arith in
    let second : shl 12 y ≡ y * 2 ^ 12 = omega arith in
    let third : shl 6 z ≡ z * 2 ^ 6 = omega arith in
    let joined : x * 2 ^ 18 + y * 2 ^ 12 ≡ (x * 64 + y) * 2 ^ 12 = omega arith in
    let or_first : bit_or (shl 18 (index_at (char x))) (shl 12 (index_at (char y)))
        ≡ (x * 64 + y) * 2 ^ 12 =
      ap (λ t. bit_or (shl 18 t) (shl 12 (index_at (char y)))) (index_at-char x (omega arith))
      ∙ ap (λ t. bit_or (shl 18 x) (shl 12 t)) (index_at-char y (omega arith))
      ∙ ap (λ t. bit_or t (shl 12 y)) first
      ∙ ap (bit_or (x * 2 ^ 18)) second
      ∙ or_sum 18 x (y * 2 ^ 12) (omega arith)
      ∙ joined in
    let or_third : bit_or ((x * 64 + y) * 2 ^ 12) (shl 6 (index_at (char z)))
        ≡ (x * 64 + y) * 2 ^ 12 + z * 2 ^ 6 =
      ap (λ t. bit_or ((x * 64 + y) * 2 ^ 12) (shl 6 t)) (index_at-char z (omega arith))
      ∙ ap (bit_or ((x * 64 + y) * 2 ^ 12)) third
      ∙ or_sum 12 (x * 64 + y) (z * 2 ^ 6) (omega arith) in
    ap (λ m. some (m / 2 ^ 16 % 256 ∷ bit_or m (shl 6 (index_at (char z))) / 2 ^ 8 % 256 ∷ []))
      or_first
    ∙ ap (λ m. some ((x * 64 + y) * 2 ^ 12 / 2 ^ 16 % 256 ∷ m / 2 ^ 8 % 256 ∷ [])) or_third
    ∙ ap (λ c. some (c ∷ ((x * 64 + y) * 2 ^ 12 + z * 2 ^ 6) / 2 ^ 8 % 256 ∷ [])) (omega arith)
    ∙ ap (λ d. some (a ∷ d ∷ [])) (omega arith)
