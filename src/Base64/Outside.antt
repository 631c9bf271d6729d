-- ===== src/Base64/Outside.antt =====
-- Where `b64encode` reads outside of its table.
use project_test_demo.Common.{
  ℕ, zero, suc, ◌+◌, ◌-◌, ◌*◌, ◌/◌, ◌%◌, ◌^◌, ◌≤◌, ◌<◌, Option, none, some, [], ◌∷◌, ◌++◌, length,
  get_elem?, get_or, Bytes, bit_or, ◌≡◌, ◌⊎◌, inl, inr, refl, ap, ◌∙◌, arith,
}
use project_test_demo.Common.Maybe.{◌>>=◌}
use project_test_demo.Common.Bits.{or_left, or_right}
use project_test_demo.Base64.{
  b64chars, as_int, shl, char_at, char_of, encode_tail, encode_loop, padding, b64encode,
}

char_at-negative : (n k : ℕ) → 2 ^ 31 ≤ n → char_at n k ≡ none
char_at-negative n k h = ground arith

as_int-negative : (c : ℕ) → 128 ≤ c → c < 256 → as_int c ≡ 2 ^ 32 - 256 + c
as_int-negative c h below = ground arith

shl-negative :
    (c : ℕ) → 128 ≤ c → c < 256 → (2 ^ 31 ≤ shl 16 (as_int c)) × (2 ^ 31 ≤ shl 8 (as_int c))
shl-negative c h below =
    (omega (arith, as_int-negative c h below), omega (arith, as_int-negative c h below))

bind-none : (o : Option ℕ) → ◌>>=◌ {B = Bytes} o (λ f. none) ≡ none
bind-none none = refl
bind-none (some f) = refl

group-negative :
    (a b c : ℕ) (s : Bytes)
    → (2 ^ 31 ≤ bit_or (bit_or (shl 16 (as_int a)) (shl 8 (as_int b))) (as_int c))
      ⊎ (encode_loop s ≡ none)
    → encode_loop (a ∷ b ∷ c ∷ s) ≡ none
unfolding encode_loop
group-negative a b c s (inl h) =
    ap
      (λ r.
        r >>= λ f. encode_loop s >>= λ o. some (f ∷ char_of n 12 ∷ char_of n 6 ∷ char_of n 0 ∷ o))
      (char_at-negative n 18 h)
  where
    n : ℕ
    n = bit_or (bit_or (shl 16 (as_int a)) (shl 8 (as_int b))) (as_int c)
group-negative a b c s (inr h) =
    ap
      (λ r.
        char_at n 18 >>= λ f. r >>= λ o. some (f ∷ char_of n 12 ∷ char_of n 6 ∷ char_of n 0 ∷ o))
      h
    ∙ bind-none (char_at n 18)
  where
    n : ℕ
    n = bit_or (bit_or (shl 16 (as_int a)) (shl 8 (as_int b))) (as_int c)

encode_loop-outside :
    (s : Bytes) (i c : ℕ)
    → get_elem? s i ≡ some c
    → 128 ≤ c
    → c < 256
    → (i < length s / 3 * 3) ⊎ (length s % 3 ≡ 1)
    → encode_loop s ≡ none
unfolding encode_loop encode_tail
encode_loop-outside [] i c e h below p = ground arith
encode_loop-outside (a ∷ []) zero c e h below p =
    let same : a ≡ c = cc in
    ap (λ r. r >>= λ f. some (f ∷ get_or b64chars (shl 4 (as_int a) % 64) 0 ∷ b'=' ∷ []))
      (char_at-negative (as_int a) 2 (omega (arith, as_int-negative a (omega arith) (omega arith))))
encode_loop-outside (a ∷ []) (suc i) c e h below p = ground arith
encode_loop-outside (a ∷ b ∷ []) i c e h below (inl p) = absurd (omega arith)
encode_loop-outside (a ∷ b ∷ []) i c e h below (inr p) = absurd (omega arith)
encode_loop-outside (a ∷ b ∷ d ∷ s) zero c e h below p =
    let same : a ≡ c = cc in
    let x : ℕ = shl 16 (as_int a) in
    let y : ℕ = shl 8 (as_int b) in
    let large : 2 ^ 31 ≤ x = (shl-negative a (omega arith) (omega arith)).0 in
    group-negative a b d s
      (inl (omega (arith, large, or_left x y, or_left (bit_or x y) (as_int d))))
encode_loop-outside (a ∷ b ∷ d ∷ s) (suc zero) c e h below p =
    let same : b ≡ c = cc in
    let x : ℕ = shl 16 (as_int a) in
    let y : ℕ = shl 8 (as_int b) in
    let large : 2 ^ 31 ≤ y = (shl-negative b (omega arith) (omega arith)).1 in
    group-negative a b d s
      (inl (omega (arith, large, or_right x y, or_left (bit_or x y) (as_int d))))
encode_loop-outside (a ∷ b ∷ d ∷ s) (suc (suc zero)) c e h below p =
    let same : d ≡ c = cc in
    let x : ℕ = bit_or (shl 16 (as_int a)) (shl 8 (as_int b)) in
    group-negative a b d s
      (inl (omega (arith, as_int-negative d (omega arith) (omega arith), or_right x (as_int d))))
encode_loop-outside (a ∷ b ∷ d ∷ s) (suc (suc (suc i))) c e h below (inl p) =
    group-negative a b d s (inr (encode_loop-outside s i c e h below (inl (omega arith))))
encode_loop-outside (a ∷ b ∷ d ∷ s) (suc (suc (suc i))) c e h below (inr p) =
    group-negative a b d s (inr (encode_loop-outside s i c e h below (inr (omega arith))))

-- A byte of 128 or more in a group of three bytes, or alone behind the groups, makes the encoder
-- read outside of its table.
pub b64encode-outside :
    (s : Bytes) (i c : ℕ)
    → get_elem? s i ≡ some c
    → 128 ≤ c
    → c < 256
    → (i < length s / 3 * 3) ⊎ (length s % 3 ≡ 1)
    → b64encode s ≡ none
unfolding b64encode
b64encode-outside s i c e h below p =
    ap (λ r. r >>= λ out. some (out ++ padding ((length s + 2) / 3 * 4 - length out)))
      (encode_loop-outside s i c e h below p)
