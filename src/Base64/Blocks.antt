-- ===== src/Base64/Blocks.antt =====
-- The groups of three bytes of a text, and their characters.
use project_test_demo.Common.{
  ℕ, zero, suc, ◌+◌, ◌*◌, ◌/◌, ◌%◌, ◌^◌, ◌<◌, ◌==◌, false, Option, none, some, [], ◌∷◌, ◌++◌,
  length, get_elem?, Bytes, bit_or, ◌≡◌, refl, sym, ap, ◌∙◌, arith,
}
use project_test_demo.Common.Maybe.{◌>>=◌}
use project_test_demo.Base64.{
  shl, char_at, char_of, index_at, encode_tail, encode_loop, decode_loop,
}
use project_test_demo.Base64.Groups.{
  char, index_at-char, char-plain, char_at-char, three_bytes, four_parts,
}

-- Bytes below 128.
unfoldable pub IsAscii : Bytes → Type 0
IsAscii [] = Unit
IsAscii (c ∷ s) = (c < 128) × IsAscii s

-- The four characters of a group.
abbrev quad : ℕ → Bytes → Bytes
quad n p =
    char (n / 2 ^ 18) ∷ char (n / 2 ^ 12 % 64) ∷ char (n / 2 ^ 6 % 64) ∷ char (n / 2 ^ 0 % 64) ∷ p

regroup :
    (n : ℕ)
    → n / 2 ^ 18 * 2 ^ 18 + n / 2 ^ 12 % 64 * 2 ^ 12 + n / 2 ^ 6 % 64 * 2 ^ 6 + n / 2 ^ 0 % 64 ≡ n
regroup n = omega arith

quad-number :
    (n : ℕ)
    → n < 2 ^ 24
    → bit_or
        (bit_or
          (bit_or
            (shl 18 (index_at (char (n / 2 ^ 18))))
            (shl 12 (index_at (char (n / 2 ^ 12 % 64)))))
          (shl 6 (index_at (char (n / 2 ^ 6 % 64)))))
        (index_at (char (n / 2 ^ 0 % 64)))
      ≡ n
quad-number n h =
    let w = index_at-char (n / 2 ^ 18) (omega arith) in
    let x = index_at-char (n / 2 ^ 12 % 64) (omega arith) in
    let y = index_at-char (n / 2 ^ 6 % 64) (omega arith) in
    let z = index_at-char (n / 2 ^ 0 % 64) (omega arith) in
    ap
      (λ t.
        bit_or
          (bit_or (bit_or (shl 18 t) (shl 12 (index_at (char (n / 2 ^ 12 % 64)))))
            (shl 6 (index_at (char (n / 2 ^ 6 % 64)))))
          (index_at (char (n / 2 ^ 0 % 64))))
      w
    ∙ ap
        (λ t.
          bit_or
            (bit_or (bit_or (shl 18 (n / 2 ^ 18)) (shl 12 t))
              (shl 6 (index_at (char (n / 2 ^ 6 % 64)))))
            (index_at (char (n / 2 ^ 0 % 64))))
        x
    ∙ ap
        (λ t.
          bit_or (bit_or (bit_or (shl 18 (n / 2 ^ 18)) (shl 12 (n / 2 ^ 12 % 64))) (shl 6 t))
            (index_at (char (n / 2 ^ 0 % 64))))
        y
    ∙ ap
        (λ t.
          bit_or
            (bit_or (bit_or (shl 18 (n / 2 ^ 18)) (shl 12 (n / 2 ^ 12 % 64)))
              (shl 6 (n / 2 ^ 6 % 64)))
            t)
        z
    ∙ four_parts (n / 2 ^ 18) (n / 2 ^ 12 % 64) (n / 2 ^ 6 % 64) (n / 2 ^ 0 % 64) (omega arith)
        (omega arith) (omega arith) (omega arith)
    ∙ regroup n

quad-loop :
    (n k : ℕ) (p out left : Bytes)
    → n < 2 ^ 24
    → decode_loop k p ≡ some (out, left)
    → decode_loop (suc k) (quad n p)
      ≡ some (n / 2 ^ 16 % 256 ∷ n / 2 ^ 8 % 256 ∷ n % 256 ∷ out, left)
unfolding decode_loop
quad-loop n k p out left h rest =
    ap
      (λ m.
        decode_loop k p >>= λ (o, l). some (m / 2 ^ 16 % 256 ∷ m / 2 ^ 8 % 256 ∷ m % 256 ∷ o, l))
      (quad-number n h)
    ∙ ap (λ r. r >>= λ (o, l). some (n / 2 ^ 16 % 256 ∷ n / 2 ^ 8 % 256 ∷ n % 256 ∷ o, l)) rest

group-encode :
    (a b c : ℕ) (s : Bytes)
    → a < 128
    → b < 128
    → c < 128
    → encode_loop (a ∷ b ∷ c ∷ s)
      ≡ (encode_loop s >>= λ out. some (quad (a * 2 ^ 16 + b * 2 ^ 8 + c) out))
unfolding encode_loop
group-encode a b c s ha hb hc =
    let n : ℕ = a * 2 ^ 16 + b * 2 ^ 8 + c in
    let first = char_at-char n 18 (omega arith) (omega arith) in
    ap
      (λ m. char_at m 18 >>= λ f.
        encode_loop s >>= λ others. some (f ∷ char_of m 12 ∷ char_of m 6 ∷ char_of m 0 ∷ others))
      (three_bytes a b c ha hb hc)
    ∙ ap
        (λ r. r >>= λ f.
          encode_loop s >>= λ others. some (f ∷ char_of n 12 ∷ char_of n 6 ∷ char_of n 0 ∷ others))
        first

group-decode :
    (a b c k : ℕ) (p out left : Bytes)
    → a < 128
    → b < 128
    → c < 128
    → decode_loop k p ≡ some (out, left)
    → decode_loop (suc k) (quad (a * 2 ^ 16 + b * 2 ^ 8 + c) p) ≡ some (a ∷ b ∷ c ∷ out, left)
group-decode a b c k p out left ha hb hc rest =
    let n : ℕ = a * 2 ^ 16 + b * 2 ^ 8 + c in
    let first : n / 2 ^ 16 % 256 ≡ a = omega arith in
    let second : n / 2 ^ 8 % 256 ≡ b = omega arith in
    let third : n % 256 ≡ c = omega arith in
    quad-loop n k p out left (omega arith) rest
    ∙ ap (λ x. some (x ∷ n / 2 ^ 8 % 256 ∷ n % 256 ∷ out, left)) first
    ∙ ap (λ y. some (a ∷ y ∷ n % 256 ∷ out, left)) second
    ∙ ap (λ z. some (a ∷ b ∷ z ∷ out, left)) third

bind-some : (o : Option Bytes) → (o >>= some) ≡ o
bind-some none = refl
bind-some (some a) = refl

bind-map :
    (o : Option Bytes) (f g : Bytes → Bytes)
    → (o >>= λ a. some (g (f a))) ≡ ((o >>= λ a. some (f a)) >>= λ b. some (g b))
bind-map none f g = refl
bind-map (some a) f g = refl

-- k * 4, which computes.
unfoldable pub fours : ℕ → ℕ
fours zero = 0
fours (suc k) = suc (suc (suc (suc (fours k))))

pub fours_lem : (k : ℕ) → fours k ≡ k * 4
unfolding fours
fours_lem zero = refl
fours_lem (suc k) = omega (arith, fours_lem k)

-- The groups of three bytes, their characters, and what is behind them.
unfoldable pub groups : Bytes → ℕ
groups (a ∷ b ∷ c ∷ s) = suc (groups s)
groups s = 0

unfoldable pub quads : Bytes → Bytes
quads (a ∷ b ∷ c ∷ s) = quad (a * 2 ^ 16 + b * 2 ^ 8 + c) (quads s)
quads s = []

unfoldable pub grouped : Bytes → Bytes
grouped (a ∷ b ∷ c ∷ s) = a ∷ b ∷ c ∷ grouped s
grouped s = []

unfoldable pub rest_of : Bytes → Bytes
rest_of (a ∷ b ∷ c ∷ s) = rest_of s
rest_of s = s

pub grouped-rest_of : (s : Bytes) → grouped s ++ rest_of s ≡ s
unfolding grouped rest_of
grouped-rest_of [] = refl
grouped-rest_of (a ∷ []) = refl
grouped-rest_of (a ∷ b ∷ []) = refl
grouped-rest_of (a ∷ b ∷ c ∷ s) = ap (λ t. a ∷ b ∷ c ∷ t) (grouped-rest_of s)

pub length-groups : (s : Bytes) → length s ≡ groups s * 3 + length (rest_of s)
unfolding groups rest_of
length-groups [] = refl
length-groups (a ∷ []) = refl
length-groups (a ∷ b ∷ []) = refl
length-groups (a ∷ b ∷ c ∷ s) = omega (arith, length-groups s)

pub length-quads : (s : Bytes) → length (quads s) ≡ groups s * 4
unfolding groups quads
length-quads [] = refl
length-quads (a ∷ []) = refl
length-quads (a ∷ b ∷ []) = refl
length-quads (a ∷ b ∷ c ∷ s) = omega (arith, length-quads s)

pub encode_loop-quads :
    (s : Bytes) → IsAscii s → encode_loop s ≡ (encode_tail (rest_of s) >>= λ o. some (quads s ++ o))
unfolding encode_loop rest_of quads IsAscii
encode_loop-quads [] h = sym (bind-some (encode_tail []))
encode_loop-quads (a ∷ []) h = sym (bind-some (encode_tail (a ∷ [])))
encode_loop-quads (a ∷ b ∷ []) h = sym (bind-some (encode_tail (a ∷ b ∷ [])))
encode_loop-quads (a ∷ b ∷ c ∷ s) (ha, (hb, (hc, h))) =
    let n : ℕ = a * 2 ^ 16 + b * 2 ^ 8 + c in
    group-encode a b c s ha hb hc
    ∙ ap (λ r. r >>= λ out. some (quad n out)) (encode_loop-quads s h)
    ∙ sym (bind-map (encode_tail (rest_of s)) (λ o. quads s ++ o) (quad n))

pub decode_loop-quads :
    (s p : Bytes) → IsAscii s → decode_loop (groups s) (quads s ++ p) ≡ some (grouped s, p)
unfolding decode_loop groups quads grouped IsAscii
decode_loop-quads [] p h = refl
decode_loop-quads (a ∷ []) p h = refl
decode_loop-quads (a ∷ b ∷ []) p h = refl
decode_loop-quads (a ∷ b ∷ c ∷ s) p (ha, (hb, (hc, h))) =
    group-decode a b c (groups s) (quads s ++ p) (grouped s) p ha hb hc (decode_loop-quads s p h)

pub quads-last :
    (s p : Bytes) (k : ℕ)
    → groups s ≡ suc k
    → (x : ℕ) × (get_elem? (quads s ++ p) (suc (suc (suc (fours k)))) ≡ some x)
      × ((x == b'=') ≡ false)
unfolding groups quads fours
quads-last [] p k e = absurd (omega arith)
quads-last (a ∷ []) p k e = absurd (omega arith)
quads-last (a ∷ b ∷ []) p k e = absurd (omega arith)
quads-last (a ∷ b ∷ c ∷ s) p zero e =
    let n : ℕ = a * 2 ^ 16 + b * 2 ^ 8 + c in
    (char (n / 2 ^ 0 % 64), refl, char-plain (n / 2 ^ 0 % 64) (omega arith))
quads-last (a ∷ b ∷ c ∷ s) p (suc k) e = quads-last s p k (omega arith)
