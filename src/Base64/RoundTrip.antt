-- ===== src/Base64/RoundTrip.antt =====
-- What `b64encode` writes, `b64decode` reads.
use project_test_demo.Common.{
  ℕ, zero, suc, ◌+◌, ◌-◌, ◌*◌, ◌/◌, ◌%◌, ◌^◌, ◌<◌, ◌==◌, true, false, not, some, [], ◌∷◌, ◌++◌,
  length, length-append, get_elem?, Bytes, append-nil, append_assoc, ◌≡◌, refl, sym, ap, ◌∙◌, subst,
  arith,
}
use project_test_demo.Common.Maybe.{◌>>=◌}
use project_test_demo.Base64.{
  encode_tail, encode_loop, padding, b64encode, decode_loop, decode_tail, b64decode,
}
use project_test_demo.Base64.Blocks.{
  IsAscii, groups, quads, grouped, rest_of, fours, fours_lem, grouped-rest_of, length-groups,
  length-quads, encode_loop-quads, decode_loop-quads, quads-last,
}
use project_test_demo.Base64.Tails.{encode-one, decode-one, encode-two, decode-two}
use project_test_demo.Base64.Groups.{char, char-plain}

b64decode-plain :
    (k x : ℕ) (q out left : Bytes)
    → get_elem? q (suc (suc (suc (fours k)))) ≡ some x
    → (x == b'=') ≡ false
    → decode_loop (suc k) q ≡ some (out, left)
    → b64decode q (suc (suc (suc (suc (fours k))))) ≡ some out
unfolding b64decode decode_tail
b64decode-plain k x q out left last plain loop =
    let len : ℕ = suc (suc (suc (suc (fours k)))) in
    let whole : (len % 4 == 0) ≡ true = ground (arith, fours_lem k) in
    let rounds : (len - 0) / 4 ≡ suc k = omega (arith, fours_lem k) in
    ground (arith, append-nil out)

b64decode-padded :
    (k x : ℕ) (q out left tail : Bytes)
    → get_elem? q (suc (suc (suc (fours k)))) ≡ some b'='
    → get_elem? q (suc (suc (fours k))) ≡ some x
    → decode_loop k q ≡ some (out, left)
    → decode_tail true (not (x == b'=')) left ≡ some tail
    → b64decode q (suc (suc (suc (suc (fours k))))) ≡ some (out ++ tail)
unfolding b64decode
b64decode-padded k x q out left tail last before loop end =
    let len : ℕ = suc (suc (suc (suc (fours k)))) in
    let whole : (len % 4 == 0) ≡ true = ground (arith, fours_lem k) in
    let rounds : (len - 1) / 4 ≡ k = omega (arith, fours_lem k) in ground arith

IsAscii-rest_of : (s : Bytes) → IsAscii s → IsAscii (rest_of s)
unfolding rest_of IsAscii
IsAscii-rest_of [] h = h
IsAscii-rest_of (a ∷ []) h = h
IsAscii-rest_of (a ∷ b ∷ []) h = h
IsAscii-rest_of (a ∷ b ∷ c ∷ s) (ha, (hb, (hc, h))) = IsAscii-rest_of s h

rest_of-short : (s : Bytes) → length (rest_of s) < 3
unfolding rest_of
rest_of-short [] = omega arith
rest_of-short (a ∷ []) = omega arith
rest_of-short (a ∷ b ∷ []) = omega arith
rest_of-short (a ∷ b ∷ c ∷ s) = rest_of-short s

get_elem?-behind : (q p : Bytes) (i : ℕ) → get_elem? (q ++ p) (i + length q) ≡ get_elem? p i
get_elem?-behind [] p i = ap (get_elem? p) (omega arith)
get_elem?-behind (c ∷ q) p i =
    let next : i + suc (length q) ≡ suc (i + length q) = omega arith in
    ap (get_elem? (c ∷ q ++ p)) next ∙ get_elem?-behind q p i

encoded :
    (s o : Bytes) (k n : ℕ)
    → IsAscii s
    → encode_tail (rest_of s) ≡ some o
    → groups s ≡ k
    → (length (rest_of s) + 2) / 3 * 4 - length o ≡ n
    → b64encode s ≡ some ((quads s ++ o) ++ padding n)
unfolding b64encode
encoded s o k n h tail g missing =
    let size : (length s + 2) / 3 * 4 - length (quads s ++ o) ≡ n =
      omega (arith, length-append (quads s) o, length-quads s, length-groups s, missing) in
    ap (λ r. r >>= λ out. some (out ++ padding ((length s + 2) / 3 * 4 - length out)))
      (encode_loop-quads s h)
    ∙ ap
        (λ r. (r >>= λ t. some (quads s ++ t)) >>= λ out.
          some (out ++ padding ((length s + 2) / 3 * 4 - length out)))
        tail
    ∙ ap (λ m. some ((quads s ++ o) ++ padding m)) size

-- What the encoded text is, and that it is read back.
abbrev IsReadBack : Bytes → Type 0
IsReadBack s =
    (e : Bytes) × (b64encode s ≡ some e)
    × (length e ≡ (length s + 2) / 3 * 4)
    × (b64decode (e ++ (0 ∷ [])) (length e) ≡ some s)

back-plain : (s : Bytes) (k : ℕ) → IsAscii s → groups s ≡ suc k → rest_of s ≡ [] → IsReadBack s
unfolding encode_tail
back-plain s k h g e =
    let (x, last, plain) = quads-last s (0 ∷ []) k g in
    let same : grouped s ≡ s =
      sym (append-nil (grouped s)) ∙ sym (ap (λ t. grouped s ++ t) e) ∙ grouped-rest_of s in
    let bare : length (rest_of s) ≡ 0 = ap length e in
    let size : length (quads s) ≡ suc (suc (suc (suc (fours k)))) =
      omega (arith, length-quads s, fours_lem k, g) in
    let loop : decode_loop (suc k) (quads s ++ (0 ∷ [])) ≡ some (grouped s, 0 ∷ []) =
      ap (λ n. decode_loop n (quads s ++ (0 ∷ []))) (sym g) ∙ decode_loop-quads s (0 ∷ []) h in
    (
      quads s,
      encoded s [] (groups s) 0 h (ap encode_tail e) refl (omega (arith, bare))
          ∙ ap some (append-nil _ ∙ append-nil _),
      omega (arith, length-quads s, length-groups s, bare),
      ap (b64decode (quads s ++ (0 ∷ []))) size
          ∙ b64decode-plain k x (quads s ++ (0 ∷ [])) (grouped s) (0 ∷ []) last plain loop
          ∙ ap some same,
    )

back-whole : (s : Bytes) (k : ℕ) → IsAscii s → groups s ≡ k → rest_of s ≡ [] → IsReadBack s
unfolding b64encode b64decode encode_loop encode_tail
back-whole [] zero h g e = ([], refl, refl, refl)
back-whole (c ∷ s) zero h g e =
    let bare : length (rest_of (c ∷ s)) ≡ 0 = ap length e in
    absurd (omega (arith, length-groups (c ∷ s), g, bare))
back-whole s (suc k) h g e = back-plain s k h g e

back-padded :
    (s : Bytes) (c1 c2 c3 : ℕ)
    → IsAscii s
    → encode_tail (rest_of s) ≡ some (c1 ∷ c2 ∷ c3 ∷ [])
    → ¬ (length (rest_of s) ≡ 0)
    → decode_tail true (not (c3 == b'=')) (c1 ∷ c2 ∷ c3 ∷ b'=' ∷ 0 ∷ []) ≡ some (rest_of s)
    → IsReadBack s
back-padded s c1 c2 c3 h tail some_left back =
    let end : Bytes = c1 ∷ c2 ∷ c3 ∷ b'=' ∷ [] in
    let q : Bytes = quads s ++ (c1 ∷ c2 ∷ c3 ∷ b'=' ∷ 0 ∷ []) in
    let k : ℕ = groups s in
    let size : length (quads s) ≡ fours k = omega (arith, length-quads s, fours_lem k) in
    let whole : length (quads s ++ end) ≡ suc (suc (suc (suc (fours k)))) =
      omega (arith, length-append (quads s) end, size) in
    let at_end : get_elem? q (suc (suc (suc (fours k)))) ≡ some b'=' =
      ap (get_elem? q) (omega (arith, size))
      ∙ get_elem?-behind (quads s) (c1 ∷ c2 ∷ c3 ∷ b'=' ∷ 0 ∷ []) 3 in
    let before : get_elem? q (suc (suc (fours k))) ≡ some c3 =
      ap (get_elem? q) (omega (arith, size))
      ∙ get_elem?-behind (quads s) (c1 ∷ c2 ∷ c3 ∷ b'=' ∷ 0 ∷ []) 2 in
    (
      quads s ++ end,
      encoded s (c1 ∷ c2 ∷ c3 ∷ []) k 1 h tail refl (omega (arith, rest_of-short s))
          ∙ ap some (append_assoc (quads s) (c1 ∷ c2 ∷ c3 ∷ []) (b'=' ∷ [])),
      omega (arith, whole, fours_lem k, length-groups s, rest_of-short s),
      ap (λ t. b64decode t (length (quads s ++ end))) (append_assoc (quads s) end (0 ∷ []))
          ∙ ap (b64decode q) whole
          ∙ b64decode-padded k c3 q (grouped s) (c1 ∷ c2 ∷ c3 ∷ b'=' ∷ 0 ∷ []) (rest_of s) at_end
              before (decode_loop-quads s (c1 ∷ c2 ∷ c3 ∷ b'=' ∷ 0 ∷ []) h) back
          ∙ ap some (grouped-rest_of s),
    )

back-at : (s t : Bytes) → IsAscii s → rest_of s ≡ t → IsReadBack s
unfolding IsAscii
back-at s [] h e = back-whole s (groups s) h refl e
back-at s (a ∷ []) h e =
    let (ha, done) = subst IsAscii e (IsAscii-rest_of s h) in
    back-padded s (char (a / 2 ^ 2)) (char (a * 16 % 64)) b'=' h
      (ap encode_tail e ∙ encode-one a ha) (λ z. absurd (omega (arith, ap length e, z)))
      (decode-one a (b'=' ∷ b'=' ∷ 0 ∷ []) ha ∙ ap some (sym e))
back-at s (a ∷ b ∷ []) h e =
    let (ha, (hb, done)) = subst IsAscii e (IsAscii-rest_of s h) in
    let n : ℕ = a * 2 ^ 8 + b in
    let third : not (char (n * 4 % 64) == b'=') ≡ true =
      ap not (char-plain (n * 4 % 64) (omega arith)) in
    back-padded s (char (n / 2 ^ 10 % 64)) (char (n / 2 ^ 4 % 64)) (char (n * 4 % 64)) h
      (ap encode_tail e ∙ encode-two a b ha hb) (λ z. absurd (omega (arith, ap length e, z)))
      (ap
          (λ pad2.
            decode_tail true pad2
              (char (n / 2 ^ 10 % 64) ∷ char (n / 2 ^ 4 % 64) ∷ char (n * 4 % 64) ∷ b'=' ∷ 0 ∷ []))
          third
        ∙ decode-two a b (b'=' ∷ 0 ∷ []) ha hb
        ∙ ap some (sym e))
back-at s (a ∷ b ∷ c ∷ t) h e = absurd (omega (arith, rest_of-short s, ap length e))

-- A text of bytes below 128 is encoded, and what it is encoded as is decoded as the text: both
-- functions read within the table and the text, whose bytes a NUL follows.
pub b64decode-b64encode :
    (s : Bytes)
    → IsAscii s
    → (e : Bytes) × (b64encode s ≡ some e)
      × (length e ≡ (length s + 2) / 3 * 4)
      × (b64decode (e ++ (0 ∷ [])) (length e) ≡ some s)
b64decode-b64encode s h = back-at s (rest_of s) h refl
