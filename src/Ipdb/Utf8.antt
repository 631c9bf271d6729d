-- ===== src/Ipdb/Utf8.antt =====
-- ipdb.hpp, `is_valid_utf8`. The argument is the text of a C string: the list ends where its NUL stands.
use project_test_demo.Common.{
  ℕ, zero, suc, ◌+◌, ◌-◌, ◌*◌, ◌%◌, ◌^◌, ◌≤◌, ◌<◌, Bool, true, false, not, ◌&&◌, ◌||◌, Option, none,
  some, [], ◌∷◌, ◌++◌, length, length-append, ltb, leb, ◌==◌, if◌then◌else◌, bit_and, bit_or, Bytes,
  ◌≡◌, refl, sym, ap, ◌∙◌, arith, Bool-cases, Option-cases, inl, inr,
}

-- The first byte of a character: its bits of the code point, and how many bytes the character has.
unfoldable pub first_byte : ℕ → Option (ℕ × ℕ)
first_byte b =
    if bit_and b 0x80 == 0
    then some (bit_and b 0x7f, 1)
    else if bit_and b 0xe0 == 0xc0
    then some (bit_and b 0x1f, 2)
    else if bit_and b 0xf0 == 0xe0
    then some (bit_and b 0x0f, 3)
    else if bit_and b 0xf8 == 0xf0
    then some (bit_and b 0x07, 4)
    else none

-- The other bytes of a character, so many of them: the code point, and what follows. The NUL at the end
-- is none of them.
unfoldable pub other_bytes : ℕ → ℕ → Bytes → Option (ℕ × Bytes)
other_bytes zero cp bytes = some (cp, bytes)
other_bytes (suc n) cp [] = none
other_bytes (suc n) cp (b ∷ bytes) = elim (bit_and b 0xc0 == 0x80) [
  | true ↦ other_bytes n (bit_or (cp * 2 ^ 6 % 2 ^ 32) (bit_and b 0x3f)) bytes
  | false ↦ none
]

-- The conditions at the end of a round, under which the string is refused.
unfoldable pub out_of_range : ℕ → ℕ → Bool
out_of_range cp num =
    ltb 0x10ffff cp
    || (leb 0xd800 cp && leb cp 0xdfff)
    || (leb cp 0x7f && not (num == 1))
    || ((leb 0x80 cp && leb cp 0x7ff) && not (num == 2))
    || ((leb 0x800 cp && leb cp 0xffff) && not (num == 3))
    || ((leb 0x10000 cp && leb cp 0x1fffff) && not (num == 4))

-- One round of the loop: what follows the character, or nothing where the string is refused.
unfoldable pub character : Bytes → Option Bytes
character [] = none
character (b ∷ bytes) = elim (first_byte b) [
  | none ↦ none
  | some (cp, num) ↦ elim (other_bytes (num - 1) cp bytes) [
    | none ↦ none
    | some (code_point, rest) ↦ if out_of_range code_point num then none else some rest
  ]
]

-- The loop, for so many rounds.
unfoldable pub utf8_loop : ℕ → Bytes → Bool
utf8_loop n [] = true
utf8_loop zero (b ∷ bytes) = false
utf8_loop (suc n) (b ∷ bytes) = elim (character (b ∷ bytes)) [
  | none ↦ false
  | some rest ↦ utf8_loop n rest
]

-- Each round takes a byte at least, so as many rounds as there are bytes are enough.
unfoldable pub is_valid_utf8 : Bytes → Bool
is_valid_utf8 [] = false
is_valid_utf8 (b ∷ bytes) = utf8_loop (suc (length bytes)) (b ∷ bytes)

other_bytes-append :
    (n cp : ℕ) (s t : Bytes) (c : ℕ) (rest : Bytes)
    → other_bytes n cp s ≡ some (c, rest)
    → (other_bytes n cp (s ++ t) ≡ some (c, rest ++ t)) × (length rest ≤ length s)
unfolding other_bytes
other_bytes-append zero cp s t c rest e = ground arith
other_bytes-append (suc n) cp [] t c rest e = ground arith
other_bytes-append (suc n) cp (b ∷ s) t c rest e = elim (Bool-cases (bit_and b 0xc0 == 0x80)) [
  | inl h ↦
      let rec =
        other_bytes-append n (bit_or (cp * 2 ^ 6 % 2 ^ 32) (bit_and b 0x3f)) s t c rest
          (ground arith) in
      ground arith
  | inr h ↦ ground arith
]

character-append :
    (s t rest : Bytes)
    → character s ≡ some rest
    → (character (s ++ t) ≡ some (rest ++ t)) × (length rest < length s)
unfolding character
character-append [] t rest e = ground arith
character-append (b ∷ s) t rest e = elim (Option-cases (first_byte b)) [
  | inl h ↦ ground arith
  | inr ((cp, num), h) ↦ elim (Option-cases (other_bytes (num - 1) cp s)) [
    | inl k ↦ ground arith
    | inr ((c, behind), k) ↦
        let both = other_bytes-append (num - 1) cp s t c behind k in ground arith
  ]
]

utf8_loop-step :
    (n b : ℕ) (s rest : Bytes)
    → character (b ∷ s) ≡ some rest
    → utf8_loop (suc n) (b ∷ s) ≡ utf8_loop n rest
unfolding utf8_loop
utf8_loop-step n b s rest e = ground arith

-- More rounds than bytes make no difference.
utf8_loop-rounds :
    (n m : ℕ) (s : Bytes) → length s ≤ n → length s ≤ m → utf8_loop n s ≡ utf8_loop m s
unfolding utf8_loop
utf8_loop-rounds n m [] h k = refl
utf8_loop-rounds zero m (b ∷ s) h k = absurd (omega arith)
utf8_loop-rounds (suc n) zero (b ∷ s) h k = absurd (omega arith)
utf8_loop-rounds (suc n) (suc m) (b ∷ s) h k = elim (Option-cases (character (b ∷ s))) [
  | inl e ↦ ground arith
  | inr (rest, e) ↦
      let shorter = (character-append (b ∷ s) [] rest e).1 in
      let ih = utf8_loop-rounds n m rest (omega arith) (omega arith) in ground arith
]

utf8_loop-append :
    (n : ℕ) (s t : Bytes)
    → length s ≤ n
    → utf8_loop n s ≡ true
    → utf8_loop (n + length t) (s ++ t) ≡ utf8_loop (length t) t
unfolding utf8_loop
utf8_loop-append n [] t h e =
    utf8_loop-rounds (n + length t) (length t) t (omega arith) (omega arith)
utf8_loop-append zero (b ∷ s) t h e = absurd (omega arith)
utf8_loop-append (suc n) (b ∷ s) t h e = elim (Option-cases (character (b ∷ s))) [
  | inl k ↦ ground arith
  | inr (rest, k) ↦
      let (later, shorter) = character-append (b ∷ s) t rest k in
      let rounds : suc n + length t ≡ suc (n + length t) = omega arith in
      ap (λ m. utf8_loop m (b ∷ (s ++ t))) rounds
      ∙ utf8_loop-step (n + length t) b (s ++ t) (rest ++ t) later
      ∙ utf8_loop-append n rest t (omega arith) (sym (utf8_loop-step n b s rest k) ∙ e)
]

is_valid_utf8-utf8_loop :
    (n : ℕ) (b : ℕ) (s : Bytes) → length (b ∷ s) ≤ n → is_valid_utf8 (b ∷ s) ≡ utf8_loop n (b ∷ s)
unfolding is_valid_utf8
is_valid_utf8-utf8_loop n b s h = utf8_loop-rounds (suc (length s)) n (b ∷ s) (omega arith) h

-- Behind a valid text, a text that is not empty is judged as if it stood alone: the two together are
-- valid exactly if the second is.
pub is_valid_utf8-append :
    (s t : Bytes) → is_valid_utf8 s ≡ true → 0 < length t → is_valid_utf8 (s ++ t) ≡ is_valid_utf8 t
unfolding is_valid_utf8
is_valid_utf8-append [] t e h = ground arith
is_valid_utf8-append (b ∷ s) [] e h = absurd (omega arith)
is_valid_utf8-append (b ∷ s) (d ∷ t) e h =
    let n = suc (length s) in
    let size : length (s ++ (d ∷ t)) ≡ length s + suc (length t) = length-append s (d ∷ t) in
    is_valid_utf8-utf8_loop (n + suc (length t)) b (s ++ (d ∷ t)) (omega arith)
    ∙ utf8_loop-append n (b ∷ s) (d ∷ t) (omega arith) e
