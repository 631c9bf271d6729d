-- ===== src/Base64.antt =====
-- b64_encrypt.h and b64_encrypt.cpp. An `int` is its 32 bits, and `char` is signed; `none` is a read
-- outside of the table or of the text.
use project_test_demo.Common.{
  ℕ, zero, suc, ◌+◌, ◌-◌, ◌*◌, ◌/◌, ◌%◌, ◌^◌, ltb, leb, ◌==◌, if◌then◌else◌, Bool, true, false, not,
  ◌&&◌, ◌||◌, Option, none, some, List, [], ◌∷◌, ◌++◌, length, get_elem?, get_or, Bytes, codes,
  bit_or,
}
use project_test_demo.Common.Maybe.{◌>>=◌}
pub mod Groups
pub mod Blocks
pub mod Tails
pub mod RoundTrip
pub mod Outside
mod Tests

-- The literal, with its NUL.
abbrev pub b64chars : Bytes
b64chars = codes "ABCDEFGHIJKLMNOPQRSTUVWXYZabcdefghijklmnopqrstuvwxyz0123456789+/" ++ (0 ∷ [])

abbrev pub unwritten : ℕ → Bytes
unwritten zero = []
unwritten (suc n) = 0 ∷ unwritten n

-- The entries that are not written are 0.
abbrev pub b64index : Bytes
b64index =
    unwritten 43
    ++ (62
        ∷ 63
        ∷ 62
        ∷ 62
        ∷ 63
        ∷ 52
        ∷ 53
        ∷ 54
        ∷ 55
        ∷ 56
        ∷ 57
        ∷ 58
        ∷ 59
        ∷ 60
        ∷ 61
        ∷ (unwritten 6
            ++ (0 ∷ 0 ∷ 1 ∷ 2 ∷ 3 ∷ 4 ∷ 5 ∷ 6 ∷ 7 ∷ 8 ∷ 9 ∷ 10 ∷ 11 ∷ 12 ∷ 13 ∷ 14 ∷ 15 ∷ 16 ∷ 17
                ∷ 18 ∷ 19 ∷ 20 ∷ 21 ∷ 22 ∷ 23 ∷ 24 ∷ 25 ∷ 0 ∷ 0 ∷ 0 ∷ 0 ∷ 63 ∷ 0 ∷ 26 ∷ 27 ∷ 28 ∷ 29
                ∷ 30 ∷ 31 ∷ 32 ∷ 33 ∷ 34 ∷ 35 ∷ 36 ∷ 37 ∷ 38 ∷ 39 ∷ 40 ∷ 41 ∷ 42 ∷ 43 ∷ 44 ∷ 45 ∷ 46
                ∷ 47 ∷ 48 ∷ 49 ∷ 50 ∷ 51 ∷ [])))

-- `int(c)` for a signed `char`.
abbrev pub as_int : ℕ → ℕ
as_int c = if ltb c 128 then c else 2 ^ 32 - 256 + c

abbrev pub shl : ℕ → ℕ → ℕ
shl k n = n * 2 ^ k % 2 ^ 32

-- `B64chars[n >> k]`: a negative number stays negative.
abbrev pub char_at : ℕ → ℕ → Option ℕ
char_at n k = if ltb n (2 ^ 31) then get_elem? b64chars (n / 2 ^ k) else none

-- `B64chars[n >> k & 0x3F]`, which takes six of the bits, and so for every n.
abbrev pub char_of : ℕ → ℕ → ℕ
char_of n k = get_or b64chars (n / 2 ^ k % 64) 0

-- Behind the groups of three, one or two bytes.
unfoldable pub encode_tail : Bytes → Option Bytes
encode_tail [] = some []
encode_tail (a ∷ []) = do
  let n = as_int a
  first ← char_at n 2
  some (first ∷ get_or b64chars (shl 4 n % 64) 0 ∷ b'=' ∷ [])
encode_tail (a ∷ b ∷ cs) =
    let n = bit_or (shl 8 (as_int a)) (as_int b) in
    some (char_of n 10 ∷ char_of n 4 ∷ get_or b64chars (shl 2 n % 64) 0 ∷ [])

unfoldable pub encode_loop : Bytes → Option Bytes
encode_loop (a ∷ b ∷ c ∷ rest) = do
  let n = bit_or (bit_or (shl 16 (as_int a)) (shl 8 (as_int b))) (as_int c)
  first ← char_at n 18
  others ← encode_loop rest
  some (first ∷ char_of n 12 ∷ char_of n 6 ∷ char_of n 0 ∷ others)
encode_loop rest = encode_tail rest

-- What is not written keeps the character that the string is made of.
abbrev pub padding : ℕ → Bytes
padding zero = []
padding (suc n) = b'=' ∷ padding n

unfoldable pub b64encode : Bytes → Option Bytes
b64encode str = do
  out ← encode_loop str
  some (out ++ padding ((length str + 2) / 3 * 4 - length out))

abbrev pub index_at : ℕ → ℕ
index_at p = get_or b64index p 0

-- The loop over groups of four, and what is left of the text.
unfoldable pub decode_loop : ℕ → Bytes → Option (Bytes × Bytes)
decode_loop zero p = some ([], p)
decode_loop (suc k) (a ∷ b ∷ c ∷ d ∷ p) = do
  let n =
      bit_or (bit_or (bit_or (shl 18 (index_at a)) (shl 12 (index_at b))) (shl 6 (index_at c)))
        (index_at d)
  (out, left) ← decode_loop k p
  some (n / 2 ^ 16 % 256 ∷ n / 2 ^ 8 % 256 ∷ n % 256 ∷ out, left)
decode_loop (suc k) p = none

-- Behind the groups, one byte or two.
unfoldable pub decode_tail : Bool → Bool → Bytes → Option Bytes
decode_tail false pad2 p = some []
decode_tail true pad2 (a ∷ b ∷ p) =
    let n = bit_or (shl 18 (index_at a)) (shl 12 (index_at b)) in
    if pad2
    then (do
      c ← get_elem? p 0
      some (n / 2 ^ 16 % 256 ∷ bit_or n (shl 6 (index_at c)) / 2 ^ 8 % 256 ∷ []))
    else some (n / 2 ^ 16 % 256 ∷ [])
decode_tail true pad2 p = none

-- The memory from the pointer on, and the length. The second last byte of a text of one lies before it.
unfoldable pub b64decode : Bytes → ℕ → Option Bytes
b64decode p zero = some []
b64decode p (suc len) = do
  end ← get_elem? p len
  let pad1 = not (suc len % 4 == 0) || end == b'='
  pad2 ← elim (pad1 && not (ltb 2 (suc len % 4))) [
    | false ↦ some pad1
    | true ↦ elim len [
      | zero ↦ none
      | suc before ↦ get_elem? p before >>= λ c. some (not (c == b'='))
    ]
  ]
  (out, left) ← decode_loop ((suc len - (if pad1 then 1 else 0)) / 4) p
  tail ← decode_tail pad1 pad2 left
  some (out ++ tail)
