-- ===== src/Ipdb/Reader.antt =====
-- ipdb.hpp, `reader`: the object, and the search in the tree of nodes. `none` is what C++ leaves
-- undefined: a read outside of the data, or an `int` that overflows.
use project_test_demo.Common.{
  ℕ, zero, suc, ◌+◌, ◌-◌, ◌*◌, ◌/◌, ◌%◌, ◌^◌, Bool, true, false, not, ◌||◌, Option, none, some,
  List, [], ◌∷◌, ◌++◌, length, get_or, drop, ltb, leb, ◌==◌, if◌then◌else◌, Bytes, c_str,
}
use project_test_demo.Common.Int.{ℤ, pos, negsuc, ◌+ℤ◌, ◌-ℤ◌, scale, ltb_ℤ, int32}
use project_test_demo.Common.Maybe.{◌>>=◌}

pub record Reader : Type 0 where
  pub ip_version : ℕ
  pub v4_offset : ℤ
  pub file_size : ℕ
  pub data_size : ℕ
  pub node_count : ℤ
  pub data_ : Bytes
  pub languages : List (Bytes × ℕ)
  pub fields : List Bytes

-- The `int` at this place, when it is stored in network order.
unfoldable pub word : Bytes → Option ℤ
word [] = none
word (a ∷ []) = none
word (a ∷ b ∷ []) = none
word (a ∷ b ∷ c ∷ []) = none
word (a ∷ b ∷ c ∷ d ∷ s) = some (int32 (a * 2 ^ 24 + b * 2 ^ 16 + c * 2 ^ 8 + d))

-- The four bytes may end with the NUL behind the string.
unfoldable pub read_node : Reader → ℤ → ℕ → Option ℤ
read_node r (negsuc n) index = none
read_node r (pos n) index =
    let off = n * 8 + index * 4 in
    if ltb off (2 ^ 31) then word (drop off (r.data_ ++ 0 ∷ [])) else none

-- `((0xFF & int(ip[i >> 3])) >> uint32_t(7 - (i % 8))) & 1`
unfoldable pub bit : Bytes → ℕ → ℕ
bit ip i = get_or ip (i / 8) 0 / 2 ^ (7 - i % 8) % 2

-- From round i on, with so many rounds left.
unfoldable pub search_loop : Reader → Bytes → ℕ → ℕ → ℤ → Option ℤ
search_loop r ip i zero node = some node
search_loop r ip i (suc n) node = elim (ltb_ℤ r.node_count node) [
  | true ↦ some node
  | false ↦ do next ← read_node r node (bit ip i); search_loop r ip (suc i) n next
]

unfoldable pub search : Reader → Bytes → ℕ → Option ℤ
search r ip bit_count =
    search_loop r ip 0 bit_count (if bit_count == 32 then r.v4_offset else pos 0)

-- The loop of the constructor: `i < 96 && node < node_count_`.
unfoldable pub v4_loop : Reader → ℕ → ℕ → ℤ → Option ℤ
v4_loop r i zero node = some node
v4_loop r i (suc n) node = elim (ltb_ℤ node r.node_count) [
  | false ↦ some node
  | true ↦ do next ← read_node r node (if leb 80 i then 1 else 0); v4_loop r (suc i) n next
]

-- An `int` that has not overflowed.
unfoldable pub checked : ℤ → Option ℤ
checked (pos n) = if ltb n (2 ^ 31) then some (pos n) else none
checked (negsuc n) = if ltb n (2 ^ 31) then some (negsuc n) else none

unfoldable pub signed_char : ℕ → ℤ
signed_char c = if ltb c 128 then pos c else negsuc (255 - c)

-- `(a << 8) | b` of two signed characters: the low eight bits of `a << 8` are zero, and if b is below
-- zero, all but its low eight bits are one.
unfoldable pub size_of : ℕ → ℕ → ℤ
size_of a b = if ltb b 128 then scale 256 (signed_char a) +ℤ pos b else signed_char b

-- An offset below zero is converted to a large number, above the size.
unfoldable pub text_until : Reader → ℕ → ℤ → Bytes
text_until r n (negsuc stop) = []
text_until r n (pos stop) = if ltb r.data_size stop then [] else c_str (drop (n + 2) r.data_)

unfoldable pub text_at : Reader → ℤ → Option Bytes
text_at r (negsuc n) = some []
text_at r (pos n) =
    if leb r.file_size n then some [] else if ltb (length r.data_) (n + 2) then none else do
      stop ← checked (pos (n + 2) +ℤ size_of (get_or r.data_ n 0) (get_or r.data_ (n + 2) 0))
      some (text_until r n stop)

abbrev pub empty : Bytes → Bool
empty [] = true
empty (c ∷ s) = false

unfoldable pub resolve : Reader → ℤ → Option Bytes
resolve r node = if not (ltb_ℤ (pos 0) node) || empty r.data_ then some [] else do
  above ← checked (node -ℤ r.node_count)
  tree ← checked (scale 8 r.node_count)
  resolved ← checked (above +ℤ tree)
  text_at r resolved
