-- ===== src/Format.antt =====
-- format.h: `util::format`, which fills arguments into a text by their numbers.
use project_test_demo.Common.{
  ℕ, zero, suc, ◌+◌, ◌-◌, ◌*◌, ◌^◌, ◌%◌, ltb, leb, ◌==◌, if◌then◌else◌, Bool, true, false, ◌&&◌,
  ◌||◌, Option, none, some, List, [], ◌∷◌, ◌++◌, length, get_elem?, drop, Bytes,
}
pub mod Template
pub mod Rounds
mod Tests

-- `std::string::find`: the bytes before the first c and those behind it.
abbrev pub find : ℕ → Bytes → Option (Bytes × Bytes)
find c [] = none
find c (x ∷ xs) =
    let rest = find c xs in
    if x == c
    then some ([], xs)
    else elim rest [ none ↦ none | some found ↦ some (x ∷ found.0, found.1) ]

abbrev pub is_digit : ℕ → Bool
is_digit c = leb 48 c && leb c 57

abbrev pub is_space : ℕ → Bool
is_space c = (c == 32) || (leb 9 c && leb c 13)

-- `strtol`, where a `long` has 32 bits: digits as far as they go, with the value so far.
abbrev pub digits : ℕ → Bytes → ℕ
digits v [] = v
digits v (c ∷ cs) = let rest = digits (v * 10 + (c - 48)) cs in if is_digit c then rest else v

abbrev pub limit : ℕ → ℕ → ℕ
limit bound v = if leb v bound then v else bound

-- A negative number as the `size_t` it is turned into.
abbrev pub negated : ℕ → ℕ
negated v = (2 ^ 64 - v) % 2 ^ 64

abbrev pub signed : Bytes → ℕ
signed [] = 0
signed (c ∷ cs) =
    if c == b'-'
    then negated (limit (2 ^ 31) (digits 0 cs))
    else if c == b'+'
    then limit (2 ^ 31 - 1) (digits 0 cs)
    else limit (2 ^ 31 - 1) (digits 0 (c ∷ cs))

abbrev pub strtol : Bytes → ℕ
strtol [] = 0
strtol (c ∷ cs) = let rest = strtol cs in if is_space c then rest else signed (c ∷ cs)

-- An argument is the text that it writes into the stream.
abbrev pub format_item : Bytes → List Bytes → Bytes
format_item item args = elim (get_elem? args (strtol item)) [ none ↦ [] | some text ↦ text ]

-- Whether the next byte is a second brace. The byte behind a string is 0.
abbrev pub doubled : Bytes → Bool
doubled [] = false
doubled (c ∷ cs) = c == b'{'

-- The loop, from `start` on, with the text in the stream; `none` where the fuel is used up.
unfoldable pub format_loop : ℕ → Bytes → List Bytes → Bytes → Option Bytes
format_loop zero rest args ss = none
format_loop (suc n) rest args ss = elim (find b'{' rest) [
  | none ↦ some (ss ++ rest)
  | some (before, after) ↦ elim (doubled after) [
    | true ↦ format_loop n (drop 1 after) args ((ss ++ before) ++ (b'{' ∷ []))
    | false ↦ elim (find b'}' after) [
      | none ↦ some ((ss ++ before) ++ (b'{' ∷ after))
      | some (item, behind) ↦ format_loop n behind args ((ss ++ before) ++ format_item item args)
    ]
  ]
]

-- No argument at all is the empty text.
abbrev pub format : Bytes → List Bytes → Option Bytes
format format_str [] = some []
format format_str (a ∷ args) = format_loop (suc (length format_str)) format_str (a ∷ args) []
