-- ===== src/Json/Lexer.antt =====
-- serialize.hpp, `reader_t`: the parsers of strings and numbers, and `next`. Loops run for a given
-- number of rounds.
use project_test_demo.Common.{
  ℕ, zero, suc, ◌+◌, ◌-◌, ◌*◌, ◌/◌, ◌%◌, ◌^◌, true, false, Option, none, some, [], ◌∷◌, ◌||◌,
  length, get_or, ltb, ◌==◌, if◌then◌else◌, Bytes, bit_or,
}
use project_test_demo.Json.Token.{
  ReaderT, Run, ok, undefined, out_of_fuel, ◌>>=◌, error, read, take, fill_escape_char,
}

abbrev pub table : Bytes
table =
    16 ∷ 16 ∷ 16 ∷ 16 ∷ 16 ∷ 16 ∷ 16 ∷ 16 ∷ 16 ∷ 17 ∷ 17 ∷ 16 ∷ 17 ∷ 17 ∷ 16 ∷ 16 ∷ 16 ∷ 16 ∷ 16
    ∷ 16 ∷ 16 ∷ 16 ∷ 16 ∷ 16 ∷ 16 ∷ 16 ∷ 16 ∷ 16 ∷ 16 ∷ 16 ∷ 16 ∷ 16 ∷ 17 ∷ 16 ∷ 16 ∷ 16 ∷ 16 ∷ 16
    ∷ 16 ∷ 16 ∷ 16 ∷ 16 ∷ 16 ∷ 16 ∷ 16 ∷ 16 ∷ 16 ∷ 16 ∷ 0 ∷ 1 ∷ 2 ∷ 3 ∷ 4 ∷ 5 ∷ 6 ∷ 7 ∷ 8 ∷ 9 ∷ 16
    ∷ 16 ∷ 16 ∷ 16 ∷ 16 ∷ 16 ∷ 16 ∷ 10 ∷ 11 ∷ 12 ∷ 13 ∷ 14 ∷ 15 ∷ 16 ∷ 16 ∷ 16 ∷ 16 ∷ 16 ∷ 16 ∷ 16
    ∷ 16 ∷ 16 ∷ 16 ∷ 16 ∷ 16 ∷ 16 ∷ 16 ∷ 16 ∷ 16 ∷ 16 ∷ 16 ∷ 16 ∷ 16 ∷ 16 ∷ 16 ∷ 16 ∷ 16 ∷ 16 ∷ 16
    ∷ 10 ∷ 11 ∷ 12 ∷ 13 ∷ 14 ∷ 15 ∷ []

-- The value of a digit, and the reader. A `char` from 128 on is below zero, and no index of the table.
unfoldable pub char_to_hex : ReaderT → ℕ → Run (ℕ × ReaderT)
char_to_hex r v =
    if ltb 127 v
    then undefined
    else let w = if ltb v b'f' then get_or table v 16 else 16 in
      ok (w, if ltb 15 w then error r else r)

-- One digit: `utf <<= 4`, except before the first, `utf += char_to_hex(read())`, and `take()`.
unfoldable pub read_digit : ℕ × ReaderT → Run (ℕ × ReaderT)
read_digit (utf, r) = do c ← read r; (v, s) ← char_to_hex r c; t ← take s; ok (utf * 16 + v, t)

unfoldable pub read_utf : ReaderT → Run (ℕ × ReaderT)
read_utf r = do a ← read_digit (0, r); b ← read_digit a; c ← read_digit b; read_digit c

-- The bytes that are filled in for a code point.
unfoldable pub utf_bytes : ℕ → Bytes
utf_bytes utf1 =
    if ltb utf1 0x80
    then utf1 ∷ []
    else if ltb utf1 0x800
    then bit_or 0xc0 (utf1 / 2 ^ 6 % 256) ∷ bit_or 0x80 (utf1 % 64) ∷ []
    else if ltb utf1 0x80000
    then bit_or 0xe0 (utf1 / 2 ^ 12 % 256)
      ∷ bit_or 0x80 (utf1 / 2 ^ 6 % 64)
      ∷ bit_or 0x80 (utf1 % 64)
      ∷ []
    else bit_or 0xf0 (utf1 / 2 ^ 18 % 256)
      ∷ bit_or 0x80 (utf1 / 2 ^ 12 % 64)
      ∷ bit_or 0x80 (utf1 / 2 ^ 6 % 64)
      ∷ bit_or 0x80 (utf1 % 64)
      ∷ []

-- `fill_escape_char(esc_count, _); fill_escape_char(esc_count - 1, _); ...`
unfoldable pub fill_all : ReaderT → ℕ → Bytes → Run ReaderT
fill_all r esc_count [] = ok r
fill_all r esc_count (c ∷ cs) = do s ← fill_escape_char r esc_count c; fill_all s (esc_count - 1) cs

-- The reader, and the new `esc_count`.
unfoldable pub escape_utf8 : ReaderT → ℕ → Run (ReaderT × ℕ)
escape_utf8 r esc_count = do
  (utf1, s) ← read_utf r
  let checked = if ltb utf1 0x80000 then s else if ltb utf1 0x110000 then error s else s
  t ← fill_all checked (esc_count + 6) (utf_bytes utf1)
  ok (t, esc_count + 6 - length (utf_bytes utf1))

-- The end of a token, with so many bytes taken out of it.
unfoldable pub ended : ReaderT → ℕ → ReaderT
ended r esc_count = record r {
  cur_tok = record (r.cur_tok) {
    len = (2 ^ 64 + r.cur_offset - esc_count - r.cur_tok.str) % 2 ^ 64;
  };
}

unfoldable pub started : ReaderT → ReaderT
started r = record r { cur_tok = record (r.cur_tok) { str = r.cur_offset } }

-- The character for the letter of an escape in quotation marks.
unfoldable pub quote_escape : ℕ → Option ℕ
quote_escape c =
    if c == b'/'
    then some b'/'
    else if c == b'b'
    then some 8
    else if c == b'f'
    then some 12
    else if c == b'n'
    then some 10
    else if c == b'r'
    then some 13
    else if c == b't'
    then some 9
    else if c == b'"'
    then some b'"'
    else none

-- Behind a backslash, with how the loop goes on.
unfoldable pub quote_escaped : (ReaderT → ℕ → ℕ → Run ReaderT) → ReaderT → ℕ → ℕ → Run ReaderT
quote_escaped go s d esc_count = elim (d == b'u') [
  | true ↦ do t ← take s; (u, count) ← escape_utf8 t esc_count; e ← read u; go u e count
  | false ↦ elim (quote_escape d) [
    | none ↦ ok (error s)
    | some e ↦ do
      t ← fill_escape_char s (suc esc_count) e
      u ← take t
      f ← read u
      go u f (suc esc_count)
  ]
]

unfoldable pub quote_loop : ℕ → ReaderT → ℕ → ℕ → Run ReaderT
unfolding quote_escaped
quote_loop zero r c esc_count = out_of_fuel
quote_loop (suc n) r c esc_count = elim (c == 0 || c == b'\n') [
  | true ↦ ok (error r)
  | false ↦ elim (c == b'\\') [
    | true ↦ do s ← take r; d ← read s; quote_escaped (quote_loop n) s d esc_count
    | false ↦ elim (c == b'"') [
      | true ↦ take (ended r esc_count)
      | false ↦ do
        t ← fill_escape_char r esc_count c
        u ← take t
        f ← read u
        quote_loop n u f esc_count
    ]
  ]
]

unfoldable pub parser_quote_string : ℕ → ReaderT → Run ReaderT
parser_quote_string n r = do s ← take r; c ← read (started s); quote_loop n (started s) c 0
