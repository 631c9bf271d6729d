-- ===== src/Json/Next.antt =====
-- serialize.hpp, `reader_t`: strings without quotation marks, numbers, comments, and `next`.
use project_test_demo.Common.{
  ℕ, zero, suc, ◌+◌, ◌-◌, ◌*◌, ◌%◌, ◌^◌, Bool, true, false, Option, none, some, ◌&&◌, ◌||◌, length,
  ltb, leb, ◌==◌, if◌then◌else◌, Bytes,
}
use project_test_demo.Json.Token.{
  of_i64, of_u64, tenth, times_digit, plus, times, TokenType, t_string, t_int, t_uint, t_number,
  t_ctrl, t_end, Value, i64, u64, d64, Token, ReaderT, Run, ok, undefined, out_of_fuel, ◌>>=◌,
  error, byte_at, read, take, skip, fill_escape_char,
}
use project_test_demo.Json.Lexer.{escape_utf8, ended, started, parser_quote_string}

-- The character for the letter of an escape outside of quotation marks.
unfoldable pub plain_escape : ℕ → Option ℕ
plain_escape c =
    if c == b'b'
    then some 8
    else if c == b'f'
    then some 12
    else if c == b'n'
    then some 10
    else if c == b'r'
    then some 13
    else if c == b't'
    then some 9
    else none

unfoldable pub ends_string : ℕ → Bool
ends_string c =
    c == b' '
    || c == b'\t'
    || c == b'\r'
    || c == b'\n'
    || c == b','
    || c == b'['
    || c == b']'
    || c == b':'
    || c == b'{'
    || c == b'}'

-- Behind the escape of a code point the loop goes on with the `u` in `c`, since it is not read again.
-- An unknown escape is an error, and the loop goes on.
unfoldable pub string_loop : ℕ → ReaderT → ℕ → ℕ → Run ReaderT
string_loop zero r c esc_count = out_of_fuel
string_loop (suc n) r c esc_count = elim (c == 0) [
  | true ↦ ok (error r)
  | false ↦ elim (c == b'\\') [
    | true ↦ do
      s ← take r
      d ← read s
      elim (d == b'u') [
        | true ↦ do t ← take s; (u, count) ← escape_utf8 t esc_count; string_loop n u d count
        | false ↦ do
          t ← elim (plain_escape d) [
            | none ↦ fill_escape_char (error s) (suc esc_count) d
            | some e ↦ fill_escape_char s (suc esc_count) e
          ]
          u ← take t
          f ← read u
          string_loop n u f (suc esc_count)
      ]
    | false ↦ elim (ends_string c) [
      | true ↦ ok (ended r esc_count)
      | false ↦ do
        t ← fill_escape_char r esc_count c
        u ← take t
        f ← read u
        string_loop n u f esc_count
    ]
  ]
]

unfoldable pub parser_string : ℕ → ReaderT → Run ReaderT
parser_string n r = do s ← take (started r); c ← read s; string_loop n s c 0

unfoldable pub set_value : ReaderT → TokenType → Value → ReaderT
set_value r t v = record r { cur_tok = record (r.cur_tok) { type_ = t; value = v } }

-- A digit: a signed number overflows where that is undefined, an unsigned one wraps.
unfoldable pub digit : ReaderT → TokenType → Value → ℕ → Run ReaderT
digit r t_int (i64 k) d =
    if ltb (k * 10 + d) (2 ^ 63) then ok (set_value r t_int (i64 (k * 10 + d))) else undefined
digit r t_uint (u64 k) d = ok (set_value r t_uint (u64 ((k * 10 + d) % 2 ^ 64)))
digit r t_number (d64 x) d =
    ok (record (set_value r t_number (d64 (plus x (times_digit r.decimal d)))) {
      decimal = times r.decimal tenth;
    })
digit r t v d = ok r

unfoldable pub point : ReaderT → TokenType → Value → ReaderT
point r t_int (i64 k) = record (set_value r t_number (d64 (of_i64 k))) { decimal = tenth }
point r t_uint (u64 k) = record (set_value r t_number (d64 (of_u64 k))) { decimal = tenth }
point r t_number v = error r
point r t v = r

unfoldable pub number_loop : ℕ → ReaderT → ℕ → Run ReaderT
number_loop zero r c = out_of_fuel
number_loop (suc n) r c = elim (leb b'0' c && leb c b'9') [
  | true ↦ do
    s ← digit r r.cur_tok.type_ r.cur_tok.value (c - b'0')
    t ← take s
    d ← read t
    number_loop n t d
  | false ↦ elim (c == b'.') [
    | true ↦ do t ← take (point r r.cur_tok.type_ r.cur_tok.value); d ← read t; number_loop n t d
    | false ↦ ok (ended r 0)
  ]
]

unfoldable pub parser_number : ℕ → ReaderT → Run ReaderT
parser_number n r = do s ← take (started r); c ← read s; number_loop n s c

-- A comment up to the end of its line.
unfoldable pub line_loop : ℕ → ReaderT → ℕ → Run ReaderT
line_loop zero r c = out_of_fuel
line_loop (suc n) r c = elim (c == b'\n' || c == 0) [
  | true ↦ ok r
  | false ↦ do s ← take r; d ← read s; line_loop n s d
]

-- A comment up to its asterisk and slash; false where the text ends before.
unfoldable pub block_loop : ℕ → ReaderT → ℕ → Run (Bool × ReaderT)
block_loop zero r c = out_of_fuel
block_loop (suc n) r c = elim (c == b'*') [
  | false ↦ elim (c == 0) [
    | true ↦ ok (false, r)
    | false ↦ do s ← take r; d ← read s; block_loop n s d
  ]
  | true ↦ do
    s ← take r
    d ← read s
    elim (d == b'/') [ true ↦ do t ← take s; ok (true, t) | false ↦ block_loop n s d ]
]

-- A string in quotation marks; the case before it runs on into this one.
unfoldable pub quote_case : ℕ → ReaderT → Run ReaderT
quote_case n r =
    parser_quote_string n (record r { cur_tok = record (r.cur_tok) { type_ = t_string } })

-- The comment up to the end of the line, which is passed over.
unfoldable pub line_comment : ℕ → ReaderT → Run (Bool × ReaderT)
line_comment n r = do s ← take r; c ← read s; t ← line_loop n s c; ok (true, t)

-- The comment in asterisks. Behind it the code runs on into the error, and into the case of a string.
unfoldable pub block_comment : ℕ → ReaderT → Run (Bool × ReaderT)
block_comment n r = do
  s ← take r
  c ← read s
  (closed, t) ← block_loop n s c
  elim closed [ false ↦ ok (false, t) | true ↦ do u ← quote_case n (error t); ok (true, u) ]

-- What the switch does for a slash; true if the token is still to be read.
unfoldable pub slash_case : ℕ → ReaderT → Run (Bool × ReaderT)
slash_case n r = do
  s ← take r
  c ← read s
  elim (c == b'/') [
    | true ↦ line_comment n s
    | false ↦ elim (c == b'*') [
      | true ↦ block_comment n s
      | false ↦ do t ← quote_case n (error s); ok (false, t)
    ]
  ]

unfoldable pub is_ctrl : ℕ → Bool
is_ctrl c = c == b'{' || c == b'}' || c == b'[' || c == b']' || c == b':' || c == b','

-- A token of one character.
unfoldable pub mark : ReaderT → TokenType → ReaderT
mark r t = record r { cur_tok = record (r.cur_tok) { type_ = t; str = r.cur_offset; len = 1 } }

-- The other cases of the switch, for a character that is no slash.
unfoldable pub other_case : ℕ → ReaderT → ℕ → Run ReaderT
other_case n r c =
    if c == 0
    then ok (mark r t_end)
    else if is_ctrl c
    then take (mark r t_ctrl)
    else if c == b'"'
    then quote_case n r
    else if leb b'0' c && leb c b'9'
    then parser_number n (set_value r t_uint (u64 (c - b'0')))
    else if c == b'-'
    then parser_number n
        (record r { cur_tok = record (r.cur_tok) { type_ = t_int; value = i64 0; neg = true } })
    else parser_string n (record r { cur_tok = record (r.cur_tok) { type_ = t_string } })

unfoldable pub without_sign : ReaderT → ReaderT
without_sign r = record r { cur_tok = record (r.cur_tok) { neg = false } }

-- `next`, for so many calls of itself, with loops of at most n rounds.
unfoldable pub next_calls : ℕ → ℕ → ReaderT → Run ReaderT
next_calls zero n r = out_of_fuel
next_calls (suc calls) n r = do
  first ← read r
  (c, s) ← skip n r first
  elim (c == b'/') [
    | false ↦ other_case n (without_sign s) c
    | true ↦ do
      (again, t) ← slash_case n (without_sign s)
      elim again [ false ↦ ok t | true ↦ next_calls calls n t ]
  ]

-- As many rounds and calls as there are bytes, and two more.
unfoldable pub next : ReaderT → Run ReaderT
next r = next_calls (length r.mem + 2) (length r.mem + 2) r

-- The constructor: a pointer to this memory with this length, where the token is what is there, and an
-- error that was reported before is kept, since `g_has_error` is shared.
unfoldable pub create : Bytes → ℕ → Token → Bool → Run ReaderT
create mem len tok reported = do
  first ← if len == 0 then ok 0 else byte_at mem 0
  next (record {
    mem = mem;
    cur_tok = tok;
    cur_col = 0;
    cur_line = 0;
    len = len;
    cur_offset = 0;
    end_mark = first == 0;
    decimal = tenth;
    has_error = reported;
  })

unfoldable pub expect : ReaderT → ℕ → Run Bool
expect r c = do d ← byte_at r.mem r.cur_tok.str; ok (d == c)
