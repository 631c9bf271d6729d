-- ===== src/Json/Tests.antt =====
-- Runs of the writer and of the reader on small texts.
use project_test_demo.Common.{
  ◌+◌, ◌^◌, ◌-◌, Bool, true, false, some, [], ◌∷◌, ◌++◌, length, take, drop, Bytes, codes, ◌≡◌,
  refl, ◌≤◌, arith,
}
use project_test_demo.Json.Stream
use project_test_demo.Json.Stream.{Stream, zeros, rounded}
use project_test_demo.Json.Growth.{IsValid, create-IsValid, length-zeros}
use project_test_demo.Json.Written.{write_str-str}
use project_test_demo.Json.Cursor.{Stands}
use project_test_demo.Json.Quote.{onward}
use project_test_demo.Json.RoundTrip.{ReadString, next-quoted_text}
use project_test_demo.Json.Kept.{Goes, Kept}
use project_test_demo.Json.Finish.{next-Kept}
use project_test_demo.Json.Number.{ReadNumber, next-digits}
use project_test_demo.Json.Skip.{token_byte, skip_array, skip_value, skip_array-unclosed}
use project_test_demo.Json.Faults.{backslash_is_refused}
use project_test_demo.Json.Escape.{escaped, escape_, hex_byte, write_str, quoted_text}
use project_test_demo.Json.Token
use project_test_demo.Json.Token.{Token, ReaderT, Run, ok, undefined, out_of_fuel, ◌>>=◌}
use project_test_demo.Json.Lexer
use project_test_demo.Json.Next

escaped_text : escaped (codes "a\"b\n") ≡ codes "a\\\"b\\n"
unfolding escaped escape_
escaped_text = refl

-- A control character takes the next byte along.
escaped_control : escaped (1 ∷ codes "AB") ≡ codes "\\u0141B"
unfolding escaped escape_ hex_byte
escaped_control = refl

abbrev no_token : Token
no_token = record { str = 0; len = 0; type_ = Token.t_end; value = Token.u64 0; neg = false }

-- The text of the token, whether there was an error, and the token's value.
abbrev seen : Run ReaderT → Run (Bytes × Bool × Token.Value)
seen r = r >>= λ s. ok (take s.cur_tok.len (drop s.cur_tok.str s.mem), s.has_error, s.cur_tok.value)

abbrev reading : Bytes → Run ReaderT
reading text = Next.create (text ++ (0 ∷ [])) (2 ^ 64 - 1) no_token false

read_text : seen (reading (codes "\"ab\\n\" : 1")) ≡ ok (97 ∷ 98 ∷ 10 ∷ [], false, Token.u64 0)
unfolding Next.create Next.next Next.next_calls Next.other_case Next.quote_case Next.is_ctrl
    Next.without_sign Lexer.parser_quote_string Lexer.started Lexer.ended Lexer.quote_loop
    Lexer.quote_escape Token.skip Token.read Token.take Token.moved Token.fill_escape_char
read_text = refl

-- The number 12.5 with its steps.
read_number :
    seen (reading (codes "  12.5,"))
    ≡ ok (
      codes "12.5",
      false,
      Token.d64 (Token.plus (Token.of_u64 12) (Token.times_digit Token.tenth 5)),
    )
unfolding Next.create Next.next Next.next_calls Next.other_case Next.is_ctrl Next.without_sign
    Next.parser_number Next.number_loop Next.digit Next.point Next.set_value Lexer.started
    Lexer.ended Token.skip Token.read Token.take Token.moved
read_number = refl

-- Behind a comment in asterisks the next character is taken for a quotation mark.
read_comment : seen (reading (codes "/*x*/ \"ab\"")) ≡ ok ([], true, Token.u64 0)
unfolding Next.create Next.next Next.next_calls Next.other_case Next.slash_case Next.block_comment
    Next.block_loop Next.quote_case Next.is_ctrl Next.without_sign Next.parser_string
    Next.string_loop Next.ends_string Lexer.parser_quote_string Lexer.started Lexer.ended
    Lexer.quote_loop Token.skip Token.read Token.take Token.moved Token.fill_escape_char Token.error
read_comment = refl

abbrev sample : Bytes
sample = codes "a\"b\n"

abbrev standing : Bytes → ReaderT
standing mem = record {
  mem = mem;
  cur_tok = no_token;
  cur_col = 0;
  cur_line = 0;
  len = 2 ^ 64 - 1;
  cur_offset = 0;
  end_mark = false;
  decimal = Token.tenth;
  has_error = false;
}

standing-Stands : (mem : Bytes) → length mem ≤ 2 ^ 64 - 1 → Stands (standing mem) [] [] mem
standing-Stands mem h = record { memory = refl; place = omega arith; open_ = refl; whole = h }

write_str-str_example :
    (t : Stream) × (write_str zeros Stream.create sample ≡ some t)
    × IsValid t
    × (Stream.str t ≡ Stream.str Stream.create ++ quoted_text sample)
    × (t.write_ptr ≡ Stream.create.write_ptr + length (quoted_text sample))
unfolding Stream.create escaped escape_
write_str-str_example =
    write_str-str zeros length-zeros Stream.create sample create-IsValid (omega arith)

next-quoted_text_example :
    ReadString
      (standing (quoted_text sample ++ (0 ∷ [])))
      sample
      (length (quoted_text sample))
      0
      []
      (Next.next (standing (quoted_text sample ++ (0 ∷ []))))
unfolding escape_ escaped
next-quoted_text_example =
    next-quoted_text (standing (quoted_text sample ++ (0 ∷ []))) [] sample 0 []
      (refl, (refl, (refl, (refl, tt))))
      (standing-Stands (quoted_text sample ++ (0 ∷ [])) (omega arith)) (omega arith)

backslash_is_refused_example :
    (s : ReaderT) × (onward 1 0 (standing (escaped (b'\\' ∷ b'x' ∷ []) ++ (0 ∷ []))) ≡ ok s)
    × (s.has_error ≡ true)
unfolding escaped escape_
backslash_is_refused_example =
    backslash_is_refused b'x' [] (standing (escaped (b'\\' ∷ b'x' ∷ []) ++ (0 ∷ []))) [] [] (0 ∷ [])
      0 0 (standing-Stands (escaped (b'\\' ∷ b'x' ∷ []) ++ (0 ∷ [])) (omega arith))

next-Kept_example :
    Goes (Kept (standing (codes "/*a*/ 1,"))) (Next.next (standing (codes "/*a*/ 1,")))
next-Kept_example = next-Kept (standing (codes "/*a*/ 1,"))

next-digits_example :
    ReadNumber
      (standing (codes "120,\"a\""))
      (record { str = 0; len = 3; type_ = Token.t_uint; value = Token.u64 120; neg = false })
      3
      (Next.next (standing (codes "120,\"a\"")))
next-digits_example =
    next-digits (standing (codes "120,\"a\"")) [] b'1' (codes "20") b',' (codes "\"a\"")
      (refl, (refl, (refl, tt))) (refl, refl, refl)
      (standing-Stands (codes "120,\"a\"") (omega arith)) (omega arith) (omega arith)

-- Behind the one value of `[1`, at the NUL.
abbrev unclosed : ReaderT
unclosed = record (standing (0 ∷ [])) { end_mark = true; cur_tok = no_token }

skip_array-unclosed_example : skip_array (skip_value 100) 1000 unclosed ≡ out_of_fuel
unfolding token_byte
skip_array-unclosed_example = skip_array-unclosed 100 1000 unclosed refl refl
