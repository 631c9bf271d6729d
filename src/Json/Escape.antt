-- ===== src/Json/Escape.antt =====
-- string_stream.hpp, `write_str`: a text in quotation marks, with its escapes.
use project_test_demo.Common.{
  ℕ, ◌/◌, ◌%◌, true, false, Option, some, [], ◌∷◌, ◌++◌, get_or, codes, ltb, ◌==◌, if◌then◌else◌,
  Bytes,
}
use project_test_demo.Common.Maybe.{◌>>=◌}
use project_test_demo.Json.Stream.{Stream, write, put}

abbrev pub hex_table : Bytes
hex_table = codes "0123456789ABCDEF"

-- The entry of `escape_` for a byte, which is 0 where the byte is written as it is.
unfoldable pub escape_ : ℕ → ℕ
escape_ c =
    if c == 8
    then b'b'
    else if c == 9
    then b't'
    else if c == 10
    then b'n'
    else if c == 12
    then b'f'
    else if c == 13
    then b'r'
    else if ltb c 32
    then b'u'
    else if c == b'"'
    then b'"'
    else if c == b'\\'
    then b'\\'
    else 0

-- Two hexadecimal digits.
unfoldable pub hex_byte : ℕ → Bytes
hex_byte c = get_or hex_table (c / 16) 0 ∷ get_or hex_table (c % 16) 0 ∷ []

module _ (allocate : ℕ → Bytes) where
  -- The loop, with what is left of the text. A control character takes the next one along into its
  -- escape, if there is one.
  unfoldable pub write_chars : Stream → Bytes → Option Stream
  write_chars s [] = some s
  write_chars s (c ∷ []) =
      if c == 0
      then some s
      else if escape_ c == 0
      then put allocate s c
      else if escape_ c == b'u'
      then write allocate s (b'\\' ∷ b'u' ∷ b'0' ∷ b'0' ∷ hex_byte c)
      else write allocate s (b'\\' ∷ escape_ c ∷ [])
  write_chars s (c ∷ d ∷ cs) = elim (c == 0) [
    | true ↦ some s
    | false ↦ elim (escape_ c == b'u') [
      | true ↦ do t ← write allocate s (b'\\' ∷ b'u' ∷ (hex_byte c ++ hex_byte d)); write_chars t cs
      | false ↦ do
        t ← if escape_ c == 0 then put allocate s c else write allocate s (b'\\' ∷ escape_ c ∷ [])
        write_chars t (d ∷ cs)
    ]
  ]

  unfoldable pub write_str : Stream → Bytes → Option Stream
  write_str s text = do t ← put allocate s b'"'; u ← write_chars t text; put allocate u b'"'

-- The text that is written between the quotation marks.
unfoldable pub escaped : Bytes → Bytes
escaped [] = []
escaped (c ∷ []) =
    if c == 0
    then []
    else if escape_ c == 0
    then c ∷ []
    else if escape_ c == b'u'
    then b'\\' ∷ b'u' ∷ b'0' ∷ b'0' ∷ hex_byte c
    else b'\\' ∷ escape_ c ∷ []
escaped (c ∷ d ∷ cs) = elim (c == 0) [
  | true ↦ []
  | false ↦ elim (escape_ c == b'u') [
    | true ↦ b'\\' ∷ b'u' ∷ (hex_byte c ++ hex_byte d) ++ escaped cs
    | false ↦ (if escape_ c == 0 then c ∷ [] else b'\\' ∷ escape_ c ∷ []) ++ escaped (d ∷ cs)
  ]
]

-- The piece for a byte that takes no other along.
unfoldable pub piece : ℕ → Bytes
piece c = if escape_ c == 0 then c ∷ [] else b'\\' ∷ escape_ c ∷ []

-- In quotation marks.
abbrev pub quoted_text : Bytes → Bytes
quoted_text text = b'"' ∷ (escaped text ++ b'"' ∷ [])
