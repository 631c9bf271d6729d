-- ===== src/Multipart/Faults.antt =====
-- Where the parser departs from the format that it reads.
use project_test_demo.Common.{
  ℕ, ◌+◌, ◌<◌, false, ◌&&◌, List, [], ◌∷◌, ◌++◌, ◌==◌, ltb, none, some, get_elem?, length,
  length-append, take, take-length, Bytes, ◌≡◌, refl, ap, ◌∙◌, arith,
}
use project_test_demo.Multipart.Types.{
  s_data, s_header_field_start, s_data_boundary_start, s_data_boundary, Part, Parser, cr, lf,
}
use project_test_demo.Multipart.Machine.{parser_data, matches_boundary}
use project_test_demo.Multipart.Bytewise.{byte_step, feed}
use project_test_demo.Multipart.Loop.{shifted, parser_data_of_feed}
use project_test_demo.Multipart.Callbacks.{on_data-some}
use project_test_demo.Multipart.Body.{grow, delimiter, opened, feed-delimiter}
use project_test_demo.Multipart.Boundary.{
  AllAscii, get_elem?-middle, at_index, feed_data_prefix, feed_boundary_start,
}
use project_test_demo.Multipart.Headers.{heading, header_line, IsName, IsValue, feed_merged_line}

abbrev pub line_length : Bytes → Bytes → ℕ
line_length name value = length (header_line name value [])

length-header_line :
    (name value rest : Bytes)
    → length (header_line name value rest) ≡ line_length name value + length rest
length-header_line name value rest = omega (
  arith,
  length-append name (b':' ∷ b' ' ∷ (value ++ cr ∷ lf ∷ rest)),
  length-append name (b':' ∷ b' ' ∷ (value ++ cr ∷ lf ∷ [])),
  length-append value (cr ∷ lf ∷ rest),
  length-append value (cr ∷ lf ∷ []),
)

-- A header whose value is empty is not stored. At the start of the next line its name is still held;
-- the name of that line is put behind it, and the two are one name with the next value.
pub empty_value_merges :
    (p : Parser) (ys : List Part) (y : Part) (name next value rest : Bytes)
    → IsName next
    → IsValue value
    → parser_data (heading p ys y name [] s_header_field_start) (header_line next value rest)
      ≡ shifted
          (line_length next value)
          (parser_data (heading p ys y (name ++ next) value s_header_field_start) rest)
empty_value_merges p ys y name next value rest a b =
    parser_data_of_feed (heading p ys y name [] s_header_field_start)
      (heading p ys y (name ++ next) value s_header_field_start) (header_line next value rest) rest
      (line_length next value) (length-header_line next value rest)
      (feed_merged_line p ys y name next value rest a b)

missed :
    (p : Parser) (pre post : Bytes) (b c : ℕ)
    → p.boundary ≡ pre ++ b ∷ post
    → p.index ≡ length pre
    → matches_boundary p c ≡ some (c == b && ltb b 128)
unfolding matches_boundary
missed p pre post b c e i =
    let found : get_elem? (p.boundary ++ 0 ∷ []) p.index ≡ some b =
      ap (get_elem? (p.boundary ++ 0 ∷ [])) i
      ∙ ap (λ l. get_elem? (l ++ 0 ∷ []) (length pre)) e
      ∙ get_elem?-middle pre b post in
    ap (λ o. elim o [ none ↦ none | some d ↦ some (c == d && ltb d 128) ]) found

feed-boundary_missed :
    (p : Parser) (ys : List Part) (y : Part) (pre post : Bytes) (b c : ℕ) (rest : Bytes)
    → p.boundary ≡ pre ++ b ∷ post
    → length pre < p.boundary_len
    → (c == b && ltb b 128) ≡ false
    → feed (at_index (opened p ys y s_data_boundary) (length pre) s_data_boundary) (c ∷ rest)
      ≡ feed (opened (record p { index = length pre }) ys (grow y pre) s_data) (c ∷ rest)
unfolding feed byte_step
feed-boundary_missed p ys y pre post b c rest e inside h =
    let q = at_index (opened p ys y s_data_boundary) (length pre) s_data_boundary in
    let no_match : matches_boundary q c ≡ some false = missed q pre post b c e refl ∙ ap some h in
    let held : take (length pre) p.boundary ≡ pre =
      ap (take (length pre)) e ∙ take-length (length pre) pre (b ∷ post) refl in
    ground (arith, inside, no_match, held, on_data-some q pre ys y refl)

feed-delimiter_lost :
    (p : Parser) (ys : List Part) (y : Part) (pre post : Bytes) (b c : ℕ) (rest : Bytes)
    → p.boundary ≡ pre ++ b ∷ post
    → p.boundary_len ≡ length p.boundary
    → AllAscii pre
    → (c == b && ltb b 128) ≡ false
    → feed (opened p ys y s_data_boundary_start) (pre ++ c ∷ rest)
      ≡ feed (opened (record p { index = length pre }) ys (grow y pre) s_data) (c ∷ rest)
feed-delimiter_lost p ys y pre post b c rest e len a h =
    let q = opened p ys y s_data_boundary in
    let inside : length pre < p.boundary_len =
      omega (arith, len, ap length e, length-append pre (b ∷ post)) in
    starts pre c
    ∙ feed_data_prefix q len pre (b ∷ post) (c ∷ rest) e a
    ∙ feed-boundary_missed p ys y pre post b c rest e inside h
  where
    starts :
        (l : Bytes) (d : ℕ)
        → feed (opened p ys y s_data_boundary_start) (l ++ d ∷ rest)
          ≡ feed (at_index (opened p ys y s_data_boundary) 0 s_data_boundary) (l ++ d ∷ rest)
    starts [] d = feed_boundary_start (opened p ys y s_data_boundary) p.index d rest
    starts (x ∷ l) d = feed_boundary_start (opened p ys y s_data_boundary) p.index x (l ++ d ∷ rest)

-- Where data holds `\r\n--`, the first bytes of the boundary, of which there may be none, and then a byte
-- with which the boundary does not go on, the four bytes `\r\n--` are lost and those of the boundary are
-- kept: the parser goes on at that byte as if the four had not been there.
pub delimiter_is_lost :
    (p : Parser) (ys : List Part) (y : Part) (pre post : Bytes) (b c : ℕ) (rest : Bytes)
    → p.boundary ≡ pre ++ b ∷ post
    → p.boundary_len ≡ length p.boundary
    → AllAscii pre
    → (c == b && ltb b 128) ≡ false
    → parser_data (opened p ys y s_data) (delimiter (pre ++ c ∷ rest))
      ≡ shifted
          (4 + length pre)
          (parser_data (opened (record p { index = length pre }) ys (grow y pre) s_data) (c ∷ rest))
delimiter_is_lost p ys y pre post b c rest e len a h =
    parser_data_of_feed (opened p ys y s_data)
      (opened (record p { index = length pre }) ys (grow y pre) s_data)
      (delimiter (pre ++ c ∷ rest)) (c ∷ rest) (4 + length pre)
      (omega (arith, length-append pre (c ∷ rest)))
      (feed-delimiter p ys y (pre ++ c ∷ rest)
        ∙ feed-delimiter_lost p ys y pre post b c rest e len a h)
