-- ===== src/Multipart/Tests.antt =====
-- Runs of the parser, and its theorems at concrete inputs.
use project_test_demo.Common.{
  ℕ, true, false, List, [], ◌∷◌, length, Bytes, codes, ◌≡◌, refl, map, equal, c_str, arith,
}
use project_test_demo.Common.Dict.{assign, find}
use project_test_demo.Multipart.Types.{
  s_data, s_header_field_start, Part, Parser, create, is_header_field_char, update_back,
}
use project_test_demo.Multipart.Machine.{Returned, returned, return_size, parser_data}
use project_test_demo.Multipart.Loop.{shifted, parser_data-append, parser_data-feed}
use project_test_demo.Multipart.Bytewise.{feed}
use project_test_demo.Multipart.Invariant.{create-IsValid}
use project_test_demo.Multipart.Valid.{EndsValid, parser_data-IsValid}
use project_test_demo.Multipart.Message.{Content, message, part_of, parser_data-message, AllContent}
use project_test_demo.Multipart.Fields.{get_multipart_data, first_body, find-get_multipart_data}
use project_test_demo.Multipart.Faults.{delimiter_is_lost}
use project_test_demo.Multipart.Body.{opened}

abbrev crlf : Bytes
crlf = codes "\r\n"

abbrev disposition : Bytes
disposition = codes "form-data; name=\"user\""

abbrev user : Content
user = record { fields = (codes "Content-Disposition", disposition) ∷ []; text = codes "a\r\n-b" }

abbrev sent : Bytes
sent = message (codes "XY") user [] []

abbrev source : Bytes
source = codes "--XY\r\nContent-Disposition: form-data; name=\"user\"\r\n\r\na\r\n-b\r\n--XY--"

sent_is_source : sent ≡ source
sent_is_source = refl

abbrev parsed : Returned → List Part
parsed (returned p n) = p.parts
parsed _ = []

abbrev stored : Returned → List (Bytes × Bytes)
unfolding get_multipart_data
stored (returned p n) = get_multipart_data p
stored _ = []

parses_source :
    stored (parser_data (create (codes "XY")) source) ≡ (codes "user", codes "a\r\n-b") ∷ []
unfolding parser_data create get_multipart_data assign find equal c_str update_back
parses_source = refl

-- A space in a header's name is refused at its place.
abbrev position : Returned → ℕ
position (returned p n) = n
position _ = 0

refuses_space : position (parser_data (create (codes "X")) (codes "--X\r\nA B: c")) ≡ 6
unfolding parser_data create equal c_str
refuses_space = refl

abbrev after_first : Parser
after_first = record {
  body_beg_called = true;
  body_end_called = false;
  boundary_len = 2;
  index = 0;
  state = s_header_field_start;
  boundary = codes "XY";
  header_value = [];
  header_name = [];
  parts = (record { headers = []; body = [] }) ∷ [];
}

first_piece : parser_data (create (codes "XY")) (codes "--XY\r\n") ≡ returned after_first 6
unfolding parser_data create c_str
first_piece = refl

parser_data-append_example :
    parser_data (create (codes "XY")) (codes "--XY\r\nA: b\r\n")
    ≡ shifted 6 (parser_data after_first (codes "A: b\r\n"))
parser_data-append_example =
    parser_data-append (create (codes "XY")) after_first (codes "--XY\r\n") (codes "A: b\r\n")
      first_piece

parser_data-IsValid_example :
    EndsValid (parser_data (create (codes "XY")) (codes "--XY\r\n\r\n--")) 10
parser_data-IsValid_example =
    parser_data-IsValid (create (codes "XY")) (codes "--XY\r\n\r\n--") (create-IsValid (codes "XY"))

user-AllContent : AllContent (user ∷ [])
unfolding is_header_field_char
user-AllContent = ground arith

parser_data-message_example :
    (p : Parser) × (parser_data (create (codes "XY")) source ≡ returned p (length source))
    × (p.parts ≡ map part_of (user ∷ []))
    × (p.body_beg_called ≡ true)
    × (p.body_end_called ≡ true)
parser_data-message_example =
    parser_data-message (codes "XY") user [] [] (omega arith) (λ e. cc) user-AllContent

delimiter_is_lost_example :
    parser_data
      (opened after_first [] (record { headers = []; body = codes "a" }) s_data)
      (codes "\r\n--Xb")
    ≡ shifted 5 (
        parser_data
          (opened
            (record after_first { index = 1 })
            []
            (record { headers = []; body = codes "aX" })
            s_data)
          (codes "b"))
delimiter_is_lost_example =
    delimiter_is_lost after_first [] (record { headers = []; body = codes "a" }) (codes "X") [] b'Y'
      b'b' [] refl refl (omega arith, omega arith, tt) refl

parser_data-feed_example :
    parser_data (create (codes "XY")) source
    ≡ return_size (length source) (feed (create (codes "XY")) source)
parser_data-feed_example = parser_data-feed (create (codes "XY")) source

find-get_multipart_data_example :
    find (codes "user") (get_multipart_data after_first)
    ≡ first_body (codes "user") after_first.parts
find-get_multipart_data_example = find-get_multipart_data (codes "user") after_first
