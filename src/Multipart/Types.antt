-- ===== src/Multipart/Types.antt =====
-- multipart_parser.h: the states, a part, the parser object, its callbacks and the table of header
-- characters. A byte is a number below 256. `data_`, which no function reads or writes, has no field.
use project_test_demo.Common.{
  ℕ, Bool, true, false, not, Option, none, some, List, [], ◌∷◌, ◌++◌, ltb, ◌==◌, if◌then◌else◌,
  get_or, length, Bytes, codes, c_str,
}
use project_test_demo.Common.Dict.{Dict, assign}

pub data State : Type 0 where
  s_preamble s_preamble_hy_hy s_first_boundary s_header_field_start s_header_field : State
  s_header_value_start s_header_value s_header_value_cr s_headers_done s_data s_data_cr : State
  s_data_cr_lf s_data_cr_lf_hy s_data_boundary_start s_data_boundary s_data_boundary_done : State
  s_data_boundary_done_cr_lf s_data_boundary_done_hy_hy s_epilogue : State

pub record Part : Type 0 where
  pub headers : Dict
  pub body : Bytes

pub record Parser : Type 0 where
  pub body_beg_called : Bool
  pub body_end_called : Bool
  pub boundary_len : ℕ
  pub index : ℕ
  pub state : State
  pub boundary : Bytes
  pub header_value : Bytes
  pub header_name : Bytes
  pub parts : List Part

-- The constructor.
unfoldable pub create : Bytes → Parser
create boundary_str = record {
  body_beg_called = false;
  body_end_called = false;
  boundary_len = length (c_str boundary_str);
  index = 0;
  state = s_preamble;
  boundary = boundary_str;
  header_value = [];
  header_name = [];
  parts = [];
}

abbrev pub cr : ℕ
cr = b'\r'

abbrev pub lf : ℕ
lf = b'\n'

abbrev pub hyphen : ℕ
hyphen = b'-'

-- The first half of `g_header_field_chars`; the other 128 entries are 0.
abbrev header_field_chars : Bytes
header_field_chars =
    0
    ∷ 0
    ∷ 0
    ∷ 0
    ∷ 0
    ∷ 0
    ∷ 0
    ∷ 0
    ∷ 0
    ∷ 0
    ∷ 0
    ∷ 0
    ∷ 0
    ∷ 0
    ∷ 0
    ∷ 0
    ∷ 0
    ∷ 0
    ∷ 0
    ∷ 0
    ∷ 0
    ∷ 0
    ∷ 0
    ∷ 0
    ∷ 0
    ∷ 0
    ∷ 0
    ∷ 0
    ∷ 0
    ∷ 0
    ∷ 0
    ∷ 0
    ∷ 0
    ∷ b'!'
    ∷ 0
    ∷ b'#'
    ∷ b'$'
    ∷ b'%'
    ∷ b'&'
    ∷ b'\''
    ∷ 0
    ∷ 0
    ∷ b'*'
    ∷ b'+'
    ∷ 0
    ∷ b'-'
    ∷ b'.'
    ∷ 0
    ∷ (codes "0123456789"
        ++ (0
            ∷ 0
            ∷ 0
            ∷ 0
            ∷ 0
            ∷ 0
            ∷ 0
            ∷ (codes "ABCDEFGHIJKLMNOPQRSTUVWXYZ"
                ++ (0
                    ∷ 0
                    ∷ 0
                    ∷ b'^'
                    ∷ b'_'
                    ∷ b'`'
                    ∷ (codes "abcdefghijklmnopqrstuvwxyz" ++ (0 ∷ b'|' ∷ 0 ∷ b'~' ∷ 0 ∷ []))))))

-- `g_header_field_chars[c] != 0`
unfoldable pub is_header_field_char : ℕ → Bool
is_header_field_char c = not (get_or header_field_chars c 0 == 0)

-- `f` at `parts_.back()`; `none` is the undefined behaviour of `back` on an empty list.
unfoldable pub update_back : (Part → Part) → List Part → Option (List Part)
update_back f [] = none
update_back f (x ∷ []) = some (f x ∷ [])
update_back f (x ∷ y ∷ xs) = elim (update_back f (y ∷ xs)) [ none ↦ none | some ys ↦ some (x ∷ ys) ]

abbrev with_parts : Parser → Option (List Part) → Option Parser
with_parts p none = none
with_parts p (some ps) = some (record p { parts = ps })

-- A callback gives its return code, which is 0 in each of them, and the parser that it leaves.
abbrev pub Callback : Type 0
Callback = Option (ℕ × Parser)

abbrev return_0 : Option Parser → Callback
return_0 none = none
return_0 (some p) = some (0, p)

unfoldable pub on_body_begin : Parser → Callback
on_body_begin p = some (0, record p { body_beg_called = true })

unfoldable pub on_part_begin : Parser → Callback
on_part_begin p =
    some (0, record p { parts = p.parts ++ (record { headers = []; body = [] } ∷ []) })

unfoldable pub on_header_done : Parser → Option Parser
on_header_done p =
    with_parts (record p { header_name = []; header_value = [] })
      (update_back
        (λ part. record part { headers = assign p.header_name p.header_value part.headers })
        p.parts)

abbrev append_name : Bytes → Option Parser → Option Parser
append_name bytes none = none
append_name bytes (some p) = some (record p { header_name = p.header_name ++ bytes })

unfoldable pub on_header_field : Parser → Bytes → Callback
unfolding on_header_done
on_header_field p bytes =
    return_0
      (append_name bytes (if ltb 0 (length p.header_value) then on_header_done p else some p))

unfoldable pub on_header_value : Parser → Bytes → Callback
on_header_value p bytes = some (0, record p { header_value = p.header_value ++ bytes })

unfoldable pub on_headers_complete : Parser → Callback
unfolding on_header_done
on_headers_complete p =
    return_0 (if ltb 0 (length p.header_value) then on_header_done p else some p)

unfoldable pub on_data : Parser → Bytes → Callback
on_data p bytes =
    return_0
      (with_parts p (update_back (λ part. record part { body = part.body ++ bytes }) p.parts))

unfoldable pub on_part_end : Parser → Callback
on_part_end p = some (0, p)

unfoldable pub on_body_end : Parser → Callback
on_body_end p = some (0, record p { body_end_called = true })
