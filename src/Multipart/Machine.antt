-- ===== src/Multipart/Machine.antt =====
-- multipart_parser.cpp: `parser_data`, one function for each `case` of its switch. The pointer `p` is
-- the list of the bytes from `p` on; a handler that is entered by `goto reexecute` is called.
use project_test_demo.Common.{
  ℕ, zero, suc, ◌+◌, ◌-◌, Bool, true, false, not, ◌&&◌, ◌||◌, Option, none, some, [], ◌∷◌, ◌++◌,
  ltb, ◌==◌, if◌then◌else◌, get_elem?, length, take, Bytes,
}
use project_test_demo.Multipart.Types.{
  State, s_preamble, s_preamble_hy_hy, s_first_boundary, s_header_field_start, s_header_field,
  s_header_value_start, s_header_value, s_header_value_cr, s_headers_done, s_data, s_data_cr,
  s_data_cr_lf, s_data_cr_lf_hy, s_data_boundary_start, s_data_boundary, s_data_boundary_done,
  s_data_boundary_done_cr_lf, s_data_boundary_done_hy_hy, s_epilogue, Parser, cr, lf, hyphen,
  is_header_field_char, Callback, on_body_begin, on_part_begin, on_header_field, on_header_value,
  on_headers_complete, on_data, on_part_end, on_body_end,
}

-- How one round of the loop ends: by `break`, with the bytes behind `++p`; by `goto error`, with the
-- bytes from `p` on; in undefined behaviour. `exhausted` is the end of the loop's fuel.
pub data Outcome : Type 0 where
  running : Parser → Bytes → Outcome
  failed : Parser → Bytes → Outcome
  undefined : Outcome
  exhausted : Outcome

-- `CALLBACK_NOTIFY` and `CALLBACK_DATA`, with the bytes from `p` on.
abbrev pub call : Callback → Bytes → (Parser → Outcome) → Outcome
call none from k = undefined
call (some (code, p)) from k = if code == 0 then k p else failed p from

-- `if (p > mark) CALLBACK_DATA(...)`
abbrev pub call_data :
    (Parser → Bytes → Callback) → Parser → Bytes → Bytes → (Parser → Outcome) → Outcome
call_data callback p [] from k = k p
call_data callback p (c ∷ cs) from k = call (callback p (c ∷ cs)) from k

-- The inner loops: the bytes before the first that stops the loop, and those from it on.
unfoldable pub scan : (ℕ → Bool) → Bytes → Bytes × Bytes
scan stop [] = ([], [])
scan stop (c ∷ cs) =
    let rest = scan stop cs in if stop c then ([], c ∷ cs) else (c ∷ rest.0, rest.1)

-- `++p`
abbrev pub advance : Bytes → Bytes
advance [] = []
advance (c ∷ cs) = cs

abbrev pub goto_state : Parser → State → Parser
goto_state p s = record p { state = s }

-- The state that an inner loop sets if it stops before the end.
abbrev pub stopped_in : State → Parser → Bytes → Parser
stopped_in s p [] = p
stopped_in s p (c ∷ cs) = goto_state p s

-- `c == boundary_[index_]`: `c` is unsigned and `char` is signed, so no byte from 128 on is equal.
-- `none` is an index beyond the terminator of the string.
unfoldable pub matches_boundary : Parser → ℕ → Option Bool
matches_boundary p c = elim (get_elem? (p.boundary ++ 0 ∷ []) p.index) [
  | none ↦ none
  | some b ↦ some (c == b && ltb b 128)
]

unfoldable pub in_first_boundary : Parser → ℕ → Bytes → Outcome
in_first_boundary p c cs =
    if p.index == p.boundary_len
    then (if c == cr then running (record p { index = p.index + 1 }) cs else failed p (c ∷ cs))
    else if p.index == p.boundary_len + 1
    then (if c == lf
        then call (on_body_begin p) (c ∷ cs) (λ q.
          call (on_part_begin q) (c ∷ cs)
            (λ r. running (record r { index = 0; state = s_header_field_start }) cs))
        else failed p (c ∷ cs))
    else elim (matches_boundary p c) [
      | none ↦ undefined
      | some true ↦ running (record p { index = p.index + 1 }) cs
      | some false ↦ failed p (c ∷ cs)
    ]

-- What `s_header_field` does behind its loop.
abbrev pub field_end : Bytes → Parser → Outcome
field_end [] p = running p []
field_end (c ∷ cs) p =
    if c == b':' then running (goto_state p s_header_value_start) cs else failed p (c ∷ cs)

unfoldable pub in_header_field : Parser → Bytes → Outcome
in_header_field p bytes =
    let r = scan (λ c. not (is_header_field_char c)) bytes in
    call_data on_header_field p r.0 r.1 (field_end r.1)

unfoldable pub in_header_value : Parser → Bytes → Outcome
in_header_value p bytes =
    let r = scan (λ c. c == cr) bytes in
    call_data on_header_value (stopped_in s_header_value_cr p r.1) r.0 r.1
      (λ q. running q (advance r.1))

unfoldable pub in_data : Parser → Bytes → Outcome
in_data p bytes =
    let r = scan (λ c. c == cr) bytes in
    call_data on_data (stopped_in s_data_cr p r.1) r.0 r.1 (λ q. running q (advance r.1))

-- `CALLBACK_DATA(data, held, ...); state_ = s_data; goto reexecute`
abbrev pub release_data : Parser → Bytes → Bytes → Outcome
release_data p held bytes = call (on_data p held) bytes (λ q. in_data (goto_state q s_data) bytes)

unfoldable pub in_boundary_done : Parser → ℕ → Bytes → Outcome
in_boundary_done p c cs =
    if c == cr
    then running (goto_state p s_data_boundary_done_cr_lf) cs
    else if c == hyphen
    then running (goto_state p s_data_boundary_done_hy_hy) cs
    else failed p (c ∷ cs)

unfoldable pub in_data_boundary : Parser → ℕ → Bytes → Outcome
in_data_boundary p c cs =
    if p.index == p.boundary_len
    then in_boundary_done (record p { index = 0; state = s_data_boundary_done }) c cs
    else elim (matches_boundary p c) [
      | none ↦ undefined
      | some true ↦ running (record p { index = p.index + 1 }) cs
      | some false ↦ release_data p (take p.index p.boundary) (c ∷ cs)
    ]

abbrev pub expect : ℕ → Parser → ℕ → Bytes → Outcome → Outcome
expect wanted p c cs o = if c == wanted then o else failed p (c ∷ cs)

-- The switch: one round of the loop, at the byte `c` before `cs`.
unfoldable pub step : State → Parser → ℕ → Bytes → Outcome
step s_preamble p c cs = running (if c == hyphen then goto_state p s_preamble_hy_hy else p) cs
step s_preamble_hy_hy p c cs =
    running (goto_state p (if c == hyphen then s_first_boundary else s_preamble)) cs
step s_first_boundary p c cs = in_first_boundary p c cs
step s_header_field_start p c cs =
    if c == cr
    then running (goto_state p s_headers_done) cs
    else in_header_field (goto_state p s_header_field) (c ∷ cs)
step s_header_field p c cs = in_header_field p (c ∷ cs)
step s_header_value_start p c cs =
    if c == b' ' || c == b'\t'
    then running p cs
    else in_header_value (goto_state p s_header_value) (c ∷ cs)
step s_header_value p c cs = in_header_value p (c ∷ cs)
step s_header_value_cr p c cs = expect lf p c cs (running (goto_state p s_header_field_start) cs)
step s_headers_done p c cs =
    expect lf p c cs (call (on_headers_complete p) (c ∷ cs) (λ q. running (goto_state q s_data) cs))
step s_data p c cs = in_data p (c ∷ cs)
step s_data_cr p c cs =
    if c == lf then running (goto_state p s_data_cr_lf) cs else release_data p (cr ∷ []) (c ∷ cs)
step s_data_cr_lf p c cs =
    if c == hyphen
    then running (goto_state p s_data_cr_lf_hy) cs
    else release_data p (cr ∷ lf ∷ []) (c ∷ cs)
step s_data_cr_lf_hy p c cs =
    if c == hyphen
    then running (goto_state p s_data_boundary_start) cs
    else release_data p (cr ∷ lf ∷ hyphen ∷ []) (c ∷ cs)
step s_data_boundary_start p c cs =
    in_data_boundary (record p { index = 0; state = s_data_boundary }) c cs
step s_data_boundary p c cs = in_data_boundary p c cs
step s_data_boundary_done p c cs = in_boundary_done p c cs
step s_data_boundary_done_cr_lf p c cs = expect lf p c cs (
    call (on_part_end p) (c ∷ cs)
      (λ q. call (on_part_begin q) (c ∷ cs) (λ r. running (goto_state r s_header_field_start) cs)))
step s_data_boundary_done_hy_hy p c cs = expect hyphen p c cs (
    call (on_part_end p) (c ∷ cs)
      (λ q. call (on_body_end q) (c ∷ cs) (λ r. running (goto_state r s_epilogue) cs)))
step s_epilogue p c cs = running p cs

abbrev pub continue : Outcome → (Parser → Bytes → Outcome) → Outcome
continue (running p rest) k = k p rest
continue (failed p rest) k = failed p rest
continue undefined k = undefined
continue exhausted k = exhausted

-- The outer loop, on fuel.
unfoldable pub loop : ℕ → Parser → Bytes → Outcome
loop n p [] = running p []
loop zero p (c ∷ cs) = exhausted
loop (suc n) p (c ∷ cs) = continue (step p.state p c cs) (λ q rest. loop n q rest)

-- What the caller sees: the parser and the returned size.
pub data Returned : Type 0 where
  returned : Parser → ℕ → Returned
  crashed : Returned
  endless : Returned

-- `return size`, and `return p - data` at the label `error`.
abbrev pub return_size : ℕ → Outcome → Returned
return_size size (running p rest) = returned p size
return_size size (failed p rest) = returned p (size - length rest)
return_size size undefined = crashed
return_size size exhausted = endless

-- Each round takes a byte at least, so the size is fuel enough.
unfoldable pub parser_data : Parser → Bytes → Returned
unfolding loop step in_first_boundary in_header_field in_header_value in_data in_boundary_done
    in_data_boundary matches_boundary scan on_body_begin on_part_begin on_header_field
    on_header_value on_headers_complete on_data on_part_end on_body_end is_header_field_char
parser_data p bytes = return_size (length bytes) (loop (length bytes) p bytes)
