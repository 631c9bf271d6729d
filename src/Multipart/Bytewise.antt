-- ===== src/Multipart/Bytewise.antt =====
-- A description of the parser as an automaton that takes one byte at a time, with no inner loop and
-- no position: the reference for `parser_data`.
use project_test_demo.Common.{
  ℕ, ◌+◌, true, false, ◌||◌, none, some, [], ◌∷◌, ◌==◌, if◌then◌else◌, take, Bytes,
}
use project_test_demo.Multipart.Types.{
  State, s_preamble, s_preamble_hy_hy, s_first_boundary, s_header_field_start, s_header_field,
  s_header_value_start, s_header_value, s_header_value_cr, s_headers_done, s_data, s_data_cr,
  s_data_cr_lf, s_data_cr_lf_hy, s_data_boundary_start, s_data_boundary, s_data_boundary_done,
  s_data_boundary_done_cr_lf, s_data_boundary_done_hy_hy, s_epilogue, Parser, cr, lf, hyphen,
  is_header_field_char, Callback, on_body_begin, on_part_begin, on_header_field, on_header_value,
  on_headers_complete, on_data, on_part_end, on_body_end,
}
use project_test_demo.Multipart.Machine.{
  Outcome, running, failed, undefined, goto_state, matches_boundary,
}

-- A byte is taken, or refused, or undefined behaviour.
pub data Verdict : Type 0 where
  accept : Parser → Verdict
  reject : Parser → Verdict
  stuck : Verdict

abbrev pub receive : Callback → (Parser → Verdict) → Verdict
receive none k = stuck
receive (some (code, p)) k = if code == 0 then k p else reject p

abbrev accept_in : State → Parser → Verdict
accept_in s p = accept (goto_state p s)

abbrev wants : ℕ → Parser → ℕ → Verdict → Verdict
wants b p c v = if c == b then v else reject p

abbrev pub data_byte : Parser → ℕ → Verdict
data_byte p c = if c == cr then accept_in s_data_cr p else receive (on_data p (c ∷ [])) accept

abbrev pub header_field_byte : Parser → ℕ → Verdict
header_field_byte p c =
    if is_header_field_char c
    then receive (on_header_field p (c ∷ [])) accept
    else wants b':' p c (accept_in s_header_value_start p)

abbrev pub header_value_byte : Parser → ℕ → Verdict
header_value_byte p c =
    if c == cr then accept_in s_header_value_cr p else receive (on_header_value p (c ∷ [])) accept

-- Held bytes turn out to be data, and the byte is read once more.
abbrev held_byte : ℕ → State → Bytes → Parser → ℕ → Verdict
held_byte b next held p c =
    if c == b
    then accept_in next p
    else receive (on_data p held) (λ q. data_byte (goto_state q s_data) c)

abbrev done_byte : Parser → ℕ → Verdict
done_byte p c =
    if c == cr
    then accept_in s_data_boundary_done_cr_lf p
    else wants hyphen p c (accept_in s_data_boundary_done_hy_hy p)

boundary_byte : Parser → ℕ → Verdict
boundary_byte p c =
    if p.index == p.boundary_len
    then done_byte (record p { index = 0; state = s_data_boundary_done }) c
    else elim (matches_boundary p c) [
      | none ↦ stuck
      | some true ↦ accept (record p { index = p.index + 1 })
      | some false ↦
          receive (on_data p (take p.index p.boundary)) (λ q. data_byte (goto_state q s_data) c)
    ]

first_boundary_byte : Parser → ℕ → Verdict
first_boundary_byte p c =
    if p.index == p.boundary_len
    then wants cr p c (accept (record p { index = p.index + 1 }))
    else if p.index == p.boundary_len + 1
    then wants lf p c (
        receive (on_body_begin p) (λ q.
          receive (on_part_begin q)
            (λ r. accept (record r { index = 0; state = s_header_field_start }))))
    else elim (matches_boundary p c) [
      | none ↦ stuck
      | some true ↦ accept (record p { index = p.index + 1 })
      | some false ↦ reject p
    ]

unfoldable pub byte_step : State → Parser → ℕ → Verdict
unfolding boundary_byte first_boundary_byte
byte_step s_preamble p c = accept (if c == hyphen then goto_state p s_preamble_hy_hy else p)
byte_step s_preamble_hy_hy p c = accept_in (if c == hyphen then s_first_boundary else s_preamble) p
byte_step s_first_boundary p c = first_boundary_byte p c
byte_step s_header_field_start p c =
    if c == cr
    then accept_in s_headers_done p
    else header_field_byte (goto_state p s_header_field) c
byte_step s_header_field p c = header_field_byte p c
byte_step s_header_value_start p c =
    if c == b' ' || c == b'\t' then accept p else header_value_byte (goto_state p s_header_value) c
byte_step s_header_value p c = header_value_byte p c
byte_step s_header_value_cr p c = wants lf p c (accept_in s_header_field_start p)
byte_step s_headers_done p c = wants lf p c (receive (on_headers_complete p) (accept_in s_data))
byte_step s_data p c = data_byte p c
byte_step s_data_cr p c = held_byte lf s_data_cr_lf (cr ∷ []) p c
byte_step s_data_cr_lf p c = held_byte hyphen s_data_cr_lf_hy (cr ∷ lf ∷ []) p c
byte_step s_data_cr_lf_hy p c = held_byte hyphen s_data_boundary_start (cr ∷ lf ∷ hyphen ∷ []) p c
byte_step s_data_boundary_start p c =
    boundary_byte (record p { index = 0; state = s_data_boundary }) c
byte_step s_data_boundary p c = boundary_byte p c
byte_step s_data_boundary_done p c = done_byte p c
byte_step s_data_boundary_done_cr_lf p c =
    wants lf p c
      (receive (on_part_end p) (λ q. receive (on_part_begin q) (accept_in s_header_field_start)))
byte_step s_data_boundary_done_hy_hy p c =
    wants hyphen p c (receive (on_part_end p) (λ q. receive (on_body_end q) (accept_in s_epilogue)))
byte_step s_epilogue p c = accept p

abbrev pub judge : Verdict → Bytes → (Parser → Outcome) → Outcome
judge (accept p) from k = k p
judge (reject p) from k = failed p from
judge stuck from k = undefined

-- All bytes of a piece, one after the other.
unfoldable pub feed : Parser → Bytes → Outcome
unfolding byte_step
feed p [] = running p []
feed p (c ∷ cs) = judge (byte_step p.state p c) (c ∷ cs) (λ q. feed q cs)
