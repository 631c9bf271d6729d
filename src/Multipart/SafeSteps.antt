-- ===== src/Multipart/SafeSteps.antt =====
-- Each byte keeps the invariant of the parser object, in each state.
use project_test_demo.Common.{
  ℕ, ◌+◌, ◌≤◌, ◌<◌, Bool, true, false, [], ◌∷◌, ◌==◌, length, length-append, take, Bytes, ◌≡◌, refl,
  arith, Bool-cases, inl, inr,
}
use project_test_demo.Multipart.Types.{
  State, s_preamble, s_header_field, s_header_value, s_header_value_cr, s_data, s_data_cr, Parser,
  cr, lf, hyphen, is_header_field_char, on_header_field, on_header_value, on_data, on_body_begin,
  on_part_begin, on_part_end, on_body_end, on_headers_complete, s_preamble_hy_hy, s_first_boundary,
  s_header_field_start, s_header_value_start, s_headers_done, s_data_cr_lf, s_data_cr_lf_hy,
  s_data_boundary_start, s_data_boundary, s_data_boundary_done, s_data_boundary_done_cr_lf,
}
use project_test_demo.Multipart.Machine.{goto_state}
use project_test_demo.Multipart.Bytewise.{
  accept, reject, receive, data_byte, header_field_byte, header_value_byte, byte_step,
}
use project_test_demo.Multipart.Invariant.{
  IndexFits, PartOpen, IsValid, matches_boundary-some, Safe, SameShape, on_data-Fine,
  on_header_value-Fine, on_header_done-Fine, on_headers_complete-Fine, receive-Safe, PartOpen-intro,
  LenFits, enter-IsValid, SameShape-LenFits, stay-IsValid,
}

data_byte-Safe :
    (p : Parser) (c : ℕ) → LenFits p → 0 < length p.parts → p.state ≡ s_data → Safe (data_byte p c)
data_byte-Safe p c l h e = elim (Bool-cases (c == cr)) [
  | inl t ↦ rw t (enter-IsValid p s_data_cr l h tt)
  | inr t ↦ rw t (
      receive-Safe (SameShape p) (on_data p (c ∷ [])) accept (on_data-Fine p (c ∷ []) h)
        (λ q f. stay-IsValid p q s_data f l e (λ i n. tt)))
]

header_value_byte-Safe :
    (p : Parser) (c : ℕ)
    → LenFits p
    → 0 < length p.parts
    → p.state ≡ s_header_value
    → Safe (header_value_byte p c)
header_value_byte-Safe p c l h e = elim (Bool-cases (c == cr)) [
  | inl t ↦ rw t (enter-IsValid p s_header_value_cr l h tt)
  | inr t ↦ rw t (
      receive-Safe (SameShape p) (on_header_value p (c ∷ [])) accept
        (on_header_value-Fine p (c ∷ []) h)
        (λ q f. stay-IsValid p q s_header_value f l e (λ i n. tt)))
]

header_field_byte-Safe :
    (p : Parser) (c : ℕ)
    → LenFits p
    → 0 < length p.parts
    → p.state ≡ s_header_field
    → Safe (header_field_byte p c)
header_field_byte-Safe p c l h e = elim (Bool-cases (is_header_field_char c)) [
  | inl t ↦ rw t (
      receive-Safe (SameShape p) (on_header_field p (c ∷ [])) accept
        (on_header_done-Fine p (c ∷ []) h)
        (λ q f. stay-IsValid p q s_header_field f l e (λ i n. tt)))
  | inr t ↦ elim (Bool-cases (c == b':')) [
    | inl u ↦ rw (t, u) (enter-IsValid p s_header_value_start l h tt)
    | inr u ↦
        rw (t, u)
          (record { len = l; index_fits = rw e tt; part_open = PartOpen-intro p.state p.parts h })
  ]
]

-- Held bytes are data, and the byte that ends them is looked at once more.
held-Safe :
    (p : Parser) (held : Bytes) (c : ℕ)
    → LenFits p
    → 0 < length p.parts
    → Safe (receive (on_data p held) (λ q. data_byte (goto_state q s_data) c))
held-Safe p held c l h =
    receive-Safe (SameShape p) (on_data p held) (λ q. data_byte (goto_state q s_data) c)
      (on_data-Fine p held h)
      (λ q f. data_byte-Safe (goto_state q s_data) c (SameShape-LenFits p q f l) f.open_part refl)

done_byte-Safe :
    (p : Parser) (c : ℕ)
    → LenFits p
    → 0 < length p.parts
    → p.state ≡ s_data_boundary_done
    → Safe (byte_step s_data_boundary_done p c)
unfolding byte_step
done_byte-Safe p c l h e = ground arith

-- Behind the test of a boundary's byte: it matched, or all that matched was data.
matched_byte-Safe :
    (p : Parser) (b : Bool) (c : ℕ)
    → LenFits p
    → 0 < length p.parts
    → IsValid (record p { index = p.index + 1 })
    → Safe (elim b [
      | true ↦ accept (record p { index = p.index + 1 })
      | false ↦
          receive (on_data p (take p.index p.boundary)) (λ q. data_byte (goto_state q s_data) c)
    ])
matched_byte-Safe p true c l h v = v
matched_byte-Safe p false c l h v = held-Safe p (take p.index p.boundary) c l h

first-IsValid :
    (p : Parser) (n : ℕ)
    → LenFits p
    → p.state ≡ s_first_boundary
    → n ≤ p.boundary_len + 1
    → IsValid (record p { index = n })
first-IsValid p n l e h = record { len = l; index_fits = rw e h; part_open = rw e tt }

first_matched-Safe :
    (p : Parser) (b : Bool)
    → LenFits p
    → p.state ≡ s_first_boundary
    → p.index ≤ p.boundary_len
    → Safe (elim b [ true ↦ accept (record p { index = p.index + 1 }) | false ↦ reject p ])
first_matched-Safe p true l e h = first-IsValid p (p.index + 1) l e (omega arith)
first_matched-Safe p false l e h = first-IsValid p p.index l e (omega arith)

first_boundary_byte-Safe :
    (p : Parser) (c : ℕ)
    → LenFits p
    → p.state ≡ s_first_boundary
    → p.index ≤ p.boundary_len + 1
    → Safe (byte_step s_first_boundary p c)
unfolding byte_step on_body_begin on_part_begin
first_boundary_byte-Safe p c l e i = elim (Bool-cases (p.index == p.boundary_len)) [
  | inl t ↦ rw t (ground (arith, first-IsValid p (p.index + 1) l e, first-IsValid p p.index l e i))
  | inr t ↦ elim (Bool-cases (p.index == p.boundary_len + 1)) [
    | inl u ↦
        rw (t, u)
          (ground (
            arith,
            first-IsValid p p.index l e i,
            length-append p.parts (record { headers = []; body = [] } ∷ []),
          ))
    | inr u ↦
        let h : p.index ≤ p.boundary_len = ground arith in
        let (b, m) = matches_boundary-some p c l h in rw (t, u, m) (first_matched-Safe p b l e h)
  ]
]

boundary_byte-Safe :
    (p : Parser) (c : ℕ)
    → LenFits p
    → 0 < length p.parts
    → p.state ≡ s_data_boundary
    → p.index ≤ p.boundary_len
    → Safe (byte_step s_data_boundary p c)
unfolding byte_step
boundary_byte-Safe p c l h e i = elim (Bool-cases (p.index == p.boundary_len)) [
  | inl t ↦ rw t (done_byte-Safe (record p { index = 0; state = s_data_boundary_done }) c l h refl)
  | inr t ↦
      let (b, m) = matches_boundary-some p c l i in
      rw (t, m)
        (matched_byte-Safe p b c l h (record {
          len = l;
          index_fits = rw e (ground arith);
          part_open = PartOpen-intro p.state p.parts h;
        }))
]

-- What every byte does, in the state that the parser is in.
pub byte_step-Safe :
    (s : State) (p : Parser) (c : ℕ)
    → p.state ≡ s
    → LenFits p
    → IndexFits s p.index p.boundary_len
    → PartOpen s p.parts
    → Safe (byte_step s p c)
unfolding byte_step on_body_begin on_part_begin on_part_end on_body_end
byte_step-Safe s_preamble p c e l i h = ground arith
byte_step-Safe s_preamble_hy_hy p c e l i h = ground arith
byte_step-Safe s_first_boundary p c e l i h = first_boundary_byte-Safe p c l e i
byte_step-Safe s_header_field_start p c e l i h =
    ground (arith, header_field_byte-Safe (goto_state p s_header_field) c l h refl)
byte_step-Safe s_header_field p c e l i h = header_field_byte-Safe p c l h e
byte_step-Safe s_header_value_start p c e l i h =
    ground (arith, header_value_byte-Safe (goto_state p s_header_value) c l h refl)
byte_step-Safe s_header_value p c e l i h = header_value_byte-Safe p c l h e
byte_step-Safe s_headers_done p c e l i h = elim (Bool-cases (c == lf)) [
  | inl t ↦ rw t (
      receive-Safe (SameShape p) (on_headers_complete p) (λ q. accept (goto_state q s_data))
        (on_headers_complete-Fine p h)
        (λ q f. enter-IsValid q s_data (SameShape-LenFits p q f l) f.open_part tt))
  | inr t ↦
      rw t (record { len = l; index_fits = rw e tt; part_open = PartOpen-intro p.state p.parts h })
]
byte_step-Safe s_data p c e l i h = data_byte-Safe p c l h e
byte_step-Safe s_data_cr p c e l i h = ground (arith, held-Safe p (cr ∷ []) c l h)
byte_step-Safe s_data_cr_lf p c e l i h = ground (arith, held-Safe p (cr ∷ lf ∷ []) c l h)
byte_step-Safe s_data_cr_lf_hy p c e l i h =
    ground (arith, held-Safe p (cr ∷ lf ∷ hyphen ∷ []) c l h)
byte_step-Safe s_data_boundary_start p c e l i h =
    boundary_byte-Safe (record p { index = 0; state = s_data_boundary }) c l h refl (omega arith)
byte_step-Safe s_data_boundary p c e l i h = boundary_byte-Safe p c l h e i
byte_step-Safe s_data_boundary_done_cr_lf p c e l i h =
    ground (arith, length-append p.parts (record { headers = []; body = [] } ∷ []))
byte_step-Safe _ p c e l i h = ground arith
