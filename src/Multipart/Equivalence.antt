-- ===== src/Multipart/Equivalence.antt =====
-- One round of `parser_data` acts as the automaton on the bytes that it takes.
use project_test_demo.Common.{
  ℕ, Bool, true, false, not, none, some, [], ◌∷◌, ◌==◌, take, Bytes, ◌≡◌, refl, sym, ap, ◌∙◌, arith,
  Bool-cases, inl, inr,
}
use project_test_demo.Multipart.Types.{
  State, s_preamble, s_header_field, s_header_value, s_header_value_cr, s_data, s_data_cr, Parser,
  cr, is_header_field_char, Callback, on_header_field, on_header_value, on_data, on_body_begin,
  on_part_begin, on_part_end, on_body_end, on_headers_complete, s_first_boundary,
  s_header_field_start, s_header_value_start, s_data_cr_lf, s_data_cr_lf_hy, s_data_boundary_start,
  s_data_boundary, s_data_boundary_done,
}
use project_test_demo.Multipart.Machine.{
  Outcome, running, undefined, call_data, scan, advance, goto_state, stopped_in, in_header_field,
  in_header_value, in_data, in_boundary_done, in_data_boundary, in_first_boundary, field_end, step,
  continue, release_data,
}
use project_test_demo.Multipart.Bytewise.{accept, receive, data_byte, byte_step, judge, feed}
use project_test_demo.Multipart.Callbacks.{
  Chunks, on_data-Chunks, on_header_value-Chunks, on_header_field-Chunks, Callback-cases,
}

module _ (callback : Parser → Bytes → Callback) (chunks : Chunks callback) where
  call_data-none :
      (p : Parser) (c : ℕ) (m from : Bytes) (k : Parser → Outcome)
      → callback p (c ∷ []) ≡ none
      → call_data callback p (c ∷ m) from k ≡ undefined
  call_data-none p c m from k u = rw (chunks.chunk p c m, u)

  call_data-some :
      (p : Parser) (c : ℕ) (m from : Bytes) (k : Parser → Outcome) (q : Parser)
      → callback p (c ∷ []) ≡ some (0, q)
      → call_data callback p (c ∷ m) from k ≡ call_data callback q m from k
  call_data-some p c [] from k q u = rw u
  call_data-some p c (b ∷ bs) from k q u = rw (chunks.chunk p c (b ∷ bs), u)

-- A run of the automaton over a stretch that one state takes byte by byte is one call.
module _ (s : State) (stop : ℕ → Bool) (callback : Parser → Bytes → Callback)
    (chunks : Chunks callback)
    (takes : (p : Parser) (c : ℕ)
      → p.state ≡ s
      → stop c ≡ false
      → byte_step p.state p c ≡ receive (callback p (c ∷ [])) accept) where
  feed-scan :
      (bytes : Bytes) (p : Parser)
      → p.state ≡ s
      → feed p bytes
        ≡ call_data callback p
            (scan stop bytes).0
            (scan stop bytes).1
            (λ q. feed q (scan stop bytes).1)
  unfolding scan feed
  feed-scan [] p e = refl
  feed-scan (c ∷ cs) p e = elim (Bool-cases (stop c)) [
    | inl halt ↦ rw halt
    | inr more ↦ rw more (
        rw (takes p c e more) (elim (Callback-cases (callback p (c ∷ []))) [
          | inl u ↦ rw (call_data-none callback chunks p c _ _ _ u) (rw u)
          | inr (code, q, u) ↦
              let z = chunks.code_zero p (c ∷ []) u in
              let u' : callback p (c ∷ []) ≡ some (0, q) = u ∙ rw z in
              rw (call_data-some callback chunks p c _ _ _ q u')
                (rw u' (feed-scan cs q (chunks.keeps_state p (c ∷ []) u ∙ e)))
        ]))
  ]

abbrev Stopped : (ℕ → Bool) → Bytes → Type 0
Stopped stop [] = Unit
Stopped stop (c ∷ cs) = stop c ≡ true

scan-Stopped : (stop : ℕ → Bool) (bytes : Bytes) → Stopped stop (scan stop bytes).1
unfolding scan
scan-Stopped stop [] = tt
scan-Stopped stop (c ∷ cs) = elim (Bool-cases (stop c)) [
  | inl halt ↦ rw halt halt
  | inr more ↦ rw more (scan-Stopped stop cs)
]

-- The bytes that a handler leaves are fed on.
abbrev pub feed_on : Outcome → Outcome
feed_on o = continue o (λ q rest. feed q rest)

module _ (s : State) (callback : Parser → Bytes → Callback) (chunks : Chunks callback) where
  feed_on-call_data :
      (p : Parser) (m from : Bytes) (k h : Parser → Outcome)
      → p.state ≡ s
      → ((q : Parser) → q.state ≡ s → feed_on (k q) ≡ h q)
      → feed_on (call_data callback p m from k) ≡ call_data callback p m from h
  feed_on-call_data p [] from k h e same = same p e
  feed_on-call_data p (c ∷ cs) from k h e same = elim (Callback-cases (callback p (c ∷ cs))) [
    | inl u ↦ rw u
    | inr (code, q, u) ↦
        let z = chunks.code_zero p (c ∷ cs) u in
        let u' : callback p (c ∷ cs) ≡ some (0, q) = u ∙ rw z in
        rw u' (same q (chunks.keeps_state p (c ∷ cs) u ∙ e))
  ]

  call_data-stopped_in :
      (next : State) (p : Parser) (m from : Bytes) (k : Parser → Outcome)
      → call_data callback (stopped_in next p from) m from k
        ≡ call_data callback p m from (λ q. k (stopped_in next q from))
  call_data-stopped_in next p m [] k = call_data_same m
    where
      call_data_same :
          (m : Bytes)
          → call_data callback p m [] k ≡ call_data callback p m [] (λ q. k (stopped_in next q []))
      call_data_same [] = refl
      call_data_same (c ∷ cs) = refl
  call_data-stopped_in next p [] (d ∷ ds) k = refl
  call_data-stopped_in next p (c ∷ cs) (d ∷ ds) k =
      rw (chunks.any_state p next (c ∷ cs)) (elim (Callback-cases (callback p (c ∷ cs))) [
        | inl u ↦ rw u
        | inr (code, q, u) ↦
            let z = chunks.code_zero p (c ∷ cs) u in
            let u' : callback p (c ∷ cs) ≡ some (0, q) = u ∙ rw z in rw u'
      ])

feed-stopped_in :
    (s next : State)
    → ((p : Parser) (c : ℕ)
        → p.state ≡ s
        → (c == cr) ≡ true
        → byte_step p.state p c ≡ accept (goto_state p next))
    → (p : Parser) (rest : Bytes) → p.state ≡ s
    → Stopped (λ c. c == cr) rest
    → feed_on (running (stopped_in next p rest) (advance rest)) ≡ feed p rest
unfolding feed
feed-stopped_in s next leaves p [] e h = refl
feed-stopped_in s next leaves p (c ∷ cs) e h = rw (leaves p c e h)

-- The handlers of header values and of data.
abbrev until_cr : State → (Parser → Bytes → Callback) → Parser → Bytes → Outcome
until_cr next callback p bytes =
    let r = scan (λ c. c == cr) bytes in
    call_data callback (stopped_in next p r.1) r.0 r.1 (λ q. running q (advance r.1))

until_cr-feed :
    (s next : State) (callback : Parser → Bytes → Callback)
    → Chunks callback
    → ((p : Parser) (c : ℕ)
        → p.state ≡ s
        → (c == cr) ≡ false
        → byte_step p.state p c ≡ receive (callback p (c ∷ [])) accept)
    → ((p : Parser) (c : ℕ)
        → p.state ≡ s
        → (c == cr) ≡ true
        → byte_step p.state p c ≡ accept (goto_state p next))
    → (p : Parser) (bytes : Bytes) → p.state ≡ s
    → feed_on (until_cr next callback p bytes) ≡ feed p bytes
until_cr-feed s next callback chunks takes leaves p bytes e =
    let r = scan (λ c. c == cr) bytes in
    let k = λ (q : Parser). running q (advance r.1) in
    ap feed_on (call_data-stopped_in s callback chunks next p r.0 r.1 k)
    ∙ feed_on-call_data s callback chunks p r.0 r.1 (λ q. k (stopped_in next q r.1))
        (λ q. feed q r.1) e
        (λ q f. feed-stopped_in s next leaves q r.1 f (scan-Stopped (λ c. c == cr) bytes))
    ∙ sym (feed-scan s (λ c. c == cr) callback chunks takes bytes p e)

in_data-feed :
    (p : Parser) (bytes : Bytes) → p.state ≡ s_data → feed_on (in_data p bytes) ≡ feed p bytes
unfolding in_data byte_step
in_data-feed p bytes e =
    until_cr-feed s_data s_data_cr on_data on_data-Chunks (λ q c f h. ground arith)
      (λ q c f h. ground arith) p bytes e

in_header_value-feed :
    (p : Parser) (bytes : Bytes)
    → p.state ≡ s_header_value
    → feed_on (in_header_value p bytes) ≡ feed p bytes
unfolding in_header_value byte_step
in_header_value-feed p bytes e =
    until_cr-feed s_header_value s_header_value_cr on_header_value on_header_value-Chunks
      (λ q c f h. ground arith) (λ q c f h. ground arith) p bytes e

field_end-feed :
    (p : Parser) (rest : Bytes)
    → p.state ≡ s_header_field
    → Stopped (λ c. not (is_header_field_char c)) rest
    → feed_on (field_end rest p) ≡ feed p rest
unfolding feed byte_step
field_end-feed p [] e h = refl
field_end-feed p (c ∷ cs) e h = ground arith

in_header_field-feed :
    (p : Parser) (bytes : Bytes)
    → p.state ≡ s_header_field
    → feed_on (in_header_field p bytes) ≡ feed p bytes
unfolding in_header_field byte_step
in_header_field-feed p bytes e =
    let stop = λ (c : ℕ). not (is_header_field_char c) in
    let r = scan stop bytes in
    feed_on-call_data s_header_field on_header_field on_header_field-Chunks p r.0 r.1
      (field_end r.1) (λ q. feed q r.1) e (λ q f. field_end-feed q r.1 f (scan-Stopped stop bytes))
    ∙ sym (
        feed-scan s_header_field stop on_header_field on_header_field-Chunks
          (λ q c f h. ground arith) bytes p e)

abbrev pub feed_behind : Bytes → Parser → Outcome
feed_behind cs q = feed q cs

release_data-feed :
    (p : Parser) (held : Bytes) (c : ℕ) (cs : Bytes)
    → feed_on (release_data p held (c ∷ cs))
      ≡ judge
          (receive (on_data p held) (λ q. data_byte (goto_state q s_data) c))
          (c ∷ cs)
          (feed_behind cs)
unfolding feed byte_step
release_data-feed p held c cs = elim (Callback-cases (on_data p held)) [
  | inl u ↦ rw u
  | inr (code, q, u) ↦
      let z = on_data-Chunks.code_zero p held u in
      let u' : on_data p held ≡ some (0, q) = u ∙ rw z in
      rw u' (in_data-feed (goto_state q s_data) (c ∷ cs) refl)
]

in_boundary_done-feed :
    (p : Parser) (c : ℕ) (cs : Bytes)
    → feed_on (in_boundary_done p c cs)
      ≡ judge (byte_step s_data_boundary_done p c) (c ∷ cs) (feed_behind cs)
unfolding in_boundary_done byte_step
in_boundary_done-feed p c cs = ground arith

in_data_boundary-feed :
    (p : Parser) (c : ℕ) (cs : Bytes)
    → feed_on (in_data_boundary p c cs)
      ≡ judge (byte_step s_data_boundary p c) (c ∷ cs) (feed_behind cs)
unfolding in_data_boundary byte_step
in_data_boundary-feed p c cs = ground (
  arith,
  in_boundary_done-feed (record p { index = 0; state = s_data_boundary_done }) c cs,
  release_data-feed p (take p.index p.boundary) c cs,
)

in_first_boundary-feed :
    (p : Parser) (c : ℕ) (cs : Bytes)
    → feed_on (in_first_boundary p c cs)
      ≡ judge (byte_step s_first_boundary p c) (c ∷ cs) (feed_behind cs)
unfolding in_first_boundary byte_step on_body_begin on_part_begin
in_first_boundary-feed p c cs = ground arith

pub feed-cons :
    (s : State) (p : Parser) (c : ℕ) (cs : Bytes)
    → p.state ≡ s
    → feed p (c ∷ cs) ≡ judge (byte_step s p c) (c ∷ cs) (feed_behind cs)
unfolding feed
feed-cons s p c cs e = ap (λ t. judge (byte_step t p c) (c ∷ cs) (feed_behind cs)) e

-- One round of the loop, and the bytes that it leaves, act as the automaton.
pub step-feed :
    (s : State) (p : Parser) (c : ℕ) (cs : Bytes)
    → p.state ≡ s
    → feed_on (step s p c cs) ≡ judge (byte_step s p c) (c ∷ cs) (feed_behind cs)
unfolding step byte_step feed on_part_end on_part_begin on_body_end on_headers_complete
step-feed s_preamble p c cs e = refl
step-feed s_first_boundary p c cs e = in_first_boundary-feed p c cs
step-feed s_header_field_start p c cs e =
    ground (arith, in_header_field-feed (goto_state p s_header_field) (c ∷ cs) refl)
step-feed s_header_field p c cs e = in_header_field-feed p (c ∷ cs) e ∙ feed-cons _ p c cs e
step-feed s_header_value_start p c cs e =
    ground (arith, in_header_value-feed (goto_state p s_header_value) (c ∷ cs) refl)
step-feed s_header_value p c cs e = in_header_value-feed p (c ∷ cs) e ∙ feed-cons _ p c cs e
step-feed s_data p c cs e = in_data-feed p (c ∷ cs) e ∙ feed-cons _ p c cs e
step-feed s_data_cr p c cs e = ground (arith, release_data-feed p (cr ∷ []) c cs)
step-feed s_data_cr_lf p c cs e = ground (arith, release_data-feed p (cr ∷ b'\n' ∷ []) c cs)
step-feed s_data_cr_lf_hy p c cs e =
    ground (arith, release_data-feed p (cr ∷ b'\n' ∷ b'-' ∷ []) c cs)
step-feed s_data_boundary_start p c cs e =
    in_data_boundary-feed (record p { index = 0; state = s_data_boundary }) c cs
step-feed s_data_boundary p c cs e = in_data_boundary-feed p c cs
step-feed s_data_boundary_done p c cs e = in_boundary_done-feed p c cs
step-feed _ p c cs e = ground arith
