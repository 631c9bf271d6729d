-- ===== src/Multipart/Loop.antt =====
-- The whole of `parser_data`: its fuel is enough, it equals the automaton, and a message may be cut
-- in pieces anywhere.
use project_test_demo.Common.{
  ℕ, zero, suc, ◌+◌, ◌≤◌, ◌<◌, Bool, not, none, some, [], ◌∷◌, ◌++◌, ◌==◌, length, length-append,
  take, Bytes, ◌≡◌, refl, sym, ap, ◌∙◌, arith,
}
use project_test_demo.Multipart.Types.{
  State, s_preamble, s_header_field, s_header_value, s_header_value_cr, s_data, s_data_cr, Parser,
  cr, lf, hyphen, is_header_field_char, Callback, on_header_field, on_header_value, on_data,
  on_body_begin, on_part_begin, on_part_end, on_body_end, on_headers_complete, s_header_field_start,
  s_header_value_start, s_data_cr_lf, s_data_cr_lf_hy, s_data_boundary_start, s_data_boundary,
}
use project_test_demo.Multipart.Machine.{
  Outcome, running, failed, undefined, exhausted, call, call_data, scan, advance, goto_state,
  stopped_in, in_header_field, in_header_value, in_data, in_boundary_done, in_data_boundary,
  in_first_boundary, field_end, step, continue, loop, parser_data, return_size, returned, Returned,
  crashed, endless, release_data,
}
use project_test_demo.Multipart.Bytewise.{Verdict, accept, reject, stuck, byte_step, judge, feed}
use project_test_demo.Multipart.Equivalence.{feed_on, step-feed}

-- The bytes left by a round that goes on.
abbrev Shrinks : ℕ → Outcome → Type 0
Shrinks n (running p rest) = length rest ≤ n
Shrinks n _ = Unit {0}

length-scan : (stop : ℕ → Bool) (bytes : Bytes) → length (scan stop bytes).1 ≤ length bytes
unfolding scan
length-scan stop [] = omega arith
length-scan stop (c ∷ cs) = ground (arith, length-scan stop cs)

call-Shrinks :
    (n : ℕ) (r : Callback) (from : Bytes) (k : Parser → Outcome)
    → ((q : Parser) → Shrinks n (k q))
    → Shrinks n (call r from k)
call-Shrinks n none from k h = tt
call-Shrinks n (some (code, q)) from k h = ground (arith, h q)

call_data-Shrinks :
    (n : ℕ) (callback : Parser → Bytes → Callback) (p : Parser) (m from : Bytes)
    (k : Parser → Outcome)
    → ((q : Parser) → Shrinks n (k q))
    → Shrinks n (call_data callback p m from k)
call_data-Shrinks n callback p [] from k h = h p
call_data-Shrinks n callback p (c ∷ cs) from k h = call-Shrinks n (callback p (c ∷ cs)) from k h

length-advance : (bytes : Bytes) (n : ℕ) → length bytes ≤ suc n → length (advance bytes) ≤ n
length-advance [] n h = omega arith
length-advance (c ∷ cs) n h = omega arith

in_data-Shrinks : (p : Parser) (c : ℕ) (cs : Bytes) → Shrinks (length cs) (in_data p (c ∷ cs))
unfolding in_data
in_data-Shrinks p c cs =
    let r = scan (λ d. d == cr) (c ∷ cs) in
    call_data-Shrinks (length cs) on_data (stopped_in s_data_cr p r.1) r.0 r.1
      (λ q. running q (advance r.1))
      (λ q. length-advance r.1 (length cs) (length-scan (λ d. d == cr) (c ∷ cs)))

in_header_value-Shrinks :
    (p : Parser) (c : ℕ) (cs : Bytes) → Shrinks (length cs) (in_header_value p (c ∷ cs))
unfolding in_header_value
in_header_value-Shrinks p c cs =
    let r = scan (λ d. d == cr) (c ∷ cs) in
    call_data-Shrinks (length cs) on_header_value (stopped_in s_header_value_cr p r.1) r.0 r.1
      (λ q. running q (advance r.1))
      (λ q. length-advance r.1 (length cs) (length-scan (λ d. d == cr) (c ∷ cs)))

field_end-Shrinks :
    (rest : Bytes) (n : ℕ) (p : Parser) → length rest ≤ suc n → Shrinks n (field_end rest p)
field_end-Shrinks [] n p h = omega arith
field_end-Shrinks (c ∷ cs) n p h = ground arith

in_header_field-Shrinks :
    (p : Parser) (c : ℕ) (cs : Bytes) → Shrinks (length cs) (in_header_field p (c ∷ cs))
unfolding in_header_field
in_header_field-Shrinks p c cs =
    let stop = λ (d : ℕ). not (is_header_field_char d) in
    let r = scan stop (c ∷ cs) in
    call_data-Shrinks (length cs) on_header_field p r.0 r.1 (field_end r.1)
      (λ q. field_end-Shrinks r.1 (length cs) q (length-scan stop (c ∷ cs)))

release_data-Shrinks :
    (p : Parser) (held : Bytes) (c : ℕ) (cs : Bytes)
    → Shrinks (length cs) (release_data p held (c ∷ cs))
release_data-Shrinks p held c cs =
    call-Shrinks (length cs) (on_data p held) (c ∷ cs) (λ q. in_data (goto_state q s_data) (c ∷ cs))
      (λ q. in_data-Shrinks (goto_state q s_data) c cs)

step-Shrinks : (s : State) (p : Parser) (c : ℕ) (cs : Bytes) → Shrinks (length cs) (step s p c cs)
unfolding step in_boundary_done in_data_boundary in_first_boundary on_body_begin on_part_begin
    on_part_end on_body_end on_headers_complete
step-Shrinks s_preamble p c cs = ground arith
step-Shrinks s_header_field_start p c cs =
    ground (arith, in_header_field-Shrinks (goto_state p s_header_field) c cs)
step-Shrinks s_header_field p c cs = in_header_field-Shrinks p c cs
step-Shrinks s_header_value_start p c cs =
    ground (arith, in_header_value-Shrinks (goto_state p s_header_value) c cs)
step-Shrinks s_header_value p c cs = in_header_value-Shrinks p c cs
step-Shrinks s_data p c cs = in_data-Shrinks p c cs
step-Shrinks s_data_cr p c cs = ground (arith, release_data-Shrinks p (cr ∷ []) c cs)
step-Shrinks s_data_cr_lf p c cs = ground (arith, release_data-Shrinks p (cr ∷ lf ∷ []) c cs)
step-Shrinks s_data_cr_lf_hy p c cs =
    ground (arith, release_data-Shrinks p (cr ∷ lf ∷ hyphen ∷ []) c cs)
step-Shrinks s_data_boundary_start p c cs = ground (
  arith,
  release_data-Shrinks (record p { index = 0; state = s_data_boundary }) (take 0 p.boundary) c cs,
)
step-Shrinks s_data_boundary p c cs =
    ground (arith, release_data-Shrinks p (take p.index p.boundary) c cs)
step-Shrinks _ p c cs = ground arith

continue-loop :
    (n : ℕ) (o : Outcome)
    → ((q : Parser) (rest : Bytes) → length rest ≤ n → loop n q rest ≡ feed q rest)
    → Shrinks n o
    → continue o (λ q rest. loop n q rest) ≡ feed_on o
continue-loop n (running q rest) same h = same q rest h
continue-loop n (failed q rest) same h = refl
continue-loop n _ same h = refl

Shrinks-mono : (m n : ℕ) (o : Outcome) → m ≤ n → Shrinks m o → Shrinks n o
Shrinks-mono m n (running q rest) h s = omega arith
Shrinks-mono m n (failed q rest) h s = tt
Shrinks-mono m n _ h s = tt

loop-feed : (n : ℕ) (p : Parser) (bytes : Bytes) → length bytes ≤ n → loop n p bytes ≡ feed p bytes
unfolding loop feed
loop-feed zero p [] h = refl
loop-feed zero p (c ∷ cs) h = absurd (omega arith)
loop-feed (suc n) p [] h = refl
loop-feed (suc n) p (c ∷ cs) h =
    continue-loop n (step p.state p c cs) (λ q rest. loop-feed n q rest)
      (Shrinks-mono (length cs) n (step p.state p c cs) (omega arith) (step-Shrinks p.state p c cs))
    ∙ step-feed p.state p c cs refl

-- The loops, the jumps and the fuel of `parser_data` come to this: the automaton reads the bytes one
-- by one, from any parser object.
pub parser_data-feed :
    (p : Parser) (bytes : Bytes) → parser_data p bytes ≡ return_size (length bytes) (feed p bytes)
unfolding parser_data
parser_data-feed p bytes =
    ap (return_size (length bytes)) (loop-feed (length bytes) p bytes (omega arith))

-- What a piece gives, with the bytes of a next piece behind it.
abbrev pub and_then : Outcome → Bytes → Outcome
and_then (running p rest) ys = feed p (rest ++ ys)
and_then (failed p rest) ys = failed p (rest ++ ys)
and_then undefined ys = undefined
and_then exhausted ys = exhausted

judge-and_then :
    (v : Verdict) (from ys : Bytes) (k h : Parser → Outcome)
    → ((q : Parser) → h q ≡ and_then (k q) ys)
    → judge v (from ++ ys) h ≡ and_then (judge v from k) ys
judge-and_then (accept p) from ys k h same = same p
judge-and_then (reject p) from ys k h same = refl
judge-and_then stuck from ys k h same = refl

pub feed-append :
    (xs : Bytes) (p : Parser) (ys : Bytes) → feed p (xs ++ ys) ≡ and_then (feed p xs) ys
unfolding feed
feed-append [] p ys = refl
feed-append (c ∷ xs) p ys =
    judge-and_then (byte_step p.state p c) (c ∷ xs) ys (λ q. feed q xs) (λ q. feed q (xs ++ ys))
      (λ q. feed-append xs q ys)

-- A run that ends with no error has read everything; one that fails has not.
abbrev EndsWell : ℕ → Outcome → Type 0
EndsWell n (running p rest) = rest ≡ []
EndsWell n (failed p rest) = (0 < length rest) × (length rest ≤ n)
EndsWell n undefined = Unit
EndsWell n exhausted = ⊥

judge-EndsWell :
    (n : ℕ) (v : Verdict) (from : Bytes) (k : Parser → Outcome)
    → 0 < length from
    → length from ≤ n
    → ((q : Parser) → EndsWell n (k q))
    → EndsWell n (judge v from k)
judge-EndsWell n (accept p) from k pos le h = h p
judge-EndsWell n (reject p) from k pos le h = (pos, le)
judge-EndsWell n stuck from k pos le h = tt

feed-EndsWell : (n : ℕ) (bytes : Bytes) (p : Parser) → length bytes ≤ n → EndsWell n (feed p bytes)
unfolding feed
feed-EndsWell n [] p h = refl
feed-EndsWell n (c ∷ cs) p h =
    judge-EndsWell n (byte_step p.state p c) (c ∷ cs) (λ q. feed q cs) (omega arith) h
      (λ q. feed-EndsWell n cs q (omega arith))

returned-running :
    (o : Outcome) (n : ℕ) {q : Parser}
    → EndsWell n o
    → return_size n o ≡ returned q n
    → o ≡ running q []
returned-running (running p rest) n h e = ground arith
returned-running (failed p rest) n h e = (ground arith)
returned-running _ n h e = cc

abbrev pub shifted : ℕ → Returned → Returned
shifted k (returned p n) = returned p (k + n)
shifted k crashed = crashed
shifted k endless = endless

return_size-shifted :
    (k n : ℕ) (o : Outcome) → EndsWell n o → return_size (k + n) o ≡ shifted k (return_size n o)
return_size-shifted k n (running p rest) h = refl
return_size-shifted k n (failed p rest) h = ap (returned p) (omega arith)
return_size-shifted k n _ h = refl

-- A message may arrive in pieces that are cut anywhere: where the first piece is taken with no error,
-- parsing both at once does what parsing one after the other does, and returns the sum of the sizes.
pub parser_data-append :
    (p q : Parser) (xs ys : Bytes)
    → parser_data p xs ≡ returned q (length xs)
    → parser_data p (xs ++ ys) ≡ shifted (length xs) (parser_data q ys)
parser_data-append p q xs ys e =
    let o =
      returned-running (feed p xs) (length xs) (feed-EndsWell (length xs) xs p (omega arith))
        (sym (parser_data-feed p xs) ∙ e) in
    parser_data-feed p (xs ++ ys)
    ∙ ap (return_size (length (xs ++ ys))) (feed-append xs p ys ∙ ap (λ t. and_then t ys) o)
    ∙ ap (λ n. return_size n (feed q ys)) (length-append xs ys)
    ∙ return_size-shifted (length xs) (length ys) (feed q ys)
        (feed-EndsWell (length ys) ys q (omega arith))
    ∙ ap (shifted (length xs)) (sym (parser_data-feed q ys))

-- Two runs of the automaton that meet, of which the first has `k` bytes more.
pub parser_data_of_feed :
    (p q : Parser) (xs ys : Bytes) (k : ℕ)
    → length xs ≡ k + length ys
    → feed p xs ≡ feed q ys
    → parser_data p xs ≡ shifted k (parser_data q ys)
parser_data_of_feed p q xs ys k l e =
    parser_data-feed p xs
    ∙ ap (return_size (length xs)) e
    ∙ ap (λ n. return_size n (feed q ys)) l
    ∙ return_size-shifted k (length ys) (feed q ys) (feed-EndsWell (length ys) ys q (omega arith))
    ∙ ap (shifted k) (sym (parser_data-feed q ys))
