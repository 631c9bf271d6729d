-- ===== src/Multipart/Boundary.antt =====
-- How a boundary line is read.
use project_test_demo.Common.{
  ℕ, ◌+◌, ◌<◌, true, [], ◌∷◌, ◌++◌, append-nil, append_assoc, some, length, length-append,
  get_elem?, Bytes, c_str, ◌≡◌, refl, sym, ap, ◌∙◌, arith,
}
use project_test_demo.Multipart.Types.{
  State, s_first_boundary, s_header_field_start, s_data_boundary_start, s_data_boundary, s_epilogue,
  Part, Parser, cr, lf, hyphen, on_body_begin, on_part_begin, on_part_end, on_body_end,
}
use project_test_demo.Multipart.Machine.{running, matches_boundary}
use project_test_demo.Multipart.Bytewise.{byte_step, feed}

-- ASCII with no NUL.
abbrev pub AllAscii : Bytes → Type 0
AllAscii [] = Unit
AllAscii (c ∷ cs) = (0 < c) × (c < 128) × AllAscii cs

pub c_str-ascii : (b : Bytes) → AllAscii b → c_str b ≡ b
unfolding c_str
c_str-ascii [] h = refl
c_str-ascii (c ∷ cs) h = ground (arith, c_str-ascii cs h.2)

pub get_elem?-middle :
    (pre : Bytes) (c : ℕ) (suf : Bytes)
    → get_elem? ((pre ++ c ∷ suf) ++ 0 ∷ []) (length pre) ≡ some c
get_elem?-middle [] c suf = refl
get_elem?-middle (x ∷ pre) c suf = get_elem?-middle pre c suf

matches_boundary-middle :
    (p : Parser) (pre : Bytes) (c : ℕ) (suf : Bytes)
    → p.boundary ≡ pre ++ c ∷ suf
    → p.index ≡ length pre
    → c < 128
    → matches_boundary p c ≡ some true
unfolding matches_boundary
matches_boundary-middle p pre c suf b i h =
    rw (b, i, get_elem?-middle pre c suf, matches_boundary) (ground arith)

-- The parser `p` in state `s` at the index `i`.
abbrev pub at_index : Parser → ℕ → State → Parser
at_index p i s = record p { index = i; state = s }

feed-first_matched :
    (p : Parser) (c : ℕ) (rest : Bytes)
    → p.index < p.boundary_len
    → matches_boundary p c ≡ some true
    → feed (record p { state = s_first_boundary }) (c ∷ rest)
      ≡ feed (at_index p (p.index + 1) s_first_boundary) rest
unfolding feed byte_step matches_boundary
feed-first_matched p c rest h m = ground arith

feed-data_matched :
    (p : Parser) (c : ℕ) (rest : Bytes)
    → p.index < p.boundary_len
    → matches_boundary p c ≡ some true
    → feed (record p { state = s_data_boundary }) (c ∷ rest)
      ≡ feed (at_index p (p.index + 1) s_data_boundary) rest
unfolding feed byte_step matches_boundary
feed-data_matched p c rest h m = ground arith

-- The rest of the boundary, in one of the two states that compare it.
abbrev Matches : State → Type 0
Matches s =
    (p : Parser) (c : ℕ) (rest : Bytes)
    → p.index < p.boundary_len
    → matches_boundary p c ≡ some true
    → feed (record p { state = s }) (c ∷ rest) ≡ feed (at_index p (p.index + 1) s) rest

module _ (p : Parser) (len : p.boundary_len ≡ length p.boundary) where
  feed_matching :
      (s : State) (suf pre post rest : Bytes)
      → Matches s
      → p.boundary ≡ pre ++ (suf ++ post)
      → AllAscii suf
      → feed (at_index p (length pre) s) (suf ++ rest)
        ≡ feed (at_index p (length (pre ++ suf)) s) rest
  feed_matching s [] pre post rest m b h =
      ap (λ n. feed (at_index p n s) rest) (ap length (sym (append-nil pre)))
  feed_matching s (c ∷ suf) pre post rest m b h =
      let q = at_index p (length pre) s in
      let inside : length pre < p.boundary_len =
        omega (arith, ap length b, length-append pre (c ∷ (suf ++ post))) in
      let next : length pre + 1 ≡ length (pre ++ c ∷ []) =
        omega (arith, length-append pre (c ∷ [])) in
      m q c (suf ++ rest) inside (matches_boundary-middle q pre c (suf ++ post) b refl h.1)
      ∙ ap (λ n. feed (at_index p n s) (suf ++ rest)) next
      ∙ feed_matching s suf (pre ++ c ∷ []) post rest m
          (b ∙ sym (append_assoc pre (c ∷ []) (suf ++ post))) h.2
      ∙ ap (λ l. feed (at_index p (length l) s) rest) (append_assoc pre (c ∷ []) suf)

  -- The first bytes of the boundary, behind data.
  pub feed_data_prefix :
      (pre post rest : Bytes)
      → p.boundary ≡ pre ++ post
      → AllAscii pre
      → feed (at_index p 0 s_data_boundary) (pre ++ rest)
        ≡ feed (at_index p (length pre) s_data_boundary) rest
  feed_data_prefix pre post rest b h =
      feed_matching s_data_boundary pre [] post rest feed-data_matched b h

  pub feed_first_boundary :
      (rest : Bytes)
      → AllAscii p.boundary
      → feed (at_index p 0 s_first_boundary) (p.boundary ++ rest)
        ≡ feed (at_index p (length p.boundary) s_first_boundary) rest
  feed_first_boundary rest h =
      feed_matching s_first_boundary p.boundary [] [] rest feed-first_matched
        (sym (append-nil p.boundary)) h

  pub feed_data_boundary :
      (rest : Bytes)
      → AllAscii p.boundary
      → feed (at_index p 0 s_data_boundary) (p.boundary ++ rest)
        ≡ feed (at_index p (length p.boundary) s_data_boundary) rest
  feed_data_boundary rest h = feed_data_prefix p.boundary [] rest (sym (append-nil p.boundary)) h

-- The first byte of a boundary behind data resets the index.
pub feed_boundary_start :
    (p : Parser) (i c : ℕ) (rest : Bytes)
    → feed (at_index p i s_data_boundary_start) (c ∷ rest)
      ≡ feed (at_index p 0 s_data_boundary) (c ∷ rest)
unfolding feed byte_step
feed_boundary_start p i c rest = refl

abbrev pub new_part : Part
new_part = record { headers = []; body = [] }

pub feed_first_line :
    (p : Parser) (rest : Bytes)
    → feed (at_index p p.boundary_len s_first_boundary) (cr ∷ lf ∷ rest)
      ≡ feed
          (record p {
            body_beg_called = true;
            index = 0;
            state = s_header_field_start;
            parts = p.parts ++ new_part ∷ [];
          })
          rest
unfolding feed byte_step on_body_begin on_part_begin
feed_first_line p rest = ground arith

pub feed_next_line :
    (p : Parser) (rest : Bytes)
    → feed (at_index p p.boundary_len s_data_boundary) (cr ∷ lf ∷ rest)
      ≡ feed
          (record p { index = 0; state = s_header_field_start; parts = p.parts ++ new_part ∷ [] })
          rest
unfolding feed byte_step on_part_end on_part_begin
feed_next_line p rest = ground arith

pub feed_last_line :
    (p : Parser) (rest : Bytes)
    → feed (at_index p p.boundary_len s_data_boundary) (hyphen ∷ hyphen ∷ rest)
      ≡ feed (record p { index = 0; state = s_epilogue; body_end_called = true }) rest
unfolding feed byte_step on_part_end on_body_end
feed_last_line p rest = ground arith

-- Whatever follows is ignored.
pub feed_epilogue : (p : Parser) (rest : Bytes) → p.state ≡ s_epilogue → feed p rest ≡ running p []
unfolding feed byte_step
feed_epilogue p [] e = refl
feed_epilogue p (c ∷ cs) e =
    rw (e, byte_step) (feed_epilogue (record p { state = s_epilogue }) cs refl)
