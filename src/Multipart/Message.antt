-- ===== src/Multipart/Message.antt =====
-- A whole message: what a sender writes, and what the parser makes of it.
use project_test_demo.Common.{
  ℕ, true, false, List, [], ◌∷◌, ◌++◌, append-nil, append_assoc, map, length, Bytes, ◌≡◌, ◌≢◌, refl,
  sym, ap, ◌∙◌,
}
use project_test_demo.Multipart.Types.{
  s_first_boundary, s_header_field_start, s_data, s_data_boundary_start, s_data_boundary,
  s_epilogue, Part, Parser, cr, lf, hyphen, create,
}
use project_test_demo.Multipart.Machine.{running, returned, return_size, parser_data}
use project_test_demo.Multipart.Bytewise.{byte_step, feed}
use project_test_demo.Multipart.Loop.{parser_data-feed}
use project_test_demo.Multipart.Body.{has_delimiter, delimiter, grow, opened, feed_body}
use project_test_demo.Multipart.Headers.{header_text, AllHeaders, heading, assign_all, feed_headers}
use project_test_demo.Multipart.Boundary.{
  AllAscii, c_str-ascii, at_index, new_part, feed_first_boundary, feed_data_boundary,
  feed_boundary_start, feed_first_line, feed_next_line, feed_last_line, feed_epilogue,
}

-- What a sender puts into one part.
pub record Content : Type 0 where
  pub fields : List (Bytes × Bytes)
  pub text : Bytes

abbrev pub IsContent : Content → Type 0
IsContent x = AllHeaders x.fields × (has_delimiter x.text ≡ false)

abbrev pub AllContent : List Content → Type 0
AllContent [] = Unit
AllContent (x ∷ xs) = IsContent x × AllContent xs

abbrev pub part_of : Content → Part
part_of x = grow (assign_all new_part x.fields) x.text

abbrev content_text : Bytes → Content → Bytes → Bytes
content_text b x rest = header_text x.fields (x.text ++ delimiter (b ++ rest))

abbrev pub tail_text : Bytes → List Content → Bytes → Bytes
tail_text b [] rest = hyphen ∷ hyphen ∷ rest
tail_text b (x ∷ xs) rest = cr ∷ lf ∷ content_text b x (tail_text b xs rest)

-- The parts `x` and `xs` between boundaries, and an epilogue.
abbrev pub message : Bytes → Content → List Content → Bytes → Bytes
message b x xs rest = hyphen ∷ hyphen ∷ (b ++ cr ∷ lf ∷ content_text b x (tail_text b xs rest))

-- Behind a boundary, with the parts `ps`.
abbrev between : Parser → List Part → Parser
between p ps = record p {
  parts = ps;
  header_name = [];
  header_value = [];
  index = length p.boundary;
  state = s_data_boundary;
}

module _ (p : Parser) (len : p.boundary_len ≡ length p.boundary) (ascii : AllAscii p.boundary)
    (ne : p.boundary ≢ []) where
  feed_start :
      (b rest : Bytes) (i : ℕ)
      → b ≢ []
      → feed (at_index p i s_data_boundary_start) (b ++ rest)
        ≡ feed (at_index p 0 s_data_boundary) (b ++ rest)
  feed_start [] rest i h = absurd (h refl)
  feed_start (c ∷ cs) rest i h = feed_boundary_start p i c (cs ++ rest)

  feed_delimited :
      (rest : Bytes)
      → feed (record p { state = s_data_boundary_start }) (p.boundary ++ rest)
        ≡ feed (at_index p (length p.boundary) s_data_boundary) rest
  feed_delimited rest = feed_start p.boundary rest p.index ne ∙ feed_data_boundary p len rest ascii

abbrev IsReady : Parser → Type 0
IsReady p = (p.boundary_len ≡ length p.boundary) × AllAscii p.boundary × (p.boundary ≢ [])

feed_content :
    (p : Parser) (ys : List Part) (x : Content) (rest : Bytes)
    → IsReady p
    → IsContent x
    → feed (heading p ys new_part [] [] s_header_field_start) (content_text p.boundary x rest)
      ≡ feed (between p (ys ++ part_of x ∷ [])) rest
feed_content p ys x rest r ok =
    let q = record p { header_name = []; header_value = [] } in
    feed_headers x.fields p ys new_part [] [] (x.text ++ delimiter (p.boundary ++ rest)) refl ok.0
    ∙ feed_body x.text q ys (assign_all new_part x.fields) (p.boundary ++ rest) ok.1
    ∙ feed_delimited (opened q ys (part_of x) s_data) r.0 r.1 r.2 rest

abbrev closed : Parser → List Part → Parser
closed p ps = record p {
  parts = ps;
  header_name = [];
  header_value = [];
  index = 0;
  state = s_epilogue;
  body_end_called = true;
}

feed_tail :
    (xs : List Content) (p : Parser) (ps : List Part) (rest : Bytes)
    → IsReady p
    → AllContent xs
    → feed (between p ps) (tail_text p.boundary xs rest)
      ≡ running (closed p (ps ++ map part_of xs)) []
feed_tail [] p ps rest r ok =
    ap (λ n. feed (at_index (between p ps) n s_data_boundary) (hyphen ∷ hyphen ∷ rest)) (sym r.0)
    ∙ feed_last_line (between p ps) rest
    ∙ feed_epilogue (closed p ps) rest refl
    ∙ rw append-nil
feed_tail (x ∷ xs) p ps rest r ok =
    let q = record p { index = 0 } in
    let behind = content_text p.boundary x (tail_text p.boundary xs rest) in
    ap (λ n. feed (at_index (between p ps) n s_data_boundary) (cr ∷ lf ∷ behind)) (sym r.0)
    ∙ feed_next_line (between p ps) behind
    ∙ feed_content q ps x (tail_text p.boundary xs rest) r ok.0
    ∙ feed_tail xs p (ps ++ part_of x ∷ []) rest r ok.1
    ∙ rw (append_assoc ps (part_of x ∷ []) (map part_of xs))

create-IsReady : (b : Bytes) → AllAscii b → b ≢ [] → IsReady (create b)
unfolding create
create-IsReady b h ne = (ap length (c_str-ascii b h), h, ne)

begun : Bytes → List Part → Parser
unfolding create
begun b ps = closed (record (create b) { body_beg_called = true }) ps

feed-message :
    (b : Bytes) (x : Content) (xs : List Content) (rest : Bytes)
    → AllAscii b
    → b ≢ []
    → AllContent (x ∷ xs)
    → feed (create b) (message b x xs rest) ≡ running (begun b (map part_of (x ∷ xs))) []
unfolding feed byte_step create begun
feed-message b x xs rest h ne ok =
    let r = create-IsReady b h ne in
    let p = create b in
    let q = record p { body_beg_called = true; index = 0 } in
    let behind = content_text b x (tail_text b xs rest) in
    feed_first_boundary p r.0 (cr ∷ lf ∷ behind) h
    ∙ ap (λ n. feed (at_index p n s_first_boundary) (cr ∷ lf ∷ behind)) (sym r.0)
    ∙ feed_first_line p behind
    ∙ feed_content q [] x (tail_text b xs rest) r ok.0
    ∙ feed_tail xs q (part_of x ∷ []) rest r ok.1

-- A message with one part or more, whose boundary is ASCII with no NUL and not empty, whose headers
-- have names of header characters and values that are not empty, begin with no blank and hold no CR,
-- and whose bodies do not hold `\r\n--`, is read whole. The parser then has one part for each that was
-- written, in order, with its headers assigned in order and its body, and both of its flags are set;
-- what stands behind the last boundary is ignored.
pub parser_data-message :
    (b : Bytes) (x : Content) (xs : List Content) (rest : Bytes)
    → AllAscii b
    → b ≢ []
    → AllContent (x ∷ xs)
    → (p : Parser) × (parser_data (create b) (message b x xs rest)
        ≡ returned p (length (message b x xs rest)))
      × (p.parts ≡ map part_of (x ∷ xs))
      × (p.body_beg_called ≡ true)
      × (p.body_end_called ≡ true)
unfolding begun
parser_data-message b x xs rest h ne ok =
    let bytes = message b x xs rest in
    (
      begun b (map part_of (x ∷ xs)),
      parser_data-feed (create b) bytes
          ∙ ap (return_size (length bytes)) (feed-message b x xs rest h ne ok),
      refl,
      refl,
      refl,
    )
