-- ===== src/Multipart/Headers.antt =====
-- How header lines are read: name and value are held, and go into the last part when the next name
-- starts or the headers end.
use project_test_demo.Common.{
  ℕ, true, false, ◌||◌, List, [], ◌∷◌, ◌++◌, append-nil, append_assoc, ◌==◌, Bytes, ◌≡◌, refl, sym,
  ap, subst, ◌∙◌, arith, Bool-cases, inl, inr,
}
use project_test_demo.Common.Dict.{assign}
use project_test_demo.Multipart.Types.{
  State, s_data, s_header_field_start, s_header_field, s_header_value, Part, Parser, cr, lf,
  is_header_field_char, on_header_field, on_header_done, on_header_value, on_headers_complete,
}
use project_test_demo.Multipart.Bytewise.{byte_step, feed}
use project_test_demo.Multipart.Callbacks.{update_back-snoc}

-- The parser `p` in state `s`, with `y` for its last part and a header in the making.
abbrev pub heading : Parser → List Part → Part → Bytes → Bytes → State → Parser
heading p ys y name value s = record p {
  parts = ys ++ y ∷ [];
  header_name = name;
  header_value = value;
  state = s;
}

abbrev pub headed : Part → Bytes → Bytes → Part
headed y name value = record y { headers = assign name value y.headers }

-- A held header is complete, or there is none.
abbrev pub commit : Part → Bytes → Bytes → Part
commit y name [] = y
commit y name (v ∷ vs) = headed y name (v ∷ vs)

abbrev pub Held : Bytes → Bytes → Type 0
Held name [] = name ≡ []
Held name (v ∷ vs) = Unit

-- The characters of a name, and those of a value.
abbrev pub AllName : Bytes → Type 0
AllName [] = Unit
AllName (c ∷ cs) = (is_header_field_char c ≡ true) × AllName cs

abbrev pub AllValue : Bytes → Type 0
AllValue [] = Unit
AllValue (c ∷ cs) = ((c == cr) ≡ false) × AllValue cs

-- A name that is not empty, and a value that is not empty and begins with no blank.
abbrev pub IsName : Bytes → Type 0
IsName [] = ⊥
IsName (c ∷ cs) = AllName (c ∷ cs)

abbrev pub IsValue : Bytes → Type 0
IsValue [] = ⊥
IsValue (c ∷ cs) = ((c == b' ' || c == b'\t') ≡ false) × AllValue (c ∷ cs)

not-name-cr : is_header_field_char cr ≡ false
unfolding is_header_field_char
not-name-cr = refl

not-name-colon : is_header_field_char b':' ≡ false
unfolding is_header_field_char
not-name-colon = refl

name-ne-cr : (c : ℕ) → is_header_field_char c ≡ true → (c == cr) ≡ false
name-ne-cr c h = elim (Bool-cases (c == cr)) [
  | inl t ↦
      let e : c ≡ cr = ground arith in
      absurd (
        subst (λ b. b ≡ true → ⊥) (sym not-name-cr) (λ x. cc) (ap is_header_field_char (sym e) ∙ h))
  | inr t ↦ t
]

feed_name_start :
    (p : Parser) (ys : List Part) (y : Part) (name value : Bytes) (c : ℕ) (rest : Bytes)
    → Held name value
    → is_header_field_char c ≡ true
    → feed (heading p ys y name value s_header_field_start) (c ∷ rest)
      ≡ feed (heading p ys (commit y name value) (c ∷ []) [] s_header_field) rest
unfolding feed byte_step on_header_field
feed_name_start p ys y name [] c rest h a = rw (name-ne-cr c a, a, h)
feed_name_start p ys y name (v ∷ vs) c rest h a =
    ground (arith, name-ne-cr c a, update_back-snoc (λ part. headed part name (v ∷ vs)) ys y)

feed_name :
    (cs : Bytes) (p : Parser) (ys : List Part) (y : Part) (name rest : Bytes)
    → AllName cs
    → feed (heading p ys y name [] s_header_field) (cs ++ rest)
      ≡ feed (heading p ys y (name ++ cs) [] s_header_field) rest
unfolding feed byte_step on_header_field
feed_name [] p ys y name rest h = rw append-nil
feed_name (c ∷ cs) p ys y name rest h =
    rw h.0 (feed_name cs p ys y (name ++ c ∷ []) rest h.1 ∙ rw (append_assoc name (c ∷ []) cs))

feed_colon :
    (p : Parser) (ys : List Part) (y : Part) (name : Bytes) (v : ℕ) (rest : Bytes)
    → (v == b' ' || v == b'\t') ≡ false
    → (v == cr) ≡ false
    → feed (heading p ys y name [] s_header_field) (b':' ∷ b' ' ∷ v ∷ rest)
      ≡ feed (heading p ys y name (v ∷ []) s_header_value) rest
unfolding feed byte_step on_header_value
feed_colon p ys y name v rest a b = rw not-name-colon (rw (a, b))

feed_value :
    (cs : Bytes) (p : Parser) (ys : List Part) (y : Part) (name value rest : Bytes)
    → AllValue cs
    → feed (heading p ys y name value s_header_value) (cs ++ cr ∷ lf ∷ rest)
      ≡ feed (heading p ys y name (value ++ cs) s_header_field_start) rest
unfolding feed byte_step on_header_value
feed_value [] p ys y name value rest h = rw append-nil
feed_value (c ∷ cs) p ys y name value rest h =
    rw h.0
      (feed_value cs p ys y name (value ++ c ∷ []) rest h.1 ∙ rw (append_assoc value (c ∷ []) cs))

-- `name: value`, with any bytes behind the line.
abbrev pub header_line : Bytes → Bytes → Bytes → Bytes
header_line name value rest = name ++ b':' ∷ b' ' ∷ (value ++ cr ∷ lf ∷ rest)

-- A name behind a held name without a value is put behind it.
feed_name_appends :
    (p : Parser) (ys : List Part) (y : Part) (name : Bytes) (c : ℕ) (rest : Bytes)
    → is_header_field_char c ≡ true
    → feed (heading p ys y name [] s_header_field_start) (c ∷ rest)
      ≡ feed (heading p ys y (name ++ c ∷ []) [] s_header_field) rest
unfolding feed byte_step on_header_field
feed_name_appends p ys y name c rest a = rw (name-ne-cr c a, a)

-- The same for a whole line: the two names become one.
pub feed_merged_line :
    (p : Parser) (ys : List Part) (y : Part) (name next value rest : Bytes)
    → IsName next
    → IsValue value
    → feed (heading p ys y name [] s_header_field_start) (header_line next value rest)
      ≡ feed (heading p ys y (name ++ next) value s_header_field_start) rest
feed_merged_line p ys y name [] value rest a b = absurd a
feed_merged_line p ys y name (c ∷ cs) [] rest a b = absurd b
feed_merged_line p ys y name (c ∷ cs) (v ∷ vs) rest a b =
    feed_name_appends p ys y name c (cs ++ b':' ∷ b' ' ∷ (v ∷ vs ++ cr ∷ lf ∷ rest)) a.0
    ∙ feed_name cs p ys y (name ++ c ∷ []) (b':' ∷ b' ' ∷ (v ∷ vs ++ cr ∷ lf ∷ rest)) a.1
    ∙ ap (λ n. feed (heading p ys y n [] s_header_field) (b':' ∷ b' ' ∷ (v ∷ vs ++ cr ∷ lf ∷ rest)))
        (append_assoc name (c ∷ []) cs)
    ∙ feed_colon p ys y (name ++ c ∷ cs) v (vs ++ cr ∷ lf ∷ rest) b.0 b.1.0
    ∙ feed_value vs p ys y (name ++ c ∷ cs) (v ∷ []) rest b.1.1

feed-header_line :
    (p : Parser) (ys : List Part) (y : Part) (held_name held_value name value rest : Bytes)
    → Held held_name held_value
    → IsName name
    → IsValue value
    → feed (heading p ys y held_name held_value s_header_field_start) (header_line name value rest)
      ≡ feed (heading p ys (commit y held_name held_value) name value s_header_field_start) rest
feed-header_line p ys y hn hv [] value rest h a b = absurd a
feed-header_line p ys y hn hv (c ∷ cs) [] rest h a b = absurd b
feed-header_line p ys y hn hv (c ∷ cs) (v ∷ vs) rest h a b =
    feed_name_start p ys y hn hv c (cs ++ b':' ∷ b' ' ∷ (v ∷ vs ++ cr ∷ lf ∷ rest)) h a.0
    ∙ feed_name cs p ys (commit y hn hv) (c ∷ []) (b':' ∷ b' ' ∷ (v ∷ vs ++ cr ∷ lf ∷ rest)) a.1
    ∙ feed_colon p ys (commit y hn hv) (c ∷ cs) v (vs ++ cr ∷ lf ∷ rest) b.0 b.1.0
    ∙ feed_value vs p ys (commit y hn hv) (c ∷ cs) (v ∷ []) rest b.1.1

abbrev pub header_text : List (Bytes × Bytes) → Bytes → Bytes
header_text [] rest = cr ∷ lf ∷ rest
header_text ((name, value) ∷ hs) rest = header_line name value (header_text hs rest)

abbrev pub AllHeaders : List (Bytes × Bytes) → Type 0
AllHeaders [] = Unit
AllHeaders ((name, value) ∷ hs) = IsName name × IsValue value × AllHeaders hs

-- The headers of a part, assigned one after the other.
abbrev pub assign_all : Part → List (Bytes × Bytes) → Part
assign_all y [] = y
assign_all y ((name, value) ∷ hs) = assign_all (headed y name value) hs

feed_headers_end :
    (p : Parser) (ys : List Part) (y : Part) (name value rest : Bytes)
    → Held name value
    → feed (heading p ys y name value s_header_field_start) (cr ∷ lf ∷ rest)
      ≡ feed (heading p ys (commit y name value) [] [] s_data) rest
unfolding feed byte_step on_headers_complete on_header_done
feed_headers_end p ys y name [] rest h = rw h
feed_headers_end p ys y name (v ∷ vs) rest h =
    ground (arith, update_back-snoc (λ part. headed part name (v ∷ vs)) ys y)

-- A header that was read last is held; the others are in the part.
pub feed_headers :
    (hs : List (Bytes × Bytes)) (p : Parser) (ys : List Part) (y : Part) (name value rest : Bytes)
    → Held name value
    → AllHeaders hs
    → feed (heading p ys y name value s_header_field_start) (header_text hs rest)
      ≡ feed (heading p ys (assign_all (commit y name value) hs) [] [] s_data) rest
feed_headers [] p ys y name value rest h a = feed_headers_end p ys y name value rest h
feed_headers ((n, []) ∷ hs) p ys y name value rest h a = absurd a.1
feed_headers ((n, v ∷ vs) ∷ hs) p ys y name value rest h a =
    feed-header_line p ys y name value n (v ∷ vs) (header_text hs rest) h a.0 a.1
    ∙ feed_headers hs p ys (commit y name value) n (v ∷ vs) rest tt a.2
