-- ===== src/Multipart/Body.antt =====
-- How a body is read: a body without `\r\n--` arrives whole in the last part, and a body with it
-- does not.
use project_test_demo.Common.{
  ℕ, Bool, false, ◌&&◌, ◌||◌, List, [], ◌∷◌, ◌++◌, append-nil, append_assoc, ◌==◌, some,
  if◌then◌else◌, Bytes, ◌≡◌, refl, subst, ◌∙◌, arith, Bool-cases, inl, inr,
}
use project_test_demo.Multipart.Types.{
  State, s_data, s_data_cr, s_data_cr_lf, s_data_cr_lf_hy, s_data_boundary_start, Part, Parser, cr,
  lf, hyphen, on_data,
}
use project_test_demo.Multipart.Bytewise.{byte_step, feed}
use project_test_demo.Multipart.Callbacks.{on_data-some}

-- `\r\n--` in front.
abbrev pub starts_delimiter : Bytes → Bool
starts_delimiter (a ∷ b ∷ c ∷ d ∷ rest) = a == cr && b == lf && c == hyphen && d == hyphen
starts_delimiter _ = false

abbrev pub has_delimiter : Bytes → Bool
has_delimiter [] = false
has_delimiter (c ∷ cs) = starts_delimiter (c ∷ cs) || has_delimiter cs

-- The prefixes of the delimiter that the parser holds back.
data Held : Type 0 where
  nothing one two three : Held

abbrev held_text : Held → Bytes
held_text nothing = []
held_text one = cr ∷ []
held_text two = cr ∷ lf ∷ []
held_text three = cr ∷ lf ∷ hyphen ∷ []

abbrev held_state : Held → State
held_state nothing = s_data
held_state one = s_data_cr
held_state two = s_data_cr_lf
held_state three = s_data_cr_lf_hy

abbrev pub grow : Part → Bytes → Part
grow y bs = record y { body = y.body ++ bs }

-- The parser `p` in state `s`, with `y` for its last part.
abbrev pub opened : Parser → List Part → Part → State → Parser
opened p ys y s = record p { parts = ys ++ y ∷ []; state = s }

module _ (p : Parser) (ys : List Part) (y : Part) where
  on_data-opened :
      (s : State) (bs : Bytes) → on_data (opened p ys y s) bs ≡ some (0, opened p ys (grow y bs) s)
  on_data-opened s bs = on_data-some (opened p ys y s) bs ys y refl

  feed-data :
      (c : ℕ) (rest : Bytes)
      → feed (opened p ys y s_data) (c ∷ rest) ≡ (
          if c == cr
          then feed (opened p ys y s_data_cr) rest
          else feed (opened p ys (grow y (c ∷ [])) s_data) rest)
  unfolding feed byte_step
  feed-data c rest = ground (arith, on_data-opened s_data (c ∷ []))

-- The byte that each held prefix waits for, and what then follows.
abbrev wanted : Held → ℕ
wanted nothing = cr
wanted one = lf
wanted two = hyphen
wanted three = hyphen

abbrev extended : Held → State
extended nothing = s_data_cr
extended one = s_data_cr_lf
extended two = s_data_cr_lf_hy
extended three = s_data_boundary_start

feed-wanted :
    (h : Held) (p : Parser) (ys : List Part) (y : Part) (rest : Bytes)
    → feed (opened p ys y (held_state h)) (wanted h ∷ rest) ≡ feed (opened p ys y (extended h)) rest
unfolding feed byte_step
feed-wanted nothing p ys y rest = refl
feed-wanted _ p ys y rest = refl

-- Any other byte releases the held ones.
feed-released :
    (h : Held) (p : Parser) (ys : List Part) (y : Part) (c : ℕ) (rest : Bytes)
    → (c == wanted h) ≡ false
    → feed (opened p ys y (held_state h)) (c ∷ rest)
      ≡ feed (opened p ys (grow y (held_text h)) s_data) (c ∷ rest)
unfolding feed byte_step
feed-released nothing p ys y c rest e = rw append-nil
feed-released one p ys y c rest e = rw (e, on_data-opened p ys y s_data_cr (cr ∷ []))
feed-released two p ys y c rest e = rw (e, on_data-opened p ys y s_data_cr_lf (cr ∷ lf ∷ []))
feed-released three p ys y c rest e =
    rw (e, on_data-opened p ys y s_data_cr_lf_hy (cr ∷ lf ∷ hyphen ∷ []))

has_delimiter-tail :
    (c : ℕ) (cs : Bytes) → has_delimiter (c ∷ cs) ≡ false → has_delimiter cs ≡ false
has_delimiter-tail c cs e = ground arith

abbrev pub delimiter : Bytes → Bytes
delimiter rest = cr ∷ lf ∷ hyphen ∷ hyphen ∷ rest

pub feed-delimiter :
    (p : Parser) (ys : List Part) (y : Part) (rest : Bytes)
    → feed (opened p ys y s_data) (delimiter rest) ≡ feed (opened p ys y s_data_boundary_start) rest
feed-delimiter p ys y rest =
    feed-wanted nothing p ys y (lf ∷ hyphen ∷ hyphen ∷ rest)
    ∙ feed-wanted one p ys y (hyphen ∷ hyphen ∷ rest)
    ∙ feed-wanted two p ys y (hyphen ∷ rest)
    ∙ feed-wanted three p ys y rest

-- With `h` held, the parser reads `bs` and the delimiter behind it, and all of it but the delimiter
-- is data.
abbrev ReadsHeld : Bytes → Type 0
ReadsHeld bs =
    (h : Held) (p : Parser) (ys : List Part) (y : Part) (rest : Bytes)
    → has_delimiter (held_text h ++ bs) ≡ false
    → feed (opened p ys y (held_state h)) (bs ++ delimiter rest)
      ≡ feed (opened p ys (grow y (held_text h ++ bs)) s_data_boundary_start) rest

-- Data that is read by two steps is one piece.
grow-grow :
    (p : Parser) (ys : List Part) (y : Part) (us bs rest : Bytes) (s : State)
    → feed (opened p ys (grow (grow y us) bs) s) rest
      ≡ feed (opened p ys (grow y (us ++ bs)) s) rest
grow-grow p ys y us bs rest s = rw (append_assoc y.body us bs)

feed-released-cons :
    (c : ℕ) (cs : Bytes) (p : Parser) (ys : List Part) (z : Part) (rest : Bytes)
    → ReadsHeld cs
    → has_delimiter (c ∷ cs) ≡ false
    → feed (opened p ys z s_data) (c ∷ (cs ++ delimiter rest))
      ≡ feed (opened p ys (grow z (c ∷ cs)) s_data_boundary_start) rest
feed-released-cons c cs p ys z rest ih e = elim (Bool-cases (c == cr)) [
  | inl t ↦
      let c_cr : c ≡ cr = ground arith in
      feed-data p ys z c (cs ++ delimiter rest)
      ∙ rw t (rw c_cr (ih one p ys z rest (subst (λ d. has_delimiter (d ∷ cs) ≡ false) c_cr e)))
  | inr t ↦
      feed-data p ys z c (cs ++ delimiter rest)
      ∙ rw t (
          ih nothing p ys (grow z (c ∷ [])) rest (has_delimiter-tail c cs e)
          ∙ grow-grow p ys z (c ∷ []) cs rest s_data_boundary_start)
]

has_delimiter-drop :
    (h : Held) (bs : Bytes) → has_delimiter (held_text h ++ bs) ≡ false → has_delimiter bs ≡ false
has_delimiter-drop nothing bs e = e
has_delimiter-drop _ bs e = ground arith

feed-extended :
    (h : Held) (cs : Bytes) (p : Parser) (ys : List Part) (y : Part) (rest : Bytes)
    → ReadsHeld cs
    → has_delimiter (held_text h ++ wanted h ∷ cs) ≡ false
    → feed (opened p ys y (held_state h)) (wanted h ∷ (cs ++ delimiter rest))
      ≡ feed (opened p ys (grow y (held_text h ++ wanted h ∷ cs)) s_data_boundary_start) rest
feed-extended nothing cs p ys y rest ih e =
    feed-wanted nothing p ys y (cs ++ delimiter rest) ∙ ih one p ys y rest e
feed-extended one cs p ys y rest ih e =
    feed-wanted one p ys y (cs ++ delimiter rest) ∙ ih two p ys y rest e
feed-extended two cs p ys y rest ih e =
    feed-wanted two p ys y (cs ++ delimiter rest) ∙ ih three p ys y rest e
feed-extended three cs p ys y rest ih e = absurd (ground arith)

feed-held-nil : ReadsHeld []
feed-held-nil nothing p ys y rest e = feed-delimiter p ys y rest ∙ rw append-nil
feed-held-nil one p ys y rest e =
    feed-released one p ys y cr (lf ∷ hyphen ∷ hyphen ∷ rest) refl ∙ feed-delimiter p ys _ rest
feed-held-nil two p ys y rest e =
    feed-released two p ys y cr (lf ∷ hyphen ∷ hyphen ∷ rest) refl ∙ feed-delimiter p ys _ rest
feed-held-nil three p ys y rest e =
    feed-released three p ys y cr (lf ∷ hyphen ∷ hyphen ∷ rest) refl ∙ feed-delimiter p ys _ rest

feed-held : (bs : Bytes) → ReadsHeld bs
feed-held [] h p ys y rest e = feed-held-nil h p ys y rest e
feed-held (c ∷ cs) h p ys y rest e = elim (Bool-cases (c == wanted h)) [
  | inl t ↦
      let w : c ≡ wanted h = ground arith in
      rw w (feed-extended h cs p ys y rest (feed-held cs) (rw (← w) e))
  | inr t ↦
      feed-released h p ys y c (cs ++ delimiter rest) t
      ∙ feed-released-cons c cs p ys (grow y (held_text h)) rest (feed-held cs)
          (has_delimiter-drop h (c ∷ cs) e)
      ∙ grow-grow p ys y (held_text h) (c ∷ cs) rest s_data_boundary_start
]

-- A body without the delimiter, and the delimiter behind it.
pub feed_body :
    (bs : Bytes) (p : Parser) (ys : List Part) (y : Part) (rest : Bytes)
    → has_delimiter bs ≡ false
    → feed (opened p ys y s_data) (bs ++ delimiter rest)
      ≡ feed (opened p ys (grow y bs) s_data_boundary_start) rest
feed_body bs p ys y rest e = feed-held bs nothing p ys y rest e
