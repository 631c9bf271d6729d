-- ===== src/Multipart/Invariant.antt =====
-- The invariant of the parser object: the index stays inside the boundary, and from the first
-- boundary on there is a part for `parts_.back()`. What the callbacks keep of it.
use project_test_demo.Common.{
  ℕ, ◌+◌, ◌≤◌, ◌<◌, Bool, none, some, List, [], ◌∷◌, ◌++◌, ◌==◌, ◌&&◌, ltb, length, length-append,
  get_elem?-some, Bytes, c_str, ◌≡◌, refl, sym, ap, ◌∙◌, arith, Bool-cases, inl, inr,
}
use project_test_demo.Common.Dict.{assign}
use project_test_demo.Multipart.Types.{
  State, s_preamble, Part, Parser, Callback, update_back, on_header_field, on_header_value, on_data,
  on_headers_complete, s_preamble_hy_hy, s_first_boundary, s_data_boundary, create,
}
use project_test_demo.Multipart.Machine.{goto_state, matches_boundary}
use project_test_demo.Multipart.Bytewise.{Verdict, accept, reject, stuck, receive}

-- What a state says of the index.
abbrev pub IndexFits : State → ℕ → ℕ → Type 0
IndexFits s_preamble i n = i ≡ 0
IndexFits s_preamble_hy_hy i n = i ≡ 0
IndexFits s_first_boundary i n = i ≤ n + 1
IndexFits s_data_boundary i n = i ≤ n
IndexFits _ i n = Unit {0}

-- What a state says of the parts.
abbrev pub PartOpen : State → List Part → Type 0
PartOpen s_preamble ps = Unit {0}
PartOpen s_preamble_hy_hy ps = Unit {0}
PartOpen s_first_boundary ps = Unit {0}
PartOpen _ ps = 0 < length ps

pub record IsValid (p : Parser) : Type 0 where
  pub len : p.boundary_len ≡ length (c_str p.boundary)
  pub index_fits : IndexFits p.state p.index p.boundary_len
  pub part_open : PartOpen p.state p.parts

pub create-IsValid : (boundary : Bytes) → IsValid (create boundary)
unfolding create
create-IsValid boundary = record { len = refl; index_fits = refl; part_open = tt }

length-c_str : (b : Bytes) → length (c_str b) ≤ length b
unfolding c_str
length-c_str [] = omega arith
length-c_str (c ∷ cs) = ground (arith, length-c_str cs)

pub matches_boundary-some :
    (p : Parser) (c : ℕ)
    → p.boundary_len ≡ length (c_str p.boundary)
    → p.index ≤ p.boundary_len
    → (b : Bool) × (matches_boundary p c ≡ some b)
unfolding matches_boundary
matches_boundary-some p c e h =
    let (d, f) =
      get_elem?-some (p.boundary ++ 0 ∷ []) p.index
        (omega (arith, length-c_str p.boundary, length-append p.boundary (0 ∷ []))) in
    (c == d && ltb d 128, rw (f, matches_boundary))

update_back-some :
    (f : Part → Part) (xs : List Part)
    → 0 < length xs
    → (ys : List Part) × (update_back f xs ≡ some ys) × (0 < length ys)
unfolding update_back
update_back-some f [] h = absurd (omega arith)
update_back-some f (x ∷ []) h = (f x ∷ [], refl, omega arith)
update_back-some f (x ∷ y ∷ xs) h =
    let (ys, e, _) = update_back-some f (y ∷ xs) (omega arith) in (x ∷ ys, rw e, omega arith)

-- A callback that leaves all but the parts, and keeps one open.
abbrev Fine : (Parser → Type 0) → Callback → Type 0
Fine P none = ⊥
Fine P (some (code, q)) = (code ≡ 0) × P q

abbrev pub Safe : Verdict → Type 0
Safe (accept q) = IsValid q
Safe (reject q) = IsValid q
Safe stuck = ⊥

-- `q` is `p` but for its texts and its parts.
pub record SameShape (p q : Parser) : Type 0 where
  pub same_boundary : q.boundary ≡ p.boundary
  pub same_len : q.boundary_len ≡ p.boundary_len
  pub same_index : q.index ≡ p.index
  pub same_state : q.state ≡ p.state
  pub open_part : 0 < length q.parts

pub on_data-Fine :
    (p : Parser) (bs : Bytes) → 0 < length p.parts → Fine (SameShape p) (on_data p bs)
unfolding on_data
on_data-Fine p bs h =
    let (ys, e, l) = update_back-some (λ part. record part { body = part.body ++ bs }) p.parts h in
    rw e (
      refl,
      record {
        same_boundary = refl;
        same_len = refl;
        same_index = refl;
        same_state = refl;
        open_part = l;
      },
    )

pub on_header_value-Fine :
    (p : Parser) (bs : Bytes) → 0 < length p.parts → Fine (SameShape p) (on_header_value p bs)
unfolding on_header_value
on_header_value-Fine p bs h = (refl, ground arith)

pub on_header_done-Fine :
    (p : Parser) (bs : Bytes) → 0 < length p.parts → Fine (SameShape p) (on_header_field p bs)
unfolding on_header_field
on_header_done-Fine p bs h = elim (Bool-cases (ltb 0 (length p.header_value))) [
  | inl e ↦
      let (ys, u, l) =
        update_back-some
          (λ part. record part { headers = assign p.header_name p.header_value part.headers })
          p.parts h in
      rw (e, u) (refl, ground arith)
  | inr e ↦ rw e (refl, ground arith)
]

pub on_headers_complete-Fine :
    (p : Parser) → 0 < length p.parts → Fine (SameShape p) (on_headers_complete p)
unfolding on_headers_complete
on_headers_complete-Fine p h = elim (Bool-cases (ltb 0 (length p.header_value))) [
  | inl e ↦
      let (ys, u, l) =
        update_back-some
          (λ part. record part { headers = assign p.header_name p.header_value part.headers })
          p.parts h in
      rw (e, u) (refl, ground arith)
  | inr e ↦ rw e (refl, ground arith)
]

pub receive-Safe :
    (P : Parser → Type 0) (r : Callback) (k : Parser → Verdict)
    → Fine P r
    → ((q : Parser) → P q → Safe (k q))
    → Safe (receive r k)
receive-Safe P none k f h = f
receive-Safe P (some (code, q)) k (z, f) h = rw z (h q f)

pub PartOpen-intro : (s : State) (ps : List Part) → 0 < length ps → PartOpen s ps
PartOpen-intro s_preamble ps h = tt
PartOpen-intro s_preamble_hy_hy ps h = tt
PartOpen-intro s_first_boundary ps h = tt
PartOpen-intro _ ps h = h

abbrev pub LenFits : Parser → Type 0
LenFits p = p.boundary_len ≡ length (c_str p.boundary)

-- A state may be entered with an open part and an index that fits.
pub enter-IsValid :
    (p : Parser) (s : State)
    → LenFits p
    → 0 < length p.parts
    → IndexFits s p.index p.boundary_len
    → IsValid (goto_state p s)
enter-IsValid p s l h i = record { len = l; index_fits = i; part_open = PartOpen-intro s p.parts h }

pub SameShape-LenFits : (p q : Parser) → SameShape p q → LenFits p → LenFits q
SameShape-LenFits p q f l = f.same_len ∙ l ∙ ap (λ b. length (c_str b)) (sym f.same_boundary)

-- The same state with the same index, after a callback.
pub stay-IsValid :
    (p q : Parser) (s : State)
    → SameShape p q
    → LenFits p
    → p.state ≡ s
    → ((i n : ℕ) → IndexFits s i n)
    → IsValid q
stay-IsValid p q s f l e i =
    let e' : q.state ≡ s = f.same_state ∙ e in
    record {
      len = SameShape-LenFits p q f l;
      index_fits = rw e' (i q.index q.boundary_len);
      part_open = PartOpen-intro q.state q.parts f.open_part;
    }
