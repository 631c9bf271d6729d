-- ===== src/Json/Cursor.antt =====
-- The reader in the middle of its memory: what is read, passed over and filled in there.
use project_test_demo.Common.{
  ℕ, suc, ◌+◌, ◌≤◌, false, [], ◌∷◌, ◌++◌, length, length-append, append_assoc, ◌==◌, Bytes, ◌≡◌,
  refl, sym, ap, ◌∙◌, arith,
}
use project_test_demo.Json.Token.{ReaderT, ok, ◌>>=◌, byte_at, put_at, read, moved, take}

-- The memory is `done`, `gap` and `rest`; the reader stands before `rest`, which is not at the end.
-- `done` is what the token holds, and `gap` the bytes that its escapes have set free.
pub record Stands (r : ReaderT) (done gap rest : Bytes) : Type 0 where
  pub memory : r.mem ≡ done ++ (gap ++ rest)
  pub place : r.cur_offset ≡ length done + length gap
  pub open_ : r.end_mark ≡ false
  pub whole : length r.mem ≤ r.len

-- What a parser of characters leaves alone.
pub record SameRest (r s : ReaderT) : Type 0 where
  pub same_tok : s.cur_tok ≡ r.cur_tok
  pub same_error : s.has_error ≡ r.has_error
  pub same_len : s.len ≡ r.len

pub SameRest-trans : (r s t : ReaderT) → SameRest r s → SameRest s t → SameRest r t
SameRest-trans r s t a b = record {
  same_tok = b.same_tok ∙ a.same_tok;
  same_error = b.same_error ∙ a.same_error;
  same_len = b.same_len ∙ a.same_len;
}

-- A byte stands first that is no NUL.
abbrev pub Starts : Bytes → Type 0
Starts [] = ⊥
Starts (c ∷ cs) = (c == 0) ≡ false

pub byte_at-length : (xs : Bytes) (c : ℕ) (ys : Bytes) → byte_at (xs ++ (c ∷ ys)) (length xs) ≡ ok c
byte_at-length [] c ys = refl
byte_at-length (x ∷ xs) c ys = byte_at-length xs c ys

pub put_at-length :
    (xs : Bytes) (c v : ℕ) (ys : Bytes)
    → put_at (xs ++ (c ∷ ys)) (length xs) v ≡ ok (xs ++ (v ∷ ys))
put_at-length [] c v ys = refl
put_at-length (x ∷ xs) c v ys = ap (λ o. o >>= λ after. ok (x ∷ after)) (put_at-length xs c v ys)

pub byte_at-Stands :
    (r : ReaderT) (done gap : Bytes) (c : ℕ) (rest : Bytes)
    → Stands r done gap (c ∷ rest)
    → byte_at r.mem r.cur_offset ≡ ok c
byte_at-Stands r done gap c rest h =
    let i : r.cur_offset ≡ length (done ++ gap) = h.place ∙ sym (length-append done gap) in
    ap (byte_at r.mem) i
    ∙ ap (λ m. byte_at m (length (done ++ gap))) (h.memory ∙ sym (append_assoc done gap (c ∷ rest)))
    ∙ byte_at-length (done ++ gap) c rest

pub read-Stands :
    (r : ReaderT) (done gap : Bytes) (c : ℕ) (rest : Bytes)
    → Stands r done gap (c ∷ rest)
    → read r ≡ ok c
unfolding read
read-Stands r done gap c rest h =
    let here = byte_at-Stands r done gap c rest h in let o = h.open_ in ground arith

-- The byte behind the one where the reader stands.
byte_after-Stands :
    (r : ReaderT) (done gap : Bytes) (c d : ℕ) (rest : Bytes)
    → Stands r done gap (c ∷ d ∷ rest)
    → byte_at r.mem (suc r.cur_offset) ≡ ok d
byte_after-Stands r done gap c d rest h =
    let i : suc r.cur_offset ≡ length ((done ++ gap) ++ (c ∷ [])) =
      omega (arith, h.place, length-append done gap, length-append (done ++ gap) (c ∷ [])) in
    let m : r.mem ≡ ((done ++ gap) ++ (c ∷ [])) ++ (d ∷ rest) =
      h.memory
      ∙ sym (append_assoc done gap (c ∷ d ∷ rest))
      ∙ sym (append_assoc (done ++ gap) (c ∷ []) (d ∷ rest)) in
    ap (byte_at r.mem) i
    ∙ ap (λ x. byte_at x (length ((done ++ gap) ++ (c ∷ [])))) m
    ∙ byte_at-length ((done ++ gap) ++ (c ∷ [])) d rest

-- What `take` does before a byte that may be the NUL at the end.
pub take-byte :
    (r : ReaderT) (done gap : Bytes) (c d : ℕ) (rest : Bytes)
    → Stands r done gap (c ∷ d ∷ rest)
    → take r ≡ ok (moved r d)
unfolding take
take-byte r done gap c d rest h =
    let there = byte_after-Stands r done gap c d rest h in let o = h.open_ in ground arith

pub length-Stands :
    (r : ReaderT) (done gap rest : Bytes)
    → Stands r done gap rest
    → length r.mem ≡ length done + length gap + length rest
length-Stands r done gap rest h =
    ap length h.memory ∙ omega (arith, length-append done (gap ++ rest), length-append gap rest)

pub take-Stands :
    (r : ReaderT) (done gap : Bytes) (c : ℕ) (rest : Bytes)
    → Stands r done gap (c ∷ rest)
    → Starts rest
    → (s : ReaderT) × (take r ≡ ok s) × Stands s done (gap ++ (c ∷ [])) rest × SameRest r s
unfolding moved
take-Stands r done gap c [] h starts = absurd starts
take-Stands r done gap c (d ∷ rest) h starts =
    let size = length-Stands r done gap (c ∷ d ∷ rest) h in
    (
      moved r d,
      take-byte r done gap c d rest h,
      record {
        memory = h.memory ∙ ap (λ x. done ++ x) (sym (append_assoc gap (c ∷ []) (d ∷ rest)));
        place = omega (arith, h.place, length-append gap (c ∷ []));
        open_ = let p = h.place in let w = h.whole in ground arith;
        whole = h.whole;
      },
      record { same_tok = refl; same_error = refl; same_len = refl },
    )
