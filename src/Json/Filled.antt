-- ===== src/Json/Filled.antt =====
-- The reader fills a character into the place that escapes have set free, and goes on.
use project_test_demo.Common.{
  ℕ, suc, ◌-◌, false, [], ◌∷◌, ◌++◌, length, length-append, append_assoc, ltb, Bytes, ◌≡◌, refl,
  sym, ap, ◌∙◌, arith,
}
use project_test_demo.Json.Token.{ReaderT, Run, ok, ◌>>=◌, put_at, take, fill_escape_char}
use project_test_demo.Json.Cursor.{
  Stands, SameRest, SameRest-trans, Starts, put_at-length, take-Stands,
}

-- The state behind `fill_escape_char(esc_count, e)` and `take()`.
pub record Filled (r : ReaderT) (done gap : Bytes) (e : ℕ) (rest : Bytes) (o : Run ReaderT)
    : Type 0 where
  pub after : ReaderT
  pub runs : o ≡ ok after
  pub new_gap : Bytes
  pub same_size : length new_gap ≡ length gap
  pub stands : Stands after (done ++ (e ∷ [])) new_gap rest
  pub same : SameRest r after

shift-append : (xs : Bytes) (c : ℕ) (ys : Bytes) → xs ++ (c ∷ ys) ≡ (xs ++ (c ∷ [])) ++ ys
shift-append xs c ys = sym (append_assoc xs (c ∷ []) ys)

-- Without a gap the character is there already.
Filled-nil :
    (r : ReaderT) (done : Bytes) (c : ℕ) (rest : Bytes)
    → Stands r done [] (c ∷ rest)
    → Starts rest
    → Filled r done [] c rest (take r)
Filled-nil r done c rest h starts =
    let (s, taken, stands, same) = take-Stands r done [] c rest h starts in
    record {
      after = s;
      runs = taken;
      new_gap = [];
      same_size = refl;
      stands = record {
        memory = stands.memory ∙ shift-append done c rest;
        place = omega (arith, stands.place, length-append done (c ∷ []));
        open_ = stands.open_;
        whole = stands.whole;
      };
      same = same;
    }

fill-cons :
    (r : ReaderT) (done : Bytes) (g : ℕ) (gs : Bytes) (e c : ℕ) (rest : Bytes)
    → Stands r done (g ∷ gs) (c ∷ rest)
    → (s : ReaderT) × (fill_escape_char r (length (g ∷ gs)) e ≡ ok s)
      × Stands s (done ++ (e ∷ [])) gs (c ∷ rest)
      × SameRest r s
unfolding fill_escape_char
fill-cons r done g gs e c rest h =
    let mem' = done ++ (e ∷ (gs ++ (c ∷ rest))) in
    let i : r.cur_offset - length (g ∷ gs) ≡ length done = omega (arith, h.place) in
    let inside : ltb r.cur_offset (length (g ∷ gs)) ≡ false = let p = h.place in ground arith in
    let put : put_at r.mem (r.cur_offset - length (g ∷ gs)) e ≡ ok mem' =
      ap (λ k. put_at r.mem k e) i
      ∙ ap (λ m. put_at m (length done) e) h.memory
      ∙ put_at-length done g e (gs ++ (c ∷ rest)) in
    let size : length mem' ≡ length r.mem = omega (
      arith,
      ap length h.memory,
      length-append done (e ∷ (gs ++ (c ∷ rest))),
      length-append done (g ∷ (gs ++ (c ∷ rest))),
    ) in
    (
      record r { mem = mem' },
      rw inside (ap (λ o. o >>= λ m. ok (record r { mem = m })) put),
      record {
        memory = shift-append done e (gs ++ (c ∷ rest));
        place = omega (arith, h.place, length-append done (e ∷ []));
        open_ = h.open_;
        whole = omega (arith, size, h.whole);
      },
      record { same_tok = refl; same_error = refl; same_len = refl },
    )

Filled-cons :
    (r : ReaderT) (done : Bytes) (g : ℕ) (gs : Bytes) (e c : ℕ) (rest : Bytes)
    → Stands r done (g ∷ gs) (c ∷ rest)
    → Starts rest
    → Filled r done (g ∷ gs) e rest (fill_escape_char r (length (g ∷ gs)) e >>= take)
Filled-cons r done g gs e c rest h starts =
    let (s, filled, stands, same) = fill-cons r done g gs e c rest h in
    let (t, taken, stands', same') = take-Stands s (done ++ (e ∷ [])) gs c rest stands starts in
    record {
      after = t;
      runs = ap (λ o. o >>= take) filled ∙ taken;
      new_gap = gs ++ (c ∷ []);
      same_size = omega (arith, length-append gs (c ∷ []));
      stands = stands';
      same = SameRest-trans r s t same same';
    }

-- A character that stands for itself.
pub Filled-plain :
    (r : ReaderT) (done gap : Bytes) (c : ℕ) (rest : Bytes)
    → Stands r done gap (c ∷ rest)
    → Starts rest
    → Filled r done gap c rest (fill_escape_char r (length gap) c >>= take)
unfolding fill_escape_char
Filled-plain r done [] c rest h starts = Filled-nil r done c rest h starts
Filled-plain r done (g ∷ gs) c rest h starts = Filled-cons r done g gs c c rest h starts

-- The letter of an escape, behind its backslash.
pub Filled-escape :
    (r : ReaderT) (done gap : Bytes) (b e c : ℕ) (rest : Bytes)
    → Stands r done (gap ++ (b ∷ [])) (c ∷ rest)
    → Starts rest
    → Filled r done (gap ++ (b ∷ [])) e rest (fill_escape_char r (suc (length gap)) e >>= take)
Filled-escape r done [] b e c rest h starts = Filled-cons r done b [] e c rest h starts
Filled-escape r done (g ∷ gs) b e c rest h starts =
    let size : suc (length (g ∷ gs)) ≡ length (g ∷ (gs ++ (b ∷ []))) =
      omega (arith, length-append gs (b ∷ [])) in
    let p = Filled-cons r done g (gs ++ (b ∷ [])) e c rest h starts in
    record {
      after = p.after;
      runs = ap (λ k. fill_escape_char r k e >>= take) size ∙ p.runs;
      new_gap = p.new_gap;
      same_size = p.same_size;
      stands = p.stands;
      same = p.same;
    }
