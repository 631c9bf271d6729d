-- ===== src/Json/Marks.antt =====
-- The reader on a token of one character, and at the end of the text.
use project_test_demo.Common.{
  ℕ, suc, ◌+◌, true, false, [], ◌∷◌, ◌++◌, length, length-append, append_assoc, ◌==◌, Bytes, ◌≡◌,
  refl, sym, ap, ◌∙◌, arith,
}
use project_test_demo.Json.Token.{t_ctrl, t_end, ReaderT, Run, ok, read, moved, take, skip}
use project_test_demo.Json.Next.{is_ctrl, mark, other_case, without_sign, next_calls, next}
use project_test_demo.Json.Skip.{token_byte}
use project_test_demo.Json.Cursor.{Stands, read-Stands, byte_at-Stands, take-byte, length-Stands}

-- A token of one character was read, and the next byte is d.
pub record ReadMark (r : ReaderT) (c d : ℕ) (rest : Bytes) (o : Run ReaderT) : Type 0 where
  pub last : ReaderT
  pub runs : o ≡ ok last
  pub is_mark : last.cur_tok.type_ ≡ t_ctrl
  pub here : token_byte last ≡ ok c
  pub no_error : last.has_error ≡ r.has_error
  pub same_len : last.len ≡ r.len
  pub same_memory : last.mem ≡ r.mem
  pub behind : Bytes
  pub stands : (d == 0) ≡ false → Stands last behind [] (d ∷ rest)
  pub ends : (d == 0) ≡ true → last.end_mark ≡ true

next_calls-mark :
    (calls n c d : ℕ) (r : ReaderT)
    → is_ctrl c ≡ true
    → read r ≡ ok c
    → take (mark (without_sign r) t_ctrl) ≡ ok (moved (mark (without_sign r) t_ctrl) d)
    → next_calls (suc calls) (suc n) r ≡ ok (moved (mark (without_sign r) t_ctrl) d)
unfolding next_calls skip other_case is_ctrl
next_calls-mark calls n c d r h e t = ground (arith, e, t)

pub next-mark :
    (r : ReaderT) (before : Bytes) (c d : ℕ) (rest : Bytes)
    → is_ctrl c ≡ true
    → Stands r before [] (c ∷ d ∷ rest)
    → ReadMark r c d rest (next r)
unfolding next mark without_sign moved token_byte
next-mark r before c d rest ctrl h =
    let m : ReaderT = mark (without_sign r) t_ctrl in
    let hm : Stands m before [] (c ∷ d ∷ rest) = record {
      memory = h.memory;
      place = h.place;
      open_ = h.open_;
      whole = h.whole;
    } in
    let n = length r.mem + 1 in
    let rounds : length r.mem + 2 ≡ suc n = omega arith in
    let size = length-Stands r before [] (c ∷ d ∷ rest) h in
    let open_now = h.open_ in
    let here = read-Stands r before [] c (d ∷ rest) h in
    record {
      last = moved m d;
      runs =
          ap (λ k. next_calls k k r) rounds
          ∙ next_calls-mark n n c d r ctrl here (take-byte m before [] c d rest hm);
      is_mark = refl;
      here = byte_at-Stands r before [] c (d ∷ rest) h;
      no_error = refl;
      same_len = refl;
      same_memory = refl;
      behind = before ++ (c ∷ []);
      stands = λ more. record {
        memory = h.memory ∙ sym (append_assoc before (c ∷ []) (d ∷ rest));
        place = omega (arith, h.place, length-append before (c ∷ []));
        open_ = ground (arith, h.place, h.whole, size, more);
        whole = h.whole;
      };
      ends = λ nul. ground (arith, nul);
    }

next_calls-end :
    (calls n : ℕ) (r : ReaderT)
    → r.end_mark ≡ true
    → next_calls (suc calls) (suc n) r ≡ ok (mark (without_sign r) t_end)
unfolding next_calls skip other_case read
next_calls-end calls n r e = ground (arith, e)

-- At the end of the text, `next` gives the token that says so, again and again.
pub next-end :
    (r : ReaderT)
    → r.end_mark ≡ true
    → (s : ReaderT) × (next r ≡ ok s) × (s.cur_tok.type_ ≡ t_end) × (s.has_error ≡ r.has_error)
unfolding next mark without_sign
next-end r e =
    let rounds : length r.mem + 2 ≡ suc (length r.mem + 1) = omega arith in
    let n = length r.mem + 1 in
    (
      mark (without_sign r) t_end,
      ap (λ k. next_calls k k r) rounds ∙ next_calls-end n n r e,
      refl,
      refl,
    )
