-- ===== src/Json/Finish.antt =====
-- `next` itself comes to an end, and an error that was reported stays.
use project_test_demo.Common.{
  ℕ, zero, suc, ◌+◌, ◌-◌, ◌<◌, Bool, true, false, ◌&&◌, length, leb, ◌==◌, ◌≡◌, refl, arith,
  Bool-cases, inl, inr,
}
use project_test_demo.Json.Token.{
  TokenType, t_string, t_int, t_uint, t_ctrl, t_end, i64, u64, ReaderT, error, read, take, skip,
}
use project_test_demo.Json.Lexer.{parser_quote_string}
use project_test_demo.Json.Next.{
  parser_string, set_value, parser_number, line_loop, block_loop, quote_case, line_comment,
  block_comment, slash_case, is_ctrl, mark, other_case, without_sign, next_calls, next,
}
use project_test_demo.Json.Kept.{
  Goes, left, Kept, Kept-trans, Stepped, bind-Goes, weaken-Goes, IsNext, read-Goes, take-Goes,
  error-Kept, if-Goes, elim-Goes,
}
use project_test_demo.Json.Ends.{
  Fuel-length, Rounds, take-Kept, left-le-length, parser_quote_string-Goes,
}
use project_test_demo.Json.NextEnds.{
  from-Goes, parser_string-Goes, parser_number-Goes, line_loop-Goes, block_loop-Goes, skip-Goes,
  set_value-Kept, KeptBeside,
}

quote_case-Goes : (n : ℕ) (r : ReaderT) → Rounds n r → Goes (Kept r) (quote_case n r)
unfolding quote_case
quote_case-Goes n r h =
    let s : ReaderT = record r { cur_tok = record (r.cur_tok) { type_ = t_string } } in
    from-Goes r s (parser_quote_string n s)
      (record { size = refl; fewer = omega arith; stays = λ t. t; sticky = λ t. t })
      (parser_quote_string-Goes n s h)

Rounds-Kept : (n : ℕ) (r s : ReaderT) → Kept r s → Rounds n r → Rounds n s
Rounds-Kept n r s a h = let e = a.size in omega arith

line_comment-Goes : (n : ℕ) (r : ReaderT) → Rounds n r → Goes (KeptBeside r) (line_comment n r)
unfolding line_comment
line_comment-Goes n r h = bind-Goes (Kept r) (KeptBeside r) (take r) _ (take-Kept r) (λ s a.
    bind-Goes (IsNext s) (KeptBeside r) (read s) _ (read-Goes s) (λ c next.
      bind-Goes (Kept s) (KeptBeside r) (line_loop n s c) _
        (line_loop-Goes n s c (Fuel-length n s c (Rounds-Kept n r s a h)))
        (λ t b. Kept-trans r s t a b)))

-- A comment in asterisks that is closed leaves an error.
abbrev pub Commented : ReaderT → Bool × ReaderT → Type 0
Commented r p = Kept r p.1 × (p.0 ≡ true → p.1.has_error ≡ true)

error-has_error : (r : ReaderT) → (error r).has_error ≡ true
unfolding error
error-has_error r = refl

-- What `next` does behind a slash and an asterisk ends within its rounds. Where the comment is closed,
-- the reader then has an error, whatever stands in the comment and behind it.
pub block_comment-has_error :
    (n : ℕ) (r : ReaderT) → Rounds n r → Goes (Commented r) (block_comment n r)
unfolding block_comment
block_comment-has_error n r h = bind-Goes (Kept r) (Commented r) (take r) _ (take-Kept r) (λ s a.
    bind-Goes (IsNext s) (Commented r) (read s) _ (read-Goes s) (λ c next.
      bind-Goes (KeptBeside s) (Commented r) (block_loop n s c) _
        (block_loop-Goes n s c (Fuel-length n s c (Rounds-Kept n r s a h)))
        (λ p b.
          let t = p.1 in
          let k = Kept-trans r s t a b in
          let e = error t in
          let m = Kept-trans r t e k (error-Kept t) in
          elim-Goes (Commented r) p.0 _ _
            (λ closed.
              bind-Goes (Kept e) (Commented r) (quote_case n e) _
                (quote_case-Goes n e (Rounds-Kept n r e m h))
                (λ u d. (Kept-trans r e u m d, λ z. d.sticky (error-has_error t))))
            (λ open_. (k, λ z. ground arith)))))

slash-left : (r : ReaderT) (c : ℕ) → IsNext r c → (c == b'/') ≡ true → 0 < left (without_sign r)
unfolding without_sign
slash-left r c next e = elim (Bool-cases r.end_mark) [
  | inl z ↦ let n = next.0 z in absurd (ground arith)
  | inr z ↦ next.1 z
]

-- Kept, and closer to the end.
abbrev Nearer : ReaderT → Bool × ReaderT → Type 0
Nearer r p = Kept r p.1 × (left p.1 < left r)

slash_case-Goes : (n : ℕ) (r : ReaderT) → Rounds n r → 0 < left r → Goes (Nearer r) (slash_case n r)
unfolding slash_case
slash_case-Goes n r h some_left = bind-Goes (Stepped r) (Nearer r) (take r) _ (take-Goes r) (λ s a.
    let near : left s < left r = elim a.nearer [ inl x ↦ x | inr e ↦ ground arith ] in
    let rounds = Rounds-Kept n r s a.kept h in
    let onward : (p : Bool × ReaderT) → Kept s p.1 → Nearer r p =
      λ p b. (Kept-trans r s p.1 a.kept b, let x = b.fewer in omega arith) in
    bind-Goes (IsNext s) (Nearer r) (read s) _ (read-Goes s) (λ c next.
      elim-Goes (Nearer r) (c == b'/') _ _
        (λ e.
          weaken-Goes (KeptBeside s) (Nearer r) (line_comment n s) (line_comment-Goes n s rounds)
            onward)
        (λ e.
          elim-Goes (Nearer r) (c == b'*') _ _
            (λ e.
              weaken-Goes (Commented s) (Nearer r) (block_comment n s)
                (block_comment-has_error n s rounds) (λ p b. onward p b.0))
            (λ e.
              let t = error s in
              let b = error-Kept s in
              bind-Goes (Kept t) (Nearer r) (quote_case n t) _
                (quote_case-Goes n t (Rounds-Kept n s t b rounds))
                (λ u d. onward (false, u) (Kept-trans s t u b d))))))

mark-Kept : (r : ReaderT) (t : TokenType) → Kept r (mark r t)
unfolding mark
mark-Kept r t = record { size = refl; fewer = omega arith; stays = λ h. h; sticky = λ h. h }

other_case-Goes : (n : ℕ) (r : ReaderT) (c : ℕ) → Rounds n r → Goes (Kept r) (other_case n r c)
unfolding other_case
other_case-Goes n r c h =
    let m = mark r t_ctrl in
    let u = set_value r t_uint (u64 (c - b'0')) in
    let i : ReaderT = record r {
      cur_tok = record (r.cur_tok) { type_ = t_int; value = i64 0; neg = true };
    } in
    let s : ReaderT = record r { cur_tok = record (r.cur_tok) { type_ = t_string } } in
    let same_i : Kept r i = record {
      size = refl;
      fewer = omega arith;
      stays = λ z. z;
      sticky = λ z. z;
    } in
    let same_s : Kept r s = record {
      size = refl;
      fewer = omega arith;
      stays = λ z. z;
      sticky = λ z. z;
    } in
    let k = set_value-Kept r t_uint (u64 (c - b'0')) in
    if-Goes (Kept r) (c == 0) _ _ (mark-Kept r t_end) (
      if-Goes (Kept r) (is_ctrl c) _ _ (from-Goes r m (take m) (mark-Kept r t_ctrl) (take-Kept m)) (
        if-Goes (Kept r) (c == b'"') _ _ (quote_case-Goes n r h) (
          if-Goes (Kept r) (leb b'0' c && leb c b'9') _ _
            (from-Goes r u (parser_number n u) k (parser_number-Goes n u (Rounds-Kept n r u k h)))
            (if-Goes (Kept r) (c == b'-') _ _
              (from-Goes r i (parser_number n i) same_i (parser_number-Goes n i h))
              (from-Goes r s (parser_string n s) same_s (parser_string-Goes n s h))))))

without_sign-Kept : (r : ReaderT) → Kept r (without_sign r)
unfolding without_sign
without_sign-Kept r = record { size = refl; fewer = omega arith; stays = λ h. h; sticky = λ h. h }

next_calls-Goes :
    (calls n : ℕ) (r : ReaderT) → Rounds n r → left r < calls → Goes (Kept r) (next_calls calls n r)
unfolding next_calls
next_calls-Goes zero n r h m = absurd (omega arith)
next_calls-Goes (suc calls) n r h m =
    bind-Goes (IsNext r) (Kept r) (read r) _ (read-Goes r) (λ first next.
      bind-Goes (λ p. Kept r p.1 × IsNext p.1 p.0) (Kept r) (skip n r first) _
        (skip-Goes n r first (Fuel-length n r first h) next)
        (λ p b.
          let s = without_sign p.1 in
          let a = Kept-trans r p.1 s b.0 (without_sign-Kept p.1) in
          elim-Goes (Kept r) (p.0 == b'/') _ _
            (λ slash.
              let full : 0 < left s = slash-left p.1 p.0 b.1 slash in
              bind-Goes (Nearer s) (Kept r) (slash_case n s) _
                (slash_case-Goes n s (Rounds-Kept n r s a h) full)
                (λ q d.
                  let e = Kept-trans r s q.1 a d.0 in
                  elim-Goes (Kept r) q.0 _ _
                    (λ again. from-Goes r q.1 (next_calls calls n q.1) e (
                      next_calls-Goes calls n q.1 (Rounds-Kept n r q.1 e h)
                        (let x = d.1 in let y = a.fewer in omega arith)))
                    (λ done. e)))
            (λ other.
              from-Goes r s (other_case n s p.0) a
                (other_case-Goes n s p.0 (Rounds-Kept n r s a h)))))

-- `next` ends, on every reader and every memory, within as many calls of itself as there are bytes, and
-- loops of as many rounds, and two more. It keeps the size of the memory, comes no further from the
-- end, stays at the end once it is there, and an error that was reported before stays reported.
pub next-Kept : (r : ReaderT) → Goes (Kept r) (next r)
unfolding next
next-Kept r =
    next_calls-Goes (length r.mem + 2) (length r.mem + 2) r (omega arith)
      (let x = left-le-length r in omega arith)
