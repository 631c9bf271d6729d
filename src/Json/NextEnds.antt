-- ===== src/Json/NextEnds.antt =====
-- `next` comes to an end, and an error that was reported stays.
use project_test_demo.Common.{
  ℕ, zero, suc, ◌+◌, ◌-◌, ◌*◌, ◌≤◌, ◌<◌, Bool, false, ◌&&◌, ◌||◌, none, some, ltb, leb, ◌==◌, ◌^◌,
  ◌%◌, ◌≡◌, refl, arith, inl, inr,
}
use project_test_demo.Json.Token.{
  TokenType, t_int, t_uint, t_number, Value, i64, u64, d64, ReaderT, Run, ok, undefined, ◌>>=◌,
  error, read, take, skip, fill_escape_char,
}
use project_test_demo.Json.Lexer.{escape_utf8, started}
use project_test_demo.Json.Next.{
  plain_escape, ends_string, string_loop, parser_string, set_value, digit, point, number_loop,
  parser_number, line_loop, block_loop, next,
}
use project_test_demo.Json.Kept.{
  Goes, left, Kept, Kept-self, Kept-trans, Stepped, bind-Goes, weaken-Goes, IsNext, read-Goes,
  take-Goes, error-Kept, fill_escape_char-Goes, if-Goes, elim-Goes, option-Goes,
}
use project_test_demo.Json.Ends.{
  Fuel, Fuel-length, Fuel-step, Fuel-byte, Rounds, take-Kept, advance-Goes, filled-Goes,
  escape_utf8-Goes, ended-Kept, started-Kept,
}

-- What a call that starts here keeps, kept from where it was called.
pub from-Goes : (r s : ReaderT) (o : Run ReaderT) → Kept r s → Goes (Kept s) o → Goes (Kept r) o
from-Goes r s o a h = weaken-Goes (Kept s) (Kept r) o h (λ t b. Kept-trans r s t a b)

ne-nul : (d : ℕ) → d ≡ 0 → (d == 0) ≡ false → ⊥
ne-nul d z e = ground arith

-- A parser that passes over its first byte and goes on with the next.
pub begin-Goes :
    (n : ℕ) (r : ReaderT) (f : ReaderT → ℕ → Run ReaderT)
    → Rounds n r
    → ((s : ReaderT) (c : ℕ) → Fuel n s c → Goes (Kept s) (f s c))
    → Goes (Kept r) (take r >>= λ s. read s >>= λ c. f s c)
begin-Goes n r f h go = bind-Goes (Kept r) (Kept r) (take r) _ (take-Kept r) (λ s a.
    bind-Goes (IsNext s) (Kept r) (read s) _ (read-Goes s) (λ c next.
      from-Goes r s (f s c) a (go s c (Fuel-length n s c (let e = a.size in omega arith)))))

-- A byte that is no NUL was read behind the step, so the step came closer to the end.
nearer-byte :
    (r s : ReaderT) (d : ℕ) → Stepped r s → IsNext s d → (d == 0) ≡ false → left s < left r
nearer-byte r s d a next e = elim a.nearer [
  | inl near ↦ near
  | inr z ↦ absurd (ne-nul d (next.0 z) e)
]

Fuel-near :
    (n : ℕ) (r s t : ReaderT) (d : ℕ) → left r + 2 ≤ suc n → left s < left r → Kept s t → Fuel n t d
Fuel-near n r s t d room near b = let x = b.fewer in (omega arith, inr (omega arith))

string_loop-Goes :
    (n : ℕ) (r : ReaderT) (c k : ℕ) → Fuel n r c → Goes (Kept r) (string_loop n r c k)
unfolding string_loop
string_loop-Goes zero r c k h = absurd (omega (arith, h.0))
string_loop-Goes (suc n) r c k h =
    elim-Goes (Kept r) (c == 0) _ _ (λ e. error-Kept r)
      (λ no_end.
        let room : left r + 2 ≤ suc n = Fuel-byte n r c h no_end in
        elim-Goes (Kept r) (c == b'\\') _ _
          (λ e. bind-Goes (Stepped r) (Kept r) (take r) _ (take-Goes r) (λ s a.
            bind-Goes (IsNext s) (Kept r) (read s) _ (read-Goes s) (λ d next.
              elim-Goes (Kept r) (d == b'u') _ _
                (λ u. bind-Goes (Kept s) (Kept r) (take s) _ (take-Kept s) (λ t b.
                  bind-Goes (λ p. Kept t p.0) (Kept r) (escape_utf8 t k) _ (escape_utf8-Goes t k)
                    (λ p g.
                      let f = Kept-trans s t p.0 b g in
                      from-Goes r p.0 (string_loop n p.0 d p.1) (Kept-trans r s p.0 a.kept f) (
                        string_loop-Goes n p.0 d p.1 (
                          Fuel-near n r s p.0 d room (nearer-byte r s d a next (ground arith))
                            f)))))
                (λ u.
                  bind-Goes (Kept s) (Kept r)
                    (elim (plain_escape d) [
                      | none ↦ fill_escape_char (error s) (suc k) d
                      | some x ↦ fill_escape_char s (suc k) x
                    ])
                    _
                    (option-Goes (Kept s) (plain_escape d) _ _
                      (from-Goes s (error s) (fill_escape_char (error s) (suc k) d) (error-Kept s)
                        (fill_escape_char-Goes (error s) (suc k) d))
                      (λ x. fill_escape_char-Goes s (suc k) x))
                    (λ t b.
                      advance-Goes n t (Kept r) (λ v f. string_loop n v f (suc k))
                        (let x = b.fewer in let y = a.kept.fewer in omega arith)
                        (λ v f g fuel.
                          from-Goes r v (string_loop n v f (suc k))
                            (Kept-trans r s v a.kept (Kept-trans s t v b g))
                            (string_loop-Goes n v f (suc k) fuel)))))))
          (λ plain.
            elim-Goes (Kept r) (ends_string c) _ _ (λ e. ended-Kept r k)
              (λ e.
                filled-Goes n r k c (Kept r) (λ u f. string_loop n u f k) room
                  (λ u f a fuel.
                    from-Goes r u (string_loop n u f k) a (string_loop-Goes n u f k fuel)))))

pub parser_string-Goes : (n : ℕ) (r : ReaderT) → Rounds n r → Goes (Kept r) (parser_string n r)
unfolding parser_string
parser_string-Goes n r h =
    let s = started r in
    let a = started-Kept r in
    from-Goes r s (take s >>= λ t. read t >>= λ c. string_loop n t c 0) a (
      begin-Goes n s (λ t c. string_loop n t c 0) (let e = a.size in omega arith)
        (λ t c fuel. string_loop-Goes n t c 0 fuel))

pub set_value-Kept : (r : ReaderT) (t : TokenType) (v : Value) → Kept r (set_value r t v)
unfolding set_value
set_value-Kept r t v = record { size = refl; fewer = omega arith; stays = λ h. h; sticky = λ h. h }

digit-Goes : (r : ReaderT) (t : TokenType) (v : Value) (d : ℕ) → Goes (Kept r) (digit r t v d)
unfolding digit set_value
digit-Goes r t_int (i64 k) d =
    if-Goes (Kept r) (ltb (k * 10 + d) (2 ^ 63)) (ok (set_value r t_int (i64 (k * 10 + d))))
      undefined (set_value-Kept r t_int (i64 (k * 10 + d))) tt
digit-Goes r t_uint (u64 k) d = set_value-Kept r t_uint (u64 ((k * 10 + d) % 2 ^ 64))
digit-Goes r t_number (d64 x) d = record {
  size = refl;
  fewer = omega arith;
  stays = λ h. h;
  sticky = λ h. h;
}
digit-Goes r _ _ d = Kept-self r

point-Kept : (r : ReaderT) (t : TokenType) (v : Value) → Kept r (point r t v)
unfolding point set_value
point-Kept r t_int (i64 k) = record {
  size = refl;
  fewer = omega arith;
  stays = λ h. h;
  sticky = λ h. h;
}
point-Kept r t_uint (u64 k) = record {
  size = refl;
  fewer = omega arith;
  stays = λ h. h;
  sticky = λ h. h;
}
point-Kept r t_number (i64 k) = error-Kept r
point-Kept r t_number (u64 k) = error-Kept r
point-Kept r t_number (d64 k) = error-Kept r
point-Kept r _ _ = Kept-self r

number_loop-Goes : (n : ℕ) (r : ReaderT) (c : ℕ) → Fuel n r c → Goes (Kept r) (number_loop n r c)
unfolding number_loop
number_loop-Goes zero r c h = absurd (omega (arith, h.0))
number_loop-Goes (suc n) r c h =
    elim-Goes (Kept r) (leb b'0' c && leb c b'9') _ _
      (λ e.
        let room : left r + 2 ≤ suc n = Fuel-byte n r c h (ground arith) in
        bind-Goes (Kept r) (Kept r) (digit r r.cur_tok.type_ r.cur_tok.value (c - b'0')) _
          (digit-Goes r r.cur_tok.type_ r.cur_tok.value (c - b'0'))
          (λ s a.
            advance-Goes n s (Kept r) (λ t d. number_loop n t d) (let x = a.fewer in omega arith)
              (λ t d b fuel.
                from-Goes r t (number_loop n t d) (Kept-trans r s t a b)
                  (number_loop-Goes n t d fuel))))
      (λ e.
        elim-Goes (Kept r) (c == b'.') _ _
          (λ f.
            let room : left r + 2 ≤ suc n = Fuel-byte n r c h (ground arith) in
            let s = point r r.cur_tok.type_ r.cur_tok.value in
            let a = point-Kept r r.cur_tok.type_ r.cur_tok.value in
            advance-Goes n s (Kept r) (λ t d. number_loop n t d) (let x = a.fewer in omega arith)
              (λ t d b fuel.
                from-Goes r t (number_loop n t d) (Kept-trans r s t a b)
                  (number_loop-Goes n t d fuel)))
          (λ f. ended-Kept r 0))

pub parser_number-Goes : (n : ℕ) (r : ReaderT) → Rounds n r → Goes (Kept r) (parser_number n r)
unfolding parser_number
parser_number-Goes n r h =
    let s = started r in
    let a = started-Kept r in
    from-Goes r s (take s >>= λ t. read t >>= λ c. number_loop n t c) a (
      begin-Goes n s (λ t c. number_loop n t c) (let e = a.size in omega arith)
        (λ t c fuel. number_loop-Goes n t c fuel))

pub line_loop-Goes : (n : ℕ) (r : ReaderT) (c : ℕ) → Fuel n r c → Goes (Kept r) (line_loop n r c)
unfolding line_loop
line_loop-Goes zero r c h = absurd (omega (arith, h.0))
line_loop-Goes (suc n) r c h =
    elim-Goes (Kept r) (c == b'\n' || c == 0) _ _ (λ e. Kept-self r)
      (λ e.
        advance-Goes n r (Kept r) (λ s d. line_loop n s d) (Fuel-byte n r c h (ground arith))
          (λ s d a fuel. from-Goes r s (line_loop n s d) a (line_loop-Goes n s d fuel)))

abbrev pub KeptBeside : ReaderT → Bool × ReaderT → Type 0
KeptBeside r p = Kept r p.1

pub block_loop-Goes :
    (n : ℕ) (r : ReaderT) (c : ℕ) → Fuel n r c → Goes (KeptBeside r) (block_loop n r c)
unfolding block_loop
block_loop-Goes zero r c h = absurd (omega (arith, h.0))
block_loop-Goes (suc n) r c h =
    elim-Goes (KeptBeside r) (c == b'*') _ _
      (λ star. advance-Goes n r (KeptBeside r) _ (Fuel-byte n r c h (ground arith)) (λ s d a fuel.
        elim-Goes (KeptBeside r) (d == b'/') _ _
          (λ e.
            bind-Goes (Kept s) (KeptBeside r) (take s) _ (take-Kept s)
              (λ t b. Kept-trans r s t a b))
          (λ e.
            weaken-Goes (KeptBeside s) (KeptBeside r) (block_loop n s d)
              (block_loop-Goes n s d fuel) (λ p b. Kept-trans r s p.1 a b))))
      (λ other.
        elim-Goes (KeptBeside r) (c == 0) _ _ (λ e. Kept-self r)
          (λ e. advance-Goes n r (KeptBeside r) _ (Fuel-byte n r c h e) (λ s d a fuel.
            weaken-Goes (KeptBeside s) (KeptBeside r) (block_loop n s d)
              (block_loop-Goes n s d fuel) (λ p b. Kept-trans r s p.1 a b))))

pub skip-Goes :
    (n : ℕ) (r : ReaderT) (c : ℕ)
    → Fuel n r c
    → IsNext r c
    → Goes (λ p. Kept r p.1 × IsNext p.1 p.0) (skip n r c)
unfolding skip
skip-Goes zero r c h next = absurd (omega (arith, h.0))
skip-Goes (suc n) r c h next =
    elim-Goes (λ p. Kept r p.1 × IsNext p.1 p.0)
      (c == b' ' || c == b'\t' || c == b'\r' || c == b'\n') _ _
      (λ e.
        let room = Fuel-byte n r c h (ground arith) in
        bind-Goes (Stepped r) (λ p. Kept r p.1 × IsNext p.1 p.0) (take r) _ (take-Goes r)
          (λ s a.
            bind-Goes (IsNext s) (λ p. Kept r p.1 × IsNext p.1 p.0) (read s) _ (read-Goes s)
              (λ d after.
                weaken-Goes (λ p. Kept s p.1 × IsNext p.1 p.0) (λ p. Kept r p.1 × IsNext p.1 p.0)
                  (skip n s d)
                  (skip-Goes n s d (Fuel-step n r s s d room a (Kept-self s) after) after)
                  (λ p b. (Kept-trans r s p.1 a.kept b.0, b.1)))))
      (λ e. (Kept-self r, next))
