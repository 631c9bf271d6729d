-- ===== src/Json/Number.antt =====
-- The reader on the digits of a number.
use project_test_demo.Common.{
  ℕ, zero, suc, ◌+◌, ◌-◌, ◌*◌, ◌^◌, ◌%◌, ◌≤◌, ◌<◌, true, false, ◌&&◌, [], ◌∷◌, ◌++◌, length,
  length-append, append_assoc, leb, ◌==◌, Bytes, ◌≡◌, refl, sym, ap, ◌∙◌, subst, arith,
}
use project_test_demo.Json.Token.{
  Token, TokenType, t_uint, Value, u64, ReaderT, Run, ok, ◌>>=◌, read, take, skip,
}
use project_test_demo.Json.Lexer.{started, ended}
use project_test_demo.Json.Next.{
  set_value, digit, number_loop, parser_number, is_ctrl, other_case, without_sign, next_calls, next,
}
use project_test_demo.Json.Cursor.{Stands, Starts, read-Stands, take-Stands, length-Stands}

abbrev pub Digit : ℕ → Type 0
Digit c = (leb b'0' c && leb c b'9') ≡ true

abbrev pub AllDigits : Bytes → Type 0
AllDigits [] = Unit
AllDigits (c ∷ cs) = Digit c × AllDigits cs

-- The number that the digits behind some others make.
abbrev pub number : ℕ → Bytes → ℕ
number k [] = k
number k (c ∷ cs) = number (k * 10 + (c - b'0')) cs

le-number : (k : ℕ) (cs : Bytes) → k ≤ number k cs
le-number k [] = omega arith
le-number k (c ∷ cs) = let h = le-number (k * 10 + (c - b'0')) cs in omega arith

-- A byte that ends a number, and is no NUL.
abbrev pub Stops : ℕ → Type 0
Stops c = ((leb b'0' c && leb c b'9') ≡ false) × ((c == b'.') ≡ false) × ((c == 0) ≡ false)

Starts-digits :
    (cs : Bytes) (stop : ℕ) (rest : Bytes)
    → AllDigits cs
    → Stops stop
    → Starts (cs ++ (stop ∷ rest))
Starts-digits [] stop rest h s = s.2
Starts-digits (c ∷ cs) stop rest h s = let d = h.0 in ground arith

-- The number token that is read, and where the reader stands.
pub record ReadNumber (r : ReaderT) (tok : Token) (size : ℕ) (o : Run ReaderT) : Type 0 where
  pub last : ReaderT
  pub runs : o ≡ ok last
  pub token : last.cur_tok ≡ tok
  pub no_error : last.has_error ≡ r.has_error
  pub place : last.cur_offset ≡ r.cur_offset + size
  pub same_memory : last.mem ≡ r.mem
  pub same_len : last.len ≡ r.len
  pub open_ : last.end_mark ≡ false

number_loop-stop :
    (n : ℕ) (r : ReaderT) (c : ℕ) → Stops c → number_loop (suc n) r c ≡ ok (ended r 0)
unfolding number_loop
number_loop-stop n r c s = let a = s.0 in let b = s.1 in ground arith

digit-u64 :
    (r : ReaderT) (k d : ℕ)
    → r.cur_tok.type_ ≡ t_uint
    → r.cur_tok.value ≡ u64 k
    → k * 10 + d < 2 ^ 64
    → digit r r.cur_tok.type_ r.cur_tok.value d ≡ ok (set_value r t_uint (u64 (k * 10 + d)))
unfolding digit
digit-u64 r k d e f small =
    let fits : (k * 10 + d) % 2 ^ 64 ≡ k * 10 + d = omega arith in
    ap (λ t. digit r t r.cur_tok.value d) e
    ∙ ap (λ v. digit r t_uint v d) f
    ∙ ap (λ x. ok (set_value r t_uint (u64 x))) fits

number_loop-digit :
    (n c : ℕ) (r : ReaderT)
    → Digit c
    → number_loop (suc n) r c ≡ (
        digit r r.cur_tok.type_ r.cur_tok.value (c - b'0') >>= λ s.
        take s >>= λ t. read t >>= λ d. number_loop n t d)
unfolding number_loop
number_loop-digit n c r d = ground arith

-- The loop, from its next read on.
abbrev loop_from : ℕ → ReaderT → Run ReaderT
loop_from n r = read r >>= λ c. number_loop n r c

-- The token at the end of the loop.
abbrev pub numbered : ReaderT → ℕ → ℕ → Token
numbered r value size = record (r.cur_tok) {
  type_ = t_uint;
  value = u64 value;
  len = (2 ^ 64 + (r.cur_offset + size) - 0 - r.cur_tok.str) % 2 ^ 64;
}

number_loop-digits :
    (ds : Bytes) (n : ℕ) (r : ReaderT) (done gap : Bytes) (k stop : ℕ) (rest : Bytes)
    → AllDigits ds
    → Stops stop
    → Stands r done gap (ds ++ (stop ∷ rest))
    → r.cur_tok.type_ ≡ t_uint
    → r.cur_tok.value ≡ u64 k
    → number k ds < 2 ^ 64
    → length ds ≤ n
    → ReadNumber r (numbered r (number k ds) (length ds)) (length ds) (loop_from (suc n) r)
unfolding set_value ended
number_loop-digits [] n r done gap k stop rest a s h e f small enough =
    let sized : ℕ → ℕ = λ off. (2 ^ 64 + off - 0 - r.cur_tok.str) % 2 ^ 64 in
    let shape : TokenType → Value → ℕ → Token =
      λ t v off. record (r.cur_tok) { type_ = t; value = v; len = sized off } in
    let here : r.cur_offset ≡ r.cur_offset + 0 = omega arith in
    record {
      last = ended r 0;
      runs =
          ap (λ o. o >>= λ c. number_loop (suc n) r c) (read-Stands r done gap stop rest h)
          ∙ number_loop-stop n r stop s;
      token =
          ap (λ t. shape t r.cur_tok.value r.cur_offset) e
          ∙ ap (λ v. shape t_uint v r.cur_offset) f
          ∙ ap (shape t_uint (u64 k)) here;
      no_error = refl;
      place = omega arith;
      same_memory = refl;
      same_len = refl;
      open_ = h.open_;
    }
number_loop-digits (c ∷ cs) zero r done gap k stop rest a s h e f small enough =
    absurd (omega arith)
number_loop-digits (c ∷ cs) (suc n) r done gap k stop rest a s h e f small enough =
    let k' = k * 10 + (c - b'0') in
    let bound = le-number k' cs in
    let t = set_value r t_uint (u64 k') in
    let ht : Stands t done gap (c ∷ (cs ++ (stop ∷ rest))) = record {
      memory = h.memory;
      place = h.place;
      open_ = h.open_;
      whole = h.whole;
    } in
    let (u, taken, stands, same) =
      take-Stands t done gap c (cs ++ (stop ∷ rest)) ht (Starts-digits cs stop rest a.1 s) in
    let tok = same.same_tok in
    let ih =
      number_loop-digits cs n u done (gap ++ (c ∷ [])) k' stop rest a.1 s stands
        (ap (λ (x : Token). x.type_) tok) (ap (λ (x : Token). x.value) tok) small (omega arith) in
    let moved : u.cur_offset ≡ r.cur_offset + 1 =
      omega (arith, stands.place, h.place, length-append gap (c ∷ [])) in
    let shape : ℕ → Token → Token = λ off x. record x {
      type_ = t_uint;
      value = u64 (number k' cs);
      len = (2 ^ 64 + off - 0 - x.str) % 2 ^ 64;
    } in
    let further : u.cur_offset + length cs ≡ r.cur_offset + suc (length cs) = omega arith in
    record {
      last = ih.last;
      runs =
          ap (λ o. o >>= λ x. number_loop (suc (suc n)) r x)
            (read-Stands r done gap c (cs ++ (stop ∷ rest)) h)
          ∙ number_loop-digit (suc n) c r a.0
          ∙ ap (λ o. o >>= λ x. take x >>= λ y. read y >>= λ d. number_loop (suc n) y d)
              (digit-u64 r k (c - b'0') e f (omega arith))
          ∙ ap (λ o. o >>= λ y. read y >>= λ d. number_loop (suc n) y d) taken
          ∙ ih.runs;
      token =
          ih.token
          ∙ ap (shape (u.cur_offset + length cs)) tok
          ∙ ap (λ off. shape off r.cur_tok) further;
      no_error = ih.no_error ∙ same.same_error;
      place = omega (arith, ih.place);
      same_memory =
          ih.same_memory
          ∙ stands.memory
          ∙ ap (λ x. done ++ x) (append_assoc gap (c ∷ []) (cs ++ (stop ∷ rest)))
          ∙ sym h.memory;
      same_len = ih.same_len ∙ same.same_len;
      open_ = ih.open_;
    }

parser_number-digits :
    (c : ℕ) (cs : Bytes) (n : ℕ) (r : ReaderT) (before : Bytes) (stop : ℕ) (rest : Bytes)
    → AllDigits (c ∷ cs)
    → Stops stop
    → Stands r before [] (c ∷ (cs ++ (stop ∷ rest)))
    → r.cur_tok.type_ ≡ t_uint
    → r.cur_tok.value ≡ u64 (c - b'0')
    → number 0 (c ∷ cs) < 2 ^ 64
    → length cs ≤ n
    → r.len < 2 ^ 64
    → ReadNumber r
        (record (r.cur_tok) {
          str = r.cur_offset;
          value = u64 (number 0 (c ∷ cs));
          type_ = t_uint;
          len = suc (length cs);
        })
        (suc (length cs))
        (parser_number (suc n) r)
unfolding parser_number started
parser_number-digits c cs n r before stop rest a s h e f small enough size_t =
    let b = started r in
    let hb : Stands b before [] (c ∷ (cs ++ (stop ∷ rest))) = record {
      memory = h.memory;
      place = h.place;
      open_ = h.open_;
      whole = h.whole;
    } in
    let (u, taken, stands, same) =
      take-Stands b before [] c (cs ++ (stop ∷ rest)) hb (Starts-digits cs stop rest a.1 s) in
    let tok = same.same_tok in
    let first : 0 * 10 + (c - b'0') ≡ c - b'0' = omega arith in
    let t =
      number_loop-digits cs n u before (c ∷ []) (c - b'0') stop rest a.1 s stands
        (ap (λ (x : Token). x.type_) tok ∙ e) (ap (λ (x : Token). x.value) tok ∙ f)
        (subst (λ k. number k cs < 2 ^ 64) first small) enough in
    let size = length-Stands r before [] (c ∷ (cs ++ (stop ∷ rest))) h in
    let shape : Token → ℕ → ℕ → Token =
      λ x v l. record x { type_ = t_uint; value = u64 v; len = l } in
    let str_at : u.cur_tok.str ≡ r.cur_offset = ap (λ (x : Token). x.str) tok in
    let long : (2 ^ 64 + (u.cur_offset + length cs) - 0 - u.cur_tok.str) % 2 ^ 64
        ≡ suc (length cs) =
      omega (arith, str_at, stands.place, h.place, h.whole, size, length-append cs (stop ∷ rest)) in
    record {
      last = t.last;
      runs = ap (λ o. o >>= loop_from (suc n)) taken ∙ t.runs;
      token =
          t.token
          ∙ ap
              (λ x.
                shape x (number (c - b'0') cs)
                  ((2 ^ 64 + (u.cur_offset + length cs) - 0 - u.cur_tok.str) % 2 ^ 64))
              tok
          ∙ ap (shape b.cur_tok (number (c - b'0') cs)) long
          ∙ ap (λ k. shape b.cur_tok (number k cs) (suc (length cs))) (sym first);
      no_error = t.no_error ∙ same.same_error;
      place = omega (arith, t.place, stands.place, h.place);
      same_memory = t.same_memory ∙ stands.memory ∙ sym h.memory;
      same_len = t.same_len ∙ same.same_len;
      open_ = t.open_;
    }

next_calls-Digit :
    (calls n c : ℕ) (r : ReaderT)
    → Digit c
    → read r ≡ ok c
    → next_calls (suc calls) (suc n) r
      ≡ parser_number (suc n) (set_value (without_sign r) t_uint (u64 (c - b'0')))
unfolding next_calls skip other_case is_ctrl
next_calls-Digit calls n c r d e = ground (arith, e)

-- Digits that make a number below 2 ^ 64, and a byte behind them that is no digit, no point and no NUL:
-- `next` reads a token with exactly that number and those digits, without a sign, reports no error, and
-- stands behind the digits.
pub next-digits :
    (r : ReaderT) (before : Bytes) (c : ℕ) (cs : Bytes) (stop : ℕ) (rest : Bytes)
    → AllDigits (c ∷ cs)
    → Stops stop
    → Stands r before [] (c ∷ (cs ++ (stop ∷ rest)))
    → number 0 (c ∷ cs) < 2 ^ 64
    → r.len < 2 ^ 64
    → ReadNumber r
        (record {
          str = r.cur_offset;
          len = length (c ∷ cs);
          type_ = t_uint;
          value = u64 (number 0 (c ∷ cs));
          neg = false;
        })
        (length (c ∷ cs))
        (next r)
unfolding next without_sign set_value
next-digits r before c cs stop rest a s h small size_t =
    let w = set_value (without_sign r) t_uint (u64 (c - b'0')) in
    let hw : Stands w before [] (c ∷ (cs ++ (stop ∷ rest))) = record {
      memory = h.memory;
      place = h.place;
      open_ = h.open_;
      whole = h.whole;
    } in
    let n = length r.mem + 1 in
    let rounds : length r.mem + 2 ≡ suc n = omega arith in
    let size = length-Stands r before [] (c ∷ (cs ++ (stop ∷ rest))) h in
    let p =
      parser_number-digits c cs n w before stop rest a s hw refl refl small
        (omega (arith, size, length-append cs (stop ∷ rest))) size_t in
    record {
      last = p.last;
      runs =
          ap (λ k. next_calls k k r) rounds
          ∙ next_calls-Digit n n c r a.0 (read-Stands r before [] c (cs ++ (stop ∷ rest)) h)
          ∙ p.runs;
      token = p.token;
      no_error = p.no_error;
      place = p.place;
      same_memory = p.same_memory;
      same_len = p.same_len;
      open_ = p.open_;
    }
