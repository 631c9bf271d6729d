-- ===== src/Json/RoundTrip.antt =====
-- What `write_str` writes is read back by `next`.
use project_test_demo.Common.{
  ℕ, zero, suc, ◌+◌, ◌-◌, ◌^◌, ◌%◌, ◌≤◌, ◌<◌, Bool, true, false, ◌&&◌, ◌||◌, List, [], ◌∷◌, ◌++◌,
  length, length-append, append_assoc, append-nil, take-length, drop-length, ltb, leb, ◌==◌, Bytes,
  ◌≡◌, refl, sym, ap, ◌∙◌, subst, arith, Bool-cases, inl, inr,
}
use project_test_demo.Common as Common
use project_test_demo.Json.Escape.{escape_, piece, escaped, quoted_text}
use project_test_demo.Json.Token.{Token, byte_at, t_string, ReaderT, Run, ok, ◌>>=◌, read, skip}
use project_test_demo.Json.Lexer.{parser_quote_string, started}
use project_test_demo.Json.Next.{quote_case, is_ctrl, other_case, without_sign, next_calls, next}
use project_test_demo.Json.Cursor.{Stands, byte_at-length, read-Stands, take-Stands, length-Stands}
use project_test_demo.Json.Quote.{
  AllReadable, escaped-cons, piece-plain, piece-escape, coded, Starts-coded, onward,
}
use project_test_demo.Json.Skip.{token_byte}
use project_test_demo.Json.Values.{token_text}
use project_test_demo.Json.QuoteLoop.{quote_loop-coded}

length-piece : (c : ℕ) → 1 ≤ length (piece c)
length-piece c = elim (Bool-cases (escape_ c == 0)) [
  | inl e ↦ omega (arith, ap length (piece-plain c e))
  | inr e ↦ omega (arith, ap length (piece-escape c e))
]

length-escaped : (text : Bytes) → AllReadable text → length text ≤ length (escaped text)
unfolding escaped
length-escaped [] h = omega arith
length-escaped (c ∷ cs) h = omega (
  arith,
  ap length (escaped-cons c cs h.0),
  length-append (piece c) (escaped cs),
  length-piece c,
  length-escaped cs h.1,
)

-- The byte that a string token starts with: that of an empty text is the mark behind it.
abbrev pub opening : Bytes → ℕ
opening [] = b'"'
opening (c ∷ cs) = c

-- The token that was read: a string with this text, with no new error, and so many bytes further.
pub record ReadString (r : ReaderT) (text : Bytes) (size d : ℕ) (rest : Bytes) (o : Run ReaderT)
    : Type 0 where
  pub last : ReaderT
  pub runs : o ≡ ok last
  pub is_string : last.cur_tok.type_ ≡ t_string
  pub text_read : token_text last ≡ text
  pub no_error : last.has_error ≡ r.has_error
  pub place : last.cur_offset ≡ r.cur_offset + size
  pub begins : token_byte last ≡ ok (opening text)
  pub same_len : last.len ≡ r.len
  pub behind : Bytes
  pub stands : (d == 0) ≡ false → Stands last behind [] (d ∷ rest)

nil_of : (g : Bytes) → length g ≡ 0 → g ≡ []
nil_of [] h = refl
nil_of (x ∷ xs) h = absurd (omega arith)

opened :
    (text done : Bytes) (d : ℕ) (rest left mem : Bytes)
    → mem ≡ (done ++ text) ++ left
    → (text ≡ [] → left ≡ b'"' ∷ d ∷ rest)
    → byte_at mem (length done) ≡ ok (opening text)
opened [] done d rest left mem m h =
    ap (λ x. byte_at x (length done)) (m ∙ append_assoc done [] left ∙ ap (λ x. done ++ x) (h refl))
    ∙ byte_at-length done b'"' (d ∷ rest)
opened (c ∷ cs) done d rest left mem m h =
    ap (λ x. byte_at x (length done)) (m ∙ append_assoc done (c ∷ cs) left)
    ∙ byte_at-length done c (cs ++ left)

quote_case-coded :
    (r : ReaderT) (before text : Bytes) (d : ℕ) (rest : Bytes) (n : ℕ)
    → AllReadable text
    → Stands r before [] (b'"' ∷ coded text d rest)
    → r.len < 2 ^ 64
    → length text ≤ n
    → ReadString r text (length (escaped text) + 2) d rest (quote_case (suc n) r)
unfolding quote_case parser_quote_string started token_byte
quote_case-coded r before text d rest n a h small enough =
    let r' : ReaderT = record r { cur_tok = record (r.cur_tok) { type_ = t_string } } in
    let h' : Stands r' before [] (b'"' ∷ coded text d rest) = record {
      memory = h.memory;
      place = h.place;
      open_ = h.open_;
      whole = h.whole;
    } in
    let (s, taken, stands, same) =
      take-Stands r' before [] b'"' (coded text d rest) h' (Starts-coded text d rest a) in
    let done = before ++ (b'"' ∷ []) in
    let begun = started s in
    let size : length done ≡ length before + 1 = length-append before (b'"' ∷ []) in
    let hs : Stands begun done [] (coded text d rest) = record {
      memory = stands.memory ∙ sym (append_assoc before (b'"' ∷ []) (coded text d rest));
      place = omega (arith, stands.place, size);
      open_ = stands.open_;
      whole = stands.whole;
    } in
    let t =
      quote_loop-coded text n begun done [] d rest a hs enough (omega (arith, stands.place, size))
        (omega (arith, same.same_len)) in
    let start : t.last.cur_tok.str ≡ length done =
      ap (λ (k : Token). k.str) t.token ∙ omega (arith, stands.place, size) in
    let long : t.last.cur_tok.len ≡ length text =
      ap (λ (k : Token). k.len) t.token ∙ omega (arith, stands.place, size) in
    record {
      last = t.last;
      runs = ap (λ o. o >>= λ x. onward (suc n) 0 (started x)) taken ∙ t.runs;
      is_string = ap (λ (k : Token). k.type_) t.token ∙ ap (λ (k : Token). k.type_) same.same_tok;
      text_read =
          ap (λ k. Common.take k (Common.drop t.last.cur_tok.str t.last.mem)) long
          ∙ ap (λ k. Common.take (length text) (Common.drop k t.last.mem)) start
          ∙ ap (λ m. Common.take (length text) (Common.drop (length done) m))
              (t.memory ∙ append_assoc done text t.left)
          ∙ ap (Common.take (length text)) (drop-length (length done) done (text ++ t.left) refl)
          ∙ take-length (length text) text t.left refl;
      no_error = t.no_error ∙ same.same_error;
      begins =
          ap (byte_at t.last.mem) start
          ∙ opened text done d rest t.left t.last.mem t.memory (λ e.
            let (g, left_is, size_g) = t.nothing e in
            let none_free : g ≡ [] = nil_of g (omega (arith, size_g, hs.place)) in
            left_is ∙ ap (λ x. x ++ (b'"' ∷ d ∷ rest)) none_free);
      same_len = t.same_len ∙ same.same_len;
      behind = t.behind;
      stands = t.stands;
      place = omega (arith, t.place, stands.place, h.place);
    }

-- The switch of `next` before a quotation mark.
next_calls-quote :
    (calls n : ℕ) (r : ReaderT)
    → read r ≡ ok b'"'
    → next_calls (suc calls) (suc n) r ≡ quote_case (suc n) (without_sign r)
unfolding next_calls skip other_case is_ctrl
next_calls-quote calls n r e = rw e refl

-- A text that has no backslash, and no control character but those with a letter of their own: where
-- the reader stands before what `write_str` writes for it, and another byte follows, `next` reads a
-- string token with that text, reports no error, and stands behind the closing mark. The length is one
-- that a `size_t` holds, and covers the memory.
pub next-quoted_text :
    (r : ReaderT) (before text : Bytes) (d : ℕ) (rest : Bytes)
    → AllReadable text
    → Stands r before [] (quoted_text text ++ (d ∷ rest))
    → r.len < 2 ^ 64
    → ReadString r text (length (quoted_text text)) d rest (next r)
unfolding next without_sign
next-quoted_text r before text d rest a h small =
    let whole : quoted_text text ++ (d ∷ rest) ≡ b'"' ∷ coded text d rest =
      ap (◌∷◌ b'"') (append_assoc (escaped text) (b'"' ∷ []) (d ∷ rest)) in
    let h' : Stands r before [] (b'"' ∷ coded text d rest) = subst (Stands r before []) whole h in
    let w : ReaderT = without_sign r in
    let hw : Stands w before [] (b'"' ∷ coded text d rest) = record {
      memory = h'.memory;
      place = h'.place;
      open_ = h'.open_;
      whole = h'.whole;
    } in
    let n = length r.mem + 1 in
    let rounds : length r.mem + 2 ≡ suc n = omega arith in
    let size = length-Stands r before [] (b'"' ∷ coded text d rest) h' in
    let total = length-append (escaped text) (b'"' ∷ d ∷ rest) in
    let q =
      quote_case-coded w before text d rest n a hw small
        (omega (arith, size, total, length-escaped text a)) in
    record {
      last = q.last;
      runs =
          ap (λ k. next_calls k k r) rounds
          ∙ next_calls-quote n n r (read-Stands r before [] b'"' (coded text d rest) h')
          ∙ q.runs;
      is_string = q.is_string;
      text_read = q.text_read;
      no_error = q.no_error;
      begins = q.begins;
      same_len = q.same_len;
      behind = q.behind;
      stands = q.stands;
      place = omega (arith, q.place, length-append (escaped text) (b'"' ∷ []));
    }
