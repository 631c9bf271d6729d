-- ===== src/Json/QuoteLoop.antt =====
-- The loop of a string in quotation marks, on what `write_str` writes.
use project_test_demo.Common.{
  false, ℕ, zero, suc, ◌+◌, ◌-◌, ◌^◌, ◌%◌, ◌≤◌, ◌<◌, [], ◌∷◌, ◌++◌, length, length-append,
  append_assoc, append-nil, ◌==◌, Bytes, ◌≡◌, refl, sym, ap, ◌∙◌, subst, arith, Bool-cases, inl,
  inr,
}
use mathlib.Core.List.{cons-ne-nil}
use project_test_demo.Json.Escape.{escape_, piece, escaped}
use project_test_demo.Json.Quote.{
  Readable, AllReadable, escaped-cons, coded, coded-cons, Starts-coded, quote_escape-escape_,
  piece-plain, piece-escape, onward, quote_loop-plain, quote_loop-escape,
}
use project_test_demo.Json.Token.{Token, ReaderT, Run, ok, ◌>>=◌, moved, take, fill_escape_char}
use project_test_demo.Json.Lexer.{quote_loop, ended}
use project_test_demo.Json.Cursor.{
  Stands, SameRest, read-Stands, take-byte, take-Stands, length-Stands,
}
use project_test_demo.Json.Filled.{Filled, Filled-plain, Filled-escape}

SameRest-self : (r : ReaderT) → SameRest r r
SameRest-self r = record { same_tok = refl; same_error = refl; same_len = refl }

-- The string token that is read: its text stands in the memory at the place of the token.
pub record ReadText (r : ReaderT) (done text : Bytes) (d : ℕ) (rest : Bytes) (o : Run ReaderT)
    : Type 0 where
  pub last : ReaderT
  pub runs : o ≡ ok last
  pub left : Bytes
  pub memory : last.mem ≡ (done ++ text) ++ left
  pub token : last.cur_tok ≡ record (r.cur_tok) { len = length done + length text - r.cur_tok.str }
  pub no_error : last.has_error ≡ r.has_error
  pub place : last.cur_offset ≡ r.cur_offset + length (escaped text) + 1
  pub nothing :
      text ≡ []
      → (g : Bytes) × (left ≡ g ++ (b'"' ∷ d ∷ rest)) × (length done + length g ≡ r.cur_offset)
  pub same_len : last.len ≡ r.len
  pub behind : Bytes
  pub stands : (d == 0) ≡ false → Stands last behind [] (d ∷ rest)

onward-nil :
    (n : ℕ) (r : ReaderT) (done gap : Bytes) (d : ℕ) (rest : Bytes)
    → Stands r done gap (b'"' ∷ d ∷ rest)
    → r.cur_tok.str ≤ length done
    → r.len < 2 ^ 64
    → ReadText r done [] d rest (onward (suc n) (length gap) r)
unfolding quote_loop ended moved escaped
onward-nil n r done gap d rest h start small =
    let size = length-Stands r done gap (b'"' ∷ d ∷ rest) h in
    let e : ReaderT = ended r (length gap) in
    let he : Stands e done gap (b'"' ∷ d ∷ rest) = record {
      memory = h.memory;
      place = h.place;
      open_ = h.open_;
      whole = h.whole;
    } in
    let count : (2 ^ 64 + r.cur_offset - length gap - r.cur_tok.str) % 2 ^ 64
        ≡ length done + 0 - r.cur_tok.str =
      omega (arith, h.place, h.whole, size) in
    record {
      last = moved e d;
      runs =
          ap (λ o. o >>= λ f. quote_loop (suc n) r f (length gap))
            (read-Stands r done gap b'"' (d ∷ rest) h)
          ∙ take-byte e done gap b'"' d rest he;
      left = gap ++ (b'"' ∷ d ∷ rest);
      memory = h.memory ∙ ap (λ x. x ++ (gap ++ (b'"' ∷ d ∷ rest))) (sym (append-nil done));
      token = ap (λ k. record (r.cur_tok) { len = k }) count;
      no_error = refl;
      place = omega arith;
      nothing = λ e. (gap, refl, sym h.place);
      same_len = refl;
      behind = done ++ (gap ++ (b'"' ∷ []));
      stands = λ more. record {
        memory =
            h.memory
            ∙ ap (λ x. done ++ x) (sym (append_assoc gap (b'"' ∷ []) (d ∷ rest)))
            ∙ sym (append_assoc done (gap ++ (b'"' ∷ [])) (d ∷ rest));
        place = omega (
          arith,
          h.place,
          length-append done (gap ++ (b'"' ∷ [])),
          length-append gap (b'"' ∷ []),
        );
        open_ = ground (arith, h.place, h.whole, size, more);
        whole = h.whole;
      };
    }

the_sum : (x a b : ℕ) → x ≡ a + 1 → x + b ≡ a + suc b
the_sum x a b h = omega arith

-- A character is filled in, and the loop goes on behind it.
ReadText-cons :
    (r : ReaderT) (done gap : Bytes) (c : ℕ) (cs : Bytes) (n k d : ℕ) (after rest : Bytes)
    (o : Run ReaderT)
    → Readable c
    → length gap + length (piece c) ≡ k + 1
    → r.cur_offset ≡ length done + length gap
    → (f : (s : ReaderT) × (g : Bytes) × SameRest r s × (length g ≡ k) × Filled s done g c after o)
    → ReadText (f.4.after) (done ++ (c ∷ [])) cs d rest (onward n k f.4.after)
    → ReadText r done (c ∷ cs) d rest (o >>= onward n k)
ReadText-cons r done gap c cs n k d after rest o readable size at (s, g, same, gap_size, f) ih =
    let tok : f.after.cur_tok ≡ r.cur_tok = f.same.same_tok ∙ same.same_tok in
    let here = length-append done (c ∷ []) in
    let whole : Token → Token =
      λ t. record t { len = length (done ++ (c ∷ [])) + length cs - t.str } in
    let sized : ℕ → Token = λ l. record (r.cur_tok) { len = l - r.cur_tok.str } in
    record {
      last = ih.last;
      runs = ap (λ p. p >>= onward n k) f.runs ∙ ih.runs;
      left = ih.left;
      memory = ih.memory ∙ ap (λ x. x ++ ih.left) (append_assoc done (c ∷ []) cs);
      token =
          ih.token
          ∙ ap whole tok
          ∙ ap sized (the_sum (length (done ++ (c ∷ []))) (length done) (length cs) here);
      no_error = ih.no_error ∙ f.same.same_error ∙ same.same_error;
      place = omega (
        arith,
        ih.place,
        f.stands.place,
        f.same_size,
        here,
        ap length (escaped-cons c cs readable),
        length-append (piece c) (escaped cs),
      );
      nothing = λ e. absurd (cons-ne-nil c cs e);
      same_len = ih.same_len ∙ f.same.same_len ∙ same.same_len;
      behind = ih.behind;
      stands = ih.stands;
    }

pub quote_loop-coded :
    (text : Bytes) (n : ℕ) (r : ReaderT) (done gap : Bytes) (d : ℕ) (rest : Bytes)
    → AllReadable text
    → Stands r done gap (coded text d rest)
    → length text ≤ n
    → r.cur_tok.str ≤ length done
    → r.len < 2 ^ 64
    → ReadText r done text d rest (onward (suc n) (length gap) r)
unfolding escaped
quote_loop-coded [] n r done gap d rest a h enough start small =
    onward-nil n r done gap d rest h start small
quote_loop-coded (c ∷ cs) zero r done gap d rest a h enough start small = absurd (omega arith)
quote_loop-coded (c ∷ cs) (suc n) r done gap d rest a h enough start small =
    let k = length gap in
    let after = coded cs d rest in
    let starts = Starts-coded cs d rest a.1 in
    elim (Bool-cases (escape_ c == 0)) [
      | inl plain ↦
          let st : Stands r done gap (c ∷ after) =
            subst (Stands r done gap)
              (coded-cons c cs d rest a.0 ∙ ap (λ x. x ++ after) (piece-plain c plain)) h in
          let f = Filled-plain r done gap c after st starts in
          let tok = f.same.same_tok in
          let ih =
            quote_loop-coded cs n f.after (done ++ (c ∷ [])) f.new_gap d rest a.1 f.stands
              (omega arith)
              (subst (λ t. t.str ≤ length (done ++ (c ∷ []))) (sym tok)
                (omega (arith, length-append done (c ∷ []))))
              (omega (arith, f.same.same_len)) in
          let ih' : ReadText f.after (done ++ (c ∷ [])) cs d rest (onward (suc n) k f.after) =
            subst (λ j. ReadText f.after (done ++ (c ∷ [])) cs d rest (onward (suc n) j f.after))
              f.same_size ih in
          let steps : onward (suc (suc n)) k r
              ≡ ((fill_escape_char r k c >>= take) >>= onward (suc n) k) =
            ap (λ o. o >>= λ f. quote_loop (suc (suc n)) r f k) (read-Stands r done gap c after st)
            ∙ quote_loop-plain (suc n) k c r plain in
          subst (ReadText r done (c ∷ cs) d rest) (sym steps) (
            ReadText-cons r done gap c cs (suc n) k d after rest (fill_escape_char r k c >>= take)
              a.0 (omega (arith, ap length (piece-plain c plain))) h.place
              (r, gap, SameRest-self r, refl, f) ih')
      | inr special ↦
          let b : Bytes = b'\\' ∷ [] in
          let st : Stands r done gap (b'\\' ∷ escape_ c ∷ after) =
            subst (Stands r done gap)
              (coded-cons c cs d rest a.0 ∙ ap (λ x. x ++ after) (piece-escape c special)) h in
          let (s, taken, stands, same) =
            take-Stands r done gap b'\\' (escape_ c ∷ after) st special in
          let f = Filled-escape s done gap b'\\' c (escape_ c) after stands starts in
          let tok = f.same.same_tok ∙ same.same_tok in
          let wider : length (gap ++ b) ≡ suc k = omega (arith, length-append gap b) in
          let ih =
            quote_loop-coded cs n f.after (done ++ (c ∷ [])) f.new_gap d rest a.1 f.stands
              (omega arith)
              (subst (λ t. t.str ≤ length (done ++ (c ∷ []))) (sym tok)
                (omega (arith, length-append done (c ∷ []))))
              (omega (arith, f.same.same_len, same.same_len)) in
          let ih' : ReadText f.after (done ++ (c ∷ [])) cs d rest (onward (suc n) (suc k) f.after) =
            subst (λ j. ReadText f.after (done ++ (c ∷ [])) cs d rest (onward (suc n) j f.after))
              (f.same_size ∙ wider) ih in
          let (letter, other) = quote_escape-escape_ c a.0 special in
          let steps : onward (suc (suc n)) k r
              ≡ ((fill_escape_char s (suc k) c >>= take) >>= onward (suc n) (suc k)) =
            ap (λ o. o >>= λ f. quote_loop (suc (suc n)) r f k)
              (read-Stands r done gap b'\\' (escape_ c ∷ after) st)
            ∙ quote_loop-escape (suc n) k (escape_ c) c r s taken
                (read-Stands s done (gap ++ b) (escape_ c) after stands) other letter in
          subst (ReadText r done (c ∷ cs) d rest) (sym steps) (
            ReadText-cons r done gap c cs (suc n) (suc k) d after rest
              (fill_escape_char s (suc k) c >>= take) a.0
              (omega (arith, ap length (piece-escape c special))) h.place
              (s, gap ++ b, same, wider, f) ih')
    ]
