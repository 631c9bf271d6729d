-- ===== src/Json/Faults.antt =====
-- Where the reader departs from JSON, or from what the writer writes.
use project_test_demo.Common.{
  ℕ, suc, true, false, none, [], ◌∷◌, ◌++◌, ◌==◌, Bytes, ◌≡◌, refl, ap, ◌∙◌, subst, arith,
}
use project_test_demo.Json.Escape.{escape_, escaped}
use project_test_demo.Json.Token.{ReaderT, ok, ◌>>=◌, error, read, take}
use project_test_demo.Json.Lexer.{quote_escape, quote_loop}
use project_test_demo.Json.Cursor.{Stands, read-Stands, take-Stands}
use project_test_demo.Json.Quote.{onward}

escaped-backslash :
    (c : ℕ) (cs : Bytes) → escaped (b'\\' ∷ c ∷ cs) ≡ b'\\' ∷ b'\\' ∷ escaped (c ∷ cs)
unfolding escaped escape_
escaped-backslash c cs = refl

quote_loop-unknown :
    (n k e : ℕ) (r s : ReaderT)
    → take r ≡ ok s
    → read s ≡ ok e
    → (e == b'u') ≡ false
    → quote_escape e ≡ none
    → quote_loop (suc n) r b'\\' k ≡ ok (error s)
unfolding quote_loop
quote_loop-unknown n k e r s t d u q = ground arith

-- For a backslash `write_str` writes two. A reader that stands before them in a string in quotation
-- marks, in whatever string and behind whatever escapes, ends the string there with an error.
pub backslash_is_refused :
    (c : ℕ) (cs : Bytes) (r : ReaderT) (done gap rest : Bytes) (n k : ℕ)
    → Stands r done gap (escaped (b'\\' ∷ c ∷ cs) ++ rest)
    → (s : ReaderT) × (onward (suc n) k r ≡ ok s) × (s.has_error ≡ true)
unfolding error quote_escape
backslash_is_refused c cs r done gap rest n k h =
    let tail = escaped (c ∷ cs) ++ rest in
    let st : Stands r done gap (b'\\' ∷ b'\\' ∷ tail) =
      subst (Stands r done gap) (ap (λ x. x ++ rest) (escaped-backslash c cs)) h in
    let (s, taken, stands, same) = take-Stands r done gap b'\\' (b'\\' ∷ tail) st refl in
    let behind = read-Stands s done (gap ++ (b'\\' ∷ [])) b'\\' tail stands in
    (
      error s,
      ap (λ o. o >>= λ f. quote_loop (suc n) r f k) (read-Stands r done gap b'\\' (b'\\' ∷ tail) st)
          ∙ quote_loop-unknown n k b'\\' r s taken behind refl refl,
      refl,
    )
