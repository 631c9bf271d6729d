-- ===== src/Json/Quote.antt =====
-- The reader on what `write_str` writes.
use project_test_demo.Common.{
  ℕ, suc, true, false, ◌||◌, some, [], ◌∷◌, ◌++◌, append_assoc, ◌==◌, Bytes, ◌≡◌, refl, sym, ap,
  ◌∙◌, subst, arith, Bool-cases, inl, inr,
}
use project_test_demo.Json.Escape.{escape_, piece, escaped}
use project_test_demo.Json.Token.{ReaderT, Run, ok, ◌>>=◌, read, take, fill_escape_char}
use project_test_demo.Json.Lexer.{quote_escape, quote_loop}
use project_test_demo.Json.Cursor.{Starts}

-- No control character but those that have a letter, and no backslash.
abbrev pub Readable : ℕ → Type 0
Readable c = (escape_ c == b'u' || c == b'\\') ≡ false

abbrev pub AllReadable : Bytes → Type 0
AllReadable [] = Unit
AllReadable (c ∷ cs) = Readable c × AllReadable cs

pub escaped-cons : (c : ℕ) (cs : Bytes) → Readable c → escaped (c ∷ cs) ≡ piece c ++ escaped cs
unfolding escaped piece escape_
escaped-cons c [] h = ground arith
escaped-cons c (d ∷ ds) h = ground arith

-- What a text in quotation marks and the rest of the memory look like behind the first mark.
abbrev pub coded : Bytes → ℕ → Bytes → Bytes
coded text d rest = escaped text ++ (b'"' ∷ d ∷ rest)

pub coded-cons :
    (c : ℕ) (cs : Bytes) (d : ℕ) (rest : Bytes)
    → Readable c
    → coded (c ∷ cs) d rest ≡ piece c ++ coded cs d rest
coded-cons c cs d rest h =
    ap (λ x. x ++ (b'"' ∷ d ∷ rest)) (escaped-cons c cs h)
    ∙ append_assoc (piece c) (escaped cs) (b'"' ∷ d ∷ rest)

pub piece-plain : (c : ℕ) → (escape_ c == 0) ≡ true → piece c ≡ c ∷ []
unfolding piece
piece-plain c h = ground arith

pub piece-escape : (c : ℕ) → (escape_ c == 0) ≡ false → piece c ≡ b'\\' ∷ escape_ c ∷ []
unfolding piece
piece-escape c h = ground arith

plain-ne-nul : (c : ℕ) → (escape_ c == 0) ≡ true → (c == 0) ≡ false
unfolding escape_
plain-ne-nul c h = ground arith

Starts-piece : (c : ℕ) (s : Bytes) → Starts (piece c ++ s)
Starts-piece c s = elim (Bool-cases (escape_ c == 0)) [
  | inl e ↦ subst (λ x. Starts (x ++ s)) (sym (piece-plain c e)) (plain-ne-nul c e)
  | inr e ↦ subst (λ x. Starts (x ++ s)) (sym (piece-escape c e)) refl
]

pub Starts-coded :
    (text : Bytes) (d : ℕ) (rest : Bytes) → AllReadable text → Starts (coded text d rest)
unfolding escaped
Starts-coded [] d rest h = refl
Starts-coded (c ∷ cs) d rest h =
    subst Starts (sym (coded-cons c cs d rest h.0)) (Starts-piece c (coded cs d rest))

pub quote_escape-escape_ :
    (c : ℕ)
    → Readable c
    → (escape_ c == 0) ≡ false
    → (quote_escape (escape_ c) ≡ some c) × ((escape_ c == b'u') ≡ false)
unfolding quote_escape escape_
quote_escape-escape_ c h e = ground arith

bind_assoc :
    (o : Run ReaderT) (f g : ReaderT → Run ReaderT) → (o >>= λ x. f x >>= g) ≡ ((o >>= f) >>= g)
bind_assoc (ok x) f g = refl
bind_assoc Run.undefined f g = refl
bind_assoc Run.out_of_fuel f g = refl

-- The rest of the loop.
abbrev pub onward : ℕ → ℕ → ReaderT → Run ReaderT
onward n k u = read u >>= λ f. quote_loop n u f k

pub quote_loop-plain :
    (n k c : ℕ) (r : ReaderT)
    → (escape_ c == 0) ≡ true
    → quote_loop (suc n) r c k ≡ ((fill_escape_char r k c >>= take) >>= onward n k)
unfolding quote_loop escape_
quote_loop-plain n k c r h =
    let e = bind_assoc (fill_escape_char r k c) take (onward n k) in ground arith

pub quote_loop-escape :
    (n k e c : ℕ) (r s : ReaderT)
    → take r ≡ ok s
    → read s ≡ ok e
    → (e == b'u') ≡ false
    → quote_escape e ≡ some c
    → quote_loop (suc n) r b'\\' k ≡ ((fill_escape_char s (suc k) c >>= take) >>= onward n (suc k))
unfolding quote_loop
quote_loop-escape n k e c r s t d u q =
    let e = bind_assoc (fill_escape_char s (suc k) c) take (onward n (suc k)) in ground arith
