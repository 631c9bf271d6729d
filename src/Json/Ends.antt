-- ===== src/Json/Ends.antt =====
-- The loops of the reader come to an end within their rounds.
use project_test_demo.Common.{
  ℕ, zero, suc, ◌+◌, ◌-◌, ◌*◌, ◌≤◌, ◌⊎◌, false, ◌||◌, [], ◌∷◌, length, get_or, ltb, ◌==◌,
  if◌then◌else◌, Bytes, ◌≡◌, refl, arith, inl, inr,
}
use project_test_demo.Json.Token.{
  ReaderT, Run, ok, undefined, ◌>>=◌, error, read, take, fill_escape_char,
}
use project_test_demo.Json.Lexer.{
  char_to_hex, read_digit, read_utf, table, utf_bytes, fill_all, escape_utf8, ended, started,
  quote_escape, quote_escaped, quote_loop, parser_quote_string,
}
use project_test_demo.Json.Kept.{
  Goes, left, Kept, Kept-self, Kept-trans, Stepped, bind-Goes, weaken-Goes, IsNext, read-Goes,
  take-Goes, error-Kept, fill_escape_char-Goes, if-Goes, if-Kept, elim-Goes, option-Goes,
}

-- The rounds of a loop that are enough before the byte c.
abbrev pub Fuel : ℕ → ReaderT → ℕ → Type 0
Fuel n r c = (1 ≤ n) × ((c ≡ 0) ⊎ (left r + 2 ≤ n))

pub left-le-length : (r : ReaderT) → left r ≤ length r.mem
left-le-length r = ground arith

pub Fuel-length : (n : ℕ) (r : ReaderT) (c : ℕ) → length r.mem + 2 ≤ n → Fuel n r c
Fuel-length n r c h = (omega arith, inr (omega (arith, left-le-length r)))

pub Fuel-step :
    (n : ℕ) (r s t : ReaderT) (c : ℕ)
    → left r + 2 ≤ suc n
    → Stepped r s
    → Kept s t
    → IsNext t c
    → Fuel n t c
Fuel-step n r s t c h a b next = elim a.nearer [
  | inl near ↦ let x = b.fewer in (omega arith, inr (omega arith))
  | inr e ↦ (omega arith, inl (next.0 (b.stays e)))
]

pub take-Kept : (r : ReaderT) → Goes (Kept r) (take r)
take-Kept r = weaken-Goes (Stepped r) (Kept r) (take r) (take-Goes r) (λ s h. h.kept)

-- A round that takes a byte, goes on from there with the same memory, and reads the next.
pub advance-Goes :
    {B : Type 0} (n : ℕ) (r : ReaderT) (P : B → Type 0) (f : ReaderT → ℕ → Run B)
    → left r + 2 ≤ suc n
    → ((s : ReaderT) (c : ℕ) → Kept r s → Fuel n s c → Goes P (f s c))
    → Goes P (take r >>= λ s. read s >>= λ c. f s c)
advance-Goes n r P f h k =
    bind-Goes (Stepped r) P (take r) (λ s. read s >>= λ c. f s c) (take-Goes r)
      (λ s a.
        bind-Goes (IsNext s) P (read s) (f s) (read-Goes s)
          (λ c next. k s c a.kept (Fuel-step n r s s c h a (Kept-self s) next)))

-- The same, where a character is filled in first.
pub filled-Goes :
    {B : Type 0} (n : ℕ) (r : ReaderT) (k e : ℕ) (P : B → Type 0) (f : ReaderT → ℕ → Run B)
    → left r + 2 ≤ suc n
    → ((s : ReaderT) (c : ℕ) → Kept r s → Fuel n s c → Goes P (f s c))
    → Goes P (fill_escape_char r k e >>= λ t. take t >>= λ s. read s >>= λ c. f s c)
filled-Goes n r k e P f h go =
    bind-Goes (Kept r) P (fill_escape_char r k e) (λ t. take t >>= λ s. read s >>= λ c. f s c)
      (fill_escape_char-Goes r k e)
      (λ t a.
        advance-Goes n t P f (let x = a.fewer in omega arith)
          (λ s c b fuel. go s c (Kept-trans r t s a b) fuel))

abbrev KeptSecond : {A : Type 0} → ReaderT → A × ReaderT → Type 0
KeptSecond r p = Kept r p.1

char_to_hex-Goes : (r : ReaderT) (v : ℕ) → Goes (KeptSecond r) (char_to_hex r v)
unfolding char_to_hex
char_to_hex-Goes r v =
    let w = if ltb v b'f' then get_or table v 16 else 16 in
    if-Goes (KeptSecond r) (ltb 127 v) undefined (ok (w, if ltb 15 w then error r else r)) tt
      (if-Kept r (ltb 15 w) (error r) r (error-Kept r) (Kept-self r))

read_digit-Goes : (r : ReaderT) (p : ℕ × ReaderT) → Kept r p.1 → Goes (KeptSecond r) (read_digit p)
unfolding read_digit
read_digit-Goes r (utf, s) a =
    bind-Goes (IsNext s) (KeptSecond r) (read s)
      (λ c. char_to_hex s c >>= λ p. take p.1 >>= λ t. ok (utf * 16 + p.0, t)) (read-Goes s)
      (λ c h.
        bind-Goes (KeptSecond s) (KeptSecond r) (char_to_hex s c)
          (λ p. take p.1 >>= λ t. ok (utf * 16 + p.0, t)) (char_to_hex-Goes s c)
          (λ p b.
            bind-Goes (Kept p.1) (KeptSecond r) (take p.1) (λ t. ok (utf * 16 + p.0, t))
              (take-Kept p.1) (λ t d. Kept-trans r p.1 t (Kept-trans r s p.1 a b) d)))

read_utf-Goes : (r : ReaderT) → Goes (KeptSecond r) (read_utf r)
unfolding read_utf
read_utf-Goes r =
    bind-Goes (KeptSecond r) (KeptSecond r) (read_digit (0, r))
      (λ a. read_digit a >>= λ b. read_digit b >>= λ c. read_digit c)
      (read_digit-Goes r (0, r) (Kept-self r))
      (λ a h.
        bind-Goes (KeptSecond r) (KeptSecond r) (read_digit a)
          (λ b. read_digit b >>= λ c. read_digit c) (read_digit-Goes r a h)
          (λ b k.
            bind-Goes (KeptSecond r) (KeptSecond r) (read_digit b) (λ c. read_digit c)
              (read_digit-Goes r b k) (λ c l. read_digit-Goes r c l)))

fill_all-Goes : (r : ReaderT) (k : ℕ) (bytes : Bytes) → Goes (Kept r) (fill_all r k bytes)
unfolding fill_all
fill_all-Goes r k [] = Kept-self r
fill_all-Goes r k (c ∷ cs) =
    bind-Goes (Kept r) (Kept r) (fill_escape_char r k c) (λ s. fill_all s (k - 1) cs)
      (fill_escape_char-Goes r k c)
      (λ s a.
        weaken-Goes (Kept s) (Kept r) (fill_all s (k - 1) cs) (fill_all-Goes s (k - 1) cs)
          (λ t b. Kept-trans r s t a b))

checked : ℕ → ReaderT → ReaderT
checked utf1 s = if ltb utf1 0x80000 then s else if ltb utf1 0x110000 then error s else s

checked-Kept : (utf1 : ℕ) (s : ReaderT) → Kept s (checked utf1 s)
unfolding checked
checked-Kept utf1 s =
    if-Kept s (ltb utf1 0x80000) s (if ltb utf1 0x110000 then error s else s) (Kept-self s)
      (if-Kept s (ltb utf1 0x110000) (error s) s (error-Kept s) (Kept-self s))

pub escape_utf8-Goes : (r : ReaderT) (k : ℕ) → Goes (λ p. Kept r p.0) (escape_utf8 r k)
unfolding escape_utf8 checked
escape_utf8-Goes r k =
    bind-Goes (KeptSecond r) (λ p. Kept r p.0) (read_utf r)
      (λ p. fill_all (checked p.0 p.1) (k + 6) (utf_bytes p.0) >>= λ t.
        ok (t, k + 6 - length (utf_bytes p.0)))
      (read_utf-Goes r)
      (λ p a.
        let c = checked p.0 p.1 in
        bind-Goes (Kept c) (λ q. Kept r q.0) (fill_all c (k + 6) (utf_bytes p.0))
          (λ t. ok (t, k + 6 - length (utf_bytes p.0))) (fill_all-Goes c (k + 6) (utf_bytes p.0))
          (λ t b. Kept-trans r c t (Kept-trans r p.1 c a (checked-Kept p.0 p.1)) b))

pub ended-Kept : (r : ReaderT) (k : ℕ) → Kept r (ended r k)
unfolding ended
ended-Kept r k = record { size = refl; fewer = omega arith; stays = λ h. h; sticky = λ h. h }

-- Before a byte that is no NUL enough rounds are left for another byte.
pub Fuel-byte :
    (n : ℕ) (r : ReaderT) (c : ℕ) → Fuel (suc n) r c → (c == 0) ≡ false → left r + 2 ≤ suc n
Fuel-byte n r c (h, inl z) e = ground arith
Fuel-byte n r c (h, inr m) e = m

-- Behind a backslash, where what follows is known to go.
quote_escaped-Goes :
    (n : ℕ) (r : ReaderT) (k : ℕ)
    → left r + 2 ≤ suc n
    → ((s : ReaderT) (d j : ℕ) → Fuel n s d → Goes (Kept s) (quote_loop n s d j))
    → Goes (Kept r) (take r >>= λ s. read s >>= λ d. quote_escaped (quote_loop n) s d k)
unfolding quote_escaped
quote_escaped-Goes n r k room go = bind-Goes (Stepped r) (Kept r) (take r) _ (take-Goes r) (λ s a.
    bind-Goes (IsNext s) (Kept r) (read s) _ (read-Goes s) (λ d next.
      elim-Goes (Kept r) (d == b'u') _ _
        (λ e. bind-Goes (Kept s) (Kept r) (take s) _ (take-Kept s) (λ t b.
          bind-Goes (λ p. Kept t p.0) (Kept r) (escape_utf8 t k) _ (escape_utf8-Goes t k)
            (λ p c.
              let u = p.0 in
              let f = Kept-trans s t u b c in
              bind-Goes (IsNext u) (Kept r) (read u) _ (read-Goes u) (λ g after.
                weaken-Goes (Kept u) (Kept r) (quote_loop n u g p.1)
                  (go u g p.1 (Fuel-step n r s u g room a f after))
                  (λ v q. Kept-trans r u v (Kept-trans r s u a.kept f) q)))))
        (λ e.
          option-Goes (Kept r) (quote_escape d) _ _ (Kept-trans r s (error s) a.kept (error-Kept s))
            (λ x.
              filled-Goes n s (suc k) x (Kept r) (λ u f. quote_loop n u f (suc k))
                (let m = a.kept.fewer in omega arith)
                (λ u f b fuel.
                  weaken-Goes (Kept u) (Kept r) (quote_loop n u f (suc k)) (go u f (suc k) fuel)
                    (λ v q. Kept-trans r u v (Kept-trans r s u a.kept b) q))))))

pub quote_loop-Goes :
    (n : ℕ) (r : ReaderT) (c k : ℕ) → Fuel n r c → Goes (Kept r) (quote_loop n r c k)
unfolding quote_loop
quote_loop-Goes zero r c k h = absurd (omega (arith, h.0))
quote_loop-Goes (suc n) r c k h =
    elim-Goes (Kept r) (c == 0 || c == b'\n') _ _ (λ e. error-Kept r)
      (λ no_end.
        let room : left r + 2 ≤ suc n = Fuel-byte n r c h (ground arith) in
        elim-Goes (Kept r) (c == b'\\') _ _
          (λ e. quote_escaped-Goes n r k room (λ s d j m. quote_loop-Goes n s d j m))
          (λ plain.
            elim-Goes (Kept r) (c == b'"') _ _
              (λ e.
                weaken-Goes (Kept (ended r k)) (Kept r) (take (ended r k)) (take-Kept (ended r k))
                  (λ s a. Kept-trans r (ended r k) s (ended-Kept r k) a))
              (λ e.
                filled-Goes n r k c (Kept r) (λ u f. quote_loop n u f k) room
                  (λ u f a fuel.
                    weaken-Goes (Kept u) (Kept r) (quote_loop n u f k)
                      (quote_loop-Goes n u f k fuel) (λ v b. Kept-trans r u v a b)))))

pub started-Kept : (r : ReaderT) → Kept r (started r)
unfolding started
started-Kept r = record { size = refl; fewer = omega arith; stays = λ h. h; sticky = λ h. h }

-- The rounds that a parser is given.
abbrev pub Rounds : ℕ → ReaderT → Type 0
Rounds n r = length r.mem + 2 ≤ n

pub parser_quote_string-Goes :
    (n : ℕ) (r : ReaderT) → Rounds n r → Goes (Kept r) (parser_quote_string n r)
unfolding parser_quote_string
parser_quote_string-Goes n r h = bind-Goes (Kept r) (Kept r) (take r) _ (take-Kept r) (λ s a.
    let t = started s in
    let b = Kept-trans r s t a (started-Kept s) in
    bind-Goes (IsNext t) (Kept r) (read t) _ (read-Goes t) (λ c next.
      weaken-Goes (Kept t) (Kept r) (quote_loop n t c 0)
        (quote_loop-Goes n t c 0 (Fuel-length n t c (let e = b.size in omega arith)))
        (λ u d. Kept-trans r t u b d)))
