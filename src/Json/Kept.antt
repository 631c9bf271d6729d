-- ===== src/Json/Kept.antt =====
-- What every step of the reader keeps, and that it comes closer to the end.
use project_test_demo.Common.{
  ℕ, zero, suc, ◌-◌, ◌≤◌, ◌<◌, ◌⊎◌, Bool, true, false, Option, none, some, [], ◌∷◌, length, ltb,
  if◌then◌else◌, Bytes, ◌≡◌, refl, sym, ap, ◌∙◌, subst, arith, Bool-cases, inl, inr,
}
use project_test_demo.Json.Token.{
  ReaderT, Run, ok, undefined, out_of_fuel, ◌>>=◌, byte_at, put_at, error, read, moved, take,
  fill_escape_char,
}

-- A call that returns, returns something with this property; it does not run out of rounds.
abbrev pub Goes : {A : Type 0} → (A → Type 0) → Run A → Type 0
Goes P (ok a) = P a
Goes P undefined = Unit
Goes P out_of_fuel = ⊥

-- How many bytes are left at most.
abbrev pub left : ReaderT → ℕ
left r = if r.end_mark then 0 else length r.mem - r.cur_offset

pub record Kept (r s : ReaderT) : Type 0 where
  pub size : length s.mem ≡ length r.mem
  pub fewer : left s ≤ left r
  pub stays : r.end_mark ≡ true → s.end_mark ≡ true
  pub sticky : r.has_error ≡ true → s.has_error ≡ true

pub Kept-self : (r : ReaderT) → Kept r r
Kept-self r = record { size = refl; fewer = omega arith; stays = λ h. h; sticky = λ h. h }

pub Kept-trans : (r s t : ReaderT) → Kept r s → Kept s t → Kept r t
Kept-trans r s t a b = record {
  size = b.size ∙ a.size;
  fewer = let x = a.fewer in let y = b.fewer in omega arith;
  stays = λ h. b.stays (a.stays h);
  sticky = λ h. b.sticky (a.sticky h);
}

-- A step that is taken, unless the end was reached before.
pub record Stepped (r s : ReaderT) : Type 0 where
  pub kept : Kept r s
  pub nearer : (left s < left r) ⊎ (s.end_mark ≡ true)

pub bind-Goes :
    {A B : Type 0} (P : A → Type 0) (Q : B → Type 0) (o : Run A) (f : A → Run B)
    → Goes P o
    → ((a : A) → P a → Goes Q (f a))
    → Goes Q (o >>= f)
bind-Goes P Q (ok a) f h k = k a h
bind-Goes P Q undefined f h k = tt
bind-Goes P Q out_of_fuel f h k = h

pub weaken-Goes :
    {A : Type 0} (P Q : A → Type 0) (o : Run A) → Goes P o → ((a : A) → P a → Q a) → Goes Q o
weaken-Goes P Q (ok a) h k = k a h
weaken-Goes P Q undefined h k = tt
weaken-Goes P Q out_of_fuel h k = h

byte_at-Goes : (xs : Bytes) (i : ℕ) → Goes (λ c. i < length xs) (byte_at xs i)
byte_at-Goes [] i = tt
byte_at-Goes (x ∷ xs) zero = omega arith
byte_at-Goes (x ∷ xs) (suc i) =
    weaken-Goes (λ c. i < length xs) (λ c. suc i < length (x ∷ xs)) (byte_at xs i)
      (byte_at-Goes xs i) (λ c h. omega arith)

put_at-Goes : (xs : Bytes) (i v : ℕ) → Goes (λ ys. length ys ≡ length xs) (put_at xs i v)
put_at-Goes [] i v = tt
put_at-Goes (x ∷ xs) zero v = refl
put_at-Goes (x ∷ xs) (suc i) v =
    bind-Goes (λ ys. length ys ≡ length xs) (λ ys. length ys ≡ length (x ∷ xs)) (put_at xs i v)
      (λ after. ok (x ∷ after)) (put_at-Goes xs i v) (λ ys h. ap suc h)

read-end : (r : ReaderT) → r.end_mark ≡ true → read r ≡ ok 0
unfolding read
read-end r e = ground arith

read-inside : (r : ReaderT) → r.end_mark ≡ false → read r ≡ byte_at r.mem r.cur_offset
unfolding read
read-inside r e = ground arith

take-end : (r : ReaderT) → r.end_mark ≡ true → take r ≡ ok r
unfolding take
take-end r e = ground arith

take-inside :
    (r : ReaderT)
    → r.end_mark ≡ false
    → take r ≡ (byte_at r.mem (suc r.cur_offset) >>= λ v. ok (moved r v))
unfolding take
take-inside r e = ground arith

-- The byte that is read: the NUL at the end.
abbrev pub IsNext : ReaderT → ℕ → Type 0
IsNext r c = (r.end_mark ≡ true → c ≡ 0) × (r.end_mark ≡ false → 0 < left r)

pub read-Goes : (r : ReaderT) → Goes (IsNext r) (read r)
read-Goes r = elim (Bool-cases r.end_mark) [
  | inl e ↦ subst (Goes (IsNext r)) (sym (read-end r e)) (λ h. refl, λ h. ground arith)
  | inr e ↦ subst (Goes (IsNext r)) (sym (read-inside r e)) (
      weaken-Goes (λ c. r.cur_offset < length r.mem) (IsNext r) (byte_at r.mem r.cur_offset)
        (byte_at-Goes r.mem r.cur_offset) (λ c h. (λ t. ground arith, λ t. ground arith)))
]

moved-Stepped :
    (r : ReaderT) (v : ℕ)
    → r.end_mark ≡ false
    → suc r.cur_offset < length r.mem
    → Stepped r (moved r v)
unfolding moved
moved-Stepped r v e h = record {
  kept = record { size = refl; fewer = ground arith; stays = λ t. ground arith; sticky = λ t. t };
  nearer = ground arith;
}

pub take-Goes : (r : ReaderT) → Goes (Stepped r) (take r)
take-Goes r = elim (Bool-cases r.end_mark) [
  | inl e ↦
      subst (Goes (Stepped r)) (sym (take-end r e)) (record { kept = Kept-self r; nearer = inr e })
  | inr e ↦ subst (Goes (Stepped r)) (sym (take-inside r e)) (
      bind-Goes (λ c. suc r.cur_offset < length r.mem) (Stepped r)
        (byte_at r.mem (suc r.cur_offset)) (λ v. ok (moved r v))
        (byte_at-Goes r.mem (suc r.cur_offset)) (λ v h. moved-Stepped r v e h))
]

pub error-Kept : (r : ReaderT) → Kept r (error r)
unfolding error
error-Kept r = record { size = refl; fewer = omega arith; stays = λ h. h; sticky = λ h. refl }

fill-outside :
    (r : ReaderT) (k c : ℕ)
    → ltb r.cur_offset (suc k) ≡ true
    → fill_escape_char r (suc k) c ≡ undefined
unfolding fill_escape_char
fill-outside r k c e = ground arith

fill-inside :
    (r : ReaderT) (k c : ℕ)
    → ltb r.cur_offset (suc k) ≡ false
    → fill_escape_char r (suc k) c
      ≡ (put_at r.mem (r.cur_offset - suc k) c >>= λ after. ok (record r { mem = after }))
unfolding fill_escape_char
fill-inside r k c e = ground arith

pub fill_escape_char-Goes : (r : ReaderT) (k c : ℕ) → Goes (Kept r) (fill_escape_char r k c)
unfolding fill_escape_char
fill_escape_char-Goes r zero c = Kept-self r
fill_escape_char-Goes r (suc k) c = elim (Bool-cases (ltb r.cur_offset (suc k))) [
  | inl e ↦ subst (Goes (Kept r)) (sym (fill-outside r k c e)) tt
  | inr e ↦ subst (Goes (Kept r)) (sym (fill-inside r k c e)) (
      bind-Goes (λ ys. length ys ≡ length r.mem) (Kept r) (put_at r.mem (r.cur_offset - suc k) c)
        (λ after. ok (record r { mem = after })) (put_at-Goes r.mem (r.cur_offset - suc k) c)
        (λ ys h. record { size = h; fewer = ground arith; stays = λ t. t; sticky = λ t. t }))
]

-- The branches of a test.
pub if-Goes :
    {A : Type 0} (P : A → Type 0) (b : Bool) (x y : Run A)
    → Goes P x
    → Goes P y
    → Goes P (if b then x else y)
if-Goes P true x y h k = h
if-Goes P false x y h k = k

pub if-Kept :
    (r : ReaderT) (b : Bool) (x y : ReaderT) → Kept r x → Kept r y → Kept r (if b then x else y)
if-Kept r true x y h k = h
if-Kept r false x y h k = k

pub elim-Goes :
    {A : Type 0} (P : A → Type 0) (b : Bool) (x y : Run A)
    → (b ≡ true → Goes P x)
    → (b ≡ false → Goes P y)
    → Goes P (elim b [ true ↦ x | false ↦ y ])
elim-Goes P true x y h k = h refl
elim-Goes P false x y h k = k refl

pub option-Goes :
    {A : Type 0} (P : A → Type 0) (o : Option ℕ) (x : Run A) (f : ℕ → Run A)
    → Goes P x
    → ((e : ℕ) → Goes P (f e))
    → Goes P (elim o [ none ↦ x | some e ↦ f e ])
option-Goes P none x f h k = h
option-Goes P (some e) x f h k = k e
