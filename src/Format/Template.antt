-- ===== src/Format/Template.antt =====
-- Templates: texts, braces and numbered holes.
use project_test_demo.Common.{
  ℕ, zero, suc, ◌+◌, ◌-◌, ◌*◌, ◌^◌, ◌≤◌, ◌<◌, Option, none, some, List, [], ◌∷◌, ◌++◌, length,
  length-append, get_elem?, Bytes, ◌≡◌, ◌≢◌, refl, arith, ap, ◌∙◌, append_assoc, append-nil,
  Option-cases, inl, inr,
}
use Prim.{Unit}
use project_test_demo.Format.{find, digits, strtol, format_loop, format}

-- A text, a brace that stands for itself, and a number in braces.
pub data Piece : Type 0 where
  text : Bytes → Piece
  brace : Piece
  hole : ℕ → Bytes → Piece  -- its first digit, and the others

abbrev pub written : Piece → Bytes
written (text t) = t
written brace = b'{' ∷ b'{' ∷ []
written (hole d ds) = b'{' ∷ d ∷ (ds ++ (b'}' ∷ []))

abbrev pub template : List Piece → Bytes
template [] = []
template (p ∷ ps) = written p ++ template ps

-- The number that digits stand for.
abbrev pub number : ℕ → Bytes → ℕ
number v [] = v
number v (d ∷ ds) = number (v * 10 + (d - 48)) ds

abbrev pub argument : List Bytes → ℕ → Bytes
argument args i = elim (get_elem? args i) [ none ↦ [] | some a ↦ a ]

abbrev pub filled : List Bytes → List Piece → Bytes
filled args [] = []
filled args (text t ∷ ps) = t ++ filled args ps
filled args (brace ∷ ps) = b'{' ∷ filled args ps
filled args (hole d ds ∷ ps) = argument args (number 0 (d ∷ ds)) ++ filled args ps

abbrev pub AllDigits : Bytes → Type 0
AllDigits [] = Unit
AllDigits (d ∷ ds) = (48 ≤ d) × (d ≤ 57) × AllDigits ds

abbrev pub NoBrace : Bytes → Type 0
NoBrace [] = Unit
NoBrace (c ∷ cs) = (c ≢ b'{') × NoBrace cs

-- A text has no opening brace, and a number fits into a `long`.
abbrev pub AllPlain : List Piece → Type 0
AllPlain [] = Unit
AllPlain (text t ∷ ps) = NoBrace t × AllPlain ps
AllPlain (brace ∷ ps) = AllPlain ps
AllPlain (hole d ds ∷ ps) = AllDigits (d ∷ ds) × (number 0 (d ∷ ds) < 2 ^ 31) × AllPlain ps

digits-number : (v : ℕ) (ds : Bytes) → AllDigits ds → digits v ds ≡ number v ds
digits-number v [] h = refl
digits-number v (d ∷ ds) (low, high, rest) =
    ground (arith, digits-number (v * 10 + (d - 48)) ds rest)

strtol-number :
    (d : ℕ) (ds : Bytes)
    → AllDigits (d ∷ ds)
    → number 0 (d ∷ ds) < 2 ^ 31
    → strtol (d ∷ ds) ≡ number 0 (d ∷ ds)
strtol-number d ds h small =
    let (low, high, rest) = h in ground (arith, digits-number 0 (d ∷ ds) h, low, high)

find-hole : (ds rest : Bytes) → AllDigits ds → find b'}' (ds ++ (b'}' ∷ rest)) ≡ some (ds, rest)
find-hole [] rest h = refl
find-hole (d ∷ ds) rest (low, high, more) = ground (arith, find-hole ds rest more)

abbrev behind_text : Bytes → Option (Bytes × Bytes) → Option (Bytes × Bytes)
behind_text t none = none
behind_text t (some found) = some (t ++ found.0, found.1)

find-text : (t rest : Bytes) → NoBrace t → find b'{' (t ++ rest) ≡ behind_text t (find b'{' rest)
find-text [] rest h = ground arith
find-text (c ∷ cs) rest (other, more) = ground (arith, find-text cs rest more, other)

format_loop-text :
    (n : ℕ) (t rest : Bytes) (args : List Bytes) (ss : Bytes)
    → NoBrace t
    → format_loop (suc n) (t ++ rest) args ss ≡ format_loop (suc n) rest args (ss ++ t)
unfolding format_loop
format_loop-text n t rest args ss h = elim (Option-cases (find b'{' rest)) [
  | inl e ↦ ground (arith, find-text t rest h, e, append_assoc ss t rest)
  | inr (found, e) ↦ ground (arith, find-text t rest h, e, append_assoc ss t (found.0))
]

format_loop-hole :
    (n d : ℕ) (ds rest : Bytes) (args : List Bytes) (ss : Bytes)
    → AllDigits (d ∷ ds)
    → number 0 (d ∷ ds) < 2 ^ 31
    → format_loop (suc n) (written (hole d ds) ++ rest) args ss
      ≡ format_loop n rest args (ss ++ argument args (number 0 (d ∷ ds)))
unfolding format_loop
format_loop-hole n d ds rest args ss (low, high, more) small =
    let closed : find b'}' (d ∷ ((ds ++ (b'}' ∷ [])) ++ rest)) ≡ some (d ∷ ds, rest) =
      ap (λ l. find b'}' (d ∷ l)) (append_assoc ds (b'}' ∷ []) rest)
      ∙ find-hole (d ∷ ds) rest (low, high, more) in
    ground (arith, low, high, closed, strtol-number d ds (low, high, more) small, append-nil ss)

format_loop-template :
    (n : ℕ) (ps : List Piece) (args : List Bytes) (ss : Bytes)
    → length (template ps) < n
    → AllPlain ps
    → format_loop n (template ps) args ss ≡ some (ss ++ filled args ps)
unfolding format_loop
format_loop-template zero ps args ss h a = absurd (omega arith)
format_loop-template (suc n) [] args ss h a = refl
format_loop-template (suc n) (text t ∷ ps) args ss h (plain, a) =
    format_loop-text n t (template ps) args ss plain
    ∙ format_loop-template (suc n) ps args (ss ++ t) (omega (arith, length-append t (template ps)))
        a
    ∙ ap some (append_assoc ss t (filled args ps))
format_loop-template (suc n) (brace ∷ ps) args ss h a =
    format_loop-template n ps args ((ss ++ []) ++ (b'{' ∷ [])) (omega arith) a
    ∙ ap some (append_assoc (ss ++ []) (b'{' ∷ []) (filled args ps))
    ∙ ap (λ l. some (l ++ (b'{' ∷ filled args ps))) (append-nil ss)
format_loop-template (suc n) (hole d ds ∷ ps) args ss h (a1, a4, a5) =
    format_loop-hole n d ds (template ps) args ss a1 a4
    ∙ format_loop-template n ps args _
        (omega (arith, length-append (written (hole d ds)) (template ps))) a5
    ∙ ap some (append_assoc ss (argument args (number 0 (d ∷ ds))) (filled args ps))

-- Where a text is made of pieces, `format` with one argument at least gives each text as it is, one brace
-- for two, and for a number in braces the argument with that number, or nothing where there is none. A
-- text has no opening brace in it, and a number fits into a `long` of 32 bits.
pub format-template :
    (ps : List Piece) (a : Bytes) (args : List Bytes)
    → AllPlain ps
    → format (template ps) (a ∷ args) ≡ some (filled (a ∷ args) ps)
format-template ps a args plain =
    format_loop-template (suc (length (template ps))) ps (a ∷ args) [] (omega arith) plain
