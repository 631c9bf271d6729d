-- ===== src/Multipart/Callbacks.antt =====
-- Laws of the callbacks: what they do to the last part, and that a piece may be cut in two.
use project_test_demo.Common.{
  ℕ, none, some, List, [], ◌∷◌, ◌++◌, Bytes, ◌≡◌, refl, sym, ap, ◌∙◌, ◌⊎◌, arith, inl, inr,
  append_assoc,
}
use project_test_demo.Multipart.Types.{
  State, Part, Parser, Callback, update_back, on_header_field, on_header_value, on_data,
}
use project_test_demo.Multipart.Machine.{goto_state}

pub update_back-snoc :
    (f : Part → Part) (xs : List Part) (x : Part)
    → update_back f (xs ++ x ∷ []) ≡ some (xs ++ f x ∷ [])
unfolding update_back
update_back-snoc f [] x = refl
update_back-snoc f (y ∷ []) x = refl
update_back-snoc f (y ∷ z ∷ xs) x = rw (update_back-snoc f (z ∷ xs) x, update_back)

pub snoc_cases :
    (xs : List Part) → (xs ≡ []) ⊎ ((ys : List Part) × (y : Part) × (xs ≡ ys ++ y ∷ []))
snoc_cases [] = inl refl
snoc_cases (x ∷ xs) = elim (snoc_cases xs) [
  | inl e ↦ inr ([], x, ap (◌∷◌ x) e)
  | inr (ys, y, e) ↦ inr (x ∷ ys, y, ap (◌∷◌ x) e)
]

-- One callback after another.
abbrev pub chain : Callback → (Parser → Callback) → Callback
chain none k = none
chain (some (code, p)) k = k p

on_data-none : (p : Parser) (bs : Bytes) → p.parts ≡ [] → on_data p bs ≡ none
unfolding on_data update_back
on_data-none p bs e = ground arith

pub on_data-some :
    (p : Parser) (bs : Bytes) (ys : List Part) (y : Part)
    → p.parts ≡ ys ++ y ∷ []
    → on_data p bs ≡ some (0, record p { parts = ys ++ (record y { body = y.body ++ bs }) ∷ [] })
unfolding on_data
on_data-some p bs ys y e =
    ground (arith, update_back-snoc (λ part. record part { body = part.body ++ bs }) ys y)

on_data_chunk :
    (p : Parser) (a : ℕ) (bs : Bytes)
    → on_data p (a ∷ bs) ≡ chain (on_data p (a ∷ [])) (λ q. on_data q bs)
on_data_chunk p a bs = elim (snoc_cases p.parts) [
  | inl e ↦ rw (on_data-none p (a ∷ bs) e, on_data-none p (a ∷ []) e)
  | inr (ys, y, e) ↦
      let grown : Part = record y { body = y.body ++ a ∷ [] } in
      rw (on_data-some p (a ∷ bs) ys y e, on_data-some p (a ∷ []) ys y e)
        (sym (
          on_data-some (record p { parts = ys ++ grown ∷ [] }) bs ys grown refl
          ∙ rw (append_assoc y.body (a ∷ []) bs)))
]

on_header_value_chunk :
    (p : Parser) (a : ℕ) (bs : Bytes)
    → on_header_value p (a ∷ bs) ≡ chain (on_header_value p (a ∷ [])) (λ q. on_header_value q bs)
unfolding on_header_value
on_header_value_chunk p a bs = rw (append_assoc p.header_value (a ∷ []) bs)

on_header_field_chunk :
    (p : Parser) (a : ℕ) (bs : Bytes)
    → on_header_field p (a ∷ bs) ≡ chain (on_header_field p (a ∷ [])) (λ q. on_header_field q bs)
unfolding on_header_field
on_header_field_chunk p a bs =
    ground (arith, append_assoc p.header_name (a ∷ []) bs, append_assoc {0} [] (a ∷ []) bs)

abbrev pub relabel : State → Callback → Callback
relabel s none = none
relabel s (some (code, p)) = some (code, goto_state p s)

-- What the three data callbacks have in common.
pub record Chunks (callback : Parser → Bytes → Callback) : Type 0 where
  pub chunk :
      (p : Parser) (a : ℕ) (bs : Bytes)
      → callback p (a ∷ bs) ≡ chain (callback p (a ∷ [])) (λ q. callback q bs)
  pub code_zero :
      (p : Parser) (bs : Bytes) {code : ℕ} {q : Parser} → callback p bs ≡ some (code, q) → code ≡ 0
  pub keeps_state :
      (p : Parser) (bs : Bytes) {code : ℕ} {q : Parser}
      → callback p bs ≡ some (code, q)
      → q.state ≡ p.state
  pub any_state :
      (p : Parser) (s : State) (bs : Bytes)
      → callback (goto_state p s) bs ≡ relabel s (callback p bs)

pub on_data-Chunks : Chunks on_data
unfolding on_data
on_data-Chunks = record {
  chunk = on_data_chunk;
  code_zero = λ p bs e. ground arith;
  keeps_state = λ p bs e. ground arith;
  any_state = λ p s bs. ground arith;
}

pub on_header_value-Chunks : Chunks on_header_value
unfolding on_header_value
on_header_value-Chunks = record {
  chunk = on_header_value_chunk;
  code_zero = λ p bs e. ground arith;
  keeps_state = λ p bs e. ground arith;
  any_state = λ p s bs. ground arith;
}

pub on_header_field-Chunks : Chunks on_header_field
unfolding on_header_field
on_header_field-Chunks = record {
  chunk = on_header_field_chunk;
  code_zero = λ p bs e. ground arith;
  keeps_state = λ p bs e. ground arith;
  any_state = λ p s bs. ground arith;
}

pub Callback-cases :
    (r : Callback) → (r ≡ none) ⊎ ((code : ℕ) × (q : Parser) × (r ≡ some (code, q)))
Callback-cases none = inl refl
Callback-cases (some (code, q)) = inr (code, q, refl)
