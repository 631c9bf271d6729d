-- ===== src/Json/Skip.antt =====
-- serialize.hpp, `skip` and its parts: a value that no member wants is passed over. Calls nest, and
-- loops run, for a given number of rounds.
use project_test_demo.Common.{ℕ, zero, suc, true, false, ◌==◌, ◌≡◌, refl, ap, ◌∙◌}
use project_test_demo.Json.Token.{
  TokenType, t_ctrl, t_end, ReaderT, Run, ok, out_of_fuel, ◌>>=◌, byte_at, error,
}
use project_test_demo.Json.Next.{next}

-- `tok->str.str[0]`
unfoldable pub token_byte : ReaderT → Run ℕ
token_byte r = byte_at r.mem r.cur_tok.str

-- The comma behind a part, if there is one.
unfoldable pub pass_comma : ReaderT → Run ReaderT
pass_comma r = do c ← token_byte r; elim (c == b',') [ true ↦ next r | false ↦ ok r ]

-- `skip_array`, with how a value is skipped.
unfoldable pub skip_array : (ReaderT → Run ReaderT) → ℕ → ReaderT → Run ReaderT
skip_array go zero r = out_of_fuel
skip_array go (suc n) r = do
  c ← token_byte r
  elim (c == b']') [ true ↦ next r | false ↦ do s ← go r; t ← pass_comma s; skip_array go n t ]

unfoldable pub skip_key : ReaderT → TokenType → Run ReaderT
skip_key r t_ctrl = ok (error r)
skip_key r t_end = ok (error r)
skip_key r _ = next r

unfoldable pub skip_object : (ReaderT → Run ReaderT) → ℕ → ReaderT → Run ReaderT
skip_object go zero r = out_of_fuel
skip_object go (suc n) r = do
  c ← token_byte r
  elim (c == b'}') [
    | true ↦ next r
    | false ↦ do
      s ← skip_key r r.cur_tok.type_
      d ← token_byte s
      elim (d == b':') [
        | false ↦ next (error s)
        | true ↦ do t ← next s; u ← go t; v ← pass_comma u; skip_object go n v
      ]
  ]

-- What `skip` does before a control character.
unfoldable pub skip_ctrl : (ReaderT → Run ReaderT) → ℕ → ReaderT → ℕ → Run ReaderT
skip_ctrl go n r c = elim (c == b'[') [
  | true ↦ do s ← next r; skip_array go n s
  | false ↦ elim (c == b'{') [ true ↦ do s ← next r; skip_object go n s | false ↦ ok r ]
]

unfoldable pub skip_typed : (ReaderT → Run ReaderT) → ℕ → ReaderT → TokenType → Run ReaderT
skip_typed go n r t_ctrl = do c ← token_byte r; skip_ctrl go n r c
skip_typed go n r t_end = ok r
skip_typed go n r _ = next r

-- `skip`, nested so deep.
unfoldable pub skip_value : ℕ → ReaderT → Run ReaderT
skip_value zero r = out_of_fuel
skip_value (suc n) r = skip_typed (skip_value n) n r r.cur_tok.type_

skip_value-t_end : (n : ℕ) (r : ReaderT) → r.cur_tok.type_ ≡ t_end → skip_value (suc n) r ≡ ok r
unfolding skip_value skip_typed
skip_value-t_end n r e = ap (skip_typed (skip_value n) n r) e

pass_comma-nul : (r : ReaderT) → token_byte r ≡ ok 0 → pass_comma r ≡ ok r
unfolding pass_comma
pass_comma-nul r e = ap (λ o. o >>= λ c. elim (c == b',') [ true ↦ next r | false ↦ ok r ]) e

-- Where the text ends within an array that is skipped, before its bracket, the loop never ends: however
-- many rounds it is given, and however deep the calls may nest, they are used up.
pub skip_array-unclosed :
    (depth n : ℕ) (r : ReaderT)
    → r.cur_tok.type_ ≡ t_end
    → token_byte r ≡ ok 0
    → skip_array (skip_value depth) n r ≡ out_of_fuel
unfolding skip_array skip_value
skip_array-unclosed depth zero r e z = refl
skip_array-unclosed zero (suc n) r e z =
    ap (λ o. o >>= λ c. elim (c == b']') [ true ↦ next r | false ↦ out_of_fuel ]) z
skip_array-unclosed (suc depth) (suc n) r e z =
    let go = skip_value (suc depth) in
    ap
      (λ o. o >>= λ c. elim (c == b']') [
        | true ↦ next r
        | false ↦ go r >>= λ s. pass_comma s >>= λ t. skip_array go n t
      ])
      z
    ∙ ap (λ o. o >>= λ s. pass_comma s >>= λ t. skip_array go n t) (skip_value-t_end depth r e)
    ∙ ap (λ o. o >>= λ t. skip_array go n t) (pass_comma-nul r z)
    ∙ skip_array-unclosed (suc depth) n r e z
