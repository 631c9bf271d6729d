-- ===== src/Json/Values.antt =====
-- serialize.hpp, `read_json`: the value of a C++ type, from the token on that the reader stands at. A
-- function takes the object that it is called on, and gives it back with the reader.
use project_test_demo.Common.{
  ℕ, zero, suc, ◌+◌, ◌^◌, ◌%◌, Bool, true, false, not, ◌&&◌, ◌||◌, List, [], ◌∷◌, ◌++◌, length,
  take, drop, ltb, leb, ◌==◌, if◌then◌else◌, Bytes, c_str,
}
use project_test_demo.Json.Token.{
  Double, TokenType, t_string, t_int, t_uint, t_number, t_ctrl, t_end, Value, i64, u64, d64,
  ReaderT, Run, ok, undefined, out_of_fuel, ◌>>=◌, error,
}
use project_test_demo.Json.Next.{next, expect}
use project_test_demo.Json.Skip.{token_byte}

-- The text of the token.
abbrev pub token_text : ReaderT → Bytes
token_text r = take r.cur_tok.len (drop r.cur_tok.str r.mem)

-- The C string that starts at the token.
abbrev pub token_c_str : ReaderT → Bytes
token_c_str r = c_str (drop r.cur_tok.str r.mem)

-- `check_result`, for whether the value is 0.
unfoldable pub check_result : ReaderT → Bool → Bytes → ReaderT
check_result r zero_read [] = if zero_read then error r else r
check_result r zero_read (c ∷ cs) =
    if c == b'n' then r else if zero_read && not (c == b'0') then error r else r

-- What the code asks of a `double`, and the integer part that a cast gives.
pub record Doubles : Type 0 where
  pub truncated : Double → ℕ
  pub below_zero : Double → Bool
  pub above_min : Double → Bool

module _ (doubles : Doubles) (strtoull : Bytes → ℕ) where
  -- An unsigned integer of w bits. A value of the union other than the one that was written last is not
  -- defined. The sign of an `i64` stands in `neg`, which is not looked at.
  unfoldable pub read_unsigned : ℕ → ReaderT → TokenType → Value → ℕ → Run (ℕ × ReaderT)
  read_unsigned w r t_string v old = do
    let temp = strtoull (token_c_str r)
    s ← next (check_result r (temp % 2 ^ w == 0) (token_c_str r))
    ok (temp % 2 ^ w, s)
  read_unsigned w r t_int (i64 k) old = do
    s ← next (if leb (2 ^ 63) k then error r else r)
    ok (k % 2 ^ w, s)
  read_unsigned w r t_uint (u64 k) old = do s ← next r; ok (k % 2 ^ w, s)
  read_unsigned w r t_number (d64 x) old = do
    s ← next (if doubles.below_zero x then error r else r)
    ok (doubles.truncated x % 2 ^ w, s)
  read_unsigned w r t_ctrl v old = do s ← next (error r); ok (old, s)
  read_unsigned w r t_end v old = do s ← next (error r); ok (old, s)
  read_unsigned w r _ v old = undefined

-- One letter of `true`.
abbrev pub letter : Bytes → ℕ → ℕ → Bool
letter [] small large = false
letter (c ∷ cs) small large = c == small || c == large

abbrev pub is_true : Bytes → Bool
is_true text =
    length text == 4
    && letter text b't' b'T'
    && letter (drop 1 text) b'r' b'R'
    && letter (drop 2 text) b'u' b'U'
    && letter (drop 3 text) b'e' b'E'

module _ (doubles : Doubles) where
  unfoldable pub read_bool : ReaderT → TokenType → Value → Bool → Run (Bool × ReaderT)
  read_bool r t_string v old = do s ← next r; ok (is_true (token_text r), s)
  read_bool r t_int (i64 k) old = do s ← next r; ok (ltb 0 k, s)
  read_bool r t_uint (u64 k) old = do s ← next r; ok (ltb 0 k, s)
  read_bool r t_number (d64 x) old = do s ← next r; ok (doubles.above_min x, s)
  read_bool r t_ctrl v old = do s ← next (error r); ok (old, s)
  read_bool r t_end v old = do s ← next (error r); ok (old, s)
  read_bool r _ v old = undefined

unfoldable pub read_string : ReaderT → TokenType → Bytes → Run (Bytes × ReaderT)
read_string r t_string old = do s ← next r; ok (token_text r, s)
read_string r _ old = do s ← next (error r); ok (old, s)

abbrev pub is_end : TokenType → Bool
is_end t_end = true
is_end _ = false

-- The loop over the elements, behind the bracket. Each element is read into one that is new.
unfoldable pub read_items :
    {A : Type 0}
    → (ReaderT → A → Run (A × ReaderT))
    → A
    → ℕ
    → ReaderT
    → List A
    → Run (List A × ReaderT)
read_items go init zero r val = out_of_fuel
read_items go init (suc n) r val = do
  c ← token_byte r
  elim (not (c == b']') || is_end r.cur_tok.type_) [
    | false ↦ do s ← next r; ok (val, s)
    | true ↦ do
      (a, s) ← go r init
      d ← token_byte s
      elim (d == b',') [
        | true ↦ do t ← next s; read_items go init n t (val ++ (a ∷ []))
        | false ↦ do t ← next (if d == b']' then s else error s); ok (val ++ (a ∷ []), t)
      ]
  ]

unfoldable pub read_sequence :
    {A : Type 0} → (ReaderT → A → Run (A × ReaderT)) → A → ReaderT → List A → Run (List A × ReaderT)
read_sequence go init r val = do
  starts ← expect r b'['
  elim starts [
    | false ↦ ok (val, error r)
    | true ↦ do s ← next r; read_items go init (length r.mem + 2) s val
  ]
