-- ===== src/Json/Token.antt =====
-- serialize.hpp, `token` and the object of `reader_t`, with the reads and stores that all its parsers use.
use project_test_demo.Common.{
  ℕ, zero, suc, ◌+◌, ◌-◌, Bool, true, false, [], ◌∷◌, ◌&&◌, ◌||◌, ltb, leb, ◌==◌, if◌then◌else◌,
  Bytes,
}

-- A `double`, by the operations that made it: how they round is not modelled.
pub data Double : Type 0 where
  of_i64 of_u64 : ℕ → Double
  tenth : Double
  times_digit : Double → ℕ → Double
  plus times : Double → Double → Double

pub data TokenType : Type 0 where
  t_string t_int t_uint t_number t_ctrl t_end : TokenType

-- The member of the union that was written last. The sign of an `i64` is kept in `neg`.
pub data Value : Type 0 where
  i64 u64 : ℕ → Value
  d64 : Double → Value

-- `str` is an offset in the memory.
pub record Token : Type 0 where
  pub str : ℕ
  pub len : ℕ
  pub type_ : TokenType
  pub value : Value
  pub neg : Bool

-- The memory from `ptr_` on, which the reader also writes to, and `g_has_error`.
pub record ReaderT : Type 0 where
  pub mem : Bytes
  pub cur_tok : Token
  pub cur_col : ℕ
  pub cur_line : ℕ
  pub len : ℕ
  pub cur_offset : ℕ
  pub end_mark : Bool
  pub decimal : Double
  pub has_error : Bool

-- A call returns, does what C++ leaves undefined, or is still running when its rounds are used up.
pub data Run {ℓ} (A : Type ℓ) : Type ℓ where
  ok : A → Run A
  undefined : Run A
  out_of_fuel : Run A

infixl 5 ◌>>=◌
abbrev pub ◌>>=◌ {ℓ κ} : {A : Type ℓ} {B : Type κ} → Run A → (A → Run B) → Run B
ok a >>= f = f a
undefined >>= f = undefined
out_of_fuel >>= f = out_of_fuel

unfoldable pub error : ReaderT → ReaderT
error r = record r { has_error = true }

abbrev pub byte_at : Bytes → ℕ → Run ℕ
byte_at [] i = undefined
byte_at (c ∷ cs) zero = ok c
byte_at (c ∷ cs) (suc i) = byte_at cs i

abbrev pub put_at : Bytes → ℕ → ℕ → Run Bytes
put_at [] i v = undefined
put_at (c ∷ cs) zero v = ok (v ∷ cs)
put_at (c ∷ cs) (suc i) v = do after ← put_at cs i v; ok (c ∷ after)

unfoldable pub read : ReaderT → Run ℕ
read r = elim r.end_mark [ true ↦ ok 0 | false ↦ byte_at r.mem r.cur_offset ]

-- What `take` does once the next byte is read.
unfoldable pub moved : ReaderT → ℕ → ReaderT
moved r v = record r {
  cur_offset = suc r.cur_offset;
  end_mark = (ltb 0 r.len && leb r.len (suc r.cur_offset)) || v == 0;
  cur_col = if v == b'\n' then 0 else if v == b'\r' then r.cur_col else r.cur_col + 1;
  cur_line = if v == b'\n' then r.cur_line + 1 else r.cur_line;
}

unfoldable pub take : ReaderT → Run ReaderT
take r = elim r.end_mark [
  | true ↦ ok r
  | false ↦ do v ← byte_at r.mem (suc r.cur_offset); ok (moved r v)
]

-- `skip`, for so many rounds.
unfoldable pub skip : ℕ → ReaderT → ℕ → Run (ℕ × ReaderT)
skip zero r c = out_of_fuel
skip (suc n) r c = elim (c == b' ' || c == b'\t' || c == b'\r' || c == b'\n') [
  | false ↦ ok (c, r)
  | true ↦ do s ← take r; d ← read s; skip n s d
]

unfoldable pub fill_escape_char : ReaderT → ℕ → ℕ → Run ReaderT
fill_escape_char r zero c = ok r
fill_escape_char r (suc k) c =
    if ltb r.cur_offset (suc k)
    then undefined
    else do after ← put_at r.mem (r.cur_offset - suc k) c; ok (record r { mem = after })
