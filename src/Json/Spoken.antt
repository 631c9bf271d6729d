-- ===== src/Json/Spoken.antt =====
-- Values that are read as they were written: texts, numbers, and sequences of such values.
use project_test_demo.Common.{
  ℕ, ◌+◌, ◌^◌, ◌<◌, true, false, some, ◌||◌, [], ◌∷◌, ◌++◌, length, ◌==◌, Bytes, ◌≡◌,
}
use project_test_demo.Json.Stream.{Stream, str}
use project_test_demo.Json.Growth.{IsValid}
use project_test_demo.Json.Written.{Room}
use project_test_demo.Json.Token.{ReaderT, ok, ◌>>=◌}
use project_test_demo.Json.Next.{next}
use project_test_demo.Json.Skip.{token_byte}
use project_test_demo.Json.Values.{is_end}
use project_test_demo.Json.Serial.{Serial}
use project_test_demo.Json.Cursor.{Stands, Starts}

-- What comes behind a value in a container.
abbrev pub Delimits : ℕ → Type 0
Delimits c = (c == b',' || c == b']') ≡ true

-- The value a is read: `next` finds its first token, which starts with a given byte and is not the end of
-- the text, and `read_json` gives a, with the reader behind the `next` on what comes behind.
pub record Reads {A : Type 0} (j : Serial A) (a : A) (opening : ℕ) (r : ReaderT) (stop : ℕ)
    (rest : Bytes) : Type 0 where
  pub first : ReaderT
  pub starts : next r ≡ ok first
  pub is_value : is_end first.cur_tok.type_ ≡ false
  pub begins : token_byte first ≡ ok opening
  pub quiet : first.has_error ≡ r.has_error
  pub last : ReaderT
  pub reads : j.read_json first j.initial ≡ (next last >>= λ s. ok (a, s))
  pub behind : Bytes
  pub stands : Stands last behind [] (stop ∷ rest)
  pub no_error : last.has_error ≡ r.has_error
  pub same_len : last.len ≡ r.len

-- A value with the text that is written for it, and that is read back as this value.
pub record Spoken {A : Type 0} (allocate : ℕ → Bytes) (j : Serial A) (a : A) : Type 0 where
  pub text : Bytes
  pub opening : ℕ
  pub no_nul : (rest : Bytes) → Starts (text ++ rest)
  pub writes :
      (s : Stream)
      → IsValid s
      → Room s text
      → (t : Stream) × (j.render s a ≡ some t)
        × IsValid t
        × (str t ≡ str s ++ text)
        × (t.write_ptr ≡ s.write_ptr + length text)
  pub reads :
      (r : ReaderT) (before : Bytes) (stop : ℕ) (rest : Bytes)
      → Stands r before [] (text ++ (stop ∷ rest))
      → Delimits stop
      → r.len < 2 ^ 64
      → Reads j a opening r stop rest
