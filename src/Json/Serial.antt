-- ===== src/Json/Serial.antt =====
-- serialize.hpp: the types that are written and read, and `from_json_container` for a sequence of them.
use project_test_demo.Common.{
  ℕ, zero, suc, ◌+◌, Bool, true, false, not, Option, List, [], ◌∷◌, ◌++◌, length, Bytes,
}
use project_test_demo.Json.Stream.{Stream}
use project_test_demo.Json.Escape.{write_str}
use project_test_demo.Json.Token.{Token, ReaderT, Run, ok, out_of_fuel, ◌>>=◌}
use project_test_demo.Json.Next.{next, create}
use project_test_demo.Json.Values.{
  Doubles, read_unsigned, read_bool, read_string, is_end, read_sequence,
}
use project_test_demo.Json.Render.{render_sequence, render_bool, render_unsigned}

-- What the overloads of `render_json_value` and `read_json` are for a type, and its value-initialised
-- object.
pub record Serial (A : Type 0) : Type 0 where
  pub render : Stream → A → Option Stream
  pub read_json : ReaderT → A → Run (A × ReaderT)
  pub initial : A

module _ (allocate : ℕ → Bytes) where
  abbrev pub string_serial : Serial Bytes
  string_serial = record {
    render = write_str allocate;
    read_json = λ r old. read_string r r.cur_tok.type_ old;
    initial = [];
  }

  abbrev pub unsigned_serial : Doubles → (Bytes → ℕ) → (ℕ → Bytes) → ℕ → Serial ℕ
  unsigned_serial doubles strtoull xtoa w = record {
    render = render_unsigned allocate xtoa;
    read_json = λ r old. read_unsigned doubles strtoull w r r.cur_tok.type_ r.cur_tok.value old;
    initial = 0;
  }

  abbrev pub bool_serial : Doubles → Serial Bool
  bool_serial doubles = record {
    render = render_bool allocate;
    read_json = λ r old. read_bool doubles r r.cur_tok.type_ r.cur_tok.value old;
    initial = false;
  }

  abbrev pub sequence_serial : {A : Type 0} → Serial A → Serial (List A)
  sequence_serial j = record {
    render = render_sequence allocate j.render;
    read_json = read_sequence j.read_json j.initial;
    initial = [];
  }

module _ {A : Type 0} (j : Serial A) where
  -- `assign`, for a type without members of its own: true where an error was reported.
  unfoldable pub assign : ReaderT → A → Run (Bool × A × ReaderT)
  assign r t = do
    (a, s) ← j.read_json r t
    elim s.has_error [ true ↦ ok (true, a, s) | false ↦ do u ← next s; ok (false, a, u) ]

  unfoldable pub container_loop : ℕ → ReaderT → List A → Run (Bool × List A × ReaderT)
  container_loop zero r v = out_of_fuel
  container_loop (suc n) r v = elim (is_end r.cur_tok.type_) [
    | true ↦ ok (not r.has_error, v, r)
    | false ↦ elim r.has_error [
      | true ↦ ok (false, v, r)
      | false ↦ do
        (ret, a, s) ← assign r j.initial
        elim ret [ true ↦ container_loop n s v | false ↦ container_loop n s (v ++ (a ∷ [])) ]
    ]
  ]

  -- The reader is made on the text, with what its token is before, and an error that was reported before.
  unfoldable pub from_json_container : Bytes → ℕ → Token → Bool → Run (Bool × List A × ReaderT)
  from_json_container buf len tok reported = do
    r ← create buf len tok reported
    s ← next r
    container_loop (length buf + 2) s []
