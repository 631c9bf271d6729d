-- ===== src/Json/Render.antt =====
-- serialize.hpp, `render_json_value`: the value of a C++ type, written to the stream.
use project_test_demo.Common.{ℕ, Bool, Option, some, List, [], ◌∷◌, if◌then◌else◌, Bytes, codes}
use project_test_demo.Common.Maybe.{◌>>=◌}
use project_test_demo.Json.Stream.{Stream, write, put}

module _ (allocate : ℕ → Bytes) where
  -- The loop of `join`, behind its first element.
  unfoldable pub join_rest :
      {A : Type 0} → (Stream → A → Option Stream) → ℕ → Stream → List A → Option Stream
  join_rest f delim s [] = some s
  join_rest f delim s (a ∷ rest) = do t ← put allocate s delim; u ← f t a; join_rest f delim u rest

  unfoldable pub join :
      {A : Type 0} → (Stream → A → Option Stream) → ℕ → Stream → List A → Option Stream
  join f delim s [] = some s
  join f delim s (a ∷ rest) = do t ← f s a; join_rest f delim t rest

  unfoldable pub render_sequence :
      {A : Type 0} → (Stream → A → Option Stream) → Stream → List A → Option Stream
  render_sequence f s v = do t ← put allocate s b'['; u ← join f b',' t v; put allocate u b']'

  unfoldable pub render_bool : Stream → Bool → Option Stream
  render_bool s b = write allocate s (if b then codes "true" else codes "false")

  -- `xtoa` gives the digits.
  unfoldable pub render_unsigned : (ℕ → Bytes) → Stream → ℕ → Option Stream
  render_unsigned xtoa s value = write allocate s (xtoa value)
