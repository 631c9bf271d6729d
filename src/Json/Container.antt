-- ===== src/Json/Container.antt =====
-- `render_json_value` and `from_json_container`: a sequence is read as it was written.
use project_test_demo.Common.{ℕ, false, Bytes}
use project_test_demo.Json.Stream.{Stream, put}
use project_test_demo.Json.Stream as Stream
use project_test_demo.Json.Token.{Token, ReaderT, tenth}
use project_test_demo.Json.Serial.{Serial}

module _ {A : Type 0} (j : Serial A) where
  module _ (allocate : ℕ → Bytes) where
    -- The reader, where it is made.
    abbrev fresh : Bytes → ℕ → Token → ReaderT
    fresh buf len tok = record {
      mem = buf;
      cur_tok = tok;
      cur_col = 0;
      cur_line = 0;
      len = len;
      cur_offset = 0;
      end_mark = false;
      decimal = tenth;
      has_error = false;
    }
