-- ===== src/Json/ContainerTests.antt =====
-- Sequences of small values, written and read.
use project_test_demo.Common.{◌^◌, true, false, List, [], ◌∷◌, ◌++◌, Bytes, codes, ◌≡◌, refl, arith}
use project_test_demo.Json.Stream as Stream
use project_test_demo.Json.Stream.{Stream, zeros, str}
use project_test_demo.Json.Growth.{length-zeros}
use project_test_demo.Json.Escape.{escaped, escape_, quoted_text}
use project_test_demo.Json.Token.{Token, t_end, u64, ReaderT, ok, ◌>>=◌, tenth}
use project_test_demo.Json.Next.{next}
use project_test_demo.Json.Serial.{Serial, string_serial, sequence_serial, from_json_container}
use project_test_demo.Json.Kept.{Goes}
use project_test_demo.Json.Cursor.{Stands}
use project_test_demo.Json.Quote.{AllReadable}
use project_test_demo.Json.Spoken.{Spoken}
use project_test_demo.Json.Leaves.{string_spoken}
use project_test_demo.Json.Sequences.{AllSpoken, sequence_text}
use project_test_demo.Json.Items.{sequence_spoken}
use project_test_demo.Json.ContainerFaults.{from_json_container-reported, bracket_text_is_lost}

abbrev no_token : Token
no_token = record { str = 0; len = 0; type_ = t_end; value = u64 0; neg = false }

abbrev texts : Serial Bytes
texts = string_serial zeros

abbrev rows : Serial (List Bytes)
rows = sequence_serial zeros texts

AllReadable-ab : AllReadable (codes "a\"b")
unfolding escape_
AllReadable-ab = (refl, (refl, (refl, tt)))

AllReadable-c : AllReadable (codes "c")
unfolding escape_
AllReadable-c = (refl, tt)

abbrev ab : Spoken zeros texts (codes "a\"b")
ab = string_spoken zeros length-zeros (codes "a\"b") AllReadable-ab

abbrev c : Spoken zeros texts (codes "c")
c = string_spoken zeros length-zeros (codes "c") AllReadable-c

abbrev two_texts : Spoken zeros rows (codes "a\"b" ∷ codes "c" ∷ [])
two_texts =
    sequence_spoken zeros texts length-zeros (codes "a\"b" ∷ codes "c" ∷ []) (ab, (c, tt))
      (refl, (refl, tt))

abbrev no_text : Spoken zeros rows []
no_text = sequence_spoken zeros texts length-zeros [] tt tt

abbrev two_rows : AllSpoken zeros rows ((codes "a\"b" ∷ codes "c" ∷ []) ∷ [] ∷ [])
two_rows = (two_texts, (no_text, tt))

rows_text :
    sequence_text zeros rows ((codes "a\"b" ∷ codes "c" ∷ []) ∷ [] ∷ []) two_rows
    ≡ codes "[[\"a\\\"b\",\"c\"],[]]"
unfolding escaped escape_
rows_text = refl

from_json_container-reported_example :
    Goes
      (λ x. (x.0 ≡ false) × (x.1 ≡ []))
      (from_json_container texts (codes "[\"a\"]" ++ (0 ∷ [])) 6 no_token true)
from_json_container-reported_example =
    from_json_container-reported texts (codes "[\"a\"]" ++ (0 ∷ [])) 6 no_token

abbrev cut : ReaderT
cut = record {
  mem = b'[' ∷ (quoted_text (codes "]x") ++ codes ",\"y\"]");
  cur_tok = no_token;
  cur_col = 0;
  cur_line = 0;
  len = 2 ^ 32;
  cur_offset = 0;
  end_mark = false;
  decimal = tenth;
  has_error = false;
}

bracket_text_is_lost_example :
    (first : ReaderT) × (next cut ≡ ok first)
    × (last : ReaderT) × (rows.read_json first [] ≡ (next last >>= λ s. ok ([], s)))
    × (behind : Bytes) × Stands last behind [] (codes ",\"y\"]")
    × (last.has_error ≡ false)
unfolding escape_ escaped
bracket_text_is_lost_example =
    bracket_text_is_lost zeros (codes "x") cut [] b',' (codes "\"y\"]") (refl, (refl, tt)) refl
      (record { memory = refl; place = refl; open_ = refl; whole = omega arith }) (omega arith)
