-- ===== src/Ipdb/Columns.antt =====
-- ipdb.hpp: what the four classes of records have in common.
use project_test_demo.Common.{ℕ, List, [], ◌∷◌, ◌++◌, length, get_or, ltb, if◌then◌else◌, Bytes}

-- A getter of column k: the column if there are so many, and the empty string if not.
unfoldable pub column : ℕ → List Bytes → Bytes
column k data_ = if ltb k (length data_) then get_or data_ k [] else []

-- A label, with its colon, and a column.
abbrev pub Row : Type 0
Row = Bytes × Bytes

-- `sb << label; sb << column;` with a line feed between two of them.
unfoldable pub render : List Row → Bytes
render [] = []
render ((label, text) ∷ []) = label ++ text
render ((label, text) ∷ r ∷ rs) = (label ++ text) ++ b'\n' ∷ render (r ∷ rs)

abbrev pub line_of : Row → Bytes
line_of (label, text) = label ++ text
