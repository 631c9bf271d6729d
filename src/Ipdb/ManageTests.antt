-- ===== src/Ipdb/ManageTests.antt =====
-- Runs of `is_valid_utf8` and `get_ipdb_info`, and the theorems applied to them.
use project_test_demo.Common.{
  true, false, not, some, [], ◌∷◌, ◌++◌, length, ◌==◌, Bytes, codes, ◌≡◌, refl,
}
use project_test_demo.Ipdb.Find.{columns}
use project_test_demo.Ipdb.Utf8.{
  is_valid_utf8, utf8_loop, character, first_byte, other_bytes, out_of_range,
}
use project_test_demo.Ipdb.Manage.{Info, get_ipdb_info, Told, get_ipdb_info-columns}
use project_test_demo.Ipdb.ReaderTests.{file, pton4, pton6, language_file, text_file}

-- The characters U+4E2D and U+1F600.
abbrev middle : Bytes
middle = 0xe4 ∷ 0xb8 ∷ 0xad ∷ []

abbrev face : Bytes
face = 0xf0 ∷ 0x9f ∷ 0x98 ∷ 0x80 ∷ []

middle_accepted : is_valid_utf8 middle ≡ true
unfolding is_valid_utf8 utf8_loop character first_byte other_bytes out_of_range
middle_accepted = refl

face_accepted : is_valid_utf8 face ≡ true
unfolding is_valid_utf8 utf8_loop character first_byte other_bytes out_of_range
face_accepted = refl

-- A character that is longer than it has to be, and half of a pair of surrogates.
overlong_refused : is_valid_utf8 (0xc1 ∷ 0xbf ∷ []) ≡ false
unfolding is_valid_utf8 utf8_loop character first_byte other_bytes out_of_range
overlong_refused = refl

surrogate_refused : is_valid_utf8 (0xed ∷ 0xa0 ∷ 0x80 ∷ []) ≡ false
unfolding is_valid_utf8 utf8_loop character first_byte other_bytes out_of_range
surrogate_refused = refl

abbrev before : Info
before = record { country_str = []; region_str = []; city_str = codes "C"; isp_str = codes "D" }

-- A conversion that doubles its text.
abbrev twice : Bytes → Bytes
twice s = s ++ s

get_ipdb_info-columns_example :
    (after : Info) × (get_ipdb_info twice pton4 pton6
        (some file)
        (codes "1.2.3.4")
        (codes "CN")
        before
      ≡ some (not (length (columns file 0 (codes "A\tB")) == 0), after))
    × Told twice pton4 pton6 file (columns file 0 (codes "A\tB")) before after
get_ipdb_info-columns_example =
    get_ipdb_info-columns twice pton4 pton6 file (codes "1.2.3.4") (codes "CN") (codes "A\tB") 0
      before language_file text_file
