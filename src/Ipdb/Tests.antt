-- ===== src/Ipdb/Tests.antt =====
-- Runs of the reader's functions, and the theorems applied to them.
use project_test_demo.Common.{List, [], ◌∷◌, Bytes, codes, ◌≡◌, refl}
use project_test_demo.Ipdb.Split.{split, split_loop}

split_tabs : split (codes "a\t\tbc") (codes "\t") ≡ codes "a" ∷ [] ∷ codes "bc" ∷ []
unfolding split split_loop
split_tabs = refl

-- Of a separator with two bytes, the second is left in front of the next piece.
split_long : split (codes "a--b") (codes "--") ≡ codes "a" ∷ codes "-b" ∷ []
unfolding split split_loop
split_long = refl

abbrev two_columns : List Bytes
two_columns = codes "A" ∷ codes "B" ∷ []

abbrev six_columns : Bytes → List Bytes
six_columns last = codes "A" ∷ codes "B" ∷ codes "C" ∷ codes "D" ∷ codes "E" ∷ last ∷ []
