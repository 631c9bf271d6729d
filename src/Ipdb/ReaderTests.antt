-- ===== src/Ipdb/ReaderTests.antt =====
-- A small file, and the theorems on the reader applied to it.
use project_test_demo.Common.{
  ℕ, zero, suc, Option, none, some, [], ◌∷◌, ◌++◌, length, if◌then◌else◌, Bytes, codes, equal,
  c_str, ◌≡◌, refl, arith,
}
use project_test_demo.Common.Dict.{Dict, find, emplace}
use project_test_demo.Common.Int.{pos}
use project_test_demo.Ipdb.Reader.{
  Reader, word, read_node, bit, search_loop, search, v4_loop, resolve, text_at, text_until, checked,
  size_of, signed_char,
}
use project_test_demo.Ipdb.Split.{split, split_loop}
use project_test_demo.Ipdb.Search.{Tree, leaf, fork, Holds, lookup, root, search-lookup}
use project_test_demo.Ipdb.Mapped.{mapped, search-mapped}
use project_test_demo.Ipdb.Record.{node_of, last_record_is_lost}
use project_test_demo.Ipdb.Find.{
  address, find_str, find_map, finds, columns, emplace_all, language_offset, is_ipv4_support,
  is_ipv6_support,
}
use project_test_demo.Ipdb.Lookup.{value_of, find_map-record}

abbrev zeros : ℕ → Bytes
zeros zero = []
zeros (suc n) = 0 ∷ zeros n

-- One node, and a byte that belongs to no record.
abbrev nodes : Bytes
nodes = 0 ∷ 0 ∷ 0 ∷ 2 ∷ 0 ∷ 0 ∷ 0 ∷ 7 ∷ 0 ∷ []

abbrev file_of : Bytes → Reader
file_of rest = record {
  ip_version = 3;
  v4_offset = pos 2;
  file_size = 1000;
  data_size = length (nodes ++ (0 ∷ 3 ∷ (codes "A\tB" ++ rest)));
  node_count = pos 1;
  data_ = nodes ++ (0 ∷ 3 ∷ (codes "A\tB" ++ rest));
  languages = (codes "CN", 0) ∷ [];
  fields = codes "country_name" ∷ codes "region_name" ∷ [];
}

abbrev pub file : Reader
file = file_of (zeros 70)

abbrev ip4 : Bytes
ip4 = 1 ∷ 2 ∷ 3 ∷ 4 ∷ []

abbrev pub pton4 : Bytes → Option Bytes
pton4 s = if equal s (codes "1.2.3.4") then some ip4 else none

abbrev pub pton6 : Bytes → Option Bytes
pton6 s = if equal s (codes "::1") then some (zeros 15 ++ (1 ∷ [])) else none

abbrev tree : Tree
tree = fork (leaf (pos 2)) (leaf (pos 7))

resolve-file : resolve file (pos 2) ≡ some (codes "A\tB")
unfolding resolve text_at text_until checked size_of signed_char c_str
resolve-file = refl

find_map-file :
    find_map pton4 pton6 file (codes "1.2.3.4") (codes "CN")
    ≡ some ((codes "country_name", codes "A") ∷ (codes "region_name", codes "B") ∷ [])
unfolding find_map finds find_str address columns emplace_all emplace language_offset
    is_ipv4_support search search_loop resolve text_at text_until checked size_of signed_char c_str
    split split_loop equal
find_map-file = refl

tree_held : Holds file (root file 128) tree
unfolding Holds read_node word
tree_held = (refl, (pos 2, refl, (refl, refl)), (pos 7, refl, (refl, refl)))

lookup-tree : lookup tree (zeros 15 ++ (1 ∷ [])) 0 128 ≡ some (pos 2)
unfolding lookup bit
lookup-tree = refl

search-lookup_example : search file (zeros 15 ++ (1 ∷ [])) 128 ≡ some (pos 2)
search-lookup_example =
    search-lookup tree file (zeros 15 ++ (1 ∷ [])) 128 (pos 2) tree_held lookup-tree

v4_file : v4_loop file 0 96 (pos 0) ≡ some file.v4_offset
unfolding v4_loop read_node word
v4_file = refl

search-mapped_example : search file (mapped ip4) 128 ≡ search file ip4 32
search-mapped_example = search-mapped file ip4 v4_file (λ e. absurd (ground arith))

last_record_is_lost_example : resolve (file_of []) (node_of 1 nodes) ≡ some []
last_record_is_lost_example =
    last_record_is_lost (file_of []) 1 nodes 3 b'A' (codes "\tB")
      (refl, refl, refl, omega arith, omega arith, omega arith) (refl, (refl, (refl, tt)))
      (omega arith) (omega arith) (omega arith)

pub language_file : language_offset (codes "CN") file.languages ≡ some 0
unfolding language_offset equal
language_file = refl

pub text_file : find_str pton4 pton6 file (codes "1.2.3.4") ≡ some (codes "A\tB")
unfolding find_str address is_ipv4_support search search_loop resolve text_at text_until checked
    size_of signed_char c_str equal
text_file = refl

address-file : address pton4 pton6 file (codes "::1") ≡ some (zeros 15 ++ (1 ∷ []), 128)
unfolding address is_ipv6_support c_str equal
address-file = refl

find_map-record_example :
    (d : Dict) × (find_map pton4 pton6 file (codes "::1") (codes "CN") ≡ some d)
    × ((j : Bytes) → find j d ≡ value_of j file.fields (codes "A" ∷ codes "B" ∷ []))
find_map-record_example =
    find_map-record pton4 pton6 file (codes "::1") (codes "CN") (zeros 15 ++ (1 ∷ [])) 128 0 tree
      (pos 2) (codes "A") (codes "B" ∷ []) address-file language_file tree_held lookup-tree
      resolve-file ((refl, tt), ((refl, tt), tt)) refl (omega arith)
