-- ===== src/Ipdb/Find.antt =====
-- ipdb.hpp, `reader`: from an address to its columns.
use project_test_demo.Common.{
  ℕ, ◌+◌, Bool, bit_and, Option, none, some, List, [], ◌∷◌, length, take, drop, ltb, ◌==◌,
  if◌then◌else◌, Bytes, equal, c_str,
}
use project_test_demo.Common.Dict.{Dict, emplace}
use project_test_demo.Common.Maybe.{◌>>=◌}
use project_test_demo.Ipdb.Reader.{Reader, search, resolve, empty}
use project_test_demo.Ipdb.Split.{split}

unfoldable pub is_ipv4_support : Reader → Bool
is_ipv4_support r = bit_and r.ip_version 1 == 1

unfoldable pub is_ipv6_support : Reader → Bool
is_ipv6_support r = bit_and r.ip_version 2 == 2

-- `languages_.find(language)`
unfoldable pub language_offset : Bytes → List (Bytes × ℕ) → Option ℕ
language_offset language [] = none
language_offset language ((name, off) ∷ rest) =
    if equal name language then some off else language_offset language rest

-- The columns of a text, from `off` on, one for each field.
unfoldable pub columns : Reader → ℕ → Bytes → List Bytes
columns r off body =
    if empty body
    then []
    else let tmp = split body (b'\t' ∷ []) in
      if ltb (length tmp) (off + length r.fields) then [] else take (length r.fields) (drop off tmp)

-- `info.emplace(fields_[k++], v)` for each v; `none` where there are more columns than fields.
unfoldable pub emplace_all : Dict → List Bytes → List Bytes → Option Dict
emplace_all info fields [] = some info
emplace_all info [] (v ∷ vs) = none
emplace_all info (field ∷ fields) (v ∷ vs) = emplace_all (emplace field v info) fields vs

-- `inet_pton` of the two families: the bytes of the address in network order, if the text is one.
module _ (pton4 pton6 : Bytes → Option Bytes) where
  -- The address for the search, and how many bits it has, or nothing where the text is no address or
  -- the file does not support its family.
  unfoldable pub address : Reader → Bytes → Option (Bytes × ℕ)
  address r addr = elim (pton4 (c_str addr)) [
    | some ip ↦ if is_ipv4_support r then some (ip, 32) else none
    | none ↦ elim (pton6 (c_str addr)) [
      | some ip ↦ if is_ipv6_support r then some (ip, 128) else none
      | none ↦ none
    ]
  ]

  unfoldable pub find_str : Reader → Bytes → Option Bytes
  find_str r addr = elim (address r addr) [
    | none ↦ some []
    | some (ip, bit_count) ↦ do node ← search r ip bit_count; resolve r node
  ]

  unfoldable pub finds : Reader → Bytes → Bytes → Option (List Bytes)
  finds r addr language = elim (language_offset language r.languages) [
    | none ↦ some []
    | some off ↦ do body ← find_str r addr; some (columns r off body)
  ]

  unfoldable pub find_map : Reader → Bytes → Bytes → Option Dict
  find_map r addr language = do
    found ← finds r addr language
    if length found == 0
        then some []
        else if length r.fields == 0
        then some []
        else emplace_all [] r.fields found
