-- ===== src/Ipdb/Lookup.antt =====
-- What `find_map` returns: the columns of the record under the names of the fields.
use project_test_demo.Common.{
  ℕ, ◌+◌, ◌≤◌, false, Option, none, some, List, [], ◌∷◌, length, length-take, length-drop, take,
  drop, ltb, ◌==◌, if◌then◌else◌, Bytes, equal, ◌≡◌, ◌⊎◌, refl, sym, ap, ◌∙◌, arith, Bool-cases,
  inl, inr,
}
use project_test_demo.Common.Dict.{Dict, find, emplace, find-emplace}
use project_test_demo.Common.Int.{ℤ}
use project_test_demo.Common.Maybe.{◌>>=◌}
use project_test_demo.Ipdb.Reader.{Reader, search, resolve, empty}
use project_test_demo.Ipdb.Split.{split, join, AllWithout, split-join}
use project_test_demo.Ipdb.Search.{Tree, Holds, lookup, root, search-lookup}
use project_test_demo.Ipdb.Find.{
  columns, emplace_all, language_offset, address, find_str, finds, find_map,
}

-- The column that stands at the place of the first field with this name.
abbrev pub value_of : Bytes → List Bytes → List Bytes → Option Bytes
value_of j [] vs = none
value_of j (f ∷ fs) [] = none
value_of j (f ∷ fs) (v ∷ vs) = if equal f j then some v else value_of j fs vs

find-emplace_all :
    (j : Bytes) (info d : Dict) (fs vs : List Bytes)
    → emplace_all info fs vs ≡ some d
    → find j d ≡ elim (find j info) [ some w ↦ some w | none ↦ value_of j fs vs ]
unfolding emplace_all
find-emplace_all j info d [] [] e = ground arith
find-emplace_all j info d (f ∷ fs) [] e = ground arith
find-emplace_all j info d [] (v ∷ vs) e = ground arith
find-emplace_all j info d (f ∷ fs) (v ∷ vs) e =
    find-emplace_all j (emplace f v info) d fs vs e ∙ rw (find-emplace f j v info) (ground arith)

emplace_all-total :
    (info : Dict) (fs vs : List Bytes)
    → length vs ≤ length fs
    → (d : Dict) × (emplace_all info fs vs ≡ some d)
unfolding emplace_all
emplace_all-total info [] [] h = (info, refl)
emplace_all-total info (f ∷ fs) [] h = (info, refl)
emplace_all-total info [] (v ∷ vs) h = absurd (omega arith)
emplace_all-total info (f ∷ fs) (v ∷ vs) h =
    emplace_all-total (emplace f v info) fs vs (omega arith)

value_of-take :
    (j : Bytes) (fs vs : List Bytes) → value_of j fs (take (length fs) vs) ≡ value_of j fs vs
value_of-take j [] vs = refl
value_of-take j (f ∷ fs) [] = refl
value_of-take j (f ∷ fs) (v ∷ vs) = ground (arith, value_of-take j fs vs)

columns-fields :
    (r : Reader) (off : ℕ) (body : Bytes)
    → (columns r off body ≡ []) ⊎ (length (columns r off body) ≡ length r.fields)
unfolding columns
columns-fields r off body = elim (Bool-cases (empty body)) [
  | inl e ↦ rw e (inl refl)
  | inr e ↦
      let tmp = split body (b'\t' ∷ []) in
      let room = length-drop off tmp in
      elim (Bool-cases (ltb (length tmp) (off + length r.fields))) [
        | inl short ↦ rw (e, short) (inl refl)
        | inr enough ↦
            rw (e, enough) (inr (length-take (length r.fields) (drop off tmp) (ground arith)))
      ]
]

columns-join :
    (r : Reader) (off : ℕ) (x : Bytes) (xs : List Bytes)
    → AllWithout b'\t' (x ∷ xs)
    → empty (join b'\t' (x ∷ xs)) ≡ false
    → off + length r.fields ≤ length (x ∷ xs)
    → columns r off (join b'\t' (x ∷ xs)) ≡ take (length r.fields) (drop off (x ∷ xs))
unfolding columns
columns-join r off x xs all full enough = rw (full, split-join b'\t' x xs all) (ground arith)

pub value_of-nil : (j : Bytes) (fs : List Bytes) → value_of j fs [] ≡ none
value_of-nil j [] = refl
value_of-nil j (f ∷ fs) = refl

-- What `find_map` makes of the columns.
abbrev dict_of : List Bytes → List Bytes → Option Dict
dict_of fs found =
    if length found == 0
    then some []
    else if length fs == 0
    then some []
    else emplace_all [] fs found

dict_of-total :
    (fs found : List Bytes)
    → (found ≡ []) ⊎ (length found ≡ length fs)
    → (d : Dict) × (dict_of fs found ≡ some d) × ((j : Bytes) → find j d ≡ value_of j fs found)
unfolding find
dict_of-total fs [] h = ([], refl, λ j. sym (value_of-nil j fs))
dict_of-total fs (v ∷ vs) (inl h) = ground arith
dict_of-total [] (v ∷ vs) (inr h) = absurd (omega arith)
dict_of-total (f ∷ fs) (v ∷ vs) (inr h) =
    let (d, e) = emplace_all-total [] (f ∷ fs) (v ∷ vs) (omega arith) in
    (d, ground (arith, e), λ j. find-emplace_all j [] d (f ∷ fs) (v ∷ vs) e)

module _ (pton4 pton6 : Bytes → Option Bytes) where
  finds-some :
      (r : Reader) (addr language body : Bytes) (off : ℕ)
      → language_offset language r.languages ≡ some off
      → find_str pton4 pton6 r addr ≡ some body
      → finds pton4 pton6 r addr language ≡ some (columns r off body)
  unfolding finds
  finds-some r addr language body off e f = ground arith

  find_map-finds :
      (r : Reader) (addr language : Bytes) (found : List Bytes)
      → finds pton4 pton6 r addr language ≡ some found
      → (found ≡ []) ⊎ (length found ≡ length r.fields)
      → (d : Dict) × (find_map pton4 pton6 r addr language ≡ some d)
        × ((j : Bytes) → find j d ≡ value_of j r.fields found)
  unfolding find_map
  find_map-finds r addr language found e size =
      let (d, same, found_in) = dict_of-total r.fields found size in
      (d, ap (λ o. o >>= dict_of r.fields) e ∙ same, found_in)

  find_str-resolve :
      (r : Reader) (addr ip : Bytes) (bit_count : ℕ) (node : ℤ)
      → address pton4 pton6 r addr ≡ some (ip, bit_count)
      → search r ip bit_count ≡ some node
      → find_str pton4 pton6 r addr ≡ resolve r node
  unfolding find_str
  find_str-resolve r addr ip bit_count node a s = ground arith

  -- `find_map` never reads a field that is not there: where the text for an address is found, it returns
  -- a map, and that map holds for each field name the column at the place of the first field of that
  -- name, of columns that are none or as many as the fields.
  pub find_map-find_str :
      (r : Reader) (addr language body : Bytes) (off : ℕ)
      → language_offset language r.languages ≡ some off
      → find_str pton4 pton6 r addr ≡ some body
      → (d : Dict) × (find_map pton4 pton6 r addr language ≡ some d)
        × ((j : Bytes) → find j d ≡ value_of j r.fields (columns r off body))
        × ((columns r off body ≡ []) ⊎ (length (columns r off body) ≡ length r.fields))
  find_map-find_str r addr language body off e f =
      let size = columns-fields r off body in
      let (d, same, found_in) =
        find_map-finds r addr language (columns r off body)
          (finds-some r addr language body off e f) size in
      (d, same, found_in, size)

  -- The whole way: where the address is one that the file supports, its bits lead in the tree of the
  -- nodes to a leaf, and the text of that leaf is a list of columns without tabs, joined by tabs, not
  -- empty, and with a column for each field from the offset of the language on, `find_map` returns the
  -- map from each field name to its column.
  pub find_map-record :
      (r : Reader) (addr language ip : Bytes) (bit_count off : ℕ) (t : Tree) (node : ℤ) (x : Bytes)
      (xs : List Bytes)
      → address pton4 pton6 r addr ≡ some (ip, bit_count)
      → language_offset language r.languages ≡ some off
      → Holds r (root r bit_count) t
      → lookup t ip 0 bit_count ≡ some node
      → resolve r node ≡ some (join b'\t' (x ∷ xs))
      → AllWithout b'\t' (x ∷ xs)
      → empty (join b'\t' (x ∷ xs)) ≡ false
      → off + length r.fields ≤ length (x ∷ xs)
      → (d : Dict) × (find_map pton4 pton6 r addr language ≡ some d)
        × ((j : Bytes) → find j d ≡ value_of j r.fields (drop off (x ∷ xs)))
  find_map-record r addr language ip bit_count off t node x xs a l holds leads text all full
        enough =
      let body = join b'\t' (x ∷ xs) in
      let found : find_str pton4 pton6 r addr ≡ some body =
        find_str-resolve r addr ip bit_count node a
          (search-lookup t r ip bit_count node holds leads)
        ∙ text in
      let (d, same, found_in, size) = find_map-find_str r addr language body off l found in
      (
        d,
        same,
        λ j.
            found_in j
            ∙ ap (value_of j r.fields) (columns-join r off x xs all full enough)
            ∙ value_of-take j r.fields (drop off (x ∷ xs)),
      )
