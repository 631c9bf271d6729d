-- ===== src/Multipart/Fields.antt =====
-- multipart_parser.cpp, `get_multipart_data`: each part under the name in its `Content-Disposition`.
use project_test_demo.Common.{
  ℕ, suc, ◌+◌, ◌-◌, ◌%◌, ◌^◌, ◌<◌, false, Option, none, some, List, [], ◌∷◌, ◌++◌, append_assoc,
  ◌==◌, if◌then◌else◌, length, length-append, take, drop, Bytes, codes, equal, ◌≡◌, refl, sym, ap,
  ◌∙◌, arith,
}
use project_test_demo.Multipart.Types.{Part, Parser}
use project_test_demo.Common.Dict.{Dict, find, emplace, find-emplace}

abbrev size_mod : ℕ
size_mod = 2 ^ 64

abbrev pub quote : ℕ
quote = b'"'

-- `s.find(c)`; `none` is `npos`.
unfoldable pub index_of : ℕ → Bytes → Option ℕ
index_of c [] = none
index_of c (d ∷ ds) =
    if d == c then some 0 else elim (index_of c ds) [ none ↦ none | some i ↦ some (suc i) ]

-- `s.rfind(c)`
unfoldable pub last_index_of : ℕ → Bytes → Option ℕ
last_index_of c [] = none
last_index_of c (d ∷ ds) = elim (last_index_of c ds) [
  | none ↦ if d == c then some 0 else none
  | some i ↦ some (suc i)
]

-- `s.substr(from, to - from)`: the count is a `size_t`.
abbrev substr : Bytes → ℕ → ℕ → Bytes
substr s from to = take ((to + size_mod - from) % size_mod) (drop from s)

abbrev between_marks : Bytes → Option ℕ → Option ℕ → Bytes
between_marks value (some i) (some end_pos) = substr value (i + 1) end_pos
between_marks value _ _ = []

-- What stands between the first and the last quotation mark.
unfoldable pub quoted : Bytes → Bytes
quoted value = between_marks value (index_of quote value) (last_index_of quote value)

abbrev pub content_disposition : Bytes
content_disposition = codes "Content-Disposition"

unfoldable pub key_of : Dict → Bytes
unfolding quoted index_of last_index_of
key_of headers = elim (find content_disposition headers) [ none ↦ [] | some value ↦ quoted value ]

unfoldable pub collect : Dict → List Part → Dict
unfolding key_of emplace
collect m [] = m
collect m (x ∷ xs) = collect (emplace (key_of x.headers) x.body m) xs

unfoldable pub get_multipart_data : Parser → Dict
unfolding collect
get_multipart_data p = collect [] p.parts

-- No quotation mark.
abbrev pub NoQuote : Bytes → Type 0
NoQuote [] = Unit
NoQuote (c ∷ cs) = ((c == quote) ≡ false) × NoQuote cs

index_of-append :
    (pre rest : Bytes) → NoQuote pre → index_of quote (pre ++ quote ∷ rest) ≡ some (length pre)
unfolding index_of
index_of-append [] rest h = refl
index_of-append (c ∷ cs) rest h = rw (h.0, index_of-append cs rest h.1, index_of)

last_index_of-none : (post : Bytes) → NoQuote post → last_index_of quote post ≡ none
unfolding last_index_of
last_index_of-none [] h = refl
last_index_of-none (c ∷ cs) h = rw (last_index_of-none cs h.1, last_index_of) (rw h.0)

last_index_of-append :
    (xs post : Bytes) → NoQuote post → last_index_of quote (xs ++ quote ∷ post) ≡ some (length xs)
unfolding last_index_of
last_index_of-append [] post h = rw (last_index_of-none post h, last_index_of)
last_index_of-append (c ∷ cs) post h = rw (last_index_of-append cs post h, last_index_of)

drop-append : (xs : Bytes) (c : ℕ) (ys : Bytes) → drop (suc (length xs)) (xs ++ c ∷ ys) ≡ ys
drop-append [] c ys = refl
drop-append (x ∷ xs) c ys = drop-append xs c ys

take-append : (xs ys : Bytes) → take (length xs) (xs ++ ys) ≡ xs
take-append [] ys = refl
take-append (x ∷ xs) ys = ap (◌∷◌ x) (take-append xs ys)

abbrev pub quoted_text : Bytes → Bytes → Bytes → Bytes
quoted_text pre name post = pre ++ quote ∷ (name ++ quote ∷ post)

-- The key of a value that has two quotation marks or more, and is shorter than 2 ^ 64: all that
-- stands between the first of them and the last, whatever else is quoted in between.
pub quoted-quoted_text :
    (pre name post : Bytes)
    → NoQuote pre
    → NoQuote post
    → length (quoted_text pre name post) < 2 ^ 64
    → quoted (quoted_text pre name post) ≡ name
unfolding quoted
quoted-quoted_text pre name post a b small =
    let rest = name ++ quote ∷ post in
    let first = index_of-append pre rest a in
    let last : last_index_of quote (pre ++ quote ∷ rest) ≡ some (length (pre ++ quote ∷ name)) =
      ap (last_index_of quote) (sym (append_assoc pre (quote ∷ name) (quote ∷ post)))
      ∙ last_index_of-append (pre ++ quote ∷ name) post b in
    let total = length-append pre (quote ∷ rest) in
    let count : (length (pre ++ quote ∷ name) + size_mod - (length pre + 1)) % size_mod
        ≡ length name =
      omega (arith, length-append pre (quote ∷ name), total, length-append name (quote ∷ post)) in
    let next : length pre + 1 ≡ suc (length pre) = omega arith in
    ap (λ o. between_marks (pre ++ quote ∷ rest) o (last_index_of quote (pre ++ quote ∷ rest)))
      first
    ∙ ap (between_marks (pre ++ quote ∷ rest) (some (length pre))) last
    ∙ (ap (λ n. take n (drop (length pre + 1) (pre ++ quote ∷ rest))) count
        ∙ ap (λ n. take (length name) (drop n (pre ++ quote ∷ rest))) next
        ∙ ap (take (length name)) (drop-append pre quote rest)
        ∙ take-append name (quote ∷ post))

abbrev pub form_data : Bytes
form_data = codes "form-data; name="

abbrev pub filename : Bytes
filename = codes "; filename="

form_data-NoQuote : NoQuote form_data
form_data-NoQuote = ground arith

-- The `Content-Disposition` of a form's file field: `form-data; name="N"; filename="F"`.
abbrev pub file_disposition : Bytes → Bytes → Bytes
file_disposition name file = quoted_text form_data (name ++ quote ∷ (filename ++ quote ∷ file)) []

-- A plain field `form-data; name="N"` is stored under N. The key of a field that also has a file name
-- F is not N but N, a quotation mark, `; filename=`, a quotation mark and F. Both below 2 ^ 64 bytes.
pub quoted_field_names :
    (name file : Bytes)
    → length (file_disposition name file) < 2 ^ 64
    → (quoted (quoted_text form_data name []) ≡ name)
      × (quoted (file_disposition name file) ≡ name ++ quote ∷ (filename ++ quote ∷ file))
quoted_field_names name file small =
    let longer = name ++ quote ∷ (filename ++ quote ∷ file) in
    (
      quoted-quoted_text form_data name [] form_data-NoQuote tt (
          omega (
            arith,
            length-append name (quote ∷ []),
            length-append longer (quote ∷ []),
            length-append name (quote ∷ (filename ++ quote ∷ file)),
          )),
      quoted-quoted_text form_data longer [] form_data-NoQuote tt small,
    )

-- The value under a key: that of the first part that has the key.
abbrev pub first_body : Bytes → List Part → Option Bytes
first_body k [] = none
first_body k (x ∷ xs) = if equal (key_of x.headers) k then some x.body else first_body k xs

find-collect :
    (k : Bytes) (m : Dict) (xs : List Part)
    → find k (collect m xs) ≡ elim (find k m) [ some w ↦ some w | none ↦ first_body k xs ]
unfolding collect
find-collect k m [] = ground arith
find-collect k m (x ∷ xs) =
    find-collect k (emplace (key_of x.headers) x.body m) xs
    ∙ rw (find-emplace (key_of x.headers) k x.body m) (ground arith)

-- The map that is returned has for each key the body of the first part with that key, and no other
-- keys.
pub find-get_multipart_data :
    (k : Bytes) (p : Parser) → find k (get_multipart_data p) ≡ first_body k p.parts
unfolding get_multipart_data find
find-get_multipart_data k p = find-collect k [] p.parts
