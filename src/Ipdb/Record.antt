-- ===== src/Ipdb/Record.antt =====
-- The texts behind the nodes: `resolve` on records that the file's format prescribes, two bytes of
-- length in network order and the text.
use project_test_demo.Common.{
  ℕ, suc, ◌+◌, ◌-◌, ◌*◌, ◌^◌, ◌<◌, ◌≤◌, Bool, false, some, [], ◌∷◌, ◌++◌, length, length-append,
  get_or, drop, ltb, leb, if◌then◌else◌, Bytes, c_str, append-nil, ◌≡◌, refl, ap, ◌∙◌, arith,
  Bool-cases, inl, inr,
}
use project_test_demo.Common.Int.{ℤ, pos}
use project_test_demo.Ipdb.Reader.{
  Reader, checked, signed_char, size_of, text_until, text_at, resolve, empty,
}
use project_test_demo.Ipdb.Split.{Without}

get_or-length : (xs ys : Bytes) (c : ℕ) → get_or (xs ++ c ∷ ys) (length xs) 0 ≡ c
get_or-length [] ys c = refl
get_or-length (x ∷ xs) ys c = get_or-length xs ys c

-- What follows a text ends it as a C string: nothing, or a NUL.
abbrev pub EndsText : Bytes → Type 0
EndsText [] = Unit
EndsText (c ∷ s) = c ≡ 0

c_str-append : (text rest : Bytes) → Without 0 text → EndsText rest → c_str (text ++ rest) ≡ text
unfolding c_str
c_str-append [] [] w e = refl
c_str-append [] (c ∷ rest) w e = ground arith
c_str-append (c ∷ text) rest w e = ground (arith, c_str-append text rest w.1 e)

-- A file with so many nodes, whose data hold a record behind `before`.
abbrev pub HoldsRecord : Reader → ℕ → Bytes → ℕ → ℕ → Bytes → Bytes → Type 0
HoldsRecord r count before high low text rest =
    (r.node_count ≡ pos count)
    × (r.data_ ≡ before ++ (high ∷ low ∷ (text ++ rest)))
    × (r.data_size ≡ length r.data_)
    × (length r.data_ < r.file_size)
    × (r.file_size < 2 ^ 30)
    × (8 * count ≤ length before)

-- The node that stands for the record behind `before`, when there are so many nodes.
abbrev pub node_of : ℕ → Bytes → ℤ
node_of count before = pos (length before - 8 * count + count)

not_empty : (before : Bytes) (c : ℕ) (s : Bytes) → empty (before ++ c ∷ s) ≡ false
not_empty [] c s = refl
not_empty (x ∷ before) c s = refl

checked-pos : (n : ℕ) → n < 2 ^ 31 → checked (pos n) ≡ some (pos n)
unfolding checked
checked-pos n h = ground arith

-- For a node above the count, the `int` arithmetic is that of the numbers.
resolve-text_at :
    (r : Reader) (count node : ℕ)
    → r.node_count ≡ pos count
    → empty r.data_ ≡ false
    → 0 < node
    → count ≤ node
    → node + 8 * count < 2 ^ 31
    → resolve r (pos node) ≡ text_at r (pos (node - count + 8 * count))
unfolding resolve
resolve-text_at r count node nodes full h above small =
    rw (nodes, full)
      (ground (
        arith,
        checked-pos (node - count),
        checked-pos (8 * count),
        checked-pos (node - count + 8 * count),
      ))

text_at-plain :
    (r : Reader) (n a b : ℕ)
    → get_or r.data_ n 0 ≡ a
    → get_or r.data_ (n + 2) 0 ≡ b
    → n + 2 ≤ length r.data_
    → n < r.file_size
    → a < 128
    → b < 128
    → n + 2 + (256 * a + b) < 2 ^ 31
    → text_at r (pos n) ≡ some (text_until r n (pos (n + 2 + (256 * a + b))))
unfolding text_at checked size_of signed_char
text_at-plain r n a b ea eb inside below ha hb small = ground arith

text_at-high :
    (r : Reader) (n b : ℕ)
    → get_or r.data_ (n + 2) 0 ≡ b
    → n + 2 ≤ length r.data_
    → n < r.file_size
    → 128 ≤ b
    → b < 256
    → n + 2 < 2 ^ 31
    → 256 ≤ n + 2 + b
    → text_at r (pos n) ≡ some (text_until r n (pos (n + 2 + b - 256)))
unfolding text_at checked size_of signed_char
text_at-high r n b eb inside below hb byte small back = ground arith

text_at-back :
    (r : Reader) (n b : ℕ)
    → get_or r.data_ (n + 2) 0 ≡ b
    → n + 2 ≤ length r.data_
    → n < r.file_size
    → 128 ≤ b
    → n + 2 + b < 256
    → text_at r (pos n) ≡ some []
unfolding text_at checked size_of signed_char text_until
text_at-back r n b eb inside below hb back = ground arith

-- Whether `resolve` takes the record for one that ends within the data. It reads the length from the
-- high byte and the first character, as signed characters, and not from the two bytes of length.
abbrev pub within : ℕ → ℕ → ℕ → ℕ → Bool
within n high c size =
    if ltb c 128 then leb (n + 2 + (256 * high + c)) size else leb 256 (n + 2 + c)

text_until-pos :
    (r : Reader) (n stop : ℕ)
    → text_until r n (pos stop)
      ≡ (if leb stop r.data_size then c_str (drop (n + 2) r.data_) else [])
unfolding text_until
text_until-pos r n stop = ground arith

text_at-within :
    (r : Reader) (n high c : ℕ)
    → get_or r.data_ n 0 ≡ high
    → get_or r.data_ (n + 2) 0 ≡ c
    → n + 2 < length r.data_
    → r.data_size ≡ length r.data_
    → length r.data_ < r.file_size
    → r.file_size < 2 ^ 30
    → high < 128
    → c < 256
    → text_at r (pos n)
      ≡ some (if within n high c (length r.data_) then c_str (drop (n + 2) r.data_) else [])
text_at-within r n high c eh ec inside size bound small hh hc = elim (Bool-cases (ltb c 128)) [
  | inl plain ↦
      text_at-plain r n high c eh ec (omega arith) (omega arith) hh (ground arith) (omega arith)
      ∙ ap some (text_until-pos r n (n + 2 + (256 * high + c)))
      ∙ rw (size) (ground arith)
  | inr above ↦ elim (Bool-cases (leb 256 (n + 2 + c))) [
    | inl fits ↦
        text_at-high r n c ec (omega arith) (omega arith) (ground arith) hc (omega arith)
          (ground arith)
        ∙ ap some (text_until-pos r n (n + 2 + c - 256))
        ∙ rw (size) (ground arith)
    | inr back ↦
        text_at-back r n c ec (omega arith) (omega arith) (ground arith) (ground arith)
        ∙ ground arith
  ]
]

drop-behind : (xs : Bytes) (a b : ℕ) (ys : Bytes) → drop (length xs + 2) (xs ++ a ∷ b ∷ ys) ≡ ys
drop-behind [] a b ys = refl
drop-behind (x ∷ xs) a b ys =
    let e : length (x ∷ xs) + 2 ≡ suc (length xs + 2) = omega arith in
    ap (λ k. drop k (x ∷ xs ++ a ∷ b ∷ ys)) e ∙ drop-behind xs a b ys

get_or-behind :
    (xs : Bytes) (a b c : ℕ) (ys : Bytes) → get_or (xs ++ a ∷ b ∷ c ∷ ys) (length xs + 2) 0 ≡ c
get_or-behind [] a b c ys = refl
get_or-behind (x ∷ xs) a b c ys =
    let e : length (x ∷ xs) + 2 ≡ suc (length xs + 2) = omega arith in
    ap (λ k. get_or (x ∷ xs ++ a ∷ b ∷ c ∷ ys) k 0) e ∙ get_or-behind xs a b c ys

length-record :
    (r : Reader) (before : Bytes) (a b c : ℕ) (s : Bytes)
    → r.data_ ≡ before ++ (a ∷ (b ∷ (c ∷ s)))
    → length r.data_ ≡ length before + (3 + length s)
length-record r before a b c s bytes =
    ap length bytes ∙ length-append before (a ∷ (b ∷ (c ∷ s))) ∙ omega arith

-- A record whose text is not empty, holds no NUL, and is followed by nothing or by a record shorter than
-- 256 bytes: `resolve` gives the text, whatever the low byte of its length, if the length that it has
-- made up from the high byte and the first character stays within the data, and the empty string if not.
pub resolve-record :
    (r : Reader) (count : ℕ) (before : Bytes) (high low c : ℕ) (text rest : Bytes)
    → HoldsRecord r count before high low (c ∷ text) rest
    → Without 0 (c ∷ text)
    → EndsText rest
    → high < 128
    → c < 256
    → 0 < length before - 8 * count + count
    → resolve r (node_of count before)
      ≡ some (if within (length before) high c (length r.data_) then c ∷ text else [])
resolve-record r count before high low c text rest (nodes, bytes, size, bound, small, tree) w e hh
      hc h =
    let n = length before in
    let node = n - 8 * count + count in
    let there : node - count + 8 * count ≡ n = omega arith in
    let more : length r.data_ ≡ n + (3 + length (text ++ rest)) =
      length-record r before high low c (text ++ rest) bytes in
    resolve-text_at r count node nodes
      (ap empty bytes ∙ not_empty before high (low ∷ (c ∷ (text ++ rest)))) h (omega arith)
      (omega arith)
    ∙ ap (λ k. text_at r (pos k)) there
    ∙ text_at-within r n high c
        (ap (λ s. get_or s n 0) bytes ∙ get_or-length before (low ∷ (c ∷ (text ++ rest))) high)
        (ap (λ s. get_or s (n + 2) 0) bytes ∙ get_or-behind before high low c (text ++ rest))
        (omega arith) size bound small hh hc
    ∙ ap (λ s. some (if within n high c (length r.data_) then s else []))
        (ap (λ s. c_str (drop (n + 2) s)) bytes
          ∙ ap c_str (drop-behind before high low (c ∷ (text ++ rest)))
          ∙ c_str-append (c ∷ text) rest w e)

-- The last record of a file, shorter than 256 bytes, is lost if its text has fewer bytes than the code of
-- its first character, an ASCII character: `resolve` gives the empty string.
pub last_record_is_lost :
    (r : Reader) (count : ℕ) (before : Bytes) (low c : ℕ) (text : Bytes)
    → HoldsRecord r count before 0 low (c ∷ text) []
    → Without 0 (c ∷ text)
    → c < 128
    → length (c ∷ text) < c
    → 0 < length before - 8 * count + count
    → resolve r (node_of count before) ≡ some []
last_record_is_lost r count before low c text holds w ascii short h =
    let (nodes, bytes, size, bound, small, tree) = holds in
    let n = length before in
    let whole : length r.data_ ≡ n + (3 + length (text ++ [])) =
      length-record r before 0 low c (text ++ []) bytes in
    let text_size : length (text ++ []) ≡ length text = ap length (append-nil text) in
    resolve-record r count before 0 low c text [] holds w tt (omega arith) (omega arith) h
    ∙ ground arith
