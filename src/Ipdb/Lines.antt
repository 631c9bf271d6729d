-- ===== src/Ipdb/Lines.antt =====
-- The text of a record can be taken apart again into its lines.
use project_test_demo.Common.{
  ℕ, zero, suc, ◌<◌, Bool, false, ◌||◌, List, [], ◌∷◌, ◌++◌, length, get_or, take, ltb, ◌==◌, map,
  Bytes, codes, ◌≡◌, refl, sym, ap, ◌∙◌, arith, Bool-cases, inl, inr,
}
use project_test_demo.Ipdb.Split.{split, split-join, join, Without, AllWithout}
use project_test_demo.Ipdb.Columns.{column, Row, render, line_of}
use project_test_demo.Ipdb.City
use project_test_demo.Ipdb.BaseStation
use project_test_demo.Ipdb.District
use project_test_demo.Ipdb.Idc

render-join : (r : Row) (rs : List Row) → render (r ∷ rs) ≡ join b'\n' (map line_of (r ∷ rs))
unfolding render
render-join r [] = refl
render-join r (s ∷ rs) = ap (λ t. line_of r ++ b'\n' ∷ t) (render-join s rs)

-- No column holds a line feed.
abbrev pub NoLineFeed : List Bytes → Type 0
NoLineFeed = AllWithout b'\n'

Without-append : (xs ys : Bytes) → Without b'\n' xs → Without b'\n' ys → Without b'\n' (xs ++ ys)
Without-append [] ys h k = k
Without-append (x ∷ xs) ys h k = (h.0, Without-append xs ys h.1 k)

get_or-Without : (data_ : List Bytes) (k : ℕ) → NoLineFeed data_ → Without b'\n' (get_or data_ k [])
get_or-Without [] k h = tt
get_or-Without (x ∷ xs) zero h = h.0
get_or-Without (x ∷ xs) (suc k) h = get_or-Without xs k h.1

column-Without : (k : ℕ) (data_ : List Bytes) → NoLineFeed data_ → Without b'\n' (column k data_)
unfolding column
column-Without k data_ h = elim (Bool-cases (ltb k (length data_))) [
  | inl e ↦ rw e (get_or-Without data_ k h)
  | inr e ↦ rw e tt
]

-- The layout of a class of records: the labels, and the numbers of the columns.
abbrev Table : Type 0
Table = List (Bytes × ℕ)

abbrev city_table : Table
city_table =
    (codes "country_name:", 0)
    ∷ (codes "region_name:", 1)
    ∷ (codes "city_name:", 2)
    ∷ (codes "owner_domain:", 3)
    ∷ (codes "isp_domain:", 4)
    ∷ (codes "latitude:", 5)
    ∷ (codes "longitude:", 6)
    ∷ (codes "timezone:", 7)
    ∷ (codes "utc_offset:", 8)
    ∷ (codes "china_admin_code:", 9)
    ∷ (codes "idd_code:", 10)
    ∷ (codes "country_code:", 11)
    ∷ (codes "continent_code:", 12)
    ∷ (codes "idc:", 13)
    ∷ (codes "base_station:", 14)
    ∷ (codes "country_code3:", 15)
    ∷ (codes "european_union:", 16)
    ∷ (codes "currency_code:", 17)
    ∷ (codes "currency_name:", 18)
    ∷ (codes "anycast:", 19)
    ∷ []

abbrev base_station_table : Table
base_station_table =
    (codes "country_name:", 0)
    ∷ (codes "region_name:", 1)
    ∷ (codes "city_name:", 2)
    ∷ (codes "owner_domain:", 3)
    ∷ (codes "isp_domain:", 4)
    ∷ (codes "base_station:", 5)
    ∷ []

abbrev district_table : Table
district_table =
    (codes "country_name:", 0)
    ∷ (codes "region_name:", 1)
    ∷ (codes "city_name:", 2)
    ∷ (codes "district_name:", 3)
    ∷ (codes "china_admin_code:", 4)
    ∷ (codes "covering_radius:", 5)
    ∷ (codes "latitude:", 6)
    ∷ (codes "longitude:", 7)
    ∷ []

abbrev idc_table : Table
idc_table =
    (codes "country_name:", 0)
    ∷ (codes "region_name:", 1)
    ∷ (codes "city_name:", 2)
    ∷ (codes "owner_domain:", 3)
    ∷ (codes "isp_domain:", 4)
    ∷ (codes "idc:", 4)
    ∷ []

abbrev tail : Table → Table
tail [] = []
tail (r ∷ t) = t

abbrev lay_out : List Bytes → Table → List Row
lay_out data_ [] = []
lay_out data_ ((label, k) ∷ t) = (label, column k data_) ∷ lay_out data_ t

abbrev has_byte : ℕ → Bytes → Bool
has_byte d [] = false
has_byte d (c ∷ cs) = c == d || has_byte d cs

has_byte-Without : (xs : Bytes) → has_byte b'\n' xs ≡ false → Without b'\n' xs
has_byte-Without [] h = tt
has_byte-Without (c ∷ cs) h = (ground arith, has_byte-Without cs (ground arith))

abbrev has_label_with : ℕ → Table → Bool
has_label_with d [] = false
has_label_with d ((label, k) ∷ t) = has_byte d label || has_label_with d t

lines_clean :
    (t : Table) (data_ : List Bytes)
    → has_label_with b'\n' t ≡ false
    → NoLineFeed data_
    → AllWithout b'\n' (map line_of (lay_out data_ t))
lines_clean [] data_ h a = tt
lines_clean ((label, k) ∷ t) data_ h a = (
  Without-append label (column k data_) (has_byte-Without label (ground arith))
      (column-Without k data_ a),
  lines_clean t data_ (ground arith) a,
)

split-lay_out :
    (r : Bytes × ℕ) (t : Table) (data_ : List Bytes)
    → has_label_with b'\n' (r ∷ t) ≡ false
    → NoLineFeed data_
    → split (render (lay_out data_ (r ∷ t))) (b'\n' ∷ []) ≡ map line_of (lay_out data_ (r ∷ t))
split-lay_out (label, k) t data_ h a =
    let r : Row = (label, column k data_) in
    let rs = lay_out data_ t in
    ap (λ s. split s (b'\n' ∷ [])) (render-join r rs)
    ∙ split-join b'\n' (line_of r) (map line_of rs) (lines_clean ((label, k) ∷ t) data_ h a)

-- The text of a record whose columns hold no line feed splits, at line feeds, into its rows in order:
-- for each of the four classes, a label and its column on each line.
pub split-str :
    (data_ : List Bytes)
    → NoLineFeed data_
    → (split (City.str data_) (b'\n' ∷ []) ≡ map line_of (City.rows data_))
      × (split (BaseStation.str data_) (b'\n' ∷ []) ≡ map line_of (BaseStation.rows data_))
      × (split (District.str data_) (b'\n' ∷ []) ≡ map line_of (District.rows data_))
      × (split (Idc.str data_) (b'\n' ∷ []) ≡ map line_of (Idc.rows data_))
unfolding City.str BaseStation.str District.str Idc.str
split-str data_ h = (
  split-lay_out (codes "country_name:", 0) (tail city_table) data_ refl h,
  split-lay_out (codes "country_name:", 0) (tail base_station_table) data_ refl h,
  split-lay_out (codes "country_name:", 0) (tail district_table) data_ refl h,
  split-lay_out (codes "country_name:", 0) (tail idc_table) data_ refl h,
)

column-get_or : (k : ℕ) (xs : List Bytes) → column k xs ≡ get_or xs k []
unfolding column
column-get_or k [] = ground arith
column-get_or zero (x ∷ xs) = ground arith
column-get_or (suc k) (x ∷ xs) = ground (arith, column-get_or k xs)

get_or-take : (n k : ℕ) (xs : List Bytes) → k < n → get_or (take n xs) k [] ≡ get_or xs k []
get_or-take zero k xs h = absurd (omega arith)
get_or-take (suc n) k [] h = refl
get_or-take (suc n) zero (x ∷ xs) h = refl
get_or-take (suc n) (suc k) (x ∷ xs) h = get_or-take n k xs (omega arith)

column-take :
    (n k : ℕ) (xs ys : List Bytes) → take n xs ≡ take n ys → k < n → column k xs ≡ column k ys
column-take n k xs ys e h =
    column-get_or k xs
    ∙ sym (get_or-take n k xs h)
    ∙ ap (λ t. get_or t k []) e
    ∙ get_or-take n k ys h
    ∙ sym (column-get_or k ys)

abbrev AllBelow : ℕ → Table → Type 0
AllBelow n [] = Unit
AllBelow n ((label, k) ∷ t) = (k < n) × AllBelow n t

lay_out-take :
    (n : ℕ) (t : Table) (xs ys : List Bytes)
    → AllBelow n t
    → take n xs ≡ take n ys
    → lay_out xs t ≡ lay_out ys t
lay_out-take n [] xs ys h e = refl
lay_out-take n ((label, k) ∷ t) xs ys h e =
    rw (column-take n k xs ys e h.0, lay_out-take n t xs ys h.1 e)

-- In the class for data centres the getter of the column `idc` gives the column of `isp_domain`. So the
-- text of two records is the same if they agree in their first five columns, whatever the sixth holds.
pub idc_is_isp_domain :
    (d e : List Bytes)
    → (Idc.idc d ≡ Idc.isp_domain d) × (take 5 d ≡ take 5 e → Idc.str d ≡ Idc.str e)
unfolding Idc.str
idc_is_isp_domain d e = (refl, λ h. ap render (lay_out-take 5 idc_table d e (omega arith) h))
