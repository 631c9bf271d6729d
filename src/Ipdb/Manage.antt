-- ===== src/Ipdb/Manage.antt =====
-- manage_ipdb.hpp: `manage_ipdb::get_ipdb_info`.
use project_test_demo.Common.{
  ℕ, Bool, true, false, Option, none, some, List, [], ◌∷◌, length, ◌==◌, if◌then◌else◌, Bytes,
  codes, c_str, not, equal, equal_self, ◌≡◌, ◌⊎◌, refl, sym, ap, ◌∙◌, arith,
}
use project_test_demo.Common.Dict.{Dict, find}
use project_test_demo.Common.Maybe.{◌>>=◌}
use project_test_demo.Ipdb.Reader.{Reader}
use project_test_demo.Ipdb.Find.{find_map, find_str, columns, language_offset}
use project_test_demo.Ipdb.Lookup.{value_of, value_of-nil, find_map-find_str}
use project_test_demo.Ipdb.Utf8.{is_valid_utf8}

-- The four strings that the caller passes by reference.
pub record Info : Type 0 where
  pub country_str : Bytes
  pub region_str : Bytes
  pub city_str : Bytes
  pub isp_str : Bytes

-- A map that holds the columns by name is empty exactly if there are no columns.
length-find :
    (maps : Dict) (fs found : List Bytes)
    → ((j : Bytes) → find j maps ≡ value_of j fs found)
    → (found ≡ []) ⊎ (length found ≡ length fs)
    → (length maps == 0) ≡ (length found == 0)
unfolding find
length-find [] fs [] h size = refl
length-find [] [] (v ∷ vs) h size = ground arith
length-find [] (f ∷ fs) (v ∷ vs) h size =
    let none_some : none ≡ (if equal f f then some v else value_of f fs vs) = h f in
    ground (arith, equal_self f)
length-find ((j, w) ∷ maps) fs [] h size =
    let some_none : (if equal j j then some w else find j maps) ≡ none = h j ∙ value_of-nil j fs in
    ground (arith, equal_self j)
length-find (x ∷ maps) fs (v ∷ vs) h size = ground arith

-- `between` is `boost::locale::conv::between(_, "GBK", "UTF-8")`.
module _ (between : Bytes → Bytes) (pton4 pton6 : Bytes → Option Bytes) where
  unfoldable pub shown : Bytes → Bytes
  shown text = if is_valid_utf8 (c_str text) then between text else text

  -- What one of the strings is behind its `if`.
  unfoldable pub filled : Dict → Bytes → Bytes → Bytes
  filled maps field_str old = elim (find field_str maps) [ none ↦ old | some text ↦ shown text ]

  unfoldable pub fill : Dict → Info → Info
  fill maps info = record {
    country_str = filled maps (codes "country_name") info.country_str;
    region_str = filled maps (codes "region_name") info.region_str;
    city_str = filled maps (codes "city_name") info.city_str;
    isp_str = filled maps (codes "isp_domain") info.isp_str;
  }

  -- The returned value and the strings; `none` where a read is undefined.
  unfoldable pub get_ipdb_info : Option Reader → Bytes → Bytes → Info → Option (Bool × Info)
  get_ipdb_info none ip_str lang_str info = some (false, info)
  get_ipdb_info (some r) ip_str lang_str info = do
    maps ← find_map pton4 pton6 r ip_str lang_str
    some (if length maps == 0 then (false, info) else (true, fill maps info))

  -- The value that a string has afterwards.
  abbrev pub told : Option Bytes → Bytes → Bytes
  told none old = old
  told (some text) old = shown text

  -- The value that a string has afterwards.
  abbrev pub Told : Reader → List Bytes → Info → Info → Type 0
  Told r found info after =
      (after.country_str ≡ told (value_of (codes "country_name") r.fields found) info.country_str)
      × (after.region_str ≡ told (value_of (codes "region_name") r.fields found) info.region_str)
      × (after.city_str ≡ told (value_of (codes "city_name") r.fields found) info.city_str)
      × (after.isp_str ≡ told (value_of (codes "isp_domain") r.fields found) info.isp_str)

  filled-told :
      (maps : Dict) (name old : Bytes) (o : Option Bytes)
      → find name maps ≡ o
      → filled maps name old ≡ told o old
  unfolding filled
  filled-told maps name old none e = ground arith
  filled-told maps name old (some text) e = ground arith

  get_ipdb_info-find_map :
      (r : Reader) (ip_str lang_str : Bytes) (info : Info) (maps : Dict)
      → find_map pton4 pton6 r ip_str lang_str ≡ some maps
      → get_ipdb_info (some r) ip_str lang_str info
        ≡ some (if length maps == 0 then (false, info) else (true, fill maps info))
  unfolding get_ipdb_info
  get_ipdb_info-find_map r ip_str lang_str info maps e =
      ap (λ o. o >>= λ m. some (if length m == 0 then (false, info) else (true, fill m info))) e

  fill-Told :
      (r : Reader) (maps : Dict) (found : List Bytes) (info : Info)
      → ((j : Bytes) → find j maps ≡ value_of j r.fields found)
      → Told r found info (fill maps info)
  unfolding fill
  fill-Told r maps found info h = (
    filled-told maps (codes "country_name") info.country_str
        (value_of (codes "country_name") r.fields found) (h (codes "country_name")),
    filled-told maps (codes "region_name") info.region_str
        (value_of (codes "region_name") r.fields found) (h (codes "region_name")),
    filled-told maps (codes "city_name") info.city_str (value_of (codes "city_name") r.fields found)
        (h (codes "city_name")),
    filled-told maps (codes "isp_domain") info.isp_str
        (value_of (codes "isp_domain") r.fields found) (h (codes "isp_domain")),
  )

  -- An empty map changes nothing.
  fill-nil : (info : Info) → fill [] info ≡ info
  unfolding fill filled find
  fill-nil info = refl

  settle :
      (maps : Dict) (info : Info) (b : Bool)
      → (length maps == 0) ≡ b
      → ◌≡◌ {A = Option (Bool × Info)}
          (some (if length maps == 0 then (false, info) else (true, fill maps info)))
          (some (not b, fill maps info))
  settle [] info b e =
      ap (λ c. some (not c, info)) e ∙ ap (λ i. some (not b, i)) (sym (fill-nil info))
  settle (x ∷ maps) info b e = ground arith

  -- For an address whose text is found, and a language that the file has: the call returns true exactly
  -- if the text gives columns, and each of the four strings is then the column at the place of the first
  -- field of its name, converted if it is valid UTF-8, or unchanged if there is no such column.
  pub get_ipdb_info-columns :
      (r : Reader) (ip_str lang_str body : Bytes) (off : ℕ) (info : Info)
      → language_offset lang_str r.languages ≡ some off
      → find_str pton4 pton6 r ip_str ≡ some body
      → (after : Info) × (get_ipdb_info (some r) ip_str lang_str info
          ≡ some (not (length (columns r off body) == 0), after))
        × Told r (columns r off body) info after
  get_ipdb_info-columns r ip_str lang_str body off info l f =
      let found = columns r off body in
      let (maps, same, found_in, size) =
        find_map-find_str pton4 pton6 r ip_str lang_str body off l f in
      let call = get_ipdb_info-find_map r ip_str lang_str info maps same in
      let empty_both = length-find maps r.fields found found_in size in
      (
        fill maps info,
        call ∙ settle maps info (length found == 0) empty_both,
        fill-Told r maps found info found_in,
      )
