-- ===== src/Ipdb/District.antt =====
-- ipdb.hpp, `district_Info`: the columns of a record, and their text.
use project_test_demo.Common.{List, [], ◌∷◌, Bytes, codes}
use project_test_demo.Ipdb.Columns.{column, Row, render}

unfoldable pub country_name : List Bytes → Bytes
country_name data_ = column 0 data_

unfoldable pub region_name : List Bytes → Bytes
region_name data_ = column 1 data_

unfoldable pub city_name : List Bytes → Bytes
city_name data_ = column 2 data_

unfoldable pub district_name : List Bytes → Bytes
district_name data_ = column 3 data_

unfoldable pub china_admin_code : List Bytes → Bytes
china_admin_code data_ = column 4 data_

unfoldable pub covering_radius : List Bytes → Bytes
covering_radius data_ = column 5 data_

unfoldable pub latitude : List Bytes → Bytes
latitude data_ = column 6 data_

unfoldable pub longitude : List Bytes → Bytes
longitude data_ = column 7 data_

unfoldable pub rows : List Bytes → List Row
unfolding country_name region_name city_name district_name china_admin_code covering_radius latitude
    longitude
rows data_ =
    (codes "country_name:", country_name data_)
    ∷ (codes "region_name:", region_name data_)
    ∷ (codes "city_name:", city_name data_)
    ∷ (codes "district_name:", district_name data_)
    ∷ (codes "china_admin_code:", china_admin_code data_)
    ∷ (codes "covering_radius:", covering_radius data_)
    ∷ (codes "latitude:", latitude data_)
    ∷ (codes "longitude:", longitude data_)
    ∷ []

unfoldable pub str : List Bytes → Bytes
unfolding rows
str data_ = render (rows data_)
