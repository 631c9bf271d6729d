-- ===== src/Ipdb/BaseStation.antt =====
-- ipdb.hpp, `base_station_info`: the columns of a record, and their text.
use project_test_demo.Common.{List, [], ◌∷◌, Bytes, codes}
use project_test_demo.Ipdb.Columns.{column, Row, render}

unfoldable pub country_name : List Bytes → Bytes
country_name data_ = column 0 data_

unfoldable pub region_name : List Bytes → Bytes
region_name data_ = column 1 data_

unfoldable pub city_name : List Bytes → Bytes
city_name data_ = column 2 data_

unfoldable pub owner_domain : List Bytes → Bytes
owner_domain data_ = column 3 data_

unfoldable pub is_p_domain : List Bytes → Bytes
is_p_domain data_ = column 4 data_

unfoldable pub base_station : List Bytes → Bytes
base_station data_ = column 5 data_

unfoldable pub rows : List Bytes → List Row
unfolding country_name region_name city_name owner_domain is_p_domain base_station
rows data_ =
    (codes "country_name:", country_name data_)
    ∷ (codes "region_name:", region_name data_)
    ∷ (codes "city_name:", city_name data_)
    ∷ (codes "owner_domain:", owner_domain data_)
    ∷ (codes "isp_domain:", is_p_domain data_)
    ∷ (codes "base_station:", base_station data_)
    ∷ []

unfoldable pub str : List Bytes → Bytes
unfolding rows
str data_ = render (rows data_)
