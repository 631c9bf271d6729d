-- ===== src/Ipdb/City.antt =====
-- ipdb.hpp, `city_info`: the columns of a record, and their text.
use project_test_demo.Common.{List, [], ◌∷◌, Bytes, codes}
use project_test_demo.Ipdb.Columns.{column, Row, render}

unfoldable pub country_name : List Bytes → Bytes
country_name data_ = column 0 data_

unfoldable pub region_name : List Bytes → Bytes
region_name data_ = column 1 data_

unfoldable pub city_name : List Bytes → Bytes
city_name data_ = column 2 data_

unfoldable pub owner_domain : List Bytes → Bytes
owner_domain data_ = column 3 data_

unfoldable pub is_p_domain : List Bytes → Bytes
is_p_domain data_ = column 4 data_

unfoldable pub latitude : List Bytes → Bytes
latitude data_ = column 5 data_

unfoldable pub longitude : List Bytes → Bytes
longitude data_ = column 6 data_

unfoldable pub timezone : List Bytes → Bytes
timezone data_ = column 7 data_

unfoldable pub utc_offset : List Bytes → Bytes
utc_offset data_ = column 8 data_

unfoldable pub china_admin_code : List Bytes → Bytes
china_admin_code data_ = column 9 data_

unfoldable pub idd_code : List Bytes → Bytes
idd_code data_ = column 10 data_

unfoldable pub country_code : List Bytes → Bytes
country_code data_ = column 11 data_

unfoldable pub continent_code : List Bytes → Bytes
continent_code data_ = column 12 data_

unfoldable pub idc : List Bytes → Bytes
idc data_ = column 13 data_

unfoldable pub base_station : List Bytes → Bytes
base_station data_ = column 14 data_

unfoldable pub country_code3 : List Bytes → Bytes
country_code3 data_ = column 15 data_

unfoldable pub european_union : List Bytes → Bytes
european_union data_ = column 16 data_

unfoldable pub currency_code : List Bytes → Bytes
currency_code data_ = column 17 data_

unfoldable pub currency_name : List Bytes → Bytes
currency_name data_ = column 18 data_

unfoldable pub anycast : List Bytes → Bytes
anycast data_ = column 19 data_

unfoldable pub rows : List Bytes → List Row
unfolding country_name region_name city_name owner_domain is_p_domain latitude longitude timezone
    utc_offset china_admin_code idd_code country_code continent_code idc base_station country_code3
    european_union currency_code currency_name anycast
rows data_ =
    (codes "country_name:", country_name data_)
    ∷ (codes "region_name:", region_name data_)
    ∷ (codes "city_name:", city_name data_)
    ∷ (codes "owner_domain:", owner_domain data_)
    ∷ (codes "isp_domain:", is_p_domain data_)
    ∷ (codes "latitude:", latitude data_)
    ∷ (codes "longitude:", longitude data_)
    ∷ (codes "timezone:", timezone data_)
    ∷ (codes "utc_offset:", utc_offset data_)
    ∷ (codes "china_admin_code:", china_admin_code data_)
    ∷ (codes "idd_code:", idd_code data_)
    ∷ (codes "country_code:", country_code data_)
    ∷ (codes "continent_code:", continent_code data_)
    ∷ (codes "idc:", idc data_)
    ∷ (codes "base_station:", base_station data_)
    ∷ (codes "country_code3:", country_code3 data_)
    ∷ (codes "european_union:", european_union data_)
    ∷ (codes "currency_code:", currency_code data_)
    ∷ (codes "currency_name:", currency_name data_)
    ∷ (codes "anycast:", anycast data_)
    ∷ []

unfoldable pub str : List Bytes → Bytes
unfolding rows
str data_ = render (rows data_)
