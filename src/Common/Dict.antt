-- ===== src/Common/Dict.antt =====
-- `std::map<std::string, std::string>` as an association list.

use mathlib.Core.Path.{◌≡◌, refl}
use mathlib.Core.Option.{Option, none, some}
use mathlib.Core.List.{List, [], ◌∷◌}
use native.Mathlib.Omega.{arith}
use project_test_demo.Common.Tests.{if◌then◌else◌}
use project_test_demo.Common.Text.{Bytes, equal, equal_iff}

-- `std::map<std::string, std::string>`: each key once. The order of iteration is not modelled.
abbrev pub Dict : Type 0
Dict = List (Bytes × Bytes)

-- `m[key] = value`
unfoldable pub assign : Bytes → Bytes → Dict → Dict
assign k v [] = (k, v) ∷ []
assign k v ((j, w) ∷ m) = if equal j k then (j, v) ∷ m else (j, w) ∷ assign k v m

-- `m.find(key)`
unfoldable pub find : Bytes → Dict → Option Bytes
find k [] = none
find k ((j, w) ∷ m) = if equal j k then some w else find k m

-- `m.emplace(key, value)`: an entry that is there stays.
unfoldable pub emplace : Bytes → Bytes → Dict → Dict
emplace k v [] = (k, v) ∷ []
emplace k v ((j, w) ∷ m) = if equal j k then (j, w) ∷ m else (j, w) ∷ emplace k v m

pub find-emplace :
    (k j v : Bytes) (m : Dict)
    → find j (emplace k v m)
      ≡ elim (find j m) [ some w ↦ some w | none ↦ (if equal k j then some v else none) ]
unfolding find emplace
find-emplace k j v [] = refl
find-emplace k j v ((i, w) ∷ m) =
    ground (arith, equal_iff i k, equal_iff i j, equal_iff k j, find-emplace k j v m)
