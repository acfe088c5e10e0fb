-- ===== src/Model/Tests.antt =====
-- The union of maps at two maps that share a key.
use call_center.Prelude.{◌≡◌, refl, some, [], ◌∷◌, string_key}
use call_center.Prelude.StringMap.{lookup}
use call_center.Model.Maps.{StringMap, union_string_maps, lookup-union_string_maps}

abbrev first_map : StringMap
first_map = ("cause", "BUSY") ∷ ("queue", "7") ∷ []

abbrev second_map : StringMap
second_map = ("cause", "NO_ANSWER") ∷ ("queue", "") ∷ []

lookup-union_string_maps_example :
    lookup "queue" (union_string_maps (first_map ∷ second_map ∷ [])) ≡ some "7"
unfolding lookup
lookup-union_string_maps_example =
    lookup-union_string_maps "queue" (first_map ∷ second_map ∷ [])
      ((refl, (refl, tt)), ((refl, (refl, tt)), tt))
