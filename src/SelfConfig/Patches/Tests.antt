-- ===== src/SelfConfig/Patches/Tests.antt =====
-- Two patches of one ConfigMap.
use hermes_operator.Common.{String, some, [], ◌∷◌, ◌≡◌, refl, put, put_all}
use hermes_operator.SelfConfig.Patches.{ConfigMap, merge_config_map_patches}

abbrev map_of : String → String → ConfigMap
map_of k v = record { name = "ws"; namespace = "default"; entries = (k, v) ∷ [] }

abbrev merged : ConfigMap
merged = record { name = "ws"; namespace = "default"; entries = ("a", "1") ∷ ("b", "2") ∷ [] }

merges : merge_config_map_patches (some (map_of "a" "1")) (some (map_of "b" "2")) ≡ some merged
unfolding merge_config_map_patches put_all put
merges = refl
