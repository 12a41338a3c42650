-- ===== src/SelfConfig/Patches/Merge.antt =====
-- internal/controller/selfconfig_apply.go: what the merged workspace ConfigMap holds.
use hermes_operator.Common.{String, some, ◌≡◌, arith, get, or_else, IsMap, get-put_all}
use hermes_operator.SelfConfig.Patches.{ConfigMap, merge_config_map_patches}

-- In the merge of two partial ConfigMaps, where the right one has no key twice, a key has the value
-- of the right one, and of the left one where the right one does not have it.
pub get-merge_config_map_patches :
    (j : String) (left right merged : ConfigMap)
    → IsMap right.entries
    → merge_config_map_patches (some left) (some right) ≡ some merged
    → get j merged.entries ≡ or_else (get j right.entries) (get j left.entries)
unfolding merge_config_map_patches
get-merge_config_map_patches j left right merged d e =
    ground (arith, get-put_all j right.entries left.entries d)
