-- ===== src/Resources/Labels/Tests.antt =====
-- Labels of an object that another controller has labelled too.
use hermes_operator.Common.{some, [], ◌∷◌, ◌≡◌, refl, get, put, put_all}
use hermes_operator.Resources.Labels.{merge_preserving_foreign, put_foreign, has_prefix}
use hermes_operator.Resources.Labels.Foreign.{get-merge_preserving_foreign, foreign}

get-merge_preserving_foreign_example :
    get "team" (
      merge_preserving_foreign
        (("hermes.agent/old", "1") ∷ ("team", "a") ∷ [])
        (("hermes.agent/new", "2") ∷ [])
        "hermes.agent/")
    ≡ some "a"
unfolding get foreign has_prefix
get-merge_preserving_foreign_example =
    get-merge_preserving_foreign (("hermes.agent/old", "1") ∷ ("team", "a") ∷ [])
      (("hermes.agent/new", "2") ∷ []) "hermes.agent/" "team" (refl, (refl, tt)) (refl, tt)

merges :
    merge_preserving_foreign
      (("hermes.agent/old", "1") ∷ ("team", "a") ∷ [])
      (("hermes.agent/new", "2") ∷ [])
      "hermes.agent/"
    ≡ ("team", "a") ∷ ("hermes.agent/new", "2") ∷ []
unfolding merge_preserving_foreign put_foreign has_prefix put_all put
merges = refl
