-- ===== src/Resources/Config/Tests.antt =====
-- Configurations: an overlay over a base, and the text that is built for an instance.
use hermes_operator.Common.{true, some, [], ◌∷◌, ◌≡◌, refl, is_some}
use hermes_operator.Kube.Result.{ok}
use hermes_operator.Resources.Yaml.{
  Fields, text, flag, mapping, end, field, look, set, deep_merge_maps,
}
use hermes_operator.Resources.Yaml.Paths.{at, at-deep_merge_maps, IsProper}
use hermes_operator.Resources.Config.{
  parse, config_text, ensure_model_default, merge_gateway_fragments,
}
use hermes_operator.Resources.Config.Model.{config_text-model}
use hermes_operator.Resources.Gateways.{build_gateway_config_fragments}
use hermes_operator.Fixtures.Instances.{plain_instance}
use hermes_operator.Fixtures.Keys.{keys_yaml, keys_yaml-IsYaml}

abbrev base : Fields
base = field "server" (mapping (field "port" (text "1") (field "host" (text "h") end))) end

abbrev overlay : Fields
overlay = field "server" (mapping (field "port" (text "2") end)) end

merges :
    deep_merge_maps base overlay
    ≡ field "server" (mapping (field "port" (text "2") (field "host" (text "h") end))) end
unfolding deep_merge_maps look set
merges = refl

at-deep_merge_maps_example :
    at ("server" ∷ "port" ∷ []) (mapping (deep_merge_maps base overlay)) ≡ some (text "2")
unfolding at look IsProper
at-deep_merge_maps_example =
    at-deep_merge_maps ("server" ∷ "port" ∷ []) base overlay (text "2") (refl, (refl, tt, tt), tt)
      refl refl

-- What the key "x" becomes: the placeholder model is added.
abbrev rendered : Fields
rendered =
    field "x" (flag true)
      (field "model" (flag true) (field "base_url" (flag true) (field "api_key" (flag true) end)))

renders :
    parse keys_yaml "parse rendered config" (config_text keys_yaml plain_instance ",xx;.")
    ≡ ok rendered
unfolding parse config_text ensure_model_default merge_gateway_fragments
    build_gateway_config_fragments look set
renders = refl

config_text-model_example : is_some (look "model" rendered) ≡ true
config_text-model_example =
    config_text-model keys_yaml keys_yaml-IsYaml plain_instance ",xx;." rendered renders
