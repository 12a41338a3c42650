-- ===== src/Resources/Config.antt =====
-- internal/resources/configmap.go: the ConfigMap with config.yaml. sigs.k8s.io/yaml is a parameter.
pub mod Model
mod Tests
use hermes_operator.Common.{
  String, Bool, true, false, Option, none, some, [], ◌∷◌, ◌++◌, is_empty, bool_value, is_some,
  if◌then◌else◌, Entries, ◌≡◌, ◌≢◌,
}
use hermes_operator.Api.Instance.{HermesInstance}
use hermes_operator.Kube.Result.{Result, ok, err, wrap, Err, is_ok}
use hermes_operator.Kube.Cluster.{Object}
use hermes_operator.Resources.Labels.{labels_for_instance}
use hermes_operator.Resources.Yaml.{
  Value, Fields, flag, text, texts, numbers, mapping, end, field, look, set, deep_merge_maps,
}
use hermes_operator.Resources.Gateways.{build_gateway_config_fragments}

-- `yaml.Unmarshal` into a map, `yaml.Marshal` and `yaml.JSONToYAML`.
pub record Yaml : Type 0 where
  pub unmarshal : String → Result Fields
  pub marshal : Fields → Result String
  pub json_to_yaml : String → Result String

-- What is relied on: a map can be printed, into a text that is not empty; and what such a text reads
-- back as has the keys of the map.
pub record IsYaml (y : Yaml) : Type 0 where
  pub marshal-ok : (m : Fields) → is_ok (y.marshal m) ≡ true
  pub marshal-nonempty : (m : Fields) (s : String) → y.marshal m ≡ ok s → is_empty s ≡ false
  pub unmarshal-marshal :
      (k s : String) (m n : Fields)
      → y.marshal m ≡ ok s
      → y.unmarshal s ≡ ok n
      → is_some (look k m) ≡ true
      → is_some (look k n) ≡ true

abbrev pub wrapped : {A : Type 0} → String → Result A → Result A
wrapped what (ok a) = ok a
wrapped what (err e) = err (wrap what e)

module _ (y : Yaml) where
  -- An empty body reads as the empty map.
  unfoldable pub parse : String → String → Result Fields
  parse what body = if is_empty body then ok end else wrapped what (y.unmarshal body)

  abbrev pub and_then : {A B : Type 0} → Result A → (A → Result B) → Result B
  and_then (ok a) k = k a
  and_then (err e) k = err e

  -- `existing, _ := root["gateways"].(map[string]any)`.
  abbrev existing_gateways : Option Value → Fields
  existing_gateways none = end
  existing_gateways (some (mapping m)) = m
  existing_gateways (some (flag b)) = end
  existing_gateways (some (text s)) = end
  existing_gateways (some (texts ts)) = end
  existing_gateways (some (numbers ns)) = end

  unfoldable pub set_all : Fields → Fields → Fields
  set_all end m = m
  set_all (field k v frags) m = set_all frags (set k v m)

  unfoldable pub merge_gateway_fragments : String → Fields → Result String
  unfolding set_all parse
  merge_gateway_fragments body end = ok body
  merge_gateway_fragments body (field k v frags) =
      and_then (parse "parse rendered config" body) λ root. wrapped "marshal merged config" (
        y.marshal (
          set "gateways"
            (mapping (set_all (field k v frags) (existing_gateways (look "gateways" root)))) root))

  abbrev pub placeholder : Fields → Fields
  placeholder root =
      set "api_key" (text "placeholder-no-live-calls")
        (set "base_url" (text "http://127.0.0.1:9/v1") (set "model" (text "gpt-4o-mini") root))

  abbrev pub with_model : String → Fields → Result String
  with_model body root =
      if is_some (look "model" root)
      then ok body
      else wrapped "marshal config with model default" (y.marshal (placeholder root))

  unfoldable pub ensure_model_default : String → Result String
  unfolding parse
  ensure_model_default body = and_then (parse "parse rendered config" body) (with_model body)

  unfoldable pub merge_yaml_bodies : String → String → Result String
  unfolding parse
  merge_yaml_bodies base overlay = and_then (parse "parse base YAML" base) λ b.
      and_then (parse "parse overlay" overlay)
        λ o. wrapped "marshal merged" (y.marshal (deep_merge_maps b o))

  -- `if x, err := f(body); err == nil { body = x }`.
  abbrev pub or_keep : String → Result String → String
  or_keep body (ok s) = s
  or_keep body (err e) = body

  abbrev raw_body : Option String → String
  raw_body none = "{}\n"
  raw_body (some raw) = if is_empty raw then "{}\n" else or_keep "{}\n" (y.json_to_yaml raw)

  abbrev pub chosen_body : HermesInstance → String → String
  chosen_body i resolved = if is_empty resolved then raw_body i.spec.config.raw else resolved

  abbrev pub gateway_body : HermesInstance → String → String
  gateway_body i resolved =
      let body = chosen_body i resolved in
      or_keep body (merge_gateway_fragments body (build_gateway_config_fragments i))

  unfoldable pub config_text : HermesInstance → String → String
  unfolding ensure_model_default merge_gateway_fragments
  config_text i resolved =
      let body = gateway_body i resolved in or_keep body (ensure_model_default body)

  -- `serve` is `BuildTailscaleServeConfig`; `s` the part of an object that a ConfigMap does not have.
  unfoldable pub build_config_map :
      {S : Type 0} → (HermesInstance → String) → S → HermesInstance → String → Object S
  unfolding config_text
  build_config_map serve s i resolved = record {
    labels = labels_for_instance i;
    annotations = [];
    owner = none;
    secret_type = "";
    entries =
        ("config.yaml", config_text i resolved)
        ∷ (if bool_value i.spec.tailscale.enabled
            then ("tailscale-serve.json", serve i) ∷ []
            else []);
    cluster_ip = "";
    cluster_ips = [];
    finalizers = [];
    deletion_timestamp = none;
    spec = s;
  }
