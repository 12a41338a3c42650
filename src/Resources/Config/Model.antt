-- ===== src/Resources/Config/Model.antt =====
-- internal/resources/configmap.go: every rendered configuration names a model.
use hermes_operator.Common.{
  String, Bool, true, false, some, ◌≡◌, refl, arith, ap, is_some, if◌then◌else◌, inl, inr,
}
use hermes_operator.Api.Instance.{HermesInstance}
use hermes_operator.Kube.Result.{Result, Result-cases, ok, err}
use hermes_operator.Resources.Yaml.{Fields, text, look, set}
use hermes_operator.Resources.Yaml.Paths.{look-set}
use hermes_operator.Resources.Config.{
  Yaml, IsYaml, parse, placeholder, with_model, ensure_model_default, or_keep, gateway_body,
  config_text, wrapped, and_then,
}

module _ (y : Yaml) (law : IsYaml y) where
  -- What a body without a model becomes has one.
  look-placeholder : (root : Fields) → look "model" (placeholder y root) ≡ some (text "gpt-4o-mini")
  look-placeholder root =
      rw
        (
          look-set "api_key" "model" (text "placeholder-no-live-calls") (
              set "base_url" (text "http://127.0.0.1:9/v1")
                (set "model" (text "gpt-4o-mini") root)),
          look-set "base_url" "model" (text "http://127.0.0.1:9/v1")
              (set "model" (text "gpt-4o-mini") root),
          look-set "model" "model" (text "gpt-4o-mini") root,
        )
        refl

  -- What has been printed from a map with a model is parsed as a map with a model.
  parse-marshal :
      (what s : String) (m n : Fields)
      → y.marshal m ≡ ok s
      → is_some (look "model" m) ≡ true
      → parse y what s ≡ ok n
      → is_some (look "model" n) ≡ true
  unfolding parse
  parse-marshal what s m n e has f = elim (Result-cases (y.unmarshal s)) [
    | inl (n', q) ↦
        ground
          (arith, law.marshal-nonempty m s e, law.unmarshal-marshal "model" s m n' e q has, q, f)
    | inr (x, q) ↦ ground (arith, law.marshal-nonempty m s e, q, f)
  ]

  -- The text that a parsed body becomes has a model, by whether the body has one and by what the
  -- printer answers.
  placed_model :
      (what body : String) (root final : Fields) (b : Bool) (q : Result String)
      → is_some (look "model" root) ≡ b
      → y.marshal (placeholder y root) ≡ q
      → parse y what body ≡ ok root
      → parse y what
          (or_keep y body (if b then ok body else wrapped "marshal config with model default" q))
        ≡ ok final
      → is_some (look "model" final) ≡ true
  placed_model what body root final true q e m p f = ground (arith, p, f)
  placed_model what body root final false (ok s) e m p f =
      parse-marshal what s (placeholder y root) final m (ap is_some (look-placeholder root)) f
  placed_model what body root final false (err x) e m p f =
      ground (arith, law.marshal-ok (placeholder y root))

  -- The same of a body that may not parse.
  defaulted_model :
      (body : String) (final : Fields) (q : Result Fields)
      → parse y "parse rendered config" body ≡ q
      → parse y "parse rendered config" (or_keep y body (and_then y q (with_model y body)))
        ≡ ok final
      → is_some (look "model" final) ≡ true
  defaulted_model body final (ok root) e f =
      placed_model "parse rendered config" body root final (is_some (look "model" root))
        (y.marshal (placeholder y root)) refl refl e f
  defaulted_model body final (err x) e f = ground arith

  -- With a printer of YAML whose texts are not empty and read back with the keys that were printed, the
  -- configuration that is built for an instance names a model whenever it can be parsed, whatever the
  -- instance and the resolved body say.
  pub config_text-model :
      (i : HermesInstance) (resolved : String) (final : Fields)
      → parse y "parse rendered config" (config_text y i resolved) ≡ ok final
      → is_some (look "model" final) ≡ true
  unfolding config_text ensure_model_default
  config_text-model i resolved final =
      let body = gateway_body y i resolved in
      defaulted_model body final (parse y "parse rendered config" body) refl
