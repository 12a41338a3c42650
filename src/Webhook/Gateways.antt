-- ===== src/Webhook/Gateways.antt =====
-- internal/webhook/webhook_hermesinstance_validate.go: `validateGateways`, with its check of a
-- reference to a Secret.
pub mod Accepts
use hermes_operator.Common.{
  String, Bool, true, false, not, ◌&&◌, Option, none, some, is_empty, bool_value, if◌then◌else◌,
  any, str_eq, List,
}
use hermes_operator.Common.Flow.{◌>>◌, ◌>>=◌, when, exit, return_if}
use hermes_operator.Api.Features.{SecretKeySelector}
use hermes_operator.Kube.Result.{Result, ok, err, Err, is_not_found}
use hermes_operator.Api.Instance.{HermesInstance}
use hermes_operator.Webhook.{
  Check, Admission, Secret, SecretClient, warn, pass, secret_absent, key_absent,
  secret_ref_required, look_up_failed,
}

abbrev pub has_key : Secret → String → Bool
has_key s k = any (str_eq k) s.keys

module _ {W : Type 0} (client : SecretClient W) where
  -- The answer to the read of the Secret.
  pub secret_answer : String → SecretKeySelector → String → Result Secret → Check W
  secret_answer field ref namespace (ok secret) =
      when (not (is_empty ref.key) && not (has_key secret ref.key))
        (warn (key_absent field ref.key ref.name))
  secret_answer field ref namespace (err e) =
      if is_not_found e
      then warn (secret_absent field ref.name namespace)
      else exit (look_up_failed field e)

  pub look_up : String → SecretKeySelector → HermesInstance → Check W
  unfolding secret_answer
  look_up field ref i s = elim client [
    | none ↦ pass s
    | some get ↦
        let (r, w) = get i.meta.namespace ref.name s.world in
        secret_answer field ref i.meta.namespace r (record s { world = w })
  ]

  pub check_ref : String → Option SecretKeySelector → Bool → HermesInstance → Check W
  unfolding look_up
  check_ref field none required i = return_if required (secret_ref_required field)
  check_ref field (some ref) required i = look_up field ref i

  -- The function `check` of `validateGateways`.
  pub check_secret :
      String → Option Bool → Option SecretKeySelector → Bool → HermesInstance → Check W
  unfolding check_ref
  check_secret field enabled ref required i =
      when (bool_value enabled) (check_ref field ref required i)

  pub validate_gateways : HermesInstance → Check W
  unfolding check_secret
  validate_gateways i =
      let g = i.spec.gateways in
      let honcho = i.spec.profile_store.honcho in
      do
        check_secret "spec.gateways.telegram.botTokenSecretRef" g.telegram.enabled
            g.telegram.bot_token_secret_ref true i
        check_secret "spec.gateways.discord.botTokenSecretRef" g.discord.enabled
            g.discord.bot_token_secret_ref true i
        check_secret "spec.gateways.slack.botTokenSecretRef" g.slack.enabled
            g.slack.bot_token_secret_ref true i
        check_secret "spec.gateways.slack.appTokenSecretRef" g.slack.enabled
            g.slack.app_token_secret_ref false i
        check_secret "spec.gateways.slack.signingSecretRef" g.slack.enabled
            g.slack.signing_secret_ref false i
        check_secret "spec.gateways.whatsapp.providerSecretRef" g.whats_app.enabled
            g.whats_app.provider_secret_ref true i
        check_secret "spec.gateways.signal.phoneNumberSecretRef" g.signal.enabled
            g.signal.phone_number_secret_ref true i
        check_secret "spec.gateways.signal.authTokenSecretRef" g.signal.enabled
            g.signal.auth_token_secret_ref true i
        when (bool_value honcho.enabled) (
            check_secret "spec.profileStore.honcho.apiKeySecretRef" honcho.enabled
              honcho.api_key_secret_ref true i)
