-- ===== src/Webhook/Gateways/Accepts.antt =====
-- What `validateGateways` accepts.
use hermes_operator.Common.{
  String, Bool, true, false, Option, none, some, ◌≡◌, ◌≢◌, refl, bool_value, arith,
}
use hermes_operator.Api.Features.{SecretKeySelector}
use hermes_operator.Api.Instance.{HermesInstance}
use hermes_operator.Kube.Result.{Result, ok, err, is_not_found}
use hermes_operator.Webhook.{Secret, SecretClient, Admission, denial_of}
use hermes_operator.Webhook.Answers.{on_iff}
use hermes_operator.Webhook.Decides.{
  Decides, Decides-iff, Decides-return_if, Decides-when, Decides-then,
}
use hermes_operator.Webhook.Gateways.{
  secret_answer, look_up, check_ref, check_secret, validate_gateways,
}

-- A Secret is read, or is not there.
abbrev pub Answers : Result Secret → Type 0
Answers (ok secret) = Unit
Answers (err e) = is_not_found e ≡ true

-- Every read is answered so.
abbrev pub Reads : {W : Type 0} → SecretClient W → Type 0
Reads none = Unit
Reads {W} (some get) = (namespace name : String) (w : W) → Answers (get namespace name w).0

-- A gateway that is switched on has its reference.
abbrev pub Requires : Option Bool → Option SecretKeySelector → Type 0
Requires enabled ref = enabled ≡ some true → ref ≢ none

pub record HasSecrets (i : HermesInstance) : Type 0 where
  pub telegram :
      Requires i.spec.gateways.telegram.enabled i.spec.gateways.telegram.bot_token_secret_ref
  pub discord :
      Requires i.spec.gateways.discord.enabled i.spec.gateways.discord.bot_token_secret_ref
  pub slack : Requires i.spec.gateways.slack.enabled i.spec.gateways.slack.bot_token_secret_ref
  pub whats_app :
      Requires i.spec.gateways.whats_app.enabled i.spec.gateways.whats_app.provider_secret_ref
  pub signal_phone :
      Requires i.spec.gateways.signal.enabled i.spec.gateways.signal.phone_number_secret_ref
  pub signal_token :
      Requires i.spec.gateways.signal.enabled i.spec.gateways.signal.auth_token_secret_ref
  pub honcho :
      Requires i.spec.profile_store.honcho.enabled i.spec.profile_store.honcho.api_key_secret_ref

module _ {W : Type 0} where
  answer-none :
      (client : SecretClient W) (field : String) (ref : SecretKeySelector) (ns : String)
      (r : Result Secret) (s : Admission W)
      → Answers r
      → denial_of (secret_answer client field ref ns r s) ≡ none
  unfolding secret_answer
  answer-none client field ref ns (ok secret) s a = ground arith
  answer-none client field ref ns (err e) s a = ground arith

  pub look_up-Decides :
      (client : SecretClient W) (field : String) (ref : SecretKeySelector) (i : HermesInstance)
      → Decides (Reads client) (Unit {0}) (look_up client field ref i)
  unfolding look_up
  look_up-Decides none field ref i = record { sound = λ s h. tt; complete = λ s f u. refl }
  look_up-Decides (some get) field ref i = record {
    sound = λ s h. tt;
    complete = λ s f u.
        let (r, w) = get i.meta.namespace ref.name s.world in
        answer-none (some get) field ref i.meta.namespace r (record s { world = w })
          (f i.meta.namespace ref.name s.world);
  }

  module _ (client : SecretClient W) where
    check_ref-Decides :
        (field : String) (ref : Option SecretKeySelector) (required : Bool) (i : HermesInstance)
        → Decides
            (Reads client)
            (required ≡ true → ref ≢ none)
            (check_ref client field ref required i)
    unfolding check_ref
    check_ref-Decides field none required i =
        Decides-iff (Decides-return_if required _) (λ e q n. cc, λ h. ground (arith, h))
    check_ref-Decides field (some ref) required i =
        Decides-iff (look_up-Decides client field ref i) (λ u q n. cc, λ h. tt)

    check_secret-Decides :
        (field : String) (enabled : Option Bool) (ref : Option SecretKeySelector) (required : Bool)
        (i : HermesInstance)
        → Decides
            (Reads client)
            (required ≡ true → Requires enabled ref)
            (check_secret client field enabled ref required i)
    unfolding check_secret
    check_secret-Decides field enabled ref required i =
        Decides-iff (Decides-when (bool_value enabled) (check_ref-Decides field ref required i))
          (λ h q on. h ((on_iff enabled).1 on) q, λ h on q. h q ((on_iff enabled).0 on))

    required-Decides :
        (field : String) (enabled : Option Bool) (ref : Option SecretKeySelector)
        (i : HermesInstance)
        → Decides
            (Reads client)
            (Requires enabled ref)
            (check_secret client field enabled ref true i)
    required-Decides field enabled ref i =
        Decides-iff (check_secret-Decides field enabled ref true i) (λ h. h refl, λ h q. h)

    optional-Decides :
        (field : String) (enabled : Option Bool) (ref : Option SecretKeySelector)
        (i : HermesInstance)
        → Decides (Reads client) (Unit {0}) (check_secret client field enabled ref false i)
    optional-Decides field enabled ref i =
        Decides-iff (check_secret-Decides field enabled ref false i) (λ h. tt, λ u q. cc)

    pub validate_gateways-Decides :
        (i : HermesInstance) → Decides (Reads client) (HasSecrets i) (validate_gateways client i)
    unfolding validate_gateways
    validate_gateways-Decides i =
        let honcho = i.spec.profile_store.honcho in
        let g = i.spec.gateways in
        Decides-iff
          (Decides-then
            (required-Decides "spec.gateways.telegram.botTokenSecretRef" g.telegram.enabled
              g.telegram.bot_token_secret_ref i)
            (Decides-then
              (required-Decides "spec.gateways.discord.botTokenSecretRef" g.discord.enabled
                g.discord.bot_token_secret_ref i)
              (Decides-then
                (required-Decides "spec.gateways.slack.botTokenSecretRef" g.slack.enabled
                  g.slack.bot_token_secret_ref i)
                (Decides-then
                  (optional-Decides "spec.gateways.slack.appTokenSecretRef" g.slack.enabled
                    g.slack.app_token_secret_ref i)
                  (Decides-then
                    (optional-Decides "spec.gateways.slack.signingSecretRef" g.slack.enabled
                      g.slack.signing_secret_ref i)
                    (Decides-then
                      (required-Decides "spec.gateways.whatsapp.providerSecretRef"
                        g.whats_app.enabled g.whats_app.provider_secret_ref i)
                      (Decides-then
                        (required-Decides "spec.gateways.signal.phoneNumberSecretRef"
                          g.signal.enabled g.signal.phone_number_secret_ref i)
                        (Decides-then
                          (required-Decides "spec.gateways.signal.authTokenSecretRef"
                            g.signal.enabled g.signal.auth_token_secret_ref i)
                          (Decides-when (bool_value honcho.enabled) (
                            required-Decides "spec.profileStore.honcho.apiKeySecretRef"
                              honcho.enabled honcho.api_key_secret_ref i))))))))))
          (
            λ h. record {
              telegram = h.0;
              discord = h.1.0;
              slack = h.1.1.0;
              whats_app = h.1.1.1.1.1.0;
              signal_phone = h.1.1.1.1.1.1.0;
              signal_token = h.1.1.1.1.1.1.1.0;
              honcho = λ on. h.1.1.1.1.1.1.1.1 ((on_iff honcho.enabled).1 on) on;
            },
            λ h. (
              h.telegram,
              (
                h.discord,
                (
                  h.slack,
                  (tt, (tt, (h.whats_app, (h.signal_phone, (h.signal_token, λ on. h.honcho))))),
                ),
              ),
            ),
          )
