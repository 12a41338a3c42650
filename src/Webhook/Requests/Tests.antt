-- ===== src/Webhook/Requests/Tests.antt =====
-- A request for a skill and a patch, which the webhook admits.
use hermes_operator.Common.{ℕ, String, none, length, ◌≡◌, refl}
use hermes_operator.Kube.Result.{Result, ok}
use hermes_operator.Common.{some}
use hermes_operator.Api.Instance.{HermesInstance}
use hermes_operator.SelfConfig.Policy.{determine_actions}
use hermes_operator.Webhook.{denial_of}
use hermes_operator.Webhook.Requests.{mutations, parent_answer, check_parent, check_patch, validate}
use hermes_operator.Webhook.Requests.Accepts.{
  IsWellFormed, length-determine_actions, validate-IsWellFormed,
}
use hermes_operator.Fixtures.Admissible.{admission}
use hermes_operator.Fixtures.Requests.{request, permissive_parent, unmarshal}

abbrev get : String → String → ℕ → Result HermesInstance × ℕ
get namespace name w = (ok permissive_parent, w)

admits : denial_of (validate (some get) unmarshal request admission) ≡ none
unfolding validate check_parent parent_answer check_patch mutations
admits = refl

validate-IsWellFormed_example : IsWellFormed get unmarshal request 0
validate-IsWellFormed_example = validate-IsWellFormed get unmarshal request admission admits

length-determine_actions_example : length (determine_actions request) ≡ mutations request
length-determine_actions_example = length-determine_actions request
