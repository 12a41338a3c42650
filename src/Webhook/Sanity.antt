-- ===== src/Webhook/Sanity.antt =====
-- internal/webhook/webhook_hermesinstance_validate.go: `validateCommon`.
pub mod Accepts
use hermes_operator.Common.{
  ℕ, String, Bool, true, false, ◌&&◌, not, Option, none, some, List, [], ◌∷◌, is_empty, is_some,
  is_cons, bool_value, ltb, if◌then◌else◌,
}
use hermes_operator.Common.Flow.{◌>>◌, ◌>>=◌, return_if, when, exit}
use hermes_operator.Api.Features.{SelfConfigAction, SelfConfigureSpec, unknown}
use hermes_operator.Api.Instance.{HermesInstance}
use hermes_operator.Webhook.{
  Check, Denial, warn, pass, raw_and_ref, runtime_deprecated, repository_required, size_required,
  protected_keys_required, allowed_actions_required, unknown_action, both_disruption_bounds,
  min_above_max,
}

abbrev pub wants_both : HermesInstance → Bool
wants_both i =
    is_some i.spec.config.raw
    && is_some i.spec.config.config_map_ref
    && is_empty i.spec.config.merge_mode

-- `*min > *max`, where both are set.
abbrev pub above : Option ℕ → Option ℕ → Bool
above none b = false
above (some a) none = false
above (some a) (some b) = ltb b a

module _ {W : Type 0} where
  -- The loop over the allowed actions.
  pub known_actions : List SelfConfigAction → Check W
  known_actions [] = pass
  known_actions (unknown text ∷ rest) = exit (unknown_action text)
  known_actions (_ ∷ rest) = known_actions rest

  pub check_self_configure : SelfConfigureSpec → Check W
  unfolding known_actions
  check_self_configure s = when (bool_value s.enabled) do
    return_if (not (is_cons s.protected_keys)) protected_keys_required
    return_if (not (is_cons s.allowed_actions)) allowed_actions_required
    known_actions s.allowed_actions

  pub check_availability : HermesInstance → Check W
  check_availability i =
      let pdb = i.spec.availability.pod_disruption_budget in
      let hpa = i.spec.availability.horizontal_pod_autoscaler in
      do
        return_if (is_some pdb.min_available && is_some pdb.max_unavailable) both_disruption_bounds
        return_if (above hpa.min_replicas hpa.max_replicas) min_above_max
        pass

  pub validate_common : HermesInstance → Check W
  unfolding check_self_configure check_availability
  validate_common i = do
    return_if (is_empty i.spec.image.repository) repository_required
    return_if (is_empty i.spec.storage.persistence.size) size_required
    when (wants_both i) (warn raw_and_ref)
    when i.spec.runtime_set (warn runtime_deprecated)
    check_self_configure i.spec.self_configure
    check_availability i
