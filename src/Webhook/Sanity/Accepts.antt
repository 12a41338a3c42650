-- ===== src/Webhook/Sanity/Accepts.antt =====
-- What `validateCommon` accepts.
use hermes_operator.Common.{
  ℕ, ◌≤◌, true, false, ◌&&◌, Option, none, some, List, [], ◌∷◌, ◌≡◌, ◌≢◌, refl, ◌⊎◌, ◌↔◌, arith,
  is_some, bool_value, All,
}
use hermes_operator.Api.Features.{SelfConfigAction, SelfConfigureSpec, unknown}
use hermes_operator.Api.Instance.{HermesInstance}
use hermes_operator.Webhook.{raw_and_ref, runtime_deprecated}
use hermes_operator.Webhook.Decides.{
  Decides, Decides-iff, Decides-pass, Decides-return_if, Decides-when, Decides-then, Decides-note,
  Decides-warn,
}
use hermes_operator.Webhook.Answers.{empty_iff, cons_iff, on_iff, both_iff}
use hermes_operator.Webhook.Sanity.{
  above, wants_both, known_actions, check_self_configure, check_availability, validate_common,
}

abbrev pub IsKnown : SelfConfigAction → Type 0
IsKnown (unknown t) = ⊥
IsKnown _ = Unit

-- A self-configuration that is switched on has an explicit policy.
pub record IsPolicy (s : SelfConfigureSpec) : Type 0 where
  pub keys : s.protected_keys ≢ []
  pub actions : s.allowed_actions ≢ []
  pub known : All IsKnown s.allowed_actions

pub record IsSane (i : HermesInstance) : Type 0 where
  pub repository : i.spec.image.repository ≢ ""
  pub size : i.spec.storage.persistence.size ≢ ""
  pub policy : i.spec.self_configure.enabled ≡ some true → IsPolicy i.spec.self_configure
  pub disruption :
      (i.spec.availability.pod_disruption_budget.min_available ≡ none)
      ⊎ (i.spec.availability.pod_disruption_budget.max_unavailable ≡ none)
  pub replicas :
      (lo hi : ℕ)
      → i.spec.availability.horizontal_pod_autoscaler.min_replicas ≡ some lo
      → i.spec.availability.horizontal_pod_autoscaler.max_replicas ≡ some hi
      → lo ≤ hi

IsKnown-tail :
    (a : SelfConfigAction) (rest : List SelfConfigAction)
    → IsKnown a
    → All IsKnown rest ↔ All IsKnown (a ∷ rest)
IsKnown-tail a rest k = (λ h. (k, h), λ h. h.1)

above_iff :
    (a b : Option ℕ) → (above a b ≡ false) ↔ ((lo hi : ℕ) → a ≡ some lo → b ≡ some hi → lo ≤ hi)
above_iff none b = (λ e lo hi p q. cc, λ h. refl)
above_iff (some x) none = (λ e lo hi p q. cc, λ h. refl)
above_iff (some x) (some y) = (λ e lo hi p q. ground arith, λ h. ground (arith, h x y refl refl))

module _ {W : Type 0} {F : Type 0} where
  known_actions-Decides :
      (xs : List SelfConfigAction) → Decides F (All IsKnown xs) (known_actions {W = W} xs)
  unfolding known_actions
  known_actions-Decides [] = Decides-pass
  known_actions-Decides (unknown t ∷ rest) = record {
    sound = λ s h. cc;
    complete = λ s f h. absurd h.0;
  }
  known_actions-Decides (a ∷ rest) =
      Decides-iff (known_actions-Decides rest) (IsKnown-tail a rest tt)

  check_self_configure-Decides :
      (s : SelfConfigureSpec)
      → Decides F (s.enabled ≡ some true → IsPolicy s) (check_self_configure {W = W} s)
  unfolding check_self_configure
  check_self_configure-Decides s =
      Decides-iff
        (Decides-when (bool_value s.enabled) (
          Decides-then (Decides-return_if _ _)
            (Decides-then (Decides-return_if _ _) (known_actions-Decides s.allowed_actions))))
        (
          λ h on.
              let (a, b) = h ((on_iff s.enabled).1 on) in
              record {
                keys = (cons_iff s.protected_keys).0 a;
                actions = (cons_iff s.allowed_actions).0 b.0;
                known = b.1;
              },
          λ h on.
              let p = h ((on_iff s.enabled).0 on) in
              (
                (cons_iff s.protected_keys).1 p.keys,
                ((cons_iff s.allowed_actions).1 p.actions, p.known),
              ),
        )

  check_availability-Decides :
      (i : HermesInstance)
      → Decides F
          ((is_some i.spec.availability.pod_disruption_budget.min_available
                && is_some i.spec.availability.pod_disruption_budget.max_unavailable
              ≡ false)
            × ((above i.spec.availability.horizontal_pod_autoscaler.min_replicas
                    i.spec.availability.horizontal_pod_autoscaler.max_replicas
                  ≡ false)
                × Unit {0}))
          (check_availability {W = W} i)
  unfolding check_availability
  check_availability-Decides i =
      Decides-then (Decides-return_if _ _) (Decides-then (Decides-return_if _ _) (Decides-pass))

  pub validate_common-Decides :
      (i : HermesInstance) → Decides F (IsSane i) (validate_common {W = W} i)
  unfolding validate_common
  validate_common-Decides i =
      let s = i.spec in
      let pdb = s.availability.pod_disruption_budget in
      let hpa = s.availability.horizontal_pod_autoscaler in
      Decides-iff
        (Decides-then (Decides-return_if _ _) (
          Decides-then (Decides-return_if _ _) (
            Decides-then (Decides-note (wants_both i) (Decides-warn raw_and_ref)) (
              Decides-then (Decides-note i.spec.runtime_set (Decides-warn runtime_deprecated)) (
                Decides-then (check_self_configure-Decides s.self_configure)
                  (check_availability-Decides i))))))
        (
          λ h. record {
            repository = (empty_iff s.image.repository).0 h.0;
            size = (empty_iff s.storage.persistence.size).0 h.1.0;
            policy = h.1.1.1.1.0;
            disruption = (both_iff pdb.min_available pdb.max_unavailable).0 h.1.1.1.1.1.0;
            replicas = (above_iff hpa.min_replicas hpa.max_replicas).0 h.1.1.1.1.1.1.0;
          },
          λ h. (
            (empty_iff s.image.repository).1 h.repository,
            (
              (empty_iff s.storage.persistence.size).1 h.size,
              (
                tt,
                (
                  tt,
                  (
                    h.policy,
                    (
                      (both_iff pdb.min_available pdb.max_unavailable).1 h.disruption,
                      ((above_iff hpa.min_replicas hpa.max_replicas).1 h.replicas, tt),
                    ),
                  ),
                ),
              ),
            ),
          ),
        )
