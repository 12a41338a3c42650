-- ===== src/Instance/Status.antt =====
-- internal/controller/hermesinstance_controller.go: `setCondition`, `updateProfileStoreCondition` and
-- `updateStatus`.
use hermes_operator.Common.{ℕ, String, Bool, not, ◌&&◌, ◌==◌, leb, ltb, bool_value, if◌then◌else◌}
use hermes_operator.Common.Flow.{M, ◌>>=◌, ◌>>◌, finish, run}
use hermes_operator.Api.Status.{ConditionStatus, condition_true, condition_false}
use hermes_operator.Api.Instance.{HermesInstance}
use hermes_operator.Kube.Result.{Result, ok, err}
use hermes_operator.Kube.Objects.{StatefulSet}
use hermes_operator.Kube.Library.{Library}
use hermes_operator.Controller.{
  St, call, try, write, change, instance_now, set_conditions, condition,
}
use hermes_operator.Controller.Names.{stateful_set_name}
use hermes_operator.Resources.Names.{honcho_deployment_name}
use hermes_operator.Instance.{HermesInstanceReconciler, Done}

module _ (l : Library) where
  unfoldable pub set_condition : String → ConditionStatus → String → HermesInstance → HermesInstance
  set_condition t status reason i =
      set_conditions (λ cs. l.set_status_condition cs (condition i t status reason)) i

  -- The condition of the profile store, by what `Get` of its Deployment answers.
  abbrev profile_store_by : Result ℕ → HermesInstance → HermesInstance
  profile_store_by (err e) = set_condition "ProfileStoreReady" condition_false "DeploymentNotReady"
  profile_store_by (ok ready) =
      if leb 1 ready
      then set_condition "ProfileStoreReady" condition_true "Ready"
      else set_condition "ProfileStoreReady" condition_false "DeploymentNotReady"

  -- The phases.
  abbrev set_phase : String → HermesInstance → HermesInstance
  set_phase phase i = record i { status = record i.status { phase = phase } }

  abbrev count_replicas : StatefulSet → HermesInstance → HermesInstance
  count_replicas sts i = record i {
    status = record i.status {
      replicas = sts.replicas;
      ready_replicas = sts.ready_replicas;
      observed_generation = i.meta.generation;
    };
  }

  abbrev all_ready : StatefulSet → Bool
  all_ready sts = ltb 0 sts.ready_replicas && sts.ready_replicas == sts.replicas

  unfoldable pub observe : StatefulSet → HermesInstance → HermesInstance
  unfolding set_condition
  observe sts i =
      if i.spec.suspended
      then set_phase "Suspended" (count_replicas sts i)
      else if all_ready sts
      then set_condition "Ready" condition_true "AllSubsystemsReady"
          (set_phase "Ready" (count_replicas sts i))
      else set_condition "Ready" condition_false "StatefulSetNotReady"
          (set_phase "Pending" (count_replicas sts i))

module _ {V C W S I : Type 0} (r : HermesInstanceReconciler V C W S I) where
  open r use {updater, get_ready_replicas}
  open updater use {library, client}

  unfoldable pub update_profile_store_condition : {R : Type 0} → M (St W) R (Unit {0})
  unfolding set_condition
  update_profile_store_condition = do
    i ← instance_now
    if not (bool_value i.spec.profile_store.honcho.enabled)
        then change (set_condition library "ProfileStoreReady" condition_true "Disabled")
        else (do
          ready ← try (get_ready_replicas (honcho_deployment_name i) i.meta.namespace)
          change (profile_store_by library ready))

  unfoldable pub update_status : St W → Done × St W
  unfolding observe
  update_status = run do
    i ← instance_now
    sts ← call (client.get_stateful_set (stateful_set_name i) i.meta.namespace) err
    change (observe library sts)
    write client.update_status err
    finish (ok tt)
