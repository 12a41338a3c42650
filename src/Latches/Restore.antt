-- ===== src/Latches/Restore.antt =====
-- internal/controller/restore.go: `RestoreReconciler.Reconcile`.
pub mod Outcome
use hermes_operator.Common.{String, Bool, true, false, not, is_empty, str_eq}
use hermes_operator.Common.Flow.{M, ◌>>=◌, ◌>>◌, finish, when, run, return_if}
use hermes_operator.Kube.Result.{Result, ok, err, Err, plain, wrap}
use hermes_operator.Kube.Objects.{Pod, normal, warning}
use hermes_operator.Kube.Client.{Client}
use hermes_operator.Kube.Library.{Library}
use hermes_operator.Api.Status.{condition_true, condition_false, condition_restore_applied}
use hermes_operator.Api.Instance.{HermesInstance}
use hermes_operator.Controller.{
  St, check, try, write, emit, change, instance_now, set_conditions, condition,
}
use hermes_operator.Controller.Names.{pod_name}
use hermes_operator.Latches.{
  Progress, waiting, finished, broken, Verdict, succeeded, failed, running, pod_verdict,
  not_found_or,
}

abbrev pub set_restored : HermesInstance → HermesInstance
set_restored i = record i { status = record i.status { restored_from = i.spec.restore_from } }

module _ {W : Type 0} (c : Client W) (l : Library) where
  abbrev pub restored_condition : HermesInstance → HermesInstance
  restored_condition i =
      set_conditions
        (λ cs.
          l.set_status_condition cs
            (condition i condition_restore_applied condition_true "RestoreCompleted"))
        i

  abbrev pub unrestored_condition : String → HermesInstance → HermesInstance
  unrestored_condition reason i =
      set_conditions
        (λ cs.
          l.set_status_condition cs (condition i condition_restore_applied condition_false reason))
        i

  pub on_verdict : Verdict → M (St W) Progress Progress
  on_verdict (succeeded message) = do
    change (λ i. restored_condition (set_restored i))
    write c.update_status (broken false)
    emit normal "RestoreCompleted"
    finish finished
  on_verdict (failed message) = do
    change (unrestored_condition "RestoreFailed")
    emit warning "RestoreFailed"
    write c.update_status (broken false)
    finish (broken true (wrap "init-restore failed" (plain message)))
  on_verdict running = do change (unrestored_condition "Restoring"); finish waiting

  -- The Pod is asked for its init container.
  pub watch_pod : M (St W) Progress Progress
  unfolding on_verdict
  watch_pod = do
    i ← instance_now
    found ← try (c.get_pod (pod_name i) i.meta.namespace)
    pod ← check found not_found_or
    on_verdict (pod_verdict "init-restore" pod)

  -- The latch stands: its condition is repaired.
  pub latched : M (St W) Progress Progress
  latched = do
    i ← instance_now
    when (not (l.is_status_condition_true i.status.conditions condition_restore_applied))
        (change restored_condition)
    finish finished

  pub watch_or_latched : Bool → M (St W) Progress Progress
  unfolding watch_pod latched
  watch_or_latched true = latched
  watch_or_latched false = watch_pod

  pub reconcile : St W → Progress × St W
  unfolding watch_or_latched
  reconcile = run do
    i ← instance_now
    return_if (is_empty i.spec.restore_from) finished
    watch_or_latched (str_eq i.status.restored_from i.spec.restore_from)
