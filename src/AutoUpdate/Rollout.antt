-- ===== src/AutoUpdate/Rollout.antt =====
-- internal/controller/autoupdate.go: `startRollout`, `driveRollout`, `confirmRollout`, `rollback`
-- and `countProbeFailures`.
pub mod Steps
use hermes_operator.Common.{
  ℕ, suc, ◌+◌, String, Bool, true, false, not, ◌&&◌, ◌||◌, Option, none, some, List, [], ◌∷◌,
  concat, is_empty, is_some, str_eq, ltb, leb, ◌==◌, if◌then◌else◌, bool_value_or_default,
}
use hermes_operator.Common.Flow.{M, ◌>>=◌, ◌>>◌, exit, finish, return_if, when, run, sub, go, stop}
use hermes_operator.Api.Status.{
  condition_true, condition_false, condition_auto_updated, condition_auto_update_rolled_back,
  AutoUpdateStatus,
}
use hermes_operator.Api.Instance.{HermesInstance, annotation_auto_update_target}
use hermes_operator.Kube.Result.{Result, ok, err, Err, plain, wrap, is_not_found}
use hermes_operator.Kube.Objects.{StatefulSet, Container, Event, normal, warning}
use hermes_operator.Controller.{
  St, check, call, try, read, write, emit, change, instance_now, set_auto_update, set_conditions,
  set_annotations, condition, annotation, annotate, unannotate,
}
use hermes_operator.Controller.Names.{stateful_set_name, pod_name}
use hermes_operator.Backup.OneShot.{OneShot, run_one_shot}
use hermes_operator.AutoUpdate.{AutoUpdateReconciler, rollout_window}

-- `(ctrl.Result, error)`: the seconds to the requeue, 0 for none.
abbrev pub Return : Type 0
Return = Result ℕ

abbrev pub repository_or_default : HermesInstance → String
repository_or_default i =
    if is_empty i.spec.image.repository
    then "ghcr.io/paperclipinc/hermes-agent"
    else i.spec.image.repository

abbrev pub image_of : HermesInstance → String → String
image_of i tag = concat (repository_or_default i ∷ ":" ∷ tag ∷ [])

-- `currentRunningTag`.
abbrev pub current_running_tag : HermesInstance → String
current_running_tag i =
    if is_empty i.status.auto_update.current_tag
    then i.spec.image.tag
    else i.status.auto_update.current_tag

-- `e.LastTimestamp` lies before the window that ends at the deadline.
abbrev pub before_window : Option ℕ → ℕ → Bool
before_window none t = false
before_window (some deadline) t = ltb (t + rollout_window) deadline

-- Whether the loop of `countProbeFailures` counts an event.
abbrev pub is_probe_failure : HermesInstance → Event → Bool
is_probe_failure i e =
    str_eq e.object_name (pod_name i)
    && str_eq e.object_kind "Pod"
    && (str_eq e.reason "Unhealthy" || str_eq e.reason "FailedMount")
    && not (before_window i.status.auto_update.rollout_deadline e.last_timestamp)

unfoldable pub count_events : HermesInstance → List Event → ℕ
count_events i [] = 0
count_events i (e ∷ es) =
    let rest = count_events i es in if is_probe_failure i e then suc rest else rest

module _ {V C W : Type 0} (a : AutoUpdateReconciler V C W) where
  open a use {library, client}

  -- `RunOneShot` has returned.
  backup_outcome : Bool → Bool → M (St W) Return (Unit {0})
  backup_outcome true done = emit warning "AutoUpdatePreUpdateBackupFailed" >> exit (ok 60)
  backup_outcome false done = return_if (not done) (ok 10)

  after_backup : OneShot → M (St W) Return (Unit {0})
  unfolding backup_outcome
  after_backup r = backup_outcome (is_some r.error) r.done

  -- The StatefulSet gets the image, unless it has it.
  patch_image : String → StatefulSet → List Container → M (St W) Return (Unit {0})
  patch_image desired sts [] = exit (err (plain "StatefulSet has no containers"))
  patch_image desired sts (k ∷ ks) = when (not (str_eq k.image desired)) do
    patched ←
        call
          (client.patch_stateful_set sts
            (record sts { containers = record k { image = desired } ∷ ks }))
          (λ e. err (wrap "patch STS image" e))
    go tt

  abbrev pub needs_backup : HermesInstance → Bool
  needs_backup i =
      bool_value_or_default i.spec.auto_update.backup_before_update true
      && is_some i.spec.backup.s3
      && a.backup_set

  -- The status that `startRollout` writes.
  abbrev pub in_flight : String → ℕ → HermesInstance → HermesInstance
  in_flight target t i =
      let j =
        set_auto_update
          (λ u. record u {
            target_tag = target;
            rollout_deadline = some (t + rollout_window);
            probe_failures = 0;
          })
          i in
      set_conditions
        (λ cs.
          library.set_status_condition cs
            (condition j condition_auto_updated condition_false "RolloutInFlight"))
        j

  -- From the deadline to the end of `startRollout`.
  record_deadline : String → M (St W) Return Return
  record_deadline target = do
    t ← read client.now
    change (in_flight target t)
    write client.update_status err
    emit normal "AutoUpdateStarted"
    finish (ok 15)

  -- From the annotation to the end of `startRollout`.
  record_rollout : String → M (St W) Return Return
  unfolding record_deadline
  record_rollout target = do
    i ← instance_now
    change (set_annotations (annotate annotation_auto_update_target target))
    write (client.patch_instance i) (λ e. err (wrap "patch CR annotation" e))
    record_deadline target

  -- The part of `startRollout` after the backup.
  roll_out : String → M (St W) Return Return
  unfolding patch_image record_rollout
  roll_out target = do
    now ← instance_now
    sts ←
        call (client.get_stateful_set (stateful_set_name now) now.meta.namespace)
          (λ e. if is_not_found e then ok 10 else err e)
    patch_image (image_of now target) sts sts.containers
    record_rollout target

  back_up : M (St W) Return (Unit {0})
  unfolding after_backup
  back_up = do r ← sub (run_one_shot client); after_backup r

  unfoldable pub start_rollout : String → M (St W) Return Return
  unfolding back_up roll_out
  start_rollout target = do i ← instance_now; when (needs_backup i) back_up; roll_out target
