-- ===== src/AutoUpdate/Drive.antt =====
-- internal/controller/autoupdate.go: `driveRollout`, `confirmRollout`, `rollback` and
-- `countProbeFailures`, which watch a rollout to its end.
pub mod Steps
use hermes_operator.Common.{
  ℕ, ◌+◌, String, Bool, true, false, not, ◌&&◌, ◌||◌, Option, none, some, List, [], ◌∷◌, concat,
  is_empty, ltb, leb, ◌==◌, if◌then◌else◌, bool_value_or_default,
}
use hermes_operator.Common.Flow.{M, ◌>>=◌, ◌>>◌, exit, finish, when, go}
use hermes_operator.Api.Status.{
  condition_true, condition_false, condition_auto_updated, condition_auto_update_rolled_back,
}
use hermes_operator.Api.Instance.{HermesInstance, annotation_auto_update_target}
use hermes_operator.Kube.Result.{ok, err, plain, wrap}
use hermes_operator.Kube.Objects.{StatefulSet, Container, normal, warning}
use hermes_operator.Controller.{
  St, call, read, write, emit, change, instance_now, set_auto_update, set_conditions,
  set_annotations, condition, annotation, unannotate,
}
use hermes_operator.Controller.Names.{stateful_set_name}
use hermes_operator.AutoUpdate.{AutoUpdateReconciler}
use hermes_operator.AutoUpdate.Rollout.{Return, image_of, count_events}

-- The replicas of the StatefulSet have the target's image and are ready.
abbrev pub is_rolled_out : StatefulSet → Bool
is_rolled_out sts =
    sts.ready_replicas == 1 && sts.updated_replicas == 1 && not (is_empty sts.current_revision)

abbrev pub threshold_of : HermesInstance → ℕ
threshold_of i =
    if ltb 0 i.spec.auto_update.rollback.probe_failure_threshold
    then i.spec.auto_update.rollback.probe_failure_threshold
    else 3

abbrev pub rollback_enabled : HermesInstance → Bool
rollback_enabled i = bool_value_or_default i.spec.auto_update.rollback.enabled true

-- The tag that `rollback` goes back to.
abbrev pub previous_tag : HermesInstance → String
previous_tag i =
    if is_empty i.status.auto_update.last_success_tag
    then i.spec.image.tag
    else i.status.auto_update.last_success_tag

module _ {V C W : Type 0} (a : AutoUpdateReconciler V C W) where
  open a use {library, client}

  abbrev get_sts : HermesInstance → M (St W) Return StatefulSet
  get_sts i = call (client.get_stateful_set (stateful_set_name i) i.meta.namespace) err

  -- The last writes of `confirmRollout` and `rollback`: the annotation of the target goes.
  drop_annotation : M (St W) Return (Unit {0})
  drop_annotation = do
    i ← instance_now
    when (not (is_empty (annotation annotation_auto_update_target i.meta.annotations))) do
      change (set_annotations (unannotate annotation_auto_update_target))
      write (client.patch_instance i) err

  -- The status that `confirmRollout` writes.
  abbrev pub confirmed : String → HermesInstance → HermesInstance
  confirmed target i =
      let j =
        set_auto_update
          (λ u. record u {
            last_success_tag = target;
            current_tag = target;
            target_tag = "";
            rollout_deadline = none;
            probe_failures = 0;
            pre_update_snapshot = "";
          })
          i in
      set_conditions
        (λ cs.
          library.remove_status_condition
            (library.set_status_condition cs
              (condition j condition_auto_updated condition_true "Confirmed"))
            condition_auto_update_rolled_back)
        j

  confirm_rollout : String → M (St W) Return Return
  unfolding drop_annotation
  confirm_rollout target = do
    change (confirmed target)
    write client.update_status err
    drop_annotation
    emit normal "AutoUpdateConfirmed"
    finish (ok 0)

  -- The StatefulSet gets the image back.
  patch_back : String → StatefulSet → List Container → M (St W) Return (Unit {0})
  patch_back image sts [] = exit (err (plain "STS has no containers"))
  patch_back image sts (k ∷ ks) = do
    patched ←
        call
          (client.patch_stateful_set sts
            (record sts { containers = record k { image = image } ∷ ks }))
          (λ e. err (wrap "patch STS rollback" e))
    go tt

  -- The status that `rollback` writes.
  abbrev pub rolled_back : String → String → HermesInstance → HermesInstance
  rolled_back failed_tag prev i =
      let j =
        set_auto_update
          (λ u. record u {
            last_failed_tag = failed_tag;
            target_tag = "";
            rollout_deadline = none;
            current_tag = prev;
          })
          i in
      set_conditions
        (λ cs.
          library.set_status_condition
            (library.set_status_condition cs (
              condition j condition_auto_update_rolled_back condition_true
                (concat ("RolledBackFrom_" ∷ failed_tag ∷ []))))
            (condition j condition_auto_updated condition_false "RolledBack"))
        j

  -- The writes of `rollback` after the StatefulSet.
  record_rollback : String → String → M (St W) Return Return
  unfolding drop_annotation
  record_rollback failed_tag prev = do
    change (rolled_back failed_tag prev)
    write client.update_status err
    drop_annotation
    emit warning "AutoUpdateRolledBack"
    finish (ok 0)

  rollback : String → M (St W) Return Return
  unfolding patch_back record_rollback
  rollback failed_tag = do
    i ← instance_now
    let prev = previous_tag i
    sts ← get_sts i
    patch_back (image_of i prev) sts sts.containers
    record_rollback failed_tag prev

  count_probe_failures : M (St W) Return ℕ
  count_probe_failures = do
    i ← instance_now
    events ← call (client.list_events i.meta.namespace) err
    go (count_events i events)

  -- `RolloutDeadline != nil && now().After(RolloutDeadline)`.
  past_rollout_deadline : Option ℕ → M (St W) Return Bool
  past_rollout_deadline none = go false
  past_rollout_deadline (some deadline) = do t ← read client.now; go (ltb deadline t)

  -- The rollout goes on.
  keep_watching : M (St W) Return Return
  keep_watching = do write client.update_status err; finish (ok 15)

  -- The StatefulSet is not ready on the target's image.
  watch_failures : HermesInstance → String → M (St W) Return Return
  unfolding rollback count_probe_failures past_rollout_deadline keep_watching
  watch_failures i target = do
    failures ← count_probe_failures
    change (set_auto_update λ u. record u { probe_failures = failures })
    late ← past_rollout_deadline i.status.auto_update.rollout_deadline
    if rollback_enabled i && (leb (threshold_of i) failures || late)
        then rollback target
        else keep_watching

  unfoldable pub drive_rollout : M (St W) Return Return
  unfolding confirm_rollout watch_failures
  drive_rollout = do
    i ← instance_now
    let target = i.status.auto_update.target_tag
    sts ← get_sts i
    if is_rolled_out sts then confirm_rollout target else watch_failures i target
