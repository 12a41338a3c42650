-- ===== src/AutoUpdate/Rollout/Steps.antt =====
-- How starting a rollout moves the tags.
use hermes_operator.Common.{
  String, Bool, true, false, not, List, [], ◌∷◌, ap, is_some, str_eq, if◌then◌else◌,
}
use hermes_operator.Common.Flow.{run, ◌>>◌, go, finish}
use hermes_operator.Api.Instance.{HermesInstance, annotation_auto_update_target}
use hermes_operator.Kube.Result.{ok, err, wrap, is_not_found}
use hermes_operator.Kube.Objects.{StatefulSet, Container, normal}
use hermes_operator.Kube.Client.{IsApiServer}
use hermes_operator.Controller.{St, emit, annotate, set_annotations}
use hermes_operator.Controller.Names.{stateful_set_name}
use hermes_operator.Controller.Rules.{check_rule, inner_check_rule, when_rule, Leaves}
use hermes_operator.Backup.OneShot.{run_one_shot}
use hermes_operator.Backup.OneShot.Outcome.{run_one_shot-tags}
use hermes_operator.AutoUpdate.{AutoUpdateReconciler}
use hermes_operator.AutoUpdate.Tags.{Tags, IsSoleWriter}
use hermes_operator.AutoUpdate.Keeps.{Has, Rest, update_status_rule, patch_instance_rule}
use hermes_operator.AutoUpdate.Rollout.{
  image_of, backup_outcome, in_flight, record_deadline, after_backup, patch_image, needs_backup,
  record_rollout, roll_out, back_up, start_rollout,
}

module _ {V C W : Type 0} (a : AutoUpdateReconciler V C W) (h : IsApiServer a.client)
    (sole : IsSoleWriter a.client) (t : Tags) (target : String) (G : HermesInstance → Type 0)
    (before : (i : HermesInstance) → Has t i → G i)
    (after : (i : HermesInstance) → Has (record t { target = target }) i → G i) where
  open a use {client}

  record_deadline-Leaves : Rest client h sole G t before (record_deadline a target)
  unfolding record_deadline
  record_deadline-Leaves s here =
      let (now, w) = client.now s.world in
      update_status_rule client h sole G (record t { target = target }) after err
        (emit normal "AutoUpdateStarted" >> finish (ok 15)) (λ s' there. after s'.inst there)
        (record s { inst = in_flight a target now s.inst; world = w })
        (ap {A = Tags} (λ u. record u { target = target }) here)

  record_rollout-Leaves : (s : St W) → Has t s.inst → Leaves G (run (record_rollout a target) s)
  unfolding record_rollout
  record_rollout-Leaves s here =
      let i = s.inst in
      patch_instance_rule client h sole G t before i (λ e. err (wrap "patch CR annotation" e))
        (record_deadline a target) record_deadline-Leaves
        (record s { inst = set_annotations (annotate annotation_auto_update_target target) i }) here

  patch_image-Leaves :
      (image : String) (sts : StatefulSet) (ks : List Container) (s : St W)
      → Has t s.inst
      → Leaves G (run (patch_image a image sts ks >> record_rollout a target) s)
  unfolding patch_image
  patch_image-Leaves image sts [] s here = before s.inst here
  patch_image-Leaves image sts (k ∷ ks) s here =
      let patched = record sts { containers = record k { image = image } ∷ ks } in
      let (r, w) = client.patch_stateful_set sts patched s.world in
      when_rule (Leaves G) (not (str_eq k.image image)) _ (record_rollout a target) s
        (λ _.
          inner_check_rule (Leaves G) r (λ e. err (wrap "patch STS image" e)) (λ p. go tt)
            (λ u. record_rollout a target) (record s { world = w }) (λ e q. before s.inst here)
            (λ p q. record_rollout-Leaves (record s { world = w }) here))
        (λ _. record_rollout-Leaves s here)

  roll_out-Leaves : (s : St W) → Has t s.inst → Leaves G (run (roll_out a target) s)
  unfolding roll_out
  roll_out-Leaves s here =
      let i = s.inst in
      let (r, w) = client.get_stateful_set (stateful_set_name i) i.meta.namespace s.world in
      check_rule (Leaves G) r (λ e. if is_not_found e then ok 10 else err e)
        (λ sts. patch_image a (image_of i target) sts sts.containers >> record_rollout a target)
        (record s { world = w }) (λ e q. before i here)
        λ sts q.
          patch_image-Leaves (image_of i target) sts sts.containers (record s { world = w }) here

  backup_outcome-Leaves :
      (failed done : Bool) (s : St W)
      → Has t s.inst
      → Leaves G (run (backup_outcome a failed done >> roll_out a target) s)
  unfolding backup_outcome
  backup_outcome-Leaves true done s here = before s.inst here
  backup_outcome-Leaves false false s here = before s.inst here
  backup_outcome-Leaves false true s here = roll_out-Leaves s here

  pub start_rollout-Leaves : (s : St W) → Has t s.inst → Leaves G (run (start_rollout a target) s)
  unfolding start_rollout back_up after_backup
  start_rollout-Leaves s here =
      when_rule (Leaves G) (needs_backup a s.inst) (back_up a) (roll_out a target) s
        (λ _.
          let (r, s') = run_one_shot client s in
          backup_outcome-Leaves (is_some r.error) r.done s' (run_one_shot-tags client h t s here))
        (λ _. roll_out-Leaves s here)
