-- ===== src/Latches/Migration.antt =====
-- internal/controller/migration.go: `MigrationReconciler.Reconcile` and `BuildSourceVolume`.
pub mod Outcome
use hermes_operator.Common.{
  ℕ, String, Bool, true, false, not, ◌&&◌, Option, none, some, is_some, str_eq, concat, List, [],
  ◌∷◌, if◌then◌else◌,
}
use hermes_operator.Common.Flow.{M, ◌>>=◌, ◌>>◌, finish, when, run, return_if}
use hermes_operator.Kube.Result.{Result, ok, err, Err, plain, wrap}
use hermes_operator.Kube.Objects.{Pod, normal, warning}
use hermes_operator.Kube.Client.{Client}
use hermes_operator.Kube.Library.{Library}
use hermes_operator.Api.Status.{condition_true, condition_false, condition_migration_completed}
use hermes_operator.Api.Features.{MigrationFromOpenClawSpec, NamespacedObjectReference}
use hermes_operator.Api.Instance.{HermesInstance}
use hermes_operator.Controller.{
  St, check, try, read, write, emit, change, instance_now, set_conditions, condition,
}
use hermes_operator.Controller.Names.{pod_name}
use hermes_operator.Latches.{
  Progress, waiting, finished, broken, Verdict, succeeded, failed, running, pod_verdict,
  not_found_or,
}

abbrev pub set_completed : ℕ → String → HermesInstance → HermesInstance
set_completed now message i = record i {
  status = record i.status {
    migration = record i.status.migration {
      completed = true;
      finished_at = some now;
      source_version = message;
    };
  };
}

-- The advice on the source is given in mode "move" for a source that is an instance.
abbrev pub advises : Option MigrationFromOpenClawSpec → Bool
advises none = false
advises (some f) = str_eq f.mode "move" && is_some f.source.open_claw_instance_ref

module _ {W : Type 0} (c : Client W) (l : Library) where
  abbrev pub completed_condition : HermesInstance → HermesInstance
  completed_condition i =
      set_conditions
        (λ cs.
          l.set_status_condition cs
            (condition i condition_migration_completed condition_true "MigrationCompleted"))
        i

  abbrev pub failed_condition : HermesInstance → HermesInstance
  failed_condition i =
      set_conditions
        (λ cs.
          l.set_status_condition cs
            (condition i condition_migration_completed condition_false "MigrationFailed"))
        i

  pub advise : M (St W) Progress Progress
  advise = do
    i ← instance_now
    when (advises i.spec.migration.from_open_claw) (emit warning "MigrationMoveModeAdvisory")
    finish finished

  pub on_verdict : Verdict → M (St W) Progress Progress
  unfolding advise
  on_verdict (succeeded message) = do
    now ← read c.now
    change (λ i. completed_condition (set_completed now message i))
    write c.update_status (broken false)
    emit normal "MigrationCompleted"
    advise
  on_verdict (failed message) = do
    change failed_condition
    emit warning "MigrationFailed"
    write c.update_status (broken false)
    finish (broken true (wrap "migration init container failed" (plain message)))
  on_verdict running = finish waiting

  -- The Pod is asked for its init container.
  pub watch_pod : M (St W) Progress Progress
  unfolding on_verdict
  watch_pod = do
    i ← instance_now
    found ← try (c.get_pod (pod_name i) i.meta.namespace)
    pod ← check found not_found_or
    on_verdict (pod_verdict "init-migrate-from-openclaw" pod)

  -- The latch stands: its condition is repaired.
  pub latched : M (St W) Progress Progress
  latched = do
    i ← instance_now
    when (not (l.is_status_condition_true i.status.conditions condition_migration_completed))
        (change completed_condition)
    finish finished

  pub watch_or_latched : Bool → M (St W) Progress Progress
  unfolding watch_pod latched
  watch_or_latched true = latched
  watch_or_latched false = watch_pod

  pub reconcile : St W → Progress × St W
  unfolding watch_or_latched
  reconcile = run do
    i ← instance_now
    return_if (not (is_some i.spec.migration.from_open_claw)) finished
    watch_or_latched i.status.migration.completed

-- The Volume of the source: an empty directory for S3, or the source's claim, read-only.
pub data Volume : Type 0 where
  empty_dir : String → Volume
  read_only_claim : String → String → Volume

abbrev pub source_volume : Option NamespacedObjectReference → Volume
source_volume none = empty_dir "openclaw-source"
source_volume (some ref) = read_only_claim "openclaw-source" (concat (ref.name ∷ "-data" ∷ []))

abbrev pub source_of : Option MigrationFromOpenClawSpec → Bool → Option Volume
source_of none completed = none
source_of (some f) completed =
    if completed then none else some (source_volume f.source.open_claw_instance_ref)

pub build_source_volume : HermesInstance → Option Volume
build_source_volume i = source_of i.spec.migration.from_open_claw i.status.migration.completed
