-- ===== src/Backup/Deletion.antt =====
-- internal/controller/backup.go: `HandleDeletion`, the backup before an instance is deleted.

pub mod Release
pub mod Reasons
mod Tests
use Prim.Native.Nat.{◌+◌}
use hermes_operator.Common.{
  ℕ, Bool, true, false, not, ◌||◌, Option, none, some, is_some, str_eq, ltb, if◌then◌else◌,
}
use hermes_operator.Common.Flow.{M, ◌>>=◌, ◌>>◌, finish, return_if, run, sub, go}
use hermes_operator.Api.Instance.{
  HermesInstance, finalizer_backup_on_delete, annotation_skip_final_backup,
}
use hermes_operator.Kube.Result.{Result, ok, err, Err, wrap}
use hermes_operator.Kube.Objects.{
  JobStatus, JobConditionType, complete, failed, suspended, normal, warning,
}
use hermes_operator.Kube.Library.{Library}
use hermes_operator.Kube.Client.{Client}
use hermes_operator.Controller.{
  check, St, call, try, read, write, attempt, emit, change, instance_now, set_backup, annotation,
}
use hermes_operator.Controller.Names.{final_backup_job_name, snapshot_key, is_job_finished}
use hermes_operator.Backup.{found_job, tolerate_existing}
use hermes_operator.Backup.Finalizer.{remove_finalizer}

-- `(ctrl.Result, finalizerStillHeld, error)`; a requeue is in seconds, 0 for none.
pub record Held : Type 0 where
  pub result : Result ℕ
  pub held : Bool

abbrev pub final_backup_deadline : ℕ
final_backup_deadline = 1800

module _ {W : Type 0} (l : Library) (c : Client W) where
  -- The two ends of `HandleDeletion`.
  abbrev keep_error : Err → Held
  keep_error e = record { result = err e; held = true }

  abbrev requeue : ℕ → Held
  requeue seconds = record { result = ok seconds; held = true }

  abbrev released : Held
  released = record { result = ok 0; held = false }

  -- `RemoveFinalizer`, and the return that follows each of its calls in `HandleDeletion`.
  release : M (St W) Held Held
  release = do removed ← sub (remove_finalizer l c); check removed keep_error; finish released

  -- `dt != nil && time.Since(dt.Time) > finalBackupDeadline`.
  abbrev past_deadline : Option ℕ → M (St W) Held Bool
  past_deadline none = go false
  past_deadline (some dt) = do t ← read c.now; go (ltb (dt + final_backup_deadline) t)

  -- The deadline has passed.
  abandon : M (St W) Held Held
  unfolding release
  abandon = do
    emit warning "FinalBackupAbandoned"
    t ← read c.now
    change (
        set_backup λ b. record b {
          last_failure_time = some t;
          last_failure_reason = "FinalBackupDeadlineExceeded";
        })
    attempt c.update_status
    release

  -- No Job yet.
  start_final_backup : HermesInstance → M (St W) Held Held
  start_final_backup i = do
    t ← read c.now
    let name = final_backup_job_name i
    let key = snapshot_key i "onDelete" (c.format_stamp t)
    call (c.set_controller_reference i name) keep_error
    created ← try (c.create_job i (record { name = name; snapshot_key = key; kind = "onDelete" }))
    check (tolerate_existing created) (λ e. keep_error (wrap "create final backup Job" e))
    change (set_backup λ b. record b { final_backup_job_name = name })
    write c.update_status keep_error
    emit normal "FinalBackupStarted"
    finish (requeue 10)

  -- The Job has failed.
  final_backup_failed : M (St W) Held Held
  final_backup_failed = do
    emit warning "FinalBackupFailed"
    t ← read c.now
    change (
        set_backup λ b. record b {
          last_failure_time = some t;
          last_failure_reason = "FinalBackupJobFailed";
        })
    write c.update_status keep_error
    finish (requeue 30)

  -- The Job is complete.
  final_backup_done : M (St W) Held Held
  unfolding release
  final_backup_done = do
    t ← read c.now
    change (set_backup λ b. record b { last_success_time = some t })
    write c.update_status keep_error
    release

  -- A Job that runs or is finished: anything but a failure is taken for a success.
  running_job : Option JobConditionType → M (St W) Held Held
  unfolding final_backup_failed final_backup_done
  running_job none = finish (requeue 10)
  running_job (some failed) = final_backup_failed
  running_job (some complete) = final_backup_done
  running_job (some suspended) = final_backup_done

  -- What the state of the Job calls for.
  watch_job : HermesInstance → Option JobStatus → M (St W) Held Held
  unfolding start_final_backup running_job
  watch_job i none = start_final_backup i
  watch_job i (some j) = running_job (is_job_finished j)

  -- The Job of the final backup.
  watch_final_backup : HermesInstance → M (St W) Held Held
  unfolding watch_job
  watch_final_backup i = do
    found ← try (c.get_job (final_backup_job_name i) i.meta.namespace)
    job ← check (found_job found) keep_error
    watch_job i job

  -- The two branches that give the final backup up at once.
  skip_final_backup : M (St W) Held Held
  unfolding release
  skip_final_backup = do emit warning "FinalBackupSkipped"; release

  -- The rest: the backup is wanted and possible.
  final_backup : HermesInstance → M (St W) Held Held
  unfolding abandon watch_final_backup
  final_backup i = do
    late ← past_deadline i.meta.deletion_timestamp
    if late then abandon else watch_final_backup i

  abbrev wants_skip : HermesInstance → Bool
  wants_skip i = str_eq (annotation annotation_skip_final_backup i.meta.annotations) "true"

  pub handle_deletion : St W → Held × St W
  unfolding skip_final_backup final_backup
  handle_deletion = run do
    i ← instance_now
    return_if (not (l.contains_finalizer i.meta.finalizers finalizer_backup_on_delete)) released
    if wants_skip i || not (is_some i.spec.backup.s3) then skip_final_backup else final_backup i
