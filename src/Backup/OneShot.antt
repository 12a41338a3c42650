-- ===== src/Backup/OneShot.antt =====
-- internal/controller/backup.go: `RunOneShot`, the backup before an update.
pub mod Outcome
mod Tests
use hermes_operator.Common.{String, Bool, true, false, Option, none, some, is_empty, if◌then◌else◌}
use hermes_operator.Common.Flow.{M, ◌>>=◌, ◌>>◌, finish, when, run}
use hermes_operator.Kube.Result.{Err, plain, wrap}
use hermes_operator.Kube.Objects.{JobStatus, JobConditionType, complete, failed, suspended, normal}
use hermes_operator.Kube.Client.{Client}
use hermes_operator.Controller.{
  check, St, call, try, read, write, emit, change, instance_now, set_auto_update,
}
use hermes_operator.Controller.Names.{pre_update_backup_job_name, snapshot_key, is_job_finished}
use hermes_operator.Backup.{found_job, tolerate_existing}

-- `(snapshotKey, done, error)`.
pub record OneShot : Type 0 where
  pub key : String
  pub done : Bool
  pub error : Option Err

abbrev pub failed_one_shot : Err → OneShot
failed_one_shot e = record { key = ""; done = false; error = some e }

abbrev pub one_shot_key : Bool → String → String → String
one_shot_key unset fresh recorded = if unset then fresh else recorded

-- A Job that was found: anything but a failure of a finished Job is taken for a success.
abbrev pub found_one_shot : String → Option JobConditionType → OneShot
found_one_shot key none = record { key = key; done = false; error = none }
found_one_shot key (some failed) = record {
  key = key;
  done = false;
  error = some (plain "pre-update backup Job failed");
}
found_one_shot key (some complete) = record { key = key; done = true; error = none }
found_one_shot key (some suspended) = record { key = key; done = true; error = none }

module _ {W : Type 0} (c : Client W) where
  create_one_shot : String → String → M (St W) OneShot OneShot
  create_one_shot name key = do
    i ← instance_now
    call (c.set_controller_reference i name) failed_one_shot
    created ← try (c.create_job i (record { name = name; snapshot_key = key; kind = "preUpdate" }))
    check (tolerate_existing created) (λ e. failed_one_shot (wrap "create pre-update backup Job" e))
    emit normal "PreUpdateBackupStarted"
    finish (record { key = key; done = false; error = none })

  -- No Job yet: its key is recorded unless one is, and the Job is created.
  start_one_shot : String → Bool → String → String → M (St W) OneShot OneShot
  unfolding create_one_shot
  start_one_shot name unset fresh recorded = do
    when unset do
      change (set_auto_update λ a. record a { pre_update_snapshot = fresh })
      write c.update_status failed_one_shot
    create_one_shot name (one_shot_key unset fresh recorded)

  one_shot_job : String → String → String → Option JobStatus → M (St W) OneShot OneShot
  unfolding start_one_shot
  one_shot_job name fresh recorded none = start_one_shot name (is_empty recorded) fresh recorded
  one_shot_job name fresh recorded (some j) = finish (found_one_shot recorded (is_job_finished j))

  pub run_one_shot : St W → OneShot × St W
  unfolding one_shot_job
  run_one_shot = run do
    i ← instance_now
    t ← read c.now
    found ← try (c.get_job (pre_update_backup_job_name i) i.meta.namespace)
    job ← check (found_job found) failed_one_shot
    one_shot_job (pre_update_backup_job_name i) (snapshot_key i "preUpdate" (c.format_stamp t))
        i.status.auto_update.pre_update_snapshot job
