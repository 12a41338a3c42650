-- ===== src/Backup.antt =====
-- internal/controller/backup.go: the backup sub-controller. The CronJobs and Jobs are built by
-- internal/resources inside the client's calls; what is modelled is which calls are made, in which
-- order, and what they leave in the instance.
pub mod Finalizer
pub mod CronJob
pub mod Deletion
pub mod OneShot
use Prim.Native.Nat.{◌+◌}
use hermes_operator.Common.{
  ℕ, String, Bool, true, false, not, ◌&&◌, ◌||◌, Option, none, some, ◌≡◌, arith, is_some, is_empty,
  str_eq, ltb, if◌then◌else◌,
}
use hermes_operator.Common.Flow.{
  M, ◌>>=◌, ◌>>◌, exit, finish, return_if, when, run, sub, Flow, go, stop,
}
use hermes_operator.Api.Status.{
  condition_true, condition_false, condition_backup_ready, BackupStatus, AutoUpdateStatus,
}
use hermes_operator.Api.Instance.{
  HermesInstance, finalizer_backup_on_delete, annotation_skip_final_backup,
}
use hermes_operator.Kube.Result.{Result, ok, err, Err, plain, wrap, is_not_found, is_already_exists}
use hermes_operator.Kube.Objects.{JobStatus, complete, failed, suspended, normal, warning}
use hermes_operator.Kube.Library.{Library}
use hermes_operator.Kube.Client.{Client}
use hermes_operator.Controller.{
  St, call, try, read, write, attempt, emit, change, instance_now, set_auto_update, set_backup,
  set_conditions, set_finalizers, condition, annotation,
}
use hermes_operator.Controller.Names.{
  final_backup_job_name, pre_update_backup_job_name, backup_cron_job_name,
  backup_prune_cron_job_name, snapshot_key, is_job_finished,
}

-- `error`.
abbrev pub Done : Type 0
Done = Result (Unit {0})

-- `GetJob`: nil if there is none.
abbrev pub found_job : Result JobStatus → Result (Option JobStatus)
found_job (ok job) = ok (some job)
found_job (err e) = if is_not_found e then ok none else err e

-- `err != nil && !apierrors.IsAlreadyExists(err)`.
abbrev pub tolerate_existing : Result (Unit {0}) → Result (Unit {0})
tolerate_existing (ok u) = ok u
tolerate_existing (err e) = if is_already_exists e then ok tt else err e

-- A Job that was found was answered.
pub found_some : (r : Result JobStatus) {j : JobStatus} → found_job r ≡ ok (some j) → r ≡ ok j
found_some r e = ground arith
