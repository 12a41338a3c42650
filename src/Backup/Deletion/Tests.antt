-- ===== src/Backup/Deletion/Tests.antt =====
-- Deletions of one instance: with the Job of the final backup failed, complete, or never finished.
use hermes_operator.Common.{ℕ, true, false, ◌≡◌, refl, arith, ◌⊎◌, none, []}
use hermes_operator.Kube.Result.{ok}
use hermes_operator.Kube.Objects.{JobConditionType, complete, failed}
use hermes_operator.Kube.Client.{Client}
use hermes_operator.Controller.{St, annotation}
use hermes_operator.Controller.Names.{is_job_finished}
use hermes_operator.Backup.Finalizer.{remove_finalizer}
use hermes_operator.Backup.Deletion.{handle_deletion, wants_skip}
use hermes_operator.Backup.Deletion.Reasons.{
  IsLate, IsBackedUp, handle_deletion-Reason, handle_deletion-IsLate,
}
use hermes_operator.Fixtures.Instances.{deleted_instance}
use hermes_operator.Fixtures.Conditions.{library}
use hermes_operator.Fixtures.Server.{server, sts_at, finished}

abbrev with_job : JobConditionType → Client ℕ
with_job t = server (ok (finished t)) (sts_at "hermes:1" 1) [] []

abbrev at : ℕ → St ℕ
at t = record { inst = deleted_instance; world = t; events = [] }

-- A complete Job lets the deletion go, a failed one does not until the deadline.
complete_releases : (handle_deletion library (with_job complete) (at 60)).0.held ≡ false
unfolding handle_deletion annotation is_job_finished remove_finalizer
complete_releases = refl

failed_holds : (handle_deletion library (with_job failed) (at 60)).0.held ≡ true
unfolding handle_deletion annotation is_job_finished remove_finalizer
failed_holds = refl

handle_deletion-Reason_example :
    (wants_skip library (with_job complete) deleted_instance ≡ true)
    ⊎ (deleted_instance.spec.backup.s3 ≡ none)
    ⊎ IsLate library (with_job complete) deleted_instance 60
    ⊎ IsBackedUp library (with_job complete) deleted_instance 60
handle_deletion-Reason_example =
    handle_deletion-Reason library (with_job complete) (at 60) refl complete_releases

handle_deletion-IsLate_example :
    (handle_deletion library (with_job failed) (at 1801)).0.held ≡ false
handle_deletion-IsLate_example =
    handle_deletion-IsLate library (with_job failed) (λ o i w. refl) (at 1801)
      (0, refl, omega arith)
