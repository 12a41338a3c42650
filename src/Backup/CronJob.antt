-- ===== src/Backup/CronJob.antt =====
-- internal/controller/backup.go: `ReconcileCronJob` and `deleteCronJob`.
use hermes_operator.Common.{String, not, ◌||◌, is_some, is_empty, if◌then◌else◌}
use hermes_operator.Common.Flow.{M, ◌>>=◌, ◌>>◌, exit, finish, run}
use hermes_operator.Api.Status.{condition_true, condition_backup_ready}
use hermes_operator.Kube.Result.{ok, err, wrap, is_not_found}
use hermes_operator.Kube.Library.{Library}
use hermes_operator.Kube.Client.{Client}
use hermes_operator.Controller.{St, call, try, change, instance_now, set_conditions, condition}
use hermes_operator.Controller.Names.{backup_cron_job_name, backup_prune_cron_job_name}
use hermes_operator.Backup.{Done}

module _ {W : Type 0} (l : Library) (c : Client W) where
  -- The two places of `deleteCronJob` that drop the condition and return nil.
  not_ready : M (St W) Done Done
  not_ready = do
    change (set_conditions λ cs. l.remove_status_condition cs condition_backup_ready)
    finish (ok tt)

  pub delete_cron_job : String → St W → Done × St W
  unfolding not_ready
  delete_cron_job name = run do
    i ← instance_now
    found ← try (c.get_cron_job name i.meta.namespace)
    elim found [
      | err e ↦ if is_not_found e then not_ready else exit (err e)
      | ok u ↦ do
        deleted ← try (c.delete_cron_job name i.meta.namespace)
        elim deleted [
          | err e ↦ if is_not_found e then not_ready else exit (err e)
          | ok v ↦ not_ready
        ]
    ]

  pub reconcile_cron_job : St W → Done × St W
  reconcile_cron_job s =
      let i = s.inst in
      if is_empty i.spec.backup.schedule || not (is_some i.spec.backup.s3)
      then delete_cron_job (backup_cron_job_name i) s
      else run
          (do
            call (c.apply_cron_job i (backup_cron_job_name i))
                (λ e. err (wrap "reconcile backup CronJob" e))
            call (c.apply_cron_job i (backup_prune_cron_job_name i))
                (λ e. err (wrap "reconcile prune CronJob" e))
            change (
                set_conditions λ cs.
                  l.set_status_condition cs
                    (condition i condition_backup_ready condition_true "Scheduled"))
            finish (ok tt))
          s
