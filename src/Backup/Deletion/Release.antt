-- ===== src/Backup/Deletion/Release.antt =====
-- When the backup finalizer is released, and that the deletion is never blocked for good.
use hermes_operator.Common.{
  ℕ, Bool, true, false, not, Option, none, some, is_some, ◌≡◌, arith, if◌then◌else◌, ◌||◌,
}
use hermes_operator.Common.Flow.{run, ◌>>=◌}
use hermes_operator.Api.Instance.{HermesInstance}
use hermes_operator.Kube.Objects.{JobStatus, JobConditionType, complete, failed, suspended}
use hermes_operator.Kube.Library.{Library, IsLibrary}
use hermes_operator.Kube.Client.{Client, IsApiServer}
use hermes_operator.Controller.{St}
use hermes_operator.Controller.Rules.{return_if_rule, if_rule, check_rule, store_rule}
use hermes_operator.Controller.Names.{is_job_finished}
use hermes_operator.Backup.Finalizer.Laws.{has_finalizer, remove_finalizer-ok}
use hermes_operator.Backup.Deletion.{
  Held, release, abandon, watch_final_backup, start_final_backup, final_backup_failed,
  final_backup_done, skip_final_backup, final_backup, wants_skip, handle_deletion, keep_error,
  watch_job, running_job, released, past_deadline,
}

module _ {W : Type 0} (l : Library) (c : Client W) (h : IsLibrary l) (a : IsApiServer c) where
  -- If the handler lets go, the finalizer is gone.
  abbrev Frees : Held × St W → Type 0
  Frees out = out.0.held ≡ false → has_finalizer l out.1.inst ≡ false

  release-Frees : (s : St W) → Frees (run (release l c) s)
  unfolding release
  release-Frees s e = ground (arith, remove_finalizer-ok l c h a s)

  skip-Frees : (s : St W) → Frees (run (skip_final_backup l c) s)
  unfolding skip_final_backup
  skip-Frees s = release-Frees _

  abandon-Frees : (s : St W) → Frees (run (abandon l c) s)
  unfolding abandon
  abandon-Frees s = release-Frees _

  done-Frees : (s : St W) → Frees (run (final_backup_done l c) s)
  unfolding final_backup_done
  done-Frees s =
      store_rule Frees _ (keep_error l c) (release l c) _ (λ e q held. cc) (λ i q. release-Frees _)

  start-Frees : (i : HermesInstance) (s : St W) → Frees (run (start_final_backup l c i) s)
  unfolding start_final_backup
  start-Frees i s e = ground arith

  failed-Frees : (s : St W) → Frees (run (final_backup_failed l c) s)
  unfolding final_backup_failed
  failed-Frees s e = ground arith

  running-Frees : (t : Option JobConditionType) (s : St W) → Frees (run (running_job l c t) s)
  unfolding running_job
  running-Frees none s = λ held. cc
  running-Frees (some failed) s = failed-Frees s
  running-Frees (some complete) s = done-Frees s
  running-Frees (some suspended) s = done-Frees s

  job-Frees :
      (i : HermesInstance) (o : Option JobStatus) (s : St W) → Frees (run (watch_job l c i o) s)
  unfolding watch_job
  job-Frees i none s = start-Frees i s
  job-Frees i (some j) s = running-Frees (is_job_finished j) s

  watch-Frees : (i : HermesInstance) (s : St W) → Frees (run (watch_final_backup l c i) s)
  unfolding watch_final_backup
  watch-Frees i s =
      check_rule Frees _ (keep_error l c) (watch_job l c i) _ (λ e q held. cc)
        (λ o q. job-Frees i o _)

  late-Frees :
      (i : HermesInstance) (late : Bool) (s : St W)
      → Frees (run (if late then abandon l c else watch_final_backup l c i) s)
  late-Frees i true s = abandon-Frees s
  late-Frees i false s = watch-Frees i s

  final-Frees :
      (i : HermesInstance) (dt : Option ℕ) (s : St W)
      → Frees (
          run
            (past_deadline l c dt >>= λ late.
              if late then abandon l c else watch_final_backup l c i)
            s)
  final-Frees i none s = late-Frees i false s
  final-Frees i (some dt) s = late-Frees i _ _

-- Whatever the branch, an instance whose deletion is let go has lost the finalizer.
pub handle_deletion-released :
    {W : Type 0} (l : Library) (c : Client W) (h : IsLibrary l) (a : IsApiServer c) (s : St W)
    → (handle_deletion l c s).0.held ≡ false
    → has_finalizer l (handle_deletion l c s).1.inst ≡ false
unfolding handle_deletion final_backup
handle_deletion-released l c h a s =
    return_if_rule (Frees l c h a) (not (has_finalizer l s.inst)) (released l c) _ s
      (λ gone held. ground arith)
      λ here.
        if_rule (Frees l c h a) (wants_skip l c s.inst || not (is_some s.inst.spec.backup.s3))
          (skip_final_backup l c) (final_backup l c s.inst) s (λ skip. skip-Frees l c h a s)
          (λ wanted. final-Frees l c h a s.inst s.inst.meta.deletion_timestamp s)
