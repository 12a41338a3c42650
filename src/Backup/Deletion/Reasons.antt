-- ===== src/Backup/Deletion/Reasons.antt =====
-- Why a deletion is let go, and that the deadline always lets it go.
use hermes_operator.Common.{
  ℕ, ◌+◌, ◌<◌, Bool, true, false, not, Option, none, some, is_some, ◌≡◌, refl, ap, ◌∙◌, ◌≢◌, ◌⊎◌,
  inl, inr, arith, ltb, if◌then◌else◌, ◌||◌,
}
use mathlib.Core.Path.{subst}
use hermes_operator.Common.Flow.{run, ◌>>=◌}
use hermes_operator.Api.Features.{BackupS3Spec}
use hermes_operator.Api.Instance.{HermesInstance}
use hermes_operator.Kube.Result.{ok, is_ok}
use hermes_operator.Kube.Objects.{JobStatus, JobConditionType, complete, failed, suspended}
use hermes_operator.Kube.Library.{Library}
use hermes_operator.Kube.Client.{Client}
use hermes_operator.Controller.{St}
use hermes_operator.Controller.Rules.{return_if_rule, if_rule, check_rule}
use hermes_operator.Controller.Names.{final_backup_job_name, is_job_finished}
use hermes_operator.Backup.{found_some}
use hermes_operator.Backup.Finalizer.Laws.{has_finalizer, remove_finalizer_total}
use hermes_operator.Backup.Deletion.{
  Held, final_backup_deadline, release, abandon, watch_final_backup, start_final_backup,
  final_backup_failed, skip_final_backup, final_backup, wants_skip, handle_deletion, keep_error,
  watch_job, running_job, released, past_deadline,
}

module _ {W : Type 0} (l : Library) (c : Client W) where
  -- More than the deadline has passed since the deletion was asked for.
  abbrev pub IsLate : HermesInstance → W → Type 0
  IsLate i w =
      (dt : ℕ) × (i.meta.deletion_timestamp ≡ some dt) × (dt + final_backup_deadline < (c.now w).0)

  -- The world after the deadline was looked at.
  abbrev pub after_clock : Option ℕ → W → W
  after_clock none w = w
  after_clock (some dt) w = (c.now w).1

  -- The Job of the final backup has finished, and not by failing.
  abbrev pub IsBackedUp : HermesInstance → W → Type 0
  IsBackedUp i w =
      (job : JobStatus) × ((c.get_job (final_backup_job_name i) i.meta.namespace w).0 ≡ ok job)
      × (t : JobConditionType) × (is_job_finished job ≡ some t)
      × (t ≢ failed)

  -- The deletion is let go only for the goal `G`.
  abbrev OnlyIf : Type 0 → Held × St W → Type 0
  OnlyIf G out = out.0.held ≡ false → G

  running-OnlyIf :
      (G : Type 0) (o : Option JobConditionType) (s : St W)
      → ((t : JobConditionType) → o ≡ some t → t ≢ failed → G)
      → OnlyIf G (run (running_job l c o) s)
  unfolding running_job final_backup_failed
  running-OnlyIf G none s k e = cc
  running-OnlyIf G (some failed) s k e = absurd (ground arith)
  running-OnlyIf G (some complete) s k e = k complete refl (λ q. cc)
  running-OnlyIf G (some suspended) s k e = k suspended refl (λ q. cc)

  job-OnlyIf :
      (G : Type 0) (i : HermesInstance) (o : Option JobStatus) (s : St W)
      → ((j : JobStatus) (t : JobConditionType)
          → o ≡ some j
          → is_job_finished j ≡ some t
          → t ≢ failed
          → G)
      → OnlyIf G (run (watch_job l c i o) s)
  unfolding watch_job start_final_backup
  job-OnlyIf G i none s k = λ e. absurd (ground arith)
  job-OnlyIf G i (some j) s k = running-OnlyIf G (is_job_finished j) s (λ t. k j t refl)

  watch-OnlyIf :
      (i : HermesInstance) (s : St W)
      → OnlyIf (IsBackedUp i s.world) (run (watch_final_backup l c i) s)
  unfolding watch_final_backup
  watch-OnlyIf i s =
      let r = (c.get_job (final_backup_job_name i) i.meta.namespace s.world).0 in
      check_rule (OnlyIf (IsBackedUp i s.world)) _ (keep_error l c) (watch_job l c i) _
        (λ e q held. cc)
        λ o q.
          job-OnlyIf (IsBackedUp i s.world) i o _
            λ j t is_job fin good. (j, found_some r (q ∙ ap ok is_job), t, fin, good)

  Reason : HermesInstance → W → Type 0
  Reason i w = IsLate i w ⊎ IsBackedUp i (after_clock i.meta.deletion_timestamp w)

  backed_up-OnlyIf :
      (i : HermesInstance) (s s' : St W)
      → s'.world ≡ after_clock i.meta.deletion_timestamp s.world
      → OnlyIf (Reason i s.world) (run (watch_final_backup l c i) s')
  unfolding Reason
  backed_up-OnlyIf i s s' same held = inr (subst (IsBackedUp i) same (watch-OnlyIf i s' held))

  final-OnlyIf :
      (i : HermesInstance) (dt : Option ℕ) (s : St W)
      → i.meta.deletion_timestamp ≡ dt
      → OnlyIf (Reason i s.world) (
          run
            (past_deadline l c dt >>= λ late.
              if late then abandon l c else watch_final_backup l c i)
            s)
  final-OnlyIf i none s e = backed_up-OnlyIf i s s (rw e)
  final-OnlyIf i (some dt) s e =
      if_rule (OnlyIf (Reason i s.world)) (ltb (dt + final_backup_deadline) (c.now s.world).0)
        (abandon l c) (watch_final_backup l c i) _
        (λ late held. unfold Reason in inl (dt, e, ground arith))
        (λ early. backed_up-OnlyIf i s _ (rw e))

skip_cases :
    {G : Type 0} (b : Bool) (s3 : Option BackupS3Spec)
    → (b || not (is_some s3)) ≡ true
    → (b ≡ true) ⊎ (s3 ≡ none) ⊎ G
skip_cases true s3 e = inl refl
skip_cases false none e = inr (inl refl)
skip_cases false (some x) e = absurd (ground arith)

-- The finalizer is let go only if the user asked to skip the backup, no bucket is configured, more
-- than 30 minutes have passed since the deletion, or the Job of the final backup has finished
-- without failing.
pub handle_deletion-Reason :
    {W : Type 0} (l : Library) (c : Client W) (s : St W)
    → has_finalizer l s.inst ≡ true
    → (handle_deletion l c s).0.held ≡ false
    → (wants_skip l c s.inst ≡ true)
      ⊎ (s.inst.spec.backup.s3 ≡ none)
      ⊎ IsLate l c s.inst s.world
      ⊎ IsBackedUp l c s.inst (after_clock l c s.inst.meta.deletion_timestamp s.world)
unfolding handle_deletion final_backup Reason
handle_deletion-Reason {W} l c s here =
    let i = s.inst in
    let G : Type 0 = (wants_skip l c i ≡ true) ⊎ (i.spec.backup.s3 ≡ none) ⊎ Reason l c i s.world in
    return_if_rule (OnlyIf l c G) (not (has_finalizer l i)) (released l c) _ s
      (λ gone held. absurd (ground arith))
      λ _.
        if_rule (OnlyIf l c G) (wants_skip l c i || not (is_some i.spec.backup.s3))
          (skip_final_backup l c) (final_backup l c i) s
          (λ skip held. skip_cases (wants_skip l c i) i.spec.backup.s3 skip)
          (λ wanted held. inr (inr (final-OnlyIf l c i i.meta.deletion_timestamp s refl held)))

module _ {W : Type 0} (l : Library) (c : Client W)
    (fine : (o i : HermesInstance) (w : W) → is_ok (c.patch_instance o i w).0 ≡ true) where
  release_frees : (s : St W) → (run (release l c) s).0.held ≡ false
  unfolding release
  release_frees s = ground (arith, remove_finalizer_total l c s fine)

  late_frees :
      (i : HermesInstance) (o : Option ℕ) (dt : ℕ) (s : St W)
      → o ≡ some dt
      → dt + final_backup_deadline < (c.now s.world).0
      → (run
          (past_deadline l c o >>= λ late. if late then abandon l c else watch_final_backup l c i)
          s).0.held
        ≡ false
  unfolding abandon
  late_frees i none dt s e late = absurd (ground arith)
  late_frees i (some d) dt s e late =
      if_rule (λ out. out.0.held ≡ false) (ltb (d + final_backup_deadline) (c.now s.world).0)
        (abandon l c) (watch_final_backup l c i) _ (λ _. release_frees _)
        (λ early. absurd (ground arith))

  -- A deletion never blocks for good: once the deadline has passed, and the API server accepts
  -- patches, the handler lets go, whatever happens to the status update and to the Job.
  pub handle_deletion-IsLate :
      (s : St W) → IsLate l c s.inst s.world → (handle_deletion l c s).0.held ≡ false
  unfolding handle_deletion skip_final_backup final_backup
  handle_deletion-IsLate s late =
      let P : Held × St W → Type 0 = λ out. out.0.held ≡ false in
      return_if_rule P (not (has_finalizer l s.inst)) (released l c) _ s (λ gone. refl)
        λ _.
          if_rule P (wants_skip l c s.inst || not (is_some s.inst.spec.backup.s3))
            (skip_final_backup l c) (final_backup l c s.inst) s (λ skip. release_frees _)
            (λ wanted. late_frees s.inst s.inst.meta.deletion_timestamp late.0 s late.1 late.2)
