-- ===== src/Backup/OneShot/Outcome.antt =====
-- What the backup before an update leaves behind, and when it is done.
use hermes_operator.Common.{
  String, Bool, true, false, Option, none, some, ◌≡◌, ◌≢◌, refl, ◌∙◌, ap, arith, is_empty,
}
use hermes_operator.Common.Flow.{run}
use hermes_operator.Api.Instance.{HermesInstance}
use hermes_operator.Kube.Result.{Result, ok}
use hermes_operator.Kube.Objects.{JobStatus, JobConditionType, complete, failed, suspended}
use hermes_operator.Kube.Client.{Client, IsApiServer}
use hermes_operator.Controller.{St, set_auto_update}
use hermes_operator.Controller.Names.{pre_update_backup_job_name, snapshot_key, is_job_finished}
use hermes_operator.Controller.Rules.{check_rule, write_rule, store_rule, Leaves}
use hermes_operator.Backup.{found_job, found_some}
use hermes_operator.AutoUpdate.Tags.{Tags, tags_of}
use hermes_operator.Backup.OneShot.{
  OneShot, failed_one_shot, found_one_shot, create_one_shot, start_one_shot, one_shot_job,
  run_one_shot,
}

module _ {W : Type 0} (c : Client W) (h : IsApiServer c) (t : Tags) where
  abbrev Has : HermesInstance → Type 0
  Has i = tags_of i ≡ t

  create-Has :
      (name key : String) (s : St W) → Has s.inst → Leaves Has (run (create_one_shot c name key) s)
  unfolding create_one_shot
  create-Has name key s here = ground arith

  start-Has :
      (name : String) (unset : Bool) (fresh recorded : String) (s : St W)
      → Has s.inst
      → Leaves Has (run (start_one_shot c name unset fresh recorded) s)
  unfolding start_one_shot
  start-Has name false fresh recorded s here = create-Has name recorded s here
  start-Has name true fresh recorded s here =
      let i = set_auto_update (λ a. record a { pre_update_snapshot = fresh }) s.inst in
      let (r, w) = c.update_status i s.world in
      write_rule Has Has r failed_one_shot (create_one_shot c name fresh)
        (record s { inst = i; world = w }) (λ j e. e) here
        (rw (h.status-update_status i s.world) here)
        λ j e. create-Has name fresh (record s { inst = j; world = w }) e

  job-Has :
      (name fresh recorded : String) (o : Option JobStatus) (s : St W)
      → Has s.inst
      → Leaves Has (run (one_shot_job c name fresh recorded o) s)
  unfolding one_shot_job
  job-Has name fresh recorded none s here = start-Has name (is_empty recorded) fresh recorded s here
  job-Has name fresh recorded (some j) s here = here

  -- The backup before an update leaves the tags alone.
  pub run_one_shot-tags : (s : St W) → Has s.inst → Has (run_one_shot c s).1.inst
  unfolding run_one_shot
  run_one_shot-tags s here =
      let i = s.inst in
      let (now, w) = c.now s.world in
      let (found, w') = c.get_job (pre_update_backup_job_name i) i.meta.namespace w in
      let fresh = snapshot_key i "preUpdate" (c.format_stamp now) in
      let recorded = i.status.auto_update.pre_update_snapshot in
      let name = pre_update_backup_job_name i in
      check_rule (Leaves Has) (found_job found) failed_one_shot (one_shot_job c name fresh recorded)
        (record s { world = w' }) (λ e q. here)
        (λ o q. job-Has name fresh recorded o (record s { world = w' }) here)

module _ {W : Type 0} (c : Client W) where
  -- The backup is not done yet.
  abbrev Unfinished : OneShot × St W → Type 0
  Unfinished out = out.0.done ≡ false

  create-Unfinished :
      (name key : String) (s : St W) → Unfinished (run (create_one_shot c name key) s)
  unfolding create_one_shot
  create-Unfinished name key s = ground arith

  start-Unfinished :
      (name : String) (unset : Bool) (fresh recorded : String) (s : St W)
      → Unfinished (run (start_one_shot c name unset fresh recorded) s)
  unfolding start_one_shot
  start-Unfinished name false fresh recorded s = create-Unfinished name recorded s
  start-Unfinished name true fresh recorded s =
      let i = set_auto_update (λ a. record a { pre_update_snapshot = fresh }) s.inst in
      let (r, w) = c.update_status i s.world in
      store_rule Unfinished r failed_one_shot (create_one_shot c name fresh)
        (record s { inst = i; world = w }) (λ e q. refl)
        λ j e. create-Unfinished name fresh (record s { inst = j; world = w })

  -- A Job has finished, and not by failing.
  abbrev pub HasSucceeded : Result JobStatus → Type 0
  HasSucceeded r =
      (job : JobStatus) × (r ≡ ok job)
      × (t : JobConditionType) × (is_job_finished job ≡ some t)
      × (t ≢ failed)

  found_one_shot-done :
      (key : String) (o : Option JobConditionType)
      → (found_one_shot key o).done ≡ true
      → (t : JobConditionType) × (o ≡ some t) × (t ≢ failed)
  found_one_shot-done key none e = absurd (ground arith)
  found_one_shot-done key (some failed) e = absurd (ground arith)
  found_one_shot-done key (some complete) e = (complete, refl, λ q. cc)
  found_one_shot-done key (some suspended) e = (suspended, refl, λ q. cc)

  job-done :
      (G : Type 0) (name fresh recorded : String) (o : Option JobStatus) (s : St W)
      → ((j : JobStatus) (t : JobConditionType)
          → o ≡ some j
          → is_job_finished j ≡ some t
          → t ≢ failed
          → G)
      → (run (one_shot_job c name fresh recorded o) s).0.done ≡ true
      → G
  unfolding one_shot_job
  job-done G name fresh recorded none s k e =
      absurd (ground (arith, start-Unfinished name (is_empty recorded) fresh recorded s))
  job-done G name fresh recorded (some j) s k e =
      let (t, fin, good) = found_one_shot-done recorded (is_job_finished j) e in k j t refl fin good

  -- The backup before an update reports done only if the API server answers with a Job of that
  -- name that has finished without failing.
  pub run_one_shot-done :
      (s : St W)
      → (run_one_shot c s).0.done ≡ true
      → HasSucceeded
          (c.get_job (pre_update_backup_job_name s.inst) s.inst.meta.namespace (c.now s.world).1).0
  unfolding run_one_shot
  run_one_shot-done s =
      let i = s.inst in
      let (now, w) = c.now s.world in
      let (found, w') = c.get_job (pre_update_backup_job_name i) i.meta.namespace w in
      let fresh = snapshot_key i "preUpdate" (c.format_stamp now) in
      let recorded = i.status.auto_update.pre_update_snapshot in
      let name = pre_update_backup_job_name i in
      check_rule (λ out. out.0.done ≡ true → HasSucceeded found) (found_job found) failed_one_shot
        (one_shot_job c name fresh recorded) (record s { world = w' })
        (λ e q d. absurd (ground arith))
        λ o q.
          job-done (HasSucceeded found) name fresh recorded o (record s { world = w' })
            λ j t is_job fin good. (j, found_some found (q ∙ ap ok is_job), t, fin, good)
